-- ===== src/Keyd/Signer/Btc/Bounds.antt =====
-- The bound of the skeleton, and where uint32_t lets it through.
use izan_wallet.Base.{ℕ, ◌+◌, ◌≤◌, ◌<◌, ◌≡◌, ◌≢◌, true, length, take, drop, Result, fault, arith}
use izan_wallet.Base.Bytes.{Bytes, le_value}
use izan_wallet.Vault.Payload.{Wallet}
use izan_wallet.Keyd.Presets.{DerivePreset, preset_family, is_btc}
use izan_wallet.Keyd.Crypto.{TxPlan, Crypto}
use izan_wallet.Keyd.Signer.Btc.{read_plan, u32_mod, subspan4, sign_btc_payload}

-- A length field that the payload does not hold passes the test where `4 + skel_len` wraps around:
-- the span behind it leaves the payload, whatever the parser is.
pub read_plan-fault :
    (parse_skeleton : Bytes → Result TxPlan) (payload : Bytes)
    → 4 ≤ length payload
    → length payload < u32_mod
    → u32_mod ≤ 4 + le_value 4 payload
    → le_value 4 payload < u32_mod
    → read_plan parse_skeleton payload ≡ fault
unfolding read_plan subspan4
read_plan-fault parse_skeleton payload h l wrap fits = ground arith

-- On every other payload the reads stay inside it, and only the parser could go wrong.
pub read_plan-ne-fault :
    (parse_skeleton : Bytes → Result TxPlan) (payload : Bytes)
    → ((skeleton : Bytes) → parse_skeleton skeleton ≢ fault)
    → 4 + le_value 4 payload < u32_mod
    → read_plan parse_skeleton payload ≢ fault
unfolding read_plan subspan4
read_plan-ne-fault parse_skeleton payload safe h e =
    ground (arith, safe (take (le_value 4 payload) (drop 4 payload)))

module _ {Hd : Type 0} (c : Crypto Hd) where
  -- A payload under a Bitcoin preset, of four bytes at least and less than 2 ^ 32, whose first four
  -- bytes spell a 32-bit number of 2 ^ 32 - 4 or more has undefined behaviour when it is signed,
  -- whatever follows them and whichever wallet signs.
  pub sign_btc_payload-fault :
      (aux : ℕ → Bytes) (w : Wallet) (payload : Bytes) (account : ℕ) (preset : DerivePreset)
      → is_btc (preset_family preset) ≡ true
      → 4 ≤ length payload
      → length payload < u32_mod
      → u32_mod ≤ 4 + le_value 4 payload
      → le_value 4 payload < u32_mod
      → sign_btc_payload c aux w payload account preset ≡ fault
  unfolding sign_btc_payload
  sign_btc_payload-fault aux w payload account preset e h l wrap fits =
      rw (e, read_plan-fault c.parse_skeleton payload h l wrap fits)
