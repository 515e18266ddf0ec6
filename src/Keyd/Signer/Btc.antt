-- ===== src/Keyd/Signer/Btc.antt =====
-- keyd/signer.cpp: sign_btc_payload. Sums are those of uint64_t, and `4 + skel_len` that of uint32_t.
mod Tests
pub mod Account
pub mod Whitelist
pub mod Bounds
use izan_wallet.Base.{
  ℕ, zero, suc, ◌+◌, ◌-◌, ◌*◌, ◌%◌, ◌^◌, Bool, true, false, not, ◌&&◌, ◌||◌, List, [], ◌∷◌, ◌==◌,
  ltb, leb, if◌then◌else◌, length, take, drop, replicate, Option, none, some, Result, ok, err,
  fault, ◌>>=◌, ◌>>◌, throw_if,
}
use izan_wallet.Base.Bytes.{Bytes, text, beq, le_value}
use izan_wallet.Vault.Payload.{Imported, Wallet}
use izan_wallet.Keyd.Presets.{DerivePreset, preset_family, is_btc}
use izan_wallet.Keyd.Crypto.{EcdsaSignature, SpendKind, TxInput, TxOutput, TxPlan, Witness, Crypto}
use izan_wallet.Keyd.Signer.{
  is_empty, labelled_ed25519, or_throw, SignedDigest, single_key, account_key, btc_preset_address,
  sign_with_raw,
}
use izan_wallet.Keyd.Signer.Der.{signature_der}

pub record BtcSignedTx : Type 0 where
  pub tx : Bytes
  pub txid : Bytes
  pub digest : Bytes
  pub signer : Bytes
  pub fee : ℕ

abbrev pub u32_mod : ℕ
u32_mod = 2 ^ 32

abbrev pub u64_mod : ℕ
u64_mod = 2 ^ 64

-- `4 + skel_len`, an int and a uint32_t.
abbrev pub skeleton_end : ℕ → ℕ
skeleton_end skel_len = (4 + skel_len) % u32_mod

-- `payload.subspan(4, skel_len)`, undefined where it leaves the payload.
pub subspan4 : Bytes → ℕ → Result Bytes
subspan4 payload skel_len =
    if ltb (length payload) (4 + skel_len) then fault else ok (take skel_len (drop 4 payload))

-- Each input takes the next eight bytes for its value.
pub put_values : List TxInput → Bytes → List TxInput
put_values [] p = []
put_values (i ∷ is) p = record i { value = le_value 8 p } ∷ put_values is (drop 8 p)

pub sum_inputs : ℕ → List TxInput → ℕ
sum_inputs acc [] = acc
sum_inputs acc (i ∷ is) = sum_inputs ((acc + i.value) % u64_mod) is

-- The plan of a payload, with the values put into it.
pub read_plan : (Bytes → Result TxPlan) → Bytes → Result TxPlan
read_plan parse_skeleton payload = do
  throw_if (ltb (length payload) 4) (text "signer: btc payload truncated")
  let skel_len = le_value 4 payload
  throw_if (ltb (length payload) (skeleton_end skel_len)) (text "signer: btc payload truncated")
  skeleton ← subspan4 payload skel_len
  plan ← parse_skeleton skeleton
  throw_if (not (length payload == skeleton_end skel_len + 8 * length plan.inputs))
      (text "signer: one value per input, exactly")
  ok (record plan { inputs = put_values plan.inputs (drop (4 + skel_len) payload) })

-- What the key of the account is: a derived one, or the first 32 bytes of the imported one.
pub data SpendKey (Hd : Type 0) : Type 0 where
  derived : Hd → SpendKey Hd
  raw : Bytes → SpendKey Hd

abbrev pub spend_of : DerivePreset → SpendKind
spend_of DerivePreset.btc_legacy = SpendKind.p2pkh
spend_of DerivePreset.btc_nested_segwit = SpendKind.p2sh_p2wpkh
spend_of DerivePreset.btc_taproot = SpendKind.p2tr
spend_of _ = SpendKind.p2wpkh

-- The loop over the outputs: the sum of their values, and whether one of them is `own`.
pub judge_outputs : (Bytes → Bytes) → Bytes → List TxOutput → ℕ × Bool → Result (ℕ × Bool)
judge_outputs address_for_script own [] acc = ok acc
judge_outputs address_for_script own (o ∷ os) (total, seen) = do
  throw_if (is_empty (address_for_script o.script)) (text "signer: an output no address can name")
  judge_outputs address_for_script own os ((total + o.value) % u64_mod, seen || beq o.script own)

-- The whitelist; its result is the fee. Whether change was seen counts only if there are two outputs.
pub judge : (Bytes → Bytes) → Bytes → TxPlan → Result ℕ
judge address_for_script own plan = do
  throw_if (ltb 2 (length plan.outputs)) (text "signer: too many outputs to read")
  (total_out, seen) ← judge_outputs address_for_script own plan.outputs (0, false)
  throw_if (length plan.outputs == 2 && not seen)
      (text "signer: the second output must be the account's own change")
  let total_in = sum_inputs 0 plan.inputs
  throw_if (leb total_in total_out) (text "signer: fee comes out negative")
  ok (total_in - total_out)

module _ {Hd : Type 0} (c : Crypto Hd) where
  pub import_spend_key : Imported → Result (SpendKey Hd)
  import_spend_key im = do
    throw_if (labelled_ed25519 im) (text "signer: an ed25519 key cannot sign bitcoin")
    if ltb (length im.key) 32 then fault else ok (raw im.key)

  pub seed_spend_key : Bytes → ℕ → DerivePreset → Result (SpendKey Hd)
  seed_spend_key entropy account preset = do
    key ← account_key c entropy account preset
    ok (derived key)

  pub spend_key : Wallet → ℕ → DerivePreset → Result (SpendKey Hd)
  spend_key w account preset =
      if not (is_empty w.entropy)
      then seed_spend_key w.entropy account preset
      else single_key w.imported account import_spend_key

  pub spend_public : SpendKey Hd → Bytes
  spend_public (derived key) = c.hd_public_compressed key
  spend_public (raw key) = c.ecdsa_public_key33 key

  -- `aux` is what randombytes_buf gives for this input.
  pub sign_taproot : SpendKey Hd → Bytes → Bytes → Option Bytes
  sign_taproot (derived key) aux digest = c.hd_sign_taproot key digest
  sign_taproot (raw key) aux digest = c.bip340_sign (c.bip341_tweak_seckey (take 32 key)) digest aux

  pub sign_ecdsa : SpendKey Hd → Bytes → Result EcdsaSignature
  sign_ecdsa (derived key) digest =
      or_throw (c.hd_sign_digest key digest) (text "signer: signing failed")
  sign_ecdsa (raw key) digest = do signed ← sign_with_raw c key digest; ok signed.sig

  abbrev pub is_p2pkh : SpendKind → Bool
  is_p2pkh SpendKind.p2pkh = true
  is_p2pkh _ = false

  -- One round of the signing loop.
  pub sign_input :
      SpendKind → SpendKey Hd → TxPlan → Bytes → Bytes → Bytes → Bytes → ℕ → Result Witness
  sign_input SpendKind.p2tr key plan own public h160 aux i = do
    schnorr ←
        or_throw (sign_taproot key aux (c.sighash_p2tr plan i own)) (text "signer: signing failed")
    ok (record { signature_der = schnorr; pubkey = [] })
  sign_input kind key plan own public h160 aux i = do
    let digest = if is_p2pkh kind then c.sighash_p2pkh plan i h160 else c.sighash_p2wpkh plan i h160
    sig ← sign_ecdsa key digest
    ok (record { signature_der = signature_der sig.r sig.s; pubkey = public })

  pub sign_inputs :
      SpendKey Hd
      → TxPlan
      → Bytes
      → Bytes
      → Bytes
      → (ℕ → Bytes)
      → ℕ
      → List TxInput
      → Result (List Witness)
  sign_inputs key plan own public h160 aux i [] = ok []
  sign_inputs key plan own public h160 aux i (x ∷ xs) = do
    witness ← sign_input plan.spend key plan own public h160 (aux i) i
    rest ← sign_inputs key plan own public h160 aux (i + 1) xs
    ok (witness ∷ rest)

  pub sign_btc_payload : (ℕ → Bytes) → Wallet → Bytes → ℕ → DerivePreset → Result BtcSignedTx
  sign_btc_payload aux w payload account preset = do
    throw_if (not (is_btc (preset_family preset))) (text "signer: not a bitcoin preset")
    plan0 ← read_plan c.parse_skeleton payload
    key ← spend_key w account preset
    let public = spend_public key
    let h160 = c.ripemd160 (c.sha256 public)
    signer ← btc_preset_address c preset public
    let own = c.script_for_address signer
    fee ← judge c.address_for_script own plan0
    let plan = record plan0 { spend = spend_of preset }
    witnesses ← sign_inputs key plan own public h160 aux 0 plan.inputs
    ok (record {
      tx = c.assemble_tx plan witnesses;
      txid = c.txid_of_signed plan witnesses;
      digest = c.sha256 (c.sha256 (c.encode_skeleton plan));
      signer = signer;
      fee = fee;
    })
