-- ===== src/Keyd/Signer/Btc/Account.antt =====
-- A Bitcoin transaction is signed by the account that the wallet shows.
use izan_wallet.Base.{
  ℕ, ◌≡◌, inl, inr, sym, ap, ◌∙◌, true, false, not, List, [], ◌∷◌, length, All, ok, err, fault,
  throw_if, arith, Bool-cases, >>=-eq-ok,
}
use izan_wallet.Base.Bytes.{Bytes, text}
use izan_wallet.Vault.Payload.{Imported, Wallet}
use izan_wallet.Keyd.Presets.{DerivePreset, ChainFamily, preset_family, is_btc}
use izan_wallet.Keyd.Crypto.{TxPlan, Witness, Crypto}
use izan_wallet.Keyd.Signer.{
  is_empty, single_key, account_key, btc_preset_address, seed_address, import_address,
  account_address, first_is_ed25519, holds_ed25519,
}
use izan_wallet.Keyd.Signer.Btc.{
  BtcSignedTx, SpendKey, import_spend_key, seed_spend_key, spend_key, spend_public, read_plan,
  judge, spend_of, sign_inputs, sign_btc_payload,
}
use izan_wallet.Keyd.Signer.Identity.{
  seed_address-btc, import_address-btc, account_address-seed, account_address-import,
}

module _ {Hd : Type 0} (c : Crypto Hd) where
  seed_spend :
      (entropy : Bytes) (account : ℕ) (preset : DerivePreset) (key : SpendKey Hd)
      → is_btc (preset_family preset) ≡ true
      → seed_spend_key c entropy account preset ≡ ok key
      → seed_address c entropy account preset ≡ btc_preset_address c preset (spend_public c key)
  unfolding seed_spend_key spend_public
  seed_spend entropy account preset key e h =
      let (hd, made, rest) = >>=-eq-ok (account_key c entropy account preset) _ h in
      ground (arith, seed_address-btc c entropy account preset hd e made)

  import_spend :
      (im : Imported) (preset : DerivePreset) (key : SpendKey Hd)
      → length im.key ≡ 32
      → is_btc (preset_family preset) ≡ true
      → import_spend_key c im ≡ ok key
      → import_address c preset im ≡ btc_preset_address c preset (spend_public c key)
  unfolding import_spend_key spend_public
  import_spend im preset key size e h = ground (arith, import_address-btc c im preset size e)

  is_btc_guard :
      (f : ChainFamily) (e : Bytes) → throw_if (not (is_btc f)) e ≡ ok tt → is_btc f ≡ true
  is_btc_guard f e h = ground arith

  -- The plan, the key, the fee and the witnesses behind a signed transaction.
  pub sign_btc_payload-inv :
      (aux : ℕ → Bytes) (w : Wallet) (payload : Bytes) (account : ℕ) (preset : DerivePreset)
      (s : BtcSignedTx)
      → sign_btc_payload c aux w payload account preset ≡ ok s
      → (plan : TxPlan) × (key : SpendKey Hd) × (signer : Bytes) × (fee : ℕ) × (witnesses : List
          Witness)
        × (is_btc (preset_family preset) ≡ true)
        × (read_plan c.parse_skeleton payload ≡ ok plan)
        × (spend_key c w account preset ≡ ok key)
        × (btc_preset_address c preset (spend_public c key) ≡ ok signer)
        × (judge c.address_for_script (c.script_for_address signer) plan ≡ ok fee)
        × (sign_inputs c key
              (record plan { spend = spend_of preset })
              (c.script_for_address signer)
              (spend_public c key)
              (c.ripemd160 (c.sha256 (spend_public c key)))
              aux
              0
              plan.inputs
            ≡ ok witnesses)
        × (s.signer ≡ signer)
        × (s.fee ≡ fee)
        × (s.tx ≡ c.assemble_tx (record plan { spend = spend_of preset }) witnesses)
  unfolding sign_btc_payload
  sign_btc_payload-inv aux w payload account preset s h =
      let (u, e1, h1) =
        >>=-eq-ok
          (throw_if (not (is_btc (preset_family preset))) (text "signer: not a bitcoin preset")) _
          h in
      let (plan, e2, h2) = >>=-eq-ok (read_plan c.parse_skeleton payload) _ h1 in
      let (key, e3, h3) = >>=-eq-ok (spend_key c w account preset) _ h2 in
      let (signer, e4, h4) = >>=-eq-ok (btc_preset_address c preset (spend_public c key)) _ h3 in
      let (fee, e5, h5) =
        >>=-eq-ok (judge c.address_for_script (c.script_for_address signer) plan) _ h4 in
      let (ws, e6, h6) =
        >>=-eq-ok
          (sign_inputs c key (record plan { spend = spend_of preset }) (c.script_for_address signer)
            (spend_public c key) (c.ripemd160 (c.sha256 (spend_public c key))) aux 0 plan.inputs)
          _ h5 in
      (
        plan,
        key,
        signer,
        fee,
        ws,
        is_btc_guard (preset_family preset) (text "signer: not a bitcoin preset") e1,
        e2,
        e3,
        e4,
        e5,
        e6,
        sym (signer_of h6),
        sym (fee_of h6),
        sym (tx_of h6),
      )
    where
      signer_of : {r : BtcSignedTx} → ok r ≡ ok s → r.signer ≡ s.signer
      signer_of q = ap (λ x. elim x [ ok t ↦ t.signer | err e ↦ [] | fault ↦ [] ]) q

      fee_of : {r : BtcSignedTx} → ok r ≡ ok s → r.fee ≡ s.fee
      fee_of q = ap (λ x. elim x [ ok t ↦ t.fee | err e ↦ 0 | fault ↦ 0 ]) q

      tx_of : {r : BtcSignedTx} → ok r ≡ ok s → r.tx ≡ s.tx
      tx_of q = ap (λ x. elim x [ ok t ↦ t.tx | err e ↦ [] | fault ↦ [] ]) q

  spend_signer :
      (w : Wallet) (account : ℕ) (preset : DerivePreset) (key : SpendKey Hd) (signer : Bytes)
      → All (λ im. length im.key ≡ 32) w.imported
      → is_btc (preset_family preset) ≡ true
      → spend_key c w account preset ≡ ok key
      → btc_preset_address c preset (spend_public c key) ≡ ok signer
      → account_address c w account preset ≡ ok signer
  unfolding spend_key
  spend_signer w account preset key signer sizes e k a = elim (Bool-cases (is_empty w.entropy)) [
    | inl bare ↦
        account_address-import c w account preset bare ∙ imports w.imported sizes (rw bare at k)
    | inr seed ↦
        account_address-seed c w account preset seed
        ∙ seed_spend w.entropy account preset key e (rw seed at k)
        ∙ a
  ]
    where
      imports :
          (ims : List Imported)
          → All (λ im. length im.key ≡ 32) ims
          → single_key ims account (import_spend_key c) ≡ ok key
          → single_key ims account (import_address c preset) ≡ ok signer
      imports [] h q = cc
      imports (im ∷ ims) h q = ground (arith, import_spend im preset key h.0 e)

  -- A Bitcoin transaction names as its signer the address that the wallet shows for the account, if
  -- the imported keys have their 32 bytes.
  pub sign_btc_payload-signer :
      (aux : ℕ → Bytes) (w : Wallet) (payload : Bytes) (account : ℕ) (preset : DerivePreset)
      (s : BtcSignedTx)
      → All (λ im. length im.key ≡ 32) w.imported
      → sign_btc_payload c aux w payload account preset ≡ ok s
      → account_address c w account preset ≡ ok s.signer
  sign_btc_payload-signer aux w payload account preset s sizes h =
      let (
        plan, key, signer, fee, witnesses, e, read, k, a, judged, signed, same, paid, assembled,
      ) =
        sign_btc_payload-inv aux w payload account preset s h in
      spend_signer w account preset key signer sizes e k a ∙ ap ok (sym same)

  import_spend-curve :
      (ims : List Imported) (account : ℕ) (key : SpendKey Hd)
      → single_key ims account (import_spend_key c) ≡ ok key
      → first_is_ed25519 ims ≡ false
  unfolding import_spend_key first_is_ed25519
  import_spend-curve [] account key h = cc
  import_spend-curve (im ∷ ims) account key h = ground arith

  -- An imported key that signs a Bitcoin transaction is no ed25519 key.
  pub sign_btc_payload-curve :
      (aux : ℕ → Bytes) (w : Wallet) (payload : Bytes) (account : ℕ) (preset : DerivePreset)
      (s : BtcSignedTx)
      → is_empty w.entropy ≡ true
      → sign_btc_payload c aux w payload account preset ≡ ok s
      → holds_ed25519 w ≡ false
  unfolding spend_key holds_ed25519
  sign_btc_payload-curve aux w payload account preset s bare h =
      let (
        plan, key, signer, fee, witnesses, e, read, k, a, judged, signed, same, paid, assembled,
      ) =
        sign_btc_payload-inv aux w payload account preset s h in
      import_spend-curve w.imported account key (rw bare at k)
