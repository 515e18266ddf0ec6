-- ===== src/Keyd/Signer/Identity.antt =====
-- The identity that signs is the one that `account_address` shows.
use izan_wallet.Base.{
  ℕ, ◌≡◌, refl, true, false, not, List, [], ◌∷◌, length, Result, ok, arith, Bool-cases, inl, inr,
  if◌then◌else◌, >>=-eq-ok, some,
}
use izan_wallet.Base.Bytes.{Bytes}
use izan_wallet.Vault.Payload.{Imported, Wallet}
use izan_wallet.Keyd.Presets.{
  DerivePreset, ChainFamily, preset_family, is_eth, is_btc, is_sol, derive_path,
}
use izan_wallet.Keyd.Crypto.{SolKey, Crypto, SolKeysAgree}
use izan_wallet.Keyd.Signer.{
  is_empty, SignedDigest, SolSignedMessage, labelled_ed25519, single_key, account_key,
  sol_account_key, sol_account_address, btc_preset_address, sign_with_raw, sign_with_seed,
  sign_with_import, sign_payload, sol_seed_key, sol_import_key, sign_sol_payload, seed_address,
  import_address, account_address, entropy_seed,
}

sol_preset : (p : DerivePreset) → is_sol (preset_family p) ≡ true → p ≡ DerivePreset.sol_phantom
unfolding is_sol preset_family
sol_preset DerivePreset.sol_phantom h = refl
sol_preset _ h = cc

eth-sol : (f : ChainFamily) → is_eth f ≡ true → is_sol f ≡ false
unfolding is_eth is_sol
eth-sol ChainFamily.eth h = refl
eth-sol _ h = cc

btc-others : (f : ChainFamily) → is_btc f ≡ true → (is_sol f ≡ false) × (is_eth f ≡ false)
unfolding is_btc is_eth is_sol
btc-others ChainFamily.btc h = (refl, refl)
btc-others _ h = cc

module _ {Hd : Type 0} (c : Crypto Hd) where
  seed_signer :
      (entropy digest : Bytes) (account : ℕ) (preset : DerivePreset) (s : SignedDigest)
      → is_eth (preset_family preset) ≡ true
      → sign_with_seed c entropy digest account preset ≡ ok s
      → seed_address c entropy account preset ≡ ok s.signer
  unfolding sign_with_seed seed_address
  seed_signer entropy digest account preset s e h = ground (arith, eth-sol (preset_family preset) e)

  import_signer :
      (digest : Bytes) (im : Imported) (preset : DerivePreset) (s : SignedDigest)
      → is_eth (preset_family preset) ≡ true
      → sign_with_import c digest im ≡ ok s
      → import_address c preset im ≡ ok s.signer
  unfolding sign_with_import sign_with_raw import_address
  import_signer digest im preset s e h = ground (arith, eth-sol (preset_family preset) e)

  pub single_key-map :
      {A : Type 0} (ims : List Imported) (account : ℕ) (f : Imported → Result A)
      (g : Imported → Result Bytes) (a : A) (b : Bytes)
      → ((im : Imported) → f im ≡ ok a → g im ≡ ok b)
      → single_key ims account f ≡ ok a
      → single_key ims account g ≡ ok b
  single_key-map [] account f g a b step h = cc
  single_key-map (im ∷ ims) account f g a b step h = ground (arith, step im)

  -- An EVM signature names as its signer the very address that the wallet shows for the account.
  pub sign_payload-signer :
      (w : Wallet) (tx : Bytes) (account : ℕ) (preset : DerivePreset) (s : SignedDigest)
      → sign_payload c w tx account preset ≡ ok s
      → account_address c w account preset ≡ ok s.signer
  unfolding sign_payload account_address
  sign_payload-signer w tx account preset s h =
      let e : is_eth (preset_family preset) ≡ true = ground arith in
      let digest = c.keccak_256 tx in
      ground (
        arith,
        seed_signer w.entropy digest account preset s e,
        single_key-map w.imported account (sign_with_import c digest) (import_address c preset) s
            s.signer (λ (im : Imported). import_signer digest im preset s e),
      )

  sol_key :
      (entropy : Bytes) (account : ℕ) (preset : DerivePreset) (key : Bytes)
      → sol_seed_key c entropy account preset ≡ ok key
      → (k : SolKey) × (sol_account_key c entropy account preset ≡ ok k) × (k.private_key ≡ key)
  unfolding sol_seed_key
  sol_key entropy account preset key h = ground arith

  derived_key :
      (entropy : Bytes) (account : ℕ) (preset : DerivePreset) (k : SolKey)
      → sol_account_key c entropy account preset ≡ ok k
      → (seed : Bytes) × (path : Bytes) × (c.sol_derive seed path ≡ some k)
  unfolding sol_account_key
  derived_key entropy account preset k h =
      let (seed, made, rest) = >>=-eq-ok (entropy_seed c entropy) _ h in
      (seed, derive_path preset account, ground arith)

  pub signing_key :
      (w : Wallet) (message : Bytes) (account : ℕ) (preset : DerivePreset) (s : SolSignedMessage)
      → sign_sol_payload c w message account preset ≡ ok s
      → (key : Bytes) × ((if not (is_empty w.entropy)
            then sol_seed_key c w.entropy account preset
            else single_key w.imported account (sol_import_key c))
          ≡ ok key)
        × (s.signer ≡ c.sol_key_address key)
  unfolding sign_sol_payload
  signing_key w message account preset s h = ground arith

  sol_seed_signer :
      (entropy : Bytes) (account : ℕ) (preset : DerivePreset) (key : Bytes)
      → SolKeysAgree c
      → is_sol (preset_family preset) ≡ true
      → sol_seed_key c entropy account preset ≡ ok key
      → seed_address c entropy account preset ≡ ok (c.sol_key_address key)
  unfolding sol_seed_key seed_address sol_account_address
  sol_seed_signer entropy account preset key agree e h =
      let (k, found, same) = sol_key entropy account preset key h in
      let (seed, path, made) = derived_key entropy account preset k found in
      ground (arith, sol_preset preset e, found, agree seed path k made)

  sol_import_signer :
      (im : Imported) (preset : DerivePreset) (key : Bytes)
      → is_sol (preset_family preset) ≡ true
      → sol_import_key c im ≡ ok key
      → import_address c preset im ≡ ok (c.sol_key_address key)
  unfolding sol_import_key import_address
  sol_import_signer im preset key e h = ground arith

  -- So does a Solana signature, if a derived key's two halves name one address.
  pub sign_sol_payload-signer :
      (w : Wallet) (message : Bytes) (account : ℕ) (preset : DerivePreset) (s : SolSignedMessage)
      → SolKeysAgree c
      → sign_sol_payload c w message account preset ≡ ok s
      → account_address c w account preset ≡ ok s.signer
  unfolding sign_sol_payload account_address
  sign_sol_payload-signer w message account preset s agree h =
      let e : is_sol (preset_family preset) ≡ true = ground arith in
      let (key, chosen, same) = signing_key w message account preset s h in
      rw same (elim (Bool-cases (is_empty w.entropy)) [
        | inl bare ↦ rw bare (
            single_key-map w.imported account (sol_import_key c) (import_address c preset) key
              (c.sol_key_address key) (λ im. sol_import_signer im preset key e) (rw bare at chosen))
        | inr seed ↦
            rw seed (sol_seed_signer w.entropy account preset key agree e (rw seed at chosen))
      ])

  -- What `account_address` shows under a Bitcoin preset.
  pub seed_address-btc :
      (entropy : Bytes) (account : ℕ) (preset : DerivePreset) (key : Hd)
      → is_btc (preset_family preset) ≡ true
      → account_key c entropy account preset ≡ ok key
      → seed_address c entropy account preset
        ≡ btc_preset_address c preset (c.hd_public_compressed key)
  unfolding seed_address
  seed_address-btc entropy account preset key e h =
      ground (arith, btc-others (preset_family preset) e)

  pub import_address-btc :
      (im : Imported) (preset : DerivePreset)
      → length im.key ≡ 32
      → is_btc (preset_family preset) ≡ true
      → labelled_ed25519 im ≡ false
      → import_address c preset im ≡ btc_preset_address c preset (c.ecdsa_public_key33 im.key)
  unfolding import_address
  import_address-btc im preset size e secp = ground (arith, btc-others (preset_family preset) e)

  pub account_address-seed :
      (w : Wallet) (account : ℕ) (preset : DerivePreset)
      → is_empty w.entropy ≡ false
      → account_address c w account preset ≡ seed_address c w.entropy account preset
  unfolding account_address
  account_address-seed w account preset e = rw e

  pub account_address-import :
      (w : Wallet) (account : ℕ) (preset : DerivePreset)
      → is_empty w.entropy ≡ true
      → account_address c w account preset ≡ single_key w.imported account (import_address c preset)
  unfolding account_address
  account_address-import w account preset e = rw e
