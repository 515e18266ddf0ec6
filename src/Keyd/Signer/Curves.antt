-- ===== src/Keyd/Signer/Curves.antt =====
-- An imported key signs on its own curve only.
use izan_wallet.Base.{ℕ, ◌≡◌, true, false, List, [], ◌∷◌, ok, arith}
use izan_wallet.Base.Bytes.{Bytes}
use izan_wallet.Vault.Payload.{Imported, Wallet}
use izan_wallet.Keyd.Presets.{DerivePreset}
use izan_wallet.Keyd.Crypto.{Crypto}
use izan_wallet.Keyd.Signer.{
  is_empty, first_is_ed25519, holds_ed25519, single_key, SignedDigest, SolSignedMessage,
  sign_with_import, sign_payload, sol_import_key, sign_sol_payload,
}
use izan_wallet.Keyd.Signer.Identity.{signing_key}
use izan_wallet.Keyd.Signer.Btc.{BtcSignedTx, sign_btc_payload}
use izan_wallet.Keyd.Signer.Btc.Account.{sign_btc_payload-curve}

module _ {Hd : Type 0} (c : Crypto Hd) where
  evm_import :
      (ims : List Imported) (digest : Bytes) (account : ℕ) (s : SignedDigest)
      → single_key ims account (sign_with_import c digest) ≡ ok s
      → first_is_ed25519 ims ≡ false
  unfolding sign_with_import first_is_ed25519
  evm_import [] digest account s h = cc
  evm_import (im ∷ ims) digest account s h = ground arith

  sol_import :
      (ims : List Imported) (account : ℕ) (key : Bytes)
      → single_key ims account (sol_import_key c) ≡ ok key
      → first_is_ed25519 ims ≡ true
  unfolding sol_import_key first_is_ed25519
  sol_import [] account key h = cc
  sol_import (im ∷ ims) account key h = ground arith

  evm_curve :
      (w : Wallet) (bytes : Bytes) (account : ℕ) (preset : DerivePreset) (s : SignedDigest)
      → is_empty w.entropy ≡ true
      → sign_payload c w bytes account preset ≡ ok s
      → holds_ed25519 w ≡ false
  unfolding sign_payload holds_ed25519
  evm_curve w bytes account preset s bare h =
      evm_import w.imported (c.keccak_256 bytes) account s (ground arith)

  sol_curve :
      (w : Wallet) (bytes : Bytes) (account : ℕ) (preset : DerivePreset) (s : SolSignedMessage)
      → is_empty w.entropy ≡ true
      → sign_sol_payload c w bytes account preset ≡ ok s
      → holds_ed25519 w ≡ true
  unfolding holds_ed25519
  sol_curve w bytes account preset s bare h =
      let (key, chosen, same) = signing_key c w bytes account preset s h in
      sol_import w.imported account key (rw bare at chosen)

  -- Of a wallet without a seed, a key labelled ed25519 signs neither EVM nor Bitcoin transactions
  -- under any preset, and any other key signs no Solana message.
  pub curves_apart :
      (w : Wallet) (bytes : Bytes) (account : ℕ) (preset : DerivePreset) (aux : ℕ → Bytes)
      → is_empty w.entropy ≡ true
      → ((s : SignedDigest)
          → sign_payload c w bytes account preset ≡ ok s
          → holds_ed25519 w ≡ false)
        × ((s : BtcSignedTx)
            → sign_btc_payload c aux w bytes account preset ≡ ok s
            → holds_ed25519 w ≡ false)
        × ((s : SolSignedMessage)
            → sign_sol_payload c w bytes account preset ≡ ok s
            → holds_ed25519 w ≡ true)
  curves_apart w bytes account preset aux bare = (
    λ s h. evm_curve w bytes account preset s bare h,
    λ s h. sign_btc_payload-curve c aux w bytes account preset s bare h,
    λ s h. sol_curve w bytes account preset s bare h,
  )
