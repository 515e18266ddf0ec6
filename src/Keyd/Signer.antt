-- ===== src/Keyd/Signer.antt =====
-- keyd/signer.cpp: which key of a wallet an account is, and the EVM and Solana signatures.
pub mod Toy
pub mod Der
pub mod Btc
pub mod Identity
pub mod Curves
use izan_wallet.Base.{
  ℕ, Bool, true, false, not, ◌&&◌, List, [], ◌∷◌, ◌==◌, if◌then◌else◌, length, Option, none, some,
  Result, ok, err, fault, ◌>>=◌, ◌>>◌, throw_if,
}
use izan_wallet.Base.Bytes.{Bytes, text, beq}
use izan_wallet.Vault.Payload.{Imported, Wallet}
use izan_wallet.Keyd.Protocol.{RevealKind}
use izan_wallet.Keyd.Presets.{
  DerivePreset, ChainFamily, preset_family, is_eth, is_btc, is_sol, derive_path,
}
use izan_wallet.Keyd.Crypto.{EcdsaSignature, SolKey, Crypto}

abbrev pub is_empty : Bytes → Bool
is_empty [] = true
is_empty (b ∷ bs) = false

-- kEd25519KeyLabel
pub ed25519_key_label : Bytes
ed25519_key_label = text "ed25519"

pub labelled_ed25519 : Imported → Bool
labelled_ed25519 im = beq im.label ed25519_key_label

pub first_is_ed25519 : List Imported → Bool
first_is_ed25519 [] = false
first_is_ed25519 (im ∷ ims) = labelled_ed25519 im

pub holds_ed25519 : Wallet → Bool
holds_ed25519 w = first_is_ed25519 w.imported

-- `wallet_reveal_kind`
pub wallet_reveal_kind : Wallet → RevealKind
wallet_reveal_kind w =
    if not (is_empty w.entropy)
    then RevealKind.seed_entropy
    else if holds_ed25519 w
    then RevealKind.ed25519_key
    else RevealKind.private_key

abbrev pub or_throw {ℓ} : {A : Type ℓ} → Option A → Bytes → Result A
or_throw none e = err e
or_throw (some a) e = ok a

pub record SignedDigest : Type 0 where
  pub sig : EcdsaSignature
  pub digest : Bytes
  pub signer : Bytes

pub record SolSignedMessage : Type 0 where
  pub sig : Bytes
  pub digest : Bytes
  pub signer : Bytes

-- An account of a key-only wallet: its first key, if there is one. `f` is what is done with it.
abbrev pub single_key {ℓ} : {A : Type ℓ} → List Imported → ℕ → (Imported → Result A) → Result A
single_key [] account f = err (text "signer: wallet holds no signing key")
single_key (im ∷ ims) account f = do
  throw_if (not (account == 0)) (text "signer: a key wallet has a single address")
  f im

module _ {Hd : Type 0} (c : Crypto Hd) where
  pub entropy_seed : Bytes → Result Bytes
  entropy_seed entropy = do
    mnemonic ← c.entropy_to_mnemonic entropy
    ok (c.mnemonic_to_seed mnemonic)

  pub account_key : Bytes → ℕ → DerivePreset → Result Hd
  account_key entropy account preset = do
    seed ← entropy_seed entropy
    root ← or_throw (c.hd_from_seed seed) (text "signer: seed rejected")
    or_throw (c.hd_derive root (derive_path preset account)) (text "signer: account underivable")

  pub sol_account_key : Bytes → ℕ → DerivePreset → Result SolKey
  sol_account_key entropy account preset = do
    seed ← entropy_seed entropy
    or_throw (c.sol_derive seed (derive_path preset account)) (text "signer: account underivable")

  pub sol_account_address : Bytes → ℕ → Result Bytes
  sol_account_address entropy account = do
    key ← sol_account_key entropy account DerivePreset.sol_phantom
    ok (c.sol_address key.public_key)

  pub btc_preset_address : DerivePreset → Bytes → Result Bytes
  btc_preset_address DerivePreset.btc_legacy public = ok (c.btc_p2pkh_address public)
  btc_preset_address DerivePreset.btc_nested_segwit public = ok (c.btc_p2sh_p2wpkh_address public)
  btc_preset_address DerivePreset.btc_segwit public = ok (c.btc_p2wpkh_address public)
  btc_preset_address DerivePreset.btc_taproot public = ok (c.btc_p2tr_address public)
  btc_preset_address _ public = err (text "signer: not a BTC preset")

  pub sign_with_raw : Bytes → Bytes → Result SignedDigest
  sign_with_raw key digest = do
    throw_if (not (length key == 32)) (text "signer: malformed imported key")
    sig ← or_throw (c.ecdsa_sign_digest key digest) (text "signer: signing failed")
    ok (record { sig = sig; digest = digest; signer = c.eth_address (c.ecdsa_public_key65 key) })

  -- The branch of a seed wallet in `sign_payload`.
  pub sign_with_seed : Bytes → Bytes → ℕ → DerivePreset → Result SignedDigest
  sign_with_seed entropy digest account preset = do
    key ← account_key entropy account preset
    sig ← or_throw (c.hd_sign_digest key digest) (text "signer: signing failed")
    ok (record {
      sig = sig;
      digest = digest;
      signer = c.eth_address (c.hd_public_uncompressed key);
    })

  -- The branch of an imported key.
  pub sign_with_import : Bytes → Imported → Result SignedDigest
  sign_with_import digest im = do
    throw_if (labelled_ed25519 im) (text "signer: an ed25519 key cannot sign EVM transactions")
    sign_with_raw im.key digest

  pub sign_payload : Wallet → Bytes → ℕ → DerivePreset → Result SignedDigest
  sign_payload w tx account preset = do
    throw_if (is_empty tx) (text "signer: empty payload")
    throw_if (not (is_eth (preset_family preset)))
        (text "signer: this chain family cannot sign transactions yet")
    let digest = c.keccak_256 tx
    if not (is_empty w.entropy)
        then sign_with_seed w.entropy digest account preset
        else single_key w.imported account (sign_with_import digest)

  pub sol_seed_key : Bytes → ℕ → DerivePreset → Result Bytes
  sol_seed_key entropy account preset = do
    derived ← sol_account_key entropy account preset
    ok derived.private_key

  pub sol_import_key : Imported → Result Bytes
  sol_import_key im = do
    throw_if (not (labelled_ed25519 im))
        (text "signer: a secp256k1 key cannot sign solana transactions")
    throw_if (not (length im.key == 32)) (text "signer: malformed imported key")
    ok im.key

  pub sign_sol_payload : Wallet → Bytes → ℕ → DerivePreset → Result SolSignedMessage
  sign_sol_payload w message account preset = do
    throw_if (not (is_sol (preset_family preset))) (text "signer: not a solana preset")
    throw_if (is_empty message) (text "signer: nothing to sign")
    key ←
        (if not (is_empty w.entropy)
          then sol_seed_key w.entropy account preset
          else single_key w.imported account sol_import_key)
    ok (record {
      sig = c.sol_sign key message;
      digest = c.sha256 message;
      signer = c.sol_key_address key;
    })

  -- The address of a seed wallet's account.
  pub seed_address : Bytes → ℕ → DerivePreset → Result Bytes
  seed_address entropy account preset =
      if is_sol (preset_family preset)
      then sol_account_address entropy account
      else account_key entropy account preset >>= λ key.
          if is_eth (preset_family preset)
          then ok (c.eth_address (c.hd_public_uncompressed key))
          else btc_preset_address preset (c.hd_public_compressed key)

  -- The address that an imported key wears under a preset.
  pub import_address : DerivePreset → Imported → Result Bytes
  import_address preset im = do
    throw_if (not (length im.key == 32)) (text "signer: malformed imported key")
    if labelled_ed25519 im
        then throw_if (not (is_sol (preset_family preset)))
            (text "signer: an ed25519 key has no EVM or BTC identity")
          >> ok (c.sol_key_address im.key)
        else throw_if (is_sol (preset_family preset))
            (text "signer: a secp256k1 key has no Solana identity")
          >> (if is_eth (preset_family preset)
              then ok (c.eth_address (c.ecdsa_public_key65 im.key))
              else btc_preset_address preset (c.ecdsa_public_key33 im.key))

  pub account_address : Wallet → ℕ → DerivePreset → Result Bytes
  account_address w account preset =
      if not (is_empty w.entropy)
      then seed_address w.entropy account preset
      else single_key w.imported account (import_address preset)
