-- ===== src/Keyd/Signer/Toy.antt =====
-- A `Crypto` of constant functions for the examples.
use izan_wallet.Base.{◌≡◌, refl, [], ◌∷◌, none, some, ok, replicate}
use izan_wallet.Base.Bytes.{text, beq}
use izan_wallet.Vault.Payload.{Wallet}
use izan_wallet.Keyd.Presets.{DerivePreset, preset_family, is_eth}
use izan_wallet.Keyd.Signer.{
  SignedDigest, labelled_ed25519, ed25519_key_label, sign_with_raw, sign_with_import, sign_payload,
}
use izan_wallet.Keyd.Crypto.{EcdsaSignature, SpendKind, TxPlan, Crypto}

abbrev pub toy_sig : EcdsaSignature
toy_sig = record { r = replicate 32 1; s = replicate 32 2; y_parity = 0 }

-- One input; an output to a stranger and one to the account whose script is 42.
abbrev pub toy_plan : TxPlan
toy_plan = record {
  inputs = record { outpoint = 7 ∷ []; value = 0 } ∷ [];
  outputs = record { script = 1 ∷ []; value = 300 } ∷ record { script = 42 ∷ []; value = 600 } ∷ [];
  spend = SpendKind.p2wpkh;
}

abbrev pub toy_crypto : Crypto (Unit {0})
toy_crypto = record {
  entropy_to_mnemonic = λ e. ok e;
  mnemonic_to_seed = λ m. m;
  hd_from_seed = λ s. none;
  hd_derive = λ k p. none;
  hd_sign_digest = λ k d. none;
  hd_sign_taproot = λ k d. none;
  hd_public_uncompressed = λ k. [];
  hd_public_compressed = λ k. [];
  ecdsa_sign_digest = λ k d. some toy_sig;
  ecdsa_public_key65 = λ k. k;
  ecdsa_public_key33 = λ k. k;
  bip341_tweak_seckey = λ k. k;
  bip340_sign = λ k d a. none;
  keccak_256 = λ m. replicate 32 3;
  sha256 = λ m. replicate 32 4;
  ripemd160 = λ m. replicate 20 5;
  eth_address = λ k. 41 ∷ [];
  btc_p2pkh_address = λ k. 42 ∷ [];
  btc_p2sh_p2wpkh_address = λ k. 42 ∷ [];
  btc_p2wpkh_address = λ k. 42 ∷ [];
  btc_p2tr_address = λ k. 42 ∷ [];
  sol_derive = λ s p. none;
  sol_address = λ k. 43 ∷ [];
  sol_key_address = λ k. 43 ∷ [];
  sol_sign = λ k m. replicate 64 6;
  parse_skeleton = λ s. ok toy_plan;
  encode_skeleton = λ p. [];
  sighash_p2tr = λ p i o. replicate 32 7;
  sighash_p2pkh = λ p i o. replicate 32 8;
  sighash_p2wpkh = λ p i o. replicate 32 9;
  assemble_tx = λ p ws. 1 ∷ [];
  txid_of_signed = λ p ws. replicate 32 10;
  script_for_address = λ a. a;
  address_for_script = λ s. s;
}

-- A wallet that holds one imported key.
abbrev pub key_wallet : Wallet
key_wallet = record {
  entropy = [];
  imported = record { label = b'k' ∷ []; key = replicate 32 9 } ∷ [];
}

abbrev pub evm_signed : SignedDigest
evm_signed = record { sig = toy_sig; digest = replicate 32 3; signer = 41 ∷ [] }

pub evm_signs : sign_payload toy_crypto key_wallet (2 ∷ []) 0 DerivePreset.meta_mask ≡ ok evm_signed
unfolding sign_payload sign_with_import sign_with_raw labelled_ed25519 ed25519_key_label
    preset_family is_eth text beq
evm_signs = refl
