-- ===== src/Keyd/Crypto.antt =====
-- The cryptography that keyd/signer.cpp calls: core/crypto, domain/btc/btc_tx and trezor-crypto,
-- none of which is part of the repository's sources. `Crypto` is a parameter of the signer.
use izan_wallet.Base.{ℕ, ◌≡◌, List, Option, some, Result}
use izan_wallet.Base.Bytes.{Bytes}

pub record EcdsaSignature : Type 0 where
  pub r : Bytes
  pub s : Bytes
  pub y_parity : ℕ

pub record SolKey : Type 0 where
  pub private_key : Bytes
  pub public_key : Bytes

pub data SpendKind : Type 0 where
  p2wpkh p2pkh p2sh_p2wpkh p2tr : SpendKind

-- Of an input the signer knows the value; the rest of its fields is carried along.
pub record TxInput : Type 0 where
  pub outpoint : Bytes
  pub value : ℕ

pub record TxOutput : Type 0 where
  pub script : Bytes
  pub value : ℕ

pub record TxPlan : Type 0 where
  pub inputs : List TxInput
  pub outputs : List TxOutput
  pub spend : SpendKind

pub record Witness : Type 0 where
  pub signature_der : Bytes
  pub pubkey : Bytes

-- `Hd` is crypto::HdKey.
pub record Crypto (Hd : Type 0) : Type 0 where
  pub entropy_to_mnemonic : Bytes → Result Bytes
  pub mnemonic_to_seed : Bytes → Bytes
  pub hd_from_seed : Bytes → Option Hd
  pub hd_derive : Hd → Bytes → Option Hd
  pub hd_sign_digest : Hd → Bytes → Option EcdsaSignature
  pub hd_sign_taproot : Hd → Bytes → Option Bytes
  pub hd_public_uncompressed : Hd → Bytes
  pub hd_public_compressed : Hd → Bytes
  pub ecdsa_sign_digest : Bytes → Bytes → Option EcdsaSignature
  pub ecdsa_public_key65 : Bytes → Bytes
  pub ecdsa_public_key33 : Bytes → Bytes
  pub bip341_tweak_seckey : Bytes → Bytes
  pub bip340_sign : Bytes → Bytes → Bytes → Option Bytes
  pub keccak_256 : Bytes → Bytes
  pub sha256 : Bytes → Bytes
  pub ripemd160 : Bytes → Bytes
  pub eth_address : Bytes → Bytes
  pub btc_p2pkh_address : Bytes → Bytes
  pub btc_p2sh_p2wpkh_address : Bytes → Bytes
  pub btc_p2wpkh_address : Bytes → Bytes
  pub btc_p2tr_address : Bytes → Bytes
  pub sol_derive : Bytes → Bytes → Option SolKey
  pub sol_address : Bytes → Bytes
  pub sol_key_address : Bytes → Bytes
  pub sol_sign : Bytes → Bytes → Bytes
  pub parse_skeleton : Bytes → Result TxPlan
  pub encode_skeleton : TxPlan → Bytes
  pub sighash_p2tr : TxPlan → ℕ → Bytes → Bytes
  pub sighash_p2pkh : TxPlan → ℕ → Bytes → Bytes
  pub sighash_p2wpkh : TxPlan → ℕ → Bytes → Bytes
  pub assemble_tx : TxPlan → List Witness → Bytes
  pub txid_of_signed : TxPlan → List Witness → Bytes
  pub script_for_address : Bytes → Bytes
  pub address_for_script : Bytes → Bytes

-- A derived Solana key and its public half name one address.
abbrev pub SolKeysAgree : {Hd : Type 0} → Crypto Hd → Type 0
SolKeysAgree c =
    (seed path : Bytes) (k : SolKey)
    → c.sol_derive seed path ≡ some k
    → c.sol_key_address k.private_key ≡ c.sol_address k.public_key
