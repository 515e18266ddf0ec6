-- ===== src/Keyd/Presets.antt =====
-- keyd/signer.hpp and signer.cpp: the registry of derivation schemes, the chain family that each
-- one speaks for, and the path that it gives an account.
use izan_wallet.Base.{ℕ, ◌<◌, ◌≡◌, refl, Bool, true, false, ◌++◌, ◌==◌, if◌then◌else◌, arith}
use izan_wallet.Base.Bytes.{Bytes, text, to_string}

pub data DerivePreset : Type 0 where
  meta_mask ledger_live legacy_mew : DerivePreset
  btc_legacy btc_nested_segwit btc_segwit btc_taproot : DerivePreset
  sol_phantom : DerivePreset

abbrev pub derive_preset_count : ℕ
derive_preset_count = 8

-- `uint8_t(preset)`
unfoldable pub preset_byte : DerivePreset → ℕ
preset_byte DerivePreset.meta_mask = 0
preset_byte DerivePreset.ledger_live = 1
preset_byte DerivePreset.legacy_mew = 2
preset_byte DerivePreset.btc_legacy = 3
preset_byte DerivePreset.btc_nested_segwit = 4
preset_byte DerivePreset.btc_segwit = 5
preset_byte DerivePreset.btc_taproot = 6
preset_byte DerivePreset.sol_phantom = 7

-- `DerivePreset(byte)`. Every use stands behind a test that the byte is below the count.
unfoldable pub preset_of : ℕ → DerivePreset
preset_of b =
    if b == 0
    then DerivePreset.meta_mask
    else if b == 1
    then DerivePreset.ledger_live
    else if b == 2
    then DerivePreset.legacy_mew
    else if b == 3
    then DerivePreset.btc_legacy
    else if b == 4
    then DerivePreset.btc_nested_segwit
    else if b == 5
    then DerivePreset.btc_segwit
    else if b == 6
    then DerivePreset.btc_taproot
    else DerivePreset.sol_phantom

pub data ChainFamily : Type 0 where
  eth btc sol : ChainFamily

unfoldable pub preset_family : DerivePreset → ChainFamily
preset_family DerivePreset.meta_mask = ChainFamily.eth
preset_family DerivePreset.ledger_live = ChainFamily.eth
preset_family DerivePreset.legacy_mew = ChainFamily.eth
preset_family DerivePreset.btc_legacy = ChainFamily.btc
preset_family DerivePreset.btc_nested_segwit = ChainFamily.btc
preset_family DerivePreset.btc_segwit = ChainFamily.btc
preset_family DerivePreset.btc_taproot = ChainFamily.btc
preset_family DerivePreset.sol_phantom = ChainFamily.sol

unfoldable pub is_eth : ChainFamily → Bool
is_eth ChainFamily.eth = true
is_eth ChainFamily.btc = false
is_eth ChainFamily.sol = false

unfoldable pub is_btc : ChainFamily → Bool
is_btc ChainFamily.eth = false
is_btc ChainFamily.btc = true
is_btc ChainFamily.sol = false

unfoldable pub is_sol : ChainFamily → Bool
is_sol ChainFamily.eth = false
is_sol ChainFamily.btc = false
is_sol ChainFamily.sol = true

unfoldable pub derive_path : DerivePreset → ℕ → Bytes
derive_path DerivePreset.meta_mask i = text "m/44'/60'/0'/0/" ++ to_string i
derive_path DerivePreset.ledger_live i = text "m/44'/60'/" ++ (to_string i ++ text "'/0/0")
derive_path DerivePreset.legacy_mew i = text "m/44'/60'/0'/" ++ to_string i
derive_path DerivePreset.btc_legacy i = text "m/44'/0'/0'/0/" ++ to_string i
derive_path DerivePreset.btc_nested_segwit i = text "m/49'/0'/0'/0/" ++ to_string i
derive_path DerivePreset.btc_segwit i = text "m/84'/0'/0'/0/" ++ to_string i
derive_path DerivePreset.btc_taproot i = text "m/86'/0'/0'/0/" ++ to_string i
derive_path DerivePreset.sol_phantom i = text "m/44'/501'/" ++ (to_string i ++ text "'/0'")

pub preset_byte-lt : (p : DerivePreset) → preset_byte p < derive_preset_count
unfolding preset_byte
preset_byte-lt DerivePreset.meta_mask = omega arith
preset_byte-lt _ = omega arith

pub preset_of-preset_byte : (p : DerivePreset) → preset_of (preset_byte p) ≡ p
unfolding preset_of preset_byte
preset_of-preset_byte DerivePreset.meta_mask = refl
preset_of-preset_byte _ = refl

pub preset_byte-preset_of : (b : ℕ) → b < derive_preset_count → preset_byte (preset_of b) ≡ b
unfolding preset_of preset_byte
preset_byte-preset_of b h = ground arith
