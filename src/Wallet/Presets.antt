-- ===== src/Wallet/Presets.antt =====
-- ui/wallet/presets.cpp: which derivation presets fit which secret and which chain family.
pub mod Families
use izan_wallet.Base.{ℕ, ◌==◌, Bool, true, false, not, ◌&&◌, ◌||◌, List, [], ◌∷◌, if◌then◌else◌}
use izan_wallet.Base.Bytes.{Bytes, text, beq}
use izan_wallet.Keyd.Presets.{DerivePreset, preset_of, ChainFamily, preset_family}
use izan_wallet.Net.{is_empty}
use izan_wallet.Wallet.Meta.{AccountsMeta}

-- crypto::SecretKind
pub data SecretKind : Type 0 where
  mnemonic raw_key wif sol_key : SecretKind
  eth_address btc_address sol_address unrecognized : SecretKind

abbrev pub presets_for : SecretKind → List DerivePreset
presets_for SecretKind.mnemonic =
    DerivePreset.meta_mask ∷ DerivePreset.ledger_live ∷ DerivePreset.legacy_mew
    ∷ DerivePreset.btc_legacy ∷ DerivePreset.btc_nested_segwit ∷ DerivePreset.btc_segwit
    ∷ DerivePreset.btc_taproot ∷ DerivePreset.sol_phantom ∷ []
presets_for SecretKind.raw_key =
    DerivePreset.meta_mask ∷ DerivePreset.btc_legacy ∷ DerivePreset.btc_nested_segwit
    ∷ DerivePreset.btc_segwit ∷ DerivePreset.btc_taproot ∷ []
presets_for SecretKind.wif =
    DerivePreset.btc_legacy ∷ DerivePreset.btc_nested_segwit ∷ DerivePreset.btc_segwit
    ∷ DerivePreset.btc_taproot ∷ []
presets_for SecretKind.sol_key = DerivePreset.sol_phantom ∷ []
presets_for SecretKind.eth_address = []
presets_for SecretKind.btc_address = []
presets_for SecretKind.sol_address = []
presets_for SecretKind.unrecognized = []

abbrev front_or : DerivePreset → List DerivePreset → DerivePreset
front_or default [] = default
front_or default (p ∷ ps) = p

abbrev pub is_wif : SecretKind → Bool
is_wif SecretKind.wif = true
is_wif SecretKind.mnemonic = false
is_wif SecretKind.raw_key = false
is_wif SecretKind.sol_key = false
is_wif SecretKind.eth_address = false
is_wif SecretKind.btc_address = false
is_wif SecretKind.sol_address = false
is_wif SecretKind.unrecognized = false

unfoldable pub default_preset : SecretKind → DerivePreset
default_preset kind =
    if is_wif kind
    then DerivePreset.btc_segwit
    else front_or DerivePreset.meta_mask (presets_for kind)

abbrev pub family_key : ChainFamily → Bytes
family_key ChainFamily.btc = text "btc"
family_key ChainFamily.sol = text "sol"
family_key ChainFamily.eth = text "evm"

unfoldable pub wallet_families : AccountsMeta → List Bytes
wallet_families m =
    if beq m.kind (text "watch")
    then (if is_empty m.watch_family then text "evm" else m.watch_family) ∷ []
    else if beq m.kind (text "hd") || is_empty m.kind
    then text "evm" ∷ text "btc" ∷ text "sol" ∷ []
    else family_key (preset_family (preset_of m.preset)) ∷ []

unfoldable pub family_preset : AccountsMeta → Bytes → DerivePreset
family_preset m family =
    if beq family (text "btc") && not (m.btc_preset == 0)
    then preset_of m.btc_preset
    else if beq family (family_key (preset_family (preset_of m.preset)))
    then preset_of m.preset
    else if beq family (text "btc")
    then DerivePreset.btc_segwit
    else if beq family (text "sol")
    then DerivePreset.sol_phantom
    else DerivePreset.meta_mask
