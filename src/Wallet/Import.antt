-- ===== src/Wallet/Import.antt =====
-- ui/wallet/import_model.cpp: the form that takes a secret. crypto::detect_secret, is_watch_kind,
-- mnemonic_to_entropy and eth_checksum_address are parameters; `address` and `sign` are
-- keyd::account_address and keyd::sign_payload.
pub mod Selected
use izan_wallet.Base.{
  ℕ, zero, suc, ◌==◌, Bool, true, false, not, ◌&&◌, ◌||◌, List, [], ◌∷◌, ◌++◌, if◌then◌else◌,
  replicate, Option, none, some, Result, ok, err, fault, ◌>>=◌, ◌>>◌,
}
use izan_wallet.Base.Bytes.{Bytes, text}
use izan_wallet.Vault.Payload.{Imported, Wallet}
use izan_wallet.Keyd.Presets.{DerivePreset, preset_byte, derive_preset_count, preset_family, is_sol}
use izan_wallet.Keyd.Signer.{ed25519_key_label}
use izan_wallet.Wallet.Presets.{SecretKind, presets_for, default_preset}

pub record DetectedSecret : Type 0 where
  pub kind : SecretKind
  pub key : Bytes

pub record Secrets : Type 0 where
  pub detect_secret : Bytes → DetectedSecret
  pub is_watch_kind : SecretKind → Bool
  pub mnemonic_to_entropy : Bytes → Result Bytes
  pub eth_checksum_address : Bytes → Bytes
  pub address : Wallet → ℕ → DerivePreset → Result Bytes
  pub sign : Wallet → Bytes → Result Bytes

pub record ImportModel : Type 0 where
  pub kind : SecretKind
  pub previews : List Bytes
  pub watch : Bytes
  pub selected : ℕ

abbrev pub no_previews : List Bytes
no_previews = replicate derive_preset_count []

abbrev pub is_space : ℕ → Bool
is_space c = (c == b' ') || ((c == b'\t') || ((c == b'\r') || (c == b'\n')))

unfoldable pub skip_spaces : Bytes → Bytes
skip_spaces [] = []
skip_spaces (c ∷ cs) = let rest = skip_spaces cs in if is_space c then rest else c ∷ cs

abbrev drop_space : ℕ → Bytes → Bytes
drop_space c [] = if is_space c then [] else c ∷ []
drop_space c (b ∷ bs) = c ∷ b ∷ bs

unfoldable pub cut_spaces : Bytes → Bytes
cut_spaces [] = []
cut_spaces (c ∷ cs) = drop_space c (cut_spaces cs)

abbrev pub trimmed : Bytes → Bytes
trimmed s = cut_spaces (skip_spaces s)

abbrev pub is_recognized : SecretKind → Bool
is_recognized SecretKind.unrecognized = false
is_recognized SecretKind.mnemonic = true
is_recognized SecretKind.raw_key = true
is_recognized SecretKind.wif = true
is_recognized SecretKind.sol_key = true
is_recognized SecretKind.eth_address = true
is_recognized SecretKind.btc_address = true
is_recognized SecretKind.sol_address = true

abbrev pub is_mnemonic : SecretKind → Bool
is_mnemonic SecretKind.mnemonic = true
is_mnemonic SecretKind.unrecognized = false
is_mnemonic SecretKind.raw_key = false
is_mnemonic SecretKind.wif = false
is_mnemonic SecretKind.sol_key = false
is_mnemonic SecretKind.eth_address = false
is_mnemonic SecretKind.btc_address = false
is_mnemonic SecretKind.sol_address = false

abbrev pub key_label : SecretKind → Bytes
key_label SecretKind.sol_key = ed25519_key_label
key_label SecretKind.mnemonic = text "imported"
key_label SecretKind.unrecognized = text "imported"
key_label SecretKind.raw_key = text "imported"
key_label SecretKind.wif = text "imported"
key_label SecretKind.eth_address = text "imported"
key_label SecretKind.btc_address = text "imported"
key_label SecretKind.sol_address = text "imported"

abbrev pub is_eth_address : SecretKind → Bool
is_eth_address SecretKind.eth_address = true
is_eth_address SecretKind.mnemonic = false
is_eth_address SecretKind.unrecognized = false
is_eth_address SecretKind.raw_key = false
is_eth_address SecretKind.wif = false
is_eth_address SecretKind.sol_key = false
is_eth_address SecretKind.btc_address = false
is_eth_address SecretKind.sol_address = false

abbrev set_at : ℕ → Bytes → List Bytes → List Bytes
set_at i s [] = []
set_at zero s (p ∷ ps) = s ∷ ps
set_at (suc i) s (p ∷ ps) = p ∷ set_at i s ps

abbrev pub new_import : ImportModel
new_import = record {
  kind = SecretKind.unrecognized;
  previews = no_previews;
  watch = [];
  selected = 0;
}

-- `for (p : offered()) if (p == preset)`
unfoldable pub offers : DerivePreset → List DerivePreset → Bool
offers preset [] = false
offers preset (p ∷ ps) = (preset_byte p == preset_byte preset) || offers preset ps

unfoldable pub select : DerivePreset → ImportModel → ImportModel
select preset m =
    if offers preset (presets_for m.kind) then record m { selected = preset_byte preset } else m

abbrev pub reset : ImportModel → ImportModel
reset m = new_import

module _ (c : Secrets) where
  unfoldable pub wallet_of : DetectedSecret → Bytes → Result Wallet
  wallet_of hit s =
      let seed = c.mnemonic_to_entropy (trimmed s) >>= λ entropy.
      ok (record { entropy = entropy; imported = [] }) in
      if is_mnemonic hit.kind
      then seed
      else ok (record {
        entropy = [];
        imported = record { label = key_label hit.kind; key = hit.key } ∷ [];
      })

  unfoldable pub preview_all : Wallet → List DerivePreset → List Bytes → Result (List Bytes)
  preview_all probe [] previews = ok previews
  preview_all probe (p ∷ ps) previews =
      c.address probe 0 p >>= λ a. preview_all probe ps (set_at (preset_byte p) a previews)

  abbrev pub with_previews : ImportModel → Result (List Bytes) → Result ImportModel
  with_previews m (ok previews) = ok (record m { previews = previews })
  with_previews m (err what) =
      ok (record m { kind = SecretKind.unrecognized; previews = no_previews })
  with_previews m fault = fault

  abbrev pub derive : DetectedSecret → Bytes → ImportModel → Result ImportModel
  derive hit s m =
      with_previews m
        (wallet_of hit s >>= λ probe. preview_all probe (presets_for hit.kind) no_previews)

  abbrev pub watched : SecretKind → Bytes → Bytes
  watched kind s = if is_eth_address kind then c.eth_checksum_address (trimmed s) else trimmed s

  unfoldable pub update : Bytes → ImportModel → Result ImportModel
  update s m =
      let hit = c.detect_secret s in
      let fresh : ImportModel = record {
        kind = hit.kind;
        previews = no_previews;
        watch = [];
        selected = m.selected;
      } in
      let derived =
        derive hit s (record fresh { selected = preset_byte (default_preset hit.kind) }) in
      if not (is_recognized hit.kind)
      then ok fresh
      else if c.is_watch_kind hit.kind
      then ok (record fresh { watch = watched hit.kind s })
      else derived

  unfoldable pub build : Bytes → Result (Option Wallet)
  build s =
      let hit = c.detect_secret s in
      let built = wallet_of hit s >>= λ w. ok (some w) in
      if not (is_recognized hit.kind) || c.is_watch_kind hit.kind then ok none else built

  unfoldable pub prove_wallet : Wallet → DerivePreset → Result (Unit {0})
  prove_wallet w preset = do
    first ← c.address w 0 preset
    if is_sol (preset_family preset) then ok tt else c.sign w (0x69 ∷ []) >>= λ signed. ok tt
