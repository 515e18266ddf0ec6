-- ===== src/Wallet/Tests.antt =====
-- Sidecars that were edited by hand, and runs of the import form.
use izan_wallet.Base.{Option, none, List, false, ◌≡◌, refl, true, [], ◌∷◌, some, ok, inl}
use izan_wallet.Base.Bytes.{Bytes, text, beq}
use izan_wallet.Keyd.Presets.{DerivePreset, preset_byte, preset_family, ChainFamily}
use izan_wallet.Wallet.Meta.{
  AccountsMeta, new_meta, read_meta, settle_watch, settle_count, settle_active, settle_preset,
  settle_btc,
}
use izan_wallet.Wallet.Presets.{SecretKind, presets_for, default_preset, family_key, family_preset}
use izan_wallet.Wallet.Presets.Families.{family_preset-preset_family}
use izan_wallet.Net.{is_empty}
use izan_wallet.Wallet.Store.{
  WalletFiles, watch_files, watch_meta, WalletStore, ShredEnd, Removal, rescan, known, sort, insert,
  vaults, watches,
}
use izan_wallet.Wallet.Store.Deleted.{files_of, lingers}
use izan_wallet.Wallet.Import.{
  Secrets, ImportModel, new_import, offers, select, update, wallet_of, preview_all,
}
use izan_wallet.Wallet.Import.Selected.{types, picks, Selected, acts, acts-Selected}

-- No accounts, an unknown preset, and a Bitcoin format that is none.
abbrev edited : AccountsMeta
edited = record new_meta { count = 0; active = 7; preset = 200; btc_preset = 2 }

edited-read_meta : read_meta (λ sidecar. some edited) (some []) ≡ new_meta
unfolding read_meta settle_watch settle_count settle_active settle_preset settle_btc beq text
    preset_byte
edited-read_meta = refl

family_preset-preset_family_example :
    preset_family
      (family_preset (read_meta (λ sidecar. some edited) (some [])) (family_key ChainFamily.btc))
    ≡ ChainFamily.btc
family_preset-preset_family_example =
    family_preset-preset_family (λ sidecar. some edited) (some []) ChainFamily.btc

-- Every text is a Bitcoin key whose address is its preset.
abbrev toy_secrets : Secrets
toy_secrets = record {
  detect_secret = λ s. record { kind = SecretKind.wif; key = s };
  is_watch_kind = λ kind. false;
  mnemonic_to_entropy = λ s. ok s;
  eth_checksum_address = λ s. s;
  address = λ w i preset. ok (text "bc1");
  sign = λ w payload. ok [];
}

toy_watch_offers :
    (kind : SecretKind) → toy_secrets.is_watch_kind kind ≡ true → presets_for kind ≡ []
toy_watch_offers kind h = cc

abbrev filled : ImportModel
filled = record {
  kind = SecretKind.wif;
  previews = [] ∷ [] ∷ [] ∷ text "bc1" ∷ text "bc1" ∷ text "bc1" ∷ text "bc1" ∷ [] ∷ [];
  watch = [];
  selected = 6;
}

filled-acts :
    acts toy_secrets
      (types (text "L1") ∷ picks DerivePreset.btc_taproot ∷ picks DerivePreset.sol_phantom ∷ [])
      new_import
    ≡ ok filled
unfolding acts update select offers wallet_of preview_all preset_byte default_preset text
filled-acts = refl

acts-Selected_example : Selected filled
acts-Selected_example =
    acts-Selected toy_secrets toy_watch_offers
      (types (text "L1") ∷ picks DerivePreset.btc_taproot ∷ picks DerivePreset.sol_phantom ∷ [])
      new_import filled filled-acts (inl refl)

-- A vault and a watch wallet.
abbrev two_wallets : List WalletFiles
two_wallets =
    record { id = b'a' ∷ []; vault = some 5; sidecar = none; audit = true }
    ∷ watch_files (λ meta. []) (b'w' ∷ []) 7 (b'W' ∷ []) [] (text "btc")
    ∷ []

abbrev read_watch : Bytes → Option AccountsMeta
read_watch sidecar = some (watch_meta (b'W' ∷ []) [] (text "btc"))

abbrev listing : WalletStore
listing = record { dir = two_wallets; wallets = rescan read_watch two_wallets }

-- The sidecar of the watch wallet is held open by another program.
abbrev stuck : Removal
stuck = record {
  stat_fails = false;
  shred = ShredEnd.gone;
  removes_meta = false;
  removes_audit = true;
}

stuck-lingers : lingers read_watch stuck (files_of (b'w' ∷ []) two_wallets) ≡ true
unfolding read_meta settle_watch settle_count settle_active settle_preset settle_btc beq text
    preset_byte is_empty
stuck-lingers = refl

two-rescan : known (b'w' ∷ []) (rescan read_watch two_wallets) ≡ true
unfolding known rescan sort insert vaults watches read_meta settle_watch settle_count settle_active
    settle_preset settle_btc beq text preset_byte is_empty
two-rescan = refl
