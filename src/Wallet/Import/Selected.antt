-- ===== src/Wallet/Import/Selected.antt =====
-- The preset that is selected is always one of those that are offered.
use izan_wallet.Base.{
  ◌≡◌, refl, true, false, List, [], ◌∷◌, ◌⊎◌, inl, inr, Bool-cases, Result, ok, err, fault, ◌>>=◌,
  >>=-eq-ok, ok-injective,
}
use izan_wallet.Base.Bytes.{Bytes}
use izan_wallet.Keyd.Presets.{DerivePreset, preset_byte}
use izan_wallet.Wallet.Presets.{SecretKind, presets_for, default_preset}
use izan_wallet.Wallet.Import.{
  Secrets, ImportModel, offers, select, reset, is_recognized, no_previews, with_previews, update,
  wallet_of, preview_all,
}

-- What a person does with the form.
pub data Act : Type 0 where
  types : Bytes → Act
  picks : DerivePreset → Act
  clears : Act

-- Nothing is offered, or the selected preset is offered.
abbrev pub Selected : ImportModel → Type 0
Selected m =
    (presets_for m.kind ≡ [])
    ⊎ ((p : DerivePreset) × (m.selected ≡ preset_byte p) × (offers p (presets_for m.kind) ≡ true))

default_preset-offers :
    (kind : SecretKind)
    → (presets_for kind ≡ []) ⊎ (offers (default_preset kind) (presets_for kind) ≡ true)
unfolding offers default_preset preset_byte
default_preset-offers SecretKind.mnemonic = inr refl
default_preset-offers SecretKind.raw_key = inr refl
default_preset-offers SecretKind.wif = inr refl
default_preset-offers SecretKind.sol_key = inr refl
default_preset-offers SecretKind.eth_address = inl refl
default_preset-offers SecretKind.btc_address = inl refl
default_preset-offers SecretKind.sol_address = inl refl
default_preset-offers SecretKind.unrecognized = inl refl

default-Selected : (m : ImportModel) → m.selected ≡ preset_byte (default_preset m.kind) → Selected m
default-Selected m e = elim (default_preset-offers m.kind) [
  | inl nothing ↦ inl nothing
  | inr there ↦ inr (default_preset m.kind, e, there)
]

select-Selected : (p : DerivePreset) (m : ImportModel) → Selected m → Selected (select p m)
unfolding select
select-Selected p m s = elim (Bool-cases (offers p (presets_for m.kind))) [
  | inl there ↦ rw there (inr (p, refl, there))
  | inr other ↦ rw other s
]

unrecognized_kind : (kind : SecretKind) → is_recognized kind ≡ false → presets_for kind ≡ []
unrecognized_kind SecretKind.unrecognized h = refl
unrecognized_kind SecretKind.mnemonic h = cc
unrecognized_kind SecretKind.raw_key h = cc
unrecognized_kind SecretKind.wif h = cc
unrecognized_kind SecretKind.sol_key h = cc
unrecognized_kind SecretKind.eth_address h = refl
unrecognized_kind SecretKind.btc_address h = refl
unrecognized_kind SecretKind.sol_address h = refl

module _ (c : Secrets) where
  abbrev pub act : Act → ImportModel → Result ImportModel
  act (types s) m = update c s m
  act (picks p) m = ok (select p m)
  act clears m = ok (reset m)

  unfoldable pub acts : List Act → ImportModel → Result ImportModel
  acts [] m = ok m
  acts (a ∷ as') m = act a m >>= acts as'

  with_previews-Selected :
      (m m' : ImportModel) (r : Result (List Bytes))
      → with_previews c m r ≡ ok m'
      → Selected m
      → Selected m'
  with_previews-Selected m m' (ok previews) h s = rw (← ok-injective h) s
  with_previews-Selected m m' (err what) h s = rw (← ok-injective h) (inl refl)
  with_previews-Selected m m' fault h s = cc

  module _
      (watch_offers : (kind : SecretKind)
        → c.is_watch_kind kind ≡ true
        → presets_for kind ≡ []) where
    update-Selected : (s : Bytes) (m m' : ImportModel) → update c s m ≡ ok m' → Selected m'
    unfolding update
    update-Selected s m m' h =
        let hit = c.detect_secret s in
        elim (Bool-cases (is_recognized hit.kind)) [
          | inr other ↦ rw (← ok-injective (rw other at h)) (inl (unrecognized_kind hit.kind other))
          | inl known ↦ elim (Bool-cases (c.is_watch_kind hit.kind)) [
            | inl watching ↦
                rw (← ok-injective (rw (known, watching) at h))
                  (inl (watch_offers hit.kind watching))
            | inr owning ↦
                let typed : ImportModel = record {
                  kind = hit.kind;
                  previews = no_previews;
                  watch = [];
                  selected = preset_byte (default_preset hit.kind);
                } in
                with_previews-Selected typed m'
                  (wallet_of c hit s >>= λ probe.
                    preview_all c probe (presets_for hit.kind) no_previews)
                  (rw (known, owning) at h) (default-Selected typed refl)
          ]
        ]

    act-Selected : (a : Act) (m m' : ImportModel) → act a m ≡ ok m' → Selected m → Selected m'
    act-Selected (types s) m m' h s0 = update-Selected s m m' h
    act-Selected (picks p) m m' h s0 = rw (← ok-injective h) (select-Selected p m s0)
    act-Selected clears m m' h s0 = rw (← ok-injective h) (inl refl)

    -- If the kinds of watched addresses have no presets, then from a form in which the selected
    -- preset is one of those that it offers, or in which it offers none, this stays so whatever is
    -- typed, picked and cleared.
    pub acts-Selected :
        (as' : List Act) (m m' : ImportModel) → acts as' m ≡ ok m' → Selected m → Selected m'
    unfolding acts
    acts-Selected [] m m' h s = rw (← ok-injective h) s
    acts-Selected (a ∷ as') m m' h s =
        let (next, here, later) = >>=-eq-ok (act a m) (acts as') h in
        acts-Selected as' next m' later (act-Selected a m next here s)
