-- ===== src/Wallet/Presets/Families.antt =====
-- The preset of a family is a preset of that family, and what a wallet that was read offers.
use izan_wallet.Base.{
  ℕ, ◌≡◌, ◌≤◌, ◌<◌, refl, ◌==◌, ltb, leb, true, false, not, ◌&&◌, ◌||◌, if◌then◌else◌, ◌⊎◌, inl,
  inr, Bool-cases, ==→eq, Option, arith,
}
use izan_wallet.Base.Bytes.{Bytes, text, beq}
use izan_wallet.Keyd.Presets.{
  DerivePreset, preset_of, preset_byte, derive_preset_count, ChainFamily, preset_family,
}
use izan_wallet.Wallet.Meta.{
  AccountsMeta, parsed_meta, settle_watch, settle_count, settle_active, settle_preset, settle_btc,
  read_meta,
}
use izan_wallet.Wallet.Presets.{family_key, family_preset}

-- What every page relies on.
pub record WellFormed (m : AccountsMeta) : Type 0 where
  pub has_account : 1 ≤ m.count
  pub active_there : m.active < m.count
  pub preset_known : m.preset < derive_preset_count
  pub btc_preset_btc : (m.btc_preset ≡ 0) ⊎ ((3 ≤ m.btc_preset) × (m.btc_preset ≤ 6))

settle_count_positive : (m : AccountsMeta) → 1 ≤ (settle_count m).count
unfolding settle_count
settle_count_positive m = elim (Bool-cases (m.count == 0)) [
  | inl none_there ↦ rw none_there (omega arith)
  | inr there ↦ rw there (ground (arith, there))
]

settle_active_below :
    (m : AccountsMeta)
    → 1 ≤ m.count
    → ((settle_active m).count ≡ m.count) × ((settle_active m).active < m.count)
unfolding settle_active
settle_active_below m h = elim (Bool-cases (leb m.count m.active)) [
  | inl above ↦ rw above (refl, omega arith)
  | inr below ↦ rw below (refl, ground (arith, below))
]

settle_preset-kept :
    (m : AccountsMeta)
    → ((settle_preset m).count ≡ m.count)
      × ((settle_preset m).active ≡ m.active)
      × ((settle_preset m).preset < derive_preset_count)
unfolding settle_preset
settle_preset-kept m = elim (Bool-cases (leb derive_preset_count m.preset)) [
  | inl above ↦ rw above (refl, refl, omega arith)
  | inr below ↦ rw below (refl, refl, ground (arith, below))
]

settle_btc-WellFormed :
    (m : AccountsMeta)
    → 1 ≤ m.count
    → m.active < m.count
    → m.preset < derive_preset_count
    → WellFormed (settle_btc m)
unfolding settle_btc preset_byte
settle_btc-WellFormed m c a p = elim (Bool-cases (ltb m.btc_preset 3 || ltb 6 m.btc_preset)) [
  | inl bad ↦
      rw bad
        (record { has_account = c; active_there = a; preset_known = p; btc_preset_btc = inl refl })
  | inr good ↦ rw good (record {
    has_account = c;
    active_there = a;
    preset_known = p;
    btc_preset_btc = inr (ground (arith, good), ground (arith, good));
  })
]

-- Whatever stands in a sidecar, and also when there is none, the metadata that is read of it has at
-- least one account, an active account that exists, a known derivation preset, and a Bitcoin format
-- that is unset or one of the four Bitcoin presets.
pub read_meta-WellFormed :
    (parse : Bytes → Option AccountsMeta) (sidecar : Option Bytes)
    → WellFormed (read_meta parse sidecar)
unfolding read_meta
read_meta-WellFormed parse sidecar =
    let m = settle_count (settle_watch (parsed_meta parse sidecar)) in
    let c = settle_count_positive (settle_watch (parsed_meta parse sidecar)) in
    let (same, below) = settle_active_below m c in
    let (same', at, known) = settle_preset-kept (settle_active m) in
    settle_btc-WellFormed (settle_preset (settle_active m)) (omega (arith, c, same, same'))
      (omega (arith, same, same', at, below)) known

btc_preset-family : (b : ℕ) → 3 ≤ b → b ≤ 6 → preset_family (preset_of b) ≡ ChainFamily.btc
unfolding preset_family preset_of
btc_preset-family b low high = elim (Bool-cases (b == 3)) [
  | inl three ↦ rw (==→eq b 3 three)
  | inr no3 ↦ elim (Bool-cases (b == 4)) [
    | inl four ↦ rw (==→eq b 4 four)
    | inr no4 ↦ elim (Bool-cases (b == 5)) [
      | inl five ↦ rw (==→eq b 5 five)
      | inr no5 ↦ let six : b ≡ 6 = ground (arith, low, high, no3, no4, no5) in rw six
    ]
  ]
]

family_key-injective : (f g : ChainFamily) → beq (family_key f) (family_key g) ≡ true → g ≡ f
unfolding beq text
family_key-injective ChainFamily.eth ChainFamily.eth h = refl
family_key-injective ChainFamily.eth ChainFamily.btc h = cc
family_key-injective ChainFamily.eth ChainFamily.sol h = cc
family_key-injective ChainFamily.btc ChainFamily.eth h = cc
family_key-injective ChainFamily.btc ChainFamily.btc h = refl
family_key-injective ChainFamily.btc ChainFamily.sol h = cc
family_key-injective ChainFamily.sol ChainFamily.eth h = cc
family_key-injective ChainFamily.sol ChainFamily.btc h = cc
family_key-injective ChainFamily.sol ChainFamily.sol h = refl

-- The defaults at the end.
default_family :
    (f : ChainFamily)
    → preset_family (
        if beq (family_key f) (text "btc")
        then DerivePreset.btc_segwit
        else if beq (family_key f) (text "sol")
        then DerivePreset.sol_phantom
        else DerivePreset.meta_mask)
      ≡ f
unfolding preset_family beq text
default_family ChainFamily.eth = refl
default_family ChainFamily.btc = refl
default_family ChainFamily.sol = refl

-- Behind the wallet's own Bitcoin format.
family_preset-born :
    (m : AccountsMeta) (f : ChainFamily)
    → (beq (family_key f) (text "btc") && not (m.btc_preset == 0)) ≡ false
    → preset_family (family_preset m (family_key f)) ≡ f
unfolding family_preset
family_preset-born m f h =
    elim (Bool-cases (beq (family_key f) (family_key (preset_family (preset_of m.preset))))) [
      | inl born ↦ rw (h, born) (family_key-injective f (preset_family (preset_of m.preset)) born)
      | inr other ↦ rw (h, other) (default_family f)
    ]

family_preset-WellFormed :
    (m : AccountsMeta) (f : ChainFamily)
    → WellFormed m
    → preset_family (family_preset m (family_key f)) ≡ f
unfolding family_preset beq text
family_preset-WellFormed m ChainFamily.eth w = family_preset-born m ChainFamily.eth refl
family_preset-WellFormed m ChainFamily.sol w = family_preset-born m ChainFamily.sol refl
family_preset-WellFormed m ChainFamily.btc w = elim (Bool-cases (m.btc_preset == 0)) [
  | inl unset ↦ family_preset-born m ChainFamily.btc (rw unset)
  | inr chosen ↦ rw chosen (own w.btc_preset_btc chosen)
]
  where
    own :
        ((m.btc_preset ≡ 0) ⊎ ((3 ≤ m.btc_preset) × (m.btc_preset ≤ 6)))
        → (m.btc_preset == 0) ≡ false
        → preset_family (preset_of m.btc_preset) ≡ ChainFamily.btc
    own (inl unset) h = absurd (ground (arith, unset, h))
    own (inr (low, high)) h = btc_preset-family m.btc_preset low high

-- Under the metadata that read_meta makes of a sidecar, whatever the sidecar holds and also when
-- there is none, family_preset answers the key of a chain family with a preset of that family.
pub family_preset-preset_family :
    (parse : Bytes → Option AccountsMeta) (sidecar : Option Bytes) (f : ChainFamily)
    → preset_family (family_preset (read_meta parse sidecar) (family_key f)) ≡ f
family_preset-preset_family parse sidecar f =
    family_preset-WellFormed (read_meta parse sidecar) f (read_meta-WellFormed parse sidecar)
