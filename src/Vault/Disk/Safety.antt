-- ===== src/Vault/Disk/Safety.antt =====
-- A save never loses the old vault, and a shred overwrites every byte.
use izan_wallet.Base.{
  ℕ, zero, suc, ◌+◌, ◌-◌, ◌≤◌, ◌≡◌, ◌⊎◌, refl, false, List, [], ◌∷◌, length, none, some, ok, err,
  All, arith, length-append,
}
use izan_wallet.Base.Bytes.{Bytes}
use izan_wallet.Vault.Disk.{
  Disk, Weather, write_tmp, write_fails, remove_bak, rotate, rename_tmp, save_files, save_moments,
  noise_blocks, noise, ShredWeather, shred,
}

-- One of the two places holds the vault as it was, or the vault's own place holds the new one.
abbrev pub Kept : Bytes → Bytes → Disk → Type 0
Kept old blob d = ((d.dst ≡ some old) ⊎ (d.bak ≡ some old)) ⊎ (d.dst ≡ some blob)

-- When a vault is at its place before `save`: whatever the operating system refuses, and wherever a
-- crash falls between two calls, the old vault is at its place or at path.bak, or the new one is at
-- its place.
pub save_moments-Kept :
    (w : Weather) (old blob : Bytes) (d : Disk)
    → d.dst ≡ some old
    → All (Kept old blob) (save_moments w blob d)
unfolding save_moments write_tmp write_fails remove_bak rotate rename_tmp
save_moments-Kept w old blob d h = ground arith

-- When a vault is at its place before: a save that throws leaves the old vault at its place or at
-- path.bak, and a save that succeeds leaves the new one at its place and no path.tmp.
pub save_files-outcome :
    (w : Weather) (old blob : Bytes) (d : Disk)
    → d.dst ≡ some old
    → let (d', r) = save_files w blob d in
      ((r ≡ ok tt) × (d'.dst ≡ some blob) × (d'.tmp ≡ none))
      ⊎ ((e : Bytes) × (r ≡ err e) × ((d'.dst ≡ some old) ⊎ (d'.bak ≡ some old)))
unfolding save_files write_tmp write_fails remove_bak rotate rename_tmp
save_files-outcome w old blob d h = ground arith

-- The total of the block sizes.
abbrev total : List ℕ → ℕ
total [] = 0
total (n ∷ ns) = n + total ns

noise_blocks-total :
    (fuel left : ℕ)
    → left ≤ fuel
    → (total (noise_blocks fuel left) ≡ left) × All (λ n. n ≤ 4096) (noise_blocks fuel left)
unfolding noise_blocks
noise_blocks-total zero left h = (omega arith, tt)
noise_blocks-total (suc fuel) left h =
    ground (arith, noise_blocks-total fuel (left - left), noise_blocks-total fuel (left - 4096))

-- randombytes_buf fills the buffer that it is given.
abbrev pub Fills : (ℕ → ℕ → Bytes) → Type 0
Fills random = (i n : ℕ) → length (random i n) ≡ n

length-noise :
    (random : ℕ → ℕ → Bytes) (i : ℕ) (ns : List ℕ)
    → Fills random
    → length (noise random i ns) ≡ total ns
unfolding noise
length-noise random i [] h = refl
length-noise random i (n ∷ ns) h = omega (
  arith,
  length-append (random i n) (noise random (i + 1) ns),
  length-noise random (i + 1) ns h,
  h i n,
)

-- A shred that returns has deleted the file, or left it as it was since its size could not be read.
-- One that throws left it untouched, since it did not
-- open, or left noise of the same length in its place.
pub shred-outcome :
    (w : ShredWeather) (old : Bytes)
    → Fills w.random
    → ((shred w (some old)).1 ≡ ok tt)
        × (((shred w (some old)).0 ≡ none)
            ⊎ ((w.sized ≡ false) × ((shred w (some old)).0 ≡ some old)))
      ⊎ (w.opens ≡ false) × ((shred w (some old)).0 ≡ some old)
      ⊎ ((over : Bytes) × ((shred w (some old)).0 ≡ some over)
          × (over ≡ noise w.random 0 (noise_blocks (length old) (length old)))
          × (length over ≡ length old))
unfolding shred
shred-outcome w old h =
    let over = noise w.random 0 (noise_blocks (length old) (length old)) in
    let size : length over ≡ length old = omega (
      arith,
      length-noise w.random 0 (noise_blocks (length old) (length old)) h,
      (noise_blocks-total (length old) (length old) (omega arith)).0,
    ) in
    ground arith
