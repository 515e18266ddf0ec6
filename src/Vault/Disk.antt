-- ===== src/Vault/Disk.antt =====
-- core/secure/vault.cpp: the writes of `save`, and `open`, `shred` and `change_password`, over the
-- three files of a vault path. What the operating system makes of each call is an argument.
pub mod Safety
pub mod Change
mod Tests
use izan_wallet.Base.{
  ℕ, zero, suc, ◌+◌, ◌-◌, Bool, true, false, not, List, [], ◌∷◌, ◌++◌, ◌==◌, ltb, if◌then◌else◌,
  length, take, Option, none, some, Result, ok, err, ◌>>=◌, ◌>>◌, throw_if,
}
use izan_wallet.Base.Bytes.{Bytes, text}
use izan_wallet.Vault.Payload.{Wallet}
use izan_wallet.Vault.File.{Sodium, KdfParams, Fresh, seal, unseal}

-- path, path.tmp and path.bak; `none` is a file that does not exist.
pub record Disk : Type 0 where
  pub dst : Option Bytes
  pub tmp : Option Bytes
  pub bak : Option Bytes

-- The stream on path.tmp does not open, takes some bytes only, or takes all.
pub data Write : Type 0 where
  no_open : Write
  short : ℕ → Write
  complete : Write

pub record Weather : Type 0 where
  pub write : Write
  pub removes : Bool
  pub rotates : Bool
  pub renames : Bool

abbrev pub exists : Option Bytes → Bool
exists none = false
exists (some b) = true

pub write_tmp : Write → Bytes → Disk → Disk
write_tmp no_open blob d = d
write_tmp (short n) blob d = record d { tmp = some (take n blob) }
write_tmp complete blob d = record d { tmp = some blob }

pub write_fails : Write → Option Bytes
write_fails no_open = some (text "cannot write ")
write_fails (short n) = some (text "write failed ")
write_fails complete = none

-- `fs::remove(bak, ec)`
pub remove_bak : Weather → Disk → Disk
remove_bak w d = if exists d.dst then if w.removes then record d { bak = none } else d else d

-- `fs::rename(dst, bak, ec)`
pub rotate : Weather → Disk → Disk
rotate w d =
    if exists d.dst then if w.rotates then record d { dst = none; bak = d.dst } else d else d

-- `fs::rename(tmp, dst)`, which throws.
pub rename_tmp : Weather → Disk → Disk
rename_tmp w d = if w.renames then record d { dst = d.tmp; tmp = none } else d

-- The error holds the fixed part of its text; the source appends the path.
pub save_files : Weather → Bytes → Disk → Disk × Result (Unit {0})
save_files w blob d =
    let d1 = write_tmp w.write blob d in
    let d3 = rotate w (remove_bak w d1) in
    elim (write_fails w.write) [
      | some e ↦ (d1, err e)
      | none ↦ (rename_tmp w d3, if w.renames then ok tt else err (text "rename"))
    ]

-- The disk after each call of `save`, for a crash between two of them.
pub save_moments : Weather → Bytes → Disk → List Disk
save_moments w blob d =
    let d1 = write_tmp w.write blob d in
    let d2 = remove_bak w d1 in
    let d3 = rotate w d2 in
    elim (write_fails w.write) [
      | some e ↦ d ∷ d1 ∷ []
      | none ↦ d ∷ d1 ∷ d2 ∷ d3 ∷ rename_tmp w d3 ∷ []
    ]

abbrev with_blob : Result Bytes → Weather → Disk → Disk × Result (Unit {0})
with_blob (ok blob) w d = save_files w blob d
with_blob (err e) w d = (d, err e)
with_blob Result.fault w d = (d, Result.fault)

pub save : Sodium → Fresh → Weather → Bytes → Wallet → KdfParams → Disk → Disk × Result (Unit {0})
save s fresh w passphrase wallet kdf d = with_blob (seal s fresh passphrase wallet kdf) w d

abbrev pub or_missing : Option Bytes → Result Bytes
or_missing none = err (text "cannot open ")
or_missing (some b) = ok b

-- `open`.
pub open_vault : Sodium → Bytes → Disk → Result Wallet
open_vault s passphrase d = do
  throw_if s.init_fails (text "sodium_init failed")
  blob ← or_missing d.dst
  unseal s blob passphrase

-- The sizes of the blocks of noise that `shred` writes, 4096 bytes at most each. `size` rounds are
-- enough.
pub noise_blocks : ℕ → ℕ → List ℕ
noise_blocks zero left = []
noise_blocks (suc fuel) left =
    let n = if ltb left 4096 then left else 4096 in
    let rest = noise_blocks fuel (left - n) in if left == 0 then [] else n ∷ rest

-- `random i n` is what the i-th call of randombytes_buf puts into n bytes.
pub noise : (ℕ → ℕ → Bytes) → ℕ → List ℕ → Bytes
noise random i [] = []
noise random i (n ∷ ns) = random i n ++ noise random (i + 1) ns

-- `sized`: fs::file_size succeeds on a file that exists.
pub record ShredWeather : Type 0 where
  pub sized : Bool
  pub opens : Bool
  pub flushes : Bool
  pub deletes : Bool
  pub random : ℕ → ℕ → Bytes

-- `shred`, on the contents of one file. It returns at once when fs::file_size fails, be it that there
-- is no file or that its size cannot be read.
pub shred : ShredWeather → Option Bytes → Option Bytes × Result (Unit {0})
shred w none = (none, ok tt)
shred w (some old) =
    let over = some (noise w.random 0 (noise_blocks (length old) (length old))) in
    if not w.sized
    then (some old, ok tt)
    else if w.opens
    then if w.flushes
      then if w.deletes then (none, ok tt) else (over, err (text "shred: cannot delete "))
      else (over, err (text "shred: overwrite failed "))
    else (some old, err (text "shred: cannot open "))

abbrev shred_bak : ShredWeather → Disk × Result (Unit {0}) → Disk × Result (Unit {0})
shred_bak w (d, ok u) = let (bak, r) = shred w d.bak in (record d { bak = bak }, r)
shred_bak w (d, err e) = (d, err e)
shred_bak w (d, Result.fault) = (d, Result.fault)

abbrev with_wallet :
    Result Wallet → (Wallet → Disk × Result (Unit {0})) → Disk → Disk × Result (Unit {0})
with_wallet (ok wallet) f d = f wallet
with_wallet (err e) f d = (d, err e)
with_wallet Result.fault f d = (d, Result.fault)

pub change_password :
    Sodium
    → Fresh
    → Weather
    → ShredWeather
    → Bytes
    → Bytes
    → KdfParams
    → Disk
    → Disk × Result (Unit {0})
change_password s fresh w sw old_pass new_pass kdf d =
    with_wallet (open_vault s old_pass d)
      (λ wallet. shred_bak sw (save s fresh w new_pass wallet kdf d)) d
