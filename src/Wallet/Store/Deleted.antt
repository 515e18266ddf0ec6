-- ===== src/Wallet/Store/Deleted.antt =====
-- Which wallets are listed after `delete_wallet`, whatever the file system made of its calls.
use izan_wallet.Base.{
  ℕ, ◌≡◌, Bool, true, false, not, ◌&&◌, ◌||◌, List, [], ◌∷◌, if◌then◌else◌, Option, none, some,
  Result, ok, err, All,
}
use izan_wallet.Base.Bytes.{Bytes, text, beq}
use izan_wallet.Wallet.Meta.{AccountsMeta, read_meta}
use izan_wallet.Wallet.Store.{WalletFiles, ShredEnd, Removal}

-- No two records of a directory are of the same id.
abbrev pub Distinct : List WalletFiles → Type 0
Distinct [] = Unit {0}
Distinct (f ∷ fs) = All (λ g. beq g.id f.id ≡ false) fs × Distinct fs

abbrev pub files_of : Bytes → List WalletFiles → Option WalletFiles
files_of id [] = none
files_of id (f ∷ fs) = if beq f.id id then some f else files_of id fs

abbrev pub has_vault : Option ℕ → Bool
has_vault none = false
has_vault (some born) = true

abbrev pub is_kept : ShredEnd → Bool
is_kept ShredEnd.gone = false
is_kept ShredEnd.kept = true
is_kept (ShredEnd.threw now what) = false

abbrev pub failed : Result (Unit {0}) → Bool
failed (ok u) = false
failed (err what) = true
failed Result.fault = true

module _ (parse : Bytes → Option AccountsMeta) where
  abbrev pub watch_sidecar : Option (Bytes × ℕ) → Bool
  watch_sidecar none = false
  watch_sidecar (some (s, born)) = beq (read_meta parse (some s)).kind (text "watch")

  -- What is still listed of the files of a deleted wallet: a vault that shred left, or the sidecar of
  -- a watch wallet that could not be removed.
  abbrev pub lingers : Removal → Option WalletFiles → Bool
  lingers rm none = false
  lingers rm (some f) =
      (has_vault f.vault && is_kept rm.shred) || (not rm.removes_meta && watch_sidecar f.sidecar)

  listed : Option ℕ → Option (Bytes × ℕ) → Bool
  listed vault sidecar = has_vault vault || watch_sidecar sidecar

  any_listed : Bytes → List WalletFiles → Bool
  any_listed j [] = false
  any_listed j (f ∷ fs) = (beq f.id j && listed f.vault f.sidecar) || any_listed j fs
