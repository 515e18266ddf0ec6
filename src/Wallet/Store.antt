-- ===== src/Wallet/Store.antt =====
-- ui/wallet/store.cpp: the directory of wallets. A directory is the list of its wallets in the order
-- in which the file system lists them; `parse` is glaze's reader of sidecars.
pub mod Known
pub mod Deleted
use izan_wallet.Base.{
  ℕ, ◌+◌, ◌/◌, ◌%◌, ◌==◌, ltb, leb, Bool, true, false, not, ◌&&◌, ◌||◌, List, [], ◌∷◌, ◌++◌,
  if◌then◌else◌, length, take, Option, none, some, Result, ok, err,
}
use izan_wallet.Base.Bytes.{Bytes, text, beq}
use izan_wallet.Base.Hex.{to_hex}
use izan_wallet.Net.{is_empty}
use izan_wallet.Wallet.Meta.{AccountsMeta, new_meta, read_meta}

-- The files of one id: the vault, by its last write, the sidecar, by its text and its last write,
-- and whether there is a ledger.
pub record WalletFiles : Type 0 where
  pub id : Bytes
  pub vault : Option ℕ
  pub sidecar : Option (Bytes × ℕ)
  pub audit : Bool

pub record WalletEntry : Type 0 where
  pub id : Bytes
  pub name : Bytes
  pub kind : Bytes
  pub count : ℕ
  pub pinned : Bool
  pub born : ℕ

abbrev pub sidecar_text : Option (Bytes × ℕ) → Option Bytes
sidecar_text none = none
sidecar_text (some (s, born)) = some s

abbrev pub entry_of : Bytes → AccountsMeta → ℕ → WalletEntry
entry_of id meta born = record {
  id = id;
  name = if is_empty meta.name then id else meta.name;
  kind = meta.kind;
  count = meta.count;
  pinned = meta.pinned;
  born = born;
}

unfoldable pub before_text : Bytes → Bytes → Bool
before_text [] [] = false
before_text [] (b ∷ bs) = true
before_text (a ∷ as') [] = false
before_text (a ∷ as') (b ∷ bs) = let rest = before_text as' bs in if a == b then rest else ltb a b

-- Pinned first, then oldest first, then by name.
abbrev pub before : WalletEntry → WalletEntry → Bool
before a b =
    let by_age = if a.born == b.born then before_text a.name b.name else ltb a.born b.born in
    if a.pinned then (if b.pinned then by_age else true) else if b.pinned then false else by_age

-- std::sort; entries that are equal in that order may come out in another one.
unfoldable pub insert : WalletEntry → List WalletEntry → List WalletEntry
insert a [] = a ∷ []
insert a (b ∷ bs) = let rest = insert a bs in if before b a then b ∷ rest else a ∷ b ∷ bs

unfoldable pub sort : List WalletEntry → List WalletEntry
sort [] = []
sort (a ∷ as') = insert a (sort as')

module _ (parse : Bytes → Option AccountsMeta) where
  abbrev pub meta_of : WalletFiles → AccountsMeta
  meta_of f = read_meta parse (sidecar_text f.sidecar)

  abbrev vault_entry : WalletFiles → Option ℕ → List WalletEntry → List WalletEntry
  vault_entry f none rest = rest
  vault_entry f (some born) rest = entry_of f.id (meta_of f) born ∷ rest

  -- The first loop of `rescan`.
  unfoldable pub vaults : List WalletFiles → List WalletEntry
  vaults [] = []
  vaults (f ∷ fs) = vault_entry f f.vault (vaults fs)

  abbrev pub is_watch : AccountsMeta → Bool
  is_watch meta = beq meta.kind (text "watch")

  abbrev watch_entry :
      WalletFiles → Option ℕ → Option (Bytes × ℕ) → List WalletEntry → List WalletEntry
  watch_entry f (some vault) sidecar rest = rest
  watch_entry f none none rest = rest
  watch_entry f none (some (s, born)) rest =
      if is_watch (meta_of f) then entry_of f.id (meta_of f) born ∷ rest else rest

  -- The second loop.
  unfoldable pub watches : List WalletFiles → List WalletEntry
  watches [] = []
  watches (f ∷ fs) = watch_entry f f.vault f.sidecar (watches fs)

  unfoldable pub rescan : List WalletFiles → List WalletEntry
  rescan dir = sort (vaults dir ++ watches dir)

unfoldable pub known : Bytes → List WalletEntry → Bool
known id [] = false
known id (w ∷ ws) = beq w.id id || known id ws

abbrev pub first_id : List WalletEntry → Bytes
first_id [] = []
first_id (w ∷ ws) = w.id

abbrev pub has_control : Bytes → Bool
has_control [] = false
has_control (c ∷ cs) = ltb c 0x20 || has_control cs

unfoldable pub name_taken : Bytes → List WalletEntry → Bool
name_taken display [] = false
name_taken display (w ∷ ws) = beq w.name display || name_taken display ws

unfoldable pub valid_new_name : List WalletEntry → Bytes → Bool
valid_new_name ws display =
    if is_empty display || ltb 48 (length display)
    then false
    else if has_control display
    then false
    else not (name_taken display ws)

-- `salt` are the 8 random bytes.
abbrev pub mint_id : (Bytes → Bytes) → Bytes → Bytes → Bytes
mint_id sha256 salt display = to_hex (take 8 (sha256 (display ++ salt)))

-- How vault::shred of a vault that exists ends: the file is deleted; it is left as it is, since its
-- size cannot be read; or shred throws, with the file as last written then.
pub data ShredEnd : Type 0 where
  gone : ShredEnd
  kept : ShredEnd
  threw : ℕ → Bytes → ShredEnd

-- What the file system makes of the calls of `delete_wallet`: fs::exists throws, and fs::remove of the
-- sidecar and of the ledger delete the file or not, which the code does not look at.
pub record Removal : Type 0 where
  pub stat_fails : Bool
  pub shred : ShredEnd
  pub removes_meta : Bool
  pub removes_audit : Bool

abbrev pub shred_vault : ShredEnd → Option ℕ → Option ℕ × Result (Unit {0})
shred_vault e none = (none, ok tt)
shred_vault gone (some born) = (none, ok tt)
shred_vault kept (some born) = (some born, ok tt)
shred_vault (threw now what) (some born) = (some now, err what)

abbrev pub remove_rest : Removal → WalletFiles → Result (Unit {0}) → WalletFiles
remove_rest rm f (ok u) = record f {
  sidecar = if rm.removes_meta then none else f.sidecar;
  audit = if rm.removes_audit then false else f.audit;
}
remove_rest rm f (err what) = f
remove_rest rm f Result.fault = f

unfoldable pub delete_files : Removal → WalletFiles → WalletFiles × Result (Unit {0})
delete_files rm f =
    let (vault, r) = shred_vault rm.shred f.vault in
    (remove_rest rm (record f { vault = vault }) r, r)

-- The files of the id, if there are any.
unfoldable pub delete_in : Removal → Bytes → List WalletFiles → List WalletFiles × Result (Unit {0})
delete_in rm id [] = ([], ok tt)
delete_in rm id (f ∷ fs) =
    let rest = delete_in rm id fs in
    let here = delete_files rm f in
    if beq f.id id then (here.0 ∷ fs, here.1) else (f ∷ rest.0, rest.1)

-- The directory, and the list that the last `rescan` made of it.
pub record WalletStore : Type 0 where
  pub dir : List WalletFiles
  pub wallets : List WalletEntry

module _ (parse : Bytes → Option AccountsMeta) where
  abbrev pub rescan_after :
      List WalletEntry → List WalletFiles × Result (Unit {0}) → WalletStore × Result (Unit {0})
  rescan_after ws (dir, ok u) = (record { dir = dir; wallets = rescan parse dir }, ok tt)
  rescan_after ws (dir, err what) = (record { dir = dir; wallets = ws }, err what)
  rescan_after ws (dir, Result.fault) = (record { dir = dir; wallets = ws }, Result.fault)

  -- Whatever throws leaves the list of the store as it was.
  unfoldable pub delete_wallet : Removal → Bytes → WalletStore → WalletStore × Result (Unit {0})
  delete_wallet rm id st =
      let deleted = rescan_after st.wallets (delete_in rm id st.dir) in
      if rm.stat_fails then (st, err (text "exists")) else deleted

-- `print` is glaze's writer; the file is new at the end of the directory.
abbrev pub watch_meta : Bytes → Bytes → Bytes → AccountsMeta
watch_meta display address family = record new_meta {
  name = display;
  kind = text "watch";
  watch = address ∷ [];
  watch_family = family;
}

abbrev pub watch_files : (AccountsMeta → Bytes) → Bytes → ℕ → Bytes → Bytes → Bytes → WalletFiles
watch_files print id now display address family = record {
  id = id;
  vault = none;
  sidecar = some (print (watch_meta display address family), now);
  audit = false;
}

abbrev pub create_watch :
    (AccountsMeta → Bytes) → Bytes → ℕ → Bytes → Bytes → Bytes → List WalletFiles → List WalletFiles
create_watch print id now display address family dir =
    dir ++ watch_files print id now display address family ∷ []
