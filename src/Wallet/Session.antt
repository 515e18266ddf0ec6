-- ===== src/Wallet/Session.antt =====
-- ui/wallet/session.cpp: KeydSession, the signer of the active wallet with its address book. The
-- client is a parameter `C`; what it is asked may change it.
pub mod Books
use izan_wallet.Base.{
  ℕ, zero, suc, ◌+◌, ◌-◌, ◌==◌, ltb, Bool, true, false, not, List, [], ◌∷◌, ◌++◌, if◌then◌else◌,
  length, Option, none, some, Result, ok, err, fault,
}
use izan_wallet.Base.Bytes.{Bytes, beq}

-- `is_hd` is `wallet_kind() == RevealKind::SeedEntropy`.
pub record Client (C : Type 0) : Type 0 where
  pub spawn : Bytes → Result C
  pub address : C → ℕ → ℕ → C × Option Bytes
  pub last_error : C → Bytes
  pub is_hd : C → Bool

pub record Book : Type 0 where
  pub family : Bytes
  pub lines : List Bytes

pub record KeydSession (C : Type 0) : Type 0 where
  pub client : Option C
  pub addresses : List Bytes
  pub family_book : List Book
  pub unlocked : Bool

-- `m_family_book[family] = lines`
unfoldable pub put_book : Bytes → List Bytes → List Book → List Book
put_book family lines [] = record { family = family; lines = lines } ∷ []
put_book family lines (b ∷ bs) =
    let rest = put_book family lines bs in
    if beq b.family family then record { family = family; lines = lines } ∷ bs else b ∷ rest

unfoldable pub family_lines : Bytes → List Book → List Bytes
family_lines family [] = []
family_lines family (b ∷ bs) =
    let rest = family_lines family bs in if beq b.family family then b.lines else rest

module _ {C : Type 0} (k : Client C) where
  abbrev spawned : KeydSession C → Result C → Result (KeydSession C × Option Bytes)
  spawned s (ok c) = ok (record s { client = some c }, none)
  spawned s (err what) = ok (s, some what)
  spawned s fault = fault

  abbrev with_client : KeydSession C → Bytes → Option C → Result (KeydSession C × Option Bytes)
  with_client s vault_path (some c) = ok (s, none)
  with_client s vault_path none = spawned s (k.spawn vault_path)

  -- The error, if there is one.
  unfoldable pub ensure : Bytes → KeydSession C → Result (KeydSession C × Option Bytes)
  ensure vault_path s = with_client s vault_path s.client

  abbrev pub teardown : KeydSession C → KeydSession C
  teardown s = record { client = none; addresses = []; family_book = []; unlocked = false }

  unfoldable pub mark_unlocked : Bool → KeydSession C → KeydSession C
  mark_unlocked unlocked s =
      if unlocked
      then record s { unlocked = true }
      else record s { unlocked = false; addresses = []; family_book = [] }

  abbrev pub line : C → Option Bytes → Bytes
  line c (some a) = a
  line c none = k.last_error c

  -- The addresses from `i` on, `n` of them; one that fails stands as its error.
  unfoldable pub lines_from : ℕ → ℕ → ℕ → C → C × List Bytes
  lines_from zero i preset c = (c, [])
  lines_from (suc n) i preset c =
      let (c', a) = k.address c i preset in
      let (c'', rest) = lines_from n (i + 1) preset c' in (c'', line c' a ∷ rest)

  abbrev pub after_first : ℕ → ℕ → KeydSession C → C × Option Bytes → KeydSession C × ℕ
  after_first count preset s (c, none) =
      (record s { client = some c; addresses = k.last_error c ∷ [] }, 1)
  after_first count preset s (c, some a) =
      let (c', rest) = lines_from (count - 1) 1 preset c in
      if k.is_hd c
      then (record s { client = some c'; addresses = a ∷ rest }, count)
      else (record s { client = some c; addresses = a ∷ [] }, 1)

  abbrev refreshed : ℕ → ℕ → KeydSession C → Option C → KeydSession C × ℕ
  refreshed count preset s none = (record s { addresses = [] }, 0)
  refreshed count preset s (some c) = after_first count preset s (k.address c 0 preset)

  unfoldable pub refresh_addresses : ℕ → ℕ → KeydSession C → KeydSession C × ℕ
  refresh_addresses count preset s = refreshed count preset s s.client

  abbrev pushed : ℕ → ℕ → KeydSession C → Option C → KeydSession C
  pushed index preset s none = s
  pushed index preset s (some c) =
      let (c', a) = k.address c index preset in
      record s { client = some c'; addresses = s.addresses ++ line c' a ∷ [] }

  unfoldable pub push_address : ℕ → ℕ → KeydSession C → KeydSession C
  push_address index preset s = pushed index preset s s.client

  -- A key wallet ends the loop behind its first line.
  abbrev pub family_loop : ℕ → ℕ → C → C × List Bytes × ℕ
  family_loop zero preset c = (c, [], 0)
  family_loop (suc n) preset c =
      let (c', a) = k.address c 0 preset in
      let (c'', rest) = lines_from n 1 preset c' in
      if k.is_hd c' then (c'', line c' a ∷ rest, suc n) else (c', line c' a ∷ [], 1)

  abbrev family_refreshed : Bytes → ℕ → ℕ → KeydSession C → Option C → KeydSession C × ℕ
  family_refreshed family count preset s none =
      (record s { family_book = put_book family [] s.family_book }, 0)
  family_refreshed family count preset s (some c) =
      let (c', ls, n) = family_loop count preset c in
      (record s { client = some c'; family_book = put_book family ls s.family_book }, n)

  unfoldable pub refresh_family : Bytes → ℕ → ℕ → KeydSession C → KeydSession C × ℕ
  refresh_family family count preset s = family_refreshed family count preset s s.client

  abbrev pub family_addresses : Bytes → KeydSession C → List Bytes
  family_addresses family s = family_lines family s.family_book
