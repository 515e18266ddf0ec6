-- ===== src/Wallet/Session/Books.antt =====
-- What the books hold.
use izan_wallet.Base.{
  ℕ, zero, suc, ◌+◌, ◌-◌, ◌≡◌, ◌≤◌, refl, ap, ◌∙◌, List, [], ◌∷◌, length, Option, none, some, inl,
  inr, Bool-cases, arith,
}
use izan_wallet.Base.Bytes.{Bytes, beq, beq_refl}
use izan_wallet.Wallet.Session.{
  Client, Book, KeydSession, put_book, family_lines, lines_from, after_first, refreshed,
  refresh_addresses, family_loop, family_refreshed, refresh_family, family_addresses,
}

family_lines-put_book :
    (family : Bytes) (ls : List Bytes) (bs : List Book)
    → family_lines family (put_book family ls bs) ≡ ls
unfolding family_lines put_book
family_lines-put_book family ls [] = rw (beq_refl family)
family_lines-put_book family ls (b ∷ bs) = elim (Bool-cases (beq b.family family)) [
  | inl same ↦ rw (same, beq_refl family)
  | inr other ↦ rw (other, other) (family_lines-put_book family ls bs)
]

module _ {C : Type 0} (k : Client C) where
  length-lines_from : (n i preset : ℕ) (c : C) → length (lines_from k n i preset c).1 ≡ n
  unfolding lines_from
  length-lines_from zero i preset c = refl
  length-lines_from (suc n) i preset c =
      ap suc (length-lines_from n (i + 1) preset (k.address c i preset).0)

  after_first-count :
      (count preset : ℕ) (s : KeydSession C) (r : C × Option Bytes)
      → 1 ≤ count
      → length (after_first k count preset s r).0.addresses ≡ (after_first k count preset s r).1
  after_first-count count preset s (c, none) h = refl
  after_first-count count preset s (c, some a) h = elim (Bool-cases (k.is_hd c)) [
    | inl hd ↦ rw hd (ap suc (length-lines_from (count - 1) 1 preset c) ∙ omega arith)
    | inr key ↦ rw key refl
  ]

  refreshed-count :
      (count preset : ℕ) (s : KeydSession C) (o : Option C)
      → 1 ≤ count
      → length (refreshed k count preset s o).0.addresses ≡ (refreshed k count preset s o).1
  refreshed-count count preset s none h = refl
  refreshed-count count preset s (some c) h =
      after_first-count count preset s (k.address c 0 preset) h

  -- The number that a refresh of the account line returns is the number of lines that it leaves, for
  -- at least one account.
  pub refresh_addresses-count :
      (count preset : ℕ) (s : KeydSession C)
      → 1 ≤ count
      → length (refresh_addresses k count preset s).0.addresses
        ≡ (refresh_addresses k count preset s).1
  unfolding refresh_addresses
  refresh_addresses-count count preset s h = refreshed-count count preset s s.client h

  family_loop-count :
      (count preset : ℕ) (c : C)
      → length (family_loop k count preset c).1 ≡ (family_loop k count preset c).2
  family_loop-count zero preset c = refl
  family_loop-count (suc n) preset c =
      let c' = (k.address c 0 preset).0 in
      elim (Bool-cases (k.is_hd c')) [
        | inl hd ↦ rw hd (ap suc (length-lines_from n 1 preset c'))
        | inr key ↦ rw key refl
      ]

  family_refreshed-count :
      (family : Bytes) (count preset : ℕ) (s : KeydSession C) (o : Option C)
      → length (family_lines family (family_refreshed k family count preset s o).0.family_book)
        ≡ (family_refreshed k family count preset s o).1
  family_refreshed-count family count preset s none =
      ap length (family_lines-put_book family [] s.family_book)
  family_refreshed-count family count preset s (some c) =
      ap length (family_lines-put_book family (family_loop k count preset c).1 s.family_book)
      ∙ family_loop-count count preset c

  -- The number that a refresh of a family returns is the number of lines that the book of that
  -- family then shows, whatever stood in it before.
  refresh_family-count :
      (family : Bytes) (count preset : ℕ) (s : KeydSession C)
      → length (family_addresses k family (refresh_family k family count preset s).0)
        ≡ (refresh_family k family count preset s).1
  unfolding refresh_family
  refresh_family-count family count preset s = family_refreshed-count family count preset s s.client
