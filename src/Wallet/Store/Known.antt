-- ===== src/Wallet/Store/Known.antt =====
-- Which wallets are listed after a watch wallet was made.
use izan_wallet.Base.{
  ℕ, ◌≡◌, refl, sym, ap, ◌∙◌, Bool, true, ◌||◌, List, [], ◌∷◌, ◌++◌, Option, none, some, arith,
  Bool-cases, inl, inr,
}
use izan_wallet.Base.Bytes.{Bytes, text, beq}
use izan_wallet.Wallet.Meta.{
  AccountsMeta, read_meta, settle_watch, settle_count, settle_active, settle_preset, settle_btc,
}
use izan_wallet.Wallet.Store.{
  WalletFiles, WalletEntry, before, insert, sort, meta_of, vaults, is_watch, watch_entry, watches,
  rescan, known, watch_meta, watch_files, create_watch,
}

or_assoc : (a b c : Bool) → (a || (b || c)) ≡ ((a || b) || c)
or_assoc a b c = ground arith

known-append :
    (id : Bytes) (xs ys : List WalletEntry) → known id (xs ++ ys) ≡ (known id xs || known id ys)
unfolding known
known-append id [] ys = refl
known-append id (x ∷ xs) ys = ground (arith, known-append id xs ys)

known-insert :
    (id : Bytes) (a : WalletEntry) (ws : List WalletEntry)
    → known id (insert a ws) ≡ (beq a.id id || known id ws)
unfolding known insert
known-insert id a [] = refl
known-insert id a (b ∷ bs) = elim (Bool-cases (before b a)) [
  | inl first ↦ rw first (ground (arith, known-insert id a bs))
  | inr other ↦ rw other
]

known-sort : (id : Bytes) (ws : List WalletEntry) → known id (sort ws) ≡ known id ws
unfolding known sort
known-sort id [] = refl
known-sort id (a ∷ as') =
    known-insert id a (sort as') ∙ ap (λ b. beq a.id id || b) (known-sort id as')

module _ (parse : Bytes → Option AccountsMeta) where
  pub known-rescan :
      (id : Bytes) (dir : List WalletFiles)
      → known id (rescan parse dir) ≡ (known id (vaults parse dir) || known id (watches parse dir))
  unfolding rescan
  known-rescan id dir =
      known-sort id (vaults parse dir ++ watches parse dir)
      ∙ known-append id (vaults parse dir) (watches parse dir)

  vaults-snoc :
      (dir : List WalletFiles) (f : WalletFiles)
      → f.vault ≡ none
      → vaults parse (dir ++ f ∷ []) ≡ vaults parse dir
  unfolding vaults
  vaults-snoc [] f h = rw h refl
  vaults-snoc (g ∷ dir) f h = rw (vaults-snoc dir f h) refl

  watch_entry-append :
      (g : WalletFiles) (v : Option ℕ) (o : Option (Bytes × ℕ)) (xs ys : List WalletEntry)
      → watch_entry parse g v o (xs ++ ys) ≡ watch_entry parse g v o xs ++ ys
  watch_entry-append g (some vault) o xs ys = refl
  watch_entry-append g none none xs ys = refl
  watch_entry-append g none (some (s, born)) xs ys =
      elim (Bool-cases (is_watch parse (meta_of parse g))) [
        | inl watching ↦ rw watching
        | inr other ↦ rw other
      ]

  watches-append :
      (dir es : List WalletFiles)
      → watches parse (dir ++ es) ≡ watches parse dir ++ watches parse es
  unfolding watches
  watches-append [] es = refl
  watches-append (g ∷ dir) es =
      rw (watches-append dir es)
        (watch_entry-append g g.vault g.sidecar (watches parse dir) (watches parse es))

  watch_read :
      (s display address family : Bytes)
      → parse s ≡ some (watch_meta display address family)
      → is_watch parse (read_meta parse (some s)) ≡ true
  unfolding read_meta settle_watch settle_count settle_active settle_preset settle_btc beq text
  watch_read s display address family h = rw h refl

  new_watch-known :
      (print : AccountsMeta → Bytes) (id : Bytes) (now : ℕ) (display address family j : Bytes)
      → parse (print (watch_meta display address family)) ≡ some (watch_meta display address family)
      → known j (watches parse (create_watch print id now display address family [])) ≡ beq id j
  unfolding watches known
  new_watch-known print id now display address family j h =
      rw (watch_read (print (watch_meta display address family)) display address family h)
        (ground arith)

  -- A watch wallet whose sidecar can be read back is listed after it was made, with the wallets that
  -- were listed before.
  pub known-create_watch :
      (print : AccountsMeta → Bytes) (id : Bytes) (now : ℕ) (display address family j : Bytes)
      (dir : List WalletFiles)
      → parse (print (watch_meta display address family)) ≡ some (watch_meta display address family)
      → known j (rescan parse (create_watch print id now display address family dir))
        ≡ (known j (rescan parse dir) || beq id j)
  known-create_watch print id now display address family j dir h =
      let f = create_watch print id now display address family [] in
      known-rescan j (dir ++ f)
      ∙ rw
          (
            vaults-snoc dir (watch_files print id now display address family) refl,
            watches-append dir f,
            known-append j (watches parse dir) (watches parse f),
            new_watch-known print id now display address family j h,
          )
          (or_assoc (known j (vaults parse dir)) (known j (watches parse dir)) (beq id j))
      ∙ ap (λ b. b || beq id j) (sym (known-rescan j dir))
