-- ===== src/Keyd/Audit/Evidence.antt =====
-- What a ledger that verifies must be.
use izan_wallet.Base.{
  ℕ, ◌+◌, ◌≤◌, ◌≡◌, refl, Bool, true, false, ◌&&◌, List, [], ◌∷◌, if◌then◌else◌, length, take, drop,
  get_or, arith, ap₂, ◌∙◌, sym, Option-cases, none, some, take-append-drop, inl, inr, drop-cons,
}
use izan_wallet.Base.Bytes.{Bytes, beq, beq→eq}
use izan_wallet.Keyd.Audit.{
  split_lines, text_mode, chain_step, row, zero32, check_line, verify_lines, verify, from_hex64,
  bad_shape,
}
use izan_wallet.Base.Hex.{to_hex}
use izan_wallet.Keyd.Audit.Hex.{to_hex-from_hex64}
use izan_wallet.Keyd.Audit.Lines.{rows}

-- The lines of a file that are not empty.
abbrev pub dense : List Bytes → List Bytes
dense [] = []
dense ([] ∷ ls) = dense ls
dense ((c ∷ l) ∷ ls) = (c ∷ l) ∷ dense ls

gate :
    (bad read : Bool) (claimed expect next : Bytes)
    → (if bad then none else if read && beq claimed expect then some expect else none) ≡ some next
    → (bad ≡ false) × (read ≡ true) × (claimed ≡ expect) × (next ≡ expect)
gate bad read claimed expect next h = ground (arith, beq→eq claimed expect)

module _ (sha256 : Bytes → Bytes) where
  shape_of :
      (line : Bytes)
      → bad_shape sha256 line ≡ false
      → (66 ≤ length line) × (get_or line 64 0 ≡ b' ')
  shape_of line h = ground arith

  -- A line is good only if it is the one that `append` writes for its event.
  check_line-row :
      (chain line next : Bytes)
      → check_line sha256 chain line ≡ some next
      → (next ≡ chain_step sha256 chain (drop 65 line)) × (line ≡ row sha256 next (drop 65 line))
  unfolding check_line
  check_line-row chain line next h =
      let r = from_hex64 (take 64 line) zero32 in
      let expect = chain_step sha256 chain (drop 65 line) in
      let (shape, read, same, found) = gate (bad_shape sha256 line) r.0 r.1 expect next h in
      let (long, space) = shape_of line shape in
      let whole : from_hex64 (take 64 line) zero32 ≡ (true, expect) =
        ap₂ (λ b d. (b, d)) read same in
      let hex : to_hex expect ≡ take 64 line =
        to_hex-from_hex64 (take 64 line) zero32 expect (unfold zero32 in refl) whole in
      let cut : drop 64 line ≡ get_or line 64 0 ∷ drop 65 line =
        drop-cons 64 line 0 (omega arith) in
      (found, sym (take-append-drop 64 line) ∙ cc (hex, cut, space, found))

  verify_lines-rows :
      (ls : List Bytes) (chain : Bytes) (n m : ℕ)
      → verify_lines sha256 ls chain n ≡ some m
      → (es : List Bytes) × (dense ls ≡ rows sha256 chain es) × (m ≡ n + length es)
  unfolding verify_lines rows
  verify_lines-rows [] chain n m h = ([], refl, ground arith)
  verify_lines-rows ([] ∷ ls) chain n m h = verify_lines-rows ls chain n m h
  verify_lines-rows ((c ∷ l) ∷ ls) chain n m h =
      elim (Option-cases (check_line sha256 chain (c ∷ l))) [
        | inl bad ↦ absurd (ground arith)
        | inr (next, good) ↦
            let (step, line) = check_line-row chain (c ∷ l) next good in
            let (es, tail, count) = verify_lines-rows ls next (n + 1) m (ground arith) in
            (drop 65 (c ∷ l) ∷ es, cc (step, line, tail), omega (arith, count))
      ]

  -- A ledger that verifies with n records has, as a stream in text mode reads it and but for empty
  -- lines, exactly the lines that `append` writes for some n events from an empty ledger, each with
  -- the hash of its whole history. A CR before a line end, and whatever stands behind the first byte
  -- 0x1a, are not read and so not vouched for.
  pub verify-rows :
      (f : Bytes) (n : ℕ)
      → verify sha256 (some f) ≡ some n
      → (es : List Bytes) × (dense (split_lines (text_mode f) []) ≡ rows sha256 zero32 es)
        × (n ≡ length es)
  unfolding verify
  verify-rows f n h =
      let (es, lines, count) = verify_lines-rows (split_lines (text_mode f) []) zero32 0 n h in
      (es, lines, omega (arith, count))
