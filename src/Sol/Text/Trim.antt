-- ===== src/Sol/Text/Trim.antt =====
-- Trimming takes whole characters.
use izan_wallet.Base.{
  ℕ, suc, ◌+◌, ◌*◌, ◌%◌, append-nil, ◌≤◌, ◌≡◌, ◌≢◌, refl, sym, ap, ◌∙◌, true, false, List, [], ◌∷◌,
  ◌++◌, ◌==◌, length, All, arith, Bool-cases, ◌⊎◌, inl, inr,
}
use izan_wallet.Base.Bytes.{Bytes}
use izan_wallet.Sol.Text.{
  char_len, lead_bits, code_point, Walk, broke, returned, walk, prepend_kept, trim_end, trim_start,
  trim_walk, sanitize_token_text,
}
use izan_wallet.Sol.Text.Points.{CleanText, KeptText-CleanText}
use izan_wallet.Sol.Text.Clean.{clean_point, is_clean, concat, KeptText, walked, walk-KeptText}

length-trim_start : (xs : Bytes) → length (trim_start xs) ≤ length xs
unfolding trim_start
length-trim_start [] = omega arith
length-trim_start (b ∷ xs) = ground (arith, length-trim_start xs)

length-prepend_kept : (b : ℕ) (xs : Bytes) → length (prepend_kept b xs) ≤ suc (length xs)
length-prepend_kept b [] = ground arith
length-prepend_kept b (c ∷ cs) = omega arith

length-trim_end : (xs : Bytes) → length (trim_end xs) ≤ length xs
unfolding trim_end
length-trim_end [] = omega arith
length-trim_end (b ∷ xs) = omega (arith, length-prepend_kept b (trim_end xs), length-trim_end xs)

prepend_kept-append : (b : ℕ) (xs ys : Bytes) → ys ≢ [] → prepend_kept b (xs ++ ys) ≡ b ∷ (xs ++ ys)
prepend_kept-append b [] [] h = absurd (h refl)
prepend_kept-append b [] (y ∷ ys) h = refl
prepend_kept-append b (x ∷ xs) ys h = refl

-- What is left of the second part keeps the first part whole.
trim_end-append : (xs ys : Bytes) → trim_end ys ≢ [] → trim_end (xs ++ ys) ≡ xs ++ trim_end ys
unfolding trim_end
trim_end-append [] ys h = refl
trim_end-append (x ∷ xs) ys h =
    rw (trim_end-append xs ys h) (prepend_kept-append x xs (trim_end ys) h)

trim_end-append_nil : (xs ys : Bytes) → trim_end ys ≡ [] → trim_end (xs ++ ys) ≡ trim_end xs
unfolding trim_end
trim_end-append_nil [] ys h = h
trim_end-append_nil (x ∷ xs) ys h = rw (trim_end-append_nil xs ys h)

-- Continuation bytes are no spaces.
trim_end-tail :
    (cp b : ℕ) (tail : Bytes)
    → clean_point (code_point cp (b ∷ tail)) ≡ true
    → trim_end (b ∷ tail) ≡ b ∷ tail
unfolding code_point trim_end clean_point
trim_end-tail cp b [] h = ground arith
trim_end-tail cp b (d ∷ tail) h = rw (trim_end-tail (cp * 64 + b % 64) d tail (ground arith))

trim_end-char : (c : Bytes) → is_clean c ≡ true → (trim_end c ≡ []) ⊎ (trim_end c ≡ c)
unfolding is_clean
trim_end-char [] h = cc
trim_end-char (b ∷ []) h =
    unfold trim_end in elim (Bool-cases (b == b' ')) [ inl e ↦ inl (rw e) | inr e ↦ inr (rw e) ]
trim_end-char (b ∷ d ∷ tail) h =
    inr (unfold trim_end in rw (trim_end-tail (lead_bits b) d tail (ground arith)))

-- What is left of characters is characters.
abbrev Chars : Bytes → Type 0
Chars out = (cs : List Bytes) × All (λ c. is_clean c ≡ true) cs × (out ≡ concat cs)

nil-cases : (xs : Bytes) → (xs ≡ []) ⊎ (xs ≢ [])
nil-cases [] = inl refl
nil-cases (x ∷ xs) = inr (λ e. ground arith)

trim_end-Chars : (cs : List Bytes) → All (λ c. is_clean c ≡ true) cs → Chars (trim_end (concat cs))
trim_end-Chars [] h = ([], tt, unfold trim_end in refl)
trim_end-Chars (c ∷ cs) (hc, h) =
    let (ds, clean, same) = trim_end-Chars cs h in
    elim (nil-cases (trim_end (concat cs))) [
      | inl gone ↦ elim (trim_end-char c hc) [
        | inl e ↦ ([], tt, trim_end-append_nil c (concat cs) gone ∙ e)
        | inr e ↦
            (c ∷ [], (hc, tt), trim_end-append_nil c (concat cs) gone ∙ e ∙ sym (append-nil c))
      ]
      | inr left ↦ (c ∷ ds, (hc, clean), trim_end-append c (concat cs) left ∙ ap (λ o. c ++ o) same)
    ]

lead-ne-space : (b d : ℕ) (tail : Bytes) → is_clean (b ∷ d ∷ tail) ≡ true → (b == b' ') ≡ false
unfolding is_clean char_len
lead-ne-space b d tail h = ground arith

trim_start-Chars :
    (cs : List Bytes) → All (λ c. is_clean c ≡ true) cs → Chars (trim_start (concat cs))
unfolding trim_start
trim_start-Chars [] h = ([], tt, refl)
trim_start-Chars ([] ∷ cs) (hc, h) = trim_start-Chars cs h
trim_start-Chars ((b ∷ []) ∷ cs) (hc, h) = elim (Bool-cases (b == b' ')) [
  | inl e ↦ rw e (trim_start-Chars cs h)
  | inr e ↦ ((b ∷ []) ∷ cs, (hc, h), rw e)
]
trim_start-Chars ((b ∷ d ∷ tail) ∷ cs) (hc, h) =
    ((b ∷ d ∷ tail) ∷ cs, (hc, h), rw (lead-ne-space b d tail hc))

trim_walk-KeptText :
    (max_bytes : ℕ) (w : Walk) → KeptText max_bytes (walked w) → KeptText max_bytes (trim_walk w)
unfolding trim_walk
trim_walk-KeptText max_bytes (returned out) c = c
trim_walk-KeptText max_bytes (broke out) (cs, clean, same, short) =
    let (ds, clean', same') = trim_end-Chars cs clean in
    let (es, clean'', same'') = trim_start-Chars ds clean' in
    (
      es,
      clean'',
      ap (λ o. trim_start (trim_end o)) same ∙ ap trim_start same' ∙ same'',
      omega (arith, length-trim_start (trim_end out), length-trim_end out),
    )

-- Whatever a token calls itself, the filter leaves at most `max_bytes` bytes, and these are whole
-- characters in the byte patterns of UTF-8 (overlong forms are not told apart), none of which is
-- below U+0020, U+007F, one of U+200B to U+200F, U+202A to U+202E and U+2066 to U+2069, or U+FEFF.
pub sanitize_token_text-CleanText :
    (raw : Bytes) (max_bytes : ℕ) → CleanText max_bytes (sanitize_token_text raw max_bytes)
unfolding sanitize_token_text
sanitize_token_text-CleanText raw max_bytes =
    KeptText-CleanText max_bytes (trim_walk (walk max_bytes (length raw) raw [])) (
      trim_walk-KeptText max_bytes (walk max_bytes (length raw) raw [])
        (walk-KeptText max_bytes (length raw) raw [] ([], tt, refl, omega arith)))
