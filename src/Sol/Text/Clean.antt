-- ===== src/Sol/Text/Clean.antt =====
-- What the filter keeps, in the words of the filter.
use izan_wallet.Base.{
  ℕ, zero, suc, ◌+◌, ◌-◌, ◌≤◌, ◌≡◌, sym, ap, ◌∙◌, Bool, true, false, not, ◌&&◌, ◌||◌, List, [], ◌∷◌,
  ◌++◌, ◌==◌, ltb, length, take, drop, All, Option, none, some, arith, Bool-cases, inl, inr,
  length-append, length-take, append_assoc, append-nil,
}
use izan_wallet.Base.Bytes.{Bytes}
use izan_wallet.Sol.Text.{
  char_len, lead_bits, code_point, bad_point, Walk, broke, returned, keep_char, walk,
}

-- The bytes are one whole character of UTF-8, and not a bad one.
unfoldable pub clean_point : Option ℕ → Bool
clean_point none = false
clean_point (some cp) = not (bad_point cp)

unfoldable pub is_clean : Bytes → Bool
is_clean [] = false
is_clean (lead ∷ tail) =
    (char_len lead == suc (length tail)) && clean_point (code_point (lead_bits lead) tail)

abbrev pub concat : List Bytes → Bytes
concat [] = []
concat (c ∷ cs) = c ++ concat cs

-- The text consists of kept characters and has at most `max_bytes` bytes.
abbrev pub KeptText : ℕ → Bytes → Type 0
KeptText max_bytes out =
    (cs : List Bytes) × All (λ c. is_clean c ≡ true) cs
    × (out ≡ concat cs)
    × (length out ≤ max_bytes)

concat-snoc : (cs : List Bytes) (c : Bytes) → concat (cs ++ c ∷ []) ≡ concat cs ++ c
concat-snoc [] c = append-nil c
concat-snoc (d ∷ cs) c = rw (concat-snoc cs c) (sym (append_assoc d (concat cs) c))

All-snoc :
    (cs : List Bytes) (c : Bytes)
    → All (λ x. is_clean x ≡ true) cs
    → is_clean c ≡ true
    → All (λ x. is_clean x ≡ true) (cs ++ c ∷ [])
All-snoc [] c h k = (k, tt)
All-snoc (d ∷ cs) c (hd, h) k = (hd, All-snoc cs c h k)

KeptText-append :
    (max_bytes : ℕ) (out c : Bytes)
    → KeptText max_bytes out
    → is_clean c ≡ true
    → ltb max_bytes (length out + length c) ≡ false
    → KeptText max_bytes (out ++ c)
KeptText-append max_bytes out c (cs, clean, same, short) k fits = (
  cs ++ c ∷ [],
  All-snoc cs c clean k,
  ap (λ o. o ++ c) same ∙ sym (concat-snoc cs c),
  ground (arith, length-append out c),
)

abbrev pub walked : Walk → Bytes
walked (broke out) = out
walked (returned out) = out

clean_char :
    (lead n : ℕ) (rest : Bytes)
    → char_len lead ≡ suc n
    → n ≤ length rest
    → is_clean (lead ∷ take n rest) ≡ clean_point (code_point (lead_bits lead) (take n rest))
unfolding is_clean
clean_char lead n rest e h = ground (arith, e, length-take n rest)

module _ (max_bytes : ℕ) where
  keep_char-KeptText :
      (go : Bytes → Walk) (out char : Bytes) (point : Option ℕ)
      → is_clean char ≡ clean_point point
      → KeptText max_bytes out
      → ((o : Bytes) → KeptText max_bytes o → KeptText max_bytes (walked (go o)))
      → KeptText max_bytes (walked (keep_char max_bytes go out char point))
  unfolding keep_char
  keep_char-KeptText go out char none e c k = c
  keep_char-KeptText go out char (some cp) e c k = elim (Bool-cases (bad_point cp)) [
    | inl bad ↦ rw bad (k out c)
    | inr good ↦ elim (Bool-cases (ltb max_bytes (length out + length char))) [
      | inl full ↦ rw (good, full) c
      | inr fits ↦
          rw (good, fits)
            (k (out ++ char)
              (KeptText-append max_bytes out char c (e ∙ unfold clean_point in rw good) fits))
    ]
  ]

  pub walk-KeptText :
      (fuel : ℕ) (raw out : Bytes)
      → KeptText max_bytes out
      → KeptText max_bytes (walked (walk max_bytes fuel raw out))
  unfolding walk
  walk-KeptText zero raw out c = c
  walk-KeptText (suc fuel) [] out c = c
  walk-KeptText (suc fuel) (lead ∷ rest) out c =
      elim (Bool-cases (char_len lead == 0 || ltb (suc (length rest)) (char_len lead))) [
        | inl stop ↦ rw stop c
        | inr more ↦
            let n = char_len lead - 1 in
            let e : char_len lead ≡ suc n = ground arith in
            rw (more, e)
              (keep_char-KeptText _ out (lead ∷ take n rest) _
                (clean_char lead n rest e (ground arith)) c (walk-KeptText fuel (drop n rest)))
      ]
