-- ===== src/Sol/Meta/RoundTrip.antt =====
-- An account laid out in Borsh is read back.
use izan_wallet.Base.{
  ℕ, zero, suc, ◌+◌, ◌≤◌, ◌≡◌, ◌≢◌, refl, sym, ap, ◌∙◌, [], ◌∷◌, ◌++◌, length, take, drop,
  replicate, All, ok, arith, length-append, take-append_eq, drop-append_eq, append_assoc,
}
use izan_wallet.Base.Bytes.{Bytes, le_bytes, le_value, length-le_bytes, le_value-le_bytes}
use izan_wallet.Sol.Meta.{cut_nul, read_str, parse_metaplex_meta}

-- A string with its length in front, and with `pad` zeros that the length counts.
abbrev pub borsh : Bytes → ℕ → Bytes
borsh s pad = le_bytes 4 (length s + pad) ++ (s ++ replicate pad 0)

-- The string holds no zero, and fits the reader's bound with its padding.
abbrev pub IsText : Bytes → ℕ → Type 0
IsText s pad = All (λ b. b ≢ 0) s × (length s + pad ≤ 4096)

cut_nul-zeros : (pad : ℕ) → cut_nul (replicate pad 0) ≡ []
unfolding cut_nul
cut_nul-zeros zero = refl
cut_nul-zeros (suc pad) = refl

cut_nul-padded : (s : Bytes) (pad : ℕ) → All (λ b. b ≢ 0) s → cut_nul (s ++ replicate pad 0) ≡ s
unfolding cut_nul
cut_nul-padded [] pad h = cut_nul-zeros pad
cut_nul-padded (b ∷ s) pad h = ground (arith, cut_nul-padded s pad h.1)

length-replicate : (n b : ℕ) → length (replicate n b) ≡ n
length-replicate zero b = refl
length-replicate (suc n) b = ap suc (length-replicate n b)

length-padded : (s : Bytes) (pad : ℕ) → length (s ++ replicate pad 0) ≡ length s + pad
length-padded s pad = omega (arith, length-append s (replicate pad 0), length-replicate pad 0)

length-borsh : (s : Bytes) (pad : ℕ) → length (borsh s pad) ≡ 4 + length s + pad
length-borsh s pad = omega (
  arith,
  length-append (le_bytes 4 (length s + pad)) (s ++ replicate pad 0),
  length-le_bytes 4 (length s + pad),
  length-padded s pad,
)

read_str-borsh :
    (front s rest : Bytes) (pad pos : ℕ)
    → length front ≡ pos
    → IsText s pad
    → read_str (front ++ (borsh s pad ++ rest)) pos ≡ ok (s, pos + length (borsh s pad))
unfolding read_str
read_str-borsh front s rest pad pos e h =
    let n = length s + pad in
    let head = le_bytes 4 n in
    let all = front ++ (borsh s pad ++ rest) in
    let size : length all ≡ pos + 4 + n + length rest = omega (
      arith,
      length-append front (borsh s pad ++ rest),
      length-append (borsh s pad) rest,
      length-borsh s pad,
    ) in
    let behind : drop pos all ≡ borsh s pad ++ rest =
      drop-append_eq pos front (borsh s pad ++ rest) e in
    let part = s ++ replicate pad 0 in
    let cut : borsh s pad ++ rest ≡ head ++ (part ++ rest) = append_assoc head part rest in
    let len : le_value 4 (drop pos all) ≡ n =
      ap (le_value 4) (behind ∙ cut) ∙ le_value-le_bytes 4 n (part ++ rest) (omega arith) in
    let body : drop (pos + 4) all ≡ part ++ rest =
      ap (λ o. drop (pos + 4) (front ++ o)) cut
      ∙ ap (drop (pos + 4)) (sym (append_assoc front head (part ++ rest)))
      ∙ drop-append_eq (pos + 4) (front ++ head) (part ++ rest)
          (omega (arith, length-append front head, length-le_bytes 4 n)) in
    let read : cut_nul (take n (drop (pos + 4) all)) ≡ s =
      ap (λ o. cut_nul (take n o)) body
      ∙ ap cut_nul (take-append_eq n part rest (length-padded s pad))
      ∙ cut_nul-padded s pad h.0 in
    rw len (ground (arith, size, read, length-borsh s pad))

-- A metadata account with 65 bytes in front of the name is read whole: a name and a symbol of 4096
-- bytes at most with their padding, which hold no zero, come back without the padding, whatever
-- follows them.
pub parse_metaplex_meta-borsh :
    (front name symbol rest : Bytes) (p q : ℕ)
    → length front ≡ 65
    → IsText name p
    → IsText symbol q
    → parse_metaplex_meta (front ++ (borsh name p ++ (borsh symbol q ++ rest)))
      ≡ ok (record { name = name; symbol = symbol })
unfolding parse_metaplex_meta
parse_metaplex_meta-borsh front name symbol rest p q e hn hs =
    let tail = borsh symbol q ++ rest in
    let all = front ++ (borsh name p ++ tail) in
    let first = read_str-borsh front name tail p 65 e hn in
    let at = 65 + length (borsh name p) in
    let second : read_str all at ≡ ok (symbol, at + length (borsh symbol q)) =
      ap (λ o. read_str o at) (sym (append_assoc front (borsh name p) tail))
      ∙ read_str-borsh (front ++ borsh name p) symbol rest q at
          (omega (arith, length-append front (borsh name p))) hs in
    let size : 69 ≤ length all = omega (
      arith,
      length-append front (borsh name p ++ tail),
      length-append (borsh name p) tail,
      length-borsh name p,
    ) in
    ground (arith, size, first, second)
