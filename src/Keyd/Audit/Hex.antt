-- ===== src/Keyd/Audit/Hex.antt =====
-- Hexadecimal in lower case, both ways.
use izan_wallet.Base.{
  ℕ, ◌+◌, ◌*◌, ◌/◌, ◌%◌, ◌<◌, ◌≡◌, ◌≢◌, refl, true, [], ◌∷◌, length, All, Option, none, some, arith,
  Option-cases, inl, inr, ap, ◌∙◌,
}
use izan_wallet.Base.Bytes.{Bytes, AllBytes}
use izan_wallet.Keyd.Audit.{nib, pair_byte, hex_fill, from_hex64}
use izan_wallet.Base.Hex.{hex_digit, to_hex}

nib-hex_digit : (n : ℕ) → n < 16 → nib (hex_digit n) ≡ some n
unfolding nib
nib-hex_digit n h = ground arith

pair_byte-hex_digit :
    (b : ℕ) → b < 256 → pair_byte (nib (hex_digit (b / 16))) (nib (hex_digit (b % 16))) ≡ some b
unfolding pair_byte
pair_byte-hex_digit b h = ground (arith, nib-hex_digit (b / 16), nib-hex_digit (b % 16))

hex_fill-to_hex :
    (bs out : Bytes) → AllBytes bs → length bs ≡ length out → hex_fill (to_hex bs) out ≡ (true, bs)
unfolding hex_fill to_hex
hex_fill-to_hex [] [] h l = refl
hex_fill-to_hex [] (o ∷ out) h l = absurd (omega arith)
hex_fill-to_hex (b ∷ bs) [] h l = absurd (omega arith)
hex_fill-to_hex (b ∷ bs) (o ∷ out) h l =
    ground (arith, pair_byte-hex_digit b, hex_fill-to_hex bs out h.1)

pub length-to_hex : (bs : Bytes) → length (to_hex bs) ≡ 2 * length bs
unfolding to_hex
length-to_hex [] = omega arith
length-to_hex (b ∷ bs) = omega (arith, length-to_hex bs)

-- 32 bytes are read back from their print.
pub from_hex64-to_hex :
    (bs out : Bytes)
    → AllBytes bs
    → length bs ≡ 32
    → length out ≡ 32
    → from_hex64 (to_hex bs) out ≡ (true, bs)
unfolding from_hex64
from_hex64-to_hex bs out h l k = ground (arith, length-to_hex bs, hex_fill-to_hex bs out h)

digit_of_nib : (c n : ℕ) → nib c ≡ some n → (hex_digit n ≡ c) × (n < 16)
unfolding nib
digit_of_nib c n h = ground arith

pair_byte-inv :
    (x y : Option ℕ) (b : ℕ)
    → pair_byte x y ≡ some b
    → (hi : ℕ) × (lo : ℕ) × (x ≡ some hi) × (y ≡ some lo) × (b ≡ hi * 16 + lo)
unfolding pair_byte
pair_byte-inv (some hi) (some lo) b e = (hi, lo, refl, refl, ground arith)
pair_byte-inv (some hi) none b e = cc
pair_byte-inv none lo b e = cc

digits_of_pair :
    (h l b : ℕ)
    → pair_byte (nib h) (nib l) ≡ some b
    → (hex_digit (b / 16) ≡ h) × (hex_digit (b % 16) ≡ l)
digits_of_pair h l b e =
    let (hi, lo, eh, el, eb) = pair_byte-inv (nib h) (nib l) b e in
    let (dh, bh) = digit_of_nib h hi eh in
    let (dl, bl) = digit_of_nib l lo el in
    let qh : b / 16 ≡ hi = omega arith in
    let ql : b % 16 ≡ lo = omega arith in (ap hex_digit qh ∙ dh, ap hex_digit ql ∙ dl)

to_hex-hex_fill :
    (hex out bs : Bytes)
    → length hex ≡ 2 * length out
    → hex_fill hex out ≡ (true, bs)
    → to_hex bs ≡ hex
unfolding hex_fill to_hex
to_hex-hex_fill [] [] bs l e = ground arith
to_hex-hex_fill [] (o ∷ out) bs l e = absurd (omega arith)
to_hex-hex_fill (h ∷ []) out bs l e = absurd (omega arith)
to_hex-hex_fill (h ∷ k ∷ hex) [] bs l e = absurd (omega arith)
to_hex-hex_fill (h ∷ k ∷ hex) (o ∷ out) bs l e = elim (Option-cases (pair_byte (nib h) (nib k))) [
  | inl bad ↦ absurd (ground arith)
  | inr (b, good) ↦
      ground (arith, digits_of_pair h k b good, to_hex-hex_fill hex out (hex_fill hex out).1)
]

-- Only the print of the bytes is read as them.
pub to_hex-from_hex64 :
    (hex out bs : Bytes) → length out ≡ 32 → from_hex64 hex out ≡ (true, bs) → to_hex bs ≡ hex
unfolding from_hex64
to_hex-from_hex64 hex out bs l e = ground (arith, to_hex-hex_fill hex out bs)

pub to_hex-Lacks : (bs : Bytes) → All (λ c. c ≢ b'\n') (to_hex bs)
unfolding to_hex
to_hex-Lacks [] = tt
to_hex-Lacks (b ∷ bs) = (ground arith, (ground arith, to_hex-Lacks bs))
