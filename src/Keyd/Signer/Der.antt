-- ===== src/Keyd/Signer/Der.antt =====
-- keyd/signer.cpp: `push_int` of sign_btc_payload, the DER form of a signature's two numbers.
use izan_wallet.Base.{
  ℕ, ◌+◌, ◌*◌, ◌%◌, ◌≤◌, ◌<◌, ◌≡◌, ◌≢◌, refl, Bool, false, [], ◌∷◌, ◌++◌, ◌==◌, leb, if◌then◌else◌,
  length, arith, ◌∙◌,
}
use izan_wallet.Base.Bytes.{Bytes}

-- `while (at < 31 && v[at] == 0) ++at`: zeros go, but for the last byte.
pub strip : Bytes → Bytes
strip [] = []
strip (b ∷ []) = b ∷ []
strip (b ∷ d ∷ v) = let rest = strip (d ∷ v) in if b == 0 then rest else b ∷ d ∷ v

-- `v[at] & 0x80`
abbrev pub sign_bit : Bytes → Bool
sign_bit [] = false
sign_bit (b ∷ v) = leb 128 b

pub der_content : Bytes → Bytes
der_content v = let kept = strip v in if sign_bit kept then 0 ∷ kept else kept

pub push_int : Bytes → Bytes
push_int v = 0x02 ∷ length (der_content v) % 256 ∷ der_content v

pub signature_der : Bytes → Bytes → Bytes
signature_der r s = let body = push_int r ++ push_int s in 0x30 ∷ length body % 256 ∷ body

-- The number that bytes spell, most significant first.
abbrev pub be_value : ℕ → Bytes → ℕ
be_value acc [] = acc
be_value acc (b ∷ v) = be_value (acc * 256 + b) v

strip-value : (v : Bytes) → be_value 0 (strip v) ≡ be_value 0 v
unfolding strip
strip-value [] = refl
strip-value (b ∷ []) = refl
strip-value (b ∷ d ∷ v) = ground (arith, strip-value (d ∷ v))

-- No byte can be left out: a leading zero stands only before a byte with its high bit set, and the
-- number is not negative.
abbrev pub IsMinimal : Bytes → Type 0
IsMinimal [] = ⊥
IsMinimal (b ∷ []) = b < 128
IsMinimal (b ∷ d ∷ v) = (b < 128) × (b ≡ 0 → 128 ≤ d)

-- The zeros are gone: a first byte that is zero stands alone.
abbrev IsStripped : Bytes → Type 0
IsStripped [] = ⊥
IsStripped (b ∷ []) = Unit {0}
IsStripped (b ∷ d ∷ v) = b ≢ 0

strip-IsStripped : (b : ℕ) (v : Bytes) → IsStripped (strip (b ∷ v))
unfolding strip
strip-IsStripped b [] = tt
strip-IsStripped b (d ∷ v) = ground (arith, strip-IsStripped d v)

minimal : (kept : Bytes) → IsStripped kept → IsMinimal (if sign_bit kept then 0 ∷ kept else kept)
minimal [] h = absurd h
minimal (b ∷ []) h = ground arith
minimal (b ∷ d ∷ v) h = ground arith

pad-value : (kept : Bytes) → be_value 0 (if sign_bit kept then 0 ∷ kept else kept) ≡ be_value 0 kept
pad-value [] = refl
pad-value (b ∷ v) = ground arith

length-strip : (v : Bytes) → length (strip v) ≤ length v
unfolding strip
length-strip [] = omega arith
length-strip (b ∷ []) = omega arith
length-strip (b ∷ d ∷ v) = ground (arith, length-strip (d ∷ v))

length-der_content : (v : Bytes) → length (der_content v) ≤ length v + 1
unfolding der_content
length-der_content v = ground (arith, length-strip v)

-- The content of a DER integer spells the same number as the 32 bytes that it comes from, is minimal
-- and not negative, and has at most one byte more.
pub der_content_correct :
    (b : ℕ) (v : Bytes)
    → (be_value 0 (der_content (b ∷ v)) ≡ be_value 0 (b ∷ v))
      × IsMinimal (der_content (b ∷ v))
      × (length (der_content (b ∷ v)) ≤ length (b ∷ v) + 1)
unfolding der_content
der_content_correct b v = (
  pad-value (strip (b ∷ v)) ∙ strip-value (b ∷ v),
  minimal (strip (b ∷ v)) (strip-IsStripped b v),
  length-der_content (b ∷ v),
)
