-- ===== src/Base/Bytes.antt =====
-- Byte strings, texts in ASCII, decimal prints, and little-endian integers of any width.
use Prim.Native.Char.{code}
use izan_wallet.Base.Tests.{◌==◌, if◌then◌else◌}
use izan_wallet.Base.Lists.{length, take, drop, take-append-drop, All}
use Prim.Native.Nat.{ℕ, zero, suc, ◌+◌, ◌*◌, ◌/◌, ◌%◌, ◌^◌, ◌≤◌, ◌<◌}
use Prim.Native.String.{String}
use mathlib.Core.Path.{◌≡◌, refl, ap}
use mathlib.Core.List.{List, [], ◌∷◌, ◌++◌}
use mathlib.Core.Bool.{Bool, true, false, ◌&&◌}
use native.Mathlib.Nat.{pow-suc}
use native.Mathlib.Omega.{arith}

abbrev pub Bytes : Type 0
Bytes = List ℕ

abbrev pub IsByte : ℕ → Type 0
IsByte b = b < 256

abbrev pub AllBytes : Bytes → Type 0
AllBytes = All IsByte

-- The bytes of an ASCII literal. It stays shut, so that proofs carry the text and not its bytes.
unfoldable pub text : String → Bytes
text String.[] = []
text (String.◌∷◌ c s) = code c ∷ text s

-- `a == b` on std::string.
unfoldable pub beq : Bytes → Bytes → Bool
beq [] [] = true
beq [] (b ∷ bs) = false
beq (a ∷ as') [] = false
beq (a ∷ as') (b ∷ bs) = (a == b) && beq as' bs

pub beq→eq : (xs ys : Bytes) → beq xs ys ≡ true → xs ≡ ys
unfolding beq
beq→eq [] [] h = refl
beq→eq [] (b ∷ bs) h = cc
beq→eq (a ∷ xs) [] h = cc
beq→eq (a ∷ xs) (b ∷ bs) h = ground (arith, beq→eq xs bs)

pub beq_refl : (xs : Bytes) → beq xs xs ≡ true
unfolding beq
beq_refl [] = refl
beq_refl (a ∷ xs) = ground (arith, beq_refl xs)

-- `std::to_string`. A number below 10 ^ fuel is printed with fuel rounds; 20 are enough for a
-- uint64_t.
decimal_loop : ℕ → ℕ → Bytes → Bytes
decimal_loop zero n out = out
decimal_loop (suc fuel) n out =
    let rest = decimal_loop fuel (n / 10) ((b'0' + n % 10) ∷ out) in if n == 0 then out else rest

unfoldable pub to_string : ℕ → Bytes
unfolding decimal_loop
to_string n = if n == 0 then b'0' ∷ [] else decimal_loop 20 n []

-- The `n` low bytes of `v`, least significant first: `uint8_t(v >> (8 * i))` for each `i < n`.
unfoldable pub le_bytes : ℕ → ℕ → Bytes
le_bytes zero v = []
le_bytes (suc n) v = (v % 256) ∷ le_bytes n (v / 256)

-- The number that the first `n` bytes spell. The shifted bytes have no bit in common, so the
-- source's `|=` adds.
unfoldable pub le_value : ℕ → Bytes → ℕ
le_value zero bs = 0
le_value (suc n) [] = 0
le_value (suc n) (b ∷ bs) = b + 256 * le_value n bs

pub length-le_bytes : (n v : ℕ) → length (le_bytes n v) ≡ n
unfolding le_bytes
length-le_bytes zero v = refl
length-le_bytes (suc n) v = ap suc (length-le_bytes n (v / 256))

pub le_bytes-AllBytes : (n v : ℕ) → AllBytes (le_bytes n v)
unfolding le_bytes
le_bytes-AllBytes zero v = tt
le_bytes-AllBytes (suc n) v = (omega arith, le_bytes-AllBytes n (v / 256))

-- What is written is read back, if it fits.
pub le_value-le_bytes :
    (n v : ℕ) (rest : Bytes) → v < 256 ^ n → le_value n (le_bytes n v ++ rest) ≡ v
unfolding le_bytes le_value
le_value-le_bytes zero v rest h = omega (arith, h)
le_value-le_bytes (suc n) v rest h =
    omega (arith, le_value-le_bytes n (v / 256) rest (omega (arith, pow-suc 256 n)))

low : (b v : ℕ) → b < 256 → (b + 256 * v) % 256 ≡ b
low b v h = omega arith

high : (b v : ℕ) → b < 256 → (b + 256 * v) / 256 ≡ v
high b v h = omega arith

pub le_value-lt : (n : ℕ) (bs : Bytes) → AllBytes bs → le_value n bs < 256 ^ n
unfolding le_value
le_value-lt zero bs h = omega arith
le_value-lt (suc n) [] h = omega (arith, le_value-lt n [] tt, pow-suc 256 n)
le_value-lt (suc n) (b ∷ bs) (hb, h) = omega (arith, le_value-lt n bs h, pow-suc 256 n)

-- What is read is written back.
pub le_bytes-le_value :
    (n : ℕ) (bs : Bytes) → AllBytes bs → n ≤ length bs → le_bytes n (le_value n bs) ≡ take n bs
unfolding le_bytes le_value
le_bytes-le_value zero bs h l = refl
le_bytes-le_value (suc n) [] h l = absurd (omega arith)
le_bytes-le_value (suc n) (b ∷ bs) (hb, h) l =
    rw (low b (le_value n bs) hb, high b (le_value n bs) hb, le_bytes-le_value n bs h (omega arith))

pub le_bytes-drop :
    (n : ℕ) (bs : Bytes)
    → AllBytes bs
    → n ≤ length bs
    → le_bytes n (le_value n bs) ++ drop n bs ≡ bs
le_bytes-drop n bs h l = rw (le_bytes-le_value n bs h l) (take-append-drop n bs)
