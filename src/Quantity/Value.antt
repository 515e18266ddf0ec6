-- ===== src/Quantity/Value.antt =====
-- The number that a quantity stands for.
use izan_wallet.Base.{
  ℕ, zero, suc, ◌+◌, ◌*◌, ◌%◌, ◌^◌, ◌≤◌, ◌<◌, ◌≡◌, refl, [], ◌∷◌, ◌++◌, ◌==◌, ltb, Result, ok, err,
  ◌⊎◌, inl, inr, length, arith, Bool-cases, ==→eq, le→ltb,
}
use izan_wallet.Base.Bytes.{Bytes, AllBytes, text}
use izan_wallet.Quantity.{quantity_loop, quantity_u64}

-- The value of big-endian bytes behind the value `v`.
unfoldable pub be_from : ℕ → Bytes → ℕ
be_from v [] = v
be_from v (b ∷ bs) = be_from (v * 256 + b) bs

abbrev pub be_value : Bytes → ℕ
be_value = be_from 0

-- `v` followed by `n` zero bytes.
abbrev scaled : ℕ → ℕ → ℕ
scaled zero v = v
scaled (suc n) v = scaled n (v * 256)

scaled_mono : (n v w : ℕ) → v ≤ w → scaled n v ≤ scaled n w
scaled_mono zero v w h = h
scaled_mono (suc n) v w h = scaled_mono n (v * 256) (w * 256) (omega arith)

scaled_more : (k v : ℕ) → v ≤ scaled k v
scaled_more zero v = omega arith
scaled_more (suc k) v = omega (arith, scaled_more k (v * 256))

scaled_longer : (m n v : ℕ) → n ≤ m → scaled n v ≤ scaled m v
scaled_longer m zero v h = scaled_more m v
scaled_longer zero (suc n) v h = absurd (omega arith)
scaled_longer (suc m) (suc n) v h = scaled_longer m n (v * 256) (omega arith)

scaled-be_from : (v : ℕ) (bs : Bytes) → scaled (length bs) v ≤ be_from v bs
unfolding be_from
scaled-be_from v [] = omega arith
scaled-be_from v (b ∷ bs) = omega (
  arith,
  scaled-be_from (v * 256 + b) bs,
  scaled_mono (length bs) (v * 256) (v * 256 + b) (omega arith),
)

-- The last eight bytes: nothing is lost of a value that leaves them room.
quantity_loop-low :
    (what : Bytes) (i out : ℕ) (bs : Bytes)
    → 24 ≤ i
    → AllBytes bs
    → scaled (length bs) (suc out) ≤ 2 ^ 64
    → (quantity_loop what i out bs ≡ ok (be_from out bs)) × (be_from out bs < 2 ^ 64)
unfolding quantity_loop be_from
quantity_loop-low what i out [] h a r = (refl, omega (arith, r))
quantity_loop-low what i out (b ∷ bs) h (hb, a) r =
    let room : scaled (length bs) (suc (out * 256 + b)) ≤ 2 ^ 64 =
      omega
        (arith, r, scaled_mono (length bs) (suc (out * 256 + b)) (suc out * 256) (omega arith)) in
    let (next, fits) = quantity_loop-low what (i + 1) (out * 256 + b) bs (omega arith) a room in
    let whole : (out * 256 + b) % 2 ^ 64 ≡ out * 256 + b =
      omega (arith, room, scaled_more (length bs) (suc (out * 256 + b))) in
    (rw (le→ltb i 24 h, whole) next, fits)

-- What the number of 32 bytes must be for each outcome.
abbrev pub Folded : Bytes → ℕ → Result ℕ → Type 0
Folded what n r =
    ((n < 2 ^ 64) × (r ≡ ok n))
    ⊎ ((2 ^ 64 ≤ n) × (r ≡ err (what ++ text ": quantity exceeds 64 bits")))

quantity_loop-high :
    (what : Bytes) (i : ℕ) (bs : Bytes)
    → i ≤ 24
    → i + length bs ≡ 32
    → AllBytes bs
    → Folded what (be_from 0 bs) (quantity_loop what i 0 bs)
unfolding quantity_loop be_from
quantity_loop-high what i [] h l a = absurd (omega arith)
quantity_loop-high what i (b ∷ bs) h l (hb, a) = elim (Bool-cases (ltb i 24)) [
  | inr last ↦
      let seven : length bs ≡ 7 = ground (arith, last, l) in
      let (e, f) =
        quantity_loop-low what i 0 (b ∷ bs) (ground (arith, last)) (hb, a)
          (rw seven (omega arith)) in
      inl (f, e)
  | inl more ↦ elim (Bool-cases (b == 0)) [
    | inl none_here ↦
        rw (==→eq b 0 none_here, more)
          (quantity_loop-high what (i + 1) bs (ground (arith, more)) (omega arith) a)
    | inr some_here ↦ inr (
      omega (
        arith,
        scaled-be_from (0 + b) bs,
        scaled_mono (length bs) 1 (0 + b) (ground (arith, some_here)),
        scaled_longer (length bs) 8 1 (ground (arith, more, l)),
      ),
      rw (more, some_here),
    )
  ]
]

-- 32 bytes come out as the number that they spell, most significant byte first, if it fits in 64
-- bits, and are refused if it does not.
pub quantity_u64-be_value :
    (what be : Bytes)
    → length be ≡ 32
    → AllBytes be
    → Folded what (be_value be) (quantity_u64 (ok be) what)
unfolding quantity_u64
quantity_u64-be_value what be l a = quantity_loop-high what 0 be (omega arith) (omega arith) a
