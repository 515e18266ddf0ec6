-- ===== src/Quantity.antt =====
-- domain/tx/txflow.cpp: quantity_u64, on the 32 bytes that units::U256::from_hex reads.
pub mod Value
mod Tests
use izan_wallet.Base.{
  ℕ, ◌+◌, ◌*◌, ◌%◌, ◌^◌, Bool, true, false, not, ◌&&◌, List, [], ◌∷◌, ◌++◌, ◌==◌, ltb,
  if◌then◌else◌, Result, ok, err, ◌>>=◌,
}
use izan_wallet.Base.Bytes.{Bytes, text}

-- The loop, from the byte number `i` on.
unfoldable pub quantity_loop : Bytes → ℕ → ℕ → Bytes → Result ℕ
quantity_loop what i out [] = ok out
quantity_loop what i out (b ∷ be) =
    let next = if ltb i 24 then out else (out * 256 + b) % 2 ^ 64 in
    let rest = quantity_loop what (i + 1) next be in
    if ltb i 24 && not (b == 0) then err (what ++ text ": quantity exceeds 64 bits") else rest

unfoldable pub quantity_u64 : Result Bytes → Bytes → Result ℕ
quantity_u64 read what = do be ← read; quantity_loop what 0 0 be
