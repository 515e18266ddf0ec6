-- ===== src/Json/Naturals.antt =====
-- Doubles that are whole numbers, each given by itself, for the tests.
use izan_wallet.Base.{◌+◌, ◌-◌, ◌^◌, ltb, leb, if◌then◌else◌, none, some}
use izan_wallet.Json.{Doubles}

abbrev pub naturals : Doubles
naturals = record {
  to_u64 = λ bits. if ltb bits (2 ^ 53) then some bits else none;
  to_i64 = λ bits. if ltb bits (2 ^ 53) then some bits else none;
  to_u32 = λ bits. if ltb bits (2 ^ 32) then some bits else none;
  of_u64 = λ n. n;
  le = leb;
  add = λ a b. a + b;
  sub = λ a b. a - b;
}
