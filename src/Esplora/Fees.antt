-- ===== src/Esplora/Fees.antt =====
-- The fee tiers that are offered, whatever the explorer quotes.
use izan_wallet.Base.{ℕ, ◌≡◌, ◌≤◌, Option, ok, >>=-eq-ok, ok-injective, arith}
use izan_wallet.Base.Bytes.{text}
use izan_wallet.Json.{Json, Doubles, as_object}
use izan_wallet.Esplora.{
  FeeTiers, settle_tiers, or_else_tier, min_u64, tier, second_tier, parse_fee_estimates,
  object_or_throw,
}

-- No tier is free, and none costs more than a faster one.
pub record Ordered (t : FeeTiers) : Type 0 where
  pub slow_positive : 1 ≤ t.slow
  pub slow_normal : t.slow ≤ t.normal
  pub normal_fast : t.normal ≤ t.fast

or_else_tier_positive : (t u : ℕ) → 1 ≤ u → 1 ≤ or_else_tier t u
or_else_tier_positive t u h = ground arith

min_u64_positive : (a b : ℕ) → 1 ≤ a → 1 ≤ b → 1 ≤ min_u64 a b
min_u64_positive a b ha hb = ground arith

min_u64_le : (a b : ℕ) → min_u64 a b ≤ b
min_u64_le a b = ground arith

settle_tiers-Ordered :
    (next_block second_block six day : ℕ) → Ordered (settle_tiers next_block second_block six day)
unfolding settle_tiers
settle_tiers-Ordered next_block second_block six day =
    let fast = or_else_tier (or_else_tier next_block second_block) 1 in
    let normal = or_else_tier six fast in
    let slow = or_else_tier day normal in
    let f : 1 ≤ fast =
      or_else_tier_positive (or_else_tier next_block second_block) 1 (omega arith) in
    let n : 1 ≤ normal = or_else_tier_positive six fast f in
    let m : 1 ≤ min_u64 normal fast = min_u64_positive normal fast n f in
    record {
      slow_positive =
          min_u64_positive slow (min_u64 normal fast) (or_else_tier_positive day normal n) m;
      slow_normal = min_u64_le slow (min_u64 normal fast);
      normal_fast = min_u64_le normal fast;
    }

-- Whatever numbers the explorer quotes, or leaves out, the tiers that are read from its answer are
-- all at least 1 satoshi per byte, and a slower one never costs more than a faster one.
pub parse_fee_estimates-Ordered :
    (d : Doubles) (doc : Option Json) (t : FeeTiers) → parse_fee_estimates d doc ≡ ok t → Ordered t
unfolding parse_fee_estimates
parse_fee_estimates-Ordered d doc t h =
    let (members, _, h1) =
      >>=-eq-ok (object_or_throw (text "btc: fee estimates not an object") (as_object doc)) _ h in
    let (next_block, _, h2) = >>=-eq-ok (tier d members (text "1")) _ h1 in
    let (second_block, _, h3) = >>=-eq-ok (second_tier d members next_block) _ h2 in
    let (six, _, h4) = >>=-eq-ok (tier d members (text "6")) _ h3 in
    let (day, _, h5) = >>=-eq-ok (tier d members (text "144")) _ h4 in
    rw (← ok-injective h5) (settle_tiers-Ordered next_block second_block six day)

min_u64_one : (a : ℕ) → 1 ≤ a → min_u64 a 1 ≡ 1
min_u64_one a h = ground arith

-- The other quotes do not count.
settle_tiers_sparse :
    (six day : ℕ) → settle_tiers 0 0 six day ≡ record { fast = 1; normal = 1; slow = 1 }
unfolding settle_tiers
settle_tiers_sparse six day = rw (
  min_u64_one (or_else_tier six 1) (or_else_tier_positive six 1 (omega arith)),
  min_u64_one (or_else_tier day (or_else_tier six 1))
      (or_else_tier_positive day (or_else_tier six 1) (or_else_tier_positive six 1 (omega arith))),
)
