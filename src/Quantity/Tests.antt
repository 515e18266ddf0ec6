-- ===== src/Quantity/Tests.antt =====
-- The largest quantity, and one above it.
use izan_wallet.Base.{◌-◌, ◌^◌, ◌≡◌, refl, ◌∷◌, ◌++◌, replicate, ok, err}
use izan_wallet.Base.Bytes.{text}
use izan_wallet.Quantity.{quantity_loop, quantity_u64}

largest_quantity :
    quantity_u64 (ok (replicate 24 0 ++ replicate 8 255)) (text "gas") ≡ ok (2 ^ 64 - 1)
unfolding quantity_u64 quantity_loop text
largest_quantity = refl

too_large_quantity :
    quantity_u64 (ok (replicate 23 0 ++ (1 ∷ replicate 8 0))) (text "gas")
    ≡ err (text "gas: quantity exceeds 64 bits")
unfolding quantity_u64 quantity_loop text
too_large_quantity = refl
