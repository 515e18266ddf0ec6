-- ===== src/Coins/Balance.antt =====
-- The money of a coin selection.
use izan_wallet.Base.{ℕ, ◌+◌, ◌%◌, ◌≡◌, List, [], ◌∷◌, ◌⊎◌, ◌≤◌}
use izan_wallet.Coins.{Utxo, CoinSelection, u64_mod, dust_sats}

-- The sum of the values, without a bound.
unfoldable pub worth : List Utxo → ℕ
worth [] = 0
worth (u ∷ us) = u.value + worth us

-- What goes out, the fee included, is what comes in, in uint64_t, and no change is dust.
abbrev pub Balances : ℕ → CoinSelection → Type 0
Balances amount sel =
    ((amount + sel.fee + sel.change) % u64_mod ≡ worth sel.inputs % u64_mod)
    × ((sel.change ≡ 0) ⊎ (dust_sats ≤ sel.change))
