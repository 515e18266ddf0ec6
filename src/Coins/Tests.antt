-- ===== src/Coins/Tests.antt =====
-- A selection among three coins.
use izan_wallet.Base.{[], ◌∷◌}
use izan_wallet.Coins.{Utxo, CoinSelection}

abbrev small : Utxo
small = record { txid = 1 ∷ []; vout = 0; value = 1000 }

abbrev large : Utxo
large = record { txid = 2 ∷ []; vout = 1; value = 5000 }

abbrev twin : Utxo
twin = record { txid = 1 ∷ []; vout = 3; value = 5000 }

-- 7000 takes the two large coins, at 209 bytes and 2 satoshi a byte.
abbrev chosen : CoinSelection
chosen = record { inputs = twin ∷ large ∷ []; fee = 418; change = 2582 }
