-- ===== src/Coins.antt =====
-- domain/btc/coin_select.cpp: p2wpkh_vsize, select_coins and sweep_coins, in uint64_t.
pub mod Balance
pub mod Utxos
mod Tests
use izan_wallet.Base.{
  ℕ, ◌+◌, ◌-◌, ◌*◌, ◌%◌, ◌^◌, Bool, true, false, ◌&&◌, ◌||◌, not, List, [], ◌∷◌, ◌++◌, ◌==◌, ltb,
  leb, if◌then◌else◌, length, Result, ok, err, ◌>>=◌, ◌>>◌, throw_if,
}
use izan_wallet.Base.Bytes.{Bytes, text, beq}

pub record Utxo : Type 0 where
  pub txid : Bytes
  pub vout : ℕ
  pub value : ℕ

pub record CoinSelection : Type 0 where
  pub inputs : List Utxo
  pub fee : ℕ
  pub change : ℕ

abbrev pub u64_mod : ℕ
u64_mod = 2 ^ 64

abbrev pub dust_sats : ℕ
dust_sats = 546

pub p2wpkh_vsize : ℕ → ℕ → ℕ
p2wpkh_vsize inputs outputs = (11 + 68 * inputs + 31 * outputs) % u64_mod

-- `a.txid < b.txid`
unfoldable pub text_before : Bytes → Bytes → Bool
text_before [] [] = false
text_before [] (b ∷ bs) = true
text_before (a ∷ rest) [] = false
text_before (a ∷ rest) (b ∷ bs) = ltb a b || ((a == b) && text_before rest bs)

-- The order of the sort: value down, then txid and vout up.
unfoldable pub comes_before : Utxo → Utxo → Bool
comes_before a b =
    if not (a.value == b.value)
    then ltb b.value a.value
    else if not (beq a.txid b.txid)
    then text_before a.txid b.txid
    else ltb a.vout b.vout

unfoldable pub insert_coin : Utxo → List Utxo → List Utxo
insert_coin u [] = u ∷ []
insert_coin u (v ∷ vs) = if comes_before v u then v ∷ insert_coin u vs else u ∷ v ∷ vs

unfoldable pub sort_coins : List Utxo → List Utxo
sort_coins [] = []
sort_coins (u ∷ us) = insert_coin u (sort_coins us)

-- The fee of a transaction with a change output.
unfoldable pub fee_of : ℕ → ℕ → ℕ → ℕ → ℕ
fee_of rate input_vb output_vb n = (11 + input_vb * n + output_vb * 2) % u64_mod * rate % u64_mod

-- `a - b` in uint64_t
abbrev pub minus64 : ℕ → ℕ → ℕ
minus64 a b = (a + (u64_mod - b % u64_mod)) % u64_mod

unfoldable pub settle_coins : List Utxo → ℕ → ℕ → ℕ → CoinSelection
settle_coins chosen gathered amount fee =
    let change = minus64 (minus64 gathered amount) fee in
    if ltb change dust_sats
    then record { inputs = chosen; fee = minus64 gathered amount; change = 0 }
    else record { inputs = chosen; fee = fee; change = change }

unfoldable pub probe : ℕ → ℕ → ℕ → ℕ → List Utxo → ℕ → List Utxo → Result CoinSelection
probe amount rate input_vb output_vb chosen gathered [] =
    err (text "btc: coins cannot cover amount plus fee")
probe amount rate input_vb output_vb chosen gathered (u ∷ us) =
    let sum = (gathered + u.value) % u64_mod in
    let taken = chosen ++ u ∷ [] in
    let fee = fee_of rate input_vb output_vb (length taken) in
    let rest = probe amount rate input_vb output_vb taken sum us in
    if leb ((amount + fee) % u64_mod) sum then ok (settle_coins taken sum amount fee) else rest

unfoldable pub select_coins : List Utxo → ℕ → ℕ → ℕ → ℕ → Result CoinSelection
select_coins utxos amount feerate input_vb output_vb = do
  throw_if (amount == 0) (text "btc: zero amount")
  probe amount (if feerate == 0 then 1 else feerate) input_vb output_vb [] 0 (sort_coins utxos)

unfoldable pub sum_values : ℕ → List Utxo → ℕ
sum_values total [] = total
sum_values total (u ∷ us) = sum_values ((total + u.value) % u64_mod) us

unfoldable pub sweep_coins : List Utxo → ℕ → ℕ → ℕ → Result CoinSelection
sweep_coins utxos feerate input_vb output_vb = do
  throw_if (length utxos == 0) (text "btc: nothing to sweep")
  let rate = if feerate == 0 then 1 else feerate
  let fee = (11 + input_vb * length utxos + output_vb) % u64_mod * rate % u64_mod
  throw_if (leb (sum_values 0 utxos) ((fee + dust_sats) % u64_mod))
      (text "btc: the fee would eat the sweep")
  ok (record { inputs = utxos; fee = fee; change = 0 })
