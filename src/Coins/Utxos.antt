-- ===== src/Coins/Utxos.antt =====
-- domain/btc/coin_select.cpp: parse_utxos and fetch_utxos, the coins of an address.
use izan_wallet.Base.{
  ℕ, Bool, true, List, [], ◌∷◌, ◌++◌, if◌then◌else◌, Option, none, some, Result, ok, err, ◌>>=◌,
}
use izan_wallet.Base.Bytes.{Bytes, text}
use izan_wallet.Json.{
  Json, Items, no_items, item, Fields, Doubles, find, as_object, as_array, as_string, as_number,
  is_true,
}
use izan_wallet.Net.{Network, get}
use izan_wallet.Esplora.{defined, esplora_walk, of_answer, if_200}
use izan_wallet.Coins.{Utxo}

-- A status that is an object must say `confirmed`; one that is missing or is something else passes.
abbrev pub passes : Option Fields → Bool
passes none = true
passes (some status) = is_true (find (text "confirmed") status)

module _ (d : Doubles) where
  abbrev coin_of : Fields → Option Bytes → Option ℕ → Option ℕ → Result (Option Utxo)
  coin_of u none vout value = ok none
  coin_of u (some txid) none value = ok none
  coin_of u (some txid) (some vout) none = ok none
  coin_of u (some txid) (some vout) (some value) =
      let coin = defined (d.to_u32 vout) >>= λ n.
      defined (d.to_u64 value) >>= λ v. ok (some (record { txid = txid; vout = n; value = v })) in
      if passes (as_object (find (text "status") u)) then coin else ok none

  -- The body of the loop: a coin, or none for an entry that is passed over.
  unfoldable pub parse_utxo : Option Fields → Result (Option Utxo)
  parse_utxo none = ok none
  parse_utxo (some u) =
      coin_of u (as_string (find (text "txid") u)) (as_number (find (text "vout") u))
        (as_number (find (text "value") u))

  abbrev pub keep_coin : Option Utxo → List Utxo → List Utxo
  keep_coin none out = out
  keep_coin (some coin) out = coin ∷ out

  unfoldable pub parse_utxo_items : Items → Result (List Utxo)
  parse_utxo_items no_items = ok []
  parse_utxo_items (item j rest) =
      let others = parse_utxo_items rest in
      parse_utxo (as_object (some j)) >>= λ coin. others >>= λ out. ok (keep_coin coin out)

  abbrev utxo_array : Option Items → Result (List Utxo)
  utxo_array none = err (text "btc: utxo answer not an array")
  utxo_array (some items) = parse_utxo_items items

  unfoldable pub parse_utxos : Option Json → Result (List Utxo)
  parse_utxos doc = utxo_array (as_array doc)

  -- `valid` is whether crypto::valid_btc_address accepts the address.
  unfoldable pub fetch_utxos :
      {W : Type 0}
      → Network W
      → (Bytes → Option Json)
      → Bool
      → List Bytes
      → Bytes
      → W
      → W × Result (List Utxo)
  fetch_utxos net parse valid rpc address w =
      if valid
      then esplora_walk net
          (λ c p v.
            of_answer net (if_200 net λ body. parse_utxos (parse body))
              (get net c (p ++ (text "/address/" ++ (address ++ text "/utxo"))) v))
          rpc w
      else (w, err (text "not a bitcoin address: " ++ address))
