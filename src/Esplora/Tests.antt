-- ===== src/Esplora/Tests.antt =====
-- An explorer's answers, on doubles that are whole numbers.
use izan_wallet.Base.{◌≡◌, refl, Bool, true, false, [], ◌∷◌, some, ok}
use izan_wallet.Base.Bytes.{text, beq}
use izan_wallet.Base.Hex.{to_hex}
use izan_wallet.Json.Naturals.{naturals}
use izan_wallet.Json.{
  Json, Items, no_items, item, boolean, number, string, array, object, field, no_fields, find,
  as_array,
}
use izan_wallet.Net.{Network, is_empty, split_at, parse_https_url, send_request, do_request}
use izan_wallet.Esplora.{
  parse_fee_estimates, tier, second_tier, settle_tiers, broadcast_tx, esplora_walk, walk_from,
  trim_lines,
}
use izan_wallet.Esplora.Fees.{Ordered, parse_fee_estimates-Ordered}
use izan_wallet.Esplora.Echo.{broadcast_tx-ok}
use izan_wallet.Esplora.History.{
  BtcTx, parse_txs, parse_tx, parse_tx_items, add_inputs, add_outputs,
}
use izan_wallet.Esplora.History.Confirmed.{Ledger, parse_txs-Ledger}

-- The tier for a day is above the one for an hour.
abbrev odd_market : Json
odd_market = object (
    field (text "1") (number 9)
      (field (text "6") (number 4) (field (text "144") (number 7) no_fields)))

odd-parse_fee_estimates :
    parse_fee_estimates naturals (some odd_market) ≡ ok (record { fast = 9; normal = 4; slow = 4 })
unfolding parse_fee_estimates tier second_tier settle_tiers find text beq
odd-parse_fee_estimates = refl

parse_fee_estimates-Ordered_example : Ordered (record { fast = 9; normal = 4; slow = 4 })
parse_fee_estimates-Ordered_example =
    parse_fee_estimates-Ordered naturals (some odd_market)
      (record { fast = 9; normal = 4; slow = 4 }) odd-parse_fee_estimates

-- The second endpoint takes the transaction.
abbrev toy_network : Network (Unit {0})
toy_network = record {
  connect = λ host port w. (w, ok tt);
  exchange = λ host port request w. (w, ok (record { status = 200; body = text "ab\n" }, false));
}

ab-broadcast_tx :
    (broadcast_tx toy_network
      (text "http://down" ∷ text "https://up" ∷ [])
      (1 ∷ [])
      (text "ab")
      tt).1
    ≡ ok (text "ab")
unfolding broadcast_tx esplora_walk walk_from parse_https_url split_at is_empty trim_lines to_hex
    send_request do_request text beq
ab-broadcast_tx = refl

broadcast_tx-ok_example : (is_empty (1 ∷ []) ≡ false) × (text "ab" ≡ text "ab")
broadcast_tx-ok_example =
    broadcast_tx-ok toy_network (text "http://down" ∷ text "https://up" ∷ []) (1 ∷ []) (text "ab")
      (text "ab") tt ab-broadcast_tx

-- 30 arrive, of which nothing was spent; a second entry is not confirmed.
abbrev output : Json
output = object (
    field (text "scriptpubkey_address") (string (text "me"))
      (field (text "value") (number 30) no_fields))

abbrev entry : Bool → Json
entry confirmed = object (
    field (text "txid") (string (text "t")) (
      field (text "status")
        (object (
          field (text "confirmed") (boolean confirmed)
            (field (text "block_time") (number 5) no_fields)))
        (field (text "vout") (array (item output no_items)) no_fields)))

abbrev page : Json
page = array (item (entry false) (item (entry true) no_items))

abbrev arrived : BtcTx
arrived = record { txid = text "t"; time = 5; incoming = true; amount = 30; counterparty = [] }

page-parse_txs : parse_txs naturals (text "me") (some page) ≡ ok (arrived ∷ [])
unfolding parse_txs parse_tx parse_tx_items add_inputs add_outputs find is_empty text beq
page-parse_txs = refl

parse_txs-Ledger_example :
    (items : Items) × (as_array (some page) ≡ some items)
    × Ledger naturals (text "me") items (arrived ∷ [])
parse_txs-Ledger_example =
    parse_txs-Ledger naturals (text "me") (some page) (arrived ∷ []) page-parse_txs
