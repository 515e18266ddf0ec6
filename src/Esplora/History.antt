-- ===== src/Esplora/History.antt =====
-- domain/btc/esplora.cpp: parse_txs, one page of an address's transactions from its own side.
pub mod Confirmed
use izan_wallet.Base.{
  ℕ, Bool, true, false, not, ◌&&◌, List, [], ◌∷◌, ◌++◌, if◌then◌else◌, Option, none, some, Result,
  ok, err, fault, ◌>>=◌,
}
use izan_wallet.Base.Bytes.{Bytes, text, beq}
use izan_wallet.Json.{
  Json, Items, no_items, item, Fields, Doubles, find, as_object, as_array, as_string, as_number,
  is_true,
}
use izan_wallet.Net.{is_empty}
use izan_wallet.Esplora.{defined}

pub record BtcTx : Type 0 where
  pub txid : Bytes
  pub time : ℕ
  pub incoming : Bool
  pub amount : ℕ
  pub counterparty : Bytes

-- What one side of a transaction moves for the address, and the first other address on it.
pub record Side : Type 0 where
  pub moved : ℕ
  pub foreign : Bytes

abbrev pub or_empty : Option Bytes → Bytes
or_empty (some s) = s
or_empty none = []

abbrev pub items_of : Option Items → Items
items_of (some items) = items
items_of none = no_items

module _ (d : Doubles) (me : Bytes) where
  abbrev pub face : Side → Option Bytes → Option ℕ → Side
  face s none amount = s
  face s (some addr) none = s
  face s (some addr) (some amount) =
      if beq addr me
      then record s { moved = d.add s.moved amount }
      else if is_empty s.foreign
      then record s { foreign = addr }
      else s

  abbrev pub add_output : Side → Option Fields → Side
  add_output s none = s
  add_output s (some o) =
      face s (as_string (find (text "scriptpubkey_address") o)) (as_number (find (text "value") o))

  -- A coinbase has no prevout.
  abbrev pub add_input : Side → Option Fields → Side
  add_input s none = s
  add_input s (some i) = add_output s (as_object (find (text "prevout") i))

  unfoldable pub add_inputs : Side → Items → Side
  add_inputs s no_items = s
  add_inputs s (item j rest) = add_inputs (add_input s (as_object (some j))) rest

  unfoldable pub add_outputs : Side → Items → Side
  add_outputs s no_items = s
  add_outputs s (item j rest) = add_outputs (add_output s (as_object (some j))) rest

  -- `net = received - sent`, its sign, and its size; none for net 0.
  abbrev pub net_of : Bytes → ℕ → Side → Side → Result (Option BtcTx)
  net_of txid time i o =
      let gain = defined (d.to_u64 (d.sub o.moved i.moved)) in
      let loss = defined (d.to_u64 (d.sub i.moved o.moved)) in
      let incomes = gain >>= λ n. ok (
        some (record {
          txid = txid;
          time = time;
          incoming = true;
          amount = n;
          counterparty = i.foreign;
        })) in
      let spends = loss >>= λ n. ok (
        some (record {
          txid = txid;
          time = time;
          incoming = false;
          amount = n;
          counterparty = o.foreign;
        })) in
      if d.le o.moved i.moved then if d.le i.moved o.moved then ok none else spends else incomes

  abbrev pub timed : Bytes → Fields → Option ℕ → Result (Option BtcTx)
  timed txid tx none = ok none
  timed txid tx (some when) = defined (d.to_u64 when) >>= λ time.
      net_of txid time
        (add_inputs (record { moved = 0; foreign = [] })
          (items_of (as_array (find (text "vin") tx))))
        (add_outputs (record { moved = 0; foreign = [] })
          (items_of (as_array (find (text "vout") tx))))

  abbrev pub confirmed_tx : Bytes → Fields → Option Fields → Result (Option BtcTx)
  confirmed_tx txid tx none = ok none
  confirmed_tx txid tx (some status) =
      let rec_ = timed txid tx (as_number (find (text "block_time") status)) in
      if is_true (find (text "confirmed") status) then rec_ else ok none

  -- The body of the loop over the array: a record, or none for an entry that is passed over.
  unfoldable pub parse_tx : Option Fields → Result (Option BtcTx)
  parse_tx none = ok none
  parse_tx (some tx) =
      let txid = or_empty (as_string (find (text "txid") tx)) in
      let rec_ = confirmed_tx txid tx (as_object (find (text "status") tx)) in
      if is_empty txid then ok none else rec_

  abbrev pub keep : Option BtcTx → List BtcTx → List BtcTx
  keep none out = out
  keep (some tx) out = tx ∷ out

  unfoldable pub parse_tx_items : Items → Result (List BtcTx)
  parse_tx_items no_items = ok []
  parse_tx_items (item j rest) =
      let others = parse_tx_items rest in
      parse_tx (as_object (some j)) >>= λ tx. others >>= λ out. ok (keep tx out)

  abbrev pub array_or_throw : Option Items → Result (List BtcTx)
  array_or_throw none = err (text "btc: txs answer not an array")
  array_or_throw (some items) = parse_tx_items items

  unfoldable pub parse_txs : Option Json → Result (List BtcTx)
  parse_txs doc = array_or_throw (as_array doc)
