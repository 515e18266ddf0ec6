-- ===== src/Txflow/Tests.antt =====
-- A send on a toy node, whose hashes are the transactions themselves.
use izan_wallet.Base.{
  ◌+◌, ◌*◌, ◌≡◌, refl, false, [], ◌∷◌, ◌++◌, if◌then◌else◌, Bool-cases, ok-injective, ltb, inl, inr,
  ◌^◌, get_or, ◌-◌, none, some, Result, ok, err, ◌⊎◌, arith,
}
use izan_wallet.Base.Bytes.{
  Bytes, le_bytes, length-le_bytes, le_bytes-AllBytes, text, beq, to_string,
}
use izan_wallet.Base.Hex.{to_hex}
use izan_wallet.Json.Naturals.{naturals}
use izan_wallet.Json.{Json, null, string, number, object, field, no_fields, find}
use izan_wallet.Net.{parse_https_url, is_empty, split_at, do_request, send_request}
use izan_wallet.Quantity.{quantity_u64, quantity_loop}
use izan_wallet.Quantity.Value.{be_from, be_value, Folded, quantity_u64-be_value}
use izan_wallet.Chains.JsonRpc.{
  answered, make_request, escape, escape_char, result_string, result_of, parse_envelope,
}
use izan_wallet.Chains.Client.{RpcClient, Outside, call_string, round_robin, endpoint_loop, ask}
use izan_wallet.Txflow.{
  Crypto, TxReceipt, FeeQuote, hex_of, broadcast, parse_receipt, receipt_of, receipt_field,
  status_of, read_quantity, quote_fees, parse_base_fee,
}
use izan_wallet.Txflow.Receipt.{Told, parse_receipt-Told}
use izan_wallet.Txflow.Sent.{broadcast-answered, quote_fees-cap}

-- 31 zeros and a 9.
abbrev nine : Bytes
nine = le_bytes 32 (9 * 256 ^ 31)

quantity_u64-be_value_example :
    Folded (text "gas") (be_value nine) (quantity_u64 (ok nine) (text "gas"))
quantity_u64-be_value_example =
    quantity_u64-be_value (text "gas") nine (length-le_bytes 32 (9 * 256 ^ 31))
      (le_bytes-AllBytes 32 (9 * 256 ^ 31))

abbrev five : Bytes
five = le_bytes 32 (5 * 256 ^ 31)

-- Sums of one byte. Every quantity is read as 5.
unfoldable byte_add : Bytes → Bytes → Result Bytes
byte_add a b =
    let sum = be_value a + be_value b in
    if ltb sum 256 then ok (sum ∷ []) else err (text "overflow")

abbrev toy_crypto : Crypto
toy_crypto = record {
  eth_checksum_address = λ a. a;
  from_hex = λ hex. ok five;
  print_hex = λ be. text "0x5";
  checked_add = byte_add;
  tx_hash = λ raw. raw;
}

abbrev toy_node : Outside (Unit {0})
toy_node = record {
  net = record {
    connect = λ host port w. (w, ok tt);
    exchange = λ host port request w. (w, ok (record { status = 200; body = text "0x07" }, false));
  };
  parse = λ body.
      some (object (field (text "id") (number 1) (field (text "result") (string body) no_fields)));
  write = λ j. none;
  doubles = naturals;
}

abbrev toy_client : RpcClient
toy_client = record {
  chain_id = 1;
  endpoints = record { url = text "https://up"; client = none } ∷ [];
  next_id = 1;
}

seven-broadcast : (broadcast toy_crypto toy_node (7 ∷ []) toy_client tt).2 ≡ answered (7 ∷ [])
unfolding broadcast round_robin endpoint_loop ask parse_https_url is_empty split_at send_request
    do_request make_request escape escape_char to_string to_hex result_string parse_envelope find
    text beq
seven-broadcast = refl

broadcast-answered_example :
    (is_empty (7 ∷ []) ≡ false)
    × (7 ∷ [] ≡ toy_crypto.tx_hash (7 ∷ []))
    × ((call_string toy_node
          (text "eth_sendRawTransaction")
          (text "[\"" ++ (hex_of (7 ∷ []) ++ text "\"]"))
          toy_client
          tt).2
        ≡ answered (hex_of (7 ∷ [])))
broadcast-answered_example =
    broadcast-answered toy_crypto toy_node (7 ∷ []) (7 ∷ []) toy_client tt seven-broadcast

abbrev toy_receipt : Json
toy_receipt = object (
    field (text "status") (string (text "0x0")) (
      field (text "blockNumber") (string (text "0x5")) (
        field (text "gasUsed") (string (text "0x5"))
          (field (text "effectiveGasPrice") (string (text "0x5")) no_fields))))

abbrev told_receipt : TxReceipt
told_receipt = record {
  success = false;
  block_number = 5;
  gas_used = 5;
  effective_gas_price = five;
}

toy-parse_receipt : parse_receipt toy_crypto (some toy_receipt) ≡ answered (some told_receipt)
unfolding parse_receipt receipt_of receipt_field status_of read_quantity quantity_u64 quantity_loop
    find text beq le_bytes
toy-parse_receipt = refl

parse_receipt-Told_example :
    ((some toy_receipt ≡ some null) × (some told_receipt ≡ none))
    ⊎ ((j : Json) × (r : TxReceipt) × (some toy_receipt ≡ some j)
        × (some told_receipt ≡ some r)
        × Told toy_crypto j r)
parse_receipt-Told_example =
    parse_receipt-Told toy_crypto (some toy_receipt) (some told_receipt) toy-parse_receipt

abbrev fives : FeeQuote
fives = record {
  max_priority_fee_per_gas = five;
  max_fee_per_gas = 15 ∷ [];
  base_fee_per_gas = five;
}

-- The node echoes each request, whose id is its byte 22.
abbrev fee_node : Outside (Unit {0})
fee_node = record toy_node {
  net = record {
    connect = λ host port w. (w, ok tt);
    exchange = λ host port request w. (w, ok (record { status = 200; body = request.body }, false));
  };
  parse = λ body. some (
      object (
        field (text "id") (number (get_or body 22 48 - 48)) (
          field (text "result") (string (text "0x5"))
            (field (text "baseFeePerGas") (string (text "0x5")) no_fields))));
  doubles = naturals;
  write = λ j. some [];
}

byte_add-sum : (a b c : Bytes) → byte_add a b ≡ ok c → be_value c ≡ be_value a + be_value b
unfolding byte_add be_from
byte_add-sum a b c h = elim (Bool-cases (ltb (be_value a + be_value b) 256)) [
  | inl fits ↦ rw (← ok-injective (rw fits at h)) (omega arith)
  | inr large ↦ cc
]

fives-quote_fees : (quote_fees toy_crypto fee_node toy_client tt).2 ≡ answered fives
unfolding quote_fees round_robin endpoint_loop ask parse_https_url is_empty split_at send_request
    do_request make_request escape escape_char to_string result_of result_string parse_envelope
    parse_base_fee find text beq le_bytes byte_add be_from
fives-quote_fees = refl

quote_fees-cap_example :
    be_value fives.max_fee_per_gas
    ≡ 2 * be_value fives.base_fee_per_gas + be_value fives.max_priority_fee_per_gas
quote_fees-cap_example =
    quote_fees-cap toy_crypto fee_node toy_client tt fives fives-quote_fees byte_add-sum
