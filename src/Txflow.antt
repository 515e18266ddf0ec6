-- ===== src/Txflow.antt =====
-- domain/tx/txflow.cpp: the network half of a send. The addresses, the 256-bit numbers and the hash
-- of a transaction belong to the crypto library, which is a parameter.
pub mod Receipt
pub mod Sent
mod Tests
use izan_wallet.Base.{
  ℕ, Bool, true, false, List, [], ◌∷◌, ◌++◌, if◌then◌else◌, Option, none, some, Result, ok, err,
  fault,
}
use izan_wallet.Base.Bytes.{Bytes, text, beq}
use izan_wallet.Base.Hex.{to_hex}
use izan_wallet.Json.{
  Json, null, boolean, number, string, array, object, member, is_object, as_string,
}
use izan_wallet.Net.{is_empty}
use izan_wallet.Quantity.{quantity_u64}
use izan_wallet.Chains.JsonRpc.{Reply, answered, refused, failed, undefined, then_reply}
use izan_wallet.Chains.Client.{RpcClient, Outside, call, call_string}

-- eth_checksum_address gives "" for what is no address; units::U256 is given by its 32 bytes, most
-- significant first, and its reader, its printer and its checked sum.
pub record Crypto : Type 0 where
  pub eth_checksum_address : Bytes → Bytes
  pub from_hex : Bytes → Result Bytes
  pub print_hex : Bytes → Bytes
  pub checked_add : Bytes → Bytes → Result Bytes
  pub tx_hash : Bytes → Bytes

abbrev pub lift : {A : Type 0} → Result A → Reply A
lift (ok a) = answered a
lift (err what) = failed what
lift fault = undefined

-- The part of Eip1559Tx that an estimate reads.
pub record Draft : Type 0 where
  pub to : Bytes
  pub value : Bytes
  pub calldata : Bytes

pub record TxReceipt : Type 0 where
  pub success : Bool
  pub block_number : ℕ
  pub gas_used : ℕ
  pub effective_gas_price : Bytes

pub record FeeQuote : Type 0 where
  pub max_priority_fee_per_gas : Bytes
  pub max_fee_per_gas : Bytes
  pub base_fee_per_gas : Bytes

abbrev pub hex_of : Bytes → Bytes
hex_of bytes = text "0x" ++ to_hex bytes

abbrev field_text : Bytes → Option Bytes → Reply Bytes
field_text name (some s) = answered s
field_text name none = failed (text "receipt: missing field " ++ name)

-- `field(name)`
unfoldable pub receipt_field : Json → Bytes → Reply Bytes
receipt_field j name = field_text name (as_string (member name j))

unfoldable pub status_of : Bytes → Reply Bool
status_of status =
    if beq status (text "0x1")
    then answered true
    else if beq status (text "0x0")
    then answered false
    else failed (text "receipt: unexpected status " ++ status)

module _ (k : Crypto) where
  unfoldable pub require_address : Bytes → Reply Bytes
  require_address address =
      let checked = k.eth_checksum_address address in
      if is_empty checked then failed (text "not an address: " ++ address) else answered checked

  unfoldable pub read_quantity : Bytes → Bytes → Reply ℕ
  read_quantity hex what = lift (quantity_u64 (k.from_hex hex) what)

  abbrev base_fee_of : Option Bytes → Reply Bytes
  base_fee_of (some fee) = lift (k.from_hex fee)
  base_fee_of none = failed (text "block: no baseFeePerGas (pre-London?)")

  unfoldable pub parse_base_fee : Option Json → Reply Bytes
  parse_base_fee none = failed (text "block: malformed json")
  parse_base_fee (some j) =
      if is_object j
      then base_fee_of (as_string (member (text "baseFeePerGas") j))
      else failed (text "block: not an object")

  unfoldable pub receipt_of : Json → Reply TxReceipt
  receipt_of j = then_reply (receipt_field j (text "status")) λ status.
      then_reply (status_of status) λ success.
        then_reply (receipt_field j (text "blockNumber")) λ block.
          then_reply (read_quantity block (text "receipt blockNumber")) λ block_number.
            then_reply (receipt_field j (text "gasUsed")) λ gas.
              then_reply (read_quantity gas (text "receipt gasUsed")) λ gas_used.
                then_reply (receipt_field j (text "effectiveGasPrice")) λ price.
                  then_reply (lift (k.from_hex price)) λ effective_gas_price. answered (record {
                    success = success;
                    block_number = block_number;
                    gas_used = gas_used;
                    effective_gas_price = effective_gas_price;
                  })

  unfoldable pub parse_receipt : Option Json → Reply (Option TxReceipt)
  parse_receipt none = failed (text "receipt: malformed json")
  parse_receipt (some null) = answered none
  parse_receipt (some (object members)) =
      then_reply (receipt_of (object members)) λ r. answered (some r)
  parse_receipt (some (boolean b)) = failed (text "receipt: not an object")
  parse_receipt (some (number bits)) = failed (text "receipt: not an object")
  parse_receipt (some (string s)) = failed (text "receipt: not an object")
  parse_receipt (some (array items)) = failed (text "receipt: not an object")

  module _ {W : Type 0} (o : Outside W) where
    -- Calls change the client and the world; what follows them does not run when they throw.
    abbrev pub Step : Type 0 → Type 0
    Step A = RpcClient → W → W × RpcClient × Reply A

    abbrev pub with_reply :
        {A B : Type 0} → W × RpcClient × Reply A → (A → Reply B) → W × RpcClient × Reply B
    with_reply (w, c, reply) next = (w, c, then_reply reply next)

    abbrev after_address : {A : Type 0} → Reply Bytes → (Bytes → Step A) → Step A
    after_address (answered a) next c w = next a c w
    after_address (refused code message) next c w = (w, c, refused code message)
    after_address (failed what) next c w = (w, c, failed what)
    after_address undefined next c w = (w, c, undefined)

    unfoldable pub next_nonce : Bytes → Step ℕ
    next_nonce address = after_address (require_address address) λ addr c w.
        with_reply
          (call_string o (text "eth_getTransactionCount")
            (text "[\"" ++ (addr ++ text "\",\"pending\"]")) c w)
          λ hex. read_quantity hex (text "eth_getTransactionCount")

    abbrev pub estimate_params : Bytes → Draft → Bytes
    estimate_params sender draft =
        text "[{\"from\":\""
        ++ (sender
            ++ (text "\",\"to\":\""
                ++ (hex_of draft.to
                    ++ (text "\",\"value\":\""
                        ++ (k.print_hex draft.value
                            ++ (text "\""
                                ++ ((if is_empty draft.calldata
                                      then []
                                      else text ",\"data\":\""
                                        ++ (hex_of draft.calldata ++ text "\""))
                                    ++ text "}]")))))))

    unfoldable pub estimate_gas : Bytes → Draft → Step ℕ
    estimate_gas from draft = after_address (require_address from) λ sender c w.
        with_reply (call_string o (text "eth_estimateGas") (estimate_params sender draft) c w)
          λ hex. read_quantity hex (text "eth_estimateGas")

    abbrev echo_checked : Bytes → Bytes → Reply Bytes
    echo_checked local echoed =
        if beq echoed (hex_of local)
        then answered local
        else failed (
            text "broadcast: node echoed hash "
            ++ (echoed ++ (text ", raw bytes hash to " ++ hex_of local)))

    unfoldable pub broadcast : Bytes → Step Bytes
    broadcast raw c w =
        let sent =
          call_string o (text "eth_sendRawTransaction") (text "[\"" ++ (hex_of raw ++ text "\"]")) c
            w in
        if is_empty raw
        then (w, c, failed (text "broadcast: empty transaction"))
        else with_reply sent (echo_checked (k.tx_hash raw))

    abbrev quote_of : Bytes → Bytes → Reply FeeQuote
    quote_of base tip = then_reply (lift (k.checked_add base base)) λ twice.
        then_reply (lift (k.checked_add twice tip)) λ cap. answered (record {
          max_priority_fee_per_gas = tip;
          max_fee_per_gas = cap;
          base_fee_per_gas = base;
        })

    abbrev with_base : W × RpcClient × Reply Bytes → W × RpcClient × Reply FeeQuote
    with_base (w, c, answered base) =
        with_reply (call_string o (text "eth_maxPriorityFeePerGas") (text "[]") c w)
          λ tip_hex. then_reply (lift (k.from_hex tip_hex)) (quote_of base)
    with_base (w, c, refused code message) = (w, c, refused code message)
    with_base (w, c, failed what) = (w, c, failed what)
    with_base (w, c, undefined) = (w, c, undefined)

    unfoldable pub quote_fees : Step FeeQuote
    quote_fees c w = with_base (
        with_reply (call o (text "eth_getBlockByNumber") (text "[\"latest\",false]") c w)
          λ block_json. parse_base_fee (o.parse block_json))

    unfoldable pub transaction_receipt : Bytes → Step (Option TxReceipt)
    transaction_receipt hash c w =
        with_reply
          (call o (text "eth_getTransactionReceipt") (text "[\"" ++ (hex_of hash ++ text "\"]")) c
            w)
          λ result_json. parse_receipt (o.parse result_json)
