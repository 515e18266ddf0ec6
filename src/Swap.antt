-- ===== src/Swap.antt =====
-- domain/swap/lifi.cpp: the quotes of an aggregator. units::U256 is a parameter, by its reader of
-- decimals, its reader of hexadecimals and its test for zero; U is its type.
pub mod Quotes
mod Tests
use izan_wallet.Base.{
  ℕ, zero, suc, ◌+◌, ◌-◌, ◌*◌, ◌%◌, ◌^◌, ◌==◌, ltb, leb, Bool, true, false, not, ◌&&◌, ◌||◌, List,
  [], ◌∷◌, ◌++◌, if◌then◌else◌, length, take, drop, Option, none, some, Result, ok, err, fault,
  ◌>>=◌, ◌>>◌, throw_if,
}
use izan_wallet.Base.Bytes.{Bytes, text, beq, to_string}
use izan_wallet.Json.{
  Json, Items, no_items, item, Fields, Doubles, find, as_object, as_array, as_string, as_number,
}
use izan_wallet.Net.{HttpResponse, HttpsClient, Network, is_empty, get}
use izan_wallet.Esplora.{defined}

pub record Amounts (U : Type 0) : Type 0 where
  pub from_dec : Bytes → Result U
  pub from_hex : Bytes → Result U
  pub to_dec : U → Bytes
  pub is_zero : U → Bool

pub record SwapQuote (U : Type 0) : Type 0 where
  pub tool : Bytes
  pub approval_address : Bytes
  pub from_amount : U
  pub to_amount : U
  pub to_amount_min : U
  pub to : Bytes
  pub calldata : Bytes
  pub value : U
  pub gas_limit : ℕ

pub record TokenListing : Type 0 where
  pub address : Bytes
  pub symbol : Bytes
  pub name : Bytes
  pub decimals : ℕ

abbrev pub found_or_throw : Bytes → Option Json → Result Json
found_or_throw name (some j) = ok j
found_or_throw name none = err (text "lifi: quote missing " ++ name)

abbrev pub member_of : Bytes → Option Fields → Result Json
member_of name none = err (text "lifi: not an object")
member_of name (some members) = found_or_throw name (find name members)

abbrev pub member : Json → Bytes → Result Json
member obj name = member_of name (as_object (some obj))

abbrev pub string_or_throw : Bytes → Option Bytes → Result Bytes
string_or_throw name (some s) = ok s
string_or_throw name none = err (text "lifi: quote field not a string: " ++ name)

-- `text(obj, name)`
abbrev pub text_of : Json → Bytes → Result Bytes
text_of obj name = member obj name >>= λ v. string_or_throw name (as_string (some v))

unfoldable pub nibble : ℕ → Result ℕ
nibble c =
    if leb b'0' c && leb c b'9'
    then ok (c - b'0')
    else if leb b'a' c && leb c b'f'
    then ok (c - b'a' + 10)
    else if leb b'A' c && leb c b'F'
    then ok (c - b'A' + 10)
    else err (text "lifi: bad hex in calldata")

unfoldable pub strip_prefix : Bytes → Bytes
strip_prefix hex =
    if beq (take 2 hex) (text "0x") || beq (take 2 hex) (text "0X") then drop 2 hex else hex

-- The loop over the pairs; the length is even.
unfoldable pub hex_pairs : Bytes → Result Bytes
hex_pairs [] = ok []
hex_pairs (h ∷ []) = fault
hex_pairs (h ∷ l ∷ hex) = do
  hi ← nibble h
  lo ← nibble l
  rest ← hex_pairs hex
  ok ((hi * 16 + lo) ∷ rest)

unfoldable pub hex_bytes : Bytes → Result Bytes
hex_bytes hex =
    let digits = strip_prefix hex in
    let bytes = hex_pairs digits in
    if length digits % 2 == 0 then bytes else err (text "lifi: odd calldata length")

-- `v = v << 4 | nibble(c)` in uint64_t.
unfoldable pub hex_number : ℕ → Bytes → Result ℕ
hex_number v [] = ok v
hex_number v (c ∷ cs) = nibble c >>= λ n. hex_number ((v * 16 + n) % 2 ^ 64) cs

unfoldable pub hex_u64 : Bytes → Result ℕ
hex_u64 hex =
    let digits = strip_prefix hex in
    let number = hex_number 0 digits in
    if is_empty digits || ltb 16 (length digits)
    then err (text "lifi: gas limit out of range")
    else number

abbrev pub json_or_throw : Option Json → Result Json
json_or_throw none = err (text "lifi: quote is not JSON")
json_or_throw (some doc) = ok doc

module _ {U : Type 0} (u : Amounts U) where
  unfoldable pub parse_quote : Option Json → Result (SwapQuote U)
  parse_quote json = do
    doc ← json_or_throw json
    estimate ← member doc (text "estimate")
    request ← member doc (text "transactionRequest")
    tool ← text_of doc (text "tool")
    approval_address ← text_of estimate (text "approvalAddress")
    from_amount ← text_of estimate (text "fromAmount") >>= u.from_dec
    to_amount ← text_of estimate (text "toAmount") >>= u.from_dec
    to_amount_min ← text_of estimate (text "toAmountMin") >>= u.from_dec
    to ← text_of request (text "to")
    calldata ← text_of request (text "data") >>= hex_bytes
    value ← text_of request (text "value") >>= u.from_hex
    gas_limit ← text_of request (text "gasLimit") >>= hex_u64
    throw_if (is_empty calldata) (text "lifi: quote carries no calldata")
    throw_if (u.is_zero to_amount_min) (text "lifi: quote guarantees nothing")
    ok (record {
      tool = tool;
      approval_address = approval_address;
      from_amount = from_amount;
      to_amount = to_amount;
      to_amount_min = to_amount_min;
      to = to;
      calldata = calldata;
      value = value;
      gas_limit = gas_limit;
    })

  unfoldable pub quote_target : ℕ → Bytes → Bytes → U → Bytes → Bytes → Bytes
  quote_target chain_id from_token to_token amount from_address integrator =
      text "/v1/quote?fromChain="
      ++ (to_string chain_id
          ++ (text "&toChain="
              ++ (to_string chain_id
                  ++ (text "&fromToken="
                      ++ (from_token
                          ++ (text "&toToken="
                              ++ (to_token
                                  ++ (text "&fromAmount="
                                      ++ (u.to_dec amount
                                          ++ (text "&fromAddress="
                                              ++ (from_address
                                                  ++ (text "&integrator=" ++ integrator))))))))))))

  abbrev pub refusal_text : ℕ → Option Bytes → Result (SwapQuote U)
  refusal_text status (some message) = err (text "lifi: " ++ message)
  refusal_text status none = err (text "lifi: quote answered " ++ to_string status)

  abbrev pub message_of : Option Fields → Option Bytes
  message_of none = none
  message_of (some members) = as_string (find (text "message") members)

  -- From the response on; `parse` is glz::read_json.
  unfoldable pub read_quote : (Bytes → Option Json) → HttpResponse → Result (SwapQuote U)
  read_quote parse res =
      let quote = parse_quote (parse res.body) in
      if res.status == 200
      then quote
      else refusal_text res.status (message_of (as_object (parse res.body)))

abbrev or_empty : Option Bytes → Bytes
or_empty (some s) = s
or_empty none = []

module _ (d : Doubles) (max_byte : ℕ) where
  -- `uint8_t(dec)` of a number between 0 and 255, whose bits `max_byte` gives.
  abbrev listing_of : Fields → Option ℕ → Result (Option TokenListing)
  listing_of t none = ok none
  listing_of t (some bits) =
      let row = defined (d.to_u64 bits) >>= λ n. ok (
        some (record {
          address = or_empty (as_string (find (text "address") t));
          symbol = or_empty (as_string (find (text "symbol") t));
          name = or_empty (as_string (find (text "name") t));
          decimals = n;
        })) in
      if is_empty (or_empty (as_string (find (text "address") t)))
        || is_empty (or_empty (as_string (find (text "symbol") t)))
      then ok none
      else if not (d.le 0 bits) || not (d.le bits max_byte)
      then ok none
      else row

  abbrev row_of : Option Fields → Result (Option TokenListing)
  row_of none = ok none
  row_of (some t) = listing_of t (as_number (find (text "decimals") t))

  abbrev keep_row : Option TokenListing → List TokenListing → List TokenListing
  keep_row none rows = rows
  keep_row (some row) rows = row ∷ rows

  unfoldable pub list_rows : Items → Result (List TokenListing)
  list_rows no_items = ok []
  list_rows (item j rest) =
      let others = list_rows rest in
      row_of (as_object (some j)) >>= λ row. others >>= λ rows. ok (keep_row row rows)

  abbrev chain_rows : Option Items → Result (List TokenListing)
  chain_rows none = err (text "lifi: token list missing this chain")
  chain_rows (some items) = list_rows items

  abbrev tokens_rows : ℕ → Option Fields → Result (List TokenListing)
  tokens_rows chain_id none = err (text "lifi: token list missing tokens")
  tokens_rows chain_id (some by_chain) = chain_rows (as_array (find (to_string chain_id) by_chain))

  abbrev root_rows : ℕ → Option Fields → Result (List TokenListing)
  root_rows chain_id none = err (text "lifi: token list not an object")
  root_rows chain_id (some root) = tokens_rows chain_id (as_object (find (text "tokens") root))

  unfoldable pub parse_token_list : Option Json → ℕ → Result (List TokenListing)
  parse_token_list doc chain_id = root_rows chain_id (as_object doc)
