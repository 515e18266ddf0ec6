-- ===== src/Swap/Tests.antt =====
-- A quote with one byte of calldata, on amounts that are their texts.
use izan_wallet.Base.{◌≡◌, refl, false, [], ◌∷◌, some, ok}
use izan_wallet.Base.Bytes.{text, beq}
use izan_wallet.Json.{Json, string, object, field, no_fields, find}
use izan_wallet.Net.{is_empty}
use izan_wallet.Swap.{
  Amounts, SwapQuote, parse_quote, hex_bytes, hex_pairs, hex_u64, hex_number, strip_prefix, nibble,
}
use izan_wallet.Swap.Quotes.{Carried, parse_quote-Carried}

abbrev toy_amounts : Amounts (Unit {0})
toy_amounts = record {
  from_dec = λ s. ok tt;
  from_hex = λ s. ok tt;
  to_dec = λ n. [];
  is_zero = λ n. false;
}

abbrev answer : Json
answer = object (
    field (text "tool") (string (text "t")) (
      field (text "estimate")
        (object (
          field (text "approvalAddress") (string (text "a")) (
            field (text "fromAmount") (string (text "1")) (
              field (text "toAmount") (string (text "1"))
                (field (text "toAmountMin") (string (text "1")) no_fields)))))
        (field (text "transactionRequest")
          (object (
            field (text "to") (string (text "r")) (
              field (text "data") (string (text "0xAb")) (
                field (text "value") (string (text "0x0"))
                  (field (text "gasLimit") (string (text "0xff")) no_fields)))))
          no_fields)))

abbrev quote : SwapQuote (Unit {0})
quote = record {
  tool = text "t";
  approval_address = text "a";
  from_amount = tt;
  to_amount = tt;
  to_amount_min = tt;
  to = text "r";
  calldata = 0xab ∷ [];
  value = tt;
  gas_limit = 255;
}

answer-parse_quote : parse_quote toy_amounts (some answer) ≡ ok quote
unfolding parse_quote find beq text hex_bytes hex_pairs hex_u64 hex_number strip_prefix nibble
    is_empty
answer-parse_quote = refl

parse_quote-Carried_example : Carried toy_amounts (some answer) quote
parse_quote-Carried_example = parse_quote-Carried toy_amounts (some answer) quote answer-parse_quote
