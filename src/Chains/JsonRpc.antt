-- ===== src/Chains/JsonRpc.antt =====
-- domain/chains/jsonrpc.cpp: the requests that are sent, and what is taken of a response.
pub mod Escape
pub mod Envelope
use izan_wallet.Base.{
  ℕ, ◌≡◌, refl, ap, ◌+◌, ◌/◌, ◌%◌, ◌==◌, Bool, true, false, List, [], ◌∷◌, ◌++◌, ltb, if◌then◌else◌,
  Option, none, some, Result, ok, err,
}
use izan_wallet.Base.Bytes.{Bytes, text, to_string}
use izan_wallet.Base.Hex.{hex_digit}
use izan_wallet.Json.{Json, Doubles, member, is_object, as_string, as_number, null}

unfoldable pub escape_char : ℕ → Bytes
escape_char c =
    if c == b'"'
    then b'\\' ∷ b'"' ∷ []
    else if c == b'\\'
    then b'\\' ∷ b'\\' ∷ []
    else if ltb c 0x20
    then b'\\' ∷ b'u' ∷ b'0' ∷ b'0' ∷ hex_digit (c / 16) ∷ hex_digit (c % 16) ∷ []
    else c ∷ []

unfoldable pub escape : Bytes → Bytes
escape [] = []
escape (c ∷ cs) = escape_char c ++ escape cs

-- Once `params_json` was read: `check` is what glaze made of it.
abbrev checked_request : Bytes → Bytes → ℕ → Option Json → Result Bytes
checked_request method params_json id none = err (text "jsonrpc: params is not valid JSON")
checked_request method params_json id (some check) = ok (
    text "{\"jsonrpc\":\"2.0\",\"id\":"
    ++ (to_string id
        ++ (text ",\"method\":\""
            ++ (escape method ++ (text "\",\"params\":" ++ (params_json ++ text "}"))))))

-- `parse` is glz::read_json.
unfoldable pub make_request : (Bytes → Option Json) → Bytes → Bytes → ℕ → Result Bytes
make_request parse method params_json id = checked_request method params_json id (parse params_json)

-- What a response comes to: the value, RpcError with its code and message, another exception, or a
-- conversion that the language leaves undefined.
pub data Reply (A : Type 0) : Type 0 where
  answered : A → Reply A
  refused : ℕ → Bytes → Reply A
  failed : Bytes → Reply A
  undefined : Reply A

abbrev pub then_reply : {A B : Type 0} → Reply A → (A → Reply B) → Reply B
then_reply (answered a) next = next a
then_reply (refused code message) next = refused code message
then_reply (failed what) next = failed what
then_reply undefined next = undefined

pub then_reply-eq-answered :
    {A B : Type 0} (r : Reply A) (next : A → Reply B) {b : B}
    → then_reply r next ≡ answered b
    → (a : A) × (r ≡ answered a) × (next a ≡ answered b)
then_reply-eq-answered (answered a) next e = (a, refl, e)
then_reply-eq-answered (refused code message) next e = cc
then_reply-eq-answered (failed what) next e = cc
then_reply-eq-answered undefined next e = cc

abbrev value_or : {A : Type 0} → A → Reply A → A
value_or default (answered a) = a
value_or default (refused code message) = default
value_or default (failed what) = default
value_or default undefined = default

pub answered-injective : {A : Type 0} {x y : A} → answered x ≡ answered y → x ≡ y
answered-injective {x = x} e = ap (value_or x) e

abbrev or_unknown : Option Bytes → Bytes
or_unknown (some message) = message
or_unknown none = text "unknown rpc error"

module _ (d : Doubles) where
  -- `int64_t code = … ? int64_t(e["code"].get_number()) : 0`, and then the message.
  unfoldable pub error_code : Option ℕ → Option ℕ
  error_code none = some 0
  error_code (some bits) = d.to_i64 bits

  abbrev pub refusal : Json → Option ℕ → Reply Json
  refusal e none = undefined
  refusal e (some code) = refused code (or_unknown (as_string (member (text "message") e)))

  unfoldable pub error_of : Json → Reply Json
  error_of e = refusal e (error_code (as_number (member (text "code") e)))

  -- Once the id is the expected one.
  abbrev pub parse_outcome : Json → Option Json → Option Json → Reply Json
  parse_outcome j (some e) result = error_of e
  parse_outcome j none none = failed (text "jsonrpc: no result and no error")
  parse_outcome j none (some r) = answered r

  abbrev pub parse_id : Json → ℕ → Option (Option ℕ) → Reply Json
  parse_id j expect_id none = failed (text "jsonrpc: response id mismatch")
  parse_id j expect_id (some none) = undefined
  parse_id j expect_id (some (some id)) =
      if id == expect_id
      then parse_outcome j (member (text "error") j) (member (text "result") j)
      else failed (text "jsonrpc: response id mismatch")

  abbrev pub convert : Option ℕ → Option (Option ℕ)
  convert none = none
  convert (some bits) = some (d.to_u64 bits)

  -- parse_envelope gives j["result"], all that its callers read.
  unfoldable pub parse_envelope : Option Json → ℕ → Reply Json
  parse_envelope none expect_id = failed (text "jsonrpc: malformed response")
  parse_envelope (some j) expect_id =
      if is_object j
      then parse_id j expect_id (convert (as_number (member (text "id") j)))
      else failed (text "jsonrpc: malformed response")

  abbrev rendered : Option Bytes → Reply Bytes
  rendered (some out) = answered out
  rendered none = failed (text "jsonrpc: cannot re-serialize result")

  unfoldable pub result_of : (Bytes → Option Json) → (Json → Option Bytes) → Bytes → ℕ → Reply Bytes
  result_of parse write body expect_id =
      then_reply (parse_envelope (parse body) expect_id) λ result. rendered (write result)

  abbrev unquoted : Option Bytes → Reply Bytes
  unquoted (some s) = answered s
  unquoted none = failed (text "jsonrpc: result is not a string")

  unfoldable pub result_string : (Bytes → Option Json) → Bytes → ℕ → Reply Bytes
  result_string parse body expect_id =
      then_reply (parse_envelope (parse body) expect_id)
        λ result. unquoted (as_string (some result))
