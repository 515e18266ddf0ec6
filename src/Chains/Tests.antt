-- ===== src/Chains/Tests.antt =====
-- Calls over two endpoints, the first of which is down, on a toy network and a toy parser.
use izan_wallet.Base.{
  ℕ, ◌+◌, ◌≡◌, refl, true, false, [], ◌∷◌, ◌++◌, if◌then◌else◌, none, some, ok, err, All,
}
use izan_wallet.Base.Bytes.{Bytes, text, beq, to_string}
use izan_wallet.Json.Naturals.{naturals}
use izan_wallet.Json.{string, number, object, field, no_fields, find}
use izan_wallet.Net.{Network, parse_https_url, is_empty, split_at, do_request, send_request}
use izan_wallet.Chains.JsonRpc.{parse_envelope, result_string}
use izan_wallet.Chains.Client.{Endpoint, Outside, endpoint_loop, ask, goes_on}
use izan_wallet.Chains.Client.Order.{Decides, endpoint_loop-Decides, endpoint_loop_live}
use izan_wallet.Chains.Registry.{ChainSpec, from_json, check_specs, check_spec, check_urls, by_id}
use izan_wallet.Chains.Registry.Lookup.{ValidSpec, from_json-by_id}

-- The world counts the connections.
abbrev toy_network : Network ℕ
toy_network = record {
  connect = λ host port w. (w + 1, if beq host (text "down") then err (text "refused") else ok tt);
  exchange = λ host port request w. (w, ok (record { status = 200; body = text "0x1" }, false));
}

abbrev toy_outside : Outside ℕ
toy_outside = record {
  net = toy_network;
  parse = λ body.
      some (object (field (text "id") (number 1) (field (text "result") (string body) no_fields)));
  write = λ j. none;
  doubles = naturals;
}

abbrev down : Endpoint
down = record { url = text "https://down"; client = none }

abbrev up : Endpoint
up = record { url = text "https://up"; client = none }

endpoint_loop-Decides_example :
    Decides toy_outside
      (text "{}")
      true
      1
      (text "all failed")
      0
      []
      (down ∷ up ∷ [])
      (endpoint_loop toy_outside (text "{}") true 1 (text "all failed") (down ∷ up ∷ []) [] 0)
endpoint_loop-Decides_example =
    endpoint_loop-Decides toy_outside (text "{}") true 1 (text "all failed") (down ∷ up ∷ []) [] 0

up_answers : (v : ℕ) → goes_on toy_outside (ask toy_outside (text "{}") true 1 up v).2 ≡ false
unfolding ask parse_https_url is_empty split_at text beq send_request do_request result_string
    parse_envelope find
up_answers v = refl

endpoint_loop_live_example :
    goes_on toy_outside
      (endpoint_loop toy_outside
        (text "{}")
        true
        1
        (text "all failed")
        (down ∷ [] ++ up ∷ [])
        []
        0).2
    ≡ false
endpoint_loop_live_example =
    endpoint_loop_live toy_outside (text "{}") true 1 (text "all failed") (down ∷ []) [] up [] 0
      up_answers

-- One chain that goes through, and a second with the same id that does not.
abbrev mainnet : ChainSpec
mainnet = record {
  chain_id = 1;
  name = text "Ethereum";
  symbol = text "ETH";
  decimals = 18;
  rpc = text "https://up" ∷ [];
  explorer = [];
  history = [];
  testnet = false;
  family = text "evm";
}

mainnet-from_json : from_json (λ json. some (mainnet ∷ [])) (text "[]") ≡ ok (mainnet ∷ [])
unfolding from_json check_specs check_spec check_urls is_empty text beq to_string
mainnet-from_json = refl

twice-from_json :
    from_json (λ json. some (mainnet ∷ mainnet ∷ [])) (text "[]")
    ≡ err (text "chains config: duplicate chain_id 1")
unfolding from_json check_specs check_spec check_urls is_empty text beq to_string
twice-from_json = refl

from_json-by_id_example :
    (some (mainnet ∷ []) ≡ some (mainnet ∷ []))
    × All (λ c. ValidSpec c × (by_id (mainnet ∷ []) c.chain_id ≡ some c)) (mainnet ∷ [])
from_json-by_id_example =
    from_json-by_id (λ json. some (mainnet ∷ [])) (text "[]") (mainnet ∷ []) mainnet-from_json
