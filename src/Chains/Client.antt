-- ===== src/Chains/Client.antt =====
-- domain/chains/rpc_client.cpp: one call over the endpoints of a chain, in their order.
pub mod Order
use izan_wallet.Base.{
  ℕ, ◌+◌, ◌%◌, ◌^◌, ◌==◌, Bool, true, false, List, [], ◌∷◌, ◌++◌, if◌then◌else◌, Option, none, some,
  Result, ok, err, fault,
}
use izan_wallet.Base.Bytes.{Bytes, text, to_string}
use izan_wallet.Json.{Json, Doubles}
use izan_wallet.Net.{HttpResponse, HttpsUrl, HttpsClient, Network, parse_https_url, post}
use izan_wallet.Chains.JsonRpc.{
  Reply, answered, refused, failed, undefined, make_request, result_of, result_string,
}

-- An endpoint with its place in m_clients.
pub record Endpoint : Type 0 where
  pub url : Bytes
  pub client : Option HttpsClient

pub record RpcClient : Type 0 where
  pub chain_id : ℕ
  pub endpoints : List Endpoint
  pub next_id : ℕ

-- What the client calls: the network, and glaze.
pub record Outside (W : Type 0) : Type 0 where
  pub net : Network W
  pub parse : Bytes → Option Json
  pub write : Json → Option Bytes
  pub doubles : Doubles

module _ {W : Type 0} (o : Outside W) where
  -- A status other than 200 is thrown; otherwise the body is read.
  abbrev pub read_response : Bool → ℕ → HttpResponse → Reply Bytes
  read_response string_result id r =
      let text_of = result_string o.doubles o.parse r.body id in
      let raw_of = result_of o.doubles o.parse o.write r.body id in
      if r.status == 200
      then if string_result then text_of else raw_of
      else failed (text "http status " ++ to_string r.status)

  -- Only an exception that is no RpcError resets the client.
  abbrev pub kept : HttpsClient → Reply Bytes → Option HttpsClient
  kept c (answered value) = some c
  kept c (refused code message) = some c
  kept c (failed what) = none
  kept c undefined = some c

  abbrev pub after_post :
      Bool → ℕ → W × HttpsClient × Result HttpResponse → W × Option HttpsClient × Reply Bytes
  after_post string_result id (w, c, ok response) =
      let reply = read_response string_result id response in (w, kept c reply, reply)
  after_post string_result id (w, c, err what) = (w, none, failed what)
  after_post string_result id (w, c, fault) = (w, some c, undefined)

  abbrev pub client_or_new : HttpsUrl → Option HttpsClient → HttpsClient
  client_or_new url (some c) = c
  client_or_new url none = record { host = url.host; port = url.port; stream = false }

  -- The body of the loop's try block, and its handlers.
  abbrev pub ask_url :
      Bytes
      → Bool
      → ℕ
      → Option HttpsClient
      → Result HttpsUrl
      → W
      → W × Option HttpsClient × Reply Bytes
  ask_url request string_result id client (ok parsed) w =
      after_post string_result id (post o.net (client_or_new parsed client) parsed.target request w)
  ask_url request string_result id client (err what) w = (w, none, failed what)
  ask_url request string_result id client fault w = (w, client, undefined)

  unfoldable pub ask : Bytes → Bool → ℕ → Endpoint → W → W × Option HttpsClient × Reply Bytes
  ask request string_result id e w =
      ask_url request string_result id e.client (parse_https_url e.url) w

  abbrev pub goes_on : Reply Bytes → Bool
  goes_on (failed what) = true
  goes_on (answered value) = false
  goes_on (refused code message) = false
  goes_on undefined = false

  abbrev pub note : Bytes → Bytes → Reply Bytes → Bytes
  note failures url (failed what) =
      failures ++ (text "  " ++ (url ++ (text ": " ++ (what ++ text "\n"))))
  note failures url (answered value) = failures
  note failures url (refused code message) = failures
  note failures url undefined = failures

  module _ (request : Bytes) (string_result : Bool) (id : ℕ) (summary : Bytes) where
    -- The loop from an endpoint on, with the failures so far.
    unfoldable pub endpoint_loop : List Endpoint → Bytes → W → W × List Endpoint × Reply Bytes
    endpoint_loop [] failures w = (w, [], failed (summary ++ failures))
    endpoint_loop (e ∷ es) failures w =
        let (w', client, reply) = ask request string_result id e w in
        let e' : Endpoint = record e { client = client } in
        let (w'', es', reply') = endpoint_loop es (note failures e.url reply) w' in
        if goes_on reply then (w'', e' ∷ es', reply') else (w', e' ∷ es, reply)

  abbrev pub all_failed : ℕ → Bytes → Bytes
  all_failed chain_id method =
      text "rpc: chain "
      ++ (to_string chain_id ++ (text " all endpoints failed for " ++ (method ++ text ":\n")))

  -- `id` was drawn, so it is spent even when the parameters are no JSON.
  abbrev pub run_request : RpcClient → Bytes → Bool → Result Bytes → W → W × RpcClient × Reply Bytes
  run_request c method string_result (ok request) w =
      let (w', es, reply) =
        endpoint_loop request string_result c.next_id (all_failed c.chain_id method) c.endpoints []
          w in
      (w', record c { next_id = (c.next_id + 1) % 2 ^ 64; endpoints = es }, reply)
  run_request c method string_result (err what) w =
      (w, record c { next_id = (c.next_id + 1) % 2 ^ 64 }, failed what)
  run_request c method string_result fault w =
      (w, record c { next_id = (c.next_id + 1) % 2 ^ 64 }, undefined)

  unfoldable pub round_robin : Bytes → Bytes → Bool → RpcClient → W → W × RpcClient × Reply Bytes
  round_robin method params_json string_result c w =
      run_request c method string_result (make_request o.parse method params_json c.next_id) w

  abbrev pub call : Bytes → Bytes → RpcClient → W → W × RpcClient × Reply Bytes
  call method params_json = round_robin method params_json false

  abbrev pub call_string : Bytes → Bytes → RpcClient → W → W × RpcClient × Reply Bytes
  call_string method params_json = round_robin method params_json true
