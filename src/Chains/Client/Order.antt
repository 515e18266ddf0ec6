-- ===== src/Chains/Client/Order.antt =====
-- In which order the endpoints are asked, and which of them decides.
use izan_wallet.Base.{
  Bool-cases, inl, inr, ℕ, ◌≡◌, refl, ap, Bool, true, false, List, [], ◌∷◌, ◌++◌, if◌then◌else◌,
  Option, none, Result, ok, err, fault,
}
use izan_wallet.Base.Bytes.{Bytes}
use izan_wallet.Net.{HttpsClient, HttpsUrl, HttpResponse, parse_https_url, post}
use izan_wallet.Chains.JsonRpc.{Reply, answered, refused, failed, undefined}
use izan_wallet.Chains.Client.{
  Endpoint, Outside, ask, goes_on, note, kept, after_post, ask_url, client_or_new, read_response,
  endpoint_loop,
}

abbrev pub dropped : List Endpoint → List Endpoint
dropped [] = []
dropped (e ∷ es) = record e { client = none } ∷ dropped es

module _ {W : Type 0} (o : Outside W) (request : Bytes) (string_result : Bool) (id : ℕ) where
  -- The endpoints, asked one after the other from the world `w` on, all fail, and leave the world
  -- `w'`; `failures` and `failures'` are the notes before and after.
  pub data AllFail : W → Bytes → List Endpoint → W → Bytes → Type 0 where
    nobody : {w : W} {failures : Bytes} → AllFail w failures [] w failures
    fails :
        {w w' w'' : W} {failures failures' what : Bytes} {e : Endpoint} {es : List Endpoint}
        → ask o request string_result id e w ≡ (w', none, failed what)
        → AllFail w' (note o failures e.url (failed what)) es w'' failures'
        → AllFail w failures (e ∷ es) w'' failures'

  -- What the loop may come to.
  pub data Decides (summary : Bytes) (w : W) (failures : Bytes) (es : List Endpoint)
      : W × List Endpoint × Reply Bytes → Type 0 where
    gives_up :
        {w' : W} {failures' : Bytes}
        → AllFail w failures es w' failures'
        → Decides summary w failures es (w', dropped es, failed (summary ++ failures'))
    settles :
        {w' w'' : W} {failures' : Bytes} {client : Option HttpsClient} {reply : Reply Bytes}
        (front back : List Endpoint) (e : Endpoint)
        → es ≡ front ++ e ∷ back
        → AllFail w failures front w' failures'
        → ask o request string_result id e w' ≡ (w'', client, reply)
        → goes_on o reply ≡ false
        → Decides summary w failures es
            (w'', dropped front ++ record e { client = client } ∷ back, reply)

  kept-failed :
      (w : W) (c : HttpsClient) (reply : Reply Bytes)
      → goes_on o reply ≡ true
      → (what : Bytes) × (◌≡◌ {A = W × Option HttpsClient × Reply Bytes}
          (w, kept o c reply, reply)
          (w, none, failed what))
  kept-failed w c (failed what) h = (what, refl)
  kept-failed w c (answered value) h = cc
  kept-failed w c (refused code message) h = cc
  kept-failed w c undefined h = cc

  after_post-failed :
      (r : W × HttpsClient × Result HttpResponse)
      → goes_on o (after_post o string_result id r).2 ≡ true
      → (what : Bytes) × (after_post o string_result id r ≡ (r.0, none, failed what))
  after_post-failed (w, c, ok response) h =
      kept-failed w c (read_response o string_result id response) h
  after_post-failed (w, c, err what) h = (what, refl)
  after_post-failed (w, c, fault) h = cc

  ask_url-failed :
      (client : Option HttpsClient) (parsed : Result HttpsUrl) (w : W)
      → goes_on o (ask_url o request string_result id client parsed w).2 ≡ true
      → (w' : W) × (what : Bytes) × (ask_url o request string_result id client parsed w
          ≡ (w', none, failed what))
  ask_url-failed client (ok url) w h =
      let r = post o.net (client_or_new o url client) url.target request w in
      let (what, e) = after_post-failed r h in (r.0, what, e)
  ask_url-failed client (err what) w h = (w, what, refl)
  ask_url-failed client fault w h = cc

  -- One more endpoint that failed in front.
  Decides-cons :
      {summary : Bytes} {w w' : W} {failures what : Bytes} (e : Endpoint) (es : List Endpoint)
      (r : W × List Endpoint × Reply Bytes)
      → ask o request string_result id e w ≡ (w', none, failed what)
      → Decides summary w' (note o failures e.url (failed what)) es r
      → Decides summary w failures (e ∷ es) (r.0, record e { client = none } ∷ r.1, r.2)
  Decides-cons e es r asked (gives_up all) = gives_up (fails asked all)
  Decides-cons e es r asked (settles front back e' split all at stop) =
      settles (e ∷ front) back e' (ap (◌∷◌ e) split) (fails asked all) at stop

  endpoint_step :
      (summary : Bytes) (w : W) (failures : Bytes) (e : Endpoint) (es : List Endpoint)
      (r : W × Option HttpsClient × Reply Bytes)
      → ask o request string_result id e w ≡ r
      → (goes_on o r.2 ≡ true → (w' : W) × (what : Bytes) × (r ≡ (w', none, failed what)))
      → ((fs : Bytes) (v : W)
          → Decides summary v fs es (endpoint_loop o request string_result id summary es fs v))
      → Decides summary w failures (e ∷ es) (
          let rest =
            endpoint_loop o request string_result id summary es (note o failures e.url r.2) r.0 in
          if goes_on o r.2
          then (rest.0, record e { client = r.1 } ∷ rest.1, rest.2)
          else (r.0, record e { client = r.1 } ∷ es, r.2))
  endpoint_step summary w failures e es (w', client, failed what) asked back next =
      let (v, what', same) = back refl in
      let is_none : client ≡ none = ap (λ r. r.1) same in
      rw is_none
        (Decides-cons e es _ (rw is_none at asked) (next (note o failures e.url (failed what)) w'))
  endpoint_step summary w failures e es (w', client, answered value) asked back next =
      settles [] es e refl nobody asked refl
  endpoint_step summary w failures e es (w', client, refused code message) asked back next =
      settles [] es e refl nobody asked refl
  endpoint_step summary w failures e es (w', client, undefined) asked back next =
      settles [] es e refl nobody asked refl

  ask-failed :
      (e : Endpoint) (w : W)
      → goes_on o (ask o request string_result id e w).2 ≡ true
      → (w' : W) × (what : Bytes) × (ask o request string_result id e w ≡ (w', none, failed what))
  unfolding ask
  ask-failed e w h = ask_url-failed e.client (parse_https_url e.url) w h

  -- The endpoints are asked in their order, each once, until one of them answers, refuses with an
  -- error of its own, or runs into undefined behaviour: that one decides, the clients of those
  -- before it are dropped, and those behind it are not touched. If all of them fail, all clients
  -- are dropped and the error lists every failure.
  pub endpoint_loop-Decides :
      (summary : Bytes) (es : List Endpoint) (failures : Bytes) (w : W)
      → Decides summary w failures es
          (endpoint_loop o request string_result id summary es failures w)
  unfolding endpoint_loop
  endpoint_loop-Decides summary [] failures w = gives_up nobody
  endpoint_loop-Decides summary (e ∷ es) failures w =
      endpoint_step summary w failures e es (ask o request string_result id e w) refl
        (ask-failed e w) λ fs v. endpoint_loop-Decides summary es fs v

  -- If one of the endpoints, whatever the state of the network, gives something other than a
  -- transport failure, then so does the call: failures of the endpoints before it cost time but not
  -- the answer.
  pub endpoint_loop_live :
      (summary : Bytes) (front back : List Endpoint) (e : Endpoint) (failures : Bytes) (w : W)
      → ((v : W) → goes_on o (ask o request string_result id e v).2 ≡ false)
      → goes_on o
          (endpoint_loop o request string_result id summary (front ++ e ∷ back) failures w).2
        ≡ false
  unfolding endpoint_loop
  endpoint_loop_live summary [] back e failures w up = rw (up w) (up w)
  endpoint_loop_live summary (f ∷ front) back e failures w up =
      elim (Bool-cases (goes_on o (ask o request string_result id f w).2)) [
        | inl next ↦ rw next (endpoint_loop_live summary front back e _ _ up)
        | inr stop ↦ rw stop stop
      ]
