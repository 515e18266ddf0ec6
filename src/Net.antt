-- ===== src/Net.antt =====
-- platform/net/http_client.cpp: how an https URL is split, and the client that keeps one connection
-- to a server. The network is a parameter: a world `W` that every call on it changes.
pub mod Urls
mod Tests
use izan_wallet.Base.{
  ℕ, zero, suc, ◌==◌, Bool, true, false, ◌||◌, List, [], ◌∷◌, ◌++◌, if◌then◌else◌, length, take,
  drop, Option, none, some, Result, ok, err, fault, ◌>>=◌, ◌>>◌, throw_if,
}
use izan_wallet.Base.Bytes.{Bytes, text, beq}

pub record HttpResponse : Type 0 where
  pub status : ℕ
  pub body : Bytes

pub record HttpsUrl : Type 0 where
  pub host : Bytes
  pub port : Bytes
  pub target : Bytes

unfoldable pub is_empty : Bytes → Bool
is_empty [] = true
is_empty (b ∷ bs) = false

-- The text before the first `c`, and the text from it on; `s.find(c)` is npos when that is empty.
unfoldable pub split_at : ℕ → Bytes → Bytes × Bytes
split_at c [] = ([], [])
split_at c (b ∷ bs) =
    let rest = split_at c bs in if b == c then ([], b ∷ bs) else (b ∷ rest.0, rest.1)

abbrev pub or_slash : Bytes → Bytes
or_slash [] = text "/"
or_slash (b ∷ bs) = b ∷ bs

abbrev pub port_of : Bytes → Bytes
port_of [] = text "443"
port_of (colon ∷ port) = port

unfoldable pub parse_https_url : Bytes → Result HttpsUrl
parse_https_url url = do
  throw_if (if beq (take 8 url) (text "https://") then false else true)
      (text "parse_https_url: not https: " ++ url)
  let (authority, target) = split_at b'/' (drop 8 url)
  let (host, colon) = split_at b':' authority
  throw_if (is_empty host || is_empty (port_of colon)) (text "parse_https_url: empty host or port")
  ok (record { host = host; port = port_of colon; target = or_slash target })

-- `stream` is whether m_stream is there.
pub record HttpsClient : Type 0 where
  pub host : Bytes
  pub port : Bytes
  pub stream : Bool

pub record Request : Type 0 where
  pub posts : Bool
  pub target : Bytes
  pub body : Bytes

-- What Boost does: `connect` resolves, connects and shakes hands; `exchange` writes the request and
-- reads the response, with whether the server closes the connection behind it.
pub record Network (W : Type 0) : Type 0 where
  pub connect : Bytes → Bytes → W → W × Result (Unit {0})
  pub exchange : Bytes → Bytes → Request → W → W × Result (HttpResponse × Bool)

module _ {W : Type 0} (net : Network W) where
  abbrev pub after_exchange :
      HttpsClient → W × Result (HttpResponse × Bool) → W × HttpsClient × Result HttpResponse
  after_exchange c (w, ok (response, closes)) =
      (w, record c { stream = if closes then false else true }, ok response)
  after_exchange c (w, err what) = (w, c, err what)
  after_exchange c (w, fault) = (w, c, fault)

  abbrev pub exchange_on : HttpsClient → Request → W → W × HttpsClient × Result HttpResponse
  exchange_on c request w =
      after_exchange (record c { stream = true }) (net.exchange c.host c.port request w)

  -- The stream is made before the handshake, so that a failed one leaves it there.
  abbrev pub after_connect :
      HttpsClient → Request → W × Result (Unit {0}) → W × HttpsClient × Result HttpResponse
  after_connect c request (w, ok done) = exchange_on c request w
  after_connect c request (w, err what) = (w, record c { stream = true }, err what)
  after_connect c request (w, fault) = (w, c, fault)

  unfoldable pub do_request : HttpsClient → Request → W → W × HttpsClient × Result HttpResponse
  do_request c request w =
      if c.stream
      then exchange_on c request w
      else after_connect c request (net.connect c.host c.port w)

  -- `request` closes the connection and tries once more when the first try throws.
  abbrev pub retry :
      Request → W × HttpsClient × Result HttpResponse → W × HttpsClient × Result HttpResponse
  retry request (w, c, ok response) = (w, c, ok response)
  retry request (w, c, err what) = do_request (record c { stream = false }) request w
  retry request (w, c, fault) = (w, c, fault)

  unfoldable pub send_request : HttpsClient → Request → W → W × HttpsClient × Result HttpResponse
  send_request c request w = retry request (do_request c request w)

  abbrev pub post : HttpsClient → Bytes → Bytes → W → W × HttpsClient × Result HttpResponse
  post c target body w = send_request c (record { posts = true; target = target; body = body }) w

  abbrev pub get : HttpsClient → Bytes → W → W × HttpsClient × Result HttpResponse
  get c target w = send_request c (record { posts = false; target = target; body = [] }) w
