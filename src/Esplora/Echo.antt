-- ===== src/Esplora/Echo.antt =====
-- What is known when a Bitcoin broadcast returns.
use izan_wallet.Base.{
  ◌≡◌, sym, ◌∙◌, ◌==◌, false, List, [], ◌∷◌, ◌++◌, Result, ok, err, fault, ok-injective, Bool-cases,
  inl, inr,
}
use izan_wallet.Base.Bytes.{Bytes, text, beq, beq→eq}
use izan_wallet.Base.Hex.{to_hex}
use izan_wallet.Net.{HttpResponse, HttpsUrl, HttpsClient, Network, parse_https_url, is_empty, post}
use izan_wallet.Esplora.{
  walk_url, throws, gives, next_error, walk_from, esplora_walk, of_answer, echoed_txid, trim_lines,
  read_echo, broadcast_tx, base_path_of,
}

module _ {W A : Type 0} (net : Network W) (fn : HttpsClient → Bytes → W → W × Result A)
    (P : A → Type 0) where
  module _ (good : (c : HttpsClient) (p : Bytes) (w : W) (a : A) → (fn c p w).1 ≡ ok a → P a) where
    walk_url-holds :
        (url : Result HttpsUrl) (w : W) (a : A) → (walk_url net fn url w).1 ≡ ok a → P a
    walk_url-holds (ok url) w a h = good _ (base_path_of url) w a h
    walk_url-holds (err what) w a h = cc
    walk_url-holds fault w a h = cc

    -- What a walk returns, some endpoint returned.
    walk_from-holds :
        (last_error : Bytes) (bases : List Bytes) (w : W) (a : A)
        → (walk_from net fn last_error bases w).1 ≡ ok a
        → P a
    unfolding walk_from
    walk_from-holds last_error [] w a h = cc
    walk_from-holds last_error (base ∷ bases) w a h =
        let r = walk_url net fn (parse_https_url base) w in
        elim (Bool-cases (gives net fn (throws net fn r.1))) [
          | inl given ↦ walk_url-holds (parse_https_url base) w a (rw given at h)
          | inr thrown ↦
              walk_from-holds (next_error net fn last_error (throws net fn r.1)) bases r.0 a
                (rw thrown at h)
        ]

module _ {W : Type 0} (net : Network W) where
  echoed_txid-ok :
      (expected_txid echo txid : Bytes)
      → echoed_txid net expected_txid echo ≡ ok txid
      → txid ≡ expected_txid
  echoed_txid-ok expected_txid echo txid h = elim (Bool-cases (beq echo expected_txid)) [
    | inl same ↦ sym (ok-injective (rw same at h)) ∙ beq→eq echo expected_txid same
    | inr other ↦ cc
  ]

  read_echo-ok :
      (expected_txid txid : Bytes) (r : HttpResponse)
      → read_echo net expected_txid r ≡ ok txid
      → txid ≡ expected_txid
  read_echo-ok expected_txid txid r h = elim (Bool-cases (r.status == 200)) [
    | inl fine ↦ echoed_txid-ok expected_txid (trim_lines net r.body) txid (rw fine at h)
    | inr other ↦ cc
  ]

  of_echo-ok :
      (expected_txid txid : Bytes) (r : W × HttpsClient × Result HttpResponse)
      → (of_answer net (read_echo net expected_txid) r).1 ≡ ok txid
      → txid ≡ expected_txid
  of_echo-ok expected_txid txid (w, c, ok response) h = read_echo-ok expected_txid txid response h
  of_echo-ok expected_txid txid (w, c, err what) h = cc
  of_echo-ok expected_txid txid (w, c, fault) h = cc

  -- A Bitcoin broadcast that returns was handed a transaction that is not empty, and what it returns
  -- is the id that was computed here: an explorer that echoes another id never counts as success,
  -- whatever the endpoints and the network do.
  pub broadcast_tx-ok :
      (rpc : List Bytes) (tx expected_txid txid : Bytes) (w : W)
      → (broadcast_tx net rpc tx expected_txid w).1 ≡ ok txid
      → (is_empty tx ≡ false) × (txid ≡ expected_txid)
  unfolding broadcast_tx esplora_walk
  broadcast_tx-ok rpc tx expected_txid txid w h = elim (Bool-cases (is_empty tx)) [
    | inl nothing ↦ cc
    | inr there ↦ (
      there,
      walk_from-holds net _ (λ t. t ≡ expected_txid)
          (λ c p v t e. of_echo-ok expected_txid t (post net c (p ++ text "/tx") (to_hex tx) v) e) _
          rpc w txid (rw there at h),
    )
  ]
