-- ===== src/Esplora.antt =====
-- domain/btc/esplora.cpp: what the wallet reads of a block explorer's HTTP API.
pub mod Fees
pub mod Echo
pub mod History
mod Tests
use izan_wallet.Base.{
  ℕ, ◌+◌, ◌%◌, ◌^◌, ◌==◌, ltb, Bool, true, false, not, ◌&&◌, List, [], ◌∷◌, ◌++◌, if◌then◌else◌,
  take, Option, none, some, Result, ok, err, fault, ◌>>=◌, ◌>>◌, throw_if,
}
use izan_wallet.Base.Bytes.{Bytes, text, beq, to_string}
use izan_wallet.Base.Hex.{to_hex}
use izan_wallet.Json.{Json, Fields, Doubles, find, as_object, as_number, is_true}
use izan_wallet.Net.{
  HttpResponse, HttpsUrl, HttpsClient, Network, parse_https_url, is_empty, get, post,
}

abbrev pub object_or_throw : Bytes → Option Fields → Result Fields
object_or_throw what none = err what
object_or_throw what (some members) = ok members

-- A conversion of a double that has no result is undefined.
abbrev pub defined : Option ℕ → Result ℕ
defined none = fault
defined (some n) = ok n

pub record FeeTiers : Type 0 where
  pub fast : ℕ
  pub normal : ℕ
  pub slow : ℕ

abbrev pub min_u64 : ℕ → ℕ → ℕ
min_u64 a b = if ltb b a then b else a

abbrev pub or_else_tier : ℕ → ℕ → ℕ
or_else_tier t u = if t == 0 then u else t

-- From the four quotes on: what is missing, and the clamps.
unfoldable pub settle_tiers : ℕ → ℕ → ℕ → ℕ → FeeTiers
settle_tiers next_block second_block six day =
    let fast = or_else_tier (or_else_tier next_block second_block) 1 in
    let normal = or_else_tier six fast in
    let slow = or_else_tier day normal in
    let normal' = min_u64 normal fast in
    record { fast = fast; normal = normal'; slow = min_u64 slow normal' }

module _ (d : Doubles) where
  -- `uint64_t(v) + (v > double(uint64_t(v)) ? 1 : 0)`
  abbrev rounded_up : ℕ → Option ℕ → Result ℕ
  rounded_up v none = fault
  rounded_up v (some n) = ok ((if d.le v (d.of_u64 n) then n else n + 1) % 2 ^ 64)

  abbrev quoted : Option ℕ → Result ℕ
  quoted none = ok 0
  quoted (some v) = let rounded = rounded_up v (d.to_u64 v) in if d.le v 0 then ok 0 else rounded

  unfoldable pub tier : Fields → Bytes → Result ℕ
  tier members blocks = quoted (as_number (find blocks members))

  -- tier("2") is asked only when tier("1") gives nothing.
  unfoldable pub second_tier : Fields → ℕ → Result ℕ
  second_tier members next_block =
      let second = tier members (text "2") in if next_block == 0 then second else ok 0

  unfoldable pub parse_fee_estimates : Option Json → Result FeeTiers
  parse_fee_estimates doc = do
    members ← object_or_throw (text "btc: fee estimates not an object") (as_object doc)
    next_block ← tier members (text "1")
    second_block ← second_tier members next_block
    six ← tier members (text "6")
    day ← tier members (text "144")
    ok (settle_tiers next_block second_block six day)

  abbrev stat : Bytes → Option ℕ → Result ℕ
  stat name none = err (text "btc: chain_stats missing " ++ name)
  stat name (some bits) = ok bits

  -- The balance goes on to U256::from_u64.
  unfoldable pub parse_address_stats : Option Json → Result ℕ
  parse_address_stats doc = do
    members ← object_or_throw (text "btc: address answer not an object") (as_object doc)
    stats ←
        object_or_throw (text "btc: address answer missing chain_stats")
          (as_object (find (text "chain_stats") members))
    funded ← stat (text "funded_txo_sum") (as_number (find (text "funded_txo_sum") stats))
    spent ← stat (text "spent_txo_sum") (as_number (find (text "spent_txo_sum") stats))
    throw_if (not (d.le spent funded)) (text "btc: spent exceeds funded")
    defined (d.to_u64 (d.sub funded spent))

abbrev pub base_path_of : HttpsUrl → Bytes
base_path_of url = if beq url.target (text "/") then [] else url.target

module _ {W : Type 0} (net : Network W) where
  module _ {A : Type 0} (fn : HttpsClient → Bytes → W → W × Result A) where
    -- The body of the try block, with a client of its own for every endpoint.
    abbrev pub walk_url : Result HttpsUrl → W → W × Result A
    walk_url (ok url) w =
        fn (record { host = url.host; port = url.port; stream = false }) (base_path_of url) w
    walk_url (err what) w = (w, err what)
    walk_url fault w = (w, fault)

    abbrev pub throws : Result A → Option Bytes
    throws (err what) = some what
    throws (ok a) = none
    throws fault = none

    abbrev pub next_error : Bytes → Option Bytes → Bytes
    next_error last (some what) = what
    next_error last none = last

    abbrev pub gives : Option Bytes → Bool
    gives (some what) = false
    gives none = true

    -- The loop, with the last error so far.
    unfoldable pub walk_from : Bytes → List Bytes → W → W × Result A
    walk_from last_error [] w = (w, err (text "btc: " ++ last_error))
    walk_from last_error (base ∷ bases) w =
        let r = walk_url (parse_https_url base) w in
        let rest = walk_from (next_error last_error (throws r.1)) bases r.0 in
        if gives (throws r.1) then r else rest

    unfoldable pub esplora_walk : List Bytes → W → W × Result A
    esplora_walk = walk_from (text "no esplora endpoint configured")

  abbrev pub of_answer :
      {A : Type 0}
      → (HttpResponse → Result A)
      → W × HttpsClient × Result HttpResponse
      → W × Result A
  of_answer read (w, c, ok response) = (w, read response)
  of_answer read (w, c, err what) = (w, err what)
  of_answer read (w, c, fault) = (w, fault)

  abbrev pub if_200 : {A : Type 0} → (Bytes → Result A) → HttpResponse → Result A
  if_200 read r =
      let body = read r.body in
      if r.status == 200 then body else err (text "esplora answered " ++ to_string r.status)

  unfoldable pub fee_tiers : Doubles → (Bytes → Option Json) → List Bytes → W → W × Result FeeTiers
  fee_tiers d parse = esplora_walk λ c p w.
      of_answer (if_200 λ body. parse_fee_estimates d (parse body))
        (get net c (p ++ text "/fee-estimates") w)

  -- `valid` is whether crypto::valid_btc_address accepts the address.
  unfoldable pub native_balance :
      Doubles → (Bytes → Option Json) → Bool → List Bytes → Bytes → W → W × Result ℕ
  native_balance d parse valid rpc address w =
      if valid
      then esplora_walk
          (λ c p v.
            of_answer (if_200 λ body. parse_address_stats d (parse body))
              (get net c (p ++ (text "/address/" ++ address)) v))
          rpc w
      else (w, err (text "not a bitcoin address: " ++ address))

  abbrev cut_line : ℕ → Bytes → Bytes
  cut_line b [] = if (b == b'\n') then [] else if b == b'\r' then [] else b ∷ []
  cut_line b (c ∷ cs) = b ∷ c ∷ cs

  -- `while (!txid.empty() && (txid.back() == '\n' || txid.back() == '\r')) txid.pop_back();`
  unfoldable pub trim_lines : Bytes → Bytes
  trim_lines [] = []
  trim_lines (b ∷ bs) = cut_line b (trim_lines bs)

  abbrev pub echoed_txid : Bytes → Bytes → Result Bytes
  echoed_txid expected_txid txid =
      if beq txid expected_txid then ok txid else err (text "btc: node echoed txid " ++ txid)

  abbrev pub read_echo : Bytes → HttpResponse → Result Bytes
  read_echo expected_txid r =
      let echoed = echoed_txid expected_txid (trim_lines r.body) in
      if r.status == 200 then echoed else err (text "esplora refused the tx: " ++ take 200 r.body)

  unfoldable pub broadcast_tx : List Bytes → Bytes → Bytes → W → W × Result Bytes
  broadcast_tx rpc tx expected_txid w =
      if is_empty tx
      then (w, err (text "btc: empty transaction"))
      else esplora_walk
          (λ c p v.
            of_answer (read_echo expected_txid) (post net c (p ++ text "/tx") (to_hex tx) v))
          rpc w

  abbrev read_status : Option Fields → Result Bool
  read_status none = err (text "btc: status answer not an object")
  read_status (some members) = ok (is_true (find (text "confirmed") members))

  unfoldable pub tx_confirmed : (Bytes → Option Json) → List Bytes → Bytes → W → W × Result Bool
  tx_confirmed parse rpc txid =
      esplora_walk
        (λ c p w.
          of_answer (if_200 λ body. read_status (as_object (parse body)))
            (get net c (p ++ (text "/tx/" ++ (txid ++ text "/status"))) w))
        rpc
