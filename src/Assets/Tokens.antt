-- ===== src/Assets/Tokens.antt =====
-- domain/assets/token_registry.cpp. glaze's reader, eth_checksum_address and the largest number of
-- decimals belong to libraries and are parameters.
pub mod Unique
use izan_wallet.Base.{
  ℕ, ◌+◌, ◌==◌, ltb, leb, Bool, true, false, not, ◌&&◌, ◌||◌, List, [], ◌∷◌, ◌++◌, map,
  if◌then◌else◌, Option, none, some, Result, ok, err, ◌>>=◌, ◌>>◌, throw_if,
}
use izan_wallet.Base.Bytes.{Bytes, text, beq, to_string}
use izan_wallet.Net.{is_empty}
use izan_wallet.Chains.Registry.{ChainSpec, by_id}

pub record TokenSpec : Type 0 where
  pub chain_id : ℕ
  pub address : Bytes
  pub symbol : Bytes
  pub decimals : ℕ

-- std::tolower in the C locale.
abbrev pub lower_char : ℕ → ℕ
lower_char c = if leb b'A' c && leb c b'Z' then c + 32 else c

abbrev pub lower_of : Bytes → Bytes
lower_of = map lower_char

-- One chain, and one address whatever the case of its letters.
abbrev pub same_token : TokenSpec → TokenSpec → Bool
same_token have t =
    (have.chain_id == t.chain_id) && beq (lower_of have.address) (lower_of t.address)

unfoldable pub is_known : TokenSpec → List TokenSpec → Bool
is_known t [] = false
is_known t (have ∷ tokens) = same_token have t || is_known t tokens

module _ (eth_checksum_address : Bytes → Bytes) (max_decimals : ℕ) where
  -- The body of the loop: the token with its address checked. `seen` are the tokens before it.
  unfoldable pub check_token : List TokenSpec → TokenSpec → Result TokenSpec
  check_token seen t = do
    throw_if (t.chain_id == 0) (text "tokens config: chain_id 0 or missing")
    let checked = eth_checksum_address t.address
    throw_if (is_empty checked) (text "tokens config: bad address " ++ t.address)
    throw_if (is_empty t.symbol) (text "tokens config: " ++ (checked ++ text " missing symbol"))
    throw_if (ltb max_decimals t.decimals)
        (text "tokens config: " ++ (checked ++ text " decimals out of range"))
    throw_if (is_known (record t { address = checked }) seen) (
        text "tokens config: duplicate "
        ++ (checked ++ (text " on chain " ++ to_string t.chain_id)))
    ok (record t { address = checked })

  unfoldable pub check_tokens : List TokenSpec → List TokenSpec → Result (List TokenSpec)
  check_tokens seen [] = ok []
  check_tokens seen (t ∷ ts) = do
    t' ← check_token seen t
    rest ← check_tokens (t' ∷ seen) ts
    ok (t' ∷ rest)

  abbrev pub checked_all : Option (List TokenSpec) → Result (List TokenSpec)
  checked_all none = err (text "tokens config: not a valid token array")
  checked_all (some tokens) = check_tokens [] tokens

  unfoldable pub from_json : (Bytes → Option (List TokenSpec)) → Bytes → Result (List TokenSpec)
  from_json parse json = checked_all (parse json)

unfoldable pub tokens_for : List TokenSpec → ℕ → List TokenSpec
tokens_for [] chain_id = []
tokens_for (t ∷ ts) chain_id =
    let rest = tokens_for ts chain_id in if t.chain_id == chain_id then t ∷ rest else rest

abbrev pub on_chain : Option ChainSpec → Bool
on_chain none = false
on_chain (some c) = true

-- The loop over the tokens of `extra`.
unfoldable pub extend : List ChainSpec → List TokenSpec → List TokenSpec → List TokenSpec
extend chains tokens [] = tokens
extend chains tokens (t ∷ extra) =
    let longer = extend chains (tokens ++ t ∷ []) extra in
    let same = extend chains tokens extra in
    if on_chain (by_id chains t.chain_id) && not (is_known t tokens) then longer else same
