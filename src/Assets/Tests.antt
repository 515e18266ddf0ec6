-- ===== src/Assets/Tests.antt =====
-- A registry of one token, extended with the same token in other letters, one of an unknown chain and
-- a new one.
use izan_wallet.Base.{ℕ, ◌≡◌, refl, true, false, List, [], ◌∷◌, ◌++◌, All, some, ok}
use izan_wallet.Base.Bytes.{Bytes, text, beq}
use izan_wallet.Net.{is_empty}
use izan_wallet.Chains.Registry.{ChainSpec, by_id}
use izan_wallet.Assets.Tokens.{
  TokenSpec, from_json, check_tokens, check_token, is_known, extend, on_chain,
}
use izan_wallet.Assets.Tokens.Unique.{Unique, extend-from_json}

abbrev chain : ChainSpec
chain = record {
  chain_id = 1;
  name = [];
  symbol = [];
  decimals = 18;
  rpc = [];
  explorer = [];
  history = [];
  testnet = false;
  family = [];
}

abbrev token : ℕ → Bytes → TokenSpec
token chain_id address = record {
  chain_id = chain_id;
  address = address;
  symbol = b'T' ∷ [];
  decimals = 6;
}

abbrev own : List TokenSpec
own = token 1 (b'A' ∷ []) ∷ []

abbrev extra : List TokenSpec
extra = token 1 (b'a' ∷ []) ∷ token 2 (b'c' ∷ []) ∷ token 1 (b'c' ∷ []) ∷ []

own-from_json : from_json (λ a. a) 77 (λ json. some own) [] ≡ ok own
unfolding from_json check_tokens check_token is_known is_empty text
own-from_json = refl

own-extend : extend (chain ∷ []) own extra ≡ token 1 (b'A' ∷ []) ∷ token 1 (b'c' ∷ []) ∷ []
unfolding extend by_id is_known beq
own-extend = refl

extend-from_json_example :
    Unique own
    × Unique (extend (chain ∷ []) own extra)
    × (added : List TokenSpec) × (extend (chain ∷ []) own extra ≡ own ++ added)
    × All (λ t. on_chain (by_id (chain ∷ []) t.chain_id) ≡ true) added
extend-from_json_example =
    extend-from_json (λ a. a) 77 (λ json. some own) [] (chain ∷ []) own extra own-from_json
