-- ===== src/Chains/Registry.antt =====
-- domain/chains/chain_spec.cpp: the registry of chains. glaze reads the array of specs and is a
-- parameter; what it reads is checked as a whole.
pub mod Lookup
use izan_wallet.Base.{
  ℕ, ◌==◌, Bool, true, false, not, ◌&&◌, ◌||◌, List, [], ◌∷◌, ◌++◌, if◌then◌else◌, length, take,
  Option, none, some, Result, ok, err, fault, ◌>>=◌, ◌>>◌, throw_if,
}
use izan_wallet.Base.Bytes.{Bytes, text, beq, to_string}
use izan_wallet.Net.{is_empty}

pub record ChainSpec : Type 0 where
  pub chain_id : ℕ
  pub name : Bytes
  pub symbol : Bytes
  pub decimals : ℕ
  pub rpc : List Bytes
  pub explorer : Bytes
  pub history : Bytes
  pub testnet : Bool
  pub family : Bytes

abbrev pub seen_before : ℕ → List ℕ → Bool
seen_before id [] = false
seen_before id (n ∷ ns) = (n == id) || seen_before id ns

abbrev pub starts_with : Bytes → Bytes → Bool
starts_with s prefix = beq (take (length prefix) s) prefix

abbrev pub is_rpc_url : Bytes → Bool
is_rpc_url url = starts_with url (text "https://") || starts_with url (text "http://")

abbrev pub is_family : Bytes → Bool
is_family family = beq family (text "evm") || (beq family (text "sol") || beq family (text "btc"))

abbrev pub no_rpc : List Bytes → Bool
no_rpc [] = true
no_rpc (url ∷ urls) = false

unfoldable pub check_urls : List Bytes → Result (Unit {0})
check_urls [] = ok tt
check_urls (url ∷ urls) =
    throw_if (not (is_rpc_url url)) (text "chains config: bad rpc url " ++ url) >> check_urls urls

-- The body of the loop, `seen` being the ids before this one.
unfoldable pub check_spec : List ℕ → ChainSpec → Result (Unit {0})
check_spec seen c = do
  throw_if (c.chain_id == 0) (text "chains config: chain_id 0 or missing")
  throw_if (seen_before c.chain_id seen)
      (text "chains config: duplicate chain_id " ++ to_string c.chain_id)
  throw_if (is_empty c.name || is_empty c.symbol)
      (text "chains config: chain " ++ (to_string c.chain_id ++ text " missing name or symbol"))
  throw_if (no_rpc c.rpc)
      (text "chains config: chain " ++ (to_string c.chain_id ++ text " has no rpc endpoints"))
  check_urls c.rpc
  throw_if (not (is_family c.family)) (
      text "chains config: unknown family \""
      ++ (c.family ++ (text "\" on chain " ++ to_string c.chain_id)))

unfoldable pub check_specs : List ℕ → List ChainSpec → Result (Unit {0})
check_specs seen [] = ok tt
check_specs seen (c ∷ cs) = check_spec seen c >> check_specs (c.chain_id ∷ seen) cs

abbrev pub checked : Option (List ChainSpec) → Result (List ChainSpec)
checked none = err (text "chains config: not a valid chain array")
checked (some specs) = check_specs [] specs >> ok specs

unfoldable pub from_json : (Bytes → Option (List ChainSpec)) → Bytes → Result (List ChainSpec)
from_json parse json = checked (parse json)

unfoldable pub by_id : List ChainSpec → ℕ → Option ChainSpec
by_id [] chain_id = none
by_id (c ∷ cs) chain_id =
    let rest = by_id cs chain_id in if c.chain_id == chain_id then some c else rest
