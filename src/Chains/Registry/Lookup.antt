-- ===== src/Chains/Registry/Lookup.antt =====
-- What holds of a registry that was read.
use izan_wallet.Base.{
  ℕ, ◌≡◌, ◌≢◌, refl, ap, ◌==◌, ==_refl, Bool, true, false, not, ◌||◌, List, [], ◌∷◌, Option, none,
  some, ok, throw_if, >>=-eq-ok, >>-ok, ok-injective, All, arith,
}
use izan_wallet.Base.Bytes.{Bytes}
use izan_wallet.Net.{is_empty}
use izan_wallet.Chains.Registry.{
  ChainSpec, seen_before, is_rpc_url, is_family, no_rpc, check_urls, check_spec, check_specs,
  checked, from_json, by_id,
}

-- A spec that can be used: a nonzero id, a name, a symbol, endpoints, each of them http or https,
-- and a family that the wallet knows.
pub record ValidSpec (c : ChainSpec) : Type 0 where
  pub has_id : c.chain_id ≢ 0
  pub has_name : is_empty c.name ≡ false
  pub has_symbol : is_empty c.symbol ≡ false
  pub has_rpc : no_rpc c.rpc ≡ false
  pub has_urls : All (λ url. is_rpc_url url ≡ true) c.rpc
  pub has_family : is_family c.family ≡ true

throw_if-ok : (bad : Bool) (what : Bytes) → throw_if bad what ≡ ok tt → bad ≡ false
throw_if-ok true what h = cc
throw_if-ok false what h = refl

check_urls-ok :
    (urls : List Bytes) → check_urls urls ≡ ok tt → All (λ url. is_rpc_url url ≡ true) urls
unfolding check_urls
check_urls-ok [] h = tt
check_urls-ok (url ∷ urls) h =
    let (good, rest) = >>-ok (not (is_rpc_url url)) _ _ h in
    (ground (arith, good), check_urls-ok urls rest)

check_spec-ok :
    (seen : List ℕ) (c : ChainSpec)
    → check_spec seen c ≡ ok tt
    → ValidSpec c × (seen_before c.chain_id seen ≡ false)
unfolding check_spec
check_spec-ok seen c h =
    let (id, h1) = >>-ok (c.chain_id == 0) _ _ h in
    let (fresh, h2) = >>-ok (seen_before c.chain_id seen) _ _ h1 in
    let (named, h3) = >>-ok (is_empty c.name || is_empty c.symbol) _ _ h2 in
    let (rpc, h4) = >>-ok (no_rpc c.rpc) _ _ h3 in
    let (_, urls, h5) = >>=-eq-ok (check_urls c.rpc) _ h4 in
    let family = throw_if-ok (not (is_family c.family)) _ h5 in
    (
      record {
        has_id = ground (arith, id);
        has_name = ground (arith, named);
        has_symbol = ground (arith, named);
        has_rpc = rpc;
        has_urls = check_urls-ok c.rpc urls;
        has_family = ground (arith, family);
      },
      fresh,
    )

abbrev Good : List ℕ → ChainSpec → Type 0
Good seen c = ValidSpec c × (seen_before c.chain_id seen ≡ false)

weaker :
    (n : ℕ) (seen : List ℕ) (cs : List ChainSpec) → All (Good (n ∷ seen)) cs → All (Good seen) cs
weaker n seen [] h = tt
weaker n seen (c ∷ cs) ((v, f), h) = ((v, ground (arith, f)), weaker n seen cs h)

check_specs-ok :
    (seen : List ℕ) (cs : List ChainSpec) → check_specs seen cs ≡ ok tt → All (Good seen) cs
unfolding check_specs
check_specs-ok seen [] h = tt
check_specs-ok seen (c ∷ cs) h =
    let (_, here, later) = >>=-eq-ok (check_spec seen c) _ h in
    (
      check_spec-ok seen c here,
      weaker c.chain_id seen cs (check_specs-ok (c.chain_id ∷ seen) cs later),
    )

-- Lookups of the specs behind the first one pass it by.
by_id-behind :
    (c : ChainSpec) (all ds : List ChainSpec) (seen : List ℕ)
    → All (Good (c.chain_id ∷ seen)) ds
    → All (λ d. ValidSpec d × (by_id all d.chain_id ≡ some d)) ds
    → All (λ d. ValidSpec d × (by_id (c ∷ all) d.chain_id ≡ some d)) ds
unfolding by_id
by_id-behind c all [] seen g h = tt
by_id-behind c all (d ∷ ds) seen ((_, fresh), g) ((v, at), h) =
    ((v, ground (arith, at, fresh)), by_id-behind c all ds seen g h)

check_specs-found :
    (seen : List ℕ) (cs : List ChainSpec)
    → check_specs seen cs ≡ ok tt
    → All (λ c. ValidSpec c × (by_id cs c.chain_id ≡ some c)) cs
unfolding check_specs
check_specs-found seen [] h = tt
check_specs-found seen (c ∷ cs) h =
    let (_, here, later) = >>=-eq-ok (check_spec seen c) _ h in
    (
      ((check_spec-ok seen c here).0, unfold by_id in rw (==_refl c.chain_id) refl),
      by_id-behind c cs cs seen (check_specs-ok (c.chain_id ∷ seen) cs later)
          (check_specs-found (c.chain_id ∷ seen) cs later),
    )

checked-found :
    (o : Option (List ChainSpec)) (reg : List ChainSpec)
    → checked o ≡ ok reg
    → (o ≡ some reg) × All (λ c. ValidSpec c × (by_id reg c.chain_id ≡ some c)) reg
checked-found none reg h = cc
checked-found (some cs) reg h =
    let (_, here, same) = >>=-eq-ok (check_specs [] cs) _ h in
    let e = ok-injective same in (ap some e, rw (← e) (check_specs-found [] cs here))

-- A registry that was read is the array in the file, every chain in it is valid, and looking up the
-- id of a chain finds that very chain: no two chains share an id.
pub from_json-by_id :
    (parse : Bytes → Option (List ChainSpec)) (json : Bytes) (reg : List ChainSpec)
    → from_json parse json ≡ ok reg
    → (parse json ≡ some reg) × All (λ c. ValidSpec c × (by_id reg c.chain_id ≡ some c)) reg
unfolding from_json
from_json-by_id parse json reg h = checked-found (parse json) reg h
