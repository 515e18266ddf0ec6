-- ===== src/Assets/Tokens/Unique.antt =====
-- No token is in a registry twice, and an extension changes no token that was there.
use izan_wallet.Base.{
  ℕ, ◌≡◌, refl, sym, ◌∙◌, ◌==◌, ltb, true, false, not, ◌&&◌, ◌||◌, List, [], ◌∷◌, ◌++◌, append-nil,
  append_assoc, Option, none, some, ok, >>=-eq-ok, >>-ok, ok-injective, All, arith, Bool-cases, inl,
  inr,
}
use izan_wallet.Base.Bytes.{Bytes, beq}
use izan_wallet.Net.{is_empty}
use izan_wallet.Chains.Registry.{ChainSpec, by_id}
use izan_wallet.Assets.Tokens.{
  TokenSpec, lower_of, same_token, is_known, check_token, check_tokens, checked_all, from_json,
  on_chain, extend,
}

-- Each token is another one than all behind it.
abbrev pub Unique : List TokenSpec → Type 0
Unique [] = Unit {0}
Unique (t ∷ ts) = (is_known t ts ≡ false) × Unique ts

beq_sym : (xs ys : Bytes) → beq xs ys ≡ beq ys xs
unfolding beq
beq_sym [] [] = refl
beq_sym [] (y ∷ ys) = refl
beq_sym (x ∷ xs) [] = refl
beq_sym (x ∷ xs) (y ∷ ys) = ground (arith, beq_sym xs ys)

same_token_sym : (s t : TokenSpec) → same_token s t ≡ same_token t s
same_token_sym s t = ground (arith, beq_sym (lower_of s.address) (lower_of t.address))

is_known-append :
    (t : TokenSpec) (xs ys : List TokenSpec)
    → is_known t (xs ++ ys) ≡ (is_known t xs || is_known t ys)
unfolding is_known
is_known-append t [] ys = refl
is_known-append t (x ∷ xs) ys = ground (arith, is_known-append t xs ys)

Unique-snoc :
    (t : TokenSpec) (ts : List TokenSpec)
    → is_known t ts ≡ false
    → Unique ts
    → Unique (ts ++ t ∷ [])
unfolding is_known
Unique-snoc t [] h u = (refl, tt)
Unique-snoc t (x ∷ ts) h u = (
  is_known-append x ts (t ∷ []) ∙ ground (arith, h, u.0, same_token_sym x t),
  Unique-snoc t ts (ground (arith, h)) u.1,
)

-- The tokens of `seen` are none of those that follow.
abbrev Fresh : List TokenSpec → List TokenSpec → Type 0
Fresh seen out = All (λ t. is_known t seen ≡ false) out

Fresh-head :
    (t : TokenSpec) (seen out : List TokenSpec) → Fresh (t ∷ seen) out → is_known t out ≡ false
unfolding is_known
Fresh-head t seen [] f = refl
Fresh-head t seen (x ∷ out) (h, f) = ground (arith, h, same_token_sym t x, Fresh-head t seen out f)

Fresh-tail : (t : TokenSpec) (seen out : List TokenSpec) → Fresh (t ∷ seen) out → Fresh seen out
unfolding is_known
Fresh-tail t seen [] f = tt
Fresh-tail t seen (x ∷ out) (h, f) = (ground (arith, h), Fresh-tail t seen out f)

module _ (eth_checksum_address : Bytes → Bytes) (max_decimals : ℕ) where
  check_token-fresh :
      (seen : List TokenSpec) (t t' : TokenSpec)
      → check_token eth_checksum_address max_decimals seen t ≡ ok t'
      → is_known t' seen ≡ false
  unfolding check_token
  check_token-fresh seen t t' h =
      let checked = eth_checksum_address t.address in
      let (_, h1) = >>-ok (t.chain_id == 0) _ _ h in
      let (_, h2) = >>-ok (is_empty checked) _ _ h1 in
      let (_, h3) = >>-ok (is_empty t.symbol) _ _ h2 in
      let (_, h4) = >>-ok (ltb max_decimals t.decimals) _ _ h3 in
      let (fresh, h5) = >>-ok (is_known (record t { address = checked }) seen) _ _ h4 in
      rw (← ok-injective h5) fresh

  check_tokens-Unique :
      (seen ts out : List TokenSpec)
      → check_tokens eth_checksum_address max_decimals seen ts ≡ ok out
      → Fresh seen out × Unique out
  unfolding check_tokens
  check_tokens-Unique seen [] out h = rw (← ok-injective h) (tt, tt)
  check_tokens-Unique seen (t ∷ ts) out h =
      let (t', here, h1) = >>=-eq-ok (check_token eth_checksum_address max_decimals seen t) _ h in
      let (rest, later, h2) =
        >>=-eq-ok (check_tokens eth_checksum_address max_decimals (t' ∷ seen) ts) _ h1 in
      let (fresh, unique) = check_tokens-Unique (t' ∷ seen) ts rest later in
      rw (← ok-injective h2) (
        (check_token-fresh seen t t' here, Fresh-tail t' seen rest fresh),
        (Fresh-head t' seen rest fresh, unique),
      )

  checked_all-Unique :
      (o : Option (List TokenSpec)) (tokens : List TokenSpec)
      → checked_all eth_checksum_address max_decimals o ≡ ok tokens
      → Unique tokens
  checked_all-Unique none tokens h = cc
  checked_all-Unique (some ts) tokens h = (check_tokens-Unique [] ts tokens h).1

extend-Unique :
    (chains : List ChainSpec) (tokens extra : List TokenSpec)
    → Unique tokens
    → Unique (extend chains tokens extra)
      × (added : List TokenSpec) × (extend chains tokens extra ≡ tokens ++ added)
      × All (λ t. on_chain (by_id chains t.chain_id) ≡ true) added
unfolding extend
extend-Unique chains tokens [] u = (u, [], sym (append-nil tokens), tt)
extend-Unique chains tokens (t ∷ extra) u =
    elim (Bool-cases (on_chain (by_id chains t.chain_id) && not (is_known t tokens))) [
      | inl new ↦
          let (unique, added, same, there) =
            extend-Unique chains (tokens ++ t ∷ []) extra
              (Unique-snoc t tokens (ground (arith, new)) u) in
          rw new (
            unique,
            t ∷ added,
            same ∙ append_assoc tokens (t ∷ []) added,
            (ground (arith, new), there),
          )
      | inr old ↦ rw old (extend-Unique chains tokens extra u)
    ]

-- A registry of tokens that was read names no token twice, whatever the case of the addresses; and
-- extending it with the tokens of another registry leaves its tokens as they are and in their
-- places, adds only tokens of chains that are known, and names no token twice either: an imported
-- list never replaces a token of the wallet.
pub extend-from_json :
    (eth_checksum_address : Bytes → Bytes) (max_decimals : ℕ)
    (parse : Bytes → Option (List TokenSpec)) (json : Bytes) (chains : List ChainSpec)
    (tokens extra : List TokenSpec)
    → from_json eth_checksum_address max_decimals parse json ≡ ok tokens
    → Unique tokens
      × Unique (extend chains tokens extra)
      × (added : List TokenSpec) × (extend chains tokens extra ≡ tokens ++ added)
      × All (λ t. on_chain (by_id chains t.chain_id) ≡ true) added
unfolding from_json
extend-from_json eth_checksum_address max_decimals parse json chains tokens extra h =
    let u = checked_all-Unique eth_checksum_address max_decimals (parse json) tokens h in
    let (unique, added, same, there) = extend-Unique chains tokens extra u in
    (u, unique, added, same, there)
