-- ===== src/Chains/JsonRpc/Envelope.antt =====
-- Which responses are taken for an answer.
use izan_wallet.Base.{
  ℕ, ◌≡◌, refl, ap, ◌==◌, ==_refl, true, Option, none, some, ◌↔◌, Bool-cases, ==→eq, inl, inr,
}
use izan_wallet.Base.Bytes.{text}
use izan_wallet.Json.{Json, Doubles, member, is_object, as_number}
use izan_wallet.Chains.JsonRpc.{
  answered, error_of, parse_outcome, parse_id, convert, parse_envelope, refusal,
}

module _ (d : Doubles) where
  -- The response is an object with the expected id, with no error, and with `value` as its result.
  abbrev pub Answers : Option Json → ℕ → Json → Type 0
  Answers doc expect_id value =
      (j : Json) × (bits : ℕ) × (doc ≡ some j)
      × (is_object j ≡ true)
      × (as_number (member (text "id") j) ≡ some bits)
      × (d.to_u64 bits ≡ some expect_id)
      × (member (text "error") j ≡ none)
      × (member (text "result") j ≡ some value)

  refusal-answered : (e value : Json) (code : Option ℕ) → refusal d e code ≡ answered value → ⊥
  refusal-answered e value none h = cc
  refusal-answered e value (some code) h = cc

  parse_outcome-answered :
      (j value : Json) (e r : Option Json)
      → parse_outcome d j e r ≡ answered value
      → (e ≡ none) × (r ≡ some value)
  unfolding error_of
  parse_outcome-answered j value (some e) r h = absurd (refusal-answered e value _ h)
  parse_outcome-answered j value none none h = cc
  parse_outcome-answered j value none (some r) h = (refl, cc)

  parse_id-converted :
      (j value : Json) (expect_id : ℕ) (n : Option ℕ)
      → parse_id d j expect_id (some n) ≡ answered value
      → (n ≡ some expect_id)
        × (parse_outcome d j (member (text "error") j) (member (text "result") j) ≡ answered value)
  parse_id-converted j value expect_id none h = cc
  parse_id-converted j value expect_id (some n) h = elim (Bool-cases (n == expect_id)) [
    | inl same ↦ (ap some (==→eq n expect_id same), rw same at h)
    | inr other ↦ cc
  ]

  parse_id-answered :
      (j value : Json) (expect_id : ℕ) (id : Option ℕ)
      → parse_id d j expect_id (convert d id) ≡ answered value
      → (bits : ℕ) × (id ≡ some bits)
        × (d.to_u64 bits ≡ some expect_id)
        × (parse_outcome d j (member (text "error") j) (member (text "result") j) ≡ answered value)
  parse_id-answered j value expect_id none h = cc
  parse_id-answered j value expect_id (some bits) h =
      let (to, rest) = parse_id-converted j value expect_id (d.to_u64 bits) h in
      (bits, refl, to, rest)

  parse_envelope-answered :
      (doc : Option Json) (expect_id : ℕ) (value : Json)
      → parse_envelope d doc expect_id ≡ answered value
      → Answers doc expect_id value
  unfolding parse_envelope
  parse_envelope-answered none expect_id value h = cc
  parse_envelope-answered (some j) expect_id value h = elim (Bool-cases (is_object j)) [
    | inl obj ↦
        let (bits, at, to, rest) =
          parse_id-answered j value expect_id (as_number (member (text "id") j)) (rw obj at h) in
        let (no_error, result) = parse_outcome-answered j value _ _ rest in
        (j, bits, refl, obj, at, to, no_error, result)
    | inr other ↦ cc
  ]

  Answers-parse_envelope :
      (doc : Option Json) (expect_id : ℕ) (value : Json)
      → Answers doc expect_id value
      → parse_envelope d doc expect_id ≡ answered value
  unfolding parse_envelope
  Answers-parse_envelope doc expect_id value (j, bits, e, o, i, u, none_, some_) =
      rw (e, o, i, u, ==_refl expect_id, none_, some_)

  -- A response is an answer exactly when it parses to an object that carries the id of the request
  -- as a number, has no member `error` and has a member `result`, and the answer is that member.
  pub parse_envelope_iff :
      (doc : Option Json) (expect_id : ℕ) (value : Json)
      → (parse_envelope d doc expect_id ≡ answered value) ↔ Answers doc expect_id value
  parse_envelope_iff doc expect_id value =
      (parse_envelope-answered doc expect_id value, Answers-parse_envelope doc expect_id value)
