-- ===== src/Swap/Quotes.antt =====
-- What a quote that was accepted carries. Calldata is compared with its print, Base.Hex.to_hex.
use izan_wallet.Base.{
  ℕ, map, take, leb, ◌&&◌, if◌then◌else◌, ◌⊎◌, inl, inr, Bool-cases, ◌+◌, ◌*◌, ◌/◌, ◌%◌, ◌<◌, ◌≡◌,
  refl, ap, sym, ◌∙◌, drop, take-append-drop, ◌==◌, true, false, [], ◌∷◌, ◌++◌, length, Option,
  none, some, ok, ◌>>=◌, >>=-eq-ok, >>-ok, ok-injective, arith,
}
use izan_wallet.Base.Bytes.{Bytes, AllBytes, text, beq, beq→eq}
use izan_wallet.Base.Hex.{hex_digit, to_hex}
use izan_wallet.Json.{Json}
use izan_wallet.Net.{is_empty}
use izan_wallet.Swap.{
  Amounts, SwapQuote, json_or_throw, member, text_of, nibble, strip_prefix, hex_pairs, hex_bytes,
  hex_u64, parse_quote,
}

abbrev lower : ℕ → ℕ
lower c = if leb b'A' c && leb c b'F' then c + 32 else c

nibble-hex_digit : (n : ℕ) → n < 16 → nibble (hex_digit n) ≡ ok n
unfolding nibble
nibble-hex_digit n h = ground arith

-- Calldata is read as the bytes that were printed.
pub hex_pairs-to_hex : (bs : Bytes) → AllBytes bs → hex_pairs (to_hex bs) ≡ ok bs
unfolding hex_pairs to_hex
hex_pairs-to_hex [] a = refl
hex_pairs-to_hex (b ∷ bs) (h, a) =
    let same : b / 16 * 16 + b % 16 ≡ b = omega arith in
    rw (
      nibble-hex_digit (b / 16) (omega arith),
      nibble-hex_digit (b % 16) (omega arith),
      hex_pairs-to_hex bs a,
      same,
    )

length-to_hex : (bs : Bytes) → length (to_hex bs) ≡ 2 * length bs
unfolding to_hex
length-to_hex [] = refl
length-to_hex (b ∷ bs) = omega (arith, length-to_hex bs)

hex_bytes-prefixed : (bs : Bytes) → AllBytes bs → hex_bytes (text "0x" ++ to_hex bs) ≡ ok bs
unfolding hex_bytes strip_prefix text beq
hex_bytes-prefixed bs a = rw (length-to_hex bs, even (length bs), hex_pairs-to_hex bs a)
  where
    even : (n : ℕ) → ((2 * n) % 2 == 0) ≡ true
    even n = ground arith

-- `digits` print the bytes, in any case, and the text may have "0x" or "0X" in front of them.
pub record Spells (hex bytes : Bytes) : Type 0 where
  pub digits : Bytes
  pub prefix : (hex ≡ digits) ⊎ (hex ≡ b'0' ∷ b'x' ∷ digits) ⊎ (hex ≡ b'0' ∷ b'X' ∷ digits)
  pub printed : map lower digits ≡ to_hex bytes

nibble-inv : (c n : ℕ) → nibble c ≡ ok n → (lower c ≡ hex_digit n) × (n < 16)
unfolding nibble
nibble-inv c n h = ground arith

hex_pairs-inv : (hex bs : Bytes) → hex_pairs hex ≡ ok bs → map lower hex ≡ to_hex bs
unfolding hex_pairs to_hex
hex_pairs-inv [] bs h = rw (← ok-injective h)
hex_pairs-inv (a ∷ []) bs h = cc
hex_pairs-inv (a ∷ b ∷ hex) bs h0 =
    let (hi, e1, h1) = >>=-eq-ok (nibble a) _ h0 in
    let (lo, e2, h2) = >>=-eq-ok (nibble b) _ h1 in
    let (rest, e3, h3) = >>=-eq-ok (hex_pairs hex) _ h2 in
    let (da, small_hi) = nibble-inv a hi e1 in
    let (db, small_lo) = nibble-inv b lo e2 in
    let high : (hi * 16 + lo) / 16 ≡ hi = omega arith in
    let low : (hi * 16 + lo) % 16 ≡ lo = omega arith in
    rw (← ok-injective h3, high, low, da, db, hex_pairs-inv hex rest e3)

two_of : (a b : ℕ) (hex : Bytes) → beq (take 2 hex) (a ∷ b ∷ []) ≡ true → hex ≡ a ∷ b ∷ drop 2 hex
two_of a b hex h = sym (take-append-drop 2 hex) ∙ ap (λ front. front ++ drop 2 hex) (beq→eq _ _ h)

strip_prefix-cases :
    (hex : Bytes)
    → (hex ≡ strip_prefix hex)
      ⊎ (hex ≡ b'0' ∷ b'x' ∷ strip_prefix hex)
      ⊎ (hex ≡ b'0' ∷ b'X' ∷ strip_prefix hex)
unfolding strip_prefix text
strip_prefix-cases hex = elim (Bool-cases (beq (take 2 hex) (text "0x"))) [
  | inl small ↦ rw small (inr (inl (two_of b'0' b'x' hex small)))
  | inr large ↦ elim (Bool-cases (beq (take 2 hex) (text "0X"))) [
    | inl capital ↦ rw (large, capital) (inr (inr (two_of b'0' b'X' hex capital)))
    | inr bare ↦ rw (large, bare) (inl refl)
  ]
]

hex_bytes-Spells : (hex bs : Bytes) → hex_bytes hex ≡ ok bs → Spells hex bs
unfolding hex_bytes
hex_bytes-Spells hex bs h = record {
  digits = strip_prefix hex;
  prefix = strip_prefix-cases hex;
  printed = hex_pairs-inv (strip_prefix hex) bs (ground arith);
}

module _ {U : Type 0} (u : Amounts U) where
  pub record Carried (json : Option Json) (q : SwapQuote U) : Type 0 where
    pub has_calldata : is_empty q.calldata ≡ false
    pub guarantees : u.is_zero q.to_amount_min ≡ false
    pub doc : Json
    pub request : Json
    pub hex : Bytes
    pub is_doc : json ≡ some doc
    pub is_request : member doc (text "transactionRequest") ≡ ok request
    pub recipient : text_of request (text "to") ≡ ok q.to
    pub is_hex : text_of request (text "data") ≡ ok hex
    pub is_calldata : Spells hex q.calldata

  json_or_throw-ok : (o : Option Json) (doc : Json) → json_or_throw o ≡ ok doc → o ≡ some doc
  json_or_throw-ok none doc h = cc
  json_or_throw-ok (some j) doc h = ap some (ok-injective h)

  -- A quote that is accepted has a guaranteed amount that is not zero and calldata that is not empty.
  -- Its recipient is the text of member "to" of the answer's "transactionRequest", and the text of
  -- member "data" there, without a "0x" or "0X" and in lower case, is what printing every byte of the
  -- calldata as two hexadecimal digits gives.
  pub parse_quote-Carried :
      (json : Option Json) (q : SwapQuote U) → parse_quote u json ≡ ok q → Carried json q
  unfolding parse_quote
  parse_quote-Carried json q h0 =
      let (doc, e0, h1) = >>=-eq-ok (json_or_throw json) _ h0 in
      let (estimate, _, h2) = >>=-eq-ok (member doc (text "estimate")) _ h1 in
      let (request, e2, h3) = >>=-eq-ok (member doc (text "transactionRequest")) _ h2 in
      let (tool, _, h4) = >>=-eq-ok (text_of doc (text "tool")) _ h3 in
      let (approval, _, h5) = >>=-eq-ok (text_of estimate (text "approvalAddress")) _ h4 in
      let (from, _, h6) = >>=-eq-ok (text_of estimate (text "fromAmount") >>= u.from_dec) _ h5 in
      let (to_amount, _, h7) = >>=-eq-ok (text_of estimate (text "toAmount") >>= u.from_dec) _ h6 in
      let (least, _, h8) = >>=-eq-ok (text_of estimate (text "toAmountMin") >>= u.from_dec) _ h7 in
      let (to, e8, h9) = >>=-eq-ok (text_of request (text "to")) _ h8 in
      let (calldata, e9, h10) = >>=-eq-ok (text_of request (text "data") >>= hex_bytes) _ h9 in
      let (value, _, h11) = >>=-eq-ok (text_of request (text "value") >>= u.from_hex) _ h10 in
      let (gas, _, h12) = >>=-eq-ok (text_of request (text "gasLimit") >>= hex_u64) _ h11 in
      let (there, h13) = >>-ok (is_empty calldata) _ _ h12 in
      let (above, h14) = >>-ok (u.is_zero least) _ _ h13 in
      let (hex, d, b) = >>=-eq-ok (text_of request (text "data")) hex_bytes e9 in
      let spelled = hex_bytes-Spells hex calldata b in
      rw (← ok-injective h14) (record {
        has_calldata = there;
        guarantees = above;
        doc = doc;
        request = request;
        hex = hex;
        is_doc = json_or_throw-ok json doc e0;
        is_request = e2;
        recipient = e8;
        is_hex = d;
        is_calldata = spelled;
      })
