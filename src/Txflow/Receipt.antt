-- ===== src/Txflow/Receipt.antt =====
-- What a receipt says, and from where it has it.
use izan_wallet.Base.{
  ◌≡◌, refl, ap, sym, Bool, true, false, Option, none, some, ◌++◌, ◌⊎◌, inl, inr, Bool-cases,
}
use izan_wallet.Base.Bytes.{Bytes, text, beq, beq→eq}
use izan_wallet.Json.{Json, null, boolean, number, string, array, object, member, as_string}
use izan_wallet.Chains.JsonRpc.{answered, failed, then_reply-eq-answered, answered-injective}
use izan_wallet.Txflow.{
  Crypto, TxReceipt, lift, receipt_field, field_text, status_of, read_quantity, receipt_of,
  parse_receipt,
}

field_text-answered :
    (name s : Bytes) (o : Option Bytes) → field_text name o ≡ answered s → o ≡ some s
field_text-answered name s none h = cc
field_text-answered name s (some t) h = ap some (answered-injective h)

receipt_field-answered :
    (j : Json) (name s : Bytes)
    → receipt_field j name ≡ answered s
    → as_string (member name j) ≡ some s
unfolding receipt_field
receipt_field-answered j name s h = field_text-answered name s (as_string (member name j)) h

-- The status is one of the two that the protocol has.
abbrev pub Status : Bytes → Bool → Type 0
Status s success = ((s ≡ text "0x1") × (success ≡ true)) ⊎ ((s ≡ text "0x0") × (success ≡ false))

status_of-Status : (s : Bytes) (success : Bool) → status_of s ≡ answered success → Status s success
unfolding status_of
status_of-Status s success h = elim (Bool-cases (beq s (text "0x1"))) [
  | inl one ↦ inl (beq→eq s (text "0x1") one, sym (answered-injective (rw one at h)))
  | inr other ↦ elim (Bool-cases (beq s (text "0x0"))) [
    | inl nought ↦
        inr (beq→eq s (text "0x0") nought, sym (answered-injective (rw (other, nought) at h)))
    | inr neither ↦ absurd (impossible (rw (other, neither) at h))
  ]
]
  where
    impossible : failed (text "receipt: unexpected status " ++ s) ≡ answered success → ⊥
    impossible e = cc

module _ (k : Crypto) where
  -- The receipt says what the members of the object say.
  pub record Told (j : Json) (r : TxReceipt) : Type 0 where
    pub status : (s : Bytes) × (as_string (member (text "status") j) ≡ some s) × Status s r.success
    pub block_number :
        (s : Bytes) × (as_string (member (text "blockNumber") j) ≡ some s)
        × (read_quantity k s (text "receipt blockNumber") ≡ answered r.block_number)
    pub gas_used :
        (s : Bytes) × (as_string (member (text "gasUsed") j) ≡ some s)
        × (read_quantity k s (text "receipt gasUsed") ≡ answered r.gas_used)
    pub effective_gas_price :
        (s : Bytes) × (as_string (member (text "effectiveGasPrice") j) ≡ some s)
        × (lift (k.from_hex s) ≡ answered r.effective_gas_price)

  receipt_of-Told : (j : Json) (r : TxReceipt) → receipt_of k j ≡ answered r → Told j r
  unfolding receipt_of
  receipt_of-Told j r h0 =
      let (status, f1, h1) = then_reply-eq-answered (receipt_field j (text "status")) _ h0 in
      let (success, s1, h2) = then_reply-eq-answered (status_of status) _ h1 in
      let (block, f2, h3) = then_reply-eq-answered (receipt_field j (text "blockNumber")) _ h2 in
      let (block_number, q2, h4) =
        then_reply-eq-answered (read_quantity k block (text "receipt blockNumber")) _ h3 in
      let (gas, f3, h5) = then_reply-eq-answered (receipt_field j (text "gasUsed")) _ h4 in
      let (used, q3, h6) =
        then_reply-eq-answered (read_quantity k gas (text "receipt gasUsed")) _ h5 in
      let (hex, f4, h7) =
        then_reply-eq-answered (receipt_field j (text "effectiveGasPrice")) _ h6 in
      let (price, q4, h8) = then_reply-eq-answered (lift (k.from_hex hex)) _ h7 in
      rw (← answered-injective h8) (record {
        status = (status, receipt_field-answered j _ status f1, status_of-Status status success s1);
        block_number = (block, receipt_field-answered j _ block f2, q2);
        gas_used = (gas, receipt_field-answered j _ gas f3, q3);
        effective_gas_price = (hex, receipt_field-answered j _ hex f4, q4);
      })

  -- A receipt is never guessed: when one is returned, the answer of the node was JSON and has the
  -- four members as strings, the status is "0x1" for success and "0x0" for failure, and the other
  -- fields of the receipt are the quantities of the other three strings. No receipt is returned
  -- exactly for the answer null; it stands for a transaction that is pending or unknown.
  pub parse_receipt-Told :
      (doc : Option Json) (found : Option TxReceipt)
      → parse_receipt k doc ≡ answered found
      → ((doc ≡ some null) × (found ≡ none))
        ⊎ ((j : Json) × (r : TxReceipt) × (doc ≡ some j) × (found ≡ some r) × Told j r)
  unfolding parse_receipt
  parse_receipt-Told none found h = cc
  parse_receipt-Told (some null) found h = inl (refl, sym (answered-injective h))
  parse_receipt-Told (some (object members)) found h =
      let (r, at, same) = then_reply-eq-answered (receipt_of k (object members)) _ h in
      inr (
        object members,
        r,
        refl,
        sym (answered-injective same),
        receipt_of-Told (object members) r at,
      )
  parse_receipt-Told (some (boolean b)) found h = cc
  parse_receipt-Told (some (number bits)) found h = cc
  parse_receipt-Told (some (string s)) found h = cc
  parse_receipt-Told (some (array items)) found h = cc
