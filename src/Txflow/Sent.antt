-- ===== src/Txflow/Sent.antt =====
-- What is known when a broadcast returns, and what a fee quote adds up to.
use izan_wallet.Base.{
  ◌+◌, ◌*◌, ◌≡◌, ap, sym, false, ◌++◌, inl, inr, Bool-cases, Result, ok, err, fault, arith,
}
use izan_wallet.Base.Bytes.{Bytes, text, beq, beq→eq}
use izan_wallet.Net.{is_empty}
use izan_wallet.Quantity.Value.{be_value}
use izan_wallet.Chains.JsonRpc.{
  Reply, answered, failed, refused, undefined, then_reply-eq-answered, answered-injective,
}
use izan_wallet.Chains.Client.{RpcClient, Outside, call_string}
use izan_wallet.Txflow.{
  Crypto, FeeQuote, lift, hex_of, echo_checked, broadcast, quote_of, with_base, quote_fees,
}

lift-answered : {A : Type 0} (r : Result A) {a : A} → lift r ≡ answered a → r ≡ ok a
lift-answered (ok b) e = ap ok (answered-injective e)
lift-answered (err what) e = cc
lift-answered fault e = cc

module _ {W : Type 0} (k : Crypto) (o : Outside W) where
  echo_checked-answered :
      (local echoed hash : Bytes)
      → echo_checked k o local echoed ≡ answered hash
      → (hash ≡ local) × (echoed ≡ hex_of hash)
  echo_checked-answered local echoed hash h = elim (Bool-cases (beq echoed (hex_of local))) [
    | inl same ↦
        let e = sym (answered-injective (rw same at h)) in
        (e, rw e (beq→eq echoed (hex_of local) same))
    | inr other ↦ cc
  ]

  -- A broadcast that returns a hash was handed a transaction that is not empty, the hash is the one
  -- computed here from the raw bytes, and the node echoed its hexadecimal print.
  pub broadcast-answered :
      (raw hash : Bytes) (c : RpcClient) (w : W)
      → (broadcast k o raw c w).2 ≡ answered hash
      → (is_empty raw ≡ false)
        × (hash ≡ k.tx_hash raw)
        × ((call_string o
              (text "eth_sendRawTransaction")
              (text "[\"" ++ (hex_of raw ++ text "\"]"))
              c
              w).2
            ≡ answered (hex_of hash))
  unfolding broadcast
  broadcast-answered raw hash c w h =
      let sent =
        call_string o (text "eth_sendRawTransaction") (text "[\"" ++ (hex_of raw ++ text "\"]")) c
          w in
      elim (Bool-cases (is_empty raw)) [
        | inl nothing ↦ cc
        | inr there ↦
            let (echoed, got, checked) =
              then_reply-eq-answered sent.2 (echo_checked k o (k.tx_hash raw)) (rw there at h) in
            let (e, same) = echo_checked-answered (k.tx_hash raw) echoed hash checked in
            (there, e, rw (got, same))
      ]

  quote_of-cap :
      (base tip : Bytes) (q : FeeQuote)
      → quote_of k o base tip ≡ answered q
      → ((a b c : Bytes) → k.checked_add a b ≡ ok c → be_value c ≡ be_value a + be_value b)
      → be_value q.max_fee_per_gas
        ≡ 2 * be_value q.base_fee_per_gas + be_value q.max_priority_fee_per_gas
  quote_of-cap base tip q h law =
      let (twice, t, h1) = then_reply-eq-answered (lift (k.checked_add base base)) _ h in
      let (cap, s, h2) = then_reply-eq-answered (lift (k.checked_add twice tip)) _ h1 in
      rw (← answered-injective h2) (
        omega
          (arith, law base base twice (lift-answered _ t), law twice tip cap (lift-answered _ s)))

  with_base-quote :
      (r : W × RpcClient × Reply Bytes) (q : FeeQuote)
      → (with_base k o r).2 ≡ answered q
      → (base : Bytes) × (tip : Bytes) × (quote_of k o base tip ≡ answered q)
  with_base-quote (w, c, answered base) q h =
      let r = call_string o (text "eth_maxPriorityFeePerGas") (text "[]") c w in
      let (hex, _, h1) = then_reply-eq-answered r.2 _ h in
      let (tip, _, h2) = then_reply-eq-answered (lift (k.from_hex hex)) _ h1 in (base, tip, h2)
  with_base-quote (w, c, refused code message) q h = cc
  with_base-quote (w, c, failed what) q h = cc
  with_base-quote (w, c, undefined) q h = cc

  -- If the checked sum of the 256-bit numbers is their sum whenever there is one, then the cap of
  -- every fee quote is twice its base fee and its tip: the base fee may double before a
  -- transaction with that cap stalls, and no sum in it overflowed.
  pub quote_fees-cap :
      (c : RpcClient) (w : W) (q : FeeQuote)
      → (quote_fees k o c w).2 ≡ answered q
      → ((a b c : Bytes) → k.checked_add a b ≡ ok c → be_value c ≡ be_value a + be_value b)
      → be_value q.max_fee_per_gas
        ≡ 2 * be_value q.base_fee_per_gas + be_value q.max_priority_fee_per_gas
  unfolding quote_fees
  quote_fees-cap c w q h law =
      let (base, tip, e) = with_base-quote _ q h in quote_of-cap base tip q e law
