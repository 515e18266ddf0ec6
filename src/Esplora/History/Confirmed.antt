-- ===== src/Esplora/History/Confirmed.antt =====
-- Which entries of an explorer's answer become records.
use izan_wallet.Base.{
  ℕ, ◌≡◌, refl, ap, ◌∙◌, sym, Bool, true, false, List, [], ◌∷◌, Option, none, some, Result, ok,
  ◌>>=◌, >>=-eq-ok, ok-injective, Bool-cases, inl, inr,
}
use izan_wallet.Base.Bytes.{Bytes, text}
use izan_wallet.Json.{
  Json, Items, no_items, item, Fields, Doubles, find, as_object, as_array, as_string, as_number,
  is_true,
}
use izan_wallet.Net.{is_empty}
use izan_wallet.Esplora.{defined}
use izan_wallet.Esplora.History.{
  BtcTx, Side, net_of, timed, confirmed_tx, parse_tx, keep, parse_tx_items, parse_txs, or_empty,
  array_or_throw,
}

some-injective : {A : Type 0} {x y : A} → some x ≡ some y → x ≡ y
some-injective {x = x} e = ap (λ o. elim o [ some a ↦ a | none ↦ x ]) e

not_skipped : (r : BtcTx) → ◌≡◌ {A = Result (Option BtcTx)} (ok none) (ok (some r)) → ⊥
not_skipped r e = cc

module _ (d : Doubles) (me : Bytes) where
  -- The entry has a txid, and a status that says that it is confirmed, and when.
  pub record Entry (j : Json) (r : BtcTx) : Type 0 where
    pub tx : Fields
    pub status : Fields
    pub when : ℕ
    pub is_tx : as_object (some j) ≡ some tx
    pub has_txid : as_string (find (text "txid") tx) ≡ some r.txid
    pub txid_there : is_empty r.txid ≡ false
    pub has_status : as_object (find (text "status") tx) ≡ some status
    pub confirmed : is_true (find (text "confirmed") status) ≡ true
    pub has_time : as_number (find (text "block_time") status) ≡ some when
    pub is_time : d.to_u64 when ≡ some r.time

  -- The records are taken from entries of the array, in its order and each at most once.
  pub data Ledger : Items → List BtcTx → Type 0 where
    nothing_left : Ledger no_items []
    passed :
        {j : Json} {rest : Items} {out : List BtcTx} → Ledger rest out → Ledger (item j rest) out
    kept :
        {j : Json} {rest : Items} {out : List BtcTx} (r : BtcTx)
        → Entry j r
        → Ledger rest out
        → Ledger (item j rest) (r ∷ out)

  record_of-net :
      (txid : Bytes) (time : ℕ) (n : Result ℕ) (incoming : Bool) (counterparty : Bytes) (r : BtcTx)
      → (n >>= λ m. ok (
          some (record {
            txid = txid;
            time = time;
            incoming = incoming;
            amount = m;
            counterparty = counterparty;
          })))
        ≡ ok (some r)
      → (r.txid ≡ txid) × (r.time ≡ time)
  record_of-net txid time n incoming counterparty r h =
      let (m, _, e) = >>=-eq-ok n _ h in
      let same = some-injective (ok-injective e) in
      (ap (λ x. x.txid) (sym same), ap (λ x. x.time) (sym same))

  net_of-txid :
      (txid : Bytes) (time : ℕ) (i o : Side) (r : BtcTx)
      → net_of d me txid time i o ≡ ok (some r)
      → (r.txid ≡ txid) × (r.time ≡ time)
  net_of-txid txid time i o r h = elim (Bool-cases (d.le o.moved i.moved)) [
    | inr more ↦ record_of-net txid time _ true i.foreign r (rw more at h)
    | inl less ↦ elim (Bool-cases (d.le i.moved o.moved)) [
      | inl same ↦ absurd (not_skipped r (rw (less, same) at h))
      | inr other ↦ record_of-net txid time _ false o.foreign r (rw (less, other) at h)
    ]
  ]

  defined-ok : (o : Option ℕ) (n : ℕ) → defined o ≡ ok n → o ≡ some n
  defined-ok none n h = cc
  defined-ok (some m) n h = ap some (ok-injective h)

  timed-time :
      (txid : Bytes) (tx : Fields) (o : Option ℕ) (r : BtcTx)
      → timed d me txid tx o ≡ ok (some r)
      → (when : ℕ) × (o ≡ some when) × (d.to_u64 when ≡ some r.time) × (r.txid ≡ txid)
  timed-time txid tx none r h = absurd (not_skipped r h)
  timed-time txid tx (some when) r h =
      let (time, at, h1) = >>=-eq-ok (defined (d.to_u64 when)) _ h in
      let (same_id, same_time) = net_of-txid txid time _ _ r h1 in
      (when, refl, rw same_time (defined-ok (d.to_u64 when) time at), same_id)

  confirmed_tx-Entry :
      (txid : Bytes) (tx : Fields) (o : Option Fields) (r : BtcTx)
      → confirmed_tx d me txid tx o ≡ ok (some r)
      → (status : Fields) × (when : ℕ) × (o ≡ some status)
        × (is_true (find (text "confirmed") status) ≡ true)
        × (as_number (find (text "block_time") status) ≡ some when)
        × (d.to_u64 when ≡ some r.time)
        × (r.txid ≡ txid)
  confirmed_tx-Entry txid tx none r h = absurd (not_skipped r h)
  confirmed_tx-Entry txid tx (some status) r h =
      elim (Bool-cases (is_true (find (text "confirmed") status))) [
        | inl sure ↦
            let (when, has, is_time, same) =
              timed-time txid tx (as_number (find (text "block_time") status)) r (rw sure at h) in
            (status, when, refl, sure, has, is_time, same)
        | inr unsure ↦ absurd (not_skipped r (rw unsure at h))
      ]

  or_empty-there : (o : Option Bytes) → is_empty (or_empty o) ≡ false → o ≡ some (or_empty o)
  unfolding is_empty
  or_empty-there none h = cc
  or_empty-there (some s) h = refl

  parse_tx-Entry :
      (j : Json) (tx : Option Fields) (r : BtcTx)
      → as_object (some j) ≡ tx
      → parse_tx d me tx ≡ ok (some r)
      → Entry j r
  unfolding parse_tx
  parse_tx-Entry j none r e h = absurd (not_skipped r h)
  parse_tx-Entry j (some tx) r e h =
      let txid = or_empty (as_string (find (text "txid") tx)) in
      elim (Bool-cases (is_empty txid)) [
        | inl nameless ↦ absurd (not_skipped r (rw nameless at h))
        | inr there ↦
            let (status, when, s, sure, has, is_time, same) =
              confirmed_tx-Entry txid tx (as_object (find (text "status") tx)) r (rw there at h) in
            record {
              tx = tx;
              status = status;
              when = when;
              is_tx = e;
              has_txid =
                  or_empty-there (as_string (find (text "txid") tx)) there ∙ ap some (sym same);
              txid_there = rw same there;
              has_status = s;
              confirmed = sure;
              has_time = has;
              is_time = is_time;
            }
      ]

  Ledger-keep :
      (j : Json) (rest : Items) (out : List BtcTx) (tx : Option BtcTx)
      → parse_tx d me (as_object (some j)) ≡ ok tx
      → Ledger rest out
      → Ledger (item j rest) (keep d me tx out)
  Ledger-keep j rest out none h l = passed l
  Ledger-keep j rest out (some r) h l = kept r (parse_tx-Entry j (as_object (some j)) r refl h) l

  parse_tx_items-Ledger :
      (items : Items) (txs : List BtcTx) → parse_tx_items d me items ≡ ok txs → Ledger items txs
  unfolding parse_tx_items
  parse_tx_items-Ledger no_items txs h = rw (← ok-injective h) nothing_left
  parse_tx_items-Ledger (item j rest) txs h =
      let (tx, here, h1) = >>=-eq-ok (parse_tx d me (as_object (some j))) _ h in
      let (out, others, same) = >>=-eq-ok (parse_tx_items d me rest) _ h1 in
      rw (← ok-injective same)
        (Ledger-keep j rest out tx here (parse_tx_items-Ledger rest out others))

  array_or_throw-Ledger :
      (o : Option Items) (txs : List BtcTx)
      → array_or_throw d me o ≡ ok txs
      → (items : Items) × (o ≡ some items) × Ledger items txs
  array_or_throw-Ledger none txs h = cc
  array_or_throw-Ledger (some items) txs h = (items, refl, parse_tx_items-Ledger items txs h)

  -- The history that is read of a page is made of entries of that page, in its order and each at
  -- most once, and only of entries with a txid and with a status that says that the transaction is
  -- confirmed and when: each record has that txid and that time.
  pub parse_txs-Ledger :
      (doc : Option Json) (txs : List BtcTx)
      → parse_txs d me doc ≡ ok txs
      → (items : Items) × (as_array doc ≡ some items) × Ledger items txs
  unfolding parse_txs
  parse_txs-Ledger doc txs h = array_or_throw-Ledger (as_array doc) txs h
