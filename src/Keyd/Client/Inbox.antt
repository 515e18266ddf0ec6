-- ===== src/Keyd/Client/Inbox.antt =====
-- The list of pending proposals, from the queue of the child to the UI.
use izan_wallet.Base.{
  ℕ, zero, suc, ◌+◌, ◌*◌, ◌%◌, ◌^◌, ◌≤◌, ◌<◌, ◌≡◌, refl, ap, ◌∙◌, ◌==◌, ==_refl, le→ltb, lt→ltb,
  Bool, true, List, [], ◌∷◌, ◌++◌, length, length-append, All, some, ok, arith, if◌then◌else◌,
  Bool-cases, inl, inr,
}
use izan_wallet.Base.Bytes.{Bytes, le_bytes, length-le_bytes, le_value-le_bytes}
use izan_wallet.Keyd.Protocol.{Op, code_of, put_u64le, get_u64le}
use izan_wallet.Keyd.Proposals.{
  Proposal, ProposalQueue, provenance_byte, is_pending, u64_mod, find, get, pending_in, pending_ids,
}
use izan_wallet.Keyd.Proposals.Order.{Ascending, IsOrdered, Ascending-le}
use izan_wallet.Keyd.Audit.{Stdio}
use izan_wallet.Keyd.Crypto.{Crypto}
use izan_wallet.Keyd.Child.{Keyd, pass_on, ◌>>=◌, lift, send, send_op, max_plain, Env}
use izan_wallet.Keyd.Child.Sign.{SolReader}
use izan_wallet.Keyd.Child.Plane.{pending_records, pending}
use izan_wallet.Keyd.Child.Loop.{Event, Life, dispatch, serve_frame, step}
use izan_wallet.Keyd.Client
use izan_wallet.Keyd.Client.{
  KeydClient, PendingItem, Peer, read_items, read_pending, request, finish,
}
use izan_wallet.Keyd.Client.Child.{child_peer, reply_of-snoc}

-- The pending proposals as a person is shown them.
unfoldable pub waiting : List Proposal → List PendingItem
waiting [] = []
waiting (p ∷ ps) =
    let rest = waiting ps in
    if is_pending p.state
    then record { id = p.id; provenance = provenance_byte p.provenance } ∷ rest
    else rest

unfoldable pub encoded : List Proposal → Bytes
encoded [] = []
encoded (p ∷ ps) =
    let rest = encoded ps in
    if is_pending p.state then put_u64le p.id ++ (provenance_byte p.provenance ∷ rest) else rest

-- In an ordered queue each proposal is found under its id.
find-behind :
    (low high : ℕ) (p : Proposal) (all ps : List Proposal)
    → p.id ≤ low
    → Ascending low ps high
    → All (λ x. find x.id all ≡ some x) ps
    → All (λ x. find x.id (p ∷ all) ≡ some x) ps
unfolding find
find-behind low high p all [] l a h = tt
find-behind low high p all (x ∷ ps) l a h =
    (ground (arith, h.0, a.0, l), find-behind x.id high p all ps (omega (arith, a.0)) a.1 h.1)

find_found :
    (low high : ℕ) (ps : List Proposal)
    → Ascending low ps high
    → All (λ x. find x.id ps ≡ some x) ps
find_found low high [] a = tt
find_found low high (p ∷ ps) a = (
  (unfold find in rw (==_refl p.id) refl),
  find-behind p.id high p ps ps (omega arith) a.1 (find_found p.id high ps a.1),
)

pending_records-encoded :
    (q : ProposalQueue) (s : Keyd) (ps : List Proposal)
    → All (λ x. find x.id q.items ≡ some x) ps
    → pending_records q (pending_in ps) s ≡ (s, ok (encoded ps))
unfolding pending_records pending_in encoded pass_on ◌>>=◌ lift get
pending_records-encoded q s [] h = refl
pending_records-encoded q s (p ∷ ps) h = elim (Bool-cases (is_pending p.state)) [
  | inl waits ↦ rw (waits, h.0, pending_records-encoded q s ps h.1)
  | inr settled ↦ rw settled (pending_records-encoded q s ps h.1)
]

length-encoded : (ps : List Proposal) → length (encoded ps) ≡ 9 * length (waiting ps)
unfolding encoded waiting
length-encoded [] = refl
length-encoded (p ∷ ps) = elim (Bool-cases (is_pending p.state)) [
  | inl waits ↦ rw waits (
      omega (
        arith,
        length-append (put_u64le p.id) (provenance_byte p.provenance ∷ encoded ps),
        length-le_bytes 8 p.id,
        length-encoded ps,
      ))
  | inr settled ↦ rw settled (length-encoded ps)
]

get_u64le-put : (id : ℕ) (rest : Bytes) → id < 2 ^ 64 → get_u64le (put_u64le id ++ rest) ≡ id
get_u64le-put id rest h = le_value-le_bytes 8 id rest (omega (arith, h))

read_items-record :
    (fuel id prov : ℕ) (rest : Bytes)
    → id < 2 ^ 64
    → read_items (suc fuel) (put_u64le id ++ (prov ∷ rest))
      ≡ record { id = id; provenance = prov } ∷ read_items fuel rest
unfolding read_items le_bytes
read_items-record fuel id prov rest h =
    ap (λ n. record { id = n; provenance = prov } ∷ read_items fuel rest)
      (get_u64le-put id (prov ∷ rest) h)

read_items-encoded :
    (low high fuel : ℕ) (ps : List Proposal)
    → Ascending low ps high
    → high < 2 ^ 64
    → length (waiting ps) ≤ fuel
    → read_items fuel (encoded ps) ≡ waiting ps
unfolding encoded waiting
read_items-encoded low high fuel [] a h f = (unfold read_items in refl)
read_items-encoded low high zero (p ∷ ps) a h f = elim (Bool-cases (is_pending p.state)) [
  | inl waits ↦ absurd (nothing_fits (waiting ps) (rw waits at f))
  | inr settled ↦ rw settled (read_items-encoded p.id high zero ps a.1 h (rw settled at f))
]
  where
    nothing_fits : (is : List PendingItem) → suc (length is) ≤ zero → ⊥
    nothing_fits is l = omega arith
read_items-encoded low high (suc fuel) (p ∷ ps) a h f = elim (Bool-cases (is_pending p.state)) [
  | inl waits ↦ rw waits (
      read_items-record fuel p.id (provenance_byte p.provenance) (encoded ps)
        (omega (arith, h, Ascending-le p.id high ps a.1))
      ∙ ap (◌∷◌ (record { id = p.id; provenance = provenance_byte p.provenance }))
          (read_items-encoded p.id high fuel ps a.1 h (shorter (waiting ps) (rw waits at f))))
  | inr settled ↦ rw settled (read_items-encoded p.id high (suc fuel) ps a.1 h (rw settled at f))
]
  where
    shorter : (is : List PendingItem) → suc (length is) ≤ suc fuel → length is ≤ fuel
    shorter is l = omega arith

read_pending-encoded :
    (c : KeydClient) (q : ProposalQueue)
    → IsOrdered q
    → q.next_id < u64_mod
    → read_pending c (some (code_of Op.pending_list ∷ encoded q.items))
      ≡ (c, some (waiting q.items))
unfolding read_pending code_of
read_pending-encoded c q a h = rw (
  length-encoded q.items,
  nine (length (waiting q.items)),
  read_items-encoded 0 q.next_id (9 * length (waiting q.items)) q.items a (omega arith)
      (omega arith),
)
  where
    nine : (n : ℕ) → ((9 * n) % 9 == 0) ≡ true
    nine n = ground arith

module _ {Hd : Type 0} (c : Crypto Hd) (reader : SolReader) (sha256 : Bytes → Bytes)
    (mac_ok : Bytes → Bytes → Bool) (env : Env) (io : Stdio) where
  abbrev pub sent_list : Keyd → Keyd
  sent_list s = record s { sent = s.sent ++ (code_of Op.pending_list ∷ encoded s.queue.items) ∷ [] }

  step-pending :
      (s : Keyd)
      → IsOrdered s.queue
      → 9 * length (waiting s.queue.items) + 1 ≤ max_plain
      → step c reader sha256 mac_ok s (Event.request env (code_of Op.pending ∷ []))
        ≡ (sent_list s, Life.running)
  unfolding step serve_frame dispatch pending pending_ids send_op send code_of pass_on ◌>>=◌
  step-pending s a h = rw (
    pending_records-encoded s.queue s s.queue.items (find_found 0 s.queue.next_id s.queue.items a),
    le→ltb max_plain (suc (length (encoded s.queue.items)))
        (omega (arith, length-encoded s.queue.items)),
  )

  -- A list that does not fit in a frame ends the child.
  step-pending_large :
      (s : Keyd)
      → IsOrdered s.queue
      → max_plain < 9 * length (waiting s.queue.items) + 1
      → step c reader sha256 mac_ok s (Event.request env (code_of Op.pending ∷ []))
        ≡ (s, Life.exited 3)
  unfolding step serve_frame dispatch pending pending_ids send_op send code_of pass_on ◌>>=◌
  step-pending_large s a h = rw (
    pending_records-encoded s.queue s s.queue.items (find_found 0 s.queue.next_id s.queue.items a),
    lt→ltb max_plain (suc (length (encoded s.queue.items)))
        (omega (arith, length-encoded s.queue.items)),
  )

  request-pending :
      (k : KeydClient) (s : Keyd)
      → k.connected ≡ true
      → IsOrdered s.queue
      → 9 * length (waiting s.queue.items) + 1 ≤ max_plain
      → Client.request (child_peer c reader sha256 mac_ok env io) (code_of Op.pending ∷ []) k s
        ≡ (sent_list s, ok (some (code_of Op.pending_list ∷ encoded s.queue.items)))
  unfolding request
  request-pending k s up a h = rw (
    up,
    step-pending s a h,
    reply_of-snoc s.sent (code_of Op.pending_list ∷ encoded s.queue.items),
  )

  -- What the UI shows as pending is what waits in the queue of the child: asked over its channel
  -- for the pending proposals, a child whose queue is ordered and has not wrapped around, and whose
  -- list fits in a frame, answers with the ids and the provenance of exactly the proposals that are
  -- pending, oldest first, and nothing in the child or in the client changes but the frames sent.
  pub pending-waiting :
      (k : KeydClient) (s : Keyd)
      → k.connected ≡ true
      → IsOrdered s.queue
      → s.queue.next_id < u64_mod
      → 9 * length (waiting s.queue.items) + 1 ≤ max_plain
      → Client.pending (child_peer c reader sha256 mac_ok env io) k s
        ≡ (sent_list s, k, ok (some (waiting s.queue.items)))
  pending-waiting k s up a w h = rw (request-pending k s up a h, read_pending-encoded k s.queue a w)
