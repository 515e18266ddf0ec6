-- ===== src/Channel/Fifo.antt =====
-- The channel is a queue of messages: first in, first out.
use izan_wallet.Base.{
  ℕ, suc, ◌-◌, ◌≤◌, ◌≡◌, refl, sym, ap, ◌∙◌, Bool, true, false, List, [], ◌∷◌, ◌++◌, ltb,
  if◌then◌else◌, length, Option, none, some, Result, ok, err, arith, append-nil, append_assoc,
  length-append, take-append_eq, drop-append_eq, le→ltb, Bool-cases, ap₂, ◌==◌, >>=-eq-ok, throw_if,
  not, ok-injective, inl, inr,
}
use izan_wallet.Base.Bytes.{Bytes, text, le_bytes, le_value, length-le_bytes, le_value-le_bytes}
use izan_wallet.Channel.{
  a_bytes, header_bytes, key_bytes, max_frame, Stream, StreamLaws, whole, Link, open_link,
  send_frame, send, read_all, recv_ready, recv_from, recv,
}

-- What the users of the two ends do, and what they see of it.
pub data Use : Type 0 where
  sends : Bytes → Use
  receives : Use

pub data Seen : Type 0 where
  sent : Result Bool → Seen
  received : Result (Option Bytes) → Seen

-- The specification: a queue that refuses a message of more than 2 ^ 20 - 17 bytes. Receiving from
-- an empty queue shows the end of the pipe.
abbrev pub queue_step : List Bytes → Use → List Bytes × Seen
queue_step q (sends m) =
    if ltb (max_frame - a_bytes) (length m)
    then (q, sent (err (text "secret channel: frame too large")))
    else (q ++ m ∷ [], sent (ok true))
queue_step [] receives = ([], received (ok none))
queue_step (m ∷ q) receives = (q, received (ok (some m)))

unfoldable pub queue_run : List Bytes → List Use → List Seen
queue_run q [] = []
queue_run q (u ∷ us) = let r = queue_step q u in r.1 ∷ queue_run r.0 us

module _ {State : Type 0} (s : Stream State) where
  abbrev pub link_step : Link State → Use → Link State × Seen
  link_step l (sends m) = let r = send s whole whole m l in (r.0, sent r.1)
  link_step l receives = let r = recv s l in (r.0, received r.1)

  unfoldable pub link_run : Link State → List Use → List Seen
  link_run l [] = []
  link_run l (u ∷ us) = let r = link_step l u in r.1 ∷ link_run r.0 us

read_all-append :
    {State : Type 0}
    → (s : Stream State) (n : ℕ) (l : Link State) (p rest : Bytes) → l.wire ≡ p ++ rest
    → length p ≡ n
    → read_all s n l ≡ (record l { wire = rest }, some p)
unfolding read_all
read_all-append s n l p rest e h = rw (
  e,
  le→ltb (length (p ++ rest)) n (omega (arith, length-append p rest)),
  take-append_eq n p rest h,
  drop-append_eq n p rest h,
)

read_all_nil :
    {State : Type 0}
    → (s : Stream State) (n : ℕ) (l : Link State) → l.wire ≡ []
    → read_all s (suc n) l ≡ (record l { wire = [] }, none)
unfolding read_all
read_all_nil s n l e = rw e (ground arith)

-- What stands first in a queue, and what stands behind it.
abbrev first : List Bytes → Option Bytes
first [] = none
first (m ∷ q) = some m

abbrev behind : List Bytes → List Bytes
behind [] = []
behind (m ∷ q) = q

queue_step-receives : (q : List Bytes) → queue_step q receives ≡ (behind q, received (ok (first q)))
queue_step-receives [] = refl
queue_step-receives (m ∷ q) = refl

module _ {State : Type 0} (s : Stream State) (Paired : State → State → Type 0) where
  -- The wire spells the messages of the queue for the pulling state, one frame each.
  abbrev Carries : State → State → Bytes → List Bytes → Type 0
  Carries a b wire [] = (wire ≡ []) × Paired a b
  Carries a b wire (m ∷ q) =
      (ct : Bytes) × (b' : State) × (rest : Bytes) × (wire ≡ le_bytes 4 (length ct) ++ (ct ++ rest))
      × (s.pull b ct ≡ some (b', m))
      × (a_bytes ≤ length ct)
      × (length ct ≤ max_frame)
      × Carries a b' rest q

  -- The link stands for the queue, before and after its header was read.
  data Stands (l : Link State) (q : List Bytes) : Type 0 where
    ready : (b : State) → l.pull_state ≡ some b → Carries l.push_state b l.wire q → Stands l q
    fresh :
        (header rest : Bytes) (b : State)
        → l.pull_state ≡ none
        → l.wire ≡ header ++ rest
        → length header ≡ header_bytes
        → s.init_pull l.key header ≡ some b
        → Carries l.push_state b rest q
        → Stands l q

  recv_ready-frame :
      (l : Link State) (b b' : State) (m ct rest : Bytes)
      → l.wire ≡ le_bytes 4 (length ct) ++ (ct ++ rest)
      → s.pull b ct ≡ some (b', m)
      → a_bytes ≤ length ct
      → length ct ≤ max_frame
      → recv_ready s b l ≡ (record l { pull_state = some b'; wire = rest }, ok (some m))
  unfolding recv_ready
  recv_ready-frame l b b' m ct rest e pulls low high =
      let len : le_value 4 (le_bytes 4 (length ct)) ≡ length ct =
        ap (le_value 4) (sym (append-nil (le_bytes 4 (length ct))))
        ∙ le_value-le_bytes 4 (length ct) [] (omega arith) in
      rw (
        read_all-append s 4 l (le_bytes 4 (length ct)) (ct ++ rest) e
            (length-le_bytes 4 (length ct)),
        len,
        le→ltb (length ct) a_bytes low,
        le→ltb max_frame (length ct) high,
        read_all-append s (length ct) (record l { wire = ct ++ rest }) ct rest refl refl,
        pulls,
      )

  recv_ready_nil :
      (l : Link State) (b : State)
      → l.wire ≡ []
      → recv_ready s b l ≡ (record l { wire = [] }, ok none)
  unfolding recv_ready
  recv_ready_nil l b e = rw (read_all_nil s 3 l e)

  send_fits :
      (l : Link State) (m : Bytes)
      → ltb (max_frame - a_bytes) (length m) ≡ false
      → send s whole whole m l ≡ (
        record l {
          push_state = (s.push l.push_state m).0;
          wire =
              l.wire
              ++ (le_bytes 4 (length (s.push l.push_state m).1) ++ (s.push l.push_state m).1);
        },
        ok true,
      )
  unfolding send send_frame
  send_fits l m h = rw (
    h,
    append_assoc l.wire (le_bytes 4 (length (s.push l.push_state m).1)) (s.push l.push_state m).1,
  )

  recv_ready-Stands :
      (b : State) (l : Link State) (q : List Bytes)
      → l.pull_state ≡ some b
      → Carries l.push_state b l.wire q
      → ((recv_ready s b l).1 ≡ ok (first q)) × Stands (recv_ready s b l).0 (behind q)
  recv_ready-Stands b l [] e (w, p) = rw (recv_ready_nil l b w) (refl, ready b e (refl, p))
  recv_ready-Stands b l (m ∷ q) e (ct, b', rest, w, pulls, low, high, c) =
      rw (recv_ready-frame l b b' m ct rest w pulls low high) (refl, ready b' refl c)

  recv_from-Stands :
      (p : Option State) (l : Link State) (q : List Bytes)
      → l.pull_state ≡ p
      → Stands l q
      → ((recv_from s p l).1 ≡ ok (first q)) × Stands (recv_from s p l).0 (behind q)
  unfolding recv_from
  recv_from-Stands none l q e (ready b e' c) = cc
  recv_from-Stands (some b) l q e (ready b' e' c) =
      let same : b' ≡ b = cc in recv_ready-Stands b l q e (rw (← same) c)
  recv_from-Stands (some b) l q e (fresh header rest b' e' w n i c) = cc
  recv_from-Stands none l q e (fresh header rest b e' w n i c) =
      rw (read_all-append s header_bytes l header rest w n, i)
        (recv_ready-Stands b (record l { wire = rest; pull_state = some b }) q refl c)

  open_link-fresh :
      (key : Bytes) (l : Link State)
      → open_link s whole key ≡ ok l
      → l ≡ record {
        key = key;
        push_state = (s.init_push key).0;
        pull_state = none;
        wire = (s.init_push key).1;
      }
  unfolding open_link
  open_link-fresh key l e =
      let (_, _, later) =
        >>=-eq-ok (throw_if (not (length key == key_bytes)) (text "secret channel: bad key size")) _
          e in
      sym (ok-injective later)

  module _ (laws : StreamLaws s Paired) where
    Carries-push :
        (a b : State) (wire m : Bytes) (q : List Bytes)
        → length m ≤ max_frame - a_bytes
        → Carries a b wire q
        → Carries
            (s.push a m).0
            b
            (wire ++ (le_bytes 4 (length (s.push a m).1) ++ (s.push a m).1))
            (q ++ m ∷ [])
    Carries-push a b wire m [] h (e, p) =
        let (b', pulls, paired) = laws.push_pulls a b m p in
        let ct = (s.push a m).1 in
        (
          ct,
          b',
          [],
          rw (e, append-nil ct),
          pulls,
          omega (arith, laws.push_length a m),
          omega (arith, laws.push_length a m),
          (refl, paired),
        )
    Carries-push a b wire m (n ∷ q) h (ct, b', rest, e, pulls, low, high, c) = (
      ct,
      b',
      rest ++ (le_bytes 4 (length (s.push a m).1) ++ (s.push a m).1),
      rw e (simp append_assoc),
      pulls,
      low,
      high,
      Carries-push a b' rest m q h c,
    )

    send-Stands :
        (l : Link State) (m : Bytes) (q : List Bytes)
        → length m ≤ max_frame - a_bytes
        → Stands l q
        → Stands (send s whole whole m l).0 (q ++ m ∷ [])
    send-Stands l m q h (ready b e c) =
        rw (send_fits l m (le→ltb (max_frame - a_bytes) (length m) h))
          (ready b e (Carries-push l.push_state b l.wire m q h c))
    send-Stands l m q h (fresh header rest b e w n i c) =
        rw (send_fits l m (le→ltb (max_frame - a_bytes) (length m) h)) (
          fresh header _ b e (rw w (append_assoc header rest _)) n i
            (Carries-push l.push_state b rest m q h c))

    link_step-Stands :
        (l : Link State) (q : List Bytes) (u : Use)
        → Stands l q
        → ((link_step s l u).1 ≡ (queue_step q u).1) × Stands (link_step s l u).0 (queue_step q u).0
    unfolding recv
    link_step-Stands l q receives st =
        let r = recv_from-Stands l.pull_state l q refl st in
        rw (queue_step-receives q) (ap received r.0, r.1)
    link_step-Stands l q (sends m) st = elim (Bool-cases (ltb (max_frame - a_bytes) (length m))) [
      | inl big ↦ rw big (unfold send in rw big (refl, st))
      | inr fits ↦
          rw fits (ap (λ r. sent r.1) (send_fits l m fits), send-Stands l m q (ground arith) st)
    ]

    link_run-Stands :
        (us : List Use) (l : Link State) (q : List Bytes)
        → Stands l q
        → link_run s l us ≡ queue_run q us
    unfolding link_run queue_run
    link_run-Stands [] l q st = refl
    link_run-Stands (u ∷ us) l q st =
        let r = link_step-Stands l q u st in
        ap₂ ◌∷◌ r.0 (link_run-Stands us (link_step s l u).0 (queue_step q u).0 r.1)

    -- Under the laws of the secretstream, one direction of the channel, opened over pipes that work,
    -- is a queue of messages: whatever messages are sent and received in whatever order, the two
    -- ends see exactly what they would see of a queue, the refusal of a message that is too large
    -- included. A receive while nothing is left to read, which blocks on an open pipe, is the end of
    -- the pipe here.
    pub link_run-queue_run :
        (key : Bytes) (l : Link State) (us : List Use)
        → open_link s whole key ≡ ok l
        → link_run s l us ≡ queue_run [] us
    link_run-queue_run key l us e =
        let (b, i, p) = laws.header_pulls key in
        link_run-Stands us l [] (
          rw (open_link-fresh key l e) (
            fresh (s.init_push key).1 [] b refl (sym (append-nil (s.init_push key).1))
              (laws.header_length key) i (refl, p)))
