-- ===== src/Keyd/Proposals/History.antt =====
-- Any history of the queue, from the proposal pipe and the password channel together.
use izan_wallet.Base.{
  ◌⊎◌, inl, inr, Bool-cases, true, ℕ, ◌+◌, ◌≤◌, ◌<◌, ◌≡◌, ◌≢◌, refl, List, [], ◌∷◌, Option, some,
  arith, ◌==◌, if◌then◌else◌, length, ◌∙◌,
}
use izan_wallet.Base.Bytes.{Bytes}
use izan_wallet.Keyd.Proposals.{
  Proposal, ProposalState, Provenance, ProposalQueue, is_pending, u64_mod, get, submit, resolve,
}
use izan_wallet.Keyd.Proposals.Order.{IsOrdered, submit-IsOrdered, resolve-IsOrdered, find_above}
use izan_wallet.Keyd.Proposals.Get.{get-submit}
use izan_wallet.Keyd.Proposals.Resolve.{judged, get-resolve}

pub data Call : Type 0 where
  submits : Bytes → Provenance → Call
  resolves : ℕ → ProposalState → Call

pub apply : ProposalQueue → Call → ProposalQueue
apply q (submits payload provenance) = (submit q payload provenance).1
apply q (resolves id verdict) = (resolve q id verdict).1

pub run : ProposalQueue → List Call → ProposalQueue
run q [] = q
run q (c ∷ cs) = run (apply q c) cs

pub apply-IsOrdered :
    (q : ProposalQueue) (c : Call) → IsOrdered q → q.next_id + 1 < u64_mod → IsOrdered (apply q c)
unfolding apply
apply-IsOrdered q (submits payload provenance) a h = submit-IsOrdered q payload provenance a h
apply-IsOrdered q (resolves id verdict) a h = resolve-IsOrdered q id verdict a

apply-next_id :
    (q : ProposalQueue) (c : Call) → q.next_id + 1 < u64_mod → (apply q c).next_id ≤ q.next_id + 1
unfolding apply submit resolve
apply-next_id q (submits payload provenance) h = omega arith
apply-next_id q (resolves id verdict) h = omega arith

-- A verdict that was given stands.
abbrev pub KeepsVerdict : Proposal → Proposal → Type 0
KeepsVerdict p p' = (is_pending p.state ≡ true) ⊎ (p'.state ≡ p.state)

-- What a later lookup must show of a proposal `p`: its bytes and its provenance, and its verdict if
-- it has one.
abbrev pub StillShows : Proposal → Option Proposal → Type 0
StillShows p o =
    (p' : Proposal) × (o ≡ some p')
    × (p'.payload ≡ p.payload)
    × (p'.provenance ≡ p.provenance)
    × KeepsVerdict p p'

get_fresh :
    (q : ProposalQueue) (p : Proposal) (j : ℕ) → IsOrdered q → get q j ≡ some p → j ≢ q.next_id + 1
unfolding get
get_fresh q p j a h e = cc (h, find_above j 0 q.next_id q.items a (omega arith))

apply-StillShows :
    (q : ProposalQueue) (c : Call) (p : Proposal) (j : ℕ)
    → IsOrdered q
    → q.next_id + 1 < u64_mod
    → get q j ≡ some p
    → StillShows p (get (apply q c) j)
unfolding apply
apply-StillShows q (submits payload provenance) p j a h e = (
  p,
  ground (arith, get-submit q payload provenance j a h, get_fresh q p j a e),
  refl,
  refl,
  inr refl,
)
apply-StillShows q (resolves id verdict) p j a h e = (
  if id == j then judged verdict p else p,
  ground (arith, get-resolve q id j verdict a),
  ground arith,
  ground arith,
  elim (Bool-cases (is_pending p.state)) [ inl w ↦ inl w | inr w ↦ inr (ground arith) ],
)

-- Whatever calls follow on an ordered queue, a proposal once queued keeps its bytes and its
-- provenance, and a verdict once given stays, as long as no id wraps around.
pub run-StillShows :
    (q : ProposalQueue) (cs : List Call) (p : Proposal) (j : ℕ)
    → IsOrdered q
    → q.next_id + length cs < u64_mod
    → get q j ≡ some p
    → StillShows p (get (run q cs) j)
unfolding run
run-StillShows q [] p j a h e = (p, e, refl, refl, inr refl)
run-StillShows q (c ∷ cs) p j a h e =
    let (p', e', same_bytes, same_source, same_verdict) =
      apply-StillShows q c p j a (omega arith) e in
    let (r, found, bytes, source, verdict) =
      run-StillShows (apply q c) cs p' j (apply-IsOrdered q c a (omega arith))
        (omega (arith, apply-next_id q c)) e' in
    (r, found, bytes ∙ same_bytes, source ∙ same_source, ground arith)

-- Every reachable queue is ordered.
pub run-IsOrdered :
    (q : ProposalQueue) (cs : List Call)
    → IsOrdered q
    → q.next_id + length cs < u64_mod
    → IsOrdered (run q cs)
unfolding run
run-IsOrdered q [] a h = a
run-IsOrdered q (c ∷ cs) a h =
    run-IsOrdered (apply q c) cs (apply-IsOrdered q c a (omega arith))
      (omega (arith, apply-next_id q c))
