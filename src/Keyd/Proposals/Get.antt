-- ===== src/Keyd/Proposals/Get.antt =====
-- What a lookup finds after a submission.
use izan_wallet.Base.{
  ℕ, ◌+◌, ◌<◌, ◌≡◌, refl, Bool, true, false, List, [], ◌∷◌, ◌++◌, Option, none, some, arith, ◌==◌,
  if◌then◌else◌,
}
use izan_wallet.Base.Bytes.{Bytes}
use izan_wallet.Keyd.Proposals.{
  Proposal, ProposalState, Provenance, ProposalQueue, is_pending, u64_mod, new_proposal, fresh_id,
  submit, find, get, state_in, state_of, pending_in, pending_ids,
}
use izan_wallet.Keyd.Proposals.Order.{Ascending, IsOrdered, find_above, find_below}

-- The state that a lookup shows.
abbrev pub shown : Option Proposal → ProposalState
shown none = ProposalState.unknown
shown (some p) = p.state

state_in-find : (id : ℕ) (ps : List Proposal) → state_in id ps ≡ shown (find id ps)
unfolding state_in find
state_in-find id [] = refl
state_in-find id (p ∷ ps) = ground (arith, state_in-find id ps)

pub state_of-get : (q : ProposalQueue) (id : ℕ) → state_of q id ≡ shown (get q id)
unfolding state_of get
state_of-get q id = state_in-find id q.items

find-append :
    (j low high : ℕ) (ps : List Proposal) (p : Proposal)
    → Ascending low ps high
    → high < p.id
    → find j (ps ++ p ∷ []) ≡ (if j == p.id then some p else find j ps)
unfolding find
find-append j low high [] p a h = ground arith
find-append j low high (x ∷ ps) p a h =
    ground (arith, find-append j x.id high ps p a.1 h, find_above p.id low high (x ∷ ps) a h)

-- In an ordered queue whose next id does not wrap around, a submission is found under its new id,
-- pending and with its own bytes, and no other lookup changes.
pub get-submit :
    (q : ProposalQueue) (payload : Bytes) (provenance : Provenance) (j : ℕ)
    → IsOrdered q
    → q.next_id + 1 < u64_mod
    → get (submit q payload provenance).1 j ≡ (
        if j == q.next_id + 1
        then some (new_proposal (q.next_id + 1) payload provenance)
        else get q j)
unfolding get submit
get-submit q payload provenance j a h =
    let e : fresh_id q ≡ q.next_id + 1 = omega arith in
    rw e (find-append j 0 q.next_id q.items _ a (omega arith))

-- Whether a lookup shows a proposal that waits.
abbrev pub waits : Option Proposal → Bool
waits none = false
waits (some p) = is_pending p.state

pub has_id : ℕ → List ℕ → Bool
has_id j [] = false
has_id j (i ∷ is) = if i == j then true else has_id j is

has_id-pending_in :
    (j low high : ℕ) (ps : List Proposal)
    → Ascending low ps high
    → has_id j (pending_in ps) ≡ waits (find j ps)
unfolding has_id pending_in find
has_id-pending_in j low high [] a = refl
has_id-pending_in j low high (p ∷ ps) a =
    ground (arith, has_id-pending_in j p.id high ps a.1, find_below j p.id high ps a.1)

-- In an ordered queue `pending_ids` lists exactly the ids under which a lookup shows a pending
-- proposal.
pub has_id-pending_ids :
    (q : ProposalQueue) (j : ℕ) → IsOrdered q → has_id j (pending_ids q) ≡ waits (get q j)
unfolding pending_ids get
has_id-pending_ids q j a = has_id-pending_in j 0 q.next_id q.items a
