-- ===== src/Keyd/Proposals/Order.antt =====
-- The ids of a queue: ascending, each one handed out once.
use izan_wallet.Base.{ℕ, ◌+◌, ◌≤◌, ◌<◌, ◌≡◌, refl, List, [], ◌∷◌, ◌++◌, none, arith}
use izan_wallet.Base.Bytes.{Bytes}
use izan_wallet.Keyd.Proposals.{
  Proposal, ProposalState, Provenance, ProposalQueue, empty, u64_mod, submit, find, settle, resolve,
}

-- The ids climb from above `low` and end at `high` at most.
abbrev pub Ascending : ℕ → List Proposal → ℕ → Type 0
Ascending low [] high = low ≤ high
Ascending low (p ∷ ps) high = (low < p.id) × Ascending p.id ps high

abbrev pub IsOrdered : ProposalQueue → Type 0
IsOrdered q = Ascending 0 q.items q.next_id

pub Ascending-le : (low high : ℕ) (ps : List Proposal) → Ascending low ps high → low ≤ high
Ascending-le low high [] a = a
Ascending-le low high (p ∷ ps) a = omega (arith, Ascending-le p.id high ps a.1)

pub Ascending-append :
    (low high : ℕ) (ps : List Proposal) (p : Proposal)
    → Ascending low ps high
    → high < p.id
    → Ascending low (ps ++ p ∷ []) p.id
Ascending-append low high [] p a h = (omega arith, omega arith)
Ascending-append low high (x ∷ ps) p a h = (a.0, Ascending-append x.id high ps p a.1 h)

-- An id that lies under the list is not in it.
pub find_below :
    (id low high : ℕ) (ps : List Proposal) → Ascending low ps high → id ≤ low → find id ps ≡ none
unfolding find
find_below id low high [] a h = refl
find_below id low high (p ∷ ps) a h = ground (arith, find_below id p.id high ps a.1)

pub find_above :
    (id low high : ℕ) (ps : List Proposal) → Ascending low ps high → high < id → find id ps ≡ none
unfolding find
find_above id low high [] a h = refl
find_above id low high (p ∷ ps) a h =
    ground (arith, find_above id p.id high ps a.1, Ascending-le p.id high ps a.1)

pub settle-Ascending :
    (id low high : ℕ) (verdict : ProposalState) (ps : List Proposal)
    → Ascending low ps high
    → Ascending low (settle id verdict ps) high
unfolding settle
settle-Ascending id low high verdict [] a = a
settle-Ascending id low high verdict (p ∷ ps) a =
    ground (arith, settle-Ascending id p.id high verdict ps a.1)

pub empty-IsOrdered : IsOrdered empty
empty-IsOrdered = omega arith

pub submit-IsOrdered :
    (q : ProposalQueue) (payload : Bytes) (provenance : Provenance)
    → IsOrdered q
    → q.next_id + 1 < u64_mod
    → IsOrdered (submit q payload provenance).1
unfolding submit
submit-IsOrdered q payload provenance a h = Ascending-append 0 q.next_id q.items _ a (omega arith)

pub resolve-IsOrdered :
    (q : ProposalQueue) (id : ℕ) (verdict : ProposalState)
    → IsOrdered q
    → IsOrdered (resolve q id verdict).1
unfolding resolve
resolve-IsOrdered q id verdict a = settle-Ascending id 0 q.next_id verdict q.items a
