-- ===== src/Keyd/Proposals.antt =====
-- keyd/proposals.hpp: the queue of transactions that wait for a human. The mutex makes each method
-- one step, so a history of the two threads is a list of calls.
pub mod Order
pub mod Get
pub mod Resolve
pub mod History
pub mod Count
mod Tests
use izan_wallet.Base.{
  ℕ, ◌+◌, ◌%◌, ◌^◌, Bool, true, false, ◌&&◌, List, [], ◌∷◌, ◌++◌, Option, none, some, ◌==◌,
  if◌then◌else◌,
}
use izan_wallet.Base.Bytes.{Bytes}

pub data ProposalState : Type 0 where
  pending approved denied unknown : ProposalState

pub data Provenance : Type 0 where
  anonymous ui : Provenance

abbrev pub provenance_byte : Provenance → ℕ
provenance_byte Provenance.anonymous = 0
provenance_byte Provenance.ui = 1

abbrev pub state_byte : ProposalState → ℕ
state_byte ProposalState.pending = 0
state_byte ProposalState.approved = 1
state_byte ProposalState.denied = 2
state_byte ProposalState.unknown = 3

abbrev pub is_pending : ProposalState → Bool
is_pending ProposalState.pending = true
is_pending ProposalState.approved = false
is_pending ProposalState.denied = false
is_pending ProposalState.unknown = false

pub record Proposal : Type 0 where
  pub id : ℕ
  pub provenance : Provenance
  pub state : ProposalState
  pub payload : Bytes

pub record ProposalQueue : Type 0 where
  pub items : List Proposal
  pub next_id : ℕ

abbrev pub empty : ProposalQueue
empty = record { items = []; next_id = 0 }

abbrev pub u64_mod : ℕ
u64_mod = 2 ^ 64

-- `++m_next_id`
abbrev pub fresh_id : ProposalQueue → ℕ
fresh_id q = (q.next_id + 1) % u64_mod

abbrev pub new_proposal : ℕ → Bytes → Provenance → Proposal
new_proposal id payload provenance = record {
  id = id;
  provenance = provenance;
  state = ProposalState.pending;
  payload = payload;
}

-- The id that it hands out, and the queue with the proposal at its end.
unfoldable pub submit : ProposalQueue → Bytes → Provenance → ℕ × ProposalQueue
submit q payload provenance = (
  fresh_id q,
  record {
    items = q.items ++ new_proposal (fresh_id q) payload provenance ∷ [];
    next_id = fresh_id q;
  },
)

unfoldable pub find : ℕ → List Proposal → Option Proposal
find id [] = none
find id (p ∷ ps) = if p.id == id then some p else find id ps

unfoldable pub get : ProposalQueue → ℕ → Option Proposal
get q id = find id q.items

pub state_in : ℕ → List Proposal → ProposalState
state_in id [] = ProposalState.unknown
state_in id (p ∷ ps) = if p.id == id then p.state else state_in id ps

pub state_of : ProposalQueue → ℕ → ProposalState
state_of q id = state_in id q.items

-- The first proposal of that id that is pending takes the verdict.
pub settle : ℕ → ProposalState → List Proposal → List Proposal
settle id verdict [] = []
settle id verdict (p ∷ ps) =
    if p.id == id && is_pending p.state
    then record p { state = verdict } ∷ ps
    else p ∷ settle id verdict ps

pub settles : ℕ → List Proposal → Bool
settles id [] = false
settles id (p ∷ ps) = if p.id == id && is_pending p.state then true else settles id ps

pub resolve : ProposalQueue → ℕ → ProposalState → Bool × ProposalQueue
resolve q id verdict = (settles id q.items, record q { items = settle id verdict q.items })

unfoldable pub pending_in : List Proposal → List ℕ
pending_in [] = []
pending_in (p ∷ ps) = let rest = pending_in ps in if is_pending p.state then p.id ∷ rest else rest

unfoldable pub pending_ids : ProposalQueue → List ℕ
pending_ids q = pending_in q.items
