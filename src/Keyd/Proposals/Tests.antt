-- ===== src/Keyd/Proposals/Tests.antt =====
-- The queue on a concrete history.
use izan_wallet.Base.{◌≢◌, refl, List, [], ◌∷◌, arith, ◌≡◌, false}
use izan_wallet.Keyd.Proposals.{
  Proposal, ProposalState, Provenance, ProposalQueue, new_proposal, find, get, resolve,
}
use izan_wallet.Keyd.Proposals.Order.{IsOrdered}
use izan_wallet.Keyd.Proposals.Resolve.{resolve_once}
use izan_wallet.Keyd.Proposals.History.{Call, submits, resolves, run, StillShows, run-StillShows}

abbrev first : Proposal
first = new_proposal 1 (7 ∷ 8 ∷ []) Provenance.ui

abbrev second : Proposal
second = new_proposal 2 (9 ∷ []) Provenance.anonymous

abbrev two : ProposalQueue
two = record { items = first ∷ second ∷ []; next_id = 2 }

two-IsOrdered : IsOrdered two
two-IsOrdered = omega arith

approved-ne-pending : ProposalState.approved ≢ ProposalState.pending
approved-ne-pending e = ground arith

resolve_once_example :
    resolve (resolve two 1 ProposalState.approved).1 1 ProposalState.denied
    ≡ (false, (resolve two 1 ProposalState.approved).1)
resolve_once_example =
    resolve_once two 1 ProposalState.approved ProposalState.denied two-IsOrdered approved-ne-pending

abbrev calls : List Call
calls =
    resolves 2 ProposalState.approved
    ∷ submits (1 ∷ []) Provenance.ui
    ∷ resolves 1 ProposalState.denied
    ∷ []

run-StillShows_example : StillShows first (get (run two calls) 1)
unfolding get find
run-StillShows_example = run-StillShows two calls first 1 two-IsOrdered (omega arith) refl
