-- ===== src/Keyd/Proposals/Count.antt =====
-- How many proposals of a queue are approved.
use izan_wallet.Base.{
  ℕ, suc, ◌≡◌, refl, Bool, true, false, List, [], ◌∷◌, some, arith, count, count-append,
}
use izan_wallet.Base.Bytes.{Bytes}
use izan_wallet.Keyd.Proposals.{
  Proposal, ProposalState, Provenance, ProposalQueue, is_pending, submit, find, get, settle,
  settles, resolve,
}

abbrev pub is_approved : ProposalState → Bool
is_approved ProposalState.pending = false
is_approved ProposalState.approved = true
is_approved ProposalState.denied = false
is_approved ProposalState.unknown = false

unfoldable pub approved_count : ProposalQueue → ℕ
approved_count q = count (λ p. is_approved p.state) q.items

pub approved_count-submit :
    (q : ProposalQueue) (payload : Bytes) (provenance : Provenance)
    → approved_count (submit q payload provenance).1 ≡ approved_count q
unfolding approved_count submit
approved_count-submit q payload provenance =
    omega (arith, count-append (λ (p : Proposal). is_approved p.state) q.items _)

count-settle_denied :
    (id : ℕ) (ps : List Proposal)
    → count (λ p. is_approved p.state) (settle id ProposalState.denied ps)
      ≡ count (λ p. is_approved p.state) ps
unfolding settle
count-settle_denied id [] = refl
count-settle_denied id (p ∷ ps) = ground (arith, count-settle_denied id ps)

count-settle_approved :
    (id : ℕ) (ps : List Proposal)
    → settles id ps ≡ true
    → count (λ p. is_approved p.state) (settle id ProposalState.approved ps)
      ≡ suc (count (λ p. is_approved p.state) ps)
unfolding settle settles
count-settle_approved id [] h = cc
count-settle_approved id (p ∷ ps) h = ground (arith, count-settle_approved id ps)

pub approved_count-denied :
    (q : ProposalQueue) (id : ℕ)
    → approved_count (resolve q id ProposalState.denied).1 ≡ approved_count q
unfolding approved_count resolve
approved_count-denied q id = count-settle_denied id q.items

settles-find :
    (id : ℕ) (ps : List Proposal) (p : Proposal)
    → find id ps ≡ some p
    → is_pending p.state ≡ true
    → settles id ps ≡ true
unfolding settles find
settles-find id [] p h w = cc
settles-find id (x ∷ ps) p h w = ground (arith, settles-find id ps p)

-- An approval of a pending proposal adds one.
pub approved_count-approved :
    (q : ProposalQueue) (id : ℕ) (p : Proposal)
    → get q id ≡ some p
    → is_pending p.state ≡ true
    → approved_count (resolve q id ProposalState.approved).1 ≡ suc (approved_count q)
unfolding approved_count resolve get
approved_count-approved q id p h w =
    count-settle_approved id q.items (settles-find id q.items p h w)
