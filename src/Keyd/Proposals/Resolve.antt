-- ===== src/Keyd/Proposals/Resolve.antt =====
-- A verdict is given once, to the proposal that it names.
use mathlib.Core.Option
use izan_wallet.Base.{
  ℕ, ◌≡◌, ◌≢◌, refl, false, List, [], ◌∷◌, Option, none, some, arith, ◌==◌, if◌then◌else◌, ap, ◌∙◌,
  ==_refl,
}
use izan_wallet.Keyd.Proposals.{
  Proposal, ProposalState, ProposalQueue, is_pending, find, get, settle, settles, resolve,
}
use izan_wallet.Keyd.Proposals.Order.{Ascending, IsOrdered, find_below, resolve-IsOrdered}
use izan_wallet.Keyd.Proposals.Get.{waits}

-- What a verdict makes of a proposal.
abbrev pub judged : ProposalState → Proposal → Proposal
judged verdict p = if is_pending p.state then record p { state = verdict } else p

settles-find :
    (id low high : ℕ) (ps : List Proposal)
    → Ascending low ps high
    → settles id ps ≡ waits (find id ps)
unfolding settles find
settles-find id low high [] a = refl
settles-find id low high (p ∷ ps) a =
    ground (arith, settles-find id p.id high ps a.1, find_below id p.id high ps a.1)

find-settle :
    (id j low high : ℕ) (verdict : ProposalState) (ps : List Proposal)
    → Ascending low ps high
    → find j (settle id verdict ps)
      ≡ (if id == j then Option.map (judged verdict) (find j ps) else find j ps)
unfolding find settle
find-settle id j low high verdict [] a = ground arith
find-settle id j low high verdict (p ∷ ps) a =
    ground (arith, find-settle id j p.id high verdict ps a.1, find_below id p.id high ps a.1)

-- `resolve` reports whether the id was pending.
pub resolve-waits :
    (q : ProposalQueue) (id : ℕ) (verdict : ProposalState)
    → IsOrdered q
    → (resolve q id verdict).0 ≡ waits (get q id)
unfolding resolve get
resolve-waits q id verdict a = settles-find id 0 q.next_id q.items a

-- After `resolve` on an ordered queue a lookup shows the verdict at a pending proposal of that id, and what it showed
-- before everywhere else.
pub get-resolve :
    (q : ProposalQueue) (id j : ℕ) (verdict : ProposalState)
    → IsOrdered q
    → get (resolve q id verdict).1 j
      ≡ (if id == j then Option.map (judged verdict) (get q j) else get q j)
unfolding resolve get
get-resolve q id j verdict a = find-settle id j 0 q.next_id verdict q.items a

settle_missing :
    (id : ℕ) (verdict : ProposalState) (ps : List Proposal)
    → settles id ps ≡ false
    → settle id verdict ps ≡ ps
unfolding settle settles
settle_missing id verdict [] h = refl
settle_missing id verdict (p ∷ ps) h = ground (arith, settle_missing id verdict ps)

resolve_missing :
    (q : ProposalQueue) (id : ℕ) (verdict : ProposalState)
    → (resolve q id verdict).0 ≡ false
    → resolve q id verdict ≡ (false, q)
unfolding resolve
resolve_missing q id verdict h = ground (arith, settle_missing id verdict q.items)

waits-judged :
    (o : Option Proposal) (verdict : ProposalState)
    → verdict ≢ ProposalState.pending
    → waits (Option.map (judged verdict) o) ≡ false
waits-judged none verdict h = refl
waits-judged (some p) verdict h = ground arith

-- In an ordered queue, after a call of `resolve` with a verdict other than pending, a second verdict
-- on the same id is refused and changes nothing.
pub resolve_once :
    (q : ProposalQueue) (id : ℕ) (verdict again : ProposalState)
    → IsOrdered q
    → verdict ≢ ProposalState.pending
    → resolve (resolve q id verdict).1 id again ≡ (false, (resolve q id verdict).1)
resolve_once q id verdict again a h =
    let r = (resolve q id verdict).1 in
    resolve_missing r id again (
      resolve-waits r id again (resolve-IsOrdered q id verdict a)
      ∙ ap waits (get-resolve q id id verdict a)
      ∙ (rw ==_refl (waits-judged (get q id) verdict h)))
