-- ===== src/Keyd/Child/Approval.antt =====
-- keyd/child.cpp: what stands behind a signature, what an approval with a wrong passphrase leaves, and
-- what a lock leaves.
use izan_wallet.Base.{
  ℕ, suc, ◌+◌, ◌≡◌, refl, ◌∙◌, Bool, true, [], ◌∷◌, ◌++◌, ltb, length, Option, none, some, Result,
  ok, err, fault, Bool-cases, inl, inr, ◌⊎◌, ap, arith,
}
use izan_wallet.Base.Bytes.{Bytes, text}
use izan_wallet.Vault.Payload.{Wallet}
use izan_wallet.Keyd.Protocol.{code_of}
use izan_wallet.Keyd.Proposals.{Proposal, ProposalState, is_pending, get, resolve}
use izan_wallet.Keyd.Audit.{AuditLog, Stdio, append}
use izan_wallet.Keyd.Crypto.{Crypto}
use izan_wallet.Keyd.Child.{
  Keyd, pass_on, ◌>>◌, send, send_op, send_err, lift, audit_append, note_event, set_bad_pass,
  count_bad_pass, set_wallet, set_queue, max_plain, Env,
}
use izan_wallet.Keyd.Child.Sign.{Signature, SolReader, sign_proposal, reply_op, reply_body}
use izan_wallet.Keyd.Child.Approve.{
  approve_event, badpass_event, sign_fail_event, if_pending, resolve_in, approve_signed,
  approve_result, approve_found, approve_opened,
}
use izan_wallet.Keyd.Child.Books.{signatures, IsQuiet, send_err-IsQuiet}
use izan_wallet.Keyd.Child.Loop.{autolock, step, threaded, lock_notice}

-- The queue, the wallet and the signatures handed out are as they were.
abbrev pub Untouched : Keyd → Keyd → Type 0
Untouched s t = (t.queue ≡ s.queue) × (t.wallet ≡ s.wallet) × (signatures t ≡ signatures s)

send_err-signatures : (reason : Bytes) (s : Keyd) → signatures (send_err reason s).0 ≡ signatures s
unfolding IsQuiet
send_err-signatures reason s = (send_err-IsQuiet reason s).0

send_err-Untouched :
    (reason : Bytes) (s : Keyd)
    → Untouched s (send_err reason s).0 × ((send_err reason s).0.bad_pass ≡ s.bad_pass)
unfolding send_err send
send_err-Untouched reason s = elim (Bool-cases (ltb max_plain (suc (length reason)))) [
  | inl w ↦ ((rw w, rw w, send_err-signatures reason s), rw w)
  | inr w ↦ ((rw w, rw w, send_err-signatures reason s), rw w)
]

threaded-wallet : (r : Keyd × Result (Unit {0})) → (threaded r).0.wallet ≡ r.0.wallet
threaded-wallet (s, ok u) = refl
threaded-wallet (s, err e) = refl
threaded-wallet (s, fault) = refl

module _ {Hd : Type 0} (c : Crypto Hd) (reader : SolReader) (sha256 : Bytes → Bytes) where
  noted-Untouched :
      (event reason : Bytes) (s : Keyd) (r : AuditLog × Result (Unit {0}))
      → Untouched s (pass_on (λ _. send_err reason) (note_event sha256 event s r)).0
        × ((pass_on (λ _. send_err reason) (note_event sha256 event s r)).0.bad_pass ≡ s.bad_pass)
  unfolding note_event pass_on
  noted-Untouched event reason s (a, ok u) = send_err-Untouched reason _
  noted-Untouched event reason s (a, err e) = ((refl, refl, refl), refl)
  noted-Untouched event reason s (a, fault) = ((refl, refl, refl), refl)

  -- An approval whose passphrase does not open the vault counts as one bad passphrase more, and
  -- leaves the queue, the wallet and the signatures handed out as they were, whatever the disk does.
  pub approve-wrong :
      (env : Env) (id : ℕ) (e : Bytes) (s : Keyd)
      → Untouched s (approve_opened c reader sha256 env id (err e) s).0
        × ((approve_opened c reader sha256 env id (err e) s).0.bad_pass ≡ s.bad_pass + 1)
  unfolding approve_opened ◌>>◌ pass_on count_bad_pass audit_append
  approve-wrong env id e s =
      noted-Untouched (badpass_event id) (text "bad passphrase")
        (record s { bad_pass = s.bad_pass + 1 }) (append sha256 env.io (badpass_event id) s.audit)

  -- What stands behind a signature that was handed out.
  pub record Granted (env : Env) (id : ℕ) (opened : Result Wallet) (s t : Keyd) : Type 0 where
    pub wallet : Wallet
    pub proposal : Proposal
    pub signature : Signature
    pub log : AuditLog
    pub opens : opened ≡ ok wallet
    pub there : get s.queue id ≡ some proposal
    pub waits : is_pending proposal.state ≡ true
    pub signs : sign_proposal c reader env.aux wallet proposal.payload ≡ ok signature
    pub logs : append sha256 env.io (approve_event id signature) s.audit ≡ (log, ok tt)
    pub recorded : t.recorded ≡ s.recorded ++ approve_event id signature ∷ []
    pub resolved : t.queue ≡ (resolve s.queue id ProposalState.approved).1
    pub reply : t.sent ≡ s.sent ++ (code_of (reply_op signature) ∷ reply_body signature) ∷ []

  if_pending-inv :
      (o : Option Proposal) (p : Proposal)
      → if_pending o ≡ some p
      → (o ≡ some p) × (is_pending p.state ≡ true)
  if_pending-inv none p h = cc
  if_pending-inv (some q) p h = elim (Bool-cases (is_pending q.state)) [
    | inl waits ↦ let same : q ≡ p = ground (arith, waits) in (ap some same, rw (← same) waits)
    | inr settled ↦ absurd (ground (arith, settled))
  ]

  signed-outcome :
      (env : Env) (id : ℕ) (sig : Signature) (s : Keyd) (r : AuditLog × Result (Unit {0}))
      → let event = approve_event id sig in
        let t =
          (pass_on
            (λ _. send_op (reply_op sig) (reply_body sig))
            (note_event sha256 event s r)).0 in
        (signatures t ≡ signatures s)
        ⊎ ((r.1 ≡ ok tt)
            × (t.recorded ≡ s.recorded ++ event ∷ [])
            × (t.queue ≡ s.queue)
            × (t.sent ≡ s.sent ++ (code_of (reply_op sig) ∷ reply_body sig) ∷ []))
  unfolding note_event pass_on send_op send
  signed-outcome env id sig s (a, err e) = inl refl
  signed-outcome env id sig s (a, fault) = inl refl
  signed-outcome env id sig s (a, ok u) =
      elim (Bool-cases (ltb max_plain (suc (length (reply_body sig))))) [
        | inl long ↦ inl (rw long)
        | inr fits ↦ inr (rw fits (refl, refl, refl, refl))
      ]

  result-outcome :
      (env : Env) (id : ℕ) (w : Wallet) (p : Proposal) (s : Keyd) (r : Result Signature)
      → get s.queue id ≡ some p
      → is_pending p.state ≡ true
      → sign_proposal c reader env.aux w p.payload ≡ r
      → let t = (approve_result c reader sha256 env id r (record s { bad_pass = 0 })).0 in
        (signatures t ≡ signatures s) ⊎ Granted env id (ok w) s t
  unfolding approve_result approve_signed resolve_in set_queue ◌>>◌ audit_append pass_on lift
  result-outcome env id w p s (err e) there waits signs =
      inl (noted-Untouched (sign_fail_event id) e (record s { bad_pass = 0 }) _).0.2
  result-outcome env id w p s fault there waits signs = inl refl
  result-outcome env id w p s (ok sig) there waits signs =
      let q = (resolve s.queue id ProposalState.approved).1 in
      let r = append sha256 env.io (approve_event id sig) s.audit in
      elim (signed-outcome env id sig (record s { bad_pass = 0; queue = q }) r) [
        | inl none_sent ↦ inl none_sent
        | inr (logs, recorded, resolved, reply) ↦ inr (record {
          wallet = w;
          proposal = p;
          signature = sig;
          log = r.0;
          opens = refl;
          there = there;
          waits = waits;
          signs = signs;
          logs = ap (λ x. (r.0, x)) logs;
          recorded = recorded;
          resolved = resolved;
          reply = reply;
        })
      ]

  found-outcome :
      (env : Env) (id : ℕ) (w : Wallet) (s : Keyd) (o : Option Proposal)
      → if_pending (get s.queue id) ≡ o
      → let t = (approve_found c reader sha256 env id w o (record s { bad_pass = 0 })).0 in
        (signatures t ≡ signatures s) ⊎ Granted env id (ok w) s t
  unfolding approve_found
  found-outcome env id w s none e = inl (send_err-signatures (text "unknown proposal") _)
  found-outcome env id w s (some p) e =
      let (there, waits) = if_pending-inv (get s.queue id) p e in
      result-outcome env id w p s (sign_proposal c reader env.aux w p.payload) there waits refl

  -- However an approval ends, whether the vault opens or not and whatever the disk does: either no
  -- signature more is handed out, or the passphrase opened the vault, the proposal was in the queue
  -- and waiting, the signer signed its payload with the wallet of the vault, the disk took the event
  -- with the digest and the signer, the proposal is resolved as approved, and the frame sent last
  -- carries that signature. So no signature leaves when its event does not reach the ledger.
  pub approve-Granted :
      (env : Env) (id : ℕ) (opened : Result Wallet) (s : Keyd)
      → let t = (approve_opened c reader sha256 env id opened s).0 in
        (signatures t ≡ signatures s) ⊎ Granted env id opened s t
  unfolding approve_opened ◌>>◌ pass_on set_bad_pass
  approve-Granted env id (ok w) s = found-outcome env id w s (if_pending (get s.queue id)) refl
  approve-Granted env id (err e) s = inl (approve-wrong env id e s).0.2
  approve-Granted env id fault s = inl refl

  noted-wallet :
      (event : Bytes) (s : Keyd) (r : AuditLog × Result (Unit {0}))
      → (note_event sha256 event s r).0.wallet ≡ s.wallet
  unfolding note_event
  noted-wallet event s (a, ok u) = refl
  noted-wallet event s (a, err e) = refl
  noted-wallet event s (a, fault) = refl

  notice-locked :
      (mac_ok : Bytes → Bytes → Bool) (io : Stdio) (why : Bytes) (s : Keyd) (w : Option Wallet)
      → s.wallet ≡ w
      → (lock_notice c reader sha256 mac_ok io why s).0.wallet ≡ none
  unfolding lock_notice ◌>>◌ pass_on set_wallet audit_append
  notice-locked mac_ok io why s none h = rw h
  notice-locked mac_ok io why s (some w) h = rw h (noted-wallet _ _ _)

  -- An autolock notice leaves no unlocked wallet in the signer, whatever the disk does to its event.
  pub lock_notice-locked :
      (mac_ok : Bytes → Bytes → Bool) (io : Stdio) (why : Bytes) (s : Keyd)
      → (step c reader sha256 mac_ok s (autolock io why)).0.wallet ≡ none
  unfolding step
  lock_notice-locked mac_ok io why s =
      threaded-wallet (lock_notice c reader sha256 mac_ok io why s)
      ∙ notice-locked mac_ok io why s s.wallet refl
