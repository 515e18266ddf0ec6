-- ===== src/Keyd/Child/Books/Approvals.antt =====
-- Approve, and with it every event, keeps the books.
use izan_wallet.Base.{
  ℕ, suc, ◌≤◌, ◌≡◌, refl, true, [], ◌∷◌, ltb, length, drop, Option, none, some, Result, ok, err,
  fault, arith, count-append, Bool-cases, inl, inr,
}
use izan_wallet.Base.Bytes.{Bytes, text, beq}
use izan_wallet.Vault.Payload.{Wallet}
use izan_wallet.Keyd.Protocol.{Op, get_u64le}
use izan_wallet.Keyd.Proposals.{Proposal, ProposalState, is_pending, get, resolve}
use izan_wallet.Keyd.Proposals.Count.{approved_count, approved_count-approved}
use izan_wallet.Keyd.Audit.{AuditLog, append}
use izan_wallet.Keyd.Crypto.{Crypto}
use izan_wallet.Keyd.Child.{
  Keyd, M, pass_on, ◌>>◌, send, send_op, audit_append, note_event, set_bad_pass, count_bad_pass,
  set_queue, throttle_bad_pass, Env,
}
use izan_wallet.Keyd.Child.Sign.{Signature, SolReader, reply_op, reply_body}
use izan_wallet.Keyd.Child.Approve.{
  approve_event, badpass_event, sign_fail_event, if_pending, resolve_in, approve_signed,
  approve_result, approve_found, approve_opened, approve,
}
use izan_wallet.Keyd.Child.Books.{
  is_signature, is_approval, signatures, approvals, Books, IsQuiet, Quiet-Books, seq-IsQuiet,
  lift-IsQuiet, send_err-IsQuiet, count_bad_pass-IsQuiet, throttle_bad_pass-IsQuiet,
  audit_append-IsQuiet,
}

-- A proposal is approved whose approval is not recorded yet.
abbrev Owed : Keyd → Type 0
Owed s = (signatures s ≤ approvals s) × (suc (approvals s) ≤ approved_count s.queue)

-- An approval is recorded whose signature is not handed out yet.
abbrev Due : Keyd → Type 0
Due s = (suc (signatures s) ≤ approvals s) × (approvals s ≤ approved_count s.queue)

keep-Books : {A : Type 0} → (m : M A) (s : Keyd) → IsQuiet m → Books s → Books (m s).0
unfolding IsQuiet
keep-Books m s q b = Quiet-Books s (m s).0 (q s) b

passed-Books :
    {A B : Type 0}
    → (k : M B) (r : Keyd × Result A) → ((t : Keyd) → Books t → Books (k t).0)
    → Books r.0
    → Books (pass_on (λ _. k) r).0
unfolding pass_on
passed-Books k (t, ok a) h b = h t b
passed-Books k (t, err e) h b = b
passed-Books k (t, fault) h b = b

seq-Books :
    {A B : Type 0}
    → (m : M A) (k : M B) (s : Keyd) → IsQuiet m
    → ((t : Keyd) → Books t → Books (k t).0)
    → Books s
    → Books ((m >> k) s).0
unfolding ◌>>◌
seq-Books m k s q h b = passed-Books k (m s) h (keep-Books m s q b)

send-Due : (frame : Bytes) (s : Keyd) → Due s → Books (send frame s).0
unfolding send
send-Due frame s d = ground (arith, count-append is_signature s.sent (frame ∷ []))

send_op-Due : (op : Op) (body : Bytes) (s : Keyd) → Due s → Books (send_op op body s).0
unfolding send_op
send_op-Due op body s d = send-Due _ s d

module _ (sha256 : Bytes → Bytes) where
  note_event-Owed :
      (event : Bytes) (op : Op) (body : Bytes) (s : Keyd) (r : AuditLog × Result (Unit {0}))
      → is_approval event ≡ true
      → Owed s
      → Books (pass_on (λ _. send_op op body) (note_event sha256 event s r)).0
  unfolding note_event pass_on
  note_event-Owed event op body s (a, ok u) h o =
      send_op-Due op body _ (ground (arith, count-append is_approval s.recorded (event ∷ [])))
  note_event-Owed event op body s (a, err e) h o = omega arith
  note_event-Owed event op body s (a, fault) h o = omega arith

  approve_event-recorded : (id : ℕ) (sig : Signature) → is_approval (approve_event id sig) ≡ true
  unfolding approve_event is_approval text beq
  approve_event-recorded id sig = refl

  approve_signed-Books :
      {Hd : Type 0} (c : Crypto Hd) (reader : SolReader) (env : Env) (id : ℕ) (sig : Signature)
      (s : Keyd) (p : Proposal)
      → get s.queue id ≡ some p
      → is_pending p.state ≡ true
      → Books s
      → Books (approve_signed c reader sha256 env id sig s).0
  unfolding approve_signed resolve_in set_queue ◌>>◌ pass_on audit_append
  approve_signed-Books c reader env id sig s p g w b =
      let q = (resolve s.queue id ProposalState.approved).1 in
      let t = record s { queue = q } in
      note_event-Owed (approve_event id sig) (reply_op sig) (reply_body sig) t
        (append sha256 env.io (approve_event id sig) s.audit) (approve_event-recorded id sig)
        (omega (arith, approved_count-approved s.queue id p g w))

module _ {Hd : Type 0} (c : Crypto Hd) (reader : SolReader) (sha256 : Bytes → Bytes) where
  approve_result-Books :
      (env : Env) (id : ℕ) (r : Result Signature) (s : Keyd) (p : Proposal)
      → get s.queue id ≡ some p
      → is_pending p.state ≡ true
      → Books s
      → Books (approve_result c reader sha256 env id r s).0
  unfolding approve_result is_approval text beq
  approve_result-Books env id (ok sig) s p g w b =
      approve_signed-Books sha256 c reader env id sig s p g w b
  approve_result-Books env id (err e) s p g w b =
      keep-Books _ s
        (seq-IsQuiet _ _ (audit_append-IsQuiet sha256 env.io (sign_fail_event id) refl)
          (send_err-IsQuiet e))
        b
  approve_result-Books env id fault s p g w b = keep-Books _ s (lift-IsQuiet _) b

  approve_found-Books :
      (env : Env) (id : ℕ) (opened : Wallet) (s : Keyd) (o : Option Proposal)
      → get s.queue id ≡ o
      → Books s
      → Books (approve_found c reader sha256 env id opened (if_pending o) s).0
  unfolding approve_found
  approve_found-Books env id opened s none g b = keep-Books _ s (send_err-IsQuiet _) b
  approve_found-Books env id opened s (some p) g b = elim (Bool-cases (is_pending p.state)) [
    | inl w ↦ rw w (approve_result-Books env id _ s p g w b)
    | inr w ↦ rw w (keep-Books _ s (send_err-IsQuiet _) b)
  ]

  approve_opened-Books :
      (env : Env) (id : ℕ) (r : Result Wallet) (s : Keyd)
      → Books s
      → Books (approve_opened c reader sha256 env id r s).0
  unfolding approve_opened ◌>>◌ pass_on set_bad_pass is_approval text beq
  approve_opened-Books env id (ok opened) s b =
      approve_found-Books env id opened (record s { bad_pass = 0 }) (get s.queue id) refl b
  approve_opened-Books env id (err e) s b =
      keep-Books _ s
        (seq-IsQuiet count_bad_pass _ count_bad_pass-IsQuiet (
          seq-IsQuiet _ _ (audit_append-IsQuiet sha256 env.io (badpass_event id) refl)
            (send_err-IsQuiet _)))
        b
  approve_opened-Books env id fault s b = b

  pub approve-Books :
      (env : Env) (frame : Bytes) (s : Keyd)
      → Books s
      → Books (approve c reader sha256 env frame s).0
  unfolding approve
  approve-Books env frame s b = elim (Bool-cases (ltb (length frame) 9)) [
    | inl w ↦ rw w (keep-Books _ s (send_err-IsQuiet _) b)
    | inr w ↦ rw w (
        seq-Books throttle_bad_pass _ s throttle_bad_pass-IsQuiet
          (approve_opened-Books env (get_u64le (drop 1 frame)) (env.opens (drop 9 frame))) b)
  ]
