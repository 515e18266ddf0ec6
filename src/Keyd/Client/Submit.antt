-- ===== src/Keyd/Client/Submit.antt =====
-- A proposal of the UI, from the client to the queue of the child.
use izan_wallet.Base.{
  ℕ, suc, ◌^◌, ◌+◌, ◌<◌, ltb, if◌then◌else◌, Bool-cases, inl, inr, ◌≡◌, refl, sym, ap, none, ◌∙◌,
  le→ltb, Bool, true, false, [], ◌∷◌, ◌++◌, length, length-append, take-append_eq, drop-append_eq,
  some, ok, arith, append-nil,
}
use izan_wallet.Base.Bytes.{Bytes, text, length-le_bytes, le_value-le_bytes}
use izan_wallet.Keyd.Protocol.{PipeOp, pipe_code, put_u64le, get_u64le, proposal_mac_bytes}
use izan_wallet.Keyd.Proposals.{Provenance, submit, fresh_id}
use izan_wallet.Keyd.Audit.{AuditLog, Stdio, append}
use izan_wallet.Keyd.Signer.{is_empty}
use izan_wallet.Keyd.Crypto.{Crypto}
use izan_wallet.Keyd.Child.{
  Keyd, pass_on, ◌>>◌, audit_append, note_event, write_message, set_queue, Env,
}
use izan_wallet.Keyd.Child.Sign.{SolReader}
use izan_wallet.Keyd.Child.Plane.{
  submit_event, accept, accept_nonempty, handle_submit, serve_message,
}
use izan_wallet.Keyd.Child.Plane
use izan_wallet.Keyd.Child.Loop.{Event, Life, step}
use izan_wallet.Keyd.Client
use izan_wallet.Keyd.Client.{KeydClient, read_accepted, submit_frame, finish}
use izan_wallet.Keyd.Client.Child.{max_message, child_peer, reply_of-snoc}

read_accepted-put :
    (k : KeydClient) (id : ℕ)
    → id < 2 ^ 64
    → read_accepted k (some (pipe_code PipeOp.accepted ∷ put_u64le id)) ≡ (k, some id)
unfolding read_accepted pipe_code
read_accepted-put k id h =
    let same : get_u64le (put_u64le id) ≡ id =
      ap get_u64le (sym (append-nil (put_u64le id)))
      ∙ le_value-le_bytes 8 id [] (omega (arith, h)) in
    rw (length-le_bytes 8 id, same)

module _ {Hd : Type 0} (c : Crypto Hd) (reader : SolReader) (sha256 : Bytes → Bytes)
    (mac_ok : Bytes → Bytes → Bool) (env : Env) (io : Stdio) where
  abbrev pub event_of : Bytes → Keyd → Bytes
  event_of payload s = submit_event (fresh_id s.queue) Provenance.ui (length payload)

  -- The child behind an accepted proposal.
  abbrev pub accepted_in : Bytes → Keyd → Keyd
  accepted_in payload s = record s {
    queue = (submit s.queue payload Provenance.ui).1;
    audit = (append sha256 io (event_of payload s) s.audit).0;
    recorded = s.recorded ++ event_of payload s ∷ [];
    piped = s.piped ++ (pipe_code PipeOp.accepted ∷ put_u64le (fresh_id s.queue)) ∷ [];
  }

  accept-ok :
      (payload : Bytes) (s : Keyd) (log : AuditLog)
      → append sha256 io (event_of payload s) s.audit ≡ (log, ok tt)
      → accept sha256 mac_ok io Provenance.ui payload s ≡ (accepted_in payload s, ok tt)
  unfolding accept ◌>>◌ pass_on set_queue audit_append note_event write_message submit
  accept-ok payload s log e = rw e refl

  step-submit :
      (mac : Bytes → Bytes) (payload : Bytes) (s : Keyd) (log : AuditLog)
      → length (mac payload) ≡ proposal_mac_bytes
      → mac_ok (mac payload) payload ≡ true
      → is_empty payload ≡ false
      → append sha256 io (event_of payload s) s.audit ≡ (log, ok tt)
      → step c reader sha256 mac_ok s (Event.message io (submit_frame mac payload))
        ≡ (accepted_in payload s, Life.running)
  unfolding step serve_message handle_submit Plane.submit_ui accept_nonempty pipe_code
  step-submit mac payload s log size good there e =
      let body = mac payload ++ payload in
      rw (
        le→ltb (suc (suc (length body))) 2 (omega arith),
        le→ltb (suc (suc (length body))) 34
            (omega (arith, length-append (mac payload) payload, size)),
        take-append_eq 32 (mac payload) payload size,
        drop-append_eq 32 (mac payload) payload size,
        good,
        there,
        accept-ok payload s log e,
      )

  -- A proposal that the UI submits over the pipe with a MAC that the child verifies, whose payload is
  -- not empty and whose event reaches the ledger, is accepted exactly when its message, the payload
  -- and 34 bytes, fits the 65536 bytes of the pipe: then it enters the child's queue with the bytes of
  -- the UI and as the UI's own, and the client is given the id that the queue gave it; otherwise the
  -- child is as before, and the client is given no id and the error "proposal not accepted".
  pub submit_ui-accepted :
      (mac : Bytes → Bytes) (payload : Bytes) (k : KeydClient) (s : Keyd) (log : AuditLog)
      → length (mac payload) ≡ proposal_mac_bytes
      → mac_ok (mac payload) payload ≡ true
      → is_empty payload ≡ false
      → append sha256 io (event_of payload s) s.audit ≡ (log, ok tt)
      → Client.submit_ui (child_peer c reader sha256 mac_ok env io) mac payload k s ≡ (
          if ltb max_message (34 + length payload)
          then (s, record k { last_error = text "proposal not accepted" }, ok none)
          else (accepted_in payload s, k, ok (some (fresh_id s.queue))))
  submit_ui-accepted mac payload k s log size good there e =
      let long : length (submit_frame mac payload) ≡ 34 + length payload =
        omega (arith, length-append (mac payload) payload, size) in
      rw long (elim (Bool-cases (ltb max_message (34 + length payload))) [
        | inl above ↦ rw above (unfold read_accepted in refl)
        | inr fits ↦ rw (
          fits,
          step-submit mac payload s log size good there e,
          reply_of-snoc s.piped (pipe_code PipeOp.accepted ∷ put_u64le (fresh_id s.queue)),
          read_accepted-put k (fresh_id s.queue) (omega arith),
        )
      ])
