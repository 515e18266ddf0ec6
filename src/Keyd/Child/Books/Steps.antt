-- ===== src/Keyd/Child/Books/Steps.antt =====
-- The signer's loop and its threads keep the books.
use izan_wallet.Base.{
  ℕ, refl, Bool, true, false, List, [], ◌∷◌, ◌==◌, if◌then◌else◌, none, Result, ok, err, fault,
}
use izan_wallet.Base.Bytes.{Bytes, text, beq}
use izan_wallet.Keyd.Protocol.{Op, code_of}
use izan_wallet.Keyd.Audit.{Stdio}
use izan_wallet.Keyd.Crypto.{Crypto}
use izan_wallet.Keyd.Child.{Keyd, M, Env}
use izan_wallet.Keyd.Child.Sign.{SolReader}
use izan_wallet.Keyd.Child.Approve.{approve}
use izan_wallet.Keyd.Child.Plane.{serve_message}
use izan_wallet.Keyd.Child.Password.{shutdown, is_unlocked}
use izan_wallet.Keyd.Child.Loop.{
  Event, request, message, autolock, Life, running, exited, terminated, dispatch, looped, left,
  serve_frame, threaded, going_on, lock_notice, step, run,
}
use izan_wallet.Keyd.Child.Books.{
  is_approval, Books, IsQuiet, Quiet-Books, if-Quiet, seq-IsQuiet, send_err-IsQuiet,
  set_wallet-IsQuiet, audit_append-IsQuiet,
}
use izan_wallet.Keyd.Child.Books.Handlers.{
  unlock-IsQuiet, lock-IsQuiet, status-IsQuiet, shutdown-IsQuiet, address-IsQuiet, reveal-IsQuiet,
  deny-IsQuiet, pending-IsQuiet, fetch-IsQuiet, serve_message-IsQuiet,
}
use izan_wallet.Keyd.Child.Books.Approvals.{approve-Books}

Keeps : M (Unit {0}) → Type 0
Keeps m = (s : Keyd) → Books s → Books (m s).0

quiet-Keeps : (m : M (Unit {0})) → IsQuiet m → Keeps m
unfolding IsQuiet Keeps
quiet-Keeps m q s b = Quiet-Books s (m s).0 (q s) b

if-Keeps : (b : Bool) (m k : M (Unit {0})) → Keeps m → Keeps k → Keeps (if b then m else k)
if-Keeps true m k h l = h
if-Keeps false m k h l = l

if-Books : (b : Bool) (r r' : Keyd × Life) → Books r.0 → Books r'.0 → Books (if b then r else r').0
if-Books true r r' h l = h
if-Books false r r' h l = l

looped-Books : (r : Keyd × Result (Unit {0})) → Books r.0 → Books (looped r).0
looped-Books (s, ok u) b = b
looped-Books (s, err e) b = b
looped-Books (s, fault) b = b

left-Books : (r : Keyd × Result (Unit {0})) → Books r.0 → Books (left r).0
left-Books (s, ok u) b = b
left-Books (s, err e) b = b
left-Books (s, fault) b = b

going_on-Books :
    (k : Keyd → Keyd × Life) (r : Keyd × Life)
    → ((t : Keyd) → Books t → Books (k t).0)
    → Books r.0
    → Books (going_on k r).0
going_on-Books k (s, running) h b = h s b
going_on-Books k (s, exited n) h b = b
going_on-Books k (s, terminated) h b = b

threaded-Books : (r : Keyd × Result (Unit {0})) → Books r.0 → Books (threaded r).0
threaded-Books (s, ok u) b = b
threaded-Books (s, err e) b = b
threaded-Books (s, fault) b = b

module _ {Hd : Type 0} (c : Crypto Hd) (reader : SolReader) (sha256 : Bytes → Bytes)
    (mac_ok : Bytes → Bytes → Bool) where
  approve-Keeps : (env : Env) (frame : Bytes) → Keeps (approve c reader sha256 env frame)
  unfolding Keeps
  approve-Keeps env frame s b = approve-Books c reader sha256 env frame s b

  dispatch-Keeps :
      (env : Env) (op : ℕ) (frame : Bytes) → Keeps (dispatch c reader sha256 mac_ok env op frame)
  unfolding dispatch
  dispatch-Keeps env op frame =
      if-Keeps (op == code_of Op.unlock) _ _ (quiet-Keeps _ (unlock-IsQuiet env frame)) (
        if-Keeps (op == code_of Op.lock) _ _ (quiet-Keeps _ lock-IsQuiet) (
          if-Keeps (op == code_of Op.status) _ _ (quiet-Keeps _ status-IsQuiet) (
            if-Keeps (op == code_of Op.approve) _ _ (approve-Keeps env frame) (
              if-Keeps (op == code_of Op.deny) _ _ (quiet-Keeps _ (deny-IsQuiet sha256 env frame)) (
                if-Keeps (op == code_of Op.pending) _ _ (quiet-Keeps _ pending-IsQuiet) (
                  if-Keeps (op == code_of Op.fetch) _ _ (quiet-Keeps _ (fetch-IsQuiet frame)) (
                    if-Keeps (op == code_of Op.address) _ _
                      (quiet-Keeps _ (address-IsQuiet c frame))
                      (if-Keeps (op == code_of Op.reveal) _ _
                        (quiet-Keeps _ (reveal-IsQuiet sha256 env frame))
                        (quiet-Keeps _ (send_err-IsQuiet _))))))))))

  serve_frame-Books :
      (env : Env) (frame : Bytes) (s : Keyd)
      → Books s
      → Books (serve_frame c reader sha256 mac_ok env frame s).0
  unfolding serve_frame IsQuiet Keeps
  serve_frame-Books env [] s b = b
  serve_frame-Books env (op ∷ rest) s b =
      if-Books (op == code_of Op.shutdown) _ _
        (left-Books (shutdown s) (Quiet-Books s (shutdown s).0 (shutdown-IsQuiet s) b))
        (looped-Books (dispatch c reader sha256 mac_ok env op (op ∷ rest) s)
          (dispatch-Keeps env op (op ∷ rest) s b))

  lock_notice-IsQuiet :
      (io : Stdio) (why : Bytes) → IsQuiet (lock_notice c reader sha256 mac_ok io why)
  unfolding lock_notice IsQuiet is_approval text beq
  lock_notice-IsQuiet io why s =
      if-Quiet s (is_unlocked s.wallet) _ _
        (seq-IsQuiet _ _ (set_wallet-IsQuiet none) (audit_append-IsQuiet sha256 io _ refl) s)
        (refl, refl, refl)

  -- One event of the signer, a frame of the UI, a message of the pipe or an autolock notice, keeps
  -- the books: if the signatures handed out are at most the approvals recorded, and these at most
  -- the proposals approved in the queue, then they are so after it.
  pub step-Books : (e : Event) (s : Keyd) → Books s → Books (step c reader sha256 mac_ok s e).0
  unfolding step IsQuiet
  step-Books (request env frame) s b = serve_frame-Books env frame s b
  step-Books (message io msg) s b = threaded-Books (serve_message sha256 mac_ok io msg s) (
      Quiet-Books s (serve_message sha256 mac_ok io msg s).0
        (serve_message-IsQuiet sha256 mac_ok io msg s) b)
  step-Books (autolock io why) s b = threaded-Books (lock_notice c reader sha256 mac_ok io why s) (
      Quiet-Books s (lock_notice c reader sha256 mac_ok io why s).0 (lock_notice-IsQuiet io why s)
        b)

  -- Whatever the signer is asked, for as long as it runs, it never hands out more signatures than
  -- it has recorded approvals, nor records more approvals than proposals of its queue are approved,
  -- when it starts so.
  pub run-Books : (es : List Event) (s : Keyd) → Books s → Books (run c reader sha256 mac_ok s es).0
  unfolding run
  run-Books [] s b = b
  run-Books (e ∷ es) s b =
      going_on-Books (λ t. run c reader sha256 mac_ok t es) (step c reader sha256 mac_ok s e)
        (λ t. run-Books es t) (step-Books e s b)
