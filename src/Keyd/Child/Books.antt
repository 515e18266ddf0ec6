-- ===== src/Keyd/Child/Books.antt =====
-- The books of the signer: signatures handed out, approvals recorded, proposals approved.
pub mod Handlers
pub mod Approvals
pub mod Steps
use izan_wallet.Base.{
  ℕ, suc, ◌+◌, ◌-◌, ◌≤◌, ◌≡◌, refl, sym, ap, ◌∙◌, Bool, true, false, not, ◌&&◌, ◌||◌, List, [], ◌∷◌,
  ◌++◌, ◌==◌, ltb, leb, if◌then◌else◌, length, take, drop, Option, none, some, Result, ok, err,
  fault, arith, count, count-append,
}
use izan_wallet.Base.Bytes.{Bytes, text, beq, to_string}
use izan_wallet.Vault.Payload.{Wallet, Imported}
use izan_wallet.Keyd.Protocol.{Op, code_of}
use izan_wallet.Keyd.Proposals.{
  Proposal, ProposalState, Provenance, ProposalQueue, is_pending, get, submit, resolve,
}
use izan_wallet.Keyd.Proposals.Count.{
  approved_count, approved_count-submit, approved_count-denied, approved_count-approved,
}
use izan_wallet.Keyd.Audit.{AuditLog, Stdio, append}
use izan_wallet.Keyd.Child.{
  Keyd, M, pass_on, ◌>>=◌, ◌>>◌, done, lift, rescue, try_catch, send, send_op, send_err,
  write_message, audit_append, note_event, set_bad_pass, count_bad_pass, set_wallet, set_queue,
  throttle_bad_pass, Env,
}

-- A frame that carries a signature: Signed, SignedSol or SignedBtc.
abbrev pub is_signature : Bytes → Bool
is_signature [] = false
is_signature (op ∷ body) = (op == 0x47) || ((op == 0x49) || (op == 0x4a))

-- An event that records an approval.
unfoldable pub is_approval : Bytes → Bool
is_approval e = beq (take 20 e) (text "proposal.approve id=")

abbrev pub signatures : Keyd → ℕ
signatures s = count is_signature s.sent

abbrev pub approvals : Keyd → ℕ
approvals s = count is_approval s.recorded

-- The signatures handed out are at most the approvals recorded, and these at most the proposals
-- approved.
abbrev pub Books : Keyd → Type 0
Books s = (signatures s ≤ approvals s) × (approvals s ≤ approved_count s.queue)

-- Nothing of it changed.
abbrev pub Quiet : Keyd → Keyd → Type 0
Quiet s t =
    (signatures t ≡ signatures s)
    × (approvals t ≡ approvals s)
    × (approved_count t.queue ≡ approved_count s.queue)

unfoldable pub IsQuiet : {A : Type 0} → M A → Type 0
IsQuiet m = (s : Keyd) → Quiet s (m s).0

pub Quiet-trans : (s t u : Keyd) → Quiet s t → Quiet t u → Quiet s u
Quiet-trans s t u a b = (b.0 ∙ a.0, b.1 ∙ a.1, b.2 ∙ a.2)

pub Quiet-Books : (s t : Keyd) → Quiet s t → Books s → Books t
Quiet-Books s t q b = omega arith

module _ {A B : Type 0} where
  pass_on-Quiet :
      (s : Keyd) (f : A → M B) (r : Keyd × Result A)
      → Quiet s r.0
      → ((a : A) → IsQuiet (f a))
      → Quiet s (pass_on f r).0
  unfolding pass_on IsQuiet
  pass_on-Quiet s f (t, ok a) q h = Quiet-trans s t (f a t).0 q (h a t)
  pass_on-Quiet s f (t, err e) q h = q
  pass_on-Quiet s f (t, fault) q h = q

  pub bind-IsQuiet :
      (m : M A) (f : A → M B) → IsQuiet m → ((a : A) → IsQuiet (f a)) → IsQuiet (m >>= f)
  unfolding ◌>>=◌ IsQuiet
  bind-IsQuiet m f q h s = pass_on-Quiet s f (m s) (q s) h

  pub seq-IsQuiet : (m : M A) (k : M B) → IsQuiet m → IsQuiet k → IsQuiet (m >> k)
  unfolding ◌>>◌ IsQuiet
  seq-IsQuiet m k q h s = pass_on-Quiet s (λ _. k) (m s) (q s) (λ _. h)

module _ {A : Type 0} where
  rescue-Quiet :
      (s : Keyd) (handler : Bytes → M A) (r : Keyd × Result A)
      → Quiet s r.0
      → ((e : Bytes) → IsQuiet (handler e))
      → Quiet s (rescue handler r).0
  unfolding rescue IsQuiet
  rescue-Quiet s handler (t, ok a) q h = q
  rescue-Quiet s handler (t, err e) q h = Quiet-trans s t (handler e t).0 q (h e t)
  rescue-Quiet s handler (t, fault) q h = q

  pub try_catch-IsQuiet :
      (m : M A) (handler : Bytes → M A)
      → IsQuiet m
      → ((e : Bytes) → IsQuiet (handler e))
      → IsQuiet (try_catch m handler)
  unfolding try_catch IsQuiet
  try_catch-IsQuiet m handler q h s = rescue-Quiet s handler (m s) (q s) h

  pub if-IsQuiet : (b : Bool) (m k : M A) → IsQuiet m → IsQuiet k → IsQuiet (if b then m else k)
  if-IsQuiet true m k q h = q
  if-IsQuiet false m k q h = h

  pub if-Quiet :
      (s : Keyd) (b : Bool) (r r' : Keyd × Result A)
      → Quiet s r.0
      → Quiet s r'.0
      → Quiet s (if b then r else r').0
  if-Quiet s true r r' q h = q
  if-Quiet s false r r' q h = h

  pub settled-Quiet :
      (s : Keyd) (q : ProposalQueue) (m : M A)
      → approved_count q ≡ approved_count s.queue
      → IsQuiet m
      → Quiet s ((set_queue q >> m) s).0
  unfolding ◌>>◌ pass_on set_queue IsQuiet
  settled-Quiet s q m h k =
      let t = record s { queue = q } in Quiet-trans s t (m t).0 (refl, refl, h) (k t)

  pub lift-IsQuiet : (r : Result A) → IsQuiet (lift r)
  unfolding lift IsQuiet
  lift-IsQuiet r s = (refl, refl, refl)

pub send-IsQuiet : (frame : Bytes) → is_signature frame ≡ false → IsQuiet (send frame)
unfolding send IsQuiet
send-IsQuiet frame h s = ground (arith, count-append is_signature s.sent (frame ∷ []))

pub send_err-IsQuiet : (reason : Bytes) → IsQuiet (send_err reason)
unfolding send_err code_of
send_err-IsQuiet reason = send-IsQuiet _ refl

pub send_op-IsQuiet :
    (op : Op) (body : Bytes) → is_signature (code_of op ∷ []) ≡ false → IsQuiet (send_op op body)
unfolding send_op
send_op-IsQuiet op body h = send-IsQuiet _ h

pub write_message-IsQuiet : (msg : Bytes) → IsQuiet (write_message msg)
unfolding write_message IsQuiet
write_message-IsQuiet msg s = (refl, refl, refl)

pub set_bad_pass-IsQuiet : (n : ℕ) → IsQuiet (set_bad_pass n)
unfolding set_bad_pass IsQuiet
set_bad_pass-IsQuiet n s = (refl, refl, refl)

pub count_bad_pass-IsQuiet : IsQuiet count_bad_pass
unfolding count_bad_pass IsQuiet
count_bad_pass-IsQuiet s = (refl, refl, refl)

pub set_wallet-IsQuiet : (w : Option Wallet) → IsQuiet (set_wallet w)
unfolding set_wallet IsQuiet
set_wallet-IsQuiet w s = (refl, refl, refl)

pub throttle_bad_pass-IsQuiet : IsQuiet throttle_bad_pass
unfolding throttle_bad_pass IsQuiet
throttle_bad_pass-IsQuiet s = ground arith

module _ (sha256 : Bytes → Bytes) where
  note_event-Quiet :
      (event : Bytes) (s : Keyd) (r : AuditLog × Result (Unit {0}))
      → is_approval event ≡ false
      → Quiet s (note_event sha256 event s r).0
  unfolding note_event
  note_event-Quiet event s (a, ok u) h =
      (refl, ground (arith, count-append is_approval s.recorded (event ∷ [])), refl)
  note_event-Quiet event s (a, err e) h = (refl, refl, refl)
  note_event-Quiet event s (a, fault) h = (refl, refl, refl)

  pub audit_append-IsQuiet :
      (io : Stdio) (event : Bytes)
      → is_approval event ≡ false
      → IsQuiet (audit_append sha256 io event)
  unfolding audit_append IsQuiet
  audit_append-IsQuiet io event h s = note_event-Quiet event s (append sha256 io event s.audit) h

pub done-IsQuiet : IsQuiet done
unfolding IsQuiet
done-IsQuiet s = (refl, refl, refl)
