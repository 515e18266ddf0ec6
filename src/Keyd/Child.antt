-- ===== src/Keyd/Child.antt =====
-- keyd/child.cpp: the state of the signer process, and the steps of which its handlers consist. An
-- exception leaves what was done before it, so a step is a function of the state that returns the
-- new state and a result.
pub mod Sign
pub mod Approve
pub mod Password
pub mod Plane
pub mod Loop
pub mod Books
mod Tests
pub mod Approval
use izan_wallet.Base.{
  ℕ, ◌+◌, ◌-◌, ◌^◌, Bool, true, false, List, [], ◌∷◌, ◌++◌, ltb, leb, if◌then◌else◌, length, Option,
  none, some, Result, ok, err, fault,
}
use izan_wallet.Base.Bytes.{Bytes, text}
use izan_wallet.Vault.Payload.{Wallet}
use izan_wallet.Keyd.Protocol.{Op, code_of, pass_throttle_after, pass_throttle_cap_seconds}
use izan_wallet.Keyd.Proposals.{ProposalQueue}
use izan_wallet.Keyd.Audit.{AuditLog, Stdio, append}

-- `recorded` lists the events whose `append` returned; `sent`, `piped` and `stalls` are the frames
-- and the pipe messages written and the seconds slept, oldest first.
pub record Keyd : Type 0 where
  pub wallet : Option Wallet
  pub queue : ProposalQueue
  pub audit : AuditLog
  pub bad_pass : ℕ
  pub recorded : List Bytes
  pub sent : List Bytes
  pub piped : List Bytes
  pub stalls : List ℕ

abbrev pub M : Type 0 → Type 0
M A = Keyd → Keyd × Result A

unfoldable pub pass_on : {A B : Type 0} → (A → M B) → Keyd × Result A → Keyd × Result B
pass_on f (s, ok a) = f a s
pass_on f (s, err e) = (s, err e)
pass_on f (s, fault) = (s, fault)

infixl 5 ◌>>=◌ ◌>>◌
unfoldable pub ◌>>=◌ : {A B : Type 0} → M A → (A → M B) → M B
◌>>=◌ m f s = pass_on f (m s)

unfoldable pub ◌>>◌ : {A B : Type 0} → M A → M B → M B
◌>>◌ m k s = pass_on (λ _. k) (m s)

abbrev pub done : M (Unit {0})
done s = (s, ok tt)

-- A call that has no effect on the state.
unfoldable pub lift : {A : Type 0} → Result A → M A
lift r s = (s, r)

unfoldable pub rescue : {A : Type 0} → (Bytes → M A) → Keyd × Result A → Keyd × Result A
rescue handler (s, ok a) = (s, ok a)
rescue handler (s, err e) = handler e s
rescue handler (s, fault) = (s, fault)

-- `try { m } catch (const std::exception& e) { handler }`
unfoldable pub try_catch : {A : Type 0} → M A → (Bytes → M A) → M A
try_catch m handler s = rescue handler (m s)

-- kMaxFrame - crypto_secretstream_xchacha20poly1305_ABYTES
abbrev pub max_plain : ℕ
max_plain = 2 ^ 20 - 17

-- `SecretChannel::send`. Its answer, whether the peer is still there, is never looked at.
unfoldable pub send : Bytes → M (Unit {0})
send frame s =
    if ltb max_plain (length frame)
    then (s, err (text "secret channel: frame too large"))
    else (record s { sent = s.sent ++ frame ∷ [] }, ok tt)

unfoldable pub send_op : Op → Bytes → M (Unit {0})
send_op op body = send (code_of op ∷ body)

pub send_err : Bytes → M (Unit {0})
send_err reason = send (code_of Op.err_reply ∷ reason)

-- `NamedPipeServer::write_message`, whose answer is not looked at either.
unfoldable pub write_message : Bytes → M (Unit {0})
write_message msg s = (record s { piped = s.piped ++ msg ∷ [] }, ok tt)

module _ (sha256 : Bytes → Bytes) where
  unfoldable pub note_event : Bytes → Keyd → AuditLog × Result (Unit {0}) → Keyd × Result (Unit {0})
  note_event event s (a, ok u) =
      (record s { audit = a; recorded = s.recorded ++ event ∷ [] }, ok tt)
  note_event event s (a, err e) = (record s { audit = a }, err e)
  note_event event s (a, fault) = (record s { audit = a }, fault)

  -- `audit.append(event)`, with what the disk makes of it.
  unfoldable pub audit_append : Stdio → Bytes → M (Unit {0})
  audit_append io event s = note_event event s (append sha256 io event s.audit)

pub set_bad_pass : ℕ → M (Unit {0})
set_bad_pass n s = (record s { bad_pass = n }, ok tt)

pub count_bad_pass : M (Unit {0})
count_bad_pass s = (record s { bad_pass = s.bad_pass + 1 }, ok tt)

pub set_wallet : Option Wallet → M (Unit {0})
set_wallet w s = (record s { wallet = w }, ok tt)

unfoldable pub set_queue : ProposalQueue → M (Unit {0})
set_queue q s = (record s { queue = q }, ok tt)

-- The seconds that the throttle sleeps after `bad` wrong passphrases in a row.
pub throttle_seconds : ℕ → ℕ
throttle_seconds bad =
    let n = bad - pass_throttle_after + 1 in
    if ltb n pass_throttle_cap_seconds then n else pass_throttle_cap_seconds

pub throttle_bad_pass : M (Unit {0})
throttle_bad_pass s =
    if leb pass_throttle_after s.bad_pass
    then (record s { stalls = s.stalls ++ throttle_seconds s.bad_pass ∷ [] }, ok tt)
    else (s, ok tt)

-- What one request meets: `vault::open` on the file as it is now, the disk at the first and at a
-- second append, and the random bytes of the Bitcoin signer.
pub record Env : Type 0 where
  pub opens : Bytes → Result Wallet
  pub io : Stdio
  pub io_again : Stdio
  pub aux : ℕ → Bytes
