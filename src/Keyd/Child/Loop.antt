-- ===== src/Keyd/Child/Loop.antt =====
-- keyd/child.cpp: the password loop, the pipe thread and the autolock watcher, as one sequence of
-- events. Each request, message and lock notice is one step: an abstraction, for the source locks the
-- queue and the ledger within their calls, and handlers of different threads can interleave there. A
-- message is one that `read_message` returned.
use izan_wallet.Base.{
  ℕ, Bool, List, [], ◌∷◌, ◌++◌, ◌==◌, if◌then◌else◌, none, Result, ok, err, fault,
}
use izan_wallet.Base.Bytes.{Bytes, text}
use izan_wallet.Keyd.Protocol.{Op, code_of}
use izan_wallet.Keyd.Audit.{Stdio}
use izan_wallet.Keyd.Crypto.{Crypto}
use izan_wallet.Keyd.Child.{Keyd, M, ◌>>◌, send_err, audit_append, set_wallet, Env}
use izan_wallet.Keyd.Child.Sign.{SolReader}
use izan_wallet.Keyd.Child.Approve.{approve}
use izan_wallet.Keyd.Child.Password.{unlock, lock, status, shutdown, address, reveal, is_unlocked}
use izan_wallet.Keyd.Child.Plane.{serve_message, deny, pending, fetch}

pub data Event : Type 0 where
  request : Env → Bytes → Event
  message : Stdio → Bytes → Event
  autolock : Stdio → Bytes → Event

-- Whether the process goes on.
pub data Life : Type 0 where
  running : Life
  exited : ℕ → Life
  terminated : Life

-- An exception of the loop reaches its outer `catch (...)`, which returns 3.
abbrev pub looped : Keyd × Result (Unit {0}) → Keyd × Life
looped (s, ok u) = (s, running)
looped (s, err e) = (s, exited 3)
looped (s, fault) = (s, terminated)

abbrev pub left : Keyd × Result (Unit {0}) → Keyd × Life
left (s, ok u) = (s, exited 0)
left (s, err e) = (s, exited 3)
left (s, fault) = (s, terminated)

-- An exception in one of the other threads ends the process.
abbrev pub threaded : Keyd × Result (Unit {0}) → Keyd × Life
threaded (s, ok u) = (s, running)
threaded (s, err e) = (s, terminated)
threaded (s, fault) = (s, terminated)

-- Nothing follows the end of the process.
abbrev pub going_on : (Keyd → Keyd × Life) → Keyd × Life → Keyd × Life
going_on k (s, running) = k s
going_on k (s, exited n) = (s, exited n)
going_on k (s, terminated) = (s, terminated)

module _ {Hd : Type 0} (c : Crypto Hd) (reader : SolReader) (sha256 : Bytes → Bytes)
    (mac_ok : Bytes → Bytes → Bool) where
  -- The switch over the first byte of a frame, but for Shutdown.
  unfoldable pub dispatch : Env → ℕ → Bytes → M (Unit {0})
  dispatch env op frame =
      if op == code_of Op.unlock
      then unlock env frame
      else if op == code_of Op.lock
      then lock
      else if op == code_of Op.status
      then status
      else if op == code_of Op.approve
      then approve c reader sha256 env frame
      else if op == code_of Op.deny
      then deny sha256 env frame
      else if op == code_of Op.pending
      then pending
      else if op == code_of Op.fetch
      then fetch frame
      else if op == code_of Op.address
      then address c frame
      else if op == code_of Op.reveal
      then reveal sha256 env frame
      else send_err (text "unknown op")

  unfoldable pub serve_frame : Env → Bytes → Keyd → Keyd × Life
  serve_frame env [] s = (s, running)
  serve_frame env (op ∷ rest) s =
      if op == code_of Op.shutdown
      then left (shutdown s)
      else looped (dispatch env op (op ∷ rest) s)

  unfoldable pub lock_notice : Stdio → Bytes → M (Unit {0})
  lock_notice io why s =
      if is_unlocked s.wallet
      then (set_wallet none >> audit_append sha256 io (text "autolock reason=" ++ why)) s
      else (s, ok tt)

  unfoldable pub step : Keyd → Event → Keyd × Life
  step s (request env frame) = serve_frame env frame s
  step s (message io msg) = threaded (serve_message sha256 mac_ok io msg s)
  step s (autolock io why) = threaded (lock_notice io why s)

  unfoldable pub run : Keyd → List Event → Keyd × Life
  run s [] = (s, running)
  run s (e ∷ es) = going_on (λ t. run t es) (step s e)
