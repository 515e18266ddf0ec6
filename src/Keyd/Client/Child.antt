-- ===== src/Keyd/Client/Child.antt =====
-- The child process of Keyd/Child as the peer of a client: the reply to a request is the frame that
-- the child sends while it serves it.
use izan_wallet.Base.{
  ℕ, ltb, if◌then◌else◌, Bool, ◌≡◌, List, [], ◌∷◌, ◌++◌, length, drop, drop-append, Option, none,
  some, ok,
}
use izan_wallet.Base.Bytes.{Bytes}
use izan_wallet.Keyd.Audit.{Stdio}
use izan_wallet.Keyd.Crypto.{Crypto}
use izan_wallet.Keyd.Child.{Keyd, Env}
use izan_wallet.Keyd.Child.Sign.{SolReader}
use izan_wallet.Keyd.Child.Loop.{step, request, message}
use izan_wallet.Keyd.Client.{Peer}

-- `NamedPipeServer::kMaxMessage`
abbrev pub max_message : ℕ
max_message = 65536

abbrev pub first_of : List Bytes → Option Bytes
first_of [] = none
first_of (frame ∷ frames) = some frame

-- The first frame behind those that were there before.
abbrev pub reply_of : List Bytes → List Bytes → Option Bytes
reply_of before now = first_of (drop (length before) now)

pub reply_of-snoc :
    (before : List Bytes) (frame : Bytes) → reply_of before (before ++ frame ∷ []) ≡ some frame
reply_of-snoc before frame = rw (drop-append before (frame ∷ []))

module _ {Hd : Type 0} (c : Crypto Hd) (reader : SolReader) (sha256 : Bytes → Bytes)
    (mac_ok : Bytes → Bytes → Bool) (env : Env) (io : Stdio) where
  -- A message above the buffer of the pipe: ReadFile in `read_message` gives up and drops the client,
  -- and the call of the client fails.
  abbrev pub child_peer : Peer Keyd
  child_peer = record {
    ask = λ frame s.
        let r = step c reader sha256 mac_ok s (request env frame) in
        (r.0, ok (reply_of s.sent r.0.sent));
    transact = λ msg s.
        let r = step c reader sha256 mac_ok s (message io msg) in
        if ltb max_message (length msg)
        then (s, ok none)
        else (r.0, ok (reply_of s.piped r.0.piped));
  }
