-- ===== src/Channel.antt =====
-- platform/ipc/secret_channel.cpp: one direction of a SecretChannel, from the end that sends to the
-- end that receives. libsodium's secretstream is a parameter: `Stream` holds its calls, `StreamLaws`
-- what its documentation promises of them.
pub mod Fifo
mod Tests
use izan_wallet.Base.{
  ℕ, ◌+◌, ◌-◌, ◌^◌, ◌≡◌, Bool, true, false, ◌||◌, not, List, [], ◌∷◌, ◌++◌, ◌==◌, ltb,
  if◌then◌else◌, length, take, drop, Option, none, some, Result, ok, err, ◌>>=◌, ◌>>◌, throw_if,
}
use izan_wallet.Base.Bytes.{Bytes, text, le_bytes, le_value}

abbrev pub a_bytes : ℕ
a_bytes = 17

abbrev pub key_bytes : ℕ
key_bytes = 32

abbrev pub header_bytes : ℕ
header_bytes = 24

abbrev pub max_frame : ℕ
max_frame = 2 ^ 20

-- crypto_secretstream_xchacha20poly1305_{init_push, push, init_pull, pull}. `init_push` gives the
-- header that it draws.
pub record Stream (State : Type 0) : Type 0 where
  pub init_push : Bytes → State × Bytes
  pub push : State → Bytes → State × Bytes
  pub init_pull : Bytes → Bytes → Option State
  pub pull : State → Bytes → Option (State × Bytes)

-- `Paired a b`: the pulling state `b` has pulled what the pushing state `a` has pushed.
pub record StreamLaws {State : Type 0} (s : Stream State) (Paired : State → State → Type 0)
    : Type 0 where
  pub header_length : (key : Bytes) → length (s.init_push key).1 ≡ header_bytes
  pub header_pulls :
      (key : Bytes)
      → (b : State) × (s.init_pull key (s.init_push key).1 ≡ some b) × Paired (s.init_push key).0 b
  pub push_length : (a : State) (m : Bytes) → length (s.push a m).1 ≡ length m + a_bytes
  pub push_pulls :
      (a b : State) (m : Bytes)
      → Paired a b
      → (b' : State) × (s.pull b (s.push a m).1 ≡ some (b', m)) × Paired (s.push a m).0 b'

-- What the pipe takes of a write before it breaks.
pub data Pipe : Type 0 where
  whole : Pipe
  broken : ℕ → Pipe

abbrev pub is_whole : Pipe → Bool
is_whole whole = true
is_whole (broken n) = false

abbrev pub put : Pipe → Bytes → Bytes → Bytes
put whole wire p = wire ++ p
put (broken n) wire p = wire ++ take n p

-- The bytes on their way stand in `wire`; `pull_state` is there once the header was read.
pub record Link (State : Type 0) : Type 0 where
  pub key : Bytes
  pub push_state : State
  pub pull_state : Option State
  pub wire : Bytes

module _ {State : Type 0} (s : Stream State) where
  -- The constructors of the two ends: the sender writes its header at once.
  unfoldable pub open_link : Pipe → Bytes → Result (Link State)
  open_link pipe key = do
    throw_if (not (length key == key_bytes)) (text "secret channel: bad key size")
    throw_if (not (is_whole pipe)) (text "secret channel: peer gone at handshake")
    let pushed = s.init_push key
    ok (record { key = key; push_state = pushed.0; pull_state = none; wire = pushed.1 })

  -- The length is written first, and the frame only behind a whole length.
  unfoldable pub send_frame : Pipe → Pipe → Link State → State × Bytes → Link State × Result Bool
  send_frame first second l (a, ct) =
      let sent = put first l.wire (le_bytes 4 (length ct)) in
      (
        record l { push_state = a; wire = if is_whole first then put second sent ct else sent },
        ok (if is_whole first then is_whole second else false),
      )

  unfoldable pub send : Pipe → Pipe → Bytes → Link State → Link State × Result Bool
  send first second message l =
      if ltb (max_frame - a_bytes) (length message)
      then (l, err (text "secret channel: frame too large"))
      else send_frame first second l (s.push l.push_state message)

  -- `read_all` finds `n` bytes, or drains the pipe and meets its end. The wire is all that the sender
  -- has put into the pipe; a read that would block for more is taken as one at the end of the pipe.
  unfoldable pub read_all : ℕ → Link State → Link State × Option Bytes
  read_all n l =
      if ltb (length l.wire) n
      then (record l { wire = [] }, none)
      else (record l { wire = drop n l.wire }, some (take n l.wire))

  abbrev pub after_pull : Link State → Option (State × Bytes) → Link State × Result (Option Bytes)
  after_pull l none = (l, err (text "secret channel: frame failed auth"))
  after_pull l (some (b, m)) = (record l { pull_state = some b }, ok (some m))

  abbrev pub after_frame : State → Link State × Option Bytes → Link State × Result (Option Bytes)
  after_frame b (l, none) = (l, ok none)
  after_frame b (l, some ct) = after_pull l (s.pull b ct)

  abbrev pub after_length : State → Link State × Option Bytes → Link State × Result (Option Bytes)
  after_length b (l, none) = (l, ok none)
  after_length b (l, some len) =
      let n = le_value 4 len in
      if ltb n a_bytes || ltb max_frame n
      then (l, err (text "secret channel: bad frame length"))
      else after_frame b (read_all n l)

  unfoldable pub recv_ready : State → Link State → Link State × Result (Option Bytes)
  recv_ready b l = after_length b (read_all 4 l)

  abbrev pub after_init : Link State → Option State → Link State × Result (Option Bytes)
  after_init l none = (l, err (text "secret channel: bad stream header"))
  after_init l (some b) = recv_ready b (record l { pull_state = some b })

  abbrev pub after_header : Link State × Option Bytes → Link State × Result (Option Bytes)
  after_header (l, none) = (l, ok none)
  after_header (l, some header) = after_init l (s.init_pull l.key header)

  unfoldable pub recv_from : Option State → Link State → Link State × Result (Option Bytes)
  recv_from none l = after_header (read_all header_bytes l)
  recv_from (some b) l = recv_ready b l

  unfoldable pub recv : Link State → Link State × Result (Option Bytes)
  recv l = recv_from l.pull_state l
