-- ===== src/Keyd/Client.antt =====
-- keyd/client.cpp: KeydClient, the UI's side of the password channel and of the proposal pipe. Who
-- answers is a parameter `Peer`, with a state `K` of its own; `crypto_auth` under the session's
-- subkey is `mac`. The start of the child is not modelled.
pub mod Child
pub mod Inbox
pub mod Submit
mod Tests
use izan_wallet.Base.{
  ℕ, zero, suc, ◌+◌, ◌-◌, ◌%◌, ◌==◌, ltb, leb, Bool, true, false, not, ◌&&◌, List, [], ◌∷◌, ◌++◌,
  if◌then◌else◌, length, take, drop, get_or, Option, none, some, Result, ok, err, fault,
}
use izan_wallet.Base.Bytes.{Bytes, text, le_bytes}
use izan_wallet.Keyd.Protocol.{Op, code_of, PipeOp, pipe_code, get_u64le, put_u64le}

-- `wallet_kind` is the byte of RevealKind; `connected` is whether m_channel is there.
pub record KeydClient : Type 0 where
  pub connected : Bool
  pub last_error : Bytes
  pub wallet_kind : ℕ

-- Provenance is any byte that the child sends.
pub record PendingItem : Type 0 where
  pub id : ℕ
  pub provenance : ℕ

pub record ApprovedSignature : Type 0 where
  pub y_parity : ℕ
  pub r : Bytes
  pub s : Bytes

-- `ask` is a send and a recv on the channel, none when the peer is gone; `transact` is one message
-- on the pipe and its answer.
pub record Peer (K : Type 0) : Type 0 where
  pub ask : Bytes → K → K × Result (Option Bytes)
  pub transact : Bytes → K → K × Result (Option Bytes)

abbrev pub broken : KeydClient → KeydClient
broken c = record c { last_error = text "channel broken" }

abbrev pub refusal : KeydClient → Bytes → KeydClient
refusal c why = record c { last_error = why }

-- What each request makes of the reply.
unfoldable pub read_ok : KeydClient → Option Bytes → KeydClient × Bool
read_ok c none = (broken c, false)
read_ok c (some []) = (broken c, false)
read_ok c (some (op ∷ rest)) =
    if op == code_of Op.ok_reply then (c, true) else (refusal c rest, false)

unfoldable pub read_plain_ok : KeydClient → Option Bytes → KeydClient × Bool
read_plain_ok c none = (c, false)
read_plain_ok c (some []) = (c, false)
read_plain_ok c (some (op ∷ rest)) = (c, op == code_of Op.ok_reply)

unfoldable pub read_state : KeydClient → Option Bytes → KeydClient × Option Bool
read_state c none = (c, none)
read_state c (some []) = (c, none)
read_state c (some (op ∷ [])) = (c, none)
read_state c (some (op ∷ b ∷ rest)) =
    (c, if op == code_of Op.state_reply then some (b == 1) else none)

-- A reply with its code, `least` bytes at least behind it, or its text as the error.
unfoldable pub read_body :
    {A : Type 0}
    → Op
    → ℕ
    → (KeydClient → Bytes → KeydClient × A)
    → KeydClient
    → Option Bytes
    → KeydClient × Option A
read_body code least take_body c none = (broken c, none)
read_body code least take_body c (some []) = (broken c, none)
read_body code least take_body c (some (op ∷ rest)) =
    let r = take_body c rest in
    if op == code_of code && leb least (length rest)
    then (r.0, some r.1)
    else (refusal c rest, none)

abbrev pub take_address : KeydClient → Bytes → KeydClient × Bytes
take_address c rest = (record c { wallet_kind = get_or rest 0 0 }, drop 1 rest)

abbrev pub take_secret : KeydClient → Bytes → KeydClient × (ℕ × Bytes)
take_secret c rest = (c, (get_or rest 0 0, drop 1 rest))

abbrev pub take_all : KeydClient → Bytes → KeydClient × Bytes
take_all c rest = (c, rest)

-- The signatures have a fixed size.
unfoldable pub read_sized :
    {A : Type 0} → Op → ℕ → (Bytes → A) → KeydClient → Option Bytes → KeydClient × Option A
read_sized code size take_body c none = (broken c, none)
read_sized code size take_body c (some []) = (broken c, none)
read_sized code size take_body c (some (op ∷ rest)) =
    if op == code_of code && (length rest == size)
    then (c, some (take_body rest))
    else (refusal c rest, none)

abbrev pub take_signature : Bytes → ApprovedSignature
take_signature body = record {
  y_parity = get_or body 0 0;
  r = take 32 (drop 1 body);
  s = take 32 (drop 33 body);
}

-- Nine bytes each; `fuel` is at least the number of items.
unfoldable pub read_items : ℕ → Bytes → List PendingItem
read_items fuel [] = []
read_items zero (b ∷ body) = []
read_items (suc fuel) (b ∷ body) =
    record { id = get_u64le (b ∷ body); provenance = get_or (b ∷ body) 8 0 }
    ∷ read_items fuel (drop 9 (b ∷ body))

unfoldable pub read_pending : KeydClient → Option Bytes → KeydClient × Option (List PendingItem)
read_pending c none = (c, none)
read_pending c (some []) = (c, none)
read_pending c (some (op ∷ body)) = (
  c,
  if op == code_of Op.pending_list && (length body % 9 == 0)
      then some (read_items (length body) body)
      else none,
)

unfoldable pub read_proposal : KeydClient → Option Bytes → KeydClient × Option (ℕ × Bytes)
read_proposal c none = (c, none)
read_proposal c (some []) = (c, none)
read_proposal c (some (op ∷ [])) = (c, none)
read_proposal c (some (op ∷ prov ∷ body)) =
    (c, if op == code_of Op.proposal_body then some (prov, body) else none)

unfoldable pub read_accepted : KeydClient → Option Bytes → KeydClient × Option ℕ
read_accepted c none = (record c { last_error = text "proposal not accepted" }, none)
read_accepted c (some []) = (record c { last_error = text "proposal not accepted" }, none)
read_accepted c (some (op ∷ rest)) =
    if (length rest == 8) && (op == pipe_code PipeOp.accepted)
    then (c, some (get_u64le rest))
    else (record c { last_error = text "proposal not accepted" }, none)

-- The frames that start with an id.
abbrev pub id_frame : Op → ℕ → Bytes → Bytes
id_frame code id passphrase = code_of code ∷ put_u64le id ++ passphrase

abbrev pub address_frame : ℕ → ℕ → Bytes
address_frame account preset = code_of Op.address ∷ le_bytes 4 account ++ preset ∷ []

abbrev pub submit_frame : (Bytes → Bytes) → Bytes → Bytes
submit_frame mac payload = pipe_code PipeOp.submit ∷ 1 ∷ mac payload ++ payload

module _ {K : Type 0} (peer : Peer K) where
  abbrev pub finish :
      {A : Type 0}
      → KeydClient
      → (KeydClient → Option Bytes → KeydClient × A)
      → K × Result (Option Bytes)
      → K × KeydClient × Result A
  finish c read (k, ok reply) = let r = read c reply in (k, r.0, ok r.1)
  finish c read (k, err what) = (k, c, err what)
  finish c read (k, fault) = (k, c, fault)

  -- `request`: none without a channel.
  unfoldable pub request : Bytes → KeydClient → K → K × Result (Option Bytes)
  request frame c k = if c.connected then peer.ask frame k else (k, ok none)

  abbrev pub unlock : Bytes → KeydClient → K → K × KeydClient × Result Bool
  unlock passphrase c k = finish c read_ok (request (code_of Op.unlock ∷ passphrase) c k)

  abbrev pub lock : KeydClient → K → K × KeydClient × Result Bool
  lock c k = finish c read_plain_ok (request (code_of Op.lock ∷ []) c k)

  abbrev pub unlocked : KeydClient → K → K × KeydClient × Result (Option Bool)
  unlocked c k = finish c read_state (request (code_of Op.status ∷ []) c k)

  abbrev pub shutdown : KeydClient → K → K × KeydClient × Result Bool
  shutdown c k = finish c read_plain_ok (request (code_of Op.shutdown ∷ []) c k)

  abbrev pub address : ℕ → ℕ → KeydClient → K → K × KeydClient × Result (Option Bytes)
  address account preset c k =
      finish c (read_body Op.address_is 2 take_address) (request (address_frame account preset) c k)

  abbrev pub submit_ui :
      (Bytes → Bytes) → Bytes → KeydClient → K → K × KeydClient × Result (Option ℕ)
  submit_ui mac payload c k = finish c read_accepted (peer.transact (submit_frame mac payload) k)

  abbrev pub pending : KeydClient → K → K × KeydClient × Result (Option (List PendingItem))
  pending c k = finish c read_pending (request (code_of Op.pending ∷ []) c k)

  abbrev pub fetch : ℕ → KeydClient → K → K × KeydClient × Result (Option (ℕ × Bytes))
  fetch id c k = finish c read_proposal (request (id_frame Op.fetch id []) c k)

  abbrev pub approve :
      ℕ → Bytes → KeydClient → K → K × KeydClient × Result (Option ApprovedSignature)
  approve id passphrase c k =
      finish c (read_sized Op.signed 65 take_signature)
        (request (id_frame Op.approve id passphrase) c k)

  abbrev pub approve_btc : ℕ → Bytes → KeydClient → K → K × KeydClient × Result (Option Bytes)
  approve_btc id passphrase c k =
      finish c (read_body Op.signed_btc 1 take_all)
        (request (id_frame Op.approve id passphrase) c k)

  abbrev pub approve_sol : ℕ → Bytes → KeydClient → K → K × KeydClient × Result (Option Bytes)
  approve_sol id passphrase c k =
      finish c (read_sized Op.signed_sol 64 (λ body. body))
        (request (id_frame Op.approve id passphrase) c k)

  abbrev pub reveal : Bytes → KeydClient → K → K × KeydClient × Result (Option (ℕ × Bytes))
  reveal passphrase c k =
      finish c (read_body Op.root_secret 2 take_secret)
        (request (code_of Op.reveal ∷ passphrase) c k)

  abbrev pub deny : ℕ → KeydClient → K → K × KeydClient × Result Bool
  deny id c k = finish c read_ok (request (id_frame Op.deny id []) c k)

abbrev pub drop_channel : KeydClient → KeydClient
drop_channel c = record c { connected = false }
