-- ===== src/Keyd/Child/Plane.antt =====
-- keyd/child.cpp: the proposal pipe (`handle_submit`, `handle_query`, the dispatch of
-- `serve_proposals`) and the requests about proposals that need no passphrase.
use izan_wallet.Base.{
  ℕ, ◌+◌, Bool, true, false, List, [], ◌∷◌, ◌++◌, ◌==◌, ltb, if◌then◌else◌, length, take, drop,
  get_or, Option, none, some, Result, ok, fault,
}
use izan_wallet.Base.Bytes.{Bytes, text, to_string}
use izan_wallet.Keyd.Protocol.{Op, PipeOp, pipe_code, proposal_mac_bytes, get_u64le, put_u64le}
use izan_wallet.Keyd.Proposals.{
  Proposal, ProposalState, Provenance, ProposalQueue, provenance_byte, state_byte, get, state_of,
  submit, resolve, pending_ids,
}
use izan_wallet.Keyd.Audit.{Stdio}
use izan_wallet.Keyd.Signer.{is_empty}
use izan_wallet.Keyd.Child.{
  M, ◌>>=◌, ◌>>◌, done, lift, send_op, send_err, write_message, audit_append, set_queue, Env,
}

unfoldable pub reject : Bytes → M (Unit {0})
reject reason = write_message (pipe_code PipeOp.rejected ∷ reason)

-- " prov=ui" or " prov=anon"
unfoldable pub provenance_text : Provenance → Bytes
provenance_text Provenance.ui = text "ui"
provenance_text Provenance.anonymous = text "anon"

unfoldable pub submit_event : ℕ → Provenance → ℕ → Bytes
submit_event id prov size =
    text "proposal.submit id="
    ++ (to_string id
        ++ (text " prov=" ++ (provenance_text prov ++ (text " bytes=" ++ to_string size))))

-- `crypto_auth_verify` under the session's key is `mac_ok mac payload`.
module _ (sha256 : Bytes → Bytes) (mac_ok : Bytes → Bytes → Bool) where
  unfoldable pub accept : Stdio → Provenance → Bytes → M (Unit {0})
  accept io prov payload s =
      let r = submit s.queue payload prov in
      (set_queue r.1
          >> (audit_append sha256 io (submit_event r.0 prov (length payload))
              >> write_message (pipe_code PipeOp.accepted ∷ put_u64le r.0)))
        s

  unfoldable pub accept_nonempty : Stdio → Provenance → Bytes → M (Unit {0})
  accept_nonempty io prov payload =
      if is_empty payload then reject (text "empty proposal") else accept io prov payload

  unfoldable pub submit_ui : Stdio → Bytes → M (Unit {0})
  submit_ui io msg =
      let mac = take proposal_mac_bytes (drop 2 msg) in
      let payload = drop (2 + proposal_mac_bytes) msg in
      if ltb (length msg) (2 + proposal_mac_bytes)
      then reject (text "short frame")
      else if mac_ok mac payload
      then accept_nonempty io Provenance.ui payload
      else audit_append sha256 io (text "proposal.submit.badmac") >> reject (text "bad mac")

  unfoldable pub handle_submit : Stdio → Bytes → M (Unit {0})
  handle_submit io msg =
      if ltb (length msg) 2
      then reject (text "short frame")
      else if get_or msg 1 0 == 1
      then submit_ui io msg
      else if get_or msg 1 0 == 0
      then accept_nonempty io Provenance.anonymous (drop 2 msg)
      else reject (text "bad flag")

  unfoldable pub handle_query : Bytes → M (Unit {0})
  handle_query msg s =
      if length msg == 9
      then write_message
          (pipe_code PipeOp.query_state
            ∷ state_byte (state_of s.queue (get_u64le (drop 1 msg)))
            ∷ [])
          s
      else reject (text "short frame") s

  -- One message of a client. An empty one is passed over.
  unfoldable pub serve_message : Stdio → Bytes → M (Unit {0})
  serve_message io [] = done
  serve_message io (op ∷ rest) =
      if op == pipe_code PipeOp.submit
      then handle_submit io (op ∷ rest)
      else if op == pipe_code PipeOp.query
      then handle_query (op ∷ rest)
      else reject (text "unknown op")

module _ (sha256 : Bytes → Bytes) where
  unfoldable pub deny_settled : Env → ℕ → Bool × ProposalQueue → M (Unit {0})
  deny_settled env id (true, q) = do
    set_queue q
    audit_append sha256 env.io (text "proposal.deny id=" ++ to_string id)
    send_op Op.ok_reply []
  deny_settled env id (false, q) = do set_queue q; send_err (text "unknown proposal")

  unfoldable pub deny : Env → Bytes → M (Unit {0})
  deny env frame s =
      let id = get_u64le (drop 1 frame) in
      if length frame == 9
      then deny_settled env id (resolve s.queue id ProposalState.denied) s
      else send_err (text "short frame") s

-- `plane->queue.get(id)->provenance`, undefined where the id is not there.
abbrev pub provenance_at : Option Proposal → Result Provenance
provenance_at none = fault
provenance_at (some p) = ok p.provenance

unfoldable pub pending_records : ProposalQueue → List ℕ → M Bytes
pending_records q [] = lift (ok [])
pending_records q (id ∷ ids) = do
  prov ← lift (provenance_at (get q id))
  rest ← pending_records q ids
  lift (ok (put_u64le id ++ (provenance_byte prov ∷ rest)))

unfoldable pub pending : M (Unit {0})
pending s =
    (pending_records s.queue (pending_ids s.queue) >>= λ body. send_op Op.pending_list body) s

unfoldable pub fetch_found : Option Proposal → M (Unit {0})
fetch_found none = send_err (text "unknown proposal")
fetch_found (some p) = send_op Op.proposal_body (provenance_byte p.provenance ∷ p.payload)

unfoldable pub fetch : Bytes → M (Unit {0})
fetch frame s =
    if length frame == 9
    then fetch_found (get s.queue (get_u64le (drop 1 frame))) s
    else send_err (text "short frame") s
