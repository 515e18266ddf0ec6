-- ===== src/Keyd/Child/Books/Handlers.antt =====
-- Every handler but Approve leaves the books as they are.
use izan_wallet.Base.{
  ℕ, ◌+◌, ◌≡◌, refl, Bool, true, false, List, [], ◌∷◌, ◌++◌, ◌==◌, ltb, leb, length, take, drop,
  get_or, Option, none, some,
}
use izan_wallet.Base.Bytes.{Bytes, text, beq, to_string}
use izan_wallet.Vault.Payload.{Wallet, Imported}
use izan_wallet.Keyd.Protocol.{Op, code_of, get_u64le, PipeOp, pipe_code, proposal_mac_bytes}
use izan_wallet.Keyd.Presets.{DerivePreset, derive_preset_count}
use izan_wallet.Keyd.Proposals.{
  Proposal, ProposalState, Provenance, ProposalQueue, get, submit, resolve, pending_ids,
}
use izan_wallet.Keyd.Proposals.Count.{approved_count, approved_count-submit, approved_count-denied}
use izan_wallet.Keyd.Audit.{Stdio}
use izan_wallet.Keyd.Crypto.{Crypto}
use izan_wallet.Keyd.Signer.{is_empty, account_address}
use izan_wallet.Keyd.Child.{
  Keyd, lift, send_op, send_err, audit_append, set_bad_pass, count_bad_pass, set_wallet,
  throttle_bad_pass, Env,
}
use izan_wallet.Keyd.Child.Password.{
  unlock_pass, unlock_failed, unlock, lock, status, shutdown, show_address, address_of, address_at,
  address, reveal_secret, reveal_key, reveal_opened, reveal_pass, reveal_failed, reveal,
}
use izan_wallet.Keyd.Child.Plane.{
  reject, submit_event, accept, accept_nonempty, submit_ui, handle_submit, handle_query,
  serve_message, deny_settled, deny, provenance_at, pending_records, pending, fetch_found, fetch,
}
use izan_wallet.Keyd.Child.Books.{
  is_approval, Quiet, IsQuiet, if-Quiet, settled-Quiet, done-IsQuiet, bind-IsQuiet, seq-IsQuiet,
  try_catch-IsQuiet, if-IsQuiet, lift-IsQuiet, send-IsQuiet, send_err-IsQuiet, send_op-IsQuiet,
  write_message-IsQuiet, set_bad_pass-IsQuiet, count_bad_pass-IsQuiet, set_wallet-IsQuiet,
  throttle_bad_pass-IsQuiet, audit_append-IsQuiet,
}

ok_reply-IsQuiet : IsQuiet (send_op Op.ok_reply [])
unfolding code_of
ok_reply-IsQuiet = send_op-IsQuiet Op.ok_reply [] refl

pub unlock-IsQuiet : (env : Env) (frame : Bytes) → IsQuiet (unlock env frame)
unfolding unlock unlock_pass unlock_failed
unlock-IsQuiet env frame = seq-IsQuiet throttle_bad_pass _ throttle_bad_pass-IsQuiet (
    try_catch-IsQuiet _ _
      (bind-IsQuiet (lift (env.opens (drop 1 frame))) _ (lift-IsQuiet _) λ opened.
        seq-IsQuiet (set_bad_pass 0) _ (set_bad_pass-IsQuiet 0)
          (seq-IsQuiet (set_wallet (some opened)) _ (set_wallet-IsQuiet _) ok_reply-IsQuiet))
      λ what.
        seq-IsQuiet count_bad_pass _ count_bad_pass-IsQuiet
          (seq-IsQuiet (set_wallet none) _ (set_wallet-IsQuiet _) (send_err-IsQuiet what)))

pub lock-IsQuiet : IsQuiet lock
unfolding lock
lock-IsQuiet = seq-IsQuiet (set_wallet none) _ (set_wallet-IsQuiet _) ok_reply-IsQuiet

pub shutdown-IsQuiet : IsQuiet shutdown
unfolding shutdown
shutdown-IsQuiet = seq-IsQuiet (set_wallet none) _ (set_wallet-IsQuiet _) ok_reply-IsQuiet

pub status-IsQuiet : IsQuiet status
unfolding status code_of IsQuiet
status-IsQuiet s = send_op-IsQuiet Op.state_reply _ refl s

module _ {Hd : Type 0} (c : Crypto Hd) where
  show_address-IsQuiet :
      (account : ℕ) (preset : DerivePreset) (w : Wallet) → IsQuiet (show_address c account preset w)
  unfolding show_address code_of
  show_address-IsQuiet account preset w =
      try_catch-IsQuiet _ send_err
        (bind-IsQuiet (lift (account_address c w account preset)) _ (lift-IsQuiet _)
          λ addr. send_op-IsQuiet Op.address_is _ refl)
        send_err-IsQuiet

  address_of-IsQuiet :
      (account : ℕ) (preset : DerivePreset) (w : Option Wallet)
      → IsQuiet (address_of c account preset w)
  unfolding address_of
  address_of-IsQuiet account preset none = send_err-IsQuiet _
  address_of-IsQuiet account preset (some w) = show_address-IsQuiet account preset w

  address_at-IsQuiet : (account : ℕ) (preset : DerivePreset) → IsQuiet (address_at c account preset)
  unfolding address_at IsQuiet
  address_at-IsQuiet account preset s = address_of-IsQuiet account preset s.wallet s

  pub address-IsQuiet : (frame : Bytes) → IsQuiet (address c frame)
  unfolding address
  address-IsQuiet frame = if-IsQuiet (length frame == 1) _ _ (address_at-IsQuiet _ _) (
      if-IsQuiet (length frame == 5) _ _ (address_at-IsQuiet _ _) (
        if-IsQuiet (length frame == 6) _ _
          (if-IsQuiet (leb derive_preset_count (get_or frame 5 0)) _ _ (send_err-IsQuiet _)
            (address_at-IsQuiet _ _))
          (send_err-IsQuiet _)))

module _ (sha256 : Bytes → Bytes) where
  reveal_secret-IsQuiet :
      (env : Env) (event : Bytes) (opened : Wallet) (secret : Bytes)
      → is_approval event ≡ false
      → IsQuiet (reveal_secret sha256 env event opened secret)
  unfolding reveal_secret code_of
  reveal_secret-IsQuiet env event opened secret h =
      seq-IsQuiet (audit_append sha256 env.io event) _ (audit_append-IsQuiet sha256 env.io event h)
        (send-IsQuiet _ refl)

  reveal_key-IsQuiet :
      (env : Env) (opened : Wallet) (ims : List Imported)
      → IsQuiet (reveal_key sha256 env opened ims)
  unfolding reveal_key is_approval text beq
  reveal_key-IsQuiet env opened [] = send_err-IsQuiet _
  reveal_key-IsQuiet env opened (im ∷ ims) =
      reveal_secret-IsQuiet env (text "vault.reveal.key") opened im.key refl

  reveal_opened-IsQuiet : (env : Env) (opened : Wallet) → IsQuiet (reveal_opened sha256 env opened)
  unfolding reveal_opened is_approval text beq
  reveal_opened-IsQuiet env opened =
      if-IsQuiet (is_empty opened.entropy) _ _ (reveal_key-IsQuiet env opened opened.imported)
        (reveal_secret-IsQuiet env (text "vault.reveal.seed") opened opened.entropy refl)

  pub reveal-IsQuiet : (env : Env) (frame : Bytes) → IsQuiet (reveal sha256 env frame)
  unfolding reveal reveal_pass reveal_failed is_approval text beq
  reveal-IsQuiet env frame = seq-IsQuiet throttle_bad_pass _ throttle_bad_pass-IsQuiet (
      try_catch-IsQuiet _ _
        (bind-IsQuiet (lift (env.opens (drop 1 frame))) _ (lift-IsQuiet _) λ opened.
          seq-IsQuiet (set_bad_pass 0) _ (set_bad_pass-IsQuiet 0)
            (reveal_opened-IsQuiet env opened))
        λ what. seq-IsQuiet count_bad_pass _ count_bad_pass-IsQuiet (
          seq-IsQuiet (audit_append sha256 env.io_again (text "vault.reveal.badpass")) _
            (audit_append-IsQuiet sha256 env.io_again _ refl) (send_err-IsQuiet _)))

submit_event-quiet :
    (id : ℕ) (prov : Provenance) (size : ℕ) → is_approval (submit_event id prov size) ≡ false
unfolding submit_event is_approval text beq
submit_event-quiet id prov size = refl

module _ (sha256 : Bytes → Bytes) (mac_ok : Bytes → Bytes → Bool) where
  accept-IsQuiet :
      (io : Stdio) (prov : Provenance) (payload : Bytes)
      → IsQuiet (accept sha256 mac_ok io prov payload)
  unfolding accept IsQuiet
  accept-IsQuiet io prov payload s =
      let r = submit s.queue payload prov in
      settled-Quiet s r.1 _ (approved_count-submit s.queue payload prov) (
        seq-IsQuiet (audit_append sha256 io (submit_event r.0 prov (length payload))) _
          (audit_append-IsQuiet sha256 io _ (submit_event-quiet r.0 prov (length payload)))
          (write_message-IsQuiet _))

  accept_nonempty-IsQuiet :
      (io : Stdio) (prov : Provenance) (payload : Bytes)
      → IsQuiet (accept_nonempty sha256 mac_ok io prov payload)
  unfolding accept_nonempty reject
  accept_nonempty-IsQuiet io prov payload =
      if-IsQuiet (is_empty payload) _ _ (write_message-IsQuiet _) (accept-IsQuiet io prov payload)

  submit_ui-IsQuiet : (io : Stdio) (msg : Bytes) → IsQuiet (submit_ui sha256 mac_ok io msg)
  unfolding submit_ui reject is_approval text beq
  submit_ui-IsQuiet io msg =
      if-IsQuiet (ltb (length msg) (2 + proposal_mac_bytes)) _ _ (write_message-IsQuiet _) (
        if-IsQuiet
          (mac_ok (take proposal_mac_bytes (drop 2 msg)) (drop (2 + proposal_mac_bytes) msg)) _ _
          (accept_nonempty-IsQuiet io Provenance.ui _)
          (seq-IsQuiet _ _ (audit_append-IsQuiet sha256 io (text "proposal.submit.badmac") refl)
            (write_message-IsQuiet _)))

  handle_submit-IsQuiet : (io : Stdio) (msg : Bytes) → IsQuiet (handle_submit sha256 mac_ok io msg)
  unfolding handle_submit reject
  handle_submit-IsQuiet io msg = if-IsQuiet (ltb (length msg) 2) _ _ (write_message-IsQuiet _) (
      if-IsQuiet (get_or msg 1 0 == 1) _ _ (submit_ui-IsQuiet io msg) (
        if-IsQuiet (get_or msg 1 0 == 0) _ _ (accept_nonempty-IsQuiet io Provenance.anonymous _)
          (write_message-IsQuiet _)))

  handle_query-IsQuiet : (msg : Bytes) → IsQuiet (handle_query sha256 mac_ok msg)
  unfolding handle_query reject IsQuiet
  handle_query-IsQuiet msg s =
      if-Quiet s (length msg == 9) _ _ (write_message-IsQuiet _ s) (write_message-IsQuiet _ s)

  pub serve_message-IsQuiet :
      (io : Stdio) (msg : Bytes) → IsQuiet (serve_message sha256 mac_ok io msg)
  unfolding serve_message reject
  serve_message-IsQuiet io [] = done-IsQuiet
  serve_message-IsQuiet io (op ∷ rest) =
      if-IsQuiet (op == pipe_code PipeOp.submit) _ _ (handle_submit-IsQuiet io (op ∷ rest)) (
        if-IsQuiet (op == pipe_code PipeOp.query) _ _ (handle_query-IsQuiet (op ∷ rest))
          (write_message-IsQuiet _))

module _ (sha256 : Bytes → Bytes) where
  deny_event-quiet : (id : ℕ) → is_approval (text "proposal.deny id=" ++ to_string id) ≡ false
  unfolding is_approval text beq
  deny_event-quiet id = refl

  deny_settled-Quiet :
      (env : Env) (id : ℕ) (s : Keyd) (r : Bool × ProposalQueue)
      → approved_count r.1 ≡ approved_count s.queue
      → Quiet s (deny_settled sha256 env id r s).0
  unfolding deny_settled
  deny_settled-Quiet env id s (true, q) h = settled-Quiet s q _ h (
      seq-IsQuiet _ _ (audit_append-IsQuiet sha256 env.io _ (deny_event-quiet id)) ok_reply-IsQuiet)
  deny_settled-Quiet env id s (false, q) h = settled-Quiet s q _ h (send_err-IsQuiet _)

  pub deny-IsQuiet : (env : Env) (frame : Bytes) → IsQuiet (deny sha256 env frame)
  unfolding deny IsQuiet
  deny-IsQuiet env frame s =
      let id = get_u64le (drop 1 frame) in
      if-Quiet s (length frame == 9) _ _
        (deny_settled-Quiet env id s (resolve s.queue id ProposalState.denied)
          (approved_count-denied s.queue id))
        (send_err-IsQuiet _ s)

pending_records-IsQuiet : (q : ProposalQueue) (ids : List ℕ) → IsQuiet (pending_records q ids)
unfolding pending_records
pending_records-IsQuiet q [] = lift-IsQuiet _
pending_records-IsQuiet q (id ∷ ids) =
    bind-IsQuiet (lift (provenance_at (get q id))) _ (lift-IsQuiet _) λ prov.
      bind-IsQuiet (pending_records q ids) _ (pending_records-IsQuiet q ids) λ rest. lift-IsQuiet _

pub pending-IsQuiet : IsQuiet pending
unfolding pending code_of IsQuiet
pending-IsQuiet s =
    bind-IsQuiet (pending_records s.queue (pending_ids s.queue)) _ (pending_records-IsQuiet _ _)
      (λ body. send_op-IsQuiet Op.pending_list body refl) s

fetch_found-IsQuiet : (o : Option Proposal) → IsQuiet (fetch_found o)
unfolding fetch_found code_of
fetch_found-IsQuiet none = send_err-IsQuiet _
fetch_found-IsQuiet (some p) = send_op-IsQuiet Op.proposal_body _ refl

pub fetch-IsQuiet : (frame : Bytes) → IsQuiet (fetch frame)
unfolding fetch IsQuiet
fetch-IsQuiet frame s =
    if-Quiet s (length frame == 9) _ _
      (fetch_found-IsQuiet (get s.queue (get_u64le (drop 1 frame))) s) (send_err-IsQuiet _ s)
