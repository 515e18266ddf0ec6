-- ===== src/Keyd/Client/Tests.antt =====
-- The client against a child with two proposals, one of which is settled.
use izan_wallet.Base.{◌≡◌, refl, true, [], ◌∷◌, replicate, none, some, ok, arith}
use izan_wallet.Base.Bytes.{Bytes, text, to_string}
use izan_wallet.Base.Hex.{to_hex}
use izan_wallet.Keyd.Proposals.{Provenance, ProposalState, new_proposal}
use izan_wallet.Keyd.Audit.{AuditLog, append, write_line, has_newline, written}
use izan_wallet.Keyd.Signer.Toy.{toy_crypto, key_wallet}
use izan_wallet.Keyd.Child.{Keyd, Env}
use izan_wallet.Keyd.Child.Sign.{SolReader}
use izan_wallet.Keyd.Child.Plane.{submit_event, provenance_text}
use izan_wallet.Keyd.Client
use izan_wallet.Keyd.Client.{KeydClient, PendingItem}
use izan_wallet.Keyd.Client.Child.{child_peer}
use izan_wallet.Keyd.Client.Inbox.{waiting, sent_list, pending-waiting}
use izan_wallet.Keyd.Client.Submit.{accepted_in, event_of, submit_ui-accepted}

abbrev reader : SolReader
reader = record {
  parse_transfer_message = λ m. ok tt;
  parse_spl_transfer = λ m. ok tt;
  message_fee_payer = λ m. ok [];
}

abbrev hash : Bytes → Bytes
hash m = replicate 32 0

abbrev env : Env
env = record {
  opens = λ pass. ok key_wallet;
  io = written;
  io_again = written;
  aux = λ i. replicate 32 i;
}

abbrev child : Keyd
child = record {
  wallet = some key_wallet;
  queue = record {
    items =
        record {
          id = 1;
          provenance = Provenance.ui;
          state = ProposalState.denied;
          payload = 5 ∷ [];
        }
        ∷ new_proposal 2 (6 ∷ []) Provenance.anonymous
        ∷ [];
    next_id = 2;
  };
  audit = record { file = none; chain = replicate 32 0; loaded = true };
  bad_pass = 0;
  recorded = [];
  sent = [];
  piped = [];
  stalls = [];
}

abbrev client : KeydClient
client = record { connected = true; last_error = []; wallet_kind = 0 }

child-waiting : waiting child.queue.items ≡ record { id = 2; provenance = 0 } ∷ []
unfolding waiting
child-waiting = refl

pending-waiting_example :
    Client.pending (child_peer toy_crypto reader hash (λ m p. true) env written) client child ≡ (
      sent_list toy_crypto reader hash (λ m p. true) env written child,
      client,
      ok (some (waiting child.queue.items)),
    )
pending-waiting_example =
    pending-waiting toy_crypto reader hash (λ m p. true) env written client child refl
      (omega arith, (omega arith, omega arith)) (omega arith) (rw child-waiting (omega arith))

abbrev logged : AuditLog
logged =
    (append hash written (event_of toy_crypto reader hash (λ m p. true) env written (7 ∷ []) child)
      child.audit).0

logged-append :
    append hash written
      (event_of toy_crypto reader hash (λ m p. true) env written (7 ∷ []) child)
      child.audit
    ≡ (logged, ok tt)
unfolding append write_line has_newline to_hex submit_event provenance_text text to_string
logged-append = refl

submit_ui-accepted_example :
    Client.submit_ui
      (child_peer toy_crypto reader hash (λ m p. true) env written)
      (λ p. replicate 32 9)
      (7 ∷ [])
      client
      child
    ≡ (
      accepted_in toy_crypto reader hash (λ m p. true) env written (7 ∷ []) child,
      client,
      ok (some 3),
    )
submit_ui-accepted_example =
    submit_ui-accepted toy_crypto reader hash (λ m p. true) env written (λ p. replicate 32 9)
      (7 ∷ []) client child logged refl refl refl logged-append
