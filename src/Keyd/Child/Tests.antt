-- ===== src/Keyd/Child/Tests.antt =====
-- The signer process, asked to approve one EVM transaction.
use izan_wallet.Base.{
  ◌≡◌, ◌⊎◌, suc, refl, true, List, [], ◌∷◌, replicate, none, some, ok, err, arith,
}
use izan_wallet.Base.Bytes.{Bytes, text, to_string}
use izan_wallet.Keyd.Protocol.{Op, code_of}
use izan_wallet.Keyd.Presets.{DerivePreset, preset_family, is_sol, is_btc}
use izan_wallet.Keyd.Proposals.{Provenance, new_proposal, get, find}
use izan_wallet.Keyd.Proposals.Count.{approved_count}
use izan_wallet.Keyd.Audit.{AuditLog, append, write_line, has_newline, written}
use izan_wallet.Base.Hex.{to_hex}
use izan_wallet.Keyd.Signer.Toy.{toy_crypto, key_wallet, evm_signed, evm_signs}
use izan_wallet.Keyd.Envelope.{make_envelope}
use izan_wallet.Keyd.Envelope.RoundTrip.{parse_proposal-make_envelope}
use izan_wallet.Keyd.Child.{
  Keyd, Env, ◌>>◌, pass_on, audit_append, note_event, set_queue, set_bad_pass, send_op, send,
}
use izan_wallet.Keyd.Child.Sign.{
  SolReader, evm, sign_proposal, sign_body, sign_evm, reply_op, reply_body, digest_of, signer_of,
  kind_of,
}
use izan_wallet.Keyd.Child.Approve.{
  approve_event, approve_opened, approve_found, approve_result, approve_signed, resolve_in,
}
use izan_wallet.Keyd.Child.Loop.{Event, request, autolock, run}
use izan_wallet.Keyd.Child.Books.{Books, signatures}
use izan_wallet.Keyd.Child.Books.Steps.{run-Books}
use izan_wallet.Keyd.Child.Approval.{Untouched, Granted, approve-Granted, approve-wrong}

abbrev toy_reader : SolReader
toy_reader = record {
  parse_transfer_message = λ m. ok tt;
  parse_spl_transfer = λ m. ok tt;
  message_fee_payer = λ m. ok [];
}

toy_sha256 : Bytes → Bytes
toy_sha256 m = replicate 32 0

abbrev toy_env : Env
toy_env = record {
  opens = λ pass. ok key_wallet;
  io = written;
  io_again = written;
  aux = λ i. replicate 32 i;
}

-- One proposal waits.
abbrev asked : Keyd
asked = record {
  wallet = some key_wallet;
  queue = record {
    items = new_proposal 1 (make_envelope DerivePreset.meta_mask 0 (2 ∷ [])) Provenance.ui ∷ [];
    next_id = 1;
  };
  audit = record { file = none; chain = replicate 32 0; loaded = true };
  bad_pass = 2;
  recorded = [];
  sent = [];
  piped = [];
  stalls = [];
}

asked-Books : Books asked
unfolding approved_count
asked-Books = omega arith

-- Approve of proposal 1 with a passphrase, an autolock, and a second Approve.
abbrev day : List Event
day =
    request toy_env (code_of Op.approve ∷ 1 ∷ 0 ∷ 0 ∷ 0 ∷ 0 ∷ 0 ∷ 0 ∷ 0 ∷ b'p' ∷ [])
    ∷ autolock written (text "idle")
    ∷ request toy_env (code_of Op.approve ∷ 1 ∷ 0 ∷ 0 ∷ 0 ∷ 0 ∷ 0 ∷ 0 ∷ 0 ∷ b'p' ∷ [])
    ∷ []

run-Books_example : Books (run toy_crypto toy_reader toy_sha256 (λ m p. true) asked day).0
run-Books_example = run-Books toy_crypto toy_reader toy_sha256 (λ m p. true) day asked asked-Books

approve-wrong_example :
    Untouched asked
      (approve_opened toy_crypto toy_reader toy_sha256 toy_env 1 (err (text "bad")) asked).0
    × ((approve_opened toy_crypto toy_reader toy_sha256 toy_env 1
          (err (text "bad"))
          asked).0.bad_pass
        ≡ 3)
approve-wrong_example = approve-wrong toy_crypto toy_reader toy_sha256 toy_env 1 (text "bad") asked

asked-signs :
    sign_proposal toy_crypto toy_reader toy_env.aux key_wallet
      (make_envelope DerivePreset.meta_mask 0 (2 ∷ []))
    ≡ ok (evm evm_signed)
unfolding sign_proposal sign_body sign_evm preset_family is_sol is_btc
asked-signs = rw (
  parse_proposal-make_envelope DerivePreset.meta_mask 0 (2 ∷ []) (omega arith) (λ e. ground arith),
  evm_signs,
)

abbrev logged : AuditLog
logged = (append toy_sha256 written (approve_event 1 (evm evm_signed)) asked.audit).0

asked-logs :
    append toy_sha256 written (approve_event 1 (evm evm_signed)) asked.audit ≡ (logged, ok tt)
unfolding append write_line has_newline to_hex approve_event digest_of signer_of kind_of text
    to_string
asked-logs = refl

approve-Granted_example :
    (signatures (approve_opened toy_crypto toy_reader toy_sha256 toy_env 1 (ok key_wallet) asked).0
      ≡ signatures asked)
    ⊎ Granted toy_crypto toy_reader toy_sha256 toy_env 1
        (ok key_wallet)
        asked
        (approve_opened toy_crypto toy_reader toy_sha256 toy_env 1 (ok key_wallet) asked).0
approve-Granted_example =
    approve-Granted toy_crypto toy_reader toy_sha256 toy_env 1 (ok key_wallet) asked

-- One signature is handed out there.
asked-signatures :
    signatures (approve_opened toy_crypto toy_reader toy_sha256 toy_env 1 (ok key_wallet) asked).0
    ≡ suc (signatures asked)
unfolding set_bad_pass approve_opened approve_found approve_result approve_signed ◌>>◌ pass_on
    audit_append note_event resolve_in set_queue send_op send get find reply_body reply_op code_of
asked-signatures = rw (asked-signs, asked-logs)
