-- ===== src/Keyd/Child/Approve.antt =====
-- keyd/child.cpp: Op::Approve. Verifying the human, judging, signing, resolving and recording are one
-- act, over the queue's own copy of the payload.
use izan_wallet.Base.{
  ℕ, ◌++◌, ltb, if◌then◌else◌, length, drop, Option, none, some, Result, ok, err, fault,
}
use izan_wallet.Base.Bytes.{Bytes, text, to_string}
use izan_wallet.Vault.Payload.{Wallet}
use izan_wallet.Keyd.Protocol.{get_u64le}
use izan_wallet.Keyd.Proposals.{Proposal, ProposalState, is_pending, get, resolve}
use izan_wallet.Keyd.Audit.{}
use izan_wallet.Base.Hex.{to_hex}
use izan_wallet.Keyd.Crypto.{Crypto}
use izan_wallet.Keyd.Child.{
  M, ◌>>◌, lift, send_op, send_err, audit_append, set_bad_pass, count_bad_pass, set_queue,
  throttle_bad_pass, Env,
}
use izan_wallet.Keyd.Child.Sign.{
  Signature, SolReader, sign_proposal, digest_of, signer_of, kind_of, reply_op, reply_body,
}

abbrev pub approve_tag : Bytes
approve_tag = text "proposal.approve id="

unfoldable pub approve_event : ℕ → Signature → Bytes
approve_event id sig =
    approve_tag
    ++ (to_string id
        ++ (kind_of sig
            ++ (text " digest=" ++ (to_hex (digest_of sig) ++ (text " signer=" ++ signer_of sig)))))

abbrev pub badpass_event : ℕ → Bytes
badpass_event id = text "proposal.approve.badpass id=" ++ to_string id

abbrev pub sign_fail_event : ℕ → Bytes
sign_fail_event id = text "proposal.sign.fail id=" ++ to_string id

-- The proposal, if it waits.
abbrev pub if_pending : Option Proposal → Option Proposal
if_pending none = none
if_pending (some p) = if is_pending p.state then some p else none

unfoldable pub resolve_in : ℕ → ProposalState → M (Unit {0})
resolve_in id verdict s = set_queue (resolve s.queue id verdict).1 s

module _ {Hd : Type 0} (c : Crypto Hd) (reader : SolReader) (sha256 : Bytes → Bytes) where
  unfoldable pub approve_signed : Env → ℕ → Signature → M (Unit {0})
  approve_signed env id sig = do
    resolve_in id ProposalState.approved
    audit_append sha256 env.io (approve_event id sig)
    send_op (reply_op sig) (reply_body sig)

  unfoldable pub approve_result : Env → ℕ → Result Signature → M (Unit {0})
  approve_result env id (ok sig) = approve_signed env id sig
  approve_result env id (err e) = do audit_append sha256 env.io (sign_fail_event id); send_err e
  approve_result env id fault = lift fault

  unfoldable pub approve_found : Env → ℕ → Wallet → Option Proposal → M (Unit {0})
  approve_found env id opened none = send_err (text "unknown proposal")
  approve_found env id opened (some p) =
      approve_result env id (sign_proposal c reader env.aux opened p.payload)

  unfoldable pub approve_opened : Env → ℕ → Result Wallet → M (Unit {0})
  approve_opened env id (ok opened) s =
      (set_bad_pass 0 >> approve_found env id opened (if_pending (get s.queue id))) s
  approve_opened env id (err e) s =
      (count_bad_pass
          >> (audit_append sha256 env.io (badpass_event id) >> send_err (text "bad passphrase")))
        s
  approve_opened env id fault s = (s, fault)

  unfoldable pub approve : Env → Bytes → M (Unit {0})
  approve env frame =
      if ltb (length frame) 9
      then send_err (text "short frame")
      else throttle_bad_pass
        >> approve_opened env (get_u64le (drop 1 frame)) (env.opens (drop 9 frame))
