-- ===== src/Keyd/Child/Sign.antt =====
-- keyd/child.cpp: the inner `try` of Op::Approve, from the payload to the signature.
use izan_wallet.Base.{
  ℕ, Bool, true, false, not, [], ◌∷◌, ◌++◌, if◌then◌else◌, Result, ok, err, fault, ◌>>=◌, ◌>>◌,
  throw_if,
}
use izan_wallet.Base.Bytes.{Bytes, text, beq}
use izan_wallet.Vault.Payload.{Wallet}
use izan_wallet.Keyd.Protocol.{Op}
use izan_wallet.Keyd.Presets.{preset_family, is_btc, is_sol}
use izan_wallet.Keyd.Envelope.{ProposalBody, parse_proposal}
use izan_wallet.Keyd.Crypto.{Crypto}
use izan_wallet.Keyd.Signer.{
  SignedDigest, SolSignedMessage, sign_payload, sign_sol_payload, account_address,
}
use izan_wallet.Keyd.Signer.Btc.{BtcSignedTx, sign_btc_payload}

pub data Signature : Type 0 where
  evm : SignedDigest → Signature
  sol : SolSignedMessage → Signature
  btc : BtcSignedTx → Signature

-- The three readers of domain/sol/sol_tx.hpp, which is not among the sources.
pub record SolReader : Type 0 where
  pub parse_transfer_message : Bytes → Result (Unit {0})
  pub parse_spl_transfer : Bytes → Result (Unit {0})
  pub message_fee_payer : Bytes → Result Bytes

-- Whether a parser accepts; an exception means that it does not.
abbrev pub accepts : Result (Unit {0}) → Result Bool
accepts (ok u) = ok true
accepts (err e) = ok false
accepts fault = fault

module _ {Hd : Type 0} (c : Crypto Hd) (reader : SolReader) where
  unfoldable pub check_fee_payer : Wallet → ProposalBody → Result (Unit {0})
  check_fee_payer opened body = do
    payer ← reader.message_fee_payer body.tx
    address ← account_address c opened body.account body.preset
    throw_if (not (beq payer address)) (text "keyd: swap fee payer is not this account")

  -- Before a Solana message is signed it must read as one of two transfers, or name this account as
  -- its fee payer.
  unfoldable pub check_sol : Wallet → ProposalBody → Result (Unit {0})
  check_sol opened body = do
    transfer ← accepts (reader.parse_transfer_message body.tx)
    readable ← (if transfer then ok true else accepts (reader.parse_spl_transfer body.tx))
    if readable then ok tt else check_fee_payer opened body

  unfoldable pub sign_sol : Wallet → ProposalBody → Result Signature
  sign_sol opened body = do
    check_sol opened body
    s ← sign_sol_payload c opened body.tx body.account body.preset
    ok (sol s)

  unfoldable pub sign_btc : (ℕ → Bytes) → Wallet → ProposalBody → Result Signature
  sign_btc aux opened body = do
    s ← sign_btc_payload c aux opened body.tx body.account body.preset
    ok (btc s)

  unfoldable pub sign_evm : Wallet → ProposalBody → Result Signature
  sign_evm opened body = do s ← sign_payload c opened body.tx body.account body.preset; ok (evm s)

  unfoldable pub sign_body : (ℕ → Bytes) → Wallet → ProposalBody → Result Signature
  sign_body aux opened body =
      if is_sol (preset_family body.preset)
      then sign_sol opened body
      else if is_btc (preset_family body.preset)
      then sign_btc aux opened body
      else sign_evm opened body

  unfoldable pub sign_proposal : (ℕ → Bytes) → Wallet → Bytes → Result Signature
  sign_proposal aux opened payload = do body ← parse_proposal payload; sign_body aux opened body

unfoldable pub digest_of : Signature → Bytes
digest_of (evm s) = s.digest
digest_of (sol s) = s.digest
digest_of (btc s) = s.digest

unfoldable pub signer_of : Signature → Bytes
signer_of (evm s) = s.signer
signer_of (sol s) = s.signer
signer_of (btc s) = s.signer

unfoldable pub kind_of : Signature → Bytes
kind_of (evm s) = []
kind_of (sol s) = text " kind=sol-transfer"
kind_of (btc s) = text " kind=btc-send"

unfoldable pub reply_op : Signature → Op
reply_op (evm s) = Op.signed
reply_op (sol s) = Op.signed_sol
reply_op (btc s) = Op.signed_btc

unfoldable pub reply_body : Signature → Bytes
reply_body (evm s) = s.sig.y_parity ∷ (s.sig.r ++ s.sig.s)
reply_body (sol s) = s.sig
reply_body (btc s) = s.tx
