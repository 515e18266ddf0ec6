-- ===== src/Keyd/Child/Password.antt =====
-- keyd/child.cpp: the requests of the password channel that concern the wallet: Unlock, Lock,
-- Status, Address, Reveal and Shutdown.
use izan_wallet.Base.{
  ℕ, Bool, true, false, List, [], ◌∷◌, ◌==◌, leb, if◌then◌else◌, length, drop, get_or, Option, none,
  some,
}
use izan_wallet.Base.Bytes.{Bytes, text, le_value}
use izan_wallet.Vault.Payload.{Imported, Wallet}
use izan_wallet.Keyd.Protocol.{Op, code_of, kind_byte}
use izan_wallet.Keyd.Presets.{DerivePreset, derive_preset_count, preset_of}
use izan_wallet.Keyd.Crypto.{Crypto}
use izan_wallet.Keyd.Signer.{is_empty, wallet_reveal_kind, account_address}
use izan_wallet.Keyd.Child.{
  M, ◌>>=◌, ◌>>◌, lift, try_catch, send, send_op, send_err, audit_append, set_bad_pass,
  count_bad_pass, set_wallet, throttle_bad_pass, Env,
}

unfoldable pub unlock_pass : Env → Bytes → M (Unit {0})
unlock_pass env pass = do
  opened ← lift (env.opens pass)
  set_bad_pass 0
  set_wallet (some opened)
  send_op Op.ok_reply []

unfoldable pub unlock_failed : Bytes → M (Unit {0})
unlock_failed what = do count_bad_pass; set_wallet none; send_err what

unfoldable pub unlock : Env → Bytes → M (Unit {0})
unlock env frame = do throttle_bad_pass; try_catch (unlock_pass env (drop 1 frame)) unlock_failed

unfoldable pub lock : M (Unit {0})
lock = do set_wallet none; send_op Op.ok_reply []

abbrev pub is_unlocked : Option Wallet → Bool
is_unlocked none = false
is_unlocked (some w) = true

unfoldable pub status : M (Unit {0})
status s = send_op Op.state_reply ((if is_unlocked s.wallet then 1 else 0) ∷ []) s

-- The reply is sent before the loop returns.
unfoldable pub shutdown : M (Unit {0})
shutdown = do set_wallet none; send_op Op.ok_reply []

module _ {Hd : Type 0} (c : Crypto Hd) where
  unfoldable pub show_address : ℕ → DerivePreset → Wallet → M (Unit {0})
  show_address account preset w =
      try_catch
        (lift (account_address c w account preset) >>= λ addr.
          send_op Op.address_is (kind_byte (wallet_reveal_kind w) ∷ addr))
        send_err

  unfoldable pub address_of : ℕ → DerivePreset → Option Wallet → M (Unit {0})
  address_of account preset none = send_err (text "locked")
  address_of account preset (some w) = show_address account preset w

  unfoldable pub address_at : ℕ → DerivePreset → M (Unit {0})
  address_at account preset s = address_of account preset s.wallet s

  unfoldable pub address : Bytes → M (Unit {0})
  address frame =
      if length frame == 1
      then address_at 0 DerivePreset.meta_mask
      else if length frame == 5
      then address_at (le_value 4 (drop 1 frame)) DerivePreset.meta_mask
      else if length frame == 6
      then if leb derive_preset_count (get_or frame 5 0)
        then send_err (text "unknown derive preset")
        else address_at (le_value 4 (drop 1 frame)) (preset_of (get_or frame 5 0))
      else send_err (text "short frame")

module _ (sha256 : Bytes → Bytes) where
  unfoldable pub reveal_secret : Env → Bytes → Wallet → Bytes → M (Unit {0})
  reveal_secret env event opened secret = do
    audit_append sha256 env.io event
    send (code_of Op.root_secret ∷ kind_byte (wallet_reveal_kind opened) ∷ secret)

  unfoldable pub reveal_key : Env → Wallet → List Imported → M (Unit {0})
  reveal_key env opened [] = send_err (text "empty wallet")
  reveal_key env opened (im ∷ ims) = reveal_secret env (text "vault.reveal.key") opened im.key

  unfoldable pub reveal_opened : Env → Wallet → M (Unit {0})
  reveal_opened env opened =
      if is_empty opened.entropy
      then reveal_key env opened opened.imported
      else reveal_secret env (text "vault.reveal.seed") opened opened.entropy

  unfoldable pub reveal_pass : Env → Bytes → M (Unit {0})
  reveal_pass env pass = do opened ← lift (env.opens pass); set_bad_pass 0; reveal_opened env opened

  -- Whatever was thrown counts as a wrong passphrase.
  unfoldable pub reveal_failed : Env → Bytes → M (Unit {0})
  reveal_failed env what = do
    count_bad_pass
    audit_append sha256 env.io_again (text "vault.reveal.badpass")
    send_err (text "bad passphrase")

  unfoldable pub reveal : Env → Bytes → M (Unit {0})
  reveal env frame = do
    throttle_bad_pass
    try_catch (reveal_pass env (drop 1 frame)) (reveal_failed env)
