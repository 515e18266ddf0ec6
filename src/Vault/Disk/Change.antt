-- ===== src/Vault/Disk/Change.antt =====
-- A change of the password.
use izan_wallet.Base.{
  ◌≡◌, refl, ◌⊎◌, inl, inr, false, Bool-cases, Option, none, some, Result, ok, err, arith,
}
use izan_wallet.Base.Bytes.{Bytes}
use izan_wallet.Vault.Payload.{Wallet, pack_payload}
use izan_wallet.Vault.File.{Sodium, SodiumLaws, KdfParams, Fresh, seal}
use izan_wallet.Vault.File.RoundTrip.{Room, unseal-seal, seal-inv}
use izan_wallet.Vault.Disk.{
  Disk, Weather, write_tmp, write_fails, remove_bak, rotate, rename_tmp, ShredWeather, shred,
  save_files, save, shred_bak, with_blob, open_vault, change_password,
}

save_files-ok :
    (w : Weather) (blob : Bytes) (d d' : Disk)
    → save_files w blob d ≡ (d', ok tt)
    → d'.dst ≡ some blob
unfolding save_files write_tmp write_fails remove_bak rotate rename_tmp
save_files-ok w blob d d' h = ground arith

shred-ok :
    (w : ShredWeather) (o o' : Option Bytes)
    → shred w o ≡ (o', ok tt)
    → (o' ≡ none) ⊎ ((w.sized ≡ false) × (o' ≡ o))
unfolding shred
shred-ok w none o' h = inl (ground arith)
shred-ok w (some old) o' h = elim (Bool-cases w.sized) [
  | inl sized ↦ inl (ground (arith, sized))
  | inr unsized ↦ inr (unsized, ground (arith, unsized))
]

with_blob-ok :
    (r : Result Bytes) (w : Weather) (d d' : Disk)
    → with_blob r w d ≡ (d', ok tt)
    → (blob : Bytes) × (r ≡ ok blob) × (d'.dst ≡ some blob)
with_blob-ok (ok blob) w d d' h = (blob, refl, save_files-ok w blob d d' h)
with_blob-ok (err e) w d d' h = absurd (ground arith)
with_blob-ok Result.fault w d d' h = absurd (ground arith)

shred_bak-ok :
    (w : ShredWeather) (d d' : Disk) (r : Result (Unit {0}))
    → shred_bak w (d, r) ≡ (d', ok tt)
    → (r ≡ ok tt) × (d'.dst ≡ d.dst) × ((d'.bak ≡ none) ⊎ ((w.sized ≡ false) × (d'.bak ≡ d.bak)))
shred_bak-ok w d d' (ok tt) h = (refl, ground arith, shred-ok w d.bak d'.bak (ground arith))
shred_bak-ok w d d' (err e) h = absurd (ground arith)
shred_bak-ok w d d' Result.fault h = absurd (ground arith)

module _ (s : Sodium) (fresh : Fresh) (w : Weather) (kdf : KdfParams) where
  -- What a successful `save` leaves opens under its passphrase and holds the wallet.
  pub open_vault-save :
      (passphrase : Bytes) (wallet : Wallet) (payload : Bytes) (d d' : Disk)
      → SodiumLaws s
      → pack_payload wallet ≡ ok payload
      → Room fresh kdf payload
      → save s fresh w passphrase wallet kdf d ≡ (d', ok tt)
      → open_vault s passphrase d' ≡ ok wallet
  unfolding save open_vault
  open_vault-save passphrase wallet payload d d' laws packed room e =
      let (blob, made, written) = with_blob-ok (seal s fresh passphrase wallet kdf) w d d' e in
      let (payload', key, box, ready, p, k, b, same) =
        seal-inv s fresh passphrase wallet kdf blob made in
      simp (ready, written)
        (unseal-seal s fresh passphrase wallet kdf payload blob laws packed room made)

  -- Under the laws of libsodium and with parameters that fit the file: after a change of the
  -- password of a vault that opened under the old one, a change that succeeds, the vault opens
  -- under the new passphrase with the same wallet, and there is no path.bak; unless the size of
  -- path.bak could not be read, when the change succeeds as well and path.bak is as `save` left it.
  pub change_password-ok :
      (sw : ShredWeather) (old_pass new_pass : Bytes) (wallet : Wallet) (payload : Bytes)
      (d d' : Disk)
      → SodiumLaws s
      → open_vault s old_pass d ≡ ok wallet
      → pack_payload wallet ≡ ok payload
      → Room fresh kdf payload
      → change_password s fresh w sw old_pass new_pass kdf d ≡ (d', ok tt)
      → (open_vault s new_pass d' ≡ ok wallet)
        × ((d'.bak ≡ none)
            ⊎ ((sw.sized ≡ false) × (d'.bak ≡ (save s fresh w new_pass wallet kdf d).0.bak)))
  unfolding change_password
  change_password-ok sw old_pass new_pass wallet payload d d' laws opened packed room e =
      let saved = save s fresh w new_pass wallet kdf d in
      let shredded : shred_bak sw saved ≡ (d', ok tt) = rw opened at e in
      let (done, same, gone) = shred_bak-ok sw saved.0 d' saved.1 shredded in
      let opens : open_vault s new_pass saved.0 ≡ ok wallet =
        open_vault-save new_pass wallet payload d saved.0 laws packed room (cc done) in
      (unfold open_vault in rw same opens, gone)
