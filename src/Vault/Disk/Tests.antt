-- ===== src/Vault/Disk/Tests.antt =====
-- A vault on disk, under a cipher in place of libsodium that only adds a tag of 16 zeros.
use izan_wallet.Base.{
  ◌≡◌, refl, ◌⊎◌, false, true, [], ◌∷◌, ◌++◌, replicate, drop, Option, none, some, ok, arith, All,
  length-append, drop-append_eq,
}
use izan_wallet.Base.Bytes.{Bytes, text, beq, le_bytes, le_value}
use izan_wallet.Vault.Payload.{
  Wallet, pack_payload, unpack_payload, put_payload, put_imported, check_imported, get_imported,
}
use izan_wallet.Vault.Payload.RoundTrip.{unpack_payload-pack_payload}
use izan_wallet.Vault.File.{
  until_nul, get_fields, Sodium, SodiumLaws, mac_bytes, Sealed, put_blob, get_blob, KdfParams,
  Fresh, seal, unseal, derive_key,
}
use izan_wallet.Vault.File.Codec.{get_blob-put_blob, put_blob-get_blob}
use izan_wallet.Vault.File.RoundTrip.{Room, unseal-seal}
use izan_wallet.Vault.Disk.{
  write_tmp, write_fails, remove_bak, rotate, rename_tmp, shred, noise, noise_blocks, Disk,
  complete, Weather, ShredWeather, save_files, save_moments, save, open_vault, change_password,
}
use izan_wallet.Vault.Disk.Safety.{Kept, save_moments-Kept}
use izan_wallet.Vault.Disk.Change.{change_password-ok}

abbrev hot : Wallet
hot = record {
  entropy = replicate 16 7;
  imported = record { label = b'a' ∷ []; key = replicate 32 9 } ∷ [];
}

abbrev packed : Bytes
packed = put_payload hot

hot-packed : pack_payload hot ≡ ok packed
unfolding pack_payload check_imported text
hot-packed = refl

unpack_payload-pack_payload_example : unpack_payload packed ≡ ok hot
unpack_payload-pack_payload_example = unpack_payload-pack_payload hot packed hot-packed

toy_open : Bytes → Option Bytes
toy_open box = some (drop 16 box)

abbrev toy : Sodium
toy = record {
  init_fails = false;
  pwhash = λ p s o m. some p;
  secretbox = λ plain nonce key. some (replicate 16 0 ++ plain);
  secretbox_open = λ box nonce key. toy_open box;
}

toy-SodiumLaws : SodiumLaws toy
unfolding toy_open
toy-SodiumLaws = record {
  box_length = λ plain nonce key box e. grind (arith, length-append (replicate 16 0) plain);
  box_opens = λ plain nonce key box e. grind (arith, drop-append_eq 16 (replicate 16 0) plain refl);
}

abbrev fresh : Fresh
fresh = record { salt = replicate 16 1; nonce = replicate 24 2 }

abbrev kdf : KdfParams
kdf = record { opslimit = 4; memlimit = 268435456 }

packed-Room : Room fresh kdf packed
unfolding put_payload put_imported
packed-Room = record {
  ops = omega arith;
  mem = omega arith;
  salt = refl;
  nonce = refl;
  size = omega arith;
}

abbrev calm : Weather
calm = record { write = complete; removes = true; rotates = true; renames = true }

abbrev shredder : ShredWeather
shredder = record {
  sized = true;
  opens = true;
  flushes = true;
  deletes = true;
  random = λ i n. replicate n i;
}

abbrev none_yet : Disk
none_yet = record { dst = none; tmp = none; bak = none }

abbrev sealed_under : Bytes → Bytes
sealed_under pass = put_blob (record {
  opslimit = 4;
  memlimit = 268435456;
  salt = fresh.salt;
  nonce = fresh.nonce;
  box = replicate 16 0 ++ packed;
})

sealed_under-fresh : seal toy fresh (text "old") hot kdf ≡ ok (sealed_under (text "old"))
unfolding seal derive_key until_nul pack_payload check_imported text
sealed_under-fresh = refl

unseal-seal_example : unseal toy (sealed_under (text "old")) (text "old") ≡ ok hot
unseal-seal_example =
    unseal-seal toy fresh (text "old") hot kdf packed (sealed_under (text "old")) toy-SodiumLaws
      hot-packed packed-Room sealed_under-fresh

abbrev stored : Sealed
stored = record {
  opslimit = 4;
  memlimit = 268435456;
  salt = fresh.salt;
  nonce = fresh.nonce;
  box = replicate 16 3;
}

stored-Fits : izan_wallet.Vault.File.Codec.Fits stored
stored-Fits = record {
  ops = omega arith;
  mem = omega arith;
  salt = refl;
  nonce = refl;
  mac = omega arith;
  box = omega arith;
}

abbrev old_vault : Disk
old_vault = record { dst = some (sealed_under (text "old")); tmp = none; bak = none }

-- The rename of the new file fails after the old one was rotated away.
abbrev stormy : Weather
stormy = record { write = complete; removes = true; rotates = true; renames = false }

save_moments-Kept_example :
    All (Kept (sealed_under (text "old")) (1 ∷ [])) (save_moments stormy (1 ∷ []) old_vault)
save_moments-Kept_example =
    save_moments-Kept stormy (sealed_under (text "old")) (1 ∷ []) old_vault refl

abbrev changed : Disk
changed = (change_password toy fresh calm shredder (text "old") (text "new") kdf old_vault).0

old_vault-opens : open_vault toy (text "old") old_vault ≡ ok hot
unfolding open_vault
old_vault-opens = unseal-seal_example

change_succeeds :
    change_password toy fresh calm shredder (text "old") (text "new") kdf old_vault
    ≡ (changed, ok tt)
unfolding change_password save seal save_files write_tmp write_fails remove_bak rotate rename_tmp
    shred noise noise_blocks pack_payload check_imported derive_key until_nul open_vault unseal
    get_blob get_fields put_blob put_payload put_imported unpack_payload get_imported toy_open text
    beq le_bytes le_value
change_succeeds = refl

change_password-ok_example :
    (open_vault toy (text "new") changed ≡ ok hot)
    × ((changed.bak ≡ none)
        ⊎ ((shredder.sized ≡ false)
            × (changed.bak ≡ (save toy fresh calm (text "new") hot kdf old_vault).0.bak)))
change_password-ok_example =
    change_password-ok toy fresh calm kdf shredder (text "old") (text "new") hot packed old_vault
      changed toy-SodiumLaws old_vault-opens hot-packed packed-Room change_succeeds
