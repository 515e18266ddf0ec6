-- ===== src/Vault/File/RoundTrip.antt =====
-- What is sealed under a passphrase opens under it.
use izan_wallet.Base.{◌+◌, ◌^◌, ◌<◌, ◌≡◌, false, length, some, ok, arith}
use izan_wallet.Base.Bytes.{Bytes}
use izan_wallet.Vault.Payload.{Wallet, pack_payload}
use izan_wallet.Vault.Payload.RoundTrip.{unpack_payload-pack_payload}
use izan_wallet.Vault.File.{
  Sodium, SodiumLaws, mac_bytes, Sealed, salt_bytes, nonce_bytes, derive_key, put_blob, KdfParams,
  Fresh, seal, unseal,
}
use izan_wallet.Vault.File.Codec.{Fits, get_blob-put_blob}

abbrev pub sealed : KdfParams → Fresh → Bytes → Sealed
sealed kdf fresh box = record {
  opslimit = kdf.opslimit;
  memlimit = kdf.memlimit;
  salt = fresh.salt;
  nonce = fresh.nonce;
  box = box;
}

-- What a successful `seal` went through.
pub seal-inv :
    (s : Sodium) (fresh : Fresh) (passphrase : Bytes) (wallet : Wallet) (kdf : KdfParams)
    (blob : Bytes)
    → seal s fresh passphrase wallet kdf ≡ ok blob
    → (payload : Bytes) × (key : Bytes) × (box : Bytes) × (s.init_fails ≡ false)
      × (pack_payload wallet ≡ ok payload)
      × (derive_key s passphrase fresh.salt kdf.opslimit kdf.memlimit ≡ ok key)
      × (s.secretbox payload fresh.nonce key ≡ some box)
      × (blob ≡ put_blob (sealed kdf fresh box))
unfolding seal
seal-inv s fresh passphrase wallet kdf blob e = ground arith

-- What `save` needs of its parameters to lay the fields out whole.
pub record Room (fresh : Fresh) (kdf : KdfParams) (payload : Bytes) : Type 0 where
  pub ops : kdf.opslimit < 2 ^ 64
  pub mem : kdf.memlimit < 2 ^ 64
  pub salt : length fresh.salt ≡ salt_bytes
  pub nonce : length fresh.nonce ≡ nonce_bytes
  pub size : length payload + mac_bytes < 2 ^ 32

-- Under the laws of libsodium and with parameters that fit the file: a vault that is sealed under a
-- passphrase opens under it and holds the same wallet.
pub unseal-seal :
    (s : Sodium) (fresh : Fresh) (passphrase : Bytes) (wallet : Wallet) (kdf : KdfParams)
    (payload blob : Bytes)
    → SodiumLaws s
    → pack_payload wallet ≡ ok payload
    → Room fresh kdf payload
    → seal s fresh passphrase wallet kdf ≡ ok blob
    → unseal s blob passphrase ≡ ok wallet
unfolding unseal
unseal-seal s fresh passphrase wallet kdf payload blob laws packed room e =
    let (payload', key, box, ready, p, k, b, same) =
      seal-inv s fresh passphrase wallet kdf blob e in
    let v : Sealed = sealed kdf fresh box in
    let size = laws.box_length payload' fresh.nonce key box b in
    let fits : Fits v = record {
      ops = room.ops;
      mem = room.mem;
      salt = room.salt;
      nonce = room.nonce;
      mac = omega (arith, size);
      box = ground (arith, size);
    } in
    ground (
      arith,
      get_blob-put_blob v fits,
      laws.box_opens payload' fresh.nonce key box b,
      unpack_payload-pack_payload wallet payload' p,
    )
