-- ===== src/Vault/File.antt =====
-- core/secure/vault.cpp: derive_key, the blob that `save` lays out and the one that `open` reads.
-- libsodium is a parameter: `Sodium` holds its calls, `SodiumLaws` what its documentation promises
-- of them.
pub mod Codec
pub mod RoundTrip
use izan_wallet.Base.{
  ℕ, ◌+◌, ◌^◌, ◌≡◌, Bool, true, false, not, ◌||◌, List, [], ◌∷◌, ◌++◌, ◌==◌, ltb, if◌then◌else◌,
  length, take, drop, get_or, Option, none, some, Result, ok, err, ◌>>=◌, ◌>>◌, throw_if,
}
use izan_wallet.Base.Bytes.{Bytes, text, beq, le_bytes, le_value}
use izan_wallet.Vault.Payload.{Wallet, pack_payload, unpack_payload}

-- pwhash password salt opslimit memlimit; secretbox plain nonce key; secretbox_open box nonce key.
pub record Sodium : Type 0 where
  pub init_fails : Bool
  pub pwhash : Bytes → Bytes → ℕ → ℕ → Option Bytes
  pub secretbox : Bytes → Bytes → Bytes → Option Bytes
  pub secretbox_open : Bytes → Bytes → Bytes → Option Bytes

abbrev pub mac_bytes : ℕ
mac_bytes = 16

pub record SodiumLaws (s : Sodium) : Type 0 where
  pub box_length :
      (plain nonce key box : Bytes)
      → s.secretbox plain nonce key ≡ some box
      → length box ≡ length plain + mac_bytes
  pub box_opens :
      (plain nonce key box : Bytes)
      → s.secretbox plain nonce key ≡ some box
      → s.secretbox_open box nonce key ≡ some plain

abbrev pub magic : Bytes
magic = b'Q' ∷ b'V' ∷ b'L' ∷ b'T' ∷ []

abbrev pub vault_ver : ℕ
vault_ver = 1

abbrev pub vault_alg : ℕ
vault_alg = 1

abbrev pub salt_bytes : ℕ
salt_bytes = 16

abbrev pub nonce_bytes : ℕ
nonce_bytes = 24

-- 4 + 2 + 16 + kSalt + kNonce + 4
abbrev pub head_bytes : ℕ
head_bytes = 66

-- The fields of a vault file.
pub record Sealed : Type 0 where
  pub opslimit : ℕ
  pub memlimit : ℕ
  pub salt : Bytes
  pub nonce : Bytes
  pub box : Bytes

-- `strnlen`: the passphrase ends at its first zero byte.
unfoldable pub until_nul : Bytes → Bytes
until_nul [] = []
until_nul (b ∷ bs) = if b == 0 then [] else b ∷ until_nul bs

abbrev pub is_empty : Bytes → Bool
is_empty [] = true
is_empty (b ∷ bs) = false

abbrev pub or_throw : Option Bytes → Bytes → Result Bytes
or_throw none e = err e
or_throw (some a) e = ok a

unfoldable pub derive_key : Sodium → Bytes → Bytes → ℕ → ℕ → Result Bytes
derive_key s passphrase salt opslimit memlimit = do
  let pw = until_nul passphrase
  throw_if (is_empty pw) (text "empty passphrase")
  or_throw (s.pwhash pw salt opslimit memlimit) (text "Argon2id failed (out of memory?)")

unfoldable pub put_blob : Sealed → Bytes
put_blob v =
    magic
    ++ (vault_ver
        ∷ vault_alg
        ∷ (le_bytes 8 v.opslimit
            ++ (le_bytes 8 v.memlimit
                ++ (v.salt ++ (v.nonce ++ (le_bytes 4 (length v.box) ++ v.box))))))

-- The reads of `open` behind the two version bytes; `p += k` is `drop k p`.
unfoldable pub get_fields : Bytes → Bytes → Result Sealed
get_fields blob p0 = do
  let ops = le_value 8 p0
  let p1 = drop 8 p0
  let mem = le_value 8 p1
  let p2 = drop 8 p1
  let salt = take salt_bytes p2
  let p3 = drop salt_bytes p2
  let nonce = take nonce_bytes p3
  let p4 = drop nonce_bytes p3
  let n = le_value 4 p4
  throw_if (not (length blob == head_bytes + n) || ltb n mac_bytes) (text "vault file truncated")
  ok (record { opslimit = ops; memlimit = mem; salt = salt; nonce = nonce; box = drop 4 p4 })

unfoldable pub get_blob : Bytes → Result Sealed
get_blob blob = do
  throw_if (ltb (length blob) head_bytes || not (beq (take 4 blob) magic)) (text "not a vault file")
  throw_if (not (get_or blob 4 0 == vault_ver)) (text "unsupported vault version")
  throw_if (not (get_or blob 5 0 == vault_alg)) (text "unsupported vault alg")
  get_fields blob (drop 6 blob)

pub record KdfParams : Type 0 where
  pub opslimit : ℕ
  pub memlimit : ℕ

-- The two buffers that `save` fills with random bytes.
pub record Fresh : Type 0 where
  pub salt : Bytes
  pub nonce : Bytes

-- `save` up to the blob; the writes to disk are in `Vault.Disk`.
unfoldable pub seal : Sodium → Fresh → Bytes → Wallet → KdfParams → Result Bytes
seal s fresh passphrase wallet kdf = do
  throw_if s.init_fails (text "sodium_init failed")
  throw_if (is_empty passphrase) (text "empty passphrase")
  payload ← pack_payload wallet
  key ← derive_key s passphrase fresh.salt kdf.opslimit kdf.memlimit
  box ← or_throw (s.secretbox payload fresh.nonce key) (text "encrypt failed")
  ok (
      put_blob (record {
        opslimit = kdf.opslimit;
        memlimit = kdf.memlimit;
        salt = fresh.salt;
        nonce = fresh.nonce;
        box = box;
      }))

-- `open` from the bytes of the file on.
unfoldable pub unseal : Sodium → Bytes → Bytes → Result Wallet
unseal s blob passphrase = do
  v ← get_blob blob
  key ← derive_key s passphrase v.salt v.opslimit v.memlimit
  payload ←
      or_throw (s.secretbox_open v.box v.nonce key) (text "wrong passphrase or corrupted vault")
  unpack_payload payload
