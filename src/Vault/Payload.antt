-- ===== src/Vault/Payload.antt =====
-- core/secure/vault.cpp: pack_payload and unpack_payload, the plaintext inside the vault file.
pub mod RoundTrip
use izan_wallet.Base.{
  ℕ, zero, suc, ◌+◌, ◌%◌, Bool, true, false, not, ◌&&◌, List, [], ◌∷◌, ◌++◌, ◌==◌, ltb,
  if◌then◌else◌, length, take, drop, get_or, Result, ok, err, ◌>>=◌, ◌>>◌, throw_if,
}
use izan_wallet.Base.Bytes.{Bytes, text}

pub record Imported : Type 0 where
  pub label : Bytes
  pub key : Bytes

pub record Wallet : Type 0 where
  pub entropy : Bytes
  pub imported : List Imported

-- The tests of the first loop, in the order of the list.
unfoldable pub check_imported : List Imported → Result (Unit {0})
check_imported [] = ok tt
check_imported (im ∷ ims) = do
  throw_if (ltb 255 (length im.label)) (text "label too long")
  throw_if (not (length im.key == 32)) (text "imported key != 32B")
  check_imported ims

unfoldable pub put_imported : List Imported → Bytes
put_imported [] = []
put_imported (im ∷ ims) = length im.label % 256 ∷ (im.label ++ (im.key ++ put_imported ims))

unfoldable pub put_payload : Wallet → Bytes
put_payload w =
    1 ∷ length w.entropy % 256 ∷ (w.entropy ++ (length w.imported % 256 ∷ put_imported w.imported))

unfoldable pub pack_payload : Wallet → Result Bytes
pack_payload w = do
  check_imported w.imported
  throw_if (ltb 255 (length w.imported)) (text "too many keys")
  throw_if
      (not (length w.entropy == 0)
        && (not (length w.entropy == 16) && not (length w.entropy == 32)))
      (text "entropy must be 0/16/32 bytes")
  ok (put_payload w)

-- `need(k)`: what is left of the payload holds k bytes at least.
abbrev pub need : ℕ → Bytes → Result (Unit {0})
need k p = throw_if (ltb (length p) k) (text "vault payload truncated")

-- `*p++` and `p += k` are `get_or p 0 0` and `drop k p`. Bytes behind the last key are not looked at.
unfoldable pub get_imported : ℕ → Bytes → Result (List Imported)
get_imported zero p = ok []
get_imported (suc n) p = do
  need 1 p
  let len = get_or p 0 0
  let body = drop 1 p
  need (len + 32) body
  rest ← get_imported n (drop 32 (drop len body))
  ok (record { label = take len body; key = take 32 (drop len body) } ∷ rest)

unfoldable pub unpack_payload : Bytes → Result Wallet
unpack_payload payload = do
  need 2 payload
  throw_if (not (get_or payload 0 0 == 1)) (text "unknown payload version")
  let ent = get_or payload 1 0
  let body = drop 2 payload
  need ent body
  let tail = drop ent body
  need 1 tail
  ims ← get_imported (get_or tail 0 0) (drop 1 tail)
  ok (record { entropy = take ent body; imported = ims })
