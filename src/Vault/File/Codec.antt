-- ===== src/Vault/File/Codec.antt =====
-- The layout of the vault file is read back field by field, and no other bytes are accepted for it.
use izan_wallet.Base.{
  ℕ, ◌+◌, ◌^◌, ◌≤◌, ◌<◌, ◌≡◌, ◌∷◌, ◌++◌, length, take, drop, get_or, ok, arith, take-append_eq,
  drop-append_eq, length-append, take-append-drop, All-drop, length-drop, length-take, drop-cons,
  sym, ap, ◌∙◌,
}
use izan_wallet.Base.Bytes.{
  Bytes, IsByte, AllBytes, beq, beq→eq, le_bytes, le_value, length-le_bytes, le_value-le_bytes,
  le_value-lt, le_bytes-drop,
}
use izan_wallet.Vault.File.{
  Sealed, mac_bytes, magic, vault_ver, vault_alg, salt_bytes, nonce_bytes, head_bytes, put_blob,
  get_fields, get_blob,
}

-- What a file can hold.
pub record Fits (v : Sealed) : Type 0 where
  pub ops : v.opslimit < 2 ^ 64
  pub mem : v.memlimit < 2 ^ 64
  pub salt : length v.salt ≡ salt_bytes
  pub nonce : length v.nonce ≡ nonce_bytes
  pub mac : mac_bytes ≤ length v.box
  pub box : length v.box < 2 ^ 32

-- The tails of the blob, from the limits, the salt, the nonce and the box's length on.
abbrev from_count : Sealed → Bytes
from_count v = le_bytes 4 (length v.box) ++ v.box

abbrev from_salt : Sealed → Bytes
from_salt v = v.salt ++ (v.nonce ++ from_count v)

abbrev from_limits : Sealed → Bytes
from_limits v = le_bytes 8 v.opslimit ++ (le_bytes 8 v.memlimit ++ from_salt v)

length-from_limits : (v : Sealed) → Fits v → length (from_limits v) ≡ 60 + length v.box
length-from_limits v f = omega (
  arith,
  length-append (le_bytes 8 v.opslimit) (le_bytes 8 v.memlimit ++ from_salt v),
  length-append (le_bytes 8 v.memlimit) (from_salt v),
  length-append v.salt (v.nonce ++ from_count v),
  length-append v.nonce (from_count v),
  length-append (le_bytes 4 (length v.box)) v.box,
  length-le_bytes 8 v.opslimit,
  length-le_bytes 8 v.memlimit,
  length-le_bytes 4 (length v.box),
)

get_fields-from_limits :
    (blob : Bytes) (v : Sealed)
    → Fits v
    → length blob ≡ head_bytes + length v.box
    → get_fields blob (from_limits v) ≡ ok v
unfolding get_fields
get_fields-from_limits blob v f h =
    let tail = le_bytes 8 v.memlimit ++ from_salt v in
    rw
      (
        le_value-le_bytes 8 v.opslimit tail f.ops,
        drop-append_eq 8 (le_bytes 8 v.opslimit) tail (length-le_bytes 8 v.opslimit),
        le_value-le_bytes 8 v.memlimit (from_salt v) f.mem,
        drop-append_eq 8 (le_bytes 8 v.memlimit) (from_salt v) (length-le_bytes 8 v.memlimit),
        take-append_eq salt_bytes v.salt (v.nonce ++ from_count v) f.salt,
        drop-append_eq salt_bytes v.salt (v.nonce ++ from_count v) f.salt,
        take-append_eq nonce_bytes v.nonce (from_count v) f.nonce,
        drop-append_eq nonce_bytes v.nonce (from_count v) f.nonce,
        le_value-le_bytes 4 (length v.box) v.box f.box,
        drop-append_eq 4 (le_bytes 4 (length v.box)) v.box (length-le_bytes 4 (length v.box)),
      )
      (ground arith)

-- Fields within the bounds of the file format are read back from the layout of `save`.
pub get_blob-put_blob : (v : Sealed) → Fits v → get_blob (put_blob v) ≡ ok v
unfolding get_blob put_blob beq
get_blob-put_blob v f = ground (
  arith,
  length-from_limits v f,
  get_fields-from_limits (magic ++ (vault_ver ∷ vault_alg ∷ from_limits v)) v f,
)

-- The reads behind the version bytes, before the test of the length.
abbrev read_fields : Bytes → Sealed
read_fields p = record {
  opslimit = le_value 8 p;
  memlimit = le_value 8 (drop 8 p);
  salt = take salt_bytes (drop 8 (drop 8 p));
  nonce = take nonce_bytes (drop salt_bytes (drop 8 (drop 8 p)));
  box = drop 4 (drop nonce_bytes (drop salt_bytes (drop 8 (drop 8 p))));
}

abbrev count_field : Bytes → ℕ
count_field p = le_value 4 (drop nonce_bytes (drop salt_bytes (drop 8 (drop 8 p))))

get_fields-inv :
    (blob p : Bytes) (v : Sealed)
    → get_fields blob p ≡ ok v
    → (v ≡ read_fields p) × (length blob ≡ head_bytes + count_field p) × (mac_bytes ≤ count_field p)
unfolding get_fields
get_fields-inv blob p v e = ground arith

from_limits-read_fields :
    (p : Bytes)
    → AllBytes p
    → length p ≡ 60 + count_field p
    → mac_bytes ≤ count_field p
    → (from_limits (read_fields p) ≡ p) × Fits (read_fields p)
from_limits-read_fields p h l m =
    let p1 = drop 8 p in
    let p2 = drop 8 p1 in
    let p3 = drop salt_bytes p2 in
    let p4 = drop nonce_bytes p3 in
    let h1 : AllBytes p1 = All-drop IsByte 8 p h in
    let h2 : AllBytes p2 = All-drop IsByte 8 p1 h1 in
    let h4 : AllBytes p4 = All-drop IsByte nonce_bytes p3 (All-drop IsByte salt_bytes p2 h2) in
    let l1 = length-drop 8 p in
    let l2 = length-drop 8 p1 in
    let l3 = length-drop salt_bytes p2 in
    let l4 = length-drop nonce_bytes p3 in
    let n : length (drop 4 p4) ≡ count_field p = omega (arith, l1, l2, l3, l4, length-drop 4 p4) in
    (
      rw (
        n,
        le_bytes-drop 4 p4 h4 (omega (arith, l1, l2, l3, l4)),
        take-append-drop nonce_bytes p3,
        take-append-drop salt_bytes p2,
        le_bytes-drop 8 p1 h1 (omega (arith, l1)),
        le_bytes-drop 8 p h (omega arith),
      ),
      record {
        ops = le_value-lt 8 p h;
        mem = le_value-lt 8 p1 h1;
        salt = omega (arith, length-take salt_bytes p2, l1, l2);
        nonce = omega (arith, length-take nonce_bytes p3, l1, l2, l3);
        mac = omega (arith, n);
        box = omega (arith, n, le_value-lt 4 p4 h4);
      },
    )

first_six :
    (blob : Bytes)
    → 6 ≤ length blob
    → blob ≡ take 4 blob ++ (get_or blob 4 0 ∷ get_or blob 5 0 ∷ drop 6 blob)
first_six blob h =
    sym (take-append-drop 4 blob)
    ∙ ap (◌++◌ (take 4 blob)) (
        drop-cons 4 blob 0 (omega arith)
        ∙ ap (◌∷◌ (get_or blob 4 0)) (drop-cons 5 blob 0 (omega arith)))

get_blob-inv :
    (blob : Bytes) (v : Sealed)
    → get_blob blob ≡ ok v
    → (head_bytes ≤ length blob)
      × (take 4 blob ≡ magic)
      × (get_or blob 4 0 ≡ vault_ver)
      × (get_or blob 5 0 ≡ vault_alg)
      × (get_fields blob (drop 6 blob) ≡ ok v)
unfolding get_blob
get_blob-inv blob v e = ground (arith, beq→eq (take 4 blob) magic)

-- A file that is accepted is, byte for byte, the layout of the fields that are read from it, and
-- these are within their bounds: nothing else stands in the file.
pub put_blob-get_blob :
    (blob : Bytes) (v : Sealed)
    → AllBytes blob
    → get_blob blob ≡ ok v
    → (put_blob v ≡ blob) × Fits v
unfolding put_blob
put_blob-get_blob blob v h e =
    let (long, m, ver, alg, g) = get_blob-inv blob v e in
    let (read, total, mac) = get_fields-inv blob (drop 6 blob) v g in
    let (same, fits) =
      from_limits-read_fields (drop 6 blob) (All-drop IsByte 6 blob h)
        (omega (arith, length-drop 6 blob)) mac in
    (cc (m, ver, alg, read, same, first_six blob (omega arith)), rw read fits)
