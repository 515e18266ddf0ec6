-- ===== src/Vault/Payload/RoundTrip.antt =====
-- A wallet that is packed is unpacked unchanged.
use izan_wallet.Base.{
  ◌%◌, ◌≤◌, ◌≡◌, ◌⊎◌, ◌↔◌, refl, List, [], ◌∷◌, ◌++◌, length, All, ok, arith, take-append_eq,
  drop-append_eq, length-append,
}
use izan_wallet.Base.Bytes.{Bytes}
use izan_wallet.Vault.Payload.{
  Imported, Wallet, check_imported, put_imported, put_payload, pack_payload, get_imported,
  unpack_payload,
}

abbrev pub ImportedFits : Imported → Type 0
ImportedFits im = (length im.label ≤ 255) × (length im.key ≡ 32)

-- What `pack_payload` asks of a wallet.
pub record Fits (w : Wallet) : Type 0 where
  pub keys : All ImportedFits w.imported
  pub count : length w.imported ≤ 255
  pub entropy : (length w.entropy ≡ 0) ⊎ ((length w.entropy ≡ 16) ⊎ (length w.entropy ≡ 32))

check_imported-Fits : (ims : List Imported) → check_imported ims ≡ ok tt → All ImportedFits ims
unfolding check_imported
check_imported-Fits [] h = tt
check_imported-Fits (im ∷ ims) h = ground (arith, check_imported-Fits ims)

Fits-check_imported : (ims : List Imported) → All ImportedFits ims → check_imported ims ≡ ok tt
unfolding check_imported
Fits-check_imported [] h = refl
Fits-check_imported (im ∷ ims) h = ground (arith, Fits-check_imported ims h.1)

get_imported-put_imported :
    (ims : List Imported)
    → All ImportedFits ims
    → get_imported (length ims) (put_imported ims) ≡ ok ims
unfolding get_imported put_imported
get_imported-put_imported [] h = refl
get_imported-put_imported (im ∷ ims) h =
    let rest = im.key ++ put_imported ims in
    ground (
      arith,
      length-append im.label rest,
      length-append im.key (put_imported ims),
      take-append_eq (length im.label) im.label rest refl,
      drop-append_eq (length im.label) im.label rest refl,
      take-append_eq 32 im.key (put_imported ims),
      drop-append_eq 32 im.key (put_imported ims),
      get_imported-put_imported ims h.1,
    )

unpack_payload-put_payload : (w : Wallet) → Fits w → unpack_payload (put_payload w) ≡ ok w
unfolding unpack_payload put_payload
unpack_payload-put_payload w h =
    let rest = length w.imported % 256 ∷ put_imported w.imported in
    ground (
      arith,
      length-append w.entropy rest,
      take-append_eq (length w.entropy) w.entropy rest refl,
      drop-append_eq (length w.entropy) w.entropy rest refl,
      get_imported-put_imported w.imported h.keys,
    )

-- `pack_payload` accepts exactly the wallets with labels of at most 255 bytes, keys of 32 bytes, at
-- most 255 keys and an entropy of 0, 16 or 32 bytes.
pub pack_payload_iff : (w : Wallet) → ((p : Bytes) × (pack_payload w ≡ ok p)) ↔ Fits w
unfolding pack_payload
pack_payload_iff w = (
  λ (p, e). record {
    keys = ground (arith, check_imported-Fits w.imported);
    count = ground arith;
    entropy = ground arith;
  },
  λ f. (put_payload w, ground (arith, Fits-check_imported w.imported f.keys)),
)

-- Every wallet that can be packed is unpacked unchanged.
pub unpack_payload-pack_payload :
    (w : Wallet) (p : Bytes) → pack_payload w ≡ ok p → unpack_payload p ≡ ok w
unfolding pack_payload
unpack_payload-pack_payload w p h =
    let f = (pack_payload_iff w).0 (p, h) in ground (arith, unpack_payload-put_payload w f)
