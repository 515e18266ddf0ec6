-- ===== src/Keyd/Envelope/RoundTrip.antt =====
-- The identity that a submitter packs is the identity that the signer reads, and back.
use izan_wallet.Base.{
  ℕ, ◌^◌, ◌<◌, ◌≡◌, ◌≢◌, refl, [], ◌∷◌, ◌++◌, ◌==◌, if◌then◌else◌, take, drop, ok, arith, All-drop,
  drop-append_eq, take-append-drop, length-append,
}
use izan_wallet.Base.Bytes.{
  Bytes, IsByte, AllBytes, le_bytes, length-le_bytes, le_value-le_bytes, le_bytes-le_value,
  le_value-lt,
}
use izan_wallet.Keyd.Presets.{
  DerivePreset, preset_byte-lt, preset_of-preset_byte, preset_byte-preset_of,
}
use izan_wallet.Keyd.Envelope.{
  ProposalBody, split_v2, split, parse_proposal, make_envelope, envelope_v1, envelope_v2,
}

split_v2-make_envelope :
    (preset : DerivePreset) (account : ℕ) (tx : Bytes)
    → account < 2 ^ 32
    → split_v2 (make_envelope preset account tx)
      ≡ ok (record { preset = preset; account = account; tx = tx })
unfolding split_v2 make_envelope
split_v2-make_envelope preset account tx h = ground (
  arith,
  length-append (le_bytes 4 account) tx,
  length-le_bytes 4 account,
  preset_byte-lt preset,
  preset_of-preset_byte preset,
  le_value-le_bytes 4 account tx,
  drop-append_eq 4 (le_bytes 4 account) tx (length-le_bytes 4 account),
)

split-make_envelope :
    (preset : DerivePreset) (account : ℕ) (tx : Bytes)
    → split (make_envelope preset account tx) ≡ split_v2 (make_envelope preset account tx)
unfolding split make_envelope
split-make_envelope preset account tx = refl

-- A packed envelope of an account of 32 bits and a transaction that is not empty is read back whole:
-- preset, account and transaction bytes.
pub parse_proposal-make_envelope :
    (preset : DerivePreset) (account : ℕ) (tx : Bytes)
    → account < 2 ^ 32
    → tx ≢ []
    → parse_proposal (make_envelope preset account tx)
      ≡ ok (record { preset = preset; account = account; tx = tx })
unfolding parse_proposal
parse_proposal-make_envelope preset account [] h ne = absurd (ne refl)
parse_proposal-make_envelope preset account (b ∷ tx) h ne =
    rw (
      split-make_envelope preset account (b ∷ tx),
      split_v2-make_envelope preset account (b ∷ tx) h,
    )

-- Whatever payload of the second version is accepted, packing what was read gives it back.
pub make_envelope-parse_proposal :
    (payload : Bytes) (body : ProposalBody)
    → AllBytes (envelope_v2 ∷ payload)
    → parse_proposal (envelope_v2 ∷ payload) ≡ ok body
    → make_envelope body.preset body.account body.tx ≡ envelope_v2 ∷ payload
unfolding parse_proposal make_envelope
make_envelope-parse_proposal [] body h e = ground arith
make_envelope-parse_proposal (p ∷ rest) body h e =
    ground (arith, take-append-drop 4 rest, le_bytes-le_value 4 rest h.1.1, preset_byte-preset_of p)

-- The bytes of a payload before the transaction.
pub header : Bytes → Bytes
header [] = []
header (b ∷ rest) =
    if b == envelope_v1
    then take 5 (b ∷ rest)
    else if b == envelope_v2
    then take 6 (b ∷ rest)
    else []

-- Of an accepted payload the bytes to sign are all that stands behind the envelope's header. They
-- are not empty, and the account fits 32 bits.
pub parse_proposal_sound :
    (payload : Bytes) (body : ProposalBody)
    → AllBytes payload
    → parse_proposal payload ≡ ok body
    → (payload ≡ header payload ++ body.tx) × (body.tx ≢ []) × (body.account < 2 ^ 32)
unfolding parse_proposal header
parse_proposal_sound [] body h e = ground arith
parse_proposal_sound (b ∷ rest) body h e = ground (
  arith,
  take-append-drop 5 (b ∷ rest),
  take-append-drop 6 (b ∷ rest),
  le_value-lt 4 (drop 1 (b ∷ rest)) (All-drop IsByte 1 (b ∷ rest) h),
  le_value-lt 4 (drop 2 (b ∷ rest)) (All-drop IsByte 2 (b ∷ rest) h),
)
