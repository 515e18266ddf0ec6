-- ===== src/Keyd/Envelope.antt =====
-- keyd/signer.cpp: parse_proposal and make_envelope, the identity that a queued payload names.
pub mod RoundTrip
mod Tests
use izan_wallet.Base.{
  ℕ, Bool, true, false, [], ◌∷◌, ◌++◌, ◌==◌, ltb, leb, if◌then◌else◌, length, drop, get_or, Result,
  ok, err, ◌>>=◌, ◌>>◌, throw_if,
}
use izan_wallet.Base.Bytes.{Bytes, text, le_bytes, le_value}
use izan_wallet.Keyd.Presets.{DerivePreset, derive_preset_count, preset_byte, preset_of}

abbrev pub envelope_v1 : ℕ
envelope_v1 = 0x01

abbrev pub envelope_v2 : ℕ
envelope_v2 = 0x03

pub record ProposalBody : Type 0 where
  pub preset : DerivePreset
  pub account : ℕ
  pub tx : Bytes

abbrev pub is_empty : Bytes → Bool
is_empty [] = true
is_empty (b ∷ bs) = false

-- The three branches of `parse_proposal` before its last test.
pub split_v1 : Bytes → Result ProposalBody
split_v1 payload =
    if ltb (length payload) 5
    then err (text "signer: truncated envelope")
    else ok (record {
      preset = DerivePreset.meta_mask;
      account = le_value 4 (drop 1 payload);
      tx = drop 5 payload;
    })

pub split_v2 : Bytes → Result ProposalBody
split_v2 payload =
    if ltb (length payload) 6
    then err (text "signer: truncated envelope")
    else if leb derive_preset_count (get_or payload 1 0)
    then err (text "signer: unknown derive preset")
    else ok (record {
      preset = preset_of (get_or payload 1 0);
      account = le_value 4 (drop 2 payload);
      tx = drop 6 payload;
    })

pub bare : Bytes → Result ProposalBody
bare payload = ok (record { preset = DerivePreset.meta_mask; account = 0; tx = payload })

pub split : Bytes → Result ProposalBody
unfolding split_v1 split_v2 bare
split [] = bare []
split (b ∷ bs) =
    if b == envelope_v1
    then split_v1 (b ∷ bs)
    else if b == envelope_v2
    then split_v2 (b ∷ bs)
    else bare (b ∷ bs)

unfoldable pub parse_proposal : Bytes → Result ProposalBody
unfolding split
parse_proposal payload = do
  body ← split payload
  throw_if (is_empty body.tx) (text "signer: empty payload")
  ok body

unfoldable pub make_envelope : DerivePreset → ℕ → Bytes → Bytes
make_envelope preset account tx = envelope_v2 ∷ preset_byte preset ∷ (le_bytes 4 account ++ tx)
