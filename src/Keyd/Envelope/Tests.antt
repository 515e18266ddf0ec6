-- ===== src/Keyd/Envelope/Tests.antt =====
-- The envelope of one transaction.
use izan_wallet.Base.{◌≡◌, ◌≢◌, ◌<◌, ◌^◌, ◌++◌, refl, [], ◌∷◌, ok, arith}
use izan_wallet.Base.Bytes.{Bytes, le_value}
use izan_wallet.Keyd.Presets.{DerivePreset, preset_of}
use izan_wallet.Keyd.Envelope.{
  ProposalBody, split, split_v2, parse_proposal, make_envelope, envelope_v2,
}
use izan_wallet.Keyd.Envelope.RoundTrip.{header, parse_proposal-make_envelope, parse_proposal_sound}

abbrev some_tx : Bytes
some_tx = 2 ∷ 0xf8 ∷ 0x6b ∷ []

abbrev some_rest : Bytes
some_rest = 0 ∷ 3 ∷ 1 ∷ 0 ∷ 0 ∷ some_tx

abbrev some_body : ProposalBody
some_body = record { preset = DerivePreset.meta_mask; account = 259; tx = some_tx }

parse_proposal-make_envelope_example :
    parse_proposal (make_envelope DerivePreset.meta_mask 259 some_tx) ≡ ok some_body
parse_proposal-make_envelope_example =
    parse_proposal-make_envelope DerivePreset.meta_mask 259 some_tx (omega arith)
      (λ e. ground arith)

parse_proposal_sound_example :
    (envelope_v2 ∷ some_rest ≡ header (envelope_v2 ∷ some_rest) ++ some_tx)
    × (some_tx ≢ [])
    × (259 < 2 ^ 32)
unfolding parse_proposal split split_v2 preset_of le_value
parse_proposal_sound_example =
    parse_proposal_sound (envelope_v2 ∷ some_rest) some_body (omega arith) refl
