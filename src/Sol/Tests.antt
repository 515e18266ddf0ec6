-- ===== src/Sol/Tests.antt =====
-- Runs of the filter on the names of tokens, and of the reader of metadata.
use izan_wallet.Base.{◌≡◌, refl, [], ◌∷◌}
use izan_wallet.Base.Bytes.{Bytes}
use izan_wallet.Sol.Text.{
  sanitize_token_text, walk, trim_walk, char_len, keep_char, code_point, bad_point, lead_bits,
  trim_start, trim_end,
}
use izan_wallet.Sol.Text.Points.{CleanText}
use izan_wallet.Sol.Text.Trim.{sanitize_token_text-CleanText}

-- " a", an override to right-to-left writing, "b ".
abbrev spoofed : Bytes
spoofed = 32 ∷ 97 ∷ 0xe2 ∷ 0x80 ∷ 0xae ∷ 98 ∷ 32 ∷ []

spoofed-sanitize_token_text : sanitize_token_text spoofed 24 ≡ 97 ∷ 98 ∷ []
unfolding sanitize_token_text trim_walk walk char_len keep_char code_point bad_point lead_bits
    trim_start trim_end
spoofed-sanitize_token_text = refl

sanitize_token_text-CleanText_example : CleanText 24 (sanitize_token_text spoofed 24)
sanitize_token_text-CleanText_example = sanitize_token_text-CleanText spoofed 24
