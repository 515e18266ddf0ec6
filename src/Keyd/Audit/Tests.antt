-- ===== src/Keyd/Audit/Tests.antt =====
-- A ledger of two processes, under a function in place of SHA-256 that keeps the sizes.
use izan_wallet.Base.{◌≡◌, refl, List, [], ◌∷◌, ◌++◌, length, some, arith, none, replicate}
use izan_wallet.Base.Bytes.{Bytes, text, beq}
use izan_wallet.Keyd.Audit.{
  zero32, has_newline, split_lines, text_mode, verify, verify_lines, check_line, from_hex64,
  hex_fill, nib, pair_byte, append, write_line, load_tail, last_line,
}
use izan_wallet.Keyd.Audit.Ledger.{Digests, zero32-IsDigest}
use izan_wallet.Keyd.Audit.Chain.{session, sessions, verify-sessions}
use izan_wallet.Keyd.Audit.Evidence.{dense, verify-rows}
use izan_wallet.Base.Hex.{to_hex}
use izan_wallet.Keyd.Audit.Lines.{rows}
use izan_wallet.Keyd.Audit.Plain.{is_plain}

toy_sha256 : Bytes → Bytes
toy_sha256 m = zero32

toy_sha256-Digests : Digests toy_sha256
unfolding toy_sha256
toy_sha256-Digests m = zero32-IsDigest

abbrev runs : List (List Bytes)
runs = (text "keyd.start" ∷ text "vault.lock" ∷ []) ∷ (text "keyd.start" ∷ []) ∷ []

verify-sessions_example : verify toy_sha256 (sessions toy_sha256 runs none) ≡ some 3
unfolding has_newline is_plain text
verify-sessions_example =
    verify-sessions toy_sha256 toy_sha256-Digests runs (refl, (refl, (refl, tt)))
      (refl, (refl, (refl, tt)))
      ((λ e. ground arith), ((λ e. ground arith), ((λ e. ground arith), tt)))

-- One record that ends in CR LF, and bytes behind the end that 0x1a marks.
abbrev one_line : Bytes
one_line = replicate 64 b'0' ++ (text " keyd.start" ++ 0x0d ∷ 0x0a ∷ 0x1a ∷ b'x' ∷ 0x0a ∷ [])

verify-rows_example :
    (es : List Bytes) × (dense (split_lines (text_mode one_line) []) ≡ rows toy_sha256 zero32 es)
    × (1 ≡ length es)
unfolding verify verify_lines split_lines text_mode check_line from_hex64 hex_fill nib pair_byte
    text zero32 toy_sha256 beq
verify-rows_example = verify-rows toy_sha256 one_line 1 refl

-- A function in place of SHA-256 that tells texts of different lengths apart.
length_hash : Bytes → Bytes
length_hash m = replicate 32 (length m)

-- An event that ends in CR is accepted, and then does not verify.
cr_event : verify length_hash (sessions length_hash (((b'a' ∷ 0x0d ∷ []) ∷ []) ∷ []) none) ≡ none
unfolding length_hash verify verify_lines split_lines text_mode check_line from_hex64 hex_fill nib
    pair_byte zero32 beq sessions session append has_newline write_line load_tail last_line to_hex
cr_event = refl
