-- ===== src/Keyd/Audit/Plain.antt =====
-- Ledgers that a stream in text mode reads as they were written.
use izan_wallet.Base.{
  ◌≡◌, ◌∙◌, ap, refl, true, not, Bool, ◌&&◌, ◌==◌, List, [], ◌∷◌, ◌++◌, All, arith,
}
use izan_wallet.Base.Bytes.{Bytes}
use izan_wallet.Base.Hex.{to_hex}
use izan_wallet.Keyd.Signer.{is_empty}
use izan_wallet.Keyd.Audit.{text_mode, chain_step, row}
use izan_wallet.Keyd.Audit.Lines.{Lacks, render, row-Lacks}

-- An event without the byte 0x1a that does not end in CR.
unfoldable pub is_plain : Bytes → Bool
is_plain [] = true
is_plain (c ∷ cs) =
    let rest = is_plain cs in not (c == 0x1a) && (not ((c == 0x0d) && is_empty cs) && rest)

text_mode-line :
    (line rest : Bytes)
    → Lacks line
    → is_plain line ≡ true
    → text_mode (line ++ b'\n' ∷ rest) ≡ line ++ b'\n' ∷ text_mode rest
unfolding text_mode is_plain
text_mode-line [] rest l p = refl
text_mode-line (c ∷ []) rest l p = ground arith
text_mode-line (c ∷ d ∷ line) rest l p = ground (arith, text_mode-line (d ∷ line) rest l.1)

is_plain-to_hex : (bs e : Bytes) → is_plain (to_hex bs ++ b' ' ∷ e) ≡ is_plain e
unfolding is_plain to_hex
is_plain-to_hex [] e = refl
is_plain-to_hex (b ∷ bs) e = ground (arith, is_plain-to_hex bs e)

module _ (sha256 : Bytes → Bytes) where
  -- A ledger of such events is read as it was written.
  pub text_mode-render :
      (chain : Bytes) (es : List Bytes)
      → All Lacks es
      → All (λ e. is_plain e ≡ true) es
      → text_mode (render sha256 chain es) ≡ render sha256 chain es
  unfolding render
  text_mode-render chain [] l p = unfold text_mode in refl
  text_mode-render chain (e ∷ es) l p =
      let next = chain_step sha256 chain e in
      rw
        (text_mode-line (row sha256 next e) (render sha256 next es) (row-Lacks sha256 next e l.0)
          (is_plain-to_hex next e ∙ p.0))
        (ap (λ r. row sha256 next e ++ b'\n' ∷ r) (text_mode-render next es l.1 p.1))
