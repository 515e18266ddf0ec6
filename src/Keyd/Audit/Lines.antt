-- ===== src/Keyd/Audit/Lines.antt =====
-- The lines of a ledger, written by `append` and cut again by getline.
use mathlib.Core.List.{append-ne-nil_of_right_ne-nil, cons-ne-nil}
use izan_wallet.Base.{
  ◌≡◌, ◌≢◌, refl, false, List, [], ◌∷◌, ◌++◌, All, All-append, arith, append_assoc, append-nil, ap,
  ◌∙◌,
}
use izan_wallet.Base.Bytes.{Bytes}
use izan_wallet.Keyd.Audit.{split_lines, last_line, has_newline, chain_step, row}
use izan_wallet.Base.Hex.{to_hex}
use izan_wallet.Keyd.Audit.Hex.{to_hex-Lacks}

abbrev pub Lacks : Bytes → Type 0
Lacks = All (λ c. c ≢ b'\n')

pub has_newline-Lacks : (e : Bytes) → has_newline e ≡ false → Lacks e
unfolding has_newline
has_newline-Lacks [] h = tt
has_newline-Lacks (c ∷ cs) h = (ground arith, has_newline-Lacks cs (ground arith))

pub Lacks-has_newline : (e : Bytes) → Lacks e → has_newline e ≡ false
unfolding has_newline
Lacks-has_newline [] h = refl
Lacks-has_newline (c ∷ cs) h = ground (arith, Lacks-has_newline cs h.1)

split_lines-append :
    (line rest cur : Bytes)
    → Lacks line
    → split_lines (line ++ b'\n' ∷ rest) cur ≡ (cur ++ line) ∷ split_lines rest []
unfolding split_lines
split_lines-append [] rest cur h = ground (arith, append-nil cur)
split_lines-append (c ∷ line) rest cur h =
    ground (arith, split_lines-append line rest (cur ++ c ∷ []) h.1, append_assoc cur (c ∷ []) line)

pub last_line_step :
    (line last : Bytes) (ls : List Bytes)
    → line ≢ []
    → last_line (line ∷ ls) last ≡ last_line ls line
unfolding last_line
last_line_step [] last ls h = absurd (h refl)
last_line_step (c ∷ line) last ls h = refl

module _ (sha256 : Bytes → Bytes) where
  -- The chain behind a row of events.
  unfoldable pub chain_after : Bytes → List Bytes → Bytes
  chain_after chain [] = chain
  chain_after chain (e ∷ es) = chain_after (chain_step sha256 chain e) es

  -- The lines that record the events, and the file that holds them.
  unfoldable pub rows : Bytes → List Bytes → List Bytes
  rows chain [] = []
  rows chain (e ∷ es) = let next = chain_step sha256 chain e in row sha256 next e ∷ rows next es

  unfoldable pub render : Bytes → List Bytes → Bytes
  render chain [] = []
  render chain (e ∷ es) =
      let next = chain_step sha256 chain e in row sha256 next e ++ (b'\n' ∷ render next es)

  pub row-Lacks : (next e : Bytes) → Lacks e → Lacks (row sha256 next e)
  row-Lacks next e h = All-append _ (to_hex next) (b' ' ∷ e) (to_hex-Lacks next) (omega arith, h)

  pub split_lines-render :
      (chain : Bytes) (es : List Bytes)
      → All Lacks es
      → split_lines (render chain es) [] ≡ rows chain es
  unfolding render rows
  split_lines-render chain [] h = unfold split_lines in refl
  split_lines-render chain (e ∷ es) h =
      let next = chain_step sha256 chain e in
      split_lines-append (row sha256 next e) (render next es) [] (row-Lacks next e h.0)
      ∙ ap (◌∷◌ (row sha256 next e)) (split_lines-render next es h.1)

  pub render-append :
      (chain : Bytes) (es : List Bytes) (e : Bytes)
      → render chain (es ++ e ∷ [])
        ≡ render chain es
          ++ (row sha256 (chain_step sha256 (chain_after chain es) e) e ++ b'\n' ∷ [])
  unfolding render chain_after
  render-append chain [] e = refl
  render-append chain (x ∷ es) e =
      let next = chain_step sha256 chain x in simp (render-append next es e, append_assoc)

  pub chain_after-append :
      (chain : Bytes) (es : List Bytes) (e : Bytes)
      → chain_after chain (es ++ e ∷ []) ≡ chain_step sha256 (chain_after chain es) e
  unfolding chain_after
  chain_after-append chain [] e = refl
  chain_after-append chain (x ∷ es) e = chain_after-append (chain_step sha256 chain x) es e

  pub row-ne-nil : (next e : Bytes) → row sha256 next e ≢ []
  row-ne-nil next e = append-ne-nil_of_right_ne-nil (to_hex next) (cons-ne-nil (b' ') e)

  -- If the last line so far carries the chain, then so does the last line after more events.
  pub last_line-rows :
      (chain last before : Bytes) (es : List Bytes)
      → last ≡ to_hex chain ++ before
      → (after : Bytes) × (last_line (rows chain es) last ≡ to_hex (chain_after chain es) ++ after)
  unfolding rows chain_after last_line
  last_line-rows chain last before [] h = (before, h)
  last_line-rows chain last before (e ∷ es) h =
      let next = chain_step sha256 chain e in
      let (after, ih) = last_line-rows next (row sha256 next e) (b' ' ∷ e) es refl in
      (after, last_line_step (row sha256 next e) last (rows next es) (row-ne-nil next e) ∙ ih)
