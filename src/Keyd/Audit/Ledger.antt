-- ===== src/Keyd/Audit/Ledger.antt =====
-- What a ledger holds that `append` wrote, as the next append finds it.
use izan_wallet.Base.{
  ◌≤◌, ◌≡◌, refl, true, false, List, [], ◌∷◌, ◌++◌, length, take, All, All-append, arith, ap, ◌∙◌,
  ok, take-append_eq, length-append, Bool-cases, inl, inr, le→ltb,
}
use izan_wallet.Base.Bytes.{Bytes, AllBytes}
use izan_wallet.Keyd.Audit.{
  split_lines, text_mode, last_line, has_newline, chain_step, row, zero32, AuditLog, contents,
  load_tail, append, write_line, written, from_hex64,
}
use izan_wallet.Base.Hex.{to_hex}
use izan_wallet.Keyd.Audit.Hex.{from_hex64-to_hex, length-to_hex}
use izan_wallet.Keyd.Audit.Plain.{is_plain, text_mode-render}
use izan_wallet.Keyd.Audit.Lines.{
  Lacks, has_newline-Lacks, chain_after, rows, render, split_lines-render, render-append,
  chain_after-append, last_line-rows, last_line_step, row-ne-nil,
}

-- A digest of SHA-256.
abbrev pub IsDigest : Bytes → Type 0
IsDigest d = (length d ≡ 32) × AllBytes d

abbrev pub Digests : (Bytes → Bytes) → Type 0
Digests sha256 = (message : Bytes) → IsDigest (sha256 message)

pub zero32-IsDigest : IsDigest zero32
unfolding zero32
zero32-IsDigest = omega arith

-- The file holds the lines of the events, and a chain that is loaded is the one behind them.
pub record Holds (sha256 : Bytes → Bytes) (a : AuditLog) (es : List Bytes) : Type 0 where
  pub recorded : contents a.file ≡ render sha256 zero32 es
  pub single : All Lacks es
  pub plain : All (λ e. is_plain e ≡ true) es
  pub current : a.loaded ≡ true → a.chain ≡ chain_after sha256 zero32 es
  pub fresh : a.loaded ≡ false → a.chain ≡ zero32

module _ (sha256 : Bytes → Bytes) (digests : Digests sha256) where
  pub chain_after-IsDigest :
      (chain : Bytes) (es : List Bytes) → IsDigest chain → IsDigest (chain_after sha256 chain es)
  unfolding chain_after
  chain_after-IsDigest chain [] h = h
  chain_after-IsDigest chain (e ∷ es) h =
      chain_after-IsDigest (chain_step sha256 chain e) es (digests (chain ++ e))

  pub read_back :
      (digest after out : Bytes)
      → IsDigest digest
      → length out ≡ 32
      → from_hex64 (take 64 (to_hex digest ++ after)) out ≡ (true, digest)
  read_back digest after out h l =
      rw (take-append_eq 64 (to_hex digest) after (omega (arith, length-to_hex digest, h.0)))
        (from_hex64-to_hex digest out h.1 h.0 l)

  -- A process that opens the ledger takes up the chain where the last one left it.
  load_tail-chain :
      (a : AuditLog) (es : List Bytes)
      → a.loaded ≡ false
      → Holds sha256 a es
      → (load_tail a).chain ≡ chain_after sha256 zero32 es
  unfolding load_tail
  load_tail-chain a [] f h =
      rw (h.recorded) (unfold split_lines text_mode last_line render chain_after in h.fresh f)
  load_tail-chain a (e ∷ es) f h =
      let next = chain_step sha256 zero32 e in
      let (after, last) = last_line-rows sha256 next (row sha256 next e) (b' ' ∷ e) es refl in
      let digest = chain_after sha256 next es in
      let d : IsDigest digest = chain_after-IsDigest next es (digests (zero32 ++ e)) in
      let whole : last_line (split_lines (text_mode (contents a.file)) []) []
          ≡ to_hex digest ++ after =
        ap (λ f. last_line (split_lines (text_mode f) []) []) h.recorded
        ∙ ap (λ f. last_line (split_lines f []) [])
            (text_mode-render sha256 zero32 (e ∷ es) h.single h.plain)
        ∙ ap (λ ls. last_line ls []) (split_lines-render sha256 zero32 (e ∷ es) h.single)
        ∙ unfold rows in
          last_line_step (row sha256 next e) [] (rows sha256 next es) (row-ne-nil sha256 next e)
          ∙ last in
      let size : 64 ≤ length (to_hex digest ++ after) =
        omega (arith, length-append (to_hex digest) after, length-to_hex digest, d.0) in
      let wide : length a.chain ≡ 32 = omega (arith, ap length (h.fresh f), zero32-IsDigest.0) in
      unfold chain_after in
      rw (
        whole,
        le→ltb (length (to_hex digest ++ after)) 64 size,
        read_back digest after a.chain d wide,
      )

  write_line-Holds :
      (a : AuditLog) (es : List Bytes) (e : Bytes)
      → a.loaded ≡ true
      → a.chain ≡ chain_after sha256 zero32 es
      → contents a.file ≡ render sha256 zero32 es
      → All Lacks es
      → All (λ x. is_plain x ≡ true) es
      → Lacks e
      → is_plain e ≡ true
      → let (a', r) = write_line sha256 written e a in (r ≡ ok tt) × Holds sha256 a' (es ++ e ∷ [])
  unfolding write_line
  write_line-Holds a es e loaded chain recorded single plain l p = (
    refl,
    record {
      recorded = simp (chain, recorded, render-append sha256 zero32 es e);
      single = All-append _ es (e ∷ []) single (l, tt);
      plain = All-append _ es (e ∷ []) plain (p, tt);
      current = λ _. simp (chain, chain_after-append sha256 zero32 es e);
      fresh = λ f. absurd (ground arith);
    },
  )

  -- A single-line event that is written stands behind the events of the ledger, whether this process
  -- has appended before or opens the ledger now.
  pub append-Holds :
      (a : AuditLog) (es : List Bytes) (e : Bytes)
      → Holds sha256 a es
      → has_newline e ≡ false
      → is_plain e ≡ true
      → let (a', r) = append sha256 written e a in (r ≡ ok tt) × Holds sha256 a' (es ++ e ∷ [])
  unfolding append
  append-Holds a es e h single p = elim (Bool-cases a.loaded) [
    | inl known ↦
        simp (single, known)
          (write_line-Holds a es e known (h.current known) h.recorded h.single h.plain
            (has_newline-Lacks e single) p)
    | inr new ↦
        simp (single, new)
          (write_line-Holds (load_tail a) es e (unfold load_tail in refl)
            (load_tail-chain a es new h) (unfold load_tail in h.recorded) h.single h.plain
            (has_newline-Lacks e single) p)
  ]
