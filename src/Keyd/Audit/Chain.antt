-- ===== src/Keyd/Audit/Chain.antt =====
-- A ledger that `append` wrote verifies, over any number of processes.
use izan_wallet.Base.{
  ℕ, ◌+◌, ◌≤◌, ◌≡◌, ◌≢◌, refl, true, false, List, [], ◌∷◌, ◌++◌, length, drop, get_or, All,
  All-front, All-back, arith, append_assoc, append-nil, ap, ◌∙◌, sym, Option, none, some,
  drop-append_eq, length-append, drop-cons,
}
use izan_wallet.Base.Bytes.{Bytes, beq_refl}
use izan_wallet.Keyd.Audit.{
  split_lines, text_mode, has_newline, chain_step, row, zero32, AuditLog, open_log, contents,
  append, written, check_line, verify_lines, verify, bad_shape,
}
use izan_wallet.Base.Hex.{to_hex}
use izan_wallet.Keyd.Audit.Hex.{length-to_hex}
use izan_wallet.Keyd.Audit.Plain.{is_plain, text_mode-render}
use izan_wallet.Keyd.Audit.Ledger.{
  IsDigest, Digests, zero32-IsDigest, Holds, read_back, append-Holds,
}
use izan_wallet.Keyd.Audit.Lines.{rows, render, split_lines-render, row-ne-nil}

abbrev pub all_events : List (List Bytes) → List Bytes
all_events [] = []
all_events (es ∷ rest) = es ++ all_events rest

module _ (sha256 : Bytes → Bytes) where
  -- A process: it opens the ledger and appends events.
  unfoldable pub session : List Bytes → AuditLog → AuditLog
  session [] a = a
  session (e ∷ es) a = session es (append sha256 written e a).0

  unfoldable pub sessions : List (List Bytes) → Option Bytes → Option Bytes
  sessions [] f = f
  sessions (es ∷ rest) f = sessions rest (session es (open_log f)).file

module _ (sha256 : Bytes → Bytes) (digests : Digests sha256) where
  nonempty : (e : Bytes) → e ≢ [] → 1 ≤ length e
  nonempty [] h = absurd (h refl)
  nonempty (c ∷ e) h = omega arith

  well_shaped :
      (line : Bytes) → 66 ≤ length line → get_or line 64 0 ≡ b' ' → bad_shape sha256 line ≡ false
  well_shaped line h e = ground arith

  check_line-row :
      (chain e : Bytes)
      → IsDigest chain
      → e ≢ []
      → check_line sha256 chain (row sha256 (chain_step sha256 chain e) e)
        ≡ some (chain_step sha256 chain e)
  unfolding check_line
  check_line-row chain e h ne =
      let next = chain_step sha256 chain e in
      let d : IsDigest next = digests (chain ++ e) in
      let line = row sha256 next e in
      let size : length (to_hex next) ≡ 64 = omega (arith, length-to_hex next, d.0) in
      let total = length-append (to_hex next) (b' ' ∷ e) in
      let parts : b' ' ∷ e ≡ get_or line 64 0 ∷ drop 65 line =
        sym (drop-append_eq 64 (to_hex next) (b' ' ∷ e) size)
        ∙ drop-cons 64 line 0 (omega (arith, size, total)) in
      let shape : bad_shape sha256 line ≡ false =
        well_shaped line (omega (arith, total, size, nonempty e ne)) (cc) in
      let rest : drop 65 line ≡ e = cc in
      rw (shape, rest, read_back sha256 digests next (b' ' ∷ e) zero32 d (zero32-IsDigest.0))
        (rw (beq_refl next))

  verify_lines_step :
      (chain line next : Bytes) (ls : List Bytes) (n : ℕ)
      → line ≢ []
      → check_line sha256 chain line ≡ some next
      → verify_lines sha256 (line ∷ ls) chain n ≡ verify_lines sha256 ls next (n + 1)
  unfolding verify_lines
  verify_lines_step chain [] next ls n h e = absurd (h refl)
  verify_lines_step chain (c ∷ line) next ls n h e = rw (e, verify_lines)

  verify_lines-rows :
      (chain : Bytes) (es : List Bytes) (n : ℕ)
      → IsDigest chain
      → All (λ e. e ≢ []) es
      → verify_lines sha256 (rows sha256 chain es) chain n ≡ some (n + length es)
  unfolding verify_lines rows
  verify_lines-rows chain [] n h ne = ap some (omega arith)
  verify_lines-rows chain (e ∷ es) n h ne =
      let next = chain_step sha256 chain e in
      verify_lines_step chain (row sha256 next e) next (rows sha256 next es) n
        (row-ne-nil sha256 next e) (check_line-row chain e h ne.0)
      ∙ verify_lines-rows next es (n + 1) (digests (chain ++ e)) ne.1
      ∙ ap some (omega arith)

  verify-contents :
      (f : Option Bytes)
      → verify sha256 f ≡ verify_lines sha256 (split_lines (text_mode (contents f)) []) zero32 0
  unfolding verify
  verify-contents none = unfold split_lines text_mode verify_lines in refl
  verify-contents (some f) = refl

  -- A ledger that `append` wrote verifies, and the count is that of its events.
  pub verify-Holds :
      (a : AuditLog) (es : List Bytes)
      → Holds sha256 a es
      → All (λ e. e ≢ []) es
      → verify sha256 a.file ≡ some (length es)
  verify-Holds a es h ne =
      rw
        (
          verify-contents a.file,
          h.recorded,
          text_mode-render sha256 zero32 es h.single h.plain,
          split_lines-render sha256 zero32 es h.single,
        )
        (verify_lines-rows zero32 es 0 zero32-IsDigest ne ∙ ap some (omega arith))

  reopen-Holds :
      (a : AuditLog) (es : List Bytes) → Holds sha256 a es → Holds sha256 (open_log a.file) es
  reopen-Holds a es h = record {
    recorded = h.recorded;
    single = h.single;
    plain = h.plain;
    current = λ l. absurd (ground arith);
    fresh = λ _. refl;
  }

  session-Holds :
      (a : AuditLog) (es more : List Bytes)
      → Holds sha256 a es
      → All (λ e. has_newline e ≡ false) more
      → All (λ e. is_plain e ≡ true) more
      → Holds sha256 (session sha256 more a) (es ++ more)
  unfolding session
  session-Holds a es [] h s p = rw append-nil h
  session-Holds a es (e ∷ more) h s p = rw (← append_assoc es (e ∷ []) more) (
      session-Holds (append sha256 written e a).0 (es ++ e ∷ []) more
        (append-Holds sha256 digests a es e h s.0 p.0).1 s.1 p.1)

  sessions-Holds :
      (a : AuditLog) (es : List Bytes) (runs : List (List Bytes))
      → Holds sha256 a es
      → All (λ e. has_newline e ≡ false) (all_events runs)
      → All (λ e. is_plain e ≡ true) (all_events runs)
      → (b : AuditLog) × (b.file ≡ sessions sha256 runs a.file)
        × Holds sha256 b (es ++ all_events runs)
  unfolding sessions
  sessions-Holds a es [] h s p = (a, refl, rw append-nil h)
  sessions-Holds a es (more ∷ runs) h s p = rw (← append_assoc es more (all_events runs)) (
      sessions-Holds (session sha256 more (open_log a.file)) (es ++ more) runs
        (session-Holds (open_log a.file) es more (reopen-Holds a es h)
          (All-front _ more (all_events runs) s) (All-front _ more (all_events runs) p))
        (All-back _ more (all_events runs) s) (All-back _ more (all_events runs) p))

  -- When the ledger can be read, every write reaches the disk and SHA-256 gives 32 bytes: whatever single-line, non-empty
  -- events, without the byte 0x1a and not ending in CR, any number of processes append in turn, each
  -- one opening the ledger anew and reading it in text mode, the ledger verifies and counts every
  -- event.
  pub verify-sessions :
      (runs : List (List Bytes))
      → All (λ e. has_newline e ≡ false) (all_events runs)
      → All (λ e. is_plain e ≡ true) (all_events runs)
      → All (λ e. e ≢ []) (all_events runs)
      → verify sha256 (sessions sha256 runs none) ≡ some (length (all_events runs))
  verify-sessions runs s p ne =
      let start : Holds sha256 (open_log none) [] = record {
        recorded = unfold render in refl;
        single = tt;
        plain = tt;
        current = λ l. absurd (ground arith);
        fresh = λ _. refl;
      } in
      let (b, same, h) = sessions-Holds (open_log none) [] runs start s p in
      rw (← same) (verify-Holds b (all_events runs) h ne)
