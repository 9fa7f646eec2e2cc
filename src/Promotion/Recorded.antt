-- ===== src/Promotion/Recorded.antt =====
-- The ledger that `applyWithHooks` of internal/promotion/apply.go leaves, read again by replay.
use agent_memory_system.Prelude.{
  ℕ, suc, Bool, true, false, not, none, some, List, [], ◌∷◌, ◌++◌, ◌≡◌, refl, sym, ap, subst, ◌∙◌,
  arith, inl, inr,
}
use agent_memory_system.Prelude.Tests.{
  nat_eq, string_eq, ◌!=◌, Bool-cases, Option-cases, eq_of_not-ne,
}
use agent_memory_system.Prelude.Lists.{length}
use agent_memory_system.Prelude.Result.{ok, fail_if-then, Result-cases}
use agent_memory_system.Prelude.Text.{trim_bytes}
use agent_memory_system.Ledger.Lines.{
  split_lines, ends_line, newline, has_newline, AllEnd, split_lines-append,
  split_lines_append_complete, ends_line-append, trim_bytes-object,
}
use agent_memory_system.Ledger.Chain.{LedgerFile, absent, unopenable, readable}
use agent_memory_system.Promotion.Types.{Record, Services}
use agent_memory_system.Promotion.Apply.{
  AppendIo, content_of, take_bytes, after_write, write_record, append_record,
}
use agent_memory_system.Promotion.Replay.{
  State, empty_state, record_step, replay_record, decoded, replay_line, read_fault, replay_lines,
  replay,
}

-- What the codec does for a record: its text has an object's braces and no newline, and decodes to it.
abbrev pub IsText : Services → Record → List ℕ → Type 0
IsText sv r text =
    (mid : List ℕ) × (text ≡ (b'{' ∷ mid) ++ b'}' ∷ [])
    × (has_newline text ≡ false)
    × (sv.parse_record text ≡ some r)

take_bytes_all : (bs : List ℕ) → take_bytes (length bs) bs ≡ bs
unfolding take_bytes
take_bytes_all [] = refl
take_bytes_all (b ∷ bs) = ap (λ (l : List ℕ). b ∷ l) (take_bytes_all bs)

module _ (sv : Services) where
  line_ends :
      (s : State) (n : ℕ) (line : List ℕ) (t : State)
      → replay_line sv s n line ≡ ok t
      → ends_line line ≡ true
  unfolding replay_line
  line_ends s n line t h =
      let (whole, rest) = fail_if-then (not (ends_line line)) _ _ h in ground arith

  -- A ledger that replay reads to its end: its lines are complete, and replay goes on behind them.
  replay_lines-append :
      (fault : Bool) (s : State) (n : ℕ) (lines : List (List ℕ)) (s' : State)
      → replay_lines sv fault s n lines ≡ (s', none)
      → AllEnd lines
        × (n' : ℕ) × ((ks : List (List ℕ))
            → replay_lines sv false s n (lines ++ ks) ≡ replay_lines sv false s' n' ks)
  unfolding replay_lines AllEnd
  replay_lines-append fault s n [] s' h =
      (tt, n, λ ks. ap (λ t. replay_lines sv false t n ks) (ap (λ p. p.0) h))
  replay_lines-append fault s n (line ∷ lines) s' h =
      elim (Result-cases (replay_line sv s (suc n) line)) [
        | inr (e, failed) ↦ cc (rw (failed, replay_lines) at h)
        | inl (t, passed) ↦
            let (complete, n', more) =
              replay_lines-append fault t (suc n) lines s' (rw (passed, replay_lines) at h) in
            (
              (line_ends s (suc n) line t passed, complete),
              n',
              λ ks. rw (passed, replay_lines) (more ks),
            )
      ]

  -- The line of a record that replay admits.
  replay_line-text :
      (s : State) (n : ℕ) (r : Record) (text : List ℕ)
      → IsText sv r text
      → replay_record sv s n r ≡ ok (record_step s r)
      → replay_line sv s n (text ++ newline ∷ []) ≡ ok (record_step s r)
  unfolding replay_line decoded
  replay_line-text s n r text (mid, object, clean, parsed) admitted =
      let trimmed =
        subst (λ t. trim_bytes (t ++ newline ∷ []) ≡ t) (sym object) (trim_bytes-object mid) in
      rw (ends_line-append text, trimmed, parsed, admitted) refl

  last_line :
      (s : State) (n : ℕ) (r : Record) (text : List ℕ)
      → IsText sv r text
      → replay_record sv (s) (suc n) r ≡ ok (record_step s r)
      → replay_lines sv false s n ((text ++ newline ∷ []) ∷ split_lines [])
        ≡ (record_step s r, none)
  unfolding replay_lines read_fault split_lines
  last_line s n r text is_text admitted =
      rw (replay_line-text s (suc n) r text is_text admitted, replay_lines) refl

  -- A ledger that replay reads, with the line of a record that follows.
  appended-replay :
      (content : List ℕ) (fault : Bool) (s : State) (r : Record) (text : List ℕ)
      → replay sv (readable content fault) ≡ (s, none)
      → IsText sv r text
      → ((n : ℕ) → replay_record sv s n r ≡ ok (record_step s r))
      → replay sv (readable (content ++ (text ++ newline ∷ [])) false) ≡ (record_step s r, none)
  unfolding replay
  appended-replay content fault s r text h is_text admitted =
      let (complete, n, more) = replay_lines-append fault empty_state 0 (split_lines content) s h in
      let lines = split_lines_append_complete content (text ++ newline ∷ []) complete in
      ap (replay_lines sv false empty_state 0) lines
      ∙ more (split_lines (text ++ newline ∷ []))
      ∙ ap (replay_lines sv false s n) (split_lines-append text [] is_text.2)
      ∙ last_line s n r text is_text (admitted (suc n))

  -- A missing ledger is an empty one.
  pub followed-replay :
      (file : LedgerFile) (s : State) (r : Record) (text : List ℕ)
      → replay sv file ≡ (s, none)
      → IsText sv r text
      → ((n : ℕ) → replay_record sv s n r ≡ ok (record_step s r))
      → replay sv (readable (content_of file ++ (text ++ newline ∷ [])) false)
        ≡ (record_step s r, none)
  unfolding replay content_of replay_lines split_lines read_fault
  followed-replay absent s r text h is_text admitted =
      appended-replay [] false s r text h is_text admitted
  followed-replay unopenable s r text h is_text admitted = cc h
  followed-replay (readable content fault) s r text h is_text admitted =
      appended-replay content fault s r text h is_text admitted

  -- What a successful write leaves.
  pub append_record-ok :
      (io : AppendIo) (file : LedgerFile) (r : Record)
      → (append_record sv io file r).1 ≡ ok tt
      → (text : List ℕ) × (sv.record_json r ≡ some text)
        × ((append_record sv io file r).0
            ≡ readable (content_of file ++ (text ++ newline ∷ [])) false)
  unfolding append_record write_record after_write
  append_record-ok io file r h = elim (Bool-cases io.directory) [
    | inr k ↦ cc (rw (k, append_record) at h)
    | inl k ↦ elim (Bool-cases io.open_) [
      | inr l ↦ cc (rw (k, l, append_record) at h)
      | inl l ↦ elim (Option-cases (sv.record_json r)) [
        | inl m ↦ cc (rw (k, l, m, append_record) at h)
        | inr (text, m) ↦
            let (w, h1) = fail_if-then (not io.write) _ _ (rw (k, l, m, append_record) at h) in
            let (size, h2) = fail_if-then (io.written != length (text ++ newline ∷ [])) _ _ h1 in
            (
              text,
              m,
              rw
                  (
                    k,
                    l,
                    m,
                    eq_of_not-ne io.written (length (text ++ newline ∷ [])) size,
                    take_bytes_all (text ++ newline ∷ []),
                  )
                  refl,
            )
      ]
    ]
  ]
