-- ===== src/Ledger/Verify/Agrees.antt =====
-- `VerifyReader` against `visitRecords` of internal/ledger/ledger.go.
use mathlib.Core.List.{concat-ne-nil}
use agent_memory_system.Prelude.{
  ℕ, suc, ◌+◌, String, Bool, true, false, Option, none, some, List, [], ◌∷◌, ◌≡◌, refl, ◌∙◌, sym,
  ap, subst, ◌↔◌, ◌≢◌, inl, inr,
}
use agent_memory_system.Prelude.Tests.{
  string_eq, ◌!=◌, Bool-cases, Option-cases, eq_of_not-ne, ne_self,
}
use agent_memory_system.Prelude.Result.{Result, ok, err, Result-cases}
use agent_memory_system.Prelude.Text.{trim_bytes}
use agent_memory_system.Ledger.Types.{BlobRef, Record, Codec, blob_of}
use agent_memory_system.Ledger.Validate.{EventError, validate_event}
use agent_memory_system.Ledger.Lines.{split_lines, ends_line}
use agent_memory_system.Ledger.Chain.{
  LedgerFile, absent, unopenable, readable, make_record, check_line, Visitor, finish, visit_lines,
  visit_records,
}
use agent_memory_system.Ledger.Chain.Verified.{
  IsLinked, check_line_sound, check_line_complete, make_record-fields, make_record-eq,
}
use agent_memory_system.Ledger.Verify.{
  Issue, event_invalid, VerificationReport, empty_report, add_issue, add_if, report_event,
  call_verifier, add_found, report_blob, report_record, verify_lines, verify_file,
}

module _ {B : Type 0} where
  -- What a blob test has to say of a record.
  unfoldable pub blob_trouble : Option (BlobRef → Option B) → Option BlobRef → Option (Issue B)
  unfolding call_verifier
  blob_trouble verifier none = none
  blob_trouble verifier (some blob) = call_verifier verifier 0 blob

  -- A visitor that counts the records and stops at the first blob that is not verified.
  unfoldable pub check_blobs : Option (BlobRef → Option B) → Visitor ℕ (Issue B)
  unfolding blob_trouble
  check_blobs verifier r n = elim (blob_trouble verifier (blob_of r.event.payload)) [
    | none ↦ (n + 1, none)
    | some i ↦ (n, some i)
  ]

  add_issue-ne_nil : (r : VerificationReport B) (i : Issue B) → (add_issue r i).issues ≢ []
  add_issue-ne_nil r i = concat-ne-nil i r.issues

  add_if-nil :
      (b : Bool) (i : Issue B) (r : VerificationReport B)
      → (add_if b i r).issues ≡ []
      → (b ≡ false) × (r.issues ≡ [])
  add_if-nil true i r h = absurd (add_issue-ne_nil r i h)
  add_if-nil false i r h = (refl, h)

  report_event-nil :
      (n : ℕ) (v : Result EventError (Unit {0})) (r : VerificationReport B)
      → (report_event n v r).issues ≡ []
      → (v ≡ ok tt) × (r.issues ≡ [])
  unfolding report_event
  report_event-nil n (ok tt) r h = (refl, h)
  report_event-nil n (err e) r h = absurd (add_issue-ne_nil r (event_invalid n e) h)

  report_blob-nil :
      (verifier : Option (BlobRef → Option B)) (n : ℕ) (blob : Option BlobRef)
      (r : VerificationReport B)
      → (report_blob verifier n blob r).issues ≡ []
      → (blob_trouble verifier blob ≡ none) × (r.issues ≡ [])
  unfolding report_blob blob_trouble
  report_blob-nil verifier n none r h = (refl, h)
  report_blob-nil none n (some blob) r h = absurd (concat-ne-nil _ r.issues h)
  report_blob-nil (some verify_blob) n (some blob) r h = elim (Option-cases (verify_blob blob)) [
    | inl e ↦ (rw e, rw e at h)
    | inr (b, e) ↦ absurd (concat-ne-nil _ r.issues (rw e at h))
  ]

  report_blob-clean :
      (verifier : Option (BlobRef → Option B)) (n : ℕ) (blob : Option BlobRef)
      (r : VerificationReport B)
      → blob_trouble verifier blob ≡ none
      → (report_blob verifier n blob r).issues ≡ r.issues
  unfolding report_blob blob_trouble
  report_blob-clean verifier n none r h = refl
  report_blob-clean none n (some blob) r h = cc
  report_blob-clean (some verify_blob) n (some blob) r h = elim (Option-cases (verify_blob blob)) [
    | inl e ↦ rw e
    | inr (b, e) ↦ cc (rw e at h)
  ]

  module _ (c : Codec) (verifier : Option (BlobRef → Option B)) (previous : String) (n : ℕ)
      (r expected : Record) (report : VerificationReport B) where
    report_record-nil :
        make_record c r.event previous ≡ some expected
        → (report_record c verifier previous n r expected report).issues ≡ []
        → IsLinked c previous r
          × (blob_trouble verifier (blob_of r.event.payload) ≡ none)
          × (report.issues ≡ [])
    unfolding report_record
    report_record-nil made h =
        let (found, h1) = report_blob-nil verifier n (blob_of r.event.payload) _ h in
        let (hash, h2) = add_if-nil _ _ _ h1 in
        let (prev, h3) = add_if-nil _ _ _ h2 in
        let (valid, h4) = report_event-nil n (validate_event c.sha256_hex r.event) report h3 in
        (
          (
            valid,
            make_record-eq c previous r expected made (eq_of_not-ne _ _ prev)
                (eq_of_not-ne _ _ hash),
          ),
          found,
          h4,
        )

    report_record-clean :
        make_record c r.event previous ≡ some expected
        → IsLinked c previous r
        → blob_trouble verifier (blob_of r.event.payload) ≡ none
        → report.issues ≡ []
        → (report_record c verifier previous n r expected report).issues ≡ []
    unfolding report_record
    report_record-clean made linked found clean =
        let same : expected ≡ r = cc (made, linked.1) in
        let (e, q) = make_record-fields c r.event previous linked.1 in
        report_blob-clean verifier n (blob_of r.event.payload) _ found
        ∙ rw (linked.0, same, q, ne_self previous, ne_self r.record_hash) clean

  records_checked-add_if :
      (b : Bool) (i : Issue B) (r : VerificationReport B)
      → (add_if b i r).records_checked ≡ r.records_checked
  records_checked-add_if true i r = refl
  records_checked-add_if false i r = refl

  records_checked-report_event :
      (n : ℕ) (v : Result EventError (Unit {0})) (r : VerificationReport B)
      → (report_event n v r).records_checked ≡ r.records_checked
  unfolding report_event
  records_checked-report_event n (ok tt) r = refl
  records_checked-report_event n (err e) r = refl

  records_checked-report_blob :
      (verifier : Option (BlobRef → Option B)) (n : ℕ) (blob : Option BlobRef)
      (r : VerificationReport B)
      → (report_blob verifier n blob r).records_checked ≡ r.records_checked
  unfolding report_blob
  records_checked-report_blob verifier n none r = refl
  records_checked-report_blob verifier n (some blob) r =
      elim (Option-cases (call_verifier verifier n blob)) [
        | inl e ↦ rw (e, add_found)
        | inr (i, e) ↦ rw (e, add_found)
      ]

  module _ (c : Codec) (verifier : Option (BlobRef → Option B)) (previous : String) (n : ℕ) where
    records_checked-report_record :
        (r expected : Record) (report : VerificationReport B)
        → (report_record c verifier previous n r expected report).records_checked
          ≡ report.records_checked + 1
    unfolding report_record
    records_checked-report_record r expected report =
        ap (λ (k : ℕ). k + 1)
          (records_checked-report_blob verifier n (blob_of r.event.payload) _
            ∙ records_checked-add_if (r.record_hash != expected.record_hash) _ _
            ∙ records_checked-add_if (r.previous_record_hash != previous) _ _
            ∙ records_checked-report_event n (validate_event c.sha256_hex r.event) report)

    last_record_hash-report_record :
        (r expected : Record) (report : VerificationReport B)
        → (report_record c verifier previous n r expected report).last_record_hash ≡ r.record_hash
    unfolding report_record
    last_record_hash-report_record r expected report = refl

  module _ (c : Codec) (verifier : Option (BlobRef → Option B)) (fault : Bool) where
    -- A line without an issue leads on to the next one.
    verify_lines-cons :
        (previous : String) (n : ℕ) (line : List ℕ) (lines : List (List ℕ))
        (report : VerificationReport B)
        → (verify_lines c verifier fault previous n (line ∷ lines) report).issues ≡ []
        → (r : Record) × (expected : Record) × (ends_line line ≡ true)
          × (c.parse_record (trim_bytes line) ≡ some r)
          × (make_record c r.event previous ≡ some expected)
          × (verify_lines c verifier fault previous n (line ∷ lines) report
              ≡ verify_lines c verifier fault r.record_hash
                  (suc n)
                  lines
                  (report_record c verifier previous (suc n) r expected report))
    unfolding verify_lines
    verify_lines-cons previous n line lines report h = elim (Bool-cases (ends_line line)) [
      | inr e ↦ absurd (add_issue-ne_nil report _ (rw (e, verify_lines) at h))
      | inl e ↦ elim (Option-cases (c.parse_record (trim_bytes line))) [
        | inl p ↦ absurd (add_issue-ne_nil report _ (rw (e, p, verify_lines) at h))
        | inr (r, p) ↦ elim (Option-cases (make_record c r.event previous)) [
          | inl m ↦ absurd (concat-ne-nil _ _ (rw (e, p, m, verify_lines) at h))
          | inr (x, m) ↦ (r, x, e, p, m, rw (e, p, m, verify_lines))
        ]
      ]
    ]

    -- The loop only adds issues.
    verify_lines-nil :
        (previous : String) (n : ℕ) (lines : List (List ℕ)) (report : VerificationReport B)
        → (verify_lines c verifier fault previous n lines report).issues ≡ []
        → report.issues ≡ []
    unfolding verify_lines
    verify_lines-nil previous n [] report h = (add_if-nil fault _ report h).1
    verify_lines-nil previous n (line ∷ lines) report h =
        let (r, x, e, p, m, same) = verify_lines-cons previous n line lines report h in
        (report_record-nil c verifier previous (suc n) r x report m
          (verify_lines-nil r.record_hash (suc n) lines _ (rw same at h))).2

    check_blobs-none :
        (r : Record) (k : ℕ)
        → blob_trouble verifier (blob_of r.event.payload) ≡ none
        → check_blobs verifier r k ≡ (k + 1, none)
    unfolding check_blobs
    check_blobs-none r k h = rw (h, check_blobs)

    check_blobs-some :
        (r : Record) (k : ℕ) (i : Issue B)
        → blob_trouble verifier (blob_of r.event.payload) ≡ some i
        → check_blobs verifier r k ≡ (k, some i)
    unfolding check_blobs
    check_blobs-some r k i h = rw (h, check_blobs)

    verify_lines_sound :
        (previous : String) (n : ℕ) (lines : List (List ℕ)) (report : VerificationReport B)
        → report.last_record_hash ≡ previous
        → (verify_lines c verifier fault previous n lines report).issues ≡ []
        → visit_lines c (check_blobs verifier) fault report.records_checked previous n lines ≡ (
          (verify_lines c verifier fault previous n lines report).records_checked,
          ok (verify_lines c verifier fault previous n lines report).last_record_hash,
        )
    unfolding verify_lines visit_lines
    verify_lines_sound previous n [] report e h =
        let (ended, clean) = add_if-nil fault _ report h in rw (ended, e)
    verify_lines_sound previous n (line ∷ lines) report e h =
        let (r, x, ends, p, m, same) = verify_lines-cons previous n line lines report h in
        let clean = verify_lines-nil r.record_hash (suc n) lines _ (rw same at h) in
        let (linked, found, _) = report_record-nil c verifier previous (suc n) r x report m clean in
        rw (same) (
          rw
            (
              check_line_complete {E = Issue B} c previous (suc n) line r ends p linked,
              check_blobs-none r report.records_checked found,
              visit_lines,
            )
            (subst
              (λ (k : ℕ).
                visit_lines c (check_blobs verifier) fault k r.record_hash (suc n) lines ≡ (
                  (verify_lines c verifier fault r.record_hash (suc n) lines
                      (next r x)).records_checked,
                  ok
                      (verify_lines c verifier fault r.record_hash (suc n) lines
                        (next r x)).last_record_hash,
                ))
              (records_checked-report_record c verifier previous (suc n) r x report
                ∙ sym (
                    ap (λ (q : ℕ × Option (Issue B)). q.0)
                      (check_blobs-none r report.records_checked found)))
              (verify_lines_sound r.record_hash (suc n) lines (next r x)
                (last_record_hash-report_record c verifier previous (suc n) r x report)
                (rw same at h))))
      where
        next : Record → Record → VerificationReport B
        next r x = report_record c verifier previous (suc n) r x report

    verify_lines_complete :
        (s : ℕ) (previous : String) (n : ℕ) (lines : List (List ℕ)) (report : VerificationReport B)
        {s' : ℕ} {last : String}
        → visit_lines c (check_blobs verifier) fault s previous n lines ≡ (s', ok last)
        → report.issues ≡ []
        → (verify_lines c verifier fault previous n lines report).issues ≡ []
    unfolding verify_lines visit_lines
    verify_lines_complete s previous n [] report h clean = elim (Bool-cases fault) [
      | inl e ↦ cc (rw (e, finish) at h)
      | inr e ↦ rw e clean
    ]
    verify_lines_complete s previous n (line ∷ lines) report h clean =
        elim (Result-cases (check_line {E = Issue B} c previous (suc n) line)) [
          | inr (e, p) ↦ cc (rw (p, visit_lines) at h)
          | inl (r, p) ↦
              let (ends, parsed, linked) = check_line_sound c previous (suc n) line p in
              elim (Option-cases (blob_trouble verifier (blob_of r.event.payload))) [
                | inr (i, q) ↦ cc (rw (p, check_blobs-some r s i q, visit_lines) at h)
                | inl q ↦
                    rw (ends, parsed, linked.1, verify_lines)
                      (verify_lines_complete (check_blobs verifier r s).0 r.record_hash (suc n)
                        lines _ (rw (p, check_blobs-none r s q, visit_lines) at h)
                        (report_record-clean c verifier previous (suc n) r r report linked.1 linked
                          q clean))
              ]
        ]

  -- The report of `Verify` lists no issue exactly if a visit of the file succeeds that tests each
  -- record's blob and stops at the first one that is not verified; the report then holds the number
  -- of records that the visit counts and the hash that it returns.
  pub verify_file-visit_records :
      (c : Codec) (verifier : Option (BlobRef → Option B)) (file : LedgerFile)
      → ((verify_file c verifier file).issues ≡ []) ↔ (
          visit_records c (check_blobs verifier) file 0 ≡ (
            (verify_file c verifier file).records_checked,
            ok (verify_file c verifier file).last_record_hash,
          ))
  unfolding verify_file visit_records
  verify_file-visit_records c verifier absent = (λ h. refl, λ h. refl)
  verify_file-visit_records c verifier unopenable = (λ h. cc h, λ h. cc h)
  verify_file-visit_records c verifier (readable content fault) = (
    verify_lines_sound c verifier fault "" 0 (split_lines content) empty_report refl,
    λ h. verify_lines_complete c verifier fault 0 "" 0 (split_lines content) empty_report h refl,
  )
