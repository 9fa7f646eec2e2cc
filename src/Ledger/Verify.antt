-- ===== src/Ledger/Verify.antt =====
-- `VerifyReader` and `Verify` of internal/ledger/ledger.go: the report of all that is wrong.
pub mod Agrees
use agent_memory_system.Prelude.{
  ℕ, suc, ◌+◌, String, Bool, true, false, not, Option, none, some, List, [], ◌∷◌, ◌++◌,
}
use agent_memory_system.Prelude.Tests.{string_eq, ◌!=◌, if◌then◌else◌}
use agent_memory_system.Prelude.Result.{Result, ok, err}
use agent_memory_system.Prelude.Text.{trim_bytes}
use agent_memory_system.Ledger.Types.{BlobRef, Event, Record, Codec, blob_of}
use agent_memory_system.Ledger.Validate.{EventError, validate_event}
use agent_memory_system.Ledger.Lines.{split_lines, ends_line}
use agent_memory_system.Ledger.Chain.{LedgerFile, absent, unopenable, readable, make_record}

-- The entries of `Issues`; a blob issue is what the callback returns.
pub data Issue (B : Type 0) : Type 0 where
  reader_required cannot_open read_failed : Issue B
  incomplete_final cannot_decode cannot_hash previous_mismatch hash_mismatch : ℕ → Issue B
  no_blob_verifier : ℕ → Issue B
  event_invalid : ℕ → EventError → Issue B
  blob_issue : ℕ → B → Issue B

pub record VerificationReport (B : Type 0) : Type 0 where
  pub records_checked : ℕ
  pub blobs_checked : ℕ
  pub last_record_hash : String
  pub issues : List (Issue B)

abbrev pub empty_report : {B : Type 0} → VerificationReport B
empty_report = record { records_checked = 0; blobs_checked = 0; last_record_hash = ""; issues = [] }

module _ {B : Type 0} where
  abbrev add_issue : VerificationReport B → Issue B → VerificationReport B
  add_issue r i = record r { issues = r.issues ++ i ∷ [] }

  abbrev add_if : Bool → Issue B → VerificationReport B → VerificationReport B
  add_if true i r = add_issue r i
  add_if false i r = r

  report_event : ℕ → Result EventError (Unit {0}) → VerificationReport B → VerificationReport B
  report_event n (ok tt) r = r
  report_event n (err e) r = add_issue r (event_invalid n e)

  -- `nil` in place of the callback is `none`.
  call_verifier : Option (BlobRef → Option B) → ℕ → BlobRef → Option (Issue B)
  call_verifier none n blob = some (no_blob_verifier n)
  call_verifier (some verify_blob) n blob = elim (verify_blob blob) [
    | none ↦ none
    | some b ↦ some (blob_issue n b)
  ]

  add_found : Option (Issue B) → VerificationReport B → VerificationReport B
  add_found none r = r
  add_found (some i) r = add_issue r i

  report_blob :
      Option (BlobRef → Option B) → ℕ → Option BlobRef → VerificationReport B → VerificationReport B
  unfolding call_verifier add_found
  report_blob verifier n none r = r
  report_blob verifier n (some blob) r =
      add_found (call_verifier verifier n blob) (record r { blobs_checked = r.blobs_checked + 1 })

  -- What the loop does with a record that could be decoded and hashed, up to its end.
  report_record :
      Codec
      → Option (BlobRef → Option B)
      → String
      → ℕ
      → Record
      → Record
      → VerificationReport B
      → VerificationReport B
  unfolding report_event report_blob
  report_record c verifier previous n r expected report =
      let report = report_event n (validate_event c.sha256_hex r.event) report in
      let report = add_if (r.previous_record_hash != previous) (previous_mismatch n) report in
      let report = add_if (r.record_hash != expected.record_hash) (hash_mismatch n) report in
      let report = report_blob verifier n (blob_of r.event.payload) report in
      record report {
        records_checked = report.records_checked + 1;
        last_record_hash = r.record_hash;
      }

  unhashed : Codec → ℕ → Record → VerificationReport B → VerificationReport B
  unfolding report_event
  unhashed c n r report =
      add_issue (report_event n (validate_event c.sha256_hex r.event) report) (cannot_hash n)

  -- The loop of `VerifyReader`; a `break` returns the report.
  unfoldable pub verify_lines :
      Codec
      → Option (BlobRef → Option B)
      → Bool
      → String
      → ℕ
      → List (List ℕ)
      → VerificationReport B
      → VerificationReport B
  unfolding report_record unhashed
  verify_lines c verifier fault previous n [] report = add_if fault read_failed report
  verify_lines c verifier fault previous n (line ∷ lines) report = elim (ends_line line) [
    | false ↦ add_issue report (incomplete_final (suc n))
    | true ↦ elim (c.parse_record (trim_bytes line)) [
      | none ↦ add_issue report (cannot_decode (suc n))
      | some r ↦ elim (make_record c r.event previous) [
        | none ↦ unhashed c (suc n) r report
        | some expected ↦
            verify_lines c verifier fault r.record_hash (suc n) lines
              (report_record c verifier previous (suc n) r expected report)
      ]
    ]
  ]

  -- `Verify`, with `VerifyReader` on the opened file.
  unfoldable pub verify_file :
      Codec → Option (BlobRef → Option B) → LedgerFile → VerificationReport B
  unfolding verify_lines
  verify_file c verifier absent = empty_report
  verify_file c verifier unopenable = add_issue empty_report cannot_open
  verify_file c verifier (readable content fault) =
      verify_lines c verifier fault "" 0 (split_lines content) empty_report
