-- ===== src/Secretscan/Redact.antt =====
-- `ApplyRedactions` of internal/secretscan/scan.go.
use agent_memory_system.Prelude.{
  ℕ, suc, String, Bool, true, false, not, ◌&&◌, ◌||◌, List, [], ◌∷◌, ◌++◌, Option, none, some,
}
use agent_memory_system.Prelude.Tests.{string_eq, nat_eq, ◌==◌, ◌!=◌, if◌then◌else◌}
use agent_memory_system.Prelude.Int.{ℤ, pos, int_eq, int_leb, int_ltb, to_nat}
use agent_memory_system.Prelude.Lists.{length, take, drop}
use agent_memory_system.Prelude.Text.{bytes, valid_utf8}
use agent_memory_system.Prelude.Result.{Result, ok, err, ◌>>◌, fail_if}
use agent_memory_system.Secretscan.{
  schema_version, scanner_version, Finding, Report, Redaction, Detectors, slice, valid_replacement,
  scan,
}

-- One constructor for each error, with the index of the redaction.
pub data RedactError : Type 0 where
  not_utf8 report_mismatch : RedactError
  bad_range unaligned unsupported_replacement hash_mismatch : ℕ → RedactError
  partial_cover not_exact_union spans_clean_content : ℕ → RedactError
  not_covered : String → RedactError
  still_sensitive : ℕ → RedactError

abbrev pub Check : Type 0
Check = Result RedactError (Unit {0})

unfoldable pub finding_eq : Finding → Finding → Bool
finding_eq f g =
    f.finding_id == g.finding_id
    && f.detector == g.detector
    && f.category == g.category
    && f.start_byte == g.start_byte
    && f.end_byte == g.end_byte
    && f.match_sha256 == g.match_sha256

-- `equalFindings`.
unfoldable pub equal_findings : List Finding → List Finding → Bool
unfolding finding_eq
equal_findings [] [] = true
equal_findings (f ∷ fs) (g ∷ gs) = finding_eq f g && equal_findings fs gs
equal_findings _ _ = false

-- The redaction reaches from the finding's start or before to its end or behind.
abbrev pub covers : Redaction → Finding → Bool
covers r f = int_leb r.start_byte f.start_byte && int_leb f.end_byte r.end_byte

abbrev pub overlaps : Redaction → Finding → Bool
overlaps r f = int_ltb r.start_byte f.end_byte && int_ltb f.start_byte r.end_byte

-- The loop that collects `covered`; `none` is the error of a partial cover.
unfoldable pub collect_covered : Redaction → List Finding → Option (List Finding)
collect_covered r [] = some []
collect_covered r (f ∷ fs) =
    let rest = collect_covered r fs in
    if overlaps r f && (int_ltb f.start_byte r.start_byte || int_ltb r.end_byte f.end_byte)
    then none
    else if covers r f
    then elim rest [ none ↦ none | some gs ↦ some (f ∷ gs) ]
    else rest

-- The loop over `covered[1:]`; `none` is the error of a gap.
unfoldable pub covered_end : ℤ → List Finding → Option ℤ
covered_end reached [] = some reached
covered_end reached (f ∷ fs) =
    if int_ltb reached f.start_byte
    then none
    else covered_end (if int_ltb reached f.end_byte then f.end_byte else reached) fs

unfoldable pub check_end : ℕ → Redaction → Option ℤ → Check
check_end n r none = err (spans_clean_content n)
check_end n r (some reached) = fail_if (reached != r.end_byte) (not_exact_union n)

unfoldable pub check_union : ℕ → Redaction → Option (List Finding) → Check
unfolding check_end covered_end
check_union n r none = err (partial_cover n)
check_union n r (some []) = err (not_exact_union n)
check_union n r (some (f ∷ fs)) = do
  fail_if (f.start_byte != r.start_byte) (not_exact_union n)
  check_end n r (covered_end f.end_byte fs)

-- The second loop over the redactions.
unfoldable pub check_unions : List Finding → ℕ → List Redaction → Check
unfolding check_union
check_unions findings n [] = ok tt
check_unions findings n (r ∷ rs) = do
  check_union n r (collect_covered r findings)
  check_unions findings (suc n) rs

unfoldable pub any_covers : List Redaction → Finding → Bool
any_covers [] f = false
any_covers (r ∷ rs) f = covers r f || any_covers rs f

-- The loop over the findings.
unfoldable pub check_covered : List Redaction → List Finding → Check
unfolding any_covers
check_covered redactions [] = ok tt
check_covered redactions (f ∷ fs) = do
  fail_if (not (any_covers redactions f)) (not_covered f.finding_id)
  check_covered redactions fs

-- What the builder writes from `start` on.
unfoldable pub build : List ℕ → ℤ → List Redaction → List ℕ
unfolding slice
build content start [] = drop (to_nat start) content
build content start (r ∷ rs) =
    slice content (to_nat start) (to_nat r.start_byte)
    ++ bytes r.replacement
    ++ build content r.end_byte rs

-- The range overlaps the one before, is empty or leaves the content.
abbrev pub bad_bounds : List ℕ → ℤ → Redaction → Bool
bad_bounds content previous_end r =
    int_ltb r.start_byte previous_end
    || int_ltb r.start_byte (pos 0)
    || int_leb r.end_byte r.start_byte
    || int_ltb (pos (length content)) r.end_byte

module _ (d : Detectors) where
  unfoldable pub check_range : List ℕ → ℤ → ℕ → Redaction → Check
  check_range content previous_end n r = do
    fail_if (bad_bounds content previous_end r) (bad_range n)
    fail_if
        (not (valid_utf8 (take (to_nat r.start_byte) content))
          || not (valid_utf8 (take (to_nat r.end_byte) content)))
        (unaligned n)
    fail_if (not (valid_replacement (bytes r.replacement))) (unsupported_replacement n)
    fail_if
        (r.source_sha256 != d.sha256_hex (slice content (to_nat r.start_byte) (to_nat r.end_byte)))
        (hash_mismatch n)

  -- The first loop over the redactions.
  unfoldable pub check_ranges : List ℕ → ℤ → ℕ → List Redaction → Check
  unfolding check_range
  check_ranges content previous_end n [] = ok tt
  check_ranges content previous_end n (r ∷ rs) = do
    check_range content previous_end n r
    check_ranges content r.end_byte (suc n) rs

  unfoldable pub report_differs : Report → Report → Bool
  report_differs report expected =
      report.schema_version != schema_version
      || report.scanner_version != scanner_version
      || report.content_sha256 != expected.content_sha256
      || report.bytes != expected.bytes
      || not (equal_findings report.findings expected.findings)

  unfoldable pub apply_redactions : List ℕ → Report → List Redaction → Result RedactError (List ℕ)
  unfolding report_differs check_ranges check_unions check_covered build scan
  apply_redactions content report redactions = do
    fail_if (not (valid_utf8 content)) not_utf8
    fail_if (report_differs report (scan d content)) report_mismatch
    check_ranges content (pos 0) 0 redactions
    check_unions report.findings 0 redactions
    check_covered redactions report.findings
    let redacted = build content (pos 0) redactions
    let left = length (scan d redacted).findings
    fail_if (left != 0) (still_sensitive left)
    ok redacted
