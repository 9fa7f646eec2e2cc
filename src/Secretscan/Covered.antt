-- ===== src/Secretscan/Covered.antt =====
-- What a text that `ApplyRedactions` of internal/secretscan/scan.go returns is free of.
use agent_memory_system.Prelude.{
  ℕ, suc, true, not, List, [], ◌∷◌, ◌≡◌, refl, sym, subst, inl, inr, arith,
}
use agent_memory_system.Prelude.Tests.{string_eq, nat_eq, Bool-cases, and-true, eq_of_not-ne}
use agent_memory_system.Prelude.Int.{ℤ, pos, int_eq, int_leb, int_ltb}
use agent_memory_system.Prelude.Lists.{length, All, Any}
use agent_memory_system.Prelude.Text.{valid_utf8}
use agent_memory_system.Prelude.Result.{ok, fail_if-then, then-eq-ok, ok-injective}
use agent_memory_system.Secretscan.{Finding, Report, Redaction, Detectors, scan}
use agent_memory_system.Secretscan.Found.{IsHarmless, scan-IsHarmless}
use agent_memory_system.Secretscan.Redact.{
  finding_eq, equal_findings, covers, check_unions, any_covers, check_covered, build, check_ranges,
  report_differs, apply_redactions, check_range, bad_bounds,
}

any_covers-Any :
    (rs : List Redaction) (f : Finding) → any_covers rs f ≡ true → Any (λ r. covers r f ≡ true) rs
unfolding any_covers
any_covers-Any [] f h = ground arith
any_covers-Any (r ∷ rs) f h = elim (Bool-cases (covers r f)) [
  | inl e ↦ inl e
  | inr e ↦ inr (any_covers-Any rs f (rw e at h))
]

check_covered-All :
    (rs : List Redaction) (fs : List Finding)
    → check_covered rs fs ≡ ok tt
    → All (λ f. Any (λ r. covers r f ≡ true) rs) fs
unfolding check_covered
check_covered-All rs [] h = tt
check_covered-All rs (f ∷ fs) h =
    let (e, rest) = fail_if-then (not (any_covers rs f)) _ _ h in
    (any_covers-Any rs f (ground arith), check_covered-All rs fs rest)

finding_eq-eq : (f g : Finding) → finding_eq f g ≡ true → f ≡ g
unfolding finding_eq
finding_eq-eq f g h = ground (
  arith,
  string_eq.same_iff f.finding_id g.finding_id,
  string_eq.same_iff f.detector g.detector,
  string_eq.same_iff f.category g.category,
  string_eq.same_iff f.match_sha256 g.match_sha256,
  int_eq.same_iff f.start_byte g.start_byte,
  int_eq.same_iff f.end_byte g.end_byte,
)

equal_findings-eq : (fs gs : List Finding) → equal_findings fs gs ≡ true → fs ≡ gs
unfolding equal_findings
equal_findings-eq [] [] h = refl
equal_findings-eq [] (g ∷ gs) h = ground arith
equal_findings-eq (f ∷ fs) [] h = ground arith
equal_findings-eq (f ∷ fs) (g ∷ gs) h =
    let (e, rest) = and-true (finding_eq f g) _ h in
    cc (finding_eq-eq f g e, equal_findings-eq fs gs rest)

-- The redactions follow each other inside the content, none of them empty.
abbrev pub IsOrdered : ℕ → ℤ → List Redaction → Type 0
IsOrdered size from [] = Unit
IsOrdered size from (r ∷ rs) =
    (int_leb from r.start_byte ≡ true)
    × (int_ltb r.start_byte r.end_byte ≡ true)
    × (int_leb r.end_byte (pos size) ≡ true)
    × IsOrdered size r.end_byte rs

-- The parts of a successful run.
pub record Passed (d : Detectors) (content : List ℕ) (report : Report) (redactions : List Redaction)
    (redacted : List ℕ) : Type 0 where
  pub same_findings : report.findings ≡ (scan d content).findings
  pub ranges : check_ranges d content (pos 0) 0 redactions ≡ ok tt
  pub unions : check_unions report.findings 0 redactions ≡ ok tt
  pub coverage : check_covered redactions report.findings ≡ ok tt
  pub built : redacted ≡ build content (pos 0) redactions
  pub clean : length (scan d redacted).findings ≡ 0

length-nil : {A : Type 0} (xs : List A) → length xs ≡ 0 → xs ≡ []
length-nil [] h = refl
length-nil (x ∷ xs) h = ground arith

module _ (d : Detectors) (content : List ℕ) (report : Report) (redactions : List Redaction)
    (redacted : List ℕ) where
  pub apply_redactions-Passed :
      apply_redactions d content report redactions ≡ ok redacted
      → Passed d content report redactions redacted
  unfolding apply_redactions report_differs
  apply_redactions-Passed h =
      let (valid, h1) = fail_if-then (not (valid_utf8 content)) _ _ h in
      let (same, h2) = fail_if-then (report_differs d report (scan d content)) _ _ h1 in
      let (ranges, h3) = then-eq-ok (check_ranges d content (pos 0) 0 redactions) _ h2 in
      let (unions, h4) = then-eq-ok (check_unions report.findings 0 redactions) _ h3 in
      let (coverage, h5) = then-eq-ok (check_covered redactions report.findings) _ h4 in
      let (clean, h6) = fail_if-then _ _ _ h5 in
      record {
        same_findings = equal_findings-eq report.findings (scan d content).findings (ground arith);
        ranges = ranges;
        unions = unions;
        coverage = coverage;
        built = sym (ok-injective h6);
        clean =
            subst (λ t. length (scan d t).findings ≡ 0) (ok-injective h6) (eq_of_not-ne _ _ clean);
      }

  check_ranges-IsOrdered :
      (from : ℤ) (n : ℕ) (rs : List Redaction)
      → check_ranges d content from n rs ≡ ok tt
      → IsOrdered (length content) from rs
  unfolding check_ranges check_range
  check_ranges-IsOrdered from n [] h = tt
  check_ranges-IsOrdered from n (r ∷ rs) h =
      let (checked, rest) = then-eq-ok (check_range d content from n r) _ h in
      let (e, more) = fail_if-then (bad_bounds content from r) _ _ checked in
      (
        (ground arith),
        (ground arith),
        (ground arith),
        check_ranges-IsOrdered r.end_byte (suc n) rs rest,
      )

  -- When ApplyRedactions returns a text, the redactions follow each other in the content, every
  -- finding lies inside one of them, the text is the content with them replaced, and its
  -- detector matches are placeholders.
  pub apply_redactions_sound :
      apply_redactions d content report redactions ≡ ok redacted
      → IsOrdered (length content) (pos 0) redactions
        × All (λ f. Any (λ r. covers r f ≡ true) redactions) (scan d content).findings
        × (redacted ≡ build content (pos 0) redactions)
        × All (IsHarmless d redacted) (d.matches redacted)
  apply_redactions_sound h =
      let passed = apply_redactions-Passed h in
      (
        check_ranges-IsOrdered (pos 0) 0 redactions passed.ranges,
        subst (All (λ f. Any (λ r. covers r f ≡ true) redactions)) passed.same_findings
            (check_covered-All redactions report.findings passed.coverage),
        passed.built,
        scan-IsHarmless d redacted (length-nil _ passed.clean),
      )
