-- ===== src/Secretscan/Union.antt =====
-- What `ApplyRedactions` of internal/secretscan/scan.go removes.
use agent_memory_system.Prelude.{
  ℕ, suc, Bool, true, ◌&&◌, ◌||◌, List, [], ◌∷◌, ◌≡◌, refl, sym, subst, ◌⊎◌, inl, inr, arith,
  Option, none, some,
}
use agent_memory_system.Prelude.Tests.{
  string_eq, nat_eq, ◌!=◌, Bool-cases, eq_of_not-ne, Option-cases, some-injective,
}
use agent_memory_system.Prelude.Int.{ℤ, int_eq, int_leb, int_ltb, int_leb_trans}
use agent_memory_system.Prelude.Lists.{All, Any}
use agent_memory_system.Prelude.Result.{ok, fail_if-then, then-eq-ok, fail_if-eq-ok}
use agent_memory_system.Secretscan.{Finding, Report, Redaction, Detectors, scan}
use agent_memory_system.Secretscan.Covered.{apply_redactions-Passed}
use agent_memory_system.Secretscan.Redact.{
  covers, overlaps, collect_covered, covered_end, check_unions, check_union, check_end,
  apply_redactions,
}

-- The byte at position `p` belongs to the range.
abbrev pub Within : ℤ → ℤ → ℤ → Type 0
Within from to p = (int_leb from p ≡ true) × (int_ltb p to ≡ true)

abbrev pub IsSensitive : List Finding → ℤ → Type 0
IsSensitive fs p = Any (λ f. Within f.start_byte f.end_byte p) fs

sum-map : {A B C D : Type 0} → (A → C) → (B → D) → A ⊎ B → C ⊎ D
sum-map f g (inl a) = inl (f a)
sum-map f g (inr b) = inr (g b)

-- The test for a partial cover.
abbrev partly : Redaction → Finding → Bool
partly r f = overlaps r f && (int_ltb f.start_byte r.start_byte || int_ltb r.end_byte f.end_byte)

-- What the loop reaches, it reaches by findings.
covered_end-IsSensitive :
    (reached to : ℤ) (fs : List Finding)
    → covered_end reached fs ≡ some to
    → (p : ℤ) → Within reached to p
    → IsSensitive fs p
unfolding covered_end
covered_end-IsSensitive reached to [] h p (from, below) = ground arith
covered_end-IsSensitive reached to (f ∷ fs) h p (from, below) =
    elim (Bool-cases (int_leb f.start_byte reached)) [
      | inr e ↦ ground arith
      | inl e ↦ elim (Bool-cases (int_leb f.end_byte reached)) [
        | inl k ↦ inr (covered_end-IsSensitive reached to fs (rw (e, k) at h) p (from, below))
        | inr k ↦ elim (Bool-cases (int_leb f.end_byte p)) [
          | inl l ↦ inr (covered_end-IsSensitive f.end_byte to fs (rw (e, k) at h) p (l, below))
          | inr l ↦ inl (int_leb_trans f.start_byte reached p e from, rw l refl)
        ]
      ]
    ]

collect_covered-IsSensitive :
    (r : Redaction) (fs gs : List Finding)
    → collect_covered r fs ≡ some gs
    → (p : ℤ) → IsSensitive gs p
    → IsSensitive fs p
unfolding collect_covered
collect_covered-IsSensitive r [] gs h p s = ground arith
collect_covered-IsSensitive r (f ∷ fs) gs h p s = elim (Bool-cases (partly r f)) [
  | inl e ↦ ground arith
  | inr e ↦ elim (Bool-cases (covers r f)) [
    | inr k ↦ inr (collect_covered-IsSensitive r fs gs (rw (e, k) at h) p s)
    | inl k ↦ elim (Option-cases (collect_covered r fs)) [
      | inl m ↦ cc (rw (e, k, m) at h)
      | inr (hs, m) ↦
          let same = subst (λ l. IsSensitive l p) (some-injective (sym (rw (e, k, m) at h))) s in
          sum-map (λ w. w) (collect_covered-IsSensitive r fs hs m p) same
    ]
  ]
]

check_union-IsSensitive :
    (n : ℕ) (r : Redaction) (found : Option (List Finding))
    → check_union n r found ≡ ok tt
    → (p : ℤ) → Within r.start_byte r.end_byte p
    → (gs : List Finding) × (found ≡ some gs) × IsSensitive gs p
unfolding check_union check_end
check_union-IsSensitive n r none h p w = ground arith
check_union-IsSensitive n r (some []) h p w = ground arith
check_union-IsSensitive n r (some (f ∷ fs)) h p (from, below) =
    let (start, rest) = fail_if-then (f.start_byte != r.start_byte) _ _ h in
    let starts = eq_of_not-ne f.start_byte r.start_byte start in
    elim (Option-cases (covered_end f.end_byte fs)) [
      | inl e ↦ cc (rw e at rest)
      | inr (to, e) ↦
          let ends = eq_of_not-ne to r.end_byte (fail_if-eq-ok _ _ (rw e at rest)) in
          (
            f ∷ fs,
            refl,
            elim (Bool-cases (int_leb f.end_byte p)) [
              | inr k ↦ inl (rw starts from, rw k refl)
              | inl k ↦ inr (covered_end-IsSensitive f.end_byte to fs e p (k, rw ends below))
            ],
          )
    ]

-- Every byte of every redaction belongs to a finding.
abbrev pub IsExact : List Finding → List Redaction → Type 0
IsExact fs rs = All (λ r. (p : ℤ) → Within r.start_byte r.end_byte p → IsSensitive fs p) rs

check_unions-IsExact :
    (fs : List Finding) (n : ℕ) (rs : List Redaction) → check_unions fs n rs ≡ ok tt → IsExact fs rs
unfolding check_unions
check_unions-IsExact fs n [] h = tt
check_unions-IsExact fs n (r ∷ rs) h =
    let (here, rest) = then-eq-ok (check_union n r (collect_covered r fs)) _ h in
    (
      λ p w.
          let (gs, e, s) = check_union-IsSensitive n r (collect_covered r fs) here p w in
          collect_covered-IsSensitive r fs gs e p s,
      check_unions-IsExact fs (suc n) rs rest,
    )

-- When ApplyRedactions returns a text, every byte that it replaced belongs to a finding of Scan.
pub apply_redactions-IsExact :
    (d : Detectors) (content : List ℕ) (report : Report) (redactions : List Redaction)
    (redacted : List ℕ)
    → apply_redactions d content report redactions ≡ ok redacted
    → IsExact (scan d content).findings redactions
apply_redactions-IsExact d content report redactions redacted h =
    let passed = apply_redactions-Passed d content report redactions redacted h in
    subst (λ fs. IsExact fs redactions) passed.same_findings
      (check_unions-IsExact report.findings 0 redactions passed.unions)
