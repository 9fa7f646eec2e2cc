-- ===== src/Secretscan/Found.antt =====
-- What is left to find where `Scan` of internal/secretscan/scan.go reports nothing.
use agent_memory_system.Prelude.{
  ℕ, ◌<◌, ◌≤◌, true, ◌||◌, List, [], ◌∷◌, ◌++◌, ◌≡◌, refl, ap, subst, ◌∙◌, inl, inr, arith,
}
use agent_memory_system.Prelude.Tests.{string_eq, leb, ltb, Bool-cases}
use agent_memory_system.Prelude.Int.{int_eq}
use agent_memory_system.Prelude.Lists.{length, All}
use agent_memory_system.Secretscan.{
  Finding, Match, Detectors, Scanning, slice, valid_replacement, seen_key, less, insert,
  sort_findings, key_of, add_finding, add_match, add_token, add_all, nothing_found, found, scan,
}

-- A match with a range inside the content, and not empty.
abbrev pub InRange : List ℕ → Match → Type 0
InRange content m = (m.start < m.end_) × (m.end_ ≤ length content)

pub insert-All :
    (P : Finding → Type 0) (f : Finding) (fs : List Finding) → P f → All P fs → All P (insert f fs)
unfolding insert
insert-All P f [] p ps = (p, ps)
insert-All P f (g ∷ gs) p ps = elim (Bool-cases (less g f)) [
  | inl e ↦ rw e (ps.0, insert-All P f gs p ps.1)
  | inr e ↦ rw e (p, ps)
]

pub sort_findings-All :
    (P : Finding → Type 0) (fs : List Finding) → All P fs → All P (sort_findings fs)
unfolding sort_findings
sort_findings-All P [] ps = ps
sort_findings-All P (f ∷ fs) ps =
    insert-All P f (sort_findings fs) ps.0 (sort_findings-All P fs ps.1)

insert-ne-nil : {A : Type 0} (f : Finding) (fs : List Finding) → insert f fs ≡ [] → A
unfolding insert
insert-ne-nil f [] h = cc h
insert-ne-nil f (g ∷ gs) h = elim (Bool-cases (less g f)) [
  | inl e ↦ cc (rw e at h)
  | inr e ↦ cc (rw e at h)
]

sort_findings-nil : (fs : List Finding) → sort_findings fs ≡ [] → fs ≡ []
unfolding sort_findings
sort_findings-nil [] h = refl
sort_findings-nil (f ∷ fs) h = insert-ne-nil f (sort_findings fs) h

add_all-nil :
    (body : Scanning → Match → Scanning)
    → ((s : Scanning) (m : Match) → (body s m).findings ≡ [] → s.findings ≡ [])
    → (ms : List Match) (s : Scanning) → (add_all body s ms).findings ≡ []
    → s.findings ≡ []
unfolding add_all
add_all-nil body step [] s h = h
add_all-nil body step (m ∷ ms) s h = step s m (add_all-nil body step ms (body s m) h)

snoc-ne-nil : {A B : Type 0} (xs : List A) (x : A) → (xs ++ x ∷ []) ≡ [] → B
snoc-ne-nil [] x h = cc h
snoc-ne-nil (y ∷ ys) x h = cc h

module _ (d : Detectors) (content : List ℕ) where
  -- Inside the content only as a placeholder.
  abbrev pub IsHarmless : Match → Type 0
  IsHarmless m = InRange content m → valid_replacement (slice content m.start m.end_) ≡ true

  no_range :
      (m : Match)
      → (leb m.end_ m.start || ltb (length content) m.end_) ≡ true
      → InRange content m
      → ⊥
  no_range m h r = ground arith

  add_finding-nil :
      (s : Scanning) (m : Match) → (add_finding d content s m).findings ≡ [] → s.findings ≡ []
  unfolding add_finding
  add_finding-nil s m h = elim (Bool-cases (leb m.end_ m.start || ltb (length content) m.end_)) [
    | inl e ↦ rw e at h
    | inr e ↦ elim (Bool-cases (seen_key (key_of d content m) s.seen)) [
      | inl k ↦ rw (e, k) at h
      | inr k ↦ snoc-ne-nil s.findings _ (rw (e, k) at h)
    ]
  ]

  add_match-nil :
      (s : Scanning) (m : Match) → (add_match d content s m).findings ≡ [] → s.findings ≡ []
  unfolding add_match
  add_match-nil s m h = elim (Bool-cases (valid_replacement (slice content m.start m.end_))) [
    | inl e ↦ rw e at h
    | inr e ↦ add_finding-nil s m (rw e at h)
  ]

  add_token-nil :
      (s : Scanning) (m : Match) → (add_token d content s m).findings ≡ [] → s.findings ≡ []
  unfolding add_token
  add_token-nil s m h = elim (Bool-cases (d.high_entropy (slice content m.start m.end_))) [
    | inl e ↦ add_finding-nil s m (rw e at h)
    | inr e ↦ rw e at h
  ]

  -- A match that adds nothing to nothing lies outside the content or is a placeholder.
  add_match-nothing :
      (m : Match)
      → (add_match d content nothing_found m).findings ≡ []
      → (add_match d content nothing_found m ≡ nothing_found) × IsHarmless m
  unfolding add_match add_finding seen_key
  add_match-nothing m h = elim (Bool-cases (valid_replacement (slice content m.start m.end_))) [
    | inl e ↦ (rw e refl, λ r. e)
    | inr e ↦ elim (Bool-cases (leb m.end_ m.start || ltb (length content) m.end_)) [
      | inl k ↦ (rw (e, k) refl, λ r. absurd (no_range m k r))
      | inr k ↦ snoc-ne-nil [] _ (rw (e, k) at h)
    ]
  ]

  add_matches-nil :
      (ms : List Match) (s : Scanning)
      → s ≡ nothing_found
      → (add_all (add_match d content) s ms).findings ≡ []
      → All IsHarmless ms
  unfolding add_all
  add_matches-nil [] s start h = tt
  add_matches-nil (m ∷ ms) s start h =
      let here = add_all-nil (add_match d content) add_match-nil ms _ h in
      let (same, harmless) =
        add_match-nothing m (subst (λ t. (add_match d content t m).findings ≡ []) start here) in
      (harmless, add_matches-nil ms _ (ap (λ t. add_match d content t m) start ∙ same) h)

  -- A text with no finding has no match of a detector but placeholders of redactions.
  pub scan-IsHarmless : (scan d content).findings ≡ [] → All IsHarmless (d.matches content)
  unfolding scan found
  scan-IsHarmless h =
      add_matches-nil (d.matches content) nothing_found refl (
        add_all-nil (add_token d content) add_token-nil (d.tokens content) _
          (sort_findings-nil _ h))
