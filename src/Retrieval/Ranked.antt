-- ===== src/Retrieval/Ranked.antt =====
-- What a ranked revision is, and the order that the ranking sorts by.
use agent_memory_system.Prelude.{
  ℕ, ◌+◌, ◌-◌, ◌*◌, ◌/◌, ◌≤◌, String, true, false, List, [], ◌∷◌, some, ◌≡◌, ◌≢◌, refl, subst, inl,
  inr, arith,
}
use native.Mathlib.Nat.{mul-le-mul}
use agent_memory_system.Prelude.Tests.{
  string_eq, nat_eq, ◌==◌, if◌then◌else◌, Bool-cases, some-injective, ltb, string_ltb,
}
use agent_memory_system.Prelude.Lists.{length, All}
use agent_memory_system.Prelude.Order.{sort_by, All-sort_by, string_ltb_total}
use agent_memory_system.Prelude.Order.Chain.{
  IsPairwise, All-map, IsTransitive, Comparables, sort_by-chain, string_ltb_trans,
}
use agent_memory_system.Prelude.Text.{runes}
use agent_memory_system.Retrieval.Types.{Revision, scope_specificity}
use agent_memory_system.Retrieval.Terms.{
  Unicode, Term, term_ltb, lexical_terms, Frequencies, frequency_of, frequencies,
}
use agent_memory_system.Retrieval.Normalize.{is_null}
use agent_memory_system.Retrieval.Rank.{
  RankedRevision, DocumentTerms, terms_of, term_score, document_frequency, match_terms, rationale,
  rank_revision, ranks_before,
}
use agent_memory_system.Retrieval.Receipts.{terms_sorted_unique}
use agent_memory_system.Retrieval.Lexed.{
  term_ltb_trans, term_ltb_total, UnicodeLaws, IsGiven, lexical_terms-IsGiven,
  frequencies-IsCounted, frequency_of-key,
}

pub ranks_before_trans : IsTransitive ranks_before
unfolding ranks_before
ranks_before_trans a b c h k =
    ground
      (arith, string_ltb_trans a.revision.memory_id b.revision.memory_id c.revision.memory_id, h, k)

pub ranks_before_total :
    (a b : RankedRevision)
    → a.revision.memory_id ≢ b.revision.memory_id
    → Comparables ranks_before a b
unfolding ranks_before
ranks_before_total a b h =
    let l = string_ltb a.revision.memory_id b.revision.memory_id in
    let g = string_ltb b.revision.memory_id a.revision.memory_id in
    ground (arith, string_ltb_total a.revision.memory_id b.revision.memory_id)

mul_positive : (a b : ℕ) → 1 ≤ a → 1 ≤ b → 1 ≤ a * b
mul_positive a b h k = omega (arith, mul-le-mul h k)

term_score_positive : (n df tf count : ℕ) → 1 ≤ tf → 1 ≤ count → 1 ≤ term_score n df tf count
unfolding term_score
term_score_positive n df tf count h k =
    mul_positive ((1000 + (n - df) * 1000 / (df + 1)) * (if ltb 3 tf then 3 else tf))
      (if ltb 2 count then 2 else count)
      (mul_positive (1000 + (n - df) * 1000 / (df + 1)) (if ltb 3 tf then 3 else tf) (omega arith)
        (ground arith))
      (ground arith)

different_comparable :
    (ts : List Term) → IsPairwise (λ s t. s ≢ t) ts → IsPairwise (Comparables term_ltb) ts
different_comparable [] h = tt
different_comparable (t ∷ ts) h = (All-map (term_ltb_total t) ts h.0, different_comparable ts h.1)

chain-terms_sorted_unique :
    (ts : List Term)
    → IsPairwise (λ a b. term_ltb a b ≡ true) ts
    → All IsGiven ts
    → terms_sorted_unique ts ≡ true
unfolding terms_sorted_unique
chain-terms_sorted_unique [] c g = refl
chain-terms_sorted_unique (t ∷ []) c g = ground (arith, g.0)
chain-terms_sorted_unique (t ∷ s ∷ ts) c g =
    ground (arith, g.0, c.0.0, chain-terms_sorted_unique (s ∷ ts) c.1 g.1)

module _ (u : Unicode) where
  abbrev pub terms_in : String → Frequencies
  terms_in text = frequencies (lexical_terms u (runes text))

  module _ (known : List Revision) (doc : Frequencies) where
    match_terms-All :
        (P : Term → Type 0) (fs : Frequencies)
        → All (λ p. P p.0) fs
        → All (λ t. P t × (1 ≤ frequency_of t doc)) (match_terms u known doc fs).0
    unfolding match_terms
    match_terms-All P [] h = tt
    match_terms-All P ((t, n) ∷ fs) h = elim (Bool-cases (frequency_of t doc == 0)) [
      | inl e ↦ rw (match_terms, e) (match_terms-All P fs h.1)
      | inr e ↦ rw (match_terms, e) ((h.0, ground arith), match_terms-All P fs h.1)
    ]

    match_terms-different :
        (fs : Frequencies)
        → IsPairwise (λ p q. p.0 ≢ q.0) fs
        → IsPairwise (λ s t. s ≢ t) (match_terms u known doc fs).0
    unfolding match_terms
    match_terms-different [] h = tt
    match_terms-different ((t, n) ∷ fs) h = elim (Bool-cases (frequency_of t doc == 0)) [
      | inl e ↦ rw (match_terms, e) (match_terms-different fs h.1)
      | inr e ↦
          rw (match_terms, e)
            (
              All-map (λ s k. k.0) (match_terms u known doc fs).0
                  (match_terms-All (λ s. t ≢ s) fs h.0),
              match_terms-different fs h.1,
            )
    ]

    match_terms-positive :
        (fs : Frequencies)
        → All (λ p. 1 ≤ p.1) fs
        → is_null (match_terms u known doc fs).0 ≡ false
        → 1 ≤ (match_terms u known doc fs).1
    unfolding match_terms
    match_terms-positive [] h k = cc k
    match_terms-positive ((t, n) ∷ fs) h k = elim (Bool-cases (frequency_of t doc == 0)) [
      | inl e ↦ rw (match_terms, e) (match_terms-positive fs h.1 (rw (match_terms, e) at k))
      | inr e ↦
          let scored =
            term_score_positive (length known) (document_frequency u t known) (frequency_of t doc) n
              (ground arith) h.0 in
          rw (match_terms, e) (omega arith)
    ]

  -- A revision as the loop ranks it for a query.
  pub record IsRanked (query : String) (x : RankedRevision) : Type 0 where
    pub score : 1 ≤ x.score
    pub terms : terms_sorted_unique x.matched_terms ≡ true
    pub occur :
        All
          (λ t.
            (1 ≤ frequency_of t (terms_in query)) × (1 ≤ frequency_of t (terms_in x.revision.text)))
          x.matched_terms
    pub specificity : x.scope_specificity ≡ scope_specificity x.revision.scope_kind
    pub rationale_of : x.selection_rationale ≡ rationale u query x.revision

  module _ (laws : UnicodeLaws u) (known : List Revision) (docs : DocumentTerms)
      (query : String) where
    pub rank_revision-IsRanked :
        (r : Revision) (x : RankedRevision)
        → terms_of r.revision_id docs ≡ terms_in r.text
        → rank_revision u known docs query (terms_in query) r ≡ some x
        → (x.revision ≡ r) × IsRanked query x
    unfolding rank_revision
    rank_revision-IsRanked r x d h =
        let doc = terms_of r.revision_id docs in
        let fs = terms_in query in
        let counted =
          frequencies-IsCounted IsGiven (lexical_terms u (runes query))
            (lexical_terms-IsGiven u laws (runes query)) in
        let (matched, score) = match_terms u known doc fs in
        elim (Bool-cases (is_null matched)) [
          | inl e ↦ cc (rw e at h)
          | inr e ↦
              let same = some-injective (rw e at h) in
              let chain = sort_by-chain term_ltb term_ltb_trans matched (
                different_comparable matched
                  (match_terms-different known doc fs counted.different)) in
              let given = All-sort_by IsGiven term_ltb matched (
                All-map (λ t k. k.0) matched (match_terms-All known doc IsGiven fs counted.keys)) in
              let occur =
                match_terms-All known doc (λ t. 1 ≤ frequency_of t fs) fs
                  (frequency_of-key fs counted.counts) in
              let positive = match_terms-positive known doc fs counted.counts e in
              subst (λ y. (y.revision ≡ r) × IsRanked query y) same
                (
                  refl,
                  record {
                    score = omega arith;
                    terms = chain-terms_sorted_unique (sort_by term_ltb matched) chain given;
                    occur =
                        All-sort_by
                          (λ t. (1 ≤ frequency_of t fs) × (1 ≤ frequency_of t (terms_in r.text)))
                          term_ltb matched
                          (All-map (λ t k. (k.0, subst (λ f. 1 ≤ frequency_of t f) d k.1)) matched
                            occur);
                    specificity = refl;
                    rationale_of = refl;
                  },
                )
        ]
