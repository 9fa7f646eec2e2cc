-- ===== src/Retrieval/Chosen.antt =====
-- The selected matches pass the tests of `validateReceipt` on matches.
use agent_memory_system.Prelude.{
  ℕ, ◌≤◌, ◌+◌, true, false, List, [], ◌∷◌, ◌++◌, Option, some, none, ◌≡◌, ◌≢◌, refl, sym, ap, subst,
  inl, inr, ◌⊎◌, arith,
}
use agent_memory_system.Prelude.Tests.{
  string_eq, nat_eq, ◌==◌, ◌!=◌, Bool-cases, eq_of_beq, beq_refl, ◌andalso◌,
}
use agent_memory_system.Prelude.Int.{pos, int_eq, int_leb, int_ltb}
use agent_memory_system.Prelude.Lists.{All, elem, length}
use agent_memory_system.Prelude.Order.Chain.{
  IsPairwise, All-map, All-both, All-concat, IsPairwise-concat,
}
use agent_memory_system.Prelude.Text.{runes, len, is_blank}
use agent_memory_system.Retrieval.Types.{
  Request, Revision, MemoryReference, Reason, lexical_match, exact_phrase, exact_memory_id,
  scope_reason, Match, scope_specificity, valid_memory_reference,
}
use agent_memory_system.Retrieval.Terms.{Unicode, Term, frequency_of, estimate_tokens}
use agent_memory_system.Retrieval.Rank.{
  RankedRevision, Selection, scope_applies, rationale, ranks_before, match_of, select_one,
  select_loop, exact_rank,
}
use agent_memory_system.Retrieval.Sets.{reference_eq}
use agent_memory_system.Retrieval.Receipts.{
  Services, same_reason, same_list, valid_match_kind, valid_evidence_basis, match_precedes,
  terms_occur, valid_match_selection, digest_string, valid_match, out_of_order, check_matches,
}
use agent_memory_system.Retrieval.Ranked.{terms_in, IsRanked}
use agent_memory_system.Retrieval.Pipeline.{Precedes}

-- What `portable.LoadActiveRevisions` lets pass as an active revision.
pub record IsStored (sv : Services) (r : Revision) : Type 0 where
  pub reference :
      valid_memory_reference (record { memory_id = r.memory_id; revision_id = r.revision_id })
      ≡ true
  pub digest : r.text_sha256 ≡ digest_string sv r.text
  pub text : is_blank r.text ≡ false
  pub kind : valid_match_kind r.kind ≡ true
  pub basis : valid_evidence_basis r.evidence_basis ≡ true

positive_score : (n : ℕ) → 1 ≤ n → int_leb (pos n) (pos 0) ≡ false
positive_score n h = ground arith

same_reason_refl : (r : Reason) → same_reason r r ≡ true
same_reason_refl lexical_match = refl
same_reason_refl exact_phrase = refl
same_reason_refl exact_memory_id = refl
same_reason_refl (scope_reason k) = beq_refl k

same_reasons_refl : (rs : List Reason) → same_list same_reason rs rs ≡ true
same_reasons_refl [] = refl
same_reasons_refl (r ∷ rs) = ground (arith, same_reason_refl r, same_reasons_refl rs)

terms_occur_all :
    (u : Unicode) (q : Request) (m : Match) (ts : List Term)
    → All
        (λ t. (1 ≤ frequency_of t (terms_in u q.query)) × (1 ≤ frequency_of t (terms_in u m.text)))
        ts
    → terms_occur u q m ts ≡ true
unfolding terms_occur
terms_occur_all u q m [] h = refl
terms_occur_all u q m (t ∷ ts) h = ground (arith, h.0, terms_occur_all u q m ts h.1)

All_unit : (ms : List Match) → All (λ m. Unit {0}) ms
All_unit [] = tt
All_unit (m ∷ ms) = (tt, All_unit ms)

All_refl : (ms : List Match) → All (λ m. false ≡ false) ms
All_refl [] = tt
All_refl (m ∷ ms) = (refl, All_refl ms)

module _ (sv : Services) (q : Request) where
  pub query_selection :
      (x : RankedRevision)
      → q.memory_id ≡ ""
      → IsRanked sv.unicode q.query x
      → valid_match_selection sv.unicode (match_of x) q ≡ true
  unfolding valid_match_selection match_of rationale
  query_selection x e h =
      let m = match_of x in
      let occur = terms_occur_all sv.unicode q m x.matched_terms h.occur in
      let reasons =
        subst (λ rs. same_list same_reason x.selection_rationale rs ≡ true) h.rationale_of
          (same_reasons_refl x.selection_rationale) in
      let no_id = subst (λ i. (i != "") ≡ false) (sym e) refl in
      rw (valid_match_selection, positive_score x.score h.score, no_id)
        (h.terms andalso occur andalso reasons)

  -- The match of a stored and applicable revision is valid where its selection is.
  pub valid_match_of :
      (x : RankedRevision)
      → IsStored sv x.revision
      → scope_applies x.revision q.context ≡ true
      → x.scope_specificity ≡ scope_specificity x.revision.scope_kind
      → valid_match_selection sv.unicode (match_of x) q ≡ true
      → valid_match sv q (match_of x) ≡ true
  unfolding valid_match match_of scope_applies
  valid_match_of x h applies specific chosen =
      let digest =
        subst (λ d. (x.revision.text_sha256 == d) ≡ true) h.digest
          (beq_refl x.revision.text_sha256) in
      let specificity =
        subst (λ n. (pos x.scope_specificity == pos n) ≡ true) specific
          (beq_refl (pos x.scope_specificity)) in
      h.reference
      andalso digest
      andalso ground (arith, h.text)
      andalso beq_refl (pos (len x.revision.text))
      andalso beq_refl (pos (estimate_tokens (runes x.revision.text)))
      andalso h.kind
      andalso h.basis
      andalso applies
      andalso specificity
      andalso chosen

  pub exact_selection :
      (r : Revision)
      → (q.memory_id != "") ≡ true
      → r.memory_id ≡ q.memory_id
      → valid_match_selection sv.unicode (match_of (exact_rank r)) q ≡ true
  unfolding valid_match_selection match_of exact_rank
  exact_selection r given same =
      let here = subst (λ i. (r.memory_id == i) ≡ true) same (beq_refl r.memory_id) in
      rw (valid_match_selection, given)
        (here andalso refl andalso refl andalso (beq_refl r.scope_kind andalso refl))

  -- One match may stand before another.
  abbrev pub MayPrecede : Match → Match → Type 0
  MayPrecede m n = (match_precedes m n ≡ true) × (m.reference.memory_id ≢ n.reference.memory_id)

  MayPrecede-match_of : (a b : RankedRevision) → Precedes a b → MayPrecede (match_of a) (match_of b)
  unfolding match_precedes match_of ranks_before
  MayPrecede-match_of a b h = (ground (arith, h.0), h.1.0)

  pub record IsChosen (ms : List Match) : Type 0 where
    pub valid : All (λ m. valid_match sv q m ≡ true) ms
    pub ordered : IsPairwise MayPrecede ms

  select_one-selected :
      (s : Selection) (r : RankedRevision)
      → ((select_one q s r).selected ≡ s.selected)
        ⊎ ((select_one q s r).selected ≡ s.selected ++ (match_of r ∷ []))
  unfolding select_one
  select_one-selected s r = elim (Bool-cases (int_leb q.limit (pos (length s.selected)))) [
    | inl e ↦ inl (rw (select_one, e) refl)
    | inr e ↦ elim (Bool-cases (int_ltb q.byte_budget (pos (s.bytes + len r.revision.text)))) [
      | inl f ↦ inl (rw (select_one, e, f) refl)
      | inr f ↦
          elim (Bool-cases
            (int_ltb q.token_budget (pos (s.tokens + estimate_tokens (runes r.revision.text))))) [
              | inl g ↦ inl (rw (select_one, e, f, g) refl)
              | inr g ↦ inr (rw (select_one, e, f, g) refl)
            ]
    ]
  ]

  -- The selection loop, from a selection whose matches may all precede those to come.
  pub select_loop-IsChosen :
      (s : Selection) (rs : List RankedRevision)
      → IsChosen s.selected
      → All (λ r. valid_match sv q (match_of r) ≡ true) rs
      → IsPairwise Precedes rs
      → All (λ m. All (λ r. MayPrecede m (match_of r)) rs) s.selected
      → IsChosen (select_loop q s rs).selected
  unfolding select_loop
  select_loop-IsChosen s [] c v o b = c
  select_loop-IsChosen s (r ∷ rs) c v o b =
      let tail = All-map (λ m h. h.1) s.selected b in
      elim (select_one-selected s r) [
        | inl e ↦
            select_loop-IsChosen (select_one q s r) rs (subst IsChosen (sym e) c) v.1 o.1
              (subst (All (λ m. All (λ x. MayPrecede m (match_of x)) rs)) (sym e) tail)
        | inr e ↦
            let grown : IsChosen (s.selected ++ (match_of r ∷ [])) = record {
              valid =
                  All-concat (λ m. valid_match sv q m ≡ true) s.selected (match_of r) c.valid v.0;
              ordered =
                  IsPairwise-concat MayPrecede s.selected (match_of r) c.ordered
                    (All-map (λ m h. h.0) s.selected b);
            } in
            select_loop-IsChosen (select_one q s r) rs (subst IsChosen (sym e) grown) v.1 o.1 (
              subst (All (λ m. All (λ x. MayPrecede m (match_of x)) rs)) (sym e) (
                All-concat (λ m. All (λ x. MayPrecede m (match_of x)) rs) s.selected (match_of r)
                  tail (All-map (λ x h. MayPrecede-match_of r x h) rs o.0)))
      ]

  reference_differs :
      (m n : Match)
      → m.reference.memory_id ≢ n.reference.memory_id
      → (n.reference == m.reference) ≡ false
  reference_differs m n h = elim (Bool-cases (n.reference == m.reference)) [
    | inl e ↦ absurd (h (ap (λ r. r.memory_id) (sym (eq_of_beq n.reference m.reference e))))
    | inr e ↦ e
  ]

  abbrev MayFollow : Option Match → Match → Type 0
  MayFollow none m = Unit
  MayFollow (some p) m = match_precedes p m ≡ true

  MayFollow-in_order : (p : Option Match) (m : Match) → MayFollow p m → out_of_order sv p m ≡ false
  MayFollow-in_order none m h = refl
  MayFollow-in_order (some p) m h = ground (arith, h)

  check_matches_none :
      (p : Option Match) (seen : List MemoryReference) (ms : List Match)
      → IsChosen ms
      → All (MayFollow p) ms
      → All (λ m. elem m.reference seen ≡ false) ms
      → check_matches sv q p seen ms ≡ []
  unfolding check_matches elem
  check_matches_none p seen [] c f n = refl
  check_matches_none p seen (m ∷ ms) c f n =
      let rest =
        check_matches_none (some m) (m.reference ∷ seen) ms
          (record { valid = c.valid.1; ordered = c.ordered.1 })
          (All-map (λ x h. h.0) ms c.ordered.0)
          (All-map {P = λ x. MayPrecede m x × (elem x.reference seen ≡ false)}
            (λ x h. rw (reference_differs m x h.0.1) h.1) ms
            (All-both (MayPrecede m) (λ x. elem x.reference seen ≡ false) ms c.ordered.0 n.1)) in
      rw (c.valid.0, MayFollow-in_order p m f.0, n.0, rest) refl

  -- Chosen matches raise no issue.
  pub check_matches-IsChosen : (ms : List Match) → IsChosen ms → check_matches sv q none [] ms ≡ []
  unfolding elem
  check_matches-IsChosen ms c = check_matches_none none [] ms c (All_unit ms) (All_refl ms)
