-- ===== src/Retrieval/Pipeline.antt =====
-- What the loops of `rankRevisions` make of the repository's revisions.
use agent_memory_system.Prelude.{
  String, true, List, [], ◌∷◌, ◌≡◌, ◌≢◌, refl, sym, subst, ◌∙◌, inl, inr,
}
use agent_memory_system.Prelude.Tests.{
  string_eq, ◌==◌, Bool-cases, Option-cases, eq_of_beq, beq_refl,
}
use agent_memory_system.Prelude.Lists.{All}
use agent_memory_system.Prelude.Order.{sort_by}
use agent_memory_system.Prelude.Order.Chain.{
  IsPairwise, All-map, All-both, sort_by-chain, sort_by-IsPairwise, IsPairwise-both, IsPairwise-map,
}
use agent_memory_system.Retrieval.Types.{Context, Revision}
use agent_memory_system.Retrieval.Terms.{Unicode, Frequencies}
use agent_memory_system.Retrieval.Rank.{
  RankedRevision, DocumentTerms, terms_of, index_documents, scope_applies, split_applicable,
  rank_revision, rank_loop, ranks_before,
}
use agent_memory_system.Retrieval.Lexed.{UnicodeLaws}
use agent_memory_system.Retrieval.Ranked.{
  ranks_before_trans, ranks_before_total, terms_in, IsRanked, rank_revision-IsRanked,
}

-- Different memories and different revisions.
abbrev pub AreDifferent : Revision → Revision → Type 0
AreDifferent a b = (a.memory_id ≢ b.memory_id) × (a.revision_id ≢ b.revision_id)

pub split_applicable-All :
    (P : Revision → Type 0) (c : Context) (rs : List Revision)
    → All P rs
    → All (λ r. P r × (scope_applies r c ≡ true)) (split_applicable c rs).0
unfolding split_applicable
split_applicable-All P c [] h = tt
split_applicable-All P c (r ∷ rs) h = elim (Bool-cases (scope_applies r c)) [
  | inl e ↦ rw (split_applicable, e) ((h.0, e), split_applicable-All P c rs h.1)
  | inr e ↦ rw (split_applicable, e) (split_applicable-All P c rs h.1)
]

pub split_applicable-different :
    (c : Context) (rs : List Revision)
    → IsPairwise AreDifferent rs
    → IsPairwise AreDifferent (split_applicable c rs).0
unfolding split_applicable
split_applicable-different c [] h = tt
split_applicable-different c (r ∷ rs) h = elim (Bool-cases (scope_applies r c)) [
  | inl e ↦
      rw (split_applicable, e)
        (
          All-map (λ s k. k.0) (split_applicable c rs).0
              (split_applicable-All (AreDifferent r) c rs h.0),
          split_applicable-different c rs h.1,
        )
  | inr e ↦ rw (split_applicable, e) (split_applicable-different c rs h.1)
]

terms_of-skip :
    (id other : String) (fs : Frequencies) (docs : DocumentTerms)
    → id ≢ other
    → terms_of id ((other, fs) ∷ docs) ≡ terms_of id docs
unfolding terms_of
terms_of-skip id other fs docs h = elim (Bool-cases (id == other)) [
  | inl e ↦ absurd (h (eq_of_beq id other e))
  | inr e ↦ rw e refl
]

terms_of-first :
    (id : String) (fs : Frequencies) (docs : DocumentTerms) → terms_of id ((id, fs) ∷ docs) ≡ fs
unfolding terms_of
terms_of-first id fs docs = rw (beq_refl id) refl

module _ (u : Unicode) where
  terms_of-other :
      (id : String) (docs : DocumentTerms) (rs : List Revision)
      → All (λ r. id ≢ r.revision_id) rs
      → terms_of id (index_documents u docs rs) ≡ terms_of id docs
  unfolding index_documents
  terms_of-other id docs [] h = refl
  terms_of-other id docs (r ∷ rs) h =
      terms_of-other id ((r.revision_id, terms_in u r.text) ∷ docs) rs h.1
      ∙ terms_of-skip id r.revision_id (terms_in u r.text) docs h.0

  -- The terms found for a revision are those of its text.
  pub terms_of-index :
      (docs : DocumentTerms) (rs : List Revision)
      → IsPairwise AreDifferent rs
      → All (λ r. terms_of r.revision_id (index_documents u docs rs) ≡ terms_in u r.text) rs
  unfolding index_documents
  terms_of-index docs [] h = tt
  terms_of-index docs (r ∷ rs) h = (
    terms_of-other r.revision_id ((r.revision_id, terms_in u r.text) ∷ docs) rs
          (All-map (λ s k. k.1) rs h.0)
        ∙ terms_of-first r.revision_id (terms_in u r.text) docs,
    terms_of-index ((r.revision_id, terms_in u r.text) ∷ docs) rs h.1,
  )

  module _ (laws : UnicodeLaws u) (known : List Revision) (docs : DocumentTerms) (query : String)
      (P : Revision → Type 0) where
    pub rank_loop-All :
        (rs : List Revision)
        → All (λ r. P r × (terms_of r.revision_id docs ≡ terms_in u r.text)) rs
        → All
            (λ x. P x.revision × IsRanked u query x)
            (rank_loop u known docs query (terms_in u query) rs).0
    unfolding rank_loop
    rank_loop-All [] h = tt
    rank_loop-All (r ∷ rs) h =
        elim (Option-cases (rank_revision u known docs query (terms_in u query) r)) [
          | inl e ↦ rw (rank_loop, e) (rank_loop-All rs h.1)
          | inr (x, e) ↦
              let (same, ranked) = rank_revision-IsRanked u laws known docs query r x h.0.1 e in
              rw (rank_loop, e) ((subst P (sym same) h.0.0, ranked), rank_loop-All rs h.1)
        ]

  module _ (laws : UnicodeLaws u) (known : List Revision) (docs : DocumentTerms)
      (query : String) where
    pub rank_loop-different :
        (rs : List Revision)
        → IsPairwise AreDifferent rs
        → All (λ r. terms_of r.revision_id docs ≡ terms_in u r.text) rs
        → IsPairwise
            (λ x y. AreDifferent x.revision y.revision)
            (rank_loop u known docs query (terms_in u query) rs).0
    unfolding rank_loop
    rank_loop-different [] h k = tt
    rank_loop-different (r ∷ rs) h k =
        elim (Option-cases (rank_revision u known docs query (terms_in u query) r)) [
          | inl e ↦ rw (rank_loop, e) (rank_loop-different rs h.1 k.1)
          | inr (x, e) ↦
              let (same, _) = rank_revision-IsRanked u laws known docs query r x k.0 e in
              let others =
                rank_loop-All laws known docs query (AreDifferent r) rs
                  (All-both (AreDifferent r) _ rs h.0 k.1) in
              rw (rank_loop, e)
                (
                  All-map (λ y d. subst (λ s. AreDifferent s y.revision) (sym same) d.0)
                      (rank_loop u known docs query (terms_in u query) rs).0 others,
                  rank_loop-different rs h.1 k.1,
                )
        ]

-- One ranked revision sorts before another of a different memory.
abbrev pub Precedes : RankedRevision → RankedRevision → Type 0
Precedes a b = (ranks_before a b ≡ true) × AreDifferent a.revision b.revision

-- The sort puts each ranked revision before all that follow.
pub sorted-Precedes :
    (xs : List RankedRevision)
    → IsPairwise (λ x y. AreDifferent x.revision y.revision) xs
    → IsPairwise Precedes (sort_by ranks_before xs)
sorted-Precedes xs h =
    IsPairwise-both (λ x y. ranks_before x y ≡ true) (λ x y. AreDifferent x.revision y.revision)
      (sort_by ranks_before xs)
      (sort_by-chain ranks_before ranks_before_trans xs
        (IsPairwise-map (λ x y d. ranks_before_total x y d.0) xs h))
      (sort_by-IsPairwise (λ x y. AreDifferent x.revision y.revision)
        (λ x y d. (λ e. d.0 (sym e), λ e. d.1 (sym e))) ranks_before xs h)
