-- ===== src/Retrieval/Validated.antt =====
-- The result that `Search` fills in raises no issue of `validateReceipt`.
use agent_memory_system.Prelude.{true, false, List, [], ◌∷◌, ◌≡◌, refl, sym, subst, inl, inr, ◌⊎◌}
use agent_memory_system.Prelude.Tests.{string_eq, ◌!=◌, Bool-cases, eq_of_not-ne}
use agent_memory_system.Prelude.Int.{pos, int_eq, int_leb, int_ltb}
use agent_memory_system.Prelude.Lists.{All, length}
use agent_memory_system.Prelude.Order.{sort_by, All-sort_by}
use agent_memory_system.Prelude.Order.Chain.{IsPairwise, All-map, All-both}
use agent_memory_system.Prelude.Text.{runes, len}
use agent_memory_system.Retrieval.Types.{Request, Revision}
use agent_memory_system.Retrieval.Terms.{estimate_tokens}
use agent_memory_system.Retrieval.Rank.{
  Selection, empty_selection, scope_applies, rank_exact_memory, rank_query, rank_applicable,
  index_documents, rank_loop, ranks_before, exact_rank, match_of,
}
use agent_memory_system.Retrieval.Receipts.{Services, valid_match}
use agent_memory_system.Retrieval.Selected.{
  IsBounded, accounted, HasRoom, rank_query-IsBounded, rank_exact_memory-IsBounded,
}
use agent_memory_system.Retrieval.Lexed.{UnicodeLaws}
use agent_memory_system.Retrieval.Ranked.{terms_in, IsRanked}
use agent_memory_system.Retrieval.Pipeline.{
  AreDifferent, terms_of-index, rank_loop-All, rank_loop-different, sorted-Precedes,
}
use agent_memory_system.Retrieval.Chosen.{
  IsStored, IsChosen, query_selection, valid_match_of, exact_selection, select_loop-IsChosen,
}

module _ (sv : Services) (q : Request) where
  -- A revision that may be selected.
  abbrev pub IsApplicable : Revision → Type 0
  IsApplicable r = IsStored sv r × (scope_applies r q.context ≡ true)

  rank_query-IsChosen :
      (rs : List Revision)
      → UnicodeLaws sv.unicode
      → q.memory_id ≡ ""
      → All IsApplicable rs
      → IsPairwise AreDifferent rs
      → IsChosen sv q (rank_query sv.unicode q rs).selected
  unfolding rank_query
  rank_query-IsChosen rs laws e h d =
      let u = sv.unicode in
      let docs = index_documents u [] rs in
      let found = terms_of-index u [] rs d in
      let (ranked, missed) = rank_loop u rs docs q.query (terms_in u q.query) rs in
      let sound =
        rank_loop-All u laws rs docs q.query IsApplicable rs (All-both IsApplicable _ rs h found) in
      let different = rank_loop-different u laws rs docs q.query rs d found in
      select_loop-IsChosen sv q (record empty_selection { no_lexical_match = missed })
        (sort_by ranks_before ranked) (record { valid = tt; ordered = tt })
        (All-sort_by (λ x. valid_match sv q (match_of x) ≡ true) ranks_before ranked
          (All-map {P = λ x. IsApplicable x.revision × IsRanked u q.query x}
            (λ x k.
              valid_match_of sv q x k.0.0 k.0.1 k.1.specificity (query_selection sv q x e k.1))
            ranked sound))
        (sorted-Precedes ranked different) tt

  rank_exact_memory-IsChosen :
      (rs : List Revision)
      → (q.memory_id != "") ≡ true
      → All IsApplicable rs
      → IsChosen sv q (rank_exact_memory q rs).selected
  unfolding rank_exact_memory exact_rank
  rank_exact_memory-IsChosen [] e h = record { valid = tt; ordered = tt }
  rank_exact_memory-IsChosen (r ∷ rs) e h = elim (Bool-cases (r.memory_id != q.memory_id)) [
    | inl f ↦ rw (rank_exact_memory, f) (rank_exact_memory-IsChosen rs e h.1)
    | inr f ↦ elim (Bool-cases (int_ltb q.byte_budget (pos (len r.text)))) [
      | inl g ↦ rw (rank_exact_memory, f, g) (record { valid = tt; ordered = tt })
      | inr g ↦ elim (Bool-cases (int_ltb q.token_budget (pos (estimate_tokens (runes r.text))))) [
        | inl k ↦ rw (rank_exact_memory, f, g, k) (record { valid = tt; ordered = tt })
        | inr k ↦
            let valid =
              valid_match_of sv q (exact_rank r) h.0.0 h.0.1 refl
                (exact_selection sv q r e (eq_of_not-ne r.memory_id q.memory_id f)) in
            rw (rank_exact_memory, f, g, k) (record { valid = (valid, tt); ordered = (tt, tt) })
      ]
    ]
  ]

  -- The request selects by a memory id alone or by a query alone.
  abbrev pub IsSingle : Type 0
  IsSingle = ((q.memory_id != "") ≡ true) × (q.query ≡ "") ⊎ (q.memory_id ≡ "")

  -- What the receipt's tests need of a selection from these revisions.
  pub record IsSelected (rs : List Revision) (s : Selection) : Type 0 where
    pub chosen : IsChosen sv q s.selected
    pub bounded : IsBounded q s
    pub complete : (q.query ≡ "") ⊎ (accounted s ≡ length rs)

  pub rank_applicable-IsSelected :
      (rs : List Revision)
      → UnicodeLaws sv.unicode
      → HasRoom q
      → int_leb (pos 1) q.limit ≡ true
      → IsSingle
      → All IsApplicable rs
      → IsPairwise AreDifferent rs
      → IsSelected rs (rank_applicable sv.unicode q rs)
  unfolding rank_applicable
  rank_applicable-IsSelected rs laws room one (inl (given, no_query)) h d =
      rw (rank_applicable, given)
        (record {
          chosen = rank_exact_memory-IsChosen rs given h;
          bounded = rank_exact_memory-IsBounded q rs room one;
          complete = inl no_query;
        })
  rank_applicable-IsSelected rs laws room one (inr no_id) h d =
      let skip = subst (λ i. (i != "") ≡ false) (sym no_id) refl in
      let (bounded, counted) = rank_query-IsBounded sv.unicode q rs room in
      rw (rank_applicable, skip)
        (record {
          chosen = rank_query-IsChosen rs laws no_id h d;
          bounded = bounded;
          complete = inr counted;
        })
