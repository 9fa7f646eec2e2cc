-- ===== src/Retrieval/Selected.antt =====
-- The selection stays within the request's limits, and its counters account for every revision.
use agent_memory_system.Prelude.{
  ℕ, suc, ◌+◌, String, true, false, List, [], ◌∷◌, ◌++◌, ◌≡◌, refl, ap, ◌∙◌, inl, inr, arith,
}
use agent_memory_system.Prelude.Tests.{string_eq, ◌!=◌, Bool-cases, Option-cases}
use agent_memory_system.Prelude.Int.{ℤ, pos, negsuc, int_leb, int_ltb, ◌+ℤ◌}
use agent_memory_system.Prelude.Lists.{length, length-append}
use agent_memory_system.Prelude.Order.{sort_by, length-sort_by}
use agent_memory_system.Prelude.Text.{runes, len}
use agent_memory_system.Retrieval.Types.{Context, Request, Revision, Match}
use agent_memory_system.Retrieval.Terms.{
  Unicode, Frequencies, lexical_terms, frequencies, estimate_tokens,
}
use agent_memory_system.Retrieval.Receipts.{total_tokens, total_bytes}
use agent_memory_system.Retrieval.Rank.{
  split_applicable, RankedRevision, DocumentTerms, Selection, empty_selection, rank_revision,
  rank_loop, ranks_before, match_of, select_one, select_loop, exact_rank, rank_exact_memory,
  rank_query, index_documents,
}

total_tokens-append :
    (n : ℤ) (ms : List Match) (m : Match)
    → total_tokens n (ms ++ (m ∷ [])) ≡ total_tokens n ms +ℤ m.estimated_tokens
total_tokens-append n [] m = refl
total_tokens-append n (k ∷ ms) m = total_tokens-append (n +ℤ k.estimated_tokens) ms m

total_bytes-append :
    (n : ℤ) (ms : List Match) (m : Match)
    → total_bytes n (ms ++ (m ∷ [])) ≡ total_bytes n ms +ℤ m.bytes
total_bytes-append n [] m = refl
total_bytes-append n (k ∷ ms) m = total_bytes-append (n +ℤ k.bytes) ms m

-- The totals are those of the selected matches and within the budgets, and there are at most as many
-- matches as the limit says.
pub record IsBounded (q : Request) (s : Selection) : Type 0 where
  pub tokens : total_tokens (pos 0) s.selected ≡ pos s.tokens
  pub bytes : total_bytes (pos 0) s.selected ≡ pos s.bytes
  pub limit : int_leb (pos (length s.selected)) q.limit ≡ true
  pub token_budget : int_leb (pos s.tokens) q.token_budget ≡ true
  pub byte_budget : int_leb (pos s.bytes) q.byte_budget ≡ true

-- The revisions that the selection has dealt with.
abbrev pub accounted : Selection → ℕ
accounted s =
    s.no_lexical_match + length s.selected + s.result_limit + s.token_budget + s.byte_budget

int_leb-suc : (n : ℕ) (z : ℤ) → int_leb z (pos n) ≡ false → int_leb (pos (suc n)) z ≡ true
int_leb-suc n (pos k) h = ground arith
int_leb-suc n (negsuc k) h = cc

length-concat : (ms : List Match) (m : Match) → length (ms ++ (m ∷ [])) ≡ suc (length ms)
length-concat ms m = omega (arith, length-append ms (m ∷ []))

-- The exclusion counters do not matter to the bounds.
IsBounded-counters :
    (q : Request) (s : Selection) (n l t b : ℕ)
    → IsBounded q s
    → IsBounded q
        (record s { no_lexical_match = n; result_limit = l; token_budget = t; byte_budget = b })
IsBounded-counters q s n l t b h = record {
  tokens = h.tokens;
  bytes = h.bytes;
  limit = h.limit;
  token_budget = h.token_budget;
  byte_budget = h.byte_budget;
}

select_one-IsBounded :
    (q : Request) (s : Selection) (r : RankedRevision)
    → IsBounded q s
    → IsBounded q (select_one q s r) × (accounted (select_one q s r) ≡ suc (accounted s))
unfolding select_one match_of
select_one-IsBounded q s r h =
    let b = len r.revision.text in
    let t = estimate_tokens (runes r.revision.text) in
    elim (Bool-cases (int_leb q.limit (pos (length s.selected)))) [
      | inl e ↦ rw e (IsBounded-counters q s _ _ _ _ h, omega arith)
      | inr e ↦ elim (Bool-cases (int_ltb q.byte_budget (pos (s.bytes + b)))) [
        | inl f ↦ rw (e, f) (IsBounded-counters q s _ _ _ _ h, omega arith)
        | inr f ↦ elim (Bool-cases (int_ltb q.token_budget (pos (s.tokens + t)))) [
          | inl g ↦ rw (e, f, g) (IsBounded-counters q s _ _ _ _ h, omega arith)
          | inr g ↦
              rw (e, f, g)
                (
                  record {
                    tokens =
                        total_tokens-append (pos 0) s.selected (match_of r)
                        ∙ ap (λ n. n +ℤ pos t) h.tokens;
                    bytes =
                        total_bytes-append (pos 0) s.selected (match_of r)
                        ∙ ap (λ n. n +ℤ pos b) h.bytes;
                    limit =
                        rw (length-concat s.selected (match_of r))
                          (int_leb-suc (length s.selected) q.limit e);
                    token_budget = ground (arith, g);
                    byte_budget = ground (arith, f);
                  },
                  omega (arith, length-append s.selected (match_of r ∷ [])),
                )
        ]
      ]
    ]

select_loop-IsBounded :
    (q : Request) (s : Selection) (rs : List RankedRevision)
    → IsBounded q s
    → IsBounded q (select_loop q s rs) × (accounted (select_loop q s rs) ≡ accounted s + length rs)
unfolding select_loop
select_loop-IsBounded q s [] h = (h, omega arith)
select_loop-IsBounded q s (r ∷ rs) h =
    let (one, counted) = select_one-IsBounded q s r h in
    let (rest, all_counted) = select_loop-IsBounded q (select_one q s r) rs one in
    (rest, omega (arith, counted, all_counted))

-- A request's limits are at least zero.
abbrev pub HasRoom : Request → Type 0
HasRoom q =
    (int_leb (pos 0) q.limit ≡ true)
    × (int_leb (pos 0) q.token_budget ≡ true)
    × (int_leb (pos 0) q.byte_budget ≡ true)

empty_selection-IsBounded : (q : Request) → HasRoom q → IsBounded q empty_selection
empty_selection-IsBounded q h = record {
  tokens = refl;
  bytes = refl;
  limit = h.0;
  token_budget = h.1;
  byte_budget = h.2;
}

-- Every revision that `split_applicable` sees applies or is counted.
pub split_applicable_counts :
    (c : Context) (rs : List Revision)
    → length (split_applicable c rs).0 + (split_applicable c rs).1 ≡ length rs
unfolding split_applicable
split_applicable_counts c [] = refl
split_applicable_counts c (r ∷ rs) = ground (arith, split_applicable_counts c rs)

rank_loop_counts :
    (u : Unicode) (known : List Revision) (docs : DocumentTerms) (query : String) (fs : Frequencies)
    (rs : List Revision)
    → length (rank_loop u known docs query fs rs).0 + (rank_loop u known docs query fs rs).1
      ≡ length rs
unfolding rank_loop
rank_loop_counts u known docs query fs [] = refl
rank_loop_counts u known docs query fs (r ∷ rs) =
    elim (Option-cases (rank_revision u known docs query fs r)) [
      | inl e ↦ rw (rank_loop, e) (omega (arith, rank_loop_counts u known docs query fs rs))
      | inr (x, e) ↦ rw (rank_loop, e) (omega (arith, rank_loop_counts u known docs query fs rs))
    ]

-- Ranking a query keeps the selection within the request's limit and budgets, and each applicable
-- revision is selected or counted under exactly one reason: no lexical match, the limit of results,
-- the token budget or the byte budget.
pub rank_query-IsBounded :
    (u : Unicode) (q : Request) (rs : List Revision)
    → HasRoom q
    → IsBounded q (rank_query u q rs) × (accounted (rank_query u q rs) ≡ length rs)
unfolding rank_query
rank_query-IsBounded u q rs h =
    let fs = frequencies (lexical_terms u (runes q.query)) in
    let docs = index_documents u [] rs in
    let (ranked, missed) = rank_loop u rs docs q.query fs rs in
    let (bounded, counted) =
      select_loop-IsBounded q (record empty_selection { no_lexical_match = missed })
        (sort_by ranks_before ranked)
        (IsBounded-counters q empty_selection missed 0 0 0 (empty_selection-IsBounded q h)) in
    (
      bounded,
      omega (
        arith,
        counted,
        length-sort_by ranks_before ranked,
        rank_loop_counts u rs docs q.query fs rs,
      ),
    )

-- The selection of an exact memory is within the request's limits too, where the limit is not zero.
pub rank_exact_memory-IsBounded :
    (q : Request) (rs : List Revision)
    → HasRoom q
    → int_leb (pos 1) q.limit ≡ true
    → IsBounded q (rank_exact_memory q rs)
unfolding rank_exact_memory match_of exact_rank
rank_exact_memory-IsBounded q [] h one = empty_selection-IsBounded q h
rank_exact_memory-IsBounded q (r ∷ rs) h one =
    let empty = empty_selection-IsBounded q h in
    elim (Bool-cases (r.memory_id != q.memory_id)) [
      | inl e ↦ rw e (rank_exact_memory-IsBounded q rs h one)
      | inr e ↦ elim (Bool-cases (int_ltb q.byte_budget (pos (len r.text)))) [
        | inl f ↦ rw (e, f) (IsBounded-counters q empty_selection 0 0 0 1 empty)
        | inr f ↦
            elim (Bool-cases (int_ltb q.token_budget (pos (estimate_tokens (runes r.text))))) [
              | inl g ↦ rw (e, f, g) (IsBounded-counters q empty_selection 0 0 1 0 empty)
              | inr g ↦
                  rw (e, f, g)
                    (record {
                      tokens = ap pos (omega arith);
                      bytes = ap pos (omega arith);
                      limit = one;
                      token_budget = ground (arith, g);
                      byte_budget = ground (arith, f);
                    })
            ]
      ]
    ]
