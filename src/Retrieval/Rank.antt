-- ===== src/Retrieval/Rank.antt =====
-- `rankRevisions` and `rankExactMemory` of internal/retrieval/search.go. The loops over a map add up
-- a score and collect terms that are sorted, so their order is that of the first occurrences.
use agent_memory_system.Prelude.{
  ℕ, suc, ◌+◌, ◌-◌, ◌*◌, ◌/◌, String, Bool, not, ◌&&◌, ◌||◌, List, [], ◌∷◌, ◌++◌, Option, some,
  none,
}
use agent_memory_system.Prelude.Tests.{
  string_eq, nat_eq, ◌==◌, ◌!=◌, if◌then◌else◌, ltb, string_ltb,
}
use agent_memory_system.Prelude.Int.{pos, int_ltb, int_leb}
use agent_memory_system.Prelude.Lists.{length}
use agent_memory_system.Prelude.Order.{sort_by}
use agent_memory_system.Prelude.Text.{runes, len}
use agent_memory_system.Retrieval.Types.{
  Context, Request, Revision, Reason, lexical_match, exact_phrase, exact_memory_id, scope_reason,
  Match, scope_value_applies, scope_specificity,
}
use agent_memory_system.Retrieval.Terms.{
  Unicode, Term, term_ltb, lexical_terms, normalize_phrase, Frequencies, frequency_of, frequencies,
  contains, estimate_tokens,
}
use agent_memory_system.Retrieval.Normalize.{is_null}

-- `scopeApplies`.
unfoldable pub scope_applies : Revision → Context → Bool
unfolding scope_value_applies
scope_applies r c = scope_value_applies r.scope_kind r.scope_value c

-- The loop that collects `applicable` and counts `ScopeMismatch`.
unfoldable pub split_applicable : Context → List Revision → List Revision × ℕ
unfolding scope_applies
split_applicable c [] = ([], 0)
split_applicable c (r ∷ rs) =
    let (applicable, mismatch) = split_applicable c rs in
    if scope_applies r c then (r ∷ applicable, mismatch) else (applicable, suc mismatch)

pub record RankedRevision : Type 0 where
  pub revision : Revision
  pub score : ℕ
  pub matched_terms : List Term
  pub scope_specificity : ℕ
  pub selection_rationale : List Reason

-- `documentTerms`, the latest entry first.
abbrev pub DocumentTerms : Type 0
DocumentTerms = List (String × Frequencies)

unfoldable pub terms_of : String → DocumentTerms → Frequencies
terms_of id [] = []
terms_of id ((i, fs) ∷ docs) = let rest = terms_of id docs in if id == i then fs else rest

abbrev cap : ℕ → ℕ → ℕ
cap limit n = if ltb limit n then limit else n

-- `idf * tf * queryCount` of a term.
unfoldable pub term_score : ℕ → ℕ → ℕ → ℕ → ℕ
term_score applicable document_frequency tf query_count =
    let idf = 1000 + (applicable - document_frequency) * 1000 / (document_frequency + 1) in
    idf * cap 3 tf * cap 2 query_count

unfoldable pub kind_score : String → ℕ
kind_score kind =
    if kind == "correction"
    then 300
    else if kind == "constraint"
    then 200
    else if kind == "directive"
    then 100
    else 0

unfoldable pub basis_score : List String → ℕ
basis_score [] = 0
basis_score (b ∷ bs) =
    (if b == "user_correction" || b == "outcome_evidence" then 50 else 0) + basis_score bs

module _ (u : Unicode) where
  unfoldable pub index_documents : DocumentTerms → List Revision → DocumentTerms
  unfolding lexical_terms frequencies
  index_documents docs [] = docs
  index_documents docs (r ∷ rs) =
      index_documents ((r.revision_id, frequencies (lexical_terms u (runes r.text))) ∷ docs) rs

  -- `documentFrequencies[term]`.
  unfoldable pub document_frequency : Term → List Revision → ℕ
  unfolding lexical_terms frequencies frequency_of
  document_frequency term [] = 0
  document_frequency term (r ∷ rs) =
      (if ltb 0 (frequency_of term (frequencies (lexical_terms u (runes r.text)))) then 1 else 0)
      + document_frequency term rs

  -- The loop over `queryFrequency`: `matched` and `score`.
  unfoldable pub match_terms : List Revision → Frequencies → Frequencies → List Term × ℕ
  unfolding term_score document_frequency frequency_of
  match_terms applicable doc [] = ([], 0)
  match_terms applicable doc ((term, query_count) ∷ query) =
      let (matched, score) = match_terms applicable doc query in
      let tf = frequency_of term doc in
      if tf == 0 then (matched, score) else (
        term ∷ matched,
        term_score (length applicable) (document_frequency term applicable) tf query_count + score,
      )

  -- `normalizedQuery != ""` and the text contains it.
  unfoldable pub has_phrase : String → String → Bool
  unfolding normalize_phrase contains
  has_phrase query text =
      let normalized = normalize_phrase u (runes query) in
      not (is_null normalized) && contains normalized (normalize_phrase u (runes text))

  -- What a revision's phrase, scope, kind and basis add to its score.
  unfoldable pub bonus : String → Revision → ℕ
  unfolding has_phrase scope_specificity kind_score basis_score
  bonus query r =
      (if has_phrase query r.text then 8000 else 0)
      + scope_specificity r.scope_kind * 250
      + kind_score r.kind
      + basis_score r.evidence_basis

  unfoldable pub rationale : String → Revision → List Reason
  unfolding has_phrase
  rationale query r =
      lexical_match
      ∷ scope_reason r.scope_kind
      ∷ (if has_phrase query r.text then exact_phrase ∷ [] else [])

  -- The body of the ranking loop.
  unfoldable pub rank_revision :
      List Revision → DocumentTerms → String → Frequencies → Revision → Option RankedRevision
  unfolding match_terms terms_of bonus rationale scope_specificity sort_by term_ltb
  rank_revision applicable docs query query_frequency r =
      let (matched, score) = match_terms applicable (terms_of r.revision_id docs) query_frequency in
      if is_null matched
      then none
      else some (record {
        revision = r;
        score = score + bonus query r;
        matched_terms = sort_by term_ltb matched;
        scope_specificity = scope_specificity r.scope_kind;
        selection_rationale = rationale query r;
      })

  -- The ranking loop: `ranked`, and the count `NoLexicalMatch`.
  unfoldable pub rank_loop :
      List Revision → DocumentTerms → String → Frequencies → List Revision → List RankedRevision × ℕ
  unfolding rank_revision
  rank_loop applicable docs query query_frequency [] = ([], 0)
  rank_loop applicable docs query query_frequency (r ∷ rs) =
      let (ranked, missed) = rank_loop applicable docs query query_frequency rs in
      elim (rank_revision applicable docs query query_frequency r) [
        | none ↦ (ranked, suc missed)
        | some x ↦ (x ∷ ranked, missed)
      ]

-- The test of the sort: score and specificity falling, then the memory id rising.
unfoldable pub ranks_before : RankedRevision → RankedRevision → Bool
ranks_before a b =
    if a.score != b.score
    then ltb b.score a.score
    else if a.scope_specificity != b.scope_specificity
    then ltb b.scope_specificity a.scope_specificity
    else string_ltb a.revision.memory_id b.revision.memory_id

-- What the selection adds to the result. The counters start at zero and only grow.
pub record Selection : Type 0 where
  pub selected : List Match
  pub tokens : ℕ
  pub bytes : ℕ
  pub no_lexical_match : ℕ
  pub result_limit : ℕ
  pub token_budget : ℕ
  pub byte_budget : ℕ

abbrev pub empty_selection : Selection
empty_selection = record {
  selected = [];
  tokens = 0;
  bytes = 0;
  no_lexical_match = 0;
  result_limit = 0;
  token_budget = 0;
  byte_budget = 0;
}

-- The match that a revision becomes.
unfoldable pub match_of : RankedRevision → Match
unfolding len estimate_tokens runes
match_of r = record {
  reference = record { memory_id = r.revision.memory_id; revision_id = r.revision.revision_id };
  kind = r.revision.kind;
  scope_kind = r.revision.scope_kind;
  scope_value = r.revision.scope_value;
  evidence_basis = r.revision.evidence_basis;
  text = r.revision.text;
  text_sha256 = r.revision.text_sha256;
  score = pos r.score;
  matched_terms = r.matched_terms;
  estimated_tokens = pos (estimate_tokens (runes r.revision.text));
  bytes = pos (len r.revision.text);
  scope_specificity = pos r.scope_specificity;
  selection_rationale = r.selection_rationale;
}

-- The body of the selection loop.
unfoldable pub select_one : Request → Selection → RankedRevision → Selection
unfolding match_of len estimate_tokens runes
select_one request s r =
    let bytes = len r.revision.text in
    let tokens = estimate_tokens (runes r.revision.text) in
    if int_leb request.limit (pos (length s.selected))
    then record s { result_limit = suc s.result_limit }
    else if int_ltb request.byte_budget (pos (s.bytes + bytes))
    then record s { byte_budget = suc s.byte_budget }
    else if int_ltb request.token_budget (pos (s.tokens + tokens))
    then record s { token_budget = suc s.token_budget }
    else record s {
      selected = s.selected ++ (match_of r ∷ []);
      tokens = s.tokens + tokens;
      bytes = s.bytes + bytes;
    }

unfoldable pub select_loop : Request → Selection → List RankedRevision → Selection
unfolding select_one
select_loop request s [] = s
select_loop request s (r ∷ rs) = select_loop request (select_one request s r) rs

-- The revision that `rankExactMemory` selects, as a ranked one.
unfoldable pub exact_rank : Revision → RankedRevision
unfolding scope_specificity
exact_rank r = record {
  revision = r;
  score = 1;
  matched_terms = [];
  scope_specificity = scope_specificity r.scope_kind;
  selection_rationale = exact_memory_id ∷ scope_reason r.scope_kind ∷ [];
}

-- `rankExactMemory`.
unfoldable pub rank_exact_memory : Request → List Revision → Selection
unfolding exact_rank match_of len estimate_tokens runes
rank_exact_memory request [] = empty_selection
rank_exact_memory request (r ∷ rs) =
    let rest = rank_exact_memory request rs in
    let bytes = len r.text in
    let tokens = estimate_tokens (runes r.text) in
    if r.memory_id != request.memory_id
    then rest
    else if int_ltb request.byte_budget (pos bytes)
    then record empty_selection { byte_budget = 1 }
    else if int_ltb request.token_budget (pos tokens)
    then record empty_selection { token_budget = 1 }
    else record empty_selection {
      selected = match_of (exact_rank r) ∷ [];
      tokens = tokens;
      bytes = bytes;
    }

-- `rankRevisions` on a query, behind the split by scope.
unfoldable pub rank_query : Unicode → Request → List Revision → Selection
unfolding lexical_terms frequencies index_documents rank_loop sort_by ranks_before select_loop
rank_query u request applicable =
    let query_frequency = frequencies (lexical_terms u (runes request.query)) in
    let docs = index_documents u [] applicable in
    let (ranked, missed) = rank_loop u applicable docs request.query query_frequency applicable in
    select_loop request (record empty_selection { no_lexical_match = missed })
      (sort_by ranks_before ranked)

-- `rankRevisions` behind the split by scope.
unfoldable pub rank_applicable : Unicode → Request → List Revision → Selection
unfolding rank_exact_memory rank_query
rank_applicable u request applicable =
    if request.memory_id != ""
    then rank_exact_memory request applicable
    else rank_query u request applicable
