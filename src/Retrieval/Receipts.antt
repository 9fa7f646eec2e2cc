-- ===== src/Retrieval/Receipts.antt =====
-- `validateReceipt` of internal/retrieval/verify.go and the tests it calls. An issue is a constructor
-- in place of its text; `sortedUnique` of the issues is `issue_set`.
use agent_memory_system.Prelude.{
  ℕ, String, Bool, true, false, not, ◌&&◌, ◌||◌, List, [], ◌∷◌, ◌++◌, Option, some, none,
}
use agent_memory_system.Prelude.Tests.{string_eq, nat_eq, ◌==◌, ◌!=◌, if◌then◌else◌, string_ltb}
use agent_memory_system.Prelude.Int.{ℤ, pos, int_eq, int_ltb, int_leb, ◌+ℤ◌}
use agent_memory_system.Prelude.Lists.{length, elem, all}
use agent_memory_system.Prelude.Result.{ok, err}
use agent_memory_system.Prelude.Text.{runes, bytes, len, is_blank, is_space, valid_sha256}
use agent_memory_system.Ledger.Types.{Event, Causality}
use agent_memory_system.Retrieval.Types.{
  result_schema_version, receipt_schema_version, privacy_local_only, Context, Request,
  MemoryReference, Reason, lexical_match, exact_phrase, exact_memory_id, scope_reason, Match,
  ExclusionCounts, Result, Receipt, thread_id_for_context, context_gaps, scope_value_applies,
  scope_specificity, valid_memory_reference,
}
use agent_memory_system.Retrieval.Terms.{
  Unicode, Term, term_eq, term_ltb, lexical_terms, frequencies, frequency_of, estimate_tokens,
}
use agent_memory_system.Retrieval.Normalize.{is_null, normalize_request}
use agent_memory_system.Retrieval.Rank.{has_phrase}
use agent_memory_system.Retrieval.Sets.{is_sorted_unique, sorted_unique, reference_eq}

-- encoding/json and SHA-256 with encoding/hex, as internal/retrieval calls them.
pub record Services : Type 0 where
  pub unicode : Unicode
  pub sha256_hex : List ℕ → String
  pub request_json : Request → Option (List ℕ)
  pub receipt_json : Receipt → Option String

-- `reflect.DeepEqual` of two requests.
unfoldable pub same_request : Request → Request → Bool
same_request a b =
    a.schema_version == b.schema_version
    && a.query == b.query
    && a.memory_id == b.memory_id
    && a.context.agent == b.context.agent
    && a.context.thread_id == b.context.thread_id
    && a.context.session_id == b.context.session_id
    && a.context.repository == b.context.repository
    && a.context.project == b.context.project
    && a.context.task == b.context.task
    && a.context.channel == b.context.channel
    && a.limit == b.limit
    && a.token_budget == b.token_budget
    && a.byte_budget == b.byte_budget

-- `reflect.DeepEqual` of two lists.
abbrev pub same_list {ℓ} : {A : Type ℓ} → (A → A → Bool) → List A → List A → Bool
same_list test [] [] = true
same_list test (x ∷ xs) (y ∷ ys) = test x y && same_list test xs ys
same_list test _ _ = false

abbrev pub same_reason : Reason → Reason → Bool
same_reason lexical_match lexical_match = true
same_reason exact_phrase exact_phrase = true
same_reason exact_memory_id exact_memory_id = true
same_reason (scope_reason k) (scope_reason l) = k == l
same_reason _ _ = false

-- `sourceMatchesContext`.
unfoldable pub source_matches_context : Event → Context → Bool
unfolding thread_id_for_context
source_matches_context e c =
    e.source.agent == c.agent
    && e.source.thread_id == thread_id_for_context c
    && e.source.session_id == c.session_id

abbrev has_no_parents : Option Causality → Bool
has_no_parents none = true
has_no_parents (some c) = false

-- `validMatchKind`.
unfoldable pub valid_match_kind : String → Bool
valid_match_kind kind = kind == "constraint" || kind == "correction" || kind == "directive"

abbrev pub bases : List String
bases =
    "explicit_remember" ∷ "user_correction" ∷ "stable_repetition" ∷ "outcome_evidence"
    ∷ "explicit_user_confirmation" ∷ []

unfoldable pub valid_bases : List String → Bool
unfolding elem
valid_bases [] = true
valid_bases (b ∷ []) = elem b bases
valid_bases (b ∷ c ∷ cs) = elem b bases && string_ltb b c && valid_bases (c ∷ cs)

-- `validEvidenceBasis`.
unfoldable pub valid_evidence_basis : List String → Bool
unfolding valid_bases
valid_evidence_basis bs = not (is_null bs) && valid_bases bs

-- `isSortedUnique` of terms.
unfoldable pub terms_sorted_unique : List Term → Bool
unfolding all is_space term_ltb
terms_sorted_unique [] = true
terms_sorted_unique (t ∷ []) = not (all is_space t)
terms_sorted_unique (t ∷ v ∷ vs) =
    not (all is_space t) && term_ltb t v && terms_sorted_unique (v ∷ vs)

-- `matchPrecedes`.
unfoldable pub match_precedes : Match → Match → Bool
match_precedes a b =
    if a.score != b.score
    then int_ltb b.score a.score
    else if a.scope_specificity != b.scope_specificity
    then int_ltb b.scope_specificity a.scope_specificity
    else string_ltb a.reference.memory_id b.reference.memory_id

-- `validExclusionCounts`.
unfoldable pub valid_exclusion_counts : ExclusionCounts → Bool
valid_exclusion_counts e =
    int_leb (pos 0) e.scope_mismatch
    && int_leb (pos 0) e.no_lexical_match
    && int_leb (pos 0) e.result_limit
    && int_leb (pos 0) e.token_budget
    && int_leb (pos 0) e.byte_budget

abbrev pub issue_if : Bool → String → List String
issue_if true issue = issue ∷ []
issue_if false issue = []

-- The sums of a list of matches.
abbrev pub total_tokens : ℤ → List Match → ℤ
total_tokens n [] = n
total_tokens n (m ∷ ms) = total_tokens (n +ℤ m.estimated_tokens) ms

abbrev pub total_bytes : ℤ → List Match → ℤ
total_bytes n [] = n
total_bytes n (m ∷ ms) = total_bytes (n +ℤ m.bytes) ms

module _ (u : Unicode) where
  -- The terms of a match occur in the query and in the text.
  unfoldable pub terms_occur : Request → Match → List Term → Bool
  unfolding lexical_terms frequencies frequency_of runes
  terms_occur q m [] = true
  terms_occur q m (t ∷ ts) =
      not (
        frequency_of t (frequencies (lexical_terms u (runes q.query))) == 0
        || frequency_of t (frequencies (lexical_terms u (runes m.text))) == 0)
      && terms_occur q m ts

  -- `validMatchSelection`.
  unfoldable pub valid_match_selection : Match → Request → Bool
  unfolding terms_sorted_unique terms_occur has_phrase
  valid_match_selection m q =
      if int_leb m.score (pos 0)
      then false
      else if q.memory_id != ""
      then m.reference.memory_id == q.memory_id
        && m.score == pos 1
        && is_null m.matched_terms
        && same_list same_reason m.selection_rationale
            (exact_memory_id ∷ scope_reason m.scope_kind ∷ [])
      else terms_sorted_unique m.matched_terms
        && terms_occur q m m.matched_terms
        && same_list same_reason m.selection_rationale (
            lexical_match
            ∷ scope_reason m.scope_kind
            ∷ (if has_phrase u q.query m.text then exact_phrase ∷ [] else []))

module _ (sv : Services) where
  -- Whether normalizing succeeds and changes nothing.
  unfoldable pub is_normal : Request → Bool
  unfolding normalize_request same_request
  is_normal q = elim (normalize_request sv.unicode q) [ ok n ↦ same_request n q | err e ↦ false ]

  -- `digestString`.
  unfoldable pub digest_string : String → String
  unfolding bytes
  digest_string value = sv.sha256_hex (bytes value)

  -- `selectorDigest`.
  unfoldable pub selector_digest : Request → String
  unfolding bytes
  selector_digest q =
      if q.memory_id != ""
      then sv.sha256_hex (bytes "memory_id" ++ (0 ∷ bytes q.memory_id))
      else sv.sha256_hex (bytes "query" ++ (0 ∷ bytes q.query))

  -- What `json.Marshal` returns where its error is not looked at.
  abbrev pub request_bytes : Option (List ℕ) → List ℕ
  request_bytes none = []
  request_bytes (some text) = text

  -- The tests on one match.
  unfoldable pub valid_match : Request → Match → Bool
  unfolding valid_memory_reference digest_string is_blank len runes estimate_tokens valid_match_kind
      valid_evidence_basis scope_value_applies scope_specificity valid_match_selection
  valid_match q m =
      valid_memory_reference m.reference
      && m.text_sha256 == digest_string m.text
      && not (is_blank m.text)
      && m.bytes == pos (len m.text)
      && m.estimated_tokens == pos (estimate_tokens (runes m.text))
      && valid_match_kind m.kind
      && valid_evidence_basis m.evidence_basis
      && scope_value_applies m.scope_kind m.scope_value q.context
      && m.scope_specificity == pos (scope_specificity m.scope_kind)
      && valid_match_selection sv.unicode m q

  -- `index > 0 && !matchPrecedes(result.Selected[index-1], match)`.
  abbrev pub out_of_order : Option Match → Match → Bool
  out_of_order none m = false
  out_of_order (some previous) m = not (match_precedes previous m)

  -- The loop over `result.Selected`, with the match before and the references seen.
  unfoldable pub check_matches :
      Request → Option Match → List MemoryReference → List Match → List String
  unfolding valid_match match_precedes elem
  check_matches q previous seen [] = []
  check_matches q previous seen (m ∷ ms) =
      issue_if (not (valid_match q m)) "retrieval result contains an invalid memory match"
      ++ (issue_if (out_of_order previous m) "retrieval result ordering is invalid"
          ++ (issue_if (elem m.reference seen) "retrieval result repeats a memory match"
              ++ check_matches q (some m) (m.reference ∷ seen) ms))

  -- The tests of `validateReceipt` on the envelope, the event and the request.
  unfoldable pub envelope_issues : Event → Receipt → List String
  unfolding source_matches_context digest_string normalize_request same_request
  envelope_issues e r =
      issue_if
        (r.schema_version != receipt_schema_version
          || r.receipt_id != e.event_id
          || r.result.receipt_id != e.event_id
          || r.privacy != privacy_local_only)
        "receipt envelope is invalid"
      ++ (issue_if (r.recorded_at != e.recorded_at || e.observed_at != e.recorded_at)
            "receipt timestamps do not match the evidence event"
          ++ (issue_if
                (not (source_matches_context e r.request.context)
                  || not (has_no_parents e.causality))
                "retrieval event context or causality is invalid"
              ++ (issue_if
                    (r.portable_root == ""
                      || r.portable_root_sha256 != digest_string r.portable_root
                      || e.source.source_path_hash != r.portable_root_sha256)
                    "portable repository identity is invalid"
                  ++ (issue_if (not (is_normal r.request)) "normalized retrieval request is invalid"
                      ++ issue_if
                          (r.request_sha256
                            != sv.sha256_hex (request_bytes (sv.request_json r.request)))
                          "retrieval request hash is invalid"))))

  -- The tests on the status of the result; `validDigest` looks for 64 lowercase digits.
  unfoldable pub status_issues : Result → List String
  unfolding valid_sha256
  status_issues r =
      if r.status == "completed"
      then issue_if
          (not (is_null r.repository_issues) || not (valid_sha256 r.repository_state_sha256))
          "completed retrieval has invalid repository state"
        ++ issue_if (r.exclusions.scope_mismatch +ℤ r.applicable_memories != r.active_memories)
            "completed retrieval has invalid scope accounting"
      else if r.status == "blocked"
      then issue_if
          (is_null r.repository_issues
            || r.repository_state_sha256 != ""
            || not (is_null r.selected))
          "blocked retrieval has invalid repository state"
      else "retrieval result has an invalid status" ∷ []

  -- The tests on the result's envelope, its counts and its status.
  unfoldable pub result_issues : Receipt → List String
  unfolding selector_digest is_sorted_unique context_gaps valid_exclusion_counts status_issues
  result_issues r =
      issue_if
        (r.result.schema_version != result_schema_version
          || r.result.privacy != privacy_local_only
          || r.result.selector_sha256 != selector_digest r.request
          || r.result.token_budget != r.request.token_budget
          || r.result.byte_budget != r.request.byte_budget
          || not (is_sorted_unique r.result.repository_issues)
          || not (same_list (λ s t. s == t) r.result.context_gaps (context_gaps r.request.context)))
        "retrieval result envelope is invalid"
      ++ (issue_if
            (int_ltb r.result.active_memories (pos 0)
              || int_ltb r.result.applicable_memories (pos 0)
              || int_ltb r.result.active_memories r.result.applicable_memories
              || not (valid_exclusion_counts r.result.exclusions))
            "retrieval result counts are invalid"
          ++ status_issues r.result)

  -- The tests on the budgets and on the counts of a query.
  unfoldable pub accounting_issues : Receipt → List String
  accounting_issues r =
      let tokens = total_tokens (pos 0) r.result.selected in
      let bytes = total_bytes (pos 0) r.result.selected in
      issue_if
        (tokens != r.result.selected_estimated_tokens
          || bytes != r.result.selected_bytes
          || int_ltb r.result.token_budget tokens
          || int_ltb r.result.byte_budget bytes
          || int_ltb r.request.limit (pos (length r.result.selected)))
        "retrieval result budget accounting is invalid"
      ++ issue_if
          (r.result.status == "completed"
            && r.request.query != ""
            && r.result.applicable_memories
              != r.result.exclusions.no_lexical_match
                +ℤ pos (length r.result.selected)
                +ℤ r.result.exclusions.result_limit
                +ℤ r.result.exclusions.token_budget
                +ℤ r.result.exclusions.byte_budget)
          "retrieval result exclusion accounting is invalid"

  -- `validateReceipt`.
  unfoldable pub validate_receipt : Event → Receipt → List String
  unfolding sorted_unique envelope_issues result_issues check_matches accounting_issues
  validate_receipt e r = sorted_unique (
      envelope_issues e r
      ++ (result_issues r
          ++ (check_matches r.request none [] r.result.selected ++ accounting_issues r)))
