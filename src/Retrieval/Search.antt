-- ===== src/Retrieval/Search.antt =====
-- `Search` of internal/retrieval/search.go: the result, its receipt and the event that records it.
use Prim.Native.String.{◌++◌ as str_append}
use agent_memory_system.Prelude.{
  ℕ, zero, suc, String, Bool, true, false, not, ◌&&◌, List, [], ◌∷◌, ◌++◌, Option, some, none,
}
use agent_memory_system.Prelude.Tests.{string_eq, nat_eq, if◌then◌else◌}
use agent_memory_system.Prelude.Int.{pos}
use agent_memory_system.Prelude.Lists.{length}
use agent_memory_system.Prelude.Result.{ok, err, ◌>>=◌, ◌>>◌, fail_if, wrap}
use agent_memory_system.Prelude.Result as Outcome
use agent_memory_system.Prelude.Text.{bytes, is_blank}
use agent_memory_system.Ledger.Types.{Event, Time, schema_version_v1alpha2}
use agent_memory_system.Ledger.Blobs.{inline_payload}
use agent_memory_system.Retrieval.Types.{
  result_schema_version, receipt_schema_version, privacy_local_only, Context, Request, Revision,
  Result, Receipt, Loaded, Roots, separate, overlapping, unresolved, thread_id_for_context,
  context_gaps,
}
use agent_memory_system.Retrieval.Normalize.{RequestError, normalize_request, is_null}
use agent_memory_system.Retrieval.Rank.{split_applicable, rank_applicable}
use agent_memory_system.Retrieval.Receipts.{Services, digest_string, selector_digest}
use agent_memory_system.Retrieval.Sets.{sorted_unique}

-- What `Store.Append` reports.
pub data AppendError : Type 0 where
  writer_locked append_failed : AppendError

abbrev pub is_locked : AppendError → Bool
is_locked writer_locked = true
is_locked append_failed = false

-- `attempt == 5`: no attempts are left.
abbrev pub is_last : ℕ → Bool
is_last zero = true
is_last (suc budget) = false

-- The rest of the loop's body behind an attempt.
abbrev pub after_attempt :
    {S : Type 0}
    → ℕ
    → (AppendError → S → S × Outcome.Result AppendError (Unit {0}))
    → S × Outcome.Result AppendError (Unit {0})
    → S × Outcome.Result AppendError (Unit {0})
after_attempt budget next (t, ok done) = (t, ok tt)
after_attempt budget next (t, err e) = elim (is_locked e && not (is_last budget)) [
  | true ↦ next e t
  | false ↦ (t, err e)
]

-- `appendEvidenceWithRetry` behind `attempts` failures, over the state of the store; the pauses
-- between the attempts are left out. `budget` is how many attempts are left.
unfoldable pub append_with_retry :
    {S : Type 0}
    → (S → S × Outcome.Result AppendError (Unit {0}))
    → ℕ
    → AppendError
    → S
    → S × Outcome.Result AppendError (Unit {0})
append_with_retry append zero last s = (s, err last)
append_with_retry append (suc budget) last s =
    after_attempt budget (append_with_retry append budget) (append s)

-- `appendEvidenceWithRetry`: six attempts.
unfoldable pub append_evidence_with_retry :
    {S : Type 0}
    → (S → S × Outcome.Result AppendError (Unit {0}))
    → S
    → S × Outcome.Result AppendError (Unit {0})
unfolding append_with_retry
append_evidence_with_retry append s = append_with_retry append 6 append_failed s

-- What `Search` reads besides the request: the root as given and made absolute, the clock, the id of
-- NewEventID, the comparison of the roots, the repository and the id of the device.
pub record SearchIo : Type 0 where
  pub portable_root : String
  pub absolute_root : Option String
  pub now : Time
  pub random_id : Option String
  pub roots : Roots
  pub loaded : Loaded
  pub device_id : String

pub data SearchError : Type 0 where
  bad_request : RequestError → SearchError
  no_portable_root no_event_id request_not_encoded receipt_not_encoded : SearchError

abbrev pub or_error : {A : Type 0} → Option A → SearchError → Outcome.Result SearchError A
or_error none e = err e
or_error (some a) e = ok a

abbrev pub blocked : Result → List String → Result
blocked result issues = record result { status = "blocked"; repository_issues = issues }

module _ (sv : Services) where
  -- `repositoryStateDigest`, the join of the identities written out.
  unfoldable pub state_identities : List Revision → List ℕ
  unfolding bytes
  state_identities [] = []
  state_identities (r ∷ rs) =
      (10 ∷ bytes r.memory_id) ++ ((0 ∷ bytes r.revision_id) ++ state_identities rs)

  unfoldable pub repository_state_digest : List Revision → String
  unfolding bytes state_identities
  repository_state_digest rs =
      sv.sha256_hex (bytes "portable-memory-repository/v1alpha1" ++ state_identities rs)

  -- The result as `Search` starts it.
  unfoldable pub start_result : Request → String → Result
  unfolding selector_digest context_gaps
  start_result q receipt_id = record {
    schema_version = result_schema_version;
    receipt_id = receipt_id;
    status = "completed";
    selector_sha256 = selector_digest sv q;
    repository_state_sha256 = "";
    repository_issues = [];
    active_memories = pos 0;
    applicable_memories = pos 0;
    selected = [];
    selected_estimated_tokens = pos 0;
    selected_bytes = pos 0;
    token_budget = q.token_budget;
    byte_budget = q.byte_budget;
    exclusions = record {
      scope_mismatch = pos 0;
      no_lexical_match = pos 0;
      result_limit = pos 0;
      token_budget = pos 0;
      byte_budget = pos 0;
    };
    context_gaps = context_gaps q.context;
    privacy = privacy_local_only;
  }

  -- `rankRevisions`: what it stores into the result.
  unfoldable pub rank_revisions : Request → List Revision → Result → Result
  unfolding split_applicable rank_applicable
  rank_revisions q revisions result =
      let (applicable, mismatch) = split_applicable q.context revisions in
      let s = rank_applicable sv.unicode q applicable in
      record result {
        applicable_memories = pos (length applicable);
        selected = s.selected;
        selected_estimated_tokens = pos s.tokens;
        selected_bytes = pos s.bytes;
        exclusions = record {
          scope_mismatch = pos mismatch;
          no_lexical_match = pos s.no_lexical_match;
          result_limit = pos s.result_limit;
          token_budget = pos s.token_budget;
          byte_budget = pos s.byte_budget;
        };
      }

  -- The branches on the roots and on the issues of the repository.
  unfoldable pub fill_result : Request → Roots → Loaded → Result → Result
  unfolding sorted_unique repository_state_digest rank_revisions
  fill_result q overlapping loaded result = blocked result ("storage_roots_not_separate" ∷ [])
  fill_result q unresolved loaded result = blocked result ("storage_roots_unresolved" ∷ [])
  fill_result q separate loaded result =
      let counted = record result { active_memories = pos loaded.active_memories } in
      if is_null loaded.issues
      then rank_revisions q loaded.revisions
          (record counted { repository_state_sha256 = repository_state_digest loaded.revisions })
      else blocked counted (sorted_unique loaded.issues)

  -- The receipt that Search records.
  unfoldable pub make_receipt : SearchIo → Request → String → String → List ℕ → Receipt
  unfolding start_result fill_result digest_string
  make_receipt io q root receipt_id encoded = record {
    schema_version = receipt_schema_version;
    receipt_id = receipt_id;
    recorded_at = io.now;
    portable_root = root;
    portable_root_sha256 = digest_string sv root;
    request = q;
    request_sha256 = sv.sha256_hex encoded;
    result = fill_result q io.roots io.loaded (start_result q receipt_id);
    privacy = privacy_local_only;
  }

  -- The event of `appendReceiptEvent`.
  unfoldable pub receipt_event : SearchIo → Receipt → String → Context → Event
  unfolding inline_payload thread_id_for_context
  receipt_event io r content c = record {
    schema_version = schema_version_v1alpha2;
    event_id = r.receipt_id;
    kind = "memory_retrieval";
    observed_at = r.recorded_at;
    recorded_at = r.recorded_at;
    source = record {
      agent = c.agent;
      adapter = "agentmem-retrieval";
      adapter_version = "v1alpha1";
      device_id = io.device_id;
      os = "";
      thread_id = thread_id_for_context c;
      session_id = c.session_id;
      source_event_id = "";
      source_path_hash = r.portable_root_sha256;
      acquisition_path_hash = "";
      source_cursor = "";
      byte_start = none;
      byte_end = none;
    };
    payload = some (inline_payload sv.sha256_hex "json" "application/json" content);
    reasoning = none;
    completeness = record {
      status = "complete";
      reason = "";
      expected_bytes = none;
      captured_bytes = none;
    };
    causality = none;
    privacy = record { classification = privacy_local_only };
  }

  -- `Search` up to the append: the receipt and the event that is appended. The status of the result
  -- says whether `Search` then returns ErrPortableRepositoryRejected.
  unfoldable pub search : SearchIo → Request → Outcome.Result SearchError (Receipt × Event)
  unfolding normalize_request make_receipt receipt_event is_blank
  search io request = do
    q ← wrap bad_request (normalize_request sv.unicode request)
    root ← or_error io.absolute_root no_portable_root
    fail_if (is_blank io.portable_root) no_portable_root
    random_id ← or_error io.random_id no_event_id
    encoded ← or_error (sv.request_json q) request_not_encoded
    let receipt = make_receipt io q root (str_append "retrieval-" random_id) encoded
    content ← or_error (sv.receipt_json receipt) receipt_not_encoded
    ok (receipt, receipt_event io receipt content q.context)
