-- ===== src/Promotion/Query.antt =====
-- `GetStatus`, `GetRevision` and `RevisionWasCurrentAt` of internal/promotion/apply.go.
use agent_memory_system.Prelude.{
  ℕ, String, Bool, true, false, not, ◌&&◌, ◌||◌, Option, none, some, List, [], ◌∷◌,
}
use agent_memory_system.Prelude.Tests.{string_eq, nat_eq, ◌==◌, if◌then◌else◌, ltb}
use agent_memory_system.Prelude.Result.{Result, ok, err, ◌>>=◌, ◌>>◌, fail_if, wrap}
use agent_memory_system.Prelude.Text.{valid_prefixed_hash}
use agent_memory_system.Ledger.Types.{Time, is_zero}
use agent_memory_system.Ledger.Chain.{LedgerFile}
use agent_memory_system.Promotion.Types.{
  Status, is_active, Source, Revision, Record, ValidatedCandidate, Services,
}
use agent_memory_system.Promotion.Replay.{State, find_memory, count_of}
use agent_memory_system.Promotion.Requests.{reference_of}
use agent_memory_system.Promotion.Semantics.{VerifiedError, replay_verified}

pub data QueryError : Type 0 where
  no_time bad_id not_found : QueryError
  unverified : VerifiedError → QueryError

pub record StatusResult : Type 0 where
  pub memory_id : String
  pub current_revision_id : String
  pub status : Status
  pub revision_count : ℕ
  pub source_review_current : Bool
  pub export_eligible : Bool
  pub revision : Revision

-- The loop of GetRevision.
unfoldable pub find_revision : String → String → List Record → Option Revision
find_revision memory_id revision_id [] = none
find_revision memory_id revision_id (r ∷ rs) =
    if r.event.revision.memory_id == memory_id && r.event.revision.revision_id == revision_id
    then some r.event.revision
    else find_revision memory_id revision_id rs

-- The loop of RevisionWasCurrentAt behind the target: when the memory's next revision was recorded.
unfoldable pub ended_at : String → List Record → Option Time
ended_at memory_id [] = none
ended_at memory_id (r ∷ rs) =
    if r.event.revision.memory_id == memory_id
    then some r.event.revision.recorded_at
    else ended_at memory_id rs

-- The loop up to the target: the target and the end of its time.
unfoldable pub find_target : String → String → List Record → Option (Revision × Option Time)
unfolding ended_at
find_target memory_id revision_id [] = none
find_target memory_id revision_id (r ∷ rs) =
    if r.event.revision.memory_id == memory_id && r.event.revision.revision_id == revision_id
    then some (r.event.revision, ended_at memory_id rs)
    else find_target memory_id revision_id rs

unfoldable pub before_end : Time → Option Time → Bool
before_end at none = true
before_end at (some end_) = ltb at end_

unfoldable pub was_current : Time → Option (Revision × Option Time) → Result QueryError Bool
unfolding before_end
was_current at none = err not_found
was_current at (some (r, end_)) =
    ok (if not (is_active r.status) || ltb at r.recorded_at then false else before_end at end_)

module _ (sv : Services) where
  is_resolved : Option ValidatedCandidate → Bool
  is_resolved none = false
  is_resolved (some v) = true

  -- Whether the revision is active and its source's review is current.
  unfoldable pub is_current : Revision → Option Source → Bool
  unfolding is_resolved
  is_current r none = false
  is_current r (some source) =
      is_active r.status && is_resolved (sv.resolve_current_validation (reference_of source))

  status_of : State → String → Option Revision → Result QueryError StatusResult
  unfolding is_current
  status_of s memory_id none = err not_found
  status_of s memory_id (some r) = ok (record {
    memory_id = memory_id;
    current_revision_id = r.revision_id;
    status = r.status;
    revision_count = count_of memory_id s.counts;
    source_review_current = is_current r r.source;
    export_eligible = is_active r.status && is_current r r.source;
    revision = r;
  })

  -- `GetStatus`.
  unfoldable pub get_status : LedgerFile → String → Result QueryError StatusResult
  unfolding status_of
  get_status file memory_id = do
    fail_if (not (valid_prefixed_hash memory_id "memory-")) bad_id
    s ← wrap unverified (replay_verified sv file)
    status_of s memory_id (find_memory memory_id s.current)

  found : Option Revision → Result QueryError Revision
  found none = err not_found
  found (some r) = ok r

  -- `GetRevision`.
  unfoldable pub get_revision : LedgerFile → String → String → Result QueryError Revision
  unfolding found
  get_revision file memory_id revision_id = do
    fail_if
        (not (valid_prefixed_hash memory_id "memory-")
          || not (valid_prefixed_hash revision_id "memory-revision-"))
        bad_id
    s ← wrap unverified (replay_verified sv file)
    found (find_revision memory_id revision_id s.history)

  -- `RevisionWasCurrentAt`.
  unfoldable pub revision_was_current_at :
      LedgerFile → String → String → Time → Result QueryError Bool
  revision_was_current_at file memory_id revision_id at = do
    fail_if (is_zero at) no_time
    fail_if
        (not (valid_prefixed_hash memory_id "memory-")
          || not (valid_prefixed_hash revision_id "memory-revision-"))
        bad_id
    s ← wrap unverified (replay_verified sv file)
    was_current at (find_target memory_id revision_id s.history)
