-- ===== src/Promotion/Replay.antt =====
-- `replay` of internal/promotion/ledger.go: the state that the records of the ledger leave.
-- The three maps are lists: `current` by the memory's id, `counts` by pairs, `revisions` a set.
use agent_memory_system.Prelude.{
  ℕ, suc, String, Bool, true, false, not, ◌||◌, Option, none, some, List, [], ◌∷◌, ◌++◌,
}
use agent_memory_system.Prelude.Tests.{string_eq, nat_eq, ◌==◌, ◌!=◌, if◌then◌else◌}
use agent_memory_system.Prelude.Int.{ℤ, pos, int_eq}
use agent_memory_system.Prelude.Lists.{elem}
use agent_memory_system.Prelude.Result.{Result, ok, err, ◌>>=◌, ◌>>◌, fail_if, wrap}
use agent_memory_system.Prelude.Text.{trim_bytes, valid_sha256}
use agent_memory_system.Ledger.Lines.{split_lines, ends_line}
use agent_memory_system.Ledger.Chain.{LedgerFile, absent, unopenable, readable}
use agent_memory_system.Promotion.Types.{
  record_schema_version, Action, promote, supersede, revoke, other_action, is_active, is_revoked,
  scope_eq, Revision, Event, Record, Services,
}
use agent_memory_system.Promotion.Validate.{PromotionError, validate_event}

-- `replayState`. The code's `next` is an int64, which no file has records enough to overflow.
pub record State : Type 0 where
  pub current : List Revision
  pub counts : List (String × ℕ)
  pub revisions : List String
  pub history : List Record
  pub last_hash : String
  pub next : ℕ
  pub records : ℕ

abbrev pub empty_state : State
empty_state = record {
  current = [];
  counts = [];
  revisions = [];
  history = [];
  last_hash = "";
  next = 1;
  records = 0;
}

pub data RecordError : Type 0 where
  record_envelope encode_failed record_hash_mismatch : RecordError
  invalid_event : PromotionError → RecordError

-- The errors of `replay`, with the line's number.
pub data ReplayError : Type 0 where
  open_failed read_failed : ReplayError
  partial_record decode_failed repeats_revision : ℕ → ReplayError
  invalid_promotion stale_parent invalid_revocation unsupported_action : ℕ → ReplayError
  invalid_record : ℕ → RecordError → ReplayError

-- `state.current[id]`.
unfoldable pub find_memory : String → List Revision → Option Revision
find_memory id [] = none
find_memory id (r ∷ rs) = if r.memory_id == id then some r else find_memory id rs

-- `state.current[revision.MemoryID] = revision`.
unfoldable pub put_memory : Revision → List Revision → List Revision
put_memory r [] = r ∷ []
put_memory r (s ∷ ss) =
    let rest = put_memory r ss in if s.memory_id == r.memory_id then r ∷ ss else s ∷ rest

-- `state.counts[id]`.
unfoldable pub count_of : String → List (String × ℕ) → ℕ
count_of id [] = 0
count_of id ((k, n) ∷ rest) = if k == id then n else count_of id rest

-- `state.counts[id]++`.
unfoldable pub count_up : String → List (String × ℕ) → List (String × ℕ)
count_up id [] = (id, 1) ∷ []
count_up id ((k, n) ∷ counts) =
    let rest = count_up id counts in if k == id then (k, suc n) ∷ counts else (k, n) ∷ rest

-- `!=` on booleans.
unfoldable pub bool_differs : Bool → Bool → Bool
bool_differs true b = not b
bool_differs false b = b

-- The switch on the action, given what `current` has for the memory.
unfoldable pub check_transition :
    ℕ → Option Revision → Revision → Action → Result ReplayError (Unit {0})
check_transition n (some c) r promote = err (invalid_promotion n)
check_transition n none r promote =
    fail_if (r.parent_revision_id != "" || not (is_active r.status)) (invalid_promotion n)
check_transition n none r supersede = err (stale_parent n)
check_transition n (some c) r supersede =
    fail_if
      (not (is_active c.status)
        || r.parent_revision_id != c.revision_id
        || not (is_active r.status))
      (stale_parent n)
check_transition n none r revoke = err (invalid_revocation n)
check_transition n (some c) r revoke =
    fail_if
      (not (is_active c.status)
        || r.parent_revision_id != c.revision_id
        || not (is_revoked r.status)
        || r.kind != c.kind
        || not (scope_eq r.scope c.scope)
        || bool_differs r.requires_explicit_rule_change_approval
            c.requires_explicit_rule_change_approval)
      (invalid_revocation n)
check_transition n _ r (other_action _) = err (unsupported_action n)

-- The end of the loop's body.
unfoldable pub record_step : State → Record → State
unfolding put_memory count_up
record_step s r = record {
  current = put_memory r.event.revision s.current;
  counts = count_up r.event.revision.memory_id s.counts;
  revisions = r.event.revision.revision_id ∷ s.revisions;
  history = s.history ++ r ∷ [];
  last_hash = r.record_sha256;
  next = suc s.next;
  records = suc s.records;
}

module _ (sv : Services) where
  abbrev pub seal : Event → ℤ → String → Option (List ℕ) → Option Record
  seal event sequence previous none = none
  seal event sequence previous (some data_) = some (record {
    schema_version = record_schema_version;
    sequence = sequence;
    event = event;
    previous_record_sha256 = previous;
    record_sha256 = sv.sha256_hex data_;
  })

  -- `makeRecord`; `none` is the error of `json.Marshal`.
  unfoldable pub make_record : Event → ℤ → String → Option Record
  make_record event sequence previous =
      seal event sequence previous (sv.envelope_json event sequence previous)

  unfoldable pub check_hash : Record → Option Record → Result RecordError (Unit {0})
  check_hash r none = err encode_failed
  check_hash r (some expected) =
      fail_if (expected.record_sha256 != r.record_sha256) record_hash_mismatch

  -- `validateRecord`.
  unfoldable pub validate_record : Record → ℕ → String → Result RecordError (Unit {0})
  unfolding check_hash make_record
  validate_record r expected_sequence previous = do
    fail_if
        (r.schema_version != record_schema_version
          || r.sequence != pos expected_sequence
          || r.previous_record_sha256 != previous
          || not (valid_sha256 r.record_sha256))
        record_envelope
    wrap invalid_event (validate_event sv r.event)
    check_hash r (make_record r.event r.sequence previous)

  -- The loop's body for a decoded record of line `n`.
  unfoldable pub replay_record : State → ℕ → Record → Result ReplayError State
  unfolding find_memory check_transition validate_record record_step
  replay_record s n r = do
    wrap (invalid_record n) (validate_record r s.next s.last_hash)
    fail_if (elem r.event.revision.revision_id s.revisions) (repeats_revision n)
    check_transition n (find_memory r.event.revision.memory_id s.current) r.event.revision
        r.event.revision.action
    ok (record_step s r)

  unfoldable pub decoded : ℕ → Option Record → Result ReplayError Record
  decoded n none = err (decode_failed n)
  decoded n (some r) = ok r

  -- The loop's body for line `n`.
  unfoldable pub replay_line : State → ℕ → List ℕ → Result ReplayError State
  unfolding replay_record decoded
  replay_line s n line = do
    fail_if (not (ends_line line)) (partial_record n)
    r ← decoded n (sv.parse_record (trim_bytes line))
    replay_record s n r

  unfoldable pub read_fault : Bool → Option ReplayError
  read_fault true = some read_failed
  read_fault false = none

  -- The loop; `n` counts the lines read.
  unfoldable pub replay_lines : Bool → State → ℕ → List (List ℕ) → State × Option ReplayError
  unfolding replay_line read_fault
  replay_lines fault s n [] = (s, read_fault fault)
  replay_lines fault s n (line ∷ lines) = elim (replay_line s (suc n) line) [
    | err e ↦ (s, some e)
    | ok s' ↦ replay_lines fault s' (suc n) lines
  ]

  -- `replay`; `none` is the nil error.
  unfoldable pub replay : LedgerFile → State × Option ReplayError
  unfolding replay_lines
  replay absent = (empty_state, none)
  replay unopenable = (empty_state, some open_failed)
  replay (readable content fault) = replay_lines fault empty_state 0 (split_lines content)
