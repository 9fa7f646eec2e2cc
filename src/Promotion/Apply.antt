-- ===== src/Promotion/Apply.antt =====
-- `Apply`, `appendRecord` and the queries of internal/promotion. The store is what the ledger file
-- holds and whether state/memory-promotion.lock is there.
use Prim.Native.String.{◌++◌ as str_append}
use agent_memory_system.Prelude.{
  ℕ, zero, suc, String, Bool, true, false, not, Option, none, some, List, [], ◌∷◌, ◌++◌,
}
use agent_memory_system.Prelude.Tests.{string_eq, nat_eq, ◌!=◌, if◌then◌else◌}
use agent_memory_system.Prelude.Int.{pos}
use agent_memory_system.Prelude.Lists.{length}
use agent_memory_system.Prelude.Result.{Result, ok, err, ◌>>=◌, ◌>>◌, fail_if, wrap}
use agent_memory_system.Ledger.Types.{Time}
use agent_memory_system.Ledger.Lines.{newline}
use agent_memory_system.Ledger.Chain.{LedgerFile, absent, unopenable, readable}
use agent_memory_system.Promotion.Types.{
  event_schema_version, Request, Revision, Event, Record, Services,
}
use agent_memory_system.Promotion.Validate.{PromotionError, validate_request, validate_event}
use agent_memory_system.Promotion.Replay.{State, make_record}
use agent_memory_system.Promotion.Prepare.{PrepareError, prepare_revision}
use agent_memory_system.Promotion.Requests.{hash_request}
use agent_memory_system.Promotion.Semantics.{VerifiedError, replay_verified}

pub record Store : Type 0 where
  pub ledger : LedgerFile
  pub locked : Bool

-- How far a write of the record's bytes comes: `true` is success.
pub record AppendIo : Type 0 where
  pub directory : Bool
  pub open_ : Bool
  pub written : ℕ
  pub write : Bool
  pub sync : Bool
  pub close_ : Bool

-- The outcomes of the calls of `applyWithHooks`: the clock, the id of NewEventID, and whether each
-- step of the two locks succeeds.
pub record ApplyIo : Type 0 where
  pub device_id : String
  pub now : Time
  pub event_id : Option String
  pub lock_directory : Bool
  pub lock_open : Bool
  pub lock_write : Bool
  pub evidence_lock : Bool
  pub append : AppendIo
  pub evidence_close : Bool
  pub lock_remove : Bool

pub data ApplyError : Type 0 where
  lock_directory_failed is_locked lock_failed lock_write_failed evidence_locked : ApplyError
  no_event_id encode_failed directory_failed open_failed append_failed short_write : ApplyError
  sync_failed close_failed evidence_cleanup_failed lock_cleanup_failed : ApplyError
  bad_request : PromotionError → ApplyError
  bad_ledger : VerifiedError → ApplyError
  not_prepared : PrepareError → ApplyError
  bad_event : PromotionError → ApplyError

-- What a ledger holds, where a missing one is empty.
unfoldable pub content_of : LedgerFile → List ℕ
content_of absent = []
content_of unopenable = []
content_of (readable content fault) = content

unfoldable pub take_bytes : ℕ → List ℕ → List ℕ
take_bytes zero bs = []
take_bytes (suc n) [] = []
take_bytes (suc n) (b ∷ bs) = b ∷ take_bytes n bs

module _ (sv : Services) where
  unfoldable pub after_write : AppendIo → ℕ → Result ApplyError (Unit {0})
  after_write io size = do
    fail_if (not io.write) append_failed
    fail_if (io.written != size) short_write
    fail_if (not io.sync) sync_failed
    fail_if (not io.close_) close_failed

  unfoldable pub write_record :
      AppendIo → LedgerFile → Option (List ℕ) → LedgerFile × Result ApplyError (Unit {0})
  unfolding content_of take_bytes after_write
  write_record io file none = (readable (content_of file) false, err encode_failed)
  write_record io file (some text) =
      let line = text ++ newline ∷ [] in
      (readable (content_of file ++ take_bytes io.written line) false, after_write io (length line))

  -- `appendRecord`. The file is opened before the record is encoded, so that a failed encoding
  -- leaves an empty ledger where there was none.
  unfoldable pub append_record :
      AppendIo → LedgerFile → Record → LedgerFile × Result ApplyError (Unit {0})
  unfolding write_record
  append_record io file r =
      if not io.directory
      then (file, err directory_failed)
      else if not io.open_
      then (file, err open_failed)
      else write_record io file (sv.record_json r)

  unfoldable pub or_fail : {A : Type 0} → Option A → ApplyError → Result ApplyError A
  or_fail none e = err e
  or_fail (some a) e = ok a

  abbrev pub event_of : ApplyIo → Request → String → String → Revision → Event
  event_of io q random_id digest revision = record {
    schema_version = event_schema_version;
    event_id = str_append "promotion-" random_id;
    recorded_at = io.now;
    device_id = io.device_id;
    approver = q.approver;
    request_sha256 = digest;
    revision = revision;
    privacy = "local_only";
  }

  -- The record that follows a state, or the first error.
  unfoldable pub prepare_record : ApplyIo → State → Request → Result ApplyError Record
  unfolding or_fail
  prepare_record io s q = do
    random_id ← or_fail io.event_id no_event_id
    revision ← wrap not_prepared (prepare_revision sv s io.device_id io.now q)
    digest ← or_fail (hash_request sv q) encode_failed
    wrap bad_event (validate_event sv (event_of io q random_id digest revision))
    or_fail (make_record sv (event_of io q random_id digest revision) (pos s.next) s.last_hash)
        encode_failed

  unfoldable pub record_after : ApplyIo → LedgerFile → Request → Result ApplyError Record
  unfolding prepare_record
  record_after io file q = do s ← wrap bad_ledger (replay_verified sv file); prepare_record io s q

  -- The locks' cleanup behind the write.
  unfoldable pub finish_append :
      ApplyIo → Record → Result ApplyError (Unit {0}) → Result ApplyError Record
  finish_append io r appended = do
    appended
    fail_if (not io.evidence_close) evidence_cleanup_failed
    fail_if (not io.lock_remove) lock_cleanup_failed
    ok r

  unfoldable pub append_prepared :
      ApplyIo → LedgerFile → Result ApplyError Record → LedgerFile × Result ApplyError Record
  unfolding append_record finish_append
  append_prepared io file (err e) = (file, err e)
  append_prepared io file (ok r) =
      let (file', appended) = append_record io.append file r in (file', finish_append io r appended)

  -- The body of `applyWithHooks` while the promotion lock is held.
  unfoldable pub apply_locked :
      ApplyIo → LedgerFile → Request → LedgerFile × Result ApplyError Record
  unfolding record_after append_prepared
  apply_locked io file q =
      if not io.evidence_lock
      then (file, err evidence_locked)
      else append_prepared io file (record_after io file q)

  -- `acquirePromotionLock`: whether the lock is there afterwards, and the error.
  unfoldable pub acquire_promotion_lock : ApplyIo → Bool → Bool × Option ApplyError
  acquire_promotion_lock io locked =
      if not io.lock_directory
      then (locked, some lock_directory_failed)
      else if locked
      then (true, some is_locked)
      else if not io.lock_open
      then (false, some lock_failed)
      else if not io.lock_write
      then (not io.lock_remove, some lock_write_failed)
      else (true, none)

  -- Whether the lock is there behind the deferred release.
  unfoldable pub finish_apply :
      ApplyIo → LedgerFile × Result ApplyError Record → Store × Result ApplyError Record
  finish_apply io (file, result) = (record { ledger = file; locked = not io.lock_remove }, result)

  unfoldable pub with_lock :
      ApplyIo → LedgerFile → Request → Bool × Option ApplyError → Store × Result ApplyError Record
  unfolding apply_locked finish_apply
  with_lock io file q (locked, some e) = (record { ledger = file; locked = locked }, err e)
  with_lock io file q (locked, none) = finish_apply io (apply_locked io file q)

  unfoldable pub after_validation :
      ApplyIo
      → Store
      → Request
      → Result PromotionError (Unit {0})
      → Store × Result ApplyError Record
  unfolding with_lock acquire_promotion_lock
  after_validation io st q (err e) = (st, err (bad_request e))
  after_validation io st q (ok x) = with_lock io st.ledger q (acquire_promotion_lock io st.locked)

  -- `applyWithHooks`, with no hook.
  unfoldable pub apply : ApplyIo → Store → Request → Store × Result ApplyError Record
  unfolding after_validation
  apply io st q = after_validation io st q (validate_request sv q)
