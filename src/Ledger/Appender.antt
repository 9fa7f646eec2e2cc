-- ===== src/Ledger/Appender.antt =====
-- `Appender` and its AppendBatch, of internal/ledger/ledger.go. The file system enters as the
-- outcome of each call: how much of a write reached the file, and whether a sync succeeded.
pub mod RoundTrip
pub mod Effects
pub mod Outcomes
use agent_memory_system.Prelude.{
  ℕ, ◌+◌, String, Bool, true, false, Option, none, some, List, [], ◌∷◌, ◌++◌, ◌||◌,
}
use agent_memory_system.Prelude.Lists.{take}
use agent_memory_system.Prelude.Result.{Result, ok, err, ◌>>=◌, ◌>>◌, fail_if, wrap}
use agent_memory_system.Ledger.Types.{BlobRef, Event, Record, Codec, blob_of}
use agent_memory_system.Ledger.Validate.{EventError, validate_event}
use agent_memory_system.Ledger.Lines.{newline}
use agent_memory_system.Ledger.Chain.{make_record}

pub data AppendError (B : Type 0) : Type 0 where
  appender_closed unusable encode_event encode_record write_failed short_write : AppendError B
  sync_failed : AppendError B
  event_rejected : EventError → AppendError B
  blob_rejected : B → AppendError B

-- `file.Write`: all bytes, a fault behind the first `n`, or `n` bytes and no error.
pub data WriteOutcome : Type 0 where
  written : WriteOutcome
  faulted short : ℕ → WriteOutcome

pub record Io : Type 0 where
  pub write : WriteOutcome
  pub sync : Bool

pub record Appender : Type 0 where
  pub previous : String
  pub failed : Bool
  pub closed : Bool

-- The file that the appender writes, and the appender.
pub record Writer : Type 0 where
  pub appender : Appender
  pub content : List ℕ

module _ {B : Type 0} where
  abbrev pub or_failed : {A : Type 0} → Option A → AppendError B → Result (AppendError B) A
  or_failed none e = err e
  or_failed (some a) e = ok a

  -- The test of a blob in the first loop.
  check_blob : (BlobRef → Option B) → Option BlobRef → Result (AppendError B) (Unit {0})
  check_blob verify_blob none = ok tt
  check_blob verify_blob (some blob) = elim (verify_blob blob) [
    | none ↦ ok tt
    | some b ↦ err (blob_rejected b)
  ]

  -- The first loop: every event is tested before anything is sealed.
  pub check_events : Codec → (BlobRef → Option B) → List Event → Result (AppendError B) (Unit {0})
  unfolding check_blob
  check_events c verify_blob [] = ok tt
  check_events c verify_blob (e ∷ es) = do
    wrap event_rejected (validate_event c.sha256_hex e)
    check_blob verify_blob (blob_of e.payload)
    check_events c verify_blob es

-- What the second loop makes: the records, the bytes to write, and the new tail.
pub record Batch : Type 0 where
  pub records : List Record
  pub buffer : List ℕ
  pub last : String

abbrev put_front : Record → List ℕ → Batch → Batch
put_front r line b = record {
  records = r ∷ b.records;
  buffer = line ++ newline ∷ b.buffer;
  last = b.last;
}

module _ {B : Type 0} where
  -- The second loop.
  pub make_batch : Codec → String → List Event → Result (AppendError B) Batch
  make_batch c previous [] = ok (record { records = []; buffer = []; last = previous })
  make_batch c previous (e ∷ es) = do
    r ← or_failed (make_record c e previous) encode_event
    line ← or_failed (c.record_json r) encode_record
    rest ← make_batch c r.record_hash es
    ok (put_front r line rest)

  abbrev fail_with : Writer → List ℕ → AppendError B → Writer × Result (AppendError B) (List Record)
  fail_with w persisted e = (
    record w { appender = record (w.appender) { failed = true }; content = w.content ++ persisted },
    err e,
  )

  -- Write and sync; a fault makes the appender unusable.
  commit : Io → Writer → Batch → Writer × Result (AppendError B) (List Record)
  commit io w b = elim (io.write) [
    | faulted n ↦ fail_with w (take n b.buffer) write_failed
    | short n ↦ fail_with w (take n b.buffer) short_write
    | written ↦ elim (io.sync) [
      | false ↦ fail_with w b.buffer sync_failed
      | true ↦ (
        record w {
          appender = record (w.appender) { previous = b.last };
          content = w.content ++ b.buffer;
        },
        ok b.records,
      )
    ]
  ]

  commit_result :
      Io → Writer → Result (AppendError B) Batch → Writer × Result (AppendError B) (List Record)
  unfolding commit
  commit_result io w (err e) = (w, err e)
  commit_result io w (ok b) = commit io w b

  -- The tests and the sealing, before the write.
  prepare : Codec → (BlobRef → Option B) → Writer → List Event → Result (AppendError B) Batch
  unfolding check_events make_batch
  prepare c verify_blob w events = do
    fail_if w.appender.closed appender_closed
    fail_if w.appender.failed unusable
    check_events c verify_blob events
    make_batch c w.appender.previous events

  -- `AppendBatch` of no events returns before the write.
  unfoldable pub append_batch :
      Codec
      → (BlobRef → Option B)
      → Io
      → Writer
      → List Event
      → Writer × Result (AppendError B) (List Record)
  unfolding commit_result prepare
  append_batch c verify_blob io w [] =
      (w, do fail_if w.appender.closed appender_closed; fail_if w.appender.failed unusable; ok [])
  append_batch c verify_blob io w (e ∷ es) = commit_result io w (prepare c verify_blob w (e ∷ es))
