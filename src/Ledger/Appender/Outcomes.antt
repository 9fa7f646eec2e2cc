-- ===== src/Ledger/Appender/Outcomes.antt =====
-- Every outcome of `AppendBatch` of internal/ledger/ledger.go, and what each leaves in the file.
use agent_memory_system.Prelude.{
  ℕ, String, Bool, true, false, Option, List, [], ◌∷◌, ◌++◌, map, ◌≡◌, ◌≢◌, refl, sym, ap, subst,
  ◌∙◌, ◌⊎◌, inl, inr,
}
use agent_memory_system.Prelude.Tests.{Bool-cases}
use agent_memory_system.Prelude.Lists.{take}
use agent_memory_system.Prelude.Result.{
  Result, ok, err, ◌>>◌, fail_if, fail_if-then, then-eq-ok, bind-eq-ok, ok-injective, Result-cases,
}
use agent_memory_system.Ledger.Types.{BlobRef, Event, Record, Codec, CodecLaws}
use agent_memory_system.Ledger.Chain.{make_record}
use agent_memory_system.Ledger.Chain.Verified.{make_record-fields}
use agent_memory_system.Ledger.Appender.{
  AppendError, appender_closed, unusable, WriteOutcome, written, faulted, short, Io, Writer, Batch,
  or_failed, encode_event, encode_record, write_failed, short_write, sync_failed, check_events,
  make_batch, commit, commit_result, prepare, append_batch,
}
use agent_memory_system.Ledger.Appender.RoundTrip.{
  AllValid, check_events-AllValid, IsSealed, make_batch-IsSealed, or_failed-eq-ok,
}

-- What a write leaves in the file.
abbrev pub persisted : WriteOutcome → List ℕ → List ℕ
persisted written buffer = buffer
persisted (faulted n) buffer = take n buffer
persisted (short n) buffer = take n buffer

-- The events that the records hold.
abbrev pub events_of : List Record → List Event
events_of = map (λ r. r.event)

-- A batch that may be written: the appender takes it, each event is valid, and the records hold the
-- events, in their order, in a chain behind the appender's hash, which the bytes decode to.
pub record IsPrepared (c : Codec) (w : Writer) (events : List Event) (b : Batch) : Type 0 where
  pub is_open : w.appender.closed ≡ false
  pub usable : w.appender.failed ≡ false
  pub valid : AllValid c events
  pub holds : events_of b.records ≡ events
  pub sealed : IsSealed c w.appender.previous b

-- What the write and the sync come to.
pub data Committed {B : Type 0} (io : Io) (w : Writer) (b : Batch)
    : Writer × Result (AppendError B) (List Record) → Type 0 where
  complete :
      io.write ≡ written
      → io.sync ≡ true
      → Committed io w b (
        record {
          appender = record (w.appender) { previous = b.last };
          content = w.content ++ b.buffer;
        },
        ok b.records,
      )
  broken :
      (e : AppendError B)
      → (io.write ≢ written) ⊎ (io.sync ≡ false)
      → Committed io w b (
        record {
          appender = record (w.appender) { failed = true };
          content = w.content ++ persisted io.write b.buffer;
        },
        err e,
      )

-- Why a batch is refused: the appender is closed or has failed, an event or its blob does not pass
-- its tests, or an event cannot be encoded.
pub data Refusal {B : Type 0} (c : Codec) (verify_blob : BlobRef → Option B) (w : Writer)
    (events : List Event) : AppendError B → Type 0 where
  closed : w.appender.closed ≡ true → Refusal c verify_blob w events appender_closed
  failed :
      w.appender.closed ≡ false → w.appender.failed ≡ true → Refusal c verify_blob w events unusable
  untested :
      (e : AppendError B)
      → check_events c verify_blob events ≡ err e
      → Refusal c verify_blob w events e
  unsealed :
      (e : AppendError B)
      → make_batch c w.appender.previous events ≡ err e
      → Refusal c verify_blob w events e

-- What a batch comes to.
pub data Outcome {B : Type 0} (c : Codec) (verify_blob : BlobRef → Option B) (io : Io) (w : Writer)
    (events : List Event) : Writer × Result (AppendError B) (List Record) → Type 0 where
  refused :
      (e : AppendError B)
      → Refusal c verify_blob w events e
      → Outcome c verify_blob io w events (w, err e)
  empty :
      events ≡ []
      → w.appender.closed ≡ false
      → w.appender.failed ≡ false
      → Outcome c verify_blob io w events (w, ok [])
  wrote :
      {p : Writer × Result (AppendError B) (List Record)} (b : Batch)
      → IsPrepared c w events b
      → Committed io w b p
      → Outcome c verify_blob io w events p

-- A commit by the outcomes of its calls.
commit-Committed :
    {B : Type 0} (write : WriteOutcome) (sync : Bool) (w : Writer) (b : Batch)
    → Committed {B = B}
        (record { write = write; sync = sync })
        w
        b
        (commit (record { write = write; sync = sync }) w b)
unfolding commit
commit-Committed written true w b = complete refl refl
commit-Committed written false w b = broken sync_failed (inr refl)
commit-Committed (faulted n) sync w b = broken write_failed (inl (λ h. cc h))
commit-Committed (short n) sync w b = broken short_write (inl (λ h. cc h))

module _ {B : Type 0} (c : Codec) (laws : CodecLaws c) (verify_blob : BlobRef → Option B) (io : Io)
    (w : Writer) where
  make_batch-events :
      (previous : String) (es : List Event) {b : Batch}
      → make_batch {B = B} c previous es ≡ ok b
      → events_of b.records ≡ es
  unfolding make_batch
  make_batch-events previous [] h = ap (λ b. events_of b.records) (sym (ok-injective h))
  make_batch-events previous (e ∷ es) h =
      let (r, sealed, h1) = bind-eq-ok (or_failed (make_record c e previous) encode_event) _ h in
      let (line, _, h2) = bind-eq-ok (or_failed (c.record_json r) encode_record) _ h1 in
      let (rest, made, h3) = bind-eq-ok (make_batch c r.record_hash es) _ h2 in
      let own =
        (make_record-fields c e previous
          (or_failed-eq-ok (make_record c e previous) encode_event sealed)).0 in
      let others = make_batch-events r.record_hash es made in
      subst (λ b. events_of b.records ≡ e ∷ es) (ok-injective h3) (rw (own, others) refl)

  prepare-IsPrepared :
      (events : List Event) {b : Batch}
      → prepare c verify_blob w events ≡ ok b
      → IsPrepared c w events b
  unfolding prepare
  prepare-IsPrepared events h =
      let (is_open, h1) = fail_if-then w.appender.closed appender_closed _ h in
      let (usable, h2) = fail_if-then w.appender.failed unusable _ h1 in
      let (tested, made) = then-eq-ok (check_events c verify_blob events) _ h2 in
      let valid = check_events-AllValid c verify_blob events tested in
      record {
        is_open = is_open;
        usable = usable;
        valid = valid;
        holds = make_batch-events w.appender.previous events made;
        sealed = make_batch-IsSealed c laws w.appender.previous events valid made;
      }

  tested-Refusal :
      (events : List Event) (tested : Result (AppendError B) (Unit {0})) (e : AppendError B)
      → check_events c verify_blob events ≡ tested
      → (do tested; make_batch c w.appender.previous events) ≡ err e
      → Refusal c verify_blob w events e
  tested-Refusal events (err f) e p h = untested e (p ∙ cc h)
  tested-Refusal events (ok tt) e p h = unsealed e h

  prepare-Refusal :
      (events : List Event) (e : AppendError B)
      → prepare c verify_blob w events ≡ err e
      → Refusal c verify_blob w events e
  unfolding prepare
  prepare-Refusal events e h = elim (Bool-cases w.appender.closed) [
    | inl k ↦ subst (Refusal c verify_blob w events) (cc (rw (prepare, k) at h)) (closed k)
    | inr k ↦ elim (Bool-cases w.appender.failed) [
      | inl l ↦ subst (Refusal c verify_blob w events) (cc (rw (prepare, k, l) at h)) (failed k l)
      | inr l ↦
          tested-Refusal events (check_events c verify_blob events) e refl (rw (prepare, k, l) at h)
    ]
  ]

  -- The two tests before all else.
  abbrev opened : Writer → Result (AppendError B) (List Record)
  opened v = do fail_if v.appender.closed appender_closed; fail_if v.appender.failed unusable; ok []

  opened-Refusal : (e : AppendError B) → opened w ≡ err e → Refusal c verify_blob w [] e
  opened-Refusal e h = elim (Bool-cases w.appender.closed) [
    | inl k ↦ subst (Refusal c verify_blob w []) (cc (rw k at h)) (closed k)
    | inr k ↦ elim (Bool-cases w.appender.failed) [
      | inl l ↦ subst (Refusal c verify_blob w []) (cc (rw (k, l) at h)) (failed k l)
      | inr l ↦ cc (rw (k, l) at h)
    ]
  ]

  empty-Outcome : Outcome c verify_blob io w [] (append_batch c verify_blob io w [])
  unfolding append_batch
  empty-Outcome = elim (Result-cases (opened w)) [
    | inl (u, p) ↦
        let (is_open, h1) = fail_if-then w.appender.closed appender_closed _ p in
        let (usable, h2) = fail_if-then w.appender.failed unusable _ h1 in
        rw (p, sym (ok-injective h2)) (empty refl is_open usable)
    | inr (e, p) ↦ rw p (refused e (opened-Refusal e p))
  ]

  -- If the texts of records keep the codec's laws: a batch is refused for its reason and changes nothing, or it is empty, or it may be written and the file grows by
  -- what the write leaves of its bytes. Then all bytes are there, are synced, and the records are
  -- returned with the hash moved to the last of them; or the call fails, the hash stays, and the
  -- appender is marked as failed.
  pub append_batch-Outcome :
      (events : List Event)
      → Outcome c verify_blob io w events (append_batch c verify_blob io w events)
  unfolding append_batch commit_result
  append_batch-Outcome [] = empty-Outcome
  append_batch-Outcome (x ∷ xs) = elim (Result-cases (prepare c verify_blob w (x ∷ xs))) [
    | inr (e, p) ↦ rw (append_batch, p) (refused e (prepare-Refusal (x ∷ xs) e p))
    | inl (b, p) ↦
        rw (append_batch, p)
          (wrote b (prepare-IsPrepared (x ∷ xs) p) (commit-Committed io.write io.sync w b))
  ]
