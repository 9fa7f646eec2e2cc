-- ===== src/Promotion/Outcomes.antt =====
-- Every outcome of `Apply` of internal/promotion/apply.go, and what each leaves of the ledger.
use agent_memory_system.Prelude.{
  ℕ, Bool, true, false, not, ◌&&◌, Option, none, some, List, [], ◌∷◌, ◌++◌, ◌≡◌, refl, inl, inr,
  ◌⊎◌, arith,
}
use agent_memory_system.Prelude.Tests.{if◌then◌else◌, string_eq, nat_eq, ◌==◌, Bool-cases}
use agent_memory_system.Prelude.Lists.{elem, length}
use agent_memory_system.Prelude.Result.{Result, ok, err, ◌>>◌, fail_if, Result-cases}
use agent_memory_system.Prelude.Text.{valid_sha256}
use agent_memory_system.Ledger.Lines.{newline}
use agent_memory_system.Ledger.Chain.{LedgerFile, readable}
use agent_memory_system.Promotion.Types.{Request, Record, Services}
use agent_memory_system.Promotion.Validate.{PromotionError, validate_request}
use agent_memory_system.Promotion.Replay.{State, record_step, replay, replay_record}
use agent_memory_system.Promotion.Apply.{
  ApplyIo, ApplyError, bad_request, evidence_locked, directory_failed, open_failed, encode_failed,
  append_failed, short_write, sync_failed, close_failed, evidence_cleanup_failed,
  lock_cleanup_failed, Store, content_of, take_bytes, after_write, write_record, append_record,
  prepare_record, record_after, finish_append, append_prepared, apply_locked,
  acquire_promotion_lock, with_lock, finish_apply, after_validation, apply,
}
use agent_memory_system.Promotion.Followed.{prepare_record-replay_record}
use agent_memory_system.Promotion.Applied.{record_after-ok}

-- Replay adds the record to the state, unless it has its revision already.
abbrev pub IsAdmissible : Services → State → Record → Type 0
IsAdmissible sv s r =
    (elem r.event.revision.revision_id s.revisions ≡ true)
    ⊎ ((n : ℕ) → replay_record sv s n r ≡ ok (record_step s r))

-- Whether each step from the write of a line to the release of the locks succeeds.
abbrev pub all_done : ApplyIo → List ℕ → Bool
all_done io line =
    io.append.write
    && io.append.written == length line
    && io.append.sync
    && io.append.close_
    && io.evidence_close
    && io.lock_remove

-- What is returned behind the write, by whether all steps succeed.
pub data Finished (r : Record) : Bool → Result ApplyError Record → Type 0 where
  returned : Finished r true (ok r)
  broken : (e : ApplyError) → Finished r false (err e)

steps-Finished :
    (r : Record) (write size sync close_ evidence_close lock_remove : Bool)
    → Finished r (write && size && sync && close_ && evidence_close && lock_remove) (do
      do
        fail_if (not write) append_failed
        fail_if (not size) short_write
        fail_if (not sync) sync_failed
        fail_if (not close_) close_failed
      fail_if (not evidence_close) evidence_cleanup_failed
      fail_if (not lock_remove) lock_cleanup_failed
      ok r)
steps-Finished r false b c d e f = broken append_failed
steps-Finished r true false c d e f = broken short_write
steps-Finished r true true false d e f = broken sync_failed
steps-Finished r true true true false e f = broken close_failed
steps-Finished r true true true true false f = broken evidence_cleanup_failed
steps-Finished r true true true true true false = broken lock_cleanup_failed
steps-Finished r true true true true true true = returned

if_both : {A : Type 0} (P : A → Type 0) (b : Bool) {x y : A} → P x → P y → P (if b then x else y)
if_both P true p q = p
if_both P false p q = q

module _ (sv : Services) where
  -- What the locked part leaves: the bytes of the ledger as they were, or the bytes that the write leaves
  -- of a record that replay admits to the state that it reads from the old ledger.
  pub data Wrote (io : ApplyIo) (file : LedgerFile)
      : LedgerFile × Result ApplyError Record → Type 0 where
    nothing :
        {new : LedgerFile} (e : ApplyError)
        → content_of new ≡ content_of file
        → Wrote io file (new, err e)
    wrote :
        {result : Result ApplyError Record} (s : State) (r : Record) (text : List ℕ)
        → replay sv file ≡ (s, none)
        → IsAdmissible sv s r
        → sv.record_json r ≡ some text
        → Finished r (all_done io (text ++ newline ∷ [])) result
        → Wrote io file (
          readable (content_of file ++ take_bytes io.append.written (text ++ newline ∷ [])) false,
          result,
        )

  -- What Apply comes to: the ledger's bytes are as they were and there is an error; or the request is
  -- valid, the lock was free and is released if its file can be removed, and the locked part has run.
  pub data Outcome (io : ApplyIo) (st : Store) (q : Request)
      : Store × Result ApplyError Record → Type 0 where
    refused : {new : Store} (e : ApplyError) → new.ledger ≡ st.ledger → Outcome io st q (new, err e)
    entered :
        {file : LedgerFile} {result : Result ApplyError Record}
        → validate_request sv q ≡ ok tt
        → st.locked ≡ false
        → Wrote io st.ledger (file, result)
        → Outcome io st q (record { ledger = file; locked = not io.lock_remove }, result)

  finish-Finished :
      (io : ApplyIo) (r : Record) (line : List ℕ)
      → Finished r
          (all_done io line)
          (finish_append sv io r (after_write sv io.append (length line)))
  unfolding finish_append after_write
  finish-Finished io r line =
      steps-Finished r io.append.write (io.append.written == length line) io.append.sync
        io.append.close_ io.evidence_close io.lock_remove

  module _ (io : ApplyIo) (file : LedgerFile) where
    written-Wrote :
        (s : State) (r : Record) (text : Option (List ℕ))
        → replay sv file ≡ (s, none)
        → IsAdmissible sv s r
        → sv.record_json r ≡ text
        → Wrote io file (
          (write_record sv io.append file text).0,
          finish_append sv io r (write_record sv io.append file text).1,
        )
    unfolding write_record content_of finish_append
    written-Wrote s r none read admitted h = nothing encode_failed refl
    written-Wrote s r (some text) read admitted h =
        wrote s r text read admitted h (finish-Finished io r (text ++ newline ∷ []))

    -- What is left behind the append.
    abbrev Appended : Record → LedgerFile × Result ApplyError (Unit {0}) → Type 0
    Appended r p = Wrote io file (p.0, finish_append sv io r p.1)

    append-Wrote :
        (s : State) (r : Record)
        → replay sv file ≡ (s, none)
        → IsAdmissible sv s r
        → Wrote io file (append_prepared sv io file (ok r))
    unfolding append_prepared append_record finish_append
    append-Wrote s r read admitted =
        if_both (Appended r) (not io.append.directory) (nothing directory_failed refl) (
          if_both (Appended r) (not io.append.open_) (nothing open_failed refl)
            (written-Wrote s r (sv.record_json r) read admitted refl))

  module _ (digest : (input : List ℕ) → valid_sha256 (sv.sha256_hex input) ≡ true) (io : ApplyIo)
      (q : Request) where
    prepared-IsAdmissible :
        (s : State) (r : Record) → prepare_record sv io s q ≡ ok r → IsAdmissible sv s r
    prepared-IsAdmissible s r h =
        elim (Bool-cases (elem r.event.revision.revision_id s.revisions)) [
          | inl k ↦ inl k
          | inr k ↦ inr (λ n. prepare_record-replay_record sv digest io s q r n h k)
        ]

    locked-Wrote : (file : LedgerFile) → Wrote io file (apply_locked sv io file q)
    unfolding apply_locked append_prepared
    locked-Wrote file =
        if_both (Wrote io file) (not io.evidence_lock) (nothing evidence_locked refl)
          (elim (Result-cases (record_after sv io file q)) [
            | inr (e, p) ↦ rw (append_prepared, p) (nothing e refl)
            | inl (r, p) ↦
                let (s, read, made) = record_after-ok sv io file q r p in
                rw p (append-Wrote io file s r read (prepared-IsAdmissible s r made))
          ])

    with_lock-Outcome :
        (st : Store) (p : Bool × Option ApplyError)
        → validate_request sv q ≡ ok tt
        → (p.1 ≡ none → st.locked ≡ false)
        → Outcome io st q (with_lock sv io st.ledger q p)
    unfolding with_lock finish_apply
    with_lock-Outcome st (locked, some e) valid free = refused e refl
    with_lock-Outcome st (locked, none) valid free =
        entered valid (free refl) (locked-Wrote st.ledger)

    acquired-free :
        (locked : Bool) → (acquire_promotion_lock sv io locked).1 ≡ none → locked ≡ false
    unfolding acquire_promotion_lock
    acquired-free locked h = ground arith

    after_validation-Outcome :
        (st : Store) (valid : Result PromotionError (Unit {0}))
        → validate_request sv q ≡ valid
        → Outcome io st q (after_validation sv io st q valid)
    unfolding after_validation
    after_validation-Outcome st (err e) h = refused (bad_request e) refl
    after_validation-Outcome st (ok tt) h =
        with_lock-Outcome st (acquire_promotion_lock sv io st.locked) h (acquired-free st.locked)

    -- If SHA-256 gives digests: Apply fails and leaves the ledger as it was, or the request is valid, the lock was free and is left
    -- only if its file cannot be removed. Then an error leaves the ledger's bytes as they were, or the
    -- ledger grows by what the write leaves of the line of a record that replay admits to the state it
    -- reads from the old ledger, unless the state has its revision; the record is returned where every
    -- step from the write to the release of the locks succeeds, and an error where one fails.
    pub apply-Outcome : (st : Store) → Outcome io st q (apply sv io st q)
    unfolding apply
    apply-Outcome st = after_validation-Outcome st (validate_request sv q) refl
