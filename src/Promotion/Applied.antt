-- ===== src/Promotion/Applied.antt =====
-- `Apply` of internal/promotion/apply.go from the request to the ledger as replay reads it.
use agent_memory_system.Prelude.{
  ℕ, Bool, true, false, not, Option, none, some, List, ◌≡◌, refl, sym, ap, subst, ◌∙◌, inl, inr,
}
use agent_memory_system.Prelude.Tests.{string_eq, Bool-cases}
use agent_memory_system.Prelude.Lists.{elem}
use agent_memory_system.Prelude.Result.{
  Result, ok, err, wrap, fail_if-then, then-eq-ok, bind-eq-ok, wrap-eq-ok, ok-injective,
}
use agent_memory_system.Prelude.Text.{valid_sha256}
use agent_memory_system.Ledger.Chain.{LedgerFile}
use agent_memory_system.Promotion.Types.{Request, Record, Services}
use agent_memory_system.Promotion.Validate.{PromotionError, validate_request}
use agent_memory_system.Promotion.Replay.{State, ReplayError, record_step, replay}
use agent_memory_system.Promotion.Semantics.{
  after_replay, replay_verified, verify_promotion_semantics, semantics_failed,
}
use agent_memory_system.Promotion.Apply.{
  ApplyIo, ApplyError, Store, bad_ledger, append_record, prepare_record, record_after,
  append_prepared, finish_append, apply_locked, acquire_promotion_lock, with_lock, finish_apply,
  after_validation, apply,
}
use agent_memory_system.Promotion.Followed.{prepare_record-replay_record}
use agent_memory_system.Promotion.Recorded.{IsText, append_record-ok, followed-replay}

module _ (sv : Services) where
  after_replay-ok :
      (p : State × Option ReplayError) (s : State) → after_replay sv p ≡ ok s → p ≡ (s, none)
  unfolding after_replay
  after_replay-ok (t, some e) s h = cc h
  after_replay-ok (t, none) s h =
      let (sound, rest) =
        then-eq-ok (wrap semantics_failed (verify_promotion_semantics sv t.history)) _ h in
      ap (λ (u : State). (u, none)) (ok-injective rest)

  module _ (io : ApplyIo) (file : LedgerFile) (q : Request) (r : Record) where
    pub record_after-ok :
        record_after sv io file q ≡ ok r
        → (s : State) × (replay sv file ≡ (s, none)) × (prepare_record sv io s q ≡ ok r)
    unfolding record_after replay_verified
    record_after-ok h =
        let (s, verified, rest) = bind-eq-ok (wrap bad_ledger (replay_verified sv file)) _ h in
        (s, after_replay-ok (replay sv file) s (wrap-eq-ok bad_ledger _ verified), rest)

    append_prepared-ok :
        (prepared : Result ApplyError Record)
        → (append_prepared sv io file prepared).1 ≡ ok r
        → (prepared ≡ ok r)
          × ((append_record sv io.append file r).1 ≡ ok tt)
          × ((append_prepared sv io file prepared).0 ≡ (append_record sv io.append file r).0)
    unfolding append_prepared finish_append
    append_prepared-ok (err e) h = cc h
    append_prepared-ok (ok r') h =
        let (appended, h1) = then-eq-ok ((append_record sv io.append file r').1) _ h in
        let (closed, h2) = fail_if-then (not io.evidence_close) _ _ h1 in
        let (released, h3) = fail_if-then (not io.lock_remove) _ _ h2 in
        let same = ok-injective h3 in
        (
          ap ok same,
          subst (λ t. (append_record sv io.append file t).1 ≡ ok tt) same appended,
          ap (λ t. (append_record sv io.append file t).0) same,
        )

    apply_locked-ok :
        (apply_locked sv io file q).1 ≡ ok r
        → (record_after sv io file q ≡ ok r)
          × ((append_record sv io.append file r).1 ≡ ok tt)
          × ((apply_locked sv io file q).0 ≡ (append_record sv io.append file r).0)
    unfolding apply_locked
    apply_locked-ok h = elim (Bool-cases io.evidence_lock) [
      | inr k ↦ cc (rw (k, apply_locked) at h)
      | inl k ↦
          let (made, appended, left) =
            append_prepared-ok (record_after sv io file q) (rw (k, apply_locked) at h) in
          (made, appended, rw k left)
    ]

    with_lock-ok :
        (p : Bool × Option ApplyError)
        → (with_lock sv io file q p).1 ≡ ok r
        → ((apply_locked sv io file q).1 ≡ ok r)
          × ((with_lock sv io file q p).0.ledger ≡ (apply_locked sv io file q).0)
    unfolding with_lock finish_apply
    with_lock-ok (locked, some e) h = cc h
    with_lock-ok (locked, none) h = (h, refl)

  after_validation-ok :
      (io : ApplyIo) (st : Store) (q : Request) (r : Record)
      (valid : Result PromotionError (Unit {0}))
      → (after_validation sv io st q valid).1 ≡ ok r
      → ((apply_locked sv io st.ledger q).1 ≡ ok r)
        × ((after_validation sv io st q valid).0.ledger ≡ (apply_locked sv io st.ledger q).0)
  unfolding after_validation
  after_validation-ok io st q r (err e) h = cc h
  after_validation-ok io st q r (ok x) h =
      with_lock-ok io st.ledger q r (acquire_promotion_lock sv io st.locked) h

  apply-parts :
      (digest : (input : List ℕ) → valid_sha256 (sv.sha256_hex input) ≡ true) (io : ApplyIo)
      (st : Store) (q : Request) (r : Record)
      → ((text : List ℕ) → sv.record_json r ≡ some text → IsText sv r text)
      → (apply sv io st q).1 ≡ ok r
      → (s : State) × (replay sv st.ledger ≡ (s, none))
        × (elem r.event.revision.revision_id s.revisions ≡ false
            → replay sv (apply sv io st q).0.ledger ≡ (record_step s r, none))
  unfolding apply
  apply-parts digest io st q r is_text h =
      let (locked, ledger) = after_validation-ok io st q r (validate_request sv q) h in
      let (made, appended, left) = apply_locked-ok io st.ledger q r locked in
      let (s, read, prepared) = record_after-ok io st.ledger q r made in
      let (text, json, content) = append_record-ok sv io.append st.ledger r appended in
      (
        s,
        read,
        λ fresh.
            subst (λ f. replay sv f ≡ (record_step s r, none)) (sym (ledger ∙ left ∙ content))
              (followed-replay sv st.ledger s r text read (is_text text json)
                (λ n. prepare_record-replay_record sv digest io s q r n prepared fresh)),
      )

  -- When Apply returns a record, replay had read the old ledger to its end, and reads the new one to
  -- its end with the record added, if the revision's id is new, the record's text decodes to it and
  -- SHA-256 gives digests.
  pub apply-replay :
      (digest : (input : List ℕ) → valid_sha256 (sv.sha256_hex input) ≡ true) (io : ApplyIo)
      (st : Store) (q : Request) (r : Record)
      → ((text : List ℕ) → sv.record_json r ≡ some text → IsText sv r text)
      → elem r.event.revision.revision_id (replay sv st.ledger).0.revisions ≡ false
      → (apply sv io st q).1 ≡ ok r
      → ((replay sv st.ledger).1 ≡ none)
        × (replay sv (apply sv io st q).0.ledger ≡ (record_step (replay sv st.ledger).0 r, none))
  apply-replay digest io st q r is_text fresh h =
      let (s, read, more) = apply-parts digest io st q r is_text h in
      let same = ap (λ (p : State × Option ReplayError). p.0) read in
      (
        ap (λ (p : State × Option ReplayError). p.1) read,
        more (
              subst (λ (t : State). elem r.event.revision.revision_id t.revisions ≡ false) same
                fresh)
            ∙ ap (λ (t : State). (record_step t r, none)) (sym same),
      )
