-- ===== src/Promotion/Followed.antt =====
-- The record that `applyWithHooks` of internal/promotion/apply.go makes, as replay meets it.
use agent_memory_system.Prelude.{
  ℕ, String, true, false, Option, none, some, List, ◌≡◌, refl, sym, ap, subst, ◌∙◌,
}
use agent_memory_system.Prelude.Tests.{string_eq, ne_self, some-injective}
use agent_memory_system.Prelude.Int.{ℤ, pos, int_eq}
use agent_memory_system.Prelude.Lists.{elem}
use agent_memory_system.Prelude.Result.{ok, wrap, then-eq-ok, bind-eq-ok, wrap-eq-ok, ok-injective}
use agent_memory_system.Prelude.Text.{valid_sha256}
use agent_memory_system.Promotion.Types.{Request, Revision, Event, Record, Services}
use agent_memory_system.Promotion.Validate.{validate_event}
use agent_memory_system.Promotion.Replay.{
  State, find_memory, check_transition, record_step, make_record, seal, validate_record,
  replay_record, check_hash,
}
use agent_memory_system.Promotion.Prepare.{prepare_revision}
use agent_memory_system.Promotion.Requests.{hash_request}
use agent_memory_system.Promotion.Prepared.{prepare_revision-IsAdmitted}
use agent_memory_system.Promotion.Apply.{
  ApplyIo, ApplyError, no_event_id, encode_failed, not_prepared, bad_event, event_of,
  prepare_record, or_fail,
}

or_fail-eq-ok :
    (sv : Services) {A : Type 0} (o : Option A) (e : ApplyError) (a : A)
    → or_fail sv o e ≡ ok a
    → o ≡ some a
unfolding or_fail
or_fail-eq-ok sv none e a h = cc h
or_fail-eq-ok sv (some b) e a h = ap some (ok-injective h)

module _ (sv : Services) where
  -- The parts of a record that was made.
  record Made (io : ApplyIo) (s : State) (q : Request) (r : Record) : Type 0 where
    random_id : String
    digest : String
    revision : Revision
    prepared : prepare_revision sv s io.device_id io.now q ≡ ok revision
    event : r.event ≡ event_of sv io q random_id digest revision
    valid : validate_event sv r.event ≡ ok tt
    sealed : make_record sv r.event (pos s.next) s.last_hash ≡ some r

  seal-event :
      (e : Event) (n : ℤ) (previous : String) (o : Option (List ℕ)) (r : Record)
      → seal sv e n previous o ≡ some r
      → r.event ≡ e
  seal-event e n previous none r h = cc h
  seal-event e n previous (some text) r h = ap (λ t. t.event) (sym (some-injective h))

  prepare_record-Made :
      (io : ApplyIo) (s : State) (q : Request) (r : Record)
      → prepare_record sv io s q ≡ ok r
      → Made io s q r
  unfolding prepare_record make_record
  prepare_record-Made io s q r h =
      let (random_id, identified, h1) = bind-eq-ok (or_fail sv io.event_id no_event_id) _ h in
      let (revision, prepared, h2) =
        bind-eq-ok (wrap not_prepared (prepare_revision sv s io.device_id io.now q)) _ h1 in
      let (digest, hashed, h3) = bind-eq-ok (or_fail sv (hash_request sv q) encode_failed) _ h2 in
      let e = event_of sv io q random_id digest revision in
      let (valid, h4) = then-eq-ok (wrap bad_event (validate_event sv e)) _ h3 in
      let sealed =
        or_fail-eq-ok sv (make_record sv e (pos s.next) s.last_hash) encode_failed r h4 in
      let same =
        seal-event e (pos s.next) s.last_hash (sv.envelope_json e (pos s.next) s.last_hash) r
          sealed in
      record {
        random_id = random_id;
        digest = digest;
        revision = revision;
        prepared = wrap-eq-ok not_prepared _ prepared;
        event = same;
        valid = subst (λ t. validate_event sv t ≡ ok tt) (sym same) (wrap-eq-ok bad_event _ valid);
        sealed = subst (λ t. make_record sv t (pos s.next) s.last_hash ≡ some r) (sym same) sealed;
      }

  seal-valid :
      (digest : (input : List ℕ) → valid_sha256 (sv.sha256_hex input) ≡ true) (e : Event) (next : ℕ)
      (previous : String) (o : Option (List ℕ)) (r : Record)
      → make_record sv e (pos next) previous ≡ some r
      → seal sv e (pos next) previous o ≡ some r
      → validate_event sv e ≡ ok tt
      → validate_record sv r next previous ≡ ok tt
  unfolding validate_record check_hash
  seal-valid digest e next previous none r made h valid = cc h
  seal-valid digest e next previous (some text) r made h valid =
      subst (λ t. validate_record sv t next previous ≡ ok tt) (some-injective h)
        (rw
          (
            ne_self (pos next),
            ne_self previous,
            digest text,
            valid,
            made ∙ sym h,
            ne_self (sv.sha256_hex text),
          )
          refl)

  made-valid :
      (digest : (input : List ℕ) → valid_sha256 (sv.sha256_hex input) ≡ true) (s : State)
      (r : Record)
      → make_record sv r.event (pos s.next) s.last_hash ≡ some r
      → validate_event sv r.event ≡ ok tt
      → validate_record sv r s.next s.last_hash ≡ ok tt
  unfolding make_record
  made-valid digest s r made valid =
      seal-valid digest r.event s.next s.last_hash
        (sv.envelope_json r.event (pos s.next) s.last_hash) r made made valid

  -- A record that Apply makes for a state is one that replay adds to it, if its revision's id is new
  -- and SHA-256 gives digests.
  pub prepare_record-replay_record :
      (digest : (input : List ℕ) → valid_sha256 (sv.sha256_hex input) ≡ true) (io : ApplyIo)
      (s : State) (q : Request) (r : Record) (n : ℕ)
      → prepare_record sv io s q ≡ ok r
      → elem r.event.revision.revision_id s.revisions ≡ false
      → replay_record sv s n r ≡ ok (record_step s r)
  unfolding replay_record
  prepare_record-replay_record digest io s q r n h fresh =
      let m = prepare_record-Made io s q r h in
      let admitted =
        prepare_revision-IsAdmitted sv s io.device_id io.now q n m.revision m.prepared in
      let own = ap (λ e. e.revision) m.event in
      let moved =
        subst (λ v. check_transition n (find_memory v.memory_id s.current) v v.action ≡ ok tt)
          (sym own) admitted in
      let valid = made-valid digest s r m.sealed m.valid in rw (valid, fresh, moved) refl
