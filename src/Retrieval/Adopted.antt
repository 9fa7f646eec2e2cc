-- ===== src/Retrieval/Adopted.antt =====
-- What `RecordAdoption` records.
mod Tests
use Prim.Native.String.{◌++◌ as str_append}
use agent_memory_system.Prelude.{
  ℕ, ◌<◌, String, Bool, true, false, not, ◌&&◌, ◌||◌, List, [], ◌∷◌, ◌++◌, Option, some, none, map,
  ◌≡◌, refl, sym, ap, subst, ◌∙◌, inl, inr, arith,
}
use agent_memory_system.Prelude.Tests.{
  string_eq, nat_eq, ◌==◌, ◌!=◌, if◌then◌else◌, leb, Bool-cases, ne_self, unchanged, eq_of_not-ne,
  ◌orelse◌, true_of_not,
}
use agent_memory_system.Prelude.Lists.{All}
use agent_memory_system.Prelude.Result.{
  ok, err, ◌>>=◌, bind-eq-ok, then-eq-ok, ok-injective, fail_if, fail_if-then, fail_if-eq-ok,
}
use agent_memory_system.Ledger.Types.{Event}
use agent_memory_system.Retrieval.Types.{
  adoption_request_schema_version, channel_cli, Context, Receipt, valid_agent, valid_channel,
}
use agent_memory_system.Retrieval.Sets.{sorted_unique}
use agent_memory_system.Retrieval.Receipts.{Services, issue_if, source_matches_context}
use agent_memory_system.Retrieval.Injection.{InjectionReceipt}
use agent_memory_system.Retrieval.Causes.{
  Entry, Entries, find_event, Answer, answer, out_of_fuel, event_descends_from,
}
use agent_memory_system.Retrieval.Descent.{Descends, event_descends_from-Descends}
use agent_memory_system.Retrieval.Adoption.{
  AdoptionRequest, AdoptionReceipt, AdoptionError, unsupported_adoption_schema,
  invalid_context_agent, invalid_context_channel, retrieval_unavailable, evidence_unavailable,
  evidence_not_following, evidence_other_context, evidence_not_caused, item_not_delivered,
  adoption_not_encoded, no_adoption_id, adoption_receipt_not_encoded, validate_adoption_request,
  align_adoption_context, AdoptionIo, index_events, index_of, is_yes,
}
use agent_memory_system.Retrieval.Adoption.Record.{
  or_adoption_error, visit_references, check_injection, delivery_id, verify_outcome_evidence,
  check_outcome_event, check_outcome_events, make_adoption, adoption_event, finish_adoption,
  check_adoption, record_adoption, is_error, projected, adoption_bytes, validate_adoption_receipt,
  references_of, all_in,
}

less_of_not-leb : (m n : ℕ) → leb m n ≡ false → n < m
less_of_not-leb m n h = ground arith

or_adoption_error-some :
    {A : Type 0} (o : Option A) (e : AdoptionError) {a : A}
    → or_adoption_error o e ≡ ok a
    → o ≡ some a
or_adoption_error-some none e h = cc h
or_adoption_error-some (some a) e h = ap some (ok-injective h)

module _ (sv : Services) (quote : String → List ℕ) (io : AdoptionIo) where
  -- The event is there, recorded behind the delivery, and a chain of parents leads to the delivery.
  abbrev pub IsEvidence : AdoptionRequest → Entries → String → Type 0
  IsEvidence q es id =
      (x : Entry) × (find_event id es ≡ some x)
      × (index_of (delivery_id sv quote io q) es < x.index)
      × Descends es id (delivery_id sv quote io q)

  yes-Descends :
      (es : Entries) (id a : String)
      → is_yes (event_descends_from es id a) ≡ true
      → Descends es id a
  yes-Descends es id a h =
      event_descends_from-Descends es id a (yes (event_descends_from es id a) h)
    where
      yes : (x : Answer) → is_yes x ≡ true → x ≡ answer true
      yes (answer b) k = ap answer k
      yes out_of_fuel k = cc k

  check_outcome_event-IsEvidence :
      (q : AdoptionRequest) (es : Entries) (r : Receipt) (id : String)
      → check_outcome_event sv quote io q es r id ≡ ok tt
      → IsEvidence q es id
  unfolding check_outcome_event
  check_outcome_event-IsEvidence q es r id h =
      let (x, there, h1) =
        bind-eq-ok (or_adoption_error (find_event id es) evidence_unavailable) _ h in
      let delivery = delivery_id sv quote io q in
      let (later, h2) =
        fail_if-then (leb x.index (index_of delivery es)) evidence_not_following _ h1 in
      let (_, h3) =
        fail_if-then (not (source_matches_context x.event r.request.context)) evidence_other_context
          _ h2 in
      let (_, h4) = then-eq-ok (verify_outcome_evidence sv quote io x.event) _ h3 in
      let caused =
        fail_if-eq-ok (not (is_yes (event_descends_from es id delivery))) evidence_not_caused h4 in
      (
        x,
        or_adoption_error-some (find_event id es) evidence_unavailable there,
        less_of_not-leb x.index (index_of delivery es) later,
        yes-Descends es id delivery
            (true_of_not (is_yes (event_descends_from es id delivery)) caused),
      )

  check_outcome_events-All :
      (q : AdoptionRequest) (es : Entries) (r : Receipt) (ids : List String)
      → check_outcome_events sv quote io q es r ids ≡ ok tt
      → All (IsEvidence q es) ids
  unfolding check_outcome_events
  check_outcome_events-All q es r [] h = tt
  check_outcome_events-All q es r (id ∷ ids) h =
      let (first, rest) = then-eq-ok (check_outcome_event sv quote io q es r id) _ h in
      (check_outcome_event-IsEvidence q es r id first, check_outcome_events-All q es r ids rest)

  check_adoption-All :
      (q : AdoptionRequest) (c : Context) (es : Entries) (found : Option Receipt)
      (i : Option InjectionReceipt) (aligned : Context)
      → check_adoption sv quote io q c es found i ≡ ok aligned
      → All (IsEvidence q es) q.outcome_evidence_event_ids
  unfolding check_adoption
  check_adoption-All q c es none i aligned h = cc h
  check_adoption-All q c es (some r) i aligned h =
      let (_, h1) =
        fail_if-then (r.receipt_id != q.retrieval_receipt_id || r.result.status != "completed")
          retrieval_unavailable _ h in
      let (_, _, h2) = bind-eq-ok (align_adoption_context c r.request.context) _ h1 in
      let (allowed, _, h3) =
        bind-eq-ok
          (if q.injection_id != ""
            then check_injection sv quote io q es r i
            else ok (references_of sv quote io r.result.selected))
          _ h2 in
      let (_, h4) = fail_if-then _ item_not_delivered _ h3 in
      let (checked, _) =
        then-eq-ok (check_outcome_events sv quote io q es r q.outcome_evidence_event_ids) _ h4 in
      check_outcome_events-All q es r q.outcome_evidence_event_ids checked

  -- What `RecordAdoption` has done where it succeeds.
  record Recorded (observed : Context) (q : AdoptionRequest) (r : AdoptionReceipt) (e : Event)
      : Type 0 where
    request : validate_adoption_request q ≡ ok tt
    evidence : All (IsEvidence q (index_events 1 [] io.events)) q.outcome_evidence_event_ids
    context : Context
    finished : finish_adoption sv quote io q context ≡ ok (r, e)

  record_adoption-Recorded :
      (observed : Context) (q : AdoptionRequest) (r : AdoptionReceipt) (e : Event)
      → record_adoption sv quote io observed q ≡ ok (r, e)
      → Recorded observed q r e
  unfolding record_adoption
  record_adoption-Recorded observed q r e h =
      let c = record observed {
        channel = if observed.channel == "" then channel_cli else observed.channel;
      } in
      let (_, h1) = fail_if-then (not (valid_agent observed.agent)) invalid_context_agent _ h in
      let (_, h2) = fail_if-then (not (valid_channel c.channel)) invalid_context_channel _ h1 in
      let (valid, h3) = then-eq-ok (validate_adoption_request q) _ h2 in
      let (pair, _, h4) = bind-eq-ok (visit_references sv quote io q none none io.events) _ h3 in
      let (aligned, checked, h5) =
        bind-eq-ok (check_adoption sv quote io q c (index_events 1 [] io.events) pair.0 pair.1) _
          h4 in
      record {
        request = valid;
        evidence =
            check_adoption-All q c (index_events 1 [] io.events) pair.0 pair.1 aligned checked;
        context = aligned;
        finished = h5;
      }

  -- Each event that an adoption names as evidence of an outcome was recorded behind the delivery, and a
  -- chain of parents leads from it to the injection, or to the retrieval where there is none.
  pub record_adoption-All :
      (observed : Context) (q : AdoptionRequest) (r : AdoptionReceipt) (e : Event)
      → record_adoption sv quote io observed q ≡ ok (r, e)
      → All (IsEvidence q (index_events 1 [] io.events)) q.outcome_evidence_event_ids
  record_adoption-All observed q r e h = (record_adoption-Recorded observed q r e h).evidence

  projected-make_adoption :
      (q : AdoptionRequest) (id sha : String)
      → validate_adoption_request q ≡ ok tt
      → projected sv quote io (make_adoption sv quote io q id sha) ≡ q
  unfolding projected make_adoption validate_adoption_request
  projected-make_adoption q id sha h =
      let (same, _) =
        fail_if-then (q.schema_version != adoption_request_schema_version)
          unsupported_adoption_schema _ h in
      let schema = eq_of_not-ne q.schema_version adoption_request_schema_version same in cc

  no_issues :
      {a b c d : List String} → a ≡ [] → b ≡ [] → c ≡ [] → d ≡ [] → a ++ (b ++ (c ++ d)) ≡ []
  no_issues h i j k = rw (h, i, j, k) refl

  no_issue_if : (b : Bool) (issue : String) → b ≡ false → issue_if b issue ≡ []
  no_issue_if b issue h = rw h refl

  make_adoption-valid :
      (q : AdoptionRequest) (c : Context) (id text : String) (encoded : List ℕ)
      → validate_adoption_request q ≡ ok tt
      → io.request_json q ≡ some encoded
      → validate_adoption_receipt sv quote io
          (adoption_event sv quote io
            (make_adoption sv quote io q id (sv.sha256_hex encoded))
            text
            c)
          (make_adoption sv quote io q id (sv.sha256_hex encoded))
        ≡ []
  unfolding validate_adoption_receipt make_adoption adoption_event sorted_unique
  make_adoption-valid q c id text encoded valid json =
      let same = projected-make_adoption q id (sv.sha256_hex encoded) valid in
      ap sorted_unique (
        no_issues (no_issue_if _ _ (refl orelse ne_self id orelse refl))
          (no_issue_if _ _ (ne_self io.now orelse ne_self io.now))
          (no_issue_if _ _ (ap (is_error sv quote io) (ap validate_adoption_request same ∙ valid)))
          (no_issue_if _ _ (
            unchanged (
              ap (λ j. sv.sha256_hex (adoption_bytes sv quote io j))
                (sym (ap io.request_json same ∙ json))))))

  -- The receipt that RecordAdoption records passes validateAdoptionReceipt with its event.
  pub record_adoption-validate_adoption_receipt :
      (observed : Context) (q : AdoptionRequest) (r : AdoptionReceipt) (e : Event)
      → record_adoption sv quote io observed q ≡ ok (r, e)
      → validate_adoption_receipt sv quote io e r ≡ []
  unfolding finish_adoption
  record_adoption-validate_adoption_receipt observed q r e h =
      let done = record_adoption-Recorded observed q r e h in
      let (encoded, json, h1) =
        bind-eq-ok (or_adoption_error (io.request_json q) adoption_not_encoded) _ done.finished in
      let (random_id, _, h2) = bind-eq-ok (or_adoption_error io.random_id no_adoption_id) _ h1 in
      let id = str_append "adoption-" random_id in
      let made = make_adoption sv quote io q id (sv.sha256_hex encoded) in
      let (text, _, h3) =
        bind-eq-ok (or_adoption_error (io.receipt_json made) adoption_receipt_not_encoded) _ h2 in
      subst (λ p. validate_adoption_receipt sv quote io p.1 p.0 ≡ []) (ok-injective h3)
        (make_adoption-valid q done.context id text encoded done.request
          (or_adoption_error-some (io.request_json q) adoption_not_encoded json))
