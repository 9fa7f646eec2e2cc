-- ===== src/Retrieval/Adoption/Record.antt =====
-- `RecordAdoption` and `appendAdoptionEvent` of internal/retrieval/adoption.go, and
-- `validateAdoptionReceipt` of verify.go.
use Prim.Native.String.{◌++◌ as str_append}
use agent_memory_system.Prelude.{
  ℕ, String, Bool, true, false, not, ◌&&◌, ◌||◌, List, [], ◌∷◌, ◌++◌, map, Option, some, none,
}
use agent_memory_system.Prelude.Tests.{string_eq, nat_eq, ◌==◌, ◌!=◌, if◌then◌else◌, leb}
use agent_memory_system.Prelude.Int.{pos, int_eq}
use agent_memory_system.Prelude.Lists.{length, elem, all}
use agent_memory_system.Prelude.Result.{ok, err, ◌>>=◌, ◌>>◌, fail_if}
use agent_memory_system.Prelude.Result as Outcome
use agent_memory_system.Ledger.Types.{Event, Payload, BlobRef, schema_version_v1alpha2}
use agent_memory_system.Ledger.Blobs.{inline_payload}
use agent_memory_system.Retrieval.Types.{
  adoption_request_schema_version, privacy_local_only, channel_cli, Context, MemoryReference, Match,
  Receipt, thread_id_for_context, valid_agent, valid_channel,
}
use agent_memory_system.Retrieval.Terms.{term_eq}
use agent_memory_system.Retrieval.Normalize.{is_null}
use agent_memory_system.Retrieval.Sets.{reference_eq, sorted_unique}
use agent_memory_system.Retrieval.Receipts.{
  Services, issue_if, same_list, source_matches_context, validate_receipt,
}
use agent_memory_system.Retrieval.Render.{render_bounded_context}
use agent_memory_system.Retrieval.Injection.{InjectionReceipt, validate_injection_receipt}
use agent_memory_system.Retrieval.Causes.{Entries, find_event, event_descends_from}
use agent_memory_system.Retrieval.Adoption.{
  AdoptionRequest, AdoptionReceipt, AdoptionError, invalid_context_agent, invalid_context_channel,
  retrieval_invalid, injection_invalid, retrieval_unavailable, injection_unavailable,
  injection_not_following, injection_context, injection_foreign_memory, injection_not_deterministic,
  item_not_delivered, evidence_unavailable, evidence_not_following, evidence_other_context,
  evidence_not_caused, wrong_evidence_kind, incomplete_evidence, blob_not_opened, blob_not_read,
  blob_differs, adoption_not_encoded, no_adoption_id, adoption_receipt_not_encoded,
  validate_adoption_request, align_adoption_context, causality_matches, not_opened, not_read,
  content, AdoptionIo, receipt_text, index_events, index_of, is_yes,
}

abbrev pub adoption_receipt_schema_version : String
adoption_receipt_schema_version = "memory-adoption-receipt/v1alpha1"

abbrev pub or_adoption_error :
    {A : Type 0} → Option A → AdoptionError → Outcome.Result AdoptionError A
or_adoption_error none e = err e
or_adoption_error (some a) e = ok a

module _ (sv : Services) (quote : String → List ℕ) (io : AdoptionIo) where
  -- The blob of a payload, if it has one, against its size and digest.
  unfoldable pub check_blob : Payload → Option BlobRef → Outcome.Result AdoptionError (Unit {0})
  check_blob p none = ok tt
  check_blob p (some blob) = elim (io.open_blob blob) [
    | not_opened ↦ err blob_not_opened
    | not_read ↦ err blob_not_read
    | content text ↦
        fail_if (pos (length text) != p.bytes || sv.sha256_hex text != p.sha256) blob_differs
  ]

  abbrev check_payload_blob : Option Payload → Outcome.Result AdoptionError (Unit {0})
  check_payload_blob none = err incomplete_evidence
  check_payload_blob (some p) = check_blob p p.blob

  -- `verifyOutcomeEvidence`.
  unfoldable pub verify_outcome_evidence : Event → Outcome.Result AdoptionError (Unit {0})
  unfolding check_blob
  verify_outcome_evidence e = do
    fail_if (e.kind != "tool_result" && e.kind != "file_change") wrong_evidence_kind
    fail_if (e.completeness.status != "complete") incomplete_evidence
    check_payload_blob e.payload

  -- A receipt that is decoded and passes its tests.
  unfoldable pub decode_retrieval : Event → Outcome.Result AdoptionError Receipt
  unfolding receipt_text validate_receipt
  decode_retrieval e = do
    text ← or_adoption_error (receipt_text e) retrieval_invalid
    receipt ← or_adoption_error (io.parse_receipt text) retrieval_invalid
    fail_if (not (is_null (validate_receipt sv e receipt))) retrieval_invalid
    ok receipt

  unfoldable pub decode_injection : Event → Outcome.Result AdoptionError InjectionReceipt
  unfolding receipt_text validate_injection_receipt
  decode_injection e = do
    text ← or_adoption_error (receipt_text e) injection_invalid
    receipt ← or_adoption_error (io.parse_injection text) injection_invalid
    fail_if (not (is_null (validate_injection_receipt sv e receipt))) injection_invalid
    ok receipt

  abbrev some_of :
      {A : Type 0} → Outcome.Result AdoptionError A → Outcome.Result AdoptionError (Option A)
  some_of r = r >>= λ a. ok (some a)

  -- The decoding in the loop over the records; the last event of an id counts.
  unfoldable pub visit_references :
      AdoptionRequest
      → Option Receipt
      → Option InjectionReceipt
      → List Event
      → Outcome.Result AdoptionError (Option Receipt × Option InjectionReceipt)
  unfolding decode_retrieval decode_injection
  visit_references q r i [] = ok (r, i)
  visit_references q r i (e ∷ es) = do
    found ← if e.event_id == q.retrieval_receipt_id then some_of (decode_retrieval e) else ok r
    injected ←
        if q.injection_id != "" && e.event_id == q.injection_id
        then some_of (decode_injection e)
        else ok i
    visit_references q found injected es

  abbrev pub references_of : List Match → List MemoryReference
  references_of = map (λ m. m.reference)

  abbrev pub all_in : List MemoryReference → List MemoryReference → Bool
  unfolding all elem
  all_in allowed rs = all (λ r. elem r allowed) rs

  -- The tests on the injection, and the references that it allows. An injection that was decoded has an
  -- entry.
  unfoldable pub check_injection :
      AdoptionRequest
      → Entries
      → Receipt
      → Option InjectionReceipt
      → Outcome.Result AdoptionError (List MemoryReference)
  unfolding source_matches_context causality_matches render_bounded_context index_of find_event
  check_injection q es r none = err injection_unavailable
  check_injection q es r (some i) = do
    fail_if (i.injection_id != q.injection_id || i.retrieval_receipt_id != q.retrieval_receipt_id)
        injection_unavailable
    entry ← or_adoption_error (find_event q.injection_id es) injection_unavailable
    fail_if (leb (index_of q.injection_id es) (index_of q.retrieval_receipt_id es))
        injection_not_following
    fail_if
        (i.channel != r.request.context.channel
          || not (source_matches_context entry.event r.request.context)
          || not (causality_matches entry.event (q.retrieval_receipt_id ∷ [])))
        injection_context
    fail_if (not (all_in (references_of r.result.selected) i.memories)) injection_foreign_memory
    fail_if
        (i.content != (render_bounded_context quote r.result r.request).0
          || not (
              same_list (λ a b. a == b) i.memories
                (render_bounded_context quote r.result r.request).1))
        injection_not_deterministic
    ok i.memories

  -- The id that the evidence must descend from.
  abbrev pub delivery_id : AdoptionRequest → String
  delivery_id q = if q.injection_id == "" then q.retrieval_receipt_id else q.injection_id

  -- The tests on one event of the outcome evidence.
  unfoldable pub check_outcome_event :
      AdoptionRequest → Entries → Receipt → String → Outcome.Result AdoptionError (Unit {0})
  unfolding find_event source_matches_context verify_outcome_evidence event_descends_from index_of
  check_outcome_event q es r id = do
    entry ← or_adoption_error (find_event id es) evidence_unavailable
    fail_if (leb entry.index (index_of (delivery_id q) es)) evidence_not_following
    fail_if (not (source_matches_context entry.event r.request.context)) evidence_other_context
    verify_outcome_evidence entry.event
    fail_if (not (is_yes (event_descends_from es id (delivery_id q)))) evidence_not_caused

  unfoldable pub check_outcome_events :
      AdoptionRequest → Entries → Receipt → List String → Outcome.Result AdoptionError (Unit {0})
  unfolding check_outcome_event
  check_outcome_events q es r [] = ok tt
  check_outcome_events q es r (id ∷ ids) = do
    check_outcome_event q es r id
    check_outcome_events q es r ids

  -- The receipt.
  unfoldable pub make_adoption : AdoptionRequest → String → String → AdoptionReceipt
  make_adoption q id request_sha256 = record {
    schema_version = adoption_receipt_schema_version;
    adoption_id = id;
    recorded_at = io.now;
    reporter = q.reporter;
    retrieval_receipt_id = q.retrieval_receipt_id;
    injection_id = q.injection_id;
    items = q.items;
    outcome_evidence_event_ids = q.outcome_evidence_event_ids;
    request_sha256 = request_sha256;
    privacy = privacy_local_only;
  }

  -- The parents that `appendAdoptionEvent` sorts.
  unfoldable pub parent_ids : AdoptionReceipt → List String
  parent_ids r =
      (r.retrieval_receipt_id ∷ r.outcome_evidence_event_ids)
      ++ (if r.injection_id != "" then r.injection_id ∷ [] else [])

  -- The event of `appendAdoptionEvent`.
  unfoldable pub adoption_event : AdoptionReceipt → String → Context → Event
  unfolding inline_payload thread_id_for_context sorted_unique parent_ids
  adoption_event r text c = record {
    schema_version = schema_version_v1alpha2;
    event_id = r.adoption_id;
    kind = "memory_adoption";
    observed_at = r.recorded_at;
    recorded_at = r.recorded_at;
    source = record {
      agent = c.agent;
      adapter = "agentmem-retrieval";
      adapter_version = "v1alpha1";
      device_id = io.device_id;
      os = "";
      thread_id = thread_id_for_context c;
      session_id = c.session_id;
      source_event_id = "";
      source_path_hash = "";
      acquisition_path_hash = "";
      source_cursor = "";
      byte_start = none;
      byte_end = none;
    };
    payload = some (inline_payload sv.sha256_hex "json" "application/json" text);
    reasoning = none;
    completeness = record {
      status = "complete";
      reason = "";
      expected_bytes = none;
      captured_bytes = none;
    };
    causality = some (record {
      parent_event_ids = sorted_unique (parent_ids r);
      call_id = "";
      compaction_id = "";
    });
    privacy = record { classification = privacy_local_only };
  }

  -- `RecordAdoption` behind its checks: the receipt and its event.
  unfoldable pub finish_adoption :
      AdoptionRequest → Context → Outcome.Result AdoptionError (AdoptionReceipt × Event)
  unfolding make_adoption adoption_event
  finish_adoption q c = do
    encoded ← or_adoption_error (io.request_json q) adoption_not_encoded
    random_id ← or_adoption_error io.random_id no_adoption_id
    let made = make_adoption q (str_append "adoption-" random_id) (sv.sha256_hex encoded)
    text ← or_adoption_error (io.receipt_json made) adoption_receipt_not_encoded
    ok (made, adoption_event made text c)

  -- The tests of `RecordAdoption` behind the loop over the records, with the aligned context.
  unfoldable pub check_adoption :
      AdoptionRequest
      → Context
      → Entries
      → Option Receipt
      → Option InjectionReceipt
      → Outcome.Result AdoptionError Context
  unfolding align_adoption_context check_injection check_outcome_events
  check_adoption q c es none i = err retrieval_unavailable
  check_adoption q c es (some r) i = do
    fail_if (r.receipt_id != q.retrieval_receipt_id || r.result.status != "completed")
        retrieval_unavailable
    aligned ← align_adoption_context c r.request.context
    allowed ←
        if q.injection_id != ""
        then check_injection q es r i
        else ok (references_of r.result.selected)
    fail_if (not (all_in allowed (map (λ item. item.reference) q.items))) item_not_delivered
    check_outcome_events q es r q.outcome_evidence_event_ids
    ok aligned

  -- `RecordAdoption` up to the append of its event.
  unfoldable pub record_adoption :
      Context → AdoptionRequest → Outcome.Result AdoptionError (AdoptionReceipt × Event)
  unfolding valid_agent valid_channel validate_adoption_request visit_references index_events
      check_adoption finish_adoption
  record_adoption observed q = do
    fail_if (not (valid_agent observed.agent)) invalid_context_agent
    let c = record observed {
      channel = if observed.channel == "" then channel_cli else observed.channel;
    }
    fail_if (not (valid_channel c.channel)) invalid_context_channel
    validate_adoption_request q
    (found, injected) ← visit_references q none none io.events
    aligned ← check_adoption q c (index_events 1 [] io.events) found injected
    finish_adoption q aligned

  -- `err != nil`.
  abbrev pub is_error : Outcome.Result AdoptionError (Unit {0}) → Bool
  is_error (ok u) = false
  is_error (err e) = true

  -- The request that `validateAdoptionReceipt` projects out of a receipt.
  unfoldable pub projected : AdoptionReceipt → AdoptionRequest
  projected r = record {
    schema_version = adoption_request_schema_version;
    reporter = r.reporter;
    retrieval_receipt_id = r.retrieval_receipt_id;
    injection_id = r.injection_id;
    items = r.items;
    outcome_evidence_event_ids = r.outcome_evidence_event_ids;
  }

  abbrev pub adoption_bytes : Option (List ℕ) → List ℕ
  adoption_bytes none = []
  adoption_bytes (some text) = text

  -- `validateAdoptionReceipt`.
  unfoldable pub validate_adoption_receipt : Event → AdoptionReceipt → List String
  unfolding sorted_unique validate_adoption_request projected
  validate_adoption_receipt e r = sorted_unique (
      issue_if
        (r.schema_version != adoption_receipt_schema_version
          || r.adoption_id != e.event_id
          || r.privacy != privacy_local_only)
        "adoption receipt envelope is invalid"
      ++ (issue_if (r.recorded_at != e.recorded_at || e.observed_at != e.recorded_at)
            "adoption timestamps do not match the evidence event"
          ++ (issue_if (is_error (validate_adoption_request (projected r)))
                "adoption request projection is invalid"
              ++ issue_if
                  (r.request_sha256
                    != sv.sha256_hex (adoption_bytes (io.request_json (projected r))))
                  "adoption request hash is invalid")))
