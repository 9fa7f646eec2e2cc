-- ===== src/Retrieval/Adoption.antt =====
-- internal/retrieval/adoption.go: reports of adoption, and `validateAdoptionReceipt` of verify.go.
pub mod Record
use Prim.Native.String.{◌++◌ as str_append}
use agent_memory_system.Prelude.{
  ℕ, zero, suc, String, Bool, true, false, not, ◌&&◌, ◌||◌, List, [], ◌∷◌, ◌++◌, map, Option, some,
  none,
}
use agent_memory_system.Prelude.Tests.{
  string_eq, nat_eq, ◌==◌, ◌!=◌, if◌then◌else◌, leb, ltb, string_ltb,
}
use agent_memory_system.Prelude.Int.{ℤ, pos, int_eq}
use agent_memory_system.Prelude.Lists.{length, elem, all}
use agent_memory_system.Prelude.Order.{sort_by}
use agent_memory_system.Prelude.Result.{ok, err, ◌>>=◌, ◌>>◌, fail_if}
use agent_memory_system.Prelude.Result as Outcome
use agent_memory_system.Prelude.Text.{is_blank, has_prefix}
use agent_memory_system.Ledger.Types.{
  Event, Time, Payload, BlobRef, Causality, schema_version_v1alpha2,
}
use agent_memory_system.Ledger.Blobs.{inline_payload}
use agent_memory_system.Retrieval.Types.{
  adoption_request_schema_version, privacy_local_only, agent_unknown, channel_cli, Context, Request,
  MemoryReference, Match, Receipt, thread_id_for_context, valid_memory_reference, valid_agent,
  valid_channel,
}
use agent_memory_system.Retrieval.Terms.{term_eq}
use agent_memory_system.Retrieval.Normalize.{is_null}
use agent_memory_system.Retrieval.Sets.{reference_eq, is_sorted_unique, sorted_unique}
use agent_memory_system.Retrieval.Receipts.{
  Services, issue_if, same_list, source_matches_context, validate_receipt,
}
use agent_memory_system.Retrieval.Render.{render_bounded_context}
use agent_memory_system.Retrieval.Injection.{InjectionReceipt, validate_injection_receipt}
use agent_memory_system.Retrieval.Causes.{
  Entry, Entries, find_event, answer, out_of_fuel, Answer, event_descends_from,
}

pub record Reporter : Type 0 where
  pub kind : String
  pub id : String

pub record AdoptionItem : Type 0 where
  pub reference : MemoryReference
  pub adoption : String
  pub outcome : String
  pub reason : String

pub record AdoptionRequest : Type 0 where
  pub schema_version : String
  pub reporter : Reporter
  pub retrieval_receipt_id : String
  pub injection_id : String
  pub items : List AdoptionItem
  pub outcome_evidence_event_ids : List String

pub record AdoptionReceipt : Type 0 where
  pub schema_version : String
  pub adoption_id : String
  pub recorded_at : Time
  pub reporter : Reporter
  pub retrieval_receipt_id : String
  pub injection_id : String
  pub items : List AdoptionItem
  pub outcome_evidence_event_ids : List String
  pub request_sha256 : String
  pub privacy : String

pub data AdoptionError : Type 0 where
  unsupported_adoption_schema invalid_reporter no_retrieval_id invalid_injection_id no_items
        invalid_reference repeated_reference invalid_adoption invalid_outcome outcome_not_adopted
        no_reason evidence_not_sorted outcome_without_injection outcome_without_evidence
        several_outcomes :
      AdoptionError
  invalid_context_agent invalid_context_channel agent_differs thread_differs session_differs :
      AdoptionError
  retrieval_invalid injection_invalid retrieval_unavailable injection_unavailable
        injection_not_following injection_context injection_foreign_memory
        injection_not_deterministic item_not_delivered :
      AdoptionError
  evidence_unavailable evidence_not_following evidence_other_context evidence_not_caused
        wrong_evidence_kind incomplete_evidence blob_not_opened blob_not_read blob_differs :
      AdoptionError
  adoption_not_encoded no_adoption_id adoption_receipt_not_encoded : AdoptionError

-- `validReporter`.
unfoldable pub valid_reporter : Reporter → Bool
unfolding is_blank
valid_reporter r =
    not (is_blank r.id) && (r.kind == "human" || r.kind == "agent" || r.kind == "harness")

abbrev adoptions : List String
adoptions = "adopted" ∷ "not_adopted" ∷ "unknown" ∷ []

abbrev outcomes : List String
outcomes = "helpful" ∷ "neutral" ∷ "harmful" ∷ "unknown" ∷ []

-- The loop over the items, with the references seen and the outcomes attributed so far.
unfoldable pub check_items :
    List MemoryReference → ℕ → List AdoptionItem → Outcome.Result AdoptionError ℕ
unfolding valid_memory_reference elem is_blank
check_items seen n [] = ok n
check_items seen n (i ∷ is) = do
  fail_if (not (valid_memory_reference i.reference)) invalid_reference
  fail_if (elem i.reference seen) repeated_reference
  fail_if (not (elem i.adoption adoptions)) invalid_adoption
  fail_if (not (elem i.outcome outcomes)) invalid_outcome
  fail_if (i.adoption != "adopted" && i.outcome != "unknown") outcome_not_adopted
  fail_if (is_blank i.reason) no_reason
  check_items (i.reference ∷ seen) (if i.outcome != "unknown" then suc n else n) is

-- `validateAdoptionRequest`; an outcome is claimed where one is attributed.
unfoldable pub validate_adoption_request : AdoptionRequest → Outcome.Result AdoptionError (Unit {0})
unfolding valid_reporter has_prefix check_items is_sorted_unique
validate_adoption_request q = do
  fail_if (q.schema_version != adoption_request_schema_version) unsupported_adoption_schema
  fail_if (not (valid_reporter q.reporter)) invalid_reporter
  fail_if (not (has_prefix q.retrieval_receipt_id "retrieval-")) no_retrieval_id
  fail_if (q.injection_id != "" && not (has_prefix q.injection_id "injection-"))
      invalid_injection_id
  fail_if (is_null q.items) no_items
  attributed ← check_items [] 0 q.items
  fail_if (not (is_sorted_unique q.outcome_evidence_event_ids)) evidence_not_sorted
  fail_if (ltb 0 attributed && q.injection_id == "") outcome_without_injection
  fail_if (ltb 0 attributed && is_null q.outcome_evidence_event_ids) outcome_without_evidence
  fail_if (ltb 1 attributed) several_outcomes

-- `alignAdoptionContext`.
unfoldable pub align_adoption_context : Context → Context → Outcome.Result AdoptionError Context
align_adoption_context observed retrieved = do
  fail_if (observed.agent != agent_unknown && observed.agent != retrieved.agent) agent_differs
  fail_if (observed.thread_id != "" && observed.thread_id != retrieved.thread_id) thread_differs
  fail_if (observed.session_id != "" && observed.session_id != retrieved.session_id) session_differs
  ok (record observed {
    agent = if observed.agent == agent_unknown then retrieved.agent else observed.agent;
    thread_id = if observed.thread_id == "" then retrieved.thread_id else observed.thread_id;
    session_id = if observed.session_id == "" then retrieved.session_id else observed.session_id;
  })

-- `causalityMatches`.
unfoldable pub causality_matches : Event → List String → Bool
unfolding sort_by
causality_matches e [] = elim e.causality [ none ↦ true | some c ↦ false ]
causality_matches e (p ∷ ps) = elim e.causality [
  | none ↦ false
  | some c ↦
      same_list (λ s t. s == t) (sort_by string_ltb c.parent_event_ids)
        (sort_by string_ltb (p ∷ ps))
]

-- `store.OpenBlob` and the copy of its file.
pub data BlobRead : Type 0 where
  not_opened not_read : BlobRead
  content : List ℕ → BlobRead

-- What `RecordAdoption` reads: the events of the ledger in their order, blobs, the JSON of receipts and
-- requests, the clock and the id of NewEventID.
pub record AdoptionIo : Type 0 where
  pub events : List Event
  pub open_blob : BlobRef → BlobRead
  pub parse_receipt : String → Option Receipt
  pub parse_injection : String → Option InjectionReceipt
  pub request_json : AdoptionRequest → Option (List ℕ)
  pub receipt_json : AdoptionReceipt → Option String
  pub now : Time
  pub random_id : Option String
  pub device_id : String

-- The text of a receipt, where `decodeReceiptEvent` goes on to decode it.
unfoldable pub receipt_text : Event → Option String
receipt_text e = elim e.payload [
  | none ↦ none
  | some p ↦
      if p.encoding != "json"
        || p.media_type != "application/json"
        || e.completeness.status != "complete"
        || e.source.adapter != "agentmem-retrieval"
        || e.source.adapter_version != "v1alpha1"
      then none
      else p.content
]

-- The maps `evidenceEvents` and `eventIndexes` behind the loop, the count starting at `index`.
unfoldable pub index_events : ℕ → Entries → List Event → Entries
index_events index es [] = es
index_events index es (e ∷ rest) =
    index_events (suc index) (record { event = e; index = index } ∷ es) rest

-- `eventIndexes[id]`.
unfoldable pub index_of : String → Entries → ℕ
unfolding find_event
index_of id es = elim (find_event id es) [ none ↦ 0 | some e ↦ e.index ]

abbrev pub is_yes : Answer → Bool
is_yes (answer b) = b
is_yes out_of_fuel = false
