-- ===== src/Retrieval/Adopted/Tests.antt =====
-- A context that is built for a concrete search, and a report of its adoption.
use agent_memory_system.Prelude.{ℕ, String, List, [], ◌∷◌, ◌++◌, some, none, ◌≡◌, refl, inr}
use agent_memory_system.Prelude.Tests.{string_eq}
use agent_memory_system.Prelude.Lists.{All}
use agent_memory_system.Prelude.Result.{ok}
use agent_memory_system.Prelude.Text.{runes}
use agent_memory_system.Ledger.Types.{Event}
use agent_memory_system.Retrieval.Types.{Request, Receipt}
use agent_memory_system.Retrieval.Normalize.{with_defaults}
use agent_memory_system.Retrieval.Search.{make_receipt, receipt_event}
use agent_memory_system.Retrieval.Receipts.{is_normal, validate_receipt}
use agent_memory_system.Retrieval.Render.{render_bounded_context}
use agent_memory_system.Retrieval.Injection.{
  InjectionReceipt, InjectionIo, Built, empty_context, make_injection, injection_event,
  build_context, validate_injection_receipt,
}
use agent_memory_system.Retrieval.Delivered.{build_context-validate_injection_receipt}
use agent_memory_system.Retrieval.Adoption.{
  AdoptionRequest, AdoptionReceipt, AdoptionIo, receipt_text, not_opened, index_events,
}
use agent_memory_system.Retrieval.Adoption.Record.{
  make_adoption, adoption_event, record_adoption, validate_adoption_receipt,
}
use agent_memory_system.Retrieval.Adopted.{
  IsEvidence, record_adoption-All, record_adoption-validate_adoption_receipt,
}
use agent_memory_system.Retrieval.Verify.{empty_graph, verify_events}
use agent_memory_system.Retrieval.Verify.Clean.{
  HasOtherId, IsAccepted, retrieval as checked_retrieval, other, differs, verify_events-IsAccepted,
}
use agent_memory_system.Retrieval.Verify.Complete.{verify_events_complete}
use agent_memory_system.Prelude.Order.Chain.{IsPairwise}
use agent_memory_system.Retrieval.Demo.{
  demo_unicode-UnicodeLaws, demo_services, demo_digests, demo_io, demo_request, demo_digest,
  first_memory, demo_loaded,
}

abbrev normal : Request
unfolding with_defaults
normal = with_defaults demo_request

abbrev receipt : Receipt
unfolding make_receipt
receipt = make_receipt demo_services demo_io normal "/m" "retrieval-x" (b'{' ∷ b'}' ∷ [])

abbrev retrieval : Event
unfolding receipt_event
retrieval = receipt_event demo_services demo_io receipt "{}" normal.context

-- `%q` of a text without special characters.
abbrev demo_quote : String → List ℕ
unfolding runes
demo_quote s = (34 ∷ runes s) ++ (34 ∷ [])

abbrev demo_injection_io : InjectionIo
demo_injection_io = record {
  now = 8;
  random_id = some "y";
  device_id = "device-1";
  injection_json = λ r. some "{}";
}

abbrev injected : InjectionReceipt
unfolding make_injection render_bounded_context
injected =
    make_injection demo_services normal "retrieval-x" 8 "injection-y"
      (render_bounded_context demo_quote receipt.result normal).0
      (render_bounded_context demo_quote receipt.result normal).1

abbrev injection : Event
unfolding injection_event
injection = injection_event demo_services demo_injection_io injected "{}" normal.context

abbrev built : Built
built = record {
  result = record (empty_context receipt.result) {
    injection_id = "injection-y";
    memories = injected.memories;
    content = injected.content;
    content_sha256 = injected.content_sha256;
    content_bytes = injected.content_bytes;
    estimated_tokens = injected.estimated_tokens;
  };
  receipt = receipt;
  retrieval_event = retrieval;
  injection = some (injected, injection);
}

demo_built :
    build_context demo_services demo_quote demo_io demo_injection_io demo_request ≡ ok built
unfolding build_context
demo_built = refl

build_context-validate_injection_receipt_example :
    (validate_injection_receipt demo_services injection injected ≡ [])
    × (render_bounded_context demo_quote built.receipt.result built.receipt.request
        ≡ (injected.content, injected.memories))
build_context-validate_injection_receipt_example =
    build_context-validate_injection_receipt demo_services demo_unicode-UnicodeLaws demo_digests
      demo_quote demo_io demo_injection_io demo_request built injected injection demo_loaded
      (inr refl) demo_built refl

-- A tool result that the search caused.
abbrev caused : Event
caused = record retrieval {
  event_id = "tool-1";
  kind = "tool_result";
  causality =
      some (record { parent_event_ids = "retrieval-x" ∷ []; call_id = ""; compaction_id = "" });
}

abbrev adoption_io : AdoptionIo
adoption_io = record {
  events = retrieval ∷ caused ∷ [];
  open_blob = λ b. not_opened;
  parse_receipt = λ text. some receipt;
  parse_injection = λ text. none;
  request_json = λ q. some (b'{' ∷ b'}' ∷ []);
  receipt_json = λ r. some "{}";
  now = 9;
  random_id = some "z";
  device_id = "device-1";
}

abbrev report : AdoptionRequest
report = record {
  schema_version = "memory-adoption-request/v1alpha1";
  reporter = record { kind = "human"; id = "u" };
  retrieval_receipt_id = "retrieval-x";
  injection_id = "";
  items =
      record {
        reference = record {
          memory_id = first_memory.memory_id;
          revision_id = first_memory.revision_id;
        };
        adoption = "adopted";
        outcome = "unknown";
        reason = "applied";
      }
      ∷ [];
  outcome_evidence_event_ids = "tool-1" ∷ [];
}

abbrev adopted : AdoptionReceipt
unfolding make_adoption
adopted = make_adoption demo_services demo_quote adoption_io report "adoption-z" demo_digest

abbrev adoption : Event
unfolding adoption_event
adoption = adoption_event demo_services demo_quote adoption_io adopted "{}" normal.context

demo_adopted :
    record_adoption demo_services demo_quote adoption_io demo_request.context report
    ≡ ok (adopted, adoption)
unfolding record_adoption retrieval receipt is_normal
demo_adopted = refl

record_adoption-All_example :
    All
      (IsEvidence demo_services demo_quote adoption_io report
        (index_events 1 [] adoption_io.events))
      report.outcome_evidence_event_ids
record_adoption-All_example =
    record_adoption-All demo_services demo_quote adoption_io demo_request.context report adopted
      adoption demo_adopted

record_adoption-validate_adoption_receipt_example :
    validate_adoption_receipt demo_services demo_quote adoption_io adoption adopted ≡ []
record_adoption-validate_adoption_receipt_example =
    record_adoption-validate_adoption_receipt demo_services demo_quote adoption_io
      demo_request.context report adopted adoption demo_adopted

-- The ledger of all of these.
abbrev demo_events : List Event
demo_events = retrieval ∷ injection ∷ caused ∷ adoption ∷ []

abbrev ledger_io : AdoptionIo
ledger_io = record adoption_io { parse_injection = λ text. some injected }

demo_clean :
    (verify_events demo_services demo_quote ledger_io
      (λ text. some adopted)
      demo_events
      empty_graph).issues
    ≡ []
unfolding verify_events retrieval receipt injected injection adopted adoption is_normal
demo_clean = refl

verify_events-IsAccepted_example :
    IsPairwise HasOtherId demo_events
    × All (IsAccepted demo_services demo_quote ledger_io (λ text. some adopted)) demo_events
verify_events-IsAccepted_example =
    verify_events-IsAccepted demo_services demo_quote ledger_io (λ text. some adopted) demo_events
      demo_clean

verify_events_complete_example :
    (verify_events demo_services demo_quote adoption_io
      (λ text. none)
      adoption_io.events
      empty_graph).issues
    ≡ []
unfolding receipt_text validate_receipt retrieval receipt is_normal
verify_events_complete_example =
    verify_events_complete demo_services demo_quote adoption_io (λ text. none) adoption_io.events
      ((differs refl, tt), (tt, tt))
      (
        checked_retrieval refl (record { receipt = receipt; decoded = refl; valid = refl }),
        (other (differs refl) (differs refl) (differs refl), tt),
      )
