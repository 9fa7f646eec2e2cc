-- ===== src/Retrieval/Injection.antt =====
-- `BuildContext` and `appendInjectionEvent` of internal/retrieval/context.go, and
-- `validateInjectionReceipt` of verify.go.
use Prim.Native.String.{◌++◌ as str_append}
use agent_memory_system.Prelude.{ℕ, String, not, ◌||◌, List, [], ◌∷◌, ◌++◌, Option, some, none}
use agent_memory_system.Prelude.Tests.{string_eq, nat_eq, ◌==◌, ◌!=◌, if◌then◌else◌}
use agent_memory_system.Prelude.Int.{ℤ, pos, int_eq}
use agent_memory_system.Prelude.Lists.{length, elem}
use agent_memory_system.Prelude.Result.{ok, err, ◌>>=◌, ◌>>◌, fail_if, wrap}
use agent_memory_system.Prelude.Result as Outcome
use agent_memory_system.Prelude.Text.{encode_runes, has_prefix}
use agent_memory_system.Ledger.Types.{Event, Time, schema_version_v1alpha2}
use agent_memory_system.Ledger.Blobs.{inline_payload}
use agent_memory_system.Retrieval.Types.{
  context_schema_version, injection_receipt_schema_version, privacy_local_only, Context, Request,
  MemoryReference, Result, Receipt, thread_id_for_context, valid_memory_reference, valid_channel,
}
use agent_memory_system.Retrieval.Terms.{estimate_tokens}
use agent_memory_system.Retrieval.Normalize.{is_null, RequestError, normalize_request}
use agent_memory_system.Retrieval.Sets.{reference_eq, sorted_unique}
use agent_memory_system.Retrieval.Receipts.{Services, issue_if}
use agent_memory_system.Retrieval.Search.{SearchIo, SearchError, search}
use agent_memory_system.Retrieval.Render.{render_bounded_context}

pub record InjectionReceipt : Type 0 where
  pub schema_version : String
  pub injection_id : String
  pub retrieval_receipt_id : String
  pub recorded_at : Time
  pub channel : String
  pub content : List ℕ
  pub content_sha256 : String
  pub content_bytes : ℤ
  pub estimated_tokens : ℤ
  pub memories : List MemoryReference
  pub privacy : String

pub record ContextResult : Type 0 where
  pub schema_version : String
  pub injection_id : String
  pub retrieval : Result
  pub memories : List MemoryReference
  pub content : List ℕ
  pub content_sha256 : String
  pub content_bytes : ℤ
  pub estimated_tokens : ℤ
  pub privacy : String

-- What `BuildContext` reads behind the search: the clock, the id of NewEventID, and the JSON of the
-- receipt, if it can be encoded.
pub record InjectionIo : Type 0 where
  pub now : Time
  pub random_id : Option String
  pub device_id : String
  pub injection_json : InjectionReceipt → Option String

pub data ContextError : Type 0 where
  bad_context_request : RequestError → ContextError
  search_failed : SearchError → ContextError
  no_injection_id injection_not_encoded : ContextError

abbrev pub or_context_error : {A : Type 0} → Option A → ContextError → Outcome.Result ContextError A
or_context_error none e = err e
or_context_error (some a) e = ok a

-- What `BuildContext` returns and appends: the event of the search, then that of the injection. The
-- status of the retrieval says whether it returns ErrPortableRepositoryRejected.
pub record Built : Type 0 where
  pub result : ContextResult
  pub receipt : Receipt
  pub retrieval_event : Event
  pub injection : Option (InjectionReceipt × Event)

-- The result before the content is stored into it.
abbrev pub empty_context : Result → ContextResult
empty_context retrieval = record {
  schema_version = context_schema_version;
  injection_id = "";
  retrieval = retrieval;
  memories = [];
  content = [];
  content_sha256 = "";
  content_bytes = pos 0;
  estimated_tokens = pos 0;
  privacy = privacy_local_only;
}

module _ (sv : Services) where
  unfoldable pub make_injection :
      Request → String → Time → String → List ℕ → List MemoryReference → InjectionReceipt
  unfolding encode_runes estimate_tokens
  make_injection q receipt_id now injection_id content memories = record {
    schema_version = injection_receipt_schema_version;
    injection_id = injection_id;
    retrieval_receipt_id = receipt_id;
    recorded_at = now;
    channel = q.context.channel;
    content = content;
    content_sha256 = sv.sha256_hex (encode_runes content);
    content_bytes = pos (length (encode_runes content));
    estimated_tokens = pos (estimate_tokens content);
    memories = memories;
    privacy = privacy_local_only;
  }

  -- The event of `appendInjectionEvent`.
  unfoldable pub injection_event : InjectionIo → InjectionReceipt → String → Context → Event
  unfolding inline_payload thread_id_for_context
  injection_event io r text c = record {
    schema_version = schema_version_v1alpha2;
    event_id = r.injection_id;
    kind = "memory_injection";
    observed_at = r.recorded_at;
    recorded_at = r.recorded_at;
    source = record {
      agent = c.agent;
      adapter = "agentmem-retrieval";
      adapter_version = "v1alpha1";
      device_id = io.device_id;
      os = "";
      thread_id = thread_id_for_context c;
      session_id = c.session_id;
      source_event_id = "";
      source_path_hash = "";
      acquisition_path_hash = "";
      source_cursor = "";
      byte_start = none;
      byte_end = none;
    };
    payload = some (inline_payload sv.sha256_hex "json" "application/json" text);
    reasoning = none;
    completeness = record {
      status = "complete";
      reason = "";
      expected_bytes = none;
      captured_bytes = none;
    };
    causality = some (record {
      parent_event_ids = r.retrieval_receipt_id ∷ [];
      call_id = "";
      compaction_id = "";
    });
    privacy = record { classification = privacy_local_only };
  }

  -- `BuildContext` behind the rendering of a content that is not empty.
  unfoldable pub inject :
      InjectionIo
      → Request
      → Receipt
      → List ℕ
      → List MemoryReference
      → Outcome.Result ContextError (InjectionReceipt × Event)
  unfolding make_injection injection_event
  inject io q receipt content memories = do
    random_id ← or_context_error io.random_id no_injection_id
    let id = str_append "injection-" random_id
    let made = make_injection q receipt.result.receipt_id io.now id content memories
    text ← or_context_error (io.injection_json made) injection_not_encoded
    ok (made, injection_event io made text q.context)

  -- The branch on an empty content.
  unfoldable pub deliver :
      InjectionIo
      → Request
      → Receipt
      → Event
      → List ℕ × List MemoryReference
      → Outcome.Result ContextError Built
  unfolding inject
  deliver io q receipt event ([], memories) = ok (record {
    result = empty_context receipt.result;
    receipt = receipt;
    retrieval_event = event;
    injection = none;
  })
  deliver io q receipt event (c ∷ cs, memories) = do
    (made, recorded) ← inject io q receipt (c ∷ cs) memories
    ok (record {
      result = record (empty_context receipt.result) {
        injection_id = made.injection_id;
        memories = memories;
        content = c ∷ cs;
        content_sha256 = made.content_sha256;
        content_bytes = made.content_bytes;
        estimated_tokens = made.estimated_tokens;
      };
      receipt = receipt;
      retrieval_event = event;
      injection = some (made, recorded);
    })

  -- `BuildContext`: a blocked search delivers nothing.
  unfoldable pub build_context :
      (String → List ℕ) → SearchIo → InjectionIo → Request → Outcome.Result ContextError Built
  unfolding normalize_request search render_bounded_context deliver
  build_context quote io jo request = do
    q ← wrap bad_context_request (normalize_request sv.unicode request)
    (receipt, event) ← wrap search_failed (search sv io q)
    deliver jo q receipt event (
        if receipt.result.status == "blocked"
        then ([], [])
        else render_bounded_context quote receipt.result q)

  -- The loop over the memories of an injection.
  unfoldable pub check_memories : List MemoryReference → List MemoryReference → List String
  unfolding valid_memory_reference elem
  check_memories seen [] = []
  check_memories seen (m ∷ ms) =
      issue_if (not (valid_memory_reference m)) "injection contains an invalid memory reference"
      ++ (issue_if (elem m seen) "injection repeats a memory reference"
          ++ check_memories (m ∷ seen) ms)

  -- `validateInjectionReceipt`.
  unfoldable pub validate_injection_receipt : Event → InjectionReceipt → List String
  unfolding sorted_unique check_memories has_prefix valid_channel encode_runes estimate_tokens
  validate_injection_receipt e r = sorted_unique (
      issue_if
        (r.schema_version != injection_receipt_schema_version
          || r.injection_id != e.event_id
          || not (has_prefix r.retrieval_receipt_id "retrieval-")
          || r.privacy != privacy_local_only
          || not (valid_channel r.channel))
        "injection receipt envelope is invalid"
      ++ (issue_if (r.recorded_at != e.recorded_at || e.observed_at != e.recorded_at)
            "injection timestamps do not match the evidence event"
          ++ (issue_if
                (is_null r.content
                  || r.content_sha256 != sv.sha256_hex (encode_runes r.content)
                  || r.content_bytes != pos (length (encode_runes r.content))
                  || r.estimated_tokens != pos (estimate_tokens r.content))
                "injected content integrity is invalid"
              ++ (check_memories [] r.memories
                  ++ issue_if (is_null r.memories) "injection contains no memories"))))
