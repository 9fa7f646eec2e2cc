-- ===== src/Ledger/Types.antt =====
-- internal/ledger/types.go: the event that an adapter records and the record that chains it.
-- A string type of the source (Agent, EventKind, …) is a `String` with its constants, since JSON
-- can decode any text into it. A `time.Time` is the number of nanoseconds since its zero value.
use agent_memory_system.Prelude.{
  ℕ, String, Bool, true, false, Option, none, some, List, [], ◌∷◌, ◌++◌, ◌≡◌,
}
use agent_memory_system.Prelude.Text.{valid_sha256}
use agent_memory_system.Ledger.Lines.{has_newline}
use agent_memory_system.Prelude.Tests.{nat_eq, ◌==◌}
use agent_memory_system.Prelude.Int.{ℤ}

abbrev pub schema_version_v1alpha1 : String
schema_version_v1alpha1 = "evidence-event/v1alpha1"

abbrev pub schema_version_v1alpha2 : String
schema_version_v1alpha2 = "evidence-event/v1alpha2"

-- The kinds that every schema version allows.
abbrev pub base_kinds : List String
base_kinds =
    "user_message" ∷ "agent_message" ∷ "reasoning" ∷ "tool_call" ∷ "tool_result" ∷ "approval"
    ∷ "file_change" ∷ "attachment" ∷ "subagent_event" ∷ "compaction" ∷ "system_event"
    ∷ "source_snapshot" ∷ "memory_retrieval" ∷ "memory_injection" ∷ "memory_adoption"
    ∷ "evaluation_corpus" ∷ "evaluation_attestation" ∷ "task_attempt" ∷ "evaluation_run" ∷ "gap"
    ∷ "unknown" ∷ []

-- The kinds that version v1alpha2 adds.
abbrev pub v1alpha2_kinds : List String
v1alpha2_kinds =
    "compaction_ground_truth" ∷ "evaluation_trial_plan" ∷ "task_execution_started"
    ∷ "task_execution_receipt" ∷ "episode_generation_attempt" ∷ "episode_generation"
    ∷ "task_attempt_contract" ∷ []

abbrev pub kind_reasoning : String
kind_reasoning = "reasoning"

-- The visibilities that a reasoning event may have; `not_applicable` is not among them.
abbrev pub reasoning_visibilities : List String
reasoning_visibilities = "raw_exposed" ∷ "summary_only" ∷ "encrypted_opaque" ∷ "not_exposed" ∷ []

abbrev pub completeness_complete : String
completeness_complete = "complete"

abbrev pub Time : Type 0
Time = ℕ

-- `t.IsZero()`.
abbrev pub is_zero : Time → Bool
is_zero t = t == 0

pub record Source : Type 0 where
  pub agent : String
  pub adapter : String
  pub adapter_version : String
  pub device_id : String
  pub os : String
  pub thread_id : String
  pub session_id : String
  pub source_event_id : String
  pub source_path_hash : String
  pub acquisition_path_hash : String
  pub source_cursor : String
  pub byte_start : Option ℤ
  pub byte_end : Option ℤ

pub record BlobRef : Type 0 where
  pub sha256 : String
  pub bytes : ℤ
  pub relative_path : String

pub record Payload : Type 0 where
  pub encoding : String
  pub media_type : String
  pub content : Option String
  pub blob : Option BlobRef
  pub sha256 : String
  pub bytes : ℤ

pub record ReasoningCapture : Type 0 where
  pub visibility : String
  pub provider : String
  pub model : String
  pub note : String

pub record Completeness : Type 0 where
  pub status : String
  pub reason : String
  pub expected_bytes : Option ℤ
  pub captured_bytes : Option ℤ

pub record Causality : Type 0 where
  pub parent_event_ids : List String
  pub call_id : String
  pub compaction_id : String

pub record Privacy : Type 0 where
  pub classification : String

pub record Event : Type 0 where
  pub schema_version : String
  pub event_id : String
  pub kind : String
  pub observed_at : Time
  pub recorded_at : Time
  pub source : Source
  pub payload : Option Payload
  pub reasoning : Option ReasoningCapture
  pub completeness : Completeness
  pub causality : Option Causality
  pub privacy : Privacy

pub record Record : Type 0 where
  pub event : Event
  pub previous_record_hash : String
  pub record_hash : String

-- `json.Marshal`, `json.Unmarshal` and crypto/sha256 with encoding/hex, as the ledger calls them.
-- Marshalling fails on a time whose year does not fit four digits.
pub record Codec : Type 0 where
  pub sha256_hex : List ℕ → String
  pub event_json : Event → Option (List ℕ)
  pub record_json : Record → Option (List ℕ)
  pub parse_record : List ℕ → Option Record

-- `event.Payload.Blob`, where neither pointer is nil.
abbrev pub blob_of : Option Payload → Option BlobRef
blob_of none = none
blob_of (some p) = p.blob

-- What the ledger relies on: an object's text has its braces and no newline and decodes to the
-- value, two events with the same text are equal, and a digest is 64 lowercase hexadecimal digits.
pub record CodecLaws (c : Codec) : Type 0 where
  pub object_text :
      (r : Record) (text : List ℕ)
      → c.record_json r ≡ some text
      → (mid : List ℕ) × (text ≡ (b'{' ∷ mid) ++ b'}' ∷ []) × (has_newline text ≡ false)
  pub round_trip :
      (r : Record) (text : List ℕ) → c.record_json r ≡ some text → c.parse_record text ≡ some r
  pub event_injective :
      (e e' : Event) (text : List ℕ)
      → c.event_json e ≡ some text
      → c.event_json e' ≡ some text
      → e ≡ e'
  pub digest : (input : List ℕ) → valid_sha256 (c.sha256_hex input) ≡ true
