-- ===== src/Promotion/Types.antt =====
-- The data of internal/promotion/types.go and the parts of internal/review and
-- internal/candidates that promotion reads. A Go string of a closed set is a data type with one
-- more constructor for any other text; a `time.Time` is a number of nanoseconds.
use agent_memory_system.Prelude.{ℕ, String, Bool, true, false, ◌&&◌, ◌||◌, Option, List}
use agent_memory_system.Prelude.Tests.{string_eq, ◌==◌}
use agent_memory_system.Prelude.Int.{ℤ}
use agent_memory_system.Ledger.Types.{Time}
use agent_memory_system.Secretscan.{Redaction, Detectors}

abbrev pub request_schema_version : String
request_schema_version = "memory-promotion-request/v1alpha1"

abbrev pub revision_schema_version : String
revision_schema_version = "promoted-memory-revision/v1alpha1"

abbrev pub event_schema_version : String
event_schema_version = "memory-promotion-event/v1alpha1"

abbrev pub record_schema_version : String
record_schema_version = "memory-promotion-record/v1alpha1"

pub data Action : Type 0 where
  promote supersede revoke : Action
  other_action : String → Action

pub data Status : Type 0 where
  active revoked : Status
  other_status : String → Status

abbrev pub is_active : Status → Bool
is_active active = true
is_active _ = false

abbrev pub is_revoked : Status → Bool
is_revoked revoked = true
is_revoked _ = false

pub record Approver : Type 0 where
  pub kind : String
  pub id : String

-- `ValidApproverKind`.
unfoldable pub valid_approver_kind : String → Bool
valid_approver_kind kind =
    kind == "caller_attestation" || kind == "synthetic_test" || kind == "human"

pub record Scope : Type 0 where
  pub kind : String
  pub value : String

unfoldable pub scope_eq : Scope → Scope → Bool
scope_eq s t = s.kind == t.kind && s.value == t.value

pub record CandidateReference : Type 0 where
  pub generation : String
  pub candidate_id : String
  pub candidate_content_sha256 : String
  pub expected_review_record_sha : String

pub record Request : Type 0 where
  pub schema_version : String
  pub approver : Approver
  pub action : Action
  pub memory_id : String
  pub expected_revision_id : String
  pub candidate : Option CandidateReference
  pub redactions : List Redaction
  pub expected_text_sha256 : String
  pub reason : String

pub record Source : Type 0 where
  pub candidate_generation : String
  pub candidates_sha256 : String
  pub candidate_id : String
  pub candidate_content_sha256 : String
  pub semantic_key_sha256 : String
  pub review_event_id : String
  pub review_record_sha256 : String
  pub review_scope : Scope
  pub review_basis : List String

pub record ScanAttestation : Type 0 where
  pub scanner_version : String
  pub source_text_sha256 : String
  pub finding_ids : List String
  pub redactions : List Redaction
  pub redacted_text_sha256 : String

pub record Revision : Type 0 where
  pub schema_version : String
  pub memory_id : String
  pub revision_id : String
  pub parent_revision_id : String
  pub action : Action
  pub status : Status
  pub kind : String
  pub text : String
  pub text_sha256 : String
  pub scope : Scope
  pub source : Option Source
  pub scan : Option ScanAttestation
  pub requires_explicit_rule_change_approval : Bool
  pub rule_change_authorization : String
  pub recorded_at : Time
  pub origin_device_id : String
  pub approver_id : String
  pub reason : String
  pub privacy : String

pub record Event : Type 0 where
  pub schema_version : String
  pub event_id : String
  pub recorded_at : Time
  pub device_id : String
  pub approver : Approver
  pub request_sha256 : String
  pub revision : Revision
  pub privacy : String

pub record Record : Type 0 where
  pub schema_version : String
  pub sequence : ℤ
  pub event : Event
  pub previous_record_sha256 : String
  pub record_sha256 : String

-- What promotion reads of `candidates.Candidate`.
pub record Candidate : Type 0 where
  pub text : String
  pub kind : String
  pub semantic_key_sha256 : String
  pub requires_explicit_rule_change_approval : Bool

-- What promotion reads of `review.ValidationProof`.
pub record ValidationProof : Type 0 where
  pub source_candidate_generation : String
  pub source_candidates_sha256 : String
  pub candidate_id : String
  pub candidate_content_sha256 : String
  pub review_event_id : String
  pub review_record_sha256 : String
  pub reviewed_at : Time
  pub scope : Scope
  pub basis : List String

pub record ValidatedCandidate : Type 0 where
  pub proof : ValidationProof
  pub candidate : Candidate

-- What promotion calls: SHA-256 and JSON, the detectors of the scanner, the string of a slice of
-- bytes, and internal/review and internal/candidates on the store at hand. `none` is an error.
pub record Services : Type 0 where
  pub sha256_hex : List ℕ → String
  pub request_json : Request → Option (List ℕ)
  pub revision_json : Revision → Option (List ℕ)
  pub envelope_json : Event → ℤ → String → Option (List ℕ)
  pub identity_json : String → Scope → List ℕ
  pub record_json : Record → Option (List ℕ)
  pub parse_record : List ℕ → Option Record
  pub detectors : Detectors
  pub text_of : List ℕ → String
  pub open_generation : String → Bool
  pub current_evidence : String → Bool
  pub resolve_current_validation : CandidateReference → Option ValidatedCandidate
  pub verify_validation_record : CandidateReference → Option ValidatedCandidate
