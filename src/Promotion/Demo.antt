-- ===== src/Promotion/Demo.antt =====
-- A store at which the theorems on internal/promotion are tried: no detector matches, every digest
-- is the same, every candidate is validated.
use agent_memory_system.Secretscan.Redact.{apply_redactions, equal_findings}
use agent_memory_system.Prelude.{ℕ, String, true, false, none, some, List, [], ◌∷◌, ◌≡◌, refl}
use agent_memory_system.Prelude.Text.{has_prefix}
use agent_memory_system.Promotion.Types.{scope_eq}
use agent_memory_system.Promotion.Validate.{
  valid_kind, valid_scope, validate_source, strictly_sorted, valid_review_basis,
  validate_scan_attestation,
}
use agent_memory_system.Promotion.Recorded.{IsText}
use agent_memory_system.Ledger.Lines.{has_newline}
use agent_memory_system.Ledger.Chain.{absent}
use agent_memory_system.Promotion.Semantics.{
  replay_verified, after_replay, verify_promotion_semantics, verify_records,
}
use agent_memory_system.Promotion.Replay.{replay}
use agent_memory_system.Promotion.Apply.{
  apply, after_validation, with_lock, finish_apply, apply_locked, record_after, append_prepared,
  finish_append, append_record, write_record, after_write, acquire_promotion_lock, content_of,
  take_bytes,
}
use agent_memory_system.Prelude.Int.{pos}
use agent_memory_system.Prelude.Result.{ok}
use agent_memory_system.Prelude.Text.{
  bytes, valid_sha256, is_blank, is_trimmed, len, valid_prefixed_hash, valid_utf8,
}
use agent_memory_system.Secretscan.{Detectors, scan}
use agent_memory_system.Promotion.Types.{
  request_schema_version, record_schema_version, promote, Scope, CandidateReference, Request,
  Revision, Event, Record, Candidate, ValidationProof, ValidatedCandidate, Services,
  valid_approver_kind,
}
use agent_memory_system.Promotion.Validate.{
  validate_event, validate_request, is_sensitive, is_base_name,
}
use agent_memory_system.Promotion.Replay.{make_record, empty_state, find_memory}
use agent_memory_system.Promotion.Prepare.{
  active_base, finding_ids, prepare_revision, any_semantic_match, revision_id, expected_memory_id,
}
use agent_memory_system.Promotion.Requests.{hash_request}
use agent_memory_system.Promotion.Apply.{ApplyIo, event_of, prepare_record}

abbrev pub digest : String
digest = "00112233445566778899aabbccddeeff00112233445566778899aabbccddeeff"

abbrev pub demo_detectors : Detectors
demo_detectors = record {
  sha256_hex = λ input. digest;
  key_sha256 = λ key. digest;
  matches = λ content. [];
  tokens = λ content. [];
  high_entropy = λ token. false;
}

abbrev pub demo_scope : Scope
demo_scope = record { kind = "global"; value = "*" }

abbrev pub demo_candidate : Candidate
demo_candidate = record {
  text = "Be brief.";
  kind = "directive";
  semantic_key_sha256 = digest;
  requires_explicit_rule_change_approval = false;
}

abbrev pub proof_of : CandidateReference → ValidationProof
proof_of c = record {
  source_candidate_generation = c.generation;
  source_candidates_sha256 = digest;
  candidate_id = c.candidate_id;
  candidate_content_sha256 = c.candidate_content_sha256;
  review_event_id = "review-1";
  review_record_sha256 = c.expected_review_record_sha;
  reviewed_at = 1;
  scope = demo_scope;
  basis = "explicit_remember" ∷ [];
}

abbrev pub demo_base : Services
demo_base = record {
  sha256_hex = λ input. digest;
  request_json = λ q. some [];
  revision_json = λ r. some [];
  envelope_json = λ e n previous. some [];
  identity_json = λ sha scope. [];
  record_json = λ r. some (b'{' ∷ b'}' ∷ []);
  parse_record = λ text. none;
  detectors = demo_detectors;
  text_of = λ bs. "Be brief.";
  open_generation = λ name. true;
  current_evidence = λ name. true;
  resolve_current_validation =
      λ c. some (record { proof = proof_of c; candidate = demo_candidate });
  verify_validation_record = λ c. some (record { proof = proof_of c; candidate = demo_candidate });
}

abbrev pub demo_request : Request
demo_request = record {
  schema_version = request_schema_version;
  approver = record { kind = "caller_attestation"; id = "me" };
  action = promote;
  memory_id = "";
  expected_revision_id = "";
  candidate = some (record {
    generation = "generation-1";
    candidate_id = "candidate-00112233445566778899aabbccddeeff00112233445566778899aabbccddeeff";
    candidate_content_sha256 = digest;
    expected_review_record_sha = digest;
  });
  redactions = [];
  expected_text_sha256 = digest;
  reason = "The user asked.";
}

abbrev pub demo_io : ApplyIo
demo_io = record {
  device_id = "device-1";
  now = 5;
  event_id = some "event-1";
  lock_directory = true;
  lock_open = true;
  lock_write = true;
  evidence_lock = true;
  append = record {
    directory = true;
    open_ = true;
    written = 3;
    write = true;
    sync = true;
    close_ = true;
  };
  evidence_close = true;
  lock_remove = true;
}

abbrev pub demo_validated : ValidatedCandidate
demo_validated = record {
  proof = proof_of (record {
    generation = "generation-1";
    candidate_id = "candidate-00112233445566778899aabbccddeeff00112233445566778899aabbccddeeff";
    candidate_content_sha256 = digest;
    expected_review_record_sha = digest;
  });
  candidate = demo_candidate;
}

abbrev pub demo_revision : Revision
demo_revision =
    record (active_base "device-1" 5 demo_request (scan demo_detectors (bytes "Be brief."))
      demo_validated "Be brief." digest
      "memory-00112233445566778899aabbccddeeff00112233445566778899aabbccddeeff" "") {
        revision_id =
            "memory-revision-00112233445566778899aabbccddeeff00112233445566778899aabbccddeeff";
      }

abbrev pub demo_event : Event
demo_event = event_of demo_base demo_io demo_request "event-1" digest demo_revision

abbrev pub demo_record : Record
demo_record = record {
  schema_version = record_schema_version;
  sequence = pos 1;
  event = demo_event;
  previous_record_sha256 = "";
  record_sha256 = digest;
}

-- The services of the demo, which decode every text as its record.
abbrev pub demo_services : Services
demo_services = record demo_base { parse_record = λ text. some demo_record }

pub demo_digest : (input : List ℕ) → valid_sha256 (demo_services.sha256_hex input) ≡ true
unfolding valid_sha256
demo_digest input = refl

pub demo_valid : validate_request demo_services demo_request ≡ ok tt
unfolding validate_request valid_approver_kind is_blank is_trimmed len is_sensitive scan
    valid_sha256 is_base_name valid_prefixed_hash
demo_valid = refl

pub demo_prepared :
    prepare_revision demo_services empty_state "device-1" 5 demo_request ≡ ok demo_revision
unfolding prepare_revision apply_redactions valid_utf8 bytes equal_findings find_memory
    any_semantic_match revision_id expected_memory_id
demo_prepared = refl

demo_event_valid : validate_event demo_services demo_event ≡ ok tt
unfolding validate_event has_prefix is_blank valid_approver_kind is_trimmed len valid_sha256
    valid_prefixed_hash valid_kind valid_scope is_sensitive scan validate_source is_base_name
    scope_eq strictly_sorted valid_review_basis validate_scan_attestation finding_ids
demo_event_valid = refl

pub demo_made : prepare_record demo_services demo_io empty_state demo_request ≡ ok demo_record
unfolding prepare_record hash_request make_record
demo_made = rw (demo_prepared, demo_event_valid) refl

pub demo_applied :
    (apply demo_services demo_io (record { ledger = absent; locked = false }) demo_request).1
    ≡ ok demo_record
unfolding apply after_validation with_lock finish_apply apply_locked record_after append_prepared
    finish_append append_record write_record after_write replay_verified after_replay
    verify_promotion_semantics verify_records replay acquire_promotion_lock content_of take_bytes
demo_applied = rw (demo_valid, demo_made) refl

pub demo-IsText : IsText demo_services demo_record (b'{' ∷ b'}' ∷ [])
unfolding has_newline
demo-IsText = ([], refl, refl, refl)
