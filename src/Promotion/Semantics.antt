-- ===== src/Promotion/Semantics.antt =====
-- `verifyPromotionSemantics` and `compareVerifiedSource` of internal/promotion/ledger.go.
use agent_memory_system.Prelude.{
  String, Bool, true, false, not, ◌&&◌, ◌||◌, Option, none, some, List, [], ◌∷◌,
}
use agent_memory_system.Prelude.Tests.{string_eq, nat_eq, ◌==◌, ◌!=◌, ltb}
use agent_memory_system.Prelude.Result.{Result, ok, err, ◌>>=◌, ◌>>◌, fail_if, wrap}
use agent_memory_system.Prelude.Text.{bytes}
use agent_memory_system.Secretscan.{scan}
use agent_memory_system.Secretscan.Redact.{RedactError, apply_redactions}
use agent_memory_system.Ledger.Chain.{LedgerFile}
use agent_memory_system.Promotion.Types.{
  Action, promote, supersede, scope_eq, Source, ScanAttestation, Revision, Record,
  ValidatedCandidate, Services,
}
use agent_memory_system.Promotion.Replay.{
  State, ReplayError, find_memory, put_memory, bool_differs, replay,
}
use agent_memory_system.Promotion.Prepare.{
  finding_ids, any_semantic_match, key_differs, expected_memory_id, revision_id,
}
use agent_memory_system.Promotion.Requests.{
  RequestError, reference_of, request_from_revision, hash_request,
}

pub data SemanticsError : Type 0 where
  request_encode_failed request_hash_mismatch invalid_proof source_mismatch : SemanticsError
  predates_validation scan_not_reproducible wrong_memory_id duplicate_memory : SemanticsError
  changes_identity revision_encode_failed wrong_revision_id : SemanticsError
  no_request : RequestError → SemanticsError
  redaction_not_reproducible : RedactError → SemanticsError

pub data VerifiedError : Type 0 where
  replay_failed : ReplayError → VerifiedError
  semantics_failed : SemanticsError → VerifiedError

-- `reflect.DeepEqual` of two lists of strings, neither of them nil.
strings_eq : List String → List String → Bool
strings_eq [] [] = true
strings_eq (s ∷ ss) (t ∷ ts) = s == t && strings_eq ss ts
strings_eq _ _ = false

-- `compareVerifiedSource`, for a source that is there.
unfoldable pub compare_verified_source :
    Revision → Source → ValidatedCandidate → Result SemanticsError (Unit {0})
unfolding strings_eq
compare_verified_source r source v = do
  fail_if
      (source.candidate_generation != v.proof.source_candidate_generation
        || source.candidates_sha256 != v.proof.source_candidates_sha256
        || source.candidate_id != v.proof.candidate_id
        || source.candidate_content_sha256 != v.proof.candidate_content_sha256
        || source.semantic_key_sha256 != v.candidate.semantic_key_sha256
        || source.review_event_id != v.proof.review_event_id
        || source.review_record_sha256 != v.proof.review_record_sha256
        || not (scope_eq source.review_scope v.proof.scope)
        || not (strings_eq source.review_basis v.proof.basis)
        || r.kind != v.candidate.kind
        || not (scope_eq r.scope v.proof.scope)
        || bool_differs r.requires_explicit_rule_change_approval
            v.candidate.requires_explicit_rule_change_approval)
      source_mismatch
  fail_if (ltb r.recorded_at v.proof.reviewed_at) predates_validation

or_fail : {A : Type 0} → Option A → SemanticsError → Result SemanticsError A
or_fail none e = err e
or_fail (some a) e = ok a

module _ (sv : Services) where
  -- The two tests that depend on which active action it is.
  check_identity : List Revision → Revision → Source → Action → Result SemanticsError (Unit {0})
  check_identity current r source promote = do
    fail_if (expected_memory_id sv r.text_sha256 r.scope != r.memory_id) wrong_memory_id
    fail_if (any_semantic_match r.scope source.semantic_key_sha256 current) duplicate_memory
  check_identity current r source supersede = elim (find_memory r.memory_id current) [
    | none ↦ err changes_identity
    | some c ↦ fail_if (key_differs source.semantic_key_sha256 c.source) changes_identity
  ]
  check_identity current r source _ = ok tt

  -- The block for an active revision. The code reads the source and the scan without a test:
  -- requestFromRevision has seen them.
  check_active_record :
      List Revision
      → Revision
      → Option Source
      → Option ScanAttestation
      → Result SemanticsError (Unit {0})
  unfolding check_identity or_fail
  check_active_record current r (some source) (some attestation) = do
    v ← or_fail (sv.verify_validation_record (reference_of source)) invalid_proof
    compare_verified_source r source v
    let report = scan sv.detectors (bytes v.candidate.text)
    redacted ←
        wrap redaction_not_reproducible
          (apply_redactions sv.detectors (bytes v.candidate.text) report attestation.redactions)
    fail_if
        (sv.text_of redacted != r.text
          || report.content_sha256 != attestation.source_text_sha256
          || not (strings_eq (finding_ids report) attestation.finding_ids))
        scan_not_reproducible
    check_identity current r source r.action
  check_active_record current r _ _ = err invalid_proof

  check_by_action : List Revision → Revision → Action → Result SemanticsError (Unit {0})
  unfolding check_active_record
  check_by_action current r promote = check_active_record current r r.source r.scan
  check_by_action current r supersede = check_active_record current r r.source r.scan
  check_by_action current r _ = ok tt

  -- The loop's body.
  unfoldable pub check_semantics : List Revision → Record → Result SemanticsError (Unit {0})
  unfolding check_by_action or_fail strings_eq
  check_semantics current r = do
    q ← wrap no_request (request_from_revision sv r.event)
    digest ← or_fail (hash_request sv q) request_encode_failed
    fail_if (digest != r.event.request_sha256) request_hash_mismatch
    check_by_action current r.event.revision r.event.revision.action
    id ← or_fail (revision_id sv r.event.revision) revision_encode_failed
    fail_if (id != r.event.revision.revision_id) wrong_revision_id

  -- The loop over the records.
  unfoldable pub verify_records : List Revision → List Record → Result SemanticsError (Unit {0})
  unfolding check_semantics
  verify_records current [] = ok tt
  verify_records current (r ∷ rs) = do
    check_semantics current r
    verify_records (put_memory r.event.revision current) rs

  unfoldable pub verify_promotion_semantics : List Record → Result SemanticsError (Unit {0})
  verify_promotion_semantics records = verify_records [] records

  unfoldable pub after_replay : State × Option ReplayError → Result VerifiedError State
  after_replay (s, some e) = err (replay_failed e)
  after_replay (s, none) = do wrap semantics_failed (verify_promotion_semantics s.history); ok s

  -- `replayVerified`, for a caller that drops the state of a failure.
  unfoldable pub replay_verified : LedgerFile → Result VerifiedError State
  unfolding after_replay
  replay_verified file = after_replay (replay sv file)
