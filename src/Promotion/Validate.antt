-- ===== src/Promotion/Validate.antt =====
-- The validators of internal/promotion/ledger.go and internal/promotion/apply.go.
use agent_memory_system.Prelude.{
  ℕ, String, Bool, true, false, not, ◌&&◌, ◌||◌, Option, none, some, List, [], ◌∷◌,
}
use agent_memory_system.Prelude.Tests.{
  string_eq, nat_eq, ◌==◌, ◌!=◌, if◌then◌else◌, ltb, string_ltb,
}
use agent_memory_system.Prelude.Int.{int_eq}
use agent_memory_system.Prelude.Lists.{length, elem}
use agent_memory_system.Prelude.Result.{Result, ok, err, ◌>>◌, fail_if}
use agent_memory_system.Prelude.Text.{
  runes, bytes, len, is_blank, is_trimmed, has_prefix, valid_sha256, valid_prefixed_hash,
}
use agent_memory_system.Ledger.Types.{is_zero}
use agent_memory_system.Secretscan.{scan, scanner_version}
use agent_memory_system.Promotion.Types.{
  request_schema_version, revision_schema_version, event_schema_version, Action, promote, supersede,
  revoke, other_action, is_active, is_revoked, valid_approver_kind, Scope, scope_eq,
  CandidateReference, Request, Source, ScanAttestation, Revision, Event, Services,
}

-- One constructor for each error of the validators.
pub data PromotionError : Type 0 where
  event_envelope attribution_mismatch revision_envelope sensitive_metadata : PromotionError
  incomplete_active text_not_clean bad_source bad_basis bad_scan bad_finding_ids : PromotionError
  revoked_with_content bad_action request_envelope request_sensitive : PromotionError
  bad_promote_request bad_supersede_request bad_revoke_request bad_request_action : PromotionError
  bad_candidate_reference : PromotionError

abbrev pub Check : Type 0
Check = Result PromotionError (Unit {0})

-- `validKind`.
unfoldable pub valid_kind : String → Bool
valid_kind kind = kind == "constraint" || kind == "correction" || kind == "directive"

agents : List String
agents = "codex" ∷ "claude_code" ∷ "opencode" ∷ "deepseek_harness" ∷ "unknown" ∷ []

-- `strings.ContainsAny(value, "\r\n")`.
contains_line_break : List ℕ → Bool
contains_line_break [] = false
contains_line_break (c ∷ cs) = c == 13 || c == 10 || contains_line_break cs

-- `validScope`.
unfoldable pub valid_scope : Scope → Bool
unfolding agents contains_line_break
valid_scope scope =
    if is_blank scope.value
      || not (is_trimmed scope.value)
      || ltb 4096 (len scope.value)
      || contains_line_break (runes scope.value)
    then false
    else if scope.kind == "global"
    then scope.value == "*"
    else if scope.kind == "agent"
    then elem scope.value agents
    else scope.kind == "repository" || scope.kind == "project" || scope.kind == "task"

-- `validReviewBasis`.
unfoldable pub valid_review_basis : String → Bool
valid_review_basis basis =
    basis == "explicit_remember"
    || basis == "user_correction"
    || basis == "stable_repetition"
    || basis == "outcome_evidence"
    || basis == "explicit_user_confirmation"

contains_slash : List ℕ → Bool
contains_slash [] = false
contains_slash (c ∷ cs) = c == b'/' || contains_slash cs

-- `filepath.Base(name) == name`, where the separator is a slash.
unfoldable pub is_base_name : String → Bool
unfolding contains_slash
is_base_name name = name == "/" || (name != "" && not (contains_slash (runes name)))

-- Every element passes the test and stands before the next, as both loops over an index ask.
unfoldable pub strictly_sorted : (String → Bool) → List String → Bool
strictly_sorted test [] = true
strictly_sorted test (s ∷ []) = test s
strictly_sorted test (s ∷ t ∷ ss) = test s && string_ltb s t && strictly_sorted test (t ∷ ss)

-- `validateSource`.
unfoldable pub validate_source : Source → Scope → Check
validate_source s scope = do
  fail_if
      (is_blank s.candidate_generation
        || not (is_base_name s.candidate_generation)
        || not (valid_sha256 s.candidates_sha256)
        || not (valid_prefixed_hash s.candidate_id "candidate-")
        || not (valid_sha256 s.candidate_content_sha256)
        || not (valid_sha256 s.semantic_key_sha256)
        || not (has_prefix s.review_event_id "review-")
        || not (valid_sha256 s.review_record_sha256)
        || not (scope_eq s.review_scope scope)
        || length s.review_basis == 0)
      bad_source
  fail_if (not (strictly_sorted valid_review_basis s.review_basis)) bad_basis

-- `validateScanAttestation`.
unfoldable pub validate_scan_attestation : ScanAttestation → String → Check
validate_scan_attestation a text_sha256 = do
  fail_if
      (a.scanner_version != scanner_version
        || not (valid_sha256 a.source_text_sha256)
        || a.redacted_text_sha256 != text_sha256
        || not (valid_sha256 a.redacted_text_sha256))
      bad_scan
  fail_if (not (strictly_sorted (λ id. valid_prefixed_hash id "finding-") a.finding_ids))
      bad_finding_ids

abbrev pub bad_envelope : Request → Bool
bad_envelope q =
    q.schema_version != request_schema_version
    || not (valid_approver_kind q.approver.kind)
    || is_blank q.approver.id
    || not (is_trimmed q.approver.id)
    || ltb 256 (len q.approver.id)
    || is_blank q.reason
    || not (is_trimmed q.reason)
    || ltb 16384 (len q.reason)

module _ (sv : Services) where
  -- `len(secretscan.Scan(text).Findings) != 0`.
  unfoldable pub is_sensitive : String → Bool
  is_sensitive text = length (scan sv.detectors (bytes text)).findings != 0

  -- `textDigest`.
  abbrev pub text_digest : String → String
  text_digest text = sv.sha256_hex (bytes text)

  -- The case of an active revision, by its source and its scan.
  check_active : Revision → Option Source → Option ScanAttestation → Check
  check_active r (some source) (some attestation) = do
    fail_if (not (is_active r.status) || is_blank r.text || not (valid_sha256 r.text_sha256))
        incomplete_active
    fail_if (text_digest r.text != r.text_sha256 || is_sensitive r.text) text_not_clean
    validate_source source r.scope
    validate_scan_attestation attestation r.text_sha256
  check_active r _ _ = err incomplete_active

  unfoldable pub is_given : {A : Type 0} → Option A → Bool
  is_given none = false
  is_given (some _) = true

  -- The switch of validateRevisionSyntax.
  unfoldable pub check_revision_action : Revision → Action → Check
  unfolding check_active is_given
  check_revision_action r promote = check_active r r.source r.scan
  check_revision_action r supersede = check_active r r.source r.scan
  check_revision_action r revoke =
      fail_if
        (not (is_revoked r.status)
          || r.text != ""
          || r.text_sha256 != ""
          || is_given r.source
          || is_given r.scan)
        revoked_with_content
  check_revision_action r (other_action _) = err bad_action

  -- `validateRevisionSyntax`.
  unfoldable pub validate_revision_syntax : Revision → Check
  unfolding check_revision_action
  validate_revision_syntax r = do
    fail_if
        (r.schema_version != revision_schema_version
          || not (valid_prefixed_hash r.memory_id "memory-")
          || not (valid_prefixed_hash r.revision_id "memory-revision-")
          || (r.parent_revision_id != ""
              && not (valid_prefixed_hash r.parent_revision_id "memory-revision-"))
          || is_zero r.recorded_at
          || is_blank r.origin_device_id
          || is_blank r.approver_id
          || not (is_trimmed r.approver_id)
          || is_blank r.reason
          || ltb 16384 (len r.reason)
          || r.rule_change_authorization != "not_granted"
          || r.privacy != "local_only"
          || not (valid_kind r.kind)
          || not (valid_scope r.scope))
        revision_envelope
    fail_if (is_sensitive r.reason || is_sensitive r.approver_id || is_sensitive r.scope.value)
        sensitive_metadata
    check_revision_action r r.action

  -- `validateEvent`.
  unfoldable pub validate_event : Event → Check
  unfolding validate_revision_syntax
  validate_event e = do
    fail_if
        (e.schema_version != event_schema_version
          || not (has_prefix e.event_id "promotion-")
          || is_zero e.recorded_at
          || is_blank e.device_id
          || not (valid_approver_kind e.approver.kind)
          || is_blank e.approver.id
          || not (is_trimmed e.approver.id)
          || ltb 256 (len e.approver.id)
          || not (valid_sha256 e.request_sha256)
          || e.privacy != "local_only")
        event_envelope
    fail_if
        (e.revision.recorded_at != e.recorded_at
          || e.revision.origin_device_id != e.device_id
          || e.revision.approver_id != e.approver.id)
        attribution_mismatch
    validate_revision_syntax e.revision

  -- The switch of validateRequest.
  unfoldable pub check_request_action : Request → Action → Check
  unfolding is_given
  check_request_action q promote =
      fail_if
        (q.memory_id != ""
          || q.expected_revision_id != ""
          || not (is_given q.candidate)
          || not (valid_sha256 q.expected_text_sha256))
        bad_promote_request
  check_request_action q supersede =
      fail_if
        (not (valid_prefixed_hash q.memory_id "memory-")
          || not (valid_prefixed_hash q.expected_revision_id "memory-revision-")
          || not (is_given q.candidate)
          || not (valid_sha256 q.expected_text_sha256))
        bad_supersede_request
  check_request_action q revoke =
      fail_if
        (not (valid_prefixed_hash q.memory_id "memory-")
          || not (valid_prefixed_hash q.expected_revision_id "memory-revision-")
          || is_given q.candidate
          || length q.redactions != 0
          || q.expected_text_sha256 != "")
        bad_revoke_request
  check_request_action q (other_action _) = err bad_request_action

  unfoldable pub check_candidate_reference : Option CandidateReference → Check
  check_candidate_reference none = ok tt
  check_candidate_reference (some c) =
      fail_if
        (is_blank c.generation
          || not (is_base_name c.generation)
          || not (valid_prefixed_hash c.candidate_id "candidate-")
          || not (valid_sha256 c.candidate_content_sha256)
          || not (valid_sha256 c.expected_review_record_sha))
        bad_candidate_reference

  -- `validateRequest`.
  unfoldable pub validate_request : Request → Check
  unfolding check_request_action check_candidate_reference
  validate_request q = do
    fail_if (bad_envelope q) request_envelope
    fail_if (is_sensitive q.approver.id || is_sensitive q.reason) request_sensitive
    check_request_action q q.action
    check_candidate_reference q.candidate
