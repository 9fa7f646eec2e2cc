-- ===== src/Promotion/Prepare.antt =====
-- `prepareRevision` and `requestFromRevision` of internal/promotion/apply.go.
use Prim.Native.String.{◌++◌ as str_append}
use agent_memory_system.Prelude.{
  ℕ, String, Bool, true, false, not, ◌&&◌, ◌||◌, Option, none, some, List, [], ◌∷◌, map,
}
use agent_memory_system.Prelude.Tests.{string_eq, ◌==◌, ◌!=◌, if◌then◌else◌, string_ltb}
use agent_memory_system.Prelude.Result.{Result, ok, err, ◌>>=◌, ◌>>◌, fail_if, wrap}
use agent_memory_system.Prelude.Text.{bytes}
use agent_memory_system.Ledger.Types.{Time}
use agent_memory_system.Secretscan.{Report, Redaction, scan, scanner_version}
use agent_memory_system.Secretscan.Redact.{RedactError, apply_redactions}
use agent_memory_system.Promotion.Types.{
  revision_schema_version, Action, promote, supersede, revoke, active, revoked, other_status,
  is_active, Scope, scope_eq, CandidateReference, Request, Source, ScanAttestation, Revision,
  ValidatedCandidate, Services,
}
use agent_memory_system.Promotion.Validate.{text_digest}
use agent_memory_system.Promotion.Replay.{State, find_memory}

pub data PrepareError : Type 0 where
  not_revocable stale_expectation encode_failed no_candidate : PrepareError
  generation_failed evidence_changed not_validated text_mismatch parent_identity : PrepareError
  memory_exists semantic_match not_supersedable bad_action : PrepareError
  redaction_failed : RedactError → PrepareError

insert_id : String → List String → List String
insert_id s [] = s ∷ []
insert_id s (t ∷ ts) = let rest = insert_id s ts in if string_ltb t s then t ∷ rest else s ∷ t ∷ ts

sort_ids : List String → List String
unfolding insert_id
sort_ids [] = []
sort_ids (s ∷ ss) = insert_id s (sort_ids ss)

-- `findingIDs`.
unfoldable pub finding_ids : Report → List String
unfolding sort_ids
finding_ids report = sort_ids (map (λ f. f.finding_id) report.findings)

semantic_source : Scope → String → Scope → Option Source → Bool
semantic_source scope key own none = false
semantic_source scope key own (some source) =
    scope_eq own scope && source.semantic_key_sha256 == key

-- The loop over `state.current` that looks for a memory of the same meaning.
unfoldable pub any_semantic_match : Scope → String → List Revision → Bool
unfolding semantic_source
any_semantic_match scope key [] = false
any_semantic_match scope key (r ∷ rs) =
    semantic_source scope key r.scope r.source || any_semantic_match scope key rs

-- `current.Source == nil || current.Source.SemanticKeySHA256 != key`.
unfoldable pub key_differs : String → Option Source → Bool
key_differs key none = true
key_differs key (some source) = source.semantic_key_sha256 != key

-- The fields that every revision of a request has.
abbrev pub base_of : String → Time → Request → Revision
base_of device now q = record {
  schema_version = revision_schema_version;
  memory_id = "";
  revision_id = "";
  parent_revision_id = "";
  action = q.action;
  status = other_status "";
  kind = "";
  text = "";
  text_sha256 = "";
  scope = record { kind = ""; value = "" };
  source = none;
  scan = none;
  requires_explicit_rule_change_approval = false;
  rule_change_authorization = "not_granted";
  recorded_at = now;
  origin_device_id = device;
  approver_id = q.approver.id;
  reason = q.reason;
  privacy = "local_only";
}

abbrev pub source_of : ValidatedCandidate → Source
source_of v = record {
  candidate_generation = v.proof.source_candidate_generation;
  candidates_sha256 = v.proof.source_candidates_sha256;
  candidate_id = v.proof.candidate_id;
  candidate_content_sha256 = v.proof.candidate_content_sha256;
  semantic_key_sha256 = v.candidate.semantic_key_sha256;
  review_event_id = v.proof.review_event_id;
  review_record_sha256 = v.proof.review_record_sha256;
  review_scope = v.proof.scope;
  review_basis = v.proof.basis;
}

abbrev pub attestation_of : Report → List Redaction → String → ScanAttestation
attestation_of report redactions redacted_sha = record {
  scanner_version = scanner_version;
  source_text_sha256 = report.content_sha256;
  finding_ids = finding_ids report;
  redactions = redactions;
  redacted_text_sha256 = redacted_sha;
}

-- The revocation of a memory's current revision, without its id.
abbrev pub revoke_base : String → Time → Request → Revision → Revision
revoke_base device now q c = record (base_of device now q) {
  memory_id = c.memory_id;
  parent_revision_id = c.revision_id;
  status = revoked;
  kind = c.kind;
  scope = c.scope;
  requires_explicit_rule_change_approval = c.requires_explicit_rule_change_approval;
}

-- The revision of a validated candidate, by its redacted text and digest, without its id.
abbrev pub active_base :
    String
    → Time
    → Request
    → Report
    → ValidatedCandidate
    → String
    → String
    → String
    → String
    → Revision
active_base device now q report v redacted redacted_sha memory_id parent =
    record (base_of device now q) {
      memory_id = memory_id;
      parent_revision_id = parent;
      status = active;
      kind = v.candidate.kind;
      text = redacted;
      text_sha256 = redacted_sha;
      scope = v.proof.scope;
      source = some (source_of v);
      scan = some (attestation_of report q.redactions redacted_sha);
      requires_explicit_rule_change_approval = v.candidate.requires_explicit_rule_change_approval;
    }

-- A memory that the candidate cannot supersede.
abbrev pub unsuitable : ValidatedCandidate → Revision → Bool
unsuitable v c =
    not (is_active c.status)
    || not (scope_eq c.scope v.proof.scope)
    || key_differs v.candidate.semantic_key_sha256 c.source

module _ (sv : Services) where
  -- `expectedMemoryID`.
  unfoldable pub expected_memory_id : String → Scope → String
  expected_memory_id text_sha256 scope =
      str_append "memory-" (sv.sha256_hex (sv.identity_json text_sha256 scope))

  abbrev id_of : Option (List ℕ) → Option String
  id_of none = none
  id_of (some data_) = some (str_append "memory-revision-" (sv.sha256_hex data_))

  -- `revisionID`.
  unfoldable pub revision_id : Revision → Option String
  revision_id r = id_of (sv.revision_json (record r { revision_id = "" }))

  unfoldable pub with_id : Revision → Option String → Result PrepareError Revision
  with_id base none = err encode_failed
  with_id base (some id) = ok (record base { revision_id = id })

  -- The memory and the parent of an active revision, by the switch on the action.
  unfoldable pub identify :
      State → Request → Action → String → ValidatedCandidate → Result PrepareError (String × String)
  identify s q promote redacted_sha v = do
    let memory_id = expected_memory_id redacted_sha v.proof.scope
    fail_if (q.memory_id != "" || q.expected_revision_id != "") parent_identity
    elim (find_memory memory_id s.current) [
      | some r ↦ err memory_exists
      | none ↦
          if any_semantic_match v.proof.scope v.candidate.semantic_key_sha256 s.current
          then err semantic_match
          else ok (memory_id, "")
    ]
  identify s q supersede redacted_sha v = elim (find_memory q.memory_id s.current) [
    | none ↦ err not_supersedable
    | some c ↦
        if unsuitable v c
        then err not_supersedable
        else if q.expected_revision_id != c.revision_id
        then err stale_expectation
        else ok (q.memory_id, c.revision_id)
  ]
  identify s q _ redacted_sha v = err bad_action

  unfoldable pub prepare_revoke :
      String → Time → Request → Option Revision → Result PrepareError Revision
  unfolding with_id
  prepare_revoke device now q none = err not_revocable
  prepare_revoke device now q (some c) = do
    fail_if (not (is_active c.status)) not_revocable
    fail_if (c.revision_id != q.expected_revision_id) stale_expectation
    let base = revoke_base device now q c
    with_id base (revision_id base)

  unfoldable pub validated : Option ValidatedCandidate → Result PrepareError ValidatedCandidate
  validated none = err not_validated
  validated (some v) = ok v

  -- `prepareRevision` for an active revision; the code reads `request.Candidate` without a test,
  -- since validateRequest has seen it.
  unfoldable pub prepare_active :
      State → String → Time → Request → Option CandidateReference → Result PrepareError Revision
  unfolding validated identify with_id
  prepare_active s device now q none = err no_candidate
  prepare_active s device now q (some c) = do
    fail_if (not (sv.open_generation c.generation)) generation_failed
    fail_if (not (sv.current_evidence c.generation)) evidence_changed
    v ← validated (sv.resolve_current_validation c)
    let report = scan sv.detectors (bytes v.candidate.text)
    redacted_bytes ←
        wrap redaction_failed
          (apply_redactions sv.detectors (bytes v.candidate.text) report q.redactions)
    let redacted = sv.text_of redacted_bytes
    let redacted_sha = text_digest sv redacted
    fail_if (q.expected_text_sha256 != redacted_sha) text_mismatch
    (memory_id, parent) ← identify s q q.action redacted_sha v
    let base = active_base device now q report v redacted redacted_sha memory_id parent
    with_id base (revision_id base)

  unfoldable pub by_action : State → String → Time → Request → Action → Result PrepareError Revision
  unfolding prepare_revoke prepare_active
  by_action s device now q revoke = prepare_revoke device now q (find_memory q.memory_id s.current)
  by_action s device now q _ = prepare_active s device now q q.candidate

  -- `prepareRevision`.
  unfoldable pub prepare_revision : State → String → Time → Request → Result PrepareError Revision
  unfolding by_action
  prepare_revision s device now q = by_action s device now q q.action
