-- ===== src/Promotion/Requests.antt =====
-- `requestFromRevision` and `hashRequest` of internal/promotion/apply.go.
use agent_memory_system.Prelude.{String, Option, none, some, []}
use agent_memory_system.Prelude.Result.{Result, ok, err, ◌>>=◌, ◌>>◌, wrap}
use agent_memory_system.Promotion.Types.{
  request_schema_version, Action, promote, supersede, revoke, other_action, CandidateReference,
  Request, Source, ScanAttestation, Revision, Event, Services,
}
use agent_memory_system.Promotion.Validate.{PromotionError, validate_request}

pub data RequestError : Type 0 where
  source_missing bad_revision_action : RequestError
  invalid_request : PromotionError → RequestError

abbrev pub reference_of : Source → CandidateReference
reference_of s = record {
  generation = s.candidate_generation;
  candidate_id = s.candidate_id;
  candidate_content_sha256 = s.candidate_content_sha256;
  expected_review_record_sha = s.review_record_sha256;
}

abbrev pub plain_request : Event → Request
plain_request e = record {
  schema_version = request_schema_version;
  approver = e.approver;
  action = e.revision.action;
  memory_id = "";
  expected_revision_id = "";
  candidate = none;
  redactions = [];
  expected_text_sha256 = "";
  reason = e.revision.reason;
}

unfoldable pub with_candidate :
    Request → Revision → Option Source → Option ScanAttestation → Result RequestError Request
with_candidate q r (some source) (some attestation) = ok (record q {
  candidate = some (reference_of source);
  redactions = attestation.redactions;
  expected_text_sha256 = r.text_sha256;
})
with_candidate q r _ _ = err source_missing

abbrev pub with_parent : Revision → Request → Request
with_parent r q = record q { memory_id = r.memory_id; expected_revision_id = r.parent_revision_id }

-- The switch of requestFromRevision.
unfoldable pub rebuild : Event → Revision → Action → Result RequestError Request
unfolding with_candidate
rebuild e r promote = with_candidate (plain_request e) r r.source r.scan
rebuild e r supersede = do
  q ← with_candidate (plain_request e) r r.source r.scan
  ok (with_parent r q)
rebuild e r revoke = ok (with_parent r (plain_request e))
rebuild e r (other_action _) = err bad_revision_action

-- `requestFromRevision`.
unfoldable pub request_from_revision : Services → Event → Result RequestError Request
unfolding rebuild
request_from_revision sv e = do
  q ← rebuild e e.revision e.revision.action
  wrap invalid_request (validate_request sv q)
  ok q

-- `hashRequest`.
unfoldable pub hash_request : Services → Request → Option String
hash_request sv q = elim (sv.request_json q) [
  | none ↦ none
  | some data_ ↦ some (sv.sha256_hex data_)
]
