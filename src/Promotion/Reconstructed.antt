-- ===== src/Promotion/Reconstructed.antt =====
-- `requestFromRevision` of internal/promotion/apply.go on the events that Apply makes.
use agent_memory_system.Prelude.{
  String, false, not, ◌||◌, Option, none, some, List, [], ◌∷◌, ◌≡◌, refl, sym, ap, subst, ◌∙◌,
  arith, inl, inr,
}
use agent_memory_system.Prelude.Tests.{
  string_eq, nat_eq, ◌!=◌, eq_of_not-ne, Bool-cases, Option-cases,
}
use agent_memory_system.Prelude.Lists.{length}
use agent_memory_system.Prelude.Result.{ok, fail_if-then, then-eq-ok, ok-injective, fail_if-eq-ok}
use agent_memory_system.Prelude.Text.{valid_sha256, valid_prefixed_hash}
use agent_memory_system.Ledger.Types.{Time}
use agent_memory_system.Promotion.Types.{
  request_schema_version, Action, promote, supersede, revoke, other_action, CandidateReference,
  Request, Revision, Event, ValidatedCandidate, Services, is_active,
}
use agent_memory_system.Promotion.Validate.{
  bad_envelope, validate_request, is_sensitive, is_given, text_digest, check_request_action,
}
use agent_memory_system.Promotion.Replay.{State, find_memory}
use agent_memory_system.Promotion.Prepare.{
  prepare_revision, by_action, prepare_revoke, prepare_active, revoke_base, source_of, identify,
  unsuitable,
}
use agent_memory_system.Promotion.Prepared.{prepare_active-Prepared, find_memory-id, with_id-eq-ok}
use agent_memory_system.Promotion.Requests.{
  reference_of, rebuild, request_from_revision, with_candidate,
}

-- What validateRequest tells of the fields that a request leaves empty.
abbrev IsPlain : Request → Action → Type 0
IsPlain q promote = (q.memory_id ≡ "") × (q.expected_revision_id ≡ "")
IsPlain q supersede = Unit
IsPlain q revoke = (q.candidate ≡ none) × (q.redactions ≡ []) × (q.expected_text_sha256 ≡ "")
IsPlain q (other_action x) = ⊥

empty_list : {A : Type 0} (xs : List A) → length xs ≡ 0 → xs ≡ []
empty_list [] h = refl
empty_list (x ∷ xs) h = ground arith

not_given : (sv : Services) {A : Type 0} (o : Option A) → is_given sv o ≡ false → o ≡ none
unfolding is_given
not_given sv none h = refl
not_given sv (some a) h = ground arith

check_request_action-IsPlain :
    (sv : Services) (q : Request) (action : Action)
    → check_request_action sv q action ≡ ok tt
    → IsPlain q action
unfolding check_request_action
check_request_action-IsPlain sv q promote h =
    let e =
      fail_if-eq-ok
        (q.memory_id != ""
          || q.expected_revision_id != ""
          || not (is_given sv q.candidate)
          || not (valid_sha256 q.expected_text_sha256))
        _ h in
    (
      eq_of_not-ne q.memory_id "" (ground arith),
      eq_of_not-ne q.expected_revision_id "" (ground arith),
    )
check_request_action-IsPlain sv q supersede h = tt
check_request_action-IsPlain sv q revoke h =
    let e =
      fail_if-eq-ok
        (not (valid_prefixed_hash q.memory_id "memory-")
          || not (valid_prefixed_hash q.expected_revision_id "memory-revision-")
          || is_given sv q.candidate
          || length q.redactions != 0
          || q.expected_text_sha256 != "")
        _ h in
    (
      not_given sv q.candidate (ground arith),
      empty_list q.redactions (ground arith),
      eq_of_not-ne q.expected_text_sha256 "" (ground arith),
    )
check_request_action-IsPlain sv q (other_action x) h = cc h

validate_request-parts :
    (sv : Services) (q : Request)
    → validate_request sv q ≡ ok tt
    → (q.schema_version ≡ request_schema_version) × IsPlain q q.action
unfolding validate_request
validate_request-parts sv q h =
    let (envelope, h1) = fail_if-then (bad_envelope q) _ _ h in
    let (clean, h2) =
      fail_if-then (is_sensitive sv q.approver.id || is_sensitive sv q.reason) _ _ h1 in
    let (plain, h3) = then-eq-ok (check_request_action sv q q.action) _ h2 in
    (
      eq_of_not-ne q.schema_version request_schema_version (ground arith),
      check_request_action-IsPlain sv q q.action plain,
    )

request_eq :
    (a b : Request)
    → a.schema_version ≡ b.schema_version
    → a.approver ≡ b.approver
    → a.action ≡ b.action
    → a.memory_id ≡ b.memory_id
    → a.expected_revision_id ≡ b.expected_revision_id
    → a.candidate ≡ b.candidate
    → a.redactions ≡ b.redactions
    → a.expected_text_sha256 ≡ b.expected_text_sha256
    → a.reason ≡ b.reason
    → a ≡ b
request_eq a b h1 h2 h3 h4 h5 h6 h7 h8 h9 = cc

-- What the resolved validation tells of its candidate is what was asked for.
abbrev pub IsFaithful : Services → Type 0
IsFaithful sv =
    (c : CandidateReference) (v : ValidatedCandidate)
    → sv.resolve_current_validation c ≡ some v
    → reference_of (source_of v) ≡ c

module _ (sv : Services) (s : State) (device : String) (now : Time) (q : Request) (e : Event) where
  -- The memory and the parent are those that the request names.
  identify-request :
      (sha : String) (v : ValidatedCandidate) (pair : String × String)
      → identify sv s q supersede sha v ≡ ok pair
      → (pair.0 ≡ q.memory_id) × (pair.1 ≡ q.expected_revision_id)
  unfolding identify
  identify-request sha v pair h = elim (Option-cases (find_memory q.memory_id s.current)) [
    | inl k ↦ cc (rw (k, identify) at h)
    | inr (c, k) ↦ elim (Bool-cases (unsuitable v c)) [
      | inl l ↦ cc (rw (k, l, identify) at h)
      | inr l ↦ elim (Bool-cases (q.expected_revision_id != c.revision_id)) [
        | inl m ↦ cc (rw (k, l, m, identify) at h)
        | inr m ↦
            let same = sym (ok-injective (rw (k, l, m, identify) at h)) in
            (ap (λ p. p.0) same, ap (λ p. p.1) same ∙ sym (eq_of_not-ne _ _ m))
      ]
    ]
  ]

  rebuild_lem :
      (r : Revision) (action : Action)
      → IsFaithful sv
      → q.schema_version ≡ request_schema_version
      → IsPlain q action
      → q.action ≡ action
      → e.approver ≡ q.approver
      → e.revision ≡ r
      → by_action sv s device now q action ≡ ok r
      → rebuild e r action ≡ ok q
  unfolding rebuild by_action with_candidate prepare_revoke prepare_active
  rebuild_lem r promote faithful schema plain a approver own h = elim (Option-cases q.candidate) [
    | inl k ↦ cc (rw (k, prepare_active) at h)
    | inr (c, k) ↦
        let p = prepare_active-Prepared sv s device now q c r (rw k at h) in
        let shape = own ∙ p.shape in
        subst (λ t. rebuild e t promote ≡ ok q) (sym p.shape)
          (ap ok (
            request_eq _ q (sym schema) approver (ap (λ v. v.action) shape) (sym plain.0)
              (sym plain.1) (ap some (faithful c p.v p.resolved) ∙ sym k) refl (sym p.expected)
              (ap (λ v. v.reason) shape)))
  ]
  rebuild_lem r supersede faithful schema plain a approver own h = elim (Option-cases q.candidate) [
    | inl k ↦ cc (rw (k, prepare_active) at h)
    | inr (c, k) ↦
        let p = prepare_active-Prepared sv s device now q c r (rw k at h) in
        let shape = own ∙ p.shape in
        let (named, parent) =
          identify-request (text_digest sv (sv.text_of p.redacted)) p.v (p.memory_id, p.parent)
            (subst
              (λ t.
                identify sv s q t (text_digest sv (sv.text_of p.redacted)) p.v
                ≡ ok (p.memory_id, p.parent))
              a p.identified) in
        subst (λ t. rebuild e t supersede ≡ ok q) (sym p.shape)
          (ap ok (
            request_eq _ q (sym schema) approver (ap (λ v. v.action) shape) named parent
              (ap some (faithful c p.v p.resolved) ∙ sym k) refl (sym p.expected)
              (ap (λ v. v.reason) shape)))
  ]
  rebuild_lem r revoke faithful schema plain a approver own h =
      elim (Option-cases (find_memory q.memory_id s.current)) [
        | inl k ↦ cc (rw (k, prepare_revoke) at h)
        | inr (c, k) ↦
            let live = fail_if-then (not (is_active c.status)) _ _ (rw k at h) in
            let fresh = fail_if-then (c.revision_id != q.expected_revision_id) _ _ live.1 in
            let (id, same) = with_id-eq-ok sv (revoke_base device now q c) r _ fresh.1 in
            let shape = own ∙ same in
            subst (λ t. rebuild e t revoke ≡ ok q) (sym same)
              (ap ok (
                request_eq _ q (sym schema) approver (ap (λ v. v.action) shape)
                  (find_memory-id q.memory_id s.current c k)
                  (eq_of_not-ne c.revision_id q.expected_revision_id fresh.0) (sym plain.0)
                  (sym plain.1) (sym plain.2) (ap (λ v. v.reason) shape)))
      ]
  rebuild_lem r (other_action x) faithful schema plain a approver own h = absurd plain

  -- If a resolved validation is of the candidate that was asked for, requestFromRevision rebuilds a
  -- valid request from an event with its approver and action and the revision prepared for it.
  pub prepare_revision-request_from_revision :
      IsFaithful sv
      → validate_request sv q ≡ ok tt
      → prepare_revision sv s device now q ≡ ok e.revision
      → e.approver ≡ q.approver
      → e.revision.action ≡ q.action
      → request_from_revision sv e ≡ ok q
  unfolding prepare_revision request_from_revision
  prepare_revision-request_from_revision faithful valid h approver action =
      let (schema, plain) = validate_request-parts sv q valid in
      let rebuilt = rebuild_lem e.revision q.action faithful schema plain refl approver refl h in
      let own = subst (λ t. rebuild e e.revision t ≡ ok q) (sym action) rebuilt in
      rw (own, valid) refl
