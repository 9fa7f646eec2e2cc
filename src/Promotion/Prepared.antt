-- ===== src/Promotion/Prepared.antt =====
-- What a revision that `prepareRevision` of internal/promotion/apply.go returns satisfies.
use agent_memory_system.Prelude.{
  ℕ, String, Bool, true, false, not, ◌||◌, Option, none, some, List, [], ◌∷◌, ◌≡◌, refl, sym, ap,
  subst, ◌∙◌, inl, inr, arith,
}
use agent_memory_system.Prelude.Tests.{
  string_eq, ◌==◌, ◌!=◌, Bool-cases, Option-cases, eq_of_not-ne, ne_self, beq_refl,
}
use agent_memory_system.Prelude.Result.{
  ok, wrap, fail_if-then, bind-eq-ok, ok-injective, wrap-eq-ok,
}
use agent_memory_system.Prelude.Text.{bytes}
use agent_memory_system.Ledger.Types.{Time}
use agent_memory_system.Secretscan.{scan}
use agent_memory_system.Secretscan.Redact.{apply_redactions}
use agent_memory_system.Promotion.Types.{
  Action, promote, supersede, revoke, other_action, is_active, is_revoked, scope_eq,
  CandidateReference, Request, Revision, ValidatedCandidate, Services, Scope,
}
use agent_memory_system.Promotion.Validate.{text_digest}
use agent_memory_system.Promotion.Replay.{State, find_memory, check_transition, bool_differs}
use agent_memory_system.Promotion.Prepare.{
  any_semantic_match, unsuitable, expected_memory_id, with_id, identify, revoke_base, active_base,
  prepare_revoke, validated, prepare_active, by_action, prepare_revision, redaction_failed,
}

pub find_memory-id :
    (id : String) (rs : List Revision) (c : Revision)
    → find_memory id rs ≡ some c
    → c.memory_id ≡ id
unfolding find_memory
find_memory-id id [] c h = cc h
find_memory-id id (r ∷ rs) c h = elim (Bool-cases (r.memory_id == id)) [
  | inl e ↦ ap (λ o. o) (ground (arith, string_eq.same_iff r.memory_id id))
  | inr e ↦ find_memory-id id rs c (rw e at h)
]

scope_eq_refl : (s : Scope) → scope_eq s s ≡ true
unfolding scope_eq
scope_eq_refl s = rw (beq_refl s.kind, beq_refl s.value) refl

bool_differs_self : (b : Bool) → bool_differs b b ≡ false
unfolding bool_differs
bool_differs_self true = refl
bool_differs_self false = refl

revoke_allowed :
    (n : ℕ) (c r : Revision)
    → is_active c.status ≡ true
    → r.parent_revision_id ≡ c.revision_id
    → is_revoked r.status ≡ true
    → r.kind ≡ c.kind
    → r.scope ≡ c.scope
    → r.requires_explicit_rule_change_approval ≡ c.requires_explicit_rule_change_approval
    → check_transition n (some c) r revoke ≡ ok tt
unfolding check_transition
revoke_allowed n c r live parent ended kind scope rule =
    rw
      (
        live,
        parent,
        ended,
        kind,
        scope,
        rule,
        ne_self c.revision_id,
        ne_self c.kind,
        scope_eq_refl c.scope,
        bool_differs_self c.requires_explicit_rule_change_approval,
      )
      refl

supersede_allowed :
    (n : ℕ) (c r : Revision)
    → is_active c.status ≡ true
    → r.parent_revision_id ≡ c.revision_id
    → is_active r.status ≡ true
    → check_transition n (some c) r supersede ≡ ok tt
unfolding check_transition
supersede_allowed n c r live parent started = rw (live, parent, started, ne_self c.revision_id) refl

promote_allowed :
    (n : ℕ) (r : Revision)
    → r.parent_revision_id ≡ ""
    → is_active r.status ≡ true
    → check_transition n none r promote ≡ ok tt
unfolding check_transition
promote_allowed n r parent started = rw (parent, started) refl

-- The switch's answer depends on the memory and the action up to their equality.
transported :
    (n : ℕ) (o o' : Option Revision) (r : Revision) (action action' : Action)
    → o ≡ o'
    → action ≡ action'
    → check_transition n o' r action' ≡ ok tt
    → check_transition n o r action ≡ ok tt
transported n o o' r action action' p q h = rw (p, q) h

module _ (sv : Services) where
  pub with_id-eq-ok :
      (base r : Revision) (o : Option String)
      → with_id sv base o ≡ ok r
      → (id : String) × (r ≡ record base { revision_id = id })
  unfolding with_id
  with_id-eq-ok base r none h = cc h
  with_id-eq-ok base r (some id) h = (id, sym (ok-injective h))

  module _ (s : State) (device : String) (now : Time) (q : Request) where
    -- What replay asks of a revision that follows the state.
    abbrev IsAdmitted : ℕ → Revision → Type 0
    IsAdmitted n r = check_transition n (find_memory r.memory_id s.current) r r.action ≡ ok tt

    prepare_revoke-IsAdmitted :
        (n : ℕ) (c : Option Revision) (r : Revision)
        → q.action ≡ revoke
        → find_memory q.memory_id s.current ≡ c
        → prepare_revoke sv device now q c ≡ ok r
        → IsAdmitted n r
    unfolding prepare_revoke
    prepare_revoke-IsAdmitted n none r a found h = cc h
    prepare_revoke-IsAdmitted n (some c) r a found h =
        let (live, h1) = fail_if-then (not (is_active c.status)) _ _ h in
        let (fresh, h2) = fail_if-then (c.revision_id != q.expected_revision_id) _ _ h1 in
        let (id, same) = with_id-eq-ok (revoke_base device now q c) r _ h2 in
        let kept = find_memory-id q.memory_id s.current c found in
        subst (IsAdmitted n) (sym same) (
          transported n _ (some c) _ _ revoke (ap (λ i. find_memory i s.current) kept ∙ found) a
            (revoke_allowed n c _ (ground arith) refl refl refl refl refl))

    -- What `identify` tells of the memory and the parent.
    identify-admits :
        (n : ℕ) (action : Action) (sha : String) (v : ValidatedCandidate)
        (memory_id parent : String) (r : Revision)
        → identify sv s q action sha v ≡ ok (memory_id, parent)
        → is_active r.status ≡ true
        → r.parent_revision_id ≡ parent
        → check_transition n (find_memory memory_id s.current) r action ≡ ok tt
    unfolding identify
    identify-admits n promote sha v memory_id parent r h started par =
        let (plain, h1) = fail_if-then (q.memory_id != "" || q.expected_revision_id != "") _ _ h in
        let id = expected_memory_id sv sha v.proof.scope in
        elim (Option-cases (find_memory id s.current)) [
          | inr (c, e) ↦ cc (rw e at h1)
          | inl e ↦
              elim (Bool-cases
                (any_semantic_match v.proof.scope v.candidate.semantic_key_sha256 s.current)) [
                  | inl k ↦ cc (rw (e, k) at h1)
                  | inr k ↦
                      let pair = ok-injective (rw (e, k) at h1) in
                      transported n _ none r promote promote
                        (ap (λ t. find_memory t.0 s.current) (sym pair) ∙ e) refl
                        (promote_allowed n r (par ∙ ap (λ t. t.1) (sym pair)) started)
                ]
        ]
    identify-admits n supersede sha v memory_id parent r h started par =
        elim (Option-cases (find_memory q.memory_id s.current)) [
          | inl e ↦ cc (rw (e, identify) at h)
          | inr (c, e) ↦ elim (Bool-cases (unsuitable v c)) [
            | inl k ↦ cc (rw (e, k, identify) at h)
            | inr k ↦ elim (Bool-cases (q.expected_revision_id != c.revision_id)) [
              | inl l ↦ cc (rw (e, k, l, identify) at h)
              | inr l ↦
                  let pair = ok-injective (rw (e, k, l, identify) at h) in
                  transported n _ (some c) r supersede supersede
                    (ap (λ t. find_memory t.0 s.current) (sym pair) ∙ e) refl
                    (supersede_allowed n c r (ground arith) (par ∙ ap (λ t. t.1) (sym pair))
                      started)
            ]
          ]
        ]
    identify-admits n revoke sha v memory_id parent r h started par = cc h
    identify-admits n (other_action x) sha v memory_id parent r h started par = cc h

    -- The steps of an active revision that succeeds.
    pub record Prepared (c : CandidateReference) (r : Revision) : Type 0 where
      pub v : ValidatedCandidate
      pub resolved : sv.resolve_current_validation c ≡ some v
      pub redacted : List ℕ
      pub applied :
          apply_redactions sv.detectors
            (bytes v.candidate.text)
            (scan sv.detectors (bytes v.candidate.text))
            q.redactions
          ≡ ok redacted
      pub expected : q.expected_text_sha256 ≡ text_digest sv (sv.text_of redacted)
      pub memory_id : String
      pub parent : String
      pub identified :
          identify sv s q q.action (text_digest sv (sv.text_of redacted)) v ≡ ok (memory_id, parent)
      pub id : String
      pub shape :
          r
          ≡ record (active_base device now q
              (scan sv.detectors (bytes v.candidate.text))
              v
              (sv.text_of redacted)
              (text_digest sv (sv.text_of redacted))
              memory_id
              parent) { revision_id = id }

    validated-eq-ok :
        (o : Option ValidatedCandidate) (v : ValidatedCandidate)
        → validated sv o ≡ ok v
        → o ≡ some v
    unfolding validated
    validated-eq-ok none v h = cc h
    validated-eq-ok (some w) v h = ap some (ok-injective h)

    pub prepare_active-Prepared :
        (c : CandidateReference) (r : Revision)
        → prepare_active sv s device now q (some c) ≡ ok r
        → Prepared c r
    unfolding prepare_active
    prepare_active-Prepared c r h =
        let (opened, h1) = fail_if-then (not (sv.open_generation c.generation)) _ _ h in
        let (fresh, h2) = fail_if-then (not (sv.current_evidence c.generation)) _ _ h1 in
        let (v, resolved, h3) = bind-eq-ok (validated sv (sv.resolve_current_validation c)) _ h2 in
        let text = bytes v.candidate.text in
        let (redacted, applied, h4) =
          bind-eq-ok
            (wrap redaction_failed
              (apply_redactions sv.detectors text (scan sv.detectors text) q.redactions))
            _ h3 in
        let sha = text_digest sv (sv.text_of redacted) in
        let (expected, h5) = fail_if-then (q.expected_text_sha256 != sha) _ _ h4 in
        let (pair, identified, h6) = bind-eq-ok (identify sv s q q.action sha v) _ h5 in
        let (id, shape) =
          with_id-eq-ok
            (active_base device now q (scan sv.detectors text) v (sv.text_of redacted) sha pair.0
              pair.1)
            r _ h6 in
        record {
          v = v;
          resolved = validated-eq-ok _ v resolved;
          redacted = redacted;
          applied = wrap-eq-ok redaction_failed _ applied;
          expected = eq_of_not-ne q.expected_text_sha256 sha expected;
          memory_id = pair.0;
          parent = pair.1;
          identified = identified;
          id = id;
          shape = shape;
        }

    prepare_active-IsAdmitted :
        (n : ℕ) (c : Option CandidateReference) (r : Revision)
        → prepare_active sv s device now q c ≡ ok r
        → IsAdmitted n r
    unfolding prepare_active
    prepare_active-IsAdmitted n none r h = cc h
    prepare_active-IsAdmitted n (some c) r h =
        let p = prepare_active-Prepared c r h in
        subst (IsAdmitted n) (sym p.shape)
          (identify-admits n q.action _ p.v p.memory_id p.parent _ p.identified refl refl)

    by_action-IsAdmitted :
        (n : ℕ) (r : Revision) (action : Action)
        → q.action ≡ action
        → by_action sv s device now q action ≡ ok r
        → IsAdmitted n r
    unfolding by_action
    by_action-IsAdmitted n r promote a h = prepare_active-IsAdmitted n q.candidate r h
    by_action-IsAdmitted n r supersede a h = prepare_active-IsAdmitted n q.candidate r h
    by_action-IsAdmitted n r (other_action x) a h = prepare_active-IsAdmitted n q.candidate r h
    by_action-IsAdmitted n r revoke a h =
        prepare_revoke-IsAdmitted n (find_memory q.memory_id s.current) r a refl h

    -- A revision that prepareRevision returns passes the switch of replay.
    pub prepare_revision-IsAdmitted :
        (n : ℕ) (r : Revision) → prepare_revision sv s device now q ≡ ok r → IsAdmitted n r
    unfolding prepare_revision
    prepare_revision-IsAdmitted n r h = by_action-IsAdmitted n r q.action refl h
