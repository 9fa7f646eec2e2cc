-- ===== src/Ledger/Validate/Exact.antt =====
-- `validateEvent` of internal/ledger/ledger.go against a description of the events it is to accept.
use agent_memory_system.Prelude.{
  ℕ, ◌<◌, String, ◌≡◌, refl, ◌≢◌, ◌↔◌, ◌⊎◌, inl, inr, true, false, not, Option, none, some, List,
  [], ◌∷◌, arith,
}
use agent_memory_system.Prelude.Tests.{nat_eq, string_eq, ◌==◌, Bool-cases, or-false, eq_of_not-ne}
use agent_memory_system.Prelude.Int.{pos, int_eq}
use agent_memory_system.Prelude.Lists.{elem}
use agent_memory_system.Prelude.Result.{ok, fail_if-then, then-eq-ok}
use agent_memory_system.Prelude.Text.{bytes, len, is_blank, valid_sha256}
use agent_memory_system.Ledger.Types.{
  schema_version_v1alpha1, schema_version_v1alpha2, base_kinds, v1alpha2_kinds, kind_reasoning,
  reasoning_visibilities, completeness_complete, Source, BlobRef, Payload, ReasoningCapture,
  Completeness, Event,
}
use agent_memory_system.Ledger.Validate.{
  expected_blob_relative_path, valid_event_kind_for_version, check_reasoning, check_payload_parts,
  check_payload, check_completeness, check_source, validate_event,
}

-- A member of a list of texts.
pub OneOf : String → List String → Type 0
OneOf a [] = ⊥
OneOf a (x ∷ xs) = (a ≡ x) ⊎ OneOf a xs

abbrev pub KindAllowed : String → String → Type 0
KindAllowed version kind =
    ((version ≡ schema_version_v1alpha1) × OneOf kind base_kinds)
    ⊎ ((version ≡ schema_version_v1alpha2) × (OneOf kind base_kinds ⊎ OneOf kind v1alpha2_kinds))

abbrev pub OptionalDigest : String → Type 0
OptionalDigest s = (s ≡ "") ⊎ (valid_sha256 s ≡ true)

pub record SourceFits (s : Source) : Type 0 where
  pub agent : s.agent ≢ ""
  pub adapter : s.adapter ≢ ""
  pub adapter_version : s.adapter_version ≢ ""
  pub device_id : s.device_id ≢ ""
  pub thread_id : s.thread_id ≢ ""
  pub source_path : OptionalDigest s.source_path_hash
  pub acquisition_path : OptionalDigest s.acquisition_path_hash

-- Exactly one of content and blob, and the payload's digest and size are its.
abbrev pub PartsFit : (List ℕ → String) → Payload → Option String → Option BlobRef → Type 0
PartsFit sha256_hex p (some content) none =
    (p.sha256 ≡ sha256_hex (bytes content)) × (p.bytes ≡ pos (len content))
PartsFit sha256_hex p none (some blob) =
    (p.sha256 ≡ blob.sha256)
    × (p.bytes ≡ blob.bytes)
    × (blob.relative_path ≡ expected_blob_relative_path blob.sha256)
PartsFit sha256_hex p _ _ = ⊥

abbrev pub PayloadFits : (List ℕ → String) → Option Payload → Type 0
PayloadFits sha256_hex none = Unit
PayloadFits sha256_hex (some p) = PartsFit sha256_hex p p.content p.blob

abbrev pub ReasoningFits : String → Option ReasoningCapture → Type 0
ReasoningFits kind none = kind ≢ kind_reasoning
ReasoningFits kind (some r) = (kind ≢ kind_reasoning) ⊎ OneOf r.visibility reasoning_visibilities

abbrev pub CompletenessFits : Completeness → Option Payload → Type 0
CompletenessFits c none = (c.status ≢ completeness_complete) × (is_blank c.reason ≡ false)
CompletenessFits c (some p) = (c.status ≡ completeness_complete) ⊎ (is_blank c.reason ≡ false)

pub record IsWellFormed (sha256_hex : List ℕ → String) (e : Event) : Type 0 where
  pub kind_allowed : KindAllowed e.schema_version e.kind
  pub event_id : e.event_id ≢ ""
  pub kind : e.kind ≢ ""
  pub observed : 0 < e.observed_at
  pub recorded : 0 < e.recorded_at
  pub source : SourceFits e.source
  pub status : e.completeness.status ≢ ""
  pub local_only : e.privacy.classification ≡ "local_only"
  pub reasoning : ReasoningFits e.kind e.reasoning
  pub payload : PayloadFits sha256_hex e.payload
  pub completeness : CompletenessFits e.completeness e.payload

elem-OneOf : (a : String) (xs : List String) → (elem a xs ≡ true) ↔ OneOf a xs
unfolding elem OneOf
elem-OneOf a [] = (λ h. cc, λ h. elim h [ ])
elem-OneOf a (x ∷ xs) = (
  λ h. ground (arith, string_eq.same_iff a x, (elem-OneOf a xs).0),
  λ h. ground (arith, string_eq.same_iff a x, (elem-OneOf a xs).1),
)

ne_of_beq : (a b : String) → (a == b) ≡ false → a ≢ b
ne_of_beq a b h e = cc (h, (string_eq.same_iff a b).1 e)

beq_of_ne : (a b : String) → a ≢ b → (a == b) ≡ false
beq_of_ne a b h = elim (Bool-cases (a == b)) [
  | inl e ↦ absurd (h ((string_eq.same_iff a b).0 e))
  | inr e ↦ e
]

nonzero : (n : ℕ) → (n == 0) ≡ false → 0 < n
nonzero n h = ground arith

KindAllowed-iff :
    (version kind : String)
    → (not (valid_event_kind_for_version version kind) ≡ false) ↔ KindAllowed version kind
unfolding valid_event_kind_for_version
KindAllowed-iff version kind = (
  λ h. ground (
    arith,
    string_eq.same_iff version schema_version_v1alpha1,
    string_eq.same_iff version schema_version_v1alpha2,
    (elem-OneOf kind base_kinds).0,
    (elem-OneOf kind v1alpha2_kinds).0,
  ),
  λ h. ground (
    arith,
    string_eq.same_iff version schema_version_v1alpha1,
    string_eq.same_iff version schema_version_v1alpha2,
    string_eq.same_iff schema_version_v1alpha2 schema_version_v1alpha1,
    (elem-OneOf kind base_kinds).1,
    (elem-OneOf kind v1alpha2_kinds).1,
  ),
)

check_source_iff : (s : Source) → (check_source s ≡ ok tt) ↔ SourceFits s
unfolding check_source
check_source_iff s = (
  λ h. ground (
    arith,
    string_eq.same_iff s.agent "",
    string_eq.same_iff s.adapter "",
    string_eq.same_iff s.adapter_version "",
    string_eq.same_iff s.device_id "",
    string_eq.same_iff s.thread_id "",
    string_eq.same_iff s.source_path_hash "",
    string_eq.same_iff s.acquisition_path_hash "",
  ),
  λ h. ground (
    arith,
    string_eq.same_iff s.agent "",
    string_eq.same_iff s.adapter "",
    string_eq.same_iff s.adapter_version "",
    string_eq.same_iff s.device_id "",
    string_eq.same_iff s.thread_id "",
    string_eq.same_iff s.source_path_hash "",
    string_eq.same_iff s.acquisition_path_hash "",
  ),
)

check_reasoning_iff :
    (kind : String) (r : Option ReasoningCapture)
    → (check_reasoning kind r ≡ ok tt) ↔ ReasoningFits kind r
unfolding check_reasoning
check_reasoning_iff kind none = (
  λ h. ground (arith, string_eq.same_iff kind kind_reasoning),
  λ h. ground (arith, string_eq.same_iff kind kind_reasoning),
)
check_reasoning_iff kind (some r) = (
  λ h. ground (
    arith,
    string_eq.same_iff kind kind_reasoning,
    elem-OneOf r.visibility reasoning_visibilities,
  ),
  λ h. ground (
    arith,
    string_eq.same_iff kind kind_reasoning,
    elem-OneOf r.visibility reasoning_visibilities,
  ),
)

check_payload_parts_iff :
    (sha256_hex : List ℕ → String) (p : Payload) (content : Option String) (blob : Option BlobRef)
    → (check_payload_parts sha256_hex p content blob ≡ ok tt) ↔ PartsFit sha256_hex p content blob
unfolding check_payload_parts
check_payload_parts_iff sha256_hex p none none = (λ h. cc, λ h. elim h [ ])
check_payload_parts_iff sha256_hex p (some content) (some blob) = (λ h. cc, λ h. elim h [ ])
check_payload_parts_iff sha256_hex p (some content) none = (
  λ h. ground (
    arith,
    string_eq.same_iff p.sha256 (sha256_hex (bytes content)),
    int_eq.same_iff p.bytes (pos (len content)),
  ),
  λ h. ground (
    arith,
    string_eq.same_iff p.sha256 (sha256_hex (bytes content)),
    int_eq.same_iff p.bytes (pos (len content)),
  ),
)
check_payload_parts_iff sha256_hex p none (some blob) = (
  λ h. ground (
    arith,
    string_eq.same_iff p.sha256 blob.sha256,
    int_eq.same_iff p.bytes blob.bytes,
    string_eq.same_iff blob.relative_path (expected_blob_relative_path blob.sha256),
  ),
  λ h. ground (
    arith,
    string_eq.same_iff p.sha256 blob.sha256,
    int_eq.same_iff p.bytes blob.bytes,
    string_eq.same_iff blob.relative_path (expected_blob_relative_path blob.sha256),
  ),
)

check_payload_iff :
    (sha256_hex : List ℕ → String) (p : Option Payload)
    → (check_payload sha256_hex p ≡ ok tt) ↔ PayloadFits sha256_hex p
unfolding check_payload
check_payload_iff sha256_hex none = (λ h. tt, λ h. refl)
check_payload_iff sha256_hex (some p) = check_payload_parts_iff sha256_hex p p.content p.blob

check_completeness_iff :
    (c : Completeness) (p : Option Payload)
    → (check_completeness c p ≡ ok tt) ↔ CompletenessFits c p
unfolding check_completeness
check_completeness_iff c none = (
  λ h. ground (arith, string_eq.same_iff c.status completeness_complete),
  λ h. ground (arith, string_eq.same_iff c.status completeness_complete),
)
check_completeness_iff c (some p) = (
  λ h. ground (arith, string_eq.same_iff c.status completeness_complete),
  λ h. ground (arith, string_eq.same_iff c.status completeness_complete),
)

module _ (sha256_hex : List ℕ → String) (e : Event) where
  accepted_IsWellFormed : validate_event sha256_hex e ≡ ok tt → IsWellFormed sha256_hex e
  unfolding validate_event
  accepted_IsWellFormed h0 =
      let (k, h1) = fail_if-then _ _ _ h0 in
      let (ids, h2) = fail_if-then _ _ _ h1 in
      let (times, h3) = fail_if-then _ _ _ h2 in
      let (src, h4) = then-eq-ok (check_source e.source) _ h3 in
      let (st, h5) = fail_if-then _ _ _ h4 in
      let (priv, h6) = fail_if-then _ _ _ h5 in
      let (rea, h7) = then-eq-ok (check_reasoning e.kind e.reasoning) _ h6 in
      let (pay, fin) = then-eq-ok (check_payload sha256_hex e.payload) _ h7 in
      record {
        kind_allowed = (KindAllowed-iff e.schema_version e.kind).0 k;
        event_id = ne_of_beq _ _ (or-false _ _ ids).0;
        kind = ne_of_beq _ _ (or-false _ _ ids).1;
        observed = nonzero _ (or-false _ _ times).0;
        recorded = nonzero _ (or-false _ _ times).1;
        source = (check_source_iff e.source).0 src;
        status = ne_of_beq _ _ st;
        local_only = eq_of_not-ne _ _ priv;
        reasoning = (check_reasoning_iff e.kind e.reasoning).0 rea;
        payload = (check_payload_iff sha256_hex e.payload).0 pay;
        completeness = (check_completeness_iff e.completeness e.payload).0 fin;
      }

  IsWellFormed-accepted : IsWellFormed sha256_hex e → validate_event sha256_hex e ≡ ok tt
  unfolding validate_event
  IsWellFormed-accepted h = ground (
    arith,
    KindAllowed-iff e.schema_version e.kind,
    string_eq.same_iff e.event_id "",
    string_eq.same_iff e.kind "",
    check_source_iff e.source,
    string_eq.same_iff e.completeness.status "",
    string_eq.same_iff e.privacy.classification "local_only",
    check_reasoning_iff e.kind e.reasoning,
    check_payload_iff sha256_hex e.payload,
    check_completeness_iff e.completeness e.payload,
  )

-- `validateEvent` returns nil exactly for the well-formed events: the kind is one that the schema
-- version allows; the ids, times, source fields and status are present; a path hash is empty or a
-- digest; the event is local_only; a reasoning event has one of four visibilities; a payload has
-- exactly one of content and blob, with its digest and size, and a blob the path of its digest; a
-- complete event has a payload, and any other has a reason.
pub validate_event-IsWellFormed :
    (sha256_hex : List ℕ → String) (e : Event)
    → (validate_event sha256_hex e ≡ ok tt) ↔ IsWellFormed sha256_hex e
validate_event-IsWellFormed sha256_hex e =
    (accepted_IsWellFormed sha256_hex e, IsWellFormed-accepted sha256_hex e)
