-- ===== src/Ledger/Validate.antt =====
-- `validateEvent` of internal/ledger/ledger.go and the checks that it calls.
pub mod Exact
use Prim.Native.String.{◌++◌ as str_append}
use agent_memory_system.Prelude.{
  ℕ, String, Bool, true, false, not, ◌&&◌, ◌||◌, Option, none, some, List, [], ◌∷◌, ◌++◌,
}
use agent_memory_system.Prelude.Tests.{Comparable, nat_eq, string_eq, ◌==◌, ◌!=◌, if◌then◌else◌}
use agent_memory_system.Prelude.Int.{ℤ, pos, int_eq}
use agent_memory_system.Prelude.Lists.{length, elem}
use agent_memory_system.Prelude.Result.{Result, ok, err, ◌>>=◌, ◌>>◌, fail_if}
use agent_memory_system.Prelude.Text.{runes, bytes, len, is_blank, valid_sha256}
use agent_memory_system.Ledger.Types.{
  schema_version_v1alpha1, schema_version_v1alpha2, base_kinds, v1alpha2_kinds, kind_reasoning,
  reasoning_visibilities, completeness_complete, is_zero, Source, BlobRef, Payload,
  ReasoningCapture, Completeness, Event,
}

-- One constructor for each error that `validateEvent` returns.
pub data EventError : Type 0 where
  unsupported_schema ids_required times_required source_required bad_source_path_hash : EventError
  bad_acquisition_path_hash status_required not_local_only reasoning_required : EventError
  bad_visibility payload_shape inline_sha256_mismatch inline_bytes_mismatch : EventError
  blob_metadata_disagrees bad_blob_path complete_needs_payload reason_required : EventError

abbrev pub Check : Type 0
Check = Result EventError (Unit {0})

-- `digest[:2]` and `digest[2:]` of an ASCII string.
first_two : String → String
first_two (String.◌∷◌ c (String.◌∷◌ d s)) = String.◌∷◌ c (String.◌∷◌ d String.[])
first_two s = s

after_two : String → String
after_two (String.◌∷◌ c (String.◌∷◌ d s)) = s
after_two s = String.[]

-- filepath.Join of clean parts, with slashes.
infixr 60 ◌//◌
abbrev pub ◌//◌ : String → String → String
a // b = str_append a (str_append "/" b)

-- The path of a digest, as PutBlob joins it.
unfoldable pub blob_path : String → String
unfolding first_two after_two
blob_path digest = "evidence" // "blobs" // "sha256" // first_two digest // after_two digest

unfoldable pub expected_blob_relative_path : String → String
unfolding blob_path
expected_blob_relative_path digest = if valid_sha256 digest then blob_path digest else ""

unfoldable pub valid_event_kind_for_version : String → String → Bool
valid_event_kind_for_version version kind =
    let base = elem kind base_kinds in
    if version == schema_version_v1alpha1
    then base
    else if version != schema_version_v1alpha2
    then false
    else if base
    then true
    else elem kind v1alpha2_kinds

-- The `if event.Kind == KindReasoning` block.
check_reasoning : String → Option ReasoningCapture → Check
check_reasoning kind none = fail_if (kind == kind_reasoning) reasoning_required
check_reasoning kind (some r) =
    fail_if (kind == kind_reasoning && not (elem r.visibility reasoning_visibilities))
      bad_visibility

-- The `if event.Payload != nil` block, by which of content and blob are nil.
unfoldable pub check_payload_parts :
    (List ℕ → String) → Payload → Option String → Option BlobRef → Check
check_payload_parts sha256_hex p none none = err payload_shape
check_payload_parts sha256_hex p (some content) (some blob) = err payload_shape
check_payload_parts sha256_hex p (some content) none = do
  fail_if (p.sha256 != sha256_hex (bytes content)) inline_sha256_mismatch
  fail_if (p.bytes != pos (len content)) inline_bytes_mismatch
check_payload_parts sha256_hex p none (some blob) = do
  fail_if (p.sha256 != blob.sha256 || p.bytes != blob.bytes) blob_metadata_disagrees
  fail_if (blob.relative_path != expected_blob_relative_path blob.sha256) bad_blob_path

unfoldable pub check_payload : (List ℕ → String) → Option Payload → Check
unfolding check_payload_parts
check_payload sha256_hex none = ok tt
check_payload sha256_hex (some p) = check_payload_parts sha256_hex p p.content p.blob

-- The last two tests.
check_completeness : Completeness → Option Payload → Check
check_completeness c none = do
  fail_if (c.status == completeness_complete) complete_needs_payload
  fail_if (is_blank c.reason) reason_required
check_completeness c (some p) =
    fail_if (c.status != completeness_complete && is_blank c.reason) reason_required

check_source : Source → Check
check_source s = do
  fail_if
      (s.agent == ""
        || s.adapter == ""
        || s.adapter_version == ""
        || s.device_id == ""
        || s.thread_id == "")
      source_required
  fail_if (s.source_path_hash != "" && not (valid_sha256 s.source_path_hash)) bad_source_path_hash
  fail_if (s.acquisition_path_hash != "" && not (valid_sha256 s.acquisition_path_hash))
      bad_acquisition_path_hash

unfoldable pub validate_event : (List ℕ → String) → Event → Check
unfolding check_reasoning check_payload check_completeness check_source
validate_event sha256_hex e = do
  fail_if (not (valid_event_kind_for_version e.schema_version e.kind)) unsupported_schema
  fail_if (e.event_id == "" || e.kind == "") ids_required
  fail_if (is_zero e.observed_at || is_zero e.recorded_at) times_required
  check_source e.source
  fail_if (e.completeness.status == "") status_required
  fail_if (e.privacy.classification != "local_only") not_local_only
  check_reasoning e.kind e.reasoning
  check_payload sha256_hex e.payload
  check_completeness e.completeness e.payload
