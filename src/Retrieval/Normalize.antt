-- ===== src/Retrieval/Normalize.antt =====
-- `normalizeRequest` of internal/retrieval/search.go.
use agent_memory_system.Prelude.{ℕ, Bool, true, false, not, ◌||◌, List, [], ◌∷◌}
use agent_memory_system.Prelude.Tests.{string_eq, ◌==◌, ◌!=◌, if◌then◌else◌, ltb}
use agent_memory_system.Prelude.Int.{ℤ, pos, int_eq, int_ltb}
use agent_memory_system.Prelude.Result.{Result, ok, ◌>>=◌, ◌>>◌, fail_if}
use agent_memory_system.Prelude.Text.{is_blank, runes, len, valid_prefixed_hash}
use agent_memory_system.Retrieval.Types.{
  request_schema_version, maximum_query_bytes, channel_cli, default_limit, maximum_limit,
  default_token_budget, maximum_token_budget, default_byte_budget, maximum_byte_budget, Request,
  valid_agent, valid_channel,
}
use agent_memory_system.Retrieval.Terms.{Unicode, lexical_terms}

pub data RequestError : Type 0 where
  unsupported_request_schema not_exactly_one_selector query_too_large no_searchable_terms
        invalid_memory_id invalid_agent invalid_channel limit_out_of_range token_budget_out_of_range
        byte_budget_out_of_range :
      RequestError

abbrev pub has_query : Request → Bool
has_query r = not (is_blank r.query)

abbrev pub has_memory_id : Request → Bool
has_memory_id r = not (is_blank r.memory_id)

abbrev pub is_null {ℓ} : {A : Type ℓ} → List A → Bool
is_null [] = true
is_null (x ∷ xs) = false

abbrev pub same_bool : Bool → Bool → Bool
same_bool true b = b
same_bool false b = not b

-- `hasQuery == hasMemoryID`.
abbrev pub bad_selector : Request → Bool
bad_selector r = same_bool (has_query r) (has_memory_id r)

abbrev pub out_of_range : ℤ → ℕ → Bool
out_of_range n maximum = int_ltb n (pos 1) || int_ltb (pos maximum) n

-- The default of a field that is zero.
abbrev pub or_default : ℤ → ℕ → ℤ
or_default n d = if n == pos 0 then pos d else n

-- The assignments of `normalizeRequest`.
unfoldable pub with_defaults : Request → Request
with_defaults r = record {
  schema_version = if r.schema_version == "" then request_schema_version else r.schema_version;
  query = r.query;
  memory_id = r.memory_id;
  context = record (r.context) {
    channel = if r.context.channel == "" then channel_cli else r.context.channel;
  };
  limit = or_default r.limit default_limit;
  token_budget = or_default r.token_budget default_token_budget;
  byte_budget = or_default r.byte_budget default_byte_budget;
}

module _ (u : Unicode) where
  -- The branch on `hasQuery`.
  unfoldable pub check_selector : Request → Result RequestError (Unit {0})
  unfolding lexical_terms len is_blank valid_prefixed_hash
  check_selector r =
      if has_query r
      then (do
        fail_if (ltb maximum_query_bytes (len r.query)) query_too_large
        fail_if (is_null (lexical_terms u (runes r.query))) no_searchable_terms)
      else fail_if (not (valid_prefixed_hash r.memory_id "memory-")) invalid_memory_id

  -- The tests of `normalizeRequest`, on a request that has its defaults: no test reads a field before
  -- the assignment of its default.
  unfoldable pub check_request : Request → Result RequestError (Unit {0})
  unfolding check_selector valid_agent valid_channel
  check_request r = do
    fail_if (r.schema_version != request_schema_version) unsupported_request_schema
    fail_if (bad_selector r) not_exactly_one_selector
    check_selector r
    fail_if (not (valid_agent r.context.agent)) invalid_agent
    fail_if (not (valid_channel r.context.channel)) invalid_channel
    fail_if (out_of_range r.limit maximum_limit) limit_out_of_range
    fail_if (out_of_range r.token_budget maximum_token_budget) token_budget_out_of_range
    fail_if (out_of_range r.byte_budget maximum_byte_budget) byte_budget_out_of_range

  -- `normalizeRequest`.
  unfoldable pub normalize_request : Request → Result RequestError Request
  unfolding with_defaults check_request
  normalize_request r =
      let normalized = with_defaults r in check_request normalized >>= λ _. ok normalized
