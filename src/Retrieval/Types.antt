-- ===== src/Retrieval/Types.antt =====
-- internal/retrieval/types.go, `portable.Revision` (internal/portable/types.go), and the tests of
-- contexts that search.go and adoption.go share. A string type of the source is a `String`. A text
-- that the source builds rune by rune is the list of its code points.
use agent_memory_system.Prelude.{ℕ, String, Bool, false, ◌&&◌, List, [], ◌∷◌, ◌++◌}
use agent_memory_system.Prelude.Tests.{string_eq, ◌==◌, ◌!=◌, if◌then◌else◌}
use agent_memory_system.Prelude.Int.{ℤ}
use agent_memory_system.Prelude.Lists.{elem}
use agent_memory_system.Prelude.Text.{is_blank, valid_prefixed_hash}
use agent_memory_system.Ledger.Types.{Time}

abbrev pub request_schema_version : String
request_schema_version = "memory-retrieval-request/v1alpha1"

abbrev pub result_schema_version : String
result_schema_version = "memory-retrieval-result/v1alpha1"

abbrev pub receipt_schema_version : String
receipt_schema_version = "memory-retrieval-receipt/v1alpha1"

abbrev pub context_schema_version : String
context_schema_version = "memory-context/v1alpha1"

abbrev pub injection_receipt_schema_version : String
injection_receipt_schema_version = "memory-injection-receipt/v1alpha1"

abbrev pub adoption_request_schema_version : String
adoption_request_schema_version = "memory-adoption-request/v1alpha1"

abbrev pub privacy_local_only : String
privacy_local_only = "local_only"

abbrev pub default_limit : ℕ
default_limit = 5

abbrev pub maximum_limit : ℕ
maximum_limit = 20

abbrev pub default_token_budget : ℕ
default_token_budget = 800

abbrev pub maximum_token_budget : ℕ
maximum_token_budget = 4096

abbrev pub default_byte_budget : ℕ
default_byte_budget = 4096

abbrev pub maximum_byte_budget : ℕ
maximum_byte_budget = 65536

abbrev pub maximum_query_bytes : ℕ
maximum_query_bytes = 65536

abbrev pub channel_cli : String
channel_cli = "cli"

-- `DeliveryChannel`.
abbrev pub channels : List String
channels =
    channel_cli ∷ "mcp" ∷ "codex_hook" ∷ "claude_code_hook" ∷ "opencode_plugin" ∷ "harness" ∷ []

abbrev pub agent_unknown : String
agent_unknown = "unknown"

-- `ledger.Agent`.
abbrev pub agents : List String
agents = "codex" ∷ "claude_code" ∷ "opencode" ∷ "deepseek_harness" ∷ agent_unknown ∷ []

unfoldable pub valid_agent : String → Bool
unfolding elem
valid_agent agent = elem agent agents

unfoldable pub valid_channel : String → Bool
unfolding elem
valid_channel channel = elem channel channels

pub record Context : Type 0 where
  pub agent : String
  pub thread_id : String
  pub session_id : String
  pub repository : String
  pub project : String
  pub task : String
  pub channel : String

pub record Request : Type 0 where
  pub schema_version : String
  pub query : String
  pub memory_id : String
  pub context : Context
  pub limit : ℤ
  pub token_budget : ℤ
  pub byte_budget : ℤ

pub record MemoryReference : Type 0 where
  pub memory_id : String
  pub revision_id : String

pub record Revision : Type 0 where
  pub schema_version : String
  pub memory_id : String
  pub revision_id : String
  pub parent_revision_id : String
  pub action : String
  pub status : String
  pub kind : String
  pub scope_kind : String
  pub scope_value : String
  pub evidence_basis : List String
  pub text : String
  pub text_sha256 : String
  pub requires_explicit_rule_change_approval : Bool
  pub rule_change_authorization : String
  pub privacy : String

-- The entries of a rationale. The reason of a scope is "scope_" and the kind behind it.
pub data Reason : Type 0 where
  lexical_match exact_phrase exact_memory_id : Reason
  scope_reason : String → Reason

pub record Match : Type 0 where
  pub reference : MemoryReference
  pub kind : String
  pub scope_kind : String
  pub scope_value : String
  pub evidence_basis : List String
  pub text : String
  pub text_sha256 : String
  pub score : ℤ
  pub matched_terms : List (List ℕ)
  pub estimated_tokens : ℤ
  pub bytes : ℤ
  pub scope_specificity : ℤ
  pub selection_rationale : List Reason

pub record ExclusionCounts : Type 0 where
  pub scope_mismatch : ℤ
  pub no_lexical_match : ℤ
  pub result_limit : ℤ
  pub token_budget : ℤ
  pub byte_budget : ℤ

pub record Result : Type 0 where
  pub schema_version : String
  pub receipt_id : String
  pub status : String
  pub selector_sha256 : String
  pub repository_state_sha256 : String
  pub repository_issues : List String
  pub active_memories : ℤ
  pub applicable_memories : ℤ
  pub selected : List Match
  pub selected_estimated_tokens : ℤ
  pub selected_bytes : ℤ
  pub token_budget : ℤ
  pub byte_budget : ℤ
  pub exclusions : ExclusionCounts
  pub context_gaps : List String
  pub privacy : String

pub record Receipt : Type 0 where
  pub schema_version : String
  pub receipt_id : String
  pub recorded_at : Time
  pub portable_root : String
  pub portable_root_sha256 : String
  pub request : Request
  pub request_sha256 : String
  pub result : Result
  pub privacy : String

-- `threadIDForContext`.
unfoldable pub thread_id_for_context : Context → String
unfolding is_blank
thread_id_for_context c = if is_blank c.thread_id then "standalone-retrieval" else c.thread_id

-- `contextGaps`.
unfoldable pub context_gaps : Context → List String
unfolding is_blank
context_gaps c =
    (if is_blank c.thread_id then "thread_id_unavailable" ∷ [] else [])
    ++ (if is_blank c.session_id then "session_id_unavailable" ∷ [] else [])

-- `scopeValueApplies`.
unfoldable pub scope_value_applies : String → String → Context → Bool
scope_value_applies kind value c =
    if kind == "global"
    then value == "*"
    else if kind == "agent"
    then value == c.agent
    else if kind == "repository"
    then c.repository != "" && value == c.repository
    else if kind == "project"
    then c.project != "" && value == c.project
    else if kind == "task"
    then c.task != "" && value == c.task
    else false

-- `scopeSpecificity`.
unfoldable pub scope_specificity : String → ℕ
scope_specificity kind =
    if kind == "task"
    then 5
    else if kind == "project"
    then 4
    else if kind == "repository"
    then 3
    else if kind == "agent"
    then 2
    else if kind == "global"
    then 1
    else 0

-- `validMemoryReference`.
unfoldable pub valid_memory_reference : MemoryReference → Bool
unfolding valid_prefixed_hash
valid_memory_reference r =
    valid_prefixed_hash r.memory_id "memory-"
    && valid_prefixed_hash r.revision_id "portable-revision-"

-- `store.EnsureSeparateRoots` and `portable.LoadActiveRevisions`, as Search meets them: whether the
-- roots are separate, and the active revisions with their number and the codes of the issues.
pub data Roots : Type 0 where
  separate overlapping unresolved : Roots

pub record Loaded : Type 0 where
  pub revisions : List Revision
  pub active_memories : ℕ
  pub issues : List String
