-- ===== src/Retrieval/Demo.antt =====
-- A repository of two memories and a search in it.
use agent_memory_system.Prelude.{
  ℕ, String, true, false, ◌&&◌, List, [], ◌∷◌, some, ◌≡◌, refl, arith,
}
use agent_memory_system.Prelude.Tests.{leb, differ_of_beq, string_eq}
use agent_memory_system.Prelude.Int.{pos}
use agent_memory_system.Prelude.Text.{is_blank, is_space, valid_sha256}
use agent_memory_system.Retrieval.Types.{
  Context, Request, Revision, separate, valid_memory_reference,
}
use agent_memory_system.Retrieval.Terms.{Unicode}
use agent_memory_system.Retrieval.Lexed.{UnicodeLaws}
use agent_memory_system.Retrieval.Receipts.{
  Services, digest_string, valid_match_kind, valid_evidence_basis,
}
use agent_memory_system.Retrieval.Loaded.{IsLoaded}
use agent_memory_system.Retrieval.Search.{SearchIo}

abbrev pub demo_unicode : Unicode
demo_unicode = record {
  to_lower = λ c. c;
  is_letter = λ c. leb b'a' c && leb c b'z';
  is_digit = λ c. leb b'0' c && leb c b'9';
  is_cjk = λ c. leb 0x4e00 c && leb c 0x9fff;
}

pub demo_unicode-UnicodeLaws : UnicodeLaws demo_unicode
unfolding is_space
demo_unicode-UnicodeLaws = record {
  letter_not_space = λ c h. ground arith;
  digit_not_space = λ c h. ground arith;
  cjk_not_space = λ c h. ground arith;
}

abbrev pub demo_digest : String
demo_digest = "aaaaaaaaaaaaaaaaaaaaaaaaaaaaaaaaaaaaaaaaaaaaaaaaaaaaaaaaaaaaaaaa"

abbrev pub demo_services : Services
demo_services = record {
  unicode = demo_unicode;
  sha256_hex = λ input. demo_digest;
  request_json = λ q. some (b'{' ∷ b'}' ∷ []);
  receipt_json = λ r. some "{}";
}

pub demo_digests : (input : List ℕ) → valid_sha256 (demo_services.sha256_hex input) ≡ true
unfolding valid_sha256
demo_digests input = refl

abbrev pub demo_context : Context
demo_context = record {
  agent = "codex";
  thread_id = "thread-1";
  session_id = "";
  repository = "";
  project = "";
  task = "";
  channel = "";
}

-- A memory of global scope.
abbrev pub demo_memory : String → String → String → Revision
demo_memory memory_id revision_id text = record {
  schema_version = "portable-memory-revision/v1alpha1";
  memory_id = memory_id;
  revision_id = revision_id;
  parent_revision_id = "";
  action = "promote";
  status = "active";
  kind = "correction";
  scope_kind = "global";
  scope_value = "*";
  evidence_basis = "user_correction" ∷ [];
  text = text;
  text_sha256 = demo_digest;
  requires_explicit_rule_change_approval = false;
  rule_change_authorization = "";
  privacy = "portable_shareable";
}

abbrev pub first_memory : Revision
first_memory =
    demo_memory "memory-aaaaaaaaaaaaaaaaaaaaaaaaaaaaaaaaaaaaaaaaaaaaaaaaaaaaaaaaaaaaaaaa"
      "portable-revision-aaaaaaaaaaaaaaaaaaaaaaaaaaaaaaaaaaaaaaaaaaaaaaaaaaaaaaaaaaaaaaaa" "use go"

abbrev pub second_memory : Revision
second_memory =
    demo_memory "memory-bbbbbbbbbbbbbbbbbbbbbbbbbbbbbbbbbbbbbbbbbbbbbbbbbbbbbbbbbbbbbbbb"
      "portable-revision-bbbbbbbbbbbbbbbbbbbbbbbbbbbbbbbbbbbbbbbbbbbbbbbbbbbbbbbbbbbbbbbb" "go now"

abbrev pub demo_io : SearchIo
demo_io = record {
  portable_root = "/m";
  absolute_root = some "/m";
  now = 7;
  random_id = some "x";
  roots = separate;
  loaded = record {
    revisions = second_memory ∷ first_memory ∷ [];
    active_memories = 2;
    issues = [];
  };
  device_id = "device-1";
}

abbrev pub demo_request : Request
demo_request = record {
  schema_version = "";
  query = "go";
  memory_id = "";
  context = demo_context;
  limit = pos 1;
  token_budget = pos 0;
  byte_budget = pos 0;
}

-- The repository keeps its promises.
pub demo_loaded : IsLoaded demo_services demo_io.loaded
unfolding valid_memory_reference digest_string is_blank valid_match_kind valid_evidence_basis
demo_loaded = record {
  codes = tt;
  stored = (
    record { reference = refl; digest = refl; text = refl; kind = refl; basis = refl },
    (record { reference = refl; digest = refl; text = refl; kind = refl; basis = refl }, tt),
  );
  different = (
    (
      (
        differ_of_beq second_memory.memory_id first_memory.memory_id refl,
        differ_of_beq second_memory.revision_id first_memory.revision_id refl,
      ),
      tt,
    ),
    (tt, tt),
  );
  active = λ h. refl;
}
