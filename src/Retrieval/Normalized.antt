-- ===== src/Retrieval/Normalized.antt =====
-- What a request is behind `normalizeRequest`.
use agent_memory_system.Prelude.{
  true, ℕ, ◌≤◌, ◌<◌, String, false, not, ◌≡◌, refl, subst, ap, sym, ◌∙◌, inl, inr, arith,
}
use agent_memory_system.Prelude.Tests.{string_eq, ◌==◌, ◌!=◌, if◌then◌else◌, Bool-cases}
use agent_memory_system.Prelude.Int.{ℤ, pos, negsuc, int_eq}
use agent_memory_system.Prelude.Result.{
  ok, ◌>>=◌, fail_if-then, then-eq-ok, bind-eq-ok, ok-injective, fail_if-eq-ok,
}
use agent_memory_system.Retrieval.Types.{
  request_schema_version, channel_cli, maximum_limit, maximum_token_budget, maximum_byte_budget,
  Request, valid_agent, valid_channel,
}
use agent_memory_system.Retrieval.Terms.{Unicode}
use agent_memory_system.Retrieval.Normalize.{
  unsupported_request_schema, not_exactly_one_selector, invalid_agent, invalid_channel,
  limit_out_of_range, token_budget_out_of_range, byte_budget_out_of_range, bad_selector,
  out_of_range, or_default, with_defaults, check_selector, check_request, normalize_request,
}

-- From 1 to the maximum.
abbrev pub IsWithin : ℤ → ℕ → Type 0
IsWithin n maximum = (k : ℕ) × (n ≡ pos k) × (1 ≤ k) × (k ≤ maximum)

IsWithin-out_of_range : (n : ℤ) (maximum : ℕ) → out_of_range n maximum ≡ false → IsWithin n maximum
IsWithin-out_of_range (pos k) maximum h = (k, refl, ground arith, ground arith)
IsWithin-out_of_range (negsuc k) maximum h = ground arith

default_once : (n : ℤ) (d : ℕ) → 0 < d → or_default (or_default n d) d ≡ or_default n d
default_once n d h = elim (Bool-cases (n == pos 0)) [ inl e ↦ ground arith | inr e ↦ ground arith ]

text_once :
    (s d : String)
    → (if (if s == "" then d else s) == "" then d else (if s == "" then d else s))
      ≡ (if s == "" then d else s)
text_once s d = elim (Bool-cases (s == "")) [
  | inl e ↦ rw e (elim (Bool-cases (d == "")) [ inl k ↦ rw k refl | inr k ↦ rw k refl ])
  | inr e ↦ rw (e, e) refl
]

with_defaults_twice : (r : Request) → with_defaults (with_defaults r) ≡ with_defaults r
unfolding with_defaults
with_defaults_twice r =
    let schema = text_once r.schema_version request_schema_version in
    let channel = text_once r.context.channel channel_cli in
    let limit = default_once r.limit 5 (omega arith) in
    let tokens = default_once r.token_budget 800 (omega arith) in
    let bytes = default_once r.byte_budget 4096 (omega arith) in cc

module _ (u : Unicode) where
  pub normalize_request-eq-ok :
      (r n : Request)
      → normalize_request u r ≡ ok n
      → (n ≡ with_defaults r) × (check_request u n ≡ ok tt)
  unfolding normalize_request
  normalize_request-eq-ok r n h =
      let (_, checked, same) =
        bind-eq-ok (check_request u (with_defaults r)) (λ _. ok (with_defaults r)) h in
      let e = ok-injective same in (sym e, subst (λ x. check_request u x ≡ ok tt) e checked)

  -- Normalising a request that normalizeRequest returned succeeds and changes nothing.
  pub normalize_request_once :
      (r n : Request) → normalize_request u r ≡ ok n → normalize_request u n ≡ ok n
  unfolding normalize_request
  normalize_request_once r n h =
      let (same, checked) = normalize_request-eq-ok r n h in
      let kept = ap with_defaults same ∙ with_defaults_twice r ∙ sym same in
      subst (λ x. (check_request u x >>= λ _. ok x) ≡ ok n) (sym kept)
        (ap (λ m. m >>= λ _. ok n) checked)

  -- The tests that a normalized request has passed.
  check_request-eq-ok :
      (n : Request)
      → check_request u n ≡ ok tt
      → (bad_selector n ≡ false)
        × (valid_channel n.context.channel ≡ true)
        × (out_of_range n.limit maximum_limit ≡ false)
        × (out_of_range n.token_budget maximum_token_budget ≡ false)
        × (out_of_range n.byte_budget maximum_byte_budget ≡ false)
  unfolding check_request
  check_request-eq-ok n checked =
      let (_, h1) =
        fail_if-then (n.schema_version != request_schema_version) unsupported_request_schema _
          checked in
      let (selector, h2) = fail_if-then (bad_selector n) not_exactly_one_selector _ h1 in
      let (_, h3) = then-eq-ok (check_selector u n) _ h2 in
      let (_, h4) = fail_if-then (not (valid_agent n.context.agent)) invalid_agent _ h3 in
      let (channel, h5) =
        fail_if-then (not (valid_channel n.context.channel)) invalid_channel _ h4 in
      let (limit, h6) = fail_if-then (out_of_range n.limit maximum_limit) limit_out_of_range _ h5 in
      let (tokens, h7) =
        fail_if-then (out_of_range n.token_budget maximum_token_budget) token_budget_out_of_range _
          h6 in
      let bytes =
        fail_if-eq-ok (out_of_range n.byte_budget maximum_byte_budget) byte_budget_out_of_range
          h7 in
      (selector, ground arith, limit, tokens, bytes)

  -- The channel of a normalized request is one of the known ones.
  pub normalize_request-valid_channel :
      (r n : Request) → normalize_request u r ≡ ok n → valid_channel n.context.channel ≡ true
  normalize_request-valid_channel r n h =
      let (_, checked) = normalize_request-eq-ok r n h in
      let (_, channel, _, _, _) = check_request-eq-ok n checked in channel

  -- A request that normalizeRequest returned selects by exactly one of a query and a memory id, with
  -- a limit from 1 to 20, a token budget from 1 to 4096 and a byte budget from 1 to 65536.
  pub normalize_request-IsWithin :
      (r n : Request)
      → normalize_request u r ≡ ok n
      → (bad_selector n ≡ false)
        × IsWithin n.limit 20
        × IsWithin n.token_budget 4096
        × IsWithin n.byte_budget 65536
  normalize_request-IsWithin r n h =
      let (_, checked) = normalize_request-eq-ok r n h in
      let (selector, _, limit, tokens, bytes) = check_request-eq-ok n checked in
      (
        selector,
        IsWithin-out_of_range n.limit 20 limit,
        IsWithin-out_of_range n.token_budget 4096 tokens,
        IsWithin-out_of_range n.byte_budget 65536 bytes,
      )
