-- ===== src/Retrieval/Searched.antt =====
-- What `Search` has done where it succeeds.
use Prim.Native.String.{◌++◌ as str_append}
use agent_memory_system.Prelude.{
  ℕ, String, true, false, not, List, Option, some, none, ◌≡◌, ap, subst, ◌∙◌, inl, inr, ◌⊎◌, arith,
}
use agent_memory_system.Prelude.Tests.{string_eq, nat_eq}
use agent_memory_system.Prelude.Int.{ℤ, pos, int_eq, int_leb}
use agent_memory_system.Prelude.Result.{
  ok, wrap, bind-eq-ok, ok-injective, wrap-eq-ok, fail_if-then,
}
use agent_memory_system.Prelude.Text.{is_blank}
use agent_memory_system.Ledger.Types.{Event}
use agent_memory_system.Retrieval.Types.{Request, Receipt}
use agent_memory_system.Retrieval.Normalize.{
  normalize_request, with_defaults, bad_selector, same_bool, has_memory_id,
}
use agent_memory_system.Retrieval.Normalized.{
  IsWithin, normalize_request-eq-ok, normalize_request-IsWithin,
}
use agent_memory_system.Retrieval.Sets.{ne_empty}
use agent_memory_system.Retrieval.Receipts.{Services}
use agent_memory_system.Retrieval.Search.{
  SearchIo, SearchError, bad_request, no_portable_root, no_event_id, request_not_encoded,
  receipt_not_encoded, or_error, make_receipt, receipt_event, search,
}
use agent_memory_system.Retrieval.Selected.{HasRoom}
use agent_memory_system.Retrieval.Validated.{IsSingle}

single_id :
    (id : String) → same_bool (not (is_blank "")) (not (is_blank id)) ≡ false → is_blank id ≡ false
unfolding is_blank
single_id id h = ground (arith, h)

module _ (sv : Services) where
  or_error-some :
      {A : Type 0} (o : Option A) (e : SearchError) {a : A} → or_error o e ≡ ok a → o ≡ some a
  or_error-some none e h = cc h
  or_error-some (some a) e h = ap some (ok-injective h)

  given_of : (q : Request) → q.query ≡ "" → bad_selector q ≡ false → is_blank q.memory_id ≡ false
  given_of q e h =
      single_id q.memory_id
        (subst (λ t. same_bool (not (is_blank t)) (has_memory_id q) ≡ false) e h)

  pub single_of :
      (r q : Request)
      → normalize_request sv.unicode r ≡ ok q
      → (r.query ≡ "") ⊎ (r.memory_id ≡ "")
      → IsSingle sv q
  unfolding with_defaults
  single_of r q h (inr e) =
      inr (ap (λ x. x.memory_id) (normalize_request-eq-ok sv.unicode r q h).0 ∙ e)
  single_of r q h (inl e) =
      let no_query = ap (λ x. x.query) (normalize_request-eq-ok sv.unicode r q h).0 ∙ e in
      let (selector, _, _, _) = normalize_request-IsWithin sv.unicode r q h in
      inl (ne_empty q.memory_id (given_of q no_query selector), no_query)

  room_of : (z : ℤ) (m : ℕ) → IsWithin z m → (int_leb (pos 0) z ≡ true) × (int_leb (pos 1) z ≡ true)
  room_of z m (k, e, low, high) = rw e (ground arith, ground arith)

  -- What `Search` has done where it succeeds.
  pub record Searched (io : SearchIo) (request : Request) (receipt : Receipt) (event : Event)
      : Type 0 where
    pub normalized : Request
    pub root : String
    pub id : String
    pub encoded : List ℕ
    pub content : String
    pub normal : normalize_request sv.unicode request ≡ ok normalized
    pub has_root : io.absolute_root ≡ some root
    pub json : sv.request_json normalized ≡ some encoded
    pub recorded_receipt :
        make_receipt sv io normalized root (str_append "retrieval-" id) encoded ≡ receipt
    pub recorded_event : receipt_event sv io receipt content normalized.context ≡ event

  pub search-Searched :
      (io : SearchIo) (request : Request) (receipt : Receipt) (event : Event)
      → search sv io request ≡ ok (receipt, event)
      → Searched io request receipt event
  unfolding search
  search-Searched io request receipt event h =
      let (q, normal, h1) =
        bind-eq-ok (wrap bad_request (normalize_request sv.unicode request)) _ h in
      let (root, has_root, h2) = bind-eq-ok (or_error io.absolute_root no_portable_root) _ h1 in
      let (_, h3) = fail_if-then (is_blank io.portable_root) no_portable_root _ h2 in
      let (random_id, _, h4) = bind-eq-ok (or_error io.random_id no_event_id) _ h3 in
      let (encoded, json, h5) =
        bind-eq-ok (or_error (sv.request_json q) request_not_encoded) _ h4 in
      let made = make_receipt sv io q root (str_append "retrieval-" random_id) encoded in
      let (content, _, h6) =
        bind-eq-ok (or_error (sv.receipt_json made) receipt_not_encoded) _ h5 in
      record {
        normalized = q;
        root = root;
        id = random_id;
        encoded = encoded;
        content = content;
        normal = wrap-eq-ok bad_request (normalize_request sv.unicode request) normal;
        has_root = or_error-some io.absolute_root no_portable_root has_root;
        json = or_error-some (sv.request_json q) request_not_encoded json;
        recorded_receipt = ap (λ p. p.0) (ok-injective h6);
        recorded_event =
            subst (λ r. receipt_event sv io r content q.context ≡ event)
              (ap (λ p. p.0) (ok-injective h6)) (ap (λ p. p.1) (ok-injective h6));
      }

  -- What the tests of a normalized request leave room for.
  pub has_room :
      (request q : Request)
      → normalize_request sv.unicode request ≡ ok q
      → HasRoom q × (int_leb (pos 1) q.limit ≡ true)
  has_room request q h =
      let (_, limit, tokens, bytes) = normalize_request-IsWithin sv.unicode request q h in
      let (limit0, limit1) = room_of q.limit 20 limit in
      (
        (limit0, (room_of q.token_budget 4096 tokens).0, (room_of q.byte_budget 65536 bytes).0),
        limit1,
      )
