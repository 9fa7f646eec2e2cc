-- ===== src/Retrieval/Delivered.antt =====
-- `BuildContext` as a whole.
use Prim.Native.String.{◌++◌ as str_append}
use agent_memory_system.Prelude.{
  ℕ, String, true, false, List, [], ◌∷◌, some, ◌≡◌, refl, sym, ap, subst, ◌∙◌, inl, inr, ◌⊎◌,
}
use agent_memory_system.Prelude.Tests.{string_eq, ◌==◌, if◌then◌else◌, Bool-cases, some-injective}
use agent_memory_system.Prelude.Result.{ok, wrap, bind-eq-ok, wrap-eq-ok, ok-injective}
use agent_memory_system.Prelude.Text.{has_prefix, valid_sha256}
use agent_memory_system.Ledger.Types.{Event}
use agent_memory_system.Retrieval.Types.{Request, MemoryReference, Receipt, valid_channel}
use agent_memory_system.Retrieval.Normalize.{is_null, normalize_request, with_defaults}
use agent_memory_system.Retrieval.Normalized.{
  normalize_request-eq-ok, normalize_request_once, normalize_request-valid_channel,
}
use agent_memory_system.Retrieval.Receipts.{Services}
use agent_memory_system.Retrieval.Search.{SearchIo, search, make_receipt}
use agent_memory_system.Retrieval.Lexed.{UnicodeLaws}
use agent_memory_system.Retrieval.Filled.{IsFilled}
use agent_memory_system.Retrieval.Loaded.{IsLoaded}
use agent_memory_system.Retrieval.Searched.{search-Searched}
use agent_memory_system.Retrieval.Accepted.{search-IsFilled}
use agent_memory_system.Retrieval.Render.{render_bounded_context}
use agent_memory_system.Retrieval.Rendered.{render_bounded_context-IsRendered}
use agent_memory_system.Retrieval.Injection.{
  InjectionReceipt, InjectionIo, Built, bad_context_request, search_failed, no_injection_id,
  injection_not_encoded, or_context_error, make_injection, injection_event, inject, deliver,
  build_context, validate_injection_receipt,
}
use agent_memory_system.Retrieval.Injected.{has_prefix-append, make_injection-valid}

module _ (sv : Services) where
  -- What is delivered is the content and the references it was given, in a receipt of its own.
  pub record Delivered (io : InjectionIo) (q : Request) (receipt : Receipt)
      (p : List ℕ × List MemoryReference) (r : InjectionReceipt) (e : Event) : Type 0 where
    pub given : is_null p.0 ≡ false
    pub id : String
    pub text : String
    pub made : make_injection sv q receipt.result.receipt_id io.now id p.0 p.1 ≡ r
    pub recorded : injection_event sv io r text q.context ≡ e

  deliver-Delivered :
      (io : InjectionIo) (q : Request) (receipt : Receipt) (event : Event) (content : List ℕ)
      (memories : List MemoryReference) (b : Built) (r : InjectionReceipt) (e : Event)
      → deliver sv io q receipt event (content, memories) ≡ ok b
      → b.injection ≡ some (r, e)
      → Delivered io q receipt (content, memories) r e × (b.receipt ≡ receipt)
  unfolding deliver inject
  deliver-Delivered io q receipt event [] memories b r e h i =
      cc (ap (λ x. x.injection) (ok-injective h), i)
  deliver-Delivered io q receipt event (c ∷ cs) memories b r e h i =
      let (pair, injected, h1) = bind-eq-ok (inject sv io q receipt (c ∷ cs) memories) _ h in
      let (random_id, _, h2) =
        bind-eq-ok (or_context_error io.random_id no_injection_id) _ injected in
      let id = str_append "injection-" random_id in
      let made = make_injection sv q receipt.result.receipt_id io.now id (c ∷ cs) memories in
      let (text, _, h3) =
        bind-eq-ok (or_context_error (io.injection_json made) injection_not_encoded) _ h2 in
      let built = ok-injective h1 in
      let same = some-injective (ap (λ x. x.injection) built ∙ i) in
      let first = ap (λ x. x.0) (ok-injective h3) ∙ ap (λ x. x.0) same in
      let second = ap (λ x. x.1) (ok-injective h3) ∙ ap (λ x. x.1) same in
      (
        record {
          given = refl;
          id = id;
          text = text;
          made = first;
          recorded = subst (λ m. injection_event sv io m text q.context ≡ e) first second;
        },
        sym (ap (λ x. x.receipt) built),
      )

module _ (sv : Services) (laws : UnicodeLaws sv.unicode)
    (digest : (input : List ℕ) → valid_sha256 (sv.sha256_hex input) ≡ true) where
  single_kept :
      (request q : Request)
      → normalize_request sv.unicode request ≡ ok q
      → (request.query ≡ "") ⊎ (request.memory_id ≡ "")
      → (q.query ≡ "") ⊎ (q.memory_id ≡ "")
  unfolding with_defaults
  single_kept request q h (inl e) =
      inl (ap (λ x. x.query) (normalize_request-eq-ok sv.unicode request q h).0 ∙ e)
  single_kept request q h (inr e) =
      inr (ap (λ x. x.memory_id) (normalize_request-eq-ok sv.unicode request q h).0 ∙ e)

  after_search :
      (quote : String → List ℕ) (jo : InjectionIo) (q : Request) (receipt : Receipt) (event : Event)
      (id : String) (b : Built) (r : InjectionReceipt) (e : Event)
      → valid_channel q.context.channel ≡ true
      → IsFilled sv q (str_append "retrieval-" id) receipt.result
      → receipt.request ≡ q
      → deliver sv jo q receipt event (
          if receipt.result.status == "blocked"
          then ([], [])
          else render_bounded_context quote receipt.result q)
        ≡ ok b
      → b.injection ≡ some (r, e)
      → (validate_injection_receipt sv e r ≡ [])
        × (render_bounded_context quote b.receipt.result b.receipt.request
            ≡ (r.content, r.memories))
  unfolding make_injection
  after_search quote jo q receipt event id b r e ch filled asked h i =
      let p = render_bounded_context quote receipt.result q in
      elim (Bool-cases (receipt.result.status == "blocked")) [
        | inl k ↦
            let (d, _) = deliver-Delivered sv jo q receipt event [] [] b r e (rw k at h) i in
            cc d.given
        | inr k ↦
            let (d, kept) = deliver-Delivered sv jo q receipt event p.0 p.1 b r e (rw k at h) i in
            elim (render_bounded_context-IsRendered quote receipt.result q) [
              | inl empty ↦ cc (subst (λ x. is_null x.0 ≡ false) empty d.given)
              | inr rendered ↦
                  let pre =
                    subst (λ x. has_prefix x "retrieval-" ≡ true) (sym filled.id)
                      (has_prefix-append "retrieval-" id) in
                  let valid =
                    make_injection-valid sv jo quote q receipt.result d.id d.text
                      receipt.result.receipt_id p.0 p.1 ch pre d.given filled.matches rendered in
                  let made =
                    subst
                      (λ m.
                        validate_injection_receipt sv (injection_event sv jo m d.text q.context) m
                        ≡ [])
                      d.made valid in
                  (
                    subst (λ x. validate_injection_receipt sv x r ≡ []) d.recorded made,
                    ap (λ x. render_bounded_context quote x.result x.request) kept
                        ∙ ap (λ x. render_bounded_context quote receipt.result x) asked
                        ∙ ap (λ m. (m.content, m.memories)) d.made,
                  )
            ]
      ]

  -- The injection that BuildContext records passes validateInjectionReceipt with its event, and holds
  -- what renderBoundedContext makes of the result and the request of the recorded retrieval. This rests
  -- on what search-validate_receipt rests on.
  pub build_context-validate_injection_receipt :
      (quote : String → List ℕ) (io : SearchIo) (jo : InjectionIo) (request : Request) (b : Built)
      (r : InjectionReceipt) (e : Event)
      → IsLoaded sv io.loaded
      → (request.query ≡ "") ⊎ (request.memory_id ≡ "")
      → build_context sv quote io jo request ≡ ok b
      → b.injection ≡ some (r, e)
      → (validate_injection_receipt sv e r ≡ [])
        × (render_bounded_context quote b.receipt.result b.receipt.request
            ≡ (r.content, r.memories))
  unfolding build_context make_receipt
  build_context-validate_injection_receipt quote io jo request b r e l single h i =
      let (q, normal, h1) =
        bind-eq-ok (wrap bad_context_request (normalize_request sv.unicode request)) _ h in
      let found = wrap-eq-ok bad_context_request (normalize_request sv.unicode request) normal in
      let (pair, searched, h2) = bind-eq-ok (wrap search_failed (search sv io q)) _ h1 in
      let s =
        search-Searched sv io q pair.0 pair.1
          (wrap-eq-ok search_failed (search sv io q) searched) in
      let once = normalize_request_once sv.unicode request q found in
      let same = ok-injective (sym s.normal ∙ once) in
      let filled =
        search-IsFilled sv laws digest io q pair.0 pair.1 l (single_kept request q found single)
          s in
      let asked = sym (ap (λ x. x.request) s.recorded_receipt) ∙ same in
      after_search quote jo q pair.0 pair.1 s.id b r e
        (normalize_request-valid_channel sv.unicode request q found)
        (subst (λ x. IsFilled sv x (str_append "retrieval-" s.id) pair.0.result) same filled) asked
        h2 i
