-- ===== src/Retrieval/Verify/Complete.antt =====
-- A ledger of accepted events with different ids raises no issue in the loop of `Verify`.
use agent_memory_system.Prelude.{
  ℕ, String, false, List, [], ◌∷◌, Option, ◌≡◌, ◌≢◌, refl, sym, subst, ◌∙◌, inl, inr,
}
use agent_memory_system.Prelude.Tests.{string_eq, ◌==◌, Bool-cases, eq_of_beq}
use agent_memory_system.Prelude.Lists.{All}
use agent_memory_system.Prelude.Order.Chain.{IsPairwise}
use agent_memory_system.Ledger.Types.{Event}
use agent_memory_system.Retrieval.Receipts.{Services, validate_receipt}
use agent_memory_system.Retrieval.Injection.{validate_injection_receipt}
use agent_memory_system.Retrieval.Causes.{find_event}
use agent_memory_system.Retrieval.Adoption.{AdoptionReceipt, AdoptionIo}
use agent_memory_system.Retrieval.Adoption.Record.{validate_adoption_receipt}
use agent_memory_system.Retrieval.Verify.{
  Graph, empty_graph, accepted, check_receipt, keep_retrieval, keep_injection, keep_adoption, enter,
  check_kind, verify_event, verify_events,
}
use agent_memory_system.Retrieval.Verify.Clean.{
  IsReceipt, IsFresh, HasOtherId, IsAccepted, retrieval, injection, adoption, other,
}

check_receipt-accepted :
    {A : Type 0} (parse : String → Option A) (validate : Event → A → List String) (e : Event)
    → (r : IsReceipt parse validate e) → check_receipt parse validate e ≡ accepted r.receipt
unfolding check_receipt
check_receipt-accepted parse validate e r = rw (check_receipt, r.decoded, r.valid) refl

not_equal : (a b : String) → a ≢ b → (a == b) ≡ false
not_equal a b h = elim (Bool-cases (a == b)) [ inl k ↦ absurd (h (eq_of_beq a b k)) | inr k ↦ k ]

module _ (sv : Services) (quote : String → List ℕ) (io : AdoptionIo)
    (parse_adoption : String → Option AdoptionReceipt) where
  -- The step keeps the issues and the entries.
  abbrev Keeps : Graph → Graph → Type 0
  Keeps g g' = (g'.issues ≡ g.issues) × (g'.entries ≡ g.entries)

  check_kind-Keeps :
      (e : Event) (g : Graph)
      → IsAccepted sv quote io parse_adoption e
      → Keeps g (check_kind sv quote io parse_adoption e g)
  unfolding check_kind keep_retrieval keep_injection keep_adoption
  check_kind-Keeps e g (retrieval k r) =
      let c = check_receipt-accepted io.parse_receipt (validate_receipt sv) e r in
      rw (check_kind, k, c, keep_retrieval) (refl, refl)
  check_kind-Keeps e g (injection k r) =
      let c = check_receipt-accepted io.parse_injection (validate_injection_receipt sv) e r in
      rw (check_kind, k, c, keep_injection) (refl, refl)
  check_kind-Keeps e g (adoption k r) =
      let c = check_receipt-accepted parse_adoption (validate_adoption_receipt sv quote io) e r in
      rw (check_kind, k, c, keep_adoption) (refl, refl)
  check_kind-Keeps e g (other a b c) =
      rw
        (
          check_kind,
          not_equal e.kind "memory_retrieval" a,
          not_equal e.kind "memory_injection" b,
          not_equal e.kind "memory_adoption" c,
        )
        (refl, refl)

  verify_event-Keeps :
      (e : Event) (g : Graph)
      → IsFresh g.entries e
      → IsAccepted sv quote io parse_adoption e
      → Keeps (enter e g) (verify_event sv quote io parse_adoption e g)
  unfolding verify_event
  verify_event-Keeps e g new a = rw (verify_event, new) (check_kind-Keeps e (enter e g) a)

  enter-IsFresh :
      (e f : Event) (g : Graph)
      → IsFresh g.entries f
      → HasOtherId e f
      → IsFresh (enter e g).entries f
  unfolding find_event
  enter-IsFresh e f g new differs = rw (find_event, not_equal e.event_id f.event_id differs) new

  All-enter :
      (e : Event) (g : Graph) (fs : List Event)
      → All (IsFresh g.entries) fs
      → All (HasOtherId e) fs
      → All (IsFresh (enter e g).entries) fs
  All-enter e g [] h k = tt
  All-enter e g (f ∷ fs) (h, hs) (k, ks) = (enter-IsFresh e f g h k, All-enter e g fs hs ks)

  verify_events-issues :
      (es : List Event) (g : Graph)
      → All (IsFresh g.entries) es
      → IsPairwise HasOtherId es
      → All (IsAccepted sv quote io parse_adoption) es
      → (verify_events sv quote io parse_adoption es g).issues ≡ g.issues
  unfolding verify_events
  verify_events-issues [] g new others as' = refl
  verify_events-issues (e ∷ es) g (new, news) (other_ids, others) (a, as') =
      let (issues, entries) = verify_event-Keeps e g new a in
      verify_events-issues es (verify_event sv quote io parse_adoption e g)
        (subst (λ x. All (IsFresh x) es) (sym entries) (All-enter e g es news other_ids)) others as'
      ∙ issues

  all_new : (es : List Event) → All (IsFresh []) es
  unfolding find_event
  all_new [] = tt
  all_new (e ∷ es) = (refl, all_new es)

  -- Where no two events of the ledger have the same id and each retrieval, injection and adoption event
  -- holds a receipt that is decoded and passes the validator of its kind, the loop of Verify over the
  -- events reports no issue.
  pub verify_events_complete :
      (es : List Event)
      → IsPairwise HasOtherId es
      → All (IsAccepted sv quote io parse_adoption) es
      → (verify_events sv quote io parse_adoption es empty_graph).issues ≡ []
  verify_events_complete es others as' = verify_events-issues es empty_graph (all_new es) others as'
