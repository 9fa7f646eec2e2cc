-- ===== src/Retrieval/Verify/Clean.antt =====
-- A ledger whose events `Verify` passes without an issue.
use agent_memory_system.Prelude.{
  ℕ, suc, String, false, List, [], ◌∷◌, ◌++◌, Option, some, none, ◌≡◌, ◌≢◌, refl, subst, inl, inr,
  ◌⊎◌,
}
use agent_memory_system.Prelude.Tests.{
  string_eq, ◌==◌, Bool-cases, Option-cases, eq_of_beq, beq_refl,
}
use agent_memory_system.Prelude.Lists.{All}
use agent_memory_system.Prelude.Order.Chain.{IsPairwise}
use agent_memory_system.Ledger.Types.{Event}
use agent_memory_system.Retrieval.Receipts.{Services, validate_receipt}
use agent_memory_system.Retrieval.Injection.{validate_injection_receipt}
use agent_memory_system.Retrieval.Causes.{Entries, find_event}
use agent_memory_system.Retrieval.Adoption.{AdoptionReceipt, AdoptionIo, receipt_text}
use agent_memory_system.Retrieval.Adoption.Record.{validate_adoption_receipt}
use agent_memory_system.Retrieval.Verify.{
  LedgerIssue, Graph, empty_graph, Checked, accepted, refused, decode, check_issues, check_receipt,
  keep_retrieval, keep_injection, keep_adoption, enter, check_kind, verify_event, verify_events,
}

-- The receipt of an event is decoded and raises no issue.
pub record IsReceipt {A : Type 0} (parse : String → Option A) (validate : Event → A → List String)
    (e : Event) : Type 0 where
  pub receipt : A
  pub decoded : decode parse (receipt_text e) ≡ some receipt
  pub valid : validate e receipt ≡ []

check_issues-accepted :
    {A : Type 0} (id : String) (r s : A) (issues : List String)
    → check_issues id r issues ≡ accepted s
    → issues ≡ []
check_issues-accepted id r s [] h = refl
check_issues-accepted id r s (issue ∷ issues) h = cc h

module _ {A : Type 0} (parse : String → Option A) (validate : Event → A → List String) where
  check_receipt-IsReceipt :
      (e : Event) (r : A) → check_receipt parse validate e ≡ accepted r → IsReceipt parse validate e
  unfolding check_receipt
  check_receipt-IsReceipt e r h = elim (Option-cases (decode parse (receipt_text e))) [
    | inl k ↦ cc (rw (check_receipt, k) at h)
    | inr (s, k) ↦ record {
      receipt = s;
      decoded = k;
      valid = check_issues-accepted e.event_id s r (validate e s) (rw (check_receipt, k) at h);
    }
  ]

Checked-cases :
    {A : Type 0} (c : Checked A)
    → ((r : A) × (c ≡ accepted r))
      ⊎ ((i : LedgerIssue) × (is : List LedgerIssue) × (c ≡ refused i is))
Checked-cases (accepted r) = inl (r, refl)
Checked-cases (refused i is) = inr (i, is, refl)

not_empty : {A : Type 0} (xs : List A) (x : A) (ys : List A) → xs ++ (x ∷ ys) ≢ []
not_empty [] x ys h = cc h
not_empty (y ∷ xs) x ys h = cc h

pub differs : {a b : String} → (a == b) ≡ false → a ≢ b
differs {a} {b} h k = cc (h, k, beq_refl b)

-- The ids of events are different.
abbrev pub HasOtherId : Event → Event → Type 0
HasOtherId a b = a.event_id ≢ b.event_id

-- No entry has the id of the event.
abbrev pub IsFresh : Entries → Event → Type 0
IsFresh entries e = find_event e.event_id entries ≡ none

find_event-none :
    (e f : Event) (index : ℕ) (es : Entries)
    → IsFresh (record { event = e; index = index } ∷ es) f
    → IsFresh es f × HasOtherId e f
unfolding find_event
find_event-none e f index es h = elim (Bool-cases (e.event_id == f.event_id)) [
  | inl k ↦ cc (rw (find_event, k) at h)
  | inr k ↦ (rw (find_event, k) at h, differs k)
]

All-IsFresh :
    (e : Event) (index : ℕ) (es : Entries) (fs : List Event)
    → All (IsFresh (record { event = e; index = index } ∷ es)) fs
    → All (IsFresh es) fs × All (HasOtherId e) fs
All-IsFresh e index es [] h = (tt, tt)
All-IsFresh e index es (f ∷ fs) (h, hs) =
    let (a, b) = find_event-none e f index es h in
    let (as', bs) = All-IsFresh e index es fs hs in ((a, as'), (b, bs))

module _ (sv : Services) (quote : String → List ℕ) (io : AdoptionIo)
    (parse_adoption : String → Option AdoptionReceipt) where
  -- What the event of a ledger without issues is.
  pub data IsAccepted (e : Event) : Type 0 where
    retrieval :
        e.kind ≡ "memory_retrieval"
        → IsReceipt io.parse_receipt (validate_receipt sv) e
        → IsAccepted e
    injection :
        e.kind ≡ "memory_injection"
        → IsReceipt io.parse_injection (validate_injection_receipt sv) e
        → IsAccepted e
    adoption :
        e.kind ≡ "memory_adoption"
        → IsReceipt parse_adoption (validate_adoption_receipt sv quote io) e
        → IsAccepted e
    other :
        e.kind ≢ "memory_retrieval"
        → e.kind ≢ "memory_injection"
        → e.kind ≢ "memory_adoption"
        → IsAccepted e

  check_kind-IsAccepted :
      (e : Event) (g : Graph)
      → (check_kind sv quote io parse_adoption e g).issues ≡ []
      → IsAccepted e
        × (g.issues ≡ [])
        × ((check_kind sv quote io parse_adoption e g).entries ≡ g.entries)
  unfolding check_kind keep_retrieval keep_injection keep_adoption
  check_kind-IsAccepted e g h = elim (Bool-cases (e.kind == "memory_retrieval")) [
    | inl k ↦ elim (Checked-cases (check_receipt io.parse_receipt (validate_receipt sv) e)) [
      | inl (r, c) ↦ (
        retrieval (eq_of_beq e.kind "memory_retrieval" k)
            (check_receipt-IsReceipt io.parse_receipt (validate_receipt sv) e r c),
        rw (check_kind, k, c, keep_retrieval) at h,
        rw (check_kind, k, c, keep_retrieval) refl,
      )
      | inr (i, is, c) ↦
          absurd (not_empty g.issues i is (rw (check_kind, k, c, keep_retrieval) at h))
    ]
    | inr k ↦ elim (Bool-cases (e.kind == "memory_injection")) [
      | inl k1 ↦
          elim (Checked-cases
            (check_receipt io.parse_injection (validate_injection_receipt sv) e)) [
              | inl (r, c) ↦ (
                injection (eq_of_beq e.kind "memory_injection" k1) (
                    check_receipt-IsReceipt io.parse_injection (validate_injection_receipt sv) e r
                      c),
                rw (check_kind, k, k1, c, keep_injection) at h,
                rw (check_kind, k, k1, c, keep_injection) refl,
              )
              | inr (i, is, c) ↦
                  absurd (not_empty g.issues i is (rw (check_kind, k, k1, c, keep_injection) at h))
            ]
      | inr k1 ↦ elim (Bool-cases (e.kind == "memory_adoption")) [
        | inl k2 ↦
            elim (Checked-cases
              (check_receipt parse_adoption (validate_adoption_receipt sv quote io) e)) [
                | inl (r, c) ↦ (
                  adoption (eq_of_beq e.kind "memory_adoption" k2) (
                      check_receipt-IsReceipt parse_adoption (validate_adoption_receipt sv quote io)
                        e r c),
                  rw (check_kind, k, k1, k2, c, keep_adoption) at h,
                  rw (check_kind, k, k1, k2, c, keep_adoption) refl,
                )
                | inr (i, is, c) ↦
                    absurd
                      (not_empty g.issues i is (rw (check_kind, k, k1, k2, c, keep_adoption) at h))
              ]
        | inr k2 ↦ (
          other (differs k) (differs k1) (differs k2),
          rw (check_kind, k, k1, k2) at h,
          rw (check_kind, k, k1, k2) refl,
        )
      ]
    ]
  ]

  abbrev Step : Event → Graph → Type 0
  Step e g =
      IsAccepted e
      × (g.issues ≡ [])
      × (find_event e.event_id g.entries ≡ none)
      × ((verify_event sv quote io parse_adoption e g).entries ≡ (enter e g).entries)

  verify_event-Step :
      (e : Event) (g : Graph) → (verify_event sv quote io parse_adoption e g).issues ≡ [] → Step e g
  unfolding verify_event
  verify_event-Step e g h = elim (Option-cases (find_event e.event_id g.entries)) [
    | inl k ↦
        let (a, b, c) = check_kind-IsAccepted e (enter e g) (rw (verify_event, k) at h) in
        (a, b, k, rw (verify_event, k) c)
    | inr (x, k) ↦ absurd (not_empty g.issues _ [] (rw (verify_event, k) at h))
  ]

  verify_events-clean :
      (es : List Event) (g : Graph)
      → (verify_events sv quote io parse_adoption es g).issues ≡ []
      → (g.issues ≡ []) × All (IsFresh g.entries) es × All IsAccepted es × IsPairwise HasOtherId es
  unfolding verify_events
  verify_events-clean [] g h = (h, tt, tt, tt)
  verify_events-clean (e ∷ es) g h =
      let (clean, fresh, accepted_all, others) =
        verify_events-clean es (verify_event sv quote io parse_adoption e g) h in
      let (a, b, new, entered) = verify_event-Step e g clean in
      let (old, distinct) =
        All-IsFresh e (suc g.index) g.entries es (subst (λ x. All (IsFresh x) es) entered fresh) in
      (b, (new, old), (a, accepted_all), (distinct, others))

  -- Where the loop of Verify over the events of the ledger reports no issue, no two events have the
  -- same id, and each retrieval, injection and adoption event holds a receipt that is decoded and
  -- passes the validator of its kind.
  pub verify_events-IsAccepted :
      (es : List Event)
      → (verify_events sv quote io parse_adoption es empty_graph).issues ≡ []
      → IsPairwise HasOtherId es × All IsAccepted es
  verify_events-IsAccepted es h =
      let (_, _, all_accepted, distinct) = verify_events-clean es empty_graph h in
      (distinct, all_accepted)
