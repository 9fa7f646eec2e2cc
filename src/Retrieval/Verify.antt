-- ===== src/Retrieval/Verify.antt =====
-- The loop of `Verify` of internal/retrieval/verify.go over the events of the ledger: what it keeps
-- and the issues it reports. The comparison of the receipts that it keeps comes after.
pub mod Clean
pub mod Complete
use agent_memory_system.Prelude.{
  ℕ, zero, suc, String, Bool, true, false, List, [], ◌∷◌, ◌++◌, map, Option, some, none,
}
use agent_memory_system.Prelude.Tests.{string_eq, ◌==◌, if◌then◌else◌}
use agent_memory_system.Ledger.Types.{Event}
use agent_memory_system.Retrieval.Types.{Receipt}
use agent_memory_system.Retrieval.Normalize.{is_null}
use agent_memory_system.Retrieval.Receipts.{Services, validate_receipt}
use agent_memory_system.Retrieval.Injection.{InjectionReceipt, validate_injection_receipt}
use agent_memory_system.Retrieval.Causes.{Entries, find_event}
use agent_memory_system.Retrieval.Adoption.{AdoptionReceipt, AdoptionIo, receipt_text}
use agent_memory_system.Retrieval.Adoption.Record.{validate_adoption_receipt}

-- An issue of the loop, with the id of its event.
pub data LedgerIssue : Type 0 where
  appears_twice : (id : String) → LedgerIssue
  not_decoded : (id : String) → LedgerIssue
  invalid : (id issue : String) → LedgerIssue

-- The counts and issues of the report, and the maps. An id in a map of receipts is the id of an event
-- that has been met once, so a new receipt replaces none.
pub record Graph : Type 0 where
  pub retrievals_checked : ℕ
  pub injections_checked : ℕ
  pub adoptions_checked : ℕ
  pub issues : List LedgerIssue
  pub index : ℕ
  pub entries : Entries
  pub retrievals : List Receipt
  pub injections : List InjectionReceipt
  pub adoptions : List AdoptionReceipt

abbrev pub empty_graph : Graph
empty_graph = record {
  retrievals_checked = 0;
  injections_checked = 0;
  adoptions_checked = 0;
  issues = [];
  index = 0;
  entries = [];
  retrievals = [];
  injections = [];
  adoptions = [];
}

-- A receipt that passes its tests, or the issues of its event.
pub data Checked (A : Type 0) : Type 0 where
  accepted : A → Checked A
  refused : LedgerIssue → List LedgerIssue → Checked A

abbrev pub decode : {A : Type 0} → (String → Option A) → Option String → Option A
decode parse none = none
decode parse (some text) = parse text

abbrev pub check_issues : {A : Type 0} → String → A → List String → Checked A
check_issues id r [] = accepted r
check_issues id r (issue ∷ issues) = refused (invalid id issue) (map (invalid id) issues)

unfoldable pub check_receipt :
    {A : Type 0} → (String → Option A) → (Event → A → List String) → Event → Checked A
unfolding receipt_text
check_receipt parse validate e = elim (decode parse (receipt_text e)) [
  | none ↦ refused (not_decoded e.event_id) []
  | some r ↦ check_issues e.event_id r (validate e r)
]

unfoldable pub keep_retrieval : Graph → Checked Receipt → Graph
keep_retrieval g (accepted r) = record g {
  retrievals_checked = suc g.retrievals_checked;
  retrievals = r ∷ g.retrievals;
}
keep_retrieval g (refused i is) = record g {
  retrievals_checked = suc g.retrievals_checked;
  issues = g.issues ++ (i ∷ is);
}

unfoldable pub keep_injection : Graph → Checked InjectionReceipt → Graph
keep_injection g (accepted r) = record g {
  injections_checked = suc g.injections_checked;
  injections = r ∷ g.injections;
}
keep_injection g (refused i is) = record g {
  injections_checked = suc g.injections_checked;
  issues = g.issues ++ (i ∷ is);
}

unfoldable pub keep_adoption : Graph → Checked AdoptionReceipt → Graph
keep_adoption g (accepted r) = record g {
  adoptions_checked = suc g.adoptions_checked;
  adoptions = r ∷ g.adoptions;
}
keep_adoption g (refused i is) = record g {
  adoptions_checked = suc g.adoptions_checked;
  issues = g.issues ++ (i ∷ is);
}

abbrev pub enter : Event → Graph → Graph
enter e g = record g {
  index = suc g.index;
  entries = record { event = e; index = suc g.index } ∷ g.entries;
}

module _ (sv : Services) (quote : String → List ℕ) (io : AdoptionIo)
    (parse_adoption : String → Option AdoptionReceipt) where
  -- The switch on the kind of an event.
  unfoldable pub check_kind : Event → Graph → Graph
  unfolding check_receipt validate_receipt validate_injection_receipt validate_adoption_receipt
      keep_retrieval keep_injection keep_adoption
  check_kind e g =
      if e.kind == "memory_retrieval"
      then keep_retrieval g (check_receipt io.parse_receipt (validate_receipt sv) e)
      else if e.kind == "memory_injection"
      then keep_injection g (check_receipt io.parse_injection (validate_injection_receipt sv) e)
      else if e.kind == "memory_adoption"
      then keep_adoption g (check_receipt parse_adoption (validate_adoption_receipt sv quote io) e)
      else g

  -- The visitor.
  unfoldable pub verify_event : Event → Graph → Graph
  unfolding find_event check_kind
  verify_event e g = elim (find_event e.event_id g.entries) [
    | some entry ↦ record g {
      index = suc g.index;
      issues = g.issues ++ (appears_twice e.event_id ∷ []);
    }
    | none ↦ check_kind e (enter e g)
  ]

  unfoldable pub verify_events : List Event → Graph → Graph
  unfolding verify_event
  verify_events [] g = g
  verify_events (e ∷ es) g = verify_events es (verify_event e g)
