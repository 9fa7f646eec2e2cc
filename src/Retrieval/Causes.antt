-- ===== src/Retrieval/Causes.antt =====
-- `eventDescendsFrom` of internal/retrieval/adoption.go. The maps of events and of their indexes are
-- one list of entries, the latest first; a missing index is 0.
use agent_memory_system.Prelude.{
  ℕ, zero, suc, ◌+◌, String, Bool, true, false, ◌&&◌, List, [], ◌∷◌, ◌++◌, Option, some, none,
}
use agent_memory_system.Prelude.Tests.{string_eq, ◌==◌, if◌then◌else◌, ltb}
use agent_memory_system.Prelude.Lists.{elem, length}
use agent_memory_system.Ledger.Types.{Event}

pub record Entry : Type 0 where
  pub event : Event
  pub index : ℕ

abbrev pub Entries : Type 0
Entries = List Entry

unfoldable pub find_event : String → Entries → Option Entry
find_event id [] = none
find_event id (e ∷ es) =
    let rest = find_event id es in if e.event.event_id == id then some e else rest

unfoldable pub parents_of : Event → List String
parents_of e = elim e.causality [ none ↦ [] | some c ↦ c.parent_event_ids ]

-- A parent that is there and has a smaller index than the event.
abbrev pub is_earlier : Option Entry → ℕ → Bool
is_earlier none index = false
is_earlier (some e) index = ltb e.index index

-- The outcome of the loop over the parents: the ancestor is met, or the queue grows.
pub data Scan : Type 0 where
  met : Scan
  queued : List String → Scan

pub data Answer : Type 0 where
  answer : Bool → Answer
  out_of_fuel : Answer

module _ (es : Entries) (ancestor : String) where
  -- The loop over the parents of an event with this index.
  unfoldable pub scan_parents : ℕ → List String → List String → Scan
  unfolding find_event
  scan_parents index queue [] = queued queue
  scan_parents index queue (p ∷ ps) =
      let earlier = is_earlier (find_event p es) index in
      let rest = scan_parents index (if earlier then queue ++ (p ∷ []) else queue) ps in
      if earlier && p == ancestor then met else rest

  -- The loop over the queue.
  unfoldable pub search_queue : ℕ → List String → List String → Answer
  unfolding scan_parents elem parents_of find_event
  search_queue fuel seen [] = answer false
  search_queue zero seen (id ∷ queue) = out_of_fuel
  search_queue (suc fuel) seen (id ∷ queue) = elim (elem id seen) [
    | true ↦ search_queue fuel seen queue
    | false ↦ elim (find_event id es) [
      | none ↦ search_queue fuel (id ∷ seen) queue
      | some e ↦ elim (scan_parents e.index queue (parents_of e.event)) [
        | met ↦ answer true
        | queued next ↦ search_queue fuel (id ∷ seen) next
      ]
    ]
  ]

abbrev pub is_there : Option Entry → Bool
is_there none = false
is_there (some e) = true

-- The parents of all entries.
unfoldable pub parent_count : Entries → ℕ
unfolding parents_of
parent_count [] = 0
parent_count (e ∷ es) = length (parents_of e.event) + parent_count es

-- `eventDescendsFrom`, with as many rounds as there are parents, and one more.
unfoldable pub event_descends_from : Entries → String → String → Answer
unfolding find_event search_queue parent_count
event_descends_from es id ancestor =
    if id == ancestor
    then answer (is_there (find_event id es))
    else if is_there (find_event ancestor es)
    then search_queue es ancestor (suc (parent_count es)) [] (id ∷ [])
    else answer false
