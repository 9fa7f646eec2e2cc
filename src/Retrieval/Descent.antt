-- ===== src/Retrieval/Descent.antt =====
-- The search for an ancestor ends and finds only ancestors.
use agent_memory_system.Prelude.{
  ℕ, zero, suc, ◌+◌, ◌≤◌, ◌<◌, String, Bool, true, false, List, [], ◌∷◌, ◌++◌, Option, some, none,
  ◌≡◌, ◌≢◌, refl, sym, ap, subst, inl, inr, ◌⊎◌, arith,
}
use agent_memory_system.Prelude.Tests.{
  string_eq, ◌==◌, if◌then◌else◌, Bool-cases, Option-cases, eq_of_beq, beq_refl, some-injective,
}
use agent_memory_system.Prelude.Lists.{elem, length, length-append, All, All-append}
use agent_memory_system.Retrieval.Causes.{
  Entry, Entries, find_event, parents_of, Scan, met, queued, answer, out_of_fuel, is_earlier,
  scan_parents, search_queue, parent_count, event_descends_from,
}

-- A chain of parents, the index falling from each event to its parent.
pub data Descends (es : Entries) (id : String) : String → Type 0 where
  itself : Descends es id id
  parent :
      {c p : String} (e f : Entry)
      → Descends es id c
      → find_event c es ≡ some e
      → elem p (parents_of e.event) ≡ true
      → find_event p es ≡ some f
      → f.index < e.index
      → Descends es id p

pub Scan-cases : (s : Scan) → (s ≡ met) ⊎ ((q : List String) × (s ≡ queued q))
Scan-cases met = inl refl
Scan-cases (queued q) = inr (q, refl)

-- The parents of the entries whose events are not seen.
abbrev unseen_parents : List String → Entries → ℕ
unseen_parents seen [] = 0
unseen_parents seen (e ∷ es) =
    (if elem e.event.event_id seen then 0 else length (parents_of e.event)) + unseen_parents seen es

unseen_parents_none : (es : Entries) → unseen_parents [] es ≡ parent_count es
unfolding elem parent_count
unseen_parents_none [] = refl
unseen_parents_none (e ∷ es) = omega (arith, unseen_parents_none es)

unseen_parents_falls :
    (id : String) (seen : List String) (es : Entries)
    → unseen_parents (id ∷ seen) es ≤ unseen_parents seen es
unfolding elem
unseen_parents_falls id seen [] = omega arith
unseen_parents_falls id seen (e ∷ es) = ground (arith, unseen_parents_falls id seen es)

-- Seeing an event takes its parents off the sum.
unseen_parents-find_event :
    (id : String) (seen : List String) (es : Entries) (e : Entry)
    → elem id seen ≡ false
    → find_event id es ≡ some e
    → unseen_parents (id ∷ seen) es + length (parents_of e.event) ≤ unseen_parents seen es
unfolding elem find_event
unseen_parents-find_event id seen [] e new h = cc h
unseen_parents-find_event id seen (f ∷ es) e new h = elim (Bool-cases (f.event.event_id == id)) [
  | inl k ↦
      let same = eq_of_beq f.event.event_id id k in
      let first = some-injective (rw k at h) in
      let falls = unseen_parents_falls id seen es in
      let unseen = subst (λ x. elem x seen ≡ false) (sym same) new in
      subst
        (λ x.
          unseen_parents (id ∷ seen) (f ∷ es) + length (parents_of x.event)
          ≤ unseen_parents seen (f ∷ es))
        first (rw (k, unseen) (omega (arith, falls)))
  | inr k ↦ let rest = unseen_parents-find_event id seen es e new (rw k at h) in ground arith
]

queued_same : {p q : List String} → queued p ≡ queued q → length p ≡ length q
queued_same h = ap length (cc h)

module _ (es : Entries) (ancestor : String) where
  scan_parents_grows :
      (index : ℕ) (queue ps next : List String)
      → scan_parents es ancestor index queue ps ≡ queued next
      → length next ≤ length queue + length ps
  unfolding scan_parents
  scan_parents_grows index queue [] next h = omega (arith, queued_same h)
  scan_parents_grows index queue (p ∷ ps) next h =
      let found = is_earlier (find_event p es) index in
      elim (Bool-cases found) [
        | inl e ↦ elim (Bool-cases (p == ancestor)) [
          | inl k ↦ cc (rw (scan_parents, e, k) at h)
          | inr k ↦ omega (
            arith,
            scan_parents_grows index (queue ++ (p ∷ [])) ps next (rw (scan_parents, e, k) at h),
            length-append queue (p ∷ []),
          )
        ]
        | inr e ↦ omega (arith, scan_parents_grows index queue ps next (rw (scan_parents, e) at h))
      ]

  search_queue_ends :
      (fuel : ℕ) (seen queue : List String)
      → length queue + unseen_parents seen es ≤ fuel
      → (b : Bool) × (search_queue es ancestor fuel seen queue ≡ answer b)
  unfolding search_queue
  search_queue_ends fuel seen [] h = (false, refl)
  search_queue_ends zero seen (id ∷ queue) h = absurd (omega arith)
  search_queue_ends (suc fuel) seen (id ∷ queue) h = elim (Bool-cases (elem id seen)) [
    | inl s ↦
        let (b, e) = search_queue_ends fuel seen queue (omega arith) in (b, rw (search_queue, s) e)
    | inr s ↦ elim (Option-cases (find_event id es)) [
      | inl k ↦
          let (b, e) =
            search_queue_ends fuel (id ∷ seen) queue
              (omega (arith, unseen_parents_falls id seen es)) in
          (b, rw (search_queue, s, k) e)
      | inr (x, k) ↦
          elim (Scan-cases (scan_parents es ancestor x.index queue (parents_of x.event))) [
            | inl m ↦ (true, rw (search_queue, s, k, m) refl)
            | inr (next, m) ↦
                let grows = scan_parents_grows x.index queue (parents_of x.event) next m in
                let falls = unseen_parents-find_event id seen es x s k in
                let (b, e) = search_queue_ends fuel (id ∷ seen) next (omega arith) in
                (b, rw (search_queue, s, k, m) e)
          ]
    ]
  ]

-- eventDescendsFrom ends: as many rounds as the events have parents, and one more, suffice.
pub event_descends_from_ends :
    (es : Entries) (id ancestor : String) → event_descends_from es id ancestor ≢ out_of_fuel
unfolding event_descends_from
event_descends_from_ends es id ancestor h = elim (Bool-cases (id == ancestor)) [
  | inl e ↦ cc (rw e at h)
  | inr e ↦ elim (Option-cases (find_event ancestor es)) [
    | inl k ↦ cc (rw (e, k) at h)
    | inr (x, k) ↦
        let (b, ends) =
          search_queue_ends es ancestor (suc (parent_count es)) [] (id ∷ [])
            (omega (arith, unseen_parents_none es)) in
        cc (ends, rw (e, k) at h)
  ]
]

is_earlier-some :
    (o : Option Entry) (index : ℕ)
    → is_earlier o index ≡ true
    → (f : Entry) × (o ≡ some f) × (f.index < index)
is_earlier-some none index h = cc h
is_earlier-some (some f) index h = (f, refl, ground arith)

elem-tail : (x p : String) (ps : List String) → elem x ps ≡ true → elem x (p ∷ ps) ≡ true
unfolding elem
elem-tail x p ps h = ground (arith, h)

elem-head : (p : String) (ps : List String) → elem p (p ∷ ps) ≡ true
unfolding elem
elem-head p ps = ground (arith, beq_refl p)

All-elem-tail :
    (p : String) (ps qs : List String)
    → All (λ x. elem x ps ≡ true) qs
    → All (λ x. elem x (p ∷ ps) ≡ true) qs
All-elem-tail p ps [] h = tt
All-elem-tail p ps (q ∷ qs) h = (elem-tail q p ps h.0, All-elem-tail p ps qs h.1)

elem_all : (ps : List String) → All (λ x. elem x ps ≡ true) ps
elem_all [] = tt
elem_all (p ∷ ps) = (elem-head p ps, All-elem-tail p ps ps (elem_all ps))

module _ (es : Entries) (id ancestor : String) where
  -- What the loop over parents leaves, where each of them is a parent of an event that descends.
  abbrev IsSound : Scan → Type 0
  IsSound met = Descends es id ancestor
  IsSound (queued next) = All (Descends es id) next

  scan_parents-IsSound :
      (c : String) (e : Entry) (queue ps : List String)
      → Descends es id c
      → find_event c es ≡ some e
      → All (λ p. elem p (parents_of e.event) ≡ true) ps
      → All (Descends es id) queue
      → IsSound (scan_parents es ancestor e.index queue ps)
  unfolding scan_parents
  scan_parents-IsSound c e queue [] d k ms q = q
  scan_parents-IsSound c e queue (p ∷ ps) d k ms q =
      elim (Bool-cases (is_earlier (find_event p es) e.index)) [
        | inl t ↦
            let (f, there, less) = is_earlier-some (find_event p es) e.index t in
            let step = parent e f d k ms.0 there less in
            elim (Bool-cases (p == ancestor)) [
              | inl a ↦
                  rw (scan_parents, t, a) (subst (Descends es id) (eq_of_beq p ancestor a) step)
              | inr a ↦
                  rw (scan_parents, t, a)
                    (scan_parents-IsSound c e (queue ++ (p ∷ [])) ps d k ms.1
                      (All-append (Descends es id) queue (p ∷ []) q (step, tt)))
            ]
        | inr t ↦ rw (scan_parents, t) (scan_parents-IsSound c e queue ps d k ms.1 q)
      ]

  search_queue-Descends :
      (fuel : ℕ) (seen queue : List String)
      → All (Descends es id) queue
      → search_queue es ancestor fuel seen queue ≡ answer true
      → Descends es id ancestor
  unfolding search_queue
  search_queue-Descends fuel seen [] q h = cc h
  search_queue-Descends zero seen (c ∷ queue) q h = cc h
  search_queue-Descends (suc fuel) seen (c ∷ queue) q h = elim (Bool-cases (elem c seen)) [
    | inl s ↦ search_queue-Descends fuel seen queue q.1 (rw (search_queue, s) at h)
    | inr s ↦ elim (Option-cases (find_event c es)) [
      | inl k ↦ search_queue-Descends fuel (c ∷ seen) queue q.1 (rw (search_queue, s, k) at h)
      | inr (e, k) ↦
          let scan = scan_parents es ancestor e.index queue (parents_of e.event) in
          let sound =
            scan_parents-IsSound c e queue (parents_of e.event) q.0 k
              (elem_all (parents_of e.event)) q.1 in
          elim (Scan-cases scan) [
            | inl m ↦ subst IsSound m sound
            | inr (next, m) ↦
                search_queue-Descends fuel (c ∷ seen) next (subst IsSound m sound)
                  (rw (search_queue, s, k, m) at h)
          ]
    ]
  ]

-- Where eventDescendsFrom says yes, a chain of parents, perhaps an empty one, leads from the event
-- to the ancestor, the index falling at each step.
pub event_descends_from-Descends :
    (es : Entries) (id ancestor : String)
    → event_descends_from es id ancestor ≡ answer true
    → Descends es id ancestor
unfolding event_descends_from
event_descends_from-Descends es id ancestor h = elim (Bool-cases (id == ancestor)) [
  | inl e ↦ subst (Descends es id) (eq_of_beq id ancestor e) itself
  | inr e ↦ elim (Option-cases (find_event ancestor es)) [
    | inl k ↦ cc (rw (e, k) at h)
    | inr (x, k) ↦
        search_queue-Descends es id ancestor (suc (parent_count es)) [] (id ∷ []) (itself, tt)
          (rw (e, k) at h)
  ]
]
