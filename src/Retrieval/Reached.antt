-- ===== src/Retrieval/Reached.antt =====
-- The search of `eventDescendsFrom` misses no ancestor.
use agent_memory_system.Prelude.{
  ℕ, zero, suc, ◌<◌, String, true, false, ◌||◌, List, [], ◌∷◌, ◌++◌, Option, some, ◌≡◌, ◌≢◌, refl,
  sym, subst, inl, inr, ◌⊎◌, arith,
}
use agent_memory_system.Prelude.Tests.{
  string_eq, ◌==◌, Bool-cases, Option-cases, eq_of_beq, beq_refl, some-injective,
}
use agent_memory_system.Prelude.Lists.{elem}
use agent_memory_system.Retrieval.Causes.{
  Entry, Entries, find_event, parents_of, queued, Answer, answer, out_of_fuel, is_earlier,
  scan_parents, search_queue, parent_count, event_descends_from,
}
use agent_memory_system.Retrieval.Descent.{
  Descends, itself, parent, Scan-cases, event_descends_from_ends,
}

elem-append : (x p : String) (qs : List String) → elem x (qs ++ (p ∷ [])) ≡ (elem x qs || x == p)
unfolding elem
elem-append x p [] = ground arith
elem-append x p (q ∷ qs) = ground (arith, elem-append x p qs)

queued_injective : {p q : List String} → queued p ≡ queued q → p ≡ q
queued_injective h = cc h

is_earlier_of :
    (o : Option Entry) (f : Entry) (index : ℕ)
    → o ≡ some f
    → f.index < index
    → is_earlier o index ≡ true
is_earlier_of o f index h less = rw h (ground arith)

module _ (es : Entries) (ancestor : String) where
  -- What a search that has not met the ancestor keeps of the event itself and of a parent it passed.
  abbrev Reached : List String → List String → String → Type 0
  Reached seen queue x = (elem x seen || elem x queue) ≡ true

  -- Every earlier parent of a seen event is seen or queued, and is not the ancestor.
  abbrev IsClosed : List String → List String → Type 0
  IsClosed seen queue =
      (c p : String) (e f : Entry)
      → elem c seen ≡ true
      → find_event c es ≡ some e
      → elem p (parents_of e.event) ≡ true
      → find_event p es ≡ some f
      → f.index < e.index
      → (p ≢ ancestor) × Reached seen queue p

  Reached-seen :
      (c : String) (seen queue : List String)
      → elem c seen ≡ true
      → (x : String) → Reached seen (c ∷ queue) x
      → Reached seen queue x
  unfolding elem
  Reached-seen c seen queue s x r = elim (Bool-cases (x == c)) [
    | inl k ↦ ground (arith, subst (λ y. elem y seen ≡ true) (sym (eq_of_beq x c k)) s)
    | inr k ↦ ground (arith, r)
  ]

  Reached-next :
      (c : String) (seen queue next : List String)
      → ((x : String) → elem x queue ≡ true → elem x next ≡ true)
      → (x : String) → Reached seen (c ∷ queue) x
      → Reached (c ∷ seen) next x
  unfolding elem
  Reached-next c seen queue next kept x r = elim (Bool-cases (elem x queue)) [
    | inl k ↦ ground (arith, kept x k)
    | inr k ↦ ground (arith, r)
  ]

  IsClosed-seen :
      (c : String) (seen queue : List String)
      → elem c seen ≡ true
      → IsClosed seen (c ∷ queue)
      → IsClosed seen queue
  IsClosed-seen c seen queue s closed b p e f m k n there less =
      let (unmet, r) = closed b p e f m k n there less in (unmet, Reached-seen c seen queue s p r)

  IsClosed-next :
      (c : String) (seen queue next : List String)
      → ((x : String) → elem x queue ≡ true → elem x next ≡ true)
      → ((p : String) (e f : Entry)
          → find_event c es ≡ some e
          → elem p (parents_of e.event) ≡ true
          → find_event p es ≡ some f
          → f.index < e.index
          → (p ≢ ancestor) × (elem p next ≡ true))
      → IsClosed seen (c ∷ queue)
      → IsClosed (c ∷ seen) next
  unfolding elem
  IsClosed-next c seen queue next kept new closed b p e f m k n there less =
      elim (Bool-cases (b == c)) [
        | inl same ↦
            let found = subst (λ x. find_event x es ≡ some e) (eq_of_beq b c same) k in
            let (unmet, r) = new p e f found n there less in (unmet, ground (arith, r))
        | inr other ↦
            let (unmet, r) = closed b p e f (ground (arith, m)) k n there less in
            (unmet, Reached-next c seen queue next kept p r)
      ]

  scan_parents-queued :
      (index : ℕ) (queue ps next : List String)
      → scan_parents es ancestor index queue ps ≡ queued next
      → (x : String) → elem x queue ≡ true
      → elem x next ≡ true
  unfolding scan_parents
  scan_parents-queued index queue [] next h x m =
      subst (λ q. elem x q ≡ true) (queued_injective h) m
  scan_parents-queued index queue (p ∷ ps) next h x m =
      elim (Bool-cases (is_earlier (find_event p es) index)) [
        | inl e ↦ elim (Bool-cases (p == ancestor)) [
          | inl k ↦ cc (rw (scan_parents, e, k) at h)
          | inr k ↦
              scan_parents-queued index (queue ++ (p ∷ [])) ps next (rw (scan_parents, e, k) at h) x
                (ground (arith, elem-append x p queue))
        ]
        | inr e ↦ scan_parents-queued index queue ps next (rw (scan_parents, e) at h) x m
      ]

  scan_parents-earlier :
      (index : ℕ) (queue ps next : List String)
      → scan_parents es ancestor index queue ps ≡ queued next
      → (p : String) (f : Entry) → elem p ps ≡ true
      → find_event p es ≡ some f
      → f.index < index
      → (p ≢ ancestor) × (elem p next ≡ true)
  unfolding scan_parents elem
  scan_parents-earlier index queue [] next h p f m k less = cc m
  scan_parents-earlier index queue (q ∷ ps) next h p f m k less =
      elim (Bool-cases (is_earlier (find_event q es) index)) [
        | inl e ↦ elim (Bool-cases (q == ancestor)) [
          | inl a ↦ cc (rw (scan_parents, e, a) at h)
          | inr a ↦
              let h' = rw (scan_parents, e, a) at h in
              elim (Bool-cases (p == q)) [
                | inl same ↦ (
                  λ eq. cc (beq_refl ancestor, a, eq, eq_of_beq p q same),
                  scan_parents-queued index (queue ++ (q ∷ [])) ps next h' p
                      (ground (arith, elem-append p q queue)),
                )
                | inr other ↦
                    scan_parents-earlier index (queue ++ (q ∷ [])) ps next h' p f (ground arith) k
                      less
              ]
        ]
        | inr e ↦ elim (Bool-cases (p == q)) [
          | inl same ↦ cc (is_earlier_of (find_event p es) f index k less, e, eq_of_beq p q same)
          | inr other ↦
              scan_parents-earlier index queue ps next (rw (scan_parents, e) at h) p f
                (ground arith) k less
        ]
      ]

  earlier_of :
      (c : String) (e : Entry) (queue next : List String)
      → find_event c es ≡ some e
      → scan_parents es ancestor e.index queue (parents_of e.event) ≡ queued next
      → (p : String) (e' f : Entry) → find_event c es ≡ some e'
      → elem p (parents_of e'.event) ≡ true
      → find_event p es ≡ some f
      → f.index < e'.index
      → (p ≢ ancestor) × (elem p next ≡ true)
  earlier_of c e queue next k m p e' f found n there less =
      let same = some-injective (rw k at found) in
      let ps = subst (λ x. elem p (parents_of x.event) ≡ true) (sym same) n in
      let below = subst (λ x. f.index < x.index) (sym same) less in
      scan_parents-earlier e.index queue (parents_of e.event) next m p f ps there below

  IsClosed-Descends :
      (seen : List String) (id : String)
      → elem id seen ≡ true
      → IsClosed seen []
      → (x : String) → Descends es id x
      → (elem x seen ≡ true) × ((id ≡ x) ⊎ (x ≢ ancestor))
  unfolding elem
  IsClosed-Descends seen id s closed x itself = (s, inl refl)
  IsClosed-Descends seen id s closed x (parent {c} e f d k m there less) =
      let (seen_c, other) = IsClosed-Descends seen id s closed c d in
      let (not_met, reached) = closed c x e f seen_c k m there less in
      (ground (arith, reached), inr not_met)

  search_queue_complete :
      (id : String) (fuel : ℕ) (seen queue : List String)
      → Reached seen queue id
      → IsClosed seen queue
      → Descends es id ancestor
      → id ≢ ancestor
      → search_queue es ancestor fuel seen queue ≢ answer false
  unfolding search_queue elem
  search_queue_complete id fuel seen [] start closed d other h =
      elim (IsClosed-Descends seen id (ground (arith, start)) closed ancestor d).1 [
        | inl same ↦ other same
        | inr unmet ↦ unmet refl
      ]
  search_queue_complete id zero seen (c ∷ queue) start closed d other h = cc h
  search_queue_complete id (suc fuel) seen (c ∷ queue) start closed d other h =
      elim (Bool-cases (elem c seen)) [
        | inl s ↦
            search_queue_complete id fuel seen queue (Reached-seen c seen queue s id start)
              (IsClosed-seen c seen queue s closed) d other (rw (search_queue, s) at h)
        | inr s ↦ elim (Option-cases (find_event c es)) [
          | inl k ↦
              search_queue_complete id fuel (c ∷ seen) queue
                (Reached-next c seen queue queue (λ x m. m) id start)
                (IsClosed-next c seen queue queue (λ x m. m)
                  (λ p e f found n there less. cc (k, found)) closed)
                d other (rw (search_queue, s, k) at h)
          | inr (e, k) ↦
              elim (Scan-cases (scan_parents es ancestor e.index queue (parents_of e.event))) [
                | inl m ↦ cc (rw (search_queue, s, k, m) at h)
                | inr (next, m) ↦
                    let kept = scan_parents-queued e.index queue (parents_of e.event) next m in
                    search_queue_complete id fuel (c ∷ seen) next
                      (Reached-next c seen queue next kept id start)
                      (IsClosed-next c seen queue next kept (earlier_of c e queue next k m) closed)
                      d other (rw (search_queue, s, k, m) at h)
              ]
        ]
      ]

Descends-there :
    (es : Entries) (id x : String)
    → Descends es id x
    → (id ≡ x) ⊎ ((f : Entry) × (find_event x es ≡ some f))
Descends-there es id x itself = inl refl
Descends-there es id x (parent e f d k m there less) = inr (f, there)

Answer-cases : (a : Answer) → (a ≡ answer true) ⊎ ((a ≡ answer false) ⊎ (a ≡ out_of_fuel))
Answer-cases (answer true) = inl refl
Answer-cases (answer false) = inr (inl refl)
Answer-cases out_of_fuel = inr (inr refl)

event_descends_from_not_false :
    (es : Entries) (id ancestor : String) (e : Entry)
    → find_event id es ≡ some e
    → Descends es id ancestor
    → event_descends_from es id ancestor ≢ answer false
unfolding event_descends_from elem
event_descends_from_not_false es id ancestor e there d refused =
    elim (Bool-cases (id == ancestor)) [
      | inl k ↦ cc (rw (k, there) at refused)
      | inr k ↦ elim (Descends-there es id ancestor d) [
        | inl same ↦ cc (beq_refl ancestor, k, same)
        | inr (f, found) ↦
            search_queue_complete es ancestor id (suc (parent_count es)) [] (id ∷ [])
              (ground (arith, beq_refl id)) (λ c p e' f' m. cc m) d
              (λ same. cc (beq_refl ancestor, k, same)) (rw (k, found) at refused)
      ]
    ]

-- Where the event is there and a chain of parents leads from it to the ancestor, the index falling
-- at each step, eventDescendsFrom says yes.
pub event_descends_from_complete :
    (es : Entries) (id ancestor : String) (e : Entry)
    → find_event id es ≡ some e
    → Descends es id ancestor
    → event_descends_from es id ancestor ≡ answer true
event_descends_from_complete es id ancestor e there d =
    elim (Answer-cases (event_descends_from es id ancestor)) [
      | inl said ↦ said
      | inr (inl refused) ↦ absurd (event_descends_from_not_false es id ancestor e there d refused)
      | inr (inr more) ↦ absurd (event_descends_from_ends es id ancestor more)
    ]
