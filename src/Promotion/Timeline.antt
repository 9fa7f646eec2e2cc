-- ===== src/Promotion/Timeline.antt =====
-- When a revision was current, by `RevisionWasCurrentAt` of internal/promotion/apply.go.
use agent_memory_system.Prelude.{
  ℕ, ◌≤◌, String, Bool, true, not, ◌&&◌, ◌||◌, Option, none, some, List, [], ◌∷◌, ◌≡◌, refl, sym,
  ap, subst, ◌∙◌, inl, inr, arith,
}
use agent_memory_system.Prelude.Tests.{string_eq, ◌==◌, ltb, Bool-cases, some-injective}
use agent_memory_system.Prelude.Lists.{All}
use agent_memory_system.Prelude.Result.{ok, ok-injective}
use agent_memory_system.Ledger.Types.{Time}
use agent_memory_system.Promotion.Types.{is_active, Revision, Record}
use agent_memory_system.Promotion.Query.{ended_at, find_target, before_end, was_current}

-- The record's revision is of the memory.
abbrev is_of : String → Record → Bool
is_of memory_id r = r.event.revision.memory_id == memory_id

-- The memory's revisions were recorded in the order of the history.
abbrev pub InOrder : String → List Record → Type 0
InOrder memory_id [] = Unit
InOrder memory_id (r ∷ rs) =
    (is_of memory_id r ≡ true
      → All
          (λ s.
            is_of memory_id s ≡ true → r.event.revision.recorded_at ≤ s.event.revision.recorded_at)
          rs)
    × InOrder memory_id rs

ap_time :
    {v w : Revision} {e f : Option Time}
    → ◌≡◌ {A = Option (Revision × Option Time)} (some (w, f)) (some (v, e))
    → w.recorded_at ≤ v.recorded_at
ap_time {v} {w} h =
    let same = ap (λ p. p.0.recorded_at) (some-injective h) in
    subst (λ t. w.recorded_at ≤ t) same (omega arith)

find_target-All :
    (memory_id id : String) (rs : List Record) (v : Revision) (e : Option Time) (t : Time)
    → All (λ s. is_of memory_id s ≡ true → t ≤ s.event.revision.recorded_at) rs
    → find_target memory_id id rs ≡ some (v, e)
    → t ≤ v.recorded_at
unfolding find_target
find_target-All memory_id id [] v e t later h = cc h
find_target-All memory_id id (r ∷ rs) v e t later h =
    elim (Bool-cases (is_of memory_id r && r.event.revision.revision_id == id)) [
      | inr k ↦ find_target-All memory_id id rs v e t later.1 (rw k at h)
      | inl k ↦ let early = later.0 (ground arith) in omega (arith, early, ap_time (rw k at h))
    ]

-- The memory's next revision is no later than one that is found.
ended_at-find_target :
    (memory_id id : String) (rs : List Record) (v : Revision) (e : Option Time)
    → InOrder memory_id rs
    → find_target memory_id id rs ≡ some (v, e)
    → (t : Time) × (ended_at memory_id rs ≡ some t) × (t ≤ v.recorded_at)
unfolding ended_at find_target
ended_at-find_target memory_id id [] v e order h = cc h
ended_at-find_target memory_id id (r ∷ rs) v e order h = elim (Bool-cases (is_of memory_id r)) [
  | inr k ↦
      let (t, next, early) = ended_at-find_target memory_id id rs v e order.1 (rw k at h) in
      (t, rw (k, next) refl, early)
  | inl k ↦ (
    r.event.revision.recorded_at,
    rw k refl,
    elim (Bool-cases (r.event.revision.revision_id == id)) [
      | inl l ↦ ap_time (rw (k, l) at h)
      | inr l ↦ find_target-All memory_id id rs v e _ (order.0 k) (rw (k, l) at h)
    ],
  )
]

-- A revision that was current was recorded by then, and its time had not ended.
was_current-parts :
    (at : Time) (found : Option (Revision × Option Time))
    → was_current at found ≡ ok true
    → (v : Revision) × (e : Option Time) × (found ≡ some (v, e))
      × (v.recorded_at ≤ at)
      × (before_end at e ≡ true)
unfolding was_current
was_current-parts at none h = cc h
was_current-parts at (some (v, e)) h =
    elim (Bool-cases (not (is_active v.status) || ltb at v.recorded_at)) [
      | inl k ↦ cc (rw k at h)
      | inr k ↦ (v, e, refl, ground arith, ok-injective (rw k at h))
    ]

was_current-before_end :
    (at : Time) (v : Revision) (e : Option Time)
    → was_current at (some (v, e)) ≡ ok true
    → before_end at e ≡ true
was_current-before_end at v e h =
    let (w, f, found, recorded, open_) = was_current-parts at (some (v, e)) h in
    subst (λ p. before_end at p ≡ true) (sym (ap (λ p. p.1) (some-injective found))) open_

-- What was current has no later revision that was current at the time too.
ended-clash :
    {A : Type 0} (memory_id id : String) (at : Time) (rs : List Record)
    → InOrder memory_id rs
    → before_end at (ended_at memory_id rs) ≡ true
    → was_current at (find_target memory_id id rs) ≡ ok true
    → A
unfolding before_end
ended-clash memory_id id at rs order open_ h =
    let (v, e, found, recorded, rest) = was_current-parts at (find_target memory_id id rs) h in
    let (t, next, early) = ended_at-find_target memory_id id rs v e order found in
    let before = subst (λ o. before_end at o ≡ true) next open_ in
    absurd (too_late t v.recorded_at at early recorded before)
  where
    too_late : (t r at : ℕ) → t ≤ r → r ≤ at → ltb at t ≡ true → ⊥
    too_late t r at a b c = ground arith

-- If a memory's revisions were recorded in the order of the history, two revisions of it that
-- RevisionWasCurrentAt reports as current at one time are one.
pub was_current_unique :
    (memory_id id id' : String) (at : Time) (rs : List Record)
    → InOrder memory_id rs
    → was_current at (find_target memory_id id rs) ≡ ok true
    → was_current at (find_target memory_id id' rs) ≡ ok true
    → id ≡ id'
unfolding find_target was_current
was_current_unique memory_id id id' at [] order h k = cc h
was_current_unique memory_id id id' at (r ∷ rs) order h k =
    let id_of = r.event.revision.revision_id in
    elim (Bool-cases (is_of memory_id r)) [
      | inr m ↦ was_current_unique memory_id id id' at rs order.1 (rw m at h) (rw m at k)
      | inl m ↦ elim (Bool-cases (id_of == id)) [
        | inl a ↦ elim (Bool-cases (id_of == id')) [
          | inl b ↦ sym ((string_eq.same_iff id_of id).0 a) ∙ (string_eq.same_iff id_of id').0 b
          | inr b ↦
              ended-clash memory_id id' at rs order.1
                (was_current-before_end at r.event.revision (ended_at memory_id rs)
                  (rw (m, a) at h))
                (rw (m, b) at k)
        ]
        | inr a ↦ elim (Bool-cases (id_of == id')) [
          | inl b ↦
              ended-clash memory_id id at rs order.1
                (was_current-before_end at r.event.revision (ended_at memory_id rs)
                  (rw (m, b) at k))
                (rw (m, a) at h)
          | inr b ↦
              was_current_unique memory_id id id' at rs order.1 (rw (m, a) at h) (rw (m, b) at k)
        ]
      ]
    ]
