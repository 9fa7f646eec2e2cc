-- ===== src/Retrieval/Sets.antt =====
-- `sortedUnique`, `isSortedUnique` and the sets of references of internal/retrieval.
use agent_memory_system.Prelude.{
  String, Bool, true, false, not, ◌&&◌, List, [], ◌∷◌, Option, some, none, ◌≡◌, refl, inl, inr, sym,
  subst, arith, ◌↔◌,
}
use agent_memory_system.Prelude.Tests.{
  Comparable, string_eq, ◌==◌, ◌!=◌, if◌then◌else◌, string_ltb, Bool-cases, beq_refl, eq_of_beq,
  and-true, eq_of_not-ne,
}
use agent_memory_system.Prelude.Lists.{All}
use agent_memory_system.Prelude.Order.{
  sort_by, IsOrdered, sort_by-IsOrdered, All-sort_by, string_ltb_asym, string_ltb_total,
}
use agent_memory_system.Prelude.Text.{is_blank}
use agent_memory_system.Retrieval.Types.{MemoryReference}

-- `len(result) == 0 || result[len(result)-1] != value`.
abbrev pub is_new : Option String → String → Bool
is_new none value = true
is_new (some last) value = last != value

-- The loop of `sortedUnique` behind the last value it kept.
unfoldable pub unique_loop : Option String → List String → List String
unique_loop last [] = []
unique_loop last (v ∷ vs) =
    let keep = v != "" && is_new last v in
    let rest = unique_loop (if keep then some v else last) vs in if keep then v ∷ rest else rest

-- `sortedUnique`.
unfoldable pub sorted_unique : List String → List String
unfolding sort_by unique_loop
sorted_unique values = unique_loop none (sort_by string_ltb values)

-- `isSortedUnique`.
unfoldable pub is_sorted_unique : List String → Bool
unfolding is_blank
is_sorted_unique [] = true
is_sorted_unique (v ∷ []) = not (is_blank v)
is_sorted_unique (v ∷ w ∷ ws) = not (is_blank v) && string_ltb v w && is_sorted_unique (w ∷ ws)

-- The key of `referenceKey`, before a NUL byte joins its parts.
abbrev pub reference_same : MemoryReference → MemoryReference → Bool
reference_same a b = a.memory_id == b.memory_id && a.revision_id == b.revision_id

pub reference_same_iff : (a b : MemoryReference) → (reference_same a b ≡ true) ↔ (a ≡ b)
reference_same_iff a b = (
  λ h.
      let (m, r) = and-true (a.memory_id == b.memory_id) (a.revision_id == b.revision_id) h in
      let m' = eq_of_beq a.memory_id b.memory_id m in
      let r' = eq_of_beq a.revision_id b.revision_id r in cc,
  λ e.
      subst (λ x. reference_same a x ≡ true) e
        (ground (arith, beq_refl a.memory_id, beq_refl a.revision_id)),
)

instance abbrev pub reference_eq : Comparable MemoryReference
reference_eq = record { same = reference_same; same_iff = reference_same_iff }

-- A value behind the last one that was kept is not less than it.
abbrev Follows : Option String → List String → Type 0
Follows none vs = Unit
Follows (some last) [] = Unit
Follows (some last) (v ∷ vs) = string_ltb v last ≡ false

-- The last kept value is less than the first of those that are kept next.
abbrev Precedes : Option String → List String → Type 0
Precedes none vs = Unit
Precedes (some last) [] = Unit
Precedes (some last) (v ∷ vs) = string_ltb last v ≡ true

is_sorted_unique-cons :
    (v : String) (vs : List String)
    → is_blank v ≡ false
    → is_sorted_unique vs ≡ true
    → Precedes (some v) vs
    → is_sorted_unique (v ∷ vs) ≡ true
unfolding is_sorted_unique
is_sorted_unique-cons v [] b s p = ground arith
is_sorted_unique-cons v (w ∷ ws) b s p = ground (arith, b, s, p)

IsOrdered-tail :
    (v : String) (vs : List String) → IsOrdered string_ltb (v ∷ vs) → IsOrdered string_ltb vs
IsOrdered-tail v [] o = tt
IsOrdered-tail v (w ∷ ws) o = o.1

Follows-head : (v : String) (vs : List String) → IsOrdered string_ltb (v ∷ vs) → Follows (some v) vs
Follows-head v [] o = tt
Follows-head v (w ∷ ws) o = o.0

pub ne_empty : (v : String) → is_blank v ≡ false → (v != "") ≡ true
unfolding is_blank
ne_empty v b = elim (Bool-cases (v == "")) [
  | inl e ↦ absurd (cc (rw (eq_of_beq v "" e) at b))
  | inr e ↦ rw e refl
]

less_of_new : (l v : String) → string_ltb v l ≡ false → (l != v) ≡ true → string_ltb l v ≡ true
less_of_new l v f n = elim (Bool-cases (string_ltb l v)) [
  | inl e ↦ e
  | inr e ↦
      let same = string_ltb_total l v e f in
      absurd (cc (n, subst (λ x. (l != x) ≡ false) same (ground (arith, beq_refl l))))
]

unique_loop-is_sorted :
    (last : Option String) (vs : List String)
    → All (λ v. (is_blank v ≡ false)) vs
    → IsOrdered string_ltb vs
    → Follows last vs
    → (is_sorted_unique (unique_loop last vs) ≡ true) × Precedes last (unique_loop last vs)
unfolding unique_loop is_sorted_unique
unique_loop-is_sorted none [] b o f = (refl, tt)
unique_loop-is_sorted (some l) [] b o f = (refl, tt)
unique_loop-is_sorted none (v ∷ vs) b o f =
    let (sorted, next) =
      unique_loop-is_sorted (some v) vs b.1 (IsOrdered-tail v vs o) (Follows-head v vs o) in
    rw (ne_empty v b.0) (is_sorted_unique-cons v (unique_loop (some v) vs) b.0 sorted next, tt)
unique_loop-is_sorted (some l) (v ∷ vs) b o f = elim (Bool-cases (l != v)) [
  | inl e ↦
      let (sorted, next) =
        unique_loop-is_sorted (some v) vs b.1 (IsOrdered-tail v vs o) (Follows-head v vs o) in
      rw (ne_empty v b.0, e)
        (is_sorted_unique-cons v (unique_loop (some v) vs) b.0 sorted next, less_of_new l v f e)
  | inr e ↦
      let same = eq_of_not-ne l v e in
      rw (ne_empty v b.0, e)
        (unique_loop-is_sorted (some l) vs b.1 (IsOrdered-tail v vs o)
          (subst (λ x. Follows (some x) vs) (sym same) (Follows-head v vs o)))
]

-- Where no value is blank, what sortedUnique returns passes isSortedUnique.
pub sorted_unique-is_sorted_unique :
    (vs : List String)
    → All (λ v. is_blank v ≡ false) vs
    → is_sorted_unique (sorted_unique vs) ≡ true
unfolding sorted_unique
sorted_unique-is_sorted_unique vs b =
    (unique_loop-is_sorted none (sort_by string_ltb vs)
      (All-sort_by (λ v. is_blank v ≡ false) string_ltb vs b)
      (sort_by-IsOrdered string_ltb string_ltb_asym vs) tt).0
