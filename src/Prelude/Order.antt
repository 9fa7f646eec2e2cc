-- ===== src/Prelude/Order.antt =====
-- Package sort: insertion sorts over a test `less`, what it takes to order, and Go's order of strings.
pub mod Chain
use Prim.Native.Nat.{ℕ, zero, suc, ◌+◌, Ordering, compare as compare_nat}
use Prim.Native.Nat.compare as compare_nat
use Prim.Native.Char.{code}
use Prim.Native.String.{String, compare as compare_string, then as first_of}
use Prim.Native.String.compare as compare_string
use mathlib.Core.Path.{◌≡◌, refl}
use mathlib.Core.Logic.{◌⊎◌, inl, inr}
use mathlib.Core.Bool.{Bool, true, false, ◌&&◌}
use mathlib.Core.List.{List, [], ◌∷◌, ◌++◌}
use native.Mathlib.Omega.{arith}
use text.Mathlib.TextEquality.{path_by_compare}
use agent_memory_system.Prelude.Tests.{string_ltb, ltb, nat_eq, ◌==◌, Bool-cases, if◌then◌else◌}
use agent_memory_system.Prelude.Lists.{length, All}

module _ {ℓ} {A : Type ℓ} where
  -- No element is less than the one before it.
  abbrev pub IsOrdered : (A → A → Bool) → List A → Type 0
  IsOrdered less [] = Unit
  IsOrdered less (x ∷ []) = Unit
  IsOrdered less (x ∷ y ∷ ys) = (less y x ≡ false) × IsOrdered less (y ∷ ys)

  -- Every element is less than the one behind it.
  abbrev pub IsStrict : (A → A → Bool) → List A → Type 0
  IsStrict less [] = Unit
  IsStrict less (x ∷ []) = Unit
  IsStrict less (x ∷ y ∷ ys) = (less x y ≡ true) × IsStrict less (y ∷ ys)

  abbrev pub IsAsymmetric : (A → A → Bool) → Type ℓ
  IsAsymmetric less = (x y : A) → less x y ≡ true → less y x ≡ false

  unfoldable pub insert_by : (A → A → Bool) → A → List A → List A
  insert_by less x [] = x ∷ []
  insert_by less x (y ∷ ys) =
      let rest = insert_by less x ys in if less y x then y ∷ rest else x ∷ y ∷ ys

  -- `sort.Slice`.
  unfoldable pub sort_by : (A → A → Bool) → List A → List A
  unfolding insert_by
  sort_by less [] = []
  sort_by less (x ∷ xs) = insert_by less x (sort_by less xs)

  pub All-insert_by {κ} :
      (P : A → Type κ) (less : A → A → Bool) (x : A) (xs : List A)
      → P x
      → All P xs
      → All P (insert_by less x xs)
  unfolding insert_by
  All-insert_by P less x [] p h = (p, tt)
  All-insert_by P less x (y ∷ ys) p h = elim (Bool-cases (less y x)) [
    | inl e ↦ rw e (h.0, All-insert_by P less x ys p h.1)
    | inr e ↦ rw e (p, h)
  ]

  pub All-sort_by {κ} :
      (P : A → Type κ) (less : A → A → Bool) (xs : List A) → All P xs → All P (sort_by less xs)
  unfolding sort_by
  All-sort_by P less [] h = tt
  All-sort_by P less (x ∷ xs) h =
      All-insert_by P less x (sort_by less xs) h.0 (All-sort_by P less xs h.1)

  length-insert_by :
      (less : A → A → Bool) (x : A) (xs : List A) → length (insert_by less x xs) ≡ suc (length xs)
  unfolding insert_by
  length-insert_by less x [] = refl
  length-insert_by less x (y ∷ ys) = ground (arith, length-insert_by less x ys)

  pub length-sort_by : (less : A → A → Bool) (xs : List A) → length (sort_by less xs) ≡ length xs
  unfolding sort_by
  length-sort_by less [] = refl
  length-sort_by less (x ∷ xs) =
      omega (arith, length-insert_by less x (sort_by less xs), length-sort_by less xs)

  insert_by-IsOrdered :
      (less : A → A → Bool)
      → IsAsymmetric less
      → (x : A) (xs : List A) → IsOrdered less xs
      → IsOrdered less (insert_by less x xs)
  unfolding insert_by
  insert_by-IsOrdered less a x [] h = tt
  insert_by-IsOrdered less a x (y ∷ []) h = elim (Bool-cases (less y x)) [
    | inl e ↦ rw e (a y x e, tt)
    | inr e ↦ rw e (e, tt)
  ]
  insert_by-IsOrdered less a x (y ∷ z ∷ zs) h =
      let rest = insert_by-IsOrdered less a x (z ∷ zs) h.1 in
      elim (Bool-cases (less y x)) [
        | inl e ↦ elim (Bool-cases (less z x)) [
          | inl f ↦ rw (e, f) (h.0, rw f at rest)
          | inr f ↦ rw (e, f) (a y x e, rw f at rest)
        ]
        | inr e ↦ rw e (e, h)
      ]

  -- A sorted list is in order.
  pub sort_by-IsOrdered :
      (less : A → A → Bool) → IsAsymmetric less → (xs : List A) → IsOrdered less (sort_by less xs)
  unfolding sort_by
  sort_by-IsOrdered less a [] = tt
  sort_by-IsOrdered less a (x ∷ xs) =
      insert_by-IsOrdered less a x (sort_by less xs) (sort_by-IsOrdered less a xs)

abbrev flip : Ordering → Ordering
flip Ordering.lt = Ordering.gt
flip Ordering.eq = Ordering.eq
flip Ordering.gt = Ordering.lt

flip-compare : (m n : ℕ) → compare_nat n m ≡ flip (compare_nat m n)
flip-compare zero zero = refl
flip-compare zero (suc n) = rw (compare_nat.zero-suc n, compare_nat.suc-zero n) refl
flip-compare (suc m) zero = rw (compare_nat.zero-suc m, compare_nat.suc-zero m) refl
flip-compare (suc m) (suc n) =
    rw (compare_nat.suc-suc m n, compare_nat.suc-suc n m) (flip-compare m n)

flip-then : (o p : Ordering) → flip (first_of o p) ≡ first_of (flip o) (flip p)
flip-then Ordering.lt p = refl
flip-then Ordering.eq p = refl
flip-then Ordering.gt p = refl

flip-compare_string : (s t : String) → compare_string t s ≡ flip (compare_string s t)
flip-compare_string String.[] String.[] = refl
flip-compare_string String.[] (String.◌∷◌ d t) =
    rw (compare_string.nil-cons d t, compare_string.cons-nil d t) refl
flip-compare_string (String.◌∷◌ c s) String.[] =
    rw (compare_string.nil-cons c s, compare_string.cons-nil c s) refl
flip-compare_string (String.◌∷◌ c s) (String.◌∷◌ d t) =
    rw
      (
        compare_string.cons-cons c d s t,
        compare_string.cons-cons d c t s,
        flip-then (compare_nat (code c) (code d)) (compare_string s t),
        flip-compare (code c) (code d),
        flip-compare_string s t,
      )
      refl

Ordering-cases : (o : Ordering) → (o ≡ Ordering.lt) ⊎ ((o ≡ Ordering.eq) ⊎ (o ≡ Ordering.gt))
Ordering-cases Ordering.lt = inl refl
Ordering-cases Ordering.eq = inr (inl refl)
Ordering-cases Ordering.gt = inr (inr refl)

pub string_ltb_asym : (s t : String) → string_ltb s t ≡ true → string_ltb t s ≡ false
string_ltb_asym s t h = elim (Ordering-cases (compare_string s t)) [
  | inl e ↦ rw (string_ltb, flip-compare_string s t, e) refl
  | inr (inl e) ↦ rw (string_ltb, flip-compare_string s t, e) refl
  | inr (inr e) ↦ absurd (cc (rw (string_ltb, e) at h))
]

-- Of two different strings one is less.
pub string_ltb_total : (s t : String) → string_ltb s t ≡ false → string_ltb t s ≡ false → s ≡ t
string_ltb_total s t h k = elim (Ordering-cases (compare_string s t)) [
  | inl e ↦ absurd (cc (rw (string_ltb, e) at h))
  | inr (inl e) ↦ path_by_compare s t e
  | inr (inr e) ↦ absurd (cc (rw (string_ltb, flip-compare_string s t, e) at k))
]
