-- ===== src/Prelude/Tests.antt =====
-- Boolean tests as Go writes them: `==` by an instance, `<`, `<=`, `if`, and splits on their values.
use Prim.Native.Nat.{ℕ, ◌≤◌, ◌<◌, compare, Ordering}
use Prim.Native.String.{String, compare as compare_string}
use mathlib.Core.Path.{◌≡◌, refl, subst}
use mathlib.Core.Logic.{◌≢◌, ◌↔◌, ◌⊎◌, inl, inr}
use mathlib.Core.Bool.{Bool, true, false, not, ◌&&◌, ◌||◌}
use mathlib.Core.Option.{Option, none, some}
use native.Mathlib.Omega.{arith}
use text.Mathlib.Text.{◌==◌ as str_eq}
use text.Mathlib.TextEquality.{eq_iff as str_eq_iff}

abbrev pub ltb : ℕ → ℕ → Bool
ltb a b = elim (compare a b) [ Ordering.lt ↦ true | _ ↦ false ]

abbrev pub leb : ℕ → ℕ → Bool
leb a b = elim (compare a b) [ Ordering.gt ↦ false | _ ↦ true ]

abbrev pub nat_beq : ℕ → ℕ → Bool
nat_beq a b = elim (compare a b) [ Ordering.eq ↦ true | _ ↦ false ]

-- `<` on Go strings: the order of code points is the order of the bytes.
abbrev pub string_ltb : String → String → Bool
string_ltb a b = elim (compare_string a b) [ Ordering.lt ↦ true | _ ↦ false ]

infix 1 if◌then◌else◌
abbrev pub if◌then◌else◌ {ℓ} : {A : Type ℓ} → Bool → A → A → A
if true then x else y = x
if false then x else y = y

pub leb→le : (a b : ℕ) → leb a b ≡ true → a ≤ b
leb→le a b h = ground arith

pub ltb→lt : (a b : ℕ) → ltb a b ≡ true → a < b
ltb→lt a b h = ground arith

pub nat_beq_iff : (a b : ℕ) → (nat_beq a b ≡ true) ↔ (a ≡ b)
nat_beq_iff a b = ground arith

pub Bool-cases : (b : Bool) → (b ≡ true) ⊎ (b ≡ false)
Bool-cases true = inl refl
Bool-cases false = inr refl

pub Option-cases {ℓ} : {A : Type ℓ} (o : Option A) → (o ≡ none) ⊎ ((a : A) × (o ≡ some a))
Option-cases none = inl refl
Option-cases (some a) = inr (a, refl)

pub some-injective {ℓ} : {A : Type ℓ} {a b : A} → some a ≡ some b → a ≡ b
some-injective h = cc h

pub and-true : (a b : Bool) → (a && b) ≡ true → (a ≡ true) × (b ≡ true)
and-true a b h = ground arith

pub or-false : (a b : Bool) → (a || b) ≡ false → (a ≡ false) × (b ≡ false)
or-false a b h = ground arith

-- Types that Go compares with `==`.
pub record Comparable {κ} (B : Type κ) : Type κ where
  pub same : B → B → Bool
  pub same_iff : (x y : B) → (same x y ≡ true) ↔ (x ≡ y)

instance abbrev pub string_eq : Comparable String
string_eq = record { same = str_eq; same_iff = str_eq_iff }

instance abbrev pub nat_eq : Comparable ℕ
nat_eq = record { same = nat_beq; same_iff = nat_beq_iff }

infix 50 ◌==◌ ◌!=◌
abbrev pub ◌!=◌ {κ} : {B : Type κ} ⦃c : Comparable B⦄ → B → B → Bool
◌!=◌ ⦃c⦄ x y = not (c.same x y)

abbrev pub ◌==◌ {κ} : {B : Type κ} ⦃c : Comparable B⦄ → B → B → Bool
◌==◌ ⦃c⦄ = c.same

module _ {ℓ} {A : Type ℓ} ⦃e : Comparable A⦄ where
  pub eq_of_beq : (a b : A) → (a == b) ≡ true → a ≡ b
  eq_of_beq a b = (e.same_iff a b).0

  pub beq_refl : (a : A) → (a == a) ≡ true
  beq_refl a = (e.same_iff a a).1 refl

  pub eq_of_not-ne : (a b : A) → (a != b) ≡ false → a ≡ b
  eq_of_not-ne a b h = (e.same_iff a b).0 (ground arith)

  pub ne_self : (a : A) → (a != a) ≡ false
  ne_self a = ground (arith, beq_refl a)

  pub unchanged : {a b : A} → a ≡ b → (a != b) ≡ false
  unchanged {a = a} e = subst (λ x. (a != x) ≡ false) e (ne_self a)

  pub differ_of_beq : (a b : A) → (a == b) ≡ false → a ≢ b
  differ_of_beq a b h e = cc (h, subst (λ x. (a == x) ≡ true) e (beq_refl a))

-- Chains of tests that all hold, or of which none does.
infixl 6 ◌andalso◌ ◌orelse◌
abbrev pub ◌andalso◌ : {a b : Bool} → a ≡ true → b ≡ true → (a && b) ≡ true
h andalso k = rw (h, k) refl

abbrev pub ◌orelse◌ : {a b : Bool} → a ≡ false → b ≡ false → (a || b) ≡ false
h orelse k = rw (h, k) refl

pub negated : {b : Bool} → b ≡ true → not b ≡ false
negated h = rw h refl

pub true_of_not : (b : Bool) → not b ≡ false → b ≡ true
true_of_not true h = refl
true_of_not false h = cc h
