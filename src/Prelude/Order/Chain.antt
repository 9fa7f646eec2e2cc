-- ===== src/Prelude/Order/Chain.antt =====
-- Sorted lists of comparable elements: every element is less than all that follow.
use Prim.Native.Nat.{ℕ, Ordering, compare as compare_nat}
use Prim.Native.Char.{Char, code}
use Prim.Native.String.{String, compare as compare_string, then as first_of}
use Prim.Native.String.compare as compare_string
use mathlib.Core.Path.{◌≡◌, refl, ap, sym, ◌∙◌}
use mathlib.Core.Logic.{◌⊎◌, inl, inr}
use mathlib.Core.Bool.{Bool, true, false, ◌&&◌, ◌||◌}
use mathlib.Core.List.{List, [], ◌∷◌, ◌++◌}
use native.Mathlib.Omega.{arith}
use agent_memory_system.Prelude.Tests.{string_ltb, ltb, nat_eq, ◌==◌, Bool-cases}
use agent_memory_system.Prelude.Lists.{All}
use agent_memory_system.Prelude.Order.{insert_by, sort_by, All-insert_by, All-sort_by}

module _ {ℓ} {A : Type ℓ} where
  -- A relation between each element and those behind it.
  abbrev pub IsPairwise {κ} : (A → A → Type κ) → List A → Type κ
  IsPairwise R [] = Unit
  IsPairwise R (x ∷ xs) = All (R x) xs × IsPairwise R xs

  pub All-concat {κ} :
      (P : A → Type κ) (xs : List A) (y : A) → All P xs → P y → All P (xs ++ (y ∷ []))
  All-concat P [] y h p = (p, tt)
  All-concat P (x ∷ xs) y h p = (h.0, All-concat P xs y h.1 p)

  pub IsPairwise-concat {κ} :
      (R : A → A → Type κ) (xs : List A) (y : A)
      → IsPairwise R xs
      → All (λ x. R x y) xs
      → IsPairwise R (xs ++ (y ∷ []))
  IsPairwise-concat R [] y p h = (tt, tt)
  IsPairwise-concat R (x ∷ xs) y p h =
      (All-concat (R x) xs y p.0 h.0, IsPairwise-concat R xs y p.1 h.1)

  pub All-map {κ λ'} :
      {P : A → Type κ} {Q : A → Type λ'}
      → ((x : A) → P x → Q x)
      → (xs : List A) → All P xs
      → All Q xs
  All-map f [] h = tt
  All-map f (x ∷ xs) h = (f x h.0, All-map f xs h.1)

  pub All-both {κ λ'} :
      (P : A → Type κ) (Q : A → Type λ') (xs : List A)
      → All P xs
      → All Q xs
      → All (λ x. P x × Q x) xs
  All-both P Q [] h k = tt
  All-both P Q (x ∷ xs) h k = ((h.0, k.0), All-both P Q xs h.1 k.1)

  insert_by-IsPairwise {κ} :
      (R : A → A → Type κ)
      → ((x y : A) → R x y → R y x)
      → (less : A → A → Bool) (x : A) (ys : List A) → All (R x) ys
      → IsPairwise R ys
      → IsPairwise R (insert_by less x ys)
  unfolding insert_by
  insert_by-IsPairwise R flip less x [] h p = (tt, tt)
  insert_by-IsPairwise R flip less x (y ∷ ys) h p = elim (Bool-cases (less y x)) [
    | inl e ↦
        rw (insert_by, e)
          (
            All-insert_by (R y) less x ys (flip x y h.0) p.0,
            insert_by-IsPairwise R flip less x ys h.1 p.1,
          )
    | inr e ↦ rw (insert_by, e) (h, p)
  ]

  -- Sorting keeps a symmetric relation between any two elements.
  pub sort_by-IsPairwise {κ} :
      (R : A → A → Type κ)
      → ((x y : A) → R x y → R y x)
      → (less : A → A → Bool) (xs : List A) → IsPairwise R xs
      → IsPairwise R (sort_by less xs)
  unfolding sort_by
  sort_by-IsPairwise R flip less [] p = tt
  sort_by-IsPairwise R flip less (x ∷ xs) p =
      insert_by-IsPairwise R flip less x (sort_by less xs) (All-sort_by (R x) less xs p.0)
        (sort_by-IsPairwise R flip less xs p.1)

  -- Two relations at once.
  pub IsPairwise-both {κ λ'} :
      (R : A → A → Type κ) (Q : A → A → Type λ') (xs : List A)
      → IsPairwise R xs
      → IsPairwise Q xs
      → IsPairwise (λ x y. R x y × Q x y) xs
  IsPairwise-both R Q [] h k = tt
  IsPairwise-both R Q (x ∷ xs) h k =
      (All-both (R x) (Q x) xs h.0 k.0, IsPairwise-both R Q xs h.1 k.1)

  pub IsPairwise-map {κ λ'} :
      {R : A → A → Type κ} {Q : A → A → Type λ'}
      → ((x y : A) → R x y → Q x y)
      → (xs : List A) → IsPairwise R xs
      → IsPairwise Q xs
  IsPairwise-map f [] h = tt
  IsPairwise-map f (x ∷ xs) h = (All-map (f x) xs h.0, IsPairwise-map f xs h.1)

  abbrev pub IsTransitive : (A → A → Bool) → Type ℓ
  IsTransitive less = (x y z : A) → less x y ≡ true → less y z ≡ true → less x z ≡ true

  abbrev pub Comparables : (A → A → Bool) → A → A → Type 0
  Comparables less x y = (less x y ≡ true) ⊎ (less y x ≡ true)

  less_of_comparable :
      (less : A → A → Bool) (x y : A) → Comparables less x y → less y x ≡ false → less x y ≡ true
  less_of_comparable less x y (inl h) e = h
  less_of_comparable less x y (inr h) e = cc (h, e)

  insert_by-chain :
      (less : A → A → Bool)
      → IsTransitive less
      → (x : A) (ys : List A) → IsPairwise (λ a b. less a b ≡ true) ys
      → All (Comparables less x) ys
      → IsPairwise (λ a b. less a b ≡ true) (insert_by less x ys)
  unfolding insert_by
  insert_by-chain less t x [] p c = (tt, tt)
  insert_by-chain less t x (y ∷ ys) p c = elim (Bool-cases (less y x)) [
    | inl e ↦
        rw (insert_by, e)
          (
            All-insert_by (λ b. less y b ≡ true) less x ys e p.0,
            insert_by-chain less t x ys p.1 c.1,
          )
    | inr e ↦
        let first = less_of_comparable less x y c.0 e in
        rw (insert_by, e) ((first, All-map (λ b h. t x y b first h) ys p.0), p)
  ]

  -- Sorting elements any two of which are comparable gives a chain.
  pub sort_by-chain :
      (less : A → A → Bool)
      → IsTransitive less
      → (xs : List A) → IsPairwise (Comparables less) xs
      → IsPairwise (λ a b. less a b ≡ true) (sort_by less xs)
  unfolding sort_by
  sort_by-chain less t [] c = tt
  sort_by-chain less t (x ∷ xs) c =
      insert_by-chain less t x (sort_by less xs) (sort_by-chain less t xs c.1)
        (All-sort_by (Comparables less x) less xs c.0)

abbrev is_lt : Ordering → Bool
is_lt o = elim o [ Ordering.lt ↦ true | _ ↦ false ]

abbrev is_eq : Ordering → Bool
is_eq o = elim o [ Ordering.eq ↦ true | _ ↦ false ]

is_lt-first_of : (o p : Ordering) → is_lt (first_of o p) ≡ (is_lt o || (is_eq o && is_lt p))
is_lt-first_of Ordering.lt p = refl
is_lt-first_of Ordering.eq p = refl
is_lt-first_of Ordering.gt p = refl

both_less :
    (a b c : ℕ) (p q r : Bool)
    → (p ≡ true → q ≡ true → r ≡ true)
    → (ltb a b || (a == b && p)) ≡ true
    → (ltb b c || (b == c && q)) ≡ true
    → (ltb a c || (a == c && r)) ≡ true
both_less a b c p q r f h k = ground arith

string_ltb-cons :
    (c d : Char) (s t : String)
    → string_ltb (String.◌∷◌ c s) (String.◌∷◌ d t)
      ≡ (ltb (code c) (code d) || (code c == code d && string_ltb s t))
string_ltb-cons c d s t =
    ap is_lt (λ i. compare_string.cons-cons c d s t i)
    ∙ is_lt-first_of (compare_nat (code c) (code d)) (compare_string s t)

nothing_less : (c : Char) (s : String) → string_ltb (String.◌∷◌ c s) String.[] ≡ false
nothing_less c s = rw (string_ltb, compare_string.cons-nil c s) refl

pub string_ltb_trans :
    (s t v : String) → string_ltb s t ≡ true → string_ltb t v ≡ true → string_ltb s v ≡ true
string_ltb_trans String.[] String.[] v h k = k
string_ltb_trans String.[] (String.◌∷◌ d t) String.[] h k = cc (k, nothing_less d t)
string_ltb_trans String.[] (String.◌∷◌ d t) (String.◌∷◌ e v) h k =
    rw (string_ltb, compare_string.nil-cons e v) refl
string_ltb_trans (String.◌∷◌ c s) String.[] v h k = cc (h, nothing_less c s)
string_ltb_trans (String.◌∷◌ c s) (String.◌∷◌ d t) String.[] h k = cc (k, nothing_less d t)
string_ltb_trans (String.◌∷◌ c s) (String.◌∷◌ d t) (String.◌∷◌ e v) h k =
    string_ltb-cons c e s v
    ∙ both_less (code c) (code d) (code e) (string_ltb s t) (string_ltb t v) (string_ltb s v)
        (string_ltb_trans s t v) (sym (string_ltb-cons c d s t) ∙ h)
        (sym (string_ltb-cons d e t v) ∙ k)
