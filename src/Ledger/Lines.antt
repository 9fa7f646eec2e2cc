-- ===== src/Ledger/Lines.antt =====
-- The lines that `reader.ReadBytes('\n')` hands to the loops of internal/ledger/ledger.go.
use mathlib.Core.List.{reverse, reverse-append, reverse-cons, reverse-reverse}
use agent_memory_system.Prelude.{
  ℕ, ◌≡◌, refl, ap, ◌∙◌, Bool, true, false, List, [], ◌∷◌, ◌++◌, arith, sym, inl, inr,
}
use agent_memory_system.Prelude.Tests.{nat_eq, Bool-cases, ◌==◌, if◌then◌else◌}
use agent_memory_system.Prelude.Text.{
  is_space, is_space_1, is_space_2, is_space_3, first_space, last_space, skip_spaces, trim_bytes,
}

abbrev pub newline : ℕ
newline = 10

-- A byte in front of the first line.
push : ℕ → List (List ℕ) → List (List ℕ)
push c [] = (c ∷ []) ∷ []
push c (l ∷ ls) = (c ∷ l) ∷ ls

-- The results of `ReadBytes('\n')` until the end of the file: each line ends in a newline, but for
-- a last one that the file leaves incomplete.
unfoldable pub split_lines : List ℕ → List (List ℕ)
unfolding push
split_lines [] = []
split_lines (c ∷ cs) =
    let rest = split_lines cs in if c == newline then (c ∷ []) ∷ rest else push c rest

-- `line[len(line)-1] == '\n'`.
unfoldable pub ends_line : List ℕ → Bool
ends_line [] = false
ends_line (c ∷ []) = c == newline
ends_line (c ∷ d ∷ cs) = ends_line (d ∷ cs)

unfoldable pub has_newline : List ℕ → Bool
has_newline [] = false
has_newline (c ∷ cs) = if c == newline then true else has_newline cs

-- A text without newlines, and a newline, is the first line.
pub split_lines-append :
    (l cs : List ℕ)
    → has_newline l ≡ false
    → split_lines (l ++ newline ∷ cs) ≡ (l ++ newline ∷ []) ∷ split_lines cs
unfolding split_lines has_newline
split_lines-append [] cs h = refl
split_lines-append (c ∷ l) cs h = ground (arith, split_lines-append l cs)

pub ends_line-append : (l : List ℕ) → ends_line (l ++ newline ∷ []) ≡ true
unfolding ends_line
ends_line-append [] = refl
ends_line-append (c ∷ []) = refl
ends_line-append (c ∷ d ∷ l) = ends_line-append (d ∷ l)

first_space-object : (cs : List ℕ) → first_space (b'{' ∷ cs) ≡ 0
unfolding first_space is_space_1 is_space_2 is_space_3 is_space
first_space-object [] = refl
first_space-object (d ∷ []) = refl
first_space-object (d ∷ e ∷ cs) = refl

is_space_2-brace : (c : ℕ) → is_space_2 c b'}' ≡ false
unfolding is_space_2
is_space_2-brace c = ground arith

is_space_3-brace : (c d : ℕ) → is_space_3 c d b'}' ≡ false
unfolding is_space_3
is_space_3-brace c d = ground arith

last_space-object : (cs : List ℕ) → last_space (b'}' ∷ cs) ≡ 0
unfolding last_space is_space_1 is_space
last_space-object [] = refl
last_space-object (d ∷ []) = rw (is_space_2-brace d) refl
last_space-object (d ∷ e ∷ cs) = rw (is_space_2-brace d, is_space_3-brace e d) refl

last_space-newline : (cs : List ℕ) → last_space (newline ∷ cs) ≡ 1
unfolding last_space is_space_1 is_space_2 is_space_3 is_space
last_space-newline [] = refl
last_space-newline (d ∷ []) = refl
last_space-newline (d ∷ e ∷ cs) = refl

module _ (size : List ℕ → ℕ) (c : ℕ) (cs : List ℕ) where
  skip_spaces_none : size (c ∷ cs) ≡ 0 → skip_spaces size 0 (c ∷ cs) ≡ c ∷ cs
  unfolding skip_spaces
  skip_spaces_none h = rw (skip_spaces, h) refl

  skip_spaces_one : size (c ∷ cs) ≡ 1 → skip_spaces size 0 (c ∷ cs) ≡ skip_spaces size 0 cs
  unfolding skip_spaces
  skip_spaces_one h = rw (skip_spaces, h) refl

-- An object's text keeps its braces when the newline behind it is trimmed.
pub trim_bytes-object :
    (mid : List ℕ)
    → trim_bytes (((b'{' ∷ mid) ++ b'}' ∷ []) ++ newline ∷ []) ≡ (b'{' ∷ mid) ++ b'}' ∷ []
unfolding trim_bytes
trim_bytes-object mid =
    let object : List ℕ = (b'{' ∷ mid) ++ b'}' ∷ [] in
    let front : List ℕ = (mid ++ b'}' ∷ []) ++ newline ∷ [] in
    let back = reverse (b'{' ∷ mid) in
    ap (λ (l : List ℕ). reverse (skip_spaces last_space 0 (reverse l)))
      (skip_spaces_none first_space b'{' front (first_space-object front))
    ∙ ap (λ (l : List ℕ). reverse (skip_spaces last_space 0 l))
        (reverse-append object (newline ∷ []))
    ∙ ap (λ (l : List ℕ). reverse (skip_spaces last_space 0 (newline ∷ l)))
        (reverse-append (b'{' ∷ mid) (b'}' ∷ []))
    ∙ ap reverse (
        skip_spaces_one last_space newline (b'}' ∷ back) (last_space-newline (b'}' ∷ back))
        ∙ skip_spaces_none last_space b'}' back (last_space-object back))
    ∙ reverse-cons b'}' back
    ∙ ap (λ (l : List ℕ). l ++ b'}' ∷ []) (reverse-reverse (b'{' ∷ mid))

-- Every line is complete.
unfoldable pub AllEnd : List (List ℕ) → Type 0
AllEnd [] = Unit
AllEnd (l ∷ ls) = (ends_line l ≡ true) × AllEnd ls

-- No line is empty.
AllNonempty : List (List ℕ) → Type 0
AllNonempty [] = Unit
AllNonempty ([] ∷ ls) = ⊥
AllNonempty ((c ∷ l) ∷ ls) = AllNonempty ls

split_lines-AllNonempty : (cs : List ℕ) → AllNonempty (split_lines cs)
unfolding split_lines AllNonempty
split_lines-AllNonempty [] = tt
split_lines-AllNonempty (c ∷ cs) = go (c == newline) (split_lines cs) (split_lines-AllNonempty cs)
  where
    go :
        (b : Bool) (ls : List (List ℕ))
        → AllNonempty ls
        → AllNonempty (if b then (c ∷ []) ∷ ls else push c ls)
    go true ls h = h
    go false [] h = tt
    go false ([] ∷ ls) h = elim h [ ]
    go false ((d ∷ l) ∷ ls) h = h

push-append :
    (c : ℕ) (ls ks : List (List ℕ))
    → (c == newline) ≡ false
    → AllNonempty ls
    → AllEnd (push c ls)
    → (push c ls ++ ks ≡ push c (ls ++ ks)) × AllEnd ls
unfolding push ends_line AllEnd AllNonempty
push-append c [] ks h w e = cc (h, e.0)
push-append c ([] ∷ ls) ks h w e = elim w [ ]
push-append c ((d ∷ l) ∷ ls) ks h w e = (refl, e)

-- What is appended to complete lines is split as if it stood alone.
pub split_lines_append_complete :
    (cs ds : List ℕ)
    → AllEnd (split_lines cs)
    → split_lines (cs ++ ds) ≡ split_lines cs ++ split_lines ds
unfolding split_lines AllEnd
split_lines_append_complete [] ds h = refl
split_lines_append_complete (c ∷ cs) ds h = elim (Bool-cases (c == newline)) [
  | inl e ↦
      rw e (
        ap (λ (ls : List (List ℕ)). (c ∷ []) ∷ ls)
          (split_lines_append_complete cs ds (rw e at h).1))
  | inr e ↦
      let (moved, complete) =
        push-append c (split_lines cs) (split_lines ds) e (split_lines-AllNonempty cs)
          (rw e at h) in
      rw e (ap (push c) (split_lines_append_complete cs ds complete) ∙ sym moved)
]
