-- ===== src/Retrieval/Terms.antt =====
-- The texts of internal/retrieval/search.go: lexical terms, their frequencies, normalised phrases and
-- the estimate of tokens. The tables of package unicode are the parameter `Unicode`.
use agent_memory_system.Prelude.{
  ℕ, suc, ◌+◌, ◌/◌, Bool, true, false, not, ◌&&◌, ◌||◌, List, [], ◌∷◌, ◌++◌, map, ◌≡◌, refl, ◌↔◌,
  Option, some, none, arith,
}
use agent_memory_system.Prelude.Tests.{
  Comparable, nat_eq, nat_beq_iff, ◌==◌, if◌then◌else◌, leb, ltb,
}
use agent_memory_system.Prelude.Lists.{elem, length}
use agent_memory_system.Prelude.Text.{runes, runes_eq, is_space, trim_space, after_prefix}

-- `unicode.ToLower`, `unicode.IsLetter`, `unicode.IsDigit`, and membership in the Han, Hiragana,
-- Katakana or Hangul tables.
pub record Unicode : Type 0 where
  pub to_lower : ℕ → ℕ
  pub is_letter : ℕ → Bool
  pub is_digit : ℕ → Bool
  pub is_cjk : ℕ → Bool

abbrev pub Term : Type 0
Term = List ℕ

pub runes_eq_iff : (s t : Term) → (runes_eq s t ≡ true) ↔ (s ≡ t)
unfolding runes_eq
runes_eq_iff [] [] = (λ h. refl, λ h. refl)
runes_eq_iff [] (d ∷ ds) = (λ h. cc, λ h. cc)
runes_eq_iff (c ∷ cs) [] = (λ h. cc, λ h. cc)
runes_eq_iff (c ∷ cs) (d ∷ ds) = ground (arith, nat_beq_iff c d, runes_eq_iff cs ds)

instance abbrev pub term_eq : Comparable Term
term_eq = record { same = runes_eq; same_iff = runes_eq_iff }

-- `<` on two such strings.
unfoldable pub term_ltb : Term → Term → Bool
term_ltb s [] = false
term_ltb [] (d ∷ ds) = true
term_ltb (c ∷ cs) (d ∷ ds) = let rest = term_ltb cs ds in ltb c d || (c == d && rest)

abbrev pub ignored_terms : List Term
unfolding runes
ignored_terms = map runes (
    "a" ∷ "an" ∷ "and" ∷ "are" ∷ "as" ∷ "at" ∷ "be" ∷ "by" ∷ "for" ∷ "from" ∷ "in" ∷ "is" ∷ "it"
    ∷ "of" ∷ "on" ∷ "or" ∷ "that" ∷ "the" ∷ "this" ∷ "to" ∷ "with" ∷ "一个" ∷ "以及" ∷ "可以" ∷ "应该"
    ∷ "这个" ∷ "需要" ∷ [])

unfoldable pub ignored_term : Term → Bool
unfolding elem runes_eq
ignored_term term = elem term ignored_terms

unfoldable pub add_term : List Term → Term → List Term
unfolding ignored_term
add_term terms term = if ignored_term term then terms else terms ++ (term ∷ [])

-- `flushWord`.
unfoldable pub flush_word : List Term → List ℕ → List Term
unfolding add_term
flush_word terms [] = terms
flush_word terms (c ∷ cs) = add_term terms (c ∷ cs)

-- The windows of two runes.
unfoldable pub add_pairs : List Term → List ℕ → List Term
unfolding add_term
add_pairs terms (c ∷ d ∷ cs) = add_pairs (add_term terms (c ∷ d ∷ [])) (d ∷ cs)
add_pairs terms _ = terms

-- `flushCJK`.
unfoldable pub flush_cjk : List Term → List ℕ → List Term
unfolding add_term add_pairs
flush_cjk terms [] = terms
flush_cjk terms (c ∷ []) = add_term terms (c ∷ [])
flush_cjk terms (c ∷ d ∷ cs) = add_pairs terms (c ∷ d ∷ cs)

-- The variables of the loop of `lexicalTerms`.
pub record Lexer : Type 0 where
  pub terms : List Term
  pub word : List ℕ
  pub cjk : List ℕ

module _ (u : Unicode) where
  unfoldable pub read_rune : Lexer → ℕ → Lexer
  unfolding flush_word flush_cjk
  read_rune l c =
      if u.is_cjk c
      then record { terms = flush_word l.terms l.word; word = []; cjk = l.cjk ++ (c ∷ []) }
      else if u.is_letter c || u.is_digit c
      then record { terms = flush_cjk l.terms l.cjk; word = l.word ++ (c ∷ []); cjk = [] }
      else record { terms = flush_word (flush_cjk l.terms l.cjk) l.word; word = []; cjk = [] }

  unfoldable pub read_runes : Lexer → List ℕ → Lexer
  unfolding read_rune
  read_runes l [] = l
  read_runes l (c ∷ cs) = read_runes (read_rune l c) cs

  abbrev pub start : List Term → Lexer
  start terms = record { terms = terms; word = []; cjk = [] }

  unfoldable pub finish : Lexer → List Term
  unfolding flush_word flush_cjk
  finish l = flush_cjk (flush_word l.terms l.word) l.cjk

  unfoldable pub lexical_terms : List ℕ → List Term
  unfolding read_runes finish
  lexical_terms value = finish (read_runes (start []) (map u.to_lower value))

  -- The loop of `normalizePhrase`: the builder, and whether its last rune is a space.
  unfoldable pub write_phrase : List ℕ → Bool → List ℕ → List ℕ
  write_phrase builder space [] = builder
  write_phrase builder space (c ∷ cs) =
      let kept = u.is_letter c || u.is_digit c in
      let add = not space && ltb 0 (length builder) in
      write_phrase (builder ++ (if kept then c ∷ [] else if add then 32 ∷ [] else []))
        (if kept then false else if add then true else space) cs

  unfoldable pub normalize_phrase : List ℕ → List ℕ
  unfolding write_phrase trim_space
  normalize_phrase value = trim_space (write_phrase [] false (map u.to_lower value))

-- `map[string]int`.
abbrev pub Frequencies : Type 0
Frequencies = List (Term × ℕ)

unfoldable pub frequency_of : Term → Frequencies → ℕ
unfolding runes_eq
frequency_of term [] = 0
frequency_of term ((t, n) ∷ fs) = let rest = frequency_of term fs in if term == t then n else rest

unfoldable pub count_term : Term → Frequencies → Frequencies
unfolding runes_eq
count_term term [] = (term, 1) ∷ []
count_term term ((t, n) ∷ fs) =
    let rest = count_term term fs in if term == t then (t, suc n) ∷ fs else (t, n) ∷ rest

unfoldable pub count_terms : Frequencies → List Term → Frequencies
unfolding count_term
count_terms fs [] = fs
count_terms fs (t ∷ ts) = count_terms (count_term t fs) ts

-- `frequencies`.
unfoldable pub frequencies : List Term → Frequencies
unfolding count_terms
frequencies = count_terms []

abbrev is_some : Option Term → Bool
is_some none = false
is_some (some t) = true

-- `strings.Contains`.
unfoldable pub contains : List ℕ → List ℕ → Bool
unfolding after_prefix
contains part [] = is_some (after_prefix part [])
contains part (c ∷ cs) = is_some (after_prefix part (c ∷ cs)) || contains part cs

-- A letter or a digit up to `unicode.MaxASCII`.
unfoldable pub is_ascii_word : ℕ → Bool
is_ascii_word c =
    (leb b'0' c && leb c b'9') || (leb b'A' c && leb c b'Z') || (leb b'a' c && leb c b'z')

-- `flushASCII`.
abbrev pub flush_ascii : ℕ → ℕ → ℕ
flush_ascii count run = count + (run + 3) / 4

-- The loop of `estimateTokens`, with its `count` and `asciiRun`.
unfoldable pub count_tokens : ℕ → ℕ → List ℕ → ℕ
unfolding is_ascii_word is_space
count_tokens count run [] = flush_ascii count run
count_tokens count run (c ∷ cs) =
    let word = is_ascii_word c in
    let weight = if is_space c then 0 else if ltb 127 c then 2 else 1 in
    count_tokens (if word then count else flush_ascii count run + weight)
      (if word then suc run else 0) cs

-- `estimateTokens`.
unfoldable pub estimate_tokens : List ℕ → ℕ
unfolding count_tokens
estimate_tokens [] = 0
estimate_tokens (c ∷ cs) = let count = count_tokens 0 0 (c ∷ cs) in if count == 0 then 1 else count
