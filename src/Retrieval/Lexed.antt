-- ===== src/Retrieval/Lexed.antt =====
-- What lexical terms and their frequencies are.
use agent_memory_system.Prelude.{
  ℕ, ◌≤◌, true, false, ◌||◌, List, [], ◌∷◌, map, ◌≡◌, ◌≢◌, refl, inl, inr, arith, sym,
}
use agent_memory_system.Prelude.Tests.{nat_eq, ◌==◌, Bool-cases, eq_of_beq, beq_refl, differ_of_beq}
use agent_memory_system.Prelude.Lists.{All, all}
use agent_memory_system.Prelude.Order.Chain.{
  IsPairwise, All-concat, All-map, IsTransitive, Comparables,
}
use agent_memory_system.Prelude.Text.{is_space}
use agent_memory_system.Retrieval.Terms.{
  Unicode, Term, term_eq, term_ltb, ignored_term, add_term, flush_word, add_pairs, flush_cjk, Lexer,
  read_rune, read_runes, start, finish, lexical_terms, Frequencies, frequency_of, count_term,
  count_terms, frequencies,
}

pub term_ltb_trans : IsTransitive term_ltb
unfolding term_ltb
term_ltb_trans s t [] h k = cc k
term_ltb_trans s [] (d ∷ ds) h k = cc h
term_ltb_trans [] (c ∷ cs) (d ∷ ds) h k = refl
term_ltb_trans (b ∷ bs) (c ∷ cs) (d ∷ ds) h k = ground (arith, term_ltb_trans bs cs ds)

pub term_ltb_total : (s t : Term) → s ≢ t → Comparables term_ltb s t
unfolding term_ltb
term_ltb_total [] [] h = absurd (h refl)
term_ltb_total [] (d ∷ ds) h = inl refl
term_ltb_total (c ∷ cs) [] h = inr refl
term_ltb_total (c ∷ cs) (d ∷ ds) h = elim (Bool-cases (c == d)) [
  | inl e ↦
      let same = eq_of_beq c d e in
      let rest = term_ltb_total cs ds (λ k. h (cc (same, k))) in ground (arith, rest)
  | inr e ↦ ground arith
]

-- A letter, a digit or a rune of the tables of CJK is not white space.
pub record UnicodeLaws (u : Unicode) : Type 0 where
  pub letter_not_space : (c : ℕ) → u.is_letter c ≡ true → is_space c ≡ false
  pub digit_not_space : (c : ℕ) → u.is_digit c ≡ true → is_space c ≡ false
  pub cjk_not_space : (c : ℕ) → u.is_cjk c ≡ true → is_space c ≡ false

abbrev IsWord : List ℕ → Type 0
IsWord = All (λ c. is_space c ≡ false)

-- A term that `strings.TrimSpace` leaves something of.
abbrev pub IsGiven : Term → Type 0
IsGiven t = all is_space t ≡ false

add_term-IsGiven :
    (ts : List Term) (c : ℕ) (cs : List ℕ)
    → All IsGiven ts
    → is_space c ≡ false
    → All IsGiven (add_term ts (c ∷ cs))
unfolding add_term all
add_term-IsGiven ts c cs h s = elim (Bool-cases (ignored_term (c ∷ cs))) [
  | inl e ↦ rw (add_term, e) h
  | inr e ↦ rw (add_term, e) (All-concat IsGiven ts (c ∷ cs) h (ground arith))
]

flush_word-IsGiven :
    (ts : List Term) (cs : List ℕ) → All IsGiven ts → IsWord cs → All IsGiven (flush_word ts cs)
unfolding flush_word
flush_word-IsGiven ts [] h w = h
flush_word-IsGiven ts (c ∷ cs) h w = add_term-IsGiven ts c cs h w.0

add_pairs-IsGiven :
    (ts : List Term) (cs : List ℕ) → All IsGiven ts → IsWord cs → All IsGiven (add_pairs ts cs)
unfolding add_pairs
add_pairs-IsGiven ts [] h w = h
add_pairs-IsGiven ts (c ∷ []) h w = h
add_pairs-IsGiven ts (c ∷ d ∷ cs) h w =
    add_pairs-IsGiven (add_term ts (c ∷ d ∷ [])) (d ∷ cs) (add_term-IsGiven ts c (d ∷ []) h w.0) w.1

flush_cjk-IsGiven :
    (ts : List Term) (cs : List ℕ) → All IsGiven ts → IsWord cs → All IsGiven (flush_cjk ts cs)
unfolding flush_cjk
flush_cjk-IsGiven ts [] h w = h
flush_cjk-IsGiven ts (c ∷ []) h w = add_term-IsGiven ts c [] h w.0
flush_cjk-IsGiven ts (c ∷ d ∷ cs) h w = add_pairs-IsGiven ts (c ∷ d ∷ cs) h w

record IsLexed (l : Lexer) : Type 0 where
  terms : All IsGiven l.terms
  word : IsWord l.word
  cjk : IsWord l.cjk

module _ (u : Unicode) (laws : UnicodeLaws u) where
  word_not_space : (c : ℕ) → (u.is_letter c || u.is_digit c) ≡ true → is_space c ≡ false
  word_not_space c h = elim (Bool-cases (u.is_letter c)) [
    | inl e ↦ laws.letter_not_space c e
    | inr e ↦ laws.digit_not_space c (ground arith)
  ]

  read_rune-IsLexed : (l : Lexer) (c : ℕ) → IsLexed l → IsLexed (read_rune u l c)
  unfolding read_rune
  read_rune-IsLexed l c h =
      let flushed = flush_cjk-IsGiven l.terms l.cjk h.terms h.cjk in
      elim (Bool-cases (u.is_cjk c)) [
        | inl e ↦
            rw (read_rune, e)
              (record {
                terms = flush_word-IsGiven l.terms l.word h.terms h.word;
                word = tt;
                cjk = All-concat (λ d. is_space d ≡ false) l.cjk c h.cjk (laws.cjk_not_space c e);
              })
        | inr e ↦ elim (Bool-cases (u.is_letter c || u.is_digit c)) [
          | inl f ↦
              rw (read_rune, e, f)
                (record {
                  terms = flushed;
                  word = All-concat (λ d. is_space d ≡ false) l.word c h.word (word_not_space c f);
                  cjk = tt;
                })
          | inr f ↦
              rw (read_rune, e, f)
                (record {
                  terms = flush_word-IsGiven (flush_cjk l.terms l.cjk) l.word flushed h.word;
                  word = tt;
                  cjk = tt;
                })
        ]
      ]

  read_runes-IsLexed : (l : Lexer) (cs : List ℕ) → IsLexed l → IsLexed (read_runes u l cs)
  unfolding read_runes
  read_runes-IsLexed l [] h = h
  read_runes-IsLexed l (c ∷ cs) h =
      read_runes-IsLexed (read_rune u l c) cs (read_rune-IsLexed l c h)

  -- No lexical term is blank.
  pub lexical_terms-IsGiven : (value : List ℕ) → All IsGiven (lexical_terms u value)
  unfolding lexical_terms finish
  lexical_terms-IsGiven value =
      let l = read_runes u (start u []) (map u.to_lower value) in
      let h =
        read_runes-IsLexed (start u []) (map u.to_lower value)
          (record { terms = tt; word = tt; cjk = tt }) in
      flush_cjk-IsGiven (flush_word l.terms l.word) l.cjk
        (flush_word-IsGiven l.terms l.word h.terms h.word) h.cjk

-- The keys are different, and each was counted at least once.
pub record IsCounted (P : Term → Type 0) (fs : Frequencies) : Type 0 where
  pub keys : All (λ p. P p.0) fs
  pub different : IsPairwise (λ p q. p.0 ≢ q.0) fs
  pub counts : All (λ p. 1 ≤ p.1) fs

count_term-keys :
    (P : Term → Type 0) (t : Term) (fs : Frequencies)
    → P t
    → All (λ p. P p.0) fs
    → All (λ p. P p.0) (count_term t fs)
unfolding count_term
count_term-keys P t [] p h = (p, tt)
count_term-keys P t ((s, n) ∷ fs) p h = elim (Bool-cases (t == s)) [
  | inl e ↦ rw (count_term, e) h
  | inr e ↦ rw (count_term, e) (h.0, count_term-keys P t fs p h.1)
]

count_term-IsCounted :
    (P : Term → Type 0) (t : Term) (fs : Frequencies)
    → P t
    → IsCounted P fs
    → IsCounted P (count_term t fs)
unfolding count_term
count_term-IsCounted P t [] p h = record {
  keys = (p, tt);
  different = (tt, tt);
  counts = (omega arith, tt);
}
count_term-IsCounted P t ((s, n) ∷ fs) p h = elim (Bool-cases (t == s)) [
  | inl e ↦
      rw (count_term, e)
        (record { keys = h.keys; different = h.different; counts = (omega arith, h.counts.1) })
  | inr e ↦
      let rest =
        count_term-IsCounted P t fs p
          (record { keys = h.keys.1; different = h.different.1; counts = h.counts.1 }) in
      rw (count_term, e)
        (record {
          keys = (h.keys.0, rest.keys);
          different = (
            count_term-keys (λ k. s ≢ k) t fs (λ k. differ_of_beq t s e (sym k)) h.different.0,
            rest.different,
          );
          counts = (h.counts.0, rest.counts);
        })
]

count_terms-IsCounted :
    (P : Term → Type 0) (fs : Frequencies) (ts : List Term)
    → All P ts
    → IsCounted P fs
    → IsCounted P (count_terms fs ts)
unfolding count_terms
count_terms-IsCounted P fs [] p h = h
count_terms-IsCounted P fs (t ∷ ts) p h =
    count_terms-IsCounted P (count_term t fs) ts p.1 (count_term-IsCounted P t fs p.0 h)

-- The map of frequencies has each term once, with a positive count.
pub frequencies-IsCounted :
    (P : Term → Type 0) (ts : List Term) → All P ts → IsCounted P (frequencies ts)
unfolding frequencies
frequencies-IsCounted P ts p =
    count_terms-IsCounted P [] ts p (record { keys = tt; different = tt; counts = tt })

frequency_of-cons :
    (p : Term × ℕ) (fs : Frequencies) (t : Term)
    → 1 ≤ p.1
    → 1 ≤ frequency_of t fs
    → 1 ≤ frequency_of t (p ∷ fs)
unfolding frequency_of
frequency_of-cons (s, n) fs t h k = elim (Bool-cases (t == s)) [
  | inl e ↦ rw (frequency_of, e) h
  | inr e ↦ rw (frequency_of, e) k
]

-- A key is found with a positive count.
pub frequency_of-key :
    (fs : Frequencies) → All (λ p. 1 ≤ p.1) fs → All (λ p. 1 ≤ frequency_of p.0 fs) fs
unfolding frequency_of
frequency_of-key [] h = tt
frequency_of-key ((t, n) ∷ fs) h = (
  rw (beq_refl t) (h.0),
  All-map (λ p. frequency_of-cons (t, n) fs p.0 h.0) fs (frequency_of-key fs h.1),
)
