-- ===== src/Retrieval/Rendered.antt =====
-- What a rendered context holds.
use agent_memory_system.Prelude.{
  ℕ, String, true, false, List, [], ◌∷◌, ◌++◌, map, append-nil, append_assoc, ◌≡◌, ◌≢◌, refl, sym,
  ap, ◌∙◌, subst, inl, inr, ◌⊎◌, arith,
}
use agent_memory_system.Prelude.Tests.{nat_eq, ◌==◌, Bool-cases, or-false}
use agent_memory_system.Prelude.Int.{pos, int_ltb, int_leb}
use agent_memory_system.Prelude.Lists.{length, All, All-append}
use agent_memory_system.Prelude.Text.{runes, encode_runes}
use agent_memory_system.Retrieval.Types.{Request, MemoryReference, Match, Result}
use agent_memory_system.Retrieval.Terms.{estimate_tokens}
use agent_memory_system.Retrieval.Normalize.{is_null}
use agent_memory_system.Retrieval.Render.{
  escape_rune, escape_memory_text, over_budget, header, trailer, block, render_loop,
  render_bounded_context,
}

-- The first list is the second with elements left out.
pub data IsSelection : List Match → List Match → Type 0 where
  nothing : IsSelection [] []
  skipped : {ms ns : List Match} (n : Match) → IsSelection ms ns → IsSelection ms (n ∷ ns)
  chosen : {ms ns : List Match} (m : Match) → IsSelection ms ns → IsSelection (m ∷ ms) (m ∷ ns)

module _ (quote : String → List ℕ) where
  unfoldable pub blocks : List Match → List ℕ
  unfolding block
  blocks [] = []
  blocks (m ∷ ms) = block quote m ++ blocks ms

  -- The context is the header, the blocks of some of the selected matches and the trailer, within both
  -- budgets, and the references are those of the same matches, at least one.
  pub record IsRendered (r : Result) (q : Request) (content : List ℕ)
      (memories : List MemoryReference) : Type 0 where
    pub matches : List Match
    pub selection : IsSelection matches r.selected
    pub text : content ≡ header quote r ++ (blocks matches ++ trailer quote)
    pub references : memories ≡ map (λ m. m.reference) matches
    pub some_match : is_null memories ≡ false
    pub byte_budget : int_leb (pos (length (encode_runes content))) q.byte_budget ≡ true
    pub token_budget : int_leb (pos (estimate_tokens content)) q.token_budget ≡ true

  -- The loop from a builder: what it adds.
  pub record Added (q : Request) (builder : List ℕ) (memories : List MemoryReference)
      (ms : List Match) (p : List ℕ × List MemoryReference) : Type 0 where
    pub matches : List Match
    pub selection : IsSelection matches ms
    pub text : p.0 ≡ builder ++ blocks matches
    pub references : p.1 ≡ memories ++ map (λ m. m.reference) matches
    pub fits : over_budget q (p.0 ++ trailer quote) ≡ false

  render_loop-Added :
      (q : Request) (builder : List ℕ) (memories : List MemoryReference) (ms : List Match)
      → over_budget q (builder ++ trailer quote) ≡ false
      → Added q builder memories ms (render_loop quote q builder memories ms)
  unfolding render_loop blocks
  render_loop-Added q builder memories [] h = record {
    matches = [];
    selection = nothing;
    text = sym (append-nil builder);
    references = sym (append-nil memories);
    fits = h;
  }
  render_loop-Added q builder memories (m ∷ ms) h =
      elim (Bool-cases (over_budget q (builder ++ (block quote m ++ trailer quote)))) [
        | inl e ↦
            let rest = render_loop-Added q builder memories ms h in
            rw (render_loop, e)
              (record {
                matches = rest.matches;
                selection = skipped m rest.selection;
                text = rest.text;
                references = rest.references;
                fits = rest.fits;
              })
        | inr e ↦
            let rest =
              render_loop-Added q (builder ++ block quote m) (memories ++ (m.reference ∷ [])) ms (
                subst (λ t. over_budget q t ≡ false)
                  (sym (append_assoc builder (block quote m) (trailer quote))) e) in
            rw (render_loop, e)
              (record {
                matches = m ∷ rest.matches;
                selection = chosen m rest.selection;
                text = rest.text ∙ append_assoc builder (block quote m) (blocks rest.matches);
                references =
                    rest.references
                    ∙ append_assoc memories (m.reference ∷ [])
                        (map (λ n. n.reference) rest.matches);
                fits = rest.fits;
              })
      ]

  IsRendered-Added :
      (r : Result) (q : Request) (p : List ℕ × List MemoryReference)
      → Added q (header quote r) [] r.selected p
      → is_null p.1 ≡ false
      → IsRendered r q (p.0 ++ trailer quote) p.1
  unfolding over_budget
  IsRendered-Added r q p a g =
      let text = p.0 ++ trailer quote in
      let (bytes, tokens) =
        or-false (int_ltb q.byte_budget (pos (length (encode_runes text))))
          (int_ltb q.token_budget (pos (estimate_tokens text))) a.fits in
      record {
        matches = a.matches;
        selection = a.selection;
        text =
            ap (λ t. t ++ trailer quote) a.text
            ∙ append_assoc (header quote r) (blocks a.matches) (trailer quote);
        references = a.references;
        some_match = g;
        byte_budget = ground (arith, bytes);
        token_budget = ground (arith, tokens);
      }

  -- renderBoundedContext returns nothing, or the header, the blocks of some of the selected matches and
  -- the trailer, within the byte and the token budget, with the references of exactly those matches.
  pub render_bounded_context-IsRendered :
      (r : Result) (q : Request)
      → (render_bounded_context quote r q ≡ ([], []))
        ⊎ IsRendered r q (render_bounded_context quote r q).0 (render_bounded_context quote r q).1
  unfolding render_bounded_context
  render_bounded_context-IsRendered r q =
      let p = render_loop quote q (header quote r) [] r.selected in
      elim (Bool-cases (is_null r.selected)) [
        | inl e ↦ inl (rw (render_bounded_context, e) refl)
        | inr e ↦ elim (Bool-cases (over_budget q (header quote r ++ trailer quote))) [
          | inl f ↦ inl (rw (render_bounded_context, e, f) refl)
          | inr f ↦ elim (Bool-cases (is_null p.1)) [
            | inl g ↦ inl (rw (render_bounded_context, e, f, g) refl)
            | inr g ↦ inr (
                rw (render_bounded_context, e, f, g)
                  (IsRendered-Added r q p (render_loop-Added q (header quote r) [] r.selected f) g))
          ]
        ]
      ]

escape_rune-All : (c : ℕ) → All (λ c. (c ≢ b'<') × (c ≢ b'>')) (escape_rune c)
unfolding escape_rune runes
escape_rune-All c = elim (Bool-cases (c == b'&')) [
  | inl e ↦ rw e (ground arith)
  | inr e ↦ elim (Bool-cases (c == b'<')) [
    | inl f ↦ rw (e, f) (ground arith)
    | inr f ↦ elim (Bool-cases (c == b'>')) [
      | inl g ↦ rw (e, f, g) (ground arith)
      | inr g ↦ rw (e, f, g) ((ground arith, ground arith), tt)
    ]
  ]
]

-- The text of a memory cannot open or close a tag: an escaped text has no angle bracket.
pub escape_memory_text-All :
    (cs : List ℕ) → All (λ c. (c ≢ b'<') × (c ≢ b'>')) (escape_memory_text cs)
unfolding escape_memory_text
escape_memory_text-All [] = tt
escape_memory_text-All (c ∷ cs) =
    All-append (λ c. (c ≢ b'<') × (c ≢ b'>')) (escape_rune c) (escape_memory_text cs)
      (escape_rune-All c) (escape_memory_text-All cs)
