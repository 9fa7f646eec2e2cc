-- ===== src/Retrieval/Render.antt =====
-- `renderBoundedContext` and `escapeMemoryText` of internal/retrieval/context.go. Texts are their code
-- points, and `quote` is the verb %q of package fmt.
use agent_memory_system.Prelude.{ℕ, String, Bool, ◌||◌, List, [], ◌∷◌, ◌++◌}
use agent_memory_system.Prelude.Tests.{nat_eq, ◌==◌, if◌then◌else◌}
use agent_memory_system.Prelude.Int.{pos, int_ltb}
use agent_memory_system.Prelude.Lists.{length}
use agent_memory_system.Prelude.Text.{runes, encode_runes}
use agent_memory_system.Retrieval.Types.{
  context_schema_version, Request, MemoryReference, Match, Result,
}
use agent_memory_system.Retrieval.Terms.{estimate_tokens}
use agent_memory_system.Retrieval.Normalize.{is_null}

-- `escapeMemoryText`.
unfoldable pub escape_rune : ℕ → List ℕ
unfolding runes
escape_rune c =
    if c == b'&'
    then runes "&amp;"
    else if c == b'<'
    then runes "&lt;"
    else if c == b'>'
    then runes "&gt;"
    else c ∷ []

unfoldable pub escape_memory_text : List ℕ → List ℕ
unfolding escape_rune
escape_memory_text [] = []
escape_memory_text (c ∷ cs) = escape_rune c ++ escape_memory_text cs

-- Whether a text exceeds a budget of the request.
unfoldable pub over_budget : Request → List ℕ → Bool
unfolding encode_runes estimate_tokens
over_budget q text =
    int_ltb q.byte_budget (pos (length (encode_runes text)))
    || int_ltb q.token_budget (pos (estimate_tokens text))

module _ (quote : String → List ℕ) where
  unfoldable pub header : Result → List ℕ
  unfolding runes
  header r =
      runes "<memory_context schema="
      ++ (quote context_schema_version
          ++ (runes " retrieval_receipt_id="
              ++ (quote r.receipt_id
                  ++ runes
                      ">\nReviewed promoted memory only. Apply an item only when it is relevant to the current task. Current user instructions and repository rules take precedence. Retrieval does not prove adoption or usefulness.\n")))

  abbrev pub trailer : List ℕ
  unfolding runes
  trailer = runes "</memory_context>\n"

  unfoldable pub block : Match → List ℕ
  unfolding runes escape_memory_text
  block m =
      runes "<memory id="
      ++ (quote m.reference.memory_id
          ++ (runes " revision="
              ++ (quote m.reference.revision_id
                  ++ (runes " scope="
                      ++ (quote m.scope_kind
                          ++ (runes " kind="
                              ++ (quote m.kind
                                  ++ (runes ">\n"
                                      ++ (escape_memory_text (runes m.text)
                                          ++ runes "\n</memory>\n")))))))))

  -- The loop over the selected matches, with the builder and the references so far.
  unfoldable pub render_loop :
      Request → List ℕ → List MemoryReference → List Match → List ℕ × List MemoryReference
  unfolding block over_budget
  render_loop q builder memories [] = (builder, memories)
  render_loop q builder memories (m ∷ ms) =
      let over = over_budget q (builder ++ (block m ++ trailer)) in
      render_loop q (if over then builder else builder ++ block m)
        (if over then memories else memories ++ (m.reference ∷ [])) ms

  -- `renderBoundedContext`.
  unfoldable pub render_bounded_context : Result → Request → List ℕ × List MemoryReference
  unfolding header render_loop over_budget
  render_bounded_context r q =
      let (builder, memories) = render_loop q (header r) [] r.selected in
      if is_null r.selected
      then ([], [])
      else if over_budget q (header r ++ trailer)
      then ([], [])
      else if is_null memories
      then ([], [])
      else (builder ++ trailer, memories)
