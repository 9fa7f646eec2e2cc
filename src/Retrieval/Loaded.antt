-- ===== src/Retrieval/Loaded.antt =====
-- What the loaded repository promises, and the result that `Search` fills from it.
use agent_memory_system.Prelude.{ℕ, String, true, false, List, [], ◌∷◌, none, ◌≡◌, refl, inl, inr}
use agent_memory_system.Prelude.Tests.{string_eq, nat_eq, Bool-cases, string_ltb}
use agent_memory_system.Prelude.Int.{pos, int_eq, int_leb}
use agent_memory_system.Prelude.Lists.{All, length}
use agent_memory_system.Prelude.Order.{sort_by, insert_by, All-sort_by}
use agent_memory_system.Prelude.Order.Chain.{IsPairwise}
use agent_memory_system.Prelude.Text.{is_blank, valid_sha256}
use agent_memory_system.Retrieval.Types.{Request, Loaded, Roots, separate, overlapping, unresolved}
use agent_memory_system.Retrieval.Normalize.{is_null}
use agent_memory_system.Retrieval.Sets.{
  sorted_unique, unique_loop, ne_empty, is_sorted_unique, sorted_unique-is_sorted_unique,
}
use agent_memory_system.Retrieval.Receipts.{Services}
use agent_memory_system.Retrieval.Search.{start_result, fill_result}
use agent_memory_system.Retrieval.Selected.{HasRoom}
use agent_memory_system.Retrieval.Lexed.{UnicodeLaws}
use agent_memory_system.Retrieval.Pipeline.{AreDifferent}
use agent_memory_system.Retrieval.Chosen.{IsStored}
use agent_memory_system.Retrieval.Validated.{IsSingle}
use agent_memory_system.Retrieval.Filled.{IsFilled, blocked-IsFilled, ranked-IsFilled}

-- What `portable.LoadActiveRevisions` promises: the codes of its issues are not blank, and without an
-- issue the active revisions are counted, well formed and of different memories.
pub record IsLoaded (sv : Services) (loaded : Loaded) : Type 0 where
  pub codes : All (λ c. is_blank c ≡ false) loaded.issues
  pub stored : All (IsStored sv) loaded.revisions
  pub different : IsPairwise AreDifferent loaded.revisions
  pub active : is_null loaded.issues ≡ true → loaded.active_memories ≡ length loaded.revisions

is_null-insert_by : (v : String) (vs : List String) → is_null (insert_by string_ltb v vs) ≡ false
unfolding insert_by
is_null-insert_by v [] = refl
is_null-insert_by v (w ∷ ws) = elim (Bool-cases (string_ltb w v)) [
  | inl e ↦ rw (insert_by, e) refl
  | inr e ↦ rw (insert_by, e) refl
]

is_null-unique_loop :
    (vs : List String)
    → All (λ v. is_blank v ≡ false) vs
    → is_null vs ≡ false
    → is_null (unique_loop none vs) ≡ false
unfolding unique_loop
is_null-unique_loop [] b h = cc h
is_null-unique_loop (v ∷ vs) b h = rw (ne_empty v b.0) refl

is_null-sorted_unique :
    (vs : List String)
    → All (λ v. is_blank v ≡ false) vs
    → is_null vs ≡ false
    → is_null (sorted_unique vs) ≡ false
unfolding sorted_unique sort_by
is_null-sorted_unique [] b h = cc h
is_null-sorted_unique (v ∷ vs) b h =
    is_null-unique_loop (sort_by string_ltb (v ∷ vs))
      (All-sort_by (λ w. is_blank w ≡ false) string_ltb (v ∷ vs) b)
      (is_null-insert_by v (sort_by string_ltb vs))

module _ (sv : Services) (laws : UnicodeLaws sv.unicode)
    (digest : (input : List ℕ) → valid_sha256 (sv.sha256_hex input) ≡ true) where
  pub fill_result-IsFilled :
      (q : Request) (receipt_id : String) (roots : Roots) (loaded : Loaded)
      → HasRoom q
      → int_leb (pos 1) q.limit ≡ true
      → IsSingle sv q
      → IsLoaded sv loaded
      → IsFilled sv q receipt_id (fill_result sv q roots loaded (start_result sv q receipt_id))
  unfolding fill_result start_result is_sorted_unique is_blank
  fill_result-IsFilled q id overlapping loaded room one single l =
      blocked-IsFilled sv q id 0 ("storage_roots_not_separate" ∷ []) room refl refl
  fill_result-IsFilled q id unresolved loaded room one single l =
      blocked-IsFilled sv q id 0 ("storage_roots_unresolved" ∷ []) room refl refl
  fill_result-IsFilled q id separate loaded room one single l =
      elim (Bool-cases (is_null loaded.issues)) [
        | inl e ↦
            rw (fill_result, e)
              (ranked-IsFilled sv q id loaded laws room one single digest l.stored l.different
                (l.active e))
        | inr e ↦
            rw (fill_result, e)
              (blocked-IsFilled sv q id loaded.active_memories (sorted_unique loaded.issues) room
                (sorted_unique-is_sorted_unique loaded.issues l.codes)
                (is_null-sorted_unique loaded.issues l.codes e))
      ]
