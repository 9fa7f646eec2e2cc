-- ===== src/Retrieval/Filled.antt =====
-- The results of `Search` raise no issue of `validateReceipt`: the blocked and the ranked ones.
use agent_memory_system.Prelude.{
  ℕ, ◌+◌, String, Bool, true, false, ◌&&◌, List, [], ◌∷◌, ◌++◌, none, ◌≡◌, refl, sym, ap, subst,
  inl, inr, ◌⊎◌, arith,
}
use mathlib.Core.Logic.{⊎_elim}
use agent_memory_system.Prelude.Tests.{
  string_eq, nat_eq, ◌==◌, ◌!=◌, ne_self, unchanged, negated, ◌orelse◌, beq_refl,
}
use agent_memory_system.Prelude.Int.{ℤ, pos, int_eq, int_leb, int_ltb}
use agent_memory_system.Prelude.Lists.{All, length}
use agent_memory_system.Prelude.Order.Chain.{IsPairwise}
use agent_memory_system.Prelude.Text.{valid_sha256}
use agent_memory_system.Retrieval.Types.{Request, Result, Receipt, Loaded, context_gaps}
use agent_memory_system.Retrieval.Normalize.{is_null}
use agent_memory_system.Retrieval.Rank.{split_applicable, rank_applicable}
use agent_memory_system.Retrieval.Sets.{is_sorted_unique}
use agent_memory_system.Retrieval.Receipts.{
  Services, issue_if, same_list, selector_digest, check_matches, status_issues, result_issues,
  accounting_issues, valid_exclusion_counts,
}
use agent_memory_system.Retrieval.Search.{
  start_result, rank_revisions, blocked, repository_state_digest,
}
use agent_memory_system.Retrieval.Selected.{HasRoom, split_applicable_counts}
use agent_memory_system.Retrieval.Lexed.{UnicodeLaws}
use agent_memory_system.Retrieval.Pipeline.{
  AreDifferent, split_applicable-All, split_applicable-different,
}
use agent_memory_system.Retrieval.Chosen.{IsStored, check_matches-IsChosen}
use agent_memory_system.Retrieval.Validated.{IsSingle, rank_applicable-IsSelected}

pub no_issue :
    (b : Bool) (issue : String) (rest : List String)
    → b ≡ false
    → rest ≡ []
    → issue_if b issue ++ rest ≡ []
no_issue b issue rest h k = rw (h, k) refl

pub one_issue : (b : Bool) (issue : String) → b ≡ false → issue_if b issue ≡ []
one_issue b issue h = rw h refl

same_gaps : (gaps : List String) → same_list (λ s t. s == t) gaps gaps ≡ true
same_gaps [] = refl
same_gaps (g ∷ gs) = ground (arith, beq_refl g, same_gaps gs)

fits : (z : ℤ) {n : ℤ} {k : ℕ} → n ≡ pos k → int_leb (pos k) z ≡ true → int_ltb z n ≡ false
fits z e h = subst (λ m. int_ltb z m ≡ false) (sym e) (ground (arith, h))

either : (a : Bool) {b : Bool} → (a ≡ false) ⊎ (b ≡ false) → (a && b) ≡ false
either a (inl e) = rw e refl
either true (inr e) = e
either false (inr e) = refl

fits_zero : (z : ℤ) → int_leb (pos 0) z ≡ true → int_ltb z (pos 0) ≡ false
fits_zero z h = ground (arith, h)

module _ (sv : Services) (q : Request) (receipt_id : String) where
  -- A result that raises no issue in any receipt with this request.
  pub record IsFilled (r : Result) : Type 0 where
    pub id : r.receipt_id ≡ receipt_id
    pub result : (b : Receipt) → result_issues sv (record b { request = q; result = r }) ≡ []
    pub matches : check_matches sv q none [] r.selected ≡ []
    pub accounting :
        (b : Receipt) → accounting_issues sv (record b { request = q; result = r }) ≡ []

  pub blocked-IsFilled :
      (n : ℕ) (issues : List String)
      → HasRoom q
      → is_sorted_unique issues ≡ true
      → is_null issues ≡ false
      → IsFilled
          (blocked (record (start_result sv q receipt_id) { active_memories = pos n }) issues)
  unfolding start_result result_issues status_issues check_matches accounting_issues
      valid_exclusion_counts
  blocked-IsFilled n issues room sorted given = record {
    id = refl;
    result = λ b.
        no_issue _ _ _
          (refl
            orelse refl
            orelse ne_self (selector_digest sv q)
            orelse ne_self q.token_budget
            orelse ne_self q.byte_budget
            orelse negated sorted
            orelse negated (same_gaps (context_gaps q.context)))
          (no_issue _ _ _ (ground arith) (one_issue _ _ (given orelse refl orelse refl)));
    matches = refl;
    accounting = λ b.
        no_issue _ _ _
          (refl
            orelse refl
            orelse fits_zero q.token_budget room.1
            orelse fits_zero q.byte_budget room.2
            orelse fits_zero q.limit room.0)
          (one_issue _ "retrieval result exclusion accounting is invalid" refl);
  }

  -- The result of the ranking.
  pub ranked-IsFilled :
      (loaded : Loaded)
      → UnicodeLaws sv.unicode
      → HasRoom q
      → int_leb (pos 1) q.limit ≡ true
      → IsSingle sv q
      → ((input : List ℕ) → valid_sha256 (sv.sha256_hex input) ≡ true)
      → All (IsStored sv) loaded.revisions
      → IsPairwise AreDifferent loaded.revisions
      → loaded.active_memories ≡ length loaded.revisions
      → IsFilled (
          rank_revisions sv q loaded.revisions (record (start_result sv q receipt_id) {
            active_memories = pos loaded.active_memories;
            repository_state_sha256 = repository_state_digest sv loaded.revisions;
          }))
  unfolding start_result rank_revisions result_issues status_issues accounting_issues
      valid_exclusion_counts repository_state_digest
  ranked-IsFilled loaded laws room one single digest stored different active =
      let c = q.context in
      let (applicable, mismatch) = split_applicable c loaded.revisions in
      let h =
        rank_applicable-IsSelected sv q applicable laws room one single
          (split_applicable-All (IsStored sv) c loaded.revisions stored)
          (split_applicable-different c loaded.revisions different) in
      let s = rank_applicable sv.unicode q applicable in
      let counted = split_applicable_counts c loaded.revisions in
      record {
        id = refl;
        result = λ b.
            no_issue _ _ _
              (refl
                orelse refl
                orelse ne_self (selector_digest sv q)
                orelse ne_self q.token_budget
                orelse ne_self q.byte_budget
                orelse refl
                orelse negated (same_gaps (context_gaps c)))
              (no_issue _ _ _ (ground arith) (
                no_issue _ _ _ (refl orelse negated (digest _)) (
                  one_issue _ _ (
                    subst (λ n. (pos (mismatch + length applicable) != pos n) ≡ false) (omega arith)
                      (ne_self (pos (mismatch + length applicable)))))));
        matches = check_matches-IsChosen sv q s.selected h.chosen;
        accounting = λ b.
            no_issue _ _ _
              (unchanged h.bounded.tokens
                orelse unchanged h.bounded.bytes
                orelse fits q.token_budget h.bounded.tokens h.bounded.token_budget
                orelse fits q.byte_budget h.bounded.bytes h.bounded.byte_budget
                orelse fits q.limit refl h.bounded.limit)
              (one_issue _ _ (
                either (q.query != "") (
                  ⊎_elim (λ e. inl (unchanged e)) (λ e. inr (unchanged (ap pos (sym e))))
                    h.complete)));
      }
