-- ===== src/Retrieval/Injected.antt =====
-- The injection that `BuildContext` records passes `validateInjectionReceipt`.
use Prim.Native.Char.{code}
use Prim.Native.String.{◌++◌ as str_append}
use Prim.Native.String.append as str_append
use agent_memory_system.Prelude.{
  ℕ, String, Bool, true, false, not, List, [], ◌∷◌, ◌++◌, Option, some, none, map, ◌≡◌, refl, sym,
  ap, subst, ◌∙◌, arith,
}
use agent_memory_system.Prelude.Tests.{
  string_eq, nat_eq, ◌==◌, ne_self, beq_refl, negated, or-false, ◌orelse◌, true_of_not,
}
use agent_memory_system.Prelude.Int.{pos, int_eq}
use agent_memory_system.Prelude.Lists.{All, elem, length}
use agent_memory_system.Prelude.Order.Chain.{IsPairwise, All-map}
use agent_memory_system.Prelude.Text.{runes, after_prefix, has_prefix, encode_runes}
use agent_memory_system.Retrieval.Types.{
  Request, MemoryReference, Match, Result, valid_memory_reference, valid_channel,
}
use agent_memory_system.Retrieval.Terms.{estimate_tokens}
use agent_memory_system.Retrieval.Normalize.{is_null}
use agent_memory_system.Retrieval.Sets.{reference_eq, sorted_unique}
use agent_memory_system.Retrieval.Receipts.{Services, issue_if, valid_match, check_matches}
use agent_memory_system.Retrieval.Rendered.{IsSelection, nothing, skipped, chosen, IsRendered}
use agent_memory_system.Retrieval.Injection.{
  InjectionIo, check_memories, make_injection, injection_event, validate_injection_receipt,
}

runes-append : (s t : String) → runes (str_append s t) ≡ runes s ++ runes t
unfolding runes
runes-append String.[] t = rw (str_append.nil t) refl
runes-append (String.◌∷◌ c s) t =
    rw (str_append.cons c s t) (ap (λ r. code c ∷ r) (runes-append s t))

after_prefix-append : (p r : List ℕ) → after_prefix p (p ++ r) ≡ some r
unfolding after_prefix
after_prefix-append [] r = refl
after_prefix-append (c ∷ p) r = rw (beq_refl c) (after_prefix-append p r)

abbrev found : Option (List ℕ) → Bool
found none = false
found (some rest) = true

pub has_prefix-append : (p s : String) → has_prefix (str_append p s) p ≡ true
unfolding has_prefix
has_prefix-append p s =
    ap found
      (ap (after_prefix (runes p)) (runes-append p s) ∙ after_prefix-append (runes p) (runes s))

issue_none :
    (b : Bool) (issue : String) (rest : List String)
    → issue_if b issue ++ rest ≡ []
    → (b ≡ false) × (rest ≡ [])
issue_none true issue rest h = cc h
issue_none false issue rest h = (refl, h)

-- References that are valid and all different.
pub record AreSound (rs : List MemoryReference) : Type 0 where
  pub valid : All (λ r. valid_memory_reference r ≡ true) rs
  pub different : IsPairwise (λ r s. (s == r) ≡ false) rs

abbrev references : List Match → List MemoryReference
references = map (λ m. m.reference)

module _ (sv : Services) (q : Request) where
  valid_match-reference :
      (m : Match) → valid_match sv q m ≡ true → valid_memory_reference m.reference ≡ true
  unfolding valid_match
  valid_match-reference m h = ground (arith, h)

  check_matches-fresh :
      (p : Option Match) (seen : List MemoryReference) (ms : List Match)
      → check_matches sv q p seen ms ≡ []
      → AreSound (references ms) × All (λ r. elem r seen ≡ false) (references ms)
  unfolding check_matches elem
  check_matches-fresh p seen [] h = (record { valid = tt; different = tt }, tt)
  check_matches-fresh p seen (m ∷ ms) h =
      let (v, h1) = issue_none (not (valid_match sv q m)) _ _ h in
      let (_, h2) = issue_none _ _ _ h1 in
      let (fresh, h3) = issue_none (elem m.reference seen) _ _ h2 in
      let (sound, others) = check_matches-fresh (some m) (m.reference ∷ seen) ms h3 in
      (
        record {
          valid = (valid_match-reference m (true_of_not (valid_match sv q m) v), sound.valid);
          different = (
            All-map (λ r k. (or-false (r == m.reference) (elem r seen) k).0) (references ms) others,
            sound.different,
          );
        },
        (
          fresh,
          All-map (λ r k. (or-false (r == m.reference) (elem r seen) k).1) (references ms) others,
        ),
      )

All-selection :
    (P : MemoryReference → Type 0) {ms ns : List Match}
    → IsSelection ms ns
    → All P (references ns)
    → All P (references ms)
All-selection P nothing h = tt
All-selection P (skipped n s) h = All-selection P s h.1
All-selection P (chosen m s) h = (h.0, All-selection P s h.1)

AreSound-selection :
    {ms ns : List Match} → IsSelection ms ns → AreSound (references ns) → AreSound (references ms)
AreSound-selection nothing h = h
AreSound-selection (skipped n s) h =
    AreSound-selection s (record { valid = h.valid.1; different = h.different.1 })
AreSound-selection (chosen m s) h =
    let rest = AreSound-selection s (record { valid = h.valid.1; different = h.different.1 }) in
    record {
      valid = (h.valid.0, rest.valid);
      different = (All-selection (λ r. (r == m.reference) ≡ false) s h.different.0, rest.different);
    }

All-both-or :
    (r : MemoryReference) (seen rs : List MemoryReference)
    → All (λ s. (s == r) ≡ false) rs
    → All (λ s. elem s seen ≡ false) rs
    → All (λ s. elem s (r ∷ seen) ≡ false) rs
unfolding elem
All-both-or r seen [] h k = tt
All-both-or r seen (s ∷ rs) h k = (h.0 orelse k.0, All-both-or r seen rs h.1 k.1)

module _ (sv : Services) where
  check_memories-AreSound :
      (seen rs : List MemoryReference)
      → AreSound rs
      → All (λ r. elem r seen ≡ false) rs
      → check_memories sv seen rs ≡ []
  unfolding check_memories elem
  check_memories-AreSound seen [] h n = refl
  check_memories-AreSound seen (r ∷ rs) h n =
      let rest =
        check_memories-AreSound (r ∷ seen) rs
          (record { valid = h.valid.1; different = h.different.1 })
          (All-both-or r seen rs h.different.0 n.1) in
      rw (h.valid.0, n.0, rest) refl

  none_seen : (rs : List MemoryReference) → All (λ r. elem r [] ≡ false) rs
  unfolding elem
  none_seen [] = tt
  none_seen (r ∷ rs) = (refl, none_seen rs)

  nothing_found :
      {a b c d e : List String}
      → a ≡ []
      → b ≡ []
      → c ≡ []
      → d ≡ []
      → e ≡ []
      → a ++ (b ++ (c ++ (d ++ e))) ≡ []
  nothing_found h i j k l = rw (h, i, j, k, l) refl

  issue_if_none : (b : Bool) (issue : String) → b ≡ false → issue_if b issue ≡ []
  issue_if_none b issue h = rw h refl

  pub make_injection-valid :
      (io : InjectionIo) (quote : String → List ℕ) (q : Request) (result : Result)
      (id text : String) (receipt_id : String) (content : List ℕ) (memories : List MemoryReference)
      → valid_channel q.context.channel ≡ true
      → has_prefix receipt_id "retrieval-" ≡ true
      → is_null content ≡ false
      → check_matches sv q none [] result.selected ≡ []
      → IsRendered quote result q content memories
      → validate_injection_receipt sv
          (injection_event sv io
            (make_injection sv q receipt_id io.now id content memories)
            text
            q.context)
          (make_injection sv q receipt_id io.now id content memories)
        ≡ []
  unfolding validate_injection_receipt make_injection injection_event sorted_unique
  make_injection-valid io quote q result id text receipt_id content memories ch pre given checked
        r =
      let (sound, _) = check_matches-fresh sv q none [] result.selected checked in
      let sound_memories =
        subst AreSound (sym r.references) (AreSound-selection r.selection sound) in
      ap sorted_unique (
        nothing_found
          (issue_if_none _ _
            (refl orelse ne_self id orelse negated pre orelse refl orelse negated ch))
          (issue_if_none _ _ (ne_self io.now orelse ne_self io.now))
          (issue_if_none _ _ (
            given
            orelse ne_self (sv.sha256_hex (encode_runes content))
            orelse ne_self (pos (length (encode_runes content)))
            orelse ne_self (pos (estimate_tokens content))))
          (check_memories-AreSound [] memories sound_memories (none_seen memories))
          (issue_if_none _ _ r.some_match))
