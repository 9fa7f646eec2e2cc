-- ===== src/Ledger/Chain/Tamper.antt =====
-- The chain of `makeRecord` in internal/ledger/ledger.go as evidence: its last hash fixes the
-- whole ledger, as long as SHA-256 does not collide on the texts that were sealed.
use mathlib.Core.List.{
  reverse, reverse_aux, reverse-reverse, Mem, mem-cons_self, mem-cons_of_mem, mem-reverse,
  head-eq_of_cons-eq, tail-eq_of_cons-eq,
}
use text.Mathlib.TextEquality.{Char-path}
use agent_memory_system.Prelude.{
  ℕ, String, true, false, Option, none, some, List, [], ◌∷◌, ◌++◌, ◌≡◌, ◌≢◌, refl, ap, ◌∙◌, sym,
  subst, arith, inl, inr,
}
use agent_memory_system.Prelude.Tests.{Option-cases, nat_eq, ◌==◌, and-true}
use agent_memory_system.Prelude.Lists.{All, all, length}
use agent_memory_system.Prelude.Result.{ok}
use agent_memory_system.Prelude.Text.{
  runes, bytes, encode_rune, encode_runes, is_digest, is_lower_hex, valid_sha256,
}
use agent_memory_system.Ledger.Types.{Record, Codec, CodecLaws}
use agent_memory_system.Ledger.Chain.{hash_input, make_record, readable, visit_records}
use agent_memory_system.Ledger.Chain.Collect.{collect, visit-Holds}
use agent_memory_system.Ledger.Chain.Verified.{IsLinked, IsChain, make_record-fields}

-- No byte is the 0 that `makeRecord` puts behind the previous hash.
abbrev NoZero : List ℕ → Type 0
NoZero = All (λ c. c ≢ 0)

split_at_zero :
    (xs ys j k : List ℕ) → NoZero xs → NoZero ys → xs ++ 0 ∷ j ≡ ys ++ 0 ∷ k → (xs ≡ ys) × (j ≡ k)
split_at_zero [] [] j k p q h = (refl, tail-eq_of_cons-eq h)
split_at_zero [] (y ∷ ys) j k p q h = absurd (q.0 (sym (head-eq_of_cons-eq h)))
split_at_zero (x ∷ xs) [] j k p q h = absurd (p.0 (head-eq_of_cons-eq h))
split_at_zero (x ∷ xs) (y ∷ ys) j k p q h =
    let (e, f) = split_at_zero xs ys j k p.1 q.1 (tail-eq_of_cons-eq h) in
    (cc (head-eq_of_cons-eq h, e), f)

runes-injective : (s t : String) → runes s ≡ runes t → s ≡ t
unfolding runes
runes-injective String.[] String.[] h = refl
runes-injective String.[] (String.◌∷◌ d t) h = cc h
runes-injective (String.◌∷◌ c s) String.[] h = cc h
runes-injective (String.◌∷◌ c s) (String.◌∷◌ d t) h =
    let e = Char-path c d (head-eq_of_cons-eq h) in
    let f = runes-injective s t (tail-eq_of_cons-eq h) in λ i. String.◌∷◌ (e i) (f i)

hex_is_ascii_rune : (c : ℕ) → is_lower_hex c ≡ true → (encode_rune c ≡ c ∷ []) × (c ≢ 0)
unfolding is_lower_hex encode_rune
hex_is_ascii_rune c h = (ground arith, ground arith)

hex_is_ascii : (cs : List ℕ) → all is_lower_hex cs ≡ true → (encode_runes cs ≡ cs) × NoZero cs
unfolding all encode_runes
hex_is_ascii [] h = (refl, tt)
hex_is_ascii (c ∷ cs) h =
    let (p, q) = and-true (is_lower_hex c) (all is_lower_hex cs) h in
    let (e, n) = hex_is_ascii_rune c p in let (es, ns) = hex_is_ascii cs q in (rw (e, es), (n, ns))

-- A hash that a record may be sealed behind: none, or a digest.
abbrev IsTail : String → Type 0
IsTail s = (bytes s ≡ runes s) × NoZero (runes s)

digest-IsTail : (s : String) → valid_sha256 s ≡ true → IsTail s
unfolding valid_sha256 bytes is_digest
digest-IsTail s h =
    hex_is_ascii (runes s) (and-true (length (runes s) == 64) (all is_lower_hex (runes s)) h).1

empty-IsTail : IsTail ""
unfolding bytes runes encode_runes
empty-IsTail = (refl, tt)

not_digest_empty : valid_sha256 "" ≢ true
unfolding valid_sha256 runes
not_digest_empty h = cc h

hash_input-injective :
    (p q : String) (j k : List ℕ)
    → IsTail p
    → IsTail q
    → hash_input p j ≡ hash_input q k
    → (p ≡ q) × (j ≡ k)
unfolding hash_input
hash_input-injective p q j k (pa, pz) (qa, qz) h =
    let (e, f) = split_at_zero (runes p) (runes q) j k pz qz (rw (pa, qa) at h) in
    (runes-injective p q e, f)

-- The chain from its end: each record's hash, and the chain behind it.
abbrev EndsIn : Codec → String → List Record → Type 0
EndsIn c last [] = last ≡ ""
EndsIn c last (r ∷ rs) =
    (r.record_hash ≡ last)
    × IsLinked c r.previous_record_hash r
    × EndsIn c r.previous_record_hash rs

IsChain-EndsIn :
    (c : Codec) (rs seen : List Record) (previous last : String)
    → IsChain c previous rs last
    → EndsIn c previous seen
    → EndsIn c last (reverse_aux rs seen)
IsChain-EndsIn c [] seen previous last h k = subst (λ (s : String). EndsIn c s seen) h k
IsChain-EndsIn c (r ∷ rs) seen previous last h k =
    let (_, back) = make_record-fields c r.event previous h.0.1 in
    IsChain-EndsIn c rs (r ∷ seen) r.record_hash last h.1 (
      refl,
      subst (λ (s : String). IsLinked c s r) (sym back) h.0,
      subst (λ (s : String). EndsIn c s seen) (sym back) k,
    )

-- What was hashed for a record.
abbrev pub sealed_text : Codec → Record → Option (List ℕ)
sealed_text c r = elim (c.event_json r.event) [
  | none ↦ none
  | some j ↦ some (hash_input r.previous_record_hash j)
]

-- SHA-256 does not collide on a text sealed in one list and a text sealed in the other.
abbrev pub NoCollision : Codec → List Record → List Record → Type 0
NoCollision c rs qs =
    (r q : Record)
    → Mem r rs
    → Mem q qs
    → r.record_hash ≡ q.record_hash
    → sealed_text c r ≡ sealed_text c q

module _ (c : Codec) (laws : CodecLaws c) where
  -- What a sealed record was made of.
  sealed_parts :
      (r : Record) (previous : String)
      → make_record c r.event previous ≡ some r
      → (j : List ℕ) × (c.event_json r.event ≡ some j)
        × (r.record_hash ≡ c.sha256_hex (hash_input previous j))
        × (sealed_text c r ≡ some (hash_input r.previous_record_hash j))
  unfolding make_record
  sealed_parts r previous h = elim (Option-cases (c.event_json r.event)) [
    | inl e ↦ cc (rw e at h)
    | inr (j, e) ↦ (
      j,
      e,
      sym (ap (λ (o : Option Record). elim o [ none ↦ "" | some x ↦ x.record_hash ]) (rw e at h)),
      rw (e, sealed_text),
    )
  ]

  EndsIn-IsTail : (last : String) (rs : List Record) → EndsIn c last rs → IsTail last
  EndsIn-IsTail last [] h = subst IsTail (sym h) empty-IsTail
  EndsIn-IsTail last (r ∷ rs) h =
      let (j, _, hash, _) = sealed_parts r r.previous_record_hash h.1.1 in
      digest-IsTail last (
        subst (λ (s : String). valid_sha256 s ≡ true) (sym hash ∙ h.0)
          (laws.digest (hash_input r.previous_record_hash j)))

  record_hash-ne_empty : (r : Record) → IsLinked c r.previous_record_hash r → r.record_hash ≢ ""
  record_hash-ne_empty r h e =
      let (j, _, hash, _) = sealed_parts r r.previous_record_hash h.1 in
      not_digest_empty (
        subst (λ (s : String). valid_sha256 s ≡ true) (sym hash ∙ e)
          (laws.digest (hash_input r.previous_record_hash j)))

  -- Two records with one hash behind tails of chains are the same record.
  same_record :
      (r q : Record)
      → IsLinked c r.previous_record_hash r
      → IsLinked c q.previous_record_hash q
      → IsTail r.previous_record_hash
      → IsTail q.previous_record_hash
      → r.record_hash ≡ q.record_hash
      → sealed_text c r ≡ sealed_text c q
      → r ≡ q
  same_record r q hr hq tr tq hash texts =
      let (j, ej, _, tj) = sealed_parts r r.previous_record_hash hr.1 in
      let (k, ek, _, tk) = sealed_parts q q.previous_record_hash hq.1 in
      let (prev, json) =
        hash_input-injective r.previous_record_hash q.previous_record_hash j k tr tq
          (cc (tj, tk, texts)) in
      let event = laws.event_injective r.event q.event k (ej ∙ ap some json) ek in
      λ i. record { event = event i; previous_record_hash = prev i; record_hash = hash i }

  EndsIn-eq :
      (last : String) (rs qs : List Record)
      → NoCollision c rs qs
      → EndsIn c last rs
      → EndsIn c last qs
      → rs ≡ qs
  EndsIn-eq last [] [] free h k = refl
  EndsIn-eq last [] (q ∷ qs) free h k = absurd (record_hash-ne_empty q k.1 (k.0 ∙ h))
  EndsIn-eq last (r ∷ rs) [] free h k = absurd (record_hash-ne_empty r h.1 (h.0 ∙ k))
  EndsIn-eq last (r ∷ rs) (q ∷ qs) free h k =
      let hash = h.0 ∙ sym k.0 in
      let same =
        same_record r q h.1 k.1 (EndsIn-IsTail r.previous_record_hash rs h.2)
          (EndsIn-IsTail q.previous_record_hash qs k.2) hash
          (free r q mem-cons_self mem-cons_self hash) in
      let tails =
        EndsIn-eq r.previous_record_hash rs qs
          (λ x y m n. free x y (mem-cons_of_mem r m) (mem-cons_of_mem q n)) h.2
          (subst (λ (s : String). EndsIn c s qs)
            (sym (ap (λ (x : Record). x.previous_record_hash) same)) k.2) in
      λ i. same i ∷ tails i

  -- A chain is fixed by its last hash.
  pub IsChain-eq :
      (rs qs : List Record) (last : String)
      → NoCollision c rs qs
      → IsChain c "" rs last
      → IsChain c "" qs last
      → rs ≡ qs
  IsChain-eq rs qs last free h k =
      sym (reverse-reverse rs)
      ∙ ap reverse (
          EndsIn-eq last (reverse rs) (reverse qs)
            (λ r q m n. free r q (mem-reverse.0 m) (mem-reverse.0 n))
            (IsChain-EndsIn c rs [] "" last h refl) (IsChain-EndsIn c qs [] "" last k refl))
      ∙ reverse-reverse qs

-- Two ledgers that `visitRecords` reads to the end and to the same hash hold the same records, if
-- SHA-256 does not collide on the texts sealed in them.
pub visit_records-last_hash :
    {E : Type 0} (c : Codec) (laws : CodecLaws c) (content content' : List ℕ) (rs qs : List Record)
    (last : String)
    → NoCollision c rs qs
    → visit_records {E = E} c collect (readable content false) [] ≡ (rs, ok last)
    → visit_records {E = E} c collect (readable content' false) [] ≡ (qs, ok last)
    → rs ≡ qs
visit_records-last_hash {E} c laws content content' rs qs last free h k =
    IsChain-eq c laws rs qs last free (visit-Holds {E = E} c content rs last h).1
      (visit-Holds {E = E} c content' qs last k).1
