-- ===== src/Secretscan/Tracked.antt =====
-- The keys of the findings of internal/secretscan/scan.go: each is seen once, and sorting keeps them.
use agent_memory_system.Prelude.{
  ℕ, true, false, List, [], ◌∷◌, ◌++◌, ◌≡◌, sym, subst, ◌∙◌, ◌⊎◌, inl, inr, arith,
}
use agent_memory_system.Prelude.Tests.{
  string_eq, nat_eq, ◌==◌, Bool-cases, eq_of_beq, beq_refl, ◌andalso◌,
}
use agent_memory_system.Prelude.Int.{pos, int_eq}
use agent_memory_system.Prelude.Lists.{All, Any}
use agent_memory_system.Prelude.Order.Chain.{IsPairwise, IsPairwise-concat, All-concat, All-map}
use agent_memory_system.Secretscan.{
  Finding, FindingKey, key_eq, seen_key, less, insert, sort_findings,
}
use agent_memory_system.Secretscan.Found.{insert-All, sort_findings-All}

-- The finding has the detector, the range and the digest of the key.
pub record HasKey (k : FindingKey) (f : Finding) : Type 0 where
  pub detector : f.detector ≡ k.detector
  pub start : f.start_byte ≡ pos k.start
  pub end_ : f.end_byte ≡ pos k.end_
  pub match_sha256 : f.match_sha256 ≡ k.match_sha256

-- Two findings differ in detector, range or digest.
abbrev pub HasOtherKey : Finding → Finding → Type 0
HasOtherKey f g = (k : FindingKey) → HasKey k f → HasKey k g → ⊥

insert-Any :
    (P : Finding → Type 0) (f : Finding) (fs : List Finding) → P f ⊎ Any P fs → Any P (insert f fs)
unfolding insert
insert-Any P f [] p = p
insert-Any P f (g ∷ gs) p = elim (Bool-cases (less g f)) [
  | inl e ↦
      rw (insert, e)
        (elim p [
          | inl h ↦ inr (insert-Any P f gs (inl h))
          | inr (inl h) ↦ inl h
          | inr (inr h) ↦ inr (insert-Any P f gs (inr h))
        ])
  | inr e ↦ rw (insert, e) p
]

pub sort_findings-Any :
    (P : Finding → Type 0) (fs : List Finding) → Any P fs → Any P (sort_findings fs)
unfolding sort_findings
sort_findings-Any P [] h = h
sort_findings-Any P (f ∷ fs) (inl h) = insert-Any P f (sort_findings fs) (inl h)
sort_findings-Any P (f ∷ fs) (inr h) =
    insert-Any P f (sort_findings fs) (inr (sort_findings-Any P fs h))

insert-IsPairwise :
    (f : Finding) (fs : List Finding)
    → All (HasOtherKey f) fs
    → IsPairwise HasOtherKey fs
    → IsPairwise HasOtherKey (insert f fs)
unfolding insert
insert-IsPairwise f [] h p = (tt, tt)
insert-IsPairwise f (g ∷ gs) h p = elim (Bool-cases (less g f)) [
  | inl e ↦
      rw (insert, e)
        (insert-All (HasOtherKey g) f gs (λ k a b. h.0 k b a) p.0, insert-IsPairwise f gs h.1 p.1)
  | inr e ↦ rw (insert, e) (h, p)
]

pub sort_findings-IsPairwise :
    (fs : List Finding) → IsPairwise HasOtherKey fs → IsPairwise HasOtherKey (sort_findings fs)
unfolding sort_findings
sort_findings-IsPairwise [] p = p
sort_findings-IsPairwise (f ∷ fs) p =
    insert-IsPairwise f (sort_findings fs) (sort_findings-All (HasOtherKey f) fs p.0)
      (sort_findings-IsPairwise fs p.1)

key_eq_refl : (k : FindingKey) → key_eq k k ≡ true
unfolding key_eq
key_eq_refl k =
    beq_refl k.detector
    andalso beq_refl k.start
    andalso beq_refl k.end_
    andalso beq_refl k.match_sha256

key_eq_sound : (k l : FindingKey) → key_eq k l ≡ true → k ≡ l
unfolding key_eq
key_eq_sound k l h =
    let parts : ((k.detector == l.detector) ≡ true)
        × ((k.start == l.start) ≡ true)
        × ((k.end_ == l.end_) ≡ true)
        × ((k.match_sha256 == l.match_sha256) ≡ true) =
      ground arith in
    λ i. record {
      detector = eq_of_beq k.detector l.detector parts.0 i;
      start = eq_of_beq k.start l.start parts.1 i;
      end_ = eq_of_beq k.end_ l.end_ parts.2 i;
      match_sha256 = eq_of_beq k.match_sha256 l.match_sha256 parts.3 i;
    }

pos_injective : {a b : ℕ} → pos a ≡ pos b → a ≡ b
pos_injective h = cc h

same_key : (k l : FindingKey) (f : Finding) → HasKey k f → HasKey l f → k ≡ l
same_key k l f p q = λ i. record {
  detector = (sym p.detector ∙ q.detector) i;
  start = pos_injective (sym p.start ∙ q.start) i;
  end_ = pos_injective (sym p.end_ ∙ q.end_) i;
  match_sha256 = (sym p.match_sha256 ∙ q.match_sha256) i;
}

-- The keys seen are those of the findings.
pub record Tracks (findings : List Finding) (seen : List FindingKey) : Type 0 where
  pub each : All (λ f. (k : FindingKey) × HasKey k f × (seen_key k seen ≡ true)) findings
  pub all_seen : (k : FindingKey) → seen_key k seen ≡ true → Any (HasKey k) findings
  pub distinct : IsPairwise HasOtherKey findings

Any-front : {A : Type 0} (P : A → Type 0) (xs ys : List A) → Any P xs → Any P (xs ++ ys)
Any-front P [] ys h = elim h [ ]
Any-front P (x ∷ xs) ys (inl h) = inl h
Any-front P (x ∷ xs) ys (inr h) = inr (Any-front P xs ys h)

Any-last : {A : Type 0} (P : A → Type 0) (xs : List A) (y : A) → P y → Any P (xs ++ y ∷ [])
Any-last P [] y h = inl h
Any-last P (x ∷ xs) y h = inr (Any-last P xs y h)

pub seen_later :
    (k l : FindingKey) (seen : List FindingKey)
    → seen_key k seen ≡ true
    → seen_key k (l ∷ seen) ≡ true
unfolding seen_key
seen_later k l seen h = ground (arith, h)

pub seen_now : (k : FindingKey) (seen : List FindingKey) → seen_key k (k ∷ seen) ≡ true
unfolding seen_key
seen_now k seen = ground (arith, key_eq_refl k)

-- A finding with a key that is not seen.
pub Tracks-new :
    (fs : List Finding) (seen : List FindingKey) (f : Finding) (k : FindingKey)
    → Tracks fs seen
    → HasKey k f
    → seen_key k seen ≡ false
    → Tracks (fs ++ f ∷ []) (k ∷ seen)
unfolding seen_key
Tracks-new fs seen f k t own new = record {
  each =
      All-concat _ fs f (All-map (λ g p. (p.0, p.1, seen_later p.0 k seen p.2)) fs t.each)
        (k, own, seen_now k seen);
  all_seen = λ l h. elim (Bool-cases (key_eq l k)) [
    | inl e ↦ Any-last (HasKey l) fs f (subst (λ x. HasKey x f) (sym (key_eq_sound l k e)) own)
    | inr e ↦ Any-front (HasKey l) fs (f ∷ []) (t.all_seen l (ground (arith, h)))
  ];
  distinct = IsPairwise-concat HasOtherKey fs f t.distinct (
      All-map (λ g p l in_g in_f. cc (p.2, new, same_key p.0 l g p.1 in_g, same_key l k f in_f own))
        fs t.each);
}
