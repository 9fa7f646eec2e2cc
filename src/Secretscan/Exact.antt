-- ===== src/Secretscan/Exact.antt =====
-- What `Scan` of internal/secretscan/scan.go reports: exactly the matches and tokens that it is to
-- report, each key once.
use agent_memory_system.Prelude.{
  ℕ, Bool, true, false, not, ◌||◌, List, [], ◌∷◌, ◌≡◌, refl, ◌⊎◌, inl, inr, arith,
}
use agent_memory_system.Prelude.Tests.{string_eq, nat_eq, leb, ltb, Bool-cases}
use agent_memory_system.Prelude.Int.{int_eq}
use agent_memory_system.Prelude.Lists.{length, All, Any, All-append}
use agent_memory_system.Prelude.Order.Chain.{IsPairwise, All-map}
use agent_memory_system.Secretscan.{
  Finding, Match, FindingKey, Detectors, Scanning, slice, valid_replacement, seen_key,
  sort_findings, key_of, finding_of, add_finding, add_match, add_token, add_all, nothing_found,
  found, scan,
}
use agent_memory_system.Secretscan.Found.{InRange, sort_findings-All}
use agent_memory_system.Secretscan.Tracked.{
  HasKey, HasOtherKey, sort_findings-Any, sort_findings-IsPairwise, Tracks, Tracks-new, seen_later,
  seen_now,
}

-- The match is one of these.
abbrev pub IsOneOf : List Match → Match → Type 0
IsOneOf ms m = Any (λ n. n ≡ m) ms

module _ (d : Detectors) (content : List ℕ) where
  -- A finding is that of a detector's match which is no placeholder, or that of a token of high entropy;
  -- the range is not empty and inside the content.
  pub data IsFound (f : Finding) : Type 0 where
    matched :
        (m : Match)
        → IsOneOf (d.matches content) m
        → valid_replacement (slice content m.start m.end_) ≡ false
        → InRange content m
        → f ≡ finding_of d m (key_of d content m)
        → IsFound f
    token :
        (m : Match)
        → IsOneOf (d.tokens content) m
        → d.high_entropy (slice content m.start m.end_) ≡ true
        → InRange content m
        → f ≡ finding_of d m (key_of d content m)
        → IsFound f

  -- The range is empty or leaves the content, or the text is passed over, or a finding has its key.
  pub data IsReported (passed : List ℕ → Bool) (fs : List Finding) (m : Match) : Type 0 where
    outside : (leb m.end_ m.start || ltb (length content) m.end_) ≡ true → IsReported passed fs m
    passed_over : passed (slice content m.start m.end_) ≡ true → IsReported passed fs m
    reported : Any (HasKey (key_of d content m)) fs → IsReported passed fs m

every_listed : (ms : List Match) → All (IsOneOf ms) ms
every_listed [] = tt
every_listed (m ∷ ms) = (inl refl, All-map (λ n h. inr h) ms (every_listed ms))

module _ (d : Detectors) (content : List ℕ) where
  abbrev is_outside : Match → Bool
  is_outside m = leb m.end_ m.start || ltb (length content) m.end_

  abbrev IsSeen : Match → Scanning → Type 0
  IsSeen m s = seen_key (key_of d content m) s.seen ≡ true

  -- What a scan so far keeps.
  record Sound (s : Scanning) : Type 0 where
    tracks : Tracks s.findings s.seen
    found : All (IsFound d content) s.findings

  -- The match is passed over, or its key is seen.
  abbrev Settled : (List ℕ → Bool) → Scanning → Match → Type 0
  Settled passed s m =
      (is_outside m ≡ true) ⊎ ((passed (slice content m.start m.end_) ≡ true) ⊎ IsSeen m s)

  key_of-HasKey : (m : Match) → HasKey (key_of d content m) (finding_of d m (key_of d content m))
  unfolding key_of finding_of
  key_of-HasKey m = record { detector = refl; start = refl; end_ = refl; match_sha256 = refl }

  range_of : (m : Match) → is_outside m ≡ false → InRange content m
  range_of m h = ground arith

  add_finding-Sound :
      (s : Scanning) (m : Match)
      → (InRange content m → IsFound d content (finding_of d m (key_of d content m)))
      → Sound s
      → Sound (add_finding d content s m)
        × ((is_outside m ≡ true) ⊎ IsSeen m (add_finding d content s m))
  unfolding add_finding
  add_finding-Sound s m is_found p = elim (Bool-cases (is_outside m)) [
    | inl e ↦ (rw e p, inl e)
    | inr e ↦ elim (Bool-cases (seen_key (key_of d content m) s.seen)) [
      | inl k ↦ (rw (e, k) p, inr (rw (e, k) k))
      | inr k ↦
          rw (e, k)
            (
              record {
                tracks =
                    Tracks-new s.findings s.seen (finding_of d m (key_of d content m))
                      (key_of d content m) p.tracks (key_of-HasKey m) k;
                found =
                    All-append (IsFound d content) s.findings _ p.found
                      (is_found (range_of m e), tt);
              },
              inr (seen_now (key_of d content m) s.seen),
            )
    ]
  ]

  add_finding-keeps :
      (s : Scanning) (m : Match) (k : FindingKey)
      → seen_key k s.seen ≡ true
      → seen_key k (add_finding d content s m).seen ≡ true
  unfolding add_finding
  add_finding-keeps s m k h = elim (Bool-cases (is_outside m)) [
    | inl e ↦ rw e h
    | inr e ↦ elim (Bool-cases (seen_key (key_of d content m) s.seen)) [
      | inl l ↦ rw (e, l) h
      | inr l ↦ rw (e, l) (seen_later k (key_of d content m) s.seen h)
    ]
  ]

  add_match-Sound :
      (s : Scanning) (m : Match)
      → IsOneOf (d.matches content) m
      → Sound s
      → Sound (add_match d content s m) × Settled valid_replacement (add_match d content s m) m
  unfolding add_match
  add_match-Sound s m one p = elim (Bool-cases (valid_replacement (slice content m.start m.end_))) [
    | inl e ↦ rw (add_match, e) (p, inr (inl refl))
    | inr e ↦
        let (sound, settled) = add_finding-Sound s m (λ r. matched m one e r refl) p in
        rw (add_match, e) (sound, elim settled [ inl o ↦ inl o | inr n ↦ inr (inr n) ])
  ]

  add_token-Sound :
      (s : Scanning) (m : Match)
      → IsOneOf (d.tokens content) m
      → Sound s
      → Sound (add_token d content s m)
        × Settled (λ t. not (d.high_entropy t)) (add_token d content s m) m
  unfolding add_token
  add_token-Sound s m one p = elim (Bool-cases (d.high_entropy (slice content m.start m.end_))) [
    | inl e ↦
        let (sound, settled) = add_finding-Sound s m (λ r. token m one e r refl) p in
        rw (add_token, e) (sound, elim settled [ inl o ↦ inl o | inr n ↦ inr (inr n) ])
    | inr e ↦ rw (add_token, e) (p, inr (inl refl))
  ]

  add_match-keeps :
      (s : Scanning) (m : Match) (k : FindingKey)
      → seen_key k s.seen ≡ true
      → seen_key k (add_match d content s m).seen ≡ true
  unfolding add_match
  add_match-keeps s m k h = elim (Bool-cases (valid_replacement (slice content m.start m.end_))) [
    | inl e ↦ rw e h
    | inr e ↦ rw e (add_finding-keeps s m k h)
  ]

  add_token-keeps :
      (s : Scanning) (m : Match) (k : FindingKey)
      → seen_key k s.seen ≡ true
      → seen_key k (add_token d content s m).seen ≡ true
  unfolding add_token
  add_token-keeps s m k h = elim (Bool-cases (d.high_entropy (slice content m.start m.end_))) [
    | inl e ↦ rw e (add_finding-keeps s m k h)
    | inr e ↦ rw e h
  ]

  Settled-keeps :
      (passed : List ℕ → Bool) (s t : Scanning)
      → ((k : FindingKey) → seen_key k s.seen ≡ true → seen_key k t.seen ≡ true)
      → (m : Match) → Settled passed s m
      → Settled passed t m
  Settled-keeps passed s t keeps m (inl o) = inl o
  Settled-keeps passed s t keeps m (inr (inl p)) = inr (inl p)
  Settled-keeps passed s t keeps m (inr (inr h)) = inr (inr (keeps (key_of d content m) h))

  -- A loop whose body settles the match that it is given.
  module _ (passed : List ℕ → Bool) (every : List Match) (body : Scanning → Match → Scanning)
      (step : (s : Scanning) (m : Match)
        → IsOneOf every m
        → Sound s
        → Sound (body s m) × Settled passed (body s m) m)
      (keeps : (s : Scanning) (m : Match) (k : FindingKey)
        → seen_key k s.seen ≡ true
        → seen_key k (body s m).seen ≡ true) where
    add_all-keeps :
        (ms : List Match) (s : Scanning) (k : FindingKey)
        → seen_key k s.seen ≡ true
        → seen_key k (add_all body s ms).seen ≡ true
    unfolding add_all
    add_all-keeps [] s k h = h
    add_all-keeps (m ∷ ms) s k h = add_all-keeps ms (body s m) k (keeps s m k h)

    add_all-Sound :
        (ms : List Match) (s : Scanning)
        → All (IsOneOf every) ms
        → Sound s
        → Sound (add_all body s ms) × All (Settled passed (add_all body s ms)) ms
    unfolding add_all
    add_all-Sound [] s one p = (p, tt)
    add_all-Sound (m ∷ ms) s one p =
        let (here, settled) = step s m one.0 p in
        let (sound, others) = add_all-Sound ms (body s m) one.1 here in
        (
          sound,
          (
            Settled-keeps passed (body s m) (add_all body (body s m) ms)
                (add_all-keeps ms (body s m)) m settled,
            others,
          ),
        )

  Settled-IsReported :
      (passed : List ℕ → Bool) (s : Scanning) (m : Match)
      → Sound s
      → Settled passed s m
      → IsReported d content passed (sort_findings s.findings) m
  Settled-IsReported passed s m p (inl o) = outside o
  Settled-IsReported passed s m p (inr (inl h)) = passed_over h
  Settled-IsReported passed s m p (inr (inr h)) = reported (
      sort_findings-Any (HasKey (key_of d content m)) s.findings
        (p.tracks.all_seen (key_of d content m) h))

  nothing-Sound : Sound nothing_found
  unfolding seen_key
  nothing-Sound = record {
    tracks = record { each = tt; all_seen = λ k h. cc h; distinct = tt };
    found = tt;
  }

  abbrev is_plain : List ℕ → Bool
  is_plain t = not (d.high_entropy t)

  -- Each finding is that of a detector's match which is no placeholder of a redaction, or that of a
  -- token of high entropy, in a range inside the content that is not empty; each such match and token has
  -- a finding with its detector, range and digest; and no two findings agree in these.
  pub scan_exact :
      All (IsFound d content) (scan d content).findings
      × All (IsReported d content valid_replacement (scan d content).findings) (d.matches content)
      × All
          (IsReported d content (λ t. not (d.high_entropy t)) (scan d content).findings)
          (d.tokens content)
      × IsPairwise HasOtherKey (scan d content).findings
  unfolding scan found
  scan_exact =
      let first = add_all (add_match d content) nothing_found (d.matches content) in
      let last = add_all (add_token d content) first (d.tokens content) in
      let (sound, matches) =
        add_all-Sound valid_replacement (d.matches content) (add_match d content) add_match-Sound
          add_match-keeps (d.matches content) nothing_found (every_listed (d.matches content))
          nothing-Sound in
      let (all, tokens) =
        add_all-Sound is_plain (d.tokens content) (add_token d content) add_token-Sound
          add_token-keeps (d.tokens content) first (every_listed (d.tokens content)) sound in
      let kept =
        add_all-keeps is_plain (d.tokens content) (add_token d content) add_token-Sound
          add_token-keeps (d.tokens content) first in
      (
        sort_findings-All (IsFound d content) last.findings all.found,
        All-map
            (λ m h.
              Settled-IsReported valid_replacement last m all
                (Settled-keeps valid_replacement first last kept m h))
            (d.matches content) matches,
        All-map (λ m h. Settled-IsReported is_plain last m all h) (d.tokens content) tokens,
        sort_findings-IsPairwise last.findings all.tracks.distinct,
      )
