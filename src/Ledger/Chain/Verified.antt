-- ===== src/Ledger/Chain/Verified.antt =====
-- The chain that `visitRecords` of internal/ledger/ledger.go accepts, described without the loop.
use agent_memory_system.Prelude.{
  ℕ, suc, String, Bool, true, false, ◌||◌, Option, none, some, List, [], ◌∷◌, ◌≡◌, refl, ap, ◌∙◌,
  sym, inl, inr, arith, ◌↔◌, subst,
}
use agent_memory_system.Prelude.Tests.{
  string_eq, ◌!=◌, eq_of_not-ne, beq_refl, or-false, Bool-cases, Option-cases,
}
use agent_memory_system.Prelude.Result.{
  Result, ok, err, ◌>>=◌, ◌>>◌, fail_if, fail_if-then, wrap, Result-cases,
}
use agent_memory_system.Prelude.Text.{trim_bytes}
use agent_memory_system.Ledger.Types.{Event, Record, Codec}
use agent_memory_system.Ledger.Validate.{EventError, validate_event}
use agent_memory_system.Ledger.Lines.{ends_line, split_lines}
use agent_memory_system.Ledger.Chain.{
  make_record, ScanError, invalid_event, hash_failed, integrity_failure, LedgerFile, absent,
  unopenable, readable, or_error, check_record, check_line, Visitor, visit_lines, visit_records,
  last_hash_lines, last_record_hash,
}

-- A valid event, sealed behind the record whose hash is `previous`.
abbrev pub IsLinked : Codec → String → Record → Type 0
IsLinked c previous r =
    (validate_event c.sha256_hex r.event ≡ ok tt) × (make_record c r.event previous ≡ some r)

-- The records form a chain from the hash `previous` to the hash `last`.
abbrev pub IsChain : Codec → String → List Record → String → Type 0
IsChain c previous [] last = previous ≡ last
IsChain c previous (r ∷ rs) last = IsLinked c previous r × IsChain c r.record_hash rs last

-- The lines are complete and decode to the records, one for one.
abbrev pub Decodes : Codec → List (List ℕ) → List Record → Type 0
Decodes c [] [] = Unit
Decodes c (l ∷ ls) (r ∷ rs) =
    (ends_line l ≡ true) × (c.parse_record (trim_bytes l) ≡ some r) × Decodes c ls rs
Decodes c _ _ = ⊥

-- The callback on all the records in order, up to its first error.
unfoldable pub visit_all : {S E : Type 0} → Visitor S E → List Record → S → S × Option E
visit_all visitor [] s = (s, none)
visit_all visitor (r ∷ rs) s =
    let (s', e) = visitor r s in elim e [ some x ↦ (s', some x) | none ↦ visit_all visitor rs s' ]

or_error-eq-ok :
    {E A : Type 0} (o : Option A) (e : ScanError E) {a : A} → or_error o e ≡ ok a → o ≡ some a
or_error-eq-ok none e h = cc
or_error-eq-ok (some a) e h = cc

-- A sealed record carries the event and the hash that it was sealed with.
pub make_record-fields :
    (c : Codec) (event : Event) (previous : String) {r : Record}
    → make_record c event previous ≡ some r
    → (r.event ≡ event) × (r.previous_record_hash ≡ previous)
unfolding make_record
make_record-fields c event previous h = ground arith

-- The tests behind the decoding, over the results of the two calls that they make.
check_parts :
    {E : Type 0} (previous : String) (n : ℕ) (r' r : Record) (v : Result EventError (Unit {0}))
    (m : Option Record)
    → (do
      wrap {E = ScanError E} (invalid_event n) v
      expected ← or_error m (hash_failed n)
      fail_if
          (r'.previous_record_hash != previous || r'.record_hash != expected.record_hash)
          (integrity_failure n)
      ok r')
      ≡ ok r
    → (v ≡ ok tt)
      × (r' ≡ r)
      × (x : Record) × (m ≡ some x)
      × (r'.previous_record_hash ≡ previous)
      × (r'.record_hash ≡ x.record_hash)
check_parts previous n r' r (err e) m h = cc
check_parts previous n r' r (ok tt) none h = cc
check_parts previous n r' r (ok tt) (some x) h =
    let (same, result) = fail_if-then _ _ _ h in
    let (p, q) = or-false _ _ same in
    (refl, cc result, x, refl, eq_of_not-ne _ _ p, eq_of_not-ne _ _ q)

Record-path :
    {r x : Record}
    → r.event ≡ x.event
    → r.previous_record_hash ≡ x.previous_record_hash
    → r.record_hash ≡ x.record_hash
    → r ≡ x
Record-path p q h i = record { event = p i; previous_record_hash = q i; record_hash = h i }

-- A record with the hash that `makeRecord` gives its event is what `makeRecord` returns.
pub make_record-eq :
    (c : Codec) (previous : String) (r x : Record)
    → make_record c r.event previous ≡ some x
    → r.previous_record_hash ≡ previous
    → r.record_hash ≡ x.record_hash
    → make_record c r.event previous ≡ some r
make_record-eq c previous r x made prev hash =
    let (e, q) = make_record-fields c r.event previous made in
    made ∙ ap some (Record-path e (q ∙ sym prev) (sym hash))

module _ {E : Type 0} (c : Codec) (previous : String) (n : ℕ) where
  check_record_sound :
      (r' r : Record)
      → check_record {E = E} c previous n r' ≡ ok r
      → (r' ≡ r) × IsLinked c previous r'
  unfolding check_record
  check_record_sound r' r h =
      let (valid, same, x, made, prev, hash) =
        check_parts previous n r' r (validate_event c.sha256_hex r'.event)
          (make_record c r'.event previous) h in
      (same, (valid, make_record-eq c previous r' x made prev hash))

  check_record_complete :
      (r : Record) → IsLinked c previous r → check_record {E = E} c previous n r ≡ ok r
  unfolding check_record
  check_record_complete r l = ground (
    arith,
    make_record-fields c r.event previous l.1,
    string_eq.same_iff r.previous_record_hash previous,
    beq_refl r.record_hash,
  )

  pub check_line_sound :
      (line : List ℕ) {r : Record}
      → check_line {E = E} c previous n line ≡ ok r
      → (ends_line line ≡ true)
        × (c.parse_record (trim_bytes line) ≡ some r)
        × IsLinked c previous r
  unfolding check_line
  check_line_sound line {r} h = elim (Bool-cases (ends_line line)) [
    | inr e ↦ cc (rw e at h)
    | inl e ↦ elim (Option-cases (c.parse_record (trim_bytes line))) [
      | inl p ↦ cc (rw (e, p) at h)
      | inr (r', p) ↦
          let (same, linked) = check_record_sound r' r (rw (e, p) at h) in
          (e, p ∙ ap some same, subst (IsLinked c previous) same linked)
    ]
  ]

  pub check_line_complete :
      (line : List ℕ) (r : Record)
      → ends_line line ≡ true
      → c.parse_record (trim_bytes line) ≡ some r
      → IsLinked c previous r
      → check_line {E = E} c previous n line ≡ ok r
  unfolding check_line
  check_line_complete line r e p l = rw (e, p) (check_record_complete r l)

-- The records and the last hash that a successful reading shows.
abbrev pub Reads :
    {S E : Type 0} → Codec → Visitor S E → S → String → List (List ℕ) → S → String → Type 0
Reads c visitor s previous lines s' last =
    (rs : List Record) × Decodes c lines rs
    × IsChain c previous rs last
    × (visit_all visitor rs s ≡ (s', none))

module _ {S E : Type 0} (c : Codec) (visitor : Visitor S E) where
  visit_lines_sound :
      (s : S) (previous : String) (n : ℕ) (lines : List (List ℕ)) {s' : S} {last : String}
      → visit_lines c visitor false s previous n lines ≡ (s', ok last)
      → Reads c visitor s previous lines s' last
  unfolding visit_lines visit_all
  visit_lines_sound s previous n [] h = ([], tt, cc h, cc h)
  visit_lines_sound s previous n (line ∷ lines) {s'} {last} h =
      elim (Result-cases (check_line {E = E} c previous (suc n) line)) [
        | inr (e, p) ↦ cc (rw (p, visit_lines) at h)
        | inl (r, p) ↦ elim (Option-cases (visitor r s).1) [
          | inr (x, q) ↦ cc (rw (p, q, visit_lines) at h)
          | inl q ↦
              let (ends, parsed, linked) = check_line_sound c previous (suc n) line p in
              let (rs, decoded, chain, all) =
                visit_lines_sound (visitor r s).0 r.record_hash (suc n) lines
                  (rw (p, q, visit_lines) at h) in
              (r ∷ rs, (ends, parsed, decoded), (linked, chain), rw (q, visit_all) all)
        ]
      ]

  visit_lines_complete :
      (s : S) (previous : String) (n : ℕ) (lines : List (List ℕ)) (rs : List Record) {s' : S}
      {last : String}
      → Decodes c lines rs
      → IsChain c previous rs last
      → visit_all visitor rs s ≡ (s', none)
      → visit_lines c visitor false s previous n lines ≡ (s', ok last)
  unfolding visit_lines visit_all
  visit_lines_complete s previous n [] [] d h v = cc
  visit_lines_complete s previous n [] (r ∷ rs) d h v = elim d [ ]
  visit_lines_complete s previous n (line ∷ lines) [] d h v = elim d [ ]
  visit_lines_complete s previous n (line ∷ lines) (r ∷ rs) d h v =
      rw (check_line_complete {E = E} c previous (suc n) line r d.0 d.1 h.0, visit_lines)
        (elim (Option-cases (visitor r s).1) [
          | inr (x, q) ↦ cc (rw (q, visit_all) at v)
          | inl q ↦
              rw (q, visit_lines)
                (visit_lines_complete (visitor r s).0 r.record_hash (suc n) lines rs d.2 h.1
                  (rw (q, visit_all) at v))
        ])

  -- A ledger without read faults is visited to its end exactly if its lines are complete and decode
  -- to records that chain from the empty hash, and the visitor accepts them in order; the hash that
  -- is returned is then the chain's last.
  pub visit_records_exact :
      (content : List ℕ) (s s' : S) (last : String)
      → (visit_records c visitor (readable content false) s ≡ (s', ok last))
        ↔ Reads c visitor s "" (split_lines content) s' last
  unfolding visit_records
  visit_records_exact content s s' last = (
    visit_lines_sound s "" 0 (split_lines content),
    λ r. visit_lines_complete s "" 0 (split_lines content) r.0 r.1 r.2 r.3,
  )

-- `lastRecordHash` agrees with a visit that does nothing, on every file and with the same errors.
abbrev pub accept_all : {E : Type 0} → Visitor (Unit {0}) E
accept_all r s = (s, none)

last_hash_lines-visit_lines :
    {E : Type 0} (c : Codec) (fault : Bool) (previous : String) (n : ℕ) (lines : List (List ℕ))
    → last_hash_lines {E = E} c fault previous n lines
      ≡ (visit_lines c accept_all fault tt previous n lines).1
unfolding last_hash_lines visit_lines
last_hash_lines-visit_lines c fault previous n [] = refl
last_hash_lines-visit_lines {E} c fault previous n (line ∷ lines) =
    elim (Result-cases (check_line {E = E} c previous (suc n) line)) [
      | inr (e, p) ↦ rw (p, last_hash_lines, visit_lines)
      | inl (r, p) ↦
          rw (p, last_hash_lines, visit_lines)
            (last_hash_lines-visit_lines c fault r.record_hash (suc n) lines)
    ]

-- lastRecordHash returns what a visit that accepts every record returns, errors included, also for a
-- missing or unreadable ledger.
pub last_record_hash-visit_records :
    {E : Type 0} (c : Codec) (file : LedgerFile)
    → last_record_hash {E = E} c file ≡ (visit_records c accept_all file tt).1
unfolding last_record_hash visit_records
last_record_hash-visit_records c absent = refl
last_record_hash-visit_records c unopenable = refl
last_record_hash-visit_records c (readable content fault) =
    last_hash_lines-visit_lines c fault "" 0 (split_lines content)

-- No reading succeeds past a read fault.
last_hash_lines-fault :
    {E : Type 0} (c : Codec) (previous : String) (n : ℕ) (lines : List (List ℕ)) {last : String}
    → last_hash_lines {E = E} c true previous n lines ≡ ok last
    → ⊥
unfolding last_hash_lines
last_hash_lines-fault c previous n [] h = cc h
last_hash_lines-fault {E} c previous n (line ∷ lines) h =
    elim (Result-cases (check_line {E = E} c previous (suc n) line)) [
      | inr (e, p) ↦ cc (rw (p, last_hash_lines) at h)
      | inl (r, p) ↦
          last_hash_lines-fault {E = E} c r.record_hash (suc n) lines (rw (p, last_hash_lines) at h)
    ]

-- A tail that is found behind the lines of a file is the end of a chain that they decode to.
pub last_record_hash_sound :
    {E : Type 0} (c : Codec) (content : List ℕ) (fault : Bool) (last : String)
    → last_record_hash {E = E} c (readable content fault) ≡ ok last
    → (rs : List Record) × Decodes c (split_lines content) rs × IsChain c "" rs last
last_record_hash_sound {E} c content true last h = absurd (
    last_hash_lines-fault {E = E} c "" 0 (split_lines content) {last = last}
      (unfold last_record_hash in h))
last_record_hash_sound {E} c content false last h =
    let visited : visit_records {E = E} c accept_all (readable content false) tt ≡ (tt, ok last) =
      λ i. (tt, (sym (last_record_hash-visit_records {E = E} c (readable content false)) ∙ h) i) in
    let (rs, decoded, chain, _) = (visit_records_exact c accept_all content tt tt last).0 visited in
    (rs, decoded, chain)
