-- ===== src/Ledger/Appender/RoundTrip.antt =====
-- What `AppendBatch` of internal/ledger/ledger.go writes is what `visitRecords` reads.
use agent_memory_system.Prelude.{
  ℕ, String, false, Option, none, some, List, [], ◌∷◌, ◌++◌, ◌≡◌, refl, sym, append-nil, arith, inl,
  inr, subst,
}
use agent_memory_system.Prelude.Tests.{nat_eq}
use agent_memory_system.Prelude.Result.{
  ok, wrap, fail_if-then, then-eq-ok, bind-eq-ok, wrap-eq-ok, ok-injective, Result-cases,
}
use agent_memory_system.Ledger.Types.{BlobRef, Event, Record, Codec, CodecLaws, blob_of}
use agent_memory_system.Ledger.Validate.{validate_event}
use agent_memory_system.Ledger.Lines.{
  newline, AllEnd, split_lines_append_complete, split_lines, split_lines-append, ends_line-append,
  trim_bytes-object,
}
use agent_memory_system.Ledger.Chain.{make_record, visit_records, readable}
use agent_memory_system.Ledger.Chain.Verified.{IsChain, Decodes, make_record-fields}
use agent_memory_system.Ledger.Chain.Collect.{collect, Holds, visit-Holds, Holds-visit}
use agent_memory_system.Ledger.Appender.{
  AppendError, appender_closed, unusable, Io, Writer, Batch, put_front, or_failed, check_blob,
  check_events, make_batch, commit, prepare, append_batch, event_rejected, encode_event,
  encode_record,
}

-- Every event of a batch that is sealed has passed its tests.
abbrev pub AllValid : Codec → List Event → Type 0
AllValid c [] = Unit
AllValid c (e ∷ es) = (validate_event c.sha256_hex e ≡ ok tt) × AllValid c es

module _ {B : Type 0} where
  pub check_events-AllValid :
      (c : Codec) (verify_blob : BlobRef → Option B) (es : List Event)
      → check_events c verify_blob es ≡ ok tt
      → AllValid c es
  unfolding check_events
  check_events-AllValid c verify_blob [] h = tt
  check_events-AllValid c verify_blob (e ∷ es) h =
      let (valid, h1) = then-eq-ok (wrap event_rejected (validate_event c.sha256_hex e)) _ h in
      let (blob, rest) = then-eq-ok (check_blob verify_blob (blob_of e.payload)) _ h1 in
      (
        wrap-eq-ok event_rejected (validate_event c.sha256_hex e) valid,
        check_events-AllValid c verify_blob es rest,
      )

  pub or_failed-eq-ok :
      {A : Type 0} (o : Option A) (e : AppendError B) {a : A} → or_failed o e ≡ ok a → o ≡ some a
  or_failed-eq-ok none e h = cc
  or_failed-eq-ok (some a) e h = cc

-- The records of a batch form a chain behind the hash, and its bytes decode to them.
abbrev pub IsSealed : Codec → String → Batch → Type 0
IsSealed c previous b =
    IsChain c previous b.records b.last × Decodes c (split_lines b.buffer) b.records

module _ (c : Codec) (laws : CodecLaws c) where
  -- A line of JSON with its newline is complete, and decodes to its record.
  line-Decodes :
      (r : Record) (line rest : List ℕ) (rs : List Record)
      → c.record_json r ≡ some line
      → Decodes c (split_lines rest) rs
      → Decodes c (split_lines (line ++ newline ∷ rest)) (r ∷ rs)
  line-Decodes r line rest rs h d =
      let (mid, shape, plain) = laws.object_text r line h in
      rw (split_lines-append line rest plain) (
        ends_line-append line,
        rw (shape, trim_bytes-object mid) (rw shape at (laws.round_trip r line h)),
        d,
      )

  put_front-IsSealed :
      (previous : String) (e : Event) (r : Record) (line : List ℕ) (rest : Batch)
      → validate_event c.sha256_hex e ≡ ok tt
      → make_record c e previous ≡ some r
      → c.record_json r ≡ some line
      → IsSealed c r.record_hash rest
      → IsSealed c previous (put_front r line rest)
  put_front-IsSealed previous e r line rest valid made encoded s =
      let (same, _) = make_record-fields c e previous made in
      (
        (
          (
            subst (λ (x : Event). validate_event c.sha256_hex x ≡ ok tt) (sym same) valid,
            subst (λ (x : Event). make_record c x previous ≡ some r) (sym same) made,
          ),
          s.0,
        ),
        line-Decodes r line rest.buffer rest.records encoded s.1,
      )

  pub make_batch-IsSealed :
      {B : Type 0} (previous : String) (es : List Event) {b : Batch}
      → AllValid c es
      → make_batch {B = B} c previous es ≡ ok b
      → IsSealed c previous b
  unfolding make_batch split_lines
  make_batch-IsSealed previous [] v h = subst (IsSealed c previous) (ok-injective h) (refl, tt)
  make_batch-IsSealed {B} previous (e ∷ es) v h =
      let (r, sealed, h1) = bind-eq-ok (or_failed (make_record c e previous) encode_event) _ h in
      let (line, encoded, h2) = bind-eq-ok (or_failed (c.record_json r) encode_record) _ h1 in
      let (rest, made, h3) = bind-eq-ok (make_batch c r.record_hash es) _ h2 in
      subst (IsSealed c previous) (ok-injective h3) (
        put_front-IsSealed previous e r line rest v.0
          (or_failed-eq-ok (make_record c e previous) _ sealed)
          (or_failed-eq-ok (c.record_json r) _ encoded)
          (make_batch-IsSealed r.record_hash es v.1 made))

Decodes-AllEnd : (c : Codec) (ls : List (List ℕ)) (rs : List Record) → Decodes c ls rs → AllEnd ls
unfolding AllEnd
Decodes-AllEnd c [] [] d = tt
Decodes-AllEnd c [] (r ∷ rs) d = elim d [ ]
Decodes-AllEnd c (l ∷ ls) [] d = elim d [ ]
Decodes-AllEnd c (l ∷ ls) (r ∷ rs) d = (d.0, Decodes-AllEnd c ls rs d.2)

Decodes-append :
    (c : Codec) (ls ks : List (List ℕ)) (rs qs : List Record)
    → Decodes c ls rs
    → Decodes c ks qs
    → Decodes c (ls ++ ks) (rs ++ qs)
Decodes-append c [] ks [] qs d e = e
Decodes-append c [] ks (r ∷ rs) qs d e = elim d [ ]
Decodes-append c (l ∷ ls) ks [] qs d e = elim d [ ]
Decodes-append c (l ∷ ls) ks (r ∷ rs) qs d e = (d.0, d.1, Decodes-append c ls ks rs qs d.2 e)

IsChain-append :
    (c : Codec) (rs qs : List Record) (previous middle last : String)
    → IsChain c previous rs middle
    → IsChain c middle qs last
    → IsChain c previous (rs ++ qs) last
IsChain-append c [] qs previous middle last h k =
    subst (λ (p : String). IsChain c p qs last) (sym h) k
IsChain-append c (r ∷ rs) qs previous middle last h k =
    (h.0, IsChain-append c rs qs r.record_hash middle last h.1 k)

module _ {B : Type 0} (c : Codec) (laws : CodecLaws c) (verify_blob : BlobRef → Option B) (io : Io)
    (w : Writer) where
  -- A batch that is returned has been tested, sealed and written whole.
  commit-ok :
      (b : Batch) {w' : Writer} {records : List Record}
      → commit {B = B} io w b ≡ (w', ok records)
      → (records ≡ b.records)
        × (w'.content ≡ w.content ++ b.buffer)
        × (w'.appender.previous ≡ b.last)
  unfolding commit
  commit-ok b h = ground arith

  prepare-IsSealed :
      (events : List Event) {b : Batch}
      → prepare c verify_blob w events ≡ ok b
      → IsSealed c w.appender.previous b
  unfolding prepare
  prepare-IsSealed events h =
      let (_, h1) = fail_if-then w.appender.closed appender_closed _ h in
      let (_, h2) = fail_if-then w.appender.failed unusable _ h1 in
      let (tested, h3) = then-eq-ok (check_events c verify_blob events) _ h2 in
      make_batch-IsSealed c laws w.appender.previous events
        (check_events-AllValid c verify_blob events tested) h3

  append_Holds :
      (b : Batch) (rs : List Record)
      → Holds c w.content rs w.appender.previous
      → IsSealed c w.appender.previous b
      → Holds c (w.content ++ b.buffer) (rs ++ b.records) b.last
  append_Holds b rs h s = (
    subst (λ (ls : List (List ℕ)). Decodes c ls (rs ++ b.records))
        (sym (
          split_lines_append_complete w.content b.buffer
            (Decodes-AllEnd c (split_lines w.content) rs h.0)))
        (Decodes-append c (split_lines w.content) (split_lines b.buffer) rs b.records h.0 s.1),
    IsChain-append c rs b.records "" w.appender.previous b.last h.1 s.0,
  )

  pub append_batch-Holds :
      (events : List Event) (rs : List Record) {w' : Writer} {records : List Record}
      → Holds c w.content rs w.appender.previous
      → append_batch c verify_blob io w events ≡ (w', ok records)
      → Holds c w'.content (rs ++ records) w'.appender.previous
  unfolding append_batch
  append_batch-Holds [] rs {w'} {records} h e =
      let none_added : (w' ≡ w) × (records ≡ []) = ground arith in
      rw (none_added.0, none_added.1, append-nil) h
  append_batch-Holds (x ∷ xs) rs {w'} {records} h e =
      elim (Result-cases (prepare c verify_blob w (x ∷ xs))) [
        | inr (f, p) ↦ cc (rw p at e)
        | inl (b, p) ↦
            let (same, content, previous) = commit-ok b (rw p at e) in
            rw (same, content, previous) (append_Holds b rs h (prepare-IsSealed (x ∷ xs) p))
      ]

-- After `AppendBatch` returns records, `visitRecords` reads the old records and then these, in
-- order, and ends at the hash that the appender keeps for the next one, if it read the old file up
-- to the appender's hash before.
pub append_batch-visit_records :
    {B E : Type 0} (c : Codec) (laws : CodecLaws c) (verify_blob : BlobRef → Option B) (io : Io)
    (w : Writer) (events : List Event) (rs : List Record) {w' : Writer} {records : List Record}
    → visit_records {E = E} c collect (readable w.content false) [] ≡ (rs, ok w.appender.previous)
    → append_batch c verify_blob io w events ≡ (w', ok records)
    → visit_records {E = E} c collect (readable w'.content false) []
      ≡ (rs ++ records, ok w'.appender.previous)
append_batch-visit_records {B} {E} c laws verify_blob io w events rs {w'} {records} h e =
    Holds-visit {E = E} c w'.content (rs ++ records) w'.appender.previous (
      append_batch-Holds c laws verify_blob io w events rs
        (visit-Holds {E = E} c w.content rs w.appender.previous h) e)
