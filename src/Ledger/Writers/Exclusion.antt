-- ===== src/Ledger/Writers/Exclusion.antt =====
-- One writer at a time, and no fork of the chain, over the interleavings of Ledger/Writers.
use agent_memory_system.Prelude.{
  ℕ, String, true, false, Option, none, some, List, [], ◌++◌, ◌≡◌, refl, ap, ◌∙◌, sym, subst, ◌⊎◌,
  inl, inr, arith,
}
use agent_memory_system.Prelude.Tests.{nat_eq, nat_beq_iff, Bool-cases}
use agent_memory_system.Prelude.Result.{Result, ok, err}
use agent_memory_system.Ledger.Types.{BlobRef, Event, Record, Codec, CodecLaws}
use agent_memory_system.Ledger.Chain.{unopenable, last_record_hash}
use agent_memory_system.Ledger.Lines.{split_lines}
use agent_memory_system.Ledger.Chain.Collect.{Holds}
use agent_memory_system.Ledger.Chain.Verified.{last_record_hash_sound}
use agent_memory_system.Ledger.Appender.{AppendError, Io, Writer, Appender, append_batch}
use agent_memory_system.Ledger.Appender.RoundTrip.{append_batch-Holds}
use agent_memory_system.Ledger.Appender.Effects.{
  append_batch-err, append_batch-unusable, append_batch-closed,
}
use agent_memory_system.Ledger.Lock.{
  Disk, OpenIo, OpenError, ledger_file, created, acquire_writer_lock, new_appender,
}
use agent_memory_system.Ledger.Writers.{
  System, update, initial, Step, opened, refused, appended, closed, crashed, Reach, start, step,
}

module _ (c : Codec) where
  -- The ledger is a chain that ends in this hash.
  abbrev pub EndsAt : Option (List ℕ) → String → Type 0
  EndsAt events previous =
      (content : List ℕ) × (rs : List Record) × (events ≡ some content)
      × Holds c content rs previous

  unopenable-ne_ok :
      {E : Type 0} (previous : String) → last_record_hash {E = E} c unopenable ≡ ok previous → ⊥
  unfolding last_record_hash
  unopenable-ne_ok previous h = cc h

  -- The scan of NewAppender finds the end of the chain.
  scan-EndsAt :
      {E : Type 0} (io : OpenIo) (events : Option (List ℕ)) (previous : String)
      → last_record_hash {E = E} c (ledger_file io events) ≡ ok previous
      → EndsAt (some (created events)) previous
  unfolding last_record_hash split_lines
  scan-EndsAt io none previous h = let empty : "" ≡ previous = cc h in ([], [], refl, (tt, empty))
  scan-EndsAt {E} io (some content) previous h = elim (Bool-cases io.events_read) [
    | inr e ↦ absurd (unopenable-ne_ok {E = E} previous (rw e at h))
    | inl e ↦
        let (rs, decoded, chain) =
          last_record_hash_sound {E = E} c content io.events_fault previous (rw e at h) in
        (content, rs, refl, (decoded, chain))
  ]

  new_appender-ok :
      {E : Type 0} (io : OpenIo) (d d' : Disk) (a : Appender)
      → new_appender {E = E} c io d ≡ (d', ok a)
      → (d.lock ≡ false)
        × (d'.lock ≡ true)
        × (a.closed ≡ false)
        × (a.failed ≡ false)
        × EndsAt d'.events a.previous
  unfolding new_appender acquire_writer_lock
  new_appender-ok {E} io d d' a h = ground (arith, scan-EndsAt {E = E} io d.events a.previous)

  new_appender-locked :
      {E : Type 0} (io : OpenIo) (d d' : Disk) (r : Result (OpenError E) Appender)
      → new_appender {E = E} c io d ≡ (d', r)
      → d.lock ≡ true
      → d' ≡ d
  unfolding new_appender acquire_writer_lock
  new_appender-locked io d d' r h l = ground arith

-- At most one process has an appender, the lock is there while one has, and an appender that can
-- still write keeps the hash at which the ledger's chain ends.
pub record IsSafe (c : Codec) (s : System) : Type 0 where
  pub locked : (i : ℕ) (a : Appender) → s.handle i ≡ some a → s.disk.lock ≡ true
  pub unique : (i j : ℕ) (a b : Appender) → s.handle i ≡ some a → s.handle j ≡ some b → i ≡ j
  pub tail :
      (i : ℕ) (a : Appender)
      → s.handle i ≡ some a
      → (a.closed ≡ false) × ((a.failed ≡ true) ⊎ EndsAt c s.disk.events a.previous)

update_inv :
    (h : ℕ → Option Appender) (i j : ℕ) (v : Option Appender) {a : Appender}
    → update h i v j ≡ some a
    → ((i ≡ j) × (v ≡ some a)) ⊎ (h j ≡ some a)
update_inv h i j v e = ground (arith, nat_beq_iff i j)

-- Where no process has an appender there is nothing to keep.
none-IsSafe :
    (c : Codec) (s : System) → ((i : ℕ) (a : Appender) → s.handle i ≡ some a → ⊥) → IsSafe c s
none-IsSafe c s h = record {
  locked = λ i a e. absurd (h i a e);
  unique = λ i j a b e f. absurd (h i a e);
  tail = λ i a e. absurd (h i a e);
}

-- One process may have an appender, if it is locked and keeps the tail.
one-IsSafe :
    (c : Codec) (i : ℕ) (a : Appender) (s : System)
    → ((j : ℕ) (b : Appender) → s.handle j ≡ some b → (i ≡ j) × (a ≡ b))
    → s.disk.lock ≡ true
    → (a.closed ≡ false) × ((a.failed ≡ true) ⊎ EndsAt c s.disk.events a.previous)
    → IsSafe c s
one-IsSafe c i a s only locked kept = record {
  locked = λ j b e. locked;
  unique = λ j k b d e f. sym (only j b e).0 ∙ (only k d f).0;
  tail = λ j b e.
      subst
        (λ (x : Appender).
          (x.closed ≡ false) × ((x.failed ≡ true) ⊎ EndsAt c s.disk.events x.previous))
        (only j b e).1 kept;
}

-- Fewer appenders, on the same events and lock, are as safe.
fewer-IsSafe :
    (c : Codec) (s : System) (h : ℕ → Option Appender)
    → ((i : ℕ) (a : Appender) → h i ≡ some a → s.handle i ≡ some a)
    → IsSafe c s
    → IsSafe c (record { disk = s.disk; handle = h })
fewer-IsSafe c s h sub safe = record {
  locked = λ i a e. safe.locked i a (sub i a e);
  unique = λ i j a b e f. safe.unique i j a b (sub i a e) (sub j b f);
  tail = λ i a e. safe.tail i a (sub i a e);
}

update-none :
    (h : ℕ → Option Appender) (i j : ℕ) {a : Appender}
    → update h i none j ≡ some a
    → (h j ≡ some a) × ((i ≡ j) → ⊥)
update-none h i j e = ground (arith, nat_beq_iff i j)

update_only :
    (h : ℕ → Option Appender) (i j : ℕ) (v b : Appender)
    → (h j ≡ some b → i ≡ j)
    → update h i (some v) j ≡ some b
    → (i ≡ j) × (v ≡ b)
update_only h i j v b other e = ground (arith, nat_beq_iff i j)

module _ {B : Type 0} (c : Codec) (laws : CodecLaws c) (verify_blob : BlobRef → Option B) where
  -- An append keeps an appender that is open, and its tail unless it fails.
  append_batch-tail :
      (io : Io) (w w' : Writer) (events : List Event) (r : Result (AppendError B) (List Record))
      → append_batch c verify_blob io w events ≡ (w', r)
      → (w.appender.closed ≡ false)
        × ((w.appender.failed ≡ true) ⊎ EndsAt c (some w.content) w.appender.previous)
      → (w'.appender.failed ≡ true) ⊎ EndsAt c (some w'.content) w'.appender.previous
  append_batch-tail io w w' events (err e) h (open_, kept) =
      elim (append_batch-err c verify_blob io w events h) [
        | inl same ↦ rw same kept
        | inr (failed, _, _) ↦ inl failed
      ]
  append_batch-tail io w w' events (ok records) h (open_, inl failed) =
      cc (append_batch-unusable c verify_blob io w events open_ failed, h)
  append_batch-tail io w w' events (ok records) h (open_, inr (content, rs, same, end)) =
      let here : content ≡ w.content = cc same in
      (inr (
        w'.content,
        rs ++ records,
        refl,
        append_batch-Holds c laws verify_blob io w events rs (rw here at end) h,
      ))

module _ {E B : Type 0} (c : Codec) (laws : CodecLaws c) (verify_blob : BlobRef → Option B) where
  Step-IsSafe : (s t : System) → Step E B c verify_blob s t → IsSafe c s → IsSafe c t
  Step-IsSafe s t (opened i io d a free h e) safe =
      let (was, now, open_, fine, end) = new_appender-ok c {E = E} io s.disk d a h in
      subst (IsSafe c) (sym e) (
        one-IsSafe c i a (record { disk = d; handle = update s.handle i (some a) })
          (λ j b. update_only s.handle i j a b (λ f. absurd (cc (was, safe.locked j b f)))) now
          (open_, inr end))
  Step-IsSafe s t (refused io d f h e) safe = elim (Bool-cases s.disk.lock) [
    | inl present ↦
        subst (IsSafe c)
          (sym (
            e
            ∙ ap (λ (x : Disk). record { disk = x; handle = s.handle })
                (new_appender-locked c {E = E} io s.disk d (err f) h present)))
          safe
    | inr gone ↦ subst (IsSafe c) (sym e) (
        none-IsSafe c (record { disk = d; handle = s.handle })
          (λ j b g. cc (gone, safe.locked j b g)))
  ]
  Step-IsSafe s t (appended i io a content events w r has here h e) safe =
      let (open_, kept) = safe.tail i a has in
      let closed_ =
        append_batch-closed c verify_blob io (record { appender = a; content = content }) events in
      subst (IsSafe c) (sym e) (
        one-IsSafe c i w.appender
          (record {
            disk = record { events = some w.content; lock = s.disk.lock };
            handle = update s.handle i (some w.appender);
          })
          (λ j b. update_only s.handle i j w.appender b (λ f. safe.unique i j a b has f))
          (safe.locked i a has)
          (
            sym (ap (λ (x : Writer × Result (AppendError B) (List Record)). x.0.appender.closed) h)
                ∙ closed_
                ∙ open_,
            append_batch-tail c laws verify_blob io (record { appender = a; content = content }) w
                events r h (open_, rw here at kept),
          ))
  Step-IsSafe s t (closed i io a a' d done has h e) safe = subst (IsSafe c) (sym e) (
      none-IsSafe c (record { disk = d; handle = update s.handle i none })
        (λ j b f.
          let (old, other) = update-none s.handle i j f in other (safe.unique i j a b has old)))
  Step-IsSafe s t (crashed i e) safe =
      subst (IsSafe c) (sym e)
        (fewer-IsSafe c s (update s.handle i none) (λ j b f. (update-none s.handle i j f).0) safe)

  -- Over every interleaving of processes that open, append to, close or abandon the ledger, and do
  -- not clear each other's lock: at most one process has an appender, the lock file is there while
  -- one has, and unless a write of it has failed, the appender's hash is where the chain of all the
  -- records in the file ends.
  pub Reach-IsSafe : (s : System) → Reach E B c verify_blob s → IsSafe c s
  Reach-IsSafe s start = none-IsSafe c initial (λ i a e. cc e)
  Reach-IsSafe t (step {s} r st) = Step-IsSafe s t st (Reach-IsSafe s r)
