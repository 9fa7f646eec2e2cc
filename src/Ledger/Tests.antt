-- ===== src/Ledger/Tests.antt =====
-- The theorems about internal/ledger/ledger.go at concrete ledgers.
use mathlib.Core.List.{Mem, mem-singleton}
use agent_memory_system.Prelude.{
  ℕ, String, true, false, Option, none, some, List, [], ◌∷◌, ◌≡◌, refl, sym, ◌∙◌, ap, ◌⊎◌, ◌↔◌,
}
use agent_memory_system.Prelude.Result.{ok, err}
use agent_memory_system.Prelude.Text.{trim_bytes, runes_eq}
use agent_memory_system.Ledger.Types.{BlobRef, Event, Record}
use agent_memory_system.Ledger.Validate.{validate_event}
use agent_memory_system.Ledger.Validate.Exact.{IsWellFormed, validate_event-IsWellFormed}
use agent_memory_system.Ledger.Lines.{split_lines, ends_line}
use agent_memory_system.Ledger.Chain.{readable, visit_records}
use agent_memory_system.Ledger.Chain.Collect.{collect, Holds, Holds-visit}
use agent_memory_system.Ledger.Chain.Verified.{
  Reads, visit_records_exact, last_record_hash-visit_records,
}
use agent_memory_system.Ledger.Chain.Tamper.{sealed_text, visit_records-last_hash}
use agent_memory_system.Ledger.Appender.{
  Io, Writer, append_batch, written, short, short_write, unusable,
}
use agent_memory_system.Ledger.Appender.RoundTrip.{append_batch-visit_records}
use agent_memory_system.Ledger.Appender.Effects.{append_batch_failure}
use agent_memory_system.Ledger.Appender.Outcomes.{Outcome, append_batch-Outcome}
use agent_memory_system.Ledger.Chain.{last_record_hash}
use agent_memory_system.Ledger.Chain.Verified.{accept_all}
use agent_memory_system.Ledger.Verify.{verify_file}
use agent_memory_system.Ledger.Verify.Agrees.{check_blobs, verify_file-visit_records}
use agent_memory_system.Ledger.Lock.{OpenIo, new_appender, acquire_writer_lock}
use agent_memory_system.Ledger.Writers.{System, update, initial, opened, Reach, start, step}
use agent_memory_system.Ledger.Writers.Exclusion.{IsSafe, Reach-IsSafe}
use agent_memory_system.Ledger.Demo.{
  demo_codec, demo_laws, Record-set, demo_valid, hash_a, hash_b, first_event, second_event,
  first_record, second_record, first_made, second_made, second_text,
}

-- The ledger that holds the first record.
abbrev one_line : List ℕ
one_line = b'{' ∷ b'a' ∷ b'}' ∷ 10 ∷ []

abbrev two_lines : List ℕ
two_lines = b'{' ∷ b'a' ∷ b'}' ∷ 10 ∷ b'{' ∷ b'b' ∷ b'}' ∷ 10 ∷ []

abbrev one_record_writer : Writer
one_record_writer = record {
  appender = record { previous = hash_a; failed = false; closed = false };
  content = one_line;
}

abbrev two_record_writer : Writer
two_record_writer = record {
  appender = record { previous = hash_b; failed = false; closed = false };
  content = two_lines;
}

abbrev good_io : Io
good_io = record { write = written; sync = true }

abbrev no_blobs : BlobRef → Option String
no_blobs blob = none

one_line-Holds : Holds demo_codec one_line (first_record ∷ []) hash_a
unfolding split_lines ends_line trim_bytes demo_codec runes_eq
one_line-Holds = ((refl, refl, tt), ((demo_valid "first" refl, first_made), refl))

one_line_read :
    visit_records {E = String} demo_codec collect (readable one_line false) []
    ≡ (first_record ∷ [], ok hash_a)
one_line_read =
    Holds-visit {E = String} demo_codec one_line (first_record ∷ []) hash_a one_line-Holds

second_batch :
    append_batch demo_codec no_blobs good_io one_record_writer (second_event ∷ [])
    ≡ (two_record_writer, ok (second_record ∷ []))
unfolding append_batch
second_batch = rw (demo_valid "second" refl, second_made, second_text)

append_batch-visit_records_example :
    visit_records {E = String} demo_codec collect (readable two_lines false) []
    ≡ (first_record ∷ second_record ∷ [], ok hash_b)
append_batch-visit_records_example =
    append_batch-visit_records {E = String} demo_codec demo_laws no_blobs good_io one_record_writer
      (second_event ∷ []) (first_record ∷ []) one_line_read second_batch

validate_event-IsWellFormed_example :
    (validate_event demo_codec.sha256_hex first_event ≡ ok tt)
    ↔ IsWellFormed demo_codec.sha256_hex first_event
validate_event-IsWellFormed_example = validate_event-IsWellFormed demo_codec.sha256_hex first_event

visit_records_exact_example :
    (visit_records {E = String} demo_codec collect (readable one_line false) []
      ≡ (first_record ∷ [], ok hash_a))
    ↔ Reads {E = String} demo_codec collect [] "" (split_lines one_line) (first_record ∷ []) hash_a
visit_records_exact_example =
    visit_records_exact {E = String} demo_codec collect one_line [] (first_record ∷ []) hash_a

last_record_hash-visit_records_example :
    last_record_hash {E = String} demo_codec (readable one_line false)
    ≡ (visit_records demo_codec accept_all (readable one_line false) tt).1
last_record_hash-visit_records_example =
    last_record_hash-visit_records {E = String} demo_codec (readable one_line false)

first_alone : (r : Record) → Mem r (first_record ∷ []) → r ≡ first_record
first_alone r m = (mem-singleton Record-set).0 m

visit_records-last_hash_example : ◌≡◌ {A = List Record} (first_record ∷ []) (first_record ∷ [])
visit_records-last_hash_example =
    visit_records-last_hash {E = String} demo_codec demo_laws one_line one_line (first_record ∷ [])
      (first_record ∷ []) hash_a
      (λ r q m n h. ap (sealed_text demo_codec) (first_alone r m ∙ sym (first_alone q n)))
      one_line_read one_line_read

verify_file-visit_records_example :
    ((verify_file {B = String} demo_codec none (readable one_line false)).issues ≡ []) ↔ (
      visit_records demo_codec (check_blobs {B = String} none) (readable one_line false) 0 ≡ (
        (verify_file {B = String} demo_codec none (readable one_line false)).records_checked,
        ok (verify_file {B = String} demo_codec none (readable one_line false)).last_record_hash,
      ))
verify_file-visit_records_example =
    verify_file-visit_records {B = String} demo_codec none (readable one_line false)

-- Two bytes of the line reach the file.
abbrev short_io : Io
short_io = record { write = short 2; sync = true }

abbrev torn_writer : Writer
torn_writer = record {
  appender = record { previous = hash_a; failed = true; closed = false };
  content = b'{' ∷ b'a' ∷ b'}' ∷ 10 ∷ b'{' ∷ b'b' ∷ [];
}

torn_batch :
    append_batch demo_codec no_blobs short_io one_record_writer (second_event ∷ [])
    ≡ (torn_writer, err short_write)
unfolding append_batch
torn_batch = rw (demo_valid "second" refl, second_made, second_text)

append_batch_failure_example :
    (torn_writer ≡ one_record_writer)
    ⊎ ((hash_a ≡ hash_a)
        × ((later : Io) (more : List Event)
            → append_batch demo_codec no_blobs later torn_writer more
              ≡ (torn_writer, err unusable)))
append_batch_failure_example =
    append_batch_failure demo_codec no_blobs short_io one_record_writer (second_event ∷ [])
      torn_batch

append_batch-Outcome_example :
    Outcome demo_codec no_blobs short_io one_record_writer
      (second_event ∷ [])
      (append_batch demo_codec no_blobs short_io one_record_writer (second_event ∷ []))
append_batch-Outcome_example =
    append_batch-Outcome demo_codec demo_laws no_blobs short_io one_record_writer
      (second_event ∷ [])

-- A first process opens the ledger.
abbrev smooth : OpenIo
smooth = record {
  outside_git = true;
  lock_directory = true;
  lock_create = true;
  lock_write = true;
  lock_close = true;
  lock_remove = true;
  directory = true;
  events_read = true;
  events_fault = false;
  events_open = true;
}

abbrev one_open : System
one_open = record {
  disk = record { events = some []; lock = true };
  handle =
      update initial.handle 3 (some (record { previous = ""; failed = false; closed = false }));
}

first_open :
    new_appender {E = String} demo_codec smooth initial.disk
    ≡ (one_open.disk, ok (record { previous = ""; failed = false; closed = false }))
unfolding new_appender acquire_writer_lock last_record_hash
first_open = refl

one_open_reached : Reach String String demo_codec no_blobs one_open
one_open_reached = step start (opened 3 smooth _ _ refl first_open refl)

Reach-IsSafe_example : IsSafe demo_codec one_open
Reach-IsSafe_example =
    Reach-IsSafe {E = String} demo_codec demo_laws no_blobs one_open one_open_reached
