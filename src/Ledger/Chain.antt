-- ===== src/Ledger/Chain.antt =====
-- The hash chain of internal/ledger/ledger.go: `makeRecord`, and the loops that read a ledger.
pub mod Verified
pub mod Collect
pub mod Tamper
use agent_memory_system.Prelude.{
  ℕ, zero, suc, String, Bool, true, false, ◌||◌, not, Option, none, some, List, [], ◌∷◌, ◌++◌, ◌≡◌,
  refl, map,
}
use agent_memory_system.Prelude.Tests.{Comparable, string_eq, ◌==◌, ◌!=◌, if◌then◌else◌}
use agent_memory_system.Prelude.Result.{Result, ok, err, ◌>>=◌, ◌>>◌, fail_if, wrap}
use agent_memory_system.Prelude.Text.{bytes, trim_bytes}
use agent_memory_system.Ledger.Types.{BlobRef, Payload, Event, Record, Codec}
use agent_memory_system.Ledger.Validate.{EventError, validate_event}
use agent_memory_system.Ledger.Lines.{split_lines, ends_line}

-- What the hasher of `makeRecord` is given.
unfoldable pub hash_input : String → List ℕ → List ℕ
hash_input previous event_json = bytes previous ++ 0 ∷ event_json

abbrev pub seal : Codec → Event → String → Option (List ℕ) → Option Record
seal c event previous none = none
seal c event previous (some event_json) = some (record {
  event = event;
  previous_record_hash = previous;
  record_hash = c.sha256_hex (hash_input previous event_json);
})

-- `none` is the error of `json.Marshal(event)`.
unfoldable pub make_record : Codec → Event → String → Option Record
make_record c event previous = seal c event previous (c.event_json event)

-- The errors of the readers, with the number of the line.
pub data ScanError (E : Type 0) : Type 0 where
  open_failed read_failed : ScanError E
  partial_record decode_failed hash_failed integrity_failure : ℕ → ScanError E
  invalid_event : ℕ → EventError → ScanError E
  visit_failed : ℕ → E → ScanError E

-- A ledger file as a reader meets it; `fault` says that a read fails behind the last line.
pub data LedgerFile : Type 0 where
  absent unopenable : LedgerFile
  readable : (content : List ℕ) (fault : Bool) → LedgerFile

module _ {E : Type 0} where
  abbrev or_error : {A : Type 0} → Option A → ScanError E → Result (ScanError E) A
  or_error none e = err e
  or_error (some a) e = ok a

-- The tests that both loops make of a decoded record, which must follow the hash `previous`.
check_record : {E : Type 0} → Codec → String → ℕ → Record → Result (ScanError E) Record
check_record c previous n r = do
  wrap (invalid_event n) (validate_event c.sha256_hex r.event)
  expected ← or_error (make_record c r.event previous) (hash_failed n)
  fail_if (r.previous_record_hash != previous || r.record_hash != expected.record_hash)
      (integrity_failure n)
  ok r

-- The tests that both loops make of line `n`.
unfoldable pub check_line : {E : Type 0} → Codec → String → ℕ → List ℕ → Result (ScanError E) Record
unfolding check_record
check_line c previous n line = do
  fail_if (not (ends_line line)) (partial_record n)
  r ← or_error (c.parse_record (trim_bytes line)) (decode_failed n)
  check_record c previous n r

-- A callback and the state that it closes over.
abbrev pub Visitor : Type 0 → Type 0 → Type 0
Visitor S E = Record → S → S × Option E

-- What both loops return behind the last line.
abbrev pub finish : {E : Type 0} → Bool → String → Result (ScanError E) String
finish true previous = err read_failed
finish false previous = ok previous

module _ {S E : Type 0} (c : Codec) (visitor : Visitor S E) where
  -- The loop of `visitRecords`; `n` counts the lines read.
  unfoldable pub visit_lines :
      Bool → S → String → ℕ → List (List ℕ) → S × Result (ScanError E) String
  visit_lines fault s previous n [] = (s, finish fault previous)
  visit_lines fault s previous n (line ∷ lines) = elim (check_line c previous (suc n) line) [
    | err e ↦ (s, err e)
    | ok r ↦
        let (s', e) = visitor r s in
        elim e [
          | some x ↦ (s', err (visit_failed (suc n) x))
          | none ↦ visit_lines fault s' r.record_hash (suc n) lines
        ]
  ]

  unfoldable pub visit_records : LedgerFile → S → S × Result (ScanError E) String
  visit_records absent s = (s, ok "")
  visit_records unopenable s = (s, err open_failed)
  visit_records (readable content fault) s = visit_lines fault s "" 0 (split_lines content)

-- The loop of `lastRecordHash`.
unfoldable pub last_hash_lines :
    {E : Type 0} → Codec → Bool → String → ℕ → List (List ℕ) → Result (ScanError E) String
last_hash_lines c fault last n [] = finish fault last
last_hash_lines c fault last n (line ∷ lines) = elim (check_line c last (suc n) line) [
  | err e ↦ err e
  | ok r ↦ last_hash_lines c fault r.record_hash (suc n) lines
]

unfoldable pub last_record_hash : {E : Type 0} → Codec → LedgerFile → Result (ScanError E) String
unfolding last_hash_lines
last_record_hash c absent = ok ""
last_record_hash c unopenable = err open_failed
last_record_hash c (readable content fault) = last_hash_lines c fault "" 0 (split_lines content)
