-- ===== src/Ledger/Demo.antt =====
-- A small world for the ledger of internal/ledger/ledger.go: two events, their records, and a codec
-- that encodes just these. It shows that what is assumed of JSON and SHA-256 can hold.
use mathlib.Core.Logic.{ite, if_pos, if_neg}
use mathlib.Core.HLevel.{hedberg}
use text.Mathlib.TextEquality.{eq_iff}
use native.Mathlib.Decide.{ℕ_discrete}
use agent_memory_system.Prelude.{
  ℕ, String, true, false, Option, none, some, List, [], ◌∷◌, ◌++◌, ◌≡◌, ◌≢◌, refl, sym, ◌∙◌, ap,
  arith, inl, inr, ◌⊎◌,
}
use agent_memory_system.Prelude.Tests.{leb, if◌then◌else◌, Bool-cases, string_eq, ◌==◌}
use agent_memory_system.Prelude.Lists.{length}
use agent_memory_system.Prelude.Int.{ℤ}
use agent_memory_system.Prelude.Text.{bytes, runes_eq, is_blank, valid_sha256}
use agent_memory_system.Prelude.Lists.{elem}
use agent_memory_system.Prelude.Result.{ok}
use agent_memory_system.Ledger.Lines.{has_newline}
use agent_memory_system.Ledger.Validate.{validate_event, valid_event_kind_for_version}
use agent_memory_system.Ledger.Chain.{make_record, hash_input}
use agent_memory_system.Ledger.Types.{Source, Event, Record, Codec, CodecLaws}

abbrev pub demo_source : Source
demo_source = record {
  agent = "codex";
  adapter = "demo";
  adapter_version = "1";
  device_id = "device-1";
  os = "";
  thread_id = "t";
  session_id = "";
  source_event_id = "";
  source_path_hash = "";
  acquisition_path_hash = "";
  source_cursor = "";
  byte_start = none;
  byte_end = none;
}

abbrev pub demo_event : String → Event
demo_event id = record {
  schema_version = "evidence-event/v1alpha2";
  event_id = id;
  kind = "gap";
  observed_at = 5;
  recorded_at = 6;
  source = demo_source;
  payload = none;
  reasoning = none;
  completeness = record {
    status = "missing";
    reason = "not captured";
    expected_bytes = none;
    captured_bytes = none;
  };
  causality = none;
  privacy = record { classification = "local_only" };
}

abbrev pub hash_a : String
hash_a = "aaaaaaaaaaaaaaaaaaaaaaaaaaaaaaaaaaaaaaaaaaaaaaaaaaaaaaaaaaaaaaaa"

abbrev pub hash_b : String
hash_b = "bbbbbbbbbbbbbbbbbbbbbbbbbbbbbbbbbbbbbbbbbbbbbbbbbbbbbbbbbbbbbbbb"

abbrev pub first_event : Event
first_event = demo_event "first"

abbrev pub second_event : Event
second_event = demo_event "second"

abbrev pub first_record : Record
first_record = record { event = first_event; previous_record_hash = ""; record_hash = hash_a }

abbrev pub second_record : Record
second_record = record { event = second_event; previous_record_hash = hash_a; record_hash = hash_b }

Int-discrete : Discrete ℤ
Int-discrete = hlevel ℕ_discrete

String-discrete : Discrete String
String-discrete s t = elim (Bool-cases (s == t)) [
  | inl e ↦ yes ((eq_iff s t).0 e)
  | inr e ↦ no (λ p. cc (e, (eq_iff s t).1 p))
]

Event-discrete : Discrete Event
Event-discrete = hlevel (ℕ_discrete, String-discrete, Int-discrete)

Record-discrete : Discrete Record
Record-discrete = hlevel (ℕ_discrete, String-discrete, Int-discrete)

pub Record-set : IsSet Record
Record-set = hedberg Record-discrete

-- Encode one of two values, by its own text.
module _ {A : Type 0} (dec : Discrete A) (a b : A) (s t : List ℕ) where
  encode_two : A → Option (List ℕ)
  encode_two x = ite (dec x a) (some s) (ite (dec x b) (some t) none)

  encode_two-first : encode_two a ≡ some s
  unfolding encode_two
  encode_two-first = if_pos (dec a a) refl (some s) _

  encode_two-second : b ≢ a → encode_two b ≡ some t
  unfolding encode_two
  encode_two-second h = if_neg (dec b a) h (some s) _ ∙ if_pos (dec b b) refl (some t) none

  encode_two_inv :
      (x : A) (u : List ℕ) → encode_two x ≡ some u → ((x ≡ a) × (u ≡ s)) ⊎ ((x ≡ b) × (u ≡ t))
  unfolding encode_two
  encode_two_inv x u h = elim (dec x a) [
    | yes p ↦ inl (p, cc (rw (if_pos (dec x a) p) at h))
    | no p ↦ elim (dec x b) [
      | yes q ↦ inr (q, cc (rw (if_neg (dec x a) p, if_pos (dec x b) q) at h))
      | no q ↦ cc (rw (if_neg (dec x a) p, if_neg (dec x b) q) at h)
    ]
  ]

abbrev text_a : List ℕ
text_a = b'{' ∷ b'a' ∷ b'}' ∷ []

abbrev text_b : List ℕ
text_b = b'{' ∷ b'b' ∷ b'}' ∷ []

-- The digest of a long text is another one than that of a short text.
demo_digest : List ℕ → String
demo_digest input = if leb (length input) 20 then hash_a else hash_b

demo_parse : List ℕ → Option Record
demo_parse text =
    if runes_eq text text_a
    then some first_record
    else if runes_eq text text_b
    then some second_record
    else none

unfoldable pub demo_codec : Codec
unfolding demo_digest encode_two Event-discrete Record-discrete demo_parse String-discrete
    Int-discrete
demo_codec = record {
  sha256_hex = demo_digest;
  event_json = encode_two Event-discrete first_event second_event text_a text_b;
  record_json = encode_two Record-discrete first_record second_record text_a text_b;
  parse_record = demo_parse;
}

pub two_events : second_event ≢ first_event
two_events h = cc ((eq_iff "second" "first").1 (ap (λ (e : Event). e.event_id) h))

two_records : second_record ≢ first_record
two_records h = two_events (ap (λ (r : Record). r.event) h)

demo_object_text :
    (r : Record) (u : List ℕ)
    → encode_two Record-discrete first_record second_record text_a text_b r ≡ some u
    → (mid : List ℕ) × (u ≡ (b'{' ∷ mid) ++ b'}' ∷ []) × (has_newline u ≡ false)
unfolding has_newline
demo_object_text r u h =
    elim (encode_two_inv Record-discrete first_record second_record text_a text_b r u h) [
      | inl (_, e) ↦ (b'a' ∷ [], e, rw e)
      | inr (_, e) ↦ (b'b' ∷ [], e, rw e)
    ]

demo_round_trip :
    (r : Record) (u : List ℕ)
    → encode_two Record-discrete first_record second_record text_a text_b r ≡ some u
    → demo_parse u ≡ some r
unfolding demo_parse runes_eq
demo_round_trip r u h =
    elim (encode_two_inv Record-discrete first_record second_record text_a text_b r u h) [
      | inl (p, e) ↦ rw (e, p)
      | inr (p, e) ↦ rw (e, p)
    ]

abbrev middle : List ℕ → ℕ
middle (x ∷ y ∷ ys) = y
middle _ = 0

texts_differ : ◌≢◌ {A = List ℕ} text_a text_b
texts_differ h = ground (arith, ap middle h)

demo_injective :
    (e f : Event) (u : List ℕ)
    → encode_two Event-discrete first_event second_event text_a text_b e ≡ some u
    → encode_two Event-discrete first_event second_event text_a text_b f ≡ some u
    → e ≡ f
demo_injective e f u h k =
    elim (encode_two_inv Event-discrete first_event second_event text_a text_b e u h) [
      | inl (p, q) ↦
          elim (encode_two_inv Event-discrete first_event second_event text_a text_b f u k) [
            | inl (p', q') ↦ p ∙ sym p'
            | inr (p', q') ↦ absurd (texts_differ (sym q ∙ q'))
          ]
      | inr (p, q) ↦
          elim (encode_two_inv Event-discrete first_event second_event text_a text_b f u k) [
            | inl (p', q') ↦ absurd (texts_differ (sym q' ∙ q))
            | inr (p', q') ↦ p ∙ sym p'
          ]
    ]

demo_digest-valid : (input : List ℕ) → valid_sha256 (demo_digest input) ≡ true
unfolding demo_digest valid_sha256
demo_digest-valid input = elim (Bool-cases (leb (length input) 20)) [ inl e ↦ rw e | inr e ↦ rw e ]

pub demo_laws : CodecLaws demo_codec
unfolding demo_codec
demo_laws = record {
  object_text = demo_object_text;
  round_trip = demo_round_trip;
  event_injective = demo_injective;
  digest = demo_digest-valid;
}

-- The two records are what `makeRecord` makes of the events, in order.
pub first_made : make_record demo_codec first_event "" ≡ some first_record
unfolding make_record demo_codec hash_input bytes
first_made = rw (encode_two-first Event-discrete first_event second_event text_a text_b)

pub second_made : make_record demo_codec second_event hash_a ≡ some second_record
unfolding make_record demo_codec hash_input bytes
second_made =
    rw (encode_two-second Event-discrete first_event second_event text_a text_b two_events)

pub first_text : demo_codec.record_json first_record ≡ some text_a
unfolding demo_codec
first_text = encode_two-first Record-discrete first_record second_record text_a text_b

pub second_text : demo_codec.record_json second_record ≡ some text_b
unfolding demo_codec
second_text = encode_two-second Record-discrete first_record second_record text_a text_b two_records

pub demo_valid :
    (id : String)
    → (id == "") ≡ false
    → validate_event demo_codec.sha256_hex (demo_event id) ≡ ok tt
unfolding validate_event valid_event_kind_for_version elem is_blank
demo_valid id h = rw h
