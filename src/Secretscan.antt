-- ===== src/Secretscan.antt =====
-- The scanner of internal/secretscan/scan.go. Regular expressions, the entropy of a token and
-- SHA-256 are parameters (`Detectors`); contents are bytes.
pub mod Redact
pub mod Found
pub mod Tracked
pub mod Exact
pub mod Covered
pub mod Union
mod Tests
use agent_memory_system.Prelude.{
  ℕ, String, Bool, true, false, not, ◌&&◌, ◌||◌, List, [], ◌∷◌, ◌++◌, ◌-◌,
}
use Prim.Native.String.{◌++◌ as str_append}
use agent_memory_system.Prelude.Tests.{
  Comparable, string_eq, nat_eq, ◌==◌, ◌!=◌, if◌then◌else◌, leb, ltb, string_ltb,
}
use agent_memory_system.Prelude.Int.{ℤ, pos, int_eq, int_leb, int_ltb}
use agent_memory_system.Prelude.Lists.{length, take, drop}
use agent_memory_system.Prelude.Text.{bytes, runes_eq}

abbrev pub schema_version : String
schema_version = "sensitive-content-scan/v1alpha1"

abbrev pub scanner_version : String
scanner_version = "deterministic/v1alpha1"

pub record Finding : Type 0 where
  pub finding_id : String
  pub detector : String
  pub category : String
  pub start_byte : ℤ
  pub end_byte : ℤ
  pub match_sha256 : String

pub record Report : Type 0 where
  pub schema_version : String
  pub scanner_version : String
  pub content_sha256 : String
  pub bytes : ℤ
  pub findings : List Finding

pub record Redaction : Type 0 where
  pub start_byte : ℤ
  pub end_byte : ℤ
  pub source_sha256 : String
  pub replacement : String

-- A submatch that a detector of the table reports.
pub record Match : Type 0 where
  pub detector : String
  pub category : String
  pub start : ℕ
  pub end_ : ℕ

-- The key of `addFinding`, before `fmt.Sprintf` joins its parts.
pub record FindingKey : Type 0 where
  pub detector : String
  pub start : ℕ
  pub end_ : ℕ
  pub match_sha256 : String

-- `matches` and `tokens` are the submatches of the table's patterns and of entropyTokenPattern,
-- `high_entropy` is `looksHighEntropy`, `key_sha256` hashes the formatted key.
pub record Detectors : Type 0 where
  pub sha256_hex : List ℕ → String
  pub key_sha256 : FindingKey → String
  pub matches : List ℕ → List Match
  pub tokens : List ℕ → List Match
  pub high_entropy : List ℕ → Bool

-- `content[start:end]`.
unfoldable pub slice : List ℕ → ℕ → ℕ → List ℕ
slice content start end_ = take (end_ - start) (drop start content)

abbrev replacements : List String
replacements =
    "[REDACTED:credential]" ∷ "[REDACTED:private-key]" ∷ "[REDACTED:path]" ∷ "[REDACTED:personal]"
    ∷ "[REDACTED:identifier]" ∷ "[REDACTED:secret]" ∷ []

is_one_of : List ℕ → List String → Bool
is_one_of value [] = false
is_one_of value (s ∷ ss) = runes_eq value (bytes s) || is_one_of value ss

-- `validReplacement`.
unfoldable pub valid_replacement : List ℕ → Bool
unfolding is_one_of
valid_replacement value = is_one_of value replacements

unfoldable pub key_eq : FindingKey → FindingKey → Bool
key_eq k l =
    k.detector == l.detector
    && k.start == l.start
    && k.end_ == l.end_
    && k.match_sha256 == l.match_sha256

unfoldable pub seen_key : FindingKey → List FindingKey → Bool
unfolding key_eq
seen_key k [] = false
seen_key k (l ∷ ls) = key_eq k l || seen_key k ls

-- The report's findings and the keys seen.
pub record Scanning : Type 0 where
  pub findings : List Finding
  pub seen : List FindingKey

unfoldable pub less : Finding → Finding → Bool
less l r =
    if l.start_byte != r.start_byte
    then int_ltb l.start_byte r.start_byte
    else if l.end_byte != r.end_byte
    then int_ltb l.end_byte r.end_byte
    else string_ltb l.detector r.detector

unfoldable pub insert : Finding → List Finding → List Finding
unfolding less
insert f [] = f ∷ []
insert f (g ∷ gs) = let rest = insert f gs in if less g f then g ∷ rest else f ∷ g ∷ gs

-- `sort.Slice`: no two findings are equal under `less`, so their order is the only one.
unfoldable pub sort_findings : List Finding → List Finding
unfolding insert
sort_findings [] = []
sort_findings (f ∷ fs) = insert f (sort_findings fs)

abbrev pub nothing_found : Scanning
nothing_found = record { findings = []; seen = [] }

-- A loop over matches.
unfoldable pub add_all : (Scanning → Match → Scanning) → Scanning → List Match → Scanning
add_all body s [] = s
add_all body s (m ∷ ms) = add_all body (body s m) ms

module _ (d : Detectors) where
  unfoldable pub key_of : List ℕ → Match → FindingKey
  unfolding slice
  key_of content m = record {
    detector = m.detector;
    start = m.start;
    end_ = m.end_;
    match_sha256 = d.sha256_hex (slice content m.start m.end_);
  }

  unfoldable pub finding_of : Match → FindingKey → Finding
  finding_of m k = record {
    finding_id = str_append "finding-" (d.key_sha256 k);
    detector = m.detector;
    category = m.category;
    start_byte = pos m.start;
    end_byte = pos m.end_;
    match_sha256 = k.match_sha256;
  }

  -- `addFinding`; its `start < 0` is false of a match.
  unfoldable pub add_finding : List ℕ → Scanning → Match → Scanning
  unfolding key_of finding_of seen_key
  add_finding content s m =
      let k = key_of content m in
      if leb m.end_ m.start || ltb (length content) m.end_
      then s
      else if seen_key k s.seen
      then s
      else record { findings = s.findings ++ finding_of m k ∷ []; seen = k ∷ s.seen }

  -- The body of the loop over the detectors' matches.
  unfoldable pub add_match : List ℕ → Scanning → Match → Scanning
  unfolding add_finding valid_replacement
  add_match content s m =
      if valid_replacement (slice content m.start m.end_) then s else add_finding content s m

  -- The body of the loop over the entropy tokens.
  unfoldable pub add_token : List ℕ → Scanning → Match → Scanning
  unfolding add_finding
  add_token content s m =
      if d.high_entropy (slice content m.start m.end_) then add_finding content s m else s

  unfoldable pub found : List ℕ → Scanning
  unfolding add_all add_match add_token
  found content =
      add_all (add_token content) (add_all (add_match content) nothing_found (d.matches content))
        (d.tokens content)

  unfoldable pub scan : List ℕ → Report
  unfolding found sort_findings
  scan content = record {
    schema_version = schema_version;
    scanner_version = scanner_version;
    content_sha256 = d.sha256_hex content;
    bytes = pos (length content);
    findings = sort_findings (found content).findings;
  }
