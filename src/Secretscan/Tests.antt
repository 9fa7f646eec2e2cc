-- ===== src/Secretscan/Tests.antt =====
-- The theorems on internal/secretscan at a detector that finds an `a` at the start of a content.
use agent_memory_system.Prelude.{ℕ, true, false, not, List, [], ◌∷◌, ◌++◌, ◌≡◌, refl}
use agent_memory_system.Prelude.Tests.{nat_eq, ◌==◌, if◌then◌else◌}
use agent_memory_system.Prelude.Int.{pos}
use agent_memory_system.Prelude.Lists.{length, All, Any}
use agent_memory_system.Prelude.Result.{ok}
use agent_memory_system.Prelude.Text.{bytes, valid_utf8, runes_eq}
use agent_memory_system.Secretscan.{Match, Redaction, Detectors, valid_replacement, scan}
use agent_memory_system.Secretscan.Found.{IsHarmless}
use agent_memory_system.Secretscan.Exact.{IsFound, IsReported, scan_exact}
use agent_memory_system.Secretscan.Tracked.{HasOtherKey}
use agent_memory_system.Prelude.Order.Chain.{IsPairwise}
use agent_memory_system.Secretscan.Redact.{
  covers, build, apply_redactions, equal_findings, collect_covered,
}
use agent_memory_system.Secretscan.Covered.{IsOrdered, apply_redactions_sound}
use agent_memory_system.Secretscan.Union.{IsExact, apply_redactions-IsExact}

abbrev matches_of : List ℕ → List Match
matches_of [] = []
matches_of (b ∷ bs) =
    if b == b'a'
    then record { detector = "a"; category = "credential"; start = 0; end_ = 1 } ∷ []
    else []

abbrev demo_detectors : Detectors
demo_detectors = record {
  sha256_hex = λ input. "digest";
  key_sha256 = λ key. "key";
  matches = matches_of;
  tokens = λ content. [];
  high_entropy = λ token. false;
}

abbrev demo_content : List ℕ
demo_content = b'a' ∷ b'b' ∷ []

abbrev demo_redactions : List Redaction
demo_redactions =
    record {
      start_byte = pos 0;
      end_byte = pos 1;
      source_sha256 = "digest";
      replacement = "[REDACTED:secret]";
    }
    ∷ []

abbrev redacted_content : List ℕ
redacted_content = bytes "[REDACTED:secret]" ++ b'b' ∷ []

redacts :
    apply_redactions demo_detectors demo_content (scan demo_detectors demo_content) demo_redactions
    ≡ ok redacted_content
unfolding apply_redactions scan valid_utf8 equal_findings runes_eq bytes collect_covered
redacts = refl

scan_exact_example :
    All (IsFound demo_detectors demo_content) (scan demo_detectors demo_content).findings
    × All
        (IsReported demo_detectors demo_content valid_replacement
          (scan demo_detectors demo_content).findings)
        (demo_detectors.matches demo_content)
    × All
        (IsReported demo_detectors demo_content
          (λ t. not (demo_detectors.high_entropy t))
          (scan demo_detectors demo_content).findings)
        (demo_detectors.tokens demo_content)
    × IsPairwise HasOtherKey (scan demo_detectors demo_content).findings
scan_exact_example = scan_exact demo_detectors demo_content

apply_redactions_sound_example :
    IsOrdered (length demo_content) (pos 0) demo_redactions
    × All
        (λ f. Any (λ r. covers r f ≡ true) demo_redactions)
        (scan demo_detectors demo_content).findings
    × (redacted_content ≡ build demo_content (pos 0) demo_redactions)
    × All (IsHarmless demo_detectors redacted_content) (demo_detectors.matches redacted_content)
apply_redactions_sound_example =
    apply_redactions_sound demo_detectors demo_content (scan demo_detectors demo_content)
      demo_redactions redacted_content redacts

apply_redactions-IsExact_example :
    IsExact (scan demo_detectors demo_content).findings demo_redactions
apply_redactions-IsExact_example =
    apply_redactions-IsExact demo_detectors demo_content (scan demo_detectors demo_content)
      demo_redactions redacted_content redacts
