-- ===== src/Ledger/Blobs/Tests.antt =====
-- The theorems on blobs at a store that holds one blob.
use agent_memory_system.Prelude.{ℕ, String, true, none, some, List, [], ◌∷◌, ◌≡◌, refl, arith}
use agent_memory_system.Prelude.Tests.{string_eq, ◌==◌, if◌then◌else◌}
use agent_memory_system.Prelude.Result.{ok}
use agent_memory_system.Prelude.Text.{valid_sha256}
use agent_memory_system.Ledger.Validate.{check_payload, blob_path, expected_blob_relative_path}
use agent_memory_system.Ledger.Demo.{hash_a, hash_b}
use agent_memory_system.Ledger.Blobs.{
  BlobFiles, PutIo, put_blob, open_blob, inline_payload, reference, verify_blob,
}
use agent_memory_system.Ledger.Blobs.Stored.{
  IsUnique, put_blob_keeps, put_blob-open_blob, inline_payload-check_payload,
}

-- A digest that tells the empty content from the others.
abbrev toy_digest : List ℕ → String
toy_digest [] = hash_a
toy_digest (b ∷ bs) = hash_b

toy_digest_valid : (input : List ℕ) → valid_sha256 (toy_digest input) ≡ true
unfolding valid_sha256
toy_digest_valid [] = refl
toy_digest_valid (b ∷ bs) = refl

other_hash : {A : Type 0} → hash_b ≡ hash_a → A
other_hash h = ground (arith, string_eq.same_iff hash_b hash_a)

empty-IsUnique : IsUnique toy_digest []
empty-IsUnique [] h = refl
empty-IsUnique (b ∷ bs) h = other_hash h

abbrev smooth : PutIo
smooth = record {
  outside_git = true;
  temp_directory = true;
  temp_file = true;
  copy = true;
  sync = true;
  close_ = true;
  directory = true;
  inspect = true;
  rename = true;
  read = record { open_ = true; copy = true };
}

abbrev one_blob : BlobFiles
one_blob path = if path == "kept" then some (1 ∷ []) else none

put_blob_keeps_example : (put_blob toy_digest smooth one_blob []).0 "kept" ≡ some (1 ∷ [])
put_blob_keeps_example = put_blob_keeps toy_digest smooth one_blob [] "kept" (1 ∷ []) refl

stored : (put_blob toy_digest smooth one_blob []).1 ≡ ok (reference toy_digest [])
unfolding put_blob blob_path verify_blob expected_blob_relative_path valid_sha256
stored = refl

put_blob-open_blob_example :
    (reference toy_digest [] ≡ reference toy_digest [])
    × (open_blob
          (record { open_ = true; copy = true })
          (put_blob toy_digest smooth one_blob []).0
          (reference toy_digest [])
        ≡ ok [])
put_blob-open_blob_example =
    put_blob-open_blob toy_digest toy_digest_valid smooth one_blob [] (reference toy_digest [])
      empty-IsUnique stored

inline_payload-check_payload_example :
    check_payload toy_digest (some (inline_payload toy_digest "utf-8" "text/plain" "hi")) ≡ ok tt
inline_payload-check_payload_example =
    inline_payload-check_payload toy_digest "utf-8" "text/plain" "hi"
