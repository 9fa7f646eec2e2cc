-- ===== src/Ledger/Blobs/Stored.antt =====
-- What PutBlob of internal/ledger/ledger.go leaves in the store.
use agent_memory_system.Prelude.{
  ℕ, String, Bool, true, false, Option, none, some, List, ◌≡◌, ◌≢◌, refl, ap, sym, ◌⊎◌, inl, inr,
  arith,
}
use agent_memory_system.Prelude.Tests.{string_eq, if◌then◌else◌, ne_self}
use agent_memory_system.Prelude.Int.{pos, int_eq}
use agent_memory_system.Prelude.Result.{
  Result, ok, err, ◌>>◌, Result-cases, ok-injective, then-eq-ok,
}
use agent_memory_system.Prelude.Text.{bytes, len, valid_sha256}
use agent_memory_system.Ledger.Types.{BlobRef}
use agent_memory_system.Ledger.Validate.{
  expected_blob_relative_path, blob_path, check_payload, check_payload_parts,
}
use agent_memory_system.Ledger.Blobs.{
  BlobFiles, write_file, BlobIssue, ReadIo, check_content, verify_blob, BlobError, commit_failed,
  PutIo, prepare_blob, place, reference, verified, finish_blob, put_blob, open_blob, inline_payload,
}

-- No other input has the content's digest.
abbrev pub IsUnique : (List ℕ → String) → List ℕ → Type 0
IsUnique sha256_hex content = (x : List ℕ) → sha256_hex x ≡ sha256_hex content → x ≡ content

placed_when :
    {files files' : BlobFiles} (renamed : Bool)
    → (if renamed then ok files else err commit_failed) ≡ ok files'
    → files ≡ files'
placed_when true h = ok-injective h
placed_when false h = ground arith

-- A placed blob is a found one, or one newly written.
place-eq-ok :
    (io : PutIo) (files files' : BlobFiles) (target : String) (content : List ℕ)
    (found : Option (List ℕ))
    → place io files target content found ≡ ok files'
    → ((found ≢ none) × (files' ≡ files))
      ⊎ ((found ≡ none) × (files' ≡ write_file files target content))
unfolding place
place-eq-ok io files files' target content (some old) h =
    inl ((λ e. ground arith), sym (ok-injective h))
place-eq-ok io files files' target content none h = inr (refl, sym (placed_when io.rename h))

write_file_keeps :
    (files : BlobFiles) (target : String) (content : List ℕ)
    → files target ≡ none
    → (path : String) (old : List ℕ) → files path ≡ some old
    → write_file files target content path ≡ some old
write_file_keeps files target content absent path old kept =
    ground (arith, string_eq.same_iff target path)

place_keeps :
    (io : PutIo) (files files' : BlobFiles) (target : String) (content : List ℕ)
    → place io files target content (files target) ≡ ok files'
    → (path : String) (old : List ℕ) → files path ≡ some old
    → files' path ≡ some old
place_keeps io files files' target content h path old kept =
    elim (place-eq-ok io files files' target content (files target) h) [
      | inl (found, e) ↦ rw e kept
      | inr (absent, e) ↦ rw e (write_file_keeps files target content absent path old kept)
    ]

module _ (sha256_hex : List ℕ → String) where
  -- Every outcome of PutBlob keeps the blobs that are there.
  pub put_blob_keeps :
      (io : PutIo) (files : BlobFiles) (content : List ℕ) (path : String) (old : List ℕ)
      → files path ≡ some old
      → (put_blob sha256_hex io files content).0 path ≡ some old
  unfolding put_blob finish_blob
  put_blob_keeps io files content path old h =
      let target = blob_path (sha256_hex content) in
      elim (Result-cases (prepare_blob io >> place io files target content (files target))) [
        | inr (e, failed) ↦ rw (failed, finish_blob) h
        | inl (files', placed) ↦
            rw (placed, finish_blob)
              (place_keeps io files files' target content (then-eq-ok (prepare_blob io) _ placed).1
                path old h)
      ]

  verify_content :
      (io : ReadIo) (ref : BlobRef) (found : Option (List ℕ))
      → check_content sha256_hex io ref found ≡ none
      → (stored : List ℕ) × (found ≡ some stored) × (sha256_hex stored ≡ ref.sha256)
  verify_content io ref none h = ground arith
  verify_content io ref (some stored) h =
      (stored, refl, ground (arith, string_eq.same_iff (sha256_hex stored) ref.sha256))

  absurd_err :
      {A : Type 0} {e : BlobError} {ref : BlobRef}
      → ◌≡◌ {A = Result BlobError BlobRef} (err e) (ok ref)
      → A
  absurd_err h = cc h

  verified-eq-ok :
      (issue : Option BlobIssue) (ref ref' : BlobRef)
      → verified issue ref ≡ ok ref'
      → (ref' ≡ ref) × (issue ≡ none)
  verified-eq-ok none ref ref' h = (sym (ok-injective h), refl)
  verified-eq-ok (some i) ref ref' h = ground arith

  expected_path :
      (digest : (input : List ℕ) → valid_sha256 (sha256_hex input) ≡ true) (content : List ℕ)
      → expected_blob_relative_path (sha256_hex content) ≡ blob_path (sha256_hex content)
  unfolding expected_blob_relative_path
  expected_path digest content = rw (digest content)

  verify_blob-none :
      (digest : (input : List ℕ) → valid_sha256 (sha256_hex input) ≡ true) (io : ReadIo)
      (files : BlobFiles) (content : List ℕ)
      → verify_blob sha256_hex io files (reference sha256_hex content) ≡ none
      → (stored : List ℕ) × (files (blob_path (sha256_hex content)) ≡ some stored)
        × (sha256_hex stored ≡ sha256_hex content)
  unfolding verify_blob
  verify_blob-none digest io files content h =
      verify_content io (reference sha256_hex content) _
        (rw (expected_path digest content, ne_self (blob_path (sha256_hex content))) at h)

  -- When PutBlob returns a reference, it is that of the content, and OpenBlob then reads the content
  -- by it, if SHA-256 gives digests and no other input has the content's.
  pub put_blob-open_blob :
      (digest : (input : List ℕ) → valid_sha256 (sha256_hex input) ≡ true) (io : PutIo)
      (files : BlobFiles) (content : List ℕ) (ref : BlobRef)
      → IsUnique sha256_hex content
      → (put_blob sha256_hex io files content).1 ≡ ok ref
      → (ref ≡ reference sha256_hex content)
        × (open_blob
              (record { open_ = true; copy = true })
              (put_blob sha256_hex io files content).0
              ref
            ≡ ok content)
  unfolding put_blob finish_blob open_blob
  put_blob-open_blob digest io files content ref unique h =
      let target = blob_path (sha256_hex content) in
      elim (Result-cases (prepare_blob io >> place io files target content (files target))) [
        | inr (e, failed) ↦ absurd_err (rw (failed, finish_blob) at h)
        | inl (files', placed) ↦
            let (same, clean) = verified-eq-ok _ _ _ (rw (placed, finish_blob) at h) in
            let (stored, found, equal) = verify_blob-none digest io.read files' content clean in
            (
              same,
              rw (placed, finish_blob, same)
                  (rw (expected_path digest content, ne_self target, found)
                    (ap ok (unique _ equal))),
            )
      ]

  -- `InlinePayload` meets what validateEvent asks of an inline payload.
  pub inline_payload-check_payload :
      (encoding media_type content : String)
      → check_payload sha256_hex (some (inline_payload sha256_hex encoding media_type content))
        ≡ ok tt
  unfolding check_payload check_payload_parts inline_payload
  inline_payload-check_payload encoding media_type content =
      rw (ne_self (sha256_hex (bytes content)), ne_self (pos (len content)))
