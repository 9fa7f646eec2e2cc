-- ===== src/Ledger/Blobs.antt =====
-- The content-addressed blobs of internal/ledger/ledger.go: PutBlob, OpenBlob, verifyBlob and
-- InlinePayload. The file system enters as the outcome of each call.
pub mod Stored
mod Tests
use agent_memory_system.Prelude.{
  ℕ, String, Bool, true, false, not, ◌&&◌, ◌||◌, Option, none, some, List, [], ◌∷◌,
}
use agent_memory_system.Prelude.Tests.{Comparable, string_eq, ◌==◌, ◌!=◌, if◌then◌else◌}
use agent_memory_system.Prelude.Int.{ℤ, pos, int_eq}
use agent_memory_system.Prelude.Lists.{length}
use agent_memory_system.Prelude.Result.{Result, ok, err, ◌>>=◌, ◌>>◌, fail_if}
use agent_memory_system.Prelude.Text.{bytes, len}
use agent_memory_system.Ledger.Types.{BlobRef, Payload}
use agent_memory_system.Ledger.Validate.{expected_blob_relative_path, blob_path}

-- The files below the evidence root, by their relative paths.
abbrev pub BlobFiles : Type 0
BlobFiles = String → Option (List ℕ)

abbrev pub write_file : BlobFiles → String → List ℕ → BlobFiles
write_file files path content p = if path == p then some content else files p

pub data BlobIssue : Type 0 where
  unsafe_path unavailable unreadable size_mismatch sha256_mismatch : BlobIssue

-- `os.Open` and `io.Copy` of a blob; `true` is success.
pub record ReadIo : Type 0 where
  pub open_ : Bool
  pub copy : Bool

abbrev check_content : (List ℕ → String) → ReadIo → BlobRef → Option (List ℕ) → Option BlobIssue
check_content sha256_hex io ref none = some unavailable
check_content sha256_hex io ref (some content) =
    if not io.open_
    then some unavailable
    else if not io.copy
    then some unreadable
    else if pos (length content) != ref.bytes
    then some size_mismatch
    else if sha256_hex content != ref.sha256
    then some sha256_mismatch
    else none

-- `verifyBlob`; `none` is the empty issue.
unfoldable pub verify_blob : (List ℕ → String) → ReadIo → BlobFiles → BlobRef → Option BlobIssue
verify_blob sha256_hex io files ref =
    if ref.relative_path != expected_blob_relative_path ref.sha256
    then some unsafe_path
    else check_content sha256_hex io ref (files ref.relative_path)

pub data BlobError : Type 0 where
  inside_git temp_directory_failed temp_file_failed write_failed sync_failed : BlobError
  close_failed directory_failed inspect_failed commit_failed unsafe_open : BlobError
  verification_failed : BlobIssue → BlobError

-- The outcomes of the calls of PutBlob; `true` is success.
pub record PutIo : Type 0 where
  pub outside_git : Bool
  pub temp_directory : Bool
  pub temp_file : Bool
  pub copy : Bool
  pub sync : Bool
  pub close_ : Bool
  pub directory : Bool
  pub inspect : Bool
  pub rename : Bool
  pub read : ReadIo

-- The steps before the target is looked at; none of them touches a blob.
prepare_blob : PutIo → Result BlobError (Unit {0})
prepare_blob io = do
  fail_if (not io.outside_git) inside_git
  fail_if (not io.temp_directory) temp_directory_failed
  fail_if (not io.temp_file) temp_file_failed
  fail_if (not io.copy) write_failed
  fail_if (not io.sync) sync_failed
  fail_if (not io.close_) close_failed
  fail_if (not io.directory) directory_failed
  fail_if (not io.inspect) inspect_failed

-- An existing target is kept; else the temporary file takes its place.
place : PutIo → BlobFiles → String → List ℕ → Option (List ℕ) → Result BlobError BlobFiles
place io files path content (some old) = ok files
place io files path content none =
    if io.rename then ok (write_file files path content) else err commit_failed

abbrev reference : (List ℕ → String) → List ℕ → BlobRef
reference sha256_hex content = record {
  sha256 = sha256_hex content;
  bytes = pos (length content);
  relative_path = blob_path (sha256_hex content);
}

abbrev verified : Option BlobIssue → BlobRef → Result BlobError BlobRef
verified none ref = ok ref
verified (some i) ref = err (verification_failed i)

finish_blob :
    (List ℕ → String)
    → PutIo
    → BlobFiles
    → BlobRef
    → Result BlobError BlobFiles
    → BlobFiles × Result BlobError BlobRef
finish_blob sha256_hex io files ref (err e) = (files, err e)
finish_blob sha256_hex io files ref (ok files') =
    (files', verified (verify_blob sha256_hex io.read files' ref) ref)

-- `PutBlob` of a reader with this content.
unfoldable pub put_blob :
    (List ℕ → String) → PutIo → BlobFiles → List ℕ → BlobFiles × Result BlobError BlobRef
unfolding prepare_blob place finish_blob
put_blob sha256_hex io files content =
    let ref = reference sha256_hex content in
    finish_blob sha256_hex io files ref
      (prepare_blob io >> place io files ref.relative_path content (files ref.relative_path))

-- `OpenBlob`: what a reader of the file finds.
unfoldable pub open_blob : ReadIo → BlobFiles → BlobRef → Result BlobError (List ℕ)
open_blob io files ref = do
  fail_if (ref.relative_path != expected_blob_relative_path ref.sha256) unsafe_open
  elim (files ref.relative_path) [
    | none ↦ err (verification_failed unavailable)
    | some content ↦ if io.open_ then ok content else err (verification_failed unavailable)
  ]

-- `InlinePayload`.
unfoldable pub inline_payload : (List ℕ → String) → String → String → String → Payload
inline_payload sha256_hex encoding media_type content = record {
  encoding = encoding;
  media_type = media_type;
  content = some content;
  blob = none;
  sha256 = sha256_hex (bytes content);
  bytes = pos (len content);
}
