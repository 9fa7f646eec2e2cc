-- ===== src/Ledger/Lock.antt =====
-- The writer lock of internal/ledger/ledger.go, and the ways to open and close an appender.
use agent_memory_system.Prelude.{
  ℕ, String, Bool, true, false, not, ◌&&◌, ◌||◌, Option, none, some, List, [],
}
use agent_memory_system.Prelude.Tests.{if◌then◌else◌}
use agent_memory_system.Prelude.Result.{Result, ok, err}
use agent_memory_system.Ledger.Types.{Codec}
use agent_memory_system.Ledger.Chain.{
  ScanError, LedgerFile, absent, unopenable, readable, last_record_hash,
}
use agent_memory_system.Ledger.Appender.{Appender}

-- The files of a store that writers share: the events, none before the first appender, and whether
-- the lock file is there.
pub record Disk : Type 0 where
  pub events : Option (List ℕ)
  pub lock : Bool

-- The outcomes of the system calls that open an appender; `true` is success.
pub record OpenIo : Type 0 where
  pub outside_git : Bool
  pub lock_directory : Bool
  pub lock_create : Bool
  pub lock_write : Bool
  pub lock_close : Bool
  pub lock_remove : Bool
  pub directory : Bool
  pub events_read : Bool
  pub events_fault : Bool
  pub events_open : Bool

pub data LockError : Type 0 where
  lock_directory_failed writer_locked acquire_failed metadata_failed : LockError

-- `acquireWriterLock`: O_EXCL fails on an existing file; a lock without its metadata is removed.
unfoldable pub acquire_writer_lock : OpenIo → Bool → Bool × Option LockError
acquire_writer_lock io lock =
    if not io.lock_directory
    then (lock, some lock_directory_failed)
    else if lock
    then (lock, some writer_locked)
    else if not io.lock_create
    then (false, some acquire_failed)
    else if not io.lock_write || not io.lock_close
    then (not io.lock_remove, some metadata_failed)
    else (true, none)

-- `release` of a lock with a path; os.Remove fails on a file that is not there. The flag is false
-- behind an error.
unfoldable pub release_writer_lock : Bool → Bool → Bool × Bool
release_writer_lock remove lock = if lock && remove then (false, true) else (lock, false)

pub data OpenError (E : Type 0) : Type 0 where
  inside_git directory_failed open_events_failed : OpenError E
  lock_failed : LockError → OpenError E
  scan_failed : ScanError E → OpenError E

-- `os.Open` of the events.
abbrev pub ledger_file : OpenIo → Option (List ℕ) → LedgerFile
ledger_file io none = absent
ledger_file io (some content) =
    if io.events_read then readable content io.events_fault else unopenable

abbrev pub created : Option (List ℕ) → List ℕ
created none = []
created (some content) = content

module _ {E : Type 0} where
  -- `releaseWriterLockAfterError`.
  abbrev give_up : OpenIo → Disk → OpenError E → Disk × Result (OpenError E) Appender
  give_up io d e = (record d { lock = (release_writer_lock io.lock_remove d.lock).0 }, err e)

  -- `openAppenderAt`, which creates the file.
  open_appender_at : OpenIo → Disk → String → Disk × Result (OpenError E) Appender
  open_appender_at io d previous =
      if not io.directory
      then give_up io d directory_failed
      else if not io.events_open
      then give_up io d open_events_failed
      else (
        record d { events = some (created d.events) },
        ok (record { previous = previous; failed = false; closed = false }),
      )

  open_scanned : OpenIo → Disk → Result (ScanError E) String → Disk × Result (OpenError E) Appender
  unfolding open_appender_at
  open_scanned io d (err e) = give_up io d (scan_failed e)
  open_scanned io d (ok previous) = open_appender_at io d previous

  -- The steps behind the lock.
  new_locked : Codec → OpenIo → Disk → Option LockError → Disk × Result (OpenError E) Appender
  unfolding open_scanned
  new_locked c io d (some e) = (d, err (lock_failed e))
  new_locked c io d none =
      if not io.directory
      then give_up io d directory_failed
      else open_scanned io d (last_record_hash c (ledger_file io d.events))

  -- `NewAppender`.
  unfoldable pub new_appender : Codec → OpenIo → Disk → Disk × Result (OpenError E) Appender
  unfolding new_locked
  new_appender c io d =
      if not io.outside_git
      then (d, err inside_git)
      else let (lock, e) = acquire_writer_lock io d.lock in
        new_locked c io (record d { lock = lock }) e

-- The outcomes of the calls of `Close`.
pub record CloseIo : Type 0 where
  pub file_close : Bool
  pub lock_remove : Bool

-- `Close`: a second call does nothing. The flag is false behind an error.
unfoldable pub close : CloseIo → Disk → Appender → Disk × Appender × Bool
close io d a =
    if a.closed
    then (d, a, true)
    else let (lock, released) = release_writer_lock io.lock_remove d.lock in
      (record d { lock = lock }, record a { closed = true }, io.file_close && released)

-- `WriterLockPresent` and `ClearStaleWriterLock`; the result tells whether a lock was there.
unfoldable pub writer_lock_present : Disk → Bool
writer_lock_present d = d.lock

unfoldable pub clear_stale_writer_lock : Bool → Disk → Disk × Option Bool
clear_stale_writer_lock remove d =
    if not d.lock
    then (d, some false)
    else if remove
    then (record d { lock = false }, some true)
    else (d, none)
