-- ===== src/Ledger/Writers.antt =====
-- Processes that share a store through the writer lock of internal/ledger/ledger.go: every
-- interleaving of their opens, appends, closes and crashes, as steps of one system.
pub mod Exclusion
use agent_memory_system.Prelude.{ℕ, Bool, true, false, Option, none, some, List, [], ◌∷◌, ◌≡◌}
use agent_memory_system.Prelude.Tests.{nat_eq, ◌==◌, if◌then◌else◌}
use agent_memory_system.Prelude.Result.{Result, ok, err}
use agent_memory_system.Ledger.Types.{BlobRef, Event, Record, Codec}
use agent_memory_system.Ledger.Appender.{AppendError, Io, Writer, Appender, append_batch}
use agent_memory_system.Ledger.Lock.{Disk, OpenIo, OpenError, CloseIo, new_appender, close}

-- The store, and the open appender of each process.
pub record System : Type 0 where
  pub disk : Disk
  pub handle : ℕ → Option Appender

abbrev pub update : (ℕ → Option Appender) → ℕ → Option Appender → ℕ → Option Appender
update h i v j = if i == j then v else h j

abbrev pub initial : System
initial = record { disk = record { events = none; lock = false }; handle = λ i. none }

-- No step clears a lock that it does not own, as `ClearStaleWriterLock` does.
pub data Step (E B : Type 0) (c : Codec) (verify_blob : BlobRef → Option B) (s t : System)
    : Type 0 where
  opened :
      (i : ℕ) (io : OpenIo) (d : Disk) (a : Appender)
      → s.handle i ≡ none
      → new_appender {E = E} c io s.disk ≡ (d, ok a)
      → t ≡ record { disk = d; handle = update s.handle i (some a) }
      → Step E B c verify_blob s t
  refused :
      (io : OpenIo) (d : Disk) (e : OpenError E)
      → new_appender c io s.disk ≡ (d, err e)
      → t ≡ record { disk = d; handle = s.handle }
      → Step E B c verify_blob s t
  appended :
      (i : ℕ) (io : Io) (a : Appender) (content : List ℕ) (events : List Event) (w : Writer)
      (r : Result (AppendError B) (List Record))
      → s.handle i ≡ some a
      → s.disk.events ≡ some content
      → append_batch c verify_blob io (record { appender = a; content = content }) events ≡ (w, r)
      → t ≡ record {
        disk = record { events = some w.content; lock = s.disk.lock };
        handle = update s.handle i (some w.appender);
      }
      → Step E B c verify_blob s t
  closed :
      (i : ℕ) (io : CloseIo) (a a' : Appender) (d : Disk) (done : Bool)
      → s.handle i ≡ some a
      → close io s.disk a ≡ (d, a', done)
      → t ≡ record { disk = d; handle = update s.handle i none }
      → Step E B c verify_blob s t
  crashed :
      (i : ℕ)
      → t ≡ record { disk = s.disk; handle = update s.handle i none }
      → Step E B c verify_blob s t

pub data Reach (E B : Type 0) (c : Codec) (verify_blob : BlobRef → Option B) : System → Type 0 where
  start : Reach E B c verify_blob initial
  step :
      {s t : System}
      → Reach E B c verify_blob s
      → Step E B c verify_blob s t
      → Reach E B c verify_blob t
