-- ===== src/Ledger.antt =====
-- The evidence ledger: internal/ledger/ledger.go and internal/ledger/types.go.
pub mod Types
pub mod Validate
pub mod Lines
pub mod Chain
pub mod Verify
pub mod Appender
pub mod Lock
pub mod Writers
pub mod Blobs
pub mod Demo
mod Tests
