-- ===== src/Promotion.antt =====
-- The promotion ledger of internal/promotion: which memories are active, and how a request becomes
-- a record of the ledger.
pub mod Types
pub mod Validate
pub mod Replay
pub mod Lifecycle
pub mod Prepare
pub mod Requests
pub mod Semantics
pub mod Apply
pub mod Query
pub mod Prepared
pub mod Followed
pub mod Reconstructed
pub mod Timeline
pub mod Recorded
pub mod Applied
pub mod Outcomes
pub mod Demo
mod Tests
