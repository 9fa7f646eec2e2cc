-- ===== src/Retrieval.antt =====
-- internal/retrieval: the search over portable memories, its receipts, the injected context and the
-- reports of adoption.
mod Tests
pub mod Demo
pub mod Types
pub mod Terms
pub mod Sets
pub mod Normalize
pub mod Rank
pub mod Normalized
pub mod Selected
pub mod Receipts
pub mod Search
pub mod Retry
pub mod Causes
pub mod Descent
pub mod Reached
pub mod Render
pub mod Rendered
pub mod Lexed
pub mod Ranked
pub mod Pipeline
pub mod Chosen
pub mod Validated
pub mod Filled
pub mod Loaded
pub mod Searched
pub mod Accepted
pub mod Injection
pub mod Injected
pub mod Delivered
pub mod Adoption
pub mod Adopted
pub mod Verify
