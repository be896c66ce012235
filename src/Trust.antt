-- ===== src/Trust.antt =====
-- core/witness/reference-trust-lifecycle.mjs: the identities that sources and Witnesses sign with.
pub mod Records
pub mod Snapshots
pub mod Admin
pub mod Verify
pub mod Moves
pub mod Prepares
pub mod Steps
pub mod Evolves
pub mod Succession
pub mod Invariant
pub mod Accepts
pub mod Handover
pub mod Revisions
pub mod Documents
mod Tests
