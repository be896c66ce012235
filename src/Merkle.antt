-- ===== src/Merkle.antt =====
-- sdk/typescript/swisstokint-proof.mjs: Merkle batches of receipt commitments and inclusion proofs.
pub mod Tree
pub mod Batch
pub mod Verify
pub mod Paths
pub mod Rounds
pub mod Climb
pub mod Inclusion
pub mod Ordered
pub mod Whole
pub mod Binding
mod Tests
