-- ===== src/Receipt.antt =====
-- sdk/typescript/swisstokint-proof.mjs: receipts, their commitments, and anchor records.
pub mod Wire
pub mod Anchor
pub mod Stable
pub mod Anchored
mod Tests
