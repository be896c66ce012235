-- ===== src/PomRx.antt =====
-- sdk/typescript/pom-rx.mjs: the receipts of a run, and the chain that they form.
pub mod Parts
pub mod Receipt
pub mod Chain
pub mod Links
pub mod Lawful
mod Tests
