-- ===== src/Gate.antt =====
-- core/gate/reference-single-use-gate.mjs
mod Defs
mod Steps
mod Moves
mod SingleUse
pub mod Safety
pub mod Lifecycle
pub mod Clock
mod Tests
