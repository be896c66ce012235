-- ===== src/Gate/Moves.antt =====
-- What one event may do to the capabilities and to the forwarded executions: an abstract transition
-- system, and the proof that the harness refines it.
mod Parts
mod Refines
mod Bound
mod Keeps
pub use Parts.{
  Next, reserves, rejects, succeeds_next, fails_next, Move, stay, issues, shifts, forwards_one,
  Covers, Knows, HasBinding, IsBound,
}
pub use Refines.*
pub use Bound.*
pub use Keeps.*
