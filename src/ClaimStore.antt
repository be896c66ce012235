-- ===== src/ClaimStore.antt =====
-- core/gate/reference-durable-claim-store.mjs: claims on capabilities in a local file system.
pub mod Records
pub mod Io
pub mod Durable
pub mod Programs
pub mod Files
pub mod World
pub mod Kept
pub mod Tame
pub mod Owner
pub mod Sound
pub mod Resume
pub mod Exclusive
pub mod Origin
pub mod Private
pub mod Staged
pub mod Stages
pub mod Drawn
pub mod Immutable
pub mod Handles
pub mod Lifecycle
mod Tests
