-- ===== src/Board.antt =====
-- The board tables of kernel/crates/gctrl-storage/src/sqlite_store.rs with the types of
-- kernel/crates/gctrl-core/src/types.rs: issues and their status, tasks and their claim.
pub mod Status
pub mod Model
pub mod Acceptance
pub mod Checks
pub mod Move
pub mod Claim
pub mod Tasks
pub mod Ops
mod Examples
