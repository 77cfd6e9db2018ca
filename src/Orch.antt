-- ===== src/Orch.antt =====
-- The orchestrator's worker: kernel/crates/gctrl-orch/src.
pub mod Env
pub mod Agent
pub mod Prompt
pub mod Comment
pub mod Worker
mod Examples
