-- ===== src/MacComm.antt =====
-- The communication with macOS terminals: kernel/crates/gctrl-mac-comm/src and its route.
pub mod Model
pub mod Pattern
pub mod Validate
pub mod Focus
mod Examples
