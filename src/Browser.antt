-- ===== src/Browser.antt =====
-- The pool of warm Chromium processes: kernel/crates/gctrl-browser/src.
pub mod Model
pub mod Config
pub mod Token
pub mod Recycle
pub mod Pool
mod Examples
