-- ===== src/Sync.antt =====
-- The synchronisation of the vault: kernel/crates/gctrl-sync/src.
pub mod Vault
mod Examples
