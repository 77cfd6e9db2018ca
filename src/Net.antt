-- ===== src/Net.antt =====
-- Fetching from the network: kernel/crates/gctrl-net/src.
pub mod Crawl
mod Examples
