-- ===== src/Telemetry.antt =====
-- The telemetry that agents send: kernel/crates/gctrl-otel/src.
pub mod Spans
mod Examples
