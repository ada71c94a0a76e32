-- ===== src/Triage.antt =====
-- The diagnosis harness (triage/*.py).
pub mod Data
pub mod Schema
pub mod Tools
pub mod Client
pub mod Citations
pub mod Codes
pub mod Metrics
pub mod Eval
pub mod Arms
