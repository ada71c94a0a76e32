-- ===== src/Triage/Arms.antt =====
-- triage/arms.py
pub mod RawLogs
pub mod Types
pub mod Messages
pub mod Setup
pub mod State
pub mod Run
