-- ===== src/Triage/Tools.antt =====
-- triage/tools.py
pub mod Rows
pub mod Bounds
pub mod Reads
mod Examples
