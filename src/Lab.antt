-- ===== src/Lab.antt =====
-- The fault laboratory (lab/*.py).
pub mod Scrub
pub mod Window
pub mod Dataset
pub mod Scenarios
pub mod Run
pub mod Manifest
pub mod Verify
