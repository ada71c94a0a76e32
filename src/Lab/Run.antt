-- ===== src/Lab/Run.antt =====
-- lab/run_lab.py: the generator of the dataset.
pub mod Plan
pub mod State
pub mod Executor
pub mod Cleanup
pub mod Bundle
