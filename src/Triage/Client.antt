-- ===== src/Triage/Client.antt =====
-- triage/llm.py: the chat client.
pub mod Estimate
pub mod Retry
pub mod Cost
pub mod Complete
