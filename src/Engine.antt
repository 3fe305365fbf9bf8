-- ===== src/Engine.antt =====
-- storage-engine: plans, their composition and replay, and the execution run.
pub mod Plan
pub mod Live
pub mod Compose
pub mod Simulate
pub mod Run
