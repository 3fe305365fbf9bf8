-- ===== src/Engine/Simulate.antt =====
-- storage-engine: the simulation of one action on a desired state (simulation_evidence.rs,
-- prerequisites.rs, effects.rs).
pub mod Data
pub mod Evidence
pub mod Checks
pub mod Effects
pub mod Replay
pub mod Protect
pub mod Soundness
pub mod Admission
pub mod Goal
pub mod Report
mod Examples
