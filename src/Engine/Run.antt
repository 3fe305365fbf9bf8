-- ===== src/Engine/Run.antt =====
-- storage-engine/src/execution.rs: one serial execution attempt over a reviewed plan.
pub mod Defs
pub mod Evidence
pub mod Monad
pub mod Methods
pub mod Effects
pub mod Command
pub mod Lifecycle
pub mod Invariant
pub mod Absorption
pub mod Events
pub mod Paging
pub mod Backing
pub mod Freshness
mod Examples
pub mod Views
