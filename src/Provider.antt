-- ===== src/Provider.antt =====
-- storage-provider: typed actions, their contracts, and the fragments that planners propose.
pub mod Contract
pub mod Action
pub mod Fragment
