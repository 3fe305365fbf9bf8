-- ===== src/Core.antt =====
-- storage-core: the domain model (block devices, RAID, nodes, state), checked sizes and the graph.
pub mod Sizes
pub mod Block
pub mod Raid
pub mod Kind
pub mod Node
pub mod State
pub mod Graph
