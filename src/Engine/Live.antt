-- ===== src/Engine/Live.antt =====
-- storage-engine/src/live.rs: `LiveObservation` and its structural validation
-- (the record itself stands in storage-engine/src/execution.rs).
use pdisks.Base.{
  List, [], ◌∷◌, Bool, false, not, Option, none, some, Result, ok, err, require, ◌>>◌, ◌==◌, nat_eq,
}
use pdisks.Core.Block.{Uuid, is_nil}
use pdisks.Core.Node.{Node, NodeId, ProbeEpoch}
use pdisks.Core.Graph.{NodeGraph, GraphError, contains_key}
use pdisks.Core.Graph.Structure.{validate_structure}
use pdisks.Core.State.{
  CurrentState, MountSource, filesystem, btrfs_subvolume, zfs_dataset, ObservedMount,
}

pub record ObservationReference : Type 0 where
  pub probe_instance : Uuid
  pub epoch : ProbeEpoch

pub record LiveObservation : Type 0 where
  pub reference : ObservationReference
  pub snapshot : CurrentState

pub data ObservationError : Type 0 where
  nil_instance : ObservationError
  graph : GraphError → ObservationError
  nil_node : ObservationError
  node_epoch mount_source : NodeId → ObservationError

-- `?` at a result of the graph, by `From<GraphError>`.
graph_result : Result GraphError (Unit {0}) → Result ObservationError (Unit {0})
graph_result (ok u) = ok u
graph_result (err e) = err (graph e)

-- `observed_in.is_some_and(|epoch| epoch != self.reference.epoch)`
abbrev other_epoch : Option ProbeEpoch → ProbeEpoch → Bool
other_epoch none epoch = false
other_epoch (some e) epoch = not (e == epoch)

check_nodes : ProbeEpoch → List (NodeId × Node) → Result ObservationError (Unit {0})
check_nodes epoch [] = ok tt
check_nodes epoch ((id, n) ∷ rest) = do
  require (not (is_nil id)) nil_node
  require (not (other_epoch n.size.observed_in epoch)) (node_epoch id)
  check_nodes epoch rest

-- The node of a typed mount source.
abbrev pub source_node : MountSource → Option NodeId
source_node (filesystem id) = some id
source_node (btrfs_subvolume id) = some id
source_node (zfs_dataset id) = some id
source_node _ = none

check_mounts : NodeGraph → List ObservedMount → Result ObservationError (Unit {0})
check_mounts g [] = ok tt
check_mounts g (m ∷ rest) = elim (source_node m.source) [
  | none ↦ check_mounts g rest
  | some id ↦ require (contains_key g id) (mount_source id) >> check_mounts g rest
]

-- `LiveObservation::validate`
unfoldable pub validate : LiveObservation → Result ObservationError (Unit {0})
unfolding graph_result check_nodes check_mounts
validate o = do
  require (not (is_nil o.reference.probe_instance)) nil_instance
  graph_result (validate_structure o.snapshot.graph)
  check_nodes o.reference.epoch o.snapshot.graph.nodes
  check_mounts o.snapshot.graph o.snapshot.mounts.entries
