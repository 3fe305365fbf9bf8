-- ===== src/Engine/Simulate/Goal.antt =====
-- storage-engine/src/simulate.rs: the comparison of a predicted configuration with the goal.
pub mod Graphs
use Prim.Native.String.{String}
use native.Mathlib.Decide.{ℕ_discrete}
use pdisks.Base.{
  List, [], ◌∷◌, ◌++◌, map, Bool, true, false, ◌&&◌, Option, none, some, Eq, ◌==◌, nat_eq, any, all,
  length, nat_beq, contains, eq_of_discrete, String-discrete, lists_discrete, if◌then◌else◌,
}
use pdisks.Core.Block.{FilePath}
use pdisks.Core.Node.{Node, NodeId, NodeKind}
use pdisks.Core.Graph.{NodeGraph, lookup, dependency_eq, relation_eq}
use pdisks.Core.State.{BootSpec, DesiredState, MountContext, MountEntry}
use pdisks.Engine.Run.Defs.{GoalAspect, graph, runtime_mount, persistent_mount, boot}
use pdisks.Engine.Simulate.Data.{SimulationEvidenceSummary, context_eq, path_eq, source_eq}

pub data GoalStatus : Type 0 where
  satisfied : GoalStatus
  violated : (reason : String) → GoalStatus
  unknown : (required_evidence : String) → GoalStatus

pub record GoalCheck : Type 0 where
  pub aspect : GoalAspect
  pub status : GoalStatus

unfoldable pub NodeKind-discrete : Discrete NodeKind
NodeKind-discrete = hlevel (ℕ_discrete, String-discrete, lists_discrete)

instance abbrev pub node_kind_eq : Eq NodeKind
node_kind_eq = eq_of_discrete NodeKind-discrete

-- `requested.node(id).is_some_and(|goal| goal.kind.kind == node.kind.kind)`
abbrev pub has_kind : NodeGraph → NodeId × Node → Bool
has_kind requested (id, node) = elim (lookup id requested.nodes) [
  | none ↦ false
  | some goal ↦ goal.kind.kind == node.kind.kind
]

abbrev pub topology_matches : (projected requested : NodeGraph) → Bool
topology_matches projected requested =
    nat_beq (length projected.nodes) (length requested.nodes)
    && all (has_kind requested) projected.nodes
    && nat_beq (length projected.dependencies) (length requested.dependencies)
    && all (λ d. contains requested.dependencies d) projected.dependencies
    && nat_beq (length projected.relations) (length requested.relations)
    && all (λ r. contains requested.relations r) projected.relations

-- The loop over the requested nodes, with its flag `unknown`.
unfoldable pub compare_sizes :
    (projected : NodeGraph) → List (NodeId × Node) → (missing : Bool) → GoalStatus
compare_sizes projected [] missing =
    if missing
    then unknown "provider capacity evidence for nodes with explicitly requested sizes"
    else satisfied
compare_sizes projected ((id, goal) ∷ rest) missing = elim goal.kind.size [
  | none ↦ compare_sizes projected rest missing
  | some required ↦ elim (lookup id projected.nodes) [
    | none ↦ compare_sizes projected rest true
    | some node ↦ elim node.kind.size [
      | none ↦ compare_sizes projected rest true
      | some actual ↦ elim (actual == required) [
        | true ↦ compare_sizes projected rest missing
        | false ↦ violated "projected capacity does not match the requested size"
      ]
    ]
  ]
]

unfoldable pub compare_graph : (projected requested : NodeGraph) → GoalStatus
unfolding compare_sizes
compare_graph projected requested =
    if topology_matches projected requested
    then compare_sizes projected requested.nodes false
    else violated "projected storage topology or node properties do not match the requested graph"

abbrev pub options_match : (left right : List String) → Bool
options_match left right = left == right

-- The test of both searches for a mount entry.
abbrev pub is_same_mount : (requested mount : MountEntry) → Bool
is_same_mount requested mount =
    (mount.source == requested.source)
    && (mount.target == requested.target)
    && (mount.context == requested.context)
    && options_match mount.options requested.options

unfoldable pub runtime_mount_check : List MountEntry → MountEntry → GoalCheck
runtime_mount_check mounts entry = record {
  aspect = runtime_mount entry.target entry.context;
  status =
      if any (is_same_mount entry) mounts
      then satisfied
      else violated "requested runtime mount is absent from the projection";
}

-- `SimulationEvidenceSummary::persistent_mount_was_projected`
abbrev pub persistent_was_determined :
    SimulationEvidenceSummary → (target : FilePath) → MountContext → Bool
persistent_was_determined evidence target context =
    any (λ candidate. candidate.0 == target && candidate.1 == context)
      evidence.determined_persistent_targets

unfoldable pub persistent_mount_check :
    DesiredState → SimulationEvidenceSummary → MountEntry → GoalCheck
persistent_mount_check desired evidence requested = record {
  aspect = persistent_mount requested.target requested.context;
  status =
      if any (is_same_mount requested) desired.mounts.persistent
      then satisfied
      else if persistent_was_determined evidence requested.target requested.context
      then violated "planned persistent mount entry does not match the request"
      else unknown "persistent mount configuration baseline or planned effect";
}

abbrev pub boot_status : BootSpec → GoalStatus
boot_status BootSpec.unmanaged = satisfied
boot_status _ = unknown "boot planning and verification"

unfoldable pub compare_goal :
    DesiredState → SimulationEvidenceSummary → (goal : DesiredState) → List GoalCheck
unfolding compare_graph runtime_mount_check persistent_mount_check
compare_goal desired evidence goal =
    (record { aspect = graph; status = compare_graph desired.graph goal.graph } ∷ [])
    ++ map (runtime_mount_check desired.mounts.runtime) goal.mounts.runtime
    ++ map (persistent_mount_check desired evidence) goal.mounts.persistent
    ++ record { aspect = boot; status = boot_status goal.boot } ∷ []
