-- ===== src/Engine/Simulate/Checks/Endpoints.antt =====
-- storage-engine/src/prerequisites.rs: `evaluate_endpoint` and `evaluate_mount_source`.
use pdisks.Base.{
  List, [], ◌∷◌, Bool, true, false, not, ◌||◌, none, some, nat_eq, string_eq, get_key,
  if◌then◌else◌,
}
use pdisks.Core.Node.{NodeId}
use pdisks.Core.Graph.{Dependency, DependencyKind, backs}
use pdisks.Core.Graph
use pdisks.Core.State.{DesiredState, MountSource}
use pdisks.Provider.Contract.{read_only, read_write, FactScope, FactKind, domain_eq}
use pdisks.Engine.Simulate.Data.{
  SimulationEvidence, observed_snapshot, predicted_effect, CheckStatus, satisfied, violated,
  unknown, source_eq, context_eq, path_eq,
}
use pdisks.Engine.Simulate.Evidence.{is_observation_stale}
use pdisks.Engine.Simulate.Checks.Nodes.{
  is_block, source_node, is_compatible, is_plain_filesystem, backings,
}

unfoldable pub evaluate_endpoint :
    DesiredState → SimulationEvidence → NodeId → (writable : Bool) → CheckStatus
evaluate_endpoint desired evidence n writable = elim (Graph.node desired.graph n) [
  | none ↦ violated "referenced node is absent"
  | some value ↦ elim (get_key evidence.activations n) [
    | some false ↦ violated "projected block endpoint is inactive"
    | _ ↦ elim (get_key evidence.block_interfaces n) [
      | some read_write ↦ satisfied predicted_effect
      | some read_only ↦
          if writable
          then violated "projected block interface is read-only"
          else satisfied predicted_effect
      | none ↦
          if is_observation_stale evidence (FactScope.node n) FactKind.activation
            || is_observation_stale evidence (FactScope.node n) FactKind.presence
          then unknown "fresh block endpoint observation after runtime invalidation"
          else elim value.size.block [
            | none ↦
                if writable
                then unknown "writable block endpoint observation"
                else unknown "available block endpoint observation"
            | some block ↦
                if writable
                then (elim block.read_only [
                  | some false ↦ satisfied observed_snapshot
                  | some true ↦ violated "observed block endpoint is read-only"
                  | none ↦ unknown "writable block endpoint observation"
                ])
                else satisfied observed_snapshot
          ]
    ]
  ]
]

-- `graph.node(backing).is_some_and(|value| matches_kind(.., Block))`
abbrev pub is_block_node : DesiredState → NodeId → Bool
is_block_node desired n = elim (Graph.node desired.graph n) [
  | none ↦ false
  | some value ↦ is_block value.kind.kind
]

abbrev pub topology_unknown : CheckStatus
topology_unknown = unknown "provider mount-source topology and availability check"

-- The result for the list of backings, once the source is known to be compatible.
abbrev pub evaluate_backings : DesiredState → SimulationEvidence → List NodeId → CheckStatus
evaluate_backings desired evidence (backing ∷ []) =
    if is_block_node desired backing
    then evaluate_endpoint desired evidence backing false
    else topology_unknown
evaluate_backings desired evidence _ = topology_unknown

unfoldable pub evaluate_mount_source : DesiredState → SimulationEvidence → MountSource → CheckStatus
unfolding evaluate_endpoint
evaluate_mount_source desired evidence source = elim (source_node source) [
  | none ↦ unknown "provider mount-source availability check"
  | some n ↦ elim (Graph.node desired.graph n) [
    | none ↦ violated "mount source is absent"
    | some value ↦
        if not (is_compatible source value.kind.kind)
        then violated "mount source has an incompatible node kind"
        else if is_plain_filesystem value.kind.kind
        then evaluate_backings desired evidence (backings desired n)
        else topology_unknown
  ]
]
