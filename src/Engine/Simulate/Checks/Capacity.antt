-- ===== src/Engine/Simulate/Checks/Capacity.antt =====
-- storage-engine/src/prerequisites.rs: the checks of sizes and capacities.
use pdisks.Base.{
  List, [], ◌∷◌, Bool, true, false, ◌&&◌, ◌||◌, Option, none, some, ◌==◌, nat_eq, string_eq, ltb,
  contains, filter, get_key, if◌then◌else◌,
}
use pdisks.Core.Sizes.{Bytes}
use pdisks.Core.Node.{NodeId}
use pdisks.Core.Graph.{Dependency, DependencyKind, backs}
use pdisks.Core.Graph
use pdisks.Core.State.{DesiredState}
use pdisks.Provider.Contract.{AllocationDomain, AllocationQuantity, domain_eq}
use pdisks.Engine.Simulate.Data.{
  SimulationEvidence, observed_snapshot, predicted_effect, CheckStatus, satisfied, violated,
  unknown, source_eq, context_eq, path_eq,
}
use pdisks.Engine.Simulate.Checks.Nodes.{satisfied_for_node, is_backs, backings}

-- The loop over the direct consumers, with its flags `found`, `unknown` and `predicted`.
unfoldable pub dependents_loop :
    DesiredState
    → SimulationEvidence
    → NodeId
    → (size : Bytes) → (found missing predicted : Bool) → List Dependency
    → CheckStatus
dependents_loop desired evidence n size found missing predicted [] =
    if missing
    then unknown "dependent capacity observation"
    else if found
    then satisfied (if predicted then predicted_effect else observed_snapshot)
    else satisfied_for_node evidence n
dependents_loop desired evidence n size found missing predicted (d ∷ ds) =
    let predicted' = predicted || contains evidence.projected_graph_nodes d.to in
    elim (Graph.node desired.graph d.to) [
      | none ↦ violated "dependent node is absent"
      | some dependent ↦ elim dependent.kind.size [
        | none ↦ dependents_loop desired evidence n size true true predicted' ds
        | some dependent_size ↦ elim (ltb size dependent_size) [
          | true ↦ violated "an upper layer exceeds the proposed backing capacity"
          | false ↦ dependents_loop desired evidence n size true missing predicted' ds
        ]
      ]
    ]

unfoldable pub evaluate_dependent_sizes :
    DesiredState → SimulationEvidence → NodeId → (size : Bytes) → CheckStatus
unfolding dependents_loop
evaluate_dependent_sizes desired evidence n size = elim (Graph.node desired.graph n) [
  | none ↦ violated "referenced node is absent"
  | some _ ↦
      dependents_loop desired evidence n size false false
        (contains evidence.projected_graph_nodes n)
        (filter (λ d. (d.from == n) && is_backs d.kind) desired.graph.dependencies)
]

-- The result for the backings of an existing node.
abbrev pub compare_backing :
    DesiredState → SimulationEvidence → NodeId → (size : Bytes) → List NodeId → CheckStatus
compare_backing desired evidence n size [] = unknown "direct backing relationship"
compare_backing desired evidence n size (backing ∷ []) = elim (Graph.node desired.graph backing) [
  | none ↦ violated "backing node is absent"
  | some value ↦ elim value.kind.size [
    | none ↦ unknown "backing capacity observation"
    | some backing_size ↦
        if ltb backing_size size
        then violated "backing capacity is smaller than the requested size"
        else satisfied (
            if contains evidence.projected_graph_nodes n
              || contains evidence.projected_graph_nodes backing
            then predicted_effect
            else observed_snapshot)
  ]
]
compare_backing desired evidence n size (_ ∷ _ ∷ _) =
    unknown "provider capacity calculation for multiple backing nodes"

unfoldable pub evaluate_backing_size :
    DesiredState → SimulationEvidence → NodeId → (size : Bytes) → CheckStatus
evaluate_backing_size desired evidence n size = elim (Graph.node desired.graph n) [
  | none ↦ violated "referenced node is absent"
  | some _ ↦ compare_backing desired evidence n size (backings desired n)
]

unfoldable pub evaluate_capacity :
    SimulationEvidence → AllocationDomain → Option AllocationQuantity → CheckStatus
evaluate_capacity evidence domain none = unknown "provider allocation calculation for this layout"
evaluate_capacity evidence domain (some amount) =
    elim (get_key evidence.available_capacity domain) [
      | none ↦ unknown "provider allocation-capacity evidence"
      | some available ↦
          if ltb available amount
          then violated "allocation domain has insufficient free capacity"
          else satisfied (
              if contains evidence.projected_allocations domain
              then predicted_effect
              else observed_snapshot)
    ]
