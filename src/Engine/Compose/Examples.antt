-- ===== src/Engine/Compose/Examples.antt =====
-- The theorems on storage-engine/src/compose.rs at a plan of three actions: 2 before 0, 0 before 1.
use native.Mathlib.Decide.{ℕ_discrete}
use mathlib.Core.List.Memᴰ
use pdisks.Base.{ℕ, zero, suc, ◌≡◌, ◌↔◌, ◌⊎◌, inl, inr, refl, List, [], ◌∷◌, true, ok, err, arith}
use pdisks.Provider.Contract.{
  ActionContract, ActionResource-discrete, ResourceAccessMode-discrete, node, write,
  manual_recovery,
}
use pdisks.Provider.Fragment.{requested_order, resize_safety}
use pdisks.Engine.Plan.{ActionId, ActionDependency}
use pdisks.Engine.Compose.{failure, dependency_cycle}
use pdisks.Engine.Compose.Order.{topological_order, count_incoming, order_loop, find_ready, release}
use pdisks.Engine.Compose.Order.Counts.{InRange}
use pdisks.Engine.Compose.Order.Laws.{
  IsOrder, IsRank, topological_order_correct, topological_order_complete,
}
use pdisks.Engine.Compose.Conflicts.{
  dependency_path, validate_resource_order, check_seconds, check_pair, conflicting_resource,
  conflict_with, path_loop, push_afters,
}
use pdisks.Engine.Compose.Conflicts.Paths.{Chain, dependency_path_iff}
use pdisks.Engine.Compose.Conflicts.Laws.{AllSettled, validate_resource_order_iff}

abbrev edges : List ActionDependency
edges =
    record { before = 2; after = 0; reason = requested_order }
    ∷ record { before = 0; after = 1; reason = resize_safety }
    ∷ []

ordered_edges : topological_order 3 edges ≡ ok (2 ∷ 0 ∷ 1 ∷ [])
unfolding topological_order count_incoming order_loop find_ready release
ordered_edges = refl

abbrev loop_edges : List ActionDependency
loop_edges = record { before = 1; after = 2; reason = requested_order } ∷ edges

loop_refused : topological_order 3 loop_edges ≡ err (failure dependency_cycle)
unfolding topological_order count_incoming order_loop find_ready release
loop_refused = refl

edges-InRange : InRange 3 edges
edges-InRange = (omega arith, omega arith, (omega arith, omega arith, tt))

topological_order_correct_example :
    ((order : List ActionId) × (topological_order 3 edges ≡ ok order) × IsOrder 3 edges order)
    ⊎ (topological_order 3 edges ≡ err (failure dependency_cycle))
topological_order_correct_example = topological_order_correct 3 edges (omega arith) edges-InRange

abbrev rank : ActionId → ℕ
rank zero = 1
rank (suc zero) = 2
rank (suc (suc _)) = 0

edges_ranked : IsRank rank edges
edges_ranked d m = elim (Memᴰ.cases_cons m) [
  | inl e ↦ rw e (omega arith)
  | inr t ↦ elim (Memᴰ.cases_cons t) [
    | inl e ↦ rw e (omega arith)
    | inr n ↦ absurd (Memᴰ.not-nil n)
  ]
]

topological_order_complete_example :
    (order : List ActionId) × (topological_order 3 edges ≡ ok order) × IsOrder 3 edges order
topological_order_complete_example =
    topological_order_complete 3 edges rank (omega arith) edges-InRange edges_ranked

two_before_one : dependency_path 2 1 edges ≡ true
unfolding dependency_path path_loop push_afters
two_before_one = refl

dependency_path_iff_example : (dependency_path 2 1 edges ≡ true) ↔ Chain edges 2 1
dependency_path_iff_example = dependency_path_iff 2 1 edges

abbrev writer : ℕ → ActionContract
writer n = record {
  prerequisites = [];
  provided_outputs = [];
  affected_resources = record { resource = node n; mode = write } ∷ [];
  predicted_effect = record { graph = []; mounts = []; allocations = [] };
  invalidated_facts = [];
  postconditions = [];
  restart_policy = manual_recovery;
}

abbrev contracts : List (ActionId × ActionContract)
contracts = (0, writer 7) ∷ (1, writer 8) ∷ (2, writer 7) ∷ []

contracts_accepted : validate_resource_order contracts edges ≡ ok tt
unfolding validate_resource_order check_seconds check_pair conflicting_resource conflict_with
    dependency_path path_loop push_afters ActionResource-discrete ResourceAccessMode-discrete
    ℕ_discrete
contracts_accepted = refl

validate_resource_order_iff_example :
    (validate_resource_order contracts edges ≡ ok tt) ↔ AllSettled edges contracts
validate_resource_order_iff_example = validate_resource_order_iff contracts edges
