-- ===== src/Engine/Simulate/Replay.antt =====
-- storage-engine/src/effects.rs: `simulate_action`, and storage-engine/src/simulate.rs: the replay of
-- a plan. What the provider says of an action is an argument: its diagnostics, its contract, and
-- whether it accepts the contract of a plan (storage-provider, not modelled here).
pub mod Trace
pub mod Order
use pdisks.Base.{
  List, [], ◌∷◌, ◌++◌, Bool, true, false, Result, ok, err, require, ok_or, ◌>>=◌, ◌>>◌, leb, any,
  length, get_elem?, if◌then◌else◌,
}
use pdisks.Core.Graph.{GraphError, NodeGraph}
use pdisks.Core.Graph.Structure.{validate_structure}
use pdisks.Core.State.{CurrentState, DesiredState, Diagnostic, DiagnosticSeverity, from_current}
use pdisks.Provider.Action.{ProviderAction}
use pdisks.Provider.Contract.{ActionContract, FactInvalidation}
use pdisks.Engine.Plan.{ActionId, ExecutionPlan, PlannedAction}
use pdisks.Engine.Compose.Order.{topological_order}
use pdisks.Engine.Simulate.Data.{
  is_violated, ActionSimulationError, validation, prerequisites_violated, effect, CapacityEvidence,
  CapacityEvidenceError, PrerequisiteCheck, SimulatedAction, SimulationEvidenceSummary,
}
use pdisks.Engine.Simulate.Evidence.{apply_outputs, new_evidence, summary}
use pdisks.Engine.Simulate.Checks.{evaluate_prerequisites}
use pdisks.Engine.Simulate.Effects.{Projection, apply_effect_with_invalidations}

-- `validate_provider_action`, `describe_action` and `verify_imported_contract(..).is_ok()`
pub record Provider : Type 0 where
  pub validate_provider_action : ProviderAction → NodeGraph → List Diagnostic
  pub describe_action : ProviderAction → NodeGraph → ActionContract
  pub accepts_contract : ProviderAction → ActionContract → NodeGraph → Bool

pub record SimulatedStep : Type 0 where
  pub action : ActionId
  pub checks : List PrerequisiteCheck
  pub invalidated_facts : List FactInvalidation

pub record SimulationResult : Type 0 where
  pub desired : DesiredState
  pub evidence : SimulationEvidenceSummary
  pub steps : List SimulatedStep

-- The errors that a replay returns.
pub data PlanSimulationError : Type 0 where
  structure : GraphError → PlanSimulationError
  capacity_evidence : CapacityEvidenceError → PlanSimulationError
  action : ActionId → ActionSimulationError → PlanSimulationError
  contract_mismatch : ActionId → PlanSimulationError

-- An error of a replay, or the panic of `ordered_actions`.
pub data ReplayHalt : Type 0 where
  failed : PlanSimulationError → ReplayHalt
  panicked : ReplayHalt

abbrev pub map_err {ℓ ι κ} :
    {E : Type ℓ} {F : Type ι} {A : Type κ} → (E → F) → Result E A → Result F A
map_err f (ok a) = ok a
map_err f (err e) = err (f e)

abbrev pub is_error : Diagnostic → Bool
is_error d = elim d.severity [ DiagnosticSeverity.error ↦ true | _ ↦ false ]

-- `simulate_action`; the state comes back unchanged with an error.
unfoldable pub simulate_action :
    Provider
    → ProviderAction
    → Projection
    → Projection × Result ActionSimulationError SimulatedAction
simulate_action provider operation p =
    let diagnostics = provider.validate_provider_action operation p.desired.graph in
    let contract = provider.describe_action operation p.desired.graph in
    let checks = evaluate_prerequisites p.desired p.evidence contract.prerequisites in
    if any is_error diagnostics
    then (p, err (validation diagnostics))
    else if any (λ check. is_violated check.status) checks
    then (p, err (prerequisites_violated checks))
    else (let (next, outcome) =
          apply_effect_with_invalidations p contract.predicted_effect contract.invalidated_facts in
        elim outcome [
          | err e ↦ (next, err (effect e))
          | ok invalidated ↦ (
            record next { evidence = apply_outputs contract.provided_outputs next.evidence },
            ok (record { contract = contract; checks = checks; invalidated_facts = invalidated }),
          )
        ])

-- `ExecutionPlan::ordered_actions`
unfoldable pub select : List PlannedAction → List ActionId → Result ReplayHalt (List PlannedAction)
select actions [] = ok []
select actions (id ∷ ids) = do
  planned ← ok_or (get_elem? actions id) panicked
  rest ← select actions ids
  ok (planned ∷ rest)

unfoldable pub ordered_actions : ExecutionPlan → Result ReplayHalt (List PlannedAction)
ordered_actions plan =
    map_err (λ _. panicked) (topological_order (length plan.actions) plan.dependencies)
    >>= select plan.actions

pub record Replayed : Type 0 where
  pub projection : Projection
  pub actions : List PlannedAction
  pub steps : List SimulatedStep

-- The body of the loop over the ordered actions.
unfoldable pub replay_action :
    Provider → PlannedAction → Replayed → Result PlanSimulationError Replayed
replay_action provider planned r =
    require
      (provider.accepts_contract planned.operation planned.informational_contract
        r.projection.desired.graph)
      (contract_mismatch planned.id)
    >> (let (next, outcome) = simulate_action provider planned.operation r.projection in
        map_err (action planned.id) outcome >>= λ simulated. ok (record {
          projection = next;
          actions =
              r.actions ++ record planned { informational_contract = simulated.contract } ∷ [];
          steps =
              r.steps
              ++ record {
                action = planned.id;
                checks = simulated.checks;
                invalidated_facts = simulated.invalidated_facts;
              }
                ∷ [];
        }))

unfoldable pub replay_actions :
    Provider → List PlannedAction → Replayed → Result PlanSimulationError Replayed
replay_actions provider [] r = ok r
replay_actions provider (planned ∷ actions) r =
    replay_action provider planned r >>= replay_actions provider actions

-- `sort_by_key(|action| action.id)`, which is stable.
abbrev pub insert_action : PlannedAction → List PlannedAction → List PlannedAction
insert_action a [] = a ∷ []
insert_action a (b ∷ bs) =
    let rest = insert_action a bs in if leb a.id b.id then a ∷ b ∷ bs else b ∷ rest

abbrev pub sort_actions : List PlannedAction → List PlannedAction
sort_actions [] = []
sort_actions (a ∷ rest) = insert_action a (sort_actions rest)

unfoldable pub replay_plan :
    Provider
    → CurrentState
    → ExecutionPlan
    → List CapacityEvidence
    → Result ReplayHalt (ExecutionPlan × SimulationResult)
replay_plan provider current plan capacity = do
  map_err (λ e. failed (structure e)) (validate_structure current.graph)
  evidence ← map_err (λ e. failed (capacity_evidence e)) (new_evidence capacity)
  ordered ← ordered_actions plan
  r ← map_err failed (
      replay_actions provider ordered (record {
        projection = record { desired = from_current current; evidence = evidence };
        actions = [];
        steps = [];
      }))
  ok (
    record { actions = sort_actions r.actions; dependencies = plan.dependencies },
    record {
      desired = r.projection.desired;
      evidence = summary r.projection.evidence;
      steps = r.steps;
    },
  )
