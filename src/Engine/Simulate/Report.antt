-- ===== src/Engine/Simulate/Report.antt =====
-- storage-engine/src/simulate.rs: the report of a simulation and the obligations that it leaves.
pub mod Obligations
pub mod Achieved
pub mod Complete
use Prim.Native.String.{String}
use mathlib.Core.List.{Memᴰ}
use mathlib.Core.List.Memᴰ
use pdisks.Base.{
  ℕ, ◌≡◌, inl, inr, refl, List, [], ◌∷◌, ◌++◌, Bool, true, false, ◌&&◌, arith, all, all-mem,
  &&-eq-true, any,
}
use pdisks.Core.State.{DesiredState}
use pdisks.Provider.Contract.{ActionPrerequisite}
use pdisks.Engine.Plan.{ActionId}
use pdisks.Engine.Run.Defs.{GoalAspect}
use pdisks.Engine.Simulate.Data.{CheckStatus, PrerequisiteCheck, unknown}
use pdisks.Engine.Simulate.Goal.{GoalCheck, GoalStatus, compare_goal}
use pdisks.Engine.Simulate.Protect.{ProtectionViolation, is_empty}
use pdisks.Engine.Simulate.Replay.{SimulatedStep, SimulationResult}

pub record IntentCoverage : Type 0 where
  pub index : ℕ
  pub actions : List ActionId
  pub covered : Bool

pub data SimulationObligation : Type 0 where
  prerequisite :
      (action : ActionId) → ActionPrerequisite → (required_evidence : String) → SimulationObligation
  goal : GoalAspect → (required_evidence : String) → SimulationObligation

pub record SimulationReport : Type 0 where
  pub simulation : SimulationResult
  pub goal_checks : List GoalCheck
  pub intent_coverage : List IntentCoverage
  pub unresolved_obligations : List SimulationObligation
  pub protection_violations : List ProtectionViolation

abbrev pub is_met : GoalStatus → Bool
is_met GoalStatus.satisfied = true
is_met _ = false

unfoldable pub is_complete : SimulationReport → Bool
is_complete report =
    is_empty report.protection_violations
    && is_empty report.unresolved_obligations
    && all (λ check. is_met check.status) report.goal_checks
    && all (λ coverage. coverage.covered) report.intent_coverage

-- The `if let` of the loop over the checks of a step.
abbrev pub note_check :
    ActionId
    → ActionPrerequisite
    → CheckStatus
    → List SimulationObligation
    → List SimulationObligation
note_check id condition (unknown required) found = found ++ prerequisite id condition required ∷ []
note_check id condition _ found = found

-- The `if let` of the loop over the checks of the goal.
abbrev pub note_goal :
    GoalAspect → GoalStatus → List SimulationObligation → List SimulationObligation
note_goal aspect (GoalStatus.unknown required) found = found ++ goal aspect required ∷ []
note_goal aspect _ found = found

-- The loop over the checks of one step, from the obligations found.
unfoldable pub check_obligations :
    ActionId → List PrerequisiteCheck → List SimulationObligation → List SimulationObligation
check_obligations id [] found = found
check_obligations id (check ∷ checks) found =
    check_obligations id checks (note_check id check.prerequisite check.status found)

unfoldable pub step_obligations :
    List SimulatedStep → List SimulationObligation → List SimulationObligation
unfolding check_obligations
step_obligations [] found = found
step_obligations (step ∷ steps) found =
    step_obligations steps (check_obligations step.action step.checks found)

-- The loop over the checks of the goal.
unfoldable pub goal_obligations :
    List GoalCheck → List SimulationObligation → List SimulationObligation
goal_obligations [] found = found
goal_obligations (check ∷ checks) found =
    goal_obligations checks (note_goal check.aspect check.status found)

-- `analyse_plan` behind its three results: the simulation, the coverage and the violations.
unfoldable pub analysis :
    SimulationResult → List IntentCoverage → List ProtectionViolation → SimulationReport
unfolding step_obligations
analysis simulation coverage violations = record {
  simulation = simulation;
  goal_checks = [];
  intent_coverage = coverage;
  unresolved_obligations = step_obligations simulation.steps [];
  protection_violations = violations;
}

-- `simulate_plan_for_goal_with_policy` behind its analysis.
unfoldable pub with_goal : DesiredState → SimulationReport → SimulationReport
unfolding goal_obligations compare_goal
with_goal requested report =
    let checks = compare_goal report.simulation.desired report.simulation.evidence requested in
    record report {
      goal_checks = checks;
      unresolved_obligations = goal_obligations checks report.unresolved_obligations;
    }
