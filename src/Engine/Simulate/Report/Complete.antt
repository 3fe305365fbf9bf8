-- ===== src/Engine/Simulate/Report/Complete.antt =====
-- storage-engine/src/simulate.rs: what a complete report says.
use mathlib.Core.List.{Memᴰ}
use pdisks.Base.{
  ◌≡◌, refl, List, [], ◌∷◌, Bool, true, false, not, ok, arith, all, &&-eq-true, &&-of-true,
}
use pdisks.Core.Node.{NodeId}
use pdisks.Core.State.{DesiredState}
use pdisks.Engine.Plan.{PlannedAction}
use pdisks.Engine.Simulate.Data.{
  CheckStatus, PrerequisiteCheck, is_violated, satisfied, unknown, violated,
}
use pdisks.Engine.Simulate.Evidence.{summary}
use pdisks.Engine.Simulate.Effects.Untouched.{IsUntouched}
use pdisks.Engine.Simulate.Protect.{ProtectedMount, ProtectedScope, check_steps}
use pdisks.Engine.Simulate.Protect.Laws.{check_steps-Untouched, check_steps-near}
use pdisks.Engine.Simulate.Protect.Mounts.{mounts_near}
use pdisks.Engine.Simulate.Replay.{
  Provider, Replayed, SimulatedStep, SimulationResult, replay_actions,
}
use pdisks.Engine.Simulate.Replay.Trace.{none_violated, replay_actions_trace}
use pdisks.Engine.Simulate.Report.{IntentCoverage, analysis, is_complete, with_goal}
use pdisks.Engine.Simulate.Soundness.{IsSound, replay_actions-Sound}
use pdisks.Engine.Simulate.Report.Obligations.{complete_parts, is_known}
use pdisks.Engine.Simulate.Report.Achieved.{Achieves, met-Achieves}

-- A check that is known and not violated is satisfied.
abbrev pub is_satisfied : CheckStatus → Bool
is_satisfied (satisfied _) = true
is_satisfied _ = false

is_satisfied_lem :
    (s : CheckStatus) → is_known s ≡ true → not (is_violated s) ≡ true → is_satisfied s ≡ true
is_satisfied_lem (satisfied _) k v = refl
is_satisfied_lem (violated _) k v = absurd (ground arith)
is_satisfied_lem (unknown _) k v = absurd (ground arith)

checks_satisfied :
    (checks : List PrerequisiteCheck)
    → all (λ check. is_known check.status) checks ≡ true
    → all (λ check. not (is_violated check.status)) checks ≡ true
    → all (λ check. is_satisfied check.status) checks ≡ true
checks_satisfied [] k v = refl
checks_satisfied (check ∷ checks) k v =
    let (k1, k2) = &&-eq-true _ _ k in
    let (v1, v2) = &&-eq-true _ _ v in
    &&-of-true _ _ (is_satisfied_lem check.status k1 v1) (checks_satisfied checks k2 v2)

steps_satisfied :
    (steps : List SimulatedStep)
    → all (λ step. all (λ check. is_known check.status) step.checks) steps ≡ true
    → none_violated steps ≡ true
    → all (λ step. all (λ check. is_satisfied check.status) step.checks) steps ≡ true
steps_satisfied [] k v = refl
steps_satisfied (step ∷ steps) k v =
    let (k1, k2) = &&-eq-true _ _ k in
    let (v1, v2) = &&-eq-true _ _ v in
    &&-of-true _ _ (checks_satisfied step.checks k1 v1) (steps_satisfied steps k2 v2)

-- The result that a replay reports.
abbrev pub result_of : Replayed → SimulationResult
result_of r = record {
  desired = r.projection.desired;
  evidence = summary r.projection.evidence;
  steps = r.steps;
}

-- When the report of a replay from a sound beginning is complete, with the violations of a protected
-- scope that are found on the recalculated contracts, then each check of each step is satisfied, each
-- protected node keeps its value and its edges, the runtime mounts near each protected mount stay as
-- they are, and the predicted configuration has the requested graph, runtime mounts and persistent
-- entries.
pub complete_report :
    (provider : Provider) (protected : ProtectedScope) (planned : List PlannedAction)
    (r r' : Replayed) (coverage : List IntentCoverage) (requested : DesiredState)
    → r.actions ≡ []
    → r.steps ≡ []
    → IsSound r.projection
    → replay_actions provider planned r ≡ ok r'
    → is_complete (
        with_goal requested
          (analysis (result_of r') coverage (check_steps protected r'.actions r'.steps [])))
      ≡ true
    → (all (λ step. all (λ check. is_satisfied check.status) step.checks) r'.steps ≡ true)
      × ((n : NodeId)
          → Memᴰ n protected.nodes
          → IsUntouched n r.projection.desired.graph r'.projection.desired.graph)
      × ((mount : ProtectedMount)
          → Memᴰ mount protected.runtime_mounts
          → mounts_near mount r'.projection.desired.mounts.runtime
            ≡ mounts_near mount r.projection.desired.mounts.runtime)
      × Achieves r'.projection.desired requested
complete_report provider protected planned r r' coverage requested a s w h k =
    let (known, clean, met) = complete_parts (result_of r') coverage _ requested k in
    let (_, _, _, _, unviolated) = replay_actions_trace provider planned r r' a s h in
    let sound = replay_actions-Sound provider planned r r' h w in
    (
      steps_satisfied r'.steps known unviolated,
      (λ n m. check_steps-Untouched provider protected n m planned r r' a s h clean),
      (λ mount m. check_steps-near provider protected mount m planned r r' a s h clean),
      met-Achieves r'.projection.desired (summary r'.projection.evidence) requested sound.set_like
          met,
    )
