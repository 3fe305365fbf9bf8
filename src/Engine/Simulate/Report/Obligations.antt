-- ===== src/Engine/Simulate/Report/Obligations.antt =====
-- storage-engine/src/simulate.rs: the obligations of a report, and what its tests leave.
use pdisks.Base.{◌≡◌, refl, List, [], ◌∷◌, ◌++◌, Bool, true, false, ◌&&◌, arith, all, &&-of-true}
use pdisks.Core.State.{DesiredState}
use pdisks.Provider.Contract.{ActionPrerequisite}
use pdisks.Engine.Plan.{ActionId}
use pdisks.Engine.Run.Defs.{GoalAspect}
use pdisks.Engine.Simulate.Data.{CheckStatus, PrerequisiteCheck, satisfied, unknown, violated}
use pdisks.Engine.Simulate.Goal.{GoalCheck, GoalStatus, compare_goal}
use pdisks.Engine.Simulate.Protect.{ProtectionViolation, is_empty}
use pdisks.Engine.Simulate.Replay.{SimulatedStep, SimulationResult}
use pdisks.Engine.Simulate.Report.{
  IntentCoverage, SimulationObligation, analysis, check_obligations, goal_obligations, is_complete,
  is_met, note_check, note_goal, step_obligations, with_goal,
}

abbrev pub is_known : CheckStatus → Bool
is_known (unknown _) = false
is_known _ = true

nil_of_empty {ℓ} : {A : Type ℓ} (xs : List A) → is_empty xs ≡ true → xs ≡ []
nil_of_empty [] h = refl
nil_of_empty (x ∷ xs) h = absurd (ground arith)

append_not_nil {ℓ} : {A : Type ℓ} (xs : List A) (x : A) → xs ++ x ∷ [] ≡ [] → ⊥
append_not_nil [] x h = cc
append_not_nil (y ∷ xs) x h = cc

note_check-nil :
    (id : ActionId) (condition : ActionPrerequisite) (s : CheckStatus)
    (found : List SimulationObligation)
    → note_check id condition s found ≡ []
    → (found ≡ []) × (is_known s ≡ true)
note_check-nil id condition (satisfied _) found h = (h, refl)
note_check-nil id condition (violated _) found h = (h, refl)
note_check-nil id condition (unknown _) found h = absurd (append_not_nil found _ h)

note_goal-nil :
    (aspect : GoalAspect) (s : GoalStatus) (found : List SimulationObligation)
    → note_goal aspect s found ≡ []
    → found ≡ []
note_goal-nil aspect GoalStatus.satisfied found h = h
note_goal-nil aspect (GoalStatus.violated _) found h = h
note_goal-nil aspect (GoalStatus.unknown _) found h = absurd (append_not_nil found _ h)

-- Obligations are never taken back.
check_obligations-nil :
    (id : ActionId) (checks : List PrerequisiteCheck) (found : List SimulationObligation)
    → check_obligations id checks found ≡ []
    → (found ≡ []) × (all (λ check. is_known check.status) checks ≡ true)
unfolding check_obligations
check_obligations-nil id [] found h = (h, refl)
check_obligations-nil id (check ∷ checks) found h =
    let (before, rest) = check_obligations-nil id checks _ h in
    let (none_yet, known) = note_check-nil id check.prerequisite check.status found before in
    (none_yet, &&-of-true _ _ known rest)

step_obligations-nil :
    (steps : List SimulatedStep) (found : List SimulationObligation)
    → step_obligations steps found ≡ []
    → (found ≡ []) × (all (λ step. all (λ check. is_known check.status) step.checks) steps ≡ true)
unfolding step_obligations
step_obligations-nil [] found h = (h, refl)
step_obligations-nil (step ∷ steps) found h =
    let (before, rest) = step_obligations-nil steps _ h in
    let (none_yet, known) = check_obligations-nil step.action step.checks found before in
    (none_yet, &&-of-true _ _ known rest)

goal_obligations-nil :
    (checks : List GoalCheck) (found : List SimulationObligation)
    → goal_obligations checks found ≡ []
    → found ≡ []
unfolding goal_obligations
goal_obligations-nil [] found h = h
goal_obligations-nil (check ∷ checks) found h =
    note_goal-nil check.aspect check.status found (goal_obligations-nil checks _ h)

four_tests :
    (a b c d : Bool) → (a && b && c && d) ≡ true → (a ≡ true) × (b ≡ true) × (c ≡ true) × (d ≡ true)
four_tests true true true true h = (refl, refl, refl, refl)
four_tests false b c d h = absurd (ground arith)
four_tests true false c d h = absurd (ground arith)
four_tests true true false d h = absurd (ground arith)
four_tests true true true false h = absurd (ground arith)

-- What the tests of a complete report leave: no unknown check, no violation, and goal checks that are
-- all met.
pub complete_parts :
    (simulation : SimulationResult) (coverage : List IntentCoverage)
    (violations : List ProtectionViolation) (requested : DesiredState)
    → is_complete (with_goal requested (analysis simulation coverage violations)) ≡ true
    → (all (λ step. all (λ check. is_known check.status) step.checks) simulation.steps ≡ true)
      × (violations ≡ [])
      × (all
            (λ check. is_met check.status)
            (compare_goal simulation.desired simulation.evidence requested)
          ≡ true)
unfolding is_complete with_goal analysis
complete_parts simulation coverage violations requested h =
    let checks = compare_goal simulation.desired simulation.evidence requested in
    let open_ones = goal_obligations checks (step_obligations simulation.steps []) in
    let (a, b, c, d) =
      four_tests (is_empty violations) (is_empty open_ones)
        (all (λ check. is_met check.status) checks) (all (λ x. x.covered) coverage) h in
    let settled = goal_obligations-nil checks _ (nil_of_empty open_ones b) in
    ((step_obligations-nil simulation.steps [] settled).1, nil_of_empty violations a, c)
