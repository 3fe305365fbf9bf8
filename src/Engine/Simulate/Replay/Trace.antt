-- ===== src/Engine/Simulate/Replay/Trace.antt =====
-- storage-engine/src/simulate.rs: the trace that a replay leaves.
use pdisks.Base.{
  ◌≡◌, refl, sym, ap, ◌∙◌, List, [], ◌∷◌, ◌++◌, map, Bool, true, false, not, ok, arith, all, any,
  append_nil, append_single, &&-of-true, >>=-eq-ok,
}
use pdisks.Provider.Contract.{ActionPrerequisite}
use pdisks.Provider.Action.{ProviderAction}
use pdisks.Engine.Plan.{ActionId, PlannedAction}
use pdisks.Engine.Simulate.Data.{PrerequisiteCheck, is_violated}
use pdisks.Engine.Simulate.Checks.{evaluate_prerequisites}
use pdisks.Engine.Simulate.Effects.{Projection}
use pdisks.Engine.Simulate.Replay.{Provider, Replayed, SimulatedStep, replay_action, replay_actions}
use pdisks.Engine.Simulate.Soundness.{contract_of, replay_action-Round, simulate_action-Admitted}

abbrev pub ids : List PlannedAction → List ActionId
ids actions = map (λ a. a.id) actions

abbrev pub operations : List PlannedAction → List ProviderAction
operations actions = map (λ a. a.operation) actions

-- The conditions that the checks of a step, or of each step, are about.
abbrev pub conditions : List PrerequisiteCheck → List ActionPrerequisite
conditions checks = map (λ check. check.prerequisite) checks

abbrev pub none_violated : List SimulatedStep → Bool
none_violated steps = all (λ step. all (λ check. not (is_violated check.status)) step.checks) steps

-- What a replay appends to its actions and its steps, for the actions of the plan that it takes.
record Appends (planned : List PlannedAction) (r r' : Replayed) : Type 0 where
  actions : List PlannedAction
  steps : List SimulatedStep
  actions_eq : r'.actions ≡ r.actions ++ actions
  steps_eq : r'.steps ≡ r.steps ++ steps
  same_ids : ids actions ≡ ids planned
  step_ids : map (λ step. step.action) steps ≡ ids planned
  same_operations : operations actions ≡ operations planned
  checked :
      map (λ step. conditions step.checks) steps
      ≡ map (λ a. a.informational_contract.prerequisites) actions
  unviolated : none_violated steps ≡ true

not_violated :
    (checks : List PrerequisiteCheck)
    → any (λ check. is_violated check.status) checks ≡ false
    → all (λ check. not (is_violated check.status)) checks ≡ true
not_violated [] h = refl
not_violated (check ∷ checks) h = ground (arith, not_violated checks)

conditions-evaluate :
    (p : Projection) (xs : List ActionPrerequisite)
    → conditions (evaluate_prerequisites p.desired p.evidence xs) ≡ xs
unfolding evaluate_prerequisites
conditions-evaluate p [] = refl
conditions-evaluate p (x ∷ xs) = ap (λ l. x ∷ l) (conditions-evaluate p xs)

replay-Appends :
    (provider : Provider) (planned : List PlannedAction) (r r' : Replayed)
    → replay_actions provider planned r ≡ ok r'
    → Appends planned r r'
unfolding replay_actions
replay-Appends provider [] r r' h = record {
  actions = [];
  steps = [];
  actions_eq = ground (arith, append_nil r.actions);
  steps_eq = ground (arith, append_nil r.steps);
  same_ids = refl;
  step_ids = refl;
  same_operations = refl;
  checked = refl;
  unviolated = refl;
}
replay-Appends provider (a ∷ planned) r r' h =
    let (mid, first, rest) = >>=-eq-ok (replay_action provider a r) _ h in
    let round = replay_action-Round provider a r mid first in
    let s = round.simulated in
    let admitted =
      simulate_action-Admitted provider a.operation r.projection mid.projection s round.success in
    let exact : conditions s.checks ≡ s.contract.prerequisites =
      ap conditions admitted.checks
      ∙ conditions-evaluate r.projection
          (contract_of provider a.operation r.projection).prerequisites
      ∙ sym (ap (λ c. c.prerequisites) admitted.contract) in
    let later = replay-Appends provider planned mid r' rest in
    let action : PlannedAction = record a { informational_contract = s.contract } in
    let step : SimulatedStep = record {
      action = a.id;
      checks = s.checks;
      invalidated_facts = s.invalidated_facts;
    } in
    record {
      actions = action ∷ later.actions;
      steps = step ∷ later.steps;
      actions_eq =
          later.actions_eq
          ∙ ap (λ x. x ++ later.actions) round.actions
          ∙ append_single r.actions action later.actions;
      steps_eq =
          later.steps_eq
          ∙ ap (λ x. x ++ later.steps) round.steps
          ∙ append_single r.steps step later.steps;
      same_ids = ap (λ x. a.id ∷ x) later.same_ids;
      step_ids = ap (λ x. a.id ∷ x) later.step_ids;
      same_operations = ap (λ x. a.operation ∷ x) later.same_operations;
      checked = λ i. exact i ∷ later.checked i;
      unviolated = &&-of-true _ _ (not_violated s.checks admitted.no_violation) later.unviolated;
    }

pub replay_actions_trace :
    (provider : Provider) (planned : List PlannedAction) (r r' : Replayed)
    → r.actions ≡ []
    → r.steps ≡ []
    → replay_actions provider planned r ≡ ok r'
    → (ids r'.actions ≡ ids planned)
      × (operations r'.actions ≡ operations planned)
      × (map (λ step. step.action) r'.steps ≡ ids planned)
      × (map (λ step. conditions step.checks) r'.steps
          ≡ map (λ a. a.informational_contract.prerequisites) r'.actions)
      × (none_violated r'.steps ≡ true)
replay_actions_trace provider planned r r' a s h =
    let t = replay-Appends provider planned r r' h in
    let as_made : r'.actions ≡ t.actions = t.actions_eq ∙ ap (λ x. x ++ t.actions) a in
    let steps_made : r'.steps ≡ t.steps = t.steps_eq ∙ ap (λ x. x ++ t.steps) s in
    rw (as_made, steps_made) (t.same_ids, t.same_operations, t.step_ids, t.checked, t.unviolated)
