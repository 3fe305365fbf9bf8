-- ===== src/Engine/Run/Methods.antt =====
-- storage-engine/src/execution.rs: the methods of `ExecutionRun` that change it.
use Prim.Native.String.{String, len}
use pdisks.Base.{
  ℕ, ◌+◌, List, [], ◌∷◌, ◌++◌, Bool, false, not, ◌&&◌, ◌||◌, Option, none, some, ok, err, ◌==◌,
  nat_eq, any, all, length, get_elem?, set, leb, nat_beq, checked_add, if◌then◌else◌,
}
use mathlib.Core.List.{tail}
use pdisks.Core.Block.{Uuid, is_nil}
use pdisks.Provider.Contract.{
  ActionContract, ResourceAccess, write, resource_eq, mode_eq, prerequisite_eq, postcondition_eq,
}
use pdisks.Engine.Plan.{ActionId, ActionDependency, PlannedAction, ExecutionPlan}
use pdisks.Engine.Live.{LiveObservation, ObservationReference, validate}
use pdisks.Engine.Run.Defs.{
  max_run_events, max_progress_bytes, ActionRunState, waiting, checking, admitted, running,
  verifying, verified, failed, outcome_unknown, same_state, is_stopped, is_active, is_satisfied,
  aspect_eq, GoalAspect, AdmissionReport, BackendOutcome, succeeded, failed_with, unknown_outcome,
  BackendCompletion, VerificationReport, GoalVerificationReport, RunEvent, RunEventKind,
  action_state, progress, admission, goal_verification, ActionRun, ExecutionRun, unknown_action,
  invalid_transition, predecessor_not_verified, active_action, run_stopped, report_mismatch,
  incomplete_checks, missing_resources, stale_observation, invalid_observation,
  actions_not_verified, event_sequence_exhausted, progress_too_large,
}
use pdisks.Engine.Run.Evidence.{statuses, checks_cover, evidence_state}
use pdisks.Engine.Run.Monad.{M, ◌>>=◌, ◌>>◌, pure, throw, get, modify, guard, index, found}

abbrev pub fresh_action : ActionRun
fresh_action = record {
  state = waiting;
  admission = none;
  completion = none;
  verification = none;
  pre_dispatch_failure = none;
  unknown_reason = none;
}

abbrev pub fresh_actions : List PlannedAction → List ActionRun
fresh_actions [] = []
fresh_actions (_ ∷ rest) = fresh_action ∷ fresh_actions rest

-- `ExecutionRun::new` behind the analysis of its document, which gives the plan and the goal
-- aspects; the UUID is the fresh one.
unfoldable pub new : (run_id plan_id : Uuid) → ExecutionPlan → List GoalAspect → ExecutionRun
new run_id plan_id plan goal_aspects = record {
  run_id = run_id;
  plan_id = plan_id;
  plan = plan;
  actions = fresh_actions plan.actions;
  latest_observation = none;
  goal_aspects = goal_aspects;
  goal_verification = none;
  events = [];
  next_event_sequence = 1;
}

-- `action`
pub lookup_action : ActionId → M ActionRun
lookup_action action s = found (get_elem? s.actions action) (unknown_action action) s

unfoldable pub require_state : ActionId → ActionRunState → M (Unit {0})
unfolding lookup_action
require_state action expected = do
  run ← lookup_action action
  guard (same_state run.state expected) (invalid_transition action run.state)

unfoldable pub check_report_identity : Uuid → M (Unit {0})
check_report_identity run_id s = guard (run_id == s.run_id) report_mismatch s

-- The latest observation is of another probe service, or not older.
abbrev pub outdated : Option LiveObservation → ObservationReference → Bool
outdated none reference = false
outdated (some latest) reference =
    not (latest.reference.probe_instance == reference.probe_instance)
    || leb reference.epoch latest.reference.epoch

unfoldable pub check_fresh_observation : LiveObservation → M (Unit {0})
check_fresh_observation observation s =
    if is_nil observation.reference.probe_instance
      || outdated s.latest_observation observation.reference
    then throw stale_observation s
    else elim (validate observation) [ ok _ ↦ (s, ok tt) | err e ↦ throw (invalid_observation e) s ]

unfoldable pub ensure_event_capacity : ℕ → M (Unit {0})
ensure_event_capacity count s = elim (checked_add s.next_event_sequence count) [
  | none ↦ throw event_sequence_exhausted s
  | some _ ↦ (s, ok tt)
]

unfoldable pub append_event : RunEventKind → ExecutionRun → ExecutionRun
append_event kind s =
    let kept = if nat_beq (length s.events) max_run_events then tail s.events else s.events in
    let event : RunEvent = record {
      run_id = s.run_id;
      sequence = s.next_event_sequence;
      kind = kind;
    } in
    record s { events = kept ++ event ∷ []; next_event_sequence = s.next_event_sequence + 1 }

unfoldable pub push_event : RunEventKind → M (Unit {0})
unfolding ensure_event_capacity append_event
push_event kind = do ensure_event_capacity 1; modify (append_event kind)

-- `self.actions[action].field = ...`
unfoldable pub update_action : ActionId → (ActionRun → ActionRun) → M (Unit {0})
update_action action f s =
    (index (get_elem? s.actions action) >>= λ run.
    modify (λ t. record t { actions = set t.actions action (f run) }))
      s

unfoldable pub set_state : ActionId → ActionRunState → M (Unit {0})
unfolding ensure_event_capacity update_action push_event
set_state action state = do
  ensure_event_capacity 1
  update_action action (λ run. record run { state = state })
  push_event (action_state action state)

-- `self.plan.actions()[action].informational_contract`
unfoldable pub contract_of : ActionId → M ActionContract
contract_of action s =
    (index (get_elem? s.plan.actions action) >>= λ planned. pure planned.informational_contract) s

-- The loop over the dependencies that end at the action.
unfoldable pub check_predecessors : ActionId → List ActionDependency → M (Unit {0})
unfolding lookup_action
check_predecessors action [] = pure tt
check_predecessors action (edge ∷ edges) =
    let rest = check_predecessors action edges in
    if edge.after == action
    then (lookup_action edge.before >>= λ run.
        guard (same_state run.state verified) (predecessor_not_verified action edge.before) >> rest)
    else rest

unfoldable pub begin_check : ActionId → M (Unit {0})
unfolding require_state check_predecessors set_state
begin_check action = do
  require_state action waiting
  s ← get
  guard (not (any (λ run. is_stopped run.state) s.actions)) run_stopped
  check_predecessors action s.plan.dependencies
  guard (not (any (λ run. is_active run.state) s.actions)) active_action
  set_state action checking

-- Each required resource is held in its mode, or for writing.
unfoldable pub resources_held : (required held : List ResourceAccess) → Bool
resources_held required held = not (
    any
      (λ need. not (
        any
          (λ have. have.resource == need.resource && (have.mode == write || have.mode == need.mode))
          held))
      required)

-- `record_admission` up to its first write: the state that the evidence gives.
unfoldable pub admission_state : AdmissionReport → M ActionRunState
unfolding require_state check_report_identity check_fresh_observation contract_of
    ensure_event_capacity
admission_state report = do
  require_state report.action checking
  check_report_identity report.run_id
  check_fresh_observation report.observation
  contract ← contract_of report.action
  guard (checks_cover contract.prerequisites report.checks) incomplete_checks
  guard (resources_held contract.affected_resources report.held_resources) missing_resources
  let state = evidence_state (report.applicability ∷ statuses report.checks) admitted checking
  ensure_event_capacity (if same_state state checking then 1 else 2)
  pure state

-- The writes of `record_admission`.
unfoldable pub publish_admission : AdmissionReport → ActionRunState → M Bool
unfolding update_action push_event set_state
publish_admission report state = do
  modify (λ s. record s { latest_observation = some report.observation })
  update_action report.action (λ run. record run { admission = some report })
  push_event (admission report.action (same_state state admitted))
  if same_state state checking then pure tt else set_state report.action state
  pure (same_state state admitted)

unfoldable pub record_admission : AdmissionReport → M Bool
record_admission report = do state ← admission_state report; publish_admission report state

unfoldable pub mark_dispatch_started : ActionId → M (Unit {0})
unfolding require_state set_state
mark_dispatch_started action = do require_state action admitted; set_state action running

unfoldable pub mark_pre_dispatch_failed : ActionId → String → M (Unit {0})
unfolding require_state ensure_event_capacity
mark_pre_dispatch_failed action reason = do
  require_state action admitted
  ensure_event_capacity 1
  update_action action (λ run. record run { pre_dispatch_failure = some reason })
  set_state action failed

abbrev pub outcome_state : BackendOutcome → ActionRunState
outcome_state succeeded = verifying
outcome_state (failed_with _) = failed
outcome_state (unknown_outcome _) = outcome_unknown

unfoldable pub record_completion : BackendCompletion → M (Unit {0})
unfolding require_state check_report_identity check_fresh_observation ensure_event_capacity
record_completion completion = do
  require_state completion.action running
  check_report_identity completion.run_id
  check_fresh_observation completion.observation
  ensure_event_capacity 1
  modify (λ s. record s { latest_observation = some completion.observation })
  update_action completion.action (λ run. record run { completion = some completion })
  set_state completion.action (outcome_state completion.outcome)

-- `completion.map(|c| c.observation.reference) != Some(reference)`, negated.
abbrev pub same_publication : Option BackendCompletion → ObservationReference → Bool
same_publication none reference = false
same_publication (some c) reference =
    c.observation.reference.probe_instance == reference.probe_instance
    && c.observation.reference.epoch == reference.epoch

-- `record_verification` up to its first write: the state that the evidence gives.
unfoldable pub verification_state : VerificationReport → M ActionRunState
unfolding require_state check_report_identity lookup_action contract_of ensure_event_capacity
verification_state report = do
  require_state report.action verifying
  check_report_identity report.run_id
  run ← lookup_action report.action
  guard (same_publication run.completion report.observation) report_mismatch
  contract ← contract_of report.action
  guard (checks_cover contract.postconditions report.checks) incomplete_checks
  let state = evidence_state (statuses report.checks) verified outcome_unknown
  ensure_event_capacity 1
  pure state

unfoldable pub record_verification : VerificationReport → M Bool
record_verification report = do
  state ← verification_state report
  update_action report.action (λ r. record r { verification = some report })
  set_state report.action state
  pure (same_state state verified)

unfoldable pub mark_outcome_unknown : ActionId → String → M (Unit {0})
unfolding lookup_action ensure_event_capacity
mark_outcome_unknown action reason = do
  run ← lookup_action action
  guard (same_state run.state running || same_state run.state verifying)
      (invalid_transition action run.state)
  ensure_event_capacity 1
  update_action action (λ r. record r { unknown_reason = some reason })
  set_state action outcome_unknown

unfoldable pub record_progress : ActionId → String → M (Unit {0})
unfolding require_state push_event
record_progress action detail = do
  require_state action running
  guard (leb (len detail) max_progress_bytes) progress_too_large
  push_event (progress action detail)

abbrev pub report_succeeds : GoalVerificationReport → Bool
report_succeeds report =
    is_satisfied report.preservation && all (λ check. is_satisfied check.status) report.checks

unfoldable pub record_goal_verification : GoalVerificationReport → M Bool
unfolding check_report_identity check_fresh_observation ensure_event_capacity push_event
record_goal_verification report = do
  s ← get
  guard (all (λ run. same_state run.state verified) s.actions) actions_not_verified
  check_report_identity report.run_id
  check_fresh_observation report.observation
  guard (checks_cover s.goal_aspects report.checks) incomplete_checks
  ensure_event_capacity 1
  modify (λ t. record t {
    latest_observation = some report.observation;
    goal_verification = some report;
  })
  push_event (goal_verification (report_succeeds report))
  pure (report_succeeds report)
