-- ===== src/Engine/Run/Views.antt =====
-- storage-engine/src/execution.rs: what a client reads of a run.
use pdisks.Base.{
  ℕ, ◌-◌, List, [], ◌∷◌, Bool, true, false, ◌||◌, none, some, Result, ok, err, ltb, nat_beq, filter,
  any, u64_max, if◌then◌else◌,
}
use mathlib.Core.Option
use pdisks.Engine.Plan.{PlannedAction}
use pdisks.Engine.Run.Defs.{
  is_stopped, ActionRun, ActionStatus, EventsPage, ExecutionRun, ExecutionRunError,
  invalid_event_cursor, RunEvent, RunSnapshot,
}
use pdisks.Engine.Run.Methods.{report_succeeds}

unfoldable pub is_verified : ExecutionRun → Bool
is_verified s = elim s.goal_verification [ none ↦ false | some report ↦ report_succeeds report ]

unfoldable pub events_since : ℕ → ExecutionRun → List RunEvent
events_since sequence s = filter (λ event. ltb sequence event.sequence) s.events

-- `events.front().is_some_and(|first| since < first.sequence - 1)`
abbrev pub has_gap : ℕ → List RunEvent → Bool
has_gap since [] = false
has_gap since (first ∷ _) = ltb since (first.sequence - 1)

unfoldable pub events_page : ℕ → ExecutionRun → Result ExecutionRunError EventsPage
unfolding events_since
events_page since s =
    let latest = s.next_event_sequence - 1 in
    if ltb latest since
    then err (invalid_event_cursor since latest)
    else ok (record {
      events = events_since since s;
      next_sequence = latest;
      gap = has_gap since s.events;
    })

action_status : PlannedAction → ActionRun → ActionStatus
action_status planned run = record {
  action = planned.id;
  state = run.state;
  applicability = Option.map (λ report. report.applicability) run.admission;
  admission_observation = Option.map (λ report. report.observation.reference) run.admission;
  completion_observation = Option.map (λ c. c.observation.reference) run.completion;
  prerequisites = elim run.admission [ none ↦ [] | some report ↦ report.checks ];
  outcome = Option.map (λ c. c.outcome) run.completion;
  postconditions = Option.map (λ report. report.checks) run.verification;
  pre_dispatch_failure = run.pre_dispatch_failure;
  unknown_reason = run.unknown_reason;
}

-- The plan's actions zipped with their records.
action_statuses : List PlannedAction → List ActionRun → List ActionStatus
action_statuses [] _ = []
action_statuses (planned ∷ more) [] = []
action_statuses (planned ∷ more) (run ∷ runs) =
    action_status planned run ∷ action_statuses more runs

unfoldable pub snapshot : ExecutionRun → RunSnapshot
unfolding is_verified action_statuses action_status
snapshot s = record {
  run_id = s.run_id;
  plan_id = s.plan_id;
  actions = action_statuses s.plan.actions s.actions;
  finished =
      elim s.goal_verification [ none ↦ false | some _ ↦ true ]
      || nat_beq s.next_event_sequence u64_max
      || any (λ run. is_stopped run.state) s.actions;
  verified = is_verified s;
  event_sequence = s.next_event_sequence - 1;
  observation = s.latest_observation;
  goal_verification = s.goal_verification;
}
