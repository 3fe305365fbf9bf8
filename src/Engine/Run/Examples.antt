-- ===== src/Engine/Run/Examples.antt =====
-- Tests of storage-engine/src/execution.rs on a plan of two actions, and the theorems at that run.
use mathlib.Core.List.{Memᴰ}
use native.Mathlib.Decide.{ℕ_discrete}
use pdisks.Base.{
  ◌≤◌, Unrepeated, ℕ, ◌+◌, ◌<◌, ◌≡◌, ◌↔◌, refl, List, [], ◌∷◌, ◌++◌, true, false, none, some, ok,
  err, arith, any, all, nat_eq,
}
use pdisks.Core.Graph.{new_graph}
use pdisks.Core.Graph.Order.{topological_order}
use pdisks.Core.Graph.Structure.{validate_structure}
use pdisks.Core.State.{SystemEnvironment}
use pdisks.Provider.Contract.{
  ActionPrerequisite-discrete, Postcondition-discrete, ActionResource-discrete,
  ResourceAccessMode-discrete, ActionContract, node_exists, node_reprobed, node, write,
  manual_recovery,
}
use pdisks.Provider.Action.{filesystem, check}
use pdisks.Provider.Fragment.{change, requested_order}
use pdisks.Engine.Plan.{ExecutionPlan, PlannedAction}
use pdisks.Engine.Live.{LiveObservation, validate}
use pdisks.Engine.Run.Defs.{
  ExecutionRun, AdmissionReport, BackendCompletion, VerificationReport, GoalVerificationReport,
  GoalAspect-discrete, LiveCheck, EventsPage, predecessor_not_verified, satisfied, unknown,
  succeeded, graph, waiting, checking, admitted, verified, failed, outcome_unknown, is_satisfied,
}
use pdisks.Engine.Run.Evidence.{checks_cover, conditions, evidence_state}
use pdisks.Engine.Run.Evidence.Laws.{is_violated, evidence_state_correct, checks_cover_iff}
use pdisks.Engine.Run.Monad.{error}
use pdisks.Engine.Run.Methods.{
  new, record_verification, verification_state, record_completion, mark_dispatch_started,
  record_admission, admission_state, publish_admission, begin_check, update_action, set_state,
  resources_held, mark_outcome_unknown, mark_pre_dispatch_failed, record_goal_verification,
}
use pdisks.Engine.Run.Views.{is_verified, events_page}
use pdisks.Engine.Run.Command.{
  Command, begin, admit, dispatch, fail_before_dispatch, complete, verify, lose_outcome,
  verify_goal, perform, perform_all, perform_atomic,
}
use pdisks.Engine.Run.Lifecycle.{state_at, Effect, perform-Effect}
use pdisks.Engine.Run.Invariant.{Inv, perform_all-Inv}
use pdisks.Engine.Run.Absorption.{perform_all-final, Stopped-starts_nothing, is_verified-verified}
use pdisks.Engine.Run.Events.{Numbered, RunLog, perform_all-Log}
use pdisks.Engine.Run.Paging.{events_page_correct}
use pdisks.Engine.Run.Backing.{AllBacked}
use pdisks.Engine.Run.Backing.Runs.{perform_all-AllBacked}
use pdisks.Engine.Run.Freshness.{Refreshed, perform-Refreshed, perform_all-keeps_epoch}

abbrev contract : ℕ → ActionContract
contract n = record {
  prerequisites = node_exists n ∷ [];
  provided_outputs = [];
  affected_resources = record { resource = node n; mode = write } ∷ [];
  predicted_effect = record { graph = []; mounts = []; allocations = [] };
  invalidated_facts = [];
  postconditions = node_reprobed n ∷ [];
  restart_policy = manual_recovery;
}

abbrev planned : ℕ → PlannedAction
planned id = record {
  id = id;
  operation = filesystem (check (id + 5) true);
  fragment = 0;
  local_id = id;
  origin = change (id + 5) "check";
  informational_contract = contract (id + 5);
}

-- Action 0 before action 1.
abbrev plan : ExecutionPlan
plan = record {
  actions = planned 0 ∷ planned 1 ∷ [];
  dependencies = record { before = 0; after = 1; reason = requested_order } ∷ [];
}

abbrev system : SystemEnvironment
system = record {
  os_release = none;
  architecture = none;
  kernel_release = none;
  tools = [];
  kernel_modules = [];
}

abbrev observation : ℕ → LiveObservation
observation epoch = record {
  reference = record { probe_instance = 9; epoch = epoch };
  snapshot = record {
    graph = new_graph;
    mounts = record { entries = [] };
    environment = record { host = system; target = none };
    diagnostics = [];
  };
}

abbrev admission_of : ℕ → ℕ → AdmissionReport
admission_of action epoch = record {
  run_id = 1;
  action = action;
  observation = observation epoch;
  applicability = satisfied;
  held_resources = (contract (action + 5)).affected_resources;
  checks = record { condition = node_exists (action + 5); status = satisfied } ∷ [];
}

abbrev completion_of : ℕ → ℕ → BackendCompletion
completion_of action epoch = record {
  run_id = 1;
  action = action;
  outcome = succeeded;
  observation = observation epoch;
}

abbrev verification_of : ℕ → ℕ → VerificationReport
verification_of action epoch = record {
  run_id = 1;
  action = action;
  observation = record { probe_instance = 9; epoch = epoch };
  checks = record { condition = node_reprobed (action + 5); status = satisfied } ∷ [];
}

abbrev goal_of : ℕ → GoalVerificationReport
goal_of epoch = record {
  run_id = 1;
  observation = observation epoch;
  checks = record { condition = graph; status = satisfied } ∷ [];
  preservation = satisfied;
}

abbrev start_run : ExecutionRun
start_run = new 1 2 plan (graph ∷ [])

abbrev verify_one : ℕ → ℕ → List Command
verify_one action epoch =
    begin action
    ∷ admit (admission_of action epoch)
    ∷ dispatch action
    ∷ complete (completion_of action (epoch + 1))
    ∷ verify (verification_of action (epoch + 1))
    ∷ []

first_verified : state_at (perform_all (verify_one 0 1) start_run) 0 ≡ some verified
unfolding perform_all new record_verification verification_state record_completion
    mark_dispatch_started record_admission admission_state publish_admission begin_check
    update_action set_state validate validate_structure topological_order checks_cover
    evidence_state ActionPrerequisite-discrete Postcondition-discrete ActionResource-discrete
    ResourceAccessMode-discrete ℕ_discrete resources_held
first_verified = refl

second_refused : (perform (begin 1) start_run).1 ≡ err (error (predecessor_not_verified 1 0))
unfolding perform new begin_check ℕ_discrete
second_refused = refl

perform_atomic_example : (perform (begin 1) start_run).0 ≡ start_run
perform_atomic_example =
    perform_atomic (begin 1) start_run (error (predecessor_not_verified 1 0)) second_refused

first_begun : (perform (begin 0) start_run).1 ≡ ok tt
unfolding perform new begin_check ℕ_discrete set_state
first_begun = refl

perform-Effect_example : Effect start_run (perform (begin 0) start_run).0
perform-Effect_example = perform-Effect (begin 0) start_run first_begun

perform_all-Inv_example : Inv (perform_all (verify_one 0 1) start_run)
perform_all-Inv_example = perform_all-Inv (verify_one 0 1) 1 2 plan (graph ∷ [])

perform_all-Log_example : RunLog (perform_all (verify_one 0 1) start_run)
perform_all-Log_example = perform_all-Log (verify_one 0 1) 1 2 plan (graph ∷ [])

abbrev begun : ExecutionRun
begun = perform_all (begin 0 ∷ []) start_run

begun_published : 1 < begun.next_event_sequence
unfolding new begin_check perform_all ℕ_discrete set_state
begun_published = omega arith

-- Action 0 is verified and the outcome of action 1 is lost.
abbrev lose_second : List Command
lose_second =
    verify_one 0 1
    ++ begin 1 ∷ admit (admission_of 1 3) ∷ dispatch 1 ∷ lose_outcome 1 "timed out" ∷ []

second_lost : state_at (perform_all lose_second start_run) 1 ≡ some outcome_unknown
unfolding perform_all new record_verification verification_state record_completion
    mark_dispatch_started record_admission admission_state publish_admission begin_check
    update_action set_state validate validate_structure topological_order checks_cover
    evidence_state ActionPrerequisite-discrete Postcondition-discrete ActionResource-discrete
    ResourceAccessMode-discrete ℕ_discrete resources_held mark_outcome_unknown
second_lost = refl

perform_all-final_example :
    state_at (perform_all (begin 1 ∷ []) (perform_all lose_second start_run)) 1
    ≡ some outcome_unknown
perform_all-final_example =
    perform_all-final (begin 1 ∷ []) (perform_all lose_second start_run) 1 outcome_unknown
      second_lost refl

-- Action 0 fails before its dispatch.
abbrev abort_first : List Command
abort_first = begin 0 ∷ admit (admission_of 0 1) ∷ fail_before_dispatch 0 "no backend" ∷ []

first_aborted : state_at (perform_all abort_first start_run) 0 ≡ some failed
unfolding perform_all new record_verification verification_state record_completion
    mark_dispatch_started record_admission admission_state publish_admission begin_check
    update_action set_state validate validate_structure topological_order checks_cover
    evidence_state ActionPrerequisite-discrete Postcondition-discrete ActionResource-discrete
    ResourceAccessMode-discrete ℕ_discrete resources_held mark_pre_dispatch_failed
first_aborted = refl

second_waits : state_at (perform_all abort_first start_run) 1 ≡ some waiting
unfolding perform_all new record_verification verification_state record_completion
    mark_dispatch_started record_admission admission_state publish_admission begin_check
    update_action set_state validate validate_structure topological_order checks_cover
    evidence_state ActionPrerequisite-discrete Postcondition-discrete ActionResource-discrete
    ResourceAccessMode-discrete ℕ_discrete resources_held mark_pre_dispatch_failed
second_waits = refl

Stopped-starts_nothing_example :
    state_at (perform_all (begin 1 ∷ []) (perform_all abort_first start_run)) 1 ≡ some waiting
Stopped-starts_nothing_example =
    Stopped-starts_nothing (begin 1 ∷ []) (perform_all abort_first start_run) 1
      (0, failed, first_aborted, refl) second_waits

abbrev whole_run : List Command
whole_run = verify_one 0 1 ++ verify_one 1 3 ++ verify_goal (goal_of 5) ∷ []

whole_run-is_verified : is_verified (perform_all whole_run start_run) ≡ true
unfolding perform_all new record_verification verification_state record_completion
    mark_dispatch_started record_admission admission_state publish_admission begin_check
    update_action set_state validate validate_structure topological_order checks_cover
    evidence_state ActionPrerequisite-discrete Postcondition-discrete ActionResource-discrete
    ResourceAccessMode-discrete ℕ_discrete resources_held is_verified record_goal_verification
    GoalAspect-discrete
whole_run-is_verified = refl

second_verified : state_at (perform_all whole_run start_run) 1 ≡ some verified
unfolding perform_all new record_verification verification_state record_completion
    mark_dispatch_started record_admission admission_state publish_admission begin_check
    update_action set_state validate validate_structure topological_order checks_cover
    evidence_state ActionPrerequisite-discrete Postcondition-discrete ActionResource-discrete
    ResourceAccessMode-discrete ℕ_discrete resources_held record_goal_verification
    GoalAspect-discrete
second_verified = refl

is_verified-verified_example : verified ≡ verified
is_verified-verified_example =
    is_verified-verified whole_run 1 2 plan (graph ∷ []) 1 verified whole_run-is_verified
      second_verified

abbrev swapped : List (LiveCheck ℕ)
swapped =
    record { condition = 2; status = satisfied }
    ∷ record { condition = 1; status = unknown "busy" }
    ∷ []

evidence_state_correct_example :
    (any is_violated (satisfied ∷ unknown "busy" ∷ []) ≡ true
      → evidence_state (satisfied ∷ unknown "busy" ∷ []) admitted checking ≡ failed)
    × (all is_satisfied (satisfied ∷ unknown "busy" ∷ []) ≡ true
        → evidence_state (satisfied ∷ unknown "busy" ∷ []) admitted checking ≡ admitted)
    × (any is_violated (satisfied ∷ unknown "busy" ∷ []) ≡ false
        → all is_satisfied (satisfied ∷ unknown "busy" ∷ []) ≡ false
        → evidence_state (satisfied ∷ unknown "busy" ∷ []) admitted checking ≡ checking)
evidence_state_correct_example =
    evidence_state_correct (satisfied ∷ unknown "busy" ∷ []) admitted checking

events_page_correct_example :
    (page : EventsPage) × (events_page 1 begun ≡ ok page)
    × (page.next_sequence + 1 ≡ begun.next_event_sequence)
    × (page.gap ≡ false → Numbered (1 + 1) page.events begun.next_event_sequence)
    × (page.gap ≡ true
        → (first : ℕ) × (1 + 1 < first)
          × Numbered first page.events begun.next_event_sequence
          × (page.events ≡ begun.events))
events_page_correct_example =
    events_page_correct 1 begun (perform_all-Log (begin 0 ∷ []) 1 2 plan (graph ∷ []))
      begun_published

checks_cover_iff_example : (checks_cover (1 ∷ 2 ∷ []) swapped ≡ true) ↔ (
    ((c : ℕ) → Memᴰ c (1 ∷ 2 ∷ []) ↔ Memᴰ c (conditions swapped)) × Unrepeated (conditions swapped))
checks_cover_iff_example = checks_cover_iff (1 ∷ 2 ∷ []) swapped

perform_all-AllBacked_example : AllBacked (perform_all (verify_one 0 1) start_run)
perform_all-AllBacked_example = perform_all-AllBacked (verify_one 0 1) 1 2 plan (graph ∷ [])

perform-Refreshed_example : Refreshed begun (perform (admit (admission_of 0 1)) begun).0
perform-Refreshed_example = perform-Refreshed (admit (admission_of 0 1)) begun

first_observed : (perform_all (verify_one 0 1) start_run).latest_observation ≡ some (observation 2)
unfolding perform_all new record_verification verification_state record_completion
    mark_dispatch_started record_admission admission_state publish_admission begin_check
    update_action set_state validate validate_structure topological_order checks_cover
    evidence_state ActionPrerequisite-discrete Postcondition-discrete ActionResource-discrete
    ResourceAccessMode-discrete ℕ_discrete resources_held is_verified record_goal_verification
    GoalAspect-discrete
first_observed = refl

perform_all-keeps_epoch_example :
    (o : LiveObservation) × ((perform_all
        (verify_one 1 3)
        (perform_all (verify_one 0 1) start_run)).latest_observation
      ≡ some o)
    × ((observation 2).reference.probe_instance ≡ o.reference.probe_instance)
    × ((observation 2).reference.epoch ≤ o.reference.epoch)
perform_all-keeps_epoch_example =
    perform_all-keeps_epoch (verify_one 1 3) (perform_all (verify_one 0 1) start_run)
      (observation 2) first_observed
