-- ===== src/Engine/Run/Defs.antt =====
-- storage-engine/src/execution.rs: the data of an execution run, and `GoalAspect` of
-- storage-engine/src/simulate.rs. Of the reviewed document a run keeps here its `plan_id`, the one
-- part of it that a method of the run reads.
use Prim.Native.String.{String}
use native.Mathlib.Decide.{ℕ_discrete}
use pdisks.Base.{
  ℕ, List, Bool, true, false, Option, Eq, eq_of_discrete, nat_beq, String-discrete, lists_discrete,
}
use pdisks.Core.Block.{Uuid, FilePath}
use pdisks.Core.State.{MountContext}
use pdisks.Provider.Contract.{ActionPrerequisite, Postcondition, ResourceAccess}
use pdisks.Engine.Plan.{ActionId, ExecutionPlan}
use pdisks.Engine.Live.{LiveObservation, ObservationError, ObservationReference}

abbrev pub max_run_events : ℕ
max_run_events = 1024

abbrev pub max_progress_bytes : ℕ
max_progress_bytes = 4096

pub data ActionRunState : Type 0 where
  waiting checking admitted running verifying verified failed outcome_unknown : ActionRunState

abbrev ordinal : ActionRunState → ℕ
ordinal waiting = 0
ordinal checking = 1
ordinal admitted = 2
ordinal running = 3
ordinal verifying = 4
ordinal verified = 5
ordinal failed = 6
ordinal outcome_unknown = 7

-- The derived `PartialEq`.
abbrev pub same_state : ActionRunState → ActionRunState → Bool
same_state a b = nat_beq (ordinal a) (ordinal b)

-- `matches!(state, Failed | OutcomeUnknown)`
abbrev pub is_stopped : ActionRunState → Bool
is_stopped failed = true
is_stopped outcome_unknown = true
is_stopped _ = false

-- `matches!(state, Checking | Admitted | Running | Verifying)`
abbrev pub is_active : ActionRunState → Bool
is_active checking = true
is_active admitted = true
is_active running = true
is_active verifying = true
is_active _ = false

pub data LiveCheckStatus : Type 0 where
  satisfied : LiveCheckStatus
  violated : (reason : String) → LiveCheckStatus
  unknown : (required_evidence : String) → LiveCheckStatus

-- `status == LiveCheckStatus::Satisfied`
abbrev pub is_satisfied : LiveCheckStatus → Bool
is_satisfied satisfied = true
is_satisfied _ = false

pub record LiveCheck (T : Type 0) : Type 0 where
  pub condition : T
  pub status : LiveCheckStatus

pub data GoalAspect : Type 0 where
  graph : GoalAspect
  runtime_mount persistent_mount : (target : FilePath) (context : MountContext) → GoalAspect
  boot : GoalAspect

unfoldable pub GoalAspect-discrete : Discrete GoalAspect
GoalAspect-discrete = hlevel (ℕ_discrete, String-discrete, lists_discrete)

instance abbrev pub aspect_eq : Eq GoalAspect
aspect_eq = eq_of_discrete GoalAspect-discrete

pub record AdmissionReport : Type 0 where
  pub run_id : Uuid
  pub action : ActionId
  pub observation : LiveObservation
  pub applicability : LiveCheckStatus
  pub held_resources : List ResourceAccess
  pub checks : List (LiveCheck ActionPrerequisite)

pub data BackendOutcome : Type 0 where
  succeeded : BackendOutcome
  failed_with : (reason : String) → BackendOutcome
  unknown_outcome : (reason : String) → BackendOutcome

pub record BackendCompletion : Type 0 where
  pub run_id : Uuid
  pub action : ActionId
  pub outcome : BackendOutcome
  pub observation : LiveObservation

pub record VerificationReport : Type 0 where
  pub run_id : Uuid
  pub action : ActionId
  pub observation : ObservationReference
  pub checks : List (LiveCheck Postcondition)

pub record GoalVerificationReport : Type 0 where
  pub run_id : Uuid
  pub observation : LiveObservation
  pub checks : List (LiveCheck GoalAspect)
  pub preservation : LiveCheckStatus

pub data RunEventKind : Type 0 where
  action_state : (action : ActionId) (state : ActionRunState) → RunEventKind
  progress : (action : ActionId) (detail : String) → RunEventKind
  admission : (action : ActionId) (admitted : Bool) → RunEventKind
  goal_verification : (verified : Bool) → RunEventKind

pub record RunEvent : Type 0 where
  pub run_id : Uuid
  pub sequence : ℕ
  pub kind : RunEventKind

pub record EventsPage : Type 0 where
  pub events : List RunEvent
  pub next_sequence : ℕ
  pub gap : Bool

pub record ActionStatus : Type 0 where
  pub action : ActionId
  pub state : ActionRunState
  pub applicability : Option LiveCheckStatus
  pub admission_observation : Option ObservationReference
  pub completion_observation : Option ObservationReference
  pub prerequisites : List (LiveCheck ActionPrerequisite)
  pub outcome : Option BackendOutcome
  pub postconditions : Option (List (LiveCheck Postcondition))
  pub pre_dispatch_failure : Option String
  pub unknown_reason : Option String

pub record RunSnapshot : Type 0 where
  pub run_id : Uuid
  pub plan_id : Uuid
  pub actions : List ActionStatus
  pub finished : Bool
  pub verified : Bool
  pub event_sequence : ℕ
  pub observation : Option LiveObservation
  pub goal_verification : Option GoalVerificationReport

pub record ActionRun : Type 0 where
  pub state : ActionRunState
  pub admission : Option AdmissionReport
  pub completion : Option BackendCompletion
  pub verification : Option VerificationReport
  pub pre_dispatch_failure : Option String
  pub unknown_reason : Option String

pub record ExecutionRun : Type 0 where
  pub run_id : Uuid
  pub plan_id : Uuid
  pub plan : ExecutionPlan
  pub actions : List ActionRun
  pub latest_observation : Option LiveObservation
  pub goal_aspects : List GoalAspect
  pub goal_verification : Option GoalVerificationReport
  pub events : List RunEvent
  pub next_event_sequence : ℕ

-- The errors of the methods of a run. (`Document` belongs to `new` alone, whose analysis of the
-- document is not modelled.)
pub data ExecutionRunError : Type 0 where
  unknown_action : ActionId → ExecutionRunError
  invalid_transition : (action : ActionId) (state : ActionRunState) → ExecutionRunError
  predecessor_not_verified : (action predecessor : ActionId) → ExecutionRunError
  active_action run_stopped report_mismatch incomplete_checks missing_resources stale_observation :
      ExecutionRunError
  invalid_observation : ObservationError → ExecutionRunError
  actions_not_verified event_sequence_exhausted : ExecutionRunError
  invalid_event_cursor : (requested latest : ℕ) → ExecutionRunError
  progress_too_large : ExecutionRunError
