-- ===== src/Engine/Run/Command.antt =====
-- storage-engine/src/execution.rs: the methods that change a run, as the commands of one machine.
use Prim.Native.String.{String}
use pdisks.Base.{List, [], ◌∷◌, ◌≡◌, ok, err, arith}
use pdisks.Engine.Plan.{ActionId}
use pdisks.Engine.Run.Defs.{
  AdmissionReport, BackendCompletion, VerificationReport, GoalVerificationReport, ExecutionRun,
}
use pdisks.Engine.Run.Monad.{M, Stop, Outcome}
use pdisks.Engine.Run.Methods.{
  begin_check, record_admission, mark_dispatch_started, mark_pre_dispatch_failed, record_completion,
  record_verification, mark_outcome_unknown, record_progress, record_goal_verification,
}
use pdisks.Engine.Run.Effects.{
  begin_check_atomic, record_admission_atomic, mark_dispatch_started_atomic,
  mark_pre_dispatch_failed_atomic, record_completion_atomic, record_verification_atomic,
  mark_outcome_unknown_atomic, record_progress_atomic, record_goal_verification_atomic,
}

pub data Command : Type 0 where
  begin : ActionId → Command
  admit : AdmissionReport → Command
  dispatch : ActionId → Command
  fail_before_dispatch : ActionId → String → Command
  complete : BackendCompletion → Command
  verify : VerificationReport → Command
  lose_outcome : ActionId → String → Command
  report_progress : ActionId → String → Command
  verify_goal : GoalVerificationReport → Command

-- A caller that drops the Boolean of a report.
abbrev pub void : {A : Type 0} → ExecutionRun × Outcome A → ExecutionRun × Outcome (Unit {0})
void (s, ok a) = (s, ok tt)
void (s, err e) = (s, err e)

unfoldable pub perform : Command → M (Unit {0})
perform (begin a) s = begin_check a s
perform (admit p) s = void (record_admission p s)
perform (dispatch a) s = mark_dispatch_started a s
perform (fail_before_dispatch a reason) s = mark_pre_dispatch_failed a reason s
perform (complete c) s = record_completion c s
perform (verify p) s = void (record_verification p s)
perform (lose_outcome a reason) s = mark_outcome_unknown a reason s
perform (report_progress a detail) s = record_progress a detail s
perform (verify_goal p) s = void (record_goal_verification p s)

-- A caller that issues the commands in turn, whatever the result of each.
unfoldable pub perform_all : List Command → ExecutionRun → ExecutionRun
unfolding perform
perform_all [] s = s
perform_all (c ∷ cs) s = perform_all cs (perform c s).0

-- A command that returns an error, or stops at an index out of bounds, leaves the whole run as it
-- was: neither a state, nor evidence, nor an event is published in part.
pub perform_atomic :
    (c : Command) (s : ExecutionRun) (e : Stop) → (perform c s).1 ≡ err e → (perform c s).0 ≡ s
unfolding perform
perform_atomic (begin a) s e h = begin_check_atomic a s h
perform_atomic (admit p) s e h = ground (arith, record_admission_atomic p s {e = e})
perform_atomic (dispatch a) s e h = mark_dispatch_started_atomic a s h
perform_atomic (fail_before_dispatch a r) s e h = mark_pre_dispatch_failed_atomic a r s h
perform_atomic (complete c) s e h = record_completion_atomic c s h
perform_atomic (verify p) s e h = ground (arith, record_verification_atomic p s {e = e})
perform_atomic (lose_outcome a r) s e h = mark_outcome_unknown_atomic a r s h
perform_atomic (report_progress a d) s e h = record_progress_atomic a d s h
perform_atomic (verify_goal p) s e h = ground (arith, record_goal_verification_atomic p s {e = e})
