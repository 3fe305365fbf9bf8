-- ===== src/Engine/Run/Effects.antt =====
-- storage-engine/src/execution.rs: what each method leaves behind. A method that errs leaves the run
-- as it was (`_atomic`); after success the conditions that it checked held, and the run that it
-- leaves is written out (`_ok`).
use Prim.Native.String.{String}
use pdisks.Base.{
  Result-cases, set-set, ◌+◌, ◌≤◌, ◌≡◌, refl, List, [], ◌∷◌, Bool, true, false, some, ok, err,
  arith, get_elem?, set, get_elem?-set_self, lt_of_get_elem?, Option-cases, u64_max, ◌⊎◌, any, all,
  nat_eq, if◌then◌else◌, inl, inr, ap,
}
use pdisks.Provider.Contract.{prerequisite_eq, postcondition_eq}
use pdisks.Engine.Plan.{ActionId, ActionDependency}
use pdisks.Engine.Run.Defs.{
  ActionRunState, ActionRun, ExecutionRun, RunEventKind, waiting, checking, verified, running,
  verifying, failed, outcome_unknown, AdmissionReport, BackendCompletion, VerificationReport,
  GoalVerificationReport, action_state, admission, admitted, same_state, progress,
  goal_verification, is_stopped, is_active, aspect_eq,
}
use pdisks.Engine.Run.Evidence.{checks_cover, evidence_state, statuses}
use pdisks.Engine.Run.Monad.{◌>>◌, Stop}
use pdisks.Engine.Run.Methods.{
  begin_check, set_state, update_action, check_predecessors, mark_dispatch_started,
  mark_pre_dispatch_failed, record_admission, admission_state, publish_admission, record_completion,
  record_verification, verification_state, same_publication, mark_outcome_unknown, record_progress,
  record_goal_verification, append_event, outcome_state, outdated, report_succeeds,
}

-- The run with another record for one action, and an event about it.
unfoldable pub transition : ActionId → ActionRun → RunEventKind → ExecutionRun → ExecutionRun
unfolding append_event
transition a r kind s = append_event kind (record s { actions = set s.actions a r })

pub set_state_lem :
    (a : ActionId) (st : ActionRunState) (s : ExecutionRun) (r : ActionRun)
    → get_elem? s.actions a ≡ some r
    → s.next_event_sequence + 1 ≤ u64_max
    → set_state a st s ≡ (transition a (record r { state = st }) (action_state a st) s, ok tt)
unfolding set_state transition
set_state_lem a st s r h c = ground arith

-- A field of one action written, and then its state.
pub amend_lem :
    (a : ActionId) (f : ActionRun → ActionRun) (st : ActionRunState) (s : ExecutionRun)
    (r : ActionRun)
    → get_elem? s.actions a ≡ some r
    → s.next_event_sequence + 1 ≤ u64_max
    → (update_action a f >> set_state a st) s
      ≡ (transition a (record (f r) { state = st }) (action_state a st) s, ok tt)
unfolding update_action set_state transition
amend_lem a f st s r h c = ground (
  arith,
  get_elem?-set_self s.actions a (f r),
  lt_of_get_elem? s.actions a r h,
  set-set s.actions a (f r) (record (f r) { state = st }),
)

pub check_predecessors_reads :
    (a : ActionId) (es : List ActionDependency) (s : ExecutionRun)
    → (check_predecessors a es s).0 ≡ s
unfolding check_predecessors
check_predecessors_reads a [] s = refl
check_predecessors_reads a (e ∷ es) s = ground (arith, check_predecessors_reads a es s)

pub begin_check_atomic :
    (a : ActionId) (s : ExecutionRun) {e : Stop}
    → (begin_check a s).1 ≡ err e
    → (begin_check a s).0 ≡ s
unfolding begin_check
begin_check_atomic a s h = ground (arith, check_predecessors_reads a s.plan.dependencies s)

pub begin_check_ok :
    (a : ActionId) (s : ExecutionRun)
    → (begin_check a s).1 ≡ ok tt
    → (r : ActionRun) × (get_elem? s.actions a ≡ some r)
      × (r.state ≡ waiting)
      × (any (λ run. is_stopped run.state) s.actions ≡ false)
      × ((check_predecessors a s.plan.dependencies s).1 ≡ ok tt)
      × (any (λ run. is_active run.state) s.actions ≡ false)
      × ((begin_check a s).0
          ≡ transition a (record r { state = checking }) (action_state a checking) s)
      × (s.next_event_sequence + 1 ≤ u64_max)
unfolding begin_check transition
begin_check_ok a s h = ground (arith, check_predecessors_reads a s.plan.dependencies s)

pub admission_state_reads : (p : AdmissionReport) (s : ExecutionRun) → (admission_state p s).0 ≡ s
unfolding admission_state
admission_state_reads p s = ground arith

pub admission_state_ok :
    (p : AdmissionReport) (s : ExecutionRun) (st : ActionRunState)
    → (admission_state p s).1 ≡ ok st
    → (r : ActionRun) × (get_elem? s.actions p.action ≡ some r)
      × (r.state ≡ checking)
      × (s.next_event_sequence + 1 ≤ u64_max)
      × (same_state st checking ≡ false → s.next_event_sequence + 2 ≤ u64_max)
      × (st ≡ evidence_state (p.applicability ∷ statuses p.checks) admitted checking)
unfolding admission_state
admission_state_ok p s st h = ground arith

-- The run after an admission that leaves the action in `st`.
unfoldable pub after_admission :
    AdmissionReport → ActionRunState → ActionRun → ExecutionRun → ExecutionRun
unfolding transition
after_admission p st r s =
    let t = record s { latest_observation = some p.observation } in
    let r' = record r { admission = some p } in
    let seen = transition p.action r' (admission p.action (same_state st admitted)) t in
    if same_state st checking
    then seen
    else transition p.action (record r' { state = st }) (action_state p.action st) seen

pub publish_admission_lem :
    (p : AdmissionReport) (st : ActionRunState) (s : ExecutionRun) (r : ActionRun)
    → get_elem? s.actions p.action ≡ some r
    → s.next_event_sequence + 1 ≤ u64_max
    → (same_state st checking ≡ false → s.next_event_sequence + 2 ≤ u64_max)
    → publish_admission p st s ≡ (after_admission p st r s, ok (same_state st admitted))
unfolding publish_admission after_admission
publish_admission_lem p st s r h c d = ground (
  arith,
  get_elem?-set_self s.actions p.action (record r { admission = some p }),
  lt_of_get_elem? s.actions p.action r,
)

pub mark_dispatch_started_atomic :
    (a : ActionId) (s : ExecutionRun) {e : Stop}
    → (mark_dispatch_started a s).1 ≡ err e
    → (mark_dispatch_started a s).0 ≡ s
unfolding mark_dispatch_started
mark_dispatch_started_atomic a s h = ground arith

pub mark_dispatch_started_ok :
    (a : ActionId) (s : ExecutionRun)
    → (mark_dispatch_started a s).1 ≡ ok tt
    → (r : ActionRun) × (get_elem? s.actions a ≡ some r)
      × (r.state ≡ admitted)
      × ((mark_dispatch_started a s).0
          ≡ transition a (record r { state = running }) (action_state a running) s)
      × (s.next_event_sequence + 1 ≤ u64_max)
unfolding mark_dispatch_started transition
mark_dispatch_started_ok a s h = ground arith

pub mark_pre_dispatch_failed_atomic :
    (a : ActionId) (reason : String) (s : ExecutionRun) {e : Stop}
    → (mark_pre_dispatch_failed a reason s).1 ≡ err e
    → (mark_pre_dispatch_failed a reason s).0 ≡ s
unfolding mark_pre_dispatch_failed
mark_pre_dispatch_failed_atomic a reason s h = elim (Option-cases (get_elem? s.actions a)) [
  | inl e ↦ ground arith
  | inr (r, e) ↦
      ground
        (arith, amend_lem a (λ run. record run { pre_dispatch_failure = some reason }) failed s r e)
]

pub mark_pre_dispatch_failed_ok :
    (a : ActionId) (reason : String) (s : ExecutionRun)
    → (mark_pre_dispatch_failed a reason s).1 ≡ ok tt
    → (r : ActionRun) × (get_elem? s.actions a ≡ some r)
      × (r.state ≡ admitted)
      × ((mark_pre_dispatch_failed a reason s).0
          ≡ transition a
              (record r { pre_dispatch_failure = some reason; state = failed })
              (action_state a failed)
              s)
      × (s.next_event_sequence + 1 ≤ u64_max)
unfolding mark_pre_dispatch_failed
mark_pre_dispatch_failed_ok a reason s h = elim (Option-cases (get_elem? s.actions a)) [
  | inl e ↦ ground arith
  | inr (r, e) ↦
      ground
        (arith, amend_lem a (λ run. record run { pre_dispatch_failure = some reason }) failed s r e)
]

pub record_completion_atomic :
    (c : BackendCompletion) (s : ExecutionRun) {e : Stop}
    → (record_completion c s).1 ≡ err e
    → (record_completion c s).0 ≡ s
unfolding record_completion
record_completion_atomic c s h = elim (Option-cases (get_elem? s.actions c.action)) [
  | inl e ↦ ground arith
  | inr (r, e) ↦ ground (
    arith,
    amend_lem c.action (λ run. record run { completion = some c }) (outcome_state c.outcome)
        (record s { latest_observation = some c.observation }) r e,
  )
]

pub record_completion_ok :
    (c : BackendCompletion) (s : ExecutionRun)
    → (record_completion c s).1 ≡ ok tt
    → (r : ActionRun) × (get_elem? s.actions c.action ≡ some r)
      × (r.state ≡ running)
      × (outdated s.latest_observation c.observation.reference ≡ false)
      × ((record_completion c s).0
          ≡ transition c.action
              (record r { completion = some c; state = outcome_state c.outcome })
              (action_state c.action (outcome_state c.outcome))
              (record s { latest_observation = some c.observation }))
      × (s.next_event_sequence + 1 ≤ u64_max)
unfolding record_completion
record_completion_ok c s h = elim (Option-cases (get_elem? s.actions c.action)) [
  | inl e ↦ ground arith
  | inr (r, e) ↦ ground (
    arith,
    amend_lem c.action (λ run. record run { completion = some c }) (outcome_state c.outcome)
        (record s { latest_observation = some c.observation }) r e,
  )
]

pub verification_state_reads :
    (p : VerificationReport) (s : ExecutionRun) → (verification_state p s).0 ≡ s
unfolding verification_state
verification_state_reads p s = ground arith

pub verification_state_ok :
    (p : VerificationReport) (s : ExecutionRun) (st : ActionRunState)
    → (verification_state p s).1 ≡ ok st
    → (r : ActionRun) × (get_elem? s.actions p.action ≡ some r)
      × (r.state ≡ verifying)
      × (same_publication r.completion p.observation ≡ true)
      × (st ≡ evidence_state (statuses p.checks) verified outcome_unknown)
      × (s.next_event_sequence + 1 ≤ u64_max)
unfolding verification_state
verification_state_ok p s st h = ground arith

pub mark_outcome_unknown_atomic :
    (a : ActionId) (reason : String) (s : ExecutionRun) {e : Stop}
    → (mark_outcome_unknown a reason s).1 ≡ err e
    → (mark_outcome_unknown a reason s).0 ≡ s
unfolding mark_outcome_unknown
mark_outcome_unknown_atomic a reason s h = elim (Option-cases (get_elem? s.actions a)) [
  | inl e ↦ ground arith
  | inr (r, e) ↦ ground (
    arith,
    amend_lem a (λ run. record run { unknown_reason = some reason }) outcome_unknown s r e,
  )
]

pub mark_outcome_unknown_ok :
    (a : ActionId) (reason : String) (s : ExecutionRun)
    → (mark_outcome_unknown a reason s).1 ≡ ok tt
    → (r : ActionRun) × (get_elem? s.actions a ≡ some r)
      × ((r.state ≡ running) ⊎ (r.state ≡ verifying))
      × ((mark_outcome_unknown a reason s).0
          ≡ transition a
              (record r { unknown_reason = some reason; state = outcome_unknown })
              (action_state a outcome_unknown)
              s)
      × (s.next_event_sequence + 1 ≤ u64_max)
unfolding mark_outcome_unknown
mark_outcome_unknown_ok a reason s h = elim (Option-cases (get_elem? s.actions a)) [
  | inl e ↦ ground arith
  | inr (r, e) ↦ ground (
    arith,
    amend_lem a (λ run. record run { unknown_reason = some reason }) outcome_unknown s r e,
  )
]

pub record_progress_atomic :
    (a : ActionId) (d : String) (s : ExecutionRun) {e : Stop}
    → (record_progress a d s).1 ≡ err e
    → (record_progress a d s).0 ≡ s
unfolding record_progress
record_progress_atomic a d s h = ground arith

pub record_progress_ok :
    (a : ActionId) (d : String) (s : ExecutionRun)
    → (record_progress a d s).1 ≡ ok tt
    → (r : ActionRun) × (get_elem? s.actions a ≡ some r)
      × (r.state ≡ running)
      × ((record_progress a d s).0 ≡ append_event (progress a d) s)
      × (s.next_event_sequence + 1 ≤ u64_max)
unfolding record_progress
record_progress_ok a d s h = ground arith

pub record_goal_verification_atomic :
    (p : GoalVerificationReport) (s : ExecutionRun) {e : Stop}
    → (record_goal_verification p s).1 ≡ err e
    → (record_goal_verification p s).0 ≡ s
unfolding record_goal_verification
record_goal_verification_atomic p s h = ground arith

pub record_admission_lem :
    (p : AdmissionReport) (s : ExecutionRun) (st : ActionRunState) (r : ActionRun)
    → (admission_state p s).1 ≡ ok st
    → get_elem? s.actions p.action ≡ some r
    → record_admission p s ≡ (after_admission p st r s, ok (same_state st admitted))
unfolding record_admission
record_admission_lem p s st r h g = ground (
  arith,
  admission_state_reads p s,
  admission_state_ok p s st h,
  publish_admission_lem p st s r g,
)

pub record_admission_err :
    (p : AdmissionReport) (s : ExecutionRun) (e : Stop)
    → (admission_state p s).1 ≡ err e
    → record_admission p s ≡ (s, err e)
unfolding record_admission
record_admission_err p s e g = ground (arith, admission_state_reads p s)

pub record_admission_atomic :
    (p : AdmissionReport) (s : ExecutionRun) {e : Stop}
    → (record_admission p s).1 ≡ err e
    → (record_admission p s).0 ≡ s
record_admission_atomic p s h = elim (Result-cases (admission_state p s).1) [
  | inl (st, g) ↦
      let q = admission_state_ok p s st g in ground (arith, record_admission_lem p s st q.0 g q.1)
  | inr (e, g) ↦ ap (λ q. q.0) (record_admission_err p s e g)
]

pub record_verification_lem :
    (p : VerificationReport) (s : ExecutionRun) (st : ActionRunState) (r : ActionRun)
    → (verification_state p s).1 ≡ ok st
    → get_elem? s.actions p.action ≡ some r
    → record_verification p s ≡ (
      transition p.action
          (record r { verification = some p; state = st })
          (action_state p.action st)
          s,
      ok (same_state st verified),
    )
unfolding record_verification
record_verification_lem p s st r h g = ground (
  arith,
  verification_state_reads p s,
  verification_state_ok p s st h,
  amend_lem p.action (λ run. record run { verification = some p }) st s r g,
)

pub record_verification_err :
    (p : VerificationReport) (s : ExecutionRun) (e : Stop)
    → (verification_state p s).1 ≡ err e
    → record_verification p s ≡ (s, err e)
unfolding record_verification
record_verification_err p s e g = ground (arith, verification_state_reads p s)

pub record_verification_atomic :
    (p : VerificationReport) (s : ExecutionRun) {e : Stop}
    → (record_verification p s).1 ≡ err e
    → (record_verification p s).0 ≡ s
record_verification_atomic p s h = elim (Result-cases (verification_state p s).1) [
  | inl (st, g) ↦
      let q = verification_state_ok p s st g in
      ground (arith, record_verification_lem p s st q.0 g q.1)
  | inr (e, g) ↦ ap (λ q. q.0) (record_verification_err p s e g)
]

pub record_goal_verification_ok :
    (p : GoalVerificationReport) (s : ExecutionRun) (b : Bool)
    → (record_goal_verification p s).1 ≡ ok b
    → (all (λ run. same_state run.state verified) s.actions ≡ true)
      × (checks_cover s.goal_aspects p.checks ≡ true)
      × (outdated s.latest_observation p.observation.reference ≡ false)
      × (b ≡ report_succeeds p)
      × ((record_goal_verification p s).0
          ≡ append_event
              (goal_verification b)
              (record s { latest_observation = some p.observation; goal_verification = some p }))
      × (s.next_event_sequence + 1 ≤ u64_max)
unfolding record_goal_verification
record_goal_verification_ok p s b h = ground arith
