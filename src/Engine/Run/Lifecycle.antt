-- ===== src/Engine/Run/Lifecycle.antt =====
-- storage-engine/src/execution.rs: the lifecycle of an action. Each command that succeeds moves one
-- action along an edge, or none.
use pdisks.Base.{
  ◌≡◌, ◌≢◌, ◌⊎◌, inl, inr, refl, sym, ap, ◌∙◌, List, [], ◌∷◌, true, false, Option, some, ok, arith,
  any, all, get_elem?, get_elem?-set_self, get_elem?-set_ne, lt_of_get_elem?, Result-cases, nat_eq,
}
use mathlib.Core.Option
use Prim.Native.String.{String}
use pdisks.Engine.Plan.{ActionId}
use pdisks.Engine.Run.Defs.{
  ActionRunState, waiting, checking, admitted, running, verifying, verified, failed,
  outcome_unknown, satisfied, violated, unknown, same_state, is_stopped, is_active, LiveCheckStatus,
  AdmissionReport, BackendCompletion, VerificationReport, BackendOutcome, succeeded, failed_with,
  unknown_outcome, GoalVerificationReport, RunEventKind, ActionRun, ExecutionRun, action_state,
  admission,
}
use pdisks.Engine.Run.Evidence.{evidence_state, statuses}
use pdisks.Engine.Run.Methods.{
  record_goal_verification, append_event, check_predecessors, outcome_state, admission_state,
  verification_state,
}
use pdisks.Engine.Run.Effects.{transition, after_admission}
use pdisks.Engine.Run.Effects
use pdisks.Engine.Run.Command.{
  Command, begin, admit, dispatch, fail_before_dispatch, complete, verify, lose_outcome,
  report_progress, verify_goal, perform,
}

-- The state of an action of the plan.
abbrev pub state_at : ExecutionRun → ActionId → Option ActionRunState
state_at s a = Option.map (λ run. run.state) (get_elem? s.actions a)

infix 40 ◌⟶◌
pub data ◌⟶◌ : ActionRunState → ActionRunState → Type 0 where
  start : waiting ⟶ checking
  hold : checking ⟶ checking
  accept : checking ⟶ admitted
  refuse : checking ⟶ failed
  launch : admitted ⟶ running
  abort : admitted ⟶ failed
  finish : running ⟶ verifying
  break : running ⟶ failed
  lose : running ⟶ outcome_unknown
  confirm : verifying ⟶ verified
  contradict : verifying ⟶ failed
  doubt : verifying ⟶ outcome_unknown

-- The states of the actions, and whether a goal report is there, are those of before.
pub record Same (s t : ExecutionRun) : Type 0 where
  pub plan : t.plan ≡ s.plan
  pub states : (i : ActionId) → state_at t i ≡ state_at s i

-- One action moves from `x` to `y`.
pub record Moved (s t : ExecutionRun) (a : ActionId) (x y : ActionRunState) : Type 0 where
  pub plan : t.plan ≡ s.plan
  pub goal : t.goal_verification ≡ s.goal_verification
  pub before : state_at s a ≡ some x
  pub after : state_at t a ≡ some y
  pub others : (i : ActionId) → i ≢ a → state_at t i ≡ state_at s i

-- What must hold for an action to leave `waiting`.
pub record Startable (s : ExecutionRun) (a : ActionId) : Type 0 where
  pub ready : (check_predecessors a s.plan.dependencies s).1 ≡ ok tt
  pub unstopped : any (λ run. is_stopped run.state) s.actions ≡ false
  pub idle : any (λ run. is_active run.state) s.actions ≡ false

pub data Effect (s t : ExecutionRun) : Type 0 where
  moved :
      (a : ActionId) (x y : ActionRunState)
      → Moved s t a x y
      → x ⟶ y
      → (x ≡ waiting → Startable s a)
      → Effect s t
  unmoved : Same s t → t.goal_verification ≡ s.goal_verification → Effect s t
  judged : Same s t → all (λ run. same_state run.state verified) s.actions ≡ true → Effect s t

transition-Moved :
    (s t : ExecutionRun) (a : ActionId) (r r' : ActionRun) (k : RunEventKind) (x y : ActionRunState)
    → t.actions ≡ s.actions
    → t.plan ≡ s.plan
    → t.goal_verification ≡ s.goal_verification
    → get_elem? s.actions a ≡ some r
    → r.state ≡ x
    → r'.state ≡ y
    → Moved s (transition a r' k t) a x y
unfolding transition append_event
transition-Moved s t a r r' k x y e p g h hx hy = record {
  plan = p;
  goal = g;
  before = rw h (ap some hx);
  after = rw (e, get_elem?-set_self s.actions a r' (lt_of_get_elem? s.actions a r h)) (ap some hy);
  others = λ i n. rw (e, get_elem?-set_ne s.actions a i r' (λ q. n (sym q)));
}

Moved-trans :
    (s t u : ExecutionRun) (a : ActionId) (x y z : ActionRunState)
    → Moved s t a x y
    → Moved t u a y z
    → Moved s u a x z
Moved-trans s t u a x y z m n = record {
  plan = n.plan ∙ m.plan;
  goal = n.goal ∙ m.goal;
  before = m.before;
  after = n.after;
  others = λ i e. n.others i e ∙ m.others i e;
}

pub evidence_state-cases :
    (xs : List LiveCheckStatus) (result if_unknown : ActionRunState)
    → (evidence_state xs result if_unknown ≡ result)
      ⊎ ((evidence_state xs result if_unknown ≡ if_unknown)
          ⊎ (evidence_state xs result if_unknown ≡ failed))
unfolding evidence_state
evidence_state-cases [] x u = inl refl
evidence_state-cases (satisfied ∷ xs) x u = evidence_state-cases xs x u
evidence_state-cases (violated _ ∷ xs) x u = inr (inr refl)
evidence_state-cases (unknown _ ∷ xs) x u = ground (arith, evidence_state-cases xs u u)

checked_edge :
    (xs : List LiveCheckStatus) (st : ActionRunState)
    → st ≡ evidence_state xs admitted checking
    → checking ⟶ st
checked_edge xs st e = elim (evidence_state-cases xs admitted checking) [
  | inl h ↦ rw (e ∙ h) accept
  | inr (inl h) ↦ rw (e ∙ h) hold
  | inr (inr h) ↦ rw (e ∙ h) refuse
]

verified_edge :
    (xs : List LiveCheckStatus) (st : ActionRunState)
    → st ≡ evidence_state xs verified outcome_unknown
    → verifying ⟶ st
verified_edge xs st e = elim (evidence_state-cases xs verified outcome_unknown) [
  | inl h ↦ rw (e ∙ h) confirm
  | inr (inl h) ↦ rw (e ∙ h) doubt
  | inr (inr h) ↦ rw (e ∙ h) contradict
]

outcome_edge : (o : BackendOutcome) → running ⟶ outcome_state o
outcome_edge succeeded = finish
outcome_edge (failed_with _) = break
outcome_edge (unknown_outcome _) = lose

after_admission-Moved :
    (p : AdmissionReport) (st : ActionRunState) (s : ExecutionRun) (r : ActionRun)
    → get_elem? s.actions p.action ≡ some r
    → r.state ≡ checking
    → Moved s (after_admission p st r s) p.action checking st
unfolding after_admission transition append_event
after_admission-Moved p checking s r h e =
    transition-Moved s (record s { latest_observation = some p.observation }) p.action r
      (record r { admission = some p }) (admission p.action false) checking checking refl refl refl
      h e e
after_admission-Moved p st s r h e =
    let r' = record r { admission = some p } in
    let t = record s { latest_observation = some p.observation } in
    let k = admission p.action (same_state st admitted) in
    let seen = transition-Moved s t p.action r r' k checking checking refl refl refl h e e in
    let u = transition p.action r' k t in
    Moved-trans s u _ p.action checking checking st seen (
      transition-Moved u u p.action r' (record r' { state = st }) (action_state p.action st)
        checking st refl refl refl
        (get_elem?-set_self s.actions p.action r' (lt_of_get_elem? s.actions p.action r h)) e refl)

-- The effect of each command that succeeds.
begin-Effect :
    (a : ActionId) (s : ExecutionRun)
    → (perform (begin a) s).1 ≡ ok tt
    → Effect s (perform (begin a) s).0
unfolding perform
begin-Effect a s h =
    let (r, g, w, stop, ready, idle, e, _) = Effects.begin_check_ok a s h in
    rw e (
      moved a waiting checking
        (transition-Moved s s a r _ _ waiting checking refl refl refl g w refl) start
        (λ _. record { ready = ready; unstopped = stop; idle = idle }))

admit-Effect :
    (p : AdmissionReport) (s : ExecutionRun)
    → (perform (admit p) s).1 ≡ ok tt
    → Effect s (perform (admit p) s).0
unfolding perform
admit-Effect p s h = elim (Result-cases (admission_state p s).1) [
  | inr (e, g) ↦ ground (arith, Effects.record_admission_err p s e g)
  | inl (st, g) ↦
      let (r, k, c, _, _, ev) = Effects.admission_state_ok p s st g in
      rw (Effects.record_admission_lem p s st r g k) (
        moved p.action checking st (after_admission-Moved p st s r k c)
          (checked_edge (p.applicability ∷ statuses p.checks) st ev) (λ q. cc))
]

dispatch-Effect :
    (a : ActionId) (s : ExecutionRun)
    → (perform (dispatch a) s).1 ≡ ok tt
    → Effect s (perform (dispatch a) s).0
unfolding perform
dispatch-Effect a s h =
    let (r, g, w, e, _) = Effects.mark_dispatch_started_ok a s h in
    rw e (
      moved a admitted running
        (transition-Moved s s a r _ _ admitted running refl refl refl g w refl) launch (λ q. cc))

fail-Effect :
    (a : ActionId) (reason : String) (s : ExecutionRun)
    → (perform (fail_before_dispatch a reason) s).1 ≡ ok tt
    → Effect s (perform (fail_before_dispatch a reason) s).0
unfolding perform
fail-Effect a reason s h =
    let (r, g, w, e, _) = Effects.mark_pre_dispatch_failed_ok a reason s h in
    rw e (
      moved a admitted failed (transition-Moved s s a r _ _ admitted failed refl refl refl g w refl)
        abort (λ q. cc))

complete-Effect :
    (c : BackendCompletion) (s : ExecutionRun)
    → (perform (complete c) s).1 ≡ ok tt
    → Effect s (perform (complete c) s).0
unfolding perform
complete-Effect c s h =
    let (r, g, w, _, e, _) = Effects.record_completion_ok c s h in
    let t = record s { latest_observation = some c.observation } in
    rw e (
      moved c.action running (outcome_state c.outcome)
        (transition-Moved s t c.action r _ _ running (outcome_state c.outcome) refl refl refl g w
          refl)
        (outcome_edge c.outcome) (λ q. cc))

verify-Effect :
    (p : VerificationReport) (s : ExecutionRun)
    → (perform (verify p) s).1 ≡ ok tt
    → Effect s (perform (verify p) s).0
unfolding perform
verify-Effect p s h = elim (Result-cases (verification_state p s).1) [
  | inr (e, g) ↦ ground (arith, Effects.record_verification_err p s e g)
  | inl (st, g) ↦
      let (r, k, c, _, ev, _) = Effects.verification_state_ok p s st g in
      rw (Effects.record_verification_lem p s st r g k) (
        moved p.action verifying st
          (transition-Moved s s p.action r _ _ verifying st refl refl refl k c refl)
          (verified_edge (statuses p.checks) st ev) (λ q. cc))
]

lose-Effect :
    (a : ActionId) (reason : String) (s : ExecutionRun)
    → (perform (lose_outcome a reason) s).1 ≡ ok tt
    → Effect s (perform (lose_outcome a reason) s).0
unfolding perform
lose-Effect a reason s h =
    let (r, g, w, e, _) = Effects.mark_outcome_unknown_ok a reason s h in
    let moving = λ (x : ActionRunState) (q : r.state ≡ x).
      transition-Moved s s a r (record r { unknown_reason = some reason; state = outcome_unknown })
        (action_state a outcome_unknown) x outcome_unknown refl refl refl g q refl in
    rw e (elim w [
      | inl q ↦ moved a running outcome_unknown (moving running q) lose (λ z. cc)
      | inr q ↦ moved a verifying outcome_unknown (moving verifying q) doubt (λ z. cc)
    ])

progress-Effect :
    (a : ActionId) (detail : String) (s : ExecutionRun)
    → (perform (report_progress a detail) s).1 ≡ ok tt
    → Effect s (perform (report_progress a detail) s).0
unfolding perform append_event
progress-Effect a detail s h =
    let (r, g, w, e, _) = Effects.record_progress_ok a detail s h in
    rw e (unmoved (record { plan = refl; states = λ i. refl }) refl)

goal-Effect :
    (p : GoalVerificationReport) (s : ExecutionRun)
    → (perform (verify_goal p) s).1 ≡ ok tt
    → Effect s (perform (verify_goal p) s).0
unfolding perform append_event
goal-Effect p s h = elim (Result-cases (record_goal_verification p s).1) [
  | inr (e, g) ↦ ground arith
  | inl (b, g) ↦
      let (done, _, _, _, e, _) = Effects.record_goal_verification_ok p s b g in
      rw (e, g) (judged (record { plan = refl; states = λ i. refl }) done)
]

-- A command that succeeds moves at most one action, along an edge of the lifecycle; it starts an
-- action only in a run with verified predecessors and nothing stopped or active, and it judges the
-- goal only when every action is verified.
pub perform-Effect :
    (c : Command) (s : ExecutionRun) → (perform c s).1 ≡ ok tt → Effect s (perform c s).0
perform-Effect (begin a) s h = begin-Effect a s h
perform-Effect (admit p) s h = admit-Effect p s h
perform-Effect (dispatch a) s h = dispatch-Effect a s h
perform-Effect (fail_before_dispatch a r) s h = fail-Effect a r s h
perform-Effect (complete c) s h = complete-Effect c s h
perform-Effect (verify p) s h = verify-Effect p s h
perform-Effect (lose_outcome a r) s h = lose-Effect a r s h
perform-Effect (report_progress a d) s h = progress-Effect a d s h
perform-Effect (verify_goal p) s h = goal-Effect p s h
