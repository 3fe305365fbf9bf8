-- ===== src/Engine/Run/Backing/Commands.antt =====
-- storage-engine/src/execution.rs: the methods and the evidence behind the states.
use pdisks.Base.{
  Bool-cases, ◌≡◌, inl, inr, refl, ◌∙◌, ◌∷◌, some, ok, arith, get_elem?, get_elem?-set_self,
  lt_of_get_elem?, Result-cases,
}
use Prim.Native.String.{String}
use pdisks.Engine.Plan.{ActionId, ExecutionPlan}
use pdisks.Engine.Run.Defs.{
  ActionRunState, checking, admitted, running, verifying, failed, outcome_unknown, ActionRun,
  ExecutionRun, AdmissionReport, VerificationReport, GoalVerificationReport, BackendCompletion,
  BackendOutcome, succeeded, failed_with, unknown_outcome, action_state, same_state, admission,
}
use pdisks.Engine.Run.Methods.{
  admission_state, verification_state, outcome_state, append_event, record_goal_verification,
}
use pdisks.Engine.Run.Effects.{transition, after_admission}
use pdisks.Engine.Run.Effects
use pdisks.Engine.Run.Command.{
  begin, admit, dispatch, fail_before_dispatch, complete, verify, lose_outcome, report_progress,
  verify_goal, perform,
}
use pdisks.Engine.Run.Evidence.{statuses}
use pdisks.Engine.Run.Lifecycle.{evidence_state-cases}
use pdisks.Engine.Run.Backing.{
  Backed, AllBacked, unbacked, advance, transition-AllBacked, admission_state-Sufficient,
  verification_state-Confirmed,
}

pub begin-AllBacked :
    (a : ActionId) (s : ExecutionRun)
    → AllBacked s
    → (perform (begin a) s).1 ≡ ok tt
    → AllBacked (perform (begin a) s).0
unfolding perform
begin-AllBacked a s b h =
    let (r, g, w, stop, ready, idle, e, _) = Effects.begin_check_ok a s h in
    rw e (
      transition-AllBacked s s a r (record r { state = checking }) (action_state a checking) b g
        refl refl (unbacked s.plan a (record r { state = checking }) refl))

pub dispatch-AllBacked :
    (a : ActionId) (s : ExecutionRun)
    → AllBacked s
    → (perform (dispatch a) s).1 ≡ ok tt
    → AllBacked (perform (dispatch a) s).0
unfolding perform
dispatch-AllBacked a s b h =
    let (r, g, w, e, _) = Effects.mark_dispatch_started_ok a s h in
    rw e (
      transition-AllBacked s s a r (record r { state = running }) (action_state a running) b g refl
        refl
        (advance s.plan a r (record r { state = running }) (b a r g) (rw w refl) refl (λ q. cc)))

pub fail-AllBacked :
    (a : ActionId) (reason : String) (s : ExecutionRun)
    → AllBacked s
    → (perform (fail_before_dispatch a reason) s).1 ≡ ok tt
    → AllBacked (perform (fail_before_dispatch a reason) s).0
unfolding perform
fail-AllBacked a reason s b h =
    let (r, g, w, e, _) = Effects.mark_pre_dispatch_failed_ok a reason s h in
    let r' = record r { pre_dispatch_failure = some reason; state = failed } in
    rw e (
      transition-AllBacked s s a r r' (action_state a failed) b g refl refl
        (unbacked s.plan a r' refl))

completed-Backed :
    (plan : ExecutionPlan) (c : BackendCompletion) (o : BackendOutcome) (a : ActionId)
    (r : ActionRun)
    → Backed plan a r
    → r.state ≡ running
    → Backed plan a (record r { completion = some c; state = outcome_state o })
completed-Backed plan c succeeded a r b w =
    advance plan a r (record r { completion = some c; state = verifying }) b (rw w refl) refl
      (λ q. cc)
completed-Backed plan c (failed_with _) a r b w =
    unbacked plan a (record r { completion = some c; state = failed }) refl
completed-Backed plan c (unknown_outcome _) a r b w =
    unbacked plan a (record r { completion = some c; state = outcome_unknown }) refl

pub complete-AllBacked :
    (c : BackendCompletion) (s : ExecutionRun)
    → AllBacked s
    → (perform (complete c) s).1 ≡ ok tt
    → AllBacked (perform (complete c) s).0
unfolding perform
complete-AllBacked c s b h =
    let (r, g, w, _, e, _) = Effects.record_completion_ok c s h in
    rw e (
      transition-AllBacked s (record s { latest_observation = some c.observation }) c.action r
        (record r { completion = some c; state = outcome_state c.outcome })
        (action_state c.action (outcome_state c.outcome)) b g refl refl
        (completed-Backed s.plan c c.outcome c.action r (b c.action r g) w))

confirmed-Backed :
    (s : ExecutionRun) (p : VerificationReport) (st : ActionRunState) (r : ActionRun)
    → (verification_state p s).1 ≡ ok st
    → Backed s.plan p.action r
    → r.state ≡ verifying
    → Backed s.plan p.action (record r { verification = some p; state = st })
confirmed-Backed s p st r h b w = record {
  by_admission = λ _. b.by_admission (rw w refl);
  by_verification = λ e. (p, refl, verification_state-Confirmed p s (rw (← e) h));
}

pub verify-AllBacked :
    (p : VerificationReport) (s : ExecutionRun)
    → AllBacked s
    → (perform (verify p) s).1 ≡ ok tt
    → AllBacked (perform (verify p) s).0
unfolding perform
verify-AllBacked p s b h = elim (Result-cases (verification_state p s).1) [
  | inr (e, g) ↦ absurd (ground (arith, Effects.record_verification_err p s e g))
  | inl (st, g) ↦
      let (r, k, c, _, ev, _) = Effects.verification_state_ok p s st g in
      rw (Effects.record_verification_lem p s st r g k) (
        transition-AllBacked s s p.action r (record r { verification = some p; state = st })
          (action_state p.action st) b k refl refl (confirmed-Backed s p st r g (b p.action r k) c))
]

pub lose-AllBacked :
    (a : ActionId) (reason : String) (s : ExecutionRun)
    → AllBacked s
    → (perform (lose_outcome a reason) s).1 ≡ ok tt
    → AllBacked (perform (lose_outcome a reason) s).0
unfolding perform
lose-AllBacked a reason s b h =
    let (r, g, w, e, _) = Effects.mark_outcome_unknown_ok a reason s h in
    let r' = record r { unknown_reason = some reason; state = outcome_unknown } in
    rw e (
      transition-AllBacked s s a r r' (action_state a outcome_unknown) b g refl refl
        (unbacked s.plan a r' refl))

pub progress-AllBacked :
    (a : ActionId) (detail : String) (s : ExecutionRun)
    → AllBacked s
    → (perform (report_progress a detail) s).1 ≡ ok tt
    → AllBacked (perform (report_progress a detail) s).0
unfolding perform append_event
progress-AllBacked a detail s b h =
    let (r, g, w, e, _) = Effects.record_progress_ok a detail s h in rw e b

pub goal-AllBacked :
    (p : GoalVerificationReport) (s : ExecutionRun)
    → AllBacked s
    → (perform (verify_goal p) s).1 ≡ ok tt
    → AllBacked (perform (verify_goal p) s).0
unfolding perform append_event
goal-AllBacked p s b h = elim (Result-cases (record_goal_verification p s).1) [
  | inr (e, g) ↦ absurd (ground arith)
  | inl (c, g) ↦
      let (done, _, _, _, e, _) = Effects.record_goal_verification_ok p s c g in rw (e, g) b
]

judged-Backed :
    (s : ExecutionRun) (p : AdmissionReport) (st : ActionRunState) (r : ActionRun)
    → (admission_state p s).1 ≡ ok st
    → Backed s.plan p.action (record r { admission = some p; state = st })
judged-Backed s p st r g =
    let (own, k, c, _, _, ev) = Effects.admission_state_ok p s st g in
    elim (evidence_state-cases (p.applicability ∷ statuses p.checks) admitted checking) [
      | inl q ↦
          let same : st ≡ admitted = ev ∙ q in
          record {
            by_admission = λ _. (p, refl, admission_state-Sufficient p s (rw (← same) g));
            by_verification = λ e. absurd (cc);
          }
      | inr (inl q) ↦ unbacked s.plan p.action _ (rw (ev ∙ q) refl)
      | inr (inr q) ↦ unbacked s.plan p.action _ (rw (ev ∙ q) refl)
    ]

after_admission-AllBacked :
    (p : AdmissionReport) (s : ExecutionRun) (st : ActionRunState) (r : ActionRun)
    → AllBacked s
    → (admission_state p s).1 ≡ ok st
    → get_elem? s.actions p.action ≡ some r
    → r.state ≡ checking
    → AllBacked (after_admission p st r s)
unfolding after_admission transition append_event
after_admission-AllBacked p s st r b g k c =
    let t = record s { latest_observation = some p.observation } in
    let r' = record r { admission = some p } in
    let note = admission p.action (same_state st admitted) in
    let seen = transition p.action r' note t in
    let backed =
      transition-AllBacked s t p.action r r' note b k refl refl
        (unbacked s.plan p.action r' (rw c refl)) in
    elim (Bool-cases (same_state st checking)) [
      | inl q ↦ rw q backed
      | inr q ↦ rw q (
          transition-AllBacked seen seen p.action r' (record r' { state = st })
            (action_state p.action st) backed
            (get_elem?-set_self s.actions p.action r' (lt_of_get_elem? s.actions p.action r k)) refl
            refl (judged-Backed s p st r g))
    ]

pub admit-AllBacked :
    (p : AdmissionReport) (s : ExecutionRun)
    → AllBacked s
    → (perform (admit p) s).1 ≡ ok tt
    → AllBacked (perform (admit p) s).0
unfolding perform
admit-AllBacked p s b h = elim (Result-cases (admission_state p s).1) [
  | inr (e, g) ↦ absurd (ground (arith, Effects.record_admission_err p s e g))
  | inl (st, g) ↦
      let (r, k, c, _, _, ev) = Effects.admission_state_ok p s st g in
      rw (Effects.record_admission_lem p s st r g k) (after_admission-AllBacked p s st r b g k c)
]
