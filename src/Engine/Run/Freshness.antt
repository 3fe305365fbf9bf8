-- ===== src/Engine/Run/Freshness.antt =====
-- storage-engine/src/execution.rs: the latest observation of a run under its methods.
use pdisks.Base.{
  subst, ◌≤◌, ◌<◌, ◌≡◌, ◌⊎◌, inl, inr, refl, ap, ◌∙◌, List, [], ◌∷◌, false, Option, none, some, ok,
  arith, nat_eq, Result-cases, Bool-cases,
}
use pdisks.Engine.Live.{LiveObservation}
use pdisks.Engine.Run.Defs.{
  ActionRunState, checking, ActionRun, ExecutionRun, AdmissionReport, same_state,
}
use pdisks.Engine.Run.Methods.{
  admission_state, verification_state, outdated, append_event, record_goal_verification,
}
use pdisks.Engine.Run.Effects.{transition, after_admission}
use pdisks.Engine.Run.Effects
use pdisks.Engine.Run.Command.{
  Command, begin, admit, dispatch, fail_before_dispatch, complete, verify, lose_outcome,
  report_progress, verify_goal, perform, perform_all, perform_atomic,
}

-- The observation is of the same probe service and strictly later.
abbrev pub IsNewer : Option LiveObservation → LiveObservation → Type 0
IsNewer none o = Unit
IsNewer (some old) o =
    (old.reference.probe_instance ≡ o.reference.probe_instance)
    × (old.reference.epoch < o.reference.epoch)

-- The run keeps its latest observation, or replaces it by a newer one.
abbrev pub Refreshed : (s t : ExecutionRun) → Type 0
Refreshed s t =
    (t.latest_observation ≡ s.latest_observation)
    ⊎ ((o : LiveObservation) × (t.latest_observation ≡ some o) × IsNewer s.latest_observation o)

outdated-IsNewer :
    (l : Option LiveObservation) (o : LiveObservation)
    → outdated l o.reference ≡ false
    → IsNewer l o
outdated-IsNewer none o h = tt
outdated-IsNewer (some old) o h = (
  ground (arith, nat_eq.same_iff old.reference.probe_instance o.reference.probe_instance),
  ground arith,
)

admission_fresh :
    (p : AdmissionReport) (s : ExecutionRun) {st : ActionRunState}
    → (admission_state p s).1 ≡ ok st
    → outdated s.latest_observation p.observation.reference ≡ false
unfolding admission_state
admission_fresh p s h = ground arith

admission_latest :
    (p : AdmissionReport) (st : ActionRunState) (r : ActionRun) (s : ExecutionRun)
    → (after_admission p st r s).latest_observation ≡ some p.observation
unfolding after_admission transition append_event
admission_latest p st r s = elim (Bool-cases (same_state st checking)) [
  | inl q ↦ rw q refl
  | inr q ↦ rw q refl
]

accepted-Refreshed :
    (c : Command) (s : ExecutionRun) → (perform c s).1 ≡ ok tt → Refreshed s (perform c s).0
unfolding perform transition append_event
accepted-Refreshed (begin a) s h =
    let (r, g, w, stop, ready, idle, e, _) = Effects.begin_check_ok a s h in
    inl (ap (λ t. t.latest_observation) e)
accepted-Refreshed (admit p) s h = elim (Result-cases (admission_state p s).1) [
  | inr (e, g) ↦ absurd (ground (arith, Effects.record_admission_err p s e g))
  | inl (st, g) ↦
      let (r, k, c, _, _, ev) = Effects.admission_state_ok p s st g in
      rw (Effects.record_admission_lem p s st r g k) (
        inr (
          p.observation,
          admission_latest p st r s,
          outdated-IsNewer s.latest_observation p.observation (admission_fresh p s g),
        ))
]
accepted-Refreshed (dispatch a) s h =
    let (r, g, w, e, _) = Effects.mark_dispatch_started_ok a s h in
    inl (ap (λ t. t.latest_observation) e)
accepted-Refreshed (fail_before_dispatch a x) s h =
    let (r, g, w, e, _) = Effects.mark_pre_dispatch_failed_ok a x s h in
    inl (ap (λ t. t.latest_observation) e)
accepted-Refreshed (complete c) s h =
    let (r, g, w, f, e, _) = Effects.record_completion_ok c s h in
    inr (
      c.observation,
      ap (λ t. t.latest_observation) e,
      outdated-IsNewer s.latest_observation c.observation f,
    )
accepted-Refreshed (verify p) s h = elim (Result-cases (verification_state p s).1) [
  | inr (e, g) ↦ absurd (ground (arith, Effects.record_verification_err p s e g))
  | inl (st, g) ↦
      let (r, k, c, _, ev, _) = Effects.verification_state_ok p s st g in
      rw (Effects.record_verification_lem p s st r g k) (inl refl)
]
accepted-Refreshed (lose_outcome a x) s h =
    let (r, g, w, e, _) = Effects.mark_outcome_unknown_ok a x s h in
    inl (ap (λ t. t.latest_observation) e)
accepted-Refreshed (report_progress a d) s h =
    let (r, g, w, e, _) = Effects.record_progress_ok a d s h in
    inl (ap (λ t. t.latest_observation) e)
accepted-Refreshed (verify_goal p) s h = elim (Result-cases (record_goal_verification p s).1) [
  | inr (e, g) ↦ absurd (ground arith)
  | inl (c, g) ↦
      let (done, _, f, _, e, _) = Effects.record_goal_verification_ok p s c g in
      rw (e, g) (inr (p.observation, refl, outdated-IsNewer s.latest_observation p.observation f))
]

-- Every method, successful or not, keeps the latest observation of the run or replaces it by one of
-- the same probe service that is strictly later.
pub perform-Refreshed : (c : Command) (s : ExecutionRun) → Refreshed s (perform c s).0
perform-Refreshed c s = elim (Result-cases (perform c s).1) [
  | inr (e, h) ↦ inl (ap (λ t. t.latest_observation) (perform_atomic c s e h))
  | inl (_, h) ↦ accepted-Refreshed c s h
]

step_forward :
    (s t : ExecutionRun) (old : LiveObservation)
    → Refreshed s t
    → s.latest_observation ≡ some old
    → (o : LiveObservation) × (t.latest_observation ≡ some o)
      × (old.reference.probe_instance ≡ o.reference.probe_instance)
      × (old.reference.epoch ≤ o.reference.epoch)
step_forward s t old (inl same) h = (old, same ∙ h, refl, omega arith)
step_forward s t old (inr (o, e, newer)) h =
    let (i, l) = subst (λ x. IsNewer x o) h newer in (o, e, i, omega (arith, l))

-- Once a run has an observation, it stays with that probe service and its epoch never falls,
-- whatever methods are called.
pub perform_all-keeps_epoch :
    (cs : List Command) (s : ExecutionRun) (old : LiveObservation)
    → s.latest_observation ≡ some old
    → (o : LiveObservation) × ((perform_all cs s).latest_observation ≡ some o)
      × (old.reference.probe_instance ≡ o.reference.probe_instance)
      × (old.reference.epoch ≤ o.reference.epoch)
unfolding perform_all
perform_all-keeps_epoch [] s old h = (old, h, refl, omega arith)
perform_all-keeps_epoch (c ∷ cs) s old h =
    let (o, e, i, l) = step_forward s (perform c s).0 old (perform-Refreshed c s) h in
    let (o', e', i', l') = perform_all-keeps_epoch cs (perform c s).0 o e in
    (o', e', i ∙ i', omega (arith, l, l'))
