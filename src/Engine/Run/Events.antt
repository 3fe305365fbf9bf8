-- ===== src/Engine/Run/Events.antt =====
-- storage-engine/src/execution.rs: the bounded event log and its pages.
use mathlib.Core.List.{tail}
use pdisks.Base.{
  ℕ, ◌+◌, ◌≤◌, ◌<◌, ◌≡◌, ◌⊎◌, inl, inr, refl, List, [], ◌∷◌, ◌++◌, false, some, ok, arith, length,
  set, nat_beq, u64_max, Result-cases, Bool-cases, length-append, if◌then◌else◌,
}
use pdisks.Engine.Plan.{ActionId, ExecutionPlan}
use pdisks.Core.Block.{Uuid}
use pdisks.Engine.Run.Defs.{
  max_run_events, admission, admitted, action_state, ActionRun, ActionRunState, same_state,
  checking, AdmissionReport, ExecutionRun, GoalAspect, RunEvent, RunEventKind,
}
use pdisks.Engine.Run.Methods.{
  new, append_event, admission_state, verification_state, record_goal_verification,
}
use pdisks.Engine.Run.Effects
use pdisks.Engine.Run.Effects.{transition, after_admission}
use pdisks.Engine.Run.Command.{
  Command, begin, admit, dispatch, fail_before_dispatch, complete, verify, lose_outcome,
  report_progress, verify_goal, perform, perform_atomic, perform_all,
}

-- The events carry the numbers from `first` up to, and without, `next`.
abbrev pub Numbered : ℕ → List RunEvent → ℕ → Type 0
Numbered first [] next = first ≡ next
Numbered first (event ∷ events) next = (event.sequence ≡ first) × Numbered (first + 1) events next

-- The log holds the last events published, all of them or as many as it may.
pub record Log (events : List RunEvent) (next : ℕ) : Type 0 where
  pub first : ℕ
  pub numbered : Numbered first events next
  pub positive : 1 ≤ first
  pub whole : (first ≡ 1) ⊎ (length events ≡ max_run_events)
  pub bounded : length events ≤ max_run_events
  pub capped : next ≤ u64_max

Numbered-append :
    (first : ℕ) (events : List RunEvent) (next : ℕ) (event : RunEvent)
    → Numbered first events next
    → event.sequence ≡ next
    → Numbered first (events ++ event ∷ []) (next + 1)
Numbered-append first [] next event h e = (omega arith, omega arith)
Numbered-append first (x ∷ xs) next event (here, rest) e =
    (here, Numbered-append (first + 1) xs next event rest e)

-- What `push_event` keeps of the log.
abbrev kept : List RunEvent → List RunEvent
kept events = if nat_beq (length events) max_run_events then tail events else events

kept_full :
    (x : RunEvent) (xs : List RunEvent) → length (x ∷ xs) ≡ max_run_events → kept (x ∷ xs) ≡ xs
kept_full x xs h = ground arith

kept_short : (xs : List RunEvent) → nat_beq (length xs) max_run_events ≡ false → kept xs ≡ xs
kept_short xs h = ground arith

push-Log :
    (xs : List RunEvent) (next : ℕ) (event : RunEvent)
    → event.sequence ≡ next
    → next + 1 ≤ u64_max
    → Log xs next
    → Log (kept xs ++ event ∷ []) (next + 1)
push-Log [] next event e c l = record {
  first = l.first;
  numbered = Numbered-append l.first [] next event l.numbered e;
  positive = l.positive;
  whole = ground arith;
  bounded = omega arith;
  capped = c;
}
push-Log (x ∷ xs) next event e c l = elim (Bool-cases (nat_beq (length (x ∷ xs)) max_run_events)) [
  | inl full ↦
      let h : length (x ∷ xs) ≡ max_run_events = ground arith in
      rw (kept_full x xs h) (record {
        first = l.first + 1;
        numbered = Numbered-append (l.first + 1) xs next event l.numbered.1 e;
        positive = omega arith;
        whole = inr (omega (arith, length-append xs (event ∷ [])));
        bounded = omega (arith, length-append xs (event ∷ []));
        capped = c;
      })
  | inr short ↦
      let b = l.bounded in
      let n : length (x ∷ xs) < max_run_events = ground arith in
      rw (kept_short (x ∷ xs) short) (record {
        first = l.first;
        numbered = Numbered-append l.first (x ∷ xs) next event l.numbered e;
        positive = l.positive;
        whole = ground arith;
        bounded = omega (arith, length-append (x ∷ xs) (event ∷ []));
        capped = c;
      })
]

publish-Log :
    (k : RunEventKind) (s : ExecutionRun)
    → s.next_event_sequence + 1 ≤ u64_max
    → Log s.events s.next_event_sequence
    → Log (append_event k s).events (append_event k s).next_event_sequence
unfolding append_event
publish-Log k s c l = push-Log s.events s.next_event_sequence _ refl c l

abbrev pub RunLog : ExecutionRun → Type 0
RunLog s = Log s.events s.next_event_sequence

transition-Log :
    (a : ActionId) (r : ActionRun) (k : RunEventKind) (s : ExecutionRun)
    → s.next_event_sequence + 1 ≤ u64_max
    → RunLog s
    → RunLog (transition a r k s)
unfolding transition
transition-Log a r k s c l = publish-Log k (record s { actions = set s.actions a r }) c l

after_admission-Log :
    (p : AdmissionReport) (st : ActionRunState) (s : ExecutionRun) (r : ActionRun)
    → s.next_event_sequence + 1 ≤ u64_max
    → (same_state st checking ≡ false → s.next_event_sequence + 2 ≤ u64_max)
    → RunLog s
    → RunLog (after_admission p st r s)
unfolding after_admission
after_admission-Log p checking s r c d l =
    transition-Log p.action (record r { admission = some p }) (admission p.action false)
      (record s { latest_observation = some p.observation }) c l
after_admission-Log p st s r c d l =
    let r' = record r { admission = some p } in
    let t = record s { latest_observation = some p.observation } in
    let k = admission p.action (same_state st admitted) in
    let d' = d refl in
    transition-Log p.action (record r' { state = st }) (action_state p.action st)
      (transition p.action r' k t) (omega arith) (transition-Log p.action r' k t c l)

accepted-Log :
    (c : Command) (s : ExecutionRun) → (perform c s).1 ≡ ok tt → RunLog s → RunLog (perform c s).0
unfolding perform
accepted-Log (begin a) s h l =
    let q = Effects.begin_check_ok a s h in rw q.6 (transition-Log a _ _ s q.7 l)
accepted-Log (admit p) s h l = elim (Result-cases (admission_state p s).1) [
  | inr (e, g) ↦ ground (arith, Effects.record_admission_err p s e g)
  | inl (st, g) ↦
      let (r, k, _, c, d, _) = Effects.admission_state_ok p s st g in
      rw (Effects.record_admission_lem p s st r g k) (after_admission-Log p st s r c d l)
]
accepted-Log (dispatch a) s h l =
    let q = Effects.mark_dispatch_started_ok a s h in rw q.3 (transition-Log a _ _ s q.4 l)
accepted-Log (fail_before_dispatch a reason) s h l =
    let q = Effects.mark_pre_dispatch_failed_ok a reason s h in
    rw q.3 (transition-Log a _ _ s q.4 l)
accepted-Log (complete c) s h l =
    let q = Effects.record_completion_ok c s h in
    rw q.4
      (transition-Log c.action _ _ (record s { latest_observation = some c.observation }) q.5 l)
accepted-Log (verify p) s h l = elim (Result-cases (verification_state p s).1) [
  | inr (e, g) ↦ ground (arith, Effects.record_verification_err p s e g)
  | inl (st, g) ↦
      let (r, k, _, _, _, c) = Effects.verification_state_ok p s st g in
      rw (Effects.record_verification_lem p s st r g k) (transition-Log p.action _ _ s c l)
]
accepted-Log (lose_outcome a reason) s h l =
    let q = Effects.mark_outcome_unknown_ok a reason s h in rw q.3 (transition-Log a _ _ s q.4 l)
accepted-Log (report_progress a detail) s h l =
    let q = Effects.record_progress_ok a detail s h in rw q.3 (publish-Log _ s q.4 l)
accepted-Log (verify_goal p) s h l = elim (Result-cases (record_goal_verification p s).1) [
  | inr (e, g) ↦ ground arith
  | inl (b, g) ↦
      let q = Effects.record_goal_verification_ok p s b g in rw (q.4, g) (publish-Log _ _ q.5 l)
]

-- Every command keeps the log: the events that it holds are numbered without a gap up to the last
-- one published, they are 1024 at most, and an event is missing only from a full log.
pub perform-Log : (c : Command) (s : ExecutionRun) → RunLog s → RunLog (perform c s).0
perform-Log c s l = elim (Result-cases (perform c s).1) [
  | inl (u, h) ↦ accepted-Log c s h l
  | inr (e, h) ↦ rw (perform_atomic c s e h) l
]

new-Log :
    (run_id plan_id : Uuid) (plan : ExecutionPlan) (goal : List GoalAspect)
    → RunLog (new run_id plan_id plan goal)
unfolding new
new-Log run_id plan_id plan goal = record {
  first = 1;
  numbered = refl;
  positive = omega arith;
  whole = inl refl;
  bounded = omega arith;
  capped = omega arith;
}

commands-Log : (cs : List Command) (s : ExecutionRun) → RunLog s → RunLog (perform_all cs s)
unfolding perform_all
commands-Log [] s l = l
commands-Log (c ∷ cs) s l = commands-Log cs (perform c s).0 (perform-Log c s l)

-- The log of every run that commands make of a new run numbers its events without a gap up to the
-- last one published, holds 1024 of them at most, and misses an event only when it is full.
pub perform_all-Log :
    (cs : List Command) (run_id plan_id : Uuid) (plan : ExecutionPlan) (goal : List GoalAspect)
    → RunLog (perform_all cs (new run_id plan_id plan goal))
perform_all-Log cs run_id plan_id plan goal =
    commands-Log cs (new run_id plan_id plan goal) (new-Log run_id plan_id plan goal)
