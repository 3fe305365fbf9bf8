-- ===== src/Engine/Run/Backing.antt =====
-- storage-engine/src/execution.rs: the evidence behind the state of an action.
pub mod Commands
pub mod Runs
use native.Mathlib.Decide.{ℕ_discrete}
use pdisks.Base.{
  ℕ, ◌≡◌, ◌≢◌, ◌⊎◌, inl, inr, refl, sym, ap, ◌∙◌, subst, List, [], ◌∷◌, Bool, true, false, none,
  some, ok, err, arith, any, all, get_elem?, set, get_elem?-set_self, get_elem?-set_ne,
  lt_of_get_elem?, Result-cases, Bool-cases, Option-cases, if◌then◌else◌,
}
use pdisks.Core.Block.{Uuid}
use pdisks.Provider.Contract.{prerequisite_eq, postcondition_eq}
use pdisks.Engine.Plan.{ActionId, ExecutionPlan, PlannedAction}
use pdisks.Engine.Run.Defs.{
  ActionRunState, waiting, checking, admitted, running, verifying, verified, failed,
  outcome_unknown, ActionRun, ExecutionRun, AdmissionReport, VerificationReport, BackendOutcome,
  RunEventKind, GoalAspect, succeeded, failed_with, unknown_outcome, is_satisfied, action_state,
  same_state, admission,
}
use pdisks.Engine.Run.Evidence.{checks_cover, evidence_state, statuses}
use pdisks.Engine.Run.Evidence.Laws.{evidence_state_correct, is_violated}
use pdisks.Engine.Run.Methods.{
  new, fresh_actions, resources_held, admission_state, verification_state, outcome_state,
  append_event,
}
use pdisks.Engine.Run.Effects.{
  transition, after_admission, admission_state_ok, verification_state_ok,
}
use pdisks.Engine.Run.Command.{
  Command, begin, admit, dispatch, fail_before_dispatch, complete, verify, lose_outcome,
  report_progress, verify_goal, perform, perform_all, perform_atomic,
}

-- The report attests each prerequisite of the action and nothing else, all of it satisfied, and
-- holds the resources that the action needs.
abbrev pub Sufficient : ExecutionPlan → ActionId → AdmissionReport → Type 0
Sufficient plan a p =
    (x : PlannedAction) × (get_elem? plan.actions a ≡ some x)
    × (checks_cover x.informational_contract.prerequisites p.checks ≡ true)
    × (resources_held x.informational_contract.affected_resources p.held_resources ≡ true)
    × (all is_satisfied (p.applicability ∷ statuses p.checks) ≡ true)

-- The report attests each postcondition of the action and nothing else, all of it satisfied.
abbrev pub Confirmed : ExecutionPlan → ActionId → VerificationReport → Type 0
Confirmed plan a p =
    (x : PlannedAction) × (get_elem? plan.actions a ≡ some x)
    × (checks_cover x.informational_contract.postconditions p.checks ≡ true)
    × (all is_satisfied (statuses p.checks) ≡ true)

abbrev pub is_past_admission : ActionRunState → Bool
is_past_admission admitted = true
is_past_admission running = true
is_past_admission verifying = true
is_past_admission verified = true
is_past_admission _ = false

pub record Backed (plan : ExecutionPlan) (a : ActionId) (r : ActionRun) : Type 0 where
  pub by_admission :
      is_past_admission r.state ≡ true
      → (p : AdmissionReport) × (r.admission ≡ some p) × Sufficient plan a p
  pub by_verification :
      r.state ≡ verified → (p : VerificationReport) × (r.verification ≡ some p) × Confirmed plan a p

abbrev pub AllBacked : ExecutionRun → Type 0
AllBacked s = (i : ActionId) (r : ActionRun) → get_elem? s.actions i ≡ some r → Backed s.plan i r

-- The result of the evidence is the satisfied state only if all of it is satisfied.
evidence_satisfied :
    (xs : List _) (x u : ActionRunState)
    → evidence_state xs x u ≡ x
    → x ≢ u
    → x ≢ failed
    → all is_satisfied xs ≡ true
evidence_satisfied xs x u h n f =
    let (bad, good, unsure) = evidence_state_correct xs x u in
    elim (Bool-cases (all is_satisfied xs)) [
      | inl q ↦ q
      | inr q ↦ elim (Bool-cases (any is_violated xs)) [
        | inl v ↦ absurd (f (sym h ∙ bad v))
        | inr v ↦ absurd (n (sym h ∙ unsure v q))
      ]
    ]

admission_planned :
    (p : AdmissionReport) (s : ExecutionRun) {st : ActionRunState}
    → (admission_state p s).1 ≡ ok st
    → get_elem? s.plan.actions p.action ≢ none
unfolding admission_state
admission_planned p s h = λ e. ground arith

admission_covers :
    (p : AdmissionReport) (s : ExecutionRun) (x : PlannedAction) {st : ActionRunState}
    → get_elem? s.plan.actions p.action ≡ some x
    → (admission_state p s).1 ≡ ok st
    → (checks_cover x.informational_contract.prerequisites p.checks ≡ true)
      × (resources_held x.informational_contract.affected_resources p.held_resources ≡ true)
unfolding admission_state
admission_covers p s x e h = ground arith

admission_covered :
    (p : AdmissionReport) (s : ExecutionRun) {st : ActionRunState}
    → (admission_state p s).1 ≡ ok st
    → (x : PlannedAction) × (get_elem? s.plan.actions p.action ≡ some x)
      × (checks_cover x.informational_contract.prerequisites p.checks ≡ true)
      × (resources_held x.informational_contract.affected_resources p.held_resources ≡ true)
admission_covered p s h = elim (Option-cases (get_elem? s.plan.actions p.action)) [
  | inl e ↦ absurd (admission_planned p s h e)
  | inr (x, e) ↦ let (c, held) = admission_covers p s x e h in (x, e, c, held)
]

pub admission_state-Sufficient :
    (p : AdmissionReport) (s : ExecutionRun)
    → (admission_state p s).1 ≡ ok admitted
    → Sufficient s.plan p.action p
admission_state-Sufficient p s h =
    let (x, q, c, held) = admission_covered p s h in
    let (r, own, before, room, more, e) = admission_state_ok p s admitted h in
    (
      x,
      q,
      c,
      held,
      evidence_satisfied (p.applicability ∷ statuses p.checks) admitted checking (sym e) (λ k. cc)
          (λ k. cc),
    )

verification_planned :
    (p : VerificationReport) (s : ExecutionRun) {st : ActionRunState}
    → (verification_state p s).1 ≡ ok st
    → get_elem? s.plan.actions p.action ≢ none
unfolding verification_state
verification_planned p s h = λ e. ground arith

verification_covers :
    (p : VerificationReport) (s : ExecutionRun) (x : PlannedAction) {st : ActionRunState}
    → get_elem? s.plan.actions p.action ≡ some x
    → (verification_state p s).1 ≡ ok st
    → (checks_cover x.informational_contract.postconditions p.checks ≡ true)
unfolding verification_state
verification_covers p s x e h = ground arith

verification_covered :
    (p : VerificationReport) (s : ExecutionRun) {st : ActionRunState}
    → (verification_state p s).1 ≡ ok st
    → (x : PlannedAction) × (get_elem? s.plan.actions p.action ≡ some x)
      × (checks_cover x.informational_contract.postconditions p.checks ≡ true)
verification_covered p s h = elim (Option-cases (get_elem? s.plan.actions p.action)) [
  | inl e ↦ absurd (verification_planned p s h e)
  | inr (x, e) ↦ (x, e, verification_covers p s x e h)
]

pub verification_state-Confirmed :
    (p : VerificationReport) (s : ExecutionRun)
    → (verification_state p s).1 ≡ ok verified
    → Confirmed s.plan p.action p
verification_state-Confirmed p s h =
    let (x, q, c) = verification_covered p s h in
    let (r, own, before, same, e, room) = verification_state_ok p s verified h in
    (
      x,
      q,
      c,
      evidence_satisfied (statuses p.checks) verified outcome_unknown (sym e) (λ k. cc) (λ k. cc),
    )

-- A state that needs no evidence.
pub unbacked :
    (plan : ExecutionPlan) (a : ActionId) (r : ActionRun)
    → is_past_admission r.state ≡ false
    → Backed plan a r
unbacked plan a r h = record {
  by_admission = λ e. cc;
  by_verification = λ e. let k = ap is_past_admission e in cc;
}

-- One more step of an action that has been admitted.
pub advance :
    (plan : ExecutionPlan) (a : ActionId) (r r' : ActionRun)
    → Backed plan a r
    → is_past_admission r.state ≡ true
    → r'.admission ≡ r.admission
    → r'.state ≢ verified
    → Backed plan a r'
advance plan a r r' b h e n = record {
  by_admission = λ _. let (p, q, c) = b.by_admission h in (p, e ∙ q, c);
  by_verification = λ v. absurd (n v);
}

pub set-AllBacked :
    (s t : ExecutionRun) (a : ActionId) (r r' : ActionRun)
    → AllBacked s
    → get_elem? s.actions a ≡ some r
    → t.actions ≡ set s.actions a r'
    → t.plan ≡ s.plan
    → Backed s.plan a r'
    → AllBacked t
set-AllBacked s t a r r' all_backed h e p b i x g = elim (ℕ_discrete a i) [
  | yes q ↦
      let own = get_elem?-set_self s.actions a r' (lt_of_get_elem? s.actions a r h) in
      let same : r' ≡ x = ground arith in rw (p, ← same, ← q) b
  | no n ↦ rw p (
      all_backed i x
        (sym (get_elem?-set_ne s.actions a i r' n) ∙ sym (ap (λ l. get_elem? l i) e) ∙ g))
]

pub transition-AllBacked :
    (s t : ExecutionRun) (a : ActionId) (r r' : ActionRun) (k : RunEventKind)
    → AllBacked s
    → get_elem? s.actions a ≡ some r
    → t.actions ≡ s.actions
    → t.plan ≡ s.plan
    → Backed s.plan a r'
    → AllBacked (transition a r' k t)
unfolding transition append_event
transition-AllBacked s t a r r' k all_backed h e p b =
    set-AllBacked s (transition a r' k t) a r r' all_backed h (rw e refl) p b
