-- ===== src/Engine/Run/Absorption.antt =====
-- storage-engine/src/execution.rs: final states, the stopped run and the verified run.
use native.Mathlib.Decide.{ℕ_discrete}
use pdisks.Base.{
  ◌≡◌, ◌⊎◌, inl, inr, refl, sym, ap, ◌∙◌, List, [], ◌∷◌, Bool, true, false, some, arith, any,
  Result-cases, Bool-cases,
}
use pdisks.Core.Block.{Uuid}
use pdisks.Engine.Plan.{ActionId, ExecutionPlan}
use pdisks.Engine.Run.Defs.{
  ActionRunState, waiting, verified, failed, outcome_unknown, is_stopped, is_active, ExecutionRun,
  GoalAspect,
}
use pdisks.Engine.Run.Methods.{new}
use pdisks.Engine.Run.Views.{is_verified}
use pdisks.Engine.Run.Command.{Command, perform, perform_atomic, perform_all}
use pdisks.Engine.Run.Lifecycle.{
  state_at, ◌⟶◌, start, hold, accept, refuse, launch, abort, finish, break, lose, confirm,
  contradict, doubt, Effect, moved, unmoved, judged, perform-Effect,
}
use pdisks.Engine.Run.Invariant.{perform_all-Inv, state_at-any}

-- `verified`, `failed` and `outcome_unknown`.
abbrev pub is_final : ActionRunState → Bool
is_final verified = true
is_final failed = true
is_final outcome_unknown = true
is_final _ = false

source_not_final : {x y : ActionRunState} → x ⟶ y → is_final x ≡ false
source_not_final start = refl
source_not_final hold = refl
source_not_final accept = refl
source_not_final refuse = refl
source_not_final launch = refl
source_not_final abort = refl
source_not_final finish = refl
source_not_final break = refl
source_not_final lose = refl
source_not_final confirm = refl
source_not_final contradict = refl
source_not_final doubt = refl

some_inj : (x y : ActionRunState) → some x ≡ some y → x ≡ y
some_inj x y e = ground arith

Effect-final :
    (s t : ExecutionRun) (i : ActionId) (x : ActionRunState)
    → Effect s t
    → state_at s i ≡ some x
    → is_final x ≡ true
    → state_at t i ≡ some x
Effect-final s t i x (moved a y z m edge go) e f = elim (ℕ_discrete i a) [
  | no n ↦ m.others i n ∙ e
  | yes q ↦
      let h = source_not_final edge in
      let k = some_inj x y (sym e ∙ ap (state_at s) q ∙ m.before) in cc
]
Effect-final s t i x (unmoved same g) e f = same.states i ∙ e
Effect-final s t i x (judged same done) e f = same.states i ∙ e

perform-final :
    (c : Command) (s : ExecutionRun) (i : ActionId) (x : ActionRunState)
    → state_at s i ≡ some x
    → is_final x ≡ true
    → state_at (perform c s).0 i ≡ some x
perform-final c s i x e f = elim (Result-cases (perform c s).1) [
  | inl (u, h) ↦ Effect-final s (perform c s).0 i x (perform-Effect c s h) e f
  | inr (q, h) ↦ rw (perform_atomic c s q h) e
]

-- An action that is verified, failed or of unknown outcome stays so under any commands: nothing is
-- retried within a run.
pub perform_all-final :
    (cs : List Command) (s : ExecutionRun) (i : ActionId) (x : ActionRunState)
    → state_at s i ≡ some x
    → is_final x ≡ true
    → state_at (perform_all cs s) i ≡ some x
unfolding perform_all
perform_all-final [] s i x e f = e
perform_all-final (c ∷ cs) s i x e f =
    perform_all-final cs (perform c s).0 i x (perform-final c s i x e f) f

-- Some action has failed or is of unknown outcome.
abbrev pub Stopped : ExecutionRun → Type 0
Stopped s = (k : ActionId) × (x : ActionRunState) × (state_at s k ≡ some x) × (is_stopped x ≡ true)

Stopped-any : (s : ExecutionRun) → Stopped s → any (λ run. is_stopped run.state) s.actions ≡ true
Stopped-any s (k, x, e, h) = elim (Bool-cases (any (λ run. is_stopped run.state) s.actions)) [
  | inl q ↦ q
  | inr q ↦ let f = state_at-any is_stopped s k x q e in cc
]

source_cases : {x y : ActionRunState} → x ⟶ y → (x ≡ waiting) ⊎ (is_active x ≡ true)
source_cases start = inl refl
source_cases hold = inr refl
source_cases accept = inr refl
source_cases refuse = inr refl
source_cases launch = inr refl
source_cases abort = inr refl
source_cases finish = inr refl
source_cases break = inr refl
source_cases lose = inr refl
source_cases confirm = inr refl
source_cases contradict = inr refl
source_cases doubt = inr refl

Effect-waiting :
    (s t : ExecutionRun) (i : ActionId)
    → Stopped s
    → Effect s t
    → state_at s i ≡ some waiting
    → state_at t i ≡ some waiting
Effect-waiting s t i stop (moved a x y m edge go) e = elim (ℕ_discrete i a) [
  | no n ↦ m.others i n ∙ e
  | yes q ↦
      let k = some_inj waiting x (sym e ∙ ap (state_at s) q ∙ m.before) in
      let h = (go (sym k)).unstopped in let h' = Stopped-any s stop in cc
]
Effect-waiting s t i stop (unmoved same g) e = same.states i ∙ e
Effect-waiting s t i stop (judged same done) e = same.states i ∙ e

stopped_final : (x : ActionRunState) → is_stopped x ≡ true → is_final x ≡ true
stopped_final x h = ground arith

-- Once an action has failed or is of unknown outcome, no commands start an action that waits.
pub Stopped-starts_nothing :
    (cs : List Command) (s : ExecutionRun) (i : ActionId)
    → Stopped s
    → state_at s i ≡ some waiting
    → state_at (perform_all cs s) i ≡ some waiting
unfolding perform_all
Stopped-starts_nothing [] s i stop e = e
Stopped-starts_nothing (c ∷ cs) s i (k, x, g, h) e =
    Stopped-starts_nothing cs (perform c s).0 i
      (k, x, perform-final c s k x g (stopped_final x h), h)
      (elim (Result-cases (perform c s).1) [
        | inl (u, q) ↦ Effect-waiting s (perform c s).0 i (k, x, g, h) (perform-Effect c s q) e
        | inr (z, q) ↦ rw (perform_atomic c s z q) e
      ])

-- A run that reports verified success has verified every action of its plan, whatever commands led
-- there.
pub is_verified-verified :
    (cs : List Command) (run_id plan_id : Uuid) (plan : ExecutionPlan) (goal : List GoalAspect)
    (i : ActionId) (x : ActionRunState)
    → is_verified (perform_all cs (new run_id plan_id plan goal)) ≡ true
    → state_at (perform_all cs (new run_id plan_id plan goal)) i ≡ some x
    → x ≡ verified
unfolding is_verified
is_verified-verified cs r p plan goal i x h e =
    (perform_all-Inv cs r p plan goal).complete i x (λ q. let f : false ≡ true = rw q at h in cc) e
