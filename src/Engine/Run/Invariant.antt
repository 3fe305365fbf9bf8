-- ===== src/Engine/Run/Invariant.antt =====
-- storage-engine/src/execution.rs: what holds of every run between two commands.
use native.Mathlib.Decide.{ℕ_discrete}
use mathlib.Core.List.{Memᴰ}
use mathlib.Core.List.Memᴰ
use mathlib.Core.Option
use pdisks.Base.{
  ℕ, zero, suc, ◌≡◌, ◌≢◌, ◌⊎◌, inl, inr, refl, sym, ap, ◌∙◌, subst, List, [], ◌∷◌, Bool, true,
  false, none, some, ok, arith, any, all, get_elem?, Result-cases, Option-cases, any-get_elem?,
  all-get_elem?, nat_eq,
}
use pdisks.Core.Block.{Uuid}
use pdisks.Engine.Plan.{ActionId, ActionDependency, ExecutionPlan, PlannedAction}
use pdisks.Engine.Run.Defs.{
  ActionRunState, waiting, checking, admitted, running, verifying, verified, failed,
  outcome_unknown, same_state, is_active, ExecutionRun, GoalAspect,
}
use pdisks.Engine.Run.Methods.{check_predecessors, new, fresh_actions}
use pdisks.Engine.Run.Command.{Command, perform, perform_atomic, perform_all}
use pdisks.Engine.Run.Lifecycle.{
  state_at, ◌⟶◌, start, hold, accept, refuse, launch, abort, finish, break, lose, confirm,
  contradict, doubt, Same, Moved, Startable, Effect, moved, unmoved, judged, perform-Effect,
}

pub record Inv (s : ExecutionRun) : Type 0 where
  -- At most one action is active.
  pub serial :
      (i j : ActionId) (x y : ActionRunState)
      → state_at s i ≡ some x
      → state_at s j ≡ some y
      → is_active x ≡ true
      → is_active y ≡ true
      → i ≡ j
  -- An action that has left `waiting` has verified predecessors.
  pub ordered :
      (d : ActionDependency) (x : ActionRunState)
      → Memᴰ d s.plan.dependencies
      → state_at s d.after ≡ some x
      → x ≢ waiting
      → state_at s d.before ≡ some verified
  -- A goal report is there only if every action is verified.
  pub complete :
      (i : ActionId) (x : ActionRunState)
      → s.goal_verification ≢ none
      → state_at s i ≡ some x
      → x ≡ verified

pub source-ne-verified : {x y : ActionRunState} → x ⟶ y → x ≢ verified
source-ne-verified start = λ e. cc
source-ne-verified hold = λ e. cc
source-ne-verified accept = λ e. cc
source-ne-verified refuse = λ e. cc
source-ne-verified launch = λ e. cc
source-ne-verified abort = λ e. cc
source-ne-verified finish = λ e. cc
source-ne-verified break = λ e. cc
source-ne-verified lose = λ e. cc
source-ne-verified confirm = λ e. cc
source-ne-verified contradict = λ e. cc
source-ne-verified doubt = λ e. cc

pub active_source :
    {x y : ActionRunState} → x ⟶ y → is_active y ≡ true → (x ≡ waiting) ⊎ (is_active x ≡ true)
active_source start h = inl refl
active_source hold h = inr refl
active_source accept h = inr refl
active_source refuse h = inr refl
active_source launch h = inr refl
active_source abort h = inr refl
active_source finish h = inr refl
active_source break h = inr refl
active_source lose h = inr refl
active_source confirm h = inr refl
active_source contradict h = inr refl
active_source doubt h = inr refl

pub target-ne-waiting : {x y : ActionRunState} → x ⟶ y → y ≢ waiting
target-ne-waiting start = λ e. cc
target-ne-waiting hold = λ e. cc
target-ne-waiting accept = λ e. cc
target-ne-waiting refuse = λ e. cc
target-ne-waiting launch = λ e. cc
target-ne-waiting abort = λ e. cc
target-ne-waiting finish = λ e. cc
target-ne-waiting break = λ e. cc
target-ne-waiting lose = λ e. cc
target-ne-waiting confirm = λ e. cc
target-ne-waiting contradict = λ e. cc
target-ne-waiting doubt = λ e. cc

-- A test that no action passes fails at each.
pub state_at-any :
    (p : ActionRunState → Bool) (s : ExecutionRun) (i : ActionId) (x : ActionRunState)
    → any (λ run. p run.state) s.actions ≡ false
    → state_at s i ≡ some x
    → p x ≡ false
state_at-any p s i x h e = elim (Option-cases (get_elem? s.actions i)) [
  | inl n ↦ ground arith
  | inr (r, g) ↦ ground (arith, any-get_elem? (λ run. p run.state) s.actions i r h g)
]

state_at-all :
    (s : ExecutionRun) (i : ActionId) (x : ActionRunState)
    → all (λ run. same_state run.state verified) s.actions ≡ true
    → state_at s i ≡ some x
    → x ≡ verified
state_at-all s i x h e = elim (Option-cases (get_elem? s.actions i)) [
  | inl n ↦ ground arith
  | inr (r, g) ↦
      ground (arith, all-get_elem? (λ run. same_state run.state verified) s.actions i r h g)
]

check_predecessors_ok :
    (a : ActionId) (edges : List ActionDependency) (s : ExecutionRun) (d : ActionDependency)
    → (check_predecessors a edges s).1 ≡ ok tt
    → Memᴰ d edges
    → d.after ≡ a
    → state_at s d.before ≡ some verified
unfolding check_predecessors
check_predecessors_ok a [] s d h m e = absurd (Memᴰ.not-nil m)
check_predecessors_ok a (x ∷ xs) s d h m e = elim (Memᴰ.cases_cons m) [
  | inl q ↦
      let q' = ap (λ (z : ActionDependency). z.after) q in
      let q'' = ap (λ (z : ActionDependency). z.before) q in rw q'' (ground arith)
  | inr t ↦ check_predecessors_ok a xs s d (ground arith) t e
]

some_inj : (x y : ActionRunState) → some x ≡ some y → x ≡ y
some_inj x y e = ground arith

waiting_or_not : (x : ActionRunState) → (x ≡ waiting) ⊎ (x ≢ waiting)
waiting_or_not waiting = inl refl
waiting_or_not checking = inr (λ e. cc)
waiting_or_not admitted = inr (λ e. cc)
waiting_or_not running = inr (λ e. cc)
waiting_or_not verifying = inr (λ e. cc)
waiting_or_not verified = inr (λ e. cc)
waiting_or_not failed = inr (λ e. cc)
waiting_or_not outcome_unknown = inr (λ e. cc)

module _ {s t : ExecutionRun} {a : ActionId} {x y : ActionRunState} (v : Inv s)
    (m : Moved s t a x y) (edge : x ⟶ y) (go : x ≡ waiting → Startable s a) where
  moved_complete :
      (i : ActionId) (z : ActionRunState)
      → t.goal_verification ≢ none
      → state_at t i ≡ some z
      → z ≡ verified
  moved_complete i z n e =
      absurd (source-ne-verified edge (v.complete a x (λ q. n (m.goal ∙ q)) m.before))

  before_ne : (i : ActionId) → state_at s i ≡ some verified → i ≢ a
  before_ne i e q =
      source-ne-verified edge
        (some_inj x verified (sym m.before ∙ (subst (λ k. state_at s k ≡ some verified) q e)))

  unmoved_at :
      (i : ActionId) (z : ActionRunState) → i ≢ a → state_at t i ≡ some z → state_at s i ≡ some z
  unmoved_at i z n e = sym (m.others i n) ∙ e

  moved_at : (i : ActionId) (z : ActionRunState) → i ≡ a → state_at t i ≡ some z → z ≡ y
  moved_at i z q e = some_inj z y (sym e ∙ ap (state_at t) q ∙ m.after)

  ordered_before :
      (d : ActionDependency) (z : ActionRunState)
      → Memᴰ d s.plan.dependencies
      → state_at t d.after ≡ some z
      → z ≢ waiting
      → state_at s d.before ≡ some verified
  ordered_before d z mem e n = elim (ℕ_discrete d.after a) [
    | no q ↦ v.ordered d z mem (unmoved_at d.after z q e) n
    | yes q ↦ elim (waiting_or_not x) [
      | inl w ↦ check_predecessors_ok a s.plan.dependencies s d (go w).ready mem q
      | inr w ↦ v.ordered d x mem (ap (state_at s) q ∙ m.before) w
    ]
  ]

  moved-ordered :
      (d : ActionDependency) (z : ActionRunState)
      → Memᴰ d t.plan.dependencies
      → state_at t d.after ≡ some z
      → z ≢ waiting
      → state_at t d.before ≡ some verified
  moved-ordered d z mem e n =
      let q = ordered_before d z (subst (λ p. Memᴰ d p.dependencies) m.plan mem) e n in
      m.others d.before (before_ne d.before q) ∙ q

  -- Nothing else is active where `y` is.
  alone :
      (j : ActionId) (w : ActionRunState)
      → is_active y ≡ true
      → j ≢ a
      → state_at s j ≡ some w
      → is_active w ≡ true
      → ⊥
  alone j w hy n e hw = elim (active_source edge hy) [
    | inl q ↦ let h = state_at-any is_active s j w (go q).idle e in cc
    | inr hx ↦ n (v.serial j a w x e m.before hw hx)
  ]

  moved-serial :
      (i j : ActionId) (z w : ActionRunState)
      → state_at t i ≡ some z
      → state_at t j ≡ some w
      → is_active z ≡ true
      → is_active w ≡ true
      → i ≡ j
  moved-serial i j z w ei ej hz hw = elim (ℕ_discrete i a) [
    | yes p ↦ elim (ℕ_discrete j a) [
      | yes q ↦ p ∙ sym q
      | no q ↦ absurd (
          alone j w (subst (λ k. is_active k ≡ true) (moved_at i z p ei) hz) q (unmoved_at j w q ej)
            hw)
    ]
    | no p ↦ elim (ℕ_discrete j a) [
      | yes q ↦ absurd (
          alone i z (subst (λ k. is_active k ≡ true) (moved_at j w q ej) hw) p (unmoved_at i z p ei)
            hz)
      | no q ↦ v.serial i j z w (unmoved_at i z p ei) (unmoved_at j w q ej) hz hw
    ]
  ]

  moved-Inv : Inv t
  moved-Inv = record { serial = moved-serial; ordered = moved-ordered; complete = moved_complete }

Same-serial-ordered :
    (s t : ExecutionRun)
    → Inv s
    → Same s t
    → ((i : ActionId) (x : ActionRunState)
        → t.goal_verification ≢ none
        → state_at s i ≡ some x
        → x ≡ verified)
    → Inv t
Same-serial-ordered s t v same g = record {
  serial = λ i j x y ei ej. v.serial i j x y (sym (same.states i) ∙ ei) (sym (same.states j) ∙ ej);
  ordered = λ d x m e n.
      same.states d.before
      ∙ v.ordered d x (subst (λ p. Memᴰ d p.dependencies) same.plan m)
          (sym (same.states d.after) ∙ e) n;
  complete = λ i x n e. g i x n (sym (same.states i) ∙ e);
}

Effect-Inv : (s t : ExecutionRun) → Inv s → Effect s t → Inv t
Effect-Inv s t v (moved a x y m edge go) = moved-Inv v m edge go
Effect-Inv s t v (unmoved same g) =
    Same-serial-ordered s t v same (λ i x n e. v.complete i x (λ q. n (g ∙ q)) e)
Effect-Inv s t v (judged same done) =
    Same-serial-ordered s t v same (λ i x n e. state_at-all s i x done e)

-- Every command, successful or not, keeps the invariant: one active action at most, no action past
-- `waiting` before its predecessors are verified, and no goal report before every action is verified.
pub perform-Inv : (c : Command) (s : ExecutionRun) → Inv s → Inv (perform c s).0
perform-Inv c s v = elim (Result-cases (perform c s).1) [
  | inl (u, h) ↦ Effect-Inv s (perform c s).0 v (perform-Effect c s h)
  | inr (e, h) ↦ rw (perform_atomic c s e h) v
]

perform_all_from-Inv : (cs : List Command) (s : ExecutionRun) → Inv s → Inv (perform_all cs s)
unfolding perform_all
perform_all_from-Inv [] s v = v
perform_all_from-Inv (c ∷ cs) s v = perform_all_from-Inv cs (perform c s).0 (perform-Inv c s v)

fresh_at :
    (xs : List PlannedAction) (i : ℕ) (x : ActionRunState)
    → Option.map (λ run. run.state) (get_elem? (fresh_actions xs) i) ≡ some x
    → x ≡ waiting
fresh_at [] i x e = ground arith
fresh_at (a ∷ xs) zero x e = ground arith
fresh_at (a ∷ xs) (suc i) x e = fresh_at xs i x e

-- In a new run every action is waiting.
state_at-new :
    (run_id plan_id : Uuid) (plan : ExecutionPlan) (goal : List GoalAspect) (i : ActionId)
    (x : ActionRunState)
    → state_at (new run_id plan_id plan goal) i ≡ some x
    → x ≡ waiting
unfolding new
state_at-new r p plan goal i x e = fresh_at plan.actions i x e

new-Inv :
    (run_id plan_id : Uuid) (plan : ExecutionPlan) (goal : List GoalAspect)
    → Inv (new run_id plan_id plan goal)
unfolding new
new-Inv r p plan goal = record {
  serial = λ i j x y ei ej hx hy. let q = state_at-new r p plan goal i x ei in cc;
  ordered = λ d x m e n. absurd (n (state_at-new r p plan goal d.after x e));
  complete = λ i x n e. absurd (n refl);
}

-- Every run that commands make of a new run satisfies the invariant, whatever the plan.
pub perform_all-Inv :
    (cs : List Command) (run_id plan_id : Uuid) (plan : ExecutionPlan) (goal : List GoalAspect)
    → Inv (perform_all cs (new run_id plan_id plan goal))
perform_all-Inv cs r p plan goal =
    perform_all_from-Inv cs (new r p plan goal) (new-Inv r p plan goal)
