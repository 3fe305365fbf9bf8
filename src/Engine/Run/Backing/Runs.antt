-- ===== src/Engine/Run/Backing/Runs.antt =====
-- storage-engine/src/execution.rs: the evidence behind the states in every run.
use pdisks.Base.{zero, suc, ◌≡◌, inl, inr, List, [], ◌∷◌, some, ok, arith, get_elem?, Result-cases}
use pdisks.Core.Block.{Uuid}
use pdisks.Engine.Plan.{ActionId, ExecutionPlan, PlannedAction}
use pdisks.Engine.Run.Defs.{ActionRun, ExecutionRun, GoalAspect}
use pdisks.Engine.Run.Methods.{new, fresh_actions}
use pdisks.Engine.Run.Command.{
  Command, begin, admit, dispatch, fail_before_dispatch, complete, verify, lose_outcome,
  report_progress, verify_goal, perform, perform_all, perform_atomic,
}
use pdisks.Engine.Run.Backing.{Backed, AllBacked, unbacked}
use pdisks.Engine.Run.Backing.Commands.{
  begin-AllBacked, admit-AllBacked, dispatch-AllBacked, fail-AllBacked, complete-AllBacked,
  verify-AllBacked, lose-AllBacked, progress-AllBacked, goal-AllBacked,
}

accepted-AllBacked :
    (c : Command) (s : ExecutionRun)
    → AllBacked s
    → (perform c s).1 ≡ ok tt
    → AllBacked (perform c s).0
accepted-AllBacked (begin a) s b h = begin-AllBacked a s b h
accepted-AllBacked (admit p) s b h = admit-AllBacked p s b h
accepted-AllBacked (dispatch a) s b h = dispatch-AllBacked a s b h
accepted-AllBacked (fail_before_dispatch a x) s b h = fail-AllBacked a x s b h
accepted-AllBacked (complete c) s b h = complete-AllBacked c s b h
accepted-AllBacked (verify p) s b h = verify-AllBacked p s b h
accepted-AllBacked (lose_outcome a x) s b h = lose-AllBacked a x s b h
accepted-AllBacked (report_progress a d) s b h = progress-AllBacked a d s b h
accepted-AllBacked (verify_goal p) s b h = goal-AllBacked p s b h

-- Every command keeps the evidence.
perform-AllBacked : (c : Command) (s : ExecutionRun) → AllBacked s → AllBacked (perform c s).0
perform-AllBacked c s b = elim (Result-cases (perform c s).1) [
  | inr (e, h) ↦ rw (perform_atomic c s e h) b
  | inl (_, h) ↦ accepted-AllBacked c s b h
]

commands-AllBacked :
    (cs : List Command) (s : ExecutionRun) → AllBacked s → AllBacked (perform_all cs s)
unfolding perform_all
commands-AllBacked [] s b = b
commands-AllBacked (c ∷ cs) s b = commands-AllBacked cs (perform c s).0 (perform-AllBacked c s b)

fresh-Backed :
    (plan : ExecutionPlan) (xs : List PlannedAction) (i a : ActionId) (r : ActionRun)
    → get_elem? (fresh_actions xs) i ≡ some r
    → Backed plan a r
fresh-Backed plan [] i a r h = cc
fresh-Backed plan (x ∷ xs) zero a r h = unbacked plan a r (ground arith)
fresh-Backed plan (x ∷ xs) (suc i) a r h = fresh-Backed plan xs i a r h

-- In every run that methods make of a new run, an action that is admitted, dispatched or verified
-- has an admission report that attests exactly its prerequisites, all satisfied, on an applicable
-- action, and holds its resources; a verified action has a report that attests exactly its
-- postconditions, all satisfied.
pub perform_all-AllBacked :
    (cs : List Command) (run_id plan_id : Uuid) (plan : ExecutionPlan) (goal : List GoalAspect)
    → AllBacked (perform_all cs (new run_id plan_id plan goal))
unfolding new
perform_all-AllBacked cs run_id plan_id plan goal =
    commands-AllBacked cs (new run_id plan_id plan goal)
      (λ i r h. fresh-Backed plan plan.actions i i r h)
