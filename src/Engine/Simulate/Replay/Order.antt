-- ===== src/Engine/Simulate/Replay/Order.antt =====
-- storage-engine/src/plan.rs: `ordered_actions` of an acyclic plan does not panic.
use mathlib.Core.List.{Memᴰ}
use pdisks.Base.{
  ℕ, zero, suc, ◌+◌, ◌≤◌, ◌<◌, ◌≡◌, refl, sym, ap, List, [], ◌∷◌, some, ok, arith, u32_max, length,
  get_elem?,
}
use pdisks.Engine.Plan.{ActionId, ExecutionPlan, PlannedAction}
use pdisks.Engine.Compose.Order.Counts.{InRange}
use pdisks.Engine.Compose.Order.Laws.{IsOrder, IsRank, topological_order_complete}
use pdisks.Engine.Simulate.Replay.{ordered_actions, select}

get_elem?-some :
    {A : Type 0} (xs : List A) (i : ℕ) → i < length xs → (a : A) × (get_elem? xs i ≡ some a)
get_elem?-some [] i h = absurd (omega arith)
get_elem?-some (x ∷ xs) zero h = (x, refl)
get_elem?-some (x ∷ xs) (suc i) h = get_elem?-some xs i (omega arith)

-- Each position of the order gives the action of its identity.
abbrev pub Follows : List PlannedAction → List ActionId → List PlannedAction → Type 0
Follows actions order ordered =
    (length ordered ≡ length order)
    × ((i : ℕ) (id : ActionId)
        → get_elem? order i ≡ some id
        → get_elem? ordered i ≡ get_elem? actions id)

follow_cons :
    (actions : List PlannedAction) (id : ActionId) (ids : List ActionId) (a : PlannedAction)
    (rest : List PlannedAction)
    → get_elem? actions id ≡ some a
    → ((i : ℕ) (x : ActionId) → get_elem? ids i ≡ some x → get_elem? rest i ≡ get_elem? actions x)
    → (i : ℕ) (x : ActionId) → get_elem? (id ∷ ids) i ≡ some x
    → get_elem? (a ∷ rest) i ≡ get_elem? actions x
follow_cons actions id ids a rest found follows zero x k =
    let same : id ≡ x = ground arith in rw (← same) (sym found)
follow_cons actions id ids a rest found follows (suc i) x k = follows i x k

select-Follows :
    (actions : List PlannedAction) (order : List ActionId)
    → ((id : ActionId) → Memᴰ id order → id < length actions)
    → (ordered : List PlannedAction) × (select actions order ≡ ok ordered)
      × Follows actions order ordered
unfolding select
select-Follows actions [] h = ([], refl, (refl, λ i id k. absurd (ground arith)))
select-Follows actions (id ∷ ids) h =
    let (a, found) = get_elem?-some actions id (h id (Memᴰ.head refl)) in
    let (rest, selected, (len, follows)) = select-Follows actions ids (λ x m. h x (Memᴰ.tail m)) in
    (
      a ∷ rest,
      rw (found, select, selected) refl,
      (ap suc len, follow_cons actions id ids a rest found follows),
    )

-- The actions of an acyclic plan always have an order: the code's panic on a plan that has none is not
-- reached when the dependencies name actions of the plan and follow a rank. The order takes each
-- identity of the plan once and behind what it depends on, and the ordered actions are those of these
-- identities, position by position.
pub ordered_actions_total :
    (plan : ExecutionPlan) (rank : ActionId → ℕ)
    → length plan.actions ≤ u32_max + 1
    → InRange (length plan.actions) plan.dependencies
    → IsRank rank plan.dependencies
    → (order : List ActionId) × (ordered : List PlannedAction) × (ordered_actions plan ≡ ok ordered)
      × IsOrder (length plan.actions) plan.dependencies order
      × Follows plan.actions order ordered
unfolding ordered_actions
ordered_actions_total plan rank small r k =
    let (order, e, o) =
      topological_order_complete (length plan.actions) plan.dependencies rank small r k in
    let (ordered, selected, follows) = select-Follows plan.actions order o.bounded in
    (order, ordered, rw (e, ordered_actions) selected, o, follows)
