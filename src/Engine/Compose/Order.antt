-- ===== src/Engine/Compose/Order.antt =====
-- storage-engine/src/compose.rs: `topological_order`. Each round of its `while` loop pushes one
-- action, so that the loop recurses on `action_count - order.len()`. `failure` is an error of the
-- source; an index out of bounds and a degree below 0 are `panicked`.
pub mod Counts
pub mod Loop
pub mod Laws
use pdisks.Base.{
  ℕ, zero, suc, ◌+◌, List, [], ◌∷◌, ◌++◌, Bool, true, false, not, ◌&&◌, Option, none, some, Result,
  ok, err, require, ok_or, ◌>>=◌, ◌>>◌, nat_beq, leb, u32_max, get_elem?, set, filter,
  if◌then◌else◌,
}
use pdisks.Engine.Plan.{ActionId, ActionDependency}
use pdisks.Engine.Compose.{Halt, failure, panicked, plan_too_large, dependency_cycle}

-- `vec![x; n]`
abbrev pub fill {ℓ} : {A : Type ℓ} → ℕ → A → List A
fill zero x = []
fill (suc n) x = x ∷ fill n x

-- `indegree[dependency.after] += 1` for each dependency.
unfoldable pub count_incoming : List ActionDependency → List ℕ → Result Halt (List ℕ)
count_incoming [] indegree = ok indegree
count_incoming (d ∷ ds) indegree = do
  degree ← ok_or (get_elem? indegree d.after) panicked
  count_incoming ds (set indegree d.after (degree + 1))

-- `find_map` over `indegree.iter().enumerate()`, from an index on.
unfoldable pub find_ready : ℕ → List Bool → List ℕ → Option ℕ
find_ready index [] degrees = none
find_ready index (e ∷ emitted) [] = none
find_ready index (e ∷ emitted) (degree ∷ degrees) =
    let later = find_ready (index + 1) emitted degrees in
    if not e && nat_beq degree 0 then some index else later

-- `degree - 1`
abbrev pub lower : ℕ → Result Halt ℕ
lower zero = err panicked
lower (suc n) = ok n

-- `indegree[dependency.after] -= 1` for each dependency.
unfoldable pub release : List ActionDependency → List ℕ → Result Halt (List ℕ)
release [] indegree = ok indegree
release (d ∷ ds) indegree = do
  degree ← ok_or (get_elem? indegree d.after) panicked
  degree' ← lower degree
  release ds (set indegree d.after degree')

unfoldable pub order_loop :
    ℕ
    → List ActionDependency
    → (indegree : List ℕ) (emitted : List Bool) (order : List ActionId)
    → Result Halt (List ActionId)
order_loop zero dependencies indegree emitted order = ok order
order_loop (suc left) dependencies indegree emitted order =
    ok_or (find_ready 0 emitted indegree) (failure dependency_cycle) >>= λ next.
    require (leb next u32_max) (failure plan_too_large)
    >> (release (filter (λ d. nat_beq d.before next) dependencies) indegree >>= λ indegree'.
        order_loop left dependencies indegree' (set emitted next true) (order ++ next ∷ []))

unfoldable pub topological_order :
    (action_count : ℕ) (dependencies : List ActionDependency) → Result Halt (List ActionId)
topological_order action_count dependencies =
    count_incoming dependencies (fill action_count 0) >>= λ indegree.
    order_loop action_count dependencies indegree (fill action_count false) []
