-- ===== src/Engine/Compose.antt =====
-- storage-engine/src/compose.rs: the errors of composition that the modelled functions return, and
-- the edges of the plan.
pub mod Order
pub mod Conflicts
mod Examples
use pdisks.Base.{
  List, [], ◌∷◌, ◌++◌, Bool, true, false, ◌&&◌, ◌||◌, Option, none, some, Result, ok, err, ◌==◌,
  any, nat_eq, if◌then◌else◌,
}
use pdisks.Provider.Contract.{ActionResource}
use pdisks.Provider.Fragment.{DependencyReason, LocalActionId}
use pdisks.Engine.Plan.{ActionId, ActionDependency, FragmentId}

pub data CompositionError : Type 0 where
  plan_too_large : CompositionError
  fragment_has_errors : FragmentId → CompositionError
  duplicate_local_action : (fragment : FragmentId) (action : LocalActionId) → CompositionError
  unknown_local_dependency : FragmentId → CompositionError
  unknown_requirement_action : (fragment : FragmentId) (action : LocalActionId) → CompositionError
  self_dependency : ActionId → CompositionError
  dependency_cycle : CompositionError
  ambiguous_resource_order :
      (first second : ActionId) (resource : ActionResource) → CompositionError

-- An error of the source, or the panic of an index out of bounds or of a subtraction below 0.
pub data Halt : Type 0 where
  failure : CompositionError → Halt
  panicked : Halt

unfoldable pub add_dependency :
    List ActionDependency
    → ActionId
    → ActionId
    → DependencyReason
    → Result CompositionError (List ActionDependency)
add_dependency dependencies before after reason =
    if before == after
    then err (self_dependency before)
    else if any (λ d. d.before == before && d.after == after) dependencies
    then ok dependencies
    else ok (dependencies ++ record { before = before; after = after; reason = reason } ∷ [])
