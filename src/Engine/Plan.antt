-- ===== src/Engine/Plan.antt =====
-- storage-engine/src/plan.rs: the immutable execution plan. Its identities wrap a u32.
use pdisks.Base.{ℕ, List}
use pdisks.Provider.Contract.{ActionContract}
use pdisks.Provider.Action.{ProviderAction}
use pdisks.Provider.Fragment.{DependencyReason, FragmentOrigin, LocalActionId}

abbrev pub ActionId : Type 0
ActionId = ℕ

abbrev pub FragmentId : Type 0
FragmentId = ℕ

pub record FragmentActionRef : Type 0 where
  pub fragment : FragmentId
  pub action : LocalActionId

pub record FragmentOrdering : Type 0 where
  pub before : FragmentActionRef
  pub after : FragmentActionRef
  pub reason : DependencyReason

pub record PlannedAction : Type 0 where
  pub id : ActionId
  pub operation : ProviderAction
  pub fragment : FragmentId
  pub local_id : LocalActionId
  pub origin : FragmentOrigin
  pub informational_contract : ActionContract

pub record ActionDependency : Type 0 where
  pub before : ActionId
  pub after : ActionId
  pub reason : DependencyReason

pub record ExecutionPlan : Type 0 where
  pub actions : List PlannedAction
  pub dependencies : List ActionDependency
