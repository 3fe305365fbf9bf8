-- ===== src/Engine/Simulate/Protect.antt =====
-- storage-engine/src/validate.rs: the changes of a plan that touch a protected scope. A path holds the
-- components of an absolute path, so that `validate_protected_scope` is not modelled.
pub mod Mounts
pub mod Laws
use native.Mathlib.Decide.{ℕ_discrete}
use pdisks.Base.{
  List, [], ◌∷◌, Bool, true, false, not, ◌&&◌, ◌||◌, Eq, ◌==◌, nat_eq, any, eq_of_discrete,
  String-discrete, lists_discrete, put_member, if◌then◌else◌,
}
use pdisks.Core.Block.{FilePath}
use pdisks.Core.Node.{NodeId}
use pdisks.Core.State.{MountContext}
use pdisks.Provider.Contract.{
  ActionContract, ActionResource, ResourceAccessMode, FactScope, GraphEffect, MountEffect, mode_eq,
  resource_eq,
}
use pdisks.Engine.Plan.{ActionId, PlannedAction}
use pdisks.Engine.Simulate.Data.{scope_eq, context_eq}
use pdisks.Engine.Simulate.Checks.{starts_with}
use pdisks.Engine.Simulate.Replay.{SimulatedStep}

pub record ProtectedMount : Type 0 where
  pub target : FilePath
  pub context : MountContext

pub record ProtectedScope : Type 0 where
  pub nodes : List NodeId
  pub runtime_mounts : List ProtectedMount
  pub persistent_mounts : List ProtectedMount

pub data ProtectedAspect : Type 0 where
  node : NodeId → ProtectedAspect
  runtime_mount persistent_mount : ProtectedMount → ProtectedAspect

pub record ProtectionViolation : Type 0 where
  pub action : ActionId
  pub aspect : ProtectedAspect

unfoldable pub ProtectionViolation-discrete : Discrete ProtectionViolation
ProtectionViolation-discrete = hlevel (ℕ_discrete, String-discrete, lists_discrete)

instance abbrev pub violation_eq : Eq ProtectionViolation
violation_eq = eq_of_discrete ProtectionViolation-discrete

abbrev pub is_empty {ℓ} : {A : Type ℓ} → List A → Bool
is_empty [] = true
is_empty _ = false

abbrev pub graph_effect_touches : NodeId → GraphEffect → Bool
graph_effect_touches n (GraphEffect.insert_node id _) = id == n
graph_effect_touches n (GraphEffect.remove_node id) = id == n
graph_effect_touches n (GraphEffect.invalidate_node_size id) = id == n
graph_effect_touches n (GraphEffect.set_node_size id _) = id == n
graph_effect_touches n (GraphEffect.set_activation id _) = id == n
graph_effect_touches n (GraphEffect.set_partition_attributes id _) = id == n
graph_effect_touches n (GraphEffect.set_filesystem_label id _) = id == n
graph_effect_touches n (GraphEffect.set_btrfs_allocation id _) = id == n
graph_effect_touches n (GraphEffect.insert_dependency edge) = edge.from == n || edge.to == n
graph_effect_touches n (GraphEffect.remove_dependency edge) = edge.from == n || edge.to == n
graph_effect_touches n (GraphEffect.insert_relation edge) = edge.from == n || edge.to == n
graph_effect_touches n (GraphEffect.remove_relation edge) = edge.from == n || edge.to == n

-- The closure over the mount effects of the loop over the protected runtime mounts.
abbrev pub is_near : ProtectedMount → (target : FilePath) → MountContext → Bool
is_near mount target context =
    (context == mount.context)
    && (starts_with target mount.target || starts_with mount.target target)

abbrev pub mount_effect_touches : ProtectedMount → MountEffect → Bool
mount_effect_touches mount (MountEffect.add_runtime _ target _ context) =
    is_near mount target context
mount_effect_touches mount (MountEffect.remove_runtime target context) =
    is_near mount target context
mount_effect_touches mount _ = false

abbrev pub is_of_node : NodeId → ActionResource → Bool
is_of_node n (ActionResource.node id) = id == n
is_of_node n (ActionResource.partition_table id) = id == n
is_of_node n (ActionResource.lvm_metadata id) = id == n
is_of_node n _ = false

abbrev pub is_mutating : ActionContract → Bool
is_mutating contract =
    any (λ access. access.mode == ResourceAccessMode.write) contract.affected_resources
    || not (is_empty contract.predicted_effect.graph)
    || not (is_empty contract.predicted_effect.mounts)
    || not (is_empty contract.predicted_effect.allocations)

abbrev pub touches_node : ActionContract → SimulatedStep → NodeId → Bool
touches_node contract step n =
    any (λ access. (access.mode == ResourceAccessMode.write) && is_of_node n access.resource)
      contract.affected_resources
    || (is_mutating contract && any (λ fact. fact.scope == FactScope.node n) step.invalidated_facts)
    || any (graph_effect_touches n) contract.predicted_effect.graph

abbrev pub touches_runtime : ActionContract → ProtectedMount → Bool
touches_runtime contract mount = any (mount_effect_touches mount) contract.predicted_effect.mounts

abbrev pub touches_persistent : ActionContract → ProtectedMount → Bool
touches_persistent contract mount =
    any
      (λ access.
        (access.mode == ResourceAccessMode.write)
        && (access.resource == ActionResource.persistent_mount_config mount.context))
      contract.affected_resources

-- `push_violation` for each protected object that the test finds.
unfoldable pub push_violations {ℓ} :
    {A : Type ℓ}
    → (A → Bool)
    → (A → ProtectedAspect)
    → ActionId
    → List A
    → List ProtectionViolation
    → List ProtectionViolation
push_violations test aspect id [] violations = violations
push_violations test aspect id (x ∷ xs) violations = push_violations test aspect id xs (
    if test x
    then put_member violations (record { action = id; aspect = aspect x })
    else violations)

-- The body of the loop over the actions and their steps.
unfoldable pub check_step :
    ProtectedScope
    → PlannedAction
    → SimulatedStep
    → List ProtectionViolation
    → List ProtectionViolation
check_step protected action step violations =
    let contract = action.informational_contract in
    push_violations (touches_persistent contract) ProtectedAspect.persistent_mount action.id
      protected.persistent_mounts
      (push_violations (touches_runtime contract) ProtectedAspect.runtime_mount action.id
        protected.runtime_mounts
        (push_violations (touches_node contract step) ProtectedAspect.node action.id protected.nodes
          violations))

-- `check_protected_scope`, from the plan's ordered actions, the steps and the violations found.
unfoldable pub check_steps :
    ProtectedScope
    → List PlannedAction
    → List SimulatedStep
    → List ProtectionViolation
    → List ProtectionViolation
check_steps protected (action ∷ actions) (step ∷ steps) violations =
    check_steps protected actions steps (check_step protected action step violations)
check_steps protected _ _ violations = violations
