-- ===== src/Provider/Fragment.antt =====
-- storage-provider/src/planning.rs: the fragments that providers propose.
use Prim.Native.String.{String}
use pdisks.Base.{ℕ, List}
use pdisks.Core.Block.{FilePath}
use pdisks.Core.Node.{NodeId}
use pdisks.Core.State.{Diagnostic, MountContext}
use pdisks.Provider.Contract.{ActionPrerequisite}
use pdisks.Provider.Action.{ProviderAction}

-- A u32 assigned by the provider.
abbrev pub LocalActionId : Type 0
LocalActionId = ℕ

pub record FragmentAction : Type 0 where
  pub id : LocalActionId
  pub operation : ProviderAction

pub data DependencyReason : Type 0 where
  input_creation interface_preparation resize_safety mount_order resource_coordination
        requested_order :
      DependencyReason

pub record FragmentDependency : Type 0 where
  pub before : LocalActionId
  pub after : LocalActionId
  pub reason : DependencyReason

pub record ExternalRequirement : Type 0 where
  pub action : LocalActionId
  pub prerequisite : ActionPrerequisite

pub data FragmentOrigin : Type 0 where
  change : (subject : NodeId) (description : String) → FragmentOrigin
  mount : (target : FilePath) (context : MountContext) → FragmentOrigin
  intent : (index : ℕ) → FragmentOrigin

pub record PlanFragment : Type 0 where
  pub actions : List FragmentAction
  pub dependencies : List FragmentDependency
  pub external_requirements : List ExternalRequirement
  pub origin : FragmentOrigin
  pub diagnostics : List Diagnostic
