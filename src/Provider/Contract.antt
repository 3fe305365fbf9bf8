-- ===== src/Provider/Contract.antt =====
-- storage-provider/src/contract.rs: the data of a trusted action contract.
-- `CredentialRef` (storage-provider/src/luks.rs) the UUID that it wraps, and an
-- `AllocationQuantity` the u64 that it wraps.
use Prim.Native.String.{String}
use pdisks.Base.{ℕ, List, Bool, Option, Eq, eq_of_discrete}
use pdisks.Base.{String-discrete, lists_discrete}
use native.Mathlib.Decide.{ℕ_discrete}
use pdisks.Core.Sizes.{Bytes}
use pdisks.Core.Block.{Uuid, FilePath}
use pdisks.Core.Kind.{BtrfsAllocation, PartitionAttributes}
use pdisks.Core.Node.{NodeId, NodeSpec}
use pdisks.Core.Graph.{Dependency, Relation}
use pdisks.Core.State.{MountContext, MountEntry, MountSource}

pub data NodeKindClass : Type 0 where
  block partition_table partition luks_container dm_crypt_mapping lvm_pv lvm_vg lvm_lv filesystem
        btrfs_filesystem :
      NodeKindClass

pub data BlockInterfaceAccess : Type 0 where
  read_only read_write : BlockInterfaceAccess

pub data AllocationDomain : Type 0 where
  lvm_volume_group : NodeId → AllocationDomain

abbrev pub AllocationQuantity : Type 0
AllocationQuantity = ℕ

abbrev pub CredentialRef : Type 0
CredentialRef = Uuid

pub data ActionPrerequisite : Type 0 where
  node_exists : NodeId → ActionPrerequisite
  node_kind : (node : NodeId) (expected : NodeKindClass) → ActionPrerequisite
  no_unexpected_consumers no_unexpected_relations writable : NodeId → ActionPrerequisite
  mount_source_available : MountSource → ActionPrerequisite
  filesystem_unmounted filesystem_check_passed : NodeId → ActionPrerequisite
  filesystem_minimum_size : (filesystem : NodeId) (target : Bytes) → ActionPrerequisite
  destructive_approval : NodeId → ActionPrerequisite
  credential_available : CredentialRef → ActionPrerequisite
  extent_available : (table : NodeId) (offset size : Bytes) → ActionPrerequisite
  distinct_nodes : List NodeId → ActionPrerequisite
  dependents_fit_within backing_size_at_least : (node : NodeId) (size : Bytes) → ActionPrerequisite
  capacity_available : AllocationDomain → (amount : Option AllocationQuantity) → ActionPrerequisite
  mount_target_available mount_descendants_absent :
      (target : FilePath) → MountContext → ActionPrerequisite

pub data ActionOutput : Type 0 where
  node : (id : NodeId) → NodeSpec → ActionOutput
  block_interface : (node : NodeId) → BlockInterfaceAccess → ActionOutput
  mount : MountSource → (target : FilePath) → MountContext → ActionOutput
  persistent_mount : MountEntry → ActionOutput
  check_passed : NodeId → ActionOutput

pub data ActionResource : Type 0 where
  runtime_mount_state : ActionResource
  node partition_table lvm_metadata : NodeId → ActionResource
  mount_target : (target : FilePath) → MountContext → ActionResource
  persistent_mount_config : MountContext → ActionResource

pub data ResourceAccessMode : Type 0 where
  read write : ResourceAccessMode

pub record ResourceAccess : Type 0 where
  pub resource : ActionResource
  pub mode : ResourceAccessMode

pub data AllocationEffect : Type 0 where
  invalidate : AllocationDomain → AllocationEffect
  reserve release : AllocationDomain → (amount : AllocationQuantity) → AllocationEffect

pub data GraphEffect : Type 0 where
  invalidate_node_size : NodeId → GraphEffect
  insert_node : (id : NodeId) → NodeSpec → GraphEffect
  remove_node : NodeId → GraphEffect
  set_node_size : (node : NodeId) (size : Bytes) → GraphEffect
  set_partition_attributes : (partition : NodeId) → PartitionAttributes → GraphEffect
  set_filesystem_label : (filesystem : NodeId) (label : Option String) → GraphEffect
  set_btrfs_allocation : (filesystem : NodeId) → BtrfsAllocation → GraphEffect
  insert_dependency remove_dependency : Dependency → GraphEffect
  insert_relation remove_relation : Relation → GraphEffect
  set_activation : (node : NodeId) (active : Bool) → GraphEffect

pub data MountEffect : Type 0 where
  add_runtime :
      MountSource → (target : FilePath) (options : List String) → MountContext → MountEffect
  remove_runtime : (target : FilePath) → MountContext → MountEffect
  set_persistent : MountEntry → MountEffect
  remove_persistent : (target : FilePath) → MountContext → MountEffect

pub record PredictedEffect : Type 0 where
  pub graph : List GraphEffect
  pub mounts : List MountEffect
  pub allocations : List AllocationEffect

pub data FactScope : Type 0 where
  node : NodeId → FactScope
  mount_target : (target : FilePath) → MountContext → FactScope
  persistent_mount_config : MountContext → FactScope

pub data FactKind : Type 0 where
  presence geometry identity topology content activation mount : FactKind

pub record FactInvalidation : Type 0 where
  pub scope : FactScope
  pub kind : FactKind

pub data Postcondition : Type 0 where
  filesystem_check_passed : NodeId → Postcondition
  node_matches : (id : NodeId) → NodeSpec → Postcondition
  node_absent : NodeId → Postcondition
  node_size : (node : NodeId) (size : Bytes) → Postcondition
  partition_attributes : (partition : NodeId) → PartitionAttributes → Postcondition
  filesystem_label : (filesystem : NodeId) (label : Option String) → Postcondition
  btrfs_allocation : (filesystem : NodeId) → BtrfsAllocation → Postcondition
  dependency_present dependency_absent : Dependency → Postcondition
  activation : (node : NodeId) (active : Bool) → Postcondition
  runtime_mount_present : MountSource → (target : FilePath) → MountContext → Postcondition
  runtime_mount_absent : (target : FilePath) → MountContext → Postcondition
  persistent_mount_matches : MountEntry → Postcondition
  persistent_mount_absent : (target : FilePath) → MountContext → Postcondition
  node_reprobed : NodeId → Postcondition

pub data RestartPolicy : Type 0 where
  idempotent reprobe_then_retry verify_then_retry manual_recovery : RestartPolicy

pub record ActionContract : Type 0 where
  pub prerequisites : List ActionPrerequisite
  pub provided_outputs : List ActionOutput
  pub affected_resources : List ResourceAccess
  pub predicted_effect : PredictedEffect
  pub invalidated_facts : List FactInvalidation
  pub postconditions : List Postcondition
  pub restart_policy : RestartPolicy

unfoldable pub ActionPrerequisite-discrete : Discrete ActionPrerequisite
ActionPrerequisite-discrete = hlevel (ℕ_discrete, String-discrete, lists_discrete)

unfoldable pub Postcondition-discrete : Discrete Postcondition
Postcondition-discrete = hlevel (ℕ_discrete, String-discrete, lists_discrete)

unfoldable pub ActionResource-discrete : Discrete ActionResource
ActionResource-discrete = hlevel (ℕ_discrete, String-discrete, lists_discrete)

unfoldable pub ResourceAccessMode-discrete : Discrete ResourceAccessMode
ResourceAccessMode-discrete = hlevel

unfoldable pub AllocationDomain-discrete : Discrete AllocationDomain
AllocationDomain-discrete = hlevel ℕ_discrete

unfoldable pub FactInvalidation-discrete : Discrete FactInvalidation
FactInvalidation-discrete = hlevel (ℕ_discrete, String-discrete, lists_discrete)

instance abbrev pub prerequisite_eq : Eq ActionPrerequisite
prerequisite_eq = eq_of_discrete ActionPrerequisite-discrete

instance abbrev pub postcondition_eq : Eq Postcondition
postcondition_eq = eq_of_discrete Postcondition-discrete

instance abbrev pub resource_eq : Eq ActionResource
resource_eq = eq_of_discrete ActionResource-discrete

instance abbrev pub mode_eq : Eq ResourceAccessMode
mode_eq = eq_of_discrete ResourceAccessMode-discrete

instance abbrev pub domain_eq : Eq AllocationDomain
domain_eq = eq_of_discrete AllocationDomain-discrete

instance abbrev pub invalidation_eq : Eq FactInvalidation
invalidation_eq = eq_of_discrete FactInvalidation-discrete
