-- ===== src/Provider/Action.antt =====
-- storage-provider/src/action.rs and the actions of storage-provider/src/luks.rs: what a plan may ask.
use Prim.Native.String.{String}
use pdisks.Base.{ℕ, List, Bool, Option}
use pdisks.Core.Sizes.{Bytes}
use pdisks.Core.Block.{FilePath}
use pdisks.Core.Kind.{
  BtrfsAllocation, FilesystemKind, LuksVersion, LvmLvKind, PartitionAttributes, PartitionTable,
  UsageRole,
}
use pdisks.Core.Node.{NodeId}
use pdisks.Core.State.{MountContext, MountEntry, MountSource}
use pdisks.Provider.Contract.{CredentialRef}

pub data PartitionAction : Type 0 where
  create_table : (disk planned_node_id : NodeId) (table : PartitionTable) → PartitionAction
  create :
      (table planned_node_id : NodeId) (number : ℕ) (offset size : Bytes) (role : Option UsageRole)
      (attributes : PartitionAttributes)
      → PartitionAction
  resize : (partition : NodeId) (new_size : Bytes) → PartitionAction
  delete : (partition : NodeId) → PartitionAction
  set_attributes : (partition : NodeId) (attributes : PartitionAttributes) → PartitionAction

pub data LuksAction : Type 0 where
  format :
      (target planned_node_id : NodeId) (version : LuksVersion) (credential : CredentialRef)
      → LuksAction
  open_mapping :
      (container planned_node_id : NodeId) (mapping_name : String) (credential : CredentialRef)
      (read_only : Bool)
      → LuksAction
  close : (mapping : NodeId) → LuksAction
  resize : (mapping : NodeId) (new_size : Option Bytes) → LuksAction

pub data LvmAction : Type 0 where
  create_pv : (backing planned_node_id : NodeId) → LvmAction
  create_vg : (planned_node_id : NodeId) (name : String) (pvs : List NodeId) → LvmAction
  create_lv :
      (vg planned_node_id : NodeId) (name : String) (size : Bytes) (layout : LvmLvKind) → LvmAction
  resize_lv : (lv : NodeId) (new_size : Bytes) → LvmAction
  remove_lv : (lv : NodeId) → LvmAction
  set_activation : (target : NodeId) (active : Bool) → LvmAction

pub data FilesystemAction : Type 0 where
  create :
      (backing planned_node_id : NodeId) (filesystem : FilesystemKind) (label : Option String)
      → FilesystemAction
  resize : (filesystem : NodeId) (new_size : Bytes) → FilesystemAction
  check repair : (filesystem : NodeId) (force : Bool) → FilesystemAction
  set_label : (filesystem : NodeId) (label : Option String) → FilesystemAction

pub data BtrfsAction : Type 0 where
  create :
      (members : List NodeId) (planned_node_id : NodeId) (label : Option String)
      (allocation : BtrfsAllocation)
      → BtrfsAction
  add_device remove_device : (filesystem device : NodeId) → BtrfsAction
  convert_profiles : (filesystem : NodeId) (target : BtrfsAllocation) → BtrfsAction
  create_subvolume :
      (filesystem planned_node_id : NodeId) (name : String) (read_only : Bool) → BtrfsAction

pub data MountAction : Type 0 where
  mount :
      (source : MountSource) (target : FilePath) (options : List String) (context : MountContext)
      → MountAction
  unmount remove_persistent : (target : FilePath) (context : MountContext) → MountAction
  persist : (entry : MountEntry) → MountAction

pub data ProviderAction : Type 0 where
  partition : PartitionAction → ProviderAction
  luks : LuksAction → ProviderAction
  lvm : LvmAction → ProviderAction
  filesystem : FilesystemAction → ProviderAction
  btrfs : BtrfsAction → ProviderAction
  mount : MountAction → ProviderAction
