-- ===== src/Core/Node.antt =====
-- storage-core/src/model/node.rs: storage nodes, their kinds and the facts observed of them.
use Prim.Native.String.{String}
use pdisks.Base.{ℕ, List, Bool, Option, checked_add}
use pdisks.Core.Sizes.{Bytes}
use pdisks.Core.Block.{Uuid, FilePath, BlockFacts, DeviceInfo, ExternalId}
use pdisks.Core.Raid.{MdArray}
use pdisks.Core.Kind.{
  BcacheMode, DmCacheMode, FilesystemKind, LuksVersion, LvmLv, NvmeNamespace, PartitionAttributes,
  PartitionTable, UsageRole, ZfsVdevKind,
}

abbrev pub NodeId : Type 0
NodeId = Uuid

-- A u64 generation of the probe.
abbrev pub ProbeEpoch : Type 0
ProbeEpoch = ℕ

-- `ProbeEpoch::next`
unfoldable pub next_epoch : ProbeEpoch → Option ProbeEpoch
next_epoch e = checked_add e 1

pub data Presence : Type 0 where
  unknown present missing : Presence

pub record NodeFacts : Type 0 where
  pub lvm_active : Option Bool
  pub observed_in : Option ProbeEpoch
  pub presence : Presence
  pub identities : List ExternalId
  pub block : Option BlockFacts
  pub device : Option DeviceInfo

pub data NodeKind : Type 0 where
  disk : NodeKind
  nvme_subsystem : (nqn : String) → NodeKind
  nvme_controller : NodeKind
  nvme_namespace : NvmeNamespace → NodeKind
  loop_device : (backing_file : Option FilePath) → NodeKind
  zram dm_multipath : NodeKind
  partition_table : PartitionTable → NodeKind
  partition :
      (number : ℕ) (offset : Bytes) (role : Option UsageRole) (attributes : PartitionAttributes)
      → NodeKind
  luks_container : LuksVersion → NodeKind
  dm_crypt_mapping dm_integrity dm_verity : (name : String) → NodeKind
  md_array : MdArray → NodeKind
  lvm_pv : NodeKind
  lvm_vg : (name : String) (extent_size : Option Bytes) → NodeKind
  lvm_lv : LvmLv → NodeKind
  bcache : (name : String) → BcacheMode → NodeKind
  dm_cache : (name : String) → DmCacheMode → NodeKind
  dm_writecache : (name : String) → NodeKind
  filesystem : FilesystemKind → (label : Option String) → NodeKind
  swap : NodeKind
  btrfs_subvolume : (name : String) (read_only is_default : Bool) → NodeKind
  zfs_pool : (name : String) → NodeKind
  zfs_vdev : ZfsVdevKind → NodeKind
  zfs_dataset zfs_volume drbd : (name : String) → NodeKind
  unclassified : String → NodeKind

pub record NodeSpec : Type 0 where
  pub kind : NodeKind
  pub size : Option Bytes

pub record Node : Type 0 where
  pub kind : NodeSpec
  pub size : NodeFacts
