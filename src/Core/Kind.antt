-- ===== src/Core/Kind.antt =====
-- storage-core/src/model/mod.rs: modes, filesystems, logical volumes, NVMe namespaces, ZFS devices.
-- A `HashSet<BtrfsProfile>` says of each profile whether it is a member.
use Prim.Native.String.{String}
use pdisks.Base.{ℕ, Bool, Option, none, some, nat_beq, if◌then◌else◌}
use pdisks.Core.Block.{BlockSize}
use pdisks.Core.Raid.{CopyCount, DataStripeCount, LvmRaid}

pub data DmCacheMode : Type 0 where
  writeback writethrough passthrough : DmCacheMode

pub data BcacheMode : Type 0 where
  writeback writethrough writearound disabled : BcacheMode

pub data LuksVersion : Type 0 where
  luks1 luks2 : LuksVersion

pub record ProfileSet : Type 0 where
  pub single : Bool
  pub dup : Bool
  pub raid0 : Bool
  pub raid1 : Bool
  pub raid1_c3 : Bool
  pub raid1_c4 : Bool
  pub raid10 : Bool
  pub raid5 : Bool
  pub raid6 : Bool

pub record BtrfsAllocation : Type 0 where
  pub data_profiles : ProfileSet
  pub metadata : ProfileSet
  pub system : ProfileSet

pub data FilesystemKind : Type 0 where
  ext2 ext3 ext4 xfs : FilesystemKind
  btrfs : BtrfsAllocation → FilesystemKind
  jfs reiserfs vfat ntfs exfat f2fs ocfs2 gfs2 apfs : FilesystemKind
  other : String → FilesystemKind

-- `FilesystemKind::as_str`
unfoldable pub as_str : FilesystemKind → String
as_str ext2 = "ext2"
as_str ext3 = "ext3"
as_str ext4 = "ext4"
as_str xfs = "xfs"
as_str (btrfs _) = "btrfs"
as_str jfs = "jfs"
as_str reiserfs = "reiserfs"
as_str vfat = "vfat"
as_str ntfs = "ntfs"
as_str exfat = "exfat"
as_str f2fs = "f2fs"
as_str ocfs2 = "ocfs2"
as_str gfs2 = "gfs2"
as_str apfs = "apfs"
as_str (other name) = name

pub data LvmLvKind : Type 0 where
  linear : LvmLvKind
  striped : (stripes : DataStripeCount) → LvmLvKind
  raid : LvmRaid → LvmLvKind
  mirror : (copies : CopyCount) → LvmLvKind
  thin_pool thin snapshot cache_pool cache write_cache : LvmLvKind
  other : String → LvmLvKind

pub record LvmLv : Type 0 where
  pub name : String
  pub kind : LvmLvKind

-- A `NonZeroU32` behind a constructor that refuses 0.
abbrev pub NvmeNamespaceId : Type 0
NvmeNamespaceId = ℕ

unfoldable pub new_nvme_namespace_id : ℕ → Option NvmeNamespaceId
new_nvme_namespace_id nsid = if nat_beq nsid 0 then none else some nsid

pub record NvmeLbaFormat : Type 0 where
  pub data_size : BlockSize
  pub metadata_size : ℕ

pub record NvmeNamespace : Type 0 where
  pub nsid : NvmeNamespaceId
  pub format : NvmeLbaFormat

pub record PartitionAttributes : Type 0 where
  pub gpt : Option ℕ
  pub bootable : Option Bool

pub data UsageRole : Type 0 where
  boot root home data_role : UsageRole

pub data PartitionTable : Type 0 where
  gpt mbr : PartitionTable

pub data ZfsVdevClass : Type 0 where
  data_class log special dedup cache spare : ZfsVdevClass

pub data ZfsMember : Type 0 where
  child : ZfsMember
  top_level : ZfsVdevClass → ZfsMember

pub data ZfsParity : Type 0 where
  one two three : ZfsParity

pub data ZfsVdevKind : Type 0 where
  leaf mirror : ZfsVdevKind
  raid_z : ZfsParity → ZfsVdevKind
  draid : (parity : ZfsParity) (data_width : DataStripeCount) (spares : ℕ) → ZfsVdevKind
  other : String → ZfsVdevKind
