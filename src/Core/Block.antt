-- ===== src/Core/Block.antt =====
-- storage-core/src/model/block.rs: observations of block devices and their stable identities.
-- A `Uuid` is its 128-bit value, a path the list of its components (which its equality and its
-- `starts_with` compare), and a byte array a list of bytes.
use Prim.Native.String.{String}
use pdisks.Base.{ℕ, List, Bool, true, false, Option, none, some, nat_beq, if◌then◌else◌}
use pdisks.Core.Sizes.{Bytes}

abbrev pub Uuid : Type 0
Uuid = ℕ

-- `Uuid::is_nil`
abbrev pub is_nil : Uuid → Bool
is_nil u = nat_beq u 0

abbrev pub FilePath : Type 0
FilePath = List String

-- A `NonZeroU32` behind a constructor that refuses 0.
abbrev pub BlockSize : Type 0
BlockSize = ℕ

unfoldable pub new_block_size : ℕ → Option BlockSize
new_block_size bytes = if nat_beq bytes 0 then none else some bytes

pub record DeviceNumber : Type 0 where
  pub major : ℕ
  pub minor : ℕ

pub record BlockGeometry : Type 0 where
  pub logical_block_size : BlockSize
  pub physical_block_size : Option BlockSize
  pub alignment_offset : Option Bytes
  pub minimum_io_size : Option Bytes
  pub optimal_io_size : Option Bytes

pub record BlockFacts : Type 0 where
  pub paths : List FilePath
  pub devno : DeviceNumber
  pub geometry : Option BlockGeometry
  pub read_only : Option Bool

pub data NetworkBacking : Type 0 where
  rbd nbd : NetworkBacking

pub data ZonedModel : Type 0 where
  host_aware host_managed not_zoned : ZonedModel

pub data Transport : Type 0 where
  nvme nvme_of sata sas scsi usb virtio mmc fibre_channel iscsi : Transport

-- `Transport::is_network`
unfoldable pub transport_is_network : Transport → Bool
transport_is_network nvme_of = true
transport_is_network fibre_channel = true
transport_is_network iscsi = true
transport_is_network _ = false

pub record DeviceInfo : Type 0 where
  pub model : Option String
  pub vendor : Option String
  pub transport : Option Transport
  pub network_backing : Option NetworkBacking
  pub rotational : Option Bool
  pub removable : Option Bool
  pub zoned : Option ZonedModel

network_of : Option NetworkBacking → Option Transport → Option Bool
network_of (some _) _ = some true
network_of none (some t) = some (transport_is_network t)
network_of none none = none

-- `DeviceInfo::is_network`
unfoldable pub is_network : DeviceInfo → Option Bool
unfolding network_of transport_is_network
is_network d = network_of d.network_backing d.transport

pub data ExternalId : Type 0 where
  wwn : String → ExternalId
  serial : (vendor : Option String) (value : String) → ExternalId
  gpt_partition_uuid : Uuid → ExternalId
  mbr_partition_id : (disk_signature number : ℕ) → ExternalId
  luks_uuid : Uuid → ExternalId
  md_uuid lvm_pv_uuid lvm_vg_uuid lvm_lv_uuid : String → ExternalId
  filesystem_id : (fs_type value : String) → ExternalId
  btrfs_fsid btrfs_subvolume_uuid : Uuid → ExternalId
  zfs_guid : ℕ → ExternalId
  nvme_nguid nvme_eui64 : List ℕ → ExternalId
  nvme_uuid : Uuid → ExternalId
  iscsi_target : (target_iqn : String) (lun : ℕ) → ExternalId
  nvme_of_namespace : (subsystem_nqn : String) (namespace : ℕ) → ExternalId
