-- ===== src/Core/State.antt =====
-- storage-core/src/model/state.rs: observed and desired storage state.
-- A `BTreeSet<String>` is its list of members.
use Prim.Native.String.{String}
use pdisks.Base.{List, [], map, Bool, Option}
use pdisks.Core.Block.{FilePath}
use pdisks.Core.Kind.{BtrfsAllocation, FilesystemKind}
use pdisks.Core.Node.{NodeId}
use pdisks.Core.Graph.{NodeGraph}

pub data NetworkMountSource : Type 0 where
  nfs : (server export : String) → NetworkMountSource
  cifs : (server share : String) → NetworkMountSource

pub data MountSource : Type 0 where
  filesystem btrfs_subvolume zfs_dataset : NodeId → MountSource
  bind : FilePath → MountSource
  tmpfs : MountSource
  network : NetworkMountSource → MountSource
  other : String → MountSource

pub data MountContext : Type 0 where
  host : MountContext
  target_root : FilePath → MountContext
  namespace : String → MountContext

pub record ObservedMount : Type 0 where
  pub source : MountSource
  pub target : FilePath
  pub options : List String
  pub context : MountContext

pub record MountState : Type 0 where
  pub entries : List ObservedMount

pub record MountEntry : Type 0 where
  pub source : MountSource
  pub target : FilePath
  pub options : List String
  pub context : MountContext

pub record MountSpec : Type 0 where
  pub runtime : List MountEntry
  pub persistent : List MountEntry

pub record SystemEnvironment : Type 0 where
  pub os_release : Option String
  pub architecture : Option String
  pub kernel_release : Option String
  pub tools : List String
  pub kernel_modules : List String

pub record TargetEnvironment : Type 0 where
  pub root : FilePath
  pub system : SystemEnvironment

pub record Environment : Type 0 where
  pub host : SystemEnvironment
  pub target : Option TargetEnvironment

pub data DiagnosticSeverity : Type 0 where
  error warning requires_confirmation missing_information : DiagnosticSeverity

pub data DiagnosticSubject : Type 0 where
  node : NodeId → DiagnosticSubject
  mount : FilePath → DiagnosticSubject
  field : String → DiagnosticSubject
  environment : DiagnosticSubject

pub record Diagnostic : Type 0 where
  pub code : String
  pub severity : DiagnosticSeverity
  pub subjects : List DiagnosticSubject
  pub message : String
  pub evidence : Option String
  pub suggested_remedy : Option String

pub record CurrentState : Type 0 where
  pub graph : NodeGraph
  pub mounts : MountState
  pub environment : Environment
  pub diagnostics : List Diagnostic

pub data Bootloader : Type 0 where
  grub : Bootloader
  other : String → Bootloader

pub record InitramfsSpec : Type 0 where
  pub target_kernel : Option String
  pub features : List String

pub record UefiBootSpec : Type 0 where
  pub root : NodeId
  pub esp : NodeId
  pub bootloader : Bootloader
  pub initramfs : InitramfsSpec
  pub update_nvram : Bool
  pub removable_path : Bool

pub record BiosBootSpec : Type 0 where
  pub root : NodeId
  pub install_targets : List NodeId
  pub bios_boot_partition : Option NodeId
  pub bootloader : Bootloader
  pub initramfs : InitramfsSpec

pub data BootSpec : Type 0 where
  unmanaged : BootSpec
  uefi : UefiBootSpec → BootSpec
  bios : BiosBootSpec → BootSpec

pub data OperationIntent : Type 0 where
  reformat : (target : NodeId) (filesystem : FilesystemKind) → OperationIntent
  replace_member : (group old new : NodeId) → OperationIntent
  convert_btrfs_profiles : (filesystem : NodeId) (target : BtrfsAllocation) → OperationIntent
  check repair : (target : NodeId) (force : Bool) → OperationIntent
  set_activation : (target : NodeId) (active : Bool) → OperationIntent

pub record DesiredState : Type 0 where
  pub graph : NodeGraph
  pub mounts : MountSpec
  pub boot : BootSpec
  pub intents : List OperationIntent

mount_entry : ObservedMount → MountEntry
mount_entry m = record {
  source = m.source;
  target = m.target;
  options = m.options;
  context = m.context;
}

unfoldable pub from_current : CurrentState → DesiredState
unfolding mount_entry
from_current current = record {
  graph = current.graph;
  mounts = record { runtime = map mount_entry current.mounts.entries; persistent = [] };
  boot = unmanaged;
  intents = [];
}
