-- ===== src/Engine/Simulate/Checks/Nodes.antt =====
-- storage-engine/src/prerequisites.rs: the tests of nodes, mounts and dependencies.
use pdisks.Base.{
  List, [], ◌∷◌, map, Bool, true, false, not, ◌&&◌, Option, none, some, ◌==◌, nat_eq, string_eq,
  any, contains, filter, if◌then◌else◌,
}
use pdisks.Core.Block.{FilePath}
use pdisks.Core.Kind.{btrfs}
use pdisks.Core.Node.{
  NodeId, NodeKind, disk, nvme_namespace, loop_device, zram, dm_multipath, partition_table,
  partition, luks_container, dm_crypt_mapping, dm_integrity, dm_verity, md_array, lvm_pv, lvm_vg,
  lvm_lv, bcache, dm_cache, dm_writecache, filesystem, btrfs_subvolume, zfs_dataset, zfs_volume,
  drbd,
}
use pdisks.Core.Graph.{DependencyKind, backs}
use pdisks.Core.State.{DesiredState, MountContext, MountSource}
use pdisks.Provider.Contract.{NodeKindClass, domain_eq}
use pdisks.Engine.Simulate.Data.{
  SimulationEvidence, CheckEvidence, observed_snapshot, predicted_effect, CheckStatus, satisfied,
  source_eq, context_eq, path_eq,
}

-- `Path::starts_with`
abbrev pub starts_with : (path prefix : FilePath) → Bool
starts_with path [] = true
starts_with [] (q ∷ qs) = false
starts_with (p ∷ ps) (q ∷ qs) = (p == q) && starts_with ps qs

abbrev pub is_block : NodeKind → Bool
is_block disk = true
is_block (nvme_namespace _) = true
is_block (loop_device _) = true
is_block zram = true
is_block dm_multipath = true
is_block (partition _ _ _ _) = true
is_block (luks_container _) = true
is_block (dm_crypt_mapping _) = true
is_block (dm_integrity _) = true
is_block (dm_verity _) = true
is_block (md_array _) = true
is_block lvm_pv = true
is_block (lvm_lv _) = true
is_block (bcache _ _) = true
is_block (dm_cache _ _) = true
is_block (dm_writecache _) = true
is_block (zfs_volume _) = true
is_block (drbd _) = true
is_block _ = false

unfoldable pub matches_kind : NodeKind → NodeKindClass → Bool
matches_kind kind NodeKindClass.block = is_block kind
matches_kind (partition_table _) NodeKindClass.partition_table = true
matches_kind (partition _ _ _ _) NodeKindClass.partition = true
matches_kind (luks_container _) NodeKindClass.luks_container = true
matches_kind (dm_crypt_mapping _) NodeKindClass.dm_crypt_mapping = true
matches_kind lvm_pv NodeKindClass.lvm_pv = true
matches_kind (lvm_vg _ _) NodeKindClass.lvm_vg = true
matches_kind (lvm_lv _) NodeKindClass.lvm_lv = true
matches_kind (filesystem _ _) NodeKindClass.filesystem = true
matches_kind (filesystem (btrfs _) _) NodeKindClass.btrfs_filesystem = true
matches_kind _ _ = false

abbrev pub satisfied_for_node : SimulationEvidence → NodeId → CheckStatus
satisfied_for_node evidence n =
    satisfied
      (if contains evidence.projected_graph_nodes n then predicted_effect else observed_snapshot)

abbrev pub mount_evidence : SimulationEvidence → CheckEvidence
mount_evidence evidence =
    if evidence.projected_runtime_mounts then predicted_effect else observed_snapshot

-- `mount_at(..).is_some()`
unfoldable pub is_mounted_at : DesiredState → (target : FilePath) → MountContext → Bool
is_mounted_at desired target context =
    any (λ mount. mount.target == target && mount.context == context) desired.mounts.runtime

unfoldable pub has_mounted_descendant : DesiredState → (target : FilePath) → MountContext → Bool
has_mounted_descendant desired target context =
    any
      (λ mount.
        (mount.context == context)
        && not (mount.target == target)
        && starts_with mount.target target)
      desired.mounts.runtime

-- `matches!(source, MountSource::Bind(_) | MountSource::Other(_))`
abbrev pub is_unresolved : MountSource → Bool
is_unresolved (MountSource.bind _) = true
is_unresolved (MountSource.other _) = true
is_unresolved _ = false

-- The node of a typed mount source.
abbrev pub source_node : MountSource → Option NodeId
source_node (MountSource.filesystem n) = some n
source_node (MountSource.btrfs_subvolume n) = some n
source_node (MountSource.zfs_dataset n) = some n
source_node _ = none

abbrev pub mounts_node : NodeId → MountSource → Bool
mounts_node n source = elim (source_node source) [ none ↦ false | some m ↦ m == n ]

-- The `matches!` of a mount source and the kind of its node.
abbrev pub is_compatible : MountSource → NodeKind → Bool
is_compatible (MountSource.filesystem _) (filesystem _ _) = true
is_compatible (MountSource.btrfs_subvolume _) (btrfs_subvolume _ _ _) = true
is_compatible (MountSource.zfs_dataset _) (zfs_dataset _) = true
is_compatible _ _ = false

-- A filesystem other than Btrfs.
abbrev pub is_plain_filesystem : NodeKind → Bool
is_plain_filesystem (filesystem (btrfs _) _) = false
is_plain_filesystem (filesystem _ _) = true
is_plain_filesystem _ = false

abbrev pub is_backs : DependencyKind → Bool
is_backs backs = true
is_backs _ = false

abbrev pub backings : DesiredState → NodeId → List NodeId
backings desired n =
    map (λ dependency. dependency.from)
      (filter (λ dependency. (dependency.to == n) && is_backs dependency.kind)
        desired.graph.dependencies)
