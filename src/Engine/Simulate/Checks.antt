-- ===== src/Engine/Simulate/Checks.antt =====
-- storage-engine/src/prerequisites.rs: the three-valued checks on a desired state.
mod Nodes
mod Endpoints
mod Capacity
pub mod Dependents
unfoldable pub use Nodes.*
unfoldable pub use Endpoints.*
unfoldable pub use Capacity.*
use pdisks.Base.{
  List, [], ◌∷◌, map, Bool, true, false, not, ◌&&◌, ◌||◌, Option, none, some, ◌==◌, nat_eq,
  string_eq, ltb, any, contains, filter, get_key, if◌then◌else◌,
}
use pdisks.Core.Sizes.{Bytes}
use pdisks.Core.Block.{FilePath}
use pdisks.Core.Kind.{btrfs}
use pdisks.Core.Node.{
  NodeId, NodeKind, disk, nvme_namespace, loop_device, zram, dm_multipath, partition_table,
  partition, luks_container, dm_crypt_mapping, dm_integrity, dm_verity, md_array, lvm_pv, lvm_vg,
  lvm_lv, bcache, dm_cache, dm_writecache, filesystem, btrfs_subvolume, zfs_dataset, zfs_volume,
  drbd,
}
use pdisks.Core.Graph.{Dependency, DependencyKind, backs}
use pdisks.Core.Graph
use pdisks.Core.State.{DesiredState, MountContext, MountSource}
use pdisks.Provider.Contract.{
  ActionPrerequisite, AllocationDomain, AllocationQuantity, read_only, read_write, FactScope,
  FactKind, NodeKindClass, domain_eq,
}
use pdisks.Engine.Simulate.Data.{
  SimulationEvidence, CheckEvidence, observed_snapshot, predicted_effect, CheckStatus, satisfied,
  violated, unknown, PrerequisiteCheck, source_eq, context_eq, path_eq,
}
use pdisks.Engine.Simulate.Evidence.{is_observation_stale}

-- `nodes.iter().collect::<HashSet<_>>().len() == nodes.len()`
abbrev pub is_distinct : List NodeId → Bool
is_distinct [] = true
is_distinct (n ∷ ns) = not (contains ns n) && is_distinct ns

unfoldable pub evaluate_prerequisite :
    DesiredState → SimulationEvidence → ActionPrerequisite → CheckStatus
evaluate_prerequisite desired evidence (ActionPrerequisite.node_exists n) =
    elim (Graph.node desired.graph n) [
      | some _ ↦ satisfied_for_node evidence n
      | none ↦ violated "referenced node is absent"
    ]
evaluate_prerequisite desired evidence (ActionPrerequisite.node_kind n expected) =
    elim (Graph.node desired.graph n) [
      | none ↦ violated "referenced node is absent"
      | some value ↦
          if matches_kind value.kind.kind expected
          then satisfied_for_node evidence n
          else violated "node kind does not satisfy the action contract"
    ]
evaluate_prerequisite desired evidence (ActionPrerequisite.no_unexpected_consumers n) =
    elim (Graph.node desired.graph n) [
      | none ↦ violated "referenced node is absent"
      | some _ ↦
          if any (λ d. d.from == n) desired.graph.dependencies
            || any (λ mount. mounts_node n mount.source) desired.mounts.runtime
          then violated "node still has an upper-layer consumer"
          else if any (λ mount. is_unresolved mount.source) desired.mounts.runtime
          then unknown "resolve bind and unsupported mount sources before declaring the node unused"
          else satisfied_for_node evidence n
    ]
evaluate_prerequisite desired evidence (ActionPrerequisite.no_unexpected_relations n) =
    elim (Graph.node desired.graph n) [
      | none ↦ violated "referenced node is absent"
      | some _ ↦
          if any (λ r. r.from == n || r.to == n) desired.graph.relations
          then violated "node still has a snapshot, replication, or other non-owning relation"
          else satisfied_for_node evidence n
    ]
evaluate_prerequisite desired evidence (ActionPrerequisite.writable n) =
    evaluate_endpoint desired evidence n true
evaluate_prerequisite desired evidence (ActionPrerequisite.mount_source_available source) =
    evaluate_mount_source desired evidence source
evaluate_prerequisite desired evidence (ActionPrerequisite.filesystem_unmounted fs) =
    elim (Graph.node desired.graph fs) [
      | none ↦ violated "referenced filesystem is absent"
      | some _ ↦
          if any (λ mount. mount.source == MountSource.filesystem fs) desired.mounts.runtime
          then violated "filesystem is still mounted in an observed namespace"
          else if any (λ mount. is_unresolved mount.source) desired.mounts.runtime
          then unknown "resolve bind and unsupported mount sources before offline filesystem work"
          else satisfied (mount_evidence evidence)
    ]
evaluate_prerequisite desired evidence (ActionPrerequisite.filesystem_check_passed fs) =
    if contains evidence.checked_filesystems fs
    then satisfied predicted_effect
    else violated "filesystem shrink requires a preceding fresh forced read-only check"
evaluate_prerequisite desired evidence (ActionPrerequisite.filesystem_minimum_size _ _) =
    unknown "provider evidence that filesystem content fits the requested shrink target"
evaluate_prerequisite desired evidence (ActionPrerequisite.destructive_approval _) =
    unknown "explicit destructive-scope approval"
evaluate_prerequisite desired evidence (ActionPrerequisite.credential_available _) =
    unknown "resolve credential reference through the runtime credential store"
evaluate_prerequisite desired evidence (ActionPrerequisite.extent_available _ _ _) =
    unknown "provider allocation and alignment evidence"
evaluate_prerequisite desired evidence (ActionPrerequisite.distinct_nodes nodes) =
    if is_distinct nodes
    then satisfied predicted_effect
    else violated "node list contains duplicate identities"
evaluate_prerequisite desired evidence (ActionPrerequisite.dependents_fit_within n size) =
    evaluate_dependent_sizes desired evidence n size
evaluate_prerequisite desired evidence (ActionPrerequisite.backing_size_at_least n size) =
    evaluate_backing_size desired evidence n size
evaluate_prerequisite desired evidence (ActionPrerequisite.capacity_available domain amount) =
    evaluate_capacity evidence domain amount
evaluate_prerequisite desired evidence (ActionPrerequisite.mount_target_available target context) =
    if is_mounted_at desired target context
    then violated "mount target is already occupied"
    else satisfied (mount_evidence evidence)
evaluate_prerequisite desired evidence
      (ActionPrerequisite.mount_descendants_absent target context) =
    if has_mounted_descendant desired target context
    then violated "mount target still contains an active descendant"
    else satisfied (mount_evidence evidence)

unfoldable pub evaluate_prerequisites :
    DesiredState → SimulationEvidence → List ActionPrerequisite → List PrerequisiteCheck
unfolding evaluate_prerequisite
evaluate_prerequisites desired evidence prerequisites =
    map (λ p. record { prerequisite = p; status = evaluate_prerequisite desired evidence p })
      prerequisites
