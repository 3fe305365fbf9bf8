-- ===== src/Engine/Simulate/Effects.antt =====
-- storage-engine/src/effects.rs: effects on the desired state and its evidence.
-- A function that takes both by `&mut` returns both; an error leaves only an unpublished candidate.
pub mod Untouched
pub mod Known
pub mod Mounts
pub mod Steps
pub mod Views
pub mod Refinement
use pdisks.Base.{
  List, [], ◌∷◌, ◌++◌, Bool, true, false, not, ◌&&◌, ◌||◌, Option, none, some, Result, ok, err,
  require, ◌>>=◌, ◌>>◌, ◌==◌, nat_eq, any, contains, filter, put_key, drop_key, drop_member,
  if◌then◌else◌,
}
use Prim.Native.String.{String}
use pdisks.Core.Block.{FilePath}
use pdisks.Core.Kind.{btrfs}
use pdisks.Core.Node.{NodeId, Node, NodeFacts, NodeKind, partition, filesystem, Presence}
use pdisks.Core.Graph.{
  GraphError, NodeGraph, insert_new, replace_existing, insert_dependency, insert_relation,
  remove_node, remove_dependency, remove_relation,
}
use pdisks.Core.Graph
use pdisks.Core.Graph.Structure.{validate_structure}
use pdisks.Core.State.{DesiredState, MountContext, MountEntry, MountSource}
use pdisks.Provider.Contract.{GraphEffect, MountEffect, PredictedEffect, FactInvalidation}
use pdisks.Engine.Simulate.Data.{
  SimulationEvidence, EffectApplicationError, structure, duplicate_node, missing_node,
  wrong_node_kind, missing_dependency, missing_relation, occupied_mount_target, mounted_descendant,
  context_eq, path_eq,
}
use pdisks.Engine.Simulate.Evidence.{
  apply_allocation_effects, invalidate_filesystem_checks, invalidate_observations,
  mark_persistent_target,
}
use pdisks.Engine.Simulate.Checks.{is_mounted_at, has_mounted_descendant, is_unresolved}

-- A desired state and the evidence of its simulation.
pub record Projection : Type 0 where
  pub desired : DesiredState
  pub evidence : SimulationEvidence

-- `NodeFacts::default`
abbrev pub default_facts : NodeFacts
default_facts = record {
  lvm_active = none;
  observed_in = none;
  presence = Presence.unknown;
  identities = [];
  block = none;
  device = none;
}

-- `?` on the error of a graph
abbrev pub lift {ℓ} : {A : Type ℓ} → Result GraphError A → Result EffectApplicationError A
lift (ok a) = ok a
lift (err e) = err (structure e)

abbrev pub with_graph : Projection → NodeGraph → Projection
with_graph p g = record p { desired = record p.desired { graph = g } }

abbrev pub with_kind : Node → NodeKind → Node
with_kind value kind = record value { kind = record value.kind { kind = kind } }

-- An update that returns false is `none`.
unfoldable pub update_node :
    Projection
    → (id : NodeId) (effect : String) → (Node → Option Node)
    → Result EffectApplicationError Projection
update_node p id effect update = elim (Graph.node p.desired.graph id) [
  | none ↦ err (missing_node id)
  | some value ↦ elim (update value) [
    | none ↦ err (wrong_node_kind id effect)
    | some updated ↦
        let (g, replaced) = replace_existing id updated p.desired.graph in
        lift replaced >>= λ _. ok (record {
          desired = record p.desired { graph = g };
          evidence =
              if contains p.evidence.projected_graph_nodes id
              then p.evidence
              else record p.evidence {
                projected_graph_nodes = p.evidence.projected_graph_nodes ++ id ∷ [];
              };
        })
  ]
]

-- The body of the loop over the graph effects.
unfoldable pub apply_graph_effect :
    GraphEffect → Projection → Result EffectApplicationError Projection
apply_graph_effect (GraphEffect.insert_node id spec) p = elim (Graph.node p.desired.graph id) [
  | some _ ↦ err (duplicate_node id)
  | none ↦
      let (g, inserted) =
        insert_new id (record { kind = spec; size = default_facts }) p.desired.graph in
      lift inserted >>= λ _. ok (record {
        desired = record p.desired { graph = g };
        evidence = record p.evidence {
          projected_graph_nodes = p.evidence.projected_graph_nodes ++ id ∷ [];
        };
      })
]
apply_graph_effect (GraphEffect.remove_node n) p =
    let (g, removed) = remove_node n p.desired.graph in
    elim removed [
      | none ↦ err (missing_node n)
      | some _ ↦ ok (record {
        desired = record p.desired { graph = g };
        evidence = record p.evidence {
          projected_graph_nodes =
              filter (λ candidate. not (candidate == n)) p.evidence.projected_graph_nodes;
          activations = drop_key p.evidence.activations n;
          block_interfaces = drop_key p.evidence.block_interfaces n;
        };
      })
    ]
apply_graph_effect (GraphEffect.set_node_size n size) p =
    update_node p n "set node size"
      λ value. some (record value { kind = record value.kind { size = some size } })
apply_graph_effect (GraphEffect.invalidate_node_size n) p =
    update_node p n "invalidate node size"
      λ value. some (record value { kind = record value.kind { size = none } })
apply_graph_effect (GraphEffect.set_partition_attributes n attributes) p =
    update_node p n "set partition attributes" λ value. elim value.kind.kind [
      | partition number offset role _ ↦
          some (with_kind value (partition number offset role attributes))
      | _ ↦ none
    ]
apply_graph_effect (GraphEffect.set_filesystem_label n label) p =
    update_node p n "set filesystem label" λ value. elim value.kind.kind [
      | filesystem kind _ ↦ some (with_kind value (filesystem kind label))
      | _ ↦ none
    ]
apply_graph_effect (GraphEffect.set_btrfs_allocation n allocation) p =
    update_node p n "set Btrfs allocation" λ value. elim value.kind.kind [
      | filesystem (btrfs _) label ↦ some (with_kind value (filesystem (btrfs allocation) label))
      | _ ↦ none
    ]
apply_graph_effect (GraphEffect.insert_dependency d) p =
    ok (with_graph p (insert_dependency d p.desired.graph).0)
apply_graph_effect (GraphEffect.remove_dependency d) p =
    let (g, removed) = remove_dependency d p.desired.graph in
    if removed then ok (with_graph p g) else err missing_dependency
apply_graph_effect (GraphEffect.insert_relation r) p =
    ok (with_graph p (insert_relation r p.desired.graph).0)
apply_graph_effect (GraphEffect.remove_relation r) p =
    let (g, removed) = remove_relation r p.desired.graph in
    if removed then ok (with_graph p g) else err missing_relation
apply_graph_effect (GraphEffect.set_activation n active) p = elim (Graph.node p.desired.graph n) [
  | none ↦ err (missing_node n)
  | some _ ↦ ok (record p {
    evidence = record p.evidence {
      activations = put_key p.evidence.activations n active;
      block_interfaces =
          if active then p.evidence.block_interfaces else drop_key p.evidence.block_interfaces n;
    };
  })
]

unfoldable pub apply_graph_effects :
    List GraphEffect → Projection → Result EffectApplicationError Projection
apply_graph_effects [] p = ok p
apply_graph_effects (effect ∷ effects) p =
    apply_graph_effect effect p >>= apply_graph_effects effects

-- The clean-check guarantees that a new mount of a source leaves.
abbrev pub checks_beside : MountSource → List NodeId → List NodeId
checks_beside (MountSource.filesystem n) checked = drop_member checked n
checks_beside source checked = if is_unresolved source then [] else checked

-- `mount.target != *target || mount.context != *context`
abbrev pub is_elsewhere : (target : FilePath) → MountContext → MountEntry → Bool
is_elsewhere target context mount = not (mount.target == target) || not (mount.context == context)

-- The body of the loop over the mount effects.
unfoldable pub apply_mount_effect :
    MountEffect → Projection → Result EffectApplicationError Projection
apply_mount_effect (MountEffect.add_runtime source target options context) p = do
  require (not (is_mounted_at p.desired target context)) (occupied_mount_target target)
  require (not (has_mounted_descendant p.desired target context)) (mounted_descendant target)
  ok (record {
    desired = record p.desired {
      mounts = record p.desired.mounts {
        runtime =
            p.desired.mounts.runtime
            ++ record { source = source; target = target; options = options; context = context }
              ∷ [];
      };
    };
    evidence = record p.evidence {
      checked_filesystems = checks_beside source p.evidence.checked_filesystems;
      projected_runtime_mounts = true;
    };
  })
apply_mount_effect (MountEffect.remove_runtime target context) p = do
  require (not (has_mounted_descendant p.desired target context)) (mounted_descendant target)
  ok (record {
    desired = record p.desired {
      mounts = record p.desired.mounts {
        runtime = filter (is_elsewhere target context) p.desired.mounts.runtime;
      };
    };
    evidence = record p.evidence { projected_runtime_mounts = true };
  })
apply_mount_effect (MountEffect.set_persistent entry) p = ok (record {
  desired = record p.desired {
    mounts = record p.desired.mounts {
      persistent =
          filter (is_elsewhere entry.target entry.context) p.desired.mounts.persistent
          ++ entry ∷ [];
    };
  };
  evidence = mark_persistent_target p.evidence entry.target entry.context;
})
apply_mount_effect (MountEffect.remove_persistent target context) p = ok (record {
  desired = record p.desired {
    mounts = record p.desired.mounts {
      persistent = filter (is_elsewhere target context) p.desired.mounts.persistent;
    };
  };
  evidence = mark_persistent_target p.evidence target context;
})

unfoldable pub apply_mount_effects :
    List MountEffect → Projection → Result EffectApplicationError Projection
apply_mount_effects [] p = ok p
apply_mount_effects (effect ∷ effects) p =
    apply_mount_effect effect p >>= apply_mount_effects effects

-- The candidate that is published when every step succeeds.
unfoldable pub project :
    Projection
    → PredictedEffect
    → List FactInvalidation
    → Result EffectApplicationError (Projection × List FactInvalidation)
project p effect invalidations = do
  let (invalidated, noted) = invalidate_observations p.desired invalidations p.evidence
  let unchecked = invalidate_filesystem_checks p.desired invalidations noted
  built ← apply_graph_effects effect.graph (record { desired = p.desired; evidence = unchecked })
  mounted ← apply_mount_effects effect.mounts built
  charged ← apply_allocation_effects effect.allocations mounted.evidence
  lift (validate_structure mounted.desired.graph)
  ok (record { desired = mounted.desired; evidence = charged }, invalidated)

unfoldable pub apply_effect_with_invalidations :
    Projection
    → PredictedEffect
    → List FactInvalidation
    → Projection × Result EffectApplicationError (List FactInvalidation)
apply_effect_with_invalidations p effect invalidations = elim (project p effect invalidations) [
  | ok (next, invalidated) ↦ (next, ok invalidated)
  | err e ↦ (p, err e)
]
