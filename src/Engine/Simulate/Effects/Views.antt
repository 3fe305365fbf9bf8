-- ===== src/Engine/Simulate/Effects/Views.antt =====
-- storage-engine/src/effects.rs: what the graph effects mean for the content of a graph, whatever the
-- order in which it is kept.
use pdisks.Base.{
  List, [], ◌∷◌, Bool, not, ◌&&◌, ◌||◌, Option, none, some, Result, ok, err, ◌==◌, nat_eq, contains,
  if◌then◌else◌,
}
use Prim.Native.String.{String}
use pdisks.Core.Sizes.{Bytes}
use pdisks.Core.Kind.{BtrfsAllocation, PartitionAttributes, btrfs}
use pdisks.Core.Node.{Node, NodeId, NodeKind, filesystem, partition}
use pdisks.Core.Graph.{Dependency, NodeGraph, Relation, dependency_eq, lookup, relation_eq}
use pdisks.Provider.Contract.{GraphEffect}
use pdisks.Engine.Simulate.Data.{EffectApplicationError}
use pdisks.Engine.Simulate.Effects.{Projection, default_facts}

-- A graph as a partial function and two sets.
pub record GraphView : Type 0 where
  pub node : NodeId → Option Node
  pub linked : Dependency → Bool
  pub related : Relation → Bool

abbrev pub view : NodeGraph → GraphView
view g = record {
  node = λ n. lookup n g.nodes;
  linked = λ d. contains g.dependencies d;
  related = λ r. contains g.relations r;
}

-- The function with one value changed.
abbrev pub assign : NodeId → Option Node → (NodeId → Option Node) → NodeId → Option Node
assign id value f n = if id == n then value else f n

-- A node with another size, and the kinds with another attribute; `none` on a wrong kind.
abbrev pub resized : Option Bytes → Node → Option Node
resized size n = some (record { kind = record { kind = n.kind.kind; size = size }; size = n.size })

abbrev pub reattributed : PartitionAttributes → NodeKind → Option NodeKind
reattributed attributes (partition number offset role _) =
    some (partition number offset role attributes)
reattributed attributes _ = none

abbrev pub relabelled : Option String → NodeKind → Option NodeKind
relabelled label (filesystem kind _) = some (filesystem kind label)
relabelled label _ = none

abbrev pub reallocated : BtrfsAllocation → NodeKind → Option NodeKind
reallocated allocation (filesystem (btrfs _) label) = some (filesystem (btrfs allocation) label)
reallocated allocation _ = none

abbrev pub rekinded : (NodeKind → Option NodeKind) → Node → Option Node
rekinded change n = elim (change n.kind.kind) [
  | none ↦ none
  | some kind ↦ some (record { kind = record { kind = kind; size = n.kind.size }; size = n.size })
]

-- A change of the node at an identity, where there is one that allows it.
abbrev pub revise : NodeId → (Node → Option Node) → GraphView → Option GraphView
revise id change v = elim (v.node id) [
  | none ↦ none
  | some old ↦ elim (change old) [
    | none ↦ none
    | some new ↦ some (record v { node = assign id (some new) v.node })
  ]
]

-- What an effect asks for; `none` is a refusal.
abbrev pub meaning : GraphEffect → GraphView → Option GraphView
meaning (GraphEffect.insert_node id spec) v = elim (v.node id) [
  | some _ ↦ none
  | none ↦
      some
        (record v { node = assign id (some (record { kind = spec; size = default_facts })) v.node })
]
meaning (GraphEffect.remove_node id) v = elim (v.node id) [
  | none ↦ none
  | some _ ↦ some (record v { node = assign id none v.node })
]
meaning (GraphEffect.set_node_size id size) v = revise id (resized (some size)) v
meaning (GraphEffect.invalidate_node_size id) v = revise id (resized none) v
meaning (GraphEffect.set_partition_attributes id a) v = revise id (rekinded (reattributed a)) v
meaning (GraphEffect.set_filesystem_label id l) v = revise id (rekinded (relabelled l)) v
meaning (GraphEffect.set_btrfs_allocation id a) v = revise id (rekinded (reallocated a)) v
meaning (GraphEffect.insert_dependency d) v = some (record v { linked = λ x. d == x || v.linked x })
meaning (GraphEffect.remove_dependency d) v =
    if v.linked d then some (record v { linked = λ x. not (d == x) && v.linked x }) else none
meaning (GraphEffect.insert_relation r) v = some (record v { related = λ x. r == x || v.related x })
meaning (GraphEffect.remove_relation r) v =
    if v.related r then some (record v { related = λ x. not (r == x) && v.related x }) else none
meaning (GraphEffect.set_activation id _) v = elim (v.node id) [ none ↦ none | some _ ↦ some v ]

-- One effect after the other, as far as none is refused.
unfoldable pub meanings : List GraphEffect → GraphView → Option GraphView
meanings [] v = some v
meanings (x ∷ xs) v = elim (meaning x v) [ none ↦ none | some w ↦ meanings xs w ]

-- What is seen of the graph of an outcome.
abbrev pub observe : Result EffectApplicationError Projection → Option GraphView
observe (ok p) = some (view p.desired.graph)
observe (err _) = none
