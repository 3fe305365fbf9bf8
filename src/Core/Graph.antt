-- ===== src/Core/Graph.antt =====
-- storage-core/src/model/graph.rs: the storage graph.
-- `HashMap` and `HashSet` are lists in their iteration order, which the code does not fix: a theorem
-- about a graph holds for each order.
pub mod Order
pub mod Structure
pub mod Sets
pub mod Counting
use pdisks.Base.{
  ℕ, List, [], ◌∷◌, ◌++◌, Bool, true, false, Option, none, some, Result, ok, err, require, ◌>>◌, Eq,
  ◌==◌, nat_eq, eq_of_discrete, contains, any, if◌then◌else◌,
}
use native.Mathlib.Decide.{ℕ_discrete}
use pdisks.Core.Sizes.{Bytes}
use pdisks.Core.Kind.{ZfsMember}
use pdisks.Core.Node.{Node, NodeId}

pub record BtrfsMember : Type 0 where
  pub devid : Option ℕ

pub data MdMemberRole : Type 0 where
  data_role spare replacement journal : MdMemberRole

pub record MdMember : Type 0 where
  pub role : MdMemberRole
  pub slot : Option ℕ
  pub data_offset : Option Bytes

pub data MemberRole : Type 0 where
  lvm_pv : MemberRole
  md : MdMember → MemberRole
  btrfs : BtrfsMember → MemberRole
  zfs : ZfsMember → MemberRole

pub data CacheRole : Type 0 where
  data_role metadata : CacheRole

pub data DependencyKind : Type 0 where
  backs : DependencyKind
  contains_at : (offset : Bytes) → DependencyKind
  provides : DependencyKind
  member_of : MemberRole → DependencyKind
  caches : CacheRole → DependencyKind
  path : DependencyKind

pub data RelationKind : Type 0 where
  snapshot_of nvme_attached_to replicates : RelationKind

pub record Dependency : Type 0 where
  pub from : NodeId
  pub to : NodeId
  pub kind : DependencyKind

pub record Relation : Type 0 where
  pub from : NodeId
  pub to : NodeId
  pub kind : RelationKind

unfoldable pub Dependency-discrete : Discrete Dependency
Dependency-discrete = hlevel ℕ_discrete

unfoldable pub Relation-discrete : Discrete Relation
Relation-discrete = hlevel ℕ_discrete

instance abbrev pub dependency_eq : Eq Dependency
dependency_eq = eq_of_discrete Dependency-discrete

instance abbrev pub relation_eq : Eq Relation
relation_eq = eq_of_discrete Relation-discrete

pub record NodeGraph : Type 0 where
  pub nodes : List (NodeId × Node)
  pub dependencies : List Dependency
  pub relations : List Relation

pub data GraphError : Type 0 where
  duplicate_node missing_node : NodeId → GraphError
  duplicate_edge : GraphError
  self_dependency : NodeId → GraphError
  dependency_cycle : GraphError
  conflicting_owner conflicting_role partition_offset : NodeId → GraphError

-- `HashMap::get`, `insert` at a vacant key, the replacement at an occupied key, and `remove`.
abbrev pub lookup : NodeId → List (NodeId × Node) → Option Node
lookup id [] = none
lookup id ((k, v) ∷ rest) = if k == id then some v else lookup id rest

abbrev pub replace : NodeId → Node → List (NodeId × Node) → List (NodeId × Node)
replace id node [] = []
replace id node ((k, v) ∷ rest) =
    if k == id then (k, node) ∷ rest else (k, v) ∷ replace id node rest

abbrev pub remove_key : NodeId → List (NodeId × Node) → List (NodeId × Node)
remove_key id [] = []
remove_key id ((k, v) ∷ rest) = if k == id then rest else (k, v) ∷ remove_key id rest

-- `HashSet::remove`
abbrev pub remove_member {ℓ} : {A : Type ℓ} ⦃e : Eq A⦄ → A → List A → List A
remove_member a [] = []
remove_member a (x ∷ xs) = if x == a then xs else x ∷ remove_member a xs

abbrev pub new_graph : NodeGraph
new_graph = record { nodes = []; dependencies = []; relations = [] }

-- A method that takes `&mut self` returns the graph too.
unfoldable pub insert_new : NodeId → Node → NodeGraph → NodeGraph × Result GraphError (Unit {0})
insert_new id node g = elim (lookup id g.nodes) [
  | none ↦ (record g { nodes = g.nodes ++ (id, node) ∷ [] }, ok tt)
  | some _ ↦ (g, err (duplicate_node id))
]

unfoldable pub replace_existing : NodeId → Node → NodeGraph → NodeGraph × Result GraphError Node
replace_existing id node g = elim (lookup id g.nodes) [
  | none ↦ (g, err (missing_node id))
  | some old ↦ (record g { nodes = replace id node g.nodes }, ok old)
]

unfoldable pub insert_dependency : Dependency → NodeGraph → NodeGraph × Bool
insert_dependency d g =
    if contains g.dependencies d
    then (g, false)
    else (record g { dependencies = g.dependencies ++ d ∷ [] }, true)

unfoldable pub insert_relation : Relation → NodeGraph → NodeGraph × Bool
insert_relation r g =
    if contains g.relations r
    then (g, false)
    else (record g { relations = g.relations ++ r ∷ [] }, true)

unfoldable pub remove_node : NodeId → NodeGraph → NodeGraph × Option Node
remove_node id g = (record g { nodes = remove_key id g.nodes }, lookup id g.nodes)

unfoldable pub remove_dependency : Dependency → NodeGraph → NodeGraph × Bool
remove_dependency d g =
    (record g { dependencies = remove_member d g.dependencies }, contains g.dependencies d)

unfoldable pub remove_relation : Relation → NodeGraph → NodeGraph × Bool
remove_relation r g = (record g { relations = remove_member r g.relations }, contains g.relations r)

abbrev pub node : NodeGraph → NodeId → Option Node
node g id = lookup id g.nodes

abbrev pub contains_key : NodeGraph → NodeId → Bool
contains_key g id = any (λ entry. entry.0 == id) g.nodes

-- The loop of `require_endpoints` over `[from, to]`.
unfoldable pub require_endpoints : NodeGraph → NodeId → NodeId → Result GraphError (Unit {0})
require_endpoints g from to = do
  require (contains_key g from) (missing_node from)
  require (contains_key g to) (missing_node to)
