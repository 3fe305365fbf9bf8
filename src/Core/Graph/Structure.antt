-- ===== src/Core/Graph/Structure.antt =====
-- storage-core/src/model/graph.rs: `validate_structure` and the checked import of a wire graph.
-- The five sets of the loop over the dependencies are the record `Seen`.
use pdisks.Base.{
  ℕ, List, [], ◌∷◌, ◌++◌, Bool, false, not, Option, none, some, Result, ok, err, require, ◌>>=◌,
  ◌>>◌, Eq, ◌==◌, nat_eq, eq_of_discrete, contains, if◌then◌else◌,
}
use native.Mathlib.Decide.{ℕ_discrete}
use pdisks.Core.Sizes.{Bytes}
use pdisks.Core.Node.{Node, NodeId, partition}
use pdisks.Core.Graph.{
  MdMemberRole, data_role, md, btrfs, CacheRole, DependencyKind, backs, contains_at, provides,
  member_of, caches, path, Dependency, Relation, NodeGraph, GraphError, duplicate_edge,
  duplicate_node, self_dependency, conflicting_owner, conflicting_role, partition_offset,
  insert_dependency, insert_relation, node, require_endpoints, lookup,
}
use pdisks.Core.Graph.Order.{topological_order}

-- `std::mem::discriminant` of a dependency's kind.
pub data KindTag : Type 0 where
  backs_tag contains_tag provides_tag member_tag caches_tag path_tag : KindTag

abbrev pub discriminant : DependencyKind → KindTag
discriminant backs = backs_tag
discriminant (contains_at _) = contains_tag
discriminant provides = provides_tag
discriminant (member_of _) = member_tag
discriminant (caches _) = caches_tag
discriminant path = path_tag

abbrev pub cache_role : DependencyKind → Option CacheRole
cache_role (caches role) = some role
cache_role _ = none

pub record LogicalEdge : Type 0 where
  pub from : NodeId
  pub to : NodeId
  pub tag : KindTag
  pub role : Option CacheRole

unfoldable pub LogicalEdge-discrete : Discrete LogicalEdge
LogicalEdge-discrete = hlevel ℕ_discrete

unfoldable pub slot_discrete : Discrete (NodeId × ℕ)
slot_discrete = hlevel ℕ_discrete

unfoldable pub cache_discrete : Discrete (NodeId × CacheRole)
cache_discrete = hlevel ℕ_discrete

unfoldable pub MdMemberRole-discrete : Discrete MdMemberRole
MdMemberRole-discrete = hlevel

instance abbrev pub logical_eq : Eq LogicalEdge
logical_eq = eq_of_discrete LogicalEdge-discrete

instance abbrev pub slot_eq : Eq (NodeId × ℕ)
slot_eq = eq_of_discrete slot_discrete

instance abbrev pub cache_eq : Eq (NodeId × CacheRole)
cache_eq = eq_of_discrete cache_discrete

instance abbrev pub md_role_eq : Eq MdMemberRole
md_role_eq = eq_of_discrete MdMemberRole-discrete

pub record Seen : Type 0 where
  pub owners : List NodeId
  pub logical_edges : List LogicalEdge
  pub md_slots : List (NodeId × ℕ)
  pub btrfs_ids : List (NodeId × ℕ)
  pub cache_roles : List (NodeId × CacheRole)

abbrev pub nothing_seen : Seen
nothing_seen = record {
  owners = [];
  logical_edges = [];
  md_slots = [];
  btrfs_ids = [];
  cache_roles = [];
}

-- `if !set.insert(a) { return Err(e) }`
abbrev pub insert_unique {ℓ} :
    {A : Type ℓ} ⦃e : Eq A⦄ → List A → A → GraphError → Result GraphError (List A)
insert_unique xs a error = if contains xs a then err error else ok (xs ++ a ∷ [])

abbrev pub logical_edge : Dependency → LogicalEdge
logical_edge d = record {
  from = d.from;
  to = d.to;
  tag = discriminant d.kind;
  role = cache_role d.kind;
}

-- `if let Some(Partition { offset: partition_offset, .. }) = .. && offset != partition_offset`
abbrev pub disagrees : Option Node → Bytes → Bool
disagrees none offset = false
disagrees (some n) offset = elim n.kind.kind [
  | partition _ start _ _ ↦ not (offset == start)
  | _ ↦ false
]

-- The `match &edge.kind` of the loop.
check_kind : NodeGraph → NodeId → DependencyKind → Seen → Result GraphError Seen
check_kind g to (contains_at offset) seen = do
  owners' ← insert_unique seen.owners to (conflicting_owner to)
  require (not (disagrees (node g to) offset)) (partition_offset to)
  ok (record seen { owners = owners' })
check_kind g to (member_of (md member)) seen = elim member.slot [
  | none ↦ ok seen
  | some slot ↦
      if member.role == data_role
      then (insert_unique seen.md_slots (to, slot) (conflicting_role to) >>= λ slots.
          ok (record seen { md_slots = slots }))
      else ok seen
]
check_kind g to (member_of (btrfs member)) seen = elim member.devid [
  | none ↦ ok seen
  | some devid ↦ do
    ids ← insert_unique seen.btrfs_ids (to, devid) (conflicting_role to)
    ok (record seen { btrfs_ids = ids })
]
check_kind g to (caches role) seen = do
  roles ← insert_unique seen.cache_roles (to, role) (conflicting_role to)
  ok (record seen { cache_roles = roles })
check_kind g to _ seen = ok seen

-- The body of the loop over the dependencies.
unfoldable pub check_edge : NodeGraph → Dependency → Seen → Result GraphError Seen
unfolding check_kind
check_edge g edge seen = do
  require_endpoints g edge.from edge.to
  require (not (edge.from == edge.to)) (self_dependency edge.from)
  logical ← insert_unique seen.logical_edges (logical_edge edge) (conflicting_role edge.to)
  check_kind g edge.to edge.kind (record seen { logical_edges = logical })

unfoldable pub check_edges : NodeGraph → List Dependency → Seen → Result GraphError (Unit {0})
check_edges g [] seen = ok tt
check_edges g (edge ∷ edges) seen = check_edge g edge seen >>= check_edges g edges

unfoldable pub check_relations : NodeGraph → List Relation → Result GraphError (Unit {0})
check_relations g [] = ok tt
check_relations g (edge ∷ edges) = do require_endpoints g edge.from edge.to; check_relations g edges

unfoldable pub validate_structure : NodeGraph → Result GraphError (Unit {0})
unfolding check_relations check_edges
validate_structure g = do
  check_relations g g.relations
  check_edges g g.dependencies nothing_seen
  topological_order g >>= λ _. ok tt

-- `NodeGraphDto`: what the wire holds before duplicates have been checked.
pub record NodeGraphDto : Type 0 where
  pub nodes : List (NodeId × Node)
  pub dependencies : List Dependency
  pub relations : List Relation

-- `NodesVisitor::visit_map`: repeated keys are refused.
unfoldable pub read_nodes :
    List (NodeId × Node) → List (NodeId × Node) → Result GraphError (List (NodeId × Node))
read_nodes [] nodes = ok nodes
read_nodes ((id, n) ∷ entries) nodes = elim (lookup id nodes) [
  | none ↦ read_nodes entries (nodes ++ (id, n) ∷ [])
  | some _ ↦ err (duplicate_node id)
]

unfoldable pub insert_dependencies : List Dependency → NodeGraph → Result GraphError NodeGraph
insert_dependencies [] g = ok g
insert_dependencies (edge ∷ edges) g =
    let (g', new) = insert_dependency edge g in
    require new duplicate_edge >> insert_dependencies edges g'

unfoldable pub insert_relations : List Relation → NodeGraph → Result GraphError NodeGraph
insert_relations [] g = ok g
insert_relations (edge ∷ edges) g =
    let (g', new) = insert_relation edge g in
    require new duplicate_edge >> insert_relations edges g'

-- `NodeGraph::try_from`, behind the reading of its nodes.
unfoldable pub try_from : NodeGraphDto → Result GraphError NodeGraph
unfolding insert_dependencies insert_relations
try_from dto = do
  nodes' ← read_nodes dto.nodes []
  g ←
      insert_dependencies dto.dependencies
        (record { nodes = nodes'; dependencies = []; relations = [] })
  g' ← insert_relations dto.relations g
  validate_structure g'
  ok g'
