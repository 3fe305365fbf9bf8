-- ===== src/Core/Graph/Order.antt =====
-- storage-core/src/model/graph.rs: `ancestors` and `topological_order`.
-- A `HashMap` is an association list. The loops take fuel, one round for each node of the graph and
-- one for each dependency and one more; at the end of the fuel a loop returns its state as it stands.
use pdisks.Base.{
  ℕ, zero, suc, ◌+◌, ◌-◌, List, [], ◌∷◌, ◌++◌, map, not, ◌&&◌, Option, none, some, Result, ok, err,
  require, ◌>>=◌, ◌>>◌, ◌==◌, nat_eq, nat_beq, contains, length, if◌then◌else◌,
}
use pdisks.Core.Node.{NodeId}
use pdisks.Core.Graph.{
  Dependency, NodeGraph, GraphError, self_dependency, dependency_cycle, remove_member,
  require_endpoints,
}

abbrev pub Degrees : Type 0
Degrees = List (NodeId × ℕ)

abbrev pub Outgoing : Type 0
Outgoing = List (NodeId × List NodeId)

abbrev pub keys {ℓ} : {A : Type ℓ} → List (NodeId × A) → List NodeId
keys [] = []
keys ((k, _) ∷ rest) = k ∷ keys rest

-- `*indegrees.entry(to).or_default() += 1`
abbrev pub bump : NodeId → Degrees → Degrees
bump to [] = (to, 1) ∷ []
bump to ((k, n) ∷ rest) = if k == to then (k, n + 1) ∷ rest else (k, n) ∷ bump to rest

-- `outgoing.entry(from).or_default().push(to)`
abbrev pub push_out : NodeId → NodeId → Outgoing → Outgoing
push_out from to [] = (from, to ∷ []) ∷ []
push_out from to ((k, ts) ∷ rest) =
    if k == from then (k, ts ++ to ∷ []) ∷ rest else (k, ts) ∷ push_out from to rest

abbrev pub degree_of : NodeId → Degrees → Option ℕ
degree_of id [] = none
degree_of id ((k, n) ∷ rest) = if k == id then some n else degree_of id rest

-- `outgoing.get(&id).into_iter().flatten()`
abbrev pub targets_of : NodeId → Outgoing → List NodeId
targets_of id [] = []
targets_of id ((k, ts) ∷ rest) = if k == id then ts else targets_of id rest

abbrev pub set_degree : NodeId → ℕ → Degrees → Degrees
set_degree id d [] = []
set_degree id d ((k, n) ∷ rest) = if k == id then (k, d) ∷ rest else (k, n) ∷ set_degree id d rest

-- The loop over the dependencies that counts degrees and collects the outgoing edges.
unfoldable pub count_edges :
    NodeGraph → List Dependency → Degrees → Outgoing → Result GraphError (Degrees × Outgoing)
count_edges g [] indegrees outgoing = ok (indegrees, outgoing)
count_edges g (edge ∷ edges) indegrees outgoing = do
  require_endpoints g edge.from edge.to
  require (not (edge.from == edge.to)) (self_dependency edge.from)
  count_edges g edges (bump edge.to indegrees) (push_out edge.from edge.to outgoing)

-- `filter_map(|(id, degree)| (*degree == 0).then_some(*id))`
abbrev pub zero_degree : Degrees → List NodeId
zero_degree [] = []
zero_degree ((k, n) ∷ rest) =
    let others = zero_degree rest in if nat_beq n 0 then k ∷ others else others

-- The inner loop: each target loses one degree, and is queued when none is left.
unfoldable pub release : List NodeId → Degrees → List NodeId → Degrees × List NodeId
release [] indegrees ready = (indegrees, ready)
release (to ∷ ts) indegrees ready = elim (degree_of to indegrees) [
  | none ↦ release ts indegrees ready
  | some degree ↦
      release ts (set_degree to (degree - 1) indegrees)
        (if nat_beq (degree - 1) 0 then ready ++ to ∷ [] else ready)
]

-- `while let Some(id) = ready.pop_front()`: what is still queued, and the order.
unfoldable pub drain :
    ℕ → Outgoing → Degrees → (ready order : List NodeId) → List NodeId × List NodeId
drain zero outgoing indegrees ready order = (ready, order)
drain (suc fuel) outgoing indegrees ready order = elim ready [
  | [] ↦ ([], order)
  | id ∷ rest ↦
      let (indegrees', ready') = release (targets_of id outgoing) indegrees rest in
      drain fuel outgoing indegrees' ready' (order ++ id ∷ [])
]

unfoldable pub topological_order : NodeGraph → Result GraphError (List NodeId)
unfolding count_edges drain release
topological_order g =
    count_edges g g.dependencies (map (λ entry. (entry.0, 0)) g.nodes) []
    >>= λ (indegrees, outgoing).
        let order = (drain (length g.nodes) outgoing indegrees (zero_degree indegrees) []).1 in
        if nat_beq (length order) (length g.nodes) then ok order else err dependency_cycle

-- One popped node of `ancestors`: its unvisited sources are marked and pushed. `pending` is the
-- stack with its top first.
unfoldable pub push_sources :
    NodeId → List Dependency → (visited pending : List NodeId) → List NodeId × List NodeId
push_sources node [] visited pending = (visited, pending)
push_sources node (edge ∷ edges) visited pending =
    let fresh = (edge.to == node) && not (contains visited edge.from) in
    push_sources node edges (if fresh then visited ++ edge.from ∷ [] else visited)
      (if fresh then edge.from ∷ pending else pending)

-- The visited nodes and what is left of the stack.
unfoldable pub ancestor_loop :
    ℕ → List Dependency → (visited pending : List NodeId) → List NodeId × List NodeId
ancestor_loop zero edges visited pending = (visited, pending)
ancestor_loop (suc fuel) edges visited pending = elim pending [
  | [] ↦ (visited, [])
  | node ∷ rest ↦
      let (visited', pending') = push_sources node edges visited rest in
      ancestor_loop fuel edges visited' pending'
]

unfoldable pub ancestors : NodeGraph → NodeId → List NodeId
unfolding ancestor_loop push_sources
ancestors g id =
    remove_member id
      (ancestor_loop (length g.dependencies + 1) g.dependencies (id ∷ []) (id ∷ [])).0
