-- ===== src/Engine/Simulate/Goal/Graphs.antt =====
-- storage-engine/src/simulate.rs: what a satisfied check of the graph says.
use mathlib.Core.List.{Memᴰ}
use mathlib.Core.List.Memᴰ
use pdisks.Base.{
  ◌≡◌, ◌↔◌, ◌⊎◌, inl, inr, refl, sym, ap, ◌∙◌, suc, List, [], ◌∷◌, Bool, true, false, ◌&&◌, none,
  some, arith, nat_eq, ◌==◌, Eq, all, all-mem, length, nat_beq, nat_beq_iff, contains, contains_iff,
  Unrepeated, Bool-cases, Option-cases,
}
use pdisks.Core.Node.{Node, NodeId}
use pdisks.Core.Graph.{Dependency, NodeGraph, Relation, dependency_eq, lookup, relation_eq}
use pdisks.Core.Graph.Counting.{subset-full}
use pdisks.Core.Graph.Order.{keys}
use pdisks.Core.Graph.Sets.{IsSetLike, lookup-none}
use pdisks.Engine.Simulate.Goal.{
  compare_graph, compare_sizes, has_kind, node_kind_eq, satisfied, topology_matches,
}

lookup-mem :
    (id : NodeId) (v : Node) (ns : List (NodeId × Node)) → lookup id ns ≡ some v → Memᴰ (id, v) ns
lookup-mem id v [] h = cc
lookup-mem id v ((k, x) ∷ ns) h = elim (Bool-cases (k == id)) [
  | inl q ↦
      let same_id = (nat_eq.same_iff k id).0 q in
      let same : x ≡ v = ground arith in Memᴰ.head (λ i. (sym same_id i, sym same i))
  | inr q ↦ Memᴰ.tail (lookup-mem id v ns (ground arith))
]

keys-mem :
    (id : NodeId) (v : Node) (ns : List (NodeId × Node)) → Memᴰ (id, v) ns → Memᴰ id (keys ns)
keys-mem id v [] m = absurd (Memᴰ.not-nil m)
keys-mem id v ((k, x) ∷ ns) m = elim (Memᴰ.cases_cons m) [
  | inl e ↦ Memᴰ.head (ap (λ p. p.0) e)
  | inr t ↦ Memᴰ.tail (keys-mem id v ns t)
]

length-keys : (ns : List (NodeId × Node)) → length (keys ns) ≡ length ns
length-keys [] = refl
length-keys (x ∷ ns) = ap suc (length-keys ns)

-- The requested size of a node is unmanaged or the predicted one.
abbrev pub HasSize : NodeGraph → NodeId → Node → Type 0
HasSize projected id goal =
    (goal.kind.size ≡ none)
    ⊎ ((v : Node) × (lookup id projected.nodes ≡ some v) × (v.kind.size ≡ goal.kind.size))

compare_sizes-missing :
    (projected : NodeGraph) (ns : List (NodeId × Node))
    → compare_sizes projected ns true ≡ satisfied
    → ⊥
unfolding compare_sizes
compare_sizes-missing projected [] h = cc
compare_sizes-missing projected ((id, goal) ∷ ns) h = elim (Option-cases goal.kind.size) [
  | inl q ↦ ground (arith, compare_sizes-missing projected ns)
  | inr (size, q) ↦ elim (Option-cases (lookup id projected.nodes)) [
    | inl k ↦ ground (arith, compare_sizes-missing projected ns)
    | inr (v, k) ↦ elim (Option-cases v.kind.size) [
      | inl s ↦ ground (arith, compare_sizes-missing projected ns)
      | inr (actual, s) ↦ elim (Bool-cases (actual == size)) [
        | inl t ↦ ground (arith, compare_sizes-missing projected ns)
        | inr t ↦ ground arith
      ]
    ]
  ]
]

-- What one requested node and the rest of the requested nodes give.
compare_sizes-cons :
    (projected : NodeGraph) (id : NodeId) (goal : Node) (ns : List (NodeId × Node))
    → compare_sizes projected ((id, goal) ∷ ns) false ≡ satisfied
    → HasSize projected id goal × (compare_sizes projected ns false ≡ satisfied)
unfolding compare_sizes
compare_sizes-cons projected id goal ns h = elim (Option-cases goal.kind.size) [
  | inl q ↦ (inl q, ground arith)
  | inr (size, q) ↦ elim (Option-cases (lookup id projected.nodes)) [
    | inl k ↦ absurd (compare_sizes-missing projected ns (ground arith))
    | inr (v, k) ↦ elim (Option-cases v.kind.size) [
      | inl s ↦ absurd (compare_sizes-missing projected ns (ground arith))
      | inr (actual, s) ↦ elim (Bool-cases (actual == size)) [
        | inl t ↦
            let same = (nat_eq.same_iff actual size).0 t in
            (inr (v, k, s ∙ ap some same ∙ sym q), ground arith)
        | inr t ↦ absurd (ground arith)
      ]
    ]
  ]
]

compare_sizes-mem :
    (projected : NodeGraph) (ns : List (NodeId × Node)) (id : NodeId) (goal : Node)
    → compare_sizes projected ns false ≡ satisfied
    → Memᴰ (id, goal) ns
    → HasSize projected id goal
compare_sizes-mem projected [] id goal h m = absurd (Memᴰ.not-nil m)
compare_sizes-mem projected ((k, x) ∷ ns) id goal h m =
    let (here, rest) = compare_sizes-cons projected k x ns h in
    elim (Memᴰ.cases_cons m) [
      | inl e ↦ rw (ap (λ p. p.0) e, ap (λ p. p.1) e) here
      | inr t ↦ compare_sizes-mem projected ns id goal rest t
    ]

-- A predicted node is requested with its kind.
has_kind-lookup :
    (requested : NodeGraph) (id : NodeId) (v : Node)
    → has_kind requested (id, v) ≡ true
    → (goal : Node) × (lookup id requested.nodes ≡ some goal) × (v.kind.kind ≡ goal.kind.kind)
has_kind-lookup requested id v h = elim (Option-cases (lookup id requested.nodes)) [
  | inl q ↦ absurd (ground arith)
  | inr (goal, q) ↦
      (goal, q, sym ((node_kind_eq.same_iff goal.kind.kind v.kind.kind).0 (ground arith)))
]

six_tests :
    (a b c d e f : Bool)
    → (a && b && c && d && e && f) ≡ true
    → (a ≡ true) × (b ≡ true) × (c ≡ true) × (d ≡ true) × (e ≡ true) × (f ≡ true)
six_tests true true true true true true h = (refl, refl, refl, refl, refl, refl)
six_tests false b c d e f h = absurd (ground arith)
six_tests true false c d e f h = absurd (ground arith)
six_tests true true false d e f h = absurd (ground arith)
six_tests true true true false e f h = absurd (ground arith)
six_tests true true true true false f h = absurd (ground arith)
six_tests true true true true true false h = absurd (ground arith)

-- What the tests of the topology say, one by one.
topology-parts :
    (projected requested : NodeGraph)
    → topology_matches projected requested ≡ true
    → ((length projected.nodes ≡ length requested.nodes)
        × (all (has_kind requested) projected.nodes ≡ true))
      × ((length projected.dependencies ≡ length requested.dependencies)
          × (all (λ d. contains requested.dependencies d) projected.dependencies ≡ true))
      × ((length projected.relations ≡ length requested.relations)
          × (all (λ r. contains requested.relations r) projected.relations ≡ true))
topology-parts projected requested h =
    let (a, b, c, d, e, f) =
      six_tests (nat_beq (length projected.nodes) (length requested.nodes))
        (all (has_kind requested) projected.nodes)
        (nat_beq (length projected.dependencies) (length requested.dependencies))
        (all (λ d. contains requested.dependencies d) projected.dependencies)
        (nat_beq (length projected.relations) (length requested.relations))
        (all (λ r. contains requested.relations r) projected.relations) h in
    (((nat_beq_iff _ _).0 a, b), ((nat_beq_iff _ _).0 c, d), ((nat_beq_iff _ _).0 e, f))

-- A set of the size of another one that contains all of it has the same members.
same_members {ℓ} :
    {A : Type ℓ} ⦃e : Eq A⦄ (xs ys : List A) (a : A)
    → Unrepeated xs
    → length xs ≡ length ys
    → all (λ x. contains ys x) xs ≡ true
    → Memᴰ a xs ↔ Memᴰ a ys
same_members {A} ⦃e⦄ xs ys a u l h =
    let within : (b : A) → Memᴰ b xs → Memᴰ b ys =
      λ b m. (contains_iff ⦃e = e⦄ ys b).0 (all-mem (λ x. contains ys x) xs b h m) in
    (within a, subset-full ⦃e = e⦄ xs ys u within (omega arith) a)

-- As many nodes as are requested, each of them requested: each requested node is there.
predicted :
    (projected requested : NodeGraph)
    → Unrepeated (keys projected.nodes)
    → length projected.nodes ≡ length requested.nodes
    → ((id : NodeId) (v : Node)
        → lookup id projected.nodes ≡ some v
        → (goal : Node) × (lookup id requested.nodes ≡ some goal) × (v.kind.kind ≡ goal.kind.kind))
    → (id : NodeId) (goal : Node) → lookup id requested.nodes ≡ some goal
    → (v : Node) × (lookup id projected.nodes ≡ some v) × (v.kind.kind ≡ goal.kind.kind)
predicted projected requested u l kind_of id goal k =
    let within : (n : NodeId) → Memᴰ n (keys projected.nodes) → Memᴰ n (keys requested.nodes) =
      λ n m. elim (Option-cases (lookup n projected.nodes)) [
        | inl q ↦ absurd (lookup-none n projected.nodes q m)
        | inr (v, q) ↦
            let (g, k', _) = kind_of n v q in
            keys-mem n g requested.nodes (lookup-mem n g requested.nodes k')
      ] in
    let there =
      subset-full (keys projected.nodes) (keys requested.nodes) u within
        (omega (arith, length-keys projected.nodes, length-keys requested.nodes)) id
        (keys-mem id goal requested.nodes (lookup-mem id goal requested.nodes k)) in
    elim (Option-cases (lookup id projected.nodes)) [
      | inl q ↦ absurd (lookup-none id projected.nodes q there)
      | inr (v, q) ↦
          let (g, k', same) = kind_of id v q in
          let goals : g ≡ goal = ground arith in (v, q, same ∙ ap (λ x. x.kind.kind) goals)
    ]

-- A satisfied check of the graph is a match: the predicted graph has exactly the dependencies and the
-- relations of the requested one, each of its nodes is requested, and each requested node is predicted
-- with its kind and, where the request manages it, its size.
pub compare_graph_satisfied :
    (projected requested : NodeGraph)
    → IsSetLike projected
    → compare_graph projected requested ≡ satisfied
    → ((d : Dependency) → Memᴰ d projected.dependencies ↔ Memᴰ d requested.dependencies)
      × ((r : Relation) → Memᴰ r projected.relations ↔ Memᴰ r requested.relations)
      × ((id : NodeId) (v : Node)
          → lookup id projected.nodes ≡ some v
          → (goal : Node) × (lookup id requested.nodes ≡ some goal))
      × ((id : NodeId) (goal : Node)
          → lookup id requested.nodes ≡ some goal
          → ((v : Node) × (lookup id projected.nodes ≡ some v) × (v.kind.kind ≡ goal.kind.kind))
            × HasSize projected id goal)
unfolding compare_graph
compare_graph_satisfied projected requested w h =
    elim (Bool-cases (topology_matches projected requested)) [
      | inr q ↦ absurd (ground arith)
      | inl q ↦
          let ((l1, n), (l2, d), (l3, r)) = topology-parts projected requested q in
          let sizes : compare_sizes projected requested.nodes false ≡ satisfied = ground arith in
          let kind_of : (id : NodeId) (v : Node)
              → lookup id projected.nodes ≡ some v
              → (goal : Node) × (lookup id requested.nodes ≡ some goal)
                × (v.kind.kind ≡ goal.kind.kind) =
            λ id v k. has_kind-lookup requested id v (
              all-mem (has_kind requested) projected.nodes (id, v) n
                (lookup-mem id v projected.nodes k)) in
          (
            (λ x. same_members projected.dependencies requested.dependencies x w.dependencies l2 d),
            (λ x. same_members projected.relations requested.relations x w.relations l3 r),
            (λ id v k. let (goal, k', _) = kind_of id v k in (goal, k')),
            λ id goal k. (
              predicted projected requested w.nodes l1 kind_of id goal k,
              compare_sizes-mem projected requested.nodes id goal sizes
                  (lookup-mem id goal requested.nodes k),
            ),
          )
    ]
