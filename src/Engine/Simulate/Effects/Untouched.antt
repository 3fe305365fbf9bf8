-- ===== src/Engine/Simulate/Effects/Untouched.antt =====
-- storage-engine/src/effects.rs: the graph effects as calls of the graph's methods, and what these
-- leave alone of a node they do not touch.
use pdisks.Base.{
  ◌≡◌, inl, inr, refl, sym, ap, ◌∙◌, List, [], ◌∷◌, ◌++◌, Bool, false, ◌||◌, Option, ok, arith, Eq,
  ◌==◌, nat_eq, any, contains, filter, Bool-cases, Option-cases, >>=-eq-ok,
}
use Prim.Native.String.{String}
use pdisks.Core.Node.{NodeId, Node}
use pdisks.Core.Graph.{
  Dependency, Relation, NodeGraph, lookup, replace, remove_key, remove_member, insert_new,
  replace_existing, insert_dependency, insert_relation, remove_node, remove_dependency,
  remove_relation, dependency_eq, relation_eq,
}
use pdisks.Core.Graph.Sets.{
  Edit, add_node, put_node, add_edge, drop_edge, relate, unrelate, drop_node, edit, edit_all,
}
use pdisks.Provider.Contract.{GraphEffect}
use pdisks.Engine.Simulate.Effects.{
  Projection, apply_graph_effect, apply_graph_effects, default_facts, update_node,
}
use pdisks.Engine.Simulate.Protect.{graph_effect_touches}

-- The edges at a node.
abbrev pub edges_at : NodeId → NodeGraph → List Dependency
edges_at n g = filter (λ d. d.from == n || d.to == n) g.dependencies

abbrev pub relations_at : NodeId → NodeGraph → List Relation
relations_at n g = filter (λ r. r.from == n || r.to == n) g.relations

-- The node, its dependencies and its relations are the same in two graphs.
pub record IsUntouched (n : NodeId) (g h : NodeGraph) : Type 0 where
  pub value : lookup n h.nodes ≡ lookup n g.nodes
  pub edges : edges_at n h ≡ edges_at n g
  pub relations : relations_at n h ≡ relations_at n g

pub IsUntouched-refl : (n : NodeId) (g : NodeGraph) → IsUntouched n g g
IsUntouched-refl n g = record { value = refl; edges = refl; relations = refl }

pub IsUntouched-trans :
    (n : NodeId) (g h k : NodeGraph) → IsUntouched n g h → IsUntouched n h k → IsUntouched n g k
IsUntouched-trans n g h k a b = record {
  value = b.value ∙ a.value;
  edges = b.edges ∙ a.edges;
  relations = b.relations ∙ a.relations;
}

lookup-append_ne :
    (ns : List (NodeId × Node)) (id n : NodeId) (v : Node)
    → (id == n) ≡ false
    → lookup n (ns ++ (id, v) ∷ []) ≡ lookup n ns
lookup-append_ne [] id n v h = ground arith
lookup-append_ne ((k, x) ∷ ns) id n v h = ground (arith, lookup-append_ne ns id n v h)

lookup-replace_ne :
    (ns : List (NodeId × Node)) (id n : NodeId) (v : Node)
    → (id == n) ≡ false
    → lookup n (replace id v ns) ≡ lookup n ns
lookup-replace_ne [] id n v h = refl
lookup-replace_ne ((k, x) ∷ ns) id n v h = ground (arith, lookup-replace_ne ns id n v h)

lookup-remove_ne :
    (ns : List (NodeId × Node)) (id n : NodeId)
    → (id == n) ≡ false
    → lookup n (remove_key id ns) ≡ lookup n ns
lookup-remove_ne [] id n h = refl
lookup-remove_ne ((k, x) ∷ ns) id n h = ground (arith, lookup-remove_ne ns id n h)

pub filter-append_false {ℓ} :
    {A : Type ℓ} (p : A → Bool) (xs : List A) (x : A)
    → p x ≡ false
    → filter p (xs ++ x ∷ []) ≡ filter p xs
filter-append_false p [] x h = ground arith
filter-append_false p (y ∷ xs) x h = ground (arith, filter-append_false p xs x h)

filter-remove_member {ℓ} :
    {A : Type ℓ} ⦃e : Eq A⦄ (p : A → Bool) (xs : List A) (x : A)
    → p x ≡ false
    → filter p (remove_member x xs) ≡ filter p xs
filter-remove_member p [] x h = refl
filter-remove_member ⦃e⦄ p (y ∷ xs) x h = elim (Bool-cases (y == x)) [
  | inl q ↦ let same = ap p ((e.same_iff y x).0 q) in ground arith
  | inr q ↦ ground (arith, filter-remove_member ⦃e = e⦄ p xs x h)
]

abbrev pub edit_touches : NodeId → Edit → Bool
edit_touches n (add_node id _) = id == n
edit_touches n (put_node id _) = id == n
edit_touches n (drop_node id) = id == n
edit_touches n (add_edge d) = d.from == n || d.to == n
edit_touches n (drop_edge d) = d.from == n || d.to == n
edit_touches n (relate r) = r.from == n || r.to == n
edit_touches n (unrelate r) = r.from == n || r.to == n

edit-Untouched :
    (e : Edit) (g : NodeGraph) (n : NodeId) → edit_touches n e ≡ false → IsUntouched n g (edit e g)
unfolding edit insert_new replace_existing insert_dependency insert_relation remove_node
    remove_dependency remove_relation
edit-Untouched (add_node id v) g n h = elim (Option-cases (lookup id g.nodes)) [
  | inl q ↦
      rw (q, edit)
        (record { value = lookup-append_ne g.nodes id n v h; edges = refl; relations = refl })
  | inr (old, q) ↦ rw (q, edit) (IsUntouched-refl n g)
]
edit-Untouched (put_node id v) g n h = elim (Option-cases (lookup id g.nodes)) [
  | inl q ↦ rw (q, edit) (IsUntouched-refl n g)
  | inr (old, q) ↦
      rw (q, edit)
        (record { value = lookup-replace_ne g.nodes id n v h; edges = refl; relations = refl })
]
edit-Untouched (drop_node id) g n h = record {
  value = lookup-remove_ne g.nodes id n h;
  edges = refl;
  relations = refl;
}
edit-Untouched (add_edge d) g n h = elim (Bool-cases (contains g.dependencies d)) [
  | inl q ↦ rw (q, edit) (IsUntouched-refl n g)
  | inr q ↦
      rw (q, edit)
        (record {
          value = refl;
          edges = filter-append_false _ g.dependencies d h;
          relations = refl;
        })
]
edit-Untouched (relate r) g n h = elim (Bool-cases (contains g.relations r)) [
  | inl q ↦ rw (q, edit) (IsUntouched-refl n g)
  | inr q ↦
      rw (q, edit)
        (record { value = refl; edges = refl; relations = filter-append_false _ g.relations r h })
]
edit-Untouched (drop_edge d) g n h = record {
  value = refl;
  edges = filter-remove_member _ g.dependencies d h;
  relations = refl;
}
edit-Untouched (unrelate r) g n h = record {
  value = refl;
  edges = refl;
  relations = filter-remove_member _ g.relations r h;
}

pub edit_all-Untouched :
    (es : List Edit) (g : NodeGraph) (n : NodeId)
    → any (edit_touches n) es ≡ false
    → IsUntouched n g (edit_all es g)
unfolding edit_all
edit_all-Untouched [] g n h = IsUntouched-refl n g
edit_all-Untouched (e ∷ es) g n h =
    IsUntouched-trans n g (edit e g) (edit_all es (edit e g)) (edit-Untouched e g n (ground arith))
      (edit_all-Untouched es (edit e g) n (ground arith))

-- The calls that an effect or a list of effects stands for: they make its graph, and touch no node
-- that the effects do not touch.
abbrev pub Calls : (NodeId → Bool) → (g h : NodeGraph) → Type 0
Calls touches g h =
    (es : List Edit) × (h ≡ edit_all es g)
    × ((n : NodeId) → touches n ≡ false → any (edit_touches n) es ≡ false)

-- An update is one replacement of the node.
update-Calls :
    (p p' : Projection) (id : NodeId) (effect : String) (update : Node → Option Node)
    → update_node p id effect update ≡ ok p'
    → Calls (λ n. id == n) p.desired.graph p'.desired.graph
unfolding update_node replace_existing edit_all edit
update-Calls p p' id effect update h = elim (Option-cases (lookup id p.desired.graph.nodes)) [
  | inl q ↦ absurd (ground arith)
  | inr (v, q) ↦ elim (Option-cases (update v)) [
    | inl u ↦ absurd (ground arith)
    | inr (w, u) ↦ (put_node id w ∷ [], ground arith, λ n k. ground arith)
  ]
]

pub graph_effect-Calls :
    (x : GraphEffect) (p p' : Projection)
    → apply_graph_effect x p ≡ ok p'
    → Calls (λ n. graph_effect_touches n x) p.desired.graph p'.desired.graph
unfolding apply_graph_effect edit_all edit insert_new insert_dependency insert_relation remove_node
    remove_dependency remove_relation
graph_effect-Calls (GraphEffect.insert_node id spec) p p' h =
    elim (Option-cases (lookup id p.desired.graph.nodes)) [
      | inl q ↦ (
        add_node id (record { kind = spec; size = default_facts }) ∷ [],
        ground arith,
        λ n k. ground arith,
      )
      | inr (old, q) ↦ absurd (ground arith)
    ]
graph_effect-Calls (GraphEffect.remove_node id) p p' h =
    elim (Option-cases (lookup id p.desired.graph.nodes)) [
      | inl q ↦ absurd (ground arith)
      | inr (old, q) ↦ (drop_node id ∷ [], ground arith, λ n k. ground arith)
    ]
graph_effect-Calls (GraphEffect.set_node_size id size) p p' h = update-Calls p p' id _ _ h
graph_effect-Calls (GraphEffect.invalidate_node_size id) p p' h = update-Calls p p' id _ _ h
graph_effect-Calls (GraphEffect.set_partition_attributes id a) p p' h = update-Calls p p' id _ _ h
graph_effect-Calls (GraphEffect.set_filesystem_label id l) p p' h = update-Calls p p' id _ _ h
graph_effect-Calls (GraphEffect.set_btrfs_allocation id a) p p' h = update-Calls p p' id _ _ h
graph_effect-Calls (GraphEffect.insert_dependency d) p p' h =
    (add_edge d ∷ [], ground arith, λ n k. ground arith)
graph_effect-Calls (GraphEffect.remove_dependency d) p p' h =
    elim (Bool-cases (contains p.desired.graph.dependencies d)) [
      | inl q ↦ (drop_edge d ∷ [], ground arith, λ n k. ground arith)
      | inr q ↦ absurd (ground arith)
    ]
graph_effect-Calls (GraphEffect.insert_relation r) p p' h =
    (relate r ∷ [], ground arith, λ n k. ground arith)
graph_effect-Calls (GraphEffect.remove_relation r) p p' h =
    elim (Bool-cases (contains p.desired.graph.relations r)) [
      | inl q ↦ (unrelate r ∷ [], ground arith, λ n k. ground arith)
      | inr q ↦ absurd (ground arith)
    ]
graph_effect-Calls (GraphEffect.set_activation id active) p p' h =
    elim (Option-cases (lookup id p.desired.graph.nodes)) [
      | inl q ↦ absurd (ground arith)
      | inr (old, q) ↦ ([], ground arith, λ n k. refl)
    ]

edit_all-append :
    (es fs : List Edit) (g : NodeGraph) → edit_all (es ++ fs) g ≡ edit_all fs (edit_all es g)
unfolding edit_all
edit_all-append [] fs g = refl
edit_all-append (e ∷ es) fs g = edit_all-append es fs (edit e g)

any-append_false {ℓ} :
    {A : Type ℓ} (p : A → Bool) (xs ys : List A)
    → any p xs ≡ false
    → any p ys ≡ false
    → any p (xs ++ ys) ≡ false
any-append_false p [] ys h k = k
any-append_false p (x ∷ xs) ys h k = ground (arith, any-append_false p xs ys)

-- Graph effects that succeed are a sequence of calls of the graph's own methods, none of which
-- touches a node that the effects do not touch.
pub apply_graph_effects-Calls :
    (effects : List GraphEffect) (p p' : Projection)
    → apply_graph_effects effects p ≡ ok p'
    → Calls (λ n. any (graph_effect_touches n) effects) p.desired.graph p'.desired.graph
unfolding apply_graph_effects edit_all
apply_graph_effects-Calls [] p p' h = ([], ground arith, λ n k. refl)
apply_graph_effects-Calls (x ∷ xs) p p' h =
    let (m, first, rest) = >>=-eq-ok (apply_graph_effect x p) (apply_graph_effects xs) h in
    let (es, made, beside) = graph_effect-Calls x p m first in
    let (fs, made', beside') = apply_graph_effects-Calls xs m p' rest in
    (
      es ++ fs,
      made' ∙ ap (edit_all fs) made ∙ sym (edit_all-append es fs p.desired.graph),
      λ n k. any-append_false _ es fs (beside n (ground arith)) (beside' n (ground arith)),
    )
