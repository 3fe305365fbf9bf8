-- ===== src/Core/Graph/Sets.antt =====
-- storage-core/src/model/graph.rs: the methods that change a graph, its map and its sets.
use mathlib.Core.List.{Memᴰ}
use mathlib.Core.List.Memᴰ
use pdisks.Base.{
  ◌≡◌, inl, inr, refl, sym, ap, subst, List, [], ◌∷◌, ◌++◌, false, none, arith, Eq, ◌==◌, nat_eq,
  contains, contains_iff, Unrepeated, Bool-cases, Option-cases, Memᴰ-concat, if◌then◌else◌,
}
use pdisks.Core.Node.{Node, NodeId}
use pdisks.Core.Graph.{
  Dependency, Relation, NodeGraph, new_graph, lookup, replace, remove_key, remove_member,
  insert_new, replace_existing, insert_dependency, insert_relation, remove_node, remove_dependency,
  remove_relation, dependency_eq, relation_eq,
}
use pdisks.Core.Graph.Order.{keys}

-- No identity has two nodes, and no edge stands twice.
pub record IsSetLike (g : NodeGraph) : Type 0 where
  pub nodes : Unrepeated (keys g.nodes)
  pub dependencies : Unrepeated g.dependencies
  pub relations : Unrepeated g.relations

-- The methods of a graph that change it.
pub data Edit : Type 0 where
  add_node put_node : NodeId → Node → Edit
  add_edge drop_edge : Dependency → Edit
  relate unrelate : Relation → Edit
  drop_node : NodeId → Edit

unfoldable pub edit : Edit → NodeGraph → NodeGraph
edit (add_node id v) g = (insert_new id v g).0
edit (put_node id v) g = (replace_existing id v g).0
edit (add_edge d) g = (insert_dependency d g).0
edit (drop_edge d) g = (remove_dependency d g).0
edit (relate r) g = (insert_relation r g).0
edit (unrelate r) g = (remove_relation r g).0
edit (drop_node id) g = (remove_node id g).0

unfoldable pub edit_all : List Edit → NodeGraph → NodeGraph
unfolding edit
edit_all [] g = g
edit_all (e ∷ es) g = edit_all es (edit e g)

Unrepeated-concat {ℓ} :
    {A : Type ℓ} (xs : List A) (x : A) → Unrepeated xs → (Memᴰ x xs → ⊥) → Unrepeated (xs ++ x ∷ [])
Unrepeated-concat [] x u n = ((λ m. Memᴰ.not-nil m), tt)
Unrepeated-concat (y ∷ xs) x (h, u) n = (
  (λ m. elim ((Memᴰ-concat y x xs).0 m) [ inl k ↦ h k | inr e ↦ n (Memᴰ.head (sym e)) ]),
  Unrepeated-concat xs x u (λ m. n (Memᴰ.tail m)),
)

insert-Unrepeated {ℓ} :
    {A : Type ℓ} ⦃e : Eq A⦄ (xs : List A) (x : A)
    → Unrepeated xs
    → contains xs x ≡ false
    → Unrepeated (xs ++ x ∷ [])
insert-Unrepeated ⦃e⦄ xs x u h =
    Unrepeated-concat xs x u (λ m. let k = (contains_iff ⦃e = e⦄ xs x).1 m in cc)

remove-mem {ℓ} :
    {A : Type ℓ} ⦃e : Eq A⦄ (xs : List A) (x y : A) → Memᴰ y (remove_member x xs) → Memᴰ y xs
remove-mem [] x y m = m
remove-mem ⦃e⦄ (z ∷ xs) x y m = elim (Bool-cases (z == x)) [
  | inl q ↦ Memᴰ.tail (subst (λ b. Memᴰ y (if b then xs else z ∷ remove_member x xs)) q m)
  | inr q ↦
      elim (Memᴰ.cases_cons (subst (λ b. Memᴰ y (if b then xs else z ∷ remove_member x xs)) q m)) [
        | inl k ↦ Memᴰ.head k
        | inr t ↦ Memᴰ.tail (remove-mem ⦃e = e⦄ xs x y t)
      ]
]

remove-Unrepeated {ℓ} :
    {A : Type ℓ} ⦃e : Eq A⦄ (xs : List A) (x : A) → Unrepeated xs → Unrepeated (remove_member x xs)
remove-Unrepeated [] x u = tt
remove-Unrepeated ⦃e⦄ (z ∷ xs) x (h, u) = elim (Bool-cases (z == x)) [
  | inl q ↦ subst (λ b. Unrepeated (if b then xs else z ∷ remove_member x xs)) (sym q) u
  | inr q ↦
      subst (λ b. Unrepeated (if b then xs else z ∷ remove_member x xs)) (sym q)
        ((λ m. h (remove-mem ⦃e = e⦄ xs x z m)), remove-Unrepeated ⦃e = e⦄ xs x u)
]

pub lookup-none :
    (id : NodeId) (ns : List (NodeId × Node)) → lookup id ns ≡ none → Memᴰ id (keys ns) → ⊥
lookup-none id [] h m = Memᴰ.not-nil m
lookup-none id ((k, v) ∷ ns) h m = elim (Memᴰ.cases_cons m) [
  | inl e ↦ let q = (nat_eq.same_iff k id).1 (sym e) in ground arith
  | inr t ↦ lookup-none id ns (ground arith) t
]

keys-append :
    (ns : List (NodeId × Node)) (id : NodeId) (v : Node)
    → keys (ns ++ (id, v) ∷ []) ≡ keys ns ++ id ∷ []
keys-append [] id v = refl
keys-append ((k, x) ∷ ns) id v = ap (λ l. k ∷ l) (keys-append ns id v)

keys-replace :
    (ns : List (NodeId × Node)) (id : NodeId) (v : Node) → keys (replace id v ns) ≡ keys ns
keys-replace [] id v = refl
keys-replace ((k, x) ∷ ns) id v = elim (Bool-cases (k == id)) [
  | inl q ↦ rw q refl
  | inr q ↦ rw q (ap (λ l. k ∷ l) (keys-replace ns id v))
]

keys-remove_key :
    (ns : List (NodeId × Node)) (id : NodeId) → keys (remove_key id ns) ≡ remove_member id (keys ns)
keys-remove_key [] id = refl
keys-remove_key ((k, x) ∷ ns) id = elim (Bool-cases (k == id)) [
  | inl q ↦ rw q refl
  | inr q ↦ rw q (ap (λ l. k ∷ l) (keys-remove_key ns id))
]

edit-IsSetLike : (e : Edit) (g : NodeGraph) → IsSetLike g → IsSetLike (edit e g)
unfolding edit insert_new replace_existing insert_dependency insert_relation remove_node
    remove_dependency remove_relation
edit-IsSetLike (add_node id v) g w = elim (Option-cases (lookup id g.nodes)) [
  | inl q ↦
      rw (q, edit)
        (record {
          nodes =
              rw (keys-append g.nodes id v)
                (Unrepeated-concat (keys g.nodes) id w.nodes (lookup-none id g.nodes q));
          dependencies = w.dependencies;
          relations = w.relations;
        })
  | inr (old, q) ↦ rw (q, edit) w
]
edit-IsSetLike (put_node id v) g w = elim (Option-cases (lookup id g.nodes)) [
  | inl q ↦ rw (q, edit) w
  | inr (old, q) ↦
      rw (q, edit)
        (record {
          nodes = rw (keys-replace g.nodes id v) w.nodes;
          dependencies = w.dependencies;
          relations = w.relations;
        })
]
edit-IsSetLike (add_edge d) g w = elim (Bool-cases (contains g.dependencies d)) [
  | inl q ↦ rw (q, edit) w
  | inr q ↦
      rw (q, edit)
        (record {
          nodes = w.nodes;
          dependencies = insert-Unrepeated g.dependencies d w.dependencies q;
          relations = w.relations;
        })
]
edit-IsSetLike (drop_edge d) g w = record {
  nodes = w.nodes;
  dependencies = remove-Unrepeated g.dependencies d w.dependencies;
  relations = w.relations;
}
edit-IsSetLike (relate r) g w = elim (Bool-cases (contains g.relations r)) [
  | inl q ↦ rw (q, edit) w
  | inr q ↦
      rw (q, edit)
        (record {
          nodes = w.nodes;
          dependencies = w.dependencies;
          relations = insert-Unrepeated g.relations r w.relations q;
        })
]
edit-IsSetLike (unrelate r) g w = record {
  nodes = w.nodes;
  dependencies = w.dependencies;
  relations = remove-Unrepeated g.relations r w.relations;
}
edit-IsSetLike (drop_node id) g w = record {
  nodes = rw (keys-remove_key g.nodes id) (remove-Unrepeated (keys g.nodes) id w.nodes);
  dependencies = w.dependencies;
  relations = w.relations;
}

pub edits-IsSetLike : (es : List Edit) (g : NodeGraph) → IsSetLike g → IsSetLike (edit_all es g)
unfolding edit_all
edits-IsSetLike [] g w = w
edits-IsSetLike (e ∷ es) g w = edits-IsSetLike es (edit e g) (edit-IsSetLike e g w)

-- In every graph that the methods make of an empty one, no identity has two nodes and no dependency
-- or relation stands twice.
pub edit_all-IsSetLike : (es : List Edit) → IsSetLike (edit_all es new_graph)
edit_all-IsSetLike es =
    edits-IsSetLike es new_graph (record { nodes = tt; dependencies = tt; relations = tt })
