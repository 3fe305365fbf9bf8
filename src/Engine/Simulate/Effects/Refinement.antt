-- ===== src/Engine/Simulate/Effects/Refinement.antt =====
-- storage-engine/src/effects.rs: `apply_graph_effects` does what its effects mean.
use mathlib.Core.List.{Memᴰ}
use pdisks.Base.{
  ◌≡◌, inl, inr, refl, sym, ap, ◌∙◌, List, [], ◌∷◌, ◌++◌, Bool, true, false, not, ◌&&◌, ◌||◌,
  Option, none, some, arith, Eq, ◌==◌, nat_eq, contains, contains_iff, Unrepeated, Bool-cases,
  Option-cases, Result-cases,
}
use Prim.Native.String.{String}
use pdisks.Core.Sizes.{Bytes}
use pdisks.Core.Kind.{BtrfsAllocation, PartitionAttributes, btrfs}
use pdisks.Core.Node.{NodeId, Node, NodeFacts, NodeKind, filesystem, partition}
use pdisks.Core.Graph.{
  Dependency, Relation, NodeGraph, lookup, replace, remove_key, remove_member, insert_new,
  replace_existing, insert_dependency, insert_relation, remove_node, remove_dependency,
  remove_relation, dependency_eq, relation_eq,
}
use pdisks.Core.Graph.Order.{keys}
use pdisks.Core.Graph.Sets.{IsSetLike, edits-IsSetLike}
use pdisks.Provider.Contract.{GraphEffect}
use pdisks.Engine.Simulate.Effects.{
  Projection, apply_graph_effect, apply_graph_effects, update_node,
}
use pdisks.Engine.Simulate.Effects.Untouched.{graph_effect-Calls}
use pdisks.Engine.Simulate.Effects.Views.{
  GraphView, assign, meaning, meanings, observe, revise, view, rekinded, relabelled, reattributed,
  reallocated,
}

GraphView-ext :
    (v w : GraphView)
    → ((n : NodeId) → v.node n ≡ w.node n)
    → ((d : Dependency) → v.linked d ≡ w.linked d)
    → ((r : Relation) → v.related r ≡ w.related r)
    → v ≡ w
GraphView-ext v w h k l =
    λ i. record { node = λ n. h n i; linked = λ d. k d i; related = λ r. l r i }

lookup-append :
    (ns : List (NodeId × Node)) (id n : NodeId) (v : Node)
    → lookup id ns ≡ none
    → lookup n (ns ++ (id, v) ∷ []) ≡ assign id (some v) (λ m. lookup m ns) n
lookup-append [] id n v h = refl
lookup-append ((k, x) ∷ ns) id n v h = ground (
  arith,
  lookup-append ns id n v,
  nat_eq.same_iff k id,
  nat_eq.same_iff k n,
  nat_eq.same_iff id n,
)

lookup-replace :
    (ns : List (NodeId × Node)) (id n : NodeId) (v old : Node)
    → lookup id ns ≡ some old
    → lookup n (replace id v ns) ≡ assign id (some v) (λ m. lookup m ns) n
lookup-replace [] id n v old h = cc
lookup-replace ((k, x) ∷ ns) id n v old h = ground (
  arith,
  lookup-replace ns id n v old,
  nat_eq.same_iff k id,
  nat_eq.same_iff k n,
  nat_eq.same_iff id n,
)

absent_lookup :
    (ns : List (NodeId × Node)) (id : NodeId) → (Memᴰ id (keys ns) → ⊥) → lookup id ns ≡ none
absent_lookup [] id h = refl
absent_lookup ((k, x) ∷ ns) id h = elim (Bool-cases (k == id)) [
  | inl q ↦ absurd (h (Memᴰ.head (sym ((nat_eq.same_iff k id).0 q))))
  | inr q ↦ ground (arith, absent_lookup ns id (λ m. h (Memᴰ.tail m)))
]

lookup-remove_key :
    (ns : List (NodeId × Node)) (id n : NodeId)
    → Unrepeated (keys ns)
    → lookup n (remove_key id ns) ≡ assign id none (λ m. lookup m ns) n
lookup-remove_key [] id n u = ground arith
lookup-remove_key ((k, x) ∷ ns) id n (fresh, u) =
    let rest = absent_lookup ns k fresh in
    elim (Bool-cases (id == n)) [
      | inl q ↦
          let same = (nat_eq.same_iff id n).0 q in
          elim (Bool-cases (k == id)) [
            | inl l ↦
                let own : lookup n ns ≡ none =
                  ap (λ m. lookup m ns) (sym ((nat_eq.same_iff k id).0 l ∙ same)) ∙ rest in
                ground arith
            | inr l ↦
                let other : (k == n) ≡ false = rw (← same) l in
                ground (arith, lookup-remove_key ns id n u)
          ]
      | inr q ↦ elim (Bool-cases (k == id)) [
        | inl l ↦ let other : (k == n) ≡ false = rw ((nat_eq.same_iff k id).0 l) q in ground arith
        | inr l ↦ ground (arith, lookup-remove_key ns id n u)
      ]
    ]

module _ {A : Type 0} ⦃e : Eq A⦄ where
  contains-concat : (xs : List A) (d x : A) → contains (xs ++ d ∷ []) x ≡ (d == x || contains xs x)
  contains-concat [] d x = refl
  contains-concat (y ∷ xs) d x = ground (arith, contains-concat xs d x)

  contains_self :
      (xs : List A) (d x : A) → contains xs d ≡ true → contains xs x ≡ (d == x || contains xs x)
  contains_self xs d x h = elim (Bool-cases (d == x)) [
    | inl q ↦ rw (← (e.same_iff d x).0 q) (ground arith)
    | inr q ↦ ground arith
  ]

  contains-remove_member :
      (xs : List A) (d x : A)
      → Unrepeated xs
      → contains (remove_member d xs) x ≡ (not (d == x) && contains xs x)
  contains-remove_member [] d x u = ground arith
  contains-remove_member (y ∷ xs) d x (fresh, u) = elim (Bool-cases (y == d)) [
    | inl q ↦
        let same = (e.same_iff y d).0 q in
        elim (Bool-cases (d == x)) [
          | inl l ↦
              let at : y ≡ x = same ∙ (e.same_iff d x).0 l in
              elim (Bool-cases (contains xs x)) [
                | inl m ↦ absurd (fresh (rw at ((contains_iff xs x).0 m)))
                | inr m ↦ ground arith
              ]
          | inr l ↦ let other : (y == x) ≡ false = rw same l in ground arith
        ]
    | inr q ↦ elim (Bool-cases (d == x)) [
      | inl l ↦
          let other : (y == x) ≡ false = rw (← (e.same_iff d x).0 l) q in
          ground (arith, contains-remove_member xs d x u)
      | inr l ↦ ground (arith, contains-remove_member xs d x u)
    ]
  ]

update-observe :
    (p : Projection) (id : NodeId) (effect : String) (update change : Node → Option Node)
    → ((v : Node) → update v ≡ change v)
    → observe (update_node p id effect update) ≡ revise id change (view p.desired.graph)
unfolding update_node replace_existing
update-observe p id effect update change agree =
    elim (Option-cases (lookup id p.desired.graph.nodes)) [
      | inl q ↦ rw (q, update_node, revise) refl
      | inr (old, q) ↦ elim (Option-cases (change old)) [
        | inl u ↦ let v = agree old ∙ u in rw (q, update_node, revise, v, u) refl
        | inr (new, u) ↦
            let v = agree old ∙ u in
            rw (q, update_node, revise, v, u, replace_existing, q)
              (ap some (
                GraphView-ext _ _ (λ n. lookup-replace p.desired.graph.nodes id n new old q)
                  (λ d. refl) (λ r. refl)))
      ]
    ]

edges-ext :
    (g : NodeGraph) (ds : List Dependency) (linked : Dependency → Bool)
    → ((d : Dependency) → contains ds d ≡ linked d)
    → view (record g { dependencies = ds }) ≡ record (view g) { linked = linked }
edges-ext g ds linked h = GraphView-ext _ _ (λ n. refl) h (λ r. refl)

relations-ext :
    (g : NodeGraph) (rs : List Relation) (related : Relation → Bool)
    → ((r : Relation) → contains rs r ≡ related r)
    → view (record g { relations = rs }) ≡ record (view g) { related = related }
relations-ext g rs related h = GraphView-ext _ _ (λ n. refl) (λ d. refl) h

nodes-ext :
    (g : NodeGraph) (ns : List (NodeId × Node)) (node : NodeId → Option Node)
    → ((n : NodeId) → lookup n ns ≡ node n)
    → view (record g { nodes = ns }) ≡ record (view g) { node = node }
nodes-ext g ns node h = GraphView-ext _ _ h (λ d. refl) (λ r. refl)

attributes_agree :
    (a : PartitionAttributes) (kind : NodeKind) (size : Option Bytes) (facts : NodeFacts)
    → (elim kind [
      | partition number offset role _ ↦ some (record {
        kind = record { kind = partition number offset role a; size = size };
        size = facts;
      })
      | _ ↦ none
    ])
      ≡ rekinded
          (reattributed a)
          (record { kind = record { kind = kind; size = size }; size = facts })
attributes_agree a (partition _ _ _ _) size facts = refl
attributes_agree a _ size facts = refl

label_agrees :
    (l : Option String) (kind : NodeKind) (size : Option Bytes) (facts : NodeFacts)
    → (elim kind [
      | filesystem k _ ↦
          some (record { kind = record { kind = filesystem k l; size = size }; size = facts })
      | _ ↦ none
    ])
      ≡ rekinded
          (relabelled l)
          (record { kind = record { kind = kind; size = size }; size = facts })
label_agrees l (filesystem _ _) size facts = refl
label_agrees l _ size facts = refl

allocation_agrees :
    (a : BtrfsAllocation) (kind : NodeKind) (size : Option Bytes) (facts : NodeFacts)
    → (elim kind [
      | filesystem (btrfs _) l ↦
          some
            (record { kind = record { kind = filesystem (btrfs a) l; size = size }; size = facts })
      | _ ↦ none
    ])
      ≡ rekinded
          (reallocated a)
          (record { kind = record { kind = kind; size = size }; size = facts })
allocation_agrees a (filesystem (btrfs _) _) size facts = refl
allocation_agrees a _ size facts = refl

-- One effect on a graph without double members does what it means, or is refused as it is.
apply_graph_effect-observe :
    (x : GraphEffect) (p : Projection)
    → IsSetLike p.desired.graph
    → observe (apply_graph_effect x p) ≡ meaning x (view p.desired.graph)
unfolding apply_graph_effect insert_new insert_dependency insert_relation remove_node
    remove_dependency remove_relation
apply_graph_effect-observe (GraphEffect.insert_node id spec) p w =
    let g = p.desired.graph in
    elim (Option-cases (lookup id g.nodes)) [
      | inl q ↦
          rw (q, apply_graph_effect, meaning, insert_new, q)
            (ap some (nodes-ext g _ _ (λ n. lookup-append g.nodes id n _ q)))
      | inr (old, q) ↦ rw (q, apply_graph_effect, meaning) refl
    ]
apply_graph_effect-observe (GraphEffect.remove_node id) p w =
    let g = p.desired.graph in
    elim (Option-cases (lookup id g.nodes)) [
      | inl q ↦ rw (q, apply_graph_effect, meaning) refl
      | inr (old, q) ↦
          rw (q, apply_graph_effect, meaning)
            (ap some (nodes-ext g _ _ (λ n. lookup-remove_key g.nodes id n w.nodes)))
    ]
apply_graph_effect-observe (GraphEffect.set_node_size id size) p w =
    update-observe p id _ _ _ (λ v. refl)
apply_graph_effect-observe (GraphEffect.invalidate_node_size id) p w =
    update-observe p id _ _ _ (λ v. refl)
apply_graph_effect-observe (GraphEffect.set_partition_attributes id a) p w =
    update-observe p id _ _ (rekinded (reattributed a))
      (λ v. attributes_agree a v.kind.kind v.kind.size v.size)
apply_graph_effect-observe (GraphEffect.set_filesystem_label id l) p w =
    update-observe p id _ _ (rekinded (relabelled l))
      (λ v. label_agrees l v.kind.kind v.kind.size v.size)
apply_graph_effect-observe (GraphEffect.set_btrfs_allocation id a) p w =
    update-observe p id _ _ (rekinded (reallocated a))
      (λ v. allocation_agrees a v.kind.kind v.kind.size v.size)
apply_graph_effect-observe (GraphEffect.insert_dependency d) p w =
    let g = p.desired.graph in
    elim (Bool-cases (contains g.dependencies d)) [
      | inl q ↦
          rw (insert_dependency, q)
            (ap some (edges-ext g _ _ (λ x. contains_self g.dependencies d x q)))
      | inr q ↦
          rw (insert_dependency, q)
            (ap some (edges-ext g _ _ (λ x. contains-concat g.dependencies d x)))
    ]
apply_graph_effect-observe (GraphEffect.remove_dependency d) p w =
    let g = p.desired.graph in
    elim (Bool-cases (contains g.dependencies d)) [
      | inl q ↦
          rw (q, apply_graph_effect, meaning)
            (ap some
              (edges-ext g _ _ (λ x. contains-remove_member g.dependencies d x w.dependencies)))
      | inr q ↦ rw (q, apply_graph_effect, meaning) refl
    ]
apply_graph_effect-observe (GraphEffect.insert_relation r) p w =
    let g = p.desired.graph in
    elim (Bool-cases (contains g.relations r)) [
      | inl q ↦
          rw (insert_relation, q)
            (ap some (relations-ext g _ _ (λ x. contains_self g.relations r x q)))
      | inr q ↦
          rw (insert_relation, q)
            (ap some (relations-ext g _ _ (λ x. contains-concat g.relations r x)))
    ]
apply_graph_effect-observe (GraphEffect.remove_relation r) p w =
    let g = p.desired.graph in
    elim (Bool-cases (contains g.relations r)) [
      | inl q ↦
          rw (q, apply_graph_effect, meaning)
            (ap some
              (relations-ext g _ _ (λ x. contains-remove_member g.relations r x w.relations)))
      | inr q ↦ rw (q, apply_graph_effect, meaning) refl
    ]
apply_graph_effect-observe (GraphEffect.set_activation id active) p w =
    elim (Option-cases (lookup id p.desired.graph.nodes)) [
      | inl q ↦ rw (q, apply_graph_effect, meaning) refl
      | inr (old, q) ↦ rw (q, apply_graph_effect, meaning) refl
    ]

-- On a graph without double nodes or edges, the graph effects do what they mean for its content: the
-- node at each identity, and the dependencies and relations it has, whatever the order they are kept
-- in. They fail exactly when an effect is refused there: it inserts a node that exists, changes,
-- activates or removes one that does not, changes one of a wrong kind, or removes an edge that is
-- not there.
pub apply_graph_effects-observe :
    (effects : List GraphEffect) (p : Projection)
    → IsSetLike p.desired.graph
    → observe (apply_graph_effects effects p) ≡ meanings effects (view p.desired.graph)
unfolding apply_graph_effects meanings
apply_graph_effects-observe [] p w = refl
apply_graph_effects-observe (x ∷ xs) p w =
    let here = apply_graph_effect-observe x p w in
    elim (Result-cases (apply_graph_effect x p)) [
      | inl (m, e) ↦
          let (es, made, beside) = graph_effect-Calls x p m e in
          let kept : IsSetLike m.desired.graph = rw made (edits-IsSetLike es p.desired.graph w) in
          let seen : meaning x (view p.desired.graph) ≡ some (view m.desired.graph) =
            sym here ∙ ap observe e in
          rw (e, apply_graph_effects, seen, meanings) (apply_graph_effects-observe xs m kept)
      | inr (f, e) ↦
          let seen : meaning x (view p.desired.graph) ≡ none = sym here ∙ ap observe e in
          rw (e, apply_graph_effects, seen, meanings) refl
    ]
