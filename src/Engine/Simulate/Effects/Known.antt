-- ===== src/Engine/Simulate/Effects/Known.antt =====
-- storage-engine/src/effects.rs: the evidence of nodes stays within the graph, through every step of
-- an effect.
use pdisks.Base.{
  ◌≡◌, ◌⊎◌, inl, inr, refl, ◌∙◌, List, [], ◌∷◌, ◌++◌, Bool, true, false, not, Option, none, ok,
  arith, ◌==◌, nat_eq, contains, filter, Bool-cases, Option-cases, >>=-eq-ok, get_key, put_key,
  drop_key, put_member, checked_sub, checked_add,
}
use Prim.Native.String.{String}
use pdisks.Core.Node.{NodeId, Node}
use pdisks.Core.Graph.{
  lookup, replace, remove_key, insert_new, replace_existing, insert_dependency, insert_relation,
  remove_node, remove_dependency, remove_relation, dependency_eq, relation_eq,
}
use pdisks.Core.Block.{FilePath}
use pdisks.Core.State.{MountContext}
use pdisks.Engine.Simulate.Checks.{is_mounted_at, has_mounted_descendant}
use pdisks.Provider.Contract.{
  GraphEffect, MountEffect, AllocationEffect, invalidate, reserve, release, domain_eq,
  invalidation_eq, FactInvalidation, PredictedEffect,
}
use pdisks.Engine.Simulate.Data.{SimulationEvidence}
use pdisks.Engine.Simulate.Evidence.{
  apply_allocation, apply_allocation_effects, invalidate_filesystem_checks, invalidate_observations,
  mark_persistent_target, persistent_mount_was_projected, record_invalidations, revokes, expand,
}
use pdisks.Engine.Simulate.Effects.Steps.{Steps, start}
use pdisks.Engine.Simulate.Effects.{
  apply_mount_effect, apply_mount_effects, Projection, apply_graph_effect, apply_graph_effects,
  default_facts, update_node,
}

-- A node that is not in the graph has no projected entry and no activation.
abbrev pub IsKnown : Projection → Type 0
IsKnown p =
    (n : NodeId)
    → lookup n p.desired.graph.nodes ≡ none
    → (contains p.evidence.projected_graph_nodes n ≡ false)
      × (get_key p.evidence.activations n ≡ none)

lookup-append_none :
    (ns : List (NodeId × Node)) (id n : NodeId) (v : Node)
    → lookup n (ns ++ (id, v) ∷ []) ≡ none
    → (lookup n ns ≡ none) × ((id == n) ≡ false)
lookup-append_none [] id n v h = ground arith
lookup-append_none ((k, x) ∷ ns) id n v h = ground (arith, lookup-append_none ns id n v)

absent_before_replace :
    (ns : List (NodeId × Node)) (id n : NodeId) (v : Node)
    → lookup n (replace id v ns) ≡ none
    → lookup n ns ≡ none
absent_before_replace [] id n v h = refl
absent_before_replace ((k, x) ∷ ns) id n v h = ground (arith, absent_before_replace ns id n v)

lookup-remove_none :
    (ns : List (NodeId × Node)) (id n : NodeId)
    → lookup n (remove_key id ns) ≡ none
    → (id == n) ≡ false
    → lookup n ns ≡ none
lookup-remove_none [] id n h k = refl
lookup-remove_none ((j, x) ∷ ns) id n h k = ground (arith, lookup-remove_none ns id n)

contains-append :
    (ids : List NodeId) (id n : NodeId)
    → contains ids n ≡ false
    → (id == n) ≡ false
    → contains (ids ++ id ∷ []) n ≡ false
contains-append [] id n h k = ground arith
contains-append (i ∷ ids) id n h k = ground (arith, contains-append ids id n)

contains-retain :
    (ids : List NodeId) (id n : NodeId)
    → (contains ids n ≡ false) ⊎ ((id == n) ≡ true)
    → contains (filter (λ candidate. not (candidate == id)) ids) n ≡ false
contains-retain [] id n h = refl
contains-retain (i ∷ ids) id n h = ground (arith, contains-retain ids id n)

activations-drop :
    (m : List (NodeId × Bool)) (id n : NodeId)
    → (get_key m n ≡ none) ⊎ ((id == n) ≡ true)
    → get_key (drop_key m id) n ≡ none
activations-drop [] id n h = refl
activations-drop ((j, v) ∷ m) id n h = ground (arith, activations-drop m id n)

activations-put :
    (m : List (NodeId × Bool)) (id n : NodeId) (v : Bool)
    → get_key m n ≡ none
    → (id == n) ≡ false
    → get_key (put_key m id v) n ≡ none
activations-put m id n v h k = rw k (activations-drop m id n (inl h))

update-Known :
    (p p' : Projection) (id : NodeId) (effect : String) (update : Node → Option Node)
    → update_node p id effect update ≡ ok p'
    → IsKnown p
    → IsKnown p'
unfolding update_node replace_existing
update-Known p p' id effect update h w n absent =
    elim (Option-cases (lookup id p.desired.graph.nodes)) [
      | inl q ↦ absurd (ground arith)
      | inr (v, q) ↦ elim (Option-cases (update v)) [
        | inl u ↦ absurd (ground arith)
        | inr (x, u) ↦
            let before : lookup n p.desired.graph.nodes ≡ none =
              absent_before_replace p.desired.graph.nodes id n x (ground arith) in
            let other : (id == n) ≡ false = ground arith in
            ground (arith, w n before, contains-append p.evidence.projected_graph_nodes id n)
      ]
    ]

graph_effect-Known :
    (x : GraphEffect) (p p' : Projection) → apply_graph_effect x p ≡ ok p' → IsKnown p → IsKnown p'
unfolding apply_graph_effect insert_new insert_dependency insert_relation remove_node
    remove_dependency remove_relation
graph_effect-Known (GraphEffect.insert_node id spec) p p' h w n absent =
    elim (Option-cases (lookup id p.desired.graph.nodes)) [
      | inl q ↦
          let (before, other) =
            lookup-append_none p.desired.graph.nodes id n
              (record { kind = spec; size = default_facts }) (ground arith) in
          ground (arith, w n before, contains-append p.evidence.projected_graph_nodes id n)
      | inr (old, q) ↦ absurd (ground arith)
    ]
graph_effect-Known (GraphEffect.remove_node id) p p' h w n absent =
    elim (Option-cases (lookup id p.desired.graph.nodes)) [
      | inl q ↦ absurd (ground arith)
      | inr (old, q) ↦ ground (
        arith,
        lookup-remove_none p.desired.graph.nodes id n,
        w n,
        contains-retain p.evidence.projected_graph_nodes id n,
        activations-drop p.evidence.activations id n,
      )
    ]
graph_effect-Known (GraphEffect.set_node_size id size) p p' h w n absent =
    update-Known p p' id _ _ h w n absent
graph_effect-Known (GraphEffect.invalidate_node_size id) p p' h w n absent =
    update-Known p p' id _ _ h w n absent
graph_effect-Known (GraphEffect.set_partition_attributes id a) p p' h w n absent =
    update-Known p p' id _ _ h w n absent
graph_effect-Known (GraphEffect.set_filesystem_label id l) p p' h w n absent =
    update-Known p p' id _ _ h w n absent
graph_effect-Known (GraphEffect.set_btrfs_allocation id a) p p' h w n absent =
    update-Known p p' id _ _ h w n absent
graph_effect-Known (GraphEffect.insert_dependency d) p p' h w n absent = ground (arith, w n)
graph_effect-Known (GraphEffect.remove_dependency d) p p' h w n absent = ground (arith, w n)
graph_effect-Known (GraphEffect.insert_relation r) p p' h w n absent = ground (arith, w n)
graph_effect-Known (GraphEffect.remove_relation r) p p' h w n absent = ground (arith, w n)
graph_effect-Known (GraphEffect.set_activation id active) p p' h w n absent =
    elim (Option-cases (lookup id p.desired.graph.nodes)) [
      | inl q ↦ absurd (ground arith)
      | inr (old, q) ↦
          let other : (id == n) ≡ false = ground arith in
          ground (arith, w n, activations-put p.evidence.activations id n active)
    ]

graph_effects-Known :
    (effects : List GraphEffect) (p p' : Projection)
    → apply_graph_effects effects p ≡ ok p'
    → IsKnown p
    → IsKnown p'
unfolding apply_graph_effects
graph_effects-Known [] p p' h w n absent = ground (arith, w n)
graph_effects-Known (x ∷ xs) p p' h w n absent =
    let (m, first, rest) = >>=-eq-ok (apply_graph_effect x p) (apply_graph_effects xs) h in
    graph_effects-Known xs m p' rest (graph_effect-Known x p m first w) n absent

-- The steps that leave the projected nodes alone and make no activation.
record KeepsNodes (e e' : SimulationEvidence) : Type 0 where
  projected : e'.projected_graph_nodes ≡ e.projected_graph_nodes
  activations : (n : NodeId) → get_key e.activations n ≡ none → get_key e'.activations n ≡ none

KeepsNodes-refl : (e : SimulationEvidence) → KeepsNodes e e
KeepsNodes-refl e = record { projected = refl; activations = λ n h. h }

KeepsNodes-trans :
    (e m e' : SimulationEvidence) → KeepsNodes e m → KeepsNodes m e' → KeepsNodes e e'
KeepsNodes-trans e m e' a b = record {
  projected = b.projected ∙ a.projected;
  activations = λ n h. b.activations n (a.activations n h);
}

record-KeepsNodes :
    (is : List FactInvalidation) (e : SimulationEvidence) → KeepsNodes e (record_invalidations is e)
unfolding record_invalidations
record-KeepsNodes [] e = KeepsNodes-refl e
record-KeepsNodes (i ∷ is) e = elim (Option-cases (revokes i)) [
  | inl q ↦
      rw (q, record_invalidations)
        (KeepsNodes-trans e _ _ (record { projected = refl; activations = λ n h. h })
          (record-KeepsNodes is
            (record e { invalidated_facts = put_member e.invalidated_facts i })))
  | inr (n, q) ↦
      rw (q, record_invalidations)
        (KeepsNodes-trans e _ _
          (record {
            projected = refl;
            activations = λ m h. activations-drop e.activations n m (inl h);
          })
          (record-KeepsNodes is (record e {
            invalidated_facts = put_member e.invalidated_facts i;
            block_interfaces = drop_key e.block_interfaces n;
            activations = drop_key e.activations n;
          })))
]

allocation-KeepsNodes :
    (x : AllocationEffect) (e e' : SimulationEvidence)
    → apply_allocation x e ≡ ok e'
    → KeepsNodes e e'
unfolding apply_allocation
allocation-KeepsNodes (invalidate x) e e' h = record {
  projected = ground arith;
  activations = λ n k. ground arith;
}
allocation-KeepsNodes (reserve x amount) e e' h =
    elim (Option-cases (get_key e.available_capacity x)) [
      | inl q ↦ record { projected = ground arith; activations = λ n k. ground arith }
      | inr (c, q) ↦ elim (Option-cases (checked_sub c amount)) [
        | inl u ↦ absurd (ground arith)
        | inr (left, u) ↦ record { projected = ground arith; activations = λ n k. ground arith }
      ]
    ]
allocation-KeepsNodes (release x amount) e e' h =
    elim (Option-cases (get_key e.available_capacity x)) [
      | inl q ↦ record { projected = ground arith; activations = λ n k. ground arith }
      | inr (c, q) ↦ elim (Option-cases (checked_add c amount)) [
        | inl u ↦ absurd (ground arith)
        | inr (left, u) ↦ record { projected = ground arith; activations = λ n k. ground arith }
      ]
    ]

allocations-KeepsNodes :
    (effects : List AllocationEffect) (e e' : SimulationEvidence)
    → apply_allocation_effects effects e ≡ ok e'
    → KeepsNodes e e'
unfolding apply_allocation_effects
allocations-KeepsNodes [] e e' h = ground (arith, KeepsNodes-refl e)
allocations-KeepsNodes (x ∷ xs) e e' h =
    let (m, first, rest) = >>=-eq-ok (apply_allocation x e) (apply_allocation_effects xs) h in
    KeepsNodes-trans e m e' (allocation-KeepsNodes x e m first)
      (allocations-KeepsNodes xs m e' rest)

mark-KeepsNodes :
    (e : SimulationEvidence) (target : FilePath) (context : MountContext)
    → KeepsNodes e (mark_persistent_target e target context)
unfolding mark_persistent_target
mark-KeepsNodes e target context =
    elim (Bool-cases (persistent_mount_was_projected e target context)) [
      | inl q ↦ rw (q, mark_persistent_target) (KeepsNodes-refl e)
      | inr q ↦ rw (q, mark_persistent_target) (record { projected = refl; activations = λ n h. h })
    ]

-- A mount effect changes neither the graph nor what is known of its nodes.
mount_effect-Known :
    (x : MountEffect) (p p' : Projection) → apply_mount_effect x p ≡ ok p' → IsKnown p → IsKnown p'
unfolding apply_mount_effect
mount_effect-Known (MountEffect.add_runtime source target options context) p p' h w n absent =
    elim (Bool-cases (is_mounted_at p.desired target context)) [
      | inl q ↦ absurd (ground arith)
      | inr q ↦ elim (Bool-cases (has_mounted_descendant p.desired target context)) [
        | inl u ↦ absurd (ground arith)
        | inr u ↦ ground (arith, w n)
      ]
    ]
mount_effect-Known (MountEffect.remove_runtime target context) p p' h w n absent =
    elim (Bool-cases (has_mounted_descendant p.desired target context)) [
      | inl u ↦ absurd (ground arith)
      | inr u ↦ ground (arith, w n)
    ]
mount_effect-Known (MountEffect.set_persistent entry) p p' h w n absent =
    let k = mark-KeepsNodes p.evidence entry.target entry.context in
    ground (arith, w n, k.projected, k.activations n)
mount_effect-Known (MountEffect.remove_persistent target context) p p' h w n absent =
    let k = mark-KeepsNodes p.evidence target context in
    ground (arith, w n, k.projected, k.activations n)

mount_effects-Known :
    (effects : List MountEffect) (p p' : Projection)
    → apply_mount_effects effects p ≡ ok p'
    → IsKnown p
    → IsKnown p'
unfolding apply_mount_effects
mount_effects-Known [] p p' h w n absent = ground (arith, w n)
mount_effects-Known (x ∷ xs) p p' h w n absent =
    let (m, first, rest) = >>=-eq-ok (apply_mount_effect x p) (apply_mount_effects xs) h in
    mount_effects-Known xs m p' rest (mount_effect-Known x p m first w) n absent

-- The steps of an effect keep the evidence within the graph.
pub project-Known :
    (p q : Projection) (effect : PredictedEffect) (is : List FactInvalidation)
    → Steps p effect is q
    → IsKnown p
    → IsKnown q
unfolding invalidate_observations invalidate_filesystem_checks
project-Known p q effect is s w =
    let noted = record-KeepsNodes (expand p.desired is is) p.evidence in
    let begun : IsKnown (start p is) =
      λ n absent. ground (arith, w n, noted.projected, noted.activations n) in
    let k1 = graph_effects-Known effect.graph (start p is) s.built s.graph_step begun in
    let k2 = mount_effects-Known effect.mounts s.built s.mounted s.mount_step k1 in
    let paid =
      allocations-KeepsNodes effect.allocations s.mounted.evidence s.charged s.allocation_step in
    λ n absent. ground (arith, k2 n, paid.projected, paid.activations n, s.published)
