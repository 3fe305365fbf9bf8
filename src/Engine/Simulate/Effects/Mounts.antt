-- ===== src/Engine/Simulate/Effects/Mounts.antt =====
-- storage-engine/src/effects.rs: no runtime mount hides another one.
use Prim.Native.String.{String}
use pdisks.Base.{
  ◌≡◌, inl, inr, refl, ap, ◌∙◌, List, [], ◌∷◌, ◌++◌, Bool, false, not, ◌&&◌, Option, ok, arith,
  ◌==◌, nat_eq, any, contains, filter, filter-cons_true, filter-cons_false, Bool-cases,
  Option-cases, >>=-eq-ok,
}
use pdisks.Core.Node.{NodeId, Node}
use pdisks.Core.Graph.{
  lookup, insert_new, replace_existing, remove_node, remove_dependency, remove_relation,
  dependency_eq, relation_eq,
}
use pdisks.Core.State.{MountEntry}
use pdisks.Provider.Contract.{GraphEffect, MountEffect, PredictedEffect, FactInvalidation}
use pdisks.Engine.Simulate.Data.{context_eq, path_eq}
use pdisks.Engine.Simulate.Checks.{is_mounted_at, has_mounted_descendant, starts_with}
use pdisks.Engine.Simulate.Effects.{
  Projection, apply_graph_effect, apply_graph_effects, apply_mount_effect, apply_mount_effects,
  is_elsewhere, update_node,
}
use pdisks.Engine.Simulate.Effects.Steps.{Steps, start}

-- The later mount stands at the place of the earlier one or above it.
abbrev pub is_hidden_by : (earlier later : MountEntry) → Bool
is_hidden_by earlier later =
    (later.context == earlier.context) && starts_with earlier.target later.target

-- No mount of a list, in the order of mounting, is hidden by a later one.
abbrev pub IsVisible : List MountEntry → Type 0
IsVisible [] = Unit
IsVisible (m ∷ ms) = (any (is_hidden_by m) ms ≡ false) × IsVisible ms

any-append {ℓ} :
    {A : Type ℓ} (p : A → Bool) (xs : List A) (x : A)
    → any p xs ≡ false
    → p x ≡ false
    → any p (xs ++ x ∷ []) ≡ false
any-append p [] x h k = ground arith
any-append p (y ∷ xs) x h k = ground (arith, any-append p xs x)

any-filter {ℓ} :
    {A : Type ℓ} (p q : A → Bool) (xs : List A) → any p xs ≡ false → any p (filter q xs) ≡ false
any-filter p q [] h = refl
any-filter p q (y ∷ xs) h = ground (arith, any-filter p q xs)

IsVisible-filter :
    (q : MountEntry → Bool) (ms : List MountEntry) → IsVisible ms → IsVisible (filter q ms)
IsVisible-filter q [] v = tt
IsVisible-filter q (m ∷ ms) v = elim (Bool-cases (q m)) [
  | inl k ↦
      rw (filter-cons_true q m ms k)
        (any-filter (is_hidden_by m) q ms v.0, IsVisible-filter q ms v.1)
  | inr k ↦ rw (filter-cons_false q m ms k) (IsVisible-filter q ms v.1)
]

-- The two guards of a new mount find each mount that it would hide.
IsVisible-append :
    (ms : List MountEntry) (x : MountEntry)
    → any (λ mount. mount.target == x.target && mount.context == x.context) ms ≡ false
    → any
        (λ mount.
          (mount.context == x.context)
          && not (mount.target == x.target)
          && starts_with mount.target x.target)
        ms
      ≡ false
    → IsVisible ms
    → IsVisible (ms ++ x ∷ [])
IsVisible-append [] x h k v = (refl, tt)
IsVisible-append (m ∷ ms) x h k v =
    let a = context_eq.same_iff m.context x.context in
    let b = context_eq.same_iff x.context m.context in
    (
      any-append (is_hidden_by m) ms x v.0 (ground (arith, a, b)),
      IsVisible-append ms x (ground arith) (ground arith) v.1,
    )

mount_effect-Visible :
    (x : MountEffect) (p p' : Projection)
    → apply_mount_effect x p ≡ ok p'
    → IsVisible p.desired.mounts.runtime
    → IsVisible p'.desired.mounts.runtime
unfolding apply_mount_effect is_mounted_at has_mounted_descendant
mount_effect-Visible (MountEffect.add_runtime source target options context) p p' h v =
    elim (Bool-cases (is_mounted_at p.desired target context)) [
      | inl q ↦ absurd (ground arith)
      | inr q ↦ elim (Bool-cases (has_mounted_descendant p.desired target context)) [
        | inl u ↦ absurd (ground arith)
        | inr u ↦
            let entry : MountEntry = record {
              source = source;
              target = target;
              options = options;
              context = context;
            } in
            let made : p'.desired.mounts.runtime ≡ p.desired.mounts.runtime ++ entry ∷ [] =
              ground arith in
            rw made (IsVisible-append p.desired.mounts.runtime entry q u v)
      ]
    ]
mount_effect-Visible (MountEffect.remove_runtime target context) p p' h v =
    elim (Bool-cases (has_mounted_descendant p.desired target context)) [
      | inl u ↦ absurd (ground arith)
      | inr u ↦
          let made : p'.desired.mounts.runtime
              ≡ filter (is_elsewhere target context) p.desired.mounts.runtime =
            ground arith in
          rw made (IsVisible-filter (is_elsewhere target context) p.desired.mounts.runtime v)
    ]
mount_effect-Visible (MountEffect.set_persistent entry) p p' h v =
    let made : p'.desired.mounts.runtime ≡ p.desired.mounts.runtime = ground arith in rw made v
mount_effect-Visible (MountEffect.remove_persistent target context) p p' h v =
    let made : p'.desired.mounts.runtime ≡ p.desired.mounts.runtime = ground arith in rw made v

mount_effects-Visible :
    (effects : List MountEffect) (p p' : Projection)
    → apply_mount_effects effects p ≡ ok p'
    → IsVisible p.desired.mounts.runtime
    → IsVisible p'.desired.mounts.runtime
unfolding apply_mount_effects
mount_effects-Visible [] p p' h v =
    let made : p'.desired.mounts.runtime ≡ p.desired.mounts.runtime = ground arith in rw made v
mount_effects-Visible (x ∷ xs) p p' h v =
    let (m, first, rest) = >>=-eq-ok (apply_mount_effect x p) (apply_mount_effects xs) h in
    mount_effects-Visible xs m p' rest (mount_effect-Visible x p m first v)

update-mounts :
    (p p' : Projection) (id : NodeId) (effect : String) (update : Node → Option Node)
    → update_node p id effect update ≡ ok p'
    → p'.desired.mounts ≡ p.desired.mounts
unfolding update_node replace_existing
update-mounts p p' id effect update h = elim (Option-cases (lookup id p.desired.graph.nodes)) [
  | inl q ↦ absurd (ground arith)
  | inr (v, q) ↦ elim (Option-cases (update v)) [
    | inl u ↦ absurd (ground arith)
    | inr (w, u) ↦ ground arith
  ]
]

-- A graph effect leaves the mounts alone.
graph_effect-mounts :
    (x : GraphEffect) (p p' : Projection)
    → apply_graph_effect x p ≡ ok p'
    → p'.desired.mounts ≡ p.desired.mounts
unfolding apply_graph_effect insert_new remove_node remove_dependency remove_relation
graph_effect-mounts (GraphEffect.insert_node id spec) p p' h =
    elim (Option-cases (lookup id p.desired.graph.nodes)) [
      | inl q ↦ ground arith
      | inr (old, q) ↦ absurd (ground arith)
    ]
graph_effect-mounts (GraphEffect.remove_node id) p p' h =
    elim (Option-cases (lookup id p.desired.graph.nodes)) [
      | inl q ↦ absurd (ground arith)
      | inr (old, q) ↦ ground arith
    ]
graph_effect-mounts (GraphEffect.set_node_size id size) p p' h = update-mounts p p' id _ _ h
graph_effect-mounts (GraphEffect.invalidate_node_size id) p p' h = update-mounts p p' id _ _ h
graph_effect-mounts (GraphEffect.set_partition_attributes id a) p p' h = update-mounts p p' id _ _ h
graph_effect-mounts (GraphEffect.set_filesystem_label id l) p p' h = update-mounts p p' id _ _ h
graph_effect-mounts (GraphEffect.set_btrfs_allocation id a) p p' h = update-mounts p p' id _ _ h
graph_effect-mounts (GraphEffect.insert_dependency d) p p' h = ground arith
graph_effect-mounts (GraphEffect.remove_dependency d) p p' h =
    elim (Bool-cases (contains p.desired.graph.dependencies d)) [
      | inl q ↦ ground arith
      | inr q ↦ absurd (ground arith)
    ]
graph_effect-mounts (GraphEffect.insert_relation r) p p' h = ground arith
graph_effect-mounts (GraphEffect.remove_relation r) p p' h =
    elim (Bool-cases (contains p.desired.graph.relations r)) [
      | inl q ↦ ground arith
      | inr q ↦ absurd (ground arith)
    ]
graph_effect-mounts (GraphEffect.set_activation id active) p p' h =
    elim (Option-cases (lookup id p.desired.graph.nodes)) [
      | inl q ↦ absurd (ground arith)
      | inr (old, q) ↦ ground arith
    ]

pub graph_effects-mounts :
    (effects : List GraphEffect) (p p' : Projection)
    → apply_graph_effects effects p ≡ ok p'
    → p'.desired.mounts ≡ p.desired.mounts
unfolding apply_graph_effects
graph_effects-mounts [] p p' h = ground arith
graph_effects-mounts (x ∷ xs) p p' h =
    let (m, first, rest) = >>=-eq-ok (apply_graph_effect x p) (apply_graph_effects xs) h in
    graph_effects-mounts xs m p' rest ∙ graph_effect-mounts x p m first

-- A mount effect leaves the graph alone.
mount_effect-graph :
    (x : MountEffect) (p p' : Projection)
    → apply_mount_effect x p ≡ ok p'
    → p'.desired.graph ≡ p.desired.graph
unfolding apply_mount_effect
mount_effect-graph (MountEffect.add_runtime source target options context) p p' h =
    elim (Bool-cases (is_mounted_at p.desired target context)) [
      | inl q ↦ absurd (ground arith)
      | inr q ↦ elim (Bool-cases (has_mounted_descendant p.desired target context)) [
        | inl u ↦ absurd (ground arith)
        | inr u ↦ ground arith
      ]
    ]
mount_effect-graph (MountEffect.remove_runtime target context) p p' h =
    elim (Bool-cases (has_mounted_descendant p.desired target context)) [
      | inl u ↦ absurd (ground arith)
      | inr u ↦ ground arith
    ]
mount_effect-graph (MountEffect.set_persistent entry) p p' h = ground arith
mount_effect-graph (MountEffect.remove_persistent target context) p p' h = ground arith

mount_effects-graph :
    (effects : List MountEffect) (p p' : Projection)
    → apply_mount_effects effects p ≡ ok p'
    → p'.desired.graph ≡ p.desired.graph
unfolding apply_mount_effects
mount_effects-graph [] p p' h = ground arith
mount_effects-graph (x ∷ xs) p p' h =
    let (m, first, rest) = >>=-eq-ok (apply_mount_effect x p) (apply_mount_effects xs) h in
    mount_effects-graph xs m p' rest ∙ mount_effect-graph x p m first

-- The graph of a published effect is the one that its graph effects make.
pub project-graph :
    (p q : Projection) (effect : PredictedEffect) (is : List FactInvalidation)
    (s : Steps p effect is q)
    → q.desired.graph ≡ s.built.desired.graph
project-graph p q effect is s =
    ap (λ x. x.desired.graph) s.published
    ∙ mount_effects-graph effect.mounts s.built s.mounted s.mount_step

-- The steps of an effect hide no runtime mount.
pub project-Visible :
    (p q : Projection) (effect : PredictedEffect) (is : List FactInvalidation)
    → Steps p effect is q
    → IsVisible p.desired.mounts.runtime
    → IsVisible q.desired.mounts.runtime
project-Visible p q effect is s v =
    let kept = graph_effects-mounts effect.graph (start p is) s.built s.graph_step in
    let begun : IsVisible s.built.desired.mounts.runtime = rw kept v in
    rw s.published (mount_effects-Visible effect.mounts s.built s.mounted s.mount_step begun)
