-- ===== src/Engine/Simulate/Protect/Mounts.antt =====
-- storage-engine/src/effects.rs: what the mount effects leave alone of the mounts near a protected one.
use pdisks.Base.{
  ◌≡◌, inl, inr, refl, ap, ◌∙◌, List, [], ◌∷◌, ◌++◌, false, ok, arith, any, filter,
  filter-cons_true, filter-cons_false, Bool-cases, >>=-eq-ok,
}
use pdisks.Core.Block.{FilePath}
use pdisks.Core.State.{MountContext, MountEntry}
use pdisks.Provider.Contract.{FactInvalidation, MountEffect, PredictedEffect}
use pdisks.Engine.Simulate.Data.{path_eq, context_eq}
use pdisks.Engine.Simulate.Checks.{is_mounted_at, has_mounted_descendant}
use pdisks.Engine.Simulate.Effects.{
  Projection, is_elsewhere, apply_mount_effect, apply_mount_effects,
}
use pdisks.Engine.Simulate.Effects.Mounts.{graph_effects-mounts}
use pdisks.Engine.Simulate.Effects.Steps.{Steps, start}
use pdisks.Engine.Simulate.Effects.Untouched.{filter-append_false}
use pdisks.Engine.Simulate.Protect.{ProtectedMount, is_near, mount_effect_touches}

-- The mounts at, above or below a protected one.
abbrev pub mounts_near : ProtectedMount → List MountEntry → List MountEntry
mounts_near mount ms = filter (λ m. is_near mount m.target m.context) ms

filter-elsewhere :
    (mount : ProtectedMount) (target : FilePath) (context : MountContext) (ms : List MountEntry)
    → is_near mount target context ≡ false
    → mounts_near mount (filter (is_elsewhere target context) ms) ≡ mounts_near mount ms
filter-elsewhere mount target context [] h = refl
filter-elsewhere mount target context (x ∷ ms) h =
    elim (Bool-cases (is_elsewhere target context x)) [
      | inl q ↦
          rw (filter-cons_true (is_elsewhere target context) x ms q)
            (ground (arith, filter-elsewhere mount target context ms h))
      | inr q ↦
          let same_target = path_eq.same_iff x.target target in
          let same_context = context_eq.same_iff x.context context in
          let at_target : x.target ≡ target = ground arith in
          let at_context : x.context ≡ context = ground arith in
          let far : is_near mount x.target x.context ≡ false = rw (at_target, at_context) h in
          rw (filter-cons_false (is_elsewhere target context) x ms q)
            (ground (arith, filter-elsewhere mount target context ms h))
    ]

-- A mount effect away from a protected mount leaves the mounts near it alone.
mount_effect-near :
    (mount : ProtectedMount) (x : MountEffect) (p p' : Projection)
    → apply_mount_effect x p ≡ ok p'
    → mount_effect_touches mount x ≡ false
    → mounts_near mount p'.desired.mounts.runtime ≡ mounts_near mount p.desired.mounts.runtime
unfolding apply_mount_effect
mount_effect-near mount (MountEffect.add_runtime source target options context) p p' h k =
    elim (Bool-cases (is_mounted_at p.desired target context)) [
      | inl q ↦ absurd (ground arith)
      | inr q ↦ elim (Bool-cases (has_mounted_descendant p.desired target context)) [
        | inl u ↦ absurd (ground arith)
        | inr u ↦
            let entry : MountEntry = record {
              source = source;
              target = target;
              options = options;
              context = context;
            } in
            let made : p'.desired.mounts.runtime ≡ p.desired.mounts.runtime ++ entry ∷ [] =
              ground arith in
            rw made (
              filter-append_false (λ m. is_near mount m.target m.context) p.desired.mounts.runtime
                entry k)
      ]
    ]
mount_effect-near mount (MountEffect.remove_runtime target context) p p' h k =
    elim (Bool-cases (has_mounted_descendant p.desired target context)) [
      | inl u ↦ absurd (ground arith)
      | inr u ↦
          let made : p'.desired.mounts.runtime
              ≡ filter (is_elsewhere target context) p.desired.mounts.runtime =
            ground arith in
          rw made (filter-elsewhere mount target context p.desired.mounts.runtime k)
    ]
mount_effect-near mount (MountEffect.set_persistent entry) p p' h k = ground arith
mount_effect-near mount (MountEffect.remove_persistent target context) p p' h k = ground arith

mount_effects-near :
    (mount : ProtectedMount) (effects : List MountEffect) (p p' : Projection)
    → apply_mount_effects effects p ≡ ok p'
    → any (mount_effect_touches mount) effects ≡ false
    → mounts_near mount p'.desired.mounts.runtime ≡ mounts_near mount p.desired.mounts.runtime
unfolding apply_mount_effects
mount_effects-near mount [] p p' h k = ground arith
mount_effects-near mount (x ∷ xs) p p' h k =
    let (m, first, rest) = >>=-eq-ok (apply_mount_effect x p) (apply_mount_effects xs) h in
    mount_effects-near mount xs m p' rest (ground arith)
    ∙ mount_effect-near mount x p m first (ground arith)

-- The steps of an effect away from a protected mount leave the mounts near it alone.
pub project-near :
    (mount : ProtectedMount) (p q : Projection) (effect : PredictedEffect)
    (is : List FactInvalidation)
    → Steps p effect is q
    → any (mount_effect_touches mount) effect.mounts ≡ false
    → mounts_near mount q.desired.mounts.runtime ≡ mounts_near mount p.desired.mounts.runtime
project-near mount p q effect is s k =
    ap (λ x. mounts_near mount x.desired.mounts.runtime) s.published
    ∙ mount_effects-near mount effect.mounts s.built s.mounted s.mount_step k
    ∙ ap (λ x. mounts_near mount x.runtime)
        (graph_effects-mounts effect.graph (start p is) s.built s.graph_step)
