-- ===== src/Engine/Simulate/Admission.antt =====
-- storage-engine/src/prerequisites.rs and storage-engine/src/effects.rs: the checks that foretell
-- whether an effect can be applied.
use pdisks.Base.{
  ◌≡◌, ◌↔◌, inl, inr, List, true, false, some, ok, err, arith, get_key, Bool-cases, Option-cases,
  Result-cases, ltb,
}
use pdisks.Core.Block.{FilePath}
use pdisks.Core.State.{MountContext, MountSource}
use Prim.Native.String.{String}
use pdisks.Provider.Contract.{
  ActionPrerequisite, AllocationDomain, AllocationQuantity, reserve, domain_eq, MountEffect,
}
use pdisks.Engine.Simulate.Data.{is_violated, SimulationEvidence, insufficient_capacity}
use pdisks.Engine.Simulate.Evidence.{apply_allocation}
use pdisks.Engine.Simulate.Checks.{
  evaluate_capacity, evaluate_prerequisite, is_mounted_at, has_mounted_descendant,
}
use pdisks.Engine.Simulate.Effects.{Projection, apply_mount_effect}

-- The capacity check of an amount is violated exactly when its reservation fails.
pub capacity_violated_iff :
    (e : SimulationEvidence) (d : AllocationDomain) (amount : AllocationQuantity)
    → (is_violated (evaluate_capacity e d (some amount)) ≡ true)
      ↔ (apply_allocation (reserve d amount) e ≡ err (insufficient_capacity d))
unfolding evaluate_capacity apply_allocation
capacity_violated_iff e d amount = elim (Option-cases (get_key e.available_capacity d)) [
  | inl q ↦ ((λ h. absurd (ground arith)), λ h. absurd (ground arith))
  | inr (c, q) ↦ elim (Bool-cases (ltb c amount)) [
    | inl k ↦ ((λ h. ground arith), λ h. ground arith)
    | inr k ↦ ((λ h. absurd (ground arith)), λ h. absurd (ground arith))
  ]
]

-- A runtime mount can be added exactly when neither the check of its target nor the check of the
-- mounts below it is violated.
pub add_runtime_iff :
    (p : Projection) (source : MountSource) (target : FilePath) (options : List String)
    (context : MountContext)
    → ((q : Projection) × (apply_mount_effect
            (MountEffect.add_runtime source target options context)
            p
          ≡ ok q))
      ↔ ((is_violated (
              evaluate_prerequisite p.desired p.evidence
                (ActionPrerequisite.mount_target_available target context))
            ≡ false)
          × (is_violated (
                evaluate_prerequisite p.desired p.evidence
                  (ActionPrerequisite.mount_descendants_absent target context))
              ≡ false))
unfolding apply_mount_effect evaluate_prerequisite
add_runtime_iff p source target options context =
    elim (Bool-cases (is_mounted_at p.desired target context)) [
      | inl a ↦ ((λ (q, h). absurd (ground arith)), λ (h, k). absurd (ground arith))
      | inr a ↦ elim (Bool-cases (has_mounted_descendant p.desired target context)) [
        | inl b ↦ ((λ (q, h). absurd (ground arith)), λ (h, k). absurd (ground arith))
        | inr b ↦ (
          (λ (q, h). (ground arith, ground arith)),
          λ (h, k).
              elim (Result-cases
                (apply_mount_effect (MountEffect.add_runtime source target options context) p)) [
                  | inl done ↦ done
                  | inr (x, e) ↦ absurd (ground arith)
                ],
        )
      ]
    ]
