-- ===== src/Engine/Simulate/Evidence/Examples.antt =====
-- The theorems on storage-engine/src/simulation_evidence.rs at a disk 1 with the filesystem 2.
use mathlib.Core.List.{Memᴰ}
use native.Mathlib.Decide.{ℕ_discrete}
use pdisks.Base.{
  nat_eq, ℕ, ◌+◌, ◌≤◌, ◌≡◌, ◌↔◌, ◌⊎◌, refl, List, [], ◌∷◌, true, false, none, some, Result, ok, err,
  arith, contains, get_key, u64_max,
}
use pdisks.Core.Graph.{backs}
use pdisks.Core.State.{DesiredState, unmanaged}
use pdisks.Provider.Contract.{
  AllocationDomain, AllocationDomain-discrete, domain_eq, AllocationEffect, FactInvalidation,
  FactKind, FactScope, lvm_volume_group, release, reserve,
}
use pdisks.Engine.Simulate.Data.{SimulationEvidence, no_evidence}
use pdisks.Engine.Simulate.Evidence.{
  apply_allocation, apply_allocation_effects, invalidate_filesystem_checks, invalidate_observations,
  is_observation_stale,
}
use pdisks.Engine.Simulate.Evidence.Clean.{Disturbed, invalidate_filesystem_checks_iff}
use pdisks.Engine.Simulate.Evidence.Invalidation.{
  Deactivated, invalidate_observations-stale, invalidate_observations_revokes,
}
use pdisks.Engine.Simulate.Evidence.Ledger.{
  apply_allocation_effects_balance, apply_allocation_effects_unknown, released, reserved,
}
use pdisks.Engine.Simulate.Evidence.Reach.{here, there}

abbrev desired : DesiredState
desired = record {
  graph = record {
    nodes = [];
    dependencies = record { from = 1; to = 2; kind = backs } ∷ [];
    relations = [];
  };
  mounts = record { runtime = []; persistent = [] };
  boot = unmanaged;
  intents = [];
}

abbrev group : AllocationDomain
group = lvm_volume_group 7

abbrev evidence : SimulationEvidence
evidence = record no_evidence {
  available_capacity = (group, 10) ∷ [];
  checked_filesystems = 2 ∷ [];
  activations = (2, true) ∷ [];
}

abbrev deactivated : List FactInvalidation
deactivated = record { scope = FactScope.node 1; kind = FactKind.activation } ∷ []

abbrev rewritten : List FactInvalidation
rewritten = record { scope = FactScope.node 1; kind = FactKind.content } ∷ []

below_one : Deactivated desired deactivated 2
below_one = (1, Memᴰ.head refl, there 2 (Memᴰ.head refl) (here refl))

invalidate_observations-stale_example :
    (is_observation_stale
        (invalidate_observations desired deactivated evidence).1
        (FactScope.node 2)
        FactKind.activation
      ≡ true)
    ↔ ((is_observation_stale evidence (FactScope.node 2) FactKind.activation ≡ true)
        ⊎ Deactivated desired deactivated 2)
invalidate_observations-stale_example = invalidate_observations-stale desired deactivated evidence 2

invalidate_observations_revokes_example :
    (get_key (invalidate_observations desired deactivated evidence).1.activations 2 ≡ none)
    × (get_key (invalidate_observations desired deactivated evidence).1.block_interfaces 2 ≡ none)
invalidate_observations_revokes_example =
    invalidate_observations_revokes desired deactivated evidence 2 below_one

invalidate_filesystem_checks_iff_example :
    (contains (invalidate_filesystem_checks desired rewritten evidence).checked_filesystems 2
      ≡ false)
    ↔ ((contains evidence.checked_filesystems 2 ≡ false) ⊎ Disturbed desired rewritten 2)
invalidate_filesystem_checks_iff_example =
    invalidate_filesystem_checks_iff desired rewritten evidence 2

abbrev effects : List AllocationEffect
effects = reserve group 4 ∷ release group 1 ∷ []

abbrev or_else {ℓ ι} : {E : Type ℓ} {A : Type ι} → Result E A → A → A
or_else (ok a) b = a
or_else (err e) b = b

abbrev charged : SimulationEvidence
charged = or_else (apply_allocation_effects effects evidence) evidence

charged_ok : apply_allocation_effects effects evidence ≡ ok charged
unfolding apply_allocation_effects apply_allocation AllocationDomain-discrete ℕ_discrete
charged_ok = refl

group_known : get_key evidence.available_capacity group ≡ some 10
unfolding AllocationDomain-discrete ℕ_discrete
group_known = refl

balanced : (reserved group effects ≡ 4) × (released group effects ≡ 1)
unfolding AllocationDomain-discrete ℕ_discrete
balanced = (refl, refl)

apply_allocation_effects_balance_example :
    (c : ℕ) × (get_key charged.available_capacity group ≡ some c)
    × (c + reserved group effects ≡ 10 + released group effects)
    × (c ≤ u64_max)
apply_allocation_effects_balance_example =
    apply_allocation_effects_balance effects evidence charged group 10 charged_ok group_known refl
      (omega arith)

other_unknown : get_key evidence.available_capacity (lvm_volume_group 8) ≡ none
unfolding AllocationDomain-discrete ℕ_discrete
other_unknown = refl

apply_allocation_effects_unknown_example :
    get_key charged.available_capacity (lvm_volume_group 8) ≡ none
apply_allocation_effects_unknown_example =
    apply_allocation_effects_unknown effects evidence charged (lvm_volume_group 8) charged_ok
      other_unknown
