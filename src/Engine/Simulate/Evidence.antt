-- ===== src/Engine/Simulate/Evidence.antt =====
-- storage-engine/src/simulation_evidence.rs: the operations on the temporary evidence.
-- A map is the list of its entries and a set the list of its members, in iteration order.
pub mod Search
pub mod Reach
pub mod Edges
pub mod Invalidation
pub mod Ledger
pub mod Clean
mod Examples
use pdisks.Base.{
  ℕ, ◌+◌, ◌-◌, List, [], ◌∷◌, ◌++◌, map, Bool, true, false, not, ◌&&◌, ◌||◌, Option, none, some,
  Result, ok, err, ◌>>=◌, ◌==◌, nat_eq, any, contains, filter, leb, length, checked_add,
  checked_sub, get_key, drop_key, put_key, put_member, drop_member, if◌then◌else◌,
}
use pdisks.Core.Block.{FilePath}
use pdisks.Core.Node.{NodeId}
use pdisks.Core.Graph.{Dependency, DependencyKind, backs, contains_at}
use pdisks.Core.State.{DesiredState, MountContext}
use pdisks.Provider.Contract.{
  ActionOutput, node, block_interface, mount, persistent_mount, check_passed, AllocationDomain,
  AllocationEffect, invalidate, reserve, release, FactInvalidation, FactScope, FactKind, activation,
  presence, geometry, content, domain_eq, invalidation_eq,
}
use pdisks.Engine.Simulate.Data.{
  SimulationEvidence, no_evidence, SimulationEvidenceSummary, CapacityEvidence,
  CapacityEvidenceError, duplicate_domain, EffectApplicationError, insufficient_capacity,
  capacity_overflow, scope_eq, kind_eq, context_eq, path_eq,
}
use pdisks.Engine.Simulate.Evidence.Search.{depth_first}

-- `SimulationEvidence::new`, from the evidence of its loop.
unfoldable pub insert_capacity :
    List CapacityEvidence → SimulationEvidence → Result CapacityEvidenceError SimulationEvidence
insert_capacity [] evidence = ok evidence
insert_capacity (item ∷ items) evidence = elim (get_key evidence.available_capacity item.domain) [
  | none ↦ insert_capacity items (record evidence {
    available_capacity = put_key evidence.available_capacity item.domain item.available;
  })
  | some _ ↦ err (duplicate_domain item.domain)
]

unfoldable pub new_evidence :
    List CapacityEvidence → Result CapacityEvidenceError SimulationEvidence
unfolding insert_capacity
new_evidence capacity = insert_capacity capacity no_evidence

-- `SimulationEvidenceSummary::from`
unfoldable pub summary : SimulationEvidence → SimulationEvidenceSummary
summary evidence = record {
  invalidated_facts = evidence.invalidated_facts;
  determined_persistent_targets = evidence.projected_persistent_targets;
}

abbrev pub is_observation_stale : SimulationEvidence → FactScope → FactKind → Bool
is_observation_stale evidence scope kind =
    any (λ item. item.scope == scope && item.kind == kind) evidence.invalidated_facts

abbrev pub persistent_mount_was_projected :
    SimulationEvidence → (target : FilePath) → MountContext → Bool
persistent_mount_was_projected evidence target context =
    any (λ candidate. candidate.0 == target && candidate.1 == context)
      evidence.projected_persistent_targets

unfoldable pub mark_persistent_target :
    SimulationEvidence → (target : FilePath) → MountContext → SimulationEvidence
mark_persistent_target evidence target context =
    if persistent_mount_was_projected evidence target context then evidence else record evidence {
      projected_persistent_targets =
          evidence.projected_persistent_targets ++ (target, context) ∷ [];
    }

unfoldable pub apply_output : ActionOutput → SimulationEvidence → SimulationEvidence
apply_output (block_interface n access) evidence = record evidence {
  block_interfaces = put_key evidence.block_interfaces n access;
}
apply_output (check_passed fs) evidence = record evidence {
  checked_filesystems = put_member evidence.checked_filesystems fs;
}
apply_output _ evidence = evidence

unfoldable pub apply_outputs : List ActionOutput → SimulationEvidence → SimulationEvidence
unfolding apply_output
apply_outputs [] evidence = evidence
apply_outputs (output ∷ outputs) evidence = apply_outputs outputs (apply_output output evidence)

-- `sort_unstable_by_key` on identities.
abbrev pub insert_sorted : NodeId → List NodeId → List NodeId
insert_sorted x [] = x ∷ []
insert_sorted x (y ∷ ys) = let rest = insert_sorted x ys in if leb x y then x ∷ y ∷ ys else y ∷ rest

abbrev pub sort : List NodeId → List NodeId
sort [] = []
sort (x ∷ xs) = insert_sorted x (sort xs)

abbrev pub reverse {ℓ} : {A : Type ℓ} → List A → List A
reverse [] = []
reverse (x ∷ xs) = reverse xs ++ x ∷ []

-- The children of a node as they are pushed: the last one is popped first.
abbrev pub children : DesiredState → NodeId → List NodeId
children desired n = reverse (
    sort (
      map (λ dependency. dependency.to)
        (filter (λ dependency. dependency.from == n) desired.graph.dependencies)))

abbrev pub activation_of : NodeId → FactInvalidation
activation_of n = record { scope = node n; kind = activation }

-- `if !expanded.contains(&propagated) { expanded.push(propagated) }`
abbrev pub propagate : NodeId → List FactInvalidation → List FactInvalidation
propagate n expanded =
    if contains expanded (activation_of n) then expanded else expanded ++ activation_of n ∷ []

abbrev pub is_activation : FactInvalidation → Option NodeId
is_activation i = elim i.scope [ node n ↦ if i.kind == activation then some n else none | _ ↦ none ]

-- The loop over the invalidations that expands those of an activation.
unfoldable pub expand :
    DesiredState → (invalidations expanded : List FactInvalidation) → List FactInvalidation
expand desired [] expanded = expanded
expand desired (i ∷ is) expanded = elim (is_activation i) [
  | none ↦ expand desired is expanded
  | some n ↦ expand desired is (
      depth_first (length desired.graph.dependencies + 1) (children desired) propagate [] (n ∷ [])
        expanded)
]

abbrev pub revokes : FactInvalidation → Option NodeId
revokes i = elim i.scope [
  | node n ↦ if i.kind == activation || i.kind == presence then some n else none
  | _ ↦ none
]

-- The loop over the expanded invalidations.
unfoldable pub record_invalidations :
    List FactInvalidation → SimulationEvidence → SimulationEvidence
record_invalidations [] evidence = evidence
record_invalidations (i ∷ is) evidence =
    let noted = record evidence { invalidated_facts = put_member evidence.invalidated_facts i } in
    record_invalidations is (elim (revokes i) [
      | none ↦ noted
      | some n ↦ record noted {
        block_interfaces = drop_key noted.block_interfaces n;
        activations = drop_key noted.activations n;
      }
    ])

unfoldable pub invalidate_observations :
    DesiredState
    → List FactInvalidation
    → SimulationEvidence
    → List FactInvalidation × SimulationEvidence
unfolding expand record_invalidations
invalidate_observations desired invalidations evidence =
    let expanded = expand desired invalidations invalidations in
    (expanded, record_invalidations expanded evidence)

abbrev pub affects_check : FactInvalidation → Option NodeId
affects_check i = elim i.scope [
  | node n ↦ if i.kind == content || i.kind == geometry || i.kind == presence then some n else none
  | _ ↦ none
]

-- `filter_map(..).collect()` as a stack: the last node is popped first.
abbrev pub affected_nodes : List FactInvalidation → List NodeId
affected_nodes [] = []
affected_nodes (i ∷ is) =
    let later = affected_nodes is in
    elim (affects_check i) [ none ↦ later | some n ↦ later ++ n ∷ [] ]

abbrev pub carries_content : DependencyKind → Bool
carries_content backs = true
carries_content (contains_at _) = true
carries_content _ = false

abbrev pub content_children : DesiredState → NodeId → List NodeId
content_children desired n = reverse (
    map (λ dependency. dependency.to)
      (filter (λ dependency. (dependency.from == n) && carries_content dependency.kind)
        desired.graph.dependencies))

unfoldable pub invalidate_filesystem_checks :
    DesiredState → List FactInvalidation → SimulationEvidence → SimulationEvidence
invalidate_filesystem_checks desired invalidations evidence =
    let affected = affected_nodes invalidations in
    record evidence {
      checked_filesystems =
          depth_first (length desired.graph.dependencies + length affected)
            (content_children desired) (λ n checked. drop_member checked n) [] affected
            evidence.checked_filesystems;
    }

-- One effect; `continue` leaves the evidence as it is.
unfoldable pub apply_allocation :
    AllocationEffect → SimulationEvidence → Result EffectApplicationError SimulationEvidence
apply_allocation (invalidate domain) evidence = ok (record evidence {
  available_capacity = drop_key evidence.available_capacity domain;
  projected_allocations = put_member evidence.projected_allocations domain;
})
apply_allocation (reserve domain amount) evidence =
    elim (get_key evidence.available_capacity domain) [
      | none ↦ ok evidence
      | some available ↦ elim (checked_sub available amount) [
        | none ↦ err (insufficient_capacity domain)
        | some remaining ↦ ok (record evidence {
          available_capacity = put_key evidence.available_capacity domain remaining;
          projected_allocations = put_member evidence.projected_allocations domain;
        })
      ]
    ]
apply_allocation (release domain amount) evidence =
    elim (get_key evidence.available_capacity domain) [
      | none ↦ ok evidence
      | some available ↦ elim (checked_add available amount) [
        | none ↦ err (capacity_overflow domain)
        | some total ↦ ok (record evidence {
          available_capacity = put_key evidence.available_capacity domain total;
          projected_allocations = put_member evidence.projected_allocations domain;
        })
      ]
    ]

unfoldable pub apply_allocation_effects :
    List AllocationEffect → SimulationEvidence → Result EffectApplicationError SimulationEvidence
unfolding apply_allocation
apply_allocation_effects [] evidence = ok evidence
apply_allocation_effects (effect ∷ effects) evidence =
    apply_allocation effect evidence >>= apply_allocation_effects effects
