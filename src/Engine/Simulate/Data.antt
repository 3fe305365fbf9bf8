-- ===== src/Engine/Simulate/Data.antt =====
-- storage-engine/src/simulation_evidence.rs: the temporary evidence of a simulation and its errors.
use Prim.Native.String.{String}
use native.Mathlib.Decide.{ℕ_discrete}
use pdisks.Base.{List, [], Bool, true, false, Eq, eq_of_discrete, String-discrete, lists_discrete}
use pdisks.Core.Block.{FilePath}
use pdisks.Core.Node.{NodeId}
use pdisks.Core.Graph.{GraphError}
use pdisks.Core.State.{Diagnostic, MountContext, MountSource}
use pdisks.Provider.Contract.{
  ActionContract, ActionPrerequisite, AllocationDomain, AllocationQuantity, BlockInterfaceAccess,
  FactInvalidation, FactScope, FactKind,
}

pub record SimulationEvidence : Type 0 where
  pub projected_persistent_targets : List (FilePath × MountContext)
  pub activations : List (NodeId × Bool)
  pub block_interfaces : List (NodeId × BlockInterfaceAccess)
  pub available_capacity : List (AllocationDomain × AllocationQuantity)
  pub projected_allocations : List AllocationDomain
  pub projected_graph_nodes : List NodeId
  pub checked_filesystems : List NodeId
  pub projected_runtime_mounts : Bool
  pub invalidated_facts : List FactInvalidation

-- `SimulationEvidence::default`
abbrev pub no_evidence : SimulationEvidence
no_evidence = record {
  projected_persistent_targets = [];
  activations = [];
  block_interfaces = [];
  available_capacity = [];
  projected_allocations = [];
  projected_graph_nodes = [];
  checked_filesystems = [];
  projected_runtime_mounts = false;
  invalidated_facts = [];
}

pub record SimulationEvidenceSummary : Type 0 where
  pub invalidated_facts : List FactInvalidation
  pub determined_persistent_targets : List (FilePath × MountContext)

pub data CheckEvidence : Type 0 where
  observed_snapshot predicted_effect : CheckEvidence

pub data CheckStatus : Type 0 where
  satisfied : CheckEvidence → CheckStatus
  violated : (reason : String) → CheckStatus
  unknown : (required_evidence : String) → CheckStatus

-- `matches!(check.status, CheckStatus::Violated { .. })`
abbrev pub is_violated : CheckStatus → Bool
is_violated (violated _) = true
is_violated _ = false

pub record PrerequisiteCheck : Type 0 where
  pub prerequisite : ActionPrerequisite
  pub status : CheckStatus

pub record CapacityEvidence : Type 0 where
  pub domain : AllocationDomain
  pub available : AllocationQuantity

pub data CapacityEvidenceError : Type 0 where
  duplicate_domain : AllocationDomain → CapacityEvidenceError

pub record SimulatedAction : Type 0 where
  pub contract : ActionContract
  pub checks : List PrerequisiteCheck
  pub invalidated_facts : List FactInvalidation

pub data EffectApplicationError : Type 0 where
  structure : GraphError → EffectApplicationError
  duplicate_node missing_node : NodeId → EffectApplicationError
  wrong_node_kind : (node : NodeId) (effect : String) → EffectApplicationError
  missing_dependency missing_relation : EffectApplicationError
  occupied_mount_target mounted_descendant : FilePath → EffectApplicationError
  insufficient_capacity capacity_overflow : AllocationDomain → EffectApplicationError

pub data ActionSimulationError : Type 0 where
  validation : (diagnostics : List Diagnostic) → ActionSimulationError
  prerequisites_violated : (checks : List PrerequisiteCheck) → ActionSimulationError
  effect : EffectApplicationError → ActionSimulationError

unfoldable pub FactScope-discrete : Discrete FactScope
FactScope-discrete = hlevel (ℕ_discrete, String-discrete, lists_discrete)

unfoldable pub FactKind-discrete : Discrete FactKind
FactKind-discrete = hlevel

unfoldable pub MountContext-discrete : Discrete MountContext
MountContext-discrete = hlevel (String-discrete, lists_discrete)

unfoldable pub MountSource-discrete : Discrete MountSource
MountSource-discrete = hlevel (ℕ_discrete, String-discrete, lists_discrete)

unfoldable pub FilePath-discrete : Discrete FilePath
FilePath-discrete = hlevel (String-discrete, lists_discrete)

instance abbrev pub scope_eq : Eq FactScope
scope_eq = eq_of_discrete FactScope-discrete

instance abbrev pub kind_eq : Eq FactKind
kind_eq = eq_of_discrete FactKind-discrete

instance abbrev pub context_eq : Eq MountContext
context_eq = eq_of_discrete MountContext-discrete

instance abbrev pub source_eq : Eq MountSource
source_eq = eq_of_discrete MountSource-discrete

instance abbrev pub path_eq : Eq FilePath
path_eq = eq_of_discrete FilePath-discrete
