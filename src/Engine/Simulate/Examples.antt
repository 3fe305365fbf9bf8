-- ===== src/Engine/Simulate/Examples.antt =====
-- The theorems on the simulation at a small configuration: a disk 1 with the filesystem 2, mounted at
-- /data, and a disk 3 that the plan does not touch, mounted at /keep.
use Prim.Native.String.{String}
use native.Mathlib.Decide.{ℕ_discrete}
use mathlib.Core.List.{Memᴰ}
use mathlib.Core.List.Memᴰ
use pdisks.Base.{
  zero, suc, all, inl, inr, Bool-cases, String-discrete, lists_discrete, ℕ, ◌≡◌, ◌↔◌, refl, List,
  [], ◌∷◌, true, false, none, some, Result, ok, err, arith,
}
use pdisks.Core.Kind.{ext4}
use pdisks.Core.Node.{Node, NodeId, NodeKind, disk, filesystem, present}
use pdisks.Core.Graph.{
  Dependency, Dependency-discrete, NodeGraph, Relation, backs, insert_dependency, insert_new,
  lookup, new_graph, replace_existing, require_endpoints,
}
use pdisks.Core.Graph.Order.{count_edges, drain, release, topological_order}
use pdisks.Core.Graph.Sets.{Edit, add_edge, add_node, edit, edit_all, edit_all-IsSetLike}
use pdisks.Core.Graph.Structure.{check_edge, check_edges, check_relations, validate_structure}
use pdisks.Core.State.{DesiredState, MountContext, MountEntry, MountSource, unmanaged}
use pdisks.Provider.Action.{FilesystemAction, ProviderAction}
use pdisks.Provider.Contract.{
  ActionContract, ActionPrerequisite, ActionResource, ResourceAccessMode, AllocationDomain,
  AllocationEffect, FactInvalidation, FactKind, FactScope, GraphEffect, MountEffect,
  ResourceAccessMode-discrete, AllocationDomain-discrete, FactInvalidation-discrete,
  ActionResource-discrete, manual_recovery, lvm_volume_group, reserve,
}
use pdisks.Provider.Contract
use pdisks.Provider.Fragment.{FragmentOrigin}
use pdisks.Engine.Plan.{PlannedAction}
use pdisks.Engine.Simulate.Data.{
  MountSource-discrete, CheckStatus, observed_snapshot, is_violated, no_evidence,
  FactScope-discrete, FactKind-discrete, MountContext-discrete, FilePath-discrete,
  insufficient_capacity,
}
use pdisks.Engine.Simulate.Checks.{
  evaluate_prerequisites, evaluate_prerequisite, is_mounted_at, has_mounted_descendant,
  evaluate_capacity,
}
use pdisks.Engine.Simulate.Evidence.{
  apply_allocation, apply_allocation_effects, apply_output, apply_outputs, expand,
  invalidate_filesystem_checks, invalidate_observations, record_invalidations,
}
use pdisks.Engine.Simulate.Evidence.Search.{depth_first}
use pdisks.Engine.Simulate.Goal.{
  persistent_mount_check, runtime_mount_check, compare_goal, NodeKind-discrete, compare_graph,
  compare_sizes, satisfied,
}
use pdisks.Engine.Simulate.Goal.Graphs.{HasSize, compare_graph_satisfied}
use pdisks.Engine.Simulate.Checks.{dependents_loop, evaluate_dependent_sizes}
use pdisks.Engine.Simulate.Checks.Dependents.{
  Exceeds, Fits, consumers, evaluate_dependent_sizes_satisfied, evaluate_dependent_sizes_violated,
}
use pdisks.Engine.Simulate.Admission.{add_runtime_iff, capacity_violated_iff}
use pdisks.Engine.Simulate.Effects.{
  Projection, apply_effect_with_invalidations, apply_graph_effect, apply_graph_effects,
  apply_mount_effect, apply_mount_effects, project, update_node,
}
use pdisks.Engine.Simulate.Effects.Untouched.{IsUntouched}
use pdisks.Engine.Simulate.Protect.{
  ProtectedMount, ProtectedScope, check_step, check_steps, push_violations,
}
use pdisks.Engine.Simulate.Protect.Laws.{check_steps-Untouched, check_steps-near}
use pdisks.Engine.Simulate.Protect.Mounts.{mounts_near}
use pdisks.Engine.Simulate.Replay.{
  ordered_actions, Provider, Replayed, replay_action, replay_actions, simulate_action,
}
use pdisks.Engine.Simulate.Effects.Views.{meanings, observe, view}
use pdisks.Engine.Simulate.Effects.Refinement.{apply_graph_effects-observe}
use pdisks.Engine.Simulate.Replay.Order.{Follows, ordered_actions_total}
use pdisks.Engine.Simulate.Report.{
  IntentCoverage, analysis, check_obligations, goal_obligations, is_complete, step_obligations,
  with_goal,
}
use pdisks.Engine.Simulate.Report.Achieved.{Achieves}
use pdisks.Engine.Simulate.Report.Complete.{complete_report, is_satisfied, result_of}
use pdisks.Engine.Compose.Order.Laws.{IsOrder, IsRank}
use pdisks.Provider.Fragment.{requested_order}
use pdisks.Engine.Plan.{ActionId, ExecutionPlan}
use pdisks.Engine.Simulate.Soundness.{IsSound, replay_actions-Sound}

abbrev plain : NodeKind → Node
plain kind = record {
  kind = record { kind = kind; size = some 4096 };
  size = record {
    lvm_active = none;
    observed_in = none;
    presence = present;
    identities = [];
    block = none;
    device = none;
  };
}

abbrev edits : List Edit
edits =
    add_node 1 (plain disk)
    ∷ add_node 2 (plain (filesystem ext4 none))
    ∷ add_node 3 (plain disk)
    ∷ add_edge (record { from = 1; to = 2; kind = backs })
    ∷ []

abbrev graph : NodeGraph
graph = edit_all edits new_graph

abbrev mounted_at : String → NodeId → MountEntry
mounted_at name n = record {
  source = MountSource.filesystem n;
  target = name ∷ [];
  options = [];
  context = MountContext.host;
}

abbrev desired : DesiredState
desired = record {
  graph = graph;
  mounts = record { runtime = mounted_at "keep" 3 ∷ mounted_at "data" 2 ∷ []; persistent = [] };
  boot = unmanaged;
  intents = [];
}

abbrev group : AllocationDomain
group = lvm_volume_group 7

abbrev begin : Projection
begin = record {
  desired = desired;
  evidence = record no_evidence {
    available_capacity = (group, 10) ∷ [];
    checked_filesystems = 2 ∷ [];
    activations = (1, true) ∷ [];
  };
}

begin-Sound : IsSound begin
unfolding validate_structure check_relations check_edges check_edge topological_order count_edges
    drain release require_endpoints edit_all edit insert_new insert_dependency ℕ_discrete
    MountContext-discrete FilePath-discrete
begin-Sound = record {
  valid = refl;
  set_like = edit_all-IsSetLike edits;
  visible = (refl, (refl, tt));
  known = λ n absent. ground arith;
}

-- Relabels the filesystem, mounts it again and reserves 2 of the group.
abbrev relabel : ActionContract
relabel = record {
  prerequisites =
      ActionPrerequisite.node_exists 2 ∷ ActionPrerequisite.capacity_available group (some 2) ∷ [];
  provided_outputs = Contract.check_passed 2 ∷ [];
  affected_resources =
      record { resource = ActionResource.node 2; mode = ResourceAccessMode.write } ∷ [];
  predicted_effect = record {
    graph =
        GraphEffect.set_filesystem_label 2 (some "new") ∷ GraphEffect.set_activation 1 true ∷ [];
    mounts =
        MountEffect.remove_runtime ("data" ∷ []) MountContext.host
        ∷ MountEffect.add_runtime (MountSource.filesystem 2) ("data" ∷ []) [] MountContext.host
        ∷ [];
    allocations = reserve group 2 ∷ [];
  };
  invalidated_facts = record { scope = FactScope.node 2; kind = FactKind.content } ∷ [];
  postconditions = [];
  restart_policy = manual_recovery;
}

abbrev provider : Provider
provider = record {
  validate_provider_action = λ operation g. [];
  describe_action = λ operation g. relabel;
  accepts_contract = λ operation contract g. true;
}

abbrev operation : ProviderAction
operation = ProviderAction.filesystem (FilesystemAction.set_label 2 (some "new"))

abbrev planned : ℕ → PlannedAction
planned n = record {
  id = n;
  operation = operation;
  fragment = 0;
  local_id = n;
  origin = FragmentOrigin.intent 0;
  informational_contract = relabel;
}

abbrev start : Replayed
start = record { projection = begin; actions = []; steps = [] }

abbrev or_else {ℓ ι} : {E : Type ℓ} {A : Type ι} → Result E A → A → A
or_else (ok a) b = a
or_else (err e) b = b

abbrev two_actions : List PlannedAction
two_actions = planned 0 ∷ planned 1 ∷ []

abbrev finish : Replayed
finish = or_else (replay_actions provider two_actions start) start

replayed : replay_actions provider two_actions start ≡ ok finish
unfolding replay_actions replay_action simulate_action evaluate_prerequisites evaluate_prerequisite
    evaluate_capacity apply_effect_with_invalidations project invalidate_observations expand
    record_invalidations invalidate_filesystem_checks depth_first apply_graph_effects
    apply_graph_effect update_node replace_existing apply_mount_effects apply_mount_effect
    is_mounted_at has_mounted_descendant apply_allocation_effects apply_allocation apply_outputs
    apply_output validate_structure check_relations check_edges check_edge topological_order
    count_edges drain release require_endpoints edit_all edit insert_new insert_dependency
    ℕ_discrete MountContext-discrete FilePath-discrete AllocationDomain-discrete
    FactInvalidation-discrete FactKind-discrete FactScope-discrete lists_discrete String-discrete
    Bool-cases
replayed = refl

replay_actions-Sound_example : IsSound finish.projection
replay_actions-Sound_example =
    replay_actions-Sound provider two_actions start finish replayed begin-Sound

apply_graph_effects-observe_example :
    observe (apply_graph_effects relabel.predicted_effect.graph begin)
    ≡ meanings relabel.predicted_effect.graph (view graph)
apply_graph_effects-observe_example =
    apply_graph_effects-observe relabel.predicted_effect.graph begin (edit_all-IsSetLike edits)

abbrev keep : ProtectedMount
keep = record { target = "keep" ∷ []; context = MountContext.host }

abbrev protected : ProtectedScope
protected = record { nodes = 3 ∷ []; runtime_mounts = keep ∷ []; persistent_mounts = [] }

no_violation : check_steps protected finish.actions finish.steps [] ≡ []
unfolding check_steps check_step push_violations replay_actions replay_action simulate_action
    evaluate_prerequisites evaluate_prerequisite evaluate_capacity apply_effect_with_invalidations
    project invalidate_observations expand record_invalidations invalidate_filesystem_checks
    depth_first apply_graph_effects apply_graph_effect update_node replace_existing
    apply_mount_effects apply_mount_effect is_mounted_at has_mounted_descendant
    apply_allocation_effects apply_allocation apply_outputs apply_output validate_structure
    check_relations check_edges check_edge topological_order count_edges drain release
    require_endpoints edit_all edit insert_new insert_dependency ℕ_discrete MountContext-discrete
    FilePath-discrete AllocationDomain-discrete FactInvalidation-discrete FactKind-discrete
    FactScope-discrete ResourceAccessMode-discrete lists_discrete String-discrete Bool-cases
no_violation = refl

check_steps-Untouched_example : IsUntouched 3 graph finish.projection.desired.graph
check_steps-Untouched_example =
    check_steps-Untouched provider protected 3 (Memᴰ.head refl) two_actions start finish refl refl
      replayed no_violation

check_steps-near_example :
    mounts_near keep finish.projection.desired.mounts.runtime
    ≡ mounts_near keep desired.mounts.runtime
check_steps-near_example =
    check_steps-near provider protected keep (Memᴰ.head refl) two_actions start finish refl refl
      replayed no_violation

capacity_violated_iff_example :
    (is_violated (evaluate_capacity begin.evidence group (some 20)) ≡ true)
    ↔ (apply_allocation (reserve group 20) begin.evidence ≡ err (insufficient_capacity group))
capacity_violated_iff_example = capacity_violated_iff begin.evidence group 20

add_runtime_iff_example :
    ((q : Projection) × (apply_mount_effect
          (MountEffect.add_runtime (MountSource.filesystem 2) ("data" ∷ []) [] MountContext.host)
          begin
        ≡ ok q))
    ↔ ((is_violated (
            evaluate_prerequisite desired begin.evidence
              (ActionPrerequisite.mount_target_available ("data" ∷ []) MountContext.host))
          ≡ false)
        × (is_violated (
              evaluate_prerequisite desired begin.evidence
                (ActionPrerequisite.mount_descendants_absent ("data" ∷ []) MountContext.host))
            ≡ false))
add_runtime_iff_example =
    add_runtime_iff begin (MountSource.filesystem 2) ("data" ∷ []) [] MountContext.host

graph_satisfied : compare_graph graph graph ≡ satisfied
unfolding compare_graph compare_sizes edit_all edit insert_new insert_dependency ℕ_discrete
    NodeKind-discrete Dependency-discrete lists_discrete String-discrete Bool-cases
graph_satisfied = refl

compare_graph_satisfied_example :
    ((d : Dependency) → Memᴰ d graph.dependencies ↔ Memᴰ d graph.dependencies)
    × ((r : Relation) → Memᴰ r graph.relations ↔ Memᴰ r graph.relations)
    × ((id : NodeId) (v : Node)
        → lookup id graph.nodes ≡ some v
        → (goal : Node) × (lookup id graph.nodes ≡ some goal))
    × ((id : NodeId) (goal : Node)
        → lookup id graph.nodes ≡ some goal
        → ((v : Node) × (lookup id graph.nodes ≡ some v) × (v.kind.kind ≡ goal.kind.kind))
          × HasSize graph id goal)
compare_graph_satisfied_example =
    compare_graph_satisfied graph graph (edit_all-IsSetLike edits) graph_satisfied

abbrev backing : Dependency
backing = record { from = 1; to = 2; kind = backs }

backing-mem : Memᴰ backing (consumers desired 1)
unfolding edit_all edit insert_new insert_dependency ℕ_discrete
backing-mem = Memᴰ.head refl

fits_twice :
    evaluate_dependent_sizes desired begin.evidence 1 8192 ≡ CheckStatus.satisfied observed_snapshot
unfolding evaluate_dependent_sizes dependents_loop edit_all edit insert_new insert_dependency
    ℕ_discrete
fits_twice = refl

evaluate_dependent_sizes_satisfied_example : Fits desired 8192 backing
evaluate_dependent_sizes_satisfied_example =
    evaluate_dependent_sizes_satisfied desired begin.evidence 1 8192 observed_snapshot fits_twice
      backing backing-mem

backing-Exceeds : Exceeds desired 1024 backing
unfolding edit_all edit insert_new insert_dependency ℕ_discrete
backing-Exceeds = inr (plain (filesystem ext4 none), 4096, refl, refl, omega arith)

evaluate_dependent_sizes_violated_example :
    is_violated (evaluate_dependent_sizes desired begin.evidence 1 1024) ≡ true
evaluate_dependent_sizes_violated_example =
    evaluate_dependent_sizes_violated desired begin.evidence 1 1024 backing backing-mem
      backing-Exceeds

abbrev coverage : List IntentCoverage
coverage = record { index = 0; actions = 0 ∷ 1 ∷ []; covered = true } ∷ []

abbrev requested : DesiredState
requested = finish.projection.desired

complete :
    is_complete (
      with_goal requested (
        analysis
          (result_of finish)
          coverage
          (check_steps protected finish.actions finish.steps [])))
    ≡ true
unfolding is_complete with_goal analysis step_obligations check_obligations goal_obligations
    compare_goal compare_graph compare_sizes runtime_mount_check persistent_mount_check
    NodeKind-discrete Dependency-discrete MountSource-discrete check_steps check_step
    push_violations replay_actions replay_action simulate_action evaluate_prerequisites
    evaluate_prerequisite evaluate_capacity apply_effect_with_invalidations project
    invalidate_observations expand record_invalidations invalidate_filesystem_checks depth_first
    apply_graph_effects apply_graph_effect update_node replace_existing apply_mount_effects
    apply_mount_effect is_mounted_at has_mounted_descendant apply_allocation_effects
    apply_allocation apply_outputs apply_output validate_structure check_relations check_edges
    check_edge topological_order count_edges drain release require_endpoints edit_all edit
    insert_new insert_dependency ℕ_discrete MountContext-discrete FilePath-discrete
    AllocationDomain-discrete FactInvalidation-discrete FactKind-discrete FactScope-discrete
    ResourceAccessMode-discrete lists_discrete String-discrete Bool-cases
complete = refl

complete_report_example :
    (all (λ step. all (λ check. is_satisfied check.status) step.checks) finish.steps ≡ true)
    × ((n : NodeId) → Memᴰ n protected.nodes → IsUntouched n graph finish.projection.desired.graph)
    × ((mount : ProtectedMount)
        → Memᴰ mount protected.runtime_mounts
        → mounts_near mount finish.projection.desired.mounts.runtime
          ≡ mounts_near mount desired.mounts.runtime)
    × Achieves finish.projection.desired requested
complete_report_example =
    complete_report provider protected two_actions start finish coverage requested refl refl
      begin-Sound replayed complete

abbrev plan : ExecutionPlan
plan = record {
  actions = two_actions;
  dependencies = record { before = 1; after = 0; reason = requested_order } ∷ [];
}

abbrev rank : ActionId → ℕ
rank zero = 1
rank (suc _) = 0

plan-IsRank : IsRank rank plan.dependencies
plan-IsRank d m = elim (Memᴰ.cases_cons m) [
  | inl e ↦ rw e (omega arith)
  | inr n ↦ absurd (Memᴰ.not-nil n)
]

ordered_actions_total_example :
    (order : List ActionId) × (ordered : List PlannedAction) × (ordered_actions plan ≡ ok ordered)
    × IsOrder 2 plan.dependencies order
    × Follows two_actions order ordered
ordered_actions_total_example =
    ordered_actions_total plan rank (omega arith) (omega arith, omega arith, tt) plan-IsRank
