-- ===== src/Engine/Simulate/Report/Achieved.antt =====
-- storage-engine/src/simulate.rs: the checks of a goal that are all met.
use mathlib.Core.List.{Memᴰ}
use mathlib.Core.List.Memᴰ
use pdisks.Base.{
  ◌≡◌, ◌↔◌, inl, inr, refl, List, [], ◌∷◌, ◌++◌, map, Bool, true, some, arith, all, any, &&-eq-true,
  &&-of-true, Bool-cases,
}
use pdisks.Core.Node.{Node, NodeId}
use pdisks.Core.Graph.{Dependency, Relation, lookup}
use pdisks.Core.Graph.Sets.{IsSetLike}
use pdisks.Core.State.{DesiredState, MountEntry}
use pdisks.Engine.Run.Defs.{GoalAspect}
use pdisks.Engine.Simulate.Data.{SimulationEvidenceSummary}
use pdisks.Engine.Simulate.Goal.{
  GoalCheck, GoalStatus, boot_status, compare_goal, compare_graph, is_same_mount,
  persistent_mount_check, persistent_was_determined, runtime_mount_check,
}
use pdisks.Engine.Simulate.Goal.Graphs.{HasSize, compare_graph_satisfied}
use pdisks.Engine.Simulate.Report.{is_met}

all-append {ℓ} :
    {A : Type ℓ} (p : A → Bool) (xs ys : List A)
    → all p (xs ++ ys) ≡ true
    → (all p xs ≡ true) × (all p ys ≡ true)
all-append p [] ys h = (refl, h)
all-append p (x ∷ xs) ys h =
    let (a, b) = &&-eq-true _ _ h in let (c, d) = all-append p xs ys b in (&&-of-true _ _ a c, d)

met_status : (s : GoalStatus) → is_met s ≡ true → s ≡ GoalStatus.satisfied
met_status GoalStatus.satisfied h = refl
met_status (GoalStatus.violated _) h = absurd (ground arith)
met_status (GoalStatus.unknown _) h = absurd (ground arith)

runtime_met :
    (mounts entries : List MountEntry)
    → all (λ check. is_met check.status) (map (runtime_mount_check mounts) entries) ≡ true
    → (entry : MountEntry) → Memᴰ entry entries
    → any (is_same_mount entry) mounts ≡ true
unfolding runtime_mount_check
runtime_met mounts [] h entry m = absurd (Memᴰ.not-nil m)
runtime_met mounts (x ∷ entries) h entry m =
    let (a, b) =
      &&-eq-true (is_met (runtime_mount_check mounts x).status)
        (all (λ check. is_met check.status) (map (runtime_mount_check mounts) entries)) h in
    elim (Memᴰ.cases_cons m) [
      | inl same ↦ elim (Bool-cases (any (is_same_mount x) mounts)) [
        | inl q ↦ rw same q
        | inr q ↦ absurd (ground arith)
      ]
      | inr t ↦ runtime_met mounts entries b entry t
    ]

persistent_met :
    (desired : DesiredState) (evidence : SimulationEvidenceSummary) (entries : List MountEntry)
    → all (λ check. is_met check.status) (map (persistent_mount_check desired evidence) entries)
      ≡ true
    → (entry : MountEntry) → Memᴰ entry entries
    → any (is_same_mount entry) desired.mounts.persistent ≡ true
unfolding persistent_mount_check
persistent_met desired evidence [] h entry m = absurd (Memᴰ.not-nil m)
persistent_met desired evidence (x ∷ entries) h entry m =
    let (a, b) =
      &&-eq-true (is_met (persistent_mount_check desired evidence x).status)
        (all (λ check. is_met check.status) (map (persistent_mount_check desired evidence) entries))
        h in
    elim (Memᴰ.cases_cons m) [
      | inl same ↦ elim (Bool-cases (any (is_same_mount x) desired.mounts.persistent)) [
        | inl q ↦ rw same q
        | inr q ↦ elim (Bool-cases (persistent_was_determined evidence x.target x.context)) [
          | inl k ↦ absurd (ground arith)
          | inr k ↦ absurd (ground arith)
        ]
      ]
      | inr t ↦ persistent_met desired evidence entries b entry t
    ]

-- The predicted configuration is the requested one, as far as the request manages it.
pub record Achieves (predicted requested : DesiredState) : Type 0 where
  pub dependencies :
      (d : Dependency) → Memᴰ d predicted.graph.dependencies ↔ Memᴰ d requested.graph.dependencies
  pub relations :
      (r : Relation) → Memᴰ r predicted.graph.relations ↔ Memᴰ r requested.graph.relations
  pub only_nodes :
      (id : NodeId) (v : Node)
      → lookup id predicted.graph.nodes ≡ some v
      → (goal : Node) × (lookup id requested.graph.nodes ≡ some goal)
  pub nodes :
      (id : NodeId) (goal : Node)
      → lookup id requested.graph.nodes ≡ some goal
      → ((v : Node) × (lookup id predicted.graph.nodes ≡ some v) × (v.kind.kind ≡ goal.kind.kind))
        × HasSize predicted.graph id goal
  pub runtime :
      (entry : MountEntry)
      → Memᴰ entry requested.mounts.runtime
      → any (is_same_mount entry) predicted.mounts.runtime ≡ true
  pub persistent :
      (entry : MountEntry)
      → Memᴰ entry requested.mounts.persistent
      → any (is_same_mount entry) predicted.mounts.persistent ≡ true

goal_parts :
    (graph : GoalCheck) (runtime persistent : List GoalCheck) (boot : GoalCheck)
    → all (λ check. is_met check.status) ((graph ∷ []) ++ runtime ++ persistent ++ boot ∷ []) ≡ true
    → (is_met graph.status ≡ true)
      × (all (λ check. is_met check.status) runtime ≡ true)
      × (all (λ check. is_met check.status) persistent ≡ true)
goal_parts graph runtime persistent boot h =
    let met : GoalCheck → Bool = λ check. is_met check.status in
    let (h1, _) = all-append met (((graph ∷ []) ++ runtime) ++ persistent) (boot ∷ []) h in
    let (h2, c) = all-append met ((graph ∷ []) ++ runtime) persistent h1 in
    let (a, b) = &&-eq-true (met graph) (all met runtime) h2 in (a, b, c)

pub met-Achieves :
    (desired : DesiredState) (evidence : SimulationEvidenceSummary) (requested : DesiredState)
    → IsSetLike desired.graph
    → all (λ check. is_met check.status) (compare_goal desired evidence requested) ≡ true
    → Achieves desired requested
unfolding compare_goal
met-Achieves desired evidence requested w h =
    let (a, b, c) =
      goal_parts
        (record { aspect = GoalAspect.graph; status = compare_graph desired.graph requested.graph })
        (map (runtime_mount_check desired.mounts.runtime) requested.mounts.runtime)
        (map (persistent_mount_check desired evidence) requested.mounts.persistent)
        (record { aspect = GoalAspect.boot; status = boot_status requested.boot }) h in
    let match =
      compare_graph_satisfied desired.graph requested.graph w
        (met_status (compare_graph desired.graph requested.graph) a) in
    record {
      dependencies = match.0;
      relations = match.1;
      only_nodes = match.2;
      nodes = match.3;
      runtime = runtime_met desired.mounts.runtime requested.mounts.runtime b;
      persistent = persistent_met desired evidence requested.mounts.persistent c;
    }
