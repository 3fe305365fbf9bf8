-- ===== src/Engine/Simulate/Checks/Dependents.antt =====
-- storage-engine/src/prerequisites.rs: what `evaluate_dependent_sizes` says of the direct consumers.
use mathlib.Core.List.{Memᴰ}
use mathlib.Core.List.Memᴰ
use pdisks.Base.{
  ◌≤◌, ◌<◌, ◌≡◌, ◌⊎◌, inl, inr, ap, List, [], ◌∷◌, Bool, true, false, ◌&&◌, ◌||◌, none, some, arith,
  ltb, filter, ◌==◌, nat_eq, contains, Bool-cases, Option-cases,
}
use pdisks.Core.Sizes.{Bytes}
use pdisks.Core.Node.{Node, NodeId}
use pdisks.Core.Graph.{Dependency, lookup}
use pdisks.Core.State.{DesiredState}
use pdisks.Engine.Simulate.Data.{CheckEvidence, SimulationEvidence, is_violated, satisfied}
use pdisks.Engine.Simulate.Checks.Nodes.{is_backs}
use pdisks.Engine.Simulate.Checks.Capacity.{dependents_loop, evaluate_dependent_sizes}

-- The direct consumers of a node: the dependencies by which it backs another one.
abbrev pub consumers : DesiredState → NodeId → List Dependency
consumers desired n = filter (λ d. (d.from == n) && is_backs d.kind) desired.graph.dependencies

-- The consumer is in the graph, and its known size is within the bound.
abbrev pub Fits : DesiredState → (size : Bytes) → Dependency → Type 0
Fits desired size d =
    (v : Node) × (s : Bytes) × (lookup d.to desired.graph.nodes ≡ some v)
    × (v.kind.size ≡ some s)
    × (s ≤ size)

-- The consumer is absent, or its known size exceeds the bound.
abbrev pub Exceeds : DesiredState → (size : Bytes) → Dependency → Type 0
Exceeds desired size d =
    (lookup d.to desired.graph.nodes ≡ none)
    ⊎ ((v : Node) × (s : Bytes) × (lookup d.to desired.graph.nodes ≡ some v)
        × (v.kind.size ≡ some s)
        × (size < s))

loop-satisfied :
    (desired : DesiredState) (e : SimulationEvidence) (n : NodeId) (size : Bytes)
    (found missing predicted : Bool) (ds : List Dependency) (by : CheckEvidence)
    → dependents_loop desired e n size found missing predicted ds ≡ satisfied by
    → (missing ≡ false) × ((d : Dependency) → Memᴰ d ds → Fits desired size d)
unfolding dependents_loop
loop-satisfied desired e n size found missing predicted [] by h =
    (ground arith, λ d m. absurd (Memᴰ.not-nil m))
loop-satisfied desired e n size found missing predicted (x ∷ ds) by h =
    let predicted' = predicted || contains e.projected_graph_nodes x.to in
    elim (Option-cases (lookup x.to desired.graph.nodes)) [
      | inl q ↦ absurd (ground arith)
      | inr (v, q) ↦ elim (Option-cases v.kind.size) [
        | inl k ↦
            let (never, _) =
              loop-satisfied desired e n size true true predicted' ds by (ground arith) in
            absurd (ground arith)
        | inr (s, k) ↦ elim (Bool-cases (ltb size s)) [
          | inl l ↦ absurd (ground arith)
          | inr l ↦
              let (complete, rest) =
                loop-satisfied desired e n size true missing predicted' ds by (ground arith) in
              (
                complete,
                λ d m. elim (Memᴰ.cases_cons m) [
                  | inl same ↦
                      let first : Fits desired size x = (v, s, q, k, ground arith) in rw same first
                  | inr t ↦ rest d t
                ],
              )
        ]
      ]
    ]

-- When the check of the dependent sizes is satisfied, each direct consumer of the node is in the graph
-- and has a known size within the bound.
pub evaluate_dependent_sizes_satisfied :
    (desired : DesiredState) (e : SimulationEvidence) (n : NodeId) (size : Bytes)
    (by : CheckEvidence)
    → evaluate_dependent_sizes desired e n size ≡ satisfied by
    → (d : Dependency) → Memᴰ d (consumers desired n)
    → Fits desired size d
unfolding evaluate_dependent_sizes
evaluate_dependent_sizes_satisfied desired e n size by h =
    elim (Option-cases (lookup n desired.graph.nodes)) [
      | inl q ↦ absurd (ground arith)
      | inr (v, q) ↦
          (loop-satisfied desired e n size false false (contains e.projected_graph_nodes n)
            (consumers desired n) by (ground arith)).1
    ]

unmanaged_fits :
    (desired : DesiredState) (size : Bytes) (y : Dependency) (v : Node)
    → lookup y.to desired.graph.nodes ≡ some v
    → v.kind.size ≡ none
    → Exceeds desired size y
    → ⊥
unmanaged_fits desired size y v q k (inl a) = ground arith
unmanaged_fits desired size y v q k (inr (w, s, a, b, l)) =
    let same : w ≡ v = ground arith in let missing = ap (λ x. x.kind.size) same in ground arith

smaller_fits :
    (desired : DesiredState) (size : Bytes) (y : Dependency) (v : Node) (s : Bytes)
    → lookup y.to desired.graph.nodes ≡ some v
    → v.kind.size ≡ some s
    → ltb size s ≡ false
    → Exceeds desired size y
    → ⊥
smaller_fits desired size y v s q k l (inl a) = ground arith
smaller_fits desired size y v s q k l (inr (w, t, a, b, m)) =
    let same : w ≡ v = ground arith in
    let known = ap (λ x. x.kind.size) same in let equal : t ≡ s = ground arith in ground arith

-- A consumer that exceeds the bound is reported whatever stands before it.
loop-violated :
    (desired : DesiredState) (e : SimulationEvidence) (n : NodeId) (size : Bytes)
    (found missing predicted : Bool) (ds : List Dependency) (d : Dependency)
    → Memᴰ d ds
    → Exceeds desired size d
    → is_violated (dependents_loop desired e n size found missing predicted ds) ≡ true
unfolding dependents_loop
loop-violated desired e n size found missing predicted [] d m x = absurd (Memᴰ.not-nil m)
loop-violated desired e n size found missing predicted (y ∷ ds) d m x =
    let predicted' = predicted || contains e.projected_graph_nodes y.to in
    elim (Option-cases (lookup y.to desired.graph.nodes)) [
      | inl q ↦ ground arith
      | inr (v, q) ↦ elim (Option-cases v.kind.size) [
        | inl k ↦ elim (Memᴰ.cases_cons m) [
          | inl same ↦ absurd (unmanaged_fits desired size y v q k (rw same at x))
          | inr t ↦
              let later = loop-violated desired e n size true true predicted' ds d t x in
              ground arith
        ]
        | inr (s, k) ↦ elim (Bool-cases (ltb size s)) [
          | inl l ↦ ground arith
          | inr l ↦ elim (Memᴰ.cases_cons m) [
            | inl same ↦ absurd (smaller_fits desired size y v s q k l (rw same at x))
            | inr t ↦
                let later = loop-violated desired e n size true missing predicted' ds d t x in
                ground arith
          ]
        ]
      ]
    ]

-- A consumer that is absent or whose known size exceeds the bound violates the check of the dependent
-- sizes, however many consumers of unknown size there are.
pub evaluate_dependent_sizes_violated :
    (desired : DesiredState) (e : SimulationEvidence) (n : NodeId) (size : Bytes) (d : Dependency)
    → Memᴰ d (consumers desired n)
    → Exceeds desired size d
    → is_violated (evaluate_dependent_sizes desired e n size) ≡ true
unfolding evaluate_dependent_sizes
evaluate_dependent_sizes_violated desired e n size d m x =
    elim (Option-cases (lookup n desired.graph.nodes)) [
      | inl q ↦ ground arith
      | inr (v, q) ↦
          let found =
            loop-violated desired e n size false false (contains e.projected_graph_nodes n)
              (consumers desired n) d m x in
          ground arith
    ]
