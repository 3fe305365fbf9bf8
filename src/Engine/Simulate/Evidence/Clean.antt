-- ===== src/Engine/Simulate/Evidence/Clean.antt =====
-- storage-engine/src/simulation_evidence.rs: the clean checks of filesystems that an invalidation
-- leaves.
use mathlib.Core.List.{Memᴰ}
use mathlib.Core.List.Memᴰ
use pdisks.Base.{
  ◌≡◌, ◌↔◌, ◌⊎◌, inl, inr, refl, sym, ap, ◌∙◌, List, [], ◌∷◌, true, false, not, ◌+◌, some, arith,
  nat_eq, contains, contains-drop, drop_member, length, Option-cases, Memᴰ-concat,
}
use pdisks.Core.Node.{NodeId}
use pdisks.Core.State.{DesiredState}
use pdisks.Provider.Contract.{FactInvalidation}
use pdisks.Engine.Simulate.Data.{SimulationEvidence}
use pdisks.Engine.Simulate.Evidence.{
  affected_nodes, affects_check, carries_content, content_children, invalidate_filesystem_checks,
}
use pdisks.Engine.Simulate.Evidence.Reach.{Reach, search_iff}
use pdisks.Engine.Simulate.Evidence.Edges.{
  content_edges, content_children_iff, length-content_children, length-pairs,
}

-- An invalidation of the content, the geometry or the presence of a node from which another one is
-- reached along the dependencies that carry content.
abbrev pub Disturbed : DesiredState → List FactInvalidation → NodeId → Type 0
Disturbed desired is v =
    (i : FactInvalidation) × (n : NodeId) × Memᴰ i is
    × (affects_check i ≡ some n)
    × Reach (content_edges desired) n v

-- The nodes that a list of invalidations affects.
affected_from :
    (is : List FactInvalidation) (n : NodeId)
    → Memᴰ n (affected_nodes is)
    → (i : FactInvalidation) × Memᴰ i is × (affects_check i ≡ some n)
affected_from [] n m = absurd (Memᴰ.not-nil m)
affected_from (i ∷ is) n m = elim (Option-cases (affects_check i)) [
  | inl q ↦ let (j, k, e) = affected_from is n (rw (q, affected_nodes) at m) in (j, Memᴰ.tail k, e)
  | inr (x, q) ↦ elim ((Memᴰ-concat n x (affected_nodes is)).0 (rw (q, affected_nodes) at m)) [
    | inl t ↦ let (j, k, e) = affected_from is n t in (j, Memᴰ.tail k, e)
    | inr same ↦ (i, Memᴰ.head refl, rw same q)
  ]
]

affected_by :
    (is : List FactInvalidation) (i : FactInvalidation) (n : NodeId)
    → Memᴰ i is
    → affects_check i ≡ some n
    → Memᴰ n (affected_nodes is)
affected_by [] i n m e = absurd (Memᴰ.not-nil m)
affected_by (j ∷ is) i n m e = elim (Memᴰ.cases_cons m) [
  | inl same ↦
      let here = ap affects_check (sym same) ∙ e in
      rw (here, affected_nodes) ((Memᴰ-concat n n (affected_nodes is)).1 (inr refl))
  | inr t ↦
      let later = affected_by is i n t e in
      elim (Option-cases (affects_check j)) [
        | inl q ↦ rw (q, affected_nodes) later
        | inr (x, q) ↦ rw (q, affected_nodes) ((Memᴰ-concat n x (affected_nodes is)).1 (inl later))
      ]
]

drop_marks :
    (n v : NodeId) (s : List NodeId)
    → (not (contains (drop_member s n) v) ≡ true) ↔ ((not (contains s v) ≡ true) ⊎ (v ≡ n))
drop_marks n v s = ground (arith, contains-drop s n v)

-- A filesystem loses its clean check exactly when an invalidation disturbs the content below it: it
-- has none afterwards when it had none before, or when it is reached along backing and containing
-- dependencies from a node whose content, geometry or presence is invalidated.
pub invalidate_filesystem_checks_iff :
    (desired : DesiredState) (is : List FactInvalidation) (e : SimulationEvidence) (v : NodeId)
    → (contains (invalidate_filesystem_checks desired is e).checked_filesystems v ≡ false)
      ↔ ((contains e.checked_filesystems v ≡ false) ⊎ Disturbed desired is v)
unfolding invalidate_filesystem_checks
invalidate_filesystem_checks_iff desired is e v =
    let found =
      search_iff (content_edges desired) (content_children desired)
        (λ n checked. drop_member checked n) (λ x s. not (contains s x))
        (length-content_children desired) (content_children_iff desired) drop_marks
        (length desired.graph.dependencies + length (affected_nodes is)) (affected_nodes is)
        e.checked_filesystems v
        (omega (arith, length-pairs (λ d. carries_content d.kind) desired.graph.dependencies)) in
    (
      (λ h. elim (found.0 (ground arith)) [
        | inl k ↦ inl (ground arith)
        | inr (n, m, r) ↦ let (i, k, a) = affected_from is n m in inr (i, n, k, a, r)
      ]),
      λ h.
          let gone = found.1 (elim h [
            | inl k ↦ inl (ground arith)
            | inr (i, n, m, a, r) ↦ inr (n, affected_by is i n m a, r)
          ]) in
          ground arith,
    )
