-- ===== src/Engine/Simulate/Evidence/Search.antt =====
-- storage-engine/src/simulation_evidence.rs: the shape that `invalidate_observations` and
-- `invalidate_filesystem_checks` share, `while let Some(node) = pending.pop()` with a set of visited
-- nodes. The stack has its top first.
use pdisks.Base.{ℕ, zero, suc, List, [], ◌∷◌, ◌++◌, true, false, nat_eq, contains}
use pdisks.Core.Node.{NodeId}

unfoldable pub depth_first {ℓ} :
    {S : Type ℓ}
    → ℕ
    → (pushed : NodeId → List NodeId) → (visit : NodeId → S → S) → (visited pending : List NodeId)
    → S
    → S
depth_first zero pushed visit visited pending s = s
depth_first (suc fuel) pushed visit visited [] s = s
depth_first (suc fuel) pushed visit visited (n ∷ pending) s = elim (contains visited n) [
  | true ↦ depth_first fuel pushed visit visited pending s
  | false ↦ depth_first fuel pushed visit (n ∷ visited) (pushed n ++ pending) (visit n s)
]
