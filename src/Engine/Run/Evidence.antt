-- ===== src/Engine/Run/Evidence.antt =====
-- storage-engine/src/execution.rs: `checks_cover` and `evidence_state`.
pub mod Laws
use pdisks.Base.{List, [], ◌∷◌, ◌++◌, map, Bool, true, not, ◌&&◌, Eq, ◌==◌, all, any, contains}
use pdisks.Engine.Run.Defs.{
  ActionRunState, failed, LiveCheck, LiveCheckStatus, satisfied, violated, unknown,
}

module _ {T : Type 0} where
  abbrev pub statuses : List (LiveCheck T) → List LiveCheckStatus
  statuses checks = map (λ check. check.status) checks

  abbrev pub conditions : List (LiveCheck T) → List T
  conditions checks = map (λ check. check.condition) checks

module _ {T : Type 0} ⦃e : Eq T⦄ where
  -- Each check is required, and no check before it has its condition. `earlier` is
  -- `checks[..index]`.
  pub no_extra : List T → (earlier checks : List (LiveCheck T)) → Bool
  no_extra required earlier [] = true
  no_extra required earlier (check ∷ checks) =
      contains required check.condition
      && not (any (λ other. other.condition == check.condition) earlier)
      && no_extra required (earlier ++ check ∷ []) checks

  unfoldable pub checks_cover : List T → List (LiveCheck T) → Bool
  unfolding no_extra
  checks_cover required checks =
      all (λ condition. any (λ check. check.condition == condition) checks) required
      && no_extra required [] checks

-- The loop returns early on a violation; an unknown status sets the result.
unfoldable pub evidence_state :
    List LiveCheckStatus → (result if_unknown : ActionRunState) → ActionRunState
evidence_state [] result if_unknown = result
evidence_state (violated _ ∷ rest) result if_unknown = failed
evidence_state (unknown _ ∷ rest) result if_unknown = evidence_state rest if_unknown if_unknown
evidence_state (satisfied ∷ rest) result if_unknown = evidence_state rest result if_unknown
