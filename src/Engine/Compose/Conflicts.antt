-- ===== src/Engine/Compose/Conflicts.antt =====
-- storage-engine/src/compose.rs: `dependency_path`, `conflicting_resource` and
-- `validate_resource_order`. The map of contracts is the list of its entries in ascending order of
-- their keys, as the source sorts them. The search pops an action at most once for each
-- dependency and once for its start, which is its fuel.
pub mod Search
pub mod Paths
pub mod Laws
use pdisks.Base.{
  ℕ, zero, suc, ◌+◌, List, [], ◌∷◌, Bool, true, false, not, ◌&&◌, ◌||◌, Option, none, some, Result,
  ok, err, ◌>>◌, require, ◌==◌, nat_eq, nat_beq, contains, filter, length, if◌then◌else◌,
}
use pdisks.Provider.Contract.{
  ActionContract, ActionResource, ResourceAccess, ResourceAccessMode, write, resource_eq, mode_eq,
}
use pdisks.Engine.Plan.{ActionId, ActionDependency}
use pdisks.Engine.Compose.{CompositionError, ambiguous_resource_order}

-- The loop over the dependencies of one popped action: the stack that it leaves, `none` where it
-- returns `true`.
unfoldable pub push_afters :
    (after : ActionId) → List ActionDependency → (pending : List ActionId) → Option (List ActionId)
push_afters after [] pending = some pending
push_afters after (d ∷ ds) pending =
    let rest = push_afters after ds (d.after ∷ pending) in
    if nat_beq d.after after then none else rest

unfoldable pub path_loop :
    ℕ → List ActionDependency → (after : ActionId) → (visited pending : List ActionId) → Bool
path_loop zero ds after visited pending = false
path_loop (suc fuel) ds after visited [] = false
path_loop (suc fuel) ds after visited (current ∷ pending) = elim (contains visited current) [
  | true ↦ path_loop fuel ds after visited pending
  | false ↦ elim (push_afters after (filter (λ d. nat_beq d.before current) ds) pending) [
    | none ↦ true
    | some pending' ↦ path_loop fuel ds after (current ∷ visited) pending'
  ]
]

unfoldable pub dependency_path : (before after : ActionId) → List ActionDependency → Bool
dependency_path before after ds = path_loop (length ds + 2) ds after [] (before ∷ [])

-- The inner `find_map`.
unfoldable pub conflict_with : ResourceAccess → List ResourceAccess → Option ActionResource
conflict_with left [] = none
conflict_with left (right ∷ rights) =
    let rest = conflict_with left rights in
    if (left.resource == right.resource) && (left.mode == write || right.mode == write)
    then some left.resource
    else rest

unfoldable pub first_conflict : (lefts rights : List ResourceAccess) → Option ActionResource
first_conflict [] rights = none
first_conflict (left ∷ lefts) rights =
    let rest = first_conflict lefts rights in
    elim (conflict_with left rights) [ none ↦ rest | some resource ↦ some resource ]

unfoldable pub conflicting_resource : (first second : ActionContract) → Option ActionResource
unfolding first_conflict
conflicting_resource first second =
    first_conflict first.affected_resources second.affected_resources

-- The body of the inner loop.
unfoldable pub check_pair :
    List ActionDependency
    → (first second : ActionId × ActionContract) → Result CompositionError (Unit {0})
check_pair ds (first, a) (second, b) = elim (conflicting_resource a b) [
  | none ↦ ok tt
  | some resource ↦
      require (dependency_path first second ds || dependency_path second first ds)
        (ambiguous_resource_order first second resource)
]

unfoldable pub check_seconds :
    List ActionDependency
    → ActionId × ActionContract
    → List (ActionId × ActionContract)
    → Result CompositionError (Unit {0})
check_seconds ds first [] = ok tt
check_seconds ds first (second ∷ rest) = check_pair ds first second >> check_seconds ds first rest

unfoldable pub validate_resource_order :
    (contracts : List (ActionId × ActionContract))
    → List ActionDependency
    → Result CompositionError (Unit {0})
validate_resource_order [] ds = ok tt
validate_resource_order (first ∷ rest) ds =
    check_seconds ds first rest >> validate_resource_order rest ds
