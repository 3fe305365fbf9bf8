-- ===== src/Engine/Compose/Conflicts/Laws.antt =====
-- storage-engine/src/compose.rs: `validate_resource_order` against what an unambiguous order is.
use mathlib.Core.List.{Memᴰ}
use mathlib.Core.List.Memᴰ
use pdisks.Base.{
  ◌≡◌, ◌≢◌, ◌↔◌, ◌⊎◌, inl, inr, refl, List, [], ◌∷◌, Bool, true, ◌&&◌, ◌||◌, none, ok, arith, ◌==◌,
  subst, Bool-cases, Option-cases,
}
use pdisks.Provider.Contract.{ActionContract, ResourceAccess, write, resource_eq, mode_eq}
use pdisks.Engine.Plan.{ActionId, ActionDependency}
use pdisks.Engine.Compose.Conflicts.{
  conflict_with, first_conflict, conflicting_resource, dependency_path, check_pair, check_seconds,
  validate_resource_order,
}
use pdisks.Engine.Compose.Conflicts.Paths.{Chain, dependency_path_iff}

-- Two accesses of one resource, one of which writes.
abbrev pub Clash : ResourceAccess → ResourceAccess → Type 0
Clash l r = (l.resource ≡ r.resource) × ((l.mode ≡ write) ⊎ (r.mode ≡ write))

abbrev clashes : ResourceAccess → ResourceAccess → Bool
clashes l r = (l.resource == r.resource) && (l.mode == write || r.mode == write)

abbrev pub Conflict : (lefts rights : List ResourceAccess) → Type 0
Conflict lefts rights =
    (l : ResourceAccess) × (r : ResourceAccess) × Memᴰ l lefts × Memᴰ r rights × Clash l r

clashes_iff : (l r : ResourceAccess) → (clashes l r ≡ true) ↔ Clash l r
clashes_iff l r =
    let a = resource_eq.same_iff l.resource r.resource in
    let b = mode_eq.same_iff l.mode write in
    let c = mode_eq.same_iff r.mode write in
    (
      (λ h. (
        a.0 (ground arith),
        elim (Bool-cases (l.mode == write)) [
          | inl q ↦ inl (b.0 q)
          | inr q ↦ inr (c.0 (ground arith))
        ],
      )),
      λ (e, w).
          let p = a.1 e in
          elim w [ inl x ↦ let q = b.1 x in ground arith | inr x ↦ let q = c.1 x in ground arith ],
    )

conflict_with_iff :
    (l : ResourceAccess) (rs : List ResourceAccess)
    → (conflict_with l rs ≢ none) ↔ ((r : ResourceAccess) × Memᴰ r rs × Clash l r)
unfolding conflict_with
conflict_with_iff l [] = (λ h. absurd (h refl), λ (r, m, c). absurd (Memᴰ.not-nil m))
conflict_with_iff l (r ∷ rs) = elim (Bool-cases (clashes l r)) [
  | inl q ↦ ((λ h. (r, Memᴰ.head refl, (clashes_iff l r).0 q)), λ x. λ e. absurd (ground arith))
  | inr q ↦ (
    (λ h.
        let (x, m, c) = (conflict_with_iff l rs).0 (λ e. h (ground arith)) in (x, Memᴰ.tail m, c)),
    λ (x, m, c). elim (Memᴰ.cases_cons m) [
      | inl e ↦ let k = (clashes_iff l r).1 (subst (λ y. Clash l y) e c) in absurd (ground arith)
      | inr t ↦ λ e. (conflict_with_iff l rs).1 (x, t, c) (ground arith)
    ],
  )
]

first_conflict_iff : (ls rs : List ResourceAccess) → (first_conflict ls rs ≢ none) ↔ Conflict ls rs
unfolding first_conflict
first_conflict_iff [] rs = (λ h. absurd (h refl), λ (l, r, m, _, _). absurd (Memᴰ.not-nil m))
first_conflict_iff (l ∷ ls) rs = elim (Option-cases (conflict_with l rs)) [
  | inl q ↦ (
    (λ h.
        let (x, r, m, k, c) = (first_conflict_iff ls rs).0 (λ e. h (ground arith)) in
        (x, r, Memᴰ.tail m, k, c)),
    λ (x, r, m, k, c). elim (Memᴰ.cases_cons m) [
      | inl e ↦ absurd ((conflict_with_iff l rs).1 (r, k, subst (λ y. Clash y r) e c) q)
      | inr t ↦ λ e. (first_conflict_iff ls rs).1 (x, r, t, k, c) (ground arith)
    ],
  )
  | inr (resource, q) ↦ (
    (λ h. let (r, m, c) = (conflict_with_iff l rs).0 (λ e. cc) in (l, r, Memᴰ.head refl, m, c)),
    λ x. λ e. absurd (ground arith),
  )
]

-- Of two actions in conflict, a chain of dependencies leads from one to the other.
abbrev pub Settled : List ActionDependency → (a b : ActionId × ActionContract) → Type 0
Settled ds a b =
    Conflict a.1.affected_resources b.1.affected_resources → Chain ds a.0 b.0 ⊎ Chain ds b.0 a.0

abbrev pub AllSettled : List ActionDependency → List (ActionId × ActionContract) → Type 0
AllSettled ds [] = Unit
AllSettled ds (a ∷ rest) =
    ((b : ActionId × ActionContract) → Memᴰ b rest → Settled ds a b) × AllSettled ds rest

path_either :
    (ds : List ActionDependency) (a b : ActionId)
    → ((dependency_path a b ds || dependency_path b a ds) ≡ true) ↔ (Chain ds a b ⊎ Chain ds b a)
path_either ds a b =
    let x = dependency_path_iff a b ds in
    let y = dependency_path_iff b a ds in
    (
      (λ h. elim (Bool-cases (dependency_path a b ds)) [
        | inl q ↦ inl (x.0 q)
        | inr q ↦ inr (y.0 (ground arith))
      ]),
      λ c. elim c [ inl q ↦ let k = x.1 q in ground arith | inr q ↦ let k = y.1 q in ground arith ],
    )

check_pair_iff :
    (ds : List ActionDependency) (a b : ActionId × ActionContract)
    → (check_pair ds a b ≡ ok tt) ↔ Settled ds a b
unfolding check_pair conflicting_resource
check_pair_iff ds (a, x) (b, y) =
    let f = first_conflict_iff x.affected_resources y.affected_resources in
    elim (Option-cases (first_conflict x.affected_resources y.affected_resources)) [
      | inl q ↦ ((λ h. λ c. absurd (f.1 c q)), λ s. ground arith)
      | inr (r, q) ↦
          let p = path_either ds a b in
          ((λ h. λ c. p.0 (ground arith)), λ s. let k = p.1 (s (f.0 (λ e. cc))) in ground arith)
    ]

check_seconds_iff :
    (ds : List ActionDependency) (a : ActionId × ActionContract)
    (bs : List (ActionId × ActionContract))
    → (check_seconds ds a bs ≡ ok tt)
      ↔ ((b : ActionId × ActionContract) → Memᴰ b bs → Settled ds a b)
unfolding check_seconds
check_seconds_iff ds a [] = ((λ h. λ b m. absurd (Memᴰ.not-nil m)), λ h. refl)
check_seconds_iff ds a (b ∷ bs) =
    let p = check_pair_iff ds a b in
    let q = check_seconds_iff ds a bs in
    (
      (λ h. λ c m. elim (Memᴰ.cases_cons m) [
        | inl e ↦ rw e (p.0 (ground arith))
        | inr t ↦ q.0 (ground arith) c t
      ]),
      λ h.
          let k = p.1 (h b (Memᴰ.head refl)) in
          let l = q.1 (λ c m. h c (Memᴰ.tail m)) in ground arith,
    )

-- `validate_resource_order` accepts exactly the plans in which, of any two actions that access one
-- resource and one of which writes it, a chain of dependencies puts one before the other.
pub validate_resource_order_iff :
    (contracts : List (ActionId × ActionContract)) (ds : List ActionDependency)
    → (validate_resource_order contracts ds ≡ ok tt) ↔ AllSettled ds contracts
unfolding validate_resource_order
validate_resource_order_iff [] ds = ((λ h. tt), λ h. refl)
validate_resource_order_iff (a ∷ rest) ds =
    let p = check_seconds_iff ds a rest in
    let q = validate_resource_order_iff rest ds in
    (
      (λ h. (p.0 (ground arith), q.0 (ground arith))),
      λ (h, t). let k = p.1 h in let l = q.1 t in ground arith,
    )
