-- ===== src/Engine/Simulate/Evidence/Ledger.antt =====
-- storage-engine/src/simulation_evidence.rs: `apply_allocation_effects` as a ledger of capacity, and
-- the clean-check guarantees that survive an invalidation.
use pdisks.Base.{
  ℕ, ◌+◌, ◌-◌, ◌≤◌, ◌≡◌, inl, inr, refl, ap, ◌∙◌, List, [], ◌∷◌, Bool, true, false, ◌==◌, none,
  some, ok, arith, u64_max, get_key, put_key, drop_key, get-drop_self, get-drop_ne, Bool-cases,
  Option-cases, >>=-eq-ok, if◌then◌else◌,
}
use pdisks.Provider.Contract.{
  AllocationDomain, AllocationEffect, AllocationQuantity, invalidate, reserve, release, domain_eq,
}
use pdisks.Engine.Simulate.Data.{SimulationEvidence}
use pdisks.Engine.Simulate.Evidence.{apply_allocation, apply_allocation_effects}

-- The amounts that the effects reserve in a domain, and release to it.
abbrev pub reserved : AllocationDomain → List AllocationEffect → ℕ
reserved d [] = 0
reserved d (reserve x n ∷ effects) = (if x == d then n else 0) + reserved d effects
reserved d (_ ∷ effects) = reserved d effects

abbrev pub released : AllocationDomain → List AllocationEffect → ℕ
released d [] = 0
released d (release x n ∷ effects) = (if x == d then n else 0) + released d effects
released d (_ ∷ effects) = released d effects

abbrev pub invalidates : AllocationDomain → List AllocationEffect → Bool
invalidates d [] = false
invalidates d (invalidate x ∷ effects) = if x == d then true else invalidates d effects
invalidates d (_ ∷ effects) = invalidates d effects

get-put :
    (m : List (AllocationDomain × AllocationQuantity)) (x d : AllocationDomain)
    (v : AllocationQuantity)
    → get_key (put_key m x v) d ≡ (if x == d then some v else get_key m d)
get-put m x d v = elim (Bool-cases (x == d)) [
  | inl q ↦ rw q refl
  | inr q ↦ rw q (get-drop_ne m x d (λ e. let h = (domain_eq.same_iff x d).1 e in cc))
]

get-drop :
    (m : List (AllocationDomain × AllocationQuantity)) (x d : AllocationDomain)
    → get_key (drop_key m x) d ≡ (if x == d then none else get_key m d)
get-drop m x d = elim (Bool-cases (x == d)) [
  | inl q ↦ rw q (rw (← (domain_eq.same_iff x d).0 q) (get-drop_self m x))
  | inr q ↦ rw q (get-drop_ne m x d (λ e. let h = (domain_eq.same_iff x d).1 e in cc))
]

-- One effect on the capacity of a domain that is known.
step_balances :
    (x : AllocationEffect) (e e' : SimulationEvidence) (d : AllocationDomain) (c : ℕ)
    → apply_allocation x e ≡ ok e'
    → get_key e.available_capacity d ≡ some c
    → invalidates d (x ∷ []) ≡ false
    → c ≤ u64_max
    → (c' : ℕ) × (get_key e'.available_capacity d ≡ some c')
      × (c' + reserved d (x ∷ []) ≡ c + released d (x ∷ []))
      × (c' ≤ u64_max)
unfolding apply_allocation
step_balances (invalidate x) e e' d c h k i b =
    (c, ground (arith, get-drop e.available_capacity x d), ground arith, ground arith)
step_balances (reserve x n) e e' d c h k i b = elim (Bool-cases (x == d)) [
  | inl q ↦
      let same = (domain_eq.same_iff x d).0 q in
      let own : get_key e.available_capacity x ≡ some c =
        ap (get_key e.available_capacity) same ∙ k in
      (c - n, ground (arith, get-put e.available_capacity x d (c - n)), ground arith, omega arith)
  | inr q ↦ elim (Option-cases (get_key e.available_capacity x)) [
    | inl u ↦ (c, ground arith, ground arith, b)
    | inr (a, u) ↦ (c, ground (arith, get-put e.available_capacity x d (a - n)), ground arith, b)
  ]
]
step_balances (release x n) e e' d c h k i b = elim (Bool-cases (x == d)) [
  | inl q ↦
      let same = (domain_eq.same_iff x d).0 q in
      let own : get_key e.available_capacity x ≡ some c =
        ap (get_key e.available_capacity) same ∙ k in
      (c + n, ground (arith, get-put e.available_capacity x d (c + n)), ground arith, ground arith)
  | inr q ↦ elim (Option-cases (get_key e.available_capacity x)) [
    | inl u ↦ (c, ground arith, ground arith, b)
    | inr (a, u) ↦ (c, ground (arith, get-put e.available_capacity x d (a + n)), ground arith, b)
  ]
]

reserved-cons :
    (d : AllocationDomain) (x : AllocationEffect) (xs : List AllocationEffect)
    → reserved d (x ∷ xs) ≡ reserved d (x ∷ []) + reserved d xs
reserved-cons d (invalidate _) xs = omega arith
reserved-cons d (reserve _ _) xs = omega arith
reserved-cons d (release _ _) xs = omega arith

released-cons :
    (d : AllocationDomain) (x : AllocationEffect) (xs : List AllocationEffect)
    → released d (x ∷ xs) ≡ released d (x ∷ []) + released d xs
released-cons d (invalidate _) xs = omega arith
released-cons d (reserve _ _) xs = omega arith
released-cons d (release _ _) xs = omega arith

invalidates-cons :
    (d : AllocationDomain) (x : AllocationEffect) (xs : List AllocationEffect)
    → invalidates d (x ∷ xs) ≡ false
    → (invalidates d (x ∷ []) ≡ false) × (invalidates d xs ≡ false)
invalidates-cons d (invalidate _) xs h = ground arith
invalidates-cons d (reserve _ _) xs h = (refl, h)
invalidates-cons d (release _ _) xs h = (refl, h)

-- Effects that succeed keep the ledger: in a domain of known capacity that no effect invalidates,
-- what is left and what was reserved are what there was and what was released, and the capacity
-- stays a u64.
pub apply_allocation_effects_balance :
    (effects : List AllocationEffect) (e e' : SimulationEvidence) (d : AllocationDomain) (c : ℕ)
    → apply_allocation_effects effects e ≡ ok e'
    → get_key e.available_capacity d ≡ some c
    → invalidates d effects ≡ false
    → c ≤ u64_max
    → (c' : ℕ) × (get_key e'.available_capacity d ≡ some c')
      × (c' + reserved d effects ≡ c + released d effects)
      × (c' ≤ u64_max)
unfolding apply_allocation_effects
apply_allocation_effects_balance [] e e' d c h k i b = (c, ground arith, omega arith, b)
apply_allocation_effects_balance (x ∷ xs) e e' d c h k i b =
    let (here, later) = invalidates-cons d x xs i in
    let (m, first, rest) = >>=-eq-ok (apply_allocation x e) (apply_allocation_effects xs) h in
    let (c1, k1, s1, b1) = step_balances x e m d c first k here b in
    let (c2, k2, s2, b2) = apply_allocation_effects_balance xs m e' d c1 rest k1 later b1 in
    (c2, k2, omega (arith, reserved-cons d x xs, released-cons d x xs), b2)

step_unknown :
    (x : AllocationEffect) (e e' : SimulationEvidence) (d : AllocationDomain)
    → apply_allocation x e ≡ ok e'
    → get_key e.available_capacity d ≡ none
    → get_key e'.available_capacity d ≡ none
unfolding apply_allocation
step_unknown (invalidate x) e e' d h k = ground (arith, get-drop e.available_capacity x d)
step_unknown (reserve x n) e e' d h k = elim (Option-cases (get_key e.available_capacity x)) [
  | inl u ↦ ground arith
  | inr (a, u) ↦ elim (Bool-cases (x == d)) [
    | inl q ↦ let own = ap (get_key e.available_capacity) ((domain_eq.same_iff x d).0 q) in cc
    | inr q ↦ ground (arith, get-put e.available_capacity x d (a - n))
  ]
]
step_unknown (release x n) e e' d h k = elim (Option-cases (get_key e.available_capacity x)) [
  | inl u ↦ ground arith
  | inr (a, u) ↦ elim (Bool-cases (x == d)) [
    | inl q ↦ let own = ap (get_key e.available_capacity) ((domain_eq.same_iff x d).0 q) in cc
    | inr q ↦ ground (arith, get-put e.available_capacity x d (a + n))
  ]
]

-- Effects never make capacity known that was not observed.
pub apply_allocation_effects_unknown :
    (effects : List AllocationEffect) (e e' : SimulationEvidence) (d : AllocationDomain)
    → apply_allocation_effects effects e ≡ ok e'
    → get_key e.available_capacity d ≡ none
    → get_key e'.available_capacity d ≡ none
unfolding apply_allocation_effects
apply_allocation_effects_unknown [] e e' d h k = ground arith
apply_allocation_effects_unknown (x ∷ xs) e e' d h k =
    let (m, first, rest) = >>=-eq-ok (apply_allocation x e) (apply_allocation_effects xs) h in
    apply_allocation_effects_unknown xs m e' d rest (step_unknown x e m d first k)
