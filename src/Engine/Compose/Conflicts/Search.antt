-- ===== src/Engine/Compose/Conflicts/Search.antt =====
-- storage-engine/src/compose.rs: the dependencies that `dependency_path` pushes for one action.
use mathlib.Core.List.{Memᴰ}
use mathlib.Core.List.Memᴰ
use pdisks.Base.{
  ◌+◌, ◌≡◌, ◌≢◌, ◌↔◌, ◌⊎◌, inl, inr, refl, sym, List, [], ◌∷◌, none, some, arith, nat_beq,
  nat_beq_iff, nat_eq, length, filter, filter-cons_true, filter-cons_false, Bool-cases, subst, ap,
}
use pdisks.Engine.Plan.{ActionId, ActionDependency}
use pdisks.Engine.Compose.Conflicts.{push_afters}

abbrev pub from : ActionId → List ActionDependency → List ActionDependency
from u ds = filter (λ d. nat_beq d.before u) ds

pub from_iff :
    (u : ActionId) (ds : List ActionDependency) (d : ActionDependency)
    → Memᴰ d (from u ds) ↔ (Memᴰ d ds × (d.before ≡ u))
from_iff u [] d = (λ m. absurd (Memᴰ.not-nil m), λ (m, e). absurd (Memᴰ.not-nil m))
from_iff u (x ∷ ds) d = elim (Bool-cases (nat_beq x.before u)) [
  | inl q ↦ rw (filter-cons_true (λ y. nat_beq y.before u) x ds q) (
    (λ m. elim (Memᴰ.cases_cons m) [
      | inl e ↦ (Memᴰ.head e, subst (λ y. y.before ≡ u) (sym e) ((nat_beq_iff x.before u).0 q))
      | inr t ↦ let (k, b) = (from_iff u ds d).0 t in (Memᴰ.tail k, b)
    ]),
    λ (m, b). elim (Memᴰ.cases_cons m) [
      | inl e ↦ Memᴰ.head e
      | inr t ↦ Memᴰ.tail ((from_iff u ds d).1 (t, b))
    ],
  )
  | inr q ↦ rw (filter-cons_false (λ y. nat_beq y.before u) x ds q) (
    (λ m. let (k, b) = (from_iff u ds d).0 m in (Memᴰ.tail k, b)),
    λ (m, b). elim (Memᴰ.cases_cons m) [
      | inl e ↦ let c = (nat_beq_iff x.before u).1 (subst (λ y. y.before ≡ u) e b) in cc
      | inr t ↦ (from_iff u ds d).1 (t, b)
    ],
  )
]

-- The loop over the dependencies of an action returns exactly at one that ends at `after`.
pub push_afters-none :
    (after : ActionId) (es : List ActionDependency) (ps : List ActionId)
    → push_afters after es ps ≡ none
    → (d : ActionDependency) × Memᴰ d es × (d.after ≡ after)
unfolding push_afters
push_afters-none after [] ps h = cc
push_afters-none after (d ∷ es) ps h = elim (Bool-cases (nat_beq d.after after)) [
  | inl q ↦ (d, Memᴰ.head refl, (nat_beq_iff d.after after).0 q)
  | inr q ↦
      let (x, m, e) = push_afters-none after es (d.after ∷ ps) (ground arith) in (x, Memᴰ.tail m, e)
]

-- Otherwise it pushes the ends of all of them.
pub record Pushed (after : ActionId) (es : List ActionDependency) (ps qs : List ActionId)
    : Type 0 where
  pub size : length qs ≡ length es + length ps
  pub misses : (d : ActionDependency) → Memᴰ d es → d.after ≢ after
  pub ends : (d : ActionDependency) → Memᴰ d es → Memᴰ d.after qs
  pub keeps : (v : ActionId) → Memᴰ v ps → Memᴰ v qs
  pub only :
      (v : ActionId) → Memᴰ v qs → Memᴰ v ps ⊎ ((d : ActionDependency) × Memᴰ d es × (d.after ≡ v))

pub push_afters-some :
    (after : ActionId) (es : List ActionDependency) (ps qs : List ActionId)
    → push_afters after es ps ≡ some qs
    → Pushed after es ps qs
unfolding push_afters
push_afters-some after [] ps qs h =
    let e : ps ≡ qs = ground arith in
    record {
      size = omega (arith, ap length e);
      misses = λ d m. absurd (Memᴰ.not-nil m);
      ends = λ d m. absurd (Memᴰ.not-nil m);
      keeps = λ v m. subst (λ x. Memᴰ v x) e m;
      only = λ v m. inl (subst (λ x. Memᴰ v x) (sym e) m);
    }
push_afters-some after (d ∷ es) ps qs h = elim (Bool-cases (nat_beq d.after after)) [
  | inl q ↦ absurd (ground arith)
  | inr q ↦
      let p = push_afters-some after es (d.after ∷ ps) qs (ground arith) in
      record {
        size = omega (arith, p.size);
        misses = λ x m. elim (Memᴰ.cases_cons m) [
          | inl e ↦ rw e (λ c. let k = (nat_beq_iff d.after after).1 c in cc)
          | inr t ↦ p.misses x t
        ];
        ends = λ x m. elim (Memᴰ.cases_cons m) [
          | inl e ↦ rw e (p.keeps d.after (Memᴰ.head refl))
          | inr t ↦ p.ends x t
        ];
        keeps = λ v m. p.keeps v (Memᴰ.tail m);
        only = λ v m. elim (p.only v m) [
          | inl old ↦ elim (Memᴰ.cases_cons old) [
            | inl e ↦ inr (d, Memᴰ.head refl, sym e)
            | inr t ↦ inl t
          ]
          | inr (x, k, e) ↦ inr (x, Memᴰ.tail k, e)
        ];
      }
]
