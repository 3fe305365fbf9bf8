-- ===== src/Engine/Compose/Conflicts/Paths.antt =====
-- storage-engine/src/compose.rs: `dependency_path` and the chains of dependencies that it searches
-- for.
use mathlib.Core.List.{Memᴰ}
use mathlib.Core.List.Memᴰ
use pdisks.Base.{
  ℕ, zero, suc, ◌+◌, ◌≤◌, ◌<◌, ◌≡◌, ◌≢◌, ◌↔◌, ◌⊎◌, inl, inr, refl, sym, ◌∙◌, List, [], ◌∷◌, true,
  false, arith, nat_beq, nat_beq_iff, contains, contains_iff, nat_eq, length, filter-cons_true,
  filter-cons_false, Bool-cases, Option-cases, if◌then◌else◌, subst,
}
use pdisks.Engine.Plan.{ActionId, ActionDependency}
use pdisks.Engine.Compose.Conflicts.{push_afters, path_loop, dependency_path}
use pdisks.Engine.Compose.Conflicts.Search.{
  from, from_iff, Pushed, push_afters-none, push_afters-some,
}

-- One dependency or more, each from where the last one ended.
pub data Chain (ds : List ActionDependency) : (before after : ActionId) → Type 0 where
  link :
      (d : ActionDependency) {u v : ActionId}
      → Memᴰ d ds
      → d.before ≡ u
      → d.after ≡ v
      → Chain ds u v
  extend :
      (d : ActionDependency) {u v : ActionId}
      → Memᴰ d ds
      → d.before ≡ u
      → Chain ds d.after v
      → Chain ds u v

Chain-snoc :
    (ds : List ActionDependency) (d : ActionDependency) (u v : ActionId)
    → Chain ds u v
    → Memᴰ d ds
    → d.before ≡ v
    → Chain ds u d.after
Chain-snoc ds d u v (link x m b a) k e = extend x m b (link d k (e ∙ sym a) refl)
Chain-snoc ds d u v (extend x m b rest) k e = extend x m b (Chain-snoc ds d x.after v rest k e)

-- An action that the search may have on its stack.
abbrev Found : List ActionDependency → (start v : ActionId) → Type 0
Found ds start v = (v ≡ start) ⊎ Chain ds start v

Found-step :
    (ds : List ActionDependency) (d : ActionDependency) (start : ActionId)
    → Memᴰ d ds
    → Found ds start d.before
    → Chain ds start d.after
Found-step ds d start m (inl e) = link d m e refl
Found-step ds d start m (inr c) = Chain-snoc ds d start d.before c m refl

path_loop_sound :
    (fuel : ℕ) (ds : List ActionDependency) (after start : ActionId) (vs ps : List ActionId)
    → ((v : ActionId) → Memᴰ v ps → Found ds start v)
    → path_loop fuel ds after vs ps ≡ true
    → Chain ds start after
unfolding path_loop
path_loop_sound zero ds after start vs ps f h = cc
path_loop_sound (suc fuel) ds after start vs [] f h = cc
path_loop_sound (suc fuel) ds after start vs (u ∷ ps) f h = elim (Bool-cases (contains vs u)) [
  | inl old ↦ path_loop_sound fuel ds after start vs ps (λ v m. f v (Memᴰ.tail m)) (ground arith)
  | inr new ↦ elim (Option-cases (push_afters after (from u ds) ps)) [
    | inl hit ↦
        let (d, m, e) = push_afters-none after (from u ds) ps hit in
        let (k, b) = (from_iff u ds d).0 m in
        subst (λ v. Chain ds start v) e (Found-step ds d start k (rw b (f u (Memᴰ.head refl))))
    | inr (qs, q) ↦
        let p = push_afters-some after (from u ds) ps qs q in
        path_loop_sound fuel ds after start (u ∷ vs) qs
          (λ v m. elim (p.only v m) [
            | inl old ↦ f v (Memᴰ.tail old)
            | inr (d, k, e) ↦
                let (k', b) = (from_iff u ds d).0 k in
                inr (
                  subst (λ x. Chain ds start x) e
                    (Found-step ds d start k' (rw b (f u (Memᴰ.head refl)))))
          ])
          (ground arith)
  ]
]

-- The dependencies of the actions that have not been visited.
abbrev unseen : List ActionId → List ActionDependency → ℕ
unseen vs [] = 0
unseen vs (d ∷ ds) = (if contains vs d.before then 0 else 1) + unseen vs ds

unseen-bound : (vs : List ActionId) (ds : List ActionDependency) → unseen vs ds ≤ length ds
unseen-bound vs [] = omega arith
unseen-bound vs (d ∷ ds) = ground (arith, unseen-bound vs ds)

unseen-visit :
    (vs : List ActionId) (u : ActionId) (ds : List ActionDependency)
    → contains vs u ≡ false
    → unseen (u ∷ vs) ds + length (from u ds) ≡ unseen vs ds
unseen-visit vs u [] h = omega arith
unseen-visit vs u (d ∷ ds) h = elim (Bool-cases (nat_beq d.before u)) [
  | inl q ↦
      let same = (nat_beq_iff d.before u).0 q in
      rw (filter-cons_true (λ y. nat_beq y.before u) d ds q)
        (ground (arith, unseen-visit vs u ds h, nat_beq_iff u d.before))
  | inr q ↦
      rw (filter-cons_false (λ y. nat_beq y.before u) d ds q)
        (ground (arith, unseen-visit vs u ds h, nat_beq_iff u d.before, nat_beq_iff d.before u))
]

-- A visited action leads neither to `after` nor out of the visited and pending actions.
abbrev Closed : List ActionDependency → ActionId → (vs ps : List ActionId) → Type 0
Closed ds after vs ps =
    (d : ActionDependency)
    → Memᴰ d ds
    → Memᴰ d.before vs
    → (d.after ≢ after) × (Memᴰ d.after vs ⊎ Memᴰ d.after ps)

-- Visiting an action that is new keeps the search closed.
visit :
    (ds : List ActionDependency) (after u : ActionId) (vs ps qs : List ActionId)
    → Closed ds after vs (u ∷ ps)
    → Pushed after (from u ds) ps qs
    → Closed ds after (u ∷ vs) qs
visit ds after u vs ps qs c p d m b = elim (Memᴰ.cases_cons b) [
  | inl e ↦ let k = (from_iff u ds d).1 (m, e) in (p.misses d k, inr (p.ends d k))
  | inr t ↦
      let (n, x) = c d m t in
      (
        n,
        elim x [
          | inl y ↦ inl (Memᴰ.tail y)
          | inr y ↦ elim (Memᴰ.cases_cons y) [
            | inl e ↦ inl (Memᴰ.head e)
            | inr z ↦ inr (p.keeps d.after z)
          ]
        ],
      )
]

path_loop-Closed :
    (fuel : ℕ) (ds : List ActionDependency) (after : ActionId) (vs ps : List ActionId)
    → unseen vs ds + length ps < fuel
    → Closed ds after vs ps
    → path_loop fuel ds after vs ps ≡ false
    → (ws : List ActionId) × Closed ds after ws []
      × ((v : ActionId) → Memᴰ v vs ⊎ Memᴰ v ps → Memᴰ v ws)
unfolding path_loop
path_loop-Closed zero ds after vs ps l c h = elim l [ ]
path_loop-Closed (suc fuel) ds after vs [] l c h =
    (vs, c, λ v m. elim m [ inl k ↦ k | inr k ↦ absurd (Memᴰ.not-nil k) ])
path_loop-Closed (suc fuel) ds after vs (u ∷ ps) l c h = elim (Bool-cases (contains vs u)) [
  | inl old ↦
      let there = (contains_iff vs u).0 old in
      let (ws, c', k) =
        path_loop-Closed fuel ds after vs ps (omega arith)
          (λ d m b. (
            (c d m b).0,
            elim ((c d m b).1) [
              | inl x ↦ inl x
              | inr x ↦ elim (Memᴰ.cases_cons x) [ inl e ↦ inl (rw e there) | inr t ↦ inr t ]
            ],
          ))
          (ground arith) in
      (
        ws,
        c',
        λ v m. k v (elim m [
          | inl x ↦ inl x
          | inr x ↦ elim (Memᴰ.cases_cons x) [ inl e ↦ inl (rw e there) | inr t ↦ inr t ]
        ]),
      )
  | inr new ↦ elim (Option-cases (push_afters after (from u ds) ps)) [
    | inl hit ↦ absurd (ground arith)
    | inr (qs, q) ↦
        let p = push_afters-some after (from u ds) ps qs q in
        let (ws, c', k) =
          path_loop-Closed fuel ds after (u ∷ vs) qs
            (omega (arith, p.size, unseen-visit vs u ds new)) (visit ds after u vs ps qs c p)
            (ground arith) in
        (
          ws,
          c',
          λ v m. k v (elim m [
            | inl x ↦ inl (Memᴰ.tail x)
            | inr x ↦ elim (Memᴰ.cases_cons x) [
              | inl e ↦ inl (Memᴰ.head e)
              | inr t ↦ inr (p.keeps v t)
            ]
          ]),
        )
  ]
]

no-Chain :
    (ds : List ActionDependency) (after u : ActionId) (ws : List ActionId)
    → Closed ds after ws []
    → Memᴰ u ws
    → Chain ds u after
    → ⊥
no-Chain ds after u ws c m (link d k b a) = (c d k (rw b m)).0 a
no-Chain ds after u ws c m (extend d k b rest) = elim ((c d k (rw b m)).1) [
  | inl t ↦ no-Chain ds after d.after ws c t rest
  | inr t ↦ Memᴰ.not-nil t
]

-- `dependency_path` decides, on every list of dependencies, cyclic or not, whether a chain of one
-- dependency or more leads from the first action to the second.
pub dependency_path_iff :
    (before after : ActionId) (ds : List ActionDependency)
    → (dependency_path before after ds ≡ true) ↔ Chain ds before after
unfolding dependency_path
dependency_path_iff before after ds = (
  path_loop_sound (length ds + 2) ds after before [] (before ∷ [])
      (λ v m. inl (Memᴰ.eq_of_singleton m)),
  λ chain. elim (Bool-cases (path_loop (length ds + 2) ds after [] (before ∷ []))) [
    | inl yes_path ↦ yes_path
    | inr none_found ↦
        let (ws, c, k) =
          path_loop-Closed (length ds + 2) ds after [] (before ∷ [])
            (omega (arith, unseen-bound [] ds)) (λ d m b. absurd (Memᴰ.not-nil b)) none_found in
        absurd (no-Chain ds after before ws c (k before (inr (Memᴰ.head refl))) chain)
  ],
)
