-- ===== src/Engine/Simulate/Evidence/Reach.antt =====
-- storage-engine/src/simulation_evidence.rs: the nodes that a depth-first search visits.
use mathlib.Core.List.{Memᴰ}
use mathlib.Core.List.Memᴰ
use pdisks.Base.{
  ℕ, zero, suc, ◌+◌, ◌≤◌, ◌≡◌, ◌↔◌, ◌⊎◌, inl, inr, refl, sym, ap, ◌∙◌, subst, List, [], ◌∷◌, ◌++◌,
  Bool, true, false, arith, nat_beq, nat_beq_iff, nat_eq, contains, contains_iff, length,
  length-append, Bool-cases, if◌then◌else◌,
}
use pdisks.Core.Node.{NodeId}
use pdisks.Engine.Simulate.Evidence.Search.{depth_first}

-- A chain of edges, possibly empty.
pub data Reach (edges : List (NodeId × NodeId)) : NodeId → NodeId → Type 0 where
  here : {u v : NodeId} → u ≡ v → Reach edges u v
  there : {u w : NodeId} (v : NodeId) → Memᴰ (u, v) edges → Reach edges v w → Reach edges u w

-- The number of edges out of a node, and of edges out of nodes that are not visited.
abbrev pub outs : NodeId → List (NodeId × NodeId) → ℕ
outs n [] = 0
outs n ((a, b) ∷ edges) = (if nat_beq a n then 1 else 0) + outs n edges

abbrev pub unseen : List NodeId → List (NodeId × NodeId) → ℕ
unseen vs [] = 0
unseen vs ((a, b) ∷ edges) = (if contains vs a then 0 else 1) + unseen vs edges

pub unseen-bound :
    (vs : List NodeId) (edges : List (NodeId × NodeId)) → unseen vs edges ≤ length edges
unseen-bound vs [] = omega arith
unseen-bound vs ((a, b) ∷ edges) = ground (arith, unseen-bound vs edges)

unseen-visit :
    (vs : List NodeId) (n : NodeId) (edges : List (NodeId × NodeId))
    → contains vs n ≡ false
    → unseen (n ∷ vs) edges + outs n edges ≡ unseen vs edges
unseen-visit vs n [] h = omega arith
unseen-visit vs n ((a, b) ∷ edges) h = elim (Bool-cases (nat_beq a n)) [
  | inl q ↦
      let same = (nat_beq_iff a n).0 q in ground (arith, unseen-visit vs n edges h, nat_beq_iff n a)
  | inr q ↦ ground (arith, unseen-visit vs n edges h, nat_beq_iff n a, nat_beq_iff a n)
]

-- A node that is visited already may leave the stack.
shift :
    (n v : NodeId) (vs ps : List NodeId)
    → Memᴰ n vs
    → Memᴰ v vs ⊎ Memᴰ v (n ∷ ps)
    → Memᴰ v vs ⊎ Memᴰ v ps
shift n v vs ps old (inl k) = inl k
shift n v vs ps old (inr k) = elim (Memᴰ.cases_cons k) [ inl e ↦ inl (rw e old) | inr t ↦ inr t ]

module _ {S : Type 0} (edges : List (NodeId × NodeId)) (pushed : NodeId → List NodeId)
    (visit : NodeId → S → S) (holds : NodeId → S → Bool)
    (size : (n : NodeId) → length (pushed n) ≡ outs n edges)
    (ends : (n v : NodeId) → Memᴰ v (pushed n) ↔ Memᴰ (n, v) edges)
    (marks : (n v : NodeId) (s : S)
      → (holds v (visit n s) ≡ true) ↔ ((holds v s ≡ true) ⊎ (v ≡ n))) where
  skip_old :
      (fuel : ℕ) (vs ps : List NodeId) (n : NodeId) (s : S)
      → contains vs n ≡ true
      → depth_first (suc fuel) pushed visit vs (n ∷ ps) s ≡ depth_first fuel pushed visit vs ps s
  unfolding depth_first
  skip_old fuel vs ps n s q = rw (q, depth_first) refl

  visit_new :
      (fuel : ℕ) (vs ps : List NodeId) (n : NodeId) (s : S)
      → contains vs n ≡ false
      → depth_first (suc fuel) pushed visit vs (n ∷ ps) s
        ≡ depth_first fuel pushed visit (n ∷ vs) (pushed n ++ ps) (visit n s)
  unfolding depth_first
  visit_new fuel vs ps n s q = rw (q, depth_first) refl

  -- What holds after the search held before, or is reached from the stack.
  pub search_sound :
      (fuel : ℕ) (vs ps : List NodeId) (s : S) (v : NodeId)
      → holds v (depth_first fuel pushed visit vs ps s) ≡ true
      → (holds v s ≡ true) ⊎ ((p : NodeId) × Memᴰ p ps × Reach edges p v)
  unfolding depth_first
  search_sound zero vs ps s v h = inl h
  search_sound (suc fuel) vs [] s v h = inl h
  search_sound (suc fuel) vs (n ∷ ps) s v h = elim (Bool-cases (contains vs n)) [
    | inl q ↦
        elim (search_sound fuel vs ps s v (ap (holds v) (sym (skip_old fuel vs ps n s q)) ∙ h)) [
          | inl k ↦ inl k
          | inr (p, m, r) ↦ inr (p, Memᴰ.tail m, r)
        ]
    | inr q ↦
        elim (search_sound fuel (n ∷ vs) (pushed n ++ ps) (visit n s) v
          (ap (holds v) (sym (visit_new fuel vs ps n s q)) ∙ h)) [
            | inl k ↦ elim ((marks n v s).0 k) [
              | inl old ↦ inl old
              | inr e ↦ inr (n, Memᴰ.head refl, here (sym e))
            ]
            | inr (p, m, r) ↦ elim (Memᴰ.append_cases (pushed n) m) [
              | inl k ↦ inr (n, Memᴰ.head refl, there p ((ends n p).0 k) r)
              | inr k ↦ inr (p, Memᴰ.tail k, r)
            ]
          ]
  ]

  -- An edge out of a visited node ends at a visited or a pending node.
  abbrev pub Closed : (vs ps : List NodeId) → Type 0
  Closed vs ps = (a b : NodeId) → Memᴰ (a, b) edges → Memᴰ a vs → Memᴰ b vs ⊎ Memᴰ b ps

  visited-Closed :
      (n : NodeId) (vs ps : List NodeId) → Closed vs (n ∷ ps) → Closed (n ∷ vs) (pushed n ++ ps)
  visited-Closed n vs ps c a b m k = elim (Memᴰ.cases_cons k) [
    | inl e ↦ inr (Memᴰ.append_left ps ((ends n b).1 (subst (λ x. Memᴰ (x, b) edges) e m)))
    | inr t ↦ elim (c a b m t) [
      | inl x ↦ inl (Memᴰ.tail x)
      | inr x ↦ elim (Memᴰ.cases_cons x) [
        | inl e ↦ inl (Memᴰ.head e)
        | inr y ↦ inr (Memᴰ.append_right (pushed n) y)
      ]
    ]
  ]

  -- With enough fuel the search ends in a closed set of nodes, of which all hold.
  pub search-Closed :
      (fuel : ℕ) (vs ps : List NodeId) (s : S)
      → unseen vs edges + length ps ≤ fuel
      → Closed vs ps
      → ((v : NodeId) → Memᴰ v vs → holds v s ≡ true)
      → (ws : List NodeId) × Closed ws []
        × ((v : NodeId) → Memᴰ v vs ⊎ Memᴰ v ps → Memᴰ v ws)
        × ((v : NodeId) → Memᴰ v ws → holds v (depth_first fuel pushed visit vs ps s) ≡ true)
        × ((v : NodeId) → holds v s ≡ true → holds v (depth_first fuel pushed visit vs ps s) ≡ true)
  unfolding depth_first
  search-Closed zero vs [] s l c h =
      (vs, c, (λ v m. elim m [ inl k ↦ k | inr k ↦ absurd (Memᴰ.not-nil k) ]), h, λ v k. k)
  search-Closed zero vs (n ∷ ps) s l c h = absurd (omega arith)
  search-Closed (suc fuel) vs [] s l c h =
      (vs, c, (λ v m. elim m [ inl k ↦ k | inr k ↦ absurd (Memᴰ.not-nil k) ]), h, λ v k. k)
  search-Closed (suc fuel) vs (n ∷ ps) s l c h = elim (Bool-cases (contains vs n)) [
    | inl q ↦
        let old = (contains_iff vs n).0 q in
        let (ws, c', sub, all_hold, keep) =
          search-Closed fuel vs ps s (omega arith) (λ a b m k. shift n b vs ps old (c a b m k)) h in
        (
          ws,
          c',
          (λ v m. sub v (shift n v vs ps old m)),
          (λ v m. ap (holds v) (skip_old fuel vs ps n s q) ∙ all_hold v m),
          λ v k. ap (holds v) (skip_old fuel vs ps n s q) ∙ keep v k,
        )
    | inr q ↦
        let (ws, c', sub, all_hold, keep) =
          search-Closed fuel (n ∷ vs) (pushed n ++ ps) (visit n s)
            (omega (arith, size n, unseen-visit vs n edges q, length-append (pushed n) ps))
            (visited-Closed n vs ps c)
            (λ v m. elim (Memᴰ.cases_cons m) [
              | inl e ↦ (marks n v s).1 (inr e)
              | inr t ↦ (marks n v s).1 (inl (h v t))
            ]) in
        (
          ws,
          c',
          (λ v m. sub v (elim m [
            | inl k ↦ inl (Memᴰ.tail k)
            | inr k ↦ elim (Memᴰ.cases_cons k) [
              | inl e ↦ inl (Memᴰ.head e)
              | inr t ↦ inr (Memᴰ.append_right (pushed n) t)
            ]
          ])),
          (λ v m. ap (holds v) (visit_new fuel vs ps n s q) ∙ all_hold v m),
          λ v k. ap (holds v) (visit_new fuel vs ps n s q) ∙ keep v ((marks n v s).1 (inl k)),
        )
  ]

  Closed-Reach :
      (ws : List NodeId) (u v : NodeId) → Closed ws [] → Memᴰ u ws → Reach edges u v → Memᴰ v ws
  Closed-Reach ws u v c m (here e) = rw (← e) m
  Closed-Reach ws u v c m (there w k r) = elim (c u w k m) [
    | inl t ↦ Closed-Reach ws w v c t r
    | inr t ↦ absurd (Memᴰ.not-nil t)
  ]

  -- After a search from the stack, exactly what held before and what is reached from it holds.
  pub search_iff :
      (fuel : ℕ) (ps : List NodeId) (s : S) (v : NodeId)
      → length edges + length ps ≤ fuel
      → (holds v (depth_first fuel pushed visit [] ps s) ≡ true)
        ↔ ((holds v s ≡ true) ⊎ ((p : NodeId) × Memᴰ p ps × Reach edges p v))
  search_iff fuel ps s v l = (
    search_sound fuel [] ps s v,
    λ h.
        let (ws, c, sub, all_hold, keep) =
          search-Closed fuel [] ps s (omega (arith, unseen-bound [] edges))
            (λ a b m k. absurd (Memᴰ.not-nil k)) (λ u k. absurd (Memᴰ.not-nil k)) in
        elim h [
          | inl k ↦ keep v k
          | inr (p, m, r) ↦ all_hold v (Closed-Reach ws p v c (sub p (inr m)) r)
        ],
  )
