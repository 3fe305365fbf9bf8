-- ===== src/Engine/Simulate/Evidence/Invalidation.antt =====
-- storage-engine/src/simulation_evidence.rs: `invalidate_observations` and the observations that it
-- makes stale.
use mathlib.Core.List.{Memᴰ}
use mathlib.Core.List.Memᴰ
use pdisks.Base.{
  ◌+◌, ◌≡◌, ◌↔◌, ◌⊎◌, inl, inr, refl, sym, ap, ◌∙◌, subst, List, [], ◌∷◌, true, ◌&&◌, ◌==◌, none,
  some, arith, nat_eq, contains, contains_iff, length, get_key, drop_key, get-drop_self,
  get-drop_ne, Bool-cases, Option-cases, Memᴰ-concat, any_witness, any-mem, put_member,
}
use native.Mathlib.Decide.{ℕ_discrete}
use pdisks.Core.Node.{NodeId}
use pdisks.Core.State.{DesiredState}
use pdisks.Provider.Contract.{
  FactInvalidation, FactScope, FactKind, node, activation, invalidation_eq,
}
use pdisks.Engine.Simulate.Data.{SimulationEvidence, scope_eq, kind_eq}
use pdisks.Engine.Simulate.Evidence.{
  is_observation_stale, activation_of, propagate, is_activation, expand, revokes,
  record_invalidations, invalidate_observations, children,
}
use pdisks.Engine.Simulate.Evidence.Search.{depth_first}
use pdisks.Engine.Simulate.Evidence.Reach.{Reach, here, search_iff}
use pdisks.Engine.Simulate.Evidence.Edges.{all_edges, length-pairs, children_iff, length-children}

-- An invalidated activation from which the node is reached along the dependencies.
abbrev pub Deactivated : DesiredState → List FactInvalidation → NodeId → Type 0
Deactivated desired is n = (m : NodeId) × Memᴰ (activation_of m) is × Reach (all_edges desired) m n

stale_iff :
    (e : SimulationEvidence) (scope : FactScope) (kind : FactKind)
    → (is_observation_stale e scope kind ≡ true)
      ↔ Memᴰ (record { scope = scope; kind = kind }) e.invalidated_facts
stale_iff e scope kind =
    let test = λ (i : FactInvalidation). i.scope == scope && i.kind == kind in
    (
      (λ h.
          let (i, m, t) = any_witness test e.invalidated_facts h in
          let a = scope_eq.same_iff i.scope scope in
          let b = kind_eq.same_iff i.kind kind in
          let p : i.scope ≡ scope = ground (arith, a) in
          let q : i.kind ≡ kind = ground (arith, b) in
          subst (λ x. Memᴰ x e.invalidated_facts) (λ j. record { scope = p j; kind = q j }) m),
      λ m.
          let a = (scope_eq.same_iff scope scope).1 refl in
          let b = (kind_eq.same_iff kind kind).1 refl in
          any-mem test e.invalidated_facts (record { scope = scope; kind = kind }) (rw (a, b) refl)
            m,
    )

put_member_iff :
    (xs : List FactInvalidation) (a x : FactInvalidation)
    → Memᴰ x (put_member xs a) ↔ (Memᴰ x xs ⊎ (x ≡ a))
put_member_iff xs a x = elim (Bool-cases (contains xs a)) [
  | inl q ↦
      let old = (contains_iff xs a).0 q in
      rw q ((λ m. inl m), λ m. elim m [ inl k ↦ k | inr e ↦ rw e old ])
  | inr q ↦ rw q (Memᴰ-concat x a xs)
]

activation_inj : (m n : NodeId) → activation_of m ≡ activation_of n → m ≡ n
activation_inj m n e = ground arith

-- `propagate` marks its node, and nothing else.
propagate_marks :
    (n v : NodeId) (s : List FactInvalidation)
    → (contains (propagate n s) (activation_of v) ≡ true)
      ↔ ((contains s (activation_of v) ≡ true) ⊎ (v ≡ n))
propagate_marks n v s =
    let p = put_member_iff s (activation_of n) (activation_of v) in
    let new = contains_iff (put_member s (activation_of n)) (activation_of v) in
    let old = contains_iff s (activation_of v) in
    (
      (λ h. elim (p.0 (new.0 h)) [ inl m ↦ inl (old.1 m) | inr e ↦ inr (activation_inj v n e) ]),
      λ h. new.1 (p.1 (elim h [ inl m ↦ inl (old.0 m) | inr e ↦ inr (ap activation_of e) ])),
    )

abbrev expanded_from : DesiredState → NodeId → List FactInvalidation → List FactInvalidation
expanded_from desired n s =
    depth_first (length desired.graph.dependencies + 1) (children desired) propagate [] (n ∷ []) s

expanded_from_iff :
    (desired : DesiredState) (n v : NodeId) (s : List FactInvalidation)
    → (contains (expanded_from desired n s) (activation_of v) ≡ true)
      ↔ ((contains s (activation_of v) ≡ true) ⊎ Reach (all_edges desired) n v)
expanded_from_iff desired n v s =
    let found =
      search_iff (all_edges desired) (children desired) propagate
        (λ x l. contains l (activation_of x)) (length-children desired) (children_iff desired)
        propagate_marks (length desired.graph.dependencies + 1) (n ∷ []) s v
        (omega (arith, length-pairs (λ d. true) desired.graph.dependencies)) in
    (
      (λ h. elim (found.0 h) [
        | inl k ↦ inl k
        | inr (p, m, r) ↦
            inr (subst (λ x. Reach (all_edges desired) x v) (Memᴰ.eq_of_singleton m) r)
      ]),
      λ h. found.1 (elim h [ inl k ↦ inl k | inr r ↦ inr (n, Memᴰ.head refl, r) ]),
    )

is_activation-some :
    (i : FactInvalidation) (n : NodeId) → is_activation i ≡ some n → i ≡ activation_of n
is_activation-some i n h = ground (arith, kind_eq.same_iff i.kind activation)

is_activation_of : (n : NodeId) → is_activation (activation_of n) ≡ some n
is_activation_of n = let h = (kind_eq.same_iff activation activation).1 refl in rw h refl

expand_iff :
    (desired : DesiredState) (is s : List FactInvalidation) (v : NodeId)
    → (contains (expand desired is s) (activation_of v) ≡ true)
      ↔ ((contains s (activation_of v) ≡ true) ⊎ Deactivated desired is v)
unfolding expand
expand_iff desired [] s v =
    ((λ h. inl h), λ h. elim h [ inl k ↦ k | inr (m, k, r) ↦ absurd (Memᴰ.not-nil k) ])
expand_iff desired (i ∷ is) s v = elim (Option-cases (is_activation i)) [
  | inl q ↦
      let rest = expand_iff desired is s v in
      rw (q, expand)
        (
          (λ h. elim (rest.0 h) [ inl k ↦ inl k | inr (m, k, r) ↦ inr (m, Memᴰ.tail k, r) ]),
          λ h. rest.1 (elim h [
            | inl k ↦ inl k
            | inr (m, k, r) ↦ elim (Memᴰ.cases_cons k) [
              | inl e ↦
                  let c : some m ≡ none = sym (is_activation_of m) ∙ ap is_activation e ∙ q in cc
              | inr t ↦ inr (m, t, r)
            ]
          ]),
        )
  | inr (n, q) ↦
      let rest = expand_iff desired is (expanded_from desired n s) v in
      let first = expanded_from_iff desired n v s in
      let same = is_activation-some i n q in
      rw (q, expand)
        (
          (λ h. elim (rest.0 h) [
            | inl k ↦ elim (first.0 k) [
              | inl old ↦ inl old
              | inr r ↦ inr (n, Memᴰ.head (sym same), r)
            ]
            | inr (m, k, r) ↦ inr (m, Memᴰ.tail k, r)
          ]),
          λ h. rest.1 (elim h [
            | inl k ↦ inl (first.1 (inl k))
            | inr (m, k, r) ↦ elim (Memᴰ.cases_cons k) [
              | inl e ↦ inl (
                  first.1 (
                    inr (
                      subst (λ x. Reach (all_edges desired) x v) (activation_inj m n (e ∙ same))
                        r)))
              | inr t ↦ inr (m, t, r)
            ]
          ]),
        )
]

-- One invalidation of the last loop.
abbrev note : FactInvalidation → SimulationEvidence → SimulationEvidence
note i evidence =
    let noted = record evidence { invalidated_facts = put_member evidence.invalidated_facts i } in
    elim (revokes i) [
      | none ↦ noted
      | some n ↦ record noted {
        block_interfaces = drop_key noted.block_interfaces n;
        activations = drop_key noted.activations n;
      }
    ]

note-facts :
    (i : FactInvalidation) (e : SimulationEvidence)
    → (note i e).invalidated_facts ≡ put_member e.invalidated_facts i
note-facts i e = ground arith

record_invalidations_iff :
    (is : List FactInvalidation) (e : SimulationEvidence) (x : FactInvalidation)
    → Memᴰ x (record_invalidations is e).invalidated_facts
      ↔ (Memᴰ x e.invalidated_facts ⊎ Memᴰ x is)
unfolding record_invalidations
record_invalidations_iff [] e x =
    ((λ m. inl m), λ m. elim m [ inl k ↦ k | inr k ↦ absurd (Memᴰ.not-nil k) ])
record_invalidations_iff (i ∷ is) e x =
    let rest = record_invalidations_iff is (note i e) x in
    let p = put_member_iff e.invalidated_facts i x in
    let kept = note-facts i e in
    (
      (λ m. elim (rest.0 m) [
        | inl k ↦ elim (p.0 (subst (λ l. Memᴰ x l) kept k)) [
          | inl old ↦ inl old
          | inr q ↦ inr (Memᴰ.head q)
        ]
        | inr k ↦ inr (Memᴰ.tail k)
      ]),
      λ m. rest.1 (elim m [
        | inl k ↦ inl (subst (λ l. Memᴰ x l) (sym kept) (p.1 (inl k)))
        | inr k ↦ elim (Memᴰ.cases_cons k) [
          | inl q ↦ inl (subst (λ l. Memᴰ x l) (sym kept) (p.1 (inr q)))
          | inr t ↦ inr t
        ]
      ]),
    )

-- After `invalidate_observations` the activation of a node is stale exactly if it was stale before,
-- or the node is reached, over no dependency or more, from a node whose activation is invalidated.
pub invalidate_observations-stale :
    (desired : DesiredState) (is : List FactInvalidation) (e : SimulationEvidence) (n : NodeId)
    → (is_observation_stale (invalidate_observations desired is e).1 (node n) activation ≡ true)
      ↔ ((is_observation_stale e (node n) activation ≡ true) ⊎ Deactivated desired is n)
unfolding invalidate_observations
invalidate_observations-stale desired is e n =
    let after = stale_iff (record_invalidations (expand desired is is) e) (node n) activation in
    let before = stale_iff e (node n) activation in
    let facts = record_invalidations_iff (expand desired is is) e (activation_of n) in
    let member = contains_iff (expand desired is is) (activation_of n) in
    let wide = expand_iff desired is is n in
    (
      (λ h. elim (facts.0 (after.0 h)) [
        | inl k ↦ inl (before.1 k)
        | inr k ↦ elim (wide.0 (member.1 k)) [
          | inl c ↦ inr (n, (contains_iff is (activation_of n)).0 c, here refl)
          | inr d ↦ inr d
        ]
      ]),
      λ h.
          after.1 (
            facts.1
              (elim h [ inl k ↦ inl (before.0 k) | inr d ↦ inr (member.0 (wide.1 (inr d))) ])),
    )

drop-none :
    {V : Type 0} (m : List (NodeId × V)) (j k : NodeId)
    → get_key m k ≡ none
    → get_key (drop_key m j) k ≡ none
drop-none m j k h = elim (ℕ_discrete j k) [
  | yes q ↦ rw (← q) (get-drop_self m j)
  | no n ↦ get-drop_ne m j k n ∙ h
]

revokes-activation : (n : NodeId) → revokes (activation_of n) ≡ some n
revokes-activation n = let h = (kind_eq.same_iff activation activation).1 refl in rw h refl

-- What `record_invalidations` removed stays removed.
keeps_none :
    (is : List FactInvalidation) (e : SimulationEvidence) (n : NodeId)
    → get_key e.activations n ≡ none
    → get_key e.block_interfaces n ≡ none
    → (get_key (record_invalidations is e).activations n ≡ none)
      × (get_key (record_invalidations is e).block_interfaces n ≡ none)
unfolding record_invalidations
keeps_none [] e n a b = (a, b)
keeps_none (i ∷ is) e n a b = elim (Option-cases (revokes i)) [
  | inl q ↦
      rw (q, record_invalidations)
        (keeps_none is (record e { invalidated_facts = put_member e.invalidated_facts i }) n a b)
  | inr (m, q) ↦
      let e' = record e {
        invalidated_facts = put_member e.invalidated_facts i;
        block_interfaces = drop_key e.block_interfaces m;
        activations = drop_key e.activations m;
      } in
      rw (q, record_invalidations)
        (keeps_none is e' n (drop-none e.activations m n a) (drop-none e.block_interfaces m n b))
]

revoked_none :
    (is : List FactInvalidation) (e : SimulationEvidence) (n : NodeId)
    → Memᴰ (activation_of n) is
    → (get_key (record_invalidations is e).activations n ≡ none)
      × (get_key (record_invalidations is e).block_interfaces n ≡ none)
unfolding record_invalidations
revoked_none [] e n m = absurd (Memᴰ.not-nil m)
revoked_none (i ∷ is) e n m = elim (Memᴰ.cases_cons m) [
  | inl q ↦
      let e' = record e {
        invalidated_facts = put_member e.invalidated_facts i;
        block_interfaces = drop_key e.block_interfaces n;
        activations = drop_key e.activations n;
      } in
      let r : revokes i ≡ some n = ap revokes (sym q) ∙ revokes-activation n in
      rw (r, record_invalidations)
        (keeps_none is e' n (get-drop_self e.activations n) (get-drop_self e.block_interfaces n))
  | inr t ↦ revoked_none is (note i e) n t
]

-- The activation and the block interface that effects gave to a node are revoked by
-- `invalidate_observations` when the node is reached, over no dependency or more, from a node whose
-- activation is invalidated.
pub invalidate_observations_revokes :
    (desired : DesiredState) (is : List FactInvalidation) (e : SimulationEvidence) (n : NodeId)
    → Deactivated desired is n
    → (get_key (invalidate_observations desired is e).1.activations n ≡ none)
      × (get_key (invalidate_observations desired is e).1.block_interfaces n ≡ none)
unfolding invalidate_observations
invalidate_observations_revokes desired is e n d = revoked_none (expand desired is is) e n (
    (contains_iff (expand desired is is) (activation_of n)).0
      ((expand_iff desired is is n).1 (inr d)))
