-- ===== src/Engine/Compose/Order/Laws.antt =====
-- storage-engine/src/compose.rs: `topological_order` against what an order of a plan is.
use mathlib.Core.List.{Memᴰ}
use pdisks.Base.{
  ℕ, zero, suc, ◌+◌, ◌≤◌, ◌<◌, ◌≡◌, ◌≢◌, ◌⊎◌, inl, inr, refl, sym, ◌∙◌, List, [], ◌∷◌, ◌++◌, Bool,
  true, false, none, ok, err, arith, u32_max, set, length, Bool-cases, Option-cases, Unrepeated,
  if◌then◌else◌, subst,
}
use pdisks.Engine.Plan.{ActionId, ActionDependency}
use pdisks.Engine.Compose.{failure, dependency_cycle}
use pdisks.Engine.Compose.Order.{fill, find_ready, order_loop, topological_order}
use pdisks.Engine.Compose.Order.Counts.{
  length-fill, degree_at, is_emitted, InRange, InRange-mem, pending_none, pending_witness,
  count_incoming_lem, find_ready-none,
}
use pdisks.Engine.Compose.Order.Loop.{
  Ordered, Steady, release_round, ready_next, order_step, order_loop_lem,
}

-- An order of the actions below `n`: each of them once, and behind what it depends on.
pub record IsOrder (n : ℕ) (ds : List ActionDependency) (order : List ActionId) : Type 0 where
  pub count : length order ≡ n
  pub bounded : (v : ActionId) → Memᴰ v order → v < n
  pub once : Unrepeated order
  pub ordered : Ordered ds [] order

none_emitted : (n : ℕ) (v : ActionId) → is_emitted (fill n false) v ≡ false
none_emitted zero v = refl
none_emitted (suc n) zero = refl
none_emitted (suc n) (suc v) = none_emitted n v

no_degree : (n : ℕ) (v : ActionId) → degree_at (fill n 0) v ≡ 0
no_degree zero v = refl
no_degree (suc n) zero = refl
no_degree (suc n) (suc v) = no_degree n v

-- The loop starts in a steady state.
start-Steady :
    (n : ℕ) (ds : List ActionDependency)
    → InRange n ds
    → (ns : List ℕ) × (topological_order n ds ≡ order_loop n ds ns (fill n false) [])
      × Steady n ds ns (fill n false) []
unfolding topological_order
start-Steady n ds r =
    let (ns, e, l, c) =
      count_incoming_lem ds (fill n 0) (subst (λ k. InRange k ds) (sym (length-fill n 0)) r) in
    (
      ns,
      rw e refl,
      record {
        degrees = l ∙ length-fill n 0;
        flags = length-fill n false;
        counts = λ v.
            omega (arith, c v, no_degree n v, pending_none (fill n false) ds v (none_emitted n));
        seen = λ v h. let k = none_emitted n v in cc;
      },
    )

-- On dependencies between the actions of the plan, `topological_order` returns an order of the plan
-- in which each action stands once and behind its predecessors, or reports a cycle; it never
-- panics.
pub topological_order_correct :
    (n : ℕ) (ds : List ActionDependency)
    → n ≤ u32_max + 1
    → InRange n ds
    → ((order : List ActionId) × (topological_order n ds ≡ ok order) × IsOrder n ds order)
      ⊎ (topological_order n ds ≡ err (failure dependency_cycle))
topological_order_correct n ds small r =
    let (ns, e, st) = start-Steady n ds r in
    elim (order_loop_lem n n ds ns (fill n false) [] [] small r st) [
      | inl (order, done, len, em) ↦ inl (
        order,
        e ∙ done,
        record {
          count = len;
          bounded = λ v m. (em.fresh v m).0;
          once = em.once;
          ordered = em.ordered;
        },
      )
      | inr cycle ↦ inr (e ∙ cycle)
    ]

-- The actions that are still to come.
abbrev to_come : List Bool → ℕ
to_come [] = 0
to_come (b ∷ bs) = (if b then 0 else 1) + to_come bs

to_come-fill : (n : ℕ) → to_come (fill n false) ≡ n
to_come-fill zero = refl
to_come-fill (suc n) = omega (arith, to_come-fill n)

to_come-set :
    (bs : List Bool) (u : ActionId)
    → u < length bs
    → is_emitted bs u ≡ false
    → to_come (set bs u true) + 1 ≡ to_come bs
to_come-set [] u l e = elim l [ ]
to_come-set (b ∷ bs) zero l e = ground arith
to_come-set (b ∷ bs) (suc u) l e = ground (arith, to_come-set bs u (omega arith) e)

to_come_none :
    (bs : List Bool) → ((v : ActionId) → v < length bs → is_emitted bs v ≡ true) → to_come bs ≡ 0
to_come_none [] h = refl
to_come_none (b ∷ bs) h =
    ground (arith, h 0 (omega arith), to_come_none bs (λ v l. h (suc v) (omega arith)))

-- A function into the numbers that grows along the dependencies: they have no cycle.
abbrev pub IsRank : (ActionId → ℕ) → List ActionDependency → Type 0
IsRank rank ds = (d : ActionDependency) → Memᴰ d ds → rank d.before < rank d.after

-- Without a ready action, every action has been emitted.
stuck_emitted :
    (bound n : ℕ) (ds : List ActionDependency) (ns : List ℕ) (bs : List Bool)
    (earlier : List ActionId) (rank : ActionId → ℕ) (v : ActionId)
    → Steady n ds ns bs earlier
    → InRange n ds
    → IsRank rank ds
    → find_ready 0 bs ns ≡ none
    → rank v < bound
    → v < n
    → is_emitted bs v ≡ true
stuck_emitted zero n ds ns bs earlier rank v st r k f h l = elim h [ ]
stuck_emitted (suc bound) n ds ns bs earlier rank v st r k f h l =
    elim (Bool-cases (is_emitted bs v)) [
      | inl e ↦ e
      | inr e ↦
          let p =
            find_ready-none 0 bs ns v f (st.flags ∙ sym st.degrees) (omega (arith, st.flags)) e in
          let (d, m, a, q) = pending_witness bs ds v (omega (arith, st.counts v)) in
          let less : rank d.before < rank v = subst (λ u. rank d.before < rank u) a (k d m) in
          let done =
            stuck_emitted bound n ds ns bs earlier rank d.before st r k f (omega arith)
              (InRange-mem n ds d r m).0 in
          cc
    ]

order_loop_ranked :
    (left n : ℕ) (ds : List ActionDependency) (ns : List ℕ) (bs : List Bool)
    (earlier order : List ActionId) (rank : ActionId → ℕ)
    → n ≤ u32_max + 1
    → InRange n ds
    → IsRank rank ds
    → Steady n ds ns bs earlier
    → to_come bs ≡ left
    → order_loop left ds ns bs order ≢ err (failure dependency_cycle)
unfolding order_loop
order_loop_ranked zero n ds ns bs earlier order rank small r k st t = λ e. cc
order_loop_ranked (suc left) n ds ns bs earlier order rank small r k st t =
    elim (Option-cases (find_ready 0 bs ns)) [
      | inl stuck ↦ λ e.
          let none_left = to_come_none bs (λ v l.
            stuck_emitted (rank v + 1) n ds ns bs earlier rank v st r k stuck (omega arith)
              (omega (arith, st.flags))) in
          absurd (omega arith)
      | inr (u, ready) ↦ λ e.
          let (l, f, z) = ready_next bs ns u ready in
          let l' : u < n = omega (arith, st.flags) in
          let (ms, q, st') = release_round n ds ns bs earlier u st r l' f in
          let step = order_step left ds ns ms bs order u ready (ground arith) q in
          order_loop_ranked left n ds ms (set bs u true) (u ∷ earlier) (order ++ u ∷ []) rank small
            r k st' (omega (arith, to_come-set bs u l f)) (sym step ∙ e)
    ]

-- Dependencies without a cycle, as a rank that grows along them attests, always get an order.
pub topological_order_complete :
    (n : ℕ) (ds : List ActionDependency) (rank : ActionId → ℕ)
    → n ≤ u32_max + 1
    → InRange n ds
    → IsRank rank ds
    → (order : List ActionId) × (topological_order n ds ≡ ok order) × IsOrder n ds order
topological_order_complete n ds rank small r k = elim (topological_order_correct n ds small r) [
  | inl found ↦ found
  | inr cycle ↦
      let (ns, e, st) = start-Steady n ds r in
      absurd (
        order_loop_ranked n n ds ns (fill n false) [] [] rank small r k st (to_come-fill n)
          (sym e ∙ cycle))
]
