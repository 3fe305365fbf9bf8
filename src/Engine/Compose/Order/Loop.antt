-- ===== src/Engine/Compose/Order/Loop.antt =====
-- storage-engine/src/compose.rs, `topological_order`: what its loop keeps and what it emits.
use mathlib.Core.List.{Memᴰ}
use mathlib.Core.List.Memᴰ
use pdisks.Base.{
  ℕ, zero, suc, ◌+◌, ◌≤◌, ◌<◌, ◌≡◌, ◌⊎◌, inl, inr, refl, sym, ◌∙◌, List, [], ◌∷◌, ◌++◌, Bool, true,
  false, some, ok, err, arith, nat_beq, nat_beq_iff, leb, u32_max, set, length, filter, length-set,
  Bool-cases, Option-cases, Unrepeated, ap, append_nil, append_single, subst,
}
use pdisks.Engine.Plan.{ActionId, ActionDependency}
use pdisks.Engine.Compose.{failure, dependency_cycle}
use pdisks.Engine.Compose.Order.{find_ready, release, order_loop}
use pdisks.Engine.Compose.Order.Counts.{
  degree_at, is_emitted, InRange, InRange-filter, pending, pending-emit, pending-zero, release_lem,
  emitted-set, find_ready-some,
}

-- Each action of the list stands behind the actions that it depends on.
abbrev pub Ordered : List ActionDependency → (earlier order : List ActionId) → Type 0
Ordered ds earlier [] = Unit
Ordered ds earlier (x ∷ xs) =
    ((d : ActionDependency) → Memᴰ d ds → d.after ≡ x → Memᴰ d.before earlier)
    × Ordered ds (x ∷ earlier) xs

-- Between two rounds: a degree is the number of predecessors that are still to come.
pub record Steady (n : ℕ) (ds : List ActionDependency) (indegree : List ℕ) (emitted : List Bool)
    (earlier : List ActionId) : Type 0 where
  pub degrees : length indegree ≡ n
  pub flags : length emitted ≡ n
  pub counts : (v : ActionId) → degree_at indegree v ≡ pending emitted ds v
  pub seen : (v : ActionId) → is_emitted emitted v ≡ true → Memᴰ v earlier

-- What the rounds that are left emit.
pub record Emitted (n : ℕ) (ds : List ActionDependency) (emitted : List Bool)
    (earlier rest : List ActionId) : Type 0 where
  pub ordered : Ordered ds earlier rest
  pub once : Unrepeated rest
  pub fresh : (v : ActionId) → Memᴰ v rest → (v < n) × (is_emitted emitted v ≡ false)

pub release_round :
    (n : ℕ) (ds : List ActionDependency) (ns : List ℕ) (bs : List Bool) (earlier : List ActionId)
    (u : ActionId)
    → Steady n ds ns bs earlier
    → InRange n ds
    → u < n
    → is_emitted bs u ≡ false
    → (ms : List ℕ) × (release (filter (λ d. nat_beq d.before u) ds) ns ≡ ok ms)
      × Steady n ds ms (set bs u true) (u ∷ earlier)
release_round n ds ns bs earlier u st r l e =
    let l' : u < length bs = omega (arith, st.flags) in
    let (ms, q, len, c) =
      release_lem (filter (λ d. nat_beq d.before u) ds) ns
        (subst (λ k. InRange k (filter (λ d. nat_beq d.before u) ds)) (sym st.degrees)
          (InRange-filter n u ds r))
        (λ v. omega (arith, st.counts v, pending-emit bs ds u v l' e)) in
    (
      ms,
      q,
      record {
        degrees = len ∙ st.degrees;
        flags = length-set bs u true ∙ st.flags;
        counts = λ v. omega (arith, c v, st.counts v, pending-emit bs ds u v l' e);
        seen = λ v h. elim (Bool-cases (nat_beq u v)) [
          | inl same ↦ Memᴰ.head (sym ((nat_beq_iff u v).0 same))
          | inr other ↦ Memᴰ.tail (st.seen v (ground (arith, emitted-set bs u v l')))
        ];
      },
    )

emit_one :
    (n : ℕ) (ds : List ActionDependency) (ns : List ℕ) (bs : List Bool)
    (earlier rest : List ActionId) (u : ActionId)
    → Steady n ds ns bs earlier
    → u < n
    → is_emitted bs u ≡ false
    → degree_at ns u ≡ 0
    → Emitted n ds (set bs u true) (u ∷ earlier) rest
    → Emitted n ds bs earlier (u ∷ rest)
emit_one n ds ns bs earlier rest u st l e z em =
    let l' : u < length bs = omega (arith, st.flags) in
    record {
      ordered = (
        λ d m a. st.seen d.before (
            pending-zero bs ds d
              (subst (λ k. pending bs ds k ≡ 0) (sym a) (omega (arith, st.counts u))) m),
        em.ordered,
      );
      once =
          (λ m. ground (arith, (em.fresh u m).1, emitted-set bs u u l', nat_beq_iff u u), em.once);
      fresh = λ v m. elim (Memᴰ.cases_cons m) [
        | inl q ↦ rw q (l, e)
        | inr t ↦ ((em.fresh v t).0, ground (arith, (em.fresh v t).1, emitted-set bs u v l'))
      ];
    }

pub ready_next :
    (bs : List Bool) (ns : List ℕ) (u : ActionId)
    → find_ready 0 bs ns ≡ some u
    → (u < length bs) × (is_emitted bs u ≡ false) × (degree_at ns u ≡ 0)
ready_next bs ns u h =
    let (k, same, l, e, z) = find_ready-some 0 bs ns u h in
    let q : k ≡ u = omega (arith, same) in
    subst (λ v. (v < length bs) × (is_emitted bs v ≡ false) × (degree_at ns v ≡ 0)) q (l, e, z)

pub order_step :
    (left : ℕ) (ds : List ActionDependency) (ns ms : List ℕ) (bs : List Bool)
    (order : List ActionId) (u : ActionId)
    → find_ready 0 bs ns ≡ some u
    → leb u u32_max ≡ true
    → release (filter (λ d. nat_beq d.before u) ds) ns ≡ ok ms
    → order_loop (suc left) ds ns bs order ≡ order_loop left ds ms (set bs u true) (order ++ u ∷ [])
unfolding order_loop
order_step left ds ns ms bs order u f s r = rw (f, s, r) refl

-- The rounds either emit the actions that are left, or report a cycle: no other error, no panic.
pub order_loop_lem :
    (left n : ℕ) (ds : List ActionDependency) (ns : List ℕ) (bs : List Bool)
    (earlier order : List ActionId)
    → n ≤ u32_max + 1
    → InRange n ds
    → Steady n ds ns bs earlier
    → ((rest : List ActionId) × (order_loop left ds ns bs order ≡ ok (order ++ rest))
        × (length rest ≡ left)
        × Emitted n ds bs earlier rest)
      ⊎ (order_loop left ds ns bs order ≡ err (failure dependency_cycle))
unfolding order_loop
order_loop_lem zero n ds ns bs earlier order small r st = inl (
  [],
  ap ok (sym (append_nil order)),
  refl,
  record { ordered = tt; once = tt; fresh = λ v m. absurd (Memᴰ.not-nil m) },
)
order_loop_lem (suc left) n ds ns bs earlier order small r st =
    elim (Option-cases (find_ready 0 bs ns)) [
      | inl none_ready ↦ inr (rw none_ready refl)
      | inr (u, ready) ↦
          let (l, e, z) = ready_next bs ns u ready in
          let l' : u < n = omega (arith, st.flags) in
          let (ms, q, st') = release_round n ds ns bs earlier u st r l' e in
          let step = order_step left ds ns ms bs order u ready (ground arith) q in
          elim (order_loop_lem left n ds ms (set bs u true) (u ∷ earlier) (order ++ u ∷ []) small r
            st') [
              | inl (rest, done, len, em) ↦ inl (
                u ∷ rest,
                step ∙ done ∙ ap ok (append_single order u rest),
                omega arith,
                emit_one n ds ns bs earlier rest u st l' e z em,
              )
              | inr cycle ↦ inr (step ∙ cycle)
            ]
    ]
