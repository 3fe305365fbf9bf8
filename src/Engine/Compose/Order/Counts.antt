-- ===== src/Engine/Compose/Order/Counts.antt =====
-- storage-engine/src/compose.rs, `topological_order`: what the degrees of its loop count.
use mathlib.Core.List.{Memᴰ}
use mathlib.Core.List.Memᴰ
use pdisks.Base.{
  ℕ, zero, suc, ◌+◌, ◌-◌, ◌≤◌, ◌<◌, ◌≡◌, inl, inr, refl, List, [], ◌∷◌, Bool, true, false, not,
  ◌&&◌, none, some, ok, arith, filter-cons_true, filter-cons_false, nat_beq, nat_beq_iff, get_elem?,
  set, length, filter, length-set, Bool-cases, if◌then◌else◌,
}
use pdisks.Engine.Plan.{ActionId, ActionDependency}
use pdisks.Engine.Compose.Order.{fill, count_incoming, find_ready, release}

pub length-fill {ℓ} : {A : Type ℓ} (n : ℕ) (x : A) → length (fill n x) ≡ n
length-fill zero x = refl
length-fill (suc n) x = omega (arith, length-fill n x)

pub get_elem?-fill {ℓ} : {A : Type ℓ} (n i : ℕ) (x : A) → i < n → get_elem? (fill n x) i ≡ some x
get_elem?-fill zero i x h = elim h [ ]
get_elem?-fill (suc n) zero x h = refl
get_elem?-fill (suc n) (suc i) x h = get_elem?-fill n i x (omega arith)

-- The degree of an action, 0 where there is none.
abbrev pub degree_at : List ℕ → ActionId → ℕ
degree_at [] v = 0
degree_at (n ∷ ns) zero = n
degree_at (n ∷ ns) (suc v) = degree_at ns v

abbrev pub is_emitted : List Bool → ActionId → Bool
is_emitted [] v = false
is_emitted (b ∷ bs) zero = b
is_emitted (b ∷ bs) (suc v) = is_emitted bs v

pub get_elem?-degree :
    (ns : List ℕ) (v : ActionId) → v < length ns → get_elem? ns v ≡ some (degree_at ns v)
get_elem?-degree [] v h = elim h [ ]
get_elem?-degree (n ∷ ns) zero h = refl
get_elem?-degree (n ∷ ns) (suc v) h = get_elem?-degree ns v (omega arith)

pub degree-set :
    (ns : List ℕ) (u v n : ℕ)
    → u < length ns
    → degree_at (set ns u n) v ≡ (if nat_beq u v then n else degree_at ns v)
degree-set [] u v n h = elim h [ ]
degree-set (m ∷ ns) zero zero n h = refl
degree-set (m ∷ ns) zero (suc v) n h = ground arith
degree-set (m ∷ ns) (suc u) zero n h = ground arith
degree-set (m ∷ ns) (suc u) (suc v) n h = ground (arith, degree-set ns u v n (omega arith))

pub emitted-set :
    (bs : List Bool) (u v : ℕ)
    → u < length bs
    → is_emitted (set bs u true) v ≡ (if nat_beq u v then true else is_emitted bs v)
emitted-set [] u v h = elim h [ ]
emitted-set (m ∷ ns) zero zero h = refl
emitted-set (m ∷ ns) zero (suc v) h = ground arith
emitted-set (m ∷ ns) (suc u) zero h = ground arith
emitted-set (m ∷ ns) (suc u) (suc v) h = ground (arith, emitted-set ns u v (omega arith))

-- The dependencies that end at `v`, and those of them whose first action is still to come.
abbrev pub incoming : List ActionDependency → ActionId → ℕ
incoming [] v = 0
incoming (d ∷ ds) v = (if nat_beq d.after v then 1 else 0) + incoming ds v

abbrev pub pending : List Bool → List ActionDependency → ActionId → ℕ
pending emitted [] v = 0
pending emitted (d ∷ ds) v =
    (if nat_beq d.after v && not (is_emitted emitted d.before) then 1 else 0) + pending emitted ds v

-- Every dependency is between two of the first `n` actions.
abbrev pub InRange : ℕ → List ActionDependency → Type 0
InRange n [] = Unit
InRange n (d ∷ ds) = (d.before < n) × (d.after < n) × InRange n ds

pub InRange-mem :
    (n : ℕ) (ds : List ActionDependency) (d : ActionDependency)
    → InRange n ds
    → Memᴰ d ds
    → (d.before < n) × (d.after < n)
InRange-mem n [] d h m = absurd (Memᴰ.not-nil m)
InRange-mem n (x ∷ ds) d (b, a, h) m = elim (Memᴰ.cases_cons m) [
  | inl e ↦ rw e (b, a)
  | inr t ↦ InRange-mem n ds d h t
]

pub InRange-filter :
    (n u : ℕ) (ds : List ActionDependency)
    → InRange n ds
    → InRange n (filter (λ d. nat_beq d.before u) ds)
InRange-filter n u [] h = tt
InRange-filter n u (d ∷ ds) (b, a, h) = elim (Bool-cases (nat_beq d.before u)) [
  | inl e ↦ rw (filter-cons_true (λ x. nat_beq x.before u) d ds e) (b, a, InRange-filter n u ds h)
  | inr e ↦ rw (filter-cons_false (λ x. nat_beq x.before u) d ds e) (InRange-filter n u ds h)
]

pub count_incoming_lem :
    (ds : List ActionDependency) (ns : List ℕ)
    → InRange (length ns) ds
    → (ms : List ℕ) × (count_incoming ds ns ≡ ok ms)
      × (length ms ≡ length ns)
      × ((v : ActionId) → degree_at ms v ≡ degree_at ns v + incoming ds v)
unfolding count_incoming
count_incoming_lem [] ns h = (ns, refl, refl, λ v. omega arith)
count_incoming_lem (d ∷ ds) ns (b, a, h) =
    let ns' = set ns d.after (degree_at ns d.after + 1) in
    let (ms, e, l, c) =
      count_incoming_lem ds ns' (rw (length-set ns d.after (degree_at ns d.after + 1)) h) in
    (
      ms,
      rw (get_elem?-degree ns d.after a) e,
      rw l (length-set ns d.after _),
      λ v. ground (arith, c v, degree-set ns d.after v (degree_at ns d.after + 1) a),
    )

pub release_lem :
    (ds : List ActionDependency) (ns : List ℕ)
    → InRange (length ns) ds
    → ((v : ActionId) → incoming ds v ≤ degree_at ns v)
    → (ms : List ℕ) × (release ds ns ≡ ok ms)
      × (length ms ≡ length ns)
      × ((v : ActionId) → degree_at ms v + incoming ds v ≡ degree_at ns v)
unfolding release
release_lem [] ns h g = (ns, refl, refl, λ v. omega arith)
release_lem (d ∷ ds) ns (b, a, h) g =
    let k = degree_at ns d.after - 1 in
    let pos : degree_at ns d.after ≡ suc k =
      ground (arith, g d.after, nat_beq_iff d.after d.after) in
    let (ms, e, l, c) =
      release_lem ds (set ns d.after k) (rw (length-set ns d.after k) h)
        (λ v. ground (arith, g v, degree-set ns d.after v k a)) in
    (
      ms,
      rw (get_elem?-degree ns d.after a, pos) e,
      rw l (length-set ns d.after _),
      λ v. ground (arith, c v, g v, degree-set ns d.after v k a),
    )

-- Emitting `u` takes from what is pending at `v` the dependencies from `u` to `v`.
pub pending-emit :
    (bs : List Bool) (ds : List ActionDependency) (u v : ActionId)
    → u < length bs
    → is_emitted bs u ≡ false
    → pending (set bs u true) ds v + incoming (filter (λ d. nat_beq d.before u) ds) v
      ≡ pending bs ds v
pending-emit bs [] u v h e = omega arith
pending-emit bs (d ∷ ds) u v h e = elim (Bool-cases (nat_beq d.before u)) [
  | inl q ↦ rw (filter-cons_true (λ x. nat_beq x.before u) d ds q) (
      ground (
        arith,
        pending-emit bs ds u v h e,
        emitted-set bs u d.before h,
        nat_beq_iff d.before u,
        nat_beq_iff u d.before,
      ))
  | inr q ↦ rw (filter-cons_false (λ x. nat_beq x.before u) d ds q) (
      ground (
        arith,
        pending-emit bs ds u v h e,
        emitted-set bs u d.before h,
        nat_beq_iff d.before u,
        nat_beq_iff u d.before,
      ))
]

-- Nothing is pending at `v` only if every action before it is emitted.
pub pending-zero :
    (bs : List Bool) (ds : List ActionDependency) (d : ActionDependency)
    → pending bs ds d.after ≡ 0
    → Memᴰ d ds
    → is_emitted bs d.before ≡ true
pending-zero bs [] d h m = absurd (Memᴰ.not-nil m)
pending-zero bs (x ∷ ds) d h m = elim (Memᴰ.cases_cons m) [
  | inl e ↦ rw e (ground (arith, nat_beq_iff x.after x.after))
  | inr t ↦ pending-zero bs ds d (omega arith) t
]

-- Where something is pending, an action is still to come.
pub pending_witness :
    (bs : List Bool) (ds : List ActionDependency) (v : ActionId)
    → 0 < pending bs ds v
    → (d : ActionDependency) × Memᴰ d ds × (d.after ≡ v) × (is_emitted bs d.before ≡ false)
pending_witness bs [] v h = elim h [ ]
pending_witness bs (d ∷ ds) v h =
    elim (Bool-cases (nat_beq d.after v && not (is_emitted bs d.before))) [
      | inl q ↦ (d, Memᴰ.head refl, ground (arith, nat_beq_iff d.after v), ground arith)
      | inr q ↦ let (x, m, a, e) = pending_witness bs ds v (ground arith) in (x, Memᴰ.tail m, a, e)
    ]

pub pending_none :
    (bs : List Bool) (ds : List ActionDependency) (v : ActionId)
    → ((u : ActionId) → is_emitted bs u ≡ false)
    → pending bs ds v ≡ incoming ds v
pending_none bs [] v h = refl
pending_none bs (d ∷ ds) v h = ground (arith, pending_none bs ds v h, h d.before)

pub find_ready-some :
    (i : ℕ) (bs : List Bool) (ns : List ℕ) (u : ActionId)
    → find_ready i bs ns ≡ some u
    → (k : ℕ) × (u ≡ i + k) × (k < length bs) × (is_emitted bs k ≡ false) × (degree_at ns k ≡ 0)
unfolding find_ready
find_ready-some i [] ns u h = cc
find_ready-some i (b ∷ bs) [] u h = cc
find_ready-some i (b ∷ bs) (n ∷ ns) u h = elim (Bool-cases (not b && nat_beq n 0)) [
  | inl q ↦ (0, ground arith, omega arith, ground arith, ground arith)
  | inr q ↦
      let (k, e, l, b', d) = find_ready-some (i + 1) bs ns u (ground arith) in
      (suc k, omega arith, omega arith, b', d)
]

pub find_ready-none :
    (i : ℕ) (bs : List Bool) (ns : List ℕ) (v : ActionId)
    → find_ready i bs ns ≡ none
    → length bs ≡ length ns
    → v < length bs
    → is_emitted bs v ≡ false
    → 0 < degree_at ns v
unfolding find_ready
find_ready-none i [] ns v h l b e = elim b [ ]
find_ready-none i (x ∷ bs) [] v h l b e = absurd (omega arith)
find_ready-none i (x ∷ bs) (n ∷ ns) zero h l b e = ground arith
find_ready-none i (x ∷ bs) (n ∷ ns) (suc v) h l b e =
    find_ready-none (i + 1) bs ns v (ground arith) (omega arith) (omega arith) e
