-- ===== src/Engine/Simulate/Evidence/Edges.antt =====
-- storage-engine/src/simulation_evidence.rs: the children that the searches push, as edges.
use mathlib.Core.List.{Memᴰ}
use mathlib.Core.List.Memᴰ
use pdisks.Base.{
  ◌+◌, ◌≤◌, ◌≡◌, ◌↔◌, inl, inr, refl, sym, ap, ◌∙◌, subst, List, [], ◌∷◌, map, Bool, true, ◌&&◌,
  ◌==◌, arith, nat_beq, nat_beq_iff, nat_eq, leb, length, length-append, filter, filter-cons_true,
  filter-cons_false, Bool-cases, Memᴰ-concat, Memᴰ-cons, if◌then◌else◌,
}
use pdisks.Core.Node.{NodeId}
use pdisks.Core.Graph.{Dependency}
use pdisks.Core.State.{DesiredState}
use pdisks.Engine.Simulate.Evidence.{
  insert_sorted, sort, reverse, children, content_children, carries_content,
}
use pdisks.Engine.Simulate.Evidence.Reach.{outs}

-- The ends of the dependencies that pass a test.
abbrev pub pairs : (Dependency → Bool) → List Dependency → List (NodeId × NodeId)
pairs p [] = []
pairs p (d ∷ ds) = let rest = pairs p ds in if p d then (d.from, d.to) ∷ rest else rest

abbrev pub all_edges : DesiredState → List (NodeId × NodeId)
all_edges desired = pairs (λ d. true) desired.graph.dependencies

abbrev pub content_edges : DesiredState → List (NodeId × NodeId)
content_edges desired = pairs (λ d. carries_content d.kind) desired.graph.dependencies

pub length-pairs : (p : Dependency → Bool) (ds : List Dependency) → length (pairs p ds) ≤ length ds
length-pairs p [] = omega arith
length-pairs p (d ∷ ds) = ground (arith, length-pairs p ds)

reverse_iff : (v : NodeId) (xs : List NodeId) → Memᴰ v (reverse xs) ↔ Memᴰ v xs
reverse_iff v [] = ((λ m. m), λ m. m)
reverse_iff v (x ∷ xs) =
    ground (arith, reverse_iff v xs, Memᴰ-concat v x (reverse xs), Memᴰ-cons v x xs)

length-reverse : (xs : List NodeId) → length (reverse xs) ≡ length xs
length-reverse [] = refl
length-reverse (x ∷ xs) = omega (arith, length-reverse xs, length-append (reverse xs) (x ∷ []))

insert_sorted_iff :
    (v x : NodeId) (xs : List NodeId) → Memᴰ v (insert_sorted x xs) ↔ Memᴰ v (x ∷ xs)
insert_sorted_iff v x [] = ((λ m. m), λ m. m)
insert_sorted_iff v x (y ∷ ys) = elim (Bool-cases (leb x y)) [
  | inl q ↦ rw q ((λ m. m), λ m. m)
  | inr q ↦ rw q (
      ground (
        arith,
        insert_sorted_iff v x ys,
        Memᴰ-cons v y (insert_sorted x ys),
        Memᴰ-cons v x (y ∷ ys),
        Memᴰ-cons v y ys,
        Memᴰ-cons v x ys,
      ))
]

length-insert_sorted : (x : NodeId) (xs : List NodeId) → length (insert_sorted x xs) ≡ length xs + 1
length-insert_sorted x [] = omega arith
length-insert_sorted x (y ∷ ys) = ground (arith, length-insert_sorted x ys)

sort_iff : (v : NodeId) (xs : List NodeId) → Memᴰ v (sort xs) ↔ Memᴰ v xs
sort_iff v [] = ((λ m. m), λ m. m)
sort_iff v (x ∷ xs) = ground (
  arith,
  sort_iff v xs,
  insert_sorted_iff v x (sort xs),
  Memᴰ-cons v x xs,
  Memᴰ-cons v x (sort xs),
)

length-sort : (xs : List NodeId) → length (sort xs) ≡ length xs
length-sort [] = refl
length-sort (x ∷ xs) = omega (arith, length-sort xs, length-insert_sorted x (sort xs))

abbrev targets : (Dependency → Bool) → List Dependency → List NodeId
targets q ds = map (λ d. d.to) (filter q ds)

module _ (q p : Dependency → Bool) (n : NodeId)
    (agree : (d : Dependency) → (q d ≡ true) ↔ ((d.from ≡ n) × (p d ≡ true))) where
  pub targets_iff :
      (ds : List Dependency) (v : NodeId) → Memᴰ v (targets q ds) ↔ Memᴰ (n, v) (pairs p ds)
  targets_iff [] v = ((λ m. absurd (Memᴰ.not-nil m)), λ m. absurd (Memᴰ.not-nil m))
  targets_iff (d ∷ ds) v = elim (Bool-cases (q d)) [
    | inl h ↦
        let (e, k) = (agree d).0 h in
        let (to, from) = targets_iff ds v in
        rw (filter-cons_true q d ds h, k)
          (
            (λ m. elim (Memᴰ.cases_cons m) [
              | inl x ↦ Memᴰ.head (λ i. (sym e i, x i))
              | inr t ↦ Memᴰ.tail (to t)
            ]),
            λ m. elim (Memᴰ.cases_cons m) [
              | inl x ↦ Memᴰ.head (ap (λ y. y.1) x)
              | inr t ↦ Memᴰ.tail (from t)
            ],
          )
    | inr h ↦
        let (to, from) = targets_iff ds v in
        rw (filter-cons_false q d ds h) (
          (λ m. elim (Bool-cases (p d)) [ inl k ↦ rw k (Memᴰ.tail (to m)) | inr k ↦ rw k (to m) ]),
          λ m. elim (Bool-cases (p d)) [
            | inl k ↦
                elim (Memᴰ.cases_cons (
                  subst (λ b. Memᴰ (n, v) (if b then (d.from, d.to) ∷ pairs p ds else pairs p ds)) k
                    m)) [
                      | inl x ↦ let c = (agree d).1 (sym (ap (λ y. y.0) x), k) in cc
                      | inr t ↦ from t
                    ]
            | inr k ↦ from (
                subst (λ b. Memᴰ (n, v) (if b then (d.from, d.to) ∷ pairs p ds else pairs p ds)) k
                  m)
          ],
        )
  ]

  pub length-targets : (ds : List Dependency) → length (targets q ds) ≡ outs n (pairs p ds)
  length-targets [] = refl
  length-targets (d ∷ ds) = elim (Bool-cases (q d)) [
    | inl h ↦
        let (e, k) = (agree d).0 h in
        let same = (nat_beq_iff d.from n).1 e in
        rw (filter-cons_true q d ds h, k, same) (omega (arith, length-targets ds))
    | inr h ↦ rw (filter-cons_false q d ds h) (elim (Bool-cases (p d)) [
      | inl k ↦ elim (Bool-cases (nat_beq d.from n)) [
        | inl x ↦ let c = (agree d).1 ((nat_beq_iff d.from n).0 x, k) in cc
        | inr x ↦ rw (k, x) (omega (arith, length-targets ds))
      ]
      | inr k ↦ rw k (length-targets ds)
    ])
  ]

-- What `children` pushes for a node are the ends of its edges, one for each edge.
pub children_iff :
    (desired : DesiredState) (n v : NodeId)
    → Memᴰ v (children desired n) ↔ Memᴰ (n, v) (all_edges desired)
children_iff desired n v =
    let ds = desired.graph.dependencies in
    let q = λ (d : Dependency). d.from == n in
    let p = λ (d : Dependency). true in
    let t =
      targets_iff q p n
        (λ d. ((λ h. ((nat_beq_iff d.from n).0 h, refl)), λ h. (nat_beq_iff d.from n).1 h.0)) ds
        v in
    let r = reverse_iff v (sort (targets q ds)) in
    let s = sort_iff v (targets q ds) in ((λ m. t.0 (s.0 (r.0 m))), λ m. r.1 (s.1 (t.1 m)))

pub length-children :
    (desired : DesiredState) (n : NodeId) → length (children desired n) ≡ outs n (all_edges desired)
length-children desired n =
    let ds = desired.graph.dependencies in
    let q = λ (d : Dependency). d.from == n in
    let p = λ (d : Dependency). true in
    length-reverse (sort (targets q ds))
    ∙ length-sort (targets q ds)
    ∙ length-targets q p n
        (λ d. ((λ h. ((nat_beq_iff d.from n).0 h, refl)), λ h. (nat_beq_iff d.from n).1 h.0)) ds

content_test :
    (n : NodeId) (d : Dependency)
    → (((d.from == n) && carries_content d.kind) ≡ true)
      ↔ ((d.from ≡ n) × (carries_content d.kind ≡ true))
content_test n d = ground (arith, nat_beq_iff d.from n)

pub content_children_iff :
    (desired : DesiredState) (n v : NodeId)
    → Memᴰ v (content_children desired n) ↔ Memᴰ (n, v) (content_edges desired)
content_children_iff desired n v =
    let ds = desired.graph.dependencies in
    let q = λ (d : Dependency). (d.from == n) && carries_content d.kind in
    let p = λ (d : Dependency). carries_content d.kind in
    let t = targets_iff q p n (content_test n) ds v in
    let r = reverse_iff v (targets q ds) in ((λ m. t.0 (r.0 m)), λ m. r.1 (t.1 m))

pub length-content_children :
    (desired : DesiredState) (n : NodeId)
    → length (content_children desired n) ≡ outs n (content_edges desired)
length-content_children desired n =
    let ds = desired.graph.dependencies in
    let q = λ (d : Dependency). (d.from == n) && carries_content d.kind in
    let p = λ (d : Dependency). carries_content d.kind in
    length-reverse (targets q ds) ∙ length-targets q p n (content_test n) ds
