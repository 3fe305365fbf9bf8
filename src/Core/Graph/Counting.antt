-- ===== src/Core/Graph/Counting.antt =====
-- storage-core/src/model/graph.rs: two sets of one size, one within the other, are the same.
use mathlib.Core.List.{Memᴰ}
use mathlib.Core.List.Memᴰ
use pdisks.Base.{
  suc, ◌≤◌, ◌≡◌, ◌≢◌, inl, inr, refl, sym, ◌∙◌, List, [], ◌∷◌, arith, Eq, ◌==◌, contains,
  contains_iff, Unrepeated, Bool-cases, length,
}
use pdisks.Core.Graph.{remove_member}

module _ {ℓ} {A : Type ℓ} ⦃e : Eq A⦄ where
  length-remove_member :
      (xs : List A) (x : A) → Memᴰ x xs → suc (length (remove_member x xs)) ≡ length xs
  length-remove_member [] x m = absurd (Memᴰ.not-nil m)
  length-remove_member (y ∷ xs) x m = elim (Bool-cases (y == x)) [
    | inl q ↦ ground arith
    | inr q ↦ elim (Memᴰ.cases_cons m) [
      | inl same ↦ let k = (e.same_iff y x).1 (sym same) in absurd (ground arith)
      | inr t ↦ ground (arith, length-remove_member xs x t)
    ]
  ]

  mem-remove_member : (xs : List A) (x a : A) → Memᴰ a xs → a ≢ x → Memᴰ a (remove_member x xs)
  mem-remove_member [] x a m n = m
  mem-remove_member (y ∷ xs) x a m n = elim (Bool-cases (y == x)) [
    | inl q ↦
        let same = (e.same_iff y x).0 q in
        rw (q, remove_member)
          (elim (Memᴰ.cases_cons m) [ inl k ↦ absurd (n (k ∙ same)) | inr t ↦ t ])
    | inr q ↦
        rw (q, remove_member)
          (elim (Memᴰ.cases_cons m) [
            | inl k ↦ Memᴰ.head k
            | inr t ↦ Memᴰ.tail (mem-remove_member xs x a t n)
          ])
  ]

  length-subset :
      (xs ys : List A) → Unrepeated xs → ((a : A) → Memᴰ a xs → Memᴰ a ys) → length xs ≤ length ys
  length-subset [] ys u s = omega arith
  length-subset (x ∷ xs) ys (fresh, u) s =
      let m = s x (Memᴰ.head refl) in
      omega (
        arith,
        length-remove_member ys x m,
        length-subset xs (remove_member x ys) u
            λ a t. mem-remove_member ys x a (s a (Memᴰ.tail t)) λ same. fresh (rw (← same) t),
      )

  -- A set within another of no greater size is all of it.
  pub subset-full :
      (xs ys : List A)
      → Unrepeated xs
      → ((a : A) → Memᴰ a xs → Memᴰ a ys)
      → length ys ≤ length xs
      → (b : A) → Memᴰ b ys
      → Memᴰ b xs
  subset-full xs ys u s l b m = elim (Bool-cases (contains xs b)) [
    | inl q ↦ (contains_iff xs b).0 q
    | inr q ↦
        let more =
          length-subset (b ∷ xs) ys
            ((λ t. let k = (contains_iff xs b).1 t in absurd (ground arith)), u)
            (λ a t. elim (Memᴰ.cases_cons t) [ inl same ↦ rw same m | inr k ↦ s a k ]) in
        absurd (omega arith)
  ]
