-- ===== src/Base/Maps.antt =====
-- A `HashMap` as a list of entries and a `HashSet` as a list of members.
use mathlib.Core.Path.{◌≡◌, refl, sym, ◌∙◌}
use mathlib.Core.Logic.{◌≢◌, ◌↔◌, ◌⊎◌, inl, inr}
use mathlib.Core.List.{List, [], ◌∷◌, ◌++◌}
use mathlib.Core.Option.{Option, none, some}
use native.Mathlib.Omega.{arith}
use mathlib.Core.Bool.{false}
use pdisks.Base.Tests.{Bool-cases, if◌then◌else◌}
use pdisks.Base.Equality.{Eq, ◌==◌, contains}

module _ {ℓ κ} {K : Type ℓ} {V : Type κ} ⦃e : Eq K⦄ where
  abbrev pub get_key : List (K × V) → K → Option V
  get_key [] k = none
  get_key ((j, v) ∷ m) k = if j == k then some v else get_key m k

  -- `HashMap::remove`
  abbrev pub drop_key : List (K × V) → K → List (K × V)
  drop_key [] k = []
  drop_key ((j, v) ∷ m) k = let rest = drop_key m k in if j == k then rest else (j, v) ∷ rest

  -- `HashMap::insert`
  abbrev pub put_key : List (K × V) → K → V → List (K × V)
  put_key m k v = (k, v) ∷ drop_key m k

  pub get-drop_self : (m : List (K × V)) (k : K) → get_key (drop_key m k) k ≡ none
  get-drop_self [] k = refl
  get-drop_self ((j, v) ∷ m) k = ground (arith, get-drop_self m k)

  pub get-drop_ne : (m : List (K × V)) (j k : K) → j ≢ k → get_key (drop_key m j) k ≡ get_key m k
  get-drop_ne [] j k n = refl
  get-drop_ne ((i, v) ∷ m) j k n = elim (Bool-cases (i == j)) [
    | inl q ↦
        let p : i ≡ j = (e.same_iff i j).0 q in
        elim (Bool-cases (i == k)) [
          | inl r ↦ absurd (n (sym p ∙ (e.same_iff i k).0 r))
          | inr r ↦ ground (arith, get-drop_ne m j k n)
        ]
    | inr q ↦ ground (arith, get-drop_ne m j k n)
  ]

  pub get-put_self : (m : List (K × V)) (k : K) (v : V) → get_key (put_key m k v) k ≡ some v
  get-put_self m k v = let h = (e.same_iff k k).1 refl in rw h refl

  pub get-put_ne :
      (m : List (K × V)) (j k : K) (v : V) → j ≢ k → get_key (put_key m j v) k ≡ get_key m k
  get-put_ne m j k v n = elim (Bool-cases (j == k)) [
    | inl q ↦ absurd (n ((e.same_iff j k).0 q))
    | inr q ↦ rw q (get-drop_ne m j k n)
  ]

module _ {ℓ} {A : Type ℓ} ⦃e : Eq A⦄ where
  -- `HashSet::insert`
  abbrev pub put_member : List A → A → List A
  put_member xs a = if contains xs a then xs else xs ++ a ∷ []

  -- `HashSet::remove`
  abbrev pub drop_member : List A → A → List A
  drop_member [] a = []
  drop_member (x ∷ xs) a = let rest = drop_member xs a in if x == a then rest else x ∷ rest

  pub contains-drop :
      (xs : List A) (a b : A)
      → (contains (drop_member xs a) b ≡ false) ↔ ((contains xs b ≡ false) ⊎ (b ≡ a))
  contains-drop [] a b = ((λ h. inl refl), λ h. refl)
  contains-drop (x ∷ xs) a b = ground (arith, contains-drop xs a b, e.same_iff x a, e.same_iff x b)
