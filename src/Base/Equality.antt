-- ===== src/Base/Equality.antt =====
-- `PartialEq` as an interface: a Boolean test that decides equality.
use Prim.Native.Nat.{ℕ}
use mathlib.Core.Path.{◌≡◌, refl}
use mathlib.Core.Logic.{◌↔◌}
use mathlib.Core.Bool.{Bool, true, false}
use mathlib.Core.List.{List, [], ◌∷◌, Memᴰ}
use mathlib.Core.List.Memᴰ
use native.Mathlib.Omega.{arith}
use pdisks.Base.Tests.{nat_beq, nat_beq_iff}
use pdisks.Base.Lists.{any, Memᴰ-cons}

pub record Eq {ℓ} (A : Type ℓ) : Type ℓ where
  pub same : A → A → Bool
  pub same_iff : (x y : A) → (same x y ≡ true) ↔ (x ≡ y)

instance abbrev pub nat_eq : Eq ℕ
nat_eq = record { same = nat_beq; same_iff = nat_beq_iff }

infix 50 ◌==◌
abbrev pub ◌==◌ {ℓ} : {A : Type ℓ} ⦃e : Eq A⦄ → A → A → Bool
◌==◌ ⦃e⦄ = e.same

abbrev pub discrete_beq {ℓ} : {A : Type ℓ} → Discrete A → A → A → Bool
discrete_beq d a b = elim (d a b) [ yes _ ↦ true | no _ ↦ false ]

pub discrete_beq_iff {ℓ} :
    {A : Type ℓ} (d : Discrete A) (a b : A) → (discrete_beq d a b ≡ true) ↔ (a ≡ b)
discrete_beq_iff d a b = go (d a b)
  where
    go : (c : Dec (a ≡ b)) → ((elim c [ yes _ ↦ true | no _ ↦ false ]) ≡ true) ↔ (a ≡ b)
    go (yes p) = (λ _. p, λ _. refl)
    go (no n) = (λ h. cc, λ p. absurd (n p))

-- The test of a type whose equality is decided.
abbrev pub eq_of_discrete {ℓ} : {A : Type ℓ} → Discrete A → Eq A
eq_of_discrete d = record { same = discrete_beq d; same_iff = discrete_beq_iff d }

-- `contains` of a slice or a set.
abbrev pub contains {ℓ} : {A : Type ℓ} ⦃e : Eq A⦄ → List A → A → Bool
contains xs a = any (λ x. x == a) xs

pub contains_iff {ℓ} :
    {A : Type ℓ} ⦃e : Eq A⦄ (xs : List A) (a : A) → (contains xs a ≡ true) ↔ Memᴰ a xs
contains_iff [] a = (λ h. cc, λ h. absurd (Memᴰ.not-nil h))
contains_iff ⦃e⦄ (x ∷ xs) a =
    ground (arith, e.same_iff x a, contains_iff ⦃e = e⦄ xs a, Memᴰ-cons a x xs)

-- The library's decision for lists is shut; this one computes.
unfoldable pub lists_discrete {ℓ} : {A : Type ℓ} → Discrete A → Discrete (List A)
lists_discrete d [] [] = yes refl
lists_discrete d [] (y ∷ ys) = no (λ p. cc)
lists_discrete d (x ∷ xs) [] = no (λ p. cc)
lists_discrete d (x ∷ xs) (y ∷ ys) = elim (d x y) [
  | no n ↦ no (λ p. n cc)
  | yes p ↦ elim (lists_discrete d xs ys) [ no n ↦ no (λ q. n cc) | yes q ↦ yes (λ i. p i ∷ q i) ]
]
