-- ===== src/Base/Results.antt =====
-- `Result<T, E>` of the source, with `?` as `do`.
use mathlib.Core.Path.{◌≡◌, refl}
use mathlib.Core.Logic.{◌⊎◌, inl, inr}
use mathlib.Core.Bool.{Bool, true, false}
use mathlib.Core.Option.{Option, none, some}

pub data Result {ℓ ι} (Failure : Type ℓ) (A : Type ι) : Type (ℓ ⊔ ι) where
  ok : A → Result Failure A
  err : Failure → Result Failure A

pub Result-cases {ℓ ι} :
    {Failure : Type ℓ} {A : Type ι} (r : Result Failure A)
    → ((a : A) × (r ≡ ok a)) ⊎ ((e : Failure) × (r ≡ err e))
Result-cases (ok a) = inl (a, refl)
Result-cases (err e) = inr (e, refl)

-- `Option::ok_or`
abbrev pub ok_or {ℓ ι} : {Failure : Type ℓ} {A : Type ι} → Option A → Failure → Result Failure A
ok_or none e = err e
ok_or (some a) e = ok a

-- `if !test { return Err(e) }`
abbrev pub require {ℓ} : {Failure : Type ℓ} → Bool → Failure → Result Failure (Unit {0})
require true e = ok tt
require false e = err e

abbrev pub and_then {ℓ ι μ} :
    {Failure : Type ℓ} {A : Type ι} {B : Type μ}
    → (A → Result Failure B)
    → Result Failure A
    → Result Failure B
and_then f (err e) = err e
and_then f (ok a) = f a

infixl 5 ◌>>=◌ ◌>>◌
abbrev pub ◌>>=◌ {ℓ ι μ} :
    {Failure : Type ℓ} {A : Type ι} {B : Type μ}
    → Result Failure A
    → (A → Result Failure B)
    → Result Failure B
m >>= f = and_then f m

abbrev pub ◌>>◌ {ℓ ι} :
    {Failure : Type ℓ} {B : Type ι}
    → Result Failure (Unit {0})
    → Result Failure B
    → Result Failure B
m >> k = m >>= λ _. k

pub require-eq-ok {ℓ ι} :
    {Failure : Type ℓ} {B : Type ι} (t : Bool) (e : Failure) (k : Result Failure B) {b : B}
    → (require t e >> k) ≡ ok b
    → (t ≡ true) × (k ≡ ok b)
require-eq-ok true e k h = (refl, h)
require-eq-ok false e k h = cc

pub >>=-eq-ok {ℓ ι μ} :
    {Failure : Type ℓ} {A : Type ι} {B : Type μ} {b : B} (m : Result Failure A)
    (f : A → Result Failure B)
    → (m >>= f) ≡ ok b
    → (a : A) × (m ≡ ok a) × (f a ≡ ok b)
>>=-eq-ok (err e) f h = cc
>>=-eq-ok (ok a) f h = (a, refl, h)
