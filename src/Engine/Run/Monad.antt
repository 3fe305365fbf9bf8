-- ===== src/Engine/Run/Monad.antt =====
-- A method of a run takes the run and returns the run that it leaves and its result: a value, an
-- error of the source, or the panic of an index out of bounds.
use pdisks.Base.{Bool, true, false, Option, none, some, Result, ok, err}
use pdisks.Engine.Run.Defs.{ExecutionRun, ExecutionRunError}

pub data Stop : Type 0 where
  error : ExecutionRunError → Stop
  panic : Stop

abbrev pub Outcome : Type 0 → Type 0
Outcome A = Result Stop A

abbrev pub M : Type 0 → Type 0
M A = ExecutionRun → ExecutionRun × Outcome A

abbrev pub and_then :
    {A B : Type 0} → ExecutionRun × Outcome A → (A → M B) → ExecutionRun × Outcome B
and_then (s, ok a) f = f a s
and_then (s, err e) f = (s, err e)

infixl 5 ◌>>=◌ ◌>>◌
abbrev pub ◌>>=◌ : {A B : Type 0} → M A → (A → M B) → M B
◌>>=◌ m f s = and_then (m s) f

abbrev pub ◌>>◌ : {B : Type 0} → M (Unit {0}) → M B → M B
◌>>◌ m k = m >>= λ _. k

abbrev pub pure : {A : Type 0} → A → M A
pure a s = (s, ok a)

abbrev pub throw : {A : Type 0} → ExecutionRunError → M A
throw e s = (s, err (error e))

abbrev pub get : M ExecutionRun
get s = (s, ok s)

abbrev pub modify : (ExecutionRun → ExecutionRun) → M (Unit {0})
modify f s = (f s, ok tt)

-- `if !test { return Err(e) }`
abbrev pub guard : Bool → ExecutionRunError → M (Unit {0})
guard true e s = (s, ok tt)
guard false e s = (s, err (error e))

-- An index `xs[i]` that has been looked up.
abbrev pub index : {A : Type 0} → Option A → M A
index none s = (s, err panic)
index (some a) s = (s, ok a)

-- `ok_or(e)?`
abbrev pub found : {A : Type 0} → Option A → ExecutionRunError → M A
found none e s = (s, err (error e))
found (some a) e s = (s, ok a)
