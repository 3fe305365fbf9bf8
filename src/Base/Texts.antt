-- ===== src/Base/Texts.antt =====
-- Equality of texts.
use Prim.Native.String.{String}
use mathlib.Core.Path.{◌≡◌}
use mathlib.Core.Logic.{inl, inr}
use mathlib.Core.Bool.{true, false}
use text.Mathlib.Text.{◌==◌ as str_eq}
use text.Mathlib.TextEquality.{eq_iff}
use pdisks.Base.Tests.{Bool-cases}
use pdisks.Base.Equality.{Eq}

instance abbrev pub string_eq : Eq String
string_eq = record { same = str_eq; same_iff = eq_iff }

unfoldable pub String-discrete : Discrete String
String-discrete s t = elim (Bool-cases (str_eq s t)) [
  | inl e ↦ yes ((eq_iff s t).0 e)
  | inr e ↦ no (λ p. differ e ((eq_iff s t).1 p))
]
  where
    differ : str_eq s t ≡ false → str_eq s t ≡ true → ⊥
    differ e p = cc
