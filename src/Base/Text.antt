-- ===== src/Base/Text.antt =====
-- Equality of texts as a decision. It stays shut in proofs, where a split on it yields the equation
-- or its negation; tests unfold `String_discrete`.
use Prim.Native.String.{String}
use mathlib.Core.Logic.{ite, dite}
use mathlib.Core.Bool.{Bool, true, false, Bool-discrete}
use mathlib.Core.Path.{◌≡◌}
use mathlib.Core.Logic.{◌≢◌}
use native.Mathlib.Omega.{arith}
use mathlib.Core.List.{List}
use text.Mathlib.Text
use text.Mathlib.TextEquality.{eq_iff}
use binbot.Base.Lists.{any}

unfoldable pub String_discrete : Discrete String
String_discrete s t =
    dite (Bool-discrete (Text.◌==◌ s t) true) (λ same. yes ((eq_iff s t).0 same))
      (λ differ. no (λ p. differ ((eq_iff s t).1 p)))

abbrev pub str_eq : String → String → Bool
str_eq s t = ite (String_discrete s t) true false

pub eq_of_str_eq : (s t : String) → str_eq s t ≡ true → s ≡ t
eq_of_str_eq s t h = ground arith

pub ne_of_str_eq : (s t : String) → str_eq s t ≡ false → s ≢ t
ne_of_str_eq s t h = ground arith

-- `s in xs`, for a list or a set of texts
abbrev pub member : String → List String → Bool
member s = any (str_eq s)
