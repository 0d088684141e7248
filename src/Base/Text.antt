-- ===== src/Base/Text.antt =====
-- Texts compared whole: membership of a text in a list, and the code points of a literal.
use Prim.Native.Nat.{ℕ}
use Prim.Native.Char.{code}
use Prim.Native.String.{String}
use mathlib.Core.Path.{◌≡◌}
use mathlib.Core.Bool.{Bool, true, false, ◌||◌}
use mathlib.Core.Logic.{◌↔◌}
use mathlib.Core.List.{List, [], ◌∷◌}
use native.Mathlib.Omega.{arith}
use text.Mathlib.Text.{◌==◌}
use text.Mathlib.TextEquality.{eq_iff}
use lua_mongodb.Base.Lists.{In}

abbrev pub codes : String → List ℕ
codes String.[] = []
codes (String.◌∷◌ c s) = code c ∷ codes s

-- `x in xs`
abbrev pub contains : List String → String → Bool
contains [] a = false
contains (x ∷ xs) a = a == x || contains xs a

pub contains_iff : (xs : List String) (a : String) → (contains xs a ≡ true) ↔ In a xs
contains_iff [] a = (λ h. cc, λ h. absurd h)
contains_iff (x ∷ xs) a = ground (arith, eq_iff a x, contains_iff xs a)
