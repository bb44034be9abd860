-- ===== src/Base/Distinct.antt =====
-- Lists of identifiers with no repetition.
use Prim.Native.String.{String}
use mathlib.Core.Path.{◌≡◌}
use mathlib.Core.Bool.{false}
use mathlib.Core.List.{List, [], ◌∷◌, ◌++◌}
use native.Mathlib.Omega.{arith}
use text.Mathlib.Text.{◌==◌ as str_eq}
use text.Mathlib.TextEquality.{eq_iff}
use rust_ia_micro_agents.Base.Lists.{All}

-- The identifier is not in the list.
abbrev pub IsFresh : String → List String → Type 0
IsFresh i is = All (λ j. str_eq j i ≡ false) is

-- No identifier stands twice in the list.
abbrev pub AreDistinct : List String → Type 0
AreDistinct [] = Unit
AreDistinct (i ∷ is) = IsFresh i is × AreDistinct is

IsFresh-snoc :
    (i j : String) (is : List String) → str_eq j i ≡ false → IsFresh i is → IsFresh i (is ++ j ∷ [])
IsFresh-snoc i j [] ne f = (ne, tt)
IsFresh-snoc i j (k ∷ ks) ne f = (f.0, IsFresh-snoc i j ks ne f.1)

-- A fresh identifier may be added at the end.
pub AreDistinct-snoc :
    (i : String) (is : List String) → IsFresh i is → AreDistinct is → AreDistinct (is ++ i ∷ [])
AreDistinct-snoc i [] f d = (tt, tt)
AreDistinct-snoc i (j ∷ js) f d = (
  IsFresh-snoc j i js (ground (arith, eq_iff i j, eq_iff j i)) d.0,
  AreDistinct-snoc i js f.1 d.1,
)
