-- ===== src/Common/Text.antt =====
-- Text as its Unicode scalar values. UTF-8 keeps their order, so comparing lists of them compares
-- strings.
use Prim.Native.Nat.{ℕ}
use Prim.Native.Char.{code}
use Prim.Native.String.{String}
use mathlib.Core.Bool.{Bool, true, false, ◌&&◌, ◌||◌}
use mathlib.Core.List.{List, [], ◌∷◌}
use um_fantasy_league.Common.Tests.{ltb, eqb}

abbrev pub Text : Type 0
Text = List ℕ

abbrev pub codes : String → Text
codes String.[] = []
codes (String.◌∷◌ c s) = code c ∷ codes s

-- `a <= b`, in byte order
abbrev pub leb_text : Text → Text → Bool
leb_text [] ys = true
leb_text (x ∷ xs) [] = false
leb_text (x ∷ xs) (y ∷ ys) = ltb x y || eqb x y && leb_text xs ys
