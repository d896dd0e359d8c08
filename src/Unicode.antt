-- ===== src/Unicode.antt =====
-- What the code uses of the standard library's text functions: the character tables are parameters,
-- `trim`, `to_uppercase` and `split` are written out over them.
use um_fantasy_league.Common.{
  ℕ, ◌+◌, ◌-◌, Bool, true, false, ◌&&◌, ◌||◌, List, [], ◌∷◌, ◌++◌, leb, eqb, gather, if◌then◌else◌,
  ◌≡◌, arith, nat_eq,
}
use um_fantasy_league.Common.Text.{Text}
use mathlib.Core.List.{reverse}

pub record Unicode : Type 0 where
  -- `char::is_whitespace`
  pub is_whitespace : ℕ → Bool
  -- `char::to_uppercase`, one or more characters
  pub upper : ℕ → Text
  -- `str::to_lowercase`, which looks at a character's neighbours
  pub to_lowercase : Text → Text

abbrev pub is_ascii_uppercase : ℕ → Bool
is_ascii_uppercase c = leb 65 c && leb c 90

abbrev pub is_ascii_digit : ℕ → Bool
is_ascii_digit c = leb 48 c && leb c 57

-- What the standard library documents of upper-case letters, digits and `_`.
pub record IsUnicode (u : Unicode) : Type 0 where
  pub upper_fixed :
      (c : ℕ) → (is_ascii_uppercase c || is_ascii_digit c || eqb c 95) ≡ true → u.upper c ≡ c ∷ []
  pub not_space :
      (c : ℕ)
      → (is_ascii_uppercase c || is_ascii_digit c || eqb c 95) ≡ true
      → u.is_whitespace c ≡ false

module _ (u : Unicode) where
  open u use {is_whitespace, upper}

  abbrev pub trim_start : Text → Text
  trim_start [] = []
  trim_start (c ∷ cs) = let rest = trim_start cs in if is_whitespace c then rest else c ∷ cs

  unfoldable pub trim : Text → Text
  trim s = reverse (trim_start (reverse (trim_start s)))

  unfoldable pub to_uppercase : Text → Text
  to_uppercase = gather upper

-- `split(c)`: the parts between the separators, at least one.
abbrev pub push_front : ℕ → List Text → List Text
push_front c [] = (c ∷ []) ∷ []
push_front c (w ∷ ws) = (c ∷ w) ∷ ws

unfoldable pub split : ℕ → Text → List Text
split sep [] = [] ∷ []
split sep (c ∷ cs) = let rest = split sep cs in if eqb c sep then [] ∷ rest else push_front c rest

-- `join(sep)`
unfoldable pub join : Text → List Text → Text
join sep [] = []
join sep (w ∷ []) = w
join sep (w ∷ (v ∷ ws)) = w ++ (sep ++ join sep (v ∷ ws))

-- The tables of ASCII, and the identity elsewhere.
abbrev pub ascii : Unicode
ascii = record {
  is_whitespace = λ c. leb 9 c && leb c 13 || eqb c 32;
  upper = λ c. (if leb 97 c && leb c 122 then c - 32 else c) ∷ [];
  to_lowercase = gather λ c. (if leb 65 c && leb c 90 then c + 32 else c) ∷ [];
}

pub ascii-IsUnicode : IsUnicode ascii
ascii-IsUnicode = record { upper_fixed = λ c h. ground arith; not_space = λ c h. ground arith }
