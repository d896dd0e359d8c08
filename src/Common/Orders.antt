-- ===== src/Common/Orders.antt =====
-- The orders by which the code sorts: integers, pairs of integers and text.
use um_fantasy_league.Common.Int.{ℤ, leb_ℤ, eqb_ℤ, ltb_ℤ}
use um_fantasy_league.Common.Sorting.{IsOrder}
use um_fantasy_league.Common.Text.{Text, leb_text}
use mathlib.Core.Path.{◌≡◌, refl}
use mathlib.Core.Logic.{◌↔◌}
use mathlib.Core.Bool.{Bool, true, false, ◌&&◌, ◌||◌}
use mathlib.Core.List.{[], ◌∷◌}
use native.Mathlib.Omega.{arith}

-- Two tests that compare as a linear order does.
pub record IsLinear {F : Type 0} (eq lt : F → F → Bool) : Type 0 where
  pub eq_iff : (a b : F) → (eq a b ≡ true) ↔ (a ≡ b)
  pub irrefl : (a : F) → lt a a ≡ false
  pub trans : (a b c : F) → lt a b ≡ true → lt b c ≡ true → lt a c ≡ true
  pub total : (a b : F) → lt a b ≡ false → lt b a ≡ false → a ≡ b

pub leb_ℤ-IsOrder : IsOrder leb_ℤ
leb_ℤ-IsOrder = record { total = λ x y h. ground arith; trans = λ x y z h k. ground arith }

-- The order of tuples.
abbrev pub leb_pair : ℤ × ℤ → ℤ × ℤ → Bool
leb_pair (a, b) (c, d) = ltb_ℤ a c || eqb_ℤ a c && leb_ℤ b d

leb_text_total : (xs ys : Text) → leb_text xs ys ≡ false → leb_text ys xs ≡ true
leb_text_total [] ys h = cc
leb_text_total (x ∷ xs) [] h = refl
leb_text_total (x ∷ xs) (y ∷ ys) h = ground (arith, leb_text_total xs ys)

leb_text_trans :
    (xs ys zs : Text) → leb_text xs ys ≡ true → leb_text ys zs ≡ true → leb_text xs zs ≡ true
leb_text_trans [] ys zs h k = refl
leb_text_trans (x ∷ xs) [] zs h k = cc
leb_text_trans (x ∷ xs) (y ∷ ys) [] h k = cc
leb_text_trans (x ∷ xs) (y ∷ ys) (z ∷ zs) h k = ground (arith, leb_text_trans xs ys zs)

pub leb_text-IsOrder : IsOrder leb_text
leb_text-IsOrder = record { total = leb_text_total; trans = leb_text_trans }
