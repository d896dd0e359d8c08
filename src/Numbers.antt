-- ===== src/Numbers.antt =====
-- The `f64` and `Decimal` arithmetic that the code uses, as parameters, and `round2` of
-- backend-rs/crates/umfl-domain/src/rounding.rs over them. `Decimal` is the type of the `rust_decimal`
-- crate.
use um_fantasy_league.Common.{
  ℤ, pos, ◌+ℤ◌, ◌*ℤ◌, ltb_ℤ, eqb_ℤ, Bool, ◌≡◌, refl, List, [], ◌∷◌, arith, ap, ◌∙◌,
}
use um_fantasy_league.Common.Orders.{IsLinear}

pub record Numbers : Type 1 where
  pub F : Type 0
  pub D : Type 0
  -- `f64::from` of an `i32`
  pub of_i32 : ℤ → F
  pub add : F → F → F
  pub mul : F → F → F
  pub eq : F → F → Bool
  pub lt : F → F → Bool
  pub decimal_zero : D
  -- `to_f64().expect(…)`
  pub to_f64 : D → F
  -- `Decimal::from_str(&format!("{value}"))`, for the values that a `Decimal` can represent
  pub shortest : F → D
  -- `round_dp_with_strategy(2, MidpointAwayFromZero)`
  pub round_dp2 : D → D

-- What IEEE 754 says of the comparisons of numbers that are not NaN, with the two zeros taken as one.
abbrev pub IsOrdered : Numbers → Type 0
IsOrdered n = IsLinear n.eq n.lt

-- What the crate documents: a rounded decimal has two digits after the point, which its shortest `f64`
-- reads back, and rounding it again changes nothing.
pub record IsRounding (n : Numbers) : Type 0 where
  pub reads_back : (d : n.D) → n.shortest (n.to_f64 (n.round_dp2 d)) ≡ n.round_dp2 d
  pub round_idem : (d : n.D) → n.round_dp2 (n.round_dp2 d) ≡ n.round_dp2 d

module _ (n : Numbers) where
  open n use {F, D, of_i32, add, to_f64, shortest, round_dp2}

  unfoldable pub round2 : F → F
  round2 value = to_f64 (round_dp2 (shortest value))

  abbrev pub zero_f : F
  zero_f = of_i32 (pos 0)

  abbrev pub one_f : F
  one_f = of_i32 (pos 1)

  -- `iter().sum::<f64>()`, from `acc` on
  abbrev pub sum_from : F → List F → F
  sum_from acc [] = acc
  sum_from acc (x ∷ xs) = sum_from (add acc x) xs

  abbrev pub sum_f : List F → F
  sum_f = sum_from zero_f

  -- Rounding a rounded number changes nothing.
  pub round2_idem : IsRounding n → (x : F) → round2 (round2 x) ≡ round2 x
  unfolding round2
  round2_idem r x = ap to_f64 (ap round_dp2 (r.reads_back (shortest x)) ∙ r.round_idem (shortest x))

-- Whole numbers for both types show that the assumptions can be met.
abbrev pub whole : Numbers
whole = record {
  F = ℤ;
  D = ℤ;
  of_i32 = λ a. a;
  add = ◌+ℤ◌;
  mul = ◌*ℤ◌;
  eq = eqb_ℤ;
  lt = ltb_ℤ;
  decimal_zero = pos 0;
  to_f64 = λ a. a;
  shortest = λ a. a;
  round_dp2 = λ a. a;
}

pub whole-IsOrdered : IsOrdered whole
whole-IsOrdered = record {
  eq_iff = λ a b. ground arith;
  irrefl = λ a. ground arith;
  trans = λ a b c h k. ground arith;
  total = λ a b h k. ground arith;
}

pub whole-IsRounding : IsRounding whole
whole-IsRounding = record { reads_back = λ d. refl; round_idem = λ d. refl }
