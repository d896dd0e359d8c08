-- ===== src/Common/SortedLists.antt =====
-- Two sorted lists of integers with the same elements are the same list.
use um_fantasy_league.Common.Tests.{Bool-cases}
use um_fantasy_league.Common.Equality.{◌==◌, count, list_beq, list_beq_iff, ==_refl}
use um_fantasy_league.Common.Lists.{All}
use um_fantasy_league.Common.Int.{ℤ, leb_ℤ, int_eq, eqb_ℤ_iff}
use um_fantasy_league.Common.Sorting.{sort, IsSorted, sort-IsSorted, count-sort}
use um_fantasy_league.Common.Orders.{leb_ℤ-IsOrder}
use Prim.Native.Nat.{suc, ◌<◌}
use mathlib.Core.Path.{◌≡◌, refl, sym, ap, ◌∙◌}
use mathlib.Core.Logic.{◌↔◌, inl, inr}
use mathlib.Core.Bool.{true}
use mathlib.Core.List.{List, [], ◌∷◌}
use native.Mathlib.Omega.{arith}

count_self : (x : ℤ) (xs : List ℤ) → count x (x ∷ xs) ≡ suc (count x xs)
count_self x xs = rw (==_refl x) (omega arith)

-- An element that occurs is at least a lower bound of all.
bound_of_count :
    (b a : ℤ) (xs : List ℤ) → All (λ y. leb_ℤ b y ≡ true) xs → 0 < count a xs → leb_ℤ b a ≡ true
bound_of_count b a [] h k = absurd (omega arith)
bound_of_count b a (x ∷ xs) h k = elim (Bool-cases (x == a)) [
  | inl same ↦ rw (← (eqb_ℤ_iff x a).0 same) h.0
  | inr differ ↦ bound_of_count b a xs h.1 (ground arith)
]

leb_ℤ_antisymm : (a b : ℤ) → leb_ℤ a b ≡ true → leb_ℤ b a ≡ true → a ≡ b
leb_ℤ_antisymm a b h k = ground arith

leb_ℤ_refl : (a : ℤ) → leb_ℤ a a ≡ true
leb_ℤ_refl a = ground arith

abbrev pub SameCounts : List ℤ → List ℤ → Type 0
SameCounts xs ys = (a : ℤ) → count a xs ≡ count a ys

sorted_unique :
    (xs ys : List ℤ) → IsSorted leb_ℤ xs → IsSorted leb_ℤ ys → SameCounts xs ys → xs ≡ ys
sorted_unique [] [] s t h = refl
sorted_unique [] (y ∷ ys) s t h = absurd (omega (arith, h y, count_self y ys))
sorted_unique (x ∷ xs) [] s t h = absurd (omega (arith, h x, count_self x xs))
sorted_unique (x ∷ xs) (y ∷ ys) s t h =
    let below : leb_ℤ y x ≡ true =
      bound_of_count y x (y ∷ ys) (leb_ℤ_refl y, t.0) (omega (arith, h x, count_self x xs)) in
    let above : leb_ℤ x y ≡ true =
      bound_of_count x y (x ∷ xs) (leb_ℤ_refl x, s.0) (omega (arith, h y, count_self y ys)) in
    let e : x ≡ y = leb_ℤ_antisymm x y above below in
    let rest : SameCounts xs ys = λ a. omega (arith, rw e at h a) in
    rw (e, sorted_unique xs ys s.1 t.1 rest)

-- Sorting a list gives a given sorted list exactly if both have the same elements.
pub sort-eq_iff :
    (xs ys : List ℤ) → IsSorted leb_ℤ ys → (list_beq (sort leb_ℤ xs) ys ≡ true) ↔ SameCounts xs ys
sort-eq_iff xs ys t = (
  λ h a. sym (count-sort leb_ℤ a xs) ∙ ap (count a) ((list_beq_iff (sort leb_ℤ xs) ys).0 h),
  λ h. (list_beq_iff (sort leb_ℤ xs) ys).1 (
      sorted_unique (sort leb_ℤ xs) ys (sort-IsSorted leb_ℤ leb_ℤ-IsOrder xs) t
        (λ a. count-sort leb_ℤ a xs ∙ h a)),
)
