-- ===== src/Common/Overlap.antt =====
-- How many elements two lists without repetitions share.
use um_fantasy_league.Common.Tests.{if◌then◌else◌}
use um_fantasy_league.Common.Equality.{Eq, contains, count, Distinct}
use um_fantasy_league.Common.Lists.{keep, length}
use Prim.Native.Nat.{ℕ, ◌+◌}
use mathlib.Core.Path.{◌≡◌, refl}
use mathlib.Core.Bool.{false, not}
use mathlib.Core.List.{List, [], ◌∷◌}
use native.Mathlib.Omega.{arith}

module _ {ℓ} {A : Type ℓ} ⦃e : Eq A⦄ where
  -- The elements of the first list that are in the second, and those that are not.
  abbrev pub shared : List A → List A → ℕ
  shared xs ys = length (keep (contains ys) xs)

  abbrev pub missing : List A → List A → ℕ
  missing xs ys = length (keep (λ x. not (contains ys x)) xs)

  shared-add-missing : (xs ys : List A) → shared xs ys + missing xs ys ≡ length xs
  shared-add-missing [] ys = refl
  shared-add-missing (x ∷ xs) ys = ground (arith, shared-add-missing xs ys)

  pub count-Distinct :
      (x : A) (ys : List A) → Distinct ys → count x ys ≡ (if contains ys x then 1 else 0)
  count-Distinct x [] d = refl
  count-Distinct x (y ∷ ys) d = ground (arith, count-Distinct x ys d.1, e.is_equal_iff y x)

  shared-cons :
      (x : A) (xs ys : List A)
      → contains xs x ≡ false
      → shared ys (x ∷ xs) ≡ count x ys + shared ys xs
  shared-cons x xs [] h = refl
  shared-cons x xs (y ∷ ys) h =
      ground (arith, shared-cons x xs ys h, e.is_equal_iff x y, e.is_equal_iff y x)

  shared-nil : (ys : List A) → shared ys [] ≡ 0
  shared-nil [] = refl
  shared-nil (y ∷ ys) = shared-nil ys

  shared_comm : (xs ys : List A) → Distinct xs → Distinct ys → shared xs ys ≡ shared ys xs
  shared_comm [] ys d f = ground (arith, shared-nil ys)
  shared_comm (x ∷ xs) ys d f =
      ground (arith, shared_comm xs ys d.1 f, shared-cons x xs ys d.0, count-Distinct x ys f)

  -- Of two lists of one length, each lacks as many elements of the other.
  pub missing_comm :
      (xs ys : List A)
      → Distinct xs
      → Distinct ys
      → length xs ≡ length ys
      → missing xs ys ≡ missing ys xs
  missing_comm xs ys d f h =
      omega (arith, shared_comm xs ys d f, shared-add-missing xs ys, shared-add-missing ys xs)
