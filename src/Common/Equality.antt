-- ===== src/Common/Equality.antt =====
-- Decidable equality as an interface, and the list functions that stand on it.
use Prim.Native.Nat.{ℕ, ◌+◌}
use mathlib.Core.Path.{◌≡◌, refl}
use mathlib.Core.Logic.{◌↔◌, inl, inr, ◌≢◌}
use mathlib.Core.Bool.{Bool, true, false, not, ◌&&◌, ◌||◌}
use mathlib.Core.List.{List, [], ◌∷◌, ◌++◌}
use native.Mathlib.Omega.{arith}
use um_fantasy_league.Common.Tests.{eqb, eqb_iff, if◌then◌else◌, Bool-cases}

-- What `PartialEq` and `Eq` promise: a test that holds exactly of equal values.
pub record Eq {ℓ} (A : Type ℓ) : Type ℓ where
  pub is_equal : A → A → Bool
  pub is_equal_iff : (x y : A) → (is_equal x y ≡ true) ↔ (x ≡ y)

-- The operator of the two.
abbrev pub ◌==◌ {ℓ} : {A : Type ℓ} ⦃eq : Eq A⦄ (x y : A) → Bool
◌==◌ ⦃eq⦄ x y = eq.is_equal x y

infix 50 ◌==◌
module _ {ℓ} {A : Type ℓ} ⦃e : Eq A⦄ where
  pub ==_refl : (a : A) → (a == a) ≡ true
  ==_refl a = (e.is_equal_iff a a).1 refl

  pub ==-false_iff : (a b : A) → ((a == b) ≡ false) ↔ (a ≢ b)
  ==-false_iff a b = elim (Bool-cases (a == b)) [
    | inl same ↦ (λ f. absurd (cc), λ ne. absurd (ne ((e.is_equal_iff a b).0 same)))
    | inr differ ↦ (λ _ p. cc ((e.is_equal_iff a b).1 p), λ _. differ)
  ]

  pub ==_comm : (a b : A) → (a == b) ≡ (b == a)
  ==_comm a b = ground (arith, e.is_equal_iff a b, e.is_equal_iff b a)

  -- `contains`
  abbrev pub contains : List A → A → Bool
  contains [] a = false
  contains (x ∷ xs) a = x == a || contains xs a

  abbrev pub count : A → List A → ℕ
  count a [] = 0
  count a (x ∷ xs) = (if x == a then 1 else 0) + count a xs

  -- `if b && !found.contains(&x) { found.push(x) }`
  abbrev pub note : Bool → List A → A → List A
  note b found x = if b && not (contains found x) then found ++ x ∷ [] else found

  -- No element occurs twice.
  abbrev pub Distinct : List A → Type 0
  Distinct [] = Unit
  Distinct (x ∷ xs) = (contains xs x ≡ false) × Distinct xs

  -- The equality of vectors.
  abbrev pub list_beq : List A → List A → Bool
  list_beq [] [] = true
  list_beq (x ∷ xs) (y ∷ ys) = x == y && list_beq xs ys
  list_beq _ _ = false

  pub list_beq_iff : (xs ys : List A) → (list_beq xs ys ≡ true) ↔ (xs ≡ ys)
  list_beq_iff [] [] = ground arith
  list_beq_iff [] (y ∷ ys) = ground arith
  list_beq_iff (x ∷ xs) [] = ground arith
  list_beq_iff (x ∷ xs) (y ∷ ys) = ground (arith, e.is_equal_iff x y, list_beq_iff xs ys)

-- The instances: numbers, vectors, pairs.
instance abbrev pub nat_eq : Eq ℕ
nat_eq = record { is_equal = eqb; is_equal_iff = eqb_iff }

instance abbrev pub list_eq {ℓ} : {A : Type ℓ} ⦃e : Eq A⦄ → Eq (List A)
list_eq ⦃e⦄ = record { is_equal = list_beq; is_equal_iff = list_beq_iff }

module _ {ℓ κ} {A : Type ℓ} {B : Type κ} ⦃e : Eq A⦄ ⦃f : Eq B⦄ where
  abbrev pub pair_beq : A × B → A × B → Bool
  pair_beq (a, b) (c, d) = a == c && b == d

  pub pair_beq_iff : (p q : A × B) → (pair_beq p q ≡ true) ↔ (p ≡ q)
  pair_beq_iff (a, b) (c, d) = ground (arith, e.is_equal_iff a c, f.is_equal_iff b d)

instance abbrev pub pair_eq {ℓ κ} : {A : Type ℓ} {B : Type κ} ⦃e : Eq A⦄ ⦃f : Eq B⦄ → Eq (A × B)
pair_eq ⦃e⦄ ⦃f⦄ = record { is_equal = pair_beq; is_equal_iff = pair_beq_iff }
