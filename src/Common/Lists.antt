-- ===== src/Common/Lists.antt =====
-- Lists measured by native numbers, and predicates on lists by recursion.
use Prim.Native.Nat.{ℕ, suc, ◌+◌}
use mathlib.Core.Path.{◌≡◌, refl, ap}
use mathlib.Core.Logic.{◌↔◌}
use mathlib.Core.Bool.{
  Bool, true, false, ◌&&◌, ◌||◌, and-true, and-false, or-false, or-true, true-and, false-and,
  false-or,
}
use mathlib.Core.List.{List, [], ◌∷◌, ◌++◌, map}
use mathlib.Core.Option.{Option, none, some}
use native.Mathlib.Omega.{arith}
use um_fantasy_league.Common.Tests.{if◌then◌else◌, when}

module _ {ℓ} {A : Type ℓ} where
  abbrev pub length : List A → ℕ
  length [] = 0
  length (x ∷ xs) = suc (length xs)

  abbrev pub is_empty : List A → Bool
  is_empty [] = true
  is_empty (x ∷ xs) = false

  -- `iter().filter(p)`
  abbrev pub keep : (A → Bool) → List A → List A
  keep p [] = []
  keep p (x ∷ xs) = let rest = keep p xs in if p x then x ∷ rest else rest

  -- `iter().any(p)`
  abbrev pub any : (A → Bool) → List A → Bool
  any p [] = false
  any p (x ∷ xs) = p x || any p xs

  -- `iter().all(p)`
  abbrev pub every : (A → Bool) → List A → Bool
  every p [] = true
  every p (x ∷ xs) = p x && every p xs

  -- `iter().find(p)`
  abbrev pub find : (A → Bool) → List A → Option A
  find p [] = none
  find p (x ∷ xs) = let rest = find p xs in if p x then some x else rest

  -- What `extend` adds of an optional element.
  abbrev pub to_list : Option A → List A
  to_list none = []
  to_list (some a) = a ∷ []

  -- The pushes, one after the other, of what each check found.
  abbrev pub report : List (Option A) → List A
  report [] = []
  report (o ∷ os) = to_list o ++ report os

  abbrev pub All {κ} : (A → Type κ) → List A → Type κ
  All P [] = Unit
  All P (x ∷ xs) = P x × All P xs

  pub append-eq-nil : (xs ys : List A) → (xs ++ ys ≡ []) ↔ ((xs ≡ []) × (ys ≡ []))
  append-eq-nil [] ys = (λ h. (refl, h), λ h. h.1)
  append-eq-nil (x ∷ xs) ys = (λ h. cc, λ h. cc)

  pub when-none_iff : (b : Bool) (a : A) → (when b a ≡ none) ↔ (b ≡ false)
  when-none_iff b a = ground arith

  pub is_empty_iff : (xs : List A) → (is_empty xs ≡ true) ↔ (xs ≡ [])
  is_empty_iff [] = (λ _. refl, λ _. refl)
  is_empty_iff (x ∷ xs) = (λ h. cc, λ h. cc)

  pub is_empty-keep : (p : A → Bool) (xs : List A) → is_empty (keep p xs) ≡ true → any p xs ≡ false
  is_empty-keep p [] h = refl
  is_empty-keep p (x ∷ xs) h = ground (arith, is_empty-keep p xs)

  pub keep-nil : (p : A → Bool) (xs : List A) → any p xs ≡ false → keep p xs ≡ []
  keep-nil p [] h = refl
  keep-nil p (x ∷ xs) h = ground (arith, keep-nil p xs)

  pub any-append : (p : A → Bool) (xs ys : List A) → any p (xs ++ ys) ≡ (any p xs || any p ys)
  any-append p [] ys = refl
  any-append p (x ∷ xs) ys = ground (arith, any-append p xs ys)

  pub any-to_list-when : (p : A → Bool) (b : Bool) (a : A) → any p (to_list (when b a)) ≡ (b && p a)
  any-to_list-when p true a = ground arith
  any-to_list-when p false a = refl

  pub every-false : (p : A → Bool) (xs : List A) → All (λ x. p x ≡ true) xs → every p xs ≡ true
  every-false p [] h = refl
  every-false p (x ∷ xs) h = ground (arith, every-false p xs)

  pub any-false_iff : (p : A → Bool) (xs : List A) → (any p xs ≡ false) ↔ All (λ x. p x ≡ false) xs
  any-false_iff p [] = (λ _. tt, λ _. refl)
  any-false_iff p (x ∷ xs) = ground (arith, any-false_iff p xs)

  pub All-map {κ ι} :
      {P : A → Type κ} {Q : A → Type ι} (f : (x : A) → P x → Q x) (xs : List A)
      → All P xs
      → All Q xs
  All-map f [] h = tt
  All-map f (x ∷ xs) h = (f x h.0, All-map f xs h.1)

  pub All-iff {κ ι} :
      {P : A → Type κ} {Q : A → Type ι} (f : (x : A) → P x ↔ Q x) (xs : List A)
      → All P xs ↔ All Q xs
  All-iff f xs = (All-map (λ x. (f x).0) xs, All-map (λ x. (f x).1) xs)

  pub length-append : (xs ys : List A) → length (xs ++ ys) ≡ length xs + length ys
  length-append [] ys = omega arith
  length-append (x ∷ xs) ys = omega (arith, length-append xs ys)

module _ {ℓ} {A : Type ℓ} where
  -- Nothing is reported exactly when every check passes.
  pub report-nil_iff :
      (os : List (Option A)) → (report os ≡ []) ↔ All {A = Option A} (λ o. o ≡ none) os
  report-nil_iff [] = (λ _. tt, λ _. refl)
  report-nil_iff (none ∷ os) = ground (arith, report-nil_iff os)
  report-nil_iff (some a ∷ os) = (λ h. cc, λ h. cc)

module _ {ℓ κ} {A : Type ℓ} {B : Type κ} where
  pub length-map : (f : A → B) (xs : List A) → length (map f xs) ≡ length xs
  length-map f [] = refl
  length-map f (x ∷ xs) = ap suc (length-map f xs)

  -- `flat_map`
  abbrev pub gather : (A → List B) → List A → List B
  gather f [] = []
  gather f (x ∷ xs) = f x ++ gather f xs

-- What is left of a chain of reports when one asks for a rule.
pub ruleset report_laws = (
  any-append, any-to_list-when, and-true, and-false, or-false, or-true, true-and, false-and,
  false-or,
)
