-- ===== src/Common/Sorting.antt =====
-- The stable sorts of `Vec`, by the comparison that they are given, and the sets of `BTreeSet`.
use um_fantasy_league.Common.Tests.{if◌then◌else◌, Bool-cases}
use um_fantasy_league.Common.Equality.{Eq, ◌==◌, contains, count, Distinct}
use um_fantasy_league.Common.Lists.{is_empty, any, keep, All, All-map, length}
use Prim.Native.Nat.{suc, ◌+◌, ◌≤◌}
use mathlib.Core.Path.{◌≡◌, refl, sym, ap, ◌∙◌}
use mathlib.Core.Logic.{◌↔◌, inl, inr}
use mathlib.Core.Bool.{Bool, true, false, ◌||◌}
use mathlib.Core.List.{List, [], ◌∷◌}
use native.Mathlib.Omega.{arith}

module _ {ℓ} {A : Type ℓ} (le : A → A → Bool) where
  -- Before the first element that is not smaller.
  unfoldable pub insert_sorted : A → List A → List A
  insert_sorted x [] = x ∷ []
  insert_sorted x (y ∷ ys) = if le x y then x ∷ y ∷ ys else y ∷ insert_sorted x ys

  unfoldable pub sort : List A → List A
  unfolding insert_sorted
  sort [] = []
  sort (x ∷ xs) = insert_sorted x (sort xs)

  is_empty-insert_sorted : (x : A) (xs : List A) → is_empty (insert_sorted x xs) ≡ false
  unfolding insert_sorted
  is_empty-insert_sorted x [] = refl
  is_empty-insert_sorted x (y ∷ ys) = ground arith

  pub is_empty-sort : (xs : List A) → is_empty (sort xs) ≡ is_empty xs
  unfolding sort
  is_empty-sort [] = refl
  is_empty-sort (x ∷ xs) = is_empty-insert_sorted x (sort xs)

  length-insert_sorted : (x : A) (xs : List A) → length (insert_sorted x xs) ≡ suc (length xs)
  unfolding insert_sorted
  length-insert_sorted x [] = refl
  length-insert_sorted x (y ∷ ys) = ground (arith, length-insert_sorted x ys)

  pub length-sort : (xs : List A) → length (sort xs) ≡ length xs
  unfolding sort
  length-sort [] = refl
  length-sort (x ∷ xs) = length-insert_sorted x (sort xs) ∙ ap suc (length-sort xs)

  length-keep-insert_sorted :
      (p : A → Bool) (x : A) (xs : List A)
      → length (keep p (insert_sorted x xs)) ≡ (if p x then 1 else 0) + length (keep p xs)
  unfolding insert_sorted
  length-keep-insert_sorted p x [] = ground arith
  length-keep-insert_sorted p x (y ∷ ys) = ground (arith, length-keep-insert_sorted p x ys)

  -- A sort keeps as many elements of each kind as there were.
  pub length-keep-sort :
      (p : A → Bool) (xs : List A) → length (keep p (sort xs)) ≡ length (keep p xs)
  unfolding sort
  length-keep-sort p [] = refl
  length-keep-sort p (x ∷ xs) =
      ground (arith, length-keep-insert_sorted p x (sort xs), length-keep-sort p xs)

  -- Each element is at most every later one.
  abbrev pub IsSorted : List A → Type ℓ
  IsSorted [] = Unit
  IsSorted (x ∷ xs) = All (λ y. le x y ≡ true) xs × IsSorted xs

  All-insert_sorted {κ} :
      (P : A → Type κ) (x : A) (xs : List A) → P x → All P xs → All P (insert_sorted x xs)
  unfolding insert_sorted
  All-insert_sorted P x [] p ps = (p, tt)
  All-insert_sorted P x (y ∷ ys) p ps = elim (Bool-cases (le x y)) [
    | inl h ↦ rw h (p, ps)
    | inr h ↦ rw h (ps.0, All-insert_sorted P x ys p ps.1)
  ]

  pub All-sort {κ} : (P : A → Type κ) (xs : List A) → All P xs → All P (sort xs)
  unfolding sort
  All-sort P [] ps = tt
  All-sort P (x ∷ xs) ps = All-insert_sorted P x (sort xs) ps.0 (All-sort P xs ps.1)

  -- The comparison is total and transitive.
  pub record IsOrder : Type ℓ where
    pub total : (x y : A) → le x y ≡ false → le y x ≡ true
    pub trans : (x y z : A) → le x y ≡ true → le y z ≡ true → le x z ≡ true

  module _ (o : IsOrder) where
    insert_sorted-IsSorted : (x : A) (xs : List A) → IsSorted xs → IsSorted (insert_sorted x xs)
    unfolding insert_sorted
    insert_sorted-IsSorted x [] s = (tt, tt)
    insert_sorted-IsSorted x (y ∷ ys) s = elim (Bool-cases (le x y)) [
      | inl h ↦ rw h ((h, All-map (λ z. o.trans x y z h) ys s.0), s)
      | inr h ↦ rw h (
        All-insert_sorted (λ z. le y z ≡ true) x ys (o.total x y h) s.0,
        insert_sorted-IsSorted x ys s.1,
      )
    ]

    pub sort-IsSorted : (xs : List A) → IsSorted (sort xs)
    unfolding sort
    sort-IsSorted [] = tt
    sort-IsSorted (x ∷ xs) = insert_sorted-IsSorted x (sort xs) (sort-IsSorted xs)

module _ {ℓ} {A : Type ℓ} ⦃e : Eq A⦄ (le : A → A → Bool) where
  count-insert_sorted :
      (a x : A) (xs : List A)
      → count a (insert_sorted le x xs) ≡ (if x == a then 1 else 0) + count a xs
  unfolding insert_sorted
  count-insert_sorted a x [] = refl
  count-insert_sorted a x (y ∷ ys) = ground (arith, count-insert_sorted a x ys)

  -- A sort keeps every element as often as it was there.
  pub count-sort : (a : A) (xs : List A) → count a (sort le xs) ≡ count a xs
  unfolding sort
  count-sort a [] = refl
  count-sort a (x ∷ xs) = ground (arith, count-insert_sorted a x (sort le xs), count-sort a xs)

  contains-insert_sorted :
      (a x : A) (xs : List A) → contains (insert_sorted le x xs) a ≡ (x == a || contains xs a)
  unfolding insert_sorted
  contains-insert_sorted a x [] = refl
  contains-insert_sorted a x (y ∷ ys) = ground (arith, contains-insert_sorted a x ys)

  -- `BTreeSet::insert`: an element that is there already changes nothing.
  unfoldable pub insert_set : A → List A → List A
  unfolding insert_sorted
  insert_set x s = if contains s x then s else insert_sorted le x s

  -- `collect::<BTreeSet<_>>()`
  unfoldable pub to_set : List A → List A
  unfolding insert_set
  to_set [] = []
  to_set (x ∷ xs) = insert_set x (to_set xs)

  contains-insert_set :
      (a x : A) (s : List A) → contains (insert_set x s) a ≡ (x == a || contains s a)
  unfolding insert_set
  contains-insert_set a x s = ground (arith, contains-insert_sorted a x s, e.is_equal_iff x a)

  pub contains-to_set : (a : A) (xs : List A) → contains (to_set xs) a ≡ contains xs a
  unfolding to_set
  contains-to_set a [] = refl
  contains-to_set a (x ∷ xs) =
      ground (arith, contains-insert_set a x (to_set xs), contains-to_set a xs)

  pub is_empty-to_set : (xs : List A) → is_empty (to_set xs) ≡ is_empty xs
  unfolding to_set insert_set
  is_empty-to_set [] = refl
  is_empty-to_set (x ∷ xs) = elim (Bool-cases (contains (to_set xs) x)) [
    | inl h ↦ rw h (nonempty (to_set xs) h)
    | inr h ↦ rw h (is_empty-insert_sorted le x (to_set xs))
  ]
    where
      nonempty : (s : List A) → contains s x ≡ true → is_empty s ≡ false
      nonempty [] p = cc
      nonempty (y ∷ ys) p = refl

  length-to_set-le : (xs : List A) → length (to_set xs) ≤ length xs
  unfolding to_set insert_set
  length-to_set-le [] = omega arith
  length-to_set-le (x ∷ xs) =
      ground (arith, length-to_set-le xs, length-insert_sorted le x (to_set xs))

  -- A set is as long as the list that it was collected from exactly if that had no repetition.
  pub length-to_set_iff : (xs : List A) → (length (to_set xs) ≡ length xs) ↔ Distinct xs
  unfolding to_set insert_set
  length-to_set_iff [] = (λ _. tt, λ _. refl)
  length-to_set_iff (x ∷ xs) = ground (
    arith,
    length-to_set_iff xs,
    length-to_set-le xs,
    contains-to_set x xs,
    length-insert_sorted le x (to_set xs),
  )

  any-insert_sorted :
      (p : A → Bool) (x : A) (xs : List A) → any p (insert_sorted le x xs) ≡ (p x || any p xs)
  unfolding insert_sorted
  any-insert_sorted p x [] = refl
  any-insert_sorted p x (y ∷ ys) = ground (arith, any-insert_sorted p x ys)

  any-of-contains :
      (p : A → Bool) (xs : List A) (a : A) → contains xs a ≡ true → (p a || any p xs) ≡ any p xs
  any-of-contains p [] a h = cc
  any-of-contains p (x ∷ xs) a h = elim (Bool-cases (x == a)) [
    | inl same ↦ ground (arith, ap p ((e.is_equal_iff x a).0 same))
    | inr differ ↦ ground (arith, any-of-contains p xs a)
  ]

  any-insert_set : (p : A → Bool) (x : A) (s : List A) → any p (insert_set x s) ≡ (p x || any p s)
  unfolding insert_set
  any-insert_set p x s = elim (Bool-cases (contains s x)) [
    | inl there ↦ rw there (sym (any-of-contains p s x there))
    | inr new ↦ rw new (any-insert_sorted p x s)
  ]

  -- A set has an element with a property exactly if the list that it was collected from has.
  pub any-to_set : (p : A → Bool) (xs : List A) → any p (to_set xs) ≡ any p xs
  unfolding to_set
  any-to_set p [] = refl
  any-to_set p (x ∷ xs) = any-insert_set p x (to_set xs) ∙ ap (◌||◌ (p x)) (any-to_set p xs)
