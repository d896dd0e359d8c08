-- ===== src/Common/Pages.antt =====
-- Pages of rows: a sort of some of the rows, and the groups of a sorted page.
use um_fantasy_league.Common.Tests.{if◌then◌else◌, Bool-cases}
use um_fantasy_league.Common.Equality.{Eq, ==_refl, contains}
use um_fantasy_league.Common.Lists.{keep, All, All-map}
use um_fantasy_league.Common.Sorting.{
  sort, insert_sorted, IsOrder, IsSorted, sort-IsSorted, All-sort,
}
use mathlib.Core.Path.{◌≡◌, refl, ap, ◌∙◌}
use mathlib.Core.Logic.{inl, inr}
use mathlib.Core.Bool.{Bool, true, false}
use mathlib.Core.List.{List, [], ◌∷◌, ◌++◌, map}
use native.Mathlib.Omega.{arith}

module _ {ℓ} {A : Type ℓ} where
  pub All-keep {κ} : (P : A → Type κ) (p : A → Bool) (xs : List A) → All P xs → All P (keep p xs)
  All-keep P p [] h = tt
  All-keep P p (x ∷ xs) h = elim (Bool-cases (p x)) [
    | inl stays ↦ rw stays (h.0, All-keep P p xs h.1)
    | inr goes ↦ rw goes (All-keep P p xs h.1)
  ]

  pub keep-All : (p : A → Bool) (xs : List A) → All (λ x. p x ≡ true) (keep p xs)
  keep-All p [] = tt
  keep-All p (x ∷ xs) = elim (Bool-cases (p x)) [
    | inl stays ↦ rw stays (stays, keep-All p xs)
    | inr goes ↦ rw goes (keep-All p xs)
  ]

  pub keep-keep :
      (p q : A → Bool) (xs : List A)
      → ((x : A) → p x ≡ true → q x ≡ true)
      → keep p (keep q xs) ≡ keep p xs
  keep-keep p q [] f = refl
  keep-keep p q (x ∷ xs) f = ground (arith, f x, keep-keep p q xs f)

  module _ (le : A → A → Bool) where
    pub insert_least :
        (x : A) (ys : List A) → All (λ y. le x y ≡ true) ys → insert_sorted le x ys ≡ x ∷ ys
    unfolding insert_sorted
    insert_least x [] h = refl
    insert_least x (y ∷ ys) h = rw h.0 refl

    keep-insert_sorted :
        (o : IsOrder le) (p : A → Bool) (x : A) (ys : List A)
        → IsSorted le ys
        → keep p (insert_sorted le x ys)
          ≡ (if p x then insert_sorted le x (keep p ys) else keep p ys)
    unfolding insert_sorted
    keep-insert_sorted o p x [] s = ground arith
    keep-insert_sorted o p x (y ∷ ys) s = elim (Bool-cases (le x y)) [
      | inl first ↦
          let above : All (λ z. le x z ≡ true) (keep p (y ∷ ys)) =
            All-keep (λ z. le x z ≡ true) p (y ∷ ys)
              (first, All-map (λ z. o.trans x y z first) ys s.0) in
          rw first (ground (arith, insert_least x (keep p (y ∷ ys)) above))
      | inr later ↦ rw later (ground (arith, keep-insert_sorted o p x ys s.1, later))
    ]

    -- Some of a sorted list are the sorted list of them.
    pub keep-sort :
        (o : IsOrder le) (p : A → Bool) (xs : List A) → keep p (sort le xs) ≡ sort le (keep p xs)
    unfolding sort
    keep-sort o p [] = refl
    keep-sort o p (x ∷ xs) =
        keep-insert_sorted o p x (sort le xs) (sort-IsSorted le o xs)
        ∙ (ground (arith, keep-sort o p xs))

  module _ {κ} (le le' : A → A → Bool) (P : A → Type κ)
      (agree : (x y : A) → P x → P y → le x y ≡ le' x y) where
    insert_sorted-agree :
        (x : A) (ys : List A) → P x → All P ys → insert_sorted le x ys ≡ insert_sorted le' x ys
    unfolding insert_sorted
    insert_sorted-agree x [] p ps = refl
    insert_sorted-agree x (y ∷ ys) p ps =
        rw (agree x y p ps.0, insert_sorted-agree x ys p ps.1) refl

    -- Comparisons that agree on the elements of a list sort it alike.
    pub sort-agree : (xs : List A) → All P xs → sort le xs ≡ sort le' xs
    unfolding sort
    sort-agree [] ps = refl
    sort-agree (x ∷ xs) ps =
        ap (insert_sorted le x) (sort-agree xs ps.1)
        ∙ insert_sorted-agree x (sort le' xs) ps.0 (All-sort le' P xs ps.1)

  -- A page that is cut down to one group is the group, sorted by what is left of the order.
  pub page :
      (le le' : A → A → Bool) (p q : A → Bool) (xs : List A)
      → IsOrder le
      → ((x : A) → p x ≡ true → q x ≡ true)
      → ((x y : A) → p x ≡ true → p y ≡ true → le x y ≡ le' x y)
      → keep p (sort le (keep q xs)) ≡ sort le' (keep p xs)
  page le le' p q xs o sub agree =
      keep-sort le o p (keep q xs)
      ∙ ap (sort le) (keep-keep p q xs sub)
      ∙ sort-agree le le' (λ x. p x ≡ true) agree (keep p xs) (keep-All p xs)

module _ {ℓ κ} {A : Type ℓ} {B : Type κ} where
  pub map-agree : (f g : A → B) (xs : List A) → All (λ x. f x ≡ g x) xs → map f xs ≡ map g xs
  map-agree f g [] h = refl
  map-agree f g (x ∷ xs) h = rw (h.0, map-agree f g xs h.1) refl

module _ {ℓ κ} {A : Type ℓ} {K : Type κ} ⦃e : Eq K⦄ (f : A → K) where
  -- Those that pass a stricter test are among those that pass.
  pub contains-keep :
      (p q : A → Bool) (xs : List A)
      → ((x : A) → p x ≡ true → q x ≡ true)
      → All (λ x. contains (map f (keep q xs)) (f x) ≡ true) (keep p xs)
  contains-keep p q [] sub = tt
  contains-keep p q (x ∷ xs) sub =
      let later : All (λ y. contains (map f (keep q (x ∷ xs))) (f y) ≡ true) (keep p xs) =
        All-map (λ y h. ground (arith, h)) (keep p xs) (contains-keep p q xs sub) in
      elim (Bool-cases (p x)) [
        | inl passes ↦ rw passes (ground (arith, sub x passes, ==_refl (f x)), later)
        | inr fails ↦ rw fails later
      ]

  pub contains_all : (xs : List A) → All (λ x. contains (map f xs) (f x) ≡ true) xs
  contains_all [] = tt
  contains_all (x ∷ xs) =
      (rw (==_refl (f x)) refl, All-map (λ y h. ground (arith, h)) xs (contains_all xs))

module _ {ℓ} {A : Type ℓ} where
  pub keep-append : (p : A → Bool) (xs ys : List A) → keep p (xs ++ ys) ≡ keep p xs ++ keep p ys
  keep-append p [] ys = refl
  keep-append p (x ∷ xs) ys = ground (arith, keep-append p xs ys)

  pub keep_none : (p : A → Bool) (xs : List A) → All (λ x. p x ≡ false) xs → keep p xs ≡ []
  keep_none p [] h = refl
  keep_none p (x ∷ xs) h = rw h.0 (keep_none p xs h.1)

  pub keep_all : (p : A → Bool) (xs : List A) → All (λ x. p x ≡ true) xs → keep p xs ≡ xs
  keep_all p [] h = refl
  keep_all p (x ∷ xs) h = rw (h.0, keep_all p xs h.1) refl

  -- Of old and new elements a test has the new ones alone.
  pub keep_new :
      (p : A → Bool) (xs ys : List A)
      → All (λ x. p x ≡ false) xs
      → All (λ y. p y ≡ true) ys
      → keep p (xs ++ ys) ≡ ys
  keep_new p xs ys old new = keep-append p xs ys ∙ rw (keep_none p xs old, keep_all p ys new) refl

  pub All-append {κ} : (P : A → Type κ) (xs ys : List A) → All P xs → All P ys → All P (xs ++ ys)
  All-append P [] ys h k = k
  All-append P (x ∷ xs) ys h k = (h.0, All-append P xs ys h.1 k)

  pub sort_sorted : (le : A → A → Bool) (xs : List A) → IsSorted le xs → sort le xs ≡ xs
  unfolding sort
  sort_sorted le [] h = refl
  sort_sorted le (x ∷ xs) h = rw (sort_sorted le xs h.1) (insert_least le x xs h.0)

module _ {ℓ κ} {A : Type ℓ} {B : Type κ} where
  pub All-of_map {ι} :
      (P : B → Type ι) (f : A → B) (xs : List A) → ((x : A) → P (f x)) → All P (map f xs)
  All-of_map P f [] h = tt
  All-of_map P f (x ∷ xs) h = (h x, All-of_map P f xs h)

pub everywhere {ℓ κ} : {A : Type ℓ} {P : A → Type κ} → ((x : A) → P x) → (xs : List A) → All P xs
everywhere f [] = tt
everywhere f (x ∷ xs) = (f x, everywhere f xs)
