-- ===== src/Common/IndexMap.antt =====
-- The insertion-ordered map of the `indexmap` crate, as its documentation describes it: a list of
-- entries in the order of their first insertion. Writing an old key keeps its place.
use um_fantasy_league.Common.Tests.{ltb, if◌then◌else◌}
use um_fantasy_league.Common.Equality.{Eq, ◌==◌, contains, Distinct, ==_comm, ==_refl}
use um_fantasy_league.Common.Lists.{keep, any, is_empty, All, keep-nil, is_empty-keep}
use Prim.Native.Nat.{ℕ, ◌+◌, ◌<◌}
use mathlib.Core.Path.{◌≡◌, refl, ap, sym, ◌∙◌}
use mathlib.Core.Logic.{◌↔◌}
use mathlib.Core.Bool.{Bool, true, false, not, ◌||◌}
use mathlib.Core.List.{List, [], ◌∷◌, ◌++◌, map}
use mathlib.Core.Option.{Option, none, some}
use native.Mathlib.Omega.{arith}

abbrev pub IndexMap {ℓ κ} : Type ℓ → Type κ → Type (ℓ ⊔ κ)
IndexMap K V = List (K × V)

abbrev pub keys {ℓ κ} : {K : Type ℓ} {V : Type κ} → IndexMap K V → List K
keys m = map (λ p. p.0) m

abbrev pub values {ℓ κ} : {K : Type ℓ} {V : Type κ} → IndexMap K V → List V
values m = map (λ p. p.1) m

module _ {ℓ κ} {K : Type ℓ} {V : Type κ} ⦃e : Eq K⦄ where
  unfoldable pub get : IndexMap K V → K → Option V
  get [] k = none
  get ((j, v) ∷ m) k = if j == k then some v else get m k

  unfoldable pub has : IndexMap K V → K → Bool
  has [] k = false
  has ((j, v) ∷ m) k = j == k || has m k

  -- `insert`
  unfoldable pub insert : IndexMap K V → K → V → IndexMap K V
  insert [] k v = (k, v) ∷ []
  insert ((j, w) ∷ m) k v = if j == k then (j, v) ∷ m else (j, w) ∷ insert m k v

  -- `entry(k).or_insert(v)`
  unfoldable pub or_insert : IndexMap K V → K → V → IndexMap K V
  or_insert [] k v = (k, v) ∷ []
  or_insert ((j, w) ∷ m) k v = if j == k then (j, w) ∷ m else (j, w) ∷ or_insert m k v

  -- `*entry(k).or_insert(v) = f(…)`: an absent key starts from `v`.
  unfoldable pub upsert : IndexMap K V → K → V → (V → V) → IndexMap K V
  upsert [] k v f = (k, f v) ∷ []
  upsert ((j, w) ∷ m) k v f = if j == k then (j, f w) ∷ m else (j, w) ∷ upsert m k v f

  -- `if let Some(v) = get_mut(k) { *v = f(…) }`
  unfoldable pub modify : IndexMap K V → K → (V → V) → IndexMap K V
  modify [] k f = []
  modify ((j, w) ∷ m) k f = if j == k then (j, f w) ∷ m else (j, w) ∷ modify m k f

  -- `shift_remove(k)`; a key stands in a map once.
  unfoldable pub remove : IndexMap K V → K → IndexMap K V
  remove m k = keep (λ (p : K × V). not (p.0 == k)) m

  pub get-remove :
      (m : IndexMap K V) (k j : K) → get (remove m k) j ≡ (if k == j then none else get m j)
  unfolding get remove
  get-remove [] k j = ground arith
  get-remove ((i, w) ∷ m) k j =
      ground (arith, get-remove m k j, e.is_equal_iff i k, e.is_equal_iff i j, e.is_equal_iff k j)

  get-modify_self :
      (m : IndexMap K V) (k : K) (f : V → V)
      → get (modify m k f) k ≡ elim (get m k) [ none ↦ none | some w ↦ some (f w) ]
  unfolding get modify
  get-modify_self [] k f = refl
  get-modify_self ((j, v) ∷ m) k f = ground (arith, get-modify_self m k f)

  pub get-modify_at :
      (m : IndexMap K V) (k j : K) (f : V → V) (v : V)
      → k ≡ j
      → get m j ≡ some v
      → get (modify m k f) j ≡ some (f v)
  get-modify_at m k j f v e h = ap (get (modify m k f)) (sym e) ∙ get-modify_self m k f ∙ rw (e, h)

  pub get-modify_ne :
      (m : IndexMap K V) (k j : K) (f : V → V) → (k == j) ≡ false → get (modify m k f) j ≡ get m j
  unfolding get modify
  get-modify_ne [] k j f h = refl
  get-modify_ne ((i, w) ∷ m) k j f h =
      ground
        (arith, get-modify_ne m k j f h, e.is_equal_iff i k, e.is_equal_iff i j, e.is_equal_iff k j)

  pub get-insert :
      (m : IndexMap K V) (k j : K) (v : V)
      → get (insert m k v) j ≡ (if k == j then some v else get m j)
  unfolding get insert
  get-insert [] k j v = refl
  get-insert ((i, w) ∷ m) k j v =
      ground (arith, get-insert m k j v, e.is_equal_iff i k, e.is_equal_iff i j, e.is_equal_iff k j)

  -- An old key keeps its value.
  pub get-or_insert :
      (m : IndexMap K V) (k j : K) (v : V)
      → get (or_insert m k v) j
        ≡ elim (get m j) [ none ↦ if k == j then some v else none | some w ↦ some w ]
  unfolding get or_insert
  get-or_insert [] k j v = refl
  get-or_insert ((i, w) ∷ m) k j v =
      ground
        (arith, get-or_insert m k j v, e.is_equal_iff i k, e.is_equal_iff i j, e.is_equal_iff k j)

  pub get-upsert_self :
      (m : IndexMap K V) (k : K) (v : V) (f : V → V)
      → get (upsert m k v f) k ≡ some (elim (get m k) [ none ↦ f v | some w ↦ f w ])
  unfolding get upsert
  get-upsert_self [] k v f = rw (==_refl k)
  get-upsert_self ((j, w) ∷ m) k v f = ground (arith, get-upsert_self m k v f)

  pub get-upsert_ne :
      (m : IndexMap K V) (k j : K) (v : V) (f : V → V)
      → (k == j) ≡ false
      → get (upsert m k v f) j ≡ get m j
  unfolding get upsert
  get-upsert_ne [] k j v f h = rw h
  get-upsert_ne ((i, w) ∷ m) k j v f h =
      ground (
        arith,
        get-upsert_ne m k j v f h,
        e.is_equal_iff i k,
        e.is_equal_iff i j,
        e.is_equal_iff k j,
      )

module _ {ℓ κ} {K : Type ℓ} {V : Type κ} ⦃e : Eq K⦄ where
  pub contains-keys-insert :
      (m : IndexMap K V) (k j : K) (v : V)
      → contains (keys (insert m k v)) j ≡ (k == j || contains (keys m) j)
  unfolding insert
  contains-keys-insert [] k j v = refl
  contains-keys-insert ((i, w) ∷ m) k j v = ground (
    arith,
    contains-keys-insert m k j v,
    e.is_equal_iff i k,
    e.is_equal_iff i j,
    e.is_equal_iff k j,
  )

  pub insert-Distinct :
      (m : IndexMap K V) (k : K) (v : V) → Distinct (keys m) → Distinct (keys (insert m k v))
  unfolding insert
  insert-Distinct [] k v d = (refl, tt)
  insert-Distinct ((i, w) ∷ m) k v d =
      ground (arith, insert-Distinct m k v d.1, contains-keys-insert m k i v, ==_comm i k)

  -- A new key goes to the end.
  pub insert-fresh :
      (m : IndexMap K V) (k : K) (v : V)
      → contains (keys m) k ≡ false
      → insert m k v ≡ m ++ (k, v) ∷ []
  unfolding insert
  insert-fresh [] k v h = refl
  insert-fresh ((i, w) ∷ m) k v h = ground (arith, insert-fresh m k v)

-- How often each element occurs, in the order of the first occurrences.
module _ {ℓ} {A : Type ℓ} ⦃e : Eq A⦄ where
  unfoldable pub tally : IndexMap A ℕ → List A → IndexMap A ℕ
  unfolding upsert
  tally m [] = m
  tally m (x ∷ xs) = tally (upsert m x 0 (λ n. n + 1)) xs

  -- The elements that occur more than once.
  unfoldable pub repeated : List A → List A
  unfolding tally
  repeated xs = keys (keep (λ (p : A × ℕ). ltb 1 p.1) (tally [] xs))

  abbrev flagged : IndexMap A ℕ → Bool
  flagged m = any (λ (p : A × ℕ). ltb 1 p.1) m

  abbrev IsPositive : IndexMap A ℕ → Type 0
  IsPositive m = All (λ (p : A × ℕ). 0 < p.1) m

  abbrev bump : IndexMap A ℕ → A → IndexMap A ℕ
  bump m x = upsert m x 0 (λ n. n + 1)

  bump-IsPositive : (m : IndexMap A ℕ) (x : A) → IsPositive m → IsPositive (bump m x)
  unfolding upsert
  bump-IsPositive [] x h = omega arith
  bump-IsPositive ((j, n) ∷ m) x h = ground (arith, bump-IsPositive m x)

  flagged-bump :
      (m : IndexMap A ℕ) (x : A) → IsPositive m → flagged (bump m x) ≡ (flagged m || has m x)
  unfolding upsert has
  flagged-bump [] x h = refl
  flagged-bump ((j, n) ∷ m) x h = ground (arith, flagged-bump m x)

  has-bump : (m : IndexMap A ℕ) (x y : A) → has (bump m x) y ≡ (x == y || has m y)
  unfolding upsert has
  has-bump [] x y = refl
  has-bump ((j, n) ∷ m) x y =
      ground (arith, has-bump m x y, e.is_equal_iff j x, e.is_equal_iff j y, e.is_equal_iff x y)

  -- No element of the list is a key.
  abbrev IsFresh : IndexMap A ℕ → List A → Type 0
  IsFresh m xs = All (λ x. has m x ≡ false) xs

  IsFresh-bump :
      (m : IndexMap A ℕ) (x : A) (xs : List A)
      → IsFresh (bump m x) xs ↔ ((contains xs x ≡ false) × IsFresh m xs)
  IsFresh-bump m x [] = ground arith
  IsFresh-bump m x (y ∷ ys) = ground (arith, IsFresh-bump m x ys, has-bump m x y, ==_comm x y)

  flagged-tally :
      (m : IndexMap A ℕ) (xs : List A)
      → IsPositive m
      → (flagged (tally m xs) ≡ false) ↔ ((flagged m ≡ false) × Distinct xs × IsFresh m xs)
  unfolding tally
  flagged-tally m [] h = ground arith
  flagged-tally m (x ∷ xs) h =
      let ih = flagged-tally (bump m x) xs (bump-IsPositive m x h) in
      ground (arith, ih, flagged-bump m x h, IsFresh-bump m x xs)

  IsFresh-nil : (xs : List A) → IsFresh [] xs
  unfolding has
  IsFresh-nil [] = tt
  IsFresh-nil (x ∷ xs) = (refl, IsFresh-nil xs)

  -- Nothing is repeated exactly when all elements are distinct.
  pub repeated-nil_iff : (xs : List A) → (is_empty (repeated xs) ≡ true) ↔ Distinct xs
  unfolding repeated
  repeated-nil_iff xs =
      let t = flagged-tally [] xs tt in
      let m = tally [] xs in
      let test = λ (p : A × ℕ). ltb 1 p.1 in
      (
        λ h. (t.0 (is_empty-keep test m (is_empty-keys _ h))).1,
        λ h. rw (keep-nil test m (t.1 (refl, h, IsFresh-nil xs))),
      )
    where
      is_empty-keys : (m : IndexMap A ℕ) → is_empty (keys m) ≡ true → is_empty m ≡ true
      is_empty-keys [] h = refl
      is_empty-keys (x ∷ m) h = cc
