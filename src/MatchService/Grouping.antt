-- ===== src/MatchService/Grouping.antt =====
-- What the grouping of a page of rows gives for one key, and the orders of the statements.
use um_fantasy_league.Common.{
  ℤ, I64, eqb_ℤ_iff, int_eq, Eq, ◌==◌, Bool, true, Option, none, some, List, [], ◌∷◌, ◌++◌, map,
  keep, find, All, ◌≡◌, refl, arith, sym, ap, ◌∙◌, inl, inr, Bool-cases, if◌then◌else◌,
}
use um_fantasy_league.Common.Text.{Text}
use um_fantasy_league.Common.IndexMap
use um_fantasy_league.Common.Sorting.{sort, IsOrder}
use um_fantasy_league.Common.Pages.{page}
use um_fantasy_league.MatchService.{
  NamedRow, grouped, pushed, group_of, joined, first_by, by, by_text,
}
use mathlib.Core.List.{append_assoc, append-nil}

module _ {ℓ κ} {R : Type ℓ} {V : Type κ} where
  -- The rows put in one after the other.
  abbrev pub folded : (R → V → V) → V → List R → V
  folded put acc [] = acc
  folded put acc (r ∷ rs) = folded put (put r acc) rs

module _ {ℓ κ} {R : Type ℓ} {W : Type κ} where
  pub folded-pushed :
      (value : R → W) (acc : List W) (rs : List R)
      → folded (pushed value) acc rs ≡ acc ++ map value rs
  folded-pushed value acc [] = sym (append-nil acc)
  folded-pushed value acc (r ∷ rs) =
      folded-pushed value (acc ++ value r ∷ []) rs ∙ append_assoc acc (value r ∷ []) (map value rs)

module _ {ℓ κ ι} {K : Type ℓ} {W : Type κ} {R : Type ι} ⦃e : Eq K⦄ (key : R → K)
    (put : R → List W → List W) where
  group_of-upsert :
      (m : IndexMap.IndexMap K (List W)) (r : R) (k : K)
      → group_of (IndexMap.upsert m (key r) [] (put r)) k
        ≡ (if key r == k then put r (group_of m k) else group_of m k)
  group_of-upsert m r k = elim (Bool-cases (key r == k)) [
    | inl same ↦
        let at : key r ≡ k = (e.is_equal_iff (key r) k).0 same in
        rw same (
          rw (← at) (
            ap or_nil (IndexMap.get-upsert_self m (key r) [] (put r))
            ∙ started (IndexMap.get m (key r))))
    | inr other ↦ rw other (ap or_nil (IndexMap.get-upsert_ne m (key r) k [] (put r) other))
  ]
    where
      or_nil : Option (List W) → List W
      or_nil o = elim o [ none ↦ [] | some group ↦ group ]

      started :
          (o : Option (List W))
          → elim o [ none ↦ put r [] | some w ↦ put r w ]
            ≡ put r (elim o [ none ↦ [] | some group ↦ group ])
      started none = refl
      started (some w) = refl

  -- A group has what its rows put in, in their order.
  pub group_of-grouped :
      (m : IndexMap.IndexMap K (List W)) (rows : List R) (k : K)
      → group_of (grouped key [] put m rows) k
        ≡ folded put (group_of m k) (keep (λ (r : R). key r == k) rows)
  unfolding grouped
  group_of-grouped m [] k = refl
  group_of-grouped m (r ∷ rs) k =
      group_of-grouped (IndexMap.upsert m (key r) [] (put r)) rs k
      ∙ (elim (Bool-cases (key r == k)) [
        | inl same ↦ rw (group_of-upsert m r k, same) refl
        | inr other ↦ rw (group_of-upsert m r k, other) refl
      ])

module _ {ℓ} {R : Type ℓ} where
  pub by-IsOrder : (field : R → ℤ) → IsOrder (by field)
  by-IsOrder field = record {
    total = λ x y h. ground arith;
    trans = λ x y z h k. ground (arith, h, k);
  }

  pub first_by-IsOrder :
      (field : R → ℤ) (le : R → R → Bool) → IsOrder le → IsOrder (first_by field le)
  first_by-IsOrder field le o = record {
    total = λ x y h.
        ground
          (arith, o.total x y, eqb_ℤ_iff (field x) (field y), eqb_ℤ_iff (field y) (field x), h);
    trans = λ x y z h k. ground (
      arith,
      o.trans x y z,
      h,
      k,
      eqb_ℤ_iff (field x) (field y),
      eqb_ℤ_iff (field y) (field z),
      eqb_ℤ_iff (field x) (field z),
    );
  }

  pub by_text-IsOrder :
      (collate : Text → Text → Bool) (field : R → Text)
      → IsOrder collate
      → IsOrder (by_text collate field)
  by_text-IsOrder collate field o = record {
    total = λ x y. o.total (field x) (field y);
    trans = λ x y z. o.trans (field x) (field y) (field z);
  }

  -- Between rows with the same number the rest of the order decides.
  pub first_by-same :
      (field : R → ℤ) (le : R → R → Bool) (k : ℤ) (a b : R)
      → (field a == k) ≡ true
      → (field b == k) ≡ true
      → first_by field le a b ≡ le a b
  first_by-same field le k a b x y =
      ground
        (arith, eqb_ℤ_iff (field a) k, eqb_ℤ_iff (field b) k, eqb_ℤ_iff (field a) (field b), x, y)

  pub keep-joined :
      (names : List NamedRow) (of : R → I64) (p : R → Bool) (rows : List R)
      → keep (λ (r : R × Text). p r.0) (joined names of rows) ≡ joined names of (keep p rows)
  keep-joined names of p [] = refl
  keep-joined names of p (r ∷ rs) = ground (arith, keep-joined names of p rs)

  -- The group of a page of joined rows: the rows of the group, joined and sorted on their own.
  pub joined_page :
      (names : List NamedRow) (of : R → I64) (p q : R → Bool) (le le' : R × Text → R × Text → Bool)
      (rows : List R)
      → IsOrder le
      → ((r : R) → p r ≡ true → q r ≡ true)
      → ((a b : R × Text) → p a.0 ≡ true → p b.0 ≡ true → le a b ≡ le' a b)
      → keep (λ (r : R × Text). p r.0) (sort le (joined names of (keep q rows)))
        ≡ sort le' (joined names of (keep p rows))
  joined_page names of p q le le' rows o sub agree =
      ap (λ js. keep (λ (r : R × Text). p r.0) (sort le js)) (sym (keep-joined names of q rows))
      ∙ page le le' (λ r. p r.0) (λ r. q r.0) (joined names of rows) o (λ r. sub r.0) agree
      ∙ ap (sort le') (keep-joined names of p rows)

  pub All-joined {κ} :
      (P : R → Type κ) (names : List NamedRow) (of : R → I64) (rows : List R)
      → All P rows
      → All (λ (r : R × Text). P r.0) (joined names of rows)
  All-joined P names of [] h = tt
  All-joined P names of (r ∷ rs) h =
      named (find (λ (n : NamedRow). n.id == of r) names) (All-joined P names of rs h.1)
    where
      named :
          (found : Option NamedRow)
          → All (λ (x : R × Text). P x.0) (joined names of rs)
          → All
              (λ (x : R × Text). P x.0)
              (elim found [ none ↦ joined names of rs | some n ↦ (r, n.name) ∷ joined names of rs ])
      named none rest = rest
      named (some n) rest = (h.0, rest)
