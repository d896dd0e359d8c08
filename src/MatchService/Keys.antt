-- ===== src/MatchService/Keys.antt =====
-- The keys of the rows of matches under the statements of the writer.
use um_fantasy_league.Common.{
  I64, int_eq, nat_eq, list_eq, pair_eq, Eq, ◌==◌, ==_comm, Bool, false, not, ◌&&◌, ◌||◌, List, [],
  ◌∷◌, ◌++◌, map, keep, any, contains, Distinct, ◌≡◌, refl, arith, ap, inl, inr, Bool-cases,
  if◌then◌else◌, eqb_ℤ_iff,
}
use um_fantasy_league.Common.Text.{Text}
use um_fantasy_league.MatchService.{MatchRow, has_link}

module _ {ℓ κ} {A : Type ℓ} {K : Type κ} ⦃e : Eq K⦄ (f : A → K) where
  contains-map-append :
      (xs : List A) (x : A) (k : K)
      → contains (map f (xs ++ x ∷ [])) k ≡ (contains (map f xs) k || f x == k)
  contains-map-append [] x k = ground arith
  contains-map-append (y ∷ ys) x k = ground (arith, contains-map-append ys x k)

  pub append-Distinct :
      (xs : List A) (x : A)
      → Distinct (map f xs)
      → contains (map f xs) (f x) ≡ false
      → Distinct (map f (xs ++ x ∷ []))
  append-Distinct [] x d fresh = (refl, tt)
  append-Distinct (y ∷ ys) x d fresh = (
    ground (arith, contains-map-append ys x (f y), ==_comm (f x) (f y), d.0, fresh),
    append-Distinct ys x d.1 (ground (arith, fresh)),
  )

  contains-map-keep :
      (p : A → Bool) (xs : List A) (k : K)
      → contains (map f xs) k ≡ false
      → contains (map f (keep p xs)) k ≡ false
  contains-map-keep p [] k h = refl
  contains-map-keep p (x ∷ xs) k h = ground (arith, contains-map-keep p xs k, h)

  pub keep-Distinct :
      (p : A → Bool) (xs : List A) → Distinct (map f xs) → Distinct (map f (keep p xs))
  keep-Distinct p [] d = tt
  keep-Distinct p (x ∷ xs) d = elim (Bool-cases (p x)) [
    | inl stays ↦ rw stays (contains-map-keep p xs (f x) d.0, keep-Distinct p xs d.1)
    | inr goes ↦ rw goes (keep-Distinct p xs d.1)
  ]

abbrev pub link_key : MatchRow → I64 × Text
link_key row = (row.tournament_id, row.external_link)

abbrev pub row_id : MatchRow → I64
row_id row = row.id

abbrev pub replaced_row : I64 → MatchRow → MatchRow → MatchRow
replaced_row id new row = if row.id == id then new else row

-- Another row than the one with the id has the link.
abbrev pub is_link_of_another : I64 → I64 → Text → MatchRow → Bool
is_link_of_another id tournament_id link row = not (row.id == id) && has_link tournament_id link row

pub replaced_row-ids :
    (id : I64) (new : MatchRow) (rows : List MatchRow)
    → new.id ≡ id
    → map row_id (map (replaced_row id new) rows) ≡ map row_id rows
replaced_row-ids id new [] h = refl
replaced_row-ids id new (r ∷ rs) h = elim (Bool-cases (r.id == id)) [
  | inl same ↦
      rw (same, h, (eqb_ℤ_iff r.id id).0 same) (ap (λ ids. id ∷ ids) (replaced_row-ids id new rs h))
  | inr other ↦ rw other (ap (λ ids. r.id ∷ ids) (replaced_row-ids id new rs h))
]

has_link-key :
    (rows : List MatchRow) (t : I64) (link : Text)
    → any (has_link t link) rows ≡ contains (map link_key rows) (t, link)
has_link-key [] t link = refl
has_link-key (r ∷ rs) t link = ground (arith, has_link-key rs t link)

-- Without the replaced row, a key that no other row has is absent.
pub others-lack :
    (rows : List MatchRow) (id t : I64) (link : Text)
    → contains (map row_id rows) id ≡ false
    → any (is_link_of_another id t link) rows ≡ false
    → contains (map link_key rows) (t, link) ≡ false
others-lack [] id t link fresh none_has = refl
others-lack (r ∷ rs) id t link fresh none_has =
    ground (arith, others-lack rs id t link, fresh, none_has)

unreplaced :
    (id : I64) (new : MatchRow) (rows : List MatchRow)
    → contains (map row_id rows) id ≡ false
    → map (replaced_row id new) rows ≡ rows
unreplaced id new [] h = refl
unreplaced id new (r ∷ rs) h = ground (arith, unreplaced id new rs, h)

replaced_row-contains :
    (id : I64) (new : MatchRow) (rows : List MatchRow) (k : I64 × Text)
    → contains (map link_key rows) k ≡ false
    → (link_key new == k) ≡ false
    → contains (map link_key (map (replaced_row id new) rows)) k ≡ false
replaced_row-contains id new [] k h n = refl
replaced_row-contains id new (r ∷ rs) k h n = elim (Bool-cases (r.id == id)) [
  | inl same ↦ rw same (ground (arith, replaced_row-contains id new rs k, h, n))
  | inr other ↦ rw other (ground (arith, replaced_row-contains id new rs k, h, n))
]

-- A row's new link that no other row has keeps the links distinct.
pub replaced_row-Distinct :
    (id : I64) (new : MatchRow) (rows : List MatchRow)
    → Distinct (map row_id rows)
    → Distinct (map link_key rows)
    → any (is_link_of_another id new.tournament_id new.external_link) rows ≡ false
    → Distinct (map link_key (map (replaced_row id new) rows))
replaced_row-Distinct id new [] ids links free = tt
replaced_row-Distinct id new (r ∷ rs) ids links free = elim (Bool-cases (r.id == id)) [
  | inl same ↦
      let here = (eqb_ℤ_iff r.id id).0 same in
      let gone : contains (map row_id rs) id ≡ false = rw here at ids.0 in
      rw (same, unreplaced id new rs gone)
        (others-lack rs id new.tournament_id new.external_link gone (ground (arith, free)), links.1)
  | inr other ↦ rw other (
    replaced_row-contains id new rs (link_key r) links.0
        (ground (arith, ==_comm (link_key new) (link_key r), free, other)),
    replaced_row-Distinct id new rs ids.1 links.1 (ground (arith, free)),
  )
]
