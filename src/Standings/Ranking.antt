-- ===== src/Standings/Ranking.antt =====
-- `competition_rank` of backend-rs/crates/umfl-domain/src/standings.rs, which the leaderboard and the hero
-- tables share. The rows, their points, their names and the field for the rank are parameters, as there.
use um_fantasy_league.Common.{
  ℕ, suc, ◌+◌, ◌≤◌, ◌<◌, pos, add_i32-index, I32, add_i32, wrap, Bool, true, false, Option, none,
  some, List, [], ◌∷◌, ◌++◌, map, keep, length, All, All-map, if◌then◌else◌, ◌≡◌, refl, arith, ◌∙◌,
  ap, inl, inr, Bool-cases, length-append,
}
use um_fantasy_league.Common.Text.{Text, leb_text}
use um_fantasy_league.Common.Sorting.{
  sort, IsSorted, IsOrder, sort-IsSorted, length-keep-sort, length-sort,
}
use um_fantasy_league.Common.Orders.{IsLinear, leb_text-IsOrder}

-- `index as i32 + 1`
abbrev pub place_of : ℕ → I32
place_of index = add_i32 (wrap (pos index)) (pos 1)

module _ {ℓ} {F : Type 0} (eq lt : F → F → Bool) {T : Type ℓ} (points : T → F) (tiebreak : T → Text)
    (set_rank : T → I32 → T) where
  -- The comparison of `sort_by` is not `Greater`.
  abbrev pub ranks_before : T → T → Bool
  ranks_before a b =
      if lt (points b) (points a)
      then true
      else if lt (points a) (points b)
      then false
      else leb_text (tiebreak a) (tiebreak b)

  abbrev pub is_tied : Option F → F → Bool
  is_tied none p = false
  is_tied (some q) p = eq q p

  -- The loop, with its rank, its previous points and the index of its next row.
  unfoldable pub assign_ranks : I32 → Option F → ℕ → List T → List T
  assign_ranks current previous index [] = []
  assign_ranks current previous index (row ∷ rows) =
      let rank = (if is_tied previous (points row) then current else place_of index) in
      set_rank row rank ∷ assign_ranks rank (some (points row)) (suc index) rows

  unfoldable pub competition_rank : List T → List T
  unfolding assign_ranks
  competition_rank rows = assign_ranks (pos 0) none 0 (sort ranks_before rows)

  -- How many rows have more points.
  abbrev pub above : F → List T → ℕ
  above p rows = length (keep (λ row. lt p (points row)) rows)

  module _ (o : IsLinear eq lt) where
    ranks_before_total : (x y : T) → ranks_before x y ≡ false → ranks_before y x ≡ true
    ranks_before_total x y h = ground (arith, leb_text-IsOrder.total (tiebreak x) (tiebreak y))

    ranks_before_trans :
        (x y z : T) → ranks_before x y ≡ true → ranks_before y z ≡ true → ranks_before x z ≡ true
    ranks_before_trans x y z h k = ground (
      arith,
      o.total (points x) (points y),
      o.total (points y) (points z),
      o.irrefl (points y),
      o.trans (points z) (points y) (points x),
      o.trans (points x) (points y) (points z),
      leb_text-IsOrder.trans (tiebreak x) (tiebreak y) (tiebreak z),
    )

    ranks_before-IsOrder : IsOrder ranks_before
    ranks_before-IsOrder = record { total = ranks_before_total; trans = ranks_before_trans }

    not_above :
        (x : T) (rows : List T)
        → All (λ y. ranks_before x y ≡ true) rows
        → All (λ y. lt (points x) (points y) ≡ false) rows
    not_above x rows h =
        All-map
          (λ y r. ground (arith, o.irrefl (points x), o.trans (points x) (points y) (points x)))
          rows h

    above-zero :
        (p : F) (rows : List T) → All (λ y. lt p (points y) ≡ false) rows → above p rows ≡ 0
    above-zero p [] h = refl
    above-zero p (y ∷ rows) h = ground (arith, above-zero p rows)

    above-all :
        (p q : F) (rows : List T)
        → lt p q ≡ true
        → All (λ y. lt (points y) q ≡ false) rows
        → above p rows ≡ length rows
    above-all p q [] lt_pq h = refl
    above-all p q (y ∷ rows) lt_pq h =
        ground (arith, above-all p q rows lt_pq, o.total (points y) q, o.trans p q (points y))

    above-snoc :
        (p : F) (rows : List T) (x : T) → above p (rows ++ x ∷ []) ≡ above p rows + above p (x ∷ [])
    above-snoc p [] x = omega arith
    above-snoc p (y ∷ rows) x = ground (arith, above-snoc p rows x)

    -- What the loop knows of the rows that it has ranked.
    abbrev IsCurrent : List T → Option F → I32 → List T → List T → Type 0
    IsCurrent all none current before rows = length before ≡ 0
    IsCurrent all (some q) current before rows =
        (current ≡ pos (suc (above q all)))
        × All (λ a. lt (points a) q ≡ false) before
        × All (λ b. lt q (points b) ≡ false) rows

    above-cons :
        (p : F) (x : T) (rows : List T) → above p (x ∷ rows) ≡ above p (x ∷ []) + above p rows
    above-cons p x rows = ground arith

    All-snoc : (P : T → Type 0) (rows : List T) (x : T) → All P rows → P x → All P (rows ++ x ∷ [])
    All-snoc P [] x h k = (k, tt)
    All-snoc P (y ∷ rows) x h k = (h.0, All-snoc P rows x h.1 k)

    above-empty : (p : F) (rows : List T) → length rows ≡ 0 → above p rows ≡ 0
    above-empty p [] h = refl
    above-empty p (x ∷ rows) h = cc

    -- The rank that the loop gives a row is one more than the rows that have more points.
    rank-head :
        (all before rows : List T) (previous : Option F) (current : I32) (row : T)
        → ((p : F) → above p all ≡ above p before + above p (row ∷ rows))
        → length before < 2_147_483_647
        → All (λ y. ranks_before row y ≡ true) rows
        → IsCurrent all previous current before (row ∷ rows)
        → (if is_tied previous (points row) then current else place_of (length before))
          ≡ pos (suc (above (points row) all))
    rank-head all before rows none current row split few sorted now =
        let p = points row in
        ground (
          arith,
          split p,
          above-empty p before now,
          o.irrefl p,
          above-zero p rows (not_above row rows sorted),
          add_i32-index (length before) few,
        )
    rank-head all before rows (some q) current row split few sorted now =
        elim (Bool-cases (eq q (points row))) [
          | inl tied ↦
              rw tied (now.0 ∙ ap (λ x. pos (suc (above x all))) ((o.eq_iff q (points row)).0 tied))
          | inr differ ↦
              let p = points row in
              rw differ (
                ground (
                  arith,
                  split p,
                  o.irrefl p,
                  o.eq_iff q p,
                  o.total q p,
                  above-zero p rows (not_above row rows sorted),
                  above-all p q before,
                  add_i32-index (length before) few,
                ))
        ]

    not_below :
        (a b : T) (q : F)
        → lt (points a) q ≡ false
        → lt q (points b) ≡ false
        → lt (points a) (points b) ≡ false
    not_below a b q h k =
        ground (arith, o.total (points a) q, o.total q (points b), o.trans q (points a) (points b))

    -- Every ranked row has at least the points of the next one.
    next_floor :
        (all before : List T) (row : T) (rows : List T) (previous : Option F) (current : I32)
        → IsCurrent all previous current before (row ∷ rows)
        → All (λ a. lt (points a) (points row) ≡ false) (before ++ row ∷ [])
    next_floor all [] row rows none current now = (o.irrefl (points row), tt)
    next_floor all (x ∷ before) row rows none current now = cc
    next_floor all before row rows (some q) current now =
        All-snoc _ before row (All-map (λ a h. not_below a row q h now.2.0) before now.1)
          (o.irrefl (points row))

    assign_ranks_lem :
        (all before rows : List T) (previous : Option F) (current : I32)
        → ((p : F) → above p all ≡ above p before + above p rows)
        → length before + length rows ≤ 2_147_483_647
        → IsSorted ranks_before rows
        → IsCurrent all previous current before rows
        → assign_ranks current previous (length before) rows
          ≡ map (λ r. set_rank r (pos (suc (above (points r) all)))) rows
    unfolding assign_ranks
    assign_ranks_lem all before [] previous current split few sorted now = refl
    assign_ranks_lem all before (row ∷ rows) previous current split few sorted now =
        let p = points row in
        let all_rows = before ++ row ∷ [] in
        let head =
          rank-head all before rows previous current row split (omega arith) sorted.0 now in
        let longer : length all_rows ≡ suc (length before) =
          omega (arith, length-append before (row ∷ [])) in
        let rank = pos (suc (above p all)) in
        let rest =
          assign_ranks_lem all all_rows rows (some p) rank
            (λ r. omega (arith, split r, above-snoc r before row, above-cons r row rows))
            (omega arith) sorted.1
            (
              refl,
              next_floor all before row rows previous current now,
              not_above row rows sorted.0,
            ) in
        rw (head, ← longer) (ap (◌∷◌ (set_rank row rank)) rest)

    -- For points in a linear order and at most 2^31 - 1 rows: the ranking lists the rows by their points, the
    -- greatest first, and those of equal points by their names, and each row's rank is one more than the
    -- number of rows that have more points than it.
    pub competition_rank_lem :
        (rows : List T)
        → length rows ≤ 2_147_483_647
        → IsSorted ranks_before (sort ranks_before rows)
          × (competition_rank rows
              ≡ map (λ r. set_rank r (pos (suc (above (points r) rows)))) (sort ranks_before rows))
    unfolding competition_rank
    competition_rank_lem rows few = (
      sort-IsSorted ranks_before ranks_before-IsOrder rows,
      assign_ranks_lem rows [] (sort ranks_before rows) none (pos 0)
          (λ p. omega (arith, length-keep-sort ranks_before (λ row. lt p (points row)) rows))
          (omega (arith, length-sort ranks_before rows))
          (sort-IsSorted ranks_before ranks_before-IsOrder rows) refl,
    )
