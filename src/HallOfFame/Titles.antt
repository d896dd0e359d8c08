-- ===== src/HallOfFame/Titles.antt =====
-- What the titles table counts, and how it ranks.
use um_fantasy_league.Common.{
  ℕ, suc, ◌+◌, ◌<◌, ◌≤◌, pos, I64, int_eq, ◌==◌, Bool, true, false, Option, none, some, List, [],
  ◌∷◌, map, keep, gather, length, ◌≡◌, ◌↔◌, refl, arith, ◌∙◌, ap, sym, Bool-cases, Option-cases,
  inl, inr, eqb_ℤ_iff,
}
use um_fantasy_league.Common.IndexMap
use um_fantasy_league.Common.IndexMap.{IndexMap, values, get-upsert_self, get-upsert_ne}
use um_fantasy_league.Common.Orders.{IsLinear}
use um_fantasy_league.Common.Sorting.{sort, IsSorted}
use um_fantasy_league.Standings.Board.{StandingsRow}
use um_fantasy_league.Standings.Ranking.{ranks_before, competition_rank_lem}
use um_fantasy_league.HallOfFame.{
  TitleRow, HallOfFameEntry, new_title_row, count_finish, count_rows, titles, ltb_record,
  eqb_record, record_of,
}

-- What a manager's row says, and nothing for a manager without one.
abbrev pub podiums_of : Option TitleRow → ℕ
podiums_of none = 0
podiums_of (some r) = r.podiums

abbrev pub titles_of : Option TitleRow → ℕ
titles_of none = 0
titles_of (some r) = r.titles

module _ {F : Type 0} where
  -- The finishes of a manager, and those in first place.
  abbrev pub finishes : I64 → List (StandingsRow F) → ℕ
  finishes manager rows = length (keep (λ (r : StandingsRow F). r.manager_id == manager) rows)

  abbrev pub wins : I64 → List (StandingsRow F) → ℕ
  wins manager rows = length (
      keep (λ (r : StandingsRow F). r.rank == pos 1)
        (keep (λ (r : StandingsRow F). r.manager_id == manager) rows))

  abbrev bumped : StandingsRow F → Option TitleRow → TitleRow
  bumped row none = count_finish row.rank (new_title_row row)
  bumped row (some r) = count_finish row.rank r

  get-bumped :
      (by_manager : IndexMap I64 TitleRow) (row : StandingsRow F) (manager : I64)
      → row.manager_id ≡ manager
      → IndexMap.get
          (IndexMap.upsert by_manager row.manager_id (new_title_row row) (count_finish row.rank))
          manager
        ≡ some (bumped row (IndexMap.get by_manager manager))
  get-bumped by_manager row manager e =
      let start = new_title_row row in
      let bump = count_finish row.rank in
      ap (IndexMap.get (IndexMap.upsert by_manager row.manager_id start bump)) (sym e)
      ∙ get-upsert_self by_manager row.manager_id start bump
      ∙ ap (λ k. some (elim (IndexMap.get by_manager k) [ none ↦ bump start | some r ↦ bump r ])) e
      ∙ both (IndexMap.get by_manager manager)
    where
      both :
          (o : Option TitleRow)
          → ◌≡◌ {A = Option TitleRow}
              (some (elim o [
                | none ↦ count_finish row.rank (new_title_row row)
                | some r ↦ count_finish row.rank r
              ]))
              (some (bumped row o))
      both none = refl
      both (some r) = refl

  counts-count_rows :
      (by_manager : IndexMap I64 TitleRow) (rows : List (StandingsRow F)) (manager : I64)
      → podiums_of (IndexMap.get by_manager manager) + finishes manager rows < 4_294_967_296
      → titles_of (IndexMap.get by_manager manager) ≤ podiums_of (IndexMap.get by_manager manager)
      → (podiums_of (IndexMap.get (count_rows by_manager rows) manager)
          ≡ podiums_of (IndexMap.get by_manager manager) + finishes manager rows)
        × (titles_of (IndexMap.get (count_rows by_manager rows) manager)
            ≡ titles_of (IndexMap.get by_manager manager) + wins manager rows)
  unfolding count_rows
  counts-count_rows by_manager [] manager few le = ground arith
  counts-count_rows by_manager (row ∷ rows) manager few le =
      let start = new_title_row row in
      let next = IndexMap.upsert by_manager row.manager_id start (count_finish row.rank) in
      elim (Bool-cases (row.manager_id == manager)) [
        | inl same ↦
            let got =
              get-bumped by_manager row manager ((eqb_ℤ_iff row.manager_id manager).0 same) in
            ground (
              arith,
              counts-count_rows next rows manager,
              got,
              Option-cases (IndexMap.get by_manager manager),
            )
        | inr differ ↦ ground (
          arith,
          counts-count_rows next rows manager,
          get-upsert_ne by_manager row.manager_id manager start (count_finish row.rank) differ,
        )
      ]

ltb_record-IsLinear : IsLinear eqb_record ltb_record
ltb_record-IsLinear = record {
  eq_iff = λ a b. eq_iff a b;
  irrefl = λ a. irrefl a;
  trans = λ a b c h k. trans a b c h k;
  total = λ a b h k. total a b h k;
}
  where
    eq_iff : (a b : ℕ × ℕ) → (eqb_record a b ≡ true) ↔ (a ≡ b)
    eq_iff (a, b) (c, d) = ground arith

    irrefl : (a : ℕ × ℕ) → ltb_record a a ≡ false
    irrefl (a, b) = ground arith

    trans : (a b c : ℕ × ℕ) → ltb_record a b ≡ true → ltb_record b c ≡ true → ltb_record a c ≡ true
    trans (a, b) (c, d) (e, f) h k = ground arith

    total : (a b : ℕ × ℕ) → ltb_record a b ≡ false → ltb_record b a ≡ false → a ≡ b
    total (a, b) (c, d) h k = ground arith

abbrev pub has_better : TitleRow → TitleRow → Bool
has_better r other = ltb_record (record_of r) (record_of other)

module _ {F : Type 0} where
  abbrev pub podium_rows : List (HallOfFameEntry F) → List (StandingsRow F)
  podium_rows = gather λ (e : HallOfFameEntry F). e.podium

  abbrev pub counted : List (HallOfFameEntry F) → List TitleRow
  counted tournaments = values (count_rows [] (podium_rows tournaments))

  finishes-le : (manager : I64) (rows : List (StandingsRow F)) → finishes manager rows ≤ length rows
  finishes-le manager [] = omega arith
  finishes-le manager (row ∷ rows) = ground (arith, finishes-le manager rows)

  -- For less than 2^31 managers and 2^32 podium places: every manager is counted with as many podiums as
  -- there are podium rows of the manager, and as many titles as there are such rows of rank one; the table
  -- lists the managers' rows by titles, then by podiums, then by handle; and a row's rank is one more than
  -- the number of rows with more titles, or as many and more podiums.
  pub titles_lem :
      (tournaments : List (HallOfFameEntry F))
      → length (counted tournaments) ≤ 2_147_483_647
      → length (podium_rows tournaments) < 4_294_967_296
      → ((manager : I64)
          → let found = IndexMap.get (count_rows [] (podium_rows tournaments)) manager in
            (podiums_of found ≡ finishes manager (podium_rows tournaments))
            × (titles_of found ≡ wins manager (podium_rows tournaments)))
        × (let before =
              ranks_before eqb_record ltb_record record_of
                (λ (r : TitleRow). r.handle)
                (λ r k. record r { rank = k }) in
            IsSorted before (sort before (counted tournaments))
            × (titles tournaments
                ≡ map
                    (λ (r : TitleRow). record r {
                      rank = pos (suc (length (keep (has_better r) (counted tournaments))));
                    })
                    (sort before (counted tournaments))))
  unfolding titles IndexMap.get
  titles_lem tournaments managers few = (
    λ manager.
        let rows = podium_rows tournaments in
        let got =
          counts-count_rows [] rows manager (omega (arith, finishes-le manager rows))
            (omega arith) in
        (omega (arith, got.0), omega (arith, got.1)),
    competition_rank_lem eqb_record ltb_record record_of (λ (r : TitleRow). r.handle)
        (λ r k. record r { rank = k }) ltb_record-IsLinear (counted tournaments) managers,
  )
