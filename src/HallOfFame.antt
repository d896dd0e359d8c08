-- ===== src/HallOfFame.antt =====
-- backend-rs/crates/umfl-domain/src/hall_of_fame.rs: the podiums of the completed tournaments, and the
-- titles that they add up to.
pub mod Titles
use um_fantasy_league.Common.{
  ℕ, ◌+◌, ◌%◌, ℤ, pos, I32, I64, int_eq, ◌==◌, ltb, eqb, leb_ℤ, Bool, true, false, ◌&&◌, ◌||◌,
  Option, none, some, List, [], ◌∷◌, map, keep, gather, length, if◌then◌else◌,
}
use um_fantasy_league.Common.Text.{Text}
use um_fantasy_league.Common.IndexMap
use um_fantasy_league.Common.IndexMap.{IndexMap, values}
use um_fantasy_league.Common.Orders.{leb_pair}
use um_fantasy_league.Common.Sorting.{sort}
use um_fantasy_league.Tournament.{Date, TournamentFormat}
use um_fantasy_league.Standings.Board.{StandingsBoard, StandingsRow}
use um_fantasy_league.Standings.Ranking.{competition_rank}

abbrev pub podium_depth : I32
podium_depth = pos 3

pub record CompletedTournament : Type 0 where
  pub tournament_id : I64
  pub name : Text
  pub format : TournamentFormat
  pub start_date : Date
  pub end_date : Option Date

pub record HallOfFameEntry (F : Type 0) : Type 0 where
  pub tournament_id : I64
  pub name : Text
  pub format : TournamentFormat
  pub start_date : Date
  pub end_date : Option Date
  pub rule_set_name : Text
  pub entrants : ℕ
  pub podium : List (StandingsRow F)

pub record TitleRow : Type 0 where
  pub rank : I32
  pub manager_id : I64
  pub handle : Text
  pub display_name : Text
  pub titles : ℕ
  pub podiums : ℕ

pub record HallOfFame (F : Type 0) : Type 0 where
  pub titles : List TitleRow
  pub tournaments : List (HallOfFameEntry F)

-- `+= 1` of a `u32`
abbrev pub add_one_u32 : ℕ → ℕ
add_one_u32 k = (k + 1) % 4_294_967_296

-- The order of pairs of counts, by the first and then by the second.
abbrev pub ltb_record : ℕ × ℕ → ℕ × ℕ → Bool
ltb_record (a, b) (c, d) = ltb a c || eqb a c && ltb b d

abbrev pub eqb_record : ℕ × ℕ → ℕ × ℕ → Bool
eqb_record (a, b) (c, d) = eqb a c && eqb b d

abbrev pub record_of : TitleRow → ℕ × ℕ
record_of r = (r.titles, r.podiums)

abbrev pub count_finish : I32 → TitleRow → TitleRow
count_finish rank r = record r {
  podiums = add_one_u32 r.podiums;
  titles = if rank == pos 1 then add_one_u32 r.titles else r.titles;
}

abbrev pub or_start : Option Date → Date → Date
or_start none start = start
or_start (some date) start = date

module _ {F : Type 0} where
  -- One round of the loop of `titles`.
  abbrev pub new_title_row : StandingsRow F → TitleRow
  new_title_row row = record {
    rank = pos 0;
    manager_id = row.manager_id;
    handle = row.handle;
    display_name = row.display_name;
    titles = 0;
    podiums = 0;
  }

  unfoldable pub count_rows : IndexMap I64 TitleRow → List (StandingsRow F) → IndexMap I64 TitleRow
  unfolding IndexMap.upsert
  count_rows by_manager [] = by_manager
  count_rows by_manager (row ∷ rows) =
      count_rows
        (IndexMap.upsert by_manager row.manager_id (new_title_row row) (count_finish row.rank)) rows

  -- `titles`: its sort and its ranking loop are those of `competition_rank`, on the pair of counts.
  unfoldable pub titles : List (HallOfFameEntry F) → List TitleRow
  unfolding count_rows competition_rank
  titles tournaments =
      competition_rank eqb_record ltb_record record_of (λ r. r.handle)
        (λ r k. record r { rank = k })
        (values (count_rows [] (gather (λ (e : HallOfFameEntry F). e.podium) tournaments)))

  unfoldable pub finished_on : HallOfFameEntry F → Date
  finished_on e = or_start e.end_date e.start_date

  -- The comparison of `sort_by` is not `Greater`: the newest first, and then the greatest id.
  abbrev pub newest_first : HallOfFameEntry F → HallOfFameEntry F → Bool
  newest_first a b = leb_pair (finished_on b, b.tournament_id) (finished_on a, a.tournament_id)

  abbrev pub on_podium : StandingsRow F → Bool
  on_podium row = leb_ℤ row.rank podium_depth

  unfoldable pub entry_of : CompletedTournament × StandingsBoard F → HallOfFameEntry F
  entry_of (t, board) = record {
    tournament_id = t.tournament_id;
    name = t.name;
    format = t.format;
    start_date = t.start_date;
    end_date = t.end_date;
    rule_set_name = board.rule_set_name;
    entrants = length board.rows;
    podium = keep on_podium board.rows;
  }

  -- `build`
  unfoldable pub build : List (CompletedTournament × StandingsBoard F) → HallOfFame F
  unfolding entry_of sort titles
  build completed =
      let tournaments = sort newest_first (map entry_of completed) in
      record { titles = titles tournaments; tournaments = tournaments }
