-- ===== src/Scenarios.antt =====
-- The theorems at concrete boards, names and caches.
use um_fantasy_league.Common.{
  ◌≤◌, ℤ, pos, I32, I64, int_eq, nat_eq, list_eq, ◌==◌, ltb_ℤ, eqb_ℤ, true, not, ◌&&◌, none, some,
  List, [], ◌∷◌, length, contains, count, keep, map, Distinct, ◌≡◌, refl, arith, suc,
}
use um_fantasy_league.Common.IndexMap
use um_fantasy_league.Common.Text.{Text, codes}
use um_fantasy_league.Common.Sorting.{sort, IsSorted}
use um_fantasy_league.Unicode.{ascii}
use um_fantasy_league.Numbers.{whole, whole-IsOrdered, round2, sum_f}
use um_fantasy_league.Examples.{recorded, win_rules}
use um_fantasy_league.Tournament.{banquest}
use um_fantasy_league.MatchResult.{all_drafted}
use um_fantasy_league.Standings.{EntryRoster, RosterSwap, holdings}
use um_fantasy_league.Standings.Held.{roster_in, covering, holdings_lem}
use um_fantasy_league.Standings.Ranking.{
  ranks_before, competition_rank, above, competition_rank_lem,
}
use um_fantasy_league.Standings.Board.{standings_row, appearances_by_hero, rounded, StandingsRow}
use um_fantasy_league.Standings.Totals.{points_of, earnings}
use um_fantasy_league.Standings.Columns.{standings_row_lem}
use um_fantasy_league.Standings.Ticker.{drafted_unplayed, played_ids}
use um_fantasy_league.Standings.Unplayed.{drafted_ids, drafted_unplayed_lem}
use um_fantasy_league.HeroStats.{PoolHero, HeroTally, tally_matches, start_tallies, overall_points}
use um_fantasy_league.HeroStats.Laws.{hero_tally_lem}
use um_fantasy_league.HallOfFame.{
  HallOfFameEntry, TitleRow, eqb_record, ltb_record, record_of, count_rows, titles,
}
use um_fantasy_league.HallOfFame.Titles.{
  podiums_of, titles_of, finishes, wins, has_better, podium_rows, counted, titles_lem,
}
use um_fantasy_league.NameResolver.{new_resolver, resolve, normalise, aliases}
use um_fantasy_league.NameResolver.Laws.{resolve_lem, or_else, first_id, at_alias}
use um_fantasy_league.MatchCache.{
  announce, miss, load, publish, accept, here, next, pick, outside, start, begin, stamp, commit,
}
use um_fantasy_league.MatchCache.Freshness.{served_fresh}
use um_fantasy_league.MatchCache.Bounded.{rest, mine, calls_end}

abbrev one_swap : RosterSwap
one_swap = record { round = pos 2; hero_out_id = pos 1; hero_in_id = pos 2 }

abbrev pub grace : EntryRoster
grace = record {
  entry_id = pos 7;
  manager_id = pos 3;
  handle = codes "grace";
  display_name = codes "Grace";
  credit_grant = pos 30;
  heroes = record { slot_index = pos 0; hero_id = pos 2; name = codes "B"; cost = pos 15 } ∷ [];
  swaps = one_swap ∷ [];
  role_assignments = [];
}

holdings_example :
    covering (pos 1) (pos 1) (holdings grace)
    ≡ count (pos 1) (roster_in (pos 1) (pos 1 ∷ []) grace.swaps)
holdings_example =
    holdings_lem grace (pos 1 ∷ []) (refl, refl, tt) (omega arith, tt) (λ x. refl) (pos 1) (pos 1)
      (omega arith)

abbrev scores : List (ℤ × I32)
scores = (pos 5, pos 0) ∷ (pos 9, pos 0) ∷ (pos 5, pos 0) ∷ []

abbrev points_of_score : ℤ × I32 → ℤ
points_of_score s = s.0

abbrev unnamed : ℤ × I32 → Text
unnamed s = []

abbrev with_rank : ℤ × I32 → I32 → ℤ × I32
with_rank s k = (s.0, k)

competition_rank_example :
    let before = ranks_before eqb_ℤ ltb_ℤ points_of_score unnamed with_rank in
    IsSorted before (sort before scores)
    × (competition_rank eqb_ℤ ltb_ℤ points_of_score unnamed with_rank scores
        ≡ map
            (λ r.
              with_rank r
                (pos (suc (above eqb_ℤ ltb_ℤ points_of_score unnamed with_rank r.0 scores))))
            (sort before scores))
competition_rank_example =
    competition_rank_lem eqb_ℤ ltb_ℤ points_of_score unnamed with_rank whole-IsOrdered scores
      (omega arith)

standings_row_example :
    let row =
      standings_row whole ascii
        (pos 1)
        win_rules
        none
        (appearances_by_hero whole ascii win_rules [] (recorded ∷ []))
        grace in
    let earned = earnings whole ascii win_rules none grace (recorded ∷ []) in
    ((k : Text)
      → contains win_rules.scored_metrics k ≡ true
      → IndexMap.get row.breakdown k
        ≡ some (round2 whole (sum_f whole (points_of (λ e. e.metric == k) earned))))
    × (row.round_points ≡ round2 whole (sum_f whole (points_of (λ e. e.round == pos 1) earned)))
standings_row_example = standings_row_lem whole ascii (pos 1) win_rules none grace (recorded ∷ [])

drafted_unplayed_example :
    Distinct (drafted_ids (drafted_unplayed recorded))
    × ((h : I64)
        → contains (drafted_ids (drafted_unplayed recorded)) h ≡ (
            contains (all_drafted recorded.participants) h
            && not (contains (played_ids recorded) h)))
drafted_unplayed_example = drafted_unplayed_lem recorded

abbrev steady : EntryRoster
steady = record grace { swaps = [] }

abbrev pool : List PoolHero
pool = record { hero_id = pos 2; name = codes "B"; image_url = none; cost = pos 15 } ∷ []

hero_tally_example :
    let row =
      standings_row whole ascii
        (pos 1)
        win_rules
        none
        (appearances_by_hero whole ascii win_rules [] (recorded ∷ []))
        steady in
    (t : HeroTally ℤ) × (IndexMap.get
        (tally_matches whole ascii win_rules
          (start_tallies whole ascii win_rules [] pool)
          (recorded ∷ []))
        (pos 2)
      ≡ some t)
    × (row.breakdown ≡ rounded whole ascii t.breakdown)
    × (row.total_points
        ≡ overall_points whole ascii (record t { breakdown = rounded whole ascii t.breakdown }))
hero_tally_example =
    hero_tally_lem whole ascii win_rules pool steady (recorded ∷ []) (pos 2) (pos 1) refl refl refl
      (omega arith, tt)

abbrev catalogue : List (Text × I64)
catalogue = (codes "Buffy", pos 4) ∷ []

resolve_example :
    let key = normalise ascii (codes "Buffy Giles") in
    resolve ascii (new_resolver ascii catalogue) (some (codes "Buffy Giles"))
    ≡ or_else ascii
        (first_id ascii catalogue key)
        (at_alias ascii catalogue (IndexMap.get aliases key))
resolve_example = resolve_lem ascii catalogue (codes "Buffy Giles")

calls_end_example : 2 ≤ 17
calls_end_example = calls_end {i = 0} {s = start} (mine (mine rest begin) stamp) refl

-- A call that loads the list after one write.
served_fresh_example : 1 ≤ 1
served_fresh_example =
    served_fresh
      (next
        (next
          (next
            (next
              (next
                (next
                  (next (next here (outside commit))
                    (outside (announce 1 (omega arith) (omega arith))))
                  (pick 0 begin))
                (pick 0 stamp))
              (pick 0 (miss refl refl)))
            (pick 0 load))
          (pick 0 publish))
        (pick 0 (accept refl)))
      0 1 1 refl

abbrev first_place : StandingsRow ℤ
first_place = record {
  rank = pos 1;
  entry_id = pos 7;
  manager_id = pos 3;
  handle = codes "grace";
  display_name = codes "Grace";
  roster = codes "B" ∷ [];
  spent = pos 15;
  credit_grant = pos 30;
  total_points = pos 9;
  round_points = pos 3;
  breakdown = [];
}

abbrev won_cup : List (HallOfFameEntry ℤ)
won_cup =
    record {
      tournament_id = pos 1;
      name = codes "Spring Cup";
      format = banquest;
      start_date = pos 20_000;
      end_date = none;
      rule_set_name = codes "Standard";
      entrants = 1;
      podium = first_place ∷ [];
    }
    ∷ []

won_cup-counted : length (counted won_cup) ≤ 2_147_483_647
unfolding count_rows IndexMap.upsert IndexMap.get
won_cup-counted = omega arith

titles_example :
    ((manager : I64)
      → let found = IndexMap.get (count_rows [] (podium_rows won_cup)) manager in
        (podiums_of found ≡ finishes manager (podium_rows won_cup))
        × (titles_of found ≡ wins manager (podium_rows won_cup)))
    × (let before =
          ranks_before eqb_record ltb_record record_of
            (λ (r : TitleRow). r.handle)
            (λ r k. record r { rank = k }) in
        IsSorted before (sort before (counted won_cup))
        × (titles won_cup
            ≡ map
                (λ (r : TitleRow). record r {
                  rank = pos (suc (length (keep (has_better r) (counted won_cup))));
                })
                (sort before (counted won_cup))))
titles_example = titles_lem won_cup won_cup-counted (omega arith)
