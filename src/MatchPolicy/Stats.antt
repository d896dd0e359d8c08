-- ===== src/MatchPolicy/Stats.antt =====
-- `stat_violations` of match_policy.rs.
use um_fantasy_league.Common.{
  pos, I32, int_eq, nat_eq, list_eq, ltb_ℤ, leb_ℤ, not, List, [], ◌∷◌, ◌++◌, is_empty, contains,
  note, when, report,
}
use um_fantasy_league.Common.Text.{Text}
use um_fantasy_league.Common.IndexMap.{IndexMap}
use um_fantasy_league.Common.Sorting.{sort}
use um_fantasy_league.Unicode.{Unicode}
use um_fantasy_league.RosterRoles.{normalise_stat, is_well_formed_stat}
use um_fantasy_league.MatchPolicy.Input.{
  MatchViolation, violation, MatchGameParticipantInput, MatchGameInput, stat_name_malformed,
  duplicate_stat, stat_value_negative, malformed_stats, games_repeating_stat, games_negative_stat,
}

-- The three vectors that the loops fill.
pub record Found : Type 0 where
  pub malformed : List Text
  pub duplicated : List I32
  pub negative : List I32

abbrev pub nothing_found : Found
nothing_found = record { malformed = []; duplicated = []; negative = [] }

module _ (u : Unicode) where
  -- The innermost loop, with the names that it has seen.
  unfoldable pub scan_stats : I32 → List Text → Found → IndexMap Text I32 → Found
  unfolding normalise_stat is_well_formed_stat
  scan_stats number seen f [] = f
  scan_stats number seen f ((stat, value) ∷ stats) =
      let name = normalise_stat u stat in
      scan_stats number (seen ++ name ∷ [])
        (record {
          malformed = note (not (is_well_formed_stat name)) f.malformed name;
          duplicated = note (contains seen name) f.duplicated number;
          negative = note (ltb_ℤ value (pos 0)) f.negative number;
        })
        stats

  unfoldable pub scan_rows : I32 → Found → List MatchGameParticipantInput → Found
  unfolding scan_stats
  scan_rows number f [] = f
  scan_rows number f (p ∷ ps) = scan_rows number (scan_stats number [] f p.stats) ps

  unfoldable pub scan_games : Found → List MatchGameInput → Found
  unfolding scan_rows
  scan_games f [] = f
  scan_games f (g ∷ gs) = scan_games (scan_rows g.game_number f g.participants) gs

  unfoldable pub stat_violations : List MatchGameInput → List MatchViolation
  unfolding scan_games
  stat_violations games =
      let f = scan_games nothing_found games in
      report (
        when (not (is_empty f.malformed))
          (violation stat_name_malformed (malformed_stats f.malformed))
        ∷ when (not (is_empty f.duplicated))
            (violation duplicate_stat (games_repeating_stat (sort leb_ℤ f.duplicated)))
        ∷ when (not (is_empty f.negative))
            (violation stat_value_negative (games_negative_stat (sort leb_ℤ f.negative)))
        ∷ [])
