-- ===== src/MatchService/Own.antt =====
-- A match with its own children alone: what a page of matches is to show of each.
use um_fantasy_league.Common.{
  I32, I64, int_eq, nat_eq, list_eq, pair_eq, ◌==◌, Bool, ◌&&◌, List, [], map, keep,
}
use um_fantasy_league.Common.Text.{Text}
use um_fantasy_league.Common.IndexMap
use um_fantasy_league.Common.Sorting.{sort}
use um_fantasy_league.MatchResult.{
  DraftedHeroResult, MatchParticipantResult, GameParticipantResult, GameResult, BanResult,
  MatchResult,
}
use um_fantasy_league.MatchService.{
  MatchRow, ParticipantRow, GameRow, GameParticipantRow, StatRow, BanRow, PickRow, MatchTables,
  joined, by, by_text, drafted_hero, match_participant, game_participant, game_result, ban_result,
  match_result, put_stat,
}
use um_fantasy_league.MatchService.Grouping.{folded}

module _ (collate : Text → Text → Bool) where
  -- The children of one match, of one side or of one game, on their own.
  abbrev pub own_picks : MatchTables → I64 → I32 → List DraftedHeroResult
  own_picks s id side = map (drafted_hero collate) (
      sort (by_text collate (λ (r : PickRow × Text). r.1)) (
        joined s.heroes (λ (p : PickRow). p.hero_id)
          (keep (λ (p : PickRow). p.match_id == id && p.side == side) s.picks)))

  abbrev pub own_participants : MatchTables → I64 → List MatchParticipantResult
  own_participants s id =
      map (match_participant collate (λ (p : ParticipantRow). own_picks s id p.side)) (
        sort (by (λ (p : ParticipantRow). p.side))
          (keep (λ (p : ParticipantRow). p.match_id == id) s.participants))

  abbrev pub own_stats : MatchTables → I64 → I32 → IndexMap.IndexMap Text I32
  own_stats s game side = folded (put_stat collate) [] (
      sort (by_text collate (λ (r : StatRow). r.stat))
        (keep (λ (r : StatRow). r.game_id == game && r.side == side) s.stats))

  abbrev pub own_game_participants : MatchTables → I64 → List GameParticipantResult
  own_game_participants s game =
      map (game_participant collate (λ (p : GameParticipantRow). own_stats s game p.side)) (
        sort (by (λ (r : GameParticipantRow × Text). r.0.side)) (
          joined s.heroes (λ (p : GameParticipantRow). p.hero_id)
            (keep (λ (p : GameParticipantRow). p.game_id == game) s.game_participants)))

  abbrev pub own_games : MatchTables → I64 → List GameResult
  own_games s id = map (game_result collate (λ (g : GameRow). own_game_participants s g.id)) (
      sort (by (λ (r : GameRow × Text). r.0.game_number)) (
        joined s.maps (λ (g : GameRow). g.map_id)
          (keep (λ (g : GameRow). g.match_id == id) s.games)))

  abbrev pub own_bans : MatchTables → I64 → List BanResult
  own_bans s id = map (ban_result collate) (
      sort (by_text collate (λ (r : BanRow × Text). r.1)) (
        joined s.heroes (λ (b : BanRow). b.hero_id)
          (keep (λ (b : BanRow). b.match_id == id) s.bans)))

  abbrev pub own_match : MatchTables → MatchRow → MatchResult
  own_match s =
      match_result collate (λ (h : MatchRow). own_participants s h.id)
        (λ (h : MatchRow). own_games s h.id) (λ (h : MatchRow). own_bans s h.id)
