-- ===== src/MatchService/Query.antt =====
-- backend-rs/crates/umfl-server/src/match/query.rs: recorded matches, read back with their children. A key of a
-- grouping map is looked up once, so that taking its group out of the map is reading it.
use um_fantasy_league.Common.{
  ℕ, I32, I64, int_eq, nat_eq, list_eq, pair_eq, ◌==◌, ltb_ℤ, Bool, true, ◌&&◌, Option, none, some,
  List, [], ◌∷◌, map, keep, find, if◌then◌else◌,
}
use um_fantasy_league.Common.Text.{Text, codes}
use um_fantasy_league.Common.IndexMap
use um_fantasy_league.Common.Sorting.{sort}
use um_fantasy_league.MatchCache.{take}
use um_fantasy_league.MatchResult.{
  BanType, pre_ban, opponent_ban, self_ban, DraftedHeroResult, MatchParticipantResult,
  GameParticipantResult, GameResult, BanResult, MatchResult,
}
use um_fantasy_league.MatchService.Tables.{
  MatchRow, ParticipantRow, GameRow, GameParticipantRow, StatRow, BanRow, PickRow, MatchTables,
}
use um_fantasy_league.MatchService.Writer.{has_link}
use um_fantasy_league.MatchService.Rows.{
  grouped, pushed, group_of, first_by, by, pick_rows, participant_rows, game_rows, stat_rows_of,
  game_participant_rows, ban_rows,
}

unfoldable pub parse_ban_type : Text → BanType
parse_ban_type raw =
    if raw == codes "SELF_BAN"
    then self_ban
    else if raw == codes "OPPONENT_BAN"
    then opponent_ban
    else pre_ban

unfoldable pub find_id_by_external_link : MatchTables → I64 → Text → Option I64
find_id_by_external_link s tournament_id link =
    elim (find (has_link tournament_id link) s.matches) [ none ↦ none | some row ↦ some row.id ]

module _ (collate : Text → Text → Bool) where
  -- The value that a row gives, with the group that belongs to it.
  abbrev pub drafted_hero : PickRow × Text → DraftedHeroResult
  drafted_hero r = record { hero_id = r.0.hero_id; hero_name = r.1 }

  abbrev pub match_participant :
      (ParticipantRow → List DraftedHeroResult) → ParticipantRow → MatchParticipantResult
  match_participant picks p = record {
    side = p.side;
    player_label = p.player_label;
    drafted_heroes = picks p;
  }

  abbrev pub game_participant :
      (GameParticipantRow → IndexMap.IndexMap Text I32)
      → GameParticipantRow × Text
      → GameParticipantResult
  game_participant stats r = record {
    side = r.0.side;
    hero_id = r.0.hero_id;
    hero_name = r.1;
    health_remaining = r.0.health_remaining;
    is_winner = r.0.is_winner;
    stats = stats r.0;
  }

  abbrev pub game_result : (GameRow → List GameParticipantResult) → GameRow × Text → GameResult
  game_result participants r = record {
    game_id = r.0.id;
    game_number = r.0.game_number;
    map_id = r.0.map_id;
    map_name = r.1;
    participants = participants r.0;
  }

  abbrev pub ban_result : BanRow × Text → BanResult
  ban_result r = record {
    hero_id = r.0.hero_id;
    hero_name = r.1;
    ban_type = parse_ban_type r.0.ban_type;
    side = r.0.side;
  }

  abbrev pub match_result :
      (MatchRow → List MatchParticipantResult)
      → (MatchRow → List GameResult)
      → (MatchRow → List BanResult)
      → MatchRow
      → MatchResult
  match_result participants games bans h = record {
    match_id = h.id;
    tournament_id = h.tournament_id;
    round = h.round;
    played_at = h.played_at;
    external_link = h.external_link;
    participants = participants h;
    games = games h;
    bans = bans h;
  }

  -- The maps of `assemble`.
  unfoldable pub picks_map :
      MatchTables → List I64 → IndexMap.IndexMap (I64 × I32) (List DraftedHeroResult)
  unfolding grouped
  picks_map s ids =
      grouped (λ (r : PickRow × Text). (r.0.match_id, r.0.side)) [] (pushed drafted_hero) []
        (pick_rows collate s ids)

  unfoldable pub participants_map :
      MatchTables → List I64 → IndexMap.IndexMap I64 (List MatchParticipantResult)
  unfolding grouped picks_map IndexMap.get
  participants_map s ids =
      grouped (λ (p : ParticipantRow). p.match_id) []
        (pushed (
          match_participant
            (λ (p : ParticipantRow). group_of (picks_map s ids) (p.match_id, p.side))))
        [] (participant_rows collate s ids)

  abbrev pub put_stat : StatRow → IndexMap.IndexMap Text I32 → IndexMap.IndexMap Text I32
  put_stat r named = IndexMap.insert named r.stat r.value

  unfoldable pub stats_map :
      MatchTables → List I64 → IndexMap.IndexMap (I64 × I32) (IndexMap.IndexMap Text I32)
  unfolding grouped IndexMap.insert
  stats_map s ids =
      grouped (λ (r : StatRow). (r.game_id, r.side)) [] put_stat [] (stat_rows_of collate s ids)

  unfoldable pub game_participants_map :
      MatchTables → List I64 → IndexMap.IndexMap I64 (List GameParticipantResult)
  unfolding grouped stats_map IndexMap.get
  game_participants_map s ids =
      grouped (λ (r : GameParticipantRow × Text). r.0.game_id) []
        (pushed (
          game_participant
            (λ (p : GameParticipantRow). group_of (stats_map s ids) (p.game_id, p.side))))
        [] (game_participant_rows collate s ids)

  unfoldable pub games_map : MatchTables → List I64 → IndexMap.IndexMap I64 (List GameResult)
  unfolding grouped game_participants_map IndexMap.get
  games_map s ids =
      grouped (λ (r : GameRow × Text). r.0.match_id) []
        (pushed (game_result (λ (g : GameRow). group_of (game_participants_map s ids) g.id))) []
        (game_rows collate s ids)

  unfoldable pub bans_map : MatchTables → List I64 → IndexMap.IndexMap I64 (List BanResult)
  unfolding grouped parse_ban_type
  bans_map s ids =
      grouped (λ (r : BanRow × Text). r.0.match_id) [] (pushed ban_result) []
        (ban_rows collate s ids)

  unfoldable pub assemble : MatchTables → List MatchRow → List MatchResult
  unfolding participants_map games_map bans_map IndexMap.get
  assemble s [] = []
  assemble s (h ∷ hs) =
      let ids = map (λ (h : MatchRow). h.id) (h ∷ hs) in
      map
        (match_result (λ (h : MatchRow). group_of (participants_map s ids) h.id)
          (λ (h : MatchRow). group_of (games_map s ids) h.id)
          (λ (h : MatchRow). group_of (bans_map s ids) h.id))
        (h ∷ hs)

  abbrev pub head_of {ℓ} : {A : Type ℓ} → List A → Option A
  head_of [] = none
  head_of (x ∷ xs) = some x

  unfoldable pub find_by_id : MatchTables → I64 → Option MatchResult
  unfolding assemble
  find_by_id s id = head_of (assemble s (keep (λ (h : MatchRow). h.id == id) s.matches))

  -- `$2::int is null or m.round = $2::int`
  abbrev pub in_round : Option I32 → MatchRow → Bool
  in_round none h = true
  in_round (some round) h = h.round == round

  abbrev pub oldest_first : MatchRow → MatchRow → Bool
  oldest_first = first_by (λ (h : MatchRow). h.played_at) (by (λ (h : MatchRow). h.id))

  abbrev pub newest_first : MatchRow → MatchRow → Bool
  newest_first a b = oldest_first b a

  unfoldable pub find_by_tournament : MatchTables → I64 → Option I32 → List MatchResult
  unfolding assemble
  find_by_tournament s tournament_id round = assemble s (
      sort oldest_first
        (keep (λ (h : MatchRow). h.tournament_id == tournament_id && in_round round h) s.matches))

  unfoldable pub find_by_tournament_newest_first :
      MatchTables → I64 → Option I32 → ℕ → List MatchResult
  unfolding assemble
  find_by_tournament_newest_first s tournament_id round limit = assemble s (
      take limit (
        sort newest_first (
          keep (λ (h : MatchRow). h.tournament_id == tournament_id && in_round round h) s.matches)))

  -- The ticker's page, which the slice of the cached list stands for.
  unfoldable pub find_by_tournament_since : MatchTables → I64 → I64 → ℕ → List MatchResult
  unfolding assemble
  find_by_tournament_since s tournament_id since limit = assemble s (
      take limit (
        sort newest_first (
          keep (λ (h : MatchRow). h.tournament_id == tournament_id && ltb_ℤ since h.id) s.matches)))
