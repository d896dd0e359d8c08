-- ===== src/Standings/Ticker.antt =====
-- `ticker` of backend-rs/crates/umfl-domain/src/standings.rs: the newest matches, game by game.
use um_fantasy_league.Common.{
  I32, I64, int_eq, pair_eq, leb_ℤ, Bool, not, ◌&&◌, ◌||◌, Option, none, some, List, [], ◌∷◌, ◌++◌,
  map, gather, contains, to_list, if◌then◌else◌,
}
use um_fantasy_league.Common.Text.{Text}
use um_fantasy_league.Common.IndexMap
use um_fantasy_league.Common.IndexMap.{IndexMap}
use um_fantasy_league.Common.Sorting.{sort}
use um_fantasy_league.Tournament.{DateTime}
use um_fantasy_league.Unicode.{Unicode}
use um_fantasy_league.Numbers.{Numbers, round2, sum_f}
use um_fantasy_league.MatchResult.{
  MatchResult, MatchParticipantResult, DraftedHeroResult, GameResult, GameParticipantResult,
  BanResult, MetricContext, played, drafted, banned, hero_contexts, player_label_for_side,
}
use um_fantasy_league.ScoringEngine.{ScoringRules, score}

pub record TickerGameSide (F : Type 0) : Type 0 where
  pub player_label : Option Text
  pub hero_name : Text
  pub health_remaining : I32
  pub is_winner : Bool
  pub points : F

pub record TickerGame (F : Type 0) : Type 0 where
  pub game_number : I32
  pub map_name : Text
  pub sides : List (TickerGameSide F)

pub record TickerEntry (F : Type 0) : Type 0 where
  pub match_id : I64
  pub round : I32
  pub played_at : DateTime
  pub external_link : Text
  pub games : List (TickerGame F)
  pub banned_hero_names : List Text
  pub drafted_unplayed_hero_names : List Text

-- A game's id and a hero's.
abbrev pub Row : Type 0
Row = I64 × I64

-- `contexts_by_game_and_hero`: a later context of a row overwrites.
unfoldable pub played_by_row :
    IndexMap Row MetricContext → List MetricContext → IndexMap Row MetricContext
unfolding IndexMap.insert
played_by_row rows [] = rows
played_by_row rows (c ∷ cs) = elim c.role [
  | played game row ↦ played_by_row (IndexMap.insert rows (game.game_id, c.hero_id) c) cs
  | drafted ↦ played_by_row rows cs
  | banned ↦ played_by_row rows cs
]

abbrev pub by_number : GameResult → GameResult → Bool
by_number g h = leb_ℤ g.game_number h.game_number

-- `first_game_id_by_hero`: the earliest game wins.
unfoldable pub first_games_of :
    I64 → IndexMap I64 I64 → List GameParticipantResult → IndexMap I64 I64
unfolding IndexMap.or_insert
first_games_of game_id first [] = first
first_games_of game_id first (p ∷ ps) =
    first_games_of game_id (IndexMap.or_insert first p.hero_id game_id) ps

unfoldable pub first_games : IndexMap I64 I64 → List GameResult → IndexMap I64 I64
unfolding first_games_of
first_games first [] = first
first_games first (g ∷ gs) = first_games (first_games_of g.game_id first g.participants) gs

-- `draft_contexts_by_game_and_hero`: a draft is banked against the hero's first game.
unfoldable pub drafts_by_row :
    IndexMap I64 I64 → IndexMap Row MetricContext → List MetricContext → IndexMap Row MetricContext
unfolding IndexMap.insert IndexMap.get
drafts_by_row first rows [] = rows
drafts_by_row first rows (c ∷ cs) = elim c.role [
  | played game row ↦ drafts_by_row first rows cs
  | banned ↦ drafts_by_row first rows cs
  | drafted ↦ elim (IndexMap.get first c.hero_id) [
    | none ↦ drafts_by_row first rows cs
    | some game_id ↦ drafts_by_row first (IndexMap.insert rows (game_id, c.hero_id) c) cs
  ]
]

abbrev pub played_ids : MatchResult → List I64
played_ids m =
    gather (λ (g : GameResult). map (λ (p : GameParticipantResult). p.hero_id) g.participants)
      m.games

-- The loop that collects the drafted heroes without a game, from those seen so far.
unfoldable pub unplayed : List I64 → List I64 → List DraftedHeroResult → List DraftedHeroResult
unplayed played_here seen [] = []
unplayed played_here seen (h ∷ hs) =
    let is_new = not (contains played_here h.hero_id) && not (contains seen h.hero_id) in
    let rest = unplayed played_here (if is_new then seen ++ h.hero_id ∷ [] else seen) hs in
    if is_new then h ∷ rest else rest

unfoldable pub drafted_unplayed : MatchResult → List DraftedHeroResult
unfolding unplayed
drafted_unplayed m =
    unplayed (played_ids m) []
      (gather (λ (p : MatchParticipantResult). p.drafted_heroes) m.participants)

-- The order of `sort_by_key(|p| Reverse(p.is_winner))`
abbrev pub winner_first : GameParticipantResult → GameParticipantResult → Bool
winner_first p q = p.is_winner || not q.is_winner

module _ (n : Numbers) (u : Unicode) where
  open n use {F, D}

  -- The closure that scores a row: the game played, then the draft if it is banked there.
  unfoldable pub side_points :
      ScoringRules D → IndexMap Row MetricContext → IndexMap Row MetricContext → Row → F
  unfolding IndexMap.get round2 score
  side_points rules games drafts row = round2 n (
      sum_f n (
        map (λ c. score n u c rules)
          (to_list (IndexMap.get games row) ++ to_list (IndexMap.get drafts row))))

  unfoldable pub ticker_game :
      ScoringRules D
      → MatchResult
      → IndexMap Row MetricContext
      → IndexMap Row MetricContext
      → GameResult
      → TickerGame F
  unfolding sort side_points player_label_for_side
  ticker_game rules m games drafts g = record {
    game_number = g.game_number;
    map_name = g.map_name;
    sides =
        map
          (λ (p : GameParticipantResult). record {
            player_label = player_label_for_side m p.side;
            hero_name = p.hero_name;
            health_remaining = p.health_remaining;
            is_winner = p.is_winner;
            points = side_points rules games drafts (g.game_id, p.hero_id);
          })
          (sort winner_first g.participants);
  }

  unfoldable pub ticker_entry : ScoringRules D → MatchResult → TickerEntry F
  unfolding hero_contexts played_by_row first_games drafts_by_row sort drafted_unplayed ticker_game
  ticker_entry rules m =
      let contexts = hero_contexts m in
      let games = played_by_row [] contexts in
      let first = first_games [] (sort by_number m.games) in
      let drafts = drafts_by_row first [] contexts in
      record {
        match_id = m.match_id;
        round = m.round;
        played_at = m.played_at;
        external_link = m.external_link;
        games = map (ticker_game rules m games drafts) m.games;
        banned_hero_names = map (λ (b : BanResult). b.hero_name) m.bans;
        drafted_unplayed_hero_names =
            map (λ (h : DraftedHeroResult). h.hero_name) (drafted_unplayed m);
      }

  unfoldable pub ticker : List MatchResult → ScoringRules D → List (TickerEntry F)
  unfolding ticker_entry
  ticker matches rules = map (ticker_entry rules) matches
