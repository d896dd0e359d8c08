-- ===== src/MatchService/States.antt =====
-- The states of the tables of matches that the handlers of
-- backend-rs/crates/umfl-server/src/match/admin_service.rs lead to, in any order of their calls.
-- Others edit the catalogues, the pools and the tournaments.
use um_fantasy_league.Common.{pos, I32, I64, Bool, Option, List, [], ◌≡◌}
use um_fantasy_league.Common.Text.{Text}
use um_fantasy_league.Unicode.{Unicode}
use um_fantasy_league.Tournament.{Tournament, DateTime}
use um_fantasy_league.TournamentService.{PoolRow}
use um_fantasy_league.MatchResult.{MatchResult}
use um_fantasy_league.MatchPolicy.Input.{MatchParticipantInput, MatchGameInput, MatchBanInput}
use um_fantasy_league.MatchService.{
  done, NamedRow, MatchTables, record_match, correct, delete, delete_match,
}

module _ (collate : Text → Text → Bool) (u : Unicode) where
  -- A call that succeeds; one that fails changes nothing.
  pub data Step (s : MatchTables) : MatchTables → Type 0 where
    records :
        (tournament_id : I64) (round : Option I32) (played_at : DateTime) (link : Text)
        (participants : List MatchParticipantInput) (games : List MatchGameInput)
        (bans : List MatchBanInput) {s' : MatchTables} {m : MatchResult}
        → record_match collate u s tournament_id round played_at link participants games bans
          ≡ done (s', m)
        → Step s s'
    corrects :
        (tournament_id match_id : I64) (round : Option I32) (played_at : DateTime) (link : Text)
        (participants : List MatchParticipantInput) (games : List MatchGameInput)
        (bans : List MatchBanInput) {s' : MatchTables} {m : MatchResult}
        → correct collate u s tournament_id match_id round played_at link participants games bans
          ≡ done (s', m)
        → Step s s'
    deletes :
        (tournament_id match_id : I64) {s' : MatchTables}
        → delete collate u s tournament_id match_id ≡ done s'
        → Step s s'
    -- The deletion of a tournament deletes its matches, one by one.
    cascades : (match_id : I64) → Step s (delete_match s match_id)
    edits :
        (tournaments : List Tournament) (heroes maps : List NamedRow) (pool : List PoolRow)
        (map_pool : List (I64 × I64))
        → Step s (record s {
          tournaments = tournaments;
          heroes = heroes;
          maps = maps;
          pool = pool;
          map_pool = map_pool;
        })

  -- The tables before the first call.
  abbrev pub start : MatchTables
  start = record {
    tournaments = [];
    heroes = [];
    maps = [];
    pool = [];
    map_pool = [];
    matches = [];
    participants = [];
    games = [];
    game_participants = [];
    stats = [];
    bans = [];
    picks = [];
    next_match_id = pos 1;
    next_game_id = pos 1;
  }

  pub data Reach : MatchTables → Type 0 where
    here : Reach start
    next : {s s' : MatchTables} → Reach s → Step s s' → Reach s'
