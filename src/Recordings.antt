-- ===== src/Recordings.antt =====
-- The theorems on recorded matches at concrete tables.
use um_fantasy_league.Common.{
  pos, I64, int_eq, nat_eq, list_eq, pair_eq, ◌+ℤ◌, wrap, true, false, none, some, [], ◌∷◌, map,
  Distinct, ◌≡◌, refl,
}
use um_fantasy_league.Common.IndexMap
use um_fantasy_league.Common.IndexMap.{repeated, tally}
use um_fantasy_league.Common.Sorting.{sort, insert_sorted, insert_set, to_set}
use um_fantasy_league.Common.Text.{Text, codes, leb_text}
use um_fantasy_league.Common.Orders.{leb_text-IsOrder}
use um_fantasy_league.Unicode.{ascii, trim}
use um_fantasy_league.Examples.{spring_cup, sent}
use um_fantasy_league.MatchResult.{push_fresh, GameParticipantResult, MatchResult}
use um_fantasy_league.MatchPolicy.{
  validate, validate_expecting, game_numbers, is_bad_side, undrafted_plays, undrafted_rows,
}
use um_fantasy_league.MatchPolicy.Stats.{stat_violations}
use um_fantasy_league.MatchService.{
  done, failed, link_taken, MatchTables, match_row, violations_of, find_id_by_external_link,
  record_match, assemble, insert, insert_children, insert_participants, insert_games, insert_game,
  insert_bans, insert_picks, to_participants, blank_to_none, to_games, to_bans, to_picks,
  find_by_id, participants_map, picks_map, games_map, game_participants_map, stats_map, bans_map,
  grouped, require_link_unused,
}
use um_fantasy_league.MatchService.{enumerate}
use um_fantasy_league.MatchService.Named.{named_bans}
use um_fantasy_league.MatchService.Answers.{answered_side, record_match-answers}
use um_fantasy_league.MatchService.Keys.{row_id, link_key}
use um_fantasy_league.MatchService.States.{start, Reach, here, next, edits, records}
use um_fantasy_league.MatchService.Links.{links-Distinct}
use um_fantasy_league.MatchService.Assembly.{assemble-own_match}
use um_fantasy_league.MatchService.Own.{own_match}
use um_fantasy_league.MatchService.Recording.{submitted, record_match-steps, record_match_lem}

abbrev before_match : MatchTables
before_match = record (start leb_text ascii) {
  tournaments = spring_cup ∷ [];
  heroes =
      record { id = pos 1; name = codes "Arthur" }
      ∷ record { id = pos 2; name = codes "Beowulf" }
      ∷ [];
  maps = record { id = pos 1; name = codes "Sarpedon" } ∷ [];
  pool =
      record { tournament_id = pos 1; hero_id = pos 1; cost = pos 10 }
      ∷ record { tournament_id = pos 1; hero_id = pos 2; cost = pos 10 }
      ∷ [];
  map_pool = (pos 1, pos 1) ∷ [];
}

before_match-Reach : Reach leb_text ascii before_match
before_match-Reach = next here (
    edits before_match.tournaments before_match.heroes before_match.maps before_match.pool
      before_match.map_pool)

sent_is_clean : violations_of ascii before_match (pos 1) sent.participants sent.games sent.bans ≡ []
unfolding violations_of validate validate_expecting game_numbers is_bad_side undrafted_plays
    undrafted_rows stat_violations repeated tally IndexMap.upsert sort insert_sorted insert_set
    to_set wrap
sent_is_clean = refl

abbrev page_link : Text
page_link = codes " urn:umfl:match:1 "

record_match_example :
    (find_id_by_external_link before_match (pos 1) (trim ascii page_link) ≡ none
      → (s' : MatchTables) × (record_match leb_text ascii before_match
            (pos 1)
            none
            (pos 9)
            page_link
            sent.participants
            sent.games
            sent.bans
          ≡ done (
            s',
            own_match leb_text s' (
                match_row (pos 1) (
                  submitted leb_text ascii leb_text-IsOrder before_match
                    (pos 1)
                    spring_cup
                    none
                    (pos 9)
                    page_link
                    sent.participants
                    sent.games
                    sent.bans)),
          ))
        × (find_id_by_external_link s' (pos 1) (trim ascii page_link) ≡ some (pos 1)))
    × ((id : I64)
        → find_id_by_external_link before_match (pos 1) (trim ascii page_link) ≡ some id
        → record_match leb_text ascii before_match
            (pos 1)
            none
            (pos 9)
            page_link
            sent.participants
            sent.games
            sent.bans
          ≡ failed (link_taken id (trim ascii page_link)))
record_match_example =
    record_match_lem leb_text ascii leb_text-IsOrder before_match (pos 1) spring_cup none (pos 9)
      page_link sent.participants sent.games sent.bans before_match-Reach refl sent_is_clean refl

-- The match as it is stored and read back.
abbrev after_match : MatchTables
after_match = record before_match {
  matches =
      record {
        id = pos 1;
        tournament_id = pos 1;
        round = pos 1;
        played_at = pos 9;
        external_link = codes "urn:umfl:match:1";
      }
      ∷ [];
  participants =
      record { match_id = pos 1; side = pos 0; player_label = none }
      ∷ record { match_id = pos 1; side = pos 1; player_label = none }
      ∷ [];
  games =
      record {
        id = pos 1;
        match_id = pos 1;
        tournament_id = pos 1;
        game_number = pos 1;
        map_id = pos 1;
      }
      ∷ [];
  game_participants =
      record {
        game_id = pos 1;
        side = pos 0;
        hero_id = pos 1;
        health_remaining = pos 4;
        is_winner = true;
      }
      ∷ record {
        game_id = pos 1;
        side = pos 1;
        hero_id = pos 2;
        health_remaining = pos 0;
        is_winner = false;
      }
      ∷ [];
  picks =
      record { match_id = pos 1; side = pos 0; hero_id = pos 1 }
      ∷ record { match_id = pos 1; side = pos 1; hero_id = pos 2 }
      ∷ [];
  next_match_id = pos 2;
  next_game_id = pos 2;
}

abbrev arthur : GameParticipantResult
arthur = record {
  side = pos 0;
  hero_id = pos 1;
  hero_name = codes "Arthur";
  health_remaining = pos 4;
  is_winner = true;
  stats = [];
}

abbrev beowulf : GameParticipantResult
beowulf = record {
  side = pos 1;
  hero_id = pos 2;
  hero_name = codes "Beowulf";
  health_remaining = pos 0;
  is_winner = false;
  stats = [];
}

abbrev read_match : MatchResult
read_match = record {
  match_id = pos 1;
  tournament_id = pos 1;
  round = pos 1;
  played_at = pos 9;
  external_link = codes "urn:umfl:match:1";
  participants =
      record {
        side = pos 0;
        player_label = none;
        drafted_heroes = record { hero_id = pos 1; hero_name = codes "Arthur" } ∷ [];
      }
      ∷ record {
        side = pos 1;
        player_label = none;
        drafted_heroes = record { hero_id = pos 2; hero_name = codes "Beowulf" } ∷ [];
      }
      ∷ [];
  games =
      record {
        game_id = pos 1;
        game_number = pos 1;
        map_id = pos 1;
        map_name = codes "Sarpedon";
        participants = arthur ∷ beowulf ∷ [];
      }
      ∷ [];
  bans = [];
}

match_is_inserted :
    insert before_match (
      submitted leb_text ascii leb_text-IsOrder before_match
        (pos 1)
        spring_cup
        none
        (pos 9)
        page_link
        sent.participants
        sent.games
        sent.bans)
    ≡ done (after_match, pos 1)
unfolding insert insert_children insert_participants insert_games insert_game insert_bans
    insert_picks to_participants blank_to_none to_games to_bans to_picks push_fresh trim ◌+ℤ◌
match_is_inserted = refl

match_is_read : find_by_id leb_text after_match (pos 1) ≡ some read_match
unfolding find_by_id assemble participants_map picks_map games_map game_participants_map stats_map
    bans_map grouped sort insert_sorted IndexMap.upsert IndexMap.get
match_is_read = refl

link_is_unused : require_link_unused before_match (pos 1) (trim ascii page_link) none ≡ done tt
unfolding require_link_unused find_id_by_external_link
link_is_unused = refl

recorded :
    record_match leb_text ascii before_match
      (pos 1)
      none
      (pos 9)
      page_link
      sent.participants
      sent.games
      sent.bans
    ≡ done (after_match, read_match)
recorded =
    record_match-steps leb_text ascii leb_text-IsOrder before_match (pos 1) spring_cup none (pos 9)
      page_link sent.participants sent.games sent.bans after_match (pos 1) read_match refl
      sent_is_clean link_is_unused match_is_inserted match_is_read

after_match-Reach : Reach leb_text ascii after_match
after_match-Reach =
    next before_match-Reach
      (records (pos 1) none (pos 9) page_link sent.participants sent.games sent.bans recorded)

links-Distinct_example :
    Distinct (map row_id after_match.matches) × Distinct (map link_key after_match.matches)
links-Distinct_example = links-Distinct leb_text ascii after_match after_match-Reach

assemble_example :
    assemble leb_text after_match after_match.matches
    ≡ map (own_match leb_text after_match) after_match.matches
assemble_example = assemble-own_match leb_text leb_text-IsOrder after_match after_match.matches

record_match-answers_example :
    (read_match.participants
      ≡ map (answered_side leb_text ascii before_match) (enumerate 0 sent.participants))
    × (read_match.bans ≡ named_bans leb_text before_match sent.bans)
record_match-answers_example =
    record_match-answers leb_text ascii leb_text-IsOrder before_match (pos 1) none (pos 9) page_link
      sent.participants sent.games sent.bans after_match read_match before_match-Reach recorded
