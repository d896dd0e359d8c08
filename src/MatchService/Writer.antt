-- ===== src/MatchService/Writer.antt =====
-- backend-rs/crates/umfl-server/src/match/writer.rs: a match and its children, inserted, replaced
-- and deleted. Of the constraints of the tables, the sign of a round and the uniqueness of a link
-- are those that a submission that satisfies the policy can break.
use um_fantasy_league.Common.{
  pos, I32, I64, int_eq, nat_eq, list_eq, ◌==◌, ◌+ℤ◌, leb_ℤ, Bool, not, ◌&&◌, List, [], ◌∷◌, ◌++◌,
  map, keep, any, gather, contains, if◌then◌else◌,
}
use um_fantasy_league.Common.Text.{Text, codes}
use um_fantasy_league.MatchResult.{as_str}
use um_fantasy_league.MatchService.Tables.{
  Outcome, done, ◌>>=◌, ◌>>◌, or_fail, fail_when, link_just_taken, out_of_range, internal, MatchRow,
  ParticipantRow, GameRow, GameParticipantRow, StatRow, BanRow, PickRow, MatchTables,
  MatchParticipantWrite, MatchGameParticipantWrite, MatchGameWrite, HeroBanWrite, HeroPickWrite,
  TournamentMatchWrite, enumerate,
}

unfoldable pub insert_participants : MatchTables → I64 → TournamentMatchWrite → MatchTables
insert_participants s match_id m = record s {
  participants =
      s.participants
      ++ map
          (λ (p : I32 × MatchParticipantWrite). record {
            match_id = match_id;
            side = p.0;
            player_label = p.1.player_label;
          })
          (enumerate 0 m.participants);
}

-- `insert_stats`
abbrev pub stat_rows : I64 → List MatchGameParticipantWrite → List StatRow
stat_rows game_id participants =
    gather
      (λ (p : I32 × MatchGameParticipantWrite).
        map
          (λ (st : Text × I32). record { game_id = game_id; side = p.0; stat = st.0; value = st.1 })
          p.1.stats)
      (enumerate 0 participants)

abbrev pub game_participant_row : I64 → I32 × MatchGameParticipantWrite → GameParticipantRow
game_participant_row game_id p = record {
  game_id = game_id;
  side = p.0;
  hero_id = p.1.hero_id;
  health_remaining = p.1.health_remaining;
  is_winner = p.1.is_winner;
}

unfoldable pub insert_game : MatchTables → I64 → I64 → MatchGameWrite → MatchTables
insert_game s match_id tournament_id game =
    let game_id = s.next_game_id in
    record s {
      games =
          s.games
          ++ record {
            id = game_id;
            match_id = match_id;
            tournament_id = tournament_id;
            game_number = game.game_number;
            map_id = game.map_id;
          }
            ∷ [];
      game_participants =
          s.game_participants ++ map (game_participant_row game_id) (enumerate 0 game.participants);
      stats = s.stats ++ stat_rows game_id game.participants;
      next_game_id = game_id +ℤ pos 1;
    }

unfoldable pub insert_games : MatchTables → I64 → I64 → List MatchGameWrite → MatchTables
unfolding insert_game
insert_games s match_id tournament_id [] = s
insert_games s match_id tournament_id (g ∷ gs) =
    insert_games (insert_game s match_id tournament_id g) match_id tournament_id gs

unfoldable pub insert_bans : MatchTables → I64 → TournamentMatchWrite → MatchTables
unfolding as_str
insert_bans s match_id m = record s {
  bans =
      s.bans
      ++ map
          (λ (b : HeroBanWrite). record {
            match_id = match_id;
            hero_id = b.hero_id;
            ban_type = codes (as_str b.ban_type);
            side = b.side;
          })
          m.bans;
}

unfoldable pub insert_picks : MatchTables → I64 → TournamentMatchWrite → MatchTables
insert_picks s match_id m = record s {
  picks =
      s.picks
      ++ map
          (λ (p : HeroPickWrite). record {
            match_id = match_id;
            side = p.side;
            hero_id = p.hero_id;
          })
          m.picks;
}

unfoldable pub insert_children : MatchTables → I64 → TournamentMatchWrite → MatchTables
unfolding insert_participants insert_games insert_bans insert_picks
insert_children s match_id m =
    let s1 = insert_participants s match_id m in
    let s2 = insert_games s1 match_id m.tournament_id m.games in
    let s3 = insert_bans s2 match_id m in insert_picks s3 match_id m

-- The rows of a match's children; those of a game go with it.
unfoldable pub delete_children : MatchTables → I64 → MatchTables
delete_children s id =
    let owned = map (λ (g : GameRow). g.id) (keep (λ (g : GameRow). g.match_id == id) s.games) in
    record s {
      game_participants =
          keep (λ (p : GameParticipantRow). not (contains owned p.game_id)) s.game_participants;
      stats = keep (λ (r : StatRow). not (contains owned r.game_id)) s.stats;
      games = keep (λ (g : GameRow). not (g.match_id == id)) s.games;
      participants = keep (λ (p : ParticipantRow). not (p.match_id == id)) s.participants;
      bans = keep (λ (b : BanRow). not (b.match_id == id)) s.bans;
      picks = keep (λ (p : PickRow). not (p.match_id == id)) s.picks;
    }

abbrev pub match_row : I64 → TournamentMatchWrite → MatchRow
match_row id m = record {
  id = id;
  tournament_id = m.tournament_id;
  round = m.round;
  played_at = m.played_at;
  external_link = m.external_link;
}

abbrev pub has_link : I64 → Text → MatchRow → Bool
has_link tournament_id link row = row.tournament_id == tournament_id && row.external_link == link

-- What the table refuses of a row: the check of its round, and the unique index of the links, on the rows
-- that are not the row's own.
abbrev pub admit_row : MatchTables → I64 → TournamentMatchWrite → Outcome (Unit {0})
admit_row s id m = do
  fail_when (leb_ℤ m.round (pos 0)) out_of_range
  fail_when
      (any (λ (row : MatchRow). not (row.id == id) && has_link m.tournament_id m.external_link row)
        s.matches)
      (link_just_taken m.external_link)

-- `insert`, with the new id
unfoldable pub insert : MatchTables → TournamentMatchWrite → Outcome (MatchTables × I64)
unfolding insert_children
insert s m = do
  let id = s.next_match_id
  admit_row s id m
  let rooted = record s { matches = s.matches ++ match_row id m ∷ []; next_match_id = id +ℤ pos 1 }
  done (insert_children rooted id m, id)

unfoldable pub update : MatchTables → TournamentMatchWrite → Outcome MatchTables
unfolding delete_children insert_children
update s m = do
  id ← or_fail internal m.id
  admit_row s id m
  let rooted = record s {
    matches = map (λ (row : MatchRow). if row.id == id then match_row id m else row) s.matches;
  }
  done (insert_children (delete_children rooted id) id m)

unfoldable pub delete_match : MatchTables → I64 → MatchTables
unfolding delete_children
delete_match s id =
    delete_children (record s { matches = keep (λ (row : MatchRow). not (row.id == id)) s.matches })
      id
