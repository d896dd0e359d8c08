-- ===== src/MatchService/Assembly.antt =====
-- A page of assembled matches against the children of each match on their own.
use um_fantasy_league.Common.{
  I32, I64, int_eq, nat_eq, list_eq, pair_eq, ◌==◌, eqb_ℤ_iff, Bool, true, ◌&&◌, List, [], ◌∷◌, map,
  keep, contains, All-map, ◌≡◌, refl, arith, ap, ◌∙◌,
}
use um_fantasy_league.Common.Text.{Text}
use um_fantasy_league.Common.IndexMap
use um_fantasy_league.Common.Sorting.{IsOrder, All-sort}
use um_fantasy_league.Common.Pages.{page, keep-All, map-agree, contains-keep, contains_all}
use um_fantasy_league.MatchService.{
  MatchRow, ParticipantRow, GameRow, GameParticipantRow, StatRow, BanRow, PickRow, MatchTables,
  first_by, by, by_text, pushed, group_of, pick_rows, participant_rows, game_rows, game_ids,
  stat_rows_of, game_participant_rows, ban_rows, drafted_hero, match_participant, game_participant,
  game_result, ban_result, match_result, picks_map, participants_map, put_stat, stats_map,
  game_participants_map, games_map, bans_map, assemble,
}
use um_fantasy_league.MatchService.Grouping.{
  folded, folded-pushed, group_of-grouped, by-IsOrder, first_by-IsOrder, by_text-IsOrder,
  first_by-same, joined_page, All-joined,
}
use um_fantasy_league.MatchService.Own.{
  own_picks, own_participants, own_stats, own_game_participants, own_games, own_bans, own_match,
}

member :
    (ids : List I64) (id x : I64)
    → contains ids id ≡ true
    → (x == id) ≡ true
    → contains ids x ≡ true
member ids id x h e = rw ((eqb_ℤ_iff x id).0 e) h

first_test : (a b : Bool) → (a && b) ≡ true → a ≡ true
first_test a b h = ground arith

second_test : (a b : Bool) → (a && b) ≡ true → b ≡ true
second_test a b h = ground arith

module _ (collate : Text → Text → Bool) where
  module _ (o : IsOrder collate) (s : MatchTables) (ids : List I64) where
    picks-own :
        (id : I64) (side : I32)
        → contains ids id ≡ true
        → group_of (picks_map collate s ids) (id, side) ≡ own_picks collate s id side
    unfolding picks_map IndexMap.get
    picks-own id side has_it =
        let name = λ (r : PickRow × Text). r.1 in
        let of_match = λ (r : PickRow × Text). r.0.match_id in
        let of_side = λ (r : PickRow × Text). r.0.side in
        group_of-grouped (λ (r : PickRow × Text). (r.0.match_id, r.0.side))
          (pushed (drafted_hero collate)) [] (pick_rows collate s ids) (id, side)
        ∙ folded-pushed (drafted_hero collate) [] _
        ∙ ap (map (drafted_hero collate)) (
            joined_page s.heroes (λ (p : PickRow). p.hero_id)
              (λ (p : PickRow). p.match_id == id && p.side == side)
              (λ (p : PickRow). contains ids p.match_id)
              (first_by of_match (first_by of_side (by_text collate name))) (by_text collate name)
              s.picks
              (first_by-IsOrder of_match _
                (first_by-IsOrder of_side _ (by_text-IsOrder collate name o)))
              (λ p h. member ids id p.match_id has_it (first_test _ _ h))
              (λ a b x y.
                first_by-same of_match (first_by of_side (by_text collate name)) id a b
                  (first_test _ _ x) (first_test _ _ y)
                ∙ first_by-same of_side (by_text collate name) side a b (second_test _ _ x)
                    (second_test _ _ y)))

    bans-own :
        (id : I64)
        → contains ids id ≡ true
        → group_of (bans_map collate s ids) id ≡ own_bans collate s id
    unfolding bans_map IndexMap.get
    bans-own id has_it =
        let name = λ (r : BanRow × Text). r.1 in
        let of_match = λ (r : BanRow × Text). r.0.match_id in
        group_of-grouped of_match (pushed (ban_result collate)) [] (ban_rows collate s ids) id
        ∙ folded-pushed (ban_result collate) [] _
        ∙ ap (map (ban_result collate)) (
            joined_page s.heroes (λ (b : BanRow). b.hero_id) (λ (b : BanRow). b.match_id == id)
              (λ (b : BanRow). contains ids b.match_id) (first_by of_match (by_text collate name))
              (by_text collate name) s.bans
              (first_by-IsOrder of_match _ (by_text-IsOrder collate name o))
              (λ b h. member ids id b.match_id has_it h)
              (λ a b x y. first_by-same of_match (by_text collate name) id a b x y))

    stats-own :
        (game : I64) (side : I32)
        → contains (game_ids collate s ids) game ≡ true
        → group_of (stats_map collate s ids) (game, side) ≡ own_stats collate s game side
    unfolding stats_map IndexMap.get
    stats-own game side has_it =
        let name = λ (r : StatRow). r.stat in
        let of_game = λ (r : StatRow). r.game_id in
        let of_side = λ (r : StatRow). r.side in
        group_of-grouped (λ (r : StatRow). (r.game_id, r.side)) (put_stat collate) []
          (stat_rows_of collate s ids) (game, side)
        ∙ ap (folded (put_stat collate) []) (
            page (first_by of_game (first_by of_side (by_text collate name))) (by_text collate name)
              (λ (r : StatRow). r.game_id == game && r.side == side)
              (λ (r : StatRow). contains (game_ids collate s ids) r.game_id) s.stats
              (first_by-IsOrder of_game _
                (first_by-IsOrder of_side _ (by_text-IsOrder collate name o)))
              (λ r h. member (game_ids collate s ids) game r.game_id has_it (first_test _ _ h))
              (λ a b x y.
                first_by-same of_game (first_by of_side (by_text collate name)) game a b
                  (first_test _ _ x) (first_test _ _ y)
                ∙ first_by-same of_side (by_text collate name) side a b (second_test _ _ x)
                    (second_test _ _ y)))

    game_participants-own :
        (game : I64)
        → contains (game_ids collate s ids) game ≡ true
        → group_of (game_participants_map collate s ids) game ≡ own_game_participants collate s game
    unfolding game_participants_map IndexMap.get
    game_participants-own game has_it =
        let of_game = λ (r : GameParticipantRow × Text). r.0.game_id in
        let of_side = λ (r : GameParticipantRow × Text). r.0.side in
        let stats =
          λ (p : GameParticipantRow). group_of (stats_map collate s ids) (p.game_id, p.side) in
        let own = λ (p : GameParticipantRow). own_stats collate s game p.side in
        let rows = keep (λ (p : GameParticipantRow). p.game_id == game) s.game_participants in
        let here =
          All-sort (by of_side) (λ (r : GameParticipantRow × Text). (r.0.game_id == game) ≡ true) _
            (All-joined (λ (p : GameParticipantRow). (p.game_id == game) ≡ true) s.heroes
              (λ (p : GameParticipantRow). p.hero_id) rows
              (keep-All (λ (p : GameParticipantRow). p.game_id == game) s.game_participants)) in
        group_of-grouped of_game (pushed (game_participant collate stats)) []
          (game_participant_rows collate s ids) game
        ∙ folded-pushed (game_participant collate stats) [] _
        ∙ ap (map (game_participant collate stats)) (
            joined_page s.heroes (λ (p : GameParticipantRow). p.hero_id)
              (λ (p : GameParticipantRow). p.game_id == game)
              (λ (p : GameParticipantRow). contains (game_ids collate s ids) p.game_id)
              (first_by of_game (by of_side)) (by of_side) s.game_participants
              (first_by-IsOrder of_game _ (by-IsOrder of_side))
              (λ p h. member (game_ids collate s ids) game p.game_id has_it h)
              (λ a b x y. first_by-same of_game (by of_side) game a b x y))
        ∙ map-agree (game_participant collate stats) (game_participant collate own) _ (
            All-map
              (λ (r : GameParticipantRow × Text) e.
                ap (λ named. game_participant collate (λ _. named) r)
                  (ap (λ g. group_of (stats_map collate s ids) (g, r.0.side))
                      ((eqb_ℤ_iff r.0.game_id game).0 e)
                    ∙ stats-own game r.0.side has_it))
              _ here)

    participants-own :
        (id : I64)
        → contains ids id ≡ true
        → group_of (participants_map collate s ids) id ≡ own_participants collate s id
    unfolding participants_map IndexMap.get
    participants-own id has_it =
        let of_match = λ (p : ParticipantRow). p.match_id in
        let of_side = λ (p : ParticipantRow). p.side in
        let picks =
          λ (p : ParticipantRow). group_of (picks_map collate s ids) (p.match_id, p.side) in
        let own = λ (p : ParticipantRow). own_picks collate s id p.side in
        let here =
          All-sort (by of_side) (λ (p : ParticipantRow). (p.match_id == id) ≡ true) _
            (keep-All (λ (p : ParticipantRow). p.match_id == id) s.participants) in
        group_of-grouped of_match (pushed (match_participant collate picks)) []
          (participant_rows collate s ids) id
        ∙ folded-pushed (match_participant collate picks) [] _
        ∙ ap (map (match_participant collate picks)) (
            page (first_by of_match (by of_side)) (by of_side)
              (λ (p : ParticipantRow). p.match_id == id)
              (λ (p : ParticipantRow). contains ids p.match_id) s.participants
              (first_by-IsOrder of_match _ (by-IsOrder of_side))
              (λ p h. member ids id p.match_id has_it h)
              (λ a b x y. first_by-same of_match (by of_side) id a b x y))
        ∙ map-agree (match_participant collate picks) (match_participant collate own) _ (
            All-map
              (λ (p : ParticipantRow) e.
                ap (λ heroes. match_participant collate (λ _. heroes) p)
                  (ap (λ m. group_of (picks_map collate s ids) (m, p.side))
                      ((eqb_ℤ_iff p.match_id id).0 e)
                    ∙ picks-own id p.side has_it))
              _ here)

    games-own :
        (id : I64)
        → contains ids id ≡ true
        → group_of (games_map collate s ids) id ≡ own_games collate s id
    unfolding games_map IndexMap.get
    games-own id has_it =
        let of_match = λ (r : GameRow × Text). r.0.match_id in
        let number = λ (r : GameRow × Text). r.0.game_number in
        let sides = λ (g : GameRow). group_of (game_participants_map collate s ids) g.id in
        let own = λ (g : GameRow). own_game_participants collate s g.id in
        let in_page =
          λ (g : GameRow) (h : (g.match_id == id) ≡ true). member ids id g.match_id has_it h in
        let listed = λ (g : GameRow). contains (game_ids collate s ids) g.id ≡ true in
        let here =
          All-sort (by number) (λ (r : GameRow × Text). listed r.0) _
            (All-joined listed s.maps (λ (g : GameRow). g.map_id) _
              (contains-keep (λ (g : GameRow). g.id) (λ (g : GameRow). g.match_id == id)
                (λ (g : GameRow). contains ids g.match_id) s.games in_page)) in
        group_of-grouped of_match (pushed (game_result collate sides)) [] (game_rows collate s ids)
          id
        ∙ folded-pushed (game_result collate sides) [] _
        ∙ ap (map (game_result collate sides)) (
            joined_page s.maps (λ (g : GameRow). g.map_id) (λ (g : GameRow). g.match_id == id)
              (λ (g : GameRow). contains ids g.match_id) (first_by of_match (by number)) (by number)
              s.games (first_by-IsOrder of_match _ (by-IsOrder number)) in_page
              (λ a b x y. first_by-same of_match (by number) id a b x y))
        ∙ map-agree (game_result collate sides) (game_result collate own) _ (
            All-map
              (λ (r : GameRow × Text) e.
                ap (λ ps. game_result collate (λ _. ps) r) (game_participants-own r.0.id e))
              _ here)

    match-own :
        (h : MatchRow)
        → contains ids h.id ≡ true
        → match_result collate
            (λ (h : MatchRow). group_of (participants_map collate s ids) h.id)
            (λ (h : MatchRow). group_of (games_map collate s ids) h.id)
            (λ (h : MatchRow). group_of (bans_map collate s ids) h.id)
            h
          ≡ own_match collate s h
    match-own h has_it =
        rw (participants-own h.id has_it, games-own h.id has_it, bans-own h.id has_it) refl

  -- For a collation that is a total order of names: the page of matches that the six queries, the
  -- stats' query, the maps that group their rows and their attachment give is, match by match, the
  -- match's row with its own children alone: its participants by side, each with what its side
  -- drafted, by name; its games by number, each with its participants by side and the stats of
  -- each, by name; and its bans by hero's name. A row whose hero or map has no name is left out, as
  -- the joins have it.
  pub assemble-own_match :
      (o : IsOrder collate) (s : MatchTables) (headers : List MatchRow)
      → assemble collate s headers ≡ map (own_match collate s) headers
  unfolding assemble IndexMap.get
  assemble-own_match o s [] = refl
  assemble-own_match o s (h ∷ hs) =
      let ids = map (λ (h : MatchRow). h.id) (h ∷ hs) in
      map-agree _ (own_match collate s) (h ∷ hs) (
        All-map (λ (r : MatchRow) e. match-own o s ids r e) (h ∷ hs)
          (contains_all (λ (r : MatchRow). r.id) (h ∷ hs)))
