-- ===== src/MatchPolicy.antt =====
-- backend-rs/crates/umfl-domain/src/match_policy.rs: the rules of a recorded match. The sets of ids are
-- lists; a message is the `format!` template's name with the values that the template interpolates.
pub mod Input
pub mod Stats
pub mod Spec
pub mod Checks
pub mod StatLaws
pub mod Report
use um_fantasy_league.Common.{
  ℕ, suc, zero, ◌+◌, ℤ, pos, negsuc, I32, I64, int_eq, nat_eq, pair_eq, list_eq, Eq, ◌==◌, ltb_ℤ,
  leb_ℤ, wrap, eqb, Bool, true, false, not, ◌&&◌, ◌||◌, Option, none, some, List, [], ◌∷◌, ◌++◌,
  map, keep, any, gather, is_empty, contains, list_beq, length, when, report, if◌then◌else◌, String,
}
use um_fantasy_league.Common.Text.{Text}
use um_fantasy_league.Common.Orders.{leb_pair}
use um_fantasy_league.Common.IndexMap.{repeated}
use um_fantasy_league.Common.Sorting.{sort, to_set}
use um_fantasy_league.Unicode.{Unicode}
use um_fantasy_league.MatchResult.{BanType, pre_ban, ban_type_beq}
use um_fantasy_league.MatchPolicy.Input.{
  MatchRule, MatchViolation, Message, violation, MatchParticipantInput, MatchGameParticipantInput,
  MatchGameInput, MatchBanInput,
}
use um_fantasy_league.MatchPolicy.Input
use um_fantasy_league.MatchPolicy.Stats.{stat_violations}

abbrev pub expected_participant_count : ℕ
expected_participant_count = 2

-- `1..=n`
abbrev pub range_from : ℕ → ℕ → List I32
range_from start zero = []
range_from start (suc k) = pos start ∷ range_from (suc start) k

abbrev pub up_to : I32 → List I32
up_to (pos n) = range_from 1 n
up_to (negsuc n) = []

unfoldable pub game_numbers : (MatchGameInput → Bool) → List MatchGameInput → List I32
game_numbers predicate games =
    sort leb_ℤ (map (λ (g : MatchGameInput). g.game_number) (keep predicate games))

-- A rule that names the games of which a predicate holds.
abbrev pub check_games_by :
    (MatchGameInput → Bool)
    → List MatchGameInput
    → (List I32 → MatchViolation)
    → Option MatchViolation
check_games_by predicate games found =
    let bad = game_numbers predicate games in when (not (is_empty bad)) (found bad)

abbrev pub check_ids : List I64 → (List I64 → MatchViolation) → Option MatchViolation
check_ids ids found = when (not (is_empty ids)) (found ids)

abbrev pub row_ids : List MatchGameParticipantInput → List I64
row_ids ps = map (λ (p : MatchGameParticipantInput). p.hero_id) ps

abbrev pub ban_heroes : List MatchBanInput → List I64
ban_heroes bans = map (λ (b : MatchBanInput). b.hero_id) bans

abbrev pub played_heroes : List MatchGameInput → List I64
played_heroes = gather λ g. row_ids g.participants

abbrev pub drafted_heroes : List MatchParticipantInput → List I64
drafted_heroes = gather λ p. p.drafted_hero_ids

abbrev pub game_count_message : List MatchGameInput → Option MatchViolation
game_count_message games =
    if is_empty games
    then some (violation MatchRule.invalid_game_count Message.at_least_one_game)
    else (let numbers = sort leb_ℤ (map (λ (g : MatchGameInput). g.game_number) games) in
        let expected = up_to (wrap (pos (length games))) in
        when (not (list_beq numbers expected)) (
          violation MatchRule.game_numbers_not_sequential
            (Message.numbers_not_one_to (length games))))

-- A side that cannot exist, or a side on a ban that precedes both.
unfoldable pub is_bad_side : MatchBanInput → Bool
is_bad_side ban = elim ban.side [
  | none ↦ false
  | some side ↦ not (leb_ℤ (pos 0) side && leb_ℤ side (pos 1)) || ban_type_beq ban.ban_type pre_ban
]

-- The rows of one game whose side did not draft the hero. The sides of the two lists go by position,
-- and a row with no side is skipped.
unfoldable pub undrafted_rows :
    I32 → List MatchParticipantInput → List MatchGameParticipantInput → List (I32 × I64)
undrafted_rows number [] rows = []
undrafted_rows number (side ∷ sides) [] = []
undrafted_rows number (side ∷ sides) (row ∷ rows) =
    let rest = undrafted_rows number sides rows in
    if contains side.drafted_hero_ids row.hero_id then rest else (number, row.hero_id) ∷ rest

unfoldable pub undrafted_plays : List MatchParticipantInput → List MatchGameInput → List (I32 × I64)
unfolding undrafted_rows
undrafted_plays participants games =
    to_set leb_pair (gather (λ g. undrafted_rows g.game_number participants g.participants) games)

abbrev pub winners : List MatchGameParticipantInput → ℕ
winners rows = length (keep (λ (p : MatchGameParticipantInput). p.is_winner) rows)

abbrev pub has_surviving_loser : List MatchGameParticipantInput → Bool
has_surviving_loser =
    any λ (p : MatchGameParticipantInput). not p.is_winner && ltb_ℤ (pos 0) p.health_remaining

module _ (u : Unicode) (valid_map_ids valid_hero_ids pool_hero_ids : List I64) where
  unfoldable pub validate_expecting :
      List MatchParticipantInput
      → List MatchGameInput
      → List MatchBanInput
      → ℕ
      → List MatchViolation
  unfolding game_numbers is_bad_side undrafted_plays stat_violations
  validate_expecting participants games bans expected =
      let duplicate_bans = to_set leb_ℤ (repeated (ban_heroes bans)) in
      let bad_sides = keep is_bad_side bans in
      let duplicate_picks = to_set leb_ℤ (gather (λ p. repeated p.drafted_hero_ids) participants) in
      let drafted = drafted_heroes participants in
      let banned_drafted = to_set leb_ℤ (keep (contains drafted) (ban_heroes bans)) in
      let undrafted = undrafted_plays participants games in
      let played = played_heroes games in
      let banned_played = to_set leb_ℤ (keep (contains played) (ban_heroes bans)) in
      let named = to_set leb_ℤ (played ++ (drafted ++ ban_heroes bans)) in
      let unknown = keep (λ h. not (contains valid_hero_ids h)) named in
      let existing = keep (contains valid_hero_ids) named in
      let outside = keep (λ h. not (contains pool_hero_ids h)) existing in
      report (
        when (not (eqb (length participants) expected)) (
          violation MatchRule.invalid_participant_count
            (Message.expected_participants expected (length participants)))
        ∷ game_count_message games
        ∷ check_games_by (λ g. not (contains valid_map_ids g.map_id)) games
            (λ bad. violation MatchRule.map_not_in_pool (Message.games_off_pool bad))
        ∷ check_games_by (λ g. not (eqb (length g.participants) expected)) games
            (λ bad.
              violation MatchRule.invalid_game_participant_count (Message.games_sides bad expected))
        ∷ check_games_by
            (λ g.
              not (eqb (length (to_set leb_ℤ (row_ids g.participants))) (length g.participants)))
            games (λ bad. violation MatchRule.duplicate_hero (Message.games_same_hero bad))
        ∷ check_ids duplicate_bans
            (λ ids. violation MatchRule.duplicate_ban (Message.banned_twice ids))
        ∷ when (not (is_empty bad_sides))
            (violation MatchRule.ban_side_invalid (Message.impossible_sides bad_sides))
        ∷ check_ids duplicate_picks
            (λ ids. violation MatchRule.duplicate_pick (Message.drafted_twice ids))
        ∷ check_ids banned_drafted
            (λ ids. violation MatchRule.banned_hero_drafted (Message.banned_and_drafted ids))
        ∷ when (not (is_empty undrafted))
            (violation MatchRule.played_hero_not_drafted (Message.played_undrafted undrafted))
        ∷ check_ids banned_played
            (λ ids. violation MatchRule.banned_hero_played (Message.banned_and_played ids))
        ∷ check_games_by (λ g. not (eqb (winners g.participants) 1)) games
            (λ bad. violation MatchRule.not_exactly_one_winner (Message.games_undecided bad))
        ∷ check_games_by (λ g. has_surviving_loser g.participants) games
            (λ bad. violation MatchRule.loser_has_positive_health (Message.games_surviving bad))
        ∷ check_ids unknown (λ ids. violation MatchRule.unknown_hero (Message.no_such_heroes ids))
        ∷ check_ids outside
            (λ ids. violation MatchRule.hero_not_in_pool (Message.heroes_off_pool ids))
        ∷ [])
      ++ stat_violations u games

  unfoldable pub validate :
      List MatchParticipantInput → List MatchGameInput → List MatchBanInput → List MatchViolation
  unfolding validate_expecting
  validate participants games bans =
      validate_expecting participants games bans expected_participant_count
