-- ===== src/MatchPolicy/Input.antt =====
-- The vocabulary of match_policy.rs, and a submission as it arrives.
use um_fantasy_league.Common.{ℕ, I32, I64, Bool, Option, List, String, any, eqb}
use um_fantasy_league.Common.Text.{Text}
use um_fantasy_league.Common.IndexMap.{IndexMap}
use um_fantasy_league.MatchResult.{BanType}

pub data MatchRule : Type 0 where
  map_not_in_pool hero_not_in_pool invalid_game_count game_numbers_not_sequential
        invalid_participant_count invalid_game_participant_count duplicate_hero duplicate_ban
        ban_side_invalid duplicate_pick banned_hero_played banned_hero_drafted
        played_hero_not_drafted not_exactly_one_winner loser_has_positive_health unknown_hero
        stat_name_malformed duplicate_stat stat_value_negative :
      MatchRule

unfoldable pub as_str : MatchRule → String
as_str map_not_in_pool = "MAP_NOT_IN_POOL"
as_str hero_not_in_pool = "HERO_NOT_IN_POOL"
as_str invalid_game_count = "INVALID_GAME_COUNT"
as_str game_numbers_not_sequential = "GAME_NUMBERS_NOT_SEQUENTIAL"
as_str invalid_participant_count = "INVALID_PARTICIPANT_COUNT"
as_str invalid_game_participant_count = "INVALID_GAME_PARTICIPANT_COUNT"
as_str duplicate_hero = "DUPLICATE_HERO"
as_str duplicate_ban = "DUPLICATE_BAN"
as_str ban_side_invalid = "BAN_SIDE_INVALID"
as_str duplicate_pick = "DUPLICATE_PICK"
as_str banned_hero_played = "BANNED_HERO_PLAYED"
as_str banned_hero_drafted = "BANNED_HERO_DRAFTED"
as_str played_hero_not_drafted = "PLAYED_HERO_NOT_DRAFTED"
as_str not_exactly_one_winner = "NOT_EXACTLY_ONE_WINNER"
as_str loser_has_positive_health = "LOSER_HAS_POSITIVE_HEALTH"
as_str unknown_hero = "UNKNOWN_HERO"
as_str stat_name_malformed = "STAT_NAME_MALFORMED"
as_str duplicate_stat = "DUPLICATE_STAT"
as_str stat_value_negative = "STAT_VALUE_NEGATIVE"

-- The derived `==` of the rules compares their places.
abbrev pub place : MatchRule → ℕ
place map_not_in_pool = 0
place hero_not_in_pool = 1
place invalid_game_count = 2
place game_numbers_not_sequential = 3
place invalid_participant_count = 4
place invalid_game_participant_count = 5
place duplicate_hero = 6
place duplicate_ban = 7
place ban_side_invalid = 8
place duplicate_pick = 9
place banned_hero_played = 10
place banned_hero_drafted = 11
place played_hero_not_drafted = 12
place not_exactly_one_winner = 13
place loser_has_positive_health = 14
place unknown_hero = 15
place stat_name_malformed = 16
place duplicate_stat = 17
place stat_value_negative = 18

pub record MatchParticipantInput : Type 0 where
  pub player_label : Option Text
  pub drafted_hero_ids : List I64

pub record MatchGameParticipantInput : Type 0 where
  pub hero_id : I64
  pub health_remaining : I32
  pub is_winner : Bool
  pub stats : IndexMap Text I32

pub record MatchGameInput : Type 0 where
  pub game_number : I32
  pub map_id : I64
  pub participants : List MatchGameParticipantInput

pub record MatchBanInput : Type 0 where
  pub hero_id : I64
  pub ban_type : BanType
  pub side : Option I32

pub data Message : Type 0 where
  expected_participants : (expected got : ℕ) → Message
  at_least_one_game : Message
  numbers_not_one_to : ℕ → Message
  games_off_pool : List I32 → Message
  games_sides : List I32 → ℕ → Message
  games_same_hero : List I32 → Message
  banned_twice : List I64 → Message
  impossible_sides : List MatchBanInput → Message
  drafted_twice : List I64 → Message
  banned_and_drafted : List I64 → Message
  played_undrafted : List (I32 × I64) → Message
  banned_and_played : List I64 → Message
  games_undecided : List I32 → Message
  games_surviving : List I32 → Message
  no_such_heroes : List I64 → Message
  heroes_off_pool : List I64 → Message
  malformed_stats : List Text → Message
  games_repeating_stat : List I32 → Message
  games_negative_stat : List I32 → Message

pub record MatchViolation : Type 0 where
  pub rule : MatchRule
  pub message : Message

abbrev pub violation : MatchRule → Message → MatchViolation
violation r m = record { rule = r; message = m }

-- A rule is among those that a validation reports.
abbrev pub reports : MatchRule → List MatchViolation → Bool
reports r = any (λ (v : MatchViolation). eqb (place v.rule) (place r))
