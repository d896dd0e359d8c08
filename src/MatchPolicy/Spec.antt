-- ===== src/MatchPolicy/Spec.antt =====
-- What a submission has to satisfy, rule by rule, independently of how it is checked.
use um_fantasy_league.Common.{
  ℕ, pos, I32, I64, int_eq, nat_eq, list_eq, ◌≤ℤ◌, leb_ℤ, true, false, ◌&&◌, Option, none, some,
  List, [], ◌∷◌, ◌++◌, map, contains, count, length, All, Distinct, if◌then◌else◌, ◌≡◌, ◌≢◌, ◌⊎◌,
}
use um_fantasy_league.Common.Text.{Text}
use um_fantasy_league.Common.IndexMap.{IndexMap}
use um_fantasy_league.Unicode.{Unicode}
use um_fantasy_league.MatchResult.{BanType, pre_ban}
use um_fantasy_league.RosterRoles.{normalise_stat, is_well_formed_stat}
use um_fantasy_league.MatchPolicy.Input.{
  MatchRule, MatchParticipantInput, MatchGameParticipantInput, MatchGameInput, MatchBanInput,
  map_not_in_pool, hero_not_in_pool, invalid_game_count, game_numbers_not_sequential,
  invalid_participant_count, invalid_game_participant_count, duplicate_hero, duplicate_ban,
  ban_side_invalid, duplicate_pick, banned_hero_played, banned_hero_drafted,
  played_hero_not_drafted, not_exactly_one_winner, loser_has_positive_health, unknown_hero,
  stat_name_malformed, duplicate_stat, stat_value_negative,
}
use um_fantasy_league.MatchPolicy.{row_ids, ban_heroes, played_heroes, drafted_heroes, winners}

-- A submission with what the caller looked up for it.
pub record Submission : Type 0 where
  pub unicode : Unicode
  pub valid_map_ids : List I64
  pub valid_hero_ids : List I64
  pub pool_hero_ids : List I64
  pub participants : List MatchParticipantInput
  pub games : List MatchGameInput
  pub bans : List MatchBanInput
  pub expected : ℕ

abbrev pub numbers : List MatchGameInput → List I32
numbers games = map (λ (g : MatchGameInput). g.game_number) games

-- Every hero that the submission names: played, drafted or banned.
abbrev pub named_heroes : Submission → List I64
named_heroes s = played_heroes s.games ++ (drafted_heroes s.participants ++ ban_heroes s.bans)

-- No side, or one of the two sides on a ban that follows the assignment of sides.
abbrev pub IsSideOk : BanType → Option I32 → Type 0
IsSideOk t none = Unit
IsSideOk t (some side) = ((side ≡ pos 0) ⊎ (side ≡ pos 1)) × (t ≢ pre_ban)

-- Each row's hero was drafted by the side at the row's position, if there is such a side.
abbrev pub IsDrafted : List MatchParticipantInput → List MatchGameParticipantInput → Type 0
IsDrafted [] rows = Unit
IsDrafted (side ∷ sides) [] = Unit
IsDrafted (side ∷ sides) (row ∷ rows) =
    (contains side.drafted_hero_ids row.hero_id ≡ true) × IsDrafted sides rows

-- The names under which a hero's stats are stored.
abbrev pub stat_names : Unicode → IndexMap Text I32 → List Text
stat_names u stats = map (λ (p : Text × I32). normalise_stat u p.0) stats

abbrev pub AllRows : (MatchGameParticipantInput → Type 0) → Submission → Type 0
AllRows P s = All (λ g. All P g.participants) s.games

abbrev pub Satisfies : MatchRule → Submission → Type 0
Satisfies map_not_in_pool s = All (λ g. contains s.valid_map_ids g.map_id ≡ true) s.games
Satisfies hero_not_in_pool s =
    All (λ h. contains s.valid_hero_ids h ≡ true → contains s.pool_hero_ids h ≡ true)
      (named_heroes s)
Satisfies invalid_game_count s = s.games ≢ []
Satisfies game_numbers_not_sequential s =
    (a : I32)
    → count a (numbers s.games)
      ≡ (if leb_ℤ (pos 1) a && leb_ℤ a (pos (length s.games)) then 1 else 0)
Satisfies invalid_participant_count s = length s.participants ≡ s.expected
Satisfies invalid_game_participant_count s = All (λ g. length g.participants ≡ s.expected) s.games
Satisfies duplicate_hero s = All (λ g. Distinct (row_ids g.participants)) s.games
Satisfies duplicate_ban s = Distinct (ban_heroes s.bans)
Satisfies ban_side_invalid s = All (λ b. IsSideOk b.ban_type b.side) s.bans
Satisfies duplicate_pick s = All (λ p. Distinct p.drafted_hero_ids) s.participants
Satisfies banned_hero_played s =
    All (λ h. contains (played_heroes s.games) h ≡ false) (ban_heroes s.bans)
Satisfies banned_hero_drafted s =
    All (λ h. contains (drafted_heroes s.participants) h ≡ false) (ban_heroes s.bans)
Satisfies played_hero_not_drafted s = All (λ g. IsDrafted s.participants g.participants) s.games
Satisfies not_exactly_one_winner s = All (λ g. winners g.participants ≡ 1) s.games
Satisfies loser_has_positive_health s =
    AllRows (λ p. (p.is_winner ≡ true) ⊎ (p.health_remaining ≤ℤ pos 0)) s
Satisfies unknown_hero s = All (λ h. contains s.valid_hero_ids h ≡ true) (named_heroes s)
Satisfies stat_name_malformed s =
    AllRows (λ p. All (λ m. is_well_formed_stat m ≡ true) (stat_names s.unicode p.stats)) s
Satisfies duplicate_stat s = AllRows (λ p. Distinct (stat_names s.unicode p.stats)) s
Satisfies stat_value_negative s = AllRows (λ p. All (λ e. pos 0 ≤ℤ e.1) p.stats) s
