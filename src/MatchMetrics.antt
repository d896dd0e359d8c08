-- ===== src/MatchMetrics.antt =====
-- backend-rs/crates/umfl-domain/src/match_metrics.rs: the registry of metrics and its extractors.
pub mod Laws
use um_fantasy_league.Common.{
  ℕ, ℤ, pos, I32, I64, int_eq, nat_eq, list_eq, Eq, ◌==◌, max_ℤ, sub_i32, Bool, true, false, not,
  ◌&&◌, Option, none, some, List, [], ◌∷◌, ◌++◌, map, keep, any, every, find, is_empty, contains,
  if◌then◌else◌, ◌>>=◌, eqb_ℤ,
}
use um_fantasy_league.Common.Text.{Text, codes}
use um_fantasy_league.Unicode
use um_fantasy_league.Unicode.{Unicode}
use um_fantasy_league.Numbers.{Numbers, zero_f, one_f}
use um_fantasy_league.MatchResult.{
  MetricContext, HeroRole, drafted, banned, played, BanType, self_ban, opponent_ban, ban_type_beq,
  BanResult, GameParticipantResult, participant, opponents,
}

module _ (u : Unicode) where
  unfoldable pub normalise : Text → Text
  unfolding Unicode.trim Unicode.to_uppercase
  normalise metric = Unicode.to_uppercase u (Unicode.trim u metric)

  -- A word's first character in upper case, the rest in lower case.
  abbrev capitalise : Text → Text
  capitalise word = elim (u.to_lowercase word) [ [] ↦ [] | first ∷ rest ↦ u.upper first ++ rest ]

  unfoldable pub label : Text → Text
  unfolding normalise Unicode.join Unicode.split
  label metric =
      Unicode.join (codes " ")
        (map capitalise (keep (λ w. not (is_empty w)) (Unicode.split 95 (normalise metric))))

-- `iter().max()` of the opponents' health
unfoldable pub max_health : List GameParticipantResult → Option I32
max_health [] = none
max_health (o ∷ os) = elim (max_health os) [
  | none ↦ some o.health_remaining
  | some best ↦ some (max_ℤ o.health_remaining best)
]

abbrev is_role_drafted : HeroRole → Bool
is_role_drafted drafted = true
is_role_drafted _ = false

abbrev is_role_banned : HeroRole → Bool
is_role_banned banned = true
is_role_banned _ = false

module _ (n : Numbers) where
  open n use {F, of_i32}

  abbrev pub Extractor : Type 0
  Extractor = MetricContext → F

  unfoldable pub appearance : Extractor
  appearance c = if is_role_drafted c.role then one_f n else zero_f n

  unfoldable pub ban_of_type : MetricContext → BanType → F
  ban_of_type c t =
      let found = find (λ (b : BanResult). b.hero_id == c.hero_id) c.match_result.bans in
      let matches : Bool = elim found [ none ↦ false | some b ↦ ban_type_beq b.ban_type t ] in
      if not (is_role_banned c.role) then zero_f n else if matches then one_f n else zero_f n

  unfoldable pub self_bans : Extractor
  unfolding ban_of_type
  self_bans c = ban_of_type c self_ban

  unfoldable pub opponent_bans : Extractor
  unfolding ban_of_type
  opponent_bans c = ban_of_type c opponent_ban

  unfoldable pub win : Extractor
  unfolding participant
  win c = elim (participant c) [
    | none ↦ zero_f n
    | some p ↦ if p.is_winner then one_f n else zero_f n
  ]

  unfoldable pub loss : Extractor
  unfolding participant
  loss c = elim (participant c) [
    | none ↦ zero_f n
    | some p ↦ if p.is_winner then zero_f n else one_f n
  ]

  unfoldable pub health_remaining : Extractor
  unfolding participant
  health_remaining c = elim (participant c) [ none ↦ zero_f n | some p ↦ of_i32 p.health_remaining ]

  unfoldable pub health_gap : MetricContext → Option F
  unfolding participant opponents max_health
  health_gap c = do
    p ← participant c
    best ← max_health (opponents c)
    some (of_i32 (sub_i32 p.health_remaining best))

  abbrev or_zero : Option F → F
  or_zero none = zero_f n
  or_zero (some x) = x

  unfoldable pub health_differential : Extractor
  unfolding participant health_gap
  health_differential c = elim (participant c) [
    | none ↦ zero_f n
    | some p ↦ if not p.is_winner then zero_f n else or_zero (health_gap c)
  ]

  unfoldable pub health_differential_two_way : Extractor
  unfolding health_gap
  health_differential_two_way c = or_zero (health_gap c)

  unfoldable pub shutout : Extractor
  unfolding participant opponents
  shutout c =
      let swept =
        every (λ (o : GameParticipantResult). o.health_remaining == pos 0) (opponents c) in
      elim (participant c) [
        | none ↦ zero_f n
        | some p ↦ if is_empty (opponents c) then zero_f n else if swept then one_f n else zero_f n
      ]

  abbrev pub extractors : List (Text × Extractor)
  extractors =
      (codes "APPEARANCE", appearance)
      ∷ (codes "SELF_BAN", self_bans)
      ∷ (codes "OPPONENT_BAN", opponent_bans)
      ∷ (codes "WIN", win)
      ∷ (codes "LOSS", loss)
      ∷ (codes "HEALTH_REMAINING", health_remaining)
      ∷ (codes "HEALTH_DIFFERENTIAL", health_differential)
      ∷ (codes "HEALTH_DIFFERENTIAL_TWO_WAY", health_differential_two_way)
      ∷ (codes "SHUTOUT", shutout)
      ∷ []

  unfoldable pub known : List Text
  known = map (λ (p : Text × Extractor). p.0) extractors

  abbrev pub find_extractor : Text → List (Text × Extractor) → Option Extractor
  find_extractor name [] = none
  find_extractor name ((k, x) ∷ xs) = if k == name then some x else find_extractor name xs

  module _ (u : Unicode) where
    unfoldable pub get : Text → Option Extractor
    unfolding normalise
    get metric = find_extractor (normalise u metric) extractors

    -- The loop over the metrics, from what it has seen.
    unfoldable pub normalised_once : List Text → List Text → List Text
    unfolding normalise
    normalised_once seen [] = seen
    normalised_once seen (m ∷ ms) =
        let name = normalise u m in
        normalised_once (if contains seen name then seen else seen ++ name ∷ []) ms

    unfoldable pub unknown : List Text → List Text
    unfolding normalised_once known
    unknown metrics = keep (λ m. not (contains known m)) (normalised_once [] metrics)
