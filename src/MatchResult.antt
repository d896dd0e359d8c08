-- ===== src/MatchResult.antt =====
-- backend-rs/crates/umfl-domain/src/match_result.rs: a recorded match, and the contexts in which a
-- hero can stand in it. A borrowed row of the match is the row itself.
pub mod Contexts
use um_fantasy_league.Common.{
  ℤ, I32, I64, int_eq, Eq, ◌==◌, Bool, true, false, not, Option, none, some, List, [], ◌∷◌, ◌++◌,
  map, keep, find, gather, contains, if◌then◌else◌, ◌>>=◌, String, eqb_ℤ,
}
use um_fantasy_league.Common.Text.{Text}
use um_fantasy_league.Common.IndexMap.{IndexMap}
use um_fantasy_league.Tournament.{DateTime}

pub data BanType : Type 0 where
  pre_ban opponent_ban self_ban : BanType

unfoldable pub as_str : BanType → String
as_str pre_ban = "PRE_BAN"
as_str opponent_ban = "OPPONENT_BAN"
as_str self_ban = "SELF_BAN"

abbrev pub ban_type_beq : BanType → BanType → Bool
ban_type_beq pre_ban pre_ban = true
ban_type_beq opponent_ban opponent_ban = true
ban_type_beq self_ban self_ban = true
ban_type_beq _ _ = false

pub record DraftedHeroResult : Type 0 where
  pub hero_id : I64
  pub hero_name : Text

pub record MatchParticipantResult : Type 0 where
  pub side : I32
  pub player_label : Option Text
  pub drafted_heroes : List DraftedHeroResult

pub record GameParticipantResult : Type 0 where
  pub side : I32
  pub hero_id : I64
  pub hero_name : Text
  pub health_remaining : I32
  pub is_winner : Bool
  pub stats : IndexMap Text I32

pub record GameResult : Type 0 where
  pub game_id : I64
  pub game_number : I32
  pub map_id : I64
  pub map_name : Text
  pub participants : List GameParticipantResult

unfoldable pub winner : GameResult → Option GameParticipantResult
winner g = find (λ (p : GameParticipantResult). p.is_winner) g.participants

unfoldable pub opponents_of : GameResult → I64 → List GameParticipantResult
opponents_of g hero = keep (λ (p : GameParticipantResult). not (p.hero_id == hero)) g.participants

pub record BanResult : Type 0 where
  pub hero_id : I64
  pub hero_name : Text
  pub ban_type : BanType
  pub side : Option I32

pub record MatchResult : Type 0 where
  pub match_id : I64
  pub tournament_id : I64
  pub round : I32
  pub played_at : DateTime
  pub external_link : Text
  pub participants : List MatchParticipantResult
  pub games : List GameResult
  pub bans : List BanResult

unfoldable pub player_label_for_side : MatchResult → I32 → Option Text
player_label_for_side m side = do
  p ← find (λ (p : MatchParticipantResult). p.side == side) m.participants
  p.player_label

-- The loop that pushes what it has not seen.
unfoldable pub push_fresh : List I64 → List I64 → List I64
push_fresh seen [] = seen
push_fresh seen (x ∷ xs) = push_fresh (if contains seen x then seen else seen ++ x ∷ []) xs

-- The ids of the two nested loops, in their order.
abbrev pub all_drafted : List MatchParticipantResult → List I64
all_drafted = gather λ p. map (λ (h : DraftedHeroResult). h.hero_id) p.drafted_heroes

unfoldable pub drafted_hero_ids : MatchResult → List I64
unfolding push_fresh
drafted_hero_ids m = push_fresh [] (all_drafted m.participants)

pub data HeroRole : Type 0 where
  played : GameResult → GameParticipantResult → HeroRole
  drafted : HeroRole
  banned : HeroRole

pub record MetricContext : Type 0 where
  pub match_result : MatchResult
  pub hero_id : I64
  pub role : HeroRole

abbrev pub context : MatchResult → I64 → HeroRole → MetricContext
context m hero r = record { match_result = m; hero_id = hero; role = r }

unfoldable pub played_contexts : MatchResult → List GameResult → List MetricContext
played_contexts m =
    gather λ g. map (λ (p : GameParticipantResult). context m p.hero_id (played g p)) g.participants

abbrev pub context_ids : List MetricContext → List I64
context_ids cs = map (λ (c : MetricContext). c.hero_id) cs

-- The second filter of the bans, which remembers the heroes that it let pass.
unfoldable pub first_bans : List I64 → List BanResult → List BanResult
first_bans seen [] = []
first_bans seen (b ∷ bs) =
    let later = first_bans seen bs in
    let fresh = b ∷ first_bans (seen ++ b.hero_id ∷ []) bs in
    if contains seen b.hero_id then later else fresh

-- The bans that stand: of heroes that did not play, the first of each hero.
unfoldable pub standing_bans : List I64 → List BanResult → List BanResult
unfolding first_bans
standing_bans played_ids bans =
    first_bans [] (keep (λ (b : BanResult). not (contains played_ids b.hero_id)) bans)

unfoldable pub hero_contexts : MatchResult → List MetricContext
unfolding played_contexts standing_bans drafted_hero_ids
hero_contexts m =
    let played_here = played_contexts m m.games in
    let bans = standing_bans (context_ids played_here) m.bans in
    let banned_ids = map (λ (b : BanResult). b.hero_id) bans in
    let banned_here = map (λ (b : BanResult). context m b.hero_id banned) bans in
    let drafted_here =
      map (λ h. context m h drafted)
        (keep (λ h. not (contains banned_ids h)) (drafted_hero_ids m)) in
    played_here ++ (drafted_here ++ banned_here)

unfoldable pub participant : MetricContext → Option GameParticipantResult
participant c = elim c.role [ played g p ↦ some p | drafted ↦ none | banned ↦ none ]

unfoldable pub stats : MetricContext → Option (IndexMap Text I32)
unfolding participant
stats c = do p ← participant c; some p.stats

unfoldable pub opponents : MetricContext → List GameParticipantResult
unfolding opponents_of
opponents c = elim c.role [ played g p ↦ opponents_of g c.hero_id | drafted ↦ [] | banned ↦ [] ]
