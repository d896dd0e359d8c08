-- ===== src/MatchService/Tables.antt =====
-- The tables of recorded matches, and backend-rs/crates/umfl-server/src/match/mod.rs: the aggregate that is
-- written to them.
use um_fantasy_league.Common.{
  ◌+◌, ℕ, pos, I32, I64, Bool, Option, none, some, List, [], ◌∷◌, if◌then◌else◌, ◌≡◌,
}
use um_fantasy_league.Common.Text.{Text}
use um_fantasy_league.Tournament.{Tournament, DateTime}
use um_fantasy_league.MatchResult.{BanType}
use um_fantasy_league.MatchPolicy.Input.{MatchViolation}
use um_fantasy_league.TournamentService.{PoolRow}

-- What the service answers when it refuses.
pub data MatchError : Type 0 where
  no_tournament : (id : I64) → MatchError
  no_match : (tournament_id match_id : I64) → MatchError
  match_rule : (violations : List MatchViolation) → MatchError
  link_taken : (id : I64) (link : Text) → MatchError
  link_just_taken : (link : Text) → MatchError
  out_of_range : MatchError
  internal : MatchError

pub data Outcome {ℓ} (A : Type ℓ) : Type ℓ where
  done : A → Outcome A
  failed : MatchError → Outcome A

infixl 30 ◌>>=◌ ◌>>◌
abbrev pub ◌>>=◌ {ℓ κ} : {A : Type ℓ} {B : Type κ} → Outcome A → (A → Outcome B) → Outcome B
done a >>= f = f a
failed e >>= f = failed e

abbrev pub ◌>>◌ {ℓ} : {B : Type ℓ} → Outcome (Unit {0}) → Outcome B → Outcome B
done _ >> b = b
failed e >> b = failed e

abbrev pub or_fail {ℓ} : {A : Type ℓ} → MatchError → Option A → Outcome A
or_fail e none = failed e
or_fail e (some a) = done a

abbrev pub fail_when : Bool → MatchError → Outcome (Unit {0})
fail_when b e = if b then failed e else done tt

pub done-inj {ℓ} : {A : Type ℓ} {a b : A} → done a ≡ done b → a ≡ b
done-inj h = cc

-- The rows, with the source's columns.
pub record MatchRow : Type 0 where
  pub id : I64
  pub tournament_id : I64
  pub round : I32
  pub played_at : DateTime
  pub external_link : Text

pub record ParticipantRow : Type 0 where
  pub match_id : I64
  pub side : I32
  pub player_label : Option Text

pub record GameRow : Type 0 where
  pub id : I64
  pub match_id : I64
  pub tournament_id : I64
  pub game_number : I32
  pub map_id : I64

pub record GameParticipantRow : Type 0 where
  pub game_id : I64
  pub side : I32
  pub hero_id : I64
  pub health_remaining : I32
  pub is_winner : Bool

pub record StatRow : Type 0 where
  pub game_id : I64
  pub side : I32
  pub stat : Text
  pub value : I32

-- The column of a ban's type is text.
pub record BanRow : Type 0 where
  pub match_id : I64
  pub hero_id : I64
  pub ban_type : Text
  pub side : Option I32

pub record PickRow : Type 0 where
  pub match_id : I64
  pub side : I32
  pub hero_id : I64

-- A row of `heroes` or `game_maps`.
pub record NamedRow : Type 0 where
  pub id : I64
  pub name : Text

pub record MatchTables : Type 0 where
  pub tournaments : List Tournament
  pub heroes : List NamedRow
  pub maps : List NamedRow
  pub pool : List PoolRow
  pub map_pool : List (I64 × I64)
  pub matches : List MatchRow
  pub participants : List ParticipantRow
  pub games : List GameRow
  pub game_participants : List GameParticipantRow
  pub stats : List StatRow
  pub bans : List BanRow
  pub picks : List PickRow
  pub next_match_id : I64
  pub next_game_id : I64

-- The aggregate.
pub record MatchParticipantWrite : Type 0 where
  pub player_label : Option Text

pub record MatchGameParticipantWrite : Type 0 where
  pub hero_id : I64
  pub health_remaining : I32
  pub is_winner : Bool
  pub stats : List (Text × I32)

pub record MatchGameWrite : Type 0 where
  pub game_number : I32
  pub map_id : I64
  pub participants : List MatchGameParticipantWrite

pub record HeroBanWrite : Type 0 where
  pub hero_id : I64
  pub ban_type : BanType
  pub side : Option I32

pub record HeroPickWrite : Type 0 where
  pub side : I32
  pub hero_id : I64

pub record TournamentMatchWrite : Type 0 where
  pub id : Option I64
  pub tournament_id : I64
  pub round : I32
  pub played_at : DateTime
  pub external_link : Text
  pub participants : List MatchParticipantWrite
  pub games : List MatchGameWrite
  pub bans : List HeroBanWrite
  pub picks : List HeroPickWrite

-- `enumerate`, from a position on; the policy admits two sides, so that no cast of one wraps around.
abbrev pub enumerate {ℓ} : {A : Type ℓ} → ℕ → List A → List (I32 × A)
enumerate i [] = []
enumerate i (x ∷ xs) = (pos i, x) ∷ enumerate (i + 1) xs
