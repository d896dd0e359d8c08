-- ===== src/Standings.antt =====
-- backend-rs/crates/umfl-domain/src/standings.rs: rosters and the rounds over which heroes were held.
pub mod Held
pub mod Ranking
pub mod Board
pub mod Totals
pub mod Columns
pub mod Ticker
pub mod Unplayed
use um_fantasy_league.Common.{
  ℤ, pos, I32, I64, int_eq, ◌==◌, ltb_ℤ, leb_ℤ, Bool, true, false, ◌&&◌, Option, none, some, List,
  [], ◌∷◌, ◌++◌, map, if◌then◌else◌,
}
use um_fantasy_league.Common.Text.{Text}
use um_fantasy_league.RosterPolicy.{sum_i32}
use um_fantasy_league.RosterRoles.{RoleAssignment}

pub record RosterHero : Type 0 where
  pub slot_index : I32
  pub hero_id : I64
  pub name : Text
  pub cost : I32

pub record RosterSwap : Type 0 where
  pub round : I32
  pub hero_out_id : I64
  pub hero_in_id : I64

pub record Holding : Type 0 where
  pub hero_id : I64
  pub from_round : I32
  pub until_round : Option I32

-- `until.is_none_or(|until| round < until)`
abbrev pub is_before : Option I32 → I32 → Bool
is_before none round = true
is_before (some until) round = ltb_ℤ round until

-- `Holding::covers`
unfoldable pub covers : Holding → I32 → Bool
covers h round = leb_ℤ h.from_round round && is_before h.until_round round

pub record EntryRoster : Type 0 where
  pub entry_id : I64
  pub manager_id : I64
  pub handle : Text
  pub display_name : Text
  pub credit_grant : I32
  pub heroes : List RosterHero
  pub swaps : List RosterSwap
  pub role_assignments : List RoleAssignment

unfoldable pub spent : EntryRoster → I32
unfolding sum_i32
spent e = sum_i32 (pos 0) (map (λ (h : RosterHero). h.cost) e.heroes)

abbrev pub held_ids : EntryRoster → List I64
held_ids e = map (λ (h : RosterHero). h.hero_id) e.heroes

-- One step of the first loop of `holdings`: the first of the incoming hero's places goes back to the
-- outgoing hero, which is pushed if there is none.
unfoldable pub undo : List I64 → RosterSwap → List I64
undo [] s = s.hero_out_id ∷ []
undo (id ∷ ids) s = if id == s.hero_in_id then s.hero_out_id ∷ ids else id ∷ undo ids s

-- The first loop: the newest swap is undone first.
unfoldable pub rewind : List I64 → List RosterSwap → List I64
unfolding undo
rewind ids [] = ids
rewind ids (s ∷ ss) = undo (rewind ids ss) s

abbrev pub is_open : Option I32 → Bool
is_open none = true
is_open (some until) = false

abbrev pub opened : I32 → I64 → Holding
opened round id = record { hero_id = id; from_round = round; until_round = none }

-- The first open holding of the hero ends.
unfoldable pub close_open : I64 → I32 → List Holding → List Holding
close_open id round [] = []
close_open id round (h ∷ hs) =
    if h.hero_id == id && is_open h.until_round
    then record h { until_round = some round } ∷ hs
    else h ∷ close_open id round hs

-- The second loop: the oldest swap comes first.
unfoldable pub replay : List Holding → List RosterSwap → List Holding
unfolding close_open
replay hs [] = hs
replay hs (s ∷ ss) =
    replay (close_open s.hero_out_id s.round hs ++ opened s.round s.hero_in_id ∷ []) ss

unfoldable pub holdings : EntryRoster → List Holding
unfolding rewind replay
holdings e = replay (map (opened (pos 1)) (rewind (held_ids e) e.swaps)) e.swaps
