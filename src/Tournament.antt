-- ===== src/Tournament.antt =====
-- backend-rs/crates/umfl-domain/src/tournament.rs: a tournament, and a manager's entry with its slots.
-- Dates are day numbers and timestamps counts of nanoseconds, both `ℤ`.
use um_fantasy_league.Common.{
  ℤ, I32, I64, Bool, true, false, not, ◌&&◌, ◌||◌, Option, some, List, map, String,
}
use um_fantasy_league.Common.Text.{Text}

abbrev pub Date : Type 0
Date = ℤ

abbrev pub DateTime : Type 0
DateTime = ℤ

pub data TournamentFormat : Type 0 where
  banquest arsenal : TournamentFormat

pub data TournamentStatus : Type 0 where
  scheduled registration_open live completed : TournamentStatus

unfoldable pub as_str : TournamentStatus → String
as_str scheduled = "SCHEDULED"
as_str registration_open = "REGISTRATION_OPEN"
as_str live = "LIVE"
as_str completed = "COMPLETED"

abbrev pub status_beq : TournamentStatus → TournamentStatus → Bool
status_beq scheduled scheduled = true
status_beq registration_open registration_open = true
status_beq live live = true
status_beq completed completed = true
status_beq _ _ = false

pub record Tournament : Type 0 where
  pub id : Option I64
  pub name : Text
  pub format : TournamentFormat
  pub status : TournamentStatus
  pub start_date : Date
  pub end_date : Option Date
  pub capacity : I32
  pub roster_size : I32
  pub credit_grant : I32
  pub current_round : I32
  pub swaps_per_round : I32
  pub swap_window_open : Bool
  pub roles_enabled : Bool

unfoldable pub accepts_registration : Tournament → Bool
accepts_registration t = status_beq t.status registration_open

unfoldable pub accepts_roster_changes : Tournament → Bool
accepts_roster_changes t = status_beq t.status scheduled || status_beq t.status registration_open

unfoldable pub accepts_swaps : Tournament → Bool
accepts_swaps t = t.swap_window_open && not (status_beq t.status completed)

pub data EntryStatus : Type 0 where
  draft locked : EntryStatus

abbrev pub entry_status_beq : EntryStatus → EntryStatus → Bool
entry_status_beq draft draft = true
entry_status_beq locked locked = true
entry_status_beq _ _ = false

pub record EntrySlot : Type 0 where
  pub hero_id : I64

pub record TournamentEntry : Type 0 where
  pub id : Option I64
  pub tournament_id : I64
  pub manager_id : I64
  pub status : EntryStatus
  pub credit_grant : I32
  pub registered_at : DateTime
  pub locked_at : Option DateTime
  pub slots : List EntrySlot

unfoldable pub hero_ids : TournamentEntry → List I64
hero_ids e = map (λ (s : EntrySlot). s.hero_id) e.slots

unfoldable pub is_locked : TournamentEntry → Bool
is_locked e = entry_status_beq e.status locked

-- `lock(&mut self, at)`
unfoldable pub lock : TournamentEntry → DateTime → TournamentEntry
lock e at = record e { status = locked; locked_at = some at }
