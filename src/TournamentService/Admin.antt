-- ===== src/TournamentService/Admin.antt =====
-- backend-rs/crates/umfl-server/src/tournament/admin_service.rs: creating, editing and deleting
-- tournaments, the rounds and the swap window.
use um_fantasy_league.Common.{
  pos, i32_max, I32, I64, int_eq, nat_eq, list_eq, ◌==◌, ◌+ℤ◌, Bool, false, not, Option, none, some,
  [], ◌∷◌, ◌++◌, map, keep, find, if◌then◌else◌,
}
use um_fantasy_league.Common.Text.{Text}
use um_fantasy_league.Tournament.{
  Tournament, TournamentStatus, TournamentFormat, TournamentEntry, Date, live, status_beq,
}
use um_fantasy_league.TournamentService.{
  ApiResult, ok, ◌>>=◌, ◌>>◌, name_taken, out_of_range, when_err, is_some, has_id, Store, PoolRow,
  require_tournament, keep_entries, purge_unlocked_entries,
}

pub record TournamentFields : Type 0 where
  pub name : Text
  pub format : TournamentFormat
  pub status : TournamentStatus
  pub start_date : Date
  pub end_date : Option Date
  pub capacity : I32
  pub roster_size : I32
  pub credit_grant : I32
  pub swaps_per_round : I32
  pub roles_enabled : Bool

-- The tournament of a form, in a round and with its swap window open or not.
abbrev pub tournament_of : Option I64 → TournamentFields → I32 → Bool → Tournament
tournament_of id f round window = record {
  id = id;
  name = f.name;
  format = f.format;
  status = f.status;
  start_date = f.start_date;
  end_date = f.end_date;
  capacity = f.capacity;
  roster_size = f.roster_size;
  credit_grant = f.credit_grant;
  current_round = round;
  swaps_per_round = f.swaps_per_round;
  swap_window_open = window;
  roles_enabled = f.roles_enabled;
}

-- `collision.is_some_and(|other| other.id != Some(tournament_id))`
abbrev pub is_another : I64 → Option Tournament → Bool
is_another id none = false
is_another id (some other) = not (has_id id other.id)

module _ {D : Type 0} where
  abbrev pub find_by_name : Store D → Text → Option Tournament
  find_by_name s name = find (λ (t : Tournament). t.name == name) s.tournaments

  -- `update_tournament` and the other statements that set columns of a tournament
  abbrev pub update_tournament : Store D → I64 → (Tournament → Tournament) → Store D
  update_tournament s id change = record s {
    tournaments = map (λ (t : Tournament). if has_id id t.id then change t else t) s.tournaments;
  }

  unfoldable pub create : Store D → TournamentFields → ApiResult (Store D)
  create s f = do
    when_err (is_some (find_by_name s f.name)) (name_taken f.name)
    ok (record s {
      tournaments = s.tournaments ++ tournament_of (some s.next_tournament_id) f (pos 1) false ∷ [];
      next_tournament_id = s.next_tournament_id +ℤ pos 1;
    })

  unfoldable pub update : Store D → I64 → TournamentFields → ApiResult (Store D)
  unfolding purge_unlocked_entries
  update s id f = do
    existing ← require_tournament s id
    when_err (is_another id (find_by_name s f.name)) (name_taken f.name)
    let edited = tournament_of (some id) f existing.current_round existing.swap_window_open
    let written = update_tournament s id (λ _. edited)
    ok (if status_beq f.status live then purge_unlocked_entries written id else written)

  -- The column's `integer` refuses what is out of its range.
  unfoldable pub advance_round : Store D → I64 → ApiResult (Store D)
  advance_round s id = do
    t ← require_tournament s id
    when_err (t.current_round == i32_max) out_of_range
    ok (
        update_tournament s id
          (λ (row : Tournament). record row { current_round = row.current_round +ℤ pos 1 }))

  unfoldable pub set_swap_window : Store D → I64 → Bool → ApiResult (Store D)
  set_swap_window s id open_now = do
    t ← require_tournament s id
    ok (update_tournament s id (λ (row : Tournament). record row { swap_window_open = open_now }))

  -- `delete`: what the tournament owns goes with it.
  unfoldable pub delete : Store D → I64 → ApiResult (Store D)
  delete s id = do
    t ← require_tournament s id
    ok (record (keep_entries s (λ (e : TournamentEntry). not (e.tournament_id == id))) {
      tournaments = keep (λ (row : Tournament). not (has_id id row.id)) s.tournaments;
      pool = keep (λ (row : PoolRow). not (row.tournament_id == id)) s.pool;
    })
