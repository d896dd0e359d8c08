-- ===== src/TournamentService.antt =====
-- backend-rs/crates/umfl-server/src/tournament/service.rs: registering, drafting, locking and swapping, with
-- the statements of query.rs and writer.rs beside it that they run. A handler is one transaction: it maps
-- the rows that it finds to those that it commits, and an error leaves them as they were. `register` and
-- `set_slots` read before the rows they write are theirs alone, and take the rows of their reads beside
-- those of their writes. The response that a handler reads back at its end is left out.
pub mod Admin
pub mod Closing
pub mod Drafting
pub mod Exchanges
pub mod Locking
pub mod Outcomes
pub mod Prices
pub mod Registration
pub mod Scoring
pub mod SwapLog
mod Tables
mod Writer
unfoldable pub use Tables.*
unfoldable pub use Writer.*
use um_fantasy_league.Common.{
  ℕ, ◌+◌, ℤ, pos, I32, I64, int_eq, pair_eq, Eq, ◌==◌, ◌+ℤ◌, leb_ℤ, len_i32, Bool, true, false, not,
  ◌&&◌, ◌||◌, Option, none, some, List, [], ◌∷◌, ◌++◌, map, keep, any, find, length, is_empty,
  contains, if◌then◌else◌, when, report, ◌≡◌,
}
use um_fantasy_league.Common.Text.{Text}
use um_fantasy_league.Common.IndexMap
use um_fantasy_league.Tournament.{
  Tournament, TournamentStatus, TournamentEntry, EntrySlot, DateTime, draft, accepts_registration,
  accepts_roster_changes, accepts_swaps, hero_ids, is_locked, lock,
}
use um_fantasy_league.RosterPolicy.{
  RosterPick, RosterViolation, violation, unknown_hero, role_change_closed, tournament_closed,
  no_heroes_for, roles_need_a_window, rosters_are_frozen, pick_ids, validate_draft, validate_lock,
  validate_swap,
}
use um_fantasy_league.RosterRoles.{
  RoleBook, RoleAssignment, Assigned, current_roles, validate_assignments, sorted_once,
}
use um_fantasy_league.Standings.{RosterSwap}

module _ {D : Type 0} where
  -- `register`, at a time; the entry has no slots yet. The tournament and the manager's entry are read
  -- before the tournament's row is locked, so the first store is that of these reads, and the second is that
  -- of the locked row, the count and the insert: others may commit in between.
  unfoldable pub register : Store D → Store D → I64 → I64 → DateTime → ApiResult (Store D)
  unfolding accepts_registration insert_entry
  register read s tournament_id manager_id now = do
    t ← require_tournament read tournament_id
    when_err (not (accepts_registration t)) (not_open t.name t.status)
    when_err (is_some (find_entry read tournament_id manager_id)) (already_registered t.name)
    locked_row ← require_tournament s tournament_id
    when_err (leb_ℤ locked_row.capacity (pos (count_entries s tournament_id)))
        (is_full t.name locked_row.capacity)
    or_err (already_registered t.name) (
        insert_entry s (record {
          id = none;
          tournament_id = tournament_id;
          manager_id = manager_id;
          status = draft;
          credit_grant = t.credit_grant;
          registered_at = now;
          locked_at = none;
          slots = [];
        }))

  -- `set_slots`, which takes no lock: the first store is that of its reads, the second is that of its
  -- writes. Slots of an entry that is deleted in between break the schema's foreign key.
  unfoldable pub set_slots : Store D → Store D → I64 → I64 → List I64 → ApiResult (Store D)
  unfolding resolve_picks validate_draft update_entry delete_draft_roles_except
  set_slots read s tournament_id manager_id ids = do
    t ← require_tournament read tournament_id
    entry ← require_my_entry read tournament_id manager_id
    picks ← resolve_picks read t ids
    refuse (validate_draft picks t entry.status)
    id ← or_err panicked entry.id
    let stands = any (λ (e : TournamentEntry). has_id id e.id) s.entries
    when_err (not stands && not (is_empty picks)) data_integrity
    ok (
        delete_draft_roles_except (update_entry s id (record entry { slots = slots_of picks })) id
          (pick_ids picks))

  -- `lock_roster` once the tournament and the entry are loaded
  unfoldable pub lock_loaded :
      Store D → Tournament → TournamentEntry → DateTime → ApiResult (Store D)
  unfolding resolve_picks validate_lock lock_role_violations current_role_pairs lock hero_ids
      update_entry
  lock_loaded s t entry now = do
    picks ← resolve_picks s t (hero_ids entry)
    violations ← or_err panicked (validate_lock picks t entry)
    book ← book_of s t
    id ← or_err panicked entry.id
    refuse
        (violations ++ lock_role_violations (hero_ids entry) (current_role_pairs s id entry) book)
    ok (update_entry s id (lock entry now))

  unfoldable pub lock_roster : Store D → I64 → I64 → DateTime → ApiResult (Store D)
  unfolding lock_loaded
  lock_roster s tournament_id manager_id now = do
    t ← require_tournament s tournament_id
    entry ← require_my_entry s tournament_id manager_id
    lock_loaded s t entry now

  -- What the swap of an entry writes.
  unfoldable pub commit_swap :
      Store D → I64 → TournamentEntry → I32 → List RosterPick → Option (List Assigned) → Store D
  unfolding update_entry insert_roster_swaps upsert_entry_roles exchanges hero_ids
  commit_swap s id entry round picks changed =
      let written =
        insert_roster_swaps (update_entry s id (record entry { slots = slots_of picks })) id round
          (exchanges (hero_ids entry) (pick_ids picks)) in
      elim changed [ none ↦ written | some assigned ↦ upsert_entry_roles written id round assigned ]

  -- The role rules of a swap: a hero that arrives needs a role.
  unfoldable pub swap_role_violations :
      List I64
      → List I64
      → List Assigned
      → List Assigned
      → Option (RoleBook D)
      → List RosterViolation
  unfolding validate_assignments merge_roles
  swap_role_violations held proposed current roles book =
      let required = if is_some book then without held proposed else [] in
      let role_input = if is_some book then merge_roles proposed current roles else roles in
      validate_assignments proposed role_input book required true

  -- `swap_roster` once the tournament and the entry are loaded
  unfoldable pub swap_loaded :
      Store D → Tournament → TournamentEntry → I64 → List I64 → List Assigned → ApiResult (Store D)
  unfolding resolve_picks validate_swap swap_role_violations current_role_pairs merge_roles
      changed_roles hero_ids commit_swap
  swap_loaded s t entry id ids roles = do
    let held = hero_ids entry
    picks ← resolve_picks s t ids
    violations ←
        or_err panicked (
          validate_swap held picks t entry (swaps_used s id)
            (swapped_in_round s id t.current_round))
    book ← book_of s t
    let current = current_role_pairs s id entry
    refuse (violations ++ swap_role_violations held (pick_ids picks) current roles book)
    ok (
        commit_swap s id entry t.current_round picks (
          if is_some book
          then some (changed_roles current (merge_roles (pick_ids picks) current roles))
          else none))

  unfoldable pub swap_roster : Store D → I64 → I64 → List I64 → List Assigned → ApiResult (Store D)
  unfolding swap_loaded
  swap_roster s tournament_id manager_id ids roles = do
    t ← require_tournament s tournament_id
    entry ← require_my_entry s tournament_id manager_id
    id ← or_err panicked entry.id
    swap_loaded s t entry id ids roles

  unfoldable pub set_roles : Store D → I64 → I64 → List Assigned → ApiResult (Store D)
  unfolding validate_assignments role_window_violations current_role_pairs changed_roles
      upsert_entry_roles replace_draft_roles is_locked hero_ids
  set_roles s tournament_id manager_id assigned = do
    t ← require_tournament s tournament_id
    entry ← require_my_entry s tournament_id manager_id
    id ← or_err panicked entry.id
    let ids = hero_ids entry
    book ← book_of s t
    let window = if is_some book then role_window_violations t entry else []
    let required = if is_locked entry then ids else []
    refuse (window ++ validate_assignments ids assigned book required (is_locked entry))
    ok (
        if is_locked entry
        then upsert_entry_roles s id t.current_round
            (changed_roles (current_role_pairs s id entry) assigned)
        else replace_draft_roles s id assigned)

  unfoldable pub purge_unlocked_entries : Store D → I64 → Store D
  unfolding survives_purge
  purge_unlocked_entries s tournament_id = keep_entries s (survives_purge tournament_id)
