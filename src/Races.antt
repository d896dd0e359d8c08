-- ===== src/Races.antt =====
-- Runs of backend-rs/crates/umfl-server/src/tournament/service.rs in which another handler commits between what
-- `register` or `set_slots` reads and what it writes.
use um_fantasy_league.Common.{
  ℤ, pos, I64, List, [], ◌∷◌, ◌≡◌, ◌↔◌, refl, some, not, false, any, keep, arith, len_i32, wrap,
}
use um_fantasy_league.Common.IndexMap
use um_fantasy_league.Common.Sorting.{sort, insert_sorted}
use um_fantasy_league.Examples.{spring_cup}
use um_fantasy_league.Tournament.{
  Tournament, locked, draft, registration_open, live, accepts_registration, accepts_roster_changes,
}
use um_fantasy_league.RosterPolicy.{
  validate_draft, mutability_violations, check_too_many, duplicate_heroes,
}
use um_fantasy_league.RosterRoles.{dedup}
use um_fantasy_league.Transactions.{before_lock, after_lock, draft_ada, round_two}
use um_fantasy_league.TournamentService.{
  Store, RoleRow, find_entry, ok, register, set_slots, insert_entry, resolve_picks, picks_of,
  update_entry, delete_draft_roles_except,
}
use um_fantasy_league.TournamentService.Drafting.{
  MaySetSlots, drafted, is_off, is_other, set_slots_lem,
}
use um_fantasy_league.TournamentService.Registration.{with_entry}

abbrev open_cup : Tournament
open_cup = record spring_cup { status = registration_open }

abbrev open_store : Store ℤ
open_store = record before_lock { tournaments = open_cup ∷ []; entries = [] }

-- The tournament goes live once its status has been read.
abbrev live_store : Store ℤ
live_store = record open_store { tournaments = record open_cup { status = live } ∷ [] }

draft_in_live :
    register open_store live_store (pos 1) (pos 3) (pos 9)
    ≡ ok (with_entry live_store (pos 1) (pos 3) open_cup (pos 9))
unfolding register insert_entry accepts_registration
draft_in_live = refl

-- The entry is locked once its draft has been read.
abbrev other_hero : List I64
other_hero = pos 2 ∷ []

lock_undone :
    set_slots before_lock after_lock (pos 1) (pos 3) other_hero
    ≡ ok (record after_lock {
      entries = record draft_ada { slots = record { hero_id = pos 2 } ∷ [] } ∷ [];
    })
unfolding set_slots sort insert_sorted validate_draft mutability_violations accepts_roster_changes
    resolve_picks picks_of update_entry delete_draft_roles_except IndexMap.repeated IndexMap.get
    IndexMap.insert IndexMap.tally IndexMap.upsert len_i32 wrap dedup check_too_many
    duplicate_heroes
lock_undone = refl

set_slots_example :
    (((s' : Store ℤ) × (set_slots before_lock after_lock (pos 1) (pos 3) other_hero ≡ ok s'))
      ↔ MaySetSlots before_lock (pos 1) round_two draft other_hero)
    × ((s' : Store ℤ)
        → set_slots before_lock after_lock (pos 1) (pos 3) other_hero ≡ ok s'
        → (find_entry s' (pos 1) (pos 3) ≡ some (drafted draft_ada other_hero))
          × (keep (is_other (pos 7)) s'.entries ≡ keep (is_other (pos 7)) after_lock.entries)
          × (s'.tournaments ≡ after_lock.tournaments)
          × (s'.swaps ≡ after_lock.swaps)
          × (any (is_off (pos 7) other_hero) s'.role_log ≡ false)
          × (keep (λ (r : RoleRow). not (is_off (pos 7) other_hero r)) s'.role_log
              ≡ keep (λ (r : RoleRow). not (is_off (pos 7) other_hero r)) after_lock.role_log))
set_slots_example =
    set_slots_lem before_lock after_lock (pos 1) (pos 3) (pos 7) round_two draft_ada
      (record draft_ada { status = locked; locked_at = some (pos 9) }) other_hero refl refl refl
      refl refl (omega arith)
