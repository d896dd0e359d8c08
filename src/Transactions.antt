-- ===== src/Transactions.antt =====
-- The theorems on the tournament service at concrete tables.
use um_fantasy_league.Common.{
  ltb_ℤ, if◌then◌else◌, ℤ, pos, I64, int_eq, nat_eq, list_eq, ◌≤ℤ◌, true, false, ◌++◌, none, some,
  List, [], ◌∷◌, length, count, keep, map, ◌≡◌, refl, ◌↔◌, arith, suc, len_i32, sub_i32, add_i32,
  wrap, ◌-ℤ◌, ◌+ℤ◌, ◌*ℤ◌, neg_i32, saturating_mul,
}
use um_fantasy_league.Common.IndexMap
use um_fantasy_league.Common.Text.{codes}
use um_fantasy_league.Common.Sorting.{sort, insert_sorted}
use um_fantasy_league.Examples.{spring_cup, ada}
use um_fantasy_league.Tournament.{
  draft, live, lock, accepts_roster_changes, Tournament, TournamentEntry, locked, banquest,
  hero_ids, is_locked, accepts_swaps,
}
use um_fantasy_league.RosterPolicy.{
  validate_lock, validate_draft, mutability_violations, budget_status, check_too_many,
  check_incomplete, check_budget, duplicate_heroes, validate_swap, swap_allowance, heroes_changed,
  sum_i32,
}
use um_fantasy_league.RosterRoles.{current_roles, latest_from, validate_assignments}
use um_fantasy_league.Standings.{held_ids, EntryRoster, RosterSwap, holdings}
use um_fantasy_league.Standings.Held.{covering}
use um_fantasy_league.TournamentService.{
  Store, find_entry, count_entries, swaps_of, swap_roster, register, ok, swap_loaded, changed_roles,
  commit_swap, current_role_pairs, exchanges, insert_roster_swaps, merge_roles, picks_of,
  resolve_picks, swap_role_violations, update_entry, upsert_entry_roles, with_role,
}
use um_fantasy_league.TournamentService.Exchanges.{rows}
use um_fantasy_league.TournamentService.{
  find_tournament, lock_roster, lock_loaded, lock_role_violations, survives_purge,
  purge_unlocked_entries,
}
use um_fantasy_league.TournamentService.Admin.{TournamentFields, tournament_of, update}
use um_fantasy_league.TournamentService.Closing.{entries_in, entries_outside, update_live}
use um_fantasy_league.TournamentService.Locking.{lock_roster-IsTracked}
use um_fantasy_league.TournamentService.Scoring.{swap_roster-holdings}
use um_fantasy_league.TournamentService.SwapLog.{IsTracked, swap_roster-IsTracked}
use um_fantasy_league.TournamentService.Registration.{MayRegister, entered, register_lem}
use um_fantasy_league.Scenarios.{grace}

abbrev pub round_two : Tournament
round_two = record spring_cup { current_round = pos 2 }

abbrev locked_ada : TournamentEntry
locked_ada = record ada {
  status = locked;
  slots = record { hero_id = pos 1 } ∷ record { hero_id = pos 3 } ∷ [];
}

abbrev before_swap : Store ℤ
before_swap = record {
  tournaments = round_two ∷ [];
  entries = locked_ada ∷ [];
  swaps = [];
  role_log = [];
  pool =
      record { tournament_id = pos 1; hero_id = pos 1; cost = pos 10 }
      ∷ record { tournament_id = pos 1; hero_id = pos 2; cost = pos 15 }
      ∷ [];
  books = λ _. record { roles = [] };
  next_entry_id = pos 8;
  next_tournament_id = pos 2;
}

abbrev wanted : List I64
wanted = pos 1 ∷ pos 2 ∷ []

abbrev after_swap : Store ℤ
after_swap = record before_swap {
  entries =
      record locked_ada { slots = record { hero_id = pos 1 } ∷ record { hero_id = pos 2 } ∷ [] }
      ∷ [];
  swaps =
      record {
        entry_id = pos 7;
        swap = record { round = pos 2; hero_out_id = pos 3; hero_in_id = pos 2 };
      }
      ∷ [];
}

after_swap_is_right : swap_roster before_swap (pos 1) (pos 3) wanted [] ≡ ok after_swap
unfolding swap_roster swap_loaded sort insert_sorted budget_status accepts_swaps is_locked
    check_too_many check_incomplete check_budget duplicate_heroes validate_swap swap_allowance
    heroes_changed sum_i32 len_i32 sub_i32 add_i32 wrap ◌-ℤ◌ ◌+ℤ◌ ◌*ℤ◌ neg_i32 saturating_mul
    IndexMap.repeated IndexMap.get IndexMap.insert IndexMap.tally IndexMap.upsert current_roles
    latest_from validate_assignments hero_ids changed_roles commit_swap current_role_pairs exchanges
    insert_roster_swaps merge_roles picks_of resolve_picks swap_role_violations update_entry
    upsert_entry_roles with_role
after_swap_is_right = refl

locked_ada-IsTracked :
    IsTracked (hero_ids locked_ada) (pos 1 ∷ pos 3 ∷ []) (swaps_of before_swap (pos 7)) (pos 2)
unfolding hero_ids
locked_ada-IsTracked = record {
  distinct = (refl, (refl, tt));
  log = tt;
  ascends = tt;
  past = tt;
  same = λ x. refl;
}

swap_roster_example :
    (e : TournamentEntry) × (find_entry after_swap (pos 1) (pos 3) ≡ some e)
    × (e.id ≡ some (pos 7))
    × (hero_ids e ≡ wanted)
    × (pos (length wanted) ≡ pos 2)
    × (swaps_of after_swap (pos 7)
        ≡ swaps_of before_swap (pos 7) ++ rows (pos 2) (exchanges (hero_ids locked_ada) wanted))
    × IsTracked wanted (pos 1 ∷ pos 3 ∷ []) (swaps_of after_swap (pos 7)) (pos 2)
unfolding hero_ids
swap_roster_example =
    swap_roster-IsTracked before_swap (pos 1) (pos 3) (pos 7) round_two locked_ada wanted []
      (pos 1 ∷ pos 3 ∷ []) after_swap refl refl refl (omega arith) (omega arith) refl
      locked_ada-IsTracked after_swap_is_right

-- Before the row is locked, another manager leaves the tournament and its capacity is lowered.
abbrev shrunk : Store ℤ
shrunk = record before_swap {
  tournaments = record round_two { capacity = pos 1 } ∷ [];
  entries = [];
}

register_example :
    let row = record round_two { capacity = pos 1 } in
    (((s' : Store ℤ) × (register before_swap shrunk (pos 1) (pos 4) (pos 9) ≡ ok s'))
      ↔ MayRegister before_swap shrunk (pos 1) (pos 4) round_two row)
    × ((s' : Store ℤ)
        → register before_swap shrunk (pos 1) (pos 4) (pos 9) ≡ ok s'
        → (count_entries s' (pos 1) ≡ suc (count_entries shrunk (pos 1)))
          × (pos (count_entries s' (pos 1)) ≤ℤ pos 1)
          × (find_entry s' (pos 1) (pos 4)
              ≡ some (entered (pos 8) (pos 1) (pos 4) round_two (pos 9))))
register_example =
    register_lem before_swap shrunk (pos 1) (pos 4) round_two
      (record round_two { capacity = pos 1 }) (pos 9) refl refl

locked_ada-full : pos (length (hero_ids locked_ada)) ≡ pos 2
unfolding hero_ids
locked_ada-full = refl

abbrev roster_entry : List I64 → List RosterSwap → EntryRoster
roster_entry ids ss = record grace {
  heroes =
      map (λ (id : I64). record { slot_index = pos 0; hero_id = id; name = []; cost = pos 0 }) ids;
  swaps = ss;
}

locked_ada-heroes : held_ids (roster_entry (pos 1 ∷ pos 3 ∷ []) []) ≡ hero_ids locked_ada
unfolding hero_ids
locked_ada-heroes = refl

swap_holdings_example :
    let old = roster_entry (pos 1 ∷ pos 3 ∷ []) [] in
    let new = roster_entry wanted (swaps_of after_swap (pos 7)) in
    covering (pos 3) (pos 4) (holdings new) ≡ (
      if ltb_ℤ (pos 4) (pos 2)
      then covering (pos 3) (pos 4) (holdings old)
      else count (pos 3) wanted)
swap_holdings_example =
    swap_roster-holdings before_swap (pos 1) (pos 3) (pos 7) round_two locked_ada wanted []
      (pos 1 ∷ pos 3 ∷ []) after_swap (roster_entry (pos 1 ∷ pos 3 ∷ []) [])
      (roster_entry wanted (swaps_of after_swap (pos 7))) refl refl refl (omega arith) (omega arith)
      locked_ada-full locked_ada-IsTracked after_swap_is_right
      (record { heroes = locked_ada-heroes; log = refl }) (record { heroes = refl; log = refl })
      (pos 3) (pos 4) (omega arith)

abbrev pub draft_ada : TournamentEntry
draft_ada = record locked_ada {
  status = draft;
  slots = record { hero_id = pos 1 } ∷ record { hero_id = pos 2 } ∷ [];
}

abbrev pub before_lock : Store ℤ
before_lock = record before_swap { entries = draft_ada ∷ [] }

abbrev pub after_lock : Store ℤ
after_lock = record before_lock {
  entries = record draft_ada { status = locked; locked_at = some (pos 9) } ∷ [];
}

after_lock_is_right : lock_roster before_lock (pos 1) (pos 3) (pos 9) ≡ ok after_lock
unfolding lock_roster lock_loaded sort insert_sorted budget_status is_locked check_too_many
    check_incomplete check_budget duplicate_heroes validate_lock validate_draft
    mutability_violations accepts_roster_changes lock sum_i32 len_i32 sub_i32 add_i32 wrap ◌-ℤ◌ ◌+ℤ◌
    neg_i32 IndexMap.repeated IndexMap.get IndexMap.insert IndexMap.tally IndexMap.upsert
    current_roles latest_from validate_assignments hero_ids current_role_pairs picks_of
    resolve_picks lock_role_violations update_entry with_role
after_lock_is_right = refl

lock_roster_example :
    (find_entry after_lock (pos 1) (pos 3) ≡ some (lock draft_ada (pos 9)))
    × (pos (length (hero_ids draft_ada)) ≡ pos 2)
    × IsTracked (hero_ids draft_ada) (hero_ids draft_ada) (swaps_of after_lock (pos 7)) (pos 2)
lock_roster_example =
    lock_roster-IsTracked before_lock (pos 1) (pos 3) (pos 7) round_two draft_ada (pos 9) after_lock
      refl refl refl refl (omega arith) after_lock_is_right

abbrev goes_live : TournamentFields
goes_live = record {
  name = codes "Spring Cup";
  format = banquest;
  status = live;
  start_date = pos 20_000;
  end_date = none;
  capacity = pos 8;
  roster_size = pos 2;
  credit_grant = pos 30;
  swaps_per_round = pos 1;
  roles_enabled = false;
}

abbrev after_edit : Store ℤ
after_edit = record before_lock {
  tournaments = tournament_of (some (pos 1)) goes_live (pos 2) true ∷ [];
  entries = [];
}

after_edit_is_right : update before_lock (pos 1) goes_live ≡ ok after_edit
unfolding update purge_unlocked_entries survives_purge is_locked
after_edit_is_right = refl

update_live_example :
    (find_tournament after_edit (pos 1)
      ≡ some (tournament_of (some (pos 1)) goes_live (pos 2) true))
    × (entries_in (pos 1) after_edit.entries
        ≡ keep is_locked (entries_in (pos 1) before_lock.entries))
    × (entries_outside (pos 1) after_edit.entries ≡ entries_outside (pos 1) before_lock.entries)
update_live_example =
    update_live before_lock (pos 1) goes_live round_two after_edit refl refl after_edit_is_right
