-- ===== src/TournamentService/Writer.antt =====
-- The statements of backend-rs/crates/umfl-server/src/tournament/writer.rs that the tournament service runs.
use um_fantasy_league.Common.{
  pos, I32, I64, int_eq, pair_eq, ◌==◌, ◌+ℤ◌, Bool, not, ◌&&◌, Option, none, some, List, [], ◌∷◌,
  ◌++◌, map, keep, any, contains, if◌then◌else◌,
}
use um_fantasy_league.Tournament.{TournamentEntry, is_locked}
use um_fantasy_league.RosterRoles.{Assigned}
use um_fantasy_league.Standings.{RosterSwap}
use um_fantasy_league.TournamentService.Tables.{Store, SwapRow, RoleRow, has_id, find_entry}

abbrev pub swap_at : I32 → I64 × I64 → RosterSwap
swap_at round pair = record { round = round; hero_out_id = pair.0; hero_in_id = pair.1 }

abbrev pub swap_row : I64 → RosterSwap → SwapRow
swap_row entry_id w = record { entry_id = entry_id; swap = w }

abbrev pub role_row : I64 → I32 → Assigned → RoleRow
role_row entry_id round a = record {
  entry_id = entry_id;
  assignment = record { hero_id = a.0; from_round = round; role_id = a.1 };
}

-- The insert of one row, `on conflict (entry_id, hero_id, from_round) do update`.
unfoldable pub upsert_role : I64 → I32 → Assigned → List RoleRow → List RoleRow
upsert_role entry_id round a [] = role_row entry_id round a ∷ []
upsert_role entry_id round a (r ∷ rs) =
    let rest = upsert_role entry_id round a rs in
    if r.entry_id == entry_id && r.assignment.hero_id == a.0 && r.assignment.from_round == round
    then role_row entry_id round a ∷ rs
    else r ∷ rest

unfoldable pub survives_purge : I64 → TournamentEntry → Bool
unfolding is_locked
survives_purge tournament_id e = not (e.tournament_id == tournament_id && not (is_locked e))

module _ {D : Type 0} where
  -- `insert_entry`: none on `unique (tournament_id, manager_id)`.
  unfoldable pub insert_entry : Store D → TournamentEntry → Option (Store D)
  insert_entry s e = elim (find_entry s e.tournament_id e.manager_id) [
    | some other ↦ none
    | none ↦ some (record s {
      entries = s.entries ++ record e { id = some s.next_entry_id } ∷ [];
      next_entry_id = s.next_entry_id +ℤ pos 1;
    })
  ]

  -- `update_entry` of the entry with the id
  unfoldable pub update_entry : Store D → I64 → TournamentEntry → Store D
  update_entry s id e = record s {
    entries = map (λ (old : TournamentEntry). if has_id id old.id then e else old) s.entries;
  }

  unfoldable pub insert_roster_swaps : Store D → I64 → I32 → List (I64 × I64) → Store D
  insert_roster_swaps s entry_id round pairs = record s {
    swaps = s.swaps ++ map (swap_row entry_id) (map (swap_at round) pairs);
  }

  unfoldable pub upsert_entry_roles : Store D → I64 → I32 → List Assigned → Store D
  unfolding upsert_role
  upsert_entry_roles s entry_id round [] = s
  upsert_entry_roles s entry_id round (a ∷ rest) =
      upsert_entry_roles (record s { role_log = upsert_role entry_id round a s.role_log }) entry_id
        round rest

  unfoldable pub replace_draft_roles : Store D → I64 → List Assigned → Store D
  unfolding upsert_entry_roles
  replace_draft_roles s entry_id assigned =
      upsert_entry_roles
        (record s { role_log = keep (λ (r : RoleRow). not (r.entry_id == entry_id)) s.role_log })
        entry_id (pos 1) assigned

  unfoldable pub delete_draft_roles_except : Store D → I64 → List I64 → Store D
  delete_draft_roles_except s entry_id kept = record s {
    role_log =
        keep
          (λ (r : RoleRow).
            not (r.entry_id == entry_id && not (contains kept r.assignment.hero_id)))
          s.role_log;
  }

  -- The entries that pass a test, and what they own.
  abbrev pub keep_entries : Store D → (TournamentEntry → Bool) → Store D
  keep_entries s test =
      let kept = keep test s.entries in
      let owned = λ (id : I64). any (λ (e : TournamentEntry). has_id id e.id) kept in
      record s {
        entries = kept;
        swaps = keep (λ (r : SwapRow). owned r.entry_id) s.swaps;
        role_log = keep (λ (r : RoleRow). owned r.entry_id) s.role_log;
      }
