-- ===== src/TournamentService/Closing.antt =====
-- What an admin's edit of a tournament keeps, and what it purges.
use um_fantasy_league.Common.{
  I64, int_eq, nat_eq, list_eq, ◌==◌, true, not, some, List, [], ◌∷◌, map, keep, find,
  if◌then◌else◌, ◌≡◌, refl, arith, eqb_ℤ_iff, inl, inr, Bool-cases,
}
use um_fantasy_league.Tournament.{Tournament, TournamentEntry, live, status_beq, is_locked}
use um_fantasy_league.TournamentService.{
  ok, ok-inj, Store, has_id, find_tournament, survives_purge, purge_unlocked_entries,
}
use um_fantasy_league.TournamentService.Admin.{
  TournamentFields, tournament_of, is_another, find_by_name, update,
}

-- The edited tournament is found under its id.
find-edited :
    (id : I64) (existing edited : Tournament) (ts : List Tournament)
    → find (λ (t : Tournament). has_id id t.id) ts ≡ some existing
    → has_id id edited.id ≡ true
    → find
        (λ (t : Tournament). has_id id t.id)
        (map (λ (t : Tournament). if has_id id t.id then edited else t) ts)
      ≡ some edited
find-edited id existing edited [] found mine = cc
find-edited id existing edited (t ∷ ts) found mine = elim (Bool-cases (has_id id t.id)) [
  | inl here ↦ rw (here, mine) refl
  | inr there ↦ rw (there, there) (find-edited id existing edited ts (rw there at found) mine)
]

abbrev pub entries_in : I64 → List TournamentEntry → List TournamentEntry
entries_in id = keep λ (e : TournamentEntry). e.tournament_id == id

abbrev pub entries_outside : I64 → List TournamentEntry → List TournamentEntry
entries_outside id = keep λ (e : TournamentEntry). not (e.tournament_id == id)

entries_in-survivors :
    (id : I64) (es : List TournamentEntry)
    → entries_in id (keep (survives_purge id) es) ≡ keep is_locked (entries_in id es)
unfolding survives_purge
entries_in-survivors id [] = refl
entries_in-survivors id (e ∷ es) = ground (arith, entries_in-survivors id es)

entries_outside-survivors :
    (id : I64) (es : List TournamentEntry)
    → entries_outside id (keep (survives_purge id) es) ≡ entries_outside id es
unfolding survives_purge
entries_outside-survivors id [] = refl
entries_outside-survivors id (e ∷ es) = ground (arith, entries_outside-survivors id es)

module _ {D : Type 0} where
  -- An edit that takes a tournament live: the tournament has what the form says, but the round and
  -- the state of the swap window that it had; its entries are those of them that were locked, in
  -- their order; and the entries of the other tournaments are as they were.
  pub update_live :
      (s : Store D) (id : I64) (f : TournamentFields) (existing : Tournament) (s' : Store D)
      → find_tournament s id ≡ some existing
      → f.status ≡ live
      → update s id f ≡ ok s'
      → (find_tournament s' id
          ≡ some (tournament_of (some id) f existing.current_round existing.swap_window_open))
        × (entries_in id s'.entries ≡ keep is_locked (entries_in id s.entries))
        × (entries_outside id s'.entries ≡ entries_outside id s.entries)
  unfolding update purge_unlocked_entries
  update_live s id f existing s' found goes_live h =
      elim (Bool-cases (is_another id (find_by_name s f.name))) [
        | inl clash ↦ let g = rw (found, clash) at h in absurd cc
        | inr free ↦
            let is_live : status_beq f.status live ≡ true = rw goes_live refl in
            let g = rw (found, free, is_live) at h in
            let edited =
              tournament_of (some id) f existing.current_round existing.swap_window_open in
            rw (← ok-inj g) (
              find-edited id existing edited s.tournaments found (ground (arith, eqb_ℤ_iff id id)),
              entries_in-survivors id s.entries,
              entries_outside-survivors id s.entries,
            )
      ]
