-- ===== src/TournamentService/Registration.antt =====
-- What registering for a tournament does to its entries, whatever others commit before its row is locked.
use um_fantasy_league.Common.{
  suc, ◌<ℤ◌, ◌≤ℤ◌, pos, I64, int_eq, ◌==◌, ◌+ℤ◌, leb_ℤ, Bool, true, false, ◌&&◌, List, [], ◌∷◌,
  ◌++◌, keep, find, none, some, length, ◌≡◌, refl, arith, ◌∙◌, ap, sym, inl, inr, ◌↔◌, Bool-cases,
  Option-cases, eqb_ℤ_iff,
}
use um_fantasy_league.Tournament.{
  Tournament, TournamentEntry, DateTime, draft, accepts_registration,
}
use um_fantasy_league.TournamentService.{
  ok-inj, ok, or_err, already_registered, ApiError, Store, find_tournament, find_entry,
  count_entries, insert_entry, register,
}

-- The entry that registering makes.
abbrev pub entered : I64 → I64 → I64 → Tournament → DateTime → TournamentEntry
entered id tournament_id manager_id t now = record {
  id = some id;
  tournament_id = tournament_id;
  manager_id = manager_id;
  status = draft;
  credit_grant = t.credit_grant;
  registered_at = now;
  locked_at = none;
  slots = [];
}

abbrev in_tournament : I64 → TournamentEntry → Bool
in_tournament tournament_id e = e.tournament_id == tournament_id

abbrev is_of : I64 → I64 → TournamentEntry → Bool
is_of tournament_id manager_id e = e.tournament_id == tournament_id && e.manager_id == manager_id

count_last :
    (tournament_id : I64) (es : List TournamentEntry) (e : TournamentEntry)
    → e.tournament_id ≡ tournament_id
    → length (keep (in_tournament tournament_id) (es ++ e ∷ []))
      ≡ suc (length (keep (in_tournament tournament_id) es))
count_last t [] e h = ground (arith, eqb_ℤ_iff e.tournament_id t)
count_last t (d ∷ es) e h = ground (arith, count_last t es e h)

find_last :
    (t m : I64) (es : List TournamentEntry) (e : TournamentEntry)
    → find (is_of t m) es ≡ none
    → e.tournament_id ≡ t
    → e.manager_id ≡ m
    → find (is_of t m) (es ++ e ∷ []) ≡ some e
find_last t m [] e h at by = ground (arith, eqb_ℤ_iff e.tournament_id t, eqb_ℤ_iff e.manager_id m)
find_last t m (d ∷ es) e h at by = ground (arith, find_last t m es e)

module _ {D : Type 0} where
  -- The entries of a store with a new one.
  abbrev pub with_entry : Store D → I64 → I64 → Tournament → DateTime → Store D
  with_entry s tournament_id manager_id t now = record s {
    entries = s.entries ++ entered s.next_entry_id tournament_id manager_id t now ∷ [];
    next_entry_id = s.next_entry_id +ℤ pos 1;
  }

  -- Who may register, by what is read before the tournament's row is locked and by what stands then: the
  -- tournament takes registrations, the manager is not in it, and the locked row has a free place.
  pub record MayRegister (read s : Store D) (tournament_id manager_id : I64) (t row : Tournament)
      : Type 0 where
    pub accepts : accepts_registration t ≡ true
    pub was_new : find_entry read tournament_id manager_id ≡ none
    pub is_new : find_entry s tournament_id manager_id ≡ none
    pub room : pos (count_entries s tournament_id) <ℤ row.capacity

  insert_entry-new :
      (s : Store D) (e : TournamentEntry)
      → find_entry s e.tournament_id e.manager_id ≡ none
      → insert_entry s e
        ≡ some (record s {
          entries = s.entries ++ record e { id = some s.next_entry_id } ∷ [];
          next_entry_id = s.next_entry_id +ℤ pos 1;
        })
  unfolding insert_entry
  insert_entry-new s e h = rw (insert_entry, h) refl

  insert_entry-taken :
      (s : Store D) (e other : TournamentEntry) (refusal : ApiError) (s' : Store D)
      → find_entry s e.tournament_id e.manager_id ≡ some other
      → or_err refusal (insert_entry s e) ≡ ok s'
      → ⊥
  unfolding insert_entry
  insert_entry-taken s e other refusal s' h g = let none_made = rw (insert_entry, h) at g in cc

  module _ (read s : Store D) (tournament_id manager_id : I64) (t row : Tournament) (now : DateTime)
      (is_t : find_tournament read tournament_id ≡ some t)
      (is_row : find_tournament s tournament_id ≡ some row) where
    register-with_entry :
        MayRegister read s tournament_id manager_id t row
        → register read s tournament_id manager_id now
          ≡ ok (with_entry s tournament_id manager_id t now)
    unfolding register
    register-with_entry may =
        let full : leb_ℤ row.capacity (pos (count_entries s tournament_id)) ≡ false =
          ground (arith, may.room) in
        rw (is_t, may.accepts, may.was_new, is_row, full)
          (ap (or_err (already_registered t.name)) (
            insert_entry-new s
              (record (entered s.next_entry_id tournament_id manager_id t now) { id = none })
              may.is_new))

    register-MayRegister :
        (s' : Store D)
        → register read s tournament_id manager_id now ≡ ok s'
        → MayRegister read s tournament_id manager_id t row
    unfolding register
    register-MayRegister s' h =
        let open_now : accepts_registration t ≡ true = elim (Bool-cases (accepts_registration t)) [
          | inl yes_open ↦ yes_open
          | inr closed ↦ let g = rw (is_t, closed) at h in absurd cc
        ] in
        let was_new : find_entry read tournament_id manager_id ≡ none =
          elim (Option-cases (find_entry read tournament_id manager_id)) [
            | inl absent ↦ absent
            | inr present ↦ let g = rw (is_t, open_now, present.1) at h in absurd cc
          ] in
        let room : leb_ℤ row.capacity (pos (count_entries s tournament_id)) ≡ false =
          elim (Bool-cases (leb_ℤ row.capacity (pos (count_entries s tournament_id)))) [
            | inl full ↦ let g = rw (is_t, open_now, was_new, is_row, full) at h in absurd cc
            | inr free ↦ free
          ] in
        let is_new : find_entry s tournament_id manager_id ≡ none =
          elim (Option-cases (find_entry s tournament_id manager_id)) [
            | inl absent ↦ absent
            | inr present ↦
                let g = rw (is_t, open_now, was_new, is_row, room) at h in
                absurd (
                  insert_entry-taken s
                    (record (entered s.next_entry_id tournament_id manager_id t now) { id = none })
                    present.0 (already_registered t.name) s' present.1 g)
          ] in
        record { accepts = open_now; was_new = was_new; is_new = is_new; room = ground arith }

    -- For a tournament that `register` finds before it locks its row, and a row that it then locks, which
    -- others may have edited in between, as they may the entries: `register` succeeds exactly if the
    -- tournament it found takes registrations, the manager had no entry in it then and has none now,
    -- and it has now fewer entries than the capacity of the locked row. When it succeeds, the tournament has
    -- one entry more than it has now, which is no more than the capacity of the locked row, and the manager's
    -- entry in it is a draft without slots, at the grant of credits that was found and under the next id.
    pub register_lem :
        (((s' : Store D) × (register read s tournament_id manager_id now ≡ ok s'))
          ↔ MayRegister read s tournament_id manager_id t row)
        × ((s' : Store D)
            → register read s tournament_id manager_id now ≡ ok s'
            → (count_entries s' tournament_id ≡ suc (count_entries s tournament_id))
              × (pos (count_entries s' tournament_id) ≤ℤ row.capacity)
              × (find_entry s' tournament_id manager_id
                  ≡ some (entered s.next_entry_id tournament_id manager_id t now)))
    register_lem = (
      (
        λ r. register-MayRegister r.0 r.1,
        λ may. (with_entry s tournament_id manager_id t now, register-with_entry may),
      ),
      λ s' h.
          let may = register-MayRegister s' h in
          let made : with_entry s tournament_id manager_id t now ≡ s' =
            ok-inj (sym (register-with_entry may) ∙ h) in
          let e = entered s.next_entry_id tournament_id manager_id t now in
          let counted = count_last tournament_id s.entries e refl in
          rw (← made) (
            counted,
            ground (arith, counted, may.room),
            find_last tournament_id manager_id s.entries e may.is_new refl refl,
          ),
    )
