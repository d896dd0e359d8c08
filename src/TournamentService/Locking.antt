-- ===== src/TournamentService/Locking.antt =====
-- What locking a roster leaves.
use um_fantasy_league.Common.{
  ◌<ℤ◌, pos, i32_max, I64, int_eq, List, [], ◌++◌, some, length, ◌≡◌, refl, ◌∙◌, ap, sym,
  length-map, subst, Distinct,
}
use um_fantasy_league.Tournament.{Tournament, TournamentEntry, DateTime, hero_ids, lock}
use um_fantasy_league.RosterPolicy.{RosterPick, pick_ids, validate_lock}
use um_fantasy_league.RosterPolicy.Commit.{validate_lock-fits}
use um_fantasy_league.TournamentService.{
  ok, ok-inj, or_err, panicked, Store, find_tournament, find_entry, swaps_of, resolve_picks,
  book_of, update_entry, current_role_pairs, lock_role_violations, lock_loaded, lock_roster,
}
use um_fantasy_league.TournamentService.Outcomes.{
  bind-ok, or_err-ok, refuse-ok, append-nil, find-replaced, find-is_of, resolve_picks-ids,
}
use um_fantasy_league.TournamentService.SwapLog.{IsTracked}

some-inj : {a b : I64} → some a ≡ some b → a ≡ b
some-inj h = cc

module _ {D : Type 0} where
  lock_roster-loaded :
      (s : Store D) (tournament_id manager_id : I64) (t : Tournament) (entry : TournamentEntry)
      (now : DateTime)
      → find_tournament s tournament_id ≡ some t
      → find_entry s tournament_id manager_id ≡ some entry
      → lock_roster s tournament_id manager_id now ≡ lock_loaded s t entry now
  unfolding lock_roster
  lock_roster-loaded s tournament_id manager_id t entry now is_t is_entry = rw (is_t, is_entry) refl

  locked_up :
      (s : Store D) (tournament_id manager_id id : I64) (t : Tournament) (entry : TournamentEntry)
      (now : DateTime) (picks : List RosterPick) (s' : Store D)
      → find_entry s tournament_id manager_id ≡ some entry
      → entry.id ≡ some id
      → swaps_of s id ≡ []
      → t.roster_size <ℤ i32_max
      → pick_ids picks ≡ hero_ids entry
      → validate_lock picks t entry ≡ some []
      → update_entry s id (lock entry now) ≡ s'
      → (find_entry s' tournament_id manager_id ≡ some (lock entry now))
        × (pos (length (hero_ids entry)) ≡ t.roster_size)
        × IsTracked (hero_ids entry) (hero_ids entry) (swaps_of s' id) t.current_round
  unfolding update_entry lock
  locked_up s tournament_id manager_id id t entry now picks s' is_entry known fresh small asked
        accepted same =
      let fits = validate_lock-fits picks t entry small accepted in
      rw (← same) (
        find-replaced tournament_id manager_id id entry (lock entry now) s.entries is_entry known
            (find-is_of tournament_id manager_id s.entries entry is_entry),
        sym (ap (λ ids. pos (length ids)) asked)
            ∙ ap pos (length-map (λ (p : RosterPick). p.hero_id) picks)
            ∙ fits.1,
        rw fresh (record {
          distinct = subst (λ ids. Distinct ids) asked fits.0;
          log = tt;
          ascends = tt;
          past = tt;
          same = λ x. refl;
        }),
      )

  loaded :
      (s : Store D) (tournament_id manager_id id : I64) (t : Tournament) (entry : TournamentEntry)
      (now : DateTime) (s' : Store D)
      → find_entry s tournament_id manager_id ≡ some entry
      → entry.id ≡ some id
      → swaps_of s id ≡ []
      → t.roster_size <ℤ i32_max
      → lock_loaded s t entry now ≡ ok s'
      → (find_entry s' tournament_id manager_id ≡ some (lock entry now))
        × (pos (length (hero_ids entry)) ≡ t.roster_size)
        × IsTracked (hero_ids entry) (hero_ids entry) (swaps_of s' id) t.current_round
  unfolding lock_loaded
  loaded s tournament_id manager_id id t entry now s' is_entry known fresh small h =
      let picked = bind-ok (resolve_picks s t (hero_ids entry)) _ s' h in
      let picks = picked.0 in
      let judged = bind-ok (or_err panicked (validate_lock picks t entry)) _ s' picked.2 in
      let booked = bind-ok (book_of s t) _ s' judged.2 in
      let named = bind-ok (or_err panicked entry.id) _ s' booked.2 in
      let later =
        lock_role_violations (hero_ids entry) (current_role_pairs s named.0 entry) booked.0 in
      let clear = refuse-ok (judged.0 ++ later) _ s' named.2 in
      let accepted =
        or_err-ok panicked (validate_lock picks t entry) judged.0 judged.1
        ∙ ap some (append-nil judged.0 later clear.0) in
      let same_id : named.0 ≡ id =
        some-inj (sym (or_err-ok panicked entry.id named.0 named.1) ∙ known) in
      locked_up s tournament_id manager_id id t entry now picks s' is_entry known fresh small
        (resolve_picks-ids s t (hero_ids entry) picks picked.1) accepted
        (ap (λ i. update_entry s i (lock entry now)) (sym same_id) ∙ ok-inj clear.1)

  -- For a roster size below the largest `i32` and an entry without swaps: if `lock_roster` succeeds then the
  -- manager's entry is the one that it was, but locked at the time, its roster is of the tournament's
  -- roster size, without repetitions, and tracked by the entry's still empty log of swaps from itself.
  pub lock_roster-IsTracked :
      (s : Store D) (tournament_id manager_id id : I64) (t : Tournament) (entry : TournamentEntry)
      (now : DateTime) (s' : Store D)
      → find_tournament s tournament_id ≡ some t
      → find_entry s tournament_id manager_id ≡ some entry
      → entry.id ≡ some id
      → swaps_of s id ≡ []
      → t.roster_size <ℤ i32_max
      → lock_roster s tournament_id manager_id now ≡ ok s'
      → (find_entry s' tournament_id manager_id ≡ some (lock entry now))
        × (pos (length (hero_ids entry)) ≡ t.roster_size)
        × IsTracked (hero_ids entry) (hero_ids entry) (swaps_of s' id) t.current_round
  lock_roster-IsTracked s tournament_id manager_id id t entry now s' is_t is_entry known fresh small
        h =
      loaded s tournament_id manager_id id t entry now s' is_entry known fresh small
        (sym (lock_roster-loaded s tournament_id manager_id t entry now is_t is_entry) ∙ h)
