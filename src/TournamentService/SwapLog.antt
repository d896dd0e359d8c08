-- ===== src/TournamentService/SwapLog.antt =====
-- What a swap that is accepted leaves in the tables, for the entry that it is made on.
use um_fantasy_league.Common.{
  ◌<ℤ◌, pos, i32_max, I32, I64, int_eq, ◌≤ℤ◌, Bool, List, [], ◌++◌, All, Option, none, some, length,
  Distinct, ◌≡◌, refl, arith, ◌∙◌, ap, sym, if◌then◌else◌, length-map, count,
}
use um_fantasy_league.Common.SortedLists.{SameCounts}
use um_fantasy_league.Tournament.{Tournament, TournamentEntry, hero_ids}
use um_fantasy_league.RosterPolicy.{RosterPick, pick_ids, validate_swap}
use um_fantasy_league.RosterPolicy.Swap.{validate_swap-fits}
use um_fantasy_league.RosterRoles.{Assigned}
use um_fantasy_league.Standings.{RosterSwap}
use um_fantasy_league.Standings.Held.{IsLog, IsAscending, after}
use um_fantasy_league.TournamentService.{
  ok-inj, panicked, ok, or_err, Store, find_tournament, find_entry, swaps_of, slots_of,
  resolve_picks, exchanges, update_entry, insert_roster_swaps, commit_swap, swap_roster,
  swap_loaded, is_some, changed_roles, merge_roles, swaps_used, swapped_in_round, book_of,
  current_role_pairs, swap_role_violations,
}
use um_fantasy_league.TournamentService.Exchanges.{
  rows, exchanges-IsLog, IsLog-append, after-append, IsAscending-append, past-append,
}
use um_fantasy_league.TournamentService.Outcomes.{
  bind-ok, or_err-ok, refuse-ok, append-nil, find-replaced, hero_ids-slots_of, find-is_of,
  find_entry-upsert, resolve_picks-ids, swaps_of-insert, swaps_of-upsert,
}

-- A roster whose log of swaps, made up to a round, takes an opening roster to it.
pub record IsTracked (held opening : List I64) (ss : List RosterSwap) (round : I32) : Type 0 where
  pub distinct : Distinct held
  pub log : IsLog opening ss
  pub ascends : IsAscending (pos 1) ss
  pub past : All (λ (w : RosterSwap). w.round ≤ℤ round) ss
  pub same : SameCounts held (after opening ss)

exchanges-IsTracked :
    (held opening proposed : List I64) (ss : List RosterSwap) (round : I32)
    → pos 1 ≤ℤ round
    → Distinct proposed
    → length held ≡ length proposed
    → IsTracked held opening ss round
    → IsTracked proposed opening (ss ++ rows round (exchanges held proposed)) round
exchanges-IsTracked held opening proposed ss round le f h k =
    let pairs = exchanges held proposed in
    let made = exchanges-IsLog round (after opening ss) held proposed k.same k.distinct f h in
    record {
      distinct = f;
      log = IsLog-append opening ss (rows round pairs) k.log made.0;
      ascends = IsAscending-append (pos 1) round ss pairs le k.ascends k.past;
      past = past-append round ss pairs k.past;
      same = λ x.
          made.1 x ∙ sym (ap (λ ids. count x ids) (after-append opening ss (rows round pairs)));
    }

module _ {D : Type 0} where
  commit_swap-swaps :
      (s : Store D) (id : I64) (entry : TournamentEntry) (round : I32) (picks : List RosterPick)
      (changed : Option (List Assigned))
      → swaps_of (commit_swap s id entry round picks changed) id
        ≡ swaps_of s id ++ rows round (exchanges (hero_ids entry) (pick_ids picks))
  unfolding commit_swap update_entry
  commit_swap-swaps s id entry round picks none =
      swaps_of-insert s id round (exchanges (hero_ids entry) (pick_ids picks))
  commit_swap-swaps s id entry round picks (some assigned) =
      swaps_of-upsert assigned _ id id round
      ∙ swaps_of-insert s id round (exchanges (hero_ids entry) (pick_ids picks))

  commit_swap-entry :
      (s : Store D) (t m id : I64) (entry : TournamentEntry) (round : I32) (picks : List RosterPick)
      (changed : Option (List Assigned))
      → find_entry s t m ≡ some entry
      → entry.id ≡ some id
      → find_entry (commit_swap s id entry round picks changed) t m
        ≡ some (record entry { slots = slots_of picks })
  unfolding commit_swap update_entry insert_roster_swaps
  commit_swap-entry s t m id entry round picks none found known =
      find-replaced t m id entry (record entry { slots = slots_of picks }) s.entries found known
        (find-is_of t m s.entries entry found)
  commit_swap-entry s t m id entry round picks (some assigned) found known =
      find_entry-upsert assigned _ t m id round
      ∙ find-replaced t m id entry (record entry { slots = slots_of picks }) s.entries found known
          (find-is_of t m s.entries entry found)

  committed :
      (s : Store D) (tournament_id manager_id id : I64) (t : Tournament) (entry : TournamentEntry)
      (opening : List I64) (picks : List RosterPick) (changed : Option (List Assigned)) (used : I32)
      (already : Bool)
      → find_entry s tournament_id manager_id ≡ some entry
      → entry.id ≡ some id
      → t.roster_size <ℤ i32_max
      → pos 1 ≤ℤ t.current_round
      → pos (length (hero_ids entry)) ≡ t.roster_size
      → IsTracked (hero_ids entry) opening (swaps_of s id) t.current_round
      → validate_swap (hero_ids entry) picks t entry used already ≡ some []
      → (ids : List I64) → pick_ids picks ≡ ids
      → (s' : Store D) → commit_swap s id entry t.current_round picks changed ≡ s'
      → (entry' : TournamentEntry) × (find_entry s' tournament_id manager_id ≡ some entry')
        × (entry'.id ≡ some id)
        × (hero_ids entry' ≡ ids)
        × (pos (length ids) ≡ t.roster_size)
        × (swaps_of s' id ≡ swaps_of s id ++ rows t.current_round (exchanges (hero_ids entry) ids))
        × IsTracked ids opening (swaps_of s' id) t.current_round
  committed s tournament_id manager_id id t entry opening picks changed used already is_entry known
        small le full tracked accepted ids asked s' same =
      let fits =
        validate_swap-fits
          (record { current = hero_ids entry; proposed = picks; used = used; already = already }) t
          entry small accepted in
      let sized : length (pick_ids picks) ≡ length picks =
        length-map (λ (p : RosterPick). p.hero_id) picks in
      rw (← asked, ← same, commit_swap-swaps s id entry t.current_round picks changed)
        (
          record entry { slots = slots_of picks },
          commit_swap-entry s tournament_id manager_id id entry t.current_round picks changed
              is_entry known,
          known,
          hero_ids-slots_of entry picks,
          ap pos sized ∙ fits.1,
          refl,
          exchanges-IsTracked (hero_ids entry) opening (pick_ids picks) (swaps_of s id)
              t.current_round le fits.0 (ground (arith, full, fits.1, sized)) tracked,
        )

  loaded :
      (s : Store D) (tournament_id manager_id id : I64) (t : Tournament) (entry : TournamentEntry)
      (ids : List I64) (roles : List Assigned) (opening : List I64) (s' : Store D)
      → find_entry s tournament_id manager_id ≡ some entry
      → entry.id ≡ some id
      → t.roster_size <ℤ i32_max
      → pos 1 ≤ℤ t.current_round
      → pos (length (hero_ids entry)) ≡ t.roster_size
      → IsTracked (hero_ids entry) opening (swaps_of s id) t.current_round
      → swap_loaded s t entry id ids roles ≡ ok s'
      → (entry' : TournamentEntry) × (find_entry s' tournament_id manager_id ≡ some entry')
        × (entry'.id ≡ some id)
        × (hero_ids entry' ≡ ids)
        × (pos (length ids) ≡ t.roster_size)
        × (swaps_of s' id ≡ swaps_of s id ++ rows t.current_round (exchanges (hero_ids entry) ids))
        × IsTracked ids opening (swaps_of s' id) t.current_round
  unfolding swap_loaded
  loaded s tournament_id manager_id id t entry ids roles opening s' is_entry known small le full
        tracked h =
      let picked = bind-ok (resolve_picks s t ids) _ s' h in
      let picks = picked.0 in
      let used = swaps_used s id in
      let already = swapped_in_round s id t.current_round in
      let judged =
        bind-ok (or_err panicked (validate_swap (hero_ids entry) picks t entry used already)) _ s'
          picked.2 in
      let booked = bind-ok (book_of s t) _ s' judged.2 in
      let current = current_role_pairs s id entry in
      let changed =
        if is_some booked.0
        then some (changed_roles current (merge_roles (pick_ids picks) current roles))
        else none in
      let later = swap_role_violations (hero_ids entry) (pick_ids picks) current roles booked.0 in
      let clear = refuse-ok (judged.0 ++ later) _ s' booked.2 in
      let accepted =
        or_err-ok panicked (validate_swap (hero_ids entry) picks t entry used already) judged.0
          judged.1
        ∙ ap some (append-nil judged.0 later clear.0) in
      committed s tournament_id manager_id id t entry opening picks changed used already is_entry
        known small le full tracked accepted ids (resolve_picks-ids s t ids picks picked.1) s'
        (ok-inj clear.1)

  swap_roster-loaded :
      (s : Store D) (tournament_id manager_id id : I64) (t : Tournament) (entry : TournamentEntry)
      (ids : List I64) (roles : List Assigned)
      → find_tournament s tournament_id ≡ some t
      → find_entry s tournament_id manager_id ≡ some entry
      → entry.id ≡ some id
      → swap_roster s tournament_id manager_id ids roles ≡ swap_loaded s t entry id ids roles
  unfolding swap_roster
  swap_roster-loaded s tournament_id manager_id id t entry ids roles is_t is_entry known =
      rw (is_t, is_entry, known) refl

  -- For a tournament in a round from one on, and an entry of a manager in it whose roster is of the
  -- tournament's roster size (below the largest `i32`), without repetitions and tracked by its log
  -- of swaps from an opening roster: if `swap_roster` succeeds then the manager's entry holds the
  -- heroes that were asked for, in their order, they are again of the roster size, the entry's log
  -- of swaps has grown by the exchanges of the old roster for them, in the tournament's round, and
  -- they are without repetitions, and tracked from the same opening roster by the entry's new log
  -- of swaps, none of which is later than the tournament's round.
  pub swap_roster-IsTracked :
      (s : Store D) (tournament_id manager_id id : I64) (t : Tournament) (entry : TournamentEntry)
      (ids : List I64) (roles : List Assigned) (opening : List I64) (s' : Store D)
      → find_tournament s tournament_id ≡ some t
      → find_entry s tournament_id manager_id ≡ some entry
      → entry.id ≡ some id
      → t.roster_size <ℤ i32_max
      → pos 1 ≤ℤ t.current_round
      → pos (length (hero_ids entry)) ≡ t.roster_size
      → IsTracked (hero_ids entry) opening (swaps_of s id) t.current_round
      → swap_roster s tournament_id manager_id ids roles ≡ ok s'
      → (entry' : TournamentEntry) × (find_entry s' tournament_id manager_id ≡ some entry')
        × (entry'.id ≡ some id)
        × (hero_ids entry' ≡ ids)
        × (pos (length ids) ≡ t.roster_size)
        × (swaps_of s' id ≡ swaps_of s id ++ rows t.current_round (exchanges (hero_ids entry) ids))
        × IsTracked ids opening (swaps_of s' id) t.current_round
  swap_roster-IsTracked s tournament_id manager_id id t entry ids roles opening s' is_t is_entry
        known small le full tracked h =
      loaded s tournament_id manager_id id t entry ids roles opening s' is_entry known small le full
        tracked
        (sym
            (swap_roster-loaded s tournament_id manager_id id t entry ids roles is_t is_entry known)
          ∙ h)
