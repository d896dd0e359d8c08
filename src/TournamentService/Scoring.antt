-- ===== src/TournamentService/Scoring.antt =====
-- What a swap means for the leaderboard: which rounds it scores in.
use um_fantasy_league.Common.{
  ◌<ℤ◌, ◌≤ℤ◌, leb_ℤ, pos, i32_max, I32, I64, int_eq, true, false, List, [], ◌∷◌, ◌++◌, All, some,
  length, count, ◌≡◌, refl, arith, ◌∙◌, ap, sym, ltb_ℤ, All-map, Bool-cases, inl, inr,
  if◌then◌else◌,
}
use um_fantasy_league.Tournament.{Tournament, TournamentEntry, hero_ids}
use um_fantasy_league.RosterRoles.{Assigned}
use um_fantasy_league.Standings.{RosterSwap, EntryRoster, holdings, held_ids}
use um_fantasy_league.Standings.Held.{after, roster_in, exchange, covering, holdings_lem}
use um_fantasy_league.TournamentService.{
  ok, Store, find_tournament, find_entry, swaps_of, exchanges, swap_roster,
}
use um_fantasy_league.TournamentService.Exchanges.{rows}
use um_fantasy_league.TournamentService.SwapLog.{IsTracked, swap_roster-IsTracked}

-- In a round that no swap is after, the roster is the present one.
roster_in-present :
    (round : I32) (roster : List I64) (ss : List RosterSwap)
    → All (λ (w : RosterSwap). w.round ≤ℤ round) ss
    → roster_in round roster ss ≡ after roster ss
roster_in-present round roster [] past = refl
roster_in-present round roster (s ∷ ss) past =
    let made : leb_ℤ s.round round ≡ true = ground (arith, past.0) in
    rw made (roster_in-present round (exchange roster s) ss past.1)

-- Swaps of a later round do not change the roster of a round.
roster_in-append :
    (round later : I32) (roster : List I64) (ss : List RosterSwap) (pairs : List (I64 × I64))
    → round <ℤ later
    → roster_in round roster (ss ++ rows later pairs) ≡ roster_in round roster ss
roster_in-append round later roster [] [] lt = refl
roster_in-append round later roster [] (p ∷ ps) lt =
    let not_yet : leb_ℤ later round ≡ false = ground arith in
    rw not_yet (roster_in-append round later roster [] ps lt)
roster_in-append round later roster (s ∷ ss) pairs lt = ground (
  arith,
  roster_in-append round later (exchange roster s) ss pairs lt,
  roster_in-append round later roster ss pairs lt,
)

-- An entry as the leaderboard loads it: its heroes and its log of swaps.
pub record IsLoaded (e : EntryRoster) (held : List I64) (ss : List RosterSwap) : Type 0 where
  pub heroes : held_ids e ≡ held
  pub log : e.swaps ≡ ss

tracked-covering :
    (e : EntryRoster) (held opening : List I64) (ss : List RosterSwap) (current : I32)
    → IsLoaded e held ss
    → IsTracked held opening ss current
    → (x : I64) (round : I32) → pos 1 ≤ℤ round
    → covering x round (holdings e) ≡ count x (roster_in round opening ss)
tracked-covering e held opening ss current l k x round h =
    holdings_lem e opening (rw l.log k.log) (rw l.log k.ascends)
      (λ y. rw (l.heroes, l.log) (k.same y)) x round h
    ∙ ap (λ ws. count x (roster_in round opening ws)) l.log

module _ {D : Type 0} where
  -- For a tournament in a round from one on and a swap that `swap_roster` accepts, of an entry
  -- whose roster is of the tournament's roster size (below the largest `i32`), without repetitions
  -- and tracked by its log of swaps from an opening roster, and the entry as the leaderboard loads
  -- it before and after: in every round from one on, as many of the entry's holdings after the swap
  -- cover each hero as before the swap if the round is before the tournament's; and from the
  -- tournament's round on, as many cover each hero as the roster that was asked for has it.
  pub swap_roster-holdings :
      (s : Store D) (tournament_id manager_id id : I64) (t : Tournament) (entry : TournamentEntry)
      (ids : List I64) (roles : List Assigned) (opening : List I64) (s' : Store D)
      (old new : EntryRoster)
      → find_tournament s tournament_id ≡ some t
      → find_entry s tournament_id manager_id ≡ some entry
      → entry.id ≡ some id
      → t.roster_size <ℤ i32_max
      → pos 1 ≤ℤ t.current_round
      → pos (length (hero_ids entry)) ≡ t.roster_size
      → IsTracked (hero_ids entry) opening (swaps_of s id) t.current_round
      → swap_roster s tournament_id manager_id ids roles ≡ ok s'
      → IsLoaded old (hero_ids entry) (swaps_of s id)
      → IsLoaded new ids (swaps_of s' id)
      → (x : I64) (round : I32) → pos 1 ≤ℤ round
      → covering x round (holdings new)
        ≡ (if ltb_ℤ round t.current_round then covering x round (holdings old) else count x ids)
  swap_roster-holdings s tournament_id manager_id id t entry ids roles opening s' old new is_t
        is_entry known small le full tracked h was is x round begun =
      let current = t.current_round in
      let r =
        swap_roster-IsTracked s tournament_id manager_id id t entry ids roles opening s' is_t
          is_entry known small le full tracked h in
      let log = swaps_of s' id in
      let kept : IsTracked ids opening log current = r.6 in
      let now = tracked-covering new ids opening log current is kept x round begun in
      elim (Bool-cases (ltb_ℤ round current)) [
        | inl before ↦ rw before (
            now
            ∙ ap (λ ws. count x (roster_in round opening ws)) r.5
            ∙ ap (count x) (
                roster_in-append round current opening (swaps_of s id)
                  (exchanges (hero_ids entry) ids) (ground (arith, before)))
            ∙ sym (
                tracked-covering old (hero_ids entry) opening (swaps_of s id) current was tracked x
                  round begun))
        | inr later ↦ rw later (
            now
            ∙ ap (count x) (
                roster_in-present round opening log
                  (All-map (λ (w : RosterSwap) le. ground (arith, le, later)) log kept.past))
            ∙ sym (kept.same x))
      ]
