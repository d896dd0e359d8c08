-- ===== src/Standings/Held.antt =====
-- `EntryRoster::holdings` against a roster that is carried forward through the swap log.
use um_fantasy_league.Common.{
  ℕ, suc, ◌+◌, pos, I32, I64, int_eq, ◌==◌, leb_ℤ, ◌≤ℤ◌, ◌<ℤ◌, true, false, not, ◌&&◌, Option, none,
  some, List, [], ◌∷◌, ◌++◌, map, keep, length, All, count, if◌then◌else◌, ◌≡◌, refl, arith, ◌∙◌,
  ap, sym, inl, inr, Bool-cases, eqb_ℤ_iff,
}
use um_fantasy_league.Common.SortedLists.{SameCounts}
use um_fantasy_league.Standings.{
  RosterSwap, Holding, EntryRoster, covers, is_before, held_ids, undo, rewind, is_open, opened,
  close_open, replay, holdings,
}

-- What a swap does to a roster, whatever the order of its heroes.
abbrev pub exchange : List I64 → RosterSwap → List I64
exchange roster s = keep (λ id. not (id == s.hero_out_id)) roster ++ s.hero_in_id ∷ []

-- The roster after all swaps.
abbrev pub after : List I64 → List RosterSwap → List I64
after roster [] = roster
after roster (s ∷ ss) = after (exchange roster s) ss

-- The roster that plays in a round: after the swaps of that round and of those before it.
abbrev pub roster_in : I32 → List I64 → List RosterSwap → List I64
roster_in round roster [] = roster
roster_in round roster (s ∷ ss) =
    if leb_ℤ s.round round
    then roster_in round (exchange roster s) ss
    else roster_in round roster ss

-- Every swap takes a hero that is on the roster once, for one that is not on it.
abbrev pub IsLog : List I64 → List RosterSwap → Type 0
IsLog roster [] = Unit
IsLog roster (s ∷ ss) =
    (count s.hero_out_id roster ≡ 1)
    × (count s.hero_in_id roster ≡ 0)
    × IsLog (exchange roster s) ss

-- The rounds of the log ascend, from `low` on.
abbrev pub IsAscending : I32 → List RosterSwap → Type 0
IsAscending low [] = Unit
IsAscending low (s ∷ ss) = (low ≤ℤ s.round) × IsAscending s.round ss

pub count-append : (x : I64) (xs ys : List I64) → count x (xs ++ ys) ≡ count x xs + count x ys
count-append x [] ys = omega arith
count-append x (y ∷ xs) ys = ground (arith, count-append x xs ys)

count-keep_out :
    (x out : I64) (xs : List I64)
    → count x (keep (λ id. not (id == out)) xs) ≡ (if out == x then 0 else count x xs)
count-keep_out x out [] = ground arith
count-keep_out x out (y ∷ ys) =
    ground (arith, count-keep_out x out ys, eqb_ℤ_iff y out, eqb_ℤ_iff y x, eqb_ℤ_iff out x)

pub count-exchange :
    (x : I64) (roster : List I64) (s : RosterSwap)
    → count x (exchange roster s)
      ≡ (if s.hero_out_id == x then 0 else count x roster) + (if s.hero_in_id == x then 1 else 0)
count-exchange x roster s = ground (
  arith,
  count-append x (keep (λ id. not (id == s.hero_out_id)) roster) (s.hero_in_id ∷ []),
  count-keep_out x s.hero_out_id roster,
)

count-undo :
    (x : I64) (ids : List I64) (s : RosterSwap) (k : ℕ)
    → count s.hero_in_id ids ≡ suc k
    → count x (undo ids s) + (if s.hero_in_id == x then 1 else 0)
      ≡ count x ids + (if s.hero_out_id == x then 1 else 0)
unfolding undo
count-undo x [] s k h = cc
count-undo x (id ∷ ids) s k h = ground (
  arith,
  count-undo x ids s k,
  eqb_ℤ_iff id s.hero_in_id,
  eqb_ℤ_iff id x,
  eqb_ℤ_iff s.hero_in_id x,
)

-- For a log that takes an opening roster to the present one, undoing it gives the opening roster back,
-- in some order.
pub rewind_lem :
    (ids roster : List I64) (ss : List RosterSwap)
    → IsLog roster ss
    → SameCounts ids (after roster ss)
    → SameCounts (rewind ids ss) roster
unfolding rewind
rewind_lem ids roster [] log same x = same x
rewind_lem ids roster (s ∷ ss) log same x =
    let back = rewind ids ss in
    let ih = rewind_lem ids (exchange roster s) ss log.2 same in
    ground (
      arith,
      ih x,
      ih s.hero_in_id,
      count-exchange x roster s,
      count-exchange s.hero_in_id roster s,
      count-undo x back s 0,
      log.0,
      log.1,
      eqb_ℤ_iff s.hero_out_id x,
      eqb_ℤ_iff s.hero_in_id x,
      eqb_ℤ_iff s.hero_out_id s.hero_in_id,
      eqb_ℤ_iff s.hero_in_id s.hero_in_id,
    )

-- How many holdings of a hero cover a round, and how many are open.
abbrev pub covering : I64 → I32 → List Holding → ℕ
covering x round hs = length (keep (λ (h : Holding). h.hero_id == x && covers h round) hs)

abbrev open_of : I64 → List Holding → ℕ
open_of x hs = length (keep (λ (h : Holding). h.hero_id == x && is_open h.until_round) hs)

abbrev EndsBy : I32 → Option I32 → Type 0
EndsBy round none = Unit
EndsBy round (some until) = until ≤ℤ round

-- All that the holdings record happened up to the round.
abbrev IsPast : I32 → List Holding → Type 0
IsPast round hs = All (λ (h : Holding). (h.from_round ≤ℤ round) × EndsBy round h.until_round) hs

begun : (round : I32) (o : Option I32) → EndsBy round o → is_before o round ≡ is_open o
begun round none h = refl
begun round (some until) h = ground arith

-- A holding that has begun covers the round exactly if it is open.
covering-open :
    (x : I64) (round : I32) (hs : List Holding)
    → IsPast round hs
    → covering x round hs ≡ open_of x hs
unfolding covers
covering-open x round [] p = refl
covering-open x round (h ∷ hs) p =
    ground (arith, covering-open x round hs p.1, begun round h.until_round p.0.1)

open_of-append :
    (x : I64) (hs ks : List Holding) → open_of x (hs ++ ks) ≡ open_of x hs + open_of x ks
open_of-append x [] ks = omega arith
open_of-append x (h ∷ hs) ks = ground (arith, open_of-append x hs ks)

covering-append :
    (x : I64) (round : I32) (hs ks : List Holding)
    → covering x round (hs ++ ks) ≡ covering x round hs + covering x round ks
covering-append x round [] ks = omega arith
covering-append x round (h ∷ hs) ks = ground (arith, covering-append x round hs ks)

open_of-close_open :
    (x id : I64) (round : I32) (hs : List Holding) (k : ℕ)
    → open_of id hs ≡ suc k
    → open_of x (close_open id round hs) + (if id == x then 1 else 0) ≡ open_of x hs
unfolding close_open
open_of-close_open x id round [] k h = cc
open_of-close_open x id round (h ∷ hs) k e = ground (
  arith,
  open_of-close_open x id round hs k,
  eqb_ℤ_iff h.hero_id id,
  eqb_ℤ_iff h.hero_id x,
  eqb_ℤ_iff id x,
)

close_open-IsPast :
    (id : I64) (at round : I32) (hs : List Holding)
    → at ≤ℤ round
    → IsPast round hs
    → IsPast round (close_open id at hs)
unfolding close_open
close_open-IsPast id at round [] le p = tt
close_open-IsPast id at round (h ∷ hs) le p =
    elim (Bool-cases (h.hero_id == id && is_open h.until_round)) [
      | inl here ↦ rw here ((p.0.0, le), p.1)
      | inr there ↦ rw there (p.0, close_open-IsPast id at round hs le p.1)
    ]

IsPast-append :
    (round : I32) (hs ks : List Holding)
    → IsPast round hs
    → IsPast round ks
    → IsPast round (hs ++ ks)
IsPast-append round [] ks p q = q
IsPast-append round (h ∷ hs) ks p q = (p.0, IsPast-append round hs ks p.1 q)

-- A holding that is closed later still covers the round.
covering-close_open :
    (x id : I64) (at round : I32) (hs : List Holding)
    → round <ℤ at
    → covering x round (close_open id at hs) ≡ covering x round hs
unfolding close_open covers
covering-close_open x id at round [] lt = refl
covering-close_open x id at round (h ∷ hs) lt =
    ground (arith, covering-close_open x id at round hs lt, still h.until_round)
  where
    still : (o : Option I32) → is_open o ≡ true → is_before o round ≡ is_before (some at) round
    still none e = ground arith
    still (some u) e = cc

-- The swaps after a round do not change who played in it.
covering-replay_later :
    (x : I64) (round low : I32) (hs : List Holding) (ss : List RosterSwap)
    → round <ℤ low
    → IsAscending low ss
    → covering x round (replay hs ss) ≡ covering x round hs
unfolding replay
covering-replay_later x round low hs [] lt asc = refl
covering-replay_later x round low hs (s ∷ ss) lt asc =
    let later : round <ℤ s.round = omega (arith, asc.0) in
    let closed = close_open s.hero_out_id s.round hs in
    let fresh : covering x round (opened s.round s.hero_in_id ∷ []) ≡ 0 =
      unfold covers in ground arith in
    covering-replay_later x round s.round (closed ++ opened s.round s.hero_in_id ∷ []) ss later
      asc.1
    ∙ omega (
      arith,
      covering-append x round closed (opened s.round s.hero_in_id ∷ []),
      covering-close_open x s.hero_out_id s.round round hs later,
      fresh,
    )

roster_in-later :
    (round low : I32) (roster : List I64) (ss : List RosterSwap)
    → round <ℤ low
    → IsAscending low ss
    → roster_in round roster ss ≡ roster
roster_in-later round low roster [] lt asc = refl
roster_in-later round low roster (s ∷ ss) lt asc =
    let later : leb_ℤ s.round round ≡ false = ground arith in
    let next : round <ℤ s.round = omega (arith, asc.0) in
    rw later (roster_in-later round s.round roster ss next asc.1)

-- While the holdings are in the past, those that are open are the roster; the swaps keep it so.
covering-replay :
    (x : I64) (round low : I32) (hs : List Holding) (roster : List I64) (ss : List RosterSwap)
    → IsPast round hs
    → ((y : I64) → open_of y hs ≡ count y roster)
    → IsLog roster ss
    → IsAscending low ss
    → covering x round (replay hs ss) ≡ count x (roster_in round roster ss)
unfolding replay
covering-replay x round low hs roster [] past same log asc = covering-open x round hs past ∙ same x
covering-replay x round low hs roster (s ∷ ss) past same log asc =
    elim (Bool-cases (leb_ℤ s.round round)) [
      | inl now ↦
          let le : s.round ≤ℤ round = ground arith in
          let closed = close_open s.hero_out_id s.round hs in
          let fresh = opened s.round s.hero_in_id ∷ [] in
          rw now (
            covering-replay x round s.round (closed ++ fresh) (exchange roster s) ss
              (IsPast-append round closed fresh
                (close_open-IsPast s.hero_out_id s.round round hs le past) ((le, tt), tt))
              (λ y. ground (
                arith,
                open_of-append y closed fresh,
                open_of-close_open y s.hero_out_id s.round hs 0,
                count-exchange y roster s,
                same y,
                same s.hero_out_id,
                log.0,
                eqb_ℤ_iff s.hero_out_id y,
              ))
              log.2 asc.1)
      | inr not_yet ↦
          let later : round <ℤ s.round = ground arith in
          rw not_yet (
            covering-replay_later x round s.round hs (s ∷ ss) later (omega arith, asc.1)
            ∙ covering-open x round hs past
            ∙ same x
            ∙ sym (ap (count x) (roster_in-later round s.round roster ss later asc.1)))
    ]

open_of-opened : (x : I64) (ids : List I64) → open_of x (map (opened (pos 1)) ids) ≡ count x ids
open_of-opened x [] = refl
open_of-opened x (id ∷ ids) = ground (arith, open_of-opened x ids)

opened-IsPast :
    (round : I32) (ids : List I64) → pos 1 ≤ℤ round → IsPast round (map (opened (pos 1)) ids)
opened-IsPast round [] h = tt
opened-IsPast round (id ∷ ids) h = ((h, tt), opened-IsPast round ids h)

-- For an entry whose log of swaps ascends from round one and takes an opening roster to the heroes that
-- the entry has now, in some order: in every round from one on, as many of the holdings cover a hero as
-- the hero occurs on the roster that played in it, which is the opening roster after the swaps of that
-- round and of those before it.
pub holdings_lem :
    (e : EntryRoster) (opening : List I64)
    → IsLog opening e.swaps
    → IsAscending (pos 1) e.swaps
    → SameCounts (held_ids e) (after opening e.swaps)
    → (x : I64) (round : I32) → pos 1 ≤ℤ round
    → covering x round (holdings e) ≡ count x (roster_in round opening e.swaps)
unfolding holdings
holdings_lem e opening log asc same x round h =
    let back = rewind (held_ids e) e.swaps in
    covering-replay x round (pos 1) (map (opened (pos 1)) back) opening e.swaps
      (opened-IsPast round back h)
      (λ y. open_of-opened y back ∙ rewind_lem (held_ids e) opening e.swaps log same y) log asc
