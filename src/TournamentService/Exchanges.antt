-- ===== src/TournamentService/Exchanges.antt =====
-- The exchanges that a swap pairs up, as a log of the roster.
use um_fantasy_league.Common.{
  ◌+◌, ◌≤◌, I32, I64, int_eq, ◌≤ℤ◌, List, [], ◌∷◌, ◌++◌, map, All, length, count, contains,
  Distinct, if◌then◌else◌, ◌≡◌, refl, arith, eqb_ℤ_iff,
}
use um_fantasy_league.Common.SortedLists.{SameCounts}
use um_fantasy_league.Common.Overlap.{count-Distinct, missing_comm}
use um_fantasy_league.Standings.{RosterSwap}
use um_fantasy_league.Standings.Held.{IsLog, IsAscending, after, exchange, count-exchange}
use um_fantasy_league.TournamentService.{swap_at, zip, without, exchanges}

abbrev pub rows : I32 → List (I64 × I64) → List RosterSwap
rows round pairs = map (swap_at round) pairs

-- Heroes that are on the roster leave it for as many that are not.
zip-IsLog :
    (round : I32) (roster outs ins : List I64)
    → length outs ≡ length ins
    → ((x : I64) → count x outs ≤ count x roster)
    → ((x : I64) → count x roster + count x ins ≤ 1)
    → IsLog roster (rows round (zip outs ins))
      × ((x : I64)
          → count x (after roster (rows round (zip outs ins))) + count x outs
            ≡ count x roster + count x ins)
zip-IsLog round roster [] [] h on off = (tt, λ x. refl)
zip-IsLog round roster [] (i ∷ is) h on off = absurd (omega (arith, h))
zip-IsLog round roster (o ∷ os) [] h on off = absurd (omega (arith, h))
zip-IsLog round roster (o ∷ os) (i ∷ is) h on off =
    let s = swap_at round (o, i) in
    let rest =
      zip-IsLog round (exchange roster s) os is (omega (arith, h))
        (λ x. ground (arith, count-exchange x roster s, on x, off x, eqb_ℤ_iff o x, eqb_ℤ_iff i x))
        (λ x.
          ground (arith, count-exchange x roster s, on x, off x, eqb_ℤ_iff o x, eqb_ℤ_iff i x)) in
    (
      (
        ground (arith, on o, off o, eqb_ℤ_iff o o),
        ground (arith, on i, off i, eqb_ℤ_iff i i),
        rest.0,
      ),
      λ x.
          ground
            (arith, rest.1 x, count-exchange x roster s, on x, off x, eqb_ℤ_iff o x, eqb_ℤ_iff i x),
    )

count-without :
    (x : I64) (others xs : List I64)
    → count x (without others xs) ≡ (if contains others x then 0 else count x xs)
count-without x others [] = ground arith
count-without x others (y ∷ ys) = ground (arith, count-without x others ys, eqb_ℤ_iff y x)

pub exchanges-IsLog :
    (round : I32) (roster held proposed : List I64)
    → SameCounts held roster
    → Distinct held
    → Distinct proposed
    → length held ≡ length proposed
    → IsLog roster (rows round (exchanges held proposed))
      × SameCounts proposed (after roster (rows round (exchanges held proposed)))
unfolding exchanges
exchanges-IsLog round roster held proposed same d f h =
    let pairs =
      zip-IsLog round roster (without proposed held) (without held proposed)
        (missing_comm held proposed d f h)
        (λ x. ground (arith, count-without x proposed held, same x))
        (λ x. ground (
          arith,
          count-without x held proposed,
          same x,
          count-Distinct x held d,
          count-Distinct x proposed f,
        )) in
    (
      pairs.0,
      λ x. ground (
        arith,
        pairs.1 x,
        count-without x held proposed,
        count-without x proposed held,
        same x,
        count-Distinct x held d,
        count-Distinct x proposed f,
      ),
    )

pub IsLog-append :
    (roster : List I64) (ss ts : List RosterSwap)
    → IsLog roster ss
    → IsLog (after roster ss) ts
    → IsLog roster (ss ++ ts)
IsLog-append roster [] ts p q = q
IsLog-append roster (s ∷ ss) ts p q = (p.0, p.1, IsLog-append (exchange roster s) ss ts p.2 q)

pub after-append :
    (roster : List I64) (ss ts : List RosterSwap)
    → after roster (ss ++ ts) ≡ after (after roster ss) ts
after-append roster [] ts = refl
after-append roster (s ∷ ss) ts = after-append (exchange roster s) ss ts

pub IsAscending-append :
    (low round : I32) (ss : List RosterSwap) (pairs : List (I64 × I64))
    → low ≤ℤ round
    → IsAscending low ss
    → All (λ (w : RosterSwap). w.round ≤ℤ round) ss
    → IsAscending low (ss ++ rows round pairs)
IsAscending-append low round [] pairs le asc past = from pairs low le
  where
    from :
        (pairs : List (I64 × I64)) (low : I32) → low ≤ℤ round → IsAscending low (rows round pairs)
    from [] low h = tt
    from (p ∷ ps) low h = (h, from ps round (omega arith))
IsAscending-append low round (s ∷ ss) pairs le asc past =
    (asc.0, IsAscending-append s.round round ss pairs past.0 asc.1 past.1)

pub past-append :
    (round : I32) (ss : List RosterSwap) (pairs : List (I64 × I64))
    → All (λ (w : RosterSwap). w.round ≤ℤ round) ss
    → All (λ (w : RosterSwap). w.round ≤ℤ round) (ss ++ rows round pairs)
past-append round [] [] past = tt
past-append round [] (p ∷ ps) past = (omega arith, past-append round [] ps tt)
past-append round (s ∷ ss) pairs past = (past.0, past-append round ss pairs past.1)
