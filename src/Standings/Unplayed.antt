-- ===== src/Standings/Unplayed.antt =====
-- Which heroes the ticker lists as drafted without a game.
use um_fantasy_league.Common.{
  I64, int_eq, ◌==◌, not, ◌&&◌, ◌||◌, List, [], ◌∷◌, ◌++◌, map, gather, contains, Distinct, ◌≡◌,
  refl, arith, eqb_ℤ_iff, ◌∙◌, ap,
}
use um_fantasy_league.MatchResult.{
  MatchResult, DraftedHeroResult, MatchParticipantResult, all_drafted,
}
use um_fantasy_league.Standings.Ticker.{unplayed, drafted_unplayed, played_ids}

abbrev pub drafted_ids : List DraftedHeroResult → List I64
drafted_ids hs = map (λ (h : DraftedHeroResult). h.hero_id) hs

contains-snoc : (xs : List I64) (x y : I64) → contains (xs ++ x ∷ []) y ≡ (contains xs y || x == y)
contains-snoc [] x y = ground arith
contains-snoc (z ∷ xs) x y = ground (arith, contains-snoc xs x y)

contains-unplayed :
    (played_here seen : List I64) (hs : List DraftedHeroResult) (x : I64)
    → contains (drafted_ids (unplayed played_here seen hs)) x
      ≡ (contains (drafted_ids hs) x && (not (contains played_here x) && not (contains seen x)))
unfolding unplayed
contains-unplayed played_here seen [] x = refl
contains-unplayed played_here seen (h ∷ hs) x = ground (
  arith,
  contains-unplayed played_here (seen ++ h.hero_id ∷ []) hs x,
  contains-unplayed played_here seen hs x,
  contains-snoc seen h.hero_id x,
  eqb_ℤ_iff h.hero_id x,
)

unplayed-Distinct :
    (played_here seen : List I64) (hs : List DraftedHeroResult)
    → Distinct (drafted_ids (unplayed played_here seen hs))
unfolding unplayed
unplayed-Distinct played_here seen [] = tt
unplayed-Distinct played_here seen (h ∷ hs) = ground (
  arith,
  unplayed-Distinct played_here (seen ++ h.hero_id ∷ []) hs,
  unplayed-Distinct played_here seen hs,
  contains-unplayed played_here (seen ++ h.hero_id ∷ []) hs h.hero_id,
  contains-snoc seen h.hero_id h.hero_id,
  eqb_ℤ_iff h.hero_id h.hero_id,
)

map-append :
    (hs ks : List DraftedHeroResult) → drafted_ids (hs ++ ks) ≡ drafted_ids hs ++ drafted_ids ks
map-append [] ks = refl
map-append (h ∷ hs) ks = ap (◌∷◌ h.hero_id) (map-append hs ks)

drafted_ids-gather :
    (ps : List MatchParticipantResult)
    → drafted_ids (gather (λ (p : MatchParticipantResult). p.drafted_heroes) ps) ≡ all_drafted ps
drafted_ids-gather [] = refl
drafted_ids-gather (p ∷ ps) =
    map-append p.drafted_heroes (gather (λ (q : MatchParticipantResult). q.drafted_heroes) ps)
    ∙ ap (◌++◌ (drafted_ids p.drafted_heroes)) (drafted_ids-gather ps)

-- The ticker lists a hero as drafted without a game exactly if a side drafted it and no row of a game
-- names it, and lists no hero twice.
pub drafted_unplayed_lem :
    (m : MatchResult)
    → Distinct (drafted_ids (drafted_unplayed m))
      × ((h : I64)
          → contains (drafted_ids (drafted_unplayed m)) h
            ≡ (contains (all_drafted m.participants) h && not (contains (played_ids m) h)))
unfolding drafted_unplayed
drafted_unplayed_lem m =
    let hs = gather (λ (p : MatchParticipantResult). p.drafted_heroes) m.participants in
    (
      unplayed-Distinct (played_ids m) [] hs,
      λ h. ground (
        arith,
        contains-unplayed (played_ids m) [] hs h,
        ap (λ ids. contains ids h) (drafted_ids-gather m.participants),
      ),
    )
