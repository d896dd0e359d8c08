-- ===== src/HeroStats/Laws.antt =====
-- A hero's points in the hero tables against those of an entry that holds the hero all along.
use um_fantasy_league.Common.{
  pos, I32, I64, int_eq, nat_eq, list_eq, ◌==◌, ◌≤ℤ◌, Bool, true, none, some, List, [], ◌∷◌, ◌++◌,
  map, keep, All, contains, if◌then◌else◌, ◌≡◌, ◌⊎◌, refl, ap, sym, ◌∙◌, arith, Bool-cases, inl,
  inr, eqb_ℤ_iff,
}
use um_fantasy_league.Common.Text.{Text}
use um_fantasy_league.Common.IndexMap
use um_fantasy_league.Common.IndexMap.{IndexMap, values, get-insert, get-modify_at, get-modify_ne}
use um_fantasy_league.Unicode.{Unicode}
use um_fantasy_league.Numbers.{Numbers, zero_f, round2, sum_f}
use um_fantasy_league.MatchResult.{MatchResult, MetricContext, hero_contexts}
use um_fantasy_league.ScoringEngine.{ScoringRules, breakdown}
use um_fantasy_league.Standings.{EntryRoster, opened, covers, held_ids, holdings, rewind, replay}
use um_fantasy_league.Standings.Board.{
  ScoredAppearance, Totals, appearance_of, earn_all, earn, bonus_of, score_holding, score_holdings,
  zeros, with_bonus_column, rounded, standings_row, appearances_by_hero, or_nothing,
}
use um_fantasy_league.Standings.Totals.{appearances, get-appearances_by_hero}
use um_fantasy_league.HeroStats.{
  PoolHero, HeroTally, start_tallies, credit, tally_contexts, tally_matches, overall_points,
}

module _ (n : Numbers) (u : Unicode) where
  open n use {F, D}

  abbrev credit_each : IndexMap Text F → List (ScoredAppearance F) → IndexMap Text F
  credit_each totals [] = totals
  credit_each totals (a ∷ as') = credit_each (credit n u totals a.breakdown) as'

  credit_each-append :
      (totals : IndexMap Text F) (as' bs : List (ScoredAppearance F))
      → credit_each totals (as' ++ bs) ≡ credit_each (credit_each totals as') bs
  credit_each-append totals [] bs = refl
  credit_each-append totals (a ∷ as') bs = credit_each-append (credit n u totals a.breakdown) as' bs

  earn_all-credit :
      (is_current : Bool) (t : Totals F) (ps : IndexMap Text F)
      → (earn_all n u is_current t ps).totals ≡ credit n u t.totals ps
  unfolding earn_all credit earn
  earn_all-credit is_current t [] = refl
  earn_all-credit is_current t ((metric, points) ∷ ps) =
      earn_all-credit is_current (earn n u is_current t metric points) ps

  -- Without roles, a hero held from round one earns every appearance's breakdown.
  score_holding-credit :
      (current : I32) (entry : EntryRoster) (hero : I64) (t : Totals F)
      (as' : List (ScoredAppearance F))
      → All (λ (a : ScoredAppearance F). pos 1 ≤ℤ a.round) as'
      → (score_holding n u current none entry (opened (pos 1) hero) t as').totals
        ≡ credit_each t.totals as'
  unfolding score_holding bonus_of
  score_holding-credit current entry hero t [] h = refl
  score_holding-credit current entry hero t (a ∷ as') h =
      let is_current = a.round == current in
      let scored = earn_all n u is_current t a.breakdown in
      let held : covers (opened (pos 1) hero) a.round ≡ true = unfold covers in ground arith in
      let next = λ (b : Bool).
        (score_holding n u current none entry (opened (pos 1) hero) (if b then scored else t)
          as').totals in
      ap next held
      ∙ score_holding-credit current entry hero scored as' h.1
      ∙ ap (λ totals. credit_each totals as') (earn_all-credit is_current t a.breakdown)

  abbrev scored_of :
      ScoringRules D → MatchResult → I64 → List MetricContext → List (ScoredAppearance F)
  scored_of rules m hero cs =
      map (appearance_of n u rules m) (keep (λ (c : MetricContext). c.hero_id == hero) cs)

  abbrev Tallies : Type 0
  Tallies = IndexMap I64 (HeroTally F)

  get-tally_contexts :
      (rules : ScoringRules D) (m : MatchResult) (hero : I64) (tallies : Tallies)
      (cs : List MetricContext) (t : HeroTally F)
      → IndexMap.get tallies hero ≡ some t
      → IndexMap.get (tally_contexts n u rules tallies cs) hero
        ≡ some (record t { breakdown = credit_each t.breakdown (scored_of rules m hero cs) })
  unfolding tally_contexts
  get-tally_contexts rules m hero tallies [] t h = h
  get-tally_contexts rules m hero tallies (c ∷ cs) t h =
      let earned = breakdown n u c rules in
      let add = λ (t : HeroTally F). record t { breakdown = credit n u t.breakdown earned } in
      elim (Bool-cases (c.hero_id == hero)) [
        | inl same ↦
            let e : c.hero_id ≡ hero = (eqb_ℤ_iff c.hero_id hero).0 same in
            rw same (
              get-tally_contexts rules m hero (IndexMap.modify tallies c.hero_id add) cs (add t)
                (get-modify_at tallies c.hero_id hero add t e h))
        | inr differ ↦ rw differ (
            get-tally_contexts rules m hero (IndexMap.modify tallies c.hero_id add) cs t
              (get-modify_ne tallies c.hero_id hero add differ ∙ h))
      ]

  get-tally_matches :
      (rules : ScoringRules D) (hero : I64) (tallies : Tallies) (ms : List MatchResult)
      (t : HeroTally F)
      → IndexMap.get tallies hero ≡ some t
      → IndexMap.get (tally_matches n u rules tallies ms) hero
        ≡ some (record t { breakdown = credit_each t.breakdown (appearances n u rules hero ms) })
  unfolding tally_matches
  get-tally_matches rules hero tallies [] t h = h
  get-tally_matches rules hero tallies (m ∷ ms) t h =
      let here = scored_of rules m hero (hero_contexts m) in
      let next = get-tally_contexts rules m hero tallies (hero_contexts m) t h in
      get-tally_matches rules hero (tally_contexts n u rules tallies (hero_contexts m)) ms
        (record t { breakdown = credit_each t.breakdown here }) next
      ∙ ap (λ totals. some (record t { breakdown = totals }))
          (sym (credit_each-append t.breakdown here (appearances n u rules hero ms)))

  abbrev InRounds : List (ScoredAppearance F) → Type 0
  InRounds as' = All (λ (a : ScoredAppearance F). pos 1 ≤ℤ a.round) as'

  InRounds-scored_of :
      (rules : ScoringRules D) (m : MatchResult) (hero : I64) (cs : List MetricContext)
      (rest : List (ScoredAppearance F))
      → pos 1 ≤ℤ m.round
      → InRounds rest
      → InRounds (scored_of rules m hero cs ++ rest)
  InRounds-scored_of rules m hero [] rest h k = k
  InRounds-scored_of rules m hero (c ∷ cs) rest h k =
      let ih = InRounds-scored_of rules m hero cs rest h k in
      elim (Bool-cases (c.hero_id == hero)) [
        | inl same ↦ rw same (h, ih)
        | inr differ ↦ rw differ ih
      ]

  InRounds-appearances :
      (rules : ScoringRules D) (hero : I64) (ms : List MatchResult)
      → All (λ (m : MatchResult). pos 1 ≤ℤ m.round) ms
      → InRounds (appearances n u rules hero ms)
  InRounds-appearances rules hero [] h = tt
  InRounds-appearances rules hero (m ∷ ms) h =
      InRounds-scored_of rules m hero (hero_contexts m) (appearances n u rules hero ms) h.0
        (InRounds-appearances rules hero ms h.1)

  -- An entry that never swapped held its one hero from round one on.
  holdings-one :
      (entry : EntryRoster) (hero : I64)
      → held_ids entry ≡ hero ∷ []
      → entry.swaps ≡ []
      → holdings entry ≡ opened (pos 1) hero ∷ []
  unfolding holdings rewind replay
  holdings-one entry hero held calm =
      ap (λ ss. replay (map (opened (pos 1)) (rewind (held_ids entry) ss)) ss) calm
      ∙ ap (map (opened (pos 1))) held

  score_holdings-one :
      (current : I32) (rules : ScoringRules D) (entry : EntryRoster) (ms : List MatchResult)
      (hero : I64) (t : Totals F)
      → All (λ (m : MatchResult). pos 1 ≤ℤ m.round) ms
      → (score_holdings n u current none entry
          (appearances_by_hero n u rules [] ms)
          t
          (opened (pos 1) hero ∷ [])).totals
        ≡ credit_each t.totals (appearances n u rules hero ms)
  unfolding score_holdings
  score_holdings-one current rules entry ms hero t played =
      let found : or_nothing (IndexMap.get (appearances_by_hero n u rules [] ms) hero)
          ≡ appearances n u rules hero ms =
        unfold IndexMap.get in get-appearances_by_hero n u rules hero [] ms in
      ap (λ as'. (score_holding n u current none entry (opened (pos 1) hero) t as').totals) found
      ∙ score_holding-credit current entry hero t (appearances n u rules hero ms)
          (InRounds-appearances rules hero ms played)

  abbrev fresh_tally : ScoringRules D → PoolHero → HeroTally F
  fresh_tally rules h = record { hero = h; breakdown = zeros n u [] rules.scored_metrics }

  -- A hero of the pool starts with nothing earned.
  get-start_tallies :
      (rules : ScoringRules D) (hero : I64) (tallies : Tallies) (pool : List PoolHero)
      → (contains (map (λ (p : PoolHero). p.hero_id) pool) hero ≡ true)
        ⊎ ((p : PoolHero) × (IndexMap.get tallies hero ≡ some (fresh_tally rules p)))
      → (p : PoolHero) × (IndexMap.get (start_tallies n u rules tallies pool) hero
          ≡ some (fresh_tally rules p))
  unfolding start_tallies
  get-start_tallies rules hero tallies [] (inl h) = cc
  get-start_tallies rules hero tallies [] (inr found) = found
  get-start_tallies rules hero tallies (q ∷ pool) h =
      let next = IndexMap.insert tallies q.hero_id (fresh_tally rules q) in
      let got = get-insert tallies q.hero_id hero (fresh_tally rules q) in
      get-start_tallies rules hero next pool (elim (Bool-cases (q.hero_id == hero)) [
        | inl here ↦ inr (q, got ∙ rw here)
        | inr there ↦ elim h [
          | inl later ↦ inl (rw there at later)
          | inr found ↦ inr (found.0, got ∙ rw there found.1)
        ]
      ])

  -- Every hero of the pool has a tally, and without roles an entry that never swapped and holds only this
  -- hero has the tally's rounded columns and the tally's total, where every match was played in round one
  -- or later.
  pub hero_tally_lem :
      (rules : ScoringRules D) (pool : List PoolHero) (entry : EntryRoster) (ms : List MatchResult)
      (hero current : I64)
      → contains (map (λ (p : PoolHero). p.hero_id) pool) hero ≡ true
      → held_ids entry ≡ hero ∷ []
      → entry.swaps ≡ []
      → All (λ (m : MatchResult). pos 1 ≤ℤ m.round) ms
      → let row =
          standings_row n u current rules none (appearances_by_hero n u rules [] ms) entry in
        (t : HeroTally F) × (IndexMap.get
            (tally_matches n u rules (start_tallies n u rules [] pool) ms)
            hero
          ≡ some t)
        × (row.breakdown ≡ rounded n u t.breakdown)
        × (row.total_points ≡ overall_points n u (record t { breakdown = rounded n u t.breakdown }))
  unfolding standings_row overall_points with_bonus_column
  hero_tally_lem rules pool entry ms hero current in_pool held calm played =
      let as' = appearances n u rules hero ms in
      let start = get-start_tallies rules hero [] pool (inl in_pool) in
      let tally : HeroTally F = record {
        hero = start.0;
        breakdown = credit_each (zeros n u [] rules.scored_metrics) as';
      } in
      let begin : Totals F = record {
        totals = zeros n u [] rules.scored_metrics;
        round_points = zero_f n;
      } in
      let by_hero = appearances_by_hero n u rules [] ms in
      let columns =
        ap (λ hs. rounded n u (score_holdings n u current none entry by_hero begin hs).totals)
          (holdings-one entry hero held calm)
        ∙ ap (rounded n u) (score_holdings-one current rules entry ms hero begin played) in
      (
        tally,
        get-tally_matches rules hero (start_tallies n u rules [] pool) ms
            (fresh_tally rules start.0) start.1,
        columns,
        ap (λ totals. round2 n (sum_f n (values totals))) columns,
      )
