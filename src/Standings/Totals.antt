-- ===== src/Standings/Totals.antt =====
-- The numbers of a leaderboard row, as one sum over the rounds in which the heroes were held.
use um_fantasy_league.Common.{
  I32, I64, int_eq, nat_eq, list_eq, ◌==◌, Bool, Option, none, some, List, [], ◌∷◌, ◌++◌, map, keep,
  gather, ◌≡◌, refl, ap, sym, ◌∙◌, Bool-cases, inl, inr, eqb_ℤ_iff,
}
use um_fantasy_league.Common.Text.{Text}
use um_fantasy_league.Common.IndexMap
use um_fantasy_league.Common.IndexMap.{IndexMap, get-upsert_ne, get-upsert_self}
use mathlib.Core.List.{append-nil, append_assoc}
use um_fantasy_league.Unicode.{Unicode}
use um_fantasy_league.Numbers.{Numbers}
use um_fantasy_league.MatchResult.{MatchResult, MetricContext, hero_contexts}
use um_fantasy_league.ScoringEngine.{ScoringRules}
use um_fantasy_league.RosterRoles.{RoleBook, role_bonus_metric}
use um_fantasy_league.Standings.{Holding, EntryRoster, covers, holdings}
use um_fantasy_league.Standings.Board.{
  ScoredAppearance, Totals, earn, earn_bonus, bonus_of, appearance_of, push_appearances,
  appearances_by_hero, earn_all, score_holding, score_holdings, or_nothing,
}

-- Points that an entry earns: in which round, by which metric, how many.
pub record Earning (F : Type 0) : Type 0 where
  pub round : I32
  pub metric : Text
  pub points : F

abbrev pub points_of : {F : Type 0} → (Earning F → Bool) → List (Earning F) → List F
points_of p es = map (λ e. e.points) (keep p es)

module _ (n : Numbers) (u : Unicode) where
  open n use {F, D}

  -- A hero's appearances, match by match.
  abbrev pub appearances : ScoringRules D → I64 → List MatchResult → List (ScoredAppearance F)
  appearances rules hero = gather λ m.
      map (appearance_of n u rules m)
        (keep (λ (c : MetricContext). c.hero_id == hero) (hero_contexts m))

  get-pushed :
      (by_hero : IndexMap I64 (List (ScoredAppearance F))) (id hero : I64) (a : ScoredAppearance F)
      → id ≡ hero
      → or_nothing (IndexMap.get (IndexMap.upsert by_hero id [] (λ as'. as' ++ a ∷ [])) hero)
        ≡ or_nothing (IndexMap.get by_hero hero) ++ a ∷ []
  get-pushed by_hero id hero a e =
      let push = λ (as' : List (ScoredAppearance F)). as' ++ a ∷ [] in
      rw (← e)
        (ap or_nothing (get-upsert_self by_hero id [] push) ∙ started (IndexMap.get by_hero id))
    where
      started :
          (o : Option (List (ScoredAppearance F)))
          → or_nothing (some (elim o [ none ↦ [] ++ a ∷ [] | some w ↦ w ++ a ∷ [] ]))
            ≡ or_nothing o ++ a ∷ []
      started none = refl
      started (some w) = refl

  get-push_appearances :
      (rules : ScoringRules D) (m : MatchResult) (hero : I64)
      (by_hero : IndexMap I64 (List (ScoredAppearance F))) (cs : List MetricContext)
      → or_nothing (IndexMap.get (push_appearances n u rules m by_hero cs) hero)
        ≡ or_nothing (IndexMap.get by_hero hero)
          ++ map (appearance_of n u rules m) (keep (λ (c : MetricContext). c.hero_id == hero) cs)
  unfolding push_appearances
  get-push_appearances rules m hero by_hero [] = sym (append-nil _)
  get-push_appearances rules m hero by_hero (c ∷ cs) =
      let here = appearance_of n u rules m c in
      let push = λ (as' : List (ScoredAppearance F)). as' ++ here ∷ [] in
      let next = IndexMap.upsert by_hero c.hero_id [] push in
      let ih = get-push_appearances rules m hero next cs in
      elim (Bool-cases (c.hero_id == hero)) [
        | inl same ↦
            let e : c.hero_id ≡ hero = (eqb_ℤ_iff c.hero_id hero).0 same in
            rw same (
              ih
              ∙ ap
                  (λ as'.
                    as'
                    ++ map (appearance_of n u rules m)
                        (keep (λ (c : MetricContext). c.hero_id == hero) cs))
                  (get-pushed by_hero c.hero_id hero here e)
              ∙ append_assoc _ (here ∷ []) _)
        | inr differ ↦ rw differ (
            ih
            ∙ ap
                (λ o.
                  or_nothing o
                  ++ map (appearance_of n u rules m)
                      (keep (λ (c : MetricContext). c.hero_id == hero) cs))
                (get-upsert_ne by_hero c.hero_id hero [] push differ))
      ]

  -- The index holds every hero's appearances, in the order of the matches.
  pub get-appearances_by_hero :
      (rules : ScoringRules D) (hero : I64) (by_hero : IndexMap I64 (List (ScoredAppearance F)))
      (ms : List MatchResult)
      → or_nothing (IndexMap.get (appearances_by_hero n u rules by_hero ms) hero)
        ≡ or_nothing (IndexMap.get by_hero hero) ++ appearances rules hero ms
  unfolding appearances_by_hero
  get-appearances_by_hero rules hero by_hero [] = sym (append-nil _)
  get-appearances_by_hero rules hero by_hero (m ∷ ms) =
      let next = push_appearances n u rules m by_hero (hero_contexts m) in
      get-appearances_by_hero rules hero next ms
      ∙ ap (λ as'. as' ++ appearances rules hero ms)
          (get-push_appearances rules m hero by_hero (hero_contexts m))
      ∙ append_assoc (or_nothing (IndexMap.get by_hero hero)) _ (appearances rules hero ms)

  abbrev pub by_breakdown : I32 → IndexMap Text F → List (Earning F)
  by_breakdown round [] = []
  by_breakdown round ((metric, points) ∷ ps) =
      record { round = round; metric = metric; points = points } ∷ by_breakdown round ps

  abbrev pub by_bonus : I32 → Option F → List (Earning F)
  by_bonus round none = []
  by_bonus round (some bonus) =
      record { round = round; metric = role_bonus_metric; points = bonus } ∷ []

  -- By an appearance of a hero: its breakdown, and then the bonus of the hero's role.
  abbrev pub earned_at :
      Option (RoleBook D) → EntryRoster → I64 → ScoredAppearance F → List (Earning F)
  earned_at roles entry hero a =
      by_breakdown a.round a.breakdown ++ by_bonus a.round (bonus_of n u roles entry hero a)

  -- By a holding: the appearances in the rounds that it covers.
  abbrev pub earned_by :
      Option (RoleBook D) → EntryRoster → Holding → List (ScoredAppearance F) → List (Earning F)
  earned_by roles entry h as' =
      gather (earned_at roles entry h.hero_id)
        (keep (λ (a : ScoredAppearance F). covers h a.round) as')

  abbrev pub earned_over :
      ScoringRules D
      → Option (RoleBook D)
      → EntryRoster
      → List MatchResult
      → List Holding
      → List (Earning F)
  earned_over rules roles entry ms =
      gather λ (h : Holding). earned_by roles entry h (appearances rules h.hero_id ms)

  abbrev pub earnings :
      ScoringRules D → Option (RoleBook D) → EntryRoster → List MatchResult → List (Earning F)
  earnings rules roles entry ms = earned_over rules roles entry ms (holdings entry)

  abbrev pub pay : I32 → Totals F → List (Earning F) → Totals F
  pay current t [] = t
  pay current t (e ∷ es) = pay current (earn n u (e.round == current) t e.metric e.points) es

  pay-append :
      (current : I32) (t : Totals F) (es fs : List (Earning F))
      → pay current t (es ++ fs) ≡ pay current (pay current t es) fs
  pay-append current t [] fs = refl
  pay-append current t (e ∷ es) fs =
      pay-append current (earn n u (e.round == current) t e.metric e.points) es fs

  earn_all-pay :
      (current round : I32) (t : Totals F) (ps : IndexMap Text F)
      → earn_all n u (round == current) t ps ≡ pay current t (by_breakdown round ps)
  unfolding earn_all
  earn_all-pay current round t [] = refl
  earn_all-pay current round t ((metric, points) ∷ ps) =
      earn_all-pay current round (earn n u (round == current) t metric points) ps

  earn_bonus-pay :
      (current round : I32) (t : Totals F) (o : Option F)
      → earn_bonus n u (round == current) t o ≡ pay current t (by_bonus round o)
  earn_bonus-pay current round t none = refl
  earn_bonus-pay current round t (some bonus) = refl

  score_holding-pay :
      (current : I32) (roles : Option (RoleBook D)) (entry : EntryRoster) (h : Holding)
      (t : Totals F) (as' : List (ScoredAppearance F))
      → score_holding n u current roles entry h t as' ≡ pay current t (earned_by roles entry h as')
  unfolding score_holding
  score_holding-pay current roles entry h t [] = refl
  score_holding-pay current roles entry h t (a ∷ as') =
      let bonus = bonus_of n u roles entry h.hero_id a in
      let columns = by_breakdown a.round a.breakdown in
      let is_current = a.round == current in
      let scored = earn_bonus n u is_current (earn_all n u is_current t a.breakdown) bonus in
      let rest = earned_by roles entry h as' in
      elim (Bool-cases (covers h a.round)) [
        | inl held ↦ rw held (
            score_holding-pay current roles entry h scored as'
            ∙ ap (λ t'. pay current t' rest)
                (earn_bonus-pay current a.round _ bonus
                  ∙ ap (λ t'. pay current t' (by_bonus a.round bonus))
                      (earn_all-pay current a.round t a.breakdown)
                  ∙ sym (pay-append current t columns (by_bonus a.round bonus)))
            ∙ sym (pay-append current t (columns ++ by_bonus a.round bonus) rest))
        | inr apart ↦ rw apart (score_holding-pay current roles entry h t as')
      ]

  pub score_holdings-pay :
      (current : I32) (rules : ScoringRules D) (roles : Option (RoleBook D)) (entry : EntryRoster)
      (ms : List MatchResult) (t : Totals F) (hs : List Holding)
      → score_holdings n u current roles entry (appearances_by_hero n u rules [] ms) t hs
        ≡ pay current t (earned_over rules roles entry ms hs)
  unfolding score_holdings
  score_holdings-pay current rules roles entry ms t [] = refl
  score_holdings-pay current rules roles entry ms t (h ∷ hs) =
      let found : or_nothing (IndexMap.get (appearances_by_hero n u rules [] ms) h.hero_id)
          ≡ appearances rules h.hero_id ms =
        unfold IndexMap.get in get-appearances_by_hero rules h.hero_id [] ms in
      let next =
        score_holding n u current roles entry h t
          (or_nothing (IndexMap.get (appearances_by_hero n u rules [] ms) h.hero_id)) in
      score_holdings-pay current rules roles entry ms next hs
      ∙ ap (λ t'. pay current t' (earned_over rules roles entry ms hs))
          (ap (score_holding n u current roles entry h t) found
            ∙ score_holding-pay current roles entry h t (appearances rules h.hero_id ms))
      ∙ sym (
          pay-append current t (earned_by roles entry h (appearances rules h.hero_id ms))
            (earned_over rules roles entry ms hs))
