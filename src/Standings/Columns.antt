-- ===== src/Standings/Columns.antt =====
-- The columns of a leaderboard row.
use um_fantasy_league.Common.{
  I32, int_eq, nat_eq, list_eq, Eq, ◌==◌, Bool, true, false, Option, none, some, List, [], ◌∷◌, map,
  contains, keep, if◌then◌else◌, ◌≡◌, refl, ap, sym, ◌∙◌, arith, Bool-cases, inl, inr,
}
use um_fantasy_league.Common.Text.{Text}
use um_fantasy_league.Common.IndexMap
use um_fantasy_league.Common.IndexMap.{IndexMap, get-insert, get-upsert_ne, get-upsert_self, keys}
use um_fantasy_league.Unicode.{Unicode}
use um_fantasy_league.Numbers.{Numbers, round2, zero_f, sum_from, sum_f}
use um_fantasy_league.MatchResult.{MatchResult}
use um_fantasy_league.ScoringEngine.{ScoringRules}
use um_fantasy_league.RosterRoles.{RoleBook, role_bonus_metric}
use um_fantasy_league.Standings.{EntryRoster, holdings}
use um_fantasy_league.Standings.Board.{
  Totals, earn, zeros, with_bonus_column, rounded, standings_row, appearances_by_hero,
}
use um_fantasy_league.Standings.Totals.{Earning, points_of, earnings, pay, score_holdings-pay}

module _ (n : Numbers) (u : Unicode) where
  open n use {F, D, add}

  abbrev text_eq : Eq Text
  text_eq = list_eq

  get-zeros :
      (totals : IndexMap Text F) (ms : List Text) (k : Text)
      → IndexMap.get (zeros n u totals ms) k
        ≡ (if contains ms k then some (zero_f n) else IndexMap.get totals k)
  unfolding zeros
  get-zeros totals [] k = refl
  get-zeros totals (m ∷ ms) k = ground (
    arith,
    get-zeros (IndexMap.insert totals m (zero_f n)) ms k,
    get-insert totals m k (zero_f n),
  )

  get-with_bonus_column :
      (roles : Option (RoleBook D)) (totals : IndexMap Text F) (k : Text)
      → IndexMap.get totals k ≡ some (zero_f n)
      → IndexMap.get (with_bonus_column n u roles totals) k ≡ some (zero_f n)
  unfolding with_bonus_column
  get-with_bonus_column none totals k h = h
  get-with_bonus_column (some book) totals k h =
      ground (arith, get-insert totals role_bonus_metric k (zero_f n))

  get-rounded :
      (totals : IndexMap Text F) (k : Text) (p : F)
      → IndexMap.get totals k ≡ some p
      → IndexMap.get (rounded n u totals) k ≡ some (round2 n p)
  unfolding rounded IndexMap.get
  get-rounded [] k p h = cc
  get-rounded ((j, q) ∷ totals) k p h = ground (arith, get-rounded totals k p)

  get-earn_same :
      (is_current : Bool) (t : Totals F) (e : Earning F) (k : Text) (p : F)
      → e.metric ≡ k
      → IndexMap.get t.totals k ≡ some p
      → IndexMap.get (earn n u is_current t e.metric e.points).totals k ≡ some (add p e.points)
  unfolding earn
  get-earn_same is_current t e k p same h =
      let grow = λ (q : F). add q e.points in
      let there : IndexMap.get t.totals e.metric ≡ some p = ap (IndexMap.get t.totals) same ∙ h in
      ap (IndexMap.get (IndexMap.upsert t.totals e.metric (zero_f n) grow)) (sym same)
      ∙ get-upsert_self t.totals e.metric (zero_f n) grow
      ∙ rw there

  get-earn_other :
      (is_current : Bool) (t : Totals F) (e : Earning F) (k : Text)
      → (e.metric == k) ≡ false
      → IndexMap.get (earn n u is_current t e.metric e.points).totals k ≡ IndexMap.get t.totals k
  unfolding earn
  get-earn_other is_current t e k differ =
      get-upsert_ne t.totals e.metric k (zero_f n) (λ q. add q e.points) differ

  -- A column that is there ends as the sum of what was earned by its metric.
  get-pay :
      (current : I32) (t : Totals F) (es : List (Earning F)) (k : Text) (p : F)
      → IndexMap.get t.totals k ≡ some p
      → IndexMap.get (pay n u current t es).totals k
        ≡ some (sum_from n p (points_of (λ e. e.metric == k) es))
  get-pay current t [] k p h = h
  get-pay current t (e ∷ es) k p h =
      let is_current = e.round == current in
      let next = earn n u is_current t e.metric e.points in
      elim (Bool-cases (e.metric == k)) [
        | inl same ↦ rw same (
            get-pay current next es k (add p e.points)
              (get-earn_same is_current t e k p ((text_eq.is_equal_iff e.metric k).0 same) h))
        | inr differ ↦
            rw differ (get-pay current next es k p (get-earn_other is_current t e k differ ∙ h))
      ]

  round_points-pay :
      (current : I32) (t : Totals F) (es : List (Earning F))
      → (pay n u current t es).round_points
        ≡ sum_from n t.round_points (points_of (λ e. e.round == current) es)
  unfolding earn
  round_points-pay current t [] = refl
  round_points-pay current t (e ∷ es) =
      round_points-pay current (earn n u (e.round == current) t e.metric e.points) es
      ∙ next (e.round == current)
    where
      next :
          (b : Bool)
          → sum_from n
              (if b then add t.round_points e.points else t.round_points)
              (points_of (λ e. e.round == current) es)
            ≡ sum_from n t.round_points (
                map
                  (λ (e : Earning F). e.points)
                  (let rest = keep (λ (e : Earning F). e.round == current) es in
                    if b then e ∷ rest else rest))
      next true = refl
      next false = refl

  -- A leaderboard row has a column for every scored metric: the rounded sum of what the entry's
  -- holdings earned by the metric, appearance by appearance, in the rounds that they cover. Its points of
  -- the round are the rounded sum of what was earned in the current round, by whatever metric.
  pub standings_row_lem :
      (current : I32) (rules : ScoringRules D) (roles : Option (RoleBook D)) (entry : EntryRoster)
      (ms : List MatchResult)
      → let row =
          standings_row n u current rules roles (appearances_by_hero n u rules [] ms) entry in
        let earned = earnings n u rules roles entry ms in
        ((k : Text)
          → contains rules.scored_metrics k ≡ true
          → IndexMap.get row.breakdown k
            ≡ some (round2 n (sum_f n (points_of (λ e. e.metric == k) earned))))
        × (row.round_points ≡ round2 n (sum_f n (points_of (λ e. e.round == current) earned)))
  unfolding standings_row
  standings_row_lem current rules roles entry ms =
      let start : Totals F = record {
        totals = with_bonus_column n u roles (zeros n u [] rules.scored_metrics);
        round_points = zero_f n;
      } in
      let paid = score_holdings-pay n u current rules roles entry ms start (holdings entry) in
      let earned = earnings n u rules roles entry ms in
      (
        λ k scored. get-rounded _ k _ (
            ap (λ (t : Totals F). IndexMap.get t.totals k) paid
            ∙ get-pay current start earned k (zero_f n) (
                get-with_bonus_column roles (zeros n u [] rules.scored_metrics) k
                  (get-zeros [] rules.scored_metrics k ∙ rw scored))),
        ap (λ (t : Totals F). round2 n t.round_points) paid
            ∙ ap (round2 n) (round_points-pay current start earned),
      )
