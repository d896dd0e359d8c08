-- ===== src/Standings/Board.antt =====
-- `board_with_roles` of backend-rs/crates/umfl-domain/src/standings.rs: recorded matches and rosters, folded
-- into a ranked leaderboard.
use um_fantasy_league.Common.{
  pos, I32, I64, int_eq, nat_eq, list_eq, ◌==◌, max_ℤ, Bool, Option, none, some, List, [], ◌∷◌,
  ◌++◌, map, if◌then◌else◌,
}
use um_fantasy_league.Common.Text.{Text, codes}
use um_fantasy_league.Common.IndexMap
use um_fantasy_league.Common.IndexMap.{IndexMap, values}
use um_fantasy_league.Unicode.{Unicode}
use um_fantasy_league.Numbers.{Numbers, round2, zero_f, one_f, sum_f}
use um_fantasy_league.MatchResult.{MatchResult, MetricContext, hero_contexts, stats}
use um_fantasy_league.MatchMetrics.{label}
use um_fantasy_league.ScoringEngine.{ScoringRules, coefficient_of, breakdown}
use um_fantasy_league.RosterRoles.{RoleBook, get_role, role_at, role_bonus, role_bonus_metric}
use um_fantasy_league.Standings.{RosterHero, Holding, EntryRoster, covers, spent, holdings}
use um_fantasy_league.Standings.Ranking.{competition_rank}

pub record MetricColumn (F : Type 0) : Type 0 where
  pub metric : Text
  pub label : Text
  pub coefficient : F

pub record StandingsRow (F : Type 0) : Type 0 where
  pub rank : I32
  pub entry_id : I64
  pub manager_id : I64
  pub handle : Text
  pub display_name : Text
  pub roster : List Text
  pub spent : I32
  pub credit_grant : I32
  pub total_points : F
  pub round_points : F
  pub breakdown : IndexMap Text F

pub record StandingsBoard (F : Type 0) : Type 0 where
  pub tournament_id : I64
  pub rule_set_name : Text
  pub current_round : I32
  pub metrics : List (MetricColumn F)
  pub rows : List (StandingsRow F)

pub record ScoredAppearance (F : Type 0) : Type 0 where
  pub round : I32
  pub breakdown : IndexMap Text F
  pub stats : Option (IndexMap Text I32)

-- What the loops over an entry's holdings add up.
pub record Totals (F : Type 0) : Type 0 where
  pub totals : IndexMap Text F
  pub round_points : F

-- `matches.iter().map(|m| m.round).max().unwrap_or(0)`
abbrev pub latest_from : I32 → List MatchResult → I32
latest_from best [] = best
latest_from best (m ∷ ms) = latest_from (max_ℤ best m.round) ms

unfoldable pub latest_round : List MatchResult → I32
latest_round [] = pos 0
latest_round (m ∷ ms) = latest_from m.round ms

abbrev pub or_nothing {ℓ} : {A : Type ℓ} → Option (List A) → List A
or_nothing none = []
or_nothing (some as') = as'

module _ (n : Numbers) (u : Unicode) where
  open n use {F, D, add, to_f64}

  abbrev pub appearance_of : ScoringRules D → MatchResult → MetricContext → ScoredAppearance F
  appearance_of rules m c = record {
    round = m.round;
    breakdown = breakdown n u c rules;
    stats = stats c;
  }

  -- `entry(hero).or_default().push(…)` for the contexts of a match
  unfoldable pub push_appearances :
      ScoringRules D
      → MatchResult
      → IndexMap I64 (List (ScoredAppearance F))
      → List MetricContext
      → IndexMap I64 (List (ScoredAppearance F))
  unfolding IndexMap.upsert breakdown stats
  push_appearances rules m by_hero [] = by_hero
  push_appearances rules m by_hero (c ∷ cs) =
      push_appearances rules m
        (IndexMap.upsert by_hero c.hero_id [] (λ as'. as' ++ appearance_of rules m c ∷ [])) cs

  unfoldable pub appearances_by_hero :
      ScoringRules D
      → IndexMap I64 (List (ScoredAppearance F))
      → List MatchResult
      → IndexMap I64 (List (ScoredAppearance F))
  unfolding push_appearances hero_contexts
  appearances_by_hero rules by_hero [] = by_hero
  appearances_by_hero rules by_hero (m ∷ ms) =
      appearances_by_hero rules (push_appearances rules m by_hero (hero_contexts m)) ms

  -- `map(|metric| (metric.clone(), 0.0)).collect()`
  unfoldable pub zeros : IndexMap Text F → List Text → IndexMap Text F
  unfolding IndexMap.insert
  zeros totals [] = totals
  zeros totals (m ∷ ms) = zeros (IndexMap.insert totals m (zero_f n)) ms

  -- One metric's points, which count for the round too if it is the current one.
  unfoldable pub earn : Bool → Totals F → Text → F → Totals F
  unfolding IndexMap.upsert
  earn is_current t metric points = record {
    totals = IndexMap.upsert t.totals metric (zero_f n) (λ p. add p points);
    round_points = if is_current then add t.round_points points else t.round_points;
  }

  unfoldable pub earn_all : Bool → Totals F → IndexMap Text F → Totals F
  unfolding earn
  earn_all is_current t [] = t
  earn_all is_current t ((metric, points) ∷ ps) =
      earn_all is_current (earn is_current t metric points) ps

  -- The bonus of a played game, for a hero with a role in force that the book still has.
  unfoldable pub bonus_of : Option (RoleBook D) → EntryRoster → I64 → ScoredAppearance F → Option F
  unfolding role_at get_role role_bonus
  bonus_of none entry hero a = none
  bonus_of (some book) entry hero a = elim (role_at entry.role_assignments hero a.round) [
    | none ↦ none
    | some role_id ↦ elim a.stats [
      | none ↦ none
      | some stats ↦ elim (get_role book role_id) [
        | none ↦ none
        | some role ↦ some (role_bonus n role stats)
      ]
    ]
  ]

  abbrev pub earn_bonus : Bool → Totals F → Option F → Totals F
  earn_bonus is_current t none = t
  earn_bonus is_current t (some bonus) = earn is_current t role_bonus_metric bonus

  -- The loop over the appearances of a holding's hero.
  unfoldable pub score_holding :
      I32
      → Option (RoleBook D)
      → EntryRoster
      → Holding
      → Totals F
      → List (ScoredAppearance F)
      → Totals F
  unfolding covers earn_all bonus_of earn
  score_holding current roles entry h t [] = t
  score_holding current roles entry h t (a ∷ as') =
      let is_current = a.round == current in
      let scored =
        earn_bonus is_current (earn_all is_current t a.breakdown)
          (bonus_of roles entry h.hero_id a) in
      score_holding current roles entry h (if covers h a.round then scored else t) as'

  -- The loop over the holdings: a hero without appearances is skipped.
  unfoldable pub score_holdings :
      I32
      → Option (RoleBook D)
      → EntryRoster
      → IndexMap I64 (List (ScoredAppearance F))
      → Totals F
      → List Holding
      → Totals F
  unfolding score_holding IndexMap.get
  score_holdings current roles entry by_hero t [] = t
  score_holdings current roles entry by_hero t (h ∷ hs) =
      score_holdings current roles entry by_hero
        (score_holding current roles entry h t (or_nothing (IndexMap.get by_hero h.hero_id))) hs

  unfoldable pub with_bonus_column : Option (RoleBook D) → IndexMap Text F → IndexMap Text F
  unfolding IndexMap.insert
  with_bonus_column none totals = totals
  with_bonus_column (some book) totals = IndexMap.insert totals role_bonus_metric (zero_f n)

  unfoldable pub rounded : IndexMap Text F → IndexMap Text F
  unfolding round2
  rounded totals = map (λ (p : Text × F). (p.0, round2 n p.1)) totals

  -- The closure that turns an entry into its row.
  unfoldable pub standings_row :
      I32
      → ScoringRules D
      → Option (RoleBook D)
      → IndexMap I64 (List (ScoredAppearance F))
      → EntryRoster
      → StandingsRow F
  unfolding zeros with_bonus_column score_holdings holdings rounded spent round2
  standings_row current rules roles by_hero entry =
      let start : Totals F = record {
        totals = with_bonus_column roles (zeros [] rules.scored_metrics);
        round_points = zero_f n;
      } in
      let scored = score_holdings current roles entry by_hero start (holdings entry) in
      let columns = rounded scored.totals in
      record {
        rank = pos 0;
        entry_id = entry.entry_id;
        manager_id = entry.manager_id;
        handle = entry.handle;
        display_name = entry.display_name;
        roster = map (λ (h : RosterHero). h.name) entry.heroes;
        spent = um_fantasy_league.Standings.spent entry;
        credit_grant = entry.credit_grant;
        total_points = round2 n (sum_f n (values columns));
        round_points = round2 n scored.round_points;
        breakdown = columns;
      }

  unfoldable pub metric_columns : ScoringRules D → List (MetricColumn F)
  unfolding label coefficient_of
  metric_columns rules =
      map
        (λ m. record {
          metric = m;
          label = label u m;
          coefficient = to_f64 (coefficient_of n u rules m);
        })
        rules.scored_metrics

  abbrev pub bonus_column : Option (RoleBook D) → List (MetricColumn F)
  bonus_column none = []
  bonus_column (some book) =
      record { metric = role_bonus_metric; label = codes "Role Bonus"; coefficient = one_f n } ∷ []

  unfoldable pub board_columns : ScoringRules D → Option (RoleBook D) → List (MetricColumn F)
  unfolding metric_columns
  board_columns rules roles = metric_columns rules ++ bonus_column roles

  unfoldable pub rank : List (StandingsRow F) → List (StandingsRow F)
  unfolding competition_rank
  rank =
      competition_rank n.eq n.lt (λ r. r.total_points) (λ r. r.handle)
        (λ r k. record r { rank = k })

  unfoldable pub board_with_roles :
      I64
      → List MatchResult
      → ScoringRules D
      → List EntryRoster
      → Option (RoleBook D)
      → StandingsBoard F
  unfolding latest_round appearances_by_hero standings_row board_columns rank
  board_with_roles tournament_id matches rules rosters roles =
      let current = latest_round matches in
      let by_hero = appearances_by_hero rules [] matches in
      record {
        tournament_id = tournament_id;
        rule_set_name = rules.name;
        current_round = current;
        metrics = board_columns rules roles;
        rows = rank (map (standings_row current rules roles by_hero) rosters);
      }

  unfoldable pub board :
      I64 → List MatchResult → ScoringRules D → List EntryRoster → StandingsBoard F
  unfolding board_with_roles
  board tournament_id matches rules rosters =
      board_with_roles tournament_id matches rules rosters none
