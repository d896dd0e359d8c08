-- ===== src/HeroStats.antt =====
-- backend-rs/crates/umfl-domain/src/hero_stats.rs: recorded matches, folded into one ranked table of heroes
-- for each scoring criterion.
pub mod Laws
use um_fantasy_league.Common.{
  ℤ, pos, I32, I64, int_eq, nat_eq, list_eq, Option, none, some, List, [], ◌∷◌, map, ◌>>=◌,
}
use um_fantasy_league.Common.Text.{Text}
use um_fantasy_league.Common.IndexMap
use um_fantasy_league.Common.IndexMap.{IndexMap, values}
use um_fantasy_league.Unicode.{Unicode}
use um_fantasy_league.Numbers.{Numbers, round2, zero_f, sum_f}
use um_fantasy_league.MatchResult.{MatchResult, MetricContext, hero_contexts}
use um_fantasy_league.ScoringEngine.{ScoringRules, breakdown}
use um_fantasy_league.Standings.Board.{MetricColumn, latest_round, zeros, rounded, metric_columns}
use um_fantasy_league.Standings.Ranking.{competition_rank}

pub record PoolHero : Type 0 where
  pub hero_id : I64
  pub name : Text
  pub image_url : Option Text
  pub cost : I32

pub record HeroRankRow (F : Type 0) : Type 0 where
  pub rank : I32
  pub hero_id : I64
  pub hero_name : Text
  pub image_url : Option Text
  pub cost : I32
  pub points : F

pub record HeroCategory (F : Type 0) : Type 0 where
  pub metric : Text
  pub label : Text
  pub coefficient : F
  pub rows : List (HeroRankRow F)

pub record HeroStatsBoard (F : Type 0) : Type 0 where
  pub tournament_id : I64
  pub rule_set_name : Text
  pub current_round : I32
  pub overall : List (HeroRankRow F)
  pub categories : List (HeroCategory F)

pub record HeroTally (F : Type 0) : Type 0 where
  pub hero : PoolHero
  pub breakdown : IndexMap Text F

-- Every step of a traversal that may panic.
abbrev pub all_some {ℓ} : {A : Type ℓ} → List (Option A) → Option (List A)
all_some [] = some []
all_some (none ∷ os) = none
all_some (some a ∷ os) = elim (all_some os) [ none ↦ none | some as' ↦ some (a ∷ as') ]

module _ (n : Numbers) (u : Unicode) where
  open n use {F, D, add}

  -- `HeroTally::row`
  abbrev pub tally_row : HeroTally F → F → HeroRankRow F
  tally_row t points = record {
    rank = pos 0;
    hero_id = t.hero.hero_id;
    hero_name = t.hero.name;
    image_url = t.hero.image_url;
    cost = t.hero.cost;
    points = points;
  }

  -- The pool's heroes with nothing earned; a hero that is listed twice keeps its first place.
  unfoldable pub start_tallies :
      ScoringRules D → IndexMap I64 (HeroTally F) → List PoolHero → IndexMap I64 (HeroTally F)
  unfolding IndexMap.insert zeros
  start_tallies rules tallies [] = tallies
  start_tallies rules tallies (h ∷ hs) =
      start_tallies rules
        (IndexMap.insert tallies h.hero_id
          (record { hero = h; breakdown = zeros n u [] rules.scored_metrics }))
        hs

  -- `*breakdown.entry(metric).or_insert(0.0) += points`, for every pair
  unfoldable pub credit : IndexMap Text F → IndexMap Text F → IndexMap Text F
  unfolding IndexMap.upsert
  credit totals [] = totals
  credit totals ((metric, points) ∷ ps) =
      credit (IndexMap.upsert totals metric (zero_f n) (λ p. add p points)) ps

  -- The loops over the matches' contexts: a hero outside the pool is skipped.
  unfoldable pub tally_contexts :
      ScoringRules D → IndexMap I64 (HeroTally F) → List MetricContext → IndexMap I64 (HeroTally F)
  unfolding IndexMap.modify credit breakdown
  tally_contexts rules tallies [] = tallies
  tally_contexts rules tallies (c ∷ cs) =
      tally_contexts rules
        (IndexMap.modify tallies c.hero_id
          (λ t. record t { breakdown = credit t.breakdown (breakdown n u c rules) }))
        cs

  unfoldable pub tally_matches :
      ScoringRules D → IndexMap I64 (HeroTally F) → List MatchResult → IndexMap I64 (HeroTally F)
  unfolding tally_contexts hero_contexts
  tally_matches rules tallies [] = tallies
  tally_matches rules tallies (m ∷ ms) =
      tally_matches rules (tally_contexts rules tallies (hero_contexts m)) ms

  unfoldable pub round_tallies : IndexMap I64 (HeroTally F) → List (HeroTally F)
  unfolding rounded
  round_tallies tallies =
      map (λ (t : HeroTally F). record t { breakdown = rounded n u t.breakdown }) (values tallies)

  unfoldable pub ranked : List (HeroRankRow F) → List (HeroRankRow F)
  unfolding competition_rank
  ranked =
      competition_rank n.eq n.lt (λ r. r.points) (λ r. r.hero_name) (λ r k. record r { rank = k })

  -- A hero's points over all criteria.
  unfoldable pub overall_points : HeroTally F → F
  unfolding round2
  overall_points t = round2 n (sum_f n (values t.breakdown))

  -- One criterion's table. Indexing panics for a criterion that a tally lacks.
  unfoldable pub category : List (HeroTally F) → MetricColumn F → Option (HeroCategory F)
  unfolding IndexMap.get ranked
  category tallies column = do
    rows ← all_some (
        map
          (λ (t : HeroTally F). do
            points ← IndexMap.get t.breakdown column.metric
            some (tally_row t points))
          tallies)
    some (record {
      metric = column.metric;
      label = column.label;
      coefficient = column.coefficient;
      rows = ranked rows;
    })

  -- `board`
  unfoldable pub hero_board :
      I64 → List MatchResult → ScoringRules D → List PoolHero → Option (HeroStatsBoard F)
  unfolding latest_round start_tallies tally_matches round_tallies overall_points ranked category
      metric_columns
  hero_board tournament_id matches rules pool = do
    let tallies = round_tallies (tally_matches rules (start_tallies rules [] pool) matches)
    categories ← all_some (map (category tallies) (metric_columns n u rules))
    some (record {
      tournament_id = tournament_id;
      rule_set_name = rules.name;
      current_round = latest_round matches;
      overall = ranked (map (λ t. tally_row t (overall_points t)) tallies);
      categories = categories;
    })
