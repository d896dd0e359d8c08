-- ===== src/ScoringEngine.antt =====
-- backend-rs/crates/umfl-domain/src/scoring_engine.rs: the price of a hero's part in a match.
pub mod Entries
pub mod Laws
pub mod Rules
use um_fantasy_league.Common.{
  ℤ, pos, I64, nat_eq, list_eq, Eq, ◌==◌, Bool, true, false, not, Option, none, some, List, [], ◌∷◌,
  ◌++◌, map, keep, if◌then◌else◌,
}
use um_fantasy_league.Common.Text.{Text}
use um_fantasy_league.Common.IndexMap
use um_fantasy_league.Common.IndexMap.{IndexMap, keys, values}
use um_fantasy_league.Unicode.{Unicode}
use um_fantasy_league.Numbers.{Numbers, round2, zero_f, sum_f}
use um_fantasy_league.MatchResult.{MetricContext}
use um_fantasy_league.MatchMetrics
use um_fantasy_league.MatchMetrics.{normalise, Extractor}

pub record ScoringRules (D : Type 0) : Type 0 where
  pub rule_set_id : I64
  pub name : Text
  pub coefficients : IndexMap Text D
  pub by_metric : IndexMap Text D
  pub scored_metrics : List Text
  pub unknown_metrics : List Text

abbrev pub is_some {ℓ} : {A : Type ℓ} → Option A → Bool
is_some none = false
is_some (some a) = true

module _ (n : Numbers) (u : Unicode) where
  open n use {F, D, mul, eq, to_f64, decimal_zero}

  -- The loop that fills `by_metric`.
  unfoldable pub by_normalised : IndexMap Text D → IndexMap Text D → IndexMap Text D
  unfolding IndexMap.insert normalise
  by_normalised m [] = m
  by_normalised m ((k, c) ∷ cs) = by_normalised (IndexMap.insert m (normalise u k) c) cs

  -- `ScoringRules::new`
  unfoldable pub new_rules : I64 → Text → IndexMap Text D → ScoringRules D
  unfolding by_normalised MatchMetrics.get MatchMetrics.unknown
  new_rules id name coefficients =
      let by = by_normalised [] coefficients in
      record {
        rule_set_id = id;
        name = name;
        coefficients = coefficients;
        by_metric = by;
        scored_metrics = keep (λ m. is_some (MatchMetrics.get n u m)) (keys by);
        unknown_metrics = MatchMetrics.unknown n u (keys coefficients);
      }

  -- `ScoringRules::none`
  unfoldable pub no_rules : ScoringRules D
  unfolding new_rules
  no_rules = new_rules (pos 0) [] []

  abbrev pub or_decimal_zero : Option D → D
  or_decimal_zero none = decimal_zero
  or_decimal_zero (some d) = d

  unfoldable pub coefficient_of : ScoringRules D → Text → D
  unfolding IndexMap.get normalise
  coefficient_of rules metric = or_decimal_zero (IndexMap.get rules.by_metric (normalise u metric))

  -- One round of the loop of `breakdown`: what the metric contributes, if it is not zero.
  unfoldable pub contribution : MetricContext → ScoringRules D → Text → Option F
  unfolding MatchMetrics.get coefficient_of round2
  contribution c rules metric = elim (MatchMetrics.get n u metric) [
    | none ↦ none
    | some extractor ↦
        let measured = extractor c in
        let points = round2 n (mul measured (to_f64 (coefficient_of rules metric))) in
        if eq measured (zero_f n) then none else if eq points (zero_f n) then none else some points
  ]

  abbrev record_points : IndexMap Text F → Text → Option F → IndexMap Text F
  record_points m metric none = m
  record_points m metric (some p) = IndexMap.insert m metric p

  unfoldable pub breakdown_from :
      IndexMap Text F → MetricContext → ScoringRules D → List Text → IndexMap Text F
  unfolding contribution IndexMap.insert
  breakdown_from result c rules [] = result
  breakdown_from result c rules (m ∷ ms) =
      breakdown_from (record_points result m (contribution c rules m)) c rules ms

  unfoldable pub breakdown : MetricContext → ScoringRules D → IndexMap Text F
  unfolding breakdown_from
  breakdown c rules = breakdown_from [] c rules rules.scored_metrics

  unfoldable pub score : MetricContext → ScoringRules D → F
  unfolding breakdown round2
  score c rules = round2 n (sum_f n (values (breakdown c rules)))
