-- ===== src/ScoringRuleSetPolicy.antt =====
-- backend-rs/crates/umfl-domain/src/scoring_rule_set_policy.rs: the rules of a rule set's metrics.
pub mod Laws
use um_fantasy_league.Common.{
  ℕ, nat_eq, list_eq, Eq, ◌==◌, I32, Bool, true, false, not, ◌&&◌, ◌||◌, Option, none, some, List,
  [], ◌∷◌, ◌++◌, map, every, any, is_empty, contains, when, report, eqb, if◌then◌else◌, String,
}
use um_fantasy_league.Common.Text.{Text, leb_text}
use um_fantasy_league.Common.IndexMap.{repeated}
use um_fantasy_league.Common.Sorting.{sort}
use um_fantasy_league.Unicode.{Unicode, is_ascii_uppercase, is_ascii_digit}
use um_fantasy_league.MatchMetrics.{normalise}

pub data ScoringRule : Type 0 where
  duplicate_metric malformed_metric : ScoringRule

unfoldable pub as_str : ScoringRule → String
as_str duplicate_metric = "DUPLICATE_METRIC"
as_str malformed_metric = "MALFORMED_METRIC"

abbrev pub is_rule : ScoringRule → ScoringRule → Bool
is_rule duplicate_metric duplicate_metric = true
is_rule malformed_metric malformed_metric = true
is_rule _ _ = false

-- The names that the two messages list.
pub record ScoringViolation : Type 0 where
  pub rule : ScoringRule
  pub listed : List Text

abbrev pub violation : ScoringRule → List Text → ScoringViolation
violation r names = record { rule = r; listed = names }

pub record ScoringCoefficientInput (D : Type 0) : Type 0 where
  pub metric : Text
  pub coefficient : D
  pub sort_order : I32

abbrev pub is_name_char : ℕ → Bool
is_name_char c = is_ascii_uppercase c || is_ascii_digit c || eqb c 95

unfoldable pub is_well_formed : Text → Bool
is_well_formed [] = false
is_well_formed (c ∷ cs) = is_ascii_uppercase c && every is_name_char cs

-- The loop that collects each malformed name once, from those that it has.
unfoldable pub malformed_names : List Text → List Text → List Text
unfolding is_well_formed
malformed_names found [] = found
malformed_names found (m ∷ ms) =
    malformed_names
      (if not (is_well_formed m) && not (contains found m) then found ++ m ∷ [] else found) ms

unfoldable pub duplicate_names : List Text → List Text
duplicate_names names = sort leb_text (repeated names)

-- The two checks, on normalised names.
unfoldable pub name_checks : List Text → List ScoringViolation
unfolding malformed_names duplicate_names
name_checks names =
    let malformed = malformed_names [] names in
    let duplicates = duplicate_names names in
    report (
      when (not (is_empty malformed)) (violation malformed_metric malformed)
      ∷ when (not (is_empty duplicates)) (violation duplicate_metric duplicates)
      ∷ [])

unfoldable pub validate :
    {D : Type 0} → Unicode → List (ScoringCoefficientInput D) → List ScoringViolation
unfolding name_checks
validate {D} u coefficients =
    name_checks (map (λ (c : ScoringCoefficientInput D). normalise u c.metric) coefficients)
