-- ===== src/ScoringEngine/Laws.antt =====
-- What a breakdown holds, and in which order.
use um_fantasy_league.Common.{
  I64, nat_eq, list_eq, Bool, true, false, true≢false, Option, none, some, List, [], ◌∷◌, keep,
  contains, if◌then◌else◌, ◌≡◌, ◌↔◌, refl, ap, sym, ◌∙◌, arith, Bool-cases, inl, inr, ==_refl,
}
use um_fantasy_league.Common.Text.{Text}
use um_fantasy_league.Common.IndexMap
use um_fantasy_league.Common.IndexMap.{
  IndexMap, keys, values, get-insert, contains-keys-insert, insert-Distinct, insert-fresh,
}
use um_fantasy_league.Unicode.{Unicode}
use um_fantasy_league.Numbers.{Numbers, round2, zero_f}
use um_fantasy_league.MatchResult.{MetricContext}
use um_fantasy_league.MatchMetrics
use um_fantasy_league.MatchMetrics.{normalise, Extractor}
use um_fantasy_league.ScoringEngine.{
  ScoringRules, is_some, new_rules, contribution, breakdown, coefficient_of,
}
use um_fantasy_league.ScoringEngine.Entries.{earned, entries_lem}
use um_fantasy_league.ScoringEngine.Rules.{last_of, or_zero, new_rules_lem}

module _ (n : Numbers) (u : Unicode) where
  -- What a hero is paid for a metric: the metric has an extractor, whose measure is not zero; the payment is
  -- the measure times the coefficient, rounded; and it is not zero.
  pub record IsPaid (c : MetricContext) (coefficient : n.D) (k : Text) (p : n.F) : Type 0 where
    pub extractor : Extractor n
    pub known : MatchMetrics.get n u k ≡ some extractor
    pub measured : n.eq (extractor c) (zero_f n) ≡ false
    pub rounds_to : round2 n (n.mul (extractor c) (n.to_f64 coefficient)) ≡ p
    pub nonzero : n.eq p (zero_f n) ≡ false

  module _ (c : MetricContext) (rules : ScoringRules n.D) where
    -- The contribution of a metric, by its extractor.
    abbrev contribution_by : Option (Extractor n) → n.D → Option n.F
    contribution_by none coefficient = none
    contribution_by (some extractor) coefficient =
        let measured = extractor c in
        let points = round2 n (n.mul measured (n.to_f64 coefficient)) in
        if n.eq measured (zero_f n)
        then none
        else if n.eq points (zero_f n)
        then none
        else some points

    contribution-by :
        (k : Text)
        → contribution n u c rules k
          ≡ contribution_by (MatchMetrics.get n u k) (coefficient_of n u rules k)
    unfolding contribution
    contribution-by k = case_on (MatchMetrics.get n u k)
      where
        case_on :
            (o : Option (Extractor n))
            → elim o [
              | none ↦ none
              | some extractor ↦
                  let measured = extractor c in
                  let points = round2 n (n.mul measured (n.to_f64 (coefficient_of n u rules k))) in
                  if n.eq measured (zero_f n)
                  then none
                  else if n.eq points (zero_f n)
                  then none
                  else some points
            ]
              ≡ contribution_by o (coefficient_of n u rules k)
        case_on none = refl
        case_on (some extractor) = refl

    some-inj : {a b : n.F} → some a ≡ some b → a ≡ b
    some-inj h = cc

    contribution_by-IsPaid :
        (o : Option (Extractor n)) (coefficient : n.D) (k : Text) (p : n.F)
        → MatchMetrics.get n u k ≡ o
        → contribution_by o coefficient ≡ some p
        → IsPaid c coefficient k p
    contribution_by-IsPaid none coefficient k p e h = absurd cc
    contribution_by-IsPaid (some extractor) coefficient k p e h =
        elim (Bool-cases (n.eq (extractor c) (zero_f n))) [
          | inl nothing ↦ let g = rw nothing at h in absurd cc
          | inr something ↦
              let points = round2 n (n.mul (extractor c) (n.to_f64 coefficient)) in
              elim (Bool-cases (n.eq points (zero_f n))) [
                | inl worthless ↦ let g = rw (something, worthless) at h in absurd cc
                | inr worth ↦
                    let same = some-inj (rw (something, worth) at h) in
                    record {
                      extractor = extractor;
                      known = e;
                      measured = something;
                      rounds_to = same;
                      nonzero = rw (← same) worth;
                    }
              ]
        ]

    IsPaid-contribution_by :
        (coefficient : n.D) (k : Text) (p : n.F)
        → IsPaid c coefficient k p
        → contribution_by (MatchMetrics.get n u k) coefficient ≡ some p
    IsPaid-contribution_by coefficient k p q =
        let worth : n.eq (round2 n (n.mul (q.extractor c) (n.to_f64 coefficient))) (zero_f n)
            ≡ false =
          rw q.rounds_to q.nonzero in
        ap (λ o. contribution_by o coefficient) q.known
        ∙ rw (q.measured, worth) (ap some q.rounds_to)

    -- A hero's entries are what it is paid for the scored metrics.
    entry-IsPaid :
        (coefficient : n.D) (k : Text) (p : n.F)
        → coefficient_of n u rules k ≡ coefficient
        → (o : Option n.F)
        → o ≡ (if contains rules.scored_metrics k then contribution n u c rules k else none)
        → (o ≡ some p) ↔ ((contains rules.scored_metrics k ≡ true) × IsPaid c coefficient k p)
    entry-IsPaid coefficient k p priced o e =
        let by = contribution-by k ∙ ap (contribution_by (MatchMetrics.get n u k)) priced in
        elim (Bool-cases (contains rules.scored_metrics k)) [
          | inl scored ↦
              let at : o ≡ contribution n u c rules k = rw scored at e in
              (
                λ h. (
                  scored,
                  contribution_by-IsPaid (MatchMetrics.get n u k) coefficient k p refl
                      (sym by ∙ sym at ∙ h),
                ),
                λ q. at ∙ by ∙ IsPaid-contribution_by coefficient k p q.1,
              )
          | inr unscored ↦
              let at : o ≡ none = rw unscored at e in
              (λ h. absurd (apart (sym at ∙ h)), λ q. absurd (true≢false (sym q.0 ∙ unscored)))
        ]
      where
        apart : none ≡ some p → ⊥
        apart h = cc

    earned-scored :
        (all xs : List Text)
        → ((x : Text) → contains xs x ≡ true → contains all x ≡ true)
        → earned n u c rules xs
          ≡ keep (λ m. is_some (if contains all m then contribution n u c rules m else none)) xs
    earned-scored all [] sub = refl
    earned-scored all (x ∷ xs) sub =
        let there : contains all x ≡ true = sub x (ground (arith, ==_refl x)) in
        let rest = earned-scored all xs (λ y h. sub y (ground (arith, h))) in rw (there, rest) refl

  keep-same :
      (p q : Text → Bool) (xs : List Text) → ((x : Text) → p x ≡ q x) → keep p xs ≡ keep q xs
  keep-same p q [] h = refl
  keep-same p q (x ∷ xs) h = rw (h x, keep-same p q xs h) refl

  -- For the rules that `new` builds of some coefficients: a breakdown has an entry of some points
  -- for a metric exactly if the metric is scored, it has an extractor whose measure is not zero,
  -- the points are the measure times the last coefficient under the metric's name, without case and
  -- surrounding space, rounds_to to two digits, and they are not zero; and the entries stand in the
  -- order of the columns.
  pub breakdown_lem :
      (c : MetricContext) (id : I64) (name : Text) (cs : IndexMap Text n.D)
      → let rules = new_rules n u id name cs in
        let paid = breakdown n u c rules in
        (keys paid ≡ keep (λ m. is_some (IndexMap.get paid m)) rules.scored_metrics)
        × ((k : Text) (p : n.F)
            → (IndexMap.get paid k ≡ some p) ↔ (
                (contains rules.scored_metrics k ≡ true)
                × IsPaid c (or_zero n u (last_of n u cs (normalise u k))) k p))
  breakdown_lem c id name cs =
      let rules = new_rules n u id name cs in
      let columns = new_rules_lem n u id name cs in
      let entries = entries_lem n u c rules columns.1 in
      (
        entries.0
            ∙ earned-scored c rules rules.scored_metrics rules.scored_metrics (λ x h. h)
            ∙ sym (keep-same _ _ rules.scored_metrics (λ m. ap is_some (entries.1 m))),
        λ k p.
            entry-IsPaid c rules (or_zero n u (last_of n u cs (normalise u k))) k p (columns.2 k)
              (IndexMap.get (breakdown n u c rules) k) (entries.1 k),
      )
