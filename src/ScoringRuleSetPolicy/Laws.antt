-- ===== src/ScoringRuleSetPolicy/Laws.antt =====
-- What the rules of a rule set accept.
use um_fantasy_league.Common.{
  nat_eq, list_eq, true, false, not, ◌&&◌, List, [], ◌∷◌, ◌++◌, map, every, All, is_empty, contains,
  Distinct, ◌≡◌, refl, ap, ◌∙◌, ◌↔◌, arith, Bool-cases, inl, inr,
}
use um_fantasy_league.Common.Text.{Text, leb_text}
use um_fantasy_league.Common.IndexMap.{repeated, repeated-nil_iff}
use um_fantasy_league.Common.Sorting.{is_empty-sort}
use um_fantasy_league.Unicode.{Unicode, IsUnicode, trim, trim_start, to_uppercase}
use um_fantasy_league.MatchMetrics.{normalise}
use um_fantasy_league.ScoringRuleSetPolicy.{
  ScoringCoefficientInput, is_well_formed, is_name_char, malformed_names, duplicate_names,
  name_checks, validate,
}
use mathlib.Core.List.{reverse, reverse_aux, reverse-reverse}

is_empty-snoc {ℓ} : {A : Type ℓ} (xs : List A) (x : A) → is_empty (xs ++ x ∷ []) ≡ false
is_empty-snoc [] x = refl
is_empty-snoc (y ∷ ys) x = refl

malformed-nonempty :
    (found names : List Text)
    → is_empty found ≡ false
    → is_empty (malformed_names found names) ≡ false
unfolding malformed_names
malformed-nonempty found [] h = h
malformed-nonempty found (m ∷ ms) h =
    elim (Bool-cases (not (is_well_formed m) && not (contains found m))) [
      | inl new ↦ rw new (malformed-nonempty (found ++ m ∷ []) ms (is_empty-snoc found m))
      | inr old ↦ rw old (malformed-nonempty found ms h)
    ]

pub malformed-nil_iff :
    (names : List Text)
    → (is_empty (malformed_names [] names) ≡ true) ↔ All (λ m. is_well_formed m ≡ true) names
unfolding malformed_names
malformed-nil_iff [] = (λ _. tt, λ _. refl)
malformed-nil_iff (m ∷ ms) = elim (Bool-cases (is_well_formed m)) [
  | inl fine ↦ rw fine (ground (arith, malformed-nil_iff ms))
  | inr bad ↦ rw bad (ground (arith, malformed-nonempty (m ∷ []) ms refl))
]

-- The names pass both checks exactly if each is well-formed and no two are the same.
pub name_checks-nil_iff :
    (names : List Text)
    → (name_checks names ≡ []) ↔ (All (λ m. is_well_formed m ≡ true) names × Distinct names)
unfolding name_checks duplicate_names
name_checks-nil_iff names =
    rw (is_empty-sort leb_text (repeated names))
      (ground (arith, malformed-nil_iff names, repeated-nil_iff names))

-- A rule set is accepted exactly if, after normalisation, every metric name is an upper-case letter
-- followed by upper-case letters, digits and underscores, and no two names are the same.
pub validate-nil_iff :
    {D : Type 0} (u : Unicode) (cs : List (ScoringCoefficientInput D))
    → let names = map (λ (c : ScoringCoefficientInput D). normalise u c.metric) cs in
      (validate u cs ≡ []) ↔ (All (λ m. is_well_formed m ≡ true) names × Distinct names)
unfolding validate
validate-nil_iff {D} u cs =
    name_checks-nil_iff (map (λ (c : ScoringCoefficientInput D). normalise u c.metric) cs)

-- Characters that the tables leave alone.
module _ (u : Unicode) (known : IsUnicode u) where
  well_formed-all : (s : Text) → is_well_formed s ≡ true → All (λ c. is_name_char c ≡ true) s
  unfolding is_well_formed
  well_formed-all [] h = tt
  well_formed-all (c ∷ cs) h = (ground arith, all_of cs (ground arith))
    where
      all_of : (cs : Text) → every is_name_char cs ≡ true → All (λ c. is_name_char c ≡ true) cs
      all_of [] h = tt
      all_of (c ∷ cs) h = (ground arith, all_of cs (ground arith))

  trim_start-fixed : (s : Text) → All (λ c. is_name_char c ≡ true) s → trim_start u s ≡ s
  trim_start-fixed [] h = refl
  trim_start-fixed (c ∷ cs) h = rw (known.not_space c h.0)

  All-reverse_aux :
      (s acc : Text)
      → All (λ c. is_name_char c ≡ true) s
      → All (λ c. is_name_char c ≡ true) acc
      → All (λ c. is_name_char c ≡ true) (reverse_aux s acc)
  All-reverse_aux [] acc h k = k
  All-reverse_aux (c ∷ cs) acc h k = All-reverse_aux cs (c ∷ acc) h.1 (h.0, k)

  to_uppercase-fixed : (s : Text) → All (λ c. is_name_char c ≡ true) s → to_uppercase u s ≡ s
  unfolding to_uppercase
  to_uppercase-fixed [] h = refl
  to_uppercase-fixed (c ∷ cs) h =
      rw (known.upper_fixed c h.0) (ap (◌∷◌ c) (to_uppercase-fixed cs h.1))

  -- A well-formed name is its own normal form: what passes the check is stored as it was checked.
  pub normalise-well_formed : (s : Text) → is_well_formed s ≡ true → normalise u s ≡ s
  unfolding normalise trim
  normalise-well_formed s h =
      let all = well_formed-all s h in
      ap (λ t. to_uppercase u (reverse (trim_start u (reverse t)))) (trim_start-fixed s all)
      ∙ ap (λ t. to_uppercase u (reverse t))
          (trim_start-fixed (reverse s) (All-reverse_aux s [] all tt))
      ∙ ap (to_uppercase u) (reverse-reverse s)
      ∙ to_uppercase-fixed s all
