-- ===== src/ScoringEngine/Rules.antt =====
-- The rules that `new` of backend-rs/crates/umfl-domain/src/scoring_engine.rs builds.
use um_fantasy_league.Common.{
  I64, nat_eq, list_eq, ◌==◌, Bool, true, false, not, ◌||◌, Option, none, some, List, [], ◌∷◌, ◌++◌,
  keep, contains, Distinct, if◌then◌else◌, ◌≡◌, refl, ap, sym, ◌∙◌, arith, Bool-cases, inl, inr,
  ==_comm,
}
use um_fantasy_league.Common.Text.{Text}
use um_fantasy_league.Common.IndexMap
use um_fantasy_league.Common.IndexMap.{
  IndexMap, keys, values, get-insert, contains-keys-insert, insert-Distinct, insert-fresh,
}
use um_fantasy_league.Unicode.{Unicode}
use um_fantasy_league.Numbers.{Numbers}
use um_fantasy_league.MatchMetrics
use um_fantasy_league.MatchMetrics.{normalise, Extractor}
use um_fantasy_league.ScoringEngine.{
  is_some, by_normalised, new_rules, coefficient_of, or_decimal_zero,
}
use mathlib.Core.List.{append_assoc, append-nil}

keep-Distinct : (p : Text → Bool) (xs : List Text) → Distinct xs → Distinct (keep p xs)
keep-Distinct p [] d = tt
keep-Distinct p (x ∷ xs) d = ground (arith, keep-Distinct p xs d.1, contains-keep p xs x d.0)
  where
    contains-keep :
        (p : Text → Bool) (xs : List Text) (x : Text)
        → contains xs x ≡ false
        → contains (keep p xs) x ≡ false
    contains-keep p [] x h = refl
    contains-keep p (y ∷ ys) x h = ground (arith, contains-keep p ys x)

module _ (n : Numbers) (u : Unicode) where
  -- The names, each at its first place.
  abbrev pub first_places : List Text → List Text
  first_places [] = []
  first_places (x ∷ xs) = x ∷ keep (λ y. not (x == y)) (first_places xs)

  abbrev pub normal_names : IndexMap Text n.D → List Text
  normal_names [] = []
  normal_names ((k, d) ∷ cs) = normalise u k ∷ normal_names cs

  abbrev or_before : Option n.D → Option n.D → Option n.D
  or_before none o = o
  or_before (some d) o = some d

  -- The last coefficient whose name, without case and surrounding space, is a normal name.
  abbrev pub last_of : IndexMap Text n.D → Text → Option n.D
  last_of [] m = none
  last_of ((k, d) ∷ cs) m = or_before (last_of cs m) (if normalise u k == m then some d else none)

  abbrev pub or_zero : Option n.D → n.D
  or_zero none = n.decimal_zero
  or_zero (some d) = d

  get-by_normalised :
      (m cs : IndexMap Text n.D) (k : Text)
      → IndexMap.get (by_normalised n u m cs) k ≡ or_before (last_of cs k) (IndexMap.get m k)
  unfolding by_normalised
  get-by_normalised m [] k = refl
  get-by_normalised m ((j, d) ∷ cs) k =
      get-by_normalised (IndexMap.insert m (normalise u j) d) cs k
      ∙ ap (or_before (last_of cs k)) (get-insert m (normalise u j) k d)
      ∙ go (last_of cs k) (normalise u j == k)
    where
      go :
          (later : Option n.D) (b : Bool)
          → or_before later (if b then some d else IndexMap.get m k)
            ≡ or_before (or_before later (if b then some d else none)) (IndexMap.get m k)
      go (some e) b = refl
      go none true = refl
      go none false = refl

  -- Inserting keeps the keys, or adds the new one at the end.
  abbrev added : List Text → Text → List Text
  added ks k = if contains ks k then ks else ks ++ k ∷ []

  keys-insert :
      (m : IndexMap Text n.D) (k : Text) (d : n.D) → keys (IndexMap.insert m k d) ≡ added (keys m) k
  unfolding IndexMap.insert
  keys-insert [] k d = refl
  keys-insert ((j, e) ∷ m) k d = ground (arith, keys-insert m k d)

  abbrev fresh_in : List Text → List Text → List Text
  fresh_in ks xs = keep (λ x. not (contains ks x)) xs

  contains-append_one :
      (ks : List Text) (k x : Text) → contains (ks ++ k ∷ []) x ≡ (contains ks x || k == x)
  contains-append_one [] k x = ground arith
  contains-append_one (j ∷ ks) k x = ground (arith, contains-append_one ks k x)

  fresh_in-added :
      (ks : List Text) (k : Text) (xs : List Text)
      → added ks k ++ fresh_in (added ks k) xs ≡ ks ++ fresh_in ks (k ∷ keep (λ y. not (k == y)) xs)
  fresh_in-added ks k xs = elim (Bool-cases (contains ks k)) [
    | inl old ↦ rw old (ap (λ ys. ks ++ ys) (same_old xs old))
    | inr new ↦ rw new (
        append_assoc ks (k ∷ []) (fresh_in (ks ++ k ∷ []) xs)
        ∙ ap (λ ys. ks ++ k ∷ ys) (same_new xs))
  ]
    where
      same_old :
          (xs : List Text)
          → contains ks k ≡ true
          → fresh_in ks xs ≡ fresh_in ks (keep (λ y. not (k == y)) xs)
      same_old [] old = refl
      same_old (x ∷ xs) old = elim (Bool-cases (k == x)) [
        | inl here ↦
            let there : contains ks x ≡ true = rw (← (list_eq.is_equal_iff k x).0 here) old in
            rw (here, there) (same_old xs old)
        | inr other ↦ rw other (ground (arith, same_old xs old))
      ]

      same_new :
          (xs : List Text) → fresh_in (ks ++ k ∷ []) xs ≡ fresh_in ks (keep (λ y. not (k == y)) xs)
      same_new [] = refl
      same_new (x ∷ xs) = ground (arith, same_new xs, contains-append_one ks k x)

  keys-by_normalised :
      (m cs : IndexMap Text n.D)
      → keys (by_normalised n u m cs) ≡ keys m ++ fresh_in (keys m) (first_places (normal_names cs))
  unfolding by_normalised
  keys-by_normalised m [] = sym (append-nil (keys m))
  keys-by_normalised m ((k, d) ∷ cs) =
      keys-by_normalised (IndexMap.insert m (normalise u k) d) cs
      ∙ ap (λ ks. ks ++ fresh_in ks (first_places (normal_names cs)))
          (keys-insert m (normalise u k) d)
      ∙ fresh_in-added (keys m) (normalise u k) (first_places (normal_names cs))

  fresh_in-nil : (xs : List Text) → fresh_in [] xs ≡ xs
  fresh_in-nil [] = refl
  fresh_in-nil (x ∷ xs) = ap (λ ys. x ∷ ys) (fresh_in-nil xs)

  lacks : (x : Text) (xs : List Text) → contains (keep (λ y. not (x == y)) xs) x ≡ false
  lacks x [] = refl
  lacks x (y ∷ ys) = ground (arith, lacks x ys, ==_comm x y)

  first_places-Distinct : (xs : List Text) → Distinct (first_places xs)
  first_places-Distinct [] = tt
  first_places-Distinct (x ∷ xs) =
      (lacks x (first_places xs), keep-Distinct _ (first_places xs) (first_places-Distinct xs))

  -- However the coefficients are spelled: the columns of the rules that `new` builds are the
  -- metrics that have an extractor among the coefficients' names, without case and surrounding
  -- space, in the order in which each first occurs, and each once; and a metric's coefficient is
  -- the last one under a name that is the metric's but for case and surrounding space, and zero
  -- without one.
  pub new_rules_lem :
      (id : I64) (name : Text) (cs : IndexMap Text n.D)
      → let rules = new_rules n u id name cs in
        (rules.scored_metrics
          ≡ keep (λ m. is_some (MatchMetrics.get n u m)) (first_places (normal_names cs)))
        × Distinct rules.scored_metrics
        × ((metric : Text)
            → coefficient_of n u rules metric ≡ or_zero (last_of cs (normalise u metric)))
  unfolding new_rules coefficient_of
  new_rules_lem id name cs =
      let names : keys (by_normalised n u [] cs) ≡ first_places (normal_names cs) =
        keys-by_normalised [] cs ∙ fresh_in-nil (first_places (normal_names cs)) in
      (
        ap (keep (λ m. is_some (MatchMetrics.get n u m))) names,
        keep-Distinct (λ m. is_some (MatchMetrics.get n u m)) (keys (by_normalised n u [] cs))
            (rw names (first_places-Distinct (normal_names cs))),
        λ metric.
            elim_zero (IndexMap.get (by_normalised n u [] cs) (normalise u metric))
              (last_of cs (normalise u metric)) (get-by_normalised [] cs (normalise u metric)),
      )
    where
      elim_zero : (o l : Option n.D) → o ≡ or_before l none → or_decimal_zero n u o ≡ or_zero l
      elim_zero o none h = rw h refl
      elim_zero o (some d) h = rw h refl
