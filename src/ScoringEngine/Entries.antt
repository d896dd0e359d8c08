-- ===== src/ScoringEngine/Entries.antt =====
-- The loop of `breakdown`: the entries that it makes, and their order.
use um_fantasy_league.Common.{
  nat_eq, list_eq, ◌==◌, true, false, Option, none, some, List, [], ◌∷◌, ◌++◌, keep, contains,
  Distinct, All, if◌then◌else◌, ◌≡◌, refl, ap, sym, ◌∙◌, arith, Bool-cases, Option-cases, inl, inr,
  ==_comm,
}
use um_fantasy_league.Common.Text.{Text}
use um_fantasy_league.Common.IndexMap
use um_fantasy_league.Common.IndexMap.{
  IndexMap, keys, values, get-insert, contains-keys-insert, insert-Distinct, insert-fresh,
}
use um_fantasy_league.Unicode.{Unicode}
use um_fantasy_league.Numbers.{Numbers}
use um_fantasy_league.MatchResult.{MetricContext}
use um_fantasy_league.ScoringEngine.{
  ScoringRules, is_some, contribution, record_points, breakdown_from, breakdown,
}
use mathlib.Core.List.{append_assoc, append-nil}

module _ (n : Numbers) (u : Unicode) where
  module _ (c : MetricContext) (rules : ScoringRules n.D) where
    abbrev or_else : Option n.F → Option n.F → Option n.F
    or_else none o = o
    or_else (some p) o = some p

    get-record_points :
        (result : IndexMap Text n.F) (m k : Text) (o : Option n.F)
        → IndexMap.get (record_points n u result m o) k
          ≡ (if m == k then or_else o (IndexMap.get result k) else IndexMap.get result k)
    get-record_points result m k none = ground arith
    get-record_points result m k (some p) = ground (arith, get-insert result m k p)

    contribution_congr :
        (m k : Text) → (m == k) ≡ true → contribution n u c rules m ≡ contribution n u c rules k
    contribution_congr m k h = ap (contribution n u c rules) ((list_eq.is_equal_iff m k).0 h)

    or_else_idem : (a b : Option n.F) → or_else a (or_else a b) ≡ or_else a b
    or_else_idem none b = refl
    or_else_idem (some p) b = refl

    or_else_right : (a : Option n.F) → or_else a none ≡ a
    or_else_right none = refl
    or_else_right (some p) = refl

    get-breakdown_from :
        (result : IndexMap Text n.F) (ms : List Text) (k : Text)
        → IndexMap.get (breakdown_from n u result c rules ms) k ≡ (
            if contains ms k
            then or_else (contribution n u c rules k) (IndexMap.get result k)
            else IndexMap.get result k)
    unfolding breakdown_from
    get-breakdown_from result [] k = refl
    get-breakdown_from result (m ∷ ms) k =
        let o = contribution n u c rules m in
        get-breakdown_from (record_points n u result m o) ms k
        ∙ rw (get-record_points result m k o) (elim (Bool-cases (m == k)) [
          | inl same ↦
              rw (same, contribution_congr m k same)
                (ground (arith, or_else_idem (contribution n u c rules k) (IndexMap.get result k)))
          | inr differ ↦ rw differ
        ])

    -- The metrics that contribute, in their order.
    abbrev pub earned : List Text → List Text
    earned ms = keep (λ m. is_some (contribution n u c rules m)) ms

    keys-append : (xs ys : IndexMap Text n.F) → keys (xs ++ ys) ≡ keys xs ++ keys ys
    keys-append [] ys = refl
    keys-append (x ∷ xs) ys = ap (◌∷◌ x.0) (keys-append xs ys)

    abbrev AllFresh : IndexMap Text n.F → List Text → Type 0
    AllFresh result ms = All (λ m. contains (keys result) m ≡ false) ms

    AllFresh-insert :
        (result : IndexMap Text n.F) (m : Text) (p : n.F) (ms : List Text)
        → contains ms m ≡ false
        → AllFresh result ms
        → AllFresh (IndexMap.insert result m p) ms
    AllFresh-insert result m p [] h f = tt
    AllFresh-insert result m p (k ∷ ks) h f =
        ground
          (arith, contains-keys-insert result m k p, AllFresh-insert result m p ks, ==_comm m k)

    keys-breakdown_from :
        (result : IndexMap Text n.F) (ms : List Text)
        → Distinct ms
        → AllFresh result ms
        → keys (breakdown_from n u result c rules ms) ≡ keys result ++ earned ms
    unfolding breakdown_from
    keys-breakdown_from result [] d f = sym (append-nil (keys result))
    keys-breakdown_from result (m ∷ ms) d f = elim (Option-cases (contribution n u c rules m)) [
      | inl e ↦ rw e (keys-breakdown_from result ms d.1 f.1)
      | inr (p, e) ↦ rw e (
          keys-breakdown_from (IndexMap.insert result m p) ms d.1
            (AllFresh-insert result m p ms d.0 f.1)
          ∙ ap (λ ks. ks ++ earned ms)
              (ap keys (insert-fresh result m p f.0) ∙ keys-append result ((m, p) ∷ []))
          ∙ append_assoc (keys result) (m ∷ []) (earned ms))
    ]

    AllFresh-nil : (ms : List Text) → AllFresh [] ms
    AllFresh-nil [] = tt
    AllFresh-nil (m ∷ ms) = (refl, AllFresh-nil ms)

    pub entries_lem :
        Distinct rules.scored_metrics
        → (keys (breakdown n u c rules) ≡ earned rules.scored_metrics)
          × ((k : Text)
              → IndexMap.get (breakdown n u c rules) k
                ≡ (if contains rules.scored_metrics k then contribution n u c rules k else none))
    unfolding breakdown
    entries_lem d = (
      keys-breakdown_from [] rules.scored_metrics d (AllFresh-nil rules.scored_metrics),
      λ k. get-breakdown_from [] rules.scored_metrics k ∙ or_else_none k,
    )
      where
        or_else_none :
            (k : Text)
            → (if contains rules.scored_metrics k
                then or_else (contribution n u c rules k) (IndexMap.get {K = Text} [] k)
                else IndexMap.get [] k)
              ≡ (if contains rules.scored_metrics k then contribution n u c rules k else none)
        or_else_none k = ground (arith, or_else_right (contribution n u c rules k))
