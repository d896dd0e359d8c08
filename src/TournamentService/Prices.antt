-- ===== src/TournamentService/Prices.antt =====
-- When the heroes of a submission have prices in the pool that they are resolved in.
use um_fantasy_league.Common.{
  I64, int_eq, true, false, Option, none, some, List, [], ◌∷◌, keep, find, All, ◌≡◌, refl, ◌∙◌, ap,
  sym, subst, inl, inr, Bool-cases, Option-cases, eqb_ℤ_iff,
}
use um_fantasy_league.Tournament.{Tournament}
use um_fantasy_league.RosterPolicy.{RosterPick}
use um_fantasy_league.Common.Sorting.{sort}
use um_fantasy_league.RosterRoles.{dedup}
use um_fantasy_league.TournamentService.{
  ok, or_err, panicked, Store, has_id, price_in, is_unpriced, picks_of, resolve_picks,
  unknown_violations,
}
use um_fantasy_league.TournamentService.Outcomes.{bind-ok, or_err-ok, refuse-ok}

some-inj : {a b : I64} → some a ≡ some b → a ≡ b
some-inj h = cc

pub find-has_id :
    (id : I64) (ts : List Tournament) (t : Tournament)
    → find (λ (t : Tournament). has_id id t.id) ts ≡ some t
    → t.id ≡ some id
find-has_id id [] t h = cc
find-has_id id (t' ∷ ts) t h = elim (Bool-cases (has_id id t'.id)) [
  | inl here ↦
      let same : some t' ≡ some t = rw here at h in has_id-some (t'.id) (t.id) here (inner same)
  | inr later ↦ find-has_id id ts t (rw later at h)
]
  where
    inner : {a b : Tournament} → some a ≡ some b → a.id ≡ b.id
    inner h = cc

    has_id-some : (o p : Option I64) → has_id id o ≡ true → o ≡ p → p ≡ some id
    has_id-some none p h e = absurd cc
    has_id-some (some other) p h e = sym e ∙ ap some ((eqb_ℤ_iff other id).0 h)

module _ {D : Type 0} where
  picks_of-priced :
      (s : Store D) (tournament_id : I64) (ids : List I64) (picks : List RosterPick)
      → picks_of s tournament_id ids ≡ ok picks
      → All (λ h. is_unpriced s tournament_id h ≡ false) ids
  unfolding picks_of
  picks_of-priced s t [] picks h = tt
  picks_of-priced s t (id ∷ ids) picks h =
      let cost = bind-ok (or_err panicked (price_in s t id)) _ picks h in
      let rest = bind-ok (picks_of s t ids) _ picks cost.2 in
      let priced = or_err-ok panicked (price_in s t id) cost.0 cost.1 in
      (rw (is_unpriced, priced) refl, picks_of-priced s t ids rest.0 rest.1)

  priced-picks_of :
      (s : Store D) (tournament_id : I64) (ids : List I64)
      → All (λ h. is_unpriced s tournament_id h ≡ false) ids
      → (picks : List RosterPick) × (picks_of s tournament_id ids ≡ ok picks)
  unfolding picks_of
  priced-picks_of s t [] h = ([], refl)
  priced-picks_of s t (id ∷ ids) h = elim (Option-cases (price_in s t id)) [
    | inl missing ↦ let g = rw (is_unpriced, missing) at h.0 in absurd cc
    | inr (cost, priced) ↦
        let rest = priced-picks_of s t ids h.1 in
        (record { hero_id = id; cost = cost } ∷ rest.0, rw (priced, rest.1) refl)
  ]

  none_unpriced :
      (s : Store D) (tournament_id : I64) (ids : List I64)
      → All (λ h. is_unpriced s tournament_id h ≡ false) ids
      → keep (is_unpriced s tournament_id) ids ≡ []
  none_unpriced s t [] h = refl
  none_unpriced s t (id ∷ ids) h = rw (h.0) (none_unpriced s t ids h.1)

  pub resolve_picks-priced :
      (s : Store D) (t : Tournament) (tournament_id : I64) (ids : List I64)
      (picks : List RosterPick)
      → t.id ≡ some tournament_id
      → resolve_picks s t ids ≡ ok picks
      → All (λ h. is_unpriced s tournament_id h ≡ false) ids
  unfolding resolve_picks
  resolve_picks-priced s t tournament_id [] picks known h = tt
  resolve_picks-priced s t tournament_id (id ∷ ids) picks known h =
      let at = bind-ok (or_err panicked t.id) _ picks h in
      let same : at.0 ≡ tournament_id =
        some-inj (sym (or_err-ok panicked t.id at.0 at.1) ∙ known) in
      let clear = refuse-ok (unknown_violations s t.name at.0 (id ∷ ids)) _ picks at.2 in
      subst (λ i. All (λ h. is_unpriced s i h ≡ false) (id ∷ ids)) same
        (picks_of-priced s at.0 (id ∷ ids) picks clear.1)

  pub priced-resolve_picks :
      (s : Store D) (t : Tournament) (tournament_id : I64) (ids : List I64)
      → t.id ≡ some tournament_id
      → All (λ h. is_unpriced s tournament_id h ≡ false) ids
      → (picks : List RosterPick) × (resolve_picks s t ids ≡ ok picks)
  unfolding resolve_picks sort dedup
  priced-resolve_picks s t tournament_id [] known h = ([], refl)
  priced-resolve_picks s t tournament_id (id ∷ ids) known h =
      let found = priced-picks_of s tournament_id (id ∷ ids) h in
      (found.0, rw (known, none_unpriced s tournament_id (id ∷ ids) h) found.1)
