-- ===== src/MatchPolicy/StatLaws.antt =====
-- What the three nested loops over the stats find.
use um_fantasy_league.Common.{
  pos, I32, int_eq, nat_eq, list_eq, Eq, ◌==◌, ◌≤ℤ◌, ltb_ℤ, Bool, true, false, not, ◌&&◌, ◌||◌,
  List, [], ◌∷◌, ◌++◌, is_empty, contains, note, All, Distinct, ◌≡◌, refl, ◌↔◌, arith, ==_comm,
}
use um_fantasy_league.Common.Text.{Text}
use um_fantasy_league.Common.IndexMap.{IndexMap}
use um_fantasy_league.Unicode.{Unicode}
use um_fantasy_league.RosterRoles.{normalise_stat, is_well_formed_stat}
use um_fantasy_league.MatchPolicy.Input.{MatchGameParticipantInput, MatchGameInput}
use um_fantasy_league.MatchPolicy.Stats.{Found, scan_stats, scan_rows, scan_games, nothing_found}
use um_fantasy_league.MatchPolicy.Spec.{stat_names}

is_empty-note {ℓ} :
    {A : Type ℓ} ⦃e : Eq A⦄ (b : Bool) (found : List A) (x : A)
    → is_empty (note b found x) ≡ (is_empty found && not b)
is_empty-note b [] x = ground arith
is_empty-note b (y ∷ ys) x = ground arith

module _ (u : Unicode) where
  -- What is seen so far, and the names that follow.
  abbrev NamesFresh : List Text → List Text → Type 0
  NamesFresh seen names = All (λ m. contains seen m ≡ false) names

  contains-snoc :
      (seen : List Text) (x m : Text) → contains (seen ++ x ∷ []) m ≡ (contains seen m || x == m)
  contains-snoc [] x m = ground arith
  contains-snoc (y ∷ ys) x m = ground (arith, contains-snoc ys x m)

  NamesFresh-snoc :
      (seen : List Text) (x : Text) (names : List Text)
      → NamesFresh (seen ++ x ∷ []) names ↔ (NamesFresh seen names × (contains names x ≡ false))
  NamesFresh-snoc seen x [] = ground arith
  NamesFresh-snoc seen x (m ∷ ms) =
      ground (arith, NamesFresh-snoc seen x ms, contains-snoc seen x m, ==_comm x m)

  -- The three verdicts on one hero's stats.
  malformed-scan_stats :
      (number : I32) (seen : List Text) (f : Found) (stats : IndexMap Text I32)
      → (is_empty (scan_stats u number seen f stats).malformed ≡ true) ↔ (
          (is_empty f.malformed ≡ true)
          × All (λ m. is_well_formed_stat m ≡ true) (stat_names u stats))
  unfolding scan_stats
  malformed-scan_stats number seen f [] = ground arith
  malformed-scan_stats number seen f ((stat, value) ∷ stats) =
      let name = normalise_stat u stat in
      let bad = not (is_well_formed_stat name) in
      let f' : Found = record {
        malformed = note bad f.malformed name;
        duplicated = note (contains seen name) f.duplicated number;
        negative = note (ltb_ℤ value (pos 0)) f.negative number;
      } in
      ground (
        arith,
        malformed-scan_stats number (seen ++ name ∷ []) f' stats,
        is_empty-note bad f.malformed name,
      )

  duplicated-scan_stats :
      (number : I32) (seen : List Text) (f : Found) (stats : IndexMap Text I32)
      → (is_empty (scan_stats u number seen f stats).duplicated ≡ true) ↔ (
          (is_empty f.duplicated ≡ true)
          × Distinct (stat_names u stats)
          × NamesFresh seen (stat_names u stats))
  unfolding scan_stats
  duplicated-scan_stats number seen f [] = ground arith
  duplicated-scan_stats number seen f ((stat, value) ∷ stats) =
      let name = normalise_stat u stat in
      let f' : Found = record {
        malformed = note (not (is_well_formed_stat name)) f.malformed name;
        duplicated = note (contains seen name) f.duplicated number;
        negative = note (ltb_ℤ value (pos 0)) f.negative number;
      } in
      ground (
        arith,
        duplicated-scan_stats number (seen ++ name ∷ []) f' stats,
        is_empty-note (contains seen name) f.duplicated number,
        NamesFresh-snoc seen name (stat_names u stats),
      )

  negative-scan_stats :
      (number : I32) (seen : List Text) (f : Found) (stats : IndexMap Text I32)
      → (is_empty (scan_stats u number seen f stats).negative ≡ true)
        ↔ ((is_empty f.negative ≡ true) × All (λ e. pos 0 ≤ℤ e.1) stats)
  unfolding scan_stats
  negative-scan_stats number seen f [] = ground arith
  negative-scan_stats number seen f ((stat, value) ∷ stats) =
      let name = normalise_stat u stat in
      let below = ltb_ℤ value (pos 0) in
      let f' : Found = record {
        malformed = note (not (is_well_formed_stat name)) f.malformed name;
        duplicated = note (contains seen name) f.duplicated number;
        negative = note below f.negative number;
      } in
      ground (
        arith,
        negative-scan_stats number (seen ++ name ∷ []) f' stats,
        is_empty-note below f.negative number,
      )

  NamesFresh-nil : (names : List Text) → NamesFresh [] names
  NamesFresh-nil [] = tt
  NamesFresh-nil (m ∷ ms) = (refl, NamesFresh-nil ms)

  -- One of the three vectors, with what it says of a hero's stats.
  record IsVerdict (ok : Found → Bool) (Fine : IndexMap Text I32 → Type 0) : Type 0 where
    at :
        (number : I32) (f : Found) (stats : IndexMap Text I32)
        → (ok (scan_stats u number [] f stats) ≡ true) ↔ ((ok f ≡ true) × Fine stats)

  module _ (ok : Found → Bool) (Fine : IndexMap Text I32 → Type 0) (v : IsVerdict ok Fine) where
    verdict-rows :
        (number : I32) (f : Found) (rows : List MatchGameParticipantInput)
        → (ok (scan_rows u number f rows) ≡ true)
          ↔ ((ok f ≡ true) × All (λ (p : MatchGameParticipantInput). Fine p.stats) rows)
    unfolding scan_rows
    verdict-rows number f [] = (λ h. (h, tt), λ h. h.0)
    verdict-rows number f (p ∷ ps) =
        ground
          (arith, verdict-rows number (scan_stats u number [] f p.stats) ps, v.at number f p.stats)

    verdict-games :
        (f : Found) (games : List MatchGameInput)
        → (ok (scan_games u f games) ≡ true) ↔ (
            (ok f ≡ true)
            × All
                (λ (g : MatchGameInput).
                  All (λ (p : MatchGameParticipantInput). Fine p.stats) g.participants)
                games)
    unfolding scan_games
    verdict-games f [] = (λ h. (h, tt), λ h. h.0)
    verdict-games f (g ∷ gs) = ground (
      arith,
      verdict-games (scan_rows u g.game_number f g.participants) gs,
      verdict-rows g.game_number f g.participants,
    )

  pub malformed-nil_iff :
      (games : List MatchGameInput)
      → (is_empty (scan_games u nothing_found games).malformed ≡ true)
        ↔ All
            (λ (g : MatchGameInput).
              All
                (λ (p : MatchGameParticipantInput).
                  All (λ m. is_well_formed_stat m ≡ true) (stat_names u p.stats))
                g.participants)
            games
  malformed-nil_iff games =
      let v =
        verdict-games (λ f. is_empty f.malformed)
          (λ stats. All (λ m. is_well_formed_stat m ≡ true) (stat_names u stats))
          (record { at = λ number f stats. malformed-scan_stats number [] f stats }) nothing_found
          games in
      (λ h. (v.0 h).1, λ h. v.1 (refl, h))

  pub duplicated-nil_iff :
      (games : List MatchGameInput)
      → (is_empty (scan_games u nothing_found games).duplicated ≡ true)
        ↔ All
            (λ (g : MatchGameInput).
              All
                (λ (p : MatchGameParticipantInput). Distinct (stat_names u p.stats))
                g.participants)
            games
  duplicated-nil_iff games =
      let v =
        verdict-games (λ f. is_empty f.duplicated) (λ stats. Distinct (stat_names u stats))
          (record { at = λ number f stats. duplicated-once number f stats }) nothing_found games in
      (λ h. (v.0 h).1, λ h. v.1 (refl, h))
    where
      duplicated-once :
          (number : I32) (f : Found) (stats : IndexMap Text I32)
          → (is_empty (scan_stats u number [] f stats).duplicated ≡ true)
            ↔ ((is_empty f.duplicated ≡ true) × Distinct (stat_names u stats))
      duplicated-once number f stats =
          let d = duplicated-scan_stats number [] f stats in
          (λ h. ((d.0 h).0, (d.0 h).1), λ h. d.1 (h.0, h.1, NamesFresh-nil (stat_names u stats)))

  pub negative-nil_iff :
      (games : List MatchGameInput)
      → (is_empty (scan_games u nothing_found games).negative ≡ true)
        ↔ All
            (λ (g : MatchGameInput).
              All
                (λ (p : MatchGameParticipantInput). All (λ e. pos 0 ≤ℤ e.1) p.stats)
                g.participants)
            games
  negative-nil_iff games =
      let v =
        verdict-games (λ f. is_empty f.negative) (λ stats. All (λ e. pos 0 ≤ℤ e.1) stats)
          (record { at = λ number f stats. negative-scan_stats number [] f stats }) nothing_found
          games in
      (λ h. (v.0 h).1, λ h. v.1 (refl, h))
