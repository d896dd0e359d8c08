-- ===== src/MatchPolicy/Report.antt =====
-- `validate_expecting` reports exactly the rules that a submission does not satisfy.
use um_fantasy_league.Common.{
  ℕ, ◌≤◌, pos, I32, I64, wrap, int_eq, nat_eq, pair_eq, eqb, eqb_iff, eqb_ℤ_iff, ◌≤ℤ◌, leb_ℤ, Bool,
  true, false, not, ◌&&◌, List, [], ◌∷◌, keep, any, gather, is_empty, contains, count, All, All-iff,
  Distinct, length, list_beq, if◌then◌else◌, ◌≡◌, ◌≢◌, refl, ap, sym, ◌↔◌, ◌⊎◌, arith,
  any-false_iff, report_laws, to_list, length-map,
}
use um_fantasy_league.Common.IndexMap.{repeated, repeated-nil_iff}
use um_fantasy_league.Common.Orders.{leb_pair}
use um_fantasy_league.Common.Sorting.{sort, to_set, is_empty-to_set, length-to_set_iff, any-to_set}
use um_fantasy_league.MatchPolicy.Input.{
  MatchRule, MatchViolation, MatchGameParticipantInput, MatchGameInput, reports, place,
  map_not_in_pool, hero_not_in_pool, invalid_game_count, game_numbers_not_sequential,
  invalid_participant_count, invalid_game_participant_count, duplicate_hero, duplicate_ban,
  ban_side_invalid, duplicate_pick, banned_hero_played, banned_hero_drafted,
  played_hero_not_drafted, not_exactly_one_winner, loser_has_positive_health, unknown_hero,
  stat_name_malformed, duplicate_stat, stat_value_negative,
}
use um_fantasy_league.MatchPolicy.Stats.{scan_games, nothing_found}
use um_fantasy_league.MatchPolicy.StatLaws.{malformed-nil_iff, duplicated-nil_iff, negative-nil_iff}
use um_fantasy_league.MatchPolicy.Spec.{Submission, Satisfies, numbers, named_heroes}
use um_fantasy_league.MatchPolicy.Checks.{
  is_empty-keep, is_empty-game_numbers, duplicate_picks-nil_iff, undrafted-nil_iff, bad_side_iff,
  numbers_iff,
}
use um_fantasy_league.MatchPolicy.{
  up_to, game_numbers, row_ids, ban_heroes, played_heroes, drafted_heroes, game_count_message,
  is_bad_side, undrafted_rows, undrafted_plays, winners, has_surviving_loser, validate_expecting,
}

abbrev pub check_submission : Submission → List MatchViolation
check_submission s =
    validate_expecting s.unicode s.valid_map_ids s.valid_hero_ids s.pool_hero_ids s.participants
      s.games s.bans s.expected

-- The outcome of the check of each rule.
abbrev outcome : MatchRule → Submission → Bool
outcome map_not_in_pool s =
    not (is_empty (game_numbers (λ g. not (contains s.valid_map_ids g.map_id)) s.games))
outcome hero_not_in_pool s = not (
    is_empty (
      keep (λ h. not (contains s.pool_hero_ids h))
        (keep (contains s.valid_hero_ids) (to_set leb_ℤ (named_heroes s)))))
outcome invalid_game_count s = is_empty s.games
outcome game_numbers_not_sequential s =
    not (is_empty s.games)
    && not (list_beq (sort leb_ℤ (numbers s.games)) (up_to (wrap (pos (length s.games)))))
outcome invalid_participant_count s = not (eqb (length s.participants) s.expected)
outcome invalid_game_participant_count s =
    not (is_empty (game_numbers (λ g. not (eqb (length g.participants) s.expected)) s.games))
outcome duplicate_hero s = not (
    is_empty (
      game_numbers
        (λ g. not (eqb (length (to_set leb_ℤ (row_ids g.participants))) (length g.participants)))
        s.games))
outcome duplicate_ban s = not (is_empty (to_set leb_ℤ (repeated (ban_heroes s.bans))))
outcome ban_side_invalid s = not (is_empty (keep is_bad_side s.bans))
outcome duplicate_pick s =
    not (is_empty (to_set leb_ℤ (gather (λ p. repeated p.drafted_hero_ids) s.participants)))
outcome banned_hero_played s =
    not (is_empty (to_set leb_ℤ (keep (contains (played_heroes s.games)) (ban_heroes s.bans))))
outcome banned_hero_drafted s =
    not (
      is_empty (to_set leb_ℤ (keep (contains (drafted_heroes s.participants)) (ban_heroes s.bans))))
outcome played_hero_not_drafted s = not (is_empty (undrafted_plays s.participants s.games))
outcome not_exactly_one_winner s =
    not (is_empty (game_numbers (λ g. not (eqb (winners g.participants) 1)) s.games))
outcome loser_has_positive_health s =
    not (is_empty (game_numbers (λ g. has_surviving_loser g.participants) s.games))
outcome unknown_hero s =
    not (is_empty (keep (λ h. not (contains s.valid_hero_ids h)) (to_set leb_ℤ (named_heroes s))))
outcome stat_name_malformed s =
    not (is_empty (scan_games s.unicode nothing_found s.games).malformed)
outcome duplicate_stat s = not (is_empty (scan_games s.unicode nothing_found s.games).duplicated)
outcome stat_value_negative s = not (is_empty (scan_games s.unicode nothing_found s.games).negative)

reports-game_count :
    (r : MatchRule) (games : List MatchGameInput)
    → reports r (to_list (game_count_message games)) ≡ elim r [
      | invalid_game_count ↦ is_empty games
      | game_numbers_not_sequential ↦
          not (is_empty games)
          && not (list_beq (sort leb_ℤ (numbers games)) (up_to (wrap (pos (length games)))))
      | _ ↦ false
    ]
reports-game_count invalid_game_count [] = refl
reports-game_count invalid_game_count (g ∷ gs) = ground arith
reports-game_count game_numbers_not_sequential [] = refl
reports-game_count game_numbers_not_sequential (g ∷ gs) = ground arith
reports-game_count r [] = refl
reports-game_count r (g ∷ gs) = ground arith

reports-outcome : (r : MatchRule) (s : Submission) → reports r (check_submission s) ≡ outcome r s
unfolding validate_expecting
reports-outcome map_not_in_pool s = simp (report_laws, reports-game_count map_not_in_pool s.games)
reports-outcome r s = simp (report_laws, reports-game_count r s.games)

-- The shapes that the checks share.
by_games :
    (p : MatchGameInput → Bool) (Q : MatchGameInput → Type 0) (games : List MatchGameInput)
    → ((g : MatchGameInput) → (p g ≡ false) ↔ Q g)
    → (not (is_empty (game_numbers p games)) ≡ false) ↔ All Q games
by_games p Q games f =
    let each = any-false_iff p games in
    let all = All-iff f games in rw (is_empty-game_numbers p games) (not-not-false each all)
  where
    not-not-false : {B C : Type 0} {b : Bool} → (b ≡ false) ↔ B → B ↔ C → (not (not b) ≡ false) ↔ C
    not-not-false {b = b} h k = (λ e. k.0 (h.0 (ground arith)), λ c. rw (h.1 (k.1 c)))

not-is_empty-keep {ℓ} :
    {A : Type ℓ} (p : A → Bool) (xs : List A)
    → (not (is_empty (keep p xs)) ≡ false) ↔ All (λ x. p x ≡ false) xs
not-is_empty-keep p xs = rw (is_empty-keep p xs) (ground (arith, any-false_iff p xs))

by_set :
    (p : I64 → Bool) (xs : List I64)
    → (not (is_empty (to_set leb_ℤ (keep p xs))) ≡ false) ↔ All (λ x. p x ≡ false) xs
by_set p xs = rw (is_empty-to_set leb_ℤ (keep p xs)) (not-is_empty-keep p xs)

of_set :
    (p : I64 → Bool) (xs : List I64)
    → (not (is_empty (keep p (to_set leb_ℤ xs))) ≡ false) ↔ All (λ x. p x ≡ false) xs
of_set p xs =
    rw (is_empty-keep p (to_set leb_ℤ xs), any-to_set leb_ℤ p xs)
      (ground (arith, any-false_iff p xs))

not_iff : {A : Type 0} {b : Bool} → (b ≡ true) ↔ A → (not b ≡ false) ↔ A
not_iff h = (λ e. h.0 (ground arith), λ a. rw (h.1 a))

survivors_iff :
    (rows : List MatchGameParticipantInput)
    → (has_surviving_loser rows ≡ false)
      ↔ All (λ p. (p.is_winner ≡ true) ⊎ (p.health_remaining ≤ℤ pos 0)) rows
survivors_iff [] = (λ _. tt, λ _. refl)
survivors_iff (p ∷ ps) = ground (arith, survivors_iff ps)

iff_trans : {A B C : Type 0} → A ↔ B → B ↔ C → A ↔ C
iff_trans h k = (λ a. k.0 (h.0 a), λ c. h.1 (k.1 c))

filters-any :
    (p q : I64 → Bool) (xs : List I64)
    → is_empty (keep q (keep p xs)) ≡ not (any (λ x. p x && q x) xs)
filters-any p q [] = refl
filters-any p q (x ∷ xs) = ground (arith, filters-any p q xs)

passes_iff :
    (valid pool xs : List I64)
    → All (λ h. (contains valid h && not (contains pool h)) ≡ false) xs
      ↔ All (λ h. contains valid h ≡ true → contains pool h ≡ true) xs
passes_iff valid pool [] = (λ _. tt, λ _. tt)
passes_iff valid pool (x ∷ xs) = ground (arith, passes_iff valid pool xs)

-- Both filters over a set find nothing exactly if what passes the first passes the second.
two_filters :
    (valid pool : List I64) (xs : List I64)
    → (not (is_empty (keep (λ h. not (contains pool h)) (keep (contains valid) (to_set leb_ℤ xs))))
        ≡ false)
      ↔ All (λ h. contains valid h ≡ true → contains pool h ≡ true) xs
two_filters valid pool xs =
    let out = λ (h : I64). not (contains pool h) in
    rw
      (
        filters-any (contains valid) out (to_set leb_ℤ xs),
        any-to_set leb_ℤ (λ h. contains valid h && out h) xs,
      )
      (iff_trans (ground (arith, any-false_iff (λ h. contains valid h && out h) xs))
        (passes_iff valid pool xs))

sequential_iff :
    (games : List MatchGameInput)
    → length games ≤ 2_147_483_647
    → (not (is_empty games)
          && not (list_beq (sort leb_ℤ (numbers games)) (up_to (wrap (pos (length games)))))
        ≡ false)
      ↔ ((a : I32)
          → count a (numbers games)
            ≡ (if leb_ℤ (pos 1) a && leb_ℤ a (pos (length games)) then 1 else 0))
sequential_iff [] h = (λ _ a. ground arith, λ _. refl)
sequential_iff (g ∷ gs) h = not_iff (numbers_iff (g ∷ gs) h)

outcome_iff :
    (r : MatchRule) (s : Submission)
    → length s.games ≤ 2_147_483_647
    → (outcome r s ≡ false) ↔ Satisfies r s
unfolding undrafted_plays
outcome_iff map_not_in_pool s h = by_games _ _ s.games (λ g. ground arith)
outcome_iff hero_not_in_pool s h = two_filters s.valid_hero_ids s.pool_hero_ids (named_heroes s)
outcome_iff invalid_game_count s h = nonempty s.games
  where
    nonempty : (gs : List MatchGameInput) → (is_empty gs ≡ false) ↔ (gs ≢ [])
    nonempty [] = (λ e. cc, λ n. absurd (n refl))
    nonempty (g ∷ gs) = (λ _ e. cc, λ _. refl)
outcome_iff game_numbers_not_sequential s h = sequential_iff s.games h
outcome_iff invalid_participant_count s h = not_iff (eqb_iff (length s.participants) s.expected)
outcome_iff invalid_game_participant_count s h =
    by_games _ _ s.games (λ g. not_iff (eqb_iff (length g.participants) s.expected))
outcome_iff duplicate_hero s h = by_games _ _ s.games λ g.
    not_iff
      (distinct_iff (row_ids g.participants) (length g.participants) (length-map _ g.participants))
  where
    distinct_iff :
        (ids : List I64) (n : ℕ)
        → length ids ≡ n
        → (eqb (length (to_set leb_ℤ ids)) n ≡ true) ↔ Distinct ids
    distinct_iff ids n e = ground (arith, length-to_set_iff leb_ℤ ids)
outcome_iff duplicate_ban s h =
    rw (is_empty-to_set leb_ℤ (repeated (ban_heroes s.bans)))
      (not_iff (repeated-nil_iff (ban_heroes s.bans)))
outcome_iff ban_side_invalid s h =
    iff_trans (not-is_empty-keep is_bad_side s.bans) (All-iff bad_side_iff s.bans)
outcome_iff duplicate_pick s h =
    rw (is_empty-to_set leb_ℤ (gather (λ p. repeated p.drafted_hero_ids) s.participants))
      (not_iff (duplicate_picks-nil_iff s.participants))
outcome_iff banned_hero_played s h = by_set (contains (played_heroes s.games)) (ban_heroes s.bans)
outcome_iff banned_hero_drafted s h =
    by_set (contains (drafted_heroes s.participants)) (ban_heroes s.bans)
outcome_iff played_hero_not_drafted s h =
    rw
      (is_empty-to_set leb_pair
        (gather (λ g. undrafted_rows g.game_number s.participants g.participants) s.games))
      (not_iff (undrafted-nil_iff s.participants s.games))
outcome_iff not_exactly_one_winner s h =
    by_games _ _ s.games (λ g. not_iff (eqb_iff (winners g.participants) 1))
outcome_iff loser_has_positive_health s h = by_games _ _ s.games (λ g. survivors_iff g.participants)
outcome_iff unknown_hero s h =
    iff_trans (of_set (λ i. not (contains s.valid_hero_ids i)) (named_heroes s))
      (All-iff (λ i. ground arith) (named_heroes s))
outcome_iff stat_name_malformed s h = not_iff (malformed-nil_iff s.unicode s.games)
outcome_iff duplicate_stat s h = not_iff (duplicated-nil_iff s.unicode s.games)
outcome_iff stat_value_negative s h = not_iff (negative-nil_iff s.unicode s.games)

-- For a submission of at most 2^31 - 1 games, `validate_expecting` reports a rule exactly if the
-- submission does not satisfy it, for each of the nineteen rules: whatever else is wrong, none is left
-- out and none is added.
pub validate-reports_iff :
    (s : Submission)
    → length s.games ≤ 2_147_483_647
    → (r : MatchRule) → (reports r (check_submission s) ≡ false) ↔ Satisfies r s
validate-reports_iff s h r = rw (reports-outcome r s) (outcome_iff r s h)

-- Some rule names the first violation of a list.
reports-first : (v : MatchViolation) (vs : List MatchViolation) → reports v.rule (v ∷ vs) ≡ true
reports-first v vs = rw ((eqb_iff (place v.rule) (place v.rule)).1 refl)

-- A submission of at most 2^31 - 1 games is accepted, with no violation, exactly if it satisfies all of
-- the rules.
pub validate-nil_iff :
    (s : Submission)
    → length s.games ≤ 2_147_483_647
    → (check_submission s ≡ []) ↔ ((r : MatchRule) → Satisfies r s)
validate-nil_iff s h = (
  λ e r. (validate-reports_iff s h r).0 (ap (reports r) e),
  λ all. no_rule (check_submission s) (λ r. (validate-reports_iff s h r).1 (all r)),
)
  where
    no_rule : (vs : List MatchViolation) → ((r : MatchRule) → reports r vs ≡ false) → vs ≡ []
    no_rule [] f = refl
    no_rule (v ∷ vs) f = cc (f v.rule, reports-first v vs)

-- One of two rows won, and the other did not.
one_of_two :
    (p q : MatchGameParticipantInput) → winners (p ∷ q ∷ []) ≡ 1 → q.is_winner ≡ not p.is_winner
one_of_two p q h = ground arith

-- What the league's no-draw rule leaves of a game between two rows.
pub record IsDecided (p q : MatchGameParticipantInput) : Type 0 where
  pub winner : q.is_winner ≡ not p.is_winner
  pub loser_down :
      (p.is_winner ≡ false → p.health_remaining ≤ℤ pos 0)
      × (q.is_winner ≡ false → q.health_remaining ≤ℤ pos 0)
  pub differ : p.hero_id ≢ q.hero_id

-- Every game of an accepted series between two sides was decided: it has two rows, with different
-- heroes, of which one won and the other did not, and the one that did not win has no health left.
pub accepted_games :
    (s : Submission)
    → length s.games ≤ 2_147_483_647
    → s.expected ≡ 2
    → check_submission s ≡ []
    → All
        (λ (g : MatchGameInput).
          (p : MatchGameParticipantInput) × (q : MatchGameParticipantInput) × (g.participants
            ≡ p ∷ q ∷ [])
          × IsDecided p q)
        s.games
accepted_games s h two e =
    let ok = (validate-nil_iff s h).0 e in
    each s.games (ok invalid_game_participant_count) (ok not_exactly_one_winner)
      (ok loser_has_positive_health) (ok duplicate_hero)
  where
    decided :
        (rows : List MatchGameParticipantInput)
        → length rows ≡ s.expected
        → winners rows ≡ 1
        → All (λ p. (p.is_winner ≡ true) ⊎ (p.health_remaining ≤ℤ pos 0)) rows
        → Distinct (row_ids rows)
        → (p : MatchGameParticipantInput) × (q : MatchGameParticipantInput) × (rows ≡ p ∷ q ∷ [])
          × IsDecided p q
    decided [] n w l d = absurd (omega (arith, n, two))
    decided (p ∷ []) n w l d = absurd (omega (arith, n, two))
    decided (p ∷ (q ∷ [])) n w l d = (
      p,
      q,
      refl,
      record {
        winner = one_of_two p q w;
        loser_down = (ground arith, ground arith);
        differ = λ e. ground (arith, (eqb_ℤ_iff q.hero_id p.hero_id).1 (sym e));
      },
    )
    decided (p ∷ (q ∷ (r ∷ rows))) n w l d = absurd (omega (arith, n, two))

    each :
        (games : List MatchGameInput)
        → All (λ g. length g.participants ≡ s.expected) games
        → All (λ g. winners g.participants ≡ 1) games
        → All
            (λ g. All (λ p. (p.is_winner ≡ true) ⊎ (p.health_remaining ≤ℤ pos 0)) g.participants)
            games
        → All (λ g. Distinct (row_ids g.participants)) games
        → All
            (λ (g : MatchGameInput).
              (p : MatchGameParticipantInput) × (q : MatchGameParticipantInput) × (g.participants
                ≡ p ∷ q ∷ [])
              × IsDecided p q)
            games
    each [] n w l d = tt
    each (g ∷ gs) n w l d = (decided g.participants n.0 w.0 l.0 d.0, each gs n.1 w.1 l.1 d.1)
