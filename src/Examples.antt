-- ===== src/Examples.antt =====
-- The theorems at concrete rosters, matches and submissions.
use um_fantasy_league.Common.{
  ◌+◌, ◌≤◌, ℤ, pos, ◌-ℤ◌, ◌+ℤ◌, I64, len_i32, int_eq, nat_eq, list_eq, true, false, not, ◌&&◌, ◌||◌,
  none, some, List, [], ◌∷◌, ◌++◌, All, length, contains, count, keep, map, Distinct, if◌then◌else◌,
  ◌≡◌, refl, ◌↔◌, inl, arith,
}
use um_fantasy_league.Common.IndexMap
use um_fantasy_league.Common.IndexMap.{IndexMap}
use um_fantasy_league.Common.Text.{Text, codes}
use um_fantasy_league.Unicode.{ascii, ascii-IsUnicode}
use um_fantasy_league.Numbers.{whole, whole-IsOrdered, zero_f}
use um_fantasy_league.Tournament.{Tournament, TournamentEntry, banquest, registration_open, draft}
use um_fantasy_league.RosterPolicy.{
  RosterPick, RosterRule, swap_allowance, heroes_changed, validate_lock, validate_swap,
  validate_draft, pick_ids,
}
use um_fantasy_league.RosterPolicy
use um_fantasy_league.RosterPolicy.Allowance.{
  swap_allowance_lem, swap_allowance_carries_over, heroes_changed-eq-leaving,
}
use um_fantasy_league.RosterPolicy.Draft.{IsDraftable, validate_draft-nil_iff}
use um_fantasy_league.RosterPolicy.Commit.{IsLockInput, Breaks, validate_lock-reports_iff}
use um_fantasy_league.RosterPolicy.Swap.{SwapBreaks, validate_swap-reports_iff}
use um_fantasy_league.RosterPolicy.Swap
use um_fantasy_league.RosterRoles.{
  RosterRole, RoleBook, validate_assignments, RoleAssignment, role_at, current_roles, role_bonus,
}
use um_fantasy_league.RosterRoles.Assignments.{IsAssignable, validate_with_book-nil_iff}
use um_fantasy_league.RosterRoles.InForce.{
  role_at-append_later, role_at-append_now, current_roles-eq-role_at, role_bonus_nonneg,
}
use um_fantasy_league.MatchResult.{
  MatchResult, GameResult, GameParticipantResult, MetricContext, hero_contexts, drafted_hero_ids,
  all_drafted, pre_ban, played,
}
use um_fantasy_league.MatchResult.Contexts.{
  hero_contexts_lem, drafted_hero_ids_lem, fielded_ids, ban_ids, stands, is_played, is_drafted,
  is_banned,
}
use um_fantasy_league.MatchMetrics
use um_fantasy_league.MatchMetrics.{
  win, loss, normalise, health_differential, health_differential_two_way,
}
use um_fantasy_league.MatchMetrics.Laws.{IsDuel, row, duel_metrics}
use um_fantasy_league.ScoringEngine.{ScoringRules, new_rules, breakdown, coefficient_of, is_some}
use um_fantasy_league.ScoringEngine.Laws.{IsPaid, breakdown_lem}
use um_fantasy_league.ScoringEngine.Rules.{
  first_places, normal_names, last_of, or_zero, new_rules_lem,
}
use um_fantasy_league.ScoringRuleSetPolicy.{is_well_formed, validate, ScoringCoefficientInput}
use um_fantasy_league.ScoringRuleSetPolicy.Laws.{normalise-well_formed, validate-nil_iff}
use um_fantasy_league.MatchPolicy.Input.{reports, hero_not_in_pool}
use um_fantasy_league.MatchPolicy.Spec.{Satisfies}
use um_fantasy_league.MatchPolicy.Spec
use um_fantasy_league.MatchPolicy.Report.{check_submission, validate-reports_iff}

abbrev pub two_picks : List RosterPick
two_picks =
    record { hero_id = pos 1; cost = pos 10 } ∷ record { hero_id = pos 2; cost = pos 15 } ∷ []

abbrev pub spring_cup : Tournament
spring_cup = record {
  id = some (pos 1);
  name = codes "Spring Cup";
  format = banquest;
  status = registration_open;
  start_date = pos 20_000;
  end_date = none;
  capacity = pos 8;
  roster_size = pos 2;
  credit_grant = pos 30;
  current_round = pos 1;
  swaps_per_round = pos 1;
  swap_window_open = true;
  roles_enabled = false;
}

abbrev pub ada : TournamentEntry
ada = record {
  id = some (pos 7);
  tournament_id = pos 1;
  manager_id = pos 3;
  status = draft;
  credit_grant = pos 30;
  registered_at = pos 0;
  locked_at = none;
  slots = [];
}

two_picks-IsLockInput : IsLockInput two_picks spring_cup ada
unfolding ◌+ℤ◌
two_picks-IsLockInput = record {
  size = omega arith;
  grant = omega arith;
  priced = record { nonneg = (omega arith, (omega arith, tt)); fits = omega arith };
}

validate_draft_example :
    (validate_draft two_picks spring_cup draft ≡ []) ↔ IsDraftable two_picks spring_cup draft
validate_draft_example = validate_draft-nil_iff two_picks spring_cup draft (omega arith)

validate_lock_example :
    (vs : List RosterPolicy.RosterViolation) × (validate_lock two_picks spring_cup ada ≡ some vs)
    × ((r : RosterRule) → (RosterPolicy.reports r vs ≡ true) ↔ Breaks r two_picks spring_cup ada)
validate_lock_example = validate_lock-reports_iff two_picks spring_cup ada two_picks-IsLockInput

abbrev trade : Swap.Submission
trade = record { current = pos 1 ∷ pos 3 ∷ []; proposed = two_picks; used = pos 0; already = false }

validate_swap_example :
    (vs : List RosterPolicy.RosterViolation) × (validate_swap trade.current trade.proposed
        spring_cup ada trade.used trade.already
      ≡ some vs)
    × ((r : RosterRule) → (RosterPolicy.reports r vs ≡ true) ↔ SwapBreaks r trade spring_cup ada)
validate_swap_example = validate_swap-reports_iff trade spring_cup ada two_picks-IsLockInput

swap_allowance_example : swap_allowance (pos 2) (pos 4) (pos 1) ≡ pos 5
swap_allowance_example = swap_allowance_lem 2 4 1 (omega arith) (omega arith)

carries_over_example :
    (swap_allowance (pos 2) (pos 3) (pos 1) ≡ pos 3)
    × (swap_allowance (pos 2) (pos 4) (pos 2) ≡ pos 4)
carries_over_example = swap_allowance_carries_over 2 2 1 1 (omega arith) (omega arith) (omega arith)

heroes_changed_example :
    heroes_changed (pos 1 ∷ pos 3 ∷ []) two_picks
    ≡ len_i32 (length (keep (λ h. not (contains (pick_ids two_picks) h)) (pos 1 ∷ pos 3 ∷ [])))
heroes_changed_example =
    heroes_changed-eq-leaving (pos 1 ∷ pos 3 ∷ []) two_picks (refl, (refl, tt)) (refl, (refl, tt))
      refl

abbrev pub role_log : List RoleAssignment
role_log = record { hero_id = pos 1; from_round = pos 1; role_id = pos 5 } ∷ []

abbrev reassigned : RoleAssignment
reassigned = record { hero_id = pos 1; from_round = pos 3; role_id = pos 6 }

role_at_later_example :
    role_at (role_log ++ reassigned ∷ []) (pos 1) (pos 2) ≡ role_at role_log (pos 1) (pos 2)
role_at_later_example = role_at-append_later role_log reassigned (pos 1) (pos 2) (inl (omega arith))

role_at_now_example : role_at (role_log ++ reassigned ∷ []) (pos 1) (pos 4) ≡ some (pos 6)
role_at_now_example = role_at-append_now role_log reassigned (pos 4) (omega arith) (omega arith, tt)

current_roles_example :
    IndexMap.get (current_roles role_log) (pos 1) ≡ role_at role_log (pos 1) (pos 2)
current_roles_example = current_roles-eq-role_at role_log (pos 1) (pos 2) (omega arith, tt)

abbrev skirmisher : RosterRole ℤ
skirmisher = record {
  id = pos 5;
  name = codes "Skirmisher";
  max_per_roster = none;
  weights = (codes "HITS", pos 2) ∷ [];
}

role_bonus_example :
    whole.lt (role_bonus whole skirmisher ((codes "HITS", pos 3) ∷ [])) (zero_f whole) ≡ false
role_bonus_example = role_bonus_nonneg whole skirmisher ((codes "HITS", pos 3) ∷ []) whole-IsOrdered

win_is_well_formed : is_well_formed (codes "WIN") ≡ true
unfolding is_well_formed
win_is_well_formed = refl

normalise_example : normalise ascii (codes "WIN") ≡ codes "WIN"
normalise_example = normalise-well_formed ascii ascii-IsUnicode (codes "WIN") win_is_well_formed

abbrev pub sent : Spec.Submission
sent = record {
  unicode = ascii;
  valid_map_ids = pos 1 ∷ [];
  valid_hero_ids = pos 1 ∷ pos 2 ∷ [];
  pool_hero_ids = pos 1 ∷ pos 2 ∷ [];
  participants =
      record { player_label = none; drafted_hero_ids = pos 1 ∷ [] }
      ∷ record { player_label = none; drafted_hero_ids = pos 2 ∷ [] }
      ∷ [];
  games =
      record {
        game_number = pos 1;
        map_id = pos 1;
        participants =
            record { hero_id = pos 1; health_remaining = pos 4; is_winner = true; stats = [] }
            ∷ record { hero_id = pos 2; health_remaining = pos 0; is_winner = false; stats = [] }
            ∷ [];
      }
      ∷ [];
  bans = [];
  expected = 2;
}

validate_example :
    (reports hero_not_in_pool (check_submission sent) ≡ false) ↔ Satisfies hero_not_in_pool sent
validate_example = validate-reports_iff sent (omega arith) hero_not_in_pool

abbrev pub winner_row : GameParticipantResult
winner_row = record {
  side = pos 0;
  hero_id = pos 1;
  hero_name = codes "A";
  health_remaining = pos 4;
  is_winner = true;
  stats = [];
}

abbrev loser_row : GameParticipantResult
loser_row = record {
  side = pos 1;
  hero_id = pos 2;
  hero_name = codes "B";
  health_remaining = pos 0;
  is_winner = false;
  stats = [];
}

abbrev pub only_game : GameResult
only_game = record {
  game_id = pos 1;
  game_number = pos 1;
  map_id = pos 1;
  map_name = codes "M";
  participants = winner_row ∷ loser_row ∷ [];
}

abbrev pub recorded : MatchResult
recorded = record {
  match_id = pos 1;
  tournament_id = pos 1;
  round = pos 1;
  played_at = pos 0;
  external_link = codes "L";
  participants =
      record {
        side = pos 0;
        player_label = none;
        drafted_heroes = record { hero_id = pos 1; hero_name = codes "A" } ∷ [];
      }
      ∷ [];
  games = only_game ∷ [];
  bans = record { hero_id = pos 3; hero_name = codes "C"; ban_type = pre_ban; side = none } ∷ [];
}

hero_contexts_example :
    let fielded = contains (fielded_ids recorded.games) (pos 1) in
    let struck = contains (ban_ids recorded.bans) (pos 1) in
    let taken = contains (all_drafted recorded.participants) (pos 1) in
    (stands is_played (pos 1) (hero_contexts recorded) ≡ count (pos 1) (fielded_ids recorded.games))
    × (stands is_drafted (pos 1) (hero_contexts recorded)
        ≡ (if taken && (fielded || not struck) then 1 else 0))
    × (stands is_banned (pos 1) (hero_contexts recorded) ≡ (if struck && not fielded then 1 else 0))
    × (stands is_drafted (pos 1) (hero_contexts recorded)
          + stands is_banned (pos 1) (hero_contexts recorded)
        ≤ 1)
hero_contexts_example = hero_contexts_lem recorded (pos 1)

drafted_hero_ids_example :
    Distinct (drafted_hero_ids recorded)
    × ((h : I64)
        → contains (drafted_hero_ids recorded) h ≡ contains (all_drafted recorded.participants) h)
drafted_hero_ids_example = drafted_hero_ids_lem recorded

recorded-IsDuel : IsDuel only_game winner_row loser_row
unfolding ◌-ℤ◌
recorded-IsDuel = record {
  rows = refl;
  differ = ground arith;
  decided = refl;
  gap = (omega arith, omega arith);
  gap_back = (omega arith, omega arith);
}

duel_metrics_example :
    let a = row recorded only_game winner_row in
    let b = row recorded only_game loser_row in
    let gap = pos 4 -ℤ pos 0 in
    (win whole a ≡ loss whole b)
    × (loss whole a ≡ win whole b)
    × (health_differential_two_way whole a ≡ whole.of_i32 gap)
    × (health_differential_two_way whole b ≡ whole.of_i32 (pos 0 -ℤ gap))
    × (health_differential whole a ≡ whole.of_i32 gap)
    × (health_differential whole b ≡ zero_f whole)
duel_metrics_example = duel_metrics whole recorded only_game winner_row loser_row recorded-IsDuel

abbrev pub win_rules : ScoringRules ℤ
win_rules = record {
  rule_set_id = pos 1;
  name = codes "Standard";
  coefficients = (codes "WIN", pos 3) ∷ [];
  by_metric = (codes "WIN", pos 3) ∷ [];
  scored_metrics = codes "WIN" ∷ [];
  unknown_metrics = [];
}

-- The last spelling of a name prices the one column that the two names share.
abbrev spellings : IndexMap Text ℤ
spellings = (codes "win", pos 3) ∷ (codes " Win ", pos 4) ∷ []

new_rules_example :
    let rules = new_rules whole ascii (pos 1) (codes "Standard") spellings in
    (rules.scored_metrics
      ≡ keep
          (λ m. is_some (MatchMetrics.get whole ascii m))
          (first_places whole ascii (normal_names whole ascii spellings)))
    × Distinct rules.scored_metrics
    × ((metric : Text)
        → coefficient_of whole ascii rules metric
          ≡ or_zero whole ascii (last_of whole ascii spellings (normalise ascii metric)))
new_rules_example = new_rules_lem whole ascii (pos 1) (codes "Standard") spellings

abbrev win_input : List (ScoringCoefficientInput ℤ)
win_input = record { metric = codes "WIN"; coefficient = pos 3; sort_order = pos 1 } ∷ []

validate_names_example :
    let names = map (λ (c : ScoringCoefficientInput ℤ). normalise ascii c.metric) win_input in
    (validate ascii win_input ≡ []) ↔ (All (λ m. is_well_formed m ≡ true) names × Distinct names)
validate_names_example = validate-nil_iff ascii win_input

abbrev pub win_context : MetricContext
win_context = record {
  match_result = recorded;
  hero_id = pos 1;
  role = played only_game winner_row;
}

breakdown_example :
    let rules = new_rules whole ascii (pos 1) (codes "Standard") spellings in
    let paid = breakdown whole ascii win_context rules in
    (IndexMap.keys paid ≡ keep (λ m. is_some (IndexMap.get paid m)) rules.scored_metrics)
    × ((k : Text) (p : ℤ)
        → (IndexMap.get paid k ≡ some p) ↔ (
            (contains rules.scored_metrics k ≡ true)
            × IsPaid whole ascii win_context
                (or_zero whole ascii (last_of whole ascii spellings (normalise ascii k)))
                k
                p))
breakdown_example = breakdown_lem whole ascii win_context (pos 1) (codes "Standard") spellings

abbrev small_book : RoleBook ℤ
small_book = record { roles = (pos 5, skirmisher) ∷ [] }

assignments_example :
    (validate_assignments (pos 1 ∷ []) ((pos 1, pos 5) ∷ []) (some small_book) (pos 1 ∷ []) true
      ≡ [])
    ↔ IsAssignable (pos 1 ∷ []) ((pos 1, pos 5) ∷ []) small_book (pos 1 ∷ []) true
assignments_example =
    validate_with_book-nil_iff (pos 1 ∷ []) ((pos 1, pos 5) ∷ []) small_book (pos 1 ∷ []) true
