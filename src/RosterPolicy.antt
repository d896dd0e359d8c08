-- ===== src/RosterPolicy.antt =====
-- backend-rs/crates/umfl-domain/src/roster_policy.rs: the rules of a roster, as pure functions.
-- A message is the `format!` template's name with the values that the template interpolates.
pub mod Draft
pub mod Commit
pub mod Allowance
pub mod Swap
use um_fantasy_league.Common.{
  ℕ, ◌<◌, ◌≤◌, pos, I32, I64, ltb_ℤ, leb_ℤ, max_ℤ, add_i32, sub_i32, neg_i32, saturating_mul,
  len_i32, Bool, true, false, not, Option, none, some, List, [], ◌∷◌, ◌++◌, map, when, report,
  is_empty, keep, any, eqb, length, contains, Eq, ◌>>=◌, ◌>>◌, assert, if◌then◌else◌, String,
  int_eq,
}
use um_fantasy_league.Common.Text.{Text}
use um_fantasy_league.Common.IndexMap.{repeated}
use um_fantasy_league.Common.Sorting.{sort}
use um_fantasy_league.Tournament.{
  Tournament, TournamentStatus, TournamentEntry, EntryStatus, locked, entry_status_beq,
  accepts_roster_changes, accepts_swaps, is_locked,
}

pub data RosterRule : Type 0 where
  entry_locked tournament_closed too_many_picks incomplete_roster duplicate_hero unknown_hero
        budget_exceeded swap_window_closed swap_limit_exceeded already_swapped_this_round
        roles_disabled unknown_role role_hero_not_on_roster role_unassigned role_cap_exceeded
        role_change_closed :
      RosterRule

unfoldable pub as_str : RosterRule → String
as_str entry_locked = "ENTRY_LOCKED"
as_str tournament_closed = "TOURNAMENT_CLOSED"
as_str too_many_picks = "TOO_MANY_PICKS"
as_str incomplete_roster = "INCOMPLETE_ROSTER"
as_str duplicate_hero = "DUPLICATE_HERO"
as_str unknown_hero = "UNKNOWN_HERO"
as_str budget_exceeded = "BUDGET_EXCEEDED"
as_str swap_window_closed = "SWAP_WINDOW_CLOSED"
as_str swap_limit_exceeded = "SWAP_LIMIT_EXCEEDED"
as_str already_swapped_this_round = "ALREADY_SWAPPED_THIS_ROUND"
as_str roles_disabled = "ROLES_DISABLED"
as_str unknown_role = "UNKNOWN_ROLE"
as_str role_hero_not_on_roster = "ROLE_HERO_NOT_ON_ROSTER"
as_str role_unassigned = "ROLE_UNASSIGNED"
as_str role_cap_exceeded = "ROLE_CAP_EXCEEDED"
as_str role_change_closed = "ROLE_CHANGE_CLOSED"

-- The derived `==` of the rules compares their places.
abbrev pub place : RosterRule → ℕ
place entry_locked = 0
place tournament_closed = 1
place too_many_picks = 2
place incomplete_roster = 3
place duplicate_hero = 4
place unknown_hero = 5
place budget_exceeded = 6
place swap_window_closed = 7
place swap_limit_exceeded = 8
place already_swapped_this_round = 9
place roles_disabled = 10
place unknown_role = 11
place role_hero_not_on_roster = 12
place role_unassigned = 13
place role_cap_exceeded = 14
place role_change_closed = 15

-- The templates of this file, and those that `roster_roles.rs` and the server's tournament service put
-- into a `RosterViolation`.
pub data Message : Type 0 where
  selected_over : (selected size : I32) → Message
  selected_under : (size selected : I32) → Message
  repeated_heroes : (ids : List I64) → Message
  over_budget : (spent grant over : I32) → Message
  not_accepting_swaps : (name : Text) → Message
  lock_before_swapping : Message
  swap_already_used : (round : I32) → Message
  swapping_over : (requested available : I32) → Message
  roster_is_locked : Message
  no_longer_accepts : (name : Text) (status : TournamentStatus) → Message
  roles_not_used : Message
  no_such_roles : (ids : List I64) → Message
  one_role_each : (ids : List I64) → Message
  needs_a_role : (ids : List I64) → Message
  at_most : (cap : I32) (name : Text) (taken : I32) → Message
  no_heroes_for : (name : Text) (ids : List I64) → Message
  roles_need_a_window : Message
  rosters_are_frozen : (name : Text) (status : TournamentStatus) → Message

pub record RosterViolation : Type 0 where
  pub rule : RosterRule
  pub message : Message

abbrev pub violation : RosterRule → Message → RosterViolation
violation r m = record { rule = r; message = m }

-- A rule is among those that a validation reports.
abbrev pub reports : RosterRule → List RosterViolation → Bool
reports r = any (λ (v : RosterViolation). eqb (place v.rule) (place r))

-- The quotient of two `f64`, kept as its operands: no rule reads it.
pub record Utilisation : Type 0 where
  pub dividend : I32
  pub divisor : I32

pub record BudgetStatus : Type 0 where
  pub spent : I32
  pub credit_grant : I32
  pub remaining : I32
  pub utilisation : Utilisation

pub record RosterPick : Type 0 where
  pub hero_id : I64
  pub cost : I32

-- `iter().sum::<i32>()`
unfoldable pub sum_i32 : I32 → List I32 → I32
sum_i32 acc [] = acc
sum_i32 acc (c ∷ cs) = sum_i32 (add_i32 acc c) cs

abbrev pub pick_ids : List RosterPick → List I64
pick_ids picks = map (λ (p : RosterPick). p.hero_id) picks

abbrev pub pick_costs : List RosterPick → List I32
pick_costs picks = map (λ (p : RosterPick). p.cost) picks

abbrev pub budget_of : List RosterPick → I32 → BudgetStatus
budget_of picks credit_grant =
    let spent = sum_i32 (pos 0) (pick_costs picks) in
    record {
      spent = spent;
      credit_grant = credit_grant;
      remaining = sub_i32 credit_grant spent;
      utilisation = record { dividend = spent; divisor = credit_grant };
    }

-- `none` is the panic of the `assert!`.
unfoldable pub budget_status : List RosterPick → I32 → Option BudgetStatus
budget_status picks credit_grant = do
  assert (ltb_ℤ (pos 0) credit_grant)
  some (budget_of picks credit_grant)

-- `too_many_picks` and `incomplete_roster` of the source.
unfoldable pub check_too_many : List RosterPick → Tournament → Option RosterViolation
check_too_many picks t =
    let selected = len_i32 (length picks) in
    when (ltb_ℤ t.roster_size selected)
      (violation too_many_picks (selected_over selected t.roster_size))

unfoldable pub check_incomplete : List RosterPick → Tournament → Option RosterViolation
check_incomplete picks t =
    let selected = len_i32 (length picks) in
    when (ltb_ℤ selected t.roster_size)
      (violation incomplete_roster (selected_under t.roster_size selected))

unfoldable pub duplicate_heroes : List RosterPick → Option RosterViolation
duplicate_heroes picks =
    let duplicates = sort leb_ℤ (repeated (pick_ids picks)) in
    when (not (is_empty duplicates)) (violation duplicate_hero (repeated_heroes duplicates))

unfoldable pub mutability_violations : Tournament → EntryStatus → List RosterViolation
mutability_violations t s = report (
    when (entry_status_beq s locked) (violation entry_locked roster_is_locked)
    ∷ when (not (accepts_roster_changes t))
        (violation tournament_closed (no_longer_accepts t.name t.status))
    ∷ [])

unfoldable pub validate_draft : List RosterPick → Tournament → EntryStatus → List RosterViolation
validate_draft picks t s =
    mutability_violations t s ++ report (check_too_many picks t ∷ duplicate_heroes picks ∷ [])

-- The budget check of `validate_lock` and of `validate_swap`.
unfoldable pub check_budget : BudgetStatus → Option RosterViolation
check_budget b =
    when (ltb_ℤ b.credit_grant b.spent)
      (violation budget_exceeded (over_budget b.spent b.credit_grant (neg_i32 b.remaining)))

unfoldable pub validate_lock :
    List RosterPick → Tournament → TournamentEntry → Option (List RosterViolation)
validate_lock picks t entry = do
  budget ← budget_status picks entry.credit_grant
  some (
      validate_draft picks t entry.status
      ++ report (check_incomplete picks t ∷ check_budget budget ∷ []))

unfoldable pub swap_allowance : I32 → I32 → I32 → I32
swap_allowance swaps_per_round current_round swaps_used_total =
    let windows_offered = max_ℤ (sub_i32 current_round (pos 1)) (pos 0) in
    max_ℤ (sub_i32 (saturating_mul swaps_per_round windows_offered) swaps_used_total) (pos 0)

unfoldable pub heroes_changed : List I64 → List RosterPick → I32
heroes_changed current proposed =
    len_i32 (length (keep (λ (p : RosterPick). not (contains current p.hero_id)) proposed))

unfoldable pub validate_swap :
    List I64
    → List RosterPick
    → Tournament
    → TournamentEntry
    → I32
    → Bool
    → Option (List RosterViolation)
validate_swap current proposed t entry swaps_used_total already_swapped = do
  budget ← budget_status proposed entry.credit_grant
  let requested = heroes_changed current proposed
  let available = swap_allowance t.swaps_per_round t.current_round swaps_used_total
  some (
      report (
        when (not (accepts_swaps t)) (violation swap_window_closed (not_accepting_swaps t.name))
        ∷ when (not (is_locked entry)) (violation swap_window_closed lock_before_swapping)
        ∷ when already_swapped
            (violation already_swapped_this_round (swap_already_used t.current_round))
        ∷ check_too_many proposed t
        ∷ check_incomplete proposed t
        ∷ duplicate_heroes proposed
        ∷ when (ltb_ℤ available requested)
            (violation swap_limit_exceeded (swapping_over requested available))
        ∷ check_budget budget
        ∷ []))
