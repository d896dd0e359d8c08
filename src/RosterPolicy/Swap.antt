-- ===== src/RosterPolicy/Swap.antt =====
-- The rules for exchanging heroes on a locked roster.
use um_fantasy_league.Common.{
  pos, I32, I64, ◌<ℤ◌, ltb_ℤ, ltb_ℤ_iff, len_i32, int_eq, Bool, true, false, not, ◌||◌, some, List,
  [], ◌∷◌, when, report, length, Distinct, ◌≡◌, ◌≢◌, refl, ◌↔◌, ◌⊎◌, arith, report_laws, Bool-cases,
  inl, inr, i32_max, sym, ◌∙◌, ap,
}
use um_fantasy_league.Tournament.{
  Tournament, TournamentStatus, completed, TournamentEntry, draft, accepts_swaps, is_locked,
}
use um_fantasy_league.RosterPolicy.{
  RosterRule, RosterPick, RosterViolation, violation, reports, pick_ids, pick_costs, sum_i32,
  budget_status, budget_of, check_too_many, check_incomplete, check_budget, duplicate_heroes,
  validate_swap, swap_allowance, heroes_changed, too_many_picks, duplicate_hero, incomplete_roster,
  budget_exceeded, swap_window_closed, swap_limit_exceeded, already_swapped_this_round,
  not_accepting_swaps, lock_before_swapping, swap_already_used, swapping_over, entry_locked,
}
use um_fantasy_league.RosterPolicy.Draft.{
  len_i32-le_iff, len_i32-ge_iff, has_duplicates, has_duplicates_iff,
}
use um_fantasy_league.RosterPolicy.Commit.{total, IsLockInput, spent_exact}

-- A swap window is open on a tournament that is not over.
abbrev pub IsSwappable : Tournament → Type 0
IsSwappable t = (t.swap_window_open ≡ true) × (t.status ≢ completed)

pub accepts_swaps_iff : (t : Tournament) → (accepts_swaps t ≡ true) ↔ IsSwappable t
unfolding accepts_swaps
accepts_swaps_iff t = by_status t.status refl
  where
    by_status : (s : TournamentStatus) → t.status ≡ s → (accepts_swaps t ≡ true) ↔ IsSwappable t
    by_status completed e = ground arith
    by_status _ e = ground arith

-- A submission: the heroes held, the roster proposed, and the two facts of the swap log.
pub record Submission : Type 0 where
  pub current : List I64
  pub proposed : List RosterPick
  pub used : I32
  pub already : Bool

-- For each rule, what is wrong with a submission.
abbrev pub SwapBreaks : RosterRule → Submission → Tournament → TournamentEntry → Type 0
SwapBreaks swap_window_closed s t e = (¬ IsSwappable t) ⊎ (e.status ≡ draft)
SwapBreaks already_swapped_this_round s t e = s.already ≡ true
SwapBreaks too_many_picks s t e = t.roster_size <ℤ pos (length s.proposed)
SwapBreaks incomplete_roster s t e = pos (length s.proposed) <ℤ t.roster_size
SwapBreaks duplicate_hero s t e = ¬ Distinct (pick_ids s.proposed)
SwapBreaks swap_limit_exceeded s t e =
    swap_allowance t.swaps_per_round t.current_round s.used <ℤ heroes_changed s.current s.proposed
SwapBreaks budget_exceeded s t e = e.credit_grant <ℤ total (pick_costs s.proposed)
SwapBreaks _ s t e = ⊥

module _ (s : Submission) (t : Tournament) (e : TournamentEntry) where
  abbrev limit_check : Bool
  limit_check =
      ltb_ℤ (swap_allowance t.swaps_per_round t.current_round s.used)
        (heroes_changed s.current s.proposed)

  abbrev swap_list : List RosterViolation
  swap_list = report (
      when (not (accepts_swaps t)) (violation swap_window_closed (not_accepting_swaps t.name))
      ∷ when (not (is_locked e)) (violation swap_window_closed lock_before_swapping)
      ∷ when s.already (violation already_swapped_this_round (swap_already_used t.current_round))
      ∷ check_too_many s.proposed t
      ∷ check_incomplete s.proposed t
      ∷ duplicate_heroes s.proposed
      ∷ when limit_check (
          violation swap_limit_exceeded (
            swapping_over (heroes_changed s.current s.proposed)
              (swap_allowance t.swaps_per_round t.current_round s.used)))
      ∷ check_budget (budget_of s.proposed e.credit_grant)
      ∷ [])

  swap_list_outcome :
      (r : RosterRule)
      → reports r swap_list ≡ elim r [
        | swap_window_closed ↦ not (accepts_swaps t) || not (is_locked e)
        | already_swapped_this_round ↦ s.already
        | too_many_picks ↦ ltb_ℤ t.roster_size (len_i32 (length s.proposed))
        | incomplete_roster ↦ ltb_ℤ (len_i32 (length s.proposed)) t.roster_size
        | duplicate_hero ↦ has_duplicates s.proposed
        | swap_limit_exceeded ↦ limit_check
        | budget_exceeded ↦ ltb_ℤ e.credit_grant (sum_i32 (pos 0) (pick_costs s.proposed))
        | _ ↦ false
      ]
  unfolding check_too_many check_incomplete check_budget duplicate_heroes
  swap_list_outcome entry_locked = simp report_laws
  swap_list_outcome swap_window_closed = simp report_laws
  swap_list_outcome already_swapped_this_round = simp report_laws
  swap_list_outcome _ = simp report_laws

  swap_list-reports_iff :
      IsLockInput s.proposed t e
      → (r : RosterRule) → (reports r swap_list ≡ true) ↔ SwapBreaks r s t e
  unfolding is_locked
  swap_list-reports_iff i swap_window_closed =
      rw (swap_list_outcome swap_window_closed) (ground (arith, accepts_swaps_iff t))
  swap_list-reports_iff i already_swapped_this_round =
      rw (swap_list_outcome already_swapped_this_round) (λ h. h, λ h. h)
  swap_list-reports_iff i too_many_picks =
      rw (swap_list_outcome too_many_picks)
        (ground (arith, len_i32-le_iff (length s.proposed) t.roster_size i.size))
  swap_list-reports_iff i incomplete_roster =
      rw (swap_list_outcome incomplete_roster)
        (ground (arith, len_i32-ge_iff (length s.proposed) t.roster_size i.size))
  swap_list-reports_iff i duplicate_hero =
      rw (swap_list_outcome duplicate_hero) (ground (arith, has_duplicates_iff s.proposed))
  swap_list-reports_iff i swap_limit_exceeded = rw (swap_list_outcome swap_limit_exceeded) (
      ltb_ℤ_iff (swap_allowance t.swaps_per_round t.current_round s.used)
        (heroes_changed s.current s.proposed))
  swap_list-reports_iff i budget_exceeded =
      rw (swap_list_outcome budget_exceeded, spent_exact s.proposed i.priced)
        (ltb_ℤ_iff e.credit_grant (total (pick_costs s.proposed)))
  swap_list-reports_iff i r = rw (swap_list_outcome r) (λ h. cc, λ h. absurd h)

  -- For a roster size below the largest `i32`, an entry with a positive grant and a proposed roster
  -- whose prices are not negative and add up to an `i32`, `validate_swap` does not panic, and what
  -- it returns reports each rule exactly if the submission breaks it: no swap window is open, the
  -- tournament is over or the entry is not locked; the entry swapped in this round already; more or
  -- fewer picks than the roster size; a hero picked twice; more heroes arriving than the allowance;
  -- a total price above the entry's grant. It reports no other rule, and so never that the
  -- tournament has started.
  pub validate_swap-reports_iff :
      IsLockInput s.proposed t e
      → (vs : List RosterViolation) × (validate_swap s.current s.proposed t e s.used s.already
          ≡ some vs)
        × ((r : RosterRule) → (reports r vs ≡ true) ↔ SwapBreaks r s t e)
  unfolding validate_swap budget_status
  validate_swap-reports_iff i =
      (swap_list, rw ((ltb_ℤ_iff (pos 0) e.credit_grant).1 i.grant), swap_list-reports_iff i)

  validate_swap-list :
      (vs : List RosterViolation)
      → validate_swap s.current s.proposed t e s.used s.already ≡ some vs
      → swap_list ≡ vs
  unfolding validate_swap budget_status
  validate_swap-list vs h = elim (Bool-cases (ltb_ℤ (pos 0) e.credit_grant)) [
    | inl granted ↦ (let g = rw granted at h in cc)
    | inr refused ↦ (let g = rw refused at h in absurd cc)
  ]

  -- What a submission without violations proposes.
  pub validate_swap-fits :
      t.roster_size <ℤ i32_max
      → validate_swap s.current s.proposed t e s.used s.already ≡ some []
      → Distinct (pick_ids s.proposed) × (pos (length s.proposed) ≡ t.roster_size)
  validate_swap-fits small h =
      let silent : (r : RosterRule) → reports r swap_list ≡ false =
        λ r. ap (reports r) (validate_swap-list [] h) in
      let over = sym (swap_list_outcome too_many_picks) ∙ silent too_many_picks in
      let under = sym (swap_list_outcome incomplete_roster) ∙ silent incomplete_roster in
      (
        (has_duplicates_iff s.proposed).0
            (sym (swap_list_outcome duplicate_hero) ∙ silent duplicate_hero),
        ground (
          arith,
          over,
          under,
          len_i32-le_iff (length s.proposed) t.roster_size small,
          len_i32-ge_iff (length s.proposed) t.roster_size small,
        ),
      )
