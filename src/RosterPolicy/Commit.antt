-- ===== src/RosterPolicy/Commit.antt =====
-- The rules that bite when a roster is committed: locking it.
use um_fantasy_league.Common.{
  ℤ, pos, I32, i32_max, ◌≤ℤ◌, ◌<ℤ◌, ◌+ℤ◌, ltb_ℤ, ltb_ℤ_iff, len_i32, wrap_id, +ℤ_parts, eq_of_parts,
  add_i32, int_eq, true, false, not, some, List, [], ◌∷◌, ◌++◌, report, length, All, Distinct, ◌≡◌,
  ◌↔◌, arith, report_laws, ◌∙◌, sym, ap, Bool-cases, inl, inr,
}
use um_fantasy_league.Tournament.{
  Tournament, TournamentEntry, entry_status_beq, locked, accepts_roster_changes,
}
use um_fantasy_league.RosterPolicy.{
  RosterRule, RosterPick, RosterViolation, reports, pick_ids, pick_costs, sum_i32, budget_status,
  budget_of, check_too_many, check_incomplete, check_budget, duplicate_heroes,
  mutability_violations, validate_draft, validate_lock, entry_locked, tournament_closed,
  too_many_picks, duplicate_hero, incomplete_roster, budget_exceeded,
}
use um_fantasy_league.RosterPolicy.Draft.{
  IsOpen, accepts_roster_changes_iff, len_i32-le_iff, len_i32-ge_iff, has_duplicates,
  has_duplicates_iff,
}

-- The exact sum.
abbrev pub total : List I32 → ℤ
total [] = pos 0
total (c ∷ cs) = c +ℤ total cs

-- No price is negative, and the prices add up to an `i32`.
pub record IsPriced (picks : List RosterPick) : Type 0 where
  pub nonneg : All (λ c. pos 0 ≤ℤ c) (pick_costs picks)
  pub fits : total (pick_costs picks) ≤ℤ i32_max

total_nonneg : (cs : List I32) → All (λ c. pos 0 ≤ℤ c) cs → pos 0 ≤ℤ total cs
total_nonneg [] h = omega arith
total_nonneg (c ∷ cs) h = omega (arith, +ℤ_parts c (total cs), total_nonneg cs h.1)

add_i32_exact : (a b : ℤ) → pos 0 ≤ℤ a → pos 0 ≤ℤ b → a +ℤ b ≤ℤ i32_max → add_i32 a b ≡ a +ℤ b
unfolding add_i32
add_i32_exact a b ha hb h = wrap_id (a +ℤ b) (omega (arith, +ℤ_parts a b), h)

+ℤ_assoc : (a b c : ℤ) → a +ℤ b +ℤ c ≡ a +ℤ (b +ℤ c)
+ℤ_assoc a b c = omega (arith, +ℤ_parts, eq_of_parts)

sum_i32_exact :
    (acc : ℤ) (cs : List I32)
    → pos 0 ≤ℤ acc
    → All (λ c. pos 0 ≤ℤ c) cs
    → acc +ℤ total cs ≤ℤ i32_max
    → sum_i32 acc cs ≡ acc +ℤ total cs
unfolding sum_i32
sum_i32_exact acc [] ha hc h = omega (arith, +ℤ_parts acc (pos 0), eq_of_parts)
sum_i32_exact acc (c ∷ cs) ha hc h =
    let rest = total cs in
    let small : acc +ℤ c ≤ℤ i32_max =
      omega
        (arith, +ℤ_parts acc (c +ℤ rest), +ℤ_parts c rest, +ℤ_parts acc c, total_nonneg cs hc.1) in
    rw (add_i32_exact acc c ha hc.0 small) (
      sum_i32_exact (acc +ℤ c) cs (omega (arith, +ℤ_parts acc c)) hc.1 (rw (+ℤ_assoc acc c rest) h)
      ∙ +ℤ_assoc acc c rest)

pub spent_exact :
    (picks : List RosterPick)
    → IsPriced picks
    → sum_i32 (pos 0) (pick_costs picks) ≡ total (pick_costs picks)
spent_exact picks p =
    let cs = pick_costs picks in
    let zero_add : pos 0 +ℤ total cs ≡ total cs =
      omega (arith, +ℤ_parts (pos 0) (total cs), eq_of_parts) in
    sum_i32_exact (pos 0) cs (omega arith) p.nonneg (rw zero_add p.fits) ∙ zero_add

-- For each rule, what is wrong with a roster that is to be locked.
abbrev pub Breaks : RosterRule → List RosterPick → Tournament → TournamentEntry → Type 0
Breaks entry_locked picks t e = e.status ≡ locked
Breaks tournament_closed picks t e = ¬ IsOpen t
Breaks too_many_picks picks t e = t.roster_size <ℤ pos (length picks)
Breaks incomplete_roster picks t e = pos (length picks) <ℤ t.roster_size
Breaks duplicate_hero picks t e = ¬ Distinct (pick_ids picks)
Breaks budget_exceeded picks t e = e.credit_grant <ℤ total (pick_costs picks)
Breaks _ picks t e = ⊥

-- What locking assumes of its inputs.
pub record IsLockInput (picks : List RosterPick) (t : Tournament) (e : TournamentEntry)
    : Type 0 where
  pub size : t.roster_size <ℤ i32_max
  pub grant : pos 0 <ℤ e.credit_grant
  pub priced : IsPriced picks

abbrev lock_list : List RosterPick → Tournament → TournamentEntry → List RosterViolation
lock_list picks t e =
    validate_draft picks t e.status
    ++ report (check_incomplete picks t ∷ check_budget (budget_of picks e.credit_grant) ∷ [])

module _ (picks : List RosterPick) (t : Tournament) (e : TournamentEntry) where
  -- What the list reports of a rule is the outcome of the check of that rule.
  lock_list_outcome :
      (r : RosterRule)
      → reports r (lock_list picks t e) ≡ elim r [
        | entry_locked ↦ entry_status_beq e.status locked
        | tournament_closed ↦ not (accepts_roster_changes t)
        | too_many_picks ↦ ltb_ℤ t.roster_size (len_i32 (length picks))
        | incomplete_roster ↦ ltb_ℤ (len_i32 (length picks)) t.roster_size
        | duplicate_hero ↦ has_duplicates picks
        | budget_exceeded ↦ ltb_ℤ e.credit_grant (sum_i32 (pos 0) (pick_costs picks))
        | _ ↦ false
      ]
  unfolding validate_draft mutability_violations check_too_many check_incomplete check_budget
      duplicate_heroes
  lock_list_outcome entry_locked = simp report_laws
  lock_list_outcome tournament_closed = simp report_laws
  lock_list_outcome too_many_picks = simp report_laws
  lock_list_outcome incomplete_roster = simp report_laws
  lock_list_outcome _ = simp report_laws

  lock_list-reports_iff :
      IsLockInput picks t e
      → (r : RosterRule) → (reports r (lock_list picks t e) ≡ true) ↔ Breaks r picks t e
  lock_list-reports_iff i entry_locked = rw (lock_list_outcome entry_locked) (ground arith)
  lock_list-reports_iff i tournament_closed =
      rw (lock_list_outcome tournament_closed) (ground (arith, accepts_roster_changes_iff t))
  lock_list-reports_iff i too_many_picks =
      rw (lock_list_outcome too_many_picks)
        (ground (arith, len_i32-le_iff (length picks) t.roster_size i.size))
  lock_list-reports_iff i incomplete_roster =
      rw (lock_list_outcome incomplete_roster)
        (ground (arith, len_i32-ge_iff (length picks) t.roster_size i.size))
  lock_list-reports_iff i duplicate_hero =
      rw (lock_list_outcome duplicate_hero) (ground (arith, has_duplicates_iff picks))
  lock_list-reports_iff i budget_exceeded =
      rw (lock_list_outcome budget_exceeded, spent_exact picks i.priced)
        (ltb_ℤ_iff e.credit_grant (total (pick_costs picks)))
  lock_list-reports_iff i r = rw (lock_list_outcome r) (λ h. cc, λ h. absurd h)

  -- For a roster size below the largest `i32`, an entry with a positive grant and a roster whose
  -- prices are not negative and add up to an `i32`, `validate_lock` does not panic, and what it
  -- returns reports each rule exactly if the roster breaks it: a locked entry, a tournament that is
  -- not scheduled or open, more or fewer picks than the roster size, a hero picked twice, a total
  -- price above the entry's grant. It reports no other rule.
  pub validate_lock-reports_iff :
      IsLockInput picks t e
      → (vs : List RosterViolation) × (validate_lock picks t e ≡ some vs)
        × ((r : RosterRule) → (reports r vs ≡ true) ↔ Breaks r picks t e)
  unfolding validate_lock budget_status
  validate_lock-reports_iff i = (
    lock_list picks t e,
    rw ((ltb_ℤ_iff (pos 0) e.credit_grant).1 i.grant),
    lock_list-reports_iff i,
  )

  validate_lock-list :
      (vs : List RosterViolation) → validate_lock picks t e ≡ some vs → lock_list picks t e ≡ vs
  unfolding validate_lock budget_status
  validate_lock-list vs h = elim (Bool-cases (ltb_ℤ (pos 0) e.credit_grant)) [
    | inl granted ↦ (let g = rw granted at h in cc)
    | inr refused ↦ (let g = rw refused at h in absurd cc)
  ]

  -- A roster without violations.
  pub validate_lock-fits :
      t.roster_size <ℤ i32_max
      → validate_lock picks t e ≡ some []
      → Distinct (pick_ids picks) × (pos (length picks) ≡ t.roster_size)
  validate_lock-fits small h =
      let silent : (r : RosterRule) → reports r (lock_list picks t e) ≡ false =
        λ r. ap (reports r) (validate_lock-list [] h) in
      let over = sym (lock_list_outcome too_many_picks) ∙ silent too_many_picks in
      let under = sym (lock_list_outcome incomplete_roster) ∙ silent incomplete_roster in
      (
        (has_duplicates_iff picks).0
            (sym (lock_list_outcome duplicate_hero) ∙ silent duplicate_hero),
        ground (
          arith,
          over,
          under,
          len_i32-le_iff (length picks) t.roster_size small,
          len_i32-ge_iff (length picks) t.roster_size small,
        ),
      )
