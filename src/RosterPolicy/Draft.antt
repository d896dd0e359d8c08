-- ===== src/RosterPolicy/Draft.antt =====
-- What the checks that all paths share mean, and the rules of a draft.
use um_fantasy_league.Common.{
  ℕ, pos, I32, i32_max, ◌≤ℤ◌, ◌<ℤ◌, ltb_ℤ, leb_ℤ, len_i32, int_eq, Bool, true, false, not, List, [],
  is_empty, length, Distinct, ◌≡◌, refl, ◌↔◌, ◌⊎◌, inl, inr, arith,
}
use um_fantasy_league.Common.IndexMap.{repeated, repeated-nil_iff}
use um_fantasy_league.Common.Sorting.{sort, is_empty-sort}
use um_fantasy_league.Tournament.{
  Tournament, TournamentStatus, scheduled, registration_open, live, completed, EntryStatus, draft,
  locked, accepts_roster_changes,
}
use um_fantasy_league.RosterPolicy.{
  RosterPick, pick_ids, check_too_many, duplicate_heroes, mutability_violations, validate_draft,
}

-- The roster can still change: it is a draft, and the tournament has not started.
abbrev pub IsOpen : Tournament → Type 0
IsOpen t = (t.status ≡ scheduled) ⊎ (t.status ≡ registration_open)

pub accepts_roster_changes_iff : (t : Tournament) → (accepts_roster_changes t ≡ true) ↔ IsOpen t
unfolding accepts_roster_changes
accepts_roster_changes_iff t = by_status t.status refl
  where
    by_status : (s : TournamentStatus) → t.status ≡ s → (accepts_roster_changes t ≡ true) ↔ IsOpen t
    by_status scheduled e = rw e (λ _. inl refl, λ _. refl)
    by_status registration_open e = rw e (λ _. inr refl, λ _. refl)
    by_status live e = ground arith
    by_status completed e = ground arith

pub len_i32-le_iff :
    (n : ℕ) (size : I32) → size <ℤ i32_max → (ltb_ℤ size (len_i32 n) ≡ false) ↔ (pos n ≤ℤ size)
unfolding len_i32
len_i32-le_iff n size h = ground arith

pub len_i32-ge_iff :
    (n : ℕ) (size : I32) → size <ℤ i32_max → (ltb_ℤ (len_i32 n) size ≡ false) ↔ (size ≤ℤ pos n)
unfolding len_i32
len_i32-ge_iff n size h = ground arith

-- A hero is repeated exactly if the sorted list of repeated ids is not empty.
abbrev pub has_duplicates : List RosterPick → Bool
has_duplicates picks = not (is_empty (sort leb_ℤ (repeated (pick_ids picks))))

pub has_duplicates_iff :
    (picks : List RosterPick) → (has_duplicates picks ≡ false) ↔ Distinct (pick_ids picks)
has_duplicates_iff picks =
    rw (is_empty-sort leb_ℤ (repeated (pick_ids picks)))
      (ground (arith, repeated-nil_iff (pick_ids picks)))

-- What a roster needs to be kept as a draft.
pub record IsDraftable (picks : List RosterPick) (t : Tournament) (s : EntryStatus) : Type 0 where
  pub unlocked : s ≡ draft
  pub still_open : IsOpen t
  pub fits : pos (length picks) ≤ℤ t.roster_size
  pub distinct : Distinct (pick_ids picks)

-- For a roster size below the largest `i32`, a draft passes without a violation exactly if the entry
-- is not locked, the tournament is scheduled or open for registration, there are no more picks than
-- the roster size, and no hero is picked twice. The credit grant plays no part.
pub validate_draft-nil_iff :
    (picks : List RosterPick) (t : Tournament) (s : EntryStatus)
    → t.roster_size <ℤ i32_max
    → (validate_draft picks t s ≡ []) ↔ IsDraftable picks t s
unfolding validate_draft mutability_violations check_too_many duplicate_heroes
validate_draft-nil_iff picks t draft h = ground (
  arith,
  accepts_roster_changes_iff t,
  len_i32-le_iff (length picks) t.roster_size h,
  has_duplicates_iff picks,
)
validate_draft-nil_iff picks t locked h = ground arith
