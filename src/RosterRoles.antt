-- ===== src/RosterRoles.antt =====
-- backend-rs/crates/umfl-domain/src/roster_roles.rs: the roles of a roster and the bonus of a role.
pub mod InForce
pub mod Assignments
use um_fantasy_league.Common.{
  ℕ, ℤ, pos, I32, I64, int_eq, nat_eq, list_eq, Eq, ◌==◌, ltb_ℤ, leb_ℤ, len_i32, Bool, true, false,
  not, ◌&&◌, ◌||◌, Option, none, some, List, [], ◌∷◌, ◌++◌, map, keep, any, is_empty, contains,
  length, when, report, to_list, if◌then◌else◌, String, gather,
}
use um_fantasy_league.Common.Text.{Text, codes}
use um_fantasy_league.Common.IndexMap
use um_fantasy_league.Common.IndexMap.{IndexMap, values}
use um_fantasy_league.Common.Sorting.{sort}
use um_fantasy_league.Unicode.{Unicode}
use um_fantasy_league.Numbers.{Numbers, round2, zero_f, sum_f}
use um_fantasy_league.MatchMetrics.{normalise}
use um_fantasy_league.ScoringRuleSetPolicy.{malformed_names, duplicate_names, is_well_formed}
use um_fantasy_league.RosterPolicy.{
  RosterRule, RosterViolation, violation, roles_disabled, unknown_role, role_hero_not_on_roster,
  role_unassigned, role_cap_exceeded, roles_not_used, no_such_roles, one_role_each, needs_a_role,
  at_most,
}

abbrev pub role_bonus_metric : Text
role_bonus_metric = codes "ROLE_BONUS"

pub record RosterRole (D : Type 0) : Type 0 where
  pub id : I64
  pub name : Text
  pub max_per_roster : Option I32
  pub weights : IndexMap Text D

pub record RoleBook (D : Type 0) : Type 0 where
  pub roles : IndexMap I64 (RosterRole D)

module _ {D : Type 0} where
  -- Collecting an iterator of pairs inserts them in turn.
  unfoldable pub insert_roles :
      IndexMap I64 (RosterRole D) → List (RosterRole D) → IndexMap I64 (RosterRole D)
  unfolding IndexMap.insert
  insert_roles m [] = m
  insert_roles m (r ∷ rs) = insert_roles (IndexMap.insert m r.id r) rs

  unfoldable pub new_book : List (RosterRole D) → RoleBook D
  unfolding insert_roles
  new_book roles = record { roles = insert_roles [] roles }

  unfoldable pub get_role : RoleBook D → I64 → Option (RosterRole D)
  unfolding IndexMap.get
  get_role book id = IndexMap.get book.roles id

pub record RoleAssignment : Type 0 where
  pub hero_id : I64
  pub from_round : I32
  pub role_id : I64

-- `max_by_key`: the last of the greatest.
unfoldable pub max_by_round : Option RoleAssignment → List RoleAssignment → Option RoleAssignment
max_by_round best [] = best
max_by_round none (a ∷ as') = max_by_round (some a) as'
max_by_round (some b) (a ∷ as') =
    max_by_round (if ltb_ℤ a.from_round b.from_round then some b else some a) as'

abbrev role_of : Option RoleAssignment → Option I64
role_of none = none
role_of (some a) = some a.role_id

unfoldable pub role_at : List RoleAssignment → I64 → I32 → Option I64
unfolding max_by_round
role_at assignments hero round = role_of (
    max_by_round none
      (keep (λ (a : RoleAssignment). a.hero_id == hero && leb_ℤ a.from_round round) assignments))

-- The loop of `current_roles`, from the latest assignments so far.
abbrev is_newer : Option RoleAssignment → RoleAssignment → Bool
is_newer none a = true
is_newer (some held) a = leb_ℤ held.from_round a.from_round

unfoldable pub latest_from :
    IndexMap I64 RoleAssignment → List RoleAssignment → IndexMap I64 RoleAssignment
unfolding IndexMap.get IndexMap.insert
latest_from latest [] = latest
latest_from latest (a ∷ as') =
    latest_from
      (if is_newer (IndexMap.get latest a.hero_id) a
        then IndexMap.insert latest a.hero_id a
        else latest)
      as'

unfoldable pub current_roles : List RoleAssignment → IndexMap I64 I64
unfolding latest_from
current_roles assignments =
    map (λ (p : I64 × RoleAssignment). (p.0, p.1.role_id)) (latest_from [] assignments)

module _ (n : Numbers) where
  open n use {F, D, of_i32, mul, to_f64, lt}

  -- What the weighted stats contribute: a stat that the game did not record is left out.
  unfoldable pub bonus_parts : IndexMap Text D → IndexMap Text I32 → List F
  unfolding IndexMap.get round2
  bonus_parts [] stats = []
  bonus_parts ((stat, weight) ∷ ws) stats = elim (IndexMap.get stats stat) [
    | none ↦ bonus_parts ws stats
    | some value ↦ round2 n (mul (of_i32 value) (to_f64 weight)) ∷ bonus_parts ws stats
  ]

  unfoldable pub role_bonus : RosterRole D → IndexMap Text I32 → F
  unfolding bonus_parts round2
  role_bonus role stats =
      let total = round2 n (sum_f n (bonus_parts role.weights stats)) in
      if lt (zero_f n) total then total else zero_f n

-- The first of each run of equal elements, as `dedup` leaves them.
unfoldable pub dedup : List I64 → List I64
dedup [] = []
dedup (x ∷ []) = x ∷ []
dedup (x ∷ (y ∷ ys)) = let rest = dedup (y ∷ ys) in if x == y then rest else x ∷ rest

abbrev pub sorted_once : List I64 → List I64
sorted_once ids = dedup (sort leb_ℤ ids)

-- An assignment as it is submitted: the hero and its role.
abbrev pub Assigned : Type 0
Assigned = I64 × I64

-- The loop that finds the heroes that are not on the roster or come a second time.
unfoldable pub off_roster : List I64 → List I64 → List Assigned → List I64
off_roster roster seen [] = []
off_roster roster seen ((h, r) ∷ as') =
    let rest = off_roster roster (seen ++ h ∷ []) as' in
    if not (contains roster h) || contains seen h then h ∷ rest else rest

unfoldable pub unassigned : List I64 → List Assigned → List I64
unassigned required assignments =
    keep (λ h. not (any (λ (a : Assigned). a.0 == h) assignments)) required

module _ {D : Type 0} where
  unfoldable pub unknown_roles : RoleBook D → List Assigned → List I64
  unfolding get_role
  unknown_roles book assignments =
      keep (λ id. elim (get_role book id) [ none ↦ true | some r ↦ false ])
        (map (λ (a : Assigned). a.1) assignments)

  -- How many of the roster's heroes have a role, as an `i32`.
  abbrev pub taken : RosterRole D → List Assigned → I32
  taken role assignments = len_i32 (length (keep (λ (a : Assigned). a.1 == role.id) assignments))

  unfoldable pub check_cap : List Assigned → RosterRole D → Option RosterViolation
  check_cap assignments role = elim role.max_per_roster [
    | none ↦ none
    | some cap ↦
        when (ltb_ℤ cap (taken role assignments))
          (violation role_cap_exceeded (at_most cap role.name (taken role assignments)))
  ]

  -- `validate_assignments`, where the tournament uses roles.
  unfoldable pub validate_with_book :
      List I64 → List Assigned → RoleBook D → List I64 → Bool → List RosterViolation
  unfolding unknown_roles off_roster unassigned dedup check_cap
  validate_with_book roster assignments book required enforce_caps =
      let unknown = sorted_once (unknown_roles book assignments) in
      let off = sorted_once (off_roster roster [] assignments) in
      let missing = sorted_once (unassigned required assignments) in
      report (
        when (not (is_empty unknown)) (violation unknown_role (no_such_roles unknown))
        ∷ when (not (is_empty off)) (violation role_hero_not_on_roster (one_role_each off))
        ∷ when (not (is_empty missing)) (violation role_unassigned (needs_a_role missing))
        ∷ [])
      ++ (if enforce_caps then report (map (check_cap assignments) (values book.roles)) else [])

  unfoldable pub validate_assignments :
      List I64 → List Assigned → Option (RoleBook D) → List I64 → Bool → List RosterViolation
  unfolding validate_with_book
  validate_assignments roster assignments none required enforce_caps =
      report (when (not (is_empty assignments)) (violation roles_disabled roles_not_used) ∷ [])
  validate_assignments roster assignments (some book) required enforce_caps =
      validate_with_book roster assignments book required enforce_caps

pub data RoleRule : Type 0 where
  duplicate_stat malformed_stat : RoleRule

unfoldable pub as_str : RoleRule → String
as_str duplicate_stat = "DUPLICATE_STAT"
as_str malformed_stat = "MALFORMED_STAT"

-- The names that the two messages list.
pub record RoleViolation : Type 0 where
  pub rule : RoleRule
  pub listed : List Text

unfoldable pub normalise_stat : Unicode → Text → Text
unfolding normalise
normalise_stat u stat = normalise u stat

unfoldable pub is_well_formed_stat : Text → Bool
unfolding is_well_formed
is_well_formed_stat stat = is_well_formed stat

unfoldable pub validate_weights : Unicode → List Text → List RoleViolation
unfolding normalise_stat malformed_names duplicate_names
validate_weights u stats =
    let names = map (normalise_stat u) stats in
    let malformed = malformed_names [] names in
    let duplicates = duplicate_names names in
    report (
      when (not (is_empty malformed)) (record { rule = malformed_stat; listed = malformed })
      ∷ when (not (is_empty duplicates)) (record { rule = duplicate_stat; listed = duplicates })
      ∷ [])
