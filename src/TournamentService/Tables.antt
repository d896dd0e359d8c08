-- ===== src/TournamentService/Tables.antt =====
-- The tables that backend-rs/crates/umfl-server/src/tournament/service.rs reads, the statements of
-- query.rs that it runs on them, and its helpers that only read.
use um_fantasy_league.Common.{
  ℕ, I32, I64, int_eq, pair_eq, ◌==◌, len_i32, Bool, true, false, not, ◌&&◌, Option, none, some,
  List, [], ◌∷◌, ◌++◌, map, keep, any, find, length, is_empty, contains, if◌then◌else◌, when,
  report, ◌≡◌,
}
use um_fantasy_league.Common.Text.{Text}
use um_fantasy_league.Common.IndexMap
use um_fantasy_league.Common.Orders.{leb_pair}
use um_fantasy_league.Common.Sorting.{sort}
use um_fantasy_league.Tournament.{
  Tournament, TournamentStatus, TournamentEntry, EntrySlot, accepts_roster_changes, accepts_swaps,
  hero_ids, is_locked,
}
use um_fantasy_league.RosterPolicy.{
  RosterPick, RosterViolation, violation, unknown_hero, role_change_closed, tournament_closed,
  no_heroes_for, roles_need_a_window, rosters_are_frozen,
}
use um_fantasy_league.RosterRoles.{
  RoleBook, RoleAssignment, Assigned, current_roles, validate_assignments, sorted_once,
}
use um_fantasy_league.Standings.{RosterSwap}

pub data ApiError : Type 0 where
  no_tournament : (id : I64) → ApiError
  not_registered : (tournament_id : I64) → ApiError
  not_open : (name : Text) (status : TournamentStatus) → ApiError
  already_registered : (name : Text) → ApiError
  is_full : (name : Text) (capacity : I32) → ApiError
  name_taken : (name : Text) → ApiError
  out_of_range : ApiError
  data_integrity : ApiError
  roster_rule : (violations : List RosterViolation) → ApiError
  panicked : ApiError

pub data ApiResult {ℓ} (A : Type ℓ) : Type ℓ where
  ok : A → ApiResult A
  err : ApiError → ApiResult A

infixl 30 ◌>>=◌ ◌>>◌
abbrev pub ◌>>=◌ {ℓ κ} : {A : Type ℓ} {B : Type κ} → ApiResult A → (A → ApiResult B) → ApiResult B
ok a >>= f = f a
err e >>= f = err e

abbrev pub ◌>>◌ {ℓ} : {B : Type ℓ} → ApiResult (Unit {0}) → ApiResult B → ApiResult B
ok _ >> b = b
err e >> b = err e

-- `ok_or_else`
abbrev pub or_err {ℓ} : {A : Type ℓ} → ApiError → Option A → ApiResult A
or_err e none = err e
or_err e (some a) = ok a

pub ok-inj {ℓ} : {A : Type ℓ} {a b : A} → ok a ≡ ok b → a ≡ b
ok-inj h = cc

-- The rows of the tables. A swap's and a role's row carry the entry that they belong to, and stand in the
-- order of their ids.
pub record PoolRow : Type 0 where
  pub tournament_id : I64
  pub hero_id : I64
  pub cost : I32

pub record SwapRow : Type 0 where
  pub entry_id : I64
  pub swap : RosterSwap

pub record RoleRow : Type 0 where
  pub entry_id : I64
  pub assignment : RoleAssignment

pub record Store (D : Type 0) : Type 0 where
  pub tournaments : List Tournament
  pub entries : List TournamentEntry
  pub swaps : List SwapRow
  pub role_log : List RoleRow
  pub pool : List PoolRow
  pub books : I64 → RoleBook D
  pub next_entry_id : I64
  pub next_tournament_id : I64

abbrev pub has_id : I64 → Option I64 → Bool
has_id id none = false
has_id id (some other) = other == id

-- `if !violations.is_empty() { return Err(roster_rule(violations)) }`
abbrev pub refuse : List RosterViolation → ApiResult (Unit {0})
refuse [] = ok tt
refuse (v ∷ vs) = err (roster_rule (v ∷ vs))

abbrev pub when_err : Bool → ApiError → ApiResult (Unit {0})
when_err b e = if b then err e else ok tt

abbrev pub is_some {ℓ} : {A : Type ℓ} → Option A → Bool
is_some none = false
is_some (some a) = true

abbrev pub slots_of : List RosterPick → List EntrySlot
slots_of picks = map (λ (p : RosterPick). record { hero_id = p.hero_id }) picks

-- `merge_roles`
unfoldable pub merge_roles : List I64 → List Assigned → List Assigned → List Assigned
merge_roles proposed current submitted =
    keep
      (λ (a : Assigned).
        contains proposed a.0 && not (any (λ (s : Assigned). s.0 == a.0) submitted))
      current
    ++ submitted

-- `changed_roles`
unfoldable pub changed_roles : List Assigned → List Assigned → List Assigned
changed_roles current wanted = keep (λ (a : Assigned). not (contains current a)) wanted

-- `departing.into_iter().zip(arriving)`
abbrev pub zip : List I64 → List I64 → List (I64 × I64)
zip [] ys = []
zip (x ∷ xs) [] = []
zip (x ∷ xs) (y ∷ ys) = (x, y) ∷ zip xs ys

abbrev pub without : List I64 → List I64 → List I64
without others = keep λ id. not (contains others id)

unfoldable pub exchanges : List I64 → List I64 → List (I64 × I64)
exchanges held proposed = zip (without proposed held) (without held proposed)

unfoldable pub with_role : IndexMap.IndexMap I64 I64 → List I64 → List Assigned
unfolding IndexMap.get
with_role current [] = []
with_role current (id ∷ ids) =
    let rest = with_role current ids in
    elim (IndexMap.get current id) [ none ↦ rest | some role ↦ (id, role) ∷ rest ]

unfoldable pub role_window_violations : Tournament → TournamentEntry → List RosterViolation
unfolding is_locked accepts_swaps accepts_roster_changes
role_window_violations t entry = report (
    when (is_locked entry && not (accepts_swaps t))
      (violation role_change_closed roles_need_a_window)
    ∷ when (not (is_locked entry) && not (accepts_roster_changes t))
        (violation tournament_closed (rosters_are_frozen t.name t.status))
    ∷ [])

-- `order by from_round, hero_id`
abbrev pub by_round_and_hero : RoleAssignment → RoleAssignment → Bool
by_round_and_hero a b = leb_pair (a.from_round, a.hero_id) (b.from_round, b.hero_id)

module _ {D : Type 0} where
  -- `query::find_by_id`
  abbrev pub find_tournament : Store D → I64 → Option Tournament
  find_tournament s id = find (λ (t : Tournament). has_id id t.id) s.tournaments

  abbrev pub require_tournament : Store D → I64 → ApiResult Tournament
  require_tournament s id = or_err (no_tournament id) (find_tournament s id)

  -- `query::find_entry`
  abbrev pub find_entry : Store D → I64 → I64 → Option TournamentEntry
  find_entry s tournament_id manager_id =
      find (λ (e : TournamentEntry). e.tournament_id == tournament_id && e.manager_id == manager_id)
        s.entries

  abbrev pub require_my_entry : Store D → I64 → I64 → ApiResult TournamentEntry
  require_my_entry s tournament_id manager_id =
      or_err (not_registered tournament_id) (find_entry s tournament_id manager_id)

  abbrev pub count_entries : Store D → I64 → ℕ
  count_entries s tournament_id =
      length (keep (λ (e : TournamentEntry). e.tournament_id == tournament_id) s.entries)

  -- `query::swaps_by_entry…`, of one entry: its log.
  abbrev pub swaps_of : Store D → I64 → List RosterSwap
  swaps_of s entry_id =
      map (λ (r : SwapRow). r.swap) (keep (λ (r : SwapRow). r.entry_id == entry_id) s.swaps)

  -- `swap_count_for_entry`, as the services convert it
  abbrev pub swaps_used : Store D → I64 → I32
  swaps_used s entry_id = len_i32 (length (swaps_of s entry_id))

  abbrev pub swapped_in_round : Store D → I64 → I32 → Bool
  swapped_in_round s entry_id round =
      any (λ (w : RosterSwap). w.round == round) (swaps_of s entry_id)

  -- `hero_query::find_by_ids`, of one hero: its price in the tournament's pool.
  abbrev pub price_in : Store D → I64 → I64 → Option I32
  price_in s tournament_id hero =
      elim (find (λ (p : PoolRow). p.tournament_id == tournament_id && p.hero_id == hero) s.pool) [
        | none ↦ none
        | some p ↦ some p.cost
      ]

  abbrev pub is_unpriced : Store D → I64 → I64 → Bool
  is_unpriced s tournament_id hero = elim (price_in s tournament_id hero) [
    | none ↦ true
    | some c ↦ false
  ]

  -- The picks in the order of the ids; an id without a price has been refused before.
  unfoldable pub picks_of : Store D → I64 → List I64 → ApiResult (List RosterPick)
  picks_of s tournament_id [] = ok []
  picks_of s tournament_id (id ∷ ids) = do
    cost ← or_err panicked (price_in s tournament_id id)
    rest ← picks_of s tournament_id ids
    ok (record { hero_id = id; cost = cost } ∷ rest)

  abbrev pub unknown_violations : Store D → Text → I64 → List I64 → List RosterViolation
  unknown_violations s name tournament_id ids =
      let unknown = sorted_once (keep (is_unpriced s tournament_id) ids) in
      report
        (when (not (is_empty unknown)) (violation unknown_hero (no_heroes_for name unknown)) ∷ [])

  unfoldable pub resolve_picks : Store D → Tournament → List I64 → ApiResult (List RosterPick)
  unfolding picks_of
  resolve_picks s t [] = ok []
  resolve_picks s t (id ∷ ids) = do
    tournament_id ← or_err panicked t.id
    refuse (unknown_violations s t.name tournament_id (id ∷ ids))
    picks_of s tournament_id (id ∷ ids)

  -- `role_query::book`
  abbrev pub book_of : Store D → Tournament → ApiResult (Option (RoleBook D))
  book_of s t =
      if t.roles_enabled then (or_err panicked t.id >>= λ id. ok (some (s.books id))) else ok none

  -- `role_assignments_for_entry`
  unfoldable pub role_log_of : Store D → I64 → List RoleAssignment
  unfolding sort
  role_log_of s entry_id = sort by_round_and_hero (
      map (λ (r : RoleRow). r.assignment)
        (keep (λ (r : RoleRow). r.entry_id == entry_id) s.role_log))

  unfoldable pub current_role_pairs : Store D → I64 → TournamentEntry → List Assigned
  unfolding with_role current_roles role_log_of hero_ids
  current_role_pairs s entry_id entry =
      with_role (current_roles (role_log_of s entry_id)) (hero_ids entry)

  unfoldable pub lock_role_violations :
      List I64 → List Assigned → Option (RoleBook D) → List RosterViolation
  unfolding validate_assignments
  lock_role_violations ids current none = []
  lock_role_violations ids current (some book) =
      validate_assignments ids current (some book) ids true
