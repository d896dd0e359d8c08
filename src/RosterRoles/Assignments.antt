-- ===== src/RosterRoles/Assignments.antt =====
-- Which role assignments are accepted.
use um_fantasy_league.Common.{
  I32, I64, int_eq, nat_eq, list_eq, ◌==◌, ltb_ℤ, leb_ℤ, ◌≤ℤ◌, Bool, true, false, ◌||◌, Option,
  none, some, List, [], ◌∷◌, ◌++◌, map, any, All, is_empty, contains, Distinct, when, report,
  to_list, append-eq-nil, if◌then◌else◌, ◌≡◌, refl, ap, ◌∙◌, ◌↔◌, ◌⊎◌, arith, ==_comm,
}
use um_fantasy_league.Common.IndexMap.{values}
use um_fantasy_league.Common.Sorting.{sort, is_empty-sort}
use um_fantasy_league.RosterPolicy.{violation, role_cap_exceeded, at_most}
use um_fantasy_league.RosterRoles.{
  RosterRole, RoleBook, get_role, Assigned, dedup, sorted_once, off_roster, unassigned,
  unknown_roles, taken, check_cap, validate_assignments,
}

is_empty-dedup : (xs : List I64) → is_empty (dedup xs) ≡ is_empty xs
unfolding dedup
is_empty-dedup [] = refl
is_empty-dedup (x ∷ []) = refl
is_empty-dedup (x ∷ (y ∷ ys)) = ground (arith, is_empty-dedup (y ∷ ys))

is_empty-sorted_once : (xs : List I64) → is_empty (sorted_once xs) ≡ is_empty xs
is_empty-sorted_once xs = is_empty-dedup (sort leb_ℤ xs) ∙ is_empty-sort leb_ℤ xs

abbrev pub heroes : List Assigned → List I64
heroes as' = map (λ (a : Assigned). a.0) as'

-- No element of the list is among those seen.
abbrev Unseen : List I64 → List I64 → Type 0
Unseen seen hs = All (λ h. contains seen h ≡ false) hs

contains-snoc :
    (seen : List I64) (x h : I64) → contains (seen ++ x ∷ []) h ≡ (contains seen h || x == h)
contains-snoc [] x h = ground arith
contains-snoc (y ∷ ys) x h = ground (arith, contains-snoc ys x h)

Unseen-snoc :
    (seen : List I64) (x : I64) (hs : List I64)
    → Unseen (seen ++ x ∷ []) hs ↔ (Unseen seen hs × (contains hs x ≡ false))
Unseen-snoc seen x [] = ground arith
Unseen-snoc seen x (h ∷ hs) =
    ground (arith, Unseen-snoc seen x hs, contains-snoc seen x h, ==_comm x h)

off_roster-nil_iff :
    (roster seen : List I64) (as' : List Assigned)
    → (is_empty (off_roster roster seen as') ≡ true) ↔ (
        All (λ (a : Assigned). contains roster a.0 ≡ true) as'
        × Distinct (heroes as')
        × Unseen seen (heroes as'))
unfolding off_roster
off_roster-nil_iff roster seen [] = ground arith
off_roster-nil_iff roster seen ((h, r) ∷ as') =
    ground (arith, off_roster-nil_iff roster (seen ++ h ∷ []) as', Unseen-snoc seen h (heroes as'))

Unseen-nil : (hs : List I64) → Unseen [] hs
Unseen-nil [] = tt
Unseen-nil (h ∷ hs) = (refl, Unseen-nil hs)

unassigned-nil_iff :
    (required : List I64) (as' : List Assigned)
    → (is_empty (unassigned required as') ≡ true)
      ↔ All (λ h. contains (heroes as') h ≡ true) required
unfolding unassigned
unassigned-nil_iff [] as' = ground arith
unassigned-nil_iff (h ∷ hs) as' = ground (arith, unassigned-nil_iff hs as', any-heroes as')
  where
    any-heroes :
        (as' : List Assigned) → any (λ (a : Assigned). a.0 == h) as' ≡ contains (heroes as') h
    any-heroes [] = refl
    any-heroes (a ∷ as') = ap (λ b. a.0 == h || b) (any-heroes as')

-- There is a value.
abbrev pub Exists {ℓ} : {A : Type ℓ} → Option A → Type 0
Exists none = ⊥
Exists (some a) = Unit

-- A number of heroes is within a cap, if there is one.
abbrev pub Within : I32 → Option I32 → Type 0
Within n none = Unit
Within n (some cap) = n ≤ℤ cap

module _ {D : Type 0} where
  unknown_roles-nil_iff :
      (book : RoleBook D) (as' : List Assigned)
      → (is_empty (unknown_roles book as') ≡ true)
        ↔ All (λ (a : Assigned). Exists (get_role book a.1)) as'
  unfolding unknown_roles
  unknown_roles-nil_iff book [] = ground arith
  unknown_roles-nil_iff book (a ∷ as') =
      by_role _ (get_role book a.1) (unknown_roles-nil_iff book as')
    where
      by_role :
          {P : Type 0} (ids : List I64) (o : Option (RosterRole D))
          → (is_empty ids ≡ true) ↔ P
          → (is_empty (if (elim o [ none ↦ true | some r ↦ false ]) then a.1 ∷ ids else ids) ≡ true)
            ↔ (Exists o × P)
      by_role ids none h = (λ e. cc, λ e. absurd e.0)
      by_role ids (some r) h = (λ e. (tt, h.0 e), λ e. h.1 e.1)

  -- No role is taken by more heroes than its cap.
  abbrev pub IsCapped : List Assigned → RosterRole D → Type 0
  IsCapped as' role = Within (taken role as') role.max_per_roster

  check_cap_iff :
      (as' : List Assigned) (role : RosterRole D) → (check_cap as' role ≡ none) ↔ IsCapped as' role
  unfolding check_cap
  check_cap_iff as' role = by_cap role.max_per_roster
    where
      by_cap :
          (o : Option I32)
          → (elim o [
            | none ↦ none
            | some cap ↦
                when
                  (ltb_ℤ cap (taken role as'))
                  (violation role_cap_exceeded (at_most cap role.name (taken role as')))
          ]
              ≡ none)
            ↔ Within (taken role as') o
      by_cap none = (λ _. tt, λ _. refl)
      by_cap (some cap) = ground arith

  caps-nil_iff :
      (as' : List Assigned) (roles : List (RosterRole D))
      → (report (map (check_cap as') roles) ≡ []) ↔ All (IsCapped as') roles
  caps-nil_iff as' [] = (λ _. tt, λ _. refl)
  caps-nil_iff as' (r ∷ rs) = ground (
    arith,
    append-eq-nil (to_list (check_cap as' r)) (report (map (check_cap as') rs)),
    check_cap_iff as' r,
    caps-nil_iff as' rs,
  )

  -- What a submission has to satisfy where the tournament uses roles.
  pub record IsAssignable (roster : List I64) (as' : List Assigned) (book : RoleBook D)
      (required : List I64) (enforce : Bool) : Type 0 where
    pub known : All (λ (a : Assigned). Exists (get_role book a.1)) as'
    pub on_roster : All (λ (a : Assigned). contains roster a.0 ≡ true) as'
    pub once : Distinct (heroes as')
    pub complete : All (λ h. contains (heroes as') h ≡ true) required
    pub capped : (enforce ≡ false) ⊎ All (IsCapped as') (values book.roles)

  -- Where the tournament uses roles, assignments are accepted exactly if every role is in the book,
  -- every hero is on the roster and given one role, every hero that needs a role has one and, if caps
  -- are enforced, no role of the book is taken by more heroes than its cap.
  pub validate_with_book-nil_iff :
      (roster : List I64) (as' : List Assigned) (book : RoleBook D) (required : List I64)
      (enforce : Bool)
      → (validate_assignments roster as' (some book) required enforce ≡ [])
        ↔ IsAssignable roster as' book required enforce
  unfolding validate_assignments
  validate_with_book-nil_iff roster as' book required enforce = ground (
    arith,
    is_empty-sorted_once (unknown_roles book as'),
    is_empty-sorted_once (off_roster roster [] as'),
    is_empty-sorted_once (unassigned required as'),
    unknown_roles-nil_iff book as',
    off_roster-nil_iff roster [] as',
    Unseen-nil (heroes as'),
    unassigned-nil_iff required as',
    caps-nil_iff as' (values book.roles),
  )
