-- ===== src/RosterRoles/InForce.antt =====
-- Which role is in force, and what a bonus can be.
use um_fantasy_league.Common.{
  I32, I64, int_eq, nat_eq, list_eq, ◌==◌, ltb_ℤ, leb_ℤ, ◌≤ℤ◌, ◌<ℤ◌, Bool, true, false, ◌&&◌,
  Option, none, some, List, [], ◌∷◌, ◌++◌, keep, All, if◌then◌else◌, ◌≡◌, ◌≢◌, refl, ap, sym, ◌∙◌,
  ◌⊎◌, inl, inr, arith, Bool-cases, eqb_ℤ_iff, map,
}
use mathlib.Core.List.{append-nil}
use um_fantasy_league.Common.Text.{Text}
use um_fantasy_league.Common.IndexMap
use um_fantasy_league.Common.IndexMap.{IndexMap, get-insert}
use um_fantasy_league.Numbers.{Numbers, IsOrdered, zero_f}
use um_fantasy_league.RosterRoles.{
  RoleAssignment, max_by_round, role_of, role_at, is_newer, latest_from, current_roles, RosterRole,
  role_bonus,
}

pos_not_neg : (n : Numbers) → IsOrdered n → (x y : n.F) → n.lt x y ≡ true → n.lt y x ≡ false
pos_not_neg n o x y h = elim (Bool-cases (n.lt y x)) [
  | inl back ↦ cc (o.trans x y x h back, o.irrefl x)
  | inr fine ↦ fine
]

-- Over ordered numbers a bonus is never below zero, whatever the weights and the stats are.
pub role_bonus_nonneg :
    (n : Numbers) (role : RosterRole n.D) (stats : IndexMap Text I32)
    → IsOrdered n
    → n.lt (role_bonus n role stats) (zero_f n) ≡ false
unfolding role_bonus
role_bonus_nonneg n role stats o = capped _
  where
    capped :
        (total : n.F) → n.lt (if n.lt (zero_f n) total then total else zero_f n) (zero_f n) ≡ false
    capped total = elim (Bool-cases (n.lt (zero_f n) total)) [
      | inl above ↦ rw above (pos_not_neg n o (zero_f n) total above)
      | inr below ↦ rw below (o.irrefl (zero_f n))
    ]

-- The assignments that `role_at` looks at.
abbrev in_force : I64 → I32 → RoleAssignment → Bool
in_force hero round a = a.hero_id == hero && leb_ℤ a.from_round round

keep-append :
    (p : RoleAssignment → Bool) (xs ys : List RoleAssignment)
    → keep p (xs ++ ys) ≡ keep p xs ++ keep p ys
keep-append p [] ys = refl
keep-append p (x ∷ xs) ys = ground (arith, keep-append p xs ys)

-- Points stay in the round they were earned in: an assignment that is added with a later round, or for
-- another hero, does not change the role in force.
pub role_at-append_later :
    (as' : List RoleAssignment) (a : RoleAssignment) (hero : I64) (round : I32)
    → (round <ℤ a.from_round) ⊎ (a.hero_id ≢ hero)
    → role_at (as' ++ a ∷ []) hero round ≡ role_at as' hero round
unfolding role_at
role_at-append_later as' a hero round h =
    let out : in_force hero round a ≡ false = ground (arith, eqb_ℤ_iff a.hero_id hero) in
    rw (
      keep-append (in_force hero round) as' (a ∷ []),
      out,
      append-nil (keep (in_force hero round) as'),
    )

-- No assignment of the list begins after a round.
abbrev pub NoneAfter : I32 → List RoleAssignment → Type 0
NoneAfter round as' = All (λ (b : RoleAssignment). b.from_round ≤ℤ round) as'

-- The later of the two, and the second of two from one round.
abbrev pick : Option RoleAssignment → RoleAssignment → Option RoleAssignment
pick none a = some a
pick (some b) a = if ltb_ℤ a.from_round b.from_round then some b else some a

abbrev HeldBy : I32 → Option RoleAssignment → Type 0
HeldBy round none = Unit
HeldBy round (some b) = b.from_round ≤ℤ round

max_by_round-nil : (o : Option RoleAssignment) → max_by_round o [] ≡ o
unfolding max_by_round
max_by_round-nil none = refl
max_by_round-nil (some b) = refl

max_by_round-last :
    (best : Option RoleAssignment) (as' : List RoleAssignment) (a : RoleAssignment)
    → HeldBy a.from_round best
    → NoneAfter a.from_round as'
    → max_by_round best (as' ++ a ∷ []) ≡ some a
unfolding max_by_round
max_by_round-last none [] a h k = refl
max_by_round-last (some b) [] a h k = ground arith
max_by_round-last none (x ∷ xs) a h k = max_by_round-last (some x) xs a k.0 k.1
max_by_round-last (some b) (x ∷ xs) a h k =
    let later : Option RoleAssignment = pick (some b) x in
    max_by_round-last later xs a (ground arith) k.1

NoneAfter-keep :
    (p : RoleAssignment → Bool) (round : I32) (as' : List RoleAssignment)
    → NoneAfter round as'
    → NoneAfter round (keep p as')
NoneAfter-keep p round [] h = tt
NoneAfter-keep p round (x ∷ xs) h = elim (Bool-cases (p x)) [
  | inl e ↦ rw e (h.0, NoneAfter-keep p round xs h.1)
  | inr e ↦ rw e (NoneAfter-keep p round xs h.1)
]

-- An assignment that is added with a round that none of the others is past decides the hero's role
-- from that round on.
pub role_at-append_now :
    (as' : List RoleAssignment) (a : RoleAssignment) (round : I32)
    → a.from_round ≤ℤ round
    → NoneAfter a.from_round as'
    → role_at (as' ++ a ∷ []) a.hero_id round ≡ some a.role_id
unfolding role_at
role_at-append_now as' a round h k =
    let here : in_force a.hero_id round a ≡ true = ground (arith, eqb_ℤ_iff a.hero_id a.hero_id) in
    let kept = keep (in_force a.hero_id round) as' in
    let e : keep (in_force a.hero_id round) (as' ++ a ∷ []) ≡ kept ++ a ∷ [] =
      keep-append (in_force a.hero_id round) as' (a ∷ []) ∙ rw here in
    rw (e, max_by_round-last none kept a tt (NoneAfter-keep _ a.from_round as' k))

abbrev of_hero : I64 → RoleAssignment → Bool
of_hero hero a = a.hero_id == hero

max_by_round-cons :
    (best : Option RoleAssignment) (a : RoleAssignment) (as' : List RoleAssignment)
    → max_by_round best (a ∷ as') ≡ max_by_round (pick best a) as'
unfolding max_by_round
max_by_round-cons none a as' = refl
max_by_round-cons (some b) a as' = refl

abbrev advance : IndexMap I64 RoleAssignment → RoleAssignment → IndexMap I64 RoleAssignment
advance latest a =
    if is_newer (IndexMap.get latest a.hero_id) a
    then IndexMap.insert latest a.hero_id a
    else latest

get-advance :
    (latest : IndexMap I64 RoleAssignment) (a : RoleAssignment) (hero : I64)
    → IndexMap.get (advance latest a) hero
      ≡ (if a.hero_id == hero then pick (IndexMap.get latest hero) a else IndexMap.get latest hero)
get-advance latest a hero = elim (Bool-cases (a.hero_id == hero)) [
  | inl same ↦
      let e : IndexMap.get latest a.hero_id ≡ IndexMap.get latest hero =
        ap (IndexMap.get latest) ((eqb_ℤ_iff a.hero_id hero).0 same) in
      ground (arith, e, get-insert latest a.hero_id hero a)
  | inr differ ↦ ground (arith, get-insert latest a.hero_id hero a)
]

get-latest_from :
    (latest : IndexMap I64 RoleAssignment) (as' : List RoleAssignment) (hero : I64)
    → IndexMap.get (latest_from latest as') hero
      ≡ max_by_round (IndexMap.get latest hero) (keep (of_hero hero) as')
unfolding latest_from
get-latest_from latest [] hero = at_end (IndexMap.get latest hero)
  where
    at_end : (o : Option RoleAssignment) → o ≡ max_by_round o []
    at_end o = sym (max_by_round-nil o)
get-latest_from latest (a ∷ as') hero =
    get-latest_from (advance latest a) as' hero ∙ elim (Bool-cases (a.hero_id == hero)) [
      | inl same ↦
          let e : IndexMap.get (advance latest a) hero ≡ pick (IndexMap.get latest hero) a =
            get-advance latest a hero ∙ rw same in
          rw (e, same)
            (sym (max_by_round-cons (IndexMap.get latest hero) a (keep (of_hero hero) as')))
      | inr differ ↦
          let e : IndexMap.get (advance latest a) hero ≡ IndexMap.get latest hero =
            get-advance latest a hero ∙ rw differ in
          rw (e, differ)
    ]

get-map_roles :
    (m : IndexMap I64 RoleAssignment) (hero : I64)
    → IndexMap.get (map (λ (p : I64 × RoleAssignment). (p.0, p.1.role_id)) m) hero
      ≡ role_of (IndexMap.get m hero)
unfolding IndexMap.get
get-map_roles [] hero = refl
get-map_roles ((k, a) ∷ m) hero = ground (arith, get-map_roles m hero)

keep-all_past :
    (round : I32) (hero : I64) (as' : List RoleAssignment)
    → NoneAfter round as'
    → keep (in_force hero round) as' ≡ keep (of_hero hero) as'
keep-all_past round hero [] h = refl
keep-all_past round hero (a ∷ as') h = ground (arith, keep-all_past round hero as' h.1)

-- `current_roles` gives each hero the role that `role_at` finds in every round that no assignment is
-- past, and no role to a hero for which it finds none.
pub current_roles-eq-role_at :
    (as' : List RoleAssignment) (hero : I64) (round : I32)
    → NoneAfter round as'
    → IndexMap.get (current_roles as') hero ≡ role_at as' hero round
unfolding current_roles role_at
current_roles-eq-role_at as' hero round h =
    get-map_roles (latest_from [] as') hero
    ∙ ap role_of (
        get-latest_from [] as' hero ∙ ap (max_by_round none) (sym (keep-all_past round hero as' h)))
