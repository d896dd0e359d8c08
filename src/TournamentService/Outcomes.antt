-- ===== src/TournamentService/Outcomes.antt =====
-- What a handler that succeeds has passed, and what its statements do to the rows of an entry.
use um_fantasy_league.Common.{
  I32, I64, int_eq, ◌==◌, Bool, true, ◌&&◌, List, [], ◌∷◌, ◌++◌, map, keep, find, Option, none,
  some, ◌≡◌, refl, arith, ◌∙◌, ap, sym, inl, inr, Bool-cases, eqb_ℤ_iff, if◌then◌else◌,
}
use um_fantasy_league.Tournament.{Tournament, TournamentEntry, hero_ids}
use um_fantasy_league.RosterPolicy.{RosterPick, RosterViolation, pick_ids}
use um_fantasy_league.RosterRoles.{Assigned}
use um_fantasy_league.Standings.{RosterSwap}
use um_fantasy_league.TournamentService.{
  ApiResult, ApiError, panicked, price_in, unknown_violations, ok, err, ◌>>=◌, ◌>>◌, or_err, refuse,
  Store, SwapRow, swap_row, find_entry, has_id, swaps_of, upsert_role, slots_of, picks_of,
  resolve_picks, insert_roster_swaps, upsert_entry_roles,
}
use um_fantasy_league.TournamentService.Exchanges.{rows}

pub bind-ok {ℓ κ} :
    {A : Type ℓ} {B : Type κ} (r : ApiResult A) (f : A → ApiResult B) (b : B)
    → (r >>= f) ≡ ok b
    → (a : A) × (r ≡ ok a) × (f a ≡ ok b)
bind-ok (ok a) f b h = (a, refl, h)
bind-ok (err e) f b h = cc

pub or_err-ok {ℓ} :
    {A : Type ℓ} (e : ApiError) (o : Option A) (a : A) → or_err e o ≡ ok a → o ≡ some a
or_err-ok e none a h = cc
or_err-ok e (some b) a h = cc

pub refuse-ok {ℓ} :
    {B : Type ℓ} (vs : List RosterViolation) (r : ApiResult B) (b : B)
    → (refuse vs >> r) ≡ ok b
    → (vs ≡ []) × (r ≡ ok b)
refuse-ok [] r b h = (refl, h)
refuse-ok (v ∷ vs) r b h = cc

abbrev pick_ids_of : ApiResult (List RosterPick) → List I64
pick_ids_of (ok picks) = pick_ids picks
pick_ids_of (err e) = []

pub append-nil {ℓ} : {A : Type ℓ} (xs ys : List A) → xs ++ ys ≡ [] → xs ≡ []
append-nil [] ys h = refl
append-nil (x ∷ xs) ys h = cc

abbrev logged : I64 → List SwapRow → List RosterSwap
logged id rs = map (λ (r : SwapRow). r.swap) (keep (λ (r : SwapRow). r.entry_id == id) rs)

logged-append :
    (id : I64) (rs ts : List SwapRow) → logged id (rs ++ ts) ≡ logged id rs ++ logged id ts
logged-append id [] ts = refl
logged-append id (r ∷ rs) ts = ground (arith, logged-append id rs ts)

logged-own : (id : I64) (ws : List RosterSwap) → logged id (map (swap_row id) ws) ≡ ws
logged-own id [] = refl
logged-own id (w ∷ ws) = ground (arith, logged-own id ws, eqb_ℤ_iff id id)

module _ {D : Type 0} where
  -- The picks are those that were asked for, in their order.
  picks_of-ids :
      (s : Store D) (tournament_id : I64) (ids : List I64) (picks : List RosterPick)
      → picks_of s tournament_id ids ≡ ok picks
      → pick_ids picks ≡ ids
  unfolding picks_of
  picks_of-ids s t [] picks h = sym (ap pick_ids_of h)
  picks_of-ids s t (id ∷ ids) picks h =
      let cost = bind-ok (or_err panicked (price_in s t id)) _ picks h in
      let rest = bind-ok (picks_of s t ids) _ picks cost.2 in
      sym (ap pick_ids_of rest.2) ∙ ap (λ is. id ∷ is) (picks_of-ids s t ids rest.0 rest.1)

  pub resolve_picks-ids :
      (s : Store D) (t : Tournament) (ids : List I64) (picks : List RosterPick)
      → resolve_picks s t ids ≡ ok picks
      → pick_ids picks ≡ ids
  unfolding resolve_picks
  resolve_picks-ids s t [] picks h = sym (ap pick_ids_of h)
  resolve_picks-ids s t (id ∷ ids) picks h =
      let at = bind-ok (or_err panicked t.id) _ picks h in
      let known = refuse-ok (unknown_violations s t.name at.0 (id ∷ ids)) _ picks at.2 in
      picks_of-ids s at.0 (id ∷ ids) picks known.1

  pub swaps_of-insert :
      (s : Store D) (id : I64) (round : I32) (pairs : List (I64 × I64))
      → swaps_of (insert_roster_swaps s id round pairs) id ≡ swaps_of s id ++ rows round pairs
  unfolding insert_roster_swaps
  swaps_of-insert s id round pairs =
      logged-append id s.swaps (map (swap_row id) (rows round pairs))
      ∙ ap (λ ws. swaps_of s id ++ ws) (logged-own id (rows round pairs))

  pub swaps_of-upsert :
      (assigned : List Assigned) (s : Store D) (other id : I64) (round : I32)
      → swaps_of (upsert_entry_roles s other round assigned) id ≡ swaps_of s id
  unfolding upsert_entry_roles
  swaps_of-upsert [] s other id round = refl
  swaps_of-upsert (a ∷ rest) s other id round =
      swaps_of-upsert rest (record s { role_log = upsert_role other round a s.role_log }) other id
        round

abbrev pub is_of : I64 → I64 → TournamentEntry → Bool
is_of tournament_id manager_id e = e.tournament_id == tournament_id && e.manager_id == manager_id

abbrev pub replaced : I64 → TournamentEntry → TournamentEntry → TournamentEntry
replaced id new old = if has_id id old.id then new else old

-- The entry is found with its new slots.
pub find-replaced :
    (tournament_id manager_id id : I64) (entry new : TournamentEntry) (es : List TournamentEntry)
    → find (is_of tournament_id manager_id) es ≡ some entry
    → entry.id ≡ some id
    → is_of tournament_id manager_id new ≡ true
    → find (is_of tournament_id manager_id) (map (replaced id new) es) ≡ some new
find-replaced t m id entry new [] found known mine = cc
find-replaced t m id entry new (e ∷ es) found known mine = elim (Bool-cases (has_id id e.id)) [
  | inl same ↦ rw (same, mine) refl
  | inr other ↦ elim (Bool-cases (is_of t m e)) [
    | inl first ↦
        let here : some e ≡ some entry = rw first at found in
        absurd (ground (arith, eqb_ℤ_iff id id))
    | inr skip ↦ rw (other, skip) (find-replaced t m id entry new es (rw skip at found) known mine)
  ]
]

pub hero_ids-slots_of :
    (entry : TournamentEntry) (picks : List RosterPick)
    → hero_ids (record entry { slots = slots_of picks }) ≡ pick_ids picks
unfolding hero_ids
hero_ids-slots_of entry [] = refl
hero_ids-slots_of entry (p ∷ ps) = ap (λ ids. p.hero_id ∷ ids) (hero_ids-slots_of entry ps)

pub find-is_of :
    (t m : I64) (es : List TournamentEntry) (entry : TournamentEntry)
    → find (is_of t m) es ≡ some entry
    → is_of t m entry ≡ true
find-is_of t m [] entry h = cc
find-is_of t m (e ∷ es) entry h = ground (arith, find-is_of t m es entry)

module _ {D : Type 0} where
  pub find_entry-upsert :
      (assigned : List Assigned) (s : Store D) (t m other : I64) (round : I32)
      → find_entry (upsert_entry_roles s other round assigned) t m ≡ find_entry s t m
  unfolding upsert_entry_roles
  find_entry-upsert [] s t m other round = refl
  find_entry-upsert (a ∷ rest) s t m other round =
      find_entry-upsert rest (record s { role_log = upsert_role other round a s.role_log }) t m
        other round
