-- ===== src/TournamentService/Drafting.antt =====
-- What drafting a roster leaves, whatever others commit between the reads of `set_slots` and its writes.
use um_fantasy_league.Common.{
  ◌<ℤ◌, ◌≤ℤ◌, pos, i32_max, I64, int_eq, ◌==◌, Bool, true, false, not, ◌&&◌, Option, none, some,
  List, [], ◌∷◌, map, keep, any, find, contains, length, length-map, Distinct, All, ◌≡◌, ◌↔◌, refl,
  ◌∙◌, ap, sym, subst, arith, inl, inr, Bool-cases, eqb_ℤ_iff,
}
use um_fantasy_league.Tournament.{Tournament, TournamentEntry, EntryStatus, draft}
use um_fantasy_league.RosterPolicy.{RosterPick, pick_ids, validate_draft}
use um_fantasy_league.RosterPolicy.Draft.{IsOpen, IsDraftable, validate_draft-nil_iff}
use um_fantasy_league.TournamentService.{
  ok, ok-inj, Store, RoleRow, has_id, find_tournament, find_entry, is_unpriced, resolve_picks,
  slots_of, update_entry, delete_draft_roles_except, set_slots,
}
use um_fantasy_league.TournamentService.Outcomes.{
  bind-ok, refuse-ok, find-replaced, replaced, find-is_of, resolve_picks-ids,
}
use um_fantasy_league.TournamentService.Prices.{
  find-has_id, resolve_picks-priced, priced-resolve_picks,
}

some-inj : {a b : I64} → some a ≡ some b → a ≡ b
some-inj h = cc

has_own : {id : I64} {o : Option I64} → o ≡ some id → has_id id o ≡ true
has_own {o = none} e = absurd cc
has_own {id} {o = some other} e = (eqb_ℤ_iff other id).1 (some-inj e)

find-any :
    (test : TournamentEntry → Bool) (id : I64) (es : List TournamentEntry) (e : TournamentEntry)
    → find test es ≡ some e
    → e.id ≡ some id
    → any (λ (e : TournamentEntry). has_id id e.id) es ≡ true
find-any test id [] e h known = cc
find-any test id (d ∷ es) e h known = elim (Bool-cases (test d)) [
  | inl here ↦ let same : some d ≡ some e = rw here at h in rw (has_own (same_id same ∙ known)) refl
  | inr later ↦ ground (arith, find-any test id es e (rw later at h) known)
]
  where
    same_id : {a b : TournamentEntry} → some a ≡ some b → a.id ≡ b.id
    same_id h = cc

-- The entry with the heroes in its slots.
abbrev pub drafted : TournamentEntry → List I64 → TournamentEntry
drafted entry ids = record entry { slots = map (λ (id : I64). record { hero_id = id }) ids }

slots_of-drafted :
    (entry : TournamentEntry) (picks : List RosterPick)
    → record entry { slots = slots_of picks } ≡ drafted entry (pick_ids picks)
slots_of-drafted entry picks = ap (λ ss. record entry { slots = ss }) (by_pick picks)
  where
    by_pick :
        (picks : List RosterPick)
        → slots_of picks ≡ map (λ (id : I64). record { hero_id = id }) (pick_ids picks)
    by_pick [] = refl
    by_pick (p ∷ ps) = ap (λ ss. record { hero_id = p.hero_id } ∷ ss) (by_pick ps)

-- A role of the entry for a hero that is not in its slots.
abbrev pub is_off : I64 → List I64 → RoleRow → Bool
is_off id ids r = r.entry_id == id && not (contains ids r.assignment.hero_id)

abbrev pub is_other : I64 → TournamentEntry → Bool
is_other id e = not (has_id id e.id)

any-keep :
    (id : I64) (ids : List I64) (rs : List RoleRow)
    → any (is_off id ids) (keep (λ r. not (is_off id ids r)) rs) ≡ false
any-keep id ids [] = refl
any-keep id ids (r ∷ rs) = ground (arith, any-keep id ids rs)

keep-keep :
    (id : I64) (ids : List I64) (rs : List RoleRow)
    → keep (λ r. not (is_off id ids r)) (keep (λ r. not (is_off id ids r)) rs)
      ≡ keep (λ r. not (is_off id ids r)) rs
keep-keep id ids [] = refl
keep-keep id ids (r ∷ rs) = ground (arith, keep-keep id ids rs)

others_stay :
    (id : I64) (new : TournamentEntry) (es : List TournamentEntry)
    → has_id id new.id ≡ true
    → keep (is_other id) (map (replaced id new) es) ≡ keep (is_other id) es
others_stay id new [] own = refl
others_stay id new (e ∷ es) own = elim (Bool-cases (has_id id e.id)) [
  | inl same ↦ rw (same, own) (others_stay id new es own)
  | inr other ↦ rw (other, other) (ap (λ rest. e ∷ rest) (others_stay id new es own))
]

module _ {D : Type 0} where
  -- What `set_slots` asks of what it reads: a price for every hero, and a roster that can be kept as a draft.
  pub record MaySetSlots (read : Store D) (tournament_id : I64) (t : Tournament)
      (status : EntryStatus) (ids : List I64) : Type 0 where
    pub priced : All (λ h. is_unpriced read tournament_id h ≡ false) ids
    pub unlocked : status ≡ draft
    pub still_open : IsOpen t
    pub fits : pos (length ids) ≤ℤ t.roster_size
    pub distinct : Distinct ids

  abbrev written : Store D → I64 → TournamentEntry → List I64 → Store D
  written s id entry ids = delete_draft_roles_except (update_entry s id (drafted entry ids)) id ids

  module _ (read s : Store D) (tournament_id manager_id id : I64) (t : Tournament)
      (entry current : TournamentEntry) (ids : List I64)
      (is_t : find_tournament read tournament_id ≡ some t)
      (is_entry : find_entry read tournament_id manager_id ≡ some entry)
      (known : entry.id ≡ some id) (stands : find_entry s tournament_id manager_id ≡ some current)
      (still : current.id ≡ some id) (small : t.roster_size <ℤ i32_max) where
    there : any (λ (e : TournamentEntry). has_id id e.id) s.entries ≡ true
    there = find-any _ id s.entries current stands still

    IsDraftable-MaySetSlots :
        (picks : List RosterPick)
        → resolve_picks read t ids ≡ ok picks
        → IsDraftable picks t entry.status ↔ MaySetSlots read tournament_id t entry.status ids
    IsDraftable-MaySetSlots picks resolved =
        let asked = resolve_picks-ids read t ids picks resolved in
        let many : length ids ≡ length picks =
          ap length (sym asked) ∙ length-map (λ (p : RosterPick). p.hero_id) picks in
        (
          λ d. record {
            priced =
                resolve_picks-priced read t tournament_id ids picks
                  (find-has_id tournament_id read.tournaments t is_t) resolved;
            unlocked = d.unlocked;
            still_open = d.still_open;
            fits = rw many d.fits;
            distinct = subst (λ is. Distinct is) asked d.distinct;
          },
          λ m. record {
            unlocked = m.unlocked;
            still_open = m.still_open;
            fits = rw (← many) m.fits;
            distinct = subst (λ is. Distinct is) (sym asked) m.distinct;
          },
        )

    set_slots-written :
        MaySetSlots read tournament_id t entry.status ids
        → set_slots read s tournament_id manager_id ids ≡ ok (written s id entry ids)
    unfolding set_slots
    set_slots-written may =
        let found =
          priced-resolve_picks read t tournament_id ids
            (find-has_id tournament_id read.tournaments t is_t) may.priced in
        let picks = found.0 in
        let asked = resolve_picks-ids read t ids picks found.1 in
        let accepted =
          (validate_draft-nil_iff picks t entry.status small).1
            ((IsDraftable-MaySetSlots picks found.1).1 may) in
        rw (is_t, is_entry, found.1, accepted, known, there)
          (ap ok (
            ap (λ e. delete_draft_roles_except (update_entry s id e) id (pick_ids picks))
              (slots_of-drafted (record entry { id = some id }) picks)
            ∙ ap (λ is. written s id (record entry { id = some id }) is) asked))

    set_slots-MaySetSlots :
        (s' : Store D)
        → set_slots read s tournament_id manager_id ids ≡ ok s'
        → MaySetSlots read tournament_id t entry.status ids
    unfolding set_slots
    set_slots-MaySetSlots s' h =
        let g = rw (is_t, is_entry) at h in
        let picked = bind-ok (resolve_picks read t ids) _ s' g in
        let clear = refuse-ok (validate_draft picked.0 t entry.status) _ s' picked.2 in
        (IsDraftable-MaySetSlots picked.0 picked.1).0
          ((validate_draft-nil_iff picked.0 t entry.status small).0 clear.0)

    -- For a tournament and an entry of it that `set_slots` reads, with a roster size below the largest
    -- `i32`, and an entry of the manager that stands under the same id when it writes, which others may have
    -- changed in between: `set_slots` succeeds exactly if the heroes have prices in the tournament's pool, the
    -- entry was read as a draft, the tournament as scheduled or open for registration, and the heroes are
    -- no more than the roster size and without repetition. When it succeeds, the manager's entry is the one
    -- that was read with those heroes in its slots, all other entries, the tournaments and the swaps stay as
    -- they stand, the entry has no role for a hero that is not in its slots, and no other row of roles is lost.
    pub set_slots_lem :
        (((s' : Store D) × (set_slots read s tournament_id manager_id ids ≡ ok s'))
          ↔ MaySetSlots read tournament_id t entry.status ids)
        × ((s' : Store D)
            → set_slots read s tournament_id manager_id ids ≡ ok s'
            → (find_entry s' tournament_id manager_id ≡ some (drafted entry ids))
              × (keep (is_other id) s'.entries ≡ keep (is_other id) s.entries)
              × (s'.tournaments ≡ s.tournaments)
              × (s'.swaps ≡ s.swaps)
              × (any (is_off id ids) s'.role_log ≡ false)
              × (keep (λ r. not (is_off id ids r)) s'.role_log
                  ≡ keep (λ r. not (is_off id ids r)) s.role_log))
    unfolding update_entry delete_draft_roles_except
    set_slots_lem = (
      (λ r. set_slots-MaySetSlots r.0 r.1, λ may. (written s id entry ids, set_slots-written may)),
      λ s' h.
          let same : written s id entry ids ≡ s' =
            ok-inj (sym (set_slots-written (set_slots-MaySetSlots s' h)) ∙ h) in
          rw (← same) (
            find-replaced tournament_id manager_id id current (drafted entry ids) s.entries stands
                still (find-is_of tournament_id manager_id read.entries entry is_entry),
            others_stay id (drafted entry ids) s.entries (has_own known),
            refl,
            refl,
            any-keep id ids s.role_log,
            keep-keep id ids s.role_log,
          ),
    )
