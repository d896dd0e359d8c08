-- ===== src/MatchService/Links.antt =====
-- The links of the matches of a tournament, in every state that the handlers reach.
use um_fantasy_league.Common.{
  ℤ, pos, I64, int_eq, nat_eq, list_eq, pair_eq, ◌==◌, ◌+ℤ◌, +ℤ_parts, ◌<ℤ◌, Bool, false, not, some,
  List, [], ◌∷◌, ◌++◌, map, contains, Distinct, All, ◌≡◌, refl, arith, subst, eqb_ℤ_iff,
}
use um_fantasy_league.Common.Text.{Text}
use um_fantasy_league.Common.Pages.{All-keep}
use um_fantasy_league.Unicode.{Unicode}
use um_fantasy_league.MatchService.{
  done, done-inj, MatchTables, MatchRow, TournamentMatchWrite, match_row, insert, update,
  delete_match, delete_children, require_match, delete,
}
use um_fantasy_league.MatchService.Keys.{
  link_key, row_id, replaced_row, append-Distinct, keep-Distinct, replaced_row-ids,
  replaced_row-Distinct, others-lack,
}
use um_fantasy_league.MatchService.States.{
  Step, records, corrects, deletes, cascades, edits, Reach, here, next,
}
use um_fantasy_league.MatchService.Written.{
  bind-done, insert-done, update-done, record_match-done, correct-done,
}

abbrev IsBelow : ℤ → MatchRow → Type 0
IsBelow n row = row.id <ℤ n

pub below-fresh :
    (n : I64) (rows : List MatchRow) → All (IsBelow n) rows → contains (map row_id rows) n ≡ false
below-fresh n [] h = refl
below-fresh n (r ∷ rs) h = ground (arith, below-fresh n rs h.1, h.0, eqb_ℤ_iff r.id n)

IsBelow-next : (n : I64) (r : MatchRow) → IsBelow n r → IsBelow (n +ℤ pos 1) r
IsBelow-next n r h = ground (arith, +ℤ_parts n (pos 1), h)

is_below_next : (n : I64) → n <ℤ n +ℤ pos 1
is_below_next n = ground (arith, +ℤ_parts n (pos 1))

IsBelow-append :
    (n : I64) (rows : List MatchRow) (new : MatchRow)
    → All (IsBelow n) rows
    → new.id ≡ n
    → All (IsBelow (n +ℤ pos 1)) (rows ++ new ∷ [])
IsBelow-append n [] new h e = (rw e (is_below_next n), tt)
IsBelow-append n (r ∷ rs) new h e = (IsBelow-next n r h.0, IsBelow-append n rs new h.1 e)

IsBelow-replaced_row :
    (n id : I64) (new : MatchRow) (rows : List MatchRow)
    → All (IsBelow n) rows
    → new.id ≡ id
    → All (IsBelow n) (map (replaced_row id new) rows)
IsBelow-replaced_row n id new [] h e = tt
IsBelow-replaced_row n id new (r ∷ rs) h e =
    (ground (arith, h.0, e, eqb_ℤ_iff r.id id), IsBelow-replaced_row n id new rs h.1 e)

-- Ids and links are distinct, and the ids are below the next one.
pub record IsKeyed (s : MatchTables) : Type 0 where
  pub ids : Distinct (map row_id s.matches)
  pub links : Distinct (map link_key s.matches)
  pub below : All (IsBelow s.next_match_id) s.matches

insert-IsKeyed :
    (s s' : MatchTables) (w : TournamentMatchWrite) (id : I64)
    → insert s w ≡ done (s', id)
    → IsKeyed s
    → IsKeyed s'
insert-IsKeyed s s' w id h k =
    let d = insert-done s w (s', id) h in
    let new = match_row s.next_match_id w in
    let fresh = below-fresh s.next_match_id s.matches k.below in
    record {
      ids = rw d.2 (append-Distinct row_id s.matches new k.ids fresh);
      links = rw d.2 (
          append-Distinct link_key s.matches new k.links
            (others-lack s.matches s.next_match_id w.tournament_id w.external_link fresh d.0.link));
      below = rw (d.2, d.3) (IsBelow-append s.next_match_id s.matches new k.below refl);
    }

update-IsKeyed :
    (s s' : MatchTables) (w : TournamentMatchWrite) (id : I64)
    → w.id ≡ some id
    → update s w ≡ done s'
    → IsKeyed s
    → IsKeyed s'
update-IsKeyed s s' w id known h k =
    let d = update-done s id w s' known h in
    let new = match_row id w in
    record {
      ids = rw (d.1, replaced_row-ids id new s.matches refl) k.ids;
      links = rw d.1 (replaced_row-Distinct id new s.matches k.ids k.links d.0.link);
      below = rw (d.1, d.2) (IsBelow-replaced_row s.next_match_id id new s.matches k.below refl);
    }

delete_match-IsKeyed : (s : MatchTables) (id : I64) → IsKeyed s → IsKeyed (delete_match s id)
unfolding delete_match delete_children
delete_match-IsKeyed s id k =
    let stays = λ (row : MatchRow). not (row.id == id) in
    record {
      ids = keep-Distinct row_id stays s.matches k.ids;
      links = keep-Distinct link_key stays s.matches k.links;
      below = All-keep (IsBelow s.next_match_id) stays s.matches k.below;
    }

module _ (collate : Text → Text → Bool) (u : Unicode) where
  step-IsKeyed : (s s' : MatchTables) → Step collate u s s' → IsKeyed s → IsKeyed s'
  unfolding delete
  step-IsKeyed s s' (records t round at link ps gs bs {m = m} h) = λ k.
      let d = record_match-done collate u s t round at link ps gs bs s' m h in
      insert-IsKeyed s s' d.0 s.next_match_id d.4 k
  step-IsKeyed s s' (corrects t id round at link ps gs bs {m = m} h) = λ k.
      let d = correct-done collate u s t id round at link ps gs bs s' m h in
      update-IsKeyed s s' d.0 id d.1 d.5 k
  step-IsKeyed s s' (deletes t id h) = λ k.
      let found = bind-done (require_match s t id) _ s' h in
      subst IsKeyed (done-inj found.2) (delete_match-IsKeyed s id k)
  step-IsKeyed s _ (cascades id) = delete_match-IsKeyed s id
  step-IsKeyed s _ (edits ts hs ms ps mps) =
      λ k. record { ids = k.ids; links = k.links; below = k.below }

  pub Reach-IsKeyed : (s : MatchTables) → Reach collate u s → IsKeyed s
  Reach-IsKeyed _ here = record { ids = tt; links = tt; below = tt }
  Reach-IsKeyed _ (next {s} {s'} before step) = step-IsKeyed s s' step (Reach-IsKeyed s before)

  -- In every state of the tables that recording, correcting and deleting matches, the deletions of
  -- their tournaments and edits of the catalogues and pools lead to from the empty tables, in any
  -- order: no two matches have the same id, and no two matches of a tournament have the same
  -- external link.
  pub links-Distinct :
      (s : MatchTables)
      → Reach collate u s
      → Distinct (map row_id s.matches) × Distinct (map link_key s.matches)
  links-Distinct s reach = let k = Reach-IsKeyed s reach in (k.ids, k.links)
