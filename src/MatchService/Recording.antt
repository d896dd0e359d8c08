-- ===== src/MatchService/Recording.antt =====
-- Recording a match, by its link.
use um_fantasy_league.Common.{
  pos, I32, I64, int_eq, nat_eq, list_eq, ◌==◌, ==_refl, ◌+ℤ◌, leb_ℤ, Bool, true, false, Option,
  none, some, List, [], ◌∷◌, ◌++◌, map, keep, any, find, contains, ◌≡◌, refl, arith, ap, ◌∙◌,
}
use um_fantasy_league.Common.Text.{Text}
use um_fantasy_league.Common.Sorting.{IsOrder}
use um_fantasy_league.Unicode.{Unicode, trim}
use um_fantasy_league.Tournament.{Tournament, DateTime}
use um_fantasy_league.TournamentService.{has_id}
use um_fantasy_league.MatchResult.{MatchResult}
use um_fantasy_league.MatchPolicy.Input.{MatchParticipantInput, MatchGameInput, MatchBanInput}
use um_fantasy_league.MatchService.{
  done, failed, link_taken, MatchTables, MatchRow, TournamentMatchWrite, match_row, has_link,
  insert, insert_children, violations_of, require_link_unused, find_id_by_external_link, find_by_id,
  head_of, assemble, write_of, or_else, record_match,
}
use um_fantasy_league.MatchService.Keys.{row_id, is_link_of_another}
use um_fantasy_league.MatchService.States.{Reach}
use um_fantasy_league.MatchService.Written.{insert-done}
use um_fantasy_league.MatchService.Links.{below-fresh, Reach-IsKeyed}
use um_fantasy_league.MatchService.Assembly.{assemble-own_match}
use um_fantasy_league.MatchService.Own.{own_match}

unlinked :
    (id t : I64) (link : Text) (rows : List MatchRow)
    → find (has_link t link) rows ≡ none
    → any (is_link_of_another id t link) rows ≡ false
unlinked id t link [] h = refl
unlinked id t link (r ∷ rs) h = ground (arith, unlinked id t link rs, h)

find_last :
    (p : MatchRow → Bool) (rows : List MatchRow) (new : MatchRow)
    → find p rows ≡ none
    → p new ≡ true
    → find p (rows ++ new ∷ []) ≡ some new
find_last p [] new h yes_new = rw yes_new refl
find_last p (r ∷ rs) new h yes_new = ground (arith, find_last p rs new, h, yes_new)

keep_last :
    (id : I64) (rows : List MatchRow) (new : MatchRow)
    → contains (map row_id rows) id ≡ false
    → new.id ≡ id
    → keep (λ (h : MatchRow). h.id == id) (rows ++ new ∷ []) ≡ new ∷ []
keep_last id [] new h e = rw (e, ==_refl id) refl
keep_last id (r ∷ rs) new h e = ground (arith, keep_last id rs new, h, e)

link_row :
    (s : MatchTables) (t : I64) (link : Text)
    → find_id_by_external_link s t link ≡ none
    → find (has_link t link) s.matches ≡ none
unfolding find_id_by_external_link
link_row s t link h = go (find (has_link t link) s.matches) h
  where
    go :
        (found : Option MatchRow)
        → elim found [ none ↦ none | some row ↦ some row.id ] ≡ none
        → found ≡ none
    go none e = refl
    go (some row) e = cc

linked :
    (s : MatchTables) (t : I64) (link : Text) (row : MatchRow)
    → find (has_link t link) s.matches ≡ some row
    → find_id_by_external_link s t link ≡ some row.id
unfolding find_id_by_external_link
linked s t link row h =
    ap (λ (found : Option MatchRow). elim found [ none ↦ none | some r ↦ some r.id ]) h

unused_passes :
    (s : MatchTables) (t : I64) (link : Text)
    → find_id_by_external_link s t link ≡ none
    → require_link_unused s t link none ≡ done tt
unfolding require_link_unused
unused_passes s t link h = rw (require_link_unused, h) refl

taken_fails :
    (s : MatchTables) (t id : I64) (link : Text)
    → find_id_by_external_link s t link ≡ some id
    → require_link_unused s t link none ≡ failed (link_taken id link)
unfolding require_link_unused
taken_fails s t id link h = rw (require_link_unused, h) refl

module _ (collate : Text → Text → Bool) (u : Unicode) (o : IsOrder collate) where
  pub read_back :
      (s s' : MatchTables) (w : TournamentMatchWrite)
      → contains (map row_id s.matches) s.next_match_id ≡ false
      → insert s w ≡ done (s', s.next_match_id)
      → find_by_id collate s' s.next_match_id
        ≡ some (own_match collate s' (match_row s.next_match_id w))
  unfolding find_by_id
  read_back s s' w fresh h =
      let id = s.next_match_id in
      let new = match_row id w in
      let rows = (insert-done s w (s', id) h).2 in
      ap (λ hs. head_of collate (assemble collate s' hs))
        (ap (keep (λ (h : MatchRow). h.id == id)) rows ∙ keep_last id s.matches new fresh refl)
      ∙ ap (head_of collate) (assemble-own_match collate o s' (new ∷ []))

  inserted :
      (s : MatchTables) (w : TournamentMatchWrite)
      → leb_ℤ w.round (pos 0) ≡ false
      → find (has_link w.tournament_id w.external_link) s.matches ≡ none
      → (s' : MatchTables) × (insert s w ≡ done (s', s.next_match_id))
  unfolding insert
  inserted s w positive absent =
      let free = unlinked s.next_match_id w.tournament_id w.external_link s.matches absent in
      let rooted = record s {
        matches = s.matches ++ match_row s.next_match_id w ∷ [];
        next_match_id = s.next_match_id +ℤ pos 1;
      } in
      (insert_children rooted s.next_match_id w, rw (positive, free) refl)

  module _ (s : MatchTables) (tournament_id : I64) (t : Tournament) (round : Option I32)
      (played_at : DateTime) (link : Text) (participants : List MatchParticipantInput)
      (games : List MatchGameInput) (bans : List MatchBanInput) where
    -- What the request submits, under the trimmed link and in its round or else the current one.
    abbrev pub submitted : TournamentMatchWrite
    submitted =
        write_of collate u none tournament_id (or_else round t.current_round) played_at
          (trim u link) participants games bans

    -- `record` succeeds when every step of it does.
    pub record_match-steps :
        (s' : MatchTables) (id : I64) (m : MatchResult)
        → find (λ (x : Tournament). has_id tournament_id x.id) s.tournaments ≡ some t
        → violations_of u s tournament_id participants games bans ≡ []
        → require_link_unused s tournament_id (trim u link) none ≡ done tt
        → insert s submitted ≡ done (s', id)
        → find_by_id collate s' id ≡ some m
        → record_match collate u s tournament_id round played_at link participants games bans
          ≡ done (s', m)
    unfolding record_match
    record_match-steps s' id m is_t clean free stored read =
        rw (is_t, clean, free, stored, read) refl

    -- For a collation that is a total order of names, in every state that the handlers reach, for
    -- a tournament that exists, a submission without violations of the policy and a positive
    -- round, the given one or else the tournament's current one: if no match of the tournament has
    -- the trimmed link, recording succeeds, answers the new row with its own children, read back,
    -- and the link is from then on found under the new id; if a match has it, recording is refused
    -- and names that match.
    pub record_match_lem :
        Reach collate u s
        → find (λ (x : Tournament). has_id tournament_id x.id) s.tournaments ≡ some t
        → violations_of u s tournament_id participants games bans ≡ []
        → leb_ℤ (or_else round t.current_round) (pos 0) ≡ false
        → (find_id_by_external_link s tournament_id (trim u link) ≡ none
            → (s' : MatchTables) × (record_match collate u s tournament_id round played_at link
                  participants games bans
                ≡ done (s', own_match collate s' (match_row s.next_match_id submitted)))
              × (find_id_by_external_link s' tournament_id (trim u link) ≡ some s.next_match_id))
          × ((id : I64)
              → find_id_by_external_link s tournament_id (trim u link) ≡ some id
              → record_match collate u s tournament_id round played_at link participants games bans
                ≡ failed (link_taken id (trim u link)))
    unfolding record_match
    record_match_lem reach is_t clean positive = (
      λ unused.
          let k = Reach-IsKeyed collate u s reach in
          let absent = link_row s tournament_id (trim u link) unused in
          let new = match_row s.next_match_id submitted in
          let stored = inserted s submitted positive absent in
          let rows = (insert-done s submitted (stored.0, s.next_match_id) stored.1).2 in
          let read =
            read_back s stored.0 submitted (below-fresh s.next_match_id s.matches k.below)
              stored.1 in
          let mine : has_link tournament_id (trim u link) new ≡ true =
            ground (arith, ==_refl tournament_id, ==_refl (trim u link)) in
          (
            stored.0,
            record_match-steps stored.0 s.next_match_id (own_match collate stored.0 new) is_t clean
                (unused_passes s tournament_id (trim u link) unused) stored.1 read,
            linked stored.0 tournament_id (trim u link) new (
                ap (find (has_link tournament_id (trim u link))) rows
                ∙ find_last (has_link tournament_id (trim u link)) s.matches new absent mine),
          ),
      λ id taken. rw (is_t, clean, taken_fails s tournament_id id (trim u link) taken) refl,
    )
