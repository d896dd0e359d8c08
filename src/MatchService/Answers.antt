-- ===== src/MatchService/Answers.antt =====
-- What recording a match answers, against what was submitted.
use um_fantasy_league.Common.{
  I32, I64, int_eq, nat_eq, list_eq, ◌==◌, ==_refl, Bool, true, Option, some, List, [], map, keep,
  All-map, ◌≡◌, ap, sym, ◌∙◌,
}
use um_fantasy_league.Common.Text.{Text}
use um_fantasy_league.Common.Sorting.{sort, IsOrder}
use um_fantasy_league.Common.Pages.{keep_new, sort_sorted, map-agree, All-of_map}
use um_fantasy_league.Unicode.{Unicode}
use um_fantasy_league.Tournament.{DateTime}
use um_fantasy_league.MatchResult.{MatchParticipantResult, MatchResult, push_fresh}
use um_fantasy_league.MatchPolicy.Input.{MatchParticipantInput, MatchGameInput, MatchBanInput}
use um_fantasy_league.MatchService.{
  done, MatchTables, ParticipantRow, MatchParticipantWrite, TournamentMatchWrite, enumerate, by,
  match_row, match_participant, blank_to_none, to_participants, to_picks, record_match,
}
use um_fantasy_league.MatchService.Own.{own_picks, own_participants, own_match}
use um_fantasy_league.MatchService.Children.{new_participant, Added, IsBelow, Reach-IsBelow}
use um_fantasy_league.MatchService.Links.{below-fresh, Reach-IsKeyed}
use um_fantasy_league.MatchService.Recording.{read_back}
use um_fantasy_league.MatchService.Sides.{
  enumerate-map, new_participants-IsSorted, on_side, side-picks,
}
use um_fantasy_league.MatchService.States.{Reach}
use um_fantasy_league.MatchService.Written.{record_match-done}
use um_fantasy_league.MatchService.Named.{
  map-map, not_new, insert-Added, named_heroes, named_bans, own_bans-named, own_picks-named,
}

module _ (collate : Text → Text → Bool) where
  -- A submitted side, as it is read back.
  abbrev pub answered_side :
      Unicode → MatchTables → I32 × MatchParticipantInput → MatchParticipantResult
  answered_side u s p = record {
    side = p.0;
    player_label = blank_to_none u p.1.player_label;
    drafted_heroes = named_heroes collate s (push_fresh [] p.1.drafted_hero_ids);
  }

  own_participants-answered :
      (u : Unicode) (s s' : MatchTables) (w : TournamentMatchWrite)
      (participants : List MatchParticipantInput)
      → IsBelow s.next_match_id s
      → Added s s' s.next_match_id w
      → w.participants ≡ to_participants u participants
      → w.picks ≡ to_picks participants
      → own_participants collate s' s.next_match_id
        ≡ map (answered_side u s) (enumerate 0 participants)
  unfolding to_participants to_picks
  own_participants-answered u s s' w ps b a sides picks =
      let id = s.next_match_id in
      let is_of = λ (r : ParticipantRow). r.match_id == id in
      let read =
        match_participant collate (λ (p : ParticipantRow). own_picks collate s' id p.side) in
      let label : MatchParticipantInput → MatchParticipantWrite =
        λ p. record { player_label = blank_to_none u p.player_label } in
      let rows : keep is_of s'.participants
          ≡ map (new_participant id) (enumerate 0 w.participants) =
        ap (keep is_of) a.participants
        ∙ keep_new is_of s.participants (map (new_participant id) (enumerate 0 w.participants))
            (All-map (λ (r : ParticipantRow) h. not_new r.match_id id h) s.participants
              b.participants)
            (All-of_map (λ (r : ParticipantRow). is_of r ≡ true) (new_participant id)
              (enumerate 0 w.participants) (λ _. ==_refl id)) in
      ap (λ rs. map read (sort (by (λ (p : ParticipantRow). p.side)) rs)) rows
      ∙ ap (map read) (
          sort_sorted (by (λ (p : ParticipantRow). p.side)) _
            (new_participants-IsSorted id 0 w.participants))
      ∙ map-map read (new_participant id) (enumerate 0 w.participants)
      ∙ ap (λ ws. map (λ q. read (new_participant id q)) (enumerate 0 ws)) sides
      ∙ ap (map (λ q. read (new_participant id q))) (enumerate-map label 0 ps)
      ∙ map-map _ _ (enumerate 0 ps)
      ∙ map-agree _ (answered_side u s) (enumerate 0 ps) (
          All-map
            (λ (p : I32 × MatchParticipantInput) h.
              ap
                (λ heroes.
                  match_participant collate (λ _. heroes) (new_participant id (p.0, label p.1)))
                (own_picks-named collate s s' w p.0 (push_fresh [] p.1.drafted_hero_ids) b a
                  (ap (keep (on_side p.0)) picks ∙ h)))
            (enumerate 0 ps) (side-picks 0 ps))

  -- For a collation that is a total order of names, in every state that the handlers reach: a
  -- match whose recording succeeds is answered with the sides of the submission, in their order,
  -- each with its label, trimmed or none where it is blank, and the heroes that it drafted, each
  -- once, under their names and by name; and with the bans of the submission, of the type and the
  -- side that they had, under their heroes' names and by name. A hero without a name is left out.
  pub record_match-answers :
      (u : Unicode) (o : IsOrder collate) (s : MatchTables) (tournament_id : I64)
      (round : Option I32) (played_at : DateTime) (link : Text)
      (participants : List MatchParticipantInput) (games : List MatchGameInput)
      (bans : List MatchBanInput) (s' : MatchTables) (m : MatchResult)
      → Reach collate u s
      → record_match collate u s tournament_id round played_at link participants games bans
        ≡ done (s', m)
      → (m.participants ≡ map (answered_side u s) (enumerate 0 participants))
        × (m.bans ≡ named_bans collate s bans)
  record_match-answers u o s tid round at link ps gs bans s' m reach h =
      let d = record_match-done collate u s tid round at link ps gs bans s' m h in
      let w = d.0 in
      let a = insert-Added s s' w s.next_match_id d.4 in
      let b = Reach-IsBelow collate u s reach in
      let k = Reach-IsKeyed collate u s reach in
      let own = read_back collate u o s s' w (below-fresh s.next_match_id s.matches k.below) d.4 in
      let same : m ≡ own_match collate s' (match_row s.next_match_id w) = only (sym d.5 ∙ own) in
      (
        ap (λ (x : MatchResult). x.participants) same
            ∙ own_participants-answered u s s' w ps b a d.6 d.8,
        ap (λ (x : MatchResult). x.bans) same ∙ own_bans-named collate s s' w bans b a d.7,
      )
    where
      only : {x y : MatchResult} → some x ≡ some y → x ≡ y
      only e = cc
