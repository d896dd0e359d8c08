-- ===== src/MatchService/Children.antt =====
-- The participants, bans and picks of matches in every state that the handlers reach: none is of a
-- match that is yet to come.
use um_fantasy_league.Common.{
  pos, I32, I64, int_eq, ◌==◌, ◌+ℤ◌, +ℤ_parts, ◌<ℤ◌, Bool, not, none, some, Option, List, [], ◌∷◌,
  ◌++◌, map, keep, find, All, All-map, ◌≡◌, refl, arith, ap, sym, subst, inl, inr, Bool-cases,
  eqb_ℤ_iff, if◌then◌else◌,
}
use um_fantasy_league.Common.Text.{Text, codes}
use um_fantasy_league.Common.Pages.{All-keep, All-append, All-of_map}
use um_fantasy_league.Unicode.{Unicode}
use um_fantasy_league.MatchResult.{as_str}
use um_fantasy_league.MatchService.{
  admit_row, failed, no_match, done, done-inj, MatchTables, MatchRow, ParticipantRow, BanRow,
  PickRow, MatchParticipantWrite, MatchGameWrite, HeroBanWrite, HeroPickWrite, TournamentMatchWrite,
  enumerate, match_row, insert_game, insert_games, insert_participants, insert_bans, insert_picks,
  insert_children, delete_children, insert, update, delete_match, require_match, delete,
}
use um_fantasy_league.MatchService.States.{
  Step, records, corrects, deletes, cascades, edits, Reach, here, next,
}
use um_fantasy_league.MatchService.Keys.{replaced_row}
use um_fantasy_league.MatchService.Written.{
  bind-done, then-done, record_match-done, correct-done, insert_children-SameMatches,
}
use um_fantasy_league.MatchService.Links.{IsKeyed, Reach-IsKeyed}

-- The rows that a submission adds.
abbrev pub new_participant : I64 → I32 × MatchParticipantWrite → ParticipantRow
new_participant id p = record { match_id = id; side = p.0; player_label = p.1.player_label }

abbrev pub new_ban : I64 → HeroBanWrite → BanRow
new_ban id b = record {
  match_id = id;
  hero_id = b.hero_id;
  ban_type = codes (as_str b.ban_type);
  side = b.side;
}

abbrev pub new_pick : I64 → HeroPickWrite → PickRow
new_pick id p = record { match_id = id; side = p.side; hero_id = p.hero_id }

-- What a table has after an insert of children.
pub record Added (s s' : MatchTables) (id : I64) (m : TournamentMatchWrite) : Type 0 where
  pub heroes : s'.heroes ≡ s.heroes
  pub participants :
      s'.participants ≡ s.participants ++ map (new_participant id) (enumerate 0 m.participants)
  pub bans : s'.bans ≡ s.bans ++ map (new_ban id) m.bans
  pub picks : s'.picks ≡ s.picks ++ map (new_pick id) m.picks

abbrev SameSides : MatchTables → MatchTables → Type 0
SameSides s s' =
    (s'.heroes ≡ s.heroes)
    × (s'.participants ≡ s.participants)
    × (s'.bans ≡ s.bans)
    × (s'.picks ≡ s.picks)

insert_games-SameSides :
    (s : MatchTables) (id t : I64) (gs : List MatchGameWrite) → SameSides s (insert_games s id t gs)
unfolding insert_games insert_game
insert_games-SameSides s id t [] = (refl, refl, refl, refl)
insert_games-SameSides s id t (g ∷ gs) = insert_games-SameSides (insert_game s id t g) id t gs

pub insert_children-Added :
    (s : MatchTables) (id : I64) (m : TournamentMatchWrite) → Added s (insert_children s id m) id m
unfolding insert_children insert_participants insert_bans insert_picks as_str
insert_children-Added s id m =
    let same = insert_games-SameSides (insert_participants s id m) id m.tournament_id m.games in
    record {
      heroes = same.0;
      participants = same.1;
      bans = ap (λ bs. bs ++ map (new_ban id) m.bans) same.2;
      picks = ap (λ ps. ps ++ map (new_pick id) m.picks) same.3;
    }

-- The children are of matches below an id.
pub record IsBelow (n : I64) (s : MatchTables) : Type 0 where
  pub participants : All (λ (p : ParticipantRow). p.match_id <ℤ n) s.participants
  pub bans : All (λ (b : BanRow). b.match_id <ℤ n) s.bans
  pub picks : All (λ (p : PickRow). p.match_id <ℤ n) s.picks

Added-IsBelow :
    (n id : I64) (s s' : MatchTables) (m : TournamentMatchWrite)
    → id <ℤ n
    → Added s s' id m
    → IsBelow n s
    → IsBelow n s'
Added-IsBelow n id s s' m small a b = record {
  participants = rw a.participants (
      All-append _ s.participants _ b.participants
        (All-of_map _ (new_participant id) (enumerate 0 m.participants) (λ _. small)));
  bans = rw a.bans (All-append _ s.bans _ b.bans (All-of_map _ (new_ban id) m.bans (λ _. small)));
  picks =
      rw a.picks (All-append _ s.picks _ b.picks (All-of_map _ (new_pick id) m.picks (λ _. small)));
}

above : (k n : I64) → k <ℤ n → k <ℤ n +ℤ pos 1
above k n h = ground (arith, +ℤ_parts n (pos 1), h)

above_itself : (n : I64) → n <ℤ n +ℤ pos 1
above_itself n = ground (arith, +ℤ_parts n (pos 1))

raised-IsBelow : (n : I64) (s : MatchTables) → IsBelow n s → IsBelow (n +ℤ pos 1) s
raised-IsBelow n s b = record {
  participants = All-map (λ p h. above p.match_id n h) s.participants b.participants;
  bans = All-map (λ p h. above p.match_id n h) s.bans b.bans;
  picks = All-map (λ p h. above p.match_id n h) s.picks b.picks;
}

deleted-IsBelow : (n id : I64) (s : MatchTables) → IsBelow n s → IsBelow n (delete_children s id)
unfolding delete_children
deleted-IsBelow n id s b = record {
  participants = All-keep _ _ s.participants b.participants;
  bans = All-keep _ _ s.bans b.bans;
  picks = All-keep _ _ s.picks b.picks;
}

moved-IsBelow :
    (n : I64) (x y : MatchTables)
    → x ≡ y
    → x.next_match_id ≡ n
    → IsBelow n x
    → IsBelow y.next_match_id y
moved-IsBelow n x y e at b =
    subst (λ (z : MatchTables). IsBelow z.next_match_id z) e (subst (λ k. IsBelow k x) (sym at) b)

insert-IsBelow :
    (s s' : MatchTables) (w : TournamentMatchWrite) (id : I64)
    → insert s w ≡ done (s', id)
    → IsBelow s.next_match_id s
    → IsBelow s'.next_match_id s'
unfolding insert
insert-IsBelow s s' w id h b =
    let k = s.next_match_id in
    let rooted = record s {
      matches = s.matches ++ match_row k w ∷ [];
      next_match_id = k +ℤ pos 1;
    } in
    let r : MatchTables × I64 = (s', id) in
    let made = done-inj (then-done (admit_row s k w) _ r h).1 in
    let same = insert_children-SameMatches rooted k w in
    let raised = raised-IsBelow k s b in
    moved-IsBelow (k +ℤ pos 1) (insert_children rooted k w) s'
      (ap (λ (x : MatchTables × I64). x.0) made) same.1
      (Added-IsBelow (k +ℤ pos 1) k rooted (insert_children rooted k w) w (above_itself k)
        (insert_children-Added rooted k w)
        (record { participants = raised.participants; bans = raised.bans; picks = raised.picks }))

update-IsBelow :
    (s s' : MatchTables) (w : TournamentMatchWrite) (id : I64)
    → w.id ≡ some id
    → id <ℤ s.next_match_id
    → update s w ≡ done s'
    → IsBelow s.next_match_id s
    → IsBelow s'.next_match_id s'
unfolding update delete_children
update-IsBelow s s' w id known small h b =
    let rooted = record s { matches = map (replaced_row id (match_row id w)) s.matches } in
    let g = rw known at h in
    let made = done-inj (then-done (admit_row s id w) _ s' g).1 in
    let cleared = delete_children rooted id in
    let same = insert_children-SameMatches cleared id w in
    let kept =
      deleted-IsBelow s.next_match_id id rooted
        (record { participants = b.participants; bans = b.bans; picks = b.picks }) in
    moved-IsBelow s.next_match_id (insert_children cleared id w) s' made same.1 (
      Added-IsBelow s.next_match_id id cleared (insert_children cleared id w) w small
        (insert_children-Added cleared id w) kept)

delete_match-IsBelow :
    (s : MatchTables) (id : I64)
    → IsBelow s.next_match_id s
    → IsBelow (delete_match s id).next_match_id (delete_match s id)
unfolding delete_match delete_children
delete_match-IsBelow s id b =
    deleted-IsBelow s.next_match_id id
      (record s { matches = keep (λ (row : MatchRow). not (row.id == id)) s.matches })
      (record { participants = b.participants; bans = b.bans; picks = b.picks })

-- A match that is found has an id below the next one.
found-below :
    (n id : I64) (rows : List MatchRow) (row : MatchRow)
    → All (λ (r : MatchRow). r.id <ℤ n) rows
    → find (λ (r : MatchRow). r.id == id) rows ≡ some row
    → id <ℤ n
found-below n id [] row b h = cc
found-below n id (r ∷ rs) row b h = elim (Bool-cases (r.id == id)) [
  | inl this ↦ ground (arith, b.0, eqb_ℤ_iff r.id id)
  | inr other ↦ found-below n id rs row b.1 (rw other at h)
]

required-below :
    (s : MatchTables) (t id : I64) (round : I32)
    → All (λ (r : MatchRow). r.id <ℤ s.next_match_id) s.matches
    → require_match s t id ≡ done round
    → id <ℤ s.next_match_id
required-below s t id round b h = go (find (λ (r : MatchRow). r.id == id) s.matches) refl h
  where
    go :
        (found : Option MatchRow)
        → find (λ (r : MatchRow). r.id == id) s.matches ≡ found
        → elim found [
          | none ↦ failed (no_match t id)
          | some row ↦ if row.tournament_id == t then done row.round else failed (no_match t id)
        ]
          ≡ done round
        → id <ℤ s.next_match_id
    go none e g = cc
    go (some row) e g = found-below s.next_match_id id s.matches row b e

module _ (collate : Text → Text → Bool) (u : Unicode) where
  step-IsBelow :
      (s s' : MatchTables)
      → IsKeyed s
      → Step collate u s s'
      → IsBelow s.next_match_id s
      → IsBelow s'.next_match_id s'
  unfolding delete
  step-IsBelow s s' k (records t round at link ps gs bs {m = m} h) = λ b.
      let d = record_match-done collate u s t round at link ps gs bs s' m h in
      insert-IsBelow s s' d.0 s.next_match_id d.4 b
  step-IsBelow s s' k (corrects t id round at link ps gs bs {m = m} h) = λ b.
      let d = correct-done collate u s t id round at link ps gs bs s' m h in
      update-IsBelow s s' d.0 id d.1 (required-below s t id d.4.0 k.below d.4.1) d.5 b
  step-IsBelow s s' k (deletes t id h) = λ b.
      let found = bind-done (require_match s t id) _ s' h in
      moved-IsBelow s.next_match_id (delete_match s id) s' (done-inj found.2) refl
        (delete_match-IsBelow s id b)
  step-IsBelow s _ k (cascades id) = delete_match-IsBelow s id
  step-IsBelow s _ k (edits ts hs ms ps mps) =
      λ b. record { participants = b.participants; bans = b.bans; picks = b.picks }

  -- The children are of matches that have been.
  pub Reach-IsBelow : (s : MatchTables) → Reach collate u s → IsBelow s.next_match_id s
  Reach-IsBelow _ here = record { participants = tt; bans = tt; picks = tt }
  Reach-IsBelow _ (next {s} {s'} before step) =
      step-IsBelow s s' (Reach-IsKeyed collate u s before) step (Reach-IsBelow s before)
