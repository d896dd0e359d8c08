-- ===== src/MatchService/Written.antt =====
-- What a handler of matches that succeeds has passed, and the rows of matches that it leaves.
use um_fantasy_league.Common.{
  pos, I32, I64, int_eq, ◌+ℤ◌, leb_ℤ, Bool, true, false, Option, none, some, List, [], ◌∷◌, ◌++◌,
  map, any, ◌≡◌, refl, ap, sym, ◌∙◌,
}
use um_fantasy_league.Common.Text.{Text}
use um_fantasy_league.Unicode.{Unicode, trim}
use um_fantasy_league.Tournament.{DateTime}
use um_fantasy_league.MatchResult.{MatchResult}
use um_fantasy_league.MatchPolicy.Input.{MatchParticipantInput, MatchGameInput, MatchBanInput}
use um_fantasy_league.MatchService.{
  to_participants, to_bans, to_picks, Outcome, MatchError, done, failed, ◌>>=◌, ◌>>◌, done-inj,
  or_fail, fail_when, refuse, internal, link_just_taken, out_of_range, MatchTables, MatchGameWrite,
  TournamentMatchWrite, match_row, admit_row, insert_game, insert_games, insert_participants,
  insert_bans, insert_picks, insert_children, delete_children, insert, update, violations_of,
  require_tournament, require_match, require_link_unused, write_of, or_else, find_by_id,
  record_match, correct,
}
use um_fantasy_league.MatchService.Keys.{replaced_row, is_link_of_another}

pub bind-done {ℓ κ} :
    {A : Type ℓ} {B : Type κ} (r : Outcome A) (f : A → Outcome B) (b : B)
    → (r >>= f) ≡ done b
    → (a : A) × (r ≡ done a) × (f a ≡ done b)
bind-done (done a) f b h = (a, refl, h)
bind-done (failed e) f b h = cc

pub then-done {ℓ} :
    {B : Type ℓ} (r : Outcome (Unit {0})) (k : Outcome B) (b : B)
    → (r >> k) ≡ done b
    → (r ≡ done tt) × (k ≡ done b)
then-done (done tt) k b h = (refl, h)
then-done (failed e) k b h = cc

pub fail_when-done : (b : Bool) (e : MatchError) → fail_when b e ≡ done tt → b ≡ false
fail_when-done true e h = cc
fail_when-done false e h = refl

-- The rows of matches, and the next id.
abbrev pub SameMatches : MatchTables → MatchTables → Type 0
SameMatches s s' = (s'.matches ≡ s.matches) × (s'.next_match_id ≡ s.next_match_id)

insert_games-SameMatches :
    (s : MatchTables) (id t : I64) (gs : List MatchGameWrite)
    → SameMatches s (insert_games s id t gs)
unfolding insert_games insert_game
insert_games-SameMatches s id t [] = (refl, refl)
insert_games-SameMatches s id t (g ∷ gs) = insert_games-SameMatches (insert_game s id t g) id t gs

pub insert_children-SameMatches :
    (s : MatchTables) (id : I64) (m : TournamentMatchWrite) → SameMatches s (insert_children s id m)
unfolding insert_children insert_participants insert_bans insert_picks
insert_children-SameMatches s id m =
    insert_games-SameMatches (insert_participants s id m) id m.tournament_id m.games

-- The row is admitted: its round is positive, and its link is not another's.
pub record Admitted (s : MatchTables) (id : I64) (m : TournamentMatchWrite) : Type 0 where
  pub round : leb_ℤ m.round (pos 0) ≡ false
  pub link : any (is_link_of_another id m.tournament_id m.external_link) s.matches ≡ false

admit_row-Admitted :
    (s : MatchTables) (id : I64) (m : TournamentMatchWrite)
    → admit_row s id m ≡ done tt
    → Admitted s id m
admit_row-Admitted s id m h =
    let passed = then-done (fail_when (leb_ℤ m.round (pos 0)) out_of_range) _ tt h in
    record {
      round = fail_when-done _ out_of_range passed.0;
      link = fail_when-done _ (link_just_taken m.external_link) passed.1;
    }

pub insert-done :
    (s : MatchTables) (m : TournamentMatchWrite) (r : MatchTables × I64)
    → insert s m ≡ done r
    → Admitted s s.next_match_id m
      × (r.1 ≡ s.next_match_id)
      × (r.0.matches ≡ s.matches ++ match_row s.next_match_id m ∷ [])
      × (r.0.next_match_id ≡ s.next_match_id +ℤ pos 1)
unfolding insert
insert-done s m r h =
    let id = s.next_match_id in
    let passed = then-done (admit_row s id m) _ r h in
    let made = sym (done-inj passed.1) in
    let rooted = record s {
      matches = s.matches ++ match_row id m ∷ [];
      next_match_id = id +ℤ pos 1;
    } in
    let same = insert_children-SameMatches rooted id m in
    (
      admit_row-Admitted s id m passed.0,
      ap (λ (x : MatchTables × I64). x.1) made,
      ap (λ (x : MatchTables × I64). x.0.matches) made ∙ same.0,
      ap (λ (x : MatchTables × I64). x.0.next_match_id) made ∙ same.1,
    )

pub update-done :
    (s : MatchTables) (id : I64) (m : TournamentMatchWrite) (s' : MatchTables)
    → m.id ≡ some id
    → update s m ≡ done s'
    → Admitted s id m
      × (s'.matches ≡ map (replaced_row id (match_row id m)) s.matches)
      × (s'.next_match_id ≡ s.next_match_id)
unfolding update delete_children
update-done s id m s' known h =
    let g = rw known at h in
    let passed = then-done (admit_row s id m) _ s' g in
    let made = sym (done-inj passed.1) in
    let rooted = record s { matches = map (replaced_row id (match_row id m)) s.matches } in
    let same = insert_children-SameMatches (delete_children rooted id) id m in
    (
      admit_row-Admitted s id m passed.0,
      ap (λ (x : MatchTables). x.matches) made ∙ same.0,
      ap (λ (x : MatchTables). x.next_match_id) made ∙ same.1,
    )

module _ (collate : Text → Text → Bool) (u : Unicode) where
  -- What `record` passed: the policy, the test of the link, the insert and the read.
  pub record_match-done :
      (s : MatchTables) (tournament_id : I64) (round : Option I32) (played_at : DateTime)
      (link : Text) (participants : List MatchParticipantInput) (games : List MatchGameInput)
      (bans : List MatchBanInput) (s' : MatchTables) (m : MatchResult)
      → record_match collate u s tournament_id round played_at link participants games bans
        ≡ done (s', m)
      → (w : TournamentMatchWrite) × (w.tournament_id ≡ tournament_id)
        × (w.external_link ≡ trim u link)
        × (require_link_unused s tournament_id (trim u link) none ≡ done tt)
        × (insert s w ≡ done (s', s.next_match_id))
        × (find_by_id collate s' s.next_match_id ≡ some m)
        × (w.participants ≡ to_participants u participants)
        × (w.bans ≡ to_bans bans)
        × (w.picks ≡ to_picks participants)
  unfolding record_match
  record_match-done s tid round played_at link participants games bans s' m h =
      let r : MatchTables × MatchResult = (s', m) in
      let loaded = bind-done (require_tournament s tid) _ r h in
      let w =
        write_of collate u none tid (or_else round loaded.0.current_round) played_at (trim u link)
          participants games bans in
      let judged =
        then-done (refuse (violations_of u s tid participants games bans)) _ r loaded.2 in
      let free = then-done (require_link_unused s tid (trim u link) none) _ r judged.1 in
      let written = bind-done (insert s w) _ r free.1 in
      let read =
        bind-done (or_fail internal (find_by_id collate written.0.0 written.0.1)) _ r written.2 in
      let same = done-inj read.2 in
      let stored : written.0.0 ≡ s' = ap (λ (x : MatchTables × MatchResult). x.0) same in
      let id = (insert-done s w written.0 written.1).1 in
      (
        w,
        refl,
        refl,
        free.0,
        written.1 ∙ ap (λ (x : MatchTables × I64). done x) (both stored id),
        found (find_by_id collate) written.0 read.0 read.1 stored id
            (ap (λ (x : MatchTables × MatchResult). x.1) same),
        refl,
        refl,
        refl,
      )
    where
      both : {x y : MatchTables × I64} → x.0 ≡ y.0 → x.1 ≡ y.1 → x ≡ y
      both e f = cc

      found :
          (find_it : MatchTables → I64 → Option MatchResult) (x : MatchTables × I64)
          (a : MatchResult)
          → or_fail internal (find_it x.0 x.1) ≡ done a
          → x.0 ≡ s'
          → x.1 ≡ s.next_match_id
          → a ≡ m
          → find_it s' s.next_match_id ≡ some m
      found find_it x a e stored id is_m = rw (← stored, ← id, ← is_m) (go (find_it x.0 x.1) e)
        where
          go : (o : Option MatchResult) → or_fail internal o ≡ done a → o ≡ some a
          go none k = cc
          go (some b) k = cc

  -- What `correct` passed.
  pub correct-done :
      (s : MatchTables) (tournament_id match_id : I64) (round : Option I32) (played_at : DateTime)
      (link : Text) (participants : List MatchParticipantInput) (games : List MatchGameInput)
      (bans : List MatchBanInput) (s' : MatchTables) (m : MatchResult)
      → correct collate u s tournament_id match_id round played_at link participants games bans
        ≡ done (s', m)
      → (w : TournamentMatchWrite) × (w.id ≡ some match_id)
        × (w.tournament_id ≡ tournament_id)
        × (w.external_link ≡ trim u link)
        × ((r : I32) × (require_match s tournament_id match_id ≡ done r))
        × (update s w ≡ done s')
  unfolding correct
  correct-done s tid match_id round played_at link participants games bans s' m h =
      let r : MatchTables × MatchResult = (s', m) in
      let loaded = bind-done (require_match s tid match_id) _ r h in
      let w =
        write_of collate u (some match_id) tid (or_else round loaded.0) played_at (trim u link)
          participants games bans in
      let judged =
        then-done (refuse (violations_of u s tid participants games bans)) _ r loaded.2 in
      let free = then-done (require_link_unused s tid (trim u link) (some match_id)) _ r judged.1 in
      let written = bind-done (update s w) _ r free.1 in
      let read =
        bind-done (or_fail internal (find_by_id collate written.0 match_id)) _ r written.2 in
      let stored : written.0 ≡ s' = ap (λ (x : MatchTables × MatchResult). x.0) (done-inj read.2) in
      (
        w,
        refl,
        refl,
        refl,
        (loaded.0, loaded.1),
        written.1 ∙ ap (λ (x : MatchTables). done x) stored,
      )
