-- ===== src/MatchService/Named.antt =====
-- The bans and the picks of a new match, read back from the tables.
use um_fantasy_league.Common.{
  pos, I32, I64, int_eq, nat_eq, list_eq, ◌==◌, ==_refl, ◌+ℤ◌, ◌<ℤ◌, Bool, true, false, ◌&&◌, List,
  [], ◌∷◌, ◌++◌, map, keep, All-map, ◌≡◌, refl, arith, ap, ◌∙◌, eqb_ℤ_iff,
}
use um_fantasy_league.Common.Text.{Text, codes}
use um_fantasy_league.Common.Sorting.{sort}
use um_fantasy_league.Common.Pages.{
  keep_new, keep-append, keep_none, map-agree, All-of_map, everywhere,
}
use um_fantasy_league.MatchResult.{
  BanType, pre_ban, opponent_ban, self_ban, as_str, DraftedHeroResult, BanResult,
}
use um_fantasy_league.MatchPolicy.Input.{MatchBanInput}
use um_fantasy_league.MatchService.{
  admit_row, done-inj, done, MatchTables, BanRow, PickRow, HeroPickWrite, TournamentMatchWrite,
  joined, by_text, match_row, parse_ban_type, drafted_hero, ban_result, to_bans, insert,
}
use um_fantasy_league.MatchService.Own.{own_picks, own_bans}
use um_fantasy_league.MatchService.Children.{
  new_ban, new_pick, Added, insert_children-Added, IsBelow,
}
use um_fantasy_league.MatchService.Sides.{sort-map, joined-map, on_side}
use um_fantasy_league.MatchService.Written.{then-done}

pub map-map {ℓ κ ι} :
    {A : Type ℓ} {B : Type κ} {C : Type ι} (g : B → C) (f : A → B) (xs : List A)
    → map g (map f xs) ≡ map (λ x. g (f x)) xs
map-map g f [] = refl
map-map g f (x ∷ xs) = ap (λ rest. g (f x) ∷ rest) (map-map g f xs)

parse_ban_type-as_str : (t : BanType) → parse_ban_type (codes (as_str t)) ≡ t
unfolding parse_ban_type as_str
parse_ban_type-as_str pre_ban = refl
parse_ban_type-as_str opponent_ban = refl
parse_ban_type-as_str self_ban = refl

-- A row of a match below the new id is not of the new match.
pub not_new : (k n : I64) → k <ℤ n → (k == n) ≡ false
not_new k n h = ground (arith, eqb_ℤ_iff k n, h)

new_picks-side :
    (id : I64) (k : I32) (ws : List HeroPickWrite)
    → keep (λ (p : PickRow). p.match_id == id && p.side == k) (map (new_pick id) ws)
      ≡ map (new_pick id) (keep (on_side k) ws)
new_picks-side id k [] = refl
new_picks-side id k (w ∷ ws) = ground (arith, new_picks-side id k ws, ==_refl id)

pub insert-Added :
    (s s' : MatchTables) (w : TournamentMatchWrite) (id : I64)
    → insert s w ≡ done (s', id)
    → Added s s' s.next_match_id w
unfolding insert
insert-Added s s' w id h =
    let k = s.next_match_id in
    let rooted = record s {
      matches = s.matches ++ match_row k w ∷ [];
      next_match_id = k +ℤ pos 1;
    } in
    let r : MatchTables × I64 = (s', id) in
    let made =
      ap (λ (x : MatchTables × I64). x.0) (done-inj (then-done (admit_row s k w) _ r h).1) in
    let a = insert_children-Added rooted k w in
    rw (← made)
      (record { heroes = a.heroes; participants = a.participants; bans = a.bans; picks = a.picks })

module _ (collate : Text → Text → Bool) where
  -- Heroes with their names, by name.
  abbrev pub named_heroes : MatchTables → List I64 → List DraftedHeroResult
  named_heroes s ids =
      map (λ (r : I64 × Text). record { hero_id = r.0; hero_name = r.1 })
        (sort (by_text collate (λ (r : I64 × Text). r.1)) (joined s.heroes (λ id. id) ids))

  -- Bans with the names of their heroes, by name.
  abbrev pub named_bans : MatchTables → List MatchBanInput → List BanResult
  named_bans s bans =
      map
        (λ (r : MatchBanInput × Text). record {
          hero_id = r.0.hero_id;
          hero_name = r.1;
          ban_type = r.0.ban_type;
          side = r.0.side;
        })
        (sort (by_text collate (λ (r : MatchBanInput × Text). r.1))
          (joined s.heroes (λ (b : MatchBanInput). b.hero_id) bans))

  picked_heroes :
      (s : MatchTables) (id : I64) (k : I32) (heroes : List I64)
      → map (drafted_hero collate) (
          sort (by_text collate (λ (r : PickRow × Text). r.1)) (
            joined s.heroes
              (λ (p : PickRow). p.hero_id)
              (map
                (new_pick id)
                (map (λ (hero : I64). record { side = k; hero_id = hero }) heroes))))
        ≡ named_heroes s heroes
  picked_heroes s id k heroes =
      let pick : I64 → PickRow = λ hero. record { match_id = id; side = k; hero_id = hero } in
      let name = λ (r : PickRow × Text). r.1 in
      let row : I64 × Text → PickRow × Text = λ r. (pick r.0, r.1) in
      ap
        (λ rows.
          map (drafted_hero collate)
            (sort (by_text collate name) (joined s.heroes (λ (p : PickRow). p.hero_id) rows)))
        (map-map (new_pick id) (λ (hero : I64). record { side = k; hero_id = hero }) heroes)
      ∙ ap (λ js. map (drafted_hero collate) (sort (by_text collate name) js))
          (joined-map pick s.heroes (λ (p : PickRow). p.hero_id) heroes)
      ∙ ap (map (drafted_hero collate))
          (sort-map row (by_text collate name) (joined s.heroes (λ hero. hero) heroes))
      ∙ map-map (drafted_hero collate) row _

  pub own_bans-named :
      (s s' : MatchTables) (w : TournamentMatchWrite) (bans : List MatchBanInput)
      → IsBelow s.next_match_id s
      → Added s s' s.next_match_id w
      → w.bans ≡ to_bans bans
      → own_bans collate s' s.next_match_id ≡ named_bans s bans
  unfolding to_bans parse_ban_type as_str
  own_bans-named s s' w bans b a same =
      let id = s.next_match_id in
      let is_of = λ (r : BanRow). r.match_id == id in
      let made : MatchBanInput → BanRow = λ ban. record {
        match_id = id;
        hero_id = ban.hero_id;
        ban_type = codes (as_str ban.ban_type);
        side = ban.side;
      } in
      let name = λ (r : BanRow × Text). r.1 in
      let row : MatchBanInput × Text → BanRow × Text = λ r. (made r.0, r.1) in
      let rows : keep is_of s'.bans ≡ map made bans =
        ap (keep is_of) a.bans
        ∙ keep_new is_of s.bans (map (new_ban id) w.bans)
            (All-map (λ (r : BanRow) h. not_new r.match_id id h) s.bans b.bans)
            (All-of_map (λ (r : BanRow). is_of r ≡ true) (new_ban id) w.bans (λ _. ==_refl id))
        ∙ ap (map (new_ban id)) same
        ∙ map-map (new_ban id) _ bans in
      ap
        (λ rs.
          map (ban_result collate)
            (sort (by_text collate name) (joined s'.heroes (λ (r : BanRow). r.hero_id) rs)))
        rows
      ∙ ap
          (λ hs.
            map (ban_result collate)
              (sort (by_text collate name) (joined hs (λ (r : BanRow). r.hero_id) (map made bans))))
          a.heroes
      ∙ ap (λ js. map (ban_result collate) (sort (by_text collate name) js))
          (joined-map made s.heroes (λ (r : BanRow). r.hero_id) bans)
      ∙ ap (map (ban_result collate)) (sort-map row (by_text collate name) _)
      ∙ map-map (ban_result collate) row _
      ∙ map-agree _ _ _ (
          everywhere
            (λ r.
              ap
                (λ t. record {
                  hero_id = r.0.hero_id;
                  hero_name = r.1;
                  ban_type = t;
                  side = r.0.side;
                })
                (parse_ban_type-as_str r.0.ban_type))
            _)

  pub own_picks-named :
      (s s' : MatchTables) (w : TournamentMatchWrite) (k : I32) (heroes : List I64)
      → IsBelow s.next_match_id s
      → Added s s' s.next_match_id w
      → keep (on_side k) w.picks ≡ map (λ (hero : I64). record { side = k; hero_id = hero }) heroes
      → own_picks collate s' s.next_match_id k ≡ named_heroes s heroes
  own_picks-named s s' w k heroes b a side_has =
      let id = s.next_match_id in
      let is_of = λ (p : PickRow). p.match_id == id && p.side == k in
      let name = λ (r : PickRow × Text). r.1 in
      let old =
        keep_none is_of s.picks
          (All-map (λ (p : PickRow) h. ground (arith, not_new p.match_id id h)) s.picks b.picks) in
      let new =
        map (new_pick id) (map (λ (hero : I64). record { side = k; hero_id = hero }) heroes) in
      let rows : keep is_of s'.picks ≡ new =
        ap (keep is_of) a.picks
        ∙ keep-append is_of s.picks (map (new_pick id) w.picks)
        ∙ ap (λ ps. ps ++ keep is_of (map (new_pick id) w.picks)) old
        ∙ new_picks-side id k w.picks
        ∙ ap (map (new_pick id)) side_has in
      ap
        (λ rs.
          map (drafted_hero collate)
            (sort (by_text collate name) (joined s'.heroes (λ (p : PickRow). p.hero_id) rs)))
        rows
      ∙ ap
          (λ hs.
            map (drafted_hero collate)
              (sort (by_text collate name) (joined hs (λ (p : PickRow). p.hero_id) new)))
          a.heroes
      ∙ picked_heroes s id k heroes
