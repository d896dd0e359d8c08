-- ===== src/MatchService/Rows.antt =====
-- The statements of `assemble` in backend-rs/crates/umfl-server/src/match/query.rs, and the maps
-- that group their rows. The order of names is the database's collation, a parameter.
use um_fantasy_league.Common.{
  ℤ, I64, int_eq, nat_eq, list_eq, pair_eq, ◌==◌, leb_ℤ, ltb_ℤ, eqb_ℤ, Eq, Bool, ◌&&◌, ◌||◌, none,
  some, List, [], ◌∷◌, ◌++◌, map, keep, find, contains,
}
use um_fantasy_league.Common.Text.{Text}
use um_fantasy_league.Common.IndexMap
use um_fantasy_league.Common.Sorting.{sort}
use um_fantasy_league.MatchService.Tables.{
  ParticipantRow, GameRow, GameParticipantRow, StatRow, BanRow, PickRow, NamedRow, MatchTables,
}

-- `entry(key).or_insert(start)`, changed by each row in turn.
unfoldable pub grouped {ℓ κ ι} :
    {K : Type ℓ} {V : Type κ} {R : Type ι} ⦃e : Eq K⦄ (key : R → K) (start : V) (put : R → V → V)
    → IndexMap.IndexMap K V
    → List R
    → IndexMap.IndexMap K V
unfolding IndexMap.upsert
grouped key start put m [] = m
grouped key start put m (r ∷ rs) =
    grouped key start put (IndexMap.upsert m (key r) start (put r)) rs

-- `push`
abbrev pub pushed {ℓ κ} : {R : Type ℓ} {V : Type κ} → (R → V) → R → List V → List V
pushed value r group = group ++ value r ∷ []

-- `swap_remove(key).unwrap_or_default()`
abbrev pub group_of {ℓ κ} :
    {K : Type ℓ} {V : Type κ} ⦃e : Eq K⦄ → IndexMap.IndexMap K (List V) → K → List V
group_of m k = elim (IndexMap.get m k) [ none ↦ [] | some group ↦ group ]

-- The inner join with a table of names: a row without its name is not in the result.
abbrev pub joined {ℓ} : {R : Type ℓ} → List NamedRow → (R → I64) → List R → List (R × Text)
joined names of [] = []
joined names of (r ∷ rs) =
    let rest = joined names of rs in
    elim (find (λ (n : NamedRow). n.id == of r) names) [ none ↦ rest | some n ↦ (r, n.name) ∷ rest ]

-- `order by` a number, and then by more.
abbrev pub first_by {ℓ} : {R : Type ℓ} → (R → ℤ) → (R → R → Bool) → R → R → Bool
first_by field le a b = ltb_ℤ (field a) (field b) || eqb_ℤ (field a) (field b) && le a b

abbrev pub by {ℓ} : {R : Type ℓ} → (R → ℤ) → R → R → Bool
by field a b = leb_ℤ (field a) (field b)

module _ (collate : Text → Text → Bool) where
  abbrev pub by_text {ℓ} : {R : Type ℓ} → (R → Text) → R → R → Bool
  by_text field a b = collate (field a) (field b)

  -- The statements of `assemble`, on the matches with some ids.
  abbrev pub pick_rows : MatchTables → List I64 → List (PickRow × Text)
  pick_rows s ids =
      sort
        (first_by (λ (r : PickRow × Text). r.0.match_id)
          (first_by (λ (r : PickRow × Text). r.0.side) (by_text (λ (r : PickRow × Text). r.1))))
        (joined s.heroes (λ (p : PickRow). p.hero_id)
          (keep (λ (p : PickRow). contains ids p.match_id) s.picks))

  abbrev pub participant_rows : MatchTables → List I64 → List ParticipantRow
  participant_rows s ids =
      sort (first_by (λ (p : ParticipantRow). p.match_id) (by (λ (p : ParticipantRow). p.side)))
        (keep (λ (p : ParticipantRow). contains ids p.match_id) s.participants)

  abbrev pub game_rows : MatchTables → List I64 → List (GameRow × Text)
  game_rows s ids =
      sort
        (first_by (λ (r : GameRow × Text). r.0.match_id)
          (by (λ (r : GameRow × Text). r.0.game_number)))
        (joined s.maps (λ (g : GameRow). g.map_id)
          (keep (λ (g : GameRow). contains ids g.match_id) s.games))

  -- The ids of the games of those matches, for the joins through `match_games`.
  abbrev pub game_ids : MatchTables → List I64 → List I64
  game_ids s ids =
      map (λ (g : GameRow). g.id) (keep (λ (g : GameRow). contains ids g.match_id) s.games)

  abbrev pub stat_rows_of : MatchTables → List I64 → List StatRow
  stat_rows_of s ids =
      sort
        (first_by (λ (r : StatRow). r.game_id)
          (first_by (λ (r : StatRow). r.side) (by_text (λ (r : StatRow). r.stat))))
        (keep (λ (r : StatRow). contains (game_ids s ids) r.game_id) s.stats)

  abbrev pub game_participant_rows : MatchTables → List I64 → List (GameParticipantRow × Text)
  game_participant_rows s ids =
      sort
        (first_by (λ (r : GameParticipantRow × Text). r.0.game_id)
          (by (λ (r : GameParticipantRow × Text). r.0.side)))
        (joined s.heroes (λ (p : GameParticipantRow). p.hero_id)
          (keep (λ (p : GameParticipantRow). contains (game_ids s ids) p.game_id)
            s.game_participants))

  abbrev pub ban_rows : MatchTables → List I64 → List (BanRow × Text)
  ban_rows s ids =
      sort (first_by (λ (r : BanRow × Text). r.0.match_id) (by_text (λ (r : BanRow × Text). r.1))) (
        joined s.heroes (λ (b : BanRow). b.hero_id)
          (keep (λ (b : BanRow). contains ids b.match_id) s.bans))
