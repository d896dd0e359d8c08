-- ===== src/MatchService.antt =====
-- backend-rs/crates/umfl-server/src/match/admin_service.rs: recording, correcting and deleting a match.
mod Tables
mod Writer
mod Rows
pub mod Grouping
pub mod States
pub mod Keys
pub mod Written
pub mod Links
pub mod Children
pub mod Sides
pub mod Named
pub mod Answers
pub mod Recording
pub mod Own
pub mod Assembly
mod Query
unfoldable pub use Tables.*
unfoldable pub use Writer.*
unfoldable pub use Rows.*
unfoldable pub use Query.*
use um_fantasy_league.Common.{
  ℕ, ℤ, pos, I32, I64, int_eq, nat_eq, list_eq, ◌==◌, leb_ℤ, Bool, true, false, not, ◌&&◌, Option,
  none, some, List, [], ◌∷◌, ◌++◌, map, keep, find, gather, contains, is_empty, if◌then◌else◌,
}
use um_fantasy_league.Common.Text.{Text}
use um_fantasy_league.Common.Sorting.{to_set}
use um_fantasy_league.Unicode.{Unicode, trim}
use um_fantasy_league.Tournament.{Tournament, DateTime}
use um_fantasy_league.TournamentService.{has_id, PoolRow}
use um_fantasy_league.RosterRoles.{normalise_stat}
use um_fantasy_league.MatchResult.{MatchResult, push_fresh}
use um_fantasy_league.MatchPolicy.Input.{
  MatchViolation, MatchParticipantInput, MatchGameParticipantInput, MatchGameInput, MatchBanInput,
}
use um_fantasy_league.MatchPolicy.{validate, ban_heroes, played_heroes, drafted_heroes}

-- `referenced`
abbrev pub referenced_ids :
    List MatchParticipantInput → List MatchGameInput → List MatchBanInput → List I64
referenced_ids participants games bans =
    played_heroes games ++ (drafted_heroes participants ++ ban_heroes bans)

-- `validate`: the policy's verdict, with its inputs read in.
unfoldable pub violations_of :
    Unicode
    → MatchTables
    → I64
    → List MatchParticipantInput
    → List MatchGameInput
    → List MatchBanInput
    → List MatchViolation
unfolding validate
violations_of u s tournament_id participants games bans =
    let referenced = referenced_ids participants games bans in
    let valid_map_ids =
      map (λ (m : I64 × I64). m.1) (keep (λ (m : I64 × I64). m.0 == tournament_id) s.map_pool) in
    let valid_hero_ids = keep (contains referenced) (map (λ (h : NamedRow). h.id) s.heroes) in
    let pool_hero_ids = keep (contains referenced) (
      map (λ (p : PoolRow). p.hero_id)
        (keep (λ (p : PoolRow). p.tournament_id == tournament_id) s.pool)) in
    validate u (to_set leb_ℤ valid_map_ids) (to_set leb_ℤ valid_hero_ids)
      (to_set leb_ℤ pool_hero_ids) participants games bans

abbrev pub refuse : List MatchViolation → Outcome (Unit {0})
refuse [] = done tt
refuse (v ∷ vs) = failed (match_rule (v ∷ vs))

unfoldable pub blank_to_none : Unicode → Option Text → Option Text
unfolding trim
blank_to_none u none = none
blank_to_none u (some text) = if is_empty (trim u text) then none else some (trim u text)

unfoldable pub to_participants : Unicode → List MatchParticipantInput → List MatchParticipantWrite
unfolding blank_to_none
to_participants u =
    map λ (p : MatchParticipantInput). record { player_label = blank_to_none u p.player_label }

unfoldable pub to_games : Unicode → List MatchGameInput → List MatchGameWrite
unfolding normalise_stat
to_games u = map λ (g : MatchGameInput). record {
  game_number = g.game_number;
  map_id = g.map_id;
  participants =
      map
        (λ (p : MatchGameParticipantInput). record {
          hero_id = p.hero_id;
          health_remaining = p.health_remaining;
          is_winner = p.is_winner;
          stats = map (λ (st : Text × I32). (normalise_stat u st.0, st.1)) p.stats;
        })
        g.participants;
}

unfoldable pub to_bans : List MatchBanInput → List HeroBanWrite
to_bans =
    map λ (b : MatchBanInput). record { hero_id = b.hero_id; ban_type = b.ban_type; side = b.side }

-- A hero that a side names again is not pushed again.
unfoldable pub to_picks : List MatchParticipantInput → List HeroPickWrite
unfolding push_fresh
to_picks participants =
    gather
      (λ (p : I32 × MatchParticipantInput).
        map (λ (hero : I64). record { side = p.0; hero_id = hero })
          (push_fresh [] p.1.drafted_hero_ids))
      (enumerate 0 participants)

abbrev pub require_tournament : MatchTables → I64 → Outcome Tournament
require_tournament s id =
    or_fail (no_tournament id) (find (λ (t : Tournament). has_id id t.id) s.tournaments)

-- `require_match`: the round of the match.
abbrev pub require_match : MatchTables → I64 → I64 → Outcome I32
require_match s tournament_id match_id =
    elim (find (λ (row : MatchRow). row.id == match_id) s.matches) [
      | none ↦ failed (no_match tournament_id match_id)
      | some row ↦
          if row.tournament_id == tournament_id
          then done row.round
          else failed (no_match tournament_id match_id)
    ]

-- `Some(id) if Some(id) != correcting_match_id`
abbrev pub is_collision : Option I64 → I64 → Bool
is_collision correcting id = not (has_id id correcting)

unfoldable pub require_link_unused : MatchTables → I64 → Text → Option I64 → Outcome (Unit {0})
unfolding find_id_by_external_link
require_link_unused s tournament_id link correcting =
    elim (find_id_by_external_link s tournament_id link) [
      | none ↦ done tt
      | some id ↦ fail_when (is_collision correcting id) (link_taken id link)
    ]

abbrev pub or_else : Option I32 → I32 → I32
or_else none d = d
or_else (some r) d = r

module _ (collate : Text → Text → Bool) (u : Unicode) where
  -- What a request submits, as the aggregate.
  abbrev pub write_of :
      Option I64
      → I64
      → I32
      → DateTime
      → Text
      → List MatchParticipantInput
      → List MatchGameInput
      → List MatchBanInput
      → TournamentMatchWrite
  write_of id tournament_id round played_at link participants games bans = record {
    id = id;
    tournament_id = tournament_id;
    round = round;
    played_at = played_at;
    external_link = link;
    participants = to_participants u participants;
    games = to_games u games;
    bans = to_bans bans;
    picks = to_picks participants;
  }

  -- `record`
  unfoldable pub record_match :
      MatchTables
      → I64
      → Option I32
      → DateTime
      → Text
      → List MatchParticipantInput
      → List MatchGameInput
      → List MatchBanInput
      → Outcome (MatchTables × MatchResult)
  unfolding violations_of to_participants to_games to_bans to_picks require_link_unused trim insert
      find_by_id
  record_match s tournament_id round played_at external_link participants games bans = do
    t ← require_tournament s tournament_id
    refuse (violations_of u s tournament_id participants games bans)
    let link = trim u external_link
    require_link_unused s tournament_id link none
    written ← insert s (
        write_of none tournament_id (or_else round t.current_round) played_at link participants
          games bans)
    saved ← or_fail internal (find_by_id collate written.0 written.1)
    done (written.0, saved)

  unfoldable pub correct :
      MatchTables
      → I64
      → I64
      → Option I32
      → DateTime
      → Text
      → List MatchParticipantInput
      → List MatchGameInput
      → List MatchBanInput
      → Outcome (MatchTables × MatchResult)
  unfolding violations_of to_participants to_games to_bans to_picks require_link_unused trim update
      find_by_id
  correct s tournament_id match_id round played_at external_link participants games bans = do
    existing_round ← require_match s tournament_id match_id
    refuse (violations_of u s tournament_id participants games bans)
    let link = trim u external_link
    require_link_unused s tournament_id link (some match_id)
    written ← update s (
        write_of (some match_id) tournament_id (or_else round existing_round) played_at link
          participants games bans)
    saved ← or_fail internal (find_by_id collate written match_id)
    done (written, saved)

  unfoldable pub delete : MatchTables → I64 → I64 → Outcome MatchTables
  unfolding delete_match
  delete s tournament_id match_id = do
    existing_round ← require_match s tournament_id match_id
    done (delete_match s match_id)

  -- The two reads.
  unfoldable pub list : MatchTables → I64 → Option I32 → ℕ → Outcome (List MatchResult)
  unfolding find_by_tournament_newest_first
  list s tournament_id round limit = do
    t ← require_tournament s tournament_id
    done (find_by_tournament_newest_first collate s tournament_id round limit)

  unfoldable pub get : MatchTables → I64 → I64 → Outcome MatchResult
  unfolding find_by_id
  get s tournament_id match_id = do
    t ← require_tournament s tournament_id
    elim (find_by_id collate s match_id) [
      | none ↦ failed (no_match tournament_id match_id)
      | some m ↦
          if m.tournament_id == tournament_id
          then done m
          else failed (no_match tournament_id match_id)
    ]
