-- ===== src/Lib.antt =====
-- Verification of the fantasy league's back end: the pure rules of the domain crate,
-- backend-rs/crates/umfl-domain, and the parts of the server crate, backend-rs/crates/umfl-server, that
-- keep state or decide access.
--
-- The parts of the domain crate, by file:
--   Tournament          src/tournament.rs: tournaments, entries, their predicates, `lock`
--   RosterPolicy        src/roster_policy.rs: `validate_draft`, `validate_lock`, `validate_swap`
--   MatchResult         src/match_result.rs: a recorded match and its `hero_contexts`
--   MatchMetrics        src/match_metrics.rs: the extractors, `normalise`, `unknown`, `label`
--   ScoringRuleSetPolicy  src/scoring_rule_set_policy.rs: `validate`
--   ScoringEngine       src/scoring_engine.rs: `ScoringRules::new`, `breakdown`, `score`
--   RosterRoles         src/roster_roles.rs: `role_at`, `current_roles`, `role_bonus`, validation
--   MatchPolicy         src/match_policy.rs: `validate_expecting` (MatchPolicy/Input has its data,
--                       MatchPolicy/Stats its check of the stats)
--   Standings           src/standings.rs: rosters and `holdings`; below it Ranking (`competition_rank`),
--                       Board (`board_with_roles`) and Ticker (`ticker`)
--   HeroStats           src/hero_stats.rs: `board`, here hero_board
--   HallOfFame          src/hall_of_fame.rs: `build`, `titles`
--   NameResolver        src/name_resolver.rs: `NameResolver::new`, `resolve`, `normalise`
-- The parts of the server crate:
--   TournamentService   src/tournament/service.rs with the statements of query.rs and writer.rs that it
--                       runs: `register`, `set_slots`, `lock_roster`, `swap_roster`, `set_roles`,
--                       `purge_unlocked_entries`; below it Tables and Writer,
--                       the statements, and Admin, src/tournament/admin_service.rs
--   MatchService        src/match/admin_service.rs: `record`, here record_match, `correct`, `delete`;
--                       below it Tables (the rows, and the aggregate of src/match/mod.rs), Writer
--                       (src/match/writer.rs), Rows and Query (src/match/query.rs), and States
--   MatchCache          src/match/cache.rs: `get_or_load`, `invalidate`, `slice_since`
--   StandingsHub        src/standings/sse.rs: `register`, `drop`, `notify`
--   Authorization       src/auth/authorize.rs: `rules`, `required_access`, `authorize`
-- And what they share:
--   Numbers             src/rounding.rs, `round2`, and the arithmetic of decimals and `f64`
--   Unicode             the text functions of the standard library
--   Common              lists, equality, machine integers, ordered maps, sorting, pages of rows
-- The files below each part hold its theorems; Examples, Scenarios,
-- Transactions, Races, Services and Recordings apply them to concrete inputs.
-- A recorded match becomes contexts (MatchResult), a context becomes points (MatchMetrics,
-- ScoringEngine), a held role adds a bonus (RosterRoles), and the points of the heroes that an entry held
-- become its row (Standings); MatchPolicy decides which matches are recorded and RosterPolicy which
-- rosters are held. TournamentService runs the policies on stored rows and writes the log of swaps
-- that Standings replays; MatchService writes the matches, MatchCache hands them to Standings, and
-- StandingsHub tells the browsers that they changed.
--
-- How the code is read. `i32` and `i64` are integers; arithmetic on `i32` wraps at 32 bits as in a
-- release build, lengths cast to `i32` wrap too, counts of `u32` wrap at 2^32. `IndexMap` is the list of
-- its entries in their order, a `BTreeSet` the sorted list of its members. A message is its template
-- with the arguments that are printed into it. A call that panics is `none`, in the services an error of
-- its own. Dates and timestamps are integers. Decimals and `f64` are the parameter `Numbers` (`whole` is
-- an instance), the character tables the parameter `Unicode` (`ascii` is an instance). All loops are
-- structural recursion, so no fuel is used. A handler of the service is one transaction on the tables
-- that it reads and writes: it gives the rows that it commits, or an error and no change, and what
-- a unique index would refuse is refused. `register`, which locks the tournament's row after its first
-- reads, and `set_slots`, which takes no lock, are given the tables as they read them and the tables as
-- they write them, which others may have changed in between; of every other handler the two are the
-- same, so that it is as if no other overlapped it. Races has runs in which the two differ: one leaves
-- a draft in a live tournament, and one undoes a lock. Of the other constraints of the tables of
-- matches, the sign of a round is the one that the policy does not imply. The order of names in a
-- query is the parameter `collate`. The registry of streams is behind one mutex, so that each
-- operation is a step. The match cache is a step relation between the tasks that share it, whose
-- steps interleave in any order; one tournament's entry is modelled, a load is one snapshot of the
-- writes committed so far, and the counter of invalidations, a `u64`, is taken not to come back to
-- an old value.
--
-- Not modelled: the scraped timestamps, `time` and the conversions of errors in the domain crate; in the
-- server, the requests and responses on the wire, the credentials that identify a manager, configuration,
-- imports, the rate limiter, the stream of events to a browser and the administration of heroes,
-- maps, roles and rule sets; the front end and the tools. Of the match cache, the
-- map from tournaments to their entries, `invalidate_all` and the expiry settings, whose effect is the
-- step that evicts. The rendering of messages as text, the `Display` and `From` implementations and the
-- panic of `round2` on a value that is not finite are left out as well.

pub mod Authorization
pub mod Common
pub mod Tournament
pub mod RosterPolicy
pub mod MatchResult
pub mod Unicode
pub mod Numbers
pub mod Races
pub mod MatchMetrics
pub mod ScoringRuleSetPolicy
pub mod Scenarios
pub mod ScoringEngine
pub mod RosterRoles
pub mod MatchPolicy
pub mod Standings
pub mod StandingsHub
pub mod HeroStats
pub mod HallOfFame
pub mod NameResolver
pub mod MatchCache
pub mod MatchService
pub mod Services
pub mod Recordings
pub mod TournamentService
pub mod Transactions
pub mod Examples
