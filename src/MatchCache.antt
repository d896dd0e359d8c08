-- ===== src/MatchCache.antt =====
-- backend-rs/crates/umfl-server/src/match/cache.rs: the cache of one tournament's match list, as it is read
-- and invalidated by tasks that interleave in any order. What a load returns is named by the number of
-- writes that were committed when its snapshot was taken.
pub mod Freshness
pub mod Bounded
use um_fantasy_league.Common.{
  ℕ, zero, suc, ◌+◌, ◌≤◌, ℤ, I64, leb_ℤ, ltb_ℤ, eqb, ltb, leb, Bool, true, false, not, Option, none,
  some, List, [], ◌∷◌, keep, ◌≡◌, ◌≢◌, if◌then◌else◌,
}
use um_fantasy_league.MatchResult.{MatchResult}
use mathlib.Core.List.{reverse}

-- `MAX_LOAD_ATTEMPTS`
abbrev pub max_load_attempts : ℕ
max_load_attempts = 3

-- `Stamped`, behind its `Arc`: the ticket is what `Arc::ptr_eq` compares.
pub record Stamped : Type 0 where
  pub ticket : ℕ
  pub version : ℕ
  pub matches : ℕ

-- What the tasks share: the writes committed, those whose completion was announced, the tournament's
-- counter, the entry, what the last load published, the next ticket, and whether a load is running.
pub record Shared : Type 0 where
  pub committed : ℕ
  pub announced : ℕ
  pub version : ℕ
  pub entry : Option Stamped
  pub published : Option Stamped
  pub next_ticket : ℕ
  pub is_loading : Bool

abbrev pub empty_cache : Shared
empty_cache = record {
  committed = 0;
  announced = 0;
  version = 0;
  entry = none;
  published = none;
  next_ticket = 0;
  is_loading = false;
}

-- Where a call of `get_or_load` stands. `floor` is what was announced when the call began, `left` how many
-- rounds of its loop are left after this one.
pub data Phase : Type 0 where
  idle : Phase
  retry : (floor left : ℕ) → Phase  -- head of the loop
  stamped : (floor left version : ℕ) → Phase  -- at `try_get_with`
  loading : (floor left version : ℕ) → Phase  -- in the loader
  loaded : (floor left version matches : ℕ) → Phase  -- the loader's snapshot is taken
  holding : (floor left : ℕ) (e : Stamped) → Phase  -- before the test of the version
  reading : (floor : ℕ) → Phase  -- reading through
  served : (floor matches : ℕ) → Phase
  failed : Phase

-- `Some(e) if Arc::ptr_eq(e.value(), &stale) => Op::Remove`
abbrev pub remove_stale : Option Stamped → Stamped → Option Stamped
remove_stale none stale = none
remove_stale (some e) stale = if eqb e.ticket stale.ticket then none else some e

-- The rounds after the first of `max_load_attempts`, and what follows a rejected entry.
abbrev pub after_reject : ℕ → ℕ → Phase
after_reject floor zero = reading floor
after_reject floor (suc left) = retry floor left

-- One step of one call.
pub data Move (m : Shared) : Phase → Shared → Phase → Type 0 where
  begin : Move m idle m (retry m.announced 2)
  stamp : {f l : ℕ} → Move m (retry f l) m (stamped f l m.version)
  hit : {f l v : ℕ} {e : Stamped} → m.entry ≡ some e → Move m (stamped f l v) m (holding f l e)
  -- A call that waited for a load is handed what it published, removed or not.
  waited :
      {f l v : ℕ} {e : Stamped} → m.published ≡ some e → Move m (stamped f l v) m (holding f l e)
  waited_fail : {f l v : ℕ} → Move m (stamped f l v) m failed
  miss :
      {f l v : ℕ}
      → m.entry ≡ none
      → m.is_loading ≡ false
      → Move m (stamped f l v) (record m { is_loading = true }) (loading f l v)
  load : {f l v : ℕ} → Move m (loading f l v) m (loaded f l v m.committed)
  load_fail : {f l v : ℕ} → Move m (loading f l v) (record m { is_loading = false }) failed
  publish :
      {f l v g : ℕ}
      → Move m
          (loaded f l v g)
          (record m {
            entry = some (record { ticket = m.next_ticket; version = v; matches = g });
            published = some (record { ticket = m.next_ticket; version = v; matches = g });
            next_ticket = m.next_ticket + 1;
            is_loading = false;
          })
          (holding f l (record { ticket = m.next_ticket; version = v; matches = g }))
  accept :
      {f l : ℕ} {e : Stamped}
      → e.version ≡ m.version
      → Move m (holding f l e) m (served f e.matches)
  reject :
      {f l : ℕ} {e : Stamped}
      → e.version ≢ m.version
      → Move m (holding f l e) (record m { entry = remove_stale m.entry e }) (after_reject f l)
  read_through : {f : ℕ} → Move m (reading f) m (served f m.committed)
  read_fail : {f : ℕ} → Move m (reading f) m failed

-- What others do: the writers of match/admin_service.rs, whose transactions `announce` while they are open
-- and `announce_completed` once they have ended, and the cache's own eviction.
pub data Outside (m : Shared) : Shared → Type 0 where
  invalidate : Outside m (record m { version = m.version + 1 })
  commit : Outside m (record m { committed = m.committed + 1 })
  -- The first `k` commits are announced, after which the counter moves.
  announce :
      (k : ℕ)
      → m.announced ≤ k
      → k ≤ m.committed
      → Outside m (record m { announced = k; version = m.version + 1 })
  evict : Outside m (record m { entry = none })

abbrev pub update : (ℕ → Phase) → ℕ → Phase → ℕ → Phase
update calls i p j = if eqb i j then p else calls j

pub record System : Type 0 where
  pub shared : Shared
  pub calls : ℕ → Phase

pub data Step (s : System) : System → Type 0 where
  pick :
      (i : ℕ) {m : Shared} {p : Phase}
      → Move s.shared (s.calls i) m p
      → Step s (record { shared = m; calls = update s.calls i p })
  outside : {m : Shared} → Outside s.shared m → Step s (record { shared = m; calls = s.calls })

abbrev pub start : System
start = record { shared = empty_cache; calls = λ _. idle }

pub data Reach : System → Type 0 where
  here : Reach start
  next : {s t : System} → Reach s → Step s t → Reach t

-- `slice_since`
abbrev pub take {ℓ} : {A : Type ℓ} → ℕ → List A → List A
take zero xs = []
take (suc k) [] = []
take (suc k) (x ∷ xs) = x ∷ take k xs

unfoldable pub slice_since : List MatchResult → I64 → ℕ → List MatchResult
slice_since matches since limit =
    take limit (keep (λ (m : MatchResult). ltb_ℤ since m.match_id) (reverse matches))
