-- ===== src/MatchCache/Bounded.antt =====
-- A call of `get_or_load` ends: it makes a bounded number of steps, whatever the others do.
use um_fantasy_league.Common.{
  ℕ, zero, suc, ◌+◌, ◌*◌, ◌≤◌, ◌<◌, eqb, eqb_iff, false, ◌≡◌, refl, arith, ap,
}
use um_fantasy_league.MatchCache.{
  Phase, idle, retry, stamped, loading, loaded, holding, reading, served, failed, Shared, Move,
  Outside, update, System,
}

-- How far a phase is from the end.
abbrev weight : Phase → ℕ
weight idle = 17
weight (retry f l) = 5 * l + 6
weight (stamped f l v) = 5 * l + 5
weight (loading f l v) = 5 * l + 4
weight (loaded f l v g) = 5 * l + 3
weight (holding f l e) = 5 * l + 2
weight (reading f) = 1
weight (served f g) = 0
weight failed = 0

Move-weight : {m m' : Shared} {p p' : Phase} → Move m p m' p' → weight p' < weight p
Move-weight Move.begin = omega arith
Move-weight Move.stamp = omega arith
Move-weight (Move.hit e) = omega arith
Move-weight (Move.waited e) = omega arith
Move-weight Move.waited_fail = omega arith
Move-weight (Move.miss e b) = omega arith
Move-weight Move.load = omega arith
Move-weight Move.load_fail = omega arith
Move-weight Move.publish = omega arith
Move-weight (Move.accept e) = omega arith
Move-weight (Move.reject {l = zero} e) = omega arith
Move-weight (Move.reject {l = suc l} e) = omega arith
Move-weight Move.read_through = omega arith
Move-weight Move.read_fail = omega arith

-- A run in which the call `i` makes `k` steps, between steps of other calls and of the outside.
pub data Run (i : ℕ) (s : System) : ℕ → System → Type 0 where
  rest : Run i s 0 s
  mine :
      {k : ℕ} {t : System} {m : Shared} {p : Phase}
      → Run i s k t
      → Move t.shared (t.calls i) m p
      → Run i s (suc k) (record { shared = m; calls = update t.calls i p })
  another :
      {k : ℕ} {t : System} {m : Shared} {p : Phase} (j : ℕ)
      → eqb j i ≡ false
      → Run i s k t
      → Move t.shared (t.calls j) m p
      → Run i s k (record { shared = m; calls = update t.calls j p })
  others :
      {k : ℕ} {t : System} {m : Shared}
      → Run i s k t
      → Outside t.shared m
      → Run i s k (record { shared = m; calls = t.calls })

Run-weight :
    {i : ℕ} {s : System} {k : ℕ} {t : System}
    → Run i s k t
    → k + weight (t.calls i) ≤ weight (s.calls i)
Run-weight rest = omega arith
Run-weight {i} (mine r mv) = rw ((eqb_iff i i).1 refl) (omega (arith, Run-weight r, Move-weight mv))
Run-weight (another j differ r mv) = rw differ (Run-weight r)
Run-weight (others r o) = Run-weight r

-- In every run, from whatever state, a call makes at most seventeen steps: it is never kept loading by
-- writers that invalidate without end.
pub calls_end : {i k : ℕ} {s t : System} → Run i s k t → s.calls i ≡ idle → k ≤ 17
calls_end {s = s} r e = omega (arith, Run-weight r, ap weight e)
