-- ===== src/MatchCache/Freshness.antt =====
-- No call of `get_or_load` is served a list that misses a write whose completion was announced before.
use um_fantasy_league.Common.{
  ℕ, zero, suc, ◌≤◌, eqb, Option, none, some, ◌≡◌, refl, arith, Bool-cases, inl, inr, subst,
}
use um_fantasy_league.MatchCache.{
  Stamped, Shared, Phase, idle, retry, stamped, loading, loaded, holding, reading, served, failed,
  remove_stale, after_reject, Move, Outside, System, Step, pick, outside, Reach, here, next,
}

-- A stamp of the present version is on a list with every announced write.
abbrev IsGood : Shared → Stamped → Type 0
IsGood m e = (e.version ≤ m.version) × (e.version ≡ m.version → m.announced ≤ e.matches)

abbrev IsGoodIfAny : Shared → Option Stamped → Type 0
IsGoodIfAny m none = Unit
IsGoodIfAny m (some e) = IsGood m e

abbrev IsFine : Shared → Phase → Type 0
IsFine m idle = Unit
IsFine m (retry f l) = f ≤ m.announced
IsFine m (stamped f l v) = (f ≤ m.announced) × (v ≤ m.version)
IsFine m (loading f l v) = (f ≤ m.announced) × (v ≤ m.version)
IsFine m (loaded f l v g) = (f ≤ m.announced) × (v ≤ m.version) × (v ≡ m.version → m.announced ≤ g)
IsFine m (holding f l e) = (f ≤ m.announced) × IsGood m e
IsFine m (reading f) = f ≤ m.announced
IsFine m (served f g) = f ≤ g
IsFine m failed = Unit

record IsSound (m : Shared) : Type 0 where
  past : m.announced ≤ m.committed
  stored : IsGoodIfAny m m.entry
  handed : IsGoodIfAny m m.published

remove_stale-IsGood :
    (m : Shared) (o : Option Stamped) (e : Stamped)
    → IsGoodIfAny m o
    → IsGoodIfAny m (remove_stale o e)
remove_stale-IsGood m none e h = tt
remove_stale-IsGood m (some d) e h = elim (Bool-cases (eqb d.ticket e.ticket)) [
  | inl same ↦ rw same tt
  | inr differ ↦ rw differ h
]

after_reject-IsFine : (m : Shared) (f l : ℕ) → f ≤ m.announced → IsFine m (after_reject f l)
after_reject-IsFine m f zero h = h
after_reject-IsFine m f (suc l) h = h

of_entry :
    (m : Shared) (o : Option Stamped) (e : Stamped) → o ≡ some e → IsGoodIfAny m o → IsGood m e
of_entry m none e p h = cc
of_entry m (some d) e p h = subst (IsGoodIfAny m) p h

-- A step of a call leaves it in a fine phase.
Move-IsFine :
    {m m' : Shared} {p p' : Phase} → Move m p m' p' → IsSound m → IsFine m p → IsFine m' p'
Move-IsFine Move.begin s h = omega arith
Move-IsFine Move.stamp s h = (h, omega arith)
Move-IsFine {m} (Move.hit {e = e} p) s h = (h.0, of_entry m m.entry e p s.stored)
Move-IsFine {m} (Move.waited {e = e} p) s h = (h.0, of_entry m m.published e p s.handed)
Move-IsFine Move.waited_fail s h = tt
Move-IsFine (Move.miss e b) s h = h
Move-IsFine Move.load s h = (h.0, h.1, λ _. s.past)
Move-IsFine Move.load_fail s h = tt
Move-IsFine Move.publish s h = (h.0, (h.1, h.2))
Move-IsFine (Move.accept e) s h = omega (arith, h.0, h.1.1 e)
Move-IsFine {m} (Move.reject {f = f} {l = l} {e = e} p) s h =
    after_reject-IsFine (record m { entry = remove_stale m.entry e }) f l h.0
Move-IsFine Move.read_through s h = omega (arith, h, s.past)
Move-IsFine Move.read_fail s h = tt

-- A step of a call keeps what the calls share sound.
Move-IsSound : {m m' : Shared} {p p' : Phase} → Move m p m' p' → IsSound m → IsFine m p → IsSound m'
Move-IsSound Move.begin s h = s
Move-IsSound Move.stamp s h = s
Move-IsSound (Move.hit p) s h = s
Move-IsSound (Move.waited p) s h = s
Move-IsSound Move.waited_fail s h = s
Move-IsSound (Move.miss e b) s h = record { past = s.past; stored = s.stored; handed = s.handed }
Move-IsSound Move.load s h = s
Move-IsSound Move.load_fail s h = record { past = s.past; stored = s.stored; handed = s.handed }
Move-IsSound Move.publish s h = record { past = s.past; stored = (h.1, h.2); handed = (h.1, h.2) }
Move-IsSound (Move.accept e) s h = s
Move-IsSound {m} (Move.reject {e = e} p) s h = record {
  past = s.past;
  stored = remove_stale-IsGood m m.entry e s.stored;
  handed = s.handed;
}
Move-IsSound Move.read_through s h = s
Move-IsSound Move.read_fail s h = s

-- The counter does not go back, the announced writes neither, and a new announcement moves the counter.
record IsLater (m m' : Shared) : Type 0 where
  version : m.version ≤ m'.version
  announced : m.announced ≤ m'.announced
  moved : m'.version ≡ m.version → m'.announced ≡ m.announced

same : (m : Shared) → IsLater m m
same m = record { version = omega arith; announced = omega arith; moved = λ _. refl }

Move-IsLater : {m m' : Shared} {p p' : Phase} → Move m p m' p' → IsLater m m'
Move-IsLater Move.begin = same _
Move-IsLater Move.stamp = same _
Move-IsLater (Move.hit e) = same _
Move-IsLater (Move.waited e) = same _
Move-IsLater Move.waited_fail = same _
Move-IsLater {m} (Move.miss e b) = record {
  version = omega arith;
  announced = omega arith;
  moved = λ _. refl;
}
Move-IsLater Move.load = same _
Move-IsLater Move.load_fail = record {
  version = omega arith;
  announced = omega arith;
  moved = λ _. refl;
}
Move-IsLater Move.publish = record {
  version = omega arith;
  announced = omega arith;
  moved = λ _. refl;
}
Move-IsLater (Move.accept e) = same _
Move-IsLater (Move.reject e) = record {
  version = omega arith;
  announced = omega arith;
  moved = λ _. refl;
}
Move-IsLater Move.read_through = same _
Move-IsLater Move.read_fail = same _

Outside-IsLater : {m m' : Shared} → Outside m m' → IsLater m m'
Outside-IsLater Outside.invalidate = record {
  version = omega arith;
  announced = omega arith;
  moved = λ _. refl;
}
Outside-IsLater Outside.commit = record {
  version = omega arith;
  announced = omega arith;
  moved = λ _. refl;
}
Outside-IsLater (Outside.announce k le few) = record {
  version = omega arith;
  announced = le;
  moved = λ p. absurd (omega (arith, p));
}
Outside-IsLater Outside.evict = record {
  version = omega arith;
  announced = omega arith;
  moved = λ _. refl;
}

IsGood-IsLater : {m m' : Shared} → IsLater m m' → (e : Stamped) → IsGood m e → IsGood m' e
IsGood-IsLater {m} {m'} l e h = ground (arith, l.version, l.announced, l.moved)

IsFine-IsLater : {m m' : Shared} → IsLater m m' → (p : Phase) → IsFine m p → IsFine m' p
IsFine-IsLater l idle h = tt
IsFine-IsLater l (retry f k) h = omega (arith, h, l.announced)
IsFine-IsLater l (stamped f k v) h =
    (omega (arith, h.0, l.announced), omega (arith, h.1, l.version))
IsFine-IsLater l (loading f k v) h =
    (omega (arith, h.0, l.announced), omega (arith, h.1, l.version))
IsFine-IsLater l (loaded f k v g) h = ground (arith, l.version, l.announced, l.moved)
IsFine-IsLater l (holding f k e) h = (omega (arith, h.0, l.announced), IsGood-IsLater l e h.1)
IsFine-IsLater l (reading f) h = omega (arith, h, l.announced)
IsFine-IsLater l (served f g) h = h
IsFine-IsLater l failed h = tt

IsGoodIfAny-IsLater :
    {m m' : Shared} → IsLater m m' → (o : Option Stamped) → IsGoodIfAny m o → IsGoodIfAny m' o
IsGoodIfAny-IsLater l none h = tt
IsGoodIfAny-IsLater l (some e) h = IsGood-IsLater l e h

Outside-IsSound : {m m' : Shared} → Outside m m' → IsSound m → IsSound m'
Outside-IsSound {m} {m'} Outside.invalidate s =
    let l = Outside-IsLater {m = m} {m' = m'} Outside.invalidate in
    record {
      past = s.past;
      stored = IsGoodIfAny-IsLater {m = m} {m' = m'} l m.entry s.stored;
      handed = IsGoodIfAny-IsLater {m = m} {m' = m'} l m.published s.handed;
    }
Outside-IsSound Outside.commit s = record {
  past = omega (arith, s.past);
  stored = s.stored;
  handed = s.handed;
}
Outside-IsSound {m} {m'} (Outside.announce k le few) s =
    let l = Outside-IsLater {m = m} {m' = m'} (Outside.announce k le few) in
    record {
      past = few;
      stored = IsGoodIfAny-IsLater {m = m} {m' = m'} l m.entry s.stored;
      handed = IsGoodIfAny-IsLater {m = m} {m' = m'} l m.published s.handed;
    }
Outside-IsSound Outside.evict s = record { past = s.past; stored = tt; handed = s.handed }

record Inv (s : System) : Type 0 where
  sound : IsSound s.shared
  fine : (i : ℕ) → IsFine s.shared (s.calls i)

Step-Inv : {s t : System} → Step s t → Inv s → Inv t
Step-Inv {s} (pick i {m} {p} mv) inv = record {
  sound = Move-IsSound mv inv.sound (inv.fine i);
  fine = λ j. elim (Bool-cases (eqb i j)) [
    | inl same ↦ rw same (Move-IsFine mv inv.sound (inv.fine i))
    | inr other ↦ rw other (IsFine-IsLater (Move-IsLater mv) (s.calls j) (inv.fine j))
  ];
}
Step-Inv {s} (outside o) inv = record {
  sound = Outside-IsSound o inv.sound;
  fine = λ j. IsFine-IsLater (Outside-IsLater o) (s.calls j) (inv.fine j);
}

Reach-Inv : {s : System} → Reach s → Inv s
Reach-Inv here = record {
  sound = record { past = omega arith; stored = tt; handed = tt };
  fine = λ i. tt;
}
Reach-Inv (next r st) = Step-Inv st (Reach-Inv r)

-- However the calls, the writers and the evictions interleave: a list that a call is served has every
-- write whose completion was announced before the call began.
pub served_fresh :
    {s : System}
    → Reach s
    → (i floor matches : ℕ) → s.calls i ≡ served floor matches
    → floor ≤ matches
served_fresh {s} r i floor matches e = subst (IsFine s.shared) e ((Reach-Inv r).fine i)
