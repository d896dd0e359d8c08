-- ===== src/Authorization/Decision.antt =====
-- What the table of access rules comes to, path by path.
use um_fantasy_league.Common.{
  nat_eq, list_eq, ◌==◌, Bool, false, not, ◌&&◌, ◌||◌, none, some, List, [], ◌∷◌, find, any,
  if◌then◌else◌, ◌≡◌, refl, arith, list_beq_iff,
}
use um_fantasy_league.Common.Text.{Text, codes}
use um_fantasy_league.Unicode.{split}
use um_fantasy_league.Authorization.{
  Access, permit, authenticated, admin, deny, Rule, get, rules, same, match_segments, matches_ant,
  accepts_method, access_of, required_access, Manager, forwarded, forbidden, unauthorized,
  authorize,
}

-- The segments of a path, the first of them before its leading slash.
abbrev pub is_monitor : List Text → Bool
is_monitor (a ∷ (b ∷ (c ∷ []))) =
    same [] a && same (codes "actuator") b && (same (codes "health") c || same (codes "info") c)
is_monitor _ = false

abbrev pub is_api : List Text → Bool
is_api (a ∷ (b ∷ rest)) = same [] a && same (codes "api") b
is_api _ = false

abbrev pub is_admin_path : List Text → Bool
is_admin_path (a ∷ (b ∷ (c ∷ rest))) = same [] a && same (codes "api") b && same (codes "admin") c
is_admin_path _ = false

abbrev pub tournament_reads : List Text
tournament_reads =
    codes "heroes" ∷ codes "standings" ∷ codes "matches" ∷ codes "hero-stats" ∷ codes "roles" ∷ []

-- What can be read without an account, below `/api`.
abbrev pub is_public : List Text → Bool
is_public (a ∷ (b ∷ (c ∷ []))) = same (codes "tournaments") c || same (codes "hall-of-fame") c
is_public (a ∷ (b ∷ (c ∷ (d ∷ [])))) = same (codes "tournaments") c
is_public (a ∷ (b ∷ (c ∷ (d ∷ (e ∷ []))))) =
    same (codes "tournaments") c && any (λ w. same w e) tournament_reads
is_public (a ∷ (b ∷ (c ∷ (d ∷ (e ∷ (f ∷ [])))))) =
    same (codes "tournaments") c && (same (codes "standings") e && same (codes "stream") f)
is_public _ = false

abbrev pub demanded : Text → List Text → Access
demanded method segments =
    if is_monitor segments
    then permit
    else if not (is_api segments)
    then deny
    else if is_admin_path segments
    then admin
    else if same get method && is_public segments
    then permit
    else authenticated

abbrev by_segments : Text → List Text → Access
by_segments method segments = access_of (
    find
      (λ (rule : Rule).
        accepts_method rule.method method && match_segments (split b'/' rule.pattern) segments)
      rules)

apart : (p q s : Text) → (p == q) ≡ false → same p s && same q s ≡ false
unfolding same
apart p q s h = ground (arith, list_beq_iff p s, list_beq_iff q s, list_beq_iff p q)

-- The table against the decision, for every number of segments.
by_segments-demanded :
    (method : Text) (segments : List Text) → by_segments method segments ≡ demanded method segments
unfolding match_segments split
by_segments-demanded m [] = ground arith
by_segments-demanded m (a ∷ []) = ground arith
by_segments-demanded m (a ∷ (b ∷ [])) = ground arith
by_segments-demanded m (a ∷ (b ∷ (c ∷ []))) = ground (
  arith,
  apart (codes "tournaments") (codes "admin") c refl,
  apart (codes "hall-of-fame") (codes "admin") c refl,
  apart (codes "api") (codes "actuator") b refl,
)
by_segments-demanded m (a ∷ (b ∷ (c ∷ (d ∷ [])))) = ground (
  arith,
  apart (codes "tournaments") (codes "admin") c refl,
  apart (codes "hall-of-fame") (codes "admin") c refl,
  apart (codes "api") (codes "actuator") b refl,
)
by_segments-demanded m (a ∷ (b ∷ (c ∷ (d ∷ (e ∷ []))))) = ground (
  arith,
  apart (codes "tournaments") (codes "admin") c refl,
  apart (codes "hall-of-fame") (codes "admin") c refl,
  apart (codes "api") (codes "actuator") b refl,
)
by_segments-demanded m (a ∷ (b ∷ (c ∷ (d ∷ (e ∷ (f ∷ [])))))) = ground (
  arith,
  apart (codes "tournaments") (codes "admin") c refl,
  apart (codes "hall-of-fame") (codes "admin") c refl,
  apart (codes "api") (codes "actuator") b refl,
)
by_segments-demanded m (a ∷ (b ∷ (c ∷ (d ∷ (e ∷ (f ∷ (g ∷ rest))))))) = ground (
  arith,
  apart (codes "tournaments") (codes "admin") c refl,
  apart (codes "hall-of-fame") (codes "admin") c refl,
  apart (codes "api") (codes "actuator") b refl,
)

required_access-demanded :
    (method path : Text) → required_access method path ≡ demanded method (split b'/' path)
unfolding required_access matches_ant
required_access-demanded method path = by_segments-demanded method (split b'/' path)

-- For every method and path: an anonymous request is forwarded exactly if the path is one of the
-- two monitors, or the method is GET and the path is one of the public ones below `/api`; otherwise
-- it is answered with unauthorized. An identified manager's request is forwarded exactly if the
-- path is a monitor or below `/api`, and the manager is an admin where the path is below
-- `/api/admin`; otherwise it is answered with forbidden.
pub authorize_lem :
    (method path : Text) (m : Manager)
    → let segments = split b'/' path in
      let is_read =
        is_api segments && not (is_admin_path segments) && same get method && is_public segments in
      (authorize method path none
        ≡ (if is_monitor segments || is_read then forwarded else unauthorized))
      × (authorize method path (some m) ≡ (
          if is_monitor segments || is_api segments && (not (is_admin_path segments) || m.is_admin)
          then forwarded
          else forbidden))
unfolding authorize
authorize_lem method path m = ground (arith, required_access-demanded method path)
