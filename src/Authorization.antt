-- ===== src/Authorization.antt =====
-- backend-rs/crates/umfl-server/src/auth/authorize.rs: the table of access rules, the matching of paths
-- against its patterns, and the decision of the middleware. A path is that of the request's URI; `None`,
-- an anonymous request, and `Some`, an identified manager, are the two outcomes of auth/mod.rs before it.
pub mod Decision
use um_fantasy_league.Common.{
  ℕ, nat_eq, list_eq, ◌==◌, Bool, true, false, ◌&&◌, ◌||◌, Option, none, some, List, [], ◌∷◌, find,
  if◌then◌else◌,
}
use um_fantasy_league.Common.Text.{Text, codes}
use um_fantasy_league.Unicode.{split}

pub data Access : Type 0 where
  permit authenticated admin deny : Access

-- A method is its name.
pub record Rule : Type 0 where
  pub method : Option Text
  pub pattern : Text
  pub access : Access

abbrev pub get : Text
get = codes "GET"

abbrev pub any_method : Text → Access → Rule
any_method pattern access = record { method = none; pattern = pattern; access = access }

abbrev pub public_read : Text → Rule
public_read pattern = record { method = some get; pattern = pattern; access = permit }

-- `rules`
abbrev pub rules : List Rule
rules =
    any_method (codes "/actuator/health") permit
    ∷ any_method (codes "/actuator/info") permit
    ∷ public_read (codes "/api/tournaments/*/heroes")
    ∷ public_read (codes "/api/tournaments")
    ∷ public_read (codes "/api/tournaments/*")
    ∷ public_read (codes "/api/tournaments/*/standings")
    ∷ public_read (codes "/api/tournaments/*/standings/stream")
    ∷ public_read (codes "/api/tournaments/*/matches")
    ∷ public_read (codes "/api/tournaments/*/hero-stats")
    ∷ public_read (codes "/api/tournaments/*/roles")
    ∷ public_read (codes "/api/hall-of-fame")
    ∷ any_method (codes "/api/admin/**") admin
    ∷ any_method (codes "/api/**") authenticated
    ∷ any_method (codes "/**") deny
    ∷ []

-- `==` on segments
unfoldable pub same : Text → Text → Bool
same p s = p == s

-- The loop of `matches_ant`.
unfoldable pub match_segments : List Text → List Text → Bool
match_segments [] [] = true
match_segments [] (s ∷ ss) = false
match_segments (p ∷ ps) [] = p == codes "**"
match_segments (p ∷ ps) (s ∷ ss) =
    let rest = match_segments ps ss in p == codes "**" || (p == codes "*" || same p s) && rest

unfoldable pub matches_ant : Text → Text → Bool
unfolding match_segments split
matches_ant pattern path = match_segments (split b'/' pattern) (split b'/' path)

-- `rule.method.as_ref().is_none_or(|m| m == method)`
abbrev pub accepts_method : Option Text → Text → Bool
accepts_method none method = true
accepts_method (some m) method = same m method

abbrev pub access_of : Option Rule → Access
access_of none = deny
access_of (some rule) = rule.access

unfoldable pub required_access : Text → Text → Access
unfolding matches_ant
required_access method path = access_of (
    find (λ (rule : Rule). accepts_method rule.method method && matches_ant rule.pattern path)
      rules)

pub record Manager : Type 0 where
  pub is_admin : Bool

pub data Answer : Type 0 where
  forwarded forbidden unauthorized : Answer

abbrev pub is_some {ℓ} : {A : Type ℓ} → Option A → Bool
is_some none = false
is_some (some a) = true

abbrev pub is_admin : Option Manager → Bool
is_admin none = false
is_admin (some m) = m.is_admin

abbrev pub is_allowed : Access → Option Manager → Bool
is_allowed permit who = true
is_allowed authenticated who = is_some who
is_allowed admin who = is_admin who
is_allowed deny who = false

-- `authorize`
unfoldable pub authorize : Text → Text → Option Manager → Answer
unfolding required_access
authorize method path who =
    if is_allowed (required_access method path) who
    then forwarded
    else if is_some who
    then forbidden
    else unauthorized
