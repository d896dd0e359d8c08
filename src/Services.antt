-- ===== src/Services.antt =====
-- The theorems on access and on the standings streams at concrete requests and calls.
use um_fantasy_league.Common.{
  pos, int_eq, nat_eq, list_eq, pair_eq, false, not, ◌&&◌, ◌||◌, none, some, [], ◌∷◌, ◌≡◌,
  if◌then◌else◌,
}
use um_fantasy_league.Common.IndexMap
use um_fantasy_league.Common.Text.{Text, codes}
use um_fantasy_league.Unicode.{split}
use um_fantasy_league.Authorization.{
  get, same, Manager, forwarded, forbidden, unauthorized, authorize,
}
use um_fantasy_league.Authorization.Decision.{
  is_api, is_admin_path, is_public, is_monitor, authorize_lem,
}
use um_fantasy_league.StandingsHub

abbrev admin_path : Text
admin_path = codes "/api/admin/heroes"

abbrev visitor : Manager
visitor = record { is_admin = false }

authorize_example :
    let segments = split b'/' admin_path in
    let is_read =
      is_api segments && not (is_admin_path segments) && same get get && is_public segments in
    (authorize get admin_path none
      ≡ (if is_monitor segments || is_read then forwarded else unauthorized))
    × (authorize get admin_path (some visitor) ≡ (
        if is_monitor segments
          || is_api segments && (not (is_admin_path segments) || visitor.is_admin)
        then forwarded
        else forbidden))
authorize_example = authorize_lem get admin_path visitor

-- One visitor watches two tournaments, and leaves one.
abbrev watching_one : StandingsHub.Registry
watching_one = record {
  channels = (pos 1, record { receivers = 1; subscribers = 1 }) ∷ [];
  total = 1;
}

abbrev watching_two : StandingsHub.Registry
watching_two = record {
  channels =
      (pos 1, record { receivers = 1; subscribers = 1 })
      ∷ (pos 2, record { receivers = 1; subscribers = 1 })
      ∷ [];
  total = 2;
}

abbrev left_hub : StandingsHub.Hub
left_hub = record {
  registry = StandingsHub.drop_subscription watching_two (pos 2);
  live = pos 1 ∷ [];
}
