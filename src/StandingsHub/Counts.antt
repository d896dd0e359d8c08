-- ===== src/StandingsHub/Counts.antt =====
-- The registry's counts against the subscriptions that live.
use um_fantasy_league.Common.{
  ℕ, zero, suc, ◌+◌, ◌-◌, ◌≤◌, I64, int_eq, Option, none, some, count, length, ◌≡◌,
}
use um_fantasy_league.Common.IndexMap
use um_fantasy_league.Common.IndexMap.{IndexMap}
use um_fantasy_league.StandingsHub.{Channel, Hub, max_subscribers, max_total}

-- A channel of so many subscribers, each with its receiver; none for no subscriber.
abbrev channel_of : ℕ → Option Channel
channel_of zero = none
channel_of (suc k) = some (record { receivers = suc k; subscribers = suc k })

pub record IsCounted (h : Hub) : Type 0 where
  pub total : h.registry.total ≡ length h.live
  pub room : length h.live ≤ max_total
  pub channels : (t : I64) → IndexMap.get h.registry.channels t ≡ channel_of (count t h.live)
  pub fair : (t : I64) → count t h.live ≤ max_subscribers

abbrev raised : Channel → Channel
raised c = record { receivers = c.receivers + 1; subscribers = c.subscribers + 1 }

abbrev lowered : Channel → Channel
lowered c = record { receivers = c.receivers - 1; subscribers = c.subscribers - 1 }

abbrev new_channel : Channel
new_channel = record { receivers = 0; subscribers = 0 }
