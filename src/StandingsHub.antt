-- ===== src/StandingsHub.antt =====
-- backend-rs/crates/umfl-server/src/standings/sse.rs: the registry of the standings streams, which counts the
-- subscribers of every tournament. Its mutex makes each operation one step. The broadcast channel is the
-- runtime's: of its sender, the model keeps how many receivers it has. A receiver is made by `subscribe` and
-- dropped with the subscription that its stream holds, so dropping a subscription takes both.
pub mod Counts
use um_fantasy_league.Common.{
  ℕ, suc, ◌+◌, ◌-◌, I64, int_eq, ◌==◌, leb, eqb, Bool, true, false, ◌||◌, Option, none, some, List,
  [], ◌∷◌, count, if◌then◌else◌, ◌≡◌,
}
use um_fantasy_league.Common.IndexMap
use um_fantasy_league.Common.IndexMap.{IndexMap}

-- `MAX_SUBSCRIBERS_PER_TOURNAMENT`
abbrev pub max_subscribers : ℕ
max_subscribers = 200

-- `MAX_TOTAL_SUBSCRIBERS`
abbrev pub max_total : ℕ
max_total = 500

-- `receivers` is the `receiver_count` of the sender, and `subscribers` the registry's own count.
pub record Channel : Type 0 where
  pub receivers : ℕ
  pub subscribers : ℕ

pub record Registry : Type 0 where
  pub channels : IndexMap I64 Channel
  pub total : ℕ

abbrev pub empty_registry : Registry
empty_registry = record { channels = []; total = 0 }

abbrev pub subscribers_of : Option Channel → ℕ
subscribers_of none = 0
subscribers_of (some c) = c.subscribers

-- `subscriber_count`
abbrev pub subscriber_count : Registry → I64 → ℕ
subscriber_count r tournament_id = subscribers_of (IndexMap.get r.channels tournament_id)

-- `register`: none is the answer that the stream is at capacity.
unfoldable pub register : Registry → I64 → Option Registry
unfolding IndexMap.get IndexMap.upsert
register r tournament_id =
    if leb max_total r.total || leb max_subscribers (subscriber_count r tournament_id)
    then none
    else some (record {
      channels =
          IndexMap.upsert r.channels tournament_id (record { receivers = 0; subscribers = 0 })
            (λ (c : Channel). record {
              receivers = c.receivers + 1;
              subscribers = c.subscribers + 1;
            });
      total = r.total + 1;
    })

-- `if emptied { registry.channels.shift_remove(…) }`
abbrev pub without_empty : IndexMap I64 Channel → I64 → Option Channel → IndexMap I64 Channel
without_empty channels tournament_id none = channels
without_empty channels tournament_id (some c) =
    if eqb c.subscribers 0 then IndexMap.remove channels tournament_id else channels

-- `Subscription::drop`, and the drop of the receiver beside it
unfoldable pub drop_subscription : Registry → I64 → Registry
unfolding IndexMap.get IndexMap.modify
drop_subscription r tournament_id =
    let channels =
      IndexMap.modify r.channels tournament_id (λ (c : Channel). record {
        receivers = c.receivers - 1;
        subscribers = c.subscribers - 1;
      }) in
    record {
      channels = without_empty channels tournament_id (IndexMap.get channels tournament_id);
      total = r.total - 1;
    }

abbrev pub sent_to : Option Channel → Option ℕ
sent_to none = none
sent_to (some c) = some c.receivers

-- `notify`: how many receivers the signal is sent to, and none where there is no channel.
unfoldable pub notify : Registry → I64 → Option ℕ
unfolding IndexMap.get
notify r tournament_id = sent_to (IndexMap.get r.channels tournament_id)

abbrev pub remove_one : I64 → List I64 → List I64
remove_one t [] = []
remove_one t (x ∷ xs) = let rest = remove_one t xs in if x == t then xs else x ∷ rest

-- The registry with the tournaments of the subscriptions that live.
pub record Hub : Type 0 where
  pub registry : Registry
  pub live : List I64

pub data Step (h : Hub) : Hub → Type 0 where
  subscribed :
      (t : I64) {r : Registry}
      → register h.registry t ≡ some r
      → Step h (record { registry = r; live = t ∷ h.live })
  dropped :
      (t : I64) {k : ℕ}
      → count t h.live ≡ suc k
      → Step h (record { registry = drop_subscription h.registry t; live = remove_one t h.live })

abbrev pub start : Hub
start = record { registry = empty_registry; live = [] }

pub data Reach : Hub → Type 0 where
  here : Reach start
  next : {h k : Hub} → Reach h → Step h k → Reach k
