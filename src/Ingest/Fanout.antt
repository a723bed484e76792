-- ===== src/Ingest/Fanout.antt =====
-- internal/ingest/fanout.go: `Fanout` and `Subscription`. A subscription's channel is the list of the
-- events in it; `Dropped` is a uint64.
pub mod Trace
pub mod Interleaved
use logpond.Base.{
  ℕ, ◌+◌, ◌%◌, Bool, true, false, not, ◌&&◌, List, [], ◌∷◌, ◌++◌, map, length, count, ltb,
  if◌then◌else◌, ◌==◌,
}
use logpond.Base.Int64.{modulus}

pub record Subscription (Event : Type 0) : Type 0 where
  pub queue : List Event
  pub capacity : ℕ
  pub dropped : ℕ
  pub closed : Bool

-- A subscription with its identity, whether the fan-out's map still holds it, and whether a call of
-- Cancel has closed it and has not removed it yet.
pub record Entry (Event : Type 0) : Type 0 where
  pub key : ℕ
  pub sub : Subscription Event
  pub listed : Bool
  pub removing : Bool

-- What a call of Publish has left to send to a subscription.
pub record Send (Event : Type 0) : Type 0 where
  pub key : ℕ
  pub events : List Event

abbrev pub Fanout : Type 0 → Type 0
Fanout Event = List (Entry Event)

module _ {Event : Type 0} where
  unfoldable pub new_subscription : ℕ → Subscription Event
  new_subscription capacity = record {
    queue = [];
    capacity = if capacity == 0 then 1 else capacity;
    dropped = 0;
    closed = false;
  }

  -- Subscribe. A capacity below 1 is 0 here; the new identity is one that no entry has.
  unfoldable pub subscribe : ℕ → Fanout Event → Fanout Event
  subscribe capacity f =
      f
      ++ record { key = length f; sub = new_subscription capacity; listed = true; removing = false }
        ∷ []

  -- `publish` of a subscription: the send does not block.
  unfoldable pub publish_one : Event → Subscription Event → Subscription Event
  publish_one e s =
      if s.closed
      then s
      else if ltb (length s.queue) s.capacity
      then record s { queue = s.queue ++ e ∷ [] }
      else record s { dropped = (s.dropped + 1) % modulus }

  -- Publish, under `f.mu`: a send of the events to each subscription that the map holds. The sends
  -- come after the lock is let go.
  unfoldable pub snapshot : List Event → Fanout Event → List (Send Event)
  snapshot es [] = []
  snapshot es (x ∷ f) =
      let rest = snapshot es f in
      if x.listed then record { key = x.key; events = es } ∷ rest else rest

  abbrev pub sent : ℕ → Event → Entry Event → Entry Event
  sent key e x = record x { sub = if x.key == key then publish_one e x.sub else x.sub }

  -- One `publish` of Publish, under the `s.mu` of a subscription that may have left the map.
  unfoldable pub send : ℕ → Event → Fanout Event → Fanout Event
  send key e f = map (sent key e) f

  unfoldable pub close : Subscription Event → Subscription Event
  close s = record s { closed = true }

  abbrev pub closed : ℕ → Entry Event → Entry Event
  closed key x =
      if x.key == key && not x.sub.closed
      then record x { sub = close x.sub; removing = true }
      else x

  -- Cancel, under `s.mu`. A call that finds the subscription closed returns.
  unfoldable pub cancel : ℕ → Fanout Event → Fanout Event
  cancel key f = map (closed key) f

  abbrev pub removed : ℕ → Entry Event → Entry Event
  removed key x =
      if x.key == key && x.removing then record x { listed = false; removing = false } else x

  -- `remove`, under `f.mu`: the rest of the Cancel call that closed the subscription.
  unfoldable pub remove : ℕ → Fanout Event → Fanout Event
  remove key f = map (removed key) f

  -- SubscriberCount
  unfoldable pub subscriber_count : Fanout Event → ℕ
  subscriber_count f = count (λ x. x.listed) f
