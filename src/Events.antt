-- ===== src/Events.antt =====
-- src/event_bus.cpp: events, published to bounded queues, one per subscription, that worker threads
-- drain. The mutex makes each part of the code under it one step; the steps of the workers and of the
-- callers interleave in any order, and any subscription of `ready_` may be taken next.
mod State
pub use State.*
pub mod Served
pub mod Final
pub mod Runs
pub mod Cancels
pub mod Progress
mod Tests
use ge.Prelude.{
  ℕ, zero, suc, ◌+◌, ◌-◌, Bool, true, false, not, ◌&&◌, ◌||◌, Option, none, some, List, [], ◌∷◌,
  ◌++◌, ltb, leb, ◌==◌, if◌then◌else◌, length, contains, incr64,
}
use ge.Prelude.Int.{ℤ, is_zero}

unfoldable pub level : Severity → ℕ
level debug = 0
level info = 1
level warning = 2
level error = 3

unfoldable pub types_match : List ℕ → ℕ → Bool
types_match [] t = true
types_match (u ∷ us) t = contains t (u ∷ us)

unfoldable pub severity_matches : Option Severity → Severity → Bool
severity_matches none s = true
severity_matches (some least) s = leb (level least) (level s)

unfoldable pub session_matches : Option ℕ → ℕ → Bool
session_matches none s = true
session_matches (some t) s = t == s

unfoldable pub matches : EventFilter → Event → Bool
matches f e =
    types_match f.types e.type_name
    && severity_matches f.min_severity e.severity
    && session_matches f.session e.session

-- One round of Publish's loop: an event for one subscription. A full queue drops it.
unfoldable pub offer : ℕ → Event → Subscription → Subscription
offer capacity e s =
    if s.cancelled || not (matches s.filter e)
    then s
    else if leb capacity (length s.queue)
    then record s { dropped = incr64 s.dropped; offered = s.offered ++ e ∷ [] }
    else record s {
      queue = s.queue ++ e ∷ [];
      scheduled = true;
      in_ready = if s.scheduled then s.in_ready else s.in_ready + 1;
      offered = s.offered ++ e ∷ [];
    }

unfoldable pub is_dropped : ℕ → Event → Subscription → Bool
is_dropped capacity e s =
    not (s.cancelled || not (matches s.filter e)) && leb capacity (length s.queue)

unfoldable pub offer_all : ℕ → Event → List Subscription → List Subscription
offer_all capacity e [] = []
offer_all capacity e (s ∷ rest) = offer capacity e s ∷ offer_all capacity e rest

unfoldable pub count_dropped : ℕ → Event → List Subscription → ℕ → ℕ
count_dropped capacity e [] n = n
count_dropped capacity e (s ∷ rest) n =
    count_dropped capacity e rest (if is_dropped capacity e s then incr64 n else n)

-- `now` is the wall clock.
unfoldable pub stamp : ℤ → EventBus → Event → Event
stamp now b e = record e {
  event_id = if e.event_id == 0 then b.next_event_id else e.event_id;
  timestamp_ns = if is_zero e.timestamp_ns then now else e.timestamp_ns;
}

unfoldable pub publish : Event → ℤ → EventBus → EventBus
publish e now b = record b {
  next_event_id = if e.event_id == 0 then incr64 b.next_event_id else b.next_event_id;
  published = incr64 b.published;
  subscriptions = offer_all b.queue_capacity (stamp now b e) b.subscriptions;
  dropped = count_dropped b.queue_capacity (stamp now b e) b.subscriptions b.dropped;
}

unfoldable pub new_subscription : EventFilter → Subscription
new_subscription f = record {
  filter = f;
  queue = [];
  scheduled = false;
  cancelled = false;
  dropped = 0;
  in_ready = 0;
  draining = 0;
  in_hand = [];
  offered = [];
  called = [];
}

unfoldable pub subscribe : EventFilter → EventBus → EventBus
subscribe f b = record b { subscriptions = b.subscriptions ++ new_subscription f ∷ [] }

-- Cancel, but for its wait until the subscription is no longer scheduled.
unfoldable pub cancel_subscription : Subscription → Subscription
cancel_subscription s = record s { cancelled = true; queue = [] }

-- A worker takes the subscription from `ready_`.
unfoldable pub take_ready : Subscription → Subscription
take_ready s =
    if ltb 0 s.in_ready
    then record s { in_ready = s.in_ready - 1; draining = s.draining + 1 }
    else s

-- The part of Drain under the lock: it ends, or takes an event and calls the handler.
unfoldable pub next_event : List Event → Subscription → Subscription
next_event [] s = record s { draining = s.draining - 1; scheduled = false }
next_event (e ∷ rest) s =
    if s.cancelled then record s { draining = s.draining - 1; scheduled = false } else record s {
      draining = s.draining - 1;
      queue = rest;
      in_hand = s.in_hand ++ e ∷ [];
      called = s.called ++ e ∷ [];
    }

unfoldable pub drain_step : Subscription → Subscription
drain_step s = if ltb 0 s.draining then next_event s.queue s else s

-- The handler returns.
unfoldable pub end_call : List Event → Subscription → Subscription
end_call [] s = s
end_call (e ∷ rest) s = record s { in_hand = rest; draining = s.draining + 1 }

-- A change of the subscription at a place; none where there is no such place.
unfoldable pub at_place : ℕ → (Subscription → Subscription) → List Subscription → List Subscription
at_place i f [] = []
at_place zero f (s ∷ rest) = f s ∷ rest
at_place (suc i) f (s ∷ rest) = s ∷ at_place i f rest

pub data Move : Type 0 where
  publishes : Event → ℤ → Move
  subscribes : EventFilter → Move
  cancels takes drains : ℕ → Move
  returns : ℕ → Move

-- `delivered` counts the handlers that returned.
unfoldable pub count_returned : ℕ → List Subscription → ℕ → ℕ
count_returned i [] n = n
count_returned zero (s ∷ rest) n = elim s.in_hand [ [] ↦ n | e ∷ es ↦ incr64 n ]
count_returned (suc i) (s ∷ rest) n = count_returned i rest n

abbrev pub change : ℕ → (Subscription → Subscription) → EventBus → EventBus
change i f b = record b { subscriptions = at_place i f b.subscriptions }

unfoldable pub move : Move → EventBus → EventBus
move (publishes e now) b = publish e now b
move (subscribes f) b = subscribe f b
move (cancels i) b = change i cancel_subscription b
move (takes i) b = change i take_ready b
move (drains i) b = change i drain_step b
move (returns i) b = record b {
  delivered = count_returned i b.subscriptions b.delivered;
  subscriptions = at_place i (λ s. end_call s.in_hand s) b.subscriptions;
}

unfoldable pub run : List Move → EventBus → EventBus
run [] b = b
run (m ∷ ms) b = run ms (move m b)

unfoldable pub new_bus : ℕ → EventBus
new_bus capacity = record {
  queue_capacity = capacity;
  subscriptions = [];
  next_event_id = 1;
  published = 0;
  delivered = 0;
  dropped = 0;
}
