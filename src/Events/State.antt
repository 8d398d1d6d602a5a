-- ===== src/Events/State.antt =====
-- The events, the subscriptions and the bus of include/ge/cpp/event_bus.h.
use ge.Prelude.{ℕ, Bool, Option, List}
use ge.Prelude.Int.{ℤ}

pub data Severity : Type 0 where
  debug info warning error : Severity

-- The type is a number that names a text; the rest of an event is only passed along.
pub record Event : Type 0 where
  pub event_id : ℕ
  pub type_name : ℕ
  pub severity : Severity
  pub session : ℕ
  pub timestamp_ns : ℤ
  pub detail : ℕ

pub record EventFilter : Type 0 where
  pub types : List ℕ
  pub min_severity : Option Severity
  pub session : Option ℕ

-- A subscription with the number of its places in `ready_`, the number of workers in Drain that look
-- for its next event, and the events whose handler runs. `offered` are the events that it matched
-- while it was not cancelled, and `called` are those that its handler was given.
pub record Subscription : Type 0 where
  pub filter : EventFilter
  pub queue : List Event
  pub scheduled : Bool
  pub cancelled : Bool
  pub dropped : ℕ
  pub in_ready : ℕ
  pub draining : ℕ
  pub in_hand : List Event
  pub offered : List Event
  pub called : List Event

-- Subscription number `i` stands at place `i - 1`, also when it is cancelled.
pub record EventBus : Type 0 where
  pub queue_capacity : ℕ
  pub subscriptions : List Subscription
  pub next_event_id : ℕ
  pub published : ℕ
  pub delivered : ℕ
  pub dropped : ℕ
