-- ===== src/Limiter/State.antt =====
-- The state of the flow limiter of src/infer/flow_limiter.cpp, and what a call is given and returns.
use ge.Prelude.{ℕ, Bool, Option, List}
use ge.Prelude.Int.{ℤ}
use ge.Packet.{Packet, PacketRef}

pub data OnLimit : Type 0 where
  drop hold : OnLimit

pub record InFlight : Type 0 where
  pub pts_ns : ℤ
  pub seq : ℕ
  pub since : ℕ

-- A dropped packet with its seq, its pts and the number in flight; a slot that timed out with its pts,
-- its seq and its age in ms.
pub data Event : Type 0 where
  dropped_packet : ℕ → ℤ → ℕ → Event
  timed_out : ℤ → ℕ → ℕ → Event

pub record FlowLimiter : Type 0 where
  pub max_in_flight : ℕ
  pub max_held : ℕ
  pub on_limit : OnLimit
  pub timeout_ms : ℕ
  pub in_flight : List InFlight
  pub held : List PacketRef
  pub dropped : ℕ
  pub timeouts : ℕ
  pub emitted : List Packet
  pub published : List Event

-- The values of the options, where they are set; `other` is any name but the two.
pub data LimitName : Type 0 where
  named_drop named_hold other : LimitName

pub record Options : Type 0 where
  pub max_in_flight : Option ℤ
  pub on_limit : Option LimitName
  pub max_held : Option ℤ
  pub timeout_ms : Option ℤ

-- The names of the input ports, as far as the code tells them apart.
pub data Port : Type 0 where
  incoming finished another : Port

-- An input with its port: inputs[i] and input_ports[i] of the same i.
pub record Input : Type 0 where
  pub port : Port
  pub packet : PacketRef

-- What comes from outside: the sink's answer to a packet and the clock's value when it is admitted
-- are functions of the packets that the sink has taken, the one in question last. The clock's values
-- are nanoseconds from 0 on.
pub record Request : Type 0 where
  pub parameter : Option ℤ
  pub flush : Bool
  pub inputs : List Input
  pub now : ℕ
  pub has_events : Bool
  pub emit : List Packet → ℕ
  pub admitted_at : List Packet → ℕ

-- A null reference or the front of an empty queue is read, or the time-out in nanoseconds overflows.
pub data Fault : Type 0 where
  null_read empty_front overflow : Fault

-- A Status that is OK, one of another code, or undefined behaviour.
pub data Outcome : Type 0 where
  fine : Outcome
  failed : ℕ → Outcome
  undefined : Fault → Outcome

-- GE_STATUS_OK and GE_STATUS_WOULD_BLOCK of ge_abi.h.
abbrev pub status_ok : ℕ
status_ok = 0

abbrev pub status_would_block : ℕ
status_would_block = 16
