-- ===== src/Edge/State.antt =====
-- The state of one channel of src/edge_channel.cpp: the types of edge_channel.h, the constructor and
-- the compare-exchanges of the life-cycle state.
use ge.Prelude.{ℕ, max, Bool, true, false, none, List, replicate}
use ge.Packet.{PacketRef}

pub data EdgeState : Type 0 where
  active backpressured draining retired : EdgeState

pub data DropPolicy : Type 0 where
  block drop_oldest drop_newest : DropPolicy

pub data PushOutcome : Type 0 where
  accepted accepted_dropped_oldest dropped_newest would_block cancelled : PushOutcome

pub record EdgeConfig : Type 0 where
  pub capacity : ℕ
  pub policy : DropPolicy

pub record EdgeMetrics : Type 0 where
  pub queue_depth : ℕ
  pub max_depth : ℕ
  pub pushed : ℕ
  pub popped : ℕ
  pub drop_count : ℕ
  pub would_block_count : ℕ
  pub cancelled_count : ℕ

pub record EdgeChannel : Type 0 where
  pub config : EdgeConfig
  pub state : EdgeState
  pub metrics : EdgeMetrics
  pub ring : List PacketRef
  pub head : ℕ
  pub size : ℕ

abbrev pub no_metrics : EdgeMetrics
no_metrics = record {
  queue_depth = 0;
  max_depth = 0;
  pushed = 0;
  popped = 0;
  drop_count = 0;
  would_block_count = 0;
  cancelled_count = 0;
}

-- The constructor. The ring has at least one slot, and the configuration is told its size.
unfoldable pub create : EdgeConfig → EdgeChannel
create c = record {
  config = record c { capacity = max c.capacity 1 };
  state = active;
  metrics = no_metrics;
  ring = replicate (max c.capacity 1) none;
  head = 0;
  size = 0;
}

-- Draining or retired: pushes are cancelled.
unfoldable pub is_closed : EdgeState → Bool
is_closed active = false
is_closed backpressured = false
is_closed draining = true
is_closed retired = true

unfoldable pub is_retired : EdgeState → Bool
is_retired retired = true
is_retired _ = false

-- One compare-exchange from active to backpressured.
unfoldable pub to_backpressured : EdgeState → EdgeState
to_backpressured active = backpressured
to_backpressured s = s

-- One compare-exchange from backpressured to active, and whether it happened.
unfoldable pub to_active : EdgeState → EdgeState × Bool
to_active backpressured = (active, true)
to_active s = (s, false)

unfoldable pub to_draining : EdgeState → EdgeState
to_draining active = draining
to_draining backpressured = draining
to_draining s = s
