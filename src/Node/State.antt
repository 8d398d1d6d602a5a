-- ===== src/Node/State.antt =====
-- The atomics of NodeRuntime in include/ge/cpp/node_runtime.h, with the threads that use them.
use ge.Prelude.{ℕ, Bool}

pub data NodeState : Type 0 where
  created opening ready running async_pending draining closing closed failed : NodeState

-- The atomics, and then how many threads stand at each point of the code. `winners` counts the calls of
-- TryEnterDraining that returned true, and `paused` is that the coordinator, after Hold, has found
-- every slot free.
pub record NodeWorld : Type 0 where
  -- The atomics.
  pub state : NodeState
  pub in_flight : ℕ
  pub async_count : ℕ
  pub slots : ℕ
  pub max_parallelism : ℕ
  pub held : Bool
  -- TrySchedule: the state was seen ready, no hold was seen, a slot is taken.
  pub looking : ℕ
  pub wanting : ℕ
  pub reserved : ℕ
  -- A task is queued; it may not go on; it was let in; it has counted itself; it runs the operator.
  pub granted : ℕ
  pub refused : ℕ
  pub admitted : ℕ
  pub begun : ℕ
  pub invoking : ℕ
  -- EndInvoke: with no other invocation left, with another one, and after the slot is returned.
  pub last_out : ℕ
  pub other_out : ℕ
  pub resetting : ℕ
  -- TryEnterDraining: after each of its tests, after the claim, and before its undoing.
  pub no_flight : ℕ
  pub no_async : ℕ
  pub all_free : ℕ
  pub claimed : ℕ
  pub reverting : ℕ
  pub winners : ℕ
  pub paused : Bool

-- One atomic access of one thread.
pub data Move : Type 0 where
  looks finds_free finds_held takes misses confirms undoes : Move
  admits refuses drops turns_away cancels begins runs submits : Move
  ends returns_last returns resets : Move
  fails parks wakes completes : Move
  checks_flight checks_async checks_slots claims checks_again reverts closes finishes : Move
  holds observes releases : Move
