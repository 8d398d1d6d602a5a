-- ===== src/Node.antt =====
-- The life cycle of a node, of NodeRuntime in src/node_runtime.cpp with its callers in
-- src/scheduler.cpp and src/scheduler_invoke.cpp: TrySchedule, CancelSchedule, BeginInvoke, EndInvoke,
-- TryEnterDraining, the asynchronous calls, Hold and Release, by any number of threads at once. Every
-- atomic access is one move, and the moves of the threads interleave in any order.
mod State
pub use State.*
pub mod Sound
pub mod Safety
mod Tests
use ge.Prelude.{
  ℕ, ◌+◌, ◌-◌, min, max, Bool, true, false, not, ◌&&◌, ◌||◌, ltb, ◌==◌, if◌then◌else◌, add32, List,
  [], ◌∷◌,
}

-- The states in which a task is let in.
unfoldable pub is_open : NodeState → Bool
is_open ready = true
is_open running = true
is_open _ = false

-- The exchanges of the state: they change it only from the state they expect.
unfoldable pub to_running : NodeState → NodeState
to_running ready = running
to_running s = s

unfoldable pub to_ready : NodeState → NodeState
to_ready running = ready
to_ready s = s

unfoldable pub to_async_pending : NodeState → NodeState
to_async_pending ready = async_pending
to_async_pending s = s

unfoldable pub leave_async_pending : NodeState → NodeState
leave_async_pending async_pending = ready
leave_async_pending s = s

unfoldable pub undo_draining : NodeState → NodeState
undo_draining draining = ready
undo_draining s = s

unfoldable pub is_ready : NodeState → Bool
is_ready ready = true
is_ready _ = false

-- A move that no thread can make changes nothing.
abbrev pub when : Bool → NodeWorld → NodeWorld → NodeWorld
when enabled new old = if enabled then new else old

-- TrySchedule: load of the state, load of the hold, the exchange of the slots, the second load of the
-- hold.
unfoldable pub look : NodeWorld → NodeWorld
look w = when (is_open w.state) (record w { looking = w.looking + 1 }) w

unfoldable pub find_free : NodeWorld → NodeWorld
find_free w =
    when (ltb 0 w.looking && not w.held)
      (record w { looking = w.looking - 1; wanting = w.wanting + 1 }) w

unfoldable pub find_held : NodeWorld → NodeWorld
find_held w = when (ltb 0 w.looking && w.held) (record w { looking = w.looking - 1 }) w

unfoldable pub take_slot : NodeWorld → NodeWorld
take_slot w =
    when (ltb 0 w.wanting && ltb 0 w.slots)
      (record w { wanting = w.wanting - 1; slots = w.slots - 1; reserved = w.reserved + 1 }) w

unfoldable pub miss_slot : NodeWorld → NodeWorld
miss_slot w = when (ltb 0 w.wanting && w.slots == 0) (record w { wanting = w.wanting - 1 }) w

unfoldable pub confirm : NodeWorld → NodeWorld
confirm w =
    when (ltb 0 w.reserved && not w.held)
      (record w { reserved = w.reserved - 1; granted = w.granted + 1 }) w

unfoldable pub undo : NodeWorld → NodeWorld
undo w =
    when (ltb 0 w.reserved && w.held) (record w { reserved = w.reserved - 1; slots = w.slots + 1 })
      w

-- InvokeBody's load of the state, and the ways a task ends before BeginInvoke. A task that the executor
-- drops gives its slot back, too.
unfoldable pub admit_task : NodeWorld → NodeWorld
admit_task w =
    when (ltb 0 w.granted && is_open w.state)
      (record w { granted = w.granted - 1; admitted = w.admitted + 1 }) w

unfoldable pub refuse_task : NodeWorld → NodeWorld
refuse_task w =
    when (ltb 0 w.granted && not (is_open w.state))
      (record w { granted = w.granted - 1; refused = w.refused + 1 }) w

unfoldable pub drop_task : NodeWorld → NodeWorld
drop_task w = when (ltb 0 w.granted) (record w { granted = w.granted - 1; slots = w.slots + 1 }) w

unfoldable pub turn_away : NodeWorld → NodeWorld
turn_away w =
    when (ltb 0 w.admitted) (record w { admitted = w.admitted - 1; refused = w.refused + 1 }) w

unfoldable pub cancel_schedule : NodeWorld → NodeWorld
cancel_schedule w =
    when (ltb 0 w.refused) (record w { refused = w.refused - 1; slots = w.slots + 1 }) w

-- BeginInvoke, BeginAsync and EndInvoke.
unfoldable pub count_in : NodeWorld → NodeWorld
count_in w =
    when (ltb 0 w.admitted)
      (record w { admitted = w.admitted - 1; begun = w.begun + 1; in_flight = w.in_flight + 1 }) w

unfoldable pub start_running : NodeWorld → NodeWorld
start_running w =
    when (ltb 0 w.begun)
      (record w { begun = w.begun - 1; invoking = w.invoking + 1; state = to_running w.state }) w

unfoldable pub begin_async : NodeWorld → NodeWorld
begin_async w = when (ltb 0 w.invoking) (record w { async_count = add32 w.async_count 1 }) w

unfoldable pub count_out : NodeWorld → NodeWorld
count_out w =
    when (ltb 0 w.invoking)
      (record w {
        invoking = w.invoking - 1;
        in_flight = w.in_flight - 1;
        last_out = if w.in_flight == 1 then w.last_out + 1 else w.last_out;
        other_out = if w.in_flight == 1 then w.other_out else w.other_out + 1;
      })
      w

unfoldable pub return_last : NodeWorld → NodeWorld
return_last w =
    when (ltb 0 w.last_out)
      (record w { last_out = w.last_out - 1; resetting = w.resetting + 1; slots = w.slots + 1 }) w

unfoldable pub return_other : NodeWorld → NodeWorld
return_other w =
    when (ltb 0 w.other_out) (record w { other_out = w.other_out - 1; slots = w.slots + 1 }) w

unfoldable pub reset_ready : NodeWorld → NodeWorld
reset_ready w =
    when (ltb 0 w.resetting) (record w { resetting = w.resetting - 1; state = to_ready w.state }) w

-- EndAsync's count.
unfoldable pub end_async : NodeWorld → NodeWorld
end_async w = when (ltb 0 w.async_count) (record w { async_count = w.async_count - 1 }) w

-- TryEnterDraining: four loads and two exchanges.
unfoldable pub check_flight : NodeWorld → NodeWorld
check_flight w = when (w.in_flight == 0) (record w { no_flight = w.no_flight + 1 }) w

unfoldable pub check_async : NodeWorld → NodeWorld
check_async w =
    when (ltb 0 w.no_flight)
      (record w {
        no_flight = w.no_flight - 1;
        no_async = if w.async_count == 0 then w.no_async + 1 else w.no_async;
      })
      w

unfoldable pub check_slots : NodeWorld → NodeWorld
check_slots w =
    when (ltb 0 w.no_async)
      (record w {
        no_async = w.no_async - 1;
        all_free = if w.slots == w.max_parallelism then w.all_free + 1 else w.all_free;
      })
      w

unfoldable pub claim : NodeWorld → NodeWorld
claim w =
    when (ltb 0 w.all_free)
      (record w {
        all_free = w.all_free - 1;
        claimed = if is_ready w.state then w.claimed + 1 else w.claimed;
        state = if is_ready w.state then draining else w.state;
      })
      w

unfoldable pub check_again : NodeWorld → NodeWorld
check_again w =
    when (ltb 0 w.claimed)
      (record w {
        claimed = w.claimed - 1;
        winners = if w.slots == w.max_parallelism then w.winners + 1 else w.winners;
        reverting = if w.slots == w.max_parallelism then w.reverting else w.reverting + 1;
      })
      w

unfoldable pub revert : NodeWorld → NodeWorld
revert w =
    when (ltb 0 w.reverting)
      (record w { reverting = w.reverting - 1; state = undo_draining w.state }) w

-- The coordinator finds every slot free after Hold, the second half of quiescent().
unfoldable pub observe : NodeWorld → NodeWorld
observe w = when (w.held && w.slots == w.max_parallelism) (record w { paused = true }) w

-- The store of `failed` is Fail, that of `closing` EnterClosing and Close, that of `closed` the end of
-- Close.
unfoldable pub move : Move → NodeWorld → NodeWorld
move looks w = look w
move finds_free w = find_free w
move finds_held w = find_held w
move takes w = take_slot w
move misses w = miss_slot w
move confirms w = confirm w
move undoes w = undo w
move admits w = admit_task w
move refuses w = refuse_task w
move drops w = drop_task w
move turns_away w = turn_away w
move cancels w = cancel_schedule w
move begins w = count_in w
move runs w = start_running w
move submits w = begin_async w
move ends w = count_out w
move returns_last w = return_last w
move returns w = return_other w
move resets w = reset_ready w
move fails w = record w { state = failed }
move parks w = record w { state = to_async_pending w.state }
move wakes w = record w { state = leave_async_pending w.state }
move completes w = end_async w
move checks_flight w = check_flight w
move checks_async w = check_async w
move checks_slots w = check_slots w
move claims w = claim w
move checks_again w = check_again w
move reverts w = revert w
move closes w = record w { state = closing }
move finishes w = record w { state = closed }
move holds w = record w { held = true }
move observes w = observe w
move releases w = record w { held = false; paused = false }

-- The constructor's bound on the parallelism, and a node that Open has left ready.
unfoldable pub parallelism_of : Bool → Bool → ℕ → ℕ → ℕ
parallelism_of stateful async requested allowed =
    if stateful || async then 1 else min (max requested 1) (max 1 allowed)

unfoldable pub opened_node : ℕ → NodeWorld
opened_node parallelism = record {
  state = ready;
  in_flight = 0;
  async_count = 0;
  slots = parallelism;
  max_parallelism = parallelism;
  held = false;
  looking = 0;
  wanting = 0;
  reserved = 0;
  granted = 0;
  refused = 0;
  admitted = 0;
  begun = 0;
  invoking = 0;
  last_out = 0;
  other_out = 0;
  resetting = 0;
  no_flight = 0;
  no_async = 0;
  all_free = 0;
  claimed = 0;
  reverting = 0;
  winners = 0;
  paused = false;
}

-- A run of moves, of any threads in any order.
unfoldable pub run : List Move → NodeWorld → NodeWorld
run [] w = w
run (m ∷ ms) w = run ms (move m w)
