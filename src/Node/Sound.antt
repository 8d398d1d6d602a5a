-- ===== src/Node/Sound.antt =====
-- What holds of a node between any two atomic accesses of src/node_runtime.cpp.
use ge.Prelude.{ℕ, ◌+◌, ◌≤◌, ◌<◌, ◌≡◌, Bool, true, false, List, [], ◌∷◌, arith}
use ge.Node.{
  NodeState, ready, running, async_pending, NodeWorld, Move, is_open, to_running, to_ready,
  to_async_pending, leave_async_pending, undo_draining, is_ready, look, find_free, find_held,
  take_slot, miss_slot, confirm, undo, admit_task, refuse_task, drop_task, turn_away,
  cancel_schedule, count_in, start_running, begin_async, count_out, return_last, return_other,
  reset_ready, end_async, check_flight, check_async, check_slots, claim, check_again, revert,
  observe, move, opened_node, run,
}

-- The threads that hold a slot, those that InvokeBody has let in, and the calls of TryEnterDraining
-- that have claimed the node.
abbrev pub inside : NodeWorld → ℕ
inside w = w.admitted + w.begun + w.invoking + w.last_out + w.other_out

abbrev pub claimers : NodeWorld → ℕ
claimers w = w.claimed + w.reverting + w.winners

-- The states from which a node may still become ready, but for draining.
abbrev pub is_live : NodeState → Bool
is_live ready = true
is_live running = true
is_live async_pending = true
is_live _ = false

abbrev pub slots_and_holders : NodeWorld → ℕ
slots_and_holders w = w.slots + w.reserved + w.granted + w.refused + inside w

pub record IsSound (w : NodeWorld) : Type 0 where
  pub slots_add : slots_and_holders w ≡ w.max_parallelism
  pub flights : w.in_flight ≡ w.begun + w.invoking
  pub one_claim : claimers w ≤ 1
  pub unclaimed : is_live w.state ≡ true → claimers w ≡ 0
  pub drained : 0 < w.winners → inside w ≡ 0
  pub pause : w.paused ≡ true → (w.held ≡ true) × (w.granted + w.refused + inside w ≡ 0)

slots_move :
    (m : Move) (w : NodeWorld)
    → IsSound w
    → slots_and_holders (move m w) ≡ (move m w).max_parallelism
unfolding move look find_free find_held take_slot miss_slot confirm undo admit_task refuse_task
    drop_task turn_away cancel_schedule count_in start_running begin_async count_out return_last
    return_other reset_ready end_async check_flight check_async check_slots claim check_again revert
    observe is_open to_running to_ready to_async_pending leave_async_pending undo_draining is_ready
slots_move m w v = ground (arith, v.slots_add, v.flights)

flights_move :
    (m : Move) (w : NodeWorld)
    → IsSound w
    → (move m w).in_flight ≡ (move m w).begun + (move m w).invoking
unfolding move look find_free find_held take_slot miss_slot confirm undo admit_task refuse_task
    drop_task turn_away cancel_schedule count_in start_running begin_async count_out return_last
    return_other reset_ready end_async check_flight check_async check_slots claim check_again revert
    observe is_open to_running to_ready to_async_pending leave_async_pending undo_draining is_ready
flights_move m w v = ground (arith, v.flights)

one_claim_move : (m : Move) (w : NodeWorld) → IsSound w → claimers (move m w) ≤ 1
unfolding move look find_free find_held take_slot miss_slot confirm undo admit_task refuse_task
    drop_task turn_away cancel_schedule count_in start_running begin_async count_out return_last
    return_other reset_ready end_async check_flight check_async check_slots claim check_again revert
    observe is_open to_running to_ready to_async_pending leave_async_pending undo_draining is_ready
one_claim_move m w v = ground (arith, v.one_claim, v.unclaimed)

unclaimed_move :
    (m : Move) (w : NodeWorld)
    → IsSound w
    → is_live (move m w).state ≡ true
    → claimers (move m w) ≡ 0
unfolding move look find_free find_held take_slot miss_slot confirm undo admit_task refuse_task
    drop_task turn_away cancel_schedule count_in start_running begin_async count_out return_last
    return_other reset_ready end_async check_flight check_async check_slots claim check_again revert
    observe is_open to_running to_ready to_async_pending leave_async_pending undo_draining is_ready
unclaimed_move m w v live = ground (arith, v.one_claim, v.unclaimed)

drained_move :
    (m : Move) (w : NodeWorld) → IsSound w → 0 < (move m w).winners → inside (move m w) ≡ 0
unfolding move look find_free find_held take_slot miss_slot confirm undo admit_task refuse_task
    drop_task turn_away cancel_schedule count_in start_running begin_async count_out return_last
    return_other reset_ready end_async check_flight check_async check_slots claim check_again revert
    observe is_open to_running to_ready to_async_pending leave_async_pending undo_draining is_ready
drained_move m w v won = ground (arith, v.drained, v.slots_add, v.unclaimed)

pause_move :
    (m : Move) (w : NodeWorld)
    → IsSound w
    → (move m w).paused ≡ true
    → ((move m w).held ≡ true) × ((move m w).granted + (move m w).refused + inside (move m w) ≡ 0)
unfolding move look find_free find_held take_slot miss_slot confirm undo admit_task refuse_task
    drop_task turn_away cancel_schedule count_in start_running begin_async count_out return_last
    return_other reset_ready end_async check_flight check_async check_slots claim check_again revert
    observe is_open to_running to_ready to_async_pending leave_async_pending undo_draining is_ready
pause_move m w v p = ground (arith, v.pause, v.slots_add)

pub move-IsSound : (m : Move) (w : NodeWorld) → IsSound w → IsSound (move m w)
move-IsSound m w v = record {
  slots_add = slots_move m w v;
  flights = flights_move m w v;
  one_claim = one_claim_move m w v;
  unclaimed = unclaimed_move m w v;
  drained = drained_move m w v;
  pause = pause_move m w v;
}

pub run-IsSound : (ms : List Move) (w : NodeWorld) → IsSound w → IsSound (run ms w)
unfolding run
run-IsSound [] w v = v
run-IsSound (m ∷ ms) w v = run-IsSound ms (move m w) (move-IsSound m w v)

pub opened_node-IsSound : (n : ℕ) → IsSound (opened_node n)
unfolding opened_node
opened_node-IsSound n = record {
  slots_add = ground arith;
  flights = ground arith;
  one_claim = ground arith;
  unclaimed = λ p. ground arith;
  drained = λ p. ground arith;
  pause = λ p. absurd (cc);
}
