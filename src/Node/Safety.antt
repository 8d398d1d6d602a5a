-- ===== src/Node/Safety.antt =====
-- What the life cycle of src/node_runtime.cpp keeps apart: draining and invocations, a hold and
-- invocations, and the number of invocations at once.
use ge.Prelude.{ℕ, ◌≤◌, ◌<◌, ◌≡◌, refl, max, Bool, true, ◌||◌, List, [], ◌∷◌, arith, if◌then◌else◌}
use ge.Node.{
  NodeWorld, Move, look, find_free, find_held, take_slot, miss_slot, confirm, undo, admit_task,
  refuse_task, drop_task, turn_away, cancel_schedule, count_in, start_running, begin_async,
  count_out, return_last, return_other, reset_ready, end_async, check_flight, check_async,
  check_slots, claim, check_again, revert, observe, move, opened_node, run, parallelism_of,
}
use ge.Node.Sound.{run-IsSound, opened_node-IsSound}

-- No move takes a won TryEnterDraining back.
winners-move : (m : Move) (w : NodeWorld) → w.winners ≤ (move m w).winners
unfolding move look find_free find_held take_slot miss_slot confirm undo admit_task refuse_task
    drop_task turn_away cancel_schedule count_in start_running begin_async count_out return_last
    return_other reset_ready end_async check_flight check_async check_slots claim check_again revert
    observe
winners-move m w = ground arith

winners-run : (ms : List Move) (w : NodeWorld) → w.winners ≤ (run ms w).winners
unfolding run
winners-run [] w = omega arith
winners-run (m ∷ ms) w = omega (arith, winners-move m w, winners-run ms (move m w))

max-move : (m : Move) (w : NodeWorld) → (move m w).max_parallelism ≡ w.max_parallelism
unfolding move look find_free find_held take_slot miss_slot confirm undo admit_task refuse_task
    drop_task turn_away cancel_schedule count_in start_running begin_async count_out return_last
    return_other reset_ready end_async check_flight check_async check_slots claim check_again revert
    observe
max-move m w = ground arith

max-run : (ms : List Move) (w : NodeWorld) → (run ms w).max_parallelism ≡ w.max_parallelism
unfolding run
max-run [] w = refl
max-run (m ∷ ms) w = omega (arith, max-move m w, max-run ms (move m w))

-- If in a run of a node from Open a call of TryEnterDraining has returned true, then it is the only one
-- for the rest of the run, however it goes on, and no invocation is under way at its end.
pub drain_is_last :
    (parallelism : ℕ) (ms ns : List Move)
    → 0 < (run ms (opened_node parallelism)).winners
    → ((run ns (run ms (opened_node parallelism))).winners ≡ 1)
      × ((run ns (run ms (opened_node parallelism))).in_flight ≡ 0)
drain_is_last parallelism ms ns won =
    let v =
      run-IsSound ns (run ms (opened_node parallelism))
        (run-IsSound ms (opened_node parallelism) (opened_node-IsSound parallelism)) in
    let w : NodeWorld = run ns (run ms (opened_node parallelism)) in
    let more : 0 < w.winners = omega (arith, winners-run ns (run ms (opened_node parallelism))) in
    (omega (arith, v.one_claim), omega (arith, v.flights, v.drained more))

-- From the moment when the coordinator, after Hold, finds every slot free until Release: the node is
-- held, no task of it is queued and no invocation is under way.
pub hold_stops :
    (parallelism : ℕ) (ms : List Move)
    → (run ms (opened_node parallelism)).paused ≡ true
    → ((run ms (opened_node parallelism)).held ≡ true)
      × ((run ms (opened_node parallelism)).granted ≡ 0)
      × ((run ms (opened_node parallelism)).in_flight ≡ 0)
hold_stops parallelism ms p =
    let v = run-IsSound ms (opened_node parallelism) (opened_node-IsSound parallelism) in
    ((v.pause p).0, omega (arith, (v.pause p).1), omega (arith, (v.pause p).1, v.flights))

parallelism_of_le :
    (stateful async : Bool) (requested allowed : ℕ)
    → parallelism_of stateful async requested allowed
      ≤ (if stateful || async then 1 else max 1 allowed)
unfolding parallelism_of
parallelism_of_le stateful async requested allowed = ground arith

-- At most so many invocations of a node are under way at once as the capability allows, one if it is
-- stateful or asynchronous, and the free slots are never more than that.
pub parallelism_kept :
    (stateful async : Bool) (requested allowed : ℕ) (ms : List Move)
    → ((run ms (opened_node (parallelism_of stateful async requested allowed))).in_flight
        ≤ (if stateful || async then 1 else max 1 allowed))
      × ((run ms (opened_node (parallelism_of stateful async requested allowed))).slots
          ≤ (if stateful || async then 1 else max 1 allowed))
unfolding opened_node
parallelism_kept stateful async requested allowed ms =
    let n : ℕ = parallelism_of stateful async requested allowed in
    let v = run-IsSound ms (opened_node n) (opened_node-IsSound n) in
    let same : (run ms (opened_node n)).max_parallelism ≡ n = max-run ms (opened_node n) in
    let least = parallelism_of_le stateful async requested allowed in
    (omega (arith, v.slots_add, v.flights, same, least), omega (arith, v.slots_add, same, least))
