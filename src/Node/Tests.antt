-- ===== src/Node/Tests.antt =====
-- Runs of the life cycle, and the theorems at runs that meet their hypotheses.
use ge.Prelude.{◌≡◌, ◌≤◌, refl, true, false, List, [], ◌∷◌, ◌++◌, arith}
use ge.Node.{
  Move, looks, finds_free, takes, confirms, admits, refuses, begins, runs, submits, ends,
  returns_last, resets, checks_flight, checks_async, checks_slots, claims, checks_again, cancels,
  holds, observes, is_open, to_running, to_ready, is_ready, look, find_free, take_slot, confirm,
  admit_task, count_in, start_running, begin_async, count_out, return_last, reset_ready,
  check_flight, check_async, check_slots, claim, check_again, observe, move, opened_node, run,
  parallelism_of,
}
use ge.Node.Safety.{drain_is_last, hold_stops, parallelism_kept}

abbrev schedule : List Move
schedule = looks ∷ finds_free ∷ takes ∷ confirms ∷ []

abbrev invocation : List Move
invocation = schedule ++ admits ∷ begins ∷ runs ∷ ends ∷ returns_last ∷ resets ∷ []

abbrev drain : List Move
drain = checks_flight ∷ checks_async ∷ checks_slots ∷ claims ∷ checks_again ∷ []

-- An invocation, then a drain that wins; a task that is scheduled meanwhile is refused.
abbrev drained : List Move
drained = invocation ++ looks ∷ finds_free ∷ drain

drained_wins : (run drained (opened_node 2)).winners ≡ 1
unfolding run move opened_node look find_free take_slot confirm admit_task count_in start_running
    count_out return_last reset_ready check_flight check_async check_slots claim check_again is_open
    to_running to_ready is_ready
drained_wins = refl

drain_is_last_example :
    ((run (takes ∷ confirms ∷ refuses ∷ cancels ∷ []) (run drained (opened_node 2))).winners ≡ 1)
    × ((run (takes ∷ confirms ∷ refuses ∷ cancels ∷ []) (run drained (opened_node 2))).in_flight
        ≡ 0)
unfolding run move opened_node look find_free take_slot confirm admit_task count_in start_running
    count_out return_last reset_ready check_flight check_async check_slots claim check_again is_open
    to_running to_ready is_ready
drain_is_last_example =
    drain_is_last 2 drained (takes ∷ confirms ∷ refuses ∷ cancels ∷ []) (omega arith)

hold_stops_example :
    ((run (invocation ++ holds ∷ observes ∷ looks ∷ []) (opened_node 1)).held ≡ true)
    × ((run (invocation ++ holds ∷ observes ∷ looks ∷ []) (opened_node 1)).granted ≡ 0)
    × ((run (invocation ++ holds ∷ observes ∷ looks ∷ []) (opened_node 1)).in_flight ≡ 0)
unfolding run move opened_node look find_free take_slot confirm admit_task count_in start_running
    count_out return_last reset_ready observe is_open to_running to_ready
hold_stops_example = hold_stops 1 (invocation ++ holds ∷ observes ∷ looks ∷ []) refl

parallelism_kept_example :
    ((run (schedule ++ schedule) (opened_node (parallelism_of false true 4 8))).in_flight ≤ 1)
    × ((run (schedule ++ schedule) (opened_node (parallelism_of false true 4 8))).slots ≤ 1)
parallelism_kept_example = parallelism_kept false true 4 8 (schedule ++ schedule)

-- A drain passes its test for asynchronous operations before another task submits one and leaves, and
-- its test of the slots after that: it wins with an operation pending.
abbrev raced : List Move
raced =
    schedule
    ++ admits ∷ checks_flight ∷ checks_async ∷ begins ∷ runs ∷ submits ∷ ends ∷ returns_last
      ∷ resets ∷ checks_slots ∷ claims ∷ checks_again ∷ []

drained_with_pending :
    ((run raced (opened_node 1)).winners ≡ 1) × ((run raced (opened_node 1)).async_count ≡ 1)
unfolding run move opened_node look find_free take_slot confirm admit_task count_in start_running
    count_out return_last reset_ready check_flight check_async check_slots claim check_again
    begin_async is_open to_running to_ready is_ready
drained_with_pending = (refl, refl)
