-- ===== src/Events/Tests.antt =====
-- Runs of the bus, and the theorems at runs that meet their hypotheses.
use ge.Prelude.{
  ℕ, ◌+◌, ◌%◌, ◌^◌, ◌≤◌, ◌≡◌, refl, true, false, none, some, List, [], ◌∷◌, ◌++◌, length, contains,
  get_elem?, ltb, ◌||◌, ◌*◌,
}
use ge.Prelude.Int.{pos}
use mathlib.Core.List.{Sublistᴰ}
use ge.Events.{
  Event, EventFilter, Subscription, warning, Move, publishes, subscribes, cancels, takes, drains,
  returns, level, types_match, severity_matches, session_matches, matches, offer, is_dropped,
  offer_all, count_dropped, stamp, publish, subscribe, new_subscription, cancel_subscription,
  take_ready, next_event, drain_step, end_call, at_place, count_returned, move, run, new_bus,
}
use ge.Events.Runs.{run_in_order_of_publishing, flushed_counts}
use ge.Events.Cancels.{cancel_is_final}
use ge.Events.Progress.{work, workers_finish}

abbrev event : ℕ → Event
event n = record {
  event_id = n;
  type_name = 4;
  severity = warning;
  session = 1;
  timestamp_ns = pos 100;
  detail = 0;
}

abbrev filter : EventFilter
filter = record { types = 4 ∷ []; min_severity = some warning; session = none }

-- Three events for a queue of two: the third is dropped.
abbrev moves : List Move
moves =
    subscribes filter
    ∷ publishes (event 1) (pos 5)
    ∷ publishes (event 2) (pos 5)
    ∷ publishes (event 3) (pos 5)
    ∷ takes 0
    ∷ drains 0
    ∷ returns 0
    ∷ drains 0
    ∷ returns 0
    ∷ drains 0
    ∷ []

abbrev after : Subscription
after = record {
  filter = filter;
  queue = [];
  scheduled = false;
  cancelled = false;
  dropped = 1;
  in_ready = 0;
  draining = 0;
  in_hand = [];
  offered = event 1 ∷ event 2 ∷ event 3 ∷ [];
  called = event 1 ∷ event 2 ∷ [];
}

first_state : get_elem? (run moves (new_bus 2)).subscriptions 0 ≡ some after
unfolding run move publish subscribe new_subscription offer_all offer matches types_match
    severity_matches session_matches level stamp count_dropped is_dropped at_place take_ready
    drain_step next_event end_call count_returned new_bus contains
first_state = refl

run_in_order_of_publishing_example :
    Sublistᴰ (after.called ++ after.queue) after.offered
    × (after.in_ready + after.draining + length after.in_hand ≤ 1)
    × (length after.queue ≤ 2)
run_in_order_of_publishing_example = run_in_order_of_publishing 2 moves 0 after first_state

flushed_counts_example :
    (after.queue ≡ [])
    × ((length after.called + after.dropped) % 2 ^ 64 ≡ length after.offered % 2 ^ 64)
flushed_counts_example = flushed_counts 2 moves 0 after first_state refl refl

abbrev cancelled : Subscription
cancelled = record after { cancelled = true }

second_state :
    get_elem? (run (moves ++ cancels 0 ∷ []) (new_bus 2)).subscriptions 0 ≡ some cancelled
unfolding run move publish subscribe new_subscription offer_all offer matches types_match
    severity_matches session_matches level stamp count_dropped is_dropped at_place take_ready
    drain_step next_event end_call count_returned new_bus contains cancel_subscription
second_state = refl

abbrev later : List Move
later = publishes (event 9) (pos 5) ∷ takes 0 ∷ drains 0 ∷ []

third_state :
    get_elem? (run later (run (moves ++ cancels 0 ∷ []) (new_bus 2))).subscriptions 0
    ≡ some cancelled
unfolding run move publish subscribe new_subscription offer_all offer matches types_match
    severity_matches session_matches level stamp count_dropped is_dropped at_place take_ready
    drain_step next_event end_call count_returned new_bus contains cancel_subscription
third_state = refl

cancel_is_final_example :
    (cancelled.called ≡ cancelled.called) × (length cancelled.in_hand ≡ 0) × (cancelled.queue ≡ [])
cancel_is_final_example =
    cancel_is_final 2 (moves ++ cancels 0 ∷ []) later 0 cancelled cancelled second_state refl refl
      third_state

workers_finish_example :
    (work after ≤ 2 * 2 + 2)
    × (work (take_ready after) ≤ work after)
    × (work (drain_step after) ≤ work after)
    × (work (end_call after.in_hand after) ≤ work after)
    × ((ltb (work (take_ready after)) (work after)
          || ltb (work (drain_step after)) (work after)
          || ltb (work (end_call after.in_hand after)) (work after))
        ≡ after.scheduled)
    × (after.scheduled ≡ false → after.queue ≡ [])
workers_finish_example = workers_finish 2 moves 0 after first_state
