-- ===== src/Limiter/Tests.antt =====
-- The flow limiter at concrete requests: runs of the code, and the theorems at inputs that meet their
-- hypotheses.
use ge.Prelude.{
  ℕ, ◌≤◌, ◌-◌, ◌^◌, ◌≡◌, refl, Bool, true, false, none, some, List, [], ◌∷◌, arith, length,
}
use ge.Prelude.Int.{pos}
use ge.Packet.{Packet, is_event}
use ge.Limiter.{
  FlowLimiter, Input, incoming, finished, hold, named_hold, Options, Request, undefined, overflow,
  open_limiter, limit_of, process, update_limit, reclaim_timed_out, reclaim_loop, flush_loop,
  release_held, release_loop, complete_all, complete_ref, complete_input, take_ref, overflows,
  proceed, complete, take_inputs, take_input, and_then, admit, admit_front, pop_held, refuse,
  displace_held, drop_packet, publish, is_finished, is_incoming, without_first, free_until,
}
use ge.Limiter.Served.{IsValid, line, Served, Ends}
use ge.Limiter.Runs.{open_limiter-IsValid, serve, all_arrivals, serve-Served}
use ge.Limiter.Slots.{process-Within}
use ge.Limiter.Failure.{flush_twice, stops, fault_of}

abbrev frame : ℕ → Packet
frame n = record {
  header = record {
    seq = n;
    pts_ns = pos n;
    dts_ns = pos n;
    flags = 0;
    topology_version = 1;
    parameter_version = 1;
    type_tag = 3;
  };
  metadata = none;
  payload = some n;
  ingress_ns = pos 0;
}

abbrev options : Options
options = record {
  max_in_flight = none;
  on_limit = some named_hold;
  max_held = some (pos 2);
  timeout_ms = none;
}

abbrev opened : FlowLimiter
opened = record {
  max_in_flight = 1;
  max_held = 2;
  on_limit = hold;
  timeout_ms = 0;
  in_flight = [];
  held = [];
  dropped = 0;
  timeouts = 0;
  emitted = [];
  published = [];
}

abbrev request : Bool → List Input → Request
request flush inputs = record {
  parameter = none;
  flush = flush;
  inputs = inputs;
  now = 5;
  has_events = true;
  emit = λ history. 0;
  admitted_at = λ history. 5;
}

abbrev arrive : ℕ → Input
arrive n = record { port = incoming; packet = some (frame n) }

abbrev complete_to : ℕ → Input
complete_to n = record { port = finished; packet = some (frame n) }

-- Five frames with one slot and room for two, then a completion, then the end of the input.
abbrev requests : List Request
requests =
    request false (arrive 1 ∷ arrive 2 ∷ arrive 3 ∷ arrive 4 ∷ [])
    ∷ request false (arrive 5 ∷ complete_to 1 ∷ [])
    ∷ request true []
    ∷ []

served : (serve requests opened).1.emitted ≡ frame 1 ∷ frame 3 ∷ frame 4 ∷ frame 5 ∷ []
unfolding serve process proceed update_limit reclaim_timed_out reclaim_loop flush_loop release_held
    release_loop complete_all complete_input complete_ref complete take_inputs take_input take_ref
    and_then admit admit_front pop_held refuse displace_held drop_packet publish is_finished
    is_incoming without_first free_until is_event
served = refl

-- A slot with the largest time-out that Open takes, and the next call.
too_long :
    (f : FlowLimiter) × (open_limiter (record options { timeout_ms = some (pos (2 ^ 63 - 1)) })
      ≡ some f)
    × ((process (request false []) (process (request false (arrive 1 ∷ [])) f).1).0
        ≡ undefined overflow)
unfolding open_limiter limit_of serve process proceed update_limit reclaim_timed_out reclaim_loop
    overflows release_held release_loop complete_all complete_input take_inputs take_input take_ref
    and_then admit is_finished is_incoming is_event
too_long = (record opened { timeout_ms = 2 ^ 63 - 1 }, refl, refl)

opened-IsValid : IsValid opened × (line opened ≡ [])
unfolding open_limiter limit_of
opened-IsValid = open_limiter-IsValid options opened refl (omega arith)

serve-Served_example : Ends (Served (all_arrivals requests) opened) (serve requests opened)
serve-Served_example =
    serve-Served requests opened opened-IsValid.0
      ((tt, (tt, (tt, (tt, tt)))), ((tt, (tt, tt)), (tt, tt)))

abbrev full : FlowLimiter
full = record opened { in_flight = record { pts_ns = pos 1; seq = 1; since = 3 } ∷ [] }

process-Within_example : length (process (request false (arrive 2 ∷ [])) full).1.in_flight ≤ 1
unfolding update_limit
process-Within_example =
    process-Within 1 (request false (arrive 2 ∷ [])) full refl (omega arith) (omega arith)

abbrev refusing : Request
refusing = record (request true []) { emit = λ history. 18 }

abbrev holding : FlowLimiter
holding = record opened { held = some (frame 2) ∷ [] }

flush_twice_example :
    (process (request true []) (process refusing holding).1).0
    ≡ undefined (fault_of (stops holding))
flush_twice_example =
    flush_twice refusing (request true []) (frame 2) [] holding refl refl refl refl
