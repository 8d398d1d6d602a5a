-- ===== src/Limiter/Runs.antt =====
-- Whole calls of Process of src/infer/flow_limiter.cpp, and sequences of them from Open on.
use ge.Prelude.{
  ◌≡◌, refl, inl, inr, true, false, if◌then◌else◌, none, some, Option, List, [], ◌∷◌, ◌++◌, arith,
  Option-cases, if_cases, ltb, ◌==◌, ◌-◌, ◌*◌, ◌/◌, ◌^◌, ◌<◌, incr64,
}
use ge.Prelude.Int.{ℤ}
use ge.Packet.{Packet, PacketRef, is_event}
use ge.Limiter.{
  FlowLimiter, InFlight, Input, Options, Request, Outcome, fine, and_then, publish, release_held,
  flush_loop, complete, complete_all, complete_ref, complete_input, overflows, proceed,
  reclaim_loop, reclaim_timed_out, take_inputs, update_limit, process, open_limiter, limit_of,
  or_else, positive, named_drop, is_finished, release_loop, timed_out,
}
use ge.Limiter.Served.{
  NoNull, packets, IsValid, line, Served, Ends, Ends-and_then, Ends-map, Served-same, Served-trans,
}
use ge.Limiter.Steps.{Settled, IsGiven, release_loop-Served, flush_loop-Served}
use ge.Limiter.Inputs.{all_offered, AreGiven, take_inputs-Served}

-- Open gives a valid limiter, with nothing emitted or held, if it succeeds with a time-out whose
-- nanoseconds fit an int64_t.
pub open_limiter-IsValid :
    (o : Options) (f : FlowLimiter)
    → open_limiter o ≡ some f
    → f.timeout_ms * 1000000 < 2 ^ 63
    → IsValid f × (line f ≡ [])
unfolding open_limiter limit_of packets
open_limiter-IsValid o f q t = elim (Option-cases (limit_of (or_else named_drop o.on_limit))) [
  | inl n ↦ absurd (ground (arith, n, q))
  | inr (d, n) ↦ ground (arith, n, q, t)
]

update_limit-Served : (n : Option ℤ) (f : FlowLimiter) → IsValid f → Served [] f (update_limit n f)
unfolding update_limit
update_limit-Served none f v = Served-same v refl refl
update_limit-Served (some n) f v =
    if_cases (Served [] f) (positive n) _ _
      (λ t.
        Served-same
          (record {
            slots = ground (arith, t);
            room = v.room;
            bounded = v.bounded;
            sound = v.sound;
            timely = v.timely;
          })
          refl refl)
      (λ t. Served-same v refl refl)

reclaim_loop-Served :
    (req : Request) (xs : List InFlight) (f : FlowLimiter)
    → IsValid f
    → Ends (Served [] f) (reclaim_loop req xs f)
unfolding reclaim_loop publish overflows
reclaim_loop-Served req [] f v = Served-same v refl refl
reclaim_loop-Served req (x ∷ rest) f v =
    let g =
      publish req (timed_out x.pts_ns x.seq ((req.now - x.since) / 1000000))
        (record f { timeouts = incr64 f.timeouts; in_flight = rest }) in
    let w : IsValid g = record {
      slots = v.slots;
      room = v.room;
      bounded = v.bounded;
      sound = v.sound;
      timely = v.timely;
    } in
    if_cases (Ends (Served [] f)) (overflows f.timeout_ms) _ _
      (λ t. absurd (ground (arith, t, v.timely)))
      (λ _.
        if_cases (Ends (Served [] f)) (ltb (f.timeout_ms * 1000000) (req.now - x.since)) _ _
          (λ t.
            Ends-map (Served [] g) (Served [] f) (reclaim_loop req rest g)
              (reclaim_loop-Served req rest g w)
              (λ h s. Served-trans [] [] (Served-same w refl refl) s))
          (λ t. Served-same v refl refl))

complete_ref-Served :
    (r : PacketRef) (f : FlowLimiter)
    → IsValid f
    → NoNull (r ∷ [])
    → Ends (Served [] f) (complete_ref r f)
unfolding complete_ref complete
complete_ref-Served none f v h = absurd h
complete_ref-Served (some p) f v h =
    if_cases (Served [] f) (is_event p) f (complete p f) (λ t. Served-same v refl refl)
      (λ t.
        Served-same
          (record {
            slots = v.slots;
            room = v.room;
            bounded = v.bounded;
            sound = v.sound;
            timely = v.timely;
          })
          refl refl)

complete_input-Served :
    (i : Input) (f : FlowLimiter) → IsValid f → IsGiven i → Ends (Served [] f) (complete_input i f)
unfolding complete_input
complete_input-Served i f v h =
    if_cases (Ends (Served [] f)) (is_finished i.port) _ _ (λ t. complete_ref-Served i.packet f v h)
      (λ t. Served-same v refl refl)

complete_all-Served :
    (is : List Input) (f : FlowLimiter)
    → IsValid f
    → AreGiven is
    → Ends (Served [] f) (complete_all is f)
unfolding complete_all
complete_all-Served [] f v h = Served-same v refl refl
complete_all-Served (i ∷ rest) f v h =
    Ends-and_then (Served [] f) (Served [] f) (complete_input i f) (complete_all rest)
      (complete_input-Served i f v h.0)
      (λ g a.
        Ends-map (Served [] g) (Served [] f) (complete_all rest g)
          (complete_all-Served rest g a.valid h.1) (λ e b. Served-trans [] [] a b))

reclaim_timed_out-Served :
    (req : Request) (f : FlowLimiter) → IsValid f → Ends (Served [] f) (reclaim_timed_out req f)
unfolding reclaim_timed_out
reclaim_timed_out-Served req f v =
    if_cases (Ends (Served [] f)) (f.timeout_ms == 0) _ _ (λ t. Served-same v refl refl)
      (λ t. reclaim_loop-Served req f.in_flight f v)

-- What a request offers: nothing if it is a flush.
unfoldable pub arrivals : Request → List Packet
arrivals req = if req.flush then [] else all_offered req.inputs

take_after-Served :
    (req : Request) (f : FlowLimiter)
    → IsValid f
    → AreGiven req.inputs
    → Ends
        (Served (all_offered req.inputs) f)
        (and_then (release_held req f) (take_inputs req req.inputs))
unfolding release_held
take_after-Served req f v given =
    let is = all_offered req.inputs in
    Ends-and_then (λ h. Served [] f h × Settled h) (Served is f) (release_loop req f.held f)
      (take_inputs req req.inputs) (release_loop-Served req f.held f v refl)
      (λ h e.
        Ends-map (Served is h) (Served is f) (take_inputs req req.inputs h)
          (take_inputs-Served req req.inputs h e.0.valid e.1 given)
          (λ k s. Served-trans [] is e.0 s))

proceed-Served :
    (req : Request) (f : FlowLimiter)
    → IsValid f
    → AreGiven req.inputs
    → Ends (Served (arrivals req) f) (proceed req f)
unfolding proceed arrivals
proceed-Served req f v given =
    let is = all_offered req.inputs in
    let next : FlowLimiter → Outcome × FlowLimiter =
      λ c. and_then (release_held req c) (take_inputs req req.inputs) in
    elim req.flush
      as (λ x.
        Ends (Served (if x then [] else is) f)
          (if x then flush_loop req f.held f else and_then (complete_all req.inputs f) next)) [
            | true ↦ flush_loop-Served req f.held f v refl
            | false ↦
                Ends-and_then (Served [] f) (Served is f) (complete_all req.inputs f) next
                  (complete_all-Served req.inputs f v given)
                  (λ h e.
                    Ends-map (Served is h) (Served is f) (next h)
                      (take_after-Served req h e.valid given) (λ k s. Served-trans [] is e s))
          ]

process-Served :
    (req : Request) (f : FlowLimiter)
    → IsValid f
    → AreGiven req.inputs
    → Ends (Served (arrivals req) f) (process req f)
unfolding process
process-Served req f v given =
    let u = update_limit req.parameter f in
    let xs = arrivals req in
    let a = update_limit-Served req.parameter f v in
    Ends-and_then (Served [] u) (Served xs f) (reclaim_timed_out req u) (proceed req)
      (reclaim_timed_out-Served req u a.valid)
      (λ g b.
        Ends-map (Served xs g) (Served xs f) (proceed req g) (proceed-Served req g b.valid given)
          (λ h s. Served-trans [] xs (Served-trans [] [] a b) s))

-- No input of the requests is a null reference.
abbrev pub AllGiven : List Request → Type 0
AllGiven [] = Unit {0}
AllGiven (req ∷ reqs) = AreGiven req.inputs × AllGiven reqs

-- Calls one after the other, up to the first that fails.
unfoldable pub serve : List Request → FlowLimiter → Outcome × FlowLimiter
serve [] f = (fine, f)
serve (req ∷ reqs) f = and_then (process req f) (serve reqs)

unfoldable pub all_arrivals : List Request → List Packet
all_arrivals [] = []
all_arrivals (req ∷ reqs) = arrivals req ++ all_arrivals reqs

-- Over any calls without null inputs from a valid limiter, whose time-out has less than 2 ^ 63
-- nanoseconds, no call reads a null reference or the front of an empty queue or overflows the
-- time-out, up to the first call that fails; and if none fails then the packets emitted and held at
-- the end are a subsequence of those emitted and held at the start and those that arrived, in this
-- order, and the drop counter accounts for the others up to its 64-bit wrap; at most `max_held`
-- packets are held.
pub serve-Served :
    (reqs : List Request) (f : FlowLimiter)
    → IsValid f
    → AllGiven reqs
    → Ends (Served (all_arrivals reqs) f) (serve reqs f)
unfolding serve all_arrivals
serve-Served [] f v given = Served-same v refl refl
serve-Served (req ∷ reqs) f v given =
    Ends-and_then (Served (arrivals req) f) _ (process req f) (serve reqs)
      (process-Served req f v given.0)
      (λ g s.
        Ends-map _ _ (serve reqs g) (serve-Served reqs g s.valid given.1)
          (λ h t. Served-trans (arrivals req) (all_arrivals reqs) s t))
