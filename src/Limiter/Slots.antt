-- ===== src/Limiter/Slots.antt =====
-- The bound on the packets in flight that src/infer/flow_limiter.cpp keeps, whatever the outcome.
use ge.Prelude.{
  ℕ, Bool, ◌-◌, ◌*◌, ◌≤◌, ◌<◌, ◌≡◌, refl, ap, false, not, ◌||◌, some, none, Option, List, [], ◌∷◌,
  arith, length, if_cases, ltb, ◌==◌,
}
use ge.Prelude.Int.{ℤ}
use ge.Packet.{Packet, PacketRef, is_event}
use ge.Limiter.{
  FlowLimiter, InFlight, Input, OnLimit, drop, hold, Request, Outcome, fine, failed, undefined,
  and_then, admit, publish, drop_packet, pop_held, admit_front, release_held, release_loop,
  complete, complete_all, complete_ref, complete_input, take_ref, overflows, proceed, reclaim_loop,
  reclaim_timed_out, take_input, take_inputs, refuse, displace_held, update_limit, process,
  without_first, free_until, is_finished, is_incoming,
}
use ge.Limiter.Served.{length-++}
use ge.Limiter.Steps.{admit_cases}

-- At most `n` packets are in flight, and no more may be.
abbrev pub Within : ℕ → FlowLimiter → Type 0
Within n f = (length f.in_flight ≤ n) × (f.max_in_flight ≤ n)

and_then-Within :
    (n : ℕ) (r : Outcome × FlowLimiter) (next : FlowLimiter → Outcome × FlowLimiter)
    → Within n r.1
    → ((f : FlowLimiter) → Within n f → Within n (next f).1)
    → Within n (and_then r next).1
unfolding and_then
and_then-Within n (fine, f) next h k = k f h
and_then-Within n (failed code, f) next h k = h
and_then-Within n (undefined fault, f) next h k = h

admit-Within :
    (n : ℕ) (req : Request) (p : PacketRef) (f : FlowLimiter)
    → Within n f
    → length f.in_flight < f.max_in_flight
    → Within n (admit req p f).1
unfolding admit
admit-Within n req none f w h = w
admit-Within n req (some p) f w h =
    admit_cases (λ r. Within n r.1) req p f
      (λ e. (omega (arith, w.1, h, length-++ f.in_flight (e ∷ [])), w.1)) (λ code. w)

pop_held-Within :
    (n : ℕ) (rest : List PacketRef) (r : Outcome × FlowLimiter)
    → Within n r.1
    → Within n (pop_held rest r).1
unfolding pop_held
pop_held-Within n rest (fine, f) w = w
pop_held-Within n rest (failed code, f) w = w
pop_held-Within n rest (undefined fault, f) w = w

release_loop-Within :
    (n : ℕ) (req : Request) (held : List PacketRef) (f : FlowLimiter)
    → Within n f
    → Within n (release_loop req held f).1
unfolding release_loop admit_front
release_loop-Within n req [] f w = w
release_loop-Within n req (p ∷ rest) f w =
    if_cases (λ (r : Outcome × FlowLimiter). Within n r.1)
      (ltb (length f.in_flight) f.max_in_flight) _ _
      (λ t.
        and_then-Within n (admit_front req p rest f) (release_loop req rest)
          (pop_held-Within n rest _
            (admit-Within n req p (record f { held = none ∷ rest }) w (ground (arith, t))))
          (λ g v. release_loop-Within n req rest g v))
      (λ t. w)

refuse-Within :
    (n : ℕ) (d : OnLimit) (req : Request) (p : Packet) (held : List PacketRef) (f : FlowLimiter)
    → Within n f
    → Within n (refuse d req p f).1
unfolding refuse drop_packet publish displace_held
refuse-Within n drop req p held f w = w
refuse-Within n hold req p held f w =
    if_cases (λ (r : Outcome × FlowLimiter). Within n r.1) (ltb (length f.held) f.max_held) _ _
      (λ t. w) (λ t. displace_held-Within f.held)
  where
    displace_held-Within : (xs : List PacketRef) → Within n (displace_held req p xs f).1
    displace_held-Within [] = w
    displace_held-Within (none ∷ rest) = w
    displace_held-Within (some q ∷ rest) = w

take_ref-Within :
    (n : ℕ) (req : Request) (b : Bool) (r : PacketRef) (f : FlowLimiter)
    → Within n f
    → Within n (take_ref req b r f).1
unfolding take_ref
take_ref-Within n req b none f w = w
take_ref-Within n req b (some p) f w =
    let P = λ (r : Outcome × FlowLimiter). Within n r.1 in
    if_cases P (is_event p || not b) _ _ (λ t. w)
      (λ t.
        if_cases P (ltb (length f.in_flight) f.max_in_flight) _ _
          (λ u. admit-Within n req (some p) f w (ground (arith, u)))
          (λ u. refuse-Within n f.on_limit req p f.held f w))

take_inputs-Within :
    (n : ℕ) (req : Request) (is : List Input) (f : FlowLimiter)
    → Within n f
    → Within n (take_inputs req is f).1
unfolding take_inputs take_input
take_inputs-Within n req [] f w = w
take_inputs-Within n req (i ∷ rest) f w =
    and_then-Within n (take_input req i f) (take_inputs req rest)
      (take_ref-Within n req (is_incoming i.port) i.packet f w)
      (λ g v. take_inputs-Within n req rest g v)

length-free_until : (pts : ℤ) (xs : List InFlight) → length (free_until pts xs) ≤ length xs
unfolding free_until
length-free_until pts [] = omega arith
length-free_until pts (x ∷ xs) = ground (arith, length-free_until pts xs)

length-without_first : (xs : List InFlight) → length (without_first xs) ≤ length xs
unfolding without_first
length-without_first [] = omega arith
length-without_first (x ∷ xs) = omega arith

complete-Within : (n : ℕ) (p : Packet) (f : FlowLimiter) → Within n f → Within n (complete p f)
unfolding complete
complete-Within n p f w = ground (
  arith,
  w.0,
  w.1,
  length-free_until p.header.pts_ns f.in_flight,
  length-without_first f.in_flight,
)

complete_input-Within :
    (n : ℕ) (i : Input) (f : FlowLimiter) → Within n f → Within n (complete_input i f).1
unfolding complete_input complete_ref
complete_input-Within n i f w =
    if_cases (λ (r : Outcome × FlowLimiter). Within n r.1) (is_finished i.port) _ _
      (λ t. complete_ref-Within i.packet) (λ t. w)
  where
    complete_ref-Within : (r : PacketRef) → Within n (complete_ref r f).1
    complete_ref-Within none = w
    complete_ref-Within (some p) =
        if_cases (Within n) (is_event p) f (complete p f) (λ t. w) (λ t. complete-Within n p f w)

complete_all-Within :
    (n : ℕ) (is : List Input) (f : FlowLimiter) → Within n f → Within n (complete_all is f).1
unfolding complete_all
complete_all-Within n [] f w = w
complete_all-Within n (i ∷ rest) f w =
    and_then-Within n (complete_input i f) (complete_all rest) (complete_input-Within n i f w)
      (complete_all-Within n rest)

reclaim_loop-Within :
    (n : ℕ) (req : Request) (xs : List InFlight) (f : FlowLimiter)
    → Within n f
    → length xs ≤ n
    → Within n (reclaim_loop req xs f).1
unfolding reclaim_loop publish
reclaim_loop-Within n req [] f w h = w
reclaim_loop-Within n req (x ∷ rest) f w h =
    let less : length rest ≤ n = omega arith in
    let P = λ (r : Outcome × FlowLimiter). Within n r.1 in
    if_cases P (overflows f.timeout_ms) _ _ (λ t. w)
      (λ t.
        if_cases P (ltb (f.timeout_ms * 1000000) (req.now - x.since)) _ _
          (λ u. reclaim_loop-Within n req rest _ (less, w.1) less) (λ u. w))

proceed-Within :
    (n : ℕ) (req : Request) (f : FlowLimiter)
    → req.flush ≡ false
    → Within n f
    → Within n (proceed req f).1
unfolding proceed release_held
proceed-Within n req f q w =
    if_cases (λ (r : Outcome × FlowLimiter). Within n r.1) req.flush _ _ (λ t. absurd (cc))
      (λ t.
        and_then-Within n (complete_all req.inputs f)
          (λ c. and_then (release_loop req c.held c) (take_inputs req req.inputs))
          (complete_all-Within n req.inputs f w)
          (λ c v.
            and_then-Within n (release_loop req c.held c) (take_inputs req req.inputs)
              (release_loop-Within n req c.held c v)
              (λ e x. take_inputs-Within n req req.inputs e x)))

in_flight-update_limit :
    (m : Option ℤ) (f : FlowLimiter) → (update_limit m f).in_flight ≡ f.in_flight
unfolding update_limit
in_flight-update_limit none f = refl
in_flight-update_limit (some m) f = ground arith

-- Of a call that is no flush: if at most `n` packets are in flight before, and the limit that the call
-- sets is at most `n`, then at most `n` are in flight after it, whatever its outcome.
pub process-Within :
    (n : ℕ) (req : Request) (f : FlowLimiter)
    → req.flush ≡ false
    → length f.in_flight ≤ n
    → (update_limit req.parameter f).max_in_flight ≤ n
    → length (process req f).1.in_flight ≤ n
unfolding process reclaim_timed_out
process-Within n req f q h k =
    let u = update_limit req.parameter f in
    let before : Within n u =
      (omega (arith, h, ap length (in_flight-update_limit req.parameter f)), k) in
    let reclaimed : Within n (reclaim_timed_out req u).1 =
      if_cases (λ (r : Outcome × FlowLimiter). Within n r.1) (u.timeout_ms == 0) _ _ (λ t. before)
        (λ t. reclaim_loop-Within n req u.in_flight u before before.0) in
    (and_then-Within n (reclaim_timed_out req u) (proceed req) reclaimed
      (λ g w. proceed-Within n req g q w)).0
