-- ===== src/Limiter/Failure.antt =====
-- What src/infer/flow_limiter.cpp leaves behind when the sink refuses a held packet.
use ge.Prelude.{
  ◌≡◌, refl, sym, Bool, Bool-cases, inl, inr, not, ◌&&◌, arith, ap, ◌∙◌, true, false, some, none,
  Option, List, [], ◌∷◌, ◌++◌, if_cases, ltb, ◌==◌, ◌-◌, ◌*◌,
}
use ge.Prelude.Int.{ℤ}
use ge.Packet.{Packet, PacketRef}
use ge.Limiter.{
  FlowLimiter, InFlight, Request, Outcome, fine, undefined, Fault, null_read, overflow, overflows,
  proceed, and_then, admit, is_taken, publish, pop_held, admit_front, reclaim_loop,
  reclaim_timed_out, update_limit, process, flush_loop, positive,
}

abbrev none_in_flight : List InFlight → Bool
none_in_flight [] = true
none_in_flight (x ∷ rest) = false

-- Nothing happened to the packets.
abbrev Untouched : FlowLimiter → FlowLimiter → Type 0
Untouched f g = (g.held ≡ f.held) × (g.emitted ≡ f.emitted)

-- The next call compares an age with the time-out, which overflows.
abbrev pub stops : FlowLimiter → Bool
stops f = not (f.timeout_ms == 0) && not (none_in_flight f.in_flight) && overflows f.timeout_ms

reclaim_loop-Untouched :
    (req : Request) (xs : List InFlight) (f : FlowLimiter)
    → overflows f.timeout_ms ≡ false
    → (g : FlowLimiter) × (reclaim_loop req xs f ≡ (fine, g))
      × Untouched f g
      × (overflows g.timeout_ms ≡ false)
unfolding reclaim_loop publish
reclaim_loop-Untouched req [] f h = (f, refl, (refl, refl), h)
reclaim_loop-Untouched req (x ∷ rest) f h =
    let P = λ (r : Outcome × FlowLimiter).
      (g : FlowLimiter) × (r ≡ (fine, g)) × Untouched f g × (overflows g.timeout_ms ≡ false) in
    if_cases P (overflows f.timeout_ms) _ _ (λ t. absurd (cc))
      (λ t.
        if_cases P (ltb (f.timeout_ms * 1000000) (req.now - x.since)) _ _
          (λ u. reclaim_loop-Untouched req rest _ h) (λ u. (f, refl, (refl, refl), h)))

reclaim_loop-stops :
    (req : Request) (xs : List InFlight) (f : FlowLimiter)
    → none_in_flight xs ≡ false
    → overflows f.timeout_ms ≡ true
    → reclaim_loop req xs f ≡ (undefined overflow, f)
unfolding reclaim_loop
reclaim_loop-stops req [] f e h = absurd (cc)
reclaim_loop-stops req (x ∷ rest) f e h =
    if_cases (λ (r : Outcome × FlowLimiter). r ≡ (undefined overflow, f)) (overflows f.timeout_ms) _
      _ (λ t. refl) (λ t. absurd (cc))

update_limit-Untouched : (m : Option ℤ) (f : FlowLimiter) → Untouched f (update_limit m f)
unfolding update_limit
update_limit-Untouched none f = (refl, refl)
update_limit-Untouched (some m) f =
    if_cases (Untouched f) (positive m) _ _ (λ t. (refl, refl)) (λ t. (refl, refl))

stops-update_limit : (m : Option ℤ) (f : FlowLimiter) → stops (update_limit m f) ≡ stops f
unfolding update_limit
stops-update_limit none f = refl
stops-update_limit (some m) f =
    if_cases (λ g. stops g ≡ stops f) (positive m) _ _ (λ t. refl) (λ t. refl)

reclaim_stops :
    (req : Request) (f : FlowLimiter)
    → stops f ≡ true
    → reclaim_timed_out req f ≡ (undefined overflow, f)
unfolding reclaim_timed_out
reclaim_stops req f h =
    if_cases (λ (r : Outcome × FlowLimiter). r ≡ (undefined overflow, f)) (f.timeout_ms == 0) _ _
      (λ t. absurd (ground (arith, h, t)))
      (λ t. reclaim_loop-stops req f.in_flight f (ground (arith, h)) (ground (arith, h)))

reclaim_goes :
    (req : Request) (f : FlowLimiter)
    → stops f ≡ false
    → (g : FlowLimiter) × (reclaim_timed_out req f ≡ (fine, g)) × Untouched f g × (stops g ≡ false)
unfolding reclaim_timed_out reclaim_loop
reclaim_goes req f h =
    let P = λ (r : Outcome × FlowLimiter).
      (g : FlowLimiter) × (r ≡ (fine, g)) × Untouched f g × (stops g ≡ false) in
    if_cases P (f.timeout_ms == 0) _ _ (λ t. (f, refl, (refl, refl), h))
      (λ t. goes t f.in_flight refl)
  where
    goes :
        (f.timeout_ms == 0) ≡ false
        → (xs : List InFlight) → f.in_flight ≡ xs
        → (g : FlowLimiter) × (reclaim_loop req xs f ≡ (fine, g))
          × Untouched f g
          × (stops g ≡ false)
    goes t [] e = (f, refl, (refl, refl), h)
    goes t (x ∷ rest) e =
        let (g, q, u, v) =
          reclaim_loop-Untouched req (x ∷ rest) f
            (ground (arith, h, t, ap (λ xs. none_in_flight xs) e)) in
        (g, q, u, ground (arith, v))

-- A flush, which stops before it or serves what is held.
process-stops :
    (req : Request) (f : FlowLimiter)
    → stops f ≡ true
    → process req f ≡ (undefined overflow, update_limit req.parameter f)
unfolding process and_then
process-stops req f h =
    ap (λ (r : Outcome × FlowLimiter). and_then r (proceed req))
      (reclaim_stops req (update_limit req.parameter f) (stops-update_limit req.parameter f ∙ h))

process_goes :
    (req : Request) (f : FlowLimiter)
    → req.flush ≡ true
    → stops f ≡ false
    → (g : FlowLimiter) × (process req f ≡ flush_loop req f.held g)
      × Untouched f g
      × (stops g ≡ false)
unfolding process and_then proceed
process_goes req f q h =
    let u = update_limit req.parameter f in
    let a = update_limit-Untouched req.parameter f in
    let (g, e, b, v) = reclaim_goes req u (stops-update_limit req.parameter f ∙ h) in
    let same : Untouched f g = (b.0 ∙ a.0, b.1 ∙ a.1) in
    (
      g,
      ap (λ (r : Outcome × FlowLimiter). and_then r (proceed req)) e
          ∙ if_cases (λ (r : Outcome × FlowLimiter). r ≡ flush_loop req f.held g) req.flush _ _
              (λ t. ap (λ xs. flush_loop req xs g) same.0) (λ t. absurd (cc)),
      same,
      v,
    )

-- A held packet that the sink refuses leaves a null reference.
refused_front :
    (req : Request) (p : Packet) (rest : List PacketRef) (g : FlowLimiter)
    → is_taken (req.emit (g.emitted ++ p ∷ [])) ≡ false
    → (flush_loop req (some p ∷ rest) g).1 ≡ record g { held = none ∷ rest }
unfolding flush_loop admit_front admit pop_held and_then
refused_front req p rest g h =
    if_cases
      (λ (r : Outcome × FlowLimiter).
        (and_then (pop_held rest r) (flush_loop req rest)).1 ≡ record g { held = none ∷ rest })
      (is_taken (req.emit (g.emitted ++ p ∷ []))) _ _ (λ t. absurd (cc)) (λ t. refl)

undefined_front :
    (req : Request) (rest : List PacketRef) (g : FlowLimiter)
    → (flush_loop req (none ∷ rest) g).0 ≡ undefined null_read
unfolding flush_loop admit_front admit pop_held and_then
undefined_front req rest g = refl

abbrev pub fault_of : Bool → Fault
fault_of true = overflow
fault_of false = null_read

-- A flush that finds a null reference at the front.
flush_null :
    (req : Request) (rest : List PacketRef) (f : FlowLimiter)
    → f.held ≡ none ∷ rest
    → req.flush ≡ true
    → stops f ≡ false
    → (process req f).0 ≡ undefined null_read
flush_null req rest f q h t =
    let (g, e, u, v) = process_goes req f h t in
    ap (λ (r : Outcome × FlowLimiter). r.0) e
    ∙ ap (λ xs. (flush_loop req xs g).0) q
    ∙ undefined_front req rest g

-- After a flush in which the sink refuses the oldest held packet with an error, the next flush has
-- undefined behaviour: it reads a null reference, or overflows the time-out if that has 2 ^ 63
-- nanoseconds or more and a packet was in flight before.
pub flush_twice :
    (req again : Request) (p : Packet) (rest : List PacketRef) (f : FlowLimiter)
    → f.held ≡ some p ∷ rest
    → req.flush ≡ true
    → is_taken (req.emit (f.emitted ++ p ∷ [])) ≡ false
    → again.flush ≡ true
    → (process again (process req f).1).0 ≡ undefined (fault_of (stops f))
flush_twice req again p rest f q h refused h' = elim (Bool-cases (stops f)) [
  | inl t ↦
      let u = update_limit req.parameter f in
      ap (λ (r : Outcome × FlowLimiter). (process again r.1).0) (process-stops req f t)
      ∙ ap (λ (r : Outcome × FlowLimiter). r.0)
          (process-stops again u (stops-update_limit req.parameter f ∙ t))
      ∙ ap (λ b. undefined (fault_of b)) (sym t)
  | inr t ↦
      let (g, e, u, v) = process_goes req f h t in
      let left : (process req f).1 ≡ record g { held = none ∷ rest } =
        ap (λ (r : Outcome × FlowLimiter). r.1) e
        ∙ ap (λ xs. (flush_loop req xs g).1) q
        ∙ refused_front req p rest g
            (ap (λ xs. is_taken (req.emit (xs ++ p ∷ []))) u.1 ∙ refused) in
      ap (λ h. (process again h).0) left
      ∙ flush_null again rest (record g { held = none ∷ rest }) refl h' v
      ∙ ap (λ b. undefined (fault_of b)) (sym t)
]
