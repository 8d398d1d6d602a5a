-- ===== src/Events/Final.antt =====
-- A subscription of src/event_bus.cpp after Cancel has returned: no step changes it.
use ge.Prelude.{ℕ, ◌+◌, ◌≡◌, refl, ap, true, false, not, ◌||◌, List, [], ◌∷◌, ltb, length, arith}
use ge.Events.{
  Event, Subscription, matches, offer, cancel_subscription, take_ready, drain_step, end_call,
}
use ge.Events.Served.{IsServed, IsFinal}

pub nowhere :
    (capacity : ℕ) (called : List Event) (s : Subscription)
    → IsServed capacity s
    → IsFinal called s
    → (s.in_ready ≡ 0) × (s.draining ≡ 0) × (length s.in_hand ≡ 0)
nowhere capacity called s v f =
    let none : s.in_ready + s.draining + length s.in_hand ≡ 0 =
      ground (arith, v.one_place, f.idle) in
    (omega (arith, none), omega (arith, none), omega (arith, none))

pub offer-IsFinal :
    (capacity : ℕ) (e : Event) (called : List Event) (s : Subscription)
    → IsFinal called s
    → IsFinal called (offer capacity e s)
unfolding offer
offer-IsFinal capacity e called s f =
    let skip : (s.cancelled || not (matches s.filter e)) ≡ true = ground (arith, f.cancelled) in
    rw skip f

pub take_ready-IsFinal :
    (capacity : ℕ) (called : List Event) (s : Subscription)
    → IsServed capacity s
    → IsFinal called s
    → IsFinal called (take_ready s)
unfolding take_ready
take_ready-IsFinal capacity called s v f =
    let idle : ltb 0 s.in_ready ≡ false = ground (arith, nowhere capacity called s v f) in rw idle f

pub drain_step-IsFinal :
    (capacity : ℕ) (called : List Event) (s : Subscription)
    → IsServed capacity s
    → IsFinal called s
    → IsFinal called (drain_step s)
unfolding drain_step
drain_step-IsFinal capacity called s v f =
    let idle : ltb 0 s.draining ≡ false = ground (arith, nowhere capacity called s v f) in rw idle f

pub end_call-IsFinal :
    (capacity : ℕ) (called : List Event) (s : Subscription) (in_hand : List Event)
    → s.in_hand ≡ in_hand
    → IsServed capacity s
    → IsFinal called s
    → IsFinal called (end_call in_hand s)
unfolding end_call
end_call-IsFinal capacity called s [] h v f = f
end_call-IsFinal capacity called s (e ∷ rest) h v f =
    absurd (ground (arith, nowhere capacity called s v f, ap length h))

pub cancel-IsFinal :
    (called : List Event) (s : Subscription)
    → IsFinal called s
    → IsFinal called (cancel_subscription s)
unfolding cancel_subscription
cancel-IsFinal called s f = record { cancelled = refl; idle = f.idle; same = f.same }
