-- ===== src/Events/Runs.antt =====
-- Whole runs of the bus of src/event_bus.cpp.
use ge.Prelude.{
  ℕ, zero, suc, ◌+◌, ◌%◌, ◌^◌, ◌≤◌, ◌≡◌, refl, ap, ◌∙◌, subst, false, Option, some, none, List, [],
  ◌∷◌, ◌++◌, length, get_elem?, arith,
}
use mathlib.Core.List.{Sublistᴰ}
use ge.Events.{
  Event, EventBus, Subscription, Move, publishes, subscribes, cancels, takes, drains, returns,
  offer, offer_all, stamp, publish, subscribe, new_subscription, cancel_subscription, take_ready,
  drain_step, end_call, at_place, move, run, new_bus,
}
use ge.Events.Served.{
  IsServed, offer-IsServed, cancel-IsServed, take_ready-IsServed, drain_step-IsServed,
  end_call-IsServed, new-IsServed,
}

-- Every subscription satisfies a predicate.
abbrev All : (Subscription → Type 0) → List Subscription → Type 0
All P [] = Unit {0}
All P (s ∷ rest) = P s × All P rest

-- The predicate of subscriptions that may hold at one place only.
module _ (P : Subscription → Type 0) where
  All-at_place :
      (i : ℕ) (f : Subscription → Subscription) (ss : List Subscription)
      → ((s : Subscription) → P s → P (f s))
      → All P ss
      → All P (at_place i f ss)
  unfolding at_place
  All-at_place i f [] keeps h = tt
  All-at_place zero f (s ∷ ss) keeps h = (keeps s h.0, h.1)
  All-at_place (suc i) f (s ∷ ss) keeps h = (h.0, All-at_place i f ss keeps h.1)

  All-offer_all :
      (capacity : ℕ) (e : Event) (ss : List Subscription)
      → ((s : Subscription) → P s → P (offer capacity e s))
      → All P ss
      → All P (offer_all capacity e ss)
  unfolding offer_all
  All-offer_all capacity e [] keeps h = tt
  All-offer_all capacity e (s ∷ ss) keeps h = (keeps s h.0, All-offer_all capacity e ss keeps h.1)

  All-append : (ss : List Subscription) (s : Subscription) → All P ss → P s → All P (ss ++ s ∷ [])
  All-append [] s h p = (p, tt)
  All-append (t ∷ ss) s h p = (h.0, All-append ss s h.1 p)

  All-get :
      (ss : List Subscription) (i : ℕ) (s : Subscription) → All P ss → get_elem? ss i ≡ some s → P s
  All-get [] i s h e = absurd (cc)
  All-get (t ∷ ss) zero s h e =
      subst P (ap (λ (o : Option Subscription). elim o [ none ↦ t | some u ↦ u ]) e) h.0
  All-get (t ∷ ss) (suc i) s h e = All-get ss i s h.1 e

AllServed : EventBus → Type 0
AllServed b = All (IsServed b.queue_capacity) b.subscriptions

move-AllServed : (m : Move) (b : EventBus) → AllServed b → AllServed (move m b)
unfolding AllServed move publish subscribe
move-AllServed (publishes e now) b v =
    All-offer_all (IsServed b.queue_capacity) b.queue_capacity (stamp now b e) b.subscriptions
      (offer-IsServed b.queue_capacity (stamp now b e)) v
move-AllServed (subscribes f) b v =
    All-append (IsServed b.queue_capacity) b.subscriptions (new_subscription f) v
      (new-IsServed b.queue_capacity f)
move-AllServed (cancels i) b v =
    All-at_place (IsServed b.queue_capacity) i cancel_subscription b.subscriptions
      (cancel-IsServed b.queue_capacity) v
move-AllServed (takes i) b v =
    All-at_place (IsServed b.queue_capacity) i take_ready b.subscriptions
      (take_ready-IsServed b.queue_capacity) v
move-AllServed (drains i) b v =
    All-at_place (IsServed b.queue_capacity) i drain_step b.subscriptions
      (drain_step-IsServed b.queue_capacity) v
move-AllServed (returns i) b v =
    All-at_place (IsServed b.queue_capacity) i (λ s. end_call s.in_hand s) b.subscriptions
      (λ s w. end_call-IsServed b.queue_capacity s s.in_hand refl w) v

run-AllServed : (ms : List Move) (b : EventBus) → AllServed b → AllServed (run ms b)
unfolding run
run-AllServed [] b v = v
run-AllServed (m ∷ ms) b v = run-AllServed ms (move m b) (move-AllServed m b v)

pub same_capacity : (m : Move) (b : EventBus) → (move m b).queue_capacity ≡ b.queue_capacity
unfolding move publish subscribe
same_capacity m b = ground arith

pub run_capacity : (ms : List Move) (b : EventBus) → (run ms b).queue_capacity ≡ b.queue_capacity
unfolding run
run_capacity [] b = refl
run_capacity (m ∷ ms) b = run_capacity ms (move m b) ∙ same_capacity m b

pub IsServed-run :
    (capacity : ℕ) (ms : List Move) (i : ℕ) (s : Subscription)
    → get_elem? (run ms (new_bus capacity)).subscriptions i ≡ some s
    → IsServed capacity s
unfolding AllServed new_bus
IsServed-run capacity ms i s e =
    subst (λ n. IsServed n s) (run_capacity ms (new_bus capacity))
      (All-get (IsServed (run ms (new_bus capacity)).queue_capacity)
        (run ms (new_bus capacity)).subscriptions i s (run-AllServed ms (new_bus capacity) tt) e)

-- In every run from a new bus and for every subscription: the events that its handler was given,
-- followed by those in its queue, are a subsequence of those that matched its filter until it was
-- cancelled, in the order in which they were published; at most one call of its handler is under way,
-- at most one worker or place of the ready queue has it, and its queue keeps to the capacity.
pub run_in_order_of_publishing :
    (capacity : ℕ) (ms : List Move) (i : ℕ) (s : Subscription)
    → get_elem? (run ms (new_bus capacity)).subscriptions i ≡ some s
    → Sublistᴰ (s.called ++ s.queue) s.offered
      × (s.in_ready + s.draining + length s.in_hand ≤ 1)
      × (length s.queue ≤ capacity)
run_in_order_of_publishing capacity ms i s e =
    let v = IsServed-run capacity ms i s e in (v.in_order, ground (arith, v.one_place), v.bounded)

-- In every run from a new bus: when a subscription that is not cancelled is not scheduled either, which
-- Flush waits for, its queue is empty, and the events that matched its filter are as many as its
-- handler was given and its drop counter says, up to the 64 bits of the counter.
pub flushed_counts :
    (capacity : ℕ) (ms : List Move) (i : ℕ) (s : Subscription)
    → get_elem? (run ms (new_bus capacity)).subscriptions i ≡ some s
    → s.cancelled ≡ false
    → s.scheduled ≡ false
    → (s.queue ≡ []) × ((length s.called + s.dropped) % 2 ^ 64 ≡ length s.offered % 2 ^ 64)
flushed_counts capacity ms i s e live idle =
    let v = IsServed-run capacity ms i s e in
    let empty : length s.queue ≡ 0 = ap length (v.awake idle) in
    (v.awake idle, omega (arith, empty, v.counted live))
