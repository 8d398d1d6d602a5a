-- ===== src/Events/Cancels.antt =====
-- What Cancel of src/event_bus.cpp guarantees once it has returned.
use ge.Prelude.{
  ℕ, zero, suc, ◌≡◌, refl, sym, ap, subst, true, false, Option, some, none, List, [], ◌∷◌, ◌++◌,
  length, get_elem?,
}
use ge.Events.{
  Event, EventBus, Subscription, Move, publishes, subscribes, cancels, takes, drains, returns,
  offer, offer_all, stamp, publish, subscribe, new_subscription, cancel_subscription, take_ready,
  drain_step, end_call, at_place, move, run, new_bus,
}
use ge.Events.Served.{
  IsServed, IsFinal, offer-IsServed, cancel-IsServed, take_ready-IsServed, drain_step-IsServed,
  end_call-IsServed,
}
use ge.Events.Final.{
  nowhere, offer-IsFinal, cancel-IsFinal, take_ready-IsFinal, drain_step-IsFinal, end_call-IsFinal,
}
use ge.Events.Runs.{IsServed-run, run_capacity, same_capacity}

-- There is a subscription at the place, and it satisfies the predicate.
abbrev At : (Subscription → Type 0) → ℕ → List Subscription → Type 0
At P i [] = false ≡ true
At P zero (s ∷ ss) = P s
At P (suc i) (s ∷ ss) = At P i ss

module _ (P : Subscription → Type 0) where
  At-at_place :
      (i j : ℕ) (f : Subscription → Subscription) (ss : List Subscription)
      → ((s : Subscription) → P s → P (f s))
      → At P i ss
      → At P i (at_place j f ss)
  unfolding at_place
  At-at_place i j f [] keeps h = absurd (cc)
  At-at_place zero zero f (s ∷ ss) keeps h = keeps s h
  At-at_place zero (suc j) f (s ∷ ss) keeps h = h
  At-at_place (suc i) zero f (s ∷ ss) keeps h = h
  At-at_place (suc i) (suc j) f (s ∷ ss) keeps h = At-at_place i j f ss keeps h

  At-offer_all :
      (i capacity : ℕ) (e : Event) (ss : List Subscription)
      → ((s : Subscription) → P s → P (offer capacity e s))
      → At P i ss
      → At P i (offer_all capacity e ss)
  unfolding offer_all
  At-offer_all i capacity e [] keeps h = absurd (cc)
  At-offer_all zero capacity e (s ∷ ss) keeps h = keeps s h
  At-offer_all (suc i) capacity e (s ∷ ss) keeps h = At-offer_all i capacity e ss keeps h

  At-append :
      (i : ℕ) (ss : List Subscription) (s : Subscription) → At P i ss → At P i (ss ++ s ∷ [])
  At-append i [] s h = absurd (cc)
  At-append zero (t ∷ ss) s h = h
  At-append (suc i) (t ∷ ss) s h = At-append i ss s h

  At-of-get :
      (i : ℕ) (ss : List Subscription) (s : Subscription)
      → get_elem? ss i ≡ some s
      → P s
      → At P i ss
  At-of-get i [] s e p = absurd (cc)
  At-of-get zero (t ∷ ss) s e p =
      subst P (sym (ap (λ (o : Option Subscription). elim o [ none ↦ t | some u ↦ u ]) e)) p
  At-of-get (suc i) (t ∷ ss) s e p = At-of-get i ss s e p

  At-get :
      (i : ℕ) (ss : List Subscription) (s : Subscription)
      → At P i ss
      → get_elem? ss i ≡ some s
      → P s
  At-get i [] s h e = absurd (cc)
  At-get zero (t ∷ ss) s h e =
      subst P (ap (λ (o : Option Subscription). elim o [ none ↦ t | some u ↦ u ]) e) h
  At-get (suc i) (t ∷ ss) s h e = At-get i ss s h e

-- A subscription that is in order and that Cancel has returned for.
abbrev Cancelled : ℕ → List Event → Subscription → Type 0
Cancelled capacity called s = IsServed capacity s × IsFinal called s

move-Cancelled :
    (m : Move) (b : EventBus) (called : List Event) (i : ℕ)
    → At (Cancelled b.queue_capacity called) i b.subscriptions
    → At (Cancelled b.queue_capacity called) i (move m b).subscriptions
unfolding move publish subscribe
move-Cancelled (publishes e now) b called i h =
    At-offer_all (Cancelled b.queue_capacity called) i b.queue_capacity (stamp now b e)
      b.subscriptions
      (λ s p. (
        offer-IsServed b.queue_capacity (stamp now b e) s p.0,
        offer-IsFinal b.queue_capacity (stamp now b e) called s p.1,
      ))
      h
move-Cancelled (subscribes f) b called i h =
    At-append (Cancelled b.queue_capacity called) i b.subscriptions (new_subscription f) h
move-Cancelled (cancels j) b called i h =
    At-at_place (Cancelled b.queue_capacity called) i j cancel_subscription b.subscriptions
      (λ s p. (cancel-IsServed b.queue_capacity s p.0, cancel-IsFinal called s p.1)) h
move-Cancelled (takes j) b called i h =
    At-at_place (Cancelled b.queue_capacity called) i j take_ready b.subscriptions
      (λ s p. (
        take_ready-IsServed b.queue_capacity s p.0,
        take_ready-IsFinal b.queue_capacity called s p.0 p.1,
      ))
      h
move-Cancelled (drains j) b called i h =
    At-at_place (Cancelled b.queue_capacity called) i j drain_step b.subscriptions
      (λ s p. (
        drain_step-IsServed b.queue_capacity s p.0,
        drain_step-IsFinal b.queue_capacity called s p.0 p.1,
      ))
      h
move-Cancelled (returns j) b called i h =
    At-at_place (Cancelled b.queue_capacity called) i j (λ s. end_call s.in_hand s) b.subscriptions
      (λ s p. (
        end_call-IsServed b.queue_capacity s s.in_hand refl p.0,
        end_call-IsFinal b.queue_capacity called s s.in_hand refl p.0 p.1,
      ))
      h

run-Cancelled :
    (ms : List Move) (b : EventBus) (called : List Event) (i : ℕ)
    → At (Cancelled b.queue_capacity called) i b.subscriptions
    → At (Cancelled b.queue_capacity called) i (run ms b).subscriptions
unfolding run
run-Cancelled [] b called i h = h
run-Cancelled (m ∷ ms) b called i h =
    let c : (move m b).queue_capacity ≡ b.queue_capacity = same_capacity m b in
    subst (λ n. At (Cancelled n called) i (run ms (move m b)).subscriptions) c
      (run-Cancelled ms (move m b) called i (
        subst (λ n. At (Cancelled n called) i (move m b).subscriptions) (sym c)
          (move-Cancelled m b called i h)))

-- If in a run from a new bus a subscription is cancelled and no longer scheduled, which Cancel waits
-- for, then however the run goes on its handler is given no further event, no call of it is under way
-- and its queue stays empty.
pub cancel_is_final :
    (capacity : ℕ) (ms ns : List Move) (i : ℕ) (s t : Subscription)
    → get_elem? (run ms (new_bus capacity)).subscriptions i ≡ some s
    → s.cancelled ≡ true
    → s.scheduled ≡ false
    → get_elem? (run ns (run ms (new_bus capacity))).subscriptions i ≡ some t
    → (t.called ≡ s.called) × (length t.in_hand ≡ 0) × (t.queue ≡ [])
unfolding new_bus
cancel_is_final capacity ms ns i s t at_first c idle at_last =
    let b : EventBus = run ms (new_bus capacity) in
    let n : b.queue_capacity ≡ capacity = run_capacity ms (new_bus capacity) in
    let v : IsServed b.queue_capacity s =
      subst (λ k. IsServed k s) (sym n) (IsServed-run capacity ms i s at_first) in
    let first =
      At-of-get (Cancelled b.queue_capacity s.called) i b.subscriptions s at_first
        (v, record { cancelled = c; idle = idle; same = refl }) in
    let last =
      At-get (Cancelled b.queue_capacity s.called) i (run ns b).subscriptions t
        (run-Cancelled ns b s.called i first) at_last in
    (
      last.1.same,
      (nowhere b.queue_capacity s.called t last.0 last.1).2,
      last.0.quiet last.1.cancelled,
    )
