-- ===== src/Events/Served.antt =====
-- What holds of every subscription of src/event_bus.cpp between two steps.
use ge.Prelude.{
  ℕ, suc, ◌+◌, ◌-◌, ◌%◌, ◌^◌, ◌≤◌, ◌≡◌, refl, sym, ap, ◌∙◌, subst, true, false, not, ◌||◌, List, [],
  ◌∷◌, ◌++◌, leb, ltb, length, length-append, incr64, arith, if◌then◌else◌, Bool-cases, inl, inr,
}
use mathlib.Core.List.{append-nil, append_assoc, Sublistᴰ}
use mathlib.Core.List.Sublistᴰ
use ge.Events.{
  Event, EventFilter, Subscription, matches, offer, new_subscription, cancel_subscription,
  take_ready, next_event, drain_step, end_call,
}

pub record IsServed (capacity : ℕ) (s : Subscription) : Type 0 where
  pub one_place : s.in_ready + s.draining + length s.in_hand ≡ (if s.scheduled then 1 else 0)
  pub bounded : length s.queue ≤ capacity
  pub awake : s.scheduled ≡ false → s.queue ≡ []
  pub quiet : s.cancelled ≡ true → s.queue ≡ []
  pub in_order : Sublistᴰ (s.called ++ s.queue) s.offered
  pub counted :
      s.cancelled ≡ false
      → (length s.called + length s.queue + s.dropped) % 2 ^ 64 ≡ length s.offered % 2 ^ 64

one_longer : (xs : List Event) (e : Event) → length (xs ++ e ∷ []) ≡ length xs + 1
one_longer xs e = omega (arith, length-append xs (e ∷ []))

both_longer :
    (xs ys zs : List Event) (e : Event)
    → Sublistᴰ (xs ++ ys) zs
    → Sublistᴰ (xs ++ (ys ++ e ∷ [])) (zs ++ e ∷ [])
both_longer xs ys zs e h =
    subst (λ us. Sublistᴰ us (zs ++ e ∷ [])) (append_assoc xs ys (e ∷ []))
      (Sublistᴰ.append h (Sublistᴰ.refl (e ∷ [])))

longer : (xs zs : List Event) (e : Event) → Sublistᴰ xs zs → Sublistᴰ xs (zs ++ e ∷ [])
longer xs zs e h =
    subst (λ us. Sublistᴰ us (zs ++ e ∷ [])) (append-nil xs)
      (Sublistᴰ.append h (Sublistᴰ.nil-sublist (e ∷ [])))

queue_shorter : (xs ys zs : List Event) → Sublistᴰ (xs ++ ys) zs → Sublistᴰ (xs ++ []) zs
queue_shorter xs ys zs h =
    Sublistᴰ.trans (Sublistᴰ.append (Sublistᴰ.refl xs) (Sublistᴰ.nil-sublist ys)) h

-- The two outcomes of an offer to a subscription that matches.
drop-IsServed :
    (capacity : ℕ) (e : Event) (s : Subscription)
    → IsServed capacity s
    → IsServed capacity (record s { dropped = incr64 s.dropped; offered = s.offered ++ e ∷ [] })
drop-IsServed capacity e s v = record {
  one_place = v.one_place;
  bounded = v.bounded;
  awake = v.awake;
  quiet = v.quiet;
  in_order = longer (s.called ++ s.queue) s.offered e v.in_order;
  counted = λ c. omega (arith, v.counted c, one_longer s.offered e);
}

queue-IsServed :
    (capacity : ℕ) (e : Event) (s : Subscription)
    → IsServed capacity s
    → s.cancelled ≡ false
    → leb capacity (length s.queue) ≡ false
    → IsServed capacity (record s {
      queue = s.queue ++ e ∷ [];
      scheduled = true;
      in_ready = if s.scheduled then s.in_ready else s.in_ready + 1;
      offered = s.offered ++ e ∷ [];
    })
queue-IsServed capacity e s v live room = record {
  one_place = ground (arith, v.one_place);
  bounded = ground (arith, room, one_longer s.queue e);
  awake = λ h. absurd (cc);
  quiet = λ h. absurd (ground (arith, h, live));
  in_order = both_longer s.called s.queue s.offered e v.in_order;
  counted = λ c. omega (arith, v.counted c, one_longer s.queue e, one_longer s.offered e);
}

pub offer-IsServed :
    (capacity : ℕ) (e : Event) (s : Subscription)
    → IsServed capacity s
    → IsServed capacity (offer capacity e s)
unfolding offer
offer-IsServed capacity e s v = elim (Bool-cases (s.cancelled || not (matches s.filter e))) [
  | inl skip ↦ rw skip v
  | inr match ↦ elim (Bool-cases (leb capacity (length s.queue))) [
    | inl full ↦ rw (match, full) (drop-IsServed capacity e s v)
    | inr room ↦ rw (match, room) (queue-IsServed capacity e s v (ground (arith, match)) room)
  ]
]

pub cancel-IsServed :
    (capacity : ℕ) (s : Subscription)
    → IsServed capacity s
    → IsServed capacity (cancel_subscription s)
unfolding cancel_subscription
cancel-IsServed capacity s v = record {
  one_place = v.one_place;
  bounded = omega arith;
  awake = λ h. refl;
  quiet = λ h. refl;
  in_order = queue_shorter s.called s.queue s.offered v.in_order;
  counted = λ h. absurd (cc);
}

pub take_ready-IsServed :
    (capacity : ℕ) (s : Subscription) → IsServed capacity s → IsServed capacity (take_ready s)
unfolding take_ready
take_ready-IsServed capacity s v = elim (Bool-cases (ltb 0 s.in_ready)) [
  | inr idle ↦ rw idle v
  | inl ready ↦ rw ready (record {
    one_place = ground (arith, ready, v.one_place);
    bounded = v.bounded;
    awake = v.awake;
    quiet = v.quiet;
    in_order = v.in_order;
    counted = v.counted;
  })
]

-- A worker leaves a subscription with an empty queue.
leave-IsServed :
    (capacity : ℕ) (s : Subscription)
    → IsServed capacity s
    → ltb 0 s.draining ≡ true
    → s.queue ≡ []
    → IsServed capacity (record s { draining = s.draining - 1; scheduled = false })
leave-IsServed capacity s v working empty = record {
  one_place = ground (arith, working, v.one_place);
  bounded = v.bounded;
  awake = λ h. empty;
  quiet = v.quiet;
  in_order = v.in_order;
  counted = v.counted;
}

pub next_event-IsServed :
    (capacity : ℕ) (s : Subscription) (queue : List Event)
    → s.queue ≡ queue
    → IsServed capacity s
    → ltb 0 s.draining ≡ true
    → IsServed capacity (next_event queue s)
unfolding next_event
next_event-IsServed capacity s [] q v working = leave-IsServed capacity s v working q
next_event-IsServed capacity s (e ∷ rest) q v working = elim (Bool-cases s.cancelled) [
  | inl c ↦ absurd (ground (arith, q, v.quiet c))
  | inr c ↦
      let size : length s.queue ≡ suc (length rest) = ap length q in
      rw c (record {
        one_place = ground (arith, working, v.one_place, one_longer s.in_hand e);
        bounded = omega (arith, size, v.bounded);
        awake = λ h. absurd (ground (arith, working, v.one_place, h));
        quiet = λ h. absurd (ground (arith, c, h));
        in_order =
            subst (λ us. Sublistᴰ us s.offered)
              (ap (◌++◌ s.called) q ∙ sym (append_assoc s.called (e ∷ []) rest)) v.in_order;
        counted = λ h. omega (arith, size, v.counted c, one_longer s.called e);
      })
]

pub drain_step-IsServed :
    (capacity : ℕ) (s : Subscription) → IsServed capacity s → IsServed capacity (drain_step s)
unfolding drain_step
drain_step-IsServed capacity s v = elim (Bool-cases (ltb 0 s.draining)) [
  | inr idle ↦ rw idle v
  | inl working ↦ rw working (next_event-IsServed capacity s s.queue refl v working)
]

pub end_call-IsServed :
    (capacity : ℕ) (s : Subscription) (in_hand : List Event)
    → s.in_hand ≡ in_hand
    → IsServed capacity s
    → IsServed capacity (end_call in_hand s)
unfolding end_call
end_call-IsServed capacity s [] h v = v
end_call-IsServed capacity s (e ∷ rest) h v =
    let size : length s.in_hand ≡ suc (length rest) = ap length h in
    record {
      one_place = omega (arith, size, v.one_place);
      bounded = v.bounded;
      awake = v.awake;
      quiet = v.quiet;
      in_order = v.in_order;
      counted = v.counted;
    }

pub new-IsServed : (capacity : ℕ) (f : EventFilter) → IsServed capacity (new_subscription f)
unfolding new_subscription
new-IsServed capacity f = record {
  one_place = refl;
  bounded = omega arith;
  awake = λ h. refl;
  quiet = λ h. refl;
  in_order = Sublistᴰ.slnil;
  counted = λ h. refl;
}

-- A subscription that Cancel has returned for: cancelled, no longer scheduled, with these calls.
pub record IsFinal (called : List Event) (s : Subscription) : Type 0 where
  pub cancelled : s.cancelled ≡ true
  pub idle : s.scheduled ≡ false
  pub same : s.called ≡ called
