-- ===== src/Events/Progress.antt =====
-- The workers of src/event_bus.cpp come to an end with a subscription.
use ge.Prelude.{
  ℕ, suc, ◌+◌, ◌*◌, ◌≤◌, ◌≡◌, refl, ap, true, false, ◌||◌, some, List, [], ◌∷◌, ltb, length,
  length-append, get_elem?, if◌then◌else◌, arith, Bool-cases, inl, inr,
}
use ge.Events.{
  Event, Subscription, Move, take_ready, next_event, drain_step, end_call, run, new_bus,
}
use ge.Events.Served.{IsServed}
use ge.Events.Runs.{IsServed-run}

-- The moves that are left: two for each event, one to take the subscription, one to leave it.
unfoldable pub work : Subscription → ℕ
work s = 2 * length s.queue + 2 * s.in_ready + s.draining + 2 * length s.in_hand

work-take_ready :
    (s : Subscription) → work (take_ready s) + (if ltb 0 s.in_ready then 1 else 0) ≡ work s
unfolding work take_ready
work-take_ready s = elim (Bool-cases (ltb 0 s.in_ready)) [
  | inl h ↦ rw h (ground (arith, h))
  | inr h ↦ rw h (omega arith)
]

work-next_event :
    (capacity : ℕ) (s : Subscription) (queue : List Event)
    → s.queue ≡ queue
    → IsServed capacity s
    → ltb 0 s.draining ≡ true
    → work (next_event queue s) + 1 ≡ work s
unfolding work next_event
work-next_event capacity s [] q v h =
    let size : length s.queue ≡ 0 = ap length q in ground (arith, h, size)
work-next_event capacity s (e ∷ rest) q v h =
    let size : length s.queue ≡ suc (length rest) = ap length q in
    elim (Bool-cases s.cancelled) [
      | inl c ↦ absurd (ground (arith, size, ap length (v.quiet c)))
      | inr c ↦ rw c (ground (arith, h, size, length-append s.in_hand (e ∷ [])))
    ]

work-drain_step :
    (capacity : ℕ) (s : Subscription)
    → IsServed capacity s
    → work (drain_step s) + (if ltb 0 s.draining then 1 else 0) ≡ work s
unfolding drain_step
work-drain_step capacity s v = elim (Bool-cases (ltb 0 s.draining)) [
  | inl h ↦ rw h (work-next_event capacity s s.queue refl v h)
  | inr h ↦ rw h (omega arith)
]

work-end_call :
    (s : Subscription) (in_hand : List Event)
    → s.in_hand ≡ in_hand
    → work (end_call in_hand s) + (if ltb 0 (length in_hand) then 1 else 0) ≡ work s
unfolding work end_call
work-end_call s [] q = omega arith
work-end_call s (e ∷ rest) q =
    let size : length s.in_hand ≡ suc (length rest) = ap length q in ground (arith, size)

bounded_work : (capacity : ℕ) (s : Subscription) → IsServed capacity s → work s ≤ 2 * capacity + 2
unfolding work
bounded_work capacity s v = ground (arith, v.one_place, v.bounded)

-- In every run from a new bus and for every subscription, of the three moves of the workers on it: none
-- raises its work, which is at most twice the capacity and two more; one of them lowers it as long as the
-- subscription is scheduled, and none does otherwise; and a subscription that is not scheduled has an
-- empty queue.
pub workers_finish :
    (capacity : ℕ) (ms : List Move) (i : ℕ) (s : Subscription)
    → get_elem? (run ms (new_bus capacity)).subscriptions i ≡ some s
    → (work s ≤ 2 * capacity + 2)
      × (work (take_ready s) ≤ work s)
      × (work (drain_step s) ≤ work s)
      × (work (end_call s.in_hand s) ≤ work s)
      × ((ltb (work (take_ready s)) (work s)
            || ltb (work (drain_step s)) (work s)
            || ltb (work (end_call s.in_hand s)) (work s))
          ≡ s.scheduled)
      × (s.scheduled ≡ false → s.queue ≡ [])
workers_finish capacity ms i s e =
    let v = IsServed-run capacity ms i s e in
    let a = work-take_ready s in
    let b = work-drain_step capacity s v in
    let c = work-end_call s s.in_hand refl in
    (
      bounded_work capacity s v,
      omega (arith, a),
      omega (arith, b),
      omega (arith, c),
      ground (arith, a, b, c, v.one_place),
      v.awake,
    )
