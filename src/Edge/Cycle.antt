-- ===== src/Edge/Cycle.antt =====
-- The life cycle of an edge over a run: active or backpressured, then draining, then retired. A closed
-- edge takes no more packets but the marker that InjectEos forces.
use ge.Prelude.{ℕ, ◌≤◌, ◌≡◌, refl, sym, ap, subst, true, List, [], ◌∷◌, arith, length}
use ge.Packet.{PacketRef}
use ge.Edge.{
  EdgeChannel, EdgeState, active, backpressured, draining, retired, DropPolicy, PushOutcome,
  cancelled, is_closed, to_backpressured, to_active, to_draining,
}
use ge.Edge.Queue
use ge.Edge.Queue.{Queue, append, refuse}
use ge.Edge.Inv.{IsValid}
use ge.Edge.View.{view}
use ge.Edge.Runs.{
  Call, pushes, pushes_checked, injects, pops, drains, clears, marks, retires, Reply, outcome, run,
  apply_queue, run_queue, run_refines,
}
use ge.Edge.Order.{push_cases, inject_cases}

-- How far an edge is.
unfoldable pub stage : EdgeState → ℕ
stage active = 0
stage backpressured = 0
stage draining = 1
stage retired = 2

-- The reply to a push is that it was cancelled.
abbrev pub Cancels : Call → Reply → Type 0
Cancels (pushes p) r = r ≡ outcome cancelled
Cancels (pushes_checked p) r = r ≡ outcome cancelled
Cancels _ r = Unit {0}

abbrev pub AllCancels : List Call → List Reply → Type 0
AllCancels [] rs = Unit {0}
AllCancels (c ∷ cs) [] = ⊥
AllCancels (c ∷ cs) (r ∷ rs) = Cancels c r × AllCancels cs rs

stage-backpressured : (s : EdgeState) → stage s ≤ stage (to_backpressured s)
unfolding stage to_backpressured
stage-backpressured s = ground arith

stage-push :
    (c : ℕ) (d : DropPolicy) (p : PacketRef) (q : Queue)
    → stage q.state ≤ stage (Queue.push c d p q).1.state
unfolding append refuse
stage-push c d p q =
    push_cases (λ r. stage q.state ≤ stage r.1.state) c d p q (omega arith) (omega arith)
      (omega arith) (stage-backpressured q.state) (omega arith) (λ rest e. omega arith)

stage-inject :
    (c : ℕ) (p : PacketRef) (q : Queue) → stage q.state ≤ stage (Queue.inject_eos c p q).1.state
unfolding append
stage-inject c p q =
    inject_cases (λ r. stage q.state ≤ stage r.1.state) c p q (omega arith) (omega arith)
      (omega arith) (omega arith)

stage-pop :
    (s : EdgeState) (xs : List PacketRef)
    → (Queue.pop (record { state = s; items = xs })).1.state ≡ s
unfolding Queue.pop
stage-pop s [] = refl
stage-pop s (x ∷ xs) = refl

stage-mark : (c : ℕ) (q : Queue) → stage q.state ≤ stage (Queue.mark_backpressured c q).1.state
unfolding Queue.mark_backpressured Queue.settle refuse stage to_backpressured is_closed
stage-mark c q = ground arith

step-stage :
    (c : ℕ) (d : DropPolicy) (a : Call) (q : Queue)
    → stage q.state ≤ stage (apply_queue c d a q).1.state
unfolding apply_queue Queue.mark_draining Queue.mark_retired Queue.clear_backpressure stage
    to_draining to_active
step-stage c d (pushes p) q = stage-push c d p q
step-stage c d (pushes_checked p) q = stage-push c d p q
step-stage c d (injects p) q = stage-inject c p q
step-stage c d pops q = rw (stage-pop q.state q.items) (omega arith)
step-stage c d drains q = ground arith
step-stage c d (retires fast) q = ground arith
step-stage c d clears q = ground arith
step-stage c d marks q = stage-mark c q

run-stage :
    (c : ℕ) (d : DropPolicy) (cs : List Call) (q : Queue)
    → stage q.state ≤ stage (run_queue c d cs q).1.state
unfolding run_queue
run-stage c d [] q = omega arith
run-stage c d (a ∷ cs) q =
    let q1 = (apply_queue c d a q).1 in omega (arith, step-stage c d a q, run-stage c d cs q1)

closed_of_stage : (s : EdgeState) → 1 ≤ stage s → is_closed s ≡ true
unfolding stage is_closed
closed_of_stage s h = ground arith

push-closed :
    (c : ℕ) (d : DropPolicy) (p : PacketRef) (q : Queue)
    → 1 ≤ stage q.state
    → Queue.push c d p q ≡ (cancelled, q)
unfolding Queue.push
push-closed c d p q h = rw (closed_of_stage q.state h)

step-Cancels :
    (c : ℕ) (d : DropPolicy) (a : Call) (q : Queue)
    → 1 ≤ stage q.state
    → Cancels a (apply_queue c d a q).0
unfolding apply_queue
step-Cancels c d (pushes p) q h =
    ap (λ (x : PushOutcome × Queue). outcome x.0) (push-closed c d p q h)
step-Cancels c d (pushes_checked p) q h =
    ap (λ (x : PushOutcome × Queue). outcome x.0) (push-closed c d p q h)
step-Cancels c d (injects p) q h = tt
step-Cancels c d pops q h = tt
step-Cancels c d drains q h = tt
step-Cancels c d clears q h = tt
step-Cancels c d marks q h = tt
step-Cancels c d (retires fast) q h = tt

run-AllCancels :
    (c : ℕ) (d : DropPolicy) (cs : List Call) (q : Queue)
    → 1 ≤ stage q.state
    → AllCancels cs (run_queue c d cs q).0
unfolding run_queue
run-AllCancels c d [] q h = tt
run-AllCancels c d (a ∷ cs) q h =
    let later : 1 ≤ stage (apply_queue c d a q).1.state = omega (arith, step-stage c d a q) in
    (step-Cancels c d a q h, run-AllCancels c d cs (apply_queue c d a q).1 later)

-- The life cycle only goes forward: no sequence of calls takes a valid channel back to an earlier
-- stage.
run_forward :
    (cs : List Call) (e : EdgeChannel) → IsValid e → stage e.state ≤ stage (run cs e).1.state
run_forward cs e v =
    subst (λ (x : List Reply × Queue). stage e.state ≤ stage x.1.state) (sym (run_refines cs e v))
      (run-stage (length e.ring) e.config.policy cs (view e))

-- In a run from a valid channel that is draining or retired, the reply to every push is that it was
-- cancelled, also to the locked part of a push alone.
pub run_closed :
    (cs : List Call) (e : EdgeChannel) → IsValid e → 1 ≤ stage e.state → AllCancels cs (run cs e).0
run_closed cs e v h =
    subst (λ (x : List Reply × Queue). AllCancels cs x.0) (sym (run_refines cs e v))
      (run-AllCancels (length e.ring) e.config.policy cs (view e) h)
