-- ===== src/Edge/Runs.antt =====
-- Sequences of calls on one channel, as the scheduler's threads make them: every locked part is one
-- call, and the locked part of Push also stands alone, for the case that other calls come between
-- Push's first look at the state and its lock.
use ge.Prelude.{
  ℕ, ◌≡◌, refl, sym, ap, ap₂, ◌∙◌, Bool, true, false, Option, List, [], ◌∷◌, arith, Option-cases,
  inl, inr, length,
}
use ge.Packet.{PacketRef}
use ge.Edge.{
  EdgeChannel, EdgeConfig, EdgeState, active, backpressured, draining, retired, DropPolicy, block,
  drop_oldest, drop_newest, PushOutcome, mark_draining, mark_retired, push_packet, find_victim,
  evict, drop_head, close_gap, count_drop, count_cancelled, block_push, push_evicting, push_full,
  push_locked, push, inject_eos, pop, count_pop, clear_backpressure, settle_mark, mark_from,
  mark_backpressured,
}
use ge.Edge.Queue
use ge.Edge.Queue.{Queue}
use ge.Edge.Inv.{
  IsValid, push_locked-IsValid, push-IsValid, inject_eos-IsValid, pop-IsValid,
  mark_draining-IsValid, mark_retired-IsValid, clear_backpressure-IsValid,
  mark_backpressured-IsValid,
}
use ge.Edge.View.{view, seen}
use ge.Edge.Push.{push_locked_refines, push_refines, inject_eos_refines}
use ge.Edge.Marks.{
  pop_refines, mark_draining_refines, mark_retired_refines, clear_backpressure_refines,
  mark_backpressured_refines,
}

pub data Call : Type 0 where
  pushes pushes_checked injects : PacketRef → Call
  pops drains clears marks : Call
  retires : Bool → Call

pub data Reply : Type 0 where
  outcome : PushOutcome → Reply
  taken : Option PacketRef → Reply
  answer : Bool → Reply
  done : Reply

unfoldable pub apply : Call → EdgeChannel → Reply × EdgeChannel
apply (pushes p) e = let (o, e') = push p e in (outcome o, e')
apply (pushes_checked p) e = let (o, e') = push_locked p e in (outcome o, e')
apply (injects p) e = let (o, e') = inject_eos p e in (outcome o, e')
apply pops e = let (p, e') = pop e in (taken p, e')
apply drains e = (done, mark_draining e)
apply (retires fast) e = (done, mark_retired fast e)
apply clears e = let (b, e') = clear_backpressure e in (answer b, e')
apply marks e = let (b, e') = mark_backpressured e in (answer b, e')

unfoldable pub run : List Call → EdgeChannel → List Reply × EdgeChannel
run [] e = ([], e)
run (c ∷ cs) e = let (r, e') = apply c e in let (rs, e'') = run cs e' in (r ∷ rs, e'')

-- The same calls on the queue of a capacity and a policy.
module _ (capacity : ℕ) (policy : DropPolicy) where
  unfoldable pub apply_queue : Call → Queue → Reply × Queue
  apply_queue (pushes p) q = let (o, q') = Queue.push capacity policy p q in (outcome o, q')
  apply_queue (pushes_checked p) q = let (o, q') = Queue.push capacity policy p q in (outcome o, q')
  apply_queue (injects p) q = let (o, q') = Queue.inject_eos capacity p q in (outcome o, q')
  apply_queue pops q = let (p, q') = Queue.pop q in (taken p, q')
  apply_queue drains q = (done, Queue.mark_draining q)
  apply_queue (retires fast) q = (done, Queue.mark_retired fast q)
  apply_queue clears q = let (b, q') = Queue.clear_backpressure capacity q in (answer b, q')
  apply_queue marks q = let (b, q') = Queue.mark_backpressured capacity q in (answer b, q')

  unfoldable pub run_queue : List Call → Queue → List Reply × Queue
  run_queue [] q = ([], q)
  run_queue (c ∷ cs) q =
      let (r, q') = apply_queue c q in let (rs, q'') = run_queue cs q' in (r ∷ rs, q'')

pub apply-IsValid : (c : Call) {e : EdgeChannel} → IsValid e → IsValid (apply c e).1
unfolding apply
apply-IsValid (pushes p) v = push-IsValid p v
apply-IsValid (pushes_checked p) v = push_locked-IsValid p v
apply-IsValid (injects p) v = inject_eos-IsValid p v
apply-IsValid pops v = pop-IsValid v
apply-IsValid drains v = mark_draining-IsValid v
apply-IsValid (retires fast) v = mark_retired-IsValid fast v
apply-IsValid clears v = clear_backpressure-IsValid v
apply-IsValid marks v = mark_backpressured-IsValid v

-- Every sequence of calls keeps the channel valid.
pub run-IsValid : (cs : List Call) {e : EdgeChannel} → IsValid e → IsValid (run cs e).1
unfolding run
run-IsValid [] v = v
run-IsValid (c ∷ cs) v = run-IsValid cs (apply-IsValid c v)

apply_refines :
    (c : Call) (e : EdgeChannel)
    → IsValid e
    → seen (apply c e) ≡ apply_queue (length e.ring) e.config.policy c (view e)
unfolding apply apply_queue
apply_refines (pushes p) e v =
    ap (λ (x : PushOutcome × Queue). (outcome x.0, x.1)) (push_refines p e v)
apply_refines (pushes_checked p) e v =
    ap (λ (x : PushOutcome × Queue). (outcome x.0, x.1)) (push_locked_refines p e v)
apply_refines (injects p) e v =
    ap (λ (x : PushOutcome × Queue). (outcome x.0, x.1)) (inject_eos_refines p e v)
apply_refines pops e v = ap (λ (x : Option PacketRef × Queue). (taken x.0, x.1)) (pop_refines e v)
apply_refines drains e v = ap (λ (q : Queue). (done, q)) (mark_draining_refines e)
apply_refines (retires fast) e v = ap (λ (q : Queue). (done, q)) (mark_retired_refines fast e)
apply_refines clears e v =
    ap (λ (x : Bool × Queue). (answer x.0, x.1)) (clear_backpressure_refines e v)
apply_refines marks e v =
    ap (λ (x : Bool × Queue). (answer x.0, x.1)) (mark_backpressured_refines e v)

config-evict : (k : ℕ) (e : EdgeChannel) → (evict k e).config ≡ e.config
unfolding evict drop_head close_gap
config-evict k e = ground arith

config-push_full :
    (d : DropPolicy) (p : PacketRef) (e : EdgeChannel) → (push_full d p e).1.config ≡ e.config
unfolding push_full push_evicting push_packet count_drop block_push
config-push_full block p e = refl
config-push_full drop_newest p e = refl
config-push_full drop_oldest p e = elim (Option-cases (find_victim e.ring e.head e.size)) [
  | inl q ↦ rw (q, push_full, push_evicting) refl
  | inr (k, q) ↦ rw (q, push_full, push_evicting) (config-evict k e)
]

config-push_locked : (p : PacketRef) (e : EdgeChannel) → (push_locked p e).1.config ≡ e.config
unfolding push_locked push_packet count_cancelled block_push
config-push_locked p e = ground (arith, config-push_full e.config.policy p e)

config-settle : (e : EdgeChannel) → (settle_mark e).1.config ≡ e.config
unfolding settle_mark clear_backpressure
config-settle e = ground arith

config-mark_from : (s : EdgeState) (e : EdgeChannel) → (mark_from s e).1.config ≡ e.config
unfolding mark_from block_push
config-mark_from active e = config-settle (block_push e)
config-mark_from backpressured e = config-settle e
config-mark_from draining e = refl
config-mark_from retired e = refl

-- No call changes the capacity or the policy.
pub config-apply : (c : Call) (e : EdgeChannel) → (apply c e).1.config ≡ e.config
unfolding apply push inject_eos pop push_packet count_cancelled mark_draining mark_retired
    clear_backpressure mark_backpressured count_pop drop_head
config-apply (pushes p) e = ground (arith, config-push_locked p e)
config-apply (pushes_checked p) e = config-push_locked p e
config-apply (injects p) e = ground arith
config-apply pops e = ground arith
config-apply drains e = refl
config-apply (retires true) e = refl
config-apply (retires false) e = refl
config-apply clears e = ground arith
config-apply marks e = config-mark_from e.state e

length-apply : (c : Call) (e : EdgeChannel) → IsValid e → length (apply c e).1.ring ≡ length e.ring
length-apply c e v =
    sym (apply-IsValid c v).told ∙ ap (λ (k : EdgeConfig). k.capacity) (config-apply c e) ∙ v.told

-- The replies and the end of a run whose first call had the result `x`.
abbrev continue : (Queue → List Reply × Queue) → Reply × Queue → List Reply × Queue
continue rest (r, q) = let (rs, q') = rest q in (r ∷ rs, q')

-- A sequence of calls on a valid channel has the replies that the bounded queue of its packets gives
-- with the same capacity and policy, and leaves the contents and the state that the queue has then.
pub run_refines :
    (cs : List Call) (e : EdgeChannel)
    → IsValid e
    → seen (run cs e) ≡ run_queue (length e.ring) e.config.policy cs (view e)
unfolding run run_queue
run_refines [] e v = refl
run_refines (c ∷ cs) e v =
    let (r, e') = apply c e in
    ap (λ (x : List Reply × Queue). (r ∷ x.0, x.1))
      (run_refines cs e' (apply-IsValid c v)
        ∙ ap₂ (λ n (k : EdgeConfig). run_queue n k.policy cs (view e')) (length-apply c e v)
            (config-apply c e))
    ∙ ap (λ (x : Reply × Queue). continue (run_queue (length e.ring) e.config.policy cs) x)
        (apply_refines c e v)
