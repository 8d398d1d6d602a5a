-- ===== src/Edge/Marks.antt =====
-- Pop and the changes of the life-cycle state against the queue of Edge.Queue.
use ge.Prelude.{
  ℕ, zero, suc, ◌<◌, ◌≡◌, refl, sym, ap, ap₂, ◌∙◌, inl, inr, Bool, true, false, none, some, List,
  ◌∷◌, arith, Bool-cases, length, get_or, erase_idx, leb, ◌==◌,
}
use ge.Packet.{PacketRef}
use ge.Edge.{
  EdgeChannel, EdgeState, active, backpressured, draining, retired, mark_draining, mark_retired,
  drop_head, block_push, count_pop, pop, is_full, clear_backpressure, settle_mark, mark_from,
  mark_backpressured, is_closed, to_backpressured, to_active,
}
use ge.Edge.Window.{window}
use ge.Edge.Queue
use ge.Edge.Queue.{Queue, ends_with_eos, drop_first_data, append, refuse}
use ge.Edge.Inv.{IsRing, IsValid, block_push-IsValid}
use ge.Edge.Contents.{contents, contents-nil, length-contents, contents-drop_head}
use ge.Edge.View.{view, seen, view_path, state-drop_head, ring-block_push, marked, view-block_push}

window-cons :
    (ring : List PacketRef) (c h n : ℕ)
    → 0 < n
    → window ring c h n ≡ get_or ring h none ∷ erase_idx (window ring c h n) 0
window-cons ring c h zero lt = absurd (omega arith)
window-cons ring c h (suc n) lt = refl

pub view-popped :
    (e : EdgeChannel)
    → IsRing e
    → 0 < e.size
    → view (count_pop (drop_head e)) ≡ record { state = e.state; items = erase_idx (contents e) 0 }
unfolding count_pop
view-popped e v h = view_path (state-drop_head e) (contents-drop_head e v h)

pub pop_nonempty :
    (e : EdgeChannel)
    → IsRing e
    → 0 < e.size
    → (some (get_or e.ring e.head none), view (count_pop (drop_head e))) ≡ Queue.pop (view e)
unfolding Queue.pop
pop_nonempty e v h =
    rw (view-popped e v h) (rw (window-cons e.ring (length e.ring) e.head e.size h, Queue.pop) refl)

-- Pop returns the oldest packet of the queue and leaves the others, or finds the queue empty.
pub pop_refines : (e : EdgeChannel) → IsValid e → seen (pop e) ≡ Queue.pop (view e)
unfolding pop Queue.pop
pop_refines e v = elim (Bool-cases (e.size == 0)) [
  | inl z ↦
      rw (z, pop)
        (rw (contents-nil e (ground arith), Queue.pop)
          (ap (λ (q : Queue). (none, q)) (sym (view_path refl (contents-nil e (ground arith))))))
  | inr s ↦ rw (s, pop) (pop_nonempty e v.ring (ground arith))
]

pub mark_draining_refines :
    (e : EdgeChannel) → view (mark_draining e) ≡ Queue.mark_draining (view e)
unfolding mark_draining Queue.mark_draining
mark_draining_refines e = refl

pub mark_retired_refines :
    (fast : Bool) (e : EdgeChannel) → view (mark_retired fast e) ≡ Queue.mark_retired fast (view e)
unfolding mark_retired Queue.mark_retired
mark_retired_refines false e = refl
mark_retired_refines true e = refl

pub clear_backpressure_refines :
    (e : EdgeChannel)
    → IsValid e
    → seen (clear_backpressure e) ≡ Queue.clear_backpressure (length e.ring) (view e)
unfolding clear_backpressure is_full Queue.clear_backpressure
clear_backpressure_refines e v = ground (arith, length-contents e, v.depth, v.told)

pub is_full-contents :
    (e : EdgeChannel) → IsValid e → is_full e ≡ leb (length e.ring) (length (contents e))
unfolding is_full
is_full-contents e v = ap₂ leb v.told (v.depth ∙ sym (length-contents e))

pub refuse-marked : (e : EdgeChannel) → e.state ≡ backpressured → refuse (view e) ≡ view e
unfolding refuse to_backpressured
refuse-marked e b = view_path (ap to_backpressured b ∙ sym b) refl

pub view-cleared :
    (e : EdgeChannel)
    → is_full e ≡ false
    → e.state ≡ backpressured
    → view (clear_backpressure e).1 ≡ record { state = active; items = contents e }
unfolding clear_backpressure to_active
view-cleared e f b = rw (f, clear_backpressure) (view_path (ap (λ s. (to_active s).0) b) refl)

-- A marked channel: it stays marked if it is full, and is active again if it is not.
pub settle_mark_refines :
    (e : EdgeChannel)
    → IsValid e
    → e.state ≡ backpressured
    → seen (settle_mark e) ≡ Queue.settle (length e.ring) (view e)
unfolding settle_mark Queue.settle
settle_mark_refines e v b =
    let full = is_full-contents e v in
    elim (Bool-cases (is_full e)) [
      | inl f ↦
          rw (f, settle_mark)
            (rw (sym full ∙ f, Queue.settle)
              (ap (λ (q : Queue). (true, q)) (sym (refuse-marked e b))))
      | inr f ↦
          rw (f, settle_mark)
            (rw (sym full ∙ f, Queue.settle) (ap (λ (q : Queue). (false, q)) (view-cleared e f b)))
    ]

pub settle-refuse : (c : ℕ) (q : Queue) → Queue.settle c (refuse q) ≡ Queue.settle c q
unfolding Queue.settle refuse to_backpressured
settle-refuse c q = ground arith

pub mark_open :
    (c : ℕ) (q : Queue)
    → is_closed q.state ≡ false
    → Queue.mark_backpressured c q ≡ Queue.settle c q
unfolding Queue.mark_backpressured
mark_open c q h = rw h

pub mark_closed :
    (c : ℕ) (q : Queue) → is_closed q.state ≡ true → Queue.mark_backpressured c q ≡ (false, q)
unfolding Queue.mark_backpressured
mark_closed c q h = rw h

pub mark_from_refines :
    (s : EdgeState) (e : EdgeChannel)
    → IsValid e
    → e.state ≡ s
    → seen (mark_from s e) ≡ Queue.mark_backpressured (length e.ring) (view e)
unfolding mark_from is_closed
mark_from_refines active e v b =
    settle_mark_refines (block_push e) (block_push-IsValid v) (marked e b)
    ∙ ap (λ r. Queue.settle (length r) (view (block_push e))) (ring-block_push e)
    ∙ ap (Queue.settle (length e.ring)) (view-block_push e)
    ∙ settle-refuse (length e.ring) (view e)
    ∙ sym (mark_open (length e.ring) (view e) (ap is_closed b))
mark_from_refines backpressured e v b =
    settle_mark_refines e v b ∙ sym (mark_open (length e.ring) (view e) (ap is_closed b))
mark_from_refines draining e v b = sym (mark_closed (length e.ring) (view e) (ap is_closed b))
mark_from_refines retired e v b = sym (mark_closed (length e.ring) (view e) (ap is_closed b))

-- MarkBackpressured leaves a closed channel alone, marks a full one and returns true for it, and
-- leaves any other active.
pub mark_backpressured_refines :
    (e : EdgeChannel)
    → IsValid e
    → seen (mark_backpressured e) ≡ Queue.mark_backpressured (length e.ring) (view e)
unfolding mark_backpressured
mark_backpressured_refines e v = mark_from_refines e.state e v refl
