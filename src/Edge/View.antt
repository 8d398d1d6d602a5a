-- ===== src/Edge/View.antt =====
-- The queue that a channel stands for, and what the small steps of edge_channel.cpp do to it.
use ge.Prelude.{ℕ, ◌<◌, ◌≡◌, refl, List, arith, length}
use ge.Packet.{PacketRef}
use ge.Edge.{
  EdgeChannel, EdgeState, active, backpressured, push_packet, evict, drop_head, close_gap,
  count_drop, count_cancelled, block_push, to_backpressured,
}
use ge.Edge.Queue.{Queue, append, refuse}
use ge.Edge.Inv.{IsRing}
use ge.Edge.Contents.{contents, contents-push_packet}

abbrev pub view : EdgeChannel → Queue
view e = record { state = e.state; items = contents e }

-- A result beside the queue that the channel now stands for.
abbrev pub seen {ℓ} : {A : Type ℓ} → A × EdgeChannel → A × Queue
seen (a, e) = (a, view e)

pub view_path :
    {s t : EdgeState} {xs ys : List PacketRef}
    → s ≡ t
    → xs ≡ ys
    → ◌≡◌ {A = Queue} (record { state = s; items = xs }) (record { state = t; items = ys })
view_path p q = λ i. record { state = p i; items = q i }

pub state-push_packet : (p : PacketRef) (e : EdgeChannel) → (push_packet p e).state ≡ e.state
unfolding push_packet
state-push_packet p e = refl

pub state-evict : (victim : ℕ) (e : EdgeChannel) → (evict victim e).state ≡ e.state
unfolding evict drop_head close_gap
state-evict victim e = ground arith

pub state-drop_head : (e : EdgeChannel) → (drop_head e).state ≡ e.state
unfolding drop_head
state-drop_head e = refl

pub ring-block_push : (e : EdgeChannel) → (block_push e).ring ≡ e.ring
unfolding block_push
ring-block_push e = refl

pub marked : (e : EdgeChannel) → e.state ≡ active → (block_push e).state ≡ backpressured
unfolding block_push to_backpressured
marked e h = rw h

pub view-count_drop : (e : EdgeChannel) → view (count_drop e) ≡ view e
unfolding count_drop
view-count_drop e = refl

pub view-count_cancelled : (e : EdgeChannel) → view (count_cancelled e) ≡ view e
unfolding count_cancelled
view-count_cancelled e = refl

pub view-block_push : (e : EdgeChannel) → view (block_push e) ≡ refuse (view e)
unfolding block_push refuse
view-block_push e = refl

pub view-push_packet :
    (p : PacketRef) (e : EdgeChannel)
    → IsRing e
    → e.size < length e.ring
    → view (push_packet p e) ≡ append p (view e)
unfolding append
view-push_packet p e v h = view_path (state-push_packet p e) (contents-push_packet p e v h)
