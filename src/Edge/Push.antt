-- ===== src/Edge/Push.antt =====
-- Push and InjectEos of edge_channel.cpp against the queue of Edge.Queue.
use ge.Prelude.{ℕ, ◌+◌, ◌%◌, ◌<◌, ◌≡◌, refl, ap, ◌∙◌, inl, inr, arith, length, erase_idx}
use ge.Packet.{PacketRef}
use ge.Edge.{
  EdgeChannel, DropPolicy, block, drop_oldest, drop_newest, accepted_dropped_oldest, dropped_newest,
  would_block, push_packet, evict, count_drop, push_evicting, push_full, push_locked, push,
  inject_eos,
}
use ge.Edge.Queue
use ge.Edge.Queue.{Queue, ends_with_eos, drop_first_data, append, refuse}
use ge.Edge.Inv.{
  IsRing, IsValid, evict-IsRing, count_drop-IsRing, size-evict, size-count_drop, ring-count_drop,
  length-evict,
}
use ge.Edge.Contents.{
  contents, length-contents, tail_has_eos-contents, find_victim-Finds, contents-evict,
}
use ge.Edge.View.{
  view, seen, view_path, state-evict, view-count_drop, view-count_cancelled, view-block_push,
  view-push_packet,
}

-- An eviction takes out the packet at the victim's position.
view-evict :
    (e : EdgeChannel) (k : ℕ)
    → IsRing e
    → k < e.size
    → view (count_drop (evict ((e.head + k) % length e.ring) e))
      ≡ record { state = e.state; items = erase_idx (contents e) k }
view-evict e k v h =
    view-count_drop (evict ((e.head + k) % length e.ring) e)
    ∙ view_path (state-evict ((e.head + k) % length e.ring) e) (contents-evict e v k h)

push_evicted :
    (p : PacketRef) (e : EdgeChannel) (k : ℕ)
    → IsRing e
    → k < e.size
    → view (push_packet p (count_drop (evict ((e.head + k) % length e.ring) e)))
      ≡ append p (record { state = e.state; items = erase_idx (contents e) k })
push_evicted p e k v h =
    let i = (e.head + k) % length e.ring in
    view-push_packet p (count_drop (evict i e)) (count_drop-IsRing (evict i e) (evict-IsRing i e v))
      (omega (
        arith,
        size-evict i e,
        size-count_drop (evict i e),
        ap length (ring-count_drop (evict i e)),
        length-evict i e,
        v.size_in,
      ))
    ∙ ap (append p) (view-evict e k v h)

push_evicting_refines :
    (p : PacketRef) (e : EdgeChannel)
    → IsRing e
    → 0 < e.size
    → seen (push_evicting p e) ≡ Queue.displace p (view e)
unfolding push_evicting Queue.displace
push_evicting_refines p e v h =
    elim (find_victim-Finds e.ring (length e.ring) e.head e.size refl v.small v.head_in) [
      | inl (a, b) ↦
          rw (a, b, push_evicting, Queue.displace)
            (ap (λ (q : Queue). (dropped_newest, q)) (view-count_drop e))
      | inr (k, lt, a, b) ↦
          rw (a, b, push_evicting, Queue.displace)
            (ap (λ (q : Queue). (accepted_dropped_oldest, q)) (push_evicted p e k v lt))
    ]

push_full_refines :
    (d : DropPolicy) (p : PacketRef) (e : EdgeChannel)
    → IsRing e
    → 0 < e.size
    → seen (push_full d p e) ≡ Queue.overflow d p (view e)
unfolding push_full Queue.overflow
push_full_refines block p e v h = ap (λ (q : Queue). (would_block, q)) (view-block_push e)
push_full_refines drop_oldest p e v h = push_evicting_refines p e v h
push_full_refines drop_newest p e v h = ap (λ (q : Queue). (dropped_newest, q)) (view-count_drop e)

-- The locked part of Push returns what the queue returns, and leaves the channel standing for the
-- queue that the queue's push leaves.
pub push_locked_refines :
    (p : PacketRef) (e : EdgeChannel)
    → IsValid e
    → seen (push_locked p e) ≡ Queue.push (length e.ring) e.config.policy p (view e)
unfolding push_locked Queue.push
push_locked_refines p e v = ground (
  arith,
  length-contents e,
  tail_has_eos-contents e v.ring,
  view-count_cancelled e,
  view-push_packet p e v.ring,
  view-block_push e,
  push_full_refines e.config.policy p e v.ring,
)

pub push_refines :
    (p : PacketRef) (e : EdgeChannel)
    → IsValid e
    → seen (push p e) ≡ Queue.push (length e.ring) e.config.policy p (view e)
unfolding push Queue.push
push_refines p e v = ground (arith, push_locked_refines p e v, view-count_cancelled e)

pub inject_eos_refines :
    (p : PacketRef) (e : EdgeChannel)
    → IsValid e
    → seen (inject_eos p e) ≡ Queue.inject_eos (length e.ring) p (view e)
unfolding inject_eos Queue.inject_eos
inject_eos_refines p e v =
    ground (arith, length-contents e, tail_has_eos-contents e v.ring, view-push_packet p e v.ring)
