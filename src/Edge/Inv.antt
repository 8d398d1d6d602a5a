-- ===== src/Edge/Inv.antt =====
-- The representation invariant of the channel, and that every operation keeps it.
use ge.Prelude.{
  ℕ, ◌-◌, ◌%◌, ◌^◌, ◌≤◌, ◌<◌, ◌≡◌, refl, ap, inl, inr, Bool, true, false, none, arith, max,
  Option-cases, length, length-set, length-replicate, add32,
}
use ge.Packet.{PacketRef}
use ge.Edge.{
  EdgeConfig, EdgeChannel, EdgeState, active, backpressured, draining, retired, DropPolicy, block,
  drop_oldest, drop_newest, create, mark_draining, mark_retired, push_packet, find_victim,
  drop_head, close_gap, evict, count_drop, count_cancelled, block_push, push_evicting, push_full,
  push_locked, push, inject_eos, count_pop, pop, clear_backpressure, settle_mark, mark_from,
  mark_backpressured, last_index, shift_down,
}
use ge.Edge.Shift.{length-shift_down}

-- The ring has a slot and at most 2^31 of them, so that the sum of two positions fits 32 bits.
pub record IsRing (e : EdgeChannel) : Type 0 where
  pub slots : 0 < length e.ring
  pub small : length e.ring ≤ 2 ^ 31
  pub told : e.config.capacity ≡ length e.ring
  pub head_in : e.head < length e.ring
  pub size_in : e.size ≤ length e.ring
  pub peak_in : e.metrics.max_depth ≤ length e.ring

-- Between operations the recorded depth is the size, and the peak is above it.
pub record IsValid (e : EdgeChannel) : Type 0 where
  pub ring : IsRing e
  pub open ring use *
  pub depth : e.metrics.queue_depth ≡ e.size
  pub peak : e.size ≤ e.metrics.max_depth

-- A new channel is valid, if its configured capacity is at most 2^31.
pub create-IsValid : (c : EdgeConfig) → c.capacity ≤ 2 ^ 31 → IsValid (create c)
unfolding create
create-IsValid c h = ground (arith, length-replicate {A = PacketRef} (max c.capacity 1) none)

pub push_packet-IsValid :
    (p : PacketRef) (e : EdgeChannel)
    → IsRing e
    → e.size < length e.ring
    → IsValid (push_packet p e)
unfolding push_packet
push_packet-IsValid p e v h =
    ground (arith, length-set e.ring (add32 e.head e.size % length e.ring) p)

pub size-evict : (victim : ℕ) (e : EdgeChannel) → (evict victim e).size ≡ e.size - 1
unfolding evict drop_head close_gap
size-evict victim e = ground arith

pub length-evict : (victim : ℕ) (e : EdgeChannel) → length (evict victim e).ring ≡ length e.ring
unfolding evict drop_head close_gap
length-evict victim e = ground (
  arith,
  length-set e.ring e.head none,
  length-set (shift_down (length e.ring) e.ring victim (last_index e)) (last_index e) none,
  length-shift_down (length e.ring) e.ring victim (last_index e),
)

pub evict-IsRing : (victim : ℕ) (e : EdgeChannel) → IsRing e → IsRing (evict victim e)
unfolding evict drop_head close_gap
evict-IsRing victim e v = ground (
  arith,
  length-set e.ring e.head none,
  length-set (shift_down (length e.ring) e.ring victim (last_index e)) (last_index e) none,
  length-shift_down (length e.ring) e.ring victim (last_index e),
)

pub count_drop-IsRing : (e : EdgeChannel) → IsRing e → IsRing (count_drop e)
unfolding count_drop
count_drop-IsRing e v = ground arith

pub size-count_drop : (e : EdgeChannel) → (count_drop e).size ≡ e.size
unfolding count_drop
size-count_drop e = refl

count_drop-IsValid : {e : EdgeChannel} → IsValid e → IsValid (count_drop e)
unfolding count_drop
count_drop-IsValid v = ground arith

count_cancelled-IsValid : {e : EdgeChannel} → IsValid e → IsValid (count_cancelled e)
unfolding count_cancelled
count_cancelled-IsValid v = ground arith

pub block_push-IsValid : {e : EdgeChannel} → IsValid e → IsValid (block_push e)
unfolding block_push
block_push-IsValid v = ground arith

pub ring-count_drop : (e : EdgeChannel) → (count_drop e).ring ≡ e.ring
unfolding count_drop
ring-count_drop e = refl

push_evicting-IsValid :
    (p : PacketRef) {e : EdgeChannel} → IsValid e → 0 < e.size → IsValid (push_evicting p e).1
unfolding push_evicting
push_evicting-IsValid p {e} v h = elim (Option-cases (find_victim e.ring e.head e.size)) [
  | inl q ↦ rw (q, push_evicting) (count_drop-IsValid v)
  | inr (victim, q) ↦
      let w = evict-IsRing victim e v.ring in
      rw (q, push_evicting)
        (push_packet-IsValid p _ (count_drop-IsRing (evict victim e) w) (
          omega (
            arith,
            size-evict victim e,
            size-count_drop (evict victim e),
            ap length (ring-count_drop (evict victim e)),
            length-evict victim e,
          )))
]

push_full-IsValid :
    (d : DropPolicy) (p : PacketRef) {e : EdgeChannel}
    → IsValid e
    → 0 < e.size
    → IsValid (push_full d p e).1
unfolding push_full
push_full-IsValid block p v h = block_push-IsValid v
push_full-IsValid drop_oldest p v h = push_evicting-IsValid p v h
push_full-IsValid drop_newest p v h = count_drop-IsValid v

pub push_locked-IsValid :
    (p : PacketRef) {e : EdgeChannel} → IsValid e → IsValid (push_locked p e).1
unfolding push_locked
push_locked-IsValid p {e} v = ground (
  arith,
  count_cancelled-IsValid v,
  block_push-IsValid v,
  push_packet-IsValid p e v.ring,
  push_full-IsValid e.config.policy p v,
)

-- Push keeps the channel valid, whatever the state, the policy and the packet.
pub push-IsValid : (p : PacketRef) {e : EdgeChannel} → IsValid e → IsValid (push p e).1
unfolding push
push-IsValid p v = ground (arith, push_locked-IsValid p v, count_cancelled-IsValid v)

pub inject_eos-IsValid : (p : PacketRef) {e : EdgeChannel} → IsValid e → IsValid (inject_eos p e).1
unfolding inject_eos
inject_eos-IsValid p {e} v = ground (arith, push_packet-IsValid p e v.ring)

pub pop-IsValid : {e : EdgeChannel} → IsValid e → IsValid (pop e).1
unfolding pop count_pop drop_head
pop-IsValid {e} v = ground (arith, length-set e.ring e.head none)

pub mark_draining-IsValid : {e : EdgeChannel} → IsValid e → IsValid (mark_draining e)
unfolding mark_draining
mark_draining-IsValid v = ground arith

pub mark_retired-IsValid :
    (fast : Bool) {e : EdgeChannel} → IsValid e → IsValid (mark_retired fast e)
unfolding mark_retired
mark_retired-IsValid false v = ground arith
mark_retired-IsValid true {e} v =
    ground (arith, length-replicate {A = PacketRef} (length e.ring) none)

pub clear_backpressure-IsValid : {e : EdgeChannel} → IsValid e → IsValid (clear_backpressure e).1
unfolding clear_backpressure
clear_backpressure-IsValid v = ground arith

settle_mark-IsValid : {e : EdgeChannel} → IsValid e → IsValid (settle_mark e).1
unfolding settle_mark
settle_mark-IsValid v = ground (arith, clear_backpressure-IsValid v)

mark_from-IsValid : (s : EdgeState) {e : EdgeChannel} → IsValid e → IsValid (mark_from s e).1
unfolding mark_from
mark_from-IsValid active v = settle_mark-IsValid (block_push-IsValid v)
mark_from-IsValid backpressured v = settle_mark-IsValid v
mark_from-IsValid draining v = v
mark_from-IsValid retired v = v

pub mark_backpressured-IsValid : {e : EdgeChannel} → IsValid e → IsValid (mark_backpressured e).1
unfolding mark_backpressured
mark_backpressured-IsValid {e} v = mark_from-IsValid e.state v
