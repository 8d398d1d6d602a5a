-- ===== src/Edge.antt =====
-- src/edge_channel.cpp and include/ge/cpp/edge_channel.h: the bounded channel of one edge, a ring of
-- packet references with a drop policy, a life-cycle state and counters. A member function that
-- changes the object returns the new object beside its result.
pub mod Window
pub mod Shift
pub mod Queue
pub mod Inv
pub mod Contents
pub mod View
pub mod Push
pub mod Marks
pub mod Runs
pub mod Order
pub mod Markers
pub mod Cycle
mod Tests
mod State
unfoldable pub use State.*
use ge.Prelude.{
  ℕ, zero, suc, ◌+◌, ◌-◌, ◌%◌, ◌^◌, max, Bool, true, false, ◌&&◌, Option, none, some, List, ltb,
  leb, ◌==◌, if◌then◌else◌, length, get_or, set, replicate, add32, incr64,
}
use ge.Packet.{PacketRef, ref_is_eos}

unfoldable pub mark_draining : EdgeChannel → EdgeChannel
mark_draining e = record e { state = to_draining e.state }

unfoldable pub mark_retired : Bool → EdgeChannel → EdgeChannel
mark_retired false e = record e { state = retired }
mark_retired true e = record e {
  state = retired;
  ring = replicate (length e.ring) none;
  head = 0;
  size = 0;
  metrics = record m { queue_depth = 0 };
}
  where
    open e use {metrics as m}

unfoldable pub bump_depth : ℕ → EdgeMetrics → EdgeMetrics
bump_depth depth m = record m {
  queue_depth = depth;
  max_depth = if ltb m.max_depth depth then depth else m.max_depth;
}

-- The slot of the newest packet, `(head_ + size_ - 1) % ring_.size()` in 32 bits. It is read only
-- where the ring is not empty.
abbrev pub last_index : EdgeChannel → ℕ
last_index e = (e.head + e.size + 2 ^ 32 - 1) % 2 ^ 32 % length e.ring

unfoldable pub tail_has_eos : EdgeChannel → Bool
tail_has_eos e = if e.size == 0 then false else ref_is_eos (get_or e.ring (last_index e) none)

abbrev pub next_free : EdgeChannel → ℕ
next_free e = add32 e.head e.size % length e.ring

unfoldable pub push_packet : PacketRef → EdgeChannel → EdgeChannel
unfolding bump_depth
push_packet p e = record e {
  ring = set e.ring (next_free e) p;
  size = add32 e.size 1;
  metrics = bump_depth (add32 e.size 1) (record m { pushed = incr64 m.pushed });
}
  where
    open e use {metrics as m}

-- The scan for a packet to evict: from slot `victim` with `n` rounds left, the first slot whose
-- packet is no EOS marker; `none` when all of them are markers.
unfoldable pub find_victim : List PacketRef → ℕ → ℕ → Option ℕ
find_victim ring victim zero = none
find_victim ring victim (suc n) =
    let rest = find_victim ring (add32 victim 1 % length ring) n in
    if ref_is_eos (get_or ring victim none) then rest else some victim

-- `ring_[i] = std::move(ring_[j])` for another slot `j`.
unfoldable pub move_slot : List PacketRef → ℕ → ℕ → List PacketRef
move_slot ring i j = set (set ring i (get_or ring j none)) j none

-- The loop that shifts the packets behind slot `i` down by one, until `i` is `last`.
unfoldable pub shift_down : ℕ → List PacketRef → ℕ → ℕ → List PacketRef
shift_down zero ring i last = ring
shift_down (suc fuel) ring i last =
    let j = add32 i 1 % length ring in
    let rest = shift_down fuel (move_slot ring i j) j last in if i == last then ring else rest

unfoldable pub drop_head : EdgeChannel → EdgeChannel
drop_head e = record e {
  ring = set e.ring e.head none;
  head = add32 e.head 1 % length e.ring;
  size = e.size - 1;
}

-- Shifts the packets behind slot `victim` over it.
unfoldable pub close_gap : ℕ → EdgeChannel → EdgeChannel
close_gap victim e = record e {
  ring = set (shift_down (length e.ring) e.ring victim (last_index e)) (last_index e) none;
  size = e.size - 1;
}

-- Takes the packet of slot `victim` out of a ring that is not empty.
unfoldable pub evict : ℕ → EdgeChannel → EdgeChannel
evict victim e = if victim == e.head then drop_head e else close_gap victim e

unfoldable pub count_drop : EdgeChannel → EdgeChannel
count_drop e = record e { metrics = record m { drop_count = incr64 m.drop_count } }
  where
    open e use {metrics as m}

unfoldable pub count_cancelled : EdgeChannel → EdgeChannel
count_cancelled e = record e { metrics = record m { cancelled_count = incr64 m.cancelled_count } }
  where
    open e use {metrics as m}

-- Counts the refusal and marks the edge backpressured.
unfoldable pub block_push : EdgeChannel → EdgeChannel
block_push e = record e {
  state = to_backpressured e.state;
  metrics = record m { would_block_count = incr64 m.would_block_count };
}
  where
    open e use {metrics as m}

-- The case kDropOldest of a push on a full ring.
unfoldable pub push_evicting : PacketRef → EdgeChannel → PushOutcome × EdgeChannel
push_evicting p e = elim (find_victim e.ring e.head e.size) [
  | none ↦ (dropped_newest, count_drop e)
  | some victim ↦ (accepted_dropped_oldest, push_packet p (count_drop (evict victim e)))
]

-- The switch over the policy for a push on a full ring.
unfoldable pub push_full : DropPolicy → PacketRef → EdgeChannel → PushOutcome × EdgeChannel
push_full drop_newest p e = (dropped_newest, count_drop e)
push_full drop_oldest p e = push_evicting p e
push_full block p e = (would_block, block_push e)

-- The part of Push under the lock, which checks the state again.
unfoldable pub push_locked : PacketRef → EdgeChannel → PushOutcome × EdgeChannel
push_locked p e =
    if is_closed e.state
    then (cancelled, count_cancelled e)
    else if ref_is_eos p && tail_has_eos e
    then (accepted, e)
    else if ltb e.size (length e.ring)
    then (accepted, push_packet p e)
    else if ref_is_eos p
    then (would_block, block_push e)
    else push_full e.config.policy p e

unfoldable pub push : PacketRef → EdgeChannel → PushOutcome × EdgeChannel
push p e = if is_closed e.state then (cancelled, count_cancelled e) else push_locked p e

unfoldable pub inject_eos : PacketRef → EdgeChannel → PushOutcome × EdgeChannel
inject_eos p e =
    if is_retired e.state
    then (cancelled, e)
    else if tail_has_eos e
    then (accepted, e)
    else if ltb e.size (length e.ring)
    then (accepted, push_packet p e)
    else (would_block, e)

unfoldable pub count_pop : EdgeChannel → EdgeChannel
count_pop e = record e { metrics = record m { popped = incr64 m.popped; queue_depth = e.size } }
  where
    open e use {metrics as m}

-- The outer option is the result of Pop, the inner one the packet reference.
unfoldable pub pop : EdgeChannel → Option PacketRef × EdgeChannel
pop e =
    if e.size == 0 then (none, e) else (some (get_or e.ring e.head none), count_pop (drop_head e))

unfoldable pub peek : EdgeChannel → PacketRef
peek e = if e.size == 0 then none else get_or e.ring e.head none

unfoldable pub is_full : EdgeChannel → Bool
is_full e = leb e.config.capacity e.metrics.queue_depth

unfoldable pub clear_backpressure : EdgeChannel → Bool × EdgeChannel
unfolding to_active
clear_backpressure e =
    if is_full e
    then (false, e)
    else (let (s, done) = to_active e.state in (done, record e { state = s }))

-- After the compare-exchange: a full edge stays marked, and any other is cleared again.
unfoldable pub settle_mark : EdgeChannel → Bool × EdgeChannel
settle_mark e = if is_full e then (true, e) else (false, (clear_backpressure e).1)

unfoldable pub mark_from : EdgeState → EdgeChannel → Bool × EdgeChannel
mark_from active e = settle_mark (block_push e)
mark_from backpressured e = settle_mark e
mark_from _ e = (false, e)

unfoldable pub mark_backpressured : EdgeChannel → Bool × EdgeChannel
mark_backpressured e = mark_from e.state e
