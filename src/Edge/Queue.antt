-- ===== src/Edge/Queue.antt =====
-- What an edge promises, with no ring: a bounded first-in first-out queue of packet references that
-- never loses an end-of-stream marker. The modules beside this one compare edge_channel.cpp with it.
use mathlib.Core.Option
use ge.Prelude.{
  ℕ, Bool, true, false, ◌&&◌, Option, none, some, List, [], ◌∷◌, ◌++◌, ltb, leb, if◌then◌else◌,
  length,
}
use ge.Packet.{PacketRef, ref_is_eos}
use ge.Edge.{
  EdgeState, active, retired, DropPolicy, block, drop_oldest, drop_newest, PushOutcome, accepted,
  accepted_dropped_oldest, dropped_newest, would_block, cancelled, is_closed, is_retired,
  to_backpressured, to_active, to_draining,
}

pub record Queue : Type 0 where
  pub state : EdgeState
  pub items : List PacketRef

-- The newest item is a marker.
unfoldable pub ends_with_eos : List PacketRef → Bool
ends_with_eos [] = false
ends_with_eos (x ∷ []) = ref_is_eos x
ends_with_eos (x ∷ y ∷ xs) = ends_with_eos (y ∷ xs)

-- The items without the oldest that is no marker.
unfoldable pub drop_first_data : List PacketRef → Option (List PacketRef)
drop_first_data [] = none
drop_first_data (x ∷ xs) =
    let rest = Option.map (◌∷◌ x) (drop_first_data xs) in if ref_is_eos x then rest else some xs

unfoldable pub append : PacketRef → Queue → Queue
append p q = record q { items = q.items ++ p ∷ [] }

unfoldable pub refuse : Queue → Queue
refuse q = record q { state = to_backpressured q.state }

unfoldable pub displace : PacketRef → Queue → PushOutcome × Queue
displace p q = elim (drop_first_data q.items) [
  | none ↦ (dropped_newest, q)
  | some rest ↦ (accepted_dropped_oldest, append p (record q { items = rest }))
]

unfoldable pub overflow : DropPolicy → PacketRef → Queue → PushOutcome × Queue
overflow drop_newest p q = (dropped_newest, q)
overflow drop_oldest p q = displace p q
overflow block p q = (would_block, refuse q)

module _ (capacity : ℕ) where
  unfoldable pub push : DropPolicy → PacketRef → Queue → PushOutcome × Queue
  push policy p q =
      if is_closed q.state
      then (cancelled, q)
      else if ref_is_eos p && ends_with_eos q.items
      then (accepted, q)
      else if ltb (length q.items) capacity
      then (accepted, append p q)
      else if ref_is_eos p
      then (would_block, refuse q)
      else overflow policy p q

  unfoldable pub inject_eos : PacketRef → Queue → PushOutcome × Queue
  inject_eos p q =
      if is_retired q.state
      then (cancelled, q)
      else if ends_with_eos q.items
      then (accepted, q)
      else if ltb (length q.items) capacity
      then (accepted, append p q)
      else (would_block, q)

  unfoldable pub clear_backpressure : Queue → Bool × Queue
  clear_backpressure q =
      if leb capacity (length q.items)
      then (false, q)
      else (let (s, done) = to_active q.state in (done, record q { state = s }))

  -- Only an open queue that is full is marked; one that is not full is active afterwards.
  unfoldable pub settle : Queue → Bool × Queue
  settle q =
      if leb capacity (length q.items)
      then (true, refuse q)
      else (false, record q { state = active })

  unfoldable pub mark_backpressured : Queue → Bool × Queue
  mark_backpressured q = if is_closed q.state then (false, q) else settle q

unfoldable pub pop : Queue → Option PacketRef × Queue
pop q = elim q.items [ [] ↦ (none, q) | x ∷ xs ↦ (some x, record q { items = xs }) ]

unfoldable pub mark_draining : Queue → Queue
mark_draining q = record q { state = to_draining q.state }

unfoldable pub mark_retired : Bool → Queue → Queue
mark_retired fast q = record q { state = retired; items = if fast then [] else q.items }
