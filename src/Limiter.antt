-- ===== src/Limiter.antt =====
-- src/infer/flow_limiter.cpp: the operator that lets a bounded number of packets past until their
-- completion is reported. A call returns its outcome and the new state; the packets that the sink took
-- and the published events are kept in two lists of the state, which are no members of the class.
pub mod Served
pub mod Steps
pub mod Inputs
pub mod Slots
pub mod Failure
mod Tests
mod State
pub mod Runs
pub use State.*
use ge.Prelude.{
  ℕ, ◌-◌, ◌*◌, ◌/◌, ◌^◌, Bool, true, false, not, ◌&&◌, ◌||◌, Option, none, some, List, [], ◌∷◌,
  ◌++◌, ltb, ◌==◌, if◌then◌else◌, length, incr64,
}
use ge.Prelude.Int.{ℤ, pos, pos_part, leb_ℤ, is_zero}
use ge.Packet.{Packet, PacketRef, is_event}

unfoldable pub and_then :
    Outcome × FlowLimiter → (FlowLimiter → Outcome × FlowLimiter) → Outcome × FlowLimiter
and_then (fine, f) next = next f
and_then (failed code, f) next = (failed code, f)
and_then (undefined fault, f) next = (undefined fault, f)

abbrev pub or_else {ℓ} : {A : Type ℓ} → A → Option A → A
or_else d none = d
or_else d (some x) = x

unfoldable pub limit_of : LimitName → Option OnLimit
limit_of named_drop = some drop
limit_of named_hold = some hold
limit_of other = none

abbrev pub positive : ℤ → Bool
positive n = leb_ℤ (pos 1) n

-- Open, which fails with InvalidArgument on `none`.
unfoldable pub open_limiter : Options → Option FlowLimiter
open_limiter o =
    let most = or_else (pos 1) o.max_in_flight in
    let most_held = or_else most o.max_held in
    let timeout = or_else (pos 0) o.timeout_ms in
    if positive most && positive most_held && leb_ℤ (pos 0) timeout
    then elim (limit_of (or_else named_drop o.on_limit)) [
      | none ↦ none
      | some limit ↦ some (record {
        max_in_flight = pos_part most;
        max_held = pos_part most_held;
        on_limit = limit;
        timeout_ms = pos_part timeout;
        in_flight = [];
        held = [];
        dropped = 0;
        timeouts = 0;
        emitted = [];
        published = [];
      })
    ]
    else none

abbrev pub is_taken : ℕ → Bool
is_taken code = code == status_ok || code == status_would_block

abbrev pub entry_of : Request → Packet → List Packet → InFlight
entry_of req p history = record { pts_ns = h.pts_ns; seq = h.seq; since = req.admitted_at history }
  where
    open p use {header as h}

-- The entry is put into the queue before the call of the sink, and taken out again if that fails.
unfoldable pub admit : Request → PacketRef → FlowLimiter → Outcome × FlowLimiter
admit req none f = (undefined null_read, f)
admit req (some p) f =
    let history = f.emitted ++ p ∷ [] in
    let code = req.emit history in
    if is_taken code
    then (
      fine,
      record f { in_flight = f.in_flight ++ entry_of req p history ∷ []; emitted = history },
    )
    else (failed code, f)

unfoldable pub publish : Request → Event → FlowLimiter → FlowLimiter
publish req e f = record f {
  published = if req.has_events then f.published ++ e ∷ [] else f.published;
}

unfoldable pub drop_packet : Request → Packet → FlowLimiter → FlowLimiter
unfolding publish
drop_packet req p f =
    publish req (dropped_packet h.seq h.pts_ns (length f.in_flight))
      (record f { dropped = incr64 f.dropped })
  where
    open p use {header as h}

unfoldable pub pop_held : List PacketRef → Outcome × FlowLimiter → Outcome × FlowLimiter
pop_held rest (fine, f) = (fine, record f { held = rest })
pop_held rest (failed code, f) = (failed code, f)
pop_held rest (undefined fault, f) = (undefined fault, f)

-- Admits the front of the held packets. The move leaves a null reference there, which is popped only
-- if the admission succeeds.
unfoldable pub admit_front :
    Request → PacketRef → List PacketRef → FlowLimiter → Outcome × FlowLimiter
admit_front req p rest f = pop_held rest (admit req p (record f { held = none ∷ rest }))

-- The loop of ReleaseHeld, over the held packets.
unfoldable pub release_loop : Request → List PacketRef → FlowLimiter → Outcome × FlowLimiter
release_loop req [] f = (fine, f)
release_loop req (p ∷ rest) f =
    if ltb (length f.in_flight) f.max_in_flight
    then and_then (admit_front req p rest f) (release_loop req rest)
    else (fine, f)

unfoldable pub release_held : Request → FlowLimiter → Outcome × FlowLimiter
release_held req f = release_loop req f.held f

-- The loop of a flush.
unfoldable pub flush_loop : Request → List PacketRef → FlowLimiter → Outcome × FlowLimiter
flush_loop req [] f = (fine, f)
flush_loop req (p ∷ rest) f = and_then (admit_front req p rest f) (flush_loop req rest)

unfoldable pub without_first : List InFlight → List InFlight
without_first [] = []
without_first (x ∷ rest) = rest

unfoldable pub free_until : ℤ → List InFlight → List InFlight
free_until pts [] = []
free_until pts (x ∷ rest) =
    let freed = free_until pts rest in if leb_ℤ x.pts_ns pts then freed else x ∷ rest

-- Release, for one completion.
unfoldable pub complete : Packet → FlowLimiter → FlowLimiter
complete p f = record f {
  in_flight =
      if is_zero h.pts_ns then without_first f.in_flight else free_until h.pts_ns f.in_flight;
}
  where
    open p use {header as h}

unfoldable pub is_finished : Port → Bool
is_finished finished = true
is_finished _ = false

unfoldable pub is_incoming : Port → Bool
is_incoming incoming = true
is_incoming _ = false

unfoldable pub complete_ref : PacketRef → FlowLimiter → Outcome × FlowLimiter
complete_ref none f = (undefined null_read, f)
complete_ref (some p) f = (fine, if is_event p then f else complete p f)

-- The packet of another port is not read here.
unfoldable pub complete_input : Input → FlowLimiter → Outcome × FlowLimiter
complete_input i f = if is_finished i.port then complete_ref i.packet f else (fine, f)

unfoldable pub complete_all : List Input → FlowLimiter → Outcome × FlowLimiter
complete_all [] f = (fine, f)
complete_all (i ∷ rest) f = and_then (complete_input i f) (complete_all rest)

-- The comparison of an age with the time-out takes both in nanoseconds, of which an int64_t holds less
-- than 2 ^ 63.
unfoldable pub overflows : ℕ → Bool
overflows timeout_ms = not (ltb (timeout_ms * 1000000) (2 ^ 63))

-- The loop of ReclaimTimedOut, over the entries in flight.
unfoldable pub reclaim_loop : Request → List InFlight → FlowLimiter → Outcome × FlowLimiter
reclaim_loop req [] f = (fine, f)
reclaim_loop req (x ∷ rest) f =
    if overflows f.timeout_ms
    then (undefined overflow, f)
    else if ltb (f.timeout_ms * 1000000) (req.now - x.since)
    then reclaim_loop req rest (
        publish req (timed_out x.pts_ns x.seq ((req.now - x.since) / 1000000))
          (record f { timeouts = incr64 f.timeouts; in_flight = rest }))
    else (fine, f)

unfoldable pub reclaim_timed_out : Request → FlowLimiter → Outcome × FlowLimiter
reclaim_timed_out req f = if f.timeout_ms == 0 then (fine, f) else reclaim_loop req f.in_flight f

-- A packet that comes when the held queue is full takes the place of the oldest.
unfoldable pub displace_held :
    Request → Packet → List PacketRef → FlowLimiter → Outcome × FlowLimiter
displace_held req p [] f = (undefined empty_front, f)
displace_held req p (none ∷ rest) f = (undefined null_read, f)
displace_held req p (some q ∷ rest) f =
    (fine, record (drop_packet req q f) { held = rest ++ some p ∷ [] })

-- What becomes of a packet when every slot is taken.
unfoldable pub refuse : OnLimit → Request → Packet → FlowLimiter → Outcome × FlowLimiter
refuse drop req p f = (fine, drop_packet req p f)
refuse hold req p f =
    if ltb (length f.held) f.max_held
    then (fine, record f { held = f.held ++ some p ∷ [] })
    else displace_held req p f.held f

-- A packet, which is read before its port, and whether it comes in at the port `in`.
unfoldable pub take_ref : Request → Bool → PacketRef → FlowLimiter → Outcome × FlowLimiter
take_ref req comes_in none f = (undefined null_read, f)
take_ref req comes_in (some p) f =
    if is_event p || not comes_in
    then (fine, f)
    else if ltb (length f.in_flight) f.max_in_flight
    then admit req (some p) f
    else refuse f.on_limit req p f

unfoldable pub take_input : Request → Input → FlowLimiter → Outcome × FlowLimiter
take_input req i f = take_ref req (is_incoming i.port) i.packet f

unfoldable pub take_inputs : Request → List Input → FlowLimiter → Outcome × FlowLimiter
take_inputs req [] f = (fine, f)
take_inputs req (i ∷ rest) f = and_then (take_input req i f) (take_inputs req rest)

-- The hot-updatable parameter.
unfoldable pub update_limit : Option ℤ → FlowLimiter → FlowLimiter
update_limit none f = f
update_limit (some n) f = if positive n then record f { max_in_flight = pos_part n } else f

-- Process after ReclaimTimedOut.
unfoldable pub proceed : Request → FlowLimiter → Outcome × FlowLimiter
proceed req f =
    if req.flush
    then flush_loop req f.held f
    else and_then (complete_all req.inputs f)
        (λ c. and_then (release_held req c) (take_inputs req req.inputs))

unfoldable pub process : Request → FlowLimiter → Outcome × FlowLimiter
process req f = and_then (reclaim_timed_out req (update_limit req.parameter f)) (proceed req)

unfoldable pub close : FlowLimiter → FlowLimiter
close f = record f { in_flight = []; held = [] }
