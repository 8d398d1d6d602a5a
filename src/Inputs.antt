-- ===== src/Inputs.antt =====
-- src/input_binding.cpp: how a node reads the edges of an input port, the retired edges of earlier
-- topologies first. The mutex of the binding makes a call one step, as far as the producers of the
-- edges let it: their pushes between two looks at an edge are left out.
pub mod Skim
mod Tests
use ge.Prelude.{
  ℕ, zero, suc, ◌==◌, Bool, true, false, not, ◌&&◌, ◌||◌, Option, none, some, List, [], ◌∷◌, ◌++◌,
  if◌then◌else◌, incr64,
}
use ge.Packet.{Packet, PacketRef, is_eos, is_event}
use ge.Edge.{EdgeChannel, is_retired, pop, peek, mark_retired}

-- A port with its edges. `ended` is that the port's name is in `eos_ports_`, and `released` are the
-- predecessors that were retired at their marker and left the port.
pub record InputPortBinding : Type 0 where
  pub edge : Option EdgeChannel
  pub required : Bool
  pub predecessors : List EdgeChannel
  pub ended : Bool
  pub released : List EdgeChannel

-- The port, the events skimmed off it and the binding's count of stale packets.
pub record Skimmed : Type 0 where
  pub port : InputPortBinding
  pub events : List Packet
  pub stale_dropped : ℕ

unfoldable pub edge_is_empty : EdgeChannel → Bool
edge_is_empty e = e.metrics.queue_depth == 0

-- Active's loop: the first predecessor that has packets or is not retired, between those before it and
-- those after it.
unfoldable pub first_active :
    List EdgeChannel → Option (List EdgeChannel × EdgeChannel × List EdgeChannel)
first_active [] = none
first_active (e ∷ rest) =
    if not (edge_is_empty e) || not (is_retired e.state)
    then some ([], e, rest)
    else elim (first_active rest) [
      | none ↦ none
      | some (before, a, after) ↦ some (e ∷ before, a, after)
    ]

-- A round of SkimHead ends with a head, or null, or goes on.
pub data Round : Type 0 where
  stops : PacketRef → Round
  goes_on : Skimmed → Round

-- A round on a predecessor, at the head of its queue.
unfoldable pub skim_predecessor :
    List EdgeChannel → EdgeChannel → List EdgeChannel → PacketRef → Skimmed → Round
skim_predecessor before e after none s =
    if is_retired e.state
    then goes_on (record s { port = record b { predecessors = before ++ after } })
    else stops none
  where
    open s use {port as b}
skim_predecessor before e after (some p) s =
    if is_eos p
    then goes_on (record s {
      port = record b {
        predecessors = before ++ after;
        released = b.released ++ mark_retired false (pop e).1 ∷ [];
      };
    })
    else if is_event p
    then goes_on (record s {
      port = record b { predecessors = before ++ (pop e).1 ∷ after };
      events = s.events ++ p ∷ [];
    })
    else stops (some p)
  where
    open s use {port as b}

-- A round on the port's own edge.
unfoldable pub skim_edge : EdgeChannel → PacketRef → Skimmed → Round
skim_edge e none s = stops none
skim_edge e (some p) s =
    if is_eos p
    then goes_on (record s { port = record b { edge = some (pop e).1; ended = true } })
    else if is_event p
    then goes_on
        (record s { port = record b { edge = some (pop e).1 }; events = s.events ++ p ∷ [] })
    else if b.ended
    then goes_on (record s {
      port = record b { edge = some (pop e).1 };
      stale_dropped = incr64 s.stale_dropped;
    })
    else stops (some p)
  where
    open s use {port as b}

unfoldable pub skim_own : Option EdgeChannel → Skimmed → Round
skim_own none s = stops none
skim_own (some e) s = skim_edge e (peek e) s

unfoldable pub skim_active :
    Option (List EdgeChannel × EdgeChannel × List EdgeChannel) → Skimmed → Round
skim_active none s = skim_own s.port.edge s
skim_active (some (before, e, after)) s = skim_predecessor before e after (peek e) s

unfoldable pub skim_round : Skimmed → Round
skim_round s = skim_active (first_active s.port.predecessors) s

abbrev pub after_round :
    Round → Skimmed → (Skimmed → Option (PacketRef × Skimmed)) → Option (PacketRef × Skimmed)
after_round (stops head) s next = some (head, s)
after_round (goes_on t) s next = next t

-- SkimHead, on fuel: the head that is left, and the port then; none when the fuel is used up.
unfoldable pub skim_head : ℕ → Skimmed → Option (PacketRef × Skimmed)
skim_head zero s = none
skim_head (suc fuel) s = after_round (skim_round s) s (skim_head fuel)

-- The packet of a Pop, null if there was none.
unfoldable pub popped_packet : EdgeChannel → PacketRef
popped_packet e = elim (pop e).0 [ none ↦ none | some p ↦ p ]

-- Take.
unfoldable pub take_own : Option EdgeChannel → InputPortBinding → PacketRef × InputPortBinding
take_own none b = (none, b)
take_own (some e) b = (popped_packet e, record b { edge = some (pop e).1 })

unfoldable pub take_active :
    Option (List EdgeChannel × EdgeChannel × List EdgeChannel)
    → InputPortBinding
    → PacketRef × InputPortBinding
take_active none b = take_own b.edge b
take_active (some (before, e, after)) b =
    (popped_packet e, record b { predecessors = before ++ (pop e).1 ∷ after })

unfoldable pub take_packet : InputPortBinding → PacketRef × InputPortBinding
take_packet b = take_active (first_active b.predecessors) b
