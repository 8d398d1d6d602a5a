-- ===== src/Inputs/Tests.antt =====
-- SkimHead at a concrete port.
use ge.Prelude.{ℕ, ◌≡◌, refl, true, false, Option, none, some, List, [], ◌∷◌, arith}
use ge.Prelude.Int.{pos}
use ge.Packet.{Packet, PacketRef, is_eos, is_event, flag_eos, flag_event}
use ge.Edge.{
  EdgeChannel, EdgeState, active, draining, block, no_metrics, drop_head, count_pop, pop, peek,
  is_retired, mark_retired,
}
use ge.Inputs.{
  Skimmed, edge_is_empty, first_active, skim_predecessor, skim_edge, skim_own, skim_active,
  skim_round, skim_head,
}
use ge.Inputs.Skim.{EndsWith, skim_head_total}

abbrev packet : ℕ → ℕ → Packet
packet seq flags = record {
  header = record {
    seq = seq;
    pts_ns = pos seq;
    dts_ns = pos seq;
    flags = flags;
    topology_version = 1;
    parameter_version = 1;
    type_tag = 0;
  };
  metadata = none;
  payload = none;
  ingress_ns = pos 0;
}

abbrev holding : EdgeState → Packet → Packet → EdgeChannel
holding state p q = record {
  config = record { capacity = 2; policy = block };
  state = state;
  metrics = record no_metrics { queue_depth = 2; max_depth = 2; pushed = 2 };
  ring = some p ∷ some q ∷ [];
  head = 0;
  size = 2;
}

-- A predecessor with an event and its marker, and an edge with an event and a data packet.
abbrev skimmed : Skimmed
skimmed = record {
  port = record {
    edge = some (holding active (packet 3 flag_event) (packet 4 0));
    required = true;
    predecessors = holding draining (packet 1 flag_event) (packet 2 flag_eos) ∷ [];
    ended = false;
    released = [];
  };
  events = [];
  stale_dropped = 0;
}

abbrev head_of : Option (PacketRef × Skimmed) → PacketRef × List Packet
head_of none = (none, [])
head_of (some (head, s)) = (head, s.events)

skims_two_events :
    head_of (skim_head 6 skimmed)
    ≡ (some (packet 4 0), packet 1 flag_event ∷ packet 3 flag_event ∷ [])
unfolding skim_head skim_round skim_active skim_own skim_edge skim_predecessor first_active
    edge_is_empty is_retired peek pop drop_head count_pop mark_retired is_eos is_event
skims_two_events = refl

skim_head_total_example : EndsWith 6 skimmed
skim_head_total_example = skim_head_total 6 skimmed (omega arith)
