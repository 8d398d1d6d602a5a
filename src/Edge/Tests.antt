-- ===== src/Edge/Tests.antt =====
-- The channel at concrete rings: runs of the code, and the theorems at inputs that meet their
-- hypotheses.
use mathlib.Core.List.{Sublistᴰ}
use ge.Prelude.{ℕ, ◌+◌, ◌≤◌, ◌≡◌, refl, none, some, List, [], ◌∷◌, ◌++◌, arith}
use ge.Prelude.Int.{pos}
use ge.Packet.{PacketRef, is_eos, ref_is_eos}
use ge.Edge.{
  EdgeChannel, active, draining, drop_oldest, no_metrics, evict, push, push_locked, is_closed,
  tail_has_eos, push_full, push_evicting, find_victim, close_gap, drop_head, shift_down, move_slot,
  count_drop, push_packet,
}
use ge.Edge.Inv.{IsValid}
use ge.Edge.Contents.{contents}
use ge.Edge.View.{seen, view}
use ge.Edge.Runs.{
  Call, pushes, pushes_checked, pops, drains, apply, run, run_queue, run-IsValid, run_refines,
}
use ge.Edge.Order.{all_offered, all_delivered, run_in_order}
use ge.Edge.Markers.{markers, run_keeps_markers}
use ge.Edge.Cycle.{stage, AllCancels, run_closed}

abbrev packet : ℕ → ℕ → PacketRef
packet n flags = some (record {
  header = record {
    seq = n;
    pts_ns = pos n;
    dts_ns = pos n;
    flags = flags;
    topology_version = 1;
    parameter_version = 1;
    type_tag = 3;
  };
  metadata = none;
  payload = some n;
  ingress_ns = pos 0;
})

abbrev marker : PacketRef
marker = packet 9 2

-- Full, with the marker as the oldest packet: the markers are in slots 2 and 0, the data in slot 1.
abbrev wrapped : EdgeChannel
wrapped = record {
  config = record { capacity = 3; policy = drop_oldest };
  state = active;
  metrics = record no_metrics { queue_depth = 3; max_depth = 3 };
  ring = packet 1 0 ∷ packet 2 0 ∷ marker ∷ [];
  head = 2;
  size = 3;
}

wrapped-IsValid : IsValid wrapped
wrapped-IsValid = omega arith

abbrev calls : List Call
calls = pushes (packet 3 0) ∷ pops ∷ drains ∷ pushes_checked (packet 4 0) ∷ pops ∷ []

-- The marker survives the eviction, and the oldest data packet is lost.
eviction_keeps_marker :
    contents (run (pushes (packet 3 0) ∷ []) wrapped).1 ≡ marker ∷ packet 2 0 ∷ packet 3 0 ∷ []
unfolding run apply push push_locked is_closed is_eos ref_is_eos tail_has_eos push_full
    push_evicting find_victim evict close_gap drop_head shift_down move_slot count_drop push_packet
eviction_keeps_marker = refl

run-IsValid_example : IsValid (run calls wrapped).1
run-IsValid_example = run-IsValid calls wrapped-IsValid

run_refines_example : seen (run calls wrapped) ≡ run_queue 3 drop_oldest calls (view wrapped)
run_refines_example = run_refines calls wrapped wrapped-IsValid

run_in_order_example :
    Sublistᴰ
      (all_delivered (run calls wrapped).0 ++ contents (run calls wrapped).1)
      (contents wrapped ++ all_offered calls)
run_in_order_example = run_in_order calls wrapped wrapped-IsValid

run_keeps_markers_example :
    markers (contents wrapped)
    ≤ markers (all_delivered (run calls wrapped).0) + markers (contents (run calls wrapped).1)
run_keeps_markers_example =
    run_keeps_markers calls wrapped wrapped-IsValid (tt, (tt, (tt, (tt, (tt, tt)))))

abbrev drained : EdgeChannel
drained = record wrapped { state = draining }

run_closed_example : AllCancels calls (run calls drained).0
unfolding stage
run_closed_example = run_closed calls drained (omega arith) (omega arith)
