-- ===== src/Diff/Tests.antt =====
-- Differences of small graphs, and the theorems at one of them.
use ge.Prelude.{◌≡◌, refl, true, false, none, List, [], ◌∷◌, ◌++◌, Text, codes, arith, text_eq}
use ge.Edge.{block}
use ge.Graph.{
  NodeSpec, EdgeSpec, GraphSpec, cpu, find_in, find_edge_in, find_node, find_edge, is_empty,
  derive_edge_id, is_valid_stable_id, is_alpha, all_id_chars, is_id_char, same_ends, zero_bytes,
  is_gpu,
}
use ge.Graph.Edits.{IsValid}
use ge.Applier.{mem}
use ge.Diff.{
  compute_diff, diff_edges, compare_edges, compare_nodes, add_new_edges, add_new_nodes, replaced_in,
  edge_reasons, node_reasons, input_reasons, input_reason, removed_inputs, is_recreated,
  contracts_differ, lookup, assign, inputs_from, option_eq, int_eq, op_eq, executor_eq, queue_eq,
  bool_eq, nodes_of, edges_of, node_kept, node_updated, node_replaced, edge_recreated, edge_removed,
  select_keys, reused_nodes, reused_edges, is_empty_diff,
}
use ge.Diff.Reuse.{keeps_operator, keeps_channel, reused_lem}
use ge.Diff.Same.{compute_diff_self}

abbrev node : Text → Text → NodeSpec
node id version = record {
  id = id;
  op = record { type_name = codes "std.copy"; semantic_version = version };
  executor = record { kind = cpu; device_id = none };
  parallelism = 1;
  options = 0;
  labels = 0;
}

abbrev edge : Text → Text → Text → Text → EdgeSpec
edge id from out to = record {
  id = id;
  from = record { node_id = from; port = out };
  to = record { node_id = to; port = codes "in" };
  queue = record { capacity = 64; policy = block; max_packet_bytes = none };
  sync = none;
  feedback = false;
}

-- Two edges into one port of b.
abbrev pair : Text → List EdgeSpec → GraphSpec
pair version more = record {
  nodes = node (codes "a") version ∷ node (codes "b") (codes "1.0.0") ∷ [];
  edges = more ++ edge (codes "f") (codes "a") (codes "out2") (codes "b") ∷ [];
}

abbrev first : List EdgeSpec
first = edge (codes "e") (codes "a") (codes "out") (codes "b") ∷ []

abbrev base : GraphSpec
base = pair (codes "1.0.0") first

-- Another version of a: its edges get new channels, and b other inputs.
upgraded :
    ◌≡◌ {A = List Text × List Text × List Text}
      (
        nodes_of node_replaced (compute_diff base [] (pair (codes "2.0.0") first) []),
        nodes_of node_updated (compute_diff base [] (pair (codes "2.0.0") first) []),
        edges_of edge_recreated (compute_diff base [] (pair (codes "2.0.0") first) []),
      )
      (codes "a" ∷ [], codes "b" ∷ [], codes "e" ∷ codes "f" ∷ [])
unfolding nodes_of edges_of compute_diff diff_edges compare_edges compare_nodes add_new_edges
    add_new_nodes replaced_in edge_reasons node_reasons input_reasons input_reason removed_inputs
    is_recreated contracts_differ lookup assign inputs_from option_eq int_eq op_eq executor_eq
    queue_eq bool_eq select_keys find_in find_edge_in text_eq mem
upgraded = refl

-- The first of two edges into a port is removed, and the node of the port counts as kept.
shared_port :
    ◌≡◌ {A = List Text × List Text}
      (
        nodes_of node_kept (compute_diff base [] (pair (codes "1.0.0") []) []),
        edges_of edge_removed (compute_diff base [] (pair (codes "1.0.0") []) []),
      )
      (codes "a" ∷ codes "b" ∷ [], codes "e" ∷ [])
unfolding nodes_of edges_of compute_diff diff_edges compare_edges compare_nodes add_new_edges
    add_new_nodes replaced_in edge_reasons node_reasons input_reasons input_reason removed_inputs
    is_recreated contracts_differ lookup assign inputs_from option_eq int_eq op_eq executor_eq
    queue_eq bool_eq select_keys find_in find_edge_in text_eq mem
shared_port = refl

base-IsValid : IsValid base
unfolding find_in find_edge_in is_empty derive_edge_id is_valid_stable_id is_alpha all_id_chars
    is_id_char text_eq same_ends zero_bytes is_gpu
base-IsValid = (
  (refl, (refl, refl, omega arith, refl), (refl, (refl, refl, omega arith, refl), tt)),
  (
    refl,
    refl,
    (refl, refl, refl, refl, omega arith, refl),
    (refl, refl, (refl, refl, refl, refl, omega arith, refl), tt),
  ),
)

reused_lem_example :
    (mem (codes "a") (reused_nodes (compute_diff base [] (pair (codes "2.0.0") first) []))
      ≡ keeps_operator
          (find_node (codes "a") base)
          (find_node (codes "a") (pair (codes "2.0.0") first)))
    × (mem (codes "a") (reused_edges (compute_diff base [] (pair (codes "2.0.0") first) []))
        ≡ keeps_channel base []
            (pair (codes "2.0.0") first)
            []
            (find_edge (codes "a") base)
            (find_edge (codes "a") (pair (codes "2.0.0") first)))
reused_lem_example = reused_lem base [] (pair (codes "2.0.0") first) [] (codes "a") base-IsValid

compute_diff_self_example : is_empty_diff (compute_diff base [] base []) ≡ true
compute_diff_self_example = compute_diff_self base [] base-IsValid
