-- ===== src/Graph/Tests.antt =====
-- Graphs, edits and builder calls at concrete values, and the theorems at inputs that meet their
-- hypotheses.
use ge.Prelude.{
  arith, ◌≡◌, ◌↔◌, refl, false, none, some, List, [], ◌∷◌, Text, codes, text_eq, contains,
  if◌then◌else◌, inl,
}
use ge.Edge.{block}
use ge.Graph.{
  NodeSpec, EdgeSpec, GraphSpec, PortRef, cpu, fine, graph_invalid, empty_graph, is_alpha,
  is_id_char, all_id_chars, is_valid_stable_id, is_empty, port_to_text, parse_port, find_in,
  find_edge_in, find_node, find_edge, derive_edge_id, is_gpu, check_node, add_node, with_id,
  same_ends, zero_bytes, check_edge, add_edge, remove_node, edges_from, edges_to,
}
use ge.Graph.Names.{parse_port-port_to_text}
use ge.Graph.Edits.{IsValid, Edit, adds_node, adds_edge, run_edits, run_edits-IsValid}
use ge.Graph.Removal.{unless_touching}
use ge.Graph.Found.{find-remove_node}
use ge.Graph.Builder.{
  Call, adds, connects, run_calls, empty_builder, build, edge_of_options, builder_add_node, connect,
  strict, build-run_calls,
}
use ge.Graph.{fast}
use ge.Graph.Patch.{
  empty_patch, add_node_action, remove_edge_action, set_remove_policy, set_base_version,
  patch_add_node, patch_remove_edge,
}
use ge.Graph.Mutation
use ge.Graph.Mutation.{
  apply_all, patch_with, last_base, last_policy, actions_of, apply_all_in_order,
}

abbrev node : Text → NodeSpec
node id = record {
  id = id;
  op = record { type_name = codes "std.copy"; semantic_version = codes "1.0.0" };
  executor = record { kind = cpu; device_id = none };
  parallelism = 1;
  options = 0;
  labels = 0;
}

abbrev edge : PortRef → PortRef → EdgeSpec
edge from to = record {
  id = [];
  from = from;
  to = to;
  queue = record { capacity = 64; policy = block; max_packet_bytes = none };
  sync = none;
  feedback = false;
}

abbrev port : Text → Text → PortRef
port node_id name = record { node_id = node_id; port = name }

abbrev link : EdgeSpec
link = edge (port (codes "a") (codes "out")) (port (codes "b") (codes "in"))

-- The third and the fifth edit are refused.
abbrev edits : List Edit
edits =
    adds_node (node (codes "a"))
    ∷ adds_node (node (codes "b"))
    ∷ adds_node (node (codes "a"))
    ∷ adds_edge link
    ∷ adds_edge link
    ∷ []

abbrev two_nodes : GraphSpec
two_nodes = record {
  nodes = node (codes "a") ∷ node (codes "b") ∷ [];
  edges = record link { id = codes "a.out->b.in" } ∷ [];
}

edits_run : run_edits edits empty_graph ≡ two_nodes
unfolding run_edits add_node add_edge check_node check_edge with_id is_empty derive_edge_id
    port_to_text is_valid_stable_id is_alpha all_id_chars is_id_char text_eq find_in find_edge_in
    same_ends zero_bytes is_gpu
edits_run = refl

run_edits-IsValid_example : IsValid (run_edits edits empty_graph)
run_edits-IsValid_example = run_edits-IsValid edits

two_nodes-IsValid : IsValid two_nodes
unfolding derive_edge_id port_to_text is_empty is_valid_stable_id is_alpha all_id_chars is_id_char
    text_eq find_in find_edge_in same_ends zero_bytes is_gpu
two_nodes-IsValid = (
  (refl, (refl, refl, omega arith, refl), (refl, (refl, refl, omega arith, refl), tt)),
  (refl, refl, (refl, refl, refl, refl, omega arith, refl), tt),
)

find-remove_node_example :
    ((remove_node (codes "a") two_nodes).0 ≡ fine)
    × ((j : Text)
        → find_node j (remove_node (codes "a") two_nodes).1
          ≡ (if text_eq (codes "a") j then none else find_node j two_nodes))
    × ((j : Text)
        → find_edge j (remove_node (codes "a") two_nodes).1
          ≡ unless_touching (codes "a") (find_edge j two_nodes))
    × (edges_from (codes "a") (remove_node (codes "a") two_nodes).1 ≡ [])
    × (edges_to (codes "a") (remove_node (codes "a") two_nodes).1 ≡ [])
unfolding find_in text_eq
find-remove_node_example = find-remove_node (codes "a") two_nodes two_nodes-IsValid refl

abbrev back : EdgeSpec
back = edge (port (codes "b") (codes "out")) (port (codes "a") (codes "in"))

parse_port-port_to_text_example :
    (parse_port (codes "src.out.left") ≡ some (port (codes "src") (codes "out.left")))
    ↔ (codes "src.out.left" ≡ port_to_text (port (codes "src") (codes "out.left")))
unfolding is_valid_stable_id is_alpha all_id_chars is_id_char contains is_empty
parse_port-port_to_text_example =
    parse_port-port_to_text (codes "src.out.left") (port (codes "src") (codes "out.left")) refl refl
      refl

abbrev calls : List Call
calls =
    adds (node (codes "a"))
    ∷ adds (node (codes "b"))
    ∷ connects (port (codes "a") (codes "out")) (port (codes "b") (codes "in")) (record {
      id = none;
      queue = record { capacity = 64; policy = block; max_packet_bytes = none };
      sync = none;
      feedback = false;
    })
    ∷ []

build-run_calls_example : build (run_calls calls empty_builder) ≡ strict calls empty_graph
build-run_calls_example = build-run_calls calls

-- A builder with a refused call reports it, although later calls succeed.
first_error : build (run_calls (adds (node []) ∷ calls) empty_builder) ≡ inl graph_invalid
unfolding build run_calls builder_add_node connect edge_of_options add_node add_edge check_node
    check_edge with_id is_empty derive_edge_id port_to_text is_valid_stable_id is_alpha all_id_chars
    is_id_char text_eq find_in find_edge_in same_ends zero_bytes is_gpu
first_error = refl

abbrev mutation_calls : List Mutation.Call
mutation_calls =
    Mutation.sets_remove_policy fast
    ∷ Mutation.adds_node (node (codes "c"))
    ∷ Mutation.sets_base_version 7
    ∷ Mutation.removes_edge (codes "a.out->b.in")
    ∷ []

patch_built :
    apply_all mutation_calls empty_patch
    ≡ patch_with
        (some 7)
        fast
        (add_node_action (node (codes "c")) ∷ remove_edge_action (codes "a.out->b.in") ∷ [])
unfolding apply_all empty_patch set_remove_policy set_base_version patch_add_node patch_remove_edge
patch_built = refl
