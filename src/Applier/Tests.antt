-- ===== src/Applier/Tests.antt =====
-- Patches applied to a small graph, and the theorems at inputs that meet their hypotheses.
use ge.Prelude.{
  ◌≡◌, ◌↔◌, refl, Bool, true, false, none, some, List, [], ◌∷◌, Text, codes, text_eq, arith,
}
use ge.Edge.{block}
use ge.Graph.{
  NodeSpec, EdgeSpec, GraphSpec, cpu, drain, fast, disconnect, not_found, fine, Status,
  graph_invalid, is_alpha, is_id_char, all_id_chars, is_valid_stable_id, is_empty, port_to_text,
  find_in, find_edge_in, derive_edge_id, is_gpu, check_node, add_node, with_id, same_ends,
  zero_bytes, check_edge, add_edge, remove_node, remove_edge, erase_node, erase_edge,
  erase_touching, touches, edges_from, edges_to,
}
use ge.Graph.Edits.{IsValid}
use ge.Graph.Patch.{
  remove_node_action, insert_chain_action, replace_node_action, remove_edge_action,
  set_node_options_action, MutationPatch, RemoveBranchAction, entry_edges_of,
}
use ge.Applier.{
  CandidateSpec, CapabilityResolver, PortCapability, single, ok, Applied, applied, no_actions,
  failed, add_edge_tracked, add_edges, add_node_tracked, add_nodes, all_found, any_found,
  apply_from, apply_one, apply_patch, candidates, chain_edges, chain_stops, check_branch, cut_edge,
  dependency, drop_node, enter, erase_id, find_port, head_edge, includes, insert_at, insert_chain,
  insert_stops, link_edge, links_from, lookup_port, map_incoming, map_outgoing, map_port, mem,
  note_cut, note_drop, note_edge, note_node, only_one, place_node, port_for, push_ends, push_new,
  reach, remove_branch, remove_edge_tracked, remove_edges, remove_node_with_edges, remove_nodes,
  remove_single, replace_node, replacement, required_names, same_port, set_node_options, set_policy,
  shared_in, start, swap_node, tail_edge, take_back, touch, touch_node, unique_port, with_from_port,
  with_to_port,
}
use ge.Applier.{reach_fuel}
use ge.Applier.Steps.{IsTracked, node_there, edge_there}
use ge.Applier.Tracks.{Tracks-start}
use ge.Applier.Sound.{apply_patch-IsTracked}
use ge.Applier.Index.{FailsAt, apply_patch_fails}
use ge.Applier.Reach.{Reaches, search}
use ge.Applier.Selection.{IsBranch, check_branch-IsBranch}
use ge.Applier.Removed.{WithoutNodes, remove_branch_lem}

abbrev node : Text → NodeSpec
node id = record {
  id = id;
  op = record { type_name = codes "std.copy"; semantic_version = codes "1.0.0" };
  executor = record { kind = cpu; device_id = none };
  parallelism = 1;
  options = 0;
  labels = 0;
}

abbrev edge : Text → Text → Text → EdgeSpec
edge id from to = record {
  id = id;
  from = record { node_id = from; port = codes "out" };
  to = record { node_id = to; port = codes "in" };
  queue = record { capacity = 64; policy = block; max_packet_bytes = none };
  sync = none;
  feedback = false;
}

-- From s to a, and from a to b.
abbrev pipe : GraphSpec
pipe = record {
  nodes = node (codes "s") ∷ node (codes "a") ∷ node (codes "b") ∷ [];
  edges = edge (codes "e") (codes "s") (codes "a") ∷ edge (codes "f") (codes "a") (codes "b") ∷ [];
}

abbrev port : Text → PortCapability
port name = record { name = name; required = true; cardinality = single }

-- Every operator has one input and one output.
abbrev resolver : CapabilityResolver
resolver op = some (record {
  inputs = port (codes "in") ∷ [];
  outputs = port (codes "out") ∷ [];
  execution = record { devices = []; max_parallelism = 1 };
})

abbrev branch : RemoveBranchAction
branch = record {
  entry_edge = codes "e";
  nodes = codes "a" ∷ codes "b" ∷ [];
  remove_policy = none;
  entry_edges = [];
}

-- A chain on the first edge, another operator for a, and b removed.
abbrev patch : MutationPatch
patch = record {
  base_topology_version = none;
  remove_policy = drain;
  actions =
      insert_chain_action (record {
        edge = codes "e";
        nodes = node (codes "c") ∷ node (codes "d") ∷ [];
        ports = record { chain_input = none; chain_output = none };
      })
      ∷ replace_node_action (record {
        node = codes "a";
        replacement_op = record { type_name = codes "std.other"; semantic_version = codes "1.0.0" };
        replacement_options = 1;
        port_mapping = none;
        remove_policy = some fast;
      })
      ∷ remove_node_action (record { node = codes "b"; mode = disconnect; remove_policy = none })
      ∷ [];
}

abbrev result_of : Applied → CandidateSpec
result_of (applied c) = c
result_of no_actions = start pipe
result_of (failed k a s) = start pipe

abbrev result : CandidateSpec
result = result_of (apply_patch resolver pipe patch)

applied_lists :
    ◌≡◌ {A = List Text × List Text × List Text × List Text}
      (result.added_nodes, result.removed_nodes, result.added_edges, result.removed_edges)
      (
        codes "c" ∷ codes "d" ∷ codes "a" ∷ [],
        codes "a" ∷ codes "b" ∷ [],
        codes "s.out->c.in" ∷ codes "c.out->d.in" ∷ codes "d.out->a.in" ∷ [],
        codes "e" ∷ codes "f" ∷ [],
      )
unfolding touch erase_id take_back set_policy note_edge add_edge_tracked note_cut cut_edge
    remove_edge_tracked remove_edges add_edges push_new note_drop drop_node remove_node_with_edges
    remove_nodes note_node place_node touch_node add_node_tracked add_nodes any_found insert_stops
    insert_at insert_chain replacement swap_node replace_node remove_single apply_one apply_from
    start apply_patch mem required_names candidates only_one unique_port port_for chain_stops
    head_edge tail_edge link_edge links_from chain_edges find_port same_port map_port with_from_port
    with_to_port map_incoming map_outgoing add_node add_edge remove_node remove_edge check_node
    check_edge with_id is_empty derive_edge_id port_to_text is_valid_stable_id is_alpha all_id_chars
    is_id_char text_eq find_in find_edge_in same_ends zero_bytes is_gpu erase_node erase_edge
    erase_touching touches edges_from edges_to
applied_lists = refl

pipe-IsValid : IsValid pipe
unfolding find_in find_edge_in is_empty derive_edge_id is_valid_stable_id is_alpha all_id_chars
    is_id_char text_eq same_ends zero_bytes is_gpu
pipe-IsValid = (
  (
    refl,
    (refl, refl, omega arith, refl),
    (refl, (refl, refl, omega arith, refl), (refl, (refl, refl, omega arith, refl), tt)),
  ),
  (
    refl,
    refl,
    (refl, refl, refl, refl, omega arith, refl),
    (refl, refl, (refl, refl, refl, refl, omega arith, refl), tt),
  ),
)

abbrev is_applied : Applied → Bool
is_applied (applied c) = true
is_applied no_actions = false
is_applied (failed k a s) = false

applied_from : (r : Applied) → is_applied r ≡ true → r ≡ applied (result_of r)
applied_from (applied c) h = refl
applied_from no_actions h = absurd (cc)
applied_from (failed k a s) h = absurd (cc)

patch_applied : is_applied (apply_patch resolver pipe patch) ≡ true
unfolding touch erase_id take_back set_policy note_edge add_edge_tracked note_cut cut_edge
    remove_edge_tracked remove_edges add_edges push_new note_drop drop_node remove_node_with_edges
    remove_nodes note_node place_node touch_node add_node_tracked add_nodes any_found insert_stops
    insert_at insert_chain replacement swap_node replace_node remove_single apply_one apply_from
    start apply_patch mem required_names candidates only_one unique_port port_for chain_stops
    head_edge tail_edge link_edge links_from chain_edges find_port same_port map_port with_from_port
    with_to_port map_incoming map_outgoing add_node add_edge remove_node remove_edge check_node
    check_edge with_id is_empty derive_edge_id port_to_text is_valid_stable_id is_alpha all_id_chars
    is_id_char text_eq find_in find_edge_in same_ends zero_bytes is_gpu erase_node erase_edge
    erase_touching touches edges_from edges_to
patch_applied = refl

apply_patch-IsTracked_example : IsTracked pipe result
apply_patch-IsTracked_example =
    apply_patch-IsTracked resolver pipe patch result pipe-IsValid
      (applied_from (apply_patch resolver pipe patch) patch_applied)

-- The second action names a node that is not there.
abbrev refused_patch : MutationPatch
refused_patch = record {
  base_topology_version = none;
  remove_policy = drain;
  actions =
      remove_edge_action (codes "f")
      ∷ set_node_options_action (codes "x") 1
      ∷ remove_edge_action (codes "e")
      ∷ [];
}

apply_patch_fails_example :
    (apply_patch resolver pipe refused_patch
      ≡ failed 1 (set_node_options_action (codes "x") 1) not_found)
    ↔ FailsAt resolver drain refused_patch.actions
        (start pipe)
        1
        (set_node_options_action (codes "x") 1)
        not_found
apply_patch_fails_example =
    apply_patch_fails resolver pipe refused_patch 1 (set_node_options_action (codes "x") 1)
      not_found

second_action :
    apply_patch resolver pipe refused_patch
    ≡ failed 1 (set_node_options_action (codes "x") 1) not_found
unfolding touch erase_id take_back set_policy note_edge add_edge_tracked note_cut cut_edge
    remove_edge_tracked remove_edges add_edges push_new note_drop drop_node remove_node_with_edges
    remove_nodes note_node place_node touch_node add_node_tracked add_nodes any_found insert_stops
    insert_at insert_chain replacement swap_node replace_node remove_single apply_one apply_from
    start apply_patch mem required_names candidates only_one unique_port port_for chain_stops
    head_edge tail_edge link_edge links_from chain_edges find_port same_port map_port with_from_port
    with_to_port map_incoming map_outgoing add_node add_edge remove_node remove_edge check_node
    check_edge with_id is_empty derive_edge_id port_to_text is_valid_stable_id is_alpha all_id_chars
    is_id_char text_eq find_in find_edge_in same_ends zero_bytes is_gpu erase_node erase_edge
    erase_touching touches edges_from edges_to set_node_options
second_action = refl

search_example :
    (reached : List Text) × (reach
        (reach_fuel pipe.edges (codes "a" ∷ []))
        branch.nodes
        pipe.edges
        (codes "a" ∷ [])
        []
      ≡ some reached)
    × ((j : Text) → (mem j reached ≡ true) ↔ Reaches branch.nodes pipe.edges (codes "a" ∷ []) j)
search_example = search branch.nodes pipe.edges (codes "a" ∷ [])

check_branch-IsBranch_example :
    (check_branch pipe branch ≡ ok tt) ↔ IsBranch pipe branch.nodes (entry_edges_of branch)
check_branch-IsBranch_example = check_branch-IsBranch pipe branch

branch_accepted : check_branch pipe branch ≡ ok tt
unfolding check_branch enter shared_in dependency all_found push_ends reach includes mem text_eq
    find_in find_edge_in entry_edges_of
branch_accepted = refl

start-IsTracked : IsTracked pipe (start pipe)
unfolding start
start-IsTracked = (pipe-IsValid, Tracks-start (node_there pipe), Tracks-start (edge_there pipe))

remove_branch_lem_example :
    (cut : CandidateSpec) × (remove_branch branch drain (start pipe) ≡ ok cut)
    × IsTracked pipe cut
    × WithoutNodes branch.nodes (start pipe).candidate cut.candidate
unfolding start mem text_eq
remove_branch_lem_example =
    remove_branch_lem pipe branch drain (start pipe) start-IsTracked
      ((check_branch-IsBranch pipe branch).0 branch_accepted) (refl, (refl, tt))

-- A renamed port of an edge with a derived id: the mapped edge keeps the id of its old ends, which
-- AddEdge refuses.
abbrev derived_pipe : GraphSpec
derived_pipe = record pipe { edges = edge (codes "s.out->a.in") (codes "s") (codes "a") ∷ [] }

abbrev rename : MutationPatch
rename = record {
  base_topology_version = none;
  remove_policy = drain;
  actions =
      replace_node_action (record {
        node = codes "a";
        replacement_op = record { type_name = codes "std.other"; semantic_version = codes "1.0.0" };
        replacement_options = 1;
        port_mapping = some (record { inputs = (codes "in", codes "image") ∷ []; outputs = [] });
        remove_policy = none;
      })
      ∷ [];
}

abbrev status_of : Applied → Status
status_of (failed k a s) = s
status_of (applied c) = fine
status_of no_actions = fine

rename_refused : status_of (apply_patch resolver derived_pipe rename) ≡ graph_invalid
unfolding touch erase_id take_back set_policy note_edge add_edge_tracked note_cut cut_edge
    remove_edge_tracked remove_edges add_edges push_new note_drop drop_node remove_node_with_edges
    remove_nodes note_node place_node touch_node add_node_tracked add_nodes any_found insert_stops
    insert_at insert_chain replacement swap_node replace_node remove_single apply_one apply_from
    start apply_patch mem required_names candidates only_one unique_port port_for chain_stops
    head_edge tail_edge link_edge links_from chain_edges find_port same_port map_port with_from_port
    with_to_port map_incoming map_outgoing add_node add_edge remove_node remove_edge check_node
    check_edge with_id is_empty derive_edge_id port_to_text is_valid_stable_id is_alpha all_id_chars
    is_id_char text_eq find_in find_edge_in same_ends zero_bytes is_gpu erase_node erase_edge
    erase_touching touches edges_from edges_to lookup_port
rename_refused = refl
