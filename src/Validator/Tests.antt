-- ===== src/Validator/Tests.antt =====
-- The sort of two small graphs, and the theorems at one of them.
use ge.Prelude.{
  ℕ, ◌≤◌, ◌≡◌, ◌↔◌, refl, true, false, none, some, List, [], ◌∷◌, Text, codes, arith, Bool, Option,
}
use ge.Edge.{drop_oldest}
use ge.Graph.{
  NodeSpec, EdgeSpec, GraphSpec, cpu, find_in, find_edge_in, is_empty, derive_edge_id,
  is_valid_stable_id, is_alpha, all_id_chars, is_id_char, same_ends, zero_bytes, is_gpu, is_found,
}
use ge.Prelude.{text_eq}
use ge.Graph.Edits.{IsValid}
use ge.Applier.{mem, place_of}
use ge.Applier.Tracks.{count}
use ge.Validator.{
  is_ordering, in_degree, successors, update, relax, take_first, roots, sort_nodes,
  topological_order, nodes_left, cycle_issue, sources, sinks, has_in, has_out,
}
use ge.Validator.Order.{Forward}
use ge.Validator.{
  find_info, check_info, check_infos, check_edge_spec, check_edge_specs, edge_issues,
  capability_issues, lacks_device, has_device, is_blocking, uses, is_single, input_issues,
  output_issues, port_issues, accept, sort_checked, check_ports, check_edges, validate, is_ordering,
  issues_found, invalid_node,
}
use ge.Validator.Fits.{is_accepted, HasCapability, EdgeFits, validate_lem}
use ge.Applier.{CapabilityResolver, CapabilityDescriptor, find_port, single, multi, cpu_device}
use ge.Graph.{port_to_text}
use ge.Prelude.{get_elem?}
use ge.Validator.Cycles.{IsAcyclic, EntersFrom, topological_order_lem, cycle_issue-IsAcyclic}

abbrev node : Text → NodeSpec
node id = record {
  id = id;
  op = record { type_name = codes "std.copy"; semantic_version = codes "1.0.0" };
  executor = record { kind = cpu; device_id = none };
  parallelism = 1;
  options = 0;
  labels = 0;
}

abbrev edge : Text → Bool → Text → Text → EdgeSpec
edge id feedback from to = record {
  id = id;
  from = record { node_id = from; port = codes "out" };
  to = record { node_id = to; port = codes "in" };
  queue = record { capacity = 64; policy = drop_oldest; max_packet_bytes = none };
  sync = none;
  feedback = feedback;
}

-- From s to b, declared after a, from b to a, and back from a to b by a feedback edge or not.
abbrev pipe : Bool → GraphSpec
pipe feedback = record {
  nodes = node (codes "a") ∷ node (codes "b") ∷ node (codes "s") ∷ [];
  edges =
      edge (codes "e") false (codes "s") (codes "b")
      ∷ edge (codes "f") false (codes "b") (codes "a")
      ∷ edge (codes "h") feedback (codes "a") (codes "b")
      ∷ [];
}

abbrev order_of : Option (List Text × (Text → ℕ)) → List Text
order_of none = []
order_of (some r) = r.0

abbrev issue_of : GraphSpec → Option (List Text × (Text → ℕ)) → Option (List Text)
issue_of g none = none
issue_of g (some r) = cycle_issue g.nodes r

forward_first : order_of (topological_order (pipe true)) ≡ codes "s" ∷ codes "b" ∷ codes "a" ∷ []
unfolding topological_order sort_nodes roots in_degree is_ordering successors relax update
    take_first place_of find_in text_eq
forward_first = refl

cycle_named :
    issue_of (pipe false) (topological_order (pipe false)) ≡ some (codes "a" ∷ codes "b" ∷ [])
unfolding topological_order sort_nodes roots in_degree is_ordering successors relax update
    take_first place_of find_in text_eq cycle_issue nodes_left
cycle_named = refl

both_ends :
    ◌≡◌ {A = List Text × List Text}
      (sources (pipe true).edges (pipe true).nodes, sinks (pipe false).edges (pipe false).nodes)
      (codes "s" ∷ [], [])
unfolding sources sinks has_in has_out text_eq
both_ends = refl

pipe-IsValid : (feedback : Bool) → IsValid (pipe feedback)
unfolding find_in find_edge_in is_empty derive_edge_id is_valid_stable_id is_alpha all_id_chars
    is_id_char text_eq same_ends zero_bytes is_gpu
pipe-IsValid feedback = (
  (
    refl,
    (refl, refl, omega arith, refl),
    (refl, (refl, refl, omega arith, refl), (refl, (refl, refl, omega arith, refl), tt)),
  ),
  (
    refl,
    refl,
    (refl, refl, refl, refl, omega arith, refl),
    (
      refl,
      refl,
      (refl, refl, refl, refl, omega arith, refl),
      (refl, refl, (refl, refl, refl, refl, omega arith, refl), tt),
    ),
  ),
)

topological_order_lem_example :
    (order : List Text) × (left : Text → ℕ) × (topological_order (pipe true) ≡ some (order, left))
    × ((x : Text) → count x order ≤ 1)
    × ((x : Text) → mem x order ≡ true → is_found (find_in x (pipe true).nodes) ≡ true)
    × Forward (pipe true).nodes (pipe true).edges order
    × ((x : Text)
        → is_found (find_in x (pipe true).nodes) ≡ true
        → mem x order ≡ false
        → EntersFrom (pipe true) order x)
topological_order_lem_example = topological_order_lem (pipe true) (pipe-IsValid true)

cycle_issue-IsAcyclic_example :
    (r : List Text × (Text → ℕ)) × (topological_order (pipe false) ≡ some r)
    × ((cycle_issue (pipe false).nodes r ≡ none) ↔ IsAcyclic (pipe false))
cycle_issue-IsAcyclic_example = cycle_issue-IsAcyclic (pipe false) (pipe-IsValid false)

abbrev resolver : CapabilityResolver
resolver op = some (record {
  inputs = record { name = codes "in"; required = false; cardinality = multi } ∷ [];
  outputs = record { name = codes "out"; required = true; cardinality = single } ∷ [];
  execution = record { devices = cpu_device ∷ []; max_parallelism = 1 };
})

pipe_accepted : is_accepted (validate resolver true (pipe true)) ≡ true
unfolding validate check_edges check_ports sort_checked accept port_issues output_issues
    input_issues is_single uses is_blocking has_device lacks_device capability_issues edge_issues
    check_edge_specs check_edge_spec check_infos check_info find_info topological_order sort_nodes
    roots in_degree is_ordering successors relax update take_first place_of find_in text_eq
    cycle_issue is_valid_stable_id is_alpha all_id_chars is_id_char zero_bytes is_empty mem
    find_port port_to_text
pipe_accepted = refl

cycle_rejected : validate resolver true (pipe false) ≡ issues_found (invalid_node (codes "a") ∷ [])
unfolding validate check_edges check_ports sort_checked accept port_issues output_issues
    input_issues is_single uses is_blocking has_device lacks_device capability_issues edge_issues
    check_edge_specs check_edge_spec check_infos check_info find_info topological_order sort_nodes
    roots in_degree is_ordering successors relax update take_first place_of find_in text_eq
    cycle_issue nodes_left is_valid_stable_id is_alpha all_id_chars is_id_char zero_bytes is_empty
    mem find_port port_to_text
cycle_rejected = refl

validate_lem_example :
    ((x : Text) (n : NodeSpec)
      → find_in x (pipe true).nodes ≡ some n
      → (cap : CapabilityDescriptor) × HasCapability resolver n cap)
    × ((i : ℕ) (e : EdgeSpec)
        → get_elem? (pipe true).edges i ≡ some e
        → EdgeFits resolver (pipe true).nodes e)
    × IsAcyclic (pipe true)
validate_lem_example = validate_lem resolver true (pipe true) (pipe-IsValid true) pipe_accepted
