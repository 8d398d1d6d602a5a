-- ===== src/Validator/Checks.antt =====
-- The first three parts of Validate in src/graph_validator.cpp: nodes, edges and ports against the
-- capabilities of the operators.
use ge.Prelude.{
  ℕ, Bool, true, false, not, ◌&&◌, ◌||◌, Option, none, some, List, [], ◌∷◌, ◌++◌, ◌+◌, ltb, ◌==◌,
  if◌then◌else◌, Text, text_eq,
}
use ge.Edge.{DropPolicy, block, drop_oldest, drop_newest}
use ge.Graph.{
  NodeSpec, EdgeSpec, ExecutorKind, auto, cpu, gpu, graph_invalid, not_found, is_found, is_empty,
  is_valid_stable_id, port_to_text,
}
use ge.Applier.{
  mem, is_nil, find_port, CapabilityDescriptor, CapabilityResolver, PortCapability, PortCardinality,
  single, multi, DeviceKind, cpu_device, gpu_device,
}
use ge.Validator.State.{ValidationIssue, NodeInfo, NodeChecks, EdgeChecks}

unfoldable pub find_info : Text → List NodeInfo → Option NodeInfo
find_info id [] = none
find_info id (n ∷ ns) = if text_eq n.spec.id id then some n else find_info id ns

abbrev pub issue_if : Bool → ValidationIssue → List ValidationIssue
issue_if true i = i ∷ []
issue_if false i = []

abbrev pub invalid_node : Text → ValidationIssue
invalid_node id = record { code = graph_invalid; node_id = id; edge_id = [] }

abbrev pub invalid_edge : Text → Text → ValidationIssue
invalid_edge node edge = record { code = graph_invalid; node_id = node; edge_id = edge }

-- 1. Nodes. An operator without devices runs on any.
unfoldable pub has_device : DeviceKind → List DeviceKind → Bool
has_device d [] = false
has_device cpu_device (cpu_device ∷ ds) = true
has_device cpu_device (gpu_device ∷ ds) = has_device cpu_device ds
has_device gpu_device (gpu_device ∷ ds) = true
has_device gpu_device (cpu_device ∷ ds) = has_device gpu_device ds

unfoldable pub lacks_device : ExecutorKind → List DeviceKind → Bool
lacks_device gpu ds = not (is_nil ds) && not (has_device gpu_device ds)
lacks_device cpu ds = not (is_nil ds) && not (has_device cpu_device ds)
lacks_device auto ds = false

unfoldable pub capability_issues : NodeSpec → Option CapabilityDescriptor → List ValidationIssue
capability_issues n none = record { code = not_found; node_id = n.id; edge_id = [] } ∷ []
capability_issues n (some cap) =
    issue_if (lacks_device n.executor.kind cap.execution.devices) (invalid_node n.id)
    ++ issue_if (ltb cap.execution.max_parallelism n.parallelism) (invalid_node n.id)

unfoldable pub check_info : CapabilityResolver → NodeSpec → NodeChecks → NodeChecks
check_info resolver n c =
    let bad : List ValidationIssue = issue_if (not (is_valid_stable_id n.id)) (invalid_node n.id) in
    if is_found (find_info n.id c.infos)
    then record c { issues = c.issues ++ (bad ++ invalid_node n.id ∷ []) }
    else record {
      infos = c.infos ++ record { spec = n; cap = resolver n.op } ∷ [];
      issues = c.issues ++ (bad ++ capability_issues n (resolver n.op));
    }

-- With fail_fast the loop stops at the first issue, but goes on after a repeated id.
unfoldable pub check_infos :
    CapabilityResolver → Bool → List NodeSpec → NodeChecks → Bool × NodeChecks
check_infos resolver fail_fast [] c = (false, c)
check_infos resolver fail_fast (n ∷ ns) c =
    let next : NodeChecks = check_info resolver n c in
    let rest : Bool × NodeChecks = check_infos resolver fail_fast ns next in
    if not (is_found (find_info n.id c.infos)) && (fail_fast && not (is_nil next.issues))
    then (true, next)
    else rest

-- 2. Edges.
abbrev pub cap_of : Option NodeInfo → Option CapabilityDescriptor
cap_of none = none
cap_of (some n) = n.cap

abbrev pub lacks_output : Text → Option CapabilityDescriptor → Bool
lacks_output port none = false
lacks_output port (some cap) = not (find_port port cap.outputs)

abbrev pub lacks_input : Text → Option CapabilityDescriptor → Bool
lacks_input port none = false
lacks_input port (some cap) = not (find_port port cap.inputs)

abbrev pub has_output : Text → Option CapabilityDescriptor → Bool
has_output port none = false
has_output port (some cap) = find_port port cap.outputs

abbrev pub has_input : Text → Option CapabilityDescriptor → Bool
has_input port none = false
has_input port (some cap) = find_port port cap.inputs

unfoldable pub is_blocking : DropPolicy → Bool
is_blocking block = true
is_blocking drop_oldest = false
is_blocking drop_newest = false

unfoldable pub edge_issues : List NodeInfo → List Text → EdgeSpec → List ValidationIssue
edge_issues infos edge_ids e =
    let from : Option NodeInfo = find_info e.from.node_id infos in
    let to : Option NodeInfo = find_info e.to.node_id infos in
    issue_if (is_empty e.id || mem e.id edge_ids) (invalid_edge [] e.id)
    ++ (issue_if (not (is_found from)) (invalid_edge [] e.id)
        ++ (issue_if (not (is_found to)) (invalid_edge [] e.id)
            ++ (issue_if (text_eq e.from.node_id e.to.node_id && not e.feedback)
                  (invalid_edge e.from.node_id e.id)
                ++ (issue_if (e.feedback && is_blocking e.queue.policy) (invalid_edge [] e.id)
                    ++ (issue_if (lacks_output e.from.port (cap_of from))
                          (invalid_edge e.from.node_id e.id)
                        ++ issue_if (lacks_input e.to.port (cap_of to))
                            (invalid_edge e.to.node_id e.id))))))

abbrev pub use_if : Bool → Text → EdgeSpec → List (Text × EdgeSpec)
use_if true port e = (port, e) ∷ []
use_if false port e = []

unfoldable pub check_edge_spec : List NodeInfo → EdgeSpec → EdgeChecks → EdgeChecks
check_edge_spec infos e c = record {
  edge_ids = if is_empty e.id then c.edge_ids else e.id ∷ c.edge_ids;
  outputs =
      c.outputs
      ++ use_if (has_output e.from.port (cap_of (find_info e.from.node_id infos)))
          (port_to_text e.from) e;
  inputs =
      c.inputs
      ++ use_if (has_input e.to.port (cap_of (find_info e.to.node_id infos))) (port_to_text e.to) e;
  issues = c.issues ++ edge_issues infos c.edge_ids e;
}

unfoldable pub check_edge_specs :
    List NodeInfo → Bool → List EdgeSpec → EdgeChecks → Bool × EdgeChecks
check_edge_specs infos fail_fast [] c = (false, c)
check_edge_specs infos fail_fast (e ∷ es) c =
    let next : EdgeChecks = check_edge_spec infos e c in
    let rest : Bool × EdgeChecks = check_edge_specs infos fail_fast es next in
    if fail_fast && not (is_nil next.issues) then (true, next) else rest

-- 3. Required inputs and single ports.
unfoldable pub uses : Text → List (Text × EdgeSpec) → ℕ
uses port [] = 0
uses port (p ∷ ps) = (if text_eq p.0 port then 1 else 0) + uses port ps

unfoldable pub is_single : PortCardinality → Bool
is_single single = true
is_single multi = false

abbrev pub port_key : Text → Text → Text
port_key id name = id ++ b'.' ∷ name

unfoldable pub input_issues :
    Text → List (Text × EdgeSpec) → List PortCapability → List ValidationIssue
input_issues id inputs [] = []
input_issues id inputs (p ∷ ps) =
    let count : ℕ = uses (port_key id p.name) inputs in
    issue_if (p.required && count == 0) (invalid_node id)
    ++ (issue_if (is_single p.cardinality && ltb 1 count) (invalid_node id)
        ++ input_issues id inputs ps)

unfoldable pub output_issues :
    Text → List (Text × EdgeSpec) → List PortCapability → List ValidationIssue
output_issues id outputs [] = []
output_issues id outputs (p ∷ ps) =
    issue_if (is_single p.cardinality && ltb 1 (uses (port_key id p.name) outputs))
      (invalid_node id)
    ++ output_issues id outputs ps

abbrev pub ports_issues : EdgeChecks → NodeSpec → Option CapabilityDescriptor → List ValidationIssue
ports_issues c n none = []
ports_issues c n (some cap) =
    input_issues n.id c.inputs cap.inputs ++ output_issues n.id c.outputs cap.outputs

-- The source visits the nodes in the order of a hash table, here in that of the graph.
unfoldable pub port_issues : EdgeChecks → List NodeInfo → List ValidationIssue
port_issues c [] = []
port_issues c (n ∷ ns) = ports_issues c n.spec n.cap ++ port_issues c ns
