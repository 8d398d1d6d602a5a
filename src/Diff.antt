-- ===== src/Diff.antt =====
-- src/graph_diff.cpp: the difference of two graphs with their contracts, by the ids of nodes and edges.
-- The maps of the source are lists of keys with values; the order of their keys is left out.
mod State
unfoldable pub use State.*
pub mod Lookup
pub mod Reuse
pub mod Same
mod Tests
use ge.Prelude.{
  ℕ, Bool, true, false, not, ◌&&◌, ◌||◌, Option, none, some, List, [], ◌∷◌, ◌++◌, ◌==◌,
  if◌then◌else◌, Text, codes, text_eq,
}
use ge.Graph.{NodeSpec, EdgeSpec, GraphSpec, PortRef, port_eq, find_node, find_edge, is_found}
use ge.Applier.{mem, is_nil}

unfoldable pub node_change_name : NodeChange → Text
node_change_name node_kept = codes "kept"
node_change_name node_added = codes "added"
node_change_name node_removed = codes "removed"
node_change_name node_replaced = codes "replaced"
node_change_name node_updated = codes "updated"

unfoldable pub edge_change_name : EdgeChange → Text
edge_change_name edge_kept = codes "kept"
edge_change_name edge_added = codes "added"
edge_change_name edge_removed = codes "removed"
edge_change_name edge_recreated = codes "recreated"

unfoldable pub lookup {ℓ} : {V : Type ℓ} → Text → List (Text × V) → Option V
lookup id [] = none
lookup id (p ∷ ps) = if text_eq p.0 id then some p.1 else lookup id ps

unfoldable pub assign {ℓ} : {V : Type ℓ} → Text → V → List (Text × V) → List (Text × V)
assign id v [] = (id, v) ∷ []
assign id v (p ∷ ps) = if text_eq p.0 id then (id, v) ∷ ps else p ∷ assign id v ps

-- Inputs: of the edges into a port, the last.
unfoldable pub inputs_from : Text → List EdgeSpec → List (Text × Text) → List (Text × Text)
inputs_from node [] found = found
inputs_from node (e ∷ es) found =
    inputs_from node es (if text_eq e.to.node_id node then assign e.to.port e.id found else found)

abbrev pub inputs : GraphSpec → Text → List (Text × Text)
inputs g node = inputs_from node g.edges []

abbrev pub reason_if : Bool → Reason → List Reason
reason_if true r = r ∷ []
reason_if false r = []

-- The nodes whose operator changes.
abbrev pub op_changed : NodeSpec → Option NodeSpec → Bool
op_changed b none = false
op_changed b (some c) = not (op_eq b.op c.op)

unfoldable pub replaced_in : GraphSpec → List NodeSpec → List Text
replaced_in candidate [] = []
replaced_in candidate (b ∷ bs) =
    if op_changed b (find_node b.id candidate)
    then b.id ∷ replaced_in candidate bs
    else replaced_in candidate bs

-- One edge of the base.
unfoldable pub contracts_differ : Option ConnectionContract → Option ConnectionContract → Bool
contracts_differ (some b) (some c) = not (same_data_plane b c)
contracts_differ (some b) none = false
contracts_differ none c = false

unfoldable pub edge_reasons :
    List Text
    → List (Text × ConnectionContract)
    → List (Text × ConnectionContract)
    → EdgeSpec
    → EdgeSpec
    → List Reason
edge_reasons replaced base_contracts candidate_contracts b c =
    reason_if (not (port_eq b.from c.from) || not (port_eq b.to c.to)) endpoints
    ++ reason_if (mem c.from.node_id replaced) producer_replaced
    ++ reason_if (mem c.to.node_id replaced) consumer_replaced
    ++ reason_if (not (queue_eq b.queue c.queue)) queue
    ++ reason_if (not (bool_eq b.feedback c.feedback)) feedback
    ++ reason_if (contracts_differ (lookup b.id base_contracts) (lookup b.id candidate_contracts))
        contract

abbrev pub edge_entry_of : List Reason → EdgeEntry
edge_entry_of [] = record { change = edge_kept; reason = [] }
edge_entry_of (r ∷ rs) = record { change = edge_recreated; reason = r ∷ rs }

abbrev pub edge_entry : (EdgeSpec → List Reason) → Option EdgeSpec → EdgeEntry
edge_entry why none = record { change = edge_removed; reason = [] }
edge_entry why (some c) = edge_entry_of (why c)

unfoldable pub compare_edges :
    GraphSpec
    → (EdgeSpec → EdgeSpec → List Reason)
    → List EdgeSpec
    → List (Text × EdgeEntry)
    → List (Text × EdgeEntry)
compare_edges candidate why [] d = d
compare_edges candidate why (b ∷ bs) d =
    compare_edges candidate why bs (assign b.id (edge_entry (why b) (find_edge b.id candidate)) d)

unfoldable pub add_new_edges :
    GraphSpec → List EdgeSpec → List (Text × EdgeEntry) → List (Text × EdgeEntry)
add_new_edges base [] d = d
add_new_edges base (c ∷ cs) d = add_new_edges base cs (
    if is_found (find_edge c.id base)
    then d
    else assign c.id (record { change = edge_added; reason = [] }) d)

-- One node of the base that keeps its operator.
unfoldable pub is_recreated : Option EdgeEntry → Bool
is_recreated none = false
is_recreated (some e) = elim e.change [
  | edge_recreated ↦ true
  | edge_kept ↦ false
  | edge_added ↦ false
  | edge_removed ↦ false
]

unfoldable pub input_reason : List (Text × EdgeEntry) → Text → Text → Option Text → List Reason
input_reason edges port edge none = input_added port ∷ []
input_reason edges port edge (some old) =
    if not (text_eq old edge)
    then input_rewired port ∷ []
    else reason_if (is_recreated (lookup edge edges)) (input_recreated port)

unfoldable pub input_reasons :
    List (Text × EdgeEntry) → List (Text × Text) → List (Text × Text) → List Reason
input_reasons edges bin [] = []
input_reasons edges bin (p ∷ ps) =
    input_reason edges p.0 p.1 (lookup p.0 bin) ++ input_reasons edges bin ps

unfoldable pub removed_inputs : List (Text × Text) → List (Text × Text) → List Reason
removed_inputs cin [] = []
removed_inputs cin (p ∷ ps) =
    reason_if (not (is_found (lookup p.0 cin))) (input_removed p.0) ++ removed_inputs cin ps

unfoldable pub node_reasons :
    GraphSpec → GraphSpec → List (Text × EdgeEntry) → NodeSpec → NodeSpec → List Reason
node_reasons base candidate edges b c =
    reason_if (not (executor_eq b.executor c.executor)) executor
    ++ reason_if (not (b.parallelism == c.parallelism)) parallelism
    ++ input_reasons edges (inputs base b.id) (inputs candidate b.id)
    ++ removed_inputs (inputs candidate b.id) (inputs base b.id)

abbrev pub node_entry_of : List Reason → NodeEntry
node_entry_of [] = record { change = node_kept; reason = [] }
node_entry_of (r ∷ rs) = record { change = node_updated; reason = r ∷ rs }

abbrev pub node_entry : (NodeSpec → NodeSpec → List Reason) → NodeSpec → Option NodeSpec → NodeEntry
node_entry why b none = record { change = node_removed; reason = [] }
node_entry why b (some c) =
    if op_eq b.op c.op
    then node_entry_of (why b c)
    else record { change = node_replaced; reason = operator_changed b.op c.op ∷ [] }

unfoldable pub compare_nodes :
    GraphSpec
    → (NodeSpec → NodeSpec → List Reason)
    → List NodeSpec
    → List (Text × NodeEntry)
    → List (Text × NodeEntry)
compare_nodes candidate why [] d = d
compare_nodes candidate why (b ∷ bs) d =
    compare_nodes candidate why bs (assign b.id (node_entry why b (find_node b.id candidate)) d)

unfoldable pub add_new_nodes :
    GraphSpec → List NodeSpec → List (Text × NodeEntry) → List (Text × NodeEntry)
add_new_nodes base [] d = d
add_new_nodes base (c ∷ cs) d = add_new_nodes base cs (
    if is_found (find_node c.id base)
    then d
    else assign c.id (record { change = node_added; reason = [] }) d)

-- Compute: the edges first, since they decide which nodes are updated.
unfoldable pub diff_edges :
    GraphSpec
    → List (Text × ConnectionContract)
    → GraphSpec
    → List (Text × ConnectionContract)
    → List (Text × EdgeEntry)
diff_edges base base_contracts candidate candidate_contracts =
    let replaced : List Text = replaced_in candidate base.nodes in
    add_new_edges base candidate.edges (
      compare_edges candidate (edge_reasons replaced base_contracts candidate_contracts) base.edges
        [])

unfoldable pub compute_diff :
    GraphSpec
    → List (Text × ConnectionContract)
    → GraphSpec
    → List (Text × ConnectionContract)
    → GraphDiff
compute_diff base base_contracts candidate candidate_contracts =
    let edges : List (Text × EdgeEntry) =
      diff_edges base base_contracts candidate candidate_contracts in
    record {
      nodes =
          add_new_nodes base candidate.nodes
            (compare_nodes candidate (node_reasons base candidate edges) base.nodes []);
      edges = edges;
    }

abbrev pub number_of_node : NodeChange → ℕ
number_of_node node_kept = 0
number_of_node node_added = 1
number_of_node node_removed = 2
number_of_node node_replaced = 3
number_of_node node_updated = 4

abbrev pub number_of_edge : EdgeChange → ℕ
number_of_edge edge_kept = 0
number_of_edge edge_added = 1
number_of_edge edge_removed = 2
number_of_edge edge_recreated = 3

-- The keys of the entries that pass a test.
unfoldable pub select_keys {ℓ} : {V : Type ℓ} → (V → Bool) → List (Text × V) → List Text
select_keys test [] = []
select_keys test (p ∷ ps) = if test p.1 then p.0 ∷ select_keys test ps else select_keys test ps

unfoldable pub nodes_of : NodeChange → GraphDiff → List Text
nodes_of c d = select_keys (λ (e : NodeEntry). number_of_node e.change == number_of_node c) d.nodes

unfoldable pub edges_of : EdgeChange → GraphDiff → List Text
edges_of c d = select_keys (λ (e : EdgeEntry). number_of_edge e.change == number_of_edge c) d.edges

abbrev pub is_reused_node : NodeEntry → Bool
is_reused_node e = number_of_node e.change == 0 || number_of_node e.change == 4

abbrev pub is_reused_edge : EdgeEntry → Bool
is_reused_edge e = number_of_edge e.change == 0

unfoldable pub reused_nodes : GraphDiff → List Text
reused_nodes d = select_keys is_reused_node d.nodes

unfoldable pub reused_edges : GraphDiff → List Text
reused_edges d = select_keys is_reused_edge d.edges

unfoldable pub all_pass {ℓ} : {V : Type ℓ} → (V → Bool) → List (Text × V) → Bool
all_pass test [] = true
all_pass test (p ∷ ps) = test p.1 && all_pass test ps

-- Empty.
unfoldable pub is_empty_diff : GraphDiff → Bool
is_empty_diff d =
    all_pass (λ (e : NodeEntry). number_of_node e.change == 0) d.nodes
    && all_pass is_reused_edge d.edges
