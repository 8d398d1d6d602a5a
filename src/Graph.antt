-- ===== src/Graph.antt =====
-- src/graph_spec.cpp: the graph under edit. An operation returns its status and the graph, changed
-- only if the status is fine. Name, description and options of the graph are left out: no operation
-- reads them.
mod State
pub use State.*
pub mod Names
pub mod Lookup
pub mod Removal
pub mod Edits
pub mod Found
pub mod Builder
pub mod Patch
pub mod Mutation
mod Tests
use ge.Prelude.{
  ℕ, Bool, true, false, not, ◌&&◌, ◌||◌, Option, none, some, List, [], ◌∷◌, ◌++◌, leb, ltb, ◌==◌,
  if◌then◌else◌, length, Text, codes, text_eq, split_first,
}

unfoldable pub is_alpha : ℕ → Bool
is_alpha c = (leb b'A' c && leb c b'Z') || (leb b'a' c && leb c b'z')

unfoldable pub is_id_char : ℕ → Bool
is_id_char c = is_alpha c || (leb b'0' c && leb c b'9') || c == b'_' || c == b'.' || c == b'-'

unfoldable pub all_id_chars : Text → Bool
all_id_chars [] = true
all_id_chars (c ∷ rest) = is_id_char c && all_id_chars rest

unfoldable pub is_valid_stable_id : Text → Bool
is_valid_stable_id [] = false
is_valid_stable_id (c ∷ rest) =
    if ltb 128 (length (c ∷ rest)) then false else is_alpha c && all_id_chars rest

unfoldable pub is_empty : Text → Bool
is_empty [] = true
is_empty (c ∷ rest) = false

-- PortRef::ToString and PortRef::Parse.
unfoldable pub port_to_text : PortRef → Text
port_to_text p = p.node_id ++ b'.' ∷ p.port

unfoldable pub port_of_parts : Text × Text → Option PortRef
port_of_parts (node, port) =
    if is_empty node || is_empty port || not (is_valid_stable_id node)
    then none
    else some (record { node_id = node; port = port })

unfoldable pub parse_port : Text → Option PortRef
parse_port t = elim (split_first b'.' t) [ none ↦ none | some parts ↦ port_of_parts parts ]

unfoldable pub find_in : Text → List NodeSpec → Option NodeSpec
find_in id [] = none
find_in id (n ∷ rest) = if text_eq n.id id then some n else find_in id rest

unfoldable pub find_edge_in : Text → List EdgeSpec → Option EdgeSpec
find_edge_in id [] = none
find_edge_in id (e ∷ rest) = if text_eq e.id id then some e else find_edge_in id rest

abbrev pub find_node : Text → GraphSpec → Option NodeSpec
find_node id g = find_in id g.nodes

abbrev pub find_edge : Text → GraphSpec → Option EdgeSpec
find_edge id g = find_edge_in id g.edges

abbrev pub is_found {ℓ} : {A : Type ℓ} → Option A → Bool
is_found none = false
is_found (some x) = true

-- "->" between the two ports.
unfoldable pub derive_edge_id : PortRef → PortRef → Text
derive_edge_id from to = port_to_text from ++ (b'-' ∷ b'>' ∷ port_to_text to)

unfoldable pub is_gpu : ExecutorKind → Bool
is_gpu gpu = true
is_gpu _ = false

unfoldable pub check_node : NodeSpec → GraphSpec → Status
check_node n g =
    if not (is_valid_stable_id n.id)
    then graph_invalid
    else if is_found (find_node n.id g)
    then already_exists
    else if is_empty n.op.type_name
    then graph_invalid
    else if n.parallelism == 0
    then graph_invalid
    else if not (is_gpu n.executor.kind) && is_found n.executor.device_id
    then graph_invalid
    else fine

-- The graph is changed if the check was fine.
abbrev pub commit_if : Status → GraphSpec → GraphSpec → Status × GraphSpec
commit_if fine old new = (fine, new)
commit_if graph_invalid old new = (graph_invalid, old)
commit_if already_exists old new = (already_exists, old)
commit_if not_found old new = (not_found, old)
commit_if invalid_argument old new = (invalid_argument, old)
commit_if shared_dependency old new = (shared_dependency, old)

unfoldable pub add_node : NodeSpec → GraphSpec → Status × GraphSpec
add_node n g = commit_if (check_node n g) g (record g { nodes = g.nodes ++ n ∷ [] })

unfoldable pub with_id : EdgeSpec → EdgeSpec
with_id e = if is_empty e.id then record e { id = derive_edge_id e.from e.to } else e

unfoldable pub same_ends : EdgeSpec → List EdgeSpec → Bool
same_ends e [] = false
same_ends e (f ∷ rest) = (port_eq f.from e.from && port_eq f.to e.to) || same_ends e rest

unfoldable pub zero_bytes : Option ℕ → Bool
zero_bytes none = false
zero_bytes (some n) = n == 0

unfoldable pub check_edge : EdgeSpec → GraphSpec → Status
check_edge e g =
    if not (is_valid_stable_id e.id) && not (text_eq e.id (derive_edge_id e.from e.to))
    then graph_invalid
    else if is_found (find_edge e.id g)
    then already_exists
    else if not (is_found (find_node e.from.node_id g))
    then graph_invalid
    else if not (is_found (find_node e.to.node_id g))
    then graph_invalid
    else if is_empty e.from.port || is_empty e.to.port
    then graph_invalid
    else if e.queue.capacity == 0
    then graph_invalid
    else if zero_bytes e.queue.max_packet_bytes
    then graph_invalid
    else if same_ends e g.edges
    then already_exists
    else fine

unfoldable pub add_edge : EdgeSpec → GraphSpec → Status × GraphSpec
add_edge e g =
    commit_if (check_edge (with_id e) g) g (record g { edges = g.edges ++ with_id e ∷ [] })

-- Erases the first node of the id.
unfoldable pub erase_node : Text → List NodeSpec → List NodeSpec
erase_node id [] = []
erase_node id (n ∷ rest) = if text_eq n.id id then rest else n ∷ erase_node id rest

unfoldable pub erase_edge : Text → List EdgeSpec → List EdgeSpec
erase_edge id [] = []
erase_edge id (e ∷ rest) = if text_eq e.id id then rest else e ∷ erase_edge id rest

unfoldable pub touches : Text → EdgeSpec → Bool
touches id e = text_eq e.from.node_id id || text_eq e.to.node_id id

unfoldable pub erase_touching : Text → List EdgeSpec → List EdgeSpec
erase_touching id [] = []
erase_touching id (e ∷ rest) =
    if touches id e then erase_touching id rest else e ∷ erase_touching id rest

unfoldable pub remove_node : Text → GraphSpec → Status × GraphSpec
remove_node id g =
    if is_found (find_node id g)
    then (fine, record { nodes = erase_node id g.nodes; edges = erase_touching id g.edges })
    else (not_found, g)

unfoldable pub remove_edge : Text → GraphSpec → Status × GraphSpec
remove_edge id g =
    if is_found (find_edge id g)
    then (fine, record g { edges = erase_edge id g.edges })
    else (not_found, g)

-- The edges that leave a node or a port, and those that enter it.
abbrev pub keep_if : (EdgeSpec → Bool) → List EdgeSpec → List EdgeSpec
keep_if test [] = []
keep_if test (e ∷ rest) = if test e then e ∷ keep_if test rest else keep_if test rest

unfoldable pub edges_from : Text → GraphSpec → List EdgeSpec
edges_from id g = keep_if (λ e. text_eq e.from.node_id id) g.edges

unfoldable pub edges_to : Text → GraphSpec → List EdgeSpec
edges_to id g = keep_if (λ e. text_eq e.to.node_id id) g.edges

unfoldable pub edges_from_port : PortRef → GraphSpec → List EdgeSpec
edges_from_port port g = keep_if (λ e. port_eq e.from port) g.edges

unfoldable pub edges_to_port : PortRef → GraphSpec → List EdgeSpec
edges_to_port port g = keep_if (λ e. port_eq e.to port) g.edges
