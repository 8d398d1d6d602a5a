-- ===== src/Applier/Chain.antt =====
-- The chains of src/mutation_applier.cpp with the ports that their nodes are joined at, and
-- CheckLinearChain of src/graph_validator.cpp.
use ge.Prelude.{
  ℕ, Bool, true, false, not, ◌&&◌, ◌||◌, Option, none, some, List, [], ◌∷◌, ◌+◌, map, ◌==◌,
  if◌then◌else◌, Text, text_eq,
}
use ge.Graph.{
  NodeSpec, EdgeSpec, GraphSpec, graph_invalid, not_found, shared_dependency, find_node, is_found,
  is_empty,
}
use ge.Graph.Patch.{ChainPorts, PortMapping, ReplaceNodeAction}
use ge.Applier.State.{
  Result, ok, err, ◌>>=◌, ◌>>◌, guard, some_or, PortCapability, CapabilityDescriptor,
  CapabilityResolver, mem,
}

abbrev pub is_nil {ℓ} : {A : Type ℓ} → List A → Bool
is_nil [] = true
is_nil (x ∷ xs) = false

unfoldable pub required_names : List PortCapability → List Text
required_names [] = []
required_names (p ∷ ps) = if p.required then p.name ∷ required_names ps else required_names ps

abbrev pub port_names : List PortCapability → List Text
port_names ps = map (λ (p : PortCapability). p.name) ps

unfoldable pub candidates : Bool → CapabilityDescriptor → List Text
candidates true cap =
    let required : List Text = required_names cap.inputs in
    if is_nil required then port_names cap.inputs else required
candidates false cap = port_names cap.outputs

unfoldable pub only_one : List Text → Result Text
only_one [] = err graph_invalid
only_one (p ∷ []) = ok p
only_one (p ∷ q ∷ ps) = err graph_invalid

-- UniquePort: of the inputs the required ones, if there is one.
unfoldable pub unique_port : Option CapabilityDescriptor → Bool → Result Text
unique_port none input = err graph_invalid
unique_port (some cap) input = only_one (candidates input cap)

-- A node of an inserted chain with the two ports it is joined at.
pub record ChainStop : Type 0 where
  pub id : Text
  pub input : Text
  pub output : Text

-- The given port, at the end of the chain it is given for.
unfoldable pub port_for : Bool → Option Text → Option CapabilityDescriptor → Bool → Result Text
port_for true (some p) cap input = ok p
port_for true none cap input = unique_port cap input
port_for false p cap input = unique_port cap input

unfoldable pub chain_stops :
    CapabilityResolver → ChainPorts → Bool → List NodeSpec → Result (List ChainStop)
chain_stops resolver ports first [] = ok []
chain_stops resolver ports first (n ∷ rest) = do
  input ← port_for first ports.chain_input (resolver n.op) true
  output ← port_for (is_nil rest) ports.chain_output (resolver n.op) false
  stops ← chain_stops resolver ports false rest
  ok (record { id = n.id; input = input; output = output } ∷ stops)

unfoldable pub head_edge : EdgeSpec → ChainStop → EdgeSpec
head_edge old s = record old { id = []; to = record { node_id = s.id; port = s.input } }

unfoldable pub tail_edge : EdgeSpec → ChainStop → EdgeSpec
tail_edge old s = record old { id = []; from = record { node_id = s.id; port = s.output } }

unfoldable pub link_edge : EdgeSpec → ChainStop → ChainStop → EdgeSpec
link_edge old s t = record {
  id = [];
  from = record { node_id = s.id; port = s.output };
  to = record { node_id = t.id; port = t.input };
  queue = old.queue;
  sync = none;
  feedback = false;
}

unfoldable pub links_from : EdgeSpec → ChainStop → List ChainStop → List EdgeSpec
links_from old s [] = tail_edge old s ∷ []
links_from old s (t ∷ rest) = link_edge old s t ∷ links_from old t rest

-- The edges of the chain in the order of their addition: to its head, inside, from its tail.
unfoldable pub chain_edges : EdgeSpec → List ChainStop → List EdgeSpec
chain_edges old [] = []
chain_edges old (s ∷ rest) = head_edge old s ∷ links_from old s rest

unfoldable pub bypass_edge : EdgeSpec → EdgeSpec → EdgeSpec
bypass_edge before after = record {
  id = [];
  from = before.from;
  to = after.to;
  queue = after.queue;
  sync = after.sync;
  feedback = before.feedback || after.feedback;
}

-- map_port of ReplaceNode.
unfoldable pub find_port : Text → List PortCapability → Bool
find_port name [] = false
find_port name (p ∷ ps) = text_eq p.name name || find_port name ps

unfoldable pub lookup_port : Text → List (Text × Text) → Option Text
lookup_port port [] = none
lookup_port port (p ∷ ps) = if text_eq p.0 port then some p.1 else lookup_port port ps

abbrev pub mapping_of : Bool → PortMapping → List (Text × Text)
mapping_of true m = m.inputs
mapping_of false m = m.outputs

abbrev pub ports_of : Bool → CapabilityDescriptor → List PortCapability
ports_of true cap = cap.inputs
ports_of false cap = cap.outputs

unfoldable pub same_port : Option CapabilityDescriptor → Bool → Text → Result Text
same_port none input port = ok port
same_port (some cap) input port =
    if find_port port (ports_of input cap) then ok port else err graph_invalid

unfoldable pub map_port : CapabilityResolver → ReplaceNodeAction → Bool → Text → Result Text
map_port resolver a input port = elim a.port_mapping [
  | some m ↦ some_or (lookup_port port (mapping_of input m)) graph_invalid
  | none ↦ same_port (resolver a.replacement_op) input port
]

unfoldable pub with_from_port : EdgeSpec → Text → EdgeSpec
with_from_port e port = record e { from = record { node_id = e.from.node_id; port = port } }

unfoldable pub with_to_port : EdgeSpec → Text → EdgeSpec
with_to_port e port = record e { to = record { node_id = e.to.node_id; port = port } }

-- The edges into the replaced node, those from itself included, and the other edges out of it.
unfoldable pub map_incoming :
    CapabilityResolver → ReplaceNodeAction → List EdgeSpec → Result (List EdgeSpec)
map_incoming resolver a [] = ok []
map_incoming resolver a (e ∷ es) = do
  to ← map_port resolver a true e.to.port
  from ←
      (if text_eq e.from.node_id a.node
        then map_port resolver a false e.from.port
        else ok e.from.port)
  rest ← map_incoming resolver a es
  ok (with_from_port (with_to_port e to) from ∷ rest)

unfoldable pub map_outgoing :
    CapabilityResolver → ReplaceNodeAction → List EdgeSpec → Result (List EdgeSpec)
map_outgoing resolver a [] = ok []
map_outgoing resolver a (e ∷ es) =
    if text_eq e.to.node_id a.node then map_outgoing resolver a es else do
      from ← map_port resolver a false e.from.port
      rest ← map_outgoing resolver a es
      ok (with_from_port e from ∷ rest)

-- CheckLinearChain.
pub record ChainBoundary : Type 0 where
  pub inbound_edge : Text
  pub outbound_edge : Text

unfoldable pub check_members : GraphSpec → List Text → List Text → Result (Unit {0})
check_members g seen [] = ok tt
check_members g seen (id ∷ ids) = do
  guard (is_found (find_node id g)) not_found
  guard (not (mem id seen)) graph_invalid
  check_members g (id ∷ seen) ids

unfoldable pub count_links : Text → Text → List EdgeSpec → ℕ
count_links a b [] = 0
count_links a b (e ∷ es) =
    (if text_eq e.from.node_id a && text_eq e.to.node_id b then 1 else 0) + count_links a b es

unfoldable pub check_links : GraphSpec → List Text → Result (Unit {0})
check_links g [] = ok tt
check_links g (a ∷ []) = ok tt
check_links g (a ∷ b ∷ rest) = do
  guard (count_links a b g.edges == 1) graph_invalid
  check_links g (b ∷ rest)

-- The place of the first, or the length.
unfoldable pub place_of : Text → List Text → ℕ
place_of id [] = 0
place_of id (x ∷ xs) = if text_eq x id then 0 else 1 + place_of id xs

unfoldable pub last_of : Text → List Text → Text
last_of x [] = x
last_of x (y ∷ ys) = last_of y ys

-- The boundary found so far and whether an edge crosses it that should not.
pub record Crossing : Type 0 where
  pub boundary : ChainBoundary
  pub shared : Bool

-- One edge of the loop over the edges, for a chain with its first and last node.
unfoldable pub cross_in : Text → EdgeSpec → Crossing → Crossing
cross_in first e c =
    if text_eq e.to.node_id first && is_empty c.boundary.inbound_edge
    then record c {
      boundary = record { inbound_edge = e.id; outbound_edge = c.boundary.outbound_edge };
    }
    else record c { shared = true }

unfoldable pub cross_out : Text → EdgeSpec → Crossing → Crossing
cross_out final e c =
    if text_eq e.from.node_id final && is_empty c.boundary.outbound_edge
    then record c {
      boundary = record { inbound_edge = c.boundary.inbound_edge; outbound_edge = e.id };
    }
    else record c { shared = true }

unfoldable pub cross : List Text → Text → Text → Bool → Bool → EdgeSpec → Crossing → Result Crossing
cross chain first final true true e c =
    if place_of e.to.node_id chain == place_of e.from.node_id chain + 1
    then ok c
    else err graph_invalid
cross chain first final false true e c = ok (cross_in first e c)
cross chain first final true false e c = ok (cross_out final e c)
cross chain first final false false e c = ok c

unfoldable pub cross_all : List Text → Text → Text → List EdgeSpec → Crossing → Result Crossing
cross_all chain first final [] c = ok c
cross_all chain first final (e ∷ es) c =
    cross chain first final (mem e.from.node_id chain) (mem e.to.node_id chain) e c
    >>= cross_all chain first final es

unfoldable pub no_crossing : Crossing
no_crossing = record { boundary = record { inbound_edge = []; outbound_edge = [] }; shared = false }

unfoldable pub check_linear_chain : GraphSpec → List Text → Result ChainBoundary
check_linear_chain g [] = err graph_invalid
check_linear_chain g (first ∷ rest) = do
  check_members g [] (first ∷ rest)
  check_links g (first ∷ rest)
  c ← cross_all (first ∷ rest) first (last_of first rest) g.edges no_crossing
  guard (not c.shared) shared_dependency
  guard (not (is_empty c.boundary.inbound_edge || is_empty c.boundary.outbound_edge)) graph_invalid
  ok c.boundary
