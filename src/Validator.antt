-- ===== src/Validator.antt =====
-- GraphValidator::Validate of src/graph_validator.cpp, but for the negotiation of contracts: the checks
-- of Checks, a topological order of the nodes, the nodes on cycles, the sources and the sinks.
mod State
pub use State.*
mod Checks
unfoldable pub use Checks.*
pub mod Relax
pub mod Order
pub mod Sorted
pub mod Cycles
pub mod Accepted
pub mod Fits
mod Tests
use ge.Prelude.{
  ℕ, zero, suc, Bool, true, false, not, ◌&&◌, ◌||◌, Option, none, some, List, [], ◌∷◌, ◌++◌, ◌+◌,
  ◌-◌, ◌^◌, map, ltb, ◌==◌, if◌then◌else◌, length, Text, text_eq,
}
use ge.Graph.{NodeSpec, EdgeSpec, GraphSpec, find_in, is_found}
use ge.Applier.{place_of, is_nil, CapabilityResolver}

abbrev pub node_ids : List NodeSpec → List Text
node_ids ns = map (λ (n : NodeSpec). n.id) ns

-- The edges that the order follows.
unfoldable pub is_ordering : List NodeSpec → EdgeSpec → Bool
is_ordering ns e = not (
    e.feedback
    || not (is_found (find_in e.from.node_id ns))
    || not (is_found (find_in e.to.node_id ns)))

unfoldable pub in_degree : List NodeSpec → Text → List EdgeSpec → ℕ
in_degree ns id [] = 0
in_degree ns id (e ∷ es) =
    (if is_ordering ns e && text_eq e.to.node_id id then 1 else 0) + in_degree ns id es

-- The ends of the edges out of a node, in the order of the edges.
unfoldable pub successors : List NodeSpec → Text → List EdgeSpec → List Text
successors ns id [] = []
successors ns id (e ∷ es) =
    if is_ordering ns e && text_eq e.from.node_id id
    then e.to.node_id ∷ successors ns id es
    else successors ns id es

-- The decrement of a size_t.
abbrev pub decr64 : ℕ → ℕ
decr64 zero = 2 ^ 64 - 1
decr64 (suc n) = n

unfoldable pub update : Text → ℕ → (Text → ℕ) → Text → ℕ
update id n degree x = if text_eq id x then n else degree x

-- The nodes that an edge out of the taken node leads to: one that has no other edge left is ready.
unfoldable pub relax : List Text → (Text → ℕ) → List Text → (Text → ℕ) × List Text
relax [] degree ready = (degree, ready)
relax (id ∷ ids) degree ready =
    let left : ℕ = decr64 (degree id) in
    relax ids (update id left degree) (if left == 0 then id ∷ ready else ready)

-- The heap: the ready node that stands first in the graph, and the others.
unfoldable pub take_first : (Text → ℕ) → Text → List Text → Text × List Text
take_first rank x [] = (x, [])
take_first rank x (y ∷ ys) =
    let sooner : Bool = ltb (rank y) (rank x) in
    let rest : Text × List Text = take_first rank (if sooner then y else x) ys in
    (rest.0, (if sooner then x else y) ∷ rest.1)

unfoldable pub roots : List NodeSpec → List EdgeSpec → List NodeSpec → List Text
roots ns es [] = []
roots ns es (n ∷ rest) =
    if in_degree ns n.id es == 0 then n.id ∷ roots ns es rest else roots ns es rest

-- The order and the degrees that are left, if the fuel lasts.
unfoldable pub sort_nodes :
    ℕ
    → List NodeSpec
    → List EdgeSpec
    → (Text → ℕ)
    → List Text
    → List Text
    → Option (List Text × (Text → ℕ))
sort_nodes zero ns es degree ready order = none
sort_nodes (suc fuel) ns es degree [] order = some (order, degree)
sort_nodes (suc fuel) ns es degree (x ∷ xs) order =
    let first : Text × List Text = take_first (λ id. place_of id (node_ids ns)) x xs in
    let next : (Text → ℕ) × List Text = relax (successors ns first.0 es) degree first.1 in
    sort_nodes fuel ns es next.0 next.1 (order ++ first.0 ∷ [])

-- One round for each node, and one to see that none is ready.
unfoldable pub topological_order : GraphSpec → Option (List Text × (Text → ℕ))
topological_order g =
    sort_nodes (suc (length g.nodes)) g.nodes g.edges (λ id. in_degree g.nodes id g.edges)
      (roots g.nodes g.edges g.nodes) []

unfoldable pub nodes_left : (Text → ℕ) → List NodeSpec → List Text
nodes_left degree [] = []
nodes_left degree (n ∷ ns) =
    if degree n.id == 0 then nodes_left degree ns else n.id ∷ nodes_left degree ns

-- The nodes that the issue of a cycle names, if there is the issue.
unfoldable pub cycle_issue : List NodeSpec → List Text × (Text → ℕ) → Option (List Text)
cycle_issue ns r = if length r.0 == length ns then none else some (nodes_left r.1 ns)

-- The nodes that no edge but a feedback edge enters, and those that no edge leaves.
unfoldable pub has_in : Text → List EdgeSpec → Bool
has_in id [] = false
has_in id (e ∷ es) = (text_eq e.to.node_id id && not e.feedback) || has_in id es

unfoldable pub has_out : Text → List EdgeSpec → Bool
has_out id [] = false
has_out id (e ∷ es) = text_eq e.from.node_id id || has_out id es

unfoldable pub sources : List EdgeSpec → List NodeSpec → List Text
sources es [] = []
sources es (n ∷ ns) = if has_in n.id es then sources es ns else n.id ∷ sources es ns

unfoldable pub sinks : List EdgeSpec → List NodeSpec → List Text
sinks es [] = []
sinks es (n ∷ ns) = if has_out n.id es then sinks es ns else n.id ∷ sinks es ns

-- What Validate gives before the negotiation: the issues, or the order, the sources and the sinks.
pub data Validated : Type 0 where
  issues_found : List ValidationIssue → Validated
  structure_fits : List Text → List Text → List Text → Validated

abbrev pub issues_of_cycle : Option (List Text) → List ValidationIssue
issues_of_cycle none = []
issues_of_cycle (some []) = invalid_node [] ∷ []
issues_of_cycle (some (id ∷ ids)) = invalid_node id ∷ []

unfoldable pub accept : GraphSpec → List ValidationIssue → List Text → Validated
accept g [] order = structure_fits order (sources g.edges g.nodes) (sinks g.edges g.nodes)
accept g (i ∷ is) order = issues_found (i ∷ is)

-- The fuel of the order lasts for a graph whose ids are distinct.
unfoldable pub sort_checked :
    GraphSpec → List ValidationIssue → Option (List Text × (Text → ℕ)) → Validated
sort_checked g found none = issues_found found
sort_checked g found (some r) = accept g (found ++ issues_of_cycle (cycle_issue g.nodes r)) r.0

unfoldable pub check_ports : Bool → GraphSpec → List NodeInfo → Bool × EdgeChecks → Validated
check_ports fail_fast g infos (true, e) = issues_found e.issues
check_ports fail_fast g infos (false, e) =
    let found : List ValidationIssue = e.issues ++ port_issues e infos in
    if fail_fast && not (is_nil found)
    then issues_found found
    else sort_checked g found (topological_order g)

unfoldable pub check_edges : Bool → GraphSpec → Bool × NodeChecks → Validated
check_edges fail_fast g (true, n) = issues_found n.issues
check_edges fail_fast g (false, n) = check_ports fail_fast g n.infos (
    check_edge_specs n.infos fail_fast g.edges
      (record { edge_ids = []; outputs = []; inputs = []; issues = n.issues }))

unfoldable pub validate : CapabilityResolver → Bool → GraphSpec → Validated
validate resolver fail_fast g = check_edges fail_fast g (
    check_infos resolver fail_fast g.nodes
      (record { infos = []; issues = issue_if (is_nil g.nodes) (invalid_node []) }))
