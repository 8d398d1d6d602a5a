-- ===== src/Applier/Branch.antt =====
-- The checks of RemoveBranch of src/mutation_applier.cpp, and FindSharedDependencies of
-- src/graph_validator.cpp.
use ge.Prelude.{
  ℕ, zero, suc, Bool, true, false, not, ◌&&◌, Option, none, some, List, [], ◌∷◌, ◌++◌, ◌+◌,
  if◌then◌else◌, Text, text_eq, length,
}
use ge.Graph.{
  EdgeSpec, GraphSpec, graph_invalid, not_found, invalid_argument, shared_dependency, find_node,
  find_edge, is_found,
}
use ge.Graph.Patch.{RemoveBranchAction, entry_edges_of}
use ge.Applier.State.{Result, ok, ◌>>=◌, ◌>>◌, guard, some_or, mem}
use ge.Applier.Chain.{is_nil}

pub record SharedDependency : Type 0 where
  pub node_id : Text
  pub edge_id : Text
  pub external_node : Text

-- The dependency of an edge, by whether it begins and whether it ends in the selection.
unfoldable pub dependency : Bool → Bool → EdgeSpec → List SharedDependency
dependency true false e =
    record { node_id = e.from.node_id; edge_id = e.id; external_node = e.to.node_id } ∷ []
dependency false true e =
    record { node_id = e.to.node_id; edge_id = e.id; external_node = e.from.node_id } ∷ []
dependency true true e = []
dependency false false e = []

unfoldable pub shared_in : List Text → List Text → List EdgeSpec → List SharedDependency
shared_in selection entries [] = []
shared_in selection entries (e ∷ es) =
    (if mem e.id entries
      then []
      else dependency (mem e.from.node_id selection) (mem e.to.node_id selection) e)
    ++ shared_in selection entries es

abbrev pub find_shared_dependencies : GraphSpec → List Text → List Text → List SharedDependency
find_shared_dependencies g selection entries = shared_in selection entries g.edges

-- The stack after the entry edges, its top first.
unfoldable pub enter : GraphSpec → List Text → List Text → List Text → Result (List Text)
enter g selection [] stack = ok stack
enter g selection (id ∷ ids) stack = do
  e ← some_or (find_edge id g) not_found
  guard (mem e.to.node_id selection) graph_invalid
  guard (not (mem e.from.node_id selection)) graph_invalid
  enter g selection ids (e.to.node_id ∷ stack)

unfoldable pub all_found : GraphSpec → List Text → Bool
all_found g [] = true
all_found g (id ∷ ids) = is_found (find_node id g) && all_found g ids

-- The ends in the selection of the edges that leave a node are pushed in the order of the edges.
unfoldable pub push_ends : Text → List Text → List EdgeSpec → List Text → List Text
push_ends n selection [] stack = stack
push_ends n selection (e ∷ es) stack =
    push_ends n selection es (
      if text_eq e.from.node_id n && mem e.to.node_id selection
      then e.to.node_id ∷ stack
      else stack)

-- The nodes reached, if the fuel lasts.
unfoldable pub reach : ℕ → List Text → List EdgeSpec → List Text → List Text → Option (List Text)
reach zero selection es stack reached = none
reach (suc fuel) selection es [] reached = some reached
reach (suc fuel) selection es (n ∷ stack) reached =
    let again : Bool = mem n reached in
    reach fuel selection es (if again then stack else push_ends n selection es stack)
      (if again then reached else n ∷ reached)

-- One round for each node on the stack, one for each edge, and one to see the stack empty.
abbrev pub reach_fuel : List EdgeSpec → List Text → ℕ
reach_fuel es stack = suc (length stack + length es)

unfoldable pub includes : List Text → List Text → Bool
includes [] reached = true
includes (id ∷ ids) reached = mem id reached && includes ids reached

-- What RemoveBranch checks before it removes the selection. The fuel always lasts.
unfoldable pub check_branch : GraphSpec → RemoveBranchAction → Result (Unit {0})
check_branch g a = do
  guard (not (is_nil a.nodes)) graph_invalid
  stack ← enter g a.nodes (entry_edges_of a) []
  guard (all_found g a.nodes) not_found
  reached ← some_or (reach (reach_fuel g.edges stack) a.nodes g.edges stack []) invalid_argument
  guard (includes a.nodes reached) graph_invalid
  guard (is_nil (find_shared_dependencies g a.nodes (entry_edges_of a))) shared_dependency
