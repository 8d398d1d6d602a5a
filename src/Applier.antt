-- ===== src/Applier.antt =====
-- src/mutation_applier.cpp: a patch applied to a copy of a graph, with what it adds, removes and
-- touches. An operation on the candidate gives the changed one or a status; the half-changed candidate
-- of a failed operation is left out, since Apply drops it.
mod State
unfoldable pub use State.*
mod Chain
unfoldable pub use Chain.*
mod Branch
unfoldable pub use Branch.*
pub mod Tracks
pub mod Steps
pub mod Incident
pub mod Nodes
pub mod Sound
pub mod Index
pub mod Reach
pub mod Selection
pub mod Removed
mod Tests
use ge.Prelude.{
  ℕ, Bool, true, false, not, ◌&&◌, ◌||◌, Option, none, some, List, [], ◌∷◌, ◌++◌, ◌+◌, map,
  if◌then◌else◌, Text, text_eq,
}
use ge.Graph.{
  NodeSpec, EdgeSpec, GraphSpec, RemovePolicy, RemoveMode, disconnect, bypass, Status,
  graph_invalid, already_exists, not_found, find_node, find_edge, is_found, is_empty, with_id,
  add_node, add_edge, remove_node, remove_edge, edges_from, edges_to,
}
use ge.Graph.Patch.{
  ChainPorts, PortMapping, RemoveNodeAction, InsertChainAction, RemoveChainAction,
  ReplaceNodeAction, RemoveBranchAction, MutationAction, add_node_action, remove_node_action,
  insert_chain_action, remove_chain_action, replace_node_action, remove_branch_action,
  add_edge_action, remove_edge_action, set_node_options_action, MutationPatch, action_type_name,
}

unfoldable pub touch : Text → List Text → List Text
touch id list = if mem id list then list else list ++ id ∷ []

-- Erases the first.
unfoldable pub erase_id : Text → List Text → List Text
erase_id id [] = []
erase_id id (x ∷ xs) = if text_eq x id then xs else x ∷ erase_id id xs

-- The added and the removed ids after a removal: what the same patch added never existed.
unfoldable pub take_back : Text → List Text → List Text → List Text × List Text
take_back id added removed =
    if mem id added then (erase_id id added, removed) else (added, removed ++ id ∷ [])

unfoldable pub set_policy :
    Text → RemovePolicy → List (Text × RemovePolicy) → List (Text × RemovePolicy)
set_policy id policy [] = (id, policy) ∷ []
set_policy id policy (p ∷ ps) =
    if text_eq p.0 id then (id, policy) ∷ ps else p ∷ set_policy id policy ps

-- AddEdgeTracked: the lists after the addition, and the whole.
unfoldable pub note_edge : EdgeSpec → CandidateSpec → GraphSpec → CandidateSpec
note_edge e out g = record out {
  candidate = g;
  added_edges = out.added_edges ++ e.id ∷ [];
  touched_nodes = touch e.to.node_id (touch e.from.node_id out.touched_nodes);
  touched_edges = touch e.id out.touched_edges;
}

unfoldable pub add_edge_tracked : EdgeSpec → CandidateSpec → Result CandidateSpec
add_edge_tracked e out =
    changed (add_edge (with_id e) out.candidate) >>= λ g. ok (note_edge (with_id e) out g)

-- RemoveEdgeTracked, in the same way.
unfoldable pub note_cut : Text → EdgeSpec → CandidateSpec → GraphSpec → CandidateSpec
note_cut id e out g = record out {
  candidate = g;
  added_edges = (take_back id out.added_edges out.removed_edges).0;
  removed_edges = (take_back id out.added_edges out.removed_edges).1;
  touched_nodes = touch e.to.node_id (touch e.from.node_id out.touched_nodes);
  touched_edges = touch id out.touched_edges;
}

unfoldable pub cut_edge : Text → CandidateSpec → EdgeSpec → Result CandidateSpec
cut_edge id out e = changed (remove_edge id out.candidate) >>= λ g. ok (note_cut id e out g)

unfoldable pub remove_edge_tracked : Text → CandidateSpec → Result CandidateSpec
remove_edge_tracked id out = some_or (find_edge id out.candidate) not_found >>= cut_edge id out

unfoldable pub remove_edges : List Text → CandidateSpec → Result CandidateSpec
remove_edges [] out = ok out
remove_edges (id ∷ ids) out = remove_edge_tracked id out >>= remove_edges ids

unfoldable pub add_edges : List EdgeSpec → CandidateSpec → Result CandidateSpec
add_edges [] out = ok out
add_edges (e ∷ es) out = add_edge_tracked e out >>= add_edges es

-- The ids of the edges that are not in the list yet are pushed.
unfoldable pub push_new : List EdgeSpec → List Text → List Text
push_new [] ids = ids
push_new (e ∷ es) ids = push_new es (if mem e.id ids then ids else ids ++ e.id ∷ [])

abbrev pub incident : Text → GraphSpec → List Text
incident id g = push_new (edges_to id g) (map (λ (e : EdgeSpec). e.id) (edges_from id g))

-- The last part of RemoveNodeWithEdges. The policy is kept for a node that the patch did not add.
unfoldable pub note_drop : Text → RemovePolicy → CandidateSpec → GraphSpec → CandidateSpec
note_drop id policy out g = record out {
  candidate = g;
  added_nodes = (take_back id out.added_nodes out.removed_nodes).0;
  removed_nodes = (take_back id out.added_nodes out.removed_nodes).1;
  node_remove_policy =
      if mem id out.added_nodes
      then out.node_remove_policy
      else set_policy id policy out.node_remove_policy;
  touched_nodes = touch id out.touched_nodes;
}

unfoldable pub drop_node : Text → RemovePolicy → CandidateSpec → Result CandidateSpec
drop_node id policy out =
    changed (remove_node id out.candidate) >>= λ g. ok (note_drop id policy out g)

-- RemoveNodeWithEdges.
unfoldable pub remove_node_with_edges : Text → RemovePolicy → CandidateSpec → Result CandidateSpec
remove_node_with_edges id policy out = do
  guard (is_found (find_node id out.candidate)) not_found
  remove_edges (incident id out.candidate) out >>= drop_node id policy

unfoldable pub remove_nodes : List Text → RemovePolicy → CandidateSpec → Result CandidateSpec
remove_nodes [] policy out = ok out
remove_nodes (id ∷ ids) policy out =
    remove_node_with_edges id policy out >>= remove_nodes ids policy

unfoldable pub note_node : NodeSpec → CandidateSpec → GraphSpec → CandidateSpec
note_node n out g = record out { candidate = g; added_nodes = out.added_nodes ++ n.id ∷ [] }

unfoldable pub place_node : NodeSpec → CandidateSpec → Result CandidateSpec
place_node n out = changed (add_node n out.candidate) >>= λ g. ok (note_node n out g)

unfoldable pub touch_node : Text → CandidateSpec → CandidateSpec
touch_node id out = record out { touched_nodes = touch id out.touched_nodes }

unfoldable pub add_node_tracked : NodeSpec → CandidateSpec → Result CandidateSpec
add_node_tracked n out = place_node n out >>= λ c. ok (touch_node n.id c)

unfoldable pub add_nodes : List NodeSpec → CandidateSpec → Result CandidateSpec
add_nodes [] out = ok out
add_nodes (n ∷ ns) out = add_node_tracked n out >>= add_nodes ns

-- InsertChain.
unfoldable pub any_found : List NodeSpec → GraphSpec → Bool
any_found [] g = false
any_found (n ∷ ns) g = is_found (find_node n.id g) || any_found ns g

unfoldable pub insert_stops :
    EdgeSpec → List NodeSpec → List ChainStop → CandidateSpec → Result CandidateSpec
insert_stops old nodes stops out = do
  cut ← remove_edge_tracked old.id out
  more ← add_nodes nodes cut
  add_edges (chain_edges old stops) more

unfoldable pub insert_at :
    CapabilityResolver → InsertChainAction → CandidateSpec → EdgeSpec → Result CandidateSpec
insert_at resolver a out old = do
  guard (not (any_found a.nodes out.candidate)) already_exists
  stops ← chain_stops resolver a.ports true a.nodes
  insert_stops old a.nodes stops out

unfoldable pub insert_chain :
    CapabilityResolver → InsertChainAction → CandidateSpec → Result CandidateSpec
insert_chain resolver a out = do
  guard (not (is_nil a.nodes)) graph_invalid
  some_or (find_edge a.edge out.candidate) not_found >>= insert_at resolver a out

-- RemoveChain. The boundary names edges of the graph.
unfoldable pub bypass_at :
    List Text → RemovePolicy → CandidateSpec → EdgeSpec → EdgeSpec → Result CandidateSpec
bypass_at chain policy out before after =
    remove_nodes chain policy out >>= add_edge_tracked (bypass_edge before after)

unfoldable pub bypass_chain : List Text → RemovePolicy → CandidateSpec → Result CandidateSpec
bypass_chain chain policy out = do
  boundary ← check_linear_chain out.candidate chain
  before ← some_or (find_edge boundary.inbound_edge out.candidate) not_found
  after ← some_or (find_edge boundary.outbound_edge out.candidate) not_found
  bypass_at chain policy out before after

unfoldable pub remove_chain :
    RemoveChainAction → RemovePolicy → CandidateSpec → Result CandidateSpec
remove_chain a policy out = do
  guard (not (is_nil a.nodes)) graph_invalid
  elim a.mode [
    | disconnect ↦ remove_nodes a.nodes policy out
    | bypass ↦ bypass_chain a.nodes policy out
  ]

-- ReplaceNode.
unfoldable pub replacement : ReplaceNodeAction → NodeSpec → NodeSpec
replacement a old = record old { op = a.replacement_op; options = a.replacement_options }

unfoldable pub swap_node :
    ReplaceNodeAction
    → RemovePolicy
    → CandidateSpec
    → NodeSpec
    → List EdgeSpec
    → List EdgeSpec
    → Result CandidateSpec
swap_node a policy out old incoming outgoing = do
  cut ← remove_node_with_edges a.node policy out
  placed ← place_node (replacement a old) cut
  add_edges incoming placed >>= add_edges outgoing

unfoldable pub replace_node :
    CapabilityResolver → ReplaceNodeAction → RemovePolicy → CandidateSpec → Result CandidateSpec
replace_node resolver a policy out = do
  old ← some_or (find_node a.node out.candidate) not_found
  incoming ← map_incoming resolver a (edges_to a.node out.candidate)
  outgoing ← map_outgoing resolver a (edges_from a.node out.candidate)
  swap_node a policy out old incoming outgoing

-- RemoveBranch.
unfoldable pub remove_branch :
    RemoveBranchAction → RemovePolicy → CandidateSpec → Result CandidateSpec
remove_branch a policy out = do check_branch out.candidate a; remove_nodes a.nodes policy out

-- ApplyOne.
abbrev pub value_or : Option RemovePolicy → RemovePolicy → RemovePolicy
value_or none policy = policy
value_or (some p) policy = p

unfoldable pub remove_single :
    RemoveNodeAction → RemovePolicy → CandidateSpec → Result CandidateSpec
remove_single a policy out = elim a.mode [
  | bypass ↦
      remove_chain (record { nodes = a.node ∷ []; mode = a.mode; remove_policy = a.remove_policy })
        policy out
  | disconnect ↦ remove_node_with_edges a.node policy out
]

unfoldable pub set_node_options : Text → ℕ → CandidateSpec → Result CandidateSpec
set_node_options id parameters out = do
  guard (is_found (find_node id out.candidate)) not_found
  ok (
      touch_node id
        (record out { parameter_updates = out.parameter_updates ++ (id, parameters) ∷ [] }))

unfoldable pub apply_one :
    CapabilityResolver → RemovePolicy → MutationAction → CandidateSpec → Result CandidateSpec
apply_one resolver policy (add_node_action n) out = add_node_tracked n out
apply_one resolver policy (remove_node_action a) out =
    remove_single a (value_or a.remove_policy policy) out
apply_one resolver policy (insert_chain_action a) out = insert_chain resolver a out
apply_one resolver policy (remove_chain_action a) out =
    remove_chain a (value_or a.remove_policy policy) out
apply_one resolver policy (replace_node_action a) out =
    replace_node resolver a (value_or a.remove_policy policy) out
apply_one resolver policy (remove_branch_action a) out =
    remove_branch a (value_or a.remove_policy policy) out
apply_one resolver policy (add_edge_action e) out = add_edge_tracked e out
apply_one resolver policy (remove_edge_action id) out = remove_edge_tracked id out
apply_one resolver policy (set_node_options_action id parameters) out =
    set_node_options id parameters out

-- What Apply gives: the candidate, or the failed action with its place and its status.
pub data Applied : Type 0 where
  applied : CandidateSpec → Applied
  no_actions : Applied
  failed : ℕ → MutationAction → Status → Applied

unfoldable pub apply_from :
    CapabilityResolver → RemovePolicy → ℕ → List MutationAction → CandidateSpec → Applied
apply_from resolver policy index [] out = applied out
apply_from resolver policy index (a ∷ rest) out = elim (apply_one resolver policy a out) [
  | ok next ↦ apply_from resolver policy (index + 1) rest next
  | err s ↦ failed index a s
]

unfoldable pub start : GraphSpec → CandidateSpec
start base = record {
  candidate = base;
  added_nodes = [];
  removed_nodes = [];
  added_edges = [];
  removed_edges = [];
  node_remove_policy = [];
  parameter_updates = [];
  touched_nodes = [];
  touched_edges = [];
}

unfoldable pub apply_patch : CapabilityResolver → GraphSpec → MutationPatch → Applied
apply_patch resolver base patch =
    if is_nil patch.actions
    then no_actions
    else apply_from resolver patch.remove_policy 0 patch.actions (start base)
