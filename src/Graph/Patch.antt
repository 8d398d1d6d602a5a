-- ===== src/Graph/Patch.antt =====
-- Mutation patches of src/graph_spec.cpp and include/ge/cpp/graph_spec.h, and the builder Mutation.
use ge.Prelude.{
  ℕ, ◌≡◌, refl, sym, ap, ◌∙◌, Bool, true, false, Option, none, some, List, [], ◌∷◌, ◌++◌, Text,
  codes, text_eq, if◌then◌else◌,
}
use ge.Graph.{
  NodeSpec, EdgeSpec, PortRef, OperatorKey, RemoveMode, disconnect, bypass, RemovePolicy, drain,
}
use ge.Graph.Builder.{EdgeOptions, edge_of_options}

pub record ChainPorts : Type 0 where
  pub chain_input : Option Text
  pub chain_output : Option Text

-- From the old port names to the new ones.
pub record PortMapping : Type 0 where
  pub inputs : List (Text × Text)
  pub outputs : List (Text × Text)

-- Options and parameters are only passed along: a number names each.
pub record RemoveNodeAction : Type 0 where
  pub node : Text
  pub mode : RemoveMode
  pub remove_policy : Option RemovePolicy

pub record InsertChainAction : Type 0 where
  pub edge : Text
  pub nodes : List NodeSpec
  pub ports : ChainPorts

pub record RemoveChainAction : Type 0 where
  pub nodes : List Text
  pub mode : RemoveMode
  pub remove_policy : Option RemovePolicy

pub record ReplaceNodeAction : Type 0 where
  pub node : Text
  pub replacement_op : OperatorKey
  pub replacement_options : ℕ
  pub port_mapping : Option PortMapping
  pub remove_policy : Option RemovePolicy

pub record RemoveBranchAction : Type 0 where
  pub entry_edge : Text
  pub nodes : List Text
  pub remove_policy : Option RemovePolicy
  pub entry_edges : List Text

pub data MutationAction : Type 0 where
  add_node_action : NodeSpec → MutationAction
  remove_node_action : RemoveNodeAction → MutationAction
  insert_chain_action : InsertChainAction → MutationAction
  remove_chain_action : RemoveChainAction → MutationAction
  replace_node_action : ReplaceNodeAction → MutationAction
  remove_branch_action : RemoveBranchAction → MutationAction
  add_edge_action : EdgeSpec → MutationAction
  remove_edge_action : Text → MutationAction
  set_node_options_action : Text → ℕ → MutationAction

unfoldable pub action_type_name : MutationAction → Text
action_type_name (add_node_action n) = codes "add_node"
action_type_name (remove_node_action a) = codes "remove_node"
action_type_name (insert_chain_action a) = codes "insert_chain"
action_type_name (remove_chain_action a) = codes "remove_chain"
action_type_name (replace_node_action a) = codes "replace_node"
action_type_name (remove_branch_action a) = codes "remove_branch"
action_type_name (add_edge_action e) = codes "add_edge"
action_type_name (remove_edge_action id) = codes "remove_edge"
action_type_name (set_node_options_action id parameters) = codes "set_node_options"

-- EntryEdges.
unfoldable pub entry_edges_of : RemoveBranchAction → List Text
entry_edges_of a = elim a.entry_edges [ [] ↦ a.entry_edge ∷ [] | e ∷ es ↦ e ∷ es ]

pub record MutationPatch : Type 0 where
  pub base_topology_version : Option ℕ
  pub remove_policy : RemovePolicy
  pub actions : List MutationAction

unfoldable pub empty_patch : MutationPatch
empty_patch = record { base_topology_version = none; remove_policy = drain; actions = [] }

abbrev pub add_action : MutationAction → MutationPatch → MutationPatch
add_action a p = record p { actions = p.actions ++ a ∷ [] }

unfoldable pub set_base_version : ℕ → MutationPatch → MutationPatch
set_base_version v p = record p { base_topology_version = some v }

unfoldable pub set_remove_policy : RemovePolicy → MutationPatch → MutationPatch
set_remove_policy r p = record p { remove_policy = r }

unfoldable pub patch_add_node : NodeSpec → MutationPatch → MutationPatch
patch_add_node n p = add_action (add_node_action n) p

unfoldable pub patch_insert_chain :
    Text → List NodeSpec → ChainPorts → MutationPatch → MutationPatch
patch_insert_chain edge chain ports p =
    add_action (insert_chain_action (record { edge = edge; nodes = chain; ports = ports })) p

unfoldable pub patch_remove_node : Text → Option RemovePolicy → MutationPatch → MutationPatch
patch_remove_node node policy p =
    add_action
      (remove_node_action (record { node = node; mode = disconnect; remove_policy = policy })) p

abbrev pub mode_of : Bool → RemoveMode
mode_of true = bypass
mode_of false = disconnect

unfoldable pub patch_remove_chain :
    List Text → Bool → Option RemovePolicy → MutationPatch → MutationPatch
patch_remove_chain chain bypassed policy p =
    add_action
      (remove_chain_action
        (record { nodes = chain; mode = mode_of bypassed; remove_policy = policy }))
      p

unfoldable pub patch_replace_node :
    Text
    → OperatorKey
    → ℕ
    → Option PortMapping
    → Option RemovePolicy
    → MutationPatch
    → MutationPatch
patch_replace_node old_node replacement options mapping policy p =
    add_action
      (replace_node_action (record {
        node = old_node;
        replacement_op = replacement;
        replacement_options = options;
        port_mapping = mapping;
        remove_policy = policy;
      }))
      p

unfoldable pub branch_of_edge : Text → List Text → Option RemovePolicy → RemoveBranchAction
branch_of_edge entry nodes policy = record {
  entry_edge = entry;
  nodes = nodes;
  remove_policy = policy;
  entry_edges = [];
}

abbrev first_or_empty : List Text → Text
first_or_empty [] = []
first_or_empty (e ∷ es) = e

unfoldable pub branch_of_edges : List Text → List Text → Option RemovePolicy → RemoveBranchAction
branch_of_edges entries nodes policy = record {
  entry_edge = first_or_empty entries;
  nodes = nodes;
  remove_policy = policy;
  entry_edges = entries;
}

unfoldable pub patch_remove_branch : RemoveBranchAction → MutationPatch → MutationPatch
patch_remove_branch a p = add_action (remove_branch_action a) p

unfoldable pub patch_add_edge : PortRef → PortRef → EdgeOptions → MutationPatch → MutationPatch
patch_add_edge from to options p = add_action (add_edge_action (edge_of_options from to options)) p

unfoldable pub patch_remove_edge : Text → MutationPatch → MutationPatch
patch_remove_edge edge p = add_action (remove_edge_action edge) p

unfoldable pub patch_set_node_options : Text → ℕ → MutationPatch → MutationPatch
patch_set_node_options node parameters p = add_action (set_node_options_action node parameters) p

-- The name of an action tells its kind: the place of the kind in the variant.
abbrev pub kind_of : MutationAction → ℕ
kind_of (add_node_action n) = 0
kind_of (remove_node_action a) = 1
kind_of (insert_chain_action a) = 2
kind_of (remove_chain_action a) = 3
kind_of (replace_node_action a) = 4
kind_of (remove_branch_action a) = 5
kind_of (add_edge_action e) = 6
kind_of (remove_edge_action id) = 7
kind_of (set_node_options_action id parameters) = 8

abbrev pub kind_named : Text → ℕ
kind_named t =
    if text_eq t (codes "add_node")
    then 0
    else if text_eq t (codes "remove_node")
    then 1
    else if text_eq t (codes "insert_chain")
    then 2
    else if text_eq t (codes "remove_chain")
    then 3
    else if text_eq t (codes "replace_node")
    then 4
    else if text_eq t (codes "remove_branch")
    then 5
    else if text_eq t (codes "add_edge")
    then 6
    else if text_eq t (codes "remove_edge")
    then 7
    else 8

kind_named-action_type_name : (a : MutationAction) → kind_named (action_type_name a) ≡ kind_of a
unfolding action_type_name text_eq
kind_named-action_type_name (add_node_action n) = refl
kind_named-action_type_name (remove_node_action a) = refl
kind_named-action_type_name (insert_chain_action a) = refl
kind_named-action_type_name (remove_chain_action a) = refl
kind_named-action_type_name (replace_node_action a) = refl
kind_named-action_type_name (remove_branch_action a) = refl
kind_named-action_type_name (add_edge_action e) = refl
kind_named-action_type_name (remove_edge_action id) = refl
kind_named-action_type_name (set_node_options_action id parameters) = refl

-- Two actions with the same type name are of the same kind.
pub same_type_name :
    (a b : MutationAction) → action_type_name a ≡ action_type_name b → kind_of a ≡ kind_of b
same_type_name a b e =
    sym (kind_named-action_type_name a) ∙ ap kind_named e ∙ kind_named-action_type_name b
