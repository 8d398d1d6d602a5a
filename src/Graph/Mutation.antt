-- ===== src/Graph/Mutation.antt =====
-- Sequences of calls of the builder Mutation of src/graph_spec.cpp.
use ge.Prelude.{ℕ, ◌≡◌, refl, sym, ap, ◌∙◌, Option, none, some, List, [], ◌∷◌, ◌++◌, Text, Bool}
use mathlib.Core.List.{append-nil, append_assoc}
use ge.Graph.{NodeSpec, PortRef, OperatorKey, RemovePolicy, drain, disconnect}
use ge.Graph.Builder.{EdgeOptions, edge_of_options}
use ge.Graph.Patch.{
  ChainPorts, PortMapping, MutationAction, add_node_action, remove_node_action, insert_chain_action,
  remove_chain_action, replace_node_action, remove_branch_action, add_edge_action,
  remove_edge_action, set_node_options_action, MutationPatch, empty_patch, set_base_version,
  set_remove_policy, patch_add_node, patch_insert_chain, patch_remove_node, patch_remove_chain,
  patch_replace_node, patch_remove_branch, patch_add_edge, patch_remove_edge,
  patch_set_node_options, branch_of_edge, branch_of_edges, mode_of,
}

pub data Call : Type 0 where
  sets_base_version : ℕ → Call
  sets_remove_policy : RemovePolicy → Call
  adds_node : NodeSpec → Call
  inserts_chain : Text → List NodeSpec → ChainPorts → Call
  removes_node : Text → Option RemovePolicy → Call
  removes_chain : List Text → Bool → Option RemovePolicy → Call
  replaces_node : Text → OperatorKey → ℕ → Option PortMapping → Option RemovePolicy → Call
  removes_branch : Text → List Text → Option RemovePolicy → Call
  removes_branches : List Text → List Text → Option RemovePolicy → Call
  adds_edge : PortRef → PortRef → EdgeOptions → Call
  removes_edge : Text → Call
  sets_node_options : Text → ℕ → Call

abbrev pub apply : Call → MutationPatch → MutationPatch
apply (sets_base_version v) p = set_base_version v p
apply (sets_remove_policy r) p = set_remove_policy r p
apply (adds_node n) p = patch_add_node n p
apply (inserts_chain edge chain ports) p = patch_insert_chain edge chain ports p
apply (removes_node node policy) p = patch_remove_node node policy p
apply (removes_chain chain bypassed policy) p = patch_remove_chain chain bypassed policy p
apply (replaces_node node op options mapping policy) p =
    patch_replace_node node op options mapping policy p
apply (removes_branch entry nodes policy) p =
    patch_remove_branch (branch_of_edge entry nodes policy) p
apply (removes_branches entries nodes policy) p =
    patch_remove_branch (branch_of_edges entries nodes policy) p
apply (adds_edge from to options) p = patch_add_edge from to options p
apply (removes_edge edge) p = patch_remove_edge edge p
apply (sets_node_options node parameters) p = patch_set_node_options node parameters p

unfoldable pub apply_all : List Call → MutationPatch → MutationPatch
apply_all [] p = p
apply_all (c ∷ cs) p = apply_all cs (apply c p)

-- What the calls ask for: the action of a call, and the last version and policy that were set.
abbrev pub action_of : Call → List MutationAction
action_of (sets_base_version v) = []
action_of (sets_remove_policy r) = []
action_of (adds_node n) = add_node_action n ∷ []
action_of (inserts_chain edge chain ports) =
    insert_chain_action (record { edge = edge; nodes = chain; ports = ports }) ∷ []
action_of (removes_node node policy) =
    remove_node_action (record { node = node; mode = disconnect; remove_policy = policy }) ∷ []
action_of (removes_chain chain bypassed policy) =
    remove_chain_action (record { nodes = chain; mode = mode_of bypassed; remove_policy = policy })
    ∷ []
action_of (replaces_node node op options mapping policy) =
    replace_node_action (record {
      node = node;
      replacement_op = op;
      replacement_options = options;
      port_mapping = mapping;
      remove_policy = policy;
    })
    ∷ []
action_of (removes_branch entry nodes policy) =
    remove_branch_action (branch_of_edge entry nodes policy) ∷ []
action_of (removes_branches entries nodes policy) =
    remove_branch_action (branch_of_edges entries nodes policy) ∷ []
action_of (adds_edge from to options) = add_edge_action (edge_of_options from to options) ∷ []
action_of (removes_edge edge) = remove_edge_action edge ∷ []
action_of (sets_node_options node parameters) = set_node_options_action node parameters ∷ []

abbrev pub base_after : Call → Option ℕ → Option ℕ
base_after (sets_base_version v) b = some v
base_after _ b = b

abbrev pub policy_after : Call → RemovePolicy → RemovePolicy
policy_after (sets_remove_policy r) q = r
policy_after _ q = q

unfoldable pub actions_of : List Call → List MutationAction
actions_of [] = []
actions_of (c ∷ cs) = action_of c ++ actions_of cs

unfoldable pub last_base : List Call → Option ℕ → Option ℕ
last_base [] b = b
last_base (c ∷ cs) b = last_base cs (base_after c b)

unfoldable pub last_policy : List Call → RemovePolicy → RemovePolicy
last_policy [] q = q
last_policy (c ∷ cs) q = last_policy cs (policy_after c q)

abbrev pub patch_with : Option ℕ → RemovePolicy → List MutationAction → MutationPatch
patch_with b q acts = record { base_topology_version = b; remove_policy = q; actions = acts }

apply_one :
    (c : Call) (p : MutationPatch)
    → apply c p
      ≡ patch_with
          (base_after c p.base_topology_version)
          (policy_after c p.remove_policy)
          (p.actions ++ action_of c)
unfolding set_base_version set_remove_policy patch_add_node patch_insert_chain patch_remove_node
    patch_remove_chain patch_replace_node patch_remove_branch patch_add_edge patch_remove_edge
    patch_set_node_options
apply_one (sets_base_version v) p =
    ap (patch_with (some v) p.remove_policy) (sym (append-nil p.actions))
apply_one (sets_remove_policy r) p =
    ap (patch_with p.base_topology_version r) (sym (append-nil p.actions))
apply_one (adds_node n) p = refl
apply_one (inserts_chain edge chain ports) p = refl
apply_one (removes_node node policy) p = refl
apply_one (removes_chain chain bypassed policy) p = refl
apply_one (replaces_node node op options mapping policy) p = refl
apply_one (removes_branch entry nodes policy) p = refl
apply_one (removes_branches entries nodes policy) p = refl
apply_one (adds_edge from to options) p = refl
apply_one (removes_edge edge) p = refl
apply_one (sets_node_options node parameters) p = refl

apply_from :
    (cs : List Call) (p : MutationPatch)
    → apply_all cs p
      ≡ patch_with
          (last_base cs p.base_topology_version)
          (last_policy cs p.remove_policy)
          (p.actions ++ actions_of cs)
unfolding apply_all actions_of last_base last_policy
apply_from [] p =
    ap (patch_with p.base_topology_version p.remove_policy) (sym (append-nil p.actions))
apply_from (c ∷ cs) p =
    ap (apply_all cs) (apply_one c p)
    ∙ apply_from cs (
        patch_with (base_after c p.base_topology_version) (policy_after c p.remove_policy)
          (p.actions ++ action_of c))
    ∙ ap
        (patch_with (last_base cs (base_after c p.base_topology_version))
          (last_policy cs (policy_after c p.remove_policy)))
        (append_assoc p.actions (action_of c) (actions_of cs))

-- The patch that a Mutation builds after any calls has the actions of the calls in their order, the
-- base version that was set last, if one was set, and the removal policy that was set last, or drain.
pub apply_all_in_order :
    (cs : List Call)
    → apply_all cs empty_patch
      ≡ patch_with (last_base cs none) (last_policy cs drain) (actions_of cs)
unfolding empty_patch
apply_all_in_order cs = apply_from cs empty_patch
