-- ===== src/Applier/Sound.antt =====
-- Whole actions and patches of src/mutation_applier.cpp.
use ge.Prelude.{
  ℕ, ◌+◌, ◌≡◌, sym, ap, ◌∙◌, subst, true, false, not, ◌++◌, Option, none, some, List, [], ◌∷◌, Text,
  arith, Bool-cases, inl, inr, if◌then◌else◌,
}
use ge.Graph.{
  NodeSpec, EdgeSpec, GraphSpec, RemovePolicy, disconnect, bypass, find_node, find_edge, is_found,
  not_found, graph_invalid, already_exists, RemoveMode, edges_to, edges_from,
}
use ge.Graph.Edits.{IsValid}
use ge.Graph.Patch.{
  RemoveNodeAction, InsertChainAction, RemoveChainAction, ReplaceNodeAction, RemoveBranchAction,
  MutationAction, add_node_action, remove_node_action, insert_chain_action, remove_chain_action,
  replace_node_action, remove_branch_action, add_edge_action, remove_edge_action,
  set_node_options_action, MutationPatch,
}
use ge.Applier.{
  insert_at, bypass_at, swap_node, check_linear_chain, check_branch, map_incoming, map_outgoing,
  any_found, chain_stops, Result, ok, err, ◌>>=◌, ◌>>◌, guard, some_or, CandidateSpec,
  CapabilityResolver, ChainStop, chain_edges, add_edge_tracked, cut_edge, remove_edge_tracked,
  add_edges, remove_node_with_edges, remove_nodes, place_node, add_node_tracked, add_nodes,
  insert_stops, insert_chain, bypass_chain, remove_chain, replace_node, remove_branch,
  remove_single, replacement, bypass_edge, value_or, set_node_options, touch_node, apply_one,
  Applied, applied, no_actions, failed, apply_from, apply_patch, start, is_nil,
}
use ge.Applier.Tracks.{Tracks-start}
use ge.Applier.Steps.{
  Holds, Holds-bind, Holds-any, IsTracked, node_there, edge_there, add_edge_tracked-Holds,
  place_node-Holds, add_node_tracked-Holds, remove_edge_tracked_lem,
}
use ge.Applier.Nodes.{remove_node_with_edges-Holds}

missing :
    (base : GraphSpec) (id : Text) (out : CandidateSpec) (o : Option EdgeSpec)
    → is_found o ≡ false
    → Holds (IsTracked base) (some_or o not_found >>= cut_edge id out)
missing base id out none h = tt
missing base id out (some e) h = absurd (cc)

applied_injective : (out result : CandidateSpec) → applied out ≡ applied result → out ≡ result
applied_injective out result e =
    ap (λ (r : Applied). elim r [ applied c ↦ c | no_actions ↦ out | failed i a s ↦ out ]) e

module _ (base : GraphSpec) where
  abbrev Keeps : (CandidateSpec → Result CandidateSpec) → Type 0
  Keeps f = (out : CandidateSpec) → IsTracked base out → Holds (IsTracked base) (f out)

  Keeps-bind :
      (m : Result CandidateSpec) (f : CandidateSpec → Result CandidateSpec)
      → Holds (IsTracked base) m
      → Keeps f
      → Holds (IsTracked base) (m >>= f)
  Keeps-bind m f h k = Holds-bind (IsTracked base) (IsTracked base) m f h k

  remove_edge_tracked-Holds : (id : Text) → Keeps (remove_edge_tracked id)
  unfolding remove_edge_tracked
  remove_edge_tracked-Holds id out t = elim (Bool-cases (edge_there out.candidate id)) [
    | inl h ↦
        let (cut, p, rest) = remove_edge_tracked_lem base id out t h in
        subst (Holds (IsTracked base)) (sym p) rest.0
    | inr h ↦ missing base id out (find_edge id out.candidate) h
  ]

  add_edges-Holds : (es : List EdgeSpec) → Keeps (add_edges es)
  unfolding add_edges
  add_edges-Holds [] out t = t
  add_edges-Holds (e ∷ es) out t =
      Keeps-bind (add_edge_tracked e out) (add_edges es) (add_edge_tracked-Holds base e out t)
        (add_edges-Holds es)

  add_nodes-Holds : (ns : List NodeSpec) → Keeps (add_nodes ns)
  unfolding add_nodes
  add_nodes-Holds [] out t = t
  add_nodes-Holds (n ∷ ns) out t =
      Keeps-bind (add_node_tracked n out) (add_nodes ns) (add_node_tracked-Holds base n out t)
        (add_nodes-Holds ns)

  remove_nodes-Holds : (ids : List Text) (policy : RemovePolicy) → Keeps (remove_nodes ids policy)
  unfolding remove_nodes
  remove_nodes-Holds [] policy out t = t
  remove_nodes-Holds (id ∷ ids) policy out t =
      Keeps-bind (remove_node_with_edges id policy out) (remove_nodes ids policy)
        (remove_node_with_edges-Holds base id policy out t) (remove_nodes-Holds ids policy)

  insert_stops-Holds :
      (old : EdgeSpec) (ns : List NodeSpec) (stops : List ChainStop)
      → Keeps (insert_stops old ns stops)
  unfolding insert_stops
  insert_stops-Holds old ns stops out t =
      Keeps-bind (remove_edge_tracked old.id out)
        (λ c. add_nodes ns c >>= add_edges (chain_edges old stops))
        (remove_edge_tracked-Holds old.id out t)
        (λ c h.
          Keeps-bind (add_nodes ns c) (add_edges (chain_edges old stops)) (add_nodes-Holds ns c h)
            (add_edges-Holds (chain_edges old stops)))

  insert_at-Holds :
      (resolver : CapabilityResolver) (a : InsertChainAction) (out : CandidateSpec) (old : EdgeSpec)
      → IsTracked base out
      → Holds (IsTracked base) (insert_at resolver a out old)
  unfolding insert_at
  insert_at-Holds resolver a out old t =
      let stops : Result (List ChainStop) = chain_stops resolver a.ports true a.nodes in
      Holds-any (IsTracked base) (guard (not (any_found a.nodes out.candidate)) already_exists)
        (λ x. stops >>= λ s. insert_stops old a.nodes s out)
        (λ x.
          Holds-any (IsTracked base) stops (λ s. insert_stops old a.nodes s out)
            (λ s. insert_stops-Holds old a.nodes s out t))

  insert_chain-Holds :
      (resolver : CapabilityResolver) (a : InsertChainAction) → Keeps (insert_chain resolver a)
  unfolding insert_chain
  insert_chain-Holds resolver a out t =
      let old : Result EdgeSpec = some_or (find_edge a.edge out.candidate) not_found in
      Holds-any (IsTracked base) (guard (not (is_nil a.nodes)) graph_invalid)
        (λ x. old >>= insert_at resolver a out)
        (λ x.
          Holds-any (IsTracked base) old (insert_at resolver a out)
            (λ e. insert_at-Holds resolver a out e t))

  bypass_chain-Holds :
      (chain : List Text) (policy : RemovePolicy) → Keeps (bypass_chain chain policy)
  unfolding bypass_chain bypass_at
  bypass_chain-Holds chain policy out t =
      let edge : Text → Result EdgeSpec = λ id. some_or (find_edge id out.candidate) not_found in
      Holds-any (IsTracked base) (check_linear_chain out.candidate chain)
        (λ b. edge b.inbound_edge >>= λ e. edge b.outbound_edge >>= bypass_at chain policy out e)
        (λ b.
          Holds-any (IsTracked base) (edge b.inbound_edge)
            (λ e. edge b.outbound_edge >>= bypass_at chain policy out e)
            (λ e.
              Holds-any (IsTracked base) (edge b.outbound_edge) (bypass_at chain policy out e) (λ f.
                Keeps-bind (remove_nodes chain policy out) (add_edge_tracked (bypass_edge e f))
                  (remove_nodes-Holds chain policy out t)
                  (add_edge_tracked-Holds base (bypass_edge e f)))))

  by_mode-Holds :
      (mode : RemoveMode) (ids : List Text) (policy : RemovePolicy) (out : CandidateSpec)
      → IsTracked base out
      → Holds (IsTracked base) (elim mode [
        | disconnect ↦ remove_nodes ids policy out
        | bypass ↦ bypass_chain ids policy out
      ])
  by_mode-Holds disconnect ids policy out t = remove_nodes-Holds ids policy out t
  by_mode-Holds bypass ids policy out t = bypass_chain-Holds ids policy out t

  remove_chain-Holds :
      (a : RemoveChainAction) (policy : RemovePolicy) → Keeps (remove_chain a policy)
  unfolding remove_chain
  remove_chain-Holds a policy out t =
      elim (is_nil a.nodes)
        as (λ b. Holds (IsTracked base) (
          guard (not b) graph_invalid >> elim a.mode [
            | disconnect ↦ remove_nodes a.nodes policy out
            | bypass ↦ bypass_chain a.nodes policy out
          ])) [ true ↦ tt | false ↦ by_mode-Holds a.mode a.nodes policy out t ]

  swap_node-Holds :
      (a : ReplaceNodeAction) (policy : RemovePolicy) (old : NodeSpec)
      (incoming outgoing : List EdgeSpec)
      → Keeps (λ out. swap_node a policy out old incoming outgoing)
  unfolding swap_node
  swap_node-Holds a policy old incoming outgoing out t =
      let joined : CandidateSpec → Result CandidateSpec =
        λ c. add_edges incoming c >>= add_edges outgoing in
      Keeps-bind (remove_node_with_edges a.node policy out)
        (λ c. place_node (replacement a old) c >>= joined)
        (remove_node_with_edges-Holds base a.node policy out t)
        (λ c h.
          Keeps-bind (place_node (replacement a old) c) joined
            (place_node-Holds base (replacement a old) c h)
            (λ d k.
              Keeps-bind (add_edges incoming d) (add_edges outgoing) (add_edges-Holds incoming d k)
                (add_edges-Holds outgoing)))

  replace_node-Holds :
      (resolver : CapabilityResolver) (a : ReplaceNodeAction) (policy : RemovePolicy)
      → Keeps (replace_node resolver a policy)
  unfolding replace_node
  replace_node-Holds resolver a policy out t =
      let old : Result NodeSpec = some_or (find_node a.node out.candidate) not_found in
      let into : Result (List EdgeSpec) = map_incoming resolver a (edges_to a.node out.candidate) in
      let away : Result (List EdgeSpec) =
        map_outgoing resolver a (edges_from a.node out.candidate) in
      Holds-any (IsTracked base) old (λ n. into >>= λ i. away >>= swap_node a policy out n i)
        (λ n.
          Holds-any (IsTracked base) into (λ i. away >>= swap_node a policy out n i)
            (λ i.
              Holds-any (IsTracked base) away (swap_node a policy out n i)
                (λ o. swap_node-Holds a policy n i o out t)))

  remove_branch-Holds :
      (a : RemoveBranchAction) (policy : RemovePolicy) → Keeps (remove_branch a policy)
  unfolding remove_branch
  remove_branch-Holds a policy out t =
      Holds-any (IsTracked base) (check_branch out.candidate a)
        (λ x. remove_nodes a.nodes policy out) (λ x. remove_nodes-Holds a.nodes policy out t)

  remove_single_by :
      (mode : RemoveMode) (a : RemoveNodeAction) (policy : RemovePolicy) (out : CandidateSpec)
      → IsTracked base out
      → Holds (IsTracked base) (elim mode [
        | bypass ↦
            remove_chain
              (record { nodes = a.node ∷ []; mode = a.mode; remove_policy = a.remove_policy })
              policy
              out
        | disconnect ↦ remove_node_with_edges a.node policy out
      ])
  remove_single_by bypass a policy out t =
      remove_chain-Holds
        (record { nodes = a.node ∷ []; mode = a.mode; remove_policy = a.remove_policy }) policy out
        t
  remove_single_by disconnect a policy out t = remove_node_with_edges-Holds base a.node policy out t

  set_node_options-Holds : (id : Text) (parameters : ℕ) → Keeps (set_node_options id parameters)
  unfolding set_node_options touch_node
  set_node_options-Holds id parameters out t =
      elim (is_found (find_node id out.candidate))
        as (λ b. Holds (IsTracked base) (
          guard b not_found
          >> ok (
              touch_node id (record out {
                parameter_updates = out.parameter_updates ++ (id, parameters) ∷ [];
              })))) [ true ↦ t | false ↦ tt ]

  apply_one-Holds :
      (resolver : CapabilityResolver) (policy : RemovePolicy) (a : MutationAction)
      → Keeps (apply_one resolver policy a)
  unfolding apply_one remove_single
  apply_one-Holds resolver policy (add_node_action n) out t = add_node_tracked-Holds base n out t
  apply_one-Holds resolver policy (remove_node_action a) out t =
      remove_single_by a.mode a (value_or a.remove_policy policy) out t
  apply_one-Holds resolver policy (insert_chain_action a) out t =
      insert_chain-Holds resolver a out t
  apply_one-Holds resolver policy (remove_chain_action a) out t =
      remove_chain-Holds a (value_or a.remove_policy policy) out t
  apply_one-Holds resolver policy (replace_node_action a) out t =
      replace_node-Holds resolver a (value_or a.remove_policy policy) out t
  apply_one-Holds resolver policy (remove_branch_action a) out t =
      remove_branch-Holds a (value_or a.remove_policy policy) out t
  apply_one-Holds resolver policy (add_edge_action e) out t = add_edge_tracked-Holds base e out t
  apply_one-Holds resolver policy (remove_edge_action id) out t = remove_edge_tracked-Holds id out t
  apply_one-Holds resolver policy (set_node_options_action id parameters) out t =
      set_node_options-Holds id parameters out t

  apply_from-Holds :
      (resolver : CapabilityResolver) (policy : RemovePolicy) (index : ℕ)
      (actions : List MutationAction) (out result : CandidateSpec)
      → IsTracked base out
      → apply_from resolver policy index actions out ≡ applied result
      → IsTracked base result
  unfolding apply_from
  apply_from-Holds resolver policy index [] out result t e =
      subst (IsTracked base) (applied_injective out result e) t
  apply_from-Holds resolver policy index (a ∷ rest) out result t e =
      go (apply_one resolver policy a out) (apply_one-Holds resolver policy a out t) e
        (λ next. apply_from-Holds resolver policy (index + 1) rest next result)
    where
      go :
          (r : Result CandidateSpec)
          → Holds (IsTracked base) r
          → ◌≡◌ {A = Applied}
              (elim r [
                | ok next ↦ apply_from resolver policy (index + 1) rest next
                | err s ↦ failed index a s
              ])
              (applied result)
          → ((next : CandidateSpec)
              → IsTracked base next
              → apply_from resolver policy (index + 1) rest next ≡ applied result
              → IsTracked base result)
          → IsTracked base result
      go (ok next) h e again = again next h e
      go (err s) h e again = absurd (cc)

-- A patch that applies to a valid graph gives a valid graph, and the lists that come with it are exact:
-- a node is in the new graph when it was in the base and is not listed as removed, or is listed as
-- added; no id is listed twice, what is listed as removed was in the base, and what is listed as added
-- was not, or is also listed as removed. The same holds of the edges.
pub apply_patch-IsTracked :
    (resolver : CapabilityResolver) (base : GraphSpec) (patch : MutationPatch)
    (result : CandidateSpec)
    → IsValid base
    → apply_patch resolver base patch ≡ applied result
    → IsTracked base result
unfolding apply_patch start
apply_patch-IsTracked resolver base patch result v e = elim (Bool-cases (is_nil patch.actions)) [
  | inl h ↦ absurd (ground (arith, e, h))
  | inr h ↦
      apply_from-Holds base resolver patch.remove_policy 0 patch.actions (start base) result
        (v, Tracks-start (node_there base), Tracks-start (edge_there base))
        (sym (
            ap
              (λ b.
                if b
                then no_actions
                else apply_from resolver patch.remove_policy 0 patch.actions (start base))
              h)
          ∙ e)
]
