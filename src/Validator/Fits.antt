-- ===== src/Validator/Fits.antt =====
-- What holds of a graph that Validate of src/graph_validator.cpp accepts.
use ge.Prelude.{
  ℕ, ◌≤◌, ◌≡◌, refl, sym, ap, ◌∙◌, Bool, true, false, not, ◌&&◌, ◌||◌, Option, none, some, List, [],
  ◌∷◌, ◌++◌, ltb, if◌then◌else◌, get_elem?, Text, text_eq, arith, Bool-cases, inl, inr,
}
use ge.Graph.{NodeSpec, EdgeSpec, GraphSpec, find_in, is_found, is_empty}
use ge.Graph.Edits.{IsValid}
use ge.Applier.{is_nil, mem, find_port, CapabilityDescriptor, CapabilityResolver}
use ge.Validator.{
  ValidationIssue, NodeInfo, NodeChecks, EdgeChecks, find_info, issue_if, invalid_node,
  invalid_edge, lacks_device, capability_issues, check_infos, cap_of, lacks_output, lacks_input,
  is_blocking, edge_issues, check_edge_specs, port_issues, topological_order, cycle_issue,
  issues_of_cycle, Validated, issues_found, structure_fits, accept, sort_checked, check_ports,
  check_edges, validate,
}
use ge.Validator.Cycles.{IsAcyclic, cycle_issue-IsAcyclic}
use ge.Validator.Accepted.{info_of, infos_kept, edges_kept}

abbrev pub is_accepted : Validated → Bool
is_accepted (issues_found is) = false
is_accepted (structure_fits order sources sinks) = true

-- The capability that a node has and fits.
abbrev pub HasCapability : CapabilityResolver → NodeSpec → CapabilityDescriptor → Type 0
HasCapability resolver n cap =
    (resolver n.op ≡ some cap)
    × (lacks_device n.executor.kind cap.execution.devices ≡ false)
    × (n.parallelism ≤ cap.execution.max_parallelism)

abbrev pub EdgeFits : CapabilityResolver → List NodeSpec → EdgeSpec → Type 0
EdgeFits resolver ns e =
    (from : NodeSpec) × (to : NodeSpec) × (out_cap : CapabilityDescriptor)
    × (in_cap : CapabilityDescriptor) × (find_in e.from.node_id ns ≡ some from)
    × (find_in e.to.node_id ns ≡ some to)
    × HasCapability resolver from out_cap
    × HasCapability resolver to in_cap
    × (find_port e.from.port out_cap.outputs ≡ true)
    × (find_port e.to.port in_cap.inputs ≡ true)
    × ((text_eq e.from.node_id e.to.node_id && not e.feedback) ≡ false)
    × ((e.feedback && is_blocking e.queue.policy) ≡ false)

split_nil :
    {A : Type 0} (xs ys : List A)
    → is_nil (xs ++ ys) ≡ true
    → (is_nil xs ≡ true) × (is_nil ys ≡ true)
split_nil [] ys h = (refl, h)
split_nil (x ∷ xs) ys h = absurd (cc)

unraised : (b : Bool) (i : ValidationIssue) → is_nil (issue_if b i) ≡ true → b ≡ false
unraised true i h = absurd (cc)
unraised false i h = refl

accepted_order :
    (g : GraphSpec) (found : List ValidationIssue) (order : List Text)
    → is_accepted (accept g found order) ≡ true
    → is_nil found ≡ true
unfolding accept
accepted_order g [] order h = refl
accepted_order g (i ∷ is) order h = absurd (cc)

no_cycle : (o : Option (List Text)) → is_nil (issues_of_cycle o) ≡ true → o ≡ none
no_cycle none h = refl
no_cycle (some []) h = absurd (cc)
no_cycle (some (id ∷ ids)) h = absurd (cc)

accepted_sort :
    (g : GraphSpec) (found : List ValidationIssue)
    → IsValid g
    → is_accepted (sort_checked g found (topological_order g)) ≡ true
    → (is_nil found ≡ true) × IsAcyclic g
unfolding sort_checked
accepted_sort g found v h =
    let (r, e, acyclic) = cycle_issue-IsAcyclic g v in
    let (first, cycle) = split_nil found (issues_of_cycle (cycle_issue g.nodes r)) (
      accepted_order g (found ++ issues_of_cycle (cycle_issue g.nodes r)) r.0
        (ap (λ o. is_accepted (sort_checked g found o)) (sym e) ∙ h)) in
    (first, acyclic.0 (no_cycle (cycle_issue g.nodes r) cycle))

accepted_ports :
    (fail_fast : Bool) (g : GraphSpec) (infos : List NodeInfo) (p : Bool × EdgeChecks)
    → IsValid g
    → is_accepted (check_ports fail_fast g infos p) ≡ true
    → (is_nil p.1.issues ≡ true) × IsAcyclic g
unfolding check_ports
accepted_ports fail_fast g infos (true, e) v h = absurd (cc)
accepted_ports fail_fast g infos (false, e) v h =
    let found : List ValidationIssue = e.issues ++ port_issues e infos in
    elim (Bool-cases (fail_fast && not (is_nil found))) [
      | inl k ↦
          let stopped : is_accepted (issues_found found) ≡ true =
            sym (
              ap
                (λ b.
                  is_accepted
                    (if b then issues_found found else sort_checked g found (topological_order g)))
                k)
            ∙ h in
          absurd (cc)
      | inr k ↦
          let (all, acyclic) = accepted_sort g found v (
            sym (
              ap
                (λ b.
                  is_accepted
                    (if b then issues_found found else sort_checked g found (topological_order g)))
                k)
            ∙ h) in
          ((split_nil e.issues (port_issues e infos) all).0, acyclic)
    ]

accepted_edges :
    (resolver : CapabilityResolver) (fail_fast : Bool) (g : GraphSpec) (p : Bool × NodeChecks)
    → IsValid g
    → is_accepted (check_edges fail_fast g p) ≡ true
    → (is_nil p.1.issues ≡ true)
      × IsAcyclic g
      × ((i : ℕ) (e : EdgeSpec)
          → get_elem? g.edges i ≡ some e
          → (seen : List Text) × (is_nil (edge_issues p.1.infos seen e) ≡ true))
unfolding check_edges
accepted_edges resolver fail_fast g (true, n) v h = absurd (cc)
accepted_edges resolver fail_fast g (false, n) v h =
    let start : EdgeChecks = record {
      edge_ids = [];
      outputs = [];
      inputs = [];
      issues = n.issues;
    } in
    let (last, acyclic) =
      accepted_ports fail_fast g n.infos (check_edge_specs n.infos fail_fast g.edges start) v h in
    let (before, edges) = edges_kept resolver fail_fast n.infos g.edges start last in
    (before, acyclic, edges)

capability_there :
    (resolver : CapabilityResolver) (n : NodeSpec) (o : Option CapabilityDescriptor)
    → resolver n.op ≡ o
    → is_nil (capability_issues n o) ≡ true
    → (cap : CapabilityDescriptor) × HasCapability resolver n cap
unfolding capability_issues
capability_there resolver n none e h = absurd (cc)
capability_there resolver n (some cap) e h =
    let (device, parallel) =
      split_nil (issue_if (lacks_device n.executor.kind cap.execution.devices) (invalid_node n.id))
        (issue_if (ltb cap.execution.max_parallelism n.parallelism) (invalid_node n.id)) h in
    let below =
      unraised (ltb cap.execution.max_parallelism n.parallelism) (invalid_node n.id) parallel in
    (
      cap,
      (
        e,
        unraised (lacks_device n.executor.kind cap.execution.devices) (invalid_node n.id) device,
        ground (arith, below),
      ),
    )

module _ (resolver : CapabilityResolver) (ns : List NodeSpec) (infos : List NodeInfo)
    (fine : (x : Text) (n : NodeSpec)
      → find_in x ns ≡ some n
      → is_nil (capability_issues n (resolver n.op)) ≡ true)
    (known : (x : Text) → find_info x infos ≡ info_of resolver (find_in x ns)) where
  -- A node that the checks of an edge found, with its capability.
  node_there :
      (x : Text) (o : Option NodeSpec)
      → find_in x ns ≡ o
      → is_found (info_of resolver o) ≡ true
      → (n : NodeSpec) × (cap : CapabilityDescriptor) × (find_in x ns ≡ some n)
        × HasCapability resolver n cap
        × (find_info x infos ≡ some (record { spec = n; cap = some cap }))
  node_there x none e h = absurd (cc)
  node_there x (some n) e h =
      let (cap, has) = capability_there resolver n (resolver n.op) refl (fine x n e) in
      (
        n,
        cap,
        e,
        has,
        known x
            ∙ ap (λ o. info_of resolver o) e
            ∙ ap (λ c. some (record { spec = n; cap = c })) has.0,
      )

  found_there :
      (x : Text) (i : ValidationIssue)
      → is_nil (issue_if (not (is_found (find_info x infos))) i) ≡ true
      → is_found (info_of resolver (find_in x ns)) ≡ true
  found_there x i h =
      let k = unraised (not (is_found (find_info x infos))) i h in
      let found : is_found (find_info x infos) ≡ true = ground (arith, k) in
      ap (λ o. is_found o) (sym (known x)) ∙ found

  edge_fits :
      (seen : List Text) (e : EdgeSpec)
      → is_nil (edge_issues infos seen e) ≡ true
      → EdgeFits resolver ns e
  unfolding edge_issues
  edge_fits seen e h =
      let from_info : Option NodeInfo = find_info e.from.node_id infos in
      let to_info : Option NodeInfo = find_info e.to.node_id infos in
      let here : ValidationIssue = invalid_edge [] e.id in
      let at_from : ValidationIssue = invalid_edge e.from.node_id e.id in
      let at_to : ValidationIssue = invalid_edge e.to.node_id e.id in
      let last : List ValidationIssue = issue_if (lacks_input e.to.port (cap_of to_info)) at_to in
      let ports : List ValidationIssue =
        issue_if (lacks_output e.from.port (cap_of from_info)) at_from ++ last in
      let policies : List ValidationIssue =
        issue_if (e.feedback && is_blocking e.queue.policy) here ++ ports in
      let loops : List ValidationIssue =
        issue_if (text_eq e.from.node_id e.to.node_id && not e.feedback) at_from ++ policies in
      let ends : List ValidationIssue = issue_if (not (is_found to_info)) here ++ loops in
      let (_, h1) =
        split_nil (issue_if (is_empty e.id || mem e.id seen) here)
          (issue_if (not (is_found from_info)) here ++ ends) h in
      let (from, h2) = split_nil (issue_if (not (is_found from_info)) here) ends h1 in
      let (to, h3) = split_nil (issue_if (not (is_found to_info)) here) loops h2 in
      let (loop, h4) =
        split_nil (issue_if (text_eq e.from.node_id e.to.node_id && not e.feedback) at_from)
          policies h3 in
      let (blocking, h5) =
        split_nil (issue_if (e.feedback && is_blocking e.queue.policy) here) ports h4 in
      let (output, input) =
        split_nil (issue_if (lacks_output e.from.port (cap_of from_info)) at_from) last h5 in
      let (a, a_cap, a_found, a_has, a_info) =
        node_there e.from.node_id (find_in e.from.node_id ns) refl
          (found_there e.from.node_id here from) in
      let (b, b_cap, b_found, b_has, b_info) =
        node_there e.to.node_id (find_in e.to.node_id ns) refl (found_there e.to.node_id here to) in
      let no_output =
        ap (λ o. lacks_output e.from.port (cap_of o)) (sym a_info)
        ∙ unraised (lacks_output e.from.port (cap_of (find_info e.from.node_id infos)))
            (invalid_edge e.from.node_id e.id) output in
      let no_input =
        ap (λ o. lacks_input e.to.port (cap_of o)) (sym b_info)
        ∙ unraised (lacks_input e.to.port (cap_of (find_info e.to.node_id infos)))
            (invalid_edge e.to.node_id e.id) input in
      (
        a,
        b,
        a_cap,
        b_cap,
        a_found,
        b_found,
        a_has,
        b_has,
        ground (arith, no_output),
        ground (arith, no_input),
        unraised (text_eq e.from.node_id e.to.node_id && not e.feedback)
            (invalid_edge e.from.node_id e.id) loop,
        unraised (e.feedback && is_blocking e.queue.policy) (invalid_edge [] e.id) blocking,
      )

-- The checks before the negotiation accept a valid graph, with fail_fast or without, only if
-- every node has a capability in the resolver that allows its executor and its parallelism; every
-- edge goes from an output port to an input port of such capabilities, is a feedback edge if it leads
-- back to its own node, and does not block if it is a feedback edge; and the edges that are not
-- feedback edges have no cycle.
pub validate_lem :
    (resolver : CapabilityResolver) (fail_fast : Bool) (g : GraphSpec)
    → IsValid g
    → is_accepted (validate resolver fail_fast g) ≡ true
    → ((x : Text) (n : NodeSpec)
        → find_in x g.nodes ≡ some n
        → (cap : CapabilityDescriptor) × HasCapability resolver n cap)
      × ((i : ℕ) (e : EdgeSpec) → get_elem? g.edges i ≡ some e → EdgeFits resolver g.nodes e)
      × IsAcyclic g
unfolding validate find_info
validate_lem resolver fail_fast g v h =
    let start : NodeChecks = record {
      infos = [];
      issues = issue_if (is_nil g.nodes) (invalid_node []);
    } in
    let checked : Bool × NodeChecks = check_infos resolver fail_fast g.nodes start in
    let (last, acyclic, edges) = accepted_edges resolver fail_fast g checked v h in
    let (before, fine, known) = infos_kept resolver fail_fast g.nodes start last in
    (
      λ x n e. capability_there resolver n (resolver n.op) refl (fine x n e),
      λ i e p.
          let (seen, none_raised) = edges i e p in
          edge_fits resolver g.nodes checked.1.infos fine known seen e none_raised,
      acyclic,
    )
