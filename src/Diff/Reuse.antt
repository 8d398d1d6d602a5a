-- ===== src/Diff/Reuse.antt =====
-- Which nodes and edges the difference of src/graph_diff.cpp lets a running graph keep.
use ge.Prelude.{
  ◌≡◌, refl, sym, ap, ◌∙◌, Bool, true, false, not, ◌&&◌, ◌||◌, Option, none, some, List, [], ◌∷◌,
  ◌++◌, if◌then◌else◌, Text, text_eq, text_eq→eq, arith, Bool-cases, inl, inr,
}
use ge.Graph.{NodeSpec, EdgeSpec, GraphSpec, port_eq, find_node, find_edge, find_in, is_found}
use ge.Graph.Lookup.{NodesFit}
use ge.Graph.Edits.{IsValid}
use ge.Applier.{mem, is_nil}
use ge.Applier.Selection.{is_nil-append}
use ge.Diff.{
  Reason, endpoints, producer_replaced, consumer_replaced, queue, feedback, contract,
  ConnectionContract, node_added, edge_added, node_entry, node_entry_of, edge_entry, edge_entry_of,
  lookup, op_eq, queue_eq, bool_eq, contracts_differ, edge_reasons, node_reasons, reason_if,
  replaced_in, compare_nodes, compare_edges, diff_edges, compute_diff, is_reused_node,
  is_reused_edge, reused_nodes, reused_edges, op_changed,
}
use ge.Diff.Lookup.{
  nothing, KeysApart, passes, mem-select_keys, entry_or, lookup-compare_nodes, lookup-compare_edges,
  lookup-add_new_nodes, lookup-add_new_edges, add_new_nodes-KeysApart, add_new_edges-KeysApart,
  compare_nodes-KeysApart, compare_edges-KeysApart,
}

-- A node of both graphs with one operator, and with two.
abbrev pub keeps_operator : Option NodeSpec → Option NodeSpec → Bool
keeps_operator none c = false
keeps_operator (some b) none = false
keeps_operator (some b) (some c) = op_eq b.op c.op

abbrev pub changes_operator : Option NodeSpec → Option NodeSpec → Bool
changes_operator none c = false
changes_operator (some b) none = false
changes_operator (some b) (some c) = not (op_eq b.op c.op)

op_changed_lem : (b : NodeSpec) (o : Option NodeSpec) → op_changed b o ≡ changes_operator (some b) o
op_changed_lem b none = refl
op_changed_lem b (some c) = refl

listed :
    (c : Bool) (id x : Text) (rest : List Text)
    → text_eq id x ≡ true
    → mem x rest ≡ false
    → mem x (if c then id ∷ rest else rest) ≡ c
unfolding mem
listed true id x rest k gone = ground (arith, k)
listed false id x rest k gone = gone

skipped :
    (c : Bool) (id x : Text) (rest : List Text)
    → text_eq id x ≡ false
    → mem x (if c then id ∷ rest else rest) ≡ mem x rest
unfolding mem
skipped true id x rest k = ground (arith, k)
skipped false id x rest k = refl

six :
    (a b c d e f : List Reason)
    → is_nil (a ++ b ++ c ++ d ++ e ++ f)
      ≡ (is_nil a && is_nil b && is_nil c && is_nil d && is_nil e && is_nil f)
six a b c d e f = ground (
  arith,
  is_nil-append (a ++ b ++ c ++ d ++ e) f,
  is_nil-append (a ++ b ++ c ++ d) e,
  is_nil-append (a ++ b ++ c) d,
  is_nil-append (a ++ b) c,
  is_nil-append a b,
)

module _ (base : GraphSpec) (base_contracts : List (Text × ConnectionContract))
    (candidate : GraphSpec) (candidate_contracts : List (Text × ConnectionContract)) where
  abbrev is_replaced : Text → Bool
  is_replaced id = changes_operator (find_node id base) (find_node id candidate)

  -- An edge of both graphs with the same ends at nodes that are not replaced, the same queue and
  -- feedback, and no two contracts that differ.
  abbrev pub keeps_channel : Option EdgeSpec → Option EdgeSpec → Bool
  keeps_channel none c = false
  keeps_channel (some b) none = false
  keeps_channel (some b) (some c) =
      port_eq b.from c.from
      && port_eq b.to c.to
      && not (is_replaced c.from.node_id)
      && not (is_replaced c.to.node_id)
      && queue_eq b.queue c.queue
      && bool_eq b.feedback c.feedback
      && not (contracts_differ (lookup b.id base_contracts) (lookup b.id candidate_contracts))

  reused_by :
      (why : NodeSpec → NodeSpec → List Reason) (o p : Option NodeSpec)
      → passes is_reused_node (
          if is_found p && not (is_found o)
          then some (record { change = node_added; reason = [] })
          else entry_or o (λ b. node_entry why b p) none)
        ≡ keeps_operator o p
  reused_by why none none = refl
  reused_by why none (some c) = refl
  reused_by why (some b) none = refl
  reused_by why (some b) (some c) = elim (Bool-cases (op_eq b.op c.op)) [
    | inl h ↦ rw h (updated (why b c))
    | inr h ↦ rw h refl
  ]
    where
      updated : (rs : List Reason) → is_reused_node (node_entry_of rs) ≡ true
      updated [] = refl
      updated (r ∷ rs) = refl

  pub lookup_node :
      (j : Text)
      → IsValid base
      → lookup j (compute_diff base base_contracts candidate candidate_contracts).nodes ≡ (
          if is_found (find_node j candidate) && not (is_found (find_node j base))
          then some (record { change = node_added; reason = [] })
          else entry_or
              (find_node j base)
              (λ b.
                node_entry
                  (node_reasons base candidate
                    (diff_edges base base_contracts candidate candidate_contracts))
                  b
                  (find_node j candidate))
              none)
  unfolding compute_diff lookup
  lookup_node j v =
      let why : NodeSpec → NodeSpec → List Reason =
        node_reasons base candidate
          (diff_edges base base_contracts candidate candidate_contracts) in
      lookup-add_new_nodes base candidate.nodes (compare_nodes candidate why base.nodes []) j
      ∙ ap
          (λ o.
            if is_found (find_node j candidate) && not (is_found (find_node j base))
            then some (record { change = node_added; reason = [] })
            else o)
          (lookup-compare_nodes candidate why base.nodes [] j v.0)

  pub nodes-KeysApart :
      KeysApart (compute_diff base base_contracts candidate candidate_contracts).nodes
  unfolding compute_diff
  nodes-KeysApart =
      let why : NodeSpec → NodeSpec → List Reason =
        node_reasons base candidate
          (diff_edges base base_contracts candidate candidate_contracts) in
      add_new_nodes-KeysApart base candidate.nodes (compare_nodes candidate why base.nodes [])
        (compare_nodes-KeysApart candidate why base.nodes [] tt)

  abbrev pub edge_why : EdgeSpec → EdgeSpec → List Reason
  edge_why = edge_reasons (replaced_in candidate base.nodes) base_contracts candidate_contracts

  pub lookup_edge :
      (j : Text)
      → IsValid base
      → lookup j (diff_edges base base_contracts candidate candidate_contracts) ≡ (
          if is_found (find_edge j candidate) && not (is_found (find_edge j base))
          then some (record { change = edge_added; reason = [] })
          else entry_or
              (find_edge j base)
              (λ b. edge_entry (edge_why b) (find_edge j candidate))
              none)
  unfolding diff_edges lookup
  lookup_edge j v =
      lookup-add_new_edges base candidate.edges (compare_edges candidate edge_why base.edges []) j
      ∙ ap
          (λ o.
            if is_found (find_edge j candidate) && not (is_found (find_edge j base))
            then some (record { change = edge_added; reason = [] })
            else o)
          (lookup-compare_edges candidate edge_why base.nodes base.edges [] j v.1)

  pub edges-KeysApart : KeysApart (diff_edges base base_contracts candidate candidate_contracts)
  unfolding diff_edges
  edges-KeysApart =
      add_new_edges-KeysApart base candidate.edges (compare_edges candidate edge_why base.edges [])
        (compare_edges-KeysApart candidate edge_why base.edges [] tt)

  mem-replaced_in :
      (x : Text) (bs : List NodeSpec)
      → NodesFit bs
      → mem x (replaced_in candidate bs) ≡ changes_operator (find_in x bs) (find_node x candidate)
  unfolding mem replaced_in find_in
  mem-replaced_in x [] v = refl
  mem-replaced_in x (b ∷ bs) v =
      let rest = mem-replaced_in x bs v.2 in
      let here = op_changed_lem b (find_node b.id candidate) in
      elim (Bool-cases (text_eq b.id x)) [
        | inl k ↦
            let same : op_changed b (find_node b.id candidate)
                ≡ changes_operator (some b) (find_node x candidate) =
              here
              ∙ ap (λ y. changes_operator (some b) (find_node y candidate)) (text_eq→eq b.id x k) in
            let once : find_in x bs ≡ none =
              nothing (find_in x bs)
                (ap (λ y. is_found (find_in y bs)) (sym (text_eq→eq b.id x k)) ∙ v.0) in
            let gone : mem x (replaced_in candidate bs) ≡ false =
              rest ∙ ap (λ o. changes_operator o (find_node x candidate)) once in
            ap
              (λ c. mem x (if c then b.id ∷ replaced_in candidate bs else replaced_in candidate bs))
              same
            ∙ listed (changes_operator (some b) (find_node x candidate)) b.id x
                (replaced_in candidate bs) k gone
            ∙ rw k refl
        | inr k ↦
            skipped (op_changed b (find_node b.id candidate)) b.id x (replaced_in candidate bs) k
            ∙ rest
            ∙ rw k refl
      ]

  is_nil-reason_if : (b : Bool) (r : Reason) → is_nil (reason_if b r) ≡ not b
  is_nil-reason_if true r = refl
  is_nil-reason_if false r = refl

  pub is_nil-edge_why :
      (b c : EdgeSpec) → IsValid base → is_nil (edge_why b c) ≡ keeps_channel (some b) (some c)
  unfolding edge_reasons
  is_nil-edge_why b c v =
      let replaced : List Text = replaced_in candidate base.nodes in
      let from = mem-replaced_in c.from.node_id base.nodes v.0 in
      let to = mem-replaced_in c.to.node_id base.nodes v.0 in
      ground (
        arith,
        from,
        to,
        six (reason_if (not (port_eq b.from c.from) || not (port_eq b.to c.to)) endpoints)
            (reason_if (mem c.from.node_id replaced) producer_replaced)
            (reason_if (mem c.to.node_id replaced) consumer_replaced)
            (reason_if (not (queue_eq b.queue c.queue)) queue)
            (reason_if (not (bool_eq b.feedback c.feedback)) feedback)
            (reason_if
              (contracts_differ (lookup b.id base_contracts) (lookup b.id candidate_contracts))
              contract),
        is_nil-reason_if (not (port_eq b.from c.from) || not (port_eq b.to c.to)) endpoints,
        is_nil-reason_if (mem c.from.node_id replaced) producer_replaced,
        is_nil-reason_if (mem c.to.node_id replaced) consumer_replaced,
        is_nil-reason_if (not (queue_eq b.queue c.queue)) queue,
        is_nil-reason_if (not (bool_eq b.feedback c.feedback)) feedback,
        is_nil-reason_if
            (contracts_differ (lookup b.id base_contracts) (lookup b.id candidate_contracts))
            contract,
      )

  edge_reused_by :
      (o p : Option EdgeSpec)
      → IsValid base
      → passes is_reused_edge (
          if is_found p && not (is_found o)
          then some (record { change = edge_added; reason = [] })
          else entry_or o (λ b. edge_entry (edge_why b) p) none)
        ≡ keeps_channel o p
  edge_reused_by none none v = refl
  edge_reused_by none (some c) v = refl
  edge_reused_by (some b) none v = refl
  edge_reused_by (some b) (some c) v = kept (edge_why b c) ∙ is_nil-edge_why b c v
    where
      kept : (rs : List Reason) → is_reused_edge (edge_entry_of rs) ≡ is_nil rs
      kept [] = refl
      kept (r ∷ rs) = refl

  -- From a valid base, whatever the candidate: a node is reused exactly when both graphs have it with
  -- the same operator, and a channel exactly when both graphs have its edge with the same ends, at
  -- nodes whose operator does not change, the same queue and feedback flag, and no contracts that
  -- differ in the data plane.
  pub reused_lem :
      (j : Text)
      → IsValid base
      → (mem j (reused_nodes (compute_diff base base_contracts candidate candidate_contracts))
          ≡ keeps_operator (find_node j base) (find_node j candidate))
        × (mem j (reused_edges (compute_diff base base_contracts candidate candidate_contracts))
            ≡ keeps_channel (find_edge j base) (find_edge j candidate))
  unfolding reused_nodes reused_edges compute_diff
  reused_lem j v =
      let d = compute_diff base base_contracts candidate candidate_contracts in
      let why : NodeSpec → NodeSpec → List Reason =
        node_reasons base candidate
          (diff_edges base base_contracts candidate candidate_contracts) in
      (
        mem-select_keys is_reused_node d.nodes j nodes-KeysApart
            ∙ ap (passes is_reused_node) (lookup_node j v)
            ∙ reused_by why (find_node j base) (find_node j candidate),
        mem-select_keys is_reused_edge
              (diff_edges base base_contracts candidate candidate_contracts) j edges-KeysApart
            ∙ ap (passes is_reused_edge) (lookup_edge j v)
            ∙ edge_reused_by (find_edge j base) (find_edge j candidate) v,
      )
