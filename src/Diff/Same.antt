-- ===== src/Diff/Same.antt =====
-- The difference of a graph from itself, in src/graph_diff.cpp.
use ge.Prelude.{
  ◌≡◌, refl, sym, ap, ap₂, ◌∙◌, Bool, true, false, not, ◌&&◌, Option, none, some, List, [], ◌∷◌,
  ◌++◌, ◌==◌, ==_iff, ℕ, if◌then◌else◌, Text, text_eq, text_eq→eq, text_eq_refl, arith, Bool-cases,
  inl, inr, if_elim,
}
use ge.Prelude.Int.{ℤ, pos, negsuc}
use ge.Graph.{
  NodeSpec, EdgeSpec, GraphSpec, ExecutorSpec, OperatorKey, QueueSpec, PortRef, port_eq, find_node,
  find_edge, is_found,
}
use ge.Graph.Edits.{IsValid}
use ge.Applier.{is_nil}
use ge.Applier.Selection.{is_nil-append}
use ge.Diff.{
  Reason, ConnectionContract, NodeEntry, EdgeEntry, edge_added, node_added, node_entry,
  node_entry_of, edge_entry, edge_entry_of, edge_kept, edge_recreated, edge_removed, option_eq,
  int_eq, same_data_plane, op_eq, executor_eq, queue_eq, bool_eq, lookup, assign, inputs_from,
  inputs, contracts_differ, is_recreated, input_reason, input_reasons, removed_inputs, node_reasons,
  reason_if, diff_edges, compute_diff, is_empty_diff, is_reused_edge, number_of_node,
  number_of_edge, EdgeChange, node_replaced, operator_changed, executor, parallelism,
}
use ge.Diff.Lookup.{KeysApart, assign-KeysApart, all_pass_from, entry_or}
use ge.Diff.Reuse.{
  changes_operator, lookup_node, lookup_edge, nodes-KeysApart, edges-KeysApart, is_nil-edge_why,
  edge_why,
}

==_refl : (n : ℕ) → (n == n) ≡ true
==_refl n = (==_iff n n).1 refl

option_eq_refl :
    {A : Type 0} (eq : A → A → Bool) (o : Option A)
    → ((x : A) → eq x x ≡ true)
    → option_eq eq o o ≡ true
unfolding option_eq
option_eq_refl eq none h = refl
option_eq_refl eq (some x) h = h x

int_eq_refl : (n : ℤ) → int_eq n n ≡ true
unfolding int_eq
int_eq_refl (pos n) = ==_refl n
int_eq_refl (negsuc n) = ==_refl n

op_eq_refl : (op : OperatorKey) → op_eq op op ≡ true
unfolding op_eq
op_eq_refl op = ground (arith, text_eq_refl op.type_name, text_eq_refl op.semantic_version)

executor_eq_refl : (e : ExecutorSpec) → executor_eq e e ≡ true
unfolding executor_eq
executor_eq_refl e = ground (arith, option_eq_refl int_eq e.device_id int_eq_refl)

queue_eq_refl : (q : QueueSpec) → queue_eq q q ≡ true
unfolding queue_eq
queue_eq_refl q = ground (arith, option_eq_refl ◌==◌ q.max_packet_bytes ==_refl)

port_eq_refl : (p : PortRef) → port_eq p p ≡ true
port_eq_refl p = ground (arith, text_eq_refl p.node_id, text_eq_refl p.port)

bool_eq_refl : (b : Bool) → bool_eq b b ≡ true
unfolding bool_eq
bool_eq_refl true = refl
bool_eq_refl false = refl

same_data_plane_refl : (c : ConnectionContract) → same_data_plane c c ≡ true
unfolding same_data_plane
same_data_plane_refl c = ground (
  arith,
  text_eq_refl c.logical_type,
  option_eq_refl ◌==◌ c.video ==_refl,
  option_eq_refl ◌==◌ c.audio ==_refl,
  option_eq_refl ◌==◌ c.tensor ==_refl,
  int_eq_refl c.device_id,
)

contracts_differ_self : (o : Option ConnectionContract) → contracts_differ o o ≡ false
unfolding contracts_differ
contracts_differ_self none = refl
contracts_differ_self (some c) = ap not (same_data_plane_refl c)

changes_operator_self : (o : Option NodeSpec) → changes_operator o o ≡ false
changes_operator_self none = refl
changes_operator_self (some n) = ap not (op_eq_refl n.op)

-- The inputs of a node name each port once.
inputs-KeysApart :
    (node : Text) (es : List EdgeSpec) (found : List (Text × Text))
    → KeysApart found
    → KeysApart (inputs_from node es found)
unfolding inputs_from
inputs-KeysApart node [] found k = k
inputs-KeysApart node (e ∷ es) found k =
    inputs-KeysApart node es
      (if text_eq e.to.node_id node then assign e.to.port e.id found else found)
      (if_elim KeysApart (text_eq e.to.node_id node) (assign e.to.port e.id found) found
        (assign-KeysApart e.to.port e.id found k) k)

-- The entries of a part are those of the whole.
abbrev Part : List (Text × Text) → List (Text × Text) → Type 0
Part ps whole = (j v : Text) → lookup j ps ≡ some v → lookup j whole ≡ some v

Part-rest :
    (p : Text × Text) (ps whole : List (Text × Text))
    → KeysApart (p ∷ ps)
    → Part (p ∷ ps) whole
    → Part ps whole
unfolding lookup
Part-rest p ps whole k h j v e = elim (Bool-cases (text_eq p.0 j)) [
  | inl l ↦
      let found : is_found (lookup p.0 ps) ≡ true =
        ap (λ x. is_found (lookup x ps)) (text_eq→eq p.0 j l) ∙ ap is_found e in
      absurd (ground (arith, found, k.0))
  | inr l ↦ h j v (rw l e)
]

Part-head :
    (p : Text × Text) (ps whole : List (Text × Text))
    → Part (p ∷ ps) whole
    → lookup p.0 whole ≡ some p.1
unfolding lookup
Part-head p ps whole h = h p.0 p.1 (rw (text_eq_refl p.0) refl)

same_input :
    (edges : List (Text × EdgeEntry)) (port edge : Text) (o : Option Text)
    → o ≡ some edge
    → is_recreated (lookup edge edges) ≡ false
    → input_reason edges port edge o ≡ []
unfolding input_reason
same_input edges port edge none e h = absurd (cc)
same_input edges port edge (some old) e h =
    let same : text_eq old edge ≡ true =
      ap (λ (x : Option Text). elim x [ some t ↦ text_eq t edge | none ↦ true ]) e
      ∙ text_eq_refl edge in
    rw (same, h) refl

no_input_reasons :
    (edges : List (Text × EdgeEntry)) (whole ps : List (Text × Text))
    → ((id : Text) → is_recreated (lookup id edges) ≡ false)
    → KeysApart ps
    → Part ps whole
    → is_nil (input_reasons edges whole ps) ≡ true
unfolding input_reasons
no_input_reasons edges whole [] h k part = refl
no_input_reasons edges whole (p ∷ ps) h k part =
    let first = same_input edges p.0 p.1 (lookup p.0 whole) (Part-head p ps whole part) (h p.1) in
    let rest = no_input_reasons edges whole ps h k.1 (Part-rest p ps whole k part) in
    is_nil-append (input_reason edges p.0 p.1 (lookup p.0 whole)) (input_reasons edges whole ps)
    ∙ ap₂ ◌&&◌ (ap is_nil first) rest

no_removed_inputs :
    (whole ps : List (Text × Text))
    → KeysApart ps
    → Part ps whole
    → is_nil (removed_inputs whole ps) ≡ true
unfolding removed_inputs
no_removed_inputs whole [] k part = refl
no_removed_inputs whole (p ∷ ps) k part =
    let found : is_found (lookup p.0 whole) ≡ true = ap is_found (Part-head p ps whole part) in
    let rest = no_removed_inputs whole ps k.1 (Part-rest p ps whole k part) in rw found rest

nothing_new {ℓ} : {A : Type ℓ} (b : Bool) (x y : A) → (if b && not b then x else y) ≡ y
nothing_new true x y = refl
nothing_new false x y = refl

kept_entry :
    (rs : List Reason) (x : EdgeEntry)
    → is_nil rs ≡ true
    → some (edge_entry_of rs) ≡ some x
    → is_reused_edge x ≡ true
kept_entry [] x h e =
    sym (ap (λ (o : Option EdgeEntry). elim o [ some y ↦ is_reused_edge y | none ↦ true ]) e)
kept_entry (r ∷ rs) x h e = absurd (cc)

kept_node :
    (rs : List Reason) (x : NodeEntry)
    → is_nil rs ≡ true
    → some (node_entry_of rs) ≡ some x
    → (number_of_node x.change == 0) ≡ true
kept_node [] x h e = sym (
    ap (λ (o : Option NodeEntry). elim o [ some y ↦ number_of_node y.change == 0 | none ↦ true ]) e)
kept_node (r ∷ rs) x h e = absurd (cc)

kept-not_recreated :
    (o : Option EdgeEntry)
    → ((x : EdgeEntry) → o ≡ some x → is_reused_edge x ≡ true)
    → is_recreated o ≡ false
unfolding is_recreated
kept-not_recreated none h = refl
kept-not_recreated (some x) h = by_change x.change (h x refl)
  where
    by_change :
        (c : EdgeChange)
        → (number_of_edge c == 0) ≡ true
        → (elim c [
          | edge_recreated ↦ true
          | edge_kept ↦ false
          | edge_added ↦ false
          | edge_removed ↦ false
        ])
          ≡ false
    by_change edge_kept k = refl
    by_change edge_added k = refl
    by_change edge_removed k = refl
    by_change edge_recreated k = absurd (cc)

module _ (g : GraphSpec) (contracts : List (Text × ConnectionContract)) (v : IsValid g) where
  abbrev edges : List (Text × EdgeEntry)
  edges = diff_edges g contracts g contracts

  same_edge : (b : EdgeSpec) → is_nil (edge_why g contracts g contracts b b) ≡ true
  same_edge b =
      is_nil-edge_why g contracts g contracts b b v
      ∙ ground (
        arith,
        port_eq_refl b.from,
        port_eq_refl b.to,
        changes_operator_self (find_node b.from.node_id g),
        changes_operator_self (find_node b.to.node_id g),
        queue_eq_refl b.queue,
        bool_eq_refl b.feedback,
        contracts_differ_self (lookup b.id contracts),
      )

  kept_edge :
      (o : Option EdgeSpec) (x : EdgeEntry)
      → entry_or o (λ b. edge_entry (edge_why g contracts g contracts b) o) none ≡ some x
      → is_reused_edge x ≡ true
  kept_edge none x e = absurd (cc)
  kept_edge (some b) x e = kept_entry (edge_why g contracts g contracts b b) x (same_edge b) e

  kept_edges : (j : Text) (x : EdgeEntry) → lookup j edges ≡ some x → is_reused_edge x ≡ true
  kept_edges j x e = kept_edge (find_edge j g) x (
      sym (
        lookup_edge g contracts g contracts j v
        ∙ nothing_new (is_found (find_edge j g))
            (some (record { change = edge_added; reason = [] }))
            (entry_or (find_edge j g)
              (λ b. edge_entry (edge_why g contracts g contracts b) (find_edge j g)) none))
      ∙ e)

  same_node : (b : NodeSpec) → is_nil (node_reasons g g edges b b) ≡ true
  unfolding node_reasons
  same_node b =
      let ins : List (Text × Text) = inputs g b.id in
      let apart : KeysApart ins = inputs-KeysApart b.id g.edges [] tt in
      let whole : Part ins ins = λ j w e. e in
      let kept : (id : Text) → is_recreated (lookup id edges) ≡ false =
        λ id. kept-not_recreated (lookup id edges) (kept_edges id) in
      let a : List Reason = reason_if (not (executor_eq b.executor b.executor)) executor in
      let c : List Reason = reason_if (not (b.parallelism == b.parallelism)) parallelism in
      is_nil-append (a ++ c ++ input_reasons edges ins ins) (removed_inputs ins ins)
      ∙ ground (
        arith,
        is_nil-append (a ++ c) (input_reasons edges ins ins),
        is_nil-append a c,
        executor_eq_refl b.executor,
        no_input_reasons edges ins ins kept apart whole,
        no_removed_inputs ins ins apart whole,
      )

  kept_by :
      (o : Option NodeSpec) (x : NodeEntry)
      → entry_or o (λ b. node_entry (node_reasons g g edges) b o) none ≡ some x
      → (number_of_node x.change == 0) ≡ true
  kept_by none x e = absurd (cc)
  kept_by (some b) x e = kept_node (node_reasons g g edges b b) x (same_node b) (
      sym (
        ap
          (λ t. some (
            if t
            then node_entry_of (node_reasons g g edges b b)
            else record { change = node_replaced; reason = operator_changed b.op b.op ∷ [] }))
          (op_eq_refl b.op))
      ∙ e)

  kept_nodes :
      (j : Text) (x : NodeEntry)
      → lookup j (compute_diff g contracts g contracts).nodes ≡ some x
      → (number_of_node x.change == 0) ≡ true
  kept_nodes j x e = kept_by (find_node j g) x (
      sym (
        lookup_node g contracts g contracts j v
        ∙ nothing_new (is_found (find_node j g))
            (some (record { change = node_added; reason = [] }))
            (entry_or (find_node j g) (λ b. node_entry (node_reasons g g edges) b (find_node j g))
              none))
      ∙ e)

-- The difference of a valid graph from itself, with the same contracts, is empty: every node and every
-- edge is kept.
pub compute_diff_self :
    (g : GraphSpec) (contracts : List (Text × ConnectionContract))
    → IsValid g
    → is_empty_diff (compute_diff g contracts g contracts) ≡ true
unfolding is_empty_diff compute_diff
compute_diff_self g contracts v =
    let d = compute_diff g contracts g contracts in
    ap₂ ◌&&◌
      (all_pass_from (λ (e : NodeEntry). number_of_node e.change == 0) d.nodes
        (nodes-KeysApart g contracts g contracts) (kept_nodes g contracts v))
      (all_pass_from is_reused_edge (diff_edges g contracts g contracts)
        (edges-KeysApart g contracts g contracts) (kept_edges g contracts v))
