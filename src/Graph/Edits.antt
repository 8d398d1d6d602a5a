-- ===== src/Graph/Edits.antt =====
-- Sequences of edits of a GraphSpec of src/graph_spec.cpp.
use ge.Prelude.{
  ◌≡◌, refl, ap, ◌∙◌, true, false, Bool, List, [], ◌∷◌, ◌++◌, if◌then◌else◌, Text, arith, ◌≢◌,
}
use ge.Graph.{
  NodeSpec, EdgeSpec, GraphSpec, empty_graph, Status, fine, graph_invalid, already_exists,
  not_found, invalid_argument, shared_dependency, find_node, find_edge, find_in, find_edge_in,
  is_found, same_ends, erase_node, erase_edge, erase_touching, remove_node, remove_edge, check_node,
  commit_if, add_node, with_id, check_edge, add_edge,
}
use ge.Graph.Lookup.{
  NodeFits, NodesFit, EdgesFit, EdgeFits, NodesFit-append, EdgesFit-more, EdgesFit-append,
}
use ge.Graph.Removal.{NodesFit-erase_node, EdgesFit-erase_node, EdgesFit-erase_edge}

-- Node ids are valid and distinct, every edge joins ports of nodes of the graph, edge ids are distinct,
-- and no two edges have the same ends.
abbrev pub IsValid : GraphSpec → Type 0
IsValid g = NodesFit g.nodes × EdgesFit g.nodes g.edges

pub data Edit : Type 0 where
  adds_node : NodeSpec → Edit
  adds_edge : EdgeSpec → Edit
  removes_node : Text → Edit
  removes_edge : Text → Edit

abbrev pub edit : Edit → GraphSpec → Status × GraphSpec
edit (adds_node n) g = add_node n g
edit (adds_edge e) g = add_edge e g
edit (removes_node id) g = remove_node id g
edit (removes_edge id) g = remove_edge id g

-- The graph after the edits, whatever their statuses.
unfoldable pub run_edits : List Edit → GraphSpec → GraphSpec
run_edits [] g = g
run_edits (x ∷ xs) g = run_edits xs (edit x g).1

pub commit_cases :
    (s : Status) (old new : GraphSpec)
    → IsValid old
    → (s ≡ fine → IsValid new)
    → IsValid (commit_if s old new).1
commit_cases fine old new v w = w refl
commit_cases graph_invalid old new v w = v
commit_cases already_exists old new v w = v
commit_cases not_found old new v w = v
commit_cases invalid_argument old new v w = v
commit_cases shared_dependency old new v w = v

pub check_node-fits :
    (n : NodeSpec) (g : GraphSpec)
    → check_node n g ≡ fine
    → NodeFits n × (is_found (find_in n.id g.nodes) ≡ false)
unfolding check_node
check_node-fits n g h = ground arith

pub check_edge-fits :
    (e : EdgeSpec) (g : GraphSpec)
    → check_edge e g ≡ fine
    → EdgeFits g.nodes e
      × (is_found (find_edge_in e.id g.edges) ≡ false)
      × (same_ends e g.edges ≡ false)
unfolding check_edge
check_edge-fits e g h = ground arith

pub add_node-IsValid : (n : NodeSpec) (g : GraphSpec) → IsValid g → IsValid (add_node n g).1
unfolding add_node
add_node-IsValid n g v =
    commit_cases (check_node n g) g (record g { nodes = g.nodes ++ n ∷ [] }) v
      (λ h.
        let fits = check_node-fits n g h in
        (NodesFit-append g.nodes n v.0 fits.0 fits.1, EdgesFit-more g.nodes n g.edges v.1))

pub add_edge-IsValid : (e : EdgeSpec) (g : GraphSpec) → IsValid g → IsValid (add_edge e g).1
unfolding add_edge
add_edge-IsValid e g v =
    commit_cases (check_edge (with_id e) g) g (record g { edges = g.edges ++ with_id e ∷ [] }) v
      (λ h.
        let fits = check_edge-fits (with_id e) g h in
        (v.0, EdgesFit-append g.nodes g.edges (with_id e) v.1 fits.0 fits.1 fits.2))

-- A removal is a check followed by a change.
keep_if_refused :
    (b : Bool) (g new : GraphSpec)
    → IsValid g
    → IsValid new
    → IsValid (if◌then◌else◌ {A = Status × GraphSpec} b (fine, new) (not_found, g)).1
keep_if_refused true g new v w = w
keep_if_refused false g new v w = v

pub remove_node-IsValid : (id : Text) (g : GraphSpec) → IsValid g → IsValid (remove_node id g).1
unfolding remove_node
remove_node-IsValid id g v =
    keep_if_refused (is_found (find_node id g)) g
      (record { nodes = erase_node id g.nodes; edges = erase_touching id g.edges }) v
      (NodesFit-erase_node id g.nodes v.0, EdgesFit-erase_node id g.nodes g.edges v.0 v.1)

pub remove_edge-IsValid : (id : Text) (g : GraphSpec) → IsValid g → IsValid (remove_edge id g).1
unfolding remove_edge
remove_edge-IsValid id g v =
    keep_if_refused (is_found (find_edge id g)) g (record g { edges = erase_edge id g.edges }) v
      (v.0, EdgesFit-erase_edge id g.nodes g.edges v.1)

edit-IsValid : (x : Edit) (g : GraphSpec) → IsValid g → IsValid (edit x g).1
edit-IsValid (adds_node n) g v = add_node-IsValid n g v
edit-IsValid (adds_edge e) g v = add_edge-IsValid e g v
edit-IsValid (removes_node id) g v = remove_node-IsValid id g v
edit-IsValid (removes_edge id) g v = remove_edge-IsValid id g v

pub run_edits_from : (xs : List Edit) (g : GraphSpec) → IsValid g → IsValid (run_edits xs g)
unfolding run_edits
run_edits_from [] g v = v
run_edits_from (x ∷ xs) g v = run_edits_from xs (edit x g).1 (edit-IsValid x g v)

-- After any sequence of edits of an empty graph, refused ones included: node ids are valid and stand
-- once, operators are named, the parallelism is not 0 and only gpu nodes name a device; edge ids stand
-- once and are valid or derived from the ends, no two edges have the same ends, and every edge has a
-- positive capacity, no byte bound of 0, two named ports and two nodes that are in the graph.
pub run_edits-IsValid : (xs : List Edit) → IsValid (run_edits xs empty_graph)
run_edits-IsValid xs = run_edits_from xs empty_graph (tt, tt)

commit_refused : (s : Status) (old new : GraphSpec) → s ≢ fine → commit_if s old new ≡ (s, old)
commit_refused fine old new h = absurd (h refl)
commit_refused graph_invalid old new h = refl
commit_refused already_exists old new h = refl
commit_refused not_found old new h = refl
commit_refused invalid_argument old new h = refl
commit_refused shared_dependency old new h = refl

pub commit_status : (s : Status) (old new : GraphSpec) → (commit_if s old new).0 ≡ s
commit_status fine old new = refl
commit_status graph_invalid old new = refl
commit_status already_exists old new = refl
commit_status not_found old new = refl
commit_status invalid_argument old new = refl
commit_status shared_dependency old new = refl

add_refused :
    (s : Status) (old new : GraphSpec)
    → (commit_if s old new).0 ≢ fine
    → (commit_if s old new).1 ≡ old
add_refused s old new h =
    ap (λ (p : Status × GraphSpec). p.1)
      (commit_refused s old new (λ e. h (commit_status s old new ∙ e)))

remove_refused :
    (b : Bool) (g new : GraphSpec)
    → (if◌then◌else◌ {A = Status × GraphSpec} b (fine, new) (not_found, g)).0 ≢ fine
    → (if◌then◌else◌ {A = Status × GraphSpec} b (fine, new) (not_found, g)).1 ≡ g
remove_refused true g new h = absurd (h refl)
remove_refused false g new h = refl

-- An edit with any other status than Ok leaves the graph as it was.
pub edit_refused : (x : Edit) (g : GraphSpec) → (edit x g).0 ≢ fine → (edit x g).1 ≡ g
unfolding add_node add_edge remove_node remove_edge
edit_refused (adds_node n) g h =
    add_refused (check_node n g) g (record g { nodes = g.nodes ++ n ∷ [] }) h
edit_refused (adds_edge e) g h =
    add_refused (check_edge (with_id e) g) g (record g { edges = g.edges ++ with_id e ∷ [] }) h
edit_refused (removes_node id) g h =
    remove_refused (is_found (find_node id g)) g
      (record { nodes = erase_node id g.nodes; edges = erase_touching id g.edges }) h
edit_refused (removes_edge id) g h =
    remove_refused (is_found (find_edge id g)) g (record g { edges = erase_edge id g.edges }) h
