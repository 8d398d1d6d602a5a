-- ===== src/Graph/Found.antt =====
-- What the lookups of src/graph_spec.cpp find after an edit.
use ge.Prelude.{
  ◌≡◌, refl, sym, ap, ◌∙◌, true, false, none, some, List, [], ◌∷◌, ◌++◌, if◌then◌else◌, Text,
  text_eq, text_eq→eq, arith, Bool-cases, inl, inr,
}
use ge.Graph.{
  NodeSpec, EdgeSpec, GraphSpec, fine, find_node, find_edge, find_in, find_edge_in, is_found,
  erase_touching, touches, remove_node, check_node, add_node, with_id, check_edge, add_edge,
  keep_if, edges_from, edges_to,
}
use ge.Graph.Removal.{find-erase_node, find-erase_touching, unless_touching}
use ge.Graph.Edits.{IsValid, check_node-fits, check_edge-fits, commit_status}

none_from :
    (id : Text) (es : List EdgeSpec)
    → keep_if (λ e. text_eq e.from.node_id id) (erase_touching id es) ≡ []
unfolding erase_touching touches
none_from id [] = refl
none_from id (e ∷ es) = ground (arith, none_from id es)

none_to :
    (id : Text) (es : List EdgeSpec)
    → keep_if (λ e. text_eq e.to.node_id id) (erase_touching id es) ≡ []
unfolding erase_touching touches
none_to id [] = refl
none_to id (e ∷ es) = ground (arith, none_to id es)

-- Removing a node that is in a valid graph succeeds. Afterwards every lookup of a node finds what it
-- found, except that of the removed id, which finds nothing; every lookup of an edge finds what it
-- found, unless that edge began or ended at the node; and no edge leaves or enters the node.
pub find-remove_node :
    (id : Text) (g : GraphSpec)
    → IsValid g
    → is_found (find_node id g) ≡ true
    → ((remove_node id g).0 ≡ fine)
      × ((j : Text)
          → find_node j (remove_node id g).1 ≡ (if text_eq id j then none else find_node j g))
      × ((j : Text) → find_edge j (remove_node id g).1 ≡ unless_touching id (find_edge j g))
      × (edges_from id (remove_node id g).1 ≡ [])
      × (edges_to id (remove_node id g).1 ≡ [])
unfolding remove_node edges_from edges_to
find-remove_node id g v there = rw there (
  refl,
  λ j. find-erase_node id j g.nodes v.0,
  λ j. find-erase_touching id j g.nodes g.edges v.1,
  none_from id g.edges,
  none_to id g.edges,
)

find-append :
    (j : Text) (ns : List NodeSpec) (n : NodeSpec)
    → is_found (find_in n.id ns) ≡ false
    → find_in j (ns ++ n ∷ []) ≡ (if text_eq n.id j then some n else find_in j ns)
unfolding find_in
find-append j [] n new = refl
find-append j (m ∷ ns) n new = elim (Bool-cases (text_eq n.id j)) [
  | inl same ↦
      let e : text_eq m.id j ≡ false =
        ap (text_eq m.id) (sym (text_eq→eq n.id j same)) ∙ ground (arith, new) in
      ground (arith, e, same, find-append j ns n (ground (arith, new)))
  | inr other ↦ ground (arith, other, find-append j ns n (ground (arith, new)))
]

edge_find-append :
    (j : Text) (es : List EdgeSpec) (n : EdgeSpec)
    → is_found (find_edge_in n.id es) ≡ false
    → find_edge_in j (es ++ n ∷ []) ≡ (if text_eq n.id j then some n else find_edge_in j es)
unfolding find_edge_in
edge_find-append j [] n new = refl
edge_find-append j (m ∷ es) n new = elim (Bool-cases (text_eq n.id j)) [
  | inl same ↦
      let e : text_eq m.id j ≡ false =
        ap (text_eq m.id) (sym (text_eq→eq n.id j same)) ∙ ground (arith, new) in
      ground (arith, e, same, edge_find-append j es n (ground (arith, new)))
  | inr other ↦ ground (arith, other, edge_find-append j es n (ground (arith, new)))
]

-- An added node is found under its id and an added edge under its id, given or derived from its ends;
-- every other lookup, of a node or of an edge, finds what it found before.
pub find-add :
    (n : NodeSpec) (e : EdgeSpec) (g : GraphSpec)
    → (add_node n g).0 ≡ fine
    → (add_edge e g).0 ≡ fine
    → ((j : Text)
        → find_node j (add_node n g).1 ≡ (if text_eq n.id j then some n else find_node j g))
      × ((j : Text) → find_edge j (add_node n g).1 ≡ find_edge j g)
      × ((j : Text)
          → find_edge j (add_edge e g).1
            ≡ (if text_eq (with_id e).id j then some (with_id e) else find_edge j g))
      × ((j : Text) → find_node j (add_edge e g).1 ≡ find_node j g)
unfolding add_node add_edge
find-add n e g h k =
    let p : check_node n g ≡ fine =
      sym (commit_status (check_node n g) g (record g { nodes = g.nodes ++ n ∷ [] })) ∙ h in
    let q : check_edge (with_id e) g ≡ fine =
      sym (
        commit_status (check_edge (with_id e) g) g (record g { edges = g.edges ++ with_id e ∷ [] }))
      ∙ k in
    rw (p, q)
      (
        λ j. find-append j g.nodes n (check_node-fits n g p).1,
        λ j. refl,
        λ j. edge_find-append j g.edges (with_id e) (check_edge-fits (with_id e) g q).1,
        λ j. refl,
      )
