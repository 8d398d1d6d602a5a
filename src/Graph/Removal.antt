-- ===== src/Graph/Removal.antt =====
-- What the removals of src/graph_spec.cpp leave: everything but the node and the edges that touch it,
-- or but the edge.
use ge.Prelude.{
  ◌≡◌, refl, sym, ap, ◌∙◌, true, false, Bool, Option, none, some, List, [], ◌∷◌, if◌then◌else◌,
  Text, text_eq, text_eq→eq, arith, Bool-cases, inl, inr,
}
use ge.Graph.{
  NodeSpec, EdgeSpec, find_in, find_edge_in, is_found, same_ends, erase_node, erase_edge,
  erase_touching, touches,
}
use ge.Graph.Lookup.{NodesFit, EdgesFit, EdgeFits, text_eq-sym}

text_eq-subst : (s t u : Text) → text_eq s t ≡ true → text_eq s u ≡ text_eq t u
text_eq-subst s t u h = ap (λ x. text_eq x u) (text_eq→eq s t h)

not_found : {A : Type 0} (o : Option A) → is_found o ≡ false → o ≡ none
not_found none h = refl
not_found (some x) h = absurd (cc)

-- Only the node of the id is gone, if it stood once.
pub find-erase_node :
    (id j : Text) (ns : List NodeSpec)
    → NodesFit ns
    → find_in j (erase_node id ns) ≡ (if text_eq id j then none else find_in j ns)
unfolding find_in erase_node
find-erase_node id j [] v = ground arith
find-erase_node id j (n ∷ ns) v = elim (Bool-cases (text_eq n.id id)) [
  | inl this ↦ elim (Bool-cases (text_eq id j)) [
    | inl same ↦
        let e : find_in j ns ≡ none =
          ap (λ x. find_in x ns) (sym (text_eq→eq n.id id this ∙ text_eq→eq id j same))
          ∙ not_found (find_in n.id ns) v.0 in
        ground (arith, this, same, e)
    | inr other ↦ ground (arith, this, other, text_eq-subst n.id id j this)
  ]
  | inr that ↦ elim (Bool-cases (text_eq n.id j)) [
    | inl same ↦
        let e : text_eq id j ≡ false =
          ap (text_eq id) (sym (text_eq→eq n.id j same)) ∙ text_eq-sym id n.id ∙ that in
        ground (arith, that, same, e)
    | inr other ↦ ground (arith, that, other, find-erase_node id j ns v.2)
  ]
]

-- The same for the edges.
pub find-erase_edge :
    (id j : Text) (ns : List NodeSpec) (es : List EdgeSpec)
    → EdgesFit ns es
    → find_edge_in j (erase_edge id es) ≡ (if text_eq id j then none else find_edge_in j es)
unfolding find_edge_in erase_edge
find-erase_edge id j ns [] v = ground arith
find-erase_edge id j ns (n ∷ es) v = elim (Bool-cases (text_eq n.id id)) [
  | inl this ↦ elim (Bool-cases (text_eq id j)) [
    | inl same ↦
        let e : find_edge_in j es ≡ none =
          ap (λ x. find_edge_in x es) (sym (text_eq→eq n.id id this ∙ text_eq→eq id j same))
          ∙ not_found (find_edge_in n.id es) v.0 in
        ground (arith, this, same, e)
    | inr other ↦ ground (arith, this, other, text_eq-subst n.id id j this)
  ]
  | inr that ↦ elim (Bool-cases (text_eq n.id j)) [
    | inl same ↦
        let e : text_eq id j ≡ false =
          ap (text_eq id) (sym (text_eq→eq n.id j same)) ∙ text_eq-sym id n.id ∙ that in
        ground (arith, that, same, e)
    | inr other ↦ ground (arith, that, other, find-erase_edge id j ns es v.3)
  ]
]

-- What an edge lookup finds among the edges that are left.
abbrev pub unless_touching : Text → Option EdgeSpec → Option EdgeSpec
unless_touching id none = none
unless_touching id (some e) = if touches id e then none else some e

pub find-erase_touching :
    (id j : Text) (ns : List NodeSpec) (es : List EdgeSpec)
    → EdgesFit ns es
    → find_edge_in j (erase_touching id es) ≡ unless_touching id (find_edge_in j es)
unfolding find_edge_in erase_touching
find-erase_touching id j ns [] v = refl
find-erase_touching id j ns (e ∷ es) v = elim (Bool-cases (text_eq e.id j)) [
  | inl same ↦
      let gone : find_edge_in j es ≡ none =
        ap (λ x. find_edge_in x es) (sym (text_eq→eq e.id j same))
        ∙ not_found (find_edge_in e.id es) v.0 in
      ground (arith, same, gone, find-erase_touching id j ns es v.3)
  | inr other ↦ ground (arith, other, find-erase_touching id j ns es v.3)
]

found-erase_touching :
    (id j : Text) (es : List EdgeSpec)
    → is_found (find_edge_in j es) ≡ false
    → is_found (find_edge_in j (erase_touching id es)) ≡ false
unfolding find_edge_in erase_touching
found-erase_touching id j [] h = refl
found-erase_touching id j (e ∷ es) h = ground (arith, h, found-erase_touching id j es)

found-erase_edge :
    (id j : Text) (es : List EdgeSpec)
    → is_found (find_edge_in j es) ≡ false
    → is_found (find_edge_in j (erase_edge id es)) ≡ false
unfolding find_edge_in erase_edge
found-erase_edge id j [] h = refl
found-erase_edge id j (e ∷ es) h = ground (arith, h, found-erase_edge id j es)

ends-erase_touching :
    (id : Text) (e : EdgeSpec) (es : List EdgeSpec)
    → same_ends e es ≡ false
    → same_ends e (erase_touching id es) ≡ false
unfolding same_ends erase_touching
ends-erase_touching id e [] h = refl
ends-erase_touching id e (f ∷ es) h = ground (arith, h, ends-erase_touching id e es)

ends-erase_edge :
    (id : Text) (e : EdgeSpec) (es : List EdgeSpec)
    → same_ends e es ≡ false
    → same_ends e (erase_edge id es) ≡ false
unfolding same_ends erase_edge
ends-erase_edge id e [] h = refl
ends-erase_edge id e (f ∷ es) h = ground (arith, h, ends-erase_edge id e es)

found-erase_node :
    (id j : Text) (ns : List NodeSpec)
    → is_found (find_in j ns) ≡ false
    → is_found (find_in j (erase_node id ns)) ≡ false
unfolding find_in erase_node
found-erase_node id j [] h = refl
found-erase_node id j (n ∷ ns) h = ground (arith, h, found-erase_node id j ns)

pub NodesFit-erase_node :
    (id : Text) (ns : List NodeSpec) → NodesFit ns → NodesFit (erase_node id ns)
unfolding erase_node
NodesFit-erase_node id [] v = tt
NodesFit-erase_node id (n ∷ ns) v =
    elim (text_eq n.id id) as (λ (b : Bool). NodesFit (if b then ns else n ∷ erase_node id ns)) [
      | true ↦ v.2
      | false ↦ (found-erase_node id n.id ns v.0, v.1, NodesFit-erase_node id ns v.2)
    ]

-- An edge that does not touch the node keeps its two ends.
EdgeFits-erase_node :
    (id : Text) (ns : List NodeSpec) (e : EdgeSpec)
    → NodesFit ns
    → touches id e ≡ false
    → EdgeFits ns e
    → EdgeFits (erase_node id ns) e
unfolding touches
EdgeFits-erase_node id ns e v apart fits = (
  fits.0,
  ground
      (arith, apart, fits.1, find-erase_node id e.from.node_id ns v, text_eq-sym id e.from.node_id),
  ground (arith, apart, fits.2, find-erase_node id e.to.node_id ns v, text_eq-sym id e.to.node_id),
  fits.3,
  fits.4,
  fits.5,
)

pub EdgesFit-erase_node :
    (id : Text) (ns : List NodeSpec) (es : List EdgeSpec)
    → NodesFit ns
    → EdgesFit ns es
    → EdgesFit (erase_node id ns) (erase_touching id es)
unfolding erase_touching
EdgesFit-erase_node id ns [] v w = tt
EdgesFit-erase_node id ns (e ∷ es) v w = elim (Bool-cases (touches id e)) [
  | inl h ↦ rw h (EdgesFit-erase_node id ns es v w.3)
  | inr h ↦ rw h (
    found-erase_touching id e.id es w.0,
    ends-erase_touching id e es w.1,
    EdgeFits-erase_node id ns e v h w.2,
    EdgesFit-erase_node id ns es v w.3,
  )
]

pub EdgesFit-erase_edge :
    (id : Text) (ns : List NodeSpec) (es : List EdgeSpec)
    → EdgesFit ns es
    → EdgesFit ns (erase_edge id es)
unfolding erase_edge
EdgesFit-erase_edge id ns [] w = tt
EdgesFit-erase_edge id ns (e ∷ es) w =
    elim (text_eq e.id id) as (λ (b : Bool). EdgesFit ns (if b then es else e ∷ erase_edge id es)) [
      | true ↦ w.3
      | false ↦ (
        found-erase_edge id e.id es w.0,
        ends-erase_edge id e es w.1,
        w.2,
        EdgesFit-erase_edge id ns es w.3,
      )
    ]
