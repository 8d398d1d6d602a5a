-- ===== src/Graph/Lookup.antt =====
-- Well-formed graphs of src/graph_spec.cpp, and what the parts of the edits do to the lookups.
use ge.Prelude.{
  ◌<◌, ◌≡◌, refl, sym, ap, ◌∙◌, true, false, not, ◌||◌, ◌&&◌, List, [], ◌∷◌, ◌++◌, Text, text_eq,
  text_eq→eq, arith, Bool-cases, inl, inr,
}
use ge.Graph.{
  NodeSpec, EdgeSpec, PortRef, port_eq, is_valid_stable_id, is_empty, derive_edge_id, find_in,
  find_edge_in, is_found, is_gpu, same_ends, zero_bytes,
}

abbrev pub NodeFits : NodeSpec → Type 0
NodeFits n =
    (is_valid_stable_id n.id ≡ true)
    × (is_empty n.op.type_name ≡ false)
    × (0 < n.parallelism)
    × ((not (is_gpu n.executor.kind) && is_found n.executor.device_id) ≡ false)

-- Every node fits, and no id stands twice.
abbrev pub NodesFit : List NodeSpec → Type 0
NodesFit [] = Unit {0}
NodesFit (n ∷ rest) = (is_found (find_in n.id rest) ≡ false) × NodeFits n × NodesFit rest

-- An edge between ports of nodes that are there.
abbrev pub EdgeFits : List NodeSpec → EdgeSpec → Type 0
EdgeFits ns e =
    ((is_valid_stable_id e.id || text_eq e.id (derive_edge_id e.from e.to)) ≡ true)
    × (is_found (find_in e.from.node_id ns) ≡ true)
    × (is_found (find_in e.to.node_id ns) ≡ true)
    × ((is_empty e.from.port || is_empty e.to.port) ≡ false)
    × (0 < e.queue.capacity)
    × (zero_bytes e.queue.max_packet_bytes ≡ false)

-- Every edge fits, no id stands twice and no two edges have the same ends.
abbrev pub EdgesFit : List NodeSpec → List EdgeSpec → Type 0
EdgesFit ns [] = Unit {0}
EdgesFit ns (e ∷ rest) =
    (is_found (find_edge_in e.id rest) ≡ false)
    × (same_ends e rest ≡ false)
    × EdgeFits ns e
    × EdgesFit ns rest

pub text_eq-sym : (s t : Text) → text_eq s t ≡ text_eq t s
text_eq-sym s t = elim (Bool-cases (text_eq s t)) [
  | inl e ↦ ap (λ x. text_eq x t) (text_eq→eq s t e) ∙ ap (text_eq t) (sym (text_eq→eq s t e))
  | inr e ↦ elim (Bool-cases (text_eq t s)) [
    | inl f ↦ ap (text_eq s) (text_eq→eq t s f) ∙ ap (λ x. text_eq x s) (sym (text_eq→eq t s f))
    | inr f ↦ e ∙ sym f
  ]
]

pub found-append :
    (id : Text) (ns : List NodeSpec) (n : NodeSpec)
    → is_found (find_in id (ns ++ n ∷ [])) ≡ (is_found (find_in id ns) || text_eq n.id id)
unfolding find_in
found-append id [] n = ground arith
found-append id (m ∷ ns) n = ground (arith, found-append id ns n)

pub edge_found-append :
    (id : Text) (es : List EdgeSpec) (e : EdgeSpec)
    → is_found (find_edge_in id (es ++ e ∷ [])) ≡ (is_found (find_edge_in id es) || text_eq e.id id)
unfolding find_edge_in
edge_found-append id [] e = ground arith
edge_found-append id (f ∷ es) e = ground (arith, edge_found-append id es e)

port_eq-sym : (p q : PortRef) → port_eq p q ≡ port_eq q p
port_eq-sym p q = ground (arith, text_eq-sym p.node_id q.node_id, text_eq-sym p.port q.port)

pub same_ends-append :
    (f : EdgeSpec) (es : List EdgeSpec) (e : EdgeSpec)
    → same_ends f (es ++ e ∷ []) ≡ (same_ends f es || (port_eq e.from f.from && port_eq e.to f.to))
unfolding same_ends
same_ends-append f [] e = ground arith
same_ends-append f (g ∷ es) e = ground (arith, same_ends-append f es e)

pub NodesFit-append :
    (ns : List NodeSpec) (n : NodeSpec)
    → NodesFit ns
    → NodeFits n
    → is_found (find_in n.id ns) ≡ false
    → NodesFit (ns ++ n ∷ [])
unfolding find_in
NodesFit-append [] n v fits new = (refl, fits, tt)
NodesFit-append (m ∷ ns) n v fits new = (
  ground (arith, v.0, new, found-append m.id ns n, text_eq-sym m.id n.id),
  v.1,
  NodesFit-append ns n v.2 fits (ground (arith, new)),
)

pub EdgesFit-more :
    (ns : List NodeSpec) (n : NodeSpec) (es : List EdgeSpec)
    → EdgesFit ns es
    → EdgesFit (ns ++ n ∷ []) es
EdgesFit-more ns n [] v = tt
EdgesFit-more ns n (e ∷ es) v = (
  v.0,
  v.1,
  (
    v.2.0,
    ground (arith, v.2.1, found-append e.from.node_id ns n),
    ground (arith, v.2.2, found-append e.to.node_id ns n),
    v.2.3,
    v.2.4,
    v.2.5,
  ),
  EdgesFit-more ns n es v.3,
)

pub EdgesFit-append :
    (ns : List NodeSpec) (es : List EdgeSpec) (e : EdgeSpec)
    → EdgesFit ns es
    → EdgeFits ns e
    → is_found (find_edge_in e.id es) ≡ false
    → same_ends e es ≡ false
    → EdgesFit ns (es ++ e ∷ [])
unfolding find_edge_in same_ends
EdgesFit-append ns [] e v fits new apart = (refl, refl, fits, tt)
EdgesFit-append ns (f ∷ es) e v fits new apart = (
  ground (arith, v.0, new, edge_found-append f.id es e, text_eq-sym f.id e.id),
  ground (
    arith,
    v.1,
    apart,
    same_ends-append f es e,
    port_eq-sym f.from e.from,
    port_eq-sym f.to e.to,
  ),
  v.2,
  EdgesFit-append ns es e v.3 fits (ground (arith, new)) (ground (arith, apart)),
)
