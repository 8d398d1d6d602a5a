-- ===== src/Validator/Cycles.antt =====
-- What the order of src/graph_validator.cpp and its issue of a cycle say of a graph.
use ge.Prelude.{
  ℕ, zero, suc, ◌+◌, ◌≤◌, ◌<◌, ◌≡◌, ◌↔◌, refl, sym, ap, ◌∙◌, subst, true, false, Option, none, some,
  List, [], ◌∷◌, ◌==◌, ==_iff, length, get_elem?, Text, text_eq, text_eq→eq, text_eq_refl, arith,
  Bool-cases, inl, inr,
}
use ge.Graph.{NodeSpec, EdgeSpec, GraphSpec, find_in, is_found}
use ge.Graph.Edits.{IsValid}
use ge.Applier.{mem, place_of}
use ge.Applier.Tracks.{count, mem-count}
use ge.Validator.{is_ordering, in_degree, roots, topological_order, cycle_issue}
use ge.Validator.Relax.{open_edges-start}
use ge.Validator.Order.{Forward, Sorting, missing, missing-start}
use ge.Validator.Sorted.{count-roots, open_from, sorts}

-- The edges that are not feedback edges lead from lower to higher ranks, for some ranks of the nodes.
abbrev pub IsAcyclic : GraphSpec → Type 0
IsAcyclic g =
    (rank : Text → ℕ) × ((i : ℕ) (e : EdgeSpec)
      → get_elem? g.edges i ≡ some e
      → is_ordering g.nodes e ≡ true
      → rank e.from.node_id < rank e.to.node_id)

-- An edge into the node that begins at a node outside of the order.
abbrev pub EntersFrom : GraphSpec → List Text → Text → Type 0
EntersFrom g order x =
    (i : ℕ) × (e : EdgeSpec) × (get_elem? g.edges i ≡ some e)
    × (is_ordering g.nodes e ≡ true)
    × (text_eq e.to.node_id x ≡ true)
    × (mem e.from.node_id order ≡ false)

begins :
    (g : GraphSpec)
    → IsValid g
    → Sorting g.nodes g.edges
        (λ id. in_degree g.nodes id g.edges)
        (roots g.nodes g.edges g.nodes)
        []
unfolding count mem
begins g v = (
  λ x. sym (open_edges-start g.nodes x g.edges),
  λ x. ground (arith, count-roots g.nodes g.edges g.nodes x v.0),
  λ i e p q r. absurd (cc),
)

sorted :
    (g : GraphSpec)
    → IsValid g
    → (order : List Text) × (left : Text → ℕ) × (topological_order g ≡ some (order, left))
      × (length order + missing g.nodes g.edges g.nodes order ≡ length g.nodes)
      × Sorting g.nodes g.edges left [] order
unfolding topological_order mem
sorted g v =
    let start = missing-start g.nodes g.edges g.nodes in
    sorts g.nodes g.edges (suc (length g.nodes)) (λ id. in_degree g.nodes id g.edges)
      (roots g.nodes g.edges g.nodes) [] v.0 (omega (arith, start)) (omega (arith, start))
      (begins g v)

-- The sort of a valid graph ends within its fuel. In its order every text stands at most once and
-- names a node; every edge of the graph that is not a feedback edge and leads to a node of the order
-- begins at an earlier one; and every node that is not in the order has such an edge from another node
-- that is not in the order.
pub topological_order_lem :
    (g : GraphSpec)
    → IsValid g
    → (order : List Text) × (left : Text → ℕ) × (topological_order g ≡ some (order, left))
      × ((x : Text) → count x order ≤ 1)
      × ((x : Text) → mem x order ≡ true → is_found (find_in x g.nodes) ≡ true)
      × Forward g.nodes g.edges order
      × ((x : Text)
          → is_found (find_in x g.nodes) ≡ true
          → mem x order ≡ false
          → EntersFrom g order x)
unfolding count
topological_order_lem g v =
    let (order, left, e, total, (opens, counts, forward)) = sorted g v in
    (
      order,
      left,
      e,
      λ x. ground (arith, counts x),
      λ x m. ground (arith, counts x, mem-count x order, m),
      forward,
      λ x there out.
          open_from g.nodes order x g.edges
            (λ z. absurd (ground (arith, counts x, there, out, mem-count x order, opens x, z))),
    )

missing_none :
    (g : GraphSpec) (ms : List NodeSpec) (order : List Text) (x : Text)
    → missing g.nodes g.edges ms order ≡ 0
    → is_found (find_in x ms) ≡ true
    → mem x order ≡ true
unfolding missing find_in
missing_none g [] order x h p = absurd (cc)
missing_none g (m ∷ ms) order x h p = elim (Bool-cases (text_eq m.id x)) [
  | inl k ↦ ap (λ y. mem y order) (sym (text_eq→eq m.id x k)) ∙ ground (arith, h)
  | inr k ↦ missing_none g ms order x (ground (arith, h)) (ground (arith, p, k))
]

none_missing :
    (g : GraphSpec) (ms : List NodeSpec) (order : List Text)
    → ((x : Text) → is_found (find_in x ms) ≡ true → mem x order ≡ true)
    → missing g.nodes g.edges ms order ≡ 0
unfolding missing find_in
none_missing g [] order h = refl
none_missing g (m ∷ ms) order h =
    let first : mem m.id order ≡ true = h m.id (ground (arith, text_eq_refl m.id)) in
    let rest = none_missing g ms order (λ x p. h x (ground (arith, p))) in
    ground (arith, first, rest)

-- A node outside of the order would start an endless descent of the ranks.
no_descent :
    (g : GraphSpec) (order : List Text) (acyclic : IsAcyclic g)
    → ((x : Text)
        → is_found (find_in x g.nodes) ≡ true
        → mem x order ≡ false
        → EntersFrom g order x)
    → (bound : ℕ) (x : Text) → acyclic.0 x < bound
    → is_found (find_in x g.nodes) ≡ true
    → mem x order ≡ true
unfolding is_ordering
no_descent g order acyclic enters zero x h there = absurd (omega (arith, h))
no_descent g order acyclic enters (suc bound) x h there = elim (Bool-cases (mem x order)) [
  | inl k ↦ k
  | inr k ↦
      let (i, e, p, q, r, out) = enters x there k in
      let lower : acyclic.0 e.from.node_id < acyclic.0 x =
        subst (λ y. acyclic.0 e.from.node_id < acyclic.0 y) (text_eq→eq e.to.node_id x r)
          (acyclic.1 i e p q) in
      let inside =
        no_descent g order acyclic enters bound e.from.node_id (omega (arith, h, lower))
          (ground (arith, q)) in
      absurd (ground (arith, inside, out))
]

cycle_issue_iff :
    (ns : List NodeSpec) (r : List Text × (Text → ℕ))
    → (cycle_issue ns r ≡ none) ↔ (length r.0 ≡ length ns)
unfolding cycle_issue
cycle_issue_iff ns r = elim (Bool-cases (length r.0 == length ns)) [
  | inl k ↦ (λ h. (==_iff (length r.0) (length ns)).0 k, λ h. rw k refl)
  | inr k ↦ (
    λ h. absurd (ground (arith, h, k)),
    λ h. absurd (ground (arith, (==_iff (length r.0) (length ns)).1 h, k)),
  )
]

-- The sort of a valid graph ends, and the issue of a cycle is not raised exactly when the edges that
-- are not feedback edges have no cycle: when the nodes have ranks that rise along them.
pub cycle_issue-IsAcyclic :
    (g : GraphSpec)
    → IsValid g
    → (r : List Text × (Text → ℕ)) × (topological_order g ≡ some r)
      × ((cycle_issue g.nodes r ≡ none) ↔ IsAcyclic g)
unfolding is_ordering
cycle_issue-IsAcyclic g v =
    let (order, left, e, total, (opens, counts, forward)) = sorted g v in
    let (order', left', e', once, there, forward', enters) = topological_order_lem g v in
    let r : List Text × (Text → ℕ) = (order, left) in
    let same : order' ≡ order =
      ap (λ (o : Option (List Text × (Text → ℕ))). elim o [ some x ↦ x.0 | none ↦ order' ])
        (sym e' ∙ e) in
    (
      r,
      e,
      (
        λ h.
            let none_left : missing g.nodes g.edges g.nodes order ≡ 0 =
              omega (arith, total, (cycle_issue_iff g.nodes r).0 h) in
            (
              λ x. place_of x order,
              λ i f p q.
                  (forward i f p q
                    (missing_none g g.nodes order f.to.node_id none_left (ground (arith, q)))).1,
            ),
        λ acyclic.
            let none_left : missing g.nodes g.edges g.nodes order ≡ 0 =
              none_missing g g.nodes order (λ x there.
                no_descent g order acyclic
                  (subst
                    (λ o.
                      (x : Text)
                      → is_found (find_in x g.nodes) ≡ true
                      → mem x o ≡ false
                      → EntersFrom g o x)
                    same enters)
                  (acyclic.0 x + 1) x (omega arith) there) in
            (cycle_issue_iff g.nodes r).1 (omega (arith, total, none_left)),
      ),
    )
