-- ===== src/Validator/Relax.antt =====
-- One round of the sort in src/graph_validator.cpp.
use ge.Prelude.{
  ℕ, zero, suc, ◌+◌, ◌-◌, ◌≤◌, ◌<◌, ◌≡◌, refl, sym, ap, ◌∙◌, true, false, not, ◌&&◌, List, [], ◌∷◌,
  ◌++◌, ltb, ◌==◌, if◌then◌else◌, Text, text_eq, text_eq→eq, text_eq_refl, arith, Bool-cases, inl,
  inr,
}
use ge.Graph.{NodeSpec, EdgeSpec, find_in, is_found}
use ge.Graph.Lookup.{text_eq-sym}
use ge.Applier.{mem}
use ge.Applier.Tracks.{count, mem-append}
use ge.Validator.{is_ordering, in_degree, successors, decr64, update, relax, take_first}

-- The choice of the first loses nothing.
pub count-take_first :
    (rank : Text → ℕ) (x : Text) (xs : List Text) (j : Text)
    → count j ((take_first rank x xs).0 ∷ (take_first rank x xs).1) ≡ count j (x ∷ xs)
unfolding take_first count
count-take_first rank x [] j = refl
count-take_first rank x (y ∷ ys) j = elim (Bool-cases (ltb (rank y) (rank x))) [
  | inl h ↦ rw h (omega (arith, count-take_first rank y ys j))
  | inr h ↦ rw h (omega (arith, count-take_first rank x ys j))
]

decr64_lem : (n : ℕ) → 0 < n → decr64 n + 1 ≡ n
decr64_lem zero h = absurd (omega (arith, h))
decr64_lem (suc n) h = omega arith

one_more : (id : Text) (ids : List Text) → count id (id ∷ ids) ≡ count id ids + 1
unfolding count
one_more id ids = ground (arith, text_eq_refl id)

-- The degrees fall by the number of edges, and the nodes whose degree falls to 0 are ready.
pub relax_lem :
    (ids : List Text) (degree : Text → ℕ) (ready : List Text)
    → ((j : Text) → count j ids ≤ degree j)
    → (j : Text)
    → ((relax ids degree ready).0 j ≡ degree j - count j ids)
      × (count j (relax ids degree ready).1
          ≡ count j ready + (if degree j == count j ids && ltb 0 (count j ids) then 1 else 0))
unfolding relax count update
relax_lem [] degree ready h j = (omega arith, ground arith)
relax_lem (id ∷ ids) degree ready h j =
    let left : ℕ = decr64 (degree id) in
    let here : left + 1 ≡ degree id =
      decr64_lem (degree id) (omega (arith, h id, one_more id ids)) in
    let fits : (x : Text) → count x ids ≤ update id left degree x = λ x.
      elim (Bool-cases (text_eq id x)) [
        | inl k ↦
            let same : degree id ≡ degree x = ap degree (text_eq→eq id x k) in
            ground (arith, k, here, same, h x)
        | inr k ↦ ground (arith, k, h x)
      ] in
    let rest =
      relax_lem ids (update id left degree) (if left == 0 then id ∷ ready else ready) fits j in
    elim (Bool-cases (text_eq id j)) [
      | inl k ↦
          let same : degree id ≡ degree j = ap degree (text_eq→eq id j k) in
          (ground (arith, k, here, same, rest.0), rest.1 ∙ ground (arith, k, here, same, fits j))
      | inr k ↦ (ground (arith, k, rest.0), rest.1 ∙ ground (arith, k, fits j))
    ]

-- The edges into a node whose other end is not in the order yet.
unfoldable pub open_edges : List NodeSpec → List Text → Text → List EdgeSpec → ℕ
open_edges ns order id [] = 0
open_edges ns order id (e ∷ es) =
    (if is_ordering ns e && text_eq e.to.node_id id && not (mem e.from.node_id order) then 1 else 0)
    + open_edges ns order id es

pub open_edges-start :
    (ns : List NodeSpec) (id : Text) (es : List EdgeSpec)
    → open_edges ns [] id es ≡ in_degree ns id es
unfolding open_edges in_degree mem
open_edges-start ns id [] = refl
open_edges-start ns id (e ∷ es) = ground (arith, open_edges-start ns id es)

pub open_edges-next :
    (ns : List NodeSpec) (order : List Text) (n j : Text) (es : List EdgeSpec)
    → mem n order ≡ false
    → open_edges ns (order ++ n ∷ []) j es + count j (successors ns n es) ≡ open_edges ns order j es
unfolding open_edges successors count
open_edges-next ns order n j [] h = refl
open_edges-next ns order n j (e ∷ es) h = elim (Bool-cases (text_eq e.from.node_id n)) [
  | inl k ↦
      let new : mem e.from.node_id order ≡ false =
        ap (λ x. mem x order) (text_eq→eq e.from.node_id n k) ∙ h in
      ground (
        arith,
        k,
        new,
        mem-append e.from.node_id order n,
        text_eq-sym n e.from.node_id,
        open_edges-next ns order n j es h,
      )
  | inr k ↦ ground (
    arith,
    k,
    mem-append e.from.node_id order n,
    text_eq-sym n e.from.node_id,
    open_edges-next ns order n j es h,
  )
]

-- An edge leads to a node of the graph.
pub successors_there :
    (ns : List NodeSpec) (n j : Text) (es : List EdgeSpec)
    → 0 < count j (successors ns n es)
    → is_found (find_in j ns) ≡ true
unfolding successors count is_ordering
successors_there ns n j [] h = absurd (omega (arith, h))
successors_there ns n j (e ∷ es) h = elim (Bool-cases (text_eq e.to.node_id j)) [
  | inl k ↦ elim (Bool-cases (is_found (find_in e.to.node_id ns))) [
    | inl l ↦ ap (λ x. is_found (find_in x ns)) (sym (text_eq→eq e.to.node_id j k)) ∙ l
    | inr l ↦ successors_there ns n j es (ground (arith, h, l))
  ]
  | inr k ↦ successors_there ns n j es (ground (arith, h, k))
]
