-- ===== src/Validator/Sorted.antt =====
-- The whole sort of src/graph_validator.cpp, and its issue of a cycle.
use ge.Prelude.{
  ℕ, zero, suc, ◌+◌, ◌-◌, ◌≤◌, ◌<◌, ◌≡◌, ◌≢◌, refl, sym, ap, ◌∙◌, Bool, true, false, not, ◌&&◌,
  some, List, [], ◌∷◌, ◌++◌, ltb, ◌==◌, ==_iff, if◌then◌else◌, length, length-append, get_elem?,
  Text, text_eq, text_eq→eq, text_eq_refl, arith, Bool-cases, inl, inr,
}
use ge.Graph.{NodeSpec, EdgeSpec, find_in, is_found}
use ge.Graph.Lookup.{NodesFit}
use ge.Applier.{mem, place_of}
use ge.Applier.Tracks.{count, mem-count, count-append}
use ge.Validator.{
  is_ordering, in_degree, successors, relax, take_first, roots, sort_nodes, node_ids,
}
use ge.Validator.Relax.{count-take_first, relax_lem, open_edges, open_edges-next, successors_there}
use ge.Validator.Order.{Sorting, Forward-next, missing, missing-next}

pub count-roots :
    (ns : List NodeSpec) (es : List EdgeSpec) (ms : List NodeSpec) (x : Text)
    → NodesFit ms
    → count x (roots ns es ms)
      ≡ (if is_found (find_in x ms) && in_degree ns x es == 0 then 1 else 0)
unfolding roots count find_in
count-roots ns es [] x v = refl
count-roots ns es (m ∷ ms) x v = elim (Bool-cases (text_eq m.id x)) [
  | inl k ↦
      let once : is_found (find_in x ms) ≡ false =
        ap (λ y. is_found (find_in y ms)) (sym (text_eq→eq m.id x k)) ∙ v.0 in
      let same : in_degree ns m.id es ≡ in_degree ns x es =
        ap (λ y. in_degree ns y es) (text_eq→eq m.id x k) in
      ground (arith, k, once, same, count-roots ns es ms x v.2)
  | inr k ↦ ground (arith, k, count-roots ns es ms x v.2)
]

-- An edge from outside of the order.
pub open_from :
    (ns : List NodeSpec) (order : List Text) (x : Text) (es : List EdgeSpec)
    → open_edges ns order x es ≢ 0
    → (i : ℕ) × (e : EdgeSpec) × (get_elem? es i ≡ some e)
      × (is_ordering ns e ≡ true)
      × (text_eq e.to.node_id x ≡ true)
      × (mem e.from.node_id order ≡ false)
unfolding open_edges
open_from ns order x [] h = absurd (h refl)
open_from ns order x (e ∷ es) h =
    elim (Bool-cases
      (is_ordering ns e && text_eq e.to.node_id x && not (mem e.from.node_id order))) [
        | inl k ↦ (0, e, refl, ground (arith, k), ground (arith, k), ground (arith, k))
        | inr k ↦
            let (i, f, p, q, r, t) = open_from ns order x es (λ z. h (ground (arith, k, z))) in
            (suc i, f, p, q, r, t)
      ]

-- The numbers of one node in a round: c edges lead to it from the taken node, which it may be itself.
counted :
    (degree c others order : ℕ) (there taken : Bool) {before degree_next others_next order_next : ℕ}
    → (if taken then 1 else 0) + others ≡ before
    → before + order ≡ (if there && degree == 0 then 1 else 0)
    → c ≤ degree
    → (0 < c → there ≡ true)
    → degree_next ≡ degree - c
    → others_next ≡ others + (if degree == c && ltb 0 c then 1 else 0)
    → order_next ≡ order + (if taken then 1 else 0)
    → others_next + order_next ≡ (if there && degree_next == 0 then 1 else 0)
counted degree zero others order there taken p q r s t u v = ground arith
counted degree (suc c) others order there taken p q r s t u v =
    let found : there ≡ true = s (omega arith) in ground (arith, found)

module _ (ns : List NodeSpec) (es : List EdgeSpec) where
  Sorting-next :
      (degree : Text → ℕ) (x : Text) (xs order : List Text) (n : Text) (others : List Text)
      → ((j : Text) → count j (n ∷ others) ≡ count j (x ∷ xs))
      → Sorting ns es degree (x ∷ xs) order
      → (mem n order ≡ false)
        × (is_found (find_in n ns) ≡ true)
        × Sorting ns es
            (relax (successors ns n es) degree others).0
            (relax (successors ns n es) degree others).1
            (order ++ n ∷ [])
  unfolding count
  Sorting-next degree x xs order n others same (opens, counts, forward) =
      let ready : (is_found (find_in n ns) && degree n == 0) ≡ true =
        ground (arith, counts n, same n, text_eq_refl n) in
      let new : mem n order ≡ false =
        ground (arith, counts n, same n, text_eq_refl n, mem-count n order) in
      let falls : (j : Text) → count j (successors ns n es) ≤ degree j =
        λ j. omega (arith, opens j, open_edges-next ns order n j es new) in
      let degrees : (j : Text)
          → (relax (successors ns n es) degree others).0 j ≡ open_edges ns (order ++ n ∷ []) j es =
        λ j. omega (
          arith,
          opens j,
          open_edges-next ns order n j es new,
          (relax_lem (successors ns n es) degree others falls j).0,
        ) in
      let none_open : open_edges ns order n es ≡ 0 =
        sym (opens n) ∙ (==_iff (degree n) 0).0 (ground (arith, ready)) in
      (
        new,
        ground (arith, ready),
        (
          degrees,
          λ j.
              counted (degree j) (count j (successors ns n es)) (count j others) (count j order)
                (is_found (find_in j ns)) (text_eq n j) (same j) (counts j) (falls j)
                (successors_there ns n j es)
                (relax_lem (successors ns n es) degree others falls j).0
                (relax_lem (successors ns n es) degree others falls j).1 (count-append j order n),
          Forward-next ns es order n new none_open forward,
        ),
      )

  pub sorts :
      (fuel : ℕ) (degree : Text → ℕ) (ready order : List Text)
      → NodesFit ns
      → missing ns es ns order < fuel
      → length order + missing ns es ns order ≡ length ns
      → Sorting ns es degree ready order
      → (result : List Text) × (left : Text → ℕ) × (sort_nodes fuel ns es degree ready order
          ≡ some (result, left))
        × (length result + missing ns es ns result ≡ length ns)
        × Sorting ns es left [] result
  unfolding sort_nodes
  sorts zero degree ready order v h m s = absurd (omega (arith, h))
  sorts (suc fuel) degree [] order v h m s = (order, degree, refl, m, s)
  sorts (suc fuel) degree (x ∷ xs) order v h m s =
      let rank : Text → ℕ = λ id. place_of id (node_ids ns) in
      let n : Text = (take_first rank x xs).0 in
      let (new, there, next) =
        Sorting-next degree x xs order n (take_first rank x xs).1 (count-take_first rank x xs) s in
      let fewer = missing-next ns es ns order n v new there in
      sorts fuel (relax (successors ns n es) degree (take_first rank x xs).1).0
        (relax (successors ns n es) degree (take_first rank x xs).1).1 (order ++ n ∷ []) v
        (omega (arith, h, fewer)) (omega (arith, m, fewer, length-append order (n ∷ []))) next
