-- ===== src/Validator/Order.antt =====
-- The topological order of src/graph_validator.cpp.
use ge.Prelude.{
  ℕ, zero, suc, ◌+◌, ◌<◌, ◌≡◌, refl, sym, ap, ◌∙◌, true, false, ◌&&◌, some, List, [], ◌∷◌, ◌++◌,
  ◌==◌, if◌then◌else◌, length, get_elem?, Text, text_eq, text_eq→eq, text_eq_refl, arith,
  Bool-cases, inl, inr,
}
use ge.Graph.{NodeSpec, EdgeSpec, find_in, is_found}
use ge.Graph.Lookup.{text_eq-sym, NodesFit}
use ge.Applier.{mem, place_of}
use ge.Applier.Tracks.{count, mem-append}
use ge.Validator.{is_ordering}
use ge.Validator.Relax.{open_edges}

-- The place of a first occurrence after an addition at the end.
place_of-append :
    (x : Text) (xs : List Text) (y : Text)
    → mem x xs ≡ true
    → place_of x (xs ++ y ∷ []) ≡ place_of x xs
unfolding place_of mem
place_of-append x [] y h = absurd (cc)
place_of-append x (z ∷ xs) y h = elim (Bool-cases (text_eq z x)) [
  | inl k ↦ ground (arith, k)
  | inr k ↦ ground (arith, k, place_of-append x xs y (ground (arith, h, k)))
]

place_of-lt : (x : Text) (xs : List Text) → mem x xs ≡ true → place_of x xs < length xs
unfolding place_of mem
place_of-lt x [] h = absurd (cc)
place_of-lt x (z ∷ xs) h = elim (Bool-cases (text_eq z x)) [
  | inl k ↦ ground (arith, k)
  | inr k ↦ ground (arith, k, place_of-lt x xs (ground (arith, h, k)))
]

place_of-last :
    (x : Text) (xs : List Text) → mem x xs ≡ false → place_of x (xs ++ x ∷ []) ≡ length xs
unfolding place_of mem
place_of-last x [] h = ground (arith, text_eq_refl x)
place_of-last x (z ∷ xs) h = ground (arith, h, place_of-last x xs (ground (arith, h)))

module _ (ns : List NodeSpec) (es : List EdgeSpec) where
  -- Every edge into a node of the order begins at an earlier one.
  abbrev pub Forward : List Text → Type 0
  Forward order =
      (i : ℕ) (e : EdgeSpec)
      → get_elem? es i ≡ some e
      → is_ordering ns e ≡ true
      → mem e.to.node_id order ≡ true
      → (mem e.from.node_id order ≡ true)
        × (place_of e.from.node_id order < place_of e.to.node_id order)

  -- The degrees count the edges from outside of the order; a node is ready or in the order, and once,
  -- when its degree is 0.
  abbrev pub Sorting : (Text → ℕ) → List Text → List Text → Type 0
  Sorting degree ready order =
      ((x : Text) → degree x ≡ open_edges ns order x es)
      × ((x : Text)
          → count x ready + count x order
            ≡ (if is_found (find_in x ns) && degree x == 0 then 1 else 0))
      × Forward order

  -- No edge from outside of the order.
  closed_from :
      (order : List Text) (x : Text) (fs : List EdgeSpec) (i : ℕ) (e : EdgeSpec)
      → open_edges ns order x fs ≡ 0
      → get_elem? fs i ≡ some e
      → is_ordering ns e ≡ true
      → text_eq e.to.node_id x ≡ true
      → mem e.from.node_id order ≡ true
  unfolding open_edges
  closed_from order x [] i e h p q r = absurd (cc)
  closed_from order x (f ∷ fs) zero e h p q r =
      let same : f ≡ e = ground (arith, p) in
      let test : (is_ordering ns f && text_eq f.to.node_id x) ≡ true =
        ap (λ (y : EdgeSpec). is_ordering ns y && text_eq y.to.node_id x) same
        ∙ ground (arith, q, r) in
      ap (λ (y : EdgeSpec). mem y.from.node_id order) (sym same) ∙ ground (arith, h, test)
  closed_from order x (f ∷ fs) (suc i) e h p q r =
      closed_from order x fs i e (omega (arith, h)) p q r

  pub Forward-next :
      (order : List Text) (n : Text)
      → mem n order ≡ false
      → open_edges ns order n es ≡ 0
      → Forward order
      → Forward (order ++ n ∷ [])
  Forward-next order n new closed f i e p q r = elim (Bool-cases (mem e.to.node_id order)) [
    | inl k ↦
        let (there, before) = f i e p q k in
        (
          ground (arith, there, mem-append e.from.node_id order n),
          omega (
            arith,
            before,
            place_of-append e.from.node_id order n there,
            place_of-append e.to.node_id order n k,
          ),
        )
    | inr k ↦
        let last : text_eq n e.to.node_id ≡ true =
          ground (arith, r, k, mem-append e.to.node_id order n) in
        let there : mem e.from.node_id order ≡ true =
          closed_from order n es i e closed p q
            (ground (arith, last, text_eq-sym n e.to.node_id)) in
        let place : place_of e.to.node_id (order ++ n ∷ []) ≡ length order =
          ap (λ x. place_of x (order ++ n ∷ [])) (sym (text_eq→eq n e.to.node_id last))
          ∙ place_of-last n order new in
        (
          ground (arith, there, mem-append e.from.node_id order n),
          omega (
            arith,
            place,
            place_of-append e.from.node_id order n there,
            place_of-lt e.from.node_id order there,
          ),
        )
  ]

  -- The nodes that are not in the order.
  unfoldable pub missing : List NodeSpec → List Text → ℕ
  missing [] order = 0
  missing (m ∷ ms) order = (if mem m.id order then 0 else 1) + missing ms order

  pub missing-start : (ms : List NodeSpec) → missing ms [] ≡ length ms
  unfolding missing mem
  missing-start [] = refl
  missing-start (m ∷ ms) = ground (arith, missing-start ms)

  missing-same :
      (ms : List NodeSpec) (order : List Text) (n : Text)
      → is_found (find_in n ms) ≡ false
      → missing ms (order ++ n ∷ []) ≡ missing ms order
  unfolding missing find_in
  missing-same [] order n h = refl
  missing-same (m ∷ ms) order n h = ground (
    arith,
    h,
    missing-same ms order n (ground (arith, h)),
    mem-append m.id order n,
    text_eq-sym n m.id,
  )

  pub missing-next :
      (ms : List NodeSpec) (order : List Text) (n : Text)
      → NodesFit ms
      → mem n order ≡ false
      → is_found (find_in n ms) ≡ true
      → missing ms (order ++ n ∷ []) + 1 ≡ missing ms order
  unfolding missing find_in
  missing-next [] order n v h p = absurd (cc)
  missing-next (m ∷ ms) order n v h p = elim (Bool-cases (text_eq m.id n)) [
    | inl k ↦
        let new : mem m.id order ≡ false = ap (λ x. mem x order) (text_eq→eq m.id n k) ∙ h in
        let once : is_found (find_in n ms) ≡ false =
          ap (λ x. is_found (find_in x ms)) (sym (text_eq→eq m.id n k)) ∙ v.0 in
        ground
          (arith, k, new, missing-same ms order n once, mem-append m.id order n, text_eq-sym n m.id)
    | inr k ↦ ground (
      arith,
      k,
      missing-next ms order n v.2 h (ground (arith, p, k)),
      mem-append m.id order n,
      text_eq-sym n m.id,
    )
  ]
