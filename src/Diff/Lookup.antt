-- ===== src/Diff/Lookup.antt =====
-- The maps that src/graph_diff.cpp fills, and what is in them after its loops.
use ge.Prelude.{
  ◌≡◌, refl, sym, ap, ◌∙◌, Bool, true, false, not, ◌&&◌, Option, none, some, List, [], ◌∷◌,
  if◌then◌else◌, Text, text_eq, text_eq→eq, text_eq_refl, arith, Bool-cases, inl, inr, if_elim,
}
use ge.Graph.{NodeSpec, EdgeSpec, GraphSpec, find_node, find_edge, find_in, find_edge_in, is_found}
use ge.Graph.Lookup.{NodesFit, EdgesFit, text_eq-sym}
use ge.Applier.{mem}
use ge.Diff.{
  Reason, NodeEntry, EdgeEntry, node_added, edge_added, lookup, assign, node_entry, edge_entry,
  compare_nodes, compare_edges, add_new_nodes, add_new_edges, select_keys, all_pass,
}

module _ {ℓ} {V : Type ℓ} where
  pub lookup-assign :
      (id j : Text) (v : V) (d : List (Text × V))
      → lookup j (assign id v d) ≡ (if text_eq id j then some v else lookup j d)
  unfolding lookup assign
  lookup-assign id j v [] = refl
  lookup-assign id j v (p ∷ ps) = elim (Bool-cases (text_eq p.0 id)) [
    | inl k ↦
        let same : text_eq p.0 j ≡ text_eq id j = ap (λ x. text_eq x j) (text_eq→eq p.0 id k) in
        rw k (ground (arith, same))
    | inr k ↦ elim (Bool-cases (text_eq id j)) [
      | inl l ↦
          let other : text_eq p.0 j ≡ false = ap (text_eq p.0) (sym (text_eq→eq id j l)) ∙ k in
          rw k (ground (arith, other, l, lookup-assign id j v ps))
      | inr l ↦ rw k (ground (arith, l, lookup-assign id j v ps))
    ]
  ]

  -- No key stands twice.
  abbrev pub KeysApart : List (Text × V) → Type 0
  KeysApart [] = Unit {0}
  KeysApart (p ∷ ps) = (is_found (lookup p.0 ps) ≡ false) × KeysApart ps

  pub assign-KeysApart :
      (id : Text) (v : V) (d : List (Text × V)) → KeysApart d → KeysApart (assign id v d)
  unfolding assign lookup
  assign-KeysApart id v [] k = (refl, tt)
  assign-KeysApart id v (p ∷ ps) k = elim (Bool-cases (text_eq p.0 id)) [
    | inl h ↦ rw h (ap (λ x. is_found (lookup x ps)) (sym (text_eq→eq p.0 id h)) ∙ k.0, k.1)
    | inr h ↦ rw h (
      ap is_found (lookup-assign id p.0 v ps)
          ∙ ap (λ b. is_found (if b then some v else lookup p.0 ps)) (text_eq-sym id p.0 ∙ h)
          ∙ k.0,
      assign-KeysApart id v ps k.1,
    )
  ]

  abbrev pub passes : (V → Bool) → Option V → Bool
  passes test none = false
  passes test (some v) = test v

  not_listed : (o : Option V) (test : V → Bool) → is_found o ≡ false → passes test o ≡ false
  not_listed none test h = refl
  not_listed (some v) test h = absurd (cc)

  pub mem-select_keys :
      (test : V → Bool) (d : List (Text × V)) (j : Text)
      → KeysApart d
      → mem j (select_keys test d) ≡ passes test (lookup j d)
  unfolding mem select_keys lookup
  mem-select_keys test [] j k = refl
  mem-select_keys test (p ∷ ps) j k =
      let rest = mem-select_keys test ps j k.1 in
      elim (Bool-cases (text_eq p.0 j)) [
        | inl h ↦
            let gone : passes test (lookup j ps) ≡ false =
              not_listed (lookup j ps) test
                (ap (λ x. is_found (lookup x ps)) (sym (text_eq→eq p.0 j h)) ∙ k.0) in
            ground (arith, h, rest, gone)
        | inr h ↦ ground (arith, h, rest)
      ]

  pub all_pass_from :
      (test : V → Bool) (d : List (Text × V))
      → KeysApart d
      → ((j : Text) (v : V) → lookup j d ≡ some v → test v ≡ true)
      → all_pass test d ≡ true
  unfolding all_pass lookup
  all_pass_from test [] k h = refl
  all_pass_from test (p ∷ ps) k h =
      let first : test p.1 ≡ true = h p.0 p.1 (rw (text_eq_refl p.0) refl) in
      let rest : all_pass test ps ≡ true = all_pass_from test ps k.1 (λ j v e.
        elim (Bool-cases (text_eq p.0 j)) [
          | inl l ↦
              let found : is_found (lookup p.0 ps) ≡ true =
                ap (λ x. is_found (lookup x ps)) (text_eq→eq p.0 j l) ∙ ap is_found e in
              absurd (ground (arith, found, k.0))
          | inr l ↦ h j v (rw l e)
        ]) in
      ground (arith, first, rest)

-- What is found after a loop over the base, for an id that the base has or lacks.
abbrev pub entry_or {ℓ κ} : {A : Type ℓ} {V : Type κ} → Option A → (A → V) → Option V → Option V
entry_or none f old = old
entry_or (some a) f old = some (f a)

pub nothing : {A : Type 0} (o : Option A) → is_found o ≡ false → o ≡ none
nothing none h = refl
nothing (some x) h = absurd (cc)

pub lookup-compare_nodes :
    (candidate : GraphSpec) (why : NodeSpec → NodeSpec → List Reason) (bs : List NodeSpec)
    (d : List (Text × NodeEntry)) (j : Text)
    → NodesFit bs
    → lookup j (compare_nodes candidate why bs d)
      ≡ entry_or (find_in j bs) (λ b. node_entry why b (find_node j candidate)) (lookup j d)
unfolding compare_nodes find_in
lookup-compare_nodes candidate why [] d j v = refl
lookup-compare_nodes candidate why (b ∷ bs) d j v =
    let entry : NodeEntry = node_entry why b (find_node b.id candidate) in
    let rest =
      lookup-compare_nodes candidate why bs (assign b.id entry d) j v.2
      ∙ ap (entry_or (find_in j bs) (λ b. node_entry why b (find_node j candidate)))
          (lookup-assign b.id j entry d) in
    elim (Bool-cases (text_eq b.id j)) [
      | inl k ↦
          let same : b.id ≡ j = text_eq→eq b.id j k in
          let once : find_in j bs ≡ none =
            nothing (find_in j bs) (ap (λ x. is_found (find_in x bs)) (sym same) ∙ v.0) in
          rest
          ∙ ap
              (λ o.
                entry_or o (λ b. node_entry why b (find_node j candidate))
                  (if text_eq b.id j then some entry else lookup j d))
              once
          ∙ rw k (ap (λ x. some (node_entry why b (find_node x candidate))) same)
      | inr k ↦ rest ∙ rw k refl
    ]

pub lookup-compare_edges :
    (candidate : GraphSpec) (why : EdgeSpec → EdgeSpec → List Reason) (ns : List NodeSpec)
    (bs : List EdgeSpec) (d : List (Text × EdgeEntry)) (j : Text)
    → EdgesFit ns bs
    → lookup j (compare_edges candidate why bs d)
      ≡ entry_or (find_edge_in j bs) (λ b. edge_entry (why b) (find_edge j candidate)) (lookup j d)
unfolding compare_edges find_edge_in
lookup-compare_edges candidate why ns [] d j v = refl
lookup-compare_edges candidate why ns (b ∷ bs) d j v =
    let entry : EdgeEntry = edge_entry (why b) (find_edge b.id candidate) in
    let rest =
      lookup-compare_edges candidate why ns bs (assign b.id entry d) j v.3
      ∙ ap (entry_or (find_edge_in j bs) (λ b. edge_entry (why b) (find_edge j candidate)))
          (lookup-assign b.id j entry d) in
    elim (Bool-cases (text_eq b.id j)) [
      | inl k ↦
          let same : b.id ≡ j = text_eq→eq b.id j k in
          let once : find_edge_in j bs ≡ none =
            nothing (find_edge_in j bs) (ap (λ x. is_found (find_edge_in x bs)) (sym same) ∙ v.0) in
          rest
          ∙ ap
              (λ o.
                entry_or o (λ b. edge_entry (why b) (find_edge j candidate))
                  (if text_eq b.id j then some entry else lookup j d))
              once
          ∙ rw k (ap (λ x. some (edge_entry (why b) (find_edge x candidate))) same)
      | inr k ↦ rest ∙ rw k refl
    ]

pub lookup-add_new_nodes :
    (base : GraphSpec) (cs : List NodeSpec) (d : List (Text × NodeEntry)) (j : Text)
    → lookup j (add_new_nodes base cs d) ≡ (
        if is_found (find_in j cs) && not (is_found (find_node j base))
        then some (record { change = node_added; reason = [] })
        else lookup j d)
unfolding add_new_nodes find_in
lookup-add_new_nodes base [] d j = refl
lookup-add_new_nodes base (c ∷ cs) d j =
    let entry : NodeEntry = record { change = node_added; reason = [] } in
    let rest =
      lookup-add_new_nodes base cs
        (if is_found (find_node c.id base) then d else assign c.id entry d) j in
    elim (Bool-cases (text_eq c.id j)) [
      | inl k ↦
          let same : is_found (find_node c.id base) ≡ is_found (find_node j base) =
            ap (λ x. is_found (find_node x base)) (text_eq→eq c.id j k) in
          ground (arith, k, same, rest, lookup-assign c.id j entry d)
      | inr k ↦ ground (arith, k, rest, lookup-assign c.id j entry d)
    ]

pub add_new_nodes-KeysApart :
    (base : GraphSpec) (cs : List NodeSpec) (d : List (Text × NodeEntry))
    → KeysApart d
    → KeysApart (add_new_nodes base cs d)
unfolding add_new_nodes
add_new_nodes-KeysApart base [] d k = k
add_new_nodes-KeysApart base (c ∷ cs) d k =
    let entry : NodeEntry = record { change = node_added; reason = [] } in
    add_new_nodes-KeysApart base cs
      (if is_found (find_node c.id base) then d else assign c.id entry d)
      (if_elim KeysApart (is_found (find_node c.id base)) d (assign c.id entry d) k
        (assign-KeysApart c.id entry d k))

pub compare_nodes-KeysApart :
    (candidate : GraphSpec) (why : NodeSpec → NodeSpec → List Reason) (bs : List NodeSpec)
    (d : List (Text × NodeEntry))
    → KeysApart d
    → KeysApart (compare_nodes candidate why bs d)
unfolding compare_nodes
compare_nodes-KeysApart candidate why [] d k = k
compare_nodes-KeysApart candidate why (b ∷ bs) d k =
    let entry : NodeEntry = node_entry why b (find_node b.id candidate) in
    compare_nodes-KeysApart candidate why bs (assign b.id entry d) (assign-KeysApart b.id entry d k)

pub lookup-add_new_edges :
    (base : GraphSpec) (cs : List EdgeSpec) (d : List (Text × EdgeEntry)) (j : Text)
    → lookup j (add_new_edges base cs d) ≡ (
        if is_found (find_edge_in j cs) && not (is_found (find_edge j base))
        then some (record { change = edge_added; reason = [] })
        else lookup j d)
unfolding add_new_edges find_edge_in
lookup-add_new_edges base [] d j = refl
lookup-add_new_edges base (c ∷ cs) d j =
    let entry : EdgeEntry = record { change = edge_added; reason = [] } in
    let rest =
      lookup-add_new_edges base cs
        (if is_found (find_edge c.id base) then d else assign c.id entry d) j in
    elim (Bool-cases (text_eq c.id j)) [
      | inl k ↦
          let same : is_found (find_edge c.id base) ≡ is_found (find_edge j base) =
            ap (λ x. is_found (find_edge x base)) (text_eq→eq c.id j k) in
          ground (arith, k, same, rest, lookup-assign c.id j entry d)
      | inr k ↦ ground (arith, k, rest, lookup-assign c.id j entry d)
    ]

pub add_new_edges-KeysApart :
    (base : GraphSpec) (cs : List EdgeSpec) (d : List (Text × EdgeEntry))
    → KeysApart d
    → KeysApart (add_new_edges base cs d)
unfolding add_new_edges
add_new_edges-KeysApart base [] d k = k
add_new_edges-KeysApart base (c ∷ cs) d k =
    let entry : EdgeEntry = record { change = edge_added; reason = [] } in
    add_new_edges-KeysApart base cs
      (if is_found (find_edge c.id base) then d else assign c.id entry d)
      (if_elim KeysApart (is_found (find_edge c.id base)) d (assign c.id entry d) k
        (assign-KeysApart c.id entry d k))

pub compare_edges-KeysApart :
    (candidate : GraphSpec) (why : EdgeSpec → EdgeSpec → List Reason) (bs : List EdgeSpec)
    (d : List (Text × EdgeEntry))
    → KeysApart d
    → KeysApart (compare_edges candidate why bs d)
unfolding compare_edges
compare_edges-KeysApart candidate why [] d k = k
compare_edges-KeysApart candidate why (b ∷ bs) d k =
    let entry : EdgeEntry = edge_entry (why b) (find_edge b.id candidate) in
    compare_edges-KeysApart candidate why bs (assign b.id entry d) (assign-KeysApart b.id entry d k)
