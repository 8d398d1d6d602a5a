-- ===== src/Applier/Incident.antt =====
-- The edges that RemoveNodeWithEdges of src/mutation_applier.cpp takes out before the node.
use ge.Prelude.{
  ◌≡◌, refl, sym, ap, ◌∙◌, Bool, true, false, not, ◌&&◌, ◌||◌, none, some, List, [], ◌∷◌, ◌++◌, map,
  if◌then◌else◌, Text, text_eq, text_eq→eq, text_eq_refl, arith, Bool-cases, inl, inr,
}
use ge.Graph.{
  NodeSpec, EdgeSpec, GraphSpec, find_edge, find_edge_in, is_found, touches, keep_if, edges_from,
  edges_to,
}
use ge.Graph.Lookup.{EdgesFit, text_eq-sym}
use ge.Graph.Edits.{IsValid}
use ge.Applier.{Result, ok, ◌>>=◌, CandidateSpec, mem, push_new, incident, remove_edges}
use ge.Applier.Tracks.{mem-append}
use ge.Applier.Steps.{edge_there, IsTracked, remove_edge_tracked_lem}

-- No text stands twice.
abbrev pub AllApart : List Text → Type 0
AllApart [] = Unit {0}
AllApart (x ∷ xs) = (mem x xs ≡ false) × AllApart xs

AllApart-append :
    (xs : List Text) (y : Text) → AllApart xs → mem y xs ≡ false → AllApart (xs ++ y ∷ [])
unfolding mem
AllApart-append [] y v h = (refl, tt)
AllApart-append (x ∷ xs) y v h = (
  ground (arith, v.0, h, mem-append x xs y, text_eq-sym x y),
  AllApart-append xs y v.1 (ground (arith, h)),
)

abbrev pub ids_of : List EdgeSpec → List Text
ids_of es = map (λ (e : EdgeSpec). e.id) es

mem-push_new :
    (j : Text) (es : List EdgeSpec) (ids : List Text)
    → mem j (push_new es ids) ≡ (mem j ids || mem j (ids_of es))
unfolding mem push_new
mem-push_new j [] ids = ground arith
mem-push_new j (e ∷ es) ids = elim (Bool-cases (mem e.id ids)) [
  | inl h ↦ elim (Bool-cases (text_eq e.id j)) [
    | inl k ↦
        let here : mem j ids ≡ true = ap (λ x. mem x ids) (sym (text_eq→eq e.id j k)) ∙ h in
        ground (arith, h, k, here, mem-push_new j es ids)
    | inr k ↦ ground (arith, h, k, mem-push_new j es ids)
  ]
  | inr h ↦ ground (arith, h, mem-push_new j es (ids ++ e.id ∷ []), mem-append j ids e.id)
]

push_new-AllApart :
    (es : List EdgeSpec) (ids : List Text) → AllApart ids → AllApart (push_new es ids)
unfolding push_new
push_new-AllApart [] ids v = v
push_new-AllApart (e ∷ es) ids v = elim (Bool-cases (mem e.id ids)) [
  | inl h ↦ rw h (push_new-AllApart es ids v)
  | inr h ↦ rw h (push_new-AllApart es (ids ++ e.id ∷ []) (AllApart-append ids e.id v h))
]

module _ (test : EdgeSpec → Bool) where
  -- A kept id names an edge.
  mem-keep_if :
      (j : Text) (es : List EdgeSpec)
      → (mem j (ids_of (keep_if test es)) && not (is_found (find_edge_in j es))) ≡ false
  unfolding mem find_edge_in
  mem-keep_if j [] = refl
  mem-keep_if j (e ∷ es) = ground (arith, mem-keep_if j es)

  keep_if-AllApart :
      (ns : List NodeSpec) (es : List EdgeSpec)
      → EdgesFit ns es
      → AllApart (ids_of (keep_if test es))
  keep_if-AllApart ns [] v = tt
  keep_if-AllApart ns (e ∷ es) v = elim (Bool-cases (test e)) [
    | inl h ↦ rw h (ground (arith, v.0, mem-keep_if e.id es), keep_if-AllApart ns es v.3)
    | inr h ↦ rw h (keep_if-AllApart ns es v.3)
  ]

  -- An edge that passes is kept.
  mem-found :
      (j : Text) (es : List EdgeSpec) (e : EdgeSpec)
      → find_edge_in j es ≡ some e
      → test e ≡ true
      → mem j (ids_of (keep_if test es)) ≡ true
  unfolding mem find_edge_in
  mem-found j [] e h p = absurd (cc)
  mem-found j (f ∷ es) e h p = elim (Bool-cases (text_eq f.id j)) [
    | inl k ↦
        let same : f ≡ e = ground (arith, h, k) in
        let pass : test f ≡ true = ap test same ∙ p in ground (arith, k, pass)
    | inr k ↦ ground (arith, k, mem-found j es e (ground (arith, h, k)) p)
  ]

  mem_apart :
      (ns : List NodeSpec) (j : Text) (es : List EdgeSpec) (e : EdgeSpec)
      → EdgesFit ns es
      → find_edge_in j es ≡ some e
      → test e ≡ false
      → mem j (ids_of (keep_if test es)) ≡ false
  unfolding mem find_edge_in
  mem_apart ns j [] e v h p = refl
  mem_apart ns j (f ∷ es) e v h p = elim (Bool-cases (text_eq f.id j)) [
    | inl k ↦
        let same : f ≡ e = ground (arith, h, k) in
        let fails : test f ≡ false = ap test same ∙ p in
        let new : is_found (find_edge_in j es) ≡ false =
          ap (λ x. is_found (find_edge_in x es)) (sym (text_eq→eq f.id j k)) ∙ v.0 in
        ground (arith, fails, new, mem-keep_if j es)
    | inr k ↦ ground (arith, k, mem-keep_if j es, mem_apart ns j es e v.3 (ground (arith, h, k)) p)
  ]

pub incident-AllApart : (id : Text) (g : GraphSpec) → IsValid g → AllApart (incident id g)
unfolding edges_from edges_to
incident-AllApart id g v =
    push_new-AllApart (edges_to id g) (ids_of (edges_from id g))
      (keep_if-AllApart (λ e. text_eq e.from.node_id id) g.nodes g.edges v.1)

pub incident_there :
    (id : Text) (g : GraphSpec) (j : Text) → (mem j (incident id g) && not (edge_there g j)) ≡ false
unfolding edges_from edges_to
incident_there id g j = ground (
  arith,
  mem-push_new j (edges_to id g) (ids_of (edges_from id g)),
  mem-keep_if (λ e. text_eq e.from.node_id id) j g.edges,
  mem-keep_if (λ e. text_eq e.to.node_id id) j g.edges,
)

pub touching_incident :
    (id : Text) (g : GraphSpec) (j : Text) (e : EdgeSpec)
    → find_edge j g ≡ some e
    → touches id e ≡ true
    → mem j (incident id g) ≡ true
unfolding edges_from edges_to touches
touching_incident id g j e h p = elim (Bool-cases (text_eq e.from.node_id id)) [
  | inl k ↦ ground (
    arith,
    mem-push_new j (edges_to id g) (ids_of (edges_from id g)),
    mem-found (λ e. text_eq e.from.node_id id) j g.edges e h k,
  )
  | inr k ↦ ground (
    arith,
    mem-push_new j (edges_to id g) (ids_of (edges_from id g)),
    mem-found (λ e. text_eq e.to.node_id id) j g.edges e h (ground (arith, p, k)),
  )
]

pub apart_incident :
    (id : Text) (g : GraphSpec) (j : Text) (e : EdgeSpec)
    → IsValid g
    → find_edge j g ≡ some e
    → touches id e ≡ false
    → mem j (incident id g) ≡ false
unfolding edges_from edges_to touches
apart_incident id g j e v h p = ground (
  arith,
  mem-push_new j (edges_to id g) (ids_of (edges_from id g)),
  mem_apart (λ e. text_eq e.from.node_id id) g.nodes j g.edges e v.1 h (ground (arith, p)),
  mem_apart (λ e. text_eq e.to.node_id id) g.nodes j g.edges e v.1 h (ground (arith, p)),
)

abbrev pub CutEdges : GraphSpec → List Text → CandidateSpec → CandidateSpec → Type 0
CutEdges base ids out cut =
    IsTracked base cut
    × (cut.candidate.nodes ≡ out.candidate.nodes)
    × ((j : Text)
        → find_edge j cut.candidate ≡ (if mem j ids then none else find_edge j out.candidate))

-- Edges that are there, each named once, can be removed one after the other.
pub remove_edges_lem :
    (base : GraphSpec) (ids : List Text) (out : CandidateSpec)
    → IsTracked base out
    → AllApart ids
    → ((j : Text) → (mem j ids && not (edge_there out.candidate j)) ≡ false)
    → (cut : CandidateSpec) × (remove_edges ids out ≡ ok cut) × CutEdges base ids out cut
unfolding remove_edges mem
remove_edges_lem base [] out t apart there = (out, refl, (t, refl, λ j. refl))
remove_edges_lem base (id ∷ ids) out t apart there =
    let here : edge_there out.candidate id ≡ true = ground (arith, there id, text_eq_refl id) in
    let (mid, p, m) = remove_edge_tracked_lem base id out t here in
    let left : (j : Text) → (mem j ids && not (edge_there mid.candidate j)) ≡ false = λ j.
      elim (Bool-cases (text_eq id j)) [
        | inl k ↦
            let off : mem j ids ≡ false = ap (λ x. mem x ids) (sym (text_eq→eq id j k)) ∙ apart.0 in
            ground (arith, off)
        | inr k ↦ ground (arith, k, there j, m.2 j)
      ] in
    let (cut, q, c) = remove_edges_lem base ids mid m.0 apart.1 left in
    (
      cut,
      ap (λ (r : Result CandidateSpec). r >>= remove_edges ids) p ∙ q,
      (c.0, c.1 ∙ m.1, λ j. c.2 j ∙ ground (arith, m.2 j)),
    )
