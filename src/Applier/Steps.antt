-- ===== src/Applier/Steps.antt =====
-- What the single changes of src/mutation_applier.cpp do to the candidate and to its lists.
use ge.Prelude.{
  ℕ, ◌≡◌, refl, ap, ◌∙◌, subst, Bool, true, false, not, ◌&&◌, ◌||◌, Option, none, some, [], ◌∷◌,
  ◌++◌, if◌then◌else◌, Text, text_eq, arith, if_cases,
}
use ge.Graph.{
  NodeSpec, EdgeSpec, GraphSpec, PortRef, Status, fine, graph_invalid, already_exists, not_found,
  invalid_argument, shared_dependency, find_node, find_edge, find_in, find_edge_in, is_found,
  is_empty, with_id, derive_edge_id, port_to_text, check_node, check_edge, commit_if, add_node,
  add_edge, remove_edge, erase_edge,
}
use ge.Graph.Lookup.{found-append, edge_found-append}
use ge.Graph.Removal.{find-erase_edge}
use ge.Graph.Edits.{
  IsValid, check_node-fits, check_edge-fits, add_node-IsValid, add_edge-IsValid,
  remove_edge-IsValid,
}
use ge.Applier.{
  Result, ok, err, ◌>>=◌, changed, some_or, CandidateSpec, add_edge_tracked, remove_edge_tracked,
  place_node, add_node_tracked, touch_node, note_edge, note_cut, cut_edge, note_node,
}
use ge.Applier.Tracks.{Tracks, Tracks-same, Tracks-add, Tracks-take_back}

-- What holds of the value, if there is one.
abbrev pub Holds {ℓ κ} : {A : Type ℓ} → (A → Type κ) → Result A → Type κ
Holds P (ok a) = P a
Holds P (err s) = Unit

pub Holds-bind {ℓ κ λ₁ μ} :
    {A : Type ℓ} {B : Type κ} (P : A → Type λ₁) (Q : B → Type μ) (m : Result A) (f : A → Result B)
    → Holds P m
    → ((a : A) → P a → Holds Q (f a))
    → Holds Q (m >>= f)
Holds-bind P Q (ok a) f p h = h a p
Holds-bind P Q (err s) f p h = tt

pub Holds-any {ℓ κ μ} :
    {A : Type ℓ} {B : Type κ} (Q : B → Type μ) (m : Result A) (f : A → Result B)
    → ((a : A) → Holds Q (f a))
    → Holds Q (m >>= f)
Holds-any Q (ok a) f h = h a
Holds-any Q (err s) f h = tt

abbrev pub node_there : GraphSpec → Text → Bool
node_there g id = is_found (find_node id g)

abbrev pub edge_there : GraphSpec → Text → Bool
edge_there g id = is_found (find_edge id g)

-- The candidate is a valid graph, and its lists tell how it differs from the base.
abbrev pub IsTracked : GraphSpec → CandidateSpec → Type 0
IsTracked base out =
    IsValid out.candidate
    × Tracks (node_there out.candidate) (node_there base) out.added_nodes out.removed_nodes
    × Tracks (edge_there out.candidate) (edge_there base) out.added_edges out.removed_edges

pub commit-Holds {κ} :
    (P : GraphSpec → Type κ) (s : Status) (old new : GraphSpec)
    → (s ≡ fine → P new)
    → Holds P (changed (commit_if s old new))
commit-Holds P fine old new h = h refl
commit-Holds P graph_invalid old new h = tt
commit-Holds P already_exists old new h = tt
commit-Holds P not_found old new h = tt
commit-Holds P invalid_argument old new h = tt
commit-Holds P shared_dependency old new h = tt

abbrev pub AfterAddNode : NodeSpec → GraphSpec → GraphSpec → Type 0
AfterAddNode n g h =
    IsValid h
    × (node_there g n.id ≡ false)
    × ((id : Text) → node_there h id ≡ (node_there g id || text_eq n.id id))
    × (h.edges ≡ g.edges)

add_node-Holds :
    (n : NodeSpec) (g : GraphSpec) → IsValid g → Holds (AfterAddNode n g) (changed (add_node n g))
unfolding add_node
add_node-Holds n g v =
    let new : GraphSpec = record g { nodes = g.nodes ++ n ∷ [] } in
    commit-Holds (AfterAddNode n g) (check_node n g) g new (λ e. (
      subst (λ (s : Status). IsValid (commit_if s g new).1) e (add_node-IsValid n g v),
      (check_node-fits n g e).1,
      λ id. found-append id g.nodes n,
      refl,
    ))

not_empty : (t u : Text) (c : ℕ) → is_empty (t ++ c ∷ u) ≡ false
unfolding is_empty
not_empty [] u c = refl
not_empty (x ∷ t) u c = refl

is_empty-derive_edge_id : (p q : PortRef) → is_empty (derive_edge_id p q) ≡ false
unfolding derive_edge_id
is_empty-derive_edge_id p q = not_empty (port_to_text p) (b'>' ∷ port_to_text q) b'-'

with_id_kept : (e : EdgeSpec) → is_empty e.id ≡ false → with_id e ≡ e
unfolding with_id
with_id_kept e h = ground (arith, h)

named : (e : EdgeSpec) → is_empty (with_id e).id ≡ false
unfolding with_id
named e =
    if_cases (λ (x : EdgeSpec). is_empty x.id ≡ false) (is_empty e.id)
      (record e { id = derive_edge_id e.from e.to }) e (λ h. is_empty-derive_edge_id e.from e.to)
      (λ h. h)

with_id_twice : (e : EdgeSpec) → with_id (with_id e) ≡ with_id e
with_id_twice e = with_id_kept (with_id e) (named e)

abbrev pub AfterAddEdge : EdgeSpec → GraphSpec → GraphSpec → Type 0
AfterAddEdge e g h =
    IsValid h
    × (edge_there g e.id ≡ false)
    × ((id : Text) → edge_there h id ≡ (edge_there g id || text_eq e.id id))
    × (h.nodes ≡ g.nodes)

add_edge-Holds :
    (e : EdgeSpec) (g : GraphSpec)
    → IsValid g
    → Holds (AfterAddEdge (with_id e) g) (changed (add_edge e g))
unfolding add_edge
add_edge-Holds e g v =
    let new : GraphSpec = record g { edges = g.edges ++ with_id e ∷ [] } in
    commit-Holds (AfterAddEdge (with_id e) g) (check_edge (with_id e) g) g new (λ h. (
      subst (λ (s : Status). IsValid (commit_if s g new).1) h (add_edge-IsValid e g v),
      (check_edge-fits (with_id e) g h).1,
      λ id. edge_found-append id g.edges (with_id e),
      refl,
    ))

pub add_edge_tracked-Holds :
    (base : GraphSpec) (e : EdgeSpec) (out : CandidateSpec)
    → IsTracked base out
    → Holds (IsTracked base) (add_edge_tracked e out)
unfolding add_edge_tracked note_edge
add_edge_tracked-Holds base e out t =
    Holds-bind (AfterAddEdge (with_id e) out.candidate) (IsTracked base)
      (changed (add_edge (with_id e) out.candidate)) (λ g. ok (note_edge (with_id e) out g))
      (subst
        (λ (x : EdgeSpec).
          Holds (AfterAddEdge x out.candidate) (changed (add_edge (with_id e) out.candidate)))
        (with_id_twice e) (add_edge-Holds (with_id e) out.candidate t.0))
      (λ g h. (
        h.0,
        Tracks-same (node_there out.candidate) (node_there g) (node_there base) out.added_nodes
            out.removed_nodes (λ id. ap (λ ns. is_found (find_in id ns)) h.3) t.1,
        Tracks-add (edge_there out.candidate) (edge_there g) (edge_there base) out.added_edges
            out.removed_edges (with_id e).id h.1 h.2 t.2,
      ))

pub place_node-Holds :
    (base : GraphSpec) (n : NodeSpec) (out : CandidateSpec)
    → IsTracked base out
    → Holds (IsTracked base) (place_node n out)
unfolding place_node note_node
place_node-Holds base n out t =
    Holds-bind (AfterAddNode n out.candidate) (IsTracked base) (changed (add_node n out.candidate))
      (λ g. ok (note_node n out g)) (add_node-Holds n out.candidate t.0)
      (λ g h. (
        h.0,
        Tracks-add (node_there out.candidate) (node_there g) (node_there base) out.added_nodes
            out.removed_nodes n.id h.1 h.2 t.1,
        Tracks-same (edge_there out.candidate) (edge_there g) (edge_there base) out.added_edges
            out.removed_edges (λ id. ap (λ es. is_found (find_edge_in id es)) h.3) t.2,
      ))

pub add_node_tracked-Holds :
    (base : GraphSpec) (n : NodeSpec) (out : CandidateSpec)
    → IsTracked base out
    → Holds (IsTracked base) (add_node_tracked n out)
unfolding add_node_tracked touch_node
add_node_tracked-Holds base n out t =
    Holds-bind (IsTracked base) (IsTracked base) (place_node n out) (λ c. ok (touch_node n.id c))
      (place_node-Holds base n out t) (λ c h. h)

-- A removal of an edge that is there succeeds.
abbrev pub CutEdge : GraphSpec → Text → CandidateSpec → CandidateSpec → Type 0
CutEdge base id out cut =
    IsTracked base cut
    × (cut.candidate.nodes ≡ out.candidate.nodes)
    × ((j : Text)
        → find_edge j cut.candidate ≡ (if text_eq id j then none else find_edge j out.candidate))

pub found_some : {A : Type 0} (o : Option A) → is_found o ≡ true → (x : A) × (o ≡ some x)
found_some none h = absurd (cc)
found_some (some x) h = (x, refl)

gone_or_there :
    (b : Bool) (o : Option EdgeSpec)
    → is_found (if◌then◌else◌ {A = Option EdgeSpec} b none o) ≡ (is_found o && not b)
gone_or_there true none = refl
gone_or_there true (some e) = refl
gone_or_there false none = refl
gone_or_there false (some e) = refl

pub gone_or_found :
    (b : Bool) (o : Option NodeSpec)
    → is_found (if◌then◌else◌ {A = Option NodeSpec} b none o) ≡ (is_found o && not b)
gone_or_found true none = refl
gone_or_found true (some e) = refl
gone_or_found false none = refl
gone_or_found false (some e) = refl

remove_edge_lem :
    (id : Text) (g : GraphSpec)
    → edge_there g id ≡ true
    → changed (remove_edge id g) ≡ ok (record g { edges = erase_edge id g.edges })
unfolding remove_edge
remove_edge_lem id g h = rw h refl

cut-IsValid :
    (id : Text) (g : GraphSpec)
    → IsValid g
    → edge_there g id ≡ true
    → IsValid (record g { edges = erase_edge id g.edges })
unfolding remove_edge
cut-IsValid id g v h =
    subst
      (λ (b : Bool).
        IsValid
          (if◌then◌else◌ {A = Status × GraphSpec} b
            (fine, record g { edges = erase_edge id g.edges }) (not_found, g)).1)
      h (remove_edge-IsValid id g v)

pub remove_edge_tracked_lem :
    (base : GraphSpec) (id : Text) (out : CandidateSpec)
    → IsTracked base out
    → edge_there out.candidate id ≡ true
    → (cut : CandidateSpec) × (remove_edge_tracked id out ≡ ok cut) × CutEdge base id out cut
unfolding remove_edge_tracked cut_edge note_cut
remove_edge_tracked_lem base id out t there =
    let g : GraphSpec = out.candidate in
    let h : GraphSpec = record g { edges = erase_edge id g.edges } in
    let found = found_some (find_edge id g) there in
    let after : (j : Text) → find_edge j h ≡ (if text_eq id j then none else find_edge j g) =
      λ j. find-erase_edge id j g.nodes g.edges t.0.1 in
    (
      note_cut id found.0 out h,
      ap (λ (o : Option EdgeSpec). some_or o not_found >>= cut_edge id out) found.1
          ∙ ap (λ (r : Result GraphSpec). r >>= λ x. ok (note_cut id found.0 out x))
              (remove_edge_lem id g there),
      (
        (
          cut-IsValid id g t.0 there,
          t.1,
          Tracks-take_back (edge_there g) (edge_there h) (edge_there base) out.added_edges
              out.removed_edges id there
              (λ j. ap is_found (after j) ∙ gone_or_there (text_eq id j) (find_edge j g)) t.2,
        ),
        refl,
        after,
      ),
    )
