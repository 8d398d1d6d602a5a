-- ===== src/Applier/Nodes.antt =====
-- RemoveNodeWithEdges of src/mutation_applier.cpp as a whole.
use ge.Prelude.{
  ◌≡◌, refl, sym, ap, ◌∙◌, true, false, Option, none, some, if◌then◌else◌, Text, text_eq, arith,
  Bool-cases, inl, inr, subst,
}
use ge.Graph.{
  EdgeSpec, GraphSpec, RemovePolicy, not_found, find_node, find_edge, find_in, is_found, touches,
  remove_node,
}
use ge.Graph.Removal.{unless_touching}
use ge.Graph.Edits.{IsValid, remove_node-IsValid}
use ge.Graph.Found.{find-remove_node}
use ge.Applier.{
  Result, ok, ◌>>=◌, guard, ◌>>◌, changed, CandidateSpec, mem, incident, remove_edges, note_drop,
  drop_node, remove_node_with_edges,
}
use ge.Applier.Tracks.{Tracks-same, Tracks-take_back}
use ge.Applier.Steps.{node_there, edge_there, IsTracked, gone_or_found, Holds}
use ge.Applier.Incident.{
  incident-AllApart, incident_there, touching_incident, apart_incident, remove_edges_lem,
}

-- The node is gone with the edges that touched it, and nothing else.
abbrev pub WithoutNode : Text → GraphSpec → GraphSpec → Type 0
WithoutNode id g h =
    ((j : Text) → find_node j h ≡ (if text_eq id j then none else find_node j g))
    × ((j : Text) → find_edge j h ≡ unless_touching id (find_edge j g))

remove_node_lem :
    (id : Text) (g : GraphSpec)
    → node_there g id ≡ true
    → changed (remove_node id g) ≡ ok (remove_node id g).1
unfolding remove_node
remove_node_lem id g h = rw h refl

unless_apart :
    (id : Text) (o : Option EdgeSpec)
    → ((e : EdgeSpec) → o ≡ some e → touches id e ≡ false)
    → unless_touching id o ≡ o
unless_apart id none h = refl
unless_apart id (some e) h = rw (h e refl) refl

-- The incident edges are those that touch the node.
unless_incident :
    (id : Text) (g : GraphSpec) (j : Text) (o : Option EdgeSpec)
    → find_edge j g ≡ o
    → IsValid g
    → (if◌then◌else◌ {A = Option EdgeSpec} (mem j (incident id g)) none o) ≡ unless_touching id o
unless_incident id g j none h v = ground arith
unless_incident id g j (some e) h v = elim (Bool-cases (touches id e)) [
  | inl k ↦ rw (k, touching_incident id g j e h k) refl
  | inr k ↦ rw (k, apart_incident id g j e v h k) refl
]

unless_touching_twice :
    (id : Text) (o : Option EdgeSpec) (e : EdgeSpec)
    → unless_touching id o ≡ some e
    → touches id e ≡ false
unless_touching_twice id none e h = absurd (cc)
unless_touching_twice id (some f) e h = elim (Bool-cases (touches id f)) [
  | inl k ↦ absurd (ground (arith, h, k))
  | inr k ↦ let same : f ≡ e = ground (arith, h, k) in ap (touches id) (sym same) ∙ k
]

drop_node_lem :
    (base : GraphSpec) (id : Text) (policy : RemovePolicy) (out : CandidateSpec)
    → IsTracked base out
    → node_there out.candidate id ≡ true
    → ((j : Text) (e : EdgeSpec) → find_edge j out.candidate ≡ some e → touches id e ≡ false)
    → (cut : CandidateSpec) × (drop_node id policy out ≡ ok cut)
      × IsTracked base cut
      × ((j : Text)
          → find_node j cut.candidate ≡ (if text_eq id j then none else find_node j out.candidate))
      × ((j : Text) → find_edge j cut.candidate ≡ find_edge j out.candidate)
unfolding drop_node note_drop
drop_node_lem base id policy out t there apart =
    let g : GraphSpec = out.candidate in
    let h : GraphSpec = (remove_node id g).1 in
    let r = find-remove_node id g t.0 there in
    let edges : (j : Text) → find_edge j h ≡ find_edge j g =
      λ j. r.2 j ∙ unless_apart id (find_edge j g) (apart j) in
    (
      note_drop id policy out h,
      ap (λ (x : Result GraphSpec). x >>= λ y. ok (note_drop id policy out y))
          (remove_node_lem id g there),
      (
        remove_node-IsValid id g t.0,
        Tracks-take_back (node_there g) (node_there h) (node_there base) out.added_nodes
            out.removed_nodes id there
            (λ j. ap is_found (r.1 j) ∙ gone_or_found (text_eq id j) (find_node j g)) t.1,
        Tracks-same (edge_there g) (edge_there h) (edge_there base) out.added_edges
            out.removed_edges (λ j. ap is_found (edges j)) t.2,
      ),
      r.1,
      edges,
    )

-- Removing a node that is in the candidate of a patch in progress succeeds. The candidate stays a valid
-- graph whose lists tell its difference from the base; it has lost the node and the edges that touched
-- it, and nothing else.
pub remove_node_with_edges_lem :
    (base : GraphSpec) (id : Text) (policy : RemovePolicy) (out : CandidateSpec)
    → IsTracked base out
    → node_there out.candidate id ≡ true
    → (cut : CandidateSpec) × (remove_node_with_edges id policy out ≡ ok cut)
      × IsTracked base cut
      × WithoutNode id out.candidate cut.candidate
unfolding remove_node_with_edges
remove_node_with_edges_lem base id policy out t there =
    let g : GraphSpec = out.candidate in
    let (mid, p, m) =
      remove_edges_lem base (incident id g) out t (incident-AllApart id g t.0)
        (incident_there id g) in
    let left : (j : Text) → find_edge j mid.candidate ≡ unless_touching id (find_edge j g) =
      λ j. m.2 j ∙ unless_incident id g j (find_edge j g) refl t.0 in
    let (cut, q, kept, nodes, edges) =
      drop_node_lem base id policy mid m.0 (ap (λ ns. is_found (find_in id ns)) m.1 ∙ there)
        (λ j e h. unless_touching_twice id (find_edge j g) e (sym (left j) ∙ h)) in
    (
      cut,
      ap (λ b. guard b not_found >> (remove_edges (incident id g) out >>= drop_node id policy))
            there
          ∙ ap (λ (r : Result CandidateSpec). r >>= drop_node id policy) p
          ∙ q,
      kept,
      (
        λ j. nodes j ∙ ap (λ ns. if text_eq id j then none else find_in j ns) m.1,
        λ j. edges j ∙ left j,
      ),
    )

pub remove_node_with_edges-Holds :
    (base : GraphSpec) (id : Text) (policy : RemovePolicy) (out : CandidateSpec)
    → IsTracked base out
    → Holds (IsTracked base) (remove_node_with_edges id policy out)
unfolding remove_node_with_edges
remove_node_with_edges-Holds base id policy out t =
    elim (Bool-cases (node_there out.candidate id)) [
      | inl h ↦
          let (cut, p, kept, without) = remove_node_with_edges_lem base id policy out t h in
          subst (Holds (IsTracked base)) (sym p) kept
      | inr h ↦ rw h tt
    ]
