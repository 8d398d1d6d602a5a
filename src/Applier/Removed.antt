-- ===== src/Applier/Removed.antt =====
-- Several nodes removed at once, by RemoveBranch of src/mutation_applier.cpp.
use ge.Prelude.{
  ◌≡◌, refl, ap, ◌∙◌, true, ◌||◌, Option, none, some, List, [], ◌∷◌, if◌then◌else◌, Text, text_eq,
  text_eq→eq, text_eq_refl, arith, Bool-cases, inl, inr,
}
use ge.Graph.{EdgeSpec, GraphSpec, RemovePolicy, find_node, find_edge, is_found, touches}
use ge.Graph.Lookup.{text_eq-sym}
use ge.Graph.Removal.{unless_touching}
use ge.Graph.Patch.{RemoveBranchAction, entry_edges_of}
use ge.Applier.{Result, ok, ◌>>=◌, ◌>>◌, CandidateSpec, mem, remove_nodes, remove_branch}
use ge.Applier.Steps.{node_there, IsTracked}
use ge.Applier.Incident.{AllApart}
use ge.Applier.Nodes.{remove_node_with_edges_lem}
use ge.Applier.Selection.{IsBranch, check_branch-IsBranch}

-- What a lookup of an edge finds after the nodes are gone.
abbrev pub unless_any : List Text → Option EdgeSpec → Option EdgeSpec
unless_any ids none = none
unless_any ids (some e) = if mem e.from.node_id ids || mem e.to.node_id ids then none else some e

-- The nodes are gone with the edges that touched them, and nothing else.
abbrev pub WithoutNodes : List Text → GraphSpec → GraphSpec → Type 0
WithoutNodes ids g h =
    ((j : Text) → find_node j h ≡ (if mem j ids then none else find_node j g))
    × ((j : Text) → find_edge j h ≡ unless_any ids (find_edge j g))

unless_first :
    (id : Text) (ids : List Text) (o : Option EdgeSpec)
    → unless_any ids (unless_touching id o) ≡ unless_any (id ∷ ids) o
unfolding mem touches
unless_first id ids none = refl
unless_first id ids (some e) =
    ground (arith, text_eq-sym id e.from.node_id, text_eq-sym id e.to.node_id)

unless_nothing : (o : Option EdgeSpec) → o ≡ unless_any [] o
unfolding mem
unless_nothing none = refl
unless_nothing (some e) = refl

-- Nodes of the candidate, each named once, can be removed one after the other.
pub remove_nodes_lem :
    (base : GraphSpec) (ids : List Text) (policy : RemovePolicy) (out : CandidateSpec)
    → IsTracked base out
    → AllApart ids
    → ((id : Text) → mem id ids ≡ true → node_there out.candidate id ≡ true)
    → (cut : CandidateSpec) × (remove_nodes ids policy out ≡ ok cut)
      × IsTracked base cut
      × WithoutNodes ids out.candidate cut.candidate
unfolding remove_nodes mem
remove_nodes_lem base [] policy out t apart there =
    (out, refl, t, (λ j. refl, λ j. unless_nothing (find_edge j out.candidate)))
remove_nodes_lem base (id ∷ ids) policy out t apart there =
    let (mid, p, u, (nodes, edges)) =
      remove_node_with_edges_lem base id policy out t
        (there id (ground (arith, text_eq_refl id))) in
    let left : (j : Text) → mem j ids ≡ true → node_there mid.candidate j ≡ true = λ j m.
      elim (Bool-cases (text_eq id j)) [
        | inl k ↦ absurd (ground (arith, apart.0, ap (λ x. mem x ids) (text_eq→eq id j k), m))
        | inr k ↦
            ap is_found (nodes j)
            ∙ ap (λ b. is_found (if b then none else find_node j out.candidate)) k
            ∙ there j (ground (arith, m))
      ] in
    let (cut, q, v, (more_nodes, more_edges)) =
      remove_nodes_lem base ids policy mid u apart.1 left in
    (
      cut,
      ap (λ (r : Result CandidateSpec). r >>= remove_nodes ids policy) p ∙ q,
      v,
      (
        λ j. more_nodes j ∙ ground (arith, nodes j),
        λ j.
            more_edges j
            ∙ ap (unless_any ids) (edges j)
            ∙ unless_first id ids (find_edge j out.candidate),
      ),
    )

-- A selection that is a branch of the candidate and names no node twice is removed: the operation
-- succeeds, the selected nodes are gone with all edges that touched them, every other lookup finds what
-- it found, and the candidate stays a valid graph whose lists tell its difference from the base.
pub remove_branch_lem :
    (base : GraphSpec) (a : RemoveBranchAction) (policy : RemovePolicy) (out : CandidateSpec)
    → IsTracked base out
    → IsBranch out.candidate a.nodes (entry_edges_of a)
    → AllApart a.nodes
    → (cut : CandidateSpec) × (remove_branch a policy out ≡ ok cut)
      × IsTracked base cut
      × WithoutNodes a.nodes out.candidate cut.candidate
unfolding remove_branch
remove_branch_lem base a policy out t b apart =
    let (cut, p, u, w) = remove_nodes_lem base a.nodes policy out t apart b.2 in
    (
      cut,
      ap (λ (r : Result (Unit {0})). r >> remove_nodes a.nodes policy out)
            ((check_branch-IsBranch out.candidate a).1 b)
          ∙ p,
      u,
      w,
    )
