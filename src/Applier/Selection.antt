-- ===== src/Applier/Selection.antt =====
-- Which selections RemoveBranch of src/mutation_applier.cpp accepts.
use ge.Prelude.{
  ℕ, zero, suc, ◌≡◌, ◌↔◌, refl, sym, ap, ap₂, ◌∙◌, subst, Bool, true, false, not, ◌&&◌, ◌||◌,
  Option, none, some, List, [], ◌∷◌, ◌++◌, arith, Bool-cases, inl, inr, if◌then◌else◌, get_elem?,
  Text, text_eq, text_eq→eq, text_eq_refl,
}
use ge.Graph.{
  EdgeSpec, GraphSpec, Status, graph_invalid, not_found, invalid_argument, shared_dependency,
  find_edge, find_node, is_found,
}
use ge.Graph.Patch.{RemoveBranchAction, entry_edges_of}
use ge.Applier.{
  Result, ok, err, ◌>>=◌, ◌>>◌, guard, some_or, mem, is_nil, enter, all_found, includes, reach,
  reach_fuel, check_branch, SharedDependency, dependency, shared_in, find_shared_dependencies,
}
use ge.Applier.Reach.{Reaches, enters, follows, search}

-- The nodes that the entry edges lead to.
abbrev end_of : Option EdgeSpec → List Text → List Text
end_of none rest = rest
end_of (some e) rest = e.to.node_id ∷ rest

unfoldable pub entry_ends : GraphSpec → List Text → List Text
entry_ends g [] = []
entry_ends g (id ∷ ids) = end_of (find_edge id g) (entry_ends g ids)

-- An entry edge leads from outside of the selection into it.
abbrev pub EntryFits : GraphSpec → List Text → Text → Type 0
EntryFits g selection id =
    (e : EdgeSpec) × (find_edge id g ≡ some e)
    × (mem e.to.node_id selection ≡ true)
    × (mem e.from.node_id selection ≡ false)

abbrev pub EntriesFit : GraphSpec → List Text → List Text → Type 0
EntriesFit g selection [] = Unit {0}
EntriesFit g selection (id ∷ ids) = EntryFits g selection id × EntriesFit g selection ids

-- A selection of nodes of the graph that the entry edges lead into, that they reach inside of it, and
-- that no other edge enters or leaves.
abbrev pub IsBranch : GraphSpec → List Text → List Text → Type 0
IsBranch g selection entries =
    (is_nil selection ≡ false)
    × EntriesFit g selection entries
    × ((id : Text) → mem id selection ≡ true → is_found (find_node id g) ≡ true)
    × ((id : Text) → mem id selection ≡ true → Reaches selection g.edges (entry_ends g entries) id)
    × ((i : ℕ) (e : EdgeSpec)
        → get_elem? g.edges i ≡ some e
        → mem e.id entries ≡ false
        → mem e.from.node_id selection ≡ mem e.to.node_id selection)

guarded {ℓ} :
    {B : Type ℓ} (b : Bool) (s : Status) (r : Result B) (x : B)
    → (guard b s >> r) ≡ ok x
    → (b ≡ true) × (r ≡ ok x)
guarded true s r x e = (refl, e)
guarded false s r x e = absurd (cc)

guard_ok : (b : Bool) (s : Status) → guard b s ≡ ok tt → b ≡ true
guard_ok true s e = refl
guard_ok false s e = absurd (cc)

step {ℓ κ} :
    {A : Type ℓ} {B : Type κ} (r : Result A) (f : A → Result B) (b : B)
    → (r >>= f) ≡ ok b
    → (a : A) × (r ≡ ok a) × (f a ≡ ok b)
step (ok a) f b e = (a, refl, e)
step (err s) f b e = absurd (cc)

given {ℓ} : {A : Type ℓ} (o : Option A) (s : Status) (a : A) → some_or o s ≡ ok a → o ≡ some a
given {A = A} (some x) s a e = ap (λ (r : Result A). elim r [ ok y ↦ some y | err t ↦ some x ]) e
given none s a e = absurd (cc)

enter_fits :
    (g : GraphSpec) (selection ids stack result : List Text)
    → enter g selection ids stack ≡ ok result
    → EntriesFit g selection ids
      × ((j : Text) → mem j result ≡ (mem j stack || mem j (entry_ends g ids)))
unfolding enter entry_ends mem
enter_fits g selection [] stack result e =
    let same : stack ≡ result =
      ap (λ (r : Result (List Text)). elim r [ ok y ↦ y | err t ↦ stack ]) e in
    (tt, λ j. ap (mem j) (sym same) ∙ ground arith)
enter_fits g selection (id ∷ ids) stack result e =
    let next : EdgeSpec → Result (List Text) = λ f.
      guard (mem f.to.node_id selection) graph_invalid
      >> (guard (not (mem f.from.node_id selection)) graph_invalid
          >> enter g selection ids (f.to.node_id ∷ stack)) in
    let (f, p, q) = step (some_or (find_edge id g) not_found) next result e in
    let (into, r) =
      guarded (mem f.to.node_id selection) graph_invalid
        (guard (not (mem f.from.node_id selection)) graph_invalid
          >> enter g selection ids (f.to.node_id ∷ stack))
        result q in
    let (away, t) =
      guarded (not (mem f.from.node_id selection)) graph_invalid
        (enter g selection ids (f.to.node_id ∷ stack)) result r in
    let found : find_edge id g ≡ some f = given (find_edge id g) not_found f p in
    let rest = enter_fits g selection ids (f.to.node_id ∷ stack) result t in
    (
      ((f, found, into, ground (arith, away)), rest.0),
      λ j.
          rest.1 j
          ∙ ground arith
          ∙ ap (λ o. mem j stack || mem j (end_of o (entry_ends g ids))) (sym found),
    )

enter_ok :
    (g : GraphSpec) (selection ids stack : List Text)
    → EntriesFit g selection ids
    → (result : List Text) × (enter g selection ids stack ≡ ok result)
unfolding enter
enter_ok g selection [] stack v = (stack, refl)
enter_ok g selection (id ∷ ids) stack ((f, found, into, away), v) =
    let (result, e) = enter_ok g selection ids (f.to.node_id ∷ stack) v in
    (
      result,
      ap
            (λ o. some_or o not_found >>= λ (e : EdgeSpec).
              guard (mem e.to.node_id selection) graph_invalid
              >> (guard (not (mem e.from.node_id selection)) graph_invalid
                  >> enter g selection ids (e.to.node_id ∷ stack)))
            found
          ∙ ap₂
              (λ b c.
                guard b graph_invalid
                >> (guard (not c) graph_invalid >> enter g selection ids (f.to.node_id ∷ stack)))
              into away
          ∙ e,
    )

all_found_iff :
    (g : GraphSpec) (ids : List Text)
    → (all_found g ids ≡ true)
      ↔ ((id : Text) → mem id ids ≡ true → is_found (find_node id g) ≡ true)
unfolding all_found mem
all_found_iff g [] = (λ h id m. absurd (cc), λ h. refl)
all_found_iff g (x ∷ ids) = (
  λ h id m. elim (Bool-cases (text_eq x id)) [
    | inl k ↦ ap (λ y. is_found (find_node y g)) (sym (text_eq→eq x id k)) ∙ ground (arith, h)
    | inr k ↦ (all_found_iff g ids).0 (ground (arith, h)) id (ground (arith, m, k))
  ],
  λ h.
      let first : is_found (find_node x g) ≡ true = h x (ground (arith, text_eq_refl x)) in
      let rest : all_found g ids ≡ true =
        (all_found_iff g ids).1 (λ id m. h id (ground (arith, m))) in
      ground (arith, first, rest),
)

includes_iff :
    (ids reached : List Text)
    → (includes ids reached ≡ true) ↔ ((id : Text) → mem id ids ≡ true → mem id reached ≡ true)
unfolding includes mem
includes_iff [] reached = (λ h id m. absurd (cc), λ h. refl)
includes_iff (x ∷ ids) reached = (
  λ h id m. elim (Bool-cases (text_eq x id)) [
    | inl k ↦ ap (λ y. mem y reached) (sym (text_eq→eq x id k)) ∙ ground (arith, h)
    | inr k ↦ (includes_iff ids reached).0 (ground (arith, h)) id (ground (arith, m, k))
  ],
  λ h.
      let first : mem x reached ≡ true = h x (ground (arith, text_eq_refl x)) in
      let rest : includes ids reached ≡ true =
        (includes_iff ids reached).1 (λ id m. h id (ground (arith, m))) in
      ground (arith, first, rest),
)

pub is_nil-append {ℓ} : {A : Type ℓ} (xs ys : List A) → is_nil (xs ++ ys) ≡ (is_nil xs && is_nil ys)
is_nil-append [] ys = refl
is_nil-append (x ∷ xs) ys = refl

is_nil-dependency : (e : EdgeSpec) (b c : Bool) → (is_nil (dependency b c e) ≡ true) ↔ (b ≡ c)
unfolding dependency
is_nil-dependency e true true = (λ h. refl, λ h. refl)
is_nil-dependency e true false = (λ h. absurd (cc), λ h. absurd (cc))
is_nil-dependency e false true = (λ h. absurd (cc), λ h. absurd (cc))
is_nil-dependency e false false = (λ h. refl, λ h. refl)

abbrev OnlyEntries : List Text → List Text → List EdgeSpec → Type 0
OnlyEntries selection entries es =
    (i : ℕ) (e : EdgeSpec)
    → get_elem? es i ≡ some e
    → mem e.id entries ≡ false
    → mem e.from.node_id selection ≡ mem e.to.node_id selection

module _ (selection entries : List Text) where
  abbrev shared_by : EdgeSpec → List SharedDependency
  shared_by e =
      if mem e.id entries
      then []
      else dependency (mem e.from.node_id selection) (mem e.to.node_id selection) e

  shared_none :
      (f : EdgeSpec)
      → is_nil (shared_by f) ≡ true
      → mem f.id entries ≡ false
      → mem f.from.node_id selection ≡ mem f.to.node_id selection
  shared_none f h p =
      (is_nil-dependency f (mem f.from.node_id selection) (mem f.to.node_id selection)).0
        (ground (arith, h, p))

  not_shared :
      (f : EdgeSpec)
      → (mem f.id entries ≡ false → mem f.from.node_id selection ≡ mem f.to.node_id selection)
      → is_nil (shared_by f) ≡ true
  not_shared f h = elim (Bool-cases (mem f.id entries)) [
    | inl k ↦ rw k refl
    | inr k ↦
        rw k (
          (is_nil-dependency f (mem f.from.node_id selection) (mem f.to.node_id selection)).1 (h k))
  ]

  only_entries :
      (es : List EdgeSpec)
      → is_nil (shared_in selection entries es) ≡ true
      → OnlyEntries selection entries es
  unfolding shared_in
  only_entries [] h i e p q = absurd (cc)
  only_entries (f ∷ es) h zero e p q =
      let same : f ≡ e = ground (arith, p) in
      let split = is_nil-append (shared_by f) (shared_in selection entries es) in
      subst (λ (x : EdgeSpec). mem x.from.node_id selection ≡ mem x.to.node_id selection) same
        (shared_none f (ground (arith, split, h))
          (ap (λ (x : EdgeSpec). mem x.id entries) same ∙ q))
  only_entries (f ∷ es) h (suc i) e p q =
      let split = is_nil-append (shared_by f) (shared_in selection entries es) in
      only_entries es (ground (arith, split, h)) i e p q

  none_shared :
      (es : List EdgeSpec)
      → OnlyEntries selection entries es
      → is_nil (shared_in selection entries es) ≡ true
  unfolding shared_in
  none_shared [] h = refl
  none_shared (f ∷ es) h =
      let first : is_nil (shared_by f) ≡ true = not_shared f (h 0 f refl) in
      let rest = none_shared es (λ i. h (suc i)) in
      is_nil-append (shared_by f) (shared_in selection entries es) ∙ ap₂ ◌&&◌ first rest

Reaches-from :
    (selection : List Text) (es : List EdgeSpec) (from more : List Text) (j : Text)
    → ((x : Text) → mem x from ≡ true → mem x more ≡ true)
    → Reaches selection es from j
    → Reaches selection es more j
Reaches-from selection es from more j h (enters _ m) = enters j (h j m)
Reaches-from selection es from more j h (follows i e p q r) =
    follows i e p q (Reaches-from selection es from more e.from.node_id h r)

module _ (g : GraphSpec) (a : RemoveBranchAction) where
  abbrev check_exclusive : Result (Unit {0})
  check_exclusive =
      guard (is_nil (find_shared_dependencies g a.nodes (entry_edges_of a))) shared_dependency

  abbrev check_reached : List Text → Result (Unit {0})
  check_reached reached = guard (includes a.nodes reached) graph_invalid >> check_exclusive

  abbrev reached_from : List Text → Result (List Text)
  reached_from stack =
      some_or (reach (reach_fuel g.edges stack) a.nodes g.edges stack []) invalid_argument

  abbrev check_nodes : List Text → Result (Unit {0})
  check_nodes stack =
      guard (all_found g a.nodes) not_found >> (reached_from stack >>= check_reached)

  accepted : check_branch g a ≡ ok tt → IsBranch g a.nodes (entry_edges_of a)
  unfolding check_branch mem
  accepted e =
      let entries : List Text = entry_edges_of a in
      let (named, e1) =
        guarded (not (is_nil a.nodes)) graph_invalid (enter g a.nodes entries [] >>= check_nodes) tt
          e in
      let (stack, entered, e2) = step (enter g a.nodes entries []) check_nodes tt e1 in
      let (fit, starts) = enter_fits g a.nodes entries [] stack entered in
      let (there, e3) =
        guarded (all_found g a.nodes) not_found (reached_from stack >>= check_reached) tt e2 in
      let (reached, found, e4) = step (reached_from stack) check_reached tt e3 in
      let (all, e5) = guarded (includes a.nodes reached) graph_invalid check_exclusive tt e4 in
      let (result, searched, exact) = search a.nodes g.edges stack in
      let same : result ≡ reached =
        ap (λ (o : Option (List Text)). elim o [ some x ↦ x | none ↦ result ])
          (sym searched
            ∙ given (reach (reach_fuel g.edges stack) a.nodes g.edges stack []) invalid_argument
                reached found) in
      (
        ground (arith, named),
        fit,
        (all_found_iff g a.nodes).0 there,
        λ id m.
            Reaches-from a.nodes g.edges stack (entry_ends g entries) id (λ x p. sym (starts x) ∙ p)
              ((exact id).0 (ap (mem id) same ∙ (includes_iff a.nodes reached).0 all id m)),
        only_entries a.nodes entries g.edges
            (guard_ok (is_nil (find_shared_dependencies g a.nodes entries)) shared_dependency e5),
      )

  accepts : IsBranch g a.nodes (entry_edges_of a) → check_branch g a ≡ ok tt
  unfolding check_branch mem
  accepts (named, fit, there, reaches, alone) =
      let entries : List Text = entry_edges_of a in
      let (stack, entered) = enter_ok g a.nodes entries [] fit in
      let starts = (enter_fits g a.nodes entries [] stack entered).1 in
      let (result, searched, exact) = search a.nodes g.edges stack in
      let all : includes a.nodes result ≡ true = (includes_iff a.nodes result).1 (λ id m.
        (exact id).1 (
          Reaches-from a.nodes g.edges (entry_ends g entries) stack id (λ x p. starts x ∙ p)
            (reaches id m))) in
      ap (λ b. guard (not b) graph_invalid >> (enter g a.nodes entries [] >>= check_nodes)) named
      ∙ ap (λ (r : Result (List Text)). r >>= check_nodes) entered
      ∙ ap (λ b. guard b not_found >> (reached_from stack >>= check_reached))
          ((all_found_iff g a.nodes).1 there)
      ∙ ap (λ o. some_or o invalid_argument >>= check_reached) searched
      ∙ ap (λ b. guard b graph_invalid >> check_exclusive) all
      ∙ ap (λ b. guard b shared_dependency) (none_shared a.nodes entries g.edges alone)

-- A branch is accepted for removal exactly when its selection is a branch: it names a node; each entry
-- edge is in the graph and leads from outside of the selection into it; each selected node is in the
-- graph and is reached from the entry edges inside the selection; and no other edge of the graph enters
-- or leaves the selection.
pub check_branch-IsBranch :
    (g : GraphSpec) (a : RemoveBranchAction)
    → (check_branch g a ≡ ok tt) ↔ IsBranch g a.nodes (entry_edges_of a)
check_branch-IsBranch g a = (accepted g a, accepts g a)
