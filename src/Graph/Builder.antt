-- ===== src/Graph/Builder.antt =====
-- GraphBuilder of src/graph_spec.cpp: calls that go on after an error, and Build, which reports the
-- first one.
use ge.Prelude.{
  ℕ, map, subst, ◌≡◌, ◌≢◌, refl, sym, ap, ◌∙◌, Bool, Option, none, some, List, [], ◌∷◌, ◌++◌, Text,
  inl, inr, ◌⊎◌,
}
use ge.Graph.{
  NodeSpec, EdgeSpec, GraphSpec, PortRef, QueueSpec, SyncPolicy, OperatorKey, auto, empty_graph,
  Status, fine, graph_invalid, already_exists, not_found, invalid_argument, shared_dependency,
  add_node, add_edge,
}
use ge.Graph.Edits.{Edit, adds_node, adds_edge, edit, IsValid, run_edits, run_edits_from}

-- The statuses of the failed calls, in their order.
pub record Builder : Type 0 where
  pub spec : GraphSpec
  pub errors : List Status

pub record EdgeOptions : Type 0 where
  pub id : Option Text
  pub queue : QueueSpec
  pub sync : Option SyncPolicy
  pub feedback : Bool

pub data Call : Type 0 where
  adds_operator : OperatorKey → Text → ℕ → Call
  adds : NodeSpec → Call
  connects : PortRef → PortRef → EdgeOptions → Call

-- A failed call is noted and the graph stays as the edit left it.
abbrev pub note : Status × GraphSpec → List Status → Builder
note (fine, g) errors = record { spec = g; errors = errors }
note (s, g) errors = record { spec = g; errors = errors ++ s ∷ [] }

unfoldable pub builder_add_node : NodeSpec → Builder → Builder
builder_add_node n b = note (add_node n b.spec) b.errors

-- A node of an operator has the default executor and a parallelism of 1.
unfoldable pub node_of_operator : OperatorKey → Text → ℕ → NodeSpec
node_of_operator key id options = record {
  id = id;
  op = key;
  executor = record { kind = auto; device_id = none };
  parallelism = 1;
  options = options;
  labels = 0;
}

unfoldable pub edge_of_options : PortRef → PortRef → EdgeOptions → EdgeSpec
edge_of_options from to options = record {
  id = elim options.id [ none ↦ [] | some id ↦ id ];
  from = from;
  to = to;
  queue = options.queue;
  sync = options.sync;
  feedback = options.feedback;
}

unfoldable pub connect : PortRef → PortRef → EdgeOptions → Builder → Builder
connect from to options b = note (add_edge (edge_of_options from to options) b.spec) b.errors

abbrev pub call : Call → Builder → Builder
call (adds_operator key id options) b = builder_add_node (node_of_operator key id options) b
call (adds n) b = builder_add_node n b
call (connects from to options) b = connect from to options b

unfoldable pub run_calls : List Call → Builder → Builder
run_calls [] b = b
run_calls (c ∷ cs) b = run_calls cs (call c b)

-- The first error, or the graph if it has a node.
unfoldable pub build : Builder → Status ⊎ GraphSpec
build b = elim b.errors [
  | s ∷ rest ↦ inl s
  | [] ↦ elim b.spec.nodes [ [] ↦ inl graph_invalid | n ∷ rest ↦ inr b.spec ]
]

abbrev pub empty_builder : Builder
empty_builder = record { spec = empty_graph; errors = [] }

-- The edit that a call makes.
abbrev pub edit_of : Call → Edit
edit_of (adds_operator key id options) = adds_node (node_of_operator key id options)
edit_of (adds n) = adds_node n
edit_of (connects from to options) = adds_edge (edge_of_options from to options)

call-edit : (c : Call) (b : Builder) → call c b ≡ note (edit (edit_of c) b.spec) b.errors
unfolding builder_add_node connect
call-edit (adds_operator key id options) b = refl
call-edit (adds n) b = refl
call-edit (connects from to options) b = refl

-- The reference: the calls as edits that stop at the first error.
abbrev pub continue : Status × GraphSpec → (GraphSpec → Status ⊎ GraphSpec) → Status ⊎ GraphSpec
continue (fine, g) next = next g
continue (s, g) next = inl s

unfoldable pub strict : List Call → GraphSpec → Status ⊎ GraphSpec
strict [] g = elim g.nodes [ [] ↦ inl graph_invalid | n ∷ rest ↦ inr g ]
strict (c ∷ cs) g = continue (edit (edit_of c) g) (strict cs)

-- Once there is an error, it stays the first.
note_first :
    (r : Status × GraphSpec) (s : Status) (rest : List Status)
    → (more : List Status) × ((note r (s ∷ rest)).errors ≡ s ∷ more)
note_first (fine, g) s rest = (rest, refl)
note_first (graph_invalid, g) s rest = (rest ++ graph_invalid ∷ [], refl)
note_first (already_exists, g) s rest = (rest ++ already_exists ∷ [], refl)
note_first (not_found, g) s rest = (rest ++ not_found ∷ [], refl)
note_first (invalid_argument, g) s rest = (rest ++ invalid_argument ∷ [], refl)
note_first (shared_dependency, g) s rest = (rest ++ shared_dependency ∷ [], refl)

build_failed :
    (cs : List Call) (b : Builder) (s : Status) (rest : List Status)
    → b.errors ≡ s ∷ rest
    → build (run_calls cs b) ≡ inl s
unfolding build run_calls
build_failed [] b s rest e = rw e refl
build_failed (c ∷ cs) b s rest e =
    let first = note_first (edit (edit_of c) b.spec) s rest in
    build_failed cs (call c b) s first.0 (
      ap (λ (x : Builder). x.errors) (call-edit c b)
      ∙ ap (λ es. (note (edit (edit_of c) b.spec) es).errors) e
      ∙ first.1)

build_step :
    (cs : List Call) (r : Status × GraphSpec)
    → ((g : GraphSpec) → build (run_calls cs (record { spec = g; errors = [] })) ≡ strict cs g)
    → build (run_calls cs (note r [])) ≡ continue r (strict cs)
build_step cs (fine, g) h = h g
build_step cs (graph_invalid, g) h =
    build_failed cs (note (graph_invalid, g) []) graph_invalid [] refl
build_step cs (already_exists, g) h =
    build_failed cs (note (already_exists, g) []) already_exists [] refl
build_step cs (not_found, g) h = build_failed cs (note (not_found, g) []) not_found [] refl
build_step cs (invalid_argument, g) h =
    build_failed cs (note (invalid_argument, g) []) invalid_argument [] refl
build_step cs (shared_dependency, g) h =
    build_failed cs (note (shared_dependency, g) []) shared_dependency [] refl

build_calls :
    (cs : List Call) (g : GraphSpec)
    → build (run_calls cs (record { spec = g; errors = [] })) ≡ strict cs g
unfolding build run_calls strict
build_calls [] g = refl
build_calls (c ∷ cs) g =
    ap (λ b. build (run_calls cs b)) (call-edit c (record { spec = g; errors = [] }))
    ∙ build_step cs (edit (edit_of c) g) (build_calls cs)

-- For every sequence of calls on a new builder: Build gives what the calls give as edits of an empty
-- graph that stop at the first error. It gives that error, or the error of a graph with no node, or
-- the graph.
pub build-run_calls : (cs : List Call) → build (run_calls cs empty_builder) ≡ strict cs empty_graph
build-run_calls cs = build_calls cs empty_graph

finished :
    (g h : GraphSpec) (ns : List NodeSpec)
    → g.nodes ≡ ns
    → ◌≡◌ {A = Status ⊎ GraphSpec} (elim ns [ [] ↦ inl graph_invalid | n ∷ rest ↦ inr g ]) (inr h)
    → (g ≡ h) × (g.nodes ≢ [])
finished g h [] e k = absurd (cc)
finished g h (n ∷ ns) e k =
    (ap (λ (r : Status ⊎ GraphSpec). elim r [ inl s ↦ g | inr x ↦ x ]) k, λ z. absurd (cc))

continued :
    (r : Status × GraphSpec) (next : GraphSpec → Status ⊎ GraphSpec) (h : GraphSpec)
    → continue r next ≡ inr h
    → next r.1 ≡ inr h
continued (fine, g) next h e = e
continued (graph_invalid, g) next h e = absurd (cc)
continued (already_exists, g) next h e = absurd (cc)
continued (not_found, g) next h e = absurd (cc)
continued (invalid_argument, g) next h e = absurd (cc)
continued (shared_dependency, g) next h e = absurd (cc)

strict-run :
    (cs : List Call) (g h : GraphSpec)
    → strict cs g ≡ inr h
    → (run_edits (map edit_of cs) g ≡ h) × (h.nodes ≢ [])
unfolding strict run_edits
strict-run [] g h e =
    let r = finished g h g.nodes refl e in (r.0, subst (λ (x : GraphSpec). x.nodes ≢ []) r.0 r.1)
strict-run (c ∷ cs) g h e =
    strict-run cs (edit (edit_of c) g).1 h (continued (edit (edit_of c) g) (strict cs) h e)

-- A graph that Build gives, after any calls on a new builder, is well-formed, has a node, and is the
-- graph of the calls as edits of an empty graph.
pub build-IsValid :
    (cs : List Call) (h : GraphSpec)
    → build (run_calls cs empty_builder) ≡ inr h
    → IsValid h × (h.nodes ≢ []) × (run_edits (map edit_of cs) empty_graph ≡ h)
build-IsValid cs h e =
    let r = strict-run cs empty_graph h (sym (build-run_calls cs) ∙ e) in
    (subst IsValid r.0 (run_edits_from (map edit_of cs) empty_graph (tt, tt)), r.1, r.0)
