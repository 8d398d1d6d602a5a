-- ===== src/Validator/Accepted.antt =====
-- The checks of nodes and edges in Validate of src/graph_validator.cpp that raise no issue.
use ge.Prelude.{
  ℕ, zero, suc, ◌≡◌, refl, sym, ap, ◌∙◌, subst, Bool, true, false, not, ◌&&◌, Option, none, some,
  List, [], ◌∷◌, ◌++◌, if◌then◌else◌, get_elem?, Text, text_eq, arith, Bool-cases, inl, inr,
}
use ge.Graph.{NodeSpec, EdgeSpec, find_in, is_found, is_valid_stable_id}
use ge.Applier.{is_nil, CapabilityResolver}
use ge.Applier.Selection.{is_nil-append}
use ge.Validator.{
  ValidationIssue, NodeInfo, NodeChecks, EdgeChecks, find_info, issue_if, invalid_node,
  capability_issues, check_info, check_infos, edge_issues, check_edge_spec, check_edge_specs,
}

pub is_nil-issue_if : (b : Bool) (i : ValidationIssue) → is_nil (issue_if b i) ≡ not b
is_nil-issue_if true i = refl
is_nil-issue_if false i = refl

abbrev pub info_of : CapabilityResolver → Option NodeSpec → Option NodeInfo
info_of resolver none = none
info_of resolver (some n) = some (record { spec = n; cap = resolver n.op })

abbrev pub first_info : Option NodeInfo → Option NodeInfo → Option NodeInfo
first_info none o = o
first_info (some n) o = some n

or_none : (o : Option NodeInfo) → o ≡ first_info o none
or_none none = refl
or_none (some n) = refl

joined :
    (resolver : CapabilityResolver) (o : Option NodeInfo) (b : Bool) (n : NodeSpec)
    (p : Option NodeSpec)
    → first_info
        (first_info o (if b then some (record { spec = n; cap = resolver n.op }) else none))
        (info_of resolver p)
      ≡ first_info o (info_of resolver (if b then some n else p))
joined resolver (some m) b n p = refl
joined resolver none true n p = refl
joined resolver none false n p = refl

find_info-append :
    (x : Text) (infos : List NodeInfo) (n : NodeInfo)
    → find_info x (infos ++ n ∷ [])
      ≡ first_info (find_info x infos) (if text_eq n.spec.id x then some n else none)
unfolding find_info
find_info-append x [] n = refl
find_info-append x (m ∷ infos) n = elim (Bool-cases (text_eq m.spec.id x)) [
  | inl h ↦ rw h refl
  | inr h ↦ rw h (find_info-append x infos n)
]

module _ (resolver : CapabilityResolver) (fail_fast : Bool) where
  -- A node that raised no issue.
  info_kept :
      (n : NodeSpec) (c : NodeChecks)
      → is_nil (check_info resolver n c).issues ≡ true
      → (is_nil c.issues ≡ true)
        × (is_found (find_info n.id c.infos) ≡ false)
        × (is_nil (capability_issues n (resolver n.op)) ≡ true)
        × ((x : Text)
            → find_info x (check_info resolver n c).infos
              ≡ first_info (find_info x c.infos) (
                  if text_eq n.id x then some (record { spec = n; cap = resolver n.op }) else none))
  unfolding check_info
  info_kept n c h =
      let bad : List ValidationIssue =
        issue_if (not (is_valid_stable_id n.id)) (invalid_node n.id) in
      elim (Bool-cases (is_found (find_info n.id c.infos))) [
        | inl k ↦
            let all : is_nil (c.issues ++ (bad ++ invalid_node n.id ∷ [])) ≡ true =
              sym (
                ap
                  (λ b. is_nil (
                    if b
                    then c.issues ++ (bad ++ invalid_node n.id ∷ [])
                    else c.issues ++ (bad ++ capability_issues n (resolver n.op))))
                  k)
              ∙ issues_if (is_found (find_info n.id c.infos))
              ∙ h in
            absurd (
              ground (
                arith,
                all,
                is_nil-append c.issues (bad ++ invalid_node n.id ∷ []),
                is_nil-append bad (invalid_node n.id ∷ []),
              ))
        | inr k ↦
            let all : is_nil (c.issues ++ (bad ++ capability_issues n (resolver n.op))) ≡ true =
              sym (
                ap
                  (λ b. is_nil (
                    if b
                    then c.issues ++ (bad ++ invalid_node n.id ∷ [])
                    else c.issues ++ (bad ++ capability_issues n (resolver n.op))))
                  k)
              ∙ issues_if (is_found (find_info n.id c.infos))
              ∙ h in
            let first = is_nil-append c.issues (bad ++ capability_issues n (resolver n.op)) in
            let second = is_nil-append bad (capability_issues n (resolver n.op)) in
            (
              ground (arith, all, first),
              k,
              ground (arith, all, first, second),
              λ x. rw k (find_info-append x c.infos (record { spec = n; cap = resolver n.op })),
            )
      ]
    where
      issues_if :
          (b : Bool)
          → is_nil (
              if b
              then c.issues
                ++ (issue_if (not (is_valid_stable_id n.id)) (invalid_node n.id)
                    ++ invalid_node n.id ∷ [])
              else c.issues
                ++ (issue_if (not (is_valid_stable_id n.id)) (invalid_node n.id)
                    ++ capability_issues n (resolver n.op)))
            ≡ is_nil
                (if◌then◌else◌ {A = NodeChecks} b
                  (record c {
                    issues =
                        c.issues
                        ++ (issue_if (not (is_valid_stable_id n.id)) (invalid_node n.id)
                            ++ invalid_node n.id ∷ []);
                  })
                  (record {
                    infos = c.infos ++ record { spec = n; cap = resolver n.op } ∷ [];
                    issues =
                        c.issues
                        ++ (issue_if (not (is_valid_stable_id n.id)) (invalid_node n.id)
                            ++ capability_issues n (resolver n.op));
                  })).issues
      issues_if true = refl
      issues_if false = refl

  pub infos_kept :
      (ns : List NodeSpec) (c : NodeChecks)
      → is_nil (check_infos resolver fail_fast ns c).1.issues ≡ true
      → (is_nil c.issues ≡ true)
        × ((x : Text) (n : NodeSpec)
            → find_in x ns ≡ some n
            → is_nil (capability_issues n (resolver n.op)) ≡ true)
        × ((x : Text)
            → find_info x (check_infos resolver fail_fast ns c).1.infos
              ≡ first_info (find_info x c.infos) (info_of resolver (find_in x ns)))
  unfolding check_infos find_in
  infos_kept [] c h = (h, λ x n e. absurd (cc), λ x. or_none (find_info x c.infos))
  infos_kept (n ∷ ns) c h =
      let next : NodeChecks = check_info resolver n c in
      let halt : Bool =
        not (is_found (find_info n.id c.infos)) && (fail_fast && not (is_nil next.issues)) in
      let rest : Bool × NodeChecks = check_infos resolver fail_fast ns next in
      elim (Bool-cases halt) [
        | inl k ↦
            let stopped : is_nil next.issues ≡ true =
              sym (
                ap
                  (λ b. is_nil (if◌then◌else◌ {A = Bool × NodeChecks} b (true, next) rest).1.issues)
                  k)
              ∙ h in
            absurd (ground (arith, stopped, k))
        | inr k ↦
            let went : is_nil rest.1.issues ≡ true =
              sym (
                ap
                  (λ b. is_nil (if◌then◌else◌ {A = Bool × NodeChecks} b (true, next) rest).1.issues)
                  k)
              ∙ h in
            let (later, fine, infos) = infos_kept ns next went in
            let (before, new, here, found) = info_kept n c later in
            (
              before,
              λ x m e. elim (Bool-cases (text_eq n.id x)) [
                | inl l ↦
                    let same : n ≡ m = ground (arith, e, l) in
                    subst (λ (m : NodeSpec). is_nil (capability_issues m (resolver m.op)) ≡ true)
                      same here
                | inr l ↦ fine x m (ground (arith, e, l))
              ],
              λ x.
                  ap
                    (λ b.
                      find_info x
                        (if◌then◌else◌ {A = Bool × NodeChecks} b (true, next) rest).1.infos)
                    k
                  ∙ infos x
                  ∙ ap (λ o. first_info o (info_of resolver (find_in x ns))) (found x)
                  ∙ joined resolver (find_info x c.infos) (text_eq n.id x) n (find_in x ns),
            )
      ]

  edge_issues_nil :
      (infos : List NodeInfo) (e : EdgeSpec) (c : EdgeChecks)
      → is_nil (check_edge_spec infos e c).issues ≡ true
      → (is_nil c.issues ≡ true) × (is_nil (edge_issues infos c.edge_ids e) ≡ true)
  unfolding check_edge_spec
  edge_issues_nil infos e c h =
      let split = is_nil-append c.issues (edge_issues infos c.edge_ids e) in
      (ground (arith, h, split), ground (arith, h, split))

  from_head :
      (infos : List NodeInfo) (e : EdgeSpec) (es : List EdgeSpec) (c : EdgeChecks)
      → is_nil (edge_issues infos c.edge_ids e) ≡ true
      → ((i : ℕ) (f : EdgeSpec)
          → get_elem? es i ≡ some f
          → (seen : List Text) × (is_nil (edge_issues infos seen f) ≡ true))
      → (i : ℕ) (f : EdgeSpec) → get_elem? (e ∷ es) i ≡ some f
      → (seen : List Text) × (is_nil (edge_issues infos seen f) ≡ true)
  from_head infos e es c h later zero f p =
      let same : e ≡ f = ground (arith, p) in
      (c.edge_ids, ap (λ x. is_nil (edge_issues infos c.edge_ids x)) (sym same) ∙ h)
  from_head infos e es c h later (suc i) f p = later i f p

  pub edges_kept :
      (infos : List NodeInfo) (es : List EdgeSpec) (c : EdgeChecks)
      → is_nil (check_edge_specs infos fail_fast es c).1.issues ≡ true
      → (is_nil c.issues ≡ true)
        × ((i : ℕ) (e : EdgeSpec)
            → get_elem? es i ≡ some e
            → (seen : List Text) × (is_nil (edge_issues infos seen e) ≡ true))
  unfolding check_edge_specs
  edges_kept infos [] c h = (h, λ i e p. absurd (cc))
  edges_kept infos (e ∷ es) c h =
      let next : EdgeChecks = check_edge_spec infos e c in
      let rest : Bool × EdgeChecks = check_edge_specs infos fail_fast es next in
      elim (Bool-cases (fail_fast && not (is_nil next.issues))) [
        | inl k ↦
            let stopped : is_nil next.issues ≡ true =
              sym (
                ap
                  (λ b. is_nil (if◌then◌else◌ {A = Bool × EdgeChecks} b (true, next) rest).1.issues)
                  k)
              ∙ h in
            absurd (ground (arith, stopped, k))
        | inr k ↦
            let went : is_nil rest.1.issues ≡ true =
              sym (
                ap
                  (λ b. is_nil (if◌then◌else◌ {A = Bool × EdgeChecks} b (true, next) rest).1.issues)
                  k)
              ∙ h in
            let (later, fine) = edges_kept infos es next went in
            let both = edge_issues_nil infos e c later in
            (both.0, from_head infos e es c both.1 fine)
      ]
