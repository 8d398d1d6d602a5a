-- ===== src/Applier/Reach.antt =====
-- The search of RemoveBranch in src/mutation_applier.cpp for the nodes that the entry edges reach.
use ge.Prelude.{
  ℕ, zero, suc, ◌+◌, ◌≤◌, ◌<◌, ◌≡◌, ◌↔◌, refl, sym, ap, ◌∙◌, subst, true, false, ◌&&◌, ◌||◌, some,
  List, [], ◌∷◌, arith, Bool-cases, inl, inr, if◌then◌else◌, get_elem?, length, Text, text_eq,
  text_eq→eq, text_eq_refl,
}
use ge.Graph.{EdgeSpec, is_found}
use ge.Graph.Lookup.{text_eq-sym}
use ge.Applier.Steps.{found_some}
use ge.Applier.{mem, push_ends, reach, reach_fuel}

-- The edges out of a node, and the edges out of nodes that are not reached yet.
unfoldable count_from : Text → List EdgeSpec → ℕ
count_from n [] = 0
count_from n (e ∷ es) = (if text_eq e.from.node_id n then 1 else 0) + count_from n es

unfoldable pending : List EdgeSpec → List Text → ℕ
pending [] reached = 0
pending (e ∷ es) reached = (if mem e.from.node_id reached then 0 else 1) + pending es reached

length-push_ends :
    (n : Text) (selection : List Text) (es : List EdgeSpec) (stack : List Text)
    → length (push_ends n selection es stack) ≤ length stack + count_from n es
unfolding push_ends count_from
length-push_ends n selection [] stack = omega arith
length-push_ends n selection (e ∷ es) stack = ground (
  arith,
  length-push_ends n selection es stack,
  length-push_ends n selection es (e.to.node_id ∷ stack),
)

pending-next :
    (n : Text) (es : List EdgeSpec) (reached : List Text)
    → mem n reached ≡ false
    → pending es (n ∷ reached) + count_from n es ≡ pending es reached
unfolding pending count_from mem
pending-next n [] reached h = refl
pending-next n (e ∷ es) reached h = elim (Bool-cases (text_eq e.from.node_id n)) [
  | inl k ↦
      let new : mem e.from.node_id reached ≡ false =
        ap (λ x. mem x reached) (text_eq→eq e.from.node_id n k) ∙ h in
      ground (arith, k, new, text_eq-sym n e.from.node_id, pending-next n es reached h)
  | inr k ↦ ground (arith, k, text_eq-sym n e.from.node_id, pending-next n es reached h)
]

pending-start : (es : List EdgeSpec) → pending es [] ≡ length es
unfolding pending mem
pending-start [] = refl
pending-start (e ∷ es) = ground (arith, pending-start es)

enough :
    (fuel : ℕ) (selection : List Text) (es : List EdgeSpec) (stack reached : List Text)
    → length stack + pending es reached < fuel
    → is_found (reach fuel selection es stack reached) ≡ true
unfolding reach
enough zero selection es stack reached h = absurd (ground arith)
enough (suc fuel) selection es [] reached h = refl
enough (suc fuel) selection es (n ∷ stack) reached h = elim (Bool-cases (mem n reached)) [
  | inl k ↦ rw k (enough fuel selection es stack reached (omega (arith, h)))
  | inr k ↦ rw k (
      enough fuel selection es (push_ends n selection es stack) (n ∷ reached)
        (omega (arith, h, length-push_ends n selection es stack, pending-next n es reached k)))
]

-- From the nodes of a list, along edges that end in the selection.
pub data Reaches (chosen : List Text) (es : List EdgeSpec) (from : List Text) : Text → Type 0 where
  enters : (n : Text) → mem n from ≡ true → Reaches chosen es from n
  follows :
      (i : ℕ) (e : EdgeSpec)
      → get_elem? es i ≡ some e
      → mem e.to.node_id chosen ≡ true
      → Reaches chosen es from e.from.node_id
      → Reaches chosen es from e.to.node_id

mem-push_ends :
    (n : Text) (selection : List Text) (es : List EdgeSpec) (stack : List Text) (j : Text)
    → mem j stack ≡ true
    → mem j (push_ends n selection es stack) ≡ true
unfolding push_ends mem
mem-push_ends n selection [] stack j h = h
mem-push_ends n selection (e ∷ es) stack j h = ground (
  arith,
  h,
  mem-push_ends n selection es stack j h,
  mem-push_ends n selection es (e.to.node_id ∷ stack) j (ground (arith, h)),
)

mem_head : (x : Text) (xs : List Text) → mem x (x ∷ xs) ≡ true
unfolding mem
mem_head x xs = ground (arith, text_eq_refl x)

mem_tail : (j x : Text) (xs : List Text) → mem j xs ≡ true → mem j (x ∷ xs) ≡ true
unfolding mem
mem_tail j x xs h = ground (arith, h)

cons_from :
    (P : Text → Type 0) (x : Text) (xs : List Text)
    → P x
    → ((j : Text) → mem j xs ≡ true → P j)
    → (j : Text) → mem j (x ∷ xs) ≡ true
    → P j
unfolding mem
cons_from P x xs p h j m = elim (Bool-cases (text_eq x j)) [
  | inl k ↦ subst P (text_eq→eq x j k) p
  | inr k ↦ h j (ground (arith, m, k))
]

-- The ends of the edges of the node that are in the selection are pushed.
pushed :
    (n : Text) (selection : List Text) (es : List EdgeSpec) (stack : List Text) (i : ℕ)
    (e : EdgeSpec)
    → get_elem? es i ≡ some e
    → (text_eq e.from.node_id n && mem e.to.node_id selection) ≡ true
    → mem e.to.node_id (push_ends n selection es stack) ≡ true
unfolding push_ends
pushed n selection [] stack i e h p = absurd (cc)
pushed n selection (f ∷ es) stack zero e h p =
    let same : f ≡ e = ground (arith, h) in
    let test : (text_eq f.from.node_id n && mem f.to.node_id selection) ≡ true =
      ap (λ (x : EdgeSpec). text_eq x.from.node_id n && mem x.to.node_id selection) same ∙ p in
    rw test (
      mem-push_ends n selection es (f.to.node_id ∷ stack) e.to.node_id (
        ap (λ (x : EdgeSpec). mem e.to.node_id (x.to.node_id ∷ stack)) same
        ∙ mem_head e.to.node_id stack))
pushed n selection (f ∷ es) stack (suc i) e h p =
    pushed n selection es
      (if text_eq f.from.node_id n && mem f.to.node_id selection
        then f.to.node_id ∷ stack
        else stack)
      i e h p

-- Every pushed node was on the stack, or ends an edge of the node in the selection.
push_ends_from :
    (P : Text → Type 0) (n : Text) (selection : List Text) (es : List EdgeSpec) (stack : List Text)
    → ((j : Text) → mem j stack ≡ true → P j)
    → ((i : ℕ) (e : EdgeSpec)
        → get_elem? es i ≡ some e
        → text_eq e.from.node_id n ≡ true
        → mem e.to.node_id selection ≡ true
        → P e.to.node_id)
    → (j : Text) → mem j (push_ends n selection es stack) ≡ true
    → P j
unfolding push_ends
push_ends_from P n selection [] stack h k j m = h j m
push_ends_from P n selection (e ∷ es) stack h k j m =
    elim (Bool-cases (text_eq e.from.node_id n && mem e.to.node_id selection)) [
      | inl t ↦
          push_ends_from P n selection es (e.to.node_id ∷ stack)
            (cons_from P e.to.node_id stack (k 0 e refl (ground (arith, t)) (ground (arith, t))) h)
            (λ i. k (suc i)) j
            (sym (
                ap
                  (λ b.
                    mem j (push_ends n selection es (if b then e.to.node_id ∷ stack else stack)))
                  t)
              ∙ m)
      | inr t ↦
          push_ends_from P n selection es stack h (λ i. k (suc i)) j
            (sym (
                ap
                  (λ b.
                    mem j (push_ends n selection es (if b then e.to.node_id ∷ stack else stack)))
                  t)
              ∙ m)
    ]

module _ (selection : List Text) (es : List EdgeSpec) where
  again_step :
      (fuel : ℕ) (n : Text) (stack reached : List Text)
      → mem n reached ≡ true
      → reach (suc fuel) selection es (n ∷ stack) reached ≡ reach fuel selection es stack reached
  unfolding reach
  again_step fuel n stack reached h = rw h refl

  new_step :
      (fuel : ℕ) (n : Text) (stack reached : List Text)
      → mem n reached ≡ false
      → reach (suc fuel) selection es (n ∷ stack) reached
        ≡ reach fuel selection es (push_ends n selection es stack) (n ∷ reached)
  unfolding reach
  new_step fuel n stack reached h = rw h refl

  -- What the search has reached is reachable, if what it starts from is.
  sound :
      (fuel : ℕ) (from stack reached result : List Text)
      → ((j : Text) → mem j stack ≡ true → Reaches selection es from j)
      → ((j : Text) → mem j reached ≡ true → Reaches selection es from j)
      → reach fuel selection es stack reached ≡ some result
      → (j : Text) → mem j result ≡ true
      → Reaches selection es from j
  unfolding reach
  sound zero from stack reached result h k e j m = absurd (cc)
  sound (suc fuel) from [] reached result h k e j m =
      let same : reached ≡ result = ground (arith, e) in k j (ap (mem j) same ∙ m)
  sound (suc fuel) from (n ∷ stack) reached result h k e j m =
      let here : Reaches selection es from n = h n (mem_head n stack) in
      let rest : (x : Text) → mem x stack ≡ true → Reaches selection es from x =
        λ x p. h x (mem_tail x n stack p) in
      elim (Bool-cases (mem n reached)) [
        | inl t ↦
            sound fuel from stack reached result rest k
              (sym (again_step fuel n stack reached t) ∙ e) j m
        | inr t ↦
            sound fuel from (push_ends n selection es stack) (n ∷ reached) result
              (push_ends_from (Reaches selection es from) n selection es stack rest (λ i f p q r.
                follows i f p r
                  (subst (Reaches selection es from) (sym (text_eq→eq f.from.node_id n q)) here)))
              (cons_from (Reaches selection es from) n reached here k)
              (sym (new_step fuel n stack reached t) ∙ e) j m
      ]

  abbrev Closed : List Text → List Text → Type 0
  Closed stack reached =
      (i : ℕ) (e : EdgeSpec)
      → get_elem? es i ≡ some e
      → (mem e.from.node_id reached && mem e.to.node_id selection) ≡ true
      → (mem e.to.node_id reached || mem e.to.node_id stack) ≡ true

  Closed-again :
      (n : Text) (stack reached : List Text)
      → mem n reached ≡ true
      → Closed (n ∷ stack) reached
      → Closed stack reached
  unfolding mem
  Closed-again n stack reached t h i e p q = elim (Bool-cases (text_eq n e.to.node_id)) [
    | inl k ↦
        let there : mem e.to.node_id reached ≡ true =
          ap (λ x. mem x reached) (sym (text_eq→eq n e.to.node_id k)) ∙ t in
        ground (arith, there)
    | inr k ↦ ground (arith, k, h i e p q)
  ]

  Closed-new :
      (n : Text) (stack reached : List Text)
      → Closed (n ∷ stack) reached
      → Closed (push_ends n selection es stack) (n ∷ reached)
  unfolding mem
  Closed-new n stack reached h i e p q = elim (Bool-cases (text_eq e.from.node_id n)) [
    | inl k ↦
        let there : mem e.to.node_id (push_ends n selection es stack) ≡ true =
          pushed n selection es stack i e p (ground (arith, q, k)) in
        ground (arith, there)
    | inr k ↦
        let old : (mem e.to.node_id reached || mem e.to.node_id (n ∷ stack)) ≡ true =
          h i e p (ground (arith, q, k, text_eq-sym n e.from.node_id)) in
        elim (Bool-cases (mem e.to.node_id stack)) [
          | inl l ↦ ground (arith, mem-push_ends n selection es stack e.to.node_id l)
          | inr l ↦ ground (arith, old, l)
        ]
  ]

  -- What is on the stack or reached, is reached in the end, and with a node the ends of its edges in
  -- the selection.
  reaches_all :
      (fuel : ℕ) (stack reached result : List Text)
      → Closed stack reached
      → reach fuel selection es stack reached ≡ some result
      → ((j : Text) → (mem j reached || mem j stack) ≡ true → mem j result ≡ true)
        × Closed [] result
  unfolding reach mem
  reaches_all zero stack reached result h e = absurd (cc)
  reaches_all (suc fuel) [] reached result h e =
      let same : reached ≡ result = ground (arith, e) in
      (λ j m. ap (mem j) (sym same) ∙ ground (arith, m), subst (Closed []) same h)
  reaches_all (suc fuel) (n ∷ stack) reached result h e = elim (Bool-cases (mem n reached)) [
    | inl t ↦
        let r =
          reaches_all fuel stack reached result (Closed-again n stack reached t h)
            (sym (again_step fuel n stack reached t) ∙ e) in
        (
          λ j m. elim (Bool-cases (text_eq n j)) [
            | inl k ↦
                let there : mem j reached ≡ true =
                  ap (λ x. mem x reached) (sym (text_eq→eq n j k)) ∙ t in
                r.0 j (ground (arith, there))
            | inr k ↦ r.0 j (ground (arith, m, k))
          ],
          r.1,
        )
    | inr t ↦
        let r =
          reaches_all fuel (push_ends n selection es stack) (n ∷ reached) result
            (Closed-new n stack reached h) (sym (new_step fuel n stack reached t) ∙ e) in
        (
          λ j m. elim (Bool-cases (mem j stack)) [
            | inl k ↦ r.0 j (ground (arith, mem-push_ends n selection es stack j k))
            | inr k ↦ r.0 j (ground (arith, m, k))
          ],
          r.1,
        )
  ]

  reached_all :
      (stack result : List Text)
      → ((j : Text) → mem j stack ≡ true → mem j result ≡ true)
      → Closed [] result
      → (j : Text) → Reaches selection es stack j
      → mem j result ≡ true
  unfolding mem
  reached_all stack result h c j (enters _ m) = h j m
  reached_all stack result h c j (follows i e p q r) =
      let from : mem e.from.node_id result ≡ true = reached_all stack result h c e.from.node_id r in
      ground (arith, c i e p (ground (arith, from, q)))

  -- The search of RemoveBranch, with one round for each node on its stack, one for each edge and one
  -- more, ends from any stack, and reaches exactly the nodes that are reached from the stack along
  -- edges that end in the selection.
  pub search :
      (stack : List Text)
      → (result : List Text) × (reach (reach_fuel es stack) selection es stack [] ≡ some result)
        × ((j : Text) → (mem j result ≡ true) ↔ Reaches selection es stack j)
  unfolding mem
  search stack =
      let (result, e) =
        found_some (reach (reach_fuel es stack) selection es stack [])
          (enough (reach_fuel es stack) selection es stack [] (omega (arith, pending-start es))) in
      let c =
        reaches_all (reach_fuel es stack) stack [] result (λ i e p q. absurd (ground (arith, q)))
          e in
      (
        result,
        e,
        λ j. (
          sound (reach_fuel es stack) stack stack [] result (λ x m. enters x m) (λ x m. absurd (cc))
              e j,
          reached_all stack result (λ x m. c.0 x (ground (arith, m))) c.1 j,
        ),
      )
