-- ===== src/Applier/Index.antt =====
-- The failed action that Apply of src/mutation_applier.cpp names.
use ge.Prelude.{
  ℕ, zero, suc, ◌+◌, ◌≡◌, ◌↔◌, ◌⊎◌, refl, sym, ap, ap₂, ◌≢◌, ◌∙◌, subst, true, some, List, [], ◌∷◌,
  arith, Bool-cases, inl, inr, if◌then◌else◌, get_elem?, take,
}
use ge.Graph.{GraphSpec, RemovePolicy, Status}
use ge.Graph.Patch.{MutationAction, MutationPatch}
use ge.Applier.{
  Result, ok, err, ◌>>=◌, CandidateSpec, CapabilityResolver, apply_one, Applied, applied,
  no_actions, failed, apply_from, apply_patch, start, is_nil,
}

-- The actions one after the other, up to the first error.
unfoldable pub apply_all :
    CapabilityResolver → RemovePolicy → List MutationAction → CandidateSpec → Result CandidateSpec
apply_all resolver policy [] out = ok out
apply_all resolver policy (a ∷ rest) out =
    apply_one resolver policy a out >>= apply_all resolver policy rest

abbrev action_at : Applied → MutationAction → MutationAction
action_at (failed i a s) d = a
action_at (applied c) d = d
action_at no_actions d = d

abbrev status_at : Applied → Status → Status
status_at (failed i a s) d = s
status_at (applied c) d = d
status_at no_actions d = d

abbrev index_at : Applied → ℕ
index_at (failed i a s) = i
index_at (applied c) = 0
index_at no_actions = 0

first_step :
    (r : Result CandidateSpec) (f : CandidateSpec → Result CandidateSpec) (mid : CandidateSpec)
    → (r >>= f) ≡ ok mid
    → (next : CandidateSpec) × (r ≡ ok next) × (f next ≡ ok mid)
first_step (ok next) f mid e = (next, refl, e)
first_step (err s) f mid e = absurd (cc)

held : (out mid : CandidateSpec) → ok out ≡ ok mid → out ≡ mid
held out mid e = ap (λ (r : Result CandidateSpec). elim r [ ok c ↦ c | err s ↦ out ]) e

none_at :
    (actions : List MutationAction) (k : ℕ) (a : MutationAction)
    → is_nil actions ≡ true
    → get_elem? actions k ≢ some a
none_at [] k a h e = absurd (cc)
none_at (b ∷ rest) k a h e = absurd (cc)

module _ (resolver : CapabilityResolver) (policy : RemovePolicy) where
  abbrev pub FailsAt : List MutationAction → CandidateSpec → ℕ → MutationAction → Status → Type 0
  FailsAt actions out k a s =
      (mid : CandidateSpec) × (get_elem? actions k ≡ some a)
      × (apply_all resolver policy (take k actions) out ≡ ok mid)
      × (apply_one resolver policy a mid ≡ err s)

  after_one :
      (r : Result CandidateSpec) (index k : ℕ) (b a : MutationAction) (s : Status)
      (rest : List MutationAction)
      → ◌≡◌ {A = Applied}
          (elim r [
            | ok next ↦ apply_from resolver policy (index + 1) rest next
            | err t ↦ failed index b t
          ])
          (failed k a s)
      → ((next : CandidateSpec) × (r ≡ ok next)
          × (apply_from resolver policy (index + 1) rest next ≡ failed k a s))
        ⊎ ((r ≡ err s) × (index ≡ k) × (b ≡ a))
  after_one (ok next) index k b a s rest e = inl (next, refl, e)
  after_one (err t) index k b a s rest e =
      inr (ap (λ x. err (status_at x t)) e, ap index_at e, ap (λ x. action_at x b) e)

  fails_at :
      (index k : ℕ) (actions : List MutationAction) (out : CandidateSpec) (a : MutationAction)
      (s : Status)
      → apply_from resolver policy index actions out ≡ failed k a s
      → (n : ℕ) × (k ≡ index + n) × FailsAt actions out n a s
  unfolding apply_from apply_all
  fails_at index k [] out a s e = absurd (cc)
  fails_at index k (b ∷ rest) out a s e =
      elim (after_one (apply_one resolver policy b out) index k b a s rest e) [
        | inl (next, p, q) ↦
            let (n, i, r) = fails_at (index + 1) k rest next a s q in
            (
              suc n,
              omega (arith, i),
              (r.0, r.1, ap (λ x. x >>= apply_all resolver policy (take n rest)) p ∙ r.2, r.3),
            )
        | inr (p, i, q) ↦ (
          0,
          omega (arith, i),
          (out, ap some q, refl, ap (λ x. apply_one resolver policy x out) (sym q) ∙ p),
        )
      ]

  fails_from :
      (index n : ℕ) (actions : List MutationAction) (out : CandidateSpec) (a : MutationAction)
      (s : Status)
      → FailsAt actions out n a s
      → apply_from resolver policy index actions out ≡ failed (index + n) a s
  unfolding apply_from apply_all
  fails_from index n [] out a s (mid, p, q, r) = absurd (cc)
  fails_from index zero (b ∷ rest) out a s (mid, p, q, r) =
      let same : b ≡ a = ground (arith, p) in
      let here : apply_one resolver policy b out ≡ err s =
        ap (λ x. apply_one resolver policy x out) same
        ∙ ap (apply_one resolver policy a) (held out mid q)
        ∙ r in
      ap
        (λ (x : Result CandidateSpec). elim x [
          | ok next ↦ apply_from resolver policy (index + 1) rest next
          | err t ↦ failed index b t
        ])
        here
      ∙ ap₂ (λ i x. failed i x s) (omega arith) same
  fails_from index (suc n) (b ∷ rest) out a s (mid, p, q, r) =
      let (next, here, later) =
        first_step (apply_one resolver policy b out) (apply_all resolver policy (take n rest)) mid
          q in
      ap
        (λ (x : Result CandidateSpec). elim x [
          | ok next ↦ apply_from resolver policy (index + 1) rest next
          | err t ↦ failed index b t
        ])
        here
      ∙ fails_from (index + 1) n rest next a s (mid, p, later, r)
      ∙ ap (λ i. failed i a s) (omega arith)

-- A patch fails with a place, an action and a status exactly when the action stands at that place of the
-- patch, the actions before it apply one after the other to the base, and the action refuses what they
-- give with that status.
pub apply_patch_fails :
    (resolver : CapabilityResolver) (base : GraphSpec) (patch : MutationPatch) (k : ℕ)
    (a : MutationAction) (s : Status)
    → (apply_patch resolver base patch ≡ failed k a s)
      ↔ FailsAt resolver patch.remove_policy patch.actions (start base) k a s
unfolding apply_patch
apply_patch_fails resolver base patch k a s = (
  λ e. elim (Bool-cases (is_nil patch.actions)) [
    | inl h ↦ absurd (ground (arith, e, h))
    | inr h ↦
        let (n, i, f) = fails_at resolver patch.remove_policy 0 k patch.actions (start base) a s (
          sym (
            ap
              (λ b.
                if b
                then no_actions
                else apply_from resolver patch.remove_policy 0 patch.actions (start base))
              h)
          ∙ e) in
        let same : n ≡ k = omega (arith, i) in
        subst (λ j. FailsAt resolver patch.remove_policy patch.actions (start base) j a s) same f
  ],
  λ f. elim (Bool-cases (is_nil patch.actions)) [
    | inl h ↦ absurd (none_at patch.actions k a h f.1)
    | inr h ↦
        ap
          (λ b.
            if b
            then no_actions
            else apply_from resolver patch.remove_policy 0 patch.actions (start base))
          h
        ∙ fails_from resolver patch.remove_policy 0 k patch.actions (start base) a s f
        ∙ ap (λ i. failed i a s) (omega arith)
  ],
)
