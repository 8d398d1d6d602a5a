-- ===== src/Parameters/Versions.antt =====
-- The versions of src/node_runtime.cpp under all calls, rejections and changing key lists included.
use ge.Prelude.{
  ℕ, zero, suc, subst, ◌≤◌, ◌≡◌, refl, ap₂, true, false, Option, none, some, List, [], ◌∷◌, ◌++◌,
  if◌then◌else◌, length, incr64, arith, Bool-cases, inl, inr,
}
use ge.Operation.{Detail, object, other_value}
use ge.Parameters.{
  Members, ParameterSnapshot, ParameterStore, ParameterAuditRecord, all_hot, submit, submit_locked,
  next_snapshot, promote, promote_queued, trim_history, audit, make_current,
  switch_at_packet_boundary, reject_pending, new_store,
}

pub data Call : Type 0 where
  submits : Detail → List ℕ → Call
  switches : ℕ → Call
  rejects : Call

-- The version that a call makes effective, and the store after it.
abbrev pub step : Call → ParameterStore → Option ℕ × ParameterStore
step (submits d hot) p = (none, (submit d hot p).1)
step (switches seq) p = switch_at_packet_boundary seq p
step rejects p = (none, reject_pending p)

abbrev pub add_some : Option ℕ → List ℕ → List ℕ
add_some none vs = vs
add_some (some v) vs = v ∷ vs

-- The versions that a run makes effective, in their order.
unfoldable pub run_versions : List Call → ParameterStore → List ℕ
run_versions [] p = []
run_versions (c ∷ cs) p = let rest = run_versions cs (step c p).1 in add_some (step c p).0 rest

unfoldable pub run_store : List Call → ParameterStore → ParameterStore
run_store [] p = p
run_store (c ∷ cs) p = run_store cs (step c p).1

-- The next versions after one.
unfoldable pub count_from : ℕ → ℕ → List ℕ
count_from v zero = []
count_from v (suc n) = incr64 v ∷ count_from (incr64 v) n

unfoldable pub count_last : ℕ → ℕ → ℕ
count_last v zero = v
count_last v (suc n) = count_last (incr64 v) n

-- A pending snapshot has the next version, and without one nothing is queued.
abbrev pub Follows : Option ParameterSnapshot → ParameterSnapshot → List Members → Type 0
Follows none base queued = queued ≡ []
Follows (some s) base queued = s.version ≡ incr64 base.version

pub record IsValid (p : ParameterStore) : Type 0 where
  pub follows : Follows p.pending p.current p.queued
  pub short : length p.history ≤ p.history_capacity

promote-Follows :
    (hot : List ℕ) (base : ParameterSnapshot) (queued : List Members)
    → Follows (promote hot base queued).0 base (promote hot base queued).1
unfolding promote next_snapshot
promote-Follows hot base [] = refl
promote-Follows hot base (r ∷ rest) =
    elim (all_hot hot r)
      as (λ b.
        let x : Option ParameterSnapshot × List Members =
          if b then (some (next_snapshot base r), rest) else promote hot base rest in
        Follows x.0 base x.1) [ true ↦ refl | false ↦ promote-Follows hot base rest ]

length-trim_history :
    (capacity : ℕ) (rs : List ParameterAuditRecord) → length (trim_history capacity rs) ≤ capacity
unfolding trim_history
length-trim_history capacity [] = omega arith
length-trim_history capacity (r ∷ rs) = ground (arith, length-trim_history capacity rs)

-- A call leaves the version as it is, or makes the next one effective.
abbrev Counts : Option ℕ → ℕ → ℕ → Type 0
Counts none old new = new ≡ old
Counts (some v) old new = (v ≡ incr64 old) × (new ≡ incr64 old)

abbrev Stepped : ParameterStore → Option ℕ → ParameterStore → Type 0
Stepped p o q = Counts o p.current.version q.current.version × IsValid q

submit_locked-Stepped :
    (r : Members) (p : ParameterStore) (o : Option ParameterSnapshot)
    → p.pending ≡ o
    → IsValid p
    → Stepped p none (submit_locked r p).1
unfolding submit_locked next_snapshot
submit_locked-Stepped r p none e v = rw e (refl, record { follows = refl; short = v.short })
submit_locked-Stepped r p (some s) e v = rw e (
  refl,
  record { follows = subst (λ o. Follows o p.current p.queued) e v.follows; short = v.short },
)

submit-Stepped :
    (d : Detail) (hot : List ℕ) (p : ParameterStore) → IsValid p → Stepped p none (submit d hot p).1
unfolding submit
submit-Stepped other_value hot p v = (refl, v)
submit-Stepped (object r) hot p v = elim (Bool-cases (all_hot hot r)) [
  | inl warm ↦ rw warm (
      submit_locked-Stepped r (record p { last_hot_updatable = hot }) p.pending refl
        (record { follows = v.follows; short = v.short }))
  | inr cold ↦ rw cold (refl, v)
]

reject_pending-Stepped : (p : ParameterStore) → IsValid p → Stepped p none (reject_pending p)
unfolding reject_pending promote_queued
reject_pending-Stepped p v = (
  refl,
  record { follows = promote-Follows p.last_hot_updatable p.current p.queued; short = v.short },
)

switch-Stepped :
    (seq : ℕ) (p : ParameterStore) (o : Option ParameterSnapshot)
    → p.pending ≡ o
    → IsValid p
    → Stepped p (switch_at_packet_boundary seq p).0 (switch_at_packet_boundary seq p).1
unfolding switch_at_packet_boundary make_current promote_queued
switch-Stepped seq p none e v = rw e (
  refl,
  record { follows = subst (λ o. Follows o p.current p.queued) e v.follows; short = v.short },
)
switch-Stepped seq p (some s) e v =
    let next : s.version ≡ incr64 p.current.version =
      subst (λ o. Follows o p.current p.queued) e v.follows in
    rw e (
      (next, next),
      record {
        follows =
            promote-Follows p.last_hot_updatable (record s { effective_after_seq = seq }) p.queued;
        short = length-trim_history p.history_capacity (p.history ++ audit s seq ∷ []);
      },
    )

step-Stepped : (c : Call) (p : ParameterStore) → IsValid p → Stepped p (step c p).0 (step c p).1
step-Stepped (submits d hot) p v = submit-Stepped d hot p v
step-Stepped (switches seq) p v = switch-Stepped seq p p.pending refl v
step-Stepped rejects p v = reject_pending-Stepped p v

abbrev Counted : ℕ → List ℕ → ℕ → Type 0
Counted old vs new = (vs ≡ count_from old (length vs)) × (count_last old (length vs) ≡ new)

more :
    (o : Option ℕ) (old middle new : ℕ) (vs : List ℕ)
    → Counts o old middle
    → Counted middle vs new
    → Counted old (add_some o vs) new
unfolding count_from count_last
more none old middle new vs c h = subst (λ m. Counted m vs new) c h
more (some v) old middle new vs c h =
    let k : Counted (incr64 old) vs new = subst (λ m. Counted m vs new) c.1 h in
    (ap₂ ◌∷◌ c.0 k.0, k.1)

run_counted :
    (cs : List Call) (p : ParameterStore)
    → IsValid p
    → Counted p.current.version (run_versions cs p) (run_store cs p).current.version
      × IsValid (run_store cs p)
unfolding run_versions run_store count_from count_last
run_counted [] p v = ((refl, refl), v)
run_counted (c ∷ cs) p v =
    let s = step-Stepped c p v in
    let rest = run_counted cs (step c p).1 s.1 in
    (
      more (step c p).0 p.current.version (step c p).1.current.version
          (run_store cs (step c p).1).current.version (run_versions cs (step c p).1) s.0 rest.0,
      rest.1,
    )

-- Over any calls from a new store, rejections of the pending request and submissions with any lists of
-- keys included: the versions that the switches make effective are 2, 3, 4 and so on in 64 bits, with
-- no gap, the current version is the last of them, a pending request has the version after the
-- current one, nothing is queued without a pending request, and the history keeps to its capacity.
pub run_counts :
    (initial : Detail) (capacity : ℕ) (cs : List Call)
    → (run_versions cs (new_store initial capacity)
        ≡ count_from 1 (length (run_versions cs (new_store initial capacity))))
      × (count_last 1 (length (run_versions cs (new_store initial capacity)))
          ≡ (run_store cs (new_store initial capacity)).current.version)
      × IsValid (run_store cs (new_store initial capacity))
unfolding new_store
run_counts initial capacity cs =
    let r =
      run_counted cs (new_store initial capacity)
        (record { follows = refl; short = omega arith }) in
    (r.0.0, r.0.1, r.1)
