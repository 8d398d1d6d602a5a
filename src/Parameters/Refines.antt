-- ===== src/Parameters/Refines.antt =====
-- The store of src/node_runtime.cpp implements the log of Parameters/Log.
use ge.Prelude.{
  ℕ, zero, suc, ◌+◌, ◌-◌, ◌≤◌, ◌≡◌, refl, sym, ap, ap₂, ◌∙◌, subst, true, Option, none, some, List,
  [], ◌∷◌, ◌++◌, length, drop, length-append, length-drop, ltb, arith, Bool-cases, inl, inr,
}
use ge.Operation.{Detail, object, other_value, put_members}
use ge.Parameters.{
  Members, ParameterSnapshot, ParameterStore, ParameterAuditRecord, Submitted, accepted, all_hot,
  submit, submit_locked, next_snapshot, promote, promote_queued, trim_history, audit, make_current,
  switch_at_packet_boundary, new_store,
}
use ge.Parameters.Log.{
  Call, submits, switches, submitted, switched, step, run, Log, new_log, version_after, apply_first,
  log_step, log_run,
}

abbrev pub AllHot : List ℕ → List Members → Type 0
AllHot hot [] = Unit {0}
AllHot hot (w ∷ ws) = (all_hot hot w ≡ true) × AllHot hot ws

AllHot-append :
    (hot : List ℕ) (ws : List Members) (w : Members)
    → AllHot hot ws
    → all_hot hot w ≡ true
    → AllHot hot (ws ++ w ∷ [])
AllHot-append hot [] w h e = (e, tt)
AllHot-append hot (x ∷ ws) w h e = (h.0, AllHot-append hot ws w h.1 e)

abbrev first_pending : ParameterSnapshot → List Members → Option ParameterSnapshot
first_pending base [] = none
first_pending base (w ∷ ws) = some (next_snapshot base w)

abbrev behind : List Members → List Members
behind [] = []
behind (w ∷ ws) = ws

-- The last records, as many as the capacity.
abbrev pub last_records : ℕ → List ParameterAuditRecord → List ParameterAuditRecord
last_records capacity rs = drop (length rs - capacity) rs

-- The store of a log. The keys of the last submission and the sequence number of the last switch are
-- no part of the log.
abbrev store_of : List ℕ → ℕ → ℕ → Log → ParameterStore
store_of hot capacity seq g =
    let current : ParameterSnapshot = record {
      version = version_after g.applied;
      values = g.values;
      effective_after_seq = seq;
    } in
    record {
      current = current;
      pending = first_pending current g.waiting;
      queued = behind g.waiting;
      history = last_records capacity g.records;
      history_capacity = capacity;
      last_hot_updatable = hot;
    }

trim-drop :
    (capacity : ℕ) (rs : List ParameterAuditRecord)
    → trim_history capacity rs ≡ last_records capacity rs
unfolding trim_history
trim-drop capacity [] = ground arith
trim-drop capacity (r ∷ rs) = elim (Bool-cases (ltb capacity (length (r ∷ rs)))) [
  | inl long ↦
      let e : length (r ∷ rs) - capacity ≡ suc (length rs - capacity) = ground arith in
      rw (long, e) (trim-drop capacity rs)
  | inr short ↦ let e : length (r ∷ rs) - capacity ≡ 0 = ground arith in rw (short, e) refl
]

drop-append :
    (k : ℕ) (rs : List ParameterAuditRecord) (r : ParameterAuditRecord)
    → k ≤ length rs
    → drop k rs ++ r ∷ [] ≡ drop k (rs ++ r ∷ [])
drop-append zero rs r h = refl
drop-append (suc k) [] r h = absurd (ground arith)
drop-append (suc k) (x ∷ rs) r h = drop-append k rs r (ground arith)

suc_add : (k j : ℕ) → suc (k + j) ≡ suc k + j
suc_add k j = omega arith

drop_nil : (n : ℕ) → ◌≡◌ {A = List ParameterAuditRecord} (drop n []) []
drop_nil zero = refl
drop_nil (suc n) = refl

drop-drop : (j k : ℕ) (rs : List ParameterAuditRecord) → drop j (drop k rs) ≡ drop (k + j) rs
drop-drop j zero rs = ap (λ n. drop n rs) (omega arith)
drop-drop j (suc k) [] = drop_nil j ∙ sym (drop_nil (suc k + j))
drop-drop j (suc k) (x ∷ rs) = drop-drop j k rs ∙ ap (λ n. drop n (x ∷ rs)) (suc_add k j)

-- One more switch: the last records of all are those of the last ones and the new one.
history_step :
    (capacity : ℕ) (rs : List ParameterAuditRecord) (r : ParameterAuditRecord)
    → trim_history capacity (last_records capacity rs ++ r ∷ [])
      ≡ last_records capacity (rs ++ r ∷ [])
history_step capacity rs r =
    let k : ℕ = length rs - capacity in
    let e : length (drop k rs ++ r ∷ []) ≡ (length rs - k) + 1 =
      omega (arith, length-append (drop k rs) (r ∷ []), length-drop k rs) in
    let all : length (rs ++ r ∷ []) ≡ length rs + 1 = omega (arith, length-append rs (r ∷ [])) in
    trim-drop capacity (drop k rs ++ r ∷ [])
    ∙ ap (λ n. drop (n - capacity) (drop k rs ++ r ∷ [])) e
    ∙ ap (drop (((length rs - k) + 1) - capacity)) (drop-append k rs r (omega arith))
    ∙ drop-drop (((length rs - k) + 1) - capacity) k (rs ++ r ∷ [])
    ∙ ap (λ n. drop n (rs ++ r ∷ [])) (omega (arith, all))

-- An accepted submission, to the store of a log, does what it does to the log.
accept_step :
    (r : Members) (hot keys : List ℕ) (capacity seq : ℕ) (g : Log) (w : List Members)
    → submit_locked r (record (store_of keys capacity seq (record g { waiting = w })) {
      last_hot_updatable = hot;
    })
      ≡ (
        accepted (version_after (g.applied + length w + 1)),
        store_of hot capacity seq (record g { waiting = w ++ r ∷ [] }),
      )
unfolding submit_locked next_snapshot
accept_step r hot keys capacity seq g [] =
    ap (λ v. (accepted v, store_of hot capacity seq (record g { waiting = r ∷ [] }))) (omega arith)
accept_step r hot keys capacity seq g (w ∷ ws) =
    ap (λ v. (accepted v, store_of hot capacity seq (record g { waiting = w ∷ ws ++ r ∷ [] })))
      (omega (arith, length-append ws (r ∷ [])))

-- So does a switch, if the keys of the queued requests may be changed.
promote_hot :
    (hot : List ℕ) (base : ParameterSnapshot) (ws : List Members)
    → AllHot hot ws
    → promote hot base ws ≡ (first_pending base ws, behind ws)
unfolding promote
promote_hot hot base [] h = refl
promote_hot hot base (w ∷ ws) h = rw h.0 refl

abbrev switch_result :
    List ℕ
    → ℕ
    → ℕ
    → Members
    → ℕ
    → Option ParameterSnapshot × List Members
    → List ParameterAuditRecord
    → Option ℕ × ParameterStore
switch_result keys capacity at values v pq history = (
  some v,
  record {
    current = record { version = v; values = values; effective_after_seq = at };
    pending = pq.0;
    queued = pq.1;
    history = history;
    history_capacity = capacity;
    last_hot_updatable = keys;
  },
)

switch_step :
    (keys : List ℕ) (capacity seq at : ℕ) (g : Log) (w : Members) (ws : List Members)
    → AllHot keys ws
    → switch_at_packet_boundary at (store_of keys capacity seq (record g { waiting = w ∷ ws })) ≡ (
      some (version_after (g.applied + 1)),
      store_of keys capacity at (apply_first at (w ∷ ws) g).1,
    )
unfolding switch_at_packet_boundary make_current promote_queued next_snapshot audit
switch_step keys capacity seq at g w ws h =
    let values : Members = put_members w g.values in
    let current : ℕ → ParameterSnapshot =
      λ v. record { version = v; values = values; effective_after_seq = at } in
    let new : ℕ → ParameterAuditRecord =
      λ v. record { version = v; effective_after_seq = at; values = values } in
    let n : ℕ = version_after (g.applied + 1) in
    ap
      (λ v.
        switch_result keys capacity at values v (promote keys (current v) ws)
          (trim_history capacity (last_records capacity g.records ++ new v ∷ [])))
      (omega arith)
    ∙ ap
        (λ pq.
          switch_result keys capacity at values n pq
            (trim_history capacity (last_records capacity g.records ++ new n ∷ [])))
        (promote_hot keys (current n) ws h)
    ∙ ap (switch_result keys capacity at values n (first_pending (current n) ws, behind ws))
        (history_step capacity g.records (new n))

-- The store is that of the log, for some keys of the last submission, which are those of every
-- submission once a request waits, and for some sequence number.
abbrev SameKeys : List ℕ → List ℕ → List Members → Type 0
SameKeys hot keys [] = Unit {0}
SameKeys hot keys (w ∷ ws) = keys ≡ hot

record Represents (hot : List ℕ) (capacity : ℕ) (g : Log) (p : ParameterStore) : Type 0 where
  pub keys : List ℕ
  pub seq : ℕ
  pub same : p ≡ store_of keys capacity seq g
  pub fits : SameKeys hot keys g.waiting
  pub waiting_hot : AllHot hot g.waiting

-- The same reply, and the same log afterwards.
abbrev SameStep : List ℕ → ℕ → Call → Log → ParameterStore → Type 0
SameStep hot capacity c g p =
    ((step hot c p).0 ≡ (log_step hot c g).0)
    × Represents hot capacity (log_step hot c g).1 (step hot c p).1

SameKeys-append : (hot : List ℕ) (ws : List Members) (r : Members) → SameKeys hot hot (ws ++ r ∷ [])
SameKeys-append hot [] r = refl
SameKeys-append hot (w ∷ ws) r = refl

submit_cases :
    (r : Members) (hot keys : List ℕ) (capacity seq : ℕ) (g : Log)
    → SameKeys hot keys g.waiting
    → AllHot hot g.waiting
    → SameStep hot capacity (submits (object r)) g (store_of keys capacity seq g)
unfolding submit
submit_cases r hot keys capacity seq g f h = elim (Bool-cases (all_hot hot r)) [
  | inr cold ↦
      rw cold (refl, record { keys = keys; seq = seq; same = refl; fits = f; waiting_hot = h })
  | inl warm ↦
      let e = accept_step r hot keys capacity seq g g.waiting in
      rw warm (
        ap (λ (x : Submitted × ParameterStore). submitted x.0) e,
        record {
          keys = hot;
          seq = seq;
          same = ap (λ (x : Submitted × ParameterStore). x.1) e;
          fits = SameKeys-append hot g.waiting r;
          waiting_hot = AllHot-append hot g.waiting r h warm;
        },
      )
]

SameKeys-tail : (hot : List ℕ) (ws : List Members) → SameKeys hot hot ws
SameKeys-tail hot [] = tt
SameKeys-tail hot (w ∷ ws) = refl

switch_cases :
    (at : ℕ) (hot keys : List ℕ) (capacity seq : ℕ) (g : Log) (w : List Members)
    → SameKeys hot keys w
    → AllHot hot w
    → SameStep hot capacity
        (switches at)
        (record g { waiting = w })
        (store_of keys capacity seq (record g { waiting = w }))
unfolding switch_at_packet_boundary
switch_cases at hot keys capacity seq g [] f h =
    (refl, record { keys = keys; seq = seq; same = refl; fits = tt; waiting_hot = tt })
switch_cases at hot keys capacity seq g (w ∷ ws) f h =
    let e = switch_step hot capacity seq at g w ws h.1 in
    rw f (
      ap (λ (x : Option ℕ × ParameterStore). switched x.0) e,
      record {
        keys = hot;
        seq = at;
        same = ap (λ (x : Option ℕ × ParameterStore). x.1) e;
        fits = SameKeys-tail hot ws;
        waiting_hot = h.1;
      },
    )

step_same :
    (hot : List ℕ) (capacity : ℕ) (c : Call) (g : Log) (p : ParameterStore)
    → Represents hot capacity g p
    → SameStep hot capacity c g p
unfolding submit
step_same hot capacity (submits other_value) g p v = (refl, v)
step_same hot capacity (submits (object r)) g p v =
    subst (SameStep hot capacity (submits (object r)) g) (sym v.same)
      (submit_cases r hot v.keys capacity v.seq g v.fits v.waiting_hot)
step_same hot capacity (switches at) g p v =
    subst (SameStep hot capacity (switches at) g) (sym v.same)
      (switch_cases at hot v.keys capacity v.seq g g.waiting v.fits v.waiting_hot)

run_same :
    (hot : List ℕ) (capacity : ℕ) (cs : List Call) (g : Log) (p : ParameterStore)
    → Represents hot capacity g p
    → ((run hot cs p).0 ≡ (log_run hot cs g).0)
      × Represents hot capacity (log_run hot cs g).1 (run hot cs p).1
unfolding run log_run
run_same hot capacity [] g p v = (refl, v)
run_same hot capacity (c ∷ cs) g p v =
    let s = step_same hot capacity c g p v in
    let rest = run_same hot capacity cs (log_step hot c g).1 (step hot c p).1 s.1 in
    (ap₂ ◌∷◌ s.0 rest.0, rest.1)

-- For every sequence of submissions, all with the same list of keys that may be changed, and of
-- switches, from a new store: the replies are those of the log of accepted requests, that is, request
-- number `n` is promised version `n + 1`, in 64 bits, and the switches make the requests effective one
-- at a time in that order under those versions; the current version and values are those after the
-- requests that took effect, and the history is the last records of all switches, as many as the
-- capacity.
pub run_refines_log :
    (hot : List ℕ) (initial : Detail) (capacity : ℕ) (cs : List Call)
    → ((run hot cs (new_store initial capacity)).0 ≡ (log_run hot cs (new_log initial)).0)
      × ((run hot cs (new_store initial capacity)).1.current.version
          ≡ version_after (log_run hot cs (new_log initial)).1.applied)
      × ((run hot cs (new_store initial capacity)).1.current.values
          ≡ (log_run hot cs (new_log initial)).1.values)
      × ((run hot cs (new_store initial capacity)).1.history
          ≡ last_records capacity (log_run hot cs (new_log initial)).1.records)
unfolding new_store
run_refines_log hot initial capacity cs =
    let empty : new_store initial capacity ≡ store_of [] capacity 0 (new_log initial) =
      ap (λ rs. record (new_store initial capacity) { history = rs })
        (sym (drop_nil (0 - capacity))) in
    let r =
      run_same hot capacity cs (new_log initial) (new_store initial capacity)
        (record { keys = []; seq = 0; same = empty; fits = tt; waiting_hot = tt }) in
    (
      r.0,
      ap (λ (p : ParameterStore). p.current.version) r.1.same,
      ap (λ (p : ParameterStore). p.current.values) r.1.same,
      ap (λ (p : ParameterStore). p.history) r.1.same,
    )
