-- ===== src/Operation/Calls.antt =====
-- Sequences of calls on the registry of src/operation.cpp, and what one call can do.
use ge.Prelude.{
  ℕ, ◌≡◌, refl, sym, Bool, true, false, Option, some, List, [], ◌∷◌, inl, inr, Option-cases,
  Bool-cases, if_cases, incr64,
}
use ge.Prelude.Int.{ℤ}
use ge.Operation.{
  OperationState, OperationRecord, OperationRegistry, Detail, Ending, is_terminal, put,
  set_terminal_hook, emplace, new_record, create, run_record, set_running, set_topology_version,
  end_operation, finish, succeed, fail, cancel,
}

pub data Call : Type 0 where
  hooks : Bool → Call
  creates : ℕ → ℕ → ℕ → Detail → ℤ → Call
  runs : ℕ → Call
  versions : ℕ → ℕ → Call
  succeeds : ℕ → Option ℕ → Option ℕ → Detail → ℤ → Call
  fails : ℕ → ℕ × ℕ → Detail → ℤ → Call
  cancels : ℕ → ℕ → ℤ → Call

unfoldable pub step : Call → OperationRegistry → OperationRegistry
step (hooks hook) g = set_terminal_hook hook g
step (creates kind session caller detail now) g = (create kind session caller detail now g).1
step (runs i) g = set_running i g
step (versions i v) g = set_topology_version i v g
step (succeeds i tv pv detail now) g = succeed i tv pv detail now g
step (fails i status detail now) g = fail i status detail now g
step (cancels i reason now) g = cancel i reason now g

unfoldable pub run : List Call → OperationRegistry → OperationRegistry
run [] g = g
run (c ∷ cs) g = run cs (step c g)

-- What a terminal record says of its operation.
abbrev pub Verdict : Type 0
Verdict = OperationState × (ℕ × ℕ) × Option ℕ × Detail × ℤ

abbrev pub verdict : OperationRecord → Verdict
verdict r = (r.state, r.result, r.parameter_version, r.detail, r.finished_ns)

-- A record that is changed without being ended.
pub record Touches (r r' : OperationRecord) : Type 0 where
  pub same_id : r'.id ≡ r.id
  pub same_end : is_terminal r'.state ≡ is_terminal r.state
  pub same_verdict : is_terminal r.state ≡ true → verdict r' ≡ verdict r

-- A property of all that a call can make of a registry is one of what it makes.
module _ (P : OperationRegistry → Type 0) (g : OperationRegistry) (same : P g)
    (hooked : (hook : Bool) → P (record g { has_hook = hook }))
    (created : (r : OperationRecord)
      → is_terminal r.state ≡ false
      → r.id ≡ g.next_id
      → P (record g { next_id = incr64 g.next_id; records = emplace g.next_id r g.records }))
    (touched : (i : ℕ) (r r' : OperationRecord)
      → g.records i ≡ some r
      → Touches r r'
      → P (record g { records = put i (some r') g.records }))
    (ended : (i : ℕ) (e : Ending) (r : OperationRecord)
      → is_terminal e.state ≡ true
      → g.records i ≡ some r
      → is_terminal r.state ≡ false
      → P (end_operation i e r g)) where
  run_record-Touches : (r : OperationRecord) → Touches r (run_record r)
  unfolding run_record is_terminal
  run_record-Touches r = elim (Bool-cases (is_terminal r.state)) [
    | inl t ↦
        rw (t, run_record) (record { same_id = refl; same_end = refl; same_verdict = λ q. refl })
    | inr t ↦
        rw (t, run_record)
          (record { same_id = refl; same_end = sym t; same_verdict = λ q. absurd (cc) })
  ]

  finish_cases : (i : ℕ) (e : Ending) → is_terminal e.state ≡ true → P (finish i e g)
  unfolding finish
  finish_cases i e h = elim (Option-cases (g.records i)) [
    | inl n ↦ rw (n, finish) same
    | inr (r, q) ↦
        rw (q, finish)
          (if_cases P (is_terminal r.state) g (end_operation i e r g) (λ t. same)
            (λ t. ended i e r h q t))
  ]

  pub step_cases : (c : Call) → P (step c g)
  unfolding step set_terminal_hook create set_running set_topology_version new_record succeed fail
      cancel is_terminal
  step_cases (hooks hook) = hooked hook
  step_cases (creates kind session caller detail now) =
      created (new_record g.next_id kind session caller detail now) refl refl
  step_cases (runs i) = elim (Option-cases (g.records i)) [
    | inl n ↦ rw (n, step, set_running) same
    | inr (r, q) ↦ rw (q, step, set_running) (touched i r (run_record r) q (run_record-Touches r))
  ]
  step_cases (versions i v) = elim (Option-cases (g.records i)) [
    | inl n ↦ rw (n, step, set_topology_version) same
    | inr (r, q) ↦
        rw (q, step, set_topology_version)
          (touched i r (record r { topology_version = some v }) q
            (record { same_id = refl; same_end = refl; same_verdict = λ t. refl }))
  ]
  step_cases (succeeds i tv pv detail now) = finish_cases i _ refl
  step_cases (fails i status detail now) = finish_cases i _ refl
  step_cases (cancels i reason now) = finish_cases i _ refl
