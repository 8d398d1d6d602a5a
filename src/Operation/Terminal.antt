-- ===== src/Operation/Terminal.antt =====
-- Terminal operations in src/operation.cpp: what a record says stays, until the record is forgotten.
use ge.Prelude.{
  ℕ, ◌+◌, ◌^◌, ◌≤◌, ◌<◌, ◌≡◌, ap, ◌∙◌, subst, true, Option, none, some, List, [], ◌∷◌, ◌++◌, ltb,
  length, arith, inl, inr, Option-cases, if_cases, ◌==◌, ==_iff,
}
use ge.Operation.{
  OperationRecord, OperationRegistry, Records, is_terminal, put, emplace, trim, report,
  end_operation, end_record,
}
use ge.Operation.Calls.{Call, step, run, Verdict, verdict, step_cases}

pub put_cases :
    (P : Option OperationRecord → Type 0) (i : ℕ) (r : Option OperationRecord) (m : Records) (j : ℕ)
    → (j ≡ i → P r)
    → P (m j)
    → P (put i r m j)
put_cases P i r m j here other =
    if_cases P (j == i) r (m j) (λ e. here ((==_iff j i).0 e)) (λ e. other)

pub emplace_cases :
    (P : Option OperationRecord → Type 0) (i : ℕ) (r : OperationRecord) (m : Records) (j : ℕ)
    → (j ≡ i → P (some r))
    → P (m j)
    → P (emplace i r m j)
unfolding emplace
emplace_cases P i r m j here other = elim (Option-cases (m i)) [
  | inl n ↦ rw (n, emplace) (put_cases P i (some r) m j here other)
  | inr (old, q) ↦ rw (q, emplace) other
]

-- The loop of Finish forgets an id or leaves it.
pub trim_cases :
    (P : Option OperationRecord → Type 0) (retain : ℕ) (xs : List ℕ) (m : Records) (j : ℕ)
    → P none
    → P (m j)
    → P ((trim retain xs m).1 j)
unfolding trim
trim_cases P retain [] m j forgotten kept = kept
trim_cases P retain (i ∷ rest) m j forgotten kept =
    if_cases (λ (x : List ℕ × Records). P (x.1 j)) (ltb retain (length (i ∷ rest))) _ _
      (λ t.
        trim_cases P retain rest (put i none m) j forgotten
          (put_cases P i none m j (λ e. forgotten) kept))
      (λ t. kept)

-- The record is forgotten, or it is terminal and gives the verdict.
abbrev pub Says : Verdict → Option OperationRecord → Type 0
Says o none = Unit {0}
Says o (some r) = (is_terminal r.state ≡ true) × (verdict r ≡ o)

step-Says :
    (i : ℕ) (o : Verdict) (c : Call) (g : OperationRegistry)
    → i < g.next_id
    → g.next_id + 1 < 2 ^ 64
    → Says o (g.records i)
    → Says o ((step c g).records i)
      × (i < (step c g).next_id)
      × ((step c g).next_id ≤ g.next_id + 1)
unfolding emplace end_operation report
step-Says i o c g used room h =
    let P = λ (g' : OperationRegistry).
      Says o (g'.records i) × (i < g'.next_id) × (g'.next_id ≤ g.next_id + 1) in
    let before : (j : ℕ) (r : OperationRecord) → i ≡ j → g.records j ≡ some r → Says o (some r) =
      λ j r e q. subst (Says o) (ap g.records e ∙ q) h in
    step_cases P g (h, used, omega arith) (λ hook. (h, used, omega arith))
      (λ r live new. (
        emplace_cases (Says o) g.next_id r g.records i (λ e. absurd (omega (arith, e, used))) h,
        omega arith,
        omega arith,
      ))
      (λ j r r' q t. (
        put_cases (Says o) j (some r') g.records i
            (λ e. let s = before j r e q in (t.same_end ∙ s.0, t.same_verdict s.0 ∙ s.1)) h,
        used,
        omega arith,
      ))
      (λ j e r ends q live. (
        trim_cases (Says o) g.retain_terminal (g.terminal_order ++ j ∷ [])
            (put j (some (end_record e r)) g.records) i tt
            (put_cases (Says o) j (some (end_record e r)) g.records i
              (λ at. absurd (let s = before j r at q in cc (s.0, live))) h),
        used,
        omega arith,
      ))
      c

-- Whatever calls follow, as long as the ids do not wrap at 64 bits: an operation that has ended keeps
-- its state, its result, its parameter version, its detail and its time of finishing, or its record is
-- forgotten.
pub run-Says :
    (i : ℕ) (o : Verdict) (cs : List Call) (g : OperationRegistry)
    → i < g.next_id
    → g.next_id + length cs < 2 ^ 64
    → Says o (g.records i)
    → Says o ((run cs g).records i)
unfolding run
run-Says i o [] g used room h = h
run-Says i o (c ∷ cs) g used room h =
    let s = step-Says i o c g used (omega arith) h in
    run-Says i o cs (step c g) s.1 (omega (arith, s.2)) s.0
