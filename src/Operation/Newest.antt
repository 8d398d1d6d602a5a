-- ===== src/Operation/Newest.antt =====
-- The record that a finish of src/operation.cpp leaves.
use ge.Prelude.{
  ◌≢◌, ℕ, ◌<◌, ◌≡◌, refl, sym, ap, ◌∙◌, true, false, none, some, List, [], ◌∷◌, ◌++◌, ltb, length,
  arith, inl, inr, Bool-cases, if_cases, ◌==◌, ==_iff,
}
use ge.Operation.{
  OperationRecord, OperationRegistry, Records, Ending, is_terminal, put, trim, report,
  end_operation, end_record, finish, get,
}
use ge.Operation.Trim.{member, is_live}
use ge.Operation.Retention.{IsValid}

-- The newest id stays, since one record at least is retained.
trim_last :
    (retain i : ℕ) (xs : List ℕ) (m : Records)
    → 0 < retain
    → member i xs ≡ false
    → (trim retain (xs ++ i ∷ []) m).1 i ≡ m i
unfolding trim member
trim_last retain i [] m h n =
    if_cases (λ (x : List ℕ × Records). x.1 i ≡ m i) (ltb retain 1) _ _
      (λ t. absurd (ground (arith, t, h))) (λ t. refl)
trim_last retain i (x ∷ xs) m h n =
    if_cases (λ (r : List ℕ × Records). r.1 i ≡ m i) (ltb retain (length (x ∷ xs ++ i ∷ []))) _ _
      (λ t.
        trim_last retain i xs (put x none m) h (ground (arith, n))
        ∙ (let e : (i == x) ≡ false = ground (arith, n) in rw e refl))
      (λ t. refl)

pub still_live :
    (g : OperationRegistry) (i : ℕ) (r : OperationRecord)
    → g.records i ≡ some r
    → is_terminal r.state ≡ false
    → is_live (g.records i) ≢ false
still_live g i r q live h =
    let dead : is_live (some r) ≡ false = sym (ap is_live q) ∙ h in
    absurd (ground (arith, dead, live))

not_listed :
    (g : OperationRegistry) (i : ℕ) (r : OperationRecord)
    → IsValid g
    → g.records i ≡ some r
    → is_terminal r.state ≡ false
    → member i g.terminal_order ≡ false
not_listed g i r v q live = elim (Bool-cases (member i g.terminal_order)) [
  | inl t ↦ absurd (still_live g i r q live (v.ended i t))
  | inr f ↦ f
]

-- In a valid registry, finishing an operation that has not ended leaves its record with what the finish
-- brings, however few records are retained.
pub get-finish :
    (g : OperationRegistry) (i : ℕ) (e : Ending) (r : OperationRecord)
    → IsValid g
    → g.records i ≡ some r
    → is_terminal r.state ≡ false
    → get i (finish i e g) ≡ some (end_record e r)
unfolding finish end_operation report
get-finish g i e r v q live =
    rw (q, finish)
      (rw live (
        trim_last g.retain_terminal i g.terminal_order (put i (some (end_record e r)) g.records)
          v.positive (not_listed g i r v q live)
        ∙ (let s : (i == i) ≡ true = (==_iff i i).1 refl in rw s refl)))
