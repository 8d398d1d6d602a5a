-- ===== src/Ledger/Capacity.antt =====
-- No run of calls on the ledger of src/resource_ledger.cpp overdraws a limited key.
use ge.Prelude.{
  ℕ, ◌≤◌, ◌<◌, ◌^◌, ◌≡◌, sym, ◌∙◌, inl, inr, some, Option-cases, List, [], ◌∷◌, ◌++◌, arith,
  get_elem?, if_cases,
}
use ge.Ledger.Amounts.{Key, ResourceAmount, merge_amounts}
use ge.Ledger.AccountMap.{Accounts}
use ge.Ledger.{
  ResourceLedger, ResourceLease, Result, reserve, release_lease, release, growth, shrinkage,
  unnamed, recommitted, commit, take_all, release_all, shortfalls,
}
use ge.Ledger.Merge.{Distinct}
use ge.Ledger.Distinct.{merge_amounts-Distinct}
use ge.Ledger.Totals.{
  reserved_at, capacity_at, capacity-take_all, reserved-take_all, capacity-release_all,
  reserved-release_all, no_shortfall,
}
use ge.Ledger.Deltas.{growth-Distinct}
use ge.Ledger.Outcomes.{granted, reserve_cases, committed, commit_lease_cases}
use ge.Ledger.World.{World, Call, reserves, releases, commits, after_reserve, step, run}

-- A limit is a 64-bit number, and at most the limit is reserved.
abbrev pub IsWithin : Accounts → Type 0
IsWithin m = (k : Key) (c : ℕ) → capacity_at k m ≡ some c → (reserved_at k m ≤ c) × (c < 2 ^ 64)

take_all-IsWithin :
    (xs : List ResourceAmount) (m : Accounts)
    → Distinct xs
    → shortfalls xs m ≡ []
    → IsWithin m
    → IsWithin (take_all xs m)
take_all-IsWithin xs m d s w k c q =
    let q' : capacity_at k m ≡ some c = sym (capacity-take_all k xs m) ∙ q in
    let here = w k c q' in
    let fits = no_shortfall k xs m c d s q' in
    (omega (arith, here.0, here.1, fits, reserved-take_all k xs m), here.1)

release_all-IsWithin :
    (xs : List ResourceAmount) (m : Accounts) → IsWithin m → IsWithin (release_all xs m)
release_all-IsWithin xs m w k c q =
    let here = w k c (sym (capacity-release_all k xs m) ∙ q) in
    (omega (arith, here.0, reserved-release_all k xs m), here.1)

reserve-IsWithin :
    (owner : ℕ) (xs : List ResourceAmount) (w : World)
    → IsWithin w.ledger.accounts
    → IsWithin (after_reserve w (reserve owner xs w.ledger)).ledger.accounts
unfolding after_reserve granted
reserve-IsWithin owner xs w v =
    reserve_cases (λ r. IsWithin (after_reserve w r).ledger.accounts) owner xs w.ledger
      (λ q. take_all-IsWithin (merge_amounts xs) w.ledger.accounts (merge_amounts-Distinct xs) q v)
      (λ s rest q. v)

release-IsWithin :
    (lease : ResourceLease) (l : ResourceLedger)
    → IsWithin l.accounts
    → IsWithin (release lease l).1.accounts
unfolding release release_lease
release-IsWithin lease l v =
    if_cases (λ (r : ResourceLease × ResourceLedger). IsWithin r.1.accounts) lease.active _ _
      (λ active. release_all-IsWithin lease.amounts l.accounts v) (λ over. v)

commit-IsWithin :
    (lease : ResourceLease) (actual : List ResourceAmount) (l : ResourceLedger)
    → IsWithin l.accounts
    → IsWithin (commit lease actual l).2.accounts
unfolding commit recommitted committed
commit-IsWithin lease actual l v =
    let merged = merge_amounts actual in
    let P = λ (r : Result (List ResourceAmount) × ResourceLease × ResourceLedger).
      IsWithin r.2.accounts in
    if_cases P lease.active _ _
      (λ active.
        commit_lease_cases (λ r. P (recommitted lease r)) lease.amounts actual l
          (λ q.
            release_all-IsWithin (shrinkage lease.amounts merged ++ unnamed lease.amounts merged)
              (take_all (growth lease.amounts merged) l.accounts)
              (take_all-IsWithin (growth lease.amounts merged) l.accounts
                (growth-Distinct lease.amounts merged (merge_amounts-Distinct actual)) q v))
          (λ s rest q. v))
      (λ over. v)

step-IsWithin :
    (c : Call) (w : World) → IsWithin w.ledger.accounts → IsWithin (step c w).ledger.accounts
unfolding step
step-IsWithin (reserves owner xs) w v = reserve-IsWithin owner xs w v
step-IsWithin (releases i) w v = elim (Option-cases (get_elem? w.leases i)) [
  | inl n ↦ rw (n, step) v
  | inr (lease, q) ↦ rw (q, step) (release-IsWithin lease w.ledger v)
]
step-IsWithin (commits i actual) w v = elim (Option-cases (get_elem? w.leases i)) [
  | inl n ↦ rw (n, step) v
  | inr (lease, q) ↦ rw (q, step) (commit-IsWithin lease actual w.ledger v)
]

-- If no limited key has more reserved than its capacity, and the capacities are 64-bit numbers, then
-- the same holds after any run of reservations, releases and commits.
pub run-IsWithin :
    (cs : List Call) (w : World) → IsWithin w.ledger.accounts → IsWithin (run cs w).ledger.accounts
unfolding run
run-IsWithin [] w v = v
run-IsWithin (c ∷ cs) w v = run-IsWithin cs (step c w) (step-IsWithin c w v)
