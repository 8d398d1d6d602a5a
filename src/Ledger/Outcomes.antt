-- ===== src/Ledger/Outcomes.antt =====
-- The two outcomes of the reserving calls of src/resource_ledger.cpp, all or nothing.
use ge.Prelude.{ℕ, ◌≡◌, refl, ◌⊎◌, inl, inr, List, [], ◌∷◌, ◌++◌, incr64}
use ge.Ledger.Amounts.{ResourceAmount, merge_amounts}
use ge.Ledger.AccountMap.{Accounts}
use ge.Ledger.{
  ResourceLedger, ResourceLease, Shortfall, shortfalls, take_all, release_all, try_reserve, Result,
  ok, resource_exhausted, new_lease, reserve, growth, shrinkage, unnamed, commit_lease,
}

List-cases : {A : Type 0} (xs : List A) → (xs ≡ []) ⊎ ((x : A) × (rest : List A) × (xs ≡ x ∷ rest))
List-cases [] = inl refl
List-cases (x ∷ rest) = inr (x, rest, refl)

pub try_reserve-fits :
    (xs : List ResourceAmount) (m : Accounts)
    → shortfalls xs m ≡ []
    → try_reserve xs m ≡ ok (take_all xs m)
unfolding try_reserve
try_reserve-fits xs m q = rw (q, try_reserve) refl

pub try_reserve-short :
    (xs : List ResourceAmount) (m : Accounts) (s : Shortfall) (rest : List Shortfall)
    → shortfalls xs m ≡ s ∷ rest
    → try_reserve xs m ≡ resource_exhausted (s ∷ rest)
unfolding try_reserve
try_reserve-short xs m s rest q = rw (q, try_reserve) refl

-- The ledger and the lease of a reservation that fits.
unfoldable pub granted : List ResourceAmount → ResourceLedger → ResourceLedger
granted merged l = record {
  accounts = take_all merged l.accounts;
  next_lease = incr64 l.next_lease;
  live_leases = incr64 l.live_leases;
}

pub reserve_cases {ℓ} :
    (P : Result ResourceLease × ResourceLedger → Type ℓ) (owner : ℕ) (xs : List ResourceAmount)
    (l : ResourceLedger)
    → (shortfalls (merge_amounts xs) l.accounts ≡ []
        → P (ok (new_lease l.next_lease owner (merge_amounts xs)), granted (merge_amounts xs) l))
    → ((s : Shortfall) (rest : List Shortfall)
        → shortfalls (merge_amounts xs) l.accounts ≡ s ∷ rest
        → P (resource_exhausted (s ∷ rest), l))
    → P (reserve owner xs l)
unfolding reserve granted
reserve_cases P owner xs l fits short =
    elim (List-cases (shortfalls (merge_amounts xs) l.accounts)) [
      | inl q ↦ rw (try_reserve-fits (merge_amounts xs) l.accounts q, reserve) (fits q)
      | inr (s, rest, q) ↦
          rw (try_reserve-short (merge_amounts xs) l.accounts s rest q, reserve) (short s rest q)
    ]

-- The ledger after a commit that fits.
unfoldable pub committed :
    List ResourceAmount → List ResourceAmount → ResourceLedger → ResourceLedger
committed current merged l = record l {
  accounts =
      release_all (shrinkage current merged ++ unnamed current merged)
        (take_all (growth current merged) l.accounts);
}

pub commit_lease_cases {ℓ} :
    (P : Result (List ResourceAmount) × ResourceLedger → Type ℓ)
    (current actual : List ResourceAmount) (l : ResourceLedger)
    → (shortfalls (growth current (merge_amounts actual)) l.accounts ≡ []
        → P (ok (merge_amounts actual), committed current (merge_amounts actual) l))
    → ((s : Shortfall) (rest : List Shortfall)
        → shortfalls (growth current (merge_amounts actual)) l.accounts ≡ s ∷ rest
        → P (resource_exhausted (s ∷ rest), l))
    → P (commit_lease current actual l)
unfolding commit_lease committed
commit_lease_cases P current actual l fits short =
    let grown = growth current (merge_amounts actual) in
    elim (List-cases (shortfalls grown l.accounts)) [
      | inl q ↦ rw (try_reserve-fits grown l.accounts q, commit_lease) (fits q)
      | inr (s, rest, q) ↦
          rw (try_reserve-short grown l.accounts s rest q, commit_lease) (short s rest q)
    ]
