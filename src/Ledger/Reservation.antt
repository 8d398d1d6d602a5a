-- ===== src/Ledger/Reservation.antt =====
-- When a reservation of src/resource_ledger.cpp is granted, and that its release undoes it.
use ge.Prelude.{
  ℕ, ◌+◌, ◌-◌, ◌≤◌, ◌<◌, ◌^◌, ◌≡◌, refl, sym, subst, ◌∙◌, ◌↔◌, inl, inr, Option, none, some,
  Option-cases, List, [], ◌∷◌, arith,
}
use ge.Ledger.Amounts.{Key, ResourceAmount, key_of, merge_amounts, key_eq_refl}
use ge.Ledger.AccountMap.{Account, Accounts, find, or_fresh}
use ge.Ledger.{
  ResourceLedger, ResourceLease, Result, ok, resource_exhausted, invalid_argument, Shortfall,
  shortfall_in, shortfalls, new_lease, reserve, release_lease, release, take_all,
}
use ge.Ledger.Merge.{total}
use ge.Ledger.Distinct.{merge_amounts-Distinct}
use ge.Ledger.Totals.{
  reserved_at, capacity_at, reserved-take_all, reserved-release_all, no_shortfall,
}
use ge.Ledger.Outcomes.{granted, reserve_cases}

abbrev pub IsGranted : Result ResourceLease → Type 0
IsGranted (ok lease) = Unit {0}
IsGranted (resource_exhausted s) = ⊥
IsGranted invalid_argument = ⊥

-- Every limited key has the amounts left.
abbrev pub HasLeft : List ResourceAmount → Accounts → Type 0
HasLeft xs m = (k : Key) (c : ℕ) → capacity_at k m ≡ some c → total k xs ≤ c - reserved_at k m

no_shortfall_in :
    (a : ResourceAmount) (o : Option Account)
    → ((c : ℕ) → (or_fresh o).capacity ≡ some c → a.amount ≤ c - (or_fresh o).reserved)
    → shortfall_in a o ≡ []
unfolding shortfall_in
no_shortfall_in a none h = refl
no_shortfall_in a (some acc) h = elim (Option-cases acc.capacity) [
  | inl n ↦ ground arith
  | inr (c, q) ↦ ground (arith, h c q)
]

total-head :
    (a : ResourceAmount) (rest : List ResourceAmount) → a.amount ≤ total (key_of a) (a ∷ rest)
unfolding total
total-head a rest = ground (arith, key_eq_refl (key_of a))

total-tail :
    (k : Key) (a : ResourceAmount) (rest : List ResourceAmount) → total k rest ≤ total k (a ∷ rest)
unfolding total
total-tail k a rest = omega arith

shortfalls_of_HasLeft :
    (xs : List ResourceAmount) (m : Accounts) → HasLeft xs m → shortfalls xs m ≡ []
unfolding shortfalls
shortfalls_of_HasLeft [] m h = refl
shortfalls_of_HasLeft (a ∷ rest) m h =
    let here : shortfall_in a (find (key_of a) m) ≡ [] =
      no_shortfall_in a (find (key_of a) m)
        (λ c q. omega (arith, h (key_of a) c q, total-head a rest)) in
    rw here (shortfalls_of_HasLeft rest m (λ k c q. omega (arith, h k c q, total-tail k a rest)))

-- A reservation is granted exactly when for every limited key the sum of the merged request's entries
-- is at most what the capacity leaves.
pub reserve_iff :
    (owner : ℕ) (xs : List ResourceAmount) (l : ResourceLedger)
    → IsGranted (reserve owner xs l).0 ↔ HasLeft (merge_amounts xs) l.accounts
reserve_iff owner xs l = (
  reserve_cases (λ r. IsGranted r.0 → HasLeft (merge_amounts xs) l.accounts) owner xs l
      (λ q g k c p. no_shortfall k (merge_amounts xs) l.accounts c (merge_amounts-Distinct xs) q p)
      (λ s rest q g. absurd g),
  reserve_cases (λ r. HasLeft (merge_amounts xs) l.accounts → IsGranted r.0) owner xs l (λ q h. tt)
      (λ s rest q h.
        absurd
          (cons_ne_nil s rest (sym q ∙ shortfalls_of_HasLeft (merge_amounts xs) l.accounts h))),
)
  where
    cons_ne_nil : (s : Shortfall) (rest : List Shortfall) → (s ∷ rest) ≡ [] → ⊥
    cons_ne_nil s rest q = cc

-- A refused reservation changes nothing, and names every amount of the merged request that falls
-- short.
pub reserve_refused :
    (owner : ℕ) (xs : List ResourceAmount) (l : ResourceLedger) (short : List Shortfall)
    → (reserve owner xs l).0 ≡ resource_exhausted short
    → ((reserve owner xs l).1 ≡ l) × (short ≡ shortfalls (merge_amounts xs) l.accounts)
reserve_refused owner xs l short =
    reserve_cases
      (λ r.
        r.0 ≡ resource_exhausted short
        → (r.1 ≡ l) × (short ≡ shortfalls (merge_amounts xs) l.accounts))
      owner xs l (λ q e. absurd (cc)) (λ s rest q e. (refl, ground arith))

-- If a reservation was granted and the reserved amount of a key with what was asked of it fits 64
-- bits, then releasing the lease at once leaves the reserved amount of the key as it was before.
pub release-reserve :
    (owner : ℕ) (xs : List ResourceAmount) (l : ResourceLedger) (lease : ResourceLease) (k : Key)
    → (reserve owner xs l).0 ≡ ok lease
    → reserved_at k l.accounts + total k (merge_amounts xs) < 2 ^ 64
    → reserved_at k (release lease (reserve owner xs l).1).1.accounts ≡ reserved_at k l.accounts
unfolding release release_lease granted new_lease
release-reserve owner xs l lease k =
    reserve_cases
      (λ r.
        r.0 ≡ ok lease
        → reserved_at k l.accounts + total k (merge_amounts xs) < 2 ^ 64
        → reserved_at k (release lease r.1).1.accounts ≡ reserved_at k l.accounts)
      owner xs l
      (λ q e h.
        let same : new_lease l.next_lease owner (merge_amounts xs) ≡ lease = ground arith in
        subst
          (λ (x : ResourceLease).
            reserved_at k (release x (granted (merge_amounts xs) l)).1.accounts
            ≡ reserved_at k l.accounts)
          same
          (omega (
            arith,
            reserved-release_all k (merge_amounts xs) (take_all (merge_amounts xs) l.accounts),
            reserved-take_all k (merge_amounts xs) l.accounts,
            h,
          )))
      (λ s rest q e. absurd (cc))
