-- ===== src/Ledger/Balance.antt =====
-- The ledger of src/resource_ledger.cpp agrees with the leases that are out: after any calls, what is
-- reserved of a key is what the leases hold of it.
use ge.Prelude.{
  ℕ, ◌+◌, ◌<◌, ◌^◌, ◌≡◌, inl, inr, false, some, Option-cases, List, [], ◌∷◌, ◌++◌, arith, get_elem?,
  set, if_cases,
}
use ge.Ledger.Amounts.{Key, ResourceAmount, merge_amounts}
use ge.Ledger.{
  ResourceLedger, ResourceLease, Result, new_lease, reserve, release_lease, release, growth,
  shrinkage, unnamed, recommitted, commit, take_all,
}
use ge.Ledger.Merge.{total, total-nil}
use ge.Ledger.Distinct.{merge_amounts-Distinct}
use ge.Ledger.Totals.{reserved_at, reserved-take_all, reserved-release_all}
use ge.Ledger.Deltas.{commit_total, growth-le}
use ge.Ledger.Outcomes.{granted, reserve_cases, committed, commit_lease_cases}
use ge.Ledger.World.{
  World, Call, reserves, releases, commits, after_reserve, step, run, held, active_count,
  AllDistinct, asked,
}
use ge.Ledger.Held.{held-set, held-ge, active_count-set, AllDistinct-set, lease-Distinct}

pub record IsBalanced (w : World) : Type 0 where
  pub balanced : (k : Key) → reserved_at k w.ledger.accounts ≡ held k w.leases
  pub distinct : AllDistinct w.leases
  pub live : w.ledger.live_leases ≡ active_count w.leases

-- The sums of a call fit 64 bits.
pub record HasRoom (w : World) (c : Call) : Type 0 where
  pub sums : (k : Key) → held k w.leases + total k (asked c) < 2 ^ 64
  pub count : w.ledger.live_leases + 1 < 2 ^ 64

reserve-IsBalanced :
    (owner : ℕ) (xs : List ResourceAmount) (w : World)
    → IsBalanced w
    → HasRoom w (reserves owner xs)
    → IsBalanced (after_reserve w (reserve owner xs w.ledger))
unfolding after_reserve asked new_lease granted held active_count
reserve-IsBalanced owner xs w v room =
    reserve_cases (λ r. IsBalanced (after_reserve w r)) owner xs w.ledger
      (λ q. record {
        balanced = λ k. omega (
          arith,
          reserved-take_all k (merge_amounts xs) w.ledger.accounts,
          v.balanced k,
          room.sums k,
        );
        distinct = (merge_amounts-Distinct xs, v.distinct);
        live = omega (arith, v.live, room.count);
      })
      (λ s rest q. record { balanced = v.balanced; distinct = v.distinct; live = v.live })

same-IsBalanced :
    (i : ℕ) (lease : ResourceLease) (w : World)
    → IsBalanced w
    → get_elem? w.leases i ≡ some lease
    → IsBalanced (record w { leases = set w.leases i lease })
same-IsBalanced i lease w v h = record {
  balanced = λ k. omega (arith, v.balanced k, held-set k w.leases i lease lease h);
  distinct =
      AllDistinct-set w.leases i lease v.distinct (lease-Distinct w.leases i lease v.distinct h);
  live = omega (arith, v.live, active_count-set w.leases i lease lease h);
}

releases-IsBalanced :
    (i : ℕ) (lease : ResourceLease) (w : World)
    → IsBalanced w
    → get_elem? w.leases i ≡ some lease
    → let (lease', l) = release lease w.ledger in
      IsBalanced (record { ledger = l; leases = set w.leases i lease' })
unfolding release release_lease
releases-IsBalanced i lease w v h =
    let idle = record lease { active = false; amounts = [] } in
    if_cases
      (λ (r : ResourceLease × ResourceLedger).
        IsBalanced (record { ledger = r.1; leases = set w.leases i r.0 }))
      lease.active (idle, release_lease lease.amounts w.ledger) (lease, w.ledger)
      (λ active. record {
        balanced = λ k. omega (
          arith,
          reserved-release_all k lease.amounts w.ledger.accounts,
          v.balanced k,
          held-set k w.leases i lease idle h,
          total-nil k,
        );
        distinct = AllDistinct-set w.leases i idle v.distinct tt;
        live = ground (arith, v.live, active, active_count-set w.leases i lease idle h);
      })
      (λ over. same-IsBalanced i lease w v h)

-- A commit that fits exchanges the amounts of one lease for the new ones.
commit_fits-IsBalanced :
    (i : ℕ) (lease : ResourceLease) (actual : List ResourceAmount) (w : World)
    → IsBalanced w
    → HasRoom w (commits i actual)
    → get_elem? w.leases i ≡ some lease
    → IsBalanced (record {
      ledger = committed lease.amounts (merge_amounts actual) w.ledger;
      leases = set w.leases i (record lease { amounts = merge_amounts actual });
    })
unfolding committed asked
commit_fits-IsBalanced i lease actual w v room h =
    let merged = merge_amounts actual in
    let lease' = record lease { amounts = merged } in
    let d = lease-Distinct w.leases i lease v.distinct h in
    let grown = growth lease.amounts merged in
    let back = shrinkage lease.amounts merged ++ unnamed lease.amounts merged in
    record {
      balanced = λ k. omega (
        arith,
        reserved-release_all k back (take_all grown w.ledger.accounts),
        reserved-take_all k grown w.ledger.accounts,
        v.balanced k,
        room.sums k,
        held-ge k w.leases i lease h,
        held-set k w.leases i lease lease' h,
        commit_total k lease.amounts merged d (merge_amounts-Distinct actual),
        growth-le k lease.amounts merged (merge_amounts-Distinct actual),
      );
      distinct = AllDistinct-set w.leases i lease' v.distinct (merge_amounts-Distinct actual);
      live = omega (arith, v.live, active_count-set w.leases i lease lease' h);
    }

commits-IsBalanced :
    (i : ℕ) (lease : ResourceLease) (actual : List ResourceAmount) (w : World)
    → IsBalanced w
    → HasRoom w (commits i actual)
    → get_elem? w.leases i ≡ some lease
    → let (r, lease', l) = commit lease actual w.ledger in
      IsBalanced (record { ledger = l; leases = set w.leases i lease' })
unfolding commit recommitted
commits-IsBalanced i lease actual w v room h =
    let P = λ (r : Result (List ResourceAmount) × ResourceLease × ResourceLedger).
      IsBalanced (record { ledger = r.2; leases = set w.leases i r.1 }) in
    if_cases P lease.active _ _
      (λ active.
        commit_lease_cases (λ r. P (recommitted lease r)) lease.amounts actual w.ledger
          (λ q. commit_fits-IsBalanced i lease actual w v room h)
          (λ s rest q. same-IsBalanced i lease w v h))
      (λ over. same-IsBalanced i lease w v h)

-- Every call keeps the ledger balanced, whether it succeeds or fails.
pub step-IsBalanced : (c : Call) (w : World) → IsBalanced w → HasRoom w c → IsBalanced (step c w)
unfolding step
step-IsBalanced (reserves owner xs) w v room = reserve-IsBalanced owner xs w v room
step-IsBalanced (releases i) w v room = elim (Option-cases (get_elem? w.leases i)) [
  | inl n ↦ rw (n, step) v
  | inr (lease, q) ↦ rw (q, step) (releases-IsBalanced i lease w v q)
]
step-IsBalanced (commits i actual) w v room = elim (Option-cases (get_elem? w.leases i)) [
  | inl n ↦ rw (n, step) v
  | inr (lease, q) ↦ rw (q, step) (commits-IsBalanced i lease actual w v room q)
]

-- The sums of every call fit 64 bits where it is made.
abbrev pub AllRoom : List Call → World → Type 0
AllRoom [] w = Unit {0}
AllRoom (c ∷ cs) w = HasRoom w c × AllRoom cs (step c w)

-- If the reserved amount of every key is the sum over the leases and the live count is that of the
-- active leases, then both hold after any run of reservations, releases and commits, failed ones
-- included, where at each call the sum of what is held and asked for and the live count fit 64 bits.
pub run-IsBalanced :
    (cs : List Call) (w : World) → IsBalanced w → AllRoom cs w → IsBalanced (run cs w)
unfolding run
run-IsBalanced [] w v room = v
run-IsBalanced (c ∷ cs) w v room =
    run-IsBalanced cs (step c w) (step-IsBalanced c w v room.0) room.1
