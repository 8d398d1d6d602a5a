-- ===== src/Ledger.antt =====
-- src/resource_ledger.cpp and include/ge/cpp/resource_ledger.h: capacities and reservations of one
-- engine, per kind and device. The mutex makes every call below one step.
pub mod AccountMap
pub mod Merge
pub mod Distinct
pub mod Totals
pub mod Deltas
pub mod World
pub mod Outcomes
pub mod Held
pub mod Balance
pub mod Capacity
pub mod Reservation
mod Tests
pub mod Amounts
use ge.Prelude.{
  ℕ, ◌+◌, ◌-◌, ◌%◌, ◌^◌, max, Bool, true, false, not, Option, none, some, List, [], ◌∷◌, ◌++◌, ltb,
  leb, if◌then◌else◌, incr64,
}
use Amounts.{Key, ResourceAmount, key_of, key_eq, merge_amounts, has_key, amount_at}
use AccountMap.{Account, Accounts, find, upsert, fresh}

pub record ResourceLedger : Type 0 where
  pub accounts : Accounts
  pub next_lease : ℕ
  pub live_leases : ℕ

-- `active` is that the lease still points to its ledger.
pub record ResourceLease : Type 0 where
  pub active : Bool
  pub id : ℕ
  pub owner : ℕ
  pub amounts : List ResourceAmount

-- One dimension that falls short, as the error's context lists it.
pub record Shortfall : Type 0 where
  pub key : Key
  pub requested : ℕ
  pub reserved : ℕ
  pub capacity : ℕ
  pub available : ℕ

pub data Result {ℓ} (A : Type ℓ) : Type ℓ where
  ok : A → Result A
  resource_exhausted : List Shortfall → Result A
  invalid_argument : Result A

unfoldable pub empty_ledger : ResourceLedger
empty_ledger = record { accounts = []; next_lease = 1; live_leases = 0 }

unfoldable pub set_capacity : Key → ℕ → ResourceLedger → ResourceLedger
set_capacity k c l = record l {
  accounts = upsert k (λ a. record a { capacity = some c }) l.accounts;
}

unfoldable pub capacity_of : Key → ResourceLedger → Option ℕ
capacity_of k l = elim (find k l.accounts) [ none ↦ none | some a ↦ a.capacity ]

-- The first pass for one amount: what is missing, in a list of at most one.
unfoldable pub shortfall_in : ResourceAmount → Option Account → List Shortfall
shortfall_in a none = []
shortfall_in a (some acc) = elim acc.capacity [
  | none ↦ []
  | some c ↦
      let available = if ltb acc.reserved c then c - acc.reserved else 0 in
      if leb a.amount available
      then []
      else (record {
        key = key_of a;
        requested = a.amount;
        reserved = acc.reserved;
        capacity = c;
        available = available;
      }
          ∷ [])
]

unfoldable pub shortfalls : List ResourceAmount → Accounts → List Shortfall
shortfalls [] m = []
shortfalls (a ∷ rest) m = shortfall_in a (find (key_of a) m) ++ shortfalls rest m

unfoldable pub take_amount : ResourceAmount → Account → Account
take_amount a acc =
    let reserved = (acc.reserved + a.amount) % 2 ^ 64 in
    record acc { reserved = reserved; peak = max acc.peak reserved }

-- The second pass.
unfoldable pub take_all : List ResourceAmount → Accounts → Accounts
take_all [] m = m
take_all (a ∷ rest) m = take_all rest (upsert (key_of a) (take_amount a) m)

unfoldable pub try_reserve : List ResourceAmount → Accounts → Result Accounts
try_reserve amounts m = elim (shortfalls amounts m) [
  | [] ↦ ok (take_all amounts m)
  | s ∷ rest ↦ resource_exhausted (s ∷ rest)
]

unfoldable pub give_back : ResourceAmount → Account → Account
give_back a acc = record acc {
  reserved = if ltb a.amount acc.reserved then acc.reserved - a.amount else 0;
}

-- An account that is missing stays so.
unfoldable pub release_amount : ResourceAmount → Accounts → Accounts
release_amount a m = elim (find (key_of a) m) [
  | none ↦ m
  | some acc ↦ upsert (key_of a) (give_back a) m
]

unfoldable pub release_all : List ResourceAmount → Accounts → Accounts
release_all [] m = m
release_all (a ∷ rest) m = release_all rest (release_amount a m)

unfoldable pub new_lease : ℕ → ℕ → List ResourceAmount → ResourceLease
new_lease id owner amounts = record { active = true; id = id; owner = owner; amounts = amounts }

unfoldable pub reserve :
    ℕ → List ResourceAmount → ResourceLedger → Result ResourceLease × ResourceLedger
reserve owner amounts l =
    let merged = merge_amounts amounts in
    elim (try_reserve merged l.accounts) [
      | ok m ↦ (
        ok (new_lease l.next_lease owner merged),
        record {
          accounts = m;
          next_lease = incr64 l.next_lease;
          live_leases = incr64 l.live_leases;
        },
      )
      | resource_exhausted s ↦ (resource_exhausted s, l)
      | invalid_argument ↦ (invalid_argument, l)
    ]

unfoldable pub release_lease : List ResourceAmount → ResourceLedger → ResourceLedger
release_lease amounts l = record l {
  accounts = release_all amounts l.accounts;
  live_leases = if ltb 0 l.live_leases then l.live_leases - 1 else l.live_leases;
}

-- ResourceLease::Release.
unfoldable pub release : ResourceLease → ResourceLedger → ResourceLease × ResourceLedger
release lease l =
    if lease.active
    then (record lease { active = false; amounts = [] }, release_lease lease.amounts l)
    else (lease, l)

-- What a commit adds to the amounts of a lease, and what it gives back: dimension by dimension, and
-- then the dimensions that are no longer named.
unfoldable pub growth : List ResourceAmount → List ResourceAmount → List ResourceAmount
growth current [] = []
growth current (a ∷ rest) =
    let have = amount_at (key_of a) current in
    (if ltb have a.amount then record a { amount = a.amount - have } ∷ [] else [])
    ++ growth current rest

unfoldable pub shrinkage : List ResourceAmount → List ResourceAmount → List ResourceAmount
shrinkage current [] = []
shrinkage current (a ∷ rest) =
    let have = amount_at (key_of a) current in
    (if ltb a.amount have then record a { amount = have - a.amount } ∷ [] else [])
    ++ shrinkage current rest

unfoldable pub unnamed : List ResourceAmount → List ResourceAmount → List ResourceAmount
unnamed [] actual = []
unnamed (c ∷ rest) actual =
    (if has_key (key_of c) actual then [] else c ∷ []) ++ unnamed rest actual

-- CommitLease: the new amounts of the lease, and the new ledger.
unfoldable pub commit_lease :
    List ResourceAmount
    → List ResourceAmount
    → ResourceLedger
    → Result (List ResourceAmount) × ResourceLedger
commit_lease current actual l =
    let merged = merge_amounts actual in
    elim (try_reserve (growth current merged) l.accounts) [
      | ok m ↦ (
        ok merged,
        record l { accounts = release_all (shrinkage current merged ++ unnamed current merged) m },
      )
      | resource_exhausted s ↦ (resource_exhausted s, l)
      | invalid_argument ↦ (invalid_argument, l)
    ]

-- What a commit makes of its lease: on an error the lease keeps its amounts.
unfoldable pub recommitted :
    ResourceLease
    → Result (List ResourceAmount) × ResourceLedger
    → Result (List ResourceAmount) × ResourceLease × ResourceLedger
recommitted lease (ok merged, l) = (ok merged, record lease { amounts = merged }, l)
recommitted lease (resource_exhausted s, l) = (resource_exhausted s, lease, l)
recommitted lease (invalid_argument, l) = (invalid_argument, lease, l)

-- ResourceLease::Commit.
unfoldable pub commit :
    ResourceLease
    → List ResourceAmount
    → ResourceLedger
    → Result (List ResourceAmount) × ResourceLease × ResourceLedger
commit lease actual l =
    if lease.active
    then recommitted lease (commit_lease lease.amounts actual l)
    else (invalid_argument, lease, l)
