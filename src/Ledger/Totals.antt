-- ===== src/Ledger/Totals.antt =====
-- What the two passes of TryReserveLocked and ReleaseLocked of src/resource_ledger.cpp do to every
-- account.
use ge.Prelude.{
  ℕ, ◌+◌, ◌-◌, ◌^◌, ◌≤◌, ◌<◌, ◌≡◌, refl, sym, ap, ◌∙◌, true, false, Option, none, some, List, [],
  ◌∷◌, ◌++◌, if◌then◌else◌, arith, Bool-cases, Option-cases, inl, inr, leb,
}
use ge.Ledger.Amounts.{Key, ResourceAmount, key_of, key_eq, has_key, key_eq→eq}
use ge.Ledger.AccountMap.{Account, Accounts, find, upsert, or_fresh, find-upsert}
use ge.Ledger.{
  shortfall_in, shortfalls, take_amount, take_all, give_back, release_amount, release_all,
}
use ge.Ledger.Merge.{total, Distinct}

-- An account that is missing counts as a fresh one: nothing reserved, no limit.
abbrev pub account_at : Key → Accounts → Account
account_at k m = or_fresh (find k m)

abbrev pub reserved_at : Key → Accounts → ℕ
reserved_at k m = (account_at k m).reserved

abbrev pub capacity_at : Key → Accounts → Option ℕ
capacity_at k m = (account_at k m).capacity

pub account-upsert :
    (k j : Key) (f : Account → Account) (m : Accounts)
    → account_at j (upsert k f m) ≡ (if key_eq k j then f (account_at j m) else account_at j m)
account-upsert k j f m = elim (Bool-cases (key_eq k j)) [
  | inl same ↦ rw (find-upsert k j f m, same) (ap (λ i. f (account_at i m)) (key_eq→eq k j same))
  | inr other ↦ rw (find-upsert k j f m, other) refl
]

pub capacity-take_all :
    (k : Key) (xs : List ResourceAmount) (m : Accounts)
    → capacity_at k (take_all xs m) ≡ capacity_at k m
unfolding take_all take_amount
capacity-take_all k [] m = refl
capacity-take_all k (a ∷ rest) m =
    capacity-take_all k rest (upsert (key_of a) (take_amount a) m)
    ∙ ap (λ (x : Account). x.capacity) (account-upsert (key_of a) k (take_amount a) m)
    ∙ ground arith

-- If the sums fit 64 bits, every account has taken the total of its key.
pub reserved-take_all :
    (k : Key) (xs : List ResourceAmount) (m : Accounts)
    → reserved_at k m + total k xs < 2 ^ 64
    → reserved_at k (take_all xs m) ≡ reserved_at k m + total k xs
unfolding take_all take_amount total
reserved-take_all k [] m h = omega arith
reserved-take_all k (a ∷ rest) m h =
    let m1 = upsert (key_of a) (take_amount a) m in
    let one : reserved_at k m1 ≡ reserved_at k m + (if key_eq (key_of a) k then a.amount else 0) =
      ap (λ (x : Account). x.reserved) (account-upsert (key_of a) k (take_amount a) m)
      ∙ ground arith in
    omega (arith, one, reserved-take_all k rest m1)

find-subst : (i j : Key) (m : Accounts) → key_eq i j ≡ true → find j m ≡ find i m
find-subst i j m h = ap (λ (k : Key). find k m) (sym (key_eq→eq i j h))

release_amount_lem :
    (k : Key) (a : ResourceAmount) (m : Accounts)
    → (reserved_at k (release_amount a m)
        ≡ reserved_at k m - (if key_eq (key_of a) k then a.amount else 0))
      × (capacity_at k (release_amount a m) ≡ capacity_at k m)
unfolding release_amount give_back
release_amount_lem k a m = elim (Option-cases (find (key_of a) m)) [
  | inl n ↦ rw (n, release_amount) (ground (arith, find-subst (key_of a) k m))
  | inr (acc, q) ↦
      rw (q, release_amount) (ground (arith, account-upsert (key_of a) k (give_back a) m))
]

pub capacity-release_all :
    (k : Key) (xs : List ResourceAmount) (m : Accounts)
    → capacity_at k (release_all xs m) ≡ capacity_at k m
unfolding release_all
capacity-release_all k [] m = refl
capacity-release_all k (a ∷ rest) m =
    capacity-release_all k rest (release_amount a m) ∙ (release_amount_lem k a m).1

-- Every account gives back the total of its key, and stops at 0.
pub reserved-release_all :
    (k : Key) (xs : List ResourceAmount) (m : Accounts)
    → reserved_at k (release_all xs m) ≡ reserved_at k m - total k xs
unfolding release_all total
reserved-release_all k [] m = omega arith
reserved-release_all k (a ∷ rest) m =
    omega (arith, reserved-release_all k rest (release_amount a m), (release_amount_lem k a m).0)

pub total-absent : (k : Key) (xs : List ResourceAmount) → has_key k xs ≡ false → total k xs ≡ 0
unfolding total has_key
total-absent k [] h = refl
total-absent k (x ∷ xs) h = ground (arith, total-absent k xs)

fits_account :
    (a : ResourceAmount) (o : Option Account) (c : ℕ)
    → shortfall_in a o ≡ []
    → (or_fresh o).capacity ≡ some c
    → a.amount ≤ c - (or_fresh o).reserved
unfolding shortfall_in
fits_account a none c s q = absurd (cc)
fits_account a (some acc) c s q = elim (Bool-cases (leb a.amount (c - acc.reserved))) [
  | inl le ↦ ground arith
  | inr gt ↦ absurd (ground arith)
]

fits_one :
    (k : Key) (a : ResourceAmount) (m : Accounts) (c : ℕ)
    → shortfall_in a (find (key_of a) m) ≡ []
    → key_eq (key_of a) k ≡ true
    → capacity_at k m ≡ some c
    → a.amount ≤ c - reserved_at k m
fits_one k a m c s e q =
    let same = find-subst (key_of a) k m e in
    rw (same, reserved_at, account_at)
      (fits_account a (find (key_of a) m) c s (ap (λ o. (or_fresh o).capacity) (sym same) ∙ q))

nil_parts : {A : Type 0} (xs ys : List A) → (xs ++ ys) ≡ [] → (xs ≡ []) × (ys ≡ [])
nil_parts [] ys h = (refl, h)
nil_parts (x ∷ xs) ys h = absurd (cc)

-- Where the first pass finds no shortfall, the total of every limited key is available.
pub no_shortfall :
    (k : Key) (xs : List ResourceAmount) (m : Accounts) (c : ℕ)
    → Distinct xs
    → shortfalls xs m ≡ []
    → capacity_at k m ≡ some c
    → total k xs ≤ c - reserved_at k m
unfolding shortfalls total
no_shortfall k [] m c d s q = omega arith
no_shortfall k (a ∷ rest) m c d s q =
    let parts = nil_parts (shortfall_in a (find (key_of a) m)) (shortfalls rest m) s in
    elim (Bool-cases (key_eq (key_of a) k)) [
      | inl same ↦
          let gone : total k rest ≡ 0 =
            ap (λ j. total j rest) (sym (key_eq→eq (key_of a) k same))
            ∙ total-absent (key_of a) rest d.0 in
          rw same (omega (arith, gone, fits_one k a m c parts.0 same q))
      | inr other ↦ rw other (omega (arith, no_shortfall k rest m c d.1 parts.1 q))
    ]
