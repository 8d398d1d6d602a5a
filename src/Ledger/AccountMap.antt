-- ===== src/Ledger/AccountMap.antt =====
-- The map of accounts of src/resource_ledger.cpp, in the order of its keys.
use ge.Prelude.{
  ℕ, ◌≡◌, refl, Option, none, some, List, [], ◌∷◌, if◌then◌else◌, arith, Bool-cases, Option-cases,
  inl, inr,
}
use ge.Ledger.Amounts.{Key, key_eq, key_lt, key_eq-subst, key_eq-subst_right}

-- No capacity is an unlimited account.
pub record Account : Type 0 where
  pub capacity : Option ℕ
  pub reserved : ℕ
  pub peak : ℕ

abbrev pub Accounts : Type 0
Accounts = List (Key × Account)

abbrev pub fresh : Account
fresh = record { capacity = none; reserved = 0; peak = 0 }

unfoldable pub find : Key → Accounts → Option Account
find k [] = none
find k ((j, a) ∷ m) = if key_eq j k then some a else find k m

-- An entry that is there is changed in place.
unfoldable pub modify : Key → (Account → Account) → Accounts → Accounts
modify k f [] = []
modify k f ((j, a) ∷ m) = if key_eq j k then (j, f a) ∷ m else (j, a) ∷ modify k f m

-- A new entry goes before the first greater key.
unfoldable pub insert_entry : Key → Account → Accounts → Accounts
insert_entry k a [] = (k, a) ∷ []
insert_entry k a ((j, b) ∷ m) =
    if key_lt k j then (k, a) ∷ (j, b) ∷ m else (j, b) ∷ insert_entry k a m

-- A change through `accounts_[k]`, which makes a fresh account where there is none.
unfoldable pub upsert : Key → (Account → Account) → Accounts → Accounts
upsert k f m = elim (find k m) [ none ↦ insert_entry k (f fresh) m | some a ↦ modify k f m ]

abbrev pub or_fresh : Option Account → Account
or_fresh none = fresh
or_fresh (some a) = a

find-modify :
    (k j : Key) (f : Account → Account) (m : Accounts) (a : Account)
    → find k m ≡ some a
    → find j (modify k f m) ≡ (if key_eq k j then some (f a) else find j m)
unfolding modify find
find-modify k j f [] a h = absurd (cc)
find-modify k j f ((i, b) ∷ m) a h =
    ground (arith, key_eq-subst i k j, key_eq-subst_right i k j, find-modify k j f m a)

find-insert_entry :
    (k j : Key) (a : Account) (m : Accounts)
    → find k m ≡ none
    → find j (insert_entry k a m) ≡ (if key_eq k j then some a else find j m)
unfolding insert_entry find
find-insert_entry k j a [] h = refl
find-insert_entry k j a ((i, b) ∷ m) h = elim (Bool-cases (key_lt k i)) [
  | inl lt ↦ rw lt refl
  | inr ge ↦ rw ge (ground (arith, key_eq-subst_right i k j, find-insert_entry k j a m))
]

-- Only the account of the key changes, from the one that was there or a fresh one.
pub find-upsert :
    (k j : Key) (f : Account → Account) (m : Accounts)
    → find j (upsert k f m) ≡ (if key_eq k j then some (f (or_fresh (find k m))) else find j m)
unfolding upsert
find-upsert k j f m = elim (Option-cases (find k m)) [
  | inl n ↦ rw (n, upsert) (find-insert_entry k j (f fresh) m n)
  | inr (a, q) ↦ rw (q, upsert) (find-modify k j f m a q)
]
