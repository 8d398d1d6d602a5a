-- ===== src/Ledger/Merge.antt =====
-- MergeAmounts of src/resource_ledger.cpp: it keeps the sum of every key and leaves each key once.
use mathlib.Core.List.{reverse, reverse-cons}
use ge.Prelude.{
  ℕ, ◌+◌, ◌%◌, ◌^◌, ◌≡◌, refl, ap, ◌∙◌, true, false, List, [], ◌∷◌, ◌++◌, if◌then◌else◌, arith,
  Bool-cases, inl, inr,
}
use ge.Ledger.Amounts.{
  Key, ResourceAmount, key_of, key_eq, key_lt, insert_sorted, sort_amounts, merge_step, merge_loop,
  merge_amounts, has_key, key_eq-subst,
}

-- The sum of the amounts of a key.
unfoldable pub total : Key → List ResourceAmount → ℕ
total k [] = 0
total k (a ∷ rest) = (if key_eq (key_of a) k then a.amount else 0) + total k rest

-- Every key stands once.
abbrev pub Distinct : List ResourceAmount → Type 0
Distinct [] = Unit {0}
Distinct (a ∷ rest) = (has_key (key_of a) rest ≡ false) × Distinct rest

pub total-nil : (k : Key) → total k [] ≡ 0
unfolding total
total-nil k = refl

pub total-append :
    (k : Key) (xs ys : List ResourceAmount) → total k (xs ++ ys) ≡ total k xs + total k ys
unfolding total
total-append k [] ys = omega arith
total-append k (x ∷ xs) ys = omega (arith, total-append k xs ys)

total-reverse : (k : Key) (xs : List ResourceAmount) → total k (reverse xs) ≡ total k xs
unfolding total
total-reverse k [] = refl
total-reverse k (x ∷ xs) =
    ap (total k) (reverse-cons x xs)
    ∙ total-append k (reverse xs) (x ∷ [])
    ∙ omega (arith, total-reverse k xs)

total-insert_sorted :
    (k : Key) (a : ResourceAmount) (xs : List ResourceAmount)
    → total k (insert_sorted a xs) ≡ total k (a ∷ xs)
unfolding total insert_sorted
total-insert_sorted k a [] = refl
total-insert_sorted k a (x ∷ xs) = elim (Bool-cases (key_lt (key_of x) (key_of a))) [
  | inl lt ↦ rw lt (omega (arith, total-insert_sorted k a xs))
  | inr ge ↦ rw ge refl
]

pub total-sort_amounts :
    (k : Key) (xs : List ResourceAmount) → total k (sort_amounts xs) ≡ total k xs
unfolding total sort_amounts
total-sort_amounts k [] = refl
total-sort_amounts k (x ∷ xs) =
    total-insert_sorted k x (sort_amounts xs) ∙ omega (arith, total-sort_amounts k xs)

total-merge_step :
    (k : Key) (out : List ResourceAmount) (a : ResourceAmount)
    → total k (merge_step out a) % 2 ^ 64 ≡ (total k out + total k (a ∷ [])) % 2 ^ 64
unfolding total merge_step
total-merge_step k [] a = ground arith
total-merge_step k (b ∷ bs) a = ground (arith, key_eq-subst (key_of b) (key_of a) k)

pub total-merge_loop :
    (k : Key) (out xs : List ResourceAmount)
    → total k (merge_loop out xs) % 2 ^ 64 ≡ (total k out + total k xs) % 2 ^ 64
unfolding total merge_loop
total-merge_loop k out [] = omega (arith, total-reverse k out)
total-merge_loop k out (a ∷ rest) =
    omega (arith, total-merge_loop k (merge_step out a) rest, total-merge_step k out a)

-- The order of the keys.
pub key_lt_trans : (i j k : Key) → key_lt i j ≡ true → key_lt j k ≡ true → key_lt i k ≡ true
unfolding key_lt
key_lt_trans i j k p q = ground arith

pub key_lt-ne : (i j : Key) → key_lt i j ≡ true → key_eq i j ≡ false
unfolding key_lt key_eq
key_lt-ne i j p = ground arith

pub key_cases : (i j : Key) → key_lt j i ≡ false → key_eq i j ≡ false → key_lt i j ≡ true
unfolding key_lt key_eq
key_cases i j p q = ground arith

pub total-merge_amounts :
    (k : Key) (xs : List ResourceAmount) → total k (merge_amounts xs) % 2 ^ 64 ≡ total k xs % 2 ^ 64
unfolding merge_amounts
total-merge_amounts k xs =
    omega (arith, total-merge_loop k [] (sort_amounts xs), total-sort_amounts k xs, total-nil k)
