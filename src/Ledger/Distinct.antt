-- ===== src/Ledger/Distinct.antt =====
-- The result of MergeAmounts of src/resource_ledger.cpp names each key once.
use mathlib.Core.List.{reverse, reverse-cons}
use ge.Prelude.{
  ◌%◌, ◌^◌, ◌≡◌, refl, ap, ◌∙◌, true, false, ◌||◌, List, [], ◌∷◌, ◌++◌, arith, Bool-cases, inl, inr,
  ◌==◌,
}
use ge.Ledger.Amounts.{
  Key, ResourceAmount, key_of, key_eq, key_lt, insert_sorted, sort_amounts, merge_step, merge_loop,
  merge_amounts, has_key, key_eq-sym,
}
use ge.Ledger.Merge.{total, total-merge_amounts, Distinct, key_lt_trans, key_lt-ne, key_cases}

-- Strictly falling keys below `k`, and keys that never fall from `k` on.
abbrev Falls : Key → List ResourceAmount → Type 0
Falls k [] = Unit {0}
Falls k (b ∷ bs) = (key_lt (key_of b) k ≡ true) × Falls (key_of b) bs

abbrev Rises : Key → List ResourceAmount → Type 0
Rises k [] = Unit {0}
Rises k (a ∷ rest) = (key_lt (key_of a) k ≡ false) × Rises (key_of a) rest

abbrev Descends : List ResourceAmount → Type 0
Descends [] = Unit {0}
Descends (b ∷ bs) = Falls (key_of b) bs

abbrev Ascends : List ResourceAmount → Type 0
Ascends [] = Unit {0}
Ascends (a ∷ rest) = Rises (key_of a) rest

abbrev Follows : List ResourceAmount → List ResourceAmount → Type 0
Follows [] xs = Ascends xs
Follows (b ∷ bs) xs = Rises (key_of b) xs

not_lt_trans : (i j k : Key) → key_lt j i ≡ false → key_lt k j ≡ false → key_lt k i ≡ false
unfolding key_lt
not_lt_trans i j k p q = ground arith

lt-not_gt : (i j : Key) → key_lt i j ≡ true → key_lt j i ≡ false
unfolding key_lt
lt-not_gt i j p = ground arith

Rises-weaken : (i j : Key) (xs : List ResourceAmount) → key_lt j i ≡ false → Rises j xs → Rises i xs
Rises-weaken i j [] h r = tt
Rises-weaken i j (x ∷ xs) h r = (not_lt_trans i j (key_of x) h r.0, r.1)

Falls-weaken : (i j : Key) (xs : List ResourceAmount) → key_lt i j ≡ true → Falls i xs → Falls j xs
Falls-weaken i j [] h f = tt
Falls-weaken i j (x ∷ xs) h f = (key_lt_trans (key_of x) i j f.0 h, f.1)

Rises-Ascends : (k : Key) (xs : List ResourceAmount) → Rises k xs → Ascends xs
Rises-Ascends k [] r = tt
Rises-Ascends k (x ∷ xs) r = r.1

insert_sorted-Rises :
    (k : Key) (a : ResourceAmount) (xs : List ResourceAmount)
    → key_lt (key_of a) k ≡ false
    → Rises k xs
    → Rises k (insert_sorted a xs)
unfolding insert_sorted
insert_sorted-Rises k a [] h r = (h, tt)
insert_sorted-Rises k a (x ∷ xs) h r = elim (Bool-cases (key_lt (key_of x) (key_of a))) [
  | inl lt ↦
      rw lt (r.0, insert_sorted-Rises (key_of x) a xs (lt-not_gt (key_of x) (key_of a) lt) r.1)
  | inr ge ↦ rw ge (h, (ge, r.1))
]

insert_sorted-Ascends :
    (a : ResourceAmount) (xs : List ResourceAmount) → Ascends xs → Ascends (insert_sorted a xs)
unfolding insert_sorted
insert_sorted-Ascends a [] r = tt
insert_sorted-Ascends a (x ∷ xs) r = elim (Bool-cases (key_lt (key_of x) (key_of a))) [
  | inl lt ↦ rw lt (insert_sorted-Rises (key_of x) a xs (lt-not_gt (key_of x) (key_of a) lt) r)
  | inr ge ↦ rw ge (ge, r)
]

sort_amounts-Ascends : (xs : List ResourceAmount) → Ascends (sort_amounts xs)
unfolding sort_amounts
sort_amounts-Ascends [] = tt
sort_amounts-Ascends (x ∷ xs) = insert_sorted-Ascends x (sort_amounts xs) (sort_amounts-Ascends xs)

has_key-append :
    (k : Key) (xs ys : List ResourceAmount) → has_key k (xs ++ ys) ≡ (has_key k xs || has_key k ys)
unfolding has_key
has_key-append k [] ys = refl
has_key-append k (x ∷ xs) ys = ground (arith, has_key-append k xs ys)

has_key-reverse : (k : Key) (xs : List ResourceAmount) → has_key k (reverse xs) ≡ has_key k xs
unfolding has_key
has_key-reverse k [] = refl
has_key-reverse k (x ∷ xs) =
    ap (has_key k) (reverse-cons x xs)
    ∙ has_key-append k (reverse xs) (x ∷ [])
    ∙ ground (arith, has_key-reverse k xs)

Distinct-append_one :
    (xs : List ResourceAmount) (y : ResourceAmount)
    → Distinct xs
    → has_key (key_of y) xs ≡ false
    → Distinct (xs ++ y ∷ [])
unfolding has_key
Distinct-append_one [] y d h = (refl, tt)
Distinct-append_one (x ∷ xs) y d h = (
  has_key-append (key_of x) xs (y ∷ []) ∙ ground (arith, d.0, key_eq-sym (key_of x) (key_of y)),
  Distinct-append_one xs y d.1 (ground arith),
)

Falls-has_key : (k : Key) (xs : List ResourceAmount) → Falls k xs → has_key k xs ≡ false
unfolding has_key
Falls-has_key k [] f = refl
Falls-has_key k (x ∷ xs) f =
    ground
      (arith, key_lt-ne (key_of x) k f.0, Falls-has_key k xs (Falls-weaken (key_of x) k xs f.0 f.1))

Descends-Distinct : (xs : List ResourceAmount) → Descends xs → Distinct (reverse xs)
Descends-Distinct [] f = tt
Descends-Distinct (x ∷ xs) f = rw (reverse-cons x xs) (
    Distinct-append_one (reverse xs) x (Descends-Distinct xs (tail_descends xs f))
      (has_key-reverse (key_of x) xs ∙ Falls-has_key (key_of x) xs f))
  where
    tail_descends : (ys : List ResourceAmount) → Falls (key_of x) ys → Descends ys
    tail_descends [] g = tt
    tail_descends (y ∷ ys) g = g.1

-- One round keeps the merged entries strictly falling, and the rest behind them.
merge_step-Descends :
    (out : List ResourceAmount) (a : ResourceAmount) (rest : List ResourceAmount)
    → Descends out
    → Follows out (a ∷ rest)
    → Descends (merge_step out a) × Follows (merge_step out a) rest
unfolding merge_step
merge_step-Descends [] a rest d f = elim (Bool-cases (a.amount == 0)) [
  | inl z ↦ rw z (tt, Rises-Ascends (key_of a) rest f)
  | inr n ↦ rw n (tt, f)
]
merge_step-Descends (b ∷ bs) a rest d f =
    let behind = Rises-weaken (key_of b) (key_of a) rest f.0 f.1 in
    elim (Bool-cases (a.amount == 0)) [
      | inl z ↦ rw z (d, behind)
      | inr n ↦ elim (Bool-cases (key_eq (key_of b) (key_of a))) [
        | inl same ↦ rw (n, same) (d, behind)
        | inr other ↦ rw (n, other) ((key_cases (key_of b) (key_of a) f.0 other, d), f.1)
      ]
    ]

merge_loop-Distinct :
    (out xs : List ResourceAmount) → Descends out → Follows out xs → Distinct (merge_loop out xs)
unfolding merge_loop
merge_loop-Distinct out [] d f = Descends-Distinct out d
merge_loop-Distinct out (a ∷ rest) d f =
    let s = merge_step-Descends out a rest d f in
    merge_loop-Distinct (merge_step out a) rest s.0 s.1

pub merge_amounts-Distinct : (xs : List ResourceAmount) → Distinct (merge_amounts xs)
unfolding merge_amounts
merge_amounts-Distinct xs = merge_loop-Distinct [] (sort_amounts xs) tt (sort_amounts-Ascends xs)

-- MergeAmounts names each key once, and keeps the sum of every key up to the 64-bit wrap.
pub merge_amounts_lem :
    (xs : List ResourceAmount)
    → Distinct (merge_amounts xs)
      × ((k : Key) → total k (merge_amounts xs) % 2 ^ 64 ≡ total k xs % 2 ^ 64)
merge_amounts_lem xs = (merge_amounts-Distinct xs, λ k. total-merge_amounts k xs)
