-- ===== src/Ledger/Deltas.antt =====
-- What CommitLease of src/resource_ledger.cpp computes to take and to give back, key by key.
use ge.Prelude.{
  ◌+◌, ◌-◌, ◌≤◌, ◌≡◌, refl, sym, ap, ◌∙◌, true, false, List, [], ◌∷◌, ◌++◌, if◌then◌else◌, arith,
  Bool-cases, inl, inr, ltb,
}
use ge.Ledger.Amounts.{Key, ResourceAmount, key_of, key_eq, has_key, amount_at, key_eq→eq}
use ge.Ledger.{growth, shrinkage, unnamed}
use ge.Ledger.Merge.{total, Distinct, total-append}
use ge.Ledger.Totals.{total-absent}

amount_at-absent : (k : Key) (xs : List ResourceAmount) → has_key k xs ≡ false → amount_at k xs ≡ 0
unfolding amount_at has_key
amount_at-absent k [] h = refl
amount_at-absent k (x ∷ xs) h = ground (arith, amount_at-absent k xs)

absent-subst :
    (i k : Key) (xs : List ResourceAmount)
    → key_eq i k ≡ true
    → has_key i xs ≡ false
    → has_key k xs ≡ false
absent-subst i k xs e h = ap (λ j. has_key j xs) (sym (key_eq→eq i k e)) ∙ h

amount-subst :
    (i k : Key) (xs : List ResourceAmount) → key_eq i k ≡ true → amount_at i xs ≡ amount_at k xs
amount-subst i k xs e = ap (λ j. amount_at j xs) (key_eq→eq i k e)

-- Where a key stands once, its amount is its total.
pub total-eq-amount_at :
    (k : Key) (xs : List ResourceAmount) → Distinct xs → total k xs ≡ amount_at k xs
unfolding total amount_at
total-eq-amount_at k [] d = refl
total-eq-amount_at k (x ∷ xs) d = elim (Bool-cases (key_eq (key_of x) k)) [
  | inl same ↦ rw same (omega (arith, total-absent k xs (absent-subst (key_of x) k xs same d.0)))
  | inr other ↦ rw other (omega (arith, total-eq-amount_at k xs d.1))
]

pub total-growth :
    (k : Key) (current merged : List ResourceAmount)
    → Distinct merged
    → total k (growth current merged) ≡ amount_at k merged - amount_at k current
unfolding total amount_at growth
total-growth k current [] d = omega arith
total-growth k current (a ∷ rest) d = elim (Bool-cases (key_eq (key_of a) k)) [
  | inl same ↦
      let gone = amount_at-absent k rest (absent-subst (key_of a) k rest same d.0) in
      ground (arith, gone, total-growth k current rest d.1, amount-subst (key_of a) k current same)
  | inr other ↦ ground (arith, total-growth k current rest d.1)
]

pub total-shrinkage :
    (k : Key) (current merged : List ResourceAmount)
    → Distinct merged
    → total k (shrinkage current merged)
      ≡ (if has_key k merged then amount_at k current - amount_at k merged else 0)
unfolding total amount_at shrinkage has_key
total-shrinkage k current [] d = refl
total-shrinkage k current (a ∷ rest) d = elim (Bool-cases (key_eq (key_of a) k)) [
  | inl same ↦
      let gone = absent-subst (key_of a) k rest same d.0 in
      ground
        (arith, gone, total-shrinkage k current rest d.1, amount-subst (key_of a) k current same)
  | inr other ↦ ground (arith, total-shrinkage k current rest d.1)
]

pub total-unnamed :
    (k : Key) (current actual : List ResourceAmount)
    → total k (unnamed current actual) ≡ (if has_key k actual then 0 else total k current)
unfolding total unnamed
total-unnamed k [] actual = ground arith
total-unnamed k (c ∷ rest) actual = elim (Bool-cases (key_eq (key_of c) k)) [
  | inl same ↦
      let known : has_key (key_of c) actual ≡ has_key k actual =
        ap (λ j. has_key j actual) (key_eq→eq (key_of c) k same) in
      ground (arith, known, total-unnamed k rest actual)
  | inr other ↦ ground (arith, total-unnamed k rest actual)
]

has_key-growth :
    (k : Key) (current merged : List ResourceAmount)
    → has_key k merged ≡ false
    → has_key k (growth current merged) ≡ false
unfolding has_key growth
has_key-growth k current [] h = refl
has_key-growth k current (a ∷ rest) h = ground (arith, has_key-growth k current rest)

pub growth-Distinct :
    (current merged : List ResourceAmount) → Distinct merged → Distinct (growth current merged)
unfolding growth
growth-Distinct current [] d = tt
growth-Distinct current (a ∷ rest) d =
    elim (Bool-cases (ltb (amount_at (key_of a) current) a.amount)) [
      | inl more ↦
          rw more (has_key-growth (key_of a) current rest d.0, growth-Distinct current rest d.1)
      | inr less ↦ rw less (growth-Distinct current rest d.1)
    ]

-- Taking the growth and giving back the shrinkage and the unnamed turns the amounts of a lease into
-- the new ones.
pub commit_total :
    (k : Key) (current merged : List ResourceAmount)
    → Distinct current
    → Distinct merged
    → total k current + total k (growth current merged)
      ≡ total k merged + total k (shrinkage current merged ++ unnamed current merged)
commit_total k current merged dc dm =
    let split = total-append k (shrinkage current merged) (unnamed current merged) in
    ground (
      arith,
      split,
      total-growth k current merged dm,
      total-shrinkage k current merged dm,
      total-unnamed k current merged,
      total-eq-amount_at k current dc,
      total-eq-amount_at k merged dm,
      amount_at-absent k merged,
    )

pub growth-le :
    (k : Key) (current merged : List ResourceAmount)
    → Distinct merged
    → total k (growth current merged) ≤ total k merged
growth-le k current merged d =
    omega (arith, total-growth k current merged d, total-eq-amount_at k merged d)
