-- ===== src/Operation/Trim.antt =====
-- The loop of src/operation.cpp that forgets the oldest terminal records.
use ge.Prelude.{
  ℕ, ◌≤◌, ◌≡◌, subst, true, false, Bool, ◌||◌, Option, none, some, List, [], ◌∷◌, ◌++◌, ltb, length,
  arith, inl, inr, Bool-cases, if_cases, if◌then◌else◌, ◌==◌,
}
use ge.Operation.{OperationRecord, Records, is_terminal, put, trim}

unfoldable pub member : ℕ → List ℕ → Bool
member i [] = false
member i (x ∷ xs) = i == x || member i xs

abbrev pub is_live : Option OperationRecord → Bool
is_live none = false
is_live (some r) = if is_terminal r.state then false else true

-- The record is not terminal or its id is in the list.
abbrev pub Listed : Bool → Option OperationRecord → Type 0
Listed b none = Unit {0}
Listed b (some r) = is_terminal r.state ≡ true → b ≡ true

pub member-append :
    (j : ℕ) (xs : List ℕ) (i : ℕ) → member j (xs ++ i ∷ []) ≡ (member j xs || j == i)
unfolding member
member-append j [] i = ground arith
member-append j (x ∷ xs) i = ground (arith, member-append j xs i)

pub length-trim : (retain : ℕ) (xs : List ℕ) (m : Records) → length (trim retain xs m).0 ≤ retain
unfolding trim
length-trim retain [] m = omega arith
length-trim retain (i ∷ rest) m =
    if_cases (λ (x : List ℕ × Records). length x.0 ≤ retain) (ltb retain (length (i ∷ rest))) _ _
      (λ t. length-trim retain rest (put i none m)) (λ t. ground (arith, t))

-- The loop keeps no id that was not there.
pub member-trim :
    (retain : ℕ) (xs : List ℕ) (m : Records) (j : ℕ)
    → member j (trim retain xs m).0 ≡ true
    → member j xs ≡ true
unfolding trim member
member-trim retain [] m j = λ h. h
member-trim retain (i ∷ rest) m j =
    if_cases (λ (x : List ℕ × Records). member j x.0 ≡ true → (j == i || member j rest) ≡ true)
      (ltb retain (length (i ∷ rest))) _ _
      (λ t h. ground (arith, member-trim retain rest (put i none m) j h)) (λ t h. h)

-- What is left in the map is left in the list.
pub Listed-trim :
    (retain : ℕ) (xs : List ℕ) (m : Records) (j : ℕ)
    → Listed (member j xs) (m j)
    → Listed (member j (trim retain xs m).0) ((trim retain xs m).1 j)
unfolding trim member
Listed-trim retain [] m j h = h
Listed-trim retain (i ∷ rest) m j h =
    if_cases (λ (x : List ℕ × Records). Listed (member j x.0) (x.1 j))
      (ltb retain (length (i ∷ rest))) _ _
      (λ t. Listed-trim retain rest (put i none m) j (elim (Bool-cases (j == i)) [
        | inl e ↦ rw e tt
        | inr e ↦ rw e (subst (λ b. Listed (b || member j rest) (m j)) e h)
      ]))
      (λ t. h)

pub Listed-weaken :
    (b c : Bool) (r : Option OperationRecord) → (b ≡ true → c ≡ true) → Listed b r → Listed c r
Listed-weaken b c none k h = tt
Listed-weaken b c (some r) k h = λ t. k (h t)
