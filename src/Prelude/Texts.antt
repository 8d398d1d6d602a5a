-- ===== src/Prelude/Texts.antt =====
-- Texts as the lists of their bytes, for code that looks into std::string.
use Prim.Native.Nat.{ℕ}
use Prim.Native.Char.{code}
use Prim.Native.String.{String}
use mathlib.Core.Path.{◌≡◌, refl, sym, ap, ap₂, ◌∙◌}
use mathlib.Core.Logic.{◌↔◌, inl, inr}
use mathlib.Core.Bool.{Bool, true, false, ◌&&◌, ◌||◌}
use mathlib.Core.Option
use mathlib.Core.Option.{Option, none, some}
use mathlib.Core.List.{List, [], ◌∷◌, ◌++◌}
use native.Mathlib.Omega.{arith}
use ge.Prelude.Tests.{◌==◌, if◌then◌else◌, Bool-cases, Option-cases}

abbrev pub Text : Type 0
Text = List ℕ

-- The bytes of a text literal.
abbrev pub codes : String → Text
codes String.[] = []
codes (String.◌∷◌ c s) = code c ∷ codes s

unfoldable pub text_eq : Text → Text → Bool
text_eq [] [] = true
text_eq [] (y ∷ ys) = false
text_eq (x ∷ xs) [] = false
text_eq (x ∷ xs) (y ∷ ys) = x == y && text_eq xs ys

pub text_eq→eq : (s t : Text) → text_eq s t ≡ true → s ≡ t
unfolding text_eq
text_eq→eq [] [] h = refl
text_eq→eq [] (y ∷ ys) h = absurd (cc)
text_eq→eq (x ∷ xs) [] h = absurd (cc)
text_eq→eq (x ∷ xs) (y ∷ ys) h =
    let heads : x ≡ y = ground arith in
    let tails : xs ≡ ys = text_eq→eq xs ys (ground arith) in ap₂ ◌∷◌ heads tails

pub text_eq_refl : (s : Text) → text_eq s s ≡ true
unfolding text_eq
text_eq_refl [] = refl
text_eq_refl (x ∷ xs) = ground (arith, text_eq_refl xs)

pub text_eq_iff : (s t : Text) → (text_eq s t ≡ true) ↔ (s ≡ t)
text_eq_iff s t = (text_eq→eq s t, λ e. rw e (text_eq_refl t))

-- The text before the first such byte, and the text after it.
unfoldable pub split_first : ℕ → Text → Option (Text × Text)
split_first c [] = none
split_first c (x ∷ xs) =
    if x == c
    then some ([], xs)
    else Option.map (λ (p : Text × Text). (x ∷ p.0, p.1)) (split_first c xs)

unfoldable pub contains : ℕ → Text → Bool
contains c [] = false
contains c (x ∷ xs) = x == c || contains c xs

-- The split undoes a join, where the byte does not stand in the first text.
pub split_first-append :
    (c : ℕ) (s t : Text) → contains c s ≡ false → split_first c (s ++ c ∷ t) ≡ some (s, t)
unfolding split_first contains
split_first-append c [] t h = ground arith
split_first-append c (x ∷ xs) t h = ground (arith, split_first-append c xs t (ground arith))

pub split_first_lem : (c : ℕ) (t a b : Text) → split_first c t ≡ some (a, b) → t ≡ a ++ c ∷ b
unfolding split_first
split_first_lem c [] a b h = absurd (cc)
split_first_lem c (x ∷ xs) a b h = elim (Bool-cases (x == c)) [
  | inl here ↦
      let e : x ≡ c = ground (arith, here) in
      let p : ◌≡◌ {A = Text × Text} ([], xs) (a, b) = ground (arith, here, h) in
      let q : a ≡ [] = ap (λ (p : Text × Text). p.0) (sym p) in
      let r : b ≡ xs = ap (λ (p : Text × Text). p.1) (sym p) in rw (q, r, e) refl
  | inr there ↦ elim (Option-cases (split_first c xs)) [
    | inl n ↦ absurd (ground (arith, there, n, h))
    | inr ((a', b'), q) ↦
        let p : ◌≡◌ {A = Text × Text} (x ∷ a', b') (a, b) = ground (arith, there, q, h) in
        ap (◌∷◌ x) (split_first_lem c xs a' b' q) ∙ ap (λ (p : Text × Text). p.0 ++ c ∷ p.1) p
  ]
]
