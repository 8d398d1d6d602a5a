-- ===== src/Applier/Tracks.antt =====
-- The lists of added and removed ids that src/mutation_applier.cpp keeps beside the changed graph.
use ge.Prelude.{
  ℕ, ◌+◌, ◌-◌, ◌≤◌, ◌≡◌, refl, sym, ap, ◌∙◌, Bool, true, false, not, ◌&&◌, ◌||◌, List, [], ◌∷◌,
  ◌++◌, ltb, if◌then◌else◌, Text, text_eq, text_eq→eq, arith, Bool-cases, inl, inr,
}
use ge.Applier.State.{mem}
use ge.Applier.{erase_id, take_back}

unfoldable pub count : Text → List Text → ℕ
count id [] = 0
count id (x ∷ xs) = (if text_eq x id then 1 else 0) + count id xs

pub mem-count : (id : Text) (xs : List Text) → mem id xs ≡ ltb 0 (count id xs)
unfolding mem count
mem-count id [] = refl
mem-count id (x ∷ xs) = ground (arith, mem-count id xs)

pub count-append :
    (id : Text) (xs : List Text) (y : Text)
    → count id (xs ++ y ∷ []) ≡ count id xs + (if text_eq y id then 1 else 0)
unfolding count
count-append id [] y = ground arith
count-append id (x ∷ xs) y = ground (arith, count-append id xs y)

pub mem-append :
    (id : Text) (xs : List Text) (y : Text) → mem id (xs ++ y ∷ []) ≡ (mem id xs || text_eq y id)
unfolding mem
mem-append id [] y = ground arith
mem-append id (x ∷ xs) y = ground (arith, mem-append id xs y)

pub text_eq-swap : (s t u : Text) → text_eq s t ≡ true → text_eq s u ≡ text_eq t u
text_eq-swap s t u h = ap (λ x. text_eq x u) (text_eq→eq s t h)

-- One of the id is gone, if there was one, and nothing else.
pub count-erase_id :
    (id j : Text) (xs : List Text)
    → count j (erase_id id xs) ≡ count j xs - (if text_eq id j then 1 else 0)
unfolding count erase_id
count-erase_id id j [] = ground arith
count-erase_id id j (x ∷ xs) = elim (Bool-cases (text_eq x id)) [
  | inl h ↦ ground (arith, h, text_eq-swap x id j h)
  | inr h ↦ elim (Bool-cases (text_eq id j)) [
    | inl k ↦
        let e : text_eq x j ≡ false = ap (text_eq x) (sym (text_eq→eq id j k)) ∙ h in
        ground (arith, h, k, e, count-erase_id id j xs)
    | inr k ↦ ground (arith, h, k, count-erase_id id j xs)
  ]
]

-- What is there now is what was there at first and was not removed, or was added. Nothing is added or
-- removed twice; what was added was not there, or was removed; what was removed was there.
abbrev pub Tracks : (Text → Bool) → (Text → Bool) → List Text → List Text → Type 0
Tracks now base added removed =
    (id : Text)
    → (now id ≡ ((base id && not (mem id removed)) || mem id added))
      × ((mem id added && base id && not (mem id removed)) ≡ false)
      × ((mem id removed && not (base id)) ≡ false)
      × (count id added ≤ 1)
      × (count id removed ≤ 1)

pub Tracks-start : (base : Text → Bool) → Tracks base base [] []
unfolding mem count
Tracks-start base id = (ground arith, ground arith, ground arith, ground arith, ground arith)

pub Tracks-same :
    (now next base : Text → Bool) (added removed : List Text)
    → ((id : Text) → next id ≡ now id)
    → Tracks now base added removed
    → Tracks next base added removed
Tracks-same now next base added removed e t id = let u = t id in (e id ∙ u.0, u.1, u.2, u.3, u.4)

pub Tracks-add :
    (now next base : Text → Bool) (added removed : List Text) (x : Text)
    → now x ≡ false
    → ((id : Text) → next id ≡ (now id || text_eq x id))
    → Tracks now base added removed
    → Tracks next base (added ++ x ∷ []) removed
Tracks-add now next base added removed x new e t id =
    let u = t id in
    let m : mem id (added ++ x ∷ []) ≡ (mem id added || text_eq x id) = mem-append id added x in
    elim (Bool-cases (text_eq x id)) [
      | inl h ↦
          let gone : now id ≡ false = ap now (sym (text_eq→eq x id h)) ∙ new in
          (
            ground (arith, e id, m, h),
            ground (arith, gone, u.0, m, h),
            u.2,
            ground (arith, gone, u.0, h, count-append id added x, mem-count id added),
            u.4,
          )
      | inr h ↦ (
        ground (arith, e id, m, h, u.0),
        ground (arith, m, h, u.1),
        u.2,
        ground (arith, h, count-append id added x, u.3),
        u.4,
      )
    ]

Tracks-erase :
    (now next base : Text → Bool) (added removed : List Text) (x : Text)
    → mem x added ≡ true
    → ((id : Text) → next id ≡ (now id && not (text_eq x id)))
    → Tracks now base added removed
    → Tracks next base (erase_id x added) removed
Tracks-erase now next base added removed x there e t id =
    let u = t id in
    let c : count id (erase_id x added) ≡ count id added - (if text_eq x id then 1 else 0) =
      count-erase_id x id added in
    elim (Bool-cases (text_eq x id)) [
      | inl h ↦
          let here : mem id added ≡ true =
            ap (λ y. mem y added) (sym (text_eq→eq x id h)) ∙ there in
          let gone : mem id (erase_id x added) ≡ false =
            ground (arith, c, h, u.3, mem-count id (erase_id x added)) in
          (
            ground (arith, e id, gone, h, here, u.1),
            ground (arith, gone),
            u.2,
            ground (arith, c, h, u.3),
            u.4,
          )
      | inr h ↦
          let same : mem id (erase_id x added) ≡ mem id added =
            ground (arith, c, h, mem-count id (erase_id x added), mem-count id added) in
          (
            ground (arith, e id, same, h, u.0),
            ground (arith, same, u.1),
            u.2,
            ground (arith, c, h, u.3),
            u.4,
          )
    ]

Tracks-drop :
    (now next base : Text → Bool) (added removed : List Text) (x : Text)
    → mem x added ≡ false
    → now x ≡ true
    → ((id : Text) → next id ≡ (now id && not (text_eq x id)))
    → Tracks now base added removed
    → Tracks next base added (removed ++ x ∷ [])
Tracks-drop now next base added removed x old there e t id =
    let u = t id in
    let m : mem id (removed ++ x ∷ []) ≡ (mem id removed || text_eq x id) =
      mem-append id removed x in
    elim (Bool-cases (text_eq x id)) [
      | inl h ↦
          let here : now id ≡ true = ap now (sym (text_eq→eq x id h)) ∙ there in
          let alone : mem id added ≡ false =
            ap (λ y. mem y added) (sym (text_eq→eq x id h)) ∙ old in
          (
            ground (arith, e id, m, h, alone),
            ground (arith, alone),
            ground (arith, here, alone, u.0),
            u.3,
            ground (arith, here, alone, u.0, h, count-append id removed x, mem-count id removed),
          )
      | inr h ↦ (
        ground (arith, e id, m, h, u.0),
        ground (arith, m, h, u.1),
        ground (arith, m, h, u.2),
        u.3,
        ground (arith, h, count-append id removed x, u.4),
      )
    ]

pub Tracks-take_back :
    (now next base : Text → Bool) (added removed : List Text) (x : Text)
    → now x ≡ true
    → ((id : Text) → next id ≡ (now id && not (text_eq x id)))
    → Tracks now base added removed
    → Tracks next base (take_back x added removed).0 (take_back x added removed).1
unfolding take_back
Tracks-take_back now next base added removed x there e t = elim (Bool-cases (mem x added)) [
  | inl h ↦ rw h (Tracks-erase now next base added removed x h e t)
  | inr h ↦ rw h (Tracks-drop now next base added removed x h there e t)
]
