-- ===== src/Ledger/Amounts.antt =====
-- Resource kinds, amounts and MergeAmounts of src/resource_ledger.cpp.
use mathlib.Core.List.{reverse}
use ge.Prelude.{
  ℕ, ◌+◌, ◌%◌, ◌^◌, ◌≡◌, ap, Bool, true, false, ◌&&◌, ◌||◌, List, [], ◌∷◌, ltb, ◌==◌, if◌then◌else◌,
  arith,
}
use ge.Prelude.Int.{ℤ, pos_part, neg_part}

pub data ResourceKind : Type 0 where
  cpu_threads host_memory pinned_memory gpu_memory cuda_streams nvdec_sessions nvenc_sessions
        edge_buffer_bytes :
      ResourceKind

-- The enumerator's value, by which kinds are ordered.
unfoldable pub kind_index : ResourceKind → ℕ
kind_index cpu_threads = 0
kind_index host_memory = 1
kind_index pinned_memory = 2
kind_index gpu_memory = 3
kind_index cuda_streams = 4
kind_index nvdec_sessions = 5
kind_index nvenc_sessions = 6
kind_index edge_buffer_bytes = 7

unfoldable pub is_per_device : ResourceKind → Bool
is_per_device gpu_memory = true
is_per_device cuda_streams = true
is_per_device nvdec_sessions = true
is_per_device nvenc_sessions = true
is_per_device _ = false

pub record Key : Type 0 where
  pub kind : ResourceKind
  pub device_id : ℤ

pub record ResourceAmount : Type 0 where
  pub kind : ResourceKind
  pub device_id : ℤ
  pub amount : ℕ

abbrev pub key_of : ResourceAmount → Key
key_of a = record { kind = a.kind; device_id = a.device_id }

abbrev device_eq : ℤ → ℤ → Bool
device_eq a b = pos_part a == pos_part b && neg_part a == neg_part b

abbrev device_lt : ℤ → ℤ → Bool
device_lt a b = ltb (pos_part a + neg_part b) (pos_part b + neg_part a)

unfoldable pub key_eq : Key → Key → Bool
key_eq k l = kind_index k.kind == kind_index l.kind && device_eq k.device_id l.device_id

-- By kind, then by device.
unfoldable pub key_lt : Key → Key → Bool
key_lt k l =
    ltb (kind_index k.kind) (kind_index l.kind)
    || (kind_index k.kind == kind_index l.kind && device_lt k.device_id l.device_id)

-- std::sort by key: any sorted permutation serves, since entries of one key are summed.
unfoldable pub insert_sorted : ResourceAmount → List ResourceAmount → List ResourceAmount
insert_sorted a [] = a ∷ []
insert_sorted a (b ∷ bs) =
    if key_lt (key_of b) (key_of a) then b ∷ insert_sorted a bs else a ∷ b ∷ bs

unfoldable pub sort_amounts : List ResourceAmount → List ResourceAmount
sort_amounts [] = []
sort_amounts (a ∷ rest) = insert_sorted a (sort_amounts rest)

-- One round of the merging loop. The head of `out` is the back of the vector.
unfoldable pub merge_step : List ResourceAmount → ResourceAmount → List ResourceAmount
merge_step [] a = if a.amount == 0 then [] else a ∷ []
merge_step (b ∷ bs) a =
    if a.amount == 0
    then b ∷ bs
    else if key_eq (key_of b) (key_of a)
    then record b { amount = (b.amount + a.amount) % 2 ^ 64 } ∷ bs
    else a ∷ b ∷ bs

unfoldable pub merge_loop : List ResourceAmount → List ResourceAmount → List ResourceAmount
merge_loop out [] = reverse out
merge_loop out (a ∷ rest) = merge_loop (merge_step out a) rest

unfoldable pub merge_amounts : List ResourceAmount → List ResourceAmount
merge_amounts amounts = merge_loop [] (sort_amounts amounts)

-- The amount of the first entry of a key, 0 if there is none.
unfoldable pub amount_at : Key → List ResourceAmount → ℕ
amount_at k [] = 0
amount_at k (a ∷ rest) = if key_eq (key_of a) k then a.amount else amount_at k rest

unfoldable pub has_key : Key → List ResourceAmount → Bool
has_key k [] = false
has_key k (a ∷ rest) = key_eq (key_of a) k || has_key k rest

kind_index-injective : (k l : ResourceKind) → kind_index k ≡ kind_index l → k ≡ l
unfolding kind_index
kind_index-injective k l h = ground arith

device_eq→eq : (a b : ℤ) → device_eq a b ≡ true → a ≡ b
device_eq→eq a b h = ground arith

device_eq_refl : (a : ℤ) → device_eq a a ≡ true
device_eq_refl a = ground arith

pub key_eq→eq : (k l : Key) → key_eq k l ≡ true → k ≡ l
unfolding key_eq
key_eq→eq k l h =
    let kinds : k.kind ≡ l.kind = kind_index-injective k.kind l.kind (ground arith) in
    let devices : k.device_id ≡ l.device_id = device_eq→eq k.device_id l.device_id (ground arith) in
    λ i. record { kind = kinds i; device_id = devices i }

pub key_eq_refl : (k : Key) → key_eq k k ≡ true
unfolding key_eq
key_eq_refl k = ground (arith, device_eq_refl k.device_id)

pub key_eq-sym : (k l : Key) → key_eq k l ≡ key_eq l k
unfolding key_eq
key_eq-sym k l = ground arith

-- Two keys that are equal to the test are one in every other test.
pub key_eq-subst : (k l j : Key) → key_eq k l ≡ true → key_eq k j ≡ key_eq l j
key_eq-subst k l j h = ap (λ (x : Key). key_eq x j) (key_eq→eq k l h)

pub key_eq-subst_right : (i k j : Key) → key_eq k j ≡ true → key_eq i k ≡ key_eq i j
key_eq-subst_right i k j h = ap (key_eq i) (key_eq→eq k j h)
