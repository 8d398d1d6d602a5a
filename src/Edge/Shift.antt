-- ===== src/Edge/Shift.antt =====
-- The shift loop of edge_channel.cpp, which closes the gap that an evicted packet leaves.
use native.Mathlib.Nat.{mod-add-mod}
use ge.Prelude.{
  ℕ, zero, suc, ◌+◌, ◌-◌, ◌%◌, ◌^◌, ◌≤◌, ◌<◌, ◌≡◌, refl, sym, ap, ap₂, ◌∙◌, ◌≢◌, none, List, ◌∷◌,
  arith, add32, length, get_or, length-set, get_or-set_self, get_or-set_ne,
}
use ge.Packet.{PacketRef}
use ge.Edge.{move_slot, shift_down}
use ge.Edge.Window.{window, slot-lt, slot-ne, slot_step, slot_full, slot_zero, window-set_outside}

pub length-move_slot : (ring : List PacketRef) (i j : ℕ) → length (move_slot ring i j) ≡ length ring
unfolding move_slot
length-move_slot ring i j = length-set _ j none ∙ length-set ring i _

pub length-shift_down :
    (fuel : ℕ) (ring : List PacketRef) (i last : ℕ)
    → length (shift_down fuel ring i last) ≡ length ring
unfolding shift_down
length-shift_down zero ring i last = refl
length-shift_down (suc fuel) ring i last =
    let j = add32 i 1 % length ring in
    ground (arith, length-shift_down fuel (move_slot ring i j) j last, length-move_slot ring i j)

shift_down_stop :
    (fuel : ℕ) (ring : List PacketRef) (i last : ℕ) → i ≡ last → shift_down fuel ring i last ≡ ring
unfolding shift_down
shift_down_stop zero ring i last e = refl
shift_down_stop (suc fuel) ring i last e = ground arith

get_or-move_slot :
    (ring : List PacketRef) (i j x : ℕ)
    → i ≢ x
    → j ≢ x
    → get_or (move_slot ring i j) x none ≡ get_or ring x none
unfolding move_slot
get_or-move_slot ring i j x hi hj =
    get_or-set_ne _ j x none none hj ∙ get_or-set_ne ring i x _ none hi

get_or-move_slot_self :
    (ring : List PacketRef) (i j : ℕ)
    → i < length ring
    → i ≢ j
    → get_or (move_slot ring i j) i none ≡ get_or ring j none
unfolding move_slot
get_or-move_slot_self ring i j hi ne =
    get_or-set_ne _ j i none none (λ e. ne (sym e)) ∙ get_or-set_self ring i _ none hi

module _ (c : ℕ) where
  -- `add32` does not wrap for the slots of a ring of at most 2^31 places.
  pub next_slot : (i : ℕ) → c ≤ 2 ^ 31 → i < c → add32 i 1 % c ≡ (i + 1) % c
  next_slot i hc hi = ap (λ (n : ℕ). n % c) (omega arith)

  pub slot_back : (h : ℕ) → h < c → ((h + 1) % c + (c - 1)) % c ≡ h
  slot_back h hh =
      slot_step c h (c - 1)
      ∙ (let e : h + suc (c - 1) ≡ h + c = omega arith in ap (λ (n : ℕ). n % c) e)
      ∙ slot_full c h hh

  slot_back_two : (h : ℕ) → h < c → 1 < c → (((h + 1) % c + 1) % c + (c - 2)) % c ≡ h
  slot_back_two h hh hc =
      slot_step c ((h + 1) % c) (c - 2)
      ∙ (let e : (h + 1) % c + suc (c - 2) ≡ (h + 1) % c + (c - 1) = omega arith in
          ap (λ (n : ℕ). n % c) e)
      ∙ slot_back h hh

  shift_down_go :
      (fuel : ℕ) (ring : List PacketRef) (i last : ℕ)
      → c ≡ length ring
      → c ≤ 2 ^ 31
      → i < c
      → i ≢ last
      → shift_down (suc fuel) ring i last
        ≡ shift_down fuel (move_slot ring i ((i + 1) % c)) ((i + 1) % c) last
  unfolding shift_down
  shift_down_go fuel ring i last hc hs hi ne = rw (← next_slot i hs hi, hc) (ground arith)

  -- The move of the slot behind `i` into slot `i` touches no slot of a window that starts behind it.
  window-move_slot :
      (ring : List PacketRef) (i n : ℕ)
      → i < c
      → n + 1 < c
      → window (move_slot ring i ((i + 1) % c)) c (((i + 1) % c + 1) % c) n
        ≡ window ring c (((i + 1) % c + 1) % c) n
  unfolding move_slot
  window-move_slot ring i n hi hn =
      let hj = slot-lt c i 1 hi in
      let hk = slot-lt c ((i + 1) % c) 1 hj in
      window-set_outside c _ none ((i + 1) % c) (((i + 1) % c + 1) % c) (c - 1) n
        (sym (slot_back ((i + 1) % c) hj)) hk (omega arith) (omega arith)
      ∙ window-set_outside c ring _ i (((i + 1) % c + 1) % c) (c - 2) n
          (sym (slot_back_two i hi (omega arith))) hk (omega arith) (omega arith)

  -- The loop changes no slot but the `n + 1` from `i` on.
  pub get_or-shift_down :
      (fuel : ℕ) (ring : List PacketRef) (i n last x m : ℕ)
      → c ≡ length ring
      → c ≤ 2 ^ 31
      → i < c
      → n ≤ fuel
      → last ≡ (i + n) % c
      → x ≡ (i + m) % c
      → n < m
      → m < c
      → get_or (shift_down fuel ring i last) x none ≡ get_or ring x none
  get_or-shift_down fuel ring i zero last x m hc hs hi hf e ex hn hm =
      ap (λ r. get_or r x none) (shift_down_stop fuel ring i last (sym (e ∙ slot_zero c i hi)))
  get_or-shift_down zero ring i (suc n) last x m hc hs hi hf e ex hn hm = absurd (omega arith)
  get_or-shift_down (suc fuel) ring i (suc n) last x m hc hs hi hf e ex hn hm =
      let j = (i + 1) % c in
      let hj = slot-lt c i 1 hi in
      let back : x ≡ (j + (m - 1)) % c =
        ex
        ∙ (let e' : i + m ≡ i + suc (m - 1) = omega arith in ap (λ (n : ℕ). n % c) e')
        ∙ sym (slot_step c i (m - 1)) in
      let i-ne : i ≢ x = λ q. slot-ne c i m hi (omega arith) hm (sym (q ∙ ex)) in
      let j-ne : j ≢ x = λ q. slot-ne c j (m - 1) hj (omega arith) (omega arith) (sym (q ∙ back)) in
      ap (λ r. get_or r x none)
        (shift_down_go fuel ring i last hc hs hi
          (λ q. slot-ne c i (suc n) hi (omega arith) (omega arith) (sym (q ∙ e))))
      ∙ get_or-shift_down fuel (move_slot ring i j) j n last x (m - 1)
          (hc ∙ sym (length-move_slot ring i j)) hs hj (omega arith) (e ∙ sym (slot_step c i n))
          back (omega arith) (omega arith)
      ∙ get_or-move_slot ring i j x i-ne j-ne

  -- After the loop with fuel enough the `n` packets behind slot `i` stand one slot lower.
  pub window-shift_down :
      (fuel : ℕ) (ring : List PacketRef) (i n last : ℕ)
      → c ≡ length ring
      → c ≤ 2 ^ 31
      → i < c
      → n < c
      → n ≤ fuel
      → last ≡ (i + n) % c
      → window (shift_down fuel ring i last) c i n ≡ window ring c ((i + 1) % c) n
  window-shift_down fuel ring i zero last hc hs hi hn hf e = refl
  window-shift_down zero ring i (suc n) last hc hs hi hn hf e = absurd (omega arith)
  window-shift_down (suc fuel) ring i (suc n) last hc hs hi hn hf e =
      let j = (i + 1) % c in
      let hj = slot-lt c i 1 hi in
      let hl = hc ∙ sym (length-move_slot ring i j) in
      let ej = e ∙ sym (slot_step c i n) in
      let go =
        shift_down_go fuel ring i last hc hs hi
          (λ q. slot-ne c i (suc n) hi (omega arith) hn (sym (q ∙ e))) in
      ap₂ ◌∷◌
        (ap (λ r. get_or r i none) go
          ∙ get_or-shift_down fuel (move_slot ring i j) j n last i (c - 1) hl hs hj (omega arith) ej
              (sym (slot_back i hi)) (omega arith) (omega arith)
          ∙ get_or-move_slot_self ring i j (omega arith)
              (λ q. slot-ne c i 1 hi (omega arith) (omega arith) (sym q)))
        (ap (λ r. window r c j n) go
          ∙ window-shift_down fuel (move_slot ring i j) j n last hl hs hj (omega arith)
              (omega arith) ej
          ∙ window-move_slot ring i n hi (omega arith))

  -- Nor does it touch a window that ends before slot `i`.
  pub window-shift_down_before :
      (fuel : ℕ) (ring : List PacketRef) (h k i n last : ℕ)
      → c ≡ length ring
      → c ≤ 2 ^ 31
      → h < c
      → i ≡ (h + k) % c
      → n ≤ fuel
      → k + n < c
      → last ≡ (i + n) % c
      → window (shift_down fuel ring i last) c h k ≡ window ring c h k
  window-shift_down_before fuel ring h zero i n last hc hs hh ei hf hk e = refl
  window-shift_down_before fuel ring h (suc k) i n last hc hs hh ei hf hk e =
      let around : h ≡ (i + (c - suc k)) % c = sym (
        rw (ei, mod-add-mod)
          (let e' : h + suc k + (c - suc k) ≡ h + c = omega arith in
            ap (λ (n : ℕ). n % c) e' ∙ slot_full c h hh)) in
      ap₂ ◌∷◌
        (get_or-shift_down fuel ring i n last h (c - suc k) hc hs (rw ei (slot-lt c h (suc k) hh))
          hf e around (omega arith) (omega arith))
        (window-shift_down_before fuel ring ((h + 1) % c) k i n last hc hs (slot-lt c h 1 hh)
          (ei ∙ sym (slot_step c h k)) hf (omega arith) e)
