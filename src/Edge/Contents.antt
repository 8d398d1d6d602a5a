-- ===== src/Edge/Contents.antt =====
-- What the parts of edge_channel.cpp do to the packets in the ring, read oldest first.
use native.Mathlib.Nat.{mod-add-mod}
use ge.Prelude.{
  ℕ, zero, suc, ◌+◌, ◌-◌, ◌%◌, ◌^◌, ◌≤◌, ◌<◌, ◌≡◌, refl, sym, ap, ap₂, ◌∙◌, ◌⊎◌, inl, inr, none,
  some, List, [], ◌∷◌, ◌++◌, arith, Bool-cases, length, length-set, get_or, set, add32, ◌==◌,
  erase_idx, erase_idx-append, ==_iff, ==-eq-false,
}
use ge.Packet.{PacketRef, ref_is_eos}
use ge.Edge.{
  EdgeChannel, push_packet, find_victim, evict, drop_head, close_gap, last_index, tail_has_eos,
  shift_down,
}
use ge.Edge.Window.{
  window, length-window, slot-lt, slot-ne, slot_step, slot_zero, window-append, window-set_outside,
  window-set_next,
}
use ge.Edge.Shift.{
  next_slot, slot_back, length-shift_down, window-shift_down, window-shift_down_before,
}
use ge.Edge.Queue.{ends_with_eos, drop_first_data}
use ge.Edge.Inv.{IsRing}

abbrev pub contents : EdgeChannel → List PacketRef
contents e = window e.ring (length e.ring) e.head e.size

pub length-contents : (e : EdgeChannel) → length (contents e) ≡ e.size
length-contents e = length-window e.ring (length e.ring) e.head e.size

pub contents-push_packet :
    (p : PacketRef) (e : EdgeChannel)
    → IsRing e
    → e.size < length e.ring
    → contents (push_packet p e) ≡ contents e ++ p ∷ []
unfolding push_packet
contents-push_packet p e v h =
    let fits : add32 e.head e.size ≡ e.head + e.size = omega arith in
    let one : add32 e.size 1 ≡ e.size + 1 = omega arith in
    rw (one, fits, length-set e.ring ((e.head + e.size) % length e.ring) p)
      (window-set_next (length e.ring) e.ring p e.head e.size refl v.head_in h)

pub ends_with_eos-append :
    (xs : List PacketRef) (x : PacketRef) → ends_with_eos (xs ++ x ∷ []) ≡ ref_is_eos x
unfolding ends_with_eos
ends_with_eos-append [] x = refl
ends_with_eos-append (y ∷ []) x = refl
ends_with_eos-append (y ∷ z ∷ xs) x = ends_with_eos-append (z ∷ xs) x

pub contents-nil : (e : EdgeChannel) → e.size ≡ 0 → contents e ≡ []
contents-nil e z = ap (window e.ring (length e.ring) e.head) z

-- The packets but the newest, and the newest.
contents-last :
    (e : EdgeChannel)
    → IsRing e
    → 0 < e.size
    → contents e
      ≡ window e.ring (length e.ring) e.head (e.size - 1) ++ get_or e.ring (last_index e) none ∷ []
contents-last e v h =
    let c = length e.ring in
    let n : e.size ≡ e.size - 1 + 1 = omega arith in
    let last : (e.head + (e.size - 1)) % c ≡ last_index e = ap (λ (k : ℕ). k % c) (omega arith) in
    ap (window e.ring c e.head) n
    ∙ window-append c e.ring e.head (e.size - 1) 1 v.head_in
    ∙ ap (λ i. window e.ring c e.head (e.size - 1) ++ get_or e.ring i none ∷ []) last

-- TailHasEos reads the newest packet.
pub tail_has_eos-contents :
    (e : EdgeChannel) → IsRing e → tail_has_eos e ≡ ends_with_eos (contents e)
unfolding tail_has_eos ends_with_eos
tail_has_eos-contents e v = elim (Bool-cases (e.size == 0)) [
  | inl z ↦ rw z (sym (ap ends_with_eos (contents-nil e (ground arith))))
  | inr s ↦ rw s (
      sym (
        ap ends_with_eos (contents-last e v (ground arith))
        ∙ ends_with_eos-append (window e.ring (length e.ring) e.head (e.size - 1))
            (get_or e.ring (last_index e) none)))
]

-- What the scan for a victim finds: nothing where all packets are markers, and otherwise the slot of
-- the oldest that is none.
abbrev pub Finds : List PacketRef → ℕ → ℕ → ℕ → Type 0
Finds ring c h n =
    ((find_victim ring h n ≡ none) × (drop_first_data (window ring c h n) ≡ none))
    ⊎ ((k : ℕ) × (k < n)
        × (find_victim ring h n ≡ some ((h + k) % c))
        × (drop_first_data (window ring c h n) ≡ some (erase_idx (window ring c h n) k)))

pub find_victim-Finds :
    (ring : List PacketRef) (c h n : ℕ) → c ≡ length ring → c ≤ 2 ^ 31 → h < c → Finds ring c h n
unfolding find_victim drop_first_data
find_victim-Finds ring c h zero hc hs hh = inl (refl, refl)
find_victim-Finds ring c h (suc n) hc hs hh =
    let j : add32 h 1 % length ring ≡ (h + 1) % c = rw (← hc) (next_slot c h hs hh) in
    elim (Bool-cases (ref_is_eos (get_or ring h none))) [
      | inr other ↦ inr (
        0,
        omega arith,
        rw (other, find_victim) (ap some (sym (slot_zero c h hh))),
        rw other refl,
      )
      | inl eos ↦ elim (find_victim-Finds ring c ((h + 1) % c) n hc hs (slot-lt c h 1 hh)) [
        | inl (a, b) ↦ inl (rw (eos, j) a, rw (eos, b) refl)
        | inr (k, lt, a, b) ↦
            inr (suc k, omega arith, rw (eos, j) (a ∙ ap some (slot_step c h k)), rw (eos, b) refl)
      ]
    ]

module _ (e : EdgeChannel) (v : IsRing e) where
  pub contents-drop_head : 0 < e.size → contents (drop_head e) ≡ erase_idx (contents e) 0
  unfolding drop_head
  contents-drop_head hp =
      let c = length e.ring in
      let j : add32 e.head 1 % c ≡ (e.head + 1) % c = next_slot c e.head v.small v.head_in in
      let n : e.size ≡ suc (e.size - 1) = omega arith in
      rw (length-set e.ring e.head none, j)
        (window-set_outside c e.ring none e.head ((e.head + 1) % c) (c - 1) (e.size - 1)
            (sym (slot_back c e.head v.head_in)) (slot-lt c e.head 1 v.head_in) (omega arith)
            (omega arith)
          ∙ ap (λ m. erase_idx (window e.ring c e.head m) 0) (sym n))

  -- The packets in front of the gap, and those behind it one slot lower.
  window-close_gap :
      (k n i last : ℕ)
      → suc k + suc n ≡ e.size
      → i ≡ (e.head + suc k) % length e.ring
      → last ≡ (i + n) % length e.ring
      → window (shift_down (length e.ring) e.ring i last) (length e.ring) e.head (suc k + n)
        ≡ window e.ring (length e.ring) e.head (suc k)
          ++ window e.ring (length e.ring) ((i + 1) % length e.ring) n
  window-close_gap k n i last hn ei el =
      let c = length e.ring in
      let ring' = shift_down c e.ring i last in
      let hi : i < c = rw ei (slot-lt c e.head (suc k) v.head_in) in
      window-append c ring' e.head (suc k) n v.head_in
      ∙ ap₂ ◌++◌
          (window-shift_down_before c c e.ring e.head (suc k) i n last refl v.small v.head_in ei
            (omega arith) (omega arith) el)
          (ap (λ s. window ring' c s n) (sym ei)
            ∙ window-shift_down c c e.ring i n last refl v.small hi (omega arith) (omega arith) el)

  contents-close_gap :
      (k : ℕ)
      → suc k < e.size
      → contents (close_gap ((e.head + suc k) % length e.ring) e) ≡ erase_idx (contents e) (suc k)
  unfolding close_gap
  contents-close_gap k hk =
      let c = length e.ring in
      let i = (e.head + suc k) % c in
      let n = e.size - suc k - 1 in
      let front = window e.ring c e.head (suc k) in
      let hl : length (set (shift_down c e.ring i (last_index e)) (last_index e) none) ≡ c =
        length-set _ (last_index e) none ∙ length-shift_down c e.ring i (last_index e) in
      let last : last_index e ≡ (e.head + (e.size - 1)) % c = ap (λ (m : ℕ). m % c) (omega arith) in
      let el : last_index e ≡ (i + n) % c =
        last
        ∙ (let q : e.head + (e.size - 1) ≡ e.head + suc k + n = omega arith in
            ap (λ (m : ℕ). m % c) q)
        ∙ sym (mod-add-mod (e.head + suc k) c n) in
      let m : e.size - 1 ≡ suc k + n = omega arith in
      let all : e.size ≡ suc k + suc n = omega arith in
      ap
        (λ l.
          window (set (shift_down c e.ring i (last_index e)) (last_index e) none) l e.head
            (e.size - 1))
        hl
      ∙ window-set_outside c _ none (last_index e) e.head (e.size - 1) (e.size - 1) last v.head_in
          (omega arith) (omega arith)
      ∙ ap (window (shift_down c e.ring i (last_index e)) c e.head) m
      ∙ window-close_gap k n i (last_index e) (sym all) refl el
      ∙ sym (
          ap (λ w. erase_idx w (suc k))
            (ap (window e.ring c e.head) all
              ∙ window-append c e.ring e.head (suc k) (suc n) v.head_in)
          ∙ ap (erase_idx (front ++ window e.ring c i (suc n)))
              (sym (length-window e.ring c e.head (suc k)))
          ∙ erase_idx-append front (get_or e.ring i none) (window e.ring c ((i + 1) % c) n))

  -- In a ring that is well formed, the eviction of the packet at a position `k` below the size takes
  -- it out of the contents and keeps the others in order.
  pub contents-evict :
      (k : ℕ)
      → k < e.size
      → contents (evict ((e.head + k) % length e.ring) e) ≡ erase_idx (contents e) k
  unfolding evict
  contents-evict zero h =
      rw (slot_zero (length e.ring) e.head v.head_in, (==_iff e.head e.head).1 refl)
        (contents-drop_head h)
  contents-evict (suc k) h =
      let ne = slot-ne (length e.ring) e.head (suc k) v.head_in (omega arith) (omega arith) in
      rw (==-eq-false _ _ ne) (contents-close_gap k h)
