-- ===== src/Edge/Window.antt =====
-- The slots of the ring that hold packets, read in order: arithmetic round the ring, and what a write
-- and the shift loop of edge_channel.cpp do to them.
use native.Mathlib.Nat.{mod-add-mod, mod-eq_of_lt, mod-eq-sub-mod, add-zero}
use ge.Prelude.{
  ℕ, zero, suc, ◌+◌, ◌-◌, ◌%◌, ◌≤◌, ◌<◌, ◌≡◌, refl, sym, ap, ap₂, ◌∙◌, ◌≢◌, ◌⊎◌, inl, inr, none,
  List, [], ◌∷◌, ◌++◌, arith, dec_lt, length, get_or, set, get_or-set_self, get_or-set_ne,
}
use ge.Packet.{PacketRef}

-- The `n` references from slot `h` on, going round at `c`.
abbrev pub window : List PacketRef → ℕ → ℕ → ℕ → List PacketRef
window ring c h zero = []
window ring c h (suc n) = get_or ring h none ∷ window ring c ((h + 1) % c) n

pub length-window : (ring : List PacketRef) (c h n : ℕ) → length (window ring c h n) ≡ n
length-window ring c h zero = refl
length-window ring c h (suc n) = ap suc (length-window ring c ((h + 1) % c) n)

-- Going round is one more step, or a fresh start.
pub wrap_cases :
    (c h k : ℕ)
    → h < c
    → k ≤ c
    → ((h + k) % c ≡ h + k) × (h + k < c) ⊎ ((h + k) % c ≡ h + k - c) × (c ≤ h + k)
wrap_cases c h k hh hk = elim (dec_lt (h + k) c) [
  | yes p ↦ inl (mod-eq_of_lt p, p)
  | no p ↦ inr (
    mod-eq-sub-mod {n = h + k} {m = c} (omega arith)
        ∙ mod-eq_of_lt {n = h + k - c} {m = c} (omega arith),
    omega arith,
  )
]

pub slot-lt : (c h k : ℕ) → h < c → (h + k) % c < c
slot-lt c h k hh = omega arith

pub slot-ne : (c h k : ℕ) → h < c → 0 < k → k < c → (h + k) % c ≢ h
slot-ne c h k hh hp hk = omega (arith, wrap_cases c h k hh (omega arith))

pub slot_step : (c h k : ℕ) → ((h + 1) % c + k) % c ≡ (h + suc k) % c
slot_step c h k = rw mod-add-mod (ap (λ (n : ℕ). n % c) (omega arith))

pub slot_full : (c h : ℕ) → h < c → (h + c) % c ≡ h
slot_full c h hh = omega (arith, wrap_cases c h c hh (omega arith))

pub slot_zero : (c h : ℕ) → h < c → (h + 0) % c ≡ h
slot_zero c h hh = rw add-zero (mod-eq_of_lt hh)

module _ (c : ℕ) where
  pub window-append :
      (ring : List PacketRef) (h m n : ℕ)
      → h < c
      → window ring c h (m + n) ≡ window ring c h m ++ window ring c ((h + m) % c) n
  window-append ring h zero n hh = rw (slot_zero c h hh) (ap (window ring c h) (omega arith))
  window-append ring h (suc m) n hh =
      let shift : suc m + n ≡ suc (m + n) = omega arith in
      ap (window ring c h) shift
      ∙ ap (◌∷◌ (get_or ring h none)) (
          window-append ring ((h + 1) % c) m n (slot-lt c h 1 hh)
          ∙ ap (λ k. window ring c ((h + 1) % c) m ++ window ring c k n) (slot_step c h m))

  -- A write behind the window, before its start comes round again, does not touch it.
  pub window-set_outside :
      (ring : List PacketRef) (v : PacketRef) (i h m n : ℕ)
      → i ≡ (h + m) % c
      → h < c
      → n ≤ m
      → m < c
      → window (set ring i v) c h n ≡ window ring c h n
  window-set_outside ring v i h m zero e hh hn hm = refl
  window-set_outside ring v i h zero (suc n) e hh hn hm = absurd (omega arith)
  window-set_outside ring v i h (suc m) (suc n) e hh hn hm =
      ap₂ ◌∷◌ (get_or-set_ne ring i h v none (rw e (slot-ne c h (suc m) hh (omega arith) hm))) (
        window-set_outside ring v i ((h + 1) % c) m n (e ∙ sym (slot_step c h m)) (slot-lt c h 1 hh)
          (omega arith) (omega arith))

  -- A write to the first free slot extends the window by what is written.
  pub window-set_next :
      (ring : List PacketRef) (v : PacketRef) (h n : ℕ)
      → c ≡ length ring
      → h < c
      → n < c
      → window (set ring ((h + n) % c) v) c h (n + 1) ≡ window ring c h n ++ v ∷ []
  window-set_next ring v h n hc hh hn =
      window-append (set ring ((h + n) % c) v) h n 1 hh
      ∙ ap₂ ◌++◌ (window-set_outside ring v ((h + n) % c) h n n refl hh (omega arith) hn) (
          ap (λ w. w ∷ [])
            (get_or-set_self ring ((h + n) % c) v none (omega (arith, slot-lt c h n hh))))
