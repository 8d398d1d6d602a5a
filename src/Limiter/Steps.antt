-- ===== src/Limiter/Steps.antt =====
-- The steps of Process of src/infer/flow_limiter.cpp: what each does to the packets.
use mathlib.Core.List.{append-nil, append_assoc}
use ge.Prelude.{
  ℕ, Bool, ◌≤◌, ◌≡◌, refl, sym, ap, ◌∙◌, subst, inl, inr, true, false, not, ◌||◌, if◌then◌else◌,
  none, some, List, [], ◌∷◌, ◌++◌, arith, length, if_cases, ltb, ◌⊎◌,
}
use ge.Packet.{Packet, PacketRef, is_event}
use ge.Limiter.{
  FlowLimiter, InFlight, Input, Request, Outcome, fine, failed, admit, is_taken, entry_of, pop_held,
  admit_front, release_loop, flush_loop, is_incoming,
}
use ge.Limiter.Served.{
  NoNull, packets, IsValid, line, Served, Ends, Ends-and_then, Ends-map, Served-line, Served-same,
  Served-trans,
}

pub packets-append : (xs ys : List PacketRef) → packets (xs ++ ys) ≡ packets xs ++ packets ys
unfolding packets
packets-append [] ys = refl
packets-append (none ∷ xs) ys = packets-append xs ys
packets-append (some x ∷ xs) ys = ap (◌∷◌ x) (packets-append xs ys)

pub NoNull-append : (xs : List PacketRef) (p : Packet) → NoNull xs → NoNull (xs ++ some p ∷ [])
NoNull-append [] p v = tt
NoNull-append (none ∷ xs) p v = absurd v
NoNull-append (some x ∷ xs) p v = NoNull-append xs p v

-- Every slot is taken or nothing is held.
abbrev pub Settled : FlowLimiter → Type 0
Settled f = (f.max_in_flight ≤ length f.in_flight) ⊎ (f.held ≡ [])

-- A property of both results of an admission is one of the result.
pub admit_cases :
    (P : Outcome × FlowLimiter → Type 0) (req : Request) (p : Packet) (f : FlowLimiter)
    → ((e : InFlight)
        → P (fine, record f { in_flight = f.in_flight ++ e ∷ []; emitted = f.emitted ++ p ∷ [] }))
    → ((code : ℕ) → P (failed code, f))
    → P (admit req (some p) f)
unfolding admit
admit_cases P req p f taken not_taken =
    let history = f.emitted ++ p ∷ [] in
    if_cases P (is_taken (req.emit history)) _ _ (λ t. taken (entry_of req p history))
      (λ t. not_taken (req.emit history))

admit_front-Served :
    (req : Request) (p : PacketRef) (rest : List PacketRef) (f : FlowLimiter)
    → IsValid f
    → f.held ≡ p ∷ rest
    → Ends (λ g. Served [] f g × (g.held ≡ rest)) (admit_front req p rest f)
unfolding admit_front pop_held packets
admit_front-Served req none rest f v q = absurd (subst NoNull q v.sound)
admit_front-Served req (some p) rest f v q =
    admit_cases (λ r. Ends (λ g. Served [] f g × (g.held ≡ rest)) (pop_held rest r)) req p
      (record f { held = none ∷ rest })
      (λ e. (
        Served-same
            (record {
              slots = v.slots;
              room = v.room;
              bounded = omega (arith, v.bounded, ap length q);
              sound = subst NoNull q v.sound;
              timely = v.timely;
            })
            (append_assoc f.emitted (p ∷ []) (packets rest)
              ∙ ap (λ xs. f.emitted ++ packets xs) (sym q))
            refl,
        refl,
      ))
      (λ code. tt)

-- ReleaseHeld serves held packets only, and stops when every slot is taken or nothing is left.
pub release_loop-Served :
    (req : Request) (held : List PacketRef) (f : FlowLimiter)
    → IsValid f
    → f.held ≡ held
    → Ends (λ g. Served [] f g × Settled g) (release_loop req held f)
unfolding release_loop
release_loop-Served req [] f v q = (Served-same v refl refl, inr q)
release_loop-Served req (p ∷ rest) f v q =
    if_cases (Ends (λ g. Served [] f g × Settled g)) (ltb (length f.in_flight) f.max_in_flight) _ _
      (λ t.
        Ends-and_then (λ g. Served [] f g × (g.held ≡ rest)) _ (admit_front req p rest f)
          (release_loop req rest) (admit_front-Served req p rest f v q)
          (λ g a.
            Ends-map (λ h. Served [] g h × Settled h) _ (release_loop req rest g)
              (release_loop-Served req rest g a.0.valid a.1)
              (λ h b. (Served-trans [] [] a.0 b.0, b.1))))
      (λ t. (Served-same v refl refl, inl (ground (arith, t))))

-- A flush serves all held packets.
pub flush_loop-Served :
    (req : Request) (held : List PacketRef) (f : FlowLimiter)
    → IsValid f
    → f.held ≡ held
    → Ends (Served [] f) (flush_loop req held f)
unfolding flush_loop
flush_loop-Served req [] f v q = Served-same v refl refl
flush_loop-Served req (p ∷ rest) f v q =
    Ends-and_then (λ g. Served [] f g × (g.held ≡ rest)) (Served [] f) (admit_front req p rest f)
      (flush_loop req rest) (admit_front-Served req p rest f v q)
      (λ g a.
        Ends-map (Served [] g) (Served [] f) (flush_loop req rest g)
          (flush_loop-Served req rest g a.0.valid a.1) (λ h b. Served-trans [] [] a.0 b))

unfoldable pub offered_by : Bool → PacketRef → List Packet
offered_by comes_in none = []
offered_by comes_in (some p) = if is_event p || not comes_in then [] else p ∷ []

-- The packets that an input offers: those of the port `in` that are no events.
abbrev pub offered : Input → List Packet
offered i = offered_by (is_incoming i.port) i.packet

-- An input is no null reference.
abbrev pub IsGiven : Input → Type 0
IsGiven i = NoNull (i.packet ∷ [])

pub Settled-full : (f : FlowLimiter) → ltb (length f.in_flight) f.max_in_flight ≡ false → Settled f
Settled-full f t = inl (ground (arith, t))

pub nothing_held :
    (f : FlowLimiter) → Settled f → ltb (length f.in_flight) f.max_in_flight ≡ true → f.held ≡ []
nothing_held f (inl full) t = absurd (ground (arith, full, t))
nothing_held f (inr q) t = q

-- A packet that finds a free slot: nothing is held then, so it is the next in line.
pub admit-Served :
    (req : Request) (p : Packet) (f : FlowLimiter)
    → IsValid f
    → f.held ≡ []
    → Ends (λ g. Served (p ∷ []) f g × Settled g) (admit req (some p) f)
unfolding packets
admit-Served req p f v q =
    let line_of : line f ≡ f.emitted =
      ap (λ xs. f.emitted ++ packets xs) q ∙ append-nil f.emitted in
    admit_cases (Ends (λ g. Served (p ∷ []) f g × Settled g)) req p f
      (λ e. (
        Served-line
            (record {
              slots = v.slots;
              room = v.room;
              bounded = v.bounded;
              sound = v.sound;
              timely = v.timely;
            })
            (ap (λ xs. (f.emitted ++ p ∷ []) ++ packets xs) q
              ∙ append-nil (f.emitted ++ p ∷ [])
              ∙ ap (λ xs. xs ++ p ∷ []) (sym line_of))
            refl,
        inr q,
      ))
      (λ code. tt)
