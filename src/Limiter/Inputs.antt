-- ===== src/Limiter/Inputs.antt =====
-- A whole call of Process of src/infer/flow_limiter.cpp: the inputs in their order, after completions
-- and time-outs.
use mathlib.Core.List.{append_assoc, Sublistᴰ}
use mathlib.Core.List.Sublistᴰ
use ge.Prelude.{
  ◌<◌, ◌≡◌, refl, Bool, sym, ap, ◌∙◌, subst, inl, inr, not, ◌||◌, none, some, List, [], ◌∷◌, ◌++◌,
  arith, length, Bool-cases, if_cases, ltb,
}
use ge.Packet.{Packet, PacketRef, is_event}
use ge.Limiter.{
  FlowLimiter, Input, Request, OnLimit, drop, hold, publish, drop_packet, displace_held, refuse,
  take_input, take_inputs, is_incoming, take_ref,
}
use ge.Limiter.Served.{
  NoNull, packets, IsValid, line, Served, Ends, length-++, Ends-and_then, Ends-map, Served-line,
  Served-same, Served-trans,
}
use ge.Limiter.Steps.{
  Settled, nothing_held, packets-append, NoNull-append, admit-Served, offered, offered_by, IsGiven,
}

-- A packet that is dropped itself.
drop_packet-Served :
    (req : Request) (p : Packet) (f : FlowLimiter)
    → IsValid f
    → Served (p ∷ []) f (drop_packet req p f)
unfolding drop_packet publish
drop_packet-Served req p f v = record {
  valid = record {
    slots = v.slots;
    room = v.room;
    bounded = v.bounded;
    sound = v.sound;
    timely = v.timely;
  };
  order = Sublistᴰ_kept (line f) p;
  count = omega arith;
}
  where
    Sublistᴰ_kept : (xs : List Packet) (x : Packet) → Sublistᴰ xs (xs ++ x ∷ [])
    Sublistᴰ_kept [] x = Sublistᴰ.cons Sublistᴰ.slnil
    Sublistᴰ_kept (y ∷ xs) x = Sublistᴰ.cons-cons refl (Sublistᴰ_kept xs x)

hold-Served :
    (p : Packet) (f : FlowLimiter)
    → IsValid f
    → length f.held < f.max_held
    → Served (p ∷ []) f (record f { held = f.held ++ some p ∷ [] })
unfolding packets
hold-Served p f v h =
    Served-line
      (record {
        slots = v.slots;
        room = v.room;
        bounded = omega (arith, h, length-++ f.held (some p ∷ []));
        sound = NoNull-append f.held p v.sound;
        timely = v.timely;
      })
      (ap (λ xs. f.emitted ++ xs) (packets-append f.held (some p ∷ []))
        ∙ sym (append_assoc f.emitted (packets f.held) (p ∷ [])))
      refl

-- The oldest held packet is dropped, and the new one goes to the end.
displace-Served :
    (req : Request) (p : Packet) (held : List PacketRef) (f : FlowLimiter)
    → IsValid f
    → f.held ≡ held
    → 0 < length held
    → Ends
        (λ g.
          Served (p ∷ []) f g × (g.in_flight ≡ f.in_flight) × (g.max_in_flight ≡ f.max_in_flight))
        (displace_held req p held f)
unfolding displace_held drop_packet publish packets
displace-Served req p [] f v q h = absurd (omega arith)
displace-Served req p (none ∷ rest) f v q h = absurd (subst NoNull q v.sound)
displace-Served req p (some x ∷ rest) f v q h =
    let before : line f ++ p ∷ [] ≡ f.emitted ++ (x ∷ (packets rest ++ p ∷ [])) =
      ap (λ xs. (f.emitted ++ packets xs) ++ p ∷ []) q
      ∙ append_assoc f.emitted (x ∷ packets rest) (p ∷ []) in
    let after : f.emitted ++ packets (rest ++ some p ∷ []) ≡ f.emitted ++ (packets rest ++ p ∷ []) =
      ap (λ xs. f.emitted ++ xs) (packets-append rest (some p ∷ [])) in
    (
      record {
        valid = record {
          slots = v.slots;
          room = v.room;
          bounded = omega (arith, v.bounded, ap length q, length-++ rest (some p ∷ []));
          sound = NoNull-append rest p (subst NoNull q v.sound);
          timely = v.timely;
        };
        order =
            rw (after, before)
              (Sublistᴰ.append (Sublistᴰ.refl f.emitted)
                (Sublistᴰ.cons (Sublistᴰ.refl (packets rest ++ p ∷ []))));
        count = omega (
          arith,
          ap length before,
          ap length after,
          length-++ (line f) (p ∷ []),
          length-++ f.emitted (x ∷ (packets rest ++ p ∷ [])),
          length-++ f.emitted (packets rest ++ p ∷ []),
        );
      },
      refl,
      refl,
    )

refuse-Served :
    (d : OnLimit) (req : Request) (p : Packet) (f : FlowLimiter)
    → IsValid f
    → Ends
        (λ g.
          Served (p ∷ []) f g × (g.in_flight ≡ f.in_flight) × (g.max_in_flight ≡ f.max_in_flight))
        (refuse d req p f)
unfolding refuse drop_packet publish
refuse-Served drop req p f v = (drop_packet-Served req p f v, refl, refl)
refuse-Served hold req p f v =
    if_cases
      (Ends (λ g.
        Served (p ∷ []) f g × (g.in_flight ≡ f.in_flight) × (g.max_in_flight ≡ f.max_in_flight)))
      (ltb (length f.held) f.max_held) _ _
      (λ t. (hold-Served p f v (ground (arith, t)), refl, refl))
      (λ t. displace-Served req p f.held f v refl (ground (arith, v.room, t)))

take_ref-Served :
    (req : Request) (b : Bool) (r : PacketRef) (f : FlowLimiter)
    → IsValid f
    → Settled f
    → NoNull (r ∷ [])
    → Ends (λ g. Served (offered_by b r) f g × Settled g) (take_ref req b r f)
unfolding take_ref offered_by
take_ref-Served req b none f v s h = absurd h
take_ref-Served req b (some p) f v s h = elim (Bool-cases (is_event p || not b)) [
  | inl t ↦ rw (t, take_ref, offered_by) (Served-same v refl refl, s)
  | inr t ↦
      rw (t, take_ref, offered_by)
        (if_cases (Ends (λ g. Served (p ∷ []) f g × Settled g))
          (ltb (length f.in_flight) f.max_in_flight) _ _
          (λ u. admit-Served req p f v (nothing_held f s u))
          (λ u.
            Ends-map _ _ (refuse f.on_limit req p f) (refuse-Served f.on_limit req p f v)
              (λ g a. (a.0, inl (ground (arith, u, a.1, a.2))))))
]

take_input-Served :
    (req : Request) (i : Input) (f : FlowLimiter)
    → IsValid f
    → Settled f
    → IsGiven i
    → Ends (λ g. Served (offered i) f g × Settled g) (take_input req i f)
unfolding take_input
take_input-Served req i f v s h = take_ref-Served req (is_incoming i.port) i.packet f v s h

-- No input is a null reference.
abbrev pub AreGiven : List Input → Type 0
AreGiven [] = Unit {0}
AreGiven (i ∷ rest) = IsGiven i × AreGiven rest

unfoldable pub all_offered : List Input → List Packet
all_offered [] = []
all_offered (i ∷ rest) = offered i ++ all_offered rest

pub take_inputs-Served :
    (req : Request) (is : List Input) (f : FlowLimiter)
    → IsValid f
    → Settled f
    → AreGiven is
    → Ends (Served (all_offered is) f) (take_inputs req is f)
unfolding take_inputs all_offered
take_inputs-Served req [] f v s h = Served-same v refl refl
take_inputs-Served req (i ∷ rest) f v s h =
    Ends-and_then _ _ (take_input req i f) (take_inputs req rest)
      (take_input-Served req i f v s h.0)
      (λ g a.
        Ends-map _ _ (take_inputs req rest g) (take_inputs-Served req rest g a.0.valid a.1 h.1)
          (λ e b. Served-trans (offered i) (all_offered rest) a.0 b))
