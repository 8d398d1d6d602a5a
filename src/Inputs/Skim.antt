-- ===== src/Inputs/Skim.antt =====
-- SkimHead of src/input_binding.cpp ends, and leaves the packet that Take gives next.
use ge.Prelude.{
  ℕ, zero, suc, ◌+◌, ◌<◌, ◌≡◌, refl, sym, ap, ◌∙◌, subst, Bool, true, false, not, ◌||◌, Option,
  none, some, List, [], ◌∷◌, ◌++◌, arith, if◌then◌else◌, Bool-cases, inl, inr, if_elim, incr64,
}
use ge.Packet.{Packet, PacketRef, is_eos, is_event}
use ge.Edge.{EdgeChannel, is_retired, pop, peek, count_pop, drop_head}
use ge.Inputs.{
  InputPortBinding, Skimmed, edge_is_empty, first_active, Round, stops, goes_on, skim_predecessor,
  skim_edge, skim_own, skim_active, take_active, skim_round, skim_head, after_round, popped_packet,
  take_own, take_packet,
}

-- The packets of the predecessors and one more for each; those of a port's own edge.
abbrev pub weight : List EdgeChannel → ℕ
weight [] = 0
weight (e ∷ rest) = e.size + 1 + weight rest

abbrev pub own_size : Option EdgeChannel → ℕ
own_size none = 0
own_size (some e) = e.size

abbrev pub port_weight : InputPortBinding → ℕ
port_weight b = weight b.predecessors + own_size b.edge

-- A marker or an event.
abbrev pub is_control : PacketRef → Bool
is_control none = false
is_control (some p) = is_eos p || is_event p

weight-append : (xs ys : List EdgeChannel) → weight (xs ++ ys) ≡ weight xs + weight ys
weight-append [] ys = omega arith
weight-append (x ∷ xs) ys = omega (arith, weight-append xs ys)

size-pop : (e : EdgeChannel) (p : Packet) → peek e ≡ some p → (pop e).1.size + 1 ≡ e.size
unfolding peek pop count_pop drop_head
size-pop e p h = ground (arith, h)

popped_packet-peek : (e : EdgeChannel) → popped_packet e ≡ peek e
unfolding popped_packet peek pop
popped_packet-peek e = ground arith

-- The weight of the predecessors, split at the active one.
abbrev Splits : Option (List EdgeChannel × EdgeChannel × List EdgeChannel) → ℕ → Type 0
Splits none n = Unit {0}
Splits (some (before, e, after)) n = n ≡ weight before + (e.size + 1) + weight after

split_after :
    (p : EdgeChannel) (o : Option (List EdgeChannel × EdgeChannel × List EdgeChannel)) (n : ℕ)
    → Splits o n
    → Splits
        (elim o [ none ↦ none | some (before, a, after) ↦ some (p ∷ before, a, after) ])
        (p.size + 1 + n)
split_after p none n h = tt
split_after p (some (before, e, after)) n h = omega (arith, h)

Splits-first_active : (ps : List EdgeChannel) → Splits (first_active ps) (weight ps)
unfolding first_active
Splits-first_active [] = tt
Splits-first_active (p ∷ ps) =
    elim (Bool-cases (not (edge_is_empty p) || not (is_retired p.state))) [
      | inl here ↦ rw here (omega arith)
      | inr there ↦ rw there (split_after p (first_active ps) (weight ps) (Splits-first_active ps))
    ]

-- A round that goes on leaves a port that weighs less.
abbrev Decreases : Round → ℕ → Type 0
Decreases (stops head) n = Unit {0}
Decreases (goes_on t) n = port_weight t.port < n

predecessor-Decreases :
    (before : List EdgeChannel) (e : EdgeChannel) (after : List EdgeChannel) (head : PacketRef)
    (s : Skimmed)
    → peek e ≡ head
    → Decreases
        (skim_predecessor before e after head s)
        (weight before + (e.size + 1) + weight after + own_size s.port.edge)
unfolding skim_predecessor
predecessor-Decreases before e after none s h =
    elim (is_retired e.state)
      as (λ (b : Bool).
        Decreases
          (if b
            then goes_on (record s { port = record (s.port) { predecessors = before ++ after } })
            else stops none)
          (weight before + (e.size + 1) + weight after + own_size s.port.edge)) [
            | true ↦ omega (arith, weight-append before after)
            | false ↦ tt
          ]
predecessor-Decreases before e after (some p) s h =
    let less = size-pop e p h in
    elim (Bool-cases (is_eos p)) [
      | inl marker ↦ rw marker (omega (arith, weight-append before after))
      | inr other ↦ elim (Bool-cases (is_event p)) [
        | inl event ↦
            rw (other, event) (omega (arith, less, weight-append before ((pop e).1 ∷ after)))
        | inr plain ↦ rw (other, plain) tt
      ]
    ]

edge-Decreases :
    (e : EdgeChannel) (head : PacketRef) (s : Skimmed)
    → peek e ≡ head
    → Decreases (skim_edge e head s) (weight s.port.predecessors + e.size)
unfolding skim_edge
edge-Decreases e none s h = tt
edge-Decreases e (some p) s h =
    let less = size-pop e p h in
    elim (Bool-cases (is_eos p)) [
      | inl marker ↦ rw marker (omega (arith, less))
      | inr other ↦ elim (Bool-cases (is_event p)) [
        | inl event ↦ rw (other, event) (omega (arith, less))
        | inr plain ↦ elim (Bool-cases s.port.ended) [
          | inl late ↦ rw (other, plain, late) (omega (arith, less))
          | inr live ↦ rw (other, plain, live) tt
        ]
      ]
    ]

own-Decreases :
    (edge : Option EdgeChannel) (s : Skimmed)
    → Decreases (skim_own edge s) (weight s.port.predecessors + own_size edge)
unfolding skim_own
own-Decreases none s = tt
own-Decreases (some e) s = edge-Decreases e (peek e) s refl

active-Decreases :
    (o : Option (List EdgeChannel × EdgeChannel × List EdgeChannel)) (s : Skimmed)
    → Splits o (weight s.port.predecessors)
    → Decreases (skim_active o s) (port_weight s.port)
unfolding skim_active
active-Decreases none s w = own-Decreases s.port.edge s
active-Decreases (some (before, e, after)) s w =
    subst (λ n. Decreases (skim_predecessor before e after (peek e) s) (n + own_size s.port.edge))
      (sym w) (predecessor-Decreases before e after (peek e) s refl)

round-Decreases : (s : Skimmed) → Decreases (skim_round s) (port_weight s.port)
unfolding skim_round
round-Decreases s =
    active-Decreases (first_active s.port.predecessors) s (Splits-first_active s.port.predecessors)

-- A round that stops with a head leaves it to Take.
abbrev Leaves : Round → Skimmed → Type 0
Leaves (stops head) s = ((take_packet s.port).0 ≡ head) × (is_control head ≡ false)
Leaves (goes_on t) s = Unit {0}

predecessor_head :
    (before : List EdgeChannel) (e : EdgeChannel) (after : List EdgeChannel) (head : PacketRef)
    (s : Skimmed)
    → (take_packet s.port).0 ≡ head
    → Leaves (skim_predecessor before e after head s) s
unfolding skim_predecessor
predecessor_head before e after none s h = elim (Bool-cases (is_retired e.state)) [
  | inl gone ↦ rw gone tt
  | inr there ↦ rw there (h, refl)
]
predecessor_head before e after (some p) s h = elim (Bool-cases (is_eos p)) [
  | inl marker ↦ rw marker tt
  | inr other ↦ elim (Bool-cases (is_event p)) [
    | inl event ↦ rw (other, event) tt
    | inr plain ↦ rw (other, plain) (h, ground (arith, other, plain))
  ]
]

edge_head :
    (e : EdgeChannel) (head : PacketRef) (s : Skimmed)
    → (take_packet s.port).0 ≡ head
    → Leaves (skim_edge e head s) s
unfolding skim_edge
edge_head e none s h = (h, refl)
edge_head e (some p) s h = elim (Bool-cases (is_eos p)) [
  | inl marker ↦ rw marker tt
  | inr other ↦ elim (Bool-cases (is_event p)) [
    | inl event ↦ rw (other, event) tt
    | inr plain ↦
        rw (other, plain)
          (if_elim (λ r. Leaves r s) s.port.ended
            (goes_on (record s {
              port = record (s.port) { edge = some (pop e).1 };
              stale_dropped = incr64 s.stale_dropped;
            }))
            (stops (some p)) tt (h, ground (arith, other, plain)))
  ]
]

own_head :
    (edge : Option EdgeChannel) (s : Skimmed)
    → (take_packet s.port).0 ≡ (take_own edge s.port).0
    → Leaves (skim_own edge s) s
unfolding skim_own take_own
own_head none s h = (h, refl)
own_head (some e) s h = edge_head e (peek e) s (h ∙ popped_packet-peek e)

active_head :
    (o : Option (List EdgeChannel × EdgeChannel × List EdgeChannel)) (s : Skimmed)
    → (take_packet s.port).0 ≡ (take_active o s.port).0
    → Leaves (skim_active o s) s
unfolding skim_active take_active
active_head none s h = own_head s.port.edge s h
active_head (some (before, e, after)) s h =
    predecessor_head before e after (peek e) s (h ∙ popped_packet-peek e)

round_head : (s : Skimmed) → Leaves (skim_round s) s
unfolding skim_round take_packet
round_head s = active_head (first_active s.port.predecessors) s refl

-- With this fuel SkimHead ends with a head.
abbrev pub EndsWith : ℕ → Skimmed → Type 0
EndsWith fuel s =
    (head : PacketRef) × (t : Skimmed) × (skim_head fuel s ≡ some (head, t))
    × ((take_packet t.port).0 ≡ head)
    × (is_control head ≡ false)

go_on :
    (fuel : ℕ) (r : Round) (s : Skimmed)
    → skim_round s ≡ r
    → Leaves r s
    → Decreases r (port_weight s.port)
    → ((t : Skimmed) → port_weight t.port < port_weight s.port → EndsWith fuel t)
    → EndsWith (suc fuel) s
unfolding skim_head
go_on fuel (stops head) s e l d rest =
    (head, s, ap (λ r. after_round r s (skim_head fuel)) e, l.0, l.1)
go_on fuel (goes_on t) s e l d rest =
    let (head, u, ends, next, plain) = rest t d in
    (head, u, ap (λ r. after_round r s (skim_head fuel)) e ∙ ends, next, plain)

-- SkimHead ends after at most as many rounds as the port's edges hold packets, one more for each
-- predecessor and one more. It leaves no marker and no event at the head, and the head that it returns
-- is what Take gives next, null if there is nothing to take.
pub skim_head_total : (fuel : ℕ) (s : Skimmed) → port_weight s.port < fuel → EndsWith fuel s
skim_head_total zero s h = absurd (omega arith)
skim_head_total (suc fuel) s h =
    go_on fuel (skim_round s) s refl (round_head s) (round-Decreases s)
      (λ t d. skim_head_total fuel t (omega (arith, h, d)))
