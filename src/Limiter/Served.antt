-- ===== src/Limiter/Served.antt =====
-- What a call of the flow limiter of src/infer/flow_limiter.cpp makes of the packets it is given.
use mathlib.Core.List.{append-nil, append_assoc, Sublistᴰ}
use mathlib.Core.List.Sublistᴰ
use ge.Prelude.{
  ◌+◌, ◌*◌, ◌%◌, ◌^◌, ◌≤◌, ◌<◌, ◌≡◌, sym, ap, ◌∙◌, subst, none, some, List, [], ◌∷◌, ◌++◌, arith,
  length,
}
use ge.Packet.{Packet, PacketRef}
use ge.Limiter.{FlowLimiter, Outcome, fine, failed, undefined, and_then}

abbrev pub NoNull : List PacketRef → Type 0
NoNull [] = Unit {0}
NoNull (none ∷ rest) = ⊥
NoNull (some p ∷ rest) = NoNull rest

unfoldable pub packets : List PacketRef → List Packet
packets [] = []
packets (none ∷ rest) = packets rest
packets (some p ∷ rest) = p ∷ packets rest

pub record IsValid (f : FlowLimiter) : Type 0 where
  pub slots : 0 < f.max_in_flight
  pub room : 0 < f.max_held
  pub bounded : length f.held ≤ f.max_held
  pub sound : NoNull f.held
  pub timely : f.timeout_ms * 1000000 < 2 ^ 63

-- The packets that were emitted, then those that are held.
abbrev pub line : FlowLimiter → List Packet
line f = f.emitted ++ packets f.held

-- From `f` with the packets `xs` to `g`: no packet overtakes another, and each is emitted, held or
-- counted as dropped.
pub record Served (xs : List Packet) (f g : FlowLimiter) : Type 0 where
  pub valid : IsValid g
  pub order : Sublistᴰ (line g) (line f ++ xs)
  pub count :
      (g.dropped + length (line g)) % 2 ^ 64 ≡ (f.dropped + length (line f) + length xs) % 2 ^ 64

-- The outcome is defined, and the state has the property if it is fine.
abbrev pub Ends : (FlowLimiter → Type 0) → Outcome × FlowLimiter → Type 0
Ends P (fine, f) = P f
Ends P (failed code, f) = Unit {0}
Ends P (undefined fault, f) = ⊥

pub length-++ : {A : Type 0} (xs ys : List A) → length (xs ++ ys) ≡ length xs + length ys
length-++ [] ys = omega arith
length-++ (x ∷ xs) ys = omega (arith, length-++ xs ys)

pub Ends-and_then :
    (P Q : FlowLimiter → Type 0) (r : Outcome × FlowLimiter)
    (next : FlowLimiter → Outcome × FlowLimiter)
    → Ends P r
    → ((f : FlowLimiter) → P f → Ends Q (next f))
    → Ends Q (and_then r next)
unfolding and_then
Ends-and_then P Q (fine, f) next h k = k f h
Ends-and_then P Q (failed code, f) next h k = tt
Ends-and_then P Q (undefined fault, f) next h k = absurd h

pub Ends-map :
    (P Q : FlowLimiter → Type 0) (r : Outcome × FlowLimiter)
    → Ends P r
    → ((f : FlowLimiter) → P f → Q f)
    → Ends Q r
Ends-map P Q (fine, f) h k = k f h
Ends-map P Q (failed code, f) h k = tt
Ends-map P Q (undefined fault, f) h k = h

-- The packets go to the end of the line.
pub Served-line :
    {xs : List Packet} {f g : FlowLimiter}
    → IsValid g
    → line g ≡ line f ++ xs
    → g.dropped ≡ f.dropped
    → Served xs f g
Served-line {xs} {f} {g} v q d = record {
  valid = v;
  order = subst (Sublistᴰ (line g)) q (Sublistᴰ.refl (line g));
  count = omega (arith, d, ap length q, length-++ (line f) xs);
}

-- Nothing came in and the line is the same.
pub Served-same :
    {f g : FlowLimiter} → IsValid g → line g ≡ line f → g.dropped ≡ f.dropped → Served [] f g
Served-same {f} v q d = Served-line v (q ∙ sym (append-nil (line f))) d

pub Served-trans :
    (xs ys : List Packet) {f g h : FlowLimiter}
    → Served xs f g
    → Served ys g h
    → Served (xs ++ ys) f h
Served-trans xs ys {f} {g} {h} s t = record {
  valid = t.valid;
  order = Sublistᴰ.trans t.order (
      subst (λ zs. Sublistᴰ (line g ++ ys) zs) (append_assoc (line f) xs ys)
        (Sublistᴰ.append s.order (Sublistᴰ.refl ys)));
  count = omega (arith, s.count, t.count, length-++ xs ys);
}
