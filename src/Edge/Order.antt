-- ===== src/Edge/Order.antt =====
-- What the bounded queue guarantees over a whole run: packets come out in the order in which they
-- went in, markers are never lost, and the life cycle only goes forward.
use ge.Prelude.{
  ℕ, ◌≡◌, refl, sym, subst, true, false, none, some, List, [], ◌∷◌, ◌++◌, arith, inl, inr, length,
  if_elim, Option-cases, Bool-cases,
}
use mathlib.Core.List.{append-nil, append_assoc, Sublistᴰ}
use mathlib.Core.List.Sublistᴰ
use ge.Packet.{PacketRef, ref_is_eos}
use ge.Edge.{
  EdgeChannel, EdgeState, DropPolicy, block, drop_oldest, drop_newest, PushOutcome, accepted,
  accepted_dropped_oldest, dropped_newest, would_block, cancelled,
}
use ge.Edge.Queue
use ge.Edge.Queue.{Queue, drop_first_data, append, refuse}
use ge.Edge.Inv.{IsValid}
use ge.Edge.Contents.{contents}
use ge.Edge.View.{view}
use ge.Edge.Runs.{
  Call, pushes, pushes_checked, injects, pops, drains, clears, marks, retires, Reply, outcome,
  taken, answer, done, run, apply_queue, run_queue, run_refines,
}

-- The packets that a run offers to the channel, and those that it takes out of it.
unfoldable pub offered : Call → List PacketRef
offered (pushes p) = p ∷ []
offered (pushes_checked p) = p ∷ []
offered (injects p) = p ∷ []
offered pops = []
offered drains = []
offered clears = []
offered marks = []
offered (retires fast) = []

unfoldable pub all_offered : List Call → List PacketRef
all_offered [] = []
all_offered (c ∷ cs) = offered c ++ all_offered cs

unfoldable pub delivered : Reply → List PacketRef
delivered (taken (some p)) = p ∷ []
delivered (taken none) = []
delivered (outcome o) = []
delivered (answer b) = []
delivered done = []

unfoldable pub all_delivered : List Reply → List PacketRef
all_delivered [] = []
all_delivered (r ∷ rs) = delivered r ++ all_delivered rs

nil-Sublistᴰ : (xs : List PacketRef) → Sublistᴰ [] xs
nil-Sublistᴰ [] = Sublistᴰ.slnil
nil-Sublistᴰ (x ∷ xs) = Sublistᴰ.cons (nil-Sublistᴰ xs)

kept : (xs : List PacketRef) (p : PacketRef) → Sublistᴰ xs (xs ++ p ∷ [])
kept xs p =
    subst (λ ys. Sublistᴰ ys (xs ++ p ∷ [])) (append-nil xs)
      (Sublistᴰ.append (Sublistᴰ.refl xs) (nil-Sublistᴰ (p ∷ [])))

drop_first_data-Sublistᴰ : (xs ys : List PacketRef) → drop_first_data xs ≡ some ys → Sublistᴰ ys xs
unfolding drop_first_data
drop_first_data-Sublistᴰ [] ys e = absurd (cc)
drop_first_data-Sublistᴰ (x ∷ xs) ys e = elim (Bool-cases (ref_is_eos x)) [
  | inr other ↦
      let q : xs ≡ ys = ground arith in
      subst (λ zs. Sublistᴰ zs (x ∷ xs)) q (Sublistᴰ.cons (Sublistᴰ.refl xs))
  | inl eos ↦ elim (Option-cases (drop_first_data xs)) [
    | inl n ↦ absurd (ground arith)
    | inr (zs, q) ↦
        let r : x ∷ zs ≡ ys = ground arith in
        subst (λ zs. Sublistᴰ zs (x ∷ xs)) r
          (Sublistᴰ.cons-cons refl (drop_first_data-Sublistᴰ xs zs q))
  ]
]

-- A property of each of the results of a push is one of the result.
pub push_cases {ℓ} :
    (P : PushOutcome × Queue → Type ℓ) (c : ℕ) (d : DropPolicy) (p : PacketRef) (q : Queue)
    → P (cancelled, q)
    → P (accepted, q)
    → P (accepted, append p q)
    → P (would_block, refuse q)
    → P (dropped_newest, q)
    → ((rest : List PacketRef)
        → drop_first_data q.items ≡ some rest
        → P (accepted_dropped_oldest, append p (record q { items = rest })))
    → P (Queue.push c d p q)
unfolding Queue.push Queue.overflow Queue.displace
push_cases P c d p q closed again room full newest oldest =
    if_elim P _ _ _ closed
      (if_elim P _ _ _ again (if_elim P _ _ _ room (if_elim P _ _ _ full (overflow_cases d))))
  where
    overflow_cases : (k : DropPolicy) → P (Queue.overflow k p q)
    overflow_cases block = full
    overflow_cases drop_newest = newest
    overflow_cases drop_oldest = elim (Option-cases (drop_first_data q.items)) [
      | inl e ↦ rw (e, Queue.displace) newest
      | inr (rest, e) ↦ rw (e, Queue.displace) (oldest rest e)
    ]

pub inject_cases {ℓ} :
    (P : PushOutcome × Queue → Type ℓ) (c : ℕ) (p : PacketRef) (q : Queue)
    → P (cancelled, q)
    → P (accepted, q)
    → P (accepted, append p q)
    → P (would_block, q)
    → P (Queue.inject_eos c p q)
unfolding Queue.inject_eos
inject_cases P c p q closed again room full =
    if_elim P _ _ _ closed (if_elim P _ _ _ again (if_elim P _ _ _ room full))

push-Sublistᴰ :
    (c : ℕ) (d : DropPolicy) (p : PacketRef) (q : Queue)
    → Sublistᴰ (Queue.push c d p q).1.items (q.items ++ p ∷ [])
unfolding append refuse
push-Sublistᴰ c d p q =
    let old = kept q.items p in
    push_cases (λ r. Sublistᴰ r.1.items (q.items ++ p ∷ [])) c d p q old old
      (Sublistᴰ.refl (q.items ++ p ∷ [])) old old
      (λ rest e. Sublistᴰ.append (drop_first_data-Sublistᴰ q.items rest e) (Sublistᴰ.refl (p ∷ [])))

inject-Sublistᴰ :
    (c : ℕ) (p : PacketRef) (q : Queue)
    → Sublistᴰ (Queue.inject_eos c p q).1.items (q.items ++ p ∷ [])
unfolding append
inject-Sublistᴰ c p q =
    let old = kept q.items p in
    inject_cases (λ r. Sublistᴰ r.1.items (q.items ++ p ∷ [])) c p q old old
      (Sublistᴰ.refl (q.items ++ p ∷ [])) old

pub items-clear : (c : ℕ) (q : Queue) → (Queue.clear_backpressure c q).1.items ≡ q.items
unfolding Queue.clear_backpressure
items-clear c q = ground arith

pub items-mark : (c : ℕ) (q : Queue) → (Queue.mark_backpressured c q).1.items ≡ q.items
unfolding Queue.mark_backpressured Queue.settle refuse
items-mark c q = ground arith

all_items : (xs : List PacketRef) → Sublistᴰ xs (xs ++ [])
all_items xs = rw append-nil (Sublistᴰ.refl xs)

pop-Sublistᴰ :
    (s : EdgeState) (xs : List PacketRef)
    → let (r, q) = Queue.pop (record { state = s; items = xs }) in
      Sublistᴰ (delivered (taken r) ++ q.items) (xs ++ [])
unfolding Queue.pop delivered
pop-Sublistᴰ s [] = Sublistᴰ.slnil
pop-Sublistᴰ s (p ∷ xs) = Sublistᴰ.cons-cons refl (all_items xs)

-- What a call takes out and what it leaves is among what was there and what it offers, in that order.
step-Sublistᴰ :
    (c : ℕ) (d : DropPolicy) (a : Call) (q : Queue)
    → Sublistᴰ
        (delivered (apply_queue c d a q).0 ++ (apply_queue c d a q).1.items)
        (q.items ++ offered a)
unfolding apply_queue delivered offered Queue.mark_draining Queue.mark_retired
step-Sublistᴰ c d (pushes p) q = push-Sublistᴰ c d p q
step-Sublistᴰ c d (pushes_checked p) q = push-Sublistᴰ c d p q
step-Sublistᴰ c d (injects p) q = inject-Sublistᴰ c p q
step-Sublistᴰ c d pops q = pop-Sublistᴰ q.state q.items
step-Sublistᴰ c d drains q = all_items q.items
step-Sublistᴰ c d (retires true) q = nil-Sublistᴰ (q.items ++ [])
step-Sublistᴰ c d (retires false) q = all_items q.items
step-Sublistᴰ c d clears q = rw (items-clear c q) (all_items q.items)
step-Sublistᴰ c d marks q = rw (items-mark c q) (all_items q.items)

run-Sublistᴰ :
    (c : ℕ) (d : DropPolicy) (cs : List Call) (q : Queue)
    → let (rs, q') = run_queue c d cs q in
      Sublistᴰ (all_delivered rs ++ q'.items) (q.items ++ all_offered cs)
unfolding run_queue all_delivered all_offered
run-Sublistᴰ c d [] q = all_items q.items
run-Sublistᴰ c d (a ∷ cs) q =
    let (r, q1) = apply_queue c d a q in
    rw (append_assoc, ← append_assoc q.items (offered a) (all_offered cs))
      (Sublistᴰ.trans (Sublistᴰ.append (Sublistᴰ.refl (delivered r)) (run-Sublistᴰ c d cs q1)) (
        rw (← append_assoc)
          (Sublistᴰ.append (step-Sublistᴰ c d a q) (Sublistᴰ.refl (all_offered cs)))))

-- First in, first out, under every policy: over any run of calls on a valid channel the packets taken
-- out, followed by those that are left, are a subsequence of those that were there, followed by those
-- offered.
pub run_in_order :
    (cs : List Call) (e : EdgeChannel)
    → IsValid e
    → Sublistᴰ (all_delivered (run cs e).0 ++ contents (run cs e).1) (contents e ++ all_offered cs)
run_in_order cs e v =
    subst
      (λ (x : List Reply × Queue).
        Sublistᴰ (all_delivered x.0 ++ x.1.items) (contents e ++ all_offered cs))
      (sym (run_refines cs e v)) (run-Sublistᴰ (length e.ring) e.config.policy cs (view e))
