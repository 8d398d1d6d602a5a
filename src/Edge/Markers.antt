-- ===== src/Edge/Markers.antt =====
-- End-of-stream markers in a run: none is lost but by a fast retirement.
use ge.Prelude.{
  ℕ, ◌+◌, ◌≤◌, ◌≡◌, sym, ap, ◌∙◌, subst, true, false, some, List, [], ◌∷◌, ◌++◌, arith, inl, inr,
  if◌then◌else◌, Bool-cases, Option-cases, length,
}
use ge.Packet.{PacketRef, ref_is_eos}
use ge.Edge.{EdgeChannel, EdgeState, DropPolicy}
use ge.Edge.Queue
use ge.Edge.Queue.{Queue, drop_first_data, append, refuse}
use ge.Edge.Inv.{IsValid}
use ge.Edge.Contents.{contents}
use ge.Edge.View.{view}
use ge.Edge.Runs.{
  Call, pushes, pushes_checked, injects, pops, drains, clears, marks, retires, Reply, taken, run,
  apply_queue, run_queue, run_refines,
}
use ge.Edge.Order.{delivered, all_delivered, push_cases, inject_cases, items-clear, items-mark}

unfoldable pub markers : List PacketRef → ℕ
markers [] = 0
markers (x ∷ xs) = (if ref_is_eos x then 1 else 0) + markers xs

markers-append : (xs ys : List PacketRef) → markers (xs ++ ys) ≡ markers xs + markers ys
unfolding markers
markers-append [] ys = omega arith
markers-append (x ∷ xs) ys = omega (arith, markers-append xs ys)

-- An eviction takes no marker.
markers-drop_first_data :
    (xs ys : List PacketRef) → drop_first_data xs ≡ some ys → markers ys ≡ markers xs
unfolding drop_first_data markers
markers-drop_first_data [] ys e = absurd (cc)
markers-drop_first_data (x ∷ xs) ys e = elim (Bool-cases (ref_is_eos x)) [
  | inr other ↦ rw other (let q : xs ≡ ys = ground arith in rw (← q) (omega arith))
  | inl eos ↦ elim (Option-cases (drop_first_data xs)) [
    | inl n ↦ absurd (ground arith)
    | inr (zs, q) ↦
        let r : x ∷ zs ≡ ys = ground arith in
        sym (ap markers r)
        ∙ ap (λ n. (if ref_is_eos x then 1 else 0) + n) (markers-drop_first_data xs zs q)
  ]
]

-- The calls but a fast retirement, which clears the queue.
abbrev pub IsGentle : Call → Type 0
IsGentle (retires true) = ⊥
IsGentle _ = Unit {0}

abbrev pub AllGentle : List Call → Type 0
AllGentle [] = Unit {0}
AllGentle (c ∷ cs) = IsGentle c × AllGentle cs

markers-push :
    (c : ℕ) (d : DropPolicy) (p : PacketRef) (q : Queue)
    → markers q.items ≤ markers (Queue.push c d p q).1.items
unfolding append refuse
markers-push c d p q =
    push_cases (λ r. markers q.items ≤ markers r.1.items) c d p q (omega arith) (omega arith)
      (omega (arith, markers-append q.items (p ∷ []))) (omega arith) (omega arith)
      (λ rest e.
        omega (arith, markers-append rest (p ∷ []), markers-drop_first_data q.items rest e))

markers-inject :
    (c : ℕ) (p : PacketRef) (q : Queue) → markers q.items ≤ markers (Queue.inject_eos c p q).1.items
unfolding append
markers-inject c p q =
    inject_cases (λ r. markers q.items ≤ markers r.1.items) c p q (omega arith) (omega arith)
      (omega (arith, markers-append q.items (p ∷ []))) (omega arith)

markers-pop :
    (s : EdgeState) (xs : List PacketRef)
    → let (r, q) = Queue.pop (record { state = s; items = xs }) in
      markers xs ≤ markers (delivered (taken r)) + markers q.items
unfolding Queue.pop delivered markers
markers-pop s [] = omega arith
markers-pop s (p ∷ xs) = omega arith

step-markers :
    (c : ℕ) (d : DropPolicy) (a : Call) (q : Queue)
    → IsGentle a
    → let (r, q') = apply_queue c d a q in
      markers q.items ≤ markers (delivered r) + markers q'.items
unfolding apply_queue delivered markers Queue.mark_draining Queue.mark_retired
step-markers c d (pushes p) q g = omega (arith, markers-push c d p q)
step-markers c d (pushes_checked p) q g = omega (arith, markers-push c d p q)
step-markers c d (injects p) q g = omega (arith, markers-inject c p q)
step-markers c d pops q g = markers-pop q.state q.items
step-markers c d drains q g = omega arith
step-markers c d (retires true) q g = absurd g
step-markers c d (retires false) q g = omega arith
step-markers c d clears q g = rw (items-clear c q) (omega arith)
step-markers c d marks q g = rw (items-mark c q) (omega arith)

run-markers :
    (c : ℕ) (d : DropPolicy) (cs : List Call) (q : Queue)
    → AllGentle cs
    → let (rs, q') = run_queue c d cs q in
      markers q.items ≤ markers (all_delivered rs) + markers q'.items
unfolding run_queue all_delivered markers
run-markers c d [] q g = omega arith
run-markers c d (a ∷ cs) q g =
    let (r, q1) = apply_queue c d a q in
    omega (
      arith,
      step-markers c d a q g.0,
      run-markers c d cs q1 g.1,
      markers-append (delivered r) (all_delivered (run_queue c d cs q1).0),
    )

-- Over a run from a valid channel with no fast retirement, the markers delivered and those queued at
-- the end are at least as many as the end-of-stream markers that were queued at the start.
pub run_keeps_markers :
    (cs : List Call) (e : EdgeChannel)
    → IsValid e
    → AllGentle cs
    → markers (contents e) ≤ markers (all_delivered (run cs e).0) + markers (contents (run cs e).1)
run_keeps_markers cs e v g =
    subst
      (λ (x : List Reply × Queue).
        markers (contents e) ≤ markers (all_delivered x.0) + markers x.1.items)
      (sym (run_refines cs e v)) (run-markers (length e.ring) e.config.policy cs (view e) g)
