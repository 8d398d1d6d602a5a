-- ===== src/Operation/Retention.antt =====
-- The bound on the terminal records that the registry of src/operation.cpp keeps.
use ge.Prelude.{
  ℕ, ◌+◌, ◌≤◌, ◌<◌, ◌^◌, incr64, ◌≡◌, refl, sym, ap, ◌∙◌, subst, true, false, Option, none, some,
  List, [], ◌∷◌, ◌++◌, length, arith, if_cases, if◌then◌else◌, ◌==◌,
}
use ge.Operation.{
  OperationRecord, OperationRegistry, Ending, is_terminal, put, emplace, report, end_operation,
  end_record, empty_registry,
}
use ge.Operation.Calls.{Call, step, run, Touches, step_cases}
use ge.Operation.Trim.{
  member, is_live, Listed, member-append, length-trim, member-trim, Listed-trim, Listed-weaken,
}
use ge.Operation.Terminal.{put_cases, emplace_cases, trim_cases}

-- A record stands under its own id, which was given out.
abbrev pub Keyed : ℕ → ℕ → Option OperationRecord → Type 0
Keyed next i none = Unit {0}
Keyed next i (some r) = (r.id ≡ i) × (i < next)

-- The list of terminal ids has at most the retained length, holds no live operation, and names every
-- terminal record.
pub record IsValid (g : OperationRegistry) : Type 0 where
  pub positive : 0 < g.retain_terminal
  pub short : length g.terminal_order ≤ g.retain_terminal
  pub listed : (i : ℕ) → Listed (member i g.terminal_order) (g.records i)
  pub ended : (i : ℕ) → member i g.terminal_order ≡ true → is_live (g.records i) ≡ false
  pub past : (i : ℕ) → member i g.terminal_order ≡ true → i < g.next_id
  pub keyed : (i : ℕ) → Keyed g.next_id i (g.records i)

pub live_of : (r : OperationRecord) → is_terminal r.state ≡ true → is_live (some r) ≡ false
live_of r t = rw t refl

Keyed-weaken : (n k i : ℕ) (r : Option OperationRecord) → n ≤ k → Keyed n i r → Keyed k i r
Keyed-weaken n k i none le h = tt
Keyed-weaken n k i (some r) le h = (h.0, omega (arith, le, h.1))

-- The entry of an id at which there is a record.
pub Keyed-at :
    (g : OperationRegistry) (i : ℕ) (r : OperationRecord)
    → Keyed g.next_id i (g.records i)
    → g.records i ≡ some r
    → (r.id ≡ i) × (i < g.next_id)
Keyed-at g i r h q = subst (Keyed g.next_id i) q h

pub Keyed-put :
    (g : OperationRegistry) (i : ℕ) (r r' : OperationRecord)
    → ((j : ℕ) → Keyed g.next_id j (g.records j))
    → g.records i ≡ some r
    → r'.id ≡ r.id
    → (j : ℕ) → Keyed g.next_id j (put i (some r') g.records j)
Keyed-put g i r r' h q same j =
    let k = Keyed-at g i r (h i) q in
    put_cases (Keyed g.next_id j) i (some r') g.records j
      (λ at. (same ∙ k.0 ∙ sym at, omega (arith, at, k.1))) (h j)

pub end_operation-IsValid :
    (i : ℕ) (e : Ending) (r : OperationRecord) (g : OperationRegistry)
    → IsValid g
    → is_terminal e.state ≡ true
    → g.records i ≡ some r
    → IsValid (end_operation i e r g)
unfolding end_operation report end_record
end_operation-IsValid i e r g v ends q =
    let k = g.retain_terminal in
    let order = g.terminal_order ++ i ∷ [] in
    let m = put i (some (end_record e r)) g.records in
    record {
      positive = v.positive;
      short = length-trim k order m;
      listed = λ j. Listed-trim k order m j (
          put_cases (Listed (member j order)) i (some (end_record e r)) g.records j
            (λ at t. ground (arith, at, member-append j g.terminal_order i))
            (Listed-weaken (member j g.terminal_order) (member j order) (g.records j)
              (λ t. ground (arith, t, member-append j g.terminal_order i)) (v.listed j)));
      ended = λ j h.
          let there : member j order ≡ true = member-trim k order m j h in
          trim_cases (λ x. is_live x ≡ false) k order m j refl
            (if_cases (λ x. is_live x ≡ false) (j == i) (some (end_record e r)) (g.records j)
              (λ at. live_of (end_record e r) ends)
              (λ other.
                v.ended j (ground (arith, there, other, member-append j g.terminal_order i))));
      past = λ j h.
          let there : member j order ≡ true = member-trim k order m j h in
          ground (
            arith,
            there,
            member-append j g.terminal_order i,
            v.past j,
            (Keyed-at g i r (v.keyed i) q).1,
          );
      keyed = λ j.
          trim_cases (Keyed g.next_id j) k order m j tt
            (Keyed-put g i r (end_record e r) v.keyed q refl j);
    }

-- A call of the registry keeps it valid, and gives out one id at most.
abbrev Follows : OperationRegistry → OperationRegistry → Type 0
Follows g g' = IsValid g' × (g'.next_id ≤ g.next_id + 1)

pub created-IsValid :
    (g : OperationRegistry) (r : OperationRecord)
    → IsValid g
    → g.next_id + 1 < 2 ^ 64
    → is_terminal r.state ≡ false
    → r.id ≡ g.next_id
    → IsValid (record g { next_id = incr64 g.next_id; records = emplace g.next_id r g.records })
created-IsValid g r v room live new =
    let grows : incr64 g.next_id ≡ g.next_id + 1 = omega arith in
    record {
      positive = v.positive;
      short = v.short;
      listed = λ j.
          emplace_cases (Listed (member j g.terminal_order)) g.next_id r g.records j
            (λ at t. absurd (cc (t, live))) (v.listed j);
      ended = λ j h.
          emplace_cases (λ x. is_live x ≡ false) g.next_id r g.records j
            (λ at. absurd (omega (arith, at, v.past j h))) (v.ended j h);
      past = λ j h. omega (arith, grows, v.past j h);
      keyed = λ j.
          emplace_cases (Keyed (incr64 g.next_id) j) g.next_id r g.records j
            (λ at. (new ∙ sym at, omega (arith, at, grows)))
            (Keyed-weaken g.next_id (incr64 g.next_id) j (g.records j) (omega (arith, grows))
              (v.keyed j));
    }

pub live-Touches : (r r' : OperationRecord) → Touches r r' → is_live (some r') ≡ is_live (some r)
live-Touches r r' t = ap (λ b. if b then false else true) t.same_end

pub touched-IsValid :
    (g : OperationRegistry) (i : ℕ) (r r' : OperationRecord)
    → IsValid g
    → g.records i ≡ some r
    → Touches r r'
    → IsValid (record g { records = put i (some r') g.records })
touched-IsValid g i r r' v q t = record {
  positive = v.positive;
  short = v.short;
  listed = λ j.
      put_cases (Listed (member j g.terminal_order)) i (some r') g.records j
        (λ at ends.
          subst (Listed (member j g.terminal_order)) (ap g.records at ∙ q) (v.listed j)
            (sym t.same_end ∙ ends))
        (v.listed j);
  ended = λ j h.
      put_cases (λ x. is_live x ≡ false) i (some r') g.records j
        (λ at. live-Touches r r' t ∙ sym (ap is_live (ap g.records at ∙ q)) ∙ v.ended j h)
        (v.ended j h);
  past = v.past;
  keyed = Keyed-put g i r r' v.keyed q t.same_id;
}

step-IsValid :
    (c : Call) (g : OperationRegistry) → IsValid g → g.next_id + 1 < 2 ^ 64 → Follows g (step c g)
unfolding end_operation report
step-IsValid c g v room =
    step_cases (Follows g) g (v, omega arith)
      (λ hook. (
        record {
          positive = v.positive;
          short = v.short;
          listed = v.listed;
          ended = v.ended;
          past = v.past;
          keyed = v.keyed;
        },
        omega arith,
      ))
      (λ r live new. (created-IsValid g r v room live new, omega arith))
      (λ i r r' q t. (touched-IsValid g i r r' v q t, omega arith))
      (λ i e r ends q live. (end_operation-IsValid i e r g v ends q, omega arith)) c

-- Over any calls from a valid registry, as long as the ids do not wrap at 64 bits: the list of terminal
-- ids names every terminal record, holds no other operation's id, and is at most as long as the number
-- of records to retain.
pub run_retains :
    (cs : List Call) (g : OperationRegistry)
    → IsValid g
    → g.next_id + length cs < 2 ^ 64
    → IsValid (run cs g)
unfolding run
run_retains [] g v room = v
run_retains (c ∷ cs) g v room =
    let s = step-IsValid c g v (omega arith) in run_retains cs (step c g) s.0 (omega (arith, s.1))

pub empty_registry-IsValid : (retain : ℕ) → IsValid (empty_registry retain)
unfolding empty_registry member
empty_registry-IsValid retain = record {
  positive = omega arith;
  short = omega arith;
  listed = λ i. tt;
  ended = λ i h. refl;
  past = λ i h. absurd (cc);
  keyed = λ i. tt;
}
