-- ===== src/Operation/Reports.antt =====
-- The terminal hook of src/operation.cpp.
use ge.Prelude.{
  ℕ, ◌+◌, ◌^◌, ◌≤◌, ◌<◌, ◌≡◌, refl, sym, ap, ◌∙◌, true, false, Bool, ◌||◌, some, List, [], ◌∷◌,
  ◌++◌, length, arith, inl, inr, Bool-cases, if_cases, if◌then◌else◌, ◌==◌, incr64,
}
use ge.Operation.{
  OperationRecord, OperationRegistry, Ending, is_terminal, put, emplace, report, end_operation,
  end_record,
}
use ge.Operation.Calls.{Call, step, run, Touches, step_cases}
use ge.Operation.Terminal.{put_cases, emplace_cases, trim_cases}
use ge.Operation.Newest.{still_live}
use ge.Operation.Trim.{is_live}
use ge.Operation.Retention.{
  live-Touches, IsValid, Keyed-at, live_of, created-IsValid, touched-IsValid, end_operation-IsValid,
}

unfoldable pub is_reported : ℕ → List OperationRecord → Bool
is_reported i [] = false
is_reported i (r ∷ rs) = r.id == i || is_reported i rs

-- No id stands twice.
abbrev pub Once : List OperationRecord → Type 0
Once [] = Unit {0}
Once (r ∷ rs) = (is_reported r.id rs ≡ false) × Once rs

is_reported-append :
    (i : ℕ) (rs : List OperationRecord) (r : OperationRecord)
    → is_reported i (rs ++ r ∷ []) ≡ (is_reported i rs || r.id == i)
unfolding is_reported
is_reported-append i [] r = ground arith
is_reported-append i (x ∷ rs) r = ground (arith, is_reported-append i rs r)

Once-append :
    (rs : List OperationRecord) (r : OperationRecord)
    → Once rs
    → is_reported r.id rs ≡ false
    → Once (rs ++ r ∷ [])
unfolding is_reported
Once-append [] r o n = (refl, tt)
Once-append (x ∷ rs) r o n =
    (ground (arith, o.0, n, is_reported-append x.id rs r), Once-append rs r o.1 (ground (arith, n)))

-- The reports name each operation once, and none that has not ended.
pub record IsReported (g : OperationRegistry) : Type 0 where
  pub valid : IsValid g
  pub over :
      (i : ℕ) → is_reported i g.reported ≡ true → (i < g.next_id) × (is_live (g.records i) ≡ false)
  pub once : Once g.reported

-- A terminal id is in the list or is the new one.
reported_now :
    (b : Bool) (i : ℕ) (rs : List OperationRecord) (r : OperationRecord)
    → is_reported i (if b then rs ++ r ∷ [] else rs) ≡ true
    → (is_reported i rs || r.id == i) ≡ true
reported_now true i rs r h = sym (is_reported-append i rs r) ∙ h
reported_now false i rs r h = ground (arith, h)

not_reported :
    (g : OperationRegistry) (i : ℕ) (r : OperationRecord)
    → IsReported g
    → g.records i ≡ some r
    → is_terminal r.state ≡ false
    → is_reported i g.reported ≡ false
not_reported g i r v q live = elim (Bool-cases (is_reported i g.reported)) [
  | inl t ↦ absurd (still_live g i r q live (v.over i t).1)
  | inr f ↦ f
]

-- An id is over after another has ended, if it was over or is the one.
over_after :
    (i j : ℕ) (e : Ending) (r : OperationRecord) (g : OperationRegistry)
    → is_terminal e.state ≡ true
    → ((j == i) ≡ false → is_live (g.records j) ≡ false)
    → is_live ((end_operation i e r g).records j) ≡ false
unfolding end_operation report end_record
over_after i j e r g ends dead =
    let m = put i (some (end_record e r)) g.records in
    trim_cases (λ x. is_live x ≡ false) g.retain_terminal (g.terminal_order ++ i ∷ []) m j refl
      (if_cases (λ x. is_live x ≡ false) (j == i) (some (end_record e r)) (g.records j)
        (λ at. live_of (end_record e r) ends) dead)

end_operation-IsReported :
    (i : ℕ) (e : Ending) (r : OperationRecord) (g : OperationRegistry)
    → IsReported g
    → is_terminal e.state ≡ true
    → g.records i ≡ some r
    → is_terminal r.state ≡ false
    → IsReported (end_operation i e r g)
unfolding end_operation report end_record
end_operation-IsReported i e r g v ends q live =
    let k = Keyed-at g i r (v.valid.keyed i) q in
    let fresh : is_reported r.id g.reported ≡ false =
      ap (λ x. is_reported x g.reported) k.0 ∙ not_reported g i r v q live in
    record {
      valid = end_operation-IsValid i e r g v.valid ends q;
      over = λ j h.
          let now = reported_now g.has_hook j g.reported (end_record e r) h in
          elim (Bool-cases (is_reported j g.reported)) [
            | inl t ↦ ((v.over j t).0, over_after i j e r g ends (λ f. (v.over j t).1))
            | inr f ↦
                let here : j ≡ i = ground (arith, now, f, k.0) in
                (
                  omega (arith, here, k.1),
                  over_after i j e r g ends (λ f. absurd (ground (arith, f, here))),
                )
          ];
      once =
          if_cases Once g.has_hook _ _ (λ t. Once-append g.reported (end_record e r) v.once fresh)
            (λ t. v.once);
    }

created-IsReported :
    (g : OperationRegistry) (r : OperationRecord)
    → IsReported g
    → g.next_id + 1 < 2 ^ 64
    → is_terminal r.state ≡ false
    → r.id ≡ g.next_id
    → IsReported (record g { next_id = incr64 g.next_id; records = emplace g.next_id r g.records })
created-IsReported g r v room live new = record {
  valid = created-IsValid g r v.valid room live new;
  over = λ j h.
      let o = v.over j h in
      (
        omega (arith, o.0, room),
        emplace_cases (λ x. is_live x ≡ false) g.next_id r g.records j
            (λ at. absurd (omega (arith, at, o.0))) o.1,
      );
  once = v.once;
}

touched-IsReported :
    (g : OperationRegistry) (i : ℕ) (r r' : OperationRecord)
    → IsReported g
    → g.records i ≡ some r
    → Touches r r'
    → IsReported (record g { records = put i (some r') g.records })
touched-IsReported g i r r' v q t = record {
  valid = touched-IsValid g i r r' v.valid q t;
  over = λ j h.
      let o = v.over j h in
      (
        o.0,
        put_cases (λ x. is_live x ≡ false) i (some r') g.records j
            (λ at. live-Touches r r' t ∙ sym (ap is_live (ap g.records at ∙ q)) ∙ o.1) o.1,
      );
  once = v.once;
}

abbrev Follows : OperationRegistry → OperationRegistry → Type 0
Follows g g' = IsReported g' × (g'.next_id ≤ g.next_id + 1)

step-IsReported :
    (c : Call) (g : OperationRegistry)
    → IsReported g
    → g.next_id + 1 < 2 ^ 64
    → Follows g (step c g)
unfolding end_operation report
step-IsReported c g v room =
    step_cases (Follows g) g (v, omega arith)
      (λ hook. (
        record {
          valid = record {
            positive = v.valid.positive;
            short = v.valid.short;
            listed = v.valid.listed;
            ended = v.valid.ended;
            past = v.valid.past;
            keyed = v.valid.keyed;
          };
          over = v.over;
          once = v.once;
        },
        omega arith,
      ))
      (λ r live new. (created-IsReported g r v room live new, omega arith))
      (λ i r r' q t. (touched-IsReported g i r r' v q t, omega arith))
      (λ i e r ends q live. (end_operation-IsReported i e r g v ends q live, omega arith)) c

-- Over any calls from a valid registry whose reports name each operation once, as long as the ids do not
-- wrap at 64 bits: the terminal hook is called at most once for each operation, and only with ended ones.
pub run-IsReported :
    (cs : List Call) (g : OperationRegistry)
    → IsReported g
    → g.next_id + length cs < 2 ^ 64
    → IsReported (run cs g)
unfolding run
run-IsReported [] g v room = v
run-IsReported (c ∷ cs) g v room =
    let s = step-IsReported c g v (omega arith) in
    run-IsReported cs (step c g) s.0 (omega (arith, s.1))
