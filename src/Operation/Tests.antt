-- ===== src/Operation/Tests.antt =====
-- The registry at concrete calls: runs of the code, and the theorems at inputs that meet their
-- hypotheses.
use ge.Prelude.{◌≡◌, refl, true, none, some, List, [], ◌∷◌, arith}
use ge.Prelude.Int.{pos}
use ge.Operation.{
  OperationRecord, OperationRegistry, Ending, succeeded, failed, other_value, object,
  empty_registry, new_record, is_object, is_terminal, emplace, end_record, end_operation,
  merge_detail, trim, report, finish, succeed, fail, cancel, create, set_terminal_hook, set_running,
  run_record, get,
}
use ge.Operation.Calls.{
  Call, hooks, creates, runs, succeeds, fails, cancels, versions, step, run, verdict,
}
use ge.Operation.Terminal.{Says, run-Says}
use ge.Operation.Retention.{IsValid, empty_registry-IsValid, run_retains}
use ge.Operation.Reports.{IsReported, is_reported, run-IsReported}

-- Two operations in a registry that retains one terminal record.
abbrev calls : List Call
calls =
    hooks true
    ∷ creates 4 9 2 (object []) (pos 10)
    ∷ creates 5 9 2 (object []) (pos 11)
    ∷ runs 1
    ∷ succeeds 1 (some 3) none other_value (pos 12)
    ∷ cancels 1 6 (pos 13)
    ∷ fails 2 (18, 7) other_value (pos 14)
    ∷ []

abbrev start : OperationRegistry
start = empty_registry 1

first_forgotten : get 1 (run calls start) ≡ none
unfolding run step empty_registry set_terminal_hook create emplace new_record is_object set_running
    run_record is_terminal succeed fail cancel finish end_operation end_record merge_detail trim
    report
first_forgotten = refl

run_retains_example : IsValid (run calls start)
unfolding empty_registry
run_retains_example = run_retains calls start (empty_registry-IsValid 1) (omega arith)

start-IsReported : IsReported start
unfolding empty_registry is_reported
start-IsReported = record { valid = empty_registry-IsValid 1; over = λ i h. absurd (cc); once = tt }

run-IsReported_example : IsReported (run calls start)
unfolding empty_registry
run-IsReported_example = run-IsReported calls start start-IsReported (omega arith)

abbrev later : List Call
later = versions 1 8 ∷ fails 1 (18, 7) other_value (pos 14) ∷ []

abbrev ended_record : OperationRecord
ended_record = record (new_record 1 4 9 2 (object []) (pos 10)) {
  state = succeeded;
  finished_ns = pos 12;
}

abbrev ended : OperationRegistry
ended = record start { records = λ i. some ended_record; next_id = 2 }

run-Says_example : Says (verdict ended_record) ((run later ended).records 1)
unfolding is_terminal empty_registry
run-Says_example =
    run-Says 1 (verdict ended_record) later ended (omega arith) (omega arith) (refl, refl)

abbrev one_created : OperationRegistry
one_created = run (creates 4 9 2 (object []) (pos 10) ∷ []) start

abbrev ending : Ending
ending = record {
  state = failed;
  result = (18, 7);
  detail = other_value;
  topology_version = none;
  parameter_version = none;
  now = pos 14;
}
