-- ===== src/Operation.antt =====
-- src/operation.cpp and include/ge/cpp/operation.h: the registry of asynchronous operations. The
-- mutex makes every call one step. The map of records is a function from ids.
pub mod Calls
pub mod Terminal
pub mod Reports
pub mod Retention
pub mod Newest
pub mod Trim
mod Tests
mod State
pub use State.*
use ge.Prelude.{
  ℕ, max, Bool, true, false, Option, none, some, List, [], ◌∷◌, ◌++◌, ltb, ◌==◌, if◌then◌else◌,
  length, incr64,
}
use ge.Prelude.Int.{ℤ, pos}

unfoldable pub is_terminal : OperationState → Bool
is_terminal accepted = false
is_terminal running = false
is_terminal _ = true

unfoldable pub is_object : Detail → Bool
is_object (object members) = true
is_object other_value = false

abbrev pub put : ℕ → Option OperationRecord → Records → Records
put i r m j = if j == i then r else m j

unfoldable pub empty_registry : ℕ → OperationRegistry
empty_registry retain = record {
  has_hook = false;
  records = λ i. none;
  terminal_order = [];
  retain_terminal = max 1 retain;
  next_id = 1;
  reported = [];
}

unfoldable pub set_terminal_hook : Bool → OperationRegistry → OperationRegistry
set_terminal_hook hook g = record g { has_hook = hook }

-- std::map::emplace leaves an entry that is there.
unfoldable pub emplace : ℕ → OperationRecord → Records → Records
emplace i r m = elim (m i) [ none ↦ put i (some r) m | some old ↦ m ]

-- `now` is the wall clock.
unfoldable pub new_record : ℕ → ℕ → ℕ → ℕ → Detail → ℤ → OperationRecord
new_record id kind session caller detail now = record {
  id = id;
  kind = kind;
  session_id = session;
  state = accepted;
  result = (0, 0);
  topology_version = none;
  parameter_version = none;
  caller = caller;
  detail = if is_object detail then detail else object [];
  created_ns = now;
  finished_ns = pos 0;
}

unfoldable pub create : ℕ → ℕ → ℕ → Detail → ℤ → OperationRegistry → ℕ × OperationRegistry
create kind session caller detail now g = (
  g.next_id,
  record g {
    next_id = incr64 g.next_id;
    records = emplace g.next_id (new_record g.next_id kind session caller detail now) g.records;
  },
)

unfoldable pub run_record : OperationRecord → OperationRecord
run_record r = if is_terminal r.state then r else record r { state = running }

unfoldable pub set_running : ℕ → OperationRegistry → OperationRegistry
set_running i g = elim (g.records i) [
  | none ↦ g
  | some r ↦ record g { records = put i (some (run_record r)) g.records }
]

unfoldable pub set_topology_version : ℕ → ℕ → OperationRegistry → OperationRegistry
set_topology_version i v g = elim (g.records i) [
  | none ↦ g
  | some r ↦ record g { records = put i (some (record r { topology_version = some v })) g.records }
]

-- What a finish brings: the state, the result, the versions where they are given, the detail and the
-- time.
pub record Ending : Type 0 where
  pub state : OperationState
  pub result : ℕ × ℕ
  pub detail : Detail
  pub topology_version : Option ℕ
  pub parameter_version : Option ℕ
  pub now : ℤ

abbrev or_old : Option ℕ → Option ℕ → Option ℕ
or_old none old = old
or_old (some v) old = some v

-- `merged[k] = v`.
unfoldable pub put_member : ℕ → ℕ → List (ℕ × ℕ) → List (ℕ × ℕ)
put_member k v [] = (k, v) ∷ []
put_member k v ((j, w) ∷ rest) =
    let below = put_member k v rest in
    if j == k then (j, v) ∷ rest else if ltb k j then (k, v) ∷ (j, w) ∷ rest else (j, w) ∷ below

unfoldable pub put_members : List (ℕ × ℕ) → List (ℕ × ℕ) → List (ℕ × ℕ)
put_members [] merged = merged
put_members ((k, v) ∷ rest) merged = put_members rest (put_member k v merged)

unfoldable pub merge_detail : Detail → Detail → Detail
merge_detail old other_value = old
merge_detail other_value (object new) = object (put_members new [])
merge_detail (object old) (object new) = object (put_members new old)

unfoldable pub end_record : Ending → OperationRecord → OperationRecord
end_record e r = record r {
  state = e.state;
  result = e.result;
  topology_version = or_old e.topology_version r.topology_version;
  parameter_version = or_old e.parameter_version r.parameter_version;
  detail = merge_detail r.detail e.detail;
  finished_ns = e.now;
}

-- The loop that forgets the oldest terminal records.
unfoldable pub trim : ℕ → List ℕ → Records → List ℕ × Records
trim retain [] m = ([], m)
trim retain (i ∷ rest) m =
    if ltb retain (length (i ∷ rest)) then trim retain rest (put i none m) else (i ∷ rest, m)

unfoldable pub report : OperationRecord → OperationRegistry → OperationRegistry
report r g = record g { reported = if g.has_hook then g.reported ++ r ∷ [] else g.reported }

-- Finish for a record that is there and not terminal.
unfoldable pub end_operation : ℕ → Ending → OperationRecord → OperationRegistry → OperationRegistry
unfolding report
end_operation i e r g =
    let (order, records) =
      trim g.retain_terminal (g.terminal_order ++ i ∷ [])
        (put i (some (end_record e r)) g.records) in
    report (end_record e r) (record g { terminal_order = order; records = records })

unfoldable pub finish : ℕ → Ending → OperationRegistry → OperationRegistry
finish i e g = elim (g.records i) [
  | none ↦ g
  | some r ↦ if is_terminal r.state then g else end_operation i e r g
]

unfoldable pub succeed :
    ℕ → Option ℕ → Option ℕ → Detail → ℤ → OperationRegistry → OperationRegistry
succeed i tv pv detail now g =
    finish i
      (record {
        state = succeeded;
        result = (0, 0);
        detail = detail;
        topology_version = tv;
        parameter_version = pv;
        now = now;
      })
      g

unfoldable pub fail : ℕ → ℕ × ℕ → Detail → ℤ → OperationRegistry → OperationRegistry
fail i status detail now g =
    finish i
      (record {
        state = failed;
        result = status;
        detail = detail;
        topology_version = none;
        parameter_version = none;
        now = now;
      })
      g

-- 17 is GE_STATUS_CANCELLED.
unfoldable pub cancel : ℕ → ℕ → ℤ → OperationRegistry → OperationRegistry
cancel i reason now g =
    finish i
      (record {
        state = cancelled;
        result = (17, reason);
        detail = other_value;
        topology_version = none;
        parameter_version = none;
        now = now;
      })
      g

abbrev pub get : ℕ → OperationRegistry → Option OperationRecord
get i g = g.records i
