-- ===== src/Operation/State.antt =====
-- The records and the registry of include/ge/cpp/operation.h.
use ge.Prelude.{ℕ, Bool, Option, List}
use ge.Prelude.Int.{ℤ}

pub data OperationState : Type 0 where
  accepted running succeeded failed cancelled : OperationState

-- A JSON value, as far as the code looks into it: an object with its members, keys and values named
-- by numbers, or another value.
pub data Detail : Type 0 where
  object : List (ℕ × ℕ) → Detail
  other_value : Detail

-- A status is its code and a number for its message. Kind and caller are only passed along, and a
-- number names each.
pub record OperationRecord : Type 0 where
  pub id : ℕ
  pub kind : ℕ
  pub session_id : ℕ
  pub state : OperationState
  pub result : ℕ × ℕ
  pub topology_version : Option ℕ
  pub parameter_version : Option ℕ
  pub caller : ℕ
  pub detail : Detail
  pub created_ns : ℤ
  pub finished_ns : ℤ

abbrev pub Records : Type 0
Records = ℕ → Option OperationRecord

-- `has_hook` is that a terminal hook is set; `reported` are the records that it was called with.
pub record OperationRegistry : Type 0 where
  pub has_hook : Bool
  pub records : Records
  pub terminal_order : List ℕ
  pub retain_terminal : ℕ
  pub next_id : ℕ
  pub reported : List OperationRecord
