-- ===== src/Parameters/State.antt =====
-- The snapshots, the records and the store of include/ge/cpp/node_runtime.h.
use ge.Prelude.{ℕ, Option, List}

-- A JSON object: its keys and values, in the order of the keys.
abbrev pub Members : Type 0
Members = List (ℕ × ℕ)

pub record ParameterSnapshot : Type 0 where
  pub version : ℕ
  pub values : Members
  pub effective_after_seq : ℕ

-- The source keeps the text of the values.
pub record ParameterAuditRecord : Type 0 where
  pub version : ℕ
  pub effective_after_seq : ℕ
  pub values : Members

-- A queued request is its members: Submit queues nothing but objects.
pub record ParameterStore : Type 0 where
  pub current : ParameterSnapshot
  pub pending : Option ParameterSnapshot
  pub queued : List Members
  pub history : List ParameterAuditRecord
  pub history_capacity : ℕ
  pub last_hot_updatable : List ℕ

-- The result of Submit.
pub data Submitted : Type 0 where
  accepted : ℕ → Submitted
  invalid_argument parameter_unsupported : Submitted
