-- ===== src/Diff/State.antt =====
-- The data of include/ge/cpp/graph_diff.h, contracts of include/ge/cpp/capability.h, and the default
-- comparisons of the graph's parts.
use ge.Prelude.{ℕ, Bool, true, false, ◌&&◌, Option, none, some, List, Text, text_eq, ◌==◌}
use ge.Prelude.Int.{ℤ, pos, negsuc}
use ge.Edge.{DropPolicy, block, drop_oldest, drop_newest}
use ge.Graph.{
  ExecutorKind, auto, cpu, gpu, SyncPolicy, aligned, latest, any, ExecutorSpec, OperatorKey,
  QueueSpec,
}

pub data NodeChange : Type 0 where
  node_kept node_added node_removed node_replaced node_updated : NodeChange

pub data EdgeChange : Type 0 where
  edge_kept edge_added edge_removed edge_recreated : EdgeChange

-- The parts of a reason's text.
pub data Reason : Type 0 where
  endpoints producer_replaced consumer_replaced queue feedback contract : Reason
  executor parallelism : Reason
  operator_changed : OperatorKey → OperatorKey → Reason
  input_added input_rewired input_recreated input_removed : Text → Reason

pub record NodeEntry : Type 0 where
  pub change : NodeChange
  pub reason : List Reason

pub record EdgeEntry : Type 0 where
  pub change : EdgeChange
  pub reason : List Reason

pub record GraphDiff : Type 0 where
  pub nodes : List (Text × NodeEntry)
  pub edges : List (Text × EdgeEntry)

pub data MemoryKind : Type 0 where
  host pinned cuda_device dma_buf : MemoryKind

-- The selected formats are only compared: a number names each.
pub record ConnectionContract : Type 0 where
  pub logical_type : Text
  pub video : Option ℕ
  pub audio : Option ℕ
  pub tensor : Option ℕ
  pub memory_kind : MemoryKind
  pub device_id : ℤ
  pub sync_policy : SyncPolicy
  pub source_capability : ℕ
  pub target_capability : ℕ

unfoldable pub option_eq : {A : Type 0} → (A → A → Bool) → Option A → Option A → Bool
option_eq eq none none = true
option_eq eq none (some y) = false
option_eq eq (some x) none = false
option_eq eq (some x) (some y) = eq x y

unfoldable pub int_eq : ℤ → ℤ → Bool
int_eq (pos m) (pos n) = m == n
int_eq (negsuc m) (negsuc n) = m == n
int_eq (pos m) (negsuc n) = false
int_eq (negsuc m) (pos n) = false

abbrev pub number_of_memory : MemoryKind → ℕ
number_of_memory host = 0
number_of_memory pinned = 1
number_of_memory cuda_device = 2
number_of_memory dma_buf = 3

abbrev pub number_of_sync : SyncPolicy → ℕ
number_of_sync aligned = 0
number_of_sync latest = 1
number_of_sync any = 2

abbrev pub number_of_policy : DropPolicy → ℕ
number_of_policy block = 0
number_of_policy drop_oldest = 1
number_of_policy drop_newest = 2

abbrev pub number_of_executor : ExecutorKind → ℕ
number_of_executor auto = 0
number_of_executor cpu = 1
number_of_executor gpu = 2

-- SameDataPlane.
unfoldable pub same_data_plane : ConnectionContract → ConnectionContract → Bool
same_data_plane c d =
    text_eq c.logical_type d.logical_type
    && option_eq ◌==◌ c.video d.video
    && option_eq ◌==◌ c.audio d.audio
    && option_eq ◌==◌ c.tensor d.tensor
    && number_of_memory c.memory_kind == number_of_memory d.memory_kind
    && int_eq c.device_id d.device_id
    && number_of_sync c.sync_policy == number_of_sync d.sync_policy

unfoldable pub op_eq : OperatorKey → OperatorKey → Bool
op_eq a b = text_eq a.type_name b.type_name && text_eq a.semantic_version b.semantic_version

unfoldable pub executor_eq : ExecutorSpec → ExecutorSpec → Bool
executor_eq a b =
    number_of_executor a.kind == number_of_executor b.kind
    && option_eq int_eq a.device_id b.device_id

unfoldable pub queue_eq : QueueSpec → QueueSpec → Bool
queue_eq a b =
    a.capacity == b.capacity
    && number_of_policy a.policy == number_of_policy b.policy
    && option_eq ◌==◌ a.max_packet_bytes b.max_packet_bytes

unfoldable pub bool_eq : Bool → Bool → Bool
bool_eq true true = true
bool_eq false false = true
bool_eq true false = false
bool_eq false true = false
