-- ===== src/Graph/State.antt =====
-- The data of include/ge/cpp/graph_spec.h: nodes, edges and the graph that holds them.
use ge.Prelude.{ℕ, Bool, ◌&&◌, Option, List, [], Text, text_eq}
use ge.Prelude.Int.{ℤ}
use ge.Edge.{DropPolicy}

pub data ExecutorKind : Type 0 where
  auto cpu gpu : ExecutorKind

pub data SyncPolicy : Type 0 where
  aligned latest any : SyncPolicy

pub data RemovePolicy : Type 0 where
  drain fast : RemovePolicy

pub data RemoveMode : Type 0 where
  disconnect bypass : RemoveMode

pub record ExecutorSpec : Type 0 where
  pub kind : ExecutorKind
  pub device_id : Option ℤ

pub record OperatorKey : Type 0 where
  pub type_name : Text
  pub semantic_version : Text

-- The options and the labels are only passed along: a number names each.
pub record NodeSpec : Type 0 where
  pub id : Text
  pub op : OperatorKey
  pub executor : ExecutorSpec
  pub parallelism : ℕ
  pub options : ℕ
  pub labels : ℕ

pub record PortRef : Type 0 where
  pub node_id : Text
  pub port : Text

pub record QueueSpec : Type 0 where
  pub capacity : ℕ
  pub policy : DropPolicy
  pub max_packet_bytes : Option ℕ

pub record EdgeSpec : Type 0 where
  pub id : Text
  pub from : PortRef
  pub to : PortRef
  pub queue : QueueSpec
  pub sync : Option SyncPolicy
  pub feedback : Bool

pub record GraphSpec : Type 0 where
  pub nodes : List NodeSpec
  pub edges : List EdgeSpec

abbrev pub empty_graph : GraphSpec
empty_graph = record { nodes = []; edges = [] }

-- The code of a Status, without its message.
pub data Status : Type 0 where
  fine graph_invalid already_exists not_found invalid_argument shared_dependency : Status

abbrev pub port_eq : PortRef → PortRef → Bool
port_eq p q = text_eq p.node_id q.node_id && text_eq p.port q.port
