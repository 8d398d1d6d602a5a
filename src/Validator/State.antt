-- ===== src/Validator/State.antt =====
-- The data of Validate in src/graph_validator.cpp, and its issues without their messages.
use ge.Prelude.{Option, List, Text}
use ge.Graph.{NodeSpec, EdgeSpec, Status}
use ge.Applier.{CapabilityDescriptor}

pub record ValidationIssue : Type 0 where
  pub code : Status
  pub node_id : Text
  pub edge_id : Text

pub record NodeInfo : Type 0 where
  pub spec : NodeSpec
  pub cap : Option CapabilityDescriptor

-- The nodes known so far and the issues.
pub record NodeChecks : Type 0 where
  pub infos : List NodeInfo
  pub issues : List ValidationIssue

-- The ids of the edges seen so far, the uses of output and of input ports by the texts of the ports,
-- and the issues.
pub record EdgeChecks : Type 0 where
  pub edge_ids : List Text
  pub outputs : List (Text × EdgeSpec)
  pub inputs : List (Text × EdgeSpec)
  pub issues : List ValidationIssue
