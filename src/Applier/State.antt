-- ===== src/Applier/State.antt =====
-- The data of include/ge/cpp/mutation_applier.h, and what it reads of include/ge/cpp/capability.h.
use ge.Prelude.{Bool, true, false, Option, List, [], ◌∷◌, Text, text_eq, ◌||◌, ℕ}
use ge.Graph.{GraphSpec, RemovePolicy, OperatorKey, Status, fine}

-- Result of include/ge/cpp/types.h.
pub data Result {ℓ} (A : Type ℓ) : Type ℓ where
  ok : A → Result A
  err : Status → Result A

infixl 5 ◌>>=◌ ◌>>◌
abbrev pub ◌>>=◌ {ℓ κ} : {A : Type ℓ} {B : Type κ} → Result A → (A → Result B) → Result B
ok a >>= f = f a
err s >>= f = err s

abbrev pub ◌>>◌ {ℓ} : {B : Type ℓ} → Result (Unit {0}) → Result B → Result B
m >> k = m >>= λ _. k

abbrev pub guard : Bool → Status → Result (Unit {0})
guard true s = ok tt
guard false s = err s

-- The change of a graph, if its status is fine.
abbrev pub changed : Status × GraphSpec → Result GraphSpec
changed (fine, g) = ok g
changed (s, g) = err s

abbrev pub some_or {ℓ} : {A : Type ℓ} → Option A → Status → Result A
some_or (Option.some a) s = ok a
some_or Option.none s = err s

pub data PortCardinality : Type 0 where
  single multi : PortCardinality

-- The parts of a capability that the edits and the checks of a graph read.
pub record PortCapability : Type 0 where
  pub name : Text
  pub required : Bool
  pub cardinality : PortCardinality

pub data DeviceKind : Type 0 where
  cpu_device gpu_device : DeviceKind

pub record ExecutionCapability : Type 0 where
  pub devices : List DeviceKind
  pub max_parallelism : ℕ

pub record CapabilityDescriptor : Type 0 where
  pub inputs : List PortCapability
  pub outputs : List PortCapability
  pub execution : ExecutionCapability

-- The registry of operators, which a MutationApplier is given.
abbrev pub CapabilityResolver : Type 0
CapabilityResolver = OperatorKey → Option CapabilityDescriptor

pub record CandidateSpec : Type 0 where
  pub candidate : GraphSpec
  pub added_nodes : List Text
  pub removed_nodes : List Text
  pub added_edges : List Text
  pub removed_edges : List Text
  pub node_remove_policy : List (Text × RemovePolicy)
  pub parameter_updates : List (Text × ℕ)
  pub touched_nodes : List Text
  pub touched_edges : List Text

unfoldable pub mem : Text → List Text → Bool
mem id [] = false
mem id (x ∷ xs) = text_eq x id || mem id xs
