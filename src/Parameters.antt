-- ===== src/Parameters.antt =====
-- ParameterStore of src/node_runtime.cpp and include/ge/cpp/node_runtime.h: the parameters of a node,
-- changed between packets. The mutex makes every call one step.
mod State
pub use State.*
pub mod Log
pub mod Refines
pub mod Versions
mod Tests
use ge.Prelude.{
  ℕ, ◌+◌, ◌%◌, ◌^◌, Bool, true, false, ◌&&◌, Option, none, some, List, [], ◌∷◌, ◌++◌, ltb,
  if◌then◌else◌, length, contains, incr64,
}
use ge.Operation.{Detail, object, other_value, put_members}

-- The initial values are those of an object, or none.
unfoldable pub members_of : Detail → Members
members_of (object members) = members
members_of other_value = []

unfoldable pub new_store : Detail → ℕ → ParameterStore
new_store initial capacity = record {
  current = record { version = 1; values = members_of initial; effective_after_seq = 0 };
  pending = none;
  queued = [];
  history = [];
  history_capacity = capacity;
  last_hot_updatable = [];
}

-- Every key may be changed.
unfoldable pub all_hot : List ℕ → Members → Bool
all_hot hot [] = true
all_hot hot ((key, value) ∷ rest) = contains key hot && all_hot hot rest

unfoldable pub next_snapshot : ParameterSnapshot → Members → ParameterSnapshot
next_snapshot base request = record {
  version = incr64 base.version;
  values = put_members request base.values;
  effective_after_seq = 0;
}

-- The part of Submit under the lock: a request waits behind the pending one, or becomes it.
unfoldable pub submit_locked : Members → ParameterStore → Submitted × ParameterStore
submit_locked request p = elim p.pending [
  | some s ↦ (
    accepted ((s.version + length (p.queued ++ request ∷ [])) % 2 ^ 64),
    record p { queued = p.queued ++ request ∷ [] },
  )
  | none ↦ (
    accepted (next_snapshot p.current request).version,
    record p { pending = some (next_snapshot p.current request) },
  )
]

unfoldable pub submit : Detail → List ℕ → ParameterStore → Submitted × ParameterStore
submit other_value hot p = (invalid_argument, p)
submit (object request) hot p =
    if all_hot hot request
    then submit_locked request (record p { last_hot_updatable = hot })
    else (parameter_unsupported, p)

-- The first queued request that may still be made, and those behind it.
unfoldable pub promote :
    List ℕ → ParameterSnapshot → List Members → Option ParameterSnapshot × List Members
promote hot base [] = (none, [])
promote hot base (request ∷ rest) =
    if all_hot hot request then (some (next_snapshot base request), rest) else promote hot base rest

unfoldable pub promote_queued : ParameterStore → ParameterStore
promote_queued p =
    let (pending, queued) = promote p.last_hot_updatable p.current p.queued in
    record p { pending = pending; queued = queued }

-- The loop that forgets the oldest records.
unfoldable pub trim_history : ℕ → List ParameterAuditRecord → List ParameterAuditRecord
trim_history capacity [] = []
trim_history capacity (r ∷ rest) =
    if ltb capacity (length (r ∷ rest)) then trim_history capacity rest else r ∷ rest

unfoldable pub audit : ParameterSnapshot → ℕ → ParameterAuditRecord
audit s seq = record { version = s.version; effective_after_seq = seq; values = s.values }

unfoldable pub make_current : ParameterSnapshot → ℕ → ParameterStore → ParameterStore
make_current s seq p = promote_queued (record p {
  current = record s { effective_after_seq = seq };
  pending = none;
  history = trim_history p.history_capacity (p.history ++ audit s seq ∷ []);
})

unfoldable pub switch_at_packet_boundary : ℕ → ParameterStore → Option ℕ × ParameterStore
switch_at_packet_boundary seq p = elim p.pending [
  | none ↦ (none, p)
  | some s ↦ (some s.version, make_current s seq p)
]

unfoldable pub reject_pending : ParameterStore → ParameterStore
reject_pending p = promote_queued (record p { pending = none })
