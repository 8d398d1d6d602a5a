-- ===== src/Parameters/Log.antt =====
-- The contract of the ParameterStore: requests are numbered as they are accepted and take effect one
-- per switch, in that order.
use ge.Prelude.{ℕ, ◌+◌, ◌%◌, ◌^◌, Option, none, some, List, [], ◌∷◌, ◌++◌, if◌then◌else◌, length}
use ge.Operation.{Detail, object, other_value, put_members}
use ge.Parameters.{
  Members, ParameterStore, ParameterAuditRecord, Submitted, accepted, invalid_argument,
  parameter_unsupported, all_hot, submit, switch_at_packet_boundary, members_of,
}

pub data Call : Type 0 where
  submits : Detail → Call
  switches : ℕ → Call

pub data Reply : Type 0 where
  submitted : Submitted → Reply
  switched : Option ℕ → Reply

-- A call with the keys that may be changed.
abbrev pub step : List ℕ → Call → ParameterStore → Reply × ParameterStore
step hot (submits d) p = let (r, q) = submit d hot p in (submitted r, q)
step hot (switches seq) p = let (r, q) = switch_at_packet_boundary seq p in (switched r, q)

unfoldable pub run : List ℕ → List Call → ParameterStore → List Reply × ParameterStore
run hot [] p = ([], p)
run hot (c ∷ cs) p = let (r, q) = step hot c p in let (rs, last) = run hot cs q in (r ∷ rs, last)

-- How many requests took effect, those that wait, the values and the records of all switches.
pub record Log : Type 0 where
  pub applied : ℕ
  pub waiting : List Members
  pub values : Members
  pub records : List ParameterAuditRecord

abbrev pub new_log : Detail → Log
new_log initial = record { applied = 0; waiting = []; values = members_of initial; records = [] }

-- The version after so many requests.
abbrev pub version_after : ℕ → ℕ
version_after n = (n + 1) % 2 ^ 64

-- Request number `n` is promised the version after `n` requests.
abbrev pub log_submit : List ℕ → Detail → Log → Submitted × Log
log_submit hot other_value g = (invalid_argument, g)
log_submit hot (object request) g =
    if all_hot hot request
    then (
      accepted (version_after (g.applied + length g.waiting + 1)),
      record g { waiting = g.waiting ++ request ∷ [] },
    )
    else (parameter_unsupported, g)

abbrev pub apply_first : ℕ → List Members → Log → Option ℕ × Log
apply_first seq [] g = (none, g)
apply_first seq (w ∷ ws) g = (
  some (version_after (g.applied + 1)),
  record g {
    applied = g.applied + 1;
    waiting = ws;
    values = put_members w g.values;
    records =
        g.records
        ++ record {
          version = version_after (g.applied + 1);
          effective_after_seq = seq;
          values = put_members w g.values;
        }
          ∷ [];
  },
)

abbrev pub log_step : List ℕ → Call → Log → Reply × Log
log_step hot (submits d) g = let (r, h) = log_submit hot d g in (submitted r, h)
log_step hot (switches seq) g = let (r, h) = apply_first seq g.waiting g in (switched r, h)

unfoldable pub log_run : List ℕ → List Call → Log → List Reply × Log
log_run hot [] g = ([], g)
log_run hot (c ∷ cs) g =
    let (r, h) = log_step hot c g in let (rs, last) = log_run hot cs h in (r ∷ rs, last)
