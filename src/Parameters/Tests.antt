-- ===== src/Parameters/Tests.antt =====
-- The store at concrete calls, and the theorems at them.
use ge.Prelude.{◌≡◌, refl, none, some, List, [], ◌∷◌, length, contains}
use ge.Operation.{Detail, object}
use ge.Parameters.{
  accepted, parameter_unsupported, new_store, submit, submit_locked, next_snapshot, promote,
  promote_queued, trim_history, audit, make_current, switch_at_packet_boundary, reject_pending,
  all_hot, members_of,
}
use ge.Parameters.Log
use ge.Parameters.Log.{submits, switches, submitted, switched, run, log_run, new_log, version_after}
use ge.Parameters.Refines.{last_records, run_refines_log}
use ge.Parameters.Versions
use ge.Parameters.Versions.{run_versions, run_store, count_from, count_last, IsValid, run_counts}

-- Two requests for the key 7, one for a key that may not be changed, and three switches.
abbrev calls : List Log.Call
calls =
    submits (object ((7, 1) ∷ []))
    ∷ submits (object ((7, 2) ∷ []))
    ∷ submits (object ((8, 2) ∷ []))
    ∷ switches 10
    ∷ switches 20
    ∷ switches 30
    ∷ []

abbrev initial : Detail
initial = object ((7, 0) ∷ (9, 5) ∷ [])

replies :
    (run (7 ∷ []) calls (new_store initial 1)).0
    ≡ submitted (accepted 2)
      ∷ submitted (accepted 3)
      ∷ submitted parameter_unsupported
      ∷ switched (some 2)
      ∷ switched (some 3)
      ∷ switched none
      ∷ []
unfolding run new_store submit submit_locked next_snapshot promote promote_queued trim_history audit
    make_current switch_at_packet_boundary all_hot members_of contains
replies = refl

run_refines_log_example :
    ((run (7 ∷ []) calls (new_store initial 1)).0 ≡ (log_run (7 ∷ []) calls (new_log initial)).0)
    × ((run (7 ∷ []) calls (new_store initial 1)).1.current.version
        ≡ version_after (log_run (7 ∷ []) calls (new_log initial)).1.applied)
    × ((run (7 ∷ []) calls (new_store initial 1)).1.current.values
        ≡ (log_run (7 ∷ []) calls (new_log initial)).1.values)
    × ((run (7 ∷ []) calls (new_store initial 1)).1.history
        ≡ last_records 1 (log_run (7 ∷ []) calls (new_log initial)).1.records)
run_refines_log_example = run_refines_log (7 ∷ []) initial 1 calls

abbrev mixed : List Versions.Call
mixed =
    Versions.submits (object ((7, 1) ∷ [])) (7 ∷ [])
    ∷ Versions.submits (object ((7, 2) ∷ [])) (7 ∷ [])
    ∷ Versions.rejects
    ∷ Versions.switches 10
    ∷ []

-- The second request was promised version 3; after the rejection of the first it takes effect as 2.
promise_broken : run_versions mixed (new_store initial 1) ≡ 2 ∷ []
unfolding run_versions new_store submit submit_locked next_snapshot promote promote_queued
    trim_history audit make_current switch_at_packet_boundary reject_pending all_hot members_of
    contains
promise_broken = refl

run_counts_example :
    (run_versions mixed (new_store initial 1)
      ≡ count_from 1 (length (run_versions mixed (new_store initial 1))))
    × (count_last 1 (length (run_versions mixed (new_store initial 1)))
        ≡ (run_store mixed (new_store initial 1)).current.version)
    × IsValid (run_store mixed (new_store initial 1))
run_counts_example = run_counts initial 1 mixed
