-- ===== src/Ledger/Tests.antt =====
-- The ledger at a concrete capacity, and the theorems at inputs that meet their hypotheses.
use ge.Prelude.{ℕ, ◌<◌, ◌^◌, ◌≡◌, ◌↔◌, refl, some, List, [], ◌∷◌, arith}
use ge.Prelude.Int.{pos, negsuc}
use ge.Ledger.Amounts.{
  Key, ResourceAmount, cpu_threads, gpu_memory, kind_index, key_eq, key_lt, insert_sorted,
  sort_amounts, merge_step, merge_loop, merge_amounts,
}
use ge.Ledger.AccountMap.{find}
use ge.Ledger.{
  ResourceLedger, ok, reserve, release, try_reserve, shortfalls, shortfall_in, new_lease,
}
use ge.Ledger.Merge.{total}
use ge.Ledger.Totals.{reserved_at}
use ge.Ledger.World.{World, Call, reserves, releases, run, held, active_count, asked}
use ge.Ledger.Balance.{IsBalanced, AllRoom, run-IsBalanced}
use ge.Ledger.Capacity.{IsWithin, run-IsWithin}
use ge.Ledger.Reservation.{IsGranted, HasLeft, reserve_iff, release-reserve}

abbrev gpu : Key
gpu = record { kind = gpu_memory; device_id = pos 0 }

abbrev gpu_amount : ℕ → ResourceAmount
gpu_amount n = record { kind = gpu_memory; device_id = pos 0; amount = n }

abbrev cpu_amount : ℕ → ResourceAmount
cpu_amount n = record { kind = cpu_threads; device_id = negsuc 0; amount = n }

-- One limited key, nothing reserved.
abbrev limited : ResourceLedger
limited = record {
  accounts = (gpu, record { capacity = some 100; reserved = 0; peak = 0 }) ∷ [];
  next_lease = 1;
  live_leases = 0;
}

abbrev request : List ResourceAmount
request = gpu_amount 30 ∷ cpu_amount 2 ∷ gpu_amount 40 ∷ []

merged_request : merge_amounts request ≡ cpu_amount 2 ∷ gpu_amount 70 ∷ []
unfolding merge_amounts merge_loop merge_step sort_amounts insert_sorted key_lt key_eq kind_index
merged_request = refl

abbrev start : World
start = record { ledger = limited; leases = [] }

start-IsBalanced : IsBalanced start
unfolding held find active_count
start-IsBalanced = record { balanced = λ k. ground arith; distinct = tt; live = refl }

request_fits : (k : Key) → total k (merge_amounts request) < 2 ^ 64
unfolding total merge_amounts merge_loop merge_step sort_amounts insert_sorted key_lt key_eq
    kind_index
request_fits k = ground arith

abbrev calls : List Call
calls = reserves 7 request ∷ []

start_room : AllRoom calls start
unfolding asked held
start_room = (record { sums = λ k. omega (arith, request_fits k); count = omega arith }, tt)

run-IsBalanced_example : IsBalanced (run calls start)
run-IsBalanced_example = run-IsBalanced calls start start-IsBalanced start_room

start-IsWithin : IsWithin limited.accounts
unfolding find
start-IsWithin k c q = ground arith

run-IsWithin_example :
    IsWithin (run (reserves 7 request ∷ reserves 8 request ∷ releases 0 ∷ []) start).ledger.accounts
run-IsWithin_example =
    run-IsWithin (reserves 7 request ∷ reserves 8 request ∷ releases 0 ∷ []) start start-IsWithin

reserve_iff_example :
    IsGranted (reserve 7 request limited).0 ↔ HasLeft (merge_amounts request) limited.accounts
reserve_iff_example = reserve_iff 7 request limited

request_granted : (reserve 7 request limited).0 ≡ ok (new_lease 1 7 (merge_amounts request))
unfolding reserve try_reserve shortfalls shortfall_in find merge_amounts merge_loop merge_step
    sort_amounts insert_sorted key_lt key_eq kind_index
request_granted = refl

release-reserve_example :
    reserved_at gpu
      (release (new_lease 1 7 (merge_amounts request)) (reserve 7 request limited).1).1.accounts
    ≡ 0
unfolding find key_eq kind_index
release-reserve_example =
    release-reserve 7 request limited (new_lease 1 7 (merge_amounts request)) gpu request_granted
      (omega (arith, request_fits gpu))
