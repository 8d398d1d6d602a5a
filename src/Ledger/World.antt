-- ===== src/Ledger/World.antt =====
-- A ledger of src/resource_ledger.cpp with the leases that its clients hold, and any sequence of
-- their calls.
use ge.Prelude.{ℕ, ◌+◌, none, some, List, [], ◌∷◌, if◌then◌else◌, get_elem?, set}
use ge.Ledger.Amounts.{Key, ResourceAmount, merge_amounts}
use ge.Ledger.{
  ResourceLedger, ResourceLease, Result, ok, resource_exhausted, invalid_argument, reserve, release,
  commit,
}
use ge.Ledger.Merge.{total, Distinct}

pub record World : Type 0 where
  pub ledger : ResourceLedger
  pub leases : List ResourceLease

-- A lease is named by its place in the list.
pub data Call : Type 0 where
  reserves : ℕ → List ResourceAmount → Call
  releases : ℕ → Call
  commits : ℕ → List ResourceAmount → Call

unfoldable pub after_reserve : World → Result ResourceLease × ResourceLedger → World
after_reserve w (ok lease, l) = record { ledger = l; leases = lease ∷ w.leases }
after_reserve w (resource_exhausted s, l) = record w { ledger = l }
after_reserve w (invalid_argument, l) = record w { ledger = l }

unfoldable pub step : Call → World → World
step (reserves owner amounts) w = after_reserve w (reserve owner amounts w.ledger)
step (releases i) w = elim (get_elem? w.leases i) [
  | none ↦ w
  | some lease ↦
      let (lease', l) = release lease w.ledger in
      record { ledger = l; leases = set w.leases i lease' }
]
step (commits i actual) w = elim (get_elem? w.leases i) [
  | none ↦ w
  | some lease ↦
      let (r, lease', l) = commit lease actual w.ledger in
      record { ledger = l; leases = set w.leases i lease' }
]

unfoldable pub run : List Call → World → World
run [] w = w
run (c ∷ cs) w = run cs (step c w)

-- What all leases hold of a key.
unfoldable pub held : Key → List ResourceLease → ℕ
held k [] = 0
held k (l ∷ ls) = total k l.amounts + held k ls

unfoldable pub active_count : List ResourceLease → ℕ
active_count [] = 0
active_count (l ∷ ls) = (if l.active then 1 else 0) + active_count ls

abbrev pub AllDistinct : List ResourceLease → Type 0
AllDistinct [] = Unit {0}
AllDistinct (l ∷ ls) = Distinct l.amounts × AllDistinct ls

-- What a call asks for at most.
unfoldable pub asked : Call → List ResourceAmount
asked (reserves owner amounts) = merge_amounts amounts
asked (releases i) = []
asked (commits i actual) = merge_amounts actual
