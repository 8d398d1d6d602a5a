-- ===== src/Ledger/Held.antt =====
-- What the leases hold, when one of them changes.
use ge.Prelude.{
  ℕ, ◌+◌, ◌≤◌, ◌≡◌, subst, some, List, [], ◌∷◌, arith, get_elem?, set, zero, suc, if◌then◌else◌,
}
use ge.Ledger.Amounts.{Key}
use ge.Ledger.{ResourceLease}
use ge.Ledger.Merge.{total, Distinct}
use ge.Ledger.World.{held, active_count, AllDistinct}

pub held-set :
    (k : Key) (ls : List ResourceLease) (i : ℕ) (l l' : ResourceLease)
    → get_elem? ls i ≡ some l
    → held k (set ls i l') + total k l.amounts ≡ held k ls + total k l'.amounts
unfolding held
held-set k [] i l l' h = absurd (cc)
held-set k (x ∷ ls) zero l l' h = ground arith
held-set k (x ∷ ls) (suc i) l l' h = omega (arith, held-set k ls i l l' h)

pub held-ge :
    (k : Key) (ls : List ResourceLease) (i : ℕ) (l : ResourceLease)
    → get_elem? ls i ≡ some l
    → total k l.amounts ≤ held k ls
unfolding held
held-ge k [] i l h = absurd (cc)
held-ge k (x ∷ ls) zero l h = ground arith
held-ge k (x ∷ ls) (suc i) l h = omega (arith, held-ge k ls i l h)

pub active_count-set :
    (ls : List ResourceLease) (i : ℕ) (l l' : ResourceLease)
    → get_elem? ls i ≡ some l
    → active_count (set ls i l') + (if l.active then 1 else 0)
      ≡ active_count ls + (if l'.active then 1 else 0)
unfolding active_count
active_count-set [] i l l' h = absurd (cc)
active_count-set (x ∷ ls) zero l l' h = ground arith
active_count-set (x ∷ ls) (suc i) l l' h = omega (arith, active_count-set ls i l l' h)

pub AllDistinct-set :
    (ls : List ResourceLease) (i : ℕ) (l' : ResourceLease)
    → AllDistinct ls
    → Distinct l'.amounts
    → AllDistinct (set ls i l')
AllDistinct-set [] i l' a d = tt
AllDistinct-set (x ∷ ls) zero l' a d = (d, a.1)
AllDistinct-set (x ∷ ls) (suc i) l' a d = (a.0, AllDistinct-set ls i l' a.1 d)

pub lease-Distinct :
    (ls : List ResourceLease) (i : ℕ) (l : ResourceLease)
    → AllDistinct ls
    → get_elem? ls i ≡ some l
    → Distinct l.amounts
lease-Distinct [] i l a h = absurd (cc)
lease-Distinct (x ∷ ls) zero l a h =
    let e : x ≡ l = ground arith in subst (λ (y : ResourceLease). Distinct y.amounts) e a.0
lease-Distinct (x ∷ ls) (suc i) l a h = lease-Distinct ls i l a.1 h
