-- ===== src/Semaphore/Overbooking.antt =====
-- What `CancelReservation` of engine/priority_sem.go does to the number of slots.
use sokratos.Base.{ℕ, zero, suc, ◌+◌, ◌≡◌, refl, subst, [], arith, pos}
use sokratos.Semaphore.{user, new_sem, try_acquire_at, release_reserved, cancel_reservation}
use sokratos.Semaphore.World.{World, start, Step, attempts, parks, withdraws, Reach, here, next}

-- No waiters, no reservation: `a` slots free and `k` held.
abbrev quiet : ℕ → ℕ → ℕ → ℕ → ℕ → World
quiet c a r k d = record {
  sem = record { avail = a; reserved = r; cap = c; high = []; low = []; made = 0; closed = [] };
  held = k;
  withdrawn = d;
}

quiet-attempts : (c a k d : ℕ) → Step (quiet c (suc a) 0 k d) (quiet c a 0 (suc k) d)
unfolding try_acquire_at
quiet-attempts c a k d =
    subst (Step (quiet c (suc a) 0 k d)) (ground arith) (attempts (quiet c (suc a) 0 k d) user)

quiet-parks : (c k d : ℕ) → Step (quiet c 0 0 (suc k) d) (quiet c 0 1 k d)
unfolding release_reserved
quiet-parks c k d =
    subst (Step (quiet c 0 0 (suc k) d)) (ground arith)
      (parks (quiet c 0 0 (suc k) d) (omega arith))

quiet-withdraws : (c k d : ℕ) → Step (quiet c 0 1 k d) (quiet c 2 0 k (suc d))
unfolding cancel_reservation
quiet-withdraws c k d = withdraws (quiet c 0 1 k d)

take_all : (c a k : ℕ) {w : World} → Reach w (quiet c a 0 k 0) → Reach w (quiet c 0 0 (a + k) 0)
take_all c zero k {w} r = subst (λ m. Reach w (quiet c 0 0 m 0)) (omega arith) r
take_all c (suc a) k {w} r =
    subst (λ m. Reach w (quiet c 0 0 m 0)) (omega arith)
      (take_all c a (suc k) (next r (quiet-attempts c a k 0)))

start-quiet : (n : ℕ) → start (pos (suc n)) ≡ quiet (suc n) (suc n) 0 0 0
unfolding new_sem
start-quiet n = ground arith

-- Whatever its capacity, a semaphore comes to be held by one caller more than it has slots: take
-- every slot, park one with `ReleaseReserved`, cancel that reservation, and take two slots.
pub overbooked :
    (n : ℕ)
    → (w : World) × Reach (start (pos (suc n))) w × (w.sem.cap ≡ suc n) × (w.held ≡ suc (suc n))
overbooked n = (
  quiet (suc n) 0 0 (suc (suc n)) 1,
  next
      (next (next (next full (quiet-parks (suc n) n 0)) (quiet-withdraws (suc n) n 0))
        (quiet-attempts (suc n) 1 n 1))
      (quiet-attempts (suc n) 0 (suc n) 1),
  refl,
  refl,
)
  where
    full : Reach (start (pos (suc n))) (quiet (suc n) 0 0 (suc n) 0)
    full =
        subst (λ m. Reach (start (pos (suc n))) (quiet (suc n) 0 0 m 0)) (omega arith)
          (take_all (suc n) (suc n) 0 (subst (Reach (start (pos (suc n)))) (start-quiet n) here))
