-- ===== src/Tests/Slots.antt =====
-- Examples for engine/priority_sem.go and engine/slot_router.go.
use sokratos.Base.{◌+◌, ◌-◌, ◌≡◌, ◌⊎◌, refl, true, false, some, [], ◌∷◌, pos, arith}
use sokratos.Semaphore.{
  background, user, Sem, new_sem, try_acquire_at, acquire, enqueue, release, unqueue,
  cancel_reservation, acquire_cancelled,
}
use sokratos.Semaphore.World.{World, start, attempts, asks, releases, Reach, here, next}
use sokratos.Semaphore.Conservation.{slots_accounted}
use sokratos.Semaphore.Overbooking.{overbooked}
use sokratos.Semaphore.Service.{IsServed, releases_of, releases_of_order}
use sokratos.Semaphore.Idle.{no_idle_slot}
use sokratos.Semaphore.Cancellation.{acquire_cancelled_total, Meanwhile, IsWithdrawn}
use sokratos.Semaphore.Cancellation
use sokratos.Router.{brain, SlotRouter, acquire_or_fallback, choice_reacquire_cancelled}
use sokratos.Router.Preference.{IsRouted, is_free, acquire_or_fallback-IsRouted}
use sokratos.Router.Balance.{idle_total, choice_reacquire_cancelled_total}

-- One slot, held, with a background caller and then a user waiting.
abbrev contended : Sem
contended = record {
  avail = 0;
  reserved = 0;
  cap = 1;
  high = 1 ∷ [];
  low = 0 ∷ [];
  made = 2;
  closed = [];
}

-- One slot, parked by a user, with a background caller waiting.
abbrev parked : Sem
parked = record { avail = 0; reserved = 1; cap = 1; high = []; low = 0 ∷ []; made = 1; closed = [] }

-- The slot is taken, and a user's call waits for it.
abbrev asked : World
asked = record {
  sem = record { avail = 0; reserved = 0; cap = 1; high = 0 ∷ []; low = []; made = 1; closed = [] };
  held = 1;
  withdrawn = 0;
}

asked_reached : Reach (start (pos 1)) asked
unfolding new_sem try_acquire_at acquire enqueue
asked_reached = next (next here (attempts (start (pos 1)) user)) (asks _ user)

user_first : (release contended).closed ≡ 1 ∷ []
unfolding release
user_first = refl

reservation_kept : (try_acquire_at parked background).1 ≡ false
unfolding try_acquire_at
reservation_kept = refl

slots_accounted_example : 0 + 0 + 0 + 1 ≡ 1 + 0
slots_accounted_example = slots_accounted (pos 1) asked asked_reached

overbooked_example : (w : World) × Reach (start (pos 1)) w × (w.sem.cap ≡ 1) × (w.held ≡ 2)
overbooked_example = overbooked 0

releases_of_order_example : IsServed 2 contended (1 ∷ []) (0 ∷ []) (releases_of 2 contended)
releases_of_order_example = releases_of_order 2 contended

no_idle_slot_example :
    (asked.sem.high ≡ [] ⊎ ((asked.sem.avail ≡ 0) × (asked.sem.reserved ≡ 0)))
    × ((asked.sem.low ≡ []) ⊎ (asked.sem.avail ≡ 0))
no_idle_slot_example = no_idle_slot (pos 1) asked asked_reached refl

-- The slot before the user's call, and after the release that wakes it.
abbrev taken : World
taken = record {
  sem = record { avail = 0; reserved = 0; cap = 1; high = []; low = []; made = 0; closed = [] };
  held = 1;
  withdrawn = 0;
}

woken-Meanwhile : Meanwhile 0 asked (record asked { sem = release asked.sem; held = 1 - 1 })
woken-Meanwhile = Cancellation.next Cancellation.here (releases asked (omega arith)) (λ e. cc)

acquire_cancelled_total_example :
    (t : Sem) × (acquire_cancelled (release asked.sem) user 0 ≡ some t)
    × IsWithdrawn (release asked.sem) user 0 t
unfolding acquire enqueue
acquire_cancelled_total_example =
    acquire_cancelled_total taken (record asked { sem = release asked.sem; held = 1 - 1 }) asked.sem
      user 0 refl woken-Meanwhile

abbrev servers : SlotRouter
servers = record { primary_slots = contended; fallback_slots = parked }

acquire_or_fallback-IsRouted_example :
    IsRouted true
      (is_free parked user)
      (is_free contended user)
      user
      (acquire_or_fallback servers true user).1
acquire_or_fallback-IsRouted_example = acquire_or_fallback-IsRouted servers true user

-- A background reacquire that is cancelled while a user's reservation is parked.
abbrev overfull : SlotRouter
overfull = record servers { fallback_slots = record parked { avail = 2; reserved = 0; low = [] } }

choice_reacquire_cancelled_total_example : idle_total overfull ≡ idle_total servers + 1
unfolding choice_reacquire_cancelled acquire_cancelled cancel_reservation unqueue
choice_reacquire_cancelled_total_example =
    choice_reacquire_cancelled_total servers overfull brain background 0 refl
