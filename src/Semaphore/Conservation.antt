-- ===== src/Semaphore/Conservation.antt =====
-- Where the slots of engine/priority_sem.go are, over every interleaving of its callers.
use sokratos.Base.{
  ℕ, ◌+◌, ◌-◌, ◌≤◌, ◌≡◌, refl, Bool, true, false, some, List, [], ◌∷◌, arith, ltb, if◌then◌else◌,
  Option-cases, inl, inr, length, length-snoc, ℤ, pos,
}
use sokratos.Semaphore.{
  Priority, background, user, Sem, Acquired, granted, queued, slots_in_use, new_sem, try_acquire_at,
  acquire, remove_waiter_ch, received, release, release_reserved, acquire_cancelled, cancel,
  cancel_reservation, dispatch, close_oldest, reserve, unqueue,
}
use sokratos.Semaphore.World.{
  World, start, Step, cancel_cases, attempts, asks, wakes, gives_up, releases, parks, withdraws,
  Reach, here, next,
}

abbrev pub is_granted : Acquired → Bool
is_granted granted = true
is_granted (queued ch) = false

-- The slots that no caller has in hand: free, reserved, or on the way to a woken waiter.
abbrev pub idle : Sem → ℕ
idle s = s.avail + s.reserved + length s.closed

length-remove_waiter_ch :
    (ws : List ℕ) (ch : ℕ)
    → length (remove_waiter_ch ws ch).0 + (if (remove_waiter_ch ws ch).1 then 1 else 0) ≡ length ws
unfolding remove_waiter_ch
length-remove_waiter_ch [] ch = refl
length-remove_waiter_ch (w ∷ ws) ch = ground (arith, length-remove_waiter_ch ws ch)

-- `t` has `d` fewer and `e` more idle slots than `s`, at the same capacity.
abbrev pub Moves : Sem → Sem → ℕ → ℕ → Type 0
Moves s t d e = (idle t + d ≡ idle s + e) × (t.cap ≡ s.cap)

close_oldest-Moves : (s : Sem) (high low : List ℕ) → Moves s (close_oldest s high low) 0 1
unfolding close_oldest
close_oldest-Moves s [] [] = omega arith
close_oldest-Moves s [] (ch ∷ low) = omega (arith, length-snoc s.closed ch)
close_oldest-Moves s (ch ∷ high) low = omega (arith, length-snoc s.closed ch)

dispatch-Moves : (s : Sem) → Moves s (dispatch s) 0 1
unfolding dispatch
dispatch-Moves s = close_oldest-Moves s s.high s.low

pub release-Moves : (s : Sem) → Moves s (release s) 0 1
unfolding release
release-Moves s = dispatch-Moves s

reserve-Moves : (s : Sem) (high : List ℕ) → Moves s (reserve s high) 0 1
unfolding reserve
reserve-Moves s [] = omega arith
reserve-Moves s (ch ∷ high) = omega (arith, length-snoc s.closed ch)

release_reserved-Moves : (s : Sem) → Moves s (release_reserved s) 0 1
unfolding release_reserved
release_reserved-Moves s = reserve-Moves s s.high

pub cancel_reservation-Moves :
    (s : Sem) → Moves s (cancel_reservation s) 0 (if ltb 0 s.reserved then 1 else 0)
unfolding cancel_reservation
cancel_reservation-Moves s =
    ground (arith, dispatch-Moves (record s { reserved = s.reserved - 1; avail = s.avail + 1 }))

received-Moves : (s : Sem) (ch : ℕ) (t : Sem) → received s ch ≡ some t → Moves s t 1 0
unfolding received
received-Moves s ch t h = ground (arith, length-remove_waiter_ch s.closed ch)

unqueue-Moves : (s : Sem) (pri : Priority) (ch : ℕ) → Moves s (unqueue s pri ch).0 0 0
unfolding unqueue
unqueue-Moves s user ch = omega arith
unqueue-Moves s background ch = omega arith

cancel-Moves :
    (s : Sem) (pri : Priority) (ch : ℕ) (r : Sem × Bool)
    → cancel s pri ch ≡ some r
    → Moves s r.0 (if r.1 then 0 else 1) 0
cancel-Moves s pri ch r h = elim (cancel_cases s pri ch r h) [
  | inl e ↦ ground (arith, unqueue-Moves s pri ch)
  | inr (t, e', e) ↦
      ground (arith, unqueue-Moves s pri ch, received-Moves (unqueue s pri ch).0 ch t e')
]

close_oldest_reserved :
    (s : Sem) (high low : List ℕ) → (close_oldest s high low).reserved ≡ s.reserved
unfolding close_oldest
close_oldest_reserved s [] [] = refl
close_oldest_reserved s [] (ch ∷ low) = refl
close_oldest_reserved s (ch ∷ high) low = refl

release_reserved_same : (s : Sem) → (release s).reserved ≡ s.reserved
unfolding release
release_reserved_same s = close_oldest_reserved s s.high s.low

unqueue_reserved : (s : Sem) (pri : Priority) (ch : ℕ) → (unqueue s pri ch).0.reserved ≡ s.reserved
unfolding unqueue
unqueue_reserved s user ch = refl
unqueue_reserved s background ch = refl

received_reserved : (s : Sem) (ch : ℕ) (t : Sem) → received s ch ≡ some t → t.reserved ≡ s.reserved
unfolding received
received_reserved s ch t h = ground arith

cancel_reserved :
    (s : Sem) (pri : Priority) (ch : ℕ) (r : Sem × Bool)
    → cancel s pri ch ≡ some r
    → r.0.reserved ≡ s.reserved
cancel_reserved s pri ch r h = elim (cancel_cases s pri ch r h) [
  | inl e ↦ ground (arith, unqueue_reserved s pri ch)
  | inr (t, e', e) ↦
      ground (arith, unqueue_reserved s pri ch, received_reserved (unqueue s pri ch).0 ch t e')
]

-- A cancelled `Acquire` leaves as many idle slots as it found, and the reservations alone.
pub acquire_cancelled-Moves :
    (s : Sem) (pri : Priority) (ch : ℕ) (t : Sem)
    → acquire_cancelled s pri ch ≡ some t
    → Moves s t 0 0 × (t.reserved ≡ s.reserved)
unfolding acquire_cancelled
acquire_cancelled-Moves s pri ch t h = elim (Option-cases (cancel s pri ch)) [
  | inl e ↦ absurd (ground arith)
  | inr (r, e) ↦ ground (
    arith,
    cancel-Moves s pri ch r e,
    cancel_reserved s pri ch r e,
    release-Moves r.0,
    release_reserved_same r.0,
  )
]

pub try_acquire_at-Moves :
    (s : Sem) (pri : Priority)
    → let r = try_acquire_at s pri in Moves s r.0 (if r.1 then 1 else 0) 0
unfolding try_acquire_at
try_acquire_at-Moves s pri = ground arith

pub acquire-Moves :
    (s : Sem) (pri : Priority)
    → let r = acquire s pri in Moves s r.0 (if is_granted r.1 then 1 else 0) 0
unfolding acquire
acquire-Moves s background = ground arith
acquire-Moves s user = ground arith

abbrev IsAccounted : World → Type 0
IsAccounted w = idle w.sem + w.held ≡ w.sem.cap + w.withdrawn

start-IsAccounted : (slots : ℤ) → IsAccounted (start slots)
unfolding new_sem
start-IsAccounted slots = omega arith

Step-IsAccounted : {w v : World} → Step w v → IsAccounted w → IsAccounted v
Step-IsAccounted (attempts w pri) h = ground (arith, try_acquire_at-Moves w.sem pri)
Step-IsAccounted (asks w pri) h = ground (arith, acquire-Moves w.sem pri)
Step-IsAccounted (wakes w ch s e) h = omega (arith, received-Moves w.sem ch s e)
Step-IsAccounted (gives_up w pri ch r e) h = ground (arith, cancel-Moves w.sem pri ch r e)
Step-IsAccounted (releases w held) h = omega (arith, release-Moves w.sem)
Step-IsAccounted (parks w held) h = omega (arith, release_reserved-Moves w.sem)
Step-IsAccounted (withdraws w) h = ground (arith, cancel_reservation-Moves w.sem)

Reach-IsAccounted : {w v : World} → Reach w v → IsAccounted w → IsAccounted v
Reach-IsAccounted here h = h
Reach-IsAccounted (next r st) h = Step-IsAccounted st (Reach-IsAccounted r h)

-- After any interleaving of calls, wake-ups and cancellations on a new semaphore, the free slots,
-- the reserved slots, the slots on the way to a woken waiter and the slots that callers hold add
-- up to the capacity plus the number of `CancelReservation` calls that found a reservation.
pub slots_accounted :
    (slots : ℤ) (w : World)
    → Reach (start slots) w
    → w.sem.avail + w.sem.reserved + length w.sem.closed + w.held ≡ w.sem.cap + w.withdrawn
slots_accounted slots w r = Reach-IsAccounted r (start-IsAccounted slots)

-- As long as no `CancelReservation` has found a reservation, at most `cap` callers hold a slot, and
-- `SlotsInUse` reports the slots held and those on the way to a woken waiter, out of `cap`.
held-le-cap :
    (slots : ℤ) (w : World)
    → Reach (start slots) w
    → w.withdrawn ≡ 0
    → (w.held ≤ w.sem.cap) × (slots_in_use w.sem ≡ (pos (w.held + length w.sem.closed), w.sem.cap))
unfolding slots_in_use
held-le-cap slots w r h = ground (arith, slots_accounted slots w r)
