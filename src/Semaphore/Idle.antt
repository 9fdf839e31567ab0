-- ===== src/Semaphore/Idle.antt =====
-- No slot of engine/priority_sem.go lies idle while a caller waits for it.
use sokratos.Base.{ℕ, ◌≡◌, refl, ◌⊎◌, inl, inr, Bool, some, ℤ, List, [], ◌∷◌, arith}
use sokratos.Semaphore.{
  Priority, background, user, Sem, try_acquire_at, acquire, release, release_reserved, reserve,
  close_oldest, remove_waiter_ch, unqueue, received, cancel, cancel_reservation, new_sem,
}
use sokratos.Semaphore.World.{
  World, start, cancel_cases, Step, attempts, asks, wakes, gives_up, releases, parks, withdraws,
  Reach, here, next,
}

-- Nobody waits for what is free: a user for any slot, a background caller for an unreserved one.
abbrev IsBusy : Sem → Type 0
IsBusy s = ((s.high ≡ []) ⊎ ((s.avail ≡ 0) × (s.reserved ≡ 0))) × ((s.low ≡ []) ⊎ (s.avail ≡ 0))

close_oldest-IsBusy :
    (s : Sem) (h l : List ℕ)
    → IsBusy (record s { high = h; low = l })
    → IsBusy (close_oldest (record s { high = h; low = l }) h l)
unfolding close_oldest
close_oldest-IsBusy s [] [] b = (inl refl, inl refl)
close_oldest-IsBusy s [] (ch ∷ l) b = ground arith
close_oldest-IsBusy s (ch ∷ h) l b = ground arith

release-IsBusy : (s : Sem) → IsBusy s → IsBusy (release s)
unfolding release
release-IsBusy s b = close_oldest-IsBusy s s.high s.low b

reserve-IsBusy :
    (s : Sem) (h : List ℕ)
    → IsBusy (record s { high = h })
    → IsBusy (reserve (record s { high = h }) h)
unfolding reserve
reserve-IsBusy s [] b = ground arith
reserve-IsBusy s (ch ∷ h) b = ground arith

release_reserved-IsBusy : (s : Sem) → IsBusy s → IsBusy (release_reserved s)
unfolding release_reserved
release_reserved-IsBusy s b = reserve-IsBusy s s.high b

acquire-IsBusy : (s : Sem) (pri : Priority) → IsBusy s → IsBusy (acquire s pri).0
unfolding acquire
acquire-IsBusy s background b = ground arith
acquire-IsBusy s user b = ground arith

remove_waiter_ch-nil : (ws : List ℕ) (ch : ℕ) → ws ≡ [] → (remove_waiter_ch ws ch).0 ≡ []
unfolding remove_waiter_ch
remove_waiter_ch-nil ws ch e = rw e

unqueue-IsBusy : (s : Sem) (pri : Priority) (ch : ℕ) → IsBusy s → IsBusy (unqueue s pri ch).0
unfolding unqueue
unqueue-IsBusy s background ch b = ground (arith, remove_waiter_ch-nil s.low ch)
unqueue-IsBusy s user ch b = ground (arith, remove_waiter_ch-nil s.high ch)

received-IsBusy : (s : Sem) (ch : ℕ) (t : Sem) → received s ch ≡ some t → IsBusy s → IsBusy t
unfolding received
received-IsBusy s ch t e b = ground arith

cancel-IsBusy :
    (s : Sem) (pri : Priority) (ch : ℕ) (r : Sem × Bool)
    → cancel s pri ch ≡ some r
    → IsBusy s
    → IsBusy r.0
cancel-IsBusy s pri ch r h b = elim (cancel_cases s pri ch r h) [
  | inl e ↦ rw e (unqueue-IsBusy s pri ch b)
  | inr (t, e', e) ↦ rw e (received-IsBusy _ ch t e' (unqueue-IsBusy s pri ch b))
]

try_acquire_at-IsBusy : (s : Sem) (pri : Priority) → IsBusy s → IsBusy (try_acquire_at s pri).0
unfolding try_acquire_at
try_acquire_at-IsBusy s background b = ground arith
try_acquire_at-IsBusy s user b = ground arith

cancel_reservation-IsBusy : (s : Sem) → s.reserved ≡ 0 → IsBusy s → IsBusy (cancel_reservation s)
unfolding cancel_reservation
cancel_reservation-IsBusy s e b = ground arith

abbrev IsBusyUntil : World → Type 0
IsBusyUntil w = w.withdrawn ≡ 0 → IsBusy w.sem

Step-IsBusy : {w v : World} → Step w v → IsBusyUntil w → IsBusyUntil v
Step-IsBusy (attempts w pri) h e = ground (arith, try_acquire_at-IsBusy w.sem pri)
Step-IsBusy (asks w pri) h e = ground (arith, acquire-IsBusy w.sem pri)
Step-IsBusy (wakes w ch s p) h e = received-IsBusy w.sem ch s p (h e)
Step-IsBusy (gives_up w pri ch r p) h e = ground (arith, cancel-IsBusy w.sem pri ch r p)
Step-IsBusy (releases w held) h e = release-IsBusy w.sem (h e)
Step-IsBusy (parks w held) h e = release_reserved-IsBusy w.sem (h e)
Step-IsBusy (withdraws w) h e = ground (arith, cancel_reservation-IsBusy w.sem)

Reach-IsBusy : {w v : World} → Reach w v → IsBusyUntil w → IsBusyUntil v
Reach-IsBusy here h = h
Reach-IsBusy (next r st) h = Step-IsBusy st (Reach-IsBusy r h)

start-IsBusy : (slots : ℤ) → IsBusyUntil (start slots)
unfolding new_sem
start-IsBusy slots e = (inl refl, inl refl)

-- As long as no `CancelReservation` has found a reservation, no slot lies idle while it is waited
-- for: if a user waits, no slot is free or reserved; if a background caller waits, no unreserved
-- slot is free.
pub no_idle_slot :
    (slots : ℤ) (w : World)
    → Reach (start slots) w
    → w.withdrawn ≡ 0
    → ((w.sem.high ≡ []) ⊎ ((w.sem.avail ≡ 0) × (w.sem.reserved ≡ 0)))
      × ((w.sem.low ≡ []) ⊎ (w.sem.avail ≡ 0))
no_idle_slot slots w r = Reach-IsBusy r (start-IsBusy slots)
