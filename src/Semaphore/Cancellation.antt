-- ===== src/Semaphore/Cancellation.antt =====
-- A cancelled wait of engine/priority_sem.go ends at once, whatever the other callers have done.
use sokratos.Base.{
  ℕ, List, [], ◌∷◌, ◌==◌, ◌⊎◌, ◌≡◌, ◌≢◌, refl, ap, subst, Elem, sym, inl, inr, Bool, true, false,
  Option, none, some, arith, Bool-cases,
}
use sokratos.Semaphore.{
  Priority, background, user, Sem, Acquired, granted, queued, try_acquire_at, acquire,
  remove_waiter_ch, received, release, unqueue, cancel, acquire_cancelled,
}
use sokratos.Semaphore.World.{
  World, Step, attempts, asks, wakes, gives_up, releases, parks, withdraws, after_try, after_ask,
  after_cancel,
}
use sokratos.Semaphore.Service.{acquire-try_acquire_at}
use sokratos.Semaphore.Waiting.{
  waiters, IsWaiting, acquire-IsWaiting, release-IsWaiting, release_reserved-IsWaiting,
  cancel_reservation-IsWaiting, received-IsWaiting, cancel-IsWaiting, try_acquire_at-IsWaiting,
  enqueue-IsWaiting, remove-found,
}

-- The channel at which a step ends a wait.
abbrev pub ended : {w v : World} → Step w v → Option ℕ
ended (wakes w ch s e) = some ch
ended (gives_up w pri ch r e) = some ch
ended _ = none

-- Steps that leave the wait at `ch` alone.
pub data Meanwhile (ch : ℕ) (w : World) : World → Type 0 where
  here : Meanwhile ch w w
  next : {u v : World} → Meanwhile ch w u → (st : Step u v) → ended st ≢ some ch → Meanwhile ch w v

others-acquire :
    (s : Sem) (pri from : Priority) (ch : ℕ)
    → IsWaiting pri ch s
    → IsWaiting pri ch (acquire s from).0
others-acquire s pri from ch m = elim (Bool-cases (try_acquire_at s from).1) [
  | inl e ↦ rw (acquire-try_acquire_at s from, e) (try_acquire_at-IsWaiting s pri from ch m)
  | inr e ↦ rw (acquire-try_acquire_at s from, e) (enqueue-IsWaiting s pri from ch m)
]

after_try-sem : (w : World) (r : Sem × Bool) → (after_try w r).sem ≡ r.0
after_try-sem w (s, true) = refl
after_try-sem w (s, false) = refl

after_ask-sem : (w : World) (r : Sem × Acquired) → (after_ask w r).sem ≡ r.0
after_ask-sem w (s, granted) = refl
after_ask-sem w (s, queued ch) = refl

after_cancel-sem : (w : World) (r : Sem × Bool) → (after_cancel w r).sem ≡ r.0
after_cancel-sem w (s, true) = refl
after_cancel-sem w (s, false) = refl

Step-IsWaiting :
    {w v : World} (st : Step w v) (pri : Priority) (ch : ℕ)
    → ended st ≢ some ch
    → IsWaiting pri ch w.sem
    → IsWaiting pri ch v.sem
Step-IsWaiting (attempts w from) pri ch d m =
    subst (IsWaiting pri ch) (sym (after_try-sem w _))
      (try_acquire_at-IsWaiting w.sem pri from ch m)
Step-IsWaiting (asks w from) pri ch d m =
    subst (IsWaiting pri ch) (sym (after_ask-sem w _)) (others-acquire w.sem pri from ch m)
Step-IsWaiting (wakes w other s e) pri ch d m =
    received-IsWaiting w.sem s pri ch other (λ p. d (ap some (sym p))) e m
Step-IsWaiting (gives_up w from other r e) pri ch d m =
    subst (IsWaiting pri ch) (sym (after_cancel-sem w r))
      (cancel-IsWaiting w.sem pri from ch other r (λ p. d (ap some (sym p))) e m)
Step-IsWaiting (releases w held) pri ch d m = release-IsWaiting w.sem pri ch m
Step-IsWaiting (parks w held) pri ch d m = release_reserved-IsWaiting w.sem pri ch m
Step-IsWaiting (withdraws w) pri ch d m = cancel_reservation-IsWaiting w.sem pri ch m

Meanwhile-IsWaiting :
    (ch : ℕ) (pri : Priority) {w v : World}
    → Meanwhile ch w v
    → IsWaiting pri ch w.sem
    → IsWaiting pri ch v.sem
Meanwhile-IsWaiting ch pri here m = m
Meanwhile-IsWaiting ch pri (next r st d) m =
    Step-IsWaiting st pri ch d (Meanwhile-IsWaiting ch pri r m)

unqueue-found :
    (s : Sem) (pri : Priority) (ch : ℕ) → Elem ch (waiters s pri) → (unqueue s pri ch).1 ≡ true
unfolding unqueue
unqueue-found s user ch m = remove-found ch s.high m
unqueue-found s background ch m = remove-found ch s.low m

remove-absent :
    (ch : ℕ) (ws : List ℕ) → (remove_waiter_ch ws ch).1 ≡ false → (remove_waiter_ch ws ch).0 ≡ ws
unfolding remove_waiter_ch
remove-absent ch [] e = refl
remove-absent ch (w ∷ ws) e = elim (Bool-cases (w == ch)) [
  | inl same ↦ absurd (cc (rw same at e))
  | inr other ↦ rw other (ap (◌∷◌ w) (remove-absent ch ws (rw other at e)))
]

unqueue-absent :
    (s : Sem) (pri : Priority) (ch : ℕ) → (unqueue s pri ch).1 ≡ false → (unqueue s pri ch).0 ≡ s
unfolding unqueue
unqueue-absent s user ch e = ap (λ ws. record s { high = ws }) (remove-absent ch s.high e)
unqueue-absent s background ch e = ap (λ ws. record s { low = ws }) (remove-absent ch s.low e)

-- The semaphore without the waiter `ch` in the queue of `pri`.
abbrev pub withdrawn_from : Sem → Priority → ℕ → Sem
withdrawn_from s user ch = record s { high = (remove_waiter_ch s.high ch).0 }
withdrawn_from s background ch = record s { low = (remove_waiter_ch s.low ch).0 }

-- The waiter was in its queue and is taken out of it, with all else as it was; or its channel was
-- closed, and its slot is released as the slot of any caller is.
abbrev pub IsWithdrawn : Sem → Priority → ℕ → Sem → Type 0
IsWithdrawn s pri ch t =
    (Elem ch (waiters s pri) × (t ≡ withdrawn_from s pri ch))
    ⊎ (Elem ch s.closed × (t ≡ release (record s { closed = (remove_waiter_ch s.closed ch).0 })))

unqueue-withdrawn_from :
    (s : Sem) (pri : Priority) (ch : ℕ) → (unqueue s pri ch).0 ≡ withdrawn_from s pri ch
unfolding unqueue
unqueue-withdrawn_from s user ch = refl
unqueue-withdrawn_from s background ch = refl

remove-Elem : (ch : ℕ) (ws : List ℕ) → (remove_waiter_ch ws ch).1 ≡ true → Elem ch ws
unfolding remove_waiter_ch
remove-Elem ch [] e = absurd (cc e)
remove-Elem ch (w ∷ ws) e = elim (Bool-cases (w == ch)) [
  | inl same ↦ inl (ground arith)
  | inr other ↦ inr (remove-Elem ch ws (rw other at e))
]

unqueue-Elem :
    (s : Sem) (pri : Priority) (ch : ℕ) → (unqueue s pri ch).1 ≡ true → Elem ch (waiters s pri)
unfolding unqueue
unqueue-Elem s user ch e = remove-Elem ch s.high e
unqueue-Elem s background ch e = remove-Elem ch s.low e

acquire_cancelled-IsWithdrawn :
    (s : Sem) (pri : Priority) (ch : ℕ)
    → IsWaiting pri ch s
    → (t : Sem) × (acquire_cancelled s pri ch ≡ some t) × IsWithdrawn s pri ch t
unfolding acquire_cancelled cancel received
acquire_cancelled-IsWithdrawn s pri ch m = elim (Bool-cases (unqueue s pri ch).1) [
  | inl e ↦ (
    (unqueue s pri ch).0,
    rw (acquire_cancelled, cancel, e) refl,
    inl (unqueue-Elem s pri ch e, unqueue-withdrawn_from s pri ch),
  )
  | inr e ↦ elim m [
    | inl q ↦ absurd (ground (arith, unqueue-found s pri ch q))
    | inr c ↦ (
      release (record s { closed = (remove_waiter_ch s.closed ch).0 }),
      rw
          (
            acquire_cancelled,
            cancel,
            e,
            unqueue-absent s pri ch e,
            received,
            remove-found ch s.closed c,
          )
          refl,
      inr (c, refl),
    )
  ]
]

-- A caller that `Acquire` put in a queue stays there or finds its channel closed, through any steps
-- of the other callers, and so its cancellation never blocks at the drain `<-ch`: it returns, with
-- the waiter taken out of its queue and nothing else changed, or with the channel taken and the slot
-- given back by a release.
pub acquire_cancelled_total :
    (w v : World) (s : Sem) (pri : Priority) (ch : ℕ)
    → acquire w.sem pri ≡ (s, queued ch)
    → Meanwhile ch (record w { sem = s }) v
    → (t : Sem) × (acquire_cancelled v.sem pri ch ≡ some t) × IsWithdrawn v.sem pri ch t
acquire_cancelled_total w v s pri ch e r =
    acquire_cancelled-IsWithdrawn v.sem pri ch
      (Meanwhile-IsWaiting ch pri r (acquire-IsWaiting w.sem s pri ch e))
