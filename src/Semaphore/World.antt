-- ===== src/Semaphore/World.antt =====
-- The callers of engine/priority_sem.go: every interleaving of calls, wake-ups and cancellations.
use sokratos.Base.{
  ℕ, suc, ◌+◌, ◌-◌, ◌<◌, ◌≡◌, Bool, true, false, some, arith, Bool-cases, Option-cases, ◌⊎◌, inl,
  inr, ltb, if◌then◌else◌, ℤ,
}
use sokratos.Semaphore.{
  Priority, Sem, Acquired, granted, queued, new_sem, try_acquire_at, acquire, received, release,
  release_reserved, cancel, cancel_reservation, unqueue,
}

-- `held` counts the slots that callers have in hand; `withdrawn` counts the calls of
-- `CancelReservation` that found a reservation.
pub record World : Type 0 where
  pub sem : Sem
  pub held : ℕ
  pub withdrawn : ℕ

abbrev pub start : ℤ → World
start slots = record { sem = new_sem slots; held = 0; withdrawn = 0 }

abbrev pub after_try : World → Sem × Bool → World
after_try w (s, true) = record w { sem = s; held = w.held + 1 }
after_try w (s, false) = record w { sem = s }

abbrev pub after_ask : World → Sem × Acquired → World
after_ask w (s, granted) = record w { sem = s; held = w.held + 1 }
after_ask w (s, queued ch) = record w { sem = s }

abbrev pub after_cancel : World → Sem × Bool → World
after_cancel w (s, true) = record w { sem = s }
after_cancel w (s, false) = record w { sem = s; held = w.held + 1 }

-- A caller gives back only a slot that it holds.
pub data Step : World → World → Type 0 where
  attempts : (w : World) (pri : Priority) → Step w (after_try w (try_acquire_at w.sem pri))
  asks : (w : World) (pri : Priority) → Step w (after_ask w (acquire w.sem pri))
  wakes :
      (w : World) (ch : ℕ) (s : Sem)
      → received w.sem ch ≡ some s
      → Step w (record w { sem = s; held = w.held + 1 })
  gives_up :
      (w : World) (pri : Priority) (ch : ℕ) (r : Sem × Bool)
      → cancel w.sem pri ch ≡ some r
      → Step w (after_cancel w r)
  releases : (w : World) → 0 < w.held → Step w (record w { sem = release w.sem; held = w.held - 1 })
  parks :
      (w : World)
      → 0 < w.held
      → Step w (record w { sem = release_reserved w.sem; held = w.held - 1 })
  withdraws :
      (w : World)
      → Step w (record w {
        sem = cancel_reservation w.sem;
        withdrawn = if ltb 0 w.sem.reserved then suc w.withdrawn else w.withdrawn;
      })

pub data Reach (w : World) : World → Type 0 where
  here : Reach w w
  next : {u v : World} → Reach w u → Step u v → Reach w v

-- How a cancelled wait ends: the waiter is taken out of its queue, or it drains its channel.
pub cancel_cases :
    (s : Sem) (pri : Priority) (ch : ℕ) (r : Sem × Bool)
    → cancel s pri ch ≡ some r
    → (r ≡ ((unqueue s pri ch).0, true))
      ⊎ ((t : Sem) × (received (unqueue s pri ch).0 ch ≡ some t) × (r ≡ (t, false)))
unfolding cancel
cancel_cases s pri ch r h = elim (Bool-cases (unqueue s pri ch).1) [
  | inl e ↦ inl (ground arith)
  | inr e ↦ elim (Option-cases (received (unqueue s pri ch).0 ch)) [
    | inl e' ↦ absurd (ground arith)
    | inr (t, e') ↦ inr (t, e', ground arith)
  ]
]
