-- ===== src/Router/Preference.antt =====
-- Which server engine/slot_router.go chooses, and when it blocks.
use sokratos.Base.{ℕ, ◌≡◌, ◌⊎◌, inl, inr, refl, Bool, true, false, Bool-cases, arith}
use sokratos.Semaphore.{
  Priority, user, background, Sem, Acquired, granted, queued, try_acquire_at, acquire, enqueue,
}
use sokratos.Semaphore.Service.{acquire-try_acquire_at}
use sokratos.Router.{
  brain, primary, SlotRouter, slot, Routed, chosen, blocked, acquire_or_fallback, block_on_brain,
}

-- What `TryAcquireAt` would answer.
abbrev pub is_free : Sem → Priority → Bool
is_free s pri = (try_acquire_at s pri).1

enqueue-queued : (s : Sem) (pri : Priority) → (enqueue s pri).1 ≡ queued s.made
unfolding enqueue
enqueue-queued s user = refl
enqueue-queued s background = refl

block_on_brain-result :
    (r : SlotRouter) (pri : Priority) (a : Sem × Acquired)
    → ((a.1 ≡ granted) × ((block_on_brain r pri a).1 ≡ chosen (slot brain pri)))
      ⊎ ((ch : ℕ) × (a.1 ≡ queued ch) × ((block_on_brain r pri a).1 ≡ blocked ch))
unfolding block_on_brain
block_on_brain-result r pri (s, granted) = inl (refl, refl)
block_on_brain-result r pri (s, queued ch) = inr (ch, refl, refl)

brain_granted : (s : Sem) (pri : Priority) → is_free s pri ≡ true → (acquire s pri).1 ≡ granted
brain_granted s pri e = rw (acquire-try_acquire_at s pri, e)

brain_queued :
    (s : Sem) (pri : Priority) → is_free s pri ≡ false → (acquire s pri).1 ≡ queued s.made
brain_queued s pri e = rw (acquire-try_acquire_at s pri, e) (enqueue-queued s pri)

-- Where a call goes, by what is free: `b` on the Brain and `p` on the primary server.
abbrev pub IsRouted : Bool → Bool → Bool → Priority → Routed → Type 0
IsRouted prefer_brain b p pri out =
    ((out ≡ chosen (slot brain pri)) × (b ≡ true) × ((prefer_brain ≡ true) ⊎ (p ≡ false)))
    ⊎ ((out ≡ chosen (slot primary pri)) × (p ≡ true) × ((prefer_brain ≡ false) ⊎ (b ≡ false)))
    ⊎ ((ch : ℕ) × (out ≡ blocked ch) × (b ≡ false) × (p ≡ false))

block_on_brain-IsRouted :
    (r : SlotRouter) (prefer_brain : Bool) (pri : Priority)
    → is_free r.primary_slots pri ≡ false
    → IsRouted prefer_brain
        (is_free r.fallback_slots pri)
        (is_free r.primary_slots pri)
        pri
        (block_on_brain r pri (acquire r.fallback_slots pri)).1
block_on_brain-IsRouted r prefer_brain pri busy = elim (Bool-cases (is_free r.fallback_slots pri)) [
  | inl e ↦ ground (
    arith,
    block_on_brain-result r pri (acquire r.fallback_slots pri),
    brain_granted r.fallback_slots pri e,
  )
  | inr e ↦ ground (
    arith,
    block_on_brain-result r pri (acquire r.fallback_slots pri),
    brain_queued r.fallback_slots pri e,
  )
]

-- With either strategy a call gets its preferred server if that has a slot for its priority, else
-- the other server if that has one, and blocks only if neither has.
pub acquire_or_fallback-IsRouted :
    (r : SlotRouter) (prefer_brain : Bool) (pri : Priority)
    → IsRouted prefer_brain
        (is_free r.fallback_slots pri)
        (is_free r.primary_slots pri)
        pri
        (acquire_or_fallback r prefer_brain pri).1
unfolding acquire_or_fallback
acquire_or_fallback-IsRouted r true pri = elim (Bool-cases (is_free r.primary_slots pri)) [
  | inl e ↦ ground arith
  | inr e ↦ ground (arith, block_on_brain-IsRouted r true pri e)
]
acquire_or_fallback-IsRouted r false pri = elim (Bool-cases (is_free r.primary_slots pri)) [
  | inl e ↦ ground arith
  | inr e ↦ ground (arith, block_on_brain-IsRouted r false pri e)
]
