-- ===== src/Router/Balance.antt =====
-- The slots of both servers over the calls of engine/slot_router.go.
use sokratos.Base.{
  ℕ, ◌+◌, ◌≡◌, ◌⊎◌, inl, inr, refl, Bool, true, false, some, arith, if◌then◌else◌, ltb,
}
use sokratos.Semaphore.{Priority, acquire}
use sokratos.Semaphore.Conservation.{
  idle, release-Moves, try_acquire_at-Moves, acquire-Moves, acquire_cancelled-Moves,
  cancel_reservation-Moves,
}
use sokratos.Router.{
  Backend, brain, primary, SlotRouter, slots_at, OrchestratorChoice, slot, uncoordinated, Routed,
  chosen, blocked, acquire_prefer_brain, acquire_prefer_primary, acquire_or_fallback,
  block_on_brain, choice_release, choice_reacquire_cancelled,
}

-- The idle slots of both servers.
abbrev pub idle_total : SlotRouter → ℕ
idle_total r = idle r.primary_slots + idle r.fallback_slots

abbrev pub slots_of_choice : OrchestratorChoice → ℕ
slots_of_choice (slot b pri) = 1
slots_of_choice uncoordinated = 0

abbrev pub slots_of : Routed → ℕ
slots_of (chosen c) = slots_of_choice c
slots_of (blocked ch) = 0

block_on_brain_total :
    (r : SlotRouter) (pri : Priority)
    → let (r', out) = block_on_brain r pri (acquire r.fallback_slots pri) in
      idle_total r' + slots_of out ≡ idle_total r
unfolding block_on_brain
block_on_brain_total r pri = ground (arith, acquire-Moves r.fallback_slots pri)

prefer_primary_total :
    (r : SlotRouter) (pri : Priority)
    → let (r', out) = acquire_prefer_primary r pri in idle_total r' + slots_of out ≡ idle_total r
unfolding acquire_prefer_primary
prefer_primary_total r pri =
    ground (arith, block_on_brain_total r pri, try_acquire_at-Moves r.primary_slots pri)

prefer_brain_total :
    (r : SlotRouter) (pri : Priority)
    → let (r', out) = acquire_prefer_brain r pri in idle_total r' + slots_of out ≡ idle_total r
unfolding acquire_prefer_brain
prefer_brain_total r pri = ground (
  arith,
  block_on_brain_total r pri,
  try_acquire_at-Moves r.primary_slots pri,
  try_acquire_at-Moves r.fallback_slots pri,
)

choice_release_total :
    (r : SlotRouter) (c : OrchestratorChoice)
    → idle_total (choice_release r c) ≡ idle_total r + slots_of_choice c
unfolding choice_release
choice_release_total r (slot brain pri) = omega (arith, release-Moves r.fallback_slots)
choice_release_total r (slot primary pri) = omega (arith, release-Moves r.primary_slots)
choice_release_total r uncoordinated = omega arith

-- From `r` to `r'`, with the result `out`: a choice holds one slot, and its release restores the
-- idle slots of `r`; a call that blocks holds none.
abbrev pub IsBalanced : SlotRouter → SlotRouter × Routed → Type 0
IsBalanced r (r', out) =
    ((ch : ℕ) × (out ≡ blocked ch) × (idle_total r' ≡ idle_total r))
    ⊎ ((c : OrchestratorChoice) × (out ≡ chosen c)
        × (idle_total r' + slots_of_choice c ≡ idle_total r)
        × (idle_total (choice_release r' c) ≡ idle_total r))

balanced :
    (r r' : SlotRouter) (out : Routed)
    → idle_total r' + slots_of out ≡ idle_total r
    → IsBalanced r (r', out)
balanced r r' (blocked ch) e = inl (ch, refl, omega arith)
balanced r r' (chosen c) e = inr (c, refl, e, omega (arith, choice_release_total r' c))

-- Each strategy takes one slot, of either server, for a choice that it returns at once, and none
-- when it blocks; releasing the choice gives that slot back.
acquire_or_fallback-IsBalanced :
    (r : SlotRouter) (prefer_brain : Bool) (pri : Priority)
    → IsBalanced r (acquire_or_fallback r prefer_brain pri)
unfolding acquire_or_fallback
acquire_or_fallback-IsBalanced r true pri = balanced r _ _ (prefer_brain_total r pri)
acquire_or_fallback-IsBalanced r false pri = balanced r _ _ (prefer_primary_total r pri)

-- A reacquire that fails because its context ends gives back what it waited for; but the
-- `CancelReservation` that follows makes one slot out of nothing whenever the server has a
-- reservation at that time, whoever parked it.
pub choice_reacquire_cancelled_total :
    (r r' : SlotRouter) (b : Backend) (pri : Priority) (ch : ℕ)
    → choice_reacquire_cancelled r (slot b pri) ch ≡ some r'
    → idle_total r' ≡ idle_total r + (if ltb 0 (slots_at r b).reserved then 1 else 0)
unfolding choice_reacquire_cancelled
choice_reacquire_cancelled_total r r' brain pri ch e =
    grind (arith, acquire_cancelled-Moves r.fallback_slots pri ch, cancel_reservation-Moves)
choice_reacquire_cancelled_total r r' primary pri ch e =
    grind (arith, acquire_cancelled-Moves r.primary_slots pri ch, cancel_reservation-Moves)
