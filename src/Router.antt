-- ===== src/Router.antt =====
-- engine/slot_router.go: which LLM server handles an orchestrator call.
-- The two `SlotChecker`s are semaphores (clients/subagent_client.go and
-- clients/deep_thinker_client.go pass each method on). A choice is the record of closures that the
-- router returns: which semaphore they act on, and at which priority. Clients, models, log lines and
-- metrics are left out.
pub mod Balance
pub mod Preference
use mathlib.Core.Option
use sokratos.Base.{ℕ, Bool, true, false, Option, none, some, if◌then◌else◌}
use sokratos.Semaphore.{
  Priority, user, Sem, Acquired, granted, queued, try_acquire, try_acquire_at, acquire, received,
  release, release_reserved, cancel_reservation, acquire_cancelled,
}

pub data Backend : Type 0 where
  brain primary : Backend

pub record SlotRouter : Type 0 where
  pub primary_slots : Sem
  pub fallback_slots : Sem

abbrev pub slots_at : SlotRouter → Backend → Sem
slots_at r brain = r.fallback_slots
slots_at r primary = r.primary_slots

abbrev pub with_slots : SlotRouter → Backend → Sem → SlotRouter
with_slots r brain s = record r { fallback_slots = s }
with_slots r primary s = record r { primary_slots = s }

-- `brainChoice`, `primaryChoice` and `uncoordinatedChoice`.
pub data OrchestratorChoice : Type 0 where
  slot : Backend → Priority → OrchestratorChoice
  uncoordinated : OrchestratorChoice

-- A call that blocks does so on the Brain's semaphore.
pub data Routed : Type 0 where
  chosen : OrchestratorChoice → Routed
  blocked : ℕ → Routed

unfoldable pub try_acquire_primary : SlotRouter → SlotRouter × Option OrchestratorChoice
try_acquire_primary r =
    let (s, done) = try_acquire r.primary_slots in
    (record r { primary_slots = s }, if done then some (slot primary user) else none)

-- The blocking `Acquire` on the Brain.
block_on_brain : SlotRouter → Priority → Sem × Acquired → SlotRouter × Routed
block_on_brain r pri (s, granted) = (record r { fallback_slots = s }, chosen (slot brain pri))
block_on_brain r pri (s, queued ch) = (record r { fallback_slots = s }, blocked ch)

unfoldable pub acquire_prefer_brain : SlotRouter → Priority → SlotRouter × Routed
unfolding block_on_brain
acquire_prefer_brain r pri =
    let (f, on_brain) = try_acquire_at r.fallback_slots pri in
    let (p, on_primary) = try_acquire_at r.primary_slots pri in
    if on_brain
    then (record r { fallback_slots = f }, chosen (slot brain pri))
    else if on_primary
    then (record r { primary_slots = p }, chosen (slot primary pri))
    else block_on_brain r pri (acquire r.fallback_slots pri)

unfoldable pub acquire_prefer_primary : SlotRouter → Priority → SlotRouter × Routed
unfolding block_on_brain
acquire_prefer_primary r pri =
    let (p, on_primary) = try_acquire_at r.primary_slots pri in
    if on_primary
    then (record r { primary_slots = p }, chosen (slot primary pri))
    else block_on_brain r pri (acquire r.fallback_slots pri)

unfoldable pub acquire_or_fallback : SlotRouter → Bool → Priority → SlotRouter × Routed
unfolding acquire_prefer_brain acquire_prefer_primary
acquire_or_fallback r prefer_brain pri =
    if prefer_brain then acquire_prefer_brain r pri else acquire_prefer_primary r pri

-- A call that blocks on the Brain goes on when its channel closes, or ends with its context.
unfoldable pub unblocked : SlotRouter → Priority → ℕ → Option (SlotRouter × OrchestratorChoice)
unblocked r pri ch =
    Option.map (λ s. (record r { fallback_slots = s }, slot brain pri))
      (received r.fallback_slots ch)

unfoldable pub unblocked_cancelled :
    SlotRouter → Priority → ℕ → Option (SlotRouter × OrchestratorChoice)
unblocked_cancelled r pri ch =
    Option.map (λ s. (record r { fallback_slots = s }, uncoordinated))
      (acquire_cancelled r.fallback_slots pri ch)

-- The closures of a choice: `Release`, `ReleaseReserved`, and `Reacquire` up to its wait.
unfoldable pub choice_release : SlotRouter → OrchestratorChoice → SlotRouter
choice_release r (slot b pri) = with_slots r b (release (slots_at r b))
choice_release r uncoordinated = r

unfoldable pub choice_release_reserved : SlotRouter → OrchestratorChoice → SlotRouter
choice_release_reserved r (slot b pri) = with_slots r b (release_reserved (slots_at r b))
choice_release_reserved r uncoordinated = r

unfoldable pub choice_reacquire : SlotRouter → OrchestratorChoice → SlotRouter × Acquired
choice_reacquire r (slot b pri) = let (s, a) = acquire (slots_at r b) pri in (with_slots r b s, a)
choice_reacquire r uncoordinated = (r, granted)

-- `Reacquire` whose context ends while it waits at `ch`: the error branch cancels a reservation.
unfoldable pub choice_reacquire_cancelled : SlotRouter → OrchestratorChoice → ℕ → Option SlotRouter
choice_reacquire_cancelled r (slot b pri) ch =
    Option.map (λ s. with_slots r b (cancel_reservation s))
      (acquire_cancelled (slots_at r b) pri ch)
choice_reacquire_cancelled r uncoordinated ch = none

-- `passthroughRouter`: its one choice has closures that do nothing, like the uncoordinated one.
abbrev pub noop_choice : OrchestratorChoice
noop_choice = uncoordinated

unfoldable pub passthrough_try_acquire_primary : Option OrchestratorChoice
passthrough_try_acquire_primary = some noop_choice

unfoldable pub passthrough_acquire_or_fallback : Bool → Priority → OrchestratorChoice
passthrough_acquire_or_fallback prefer_brain pri = noop_choice
