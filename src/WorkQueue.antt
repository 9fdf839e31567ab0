-- ===== src/WorkQueue.antt =====
-- clients/workqueue.go: the buffered channel of background LLM tasks, with the priorities and the
-- request of memory/save.go.
-- The channel is a list, the next item first. Prompts, timeouts and log lines are left out, and
-- `Retries` and `Priority` are natural numbers; whether `OnComplete` is set is a flag.
pub mod Pressure
pub mod Draining
use Prim.Native.String.{String}
use sokratos.Base.{
  ℕ, zero, suc, ◌+◌, ◌-◌, ◌*◌, ◌/◌, Bool, true, false, ◌&&◌, Option, none, some, List, [], ◌∷◌,
  ◌++◌, ltb, leb, ◌==◌, if◌then◌else◌, length,
}

abbrev pub priority_low : ℕ
priority_low = 1

abbrev pub priority_normal : ℕ
priority_normal = 2

abbrev pub priority_high : ℕ
priority_high = 3

pub record WorkRequest : Type 0 where
  pub label : String
  pub retries : ℕ
  pub priority : ℕ
  pub on_complete : Bool

pub record WorkQueue : Type 0 where
  pub ch : List WorkRequest
  pub capacity : ℕ

-- What `QueueWork` does with an item: into the channel, back after an hour as the item given here,
-- or dropped, with the error `work queue full` to `OnComplete` if the flag is set.
pub data Admission : Type 0 where
  accepted : Admission
  deferred : WorkRequest → Admission
  dropped : Bool → Admission

-- The `select` with a `default` that sends.
unfoldable pub try_send : WorkQueue → WorkRequest → WorkQueue × Bool
try_send q item =
    if ltb (length q.ch) q.capacity then (record q { ch = q.ch ++ item ∷ [] }, true) else (q, false)

unfoldable pub queue_work : WorkQueue → WorkRequest → WorkQueue × Admission
unfolding try_send
queue_work q item =
    let pri = if item.priority == 0 then priority_normal else item.priority in
    let depth = length q.ch in
    let threshold = q.capacity * 3 / 4 in
    if leb threshold depth && leb pri priority_low
    then (q, deferred (record item { priority = priority_normal }))
    else (let (q', sent) = try_send q item in
        (q', if sent then accepted else dropped item.on_complete))

-- A worker takes the next item; it waits on the empty channel.
take_from : WorkQueue → List WorkRequest → Option (WorkRequest × WorkQueue)
take_from q [] = none
take_from q (item ∷ rest) = some (item, record q { ch = rest })

unfoldable pub take_item : WorkQueue → Option (WorkRequest × WorkQueue)
unfolding take_from
take_item q = take_from q q.ch

-- The end of an item's turn: back in the channel with one retry less, or delivered.
pub data Turn : Type 0 where
  retrying : Turn
  delivered : WorkRequest → Bool → Turn

-- One turn of `process` after `execFn`; the flag is `err != nil`.
unfoldable pub finish_item : WorkQueue → WorkRequest → Bool → WorkQueue × Turn
unfolding try_send
finish_item q item failed =
    if failed && ltb 0 item.retries
    then (let again = record item { retries = item.retries - 1 } in
        let (q', sent) = try_send q again in
        (q', if sent then retrying else delivered again failed))
    else (q, delivered item failed)

unfoldable pub new_work_queue : ℕ → WorkQueue
new_work_queue capacity = record { ch = []; capacity = capacity }
