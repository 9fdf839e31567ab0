-- ===== src/WorkQueue/Pressure.antt =====
-- Admission control of clients/workqueue.go.
use sokratos.Base.{
  ℕ, ◌-◌, ◌*◌, ◌/◌, ◌≤◌, ◌<◌, ◌≡◌, ◌≢◌, ◌⊎◌, Bool, Option, none, some, List, [], ◌∷◌, ◌++◌, length,
  length-snoc, arith,
}
use sokratos.WorkQueue.{
  WorkRequest, WorkQueue, accepted, deferred, dropped, queue_work, new_work_queue, take_item,
  take_from, try_send, finish_item, priority_normal,
}

-- The three ends of a call of `QueueWork`, each with exactly the states in which it comes about:
-- an item of low priority is deferred when the channel is at least three quarters full, unchanged
-- but for its priority; any other item is dropped when the channel is full, and goes to its end
-- otherwise.
queue_work_ends :
    (q : WorkQueue) (item : WorkRequest)
    → ((queue_work q item ≡ (q, deferred (record item { priority = priority_normal })))
        × (item.priority ≡ 1)
        × (q.capacity * 3 / 4 ≤ length q.ch))
      ⊎ ((queue_work q item ≡ (q, dropped item.on_complete))
          × ((item.priority ≢ 1) ⊎ (length q.ch < q.capacity * 3 / 4))
          × (q.capacity ≤ length q.ch))
      ⊎ ((queue_work q item ≡ (record q { ch = q.ch ++ item ∷ [] }, accepted))
          × ((item.priority ≢ 1) ⊎ (length q.ch < q.capacity * 3 / 4))
          × (length q.ch < q.capacity))
unfolding queue_work
queue_work_ends q item = ground arith

-- An item that was deferred is not deferred again.
pub deferred_once :
    (q q' : WorkQueue) (item again : WorkRequest)
    → (queue_work q item).1 ≡ deferred again
    → ((queue_work q' again).1 ≡ accepted) ⊎ ((queue_work q' again).1 ≡ dropped item.on_complete)
unfolding queue_work
deferred_once q q' item again e = ground arith

abbrev IsBounded : WorkQueue → Type 0
IsBounded q = length q.ch ≤ q.capacity

-- The calls that change the channel.
pub data Op : Type 0 where
  submits : WorkRequest → Op
  takes : Op
  finishes : WorkRequest → Bool → Op

abbrev taken : WorkQueue → Option (WorkRequest × WorkQueue) → WorkQueue
taken q none = q
taken q (some (item, rest)) = rest

pub step : WorkQueue → Op → WorkQueue
step q (submits item) = (queue_work q item).0
step q takes = taken q (take_item q)
step q (finishes item failed) = (finish_item q item failed).0

try_send-IsBounded :
    (q : WorkQueue) (item : WorkRequest) → IsBounded q → IsBounded (try_send q item).0
unfolding try_send
try_send-IsBounded q item b = ground (arith, length-snoc q.ch item)

take_from-IsBounded :
    (q : WorkQueue) (items : List WorkRequest)
    → length items ≤ q.capacity
    → IsBounded q
    → IsBounded (taken q (take_from q items))
unfolding take_from
take_from-IsBounded q [] h b = b
take_from-IsBounded q (item ∷ items) h b = omega arith

step-IsBounded : (q : WorkQueue) (op : Op) → IsBounded q → (IsBounded (step q op))
unfolding step queue_work take_item finish_item
step-IsBounded q (submits item) b = ground (arith, length-snoc q.ch item)
step-IsBounded q takes b = take_from-IsBounded q q.ch b b
step-IsBounded q (finishes item failed) b =
    ground (arith, length-snoc q.ch (record item { retries = item.retries - 1 }))

pub run : WorkQueue → List Op → WorkQueue
run q [] = q
run q (op ∷ ops) = run (step q op) ops

run-IsBounded : (q : WorkQueue) (ops : List Op) → IsBounded q → IsBounded (run q ops)
unfolding run
run-IsBounded q [] b = b
run-IsBounded q (op ∷ ops) b = run-IsBounded (step q op) ops (step-IsBounded q op b)

-- Whatever is submitted, taken and retried, and in whatever order, the channel of a new work queue
-- never holds more items than its capacity.
depth-le-capacity :
    (capacity : ℕ) (ops : List Op)
    → let q = run (new_work_queue capacity) ops in length q.ch ≤ q.capacity
unfolding new_work_queue
depth-le-capacity capacity ops = run-IsBounded (new_work_queue capacity) ops (omega arith)
