-- ===== src/Tests/Queues.antt =====
-- Examples for clients/workqueue.go and pipelines/retry_queue.go.
use sokratos.Base.{◌≤◌, ◌≡◌, refl, Bool, true, false, List, [], ◌∷◌, length, pos, arith}
use sokratos.WorkQueue.{
  WorkRequest, WorkQueue, accepted, deferred, queue_work, finish_item, retrying, priority_low,
  priority_normal, priority_high,
}
use sokratos.RetryQueue.{RetryItem, RetryQueue, new_retry_queue, drain, enqueues}
use sokratos.RetryQueue.Overflow.{Op, depth_unbounded}
use sokratos.RetryQueue.Overflow

abbrev distillation : WorkRequest
distillation = record {
  label = "distillation";
  retries = 2;
  priority = priority_high;
  on_complete = true;
}

abbrev entities : WorkRequest
entities = record { label = "entities"; retries = 0; priority = priority_low; on_complete = false }

abbrev pressed : WorkQueue
pressed = record { ch = distillation ∷ distillation ∷ distillation ∷ []; capacity = 4 }

low_deferred :
    (queue_work pressed entities).1 ≡ deferred (record entities { priority = priority_normal })
unfolding queue_work
low_deferred = refl

high_accepted : (queue_work pressed distillation).1 ≡ accepted
unfolding queue_work
high_accepted = refl

failure_retried : (finish_item pressed distillation true).1 ≡ retrying
unfolding finish_item
failure_retried = refl

abbrev failing : List Bool
failing = true ∷ true ∷ true ∷ true ∷ true ∷ true ∷ true ∷ true ∷ true ∷ []

abbrev triages : RetryQueue
triages = record {
  items =
      record { fn = 0; label = "conversation triage"; retries = 1 }
      ∷ record { fn = 1; label = "email triage"; retries = 0 }
      ∷ [];
  max_items = 2;
  max_retries = 3;
}

oldest_dropped : length (enqueues triages (("email triage", 2) ∷ [])).items ≡ 2
unfolding enqueues
oldest_dropped = refl

drain_exceeds_limit : length (drain triages (λ item. true) (("email triage", 2) ∷ [])).items ≡ 3
unfolding drain
drain_exceeds_limit = refl

abbrev three_failures : List (RetryItem → Bool)
three_failures = (λ item. true) ∷ (λ item. true) ∷ (λ item. true) ∷ []

depth_unbounded_example :
    (ops : List Op) × (100 ≤ length (Overflow.run (new_retry_queue (pos 50) (pos 3)) ops).items)
unfolding new_retry_queue
depth_unbounded_example =
    depth_unbounded 100 (new_retry_queue (pos 50) (pos 3)) refl (omega arith) (omega arith)
