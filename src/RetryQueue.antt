-- ===== src/RetryQueue.antt =====
-- pipelines/retry_queue.go: failed background work that is tried again at intervals.
-- The work `fn` of an item is known by a number, and whether a call of it fails is an argument of
-- the drain. `drain` takes the items under the mutex, calls them without it, and puts those to be
-- tried again back under it: three functions, since `Enqueue` may run between them.
pub mod Retries
pub mod Depth
pub mod Overflow
use Prim.Native.String.{String}
use sokratos.Base.{
  ℕ, suc, ◌+◌, Bool, true, false, List, [], ◌∷◌, ◌++◌, leb, if◌then◌else◌, length, ℤ, positive_or,
}

pub record RetryItem : Type 0 where
  pub fn : ℕ
  pub label : String
  pub retries : ℕ

pub record RetryQueue : Type 0 where
  pub items : List RetryItem
  pub max_items : ℕ
  pub max_retries : ℕ

unfoldable pub new_retry_queue : ℤ → ℤ → RetryQueue
new_retry_queue max_items max_retries = record {
  items = [];
  max_items = positive_or 50 max_items;
  max_retries = positive_or 3 max_retries;
}

-- `q.items[1:]`, which is only reached with an item in the queue.
abbrev pub drop_oldest : List RetryItem → List RetryItem
drop_oldest [] = []
drop_oldest (item ∷ items) = items

unfoldable pub enqueue : RetryQueue → String → ℕ → RetryQueue
enqueue q label fn =
    let kept = if leb q.max_items (length q.items) then drop_oldest q.items else q.items in
    record q { items = kept ++ record { fn = fn; label = label; retries = 0 } ∷ [] }

-- `batch := q.items; q.items = nil`.
unfoldable pub take_batch : RetryQueue → List RetryItem × RetryQueue
take_batch q = (q.items, record q { items = [] })

-- The loop over the batch: the items to be tried again.
unfoldable pub retry_batch : ℕ → (RetryItem → Bool) → List RetryItem → List RetryItem
retry_batch max_retries fails [] = []
retry_batch max_retries fails (item ∷ batch) =
    let requeue = retry_batch max_retries fails batch in
    let again = record item { retries = suc item.retries } in
    if fails item
    then (if leb max_retries again.retries then requeue else again ∷ requeue)
    else requeue

-- `q.items = append(requeue, q.items...)`.
unfoldable pub put_back : RetryQueue → List RetryItem → RetryQueue
put_back q requeue = record q { items = requeue ++ q.items }

unfoldable pub enqueues : RetryQueue → List (String × ℕ) → RetryQueue
unfolding enqueue
enqueues q [] = q
enqueues q ((label, fn) ∷ rest) = enqueues (enqueue q label fn) rest

-- A whole drain, with the items that are enqueued while the batch is called.
unfoldable pub drain : RetryQueue → (RetryItem → Bool) → List (String × ℕ) → RetryQueue
unfolding take_batch retry_batch put_back enqueues
drain q fails meanwhile =
    let (batch, emptied) = take_batch q in
    let requeue = retry_batch q.max_retries fails batch in
    put_back (enqueues emptied meanwhile) requeue
