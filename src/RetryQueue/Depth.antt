-- ===== src/RetryQueue/Depth.antt =====
-- How deep the queue of pipelines/retry_queue.go gets.
use Prim.Native.String.{String}
use sokratos.Base.{
  ℕ, zero, suc, ◌+◌, ◌-◌, ◌≤◌, ◌<◌, ◌≡◌, refl, List, [], ◌∷◌, leb, if◌then◌else◌, length,
  length-snoc, arith,
}
use sokratos.RetryQueue.{RetryItem, RetryQueue, drop_oldest, enqueue, enqueues}

length-drop_oldest : (items : List RetryItem) → length (drop_oldest items) ≡ length items - 1
length-drop_oldest [] = omega arith
length-drop_oldest (item ∷ items) = omega arith

-- `Enqueue` makes a queue below its limit one deeper, and leaves the depth of any other as it is.
pub length-enqueue :
    (q : RetryQueue) (label : String) (fn : ℕ)
    → 0 < q.max_items
    → length (enqueue q label fn).items
      ≡ (if leb q.max_items (length q.items) then length q.items else length q.items + 1)
unfolding enqueue
length-enqueue q label fn h = ground (
  arith,
  length-drop_oldest q.items,
  length-snoc q.items (record { fn = fn; label = label; retries = 0 }),
  length-snoc (drop_oldest q.items) (record { fn = fn; label = label; retries = 0 }),
)

pub enqueue_limits :
    (q : RetryQueue) (label : String) (fn : ℕ)
    → ((enqueue q label fn).max_items ≡ q.max_items)
      × ((enqueue q label fn).max_retries ≡ q.max_retries)
unfolding enqueue
enqueue_limits q label fn = (refl, refl)

abbrev pub tasks : ℕ → List (String × ℕ)
tasks zero = []
tasks (suc n) = ("", n) ∷ tasks n

-- Up to the limit, each arrival stays.
pub enqueues_fill :
    (n : ℕ) (q : RetryQueue)
    → length q.items + n ≤ q.max_items
    → let r = enqueues q (tasks n) in
      (length r.items ≡ length q.items + n)
      × (r.max_items ≡ q.max_items)
      × (r.max_retries ≡ q.max_retries)
unfolding enqueues
enqueues_fill zero q h = omega arith
enqueues_fill (suc n) q h =
    let q' = enqueue q "" n in
    let l = length-enqueue q "" n (omega arith) in
    let e = enqueue_limits q "" n in
    let l' : length q'.items ≡ length q.items + 1 = ground arith in
    let ih = enqueues_fill n q' (omega arith) in omega (arith, ih)
