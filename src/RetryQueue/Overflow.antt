-- ===== src/RetryQueue/Overflow.antt =====
-- The queue of pipelines/retry_queue.go has no bound: `drain` puts the failed items back in front of
-- whatever came in meanwhile, and never looks at the limit.
use Prim.Native.String.{String}
use mathlib.Core.List.{append-nil, append_assoc}
use sokratos.Base.{
  ℕ, zero, suc, ◌+◌, ◌*◌, ◌≤◌, ◌<◌, ◌≡◌, refl, sym, ap, subst, ◌∙◌, Bool, true, List, [], ◌∷◌, ◌++◌,
  length, length-append, le→leb, arith, All,
}
use sokratos.RetryQueue.{RetryItem, RetryQueue, enqueue, enqueues, retry_batch, drain}
use sokratos.RetryQueue.Depth.{length-enqueue, enqueue_limits, tasks, enqueues_fill}

pub data Op : Type 0 where
  arrive : List (String × ℕ) → Op
  drains : (RetryItem → Bool) → List (String × ℕ) → Op

pub step : RetryQueue → Op → RetryQueue
step q (arrive work) = enqueues q work
step q (drains fails meanwhile) = drain q fails meanwhile

pub run : RetryQueue → List Op → RetryQueue
run q [] = q
run q (op ∷ ops) = run (step q op) ops

run-append : (q : RetryQueue) (xs ys : List Op) → run q (xs ++ ys) ≡ run (run q xs) ys
unfolding run
run-append q [] ys = refl
run-append q (op ∷ xs) ys = run-append (step q op) xs ys

-- Not tried yet.
abbrev IsFresh : List RetryItem → Type 0
IsFresh = All (λ item. item.retries ≡ 0)

abbrev fresh_item : String → ℕ → RetryItem
fresh_item label fn = record { fn = fn; label = label; retries = 0 }

IsFresh-snoc :
    (items : List RetryItem) (label : String) (fn : ℕ)
    → IsFresh items
    → IsFresh (items ++ fresh_item label fn ∷ [])
IsFresh-snoc [] label fn h = (refl, tt)
IsFresh-snoc (item ∷ items) label fn h = (h.0, IsFresh-snoc items label fn h.1)

enqueue_full :
    (q : RetryQueue) (o : RetryItem) (rest : List RetryItem) (label : String) (fn : ℕ)
    → q.items ≡ o ∷ rest
    → q.max_items ≤ length q.items
    → (enqueue q label fn).items ≡ rest ++ fresh_item label fn ∷ []
unfolding enqueue
enqueue_full q o rest label fn e h = rw (le→leb _ _ h, e)

-- What a queue keeps of its limits, and its depth.
abbrev Keeps : RetryQueue → RetryQueue → Type 0
Keeps q r =
    (length r.items ≡ length q.items)
    × (r.max_items ≡ q.max_items)
    × (r.max_retries ≡ q.max_retries)

-- In a full queue as many arrivals as there are old items push all of these out.
refresh :
    (old new : List RetryItem) (q : RetryQueue)
    → q.items ≡ old ++ new
    → IsFresh new
    → 0 < q.max_items
    → q.max_items ≤ length q.items
    → let r = enqueues q (tasks (length old)) in IsFresh r.items × Keeps q r
unfolding enqueues
refresh [] new q e f p h = (subst IsFresh (sym e) f, (refl, refl, refl))
refresh (o ∷ old) new q e f p h =
    let q' = enqueue q "" (length old) in
    let items : q'.items ≡ old ++ (new ++ fresh_item "" (length old) ∷ []) =
      enqueue_full q o (old ++ new) "" (length old) e h ∙ append_assoc old new _ in
    let l = length-enqueue q "" (length old) p in
    let l' : length q'.items ≡ length q.items = ground (arith, l) in
    let ih =
      refresh old (new ++ fresh_item "" (length old) ∷ []) q' items
        (IsFresh-snoc new "" (length old) f) p
        (omega (arith, l', enqueue_limits q "" (length old))) in
    (ih.0, omega (arith, ih.1, l'))

abbrev all_fail : RetryItem → Bool
all_fail item = true

retry_batch_fresh :
    (n : ℕ) (batch : List RetryItem)
    → 2 ≤ n
    → IsFresh batch
    → length (retry_batch n all_fail batch) ≡ length batch
unfolding retry_batch
retry_batch_fresh n [] h f = refl
retry_batch_fresh n (item ∷ batch) h f = ground (arith, retry_batch_fresh n batch h f.1)

-- A drain of fresh items that all fail puts them all back, beside as many arrivals as there is room
-- for in an empty queue.
drain_fresh :
    (q : RetryQueue)
    → 2 ≤ q.max_retries
    → IsFresh q.items
    → let r = drain q all_fail (tasks q.max_items) in
      (length r.items ≡ length q.items + q.max_items)
      × (r.max_items ≡ q.max_items)
      × (r.max_retries ≡ q.max_retries)
unfolding drain
drain_fresh q h f =
    let filled = enqueues_fill q.max_items (record q { items = [] }) (omega arith) in
    let requeue = retry_batch q.max_retries all_fail q.items in
    let meanwhile = (enqueues (record q { items = [] }) (tasks q.max_items)).items in
    omega
      (arith, filled, length-append requeue meanwhile, retry_batch_fresh q.max_retries q.items h f)

-- One more `max_items` for each round of arrivals and a drain in which everything fails.
rounds :
    (n : ℕ) (q : RetryQueue)
    → q.items ≡ []
    → 0 < q.max_items
    → 2 ≤ q.max_retries
    → (ops : List Op) × (length (run q ops).items ≡ (n + 1) * q.max_items)
      × ((run q ops).max_items ≡ q.max_items)
      × ((run q ops).max_retries ≡ q.max_retries)
unfolding run step
rounds zero q e p h =
    let r = enqueues_fill q.max_items q (omega (arith, ap length e)) in
    (arrive (tasks q.max_items) ∷ [], omega (arith, r, ap length e), r.1, r.2)
rounds (suc n) q e p h =
    let (ops, d, m, t) = rounds n q e p h in
    let u = run q ops in
    let r =
      refresh u.items [] u (sym (append-nil u.items)) tt (omega (arith, m)) (omega (arith, d, m)) in
    let v = enqueues u (tasks (length u.items)) in
    let w = drain_fresh v (omega (arith, r.1, t)) r.0 in
    let more = arrive (tasks (length u.items)) ∷ drains all_fail (tasks v.max_items) ∷ [] in
    let all = run-append q ops more in
    (
      ops ++ more,
      ap (λ x. length x.items) all ∙ omega (arith, w, r.1, d, m),
      ap (λ x. x.max_items) all ∙ omega (arith, w, r.1, m),
      ap (λ x. x.max_retries) all ∙ omega (arith, w, r.1, t),
    )

-- For every depth there are arrivals and drains after which an empty queue with at least two
-- attempts for an item is at least that deep, whatever its `max_items`.
pub depth_unbounded :
    (depth : ℕ) (q : RetryQueue)
    → q.items ≡ []
    → 0 < q.max_items
    → 2 ≤ q.max_retries
    → (ops : List Op) × (depth ≤ length (run q ops).items)
depth_unbounded depth q e p h = let (ops, d, m, t) = rounds depth q e p h in (ops, grind (arith, d))
