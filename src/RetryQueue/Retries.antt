-- ===== src/RetryQueue/Retries.antt =====
-- Which items pipelines/retry_queue.go tries again, and how often.
use mathlib.Core.List.{append-nil}
use sokratos.Base.{
  ℕ, suc, ◌+◌, ◌-◌, ◌≤◌, ◌<◌, ◌≡◌, refl, sym, subst, ◌∙◌, Bool, List, [], ◌∷◌, length, arith, All,
}
use sokratos.RetryQueue.{RetryItem, RetryQueue, retry_batch, drain}

-- Every item in the queue has attempts left.
abbrev pub HasAttempts : ℕ → List RetryItem → Type 0
HasAttempts max_retries = All (λ item. item.retries < max_retries)

-- The attempts that the items have left in all.
pub attempts_left : ℕ → List RetryItem → ℕ
attempts_left max_retries [] = 0
attempts_left max_retries (item ∷ items) =
    (max_retries - item.retries) + attempts_left max_retries items

retry_batch-HasAttempts :
    (n : ℕ) (fails : RetryItem → Bool) (batch : List RetryItem)
    → HasAttempts n (retry_batch n fails batch)
unfolding retry_batch
retry_batch-HasAttempts n fails [] = tt
retry_batch-HasAttempts n fails (item ∷ batch) =
    ground (arith, retry_batch-HasAttempts n fails batch)

-- Every item of a batch that is tried uses up one attempt, whether it fails or not.
retry_batch_attempts :
    (n : ℕ) (fails : RetryItem → Bool) (batch : List RetryItem)
    → HasAttempts n batch
    → attempts_left n (retry_batch n fails batch) + length batch ≤ attempts_left n batch
unfolding retry_batch attempts_left
retry_batch_attempts n fails [] h = omega arith
retry_batch_attempts n fails (item ∷ batch) h =
    ground (arith, retry_batch_attempts n fails batch h.1)

abbrev AtLeast : ℕ → List RetryItem → Type 0
AtLeast k = All (λ item. k ≤ item.retries)

retry_batch-AtLeast :
    (k n : ℕ) (fails : RetryItem → Bool) (batch : List RetryItem)
    → AtLeast k batch
    → AtLeast (suc k) (retry_batch n fails batch)
unfolding retry_batch
retry_batch-AtLeast k n fails [] h = tt
retry_batch-AtLeast k n fails (item ∷ batch) h =
    ground (arith, retry_batch-AtLeast k n fails batch h.1)

AtLeast-zero : (items : List RetryItem) → AtLeast 0 items
AtLeast-zero [] = tt
AtLeast-zero (item ∷ items) = (omega arith, AtLeast-zero items)

exhausted :
    (n k : ℕ) (items : List RetryItem) → n ≤ k → HasAttempts n items → AtLeast k items → items ≡ []
exhausted n k [] h a b = refl
exhausted n k (item ∷ items) h a b = absurd (omega arith)

-- Drains with no arrivals; each says which of the calls fail.
pub drains : RetryQueue → List (RetryItem → Bool) → RetryQueue
drains q [] = q
drains q (fails ∷ rest) = drains (drain q fails []) rest

drain_quiet :
    (q : RetryQueue) (fails : RetryItem → Bool)
    → (drain q fails []).items ≡ retry_batch q.max_retries fails q.items
unfolding drain
drain_quiet q fails = append-nil _

drain_max_retries :
    (q : RetryQueue) (fails : RetryItem → Bool) → (drain q fails []).max_retries ≡ q.max_retries
unfolding drain
drain_max_retries q fails = refl

drains_from :
    (k n : ℕ) (q : RetryQueue) (oracles : List (RetryItem → Bool))
    → q.max_retries ≡ n
    → HasAttempts n q.items
    → AtLeast k q.items
    → n ≤ k + length oracles
    → (drains q oracles).items ≡ []
unfolding drains
drains_from k n q [] e a b h = exhausted n k q.items (omega arith) a b
drains_from k n q (fails ∷ rest) e a b h =
    let items : (drain q fails []).items ≡ retry_batch n fails q.items =
      rw (drain_quiet q fails, e) in
    drains_from (suc k) n (drain q fails []) rest (drain_max_retries q fails ∙ e)
      (subst (HasAttempts n) (sym items) (retry_batch-HasAttempts n fails q.items))
      (subst (AtLeast (suc k)) (sym items) (retry_batch-AtLeast k n fails q.items b)) (omega arith)

-- However the calls turn out, as many drains as an item has attempts, with nothing enqueued in
-- between, empty a queue in which every item has attempts left.
pub drains_empty :
    (q : RetryQueue) (oracles : List (RetryItem → Bool))
    → HasAttempts q.max_retries q.items
    → q.max_retries ≤ length oracles
    → (drains q oracles).items ≡ []
drains_empty q oracles a h =
    drains_from 0 q.max_retries q oracles refl a (AtLeast-zero q.items) (omega arith)
