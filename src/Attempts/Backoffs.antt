-- ===== src/Attempts/Backoffs.antt =====
-- How often pipelines/retry.go calls, how long it waits, and what it returns.
use sokratos.Base.{
  ℕ, zero, suc, ◌+◌, ◌-◌, ◌*◌, ◌≤◌, ◌<◌, ◌≡◌, ◌≢◌, inl, inr, refl, ap, subst, ◌∙◌, false, Option,
  none, some, List, [], ◌∷◌, ◌==◌, Option-cases, arith,
}
use sokratos.Attempts.{
  Verdict, fatal, retry, Answer, value, error, Attempts, finished, before, waited, on_error,
  on_answer, attempts, retry_with_backoff,
}

-- Each wait is twice the one before it.
abbrev pub Doubles : ℕ → List ℕ → Type 0
Doubles d [] = Unit
Doubles d (w ∷ ws) = (w ≡ d) × Doubles (d * 2) ws

-- A value that is returned is the last answer.
abbrev pub IsLast : Answer → Option Answer → Type 0
IsLast last (some (value v)) = last ≡ value v
IsLast last (some (error e)) = Unit
IsLast last none = Unit

suc_nonzero : (n : ℕ) → (suc n == 0) ≡ false
suc_nonzero n = ground arith

module _ (fn : ℕ → Answer) (is_retryable : ℕ → Verdict) (context_ends : ℕ → Option ℕ) where
  -- What holds of `left + 1` attempts from the one numbered `attempt` on.
  abbrev pub Ends : ℕ → ℕ → ℕ → Attempts → Type 0
  Ends left attempt backoff a =
      (0 < a.calls)
      × (a.calls ≤ suc left)
      × (a.outcome ≢ none)
      × Doubles backoff a.waits
      × IsLast (fn (attempt + a.calls - 1)) a.outcome

  error-Ends : (left attempt backoff err : ℕ) → Ends left attempt backoff (finished (error err))
  error-Ends left attempt backoff err = (omega arith, omega arith, λ e. cc e, tt, tt)

  before-Ends :
      (left attempt backoff : ℕ) (a : Attempts)
      → Ends left (suc attempt) backoff a
      → Ends (suc left) attempt backoff (before a)
  before-Ends left attempt backoff a (some_call, most, some_answer, doubles, last) = (
    omega arith,
    omega arith,
    some_answer,
    doubles,
    subst (λ n. IsLast (fn n) a.outcome) (omega arith) last,
  )

  waited-Ends :
      (left attempt backoff : ℕ) (a : Attempts)
      → Ends left (suc attempt) (backoff * 2) a
      → Ends (suc left) attempt backoff (waited backoff a)
  waited-Ends left attempt backoff a (some_call, most, some_answer, doubles, last) = (
    omega arith,
    omega arith,
    some_answer,
    (refl, doubles),
    subst (λ n. IsLast (fn n) a.outcome) (omega arith) last,
  )

  abbrev Rest : ℕ → (ℕ → Type 0) → Type 0
  Rest zero P = Unit
  Rest (suc left) P = P left

  error_case :
      (left attempt backoff err : ℕ) (d : Verdict) (now later : Attempts)
      → Rest left (λ l. Ends l (suc attempt) backoff now)
      → Rest left (λ l. Ends l (suc attempt) (backoff * 2) later)
      → Ends left attempt backoff
          (on_error fn is_retryable context_ends attempt (left == 0) backoff err d now later)
  unfolding on_error
  error_case left attempt backoff err fatal now later hn hl = error-Ends left attempt backoff err
  error_case zero attempt backoff err (retry d) now later hn hl =
      error-Ends zero attempt backoff err
  error_case (suc left) attempt backoff err (retry zero) now later hn hl =
      rw (suc_nonzero left) (before-Ends left attempt backoff now hn)
  error_case (suc left) attempt backoff err (retry (suc d)) now later hn hl =
      elim (Option-cases (context_ends attempt)) [
        | inl e ↦
            rw (suc_nonzero left, suc_nonzero d, e) (waited-Ends left attempt backoff later hl)
        | inr (err', e) ↦
            rw (suc_nonzero left, suc_nonzero d, e)
              (omega arith, omega arith, λ e. cc e, (refl, tt), tt)
      ]

  answer_case :
      (left attempt backoff : ℕ) (now later : Attempts)
      → Rest left (λ l. Ends l (suc attempt) backoff now)
      → Rest left (λ l. Ends l (suc attempt) (backoff * 2) later)
      → Ends left attempt backoff (
          on_answer fn is_retryable context_ends attempt (left == 0) backoff (fn attempt) now later)
  unfolding on_answer
  answer_case left attempt backoff now later hn hl = go (fn attempt) refl
    where
      go :
          (a : Answer)
          → fn attempt ≡ a
          → Ends left attempt backoff
              (on_answer fn is_retryable context_ends attempt (left == 0) backoff a now later)
      go (value v) h = (omega arith, omega arith, λ e. cc e, tt, ap fn (omega arith) ∙ h)
      go (error err) h = error_case left attempt backoff err (is_retryable err) now later hn hl

  attempts-Ends :
      (left attempt backoff : ℕ)
      → Ends left attempt backoff (attempts fn is_retryable context_ends (suc left) attempt backoff)
  unfolding attempts
  attempts-Ends zero attempt backoff =
      answer_case zero attempt backoff
        (attempts fn is_retryable context_ends 0 (suc attempt) backoff)
        (attempts fn is_retryable context_ends 0 (suc attempt) (backoff * 2)) tt tt
  attempts-Ends (suc left) attempt backoff =
      answer_case (suc left) attempt backoff
        (attempts fn is_retryable context_ends (suc left) (suc attempt) backoff)
        (attempts fn is_retryable context_ends (suc left) (suc attempt) (backoff * 2))
        (attempts-Ends left (suc attempt) backoff) (attempts-Ends left (suc attempt) (backoff * 2))

  -- With at least one attempt, the loop calls at least once and at most `max_attempts` times, never
  -- reaches the return after it, waits first the initial backoff and then twice as long each time,
  -- and returns a value only if the last call returned it.
  pub retry_with_backoff-Ends :
      (left initial : ℕ)
      → Ends left 1 initial (retry_with_backoff fn is_retryable context_ends (suc left) initial)
  unfolding retry_with_backoff
  retry_with_backoff-Ends left initial = attempts-Ends left 1 initial
