-- ===== src/Attempts.antt =====
-- pipelines/retry.go: a call that is tried again, with a backoff that doubles.
-- `fn` and the classification of its errors are parameters; so is whether the context ends while the
-- loop waits after an attempt, with the error that the context then has. Durations do not overflow.
pub mod Backoffs
use sokratos.Base.{
  ℕ, zero, suc, ◌+◌, ◌-◌, ◌*◌, ◌/◌, ◌%◌, ◌^◌, ◌≤◌, ◌<◌, ◌≡◌, ◌≢◌, ◌↔◌, ◌⊎◌, inl, inr, refl, ap, sym,
  ◌∙◌, Bool, true, false, not, ◌&&◌, ◌||◌, Option, none, some, List, [], ◌∷◌, ◌++◌, ltb, leb, ◌==◌,
  if◌then◌else◌, length, take, drop, get_elem?, is_empty, bytes, bytes_eq, ℤ, positive_or, Elem,
  All, Bool-cases, Option-cases, arith, length-append,
}

-- What `IsRetryable` answers: a zero backoff is a retry at once.
pub data Verdict : Type 0 where
  fatal : Verdict
  retry : ℕ → Verdict

pub data Answer : Type 0 where
  value error : ℕ → Answer

-- The answer, the number of calls of `fn`, and the waits that the loop began. `none` is the return
-- after the loop: the zero value with a nil error.
pub record Attempts : Type 0 where
  pub outcome : Option Answer
  pub calls : ℕ
  pub waits : List ℕ

abbrev pub finished : Answer → Attempts
finished a = record { outcome = some a; calls = 1; waits = [] }

abbrev pub before : Attempts → Attempts
before a = record a { calls = suc a.calls }

abbrev pub waited : ℕ → Attempts → Attempts
waited d a = record a { calls = suc a.calls; waits = d ∷ a.waits }

module _ (fn : ℕ → Answer) (is_retryable : ℕ → Verdict) (context_ends : ℕ → Option ℕ) where
  -- After a failed attempt: `last` is `attempt == cfg.MaxAttempts`, and `rest` the attempts that
  -- follow, at once or after the wait.
  unfoldable pub on_error : ℕ → Bool → ℕ → ℕ → Verdict → Attempts → Attempts → Attempts
  on_error attempt last backoff err fatal now later = finished (error err)
  on_error attempt last backoff err (retry d) now later =
      if last
      then finished (error err)
      else if d == 0
      then before now
      else elim (context_ends attempt) [
        | some e ↦ record { outcome = some (error e); calls = 1; waits = backoff ∷ [] }
        | none ↦ waited backoff later
      ]

  unfoldable pub on_answer : ℕ → Bool → ℕ → Answer → Attempts → Attempts → Attempts
  unfolding on_error
  on_answer attempt last backoff (value v) now later = finished (value v)
  on_answer attempt last backoff (error err) now later =
      on_error attempt last backoff err (is_retryable err) now later

  -- The attempts that are left, the number of the next one, and the backoff.
  unfoldable pub attempts : ℕ → ℕ → ℕ → Attempts
  unfolding on_answer
  attempts zero attempt backoff = record { outcome = none; calls = 0; waits = [] }
  attempts (suc left) attempt backoff =
      on_answer attempt (left == 0) backoff (fn attempt) (attempts left (suc attempt) backoff)
        (attempts left (suc attempt) (backoff * 2))

  unfoldable pub retry_with_backoff : ℕ → ℕ → Attempts
  unfolding attempts
  retry_with_backoff max_attempts initial = attempts max_attempts 1 initial
