-- ===== src/Jobs/Cancel.antt =====
-- What a cancellation does to a job of engine/background_jobs.go.
use sokratos.Base.{
  ℕ, zero, suc, ◌+◌, ◌≤◌, ◌≡◌, ◌⊎◌, inl, inr, refl, true, false, Option, none, some, List, [], ◌∷◌,
  length, is_empty, bytes_eq_refl, Option-cases, arith,
}
use sokratos.Registry.{lookup, assign}
use sokratos.Jobs.{
  BackgroundJob, Jobs, activate, deactivate, set_last_question, cancel, get_job, reply_to_job,
  panics, deliver, cancel_job, parks, end_round, Received, waits, closed_down, goes_on, receive,
  job_cancelled, question, Round, ends, run_rounds,
}

lookup-assign {ℓ} :
    {A : Type ℓ} (m : List (List ℕ × A)) (name : List ℕ) (v : A)
    → lookup (assign m name v) name ≡ some v
unfolding lookup assign
lookup-assign m name v = rw (bytes_eq_refl name) refl

deliver_closed :
    (jobs : Jobs) (j : BackgroundJob) (buffer : Option (List ℕ)) (message : List ℕ)
    → (deliver jobs j buffer true message).1 ≡ panics
deliver_closed jobs j none message = refl
deliver_closed jobs j (some m) message = refl

-- `cancel_job` closes the job's channel and leaves the job in the table until its goroutine ends; a
-- message that `reply_to_job` sends it meanwhile is a send on a closed channel, which panics.
pub reply_after_cancel :
    (jobs : Jobs) (id message : List ℕ) (j : BackgroundJob)
    → is_empty id ≡ false
    → is_empty message ≡ false
    → get_job jobs id ≡ some j
    → ((cancel_job jobs id).1 ≡ true)
      × ((reply_to_job (cancel_job jobs id).0 id message).1 ≡ panics)
unfolding cancel_job reply_to_job get_job cancel
reply_after_cancel jobs id message j i m h = (
  rw (cancel_job, i, h) refl,
  rw (cancel_job, i, h, m)
      (rw (lookup-assign jobs id (cancel j))
        (deliver_closed (assign jobs id (cancel j)) (cancel j) j.input message)),
)

-- A cancellation of a parked job ends it where no message waits for it. Where one does, the job takes
-- the message and goes on to another round, whose context is not cancelled.
pub cancel_of_a_parked_job :
    (j : BackgroundJob) (reply : List ℕ)
    → j.tool_succeeded ≡ false
    → let parked = set_last_question (deactivate j) reply in
      (end_round j (inr reply) ≡ parks parked reply)
      × (((j.input ≡ none) × (receive (cancel parked) ≡ closed_down))
          ⊎ ((m : List ℕ) × (next : BackgroundJob) × (j.input ≡ some m)
              × (receive (cancel parked) ≡ goes_on next m)
              × ((activate next).cancelled ≡ false)))
unfolding end_round receive cancel deactivate set_last_question activate
cancel_of_a_parked_job j reply t = (
  rw (end_round, t) refl,
  elim (Option-cases j.input) [
    | inl e ↦ inl (e, rw (receive, e) refl)
    | inr (m, e) ↦ inr (
      m,
      set_last_question (record (cancel (set_last_question (deactivate j) reply)) { input = none })
          [],
      e,
      rw (receive, e) refl,
      refl,
    )
  ],
)

module _ (during : ℕ → BackgroundJob → BackgroundJob) (answer : ℕ → List ℕ ⊎ List ℕ)
    (meanwhile : ℕ → BackgroundJob → BackgroundJob) where
  -- A job sends at most one text more than it has rounds.
  length-run_rounds :
      (n : ℕ) (j : BackgroundJob) → length (run_rounds during answer meanwhile n j) ≤ n + 1
  unfolding run_rounds
  length-run_rounds zero j = omega arith
  length-run_rounds (suc n) j =
      after_round n (end_round (during n (activate j)) (answer n)) (λ k. length-run_rounds n k)
    where
      received :
          (n : ℕ) (r : Received)
          → ((k : BackgroundJob) → length (run_rounds during answer meanwhile n k) ≤ n + 1)
          → length (elim r [
            | waits ↦ []
            | closed_down ↦ job_cancelled ∷ []
            | goes_on k m ↦ run_rounds during answer meanwhile n k
          ])
            ≤ n + 1
      received n waits ih = omega arith
      received n closed_down ih = omega arith
      received n (goes_on k m) ih = ih k

      after_round :
          (n : ℕ) (r : Round)
          → ((k : BackgroundJob) → length (run_rounds during answer meanwhile n k) ≤ n + 1)
          → length (elim r [
            | ends s ↦ s ∷ []
            | parks k reply ↦ question reply ∷ elim (receive (meanwhile n k)) [
              | waits ↦ []
              | closed_down ↦ job_cancelled ∷ []
              | goes_on k' m ↦ run_rounds during answer meanwhile n k'
            ]
          ])
            ≤ suc n + 1
      after_round n (ends s) ih = omega arith
      after_round n (parks k reply) ih = omega (arith, received n (receive (meanwhile n k)) ih)
