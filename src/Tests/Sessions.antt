-- ===== src/Tests/Sessions.antt =====
-- Examples for engine/background_jobs.go, tools/background_jobs.go, dispatch.go and
-- engine/cognitive.go.
use sokratos.Base.{
  ℕ, ◌≡◌, ◌⊎◌, inr, refl, true, false, none, some, List, [], ◌∷◌, ◌==◌, if◌then◌else◌, bytes,
}
use sokratos.Jobs.{
  BackgroundJob, Jobs, activate, deactivate, set_last_question, cancel, get_job, reply_to_job,
  panics, cancel_job, parks, end_round, closed_down, goes_on, receive, run_rounds, question,
  completed, max_job_rounds,
}
use sokratos.Jobs.Cancel.{reply_after_cancel, cancel_of_a_parked_job}
use sokratos.Cognitive.{
  CognitiveConfig, CognitiveState, is_lull, is_ceiling_hit, run_cognitive, lull,
}
use sokratos.Cognitive.Triggers.{is_volume, run_cognitive_triggers}
use sokratos.Cognitive.Triggers

abbrev draft : BackgroundJob
draft = record {
  id = bytes "a1";
  tool = bytes "send_email";
  user_goal = bytes "write to Ann";
  input = some (bytes "shorter");
  closed = false;
  is_active = true;
  last_question = [];
  tool_succeeded = false;
  cancel_set = true;
  cancelled = false;
}

abbrev jobs : Jobs
jobs = (bytes "a1", draft) ∷ []

reply_after_cancel_example :
    ((cancel_job jobs (bytes "a1")).1 ≡ true)
    × ((reply_to_job (cancel_job jobs (bytes "a1")).0 (bytes "a1") (bytes "formal")).1 ≡ panics)
unfolding get_job
reply_after_cancel_example =
    reply_after_cancel jobs (bytes "a1") (bytes "formal") draft refl refl refl

cancel_of_a_parked_job_example :
    let parked = set_last_question (deactivate draft) (bytes "Send it?") in
    (end_round draft (inr (bytes "Send it?")) ≡ parks parked (bytes "Send it?"))
    × (((draft.input ≡ none) × (receive (cancel parked) ≡ closed_down))
        ⊎ ((m : List ℕ) × (next : BackgroundJob) × (draft.input ≡ some m)
            × (receive (cancel parked) ≡ goes_on next m)
            × ((activate next).cancelled ≡ false)))
cancel_of_a_parked_job_example = cancel_of_a_parked_job draft (bytes "Send it?") refl

-- A job that asks, gets an answer and comes to its end.
two_rounds :
    run_rounds
      (λ n j. if n == 18 then record j { tool_succeeded = true } else j)
      (λ n. inr (bytes "done"))
      (λ n j. record j { input = some (bytes "yes") })
      max_job_rounds
      draft
    ≡ question (bytes "done") ∷ completed (bytes "done") ∷ []
unfolding run_rounds
two_rounds = refl

abbrev often : CognitiveConfig
often = record {
  buffer_threshold = 20;
  lull_duration = 1200;
  ceiling = 14400;
  reflection_memory_threshold = 50;
  reflection_prompt = [];
}

abbrev nudged : CognitiveState
nudged = record { last_cognitive_run = 100; consolidate_nudge = true }

run_cognitive_triggers_example :
    let out = run_cognitive often true nudged (some 25) (some 5000) 5100 5200 in
    (is_volume out.1 ≡ false)
    × ((is_ceiling_hit often nudged 5100 ≡ false) ⊎ (Triggers.runs out.1 ≡ true))
    × ((is_lull often (some 5000) 5100 ≡ true)
        ⊎ ((is_ceiling_hit often nudged 5100 ≡ true) ⊎ (out ≡ (nudged, none))))
    × ((out ≡ (nudged, none))
        ⊎ ((Triggers.runs out.1 ≡ true)
            × (out.0 ≡ record { last_cognitive_run = 5200; consolidate_nudge = false })))
run_cognitive_triggers_example = run_cognitive_triggers often nudged 25 (some 5000) 5100 5200

-- A full buffer after a lull is reported as the lull.
full_buffer_lull :
    (run_cognitive often true
      (record nudged { consolidate_nudge = false })
      (some 25)
      (some 100)
      5100
      5200).1
    ≡ some lull
unfolding run_cognitive
full_buffer_lull = refl
