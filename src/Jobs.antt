-- ===== src/Jobs.antt =====
-- engine/background_jobs.go, tools/background_jobs.go and dispatch.go: sessions that run beside the
-- conversation and ask the user.
-- `InputCh` is a buffer of one message and a flag that says whether it is closed. The context of a
-- round is the flag `cancelled`, and `cancel_set` says whether the job holds its cancel function. The
-- jobs are an association list; the number of a new job is an argument, and so are the answers of the
-- LLM by the number of the round, so the history is left out, and so is the slot of the router. The
-- texts that are sent are values of `Sent`.
pub mod Cancel
use sokratos.Base.{
  ℕ, zero, suc, ◌+◌, ◌-◌, ◌*◌, ◌/◌, ◌%◌, ◌^◌, ◌≤◌, ◌<◌, ◌≡◌, ◌≢◌, ◌↔◌, ◌⊎◌, inl, inr, refl, ap, sym,
  subst, ◌∙◌, Bool, true, false, not, ◌&&◌, ◌||◌, Option, none, some, List, [], ◌∷◌, ◌++◌, ltb, leb,
  ◌==◌, if◌then◌else◌, length, take, drop, get_elem?, is_empty, bytes, bytes_eq, bytes_eq_refl,
  bytes_eq_sound, ℤ, pos, negsuc, positive_or, Elem, All, Bool-cases, Option-cases, arith,
  length-append, has_prefix, length-snoc, length-take-le, length-drop,
}
use sokratos.Registry.{lookup, remove, assign}
use sokratos.Orchestrate.Tools.{is_tool_soft_error}

pub record BackgroundJob : Type 0 where
  pub id : List ℕ
  pub tool : List ℕ
  pub user_goal : List ℕ
  pub input : Option (List ℕ)
  pub closed : Bool
  pub is_active : Bool
  pub last_question : List ℕ
  pub tool_succeeded : Bool
  pub cancel_set : Bool
  pub cancelled : Bool

abbrev pub Jobs : Type 0
Jobs = List (List ℕ × BackgroundJob)

-- `SetActive` with a new context and its cancel function, and without one.
unfoldable pub activate : BackgroundJob → BackgroundJob
activate j = record j { is_active = true; cancel_set = true; cancelled = false }

unfoldable pub deactivate : BackgroundJob → BackgroundJob
deactivate j = record j { is_active = false; cancel_set = false }

unfoldable pub set_last_question : BackgroundJob → List ℕ → BackgroundJob
set_last_question j q = record j { last_question = q }

unfoldable pub set_tool_succeeded : BackgroundJob → Bool → BackgroundJob
set_tool_succeeded j v = record j { tool_succeeded = v }

unfoldable pub snapshot : BackgroundJob → Bool × List ℕ × Bool
snapshot j = (j.is_active, j.last_question, j.tool_succeeded)

-- `Cancel`.
unfoldable pub cancel : BackgroundJob → BackgroundJob
cancel j = record j { cancelled = j.cancelled || j.cancel_set; closed = true }

unfoldable pub create_job : Jobs → List ℕ → List ℕ → List ℕ → Jobs × BackgroundJob
unfolding assign
create_job jobs id tool user_goal =
    let job : BackgroundJob = record {
      id = id;
      tool = tool;
      user_goal = user_goal;
      input = none;
      closed = false;
      is_active = false;
      last_question = [];
      tool_succeeded = false;
      cancel_set = false;
      cancelled = false;
    } in
    (assign jobs id job, job)

unfoldable pub get_job : Jobs → List ℕ → Option BackgroundJob
unfolding lookup
get_job jobs id = lookup jobs id

unfoldable pub remove_job : Jobs → List ℕ → Jobs
unfolding remove
remove_job jobs id = remove jobs id

-- A send on a closed channel is a panic, whatever the buffer holds.
pub data Reply : Type 0 where
  incomplete no_job delivered not_yet panics : Reply

abbrev pub deliver : Jobs → BackgroundJob → Option (List ℕ) → Bool → List ℕ → Jobs × Reply
deliver jobs j buffer true message = (jobs, panics)
deliver jobs j none false message =
    (assign jobs j.id (record j { input = some message }), delivered)
deliver jobs j (some m) false message = (jobs, not_yet)

unfoldable pub reply_to_job : Jobs → List ℕ → List ℕ → Jobs × Reply
unfolding get_job
reply_to_job jobs id message =
    if is_empty id || is_empty message then (jobs, incomplete) else elim (get_job jobs id) [
      | none ↦ (jobs, no_job)
      | some j ↦ deliver jobs j j.input j.closed message
    ]

-- `NewCancelJob`; the flag is whether a job was cancelled.
unfoldable pub cancel_job : Jobs → List ℕ → Jobs × Bool
unfolding get_job cancel assign
cancel_job jobs id = if is_empty id then (jobs, false) else elim (get_job jobs id) [
  | none ↦ (jobs, false)
  | some j ↦ (assign jobs id (cancel j), true)
]

-- What the session's executor answers: a refusal, or the result or the error of `confirmExec`.
pub data Answer : Type 0 where
  refused : Answer
  result tool_failed : List ℕ → Answer

module _ (trim_space to_lower : List ℕ → List ℕ) where
  abbrev pub note_result : BackgroundJob → List ℕ → Answer → BackgroundJob
  note_result j name (result text) =
      if bytes_eq name j.tool && not (is_tool_soft_error trim_space to_lower text)
      then set_tool_succeeded j true
      else j
  note_result j name _ = j

  unfoldable pub session_tool_exec :
      (List ℕ → Answer) → BackgroundJob → List ℕ → BackgroundJob × Answer
  unfolding set_tool_succeeded is_tool_soft_error
  session_tool_exec confirm_exec j name =
      if bytes_eq name (bytes "deep_think")
      then (j, refused)
      else (note_result j name (confirm_exec name), confirm_exec name)

-- What the job sends to the user: that it was cancelled, an error, its last answer, a question, or
-- that its rounds are over.
pub data Sent : Type 0 where
  job_cancelled max_rounds : Sent
  job_error completed question : List ℕ → Sent

-- What a round leaves: an end, or a job that is parked.
pub data Round : Type 0 where
  ends : Sent → Round
  parks : BackgroundJob → List ℕ → Round

abbrev pub after_reply : BackgroundJob → List ℕ → Bool → Round
after_reply j reply true = ends (completed reply)
after_reply j reply false = parks (set_last_question j reply) reply

-- What follows `QueryOrchestrator`, which gives an error or a reply.
unfoldable pub end_round : BackgroundJob → List ℕ ⊎ List ℕ → Round
unfolding deactivate set_last_question
end_round j (inl err) = ends (if j.cancelled then job_cancelled else job_error err)
end_round j (inr reply) = after_reply (deactivate j) reply j.tool_succeeded

-- What a parked job receives: nothing yet, a message, or that the channel is closed. The buffer of a
-- closed channel is still received.
pub data Received : Type 0 where
  waits closed_down : Received
  goes_on : BackgroundJob → List ℕ → Received

unfoldable pub receive : BackgroundJob → Received
unfolding set_last_question
receive j = elim j.input [
  | some m ↦ goes_on (set_last_question (record j { input = none }) []) m
  | none ↦ if j.closed then closed_down else waits
]

-- The loop: `during` is what a round makes of the job while others may reply or cancel, `meanwhile`
-- what they do while it is parked until it receives something. The list is what it sends.
module _ (during : ℕ → BackgroundJob → BackgroundJob) (answer : ℕ → List ℕ ⊎ List ℕ)
    (meanwhile : ℕ → BackgroundJob → BackgroundJob) where
  unfoldable pub run_rounds : ℕ → BackgroundJob → List Sent
  unfolding activate end_round receive
  run_rounds zero j = max_rounds ∷ []
  run_rounds (suc n) j = elim (end_round (during n (activate j)) (answer n)) [
    | ends s ↦ s ∷ []
    | parks j' reply ↦ question reply ∷ elim (receive (meanwhile n j')) [
      | waits ↦ []
      | closed_down ↦ job_cancelled ∷ []
      | goes_on j'' m ↦ run_rounds n j''
    ]
  ]

abbrev pub max_job_rounds : ℕ
max_job_rounds = 20
