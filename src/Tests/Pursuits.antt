-- ===== src/Tests/Pursuits.antt =====
-- Examples for objectives/objectives.go, engine/objective_pursuit.go, engine/curiosity.go and
-- objective_callbacks.go.
use sokratos.Base.{ℕ, ◌+◌, ◌*◌, ◌≡◌, refl, true, false, none, some, List, [], ◌∷◌, bytes, bytes_eq}
use sokratos.Objectives.{
  ObjectiveStatus, active, retired, Objective, ObjectiveTable, retire, list_active,
}
use sokratos.Objectives.Manage.{ObjectiveArgs, manage_objectives, changed, save_inferred}
use sokratos.Pursuit.Callback.{
  TaskResult, ProgressEval, CallbackAnswers, note_task_result, after_eval,
}
use sokratos.Pursuit.{
  CuriositySignal, PursuitState, PursuitRound, run_objective_pursuit, drain_curiosity_signals, hour,
  StartWrites, signals_stuck, tick, best_signal,
}
use sokratos.Text.{truncate}
use sokratos.Pursuit.Signals.{Drained, drain_curiosity_signals-Drained}

abbrev objective : ℕ → ObjectiveStatus → List ℕ → ℕ → Objective
objective id status priority attempts = record {
  id = id;
  summary = bytes "learn Go";
  status = status;
  priority = priority;
  source = bytes "explicit";
  progress_notes = [];
  attempts = attempts;
  last_pursued = none;
  updated_at = 10 * id;
}

abbrev low_one : Objective
low_one = objective 1 active (bytes "low") 0

abbrev stuck_one : Objective
stuck_one = objective 2 active (bytes "high") 3

abbrev retired_one : Objective
retired_one = objective 3 retired (bytes "high") 1

abbrev table : ObjectiveTable
table = record { rows = low_one ∷ stuck_one ∷ retired_one ∷ []; next_id = 4 }

abbrev start_state : PursuitState
start_state = record {
  objectives = table;
  signals = [];
  last_objective_pursuit_run = none;
  last_curiosity_run = some (100 * hour);
  launched = [];
}

abbrev heartbeat : PursuitRound
heartbeat = record {
  cooldown = 0;
  last_activity = some (100 * hour);
  running = some 0;
  list_ok = true;
  has_channel = true;
  launch_ok = true;
  writes = record { status_ok = true; attempts_ok = true };
  now = 100 * hour;
  after = 100 * hour;
}

-- The stuck objective is chosen, and the other one waits.
stuck_first : (run_objective_pursuit heartbeat start_state).1 ≡ signals_stuck stuck_one
unfolding run_objective_pursuit
stuck_first = refl

abbrev taken : StartWrites
taken = record { status_ok = true; attempts_ok = true }

-- Within the gap after the last curiosity run the signal of the stuck objective is lost, and the
-- pursuit counts as run.
signal_lost :
    tick heartbeat (2 * hour) taken true (100 * hour + 1) (100 * hour + 2) start_state
    ≡ record start_state { signals = []; last_objective_pursuit_run = some (100 * hour) }
unfolding tick
signal_lost = refl

abbrev signal : ℕ → ℕ → CuriositySignal
signal priority objective_id = record {
  source = bytes "objective";
  query = bytes "why";
  priority = priority;
  objective_id = objective_id;
}

abbrev waiting : PursuitState
waiting = record start_state { signals = signal 5 0 ∷ signal 7 2 ∷ signal 7 1 ∷ [] }

drain_curiosity_signals-Drained_example :
    Drained
      (2 * hour)
      taken
      true
      (200 * hour)
      (200 * hour)
      waiting
      (drain_curiosity_signals (2 * hour) taken true (200 * hour) (200 * hour) waiting)
drain_curiosity_signals-Drained_example =
    drain_curiosity_signals-Drained (2 * hour) taken true (200 * hour) (200 * hour) waiting

-- Of two signals of the same priority the first is launched.
first_of_equals : best_signal none (signal 5 0 ∷ signal 7 2 ∷ signal 7 1 ∷ []) ≡ some (signal 7 2)
unfolding best_signal
first_of_equals = refl

abbrev ended : TaskResult
ended = record { objective_id = 3; status = bytes "completed"; result = bytes "done" }

abbrev answers : CallbackAnswers
answers = record {
  result_ok = true;
  get_ok = true;
  progress_ok = false;
  status_ok = true;
  next_ok = true;
}

abbrev continues : ProgressEval
continues = record { progress = bytes "half"; objective_status = bytes "continue"; follow_up = [] }

-- A retired objective whose task ends is active again.
retired_resumed : after_eval answers table 3 continues 7 ≡ record table {
  rows = low_one ∷ stuck_one ∷ record retired_one { status = active; updated_at = 7 } ∷ [];
}
unfolding after_eval
retired_resumed = refl

result_noted :
    (note_task_result (λ c. true) answers table ended 7).1
    ≡ some (record retired_one { progress_notes = bytes "completed: done"; updated_at = 7 })
unfolding note_task_result truncate
result_noted = refl

abbrev retire_first : ObjectiveArgs
retire_first = record {
  op = bytes "retire";
  summary = [];
  objective_id = 1;
  priority = [];
  notes = [];
}

retired_first :
    manage_objectives (λ k s. false) table true retire_first 9 ≡ (retire table 1 9, changed)
unfolding manage_objectives retire
retired_first = refl

-- An objective without text and one that is there already are not saved.
saved_one :
    (save_inferred
      (λ s. s)
      (λ k s. bytes_eq k s)
      (λ s. true)
      table
      (([], []) ∷ (bytes "learn Go", bytes "high") ∷ (bytes "run", bytes "soon") ∷ [])
      9).1
    ≡ 1
unfolding save_inferred
saved_one = refl

listed_in_order : list_active table ≡ stuck_one ∷ low_one ∷ []
unfolding list_active
listed_in_order = refl
