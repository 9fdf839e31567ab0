-- ===== src/Tests/Work.antt =====
-- Examples for worktracker, engine/scheduler.go, tools/task_queue.go and worktracker/plan_execute.go.
use sokratos.Base.{◌+◌, ◌≤◌, ◌≡◌, refl, true, false, none, some, [], ◌∷◌, bytes, pos, All, arith}
use sokratos.WorkItems.{pending, running, failed, WorkItem, WorkTable, scheduled, find}
use sokratos.WorkItems.Table.{IsTable}
use sokratos.Tracker.{WorkTracker, start, kill_hung_work, is_hung}
use sokratos.Tracker.Slots.{World}
use sokratos.Tracker.Watchdog.{kill_hung_work_clears}
use sokratos.Scheduler.{is_timed, fetch_next_pending_task, commit, commits}
use sokratos.Scheduler.Earliest.{IsEarliest, fetch_next_pending_task-IsEarliest}
use sokratos.Scheduler.Recurring.{Rescheduled, IsOver, commit_reschedules}
use sokratos.Plan.{PlanStep, failed, max_plan_steps, decompose_plan, Server, execute_steps}
use sokratos.Plan.Steps.{Returns, execute_steps-Returns}

abbrev reminder : WorkItem
reminder = record {
  id = 1;
  work_type = scheduled;
  directive = bytes "water the plants";
  status = pending;
  due_at = some 50;
  recurrence = pos 100;
  timeout_at = none;
  completed_at = none;
}

abbrev report : WorkItem
report = record {
  id = 2;
  work_type = scheduled;
  directive = bytes "report";
  status = pending;
  due_at = some 40;
  recurrence = pos 0;
  timeout_at = none;
  completed_at = none;
}

abbrev hung : WorkItem
hung = record {
  id = 3;
  work_type = bytes "background";
  directive = bytes "research";
  status = running;
  due_at = none;
  recurrence = pos 0;
  timeout_at = some 10;
  completed_at = none;
}

abbrev table : WorkTable
table = record { items = reminder ∷ report ∷ hung ∷ []; next_id = 4 }

table-IsTable : IsTable table
table-IsTable = record {
  below = (omega arith, (omega arith, (omega arith, tt)));
  unique = ((omega arith, (omega arith, tt)), ((omega arith, tt), (tt, tt)));
}

abbrev tracker : WorkTracker
tracker = record { db = table; active = 3 ∷ []; called = []; slots = 0 }

abbrev empty : WorkTracker
empty = record { db = record { items = []; next_id = 1 }; active = []; called = []; slots = 0 }

abbrev none_running : World
none_running = record { tracker = empty; waiting = []; working = [] }

abbrev one_waiting : World
one_waiting = record {
  tracker = (start empty true (bytes "research") 5).0;
  waiting = 1 ∷ [];
  working = [];
}

abbrev one_running : World
one_running = record {
  tracker = record ((start empty true (bytes "research") 5).0) { slots = 1 };
  waiting = [];
  working = 1 ∷ [];
}

kill_hung_work_clears_example :
    All (λ i. is_hung 20 i ≡ false) (kill_hung_work tracker true (λ id. true) 20).0.db.items
kill_hung_work_clears_example = kill_hung_work_clears tracker 20

fetch_next_pending_task-IsEarliest_example :
    IsEarliest is_timed table.items (fetch_next_pending_task table.items)
fetch_next_pending_task-IsEarliest_example = fetch_next_pending_task-IsEarliest table.items

-- The report is due before the reminder.
next_report : fetch_next_pending_task table.items ≡ some report
unfolding fetch_next_pending_task
next_report = refl

commit_reschedules_example :
    IsTable (commit table reminder commits 60)
    × Rescheduled table (commit table reminder commits 60) reminder (some 150)
    × IsOver table (commit table reminder commits 60) reminder 2 60
unfolding find
commit_reschedules_example =
    commit_reschedules table reminder 2 60 table-IsTable refl refl (λ e. absurd (omega (arith, e)))
      (λ e. absurd (omega (arith, e)))

abbrev searching : PlanStep
searching = record { description = bytes "search"; tools_needed = bytes "search_web" ∷ [] }

-- Every step fails, and the answer to a plan that is to be revised has one step.
abbrev failing_server : Server
failing_server = record {
  has_deep_thinker = true;
  to_lower = λ s. s;
  rune_start = λ c. true;
  decimal = λ n. (48 + n) ∷ [];
  cancelled_at = λ n. none;
  exec = λ n deep s pad. failed (bytes "timeout");
  replan = λ n pad rest. some (searching ∷ []);
}

execute_steps-Returns_example :
    (2 ≤ max_plan_steps)
    × Returns failing_server 5 (execute_steps failing_server (searching ∷ searching ∷ []))
unfolding decompose_plan
execute_steps-Returns_example =
    execute_steps-Returns failing_server (some (searching ∷ searching ∷ []))
      (searching ∷ searching ∷ []) refl
